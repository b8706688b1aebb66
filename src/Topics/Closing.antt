-- ===== src/Topics/Closing.antt =====
-- removeByFd: what goes with a control connection that closes.
use omni_binder.Prelude.{ℕ, none, some, List, [], ◌∷◌, ◌++◌, if◌then◌else◌}
use omni_binder.OrderedMap.Nested.{or_empty}
use omni_binder.OrderedMap.{Map, Set, find, contains, erase, keys, insert}
use omni_binder.OrderedMap.Keys.{Name, name_key, number_key}
use omni_binder.Topics.{Topics, PublisherSlot, erase_entry_if_unused, any_picked, held, sub_size}
use omni_binder.Topics.Publishers.{has_fd}
use omni_binder.Topics.Subscribers.{set_subscribers}

unfoldable pub keep_others : ℕ → Map Name PublisherSlot → Map Name PublisherSlot
keep_others fd [] = []
keep_others fd ((i, slot) ∷ slots) =
    let rest = keep_others fd slots in if has_fd fd slot.fd then rest else (i, slot) ∷ rest

-- The publications at one entry.
unfoldable pub close_publications : ℕ → Topics → Name → List Name × Topics
close_publications fd s ekey = elim (find ekey s.topics) [
  | none ↦ ([], s)
  | some e ↦ (
    if any_picked (has_fd fd) e.publishers then e.topic_name ∷ [] else [],
    erase_entry_if_unused
        (record s {
          topics = insert ekey (record e { publishers = keep_others fd e.publishers }) s.topics;
        })
        ekey,
  )
]

unfoldable pub close_all_publications : ℕ → List Name → Topics → List Name × Topics
close_all_publications fd [] s = ([], s)
close_all_publications fd (k ∷ ks) s =
    let (here, s') = close_publications fd s k in
    let (there, s'') = close_all_publications fd ks s' in (here ++ there, s'')

-- The subscriptions at one entry.
unfoldable pub close_subscriptions : ℕ → Topics → Name → Topics
close_subscriptions fd s ekey = elim (find ekey s.topics) [
  | none ↦ s
  | some e ↦
      erase_entry_if_unused
        (if contains fd e.subscribers
          then record (set_subscribers s ekey e (erase fd e.subscribers)) {
            total_subscriptions = sub_size s.total_subscriptions (held fd e);
          }
          else s)
        ekey
]

unfoldable pub close_all_subscriptions : ℕ → List Name → Topics → Topics
close_all_subscriptions fd [] s = s
close_all_subscriptions fd (k ∷ ks) s = close_all_subscriptions fd ks (close_subscriptions fd s k)

-- The entries that an index names for the connection.
abbrev pub indexed : ℕ → Map ℕ (Set Name) → List Name
indexed fd index = keys (or_empty (find fd index))

unfoldable pub remove_by_fd : Topics → ℕ → List Name × Topics
remove_by_fd s fd =
    let (removed, s') =
      close_all_publications fd (indexed fd s.fd_publications)
        (record s { fd_publications = erase fd s.fd_publications }) in
    let s'' =
      close_all_subscriptions fd (indexed fd s'.fd_subscriptions)
        (record s' { fd_subscriptions = erase fd s'.fd_subscriptions }) in
    (removed, record s'' { fd_subscription_counts = erase fd s''.fd_subscription_counts })
