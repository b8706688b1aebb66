-- ===== src/Topics/Offers.antt =====
-- Each entry of TopicManager stands under the key of its names, and has publishers of its service only.
use omni_binder.Prelude.{
  ℕ, ◌≡◌, refl, Bool, ◌&&◌, some, [], ◌∷◌, Bool-cases, Option-cases, inl, inr, sym,
}
use omni_binder.OrderedMap.{Map, Set, find, contains, insert, erase}
use omni_binder.OrderedMap.Each.{Each, Each-find, Each-insert, Each-erase}
use omni_binder.OrderedMap.Keys.{Name, name_key, number_key}
use omni_binder.Topics.{
  Topics, TopicEntry, PublisherSlot, Filter, new_entry, erase_entry_if_unused, drop_publishers,
  filter_key, entry_key, set_publishers, is_empty, sub_size, held,
}
use omni_binder.Topics.Publishers.{has_fd, put_slot, with_entry}
use omni_binder.Topics.Subscribers.{put_subscription, set_subscribers, is_refused}
use omni_binder.Topics.Closing.{keep_others, close_publications, close_subscriptions}
use omni_binder.Topics.EntryKeys.{entry_key_injective}

abbrev pub HasService : Name → Name → PublisherSlot → Type 0
HasService service i slot = slot.info.name ≡ service

abbrev pub AllOf : Name → Map Name PublisherSlot → Type 0
AllOf service slots = Each (HasService service) slots

abbrev pub IsOwnEntry : Name → TopicEntry → Type 0
IsOwnEntry k e = (entry_key e.service_name e.topic_name ≡ k) × AllOf e.service_name e.publishers

abbrev pub IsFiled : Topics → Type 0
IsFiled s = Each IsOwnEntry s.topics

AllOf-drop_publishers :
    (service : Name) (picked : ℕ → Bool) (k : Name) (slots : Map Name PublisherSlot)
    (index : Map ℕ (Set Name))
    → AllOf service slots
    → AllOf service (drop_publishers picked k slots index).0
unfolding drop_publishers
AllOf-drop_publishers service picked k [] index all = tt
AllOf-drop_publishers service picked k ((i, slot) ∷ slots) index all =
    elim (Bool-cases (picked slot.fd)) [
      | inl h ↦ rw (h, drop_publishers) (AllOf-drop_publishers service picked k slots _ all.1)
      | inr h ↦
          rw (h, drop_publishers) (all.0, AllOf-drop_publishers service picked k slots _ all.1)
    ]

AllOf-keep_others :
    (service : Name) (fd : ℕ) (slots : Map Name PublisherSlot)
    → AllOf service slots
    → AllOf service (keep_others fd slots)
unfolding keep_others
AllOf-keep_others service fd [] all = tt
AllOf-keep_others service fd ((i, slot) ∷ slots) all = elim (Bool-cases (has_fd fd slot.fd)) [
  | inl h ↦ rw (h, keep_others) (AllOf-keep_others service fd slots all.1)
  | inr h ↦ rw (h, keep_others) (all.0, AllOf-keep_others service fd slots all.1)
]

module _ (s : Topics) (k : Name) (v : IsFiled s) where
  pub erase_entry_if_unused-IsFiled : IsFiled (erase_entry_if_unused s k)
  unfolding erase_entry_if_unused
  erase_entry_if_unused-IsFiled = elim (Option-cases (find k s.topics)) [
    | inl h ↦ rw (h, erase_entry_if_unused) v
    | inr (e, h) ↦ elim (Bool-cases (is_empty e.publishers && is_empty e.subscribers)) [
      | inl u ↦ rw (h, u, erase_entry_if_unused) (Each-erase IsOwnEntry k s.topics v)
      | inr u ↦ rw (h, u, erase_entry_if_unused) v
    ]
  ]

  module _ (e : TopicEntry) (h : find k s.topics ≡ some e) where
    found : IsOwnEntry k e
    found = Each-find IsOwnEntry k e s.topics v h

    pub dropped-IsFiled :
        (picked : ℕ → Bool)
        → let (kept, index) = drop_publishers picked k e.publishers s.fd_publications in
          IsFiled (set_publishers s k e kept index)
    unfolding set_publishers
    dropped-IsFiled picked =
        Each-insert IsOwnEntry k _ s.topics
          (
            found.0,
            AllOf-drop_publishers e.service_name picked k e.publishers s.fd_publications found.1,
          )
          v

    pub set_subscribers-IsFiled :
        (subscribers : Map ℕ (Map Name Filter)) → IsFiled (set_subscribers s k e subscribers)
    unfolding set_subscribers
    set_subscribers-IsFiled subscribers =
        Each-insert IsOwnEntry k (record e { subscribers = subscribers }) s.topics found v

    kept-IsFiled :
        (fd : ℕ)
        → Each IsOwnEntry
            (insert k (record e { publishers = keep_others fd e.publishers }) s.topics)
    kept-IsFiled fd =
        Each-insert IsOwnEntry k _ s.topics
          (found.0, AllOf-keep_others e.service_name fd e.publishers found.1) v

pub close_publications-IsFiled :
    (fd : ℕ) (s : Topics) (k : Name) → IsFiled s → IsFiled (close_publications fd s k).1
unfolding close_publications
close_publications-IsFiled fd s k v = elim (Option-cases (find k s.topics)) [
  | inl h ↦ rw (h, close_publications) v
  | inr (e, h) ↦
      rw (h, close_publications)
        (erase_entry_if_unused-IsFiled
          (record s {
            topics = insert k (record e { publishers = keep_others fd e.publishers }) s.topics;
          })
          k (kept-IsFiled s k v e h fd))
]

pub close_subscriptions-IsFiled :
    (fd : ℕ) (s : Topics) (k : Name) → IsFiled s → IsFiled (close_subscriptions fd s k)
unfolding close_subscriptions set_subscribers
close_subscriptions-IsFiled fd s k v = elim (Option-cases (find k s.topics)) [
  | inl h ↦ rw (h, close_subscriptions) v
  | inr (e, h) ↦ elim (Bool-cases (contains fd e.subscribers)) [
    | inr c ↦ rw (h, c, close_subscriptions) (erase_entry_if_unused-IsFiled s k v)
    | inl c ↦
        rw (h, c, close_subscriptions)
          (erase_entry_if_unused-IsFiled
            (record s {
              topics = insert k (record e { subscribers = erase fd e.subscribers }) s.topics;
              total_subscriptions = sub_size s.total_subscriptions (held fd e);
            })
            k (set_subscribers-IsFiled s k v e h (erase fd e.subscribers)))
  ]
]

pub with_entry-IsFiled :
    (s : Topics) (service topic : Name)
    → IsFiled s
    → IsFiled (with_entry s (entry_key service topic) service topic)
unfolding with_entry new_entry
with_entry-IsFiled s service topic v =
    elim (Bool-cases (contains (entry_key service topic) s.topics)) [
      | inl h ↦ rw (h, with_entry) v
      | inr h ↦ rw (h, with_entry) (Each-insert IsOwnEntry _ _ s.topics (refl, tt) v)
    ]

pub put_slot-IsFiled :
    (s : Topics) (topic i : Name) (slot : PublisherSlot)
    → IsFiled s
    → IsFiled (put_slot s (entry_key slot.info.name topic) i slot)
unfolding put_slot set_publishers
put_slot-IsFiled s topic i slot v =
    let k = entry_key slot.info.name topic in
    elim (Option-cases (find k s.topics)) [
      | inl h ↦ rw (h, put_slot) v
      | inr (e, h) ↦
          let own = found s k v e h in
          let names = entry_key_injective e.service_name slot.info.name e.topic_name topic own.0 in
          rw (h, put_slot)
            (Each-insert IsOwnEntry k _ s.topics
              (
                own.0,
                Each-insert (HasService e.service_name) i slot e.publishers (sym names.0) own.1,
              )
              v)
    ]

pub put_subscription-IsFiled :
    (s : Topics) (k : Name) (selector : Filter) (fd : ℕ)
    → IsFiled s
    → IsFiled (put_subscription s k selector fd).1
unfolding put_subscription
put_subscription-IsFiled s k selector fd v = elim (Option-cases (find k s.topics)) [
  | inl h ↦ rw (h, put_subscription) v
  | inr (e, h) ↦ elim (Bool-cases (is_refused e (filter_key selector) fd)) [
    | inl t ↦ rw (h, t, put_subscription) v
    | inr t ↦ rw (h, t, put_subscription) (set_subscribers-IsFiled s k v e h _)
  ]
]
