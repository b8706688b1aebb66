-- ===== src/Topics/Closed.antt =====
-- The rounds of removeByFd, entry by entry.
use omni_binder.Prelude.{
  ℕ, ◌≡◌, refl, ◌&&◌, not, List, [], ◌∷◌, arith, ==_iff, Bool-cases, Option-cases, inl, inr,
}
use omni_binder.OrderedMap.{Map, Set, find, contains, insert, erase, keys}
use omni_binder.OrderedMap.Keys.{Name, name_eq, name_eq_iff, name_key, number_key}
use omni_binder.OrderedMap.Laws.{find-insert, find-erase}
use omni_binder.OrderedMap.Nested.{find2}
use omni_binder.Registry.{names_seen}
use omni_binder.Topics.{Topics, TopicEntry, sub_size, held}
use omni_binder.Topics.Subscribers.{set_subscribers}
use omni_binder.Topics.Closing.{
  keep_others, close_publications, close_all_publications, close_subscriptions,
  close_all_subscriptions, indexed,
}
use omni_binder.Topics.Indexed.{publishing, subscribing, names}
use omni_binder.Topics.Cleared.{
  publishing-keep_others, publishing-erase_entry_if_unused, subscribing-erase_entry_if_unused,
}

publishing-close_publications :
    (fd : ℕ) (s : Topics) (k j : Name)
    → publishing fd (find j (close_publications fd s k).1.topics)
      ≡ (publishing fd (find j s.topics) && not (name_eq k j))
unfolding close_publications
publishing-close_publications fd s k j = elim (Option-cases (find k s.topics)) [
  | inl h ↦ rw (h, close_publications) (ground (arith, h, name_eq_iff k j))
  | inr (e, h) ↦
      let e' : TopicEntry = record e { publishers = keep_others fd e.publishers } in
      rw (h, close_publications)
        (ground (
          arith,
          h,
          publishing-erase_entry_if_unused (record s { topics = insert k e' s.topics }) k j fd,
          find-insert k j e' s.topics,
          publishing-keep_others fd fd e.publishers,
          ==_iff fd fd,
          name_eq_iff k j,
        ))
]

subscribing-close_publications :
    (fd : ℕ) (s : Topics) (k j : Name)
    → subscribing fd (find j (close_publications fd s k).1.topics)
      ≡ subscribing fd (find j s.topics)
unfolding close_publications
subscribing-close_publications fd s k j = elim (Option-cases (find k s.topics)) [
  | inl h ↦ rw (h, close_publications)
  | inr (e, h) ↦
      let e' : TopicEntry = record e { publishers = keep_others fd e.publishers } in
      rw (h, close_publications)
        (ground (
          arith,
          h,
          subscribing-erase_entry_if_unused (record s { topics = insert k e' s.topics }) k j fd,
          find-insert k j e' s.topics,
          name_eq_iff k j,
        ))
]

pub publishing-close_all_publications :
    (fd : ℕ) (ks : List Name) (s : Topics) (j : Name)
    → publishing fd (find j (close_all_publications fd ks s).1.topics)
      ≡ (publishing fd (find j s.topics) && not (names_seen j ks))
unfolding close_all_publications names_seen
publishing-close_all_publications fd [] s j = ground arith
publishing-close_all_publications fd (k ∷ ks) s j = ground (
  arith,
  publishing-close_publications fd s k j,
  publishing-close_all_publications fd ks (close_publications fd s k).1 j,
)

pub subscribing-close_all_publications :
    (fd : ℕ) (ks : List Name) (s : Topics) (j : Name)
    → subscribing fd (find j (close_all_publications fd ks s).1.topics)
      ≡ subscribing fd (find j s.topics)
unfolding close_all_publications
subscribing-close_all_publications fd [] s j = refl
subscribing-close_all_publications fd (k ∷ ks) s j = ground (
  arith,
  subscribing-close_publications fd s k j,
  subscribing-close_all_publications fd ks (close_publications fd s k).1 j,
)

subscribing-close_subscriptions :
    (fd : ℕ) (s : Topics) (k j : Name)
    → subscribing fd (find j (close_subscriptions fd s k).topics)
      ≡ (subscribing fd (find j s.topics) && not (name_eq k j))
unfolding close_subscriptions set_subscribers
subscribing-close_subscriptions fd s k j = elim (Option-cases (find k s.topics)) [
  | inl h ↦ rw (h, close_subscriptions) (ground (arith, h, name_eq_iff k j))
  | inr (e, h) ↦ elim (Bool-cases (contains fd e.subscribers)) [
    | inr c ↦
        rw (h, c, close_subscriptions)
          (ground (arith, h, c, subscribing-erase_entry_if_unused s k j fd, name_eq_iff k j))
    | inl c ↦
        let e' : TopicEntry = record e { subscribers = erase fd e.subscribers } in
        let s' : Topics = record s {
          topics = insert k e' s.topics;
          total_subscriptions = sub_size s.total_subscriptions (held fd e);
        } in
        rw (h, c, close_subscriptions)
          (ground (
            arith,
            h,
            subscribing-erase_entry_if_unused s' k j fd,
            find-insert k j e' s.topics,
            find-erase fd fd e.subscribers,
            ==_iff fd fd,
            name_eq_iff k j,
          ))
  ]
]

publishing-close_subscriptions :
    (fd : ℕ) (s : Topics) (k j : Name)
    → publishing fd (find j (close_subscriptions fd s k).topics) ≡ publishing fd (find j s.topics)
unfolding close_subscriptions set_subscribers
publishing-close_subscriptions fd s k j = elim (Option-cases (find k s.topics)) [
  | inl h ↦ rw (h, close_subscriptions)
  | inr (e, h) ↦ elim (Bool-cases (contains fd e.subscribers)) [
    | inr c ↦ rw (h, c, close_subscriptions) (publishing-erase_entry_if_unused s k j fd)
    | inl c ↦
        let e' : TopicEntry = record e { subscribers = erase fd e.subscribers } in
        let s' : Topics = record s {
          topics = insert k e' s.topics;
          total_subscriptions = sub_size s.total_subscriptions (held fd e);
        } in
        rw (h, c, close_subscriptions)
          (ground (
            arith,
            h,
            publishing-erase_entry_if_unused s' k j fd,
            find-insert k j e' s.topics,
            name_eq_iff k j,
          ))
  ]
]

pub subscribing-close_all_subscriptions :
    (fd : ℕ) (ks : List Name) (s : Topics) (j : Name)
    → subscribing fd (find j (close_all_subscriptions fd ks s).topics)
      ≡ (subscribing fd (find j s.topics) && not (names_seen j ks))
unfolding close_all_subscriptions names_seen
subscribing-close_all_subscriptions fd [] s j = ground arith
subscribing-close_all_subscriptions fd (k ∷ ks) s j = ground (
  arith,
  subscribing-close_subscriptions fd s k j,
  subscribing-close_all_subscriptions fd ks (close_subscriptions fd s k) j,
)

pub publishing-close_all_subscriptions :
    (fd : ℕ) (ks : List Name) (s : Topics) (j : Name)
    → publishing fd (find j (close_all_subscriptions fd ks s).topics)
      ≡ publishing fd (find j s.topics)
unfolding close_all_subscriptions
publishing-close_all_subscriptions fd [] s j = refl
publishing-close_all_subscriptions fd (k ∷ ks) s j = ground (
  arith,
  publishing-close_subscriptions fd s k j,
  publishing-close_all_subscriptions fd ks (close_subscriptions fd s k) j,
)

-- An entry that an index names for the connection is one that a round visits.
pub seen-indexed :
    (fd : ℕ) (j : Name) (index : Map ℕ (Set Name))
    → names_seen j (indexed fd index) ≡ names fd j index
unfolding find2 find names_seen
seen-indexed fd j index = elim (Option-cases (find fd index)) [
  | inl h ↦ rw (h, find2)
  | inr (inner, h) ↦ rw (h, find2) (seen-keys inner)
]
  where
    seen-keys : (inner : Set Name) → names_seen j (keys inner) ≡ contains j inner
    seen-keys [] = refl
    seen-keys ((k, u) ∷ inner) = ground (arith, seen-keys inner)
