-- ===== src/Topics/Cleared.antt =====
-- What the rounds of removeByFd leave of a connection's publications and subscriptions.
use omni_binder.Prelude.{
  ℕ, ◌≡◌, refl, ◌&&◌, not, List, [], ◌∷◌, arith, ◌==◌, ==_iff, Bool-cases, Option-cases, inl, inr,
}
use omni_binder.OrderedMap.{Map, find, contains}
use omni_binder.OrderedMap.Keys.{Name, name_eq_iff, name_key, number_key}
use omni_binder.OrderedMap.Laws.{find-erase}
use omni_binder.Topics.{Topics, PublisherSlot, erase_entry_if_unused, any_picked, is_empty}
use omni_binder.Topics.Publishers.{has_fd}
use omni_binder.Topics.Subscribers.{set_subscribers}
use omni_binder.Topics.Closing.{
  keep_others, close_publications, close_all_publications, close_subscriptions,
  close_all_subscriptions,
}
use omni_binder.Topics.Indexed.{publishing, subscribing}

pub publishing-keep_others :
    (fd f : ℕ) (slots : Map Name PublisherSlot)
    → any_picked (has_fd f) (keep_others fd slots) ≡ (any_picked (has_fd f) slots && not (f == fd))
unfolding keep_others any_picked
publishing-keep_others fd f [] = refl
publishing-keep_others fd f ((i, slot) ∷ slots) =
    ground
      (arith, publishing-keep_others fd f slots, ==_iff slot.fd f, ==_iff slot.fd fd, ==_iff f fd)

-- An entry that is unused goes without a trace among the publications and subscriptions.
pub publishing-erase_entry_if_unused :
    (s : Topics) (k j : Name) (fd : ℕ)
    → publishing fd (find j (erase_entry_if_unused s k).topics) ≡ publishing fd (find j s.topics)
unfolding erase_entry_if_unused any_picked
publishing-erase_entry_if_unused s k j fd = elim (Option-cases (find k s.topics)) [
  | inl h ↦ rw (h, erase_entry_if_unused)
  | inr (e, h) ↦ elim (Bool-cases (is_empty e.publishers && is_empty e.subscribers)) [
    | inr u ↦ rw (h, u, erase_entry_if_unused)
    | inl u ↦
        rw (h, u, erase_entry_if_unused)
          (ground (arith, h, u, find-erase k j s.topics, name_eq_iff k j))
  ]
]

pub subscribing-erase_entry_if_unused :
    (s : Topics) (k j : Name) (fd : ℕ)
    → subscribing fd (find j (erase_entry_if_unused s k).topics) ≡ subscribing fd (find j s.topics)
unfolding erase_entry_if_unused find
subscribing-erase_entry_if_unused s k j fd = elim (Option-cases (find k s.topics)) [
  | inl h ↦ rw (h, erase_entry_if_unused)
  | inr (e, h) ↦ elim (Bool-cases (is_empty e.publishers && is_empty e.subscribers)) [
    | inr u ↦ rw (h, u, erase_entry_if_unused)
    | inl u ↦
        rw (h, u, erase_entry_if_unused)
          (ground (arith, h, u, find-erase k j s.topics, name_eq_iff k j))
  ]
]

-- The indices stay as they are.
pub record IsSameIndices (s s' : Topics) : Type 0 where
  pub publications : s'.fd_publications ≡ s.fd_publications
  pub subscriptions : s'.fd_subscriptions ≡ s.fd_subscriptions

erase_entry_if_unused-IsSameIndices :
    (s t : Topics) (k : Name) → IsSameIndices s t → IsSameIndices s (erase_entry_if_unused t k)
unfolding erase_entry_if_unused
erase_entry_if_unused-IsSameIndices s t k v = record {
  publications = ground (arith, v.publications);
  subscriptions = ground (arith, v.subscriptions);
}

close_publications-IsSameIndices :
    (fd : ℕ) (s : Topics) (k : Name) → IsSameIndices s (close_publications fd s k).1
unfolding close_publications
close_publications-IsSameIndices fd s k = elim (Option-cases (find k s.topics)) [
  | inl h ↦ rw (h, close_publications) (record { publications = refl; subscriptions = refl })
  | inr (e, h) ↦
      rw (h, close_publications)
        (erase_entry_if_unused-IsSameIndices s _ k
          (record { publications = refl; subscriptions = refl }))
]

close_subscriptions-IsSameIndices :
    (fd : ℕ) (s : Topics) (k : Name) → IsSameIndices s (close_subscriptions fd s k)
unfolding close_subscriptions set_subscribers
close_subscriptions-IsSameIndices fd s k = elim (Option-cases (find k s.topics)) [
  | inl h ↦ rw (h, close_subscriptions) (record { publications = refl; subscriptions = refl })
  | inr (e, h) ↦ elim (Bool-cases (contains fd e.subscribers)) [
    | inl c ↦
        rw (h, c, close_subscriptions)
          (erase_entry_if_unused-IsSameIndices s _ k
            (record { publications = refl; subscriptions = refl }))
    | inr c ↦
        rw (h, c, close_subscriptions)
          (erase_entry_if_unused-IsSameIndices s _ k
            (record { publications = refl; subscriptions = refl }))
  ]
]

pub close_all_publications-IsSameIndices :
    (fd : ℕ) (ks : List Name) (s : Topics) → IsSameIndices s (close_all_publications fd ks s).1
unfolding close_all_publications
close_all_publications-IsSameIndices fd [] s = record { publications = refl; subscriptions = refl }
close_all_publications-IsSameIndices fd (k ∷ ks) s =
    let one = close_publications-IsSameIndices fd s k in
    let all = close_all_publications-IsSameIndices fd ks (close_publications fd s k).1 in
    record {
      publications = cc (one.publications, all.publications);
      subscriptions = cc (one.subscriptions, all.subscriptions);
    }

pub close_all_subscriptions-IsSameIndices :
    (fd : ℕ) (ks : List Name) (s : Topics) → IsSameIndices s (close_all_subscriptions fd ks s)
unfolding close_all_subscriptions
close_all_subscriptions-IsSameIndices fd [] s = record { publications = refl; subscriptions = refl }
close_all_subscriptions-IsSameIndices fd (k ∷ ks) s =
    let one = close_subscriptions-IsSameIndices fd s k in
    let all = close_all_subscriptions-IsSameIndices fd ks (close_subscriptions fd s k) in
    record {
      publications = cc (one.publications, all.publications);
      subscriptions = cc (one.subscriptions, all.subscriptions);
    }
