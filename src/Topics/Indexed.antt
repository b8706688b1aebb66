-- ===== src/Topics/Indexed.antt =====
-- The reverse indices of TopicManager against the entries, through the steps that the operations are
-- made of.
use omni_binder.Prelude.{
  ℕ, ◌≡◌, ◌≢◌, refl, Bool, true, false, ◌&&◌, ◌||◌, not, Option, none, some, [], ◌∷◌, arith, ==_iff,
  if◌then◌else◌, Bool-cases, Option-cases, inl, inr,
}
use omni_binder.OrderedMap.{Map, Set, find, contains, replace, add, insert, erase, is_some}
use omni_binder.OrderedMap.Keys.{Name, name_eq, name_eq_iff, name_key, number_key}
use omni_binder.OrderedMap.Laws.{find-insert, find-erase}
use omni_binder.OrderedMap.Nested.{or_empty, find2, insert2, erase2, find2-insert2, find2-erase2}
use omni_binder.Topics.{
  Topics, TopicEntry, PublisherSlot, Filter, new_entry, erase_entry_if_unused, drop_publishers,
  any_picked, set_publishers, is_empty, filter_key,
}
use omni_binder.Topics.Publishers.{has_fd, put_slot}
use omni_binder.Topics.Subscribers.{
  set_subscribers, put_subscription, is_refused, drop_subscriptions,
}

-- Whether the connection publishes, or subscribes, at an entry.
abbrev pub publishing : ℕ → Option TopicEntry → Bool
publishing fd none = false
publishing fd (some e) = any_picked (has_fd fd) e.publishers

abbrev pub subscribing : ℕ → Option TopicEntry → Bool
subscribing fd none = false
subscribing fd (some e) = contains fd e.subscribers

abbrev pub names : ℕ → Name → Map ℕ (Set Name) → Bool
names fd k index = is_some (find2 fd k index)

-- The indices name each entry where a connection publishes, and just those where it subscribes,
-- except for the connection `skip`, where there is one.
pub record IsIndexed (skip : Option ℕ) (s : Topics) : Type 0 where
  pub publications :
      (fd : ℕ) (k : Name)
      → some fd ≢ skip
      → publishing fd (find k s.topics) ≡ true
      → names fd k s.fd_publications ≡ true
  pub subscriptions :
      (fd : ℕ) (k : Name)
      → some fd ≢ skip
      → names fd k s.fd_subscriptions ≡ subscribing fd (find k s.topics)

kept-publishing :
    (picked : ℕ → Bool) (k : Name) (slots : Map Name PublisherSlot) (index : Map ℕ (Set Name))
    (fd : ℕ)
    → any_picked (has_fd fd) (drop_publishers picked k slots index).0
      ≡ (any_picked (has_fd fd) slots && not (picked fd))
unfolding drop_publishers any_picked
kept-publishing picked k [] index fd = refl
kept-publishing picked k ((i, slot) ∷ slots) index fd = ground (
  arith,
  kept-publishing picked k slots (if picked slot.fd then erase2 slot.fd k index else index) fd,
  ==_iff slot.fd fd,
)

kept-index :
    (picked : ℕ → Bool) (k : Name) (slots : Map Name PublisherSlot) (index : Map ℕ (Set Name))
    (fd : ℕ) (j : Name)
    → find2 fd j (drop_publishers picked k slots index).1 ≡ (
        if picked fd && any_picked (has_fd fd) slots && name_eq k j then none else find2 fd j index)
unfolding drop_publishers any_picked
kept-index picked k [] index fd j = ground arith
kept-index picked k ((i, slot) ∷ slots) index fd j = ground (
  arith,
  kept-index picked k slots (if picked slot.fd then erase2 slot.fd k index else index) fd j,
  find2-erase2 slot.fd fd k j index,
  ==_iff slot.fd fd,
)

any_picked-replace :
    (picked : ℕ → Bool) (i : Name) (slot : PublisherSlot) (slots : Map Name PublisherSlot)
    → any_picked picked (replace i slot slots) ≡ true
    → (picked slot.fd || any_picked picked slots) ≡ true
unfolding any_picked replace
any_picked-replace picked i slot [] h = ground arith
any_picked-replace picked i slot ((j, w) ∷ slots) h =
    ground (arith, any_picked-replace picked i slot slots)

any_picked-add :
    (picked : ℕ → Bool) (i : Name) (slot : PublisherSlot) (slots : Map Name PublisherSlot)
    → any_picked picked (add i slot slots) ≡ true
    → (picked slot.fd || any_picked picked slots) ≡ true
unfolding any_picked add
any_picked-add picked i slot [] h = ground arith
any_picked-add picked i slot ((j, w) ∷ slots) h = ground (arith, any_picked-add picked i slot slots)

any_picked-insert :
    (picked : ℕ → Bool) (i : Name) (slot : PublisherSlot) (slots : Map Name PublisherSlot)
    → any_picked picked (insert i slot slots) ≡ true
    → (picked slot.fd || any_picked picked slots) ≡ true
unfolding insert
any_picked-insert picked i slot slots h =
    ground (arith, any_picked-replace picked i slot slots, any_picked-add picked i slot slots)

module _ {skip : Option ℕ} where
  pub new_entry-IsIndexed :
      (s : Topics) (k service topic : Name)
      → find k s.topics ≡ none
      → IsIndexed skip s
      → IsIndexed skip (new_entry s k service topic)
  unfolding new_entry any_picked find
  new_entry-IsIndexed s k service topic h v =
      let e : TopicEntry = record {
        service_name = service;
        topic_name = topic;
        publishers = [];
        subscribers = [];
      } in
      record {
        publications =
            λ fd j n p. v.publications fd j n (ground (arith, p, find-insert k j e s.topics));
        subscriptions = λ fd j n.
            ground (arith, h, v.subscriptions fd j n, find-insert k j e s.topics, name_eq_iff k j);
      }

  pub erase_entry_if_unused-IsIndexed :
      (s : Topics) (k : Name) → IsIndexed skip s → IsIndexed skip (erase_entry_if_unused s k)
  unfolding erase_entry_if_unused find
  erase_entry_if_unused-IsIndexed s k v = elim (Option-cases (find k s.topics)) [
    | inl h ↦ rw (h, erase_entry_if_unused) v
    | inr (e, h) ↦ elim (Bool-cases (is_empty e.publishers && is_empty e.subscribers)) [
      | inr u ↦ rw (h, u, erase_entry_if_unused) v
      | inl u ↦
          rw (h, u, erase_entry_if_unused)
            (record {
              publications =
                  λ fd j n p. v.publications fd j n (ground (arith, p, find-erase k j s.topics));
              subscriptions = λ fd j n.
                  ground
                    (arith, h, u, v.subscriptions fd j n, find-erase k j s.topics, name_eq_iff k j);
            })
    ]
  ]

  pub dropped-IsIndexed :
      (s : Topics) (k : Name) (e : TopicEntry) (picked : ℕ → Bool)
      → find k s.topics ≡ some e
      → IsIndexed skip s
      → let (kept, index) = drop_publishers picked k e.publishers s.fd_publications in
        IsIndexed skip (set_publishers s k e kept index)
  unfolding set_publishers
  dropped-IsIndexed s k e picked h v =
      let kept = drop_publishers picked k e.publishers s.fd_publications in
      let e' : TopicEntry = record e { publishers = kept.0 } in
      record {
        publications = λ fd j n p. ground (
          arith,
          h,
          p,
          v.publications fd j n,
          kept-index picked k e.publishers s.fd_publications fd j,
          kept-publishing picked k e.publishers s.fd_publications fd,
          find-insert k j e' s.topics,
          name_eq_iff k j,
        );
        subscriptions = λ fd j n.
            ground (arith, h, v.subscriptions fd j n, find-insert k j e' s.topics, name_eq_iff k j);
      }

  pub put_slot-IsIndexed :
      (s : Topics) (k i : Name) (slot : PublisherSlot)
      → IsIndexed skip s
      → IsIndexed skip (put_slot s k i slot)
  unfolding put_slot set_publishers
  put_slot-IsIndexed s k i slot v = elim (Option-cases (find k s.topics)) [
    | inl h ↦ rw (h, put_slot) v
    | inr (e, h) ↦
        let e' : TopicEntry = record e { publishers = insert i slot e.publishers } in
        rw (h, put_slot)
          (record {
            publications = λ fd j n p. ground (
              arith,
              h,
              p,
              v.publications fd j n,
              any_picked-insert (has_fd fd) i slot e.publishers,
              find2-insert2 slot.fd fd k j tt s.fd_publications,
              find-insert k j e' s.topics,
              name_eq_iff k j,
            );
            subscriptions = λ fd j n.
                ground
                  (arith, h, v.subscriptions fd j n, find-insert k j e' s.topics, name_eq_iff k j);
          })
  ]

  pub put_subscription-IsIndexed :
      (s : Topics) (k : Name) (selector : Filter) (fd : ℕ)
      → IsIndexed skip s
      → IsIndexed skip (put_subscription s k selector fd).1
  unfolding put_subscription set_subscribers insert2
  put_subscription-IsIndexed s k selector fd v = elim (Option-cases (find k s.topics)) [
    | inl h ↦ rw (h, put_subscription) v
    | inr (e, h) ↦ elim (Bool-cases (is_refused e (filter_key selector) fd)) [
      | inl t ↦ rw (h, t, put_subscription) v
      | inr t ↦
          let filters = insert (filter_key selector) selector (or_empty (find fd e.subscribers)) in
          let e' : TopicEntry = record e { subscribers = insert fd filters e.subscribers } in
          rw (h, t, put_subscription)
            (record {
              publications = λ f j n p.
                  v.publications f j n
                    (ground (arith, h, p, find-insert k j e' s.topics, name_eq_iff k j));
              subscriptions = λ f j n. ground (
                arith,
                h,
                v.subscriptions f j n,
                find2-insert2 fd f k j tt s.fd_subscriptions,
                find-insert fd f filters e.subscribers,
                find-insert k j e' s.topics,
                name_eq_iff k j,
              );
            })
    ]
  ]

  pub drop_subscriptions-IsIndexed :
      (s : Topics) (k : Name) (e : TopicEntry) (fd : ℕ)
      → find k s.topics ≡ some e
      → IsIndexed skip s
      → IsIndexed skip (drop_subscriptions s k e fd)
  unfolding drop_subscriptions set_subscribers
  drop_subscriptions-IsIndexed s k e fd h v =
      let e' : TopicEntry = record e { subscribers = erase fd e.subscribers } in
      record {
        publications = λ f j n p.
            v.publications f j n
              (ground (arith, h, p, find-insert k j e' s.topics, name_eq_iff k j));
        subscriptions = λ f j n. ground (
          arith,
          h,
          v.subscriptions f j n,
          find2-erase2 fd f k j s.fd_subscriptions,
          find-erase fd f e.subscribers,
          find-insert k j e' s.topics,
          name_eq_iff k j,
        );
      }
