-- ===== src/Topics/Counted.antt =====
-- The counters of TopicManager against the entries that they count, through the steps that the
-- operations are made of.
use omni_binder.Prelude.{
  ℕ, ◌+◌, ◌-◌, ◌≤◌, ◌≡◌, ◌≢◌, true, false, ◌&&◌, Option, none, some, [], arith, if◌then◌else◌,
  length, Bool-cases, Option-cases, inl, inr,
}
use omni_binder.OrderedMap.{Map, Set, find, insert, erase, Distinct}
use omni_binder.OrderedMap.Keys.{Name, name_eq, name_eq_iff, name_key, number_key}
use omni_binder.OrderedMap.Laws.{find-insert, find-erase, Distinct-insert, Distinct-erase}
use omni_binder.OrderedMap.Tally.{Plain}
use omni_binder.OrderedMap.Sums.{sum, sum-replaced, sum-inserted, sum-erased}
use omni_binder.Topics.{
  Topics, TopicEntry, PublisherSlot, held, or_zero, new_entry, erase_entry_if_unused,
  release_topic_name_ref, set_publishers, is_empty, max_topic_subscriptions_global,
}

abbrev pub about : Name → TopicEntry → ℕ
about topic e = if name_eq e.topic_name topic then 1 else 0

abbrev pub all_held : TopicEntry → ℕ
all_held e = sum length e.subscribers

-- A connection stands once among the subscribers of an entry, and a selector once under it.
abbrev pub IsPlain : Option TopicEntry → Type 0
IsPlain none = Unit
IsPlain (some e) = Plain e.subscribers

-- The counters agree with the entries, except for the connection `skip`, where there is one.
pub record IsCounted (skip : Option ℕ) (s : Topics) : Type 0 where
  pub distinct : Distinct s.topics
  pub inner : (k : Name) → IsPlain (find k s.topics)
  pub refs : (topic : Name) → or_zero (find topic s.topic_name_refs) ≡ sum (about topic) s.topics
  pub counts :
      (fd : ℕ)
      → some fd ≢ skip
      → or_zero (find fd s.fd_subscription_counts) ≡ sum (held fd) s.topics
  pub total : s.total_subscriptions ≡ sum all_held s.topics
  pub small : s.total_subscriptions ≤ max_topic_subscriptions_global

released :
    (topic t : Name) (refs : Map Name ℕ)
    → or_zero (find t (release_topic_name_ref topic refs))
      ≡ or_zero (find t refs) - (if name_eq topic t then 1 else 0)
unfolding release_topic_name_ref
released topic t refs = elim (Option-cases (find topic refs)) [
  | inl h ↦ rw (h, release_topic_name_ref) (ground (arith, name_eq_iff topic t, h))
  | inr (n, h) ↦
      rw (h, release_topic_name_ref)
        (ground (
          arith,
          name_eq_iff topic t,
          h,
          find-insert topic t (n - 1) refs,
          find-erase topic t refs,
        ))
]

module _ {skip : Option ℕ} where
  pub inner-insert :
      (k : Name) (e : TopicEntry) (s : Topics)
      → IsCounted skip s
      → Plain e.subscribers
      → (j : Name) → IsPlain (find j (insert k e s.topics))
  inner-insert k e s v d j =
      rw (find-insert k j e s.topics)
        (elim (name_eq k j) as (λ b. IsPlain (if b then some e else find j s.topics)) [
          | true ↦ d
          | false ↦ v.inner j
        ])

  pub inner-erase :
      (k : Name) (s : Topics) → IsCounted skip s → (j : Name) → IsPlain (find j (erase k s.topics))
  inner-erase k s v j =
      rw (find-erase k j s.topics)
        (elim (name_eq k j) as (λ b. IsPlain (if b then none else find j s.topics)) [
          | true ↦ tt
          | false ↦ v.inner j
        ])

  pub subscribers-Plain :
      (s : Topics) (k : Name) (e : TopicEntry)
      → IsCounted skip s
      → find k s.topics ≡ some e
      → Plain e.subscribers
  subscribers-Plain s k e v h = rw h at (v.inner k)

  pub set_publishers-IsCounted :
      (s : Topics) (k : Name) (e : TopicEntry) (slots : Map Name PublisherSlot)
      (index : Map ℕ (Set Name))
      → find k s.topics ≡ some e
      → IsCounted skip s
      → IsCounted skip (set_publishers s k e slots index)
  unfolding set_publishers
  set_publishers-IsCounted s k e slots index h v =
      let e' = record e { publishers = slots } in
      record {
        distinct = Distinct-insert k e' s.topics v.distinct;
        inner = inner-insert k e' s v (subscribers-Plain s k e v h);
        refs = λ t. omega (arith, v.refs t, sum-replaced (about t) k e e' s.topics h);
        counts = λ fd n. omega (arith, v.counts fd n, sum-replaced (held fd) k e e' s.topics h);
        total = omega (arith, v.total, sum-replaced all_held k e e' s.topics h);
        small = v.small;
      }

  pub new_entry-IsCounted :
      (s : Topics) (k service topic : Name)
      → find k s.topics ≡ none
      → IsCounted skip s
      → IsCounted skip (new_entry s k service topic)
  unfolding new_entry find
  new_entry-IsCounted s k service topic h v =
      let e : TopicEntry = record {
        service_name = service;
        topic_name = topic;
        publishers = [];
        subscribers = [];
      } in
      record {
        distinct = Distinct-insert k e s.topics v.distinct;
        inner = inner-insert k e s v (tt, λ j. tt);
        refs = λ t. ground (
          arith,
          v.refs t,
          sum-inserted (about t) k e s.topics h,
          find-insert topic t (or_zero (find topic s.topic_name_refs) + 1) s.topic_name_refs,
          name_eq_iff topic t,
        );
        counts = λ fd n. ground (arith, v.counts fd n, sum-inserted (held fd) k e s.topics h);
        total = omega (arith, v.total, sum-inserted all_held k e s.topics h);
        small = v.small;
      }

  pub erase_entry_if_unused-IsCounted :
      (s : Topics) (k : Name) → IsCounted skip s → IsCounted skip (erase_entry_if_unused s k)
  unfolding erase_entry_if_unused find
  erase_entry_if_unused-IsCounted s k v = elim (Option-cases (find k s.topics)) [
    | inl h ↦ rw (h, erase_entry_if_unused) v
    | inr (e, h) ↦ elim (Bool-cases (is_empty e.publishers && is_empty e.subscribers)) [
      | inr u ↦ rw (h, u, erase_entry_if_unused) v
      | inl u ↦
          rw (h, u, erase_entry_if_unused)
            (record {
              distinct = Distinct-erase k s.topics v.distinct;
              inner = inner-erase k s v;
              refs = λ t. omega (
                arith,
                released e.topic_name t s.topic_name_refs,
                v.refs t,
                sum-erased (about t) k e s.topics v.distinct h,
              );
              counts = λ fd n.
                  ground (arith, u, v.counts fd n, sum-erased (held fd) k e s.topics v.distinct h);
              total = ground (arith, u, v.total, sum-erased all_held k e s.topics v.distinct h);
              small = v.small;
            })
    ]
  ]
