-- ===== src/Topics/Tallied.antt =====
-- The counters through the steps of addSubscriber and removeSubscriber.
use omni_binder.Prelude.{
  ℕ, ◌+◌, ◌-◌, ◌≤◌, ◌<◌, ◌≡◌, ◌≢◌, refl, true, false, Option, some, arith, ◌==◌, ==_iff,
  if◌then◌else◌, length, Bool-cases, Option-cases, inl, inr,
}
use omni_binder.OrderedMap.{Map, find, contains, insert, erase}
use omni_binder.OrderedMap.Keys.{Name, name_key, number_key}
use omni_binder.OrderedMap.Laws.{find-insert, find-erase, Distinct-insert}
use omni_binder.OrderedMap.Nested.{or_empty, insert2, erase2}
use omni_binder.OrderedMap.Sums.{sum, sum-replaced, share-le-sum}
use omni_binder.OrderedMap.Tally.{
  Plain, tally, tally-insert2, sum-insert2, tally-erase, sum-erase_all, tally-erase2, sum-erase2,
  Plain-insert2, Plain-erase, Plain-erase2,
}
use omni_binder.Topics.{
  Topics, TopicEntry, Filter, held, or_zero, filter_key, sub_size, max_topic_subscriptions_global,
}
use omni_binder.Topics.Subscribers.{
  set_subscribers, put_subscription, is_refused, fewer, drop_subscriptions, drop_subscription,
}
use omni_binder.Topics.Counted.{IsCounted, about, all_held, subscribers-Plain, inner-insert}

or_zero-fewer :
    (fd f n : ℕ) (counts : Map ℕ ℕ)
    → or_zero (find f (fewer fd n counts))
      ≡ (if fd == f then or_zero (find f counts) - n else or_zero (find f counts))
unfolding fewer
or_zero-fewer fd f n counts = elim (Option-cases (find fd counts)) [
  | inl h ↦ rw (h, fewer) (ground (arith, ==_iff fd f, h))
  | inr (c, h) ↦
      rw (h, fewer)
        (ground (arith, ==_iff fd f, h, find-insert fd f (c - n) counts, find-erase fd f counts))
]

-- The counters still agree when the subscribers of an entry and the counters change alike.
changed-IsCounted :
    (skip : Option ℕ) (s s' : Topics) (k : Name) (e : TopicEntry)
    (subscribers : Map ℕ (Map Name Filter))
    → find k s.topics ≡ some e
    → IsCounted skip s
    → Plain subscribers
    → s'.topics ≡ insert k (record e { subscribers = subscribers }) s.topics
    → s'.topic_name_refs ≡ s.topic_name_refs
    → ((f : ℕ)
        → some f ≢ skip
        → or_zero (find f s'.fd_subscription_counts) + tally f e.subscribers
          ≡ or_zero (find f s.fd_subscription_counts) + tally f subscribers)
    → s'.total_subscriptions + sum length e.subscribers
      ≡ s.total_subscriptions + sum length subscribers
    → s'.total_subscriptions ≤ max_topic_subscriptions_global
    → IsCounted skip s'
changed-IsCounted skip s s' k e subscribers h v p same_topics same_refs counts total small =
    let e' : TopicEntry = record e { subscribers = subscribers } in
    record {
      distinct = rw same_topics (Distinct-insert k e' s.topics v.distinct);
      inner = rw same_topics (inner-insert k e' s v p);
      refs = λ t.
          rw (same_topics, same_refs)
            (omega (arith, v.refs t, sum-replaced (about t) k e e' s.topics h));
      counts = λ f n.
          rw same_topics
            (omega (arith, v.counts f n, counts f n, sum-replaced (held f) k e e' s.topics h));
      total =
          rw same_topics (omega (arith, v.total, total, sum-replaced all_held k e e' s.topics h));
      small = small;
    }

module _ {skip : Option ℕ} where
  pub put_subscription-IsCounted :
      (s : Topics) (k : Name) (selector : Filter) (fd : ℕ)
      → IsCounted skip s
      → s.total_subscriptions < max_topic_subscriptions_global
      → IsCounted skip (put_subscription s k selector fd).1
  unfolding put_subscription is_refused set_subscribers
  put_subscription-IsCounted s k selector fd v small = elim (Option-cases (find k s.topics)) [
    | inl h ↦ rw (h, put_subscription) v
    | inr (e, h) ↦ elim (Bool-cases (is_refused e (filter_key selector) fd)) [
      | inl t ↦ rw (h, t, put_subscription) v
      | inr t ↦
          let key = filter_key selector in
          let fresh : contains key (or_empty (find fd e.subscribers)) ≡ false = ground (arith, t) in
          rw (h, t, put_subscription)
            (changed-IsCounted skip s _ k e (insert2 fd key selector e.subscribers) h v
              (Plain-insert2 fd key selector e.subscribers (subscribers-Plain s k e v h)) refl refl
              (λ f n. ground (
                arith,
                tally-insert2 fd f key selector e.subscribers fresh,
                find-insert fd f (or_zero (find fd s.fd_subscription_counts) + 1)
                    s.fd_subscription_counts,
                ==_iff fd f,
              ))
              (omega (arith, sum-insert2 fd key selector e.subscribers fresh))
              (omega (arith, small)))
    ]
  ]

  -- What an entry has is at most what is counted.
  all_held-le :
      (s : Topics) (k : Name) (e : TopicEntry)
      → IsCounted skip s
      → find k s.topics ≡ some e
      → all_held e ≤ s.total_subscriptions
  all_held-le s k e v h = omega (arith, v.total, rw h at (share-le-sum all_held k s.topics))

  held-le :
      (s : Topics) (k : Name) (e : TopicEntry) (fd : ℕ)
      → IsCounted skip s
      → some fd ≢ skip
      → find k s.topics ≡ some e
      → held fd e ≤ or_zero (find fd s.fd_subscription_counts)
  held-le s k e fd v n h = omega (arith, v.counts fd n, rw h at (share-le-sum (held fd) k s.topics))

  pub drop_subscriptions-IsCounted :
      (s : Topics) (k : Name) (e : TopicEntry) (fd : ℕ)
      → IsCounted skip s
      → find k s.topics ≡ some e
      → IsCounted skip (drop_subscriptions s k e fd)
  unfolding drop_subscriptions set_subscribers
  drop_subscriptions-IsCounted s k e fd v h =
      let p = subscribers-Plain s k e v h in
      let whole = sum-erase_all fd e.subscribers p.0 in
      let room = all_held-le s k e v h in
      changed-IsCounted skip s _ k e (erase fd e.subscribers) h v (Plain-erase fd e.subscribers p)
        refl refl
        (λ f n. ground (
          arith,
          or_zero-fewer fd f (held fd e) s.fd_subscription_counts,
          tally-erase fd f e.subscribers,
          held-le s k e f v n h,
          ==_iff fd f,
        ))
        (ground (arith, whole, room)) (ground (arith, whole, room, v.small))

  -- The same where the connection's own counter is left alone.
  pub closed_at-IsCounted :
      (s : Topics) (k : Name) (e : TopicEntry) (fd : ℕ)
      → skip ≡ some fd
      → IsCounted skip s
      → find k s.topics ≡ some e
      → IsCounted skip (record (set_subscribers s k e (erase fd e.subscribers)) {
        total_subscriptions = sub_size s.total_subscriptions (held fd e);
      })
  unfolding set_subscribers
  closed_at-IsCounted s k e fd own v h =
      let p = subscribers-Plain s k e v h in
      let whole = sum-erase_all fd e.subscribers p.0 in
      let room = all_held-le s k e v h in
      changed-IsCounted skip s _ k e (erase fd e.subscribers) h v (Plain-erase fd e.subscribers p)
        refl refl (λ f n. ground (arith, tally-erase fd f e.subscribers, n, own, ==_iff fd f))
        (ground (arith, whole, room)) (ground (arith, whole, room, v.small))

  pub drop_subscription-IsCounted :
      (s : Topics) (k : Name) (e : TopicEntry) (selkey : Name) (fd : ℕ)
      → IsCounted skip s
      → find k s.topics ≡ some e
      → contains selkey (or_empty (find fd e.subscribers)) ≡ true
      → IsCounted skip (drop_subscription s k e selkey fd)
  unfolding drop_subscription set_subscribers
  drop_subscription-IsCounted s k e selkey fd v h there =
      let p = subscribers-Plain s k e v h in
      let whole = sum-erase2 fd selkey e.subscribers p there in
      let room = all_held-le s k e v h in
      changed-IsCounted skip s _ k e (erase2 fd selkey e.subscribers) h v
        (Plain-erase2 fd selkey e.subscribers p) refl refl
        (λ f n. ground (
          arith,
          or_zero-fewer fd f 1 s.fd_subscription_counts,
          tally-erase2 fd f selkey e.subscribers p there,
          held-le s k e f v n h,
          ==_iff fd f,
        ))
        (ground (arith, whole, room)) (ground (arith, whole, room, v.small))
