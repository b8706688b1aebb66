-- ===== src/Topics/Subscriptions.antt =====
-- The operations of TopicManager on subscriptions keep its state consistent.
use omni_binder.Prelude.{ℕ, ◌≡◌, ◌||◌, not, Option, arith, Bool-cases, Option-cases, inl, inr}
use omni_binder.OrderedMap.{find, contains, keys}
use omni_binder.OrderedMap.Keys.{Name, name_eq, name_key, number_key}
use omni_binder.OrderedMap.Nested.{or_empty}
use omni_binder.Topics.{Topics, Filter, new_entry, filter_key, entry_key}
use omni_binder.Topics.Publishers.{with_entry, is_topic}
use omni_binder.Topics.Subscribers.{
  add_subscriber, may_subscribe, drop_subscriber, remove_subscriber, remove_subscription,
}
use omni_binder.Topics.Tallied.{
  put_subscription-IsCounted, drop_subscriptions-IsCounted, drop_subscription-IsCounted,
}
use omni_binder.Topics.Indexed.{put_subscription-IsIndexed, drop_subscriptions-IsIndexed}
use omni_binder.Topics.Consistent.{IsConsistent, drop_subscription-IsIndexed, sweep_keeps}
use omni_binder.Topics.Operations.{with_entry-IsConsistent, erase_entry_if_unused-IsConsistent}

total-with_entry :
    (s : Topics) (k service topic : Name)
    → (with_entry s k service topic).total_subscriptions ≡ s.total_subscriptions
unfolding with_entry new_entry
total-with_entry s k service topic = ground arith

module _ {skip : Option ℕ} where
  pub add_subscriber-IsConsistent :
      (s : Topics) (topic : Name) (selector : Filter) (fd : ℕ)
      → IsConsistent skip s
      → IsConsistent skip (add_subscriber s topic selector fd).1
  unfolding add_subscriber may_subscribe
  add_subscriber-IsConsistent s topic selector fd v =
      elim (Bool-cases (may_subscribe s topic selector fd)) [
        | inr h ↦ rw (h, add_subscriber) v
        | inl h ↦
            let k = entry_key selector.publisher_service topic in
            let w = with_entry-IsConsistent s k selector.publisher_service topic v in
            rw (h, add_subscriber)
              (record {
                counted =
                    put_subscription-IsCounted _ k selector fd w.counted
                      (ground (arith, h, total-with_entry s k selector.publisher_service topic));
                indexed = put_subscription-IsIndexed _ k selector fd w.indexed;
              })
      ]

  drop_subscriber-IsConsistent :
      (topic : Name) (fd : ℕ) (s : Topics) (k : Name)
      → IsConsistent skip s
      → IsConsistent skip (drop_subscriber topic fd s k).1
  unfolding drop_subscriber
  drop_subscriber-IsConsistent topic fd s k v = elim (Option-cases (find k s.topics)) [
    | inl h ↦ rw (h, drop_subscriber) v
    | inr (e, h) ↦
        elim (Bool-cases (not (name_eq e.topic_name topic) || not (contains fd e.subscribers))) [
          | inl n ↦ rw (h, n, drop_subscriber) v
          | inr n ↦
              rw (h, n, drop_subscriber)
                (erase_entry_if_unused-IsConsistent _ k (record {
                  counted = drop_subscriptions-IsCounted s k e fd v.counted h;
                  indexed = drop_subscriptions-IsIndexed s k e fd h v.indexed;
                }))
        ]
  ]

  pub remove_subscriber-IsConsistent :
      (s : Topics) (topic : Name) (fd : ℕ)
      → IsConsistent skip s
      → IsConsistent skip (remove_subscriber s topic fd).1
  unfolding remove_subscriber
  remove_subscriber-IsConsistent s topic fd v = elim (Bool-cases (is_topic topic)) [
    | inr h ↦ rw (h, remove_subscriber) v
    | inl h ↦
        rw (h, remove_subscriber)
          (sweep_keeps (λ t. IsConsistent skip t) (drop_subscriber topic fd)
            (λ t k w. drop_subscriber-IsConsistent topic fd t k w) (keys s.topics) s v)
  ]

  pub remove_subscription-IsConsistent :
      (s : Topics) (topic : Name) (selector : Filter) (fd : ℕ)
      → IsConsistent skip s
      → IsConsistent skip (remove_subscription s topic selector fd).1
  unfolding remove_subscription
  remove_subscription-IsConsistent s topic selector fd v =
      let k = entry_key selector.publisher_service topic in
      let key = filter_key selector in
      elim (Bool-cases (is_topic topic)) [
        | inr t ↦ rw (t, remove_subscription) v
        | inl t ↦ elim (Option-cases (find k s.topics)) [
          | inl h ↦ rw (t, h, remove_subscription) v
          | inr (e, h) ↦ elim (Bool-cases (contains key (or_empty (find fd e.subscribers)))) [
            | inr n ↦ rw (t, h, n, remove_subscription) v
            | inl n ↦
                rw (t, h, n, remove_subscription)
                  (erase_entry_if_unused-IsConsistent _ k (record {
                    counted = drop_subscription-IsCounted s k e key fd v.counted h n;
                    indexed = drop_subscription-IsIndexed s k e key fd h n v.indexed;
                  }))
          ]
        ]
      ]
