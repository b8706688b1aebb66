-- ===== src/Topics/Filed.antt =====
-- Every operation of TopicManager keeps the entries under their keys.
use omni_binder.Prelude.{
  ℕ, Bool, true, ◌||◌, not, List, [], ◌∷◌, Bool-cases, Option-cases, inl, inr,
}
use omni_binder.OrderedMap.{Map, find, contains, erase, keys}
use omni_binder.OrderedMap.Each.{Each}
use omni_binder.OrderedMap.Keys.{Name, name_eq, name_key, number_key}
use omni_binder.OrderedMap.Nested.{or_empty, erase2}
use omni_binder.Types.{ServiceInfo}
use omni_binder.Topics.{
  Topics, TopicEntry, PublisherSlot, Filter, filter_key, entry_key, is_empty, empty_topics,
}
use omni_binder.Topics.Publishers.{
  has_fd, register_publisher, may_publish, drop_slots, remove_publisher_slots, remove_publisher,
  remove_publisher_of, drop_service_slots, drop_service, erase_unused_of,
  remove_publishers_by_service, is_topic,
}
use omni_binder.Topics.Subscribers.{
  drop_subscriptions, drop_subscription, add_subscriber, may_subscribe, drop_subscriber,
  remove_subscriber, remove_subscription,
}
use omni_binder.Topics.Closing.{
  close_publications, close_all_publications, close_subscriptions, close_all_subscriptions, indexed,
  remove_by_fd,
}
use omni_binder.Topics.Queries.{set_first_hash, set_hash_in, set_idl_hash}
use omni_binder.Topics.Consistent.{sweep_keeps}
use omni_binder.Topics.History.{
  TopicOp, publishes, unpublishes, unpublishes_of, unpublishes_service, subscribes, unsubscribes,
  unsubscribes_one, sets_hash, closes, topic_step, topic_run,
}
use omni_binder.Topics.Offers.{
  IsFiled, IsOwnEntry, AllOf, erase_entry_if_unused-IsFiled, dropped-IsFiled,
  set_subscribers-IsFiled, close_publications-IsFiled, close_subscriptions-IsFiled,
  with_entry-IsFiled, put_slot-IsFiled, put_subscription-IsFiled,
}

register_publisher-IsFiled :
    (s : Topics) (topic : Name) (info : ServiceInfo) (fd idl_hash : ℕ)
    → IsFiled s
    → IsFiled (register_publisher s topic info fd idl_hash).1
unfolding register_publisher
register_publisher-IsFiled s topic info fd idl_hash v =
    elim (Bool-cases (may_publish s topic info fd)) [
      | inr h ↦ rw (h, register_publisher) v
      | inl h ↦
          rw (h, register_publisher)
            (put_slot-IsFiled _ topic _ (record { fd = fd; info = info; idl_hash = idl_hash })
              (with_entry-IsFiled s info.name topic v))
    ]

drop_slots-IsFiled :
    (topic : Name) (picked : ℕ → Bool) (s : Topics) (k : Name)
    → IsFiled s
    → IsFiled (drop_slots topic picked s k).1
unfolding drop_slots
drop_slots-IsFiled topic picked s k v = elim (Option-cases (find k s.topics)) [
  | inl h ↦ rw (h, drop_slots) v
  | inr (e, h) ↦ elim (Bool-cases (name_eq e.topic_name topic)) [
    | inr n ↦ rw (h, n, drop_slots) v
    | inl n ↦
        rw (h, n, drop_slots) (erase_entry_if_unused-IsFiled _ k (dropped-IsFiled s k v e h picked))
  ]
]

remove_publisher_slots-IsFiled :
    (s : Topics) (topic : Name) (picked : ℕ → Bool)
    → IsFiled s
    → IsFiled (remove_publisher_slots s topic picked).1
unfolding remove_publisher_slots
remove_publisher_slots-IsFiled s topic picked v =
    sweep_keeps IsFiled (drop_slots topic picked) (λ t k w. drop_slots-IsFiled topic picked t k w)
      (keys s.topics) s v

drop_service-IsFiled :
    (service : Name) (fd : ℕ) (ks : List Name) (s : Topics) (seen : List Name)
    → IsFiled s
    → IsFiled (drop_service service fd ks s seen).1
unfolding drop_service drop_service_slots
drop_service-IsFiled service fd [] s seen v = v
drop_service-IsFiled service fd (k ∷ ks) s seen v =
    drop_service-IsFiled service fd ks (drop_service_slots service fd s k seen).1
      (drop_service_slots service fd s k seen).0 slots_IsFiled
  where
    slots_IsFiled : IsFiled (drop_service_slots service fd s k seen).1
    slots_IsFiled = elim (Option-cases (find k s.topics)) [
      | inl h ↦ rw (h, drop_service_slots) v
      | inr (e, h) ↦ elim (Bool-cases (name_eq e.service_name service)) [
        | inr n ↦ rw (h, n, drop_service_slots) v
        | inl n ↦ rw (h, n, drop_service_slots) (dropped-IsFiled s k v e h (has_fd fd))
      ]
    ]

erase_unused_of-IsFiled :
    (service : Name) (ks : List Name) (s : Topics)
    → IsFiled s
    → IsFiled (erase_unused_of service ks s)
unfolding erase_unused_of
erase_unused_of-IsFiled service [] s v = v
erase_unused_of-IsFiled service (k ∷ ks) s v =
    erase_unused_of-IsFiled service ks _ (elim (Option-cases (find k s.topics)) [
      | inl h ↦ rw h v
      | inr (e, h) ↦ elim (Bool-cases (name_eq e.service_name service)) [
        | inr n ↦ rw (h, n) v
        | inl n ↦ rw (h, n) (erase_entry_if_unused-IsFiled s k v)
      ]
    ])

drop_subscriber-IsFiled :
    (topic : Name) (fd : ℕ) (s : Topics) (k : Name)
    → IsFiled s
    → IsFiled (drop_subscriber topic fd s k).1
unfolding drop_subscriber drop_subscriptions
drop_subscriber-IsFiled topic fd s k v = elim (Option-cases (find k s.topics)) [
  | inl h ↦ rw (h, drop_subscriber) v
  | inr (e, h) ↦
      elim (Bool-cases (not (name_eq e.topic_name topic) || not (contains fd e.subscribers))) [
        | inl n ↦ rw (h, n, drop_subscriber) v
        | inr n ↦
            rw (h, n, drop_subscriber)
              (erase_entry_if_unused-IsFiled (drop_subscriptions s k e fd) k
                (set_subscribers-IsFiled s k v e h (erase fd e.subscribers)))
      ]
]

remove_subscription-IsFiled :
    (s : Topics) (topic : Name) (selector : Filter) (fd : ℕ)
    → IsFiled s
    → IsFiled (remove_subscription s topic selector fd).1
unfolding remove_subscription drop_subscription
remove_subscription-IsFiled s topic selector fd v =
    let k = entry_key selector.publisher_service topic in
    let key = filter_key selector in
    elim (Bool-cases (is_topic topic)) [
      | inr t ↦ rw (t, remove_subscription) v
      | inl t ↦ elim (Option-cases (find k s.topics)) [
        | inl h ↦ rw (t, h, remove_subscription) v
        | inr (e, h) ↦ elim (Bool-cases (contains key (or_empty (find fd e.subscribers)))) [
          | inr n ↦ rw (t, h, n, remove_subscription) v
          | inl n ↦
              rw (t, h, n, remove_subscription)
                (erase_entry_if_unused-IsFiled (drop_subscription s k e key fd) k
                  (set_subscribers-IsFiled s k v e h (erase2 fd key e.subscribers)))
        ]
      ]
    ]

close_all_publications-IsFiled :
    (fd : ℕ) (ks : List Name) (s : Topics) → IsFiled s → IsFiled (close_all_publications fd ks s).1
unfolding close_all_publications
close_all_publications-IsFiled fd [] s v = v
close_all_publications-IsFiled fd (k ∷ ks) s v =
    close_all_publications-IsFiled fd ks (close_publications fd s k).1
      (close_publications-IsFiled fd s k v)

close_all_subscriptions-IsFiled :
    (fd : ℕ) (ks : List Name) (s : Topics) → IsFiled s → IsFiled (close_all_subscriptions fd ks s)
unfolding close_all_subscriptions
close_all_subscriptions-IsFiled fd [] s v = v
close_all_subscriptions-IsFiled fd (k ∷ ks) s v =
    close_all_subscriptions-IsFiled fd ks (close_subscriptions fd s k)
      (close_subscriptions-IsFiled fd s k v)

remove_by_fd-IsFiled : (s : Topics) (fd : ℕ) → IsFiled s → IsFiled (remove_by_fd s fd).1
unfolding remove_by_fd
remove_by_fd-IsFiled s fd v =
    let opened : Topics = record s { fd_publications = erase fd s.fd_publications } in
    let unpublished = (close_all_publications fd (indexed fd s.fd_publications) opened).1 in
    close_all_subscriptions-IsFiled fd (indexed fd unpublished.fd_subscriptions)
      (record unpublished { fd_subscriptions = erase fd unpublished.fd_subscriptions })
      (close_all_publications-IsFiled fd (indexed fd s.fd_publications) opened v)

AllOf-set_first_hash :
    (service : Name) (idl_hash : ℕ) (slots : Map Name PublisherSlot)
    → AllOf service slots
    → AllOf service (set_first_hash idl_hash slots)
AllOf-set_first_hash service idl_hash [] all = tt
AllOf-set_first_hash service idl_hash ((i, slot) ∷ slots) all = all

set_hash_in-IsFiled :
    (topic : Name) (idl_hash : ℕ) (m : Map Name TopicEntry)
    → Each IsOwnEntry m
    → Each IsOwnEntry (set_hash_in topic idl_hash m).1
unfolding set_hash_in
set_hash_in-IsFiled topic idl_hash [] all = tt
set_hash_in-IsFiled topic idl_hash ((k, e) ∷ m) all =
    elim (Bool-cases (not (name_eq e.topic_name topic) || is_empty e.publishers)) [
      | inl h ↦ rw (h, set_hash_in) (all.0, set_hash_in-IsFiled topic idl_hash m all.1)
      | inr h ↦
          rw (h, set_hash_in)
            ((all.0.0, AllOf-set_first_hash e.service_name idl_hash e.publishers all.0.1), all.1)
    ]

topic_step-IsFiled : (s : Topics) (op : TopicOp) → IsFiled s → IsFiled (topic_step s op)
unfolding topic_step remove_publisher remove_publisher_of remove_publishers_by_service
    add_subscriber remove_subscriber set_idl_hash
topic_step-IsFiled s (publishes topic info fd idl_hash) v =
    register_publisher-IsFiled s topic info fd idl_hash v
topic_step-IsFiled s (unpublishes topic) v = elim (Bool-cases (is_topic topic)) [
  | inr h ↦ rw (h, topic_step, remove_publisher) v
  | inl h ↦
      rw (h, topic_step, remove_publisher) (remove_publisher_slots-IsFiled s topic (λ _. true) v)
]
topic_step-IsFiled s (unpublishes_of topic fd) v = elim (Bool-cases (is_topic topic)) [
  | inr h ↦ rw (h, topic_step, remove_publisher_of) v
  | inl h ↦
      rw (h, topic_step, remove_publisher_of) (remove_publisher_slots-IsFiled s topic (has_fd fd) v)
]
topic_step-IsFiled s (unpublishes_service service fd) v =
    erase_unused_of-IsFiled service _ _ (drop_service-IsFiled service fd (keys s.topics) s [] v)
topic_step-IsFiled s (subscribes topic selector fd) v =
    elim (Bool-cases (may_subscribe s topic selector fd)) [
      | inr h ↦ rw (h, topic_step, add_subscriber) v
      | inl h ↦
          rw (h, topic_step, add_subscriber)
            (put_subscription-IsFiled _ _ selector fd
              (with_entry-IsFiled s selector.publisher_service topic v))
    ]
topic_step-IsFiled s (unsubscribes topic fd) v = elim (Bool-cases (is_topic topic)) [
  | inr h ↦ rw (h, topic_step, remove_subscriber) v
  | inl h ↦
      rw (h, topic_step, remove_subscriber)
        (sweep_keeps IsFiled (drop_subscriber topic fd)
          (λ t k w. drop_subscriber-IsFiled topic fd t k w) (keys s.topics) s v)
]
topic_step-IsFiled s (unsubscribes_one topic selector fd) v =
    remove_subscription-IsFiled s topic selector fd v
topic_step-IsFiled s (sets_hash topic idl_hash) v = set_hash_in-IsFiled topic idl_hash s.topics v
topic_step-IsFiled s (closes fd) v = remove_by_fd-IsFiled s fd v

run_from : (s : Topics) (ops : List TopicOp) → IsFiled s → IsFiled (topic_run s ops)
unfolding topic_run
run_from s [] v = v
run_from s (op ∷ ops) v = run_from (topic_step s op) ops (topic_step-IsFiled s op v)

pub topic_run-IsFiled : (ops : List TopicOp) → IsFiled (topic_run empty_topics ops)
unfolding empty_topics
topic_run-IsFiled ops = run_from empty_topics ops tt
