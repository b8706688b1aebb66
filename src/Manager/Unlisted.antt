-- ===== src/Manager/Unlisted.antt =====
-- The operations of a connection list no other connection in the topics.
use omni_binder.Prelude.{
  ℕ, ◌≡◌, Bool, false, none, some, List, [], ◌∷◌, arith, ◌==◌, ==_iff, if◌then◌else◌, Bool-cases,
  Option-cases, inl, inr,
}
use omni_binder.OrderedMap.{Map, Set, find, contains, insert, erase, keys}
use omni_binder.OrderedMap.Keys.{Name, name_eq, number_key, name_key}
use omni_binder.OrderedMap.Laws.{find-insert, find-erase}
use omni_binder.OrderedMap.Nested.{or_empty, insert2, erase2, put_unless_empty}
use omni_binder.Types.{ServiceInfo}
use omni_binder.Topics.{
  Topics, PublisherSlot, Filter, drop_publishers, set_publishers, erase_entry_if_unused, new_entry,
  filter_key, entry_key,
}
use omni_binder.Topics.Publishers.{
  register_publisher, may_publish, put_slot, with_entry, drop_slots, remove_publisher_of,
  remove_publisher_slots, has_fd, drop_service_slots, drop_service, erase_unused_of,
  remove_publishers_by_service, is_topic,
}
use omni_binder.Topics.Subscribers.{
  add_subscriber, may_subscribe, put_subscription, is_refused, set_subscribers, remove_subscription,
  drop_subscription,
}
use omni_binder.Topics.Consistent.{sweep_keeps}
use omni_binder.Manager.Alive.{Unlisted}

find-erase2-none :
    (fd f : ℕ) (k : Name) (m : Map ℕ (Set Name)) → find f m ≡ none → find f (erase2 fd k m) ≡ none
unfolding erase2
find-erase2-none fd f k m n = elim (Option-cases (find fd m)) [
  | inl h ↦ rw (h, erase2) n
  | inr (inner, h) ↦ rw (h, erase2) (put_none (erase k inner) h)
]
  where
    put_none :
        {i : Set Name} (inner : Set Name)
        → find fd m ≡ some i
        → find f (put_unless_empty fd inner m) ≡ none
    put_none [] h = ground (arith, n, find-erase fd f m)
    put_none (x ∷ inner) h = ground (arith, n, h, find-insert fd f (x ∷ inner) m, ==_iff fd f)

find-insert2_other :
    (fd f : ℕ) (k : Name) (m : Map ℕ (Set Name))
    → (fd == f) ≡ false
    → find f m ≡ none
    → find f (insert2 fd k tt m) ≡ none
unfolding insert2
find-insert2_other fd f k m h n =
    ground (arith, h, n, find-insert fd f (insert k tt (or_empty (find fd m))) m)

module _ (f : ℕ) where
  index-drop_publishers :
      (picked : ℕ → Bool) (k : Name) (slots : Map Name PublisherSlot) (index : Map ℕ (Set Name))
      → find f index ≡ none
      → find f (drop_publishers picked k slots index).1 ≡ none
  unfolding drop_publishers
  index-drop_publishers picked k [] index n = n
  index-drop_publishers picked k ((i, slot) ∷ slots) index n =
      index-drop_publishers picked k slots
        (if picked slot.fd then erase2 slot.fd k index else index)
        (ground (arith, n, find-erase2-none slot.fd f k index))

  erase_entry_if_unused-Unlisted :
      (t : Topics) (k : Name) → Unlisted f t → Unlisted f (erase_entry_if_unused t k)
  unfolding erase_entry_if_unused
  erase_entry_if_unused-Unlisted t k u = (ground (arith, u.0), ground (arith, u.1))

  with_entry-Unlisted :
      (t : Topics) (k service topic : Name)
      → Unlisted f t
      → Unlisted f (with_entry t k service topic)
  unfolding with_entry new_entry
  with_entry-Unlisted t k service topic u = (ground (arith, u.0), ground (arith, u.1))

  pub register_publisher-Unlisted :
      (t : Topics) (topic : Name) (info : ServiceInfo) (fd idl_hash : ℕ)
      → (fd == f) ≡ false
      → Unlisted f t
      → Unlisted f (register_publisher t topic info fd idl_hash).1
  unfolding register_publisher put_slot set_publishers
  register_publisher-Unlisted t topic info fd idl_hash other u =
      elim (Bool-cases (may_publish t topic info fd)) [
        | inr h ↦ rw (h, register_publisher) u
        | inl h ↦
            let k = entry_key info.name topic in
            let t' = with_entry t k info.name topic in
            let u' = with_entry-Unlisted t k info.name topic u in
            elim (Option-cases (find k t'.topics)) [
              | inl g ↦ rw (h, register_publisher, g, put_slot) u'
              | inr (e, g) ↦
                  rw (h, register_publisher, g, put_slot)
                    (find-insert2_other fd f k t'.fd_publications other u'.0, u'.1)
            ]
      ]

  drop_slots-Unlisted :
      (topic : Name) (picked : ℕ → Bool) (t : Topics) (k : Name)
      → Unlisted f t
      → Unlisted f (drop_slots topic picked t k).1
  unfolding drop_slots set_publishers
  drop_slots-Unlisted topic picked t k u = elim (Option-cases (find k t.topics)) [
    | inl h ↦ rw (h, drop_slots) u
    | inr (e, h) ↦ elim (Bool-cases (name_eq e.topic_name topic)) [
      | inr n ↦ rw (h, n, drop_slots) u
      | inl n ↦
          let (kept, index) = drop_publishers picked k e.publishers t.fd_publications in
          rw (h, n, drop_slots)
            (erase_entry_if_unused-Unlisted (set_publishers t k e kept index) k
              (index-drop_publishers picked k e.publishers t.fd_publications u.0, u.1))
    ]
  ]

  pub remove_publisher_of-Unlisted :
      (t : Topics) (topic : Name) (fd : ℕ)
      → Unlisted f t
      → Unlisted f (remove_publisher_of t topic fd).1
  unfolding remove_publisher_of remove_publisher_slots
  remove_publisher_of-Unlisted t topic fd u = elim (Bool-cases (is_topic topic)) [
    | inr h ↦ rw (h, remove_publisher_of) u
    | inl h ↦
        rw (h, remove_publisher_of)
          (sweep_keeps (λ s. Unlisted f s) (drop_slots topic (has_fd fd))
            (λ s k w. drop_slots-Unlisted topic (has_fd fd) s k w) (keys t.topics) t u)
  ]

  drop_service-Unlisted :
      (service : Name) (fd : ℕ) (ks : List Name) (t : Topics) (seen : List Name)
      → Unlisted f t
      → Unlisted f (drop_service service fd ks t seen).1
  unfolding drop_service drop_service_slots set_publishers
  drop_service-Unlisted service fd [] t seen u = u
  drop_service-Unlisted service fd (k ∷ ks) t seen u =
      drop_service-Unlisted service fd ks (drop_service_slots service fd t k seen).1
        (drop_service_slots service fd t k seen).0 slots
    where
      slots : Unlisted f (drop_service_slots service fd t k seen).1
      slots = elim (Option-cases (find k t.topics)) [
        | inl h ↦ rw (h, drop_service_slots) u
        | inr (e, h) ↦ elim (Bool-cases (name_eq e.service_name service)) [
          | inr n ↦ rw (h, n, drop_service_slots) u
          | inl n ↦
              rw (h, n, drop_service_slots)
                (index-drop_publishers (has_fd fd) k e.publishers t.fd_publications u.0, u.1)
        ]
      ]

  erase_unused_of-Unlisted :
      (service : Name) (ks : List Name) (t : Topics)
      → Unlisted f t
      → Unlisted f (erase_unused_of service ks t)
  unfolding erase_unused_of
  erase_unused_of-Unlisted service [] t u = u
  erase_unused_of-Unlisted service (k ∷ ks) t u =
      erase_unused_of-Unlisted service ks _ (elim (Option-cases (find k t.topics)) [
        | inl h ↦ rw h u
        | inr (e, h) ↦ elim (Bool-cases (name_eq e.service_name service)) [
          | inr n ↦ rw (h, n) u
          | inl n ↦ rw (h, n) (erase_entry_if_unused-Unlisted t k u)
        ]
      ])

  pub remove_publishers_by_service-Unlisted :
      (t : Topics) (service : Name) (fd : ℕ)
      → Unlisted f t
      → Unlisted f (remove_publishers_by_service t service fd).1
  unfolding remove_publishers_by_service
  remove_publishers_by_service-Unlisted t service fd u =
      erase_unused_of-Unlisted service _ _ (drop_service-Unlisted service fd (keys t.topics) t [] u)

  pub add_subscriber-Unlisted :
      (t : Topics) (topic : Name) (selector : Filter) (fd : ℕ)
      → (fd == f) ≡ false
      → Unlisted f t
      → Unlisted f (add_subscriber t topic selector fd).1
  unfolding add_subscriber put_subscription set_subscribers
  add_subscriber-Unlisted t topic selector fd other u =
      elim (Bool-cases (may_subscribe t topic selector fd)) [
        | inr h ↦ rw (h, add_subscriber) u
        | inl h ↦
            let k = entry_key selector.publisher_service topic in
            let t' = with_entry t k selector.publisher_service topic in
            let u' = with_entry-Unlisted t k selector.publisher_service topic u in
            elim (Option-cases (find k t'.topics)) [
              | inl g ↦ rw (h, add_subscriber, g, put_subscription) u'
              | inr (e, g) ↦ elim (Bool-cases (is_refused e (filter_key selector) fd)) [
                | inl r ↦ rw (h, add_subscriber, g, r, put_subscription) u'
                | inr r ↦
                    rw (h, add_subscriber, g, r, put_subscription)
                      (u'.0, find-insert2_other fd f k t'.fd_subscriptions other u'.1)
              ]
            ]
      ]

  pub remove_subscription-Unlisted :
      (t : Topics) (topic : Name) (selector : Filter) (fd : ℕ)
      → Unlisted f t
      → Unlisted f (remove_subscription t topic selector fd).1
  unfolding remove_subscription drop_subscription set_subscribers
  remove_subscription-Unlisted t topic selector fd u =
      let k = entry_key selector.publisher_service topic in
      let key = filter_key selector in
      elim (Bool-cases (is_topic topic)) [
        | inr h ↦ rw (h, remove_subscription) u
        | inl h ↦ elim (Option-cases (find k t.topics)) [
          | inl g ↦ rw (h, g, remove_subscription) u
          | inr (e, g) ↦ elim (Bool-cases (contains key (or_empty (find fd e.subscribers)))) [
            | inr n ↦ rw (h, g, n, remove_subscription) u
            | inl n ↦
                rw (h, g, n, remove_subscription)
                  (erase_entry_if_unused-Unlisted (drop_subscription t k e key fd) k
                    (u.0, ground (arith, u.1, find-erase2-none fd f k t.fd_subscriptions)))
          ]
        ]
      ]
