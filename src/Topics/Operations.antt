-- ===== src/Topics/Operations.antt =====
-- The operations of TopicManager that publish and subscribe keep its state consistent.
use omni_binder.Prelude.{
  ℕ, ◌≡◌, Bool, true, Option, some, List, [], ◌∷◌, Bool-cases, Option-cases, inl, inr,
}
use omni_binder.OrderedMap.{find, keys}
use omni_binder.OrderedMap.Keys.{Name, name_eq, name_key, number_key}
use omni_binder.Types.{ServiceInfo}
use omni_binder.Topics.{
  Topics, TopicEntry, PublisherSlot, erase_entry_if_unused, drop_publishers, set_publishers,
}
use omni_binder.Topics.Publishers.{
  has_fd, put_slot, with_entry, register_publisher, may_publish, drop_slots, remove_publisher_slots,
  remove_publisher, remove_publisher_of, drop_service_slots, drop_service, erase_unused_of,
  remove_publishers_by_service, is_topic,
}
use omni_binder.Topics.Counted.{
  IsCounted, set_publishers-IsCounted, new_entry-IsCounted, erase_entry_if_unused-IsCounted,
}
use omni_binder.Topics.Indexed.{
  new_entry-IsIndexed, erase_entry_if_unused-IsIndexed, dropped-IsIndexed, put_slot-IsIndexed,
}
use omni_binder.Topics.Consistent.{IsConsistent, sweep_keeps}

module _ {skip : Option ℕ} where
  pub with_entry-IsConsistent :
      (s : Topics) (k service topic : Name)
      → IsConsistent skip s
      → IsConsistent skip (with_entry s k service topic)
  unfolding with_entry
  with_entry-IsConsistent s k service topic v = elim (Option-cases (find k s.topics)) [
    | inr (e, h) ↦ rw (h, with_entry) v
    | inl h ↦
        rw (h, with_entry)
          (record {
            counted = new_entry-IsCounted s k service topic h v.counted;
            indexed = new_entry-IsIndexed s k service topic h v.indexed;
          })
  ]

  pub erase_entry_if_unused-IsConsistent :
      (s : Topics) (k : Name) → IsConsistent skip s → IsConsistent skip (erase_entry_if_unused s k)
  erase_entry_if_unused-IsConsistent s k v = record {
    counted = erase_entry_if_unused-IsCounted s k v.counted;
    indexed = erase_entry_if_unused-IsIndexed s k v.indexed;
  }

  put_slot-IsConsistent :
      (s : Topics) (k i : Name) (slot : PublisherSlot)
      → IsConsistent skip s
      → IsConsistent skip (put_slot s k i slot)
  unfolding put_slot
  put_slot-IsConsistent s k i slot v = record {
    counted = put_slot-IsCounted;
    indexed = put_slot-IsIndexed s k i slot v.indexed;
  }
    where
      put_slot-IsCounted : IsCounted skip (put_slot s k i slot)
      put_slot-IsCounted = elim (Option-cases (find k s.topics)) [
        | inl h ↦ rw (h, put_slot) v.counted
        | inr (e, h) ↦ rw (h, put_slot) (set_publishers-IsCounted s k e _ _ h v.counted)
      ]

  pub register_publisher-IsConsistent :
      (s : Topics) (topic : Name) (info : ServiceInfo) (fd idl_hash : ℕ)
      → IsConsistent skip s
      → IsConsistent skip (register_publisher s topic info fd idl_hash).1
  unfolding register_publisher
  register_publisher-IsConsistent s topic info fd idl_hash v =
      elim (Bool-cases (may_publish s topic info fd)) [
        | inr h ↦ rw (h, register_publisher) v
        | inl h ↦
            rw (h, register_publisher)
              (put_slot-IsConsistent _ _ _ _ (with_entry-IsConsistent s _ info.name topic v))
      ]

  dropped-IsConsistent :
      (s : Topics) (k : Name) (e : TopicEntry) (picked : ℕ → Bool)
      → find k s.topics ≡ some e
      → IsConsistent skip s
      → let (kept, index) = drop_publishers picked k e.publishers s.fd_publications in
        IsConsistent skip (set_publishers s k e kept index)
  dropped-IsConsistent s k e picked h v = record {
    counted = set_publishers-IsCounted s k e _ _ h v.counted;
    indexed = dropped-IsIndexed s k e picked h v.indexed;
  }

  drop_slots-IsConsistent :
      (topic : Name) (picked : ℕ → Bool) (s : Topics) (k : Name)
      → IsConsistent skip s
      → IsConsistent skip (drop_slots topic picked s k).1
  unfolding drop_slots
  drop_slots-IsConsistent topic picked s k v = elim (Option-cases (find k s.topics)) [
    | inl h ↦ rw (h, drop_slots) v
    | inr (e, h) ↦ elim (Bool-cases (name_eq e.topic_name topic)) [
      | inr n ↦ rw (h, n, drop_slots) v
      | inl n ↦
          rw (h, n, drop_slots)
            (erase_entry_if_unused-IsConsistent _ k (dropped-IsConsistent s k e picked h v))
    ]
  ]

  remove_publisher_slots-IsConsistent :
      (s : Topics) (topic : Name) (picked : ℕ → Bool)
      → IsConsistent skip s
      → IsConsistent skip (remove_publisher_slots s topic picked).1
  unfolding remove_publisher_slots
  remove_publisher_slots-IsConsistent s topic picked v =
      sweep_keeps (λ t. IsConsistent skip t) (drop_slots topic picked)
        (λ t k w. drop_slots-IsConsistent topic picked t k w) (keys s.topics) s v

  pub remove_publisher-IsConsistent :
      (s : Topics) (topic : Name)
      → IsConsistent skip s
      → IsConsistent skip (remove_publisher s topic).1
  unfolding remove_publisher
  remove_publisher-IsConsistent s topic v = elim (Bool-cases (is_topic topic)) [
    | inr h ↦ rw (h, remove_publisher) v
    | inl h ↦ rw (h, remove_publisher) (remove_publisher_slots-IsConsistent s topic (λ _. true) v)
  ]

  pub remove_publisher_of-IsConsistent :
      (s : Topics) (topic : Name) (fd : ℕ)
      → IsConsistent skip s
      → IsConsistent skip (remove_publisher_of s topic fd).1
  unfolding remove_publisher_of
  remove_publisher_of-IsConsistent s topic fd v = elim (Bool-cases (is_topic topic)) [
    | inr h ↦ rw (h, remove_publisher_of) v
    | inl h ↦
        rw (h, remove_publisher_of) (remove_publisher_slots-IsConsistent s topic (has_fd fd) v)
  ]

  drop_service_slots-IsConsistent :
      (service : Name) (fd : ℕ) (s : Topics) (k : Name) (seen : List Name)
      → IsConsistent skip s
      → IsConsistent skip (drop_service_slots service fd s k seen).1
  unfolding drop_service_slots
  drop_service_slots-IsConsistent service fd s k seen v = elim (Option-cases (find k s.topics)) [
    | inl h ↦ rw (h, drop_service_slots) v
    | inr (e, h) ↦ elim (Bool-cases (name_eq e.service_name service)) [
      | inr n ↦ rw (h, n, drop_service_slots) v
      | inl n ↦ rw (h, n, drop_service_slots) (dropped-IsConsistent s k e (has_fd fd) h v)
    ]
  ]

  drop_service-IsConsistent :
      (service : Name) (fd : ℕ) (ks : List Name) (s : Topics) (seen : List Name)
      → IsConsistent skip s
      → IsConsistent skip (drop_service service fd ks s seen).1
  unfolding drop_service
  drop_service-IsConsistent service fd [] s seen v = v
  drop_service-IsConsistent service fd (k ∷ ks) s seen v =
      drop_service-IsConsistent service fd ks _ _
        (drop_service_slots-IsConsistent service fd s k seen v)

  erase_unused_of-IsConsistent :
      (service : Name) (ks : List Name) (s : Topics)
      → IsConsistent skip s
      → IsConsistent skip (erase_unused_of service ks s)
  unfolding erase_unused_of
  erase_unused_of-IsConsistent service [] s v = v
  erase_unused_of-IsConsistent service (k ∷ ks) s v =
      erase_unused_of-IsConsistent service ks _ (elim (Option-cases (find k s.topics)) [
        | inl h ↦ rw h v
        | inr (e, h) ↦ elim (Bool-cases (name_eq e.service_name service)) [
          | inr n ↦ rw (h, n) v
          | inl n ↦ rw (h, n) (erase_entry_if_unused-IsConsistent s k v)
        ]
      ])

  pub remove_publishers_by_service-IsConsistent :
      (s : Topics) (service : Name) (fd : ℕ)
      → IsConsistent skip s
      → IsConsistent skip (remove_publishers_by_service s service fd).1
  unfolding remove_publishers_by_service
  remove_publishers_by_service-IsConsistent s service fd v =
      erase_unused_of-IsConsistent service _ _
        (drop_service-IsConsistent service fd (keys s.topics) s [] v)
