-- ===== src/Topics/Publishers.antt =====
-- registerPublisher, removePublisher and removePublishersByService.
use omni_binder.Prelude.{
  ℕ, ◌+◌, Bool, true, false, ◌&&◌, ◌||◌, not, none, some, List, [], ◌∷◌, ◌++◌, ltb, ◌==◌,
  if◌then◌else◌, length,
}
use omni_binder.OrderedMap.{Map, find, contains, insert, keys}
use omni_binder.OrderedMap.Keys.{Name, name_eq, name_key, number_key}
use omni_binder.OrderedMap.Nested.{insert2, or_empty}
use omni_binder.Types.{
  ServiceInfo, max_service_name_length, max_topic_name_length, max_published_topics,
  max_published_topics_bytes, instance_key,
}
use omni_binder.Registry.{names_seen}
use omni_binder.Topics.{
  Topics, TopicEntry, PublisherSlot, max_topics_global, max_topic_publications_per_connection,
  entry_key, new_entry, erase_entry_if_unused, drop_publishers, any_picked, set_publishers, sweep,
  is_empty,
}

abbrev pub is_topic : Name → Bool
is_topic topic = not (length topic == 0) && not (ltb max_topic_name_length (length topic))

-- The topics that the service publishes, apart from the entry at hand, and their bytes.
unfoldable pub publications_of : Name → Name → Map Name TopicEntry → ℕ × ℕ
publications_of service_name ekey [] = (0, 0)
publications_of service_name ekey ((k, e) ∷ entries) =
    let (count, bytes) = publications_of service_name ekey entries in
    if name_eq k ekey || not (name_eq e.service_name service_name) || is_empty e.publishers
    then (count, bytes)
    else (count + 1, bytes + length e.topic_name)

-- The refusals of registerPublisher.
unfoldable pub may_publish : Topics → Name → ServiceInfo → ℕ → Bool
may_publish s topic info fd =
    let ekey = entry_key info.name topic in
    let (count, bytes) = publications_of info.name ekey s.topics in
    is_topic topic
    && not (length info.name == 0)
    && not (ltb max_service_name_length (length info.name))
    && not (
        not (contains ekey s.topics)
        && not (contains topic s.topic_name_refs)
        && not (ltb (length s.topic_name_refs) max_topics_global))
    && not (
        not (contains ekey (or_empty (find fd s.fd_publications)))
        && contains fd s.fd_publications
        && not (
            ltb (length (or_empty (find fd s.fd_publications)))
              max_topic_publications_per_connection))
    && not (ltb max_published_topics (1 + count))
    && not (ltb max_published_topics_bytes (length topic + bytes))

-- The entry of the key, made where there is none.
unfoldable pub with_entry : Topics → Name → Name → Name → Topics
with_entry s ekey service_name topic =
    if contains ekey s.topics then s else new_entry s ekey service_name topic

unfoldable pub put_slot : Topics → Name → Name → PublisherSlot → Topics
put_slot s ekey instance_key slot = elim (find ekey s.topics) [
  | none ↦ s
  | some e ↦
      set_publishers s ekey e (insert instance_key slot e.publishers)
        (insert2 slot.fd ekey tt s.fd_publications)
]

unfoldable pub register_publisher : Topics → Name → ServiceInfo → ℕ → ℕ → Bool × Topics
register_publisher s topic info fd idl_hash =
    let ekey = entry_key info.name topic in
    if not (may_publish s topic info fd) then (false, s) else (
      true,
      put_slot (with_entry s ekey info.name topic) ekey (instance_key info.instance_id)
          (record { fd = fd; info = info; idl_hash = idl_hash }),
    )

-- One round of removePublisherSlots.
unfoldable pub drop_slots : Name → (ℕ → Bool) → Topics → Name → Bool × Topics
drop_slots topic picked s ekey = elim (find ekey s.topics) [
  | none ↦ (false, s)
  | some e ↦
      let (kept, index) = drop_publishers picked ekey e.publishers s.fd_publications in
      if not (name_eq e.topic_name topic) then (false, s) else (
        any_picked picked e.publishers,
        erase_entry_if_unused (set_publishers s ekey e kept index) ekey,
      )
]

unfoldable pub remove_publisher_slots : Topics → Name → (ℕ → Bool) → Bool × Topics
remove_publisher_slots s topic picked = sweep (drop_slots topic picked) (keys s.topics) s

-- removePublisher(topic)
unfoldable pub remove_publisher : Topics → Name → Bool × Topics
remove_publisher s topic =
    if not (is_topic topic) then (false, s) else remove_publisher_slots s topic (λ _. true)

abbrev pub has_fd : ℕ → ℕ → Bool
has_fd fd f = f == fd

-- removePublisher(topic, publisher_fd)
unfoldable pub remove_publisher_of : Topics → Name → ℕ → Bool × Topics
remove_publisher_of s topic fd =
    if not (is_topic topic) then (false, s) else remove_publisher_slots s topic (has_fd fd)

-- The first loop of removePublishersByService, at one entry; `seen` are the topics that it removed from.
unfoldable pub drop_service_slots : Name → ℕ → Topics → Name → List Name → List Name × Topics
drop_service_slots service_name fd s ekey seen = elim (find ekey s.topics) [
  | none ↦ (seen, s)
  | some e ↦
      let (kept, index) = drop_publishers (has_fd fd) ekey e.publishers s.fd_publications in
      if not (name_eq e.service_name service_name) then (seen, s) else (
        if any_picked (has_fd fd) e.publishers && not (names_seen e.topic_name seen)
            then seen ++ e.topic_name ∷ []
            else seen,
        set_publishers s ekey e kept index,
      )
]

unfoldable pub drop_service : Name → ℕ → List Name → Topics → List Name → List Name × Topics
drop_service service_name fd [] s seen = (seen, s)
drop_service service_name fd (k ∷ ks) s seen =
    let (seen', s') = drop_service_slots service_name fd s k seen in
    drop_service service_name fd ks s' seen'

-- The second loop.
unfoldable pub erase_unused_of : Name → List Name → Topics → Topics
erase_unused_of service_name [] s = s
erase_unused_of service_name (k ∷ ks) s = erase_unused_of service_name ks (elim (find k s.topics) [
  | none ↦ s
  | some e ↦ if name_eq e.service_name service_name then erase_entry_if_unused s k else s
])

unfoldable pub remove_publishers_by_service : Topics → Name → ℕ → List Name × Topics
remove_publishers_by_service s service_name fd =
    let (removed, s') = drop_service service_name fd (keys s.topics) s [] in
    (removed, erase_unused_of service_name (keys s'.topics) s')
