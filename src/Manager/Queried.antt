-- ===== src/Manager/Queried.antt =====
-- The handlers of queries, in the same way.
use omni_binder.Prelude.{
  ℕ, Bool, true, false, ◌||◌, not, Option, none, some, List, [], ltb, length, Bool-cases,
  Option-cases, inl, inr,
}
use omni_binder.OrderedMap.Keys.{Name}
use omni_binder.Types.{ServiceInfo, max_service_name_length, max_published_topics}
use omni_binder.Reader.{read_bytes}
use omni_binder.Message.Topic.{are_sendable}
use omni_binder.Registry.{Entry, find_service, list_services, list_service_instances}
use omni_binder.Topics.Queries.{get_published_topics}
use omni_binder.Manager.{Manager}
use omni_binder.Manager.Alive.{Keeps}
use omni_binder.Manager.Parts.{IsOpen}
use omni_binder.Manager.Handled.{sent}
use omni_binder.Manager.Topical.{is_serializable, small_interfaces, read_exact_string}
use omni_binder.Manager.Querying.{
  all_serializable, shown, send_lookup_reply, handle_lookup, send_list_instances_reply,
  handle_list_instances, handle_list_services, send_query_interfaces_reply, handle_query_interfaces,
  send_query_published_topics_reply, handle_query_published_topics,
}

module _ (alloc : ℕ → Option (List ℕ)) (close : Manager → ℕ → Manager) (keeps : Keeps close)
    (m : Manager) (fd seq : ℕ) (v : IsOpen m) where
  looked_up : (found : Option Entry) → IsOpen (send_lookup_reply alloc close m fd seq found)
  unfolding send_lookup_reply
  looked_up none = sent alloc close keeps m fd _ v
  looked_up (some entry) = elim (Bool-cases (is_serializable entry.info)) [
    | inl h ↦ rw (h, send_lookup_reply) (sent alloc close keeps m fd _ v)
    | inr h ↦ rw (h, send_lookup_reply) v
  ]

  pub handle_lookup-IsOpen :
      (payload : List ℕ) → IsOpen (handle_lookup alloc close m fd seq payload)
  unfolding handle_lookup
  handle_lookup-IsOpen payload = elim (Option-cases (read_bytes payload 0)) [
    | inl p ↦ rw (p, handle_lookup) (looked_up none)
    | inr ((name, next), p) ↦ rw (p, handle_lookup) (looked_up (find_service m.registry name))
  ]

  listed :
      (infos : List ServiceInfo) → IsOpen (send_list_instances_reply alloc close m fd seq infos)
  unfolding send_list_instances_reply
  listed infos = elim (Bool-cases (all_serializable infos)) [
    | inl h ↦ rw (h, send_list_instances_reply) (sent alloc close keeps m fd _ v)
    | inr h ↦ rw (h, send_list_instances_reply) v
  ]

  pub handle_list_instances-IsOpen :
      (payload : List ℕ) → IsOpen (handle_list_instances alloc close m fd seq payload)
  unfolding handle_list_instances
  handle_list_instances-IsOpen payload = elim (Option-cases (read_bytes payload 0)) [
    | inl p ↦ rw (p, handle_list_instances) (listed [])
    | inr ((name, next), p) ↦
        rw (p, handle_list_instances) (listed (list_service_instances m.registry name))
  ]

  pub handle_list_services-IsOpen : IsOpen (handle_list_services alloc close m fd seq)
  unfolding handle_list_services
  handle_list_services-IsOpen =
      elim (Bool-cases (all_serializable (shown (list_services m.registry)))) [
        | inl h ↦ rw (h, handle_list_services) (sent alloc close keeps m fd _ v)
        | inr h ↦ rw (h, handle_list_services) v
      ]

  answered :
      (found : Option Entry) → IsOpen (send_query_interfaces_reply alloc close m fd seq found)
  unfolding send_query_interfaces_reply
  answered none = sent alloc close keeps m fd _ v
  answered (some entry) = elim (Bool-cases (small_interfaces entry.info.interfaces)) [
    | inl h ↦ rw (h, send_query_interfaces_reply) (sent alloc close keeps m fd _ v)
    | inr h ↦ rw (h, send_query_interfaces_reply) v
  ]

  pub handle_query_interfaces-IsOpen :
      (payload : List ℕ) → IsOpen (handle_query_interfaces alloc close m fd seq payload)
  unfolding handle_query_interfaces
  handle_query_interfaces-IsOpen payload = elim (Option-cases (read_bytes payload 0)) [
    | inl p ↦ rw (p, handle_query_interfaces) (answered none)
    | inr ((name, next), p) ↦
        rw (p, handle_query_interfaces) (answered (find_service m.registry name))
  ]

  topics_told :
      (found : Bool) (topics : List Name)
      → IsOpen (send_query_published_topics_reply alloc close m fd seq found topics)
  unfolding send_query_published_topics_reply
  topics_told found topics =
      elim (Bool-cases (ltb max_published_topics (length topics) || not (are_sendable 0 topics))) [
        | inl h ↦ rw (h, send_query_published_topics_reply) v
        | inr h ↦ rw (h, send_query_published_topics_reply) (sent alloc close keeps m fd _ v)
      ]

  pub handle_query_published_topics-IsOpen :
      (payload : List ℕ) → IsOpen (handle_query_published_topics alloc close m fd seq payload)
  unfolding handle_query_published_topics
  handle_query_published_topics-IsOpen payload =
      elim (Option-cases (read_exact_string max_service_name_length payload 0)) [
        | inl p ↦ rw (p, handle_query_published_topics) (topics_told false [])
        | inr ((name, next), p) ↦ elim (Option-cases (find_service m.registry name)) [
          | inl h ↦ rw (p, h, handle_query_published_topics) (topics_told false [])
          | inr (entry, h) ↦
              rw (p, h, handle_query_published_topics)
                (topics_told true (get_published_topics m.topics name))
        ]
      ]
