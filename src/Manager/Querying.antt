-- ===== src/Manager/Querying.antt =====
-- sm_registry.cpp and sm_topic.cpp: the handlers that answer a query and change nothing.
use omni_binder.Prelude.{
  ℕ, Bool, true, false, ◌&&◌, ◌||◌, not, Option, none, some, List, [], ◌∷◌, ◌++◌, ltb,
  if◌then◌else◌, length, take, bytes32,
}
use omni_binder.OrderedMap.Keys.{Name, name_eq}
use omni_binder.Types.{ServiceInfo, max_service_name_length, max_published_topics}
use omni_binder.Buffer.Appends.{encode_bytes}
use omni_binder.Reader.{read_bytes}
use omni_binder.Message.Items.{encode_each}
use omni_binder.Message.Service.{encode_service, encode_interface}
use omni_binder.Message.Topic.{bool_byte, are_sendable}
use omni_binder.Registry.{Entry, find_service, list_services, list_service_instances}
use omni_binder.Topics.{is_empty}
use omni_binder.Topics.Queries.{get_published_topics}
use omni_binder.Manager.{Manager, new_message, send_message}
use omni_binder.Manager.Topical.{is_serializable, small_interfaces, read_exact_string}

abbrev pub all_serializable : List ServiceInfo → Bool
all_serializable [] = true
all_serializable (info ∷ infos) = is_serializable info && all_serializable infos

-- "__diag_pid_"
abbrev diag_service_name_prefix : Name
diag_service_name_prefix = 95 ∷ 95 ∷ 100 ∷ 105 ∷ 97 ∷ 103 ∷ 95 ∷ 112 ∷ 105 ∷ 100 ∷ 95 ∷ []

-- The services without those of the diagnosis.
unfoldable pub shown : List ServiceInfo → List ServiceInfo
shown [] = []
shown (info ∷ infos) =
    let rest = shown infos in
    if name_eq (take 11 info.name) diag_service_name_prefix then rest else info ∷ rest

module _ (alloc : ℕ → Option (List ℕ)) (close : Manager → ℕ → Manager) where
  unfoldable pub send_lookup_reply : Manager → ℕ → ℕ → Option Entry → Manager
  send_lookup_reply m fd seq found = elim found [
    | none ↦ send_message alloc close m fd (new_message 0x0011 seq (bool_byte false ∷ []))
    | some entry ↦
        if not (is_serializable entry.info)
        then m
        else send_message alloc close m fd
            (new_message 0x0011 seq (bool_byte true ∷ encode_service entry.info))
  ]

  unfoldable pub handle_lookup : Manager → ℕ → ℕ → List ℕ → Manager
  handle_lookup m fd seq payload = elim (read_bytes payload 0) [
    | none ↦ send_lookup_reply m fd seq none
    | some (name, next) ↦ send_lookup_reply m fd seq (find_service m.registry name)
  ]

  unfoldable pub send_list_instances_reply : Manager → ℕ → ℕ → List ServiceInfo → Manager
  send_list_instances_reply m fd seq instances =
      if not (all_serializable instances)
      then m
      else send_message alloc close m fd (
          new_message 0x0017 seq (
            bool_byte (not (is_empty instances))
            ∷ (bytes32 (length instances) ++ encode_each encode_service instances)))

  unfoldable pub handle_list_instances : Manager → ℕ → ℕ → List ℕ → Manager
  handle_list_instances m fd seq payload = elim (read_bytes payload 0) [
    | none ↦ send_list_instances_reply m fd seq []
    | some (name, next) ↦
        send_list_instances_reply m fd seq (list_service_instances m.registry name)
  ]

  unfoldable pub handle_list_services : Manager → ℕ → ℕ → Manager
  handle_list_services m fd seq =
      let services = shown (list_services m.registry) in
      if not (all_serializable services)
      then m
      else send_message alloc close m fd (
          new_message 0x0013 seq (bytes32 (length services) ++ encode_each encode_service services))

  unfoldable pub send_query_interfaces_reply : Manager → ℕ → ℕ → Option Entry → Manager
  send_query_interfaces_reply m fd seq found = elim found [
    | none ↦ send_message alloc close m fd (new_message 0x0015 seq (bool_byte false ∷ []))
    | some entry ↦
        let interfaces = entry.info.interfaces in
        if not (small_interfaces interfaces)
        then m
        else send_message alloc close m fd (
            new_message 0x0015 seq (
              bool_byte true
              ∷ (bytes32 (length interfaces) ++ encode_each encode_interface interfaces)))
  ]

  unfoldable pub handle_query_interfaces : Manager → ℕ → ℕ → List ℕ → Manager
  handle_query_interfaces m fd seq payload = elim (read_bytes payload 0) [
    | none ↦ send_query_interfaces_reply m fd seq none
    | some (name, next) ↦ send_query_interfaces_reply m fd seq (find_service m.registry name)
  ]

  unfoldable pub send_query_published_topics_reply : Manager → ℕ → ℕ → Bool → List Name → Manager
  send_query_published_topics_reply m fd seq found topics =
      if ltb max_published_topics (length topics) || not (are_sendable 0 topics)
      then m
      else send_message alloc close m fd (
          new_message 0x0038 seq (
            bool_byte found
            ∷ (if found then bytes32 (length topics) ++ encode_each encode_bytes topics else [])))

  unfoldable pub handle_query_published_topics : Manager → ℕ → ℕ → List ℕ → Manager
  handle_query_published_topics m fd seq payload =
      elim (read_exact_string max_service_name_length payload 0) [
        | none ↦ send_query_published_topics_reply m fd seq false []
        | some (name, next) ↦ elim (find_service m.registry name) [
          | none ↦ send_query_published_topics_reply m fd seq false []
          | some entry ↦
              send_query_published_topics_reply m fd seq true (get_published_topics m.topics name)
        ]
      ]
