-- ===== src/Manager/Topical.antt =====
-- sm_topic.cpp: the handlers of publications and subscriptions.
use omni_binder.Prelude.{
  ℕ, Bool, true, false, ◌&&◌, ◌||◌, not, Option, none, some, List, [], ◌∷◌, ◌++◌, leb, ltb, ◌==◌,
  if◌then◌else◌, length, bytes32,
}
use omni_binder.OrderedMap.{contains}
use omni_binder.OrderedMap.Keys.{Name, number_key}
use omni_binder.Types.{ServiceInfo, InterfaceInfo, max_service_name_length, max_topic_name_length}
use omni_binder.Buffer.Appends.{encode_bytes}
use omni_binder.Reader.{Reader, ◌>>=◌, ◌>>◌, done, check, rest_size, read_bytes, read_uint32}
use omni_binder.Message.Service.{deserialize_service_info, encode_service}
use omni_binder.Message.Topic.{
  Selector, read_selector, bool_byte, topic_sub_mode_service, topic_sub_mode_instance,
}
use omni_binder.Registry.{Entry, find_service_by_fd_and_name}
use omni_binder.Topics.{Mode, topic_only, by_service, by_instance, Filter, is_empty}
use omni_binder.Topics.Publishers.{register_publisher, remove_publisher_of}
use omni_binder.Topics.Subscribers.{add_subscriber, remove_subscription}
use omni_binder.Topics.Queries.{
  PublisherView, get_matching_subscribers, get_matching_publishers, get_selected_idl_hash,
}
use omni_binder.Manager.{Manager, next_sequence, new_message, send_message}
use omni_binder.Manager.Registering.{send_bool_reply}

-- tryReadExactStringArg
unfoldable pub read_exact_string : ℕ → Reader Name
read_exact_string max_length = do
  value ← read_bytes
  rest ← rest_size
  check (not (is_empty value) && leb (length value) max_length && rest == 0)
  done value

-- The filter of a mode and its fields.
abbrev mode_of : ℕ → Mode
mode_of mode =
    if mode == topic_sub_mode_instance
    then by_instance
    else if mode == topic_sub_mode_service
    then by_service
    else topic_only

abbrev filter_of : Selector → Filter
filter_of s = record {
  mode = mode_of s.mode;
  publisher_service = s.publisher_service;
  host_id = s.host_id;
  instance_id = s.instance_id;
}

abbrev any_publisher : Filter
any_publisher = record { mode = topic_only; publisher_service = []; host_id = []; instance_id = [] }

-- The selector behind the topic, and its bounds.
unfoldable pub read_filter : Reader Filter
read_filter = do
  selector ← read_selector
  rest ← rest_size
  check (
      rest == 0
      && not (
          leb topic_sub_mode_service selector.mode
          && (is_empty selector.publisher_service
              || ltb max_service_name_length (length selector.publisher_service)))
      && not (
          selector.mode == topic_sub_mode_instance
          && (ltb max_service_name_length (length selector.host_id)
              || ltb max_service_name_length (length selector.instance_id))))
  done (filter_of selector)

abbrev unless_at_end : {A : Type 0} → A → Reader A → Reader A
unless_at_end a r block pos = elim (leb (length block) pos) [
  | true ↦ some (a, pos)
  | false ↦ r block pos
]

-- parseSubscribeTopicRequest
unfoldable pub parse_subscribe_topic_request : Reader (Name × Filter)
parse_subscribe_topic_request = do
  topic ← read_bytes
  check (not (is_empty topic) && not (ltb max_topic_name_length (length topic)))
  selector ← unless_at_end any_publisher read_filter
  done (topic, selector)

-- What handlePublishTopic reads: the topic, the publisher and the hash of the interface.
unfoldable pub read_publication : Reader (Name × ServiceInfo × ℕ)
read_publication = do
  topic ← read_bytes
  check (not (is_empty topic) && not (ltb max_topic_name_length (length topic)))
  info ← deserialize_service_info
  idl_hash ← unless_at_end 0 read_uint32
  rest ← rest_size
  check (rest == 0)
  check (not (is_empty info.name) && not (ltb max_service_name_length (length info.name)))
  done (topic, info, idl_hash)

-- The counts of serializeServiceInfo.
abbrev pub small_interfaces : List InterfaceInfo → Bool
small_interfaces [] = true
small_interfaces (i ∷ is) = not (ltb 0xFFFF (length i.methods)) && small_interfaces is

abbrev pub is_serializable : ServiceInfo → Bool
is_serializable info = not (ltb 0xFFFF (length info.interfaces)) && small_interfaces info.interfaces

-- The publisher with the identity and the address that its connection registered.
unfoldable pub owned_by : Entry → ServiceInfo → ServiceInfo
owned_by owner info = record info {
  host = owner.info.host;
  port = owner.info.port;
  host_id = owner.info.host_id;
  instance_id = owner.info.instance_id;
}

abbrev or_no_hash : Option ℕ → ℕ
or_no_hash none = 0
or_no_hash (some idl_hash) = idl_hash

module _ (alloc : ℕ → Option (List ℕ)) (close : Manager → ℕ → Manager) where
  unfoldable pub send_topic_publisher_notify : ℕ → Name → ServiceInfo → ℕ → Manager → Manager
  send_topic_publisher_notify fd topic info idl_hash m =
      if not (contains fd m.clients)
      then m
      else if not (is_serializable info)
      then next_sequence m
      else send_message alloc close (next_sequence m) fd (
          new_message 0x0034 m.sequence
            (encode_bytes topic ++ (encode_service info ++ bytes32 idl_hash)))

  unfoldable pub notify_subscribers : List ℕ → Name → ServiceInfo → ℕ → Manager → Manager
  notify_subscribers [] topic info idl_hash m = m
  notify_subscribers (fd ∷ fds) topic info idl_hash m =
      notify_subscribers fds topic info idl_hash
        (send_topic_publisher_notify fd topic info idl_hash m)

  unfoldable pub publish_topic : Manager → ℕ → ℕ → Name → ServiceInfo → ℕ → Manager
  publish_topic m fd seq topic info idl_hash =
      let (success, topics) = register_publisher m.topics topic info fd idl_hash in
      let m' = send_bool_reply alloc close (record m { topics = topics }) fd 0x0031 seq success in
      if success
      then notify_subscribers (get_matching_subscribers m'.topics topic info) topic info idl_hash m'
      else m'

  unfoldable pub handle_publish_topic : Manager → ℕ → ℕ → List ℕ → Manager
  handle_publish_topic m fd seq payload = elim (read_publication payload 0) [
    | none ↦ send_bool_reply alloc close m fd 0x0031 seq false
    | some ((topic, info, idl_hash), next) ↦
        elim (find_service_by_fd_and_name m.registry fd info.name) [
          | none ↦ send_bool_reply alloc close m fd 0x0031 seq false
          | some owner ↦ publish_topic m fd seq topic (owned_by owner info) idl_hash
        ]
  ]

  unfoldable pub handle_unpublish_topic : Manager → ℕ → List ℕ → Manager
  handle_unpublish_topic m fd payload = elim (read_exact_string max_topic_name_length payload 0) [
    | none ↦ m
    | some (topic, next) ↦ record m { topics = (remove_publisher_of m.topics topic fd).1 }
  ]

  unfoldable pub send_subscribe_topic_reply : Manager → ℕ → ℕ → Bool → ℕ → Manager
  send_subscribe_topic_reply m fd seq success idl_hash =
      send_message alloc close m fd
        (new_message 0x0033 seq (bool_byte success ∷ (if success then bytes32 idl_hash else [])))

  unfoldable pub notify_subscriber : ℕ → Name → List PublisherView → Manager → Manager
  notify_subscriber fd topic [] m = m
  notify_subscriber fd topic (view ∷ views) m =
      notify_subscriber fd topic views
        (send_topic_publisher_notify fd topic view.info view.idl_hash m)

  unfoldable pub handle_subscribe_topic : Manager → ℕ → ℕ → List ℕ → Manager
  handle_subscribe_topic m fd seq payload = elim (parse_subscribe_topic_request payload 0) [
    | none ↦ send_subscribe_topic_reply m fd seq false 0
    | some ((topic, selector), next) ↦
        let (added, topics) = add_subscriber m.topics topic selector fd in
        let idl_hash = or_no_hash (get_selected_idl_hash topics topic selector) in
        let m' = send_subscribe_topic_reply (record m { topics = topics }) fd seq added idl_hash in
        notify_subscriber fd topic (get_matching_publishers m'.topics topic selector) m'
  ]

  unfoldable pub handle_unsubscribe_topic : Manager → ℕ → List ℕ → Manager
  handle_unsubscribe_topic m fd payload = elim (parse_subscribe_topic_request payload 0) [
    | none ↦ m
    | some ((topic, selector), next) ↦ record m {
      topics = (remove_subscription m.topics topic selector fd).1;
    }
  ]
