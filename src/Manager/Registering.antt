-- ===== src/Manager/Registering.antt =====
-- sm_registry.cpp: the handlers of registrations and of service watches.
use omni_binder.Prelude.{
  ℕ, Bool, true, false, ◌&&◌, ◌||◌, not, Option, none, some, List, [], ◌∷◌, ◌==◌, if◌then◌else◌,
  bytes32,
}
use omni_binder.OrderedMap.{find, contains}
use omni_binder.OrderedMap.Keys.{Name, name_eq, number_key}
use omni_binder.Types.{ServiceInfo, ServiceIdentity}
use omni_binder.Reader.{read_bytes, read_uint32}
use omni_binder.Message.Service.{deserialize_service_info}
use omni_binder.Message.Topic.{bool_byte}
use omni_binder.Registry.{
  Entry, add_service, find_service_by_identity, find_service_by_fd_and_name,
  remove_service_by_identity, list_service_names_by_fd, invalid_handle,
}
use omni_binder.Topics.{is_empty}
use omni_binder.Topics.Publishers.{remove_publishers_by_service}
use omni_binder.Watches.{unsubscribe}
use omni_binder.Reader.{read_uint64}
use omni_binder.Manager.{Manager, new_message, send_message}
use omni_binder.Manager.Ending.{notify_service_watch}

abbrev pub identity_of : ServiceInfo → ServiceIdentity
identity_of info = record {
  name = info.name;
  host_id = info.host_id;
  instance_id = info.instance_id;
}

-- Whether a registration moves an instance, so that its watchers see it go and come.
unfoldable pub is_moved : Entry → ServiceInfo → ℕ → Bool
is_moved old info fd =
    not (old.control_fd == fd)
    || not (old.info.port == info.port)
    || not (name_eq old.info.host_id info.host_id)

module _ (alloc : ℕ → Option (List ℕ)) (close : Manager → ℕ → Manager) where
  unfoldable pub send_bool_reply : Manager → ℕ → ℕ → ℕ → Bool → Manager
  send_bool_reply m fd type seq ok =
      send_message alloc close m fd (new_message type seq (bool_byte ok ∷ []))

  unfoldable pub send_register_reply : Manager → ℕ → ℕ → ℕ → Manager
  send_register_reply m fd seq handle =
      send_message alloc close m fd (new_message 0x0002 seq (bytes32 handle))

  -- What watchers are told of a registration; `old` is the entry that was there before.
  unfoldable pub notify_registered : Option Entry → ServiceInfo → ℕ → Manager → Manager
  notify_registered old info fd m = elim old [
    | none ↦ notify_service_watch alloc close m (identity_of info) true
    | some entry ↦
        if is_moved entry info fd
        then notify_service_watch alloc close
            (notify_service_watch alloc close m (identity_of entry.info) false) (identity_of info)
            true
        else m
  ]

  -- What a displaced connection published for the service goes, and the connection with its last service.
  unfoldable pub drop_displaced : Option ℕ → Name → ℕ → Manager → Manager
  drop_displaced displaced name fd m = elim displaced [
    | none ↦ m
    | some old ↦
        if old == fd || not (contains old m.clients)
        then m
        else let m' = record m { topics = (remove_publishers_by_service m.topics name old).1 } in
          if is_empty (list_service_names_by_fd m'.registry old) then close m' old else m'
  ]

  unfoldable pub register_service : Manager → ℕ → ℕ → ServiceInfo → Manager
  register_service m fd seq info =
      let old = find_service_by_identity m.registry (identity_of info) in
      let added = add_service m.registry info fd in
      let m' = record m { registry = added.registry } in
      if added.handle == invalid_handle
      then send_register_reply m' fd seq invalid_handle
      else drop_displaced added.displaced_fd info.name fd
          (notify_registered old info fd (send_register_reply m' fd seq added.handle))

  unfoldable pub handle_register : Manager → ℕ → ℕ → List ℕ → Manager
  handle_register m fd seq payload = elim (find fd m.clients) [
    | none ↦ m
    | some c ↦
        if not c.hello_received
        then send_register_reply m fd seq invalid_handle
        else elim (deserialize_service_info payload 0) [
          | none ↦ send_register_reply m fd seq invalid_handle
          | some (info, next) ↦ register_service m fd seq info
        ]
  ]

  unfoldable pub remove_service_and_notify : Manager → ServiceIdentity → ℕ → Bool × Manager
  remove_service_and_notify m identity fd =
      let (removed, registry) = remove_service_by_identity m.registry identity in
      if not removed
      then (false, m)
      else let m' =
          notify_service_watch alloc close (record m { registry = registry }) identity false in
        (true, record m' { topics = (remove_publishers_by_service m'.topics identity.name fd).1 })

  unfoldable pub handle_unregister : Manager → ℕ → ℕ → List ℕ → Manager
  handle_unregister m fd seq payload = elim (read_bytes payload 0) [
    | none ↦ send_bool_reply m fd 0x0004 seq false
    | some (name, next) ↦ elim (find_service_by_fd_and_name m.registry fd name) [
      | none ↦ send_bool_reply m fd 0x0004 seq false
      | some entry ↦
          let (success, m') = remove_service_and_notify m (identity_of entry.info) fd in
          if success && not (contains fd m'.clients)
          then m'
          else send_bool_reply m' fd 0x0004 seq success
    ]
  ]

  -- handleControlHeartbeat, without its deadline.
  unfoldable pub handle_control_heartbeat : ℕ → Manager → ℕ → ℕ → List ℕ → Manager
  handle_control_heartbeat sm_incarnation m fd seq payload = elim (find fd m.clients) [
    | none ↦ m
    | some c ↦ if not c.hello_received then close m fd else elim (read_uint32 payload 0) [
      | none ↦ close m fd
      | some (incarnation, next) ↦
          if not (incarnation == c.incarnation_id)
          then close m fd
          else send_message alloc close m fd (new_message 0x0008 seq (bytes32 sm_incarnation))
    ]
  ]

  unfoldable pub handle_unsubscribe_service_watch : Manager → ℕ → List ℕ → Manager
  handle_unsubscribe_service_watch m fd payload = elim (read_uint64 payload 0) [
    | none ↦ m
    | some (watch_id, next) ↦
        if watch_id == 0 then m else record m { watches = (unsubscribe m.watches fd watch_id).1 }
  ]
