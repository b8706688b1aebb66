-- ===== src/Manager/Handled.antt =====
-- The handlers of the service manager leave nothing to a connection that is closed, also where a send
-- in the middle of a handler closes the handler's own connection.
use omni_binder.Prelude.{
  ℕ, ◌≡◌, Bool, true, false, ◌&&◌, ◌||◌, not, Option, none, some, List, arith, ◌==◌, Bool-cases,
  Option-cases, inl, inr,
}
use omni_binder.OrderedMap.{find, contains}
use omni_binder.OrderedMap.Keys.{Name, number_key, name_key}
use omni_binder.Types.{ServiceInfo, ServiceIdentity}
use omni_binder.Reader.{read_bytes, read_uint32, read_uint64}
use omni_binder.Message.{Message}
use omni_binder.Message.Service.{deserialize_service_info}
use omni_binder.Registry.{
  Entry, add_service, find_service_by_identity, find_service_by_fd_and_name,
  remove_service_by_identity, list_service_names_by_fd, invalid_handle,
}
use omni_binder.Topics.{is_empty}
use omni_binder.Topics.Publishers.{remove_publishers_by_service}
use omni_binder.Topics.Operations.{remove_publishers_by_service-IsConsistent}
use omni_binder.Watches.Indices.{unsubscribe-IsWatched}
use omni_binder.Manager.{Manager, send_message}
use omni_binder.Manager.Ending.{notify_service_watch}
use omni_binder.Manager.Alive.{Keeps, send_message-IsAlive}
use omni_binder.Manager.Closed.{notify_service_watch-IsAlive}
use omni_binder.Manager.Parts.{
  IsOpen, nobody, everybody, set_topics, set_registry, set_watches, other_fd, add_service-IsSound,
  remove_service_by_identity-IsSound, add_service-Unheld, remove_service_by_identity-Unheld,
  unsubscribe-Unwatching,
}
use omni_binder.Manager.Unlisted.{remove_publishers_by_service-Unlisted}
use omni_binder.Manager.Registering.{
  identity_of, is_moved, send_bool_reply, send_register_reply, notify_registered, drop_displaced,
  register_service, handle_register, remove_service_and_notify, handle_unregister,
  handle_control_heartbeat, handle_unsubscribe_service_watch,
}

module _ (alloc : ℕ → Option (List ℕ)) (close : Manager → ℕ → Manager) (keeps : Keeps close) where
  pub sent :
      (m : Manager) (fd : ℕ) (msg : Message) → IsOpen m → IsOpen (send_message alloc close m fd msg)
  sent m fd msg v = send_message-IsAlive alloc close keeps nobody everybody m fd msg v

  pub replied :
      (m : Manager) (fd type seq : ℕ) (ok : Bool)
      → IsOpen m
      → IsOpen (send_bool_reply alloc close m fd type seq ok)
  unfolding send_bool_reply
  replied m fd type seq ok v = sent m fd _ v

  notified :
      (m : Manager) (identity : ServiceIdentity) (online : Bool)
      → IsOpen m
      → IsOpen (notify_service_watch alloc close m identity online)
  notified m identity online v =
      notify_service_watch-IsAlive alloc close keeps nobody everybody m identity online v

  unpublished :
      (m : Manager) (name : Name) (fd : ℕ)
      → IsOpen m
      → IsOpen (record m { topics = (remove_publishers_by_service m.topics name fd).1 })
  unpublished m name fd v =
      set_topics m v (remove_publishers_by_service m.topics name fd).1
        (remove_publishers_by_service-IsConsistent m.topics name fd v.topics)
        (λ f g u. remove_publishers_by_service-Unlisted f m.topics name fd u)

  notify_registered-IsOpen :
      (old : Option Entry) (info : ServiceInfo) (fd : ℕ) (m : Manager)
      → IsOpen m
      → IsOpen (notify_registered alloc close old info fd m)
  unfolding notify_registered
  notify_registered-IsOpen none info fd m v = notified m (identity_of info) true v
  notify_registered-IsOpen (some old) info fd m v = elim (Bool-cases (is_moved old info fd)) [
    | inr h ↦ rw (h, notify_registered) v
    | inl h ↦
        rw (h, notify_registered)
          (notified _ (identity_of info) true (notified m (identity_of old.info) false v))
  ]

  drop_displaced-IsOpen :
      (displaced : Option ℕ) (name : Name) (fd : ℕ) (m : Manager)
      → IsOpen m
      → IsOpen (drop_displaced alloc close displaced name fd m)
  unfolding drop_displaced
  drop_displaced-IsOpen none name fd m v = v
  drop_displaced-IsOpen (some old) name fd m v =
      elim (Bool-cases (old == fd || not (contains old m.clients))) [
        | inl h ↦ rw (h, drop_displaced) v
        | inr h ↦ elim (Bool-cases (is_empty (list_service_names_by_fd m.registry old))) [
          | inl e ↦
              rw (h, e, drop_displaced) (keeps nobody everybody _ old (unpublished m name old v))
          | inr e ↦ rw (h, e, drop_displaced) (unpublished m name old v)
        ]
      ]

  register_service-IsOpen :
      (m : Manager) (fd seq : ℕ) (info : ServiceInfo)
      → contains fd m.clients ≡ true
      → IsOpen m
      → IsOpen (register_service alloc close m fd seq info)
  unfolding register_service send_register_reply
  register_service-IsOpen m fd seq info there v =
      let added = add_service m.registry info fd in
      let w =
        set_registry m v added.registry (add_service-IsSound m.registry info fd v.registry)
          (λ f g u. add_service-Unheld m.registry info fd f (other_fd fd f m.clients there g) u) in
      elim (Bool-cases (added.handle == invalid_handle)) [
        | inl h ↦ rw (h, register_service) (sent _ fd _ w)
        | inr h ↦
            rw (h, register_service)
              (drop_displaced-IsOpen added.displaced_fd info.name fd _ (
                notify_registered-IsOpen (find_service_by_identity m.registry (identity_of info))
                  info fd _ (sent _ fd _ w)))
      ]

  pub handle_register-IsOpen :
      (m : Manager) (fd seq : ℕ) (payload : List ℕ)
      → IsOpen m
      → IsOpen (handle_register alloc close m fd seq payload)
  unfolding handle_register send_register_reply
  handle_register-IsOpen m fd seq payload v = elim (Option-cases (find fd m.clients)) [
    | inl h ↦ rw (h, handle_register) v
    | inr (c, h) ↦ elim (Bool-cases c.hello_received) [
      | inr n ↦ rw (h, n, handle_register) (sent m fd _ v)
      | inl n ↦ elim (Option-cases (deserialize_service_info payload 0)) [
        | inl p ↦ rw (h, n, p, handle_register) (sent m fd _ v)
        | inr ((info, next), p) ↦
            rw (h, n, p, handle_register)
              (register_service-IsOpen m fd seq info (ground (arith, h)) v)
      ]
    ]
  ]

  remove_service_and_notify-IsOpen :
      (m : Manager) (identity : ServiceIdentity) (fd : ℕ)
      → IsOpen m
      → IsOpen (remove_service_and_notify alloc close m identity fd).1
  unfolding remove_service_and_notify
  remove_service_and_notify-IsOpen m identity fd v =
      let removed = record m { registry = (remove_service_by_identity m.registry identity).1 } in
      elim (Bool-cases (remove_service_by_identity m.registry identity).0) [
        | inr h ↦ rw (h, remove_service_and_notify) v
        | inl h ↦
            rw (h, remove_service_and_notify)
              (unpublished (notify_service_watch alloc close removed identity false) identity.name
                fd
                (notified removed identity false (
                  set_registry m v (remove_service_by_identity m.registry identity).1
                    (remove_service_by_identity-IsSound m.registry identity v.registry)
                    (λ f g u. remove_service_by_identity-Unheld m.registry identity f u))))
      ]

  pub handle_unregister-IsOpen :
      (m : Manager) (fd seq : ℕ) (payload : List ℕ)
      → IsOpen m
      → IsOpen (handle_unregister alloc close m fd seq payload)
  unfolding handle_unregister
  handle_unregister-IsOpen m fd seq payload v = elim (Option-cases (read_bytes payload 0)) [
    | inl p ↦ rw (p, handle_unregister) (replied m fd 0x0004 seq false v)
    | inr ((name, next), p) ↦ elim (Option-cases (find_service_by_fd_and_name m.registry fd name)) [
      | inl h ↦ rw (p, h, handle_unregister) (replied m fd 0x0004 seq false v)
      | inr (entry, h) ↦
          let identity = identity_of entry.info in
          let r = remove_service_and_notify alloc close m identity fd in
          let w = remove_service_and_notify-IsOpen m identity fd v in
          elim (Bool-cases (r.0 && not (contains fd r.1.clients))) [
            | inl g ↦ rw (p, h, g, handle_unregister) w
            | inr g ↦ rw (p, h, g, handle_unregister) (replied r.1 fd 0x0004 seq r.0 w)
          ]
    ]
  ]

  pub handle_control_heartbeat-IsOpen :
      (sm_incarnation : ℕ) (m : Manager) (fd seq : ℕ) (payload : List ℕ)
      → IsOpen m
      → IsOpen (handle_control_heartbeat alloc close sm_incarnation m fd seq payload)
  unfolding handle_control_heartbeat
  handle_control_heartbeat-IsOpen sm_incarnation m fd seq payload v =
      elim (Option-cases (find fd m.clients)) [
        | inl h ↦ rw (h, handle_control_heartbeat) v
        | inr (c, h) ↦ elim (Bool-cases c.hello_received) [
          | inr n ↦ rw (h, n, handle_control_heartbeat) (keeps nobody everybody m fd v)
          | inl n ↦ elim (Option-cases (read_uint32 payload 0)) [
            | inl p ↦ rw (h, n, p, handle_control_heartbeat) (keeps nobody everybody m fd v)
            | inr ((incarnation, next), p) ↦ elim (Bool-cases (incarnation == c.incarnation_id)) [
              | inr s ↦ rw (h, n, p, s, handle_control_heartbeat) (keeps nobody everybody m fd v)
              | inl s ↦ rw (h, n, p, s, handle_control_heartbeat) (sent m fd _ v)
            ]
          ]
        ]
      ]

  pub handle_unsubscribe_service_watch-IsOpen :
      (m : Manager) (fd : ℕ) (payload : List ℕ)
      → IsOpen m
      → IsOpen (handle_unsubscribe_service_watch alloc close m fd payload)
  unfolding handle_unsubscribe_service_watch
  handle_unsubscribe_service_watch-IsOpen m fd payload v =
      elim (Option-cases (read_uint64 payload 0)) [
        | inl p ↦ rw (p, handle_unsubscribe_service_watch) v
        | inr ((watch_id, next), p) ↦ elim (Bool-cases (watch_id == 0)) [
          | inl z ↦ rw (p, z, handle_unsubscribe_service_watch) v
          | inr z ↦
              rw (p, z, handle_unsubscribe_service_watch)
                (set_watches m v _ (unsubscribe-IsWatched m.watches fd watch_id v.watches)
                  (λ f g u. unsubscribe-Unwatching m.watches fd watch_id f u))
        ]
      ]
