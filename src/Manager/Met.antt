-- ===== src/Manager/Met.antt =====
-- The handlers of service watches and of sessions, in the same way.
use omni_binder.Prelude.{
  ℕ, ◌≡◌, Bool, true, false, ◌&&◌, ◌||◌, not, Option, List, [], ◌∷◌, arith, ◌==◌, Bool-cases,
  Option-cases, inl, inr, ltb, length,
}
use omni_binder.OrderedMap.{find, contains, insert}
use omni_binder.OrderedMap.Keys.{Name, number_key, name_key}
use omni_binder.OrderedMap.Laws.{find-insert}
use omni_binder.Types.{ServiceInfo, ServiceIdentity, max_service_name_length}
use omni_binder.Session.{make_runtime_session_key}
use omni_binder.Message.Session.{SessionHelloAck}
use omni_binder.Message.Runtime.{RuntimeInfo, deserialize_runtime_info}
use omni_binder.Registry.{list_service_instances}
use omni_binder.Watches.{WatchFilter, filter_matches, subscribe}
use omni_binder.Watches.Indices.{subscribe-IsWatched}
use omni_binder.Manager.{Manager, next_sequence}
use omni_binder.Manager.Ending.{send_watch_notify, watch_message}
use omni_binder.Manager.Alive.{Keeps}
use omni_binder.Manager.Parts.{
  IsOpen, nobody, everybody, set_watches, set_clients, other_fd, subscribe-Unwatching,
}
use omni_binder.Manager.Registering.{identity_of}
use omni_binder.Manager.Handled.{sent, replied}
use omni_binder.Manager.Hello.{
  open_session, store_session, supersede, send_ack, accept_hello, handle_runtime_hello,
  runtime_id_of,
}
use omni_binder.Manager.Watching.{
  read_watch_request, send_instances, send_initial_service_watch, send_initials,
  handle_subscribe_service_watch,
}

module _ (alloc : ℕ → Option (List ℕ)) (close : Manager → ℕ → Manager) (keeps : Keeps close) where
  told :
      (m : Manager) (fd watch_id : ℕ) (identity : ServiceIdentity) (online : Bool)
      → IsOpen m
      → IsOpen (send_watch_notify alloc close m fd watch_id identity online)
  unfolding send_watch_notify next_sequence
  told m fd watch_id identity online v =
      sent alloc close keeps (next_sequence m) fd
        (watch_message m.sequence watch_id identity online) v

  send_instances-IsOpen :
      (fd watch_id : ℕ) (f : WatchFilter) (infos : List ServiceInfo) (found : Bool) (m : Manager)
      → IsOpen m
      → IsOpen (send_instances alloc close fd watch_id f infos found m).1
  unfolding send_instances
  send_instances-IsOpen fd watch_id f [] found m v = v
  send_instances-IsOpen fd watch_id f (info ∷ infos) found m v =
      send_instances-IsOpen fd watch_id f infos (found || filter_matches f (identity_of info)) _
        (elim (Bool-cases (filter_matches f (identity_of info) && contains fd m.clients)) [
          | inl h ↦ rw h (told m fd watch_id (identity_of info) true v)
          | inr h ↦ rw h v
        ])

  send_initial-IsOpen :
      (fd watch_id : ℕ) (m : Manager) (f : WatchFilter)
      → IsOpen m
      → IsOpen (send_initial_service_watch alloc close fd watch_id m f)
  unfolding send_initial_service_watch
  send_initial-IsOpen fd watch_id m f v =
      let infos = list_service_instances m.registry f.service_name in
      let r = send_instances alloc close fd watch_id f infos false m in
      let w = send_instances-IsOpen fd watch_id f infos false m v in
      elim (Bool-cases (not r.0 && contains fd r.1.clients)) [
        | inl h ↦ rw (h, send_initial_service_watch) (told r.1 fd watch_id _ false w)
        | inr h ↦ rw (h, send_initial_service_watch) w
      ]

  send_initials-IsOpen :
      (fd watch_id : ℕ) (filters : List WatchFilter) (m : Manager)
      → IsOpen m
      → IsOpen (send_initials alloc close fd watch_id filters m)
  unfolding send_initials
  send_initials-IsOpen fd watch_id [] m v = v
  send_initials-IsOpen fd watch_id (f ∷ filters) m v =
      send_initials-IsOpen fd watch_id filters _ (elim (Bool-cases (contains fd m.clients)) [
        | inl h ↦ rw h (send_initial-IsOpen fd watch_id m f v)
        | inr h ↦ rw h v
      ])

  pub handle_subscribe_service_watch-IsOpen :
      (m : Manager) (fd seq : ℕ) (payload : List ℕ)
      → contains fd m.clients ≡ true
      → IsOpen m
      → IsOpen (handle_subscribe_service_watch alloc close m fd seq payload)
  unfolding handle_subscribe_service_watch
  handle_subscribe_service_watch-IsOpen m fd seq payload there v =
      elim (Option-cases (read_watch_request payload 0)) [
        | inl p ↦
            rw (p, handle_subscribe_service_watch)
              (replied alloc close keeps m fd 0x0028 seq false v)
        | inr (((watch_id, filters), next), p) ↦
            let r = subscribe m.watches fd watch_id filters in
            let m' : Manager = record m { watches = r.1 } in
            let w = replied alloc close keeps m' fd 0x0028 seq r.0 (
              set_watches m v r.1 (subscribe-IsWatched m.watches fd watch_id filters v.watches)
                (λ f g u.
                  subscribe-Unwatching m.watches fd watch_id filters f
                    (other_fd fd f m.clients there g) u)) in
            elim (Bool-cases r.0) [
              | inl h ↦
                  rw (p, h, handle_subscribe_service_watch)
                    (send_initials-IsOpen fd watch_id filters _ (rw h at w))
              | inr h ↦ rw (p, h, handle_subscribe_service_watch) (rw h at w)
            ]
      ]

module _ (d x i : ℕ) (alloc : ℕ → Option (List ℕ)) (close : Bool → Manager → ℕ → Manager)
    (keeps : (notify : Bool) → Keeps (λ m f. close notify m f)) where
  acknowledged :
      (m : Manager) (fd seq : ℕ) (ack : SessionHelloAck)
      → IsOpen m
      → IsOpen (send_ack d x i alloc close m fd seq ack)
  unfolding send_ack
  acknowledged m fd seq ack v = sent alloc (λ m' f. close true m' f) (keeps true) m fd _ v

  store_session-IsOpen :
      (info : RuntimeInfo) (key : Name) (m : Manager) (fd : ℕ)
      → IsOpen m
      → IsOpen (store_session d x i info key m fd)
  unfolding store_session
  store_session-IsOpen info key m fd v = elim (Option-cases (find fd m.clients)) [
    | inl h ↦ rw (h, store_session) v
    | inr (c, h) ↦
        rw (h, store_session)
          (set_clients m v (insert fd (open_session d x i info key c) m.clients)
            (λ f g. ground (arith, g, find-insert fd f (open_session d x i info key c) m.clients)))
  ]

  supersede-IsOpen :
      (info : RuntimeInfo) (key : Name) (m : Manager) (fd : ℕ)
      → IsOpen m
      → IsOpen (supersede d x i alloc close info key m fd)
  unfolding supersede
  supersede-IsOpen info key m fd v = elim (Option-cases (find key m.runtime_sessions)) [
    | inl h ↦ rw (h, supersede) v
    | inr (old, h) ↦ elim (Bool-cases (old == fd)) [
      | inl s ↦ rw (h, s, supersede) v
      | inr s ↦ elim (Option-cases (find old m.clients)) [
        | inl g ↦ rw (h, s, g, supersede) v
        | inr (c, g) ↦
            rw (h, s, g, supersede)
              (keeps (not (c.incarnation_id == info.incarnation_id)) nobody everybody m old v)
      ]
    ]
  ]

  accept_hello-IsOpen :
      (info : RuntimeInfo) (m : Manager) (fd seq : ℕ)
      → IsOpen m
      → IsOpen (accept_hello d x i alloc close info m fd seq)
  unfolding accept_hello
  accept_hello-IsOpen info m fd seq v =
      let key = make_runtime_session_key info.host_id (runtime_id_of info) in
      let m' = supersede d x i alloc close info key m fd in
      let w = supersede-IsOpen info key m fd v in
      elim (Bool-cases (contains fd m'.clients)) [
        | inr h ↦ rw (h, accept_hello) w
        | inl h ↦
            rw (h, accept_hello) (acknowledged _ fd seq _ (store_session-IsOpen info key m' fd w))
      ]

  pub handle_runtime_hello-IsOpen :
      (m : Manager) (fd seq : ℕ) (payload : List ℕ)
      → IsOpen m
      → IsOpen (handle_runtime_hello d x i alloc close m fd seq payload)
  unfolding handle_runtime_hello
  handle_runtime_hello-IsOpen m fd seq payload v =
      elim (Option-cases (deserialize_runtime_info payload 0)) [
        | inl p ↦ rw (p, handle_runtime_hello) (acknowledged m fd seq _ v)
        | inr ((info, next), p) ↦
            elim (Bool-cases (info.pid == 0 || not (info.session_version == 1))) [
              | inl h ↦ rw (p, h, handle_runtime_hello) (acknowledged m fd seq _ v)
              | inr h ↦
                  elim (Bool-cases (
                    ltb max_service_name_length (length (runtime_id_of info))
                    || ltb max_service_name_length (length info.host_id))) [
                      | inl g ↦ rw (p, h, g, handle_runtime_hello) (acknowledged m fd seq _ v)
                      | inr g ↦
                          rw (p, h, g, handle_runtime_hello) (accept_hello-IsOpen info m fd seq v)
                    ]
            ]
      ]
