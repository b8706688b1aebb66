-- ===== src/Manager/Hello.antt =====
-- sm_diag.cpp, handleRuntimeHello: the session of a control connection.
use omni_binder.Prelude.{
  ℕ, Bool, true, false, ◌&&◌, ◌||◌, not, Option, none, some, List, [], ◌∷◌, ◌++◌, ltb, ◌==◌,
  if◌then◌else◌, length,
}
use omni_binder.OrderedMap.{Map, find, contains, insert}
use omni_binder.OrderedMap.Keys.{Name, number_key, name_key}
use omni_binder.OrderedMap.Nested.{or_empty}
use omni_binder.Types.{max_service_name_length}
use omni_binder.Session.{
  clamp_heartbeat_interval, negotiate_session_timeout, make_runtime_session_key,
}
use omni_binder.Message.Session.{SessionHelloAck, encode_ack}
use omni_binder.Message.Runtime.{RuntimeInfo, deserialize_runtime_info}
use omni_binder.Topics.{is_empty, decimal}
use omni_binder.Manager.{Client, Manager, new_message, send_message}
use omni_binder.Manager.Ending.{remove_pid_fd}

unfoldable pub has_fd_in : ℕ → List ℕ → Bool
has_fd_in fd [] = false
has_fd_in fd (f ∷ fds) = f == fd || has_fd_in fd fds

-- pid_to_fds_[pid] with the connection.
unfoldable pub add_pid_fd : ℕ → ℕ → Map ℕ (List ℕ) → Map ℕ (List ℕ)
add_pid_fd pid fd m =
    let fds = or_empty (find pid m) in
    insert pid (if has_fd_in fd fds then fds else fds ++ fd ∷ []) m

-- "runtime-" and the number of the process.
unfoldable pub runtime_id_of : RuntimeInfo → Name
runtime_id_of info =
    if not (is_empty info.runtime_id)
    then info.runtime_id
    else if not (is_empty info.process_name)
    then info.process_name
    else 114 ∷ 117 ∷ 110 ∷ 116 ∷ 105 ∷ 109 ∷ 101 ∷ 45 ∷ decimal info.pid

-- The settings of the service manager: default_session_timeout_ms_, max_session_timeout_ms_ and
-- sm_incarnation_id_.
module _ (default_timeout max_timeout sm_incarnation : ℕ) where
  unfoldable pub session_timeout : ℕ → ℕ → ℕ
  session_timeout interval requested =
      let limited =
        if not (max_timeout == 0) && ltb max_timeout default_timeout
        then max_timeout
        else default_timeout in
      if not (requested == 0)
      then negotiate_session_timeout interval requested max_timeout
      else if limited == 0
      then negotiate_session_timeout interval 0 max_timeout
      else limited

  unfoldable pub rejection : SessionHelloAck
  rejection = record {
    version = 1;
    status = 2;
    accepted_interval_ms = 3000;
    effective_timeout_ms = 10_000;
    peer_incarnation_id = sm_incarnation;
  }

  unfoldable pub acceptance : RuntimeInfo → SessionHelloAck
  acceptance info =
      let interval = clamp_heartbeat_interval info.heartbeat_interval_ms in
      let timeout = session_timeout interval info.requested_timeout_ms in
      record {
        version = 1;
        status =
            if interval == info.heartbeat_interval_ms
              && (info.requested_timeout_ms == 0 || timeout == info.requested_timeout_ms)
            then 0
            else 1;
        accepted_interval_ms = interval;
        effective_timeout_ms = timeout;
        peer_incarnation_id = sm_incarnation;
      }

  -- The connection's part of a session.
  unfoldable pub open_session : RuntimeInfo → Name → Client → Client
  open_session info key c = record c {
    pid = info.pid;
    process_name = info.process_name;
    log_level = info.log_level;
    runtime_registered = true;
    runtime_id = runtime_id_of info;
    host_id = info.host_id;
    session_key = key;
    incarnation_id = info.incarnation_id;
    session_interval_ms = (acceptance info).accepted_interval_ms;
    session_timeout_ms = (acceptance info).effective_timeout_ms;
    hello_received = true;
  }

  -- The session in the tables.
  unfoldable pub store_session : RuntimeInfo → Name → Manager → ℕ → Manager
  store_session info key m fd = elim (find fd m.clients) [
    | none ↦ m
    | some c ↦
        let fds =
          if c.runtime_registered && not (c.pid == info.pid)
          then remove_pid_fd c.pid fd m.pid_to_fds
          else m.pid_to_fds in
        record m {
          runtime_sessions = insert key fd m.runtime_sessions;
          clients = insert fd (open_session info key c) m.clients;
          pid_to_fds = add_pid_fd info.pid fd fds;
        }
  ]

  -- `close` is closeClient, told whether it notifies.
  module _ (alloc : ℕ → Option (List ℕ)) (close : Bool → Manager → ℕ → Manager) where
    abbrev closing : Manager → ℕ → Manager
    closing m fd = close true m fd

    -- The older session of the same runtime makes way.
    unfoldable pub supersede : RuntimeInfo → Name → Manager → ℕ → Manager
    supersede info key m fd = elim (find key m.runtime_sessions) [
      | none ↦ m
      | some old_fd ↦ if old_fd == fd then m else elim (find old_fd m.clients) [
        | none ↦ m
        | some c ↦ close (not (c.incarnation_id == info.incarnation_id)) m old_fd
      ]
    ]

    unfoldable pub send_ack : Manager → ℕ → ℕ → SessionHelloAck → Manager
    send_ack m fd seq ack =
        send_message alloc closing m fd (new_message 0x0041 seq (encode_ack ack))

    unfoldable pub accept_hello : RuntimeInfo → Manager → ℕ → ℕ → Manager
    accept_hello info m fd seq =
        let key = make_runtime_session_key info.host_id (runtime_id_of info) in
        let m' = supersede info key m fd in
        if not (contains fd m'.clients)
        then m'
        else send_ack (store_session info key m' fd) fd seq (acceptance info)

    unfoldable pub handle_runtime_hello : Manager → ℕ → ℕ → List ℕ → Manager
    handle_runtime_hello m fd seq payload = elim (deserialize_runtime_info payload 0) [
      | none ↦ send_ack m fd seq rejection
      | some (info, next) ↦
          if info.pid == 0 || not (info.session_version == 1)
          then send_ack m fd seq rejection
          else if ltb max_service_name_length (length (runtime_id_of info))
              || ltb max_service_name_length (length info.host_id)
          then send_ack m fd seq rejection
          else accept_hello info m fd seq
    ]
