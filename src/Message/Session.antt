-- ===== src/Message/Session.antt =====
-- serializeSessionHello, serializeSessionHelloAck and their readers: the first frames of a direct
-- connection.
use omni_binder.Prelude.{ℕ, ◌<◌, Bool, Option, some, List, [], ◌++◌, length, bytes32, u32_mod, ◌≡◌}
use omni_binder.OrderedMap.Keys.{Name}
use omni_binder.Buffer.{Buffer, write_uint32, write_bytes, ◌andthen◌}
use omni_binder.Buffer.Appends.{Appends, encode_bytes, put_uint32, put_bytes, write_uint32-Appends}
use omni_binder.Reader.{Reader, ◌>>=◌, done, read_uint32, read_bytes}
use omni_binder.Reader.Decodes.{Decodes, Decodes-done, get_uint32, get_bytes}

pub record SessionHello : Type 0 where
  pub version : ℕ
  pub runtime_id : Name
  pub incarnation_id : ℕ
  pub heartbeat_interval_ms : ℕ
  pub requested_timeout_ms : ℕ
  pub capabilities : ℕ
  pub host_id : Name
  pub process_name : Name
  pub pid : ℕ

pub record SessionHelloAck : Type 0 where
  pub version : ℕ
  pub status : ℕ
  pub accepted_interval_ms : ℕ
  pub effective_timeout_ms : ℕ
  pub peer_incarnation_id : ℕ

module _ (alloc : ℕ → Option (List ℕ)) where
  pub serialize_session_hello : SessionHello → Buffer → Bool × Buffer
  serialize_session_hello h = ◌andthen◌ alloc (write_uint32 alloc h.version) (
      ◌andthen◌ alloc (write_bytes alloc h.runtime_id) (
        ◌andthen◌ alloc (write_uint32 alloc h.incarnation_id) (
          ◌andthen◌ alloc (write_uint32 alloc h.heartbeat_interval_ms) (
            ◌andthen◌ alloc (write_uint32 alloc h.requested_timeout_ms) (
              ◌andthen◌ alloc (write_uint32 alloc h.capabilities) (
                ◌andthen◌ alloc (write_bytes alloc h.host_id) (
                  ◌andthen◌ alloc (write_bytes alloc h.process_name)
                    (write_uint32 alloc h.pid))))))))

  pub serialize_session_hello_ack : SessionHelloAck → Buffer → Bool × Buffer
  serialize_session_hello_ack a = ◌andthen◌ alloc (write_uint32 alloc a.version) (
      ◌andthen◌ alloc (write_uint32 alloc a.status) (
        ◌andthen◌ alloc (write_uint32 alloc a.accepted_interval_ms) (
          ◌andthen◌ alloc (write_uint32 alloc a.effective_timeout_ms)
            (write_uint32 alloc a.peer_incarnation_id))))

pub deserialize_session_hello : Reader SessionHello
deserialize_session_hello = do
  version ← read_uint32
  runtime_id ← read_bytes
  incarnation_id ← read_uint32
  heartbeat_interval_ms ← read_uint32
  requested_timeout_ms ← read_uint32
  capabilities ← read_uint32
  host_id ← read_bytes
  process_name ← read_bytes
  pid ← read_uint32
  done (record {
    version = version;
    runtime_id = runtime_id;
    incarnation_id = incarnation_id;
    heartbeat_interval_ms = heartbeat_interval_ms;
    requested_timeout_ms = requested_timeout_ms;
    capabilities = capabilities;
    host_id = host_id;
    process_name = process_name;
    pid = pid;
  })

pub deserialize_session_hello_ack : Reader SessionHelloAck
deserialize_session_hello_ack = do
  version ← read_uint32
  status ← read_uint32
  accepted_interval_ms ← read_uint32
  effective_timeout_ms ← read_uint32
  peer_incarnation_id ← read_uint32
  done (record {
    version = version;
    status = status;
    accepted_interval_ms = accepted_interval_ms;
    effective_timeout_ms = effective_timeout_ms;
    peer_incarnation_id = peer_incarnation_id;
  })

abbrev pub encode_hello : SessionHello → List ℕ
encode_hello h =
    bytes32 h.version
    ++ (encode_bytes h.runtime_id
        ++ (bytes32 h.incarnation_id
            ++ (bytes32 h.heartbeat_interval_ms
                ++ (bytes32 h.requested_timeout_ms
                    ++ (bytes32 h.capabilities
                        ++ (encode_bytes h.host_id
                            ++ (encode_bytes h.process_name ++ (bytes32 h.pid ++ []))))))))

abbrev pub encode_ack : SessionHelloAck → List ℕ
encode_ack a =
    bytes32 a.version
    ++ (bytes32 a.status
        ++ (bytes32 a.accepted_interval_ms
            ++ (bytes32 a.effective_timeout_ms ++ (bytes32 a.peer_incarnation_id ++ []))))

-- The fields fit their widths.
pub record IsHello (h : SessionHello) : Type 0 where
  pub version : h.version < u32_mod
  pub runtime_id : length h.runtime_id < u32_mod
  pub incarnation_id : h.incarnation_id < u32_mod
  pub heartbeat_interval_ms : h.heartbeat_interval_ms < u32_mod
  pub requested_timeout_ms : h.requested_timeout_ms < u32_mod
  pub capabilities : h.capabilities < u32_mod
  pub host_id : length h.host_id < u32_mod
  pub process_name : length h.process_name < u32_mod
  pub pid : h.pid < u32_mod

pub record IsAck (a : SessionHelloAck) : Type 0 where
  pub version : a.version < u32_mod
  pub status : a.status < u32_mod
  pub accepted_interval_ms : a.accepted_interval_ms < u32_mod
  pub effective_timeout_ms : a.effective_timeout_ms < u32_mod
  pub peer_incarnation_id : a.peer_incarnation_id < u32_mod

module _ (alloc : ℕ → Option (List ℕ))
    (alloc_size : (n : ℕ) (block : List ℕ) → alloc n ≡ some block → length block ≡ n) where
  -- For a hello whose fields fit their widths: a serialization that succeeds appends just its encoding,
  -- and wherever that encoding stands in a block it is read back as the same hello.
  pub session_hello_roundtrip :
      (h : SessionHello)
      → IsHello h
      → Appends (serialize_session_hello alloc h) (encode_hello h)
        × Decodes deserialize_session_hello (encode_hello h) h
  unfolding serialize_session_hello deserialize_session_hello
  session_hello_roundtrip h v = (
    put_uint32 alloc alloc_size h.version _ _ (
        put_bytes alloc alloc_size h.runtime_id _ _ (
          put_uint32 alloc alloc_size h.incarnation_id _ _ (
            put_uint32 alloc alloc_size h.heartbeat_interval_ms _ _ (
              put_uint32 alloc alloc_size h.requested_timeout_ms _ _ (
                put_uint32 alloc alloc_size h.capabilities _ _ (
                  put_bytes alloc alloc_size h.host_id _ _ (
                    put_bytes alloc alloc_size h.process_name _ _
                      (write_uint32-Appends alloc alloc_size h.pid)))))))),
    get_uint32 h.version _ _ v.version (
        get_bytes h.runtime_id _ _ v.runtime_id (
          get_uint32 h.incarnation_id _ _ v.incarnation_id (
            get_uint32 h.heartbeat_interval_ms _ _ v.heartbeat_interval_ms (
              get_uint32 h.requested_timeout_ms _ _ v.requested_timeout_ms (
                get_uint32 h.capabilities _ _ v.capabilities (
                  get_bytes h.host_id _ _ v.host_id (
                    get_bytes h.process_name _ _ v.process_name
                      (get_uint32 h.pid _ _ v.pid (Decodes-done h))))))))),
  )

  -- For an acknowledgement whose fields fit their widths: a serialization that succeeds appends just its
  -- encoding, and wherever that encoding stands in a block it is read back as the same one.
  pub session_ack_roundtrip :
      (a : SessionHelloAck)
      → IsAck a
      → Appends (serialize_session_hello_ack alloc a) (encode_ack a)
        × Decodes deserialize_session_hello_ack (encode_ack a) a
  unfolding serialize_session_hello_ack deserialize_session_hello_ack
  session_ack_roundtrip a v = (
    put_uint32 alloc alloc_size a.version _ _ (
        put_uint32 alloc alloc_size a.status _ _ (
          put_uint32 alloc alloc_size a.accepted_interval_ms _ _ (
            put_uint32 alloc alloc_size a.effective_timeout_ms _ _
              (write_uint32-Appends alloc alloc_size a.peer_incarnation_id)))),
    get_uint32 a.version _ _ v.version (
        get_uint32 a.status _ _ v.status (
          get_uint32 a.accepted_interval_ms _ _ v.accepted_interval_ms (
            get_uint32 a.effective_timeout_ms _ _ v.effective_timeout_ms
              (get_uint32 a.peer_incarnation_id _ _ v.peer_incarnation_id (Decodes-done a))))),
  )
