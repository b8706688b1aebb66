-- ===== src/Message/Runtime.antt =====
-- serializeRuntimeInfo and deserializeRuntimeInfo: what a runtime says of itself on its control
-- connection.
use omni_binder.Prelude.{
  ℕ, ◌<◌, Bool, Option, some, List, ◌++◌, length, bytes32, u16_mod, u32_mod, ◌≡◌,
}
use omni_binder.OrderedMap.Keys.{Name}
use omni_binder.Buffer.{Buffer, write_uint32, write_bytes, ◌andthen◌}
use omni_binder.Buffer.Appends.{
  Appends, encode_bytes, put_uint32, put_bytes, write_bytes-Appends, Appends-andthen,
}
use omni_binder.Reader.{Reader, ◌>>=◌, done, read_uint32, read_bytes}
use omni_binder.Reader.Decodes.{
  Decodes, Decodes-done, Decodes-bind, get_uint32, get_bytes, last_read, Decodes-bytes,
}
use omni_binder.Message.Items.{
  All, write_counted, read_counted, encode_counted, write_counted-Appends, read_counted-Decodes,
}

pub record RuntimeInfo : Type 0 where
  pub pid : ℕ
  pub process_name : Name
  pub role : Name
  pub log_level : ℕ
  pub diag_capabilities : ℕ
  pub services : List Name
  pub session_version : ℕ
  pub runtime_id : Name
  pub incarnation_id : ℕ
  pub heartbeat_interval_ms : ℕ
  pub requested_timeout_ms : ℕ
  pub host_id : Name

module _ (alloc : ℕ → Option (List ℕ)) where
  pub serialize_runtime_info : RuntimeInfo → Buffer → Bool × Buffer
  serialize_runtime_info i = ◌andthen◌ alloc (write_uint32 alloc i.pid) (
      ◌andthen◌ alloc (write_bytes alloc i.process_name) (
        ◌andthen◌ alloc (write_bytes alloc i.role) (
          ◌andthen◌ alloc (write_uint32 alloc i.log_level) (
            ◌andthen◌ alloc (write_uint32 alloc i.diag_capabilities) (
              ◌andthen◌ alloc (write_counted alloc (write_bytes alloc) i.services) (
                ◌andthen◌ alloc (write_uint32 alloc i.session_version) (
                  ◌andthen◌ alloc (write_bytes alloc i.runtime_id) (
                    ◌andthen◌ alloc (write_uint32 alloc i.incarnation_id) (
                      ◌andthen◌ alloc (write_uint32 alloc i.heartbeat_interval_ms) (
                        ◌andthen◌ alloc (write_uint32 alloc i.requested_timeout_ms)
                          (write_bytes alloc i.host_id)))))))))))

pub deserialize_runtime_info : Reader RuntimeInfo
deserialize_runtime_info = do
  pid ← read_uint32
  process_name ← read_bytes
  role ← read_bytes
  log_level ← read_uint32
  diag_capabilities ← read_uint32
  services ← read_counted read_bytes
  session_version ← read_uint32
  runtime_id ← read_bytes
  incarnation_id ← read_uint32
  heartbeat_interval_ms ← read_uint32
  requested_timeout_ms ← read_uint32
  host_id ← read_bytes
  done (record {
    pid = pid;
    process_name = process_name;
    role = role;
    log_level = log_level;
    diag_capabilities = diag_capabilities;
    services = services;
    session_version = session_version;
    runtime_id = runtime_id;
    incarnation_id = incarnation_id;
    heartbeat_interval_ms = heartbeat_interval_ms;
    requested_timeout_ms = requested_timeout_ms;
    host_id = host_id;
  })

abbrev pub encode_runtime : RuntimeInfo → List ℕ
encode_runtime i =
    bytes32 i.pid
    ++ (encode_bytes i.process_name
        ++ (encode_bytes i.role
            ++ (bytes32 i.log_level
                ++ (bytes32 i.diag_capabilities
                    ++ (encode_counted encode_bytes i.services
                        ++ (bytes32 i.session_version
                            ++ (encode_bytes i.runtime_id
                                ++ (bytes32 i.incarnation_id
                                    ++ (bytes32 i.heartbeat_interval_ms
                                        ++ (bytes32 i.requested_timeout_ms
                                            ++ encode_bytes i.host_id))))))))))

-- The fields fit their widths.
pub record IsRuntime (i : RuntimeInfo) : Type 0 where
  pub pid : i.pid < u32_mod
  pub process_name : length i.process_name < u32_mod
  pub role : length i.role < u32_mod
  pub log_level : i.log_level < u32_mod
  pub diag_capabilities : i.diag_capabilities < u32_mod
  pub count : length i.services < u16_mod
  pub services : All (λ s. length s < u32_mod) i.services
  pub session_version : i.session_version < u32_mod
  pub runtime_id : length i.runtime_id < u32_mod
  pub incarnation_id : i.incarnation_id < u32_mod
  pub heartbeat_interval_ms : i.heartbeat_interval_ms < u32_mod
  pub requested_timeout_ms : i.requested_timeout_ms < u32_mod
  pub host_id : length i.host_id < u32_mod

module _ (alloc : ℕ → Option (List ℕ))
    (alloc_size : (n : ℕ) (block : List ℕ) → alloc n ≡ some block → length block ≡ n) where
  -- For a runtime's information whose fields fit their widths: a serialization that succeeds appends just
  -- its encoding, and wherever that encoding stands in a block it is read back as the same information.
  pub runtime_info_roundtrip :
      (i : RuntimeInfo)
      → IsRuntime i
      → Appends (serialize_runtime_info alloc i) (encode_runtime i)
        × Decodes deserialize_runtime_info (encode_runtime i) i
  unfolding serialize_runtime_info deserialize_runtime_info
  runtime_info_roundtrip i v = (
    put_uint32 alloc alloc_size i.pid _ _ (
        put_bytes alloc alloc_size i.process_name _ _ (
          put_bytes alloc alloc_size i.role _ _ (
            put_uint32 alloc alloc_size i.log_level _ _ (
              put_uint32 alloc alloc_size i.diag_capabilities _ _ (
                Appends-andthen alloc alloc_size _ _ (encode_counted encode_bytes i.services) _
                  (write_counted-Appends alloc alloc_size (write_bytes alloc) encode_bytes
                    (write_bytes-Appends alloc alloc_size) i.services)
                  (put_uint32 alloc alloc_size i.session_version _ _ (
                    put_bytes alloc alloc_size i.runtime_id _ _ (
                      put_uint32 alloc alloc_size i.incarnation_id _ _ (
                        put_uint32 alloc alloc_size i.heartbeat_interval_ms _ _ (
                          put_uint32 alloc alloc_size i.requested_timeout_ms _ _
                            (write_bytes-Appends alloc alloc_size i.host_id))))))))))),
    get_uint32 i.pid _ _ v.pid (
        get_bytes i.process_name _ _ v.process_name (
          get_bytes i.role _ _ v.role (
            get_uint32 i.log_level _ _ v.log_level (
              get_uint32 i.diag_capabilities _ _ v.diag_capabilities (
                Decodes-bind (read_counted read_bytes) _ (encode_counted encode_bytes i.services) _
                  i.services i
                  (read_counted-Decodes read_bytes encode_bytes (λ s. length s < u32_mod)
                    Decodes-bytes i.services v.count v.services)
                  (get_uint32 i.session_version _ _ v.session_version (
                    get_bytes i.runtime_id _ _ v.runtime_id (
                      get_uint32 i.incarnation_id _ _ v.incarnation_id (
                        get_uint32 i.heartbeat_interval_ms _ _ v.heartbeat_interval_ms (
                          get_uint32 i.requested_timeout_ms _ _ v.requested_timeout_ms (
                            last_read read_bytes _ (encode_bytes i.host_id) i.host_id i
                              (Decodes-bytes i.host_id v.host_id) (Decodes-done i)))))))))))),
  )
