-- ===== src/Message/Service.antt =====
-- serializeServiceInfo, serializeInterfaceInfo and their readers: what a registration says.
use omni_binder.Prelude.{
  ℕ, ◌<◌, ◌≡◌, Bool, Option, some, List, [], ◌++◌, length, bytes16, bytes32, u16_mod, u32_mod,
}
use omni_binder.Types.{MethodInfo, InterfaceInfo, ServiceInfo}
use omni_binder.Buffer.{Buffer, write_uint16, write_uint32, write_bytes, ◌andthen◌}
use omni_binder.Buffer.Appends.{
  Appends, encode_bytes, put_uint16, put_uint32, put_bytes, write_uint32-Appends,
}
use omni_binder.Reader.{Reader, ◌>>=◌, done, read_uint16, read_uint32, read_bytes}
use omni_binder.Reader.Decodes.{Decodes, Decodes-done, last_read, get_uint16, get_uint32, get_bytes}
use omni_binder.Message.Items.{
  All, write_counted, read_counted, encode_counted, write_counted-Appends, read_counted-Decodes,
}

module _ (alloc : ℕ → Option (List ℕ)) where
  write_method : MethodInfo → Buffer → Bool × Buffer
  write_method m = ◌andthen◌ alloc (write_uint32 alloc m.method_id) (
      ◌andthen◌ alloc (write_bytes alloc m.name) (
        ◌andthen◌ alloc (write_bytes alloc m.param_types)
          (◌andthen◌ alloc (write_bytes alloc m.return_type) (write_uint32 alloc m.idl_hash))))

  pub serialize_interface_info : InterfaceInfo → Buffer → Bool × Buffer
  serialize_interface_info i =
      ◌andthen◌ alloc (write_uint32 alloc i.interface_id)
        (◌andthen◌ alloc (write_bytes alloc i.name) (write_counted alloc write_method i.methods))

  pub serialize_service_info : ServiceInfo → Buffer → Bool × Buffer
  serialize_service_info s = ◌andthen◌ alloc (write_bytes alloc s.name) (
      ◌andthen◌ alloc (write_bytes alloc s.host) (
        ◌andthen◌ alloc (write_uint16 alloc s.port) (
          ◌andthen◌ alloc (write_bytes alloc s.host_id) (
            ◌andthen◌ alloc (write_bytes alloc s.instance_id) (
              ◌andthen◌ alloc (write_uint32 alloc s.shm_config.req_ring_capacity) (
                ◌andthen◌ alloc (write_uint32 alloc s.shm_config.resp_ring_capacity)
                  (write_counted alloc serialize_interface_info s.interfaces)))))))

read_method : Reader MethodInfo
read_method = do
  method_id ← read_uint32
  name ← read_bytes
  param_types ← read_bytes
  return_type ← read_bytes
  idl_hash ← read_uint32
  done (record {
    method_id = method_id;
    idl_hash = idl_hash;
    name = name;
    param_types = param_types;
    return_type = return_type;
  })

pub deserialize_interface_info : Reader InterfaceInfo
deserialize_interface_info = do
  interface_id ← read_uint32
  name ← read_bytes
  methods ← read_counted read_method
  done (record { interface_id = interface_id; name = name; methods = methods })

pub deserialize_service_info : Reader ServiceInfo
deserialize_service_info = do
  name ← read_bytes
  host ← read_bytes
  port ← read_uint16
  host_id ← read_bytes
  instance_id ← read_bytes
  req ← read_uint32
  resp ← read_uint32
  interfaces ← read_counted deserialize_interface_info
  done (record {
    name = name;
    host = host;
    port = port;
    host_id = host_id;
    instance_id = instance_id;
    shm_config = record { req_ring_capacity = req; resp_ring_capacity = resp };
    interfaces = interfaces;
  })

abbrev pub encode_method : MethodInfo → List ℕ
encode_method m =
    bytes32 m.method_id
    ++ (encode_bytes m.name
        ++ (encode_bytes m.param_types
            ++ (encode_bytes m.return_type ++ (bytes32 m.idl_hash ++ []))))

abbrev pub encode_interface : InterfaceInfo → List ℕ
encode_interface i =
    bytes32 i.interface_id ++ (encode_bytes i.name ++ encode_counted encode_method i.methods)

abbrev pub encode_service : ServiceInfo → List ℕ
encode_service s =
    encode_bytes s.name
    ++ (encode_bytes s.host
        ++ (bytes16 s.port
            ++ (encode_bytes s.host_id
                ++ (encode_bytes s.instance_id
                    ++ (bytes32 s.shm_config.req_ring_capacity
                        ++ (bytes32 s.shm_config.resp_ring_capacity
                            ++ encode_counted encode_interface s.interfaces))))))

pub record IsMethod (m : MethodInfo) : Type 0 where
  pub method_id : m.method_id < u32_mod
  pub name : length m.name < u32_mod
  pub param_types : length m.param_types < u32_mod
  pub return_type : length m.return_type < u32_mod
  pub idl_hash : m.idl_hash < u32_mod

pub record IsInterface (i : InterfaceInfo) : Type 0 where
  pub interface_id : i.interface_id < u32_mod
  pub name : length i.name < u32_mod
  pub count : length i.methods < u16_mod
  pub methods : All IsMethod i.methods

pub record IsService (s : ServiceInfo) : Type 0 where
  pub name : length s.name < u32_mod
  pub host : length s.host < u32_mod
  pub port : s.port < u16_mod
  pub host_id : length s.host_id < u32_mod
  pub instance_id : length s.instance_id < u32_mod
  pub req : s.shm_config.req_ring_capacity < u32_mod
  pub resp : s.shm_config.resp_ring_capacity < u32_mod
  pub count : length s.interfaces < u16_mod
  pub interfaces : All IsInterface s.interfaces

method-Decodes : (m : MethodInfo) → IsMethod m → Decodes read_method (encode_method m) m
unfolding read_method
method-Decodes m v = get_uint32 m.method_id _ _ v.method_id (
    get_bytes m.name _ _ v.name (
      get_bytes m.param_types _ _ v.param_types (
        get_bytes m.return_type _ _ v.return_type
          (get_uint32 m.idl_hash _ _ v.idl_hash (Decodes-done m)))))

interface-Decodes :
    (i : InterfaceInfo) → IsInterface i → Decodes deserialize_interface_info (encode_interface i) i
unfolding deserialize_interface_info
interface-Decodes i v = get_uint32 i.interface_id _ _ v.interface_id (
    get_bytes i.name _ _ v.name (
      last_read (read_counted read_method) (λ methods. done (record i { methods = methods }))
        (encode_counted encode_method i.methods) i.methods i
        (read_counted-Decodes read_method encode_method IsMethod method-Decodes i.methods v.count
          v.methods)
        (Decodes-done i)))

module _ (alloc : ℕ → Option (List ℕ))
    (alloc_size : (n : ℕ) (block : List ℕ) → alloc n ≡ some block → length block ≡ n) where
  method-Appends : (m : MethodInfo) → Appends (write_method alloc m) (encode_method m)
  unfolding write_method
  method-Appends m = put_uint32 alloc alloc_size m.method_id _ _ (
      put_bytes alloc alloc_size m.name _ _ (
        put_bytes alloc alloc_size m.param_types _ _ (
          put_bytes alloc alloc_size m.return_type _ _
            (write_uint32-Appends alloc alloc_size m.idl_hash))))

  interface-Appends :
      (i : InterfaceInfo) → Appends (serialize_interface_info alloc i) (encode_interface i)
  unfolding serialize_interface_info
  interface-Appends i = put_uint32 alloc alloc_size i.interface_id _ _ (
      put_bytes alloc alloc_size i.name _ _ (
        write_counted-Appends alloc alloc_size (write_method alloc) encode_method method-Appends
          i.methods))

  -- For a service whose fields, interfaces and methods fit their widths: a serialization that succeeds
  -- appends just its encoding, and wherever that encoding stands in a block it is read back as the same
  -- service, with its interfaces and their methods.
  pub service_info_roundtrip :
      (s : ServiceInfo)
      → IsService s
      → Appends (serialize_service_info alloc s) (encode_service s)
        × Decodes deserialize_service_info (encode_service s) s
  unfolding serialize_service_info deserialize_service_info
  service_info_roundtrip s v = (
    put_bytes alloc alloc_size s.name _ _ (
        put_bytes alloc alloc_size s.host _ _ (
          put_uint16 alloc alloc_size s.port _ _ (
            put_bytes alloc alloc_size s.host_id _ _ (
              put_bytes alloc alloc_size s.instance_id _ _ (
                put_uint32 alloc alloc_size s.shm_config.req_ring_capacity _ _ (
                  put_uint32 alloc alloc_size s.shm_config.resp_ring_capacity _ _ (
                    write_counted-Appends alloc alloc_size (serialize_interface_info alloc)
                      encode_interface interface-Appends s.interfaces))))))),
    get_bytes s.name _ _ v.name (
        get_bytes s.host _ _ v.host (
          get_uint16 s.port _ _ v.port (
            get_bytes s.host_id _ _ v.host_id (
              get_bytes s.instance_id _ _ v.instance_id (
                get_uint32 s.shm_config.req_ring_capacity _ _ v.req (
                  get_uint32 s.shm_config.resp_ring_capacity _ _ v.resp (
                    last_read (read_counted deserialize_interface_info)
                      (λ interfaces. done (record s { interfaces = interfaces }))
                      (encode_counted encode_interface s.interfaces) s.interfaces s
                      (read_counted-Decodes deserialize_interface_info encode_interface IsInterface
                        interface-Decodes s.interfaces v.count v.interfaces)
                      (Decodes-done s)))))))),
  )
