-- ===== src/Types.antt =====
-- include/omnibinder/types.h: what is said of a service, its limits and the keys made from it.
use omni_binder.Prelude.{ℕ, List, ◌∷◌, ◌++◌, ◌==◌, if◌then◌else◌, length}
use omni_binder.OrderedMap.Keys.{Name}

pub record MethodInfo : Type 0 where
  pub method_id : ℕ
  pub idl_hash : ℕ
  pub name : Name
  pub param_types : Name
  pub return_type : Name

pub record InterfaceInfo : Type 0 where
  pub interface_id : ℕ
  pub name : Name
  pub methods : List MethodInfo

pub record ShmConfig : Type 0 where
  pub req_ring_capacity : ℕ
  pub resp_ring_capacity : ℕ

pub record ServiceInfo : Type 0 where
  pub name : Name
  pub host : Name
  pub port : ℕ
  pub host_id : Name
  pub instance_id : Name
  pub shm_config : ShmConfig
  pub interfaces : List InterfaceInfo

pub record ServiceIdentity : Type 0 where
  pub name : Name
  pub host_id : Name
  pub instance_id : Name

abbrev pub max_service_name_length : ℕ
max_service_name_length = 256

abbrev pub max_topic_name_length : ℕ
max_topic_name_length = 256

abbrev pub max_published_topics : ℕ
max_published_topics = 4096

abbrev pub max_published_topics_bytes : ℕ
max_published_topics_bytes = 524_288

-- makeServiceInstanceKey, of src/core/runtime_connection.cpp: the instance alone, not its host.
abbrev pub instance_key : Name → Name
instance_key instance_id = instance_id

-- makeServiceConnectionKey: the name alone for the default instance, otherwise the name, the byte 0x1f
-- and the instance.
pub connection_key : Name → Name → Name
connection_key name instance_id =
    if length instance_id == 0 then name else name ++ 31 ∷ instance_key instance_id
