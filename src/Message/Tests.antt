-- ===== src/Message/Tests.antt =====
-- The codecs' theorems at small messages, with an allocator that always finds memory.
use omni_binder.Prelude.{
  ℕ, ◌+◌, ◌≤◌, ◌≡◌, refl, true, false, some, List, [], ◌∷◌, ◌++◌, arith, length,
}
use omni_binder.Memory.{slice, zeros, allocate, allocate_size}
use omni_binder.Types.{ServiceInfo, ServiceIdentity, max_published_topics}
use omni_binder.Buffer.Appends.{Appends}
use omni_binder.Buffer.{Buffer, remaining, written, assign, clear, reserve}
use omni_binder.Buffer.Growth.{IsValid}
use omni_binder.Message.Stream.{read_next, got, no_data, unread_bytes}
use omni_binder.Message.Stream.Buffered.{read_next-buffered, received_header}
use omni_binder.Reader.{read_uint8, read_uint32, read_bytes, can_read}
use omni_binder.OrderedMap.Keys.{Name}
use omni_binder.Reader.Decodes.{Decodes}
use omni_binder.Message.{
  Header, Message, omni_magic, header_size, serialize, try_extract_frame, complete,
}
use omni_binder.Message.Frames.{encode, encode_header, serialize-Appends, extract-encode_header}
use omni_binder.Message.Session.{
  SessionHello, SessionHelloAck, encode_hello, encode_ack, serialize_session_hello,
  deserialize_session_hello, serialize_session_hello_ack, deserialize_session_hello_ack,
  session_hello_roundtrip, session_ack_roundtrip,
}
use omni_binder.Message.Service.{
  serialize_service_info, deserialize_service_info, encode_service, service_info_roundtrip,
}
use omni_binder.Message.Runtime.{
  RuntimeInfo, serialize_runtime_info, deserialize_runtime_info, encode_runtime,
  runtime_info_roundtrip,
}
use omni_binder.Message.Topic.{
  write_service_identity, read_service_identity, is_identity, encode_identity,
  service_identity_roundtrip, deserialize_published_topics, read_found, read_topics, IsBounded,
  published_topics-IsBounded,
}

abbrev header : Header
header = record { magic = omni_magic; version = 1; type = 64; sequence = 7; length = 0 }

abbrev message : Message
message = record { header = header; payload = 1 ∷ 2 ∷ 3 ∷ [] }

serialize-Appends_example : Appends (serialize allocate message) (encode message)
serialize-Appends_example = serialize-Appends allocate allocate_size message

extract-encode_header_example :
    try_extract_frame (encode_header header 3 ++ 1 ∷ 2 ∷ 3 ∷ 9 ∷ [])
    ≡ complete (record header { length = 3 }) (header_size + 3)
extract-encode_header_example =
    extract-encode_header header 3 (1 ∷ 2 ∷ 3 ∷ 9 ∷ [])
      (record { magic = refl; version = omega arith; type = omega arith; sequence = omega arith })
      (omega arith)

abbrev hello : SessionHello
hello = record {
  version = 1;
  runtime_id = 114 ∷ [];
  incarnation_id = 2;
  heartbeat_interval_ms = 3000;
  requested_timeout_ms = 0;
  capabilities = 1;
  host_id = 104 ∷ [];
  process_name = 112 ∷ [];
  pid = 4321;
}

session_hello_roundtrip_example :
    Appends (serialize_session_hello allocate hello) (encode_hello hello)
    × Decodes deserialize_session_hello (encode_hello hello) hello
session_hello_roundtrip_example = session_hello_roundtrip allocate allocate_size hello (record {
  version = omega arith;
  runtime_id = omega arith;
  incarnation_id = omega arith;
  heartbeat_interval_ms = omega arith;
  requested_timeout_ms = omega arith;
  capabilities = omega arith;
  host_id = omega arith;
  process_name = omega arith;
  pid = omega arith;
})

abbrev ack : SessionHelloAck
ack = record {
  version = 1;
  status = 1;
  accepted_interval_ms = 3000;
  effective_timeout_ms = 10_000;
  peer_incarnation_id = 5;
}

session_ack_roundtrip_example :
    Appends (serialize_session_hello_ack allocate ack) (encode_ack ack)
    × Decodes deserialize_session_hello_ack (encode_ack ack) ack
session_ack_roundtrip_example = session_ack_roundtrip allocate allocate_size ack (record {
  version = omega arith;
  status = omega arith;
  accepted_interval_ms = omega arith;
  effective_timeout_ms = omega arith;
  peer_incarnation_id = omega arith;
})

abbrev service : ServiceInfo
service = record {
  name = 99 ∷ [];
  host = 108 ∷ [];
  port = 9901;
  host_id = 104 ∷ [];
  instance_id = 49 ∷ [];
  shm_config = record { req_ring_capacity = 4096; resp_ring_capacity = 8192 };
  interfaces =
      record {
        interface_id = 17;
        name = 73 ∷ [];
        methods =
            record {
              method_id = 3;
              idl_hash = 4;
              name = 109 ∷ [];
              param_types = [];
              return_type = 105 ∷ [];
            }
            ∷ [];
      }
      ∷ [];
}

service_info_roundtrip_example :
    Appends (serialize_service_info allocate service) (encode_service service)
    × Decodes deserialize_service_info (encode_service service) service
service_info_roundtrip_example = service_info_roundtrip allocate allocate_size service (record {
  name = omega arith;
  host = omega arith;
  port = omega arith;
  host_id = omega arith;
  instance_id = omega arith;
  req = omega arith;
  resp = omega arith;
  count = omega arith;
  interfaces = (
    record {
      interface_id = omega arith;
      name = omega arith;
      count = omega arith;
      methods = (
        record {
          method_id = omega arith;
          name = omega arith;
          param_types = omega arith;
          return_type = omega arith;
          idl_hash = omega arith;
        },
        tt,
      );
    },
    tt,
  );
})

abbrev runtime : RuntimeInfo
runtime = record {
  pid = 4321;
  process_name = 112 ∷ [];
  role = 99 ∷ [];
  log_level = 2;
  diag_capabilities = 1;
  services = (97 ∷ []) ∷ (98 ∷ []) ∷ [];
  session_version = 1;
  runtime_id = 114 ∷ [];
  incarnation_id = 2;
  heartbeat_interval_ms = 3000;
  requested_timeout_ms = 0;
  host_id = 104 ∷ [];
}

runtime_info_roundtrip_example :
    Appends (serialize_runtime_info allocate runtime) (encode_runtime runtime)
    × Decodes deserialize_runtime_info (encode_runtime runtime) runtime
runtime_info_roundtrip_example = runtime_info_roundtrip allocate allocate_size runtime (record {
  pid = omega arith;
  process_name = omega arith;
  role = omega arith;
  log_level = omega arith;
  diag_capabilities = omega arith;
  count = omega arith;
  services = (omega arith, (omega arith, tt));
  session_version = omega arith;
  runtime_id = omega arith;
  incarnation_id = omega arith;
  heartbeat_interval_ms = omega arith;
  requested_timeout_ms = omega arith;
  host_id = omega arith;
})

abbrev identity : ServiceIdentity
identity = record { name = 99 ∷ []; host_id = []; instance_id = 49 ∷ [] }

identity-good : is_identity identity ≡ true
unfolding is_identity
identity-good = refl

service_identity_roundtrip_example :
    Appends (write_service_identity allocate identity) (encode_identity identity)
    × (read_service_identity (0 ∷ encode_identity identity) 1
        ≡ some (identity, 1 + length (encode_identity identity)))
service_identity_roundtrip_example =
    service_identity_roundtrip allocate allocate_size identity (0 ∷ []) [] identity-good

abbrev topics : List Name
topics = (116 ∷ []) ∷ []

abbrev reply : List ℕ
reply = 1 ∷ 1 ∷ 0 ∷ 0 ∷ 0 ∷ 1 ∷ 0 ∷ 0 ∷ 0 ∷ 116 ∷ []

accepted : deserialize_published_topics reply 0 ≡ some ((true, topics), 10)
unfolding deserialize_published_topics read_found read_topics read_uint8 read_uint32 read_bytes
    can_read slice
accepted = refl

published_topics-IsBounded_example : (length topics ≤ max_published_topics) × IsBounded 0 topics
published_topics-IsBounded_example = published_topics-IsBounded reply 0 true topics 10 accepted

-- A buffer that holds the message and one byte more.
abbrev filled_buffer : Buffer
filled_buffer = record {
  storage = encode message ++ 9 ∷ [];
  write_pos = 20;
  read_pos = 0;
  failed = false;
}

unread_filled : unread_bytes filled_buffer ≡ encode message ++ 9 ∷ []
unfolding remaining slice
unread_filled = refl

abbrev spare : Buffer
spare = record { storage = zeros 8; write_pos = 0; read_pos = 0; failed = false }

memory : (assign allocate (clear spare) (1 ∷ 2 ∷ 3 ∷ [])).failed ≡ false
unfolding assign reserve clear
memory = refl

read_next-buffered_example :
    let o = read_next allocate (no_data ∷ []) header spare filled_buffer in
    (o.status ≡ got)
    × (o.header ≡ received_header message)
    × (written o.payload ≡ 1 ∷ 2 ∷ 3 ∷ [])
    × (unread_bytes o.buffer ≡ 9 ∷ [])
    × IsValid o.buffer
    × IsValid o.payload
read_next-buffered_example =
    read_next-buffered allocate allocate_size (no_data ∷ []) header spare filled_buffer message
      (9 ∷ []) (record { read_in = omega arith; write_in = omega arith; fits = omega arith })
      (record { read_in = omega arith; write_in = omega arith; fits = omega arith })
      (record { magic = refl; version = omega arith; type = omega arith; sequence = omega arith })
      (omega arith) unread_filled memory
