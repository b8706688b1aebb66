-- ===== src/Message/InPlace.antt =====
-- Message::serializeInPlace: the header is put before the payload inside of the payload's own buffer.
use omni_binder.Prelude.{
  ℕ, ◌+◌, ◌-◌, Bool, true, false, Option, List, ◌++◌, ltb, if◌then◌else◌, bytes16, bytes32, u32_mod,
}
use omni_binder.Memory.{copy}
use omni_binder.Buffer.{Buffer, capacity, written, reserve, set_write_position}
use omni_binder.Message.{Header, header_size, max_message_size}

-- The bytes of the header, with the payload's length.
header_bytes : Header → ℕ → List ℕ
header_bytes h len =
    bytes32 h.magic
    ++ (bytes16 h.version ++ (bytes16 h.type ++ (bytes32 h.sequence ++ bytes32 len)))

pub serialize_in_place : (ℕ → Option (List ℕ)) → Header → Buffer → Bool × Buffer
serialize_in_place alloc header payload =
    let len = payload.write_pos in
    let b = reserve alloc payload (header_size + len) in
    let shifted = copy b.storage header_size (written b) in
    if ltb (u32_mod - 1) len
    then (false, payload)
    else if ltb (max_message_size - header_size) len
    then (false, payload)
    else if ltb (capacity b) (header_size + len)
    then (false, b)
    else (
      true,
      set_write_position alloc (record b { storage = copy shifted 0 (header_bytes header len) })
          (header_size + len),
    )
