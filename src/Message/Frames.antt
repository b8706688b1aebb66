-- ===== src/Message/Frames.antt =====
-- Message::serialize and tryExtractFrame: the sent bytes and the frames that are taken from them.
use omni_binder.Prelude.{
  ℕ, ◌+◌, ◌-◌, ◌≤◌, ◌<◌, ◌≡◌, ap, ◌∙◌, Option, some, List, ◌++◌, append_assoc, arith, ltb,
  if◌then◌else◌, length, bytes16, bytes32, u16_mod, u32_mod, Bool-cases, inl, inr,
}
use omni_binder.Memory.{slice, slice-append}
use omni_binder.Buffer.{write_uint16, write_uint32, write_raw, ◌andthen◌}
use omni_binder.Buffer.Appends.{
  Wrote-refused, Appends, Appends-andthen, write_uint16-Appends, write_uint32-Appends,
  write_raw-Appends,
}
use omni_binder.Message.{
  Header, Message, omni_magic, header_size, max_message_size, serialize, parse_header,
  validate_header, need_more, complete, try_extract_frame,
}

-- The header as it stands on the wire, with the length of the payload.
abbrev pub encode_header : Header → ℕ → List ℕ
encode_header h size =
    bytes32 h.magic
    ++ (bytes16 h.version ++ (bytes16 h.type ++ (bytes32 h.sequence ++ bytes32 size)))

abbrev pub encode : Message → List ℕ
encode m = encode_header m.header (length m.payload) ++ m.payload

pub record IsHeader (h : Header) : Type 0 where
  pub magic : h.magic ≡ omni_magic
  pub version : h.version < u16_mod
  pub type : h.type < u16_mod
  pub sequence : h.sequence < u32_mod

module _ (alloc : ℕ → Option (List ℕ))
    (alloc_size : (n : ℕ) (block : List ℕ) → alloc n ≡ some block → length block ≡ n) where
  fields-Appends :
      (m : Message)
      → Appends
          (◌andthen◌ alloc (write_uint32 alloc m.header.magic) (
            ◌andthen◌ alloc (write_uint16 alloc m.header.version) (
              ◌andthen◌ alloc (write_uint16 alloc m.header.type) (
                ◌andthen◌ alloc (write_uint32 alloc m.header.sequence) (
                  ◌andthen◌ alloc
                    (write_uint32 alloc (length m.payload))
                    (write_raw alloc m.payload))))))
          (encode m)
  fields-Appends m =
      Appends-andthen alloc alloc_size _ _ (bytes32 h.magic) _
        (write_uint32-Appends alloc alloc_size h.magic)
        (Appends-andthen alloc alloc_size _ _ (bytes16 h.version) _
          (write_uint16-Appends alloc alloc_size h.version)
          (Appends-andthen alloc alloc_size _ _ (bytes16 h.type) _
            (write_uint16-Appends alloc alloc_size h.type)
            (Appends-andthen alloc alloc_size _ _ (bytes32 h.sequence) _
              (write_uint32-Appends alloc alloc_size h.sequence)
              (Appends-andthen alloc alloc_size _ _ (bytes32 (length m.payload)) m.payload
                (write_uint32-Appends alloc alloc_size (length m.payload))
                (write_raw-Appends alloc alloc_size m.payload)))))
    where
      open m use {header as h}

  -- serialize keeps a valid buffer valid and its read position, and where it answers true it has appended
  -- the header, with the payload's length in place of the header's own, and then the payload.
  pub serialize-Appends : (m : Message) → Appends (serialize alloc m) (encode m)
  unfolding serialize
  serialize-Appends m b v = elim (Bool-cases (ltb (u32_mod - 1) (length m.payload))) [
    | inl t ↦ rw (t, serialize) (Wrote-refused b (encode m) v)
    | inr t ↦ elim (Bool-cases (ltb (max_message_size - header_size) (length m.payload))) [
      | inl big ↦ rw (t, big, serialize) (Wrote-refused b (encode m) v)
      | inr fits ↦ rw (t, fits, serialize) (fields-Appends m b v)
    ]
  ]

-- For a header with the magic number whose fields fit their widths and a size within the limit: behind
-- the encoded header the frame is complete when all of the payload is there, and more is needed before.
-- What stands behind the payload does not matter.
pub extract-encode_header :
    (h : Header) (size : ℕ) (tail : List ℕ)
    → IsHeader h
    → size ≤ max_message_size - header_size
    → try_extract_frame (encode_header h size ++ tail) ≡ (
        if ltb (length tail) size
        then need_more
        else complete (record h { length = size }) (header_size + size))
unfolding try_extract_frame parse_header validate_header
extract-encode_header h size tail v small = ground arith

pub payload-encode :
    (m : Message) (rest : List ℕ)
    → slice (encode m ++ rest) header_size (length m.payload) ≡ m.payload
payload-encode m rest =
    ap (λ l. slice l header_size (length m.payload))
      (append_assoc (encode_header m.header (length m.payload)) m.payload rest)
    ∙ slice-append (encode_header m.header (length m.payload)) m.payload rest
