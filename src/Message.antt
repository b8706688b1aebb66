-- ===== src/Message.antt =====
-- include/omnibinder/message.h and src/core/message.cpp: messages, their 16-byte header and the
-- frames of a byte stream. The payloads are in the modules below.
pub mod Frames
pub mod Items
pub mod Session
pub mod Service
mod Tests
pub mod InPlace
pub mod Stream
pub mod Topic
pub mod Runtime
use omni_binder.Prelude.{
  ℕ, ◌+◌, ◌-◌, Bool, true, false, ◌&&◌, not, Option, none, some, List, [], ◌∷◌, ltb, ◌==◌,
  if◌then◌else◌, length, get_or, word16, u32_mod,
}
use omni_binder.Buffer.{Buffer, write_uint16, write_uint32, write_raw, ◌andthen◌}
use omni_binder.Reader.{word_at}

pub record Header : Type 0 where
  pub magic : ℕ
  pub version : ℕ
  pub type : ℕ
  pub sequence : ℕ
  pub length : ℕ

pub record Message : Type 0 where
  pub header : Header
  pub payload : List ℕ

-- "BIND"
abbrev pub omni_magic : ℕ
omni_magic = 0x42494E44

abbrev pub omni_version : ℕ
omni_version = 1

abbrev pub header_size : ℕ
header_size = 16

-- MAX_MESSAGE_SIZE, of include/omnibinder/types.h.
abbrev pub max_message_size : ℕ
max_message_size = 16_777_216

-- Message()
abbrev pub fresh_message : Message
fresh_message = record {
  header = record {
    magic = omni_magic;
    version = omni_version;
    type = 0;
    sequence = 0;
    length = 0;
  };
  payload = [];
}

-- Message::serialize
pub serialize : (ℕ → Option (List ℕ)) → Message → Buffer → Bool × Buffer
serialize alloc m output =
    if ltb (u32_mod - 1) size
    then (false, output)
    else if ltb (max_message_size - header_size) size
    then (false, output)
    else ◌andthen◌ alloc (write_uint32 alloc m.header.magic)
        (◌andthen◌ alloc (write_uint16 alloc m.header.version) (
          ◌andthen◌ alloc (write_uint16 alloc m.header.type) (
            ◌andthen◌ alloc (write_uint32 alloc m.header.sequence)
              (◌andthen◌ alloc (write_uint32 alloc size) (write_raw alloc m.payload)))))
        output
  where
    size : ℕ
    size = length m.payload

-- Message::parseHeader
pub parse_header : List ℕ → Option Header
parse_header block =
    if ltb (length block) header_size
    then none
    else some (record {
      magic = word_at block 0;
      version = word16 (get_or block 4 0 ∷ get_or block 5 0 ∷ []);
      type = word16 (get_or block 6 0 ∷ get_or block 7 0 ∷ []);
      sequence = word_at block 8;
      length = word_at block 12;
    })

-- Message::validateHeader
pub validate_header : Header → Bool
validate_header h = h.magic == omni_magic && not (ltb (max_message_size - header_size) h.length)

pub data FrameStatus : Type 0 where
  need_more corrupt : FrameStatus
  complete : Header → ℕ → FrameStatus

-- tryExtractFrame, at the bytes that are there.
pub try_extract_frame : List ℕ → FrameStatus
try_extract_frame block =
    if ltb (length block) header_size then need_more else elim (parse_header block) [
      | none ↦ need_more
      | some header ↦
          if not (validate_header header)
          then corrupt
          else if ltb (length block) (header_size + header.length)
          then need_more
          else complete header (header_size + header.length)
    ]
