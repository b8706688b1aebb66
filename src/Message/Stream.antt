-- ===== src/Message/Stream.antt =====
-- src/core/message_reader.cpp, readNextMessage on a stream: frames that are buffered are taken first,
-- and more bytes are received as long as there is none. The transport is the list of its answers to
-- recv, one per call; an answer with more bytes than there was room for is taken as a failure. The
-- framed transport is left out.
pub mod Buffered
use omni_binder.Prelude.{
  ℕ, ◌+◌, not, Option, none, some, List, [], ◌∷◌, ltb, ◌==◌, if◌then◌else◌, length,
}
use omni_binder.Memory.{copy, slice}
use omni_binder.Buffer.{
  Buffer, remaining, clear, assign, set_read_position, compact, writable_tail, commit_written,
}
use omni_binder.Message.{
  Header, header_size, max_message_size, FrameStatus, need_more, corrupt, complete,
  try_extract_frame,
}

pub data Answer : Type 0 where
  arrived : List ℕ → Answer
  no_data broken : Answer

-- 1, 0 and -1.
pub data Status : Type 0 where
  got later failed : Status

pub record Outcome : Type 0 where
  pub status : Status
  pub header : Header
  pub payload : Buffer
  pub buffer : Buffer

-- The bytes that are not yet read.
abbrev pub unread_bytes : Buffer → List ℕ
unread_bytes b = slice b.storage b.read_pos (remaining b)

pub next_frame : Buffer → FrameStatus
next_frame b = if remaining b == 0 then need_more else try_extract_frame (unread_bytes b)

abbrev pub stop : Status → Header → Buffer → Buffer → Outcome
stop status header payload b = record {
  status = status;
  header = header;
  payload = payload;
  buffer = b;
}

pub data Taken : Type 0 where
  more : Buffer → Taken
  stopped : Status → Buffer → Taken

module _ (alloc : ℕ → Option (List ℕ)) where
  -- out.payload, of a frame whose payload has `size` bytes.
  taken_payload : Buffer → Buffer → ℕ → Buffer
  taken_payload b payload size =
      if size == 0
      then clear payload
      else assign alloc (clear payload) (slice (unread_bytes b) header_size size)

  pub deliver : Buffer → Buffer → Header → ℕ → Outcome
  deliver b payload header frame_size =
      let payload = taken_payload b payload header.length in
      let (moved, b') = set_read_position b (b.read_pos + frame_size) in
      if payload.failed
      then stop failed header payload b
      else if not moved
      then stop failed header payload b'
      else stop got header payload (compact b')

  -- The bytes that recv put at the tail.
  receive : Buffer → ℕ → Answer → Taken
  receive b space no_data = stopped later b
  receive b space broken = stopped failed b
  receive b space (arrived bytes) =
      let b' = record b { storage = copy b.storage b.write_pos bytes } in
      let (kept, b'') = commit_written b' (length bytes) in
      if length bytes == 0
      then stopped later b
      else if ltb space (length bytes)
      then stopped failed b
      else if ltb max_message_size (remaining b' + length bytes)
      then stopped failed b'
      else if not kept
      then stopped failed b''
      else more b''

  pub take_in : Buffer → Answer → Taken
  take_in b answer =
      let (space, b') = writable_tail alloc b in
      elim space [ none ↦ stopped failed b' | some n ↦ receive b' n answer ]

  -- `header` and `payload` are those of `out`. Where there are no more answers, the next one is that
  -- there is no data.
  pub read_next : List Answer → Header → Buffer → Buffer → Outcome
  read_next [] header payload b = elim (next_frame b) [
    | complete h n ↦ deliver b payload h n
    | corrupt ↦ stop failed header payload b
    | need_more ↦ elim (take_in b no_data) [
      | more b' ↦ stop later header payload b'
      | stopped status b' ↦ stop status header payload b'
    ]
  ]
  read_next (answer ∷ answers) header payload b = elim (next_frame b) [
    | complete h n ↦ deliver b payload h n
    | corrupt ↦ stop failed header payload b
    | need_more ↦ elim (take_in b answer) [
      | more b' ↦ read_next answers header payload b'
      | stopped status b' ↦ stop status header payload b'
    ]
  ]
