-- ===== src/Ring.antt =====
-- src/transport/shm_ring.h and shm_ring.cpp: the byte ring of a shared-memory channel, which carries
-- frames with a 4-byte length before each.
-- A `Ring` is the ring header with the `capacity` bytes of the data area that follows it. Pointers
-- to either are never null here, so the null checks are left out. `cap` is the capacity that the
-- caller trusts, apart from the header's own. The frame is a list of bytes and its length that of
-- the list.
pub mod Window
pub mod Bytes
pub mod Send
pub mod Receive
pub mod Queue
pub mod Fifo
pub mod Layout
mod Tests
use omni_binder.Prelude.{
  ℕ, zero, suc, ◌+◌, ◌-◌, ◌%◌, Bool, false, ◌&&◌, ◌||◌, not, List, [], ◌∷◌, ◌++◌, ltb, leb, ◌==◌,
  if◌then◌else◌, length, get_or, set, take, drop, bytes32, word32, add32, sub32,
}
use omni_binder.Memory.{copy, slice}

pub record Ring : Type 0 where
  pub write_pos : ℕ
  pub read_pos : ℕ
  pub capacity : ℕ
  pub bytes : List ℕ

abbrev pub min_ring_capacity : ℕ
min_ring_capacity = 64

abbrev pub max_message_size : ℕ
max_message_size = 16_777_216

-- sizeof(uint32_t), the length before a frame.
abbrev pub prefix_size : ℕ
prefix_size = 4

pub advance_pos : ℕ → ℕ → ℕ → ℕ
advance_pos pos delta cap =
    if leb (sub32 cap pos) delta then sub32 delta (sub32 cap pos) else add32 pos delta

-- What two valid positions leave to read.
pub unread : Ring → ℕ → ℕ
unread r cap =
    if leb r.read_pos r.write_pos
    then sub32 r.write_pos r.read_pos
    else add32 (sub32 cap r.read_pos) r.write_pos

pub available_read : Ring → ℕ → ℕ
available_read r cap =
    if ltb cap min_ring_capacity || not (r.capacity == cap)
    then 0
    else if leb cap r.write_pos || leb cap r.read_pos
    then 0
    else unread r cap

pub available_write : Ring → ℕ → ℕ
available_write r cap =
    if ltb cap min_ring_capacity
      || not (r.capacity == cap)
      || leb cap r.write_pos
      || leb cap r.read_pos
    then 0
    else sub32 (sub32 cap 1) (available_read r cap)

-- `first = min(n, cap - pos)` bytes from `pos` on, and the others from the start.
pub copy_wrapped : List ℕ → ℕ → List ℕ → ℕ → List ℕ
copy_wrapped dst pos src cap =
    let room = sub32 cap pos in
    let first = if ltb (length src) room then length src else room in
    let dst' = copy dst pos (take first src) in
    if ltb first (length src) then copy dst' 0 (drop first src) else dst'

-- The number of bytes written, 0 where they do not fit.
pub write_frame : Ring → List ℕ → ℕ → ℕ × Ring
write_frame r frame cap =
    let total = add32 prefix_size (length frame) in
    if ltb (available_write r cap) total
    then (0, r)
    else let pos = advance_pos r.write_pos prefix_size cap in
      let bytes = copy_wrapped r.bytes r.write_pos (bytes32 (length frame)) cap in
      (
        total,
        record r {
          bytes = copy_wrapped bytes pos frame cap;
          write_pos = advance_pos pos (length frame) cap;
        },
      )

-- The bytes that were read, and the ring.
pub read : Ring → ℕ → ℕ → List ℕ × Ring
read r n cap =
    if not (r.capacity == cap) || leb cap r.read_pos
    then ([], r)
    else let avail = available_read r cap in
      let to_read = if ltb n avail then n else avail in
      if to_read == 0
      then ([], r)
      else let room = sub32 cap r.read_pos in
        let first = if ltb to_read room then to_read else room in
        let out = slice r.bytes r.read_pos first in
        (
          if ltb first to_read then out ++ slice r.bytes 0 (to_read - first) else out,
          record r { read_pos = advance_pos r.read_pos to_read cap },
        )

pub record Sent : Type 0 where
  pub written : ℕ
  pub notified : Bool
  pub ring : Ring

-- `later` is what the last load of `read_pos` returns: the consumer may have moved it meanwhile.
-- `has_fd` says that notify_fd is none below 0.
pub send_frame : Ring → ℕ → List ℕ → Bool → ℕ → Sent
send_frame r cap frame has_fd later =
    if not (r.capacity == cap) || leb cap r.write_pos
    then record { written = 0; notified = false; ring = r }
    else let total = add32 prefix_size (length frame) in
      let was_empty = available_read r cap == 0 in
      let (written, r') = write_frame r frame cap in
      if not (written == total)
      then record { written = 0; notified = false; ring = r' }
      else record {
        written = written;
        notified = (was_empty || later == r.write_pos) && has_fd;
        ring = r';
      }

pub data Inspection : Type 0 where
  complete : ℕ → Inspection
  incomplete corrupt : Inspection

-- The length before the next frame: the loop over `ring_data[(r + i) % trusted_capacity]`.
pub length_prefix : List ℕ → ℕ → ℕ → ℕ
length_prefix bytes r cap = word32 (
    get_or bytes (r % cap) 0
    ∷ get_or bytes (add32 r 1 % cap) 0
    ∷ get_or bytes (add32 r 2 % cap) 0
    ∷ get_or bytes (add32 r 3 % cap) 0
    ∷ [])

-- The tests on the length, once `avail` bytes hold it.
pub check_length : ℕ → ℕ → ℕ → Inspection
check_length avail msg_len cap =
    let max_frame = sub32 (sub32 cap 1) prefix_size in
    if msg_len == 0 || ltb max_message_size msg_len || ltb max_frame msg_len
    then corrupt
    else if ltb avail (prefix_size + msg_len)
    then incomplete
    else complete msg_len

pub inspect_frame : Ring → ℕ → Inspection
inspect_frame r cap =
    if ltb cap min_ring_capacity || not (r.capacity == cap)
    then corrupt
    else if leb cap r.read_pos || leb cap r.write_pos
    then corrupt
    else if ltb (unread r cap) prefix_size
    then incomplete
    else check_length (unread r cap) (length_prefix r.bytes r.read_pos cap) cap

pub data Received : Type 0 where
  frame : List ℕ → Received
  nothing failed : Received

-- `out_size` is the room at `out`. Where the payload cannot be read in full the read position is set
-- back to before the length.
pub recv_frame : Ring → ℕ → ℕ → Received × Ring
recv_frame r cap out_size = elim (inspect_frame r cap) [
  | corrupt ↦ (failed, r)
  | incomplete ↦ (nothing, r)
  | complete n ↦
      if ltb out_size n
      then (failed, r)
      else let r' = record r { read_pos = advance_pos r.read_pos prefix_size cap } in
        let (out, r'') = read r' n cap in
        if not (length out == n)
        then (failed, record r'' { read_pos = r.read_pos })
        else (frame out, r'')
]
