-- ===== src/Buffer.antt =====
-- include/omnibinder/buffer.h and src/core/buffer.cpp: the growing byte buffer that messages are
-- written to. `storage` is data_ with its capacity_ bytes, of which the first `write_pos` are
-- written. The signed, Boolean and floating writes and reads hand the bit pattern of their value to
-- the unsigned ones, which are modelled. Destruction and moves are left out.
pub mod Growth
pub mod Appends
pub mod Cursors
mod Tests
use omni_binder.Prelude.{
  ℕ, zero, suc, ◌+◌, ◌-◌, ◌*◌, ◌/◌, ◌%◌, ◌^◌, Bool, true, false, ◌||◌, ◌&&◌, not, Option, none,
  some, List, [], ◌∷◌, ◌++◌, ltb, ◌==◌, if◌then◌else◌, length, take, bytes16, bytes32, u32_mod,
  size_mod,
}
use omni_binder.Memory.{copy, slice}

pub record Buffer : Type 0 where
  pub storage : List ℕ
  pub write_pos : ℕ
  pub read_pos : ℕ
  pub failed : Bool

abbrev pub capacity : Buffer → ℕ
capacity b = length b.storage

-- The bytes written so far: data() with size().
abbrev pub written : Buffer → List ℕ
written b = take b.write_pos b.storage

abbrev pub default_buffer_size : ℕ
default_buffer_size = 4096

abbrev pub size_max : ℕ
size_max = size_mod - 1

pub data Doubled : Type 0 where
  size : ℕ → Doubled
  too_large ran_out : Doubled

-- The loop of `grow`. Its first argument bounds the rounds.
pub double_until : ℕ → ℕ → ℕ → Doubled
double_until zero new min_capacity = ran_out
double_until (suc fuel) new min_capacity =
    let rest = double_until fuel (new * 2) min_capacity in
    if not (ltb new min_capacity)
    then size new
    else if ltb (size_max / 2) new
    then too_large
    else rest

-- std::memcpy of the written bytes into a new block.
abbrev pub moved : Buffer → List ℕ → Buffer
moved b block = record b { storage = copy block 0 (written b) }

-- The nothrow `operator new`: a block of the size asked for, with any contents, or none.
module _ (alloc : ℕ → Option (List ℕ)) where
  pub grow : Buffer → ℕ → Buffer
  grow b min_capacity =
      if ltb (size_max / 2) (capacity b)
      then record b { failed = true }
      else elim (double_until 65 (if capacity b == 0 then default_buffer_size else capacity b * 2)
          min_capacity) [
            | ran_out ↦ record b { failed = true }
            | too_large ↦ record b { failed = true }
            | size n ↦ elim (alloc n) [
              | none ↦ record b { failed = true }
              | some block ↦ moved b block
            ]
          ]

  pub ensure_capacity : Buffer → ℕ → Bool × Buffer
  ensure_capacity b additional =
      if b.failed
      then (false, b)
      else if ltb (size_max - b.write_pos) additional
      then (false, record b { failed = true })
      else let b' =
          if ltb (capacity b) (b.write_pos + additional)
          then grow b (b.write_pos + additional)
          else b in
        (not b'.failed, b')

  -- Bytes stored at the write position, once there is room.
  store : Buffer → List ℕ → Buffer
  store b bytes = record b {
    storage = copy b.storage b.write_pos bytes;
    write_pos = b.write_pos + length bytes;
  }

  write_checked : List ℕ → Buffer → Bool × Buffer
  write_checked bytes b =
      let (room, b') = ensure_capacity b (length bytes) in
      if room then (true, store b' bytes) else (false, b')

  pub write_uint8 : ℕ → Buffer → Bool × Buffer
  write_uint8 v = write_checked ((v % 256) ∷ [])

  pub write_uint16 : ℕ → Buffer → Bool × Buffer
  write_uint16 v = write_checked (bytes16 v)

  pub write_uint32 : ℕ → Buffer → Bool × Buffer
  write_uint32 v = write_checked (bytes32 v)

  -- The eight bytes of the loop `value >> (i * 8)`, the lower four first.
  pub write_uint64 : ℕ → Buffer → Bool × Buffer
  write_uint64 v = write_checked (bytes32 v ++ bytes32 (v / 2 ^ 32))

  pub write_raw : List ℕ → Buffer → Bool × Buffer
  write_raw [] b = (true, b)
  write_raw (x ∷ bytes) b = write_checked (x ∷ bytes) b

  infixl 5 ◌andthen◌
  -- `!first || !second`: the second write is made only after the first succeeds.
  abbrev pub ◌andthen◌ :
      (Buffer → Bool × Buffer) → (Buffer → Bool × Buffer) → Buffer → Bool × Buffer
  ◌andthen◌ first second b = let (done, b') = first b in if done then second b' else (false, b')

  -- writeString and writeBytes: the length, then the bytes. Room for both is made before.
  pub write_bytes : List ℕ → Buffer → Bool × Buffer
  write_bytes bytes b =
      if ltb (u32_mod - 1 - 4) (length bytes)
      then (false, record b { failed = true })
      else let (room, b') = ensure_capacity b (4 + length bytes) in
        if not room then (false, b') else (write_uint32 (length bytes) andthen write_raw bytes) b'

  -- reserve
  unfoldable pub reserve : Buffer → ℕ → Buffer
  reserve b n = if ltb (capacity b) n then grow b n else b

  -- setWritePosition, and resize, which does the same.
  pub set_write_position : Buffer → ℕ → Buffer
  set_write_position b pos =
      if ltb pos b.read_pos
      then b
      else let b' = reserve b pos in
        if ltb (capacity b) pos && b'.failed then b' else record b' { write_pos = pos }

  -- The room at the tail, where there is any to be had.
  pub writable_tail : Buffer → Option ℕ × Buffer
  writable_tail b =
      if b.failed
      then (none, b)
      else let b' = if b.write_pos == capacity b then reserve b (b.write_pos + 1) else b in
        if b'.failed then (none, b') else (some (capacity b' - b'.write_pos), b')

pub empty_buffer : Buffer
empty_buffer = record { storage = []; write_pos = 0; read_pos = 0; failed = false }

unfoldable pub clear : Buffer → Buffer
clear b = record b { write_pos = 0; read_pos = 0; failed = false }

pub reset : Buffer → Buffer
reset b = record b { read_pos = 0; failed = false }

unfoldable pub set_read_position : Buffer → ℕ → Bool × Buffer
set_read_position b pos =
    if ltb b.write_pos pos then (false, b) else (true, record b { read_pos = pos })

unfoldable pub remaining : Buffer → ℕ
remaining b = b.write_pos - b.read_pos

-- memmove of the bytes that are not yet read to the start.
pub compact : Buffer → Buffer
compact b =
    let n = remaining b in
    let storage =
      if ltb 0 n && ltb 0 b.read_pos
      then copy b.storage 0 (slice b.storage b.read_pos n)
      else b.storage in
    record b { storage = storage; write_pos = n; read_pos = 0 }

-- Bytes that a transport put at the tail are taken over.
pub commit_written : Buffer → ℕ → Bool × Buffer
commit_written b n =
    if b.failed || ltb (capacity b - b.write_pos) n
    then (false, b)
    else (true, record b { write_pos = b.write_pos + n })

pub has_remaining : Buffer → Bool
has_remaining b = ltb b.read_pos b.write_pos

-- The buffer starts anew with the bytes.
unfoldable pub assign : (ℕ → Option (List ℕ)) → Buffer → List ℕ → Buffer
assign alloc b bytes =
    let b' = reserve alloc (clear b) (length bytes) in
    if length bytes == 0
    then clear b
    else if b'.failed
    then b'
    else record b' { storage = copy b'.storage 0 bytes; write_pos = length bytes }
