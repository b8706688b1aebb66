-- ===== src/Reader.antt =====
-- src/core/buffer_read_utils.h: reads of a block of bytes at a position. A read that fails is
-- `none`, without the position: the reads of fixed size leave it as it was, readString and readBytes
-- leave it behind the length where the bytes are missing. One that succeeds gives the value and the
-- position behind it. The block is the one up to `limit`. The signed and floating reads take the bit
-- pattern from the unsigned ones, which are modelled. The out-of-memory catch is left out.
pub mod Decodes
use omni_binder.Prelude.{
  ℕ, ◌+◌, ◌-◌, ◌*◌, ◌^◌, Bool, ◌&&◌, not, Option, none, some, List, [], ◌∷◌, leb, ◌==◌,
  if◌then◌else◌, length, get_or, word16, word32,
}
use omni_binder.Memory.{slice}

unfoldable pub can_read : ℕ → ℕ → ℕ → Bool
can_read limit pos n = leb pos limit && leb n (limit - pos)

abbrev pub Reader : Type 0 → Type 0
Reader A = List ℕ → ℕ → Option (A × ℕ)

infixl 5 ◌>>=◌ ◌>>◌
abbrev pub ◌>>=◌ : {A B : Type 0} → Reader A → (A → Reader B) → Reader B
◌>>=◌ m f block pos = elim (m block pos) [ none ↦ none | some (a, next) ↦ f a block next ]

abbrev pub ◌>>◌ : {B : Type 0} → Reader (Unit {0}) → Reader B → Reader B
m >> k = m >>= λ _. k

abbrev pub done : {A : Type 0} → A → Reader A
done a block pos = some (a, pos)

-- `return false`, unless the test holds.
abbrev pub check : Bool → Reader (Unit {0})
check b block pos = if b then some (tt, pos) else none

-- buf.remaining()
abbrev pub rest_size : Reader ℕ
rest_size block pos = some (length block - pos, pos)

unfoldable pub read_uint8 : Reader ℕ
read_uint8 block pos =
    if not (can_read (length block) pos 1) then none else some (get_or block pos 0, pos + 1)

pub read_uint16 : Reader ℕ
read_uint16 block pos =
    if not (can_read (length block) pos 2)
    then none
    else some (word16 (get_or block pos 0 ∷ get_or block (pos + 1) 0 ∷ []), pos + 2)

-- The four bytes from a position on, as a value.
abbrev pub word_at : List ℕ → ℕ → ℕ
word_at block pos = word32 (
    get_or block pos 0
    ∷ get_or block (pos + 1) 0
    ∷ get_or block (pos + 2) 0
    ∷ get_or block (pos + 3) 0
    ∷ [])

unfoldable pub read_uint32 : Reader ℕ
read_uint32 block pos =
    if not (can_read (length block) pos 4) then none else some (word_at block pos, pos + 4)

pub read_uint64 : Reader ℕ
read_uint64 block pos =
    if not (can_read (length block) pos 8)
    then none
    else some (word_at block pos + word_at block (pos + 4) * 2 ^ 32, pos + 8)

-- readString and readBytes.
unfoldable pub read_bytes : Reader (List ℕ)
read_bytes block pos = elim (read_uint32 block pos) [
  | none ↦ none
  | some (len, next) ↦
      if len == 0
      then some ([], next)
      else if not (can_read (length block) next len)
      then none
      else some (slice block next len, next + len)
]

pub read_bool : Reader Bool
read_bool block pos = elim (read_uint8 block pos) [
  | none ↦ none
  | some (byte, next) ↦ some (not (byte == 0), next)
]
