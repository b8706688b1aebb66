-- ===== src/Prelude/Words.antt =====
-- uint16_t, uint32_t and size_t as native numbers, and their little-endian bytes. An `|` of bytes
-- shifted to different places is their sum.
use Prim.Native.Nat.{ℕ, ◌+◌, ◌-◌, ◌*◌, ◌/◌, ◌%◌, ◌^◌, ◌<◌}
use mathlib.Core.Path.{◌≡◌}
use mathlib.Core.List.{List, [], ◌∷◌}
use native.Mathlib.Omega.{arith}
use omni_binder.Prelude.Lists.{get_or}

-- The moduli of the unsigned types (a 64-bit target).
abbrev pub u16_mod : ℕ
u16_mod = 2 ^ 16

abbrev pub u32_mod : ℕ
u32_mod = 2 ^ 32

abbrev pub size_mod : ℕ
size_mod = 2 ^ 64

-- The bytes of a value, the lowest first.
abbrev pub bytes16 : ℕ → List ℕ
bytes16 v = (v % 256) ∷ (v / 2 ^ 8 % 256) ∷ []

abbrev pub bytes32 : ℕ → List ℕ
bytes32 v = (v % 256) ∷ (v / 2 ^ 8 % 256) ∷ (v / 2 ^ 16 % 256) ∷ (v / 2 ^ 24 % 256) ∷ []

-- The value of bytes.
abbrev pub word16 : List ℕ → ℕ
word16 l = get_or l 0 0 + get_or l 1 0 * 2 ^ 8

abbrev pub word32 : List ℕ → ℕ
word32 l = get_or l 0 0 + get_or l 1 0 * 2 ^ 8 + get_or l 2 0 * 2 ^ 16 + get_or l 3 0 * 2 ^ 24

pub word16-bytes16 : (v : ℕ) → v < u16_mod → word16 (bytes16 v) ≡ v
word16-bytes16 v h = omega arith

pub word32-bytes32 : (v : ℕ) → v < u32_mod → word32 (bytes32 v) ≡ v
word32-bytes32 v h = omega arith

-- uint32_t sum and difference.
abbrev pub add32 : ℕ → ℕ → ℕ
add32 a b = (a + b) % u32_mod

abbrev pub sub32 : ℕ → ℕ → ℕ
sub32 a b = (a + u32_mod - b) % u32_mod
