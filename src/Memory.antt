-- ===== src/Memory.antt =====
-- Blocks of bytes: what memcpy and memmove between them do.
use omni_binder.Prelude.{
  ℕ, zero, suc, ◌+◌, ◌≤◌, ◌<◌, ◌≡◌, refl, sym, ap, ap₂, ◌∙◌, append_assoc, append-nil,
  length-append, List, [], ◌∷◌, ◌++◌, arith, length, length-set, get_or, set, take, Option, some,
}

-- memcpy(dst + at, src, n) for the n bytes of `src`.
unfoldable pub copy : List ℕ → ℕ → List ℕ → List ℕ
copy dst at [] = dst
copy dst at (b ∷ src) = copy (set dst at b) (at + 1) src

-- The bytes from `at` on, `n` of them: the source side of a memcpy.
unfoldable pub slice : List ℕ → ℕ → ℕ → List ℕ
slice src at zero = []
slice src at (suc n) = get_or src at 0 ∷ slice src (at + 1) n

pub length-copy : (dst : List ℕ) (at : ℕ) (src : List ℕ) → length (copy dst at src) ≡ length dst
unfolding copy
length-copy dst at [] = refl
length-copy dst at (b ∷ src) = length-copy (set dst at b) (at + 1) src ∙ length-set dst at b

take-set :
    (dst : List ℕ) (at : ℕ) (b : ℕ)
    → at < length dst
    → take (suc at) (set dst at b) ≡ take at dst ++ b ∷ []
take-set [] at b h = absurd (omega arith)
take-set (x ∷ dst) zero b h = refl
take-set (x ∷ dst) (suc at) b h = ap (◌∷◌ x) (take-set dst at b (omega arith))

-- A copy inside of the block puts `src` just behind the first `at` bytes.
pub take-copy :
    (dst : List ℕ) (at : ℕ) (src : List ℕ)
    → at + length src ≤ length dst
    → take (at + length src) (copy dst at src) ≡ take at dst ++ src
unfolding copy
take-copy dst at [] h = ap (λ k. take k dst) {y = at} (omega arith) ∙ sym (append-nil (take at dst))
take-copy dst at (b ∷ src) h =
    ap (λ k. take k (copy (set dst at b) (at + 1) src)) {y = at + 1 + length src} (omega arith)
    ∙ take-copy (set dst at b) (at + 1) src (omega (arith, length-set dst at b))
    ∙ ap (λ k. take k (set dst at b) ++ src) {y = suc at} (omega arith)
    ∙ ap (λ l. l ++ src) (take-set dst at b (omega arith))
    ∙ append_assoc (take at dst) (b ∷ []) src

pub get_or-append : (pre l : List ℕ) (i : ℕ) → get_or (pre ++ l) (length pre + i) 0 ≡ get_or l i 0
get_or-append [] l i = ap (λ k. get_or l k 0) {y = i} (omega arith)
get_or-append (x ∷ pre) l i =
    ap (λ k. get_or (x ∷ pre ++ l) k 0) {y = suc (length pre + i)} (omega arith)
    ∙ get_or-append pre l i

-- The bytes behind `pre` are those that stand there.
pub slice-append : (pre s rest : List ℕ) → slice (pre ++ (s ++ rest)) (length pre) (length s) ≡ s
unfolding slice
slice-append pre [] rest = refl
slice-append pre (b ∷ s) rest =
    ap₂ ◌∷◌
      (ap (λ k. get_or (pre ++ (b ∷ s ++ rest)) k 0) {y = length pre + 0} (omega arith)
        ∙ get_or-append pre (b ∷ s ++ rest) 0)
      (ap (λ k. slice (pre ++ (b ∷ s ++ rest)) k (length s)) {y = length (pre ++ b ∷ [])}
          (omega (arith, length-append pre (b ∷ [])))
        ∙ ap (λ l. slice l (length (pre ++ b ∷ [])) (length s))
            (sym (append_assoc pre (b ∷ []) (s ++ rest)))
        ∙ slice-append (pre ++ b ∷ []) s rest)

pub length-slice : (l : List ℕ) (at n : ℕ) → length (slice l at n) ≡ n
unfolding slice
length-slice l at zero = refl
length-slice l at (suc n) = omega (arith, length-slice l (at + 1) n)

get_or-slice : (l : List ℕ) (at n i : ℕ) → i < n → get_or (slice l at n) i 0 ≡ get_or l (at + i) 0
unfolding slice
get_or-slice l at zero i h = absurd (omega arith)
get_or-slice l at (suc n) zero h = ap (λ k. get_or l k 0) {x = at} {y = at + 0} (omega arith)
get_or-slice l at (suc n) (suc i) h =
    get_or-slice l (at + 1) n i (omega arith)
    ∙ ap (λ k. get_or l k 0) {x = at + 1 + i} {y = at + suc i} (omega arith)

-- A slice of a slice.
pub slice-slice :
    (l : List ℕ) (at n k m : ℕ) → k + m ≤ n → slice (slice l at n) k m ≡ slice l (at + k) m
unfolding slice
slice-slice l at n k zero h = refl
slice-slice l at n k (suc m) h = ap₂ ◌∷◌ (get_or-slice l at n k (omega arith)) (
    slice-slice l at n (k + 1) m (omega arith)
    ∙ ap (λ j. slice l j m) {x = at + (k + 1)} {y = at + k + 1} (omega arith))

abbrev pub zeros : ℕ → List ℕ
zeros zero = []
zeros (suc n) = 0 ∷ zeros n

pub length-zeros : (n : ℕ) → length (zeros n) ≡ n
length-zeros zero = refl
length-zeros (suc n) = omega (arith, length-zeros n)

-- An allocator that always finds a block.
abbrev pub allocate : ℕ → Option (List ℕ)
allocate n = some (zeros n)

pub allocate_size : (n : ℕ) (block : List ℕ) → allocate n ≡ some block → length block ≡ n
allocate_size n block e = ground (arith, length-zeros n)
