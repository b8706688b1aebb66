-- ===== src/Reader/Decodes.antt =====
-- What the reads make of encoded bytes, and how reads join.
use omni_binder.Prelude.{
  ℕ, ◌+◌, ◌<◌, ◌≡◌, refl, sym, ap, ap₂, ◌∙◌, some, List, [], ◌∷◌, ◌++◌, append_assoc, append-nil,
  arith, length, length-append, bytes16, bytes32, u16_mod, u32_mod,
}
use omni_binder.Memory.{slice, get_or-append, slice-append}
use omni_binder.Reader.{
  Reader, ◌>>=◌, can_read, done, read_uint8, read_uint16, read_uint32, read_bytes,
}
use omni_binder.Buffer.Appends.{encode_bytes}

-- Where `e` stands in a block, the reader gives `a` and stops behind it.
abbrev pub DecodesAt : {A : Type 0} → Reader A → List ℕ → A → Type 0
DecodesAt read e a =
    (pre rest : List ℕ) → read (pre ++ (e ++ rest)) (length pre) ≡ some (a, length pre + length e)

done_at : {A : Type 0} (a : A) → DecodesAt (done a) [] a
done_at a pre rest = ground arith

bind_at :
    {A B : Type 0} (m : Reader A) (f : A → Reader B) (e g : List ℕ) (a : A) (b : B)
    → DecodesAt m e a
    → DecodesAt (f a) g b
    → DecodesAt (m >>= f) (e ++ g) b
bind_at m f e g a b p q pre rest =
    ap (λ l. ◌>>=◌ m f (pre ++ l) (length pre)) (append_assoc e g rest)
    ∙ rw (p pre (g ++ rest), ◌>>=◌)
        (ap₂ (f a) {u = length pre + length e} {v = length (pre ++ e)}
            (sym (append_assoc pre e (g ++ rest))) (omega (arith, length-append pre e))
          ∙ q (pre ++ e) rest
          ∙ ap (λ n. some (b, n)) {y = length pre + length (e ++ g)}
              (omega (arith, length-append pre e, length-append e g)))

read_uint8_at : (v : ℕ) → DecodesAt read_uint8 (v ∷ []) v
unfolding read_uint8 can_read
read_uint8_at v pre rest =
    ground (arith, get_or-append pre (v ∷ rest) 0, length-append pre (v ∷ rest))

read_uint16_at : (v : ℕ) → v < u16_mod → DecodesAt read_uint16 (bytes16 v) v
unfolding read_uint16 can_read
read_uint16_at v h pre rest = ground (
  arith,
  get_or-append pre (bytes16 v ++ rest) 0,
  get_or-append pre (bytes16 v ++ rest) 1,
  length-append pre (bytes16 v ++ rest),
)

read_uint32_at : (v : ℕ) → v < u32_mod → DecodesAt read_uint32 (bytes32 v) v
unfolding read_uint32 can_read
read_uint32_at v h pre rest = ground (
  arith,
  get_or-append pre (bytes32 v ++ rest) 0,
  get_or-append pre (bytes32 v ++ rest) 1,
  get_or-append pre (bytes32 v ++ rest) 2,
  get_or-append pre (bytes32 v ++ rest) 3,
  length-append pre (bytes32 v ++ rest),
)

empty_of_length : (s : List ℕ) → length s ≡ 0 → s ≡ []
empty_of_length [] h = refl
empty_of_length (x ∷ s) h = absurd (omega arith)

read_bytes_at : (s : List ℕ) → length s < u32_mod → DecodesAt read_bytes (encode_bytes s) s
unfolding read_bytes can_read
read_bytes_at s h pre rest =
    rw (read_uint32_at (length s) h pre (s ++ rest), read_bytes)
      (ground (
        arith,
        length-append pre (encode_bytes s ++ rest),
        length-append s rest,
        behind,
        empty_of_length s,
      ))
  where
    behind : slice (pre ++ (encode_bytes s ++ rest)) (length pre + 4) (length s) ≡ s
    behind =
        ap₂ (λ l k. slice l k (length s)) {u = length pre + 4}
          {v = length (pre ++ bytes32 (length s))}
          (sym (append_assoc pre (bytes32 (length s)) (s ++ rest)))
          (omega (arith, length-append pre (bytes32 (length s))))
        ∙ slice-append (pre ++ bytes32 (length s)) s rest

pub record Decodes {A : Type 0} (read : Reader A) (e : List ℕ) (a : A) : Type 0 where
  pub reads_back : DecodesAt read e a

pub Decodes-done : {A : Type 0} (a : A) → Decodes (done a) [] a
Decodes-done a = record { reads_back = done_at a }

pub Decodes-bind :
    {A B : Type 0} (m : Reader A) (f : A → Reader B) (e g : List ℕ) (a : A) (b : B)
    → Decodes m e a
    → Decodes (f a) g b
    → Decodes (m >>= f) (e ++ g) b
Decodes-bind m f e g a b p q = record { reads_back = bind_at m f e g a b p.reads_back q.reads_back }

-- The steps of a chain of reads.
module _ {B : Type 0} {b : B} where
  pub get_uint8 :
      (v : ℕ) (f : ℕ → Reader B) (g : List ℕ)
      → Decodes (f v) g b
      → Decodes (read_uint8 >>= f) ((v ∷ []) ++ g) b
  get_uint8 v f g =
      Decodes-bind read_uint8 f (v ∷ []) g v b (record { reads_back = read_uint8_at v })

  pub get_uint16 :
      (v : ℕ) (f : ℕ → Reader B) (g : List ℕ)
      → v < u16_mod
      → Decodes (f v) g b
      → Decodes (read_uint16 >>= f) (bytes16 v ++ g) b
  get_uint16 v f g h =
      Decodes-bind read_uint16 f (bytes16 v) g v b (record { reads_back = read_uint16_at v h })

  pub get_uint32 :
      (v : ℕ) (f : ℕ → Reader B) (g : List ℕ)
      → v < u32_mod
      → Decodes (f v) g b
      → Decodes (read_uint32 >>= f) (bytes32 v ++ g) b
  get_uint32 v f g h =
      Decodes-bind read_uint32 f (bytes32 v) g v b (record { reads_back = read_uint32_at v h })

  pub get_bytes :
      (s : List ℕ) (f : List ℕ → Reader B) (g : List ℕ)
      → length s < u32_mod
      → Decodes (f s) g b
      → Decodes (read_bytes >>= f) (encode_bytes s ++ g) b
  get_bytes s f g h =
      Decodes-bind read_bytes f (encode_bytes s) g s b (record { reads_back = read_bytes_at s h })

pub Decodes-bytes : (s : List ℕ) → length s < u32_mod → Decodes read_bytes (encode_bytes s) s
Decodes-bytes s h = record { reads_back = read_bytes_at s h }

-- The last read of a chain.
pub last_read :
    {A B : Type 0} (m : Reader A) (f : A → Reader B) (e : List ℕ) (a : A) (b : B)
    → Decodes m e a
    → Decodes (f a) [] b
    → Decodes (m >>= f) e b
last_read m f e a b p q = rw (← append-nil e) (Decodes-bind m f e [] a b p q)
