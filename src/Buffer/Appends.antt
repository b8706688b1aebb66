-- ===== src/Buffer/Appends.antt =====
-- What each write adds to the written bytes, and how writes join.
use omni_binder.Prelude.{
  ℕ, ◌+◌, ◌-◌, ◌/◌, ◌%◌, ◌^◌, ◌≤◌, ◌≡◌, refl, sym, ap, ◌∙◌, Bool, true, false, Option, some, List,
  [], ◌∷◌, ◌++◌, append_assoc, append-nil, arith, ltb, length, bytes16, bytes32, Bool-cases, inl,
  inr, u32_mod,
}
use omni_binder.Memory.{length-copy, take-copy}
use omni_binder.Buffer.{
  Buffer, capacity, written, ensure_capacity, store, write_checked, write_uint8, write_uint16,
  write_uint32, write_uint64, write_raw, write_bytes, ◌andthen◌,
}
use omni_binder.Buffer.Growth.{IsValid, Keeps, ensure-Keeps, ensure_room}

-- A write that succeeds puts just `e` behind what was written, and every write keeps the buffer valid.
pub record Wrote (b : Buffer) (e : List ℕ) (out : Bool × Buffer) : Type 0 where
  pub valid : IsValid out.1
  pub reads : out.1.read_pos ≡ b.read_pos
  pub bytes : out.0 ≡ true → written out.1 ≡ written b ++ e

abbrev pub Appends : (Buffer → Bool × Buffer) → List ℕ → Type 0
Appends write e = (b : Buffer) → IsValid b → Wrote b e (write b)

-- A string or byte array: its length, then its bytes.
abbrev pub encode_bytes : List ℕ → List ℕ
encode_bytes s = bytes32 (length s) ++ s

pub Appends-nothing : Appends (λ b. (true, b)) []
Appends-nothing b v = record { valid = v; reads = refl; bytes = λ _. sym (append-nil (written b)) }

Wrote-Keeps :
    (b b' : Buffer) (e : List ℕ) {out : Bool × Buffer} → Keeps b b' → Wrote b' e out → Wrote b e out
Wrote-Keeps b b' e k w = record {
  valid = w.valid;
  reads = w.reads ∙ k.reads;
  bytes = λ h. w.bytes h ∙ ap (λ l. l ++ e) k.bytes;
}

module _ (alloc : ℕ → Option (List ℕ))
    (alloc_size : (n : ℕ) (block : List ℕ) → alloc n ≡ some block → length block ≡ n) where
  -- Two writes, one after the other.
  pub Appends-andthen :
      (first second : Buffer → Bool × Buffer) (e f : List ℕ)
      → Appends first e
      → Appends second f
      → Appends (◌andthen◌ alloc first second) (e ++ f)
  Appends-andthen first second e f p q b v = elim (Bool-cases (first b).0) [
    | inr t ↦
        rw t (record { valid = (p b v).valid; reads = (p b v).reads; bytes = λ h. absurd (cc) })
    | inl t ↦
        let w1 = p b v in
        let w2 = q (first b).1 w1.valid in
        rw t (record {
          valid = w2.valid;
          reads = w2.reads ∙ w1.reads;
          bytes = λ h. w2.bytes h ∙ ap (λ l. l ++ f) (w1.bytes t) ∙ append_assoc (written b) e f;
        })
  ]

  store-Wrote :
      (b b' : Buffer) (e : List ℕ)
      → Keeps b b'
      → b.write_pos + length e ≤ capacity b'
      → Wrote b e (true, store alloc b' e)
  unfolding store
  store-Wrote b b' e k room = record {
    valid = record {
      read_in = omega (arith, k.valid.read_in, k.writes);
      write_in = omega (arith, length-copy b'.storage b'.write_pos e, k.writes);
      fits = omega (arith, length-copy b'.storage b'.write_pos e, k.valid.fits);
    };
    reads = k.reads;
    bytes = λ _.
        take-copy b'.storage b'.write_pos e (omega (arith, k.writes)) ∙ ap (λ l. l ++ e) k.bytes;
  }

  write_checked-Appends : (e : List ℕ) → Appends (write_checked alloc e) e
  unfolding write_checked
  write_checked-Appends e b v = elim (Bool-cases (ensure_capacity alloc b (length e)).0) [
    | inl t ↦
        rw (t, write_checked)
          (store-Wrote b (ensure_capacity alloc b (length e)).1 e
            (ensure-Keeps alloc alloc_size b (length e) v)
            (ensure_room alloc alloc_size b (length e) v t))
    | inr t ↦
        rw (t, write_checked)
          (record {
            valid = (ensure-Keeps alloc alloc_size b (length e) v).valid;
            reads = (ensure-Keeps alloc alloc_size b (length e) v).reads;
            bytes = λ h. absurd (cc);
          })
  ]

  pub write_uint8-Appends : (v : ℕ) → Appends (write_uint8 alloc v) ((v % 256) ∷ [])
  unfolding write_uint8
  write_uint8-Appends v = write_checked-Appends ((v % 256) ∷ [])

  pub write_uint16-Appends : (v : ℕ) → Appends (write_uint16 alloc v) (bytes16 v)
  unfolding write_uint16
  write_uint16-Appends v = write_checked-Appends (bytes16 v)

  pub write_uint32-Appends : (v : ℕ) → Appends (write_uint32 alloc v) (bytes32 v)
  unfolding write_uint32
  write_uint32-Appends v = write_checked-Appends (bytes32 v)

  pub write_uint64-Appends :
      (v : ℕ) → Appends (write_uint64 alloc v) (bytes32 v ++ bytes32 (v / 2 ^ 32))
  unfolding write_uint64
  write_uint64-Appends v = write_checked-Appends (bytes32 v ++ bytes32 (v / 2 ^ 32))

  pub write_raw-Appends : (e : List ℕ) → Appends (write_raw alloc e) e
  unfolding write_raw
  write_raw-Appends [] = Appends-nothing
  write_raw-Appends (x ∷ e) = write_checked-Appends (x ∷ e)

  -- writeString and writeBytes keep a valid buffer valid and its read position, and where they answer
  -- true they have appended the length in four bytes and then the bytes.
  pub write_bytes-Appends : (s : List ℕ) → Appends (write_bytes alloc s) (encode_bytes s)
  unfolding write_bytes
  write_bytes-Appends s b v = elim (Bool-cases (ltb (u32_mod - 1 - 4) (length s))) [
    | inl t ↦
        rw (t, write_bytes)
          (record {
            valid = record { read_in = v.read_in; write_in = v.write_in; fits = v.fits };
            reads = refl;
            bytes = λ h. absurd (cc);
          })
    | inr t ↦
        let k = ensure-Keeps alloc alloc_size b (4 + length s) v in
        elim (Bool-cases (ensure_capacity alloc b (4 + length s)).0) [
          | inr n ↦
              rw (t, n, write_bytes)
                (record { valid = k.valid; reads = k.reads; bytes = λ h. absurd (cc) })
          | inl y ↦
              rw (t, y, write_bytes)
                (Wrote-Keeps b (ensure_capacity alloc b (4 + length s)).1 (encode_bytes s) k (
                  Appends-andthen (write_uint32 alloc (length s)) (write_raw alloc s)
                    (bytes32 (length s)) s (write_uint32-Appends (length s)) (write_raw-Appends s)
                    (ensure_capacity alloc b (4 + length s)).1 k.valid))
        ]
  ]

  -- The steps of a chain of writes.
  pub put_uint8 :
      (v : ℕ) (next : Buffer → Bool × Buffer) (g : List ℕ)
      → Appends next g
      → Appends (◌andthen◌ alloc (write_uint8 alloc v) next) (((v % 256) ∷ []) ++ g)
  put_uint8 v next g =
      Appends-andthen (write_uint8 alloc v) next ((v % 256) ∷ []) g (write_uint8-Appends v)

  pub put_uint16 :
      (v : ℕ) (next : Buffer → Bool × Buffer) (g : List ℕ)
      → Appends next g
      → Appends (◌andthen◌ alloc (write_uint16 alloc v) next) (bytes16 v ++ g)
  put_uint16 v next g =
      Appends-andthen (write_uint16 alloc v) next (bytes16 v) g (write_uint16-Appends v)

  pub put_uint32 :
      (v : ℕ) (next : Buffer → Bool × Buffer) (g : List ℕ)
      → Appends next g
      → Appends (◌andthen◌ alloc (write_uint32 alloc v) next) (bytes32 v ++ g)
  put_uint32 v next g =
      Appends-andthen (write_uint32 alloc v) next (bytes32 v) g (write_uint32-Appends v)

  pub put_bytes :
      (s : List ℕ) (next : Buffer → Bool × Buffer) (g : List ℕ)
      → Appends next g
      → Appends (◌andthen◌ alloc (write_bytes alloc s) next) (encode_bytes s ++ g)
  put_bytes s next g =
      Appends-andthen (write_bytes alloc s) next (encode_bytes s) g (write_bytes-Appends s)

-- A write that is refused before it begins.
pub Wrote-refused : (b : Buffer) (e : List ℕ) → IsValid b → Wrote b e (false, b)
Wrote-refused b e v = record { valid = v; reads = refl; bytes = λ h. absurd (cc) }
