-- ===== src/Buffer/Cursors.antt =====
-- The operations of src/core/buffer.cpp that move the cursors, and assign.
use omni_binder.Prelude.{
  ℕ, zero, suc, ◌+◌, ◌-◌, ◌≤◌, ◌<◌, ◌≡◌, refl, ap, ap₂, sym, ◌∙◌, Bool, ◌&&◌, ◌||◌, true, false,
  Option, some, List, [], ◌∷◌, arith, ltb, ◌==◌, length, take, get_or, Bool-cases, inl, inr,
}
use omni_binder.Memory.{length-slice, copy, slice, length-copy, take-copy}
use omni_binder.Buffer.{
  Buffer, capacity, written, clear, reset, set_read_position, reserve, set_write_position,
  writable_tail, compact, commit_written, assign, remaining,
}
use omni_binder.Buffer.Growth.{IsValid, Keeps, grow-Keeps, grow_room}

slice-cons : (x : ℕ) (l : List ℕ) (at n : ℕ) → slice (x ∷ l) (at + 1) n ≡ slice l at n
unfolding slice
slice-cons x l at zero = refl
slice-cons x l at (suc n) =
    ap₂ ◌∷◌ (ap (λ k. get_or (x ∷ l) k 0) {y = suc at} (omega arith)) (slice-cons x l (at + 1) n)

take-slice : (l : List ℕ) (n : ℕ) → n ≤ length l → take n l ≡ slice l 0 n
unfolding slice
take-slice l zero h = refl
take-slice [] (suc n) h = absurd (omega arith)
take-slice (x ∷ l) (suc n) h = ap (◌∷◌ x) (take-slice l n (omega arith) ∙ sym (slice-cons x l 0 n))

copied :
    (b : Buffer)
    → IsValid b
    → take (remaining b) (copy b.storage 0 (slice b.storage b.read_pos (remaining b)))
      ≡ slice b.storage b.read_pos (remaining b)
unfolding remaining
copied b v =
    let n = b.write_pos - b.read_pos in
    let src = slice b.storage b.read_pos n in
    let size = length-slice b.storage b.read_pos n in
    ap (λ k. take k (copy b.storage 0 src)) {x = n} {y = 0 + length src} (omega (arith, size))
    ∙ take-copy b.storage 0 src (omega (arith, size, v.write_in))

uncopied :
    (b : Buffer)
    → IsValid b
    → (ltb 0 (remaining b) && ltb 0 b.read_pos) ≡ false
    → take (remaining b) b.storage ≡ slice b.storage b.read_pos (remaining b)
unfolding remaining slice
uncopied b v e = elim (Bool-cases (b.read_pos == 0)) [
  | inl t ↦
      take-slice b.storage (b.write_pos - b.read_pos) (omega (arith, v.write_in))
      ∙ ap (λ k. slice b.storage k (b.write_pos - b.read_pos)) {x = 0} {y = b.read_pos}
          (ground (arith, t))
  | inr t ↦ let none_left : b.write_pos - b.read_pos ≡ 0 = ground (arith, t, e) in rw none_left refl
]

remaining_from :
    (l : List ℕ) (f : Bool) (n : ℕ)
    → remaining (record { storage = l; write_pos = n; read_pos = 0; failed = f }) ≡ n
unfolding remaining
remaining_from l f n = omega arith

pub compact-IsValid : (b : Buffer) → IsValid b → IsValid (compact b)
unfolding compact remaining
compact-IsValid b v = elim (Bool-cases (ltb 0 (b.write_pos - b.read_pos) && ltb 0 b.read_pos)) [
  | inl t ↦
      let size = length-copy b.storage 0 (slice b.storage b.read_pos (b.write_pos - b.read_pos)) in
      rw (t, compact)
        (record {
          read_in = omega arith;
          write_in = omega (arith, size, v.write_in);
          fits = omega (arith, size, v.fits);
        })
  | inr t ↦
      rw (t, compact)
        (record { read_in = omega arith; write_in = omega (arith, v.write_in); fits = v.fits })
]

moved-IsValid :
    {b : Buffer} (w r : ℕ)
    → IsValid b
    → r ≤ w
    → w ≤ capacity b
    → {f : Bool} → IsValid (record b { write_pos = w; read_pos = r; failed = f })
moved-IsValid w r v h k = record { read_in = h; write_in = k; fits = v.fits }

set_read_position-IsValid : (b : Buffer) (n : ℕ) → IsValid b → IsValid (set_read_position b n).1
unfolding set_read_position
set_read_position-IsValid b n v = elim (Bool-cases (ltb b.write_pos n)) [
  | inl t ↦ rw (t, set_read_position) v
  | inr t ↦
      rw (t, set_read_position)
        (record { read_in = ground (arith, t); write_in = v.write_in; fits = v.fits })
]

commit_written-IsValid : (b : Buffer) (n : ℕ) → IsValid b → IsValid (commit_written b n).1
unfolding commit_written
commit_written-IsValid b n v = elim (Bool-cases (b.failed || ltb (capacity b - b.write_pos) n)) [
  | inl t ↦ rw (t, commit_written) v
  | inr t ↦
      rw (t, commit_written)
        (record {
          read_in = omega (arith, v.read_in);
          write_in = ground (arith, t, v.write_in);
          fits = v.fits;
        })
]

-- compact moves the bytes that are not yet read to the start, as they are, and leaves nothing else.
pub written-compact :
    (b : Buffer)
    → IsValid b
    → (written (compact b) ≡ slice b.storage b.read_pos (remaining b))
      × ((compact b).read_pos ≡ 0)
      × (remaining (compact b) ≡ remaining b)
unfolding compact
written-compact b v = elim (Bool-cases (ltb 0 (remaining b) && ltb 0 b.read_pos)) [
  | inl t ↦ rw (t, compact) (copied b v, refl, remaining_from _ _ (remaining b))
  | inr t ↦ rw (t, compact) (uncopied b v t, refl, remaining_from _ _ (remaining b))
]

-- What is to be read stays the same.
pub unread-compact :
    (b : Buffer)
    → IsValid b
    → slice (compact b).storage (compact b).read_pos (remaining (compact b))
      ≡ slice b.storage b.read_pos (remaining b)
unfolding remaining
unread-compact b v =
    let c = compact b in
    let at_start = (written-compact b v).1 in
    ap₂ (slice c.storage) {u = c.write_pos - c.read_pos} {v = c.write_pos} at_start
      (omega (arith, at_start))
    ∙ sym (take-slice c.storage c.write_pos (compact-IsValid b v).write_in)
    ∙ (written-compact b v).0

module _ (alloc : ℕ → Option (List ℕ))
    (alloc_size : (n : ℕ) (block : List ℕ) → alloc n ≡ some block → length block ≡ n) where
  reserve-Keeps : (b : Buffer) (n : ℕ) → IsValid b → Keeps b (reserve alloc b n)
  unfolding reserve
  reserve-Keeps b n v = ground (arith, grow-Keeps alloc alloc_size b n v)

  reserve_room :
      (b : Buffer) (n : ℕ) → (reserve alloc b n).failed ≡ false → n ≤ capacity (reserve alloc b n)
  unfolding reserve
  reserve_room b n e = ground (arith, grow_room alloc alloc_size b n)

  room_or :
      (b : Buffer) (n : ℕ)
      → IsValid b
      → (ltb (capacity b) n && (reserve alloc b n).failed) ≡ false
      → n ≤ capacity (reserve alloc b n)
  unfolding reserve
  room_or b n v e = ground (arith, grow_room alloc alloc_size b n)

  set_write_position-IsValid :
      (b : Buffer) (n : ℕ) → IsValid b → IsValid (set_write_position alloc b n)
  unfolding set_write_position
  set_write_position-IsValid b n v = elim (Bool-cases (ltb n b.read_pos)) [
    | inl t ↦ rw (t, set_write_position) v
    | inr t ↦
        let k = reserve-Keeps b n v in
        elim (Bool-cases (ltb (capacity b) n && (reserve alloc b n).failed)) [
          | inl u ↦ rw (t, u, set_write_position) k.valid
          | inr u ↦
              rw (t, u, set_write_position)
                (record {
                  read_in = ground (arith, t, k.reads);
                  write_in = room_or b n v u;
                  fits = k.valid.fits;
                })
        ]
  ]

  writable_tail-IsValid : (b : Buffer) → IsValid b → IsValid (writable_tail alloc b).1
  unfolding writable_tail
  writable_tail-IsValid b v = ground (arith, (reserve-Keeps b (b.write_pos + 1) v).valid)

  stored_fresh :
      (b : Buffer) (bytes : List ℕ)
      → IsValid b
      → (reserve alloc (clear b) (length bytes)).failed ≡ false
      → let b' = reserve alloc (clear b) (length bytes) in
        let out = record b' { storage = copy b'.storage 0 bytes; write_pos = length bytes } in
        IsValid out × (written out ≡ bytes) × (out.read_pos ≡ 0)
  unfolding clear
  stored_fresh b bytes v f =
      let k =
        reserve-Keeps (clear b) (length bytes) (moved-IsValid 0 0 v (omega arith) (omega arith)) in
      let room = reserve_room (clear b) (length bytes) f in
      let size = length-copy (reserve alloc (clear b) (length bytes)).storage 0 bytes in
      (
        record {
          read_in = omega (arith, k.reads);
          write_in = omega (arith, size, room);
          fits = omega (arith, size, k.valid.fits);
        },
        ap (λ n. take n (copy (reserve alloc (clear b) (length bytes)).storage 0 bytes))
              {x = length bytes} {y = 0 + length bytes} (omega arith)
            ∙ take-copy (reserve alloc (clear b) (length bytes)).storage 0 bytes
                (omega (arith, room)),
        k.reads,
      )

  assign_stores :
      (b : Buffer) (bytes : List ℕ)
      → 0 < length bytes
      → (reserve alloc (clear b) (length bytes)).failed ≡ false
      → assign alloc b bytes ≡ record (reserve alloc (clear b) (length bytes)) {
        storage = copy (reserve alloc (clear b) (length bytes)).storage 0 bytes;
        write_pos = length bytes;
      }
  unfolding assign
  assign_stores b bytes h f = ground arith

  assign_failed :
      (b : Buffer) (bytes : List ℕ)
      → 0 < length bytes
      → (reserve alloc (clear b) (length bytes)).failed ≡ true
      → assign alloc b bytes ≡ reserve alloc (clear b) (length bytes)
  unfolding assign
  assign_failed b bytes h f = ground arith

  assign-IsValid : (b : Buffer) (bytes : List ℕ) → IsValid b → IsValid (assign alloc b bytes)
  unfolding assign clear
  assign-IsValid b [] v = moved-IsValid 0 0 v (omega arith) (omega arith)
  assign-IsValid b (x ∷ xs) v =
      elim (Bool-cases (reserve alloc (clear b) (length (x ∷ xs))).failed) [
        | inl f ↦
            rw (assign_failed b (x ∷ xs) (omega arith) f)
              (reserve-Keeps (clear b) (length (x ∷ xs))
                (moved-IsValid 0 0 v (omega arith) (omega arith))).valid
        | inr f ↦ rw (assign_stores b (x ∷ xs) (omega arith) f) (stored_fresh b (x ∷ xs) v f).0
      ]

  -- clear, reset, trySetReadPosition, reserve, setWritePosition, writableTail, compact, commitWritten
  -- and assign keep a valid buffer valid, whatever position, size or bytes they are given and whether
  -- or not there is memory.
  pub cursors-IsValid :
      (b : Buffer) (n : ℕ) (bytes : List ℕ)
      → IsValid b
      → IsValid (clear b)
        × IsValid (reset b)
        × IsValid (set_read_position b n).1
        × IsValid (reserve alloc b n)
        × IsValid (set_write_position alloc b n)
        × IsValid (writable_tail alloc b).1
        × IsValid (compact b)
        × IsValid (commit_written b n).1
        × IsValid (assign alloc b bytes)
  unfolding clear reset
  cursors-IsValid b n bytes v = (
    moved-IsValid 0 0 v (omega arith) (omega arith),
    moved-IsValid b.write_pos 0 v (omega arith) v.write_in,
    set_read_position-IsValid b n v,
    (reserve-Keeps b n v).valid,
    set_write_position-IsValid b n v,
    writable_tail-IsValid b v,
    compact-IsValid b v,
    commit_written-IsValid b n v,
    assign-IsValid b bytes v,
  )

  -- Where assign on a valid buffer has not failed, it leaves a valid buffer that holds just the bytes,
  -- with none of them read.
  pub written-assign :
      (b : Buffer) (bytes : List ℕ)
      → IsValid b
      → (assign alloc b bytes).failed ≡ false
      → IsValid (assign alloc b bytes)
        × (written (assign alloc b bytes) ≡ bytes)
        × ((assign alloc b bytes).read_pos ≡ 0)
  unfolding assign clear
  written-assign b [] v e = (moved-IsValid 0 0 v (omega arith) (omega arith), refl, refl)
  written-assign b (x ∷ xs) v e =
      elim (Bool-cases (reserve alloc (clear b) (length (x ∷ xs))).failed) [
        | inl f ↦ let at_end = assign_failed b (x ∷ xs) (omega arith) f in absurd (cc)
        | inr f ↦ rw (assign_stores b (x ∷ xs) (omega arith) f) (stored_fresh b (x ∷ xs) v f)
      ]
