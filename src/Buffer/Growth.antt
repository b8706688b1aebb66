-- ===== src/Buffer/Growth.antt =====
-- grow and ensureCapacity of src/core/buffer.cpp: the end of the loop, what becomes of the written
-- bytes, and the room that there is afterwards.
use omni_binder.Prelude.{
  ℕ, zero, suc, ◌+◌, ◌*◌, ◌/◌, ◌≤◌, ◌<◌, ◌≡◌, refl, ap, ◌∙◌, ◌≢◌, true, false, Option, none, some,
  List, arith, ltb, ◌==◌, if◌then◌else◌, length, take, length-take, Bool-cases, Option-cases, inl,
  inr,
}
use omni_binder.Memory.{copy, length-copy, take-copy}
use omni_binder.Buffer.{
  Buffer, capacity, written, moved, default_buffer_size, size_max, Doubled, size, too_large,
  ran_out, double_until, grow, ensure_capacity,
}

pub record IsValid (b : Buffer) : Type 0 where
  pub read_in : b.read_pos ≤ b.write_pos
  pub write_in : b.write_pos ≤ capacity b
  pub fits : capacity b ≤ size_max

double : ℕ → ℕ → ℕ
double zero new = new
double (suc n) new = double n (new * 2)

double-le : (n new : ℕ) → new ≤ double n new
unfolding double
double-le zero new = omega arith
double-le (suc n) new = omega (arith, double-le n (new * 2))

double_until_total :
    (fuel new m : ℕ) → size_max < double fuel new → double_until (suc fuel) new m ≢ ran_out
unfolding double_until double
double_until_total zero new m h = ground arith
double_until_total (suc fuel) new m h = ground (arith, double_until_total fuel (new * 2) m)

double_mono : (n a b : ℕ) → a ≤ b → double n a ≤ double n b
unfolding double
double_mono zero a b h = h
double_mono (suc n) a b h = double_mono n (a * 2) (b * 2) (omega arith)

double_one : size_max < double 64 1
unfolding double
double_one = omega arith

-- From any size but zero, 65 rounds are enough for the doubling loop to end, at a size or at an overflow,
-- whatever size is asked for.
pub double_until-ne-ran_out : (new m : ℕ) → 0 < new → double_until 65 new m ≢ ran_out
double_until-ne-ran_out new m h =
    double_until_total 64 new m (omega (arith, double_one, double_mono 64 1 new h))

double_until-size :
    (fuel new m n : ℕ)
    → new ≤ size_max
    → double_until fuel new m ≡ size n
    → (new ≤ n) × (m ≤ n) × (n ≤ size_max)
unfolding double_until
double_until-size zero new m n h e = absurd (cc)
double_until-size (suc fuel) new m n h e = ground (arith, double_until-size fuel (new * 2) m n)

-- What stays when room is made.
pub record Keeps (b b' : Buffer) : Type 0 where
  pub valid : IsValid b'
  pub bytes : written b' ≡ written b
  pub writes : b'.write_pos ≡ b.write_pos
  pub reads : b'.read_pos ≡ b.read_pos

abbrev failing : Buffer → Buffer
failing b = record b { failed = true }

Keeps-failing : (b : Buffer) → IsValid b → Keeps b (failing b)
Keeps-failing b v = record {
  valid = record { read_in = v.read_in; write_in = v.write_in; fits = v.fits };
  bytes = refl;
  writes = refl;
  reads = refl;
}

Keeps-moved :
    (b : Buffer) (block : List ℕ)
    → IsValid b
    → capacity b ≤ length block
    → length block ≤ size_max
    → Keeps b (moved b block)
Keeps-moved b block v h s = record {
  valid = record {
    read_in = v.read_in;
    write_in = omega (arith, length-copy block 0 (written b), v.write_in);
    fits = omega (arith, length-copy block 0 (written b));
  };
  bytes =
      ap (λ k. take k (copy block 0 (written b))) {y = 0 + length (written b)} (omega (arith, lw))
      ∙ take-copy block 0 (written b) (omega (arith, lw, v.write_in));
  writes = refl;
  reads = refl;
}
  where
    lw : length (written b) ≡ b.write_pos
    lw = omega (arith, length-take b.write_pos b.storage, v.write_in)

abbrev start_size : Buffer → ℕ
start_size b = if capacity b == 0 then default_buffer_size else capacity b * 2

module _ (alloc : ℕ → Option (List ℕ))
    (alloc_size : (n : ℕ) (block : List ℕ) → alloc n ≡ some block → length block ≡ n) where
  -- `grow` gives up, or moves the bytes to a block that is large enough.
  grow_cases {ℓ} :
      (P : Buffer → Type ℓ) (b : Buffer) (m : ℕ)
      → P (failing b)
      → ((block : List ℕ)
          → capacity b ≤ length block
          → m ≤ length block
          → length block ≤ size_max
          → P (moved b block))
      → P (grow alloc b m)
  unfolding grow
  grow_cases P b m fails moves = elim (Bool-cases (ltb (size_max / 2) (capacity b))) [
    | inl t ↦ rw (t, grow) fails
    | inr t ↦ rw (t, grow) (by_size t (double_until 65 (start_size b) m) refl)
  ]
    where
      by_size :
          ltb (size_max / 2) (capacity b) ≡ false
          → (d : Doubled) → double_until 65 (start_size b) m ≡ d
          → P (elim d [
            | ran_out ↦ failing b
            | too_large ↦ failing b
            | size n ↦ elim (alloc n) [ none ↦ failing b | some block ↦ moved b block ]
          ])
      by_size t ran_out e = fails
      by_size t too_large e = fails
      by_size t (size n) e = elim (Option-cases (alloc n)) [
        | inl a ↦ rw a fails
        | inr (block, a) ↦
            let got = double_until-size 65 (start_size b) m n (ground (arith, t)) e in
            let is_n = alloc_size n block a in
            rw a (
              moves block (ground (arith, t, got, is_n)) (omega (arith, got, is_n))
                (omega (arith, got, is_n)))
      ]

  pub grow-Keeps : (b : Buffer) (m : ℕ) → IsValid b → Keeps b (grow alloc b m)
  grow-Keeps b m v =
      grow_cases (Keeps b) b m (Keeps-failing b v) (λ block h _ s. Keeps-moved b block v h s)

  pub grow_room :
      (b : Buffer) (m : ℕ) → (grow alloc b m).failed ≡ false → m ≤ capacity (grow alloc b m)
  grow_room b m =
      grow_cases (λ b'. b'.failed ≡ false → m ≤ capacity b') b m (λ h. absurd (cc))
        (λ block _ h _ e. omega (arith, length-copy block 0 (written b)))

  pub ensure-Keeps : (b : Buffer) (k : ℕ) → IsValid b → Keeps b (ensure_capacity alloc b k).1
  unfolding ensure_capacity
  ensure-Keeps b k v = ground (arith, grow-Keeps b (b.write_pos + k) v)

  -- For a valid buffer, where ensureCapacity answers true the storage has room for `k` bytes more.
  pub ensure_room :
      (b : Buffer) (k : ℕ)
      → IsValid b
      → (ensure_capacity alloc b k).0 ≡ true
      → b.write_pos + k ≤ capacity (ensure_capacity alloc b k).1
  unfolding ensure_capacity
  ensure_room b k v e = ground (arith, grow_room b (b.write_pos + k))
