-- ===== src/Topics/EntryKeys.antt =====
-- entryKey of TopicManager tells its arguments apart.
use omni_binder.Prelude.{
  ℕ, zero, suc, ◌+◌, ◌*◌, ◌-◌, ◌/◌, ◌%◌, ◌<◌, ◌≡◌, refl, List, [], ◌∷◌, ◌++◌, ap, arith, ltb,
  length, Bool-cases, inl, inr,
}
use omni_binder.OrderedMap.Keys.{Name}
use omni_binder.Topics.{digits, decimal, entry_key}

-- The number that digits stand for.
number : ℕ → List ℕ → ℕ
number n [] = n
number n (d ∷ ds) = number (10 * n + (d - 48)) ds

number-snoc : (n d : ℕ) (ds : List ℕ) → number n (ds ++ d ∷ []) ≡ 10 * number n ds + (d - 48)
unfolding number
number-snoc n d [] = refl
number-snoc n d (c ∷ ds) = number-snoc (10 * n + (c - 48)) d ds

number-digits : (fuel n : ℕ) → n < fuel → number 0 (digits fuel n) ≡ n
unfolding digits number
number-digits zero n h = omega (arith, h)
number-digits (suc fuel) n h =
    let front = number-digits fuel (n / 10) in
    ground (arith, h, front, number-snoc 0 (48 + n % 10) (digits fuel (n / 10)))

-- Every element is below 58, the colon.
AllDigits : List ℕ → Type 0
AllDigits [] = Unit
AllDigits (d ∷ ds) = (d < 58) × AllDigits ds

AllDigits-snoc : (d : ℕ) (ds : List ℕ) → d < 58 → AllDigits ds → AllDigits (ds ++ d ∷ [])
unfolding AllDigits
AllDigits-snoc d [] h a = (h, tt)
AllDigits-snoc d (c ∷ ds) h a = (a.0, AllDigits-snoc d ds h a.1)

digits-AllDigits : (fuel n : ℕ) → AllDigits (digits fuel n)
unfolding digits AllDigits
digits-AllDigits zero n = tt
digits-AllDigits (suc fuel) n = elim (Bool-cases (ltb n 10)) [
  | inl h ↦ rw h (ground (arith, h), tt)
  | inr h ↦ rw h (
      AllDigits-snoc (48 + n % 10) (digits fuel (n / 10)) (omega arith)
        (digits-AllDigits fuel (n / 10)))
]

-- Two texts are the same up to their first colon.
split_at_colon :
    (xs ys r t : List ℕ)
    → AllDigits xs
    → AllDigits ys
    → xs ++ 58 ∷ r ≡ ys ++ 58 ∷ t
    → (xs ≡ ys) × (r ≡ t)
unfolding AllDigits
split_at_colon [] [] r t a b h = ground (arith, h)
split_at_colon [] (y ∷ ys) r t a b h = ground (arith, h, b.0)
split_at_colon (x ∷ xs) [] r t a b h = ground (arith, h, a.0)
split_at_colon (x ∷ xs) (y ∷ ys) r t a b h =
    let heads : x ≡ y = ground (arith, h) in
    let tails = split_at_colon xs ys r t a.1 b.1 (ground (arith, h)) in ground (arith, heads, tails)

split_at_length :
    (xs ys r t : List ℕ) → length xs ≡ length ys → xs ++ r ≡ ys ++ t → (xs ≡ ys) × (r ≡ t)
split_at_length [] [] r t n h = (refl, h)
split_at_length [] (y ∷ ys) r t n h = ground (arith, n)
split_at_length (x ∷ xs) [] r t n h = ground (arith, n)
split_at_length (x ∷ xs) (y ∷ ys) r t n h =
    let heads : x ≡ y = ground (arith, h) in
    let tails = split_at_length xs ys r t (omega (arith, n)) (ground (arith, h)) in
    ground (arith, heads, tails)

-- Two pairs of a service and a topic with the same key are the same pair, whatever characters the
-- names have.
pub entry_key_injective :
    (service service' topic topic' : Name)
    → entry_key service topic ≡ entry_key service' topic'
    → (service ≡ service') × (topic ≡ topic')
unfolding entry_key decimal
entry_key_injective service service' topic topic' h =
    let n = length service in
    let n' = length service' in
    let parts =
      split_at_colon (decimal n) (decimal n') (service ++ topic) (service' ++ topic')
        (digits-AllDigits (suc n) n) (digits-AllDigits (suc n') n') h in
    let sizes : n ≡ n' = cc (
      number-digits (suc n) n (omega arith),
      number-digits (suc n') n' (omega arith),
      ap (number 0) parts.0,
    ) in
    split_at_length service service' topic topic' sizes parts.1
