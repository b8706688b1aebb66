-- ===== src/OrderedMap/Keys.antt =====
-- The key types: descriptors and sequence numbers, and byte strings.
use omni_binder.Prelude.{
  ℕ, ◌≡◌, refl, ◌↔◌, Bool, true, false, ◌&&◌, List, [], ◌∷◌, arith, ltb, ◌==◌, ==_iff,
}
use omni_binder.OrderedMap.{Key}

-- A std::string: its bytes.
abbrev pub Name : Type 0
Name = List ℕ

unfoldable pub name_eq : Name → Name → Bool
name_eq [] [] = true
name_eq [] (b ∷ bs) = false
name_eq (a ∷ xs) [] = false
name_eq (a ∷ xs) (b ∷ bs) = a == b && name_eq xs bs

-- The lexicographic order of std::string::compare.
unfoldable pub name_before : Name → Name → Bool
name_before [] [] = false
name_before [] (b ∷ bs) = true
name_before (a ∷ xs) [] = false
name_before (a ∷ xs) (b ∷ bs) = elim (a == b) [ true ↦ name_before xs bs | false ↦ ltb a b ]

pub name_eq_iff : (xs ys : Name) → (name_eq xs ys ≡ true) ↔ (xs ≡ ys)
unfolding name_eq
name_eq_iff [] [] = (λ _. refl, λ _. refl)
name_eq_iff [] (b ∷ bs) = (λ h. cc, λ h. cc)
name_eq_iff (a ∷ xs) [] = (λ h. cc, λ h. cc)
name_eq_iff (a ∷ xs) (b ∷ bs) = ground (arith, name_eq_iff xs bs)

instance abbrev pub number_key : Key ℕ
number_key = record { same = ◌==◌; before = ltb; same_iff = ==_iff }

instance abbrev pub name_key : Key Name
name_key = record { same = name_eq; before = name_before; same_iff = name_eq_iff }
