-- ===== src/OrderedMap.antt =====
-- std::map and std::set, as the sources use them: an association list in the order of its keys, with
-- each key once. `begin()` is the head. A key type brings its tests as an instance of `Key`.
pub mod Keys
pub mod Laws
pub mod Nested
pub mod Sums
pub mod Tally
pub mod Each
use omni_binder.Prelude.{
  ℕ, ◌≡◌, ◌↔◌, Bool, true, false, Option, none, some, List, [], ◌∷◌, if◌then◌else◌, length,
}

pub record Key {ℓ} (K : Type ℓ) : Type ℓ where
  pub same : K → K → Bool
  pub before : K → K → Bool
  pub same_iff : (a b : K) → (same a b ≡ true) ↔ (a ≡ b)

abbrev pub is_some {ℓ} : {A : Type ℓ} → Option A → Bool
is_some none = false
is_some (some a) = true

abbrev pub Map {ℓ κ} : Type ℓ → Type κ → Type (ℓ ⊔ κ)
Map K V = List (K × V)

module _ {ℓ κ} {K : Type ℓ} {V : Type κ} ⦃o : Key K⦄ where
  unfoldable pub find : K → Map K V → Option V
  find k [] = none
  find k ((j, w) ∷ m) = if o.same j k then some w else find k m

  abbrev pub contains : K → Map K V → Bool
  contains k m = is_some (find k m)

  unfoldable pub replace : K → V → Map K V → Map K V
  replace k v [] = []
  replace k v ((j, w) ∷ m) = if o.same j k then (j, v) ∷ m else (j, w) ∷ replace k v m

  unfoldable pub add : K → V → Map K V → Map K V
  add k v [] = (k, v) ∷ []
  add k v ((j, w) ∷ m) = if o.before k j then (k, v) ∷ (j, w) ∷ m else (j, w) ∷ add k v m

  -- m[k] = v
  unfoldable pub insert : K → V → Map K V → Map K V
  unfolding replace add
  insert k v m = if contains k m then replace k v m else add k v m

  unfoldable pub erase : K → Map K V → Map K V
  erase k [] = []
  erase k ((j, w) ∷ m) = if o.same j k then erase k m else (j, w) ∷ erase k m

-- A set is a map whose values carry nothing.
abbrev pub Set {ℓ} : Type ℓ → Type ℓ
Set K = Map K (Unit {0})

abbrev pub keys {ℓ κ} : {K : Type ℓ} {V : Type κ} → Map K V → List K
keys [] = []
keys ((k, v) ∷ m) = k ∷ keys m

-- Each key stands once.
abbrev pub Distinct {ℓ κ} : {K : Type ℓ} {V : Type κ} ⦃o : Key K⦄ → Map K V → Type κ
Distinct [] = Unit
Distinct ((k, v) ∷ m) = (find k m ≡ none) × Distinct m
