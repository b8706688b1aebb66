-- ===== src/OrderedMap/Each.antt =====
-- A property of all pairs of a map, after an insertion and a removal.
use omni_binder.Prelude.{◌≡◌, some, [], ◌∷◌, Bool-cases, inl, inr, arith, sym}
use omni_binder.OrderedMap.{Key, Map, find, contains, replace, add, insert, erase}

module _ {ℓ κ ι} {K : Type ℓ} {V : Type κ} ⦃o : Key K⦄ (P : K → V → Type ι) where
  abbrev pub Each : Map K V → Type ι
  Each [] = Unit
  Each ((k, v) ∷ m) = P k v × Each m

  pub Each-find : (k : K) (v : V) (m : Map K V) → Each m → find k m ≡ some v → P k v
  unfolding find
  Each-find k v [] all h = ground (arith, h)
  Each-find k v ((j, w) ∷ m) all h = elim (Bool-cases (o.same j k)) [
    | inl n ↦
        let same : j ≡ k = (o.same_iff j k).0 n in
        let value : w ≡ v = ground (arith, h, n) in rw (sym same, sym value) all.0
    | inr n ↦ Each-find k v m all.1 (rw (n, find) at h)
  ]

  Each-replace : (k : K) (v : V) (m : Map K V) → P k v → Each m → Each (replace k v m)
  unfolding replace
  Each-replace k v [] p all = all
  Each-replace k v ((j, w) ∷ m) p all = elim (Bool-cases (o.same j k)) [
    | inl n ↦ let same : j ≡ k = (o.same_iff j k).0 n in rw (n, replace) (rw same p, all.1)
    | inr n ↦ rw (n, replace) (all.0, Each-replace k v m p all.1)
  ]

  Each-add : (k : K) (v : V) (m : Map K V) → P k v → Each m → Each (add k v m)
  unfolding add
  Each-add k v [] p all = (p, all)
  Each-add k v ((j, w) ∷ m) p all = elim (Bool-cases (o.before k j)) [
    | inl n ↦ rw (n, add) (p, all)
    | inr n ↦ rw (n, add) (all.0, Each-add k v m p all.1)
  ]

  pub Each-insert : (k : K) (v : V) (m : Map K V) → P k v → Each m → Each (insert k v m)
  unfolding insert
  Each-insert k v m p all = elim (Bool-cases (contains k m)) [
    | inl h ↦ rw (h, insert) (Each-replace k v m p all)
    | inr h ↦ rw (h, insert) (Each-add k v m p all)
  ]

  pub Each-erase : (k : K) (m : Map K V) → Each m → Each (erase k m)
  unfolding erase
  Each-erase k [] all = all
  Each-erase k ((j, w) ∷ m) all = elim (Bool-cases (o.same j k)) [
    | inl n ↦ rw (n, erase) (Each-erase k m all.1)
    | inr n ↦ rw (n, erase) (all.0, Each-erase k m all.1)
  ]
