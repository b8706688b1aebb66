-- ===== src/OrderedMap/Laws.antt =====
-- What a lookup and the size answer after an insertion and a removal.
use omni_binder.Prelude.{
  suc, ◌≤◌, ◌≡◌, refl, false, true, false, none, some, [], ◌∷◌, arith, if◌then◌else◌, length,
  Bool-cases, inl, inr,
}
use omni_binder.OrderedMap.{Key, Map, find, contains, replace, add, insert, erase, Distinct}

pub same_refl {ℓ} : {K : Type ℓ} ⦃o : Key K⦄ (k : K) → o.same k k ≡ true
same_refl ⦃o⦄ k = (o.same_iff k k).1 refl

module _ {ℓ κ} {K : Type ℓ} {V : Type κ} ⦃o : Key K⦄ where
  find-replace :
      (k j : K) (v : V) (m : Map K V)
      → contains k m ≡ true
      → find j (replace k v m) ≡ (if o.same k j then some v else find j m)
  unfolding find replace
  find-replace k j v [] h = cc
  find-replace k j v ((i, w) ∷ m) h =
      ground (arith, o.same_iff k j, o.same_iff i k, o.same_iff i j, find-replace k j v m)

  find-add :
      (k j : K) (v : V) (m : Map K V)
      → contains k m ≡ false
      → find j (add k v m) ≡ (if o.same k j then some v else find j m)
  unfolding find add
  find-add k j v [] h = refl
  find-add k j v ((i, w) ∷ m) h =
      ground (arith, o.same_iff k j, o.same_iff i k, o.same_iff i j, find-add k j v m)

  pub find-insert :
      (k j : K) (v : V) (m : Map K V)
      → find j (insert k v m) ≡ (if o.same k j then some v else find j m)
  unfolding insert
  find-insert k j v m = elim (Bool-cases (contains k m)) [
    | inl h ↦ rw (h, insert) (find-replace k j v m h)
    | inr h ↦ rw (h, insert) (find-add k j v m h)
  ]

  pub find-erase :
      (k j : K) (m : Map K V) → find j (erase k m) ≡ (if o.same k j then none else find j m)
  unfolding find erase
  find-erase k j [] = ground arith
  find-erase k j ((i, w) ∷ m) =
      ground (arith, o.same_iff k j, o.same_iff i k, o.same_iff i j, find-erase k j m)

  length-replace : (k : K) (v : V) (m : Map K V) → length (replace k v m) ≡ length m
  unfolding replace
  length-replace k v [] = refl
  length-replace k v ((i, w) ∷ m) = ground (arith, length-replace k v m)

  length-add : (k : K) (v : V) (m : Map K V) → length (add k v m) ≡ suc (length m)
  unfolding add
  length-add k v [] = refl
  length-add k v ((i, w) ∷ m) = ground (arith, length-add k v m)

  pub length-insert :
      (k : K) (v : V) (m : Map K V)
      → length (insert k v m) ≡ (if contains k m then length m else suc (length m))
  unfolding insert
  length-insert k v m = ground (arith, length-replace k v m, length-add k v m)

  pub length-erase-le : (k : K) (m : Map K V) → length (erase k m) ≤ length m
  unfolding erase
  length-erase-le k [] = omega arith
  length-erase-le k ((i, w) ∷ m) = ground (arith, length-erase-le k m)

  pub erase_absent : (k : K) (m : Map K V) → find k m ≡ none → erase k m ≡ m
  unfolding find erase
  erase_absent k [] h = refl
  erase_absent k ((i, w) ∷ m) h = ground (arith, erase_absent k m)

  find-replace_absent :
      (k j : K) (v : V) (m : Map K V) → find j m ≡ none → find j (replace k v m) ≡ none
  unfolding find replace
  find-replace_absent k j v [] h = refl
  find-replace_absent k j v ((i, w) ∷ m) h = ground (arith, find-replace_absent k j v m)

  Distinct-replace : (k : K) (v : V) (m : Map K V) → Distinct m → Distinct (replace k v m)
  unfolding replace find
  Distinct-replace k v [] d = tt
  Distinct-replace k v ((i, w) ∷ m) d =
      ground (arith, Distinct-replace k v m d.1, find-replace_absent k i v m)

  Distinct-add :
      (k : K) (v : V) (m : Map K V) → contains k m ≡ false → Distinct m → Distinct (add k v m)
  unfolding add find
  Distinct-add k v [] h d = (refl, tt)
  Distinct-add k v ((i, w) ∷ m) h d =
      ground (arith, Distinct-add k v m, find-add k i v m, o.same_iff i k, o.same_iff k i)

  pub Distinct-insert : (k : K) (v : V) (m : Map K V) → Distinct m → Distinct (insert k v m)
  unfolding insert
  Distinct-insert k v m d = elim (Bool-cases (contains k m)) [
    | inl h ↦ rw (h, insert) (Distinct-replace k v m d)
    | inr h ↦ rw (h, insert) (Distinct-add k v m h d)
  ]

  pub Distinct-erase : (k : K) (m : Map K V) → Distinct m → Distinct (erase k m)
  unfolding erase
  Distinct-erase k [] d = tt
  Distinct-erase k ((i, w) ∷ m) d = ground (arith, Distinct-erase k m d.1, find-erase k i m)
