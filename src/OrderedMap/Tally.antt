-- ===== src/OrderedMap/Tally.antt =====
-- The number of items of a map of maps, in all and under each outer key, after a change.
use omni_binder.Prelude.{
  ℕ, ◌+◌, ◌≡◌, refl, true, false, Option, none, some, List, [], ◌∷◌, arith, if◌then◌else◌, length,
  Option-cases, inl, inr,
}
use omni_binder.OrderedMap.{Key, Map, find, contains, insert, erase, Distinct}
use omni_binder.OrderedMap.Laws.{
  find-insert, find-erase, length-insert, erase_absent, Distinct-insert, Distinct-erase,
}
use omni_binder.OrderedMap.Nested.{or_empty, insert2, erase2, put_unless_empty}
use omni_binder.OrderedMap.Sums.{sum, share, sum-insert, sum-erase}

module _ {ℓ κ} {K : Type ℓ} {V : Type κ} ⦃o : Key K⦄ where
  pub length-erase :
      (k : K) (m : Map K V) → Distinct m → contains k m ≡ true → length (erase k m) + 1 ≡ length m
  unfolding erase find
  length-erase k [] d h = cc
  length-erase k ((j, w) ∷ m) d h =
      ground (arith, length-erase k m d.1, erase_absent k m, o.same_iff j k, d.0)

share-length {ℓ} : {A : Type ℓ} (x : Option (List A)) → share length x ≡ length (or_empty x)
share-length none = refl
share-length (some m) = refl

module _ {ℓ κ ι} {K : Type ℓ} {J : Type κ} {V : Type ι} ⦃o : Key K⦄ ⦃p : Key J⦄ where
  -- The number of items under an outer key.
  abbrev pub tally : K → Map K (Map J V) → ℕ
  tally k m = length (or_empty (find k m))

  abbrev pub Plain : Map K (Map J V) → Type (ℓ ⊔ κ ⊔ ι)
  Plain m = Distinct m × ((k : K) → Distinct (or_empty (find k m)))

  pub tally-insert2 :
      (k j : K) (i : J) (v : V) (m : Map K (Map J V))
      → contains i (or_empty (find k m)) ≡ false
      → tally j (insert2 k i v m) ≡ tally j m + (if o.same k j then 1 else 0)
  unfolding insert2
  tally-insert2 k j i v m h = ground (
    arith,
    find-insert k j (insert i v (or_empty (find k m))) m,
    length-insert i v (or_empty (find k m)),
    o.same_iff k j,
  )

  pub sum-insert2 :
      (k : K) (i : J) (v : V) (m : Map K (Map J V))
      → contains i (or_empty (find k m)) ≡ false
      → sum length (insert2 k i v m) ≡ sum length m + 1
  unfolding insert2
  sum-insert2 k i v m h = ground (
    arith,
    sum-insert length k (insert i v (or_empty (find k m))) m,
    length-insert i v (or_empty (find k m)),
    share-length (find k m),
  )

  pub tally-erase :
      (k j : K) (m : Map K (Map J V)) → tally j (erase k m) ≡ (if o.same k j then 0 else tally j m)
  tally-erase k j m = ground (arith, find-erase k j m)

  pub sum-erase_all :
      (k : K) (m : Map K (Map J V)) → Distinct m → sum length (erase k m) + tally k m ≡ sum length m
  sum-erase_all k m d = ground (arith, sum-erase length k m d, share-length (find k m))

  tally-put_unless_empty :
      (k j : K) (i : Map J V) (m : Map K (Map J V))
      → tally j (put_unless_empty k i m) ≡ (if o.same k j then length i else tally j m)
  tally-put_unless_empty k j [] m = ground (arith, find-erase k j m)
  tally-put_unless_empty k j (e ∷ i) m = ground (arith, find-insert k j (e ∷ i) m)

  sum-put_unless_empty :
      (k : K) (i : Map J V) (m : Map K (Map J V))
      → Distinct m
      → sum length (put_unless_empty k i m) + tally k m ≡ sum length m + length i
  sum-put_unless_empty k [] m d = ground (arith, sum-erase_all k m d)
  sum-put_unless_empty k (e ∷ i) m d =
      ground (arith, sum-insert length k (e ∷ i) m, share-length (find k m))

  pub tally-erase2 :
      (k j : K) (i : J) (m : Map K (Map J V))
      → Plain m
      → contains i (or_empty (find k m)) ≡ true
      → tally j (erase2 k i m) + (if o.same k j then 1 else 0) ≡ tally j m
  unfolding erase2 find
  tally-erase2 k j i m d h = elim (Option-cases (find k m)) [
    | inl e ↦ ground (arith, e, h)
    | inr (inner, e) ↦
        rw (e, erase2)
          (ground (
            arith,
            e,
            tally-put_unless_empty k j (erase i inner) m,
            length-erase i inner (rw e at (d.1 k)),
            o.same_iff k j,
          ))
  ]

  pub sum-erase2 :
      (k : K) (i : J) (m : Map K (Map J V))
      → Plain m
      → contains i (or_empty (find k m)) ≡ true
      → sum length (erase2 k i m) + 1 ≡ sum length m
  unfolding erase2 find
  sum-erase2 k i m d h = elim (Option-cases (find k m)) [
    | inl e ↦ ground (arith, e, h)
    | inr (inner, e) ↦
        rw (e, erase2)
          (ground (
            arith,
            e,
            sum-put_unless_empty k (erase i inner) m d.0,
            length-erase i inner (rw e at (d.1 k)),
          ))
  ]

  Plain-put :
      (k : K) (i : Map J V) (m : Map K (Map J V)) → Plain m → Distinct i → Plain (insert k i m)
  Plain-put k i m d di = (
    Distinct-insert k i m d.0,
    λ j.
        rw (find-insert k j i m)
          (elim (o.same k j) as (λ b. Distinct (or_empty (if b then some i else find j m))) [
            | true ↦ di
            | false ↦ d.1 j
          ]),
  )

  pub Plain-insert2 :
      (k : K) (i : J) (v : V) (m : Map K (Map J V)) → Plain m → Plain (insert2 k i v m)
  unfolding insert2
  Plain-insert2 k i v m d =
      Plain-put k (insert i v (or_empty (find k m))) m d
        (Distinct-insert i v (or_empty (find k m)) (d.1 k))

  pub Plain-erase : (k : K) (m : Map K (Map J V)) → Plain m → Plain (erase k m)
  Plain-erase k m d = (
    Distinct-erase k m d.0,
    λ j.
        rw (find-erase k j m)
          (elim (o.same k j) as (λ b. Distinct (or_empty (if b then none else find j m))) [
            | true ↦ tt
            | false ↦ d.1 j
          ]),
  )

  Plain-put_unless_empty :
      (k : K) (i : Map J V) (m : Map K (Map J V))
      → Plain m
      → Distinct i
      → Plain (put_unless_empty k i m)
  Plain-put_unless_empty k [] m d di = Plain-erase k m d
  Plain-put_unless_empty k (e ∷ i) m d di = Plain-put k (e ∷ i) m d di

  pub Plain-erase2 : (k : K) (i : J) (m : Map K (Map J V)) → Plain m → Plain (erase2 k i m)
  unfolding erase2
  Plain-erase2 k i m d = elim (Option-cases (find k m)) [
    | inl e ↦ rw (e, erase2) d
    | inr (inner, e) ↦
        rw (e, erase2)
          (Plain-put_unless_empty k (erase i inner) m d (Distinct-erase i inner (rw e at (d.1 k))))
  ]
