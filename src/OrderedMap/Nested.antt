-- ===== src/OrderedMap/Nested.antt =====
-- A map of maps, as in services_by_name_[name][key]: an inner map that runs empty is removed.
use omni_binder.Prelude.{
  ◌≡◌, ◌&&◌, Option, none, some, List, [], ◌∷◌, arith, if◌then◌else◌, Option-cases, inl, inr,
}
use omni_binder.OrderedMap.{Key, Map, find, insert, erase}
use omni_binder.OrderedMap.Laws.{find-insert, find-erase}

-- The inner map, empty where there is none.
abbrev pub or_empty {ℓ} : {A : Type ℓ} → Option (List A) → List A
or_empty none = []
or_empty (some m) = m

module _ {ℓ κ ι} {K : Type ℓ} {J : Type κ} {V : Type ι} ⦃o : Key K⦄ ⦃p : Key J⦄ where
  unfoldable pub find2 : K → J → Map K (Map J V) → Option V
  find2 n k m = elim (find n m) [ none ↦ none | some inner ↦ find k inner ]

  unfoldable pub insert2 : K → J → V → Map K (Map J V) → Map K (Map J V)
  insert2 n k v m = insert n (insert k v (or_empty (find n m))) m

  abbrev pub put_unless_empty : K → Map J V → Map K (Map J V) → Map K (Map J V)
  put_unless_empty n [] m = erase n m
  put_unless_empty n (e ∷ inner) m = insert n (e ∷ inner) m

  unfoldable pub erase2 : K → J → Map K (Map J V) → Map K (Map J V)
  erase2 n k m = elim (find n m) [ none ↦ m | some inner ↦ put_unless_empty n (erase k inner) m ]

  find-or_empty : (n : K) (k : J) (m : Map K (Map J V)) → find k (or_empty (find n m)) ≡ find2 n k m
  unfolding find2 find
  find-or_empty n k m = elim (Option-cases (find n m)) [
    | inl e ↦ rw (e, find2)
    | inr (i, e) ↦ rw (e, find2)
  ]

  pub find2-insert2 :
      (n n' : K) (k k' : J) (v : V) (m : Map K (Map J V))
      → find2 n' k' (insert2 n k v m)
        ≡ (if o.same n n' && p.same k k' then some v else find2 n' k' m)
  unfolding find2 insert2
  find2-insert2 n n' k k' v m = ground (
    arith,
    find-insert n n' (insert k v (or_empty (find n m))) m,
    find-insert k k' v (or_empty (find n m)),
    find-or_empty n k' m,
    o.same_iff n n',
  )

  find2-put_unless_empty :
      (n n' : K) (k' : J) (inner : Map J V) (m : Map K (Map J V))
      → find2 n' k' (put_unless_empty n inner m)
        ≡ (if o.same n n' then find k' inner else find2 n' k' m)
  unfolding find2 find
  find2-put_unless_empty n n' k' [] m = ground (arith, find-erase n n' m)
  find2-put_unless_empty n n' k' (e ∷ inner) m = ground (arith, find-insert n n' (e ∷ inner) m)

  pub find2_absent : (n : K) (k : J) (m : Map K (Map J V)) → find n m ≡ none → find2 n k m ≡ none
  unfolding find2
  find2_absent n k m e = rw (e, find2)

  pub find2_present :
      (n : K) (k : J) (i : Map J V) (m : Map K (Map J V))
      → find n m ≡ some i
      → find2 n k m ≡ find k i
  unfolding find2
  find2_present n k i m e = rw (e, find2)

  pub find2-erase2 :
      (n n' : K) (k k' : J) (m : Map K (Map J V))
      → find2 n' k' (erase2 n k m) ≡ (if o.same n n' && p.same k k' then none else find2 n' k' m)
  unfolding erase2
  find2-erase2 n n' k k' m = elim (Option-cases (find n m)) [
    | inl e ↦ rw (e, erase2) (ground (arith, o.same_iff n n', find2_absent n k' m e))
    | inr (i, e) ↦
        rw (e, erase2)
          (ground (
            arith,
            find2-put_unless_empty n n' k' (erase k i) m,
            find-erase k k' i,
            o.same_iff n n',
            find2_present n k' i m e,
          ))
  ]
