-- ===== src/OrderedMap/Sums.antt =====
-- The sum of a measure over the values of a map, after an insertion and a removal.
use omni_binder.Prelude.{ℕ, ◌+◌, ◌≤◌, ◌≡◌, refl, true, Option, none, some, [], ◌∷◌, arith}
use omni_binder.OrderedMap.{Key, Map, find, contains, replace, add, insert, erase, Distinct}
use omni_binder.OrderedMap.Laws.{erase_absent, same_refl}

abbrev pub sum {ℓ κ} : {K : Type ℓ} {V : Type κ} → (V → ℕ) → Map K V → ℕ
sum measure [] = 0
sum measure ((k, v) ∷ m) = measure v + sum measure m

abbrev pub share {κ} : {V : Type κ} → (V → ℕ) → Option V → ℕ
share measure none = 0
share measure (some v) = measure v

module _ {ℓ κ} {K : Type ℓ} {V : Type κ} ⦃o : Key K⦄ (measure : V → ℕ) where
  sum-replace :
      (k : K) (v : V) (m : Map K V)
      → contains k m ≡ true
      → sum measure (replace k v m) + share measure (find k m) ≡ sum measure m + measure v
  unfolding replace find
  sum-replace k v [] h = cc
  sum-replace k v ((j, w) ∷ m) h = ground (arith, sum-replace k v m)

  sum-add : (k : K) (v : V) (m : Map K V) → sum measure (add k v m) ≡ sum measure m + measure v
  unfolding add
  sum-add k v [] = ground arith
  sum-add k v ((j, w) ∷ m) = ground (arith, sum-add k v m)

  -- What the key had goes, and the new value comes.
  pub sum-insert :
      (k : K) (v : V) (m : Map K V)
      → sum measure (insert k v m) + share measure (find k m) ≡ sum measure m + measure v
  unfolding insert
  sum-insert k v m = ground (arith, sum-replace k v m, sum-add k v m)

  pub sum-erase :
      (k : K) (m : Map K V)
      → Distinct m
      → sum measure (erase k m) + share measure (find k m) ≡ sum measure m
  unfolding erase find
  sum-erase k [] d = ground arith
  sum-erase k ((j, w) ∷ m) d =
      ground (arith, sum-erase k m d.1, erase_absent k m, o.same_iff j k, d.0)

  pub share-le-sum : (k : K) (m : Map K V) → share measure (find k m) ≤ sum measure m
  unfolding find
  share-le-sum k [] = ground arith
  share-le-sum k ((j, w) ∷ m) = ground (arith, share-le-sum k m)

  pub sum-replaced :
      (k : K) (v w : V) (m : Map K V)
      → find k m ≡ some v
      → sum measure (insert k w m) + measure v ≡ sum measure m + measure w
  sum-replaced k v w m e = rw e at (sum-insert k w m)

  pub sum-inserted :
      (k : K) (w : V) (m : Map K V)
      → find k m ≡ none
      → sum measure (insert k w m) ≡ sum measure m + measure w
  sum-inserted k w m e = omega (arith, rw e at (sum-insert k w m))

  pub sum-erased :
      (k : K) (v : V) (m : Map K V)
      → Distinct m
      → find k m ≡ some v
      → sum measure (erase k m) + measure v ≡ sum measure m
  sum-erased k v m d e = rw e at (sum-erase k m d)

  rest_zero :
      (j : K) (w : V) (m : Map K V)
      → find j m ≡ none
      → ((k : K) → share measure (find k ((j, w) ∷ m)) ≡ 0)
      → (k : K) → share measure (find k m) ≡ 0
  unfolding find
  rest_zero j w m d h k = ground (arith, h k, o.same_iff j k)

  -- Where no value counts, the sum is 0.
  pub sum_zero :
      (m : Map K V) → Distinct m → ((k : K) → share measure (find k m) ≡ 0) → sum measure m ≡ 0
  unfolding find
  sum_zero [] d h = refl
  sum_zero ((j, w) ∷ m) d h =
      let head : measure w ≡ 0 = ground (arith, h j, same_refl j) in
      omega (arith, head, sum_zero m d.1 (rest_zero j w m d.0 h))
