-- ===== src/Ring/Window.antt =====
-- The data area of a ring, read and written byte by byte round its end: what the two-part memcpy
-- calls of shm_ring.cpp come to.
use omni_binder.Prelude.{
  ℕ, zero, suc, ◌+◌, ◌-◌, ◌≤◌, ◌<◌, ◌≡◌, refl, sym, ap, ap₂, ◌∙◌, ◌≢◌, List, [], ◌∷◌, ◌++◌, arith,
  ltb, if◌then◌else◌, length, get_or, set, length-set,
}
use omni_binder.Memory.{copy, slice}

module _ {ℓ} {A : Type ℓ} where
  pub get_or-set_self :
      (xs : List A) (i : ℕ) (v d : A) → i < length xs → get_or (set xs i v) i d ≡ v
  get_or-set_self [] i v d h = absurd (omega arith)
  get_or-set_self (x ∷ xs) zero v d h = refl
  get_or-set_self (x ∷ xs) (suc i) v d h = get_or-set_self xs i v d (omega arith)

  pub get_or-set_ne :
      (xs : List A) (i j : ℕ) (v d : A) → i ≢ j → get_or (set xs i v) j d ≡ get_or xs j d
  get_or-set_ne [] i j v d h = refl
  get_or-set_ne (x ∷ xs) zero zero v d h = absurd (h refl)
  get_or-set_ne (x ∷ xs) zero (suc j) v d h = refl
  get_or-set_ne (x ∷ xs) (suc i) zero v d h = refl
  get_or-set_ne (x ∷ xs) (suc i) (suc j) v d h = get_or-set_ne xs i j v d (λ e. h (ap suc e))

module _ (cap : ℕ) where
  -- The position `k` bytes on, for `k` up to `cap`.
  abbrev pub adv : ℕ → ℕ → ℕ
  adv p k = if ltb (p + k) cap then p + k else p + k - cap

  -- The `n` bytes from `p` on.
  abbrev pub window : List ℕ → ℕ → ℕ → List ℕ
  window bytes p zero = []
  window bytes p (suc n) = get_or bytes p 0 ∷ window bytes (adv p 1) n

  -- Bytes stored one after another from `p` on.
  abbrev pub store : List ℕ → ℕ → List ℕ → List ℕ
  store bytes p [] = bytes
  store bytes p (b ∷ bs) = store (set bytes p b) (adv p 1) bs

  pub length-window : (bytes : List ℕ) (p n : ℕ) → length (window bytes p n) ≡ n
  length-window bytes p zero = refl
  length-window bytes p (suc n) = ap suc (length-window bytes (adv p 1) n)

  pub length-store :
      (bytes : List ℕ) (p : ℕ) (bs : List ℕ) → length (store bytes p bs) ≡ length bytes
  length-store bytes p [] = refl
  length-store bytes p (b ∷ bs) = length-store (set bytes p b) (adv p 1) bs ∙ length-set bytes p b

  pub adv_first : (p k : ℕ) → p < cap → suc k ≤ cap → adv (adv p 1) k ≡ adv p (suc k)
  adv_first p k hp h = ground arith

  pub adv_last : (p k : ℕ) → p < cap → suc k ≤ cap → adv (adv p k) 1 ≡ adv p (suc k)
  adv_last p k hp h = ground arith

  pub adv-lt : (p k : ℕ) → p < cap → k ≤ cap → adv p k < cap
  adv-lt p k hp h = ground arith

  pub adv-zero : (p : ℕ) → p < cap → adv p 0 ≡ p
  adv-zero p hp = ground arith

  adv-ne : (p k : ℕ) → p < cap → 0 < k → k < cap → adv p k ≢ p
  adv-ne p k hp h0 h = ground arith

  pub window-append :
      (bytes : List ℕ) (p n m : ℕ)
      → p < cap
      → n ≤ cap
      → window bytes p (n + m) ≡ window bytes p n ++ window bytes (adv p n) m
  window-append bytes p zero m hp h = rw (adv-zero p hp) (ap (window bytes p) (omega arith))
  window-append bytes p (suc n) m hp h =
      ap (window bytes p) {y = suc (n + m)} (omega arith)
      ∙ ap (λ l. get_or bytes p 0 ∷ l)
          (rw (← adv_first p n hp h)
            (window-append bytes (adv p 1) n m (adv-lt p 1 hp (omega arith)) (omega arith)))

  -- A byte is left alone by what is stored `k` bytes on, short of coming round to it.
  get_or-store_ne :
      (bytes : List ℕ) (p k : ℕ) (bs : List ℕ)
      → p < cap
      → 0 < k
      → k + length bs ≤ cap
      → get_or (store bytes (adv p k) bs) p 0 ≡ get_or bytes p 0
  get_or-store_ne bytes p k [] hp h0 h = refl
  get_or-store_ne bytes p k (b ∷ bs) hp h0 h =
      rw (adv_last p k hp (omega arith))
        (get_or-store_ne (set bytes (adv p k) b) p (suc k) bs hp (omega arith) (omega arith))
      ∙ get_or-set_ne bytes (adv p k) p b 0 (adv-ne p k hp h0 (omega arith))

  -- So are the `n` bytes before it.
  pub window-store_ne :
      (bytes : List ℕ) (p n k : ℕ) (bs : List ℕ)
      → p < cap
      → n ≤ k
      → k + length bs ≤ cap
      → window (store bytes (adv p k) bs) p n ≡ window bytes p n
  window-store_ne bytes p zero k bs hp hn h = refl
  window-store_ne bytes p (suc n) zero bs hp hn h = absurd (omega arith)
  window-store_ne bytes p (suc n) (suc k) [] hp hn h = refl
  window-store_ne bytes p (suc n) (suc k) (b ∷ bs) hp hn h =
      ap₂ ◌∷◌ (get_or-store_ne bytes p (suc k) (b ∷ bs) hp (omega arith) h) (
        ap (λ q. window (store bytes q (b ∷ bs)) (adv p 1) n) (sym (adv_first p k hp (omega arith)))
        ∙ window-store_ne bytes (adv p 1) n k (b ∷ bs) (adv-lt p 1 hp (omega arith)) (omega arith)
            (omega arith))

  -- What is stored is read back.
  pub window-store_self :
      (bytes : List ℕ) (p : ℕ) (bs : List ℕ)
      → length bytes ≡ cap
      → p < cap
      → length bs ≤ cap
      → window (store bytes p bs) p (length bs) ≡ bs
  window-store_self bytes p [] hl hp h = refl
  window-store_self bytes p (b ∷ bs) hl hp h =
      ap₂ ◌∷◌
        (get_or-store_ne (set bytes p b) p 1 bs hp (omega arith) (omega arith)
          ∙ get_or-set_self bytes p b 0 (omega arith))
        (window-store_self (set bytes p b) (adv p 1) bs (length-set bytes p b ∙ hl)
          (adv-lt p 1 hp (omega arith)) (omega arith))

  -- Storing just past `n` bytes extends them.
  pub window-store :
      (bytes : List ℕ) (p n : ℕ) (bs : List ℕ)
      → length bytes ≡ cap
      → p < cap
      → n + length bs ≤ cap
      → window (store bytes (adv p n) bs) p (n + length bs) ≡ window bytes p n ++ bs
  window-store bytes p n bs hl hp h =
      window-append (store bytes (adv p n) bs) p n (length bs) hp (omega arith)
      ∙ ap₂ ◌++◌ (window-store_ne bytes p n n bs hp (omega arith) h)
          (window-store_self bytes (adv p n) bs hl (adv-lt p n hp (omega arith)) (omega arith))

  pub store-append :
      (bytes : List ℕ) (p : ℕ) (bs cs : List ℕ)
      → p < cap
      → length bs ≤ cap
      → store bytes p (bs ++ cs) ≡ store (store bytes p bs) (adv p (length bs)) cs
  store-append bytes p [] cs hp h = rw (adv-zero p hp)
  store-append bytes p (b ∷ bs) cs hp h =
      rw (← adv_first p (length bs) hp h)
        (store-append (set bytes p b) (adv p 1) bs cs (adv-lt p 1 hp (omega arith)) (omega arith))

  -- A memcpy that stays below the end stores its bytes one after another.
  pub copy-store :
      (bytes : List ℕ) (p : ℕ) (bs : List ℕ)
      → p + length bs ≤ cap
      → copy bytes p bs ≡ store bytes p bs
  unfolding copy
  copy-store bytes p [] h = refl
  copy-store bytes p (b ∷ []) h = refl
  copy-store bytes p (b ∷ c ∷ bs) h =
      copy-store (set bytes p b) (p + 1) (c ∷ bs) (omega arith)
      ∙ ap (λ q. store (set bytes p b) q (c ∷ bs)) (ground arith)

  pub slice-window : (bytes : List ℕ) (p n : ℕ) → p + n ≤ cap → slice bytes p n ≡ window bytes p n
  unfolding slice
  slice-window bytes p zero h = refl
  slice-window bytes p (suc zero) h = refl
  slice-window bytes p (suc (suc n)) h = ap (◌∷◌ (get_or bytes p 0)) (
      slice-window bytes (p + 1) (suc n) (omega arith)
      ∙ ap (λ q. window bytes q (suc n)) (ground arith))
