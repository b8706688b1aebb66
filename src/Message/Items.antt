-- ===== src/Message/Items.antt =====
-- The loops over a counted list of items in the payloads of message.h and message.cpp.
use omni_binder.Prelude.{
  ℕ, zero, suc, ◌<◌, ◌≡◌, Bool, true, false, Option, some, List, [], ◌∷◌, ◌++◌, append-nil, ltb,
  if◌then◌else◌, length, bytes16, u16_mod, Bool-cases, inl, inr,
}
use omni_binder.Buffer.{Buffer, write_uint16, ◌andthen◌}
use omni_binder.Buffer.Appends.{
  Appends, Appends-nothing, Appends-andthen, Wrote-refused, put_uint16,
}
use omni_binder.Reader.{Reader, ◌>>=◌, done, read_uint16}
use omni_binder.Reader.Decodes.{Decodes, Decodes-done, Decodes-bind, get_uint16}

abbrev pub All : {A : Type 0} → (A → Type 0) → List A → Type 0
All P [] = Unit {0}
All P (x ∷ xs) = P x × All P xs

module _ {A : Type 0} where
  pub write_each :
      (ℕ → Option (List ℕ)) → (A → Buffer → Bool × Buffer) → List A → Buffer → Bool × Buffer
  write_each alloc write [] b = (true, b)
  write_each alloc write (x ∷ xs) b = ◌andthen◌ alloc (write x) (write_each alloc write xs) b

  -- A 16-bit count and the items; too many to count are refused.
  unfoldable pub write_counted :
      (ℕ → Option (List ℕ)) → (A → Buffer → Bool × Buffer) → List A → Buffer → Bool × Buffer
  write_counted alloc write xs b =
      if ltb 65535 (length xs)
      then (false, b)
      else ◌andthen◌ alloc (write_uint16 alloc (length xs)) (write_each alloc write xs) b

  pub read_each : Reader A → ℕ → Reader (List A)
  read_each read zero = done []
  read_each read (suc n) = do x ← read; xs ← read_each read n; done (x ∷ xs)

  unfoldable pub read_counted : Reader A → Reader (List A)
  read_counted read = do n ← read_uint16; read_each read n

  abbrev pub encode_each : (A → List ℕ) → List A → List ℕ
  encode_each encode [] = []
  encode_each encode (x ∷ xs) = encode x ++ encode_each encode xs

  abbrev pub encode_counted : (A → List ℕ) → List A → List ℕ
  encode_counted encode xs = bytes16 (length xs) ++ encode_each encode xs

  module _ (alloc : ℕ → Option (List ℕ))
      (alloc_size : (n : ℕ) (block : List ℕ) → alloc n ≡ some block → length block ≡ n)
      (write : A → Buffer → Bool × Buffer) (encode : A → List ℕ)
      (appends : (x : A) → Appends (write x) (encode x)) where
    write_each-Appends : (xs : List A) → Appends (write_each alloc write xs) (encode_each encode xs)
    unfolding write_each
    write_each-Appends [] = Appends-nothing
    write_each-Appends (x ∷ xs) =
        Appends-andthen alloc alloc_size (write x) (write_each alloc write xs) (encode x)
          (encode_each encode xs) (appends x) (write_each-Appends xs)

    pub write_counted-Appends :
        (xs : List A) → Appends (write_counted alloc write xs) (encode_counted encode xs)
    unfolding write_counted
    write_counted-Appends xs b v = elim (Bool-cases (ltb 65535 (length xs))) [
      | inl t ↦ rw (t, write_counted) (Wrote-refused b (encode_counted encode xs) v)
      | inr t ↦
          rw (t, write_counted)
            (put_uint16 alloc alloc_size (length xs) (write_each alloc write xs)
              (encode_each encode xs) (write_each-Appends xs) b v)
    ]

  module _ (read : Reader A) (encode : A → List ℕ) (IsGood : A → Type 0)
      (decodes : (x : A) → IsGood x → Decodes read (encode x) x) where
    pub read_each-Decodes :
        (xs : List A)
        → All IsGood xs
        → Decodes (read_each read (length xs)) (encode_each encode xs) xs
    unfolding read_each
    read_each-Decodes [] g = Decodes-done []
    read_each-Decodes (x ∷ xs) g =
        Decodes-bind read (λ y. read_each read (length xs) >>= λ ys. done (y ∷ ys)) (encode x)
          (encode_each encode xs) x (x ∷ xs) (decodes x g.0)
          (rw (← append-nil (encode_each encode xs)) (
            Decodes-bind (read_each read (length xs)) (λ ys. done (x ∷ ys)) (encode_each encode xs)
              [] xs (x ∷ xs) (read_each-Decodes xs g.1) (Decodes-done (x ∷ xs))))

    pub read_counted-Decodes :
        (xs : List A)
        → length xs < u16_mod
        → All IsGood xs
        → Decodes (read_counted read) (encode_counted encode xs) xs
    unfolding read_counted
    read_counted-Decodes xs h g =
        get_uint16 (length xs) (read_each read) (encode_each encode xs) h (read_each-Decodes xs g)
