-- ===== src/Ring/Receive.antt =====
-- shmInspectFrame, shmRingRead and shmRingRecvFrame: which frame a receive takes, and what it leaves.
use native.Mathlib.Nat.{mod-eq_of_lt}
use omni_binder.Prelude.{
  ℕ, suc, ◌+◌, ◌-◌, ◌%◌, ◌≤◌, ◌<◌, ◌≡◌, refl, sym, ap, ◌∙◌, List, [], ◌∷◌, ◌++◌, arith, ltb,
  if◌then◌else◌, length, get_or, length-append, bytes32, word32, u32_mod, word32-bytes32,
  Bool-cases, ltb→lt, inl, inr, ◌≢◌,
}
use omni_binder.Ring.{
  Ring, max_message_size, read, Inspection, complete, incomplete, corrupt, length_prefix,
  check_length, inspect_frame, frame, failed, nothing, recv_frame,
}
use omni_binder.Ring.Window.{adv, window, adv-lt, adv_last, length-window, window-append}
use omni_binder.Ring.Bytes.{
  IsValid, used, contents, advance_pos-adv, unread-used, available_read-used, used-lt,
  write_pos-adv, used_of_adv, slices-window, wrap-mod,
}
use omni_binder.Ring.Send.{encode, adv-adv}

append-injective :
    (xs ys cs ds : List ℕ) → length xs ≡ length ys → xs ++ cs ≡ ys ++ ds → (xs ≡ ys) × (cs ≡ ds)
append-injective [] [] cs ds h e = (refl, e)
append-injective [] (y ∷ ys) cs ds h e = absurd (omega arith)
append-injective (x ∷ xs) [] cs ds h e = absurd (omega arith)
append-injective (x ∷ xs) (y ∷ ys) cs ds h e =
    let rest = append-injective xs ys cs ds (omega arith) (cc) in (cc (rest.0), rest.1)

-- The ring after `n` bytes were taken.
abbrev taken : Ring → ℕ → ℕ → Ring
taken r cap n = record r { read_pos = adv cap r.read_pos n }

module _ (r : Ring) {cap : ℕ} (n : ℕ) (v : IsValid r cap) (h : n ≤ used r cap) where
  taken-IsValid : IsValid (taken r cap n) cap
  taken-IsValid = record {
    large = v.large;
    word = v.word;
    trusted = v.trusted;
    area = v.area;
    write_in = v.write_in;
    read_in = adv-lt cap r.read_pos n v.read_in (omega (arith, used-lt r v));
  }

  used-taken : used (taken r cap n) cap ≡ used r cap - n
  used-taken =
      used_of_adv (taken r cap n) cap (used r cap - n) taken-IsValid.read_in
        (omega (arith, used-lt r v))
        (write_pos-adv r v
          ∙ ap (adv cap r.read_pos) {y = n + (used r cap - n)} (omega arith)
          ∙ sym (adv-adv cap r.read_pos n (used r cap - n) v.read_in (omega (arith, used-lt r v))))

  contents-taken : contents r cap ≡ window cap r.bytes r.read_pos n ++ contents (taken r cap n) cap
  contents-taken =
      ap (window cap r.bytes r.read_pos) {y = n + (used r cap - n)} (omega arith)
      ∙ window-append cap r.bytes r.read_pos n (used r cap - n) v.read_in
          (omega (arith, used-lt r v))
      ∙ ap (λ k. window cap r.bytes r.read_pos n ++ window cap r.bytes (adv cap r.read_pos n) k)
          (sym used-taken)

  -- shmRingRead takes `n` bytes, where the ring holds that many.
  read-taken : 0 < n → read r n cap ≡ (window cap r.bytes r.read_pos n, taken r cap n)
  unfolding read
  read-taken h0 = ground (
    arith,
    available_read-used r v,
    used-lt r v,
    slices-window cap r.bytes r.read_pos n v.read_in,
    advance_pos-adv r.read_pos n cap v.read_in,
  )

-- The length before a frame is read from the first four bytes that the ring holds.
length_prefix-window :
    (bytes : List ℕ) (p cap k : ℕ)
    → p < cap
    → 64 ≤ cap
    → cap + 4 ≤ u32_mod
    → length_prefix bytes p cap ≡ word32 (window cap bytes p (suc (suc (suc (suc k)))))
unfolding length_prefix
length_prefix-window bytes p cap k hp hc hw = omega (
  arith,
  ap (λ j. get_or bytes j 0) (mod-eq_of_lt hp),
  at 1 (omega arith) refl,
  at 2 (omega arith) second,
  at 3 (omega arith) third,
)
  where
    second : adv cap p 2 ≡ adv cap (adv cap p 1) 1
    second = sym (adv_last cap p 1 hp (omega arith))

    third : adv cap p 3 ≡ adv cap (adv cap (adv cap p 1) 1) 1
    third = sym (
        ap (λ q. adv cap q 1) (adv_last cap p 1 hp (omega arith))
        ∙ adv_last cap p 2 hp (omega arith))

    at :
        (i : ℕ) {q : ℕ}
        → i < 4
        → adv cap p i ≡ q
        → get_or bytes ((p + i) % u32_mod % cap) 0 ≡ get_or bytes q 0
    at i hi e = ap (λ j. get_or bytes j 0) (wrap-mod cap p i hp hi (omega arith) hw ∙ e)

length_prefix-contents :
    (r : Ring) {cap : ℕ}
    → IsValid r cap
    → 4 ≤ used r cap
    → length_prefix r.bytes r.read_pos cap ≡ word32 (contents r cap)
length_prefix-contents r {cap} v h =
    length_prefix-window r.bytes r.read_pos cap (used r cap - 4) v.read_in v.large v.word
    ∙ ap (λ n. word32 (window cap r.bytes r.read_pos n))
        {x = suc (suc (suc (suc (used r cap - 4))))} (omega arith)

-- What shmInspectFrame answers, from the bytes that the ring holds.
pub inspect_frame-contents :
    (r : Ring) {cap : ℕ}
    → IsValid r cap
    → inspect_frame r cap ≡ (
        if ltb (used r cap) 4
        then incomplete
        else check_length (used r cap) (word32 (contents r cap)) cap)
unfolding inspect_frame
inspect_frame-contents r {cap} v = ground (arith, unread-used r v, length_prefix-contents r v)

module _ (r : Ring) {cap : ℕ} (f rest : List ℕ) (v : IsValid r cap)
    (holds : contents r cap ≡ encode f ++ rest) (some_bytes : 0 < length f)
    (small : length f ≤ max_message_size) where
  used-frame : used r cap ≡ 4 + length f + length rest
  used-frame =
      sym (length-window cap r.bytes r.read_pos (used r cap))
      ∙ ap length holds
      ∙ omega (arith, length-append (encode f) rest)

  -- The next frame is found complete, with its length.
  pub inspect_frame-holds : inspect_frame r cap ≡ complete (length f)
  unfolding check_length
  inspect_frame-holds =
      ground (
        arith,
        inspect_frame-contents r v,
        used-frame,
        used-lt r v,
        holds,
        word32-bytes32 (length f),
      )

  frame_split :
      (window cap r.bytes r.read_pos 4 ≡ bytes32 (length f))
      × (contents (taken r cap 4) cap ≡ f ++ rest)
  frame_split =
      append-injective (window cap r.bytes r.read_pos 4) (bytes32 (length f))
        (contents (taken r cap 4) cap) (f ++ rest) refl
        (sym (contents-taken r 4 v (omega (arith, used-frame))) ∙ holds)

-- A length that passes the tests.
inspect_frame-complete :
    (r : Ring) {cap n : ℕ}
    → IsValid r cap
    → inspect_frame r cap ≡ complete n
    → (0 < n) × (n ≤ max_message_size) × (4 + n ≤ used r cap)
unfolding check_length
inspect_frame-complete r v e = ground (arith, inspect_frame-contents r v, used-lt r v)

module _ (r : Ring) {cap n : ℕ} (out_size : ℕ) (v : IsValid r cap)
    (found : inspect_frame r cap ≡ complete n) where
  -- The payload after its length.
  abbrev payload : List ℕ
  payload = window cap r.bytes (adv cap r.read_pos 4) n

  bounds : (0 < n) × (n ≤ max_message_size) × (4 + n ≤ used r cap)
  bounds = inspect_frame-complete r v found

  enough : n ≤ used (taken r cap 4) cap
  enough = omega (arith, bounds, used-taken r 4 v (omega (arith, bounds)))

  recv_frame-payload :
      n ≤ out_size → recv_frame r cap out_size ≡ (frame payload, taken (taken r cap 4) cap n)
  unfolding recv_frame
  recv_frame-payload h =
      rw (found, recv_frame)
        (ground (
          arith,
          advance_pos-adv r.read_pos 4 cap v.read_in,
          read-taken (taken r cap 4) n (taken-IsValid r 4 v (omega (arith, bounds))) enough
              bounds.0,
          length-window cap r.bytes (adv cap r.read_pos 4) n,
        ))

  recv_frame-no_room : out_size < n → recv_frame r cap out_size ≡ (failed, r)
  unfolding recv_frame
  recv_frame-no_room h = rw (found, recv_frame) (ground arith)

-- A receive keeps a valid ring valid, whatever bytes the ring holds.
pub recv_frame-IsValid :
    (r : Ring) {cap : ℕ} (out_size : ℕ) → IsValid r cap → IsValid (recv_frame r cap out_size).1 cap
unfolding recv_frame
recv_frame-IsValid r {cap} out_size v = by_inspection (inspect_frame r cap) refl
  where
    by_inspection :
        (i : Inspection) → inspect_frame r cap ≡ i → IsValid (recv_frame r cap out_size).1 cap
    by_inspection corrupt e = rw (e, recv_frame) v
    by_inspection incomplete e = rw (e, recv_frame) v
    by_inspection (complete n) e = elim (Bool-cases (ltb out_size n)) [
      | inl t ↦ rw (recv_frame-no_room r out_size v e (ltb→lt out_size n t)) v
      | inr t ↦ rw (recv_frame-payload r out_size v e (ground arith)) (
          taken-IsValid (taken r cap 4) n
            (taken-IsValid r 4 v (omega (arith, bounds r out_size v e))) (enough r out_size v e))
    ]

-- On a valid ring, whatever bytes it holds, a receive that takes no frame leaves the ring as it was.
pub recv_frame-unchanged :
    (r : Ring) {cap : ℕ} (out_size : ℕ)
    → IsValid r cap
    → ((f : List ℕ) → (recv_frame r cap out_size).0 ≢ frame f)
    → (recv_frame r cap out_size).1 ≡ r
unfolding recv_frame
recv_frame-unchanged r {cap} out_size v none_taken = by_inspection (inspect_frame r cap) refl
  where
    by_inspection : (i : Inspection) → inspect_frame r cap ≡ i → (recv_frame r cap out_size).1 ≡ r
    by_inspection corrupt e = rw (e, recv_frame)
    by_inspection incomplete e = rw (e, recv_frame)
    by_inspection (complete n) e = elim (Bool-cases (ltb out_size n)) [
      | inl t ↦ ap (λ p. p.1) (recv_frame-no_room r out_size v e (ltb→lt out_size n t))
      | inr t ↦ absurd (
          none_taken (payload r out_size v e)
            (ap (λ p. p.0) (recv_frame-payload r out_size v e (ground arith))))
    ]

-- The frame that was sent comes back whole, and what stood behind it is what the ring then holds.
pub recv_frame-holds :
    (r : Ring) {cap : ℕ} (f rest : List ℕ) (out_size : ℕ)
    → IsValid r cap
    → contents r cap ≡ encode f ++ rest
    → 0 < length f
    → length f ≤ max_message_size
    → length f ≤ out_size
    → let (got, r') = recv_frame r cap out_size in
      (got ≡ frame f) × IsValid r' cap × (contents r' cap ≡ rest)
recv_frame-holds r {cap} f rest out_size v holds some_bytes small fits =
    rw (recv_frame-payload r out_size v found fits) (
      ap frame parts.0,
      taken-IsValid (taken r cap 4) (length f) v4 (enough r out_size v found),
      parts.1,
    )
  where
    found : inspect_frame r cap ≡ complete (length f)
    found = inspect_frame-holds r f rest v holds some_bytes small

    v4 : IsValid (taken r cap 4) cap
    v4 = taken-IsValid r 4 v (omega (arith, bounds r out_size v found))

    parts :
        (window cap r.bytes (adv cap r.read_pos 4) (length f) ≡ f)
        × (contents (taken (taken r cap 4) cap (length f)) cap ≡ rest)
    parts =
        append-injective (window cap r.bytes (adv cap r.read_pos 4) (length f)) f
          (contents (taken (taken r cap 4) cap (length f)) cap) rest
          (length-window cap r.bytes (adv cap r.read_pos 4) (length f))
          (sym (contents-taken (taken r cap 4) (length f) v4 (enough r out_size v found))
            ∙ (frame_split r f rest v holds some_bytes small).1)

-- Where there is no room for it at `out` the frame stays.
pub recv_frame-small :
    (r : Ring) {cap : ℕ} (f rest : List ℕ) (out_size : ℕ)
    → IsValid r cap
    → contents r cap ≡ encode f ++ rest
    → 0 < length f
    → length f ≤ max_message_size
    → out_size < length f
    → recv_frame r cap out_size ≡ (failed, r)
recv_frame-small r f rest out_size v holds some_bytes small lt =
    recv_frame-no_room r out_size v (inspect_frame-holds r f rest v holds some_bytes small) lt

pub recv_frame-empty :
    (r : Ring) {cap : ℕ} (out_size : ℕ)
    → IsValid r cap
    → used r cap ≡ 0
    → recv_frame r cap out_size ≡ (nothing, r)
unfolding recv_frame
recv_frame-empty r {cap} out_size v e = rw (inspect_frame-contents r v, e, recv_frame)
