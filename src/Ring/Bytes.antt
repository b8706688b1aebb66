-- ===== src/Ring/Bytes.antt =====
-- The position arithmetic and the two-part copies of shm_ring.cpp, for positions inside of the ring.
use omni_binder.Prelude.{
  ℕ, zero, suc, ◌+◌, ◌-◌, ◌%◌, ◌≤◌, ◌<◌, ◌≡◌, refl, sym, ap, ◌∙◌, List, [], ◌∷◌, ◌++◌, arith, ltb,
  leb, if◌then◌else◌, length, take, drop, take-append-drop, length-take, length-drop, ap₂, u32_mod,
}
use native.Mathlib.Nat.{mod-eq_of_lt, mod-eq-sub-mod}
use omni_binder.Memory.{copy, slice}
use omni_binder.Ring.{Ring, advance_pos, unread, available_read, available_write, copy_wrapped}
use omni_binder.Ring.Window.{
  adv, window, store, copy-store, slice-window, store-append, window-append,
}

pub record IsValid (r : Ring) (cap : ℕ) : Type 0 where
  pub large : 64 ≤ cap
  pub word : cap + 4 ≤ u32_mod
  pub trusted : r.capacity ≡ cap
  pub area : length r.bytes ≡ cap
  pub write_in : r.write_pos < cap
  pub read_in : r.read_pos < cap

-- The bytes between the read position and the write position.
unfoldable pub used : Ring → ℕ → ℕ
used r cap =
    if leb r.read_pos r.write_pos then r.write_pos - r.read_pos else cap - r.read_pos + r.write_pos

abbrev pub contents : Ring → ℕ → List ℕ
contents r cap = window cap r.bytes r.read_pos (used r cap)

pub advance_pos-adv :
    (p k cap : ℕ) → p < cap → k ≤ cap → cap < u32_mod → advance_pos p k cap ≡ adv cap p k
unfolding advance_pos
advance_pos-adv p k cap hp hk hc = ground arith

pub unread-used : (r : Ring) {cap : ℕ} → IsValid r cap → unread r cap ≡ used r cap
unfolding unread used
unread-used r v = ground arith

pub available_read-used : (r : Ring) {cap : ℕ} → IsValid r cap → available_read r cap ≡ used r cap
unfolding available_read
available_read-used r v = ground (arith, unread-used r v)

pub used-lt : (r : Ring) {cap : ℕ} → IsValid r cap → used r cap < cap
unfolding used
used-lt r v = ground arith

pub available_write-used :
    (r : Ring) {cap : ℕ} → IsValid r cap → available_write r cap ≡ cap - 1 - used r cap
unfolding available_write
available_write-used r v = ground (arith, available_read-used r v, used-lt r v)

pub write_pos-adv :
    (r : Ring) {cap : ℕ} → IsValid r cap → r.write_pos ≡ adv cap r.read_pos (used r cap)
unfolding used
write_pos-adv r v = ground arith

pub used_of_adv :
    (r : Ring) (cap n : ℕ)
    → r.read_pos < cap
    → n < cap
    → r.write_pos ≡ adv cap r.read_pos n
    → used r cap ≡ n
unfolding used
used_of_adv r cap n hr hn e = ground arith

pub take_all : (n : ℕ) (xs : List ℕ) → length xs ≤ n → take n xs ≡ xs
take_all zero [] h = refl
take_all zero (x ∷ xs) h = absurd (omega arith)
take_all (suc n) [] h = refl
take_all (suc n) (x ∷ xs) h = ap (◌∷◌ x) (take_all n xs (omega arith))

module _ (cap : ℕ) where
  -- The first part ends at the end of the ring, and the second starts at its start.
  copy_two_parts :
      (bytes : List ℕ) (p room : ℕ) (bs : List ℕ)
      → p < cap
      → p + room ≡ cap
      → room < length bs
      → length bs ≤ cap
      → copy (copy bytes p (take room bs)) 0 (drop room bs) ≡ store cap bytes p bs
  copy_two_parts bytes p room bs hp e h hl =
      ap (λ d. copy d 0 (drop room bs)) (copy-store cap bytes p (take room bs) (omega (arith, lt)))
      ∙ copy-store cap (store cap bytes p (take room bs)) 0 (drop room bs) (omega (arith, ld))
      ∙ ap (λ q. store cap (store cap bytes p (take room bs)) q (drop room bs)) start
      ∙ sym (store-append cap bytes p (take room bs) (drop room bs) hp (omega (arith, lt)))
      ∙ ap (store cap bytes p) (take-append-drop room bs)
    where
      lt : length (take room bs) ≡ room
      lt = omega (arith, length-take room bs)

      ld : length (drop room bs) ≡ length bs - room
      ld = length-drop room bs

      start : 0 ≡ adv cap p (length (take room bs))
      start = rw lt (ground arith)

  -- Both parts of a copy come to storing the bytes round the end.
  pub copy_wrapped-store :
      (bytes : List ℕ) (p : ℕ) (bs : List ℕ)
      → p < cap
      → length bs ≤ cap
      → cap < u32_mod
      → copy_wrapped bytes p bs cap ≡ store cap bytes p bs
  unfolding copy_wrapped
  copy_wrapped-store bytes p bs hp hl hc = ground (
    arith,
    copy_two_parts bytes p (cap - p) bs hp,
    take_all (length bs) bs,
    take_all (cap - p) bs,
    copy-store cap bytes p bs,
  )

  slice_two_parts :
      (bytes : List ℕ) (p room n : ℕ)
      → p < cap
      → p + room ≡ cap
      → room < n
      → n ≤ cap
      → slice bytes p room ++ slice bytes 0 (n - room) ≡ window cap bytes p n
  slice_two_parts bytes p room n hp e h hn =
      ap₂ ◌++◌ (slice-window cap bytes p room (omega arith)) (
        slice-window cap bytes 0 (n - room) (omega arith)
        ∙ ap (λ q. window cap bytes q (n - room)) start)
      ∙ sym (window-append cap bytes p room (n - room) hp (omega arith))
      ∙ ap (window cap bytes p) {y = n} (omega arith)
    where
      start : 0 ≡ adv cap p room
      start = ground arith

  -- Both parts of a read come to the bytes from `p` on, round the end.
  pub slices-window :
      (bytes : List ℕ) (p n : ℕ)
      → p < cap
      → n ≤ cap
      → (if ltb n (cap - p)
          then slice bytes p n
          else if ltb (cap - p) n
          then slice bytes p (cap - p) ++ slice bytes 0 (n - (cap - p))
          else slice bytes p (cap - p))
        ≡ window cap bytes p n
  slices-window bytes p n hp hn =
      ground (arith, slice_two_parts bytes p (cap - p) n hp, slice-window cap bytes p n)

  -- The index of a byte of the length, which the source takes by `%`.
  pub wrap-mod :
      (p k : ℕ)
      → p < cap
      → k < 4
      → 4 ≤ cap
      → cap + 4 ≤ u32_mod
      → (p + k) % u32_mod % cap ≡ adv cap p k
  wrap-mod p k hp hk hc h = ground (
    arith,
    mod-eq_of_lt {n = p + k} {m = cap},
    mod-eq-sub-mod {n = p + k} {m = cap},
    mod-eq_of_lt {n = p + k - cap} {m = cap},
  )
