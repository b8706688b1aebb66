-- ===== src/Ring/Send.antt =====
-- shmRingWriteFrame: what a frame that fits leaves in the ring, and that one that does not fit leaves
-- the ring alone.
use omni_binder.Prelude.{
  ℕ, ◌+◌, ◌≤◌, ◌<◌, ◌≡◌, refl, sym, ap, ◌∙◌, List, ◌++◌, arith, Bool, ltb, ltb→lt, Bool-cases, inl,
  inr, if◌then◌else◌, false, ◌==◌, ◌||◌, ◌&&◌, length, bytes32, u32_mod,
}
use omni_binder.Ring.{Ring, advance_pos, copy_wrapped, write_frame, send_frame}
use omni_binder.Ring.Window.{adv, window, store, adv-lt, length-store, store-append, window-store}
use omni_binder.Ring.Bytes.{
  IsValid, used, contents, advance_pos-adv, available_write-used, available_read-used, used-lt,
  write_pos-adv, used_of_adv, copy_wrapped-store,
}

-- A frame as it stands in the ring.
abbrev pub encode : List ℕ → List ℕ
encode f = bytes32 (length f) ++ f

pub adv-adv : (cap p j k : ℕ) → p < cap → j + k ≤ cap → adv cap (adv cap p j) k ≡ adv cap p (j + k)
adv-adv cap p j k hp h = ground arith

-- What a write of bytes `bs` just past the used ones leaves.
module _ (r r' : Ring) {cap : ℕ} (bs : List ℕ) (v : IsValid r cap)
    (room : used r cap + length bs < cap) (area : r'.bytes ≡ store cap r.bytes r.write_pos bs)
    (writes : r'.write_pos ≡ adv cap r.write_pos (length bs)) (reads : r'.read_pos ≡ r.read_pos)
    (trusts : r'.capacity ≡ r.capacity) where
  write_past : r'.write_pos ≡ adv cap r'.read_pos (used r cap + length bs)
  write_past =
      writes
      ∙ ap (λ w. adv cap w (length bs)) (write_pos-adv r v)
      ∙ adv-adv cap r.read_pos (used r cap) (length bs) v.read_in (omega arith)
      ∙ ap (λ p. adv cap p (used r cap + length bs)) (sym reads)

  used_past : used r' cap ≡ used r cap + length bs
  used_past = used_of_adv r' cap (used r cap + length bs) (omega arith) room write_past

  write_past-IsValid : IsValid r' cap
  write_past-IsValid = record {
    large = v.large;
    word = v.word;
    trusted = trusts ∙ v.trusted;
    area = ap length area ∙ length-store cap r.bytes r.write_pos bs ∙ v.area;
    write_in = omega (arith, writes, adv-lt cap r.write_pos (length bs) v.write_in (omega arith));
    read_in = omega arith;
  }

  contents_past : contents r' cap ≡ contents r cap ++ bs
  contents_past =
      ap (λ n. window cap r'.bytes r'.read_pos n) used_past
      ∙ ap (λ p. window cap r'.bytes p (used r cap + length bs)) reads
      ∙ ap (λ b. window cap b r.read_pos (used r cap + length bs)) area
      ∙ ap (λ w. window cap (store cap r.bytes w bs) r.read_pos (used r cap + length bs))
          (write_pos-adv r v)
      ∙ window-store cap r.bytes r.read_pos (used r cap) bs v.area v.read_in (omega arith)

-- The ring after a write of `bs` just past the used bytes.
abbrev stored : Ring → ℕ → List ℕ → Ring
stored r cap bs = record r {
  bytes = store cap r.bytes r.write_pos bs;
  write_pos = adv cap r.write_pos (length bs);
}

write_frame-stored :
    (r : Ring) {cap : ℕ} (f : List ℕ)
    → IsValid r cap
    → used r cap + (4 + length f) < cap
    → write_frame r f cap ≡ (4 + length f, stored r cap (encode f))
unfolding write_frame
write_frame-stored r {cap} f v h =
    ground (arith, available_write-used r v, used-lt r v, copied, moved)
  where
    copied :
        copy_wrapped
          (copy_wrapped r.bytes r.write_pos (bytes32 (length f)) cap)
          (advance_pos r.write_pos 4 cap)
          f
          cap
        ≡ store cap r.bytes r.write_pos (encode f)
    copied =
        ap (λ b. copy_wrapped b (advance_pos r.write_pos 4 cap) f cap)
          (copy_wrapped-store cap r.bytes r.write_pos (bytes32 (length f)) v.write_in (omega arith)
            (omega arith))
        ∙ ap (λ p. copy_wrapped (store cap r.bytes r.write_pos (bytes32 (length f))) p f cap)
            (advance_pos-adv r.write_pos 4 cap v.write_in (omega arith) (omega arith))
        ∙ copy_wrapped-store cap (store cap r.bytes r.write_pos (bytes32 (length f)))
            (adv cap r.write_pos 4) f (adv-lt cap r.write_pos 4 v.write_in (omega arith))
            (omega arith) (omega arith)
        ∙ sym (store-append cap r.bytes r.write_pos (bytes32 (length f)) f v.write_in (omega arith))

    moved :
        advance_pos (advance_pos r.write_pos 4 cap) (length f) cap
        ≡ adv cap r.write_pos (length (encode f))
    moved =
        ap (λ p. advance_pos p (length f) cap)
          (advance_pos-adv r.write_pos 4 cap v.write_in (omega arith) (omega arith))
        ∙ advance_pos-adv (adv cap r.write_pos 4) (length f) cap
            (adv-lt cap r.write_pos 4 v.write_in (omega arith)) (omega arith) (omega arith)
        ∙ adv-adv cap r.write_pos 4 (length f) v.write_in (omega arith)
        ∙ ap (adv cap r.write_pos) {y = length (encode f)} (omega arith)

-- A frame that fits is written whole, after what the ring held.
pub write_frame-fits :
    (r : Ring) {cap : ℕ} (f : List ℕ)
    → IsValid r cap
    → used r cap + (4 + length f) < cap
    → let (n, r') = write_frame r f cap in
      (n ≡ 4 + length f)
      × IsValid r' cap
      × (contents r' cap ≡ contents r cap ++ encode f)
      × (used r' cap ≡ used r cap + (4 + length f))
      × (r'.read_pos ≡ r.read_pos)
write_frame-fits r {cap} f v h = rw (write_frame-stored r f v h) (
  refl,
  write_past-IsValid r r' (encode f) v room refl refl refl refl,
  contents_past r r' (encode f) v room refl refl refl refl,
  used_past r r' (encode f) v room refl refl refl refl ∙ omega arith,
  refl,
)
  where
    r' : Ring
    r' = stored r cap (encode f)

    room : used r cap + length (encode f) < cap
    room = omega arith

-- One that does not fit changes nothing.
pub write_frame-full :
    (r : Ring) {cap : ℕ} (f : List ℕ)
    → IsValid r cap
    → 4 + length f < u32_mod
    → cap ≤ used r cap + (4 + length f)
    → write_frame r f cap ≡ (0, r)
unfolding write_frame
write_frame-full r f v hf h = ground (arith, available_write-used r v, used-lt r v)

pub send_frame-fits :
    (r : Ring) {cap : ℕ} (f : List ℕ) (has_fd : Bool) (later : ℕ)
    → IsValid r cap
    → used r cap + (4 + length f) < cap
    → send_frame r cap f has_fd later ≡ record {
      written = 4 + length f;
      notified = (used r cap == 0 || later == r.write_pos) && has_fd;
      ring = (write_frame r f cap).1;
    }
unfolding send_frame
send_frame-fits r f has_fd later v h =
    ground (arith, available_read-used r v, (write_frame-fits r f v h).0)

pub send_frame-full :
    (r : Ring) {cap : ℕ} (f : List ℕ) (has_fd : Bool) (later : ℕ)
    → IsValid r cap
    → 4 + length f < u32_mod
    → cap ≤ used r cap + (4 + length f)
    → send_frame r cap f has_fd later ≡ record { written = 0; notified = false; ring = r }
unfolding send_frame
send_frame-full r f has_fd later v hf h = ground (arith, write_frame-full r f v hf h)

-- On a valid ring shmRingSendFrame takes a frame of less than 2^32 - 4 bytes whole or not at all: where
-- it fits with its four bytes, the ring holds behind its bytes the length and the frame, and the answer
-- is how many these are; where it does not, the ring holds what it held and the answer is 0. The ring
-- stays valid and the read position stays. It notifies just when the frame fits, there is a
-- descriptor to do so, and the ring was empty or the consumer has meanwhile (`later`) come up to where
-- the frame starts.
pub contents-send_frame :
    (r : Ring) {cap : ℕ} (f : List ℕ) (has_fd : Bool) (later : ℕ)
    → IsValid r cap
    → 4 + length f < u32_mod
    → let s = send_frame r cap f has_fd later in
      let room = ltb (used r cap + (4 + length f)) cap in
      IsValid s.ring cap
      × (contents s.ring cap
          ≡ (if room then contents r cap ++ (bytes32 (length f) ++ f) else contents r cap))
      × (s.ring.read_pos ≡ r.read_pos)
      × (s.written ≡ (if room then 4 + length f else 0))
      × (s.notified ≡ room && has_fd && (used r cap == 0 || later == r.write_pos))
contents-send_frame r {cap} f has_fd later v hf =
    elim (Bool-cases (ltb (used r cap + (4 + length f)) cap)) [
      | inl t ↦
          let fits = ltb→lt (used r cap + (4 + length f)) cap t in
          let (whole, valid, holds, more, reads) = write_frame-fits r f v fits in
          rw (t, send_frame-fits r f has_fd later v fits) (valid, holds, reads, refl, ground arith)
      | inr t ↦
          rw (t, send_frame-full r f has_fd later v hf (ground (arith, t)))
            (v, refl, refl, refl, refl)
    ]
