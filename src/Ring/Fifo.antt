-- ===== src/Ring/Fifo.antt =====
-- shmRingSendFrame and shmRingRecvFrame against the queue of the frames that the ring holds.
use omni_binder.Prelude.{
  ℕ, ◌+◌, ◌<◌, ◌≡◌, refl, sym, ap, ap₂, ◌∙◌, inl, inr, Bool, ◌&&◌, ◌||◌, List, [], ◌∷◌, ◌++◌,
  append_assoc, append-nil, arith, ltb, ◌==◌, length, length-append, Bool-cases, ltb→lt,
}
use omni_binder.Ring.{Ring, send_frame, recv_frame}
use omni_binder.Ring.Window.{length-window}
use omni_binder.Ring.Bytes.{IsValid, used, contents}
use omni_binder.Ring.Send.{encode, write_frame-fits, send_frame-fits, send_frame-full}
use omni_binder.Ring.Receive.{recv_frame-holds, recv_frame-small, recv_frame-empty}
use omni_binder.Ring.Queue.{
  Op, send, recv, sent, received, weight, is_empty, push, pop, run_queue, run_ring, IsSendable,
  AllSendable, OpsSendable,
}

-- The frames one after another.
abbrev pub encode_all : List (List ℕ) → List ℕ
encode_all [] = []
encode_all (f ∷ q) = encode f ++ encode_all q

length-encode_all : (q : List (List ℕ)) → length (encode_all q) ≡ weight q
length-encode_all [] = refl
length-encode_all (f ∷ q) = omega (arith, length-append f (encode_all q), length-encode_all q)

encode_all-snoc :
    (q : List (List ℕ)) (f : List ℕ) → encode_all (q ++ f ∷ []) ≡ encode_all q ++ encode f
encode_all-snoc [] f = append-nil (encode f)
encode_all-snoc (g ∷ q) f =
    ap (◌++◌ (encode g)) (encode_all-snoc q f)
    ∙ sym (append_assoc (encode g) (encode_all q) (encode f))

AllSendable-snoc :
    (q : List (List ℕ)) (f : List ℕ) → AllSendable q → IsSendable f → AllSendable (q ++ f ∷ [])
AllSendable-snoc [] f a s = (s, tt)
AllSendable-snoc (g ∷ q) f a s = (a.0, AllSendable-snoc q f a.1 s)

-- The ring holds the frames `q`, and no other byte.
pub record Holds (r : Ring) (cap : ℕ) (q : List (List ℕ)) : Type 0 where
  pub valid : IsValid r cap
  pub frames : contents r cap ≡ encode_all q
  pub sendable : AllSendable q

used-Holds : (r : Ring) {cap : ℕ} (q : List (List ℕ)) → Holds r cap q → used r cap ≡ weight q
used-Holds r {cap} q h =
    sym (length-window cap r.bytes r.read_pos (used r cap))
    ∙ ap length h.frames
    ∙ length-encode_all q

-- The ring is empty when the positions agree, and just then the queue is.
drained-is_empty :
    (r : Ring) {cap : ℕ} (q : List (List ℕ))
    → Holds r cap q
    → (used r cap == 0 || r.read_pos == r.write_pos) ≡ is_empty q
unfolding used
drained-is_empty r [] h = ground (arith, used-Holds r [] h)
drained-is_empty r (f ∷ q) h = ground (arith, used-Holds r (f ∷ q) h)

-- On a ring that holds the frames of a queue, sending a frame of 1 byte to 16 MiB answers as `push` does
-- on the queue, and leaves a ring that holds the frames of the queue that `push` leaves.
pub send_refines :
    (r : Ring) {cap : ℕ} (q : List (List ℕ)) (has_fd : Bool) (f : List ℕ)
    → Holds r cap q
    → IsSendable f
    → let s = send_frame r cap f has_fd r.read_pos in
      let (a, q') = push cap has_fd q f in (sent s.written s.notified ≡ a) × Holds s.ring cap q'
unfolding push
send_refines r {cap} q has_fd f h s = elim (Bool-cases (ltb (weight q + (4 + length f)) cap)) [
  | inl t ↦
      let fits : used r cap + (4 + length f) < cap = omega (arith, ltb→lt, used-Holds r q h, t) in
      let wrote = write_frame-fits r f h.valid fits in
      rw (t, push, send_frame-fits r f has_fd r.read_pos h.valid fits)
        (
          ap (λ b. sent (4 + length f) (b && has_fd)) (drained-is_empty r q h),
          record {
            valid = wrote.1;
            frames = wrote.2 ∙ ap (λ l. l ++ encode f) h.frames ∙ sym (encode_all-snoc q f);
            sendable = AllSendable-snoc q f h.sendable s;
          },
        )
  | inr t ↦
      rw
        (
          t,
          push,
          send_frame-full r f has_fd r.read_pos h.valid (omega arith)
              (ground (arith, used-Holds r q h)),
        )
        (refl, h)
]

-- On a ring that holds the frames of a queue, a receive answers as `pop` does on the queue, whatever the
-- size of its buffer, and leaves a ring that holds the frames of the queue that `pop` leaves.
pub recv_refines :
    (r : Ring) {cap : ℕ} (q : List (List ℕ)) (n : ℕ)
    → Holds r cap q
    → let (a, r') = recv_frame r cap n in
      let (b, q') = pop q n in (received a ≡ b) × Holds r' cap q'
unfolding pop
recv_refines r {cap} [] n h = rw (recv_frame-empty r n h.valid (used-Holds r [] h)) (refl, h)
recv_refines r {cap} (f ∷ q) n h = elim (Bool-cases (ltb n (length f))) [
  | inl t ↦
      rw
        (
          t,
          pop,
          recv_frame-small r f (encode_all q) n h.valid h.frames h.sendable.0.0 h.sendable.0.1
              (ltb→lt n (length f) t),
        )
        (refl, h)
  | inr t ↦
      let got =
        recv_frame-holds r f (encode_all q) n h.valid h.frames h.sendable.0.0 h.sendable.0.1
          (ground arith) in
      rw (t, pop)
        (ap received got.0, record { valid = got.1; frames = got.2; sendable = h.sendable.1 })
]

-- From a ring that holds the frames of a queue, any sequence of sends, of frames of 1 byte to 16 MiB, and
-- of receives is answered just as the bounded first-in first-out queue answers it.
pub run_refines :
    (ops : List Op) (r : Ring) {cap : ℕ} (q : List (List ℕ)) (has_fd : Bool)
    → Holds r cap q
    → OpsSendable ops
    → run_ring cap has_fd r ops ≡ run_queue cap has_fd q ops
unfolding run_ring run_queue
run_refines [] r q has_fd h s = refl
run_refines (send f ∷ ops) r q has_fd h s =
    let step = send_refines r q has_fd f h s.0 in
    ap₂ ◌∷◌ step.0 (run_refines ops _ _ has_fd step.1 s.1)
run_refines (recv n ∷ ops) r q has_fd h s =
    let step = recv_refines r q n h in ap₂ ◌∷◌ step.0 (run_refines ops _ _ has_fd step.1 s)
