-- ===== src/Ring/Queue.antt =====
-- What a channel promises: a queue of whole frames, bounded by the bytes that they take.
use omni_binder.Prelude.{
  ℕ, ◌+◌, ◌≤◌, ◌<◌, Bool, true, false, ◌&&◌, List, [], ◌∷◌, ◌++◌, ltb, if◌then◌else◌, length,
}
use omni_binder.Ring.{
  Ring, send_frame, Received, frame, nothing, failed, recv_frame, max_message_size,
}

pub data Op : Type 0 where
  send : List ℕ → Op
  recv : ℕ → Op

pub data Reply : Type 0 where
  sent : ℕ → Bool → Reply
  received : Received → Reply

-- Each frame takes four bytes more than its own.
abbrev pub weight : List (List ℕ) → ℕ
weight [] = 0
weight (f ∷ q) = 4 + length f + weight q

abbrev pub is_empty : List (List ℕ) → Bool
is_empty [] = true
is_empty (f ∷ q) = false

-- The consumer is notified when the queue was empty.
unfoldable pub push : ℕ → Bool → List (List ℕ) → List ℕ → Reply × List (List ℕ)
push cap has_fd q f =
    if ltb (weight q + (4 + length f)) cap
    then (sent (4 + length f) (is_empty q && has_fd), q ++ f ∷ [])
    else (sent 0 false, q)

unfoldable pub pop : List (List ℕ) → ℕ → Reply × List (List ℕ)
pop [] out_size = (received nothing, [])
pop (f ∷ q) out_size =
    if ltb out_size (length f) then (received failed, f ∷ q) else (received (frame f), q)

unfoldable pub run_queue : ℕ → Bool → List (List ℕ) → List Op → List Reply
run_queue cap has_fd q [] = []
run_queue cap has_fd q (send f ∷ ops) =
    let (a, q') = push cap has_fd q f in a ∷ run_queue cap has_fd q' ops
run_queue cap has_fd q (recv n ∷ ops) = let (a, q') = pop q n in a ∷ run_queue cap has_fd q' ops

-- The producer's and the consumer's calls on the ring, one after another.
unfoldable pub run_ring : ℕ → Bool → Ring → List Op → List Reply
run_ring cap has_fd r [] = []
run_ring cap has_fd r (send f ∷ ops) =
    let s = send_frame r cap f has_fd r.read_pos in
    sent s.written s.notified ∷ run_ring cap has_fd s.ring ops
run_ring cap has_fd r (recv n ∷ ops) =
    let (a, r') = recv_frame r cap n in received a ∷ run_ring cap has_fd r' ops

-- The frames that the receiving side takes: a message is never empty.
abbrev pub IsSendable : List ℕ → Type 0
IsSendable f = (0 < length f) × (length f ≤ max_message_size)

abbrev pub AllSendable : List (List ℕ) → Type 0
AllSendable [] = Unit {0}
AllSendable (f ∷ q) = IsSendable f × AllSendable q

abbrev pub OpsSendable : List Op → Type 0
OpsSendable [] = Unit {0}
OpsSendable (send f ∷ ops) = IsSendable f × OpsSendable ops
OpsSendable (recv n ∷ ops) = OpsSendable ops
