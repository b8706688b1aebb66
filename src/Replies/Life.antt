-- ===== src/Replies/Life.antt =====
-- What becomes of each request's slot, over any sequence of calls of the table.
use omni_binder.Prelude.{
  ℕ, ◌≡◌, refl, ◌∙◌, ap, Bool, true, false, ◌==◌, ==_iff, Option, none, some, List, [], ◌∷◌, arith,
  if◌then◌else◌, Option-cases, inl, inr,
}
use omni_binder.OrderedMap.{find, Distinct}
use omni_binder.OrderedMap.Keys.{number_key}
use omni_binder.OrderedMap.Laws.{find-insert, find-erase, Distinct-insert, Distinct-erase}
use omni_binder.Message.{Message}
use omni_binder.Replies.{
  Slot, Table, fresh_slot, rearmed, filled, clear, begin_wait, is_waiting, pending_reply, is_failed,
  take_reply, erase_wait, store_reply,
}

-- `lost` waits on a connection that is gone; `answered late msg` holds a reply, `late` if it came
-- after such a loss.
pub data Phase : Type 0 where
  absent waiting lost : Phase
  answered : Bool → Message → Phase

abbrev pub slot_phase : Option Slot → Phase
slot_phase none = absent
slot_phase (some s) =
    if s.ready then answered s.failed s.message else if s.failed then lost else waiting

abbrev pub phase : Table → ℕ → Phase
phase t seq = slot_phase (find seq t)

pub data Call : Type 0 where
  begins takes erases : ℕ → Call
  stores : ℕ → Message → Call
  clears : Call

pub step : Table → Call → Table
step t (begins seq) = begin_wait t seq
step t (takes seq) = (take_reply t seq).1
step t (erases seq) = erase_wait t seq
step t (stores seq msg) = store_reply t seq msg
step t clears = clear t

abbrev pub on_begin : Phase → Phase
on_begin (answered late msg) = answered late msg
on_begin _ = waiting

abbrev pub on_take : Phase → Phase
on_take (answered late msg) = absent
on_take p = p

abbrev pub on_store : Message → Phase → Phase
on_store msg waiting = answered false msg
on_store msg lost = answered true msg
on_store msg p = p

abbrev pub on_clear : Phase → Phase
on_clear absent = absent
on_clear waiting = lost
on_clear lost = lost
on_clear (answered late msg) = absent

-- How a call moves the request `seq`.
abbrev pub next : ℕ → Call → Phase → Phase
next seq (begins k) p = if k == seq then on_begin p else p
next seq (takes k) p = if k == seq then on_take p else p
next seq (erases k) p = if k == seq then absent else p
next seq (stores k msg) p = if k == seq then on_store msg p else p
next seq clears p = on_clear p

abbrev pub is_waiting_phase : Phase → Bool
is_waiting_phase waiting = true
is_waiting_phase _ = false

abbrev pub reply_of : Phase → Option Message
reply_of (answered late msg) = some msg
reply_of _ = none

abbrev pub is_failed_phase : Phase → Bool
is_failed_phase lost = true
is_failed_phase (answered late msg) = late
is_failed_phase _ = false

find-clear_absent : (seq : ℕ) (t : Table) → find seq t ≡ none → find seq (clear t) ≡ none
unfolding find clear
find-clear_absent seq [] h = refl
find-clear_absent seq ((k, s) ∷ t) h = ground (arith, find-clear_absent seq t)

phase-clear : (seq : ℕ) (t : Table) → Distinct t → phase (clear t) seq ≡ on_clear (phase t seq)
unfolding find clear
phase-clear seq [] d = refl
phase-clear seq ((k, s) ∷ t) d =
    ground (arith, phase-clear seq t d.1, find-clear_absent k t d.0, ==_iff k seq)

Distinct-clear : (t : Table) → Distinct t → Distinct (clear t)
unfolding clear
Distinct-clear [] d = tt
Distinct-clear ((k, s) ∷ t) d = ground (arith, Distinct-clear t d.1, find-clear_absent k t d.0)

step-Distinct : (t : Table) (c : Call) → Distinct t → Distinct (step t c)
unfolding step begin_wait take_reply erase_wait store_reply
step-Distinct t (begins k) d = elim (Option-cases (find k t)) [
  | inl e ↦ rw (e, begin_wait) (Distinct-insert k fresh_slot t d)
  | inr (s, e) ↦ rw (e, begin_wait) (ground (arith, Distinct-insert k (rearmed s) t d))
]
step-Distinct t (takes k) d = ground (arith, Distinct-erase k t d)
step-Distinct t (erases k) d = Distinct-erase k t d
step-Distinct t (stores k msg) d = elim (Option-cases (find k t)) [
  | inl e ↦ rw (e, store_reply) d
  | inr (s, e) ↦ rw (e, store_reply) (ground (arith, Distinct-insert k (filled s msg) t d))
]
step-Distinct t clears d = Distinct-clear t d

-- In a table with each number once, each call moves every request as `next` says of it: one call names
-- one request and moves no other, and `clears` moves all.
pub step-next :
    (t : Table) (c : Call) (seq : ℕ) → Distinct t → phase (step t c) seq ≡ next seq c (phase t seq)
unfolding step begin_wait take_reply erase_wait store_reply
step-next t (begins k) seq d = elim (Option-cases (find k t)) [
  | inl e ↦ rw (e, begin_wait) (ground (arith, find-insert k seq fresh_slot t, ==_iff k seq))
  | inr (s, e) ↦ rw (e, begin_wait) (ground (arith, find-insert k seq (rearmed s) t, ==_iff k seq))
]
step-next t (takes k) seq d = ground (arith, find-erase k seq t, ==_iff k seq)
step-next t (erases k) seq d = ground (arith, find-erase k seq t, ==_iff k seq)
step-next t (stores k msg) seq d = elim (Option-cases (find k t)) [
  | inl e ↦ rw (e, store_reply) (ground (arith, ==_iff k seq))
  | inr (s, e) ↦
      rw (e, store_reply) (ground (arith, find-insert k seq (filled s msg) t, ==_iff k seq))
]
step-next t clears seq d = phase-clear seq t d

pub run : Table → List Call → Table
run t [] = t
run t (c ∷ cs) = run (step t c) cs

-- A request's life over a sequence of calls.
abbrev pub fate : ℕ → Phase → List Call → Phase
fate seq p [] = p
fate seq p (c ∷ cs) = fate seq (next seq c p) cs

run-fate_from :
    (t : Table) (cs : List Call) (seq : ℕ)
    → Distinct t
    → phase (run t cs) seq ≡ fate seq (phase t seq) cs
unfolding run
run-fate_from t [] seq d = refl
run-fate_from t (c ∷ cs) seq d =
    run-fate_from (step t c) cs seq (step-Distinct t c d)
    ∙ ap (λ p. fate seq p cs) (step-next t c seq d)

-- After any sequence of calls on a new table each request is in the phase that `fate` finds by following
-- that request alone.
pub run-fate : (cs : List Call) (seq : ℕ) → phase (run [] cs) seq ≡ fate seq absent cs
unfolding find
run-fate cs seq = run-fate_from [] cs seq tt

-- What isWaiting, pendingReply, takeReply and isFailed answer of a request depends on its phase alone, and
-- is what the phase says.
pub queries_by_phase :
    (t : Table) (seq : ℕ)
    → (is_waiting t seq ≡ is_waiting_phase (phase t seq))
      × (pending_reply t seq ≡ reply_of (phase t seq))
      × ((take_reply t seq).0 ≡ reply_of (phase t seq))
      × (is_failed t seq ≡ is_failed_phase (phase t seq))
unfolding is_waiting pending_reply take_reply is_failed
queries_by_phase t seq = elim (Option-cases (find seq t)) [
  | inl e ↦ rw (e, is_waiting, pending_reply, take_reply, is_failed) (refl, refl, refl, refl)
  | inr (s, e) ↦ rw (e, is_waiting, pending_reply, take_reply, is_failed) (ground arith)
]
