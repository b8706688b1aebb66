-- ===== src/Replies/Tests.antt =====
-- The table's theorems where a request's reply comes after its connection was lost.
use omni_binder.Prelude.{◌≡◌, refl, true, [], ◌∷◌, List}
use omni_binder.OrderedMap.{find, Distinct}
use omni_binder.OrderedMap.Keys.{number_key}
use omni_binder.Message.{fresh_message}
use omni_binder.Replies.{Table, fresh_slot, is_waiting, pending_reply, is_failed, take_reply}
use omni_binder.Replies.Life.{
  Call, begins, stores, clears, answered, phase, step, next, run, step-next, run-fate,
  queries_by_phase, is_waiting_phase, reply_of, is_failed_phase,
}

abbrev calls : List Call
calls = begins 1 ∷ begins 2 ∷ clears ∷ stores 1 fresh_message ∷ []

run-fate_example : phase (run [] calls) 1 ≡ answered true fresh_message
run-fate_example = run-fate calls 1

abbrev two_waiting : Table
two_waiting = (1, fresh_slot) ∷ (2, fresh_slot) ∷ []

distinct : Distinct two_waiting
unfolding find
distinct = (refl, (refl, tt))

step-next_example :
    phase (step two_waiting (stores 1 fresh_message)) 1
    ≡ next 1 (stores 1 fresh_message) (phase two_waiting 1)
step-next_example = step-next two_waiting (stores 1 fresh_message) 1 distinct

queries_by_phase_example :
    (is_waiting two_waiting 1 ≡ is_waiting_phase (phase two_waiting 1))
    × (pending_reply two_waiting 1 ≡ reply_of (phase two_waiting 1))
    × ((take_reply two_waiting 1).0 ≡ reply_of (phase two_waiting 1))
    × (is_failed two_waiting 1 ≡ is_failed_phase (phase two_waiting 1))
queries_by_phase_example = queries_by_phase two_waiting 1
