-- ===== src/Replies.antt =====
-- src/core/pending_reply_table.h and pending_reply_table.cpp: the slots of the requests that wait for
-- a reply, by sequence number.
pub mod Life
mod Tests
use omni_binder.Prelude.{
  ℕ, Bool, true, false, ◌&&◌, not, Option, none, some, List, [], ◌∷◌, if◌then◌else◌,
}
use omni_binder.OrderedMap.{Map, find, insert, erase}
use omni_binder.OrderedMap.Keys.{number_key}
use omni_binder.Message.{Message, fresh_message}

pub record Slot : Type 0 where
  pub ready : Bool
  pub failed : Bool
  pub message : Message

abbrev pub Table : Type 0
Table = Map ℕ Slot

-- Slot()
abbrev pub fresh_slot : Slot
fresh_slot = record { ready = false; failed = false; message = fresh_message }

-- The loop of `clear`: ready slots go, the others are marked failed.
pub clear : Table → Table
clear [] = []
clear ((seq, slot) ∷ t) =
    if slot.ready then clear t else (seq, record slot { failed = true }) ∷ clear t

-- The slot that a request waits in once more: its header stays.
abbrev pub rearmed : Slot → Slot
rearmed slot = record {
  ready = false;
  failed = false;
  message = record { header = slot.message.header; payload = [] };
}

pub begin_wait : Table → ℕ → Table
begin_wait t seq = elim (find seq t) [
  | none ↦ insert seq fresh_slot t
  | some slot ↦ if slot.ready then t else insert seq (rearmed slot) t
]

pub is_waiting : Table → ℕ → Bool
is_waiting t seq = elim (find seq t) [
  | none ↦ false
  | some slot ↦ not slot.ready && not slot.failed
]

pub pending_reply : Table → ℕ → Option Message
pending_reply t seq = elim (find seq t) [
  | none ↦ none
  | some slot ↦ if not slot.ready then none else some slot.message
]

pub is_failed : Table → ℕ → Bool
is_failed t seq = elim (find seq t) [ none ↦ false | some slot ↦ slot.failed ]

-- The reply that was taken out, and the table.
pub take_reply : Table → ℕ → Option Message × Table
take_reply t seq = elim (find seq t) [
  | none ↦ (none, t)
  | some slot ↦ if not slot.ready then (none, t) else (some slot.message, erase seq t)
]

pub erase_wait : Table → ℕ → Table
erase_wait t seq = erase seq t

abbrev pub filled : Slot → Message → Slot
filled slot msg = record slot { ready = true; message = msg }

pub store_reply : Table → ℕ → Message → Table
store_reply t seq msg = elim (find seq t) [
  | none ↦ t
  | some slot ↦ if slot.ready then t else insert seq (filled slot msg) t
]
