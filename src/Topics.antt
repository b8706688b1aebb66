-- ===== src/Topics.antt =====
-- service_manager/topic_manager.h and topic_manager.cpp: who publishes and who subscribes to which
-- topic, with the reverse indices by control connection. The state, its keys and the steps that the
-- operations of the modules below share. Log lines are left out.
pub mod Publishers
pub mod Subscribers
pub mod Closing
pub mod Queries
pub mod Counted
pub mod Tallied
pub mod Indexed
pub mod Consistent
pub mod Operations
pub mod Subscriptions
pub mod Cleared
pub mod Closed
pub mod Gone
pub mod Removal
pub mod Hashes
pub mod EntryKeys
pub mod Offers
pub mod Filed
pub mod Matched
mod Tests
pub mod History
use omni_binder.Prelude.{
  ℕ, zero, suc, ◌+◌, ◌-◌, ◌/◌, ◌%◌, Bool, true, false, ◌&&◌, ◌||◌, not, Option, none, some, List,
  [], ◌∷◌, ◌++◌, ltb, leb, if◌then◌else◌, length, size_mod,
}
use omni_binder.OrderedMap.{Map, Set, find, insert, erase}
use omni_binder.OrderedMap.Keys.{Name, name_eq, name_key, number_key}
use omni_binder.OrderedMap.Nested.{erase2, or_empty}
use omni_binder.Types.{ServiceInfo}

abbrev pub max_topics_global : ℕ
max_topics_global = 16384

abbrev pub max_topic_publications_per_connection : ℕ
max_topic_publications_per_connection = 4096

abbrev pub max_topic_subscriptions_per_connection : ℕ
max_topic_subscriptions_per_connection = 4096

abbrev pub max_subscribers_per_topic : ℕ
max_subscribers_per_topic = 4096

abbrev pub max_topic_subscriptions_global : ℕ
max_topic_subscriptions_global = 16384

-- TopicSubscribeMode: TOPIC_ONLY, SERVICE and INSTANCE.
pub data Mode : Type 0 where
  topic_only by_service by_instance : Mode

pub record Filter : Type 0 where
  pub mode : Mode
  pub publisher_service : Name
  pub host_id : Name
  pub instance_id : Name

pub record PublisherSlot : Type 0 where
  pub fd : ℕ
  pub info : ServiceInfo
  pub idl_hash : ℕ

pub record TopicEntry : Type 0 where
  pub service_name : Name
  pub topic_name : Name
  pub publishers : Map Name PublisherSlot
  pub subscribers : Map ℕ (Map Name Filter)

pub record Topics : Type 0 where
  pub topics : Map Name TopicEntry
  pub topic_name_refs : Map Name ℕ
  pub fd_subscriptions : Map ℕ (Set Name)
  pub fd_publications : Map ℕ (Set Name)
  pub fd_subscription_counts : Map ℕ ℕ
  pub total_subscriptions : ℕ

unfoldable pub empty_topics : Topics
empty_topics = record {
  topics = [];
  topic_name_refs = [];
  fd_subscriptions = [];
  fd_publications = [];
  fd_subscription_counts = [];
  total_subscriptions = 0;
}

-- What `<<` writes of a size: its decimal digits. The first argument bounds their number.
unfoldable pub digits : ℕ → ℕ → List ℕ
digits zero n = []
digits (suc fuel) n =
    let front = digits fuel (n / 10) in
    if ltb n 10 then (48 + n) ∷ [] else front ++ (48 + n % 10) ∷ []

unfoldable pub decimal : ℕ → List ℕ
decimal n = digits (suc n) n

-- entryKey: the size of the service's name, a colon, and the two names.
unfoldable pub entry_key : Name → Name → Name
entry_key service_name topic_name =
    decimal (length service_name) ++ 58 ∷ (service_name ++ topic_name)

-- A size, a bar and the text.
abbrev sized : Name → Name
sized text = decimal (length text) ++ 124 ∷ text

unfoldable pub filter_key : Filter → Name
filter_key f = elim f.mode [
  | by_instance ↦ 73 ∷ 124 ∷ (sized f.publisher_service ++ sized f.instance_id)
  | by_service ↦ 83 ∷ 124 ∷ sized f.publisher_service
  | topic_only ↦ 84 ∷ []
]

abbrev pub is_topic_only : Mode → Bool
is_topic_only topic_only = true
is_topic_only _ = false

abbrev pub is_by_instance : Mode → Bool
is_by_instance by_instance = true
is_by_instance _ = false

unfoldable pub matches : Filter → ServiceInfo → Bool
matches f publisher =
    if is_topic_only f.mode
    then true
    else if not (name_eq publisher.name f.publisher_service)
    then false
    else if is_by_instance f.mode
    then name_eq publisher.instance_id f.instance_id
    else true

abbrev pub is_empty {ℓ} : {A : Type ℓ} → List A → Bool
is_empty [] = true
is_empty (x ∷ xs) = false

-- a -= b of a size_t.
abbrev pub sub_size : ℕ → ℕ → ℕ
sub_size a b = if leb b a then a - b else a + size_mod - b

-- releaseTopicNameRef
unfoldable pub release_topic_name_ref : Name → Map Name ℕ → Map Name ℕ
release_topic_name_ref topic refs = elim (find topic refs) [
  | none ↦ refs
  | some n ↦ if ltb 1 n then insert topic (n - 1) refs else erase topic refs
]

abbrev pub or_zero : Option ℕ → ℕ
or_zero none = 0
or_zero (some n) = n

-- A new entry, and the name's reference.
unfoldable pub new_entry : Topics → Name → Name → Name → Topics
new_entry s ekey service_name topic = record s {
  topics =
      insert ekey
        (record {
          service_name = service_name;
          topic_name = topic;
          publishers = [];
          subscribers = [];
        })
        s.topics;
  topic_name_refs = insert topic (or_zero (find topic s.topic_name_refs) + 1) s.topic_name_refs;
}

-- eraseEntryIfUnused
unfoldable pub erase_entry_if_unused : Topics → Name → Topics
erase_entry_if_unused s ekey = elim (find ekey s.topics) [
  | none ↦ s
  | some e ↦
      if is_empty e.publishers && is_empty e.subscribers
      then record s {
        topics = erase ekey s.topics;
        topic_name_refs = release_topic_name_ref e.topic_name s.topic_name_refs;
      }
      else s
]

-- The publishers of an entry whose connections are picked go; their connections lose the entry in the index.
unfoldable pub drop_publishers :
    (ℕ → Bool)
    → Name
    → Map Name PublisherSlot
    → Map ℕ (Set Name)
    → Map Name PublisherSlot × Map ℕ (Set Name)
drop_publishers picked ekey [] index = ([], index)
drop_publishers picked ekey ((i, slot) ∷ slots) index =
    let (kept, index') =
      drop_publishers picked ekey slots
        (if picked slot.fd then erase2 slot.fd ekey index else index) in
    (if picked slot.fd then kept else (i, slot) ∷ kept, index')

unfoldable pub any_picked : (ℕ → Bool) → Map Name PublisherSlot → Bool
any_picked picked [] = false
any_picked picked ((i, slot) ∷ slots) = picked slot.fd || any_picked picked slots

unfoldable pub set_publishers :
    Topics → Name → TopicEntry → Map Name PublisherSlot → Map ℕ (Set Name) → Topics
set_publishers s ekey e slots index = record s {
  topics = insert ekey (record e { publishers = slots }) s.topics;
  fd_publications = index;
}

-- The number of subscriptions that a connection has in an entry.
abbrev pub held : ℕ → TopicEntry → ℕ
held fd e = length (or_empty (find fd e.subscribers))

-- The loops over `topics_`, which visit one entry after another and erase at most the one they visit.
unfoldable pub sweep : (Topics → Name → Bool × Topics) → List Name → Topics → Bool × Topics
sweep visit [] s = (false, s)
sweep visit (k ∷ ks) s =
    let (here, s') = visit s k in let (there, s'') = sweep visit ks s' in (here || there, s'')
