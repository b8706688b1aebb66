-- ===== src/Topics/Queries.antt =====
-- The queries of TopicManager.
use omni_binder.Prelude.{
  ℕ, Bool, true, false, ◌&&◌, ◌||◌, not, Option, none, some, List, [], ◌∷◌, ◌++◌, if◌then◌else◌,
}
use omni_binder.OrderedMap.{Map, Set, insert, keys}
use omni_binder.OrderedMap.Keys.{Name, name_eq, name_key, number_key}
use omni_binder.Types.{ServiceInfo}
use omni_binder.Topics.{
  Topics, TopicEntry, PublisherSlot, Filter, matches, is_empty, any_picked, is_topic_only,
  is_by_instance,
}
use omni_binder.Topics.Publishers.{has_fd}

pub record PublisherView : Type 0 where
  pub info : ServiceInfo
  pub idl_hash : ℕ

abbrev pub view_of : PublisherSlot → PublisherView
view_of slot = record { info = slot.info; idl_hash = slot.idl_hash }

unfoldable pub any_owner : Name → ℕ → Map Name TopicEntry → Bool
any_owner topic fd [] = false
any_owner topic fd ((k, e) ∷ entries) =
    (name_eq e.topic_name topic && any_picked (has_fd fd) e.publishers)
    || any_owner topic fd entries

unfoldable pub is_publisher_owner : Topics → Name → ℕ → Bool
is_publisher_owner s topic fd = any_owner topic fd s.topics

-- fds.insert(...) for each connection whose subscriptions pass the test.
unfoldable pub collect_fds : (Map Name Filter → Bool) → Map ℕ (Map Name Filter) → Set ℕ → Set ℕ
collect_fds passes [] fds = fds
collect_fds passes ((fd, filters) ∷ subscribers) fds =
    collect_fds passes subscribers (if passes filters then insert fd tt fds else fds)

unfoldable pub collect : Name → (Map Name Filter → Bool) → Map Name TopicEntry → Set ℕ → Set ℕ
collect topic passes [] fds = fds
collect topic passes ((k, e) ∷ entries) fds =
    collect topic passes entries
      (if name_eq e.topic_name topic then collect_fds passes e.subscribers fds else fds)

unfoldable pub get_subscribers : Topics → Name → List ℕ
get_subscribers s topic = keys (collect topic (λ _. true) s.topics [])

unfoldable pub any_matches : ServiceInfo → Map Name Filter → Bool
any_matches publisher [] = false
any_matches publisher ((k, f) ∷ filters) = matches f publisher || any_matches publisher filters

unfoldable pub get_matching_subscribers : Topics → Name → ServiceInfo → List ℕ
get_matching_subscribers s topic publisher =
    keys (collect topic (any_matches publisher) s.topics [])

-- The publishers of an entry that the selector takes.
unfoldable pub selected : Filter → Map Name PublisherSlot → List PublisherView
selected selector [] = []
selected selector ((i, slot) ∷ slots) =
    let rest = selected selector slots in
    if is_by_instance selector.mode && not (matches selector slot.info)
    then rest
    else view_of slot ∷ rest

abbrev pub is_in_scope : Name → Filter → TopicEntry → Bool
is_in_scope topic selector e =
    name_eq e.topic_name topic
    && (is_topic_only selector.mode || name_eq e.service_name selector.publisher_service)

unfoldable pub matching_in : Name → Filter → Map Name TopicEntry → List PublisherView
matching_in topic selector [] = []
matching_in topic selector ((k, e) ∷ entries) =
    let rest = matching_in topic selector entries in
    if is_in_scope topic selector e then selected selector e.publishers ++ rest else rest

unfoldable pub get_matching_publishers : Topics → Name → Filter → List PublisherView
get_matching_publishers s topic selector = matching_in topic selector s.topics

abbrev pub first_view : Map Name PublisherSlot → Option PublisherView
first_view [] = none
first_view ((i, slot) ∷ slots) = some (view_of slot)

-- The first publisher of the first entry of the topic that has any.
unfoldable pub first_publisher : Name → Map Name TopicEntry → Option PublisherView
first_publisher topic [] = none
first_publisher topic ((k, e) ∷ entries) =
    let rest = first_publisher topic entries in
    if not (name_eq e.topic_name topic) || is_empty e.publishers
    then rest
    else first_view e.publishers

unfoldable pub get_publisher : Topics → Name → Option ServiceInfo
get_publisher s topic = elim (first_publisher topic s.topics) [
  | none ↦ none
  | some view ↦ some view.info
]

unfoldable pub has_publisher : Topics → Name → Bool
has_publisher s topic = elim (first_publisher topic s.topics) [ none ↦ false | some view ↦ true ]

-- getIdlHash(topic)
unfoldable pub get_idl_hash : Topics → Name → Option ℕ
get_idl_hash s topic = elim (first_publisher topic s.topics) [
  | none ↦ none
  | some view ↦ some view.idl_hash
]

-- getIdlHash(topic, selector): the first of the publishers that match.
unfoldable pub get_selected_idl_hash : Topics → Name → Filter → Option ℕ
get_selected_idl_hash s topic selector = elim (get_matching_publishers s topic selector) [
  | [] ↦ none
  | view ∷ views ↦ some view.idl_hash
]

abbrev pub set_first_hash : ℕ → Map Name PublisherSlot → Map Name PublisherSlot
set_first_hash idl_hash [] = []
set_first_hash idl_hash ((i, slot) ∷ slots) = (i, record slot { idl_hash = idl_hash }) ∷ slots

-- The loop of setIdlHash.
unfoldable pub set_hash_in : Name → ℕ → Map Name TopicEntry → Bool × Map Name TopicEntry
set_hash_in topic idl_hash [] = (false, [])
set_hash_in topic idl_hash ((k, e) ∷ entries) =
    let (done, rest) = set_hash_in topic idl_hash entries in
    if not (name_eq e.topic_name topic) || is_empty e.publishers
    then (done, (k, e) ∷ rest)
    else (true, (k, record e { publishers = set_first_hash idl_hash e.publishers }) ∷ entries)

unfoldable pub set_idl_hash : Topics → Name → ℕ → Bool × Topics
set_idl_hash s topic idl_hash =
    let (done, entries) = set_hash_in topic idl_hash s.topics in
    (done, record s { topics = entries })

-- std::sort with std::unique behind it: the texts as the keys of a set.
unfoldable pub name_set : List Name → Set Name
name_set [] = []
name_set (n ∷ names) = insert n tt (name_set names)

unfoldable pub published_in : Name → Map Name TopicEntry → List Name
published_in service_name [] = []
published_in service_name ((k, e) ∷ entries) =
    let rest = published_in service_name entries in
    if name_eq e.service_name service_name && not (is_empty e.publishers)
    then e.topic_name ∷ rest
    else rest

unfoldable pub get_published_topics : Topics → Name → List Name
get_published_topics s service_name = keys (name_set (published_in service_name s.topics))

unfoldable pub list_topics : Topics → List Name
list_topics s = keys s.topic_name_refs
