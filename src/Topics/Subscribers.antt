-- ===== src/Topics/Subscribers.antt =====
-- addSubscriber and removeSubscriber.
use omni_binder.Prelude.{
  ℕ, ◌+◌, ◌-◌, Bool, true, false, ◌&&◌, ◌||◌, not, none, some, ltb, if◌then◌else◌, length,
}
use omni_binder.OrderedMap.{Map, find, contains, insert, erase, keys}
use omni_binder.OrderedMap.Keys.{Name, name_eq, name_key, number_key}
use omni_binder.OrderedMap.Nested.{insert2, erase2, or_empty}
use omni_binder.Types.{max_service_name_length}
use omni_binder.Topics.{
  Topics, TopicEntry, Filter, max_topics_global, max_topic_subscriptions_per_connection,
  max_topic_subscriptions_global, max_subscribers_per_topic, entry_key, filter_key,
  erase_entry_if_unused, sweep, sub_size, held, or_zero,
}
use omni_binder.Topics.Publishers.{is_topic, with_entry}

-- The refusals before an entry is made.
unfoldable pub may_subscribe : Topics → Name → Filter → ℕ → Bool
may_subscribe s topic selector fd =
    is_topic topic
    && not (ltb max_service_name_length (length selector.publisher_service))
    && ltb (or_zero (find fd s.fd_subscription_counts)) max_topic_subscriptions_per_connection
    && ltb s.total_subscriptions max_topic_subscriptions_global
    && not (
        not (contains (entry_key selector.publisher_service topic) s.topics)
        && not (contains topic s.topic_name_refs)
        && not (ltb (length s.topic_name_refs) max_topics_global))

-- The refusals at the entry: a selector that is there, or too many subscribers.
unfoldable pub is_refused : TopicEntry → Name → ℕ → Bool
is_refused e selkey fd =
    contains selkey (or_empty (find fd e.subscribers))
    || (not (contains fd e.subscribers)
        && not (ltb (length e.subscribers) max_subscribers_per_topic))

unfoldable pub set_subscribers : Topics → Name → TopicEntry → Map ℕ (Map Name Filter) → Topics
set_subscribers s ekey e subscribers = record s {
  topics = insert ekey (record e { subscribers = subscribers }) s.topics;
}

unfoldable pub put_subscription : Topics → Name → Filter → ℕ → Bool × Topics
put_subscription s ekey selector fd = elim (find ekey s.topics) [
  | none ↦ (false, s)
  | some e ↦ if is_refused e (filter_key selector) fd then (false, s) else (
    true,
    record (set_subscribers s ekey e (insert2 fd (filter_key selector) selector e.subscribers)) {
      fd_subscriptions = insert2 fd ekey tt s.fd_subscriptions;
      fd_subscription_counts =
          insert fd (or_zero (find fd s.fd_subscription_counts) + 1) s.fd_subscription_counts;
      total_subscriptions = s.total_subscriptions + 1;
    },
  )
]

unfoldable pub add_subscriber : Topics → Name → Filter → ℕ → Bool × Topics
add_subscriber s topic selector fd =
    let ekey = entry_key selector.publisher_service topic in
    if not (may_subscribe s topic selector fd)
    then (false, s)
    else put_subscription (with_entry s ekey selector.publisher_service topic) ekey selector fd

-- `n` subscriptions less for the connection.
unfoldable pub fewer : ℕ → ℕ → Map ℕ ℕ → Map ℕ ℕ
fewer fd n counts = elim (find fd counts) [
  | none ↦ counts
  | some c ↦ if ltb n c then insert fd (c - n) counts else erase fd counts
]

-- All subscriptions of the connection at one entry go.
unfoldable pub drop_subscriptions : Topics → Name → TopicEntry → ℕ → Topics
drop_subscriptions s ekey e fd = record (set_subscribers s ekey e (erase fd e.subscribers)) {
  fd_subscriptions = erase2 fd ekey s.fd_subscriptions;
  fd_subscription_counts = fewer fd (held fd e) s.fd_subscription_counts;
  total_subscriptions = sub_size s.total_subscriptions (held fd e);
}

-- One round of removeSubscriber(topic, subscriber_fd).
unfoldable pub drop_subscriber : Name → ℕ → Topics → Name → Bool × Topics
drop_subscriber topic fd s ekey = elim (find ekey s.topics) [
  | none ↦ (false, s)
  | some e ↦
      if not (name_eq e.topic_name topic) || not (contains fd e.subscribers)
      then (false, s)
      else (true, erase_entry_if_unused (drop_subscriptions s ekey e fd) ekey)
]

unfoldable pub remove_subscriber : Topics → Name → ℕ → Bool × Topics
remove_subscriber s topic fd =
    if not (is_topic topic) then (false, s) else sweep (drop_subscriber topic fd) (keys s.topics) s

-- One subscription at one entry goes, and with the last one the index from the connection.
unfoldable pub drop_subscription : Topics → Name → TopicEntry → Name → ℕ → Topics
drop_subscription s ekey e selkey fd =
    let subscribers = erase2 fd selkey e.subscribers in
    record (set_subscribers s ekey e subscribers) {
      total_subscriptions = sub_size s.total_subscriptions 1;
      fd_subscription_counts = fewer fd 1 s.fd_subscription_counts;
      fd_subscriptions =
          if contains fd subscribers then s.fd_subscriptions else erase2 fd ekey s.fd_subscriptions;
    }

-- removeSubscriber(topic, selector, subscriber_fd)
unfoldable pub remove_subscription : Topics → Name → Filter → ℕ → Bool × Topics
remove_subscription s topic selector fd =
    let ekey = entry_key selector.publisher_service topic in
    if not (is_topic topic) then (false, s) else elim (find ekey s.topics) [
      | none ↦ (false, s)
      | some e ↦
          if not (contains (filter_key selector) (or_empty (find fd e.subscribers)))
          then (false, s)
          else (
            true,
            erase_entry_if_unused (drop_subscription s ekey e (filter_key selector) fd) ekey,
          )
    ]
