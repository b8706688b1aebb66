-- ===== src/Topics/History.antt =====
-- TopicManager over any sequence of its operations, from the state that its constructor leaves.
use omni_binder.Prelude.{ℕ, refl, none, List, [], ◌∷◌, arith}
use omni_binder.OrderedMap.Keys.{Name, name_key, number_key}
use omni_binder.OrderedMap.{find}
use omni_binder.Types.{ServiceInfo}
use omni_binder.Topics.{Topics, Filter, empty_topics}
use omni_binder.Topics.Publishers.{
  register_publisher, remove_publisher, remove_publisher_of, remove_publishers_by_service,
}
use omni_binder.Topics.Subscribers.{add_subscriber, remove_subscriber, remove_subscription}
use omni_binder.Topics.Closing.{remove_by_fd}
use omni_binder.Topics.Queries.{set_idl_hash}
use omni_binder.Topics.Consistent.{IsConsistent}
use omni_binder.Topics.Operations.{
  register_publisher-IsConsistent, remove_publisher-IsConsistent, remove_publisher_of-IsConsistent,
  remove_publishers_by_service-IsConsistent,
}
use omni_binder.Topics.Subscriptions.{
  add_subscriber-IsConsistent, remove_subscriber-IsConsistent, remove_subscription-IsConsistent,
}
use omni_binder.Topics.Removal.{remove_by_fd-IsConsistent}
use omni_binder.Topics.Hashes.{set_idl_hash-IsConsistent}

pub data TopicOp : Type 0 where
  publishes : Name → ServiceInfo → ℕ → ℕ → TopicOp
  unpublishes : Name → TopicOp
  unpublishes_of : Name → ℕ → TopicOp
  unpublishes_service : Name → ℕ → TopicOp
  subscribes : Name → Filter → ℕ → TopicOp
  unsubscribes : Name → ℕ → TopicOp
  unsubscribes_one : Name → Filter → ℕ → TopicOp
  sets_hash : Name → ℕ → TopicOp
  closes : ℕ → TopicOp

unfoldable pub topic_step : Topics → TopicOp → Topics
topic_step s (publishes topic info fd idl_hash) = (register_publisher s topic info fd idl_hash).1
topic_step s (unpublishes topic) = (remove_publisher s topic).1
topic_step s (unpublishes_of topic fd) = (remove_publisher_of s topic fd).1
topic_step s (unpublishes_service service fd) = (remove_publishers_by_service s service fd).1
topic_step s (subscribes topic selector fd) = (add_subscriber s topic selector fd).1
topic_step s (unsubscribes topic fd) = (remove_subscriber s topic fd).1
topic_step s (unsubscribes_one topic selector fd) = (remove_subscription s topic selector fd).1
topic_step s (sets_hash topic idl_hash) = (set_idl_hash s topic idl_hash).1
topic_step s (closes fd) = (remove_by_fd s fd).1

unfoldable pub topic_run : Topics → List TopicOp → Topics
topic_run s [] = s
topic_run s (op ∷ ops) = topic_run (topic_step s op) ops

empty-IsConsistent : IsConsistent none empty_topics
unfolding empty_topics find omni_binder.OrderedMap.Nested.find2
empty-IsConsistent = record {
  counted = record {
    distinct = tt;
    inner = λ k. tt;
    refs = λ t. refl;
    counts = λ f n. refl;
    total = refl;
    small = omega arith;
  };
  indexed = record { publications = λ f k n p. ground (arith, p); subscriptions = λ f k n. refl };
}

pub topic_step-IsConsistent :
    (s : Topics) (op : TopicOp) → IsConsistent none s → IsConsistent none (topic_step s op)
unfolding topic_step
topic_step-IsConsistent s (publishes topic info fd idl_hash) v =
    register_publisher-IsConsistent s topic info fd idl_hash v
topic_step-IsConsistent s (unpublishes topic) v = remove_publisher-IsConsistent s topic v
topic_step-IsConsistent s (unpublishes_of topic fd) v =
    remove_publisher_of-IsConsistent s topic fd v
topic_step-IsConsistent s (unpublishes_service service fd) v =
    remove_publishers_by_service-IsConsistent s service fd v
topic_step-IsConsistent s (subscribes topic selector fd) v =
    add_subscriber-IsConsistent s topic selector fd v
topic_step-IsConsistent s (unsubscribes topic fd) v = remove_subscriber-IsConsistent s topic fd v
topic_step-IsConsistent s (unsubscribes_one topic selector fd) v =
    remove_subscription-IsConsistent s topic selector fd v
topic_step-IsConsistent s (sets_hash topic idl_hash) v =
    set_idl_hash-IsConsistent topic idl_hash none s v
topic_step-IsConsistent s (closes fd) v = remove_by_fd-IsConsistent s fd v

run_from :
    (s : Topics) (ops : List TopicOp) → IsConsistent none s → IsConsistent none (topic_run s ops)
unfolding topic_run
run_from s [] v = v
run_from s (op ∷ ops) v = run_from (topic_step s op) ops (topic_step-IsConsistent s op v)

-- After any sequence of publications, subscriptions, their removals, changed hashes and closed
-- connections, from an empty TopicManager: the reference count of each topic name is the number of its
-- entries, the count of each connection is the number of its subscriptions, the total is the number of
-- all subscriptions and at most 16384, the publication index names every entry where a connection
-- publishes, and the subscription index names exactly the entries where it subscribes.
pub topic_run-IsConsistent : (ops : List TopicOp) → IsConsistent none (topic_run empty_topics ops)
topic_run-IsConsistent ops = run_from empty_topics ops empty-IsConsistent
