-- ===== src/Topics/Matched.antt =====
-- Matching of subscriptions and publishers in TopicManager.
use omni_binder.Prelude.{◌≡◌, refl, true, false, ◌||◌, List, [], ◌∷◌, ◌++◌, arith, if◌then◌else◌}
use omni_binder.OrderedMap.{Map}
use omni_binder.OrderedMap.Each.{Each}
use omni_binder.OrderedMap.Keys.{Name, name_eq, name_key, number_key}
use omni_binder.Topics.{TopicEntry, PublisherSlot, Filter, matches, is_topic_only, empty_topics}
use omni_binder.Topics.Queries.{
  PublisherView, view_of, selected, matching_in, get_matching_publishers,
}
use omni_binder.Topics.History.{TopicOp, topic_run}
use omni_binder.Topics.Offers.{IsOwnEntry, AllOf}
use omni_binder.Topics.Filed.{topic_run-IsFiled}

-- All publishers of an entry, or of a topic, whose service matches the subscription.
pub matched : Filter → Map Name PublisherSlot → List PublisherView
matched selector [] = []
matched selector ((i, slot) ∷ slots) =
    if matches selector slot.info
    then view_of slot ∷ matched selector slots
    else matched selector slots

pub matched_at : Name → Filter → Map Name TopicEntry → List PublisherView
matched_at topic selector [] = []
matched_at topic selector ((k, e) ∷ entries) =
    if name_eq e.topic_name topic
    then matched selector e.publishers ++ matched_at topic selector entries
    else matched_at topic selector entries

selected_lem :
    (service : Name) (selector : Filter) (slots : Map Name PublisherSlot)
    → AllOf service slots
    → (is_topic_only selector.mode || name_eq service selector.publisher_service) ≡ true
    → selected selector slots ≡ matched selector slots
unfolding selected matched matches
selected_lem service selector [] all h = refl
selected_lem service selector ((i, slot) ∷ slots) all h =
    ground (arith, h, all.0, selected_lem service selector slots all.1 h)

matched_none :
    (service : Name) (selector : Filter) (slots : Map Name PublisherSlot)
    → AllOf service slots
    → (is_topic_only selector.mode || name_eq service selector.publisher_service) ≡ false
    → matched selector slots ≡ []
unfolding matched matches
matched_none service selector [] all h = refl
matched_none service selector ((i, slot) ∷ slots) all h =
    ground (arith, h, all.0, matched_none service selector slots all.1 h)

matching_in_lem :
    (topic : Name) (selector : Filter) (m : Map Name TopicEntry)
    → Each IsOwnEntry m
    → matching_in topic selector m ≡ matched_at topic selector m
unfolding matching_in matched_at
matching_in_lem topic selector [] all = refl
matching_in_lem topic selector ((k, e) ∷ m) all = ground (
  arith,
  matching_in_lem topic selector m all.1,
  selected_lem e.service_name selector e.publishers all.0.1,
  matched_none e.service_name selector e.publishers all.0.1,
)

-- After any sequence of operations on an empty TopicManager, getMatchingPublishers, which tests the
-- service of an entry once and the instance only for instance subscriptions, answers just the
-- publishers of the topic that the subscription matches, one by one and in their order.
pub get_matching_publishers_lem :
    (ops : List TopicOp) (topic : Name) (selector : Filter)
    → let s = topic_run empty_topics ops in
      get_matching_publishers s topic selector ≡ matched_at topic selector s.topics
unfolding get_matching_publishers
get_matching_publishers_lem ops topic selector =
    matching_in_lem topic selector (topic_run empty_topics ops).topics (topic_run-IsFiled ops)
