-- ===== src/Topics/Tests.antt =====
-- The theorems on TopicManager where two connections publish and subscribe to one topic.
use omni_binder.Prelude.{◌≡◌, refl, none, List, [], ◌∷◌}
use omni_binder.OrderedMap.Keys.{Name}
use omni_binder.Types.{ServiceInfo}
use omni_binder.Topics.{Filter, by_service, by_instance, empty_topics}
use omni_binder.Topics.Closing.{remove_by_fd}
use omni_binder.Topics.Consistent.{IsConsistent}
use omni_binder.Topics.Gone.{IsGone}
use omni_binder.Topics.Removal.{remove_by_fd-IsGone}
use omni_binder.Topics.EntryKeys.{entry_key_injective}
use omni_binder.Topics.Queries.{get_matching_publishers}
use omni_binder.Topics.Matched.{matched_at, get_matching_publishers_lem}
use omni_binder.Topics.History.{
  TopicOp, publishes, subscribes, unsubscribes_one, sets_hash, closes, topic_run,
  topic_run-IsConsistent,
}

abbrev camera : Name → ServiceInfo
camera instance_id = record {
  name = 99 ∷ 97 ∷ 109 ∷ [];
  host = [];
  port = 9901;
  host_id = 104 ∷ [];
  instance_id = instance_id;
  shm_config = record { req_ring_capacity = 4096; resp_ring_capacity = 4096 };
  interfaces = [];
}

abbrev frames : Name
frames = 102 ∷ 114 ∷ []

abbrev of_service : Filter
of_service = record {
  mode = by_service;
  publisher_service = 99 ∷ 97 ∷ 109 ∷ [];
  host_id = [];
  instance_id = [];
}

abbrev of_first : Filter
of_first = record of_service { mode = by_instance; instance_id = 49 ∷ [] }

abbrev history : List TopicOp
history =
    publishes frames (camera (49 ∷ [])) 5 77
    ∷ subscribes frames of_service 6
    ∷ subscribes frames of_first 6
    ∷ publishes frames (camera (50 ∷ [])) 7 77
    ∷ sets_hash frames 78
    ∷ unsubscribes_one frames of_first 6
    ∷ closes 7
    ∷ []

topic_run-IsConsistent_example : IsConsistent none (topic_run empty_topics history)
topic_run-IsConsistent_example = topic_run-IsConsistent history

remove_by_fd-IsGone_example : IsGone 6 (remove_by_fd (topic_run empty_topics history) 6).1
remove_by_fd-IsGone_example =
    remove_by_fd-IsGone (topic_run empty_topics history) 6 (topic_run-IsConsistent history)

entry_key_injective_example : (frames ≡ frames) × (frames ≡ frames)
entry_key_injective_example = entry_key_injective frames frames frames frames refl

get_matching_publishers_lem_example :
    get_matching_publishers (topic_run empty_topics history) frames of_first
    ≡ matched_at frames of_first (topic_run empty_topics history).topics
get_matching_publishers_lem_example = get_matching_publishers_lem history frames of_first
