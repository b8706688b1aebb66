-- ===== src/Watches/Tests.antt =====
-- The theorems on ServiceWatchNotifier where two connections watch one service.
use omni_binder.Prelude.{◌≡◌, List, [], ◌∷◌, if◌then◌else◌}
use omni_binder.OrderedMap.{find}
use omni_binder.Types.{ServiceIdentity}
use omni_binder.Watches.{WatchFilter, watch_key, empty_watches, matching}
use omni_binder.Watches.Indices.{key}
use omni_binder.Watches.Matching.{
  WatchOp, watches, unwatches, watch_run, watch_run-IsWatched, times, reached, times-matching,
}

abbrev any_camera : WatchFilter
any_camera = record { service_name = 99 ∷ []; host_id = []; instance_id = [] }

abbrev first_camera : WatchFilter
first_camera = record any_camera { instance_id = 49 ∷ [] }

abbrev first_instance : ServiceIdentity
first_instance = record { name = 99 ∷ []; host_id = 104 ∷ []; instance_id = 49 ∷ [] }

abbrev history : List WatchOp
history =
    watches 5 1 (any_camera ∷ first_camera ∷ [])
    ∷ watches 6 1 (first_camera ∷ [])
    ∷ watches 6 2 (any_camera ∷ [])
    ∷ unwatches 6 1
    ∷ []

times-matching_example :
    times (key 5 1) (matching (watch_run empty_watches history) first_instance) ≡ (
      if reached first_instance (find (key 5 1) (watch_run empty_watches history).groups)
      then 1
      else 0)
times-matching_example =
    times-matching (watch_run empty_watches history) (watch_run-IsWatched history) first_instance
      (key 5 1)
