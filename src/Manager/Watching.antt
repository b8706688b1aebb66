-- ===== src/Manager/Watching.antt =====
-- sm_registry.cpp: handleSubscribeServiceWatch and what it sends at once.
use omni_binder.Prelude.{
  ℕ, zero, suc, Bool, true, false, ◌&&◌, ◌||◌, not, Option, none, some, List, [], ◌∷◌, ◌++◌, ltb,
  ◌==◌, if◌then◌else◌, length,
}
use omni_binder.OrderedMap.{contains}
use omni_binder.OrderedMap.Keys.{number_key}
use omni_binder.Types.{ServiceInfo, max_service_name_length}
use omni_binder.Reader.{Reader, ◌>>=◌, ◌>>◌, done, check, read_bytes, read_uint32, read_uint64}
use omni_binder.Registry.{list_service_instances}
use omni_binder.Topics.{is_empty}
use omni_binder.Watches.{WatchFilter, filter_matches, overlaps, subscribe}
use omni_binder.Manager.{Manager}
use omni_binder.Manager.Ending.{send_watch_notify}
use omni_binder.Manager.Registering.{send_bool_reply, identity_of}

unfoldable pub overlaps_any : WatchFilter → List WatchFilter → Bool
overlaps_any f [] = false
overlaps_any f (g ∷ filters) = overlaps g f || overlaps_any f filters

-- The loop that reads the filters; `seen` are those before.
unfoldable pub read_watch_filters : ℕ → List WatchFilter → Reader (List WatchFilter)
read_watch_filters zero seen = done seen
read_watch_filters (suc n) seen = do
  name ← read_bytes
  host_id ← read_bytes
  instance_id ← read_bytes
  check (
      not (is_empty name)
      && not (ltb max_service_name_length (length name))
      && not (ltb max_service_name_length (length host_id))
      && not (ltb max_service_name_length (length instance_id))
      && not (
          overlaps_any
            (record { service_name = name; host_id = host_id; instance_id = instance_id }) seen))
  read_watch_filters n
      (seen ++ record { service_name = name; host_id = host_id; instance_id = instance_id } ∷ [])

unfoldable pub read_watch_request : Reader (ℕ × List WatchFilter)
read_watch_request = do
  watch_id ← read_uint64
  count ← read_uint32
  check (not (watch_id == 0 || count == 0 || ltb 64 count))
  filters ← read_watch_filters count []
  done (watch_id, filters)

module _ (alloc : ℕ → Option (List ℕ)) (close : Manager → ℕ → Manager) where
  -- The loop of sendInitialServiceWatch, and whether an instance was found.
  unfoldable pub send_instances :
      ℕ → ℕ → WatchFilter → List ServiceInfo → Bool → Manager → Bool × Manager
  send_instances fd watch_id f [] found m = (found, m)
  send_instances fd watch_id f (info ∷ infos) found m =
      let taken = filter_matches f (identity_of info) in
      send_instances fd watch_id f infos (found || taken) (
        if taken && contains fd m.clients
        then send_watch_notify alloc close m fd watch_id (identity_of info) true
        else m)

  unfoldable pub send_initial_service_watch : ℕ → ℕ → Manager → WatchFilter → Manager
  send_initial_service_watch fd watch_id m f =
      let (found, m') =
        send_instances fd watch_id f (list_service_instances m.registry f.service_name) false m in
      if not found && contains fd m'.clients
      then send_watch_notify alloc close m' fd watch_id
          (record { name = f.service_name; host_id = []; instance_id = f.instance_id }) false
      else m'

  unfoldable pub send_initials : ℕ → ℕ → List WatchFilter → Manager → Manager
  send_initials fd watch_id [] m = m
  send_initials fd watch_id (f ∷ filters) m =
      send_initials fd watch_id filters
        (if contains fd m.clients then send_initial_service_watch fd watch_id m f else m)

  unfoldable pub handle_subscribe_service_watch : Manager → ℕ → ℕ → List ℕ → Manager
  handle_subscribe_service_watch m fd seq payload = elim (read_watch_request payload 0) [
    | none ↦ send_bool_reply alloc close m fd 0x0028 seq false
    | some ((watch_id, filters), next) ↦
        let (accepted, watches) = subscribe m.watches fd watch_id filters in
        let m' =
          send_bool_reply alloc close (record m { watches = watches }) fd 0x0028 seq accepted in
        if accepted then send_initials fd watch_id filters m' else m'
  ]
