-- ===== src/Registry/Tests.antt =====
-- The registry's theorems where two connections register instances of one service.
use omni_binder.Prelude.{ℕ, ◌≡◌, refl, ◌≢◌, true, none, some, List, [], ◌∷◌, length}
use omni_binder.OrderedMap.{is_some}
use omni_binder.OrderedMap.Keys.{Name, name_eq}
use omni_binder.Types.{ServiceInfo}
use omni_binder.Registry.{
  Entry, Registry, empty_registry, is_registrable, add_service, find_entry, remove_entry_by_name,
  remove_by_fd, refs_of,
}
use omni_binder.Registry.Entries.{registered, find_entry-add_service, find_entry-remove}
use omni_binder.Registry.Takeover.{register_all, last_holder, add_service-register_all}
use omni_binder.Registry.Closing.{unless_held, find_entry-remove_by_fd}
use omni_binder.Registry.History.{
  Op, adds, closes, removes_name, run, IsSound, run-IsSound, add_service_handle,
}

abbrev camera : Name → ServiceInfo
camera instance_id = record {
  name = 99 ∷ 97 ∷ 109 ∷ [];
  host = [];
  port = 9901;
  host_id = 104 ∷ [];
  instance_id = instance_id;
  shm_config = record { req_ring_capacity = 4096; resp_ring_capacity = 4096 };
  interfaces = [];
}

abbrev history : List Op
history =
    adds (camera (49 ∷ [])) 5
    ∷ adds (camera (50 ∷ [])) 6
    ∷ adds (camera (49 ∷ [])) 6
    ∷ closes 5
    ∷ removes_name (99 ∷ [])
    ∷ []

run-IsSound_example : IsSound (run empty_registry history)
run-IsSound_example = run-IsSound history

registrable : is_registrable (camera (49 ∷ [])) ≡ true
unfolding is_registrable
registrable = refl

find_entry-add_service_example :
    find_entry
      (add_service (run empty_registry history) (camera (49 ∷ [])) 7).registry
      (99 ∷ 97 ∷ 109 ∷ [])
      (49 ∷ [])
    ≡ some (
        registered
          (camera (49 ∷ []))
          (add_service (run empty_registry history) (camera (49 ∷ [])) 7).handle
          7)
unfolding name_eq
find_entry-add_service_example =
    find_entry-add_service (run empty_registry history) (camera (49 ∷ [])) 7 (99 ∷ 97 ∷ 109 ∷ [])
      (49 ∷ []) registrable

abbrev first : Registry
first = (add_service empty_registry (camera (49 ∷ [])) 5).registry

abbrev first_entry : Entry
first_entry =
    registered (camera (49 ∷ [])) (add_service empty_registry (camera (49 ∷ [])) 5).handle 5

found_first : find_entry first (99 ∷ 97 ∷ 109 ∷ []) (49 ∷ []) ≡ some first_entry
unfolding name_eq
found_first =
    find_entry-add_service empty_registry (camera (49 ∷ [])) 5 (99 ∷ 97 ∷ 109 ∷ []) (49 ∷ [])
      registrable

-- The instance is taken over by connection 6, another one registers, and 5 comes back.
abbrev later : List (ServiceInfo × ℕ)
later = (camera (49 ∷ []), 6) ∷ (camera (50 ∷ []), 7) ∷ []

add_service-register_all_example :
    let r' = register_all first later in
    let a = add_service r' (camera (49 ∷ [])) 5 in
    (a.handle ≡ first_entry.handle)
    × (a.displaced_fd ≡ some 6)
    × (a.registry.next_handle ≡ r'.next_handle)
unfolding last_holder is_registrable name_eq
add_service-register_all_example =
    add_service-register_all later first first_entry (camera (49 ∷ [])) 5 registrable found_first

find_entry-remove_example :
    let (done, r') = remove_entry_by_name first (99 ∷ 97 ∷ 109 ∷ []) (49 ∷ []) in
    (find_entry r' (99 ∷ 97 ∷ 109 ∷ []) (49 ∷ []) ≡ none)
    × (done ≡ is_some (find_entry first (99 ∷ 97 ∷ 109 ∷ []) (49 ∷ [])))
unfolding name_eq
find_entry-remove_example =
    find_entry-remove first (99 ∷ 97 ∷ 109 ∷ []) (49 ∷ []) (99 ∷ 97 ∷ 109 ∷ []) (49 ∷ [])

find_entry-remove_by_fd_example :
    let r = run empty_registry history in
    let (removed, r') = remove_by_fd r 6 in
    (find_entry r' (99 ∷ 97 ∷ 109 ∷ []) (49 ∷ [])
      ≡ unless_held 6 (find_entry r (99 ∷ 97 ∷ 109 ∷ []) (49 ∷ [])))
    × (length removed ≡ length (refs_of 6 r.fd_index))
find_entry-remove_by_fd_example =
    find_entry-remove_by_fd (run empty_registry history) 6 (99 ∷ 97 ∷ 109 ∷ []) (49 ∷ [])
      (run-IsSound history).indexed

add_service_handle_example :
    (add_service (run empty_registry history) (camera (49 ∷ [])) 8).handle ≢ 0
add_service_handle_example =
    add_service_handle (run empty_registry history) (camera (49 ∷ [])) 8 (run-IsSound history)
      registrable
