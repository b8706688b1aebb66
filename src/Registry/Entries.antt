-- ===== src/Registry/Entries.antt =====
-- Which entry each logical instance (name, instance id) has after an operation.
use omni_binder.Prelude.{
  ℕ, ◌≡◌, refl, Bool, true, false, ◌&&◌, none, some, arith, ◌==◌, if◌then◌else◌, Option-cases, inl,
  inr,
}
use omni_binder.OrderedMap.{is_some}
use omni_binder.OrderedMap.Keys.{Name, name_eq, name_eq_iff, name_key, number_key}
use omni_binder.OrderedMap.Nested.{find2-insert2, find2-erase2}
use omni_binder.Types.{ServiceInfo, instance_key}
use omni_binder.Registry.{
  Entry, Registry, find_entry, add_service, take_over, register, is_registrable,
  remove_entry_by_name, generate_handle, invalid_handle,
}

-- The two keys name one instance.
abbrev pub same_instance : Name → Name → Name → Name → Bool
same_instance n k n' k' = name_eq n n' && name_eq k k'

abbrev pub registered : ServiceInfo → ℕ → ℕ → Entry
registered info handle fd = record { info = info; handle = handle; control_fd = fd }

-- An accepted registration gives its own instance the new information, connection and handle, and
-- leaves every other instance as it was, whatever its name.
pub find_entry-add_service :
    (r : Registry) (info : ServiceInfo) (fd : ℕ) (n k : Name)
    → is_registrable info ≡ true
    → let a = add_service r info fd in
      find_entry a.registry n k ≡ (
        if same_instance info.name (instance_key info.instance_id) n k
        then some (registered info a.handle fd)
        else find_entry r n k)
unfolding add_service take_over register find_entry
find_entry-add_service r info fd n k h =
    elim (Option-cases (find_entry r info.name info.instance_id)) [
      | inl e ↦
          rw (h, e, add_service)
            (find2-insert2 info.name n info.instance_id k
              (registered info (generate_handle r.next_handle).0 fd) r.services)
      | inr (old, e) ↦
          rw (h, e, add_service)
            (find2-insert2 info.name n info.instance_id k (registered info old.handle fd)
              r.services)
    ]

-- An accepted registration of an instance that is there already keeps its handle, uses up no handle,
-- and names the connection that it displaces when that is another one.
pub add_service_takes_over :
    (r : Registry) (info : ServiceInfo) (fd : ℕ) (old : Entry)
    → is_registrable info ≡ true
    → find_entry r info.name (instance_key info.instance_id) ≡ some old
    → let a = add_service r info fd in
      (a.handle ≡ old.handle)
      × (a.displaced_fd ≡ (if old.control_fd == fd then none else some old.control_fd))
      × (a.registry.next_handle ≡ r.next_handle)
unfolding add_service take_over
add_service_takes_over r info fd old h e = rw (h, e, add_service) (refl, ground arith, refl)

-- A registration with an empty name, or with a name, host or instance of more than 256 bytes, answers the
-- invalid handle, displaces nobody and leaves the registry as it was.
pub add_service_refused :
    (r : Registry) (info : ServiceInfo) (fd : ℕ)
    → is_registrable info ≡ false
    → let a = add_service r info fd in
      (a.handle ≡ invalid_handle) × (a.displaced_fd ≡ none) × (a.registry ≡ r)
unfolding add_service
add_service_refused r info fd h = rw (h, add_service) (refl, refl, refl)

-- Removing an instance removes its entry, leaves every other one, and says whether there was one.
pub find_entry-remove :
    (r : Registry) (name key n k : Name)
    → let (done, r') = remove_entry_by_name r name key in
      (find_entry r' n k ≡ (if same_instance name key n k then none else find_entry r n k))
      × (done ≡ is_some (find_entry r name key))
unfolding remove_entry_by_name find_entry
find_entry-remove r name key n k = elim (Option-cases (find_entry r name key)) [
  | inl e ↦
      rw (e, remove_entry_by_name) (ground (arith, name_eq_iff name n, name_eq_iff key k, e), refl)
  | inr (old, e) ↦ rw (e, remove_entry_by_name) (find2-erase2 name n key k r.services, refl)
]
