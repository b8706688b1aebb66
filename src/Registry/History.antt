-- ===== src/Registry/History.antt =====
-- The registry over any sequence of registrations, removals and closed connections.
use omni_binder.Prelude.{
  ℕ, ◌≡◌, refl, ◌≢◌, true, false, Option, none, some, List, [], ◌∷◌, arith, ◌==◌, if◌then◌else◌,
  Bool-cases, Option-cases, inl, inr,
}
use omni_binder.OrderedMap.{find}
use omni_binder.OrderedMap.Keys.{Name, name_key, number_key}
use omni_binder.OrderedMap.Nested.{find2}
use omni_binder.Types.{ServiceInfo, ServiceIdentity, instance_key}
use omni_binder.Registry.{
  Entry, Registry, find_entry, add_service, take_over, register, is_registrable, generate_handle,
  remove_service, remove_service_by_identity, remove_entry_by_name, remove_by_fd, first_instance,
  empty_registry, refs_of,
}
use omni_binder.Registry.Entries.{same_instance, find_entry-add_service, find_entry-remove}
use omni_binder.Registry.Index.{IsIndexed, count_ref, add_service-IsIndexed, remove-IsIndexed}
use omni_binder.Registry.Closing.{unless_held, find_entry-remove_by_fd, remove_by_fd-IsIndexed}

pub data Op : Type 0 where
  adds : ServiceInfo → ℕ → Op
  removes_name : Name → Op
  removes_identity : ServiceIdentity → Op
  closes : ℕ → Op

unfoldable pub step : Registry → Op → Registry
step r (adds info fd) = (add_service r info fd).registry
step r (removes_name name) = (remove_service r name).1
step r (removes_identity identity) = (remove_service_by_identity r identity).1
step r (closes fd) = (remove_by_fd r fd).1

unfoldable pub run : Registry → List Op → Registry
run r [] = r
run r (op ∷ ops) = run (step r op) ops

abbrev pub IsNamed : Option Entry → Type 0
IsNamed none = Unit
IsNamed (some e) = e.handle ≢ 0

pub record IsSound (r : Registry) : Type 0 where
  pub indexed : IsIndexed r
  pub handles : (n k : Name) → IsNamed (find_entry r n k)

generate_handle-ne : (next : ℕ) → (generate_handle next).0 ≢ 0
unfolding generate_handle
generate_handle-ne next = ground arith

-- In a sound registry, an accepted registration never answers the invalid handle 0.
pub add_service_handle :
    (r : Registry) (info : ServiceInfo) (fd : ℕ)
    → IsSound r
    → is_registrable info ≡ true
    → (add_service r info fd).handle ≢ 0
unfolding add_service register take_over
add_service_handle r info fd v h = elim (Option-cases (find_entry r info.name info.instance_id)) [
  | inl e ↦ rw (h, e, add_service) (generate_handle-ne r.next_handle)
  | inr (old, e) ↦ rw (h, e, add_service) (rw e at (v.handles info.name info.instance_id))
]

handles-add :
    (r : Registry) (info : ServiceInfo) (fd : ℕ) (n k : Name)
    → IsSound r
    → IsNamed (find_entry (add_service r info fd).registry n k)
unfolding add_service
handles-add r info fd n k v = elim (Bool-cases (is_registrable info)) [
  | inr h ↦ rw (h, add_service) (v.handles n k)
  | inl h ↦
      rw (find_entry-add_service r info fd n k h)
        (elim (same_instance info.name info.instance_id n k)
          as (λ b. IsNamed (
            if b
            then some
                (record { info = info; handle = (add_service r info fd).handle; control_fd = fd })
            else find_entry r n k)) [
              | true ↦ add_service_handle r info fd v h
              | false ↦ v.handles n k
            ])
]

handles-remove :
    (r : Registry) (name key n k : Name)
    → IsSound r
    → IsNamed (find_entry (remove_entry_by_name r name key).1 n k)
handles-remove r name key n k v =
    rw ((find_entry-remove r name key n k).0)
      (elim (same_instance name key n k) as (λ b. IsNamed (if b then none else find_entry r n k)) [
        | true ↦ tt
        | false ↦ v.handles n k
      ])

IsNamed-unless_held : (fd : ℕ) (o : Option Entry) → IsNamed o → IsNamed (unless_held fd o)
IsNamed-unless_held fd none h = tt
IsNamed-unless_held fd (some e) h =
    elim (e.control_fd == fd) as (λ b. IsNamed (if b then none else some e)) [
      | true ↦ tt
      | false ↦ h
    ]

remove_entry-IsSound :
    (r : Registry) (name key : Name) → IsSound r → IsSound (remove_entry_by_name r name key).1
remove_entry-IsSound r name key v = record {
  indexed = remove-IsIndexed r name key v.indexed;
  handles = λ n k. handles-remove r name key n k v;
}

remove_service-IsSound :
    (r : Registry) (name : Name) → IsSound r → IsSound (remove_service r name).1
unfolding remove_service
remove_service-IsSound r name v = elim (Option-cases (first_instance r name)) [
  | inl e ↦ rw (e, remove_service) v
  | inr ((key, entry), e) ↦ rw (e, remove_service) (remove_entry-IsSound r name key v)
]

pub step-IsSound : (r : Registry) (op : Op) → IsSound r → IsSound (step r op)
unfolding step remove_service_by_identity
step-IsSound r (adds info fd) v = record {
  indexed = add_service-IsIndexed r info fd v.indexed;
  handles = λ n k. handles-add r info fd n k v;
}
step-IsSound r (removes_name name) v = remove_service-IsSound r name v
step-IsSound r (removes_identity identity) v =
    remove_entry-IsSound r identity.name (instance_key identity.instance_id) v
step-IsSound r (closes fd) v = record {
  indexed = remove_by_fd-IsIndexed r fd v.indexed;
  handles = λ n k.
      rw ((find_entry-remove_by_fd r fd n k v.indexed).0)
        (IsNamed-unless_held fd (find_entry r n k) (v.handles n k));
}

empty_registry-IsSound : IsSound empty_registry
unfolding empty_registry find_entry find find2 refs_of count_ref
empty_registry-IsSound = record { indexed = λ fd n k. refl; handles = λ n k. tt }

run-IsSound_from : (r : Registry) (ops : List Op) → IsSound r → IsSound (run r ops)
unfolding run
run-IsSound_from r [] v = v
run-IsSound_from r (op ∷ ops) v = run-IsSound_from (step r op) ops (step-IsSound r op v)

-- After any sequence of registrations, removals and closed connections on the empty registry, each
-- instance stands exactly once in the index, under the connection that holds it, and no entry has the
-- invalid handle.
pub run-IsSound : (ops : List Op) → IsSound (run empty_registry ops)
run-IsSound ops = run-IsSound_from empty_registry ops empty_registry-IsSound
