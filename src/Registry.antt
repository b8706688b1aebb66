-- ===== src/Registry.antt =====
-- service_manager/service_registry.h and service_registry.cpp: the registered services, with the
-- index from a control connection to the instances that it registered. Descriptors are numbers; -1
-- for "none" is an `Option`. Log lines are left out.
pub mod Entries
pub mod Takeover
pub mod Index
pub mod Closing
pub mod History
mod Tests
use omni_binder.Prelude.{
  ℕ, ◌+◌, ◌%◌, Bool, true, false, ◌&&◌, ◌||◌, not, Option, none, some, List, [], ◌∷◌, ◌++◌, map,
  ltb, ◌==◌, if◌then◌else◌, length, add32,
}
use omni_binder.OrderedMap.{Map, find, insert, erase}
use omni_binder.OrderedMap.Keys.{Name, name_eq, name_key, number_key}
use omni_binder.OrderedMap.Nested.{find2, insert2, erase2}
use omni_binder.Types.{ServiceInfo, ServiceIdentity, max_service_name_length, instance_key}

pub record Entry : Type 0 where
  pub info : ServiceInfo
  pub handle : ℕ
  pub control_fd : ℕ

pub record Ref : Type 0 where
  pub name : Name
  pub instance_key : Name

pub record Registry : Type 0 where
  pub services : Map Name (Map Name Entry)
  pub fd_index : Map ℕ (List Ref)
  pub next_handle : ℕ

abbrev pub invalid_handle : ℕ
invalid_handle = 0

unfoldable pub empty_registry : Registry
empty_registry = record { services = []; fd_index = []; next_handle = 1 }

-- The handle, and the next one.
pub generate_handle : ℕ → ℕ × ℕ
generate_handle next =
    if next == invalid_handle then (add32 next 1, add32 (add32 next 1) 1) else (next, add32 next 1)

unfoldable pub find_entry : Registry → Name → Name → Option Entry
find_entry r name key = find2 name key r.services

pub is_ref : Name → Name → Ref → Bool
is_ref name key ref = name_eq ref.name name && name_eq ref.instance_key key

-- The first reference to the instance goes.
remove_ref : Name → Name → List Ref → List Ref
remove_ref name key [] = []
remove_ref name key (ref ∷ refs) =
    if is_ref name key ref then refs else ref ∷ remove_ref name key refs

put_refs : ℕ → List Ref → Map ℕ (List Ref) → Map ℕ (List Ref)
put_refs fd [] index = erase fd index
put_refs fd (ref ∷ refs) index = insert fd (ref ∷ refs) index

remove_from_fd_index : ℕ → Name → Name → Map ℕ (List Ref) → Map ℕ (List Ref)
remove_from_fd_index fd name key index = elim (find fd index) [
  | none ↦ index
  | some refs ↦ put_refs fd (remove_ref name key refs) index
]

pub refs_of : ℕ → Map ℕ (List Ref) → List Ref
refs_of fd index = elim (find fd index) [ none ↦ [] | some refs ↦ refs ]

-- fd_to_services_[fd].push_back(...)
push_ref : ℕ → Name → Name → Map ℕ (List Ref) → Map ℕ (List Ref)
push_ref fd name key index =
    insert fd (refs_of fd index ++ record { name = name; instance_key = key } ∷ []) index

pub remove_entry_by_name : Registry → Name → Name → Bool × Registry
remove_entry_by_name r name key = elim (find_entry r name key) [
  | none ↦ (false, r)
  | some entry ↦ (
    true,
    record r {
      services = erase2 name key r.services;
      fd_index = remove_from_fd_index entry.control_fd name key r.fd_index;
    },
  )
]

pub record Added : Type 0 where
  pub handle : ℕ
  pub displaced_fd : Option ℕ
  pub registry : Registry

-- The instance is registered already: the newer registration takes it over.
pub take_over : Registry → ServiceInfo → ℕ → Entry → Added
take_over r info fd old =
    let key = instance_key info.instance_id in
    let moved = not (old.control_fd == fd) in
    record {
      handle = old.handle;
      displaced_fd = if moved then some old.control_fd else none;
      registry = record r {
        services =
            insert2 info.name key (record { info = info; handle = old.handle; control_fd = fd })
              r.services;
        fd_index =
            if moved
            then push_ref fd info.name key
                (remove_from_fd_index old.control_fd info.name key r.fd_index)
            else r.fd_index;
      };
    }

pub register : Registry → ServiceInfo → ℕ → Added
register r info fd =
    let key = instance_key info.instance_id in
    let (handle, next) = generate_handle r.next_handle in
    record {
      handle = handle;
      displaced_fd = none;
      registry = record {
        services =
            insert2 info.name key (record { info = info; handle = handle; control_fd = fd })
              r.services;
        fd_index = push_ref fd info.name key r.fd_index;
        next_handle = next;
      };
    }

pub is_registrable : ServiceInfo → Bool
is_registrable info =
    not (length info.name == 0)
    && not (ltb max_service_name_length (length info.name))
    && not (
        ltb max_service_name_length (length info.host_id)
        || ltb max_service_name_length (length info.instance_id))

unfoldable pub add_service : Registry → ServiceInfo → ℕ → Added
add_service r info fd =
    if not (is_registrable info)
    then record { handle = invalid_handle; displaced_fd = none; registry = r }
    else elim (find_entry r info.name (instance_key info.instance_id)) [
      | some old ↦ take_over r info fd old
      | none ↦ register r info fd
    ]

-- The first instance of the name.
first_instance : Registry → Name → Option (Name × Entry)
first_instance r name = elim (find name r.services) [
  | none ↦ none
  | some instances ↦ elim instances [ [] ↦ none | first ∷ rest ↦ some first ]
]

pub remove_service : Registry → Name → Bool × Registry
remove_service r name = elim (first_instance r name) [
  | none ↦ (false, r)
  | some (key, entry) ↦ remove_entry_by_name r name key
]

unfoldable pub remove_service_by_identity : Registry → ServiceIdentity → Bool × Registry
remove_service_by_identity r identity =
    remove_entry_by_name r identity.name (instance_key identity.instance_id)

identity_of : ServiceInfo → ServiceIdentity
identity_of info = record {
  name = info.name;
  host_id = info.host_id;
  instance_id = info.instance_id;
}

-- The loop of removeByFd over the references of the connection.
remove_refs :
    Map Name (Map Name Entry) → List Ref → List ServiceIdentity × Map Name (Map Name Entry)
remove_refs services [] = ([], services)
remove_refs services (ref ∷ refs) = elim (find2 ref.name ref.instance_key services) [
  | none ↦ remove_refs services refs
  | some entry ↦
      let (removed, services') = remove_refs (erase2 ref.name ref.instance_key services) refs in
      (identity_of entry.info ∷ removed, services')
]

pub remove_by_fd : Registry → ℕ → List ServiceIdentity × Registry
remove_by_fd r fd = elim (find fd r.fd_index) [
  | none ↦ ([], r)
  | some refs ↦
      let (removed, services) = remove_refs r.services refs in
      (removed, record r { services = services; fd_index = erase fd r.fd_index })
]

pub find_service : Registry → Name → Option Entry
find_service r name = elim (first_instance r name) [ none ↦ none | some (key, entry) ↦ some entry ]

pub find_service_by_identity : Registry → ServiceIdentity → Option Entry
find_service_by_identity r identity = find_entry r identity.name (instance_key identity.instance_id)

first_named : Registry → Name → List Ref → Option Entry
first_named r name [] = none
first_named r name (ref ∷ refs) =
    let rest = first_named r name refs in
    if not (name_eq ref.name name)
    then rest
    else elim (find_entry r ref.name ref.instance_key) [ none ↦ rest | some entry ↦ some entry ]

pub find_service_by_fd_and_name : Registry → ℕ → Name → Option Entry
find_service_by_fd_and_name r fd name = elim (find fd r.fd_index) [
  | none ↦ none
  | some refs ↦ first_named r name refs
]

infos : Map Name Entry → List ServiceInfo
infos = map (λ (e : Name × Entry). e.1.info)

all_infos : Map Name (Map Name Entry) → List ServiceInfo
all_infos [] = []
all_infos ((name, instances) ∷ services) = infos instances ++ all_infos services

pub list_services : Registry → List ServiceInfo
list_services r = all_infos r.services

pub list_service_instances : Registry → Name → List ServiceInfo
list_service_instances r name = elim (find name r.services) [
  | none ↦ []
  | some instances ↦ infos instances
]

count_all : Map Name (Map Name Entry) → ℕ
count_all [] = 0
count_all ((name, instances) ∷ services) = length instances + count_all services

pub count : Registry → ℕ
count r = count_all r.services

pub exists : Registry → Name → Bool
exists r name = elim (find name r.services) [
  | none ↦ false
  | some instances ↦ not (length instances == 0)
]

pub get_control_fd : Registry → Name → Option ℕ
get_control_fd r name = elim (first_instance r name) [
  | none ↦ none
  | some (key, entry) ↦ some entry.control_fd
]

unfoldable pub names_seen : Name → List Name → Bool
names_seen name [] = false
names_seen name (n ∷ names) = name_eq n name || names_seen name names

distinct_names : List Name → List Ref → List Name
distinct_names names [] = names
distinct_names names (ref ∷ refs) =
    distinct_names (if names_seen ref.name names then names else names ++ ref.name ∷ []) refs

pub list_service_names_by_fd : Registry → ℕ → List Name
list_service_names_by_fd r fd = distinct_names [] (refs_of fd r.fd_index)

any_named : Name → List Ref → Bool
any_named name [] = false
any_named name (ref ∷ refs) = name_eq ref.name name || any_named name refs

pub owns_service : Registry → ℕ → Name → Bool
owns_service r fd name = any_named name (refs_of fd r.fd_index)
