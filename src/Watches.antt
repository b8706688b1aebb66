-- ===== src/Watches.antt =====
-- service_manager/service_watch_notifier.h and service_watch_notifier.cpp: which connection watches
-- which services, in groups of filters, with the indices by service and by connection.
pub mod Indices
pub mod Matching
pub mod Leaving
mod Tests
use omni_binder.Prelude.{
  ℕ, ◌≡◌, ◌↔◌, Bool, true, false, ◌&&◌, ◌||◌, not, Option, none, some, List, [], ◌∷◌, arith, ltb,
  ◌==◌, ==_iff, if◌then◌else◌,
}
use omni_binder.OrderedMap.{Key, Map, Set, find, contains, insert, erase, keys}
use omni_binder.OrderedMap.Keys.{Name, name_eq, name_key, number_key}
use omni_binder.OrderedMap.Nested.{or_empty, insert2, erase2}
use omni_binder.Types.{ServiceIdentity}
use omni_binder.Topics.{is_empty}

pub record WatchFilter : Type 0 where
  pub service_name : Name
  pub host_id : Name
  pub instance_id : Name

pub record WatchGroup : Type 0 where
  pub subscriber_fd : ℕ
  pub watch_id : ℕ
  pub filters : List WatchFilter

pub record WatchKey : Type 0 where
  pub fd : ℕ
  pub watch_id : ℕ

abbrev pub key_eq : WatchKey → WatchKey → Bool
key_eq a b = a.fd == b.fd && a.watch_id == b.watch_id

-- operator<
abbrev pub key_before : WatchKey → WatchKey → Bool
key_before a b = if not (a.fd == b.fd) then ltb a.fd b.fd else ltb a.watch_id b.watch_id

pub key_eq_iff : (a b : WatchKey) → (key_eq a b ≡ true) ↔ (a ≡ b)
key_eq_iff a b = ground (arith, ==_iff a.fd b.fd, ==_iff a.watch_id b.watch_id)

instance abbrev pub watch_key : Key WatchKey
watch_key = record { same = key_eq; before = key_before; same_iff = key_eq_iff }

pub record Watches : Type 0 where
  pub groups : Map WatchKey WatchGroup
  pub service_index : Map Name (Set WatchKey)
  pub subscriber_index : Map ℕ (Set ℕ)

unfoldable pub empty_watches : Watches
empty_watches = record { groups = []; service_index = []; subscriber_index = [] }

unfoldable pub filter_matches : WatchFilter → ServiceIdentity → Bool
filter_matches f identity =
    if not (name_eq f.service_name identity.name)
    then false
    else not (not (is_empty f.instance_id) && not (name_eq f.instance_id identity.instance_id))

unfoldable pub overlaps : WatchFilter → WatchFilter → Bool
overlaps a b =
    if not (name_eq a.service_name b.service_name)
    then false
    else not (
        not (is_empty a.instance_id)
        && not (is_empty b.instance_id)
        && not (name_eq a.instance_id b.instance_id))

-- The loop of subscribe over the filters.
unfoldable pub index_services :
    WatchKey → List WatchFilter → Map Name (Set WatchKey) → Map Name (Set WatchKey)
index_services key [] index = index
index_services key (f ∷ filters) index =
    index_services key filters (insert2 f.service_name key tt index)

-- A descriptor below 0 is not a number here.
unfoldable pub subscribe : Watches → ℕ → ℕ → List WatchFilter → Bool × Watches
subscribe w fd watch_id filters =
    let key : WatchKey = record { fd = fd; watch_id = watch_id } in
    if watch_id == 0 || is_empty filters || contains key w.groups then (false, w) else (
      true,
      record {
        groups =
            insert key (record { subscriber_fd = fd; watch_id = watch_id; filters = filters })
              w.groups;
        service_index = index_services key filters w.service_index;
        subscriber_index = insert2 fd watch_id tt w.subscriber_index;
      },
    )

-- The loop of eraseGroup over the filters.
unfoldable pub unindex_services :
    WatchKey → List WatchFilter → Map Name (Set WatchKey) → Map Name (Set WatchKey)
unindex_services key [] index = index
unindex_services key (f ∷ filters) index =
    unindex_services key filters (erase2 f.service_name key index)

unfoldable pub erase_group : Watches → WatchKey → WatchGroup → Watches
erase_group w key group = record {
  groups = erase key w.groups;
  service_index = unindex_services key group.filters w.service_index;
  subscriber_index = erase2 group.subscriber_fd group.watch_id w.subscriber_index;
}

unfoldable pub unsubscribe : Watches → ℕ → ℕ → Bool × Watches
unsubscribe w fd watch_id =
    let key : WatchKey = record { fd = fd; watch_id = watch_id } in
    elim (find key w.groups) [ none ↦ (false, w) | some group ↦ (true, erase_group w key group) ]

-- The loop of removeSubscriber.
unfoldable pub remove_watches : ℕ → List ℕ → Watches → Watches
remove_watches fd [] w = w
remove_watches fd (id ∷ ids) w =
    let key : WatchKey = record { fd = fd; watch_id = id } in
    remove_watches fd ids
      (elim (find key w.groups) [ none ↦ w | some group ↦ erase_group w key group ])

unfoldable pub remove_watcher : Watches → ℕ → Watches
remove_watcher w fd = remove_watches fd (keys (or_empty (find fd w.subscriber_index))) w

unfoldable pub any_filter : List WatchFilter → ServiceIdentity → Bool
any_filter [] identity = false
any_filter (f ∷ filters) identity = filter_matches f identity || any_filter filters identity

-- The loop of matching.
unfoldable pub collect_groups :
    Map WatchKey WatchGroup → ServiceIdentity → List WatchKey → List WatchGroup
collect_groups groups identity [] = []
collect_groups groups identity (k ∷ ks) =
    let rest = collect_groups groups identity ks in
    elim (find k groups) [
      | none ↦ rest
      | some group ↦ if any_filter group.filters identity then group ∷ rest else rest
    ]

unfoldable pub matching : Watches → ServiceIdentity → List WatchGroup
matching w identity =
    collect_groups w.groups identity (keys (or_empty (find identity.name w.service_index)))
