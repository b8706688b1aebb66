-- ===== src/Watches/Indices.antt =====
-- The indices of ServiceWatchNotifier against its groups.
use omni_binder.Prelude.{
  ℕ, ◌≡◌, refl, Bool, true, false, ◌&&◌, ◌||◌, not, Option, none, some, List, [], ◌∷◌, arith, ◌==◌,
  if◌then◌else◌, Bool-cases, Option-cases, inl, inr,
}
use omni_binder.OrderedMap.{Map, Set, find, contains, is_some}
use omni_binder.OrderedMap.Keys.{Name, name_eq, name_key, number_key}
use omni_binder.OrderedMap.Laws.{find-insert, find-erase}
use omni_binder.OrderedMap.Nested.{insert2, erase2, find2, find2-insert2, find2-erase2}
use omni_binder.OrderedMap.Tally.{Plain, Plain-insert2, Plain-erase2}
use omni_binder.Topics.{is_empty}
use omni_binder.Watches.{
  WatchFilter, WatchGroup, WatchKey, Watches, watch_key, empty_watches, index_services, subscribe,
  unindex_services, erase_group, unsubscribe, remove_watches, remove_watcher,
}

-- Whether one of the filters is about the service.
unfoldable pub names_service : Name → List WatchFilter → Bool
names_service name [] = false
names_service name (f ∷ filters) = name_eq f.service_name name || names_service name filters

abbrev pub watching : Name → Option WatchGroup → Bool
watching name none = false
watching name (some group) = names_service name group.filters

abbrev pub key : ℕ → ℕ → WatchKey
key fd watch_id = record { fd = fd; watch_id = watch_id }

abbrev pub IsOwn : WatchKey → Option WatchGroup → Type 0
IsOwn k none = Unit
IsOwn k (some group) = (group.subscriber_fd ≡ k.fd) × (group.watch_id ≡ k.watch_id)

-- Each group stands under its own key, and the indices name just the groups that there are, once.
pub record IsWatched (w : Watches) : Type 0 where
  pub plain : Plain w.service_index
  pub own : (k : WatchKey) → IsOwn k (find k w.groups)
  pub services :
      (name : Name) (k : WatchKey)
      → is_some (find2 name k w.service_index) ≡ watching name (find k w.groups)
  pub subscribers :
      (fd id : ℕ) → is_some (find2 fd id w.subscriber_index) ≡ contains (key fd id) w.groups

index-index_services :
    (k : WatchKey) (filters : List WatchFilter) (index : Map Name (Set WatchKey)) (name : Name)
    (j : WatchKey)
    → is_some (find2 name j (index_services k filters index))
      ≡ (is_some (find2 name j index) || (watch_key.same k j && names_service name filters))
unfolding index_services names_service
index-index_services k [] index name j = ground arith
index-index_services k (f ∷ filters) index name j = ground (
  arith,
  index-index_services k filters (insert2 f.service_name k tt index) name j,
  find2-insert2 f.service_name name k j tt index,
)

index-unindex_services :
    (k : WatchKey) (filters : List WatchFilter) (index : Map Name (Set WatchKey)) (name : Name)
    (j : WatchKey)
    → is_some (find2 name j (unindex_services k filters index))
      ≡ (is_some (find2 name j index) && not (watch_key.same k j && names_service name filters))
unfolding unindex_services names_service
index-unindex_services k [] index name j = ground arith
index-unindex_services k (f ∷ filters) index name j = ground (
  arith,
  index-unindex_services k filters (erase2 f.service_name k index) name j,
  find2-erase2 f.service_name name k j index,
)

Plain-index_services :
    (k : WatchKey) (filters : List WatchFilter) (index : Map Name (Set WatchKey))
    → Plain index
    → Plain (index_services k filters index)
unfolding index_services
Plain-index_services k [] index d = d
Plain-index_services k (f ∷ filters) index d =
    Plain-index_services k filters _ (Plain-insert2 f.service_name k tt index d)

Plain-unindex_services :
    (k : WatchKey) (filters : List WatchFilter) (index : Map Name (Set WatchKey))
    → Plain index
    → Plain (unindex_services k filters index)
unfolding unindex_services
Plain-unindex_services k [] index d = d
Plain-unindex_services k (f ∷ filters) index d =
    Plain-unindex_services k filters _ (Plain-erase2 f.service_name k index d)

pub subscribe-IsWatched :
    (w : Watches) (fd watch_id : ℕ) (filters : List WatchFilter)
    → IsWatched w
    → IsWatched (subscribe w fd watch_id filters).1
unfolding subscribe find
subscribe-IsWatched w fd watch_id filters v =
    let k = key fd watch_id in
    let group : WatchGroup = record {
      subscriber_fd = fd;
      watch_id = watch_id;
      filters = filters;
    } in
    elim (Bool-cases (watch_id == 0 || is_empty filters || contains k w.groups)) [
      | inl h ↦ rw (h, subscribe) v
      | inr h ↦
          rw (h, subscribe)
            (record {
              plain = Plain-index_services k filters w.service_index v.plain;
              own = λ j.
                  rw (find-insert k j group w.groups) (elim (Bool-cases (watch_key.same k j)) [
                    | inl n ↦ rw n (ground (arith, n, watch_key.same_iff k j))
                    | inr n ↦ rw n (v.own j)
                  ]);
              services = λ name j. ground (
                arith,
                h,
                v.services name j,
                index-index_services k filters w.service_index name j,
                find-insert k j group w.groups,
                watch_key.same_iff k j,
              );
              subscribers = λ f id. ground (
                arith,
                v.subscribers f id,
                find2-insert2 fd f watch_id id tt w.subscriber_index,
                find-insert k (key f id) group w.groups,
              );
            })
    ]

erase_group-IsWatched :
    (w : Watches) (k : WatchKey) (group : WatchGroup)
    → find k w.groups ≡ some group
    → IsWatched w
    → IsWatched (erase_group w k group)
unfolding erase_group find
erase_group-IsWatched w k group h v =
    let own : (group.subscriber_fd ≡ k.fd) × (group.watch_id ≡ k.watch_id) = rw h at (v.own k) in
    record {
      plain = Plain-unindex_services k group.filters w.service_index v.plain;
      own = λ j.
          rw (find-erase k j w.groups)
            (elim (watch_key.same k j) as (λ b. IsOwn j (if b then none else find j w.groups)) [
              | true ↦ tt
              | false ↦ v.own j
            ]);
      services = λ name j. ground (
        arith,
        h,
        v.services name j,
        index-unindex_services k group.filters w.service_index name j,
        find-erase k j w.groups,
        watch_key.same_iff k j,
      );
      subscribers = λ f id. ground (
        arith,
        own,
        v.subscribers f id,
        find2-erase2 group.subscriber_fd f group.watch_id id w.subscriber_index,
        find-erase k (key f id) w.groups,
      );
    }

pub unsubscribe-IsWatched :
    (w : Watches) (fd watch_id : ℕ) → IsWatched w → IsWatched (unsubscribe w fd watch_id).1
unfolding unsubscribe
unsubscribe-IsWatched w fd watch_id v = elim (Option-cases (find (key fd watch_id) w.groups)) [
  | inl h ↦ rw (h, unsubscribe) v
  | inr (group, h) ↦ rw (h, unsubscribe) (erase_group-IsWatched w (key fd watch_id) group h v)
]

remove_watches-IsWatched :
    (fd : ℕ) (ids : List ℕ) (w : Watches) → IsWatched w → IsWatched (remove_watches fd ids w)
unfolding remove_watches
remove_watches-IsWatched fd [] w v = v
remove_watches-IsWatched fd (id ∷ ids) w v =
    remove_watches-IsWatched fd ids _ (elim (Option-cases (find (key fd id) w.groups)) [
      | inl h ↦ rw h v
      | inr (group, h) ↦ rw h (erase_group-IsWatched w (key fd id) group h v)
    ])

pub remove_watcher-IsWatched :
    (w : Watches) (fd : ℕ) → IsWatched w → IsWatched (remove_watcher w fd)
unfolding remove_watcher
remove_watcher-IsWatched w fd v = remove_watches-IsWatched fd _ w v

pub empty-IsWatched : IsWatched empty_watches
unfolding empty_watches find find2
empty-IsWatched = record {
  plain = (tt, λ k. tt);
  own = λ k. tt;
  services = λ name k. refl;
  subscribers = λ fd id. refl;
}
