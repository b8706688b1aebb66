-- ===== src/Watches/Matching.antt =====
-- ServiceWatchNotifier over any sequence of its operations, and what `matching` answers then.
use omni_binder.Prelude.{
  ℕ, ◌+◌, ◌≡◌, refl, Bool, true, false, ◌&&◌, Option, none, some, List, [], ◌∷◌, arith,
  if◌then◌else◌, Option-cases, inl, inr,
}
use omni_binder.OrderedMap.{Set, find, contains, keys, is_some, Distinct}
use omni_binder.OrderedMap.Keys.{name_key, number_key}
use omni_binder.OrderedMap.Nested.{or_empty, find2}
use omni_binder.Types.{ServiceIdentity}
use omni_binder.Watches.{
  WatchFilter, WatchGroup, WatchKey, Watches, watch_key, empty_watches, subscribe, unsubscribe,
  remove_watcher, any_filter, filter_matches, collect_groups, matching,
}
use omni_binder.Watches.Indices.{
  names_service, watching, key, IsWatched, subscribe-IsWatched, unsubscribe-IsWatched,
  remove_watcher-IsWatched, empty-IsWatched,
}

pub data WatchOp : Type 0 where
  watches : ℕ → ℕ → List WatchFilter → WatchOp
  unwatches : ℕ → ℕ → WatchOp
  leaves : ℕ → WatchOp

pub watch_step : Watches → WatchOp → Watches
watch_step w (watches fd watch_id filters) = (subscribe w fd watch_id filters).1
watch_step w (unwatches fd watch_id) = (unsubscribe w fd watch_id).1
watch_step w (leaves fd) = remove_watcher w fd

unfoldable pub watch_run : Watches → List WatchOp → Watches
watch_run w [] = w
watch_run w (op ∷ ops) = watch_run (watch_step w op) ops

run_from : (w : Watches) (ops : List WatchOp) → IsWatched w → IsWatched (watch_run w ops)
unfolding watch_run watch_step
run_from w [] v = v
run_from w (watches fd watch_id filters ∷ ops) v =
    run_from (subscribe w fd watch_id filters).1 ops (subscribe-IsWatched w fd watch_id filters v)
run_from w (unwatches fd watch_id ∷ ops) v =
    run_from (unsubscribe w fd watch_id).1 ops (unsubscribe-IsWatched w fd watch_id v)
run_from w (leaves fd ∷ ops) v =
    run_from (remove_watcher w fd) ops (remove_watcher-IsWatched w fd v)

-- After any sequence of subscriptions and their removals, the indices by service and by connection
-- name just the groups that there are, and each group stands under its own connection and id.
pub watch_run-IsWatched : (ops : List WatchOp) → IsWatched (watch_run empty_watches ops)
watch_run-IsWatched ops = run_from empty_watches ops empty-IsWatched

-- How often a group is among the answers.
abbrev pub times : WatchKey → List WatchGroup → ℕ
times k [] = 0
times k (group ∷ groups) =
    (if watch_key.same (key group.subscriber_fd group.watch_id) k then 1 else 0) + times k groups

-- Whether a group has a filter that takes the instance.
abbrev pub reached : ServiceIdentity → Option WatchGroup → Bool
reached identity none = false
reached identity (some group) = any_filter group.filters identity

module _ (w : Watches) (v : IsWatched w) (identity : ServiceIdentity) where
  own_key :
      (k : WatchKey) (group : WatchGroup)
      → find k w.groups ≡ some group
      → key group.subscriber_fd group.watch_id ≡ k
  own_key k group h =
      let own : (group.subscriber_fd ≡ k.fd) × (group.watch_id ≡ k.watch_id) = rw h at (v.own k) in
      ground (arith, own)

  times-collect_groups :
      (k : WatchKey) (set : Set WatchKey)
      → Distinct set
      → times k (collect_groups w.groups identity (keys set))
        ≡ (if contains k set && reached identity (find k w.groups) then 1 else 0)
  unfolding collect_groups find
  times-collect_groups k [] d = refl
  times-collect_groups k ((j, u) ∷ set) d = elim (Option-cases (find j w.groups)) [
    | inl h ↦
        rw (h, collect_groups)
          (ground (arith, h, times-collect_groups k set d.1, watch_key.same_iff j k))
    | inr (group, h) ↦
        rw (h, collect_groups)
          (ground (
            arith,
            h,
            d.0,
            own_key j group h,
            times-collect_groups k set d.1,
            watch_key.same_iff j k,
          ))
  ]

  any_filter-names_service :
      (filters : List WatchFilter)
      → any_filter filters identity ≡ true
      → names_service identity.name filters ≡ true
  unfolding any_filter names_service filter_matches
  any_filter-names_service [] h = ground (arith, h)
  any_filter-names_service (f ∷ filters) h = ground (arith, h, any_filter-names_service filters)

  -- In a state whose indices are right, `matching`, which only looks at the groups that the index has
  -- for the service, answers just the groups of which some filter takes the instance, and each of them
  -- once.
  pub times-matching :
      (k : WatchKey)
      → times k (matching w identity) ≡ (if reached identity (find k w.groups) then 1 else 0)
  unfolding matching find2 find
  times-matching k =
      let set = or_empty (find identity.name w.service_index) in
      ground (
        arith,
        times-collect_groups k set (v.plain.1 identity.name),
        v.services identity.name k,
        contains-or_empty k,
        reached_named (find k w.groups),
      )
    where
      contains-or_empty :
          (k : WatchKey)
          → contains k (or_empty (find identity.name w.service_index))
            ≡ is_some (find2 identity.name k w.service_index)
      contains-or_empty k = elim (Option-cases (find identity.name w.service_index)) [
        | inl h ↦ rw (h, find2)
        | inr (inner, h) ↦ rw (h, find2)
      ]

      reached_named :
          (o : Option WatchGroup) → reached identity o ≡ true → watching identity.name o ≡ true
      reached_named none h = ground (arith, h)
      reached_named (some group) h = any_filter-names_service group.filters h
