-- ===== src/Watches/Leaving.antt =====
-- What removeSubscriber leaves of a connection's groups.
use omni_binder.Prelude.{
  ℕ, ◌≡◌, refl, Bool, false, ◌&&◌, ◌||◌, not, List, [], ◌∷◌, arith, ◌==◌, ==_iff, Option-cases, inl,
  inr,
}
use omni_binder.OrderedMap.{Map, Set, find, contains, keys, is_some}
use omni_binder.OrderedMap.Keys.{number_key, name_key}
use omni_binder.OrderedMap.Laws.{find-erase}
use omni_binder.OrderedMap.Nested.{or_empty, find2}
use omni_binder.Watches.{Watches, watch_key, erase_group, remove_watches, remove_watcher}
use omni_binder.Watches.Indices.{key, IsWatched}

unfoldable has_id : ℕ → List ℕ → Bool
has_id id [] = false
has_id id (i ∷ ids) = i == id || has_id id ids

groups-remove_watches :
    (fd : ℕ) (ids : List ℕ) (w : Watches) (f id : ℕ)
    → contains (key f id) (remove_watches fd ids w).groups
      ≡ (contains (key f id) w.groups && not (fd == f && has_id id ids))
unfolding remove_watches has_id erase_group
groups-remove_watches fd [] w f id = ground arith
groups-remove_watches fd (i ∷ ids) w f id = elim (Option-cases (find (key fd i) w.groups)) [
  | inl h ↦
      rw (h, remove_watches)
        (ground
          (arith, h, groups-remove_watches fd ids w f id, watch_key.same_iff (key fd i) (key f id)))
  | inr (group, h) ↦
      rw (h, remove_watches)
        (ground (
          arith,
          h,
          groups-remove_watches fd ids (erase_group w (key fd i) group) f id,
          find-erase (key fd i) (key f id) w.groups,
        ))
]

has_id-keys : (id : ℕ) (set : Set ℕ) → has_id id (keys set) ≡ contains id set
unfolding has_id find
has_id-keys id [] = refl
has_id-keys id ((i, u) ∷ set) = ground (arith, has_id-keys id set)

has_id-indexed :
    (fd id : ℕ) (index : Map ℕ (Set ℕ))
    → has_id id (keys (or_empty (find fd index))) ≡ is_some (find2 fd id index)
unfolding find2 has_id
has_id-indexed fd id index = elim (Option-cases (find fd index)) [
  | inl h ↦ rw (h, find2)
  | inr (set, h) ↦ rw (h, find2) (has_id-keys id set)
]

-- Just the groups of the connection are gone.
pub groups-remove_watcher :
    (w : Watches) (fd f id : ℕ)
    → IsWatched w
    → contains (key f id) (remove_watcher w fd).groups
      ≡ (contains (key f id) w.groups && not (fd == f))
unfolding remove_watcher
groups-remove_watcher w fd f id v = ground (
  arith,
  groups-remove_watches fd (keys (or_empty (find fd w.subscriber_index))) w f id,
  has_id-indexed fd id w.subscriber_index,
  v.subscribers fd id,
  ==_iff fd f,
)
