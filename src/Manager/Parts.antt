-- ===== src/Manager/Parts.antt =====
-- The service manager's state where one of its parts changes.
use omni_binder.Prelude.{
  ℕ, ◌≡◌, refl, Bool, true, false, ◌||◌, none, List, arith, ◌==◌, ==_iff, Bool-cases, Option-cases,
  inl, inr,
}
use omni_binder.OrderedMap.{Map, find, contains}
use omni_binder.OrderedMap.Keys.{number_key, name_key}
use omni_binder.OrderedMap.Laws.{find-insert, find-erase}
use omni_binder.Types.{ServiceInfo, ServiceIdentity, instance_key}
use omni_binder.Registry.{Registry, add_service, is_registrable, remove_service_by_identity}
use omni_binder.Registry.Entries.{find_entry-add_service, find_entry-remove}
use omni_binder.Registry.History.{IsSound, adds, removes_identity, step, step-IsSound}
use omni_binder.Topics.{Topics}
use omni_binder.Topics.Consistent.{IsConsistent}
use omni_binder.Watches.{Watches, WatchFilter, watch_key, subscribe, unsubscribe, erase_group}
use omni_binder.Topics.{is_empty}
use omni_binder.Watches.Indices.{key, IsWatched}
use omni_binder.Manager.{Manager, Client}
use omni_binder.Manager.Alive.{IsAlive, Unheld, Unlisted, Unwatching}

abbrev pub nobody : ℕ → Bool
nobody f = false

abbrev pub everybody : ℕ → Bool
everybody f = true

-- Only open connections hold services, publish, subscribe and watch, and the parts are sound.
abbrev pub IsOpen : Manager → Type 0
IsOpen m = IsAlive nobody everybody m

module _ (m : Manager) (v : IsOpen m) where
  pub set_topics :
      (t : Topics)
      → IsConsistent none t
      → ((f : ℕ) → contains f m.clients ≡ false → Unlisted f m.topics → Unlisted f t)
      → IsOpen (record m { topics = t })
  set_topics t c u = record {
    registry = v.registry;
    topics = c;
    watches = v.watches;
    within = v.within;
    unheld = v.unheld;
    unlisted = λ f g n. u f g (v.unlisted f g n);
    unwatching = v.unwatching;
  }

  pub set_registry :
      (r : Registry)
      → IsSound r
      → ((f : ℕ) → contains f m.clients ≡ false → Unheld f m.registry → Unheld f r)
      → IsOpen (record m { registry = r })
  set_registry r c u = record {
    registry = c;
    topics = v.topics;
    watches = v.watches;
    within = v.within;
    unheld = λ f g. u f g (v.unheld f g);
    unlisted = v.unlisted;
    unwatching = v.unwatching;
  }

  pub set_watches :
      (w : Watches)
      → IsWatched w
      → ((f : ℕ) → contains f m.clients ≡ false → Unwatching f m.watches → Unwatching f w)
      → IsOpen (record m { watches = w })
  set_watches w c u = record {
    registry = v.registry;
    topics = v.topics;
    watches = c;
    within = v.within;
    unheld = v.unheld;
    unlisted = v.unlisted;
    unwatching = λ f g n. u f g (v.unwatching f g n);
  }

  pub set_clients :
      (clients : Map ℕ Client)
      → ((f : ℕ) → contains f clients ≡ false → contains f m.clients ≡ false)
      → IsOpen (record m { clients = clients })
  set_clients clients g = record {
    registry = v.registry;
    topics = v.topics;
    watches = v.watches;
    within = λ f h. refl;
    unheld = λ f h. v.unheld f (g f h);
    unlisted = λ f h n. v.unlisted f (g f h) n;
    unwatching = λ f h n. v.unwatching f (g f h) n;
  }

-- A connection that is there is not one that is not.
pub other_fd :
    {V : Type 0} (fd f : ℕ) (clients : Map ℕ V)
    → contains fd clients ≡ true
    → contains f clients ≡ false
    → (fd == f) ≡ false
other_fd fd f clients there gone = ground (arith, there, gone, ==_iff fd f)

pub add_service-IsSound :
    (r : Registry) (info : ServiceInfo) (fd : ℕ)
    → IsSound r
    → IsSound (add_service r info fd).registry
unfolding step
add_service-IsSound r info fd v = step-IsSound r (adds info fd) v

pub remove_service_by_identity-IsSound :
    (r : Registry) (identity : ServiceIdentity)
    → IsSound r
    → IsSound (remove_service_by_identity r identity).1
unfolding step
remove_service_by_identity-IsSound r identity v = step-IsSound r (removes_identity identity) v

pub add_service-Unheld :
    (r : Registry) (info : ServiceInfo) (fd f : ℕ)
    → (fd == f) ≡ false
    → Unheld f r
    → Unheld f (add_service r info fd).registry
unfolding add_service
add_service-Unheld r info fd f other u n k = elim (Bool-cases (is_registrable info)) [
  | inr h ↦ rw (h, add_service) (u n k)
  | inl h ↦ rw (find_entry-add_service r info fd n k h) (ground (arith, u n k, other))
]

pub remove_service_by_identity-Unheld :
    (r : Registry) (identity : ServiceIdentity) (f : ℕ)
    → Unheld f r
    → Unheld f (remove_service_by_identity r identity).1
unfolding remove_service_by_identity
remove_service_by_identity-Unheld r identity f u n k =
    rw ((find_entry-remove r identity.name (instance_key identity.instance_id) n k).0)
      (ground (arith, u n k))

pub subscribe-Unwatching :
    (w : Watches) (fd watch_id : ℕ) (filters : List WatchFilter) (f : ℕ)
    → (fd == f) ≡ false
    → Unwatching f w
    → Unwatching f (subscribe w fd watch_id filters).1
unfolding subscribe
subscribe-Unwatching w fd watch_id filters f other u id =
    elim (Bool-cases (watch_id == 0 || is_empty filters || contains (key fd watch_id) w.groups)) [
      | inl h ↦ rw (h, subscribe) (u id)
      | inr h ↦
          rw (h, subscribe)
            (ground (
              arith,
              other,
              u id,
              find-insert (key fd watch_id) (key f id)
                  (record { subscriber_fd = fd; watch_id = watch_id; filters = filters }) w.groups,
            ))
    ]

pub unsubscribe-Unwatching :
    (w : Watches) (fd watch_id f : ℕ) → Unwatching f w → Unwatching f (unsubscribe w fd watch_id).1
unfolding unsubscribe erase_group
unsubscribe-Unwatching w fd watch_id f u id =
    elim (Option-cases (find (key fd watch_id) w.groups)) [
      | inl h ↦ rw (h, unsubscribe) (u id)
      | inr (group, h) ↦
          rw (h, unsubscribe)
            (ground (arith, u id, find-erase (key fd watch_id) (key f id) w.groups))
    ]
