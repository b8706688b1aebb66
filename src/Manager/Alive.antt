-- ===== src/Manager/Alive.antt =====
-- What the parts of the service manager keep for a connection that is closed: nothing.
use omni_binder.Prelude.{
  ℕ, ◌≡◌, refl, Bool, true, false, Option, none, some, List, ◌⊎◌, arith, ◌==◌, ==_iff, Option-cases,
  inl, inr,
}
use omni_binder.OrderedMap.{Map, find, contains, insert}
use omni_binder.OrderedMap.Keys.{Name, number_key, name_key}
use omni_binder.OrderedMap.Laws.{find-insert, find-erase}
use omni_binder.Message.{Message}
use omni_binder.Registry.{Registry, Entry, find_entry}
use omni_binder.Registry as Registry
use omni_binder.Registry.History.{IsSound, closes, step, step-IsSound}
use omni_binder.Registry.Closing.{unless_held, find_entry-remove_by_fd}
use omni_binder.Topics.{Topics}
use omni_binder.Topics.Closing as Closing
use omni_binder.Topics.Consistent.{IsConsistent}
use omni_binder.Topics.Removal.{publications-remove_by_fd, subscriptions-remove_by_fd}
use omni_binder.Watches.{Watches, watch_key, remove_watcher}
use omni_binder.Watches.Indices.{key, IsWatched}
use omni_binder.Watches.Leaving.{groups-remove_watcher}
use omni_binder.Manager.{Client, Manager, send_message, send_bytes, output_of}

abbrev pub holds : ℕ → Option Entry → Bool
holds fd none = false
holds fd (some e) = e.control_fd == fd

-- The connection holds no instance, is in no index of the topics, and watches nothing.
abbrev pub Unheld : ℕ → Registry → Type 0
Unheld fd r = (n k : Name) → holds fd (find_entry r n k) ≡ false

abbrev pub Unlisted : ℕ → Topics → Type 0
Unlisted fd t = (find fd t.fd_publications ≡ none) × (find fd t.fd_subscriptions ≡ none)

abbrev pub Unwatching : ℕ → Watches → Type 0
Unwatching fd w = (id : ℕ) → contains (key fd id) w.groups ≡ false

-- The parts are sound, and keep nothing for a connection that is not there, unless it is just closing.
-- Only connections that are allowed are there.
pub record Alive (closing allowed : ℕ → Bool) (clients : Map ℕ Client) (r : Registry) (t : Topics)
    (w : Watches) : Type 0 where
  pub registry : IsSound r
  pub topics : IsConsistent none t
  pub watches : IsWatched w
  pub within : (fd : ℕ) → contains fd clients ≡ true → allowed fd ≡ true
  pub unheld : (fd : ℕ) → contains fd clients ≡ false → Unheld fd r
  pub unlisted : (fd : ℕ) → contains fd clients ≡ false → closing fd ≡ false → Unlisted fd t
  pub unwatching : (fd : ℕ) → contains fd clients ≡ false → closing fd ≡ false → Unwatching fd w

abbrev pub IsAlive : (ℕ → Bool) → (ℕ → Bool) → Manager → Type 0
IsAlive closing allowed m = Alive closing allowed m.clients m.registry m.topics m.watches

-- A function that closes connections keeps this, whichever are just closing.
abbrev pub Keeps : (Manager → ℕ → Manager) → Type 0
Keeps close =
    (closing allowed : ℕ → Bool) (m : Manager) (fd : ℕ)
    → IsAlive closing allowed m
    → IsAlive closing allowed (close m fd)

pub Unheld-remove_by_fd :
    (r : Registry) (fd f : ℕ)
    → IsSound r
    → (fd == f) ≡ true ⊎ Unheld f r
    → Unheld f (Registry.remove_by_fd r fd).1
Unheld-remove_by_fd r fd f v h n k =
    rw ((find_entry-remove_by_fd r fd n k v.indexed).0) (
      unheld_unless (find_entry r n k) (elim h [ inl same ↦ inl same | inr free ↦ inr (free n k) ]))
  where
    unheld_unless :
        (o : Option Entry)
        → (fd == f) ≡ true ⊎ holds f o ≡ false
        → holds f (unless_held fd o) ≡ false
    unheld_unless none h = refl
    unheld_unless (some e) (inl h) =
        ground (arith, h, ==_iff fd f, ==_iff e.control_fd fd, ==_iff e.control_fd f)
    unheld_unless (some e) (inr h) = ground (arith, h)

pub remove_by_fd-IsSound :
    (r : Registry) (fd : ℕ) → IsSound r → IsSound (Registry.remove_by_fd r fd).1
unfolding step
remove_by_fd-IsSound r fd v = step-IsSound r (closes fd) v

pub Unlisted-remove_by_fd :
    (t : Topics) (fd f : ℕ)
    → IsConsistent none t
    → (fd == f) ≡ true ⊎ Unlisted f t
    → Unlisted f (Closing.remove_by_fd t fd).1
Unlisted-remove_by_fd t fd f v h =
    rw (publications-remove_by_fd t fd v, subscriptions-remove_by_fd t fd v)
      (elim h [
        | inl same ↦ (
          ground (arith, same, find-erase fd f t.fd_publications),
          ground (arith, same, find-erase fd f t.fd_subscriptions),
        )
        | inr free ↦ (
          ground (arith, free, find-erase fd f t.fd_publications),
          ground (arith, free, find-erase fd f t.fd_subscriptions),
        )
      ])

pub Unwatching-remove_watcher :
    (w : Watches) (fd f : ℕ)
    → IsWatched w
    → (fd == f) ≡ true ⊎ Unwatching f w
    → Unwatching f (remove_watcher w fd)
Unwatching-remove_watcher w fd f v (inl same) id =
    ground (arith, same, groups-remove_watcher w fd f id v)
Unwatching-remove_watcher w fd f v (inr free) id =
    ground (arith, free id, groups-remove_watcher w fd f id v)

module _ (alloc : ℕ → Option (List ℕ)) (close : Manager → ℕ → Manager) (keeps : Keeps close) where
  pub send_message-IsAlive :
      (closing allowed : ℕ → Bool) (m : Manager) (fd : ℕ) (msg : Message)
      → IsAlive closing allowed m
      → IsAlive closing allowed (send_message alloc close m fd msg)
  unfolding send_message
  send_message-IsAlive closing allowed m fd msg v = elim (Option-cases (find fd m.clients)) [
    | inl h ↦ rw (h, send_message) v
    | inr (c, h) ↦ elim (Option-cases (output_of alloc msg)) [
      | inl o ↦ rw (h, o, send_message) v
      | inr (output, o) ↦ elim (Option-cases (send_bytes c output)) [
        | inl s ↦ rw (h, o, s, send_message) (keeps closing allowed m fd v)
        | inr (c', s) ↦
            rw (h, o, s, send_message)
              (record {
                registry = v.registry;
                topics = v.topics;
                watches = v.watches;
                within = λ f g. v.within f (present f c c' h g);
                unheld = λ f g. v.unheld f (absent f c' g);
                unlisted = λ f g n. v.unlisted f (absent f c' g) n;
                unwatching = λ f g n. v.unwatching f (absent f c' g) n;
              })
      ]
    ]
  ]
    where
      absent :
          (f : ℕ) (c' : Client)
          → contains f (insert fd c' m.clients) ≡ false
          → contains f m.clients ≡ false
      absent f c' g = ground (arith, g, find-insert fd f c' m.clients)

      present :
          (f : ℕ) (c c' : Client)
          → find fd m.clients ≡ some c
          → contains f (insert fd c' m.clients) ≡ true
          → contains f m.clients ≡ true
      present f c c' h g = ground (arith, g, h, find-insert fd f c' m.clients, ==_iff fd f)
