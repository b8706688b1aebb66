-- ===== src/Manager/Closed.antt =====
-- closeClient leaves nothing of the connection, however the sends of its notifications end.
use omni_binder.Prelude.{
  ℕ, ◌≡◌, Bool, false, ◌&&◌, ◌||◌, not, Option, List, [], ◌∷◌, arith, ◌==◌, ==_iff, Bool-cases,
  Option-cases, inl, inr,
}
use omni_binder.OrderedMap.{find, contains, erase, keys}
use omni_binder.OrderedMap.Keys.{number_key, name_key}
use omni_binder.OrderedMap.Laws.{find-erase}
use omni_binder.Types.{ServiceIdentity}
use omni_binder.Topics.{is_empty}
use omni_binder.Topics.Closing as Closing
use omni_binder.Topics.Removal.{remove_by_fd-IsConsistent}
use omni_binder.Watches.{WatchGroup, matching, remove_watcher}
use omni_binder.Watches.Indices.{remove_watcher-IsWatched}
use omni_binder.Manager.{Client, Manager, next_sequence, new_message}
use omni_binder.Manager.Alive.{
  Alive, IsAlive, Keeps, send_message-IsAlive, Unheld-remove_by_fd, remove_by_fd-IsSound,
  Unlisted-remove_by_fd, Unwatching-remove_watcher,
}
use omni_binder.Manager.Ending.{
  without, remove_pid_fd, remove_target_watchers, watch_message, send_watch_notify, notify_groups,
  notify_service_watch, notify_removed, stop_fds, send_diag_watch_stop, stop_target_if_unwatched,
  stop_targets, remove_watcher_and_maybe_stop_targets, detach, release,
}

-- The connections without one of them, and with it.
abbrev pub less : ℕ → (ℕ → Bool) → ℕ → Bool
less fd allowed f = allowed f && not (fd == f)

abbrev pub more : ℕ → (ℕ → Bool) → ℕ → Bool
more fd closing f = closing f || fd == f

module _ (alloc : ℕ → Option (List ℕ)) where
  module _ (close : Manager → ℕ → Manager) (keeps : Keeps close) (closing allowed : ℕ → Bool) where
    notify_groups-IsAlive :
        (identity : ServiceIdentity) (online : Bool) (groups : List WatchGroup) (m : Manager)
        → IsAlive closing allowed m
        → IsAlive closing allowed (notify_groups alloc close identity online groups m)
    unfolding notify_groups send_watch_notify next_sequence
    notify_groups-IsAlive identity online [] m v = v
    notify_groups-IsAlive identity online (group ∷ groups) m v =
        notify_groups-IsAlive identity online groups _
          (elim (Bool-cases (contains group.subscriber_fd m.clients)) [
            | inr h ↦ rw h v
            | inl h ↦ rw h (
                send_message-IsAlive alloc close keeps closing allowed (next_sequence m)
                  group.subscriber_fd (watch_message m.sequence group.watch_id identity online) v)
          ])

    pub notify_service_watch-IsAlive :
        (m : Manager) (identity : ServiceIdentity) (online : Bool)
        → IsAlive closing allowed m
        → IsAlive closing allowed (notify_service_watch alloc close m identity online)
    unfolding notify_service_watch
    notify_service_watch-IsAlive m identity online v =
        notify_groups-IsAlive identity online (matching m.watches identity) m v

    pub notify_removed-IsAlive :
        (removed : List ServiceIdentity) (m : Manager)
        → IsAlive closing allowed m
        → IsAlive closing allowed (notify_removed alloc close removed m)
    unfolding notify_removed
    notify_removed-IsAlive [] m v = v
    notify_removed-IsAlive (identity ∷ removed) m v =
        notify_removed-IsAlive removed (notify_service_watch alloc close m identity false)
          (notify_service_watch-IsAlive m identity false v)

    stop_fds-IsAlive :
        (except_fd : ℕ) (fds : List ℕ) (m : Manager)
        → IsAlive closing allowed m
        → IsAlive closing allowed (stop_fds alloc close except_fd fds m)
    unfolding stop_fds next_sequence
    stop_fds-IsAlive except_fd [] m v = v
    stop_fds-IsAlive except_fd (fd ∷ fds) m v =
        stop_fds-IsAlive except_fd fds _
          (elim (Bool-cases (not (contains fd m.clients) || fd == except_fd)) [
            | inl h ↦ rw h v
            | inr h ↦ rw h (
                send_message-IsAlive alloc close keeps closing allowed (next_sequence m) fd
                  (new_message 0x0046 m.sequence []) v)
          ])

    stop_target-IsAlive :
        (pid watcher_fd : ℕ) (m : Manager)
        → IsAlive closing allowed m
        → IsAlive closing allowed (stop_target_if_unwatched alloc close pid watcher_fd m)
    unfolding stop_target_if_unwatched send_diag_watch_stop
    stop_target-IsAlive pid watcher_fd m v = elim (Option-cases (find pid m.pid_watchers)) [
      | inl h ↦ rw (h, stop_target_if_unwatched) (stop_fds-IsAlive watcher_fd _ m v)
      | inr (watchers, h) ↦ elim (Bool-cases (is_empty (without watcher_fd watchers))) [
        | inr n ↦ rw (h, n, stop_target_if_unwatched) v
        | inl n ↦
            rw (h, n, stop_target_if_unwatched)
              (stop_fds-IsAlive watcher_fd _ (record m { pid_watchers = erase pid m.pid_watchers })
                v)
      ]
    ]

    stop_targets-IsAlive :
        (watcher_fd : ℕ) (pids : List ℕ) (m : Manager)
        → IsAlive closing allowed m
        → IsAlive closing allowed (stop_targets alloc close watcher_fd pids m)
    unfolding stop_targets
    stop_targets-IsAlive watcher_fd [] m v = v
    stop_targets-IsAlive watcher_fd (pid ∷ pids) m v =
        stop_targets-IsAlive watcher_fd pids (stop_target_if_unwatched alloc close pid watcher_fd m)
          (stop_target-IsAlive pid watcher_fd m v)

    pub stop_all-IsAlive :
        (watcher_fd : ℕ) (m : Manager)
        → IsAlive closing allowed m
        → IsAlive closing allowed (remove_watcher_and_maybe_stop_targets alloc close watcher_fd m)
    unfolding remove_watcher_and_maybe_stop_targets
    stop_all-IsAlive watcher_fd m v = elim (Option-cases (find watcher_fd m.watcher_to_pids)) [
      | inl h ↦ rw (h, remove_watcher_and_maybe_stop_targets) v
      | inr (pids, h) ↦
          rw (h, remove_watcher_and_maybe_stop_targets)
            (stop_targets-IsAlive watcher_fd (keys pids)
              (record m { watcher_to_pids = erase watcher_fd m.watcher_to_pids }) v)
    ]

  pub detach-IsAlive :
      (closing allowed : ℕ → Bool) (m : Manager) (fd : ℕ) (c : Client)
      → IsAlive closing allowed m
      → IsAlive (more fd closing) (less fd allowed) (detach alloc m fd c).1
  unfolding detach
  detach-IsAlive closing allowed m fd c v = record {
    registry = remove_by_fd-IsSound m.registry fd v.registry;
    topics = v.topics;
    watches = v.watches;
    within = λ f g. ground (arith, g, v.within f, find-erase fd f m.clients, ==_iff fd f);
    unheld = λ f g. elim (Bool-cases (fd == f)) [
      | inl h ↦ Unheld-remove_by_fd m.registry fd f v.registry (inl h)
      | inr h ↦
          Unheld-remove_by_fd m.registry fd f v.registry
            (inr (v.unheld f (ground (arith, g, h, find-erase fd f m.clients))))
    ];
    unlisted =
        λ f g n. v.unlisted f (ground (arith, g, n, find-erase fd f m.clients)) (ground (arith, n));
    unwatching = λ f g n.
        v.unwatching f (ground (arith, g, n, find-erase fd f m.clients)) (ground (arith, n));
  }

  pub release-IsAlive :
      (closing allowed : ℕ → Bool) (m : Manager) (fd : ℕ) (c : Client)
      → IsAlive (more fd closing) allowed m
      → IsAlive closing allowed (release alloc m fd c)
  unfolding release remove_target_watchers
  release-IsAlive closing allowed m fd c v = elim (Bool-cases c.runtime_registered) [
    | inr h ↦ rw (h, release) cleaned
    | inl h ↦ elim (Bool-cases (contains c.pid (remove_pid_fd c.pid fd m.pid_to_fds))) [
      | inl p ↦ rw (h, p, release) cleaned
      | inr p ↦ elim (Option-cases (find c.pid m.pid_watchers)) [
        | inl w ↦ rw (h, p, w, release, remove_target_watchers) cleaned
        | inr (watchers, w) ↦ rw (h, p, w, release, remove_target_watchers) cleaned
      ]
    ]
  ]
    where
      still : (f : ℕ) → (fd == f) ≡ false → closing f ≡ false → more fd closing f ≡ false
      still f h n = ground (arith, h, n)

      cleaned :
          Alive closing allowed m.clients m.registry
            (Closing.remove_by_fd m.topics fd).1
            (remove_watcher m.watches fd)
      cleaned = record {
        registry = v.registry;
        topics = remove_by_fd-IsConsistent m.topics fd v.topics;
        watches = remove_watcher-IsWatched m.watches fd v.watches;
        within = v.within;
        unheld = v.unheld;
        unlisted = λ f g n. elim (Bool-cases (fd == f)) [
          | inl h ↦ Unlisted-remove_by_fd m.topics fd f v.topics (inl h)
          | inr h ↦
              Unlisted-remove_by_fd m.topics fd f v.topics (inr (v.unlisted f g (still f h n)))
        ];
        unwatching = λ f g n. elim (Bool-cases (fd == f)) [
          | inl h ↦ Unwatching-remove_watcher m.watches fd f v.watches (inl h)
          | inr h ↦
              Unwatching-remove_watcher m.watches fd f v.watches
                (inr (v.unwatching f g (still f h n)))
        ];
      }

  pub allows :
      (closing : ℕ → Bool) (fd : ℕ) (allowed : ℕ → Bool) (m : Manager)
      → IsAlive closing (less fd allowed) m
      → IsAlive closing allowed m
  allows closing fd allowed m v = record {
    registry = v.registry;
    topics = v.topics;
    watches = v.watches;
    within = λ f g. ground (arith, v.within f g);
    unheld = v.unheld;
    unlisted = v.unlisted;
    unwatching = v.unwatching;
  }
