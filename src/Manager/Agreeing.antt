-- ===== src/Manager/Agreeing.antt =====
-- The loops that send where two functions close connections alike, and how they leave the number of
-- connections.
use omni_binder.Prelude.{
  ℕ, ◌≤◌, ◌≡◌, refl, Bool, false, ◌||◌, not, Option, List, [], ◌∷◌, ◌∙◌, ap, arith, ◌==◌, length,
  Bool-cases, Option-cases, inl, inr,
}
use omni_binder.OrderedMap.{find, contains, erase, keys}
use omni_binder.OrderedMap.Keys.{number_key, name_key}
use omni_binder.OrderedMap.Laws.{length-insert}
use omni_binder.Types.{ServiceIdentity}
use omni_binder.Message.{Message}
use omni_binder.Topics.{is_empty}
use omni_binder.Watches.{WatchGroup, matching}
use omni_binder.Manager.{Manager, send_message, send_bytes, output_of, next_sequence, new_message}
use omni_binder.Manager.Ending.{
  without, watch_message, send_watch_notify, notify_groups, notify_service_watch, notify_removed,
  stop_fds, send_diag_watch_stop, stop_target_if_unwatched, stop_targets,
  remove_watcher_and_maybe_stop_targets,
}

abbrev pub size : Manager → ℕ
size m = length m.clients

abbrev pub Shrinks : (Manager → ℕ → Manager) → Type 0
Shrinks close = (m : Manager) (fd : ℕ) → size (close m fd) ≤ size m

-- The two do the same with up to `n` connections.
abbrev pub Agree : ℕ → (Manager → ℕ → Manager) → (Manager → ℕ → Manager) → Type 0
Agree n close close' = (m : Manager) (fd : ℕ) → size m ≤ n → close m fd ≡ close' m fd

module _ (alloc : ℕ → Option (List ℕ)) (close : Manager → ℕ → Manager)
    (shrinks : Shrinks close) where
  size-send_message :
      (m : Manager) (fd : ℕ) (msg : Message) → size (send_message alloc close m fd msg) ≤ size m
  unfolding send_message
  size-send_message m fd msg = elim (Option-cases (find fd m.clients)) [
    | inl h ↦ rw (h, send_message) (omega arith)
    | inr (c, h) ↦ elim (Option-cases (output_of alloc msg)) [
      | inl o ↦ rw (h, o, send_message) (omega arith)
      | inr (output, o) ↦ elim (Option-cases (send_bytes c output)) [
        | inl s ↦ rw (h, o, s, send_message) (shrinks m fd)
        | inr (c', s) ↦
            rw (h, o, s, send_message) (ground (arith, h, length-insert fd c' m.clients))
      ]
    ]
  ]

  size-notify_groups :
      (identity : ServiceIdentity) (online : Bool) (groups : List WatchGroup) (m : Manager)
      → size (notify_groups alloc close identity online groups m) ≤ size m
  unfolding notify_groups send_watch_notify next_sequence
  size-notify_groups identity online [] m = omega arith
  size-notify_groups identity online (group ∷ groups) m =
      let rest = size-notify_groups identity online groups in
      elim (Bool-cases (contains group.subscriber_fd m.clients)) [
        | inr h ↦ rw (h, notify_groups) (rest m)
        | inl h ↦
            let msg = watch_message m.sequence group.watch_id identity online in
            let one = size-send_message (next_sequence m) group.subscriber_fd msg in
            rw (h, notify_groups)
              (omega (
                arith,
                one,
                rest (send_message alloc close (next_sequence m) group.subscriber_fd msg),
              ))
      ]

  pub size-notify_removed :
      (removed : List ServiceIdentity) (m : Manager)
      → size (notify_removed alloc close removed m) ≤ size m
  unfolding notify_removed notify_service_watch
  size-notify_removed [] m = omega arith
  size-notify_removed (identity ∷ removed) m = omega (
    arith,
    size-notify_groups identity false (matching m.watches identity) m,
    size-notify_removed removed (notify_service_watch alloc close m identity false),
  )

  size-stop_fds :
      (except_fd : ℕ) (fds : List ℕ) (m : Manager)
      → size (stop_fds alloc close except_fd fds m) ≤ size m
  unfolding stop_fds next_sequence
  size-stop_fds except_fd [] m = omega arith
  size-stop_fds except_fd (fd ∷ fds) m =
      elim (Bool-cases (not (contains fd m.clients) || fd == except_fd)) [
        | inl h ↦ rw (h, stop_fds) (size-stop_fds except_fd fds m)
        | inr h ↦
            let msg = new_message 0x0046 m.sequence [] in
            rw (h, stop_fds)
              (omega (
                arith,
                size-send_message (next_sequence m) fd msg,
                size-stop_fds except_fd fds (send_message alloc close (next_sequence m) fd msg),
              ))
      ]

  size-stop_target :
      (pid watcher_fd : ℕ) (m : Manager)
      → size (stop_target_if_unwatched alloc close pid watcher_fd m) ≤ size m
  unfolding stop_target_if_unwatched send_diag_watch_stop
  size-stop_target pid watcher_fd m = elim (Option-cases (find pid m.pid_watchers)) [
    | inl h ↦ rw (h, stop_target_if_unwatched) (size-stop_fds watcher_fd _ m)
    | inr (watchers, h) ↦ elim (Bool-cases (is_empty (without watcher_fd watchers))) [
      | inr n ↦ rw (h, n, stop_target_if_unwatched) (omega arith)
      | inl n ↦
          rw (h, n, stop_target_if_unwatched)
            (size-stop_fds watcher_fd _ (record m { pid_watchers = erase pid m.pid_watchers }))
    ]
  ]

  size-stop_targets :
      (watcher_fd : ℕ) (pids : List ℕ) (m : Manager)
      → size (stop_targets alloc close watcher_fd pids m) ≤ size m
  unfolding stop_targets
  size-stop_targets watcher_fd [] m = omega arith
  size-stop_targets watcher_fd (pid ∷ pids) m = omega (
    arith,
    size-stop_target pid watcher_fd m,
    size-stop_targets watcher_fd pids (stop_target_if_unwatched alloc close pid watcher_fd m),
  )

  pub size-stop_all :
      (watcher_fd : ℕ) (m : Manager)
      → size (remove_watcher_and_maybe_stop_targets alloc close watcher_fd m) ≤ size m
  unfolding remove_watcher_and_maybe_stop_targets
  size-stop_all watcher_fd m = elim (Option-cases (find watcher_fd m.watcher_to_pids)) [
    | inl h ↦ rw (h, remove_watcher_and_maybe_stop_targets) (omega arith)
    | inr (pids, h) ↦
        rw (h, remove_watcher_and_maybe_stop_targets)
          (size-stop_targets watcher_fd (keys pids)
            (record m { watcher_to_pids = erase watcher_fd m.watcher_to_pids }))
  ]

  module _ (close' : Manager → ℕ → Manager) (n : ℕ) (agree : Agree n close close') where
    same-send_message :
        (m : Manager) (fd : ℕ) (msg : Message)
        → size m ≤ n
        → send_message alloc close m fd msg ≡ send_message alloc close' m fd msg
    unfolding send_message
    same-send_message m fd msg small = elim (Option-cases (find fd m.clients)) [
      | inl h ↦ rw (h, send_message)
      | inr (c, h) ↦ elim (Option-cases (output_of alloc msg)) [
        | inl o ↦ rw (h, o, send_message)
        | inr (output, o) ↦ elim (Option-cases (send_bytes c output)) [
          | inl s ↦ rw (h, o, s, send_message) (agree m fd small)
          | inr (c', s) ↦ rw (h, o, s, send_message)
        ]
      ]
    ]

    same-notify_groups :
        (identity : ServiceIdentity) (online : Bool) (groups : List WatchGroup) (m : Manager)
        → size m ≤ n
        → notify_groups alloc close identity online groups m
          ≡ notify_groups alloc close' identity online groups m
    unfolding notify_groups send_watch_notify next_sequence
    same-notify_groups identity online [] m small = refl
    same-notify_groups identity online (group ∷ groups) m small =
        elim (Bool-cases (contains group.subscriber_fd m.clients)) [
          | inr h ↦ rw (h, notify_groups) (same-notify_groups identity online groups m small)
          | inl h ↦
              let fd = group.subscriber_fd in
              let msg = watch_message m.sequence group.watch_id identity online in
              let next = send_message alloc close (next_sequence m) fd msg in
              let one = same-send_message (next_sequence m) fd msg small in
              let less : size next ≤ n =
                omega (arith, small, size-send_message (next_sequence m) fd msg) in
              rw (h, notify_groups)
                (same-notify_groups identity online groups next less
                  ∙ ap (notify_groups alloc close' identity online groups) one)
        ]

    pub same-notify_removed :
        (removed : List ServiceIdentity) (m : Manager)
        → size m ≤ n
        → notify_removed alloc close removed m ≡ notify_removed alloc close' removed m
    unfolding notify_removed notify_service_watch
    same-notify_removed [] m small = refl
    same-notify_removed (identity ∷ removed) m small =
        let groups = matching m.watches identity in
        let next = notify_groups alloc close identity false groups m in
        let less : size next ≤ n =
          omega (arith, small, size-notify_groups identity false groups m) in
        same-notify_removed removed next less
        ∙ ap (notify_removed alloc close' removed)
            (same-notify_groups identity false groups m small)

    same-stop_fds :
        (except_fd : ℕ) (fds : List ℕ) (m : Manager)
        → size m ≤ n
        → stop_fds alloc close except_fd fds m ≡ stop_fds alloc close' except_fd fds m
    unfolding stop_fds next_sequence
    same-stop_fds except_fd [] m small = refl
    same-stop_fds except_fd (fd ∷ fds) m small =
        elim (Bool-cases (not (contains fd m.clients) || fd == except_fd)) [
          | inl h ↦ rw (h, stop_fds) (same-stop_fds except_fd fds m small)
          | inr h ↦
              let msg = new_message 0x0046 m.sequence [] in
              let next = send_message alloc close (next_sequence m) fd msg in
              let one = same-send_message (next_sequence m) fd msg small in
              let less : size next ≤ n =
                omega (arith, small, size-send_message (next_sequence m) fd msg) in
              rw (h, stop_fds)
                (same-stop_fds except_fd fds next less
                  ∙ ap (stop_fds alloc close' except_fd fds) one)
        ]

    same-stop_target :
        (pid watcher_fd : ℕ) (m : Manager)
        → size m ≤ n
        → stop_target_if_unwatched alloc close pid watcher_fd m
          ≡ stop_target_if_unwatched alloc close' pid watcher_fd m
    unfolding stop_target_if_unwatched send_diag_watch_stop
    same-stop_target pid watcher_fd m small = elim (Option-cases (find pid m.pid_watchers)) [
      | inl h ↦ rw (h, stop_target_if_unwatched) (same-stop_fds watcher_fd _ m small)
      | inr (watchers, h) ↦ elim (Bool-cases (is_empty (without watcher_fd watchers))) [
        | inr e ↦ rw (h, e, stop_target_if_unwatched)
        | inl e ↦
            rw (h, e, stop_target_if_unwatched)
              (same-stop_fds watcher_fd _ (record m { pid_watchers = erase pid m.pid_watchers })
                small)
      ]
    ]

    same-stop_targets :
        (watcher_fd : ℕ) (pids : List ℕ) (m : Manager)
        → size m ≤ n
        → stop_targets alloc close watcher_fd pids m ≡ stop_targets alloc close' watcher_fd pids m
    unfolding stop_targets
    same-stop_targets watcher_fd [] m small = refl
    same-stop_targets watcher_fd (pid ∷ pids) m small =
        let next = stop_target_if_unwatched alloc close pid watcher_fd m in
        let less : size next ≤ n = omega (arith, small, size-stop_target pid watcher_fd m) in
        same-stop_targets watcher_fd pids next less
        ∙ ap (stop_targets alloc close' watcher_fd pids) (same-stop_target pid watcher_fd m small)

    pub same-stop_all :
        (watcher_fd : ℕ) (m : Manager)
        → size m ≤ n
        → remove_watcher_and_maybe_stop_targets alloc close watcher_fd m
          ≡ remove_watcher_and_maybe_stop_targets alloc close' watcher_fd m
    unfolding remove_watcher_and_maybe_stop_targets
    same-stop_all watcher_fd m small = elim (Option-cases (find watcher_fd m.watcher_to_pids)) [
      | inl h ↦ rw (h, remove_watcher_and_maybe_stop_targets)
      | inr (pids, h) ↦
          rw (h, remove_watcher_and_maybe_stop_targets)
            (same-stop_targets watcher_fd (keys pids)
              (record m { watcher_to_pids = erase watcher_fd m.watcher_to_pids }) small)
    ]
