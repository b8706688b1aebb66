-- ===== src/Manager/Ending.antt =====
-- closeClient, with notifyServiceWatch of sm_registry.cpp and the tables by process of sm_diag.cpp.
use omni_binder.Prelude.{
  ℕ, zero, suc, ◌/◌, ◌%◌, Bool, true, false, ◌||◌, not, Option, none, some, List, [], ◌∷◌, ◌++◌,
  ◌==◌, if◌then◌else◌, bytes32, u32_mod,
}
use omni_binder.OrderedMap.{Map, Set, find, contains, insert, erase, keys}
use omni_binder.OrderedMap.Keys.{Name, number_key, name_key}
use omni_binder.OrderedMap.Nested.{erase2, or_empty}
use omni_binder.Types.{ServiceIdentity}
use omni_binder.Message.{Message}
use omni_binder.Message.Topic.{encode_identity, bool_byte}
use omni_binder.Registry as Registry
use omni_binder.Topics.Closing as Closing
use omni_binder.Topics.{is_empty}
use omni_binder.Watches.{WatchGroup, matching, remove_watcher}
use omni_binder.Manager.{Client, Manager, next_sequence, new_message, send_message}

abbrev pub bytes64 : ℕ → List ℕ
bytes64 v = bytes32 (v % u32_mod) ++ bytes32 (v / u32_mod)

-- The fds without one of them.
unfoldable pub without : ℕ → List ℕ → List ℕ
without fd [] = []
without fd (f ∷ fds) = let rest = without fd fds in if f == fd then rest else f ∷ rest

abbrev pub put_fds : ℕ → List ℕ → Map ℕ (List ℕ) → Map ℕ (List ℕ)
put_fds pid [] m = erase pid m
put_fds pid (f ∷ fds) m = insert pid (f ∷ fds) m

-- removePidFd
unfoldable pub remove_pid_fd : ℕ → ℕ → Map ℕ (List ℕ) → Map ℕ (List ℕ)
remove_pid_fd pid fd m = elim (find pid m) [ none ↦ m | some fds ↦ put_fds pid (without fd fds) m ]

-- The loop of removeTargetWatchers.
unfoldable pub forget_target : ℕ → List ℕ → Map ℕ (Set ℕ) → Map ℕ (Set ℕ)
forget_target pid [] m = m
forget_target pid (watcher ∷ watchers) m = forget_target pid watchers (erase2 watcher pid m)

unfoldable pub remove_target_watchers : ℕ → Manager → Manager
remove_target_watchers pid m = elim (find pid m.pid_watchers) [
  | none ↦ m
  | some watchers ↦ record m {
    pid_watchers = erase pid m.pid_watchers;
    watcher_to_pids = forget_target pid watchers m.watcher_to_pids;
  }
]

-- The session of a connection that closes.
unfoldable pub release_session : Name → ℕ → Map Name ℕ → Map Name ℕ
release_session key fd sessions = if is_empty key then sessions else elim (find key sessions) [
  | none ↦ sessions
  | some f ↦ if f == fd then erase key sessions else sessions
]

-- sendServiceWatchNotify
unfoldable pub watch_message : ℕ → ℕ → ServiceIdentity → Bool → Message
watch_message sequence watch_id identity online =
    new_message 0x002A sequence
      (bytes64 watch_id ++ (encode_identity identity ++ bool_byte online ∷ []))

module _ (alloc : ℕ → Option (List ℕ)) where
  module _ (close : Manager → ℕ → Manager) where
    unfoldable pub send_watch_notify : Manager → ℕ → ℕ → ServiceIdentity → Bool → Manager
    send_watch_notify m fd watch_id identity online =
        send_message alloc close (next_sequence m) fd
          (watch_message m.sequence watch_id identity online)

    -- The loop of notifyServiceWatch.
    unfoldable pub notify_groups : ServiceIdentity → Bool → List WatchGroup → Manager → Manager
    notify_groups identity online [] m = m
    notify_groups identity online (group ∷ groups) m = notify_groups identity online groups (
        if contains group.subscriber_fd m.clients
        then send_watch_notify m group.subscriber_fd group.watch_id identity online
        else m)

    unfoldable pub notify_service_watch : Manager → ServiceIdentity → Bool → Manager
    notify_service_watch m identity online =
        notify_groups identity online (matching m.watches identity) m

    unfoldable pub notify_removed : List ServiceIdentity → Manager → Manager
    notify_removed [] m = m
    notify_removed (identity ∷ removed) m =
        notify_removed removed (notify_service_watch m identity false)

    -- The loop of forEachPidConn, as sendDiagWatchStopToPid calls it.
    unfoldable pub stop_fds : ℕ → List ℕ → Manager → Manager
    stop_fds except_fd [] m = m
    stop_fds except_fd (fd ∷ fds) m = stop_fds except_fd fds (
        if not (contains fd m.clients) || fd == except_fd
        then m
        else send_message alloc close (next_sequence m) fd (new_message 0x0046 m.sequence []))

    unfoldable pub send_diag_watch_stop : ℕ → ℕ → Manager → Manager
    send_diag_watch_stop pid except_fd m = stop_fds except_fd (or_empty (find pid m.pid_to_fds)) m

    unfoldable pub stop_target_if_unwatched : ℕ → ℕ → Manager → Manager
    stop_target_if_unwatched pid watcher_fd m = elim (find pid m.pid_watchers) [
      | none ↦ send_diag_watch_stop pid watcher_fd m
      | some watchers ↦
          let rest = without watcher_fd watchers in
          if not (is_empty rest)
          then record m { pid_watchers = insert pid rest m.pid_watchers }
          else send_diag_watch_stop pid watcher_fd
              (record m { pid_watchers = erase pid m.pid_watchers })
    ]

    unfoldable pub stop_targets : ℕ → List ℕ → Manager → Manager
    stop_targets watcher_fd [] m = m
    stop_targets watcher_fd (pid ∷ pids) m =
        stop_targets watcher_fd pids (stop_target_if_unwatched pid watcher_fd m)

    -- removeWatcherAndMaybeStopTargets
    unfoldable pub remove_watcher_and_maybe_stop_targets : ℕ → Manager → Manager
    remove_watcher_and_maybe_stop_targets watcher_fd m = elim (find watcher_fd m.watcher_to_pids) [
      | none ↦ m
      | some pids ↦
          stop_targets watcher_fd (keys pids)
            (record m { watcher_to_pids = erase watcher_fd m.watcher_to_pids })
    ]

  -- What of a closing connection goes at once.
  unfoldable pub detach : Manager → ℕ → Client → List ServiceIdentity × Manager
  detach m fd c =
      let (removed, registry) = Registry.remove_by_fd m.registry fd in
      (
        removed,
        record m {
          clients = erase fd m.clients;
          runtime_sessions = release_session c.session_key fd m.runtime_sessions;
          registry = registry;
        },
      )

  -- What goes behind the notifications.
  unfoldable pub release : Manager → ℕ → Client → Manager
  release m fd c =
      let m' = record m {
        watches = remove_watcher m.watches fd;
        topics = (Closing.remove_by_fd m.topics fd).1;
      } in
      if not c.runtime_registered
      then m'
      else let fds = remove_pid_fd c.pid fd m'.pid_to_fds in
        if contains c.pid fds
        then record m' { pid_to_fds = fds }
        else remove_target_watchers c.pid (record m' { pid_to_fds = fds })

  -- closeClient. It may be called again for other connections by the sends that fail; the fuel is the
  -- number of connections that can be closed in this way.
  unfoldable pub close_client : ℕ → Bool → Manager → ℕ → Manager
  close_client zero notify m fd = m
  close_client (suc fuel) notify m fd = elim (find fd m.clients) [
    | none ↦ m
    | some c ↦
        let close = λ (m' : Manager) (f : ℕ). close_client fuel true m' f in
        let (removed, detached) = detach m fd c in
        let notified = if notify then notify_removed close removed detached else detached in
        remove_watcher_and_maybe_stop_targets close fd (release notified fd c)
  ]
