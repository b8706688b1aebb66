-- ===== src/Manager/Fuel.antt =====
-- closeClient needs no more fuel than there are connections.
use omni_binder.Prelude.{
  ℕ, zero, suc, ◌≤◌, ◌<◌, ◌≡◌, refl, Bool, true, false, Option, none, some, List, [], ◌∷◌, ◌∙◌, ap,
  arith, if◌then◌else◌, length, Bool-cases, Option-cases, inl, inr,
}
use omni_binder.OrderedMap.{Map, find, contains, erase}
use omni_binder.OrderedMap.Keys.{number_key, name_key}
use omni_binder.OrderedMap.Laws.{length-erase-le}
use omni_binder.Types.{ServiceIdentity}
use omni_binder.Manager.{Client, Manager}
use omni_binder.Manager.Ending.{
  remove_pid_fd, remove_target_watchers, notify_removed, remove_watcher_and_maybe_stop_targets,
  detach, release, close_client,
}
use omni_binder.Manager.Agreeing.{
  size, Shrinks, size-notify_removed, size-stop_all, same-notify_removed, same-stop_all,
}

size_erase :
    {V : Type 0} (fd : ℕ) (v : V) (m : Map ℕ V)
    → find fd m ≡ some v
    → length (erase fd m) < length m
unfolding find erase
size_erase fd v [] h = ground (arith, h)
size_erase fd v ((f, w) ∷ m) h = ground (arith, h, size_erase fd v m, length-erase-le fd m)

find_empty : {V : Type 0} (fd : ℕ) (m : Map ℕ V) → length m ≤ 0 → find fd m ≡ none
unfolding find
find_empty fd [] h = refl
find_empty fd (x ∷ m) h = ground (arith, h)

module _ (alloc : ℕ → Option (List ℕ)) where
  size-release : (m : Manager) (fd : ℕ) (c : Client) → size (release alloc m fd c) ≡ size m
  unfolding release remove_target_watchers
  size-release m fd c = elim (Bool-cases c.runtime_registered) [
    | inr h ↦ rw (h, release)
    | inl h ↦ elim (Bool-cases (contains c.pid (remove_pid_fd c.pid fd m.pid_to_fds))) [
      | inl p ↦ rw (h, p, release)
      | inr p ↦ elim (Option-cases (find c.pid m.pid_watchers)) [
        | inl w ↦ rw (h, p, w, release, remove_target_watchers)
        | inr (watchers, w) ↦ rw (h, p, w, release, remove_target_watchers)
      ]
    ]
  ]

  size-detach :
      (m : Manager) (fd : ℕ) (c : Client)
      → find fd m.clients ≡ some c
      → size (detach alloc m fd c).1 < size m
  unfolding detach
  size-detach m fd c h = size_erase fd c m.clients h

  size-told :
      (notify : Bool) (close : Manager → ℕ → Manager) (removed : List ServiceIdentity) (m : Manager)
      → Shrinks close
      → size (if notify then notify_removed alloc close removed m else m) ≤ size m
  size-told true close removed m shrinks = size-notify_removed alloc close shrinks removed m
  size-told false close removed m shrinks = omega arith

  size-close_client :
      (fuel : ℕ) (notify : Bool) (m : Manager) (fd : ℕ)
      → size (close_client alloc fuel notify m fd) ≤ size m
  unfolding close_client
  size-close_client zero notify m fd = omega arith
  size-close_client (suc fuel) notify m fd = elim (Option-cases (find fd m.clients)) [
    | inl h ↦ rw (h, close_client) (omega arith)
    | inr (c, h) ↦
        let close = λ (m' : Manager) (f : ℕ). close_client alloc fuel true m' f in
        let d = detach alloc m fd c in
        let told = if notify then notify_removed alloc close d.0 d.1 else d.1 in
        rw (h, close_client)
          (omega (
            arith,
            size-detach m fd c h,
            size-told notify close d.0 d.1 (size-close_client fuel true),
            size-release told fd c,
            size-stop_all alloc close (size-close_client fuel true) fd (release alloc told fd c),
          ))
  ]

  -- closeClient with fuel for every connection that is open does what it does with any more fuel: it
  -- never runs out of it, however many of its notifications fail and close further connections.
  pub close_client_fuel :
      (fuel more : ℕ) (notify : Bool) (m : Manager) (fd : ℕ)
      → length m.clients ≤ fuel
      → length m.clients ≤ more
      → close_client alloc fuel notify m fd ≡ close_client alloc more notify m fd
  unfolding close_client
  close_client_fuel zero zero notify m fd h g = refl
  close_client_fuel zero (suc more) notify m fd h g = rw (find_empty fd m.clients h, close_client)
  close_client_fuel (suc fuel) zero notify m fd h g = rw (find_empty fd m.clients g, close_client)
  close_client_fuel (suc fuel) (suc more) notify m fd h g =
      elim (Option-cases (find fd m.clients)) [
        | inl e ↦ rw (e, close_client)
        | inr (c, e) ↦
            let close = λ (m' : Manager) (f : ℕ). close_client alloc fuel true m' f in
            let close' = λ (m' : Manager) (f : ℕ). close_client alloc more true m' f in
            let d = detach alloc m fd c in
            let small = size-detach m fd c e in
            let shrinks = size-close_client fuel true in
            let n = size d.1 in
            let agree = λ (m' : Manager) (f : ℕ) (s : size m' ≤ n).
              close_client_fuel fuel more true m' f (omega (arith, s, small, h))
                (omega (arith, s, small, g)) in
            let told = λ (b : Bool) (close : Manager → ℕ → Manager).
              if b then notify_removed alloc close d.0 d.1 else d.1 in
            let same : told notify close ≡ told notify close' =
              elim notify as (λ b. told b close ≡ told b close') [
                | true ↦
                    same-notify_removed alloc close shrinks close' n agree d.0 d.1 (omega arith)
                | false ↦ refl
              ] in
            let next = release alloc (told notify close) fd c in
            let less : size next ≤ n = omega (
              arith,
              size-release (told notify close) fd c,
              size-told notify close d.0 d.1 shrinks,
            ) in
            rw (e, close_client)
              (same-stop_all alloc close shrinks close' n agree fd next less
                ∙ ap
                    (λ t.
                      remove_watcher_and_maybe_stop_targets alloc close' fd (release alloc t fd c))
                    same)
      ]
