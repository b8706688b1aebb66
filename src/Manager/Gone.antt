-- ===== src/Manager/Gone.antt =====
-- closeClient as a whole.
use omni_binder.Prelude.{
  ℕ, zero, suc, ◌≡◌, refl, Bool, true, false, Option, none, List, arith, ==_iff, if◌then◌else◌,
  Bool-cases, Option-cases, inl, inr,
}
use omni_binder.OrderedMap.{find, contains}
use omni_binder.OrderedMap.Keys.{number_key, name_key}
use omni_binder.Manager.{Manager}
use omni_binder.Manager.Alive.{IsAlive, Keeps, Unheld, Unlisted, Unwatching}
use omni_binder.Manager.Closed.{
  less, more, detach-IsAlive, notify_removed-IsAlive, release-IsAlive, stop_all-IsAlive, allows,
}
use omni_binder.Manager.Ending.{detach, close_client, notify_removed}

module _ (alloc : ℕ → Option (List ℕ)) where
  closed_with :
      (fuel : ℕ) (notify : Bool)
      → Keeps (λ m f. close_client alloc fuel true m f)
      → (closing allowed : ℕ → Bool) (m : Manager) (fd : ℕ) → IsAlive closing allowed m
      → IsAlive closing (less fd allowed) (close_client alloc (suc fuel) notify m fd)
  unfolding close_client
  closed_with fuel notify keeps closing allowed m fd v = elim (Option-cases (find fd m.clients)) [
    | inl h ↦ rw (h, close_client) (unknown h)
    | inr (c, h) ↦
        let close = λ (m' : Manager) (f : ℕ). close_client alloc fuel true m' f in
        let within = more fd closing in
        let others = less fd allowed in
        let removed = (detach alloc m fd c).0 in
        let detached = (detach alloc m fd c).1 in
        let start = detach-IsAlive alloc closing allowed m fd c v in
        let told : IsAlive within others
            (if notify then notify_removed alloc close removed detached else detached) =
          elim notify
            as (λ b.
              IsAlive within others
                (if b then notify_removed alloc close removed detached else detached)) [
                  | true ↦
                      notify_removed-IsAlive alloc close keeps within others removed detached start
                  | false ↦ start
                ] in
        rw (h, close_client)
          (stop_all-IsAlive alloc close keeps closing others fd _
            (release-IsAlive alloc closing others _ fd c told))
  ]
    where
      unknown : find fd m.clients ≡ none → IsAlive closing (less fd allowed) m
      unknown h = record {
        registry = v.registry;
        topics = v.topics;
        watches = v.watches;
        within = λ f g. ground (arith, g, h, v.within f g, ==_iff fd f);
        unheld = v.unheld;
        unlisted = v.unlisted;
        unwatching = v.unwatching;
      }

  pub close_client-Keeps :
      (fuel : ℕ) (notify : Bool) → Keeps (λ m f. close_client alloc fuel notify m f)
  unfolding close_client
  close_client-Keeps zero notify closing allowed m fd v = v
  close_client-Keeps (suc fuel) notify closing allowed m fd v =
      allows alloc closing fd allowed (close_client alloc (suc fuel) notify m fd)
        (closed_with fuel notify (close_client-Keeps fuel true) closing allowed m fd v)

  -- Behind closeClient, with any fuel but 0, from a state in which only open connections hold services,
  -- publish, subscribe or watch, the connection is closed, holds no service instance, is in no index
  -- of the topics and watches nothing, whichever of the notifications failed and closed further
  -- connections; and still only open connections do these things.
  pub close_client-closed :
      (fuel : ℕ) (notify : Bool) (m : Manager) (fd : ℕ)
      → IsAlive (λ f. false) (λ f. true) m
      → let m' = close_client alloc (suc fuel) notify m fd in
        (contains fd m'.clients ≡ false)
        × Unheld fd m'.registry
        × Unlisted fd m'.topics
        × Unwatching fd m'.watches
        × IsAlive (λ f. false) (λ f. true) m'
  close_client-closed fuel notify m fd v =
      let w =
        closed_with fuel notify (close_client-Keeps fuel true) (λ f. false) (λ f. true) m fd v in
      let m' = close_client alloc (suc fuel) notify m fd in
      let gone : contains fd m'.clients ≡ false = elim (Bool-cases (contains fd m'.clients)) [
        | inl h ↦ ground (arith, w.within fd h, ==_iff fd fd)
        | inr h ↦ h
      ] in
      (
        gone,
        w.unheld fd gone,
        w.unlisted fd gone refl,
        w.unwatching fd gone refl,
        allows alloc (λ f. false) fd (λ f. true) m' w,
      )
