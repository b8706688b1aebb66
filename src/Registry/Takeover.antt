-- ===== src/Registry/Takeover.antt =====
-- addService where an instance is there already: what it keeps through any later registrations.
use omni_binder.Prelude.{
  ℕ, ◌≡◌, refl, ap, ap₂, ◌∙◌, Bool, true, ◌&&◌, none, some, List, [], ◌∷◌, arith, ◌==◌,
  if◌then◌else◌, Bool-cases, inl, inr,
}
use omni_binder.OrderedMap.Keys.{Name, name_eq_iff}
use omni_binder.Types.{ServiceInfo, instance_key}
use omni_binder.Registry.{Entry, Registry, find_entry, add_service, is_registrable}
use omni_binder.Registry.Entries.{
  same_instance, registered, find_entry-add_service, add_service_takes_over, add_service_refused,
}

-- The registry after registrations, each with its connection, accepted or not.
unfoldable pub register_all : Registry → List (ServiceInfo × ℕ) → Registry
register_all r [] = r
register_all r ((info, fd) ∷ rest) = register_all (add_service r info fd).registry rest

-- The registration is accepted, and for the instance.
abbrev pub is_for : Name → Name → ServiceInfo → Bool
is_for n k info = is_registrable info && same_instance info.name (instance_key info.instance_id) n k

-- The connection of the last accepted registration of the instance, `held` where there is none.
unfoldable pub last_holder : Name → Name → ℕ → List (ServiceInfo × ℕ) → ℕ
last_holder n k held [] = held
last_holder n k held ((info, fd) ∷ rest) =
    last_holder n k (if is_for n k info then fd else held) rest

-- The entry of the instance after one registration, and after all.
abbrev after : Name → Name → Entry → ServiceInfo → ℕ → Entry
after n k old info fd = if is_for n k info then registered info old.handle fd else old

after_all : Name → Name → Entry → List (ServiceInfo × ℕ) → Entry
after_all n k old [] = old
after_all n k old ((info, fd) ∷ rest) = after_all n k (after n k old info fd) rest

same_instance_paths : (n k n' k' : Name) → same_instance n k n' k' ≡ true → (n ≡ n') × (k ≡ k')
same_instance_paths n k n' k' h =
    ((name_eq_iff n n').0 (ground (arith, h)), (name_eq_iff k k').0 (ground (arith, h)))

accepted :
    (r : Registry) (n k : Name) (old : Entry) (info : ServiceInfo) (fd : ℕ)
    → is_registrable info ≡ true
    → find_entry r n k ≡ some old
    → same_instance info.name (instance_key info.instance_id) n k ≡ true
    → find_entry (add_service r info fd).registry n k ≡ some (registered info old.handle fd)
accepted r n k old info fd t h s =
    let (names, keys) = same_instance_paths info.name (instance_key info.instance_id) n k s in
    let there = ap₂ (find_entry r) names keys ∙ h in
    find_entry-add_service r info fd n k t
    ∙ ap
        (λ b.
          if b then some (registered info (add_service r info fd).handle fd) else find_entry r n k)
        s
    ∙ ap (λ handle. some (registered info handle fd))
        (add_service_takes_over r info fd old t there).0

find_entry-after :
    (r : Registry) (n k : Name) (old : Entry) (info : ServiceInfo) (fd : ℕ)
    → find_entry r n k ≡ some old
    → find_entry (add_service r info fd).registry n k ≡ some (after n k old info fd)
find_entry-after r n k old info fd h = elim (Bool-cases (is_registrable info)) [
  | inr t ↦ rw (t) (ap (λ r'. find_entry r' n k) (add_service_refused r info fd t).2 ∙ h)
  | inl t ↦ elim (Bool-cases (same_instance info.name (instance_key info.instance_id) n k)) [
    | inl s ↦ rw (t, s) (accepted r n k old info fd t h s)
    | inr s ↦ rw (t, s) (find_entry-add_service r info fd n k t ∙ rw (s) h)
  ]
]

after_keeps :
    (n k : Name) (old : Entry) (info : ServiceInfo) (fd : ℕ)
    → ((after n k old info fd).handle ≡ old.handle)
      × ((after n k old info fd).control_fd ≡ (if is_for n k info then fd else old.control_fd))
after_keeps n k old info fd = elim (Bool-cases (is_for n k info)) [
  | inl t ↦ rw (t) (refl, refl)
  | inr t ↦ rw (t) (refl, refl)
]

find_entry-register_all :
    (regs : List (ServiceInfo × ℕ)) (r : Registry) (n k : Name) (old : Entry)
    → find_entry r n k ≡ some old
    → find_entry (register_all r regs) n k ≡ some (after_all n k old regs)
unfolding register_all after_all
find_entry-register_all [] r n k old h = h
find_entry-register_all ((info, fd) ∷ rest) r n k old h =
    find_entry-register_all rest _ n k (after n k old info fd)
      (find_entry-after r n k old info fd h)

after_all_keeps :
    (regs : List (ServiceInfo × ℕ)) (n k : Name) (old : Entry)
    → ((after_all n k old regs).handle ≡ old.handle)
      × ((after_all n k old regs).control_fd ≡ last_holder n k old.control_fd regs)
unfolding after_all last_holder
after_all_keeps [] n k old = (refl, refl)
after_all_keeps ((info, fd) ∷ rest) n k old =
    let step = after_keeps n k old info fd in
    let kept = after_all_keeps rest n k (after n k old info fd) in
    (kept.0 ∙ step.0, kept.1 ∙ ap (λ held. last_holder n k held rest) step.1)

-- An instance keeps its handle through any later registrations, accepted or refused, of it or of others:
-- registering it again answers the handle that it had before them, uses up no handle, and names the
-- connection that registered it last as displaced, unless that is the one that registers now.
pub add_service-register_all :
    (regs : List (ServiceInfo × ℕ)) (r : Registry) (old : Entry) (info : ServiceInfo) (fd : ℕ)
    → is_registrable info ≡ true
    → find_entry r info.name (instance_key info.instance_id) ≡ some old
    → let r' = register_all r regs in
      let a = add_service r' info fd in
      let held = last_holder info.name (instance_key info.instance_id) old.control_fd regs in
      (a.handle ≡ old.handle)
      × (a.displaced_fd ≡ (if held == fd then none else some held))
      × (a.registry.next_handle ≡ r'.next_handle)
add_service-register_all regs r old info fd t h =
    let key = instance_key info.instance_id in
    let kept = after_all_keeps regs info.name key old in
    let (handle, displaced, next) =
      add_service_takes_over (register_all r regs) info fd (after_all info.name key old regs) t
        (find_entry-register_all regs r info.name key old h) in
    (handle ∙ kept.0, displaced ∙ ap (λ held. if held == fd then none else some held) kept.1, next)
