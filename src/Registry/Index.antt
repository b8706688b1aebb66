-- ===== src/Registry/Index.antt =====
-- addService and removeEntryByName, and how the index from connections to instances stands to the
-- entries.
use omni_binder.Prelude.{
  ℕ, suc, ◌-◌, ◌≡◌, refl, ◌∙◌, true, ◌&&◌, ◌||◌, not, Option, none, some, List, [], ◌∷◌, ◌++◌,
  arith, ◌==◌, ==_iff, if◌then◌else◌, Bool-cases, Option-cases, inl, inr,
}
use omni_binder.OrderedMap.{Map, find}
use omni_binder.OrderedMap.Keys.{Name, name_eq_iff, name_key, number_key}
use omni_binder.OrderedMap.Laws.{find-insert, find-erase}
use omni_binder.Types.{ServiceInfo}
use omni_binder.Registry.{
  Entry, Ref, Registry, find_entry, add_service, take_over, register, is_registrable, is_ref,
  remove_ref, put_refs, remove_from_fd_index, refs_of, push_ref, remove_entry_by_name,
}
use omni_binder.Registry.Entries.{same_instance, find_entry-add_service, find_entry-remove}

unfoldable pub count_ref : Name → Name → List Ref → ℕ
count_ref n k [] = 0
count_ref n k (ref ∷ refs) = if is_ref n k ref then suc (count_ref n k refs) else count_ref n k refs

-- How often the instance stands under a connection.
abbrev pub times : Map ℕ (List Ref) → ℕ → Name → Name → ℕ
times index fd n k = count_ref n k (refs_of fd index)

abbrev pub held_by : Option Entry → ℕ → ℕ
held_by none fd = 0
held_by (some e) fd = if e.control_fd == fd then 1 else 0

abbrev pub IsIndexed : Registry → Type 0
IsIndexed r = (fd : ℕ) (n k : Name) → times r.fd_index fd n k ≡ held_by (find_entry r n k) fd

module _ (n0 k0 n k : Name) where
  count_ref-remove_ref :
      (refs : List Ref)
      → count_ref n k (remove_ref n0 k0 refs)
        ≡ (if same_instance n0 k0 n k then count_ref n k refs - 1 else count_ref n k refs)
  unfolding count_ref remove_ref is_ref
  count_ref-remove_ref [] = ground arith
  count_ref-remove_ref (ref ∷ refs) = ground (
    arith,
    count_ref-remove_ref refs,
    name_eq_iff n0 n,
    name_eq_iff k0 k,
    name_eq_iff ref.name n0,
    name_eq_iff ref.instance_key k0,
    name_eq_iff ref.name n,
    name_eq_iff ref.instance_key k,
  )

  count_ref-push :
      (refs : List Ref)
      → count_ref n k (refs ++ record { name = n0; instance_key = k0 } ∷ [])
        ≡ (if same_instance n0 k0 n k then suc (count_ref n k refs) else count_ref n k refs)
  unfolding count_ref is_ref
  count_ref-push [] = refl
  count_ref-push (ref ∷ refs) = ground (arith, count_ref-push refs)

refs_of-put_refs :
    (fd fd' : ℕ) (refs : List Ref) (index : Map ℕ (List Ref))
    → refs_of fd' (put_refs fd refs index) ≡ (if fd == fd' then refs else refs_of fd' index)
unfolding refs_of put_refs
refs_of-put_refs fd fd' [] index = ground (arith, find-erase fd fd' index)
refs_of-put_refs fd fd' (ref ∷ refs) index = ground (arith, find-insert fd fd' (ref ∷ refs) index)

refs_of-remove :
    (fd fd' : ℕ) (n0 k0 : Name) (index : Map ℕ (List Ref))
    → refs_of fd' (remove_from_fd_index fd n0 k0 index)
      ≡ (if fd == fd' then remove_ref n0 k0 (refs_of fd index) else refs_of fd' index)
unfolding remove_from_fd_index refs_of remove_ref
refs_of-remove fd fd' n0 k0 index = elim (Option-cases (find fd index)) [
  | inl e ↦ rw (e, remove_from_fd_index, refs_of) (ground (arith, ==_iff fd fd', e))
  | inr (refs, e) ↦
      rw (e, remove_from_fd_index)
        (refs_of-put_refs fd fd' (remove_ref n0 k0 refs) index ∙ ground (arith, ==_iff fd fd', e))
]

refs_of-push_ref :
    (fd fd' : ℕ) (n0 k0 : Name) (index : Map ℕ (List Ref))
    → refs_of fd' (push_ref fd n0 k0 index) ≡ (
        if fd == fd'
        then refs_of fd index ++ record { name = n0; instance_key = k0 } ∷ []
        else refs_of fd' index)
unfolding push_ref refs_of
refs_of-push_ref fd fd' n0 k0 index = ground (arith, find-insert fd fd' pushed index)
  where
    pushed : List Ref
    pushed = refs_of fd index ++ record { name = n0; instance_key = k0 } ∷ []

times-remove :
    (fd fd' : ℕ) (n0 k0 n k : Name) (index : Map ℕ (List Ref))
    → times (remove_from_fd_index fd n0 k0 index) fd' n k ≡ (
        if fd == fd' && same_instance n0 k0 n k
        then times index fd' n k - 1
        else times index fd' n k)
times-remove fd fd' n0 k0 n k index = ground (
  arith,
  refs_of-remove fd fd' n0 k0 index,
  count_ref-remove_ref n0 k0 n k (refs_of fd index),
  ==_iff fd fd',
)

times-push :
    (fd fd' : ℕ) (n0 k0 n k : Name) (index : Map ℕ (List Ref))
    → times (push_ref fd n0 k0 index) fd' n k ≡ (
        if fd == fd' && same_instance n0 k0 n k
        then suc (times index fd' n k)
        else times index fd' n k)
times-push fd fd' n0 k0 n k index = ground (
  arith,
  refs_of-push_ref fd fd' n0 k0 index,
  count_ref-push n0 k0 n k (refs_of fd index),
  ==_iff fd fd',
)

index_of_new :
    (r : Registry) (info : ServiceInfo) (fd fd' : ℕ) (n k : Name)
    → is_registrable info ≡ true
    → find_entry r info.name info.instance_id ≡ none
    → times (add_service r info fd).registry.fd_index fd' n k ≡ (
        if fd == fd' && same_instance info.name info.instance_id n k
        then suc (times r.fd_index fd' n k)
        else times r.fd_index fd' n k)
unfolding add_service register
index_of_new r info fd fd' n k h e =
    rw (h, e, add_service) (times-push fd fd' info.name info.instance_id n k r.fd_index)

index_of_taken :
    (r : Registry) (info : ServiceInfo) (fd fd' : ℕ) (n k : Name) (old : Entry)
    → is_registrable info ≡ true
    → find_entry r info.name info.instance_id ≡ some old
    → times (add_service r info fd).registry.fd_index fd' n k ≡ (
        if old.control_fd == fd || not (same_instance info.name info.instance_id n k)
        then times r.fd_index fd' n k
        else if fd == fd'
        then suc (times r.fd_index fd' n k)
        else if old.control_fd == fd'
        then times r.fd_index fd' n k - 1
        else times r.fd_index fd' n k)
unfolding add_service take_over
index_of_taken r info fd fd' n k old h e =
    rw (h, e, add_service)
      (ground (
        arith,
        times-push fd fd' info.name info.instance_id n k
            (remove_from_fd_index old.control_fd info.name info.instance_id r.fd_index),
        times-remove old.control_fd fd' info.name info.instance_id n k r.fd_index,
        ==_iff old.control_fd fd,
        ==_iff fd fd',
      ))

-- Registration keeps the index: the instance leaves a displaced connection and joins the new one.
pub add_service-IsIndexed :
    (r : Registry) (info : ServiceInfo) (fd : ℕ)
    → IsIndexed r
    → IsIndexed (add_service r info fd).registry
unfolding add_service
add_service-IsIndexed r info fd v fd' n k = elim (Bool-cases (is_registrable info)) [
  | inr h ↦ rw (h, add_service) (v fd' n k)
  | inl h ↦ elim (Option-cases (find_entry r info.name info.instance_id)) [
    | inl e ↦ ground (
      arith,
      index_of_new r info fd fd' n k h e,
      find_entry-add_service r info fd n k h,
      v fd' n k,
      name_eq_iff info.name n,
      name_eq_iff info.instance_id k,
      ==_iff fd fd',
    )
    | inr (old, e) ↦ ground (
      arith,
      index_of_taken r info fd fd' n k old h e,
      find_entry-add_service r info fd n k h,
      v fd' n k,
      name_eq_iff info.name n,
      name_eq_iff info.instance_id k,
      ==_iff fd fd',
      ==_iff old.control_fd fd,
      ==_iff old.control_fd fd',
    )
  ]
]

index_of_removed :
    (r : Registry) (name key : Name) (fd' : ℕ) (n k : Name) (old : Entry)
    → find_entry r name key ≡ some old
    → times (remove_entry_by_name r name key).1.fd_index fd' n k ≡ (
        if old.control_fd == fd' && same_instance name key n k
        then times r.fd_index fd' n k - 1
        else times r.fd_index fd' n k)
unfolding remove_entry_by_name
index_of_removed r name key fd' n k old e =
    rw (e, remove_entry_by_name) (times-remove old.control_fd fd' name key n k r.fd_index)

-- So does the removal of an instance.
pub remove-IsIndexed :
    (r : Registry) (name key : Name) → IsIndexed r → IsIndexed (remove_entry_by_name r name key).1
unfolding remove_entry_by_name
remove-IsIndexed r name key v fd' n k = elim (Option-cases (find_entry r name key)) [
  | inl e ↦ rw (e, remove_entry_by_name) (v fd' n k)
  | inr (old, e) ↦ ground (
    arith,
    index_of_removed r name key fd' n k old e,
    (find_entry-remove r name key n k).0,
    v fd' n k,
    name_eq_iff name n,
    name_eq_iff key k,
  )
]
