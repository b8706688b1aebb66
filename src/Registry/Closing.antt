-- ===== src/Registry/Closing.antt =====
-- removeByFd: what goes with a control connection that closes.
use omni_binder.Prelude.{
  ℕ, suc, ◌≡◌, refl, ap, ◌∙◌, Option, none, some, List, [], ◌∷◌, arith, ◌==◌, ==_iff, if◌then◌else◌,
  length, Option-cases, inl, inr,
}
use omni_binder.OrderedMap.{Map, find}
use omni_binder.OrderedMap.Keys.{Name, name_eq_iff, name_key, number_key}
use omni_binder.OrderedMap.Laws.{find-erase}
use omni_binder.OrderedMap.Nested.{find2, erase2, find2-erase2}
use omni_binder.Registry.{
  Entry, Ref, Registry, find_entry, is_ref, refs_of, remove_refs, remove_by_fd,
}
use omni_binder.Registry.Index.{count_ref, times, held_by, IsIndexed}

-- An entry, unless the connection holds it.
abbrev pub unless_held : ℕ → Option Entry → Option Entry
unless_held fd none = none
unless_held fd (some e) = if e.control_fd == fd then none else some e

-- The references are just the instances that the connection holds.
abbrev Covers : Map Name (Map Name Entry) → ℕ → List Ref → Type 0
Covers services fd refs = (n k : Name) → count_ref n k refs ≡ held_by (find2 n k services) fd

count_ref_head :
    (ref : Ref) (refs : List Ref)
    → count_ref ref.name ref.instance_key (ref ∷ refs)
      ≡ suc (count_ref ref.name ref.instance_key refs)
unfolding count_ref is_ref
count_ref_head ref refs =
    ground (arith, name_eq_iff ref.name ref.name, name_eq_iff ref.instance_key ref.instance_key)

held_entry :
    (services : Map Name (Map Name Entry)) (fd : ℕ) (ref : Ref) (refs : List Ref)
    → Covers services fd (ref ∷ refs)
    → (e : Entry) × (find2 ref.name ref.instance_key services ≡ some e) × (e.control_fd ≡ fd)
held_entry services fd ref refs c = elim (Option-cases (find2 ref.name ref.instance_key services)) [
  | inl e ↦ absurd (ground (arith, c ref.name ref.instance_key, count_ref_head ref refs, e))
  | inr (entry, e) ↦
      (entry, e, ground (arith, c ref.name ref.instance_key, count_ref_head ref refs, e))
]

Covers-rest :
    (services : Map Name (Map Name Entry)) (fd : ℕ) (ref : Ref) (refs : List Ref)
    → Covers services fd (ref ∷ refs)
    → Covers (erase2 ref.name ref.instance_key services) fd refs
unfolding count_ref is_ref
Covers-rest services fd ref refs c n k =
    let (entry, e, holds) = held_entry services fd ref refs c in
    ground (
      arith,
      c n k,
      find2-erase2 ref.name n ref.instance_key k services,
      name_eq_iff ref.name n,
      name_eq_iff ref.instance_key k,
      e,
      holds,
    )

find2-remove_refs :
    (services : Map Name (Map Name Entry)) (fd : ℕ) (refs : List Ref) (n k : Name)
    → Covers services fd refs
    → find2 n k (remove_refs services refs).1 ≡ unless_held fd (find2 n k services)
unfolding remove_refs count_ref
find2-remove_refs services fd [] n k c = ground (arith, c n k)
find2-remove_refs services fd (ref ∷ refs) n k c =
    let (entry, e, holds) = held_entry services fd ref refs c in
    rw (e, remove_refs)
      (find2-remove_refs (erase2 ref.name ref.instance_key services) fd refs n k
          (Covers-rest services fd ref refs c)
        ∙ ground (
          arith,
          find2-erase2 ref.name n ref.instance_key k services,
          name_eq_iff ref.name n,
          name_eq_iff ref.instance_key k,
          e,
          holds,
        ))

length-remove_refs :
    (services : Map Name (Map Name Entry)) (fd : ℕ) (refs : List Ref)
    → Covers services fd refs
    → length (remove_refs services refs).0 ≡ length refs
unfolding remove_refs
length-remove_refs services fd [] c = refl
length-remove_refs services fd (ref ∷ refs) c =
    let (entry, e, holds) = held_entry services fd ref refs c in
    rw (e, remove_refs)
      (ap suc (
        length-remove_refs (erase2 ref.name ref.instance_key services) fd refs
          (Covers-rest services fd ref refs c)))

Covers-refs :
    (r : Registry) (fd : ℕ) (refs : List Ref)
    → IsIndexed r
    → find fd r.fd_index ≡ some refs
    → Covers r.services fd refs
unfolding refs_of find_entry
Covers-refs r fd refs v e n k = ground (arith, v fd n k, e)

unheld :
    (r : Registry) (fd : ℕ) (n k : Name)
    → IsIndexed r
    → find fd r.fd_index ≡ none
    → find_entry r n k ≡ unless_held fd (find_entry r n k)
unfolding refs_of count_ref
unheld r fd n k v e = ground (arith, v fd n k, e)

-- In an indexed registry, closing a connection removes exactly the instances that it holds, and it
-- reports as many as the index has under the connection.
pub find_entry-remove_by_fd :
    (r : Registry) (fd : ℕ) (n k : Name)
    → IsIndexed r
    → let (removed, r') = remove_by_fd r fd in
      (find_entry r' n k ≡ unless_held fd (find_entry r n k))
      × (length removed ≡ length (refs_of fd r.fd_index))
unfolding remove_by_fd find_entry refs_of
find_entry-remove_by_fd r fd n k v = elim (Option-cases (find fd r.fd_index)) [
  | inl e ↦ rw (e, remove_by_fd, refs_of) (unheld r fd n k v e, refl)
  | inr (refs, e) ↦
      rw (e, remove_by_fd, refs_of)
        (
          find2-remove_refs r.services fd refs n k (Covers-refs r fd refs v e),
          length-remove_refs r.services fd refs (Covers-refs r fd refs v e),
        )
]

times_after_close :
    (r : Registry) (fd fd' : ℕ) (n k : Name)
    → times (remove_by_fd r fd).1.fd_index fd' n k
      ≡ (if fd == fd' then 0 else times r.fd_index fd' n k)
unfolding remove_by_fd refs_of count_ref
times_after_close r fd fd' n k = elim (Option-cases (find fd r.fd_index)) [
  | inl e ↦ rw (e, remove_by_fd) (ground (arith, ==_iff fd fd', e))
  | inr (refs, e) ↦ rw (e, remove_by_fd) (ground (arith, find-erase fd fd' r.fd_index))
]

-- The index agrees with the entries that are left.
pub remove_by_fd-IsIndexed : (r : Registry) (fd : ℕ) → IsIndexed r → IsIndexed (remove_by_fd r fd).1
remove_by_fd-IsIndexed r fd v fd' n k = ground (
  arith,
  times_after_close r fd fd' n k,
  (find_entry-remove_by_fd r fd n k v).0,
  v fd' n k,
  ==_iff fd fd',
)
