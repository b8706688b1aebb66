-- ===== src/Topics/Consistent.antt =====
-- The state of TopicManager as a whole, through the operations that publish and subscribe.
use omni_binder.Prelude.{
  ℕ, ◌≡◌, Bool, true, false, Option, some, List, [], ◌∷◌, arith, ◌==◌, ==_iff, Option-cases, inl,
  inr,
}
use omni_binder.OrderedMap.{Map, find, contains, erase}
use omni_binder.OrderedMap.Keys.{Name, name_eq_iff, name_key, number_key}
use omni_binder.OrderedMap.Laws.{find-insert, find-erase}
use omni_binder.OrderedMap.Nested.{or_empty, erase2, find2-erase2, put_unless_empty}
use omni_binder.Topics.{Topics, TopicEntry, Filter, sweep}
use omni_binder.Topics.Subscribers.{set_subscribers, drop_subscription}
use omni_binder.Topics.Counted.{IsCounted}
use omni_binder.Topics.Indexed.{IsIndexed}

-- The counters and the indices agree with the entries, except for the connection `skip`, where there
-- is one.
pub record IsConsistent (skip : Option ℕ) (s : Topics) : Type 0 where
  pub counted : IsCounted skip s
  pub indexed : IsIndexed skip s

find-erase2_other :
    (fd f : ℕ) (k : Name) (m : Map ℕ (Map Name Filter))
    → (fd == f) ≡ false
    → find f (erase2 fd k m) ≡ find f m
unfolding erase2
find-erase2_other fd f k m n = elim (Option-cases (find fd m)) [
  | inl h ↦ rw (h, erase2)
  | inr (inner, h) ↦ rw (h, erase2) (find-put_other (erase k inner))
]
  where
    find-put_other : (inner : Map Name Filter) → find f (put_unless_empty fd inner m) ≡ find f m
    find-put_other [] = ground (arith, find-erase fd f m)
    find-put_other (x ∷ inner) = ground (arith, find-insert fd f (x ∷ inner) m)

module _ {skip : Option ℕ} where
  pub drop_subscription-IsIndexed :
      (s : Topics) (k : Name) (e : TopicEntry) (selkey : Name) (fd : ℕ)
      → find k s.topics ≡ some e
      → contains selkey (or_empty (find fd e.subscribers)) ≡ true
      → IsIndexed skip s
      → IsIndexed skip (drop_subscription s k e selkey fd)
  unfolding drop_subscription set_subscribers find
  drop_subscription-IsIndexed s k e selkey fd h there v =
      let e' : TopicEntry = record e { subscribers = erase2 fd selkey e.subscribers } in
      record {
        publications = λ f j n p.
            v.publications f j n
              (ground (arith, h, p, find-insert k j e' s.topics, name_eq_iff k j));
        subscriptions = λ f j n. ground (
          arith,
          h,
          there,
          v.subscriptions f j n,
          find2-erase2 fd f k j s.fd_subscriptions,
          find-erase2_other fd f selkey e.subscribers,
          find-insert k j e' s.topics,
          name_eq_iff k j,
          ==_iff fd f,
        );
      }

pub sweep_keeps :
    (P : Topics → Type 0) (visit : Topics → Name → Bool × Topics)
    → ((s : Topics) (k : Name) → P s → P (visit s k).1)
    → (ks : List Name) (s : Topics) → P s
    → P (sweep visit ks s).1
unfolding sweep
sweep_keeps P visit one [] s v = v
sweep_keeps P visit one (k ∷ ks) s v = sweep_keeps P visit one ks (visit s k).1 (one s k v)
