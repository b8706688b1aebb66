-- ===== src/Topics/Hashes.antt =====
-- setIdlHash changes no key, name, connection or subscription.
use omni_binder.Prelude.{
  ℕ, ◌≡◌, refl, Bool, ◌||◌, not, Option, none, [], ◌∷◌, arith, Bool-cases, inl, inr,
}
use omni_binder.OrderedMap.{Map, find, Distinct}
use omni_binder.OrderedMap.Keys.{Name, name_eq, name_key, number_key}
use omni_binder.OrderedMap.Sums.{sum}
use omni_binder.Topics.{Topics, TopicEntry, PublisherSlot, any_picked, is_empty, held}
use omni_binder.Topics.Publishers.{has_fd}
use omni_binder.Topics.Queries.{set_first_hash, set_hash_in, set_idl_hash}
use omni_binder.Topics.Counted.{IsPlain, about, all_held}
use omni_binder.Topics.Indexed.{publishing, subscribing}
use omni_binder.Topics.Consistent.{IsConsistent}

module _ (topic : Name) (idl_hash : ℕ) where
  sum-set_hash_in :
      (measure : TopicEntry → ℕ)
      → ((e : TopicEntry) (slots : Map Name PublisherSlot)
          → measure (record e { publishers = slots }) ≡ measure e)
      → (m : Map Name TopicEntry) → sum measure (set_hash_in topic idl_hash m).1 ≡ sum measure m
  unfolding set_hash_in
  sum-set_hash_in measure same [] = refl
  sum-set_hash_in measure same ((k, e) ∷ m) =
      ground (arith, sum-set_hash_in measure same m, same e (set_first_hash idl_hash e.publishers))

  any_picked-set_first_hash :
      (picked : ℕ → Bool) (slots : Map Name PublisherSlot)
      → any_picked picked (set_first_hash idl_hash slots) ≡ any_picked picked slots
  unfolding any_picked
  any_picked-set_first_hash picked [] = refl
  any_picked-set_first_hash picked ((i, slot) ∷ slots) = refl

  publishing-set_hash_in :
      (fd : ℕ) (j : Name) (m : Map Name TopicEntry)
      → publishing fd (find j (set_hash_in topic idl_hash m).1) ≡ publishing fd (find j m)
  unfolding set_hash_in find
  publishing-set_hash_in fd j [] = refl
  publishing-set_hash_in fd j ((k, e) ∷ m) =
      ground
        (arith, publishing-set_hash_in fd j m, any_picked-set_first_hash (has_fd fd) e.publishers)

  subscribing-set_hash_in :
      (fd : ℕ) (j : Name) (m : Map Name TopicEntry)
      → subscribing fd (find j (set_hash_in topic idl_hash m).1) ≡ subscribing fd (find j m)
  unfolding set_hash_in find
  subscribing-set_hash_in fd j [] = refl
  subscribing-set_hash_in fd j ((k, e) ∷ m) = ground (arith, subscribing-set_hash_in fd j m)

  find-set_hash_in-none :
      (j : Name) (m : Map Name TopicEntry)
      → find j m ≡ none
      → find j (set_hash_in topic idl_hash m).1 ≡ none
  unfolding set_hash_in find
  find-set_hash_in-none j [] h = refl
  find-set_hash_in-none j ((k, e) ∷ m) h = ground (arith, find-set_hash_in-none j m)

  Distinct-set_hash_in :
      (m : Map Name TopicEntry) → Distinct m → Distinct (set_hash_in topic idl_hash m).1
  unfolding set_hash_in
  Distinct-set_hash_in [] d = tt
  Distinct-set_hash_in ((k, e) ∷ m) d =
      elim (Bool-cases (not (name_eq e.topic_name topic) || is_empty e.publishers)) [
        | inl h ↦ rw (h, set_hash_in) (find-set_hash_in-none k m d.0, Distinct-set_hash_in m d.1)
        | inr h ↦ rw (h, set_hash_in) d
      ]

  IsPlain-set_hash_in :
      (j : Name) (m : Map Name TopicEntry)
      → IsPlain (find j m)
      → IsPlain (find j (set_hash_in topic idl_hash m).1)
  unfolding set_hash_in find
  IsPlain-set_hash_in j [] p = p
  IsPlain-set_hash_in j ((k, e) ∷ m) p =
      elim (Bool-cases (not (name_eq e.topic_name topic) || is_empty e.publishers)) [
        | inl h ↦ elim (Bool-cases (name_eq k j)) [
          | inl n ↦ rw (h, n, set_hash_in, find) (rw (n, find) at p)
          | inr n ↦ rw (h, n, set_hash_in, find) (IsPlain-set_hash_in j m (rw (n, find) at p))
        ]
        | inr h ↦ elim (Bool-cases (name_eq k j)) [
          | inl n ↦ rw (h, n, set_hash_in, find) (rw (n, find) at p)
          | inr n ↦ rw (h, n, set_hash_in, find) (rw (n, find) at p)
        ]
      ]

  pub set_idl_hash-IsConsistent :
      (skip : Option ℕ) (s : Topics)
      → IsConsistent skip s
      → IsConsistent skip (set_idl_hash s topic idl_hash).1
  unfolding set_idl_hash
  set_idl_hash-IsConsistent skip s v = record {
    counted = record {
      distinct = Distinct-set_hash_in s.topics v.counted.distinct;
      inner = λ k. IsPlain-set_hash_in k s.topics (v.counted.inner k);
      refs = λ t. cc (v.counted.refs t, sum-set_hash_in (about t) (λ e slots. refl) s.topics);
      counts =
          λ f n. cc (v.counted.counts f n, sum-set_hash_in (held f) (λ e slots. refl) s.topics);
      total = cc (v.counted.total, sum-set_hash_in all_held (λ e slots. refl) s.topics);
      small = v.counted.small;
    };
    indexed = record {
      publications =
          λ f k n p. v.indexed.publications f k n (cc (p, publishing-set_hash_in f k s.topics));
      subscriptions =
          λ f k n. cc (v.indexed.subscriptions f k n, subscribing-set_hash_in f k s.topics);
    };
  }
