-- ===== src/Topics/Gone.antt =====
-- removeByFd as a whole.
use omni_binder.Prelude.{
  ℕ, ◌≡◌, refl, false, none, some, List, [], ◌∷◌, arith, ==_iff, Bool-cases, Option-cases, inl, inr,
}
use omni_binder.OrderedMap.{find, contains, erase}
use omni_binder.OrderedMap.Keys.{Name, name_eq_iff, name_key, number_key}
use omni_binder.OrderedMap.Laws.{find-insert, find-erase}
use omni_binder.Topics.{Topics, TopicEntry, set_publishers}
use omni_binder.Topics.Subscribers.{set_subscribers}
use omni_binder.Topics.Closing.{
  keep_others, close_publications, close_all_publications, close_subscriptions,
  close_all_subscriptions,
}
use omni_binder.Topics.Counted.{set_publishers-IsCounted}
use omni_binder.Topics.Tallied.{closed_at-IsCounted}
use omni_binder.Topics.Indexed.{publishing, subscribing}
use omni_binder.Topics.Consistent.{IsConsistent}
use omni_binder.Topics.Operations.{erase_entry_if_unused-IsConsistent}
use omni_binder.Topics.Cleared.{publishing-keep_others}

module _ (fd : ℕ) where
  close_publications-IsConsistent :
      (s : Topics) (k : Name)
      → IsConsistent (some fd) s
      → IsConsistent (some fd) (close_publications fd s k).1
  unfolding close_publications set_publishers
  close_publications-IsConsistent s k v = elim (Option-cases (find k s.topics)) [
    | inl h ↦ rw (h, close_publications) v
    | inr (e, h) ↦
        let slots = keep_others fd e.publishers in
        let e' : TopicEntry = record e { publishers = slots } in
        rw (h, close_publications)
          (erase_entry_if_unused-IsConsistent _ k (record {
            counted = set_publishers-IsCounted s k e slots s.fd_publications h v.counted;
            indexed = record {
              publications = λ f j n p. v.indexed.publications f j n (
                  ground (
                    arith,
                    h,
                    p,
                    find-insert k j e' s.topics,
                    publishing-keep_others fd f e.publishers,
                    name_eq_iff k j,
                  ));
              subscriptions = λ f j n. ground (
                arith,
                h,
                v.indexed.subscriptions f j n,
                find-insert k j e' s.topics,
                name_eq_iff k j,
              );
            };
          }))
  ]

  close_subscriptions-IsConsistent :
      (s : Topics) (k : Name)
      → IsConsistent (some fd) s
      → IsConsistent (some fd) (close_subscriptions fd s k)
  unfolding close_subscriptions set_subscribers
  close_subscriptions-IsConsistent s k v = elim (Option-cases (find k s.topics)) [
    | inl h ↦ rw (h, close_subscriptions) v
    | inr (e, h) ↦ elim (Bool-cases (contains fd e.subscribers)) [
      | inr c ↦ rw (h, c, close_subscriptions) (erase_entry_if_unused-IsConsistent s k v)
      | inl c ↦
          let e' : TopicEntry = record e { subscribers = erase fd e.subscribers } in
          rw (h, c, close_subscriptions)
            (erase_entry_if_unused-IsConsistent _ k (record {
              counted = closed_at-IsCounted s k e fd refl v.counted h;
              indexed = record {
                publications = λ f j n p.
                    v.indexed.publications f j n
                      (ground (arith, h, p, find-insert k j e' s.topics, name_eq_iff k j));
                subscriptions = λ f j n. ground (
                  arith,
                  h,
                  n,
                  v.indexed.subscriptions f j n,
                  find-insert k j e' s.topics,
                  find-erase fd f e.subscribers,
                  ==_iff fd f,
                  name_eq_iff k j,
                );
              };
            }))
    ]
  ]

  pub close_all_publications-IsConsistent :
      (ks : List Name) (s : Topics)
      → IsConsistent (some fd) s
      → IsConsistent (some fd) (close_all_publications fd ks s).1
  unfolding close_all_publications
  close_all_publications-IsConsistent [] s v = v
  close_all_publications-IsConsistent (k ∷ ks) s v =
      close_all_publications-IsConsistent ks _ (close_publications-IsConsistent s k v)

  pub close_all_subscriptions-IsConsistent :
      (ks : List Name) (s : Topics)
      → IsConsistent (some fd) s
      → IsConsistent (some fd) (close_all_subscriptions fd ks s)
  unfolding close_all_subscriptions
  close_all_subscriptions-IsConsistent [] s v = v
  close_all_subscriptions-IsConsistent (k ∷ ks) s v =
      close_all_subscriptions-IsConsistent ks _ (close_subscriptions-IsConsistent s k v)

  -- Nothing names the connection any more.
  pub record IsGone (s : Topics) : Type 0 where
    pub publishes : (k : Name) → publishing fd (find k s.topics) ≡ false
    pub subscribes : (k : Name) → subscribing fd (find k s.topics) ≡ false
    pub publications : find fd s.fd_publications ≡ none
    pub subscriptions : find fd s.fd_subscriptions ≡ none
    pub count : find fd s.fd_subscription_counts ≡ none
