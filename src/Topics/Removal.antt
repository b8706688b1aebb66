-- ===== src/Topics/Removal.antt =====
-- removeByFd from a consistent state.
use omni_binder.Prelude.{
  ℕ, ◌≡◌, ◌≢◌, refl, false, Option, none, some, arith, ◌==◌, ==_iff, Bool-cases, inl, inr,
}
use omni_binder.OrderedMap.{Map, Set, find, erase}
use omni_binder.OrderedMap.Keys.{Name, name_key, number_key}
use omni_binder.OrderedMap.Laws.{find-erase}
use omni_binder.OrderedMap.Nested.{find2}
use omni_binder.OrderedMap.Sums.{sum, share, sum_zero}
use omni_binder.Topics.{Topics, TopicEntry, held, or_zero}
use omni_binder.Topics.Closing.{
  close_all_publications, close_all_subscriptions, indexed, remove_by_fd,
}
use omni_binder.Topics.Indexed.{publishing, subscribing, names}
use omni_binder.Topics.Consistent.{IsConsistent}
use omni_binder.Topics.Cleared.{
  close_all_publications-IsSameIndices, close_all_subscriptions-IsSameIndices,
}
use omni_binder.Topics.Closed.{
  publishing-close_all_publications, subscribing-close_all_publications, seen-indexed,
  subscribing-close_all_subscriptions, publishing-close_all_subscriptions,
}
use omni_binder.Topics.Gone.{
  IsGone, close_all_publications-IsConsistent, close_all_subscriptions-IsConsistent,
}

some_ne_none : (f : ℕ) → some f ≢ none
some_ne_none f = ground arith

names-erase :
    (fd f : ℕ) (k : Name) (index : Map ℕ (Set Name))
    → some f ≢ some fd
    → names f k (erase fd index) ≡ names f k index
unfolding find2
names-erase fd f k index n = ground (arith, n, find-erase fd f index, ==_iff fd f)

no_share : (fd : ℕ) (o : Option TopicEntry) → subscribing fd o ≡ false → share (held fd) o ≡ 0
no_share fd none h = refl
no_share fd (some e) h = ground (arith, h)

module _ (s : Topics) (fd : ℕ) (v : IsConsistent none s) where
  -- The states between the loops.
  abbrev opened : Topics
  opened = record s { fd_publications = erase fd s.fd_publications }

  abbrev unpublished : Topics
  unpublished = (close_all_publications fd (indexed fd s.fd_publications) opened).1

  abbrev half : Topics
  half = record unpublished { fd_subscriptions = erase fd unpublished.fd_subscriptions }

  abbrev closed : Topics
  closed = close_all_subscriptions fd (indexed fd unpublished.fd_subscriptions) half

  opened-IsConsistent : IsConsistent (some fd) opened
  opened-IsConsistent = record {
    counted = record {
      distinct = v.counted.distinct;
      inner = v.counted.inner;
      refs = v.counted.refs;
      counts = λ f n. v.counted.counts f (some_ne_none f);
      total = v.counted.total;
      small = v.counted.small;
    };
    indexed = record {
      publications = λ f k n p. ground (
        arith,
        v.indexed.publications f k (some_ne_none f) p,
        names-erase fd f k s.fd_publications n,
      );
      subscriptions = λ f k n. v.indexed.subscriptions f k (some_ne_none f);
    };
  }

  half-IsConsistent : IsConsistent (some fd) half
  half-IsConsistent =
      let w =
        close_all_publications-IsConsistent fd (indexed fd s.fd_publications) opened
          opened-IsConsistent in
      record {
        counted = record {
          distinct = w.counted.distinct;
          inner = w.counted.inner;
          refs = w.counted.refs;
          counts = w.counted.counts;
          total = w.counted.total;
          small = w.counted.small;
        };
        indexed = record {
          publications = w.indexed.publications;
          subscriptions = λ f k n. ground (
            arith,
            w.indexed.subscriptions f k n,
            names-erase fd f k unpublished.fd_subscriptions n,
          );
        };
      }

  closed-IsConsistent : IsConsistent (some fd) closed
  closed-IsConsistent =
      close_all_subscriptions-IsConsistent fd (indexed fd unpublished.fd_subscriptions) half
        half-IsConsistent

  publishing-closed : (k : Name) → publishing fd (find k closed.topics) ≡ false
  publishing-closed k = ground (
    arith,
    publishing-close_all_subscriptions fd (indexed fd unpublished.fd_subscriptions) half k,
    publishing-close_all_publications fd (indexed fd s.fd_publications) opened k,
    seen-indexed fd k s.fd_publications,
    v.indexed.publications fd k (some_ne_none fd),
  )

  subscribing-closed : (k : Name) → subscribing fd (find k closed.topics) ≡ false
  subscribing-closed k = ground (
    arith,
    subscribing-close_all_subscriptions fd (indexed fd unpublished.fd_subscriptions) half k,
    subscribing-close_all_publications fd (indexed fd s.fd_publications) opened k,
    (close_all_publications-IsSameIndices fd (indexed fd s.fd_publications) opened).subscriptions,
    seen-indexed fd k unpublished.fd_subscriptions,
    v.indexed.subscriptions fd k (some_ne_none fd),
  )

  publications-closed : closed.fd_publications ≡ erase fd s.fd_publications
  publications-closed = cc (
    (close_all_subscriptions-IsSameIndices fd (indexed fd unpublished.fd_subscriptions)
        half).publications,
    (close_all_publications-IsSameIndices fd (indexed fd s.fd_publications) opened).publications,
  )

  subscriptions-closed : closed.fd_subscriptions ≡ erase fd s.fd_subscriptions
  subscriptions-closed = cc (
    (close_all_subscriptions-IsSameIndices fd (indexed fd unpublished.fd_subscriptions)
        half).subscriptions,
    (close_all_publications-IsSameIndices fd (indexed fd s.fd_publications) opened).subscriptions,
  )

  pub publications-remove_by_fd : (remove_by_fd s fd).1.fd_publications ≡ erase fd s.fd_publications
  unfolding remove_by_fd
  publications-remove_by_fd = publications-closed

  pub subscriptions-remove_by_fd :
      (remove_by_fd s fd).1.fd_subscriptions ≡ erase fd s.fd_subscriptions
  unfolding remove_by_fd
  subscriptions-remove_by_fd = subscriptions-closed

  -- After removeByFd, from a state whose counters and indices are right, the connection is neither a
  -- publisher nor a subscriber of any entry, no index names it, and no subscription is counted for it.
  pub remove_by_fd-IsGone : IsGone fd (remove_by_fd s fd).1
  unfolding remove_by_fd
  remove_by_fd-IsGone = record {
    publishes = publishing-closed;
    subscribes = subscribing-closed;
    publications =
        ground (arith, publications-closed, find-erase fd fd s.fd_publications, ==_iff fd fd);
    subscriptions =
        ground (arith, subscriptions-closed, find-erase fd fd s.fd_subscriptions, ==_iff fd fd);
    count = ground (arith, find-erase fd fd closed.fd_subscription_counts, ==_iff fd fd);
  }

  count-closed :
      (f : ℕ)
      → or_zero (find f (erase fd closed.fd_subscription_counts)) ≡ sum (held f) closed.topics
  count-closed f = elim (Bool-cases (fd == f)) [
    | inl h ↦
        let gone =
          sum_zero (held fd) closed.topics closed-IsConsistent.counted.distinct
            (λ k. no_share fd (find k closed.topics) (subscribing-closed k)) in
        ground (arith, h, gone, find-erase fd f closed.fd_subscription_counts, ==_iff fd f)
    | inr h ↦ ground (
      arith,
      h,
      closed-IsConsistent.counted.counts f (ground (arith, h, ==_iff fd f)),
      find-erase fd f closed.fd_subscription_counts,
    )
  ]

  -- The counters and the indices are right again behind removeByFd.
  pub remove_by_fd-IsConsistent : IsConsistent none (remove_by_fd s fd).1
  unfolding remove_by_fd find2
  remove_by_fd-IsConsistent =
      let w = closed-IsConsistent in
      record {
        counted = record {
          distinct = w.counted.distinct;
          inner = w.counted.inner;
          refs = w.counted.refs;
          counts = λ f n. count-closed f;
          total = w.counted.total;
          small = w.counted.small;
        };
        indexed = record {
          publications =
              λ f k n p. w.indexed.publications f k (ground (arith, p, publishing-closed k)) p;
          subscriptions = λ f k n. elim (Bool-cases (fd == f)) [
            | inr h ↦ w.indexed.subscriptions f k (ground (arith, h, ==_iff fd f))
            | inl h ↦ ground (
              arith,
              h,
              ==_iff fd f,
              subscribing-closed k,
              subscriptions-closed,
              find-erase fd f s.fd_subscriptions,
            )
          ];
        };
      }
