-- ===== src/Actor/Flush.antt =====
-- The flush policy and the dry run of the completion arm (runtime.rs).
use opendata_contrib.Source.Acks.{ConsumerLaws, flush_acks-pending}
use opendata_contrib.Common.{
  ℕ, ◌<◌, ◌≡◌, max, false, not, Option, none, some, ok, err, arith, true, refl, u32_max, List, [],
  ◌∷◌, ◌++◌, ◌≤◌, ◌+◌, length, ap, sym, ◌∙◌,
}
use opendata_contrib.Error.{RuntimeResult}
use opendata_contrib.Options.{RuntimeOptions, AckFlushPolicy, every_commit_group, every_n}
use opendata_contrib.Ack.{AckCoordinator, mark_committed, advance_frontier}
use opendata_contrib.Source.{ConsumerOps, BufferSource, flush_acks, ack_through}
use opendata_contrib.Actor.{
  Actor, committed_report, complete, commit_marked, ack_frontier, flush_group, after_flush,
  should_flush, should_ack, send_ack, count_commit, sample, WriteCompletion, fatal_completion,
  start,
}
use opendata_contrib.Actor.Acks.{if-holds}

-- The number of acks without a flush stays below this.
abbrev pub flush_limit : AckFlushPolicy → ℕ
flush_limit every_commit_group = 1
flush_limit (every_n n) = max n 1

limit_positive : (policy : AckFlushPolicy) → 0 < flush_limit policy
limit_positive every_commit_group = omega arith
limit_positive (every_n n) = omega arith

not_due : (policy : AckFlushPolicy) (g : ℕ) → should_flush policy g ≡ false → g < flush_limit policy
not_due every_commit_group g h = cc
not_due (every_n n) g h = ground arith

-- The newest ack of the list, or `base` if there is none.
abbrev pub newest : Option ℕ → List ℕ → Option ℕ
newest base [] = base
newest base (f ∷ fs) = some f

module _ {C : Type 0} (ops : ConsumerOps C) (laws : ConsumerLaws ops) (base : Option ℕ) where
  -- The acks that the actor has sent are those that wait for a flush, the newest ones, and those before
  -- them, the newest of which is durable. Fewer than `limit` wait.
  pub record Trails (limit : ℕ) (a : Actor C) : Type 0 where
    pub waiting : List ℕ
    pub flushed : List ℕ
    pub sent : a.acks ≡ waiting ++ flushed
    pub durable : laws.durable a.source.consumer ≡ newest base flushed
    pub counted : length waiting ≤ a.groups_since_flush
    pub few : a.groups_since_flush < limit

  -- On success the acks trail.
  abbrev AreTrailing : ℕ → RuntimeResult (Unit {0}) × Actor C → Type 0
  AreTrailing limit (ok u, a) = Trails limit a
  AreTrailing limit (err e, a) = Unit

  after_flush-Trails :
      (limit : ℕ) (a : Actor C) (f : ℕ) (fs : List ℕ)
      (r : RuntimeResult (Unit {0}) × BufferSource C)
      → 0 < limit
      → a.acks ≡ f ∷ fs
      → (r.0 ≡ ok tt → laws.durable r.1.consumer ≡ some f)
      → AreTrailing limit (after_flush a f r)
  after_flush-Trails limit a f fs (ok u, s) h e d = record {
    waiting = [];
    flushed = a.acks;
    sent = refl;
    durable = d refl ∙ sym (ap (newest base) e);
    counted = omega arith;
    few = h;
  }
  after_flush-Trails limit a f fs (err x, s) h e d = tt

  -- The flush of a group whose ack is the newest and pending.
  flush_group-Trails :
      (policy : AckFlushPolicy) (a : Actor C) (f : ℕ) (waiting flushed : List ℕ)
      → a.acks ≡ f ∷ (waiting ++ flushed)
      → a.source.pending_durable_ack ≡ some f
      → laws.durable a.source.consumer ≡ newest base flushed
      → length waiting + 1 ≤ a.groups_since_flush
      → AreTrailing (flush_limit policy) (flush_group ops policy a f)
  unfolding flush_group
  flush_group-Trails policy a f waiting flushed e p d l =
      if-holds (AreTrailing (flush_limit policy)) (should_flush policy a.groups_since_flush) _ _
        (λ t.
          after_flush-Trails (flush_limit policy) a f _ (flush_acks ops a.source)
            (limit_positive policy) e (flush_acks-pending ops laws a.source f p))
        (λ n. record {
          waiting = f ∷ waiting;
          flushed = flushed;
          sent = e;
          durable = d;
          counted = omega (arith, l);
          few = not_due policy a.groups_since_flush n;
        })

  module _ (options : RuntimeOptions) (word : flush_limit options.ack_flush_policy ≤ u32_max) where
    ack_frontier-Trails :
        (a : Actor C) (f : Option ℕ)
        → Trails (flush_limit options.ack_flush_policy) a
        → AreTrailing (flush_limit options.ack_flush_policy) (ack_frontier ops options a f)
    unfolding ack_frontier send_ack ack_through
    ack_frontier-Trails a none h = h
    ack_frontier-Trails a (some f) h =
        if-holds (AreTrailing (flush_limit options.ack_flush_policy)) (not options.dry_run) _ _
          (λ live.
            if-holds (AreTrailing (flush_limit options.ack_flush_policy))
              (should_ack a.last_ack_sent f) _ _
              (λ s.
                flush_group-Trails options.ack_flush_policy (send_ack a f) f h.waiting h.flushed
                  (ap (λ l. f ∷ l) h.sent) refl h.durable (omega (arith, h.counted, h.few, word)))
              (λ s. h))
          (λ dry. h)

    sample-Trails :
        (limit : ℕ) (r : RuntimeResult (Unit {0}) × Actor C)
        → AreTrailing limit r
        → AreTrailing limit (sample ops r)
    sample-Trails limit (ok u, a) h = record {
      waiting = h.waiting;
      flushed = h.flushed;
      sent = h.sent;
      durable = h.durable;
      counted = h.counted;
      few = h.few;
    }
    sample-Trails limit (err e, a) h = h

    commit_marked-Trails :
        (a : Actor C) (r : RuntimeResult AckCoordinator) (high rows : ℕ)
        → Trails (flush_limit options.ack_flush_policy) a
        → AreTrailing
            (flush_limit options.ack_flush_policy)
            (commit_marked ops options a r high rows)
    unfolding count_commit
    commit_marked-Trails a (err x) high rows h = tt
    commit_marked-Trails a (ok c) high rows h =
        sample-Trails (flush_limit options.ack_flush_policy)
          (ack_frontier ops options (count_commit a (advance_frontier c) high rows)
            (advance_frontier c).acked_frontier)
          (ack_frontier-Trails (count_commit a (advance_frontier c) high rows)
            (advance_frontier c).acked_frontier
            (record {
              waiting = h.waiting;
              flushed = h.flushed;
              sent = h.sent;
              durable = h.durable;
              counted = h.counted;
              few = h.few;
            }))

    of_ok :
        (limit : ℕ) (r : RuntimeResult (Unit {0}) × Actor C)
        → AreTrailing limit r
        → r.0 ≡ ok tt
        → Trails limit r.1
    of_ok limit (ok u, a) h e = h
    of_ok limit (err x, a) h e = cc

    -- The flush policy keeps the durable ack close behind: after a completion that succeeds, all but the
    -- newest of the acks that the actor has sent are durable, and fewer than the policy's `n` (one for
    -- `EveryCommitGroup`) are not, if that was so before. The number is a `u32`; an ack may cover several
    -- ranges.
    pub complete_flushes :
        (a : Actor C) (low high rows : ℕ)
        → Trails (flush_limit options.ack_flush_policy) a
        → (complete ops options a (some (committed_report low high rows))).0 ≡ ok tt
        → Trails
            (flush_limit options.ack_flush_policy)
            (complete ops options a (some (committed_report low high rows))).1
    unfolding complete
    complete_flushes a low high rows h e =
        of_ok (flush_limit options.ack_flush_policy) _
          (commit_marked-Trails a (mark_committed a.coordinator low high) high rows h) e

  -- An actor that starts has nothing that waits.
  pub start-Trails :
      (source : BufferSource C) (c : AckCoordinator) (policy : AckFlushPolicy)
      → laws.durable source.consumer ≡ base
      → Trails (flush_limit policy) (start source c)
  unfolding start
  start-Trails source c policy h = record {
    waiting = [];
    flushed = [];
    sent = refl;
    durable = h;
    counted = omega arith;
    few = limit_positive policy;
  }

module _ {C : Type 0} (ops : ConsumerOps C) (options : RuntimeOptions) where
  -- The ack arm left the source alone.
  abbrev Untouched : Actor C → RuntimeResult (Unit {0}) × Actor C → Type 0
  Untouched a r =
      (r.1.source ≡ a.source) × (r.1.acks ≡ a.acks) × (r.1.last_ack_sent ≡ a.last_ack_sent)

  sample-Untouched :
      (a : Actor C) (r : RuntimeResult (Unit {0}) × Actor C)
      → Untouched a r
      → Untouched a (sample ops r)
  sample-Untouched a (ok u, b) h = h
  sample-Untouched a (err e, b) h = h

  ack_frontier_dry :
      (a : Actor C) (f : Option ℕ)
      → options.dry_run ≡ true
      → Untouched a (ack_frontier ops options a f)
  unfolding ack_frontier
  ack_frontier_dry a none h = (refl, refl, refl)
  ack_frontier_dry a (some f) h = rw h (refl, refl, refl)

  commit_marked_dry :
      (a : Actor C) (r : RuntimeResult AckCoordinator) (high rows : ℕ)
      → options.dry_run ≡ true
      → Untouched a (commit_marked ops options a r high rows)
  unfolding count_commit
  commit_marked_dry a (err x) high rows h = (refl, refl, refl)
  commit_marked_dry a (ok c) high rows h =
      sample-Untouched a
        (ack_frontier ops options (count_commit a (advance_frontier c) high rows)
          (advance_frontier c).acked_frontier)
        (ack_frontier_dry (count_commit a (advance_frontier c) high rows)
          (advance_frontier c).acked_frontier h)

  -- A dry run acks nothing: whatever the completion channel returns, the source, the acks sent and the
  -- last ack stay as they were.
  pub complete_dry_run :
      (a : Actor C) (completion : Option WriteCompletion)
      → options.dry_run ≡ true
      → ((complete ops options a completion).1.source ≡ a.source)
        × ((complete ops options a completion).1.acks ≡ a.acks)
        × ((complete ops options a completion).1.last_ack_sent ≡ a.last_ack_sent)
  unfolding complete
  complete_dry_run a none h = (refl, refl, refl)
  complete_dry_run a (some (fatal_completion e)) h = (refl, refl, refl)
  complete_dry_run a (some (committed_report low high rows)) h =
      commit_marked_dry a (mark_committed a.coordinator low high) high rows h
