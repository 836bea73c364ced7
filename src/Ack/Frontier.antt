-- ===== src/Ack/Frontier.antt =====
-- What the frontier of an ack coordinator (ack_coordinator.rs) means, for every history of calls.
use opendata_contrib.Common.{
  ℕ, ◌+◌, ◌≤◌, ◌<◌, ◌≡◌, sym, subst, String, Option, none, some, List, [], ◌∷◌, arith, All,
  All-append, is_ok, u64_max, In, All-In, true,
}
use opendata_contrib.Ack.{PendingRange, new, register_pending, expected_low}
use opendata_contrib.Ack.Chain.{Chain}
use opendata_contrib.Ack.Prefix.{vals, IsCommitted}
use opendata_contrib.Ack.Spec.{open_log, frontier, admissible, Call, run}
use opendata_contrib.Ack.Refine.{
  new-Refines, frontier-Refines, accepts-eq-admissible, run_coordinator,
}
use opendata_contrib.Ack.Simulation.{InRange, run-Refines}

-- After any sequence of registrations and completed commits on a fresh coordinator, whatever of
-- them fail, the frontier is the end of the longest committed prefix of all the ranges that were
-- registered. The baseline is below the greatest word.
pub frontier-run :
    (source : String) (b : Option ℕ) (ss : List Call)
    → ((a : ℕ) → b ≡ some a → a < u64_max)
    → All InRange ss
    → (run_coordinator (new source b) ss).acked_frontier ≡ frontier (run (open_log b) ss)
frontier-run source b ss h t =
    sym
      (frontier-Refines _ _ (run-Refines (new source b) (open_log b) ss (new-Refines source b h) t))

-- After any such history the coordinator accepts a range exactly when it is not empty and begins
-- right after the last registered range or, as the first, right after the baseline, if one is given.
pub accepts-run :
    (source : String) (b : Option ℕ) (ss : List Call) (low high : ℕ)
    → ((a : ℕ) → b ≡ some a → a < u64_max)
    → All InRange ss
    → high ≤ u64_max
    → is_ok (register_pending (run_coordinator (new source b) ss) low high)
      ≡ admissible (run (open_log b) ss) low high
accepts-run source b ss low high h t u =
    accepts-eq-admissible _ _ low high
      (run-Refines (new source b) (open_log b) ss (new-Refines source b h) t) u

-- Below a range of the log: it begins at or below the number, and so is committed.
abbrev pub CommittedUpTo : ℕ → PendingRange → Type 0
CommittedUpTo f r = r.low ≤ f → IsCommitted r

above-frontier :
    (f n : ℕ) (m : List (ℕ × PendingRange)) → Chain n m → f < n → All (CommittedUpTo f) (vals m)
above-frontier f n [] c h = tt
above-frontier f n ((k, r) ∷ m) c h = (
  λ e. absurd (omega (arith, c.1, h, e)),
  above-frontier f (r.high + 1) m c.4 (omega (arith, c.2, h)),
)

committed-below : (f : ℕ) (rs : List PendingRange) → All IsCommitted rs → All (CommittedUpTo f) rs
committed-below f [] h = tt
committed-below f (r ∷ rs) h = (λ e. h.0, committed-below f rs h.1)

expected_low-above : (o b : Option ℕ) (f : ℕ) → o ≡ some f → f < u64_max → f < expected_low o b
unfolding expected_low
expected_low-above none b f e h = cc
expected_low-above (some g) b f e h = ground arith

-- The frontier never passes a hole: after any such history, with the frontier at f below the
-- greatest word, every registered range that begins at or below f is committed.
pub no_hole :
    (source : String) (b : Option ℕ) (ss : List Call) (f : ℕ) (r : PendingRange)
    → ((a : ℕ) → b ≡ some a → a < u64_max)
    → All InRange ss
    → (run_coordinator (new source b) ss).acked_frontier ≡ some f
    → f < u64_max
    → In r (run (open_log b) ss).ranges
    → r.low ≤ f
    → r.sink_committed ≡ true
no_hole source b ss f r h t e u i k =
    let v = run-Refines (new source b) (open_log b) ss (new-Refines source b h) t in
    All-In (CommittedUpTo f) (run (open_log b) ss).ranges
      (subst (All (CommittedUpTo f)) (sym v.ranges) (
        All-append (CommittedUpTo f) v.done _ (committed-below f v.done v.committed)
          (above-frontier f _ _ v.valid.chain (expected_low-above _ _ f e u))))
      i k
