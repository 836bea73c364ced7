-- ===== src/Ack/Examples.antt =====
-- Runs of the ack coordinator (ack_coordinator.rs), and instances of its theorems.
use opendata_contrib.Common.{
  ℕ, ◌≡◌, refl, sym, true, false, none, some, List, [], ◌∷◌, arith, u64_max, ok, err, is_ok, inl,
  ◌<◌, subst, In,
}
use opendata_contrib.Error.{ack_error, no_pending}
use opendata_contrib.Ack.{
  PendingRange, AckCoordinator, new, register_pending, mark_committed, advance_frontier,
  pending_count,
}
use opendata_contrib.Ack.Invariant.{IsValid, new-IsValid}
use opendata_contrib.Ack.Register.{register_pending-IsValid}
use opendata_contrib.Ack.Advance.{advance_frontier-IsValid, AtMost}
use opendata_contrib.Ack.Spec.{open_log, frontier, admissible, Call, registers, completes, run}
use opendata_contrib.Ack.Refine.{run_coordinator, step_coordinator, complete_range}
use opendata_contrib.Ack.Frontier.{frontier-run, accepts-run, no_hole}
use opendata_contrib.Ack.Registry
use opendata_contrib.Ack.Registry.{AckCoordinators}

-- Three ranges from 6 on; the last is committed first, then the first.
abbrev history : List Call
history = registers 6 6 ∷ registers 7 7 ∷ registers 8 9 ∷ completes 8 9 ∷ completes 6 6 ∷ []

abbrev behind_hole : AckCoordinator
behind_hole = run_coordinator (new "s" (some 5)) history

behind_hole_frontier : behind_hole.acked_frontier ≡ some 6
unfolding run_coordinator step_coordinator complete_range new register_pending mark_committed
    advance_frontier
behind_hole_frontier = refl

-- Two entries are left, though one of them is committed already.
behind_hole_pending : pending_count behind_hole ≡ 2
unfolding run_coordinator step_coordinator complete_range new register_pending mark_committed
    advance_frontier pending_count
behind_hole_pending = refl

-- A range that the frontier has passed is gone: committing it again is refused.
recommit_refused : mark_committed behind_hole 6 6 ≡ err (ack_error (no_pending 6))
unfolding run_coordinator step_coordinator complete_range new register_pending mark_committed
    advance_frontier
recommit_refused = refl

-- With the greatest word for a baseline, the range that it covers is accepted once more.
baseline_saturates : is_ok (register_pending (new "s" (some u64_max)) u64_max u64_max) ≡ true
unfolding new register_pending
baseline_saturates = refl

abbrev fresh : AckCoordinator
fresh = new "s" none

abbrev one_range : PendingRange
one_range = record { low = 3; high = 4; sink_committed = false }

abbrev registered : AckCoordinator
registered = record {
  source = "s";
  initial_frontier_baseline = none;
  effective_baseline = some 2;
  baseline_fixed = true;
  acked_frontier = none;
  last_registered_high = some 4;
  pending = (3, one_range) ∷ [];
}

abbrev marked : AckCoordinator
marked = record registered { pending = (3, record one_range { sink_committed = true }) ∷ [] }

registered_lem : register_pending fresh 3 4 ≡ ok registered
unfolding new register_pending
registered_lem = refl

marked_lem : mark_committed registered 3 4 ≡ ok marked
unfolding mark_committed
marked_lem = refl

fresh-IsValid : IsValid fresh
fresh-IsValid = new-IsValid "s" none (λ b e. cc)

registered-IsValid : IsValid registered
registered-IsValid =
    register_pending-IsValid fresh registered 3 4 fresh-IsValid (omega arith) registered_lem

register_pending-IsValid_example : IsValid registered
register_pending-IsValid_example =
    register_pending-IsValid fresh registered 3 4 fresh-IsValid (omega arith) registered_lem

advance_frontier-IsValid_example :
    IsValid (advance_frontier registered)
    × AtMost registered.acked_frontier (advance_frontier registered).acked_frontier
advance_frontier-IsValid_example = advance_frontier-IsValid registered registered-IsValid

baseline_five : (a : ℕ) → some 5 ≡ some a → a < u64_max
baseline_five a e = ground arith

frontier-run_example : behind_hole.acked_frontier ≡ frontier (run (open_log (some 5)) history)
frontier-run_example = frontier-run "s" (some 5) history baseline_five (omega arith)

accepts-run_example :
    is_ok (register_pending behind_hole 10 12) ≡ admissible (run (open_log (some 5)) history) 10 12
accepts-run_example =
    accepts-run "s" (some 5) history 10 12 baseline_five (omega arith) (omega arith)

abbrev first_range : PendingRange
first_range = record { low = 6; high = 6; sink_committed = true }

first_range-run :
    (run (open_log (some 5)) history).ranges
    ≡ first_range
      ∷ record { low = 7; high = 7; sink_committed = false }
      ∷ record { low = 8; high = 9; sink_committed = true }
      ∷ []
unfolding run open_log
first_range-run = refl

no_hole_example : first_range.sink_committed ≡ true
no_hole_example =
    no_hole "s" (some 5) history 6 first_range baseline_five (omega arith) behind_hole_frontier
      (omega arith) (subst (In first_range) (sym first_range-run) (inl refl)) (omega arith)

abbrev no_sources : AckCoordinators
no_sources = record { coordinators = [] }

abbrev one_source : AckCoordinators
one_source = record { coordinators = ("a", new "a" (some 4)) ∷ [] }

register_source_lem : Registry.register_source no_sources "a" (some 4) ≡ ok one_source
unfolding Registry.register_source
register_source_lem = refl
