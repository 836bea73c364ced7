-- ===== src/Ack.antt =====
-- runtime/opendata-ingest-runtime/src/ack_coordinator.rs: the per-source ack coordinator. The
-- `pending` map is a `BTreeMap<u64, PendingRange>` (Common/Ordered). A method that fails returns
-- before its first assignment, so its result is the error alone.
mod Chain
pub mod Invariant
pub mod Register
pub mod Advance
pub mod Spec
mod Prefix
pub mod Admission
pub mod Refine
pub mod Simulation
pub mod Frontier
pub mod Registry
mod Examples
use opendata_contrib.Common.{
  ℕ, ◌-◌, String, Bool, true, false, not, ◌&&◌, Option, none, some, List, [], ◌∷◌, ok, ◌>>=◌, ◌>>◌,
  fail_if, ok_or, ltb, leb, ◌==◌, if◌then◌else◌, length, saturating_add,
}
use opendata_contrib.Common.Ordered.{get, replace, insert, last_le, first_ge}
use opendata_contrib.Error.{
  RuntimeResult, ack_error, invalid_range, first_range, non_contiguous, already_covered,
  overlaps_below, overlaps_above, no_pending, high_disagrees,
}

pub record PendingRange : Type 0 where
  pub low : ℕ
  pub high : ℕ
  pub sink_committed : Bool

pub record AckCoordinator : Type 0 where
  pub source : String
  pub initial_frontier_baseline : Option ℕ
  pub effective_baseline : Option ℕ
  pub baseline_fixed : Bool
  pub acked_frontier : Option ℕ
  pub last_registered_high : Option ℕ
  pub pending : List (ℕ × PendingRange)

abbrev is_some : Option ℕ → Bool
is_some none = false
is_some (some b) = true

unfoldable pub new : String → Option ℕ → AckCoordinator
new source initial_frontier_baseline = record {
  source = source;
  initial_frontier_baseline = initial_frontier_baseline;
  effective_baseline = initial_frontier_baseline;
  baseline_fixed = is_some initial_frontier_baseline;
  acked_frontier = none;
  last_registered_high = none;
  pending = [];
}

abbrev pub frontier : AckCoordinator → Option ℕ
frontier c = c.acked_frontier

-- `self.pending.len()`
unfoldable pub pending_count : AckCoordinator → ℕ
pending_count c = length c.pending

-- The guards of `register_pending`, in the order of the source.
baseline_guard : Option ℕ → Option ℕ → ℕ → RuntimeResult (Unit {0})
baseline_guard none (some b) low =
    fail_if (not (low == saturating_add b 1)) (ack_error (first_range low (saturating_add b 1)))
baseline_guard _ _ low = ok tt

contiguity_guard : Option ℕ → ℕ → RuntimeResult (Unit {0})
contiguity_guard none low = ok tt
contiguity_guard (some prev_high) low =
    fail_if (not (low == saturating_add prev_high 1))
      (ack_error (non_contiguous prev_high (saturating_add prev_high 1) low))

frontier_guard : Option ℕ → ℕ → RuntimeResult (Unit {0})
frontier_guard none low = ok tt
frontier_guard (some f) low = fail_if (leb low f) (ack_error (already_covered low f))

below_guard : Option (ℕ × PendingRange) → ℕ → ℕ → RuntimeResult (Unit {0})
below_guard none low high = ok tt
below_guard (some (k, neighbor)) low high =
    fail_if (leb low neighbor.high) (ack_error (overlaps_below low high neighbor.low neighbor.high))

above_guard : Option (ℕ × PendingRange) → ℕ → ℕ → RuntimeResult (Unit {0})
above_guard none low high = ok tt
above_guard (some (next_low, r)) low high =
    fail_if (leb next_low high) (ack_error (overlaps_above low high next_low))

-- The baseline that the first range fixes: `if low == 0 { None } else { Some(low - 1) }`.
absorb : ℕ → Option ℕ
absorb low = if low == 0 then none else some (low - 1)

pub fix_baseline : AckCoordinator → ℕ → AckCoordinator
unfolding absorb
fix_baseline c low =
    if c.baseline_fixed
    then c
    else record c { effective_baseline = absorb low; baseline_fixed = true }

-- The assignments at the end of `register_pending`.
pub add_pending : AckCoordinator → ℕ → ℕ → AckCoordinator
add_pending c low high = record c {
  pending = insert low (record { low = low; high = high; sink_committed = false }) c.pending;
  last_registered_high = some high;
}

unfoldable pub register_pending : AckCoordinator → ℕ → ℕ → RuntimeResult AckCoordinator
unfolding baseline_guard contiguity_guard frontier_guard below_guard above_guard fix_baseline
    add_pending insert last_le first_ge
register_pending c low high = do
  fail_if (ltb high low) (ack_error (invalid_range low high))
  baseline_guard c.last_registered_high c.initial_frontier_baseline low
  contiguity_guard c.last_registered_high low
  frontier_guard c.acked_frontier low
  below_guard (last_le high c.pending) low high
  above_guard (first_ge low c.pending) low high
  ok (add_pending (fix_baseline c low) low high)

-- `entry.sink_committed = true`
abbrev pub commit_range : PendingRange → PendingRange
commit_range r = record r { sink_committed = true }

unfoldable pub mark_committed : AckCoordinator → ℕ → ℕ → RuntimeResult AckCoordinator
unfolding get replace
mark_committed c low high = do
  entry ← ok_or (get low c.pending) (ack_error (no_pending low))
  fail_if (not (entry.high == high)) (ack_error (high_disagrees low high entry.high))
  ok (record c { pending = replace low (commit_range entry) c.pending })

-- The sequence that the next committed range has to start at.
unfoldable pub expected_low : Option ℕ → Option ℕ → ℕ
expected_low (some f) baseline = saturating_add f 1
expected_low none (some b) = saturating_add b 1
expected_low none none = 0

-- The loop of `advance_frontier`: each round pops the first entry of `pending` or returns.
unfoldable pub advance_loop :
    Option ℕ → Option ℕ → List (ℕ × PendingRange) → Option ℕ × List (ℕ × PendingRange)
unfolding expected_low
advance_loop baseline acked [] = (acked, [])
advance_loop baseline acked ((k, range) ∷ rest) =
    let round = advance_loop baseline (some range.high) rest in
    if range.sink_committed && (range.low == expected_low acked baseline)
    then round
    else (acked, (k, range) ∷ rest)

abbrev pub with_round : AckCoordinator → Option ℕ × List (ℕ × PendingRange) → AckCoordinator
with_round c (acked, pending) = record c { acked_frontier = acked; pending = pending }

unfoldable pub advance_frontier : AckCoordinator → AckCoordinator
unfolding advance_loop
advance_frontier c =
    if c.baseline_fixed
    then with_round c (advance_loop c.effective_baseline c.acked_frontier c.pending)
    else c
