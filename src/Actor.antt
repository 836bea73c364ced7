-- ===== src/Actor.antt =====
-- The completion arm of `per_source_actor` (runtime/opendata-ingest-runtime/src/runtime.rs): commit,
-- advance, ack, flush. The buffer's consumer is a parameter, as in Source. `acks` is what the
-- `ack_through_recorder` sees, the newest first. Metrics and the progress channel are left out.
pub mod Admission
pub mod Gates
pub mod Acks
pub mod Flush
pub mod Run
mod Examples
use opendata_contrib.Common.{
  ℕ, ◌+◌, ◌-◌, min, max, String, Bool, true, false, not, Option, none, some, List, [], ◌∷◌, Result,
  ok, err, ltb, leb, if◌then◌else◌, saturating_add, u32_max,
}
use opendata_contrib.Error.{RuntimeResult, RuntimeError, pipeline_error, worker_exited}
use opendata_contrib.Options.{AckFlushPolicy, every_commit_group, every_n, RuntimeOptions}
use opendata_contrib.Ack.{AckCoordinator, mark_committed, advance_frontier, pending_count}
use opendata_contrib.Source.{ConsumerOps, BufferSource, ack_through, flush_acks}

pub record RuntimeProgress : Type 0 where
  pub batches_read : ℕ
  pub source_ranges_committed : ℕ
  pub records_written : ℕ
  pub last_decoded_sequence : Option ℕ
  pub last_acked_sequence : Option ℕ
  pub pending_ranges_total : ℕ

abbrev pub no_progress : RuntimeProgress
no_progress = record {
  batches_read = 0;
  source_ranges_committed = 0;
  records_written = 0;
  last_decoded_sequence = none;
  last_acked_sequence = none;
  pending_ranges_total = 0;
}

pub data WriteCompletion : Type 0 where
  committed_report : ℕ → ℕ → ℕ → WriteCompletion
  fatal_completion : RuntimeError → WriteCompletion

pub record Actor (C : Type 0) : Type 0 where
  pub coordinator : AckCoordinator
  pub source : BufferSource C
  pub last_ack_sent : Option ℕ
  pub groups_since_flush : ℕ
  pub in_flight : ℕ
  pub progress : RuntimeProgress
  pub acks : List ℕ

-- `match last_ack_sent { Some(prev) => f > prev, None => true }`
abbrev pub should_ack : Option ℕ → ℕ → Bool
should_ack none f = true
should_ack (some prev) f = ltb prev f

abbrev pub should_flush : AckFlushPolicy → ℕ → Bool
should_flush every_commit_group groups = true
should_flush (every_n n) groups = leb (max n 1) groups

module _ {C : Type 0} where
  unfoldable pub start : BufferSource C → AckCoordinator → Actor C
  start source coordinator = record {
    coordinator = coordinator;
    source = source;
    last_ack_sent = source.last_acked;
    groups_since_flush = 0;
    in_flight = 0;
    progress = no_progress;
    acks = [];
  }

  -- The counters after a commit that the coordinator took.
  unfoldable pub count_commit : Actor C → AckCoordinator → ℕ → ℕ → Actor C
  count_commit a coordinator high rows_written = record a {
    coordinator = coordinator;
    in_flight = a.in_flight - 1;
    progress = record a.progress {
      batches_read = saturating_add a.progress.batches_read 1;
      last_decoded_sequence = some high;
      records_written = saturating_add a.progress.records_written rows_written;
      source_ranges_committed = saturating_add a.progress.source_ranges_committed 1;
    };
  }

  -- The recorder, `ack_through`, and the two variables of the loop.
  unfoldable pub send_ack : Actor C → ℕ → Actor C
  unfolding ack_through
  send_ack a f = record a {
    acks = f ∷ a.acks;
    source = ack_through a.source f;
    last_ack_sent = some f;
    groups_since_flush = min (a.groups_since_flush + 1) u32_max;
  }

  abbrev pub acked_progress : Actor C → ℕ → Actor C
  acked_progress a f = record a { progress = record a.progress { last_acked_sequence = some f } }

  abbrev pub report_pending : Actor C → Actor C
  report_pending a = record a {
    progress = record a.progress { pending_ranges_total = pending_count a.coordinator };
  }

  abbrev pub after_flush :
      Actor C → ℕ → RuntimeResult (Unit {0}) × BufferSource C → RuntimeResult (Unit {0}) × Actor C
  after_flush a f (ok u, source) =
      (ok tt, acked_progress (record a { source = source; groups_since_flush = 0 }) f)
  after_flush a f (err e, source) = (err e, record a { source = source })

module _ {C : Type 0} (ops : ConsumerOps C) where
  -- The flush, if the policy asks for one.
  unfoldable pub flush_group : AckFlushPolicy → Actor C → ℕ → RuntimeResult (Unit {0}) × Actor C
  unfolding flush_acks
  flush_group policy a f =
      if should_flush policy a.groups_since_flush
      then after_flush a f (flush_acks ops a.source)
      else (ok tt, acked_progress a f)

  -- The ack, if the frontier has passed the last one.
  unfoldable pub ack_frontier :
      RuntimeOptions → Actor C → Option ℕ → RuntimeResult (Unit {0}) × Actor C
  unfolding flush_group send_ack
  ack_frontier options a none = (ok tt, a)
  ack_frontier options a (some f) =
      if not options.dry_run
      then (if should_ack a.last_ack_sent f
          then flush_group options.ack_flush_policy (send_ack a f) f
          else (ok tt, a))
      else (ok tt, a)

  abbrev pub sample : RuntimeResult (Unit {0}) × Actor C → RuntimeResult (Unit {0}) × Actor C
  sample (ok u, a) = (ok u, report_pending a)
  sample (err e, a) = (err e, a)

  abbrev pub commit_marked :
      RuntimeOptions
      → Actor C
      → RuntimeResult AckCoordinator
      → ℕ
      → ℕ
      → RuntimeResult (Unit {0}) × Actor C
  commit_marked options a (ok c) high rows_written = sample (
      ack_frontier options (count_commit a (advance_frontier c) high rows_written)
        (advance_frontier c).acked_frontier)
  commit_marked options a (err e) high rows_written = (err e, a)

  -- The arm's `match` on what the completion channel returns.
  unfoldable pub complete :
      RuntimeOptions → Actor C → Option WriteCompletion → RuntimeResult (Unit {0}) × Actor C
  unfolding mark_committed
  complete options a (some (committed_report low high rows_written)) =
      commit_marked options a (mark_committed a.coordinator low high) high rows_written
  complete options a (some (fatal_completion e)) = (err e, a)
  complete options a none = (err (pipeline_error (worker_exited a.in_flight a.source.id)), a)
