-- ===== src/Pipeline.antt =====
-- The workers between the actor and the sink: `fetch_worker`, `decode_worker` and `writer_worker` of
-- runtime/opendata-ingest-runtime/src/runtime.rs, by what one turn of their loops does with a unit. A
-- unit carries its reservation and, without a field, one permit of the batch semaphore. `is_open` says
-- whether the next stage still takes units. Metrics, timers and the hooks of the tests are left out.
pub mod Sends
pub mod Steps
pub mod Units
pub mod Sound
pub mod Histories
pub mod Moves
pub mod Acked
mod Examples
use opendata_contrib.Common.{ℕ, String, Bool, true, false, Result, ok, err}
use opendata_contrib.Error.{
  RuntimeResult, RuntimeError, pipeline_error, fetched_batch_lost, sink_commit_lost,
}
use opendata_contrib.Actor.{WriteCompletion, committed_report, fatal_completion}
use opendata_contrib.Budget.{ByteReservation}
use opendata_contrib.Decode.{DecodeOutcome, live, dry_run}
use opendata_contrib.Retry.{WriteSuccess, fresh, verified}
use opendata_contrib.Sink.{SinkCommit}
use opendata_contrib.Source.{SourceBatch, SourceBatchDescriptor}

pub record AdmittedDescriptor : Type 0 where
  pub descriptor : SourceBatchDescriptor
  pub reservation : ByteReservation

pub record FetchedBatch : Type 0 where
  pub source_batch : SourceBatch
  pub reservation : ByteReservation
  pub admitted_sequence : ℕ

pub record SinkCommitEnvelope : Type 0 where
  pub commit : SinkCommit
  pub low : ℕ
  pub high : ℕ
  pub reservation : ByteReservation

-- How a worker is done with a unit: it goes to the next stage, or it ends here with a message to the
-- actor, after which its reservation and its permit drop.
pub data Ending (T : Type 0) : Type 0 where
  passed : T → Ending T
  replied : WriteCompletion → ByteReservation → Ending T

-- The fetch worker, once the source has answered.
unfoldable pub fetch_ending :
    String → AdmittedDescriptor → RuntimeResult SourceBatch → Bool → Ending FetchedBatch
fetch_ending source_id u (err e) is_open = replied (fatal_completion e) u.reservation
fetch_ending source_id u (ok b) true = passed (record {
  source_batch = b;
  reservation = u.reservation;
  admitted_sequence = u.descriptor.sequence;
})
fetch_ending source_id u (ok b) false =
    replied (fatal_completion (pipeline_error (fetched_batch_lost source_id u.descriptor.sequence)))
      u.reservation

-- The decode worker, once `decode_one` has returned; `r` is the reservation that it reconciled.
unfoldable pub decode_ending :
    String → ℕ → ByteReservation → RuntimeResult DecodeOutcome → Bool → Ending SinkCommitEnvelope
decode_ending source_id admitted_sequence r (ok (live commit low high)) true =
    passed (record { commit = commit; low = low; high = high; reservation = r })
decode_ending source_id admitted_sequence r (ok (live commit low high)) false =
    replied (fatal_completion (pipeline_error (sink_commit_lost source_id admitted_sequence))) r
decode_ending source_id admitted_sequence r (ok (dry_run low high rows_written)) is_open =
    replied (committed_report low high rows_written) r
decode_ending source_id admitted_sequence r (err e) is_open = replied (fatal_completion e) r

-- The message of the writer worker, once `write_with_retry` has returned.
unfoldable pub writer_report : SinkCommitEnvelope → RuntimeResult WriteSuccess → WriteCompletion
writer_report u (ok (fresh result)) = committed_report u.low u.high result.rows_written
writer_report u (ok verified) = committed_report u.low u.high 0
writer_report u (err e) = fatal_completion e
