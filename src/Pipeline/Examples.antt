-- ===== src/Pipeline/Examples.antt =====
-- A run of the system of one source (runtime.rs): a batch goes through the workers to the sink, and is acked. It is
-- the input of the instance of the theorem about acks.
use opendata_contrib.Common.{
  ℕ, ◌≡◌, ◌<◌, refl, arith, All, List, [], ◌∷◌, ok, some, none, true, false, Option, u32_max, ◌≤◌,
  u64_max, subst, ok_unique, some_unique, sym, ◌∙◌, err,
}
use opendata_contrib.Error.{RuntimeResult, pipeline_error, descriptor_lost}
use opendata_contrib.Options.{
  RuntimeOptions, SourceBackpressureOptions, default_options, default_backpressure,
  effective_retry_max_attempts, every_commit_group,
}
use opendata_contrib.Ack.{new, advance_frontier}
use opendata_contrib.Ack.Refine.{run_coordinator}
use opendata_contrib.Ack.Spec as Spec
use opendata_contrib.Actor.{start, complete, ack_frontier, count_commit, committed_report}
use opendata_contrib.Actor.Admission.{register_all}
use opendata_contrib.Budget.{
  SourceByteBudget, ByteReservation, reserve_round, attach_stage, reconcile, Stage,
}
use opendata_contrib.Decode.{Decoder, decode_one, DecodeOutcome, actual_bytes}
use opendata_contrib.Pipeline.{
  AdmittedDescriptor, FetchedBatch, SinkCommitEnvelope, fetch_ending, decode_ending, writer_report,
}
use opendata_contrib.Pipeline.Acked.{InSinkUpTo, fresh_run, ack_is_in_sink}
use opendata_contrib.Pipeline.Steps.{
  Pipeline, Reach, here, next, admits, takes_descriptor, fetches, takes_fetched, decodes,
  takes_commit, writes, receives, admit, take_descriptor, take_fetched, take_commit, end_fetch,
  end_decode, end_write, end_receive, decoded,
}
use opendata_contrib.Retry.{Round, write_with_retry, WriteAttempt, Call, wrote, committed, fresh}
use opendata_contrib.Sink.{DecodedBatch, SinkCommitResult, build_commit, SinkCommit, is_unknown}
use opendata_contrib.Source.{ConsumerOps, BufferSource, SourceBatch, SourceBatchDescriptor}

abbrev keeper : ConsumerOps (Option ℕ)
keeper = record { ack_durably = λ c seq. (ok tt, some seq); poll = λ c max. (ok [], c) }

abbrev source : BufferSource (Option ℕ)
source = record {
  id = "s";
  consumer = some 4;
  manifest_path = "m";
  last_acked = some 4;
  pending_durable_ack = none;
}

abbrev options : RuntimeOptions
options = record default_options { dry_run = false; ack_flush_policy = every_commit_group }

abbrev knobs : SourceBackpressureOptions
knobs = record default_backpressure { estimated_max_batch_bytes = 100 }

abbrev budget : SourceByteBudget
budget = record {
  source_id = "s";
  capacity = 1000;
  in_flight = 0;
  notifies = 0;
  stages = record { source_bytes = 0; fetch_bytes = 0; decode_bytes = 0; sink_dispatch_bytes = 0 };
}

abbrev descriptor : ℕ → SourceBatchDescriptor
descriptor seq = record {
  source = "s";
  sequence = seq;
  location = "d";
  per_range_metadata = [];
  buffer_metadata = [];
}

abbrev raw_batch : ℕ → SourceBatch
raw_batch seq = record {
  source = "s";
  sequence = seq;
  manifest_path = "m";
  data_object_path = "d";
  entries = [];
}

abbrev typed_batch : ℕ → DecodedBatch
typed_batch seq = record {
  source = "s";
  low_sequence = seq;
  high_sequence = seq;
  source_entry_count = 0;
  records = record { estimated_bytes = 10; record_count = 1 };
  source_columns = record {
    manifest_path = 1;
    data_path = 1;
    sequences = [];
    entry_indices = [];
    record_indices = [];
    ingestion_time_ms = [];
  };
  schema_version = 1;
}

abbrev decoder : Decoder
decoder = record { accepts = λ m. true; decode = λ b. ok (typed_batch b.sequence ∷ []) }

-- A sink that takes every write.
abbrev willing : ℕ → Round
willing n = record {
  write_cancelled = false;
  write = ok (record { bytes_written = 10; rows_written = 1 });
  check_cancelled = false;
  check = ok opendata_contrib.Sink.is_unknown;
  slept = true;
}

abbrev s0 : Pipeline (Option ℕ)
s0 = fresh_run keeper options knobs decoder "c" source budget 2

abbrev Reached : Pipeline (Option ℕ) → Type 0
Reached = Reach keeper options knobs decoder "s" "c" s0

abbrev reserved : SourceByteBudget
reserved = record budget { in_flight = 100 }

abbrev s1 : Pipeline (Option ℕ)
s1 =
    admit "s" 8 options knobs (λ n. 100) s0 reserved (record { held = 100; stage = none })
      (ok (descriptor 5 ∷ []))

abbrev answer : RuntimeResult (List SourceBatchDescriptor)
answer = ok (descriptor 5 ∷ [])

fits :
    (ds : List SourceBatchDescriptor)
    → answer ≡ ok ds
    → All (λ (d : SourceBatchDescriptor). d.sequence ≤ u64_max) ds
fits ds e =
    subst (All (λ (d : SourceBatchDescriptor). d.sequence ≤ u64_max)) (ok_unique answer e refl)
      (omega arith)

abbrev at_stage : Stage → ℕ → ByteReservation
at_stage stage bytes = record { held = bytes; stage = some stage }

abbrev admitted_at : Stage → AdmittedDescriptor
admitted_at stage = record { descriptor = descriptor 5; reservation = at_stage stage 100 }

abbrev fetched_at : Stage → FetchedBatch
fetched_at stage = record {
  source_batch = raw_batch 5;
  reservation = at_stage stage 100;
  admitted_sequence = 5;
}

abbrev commit : SinkCommit
commit = record {
  identity = record {
    source = "s";
    sink = "c";
    range = record { low = 5; high = 5 };
    schema_version = 1;
  };
  batch = typed_batch 5;
}

abbrev envelope_at : Stage → SinkCommitEnvelope
envelope_at stage = record { commit = commit; low = 5; high = 5; reservation = at_stage stage 12 }

abbrev s2 : Pipeline (Option ℕ)
s2 = take_descriptor s1 (admitted_at Stage.source) []

abbrev s3 : Pipeline (Option ℕ)
s3 = end_fetch s2 [] (fetch_ending "s" (admitted_at Stage.fetch) (ok (raw_batch 5)) true)

abbrev s4 : Pipeline (Option ℕ)
s4 = take_fetched s3 (fetched_at Stage.fetch) []

abbrev decoded_unit : RuntimeResult DecodeOutcome × (SourceByteBudget × ByteReservation)
decoded_unit = decoded keeper options knobs decoder "s" "c" s4 (fetched_at Stage.decode)

abbrev s5 : Pipeline (Option ℕ)
s5 = end_decode s4 [] decoded_unit.1.0 (decode_ending "s" 5 decoded_unit.1.1 decoded_unit.0 true)

abbrev s6 : Pipeline (Option ℕ)
s6 = take_commit s5 (envelope_at Stage.decode) []

abbrev success : SinkCommitResult
success = record { bytes_written = 10; rows_written = 1 }

abbrev attempt : WriteAttempt
attempt = record { inner = ok (fresh success); outcome = committed }

abbrev calls : List Call
calls = wrote commit (ok success) ∷ []

abbrev s7 : Pipeline (Option ℕ)
s7 = end_write s6 [] (envelope_at Stage.sink_dispatch) attempt calls

abbrev s8 : Pipeline (Option ℕ)
s8 = end_receive s7 [] (complete keeper options s7.actor (some (committed_report 5 5 1)))

r3 : Reached s3
unfolding admit reserve_round take_descriptor attach_stage start new
r3 =
    next
      (next
        (next here (
          admits s0 (λ n. 100) 0 8 reserved (record { held = 100; stage = none })
            (ok (descriptor 5 ∷ [])) refl (omega arith) refl fits))
        (takes_descriptor s1 (admitted_at Stage.source) [] refl))
      (fetches s2 [] [] (admitted_at Stage.fetch) (ok (raw_batch 5)) true refl)

r5 : Reached s5
unfolding admit reserve_round take_descriptor attach_stage take_fetched fetch_ending start new
r5 =
    next (next r3 (takes_fetched s3 (fetched_at Stage.fetch) [] refl))
      (decodes s4 [] [] (fetched_at Stage.decode) true refl)

r7 : Reached s7
unfolding admit reserve_round take_descriptor attach_stage take_fetched fetch_ending take_commit
    decode_one decode_ending reconcile build_commit write_with_retry actual_bytes start new
r7 =
    next (next r5 (takes_commit s5 (envelope_at Stage.decode) [] refl))
      (writes s6 [] [] (envelope_at Stage.sink_dispatch) willing attempt calls refl refl)

r8 : Reached s8
unfolding admit reserve_round take_descriptor attach_stage take_fetched fetch_ending take_commit
    decode_one decode_ending reconcile build_commit write_with_retry writer_report start new
r8 = next r7 (receives s7 (committed_report 5 5 1) [] refl refl)

acked : s8.actor.acks ≡ 5 ∷ []
unfolding admit reserve_round take_descriptor attach_stage take_fetched fetch_ending take_commit
    decode_one decode_ending reconcile build_commit write_with_retry writer_report start new
    register_all complete advance_frontier ack_frontier count_commit
acked = refl

-- The fetch workers have closed the channel: the actor returns, and the gate gives its permit back.
lost_send :
    (admit "s" 0 options knobs
      (λ n. 100)
      s0
      reserved
      (record { held = 100; stage = none })
      (ok (descriptor 5 ∷ []))).returned
    ≡ some (err (pipeline_error (descriptor_lost "s" 5)))
unfolding admit start new attach_stage
lost_send = refl

lost_permit :
    (admit "s" 0 options knobs
      (λ n. 100)
      s0
      reserved
      (record { held = 100; stage = none })
      (ok (descriptor 5 ∷ []))).permits
    ≡ s0.permits
unfolding admit start new attach_stage
lost_permit = refl

abbrev frontier_of : Pipeline (Option ℕ) → Option ℕ
frontier_of s = s.actor.coordinator.acked_frontier

frontier_five : frontier_of s8 ≡ some 5
unfolding admit reserve_round take_descriptor attach_stage take_fetched fetch_ending take_commit
    decode_one decode_ending reconcile build_commit write_with_retry writer_report start new
    register_all complete advance_frontier ack_frontier count_commit
frontier_five = refl

below_word : (g : ℕ) → frontier_of s8 ≡ some g → g < u64_max
below_word g e = small (some_unique (sym frontier_five ∙ e))
  where
    small : 5 ≡ g → g < u64_max
    small q = omega arith

few_retries : effective_retry_max_attempts options ≤ u32_max
unfolding effective_retry_max_attempts
few_retries = omega arith

ack_is_in_sink_example :
    (calls : List Spec.Call) × ((s8.actor.coordinator ≡ run_coordinator (new "s" (some 4)) calls)
      × All (InSinkUpTo "c" s8.log (some 4) calls) s8.actor.acks)
ack_is_in_sink_example =
    ack_is_in_sink keeper options knobs decoder "c" source budget 2 s8 refl few_retries
      (λ a e. small_baseline (some_unique e)) r8 below_word
  where
    small_baseline : {a : ℕ} → 4 ≡ a → a < u64_max
    small_baseline q = omega arith
