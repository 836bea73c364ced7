-- ===== src/Error.antt =====
-- runtime/opendata-ingest-runtime/src/error.rs: the runtime's one error type. The text that the
-- source formats into a message is replaced by a constructor for each message, with the values that
-- the message shows. A boxed foreign error is its text.
use opendata_contrib.Common.{ℕ, String, Result}

pub data AckFault : Type 0 where
  invalid_range : ℕ → ℕ → AckFault
  first_range : ℕ → ℕ → AckFault
  non_contiguous : ℕ → ℕ → ℕ → AckFault
  already_covered : ℕ → ℕ → AckFault
  overlaps_below : ℕ → ℕ → ℕ → ℕ → AckFault
  overlaps_above : ℕ → ℕ → ℕ → AckFault
  no_pending : ℕ → AckFault
  high_disagrees : ℕ → ℕ → ℕ → AckFault
  already_registered : String → AckFault
  no_coordinator : String → AckFault

pub data ConfigFault : Type 0 where
  no_source no_decoder no_sink : ConfigFault
  estimate_over_capacity : String → ℕ → ℕ → ConfigFault
  zero_inflight_batches zero_fetch_concurrency zero_decode_concurrency : String → ConfigFault

pub data PipelineFault : Type 0 where
  hard_abort : String → PipelineFault
  abort_in_write abort_in_retry_sleep abort_in_check_committed : PipelineFault
  worker_exited : ℕ → String → PipelineFault
  descriptor_lost fetched_batch_lost sink_commit_lost : String → ℕ → PipelineFault
  range_mismatch : ℕ → ℕ → ℕ → PipelineFault
  oversize_batch : ℕ → ℕ → ℕ → ℕ → PipelineFault
  fetch_worker_panicked decode_worker_panicked writer_worker_panicked : String → PipelineFault

pub data DecoderFault : Type 0 where
  rejected_metadata : DecoderFault
  empty_decode : DecoderFault
  many_batches : ℕ → DecoderFault
  foreign : String → DecoderFault

pub data RuntimeError : Type 0 where
  source_error : String → RuntimeError
  decoder_error : DecoderFault → RuntimeError
  sink_error : String → RuntimeError
  idempotency_error : String → RuntimeError
  ack_error : AckFault → RuntimeError
  config_error : ConfigFault → RuntimeError
  unsupported : String → RuntimeError
  pipeline_error : PipelineFault → RuntimeError

abbrev pub RuntimeResult {ℓ} : Type ℓ → Type ℓ
RuntimeResult A = Result RuntimeError A
