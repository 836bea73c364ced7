-- ===== src/Decode.antt =====
-- The decode stage of runtime/opendata-ingest-runtime/src/runtime.rs: `decode_one` with its byte
-- reconciliation. The decoder is an interface (decoder.rs): a parameter. Sizes are machine words.
pub mod Laws
mod Examples
use opendata_contrib.Common.{
  ℕ, ◌+◌, ◌*◌, String, Bool, true, false, not, ◌||◌, Option, none, some, List, [], ◌∷◌, Result, ok,
  err, ◌>>=◌, ◌>>◌, fail_if, ltb, ◌==◌, if◌then◌else◌, length, wrapping_add, u64_mod, ◌%◌,
}
use opendata_contrib.Error.{
  RuntimeResult, RuntimeError, decoder_error, pipeline_error, rejected_metadata, empty_decode,
  many_batches, range_mismatch, oversize_batch,
}
use opendata_contrib.Options.{RuntimeOptions, SourceBackpressureOptions, fault_limit}
use opendata_contrib.Sink.{SourceCoordinateColumns, DecodedBatch, SinkCommit, build_commit}
use opendata_contrib.Source.{SourceBatch, SourceEntry}
use opendata_contrib.Budget.{SourceByteBudget, ByteReservation, reconcile}

pub record Decoder : Type 0 where
  pub accepts : List ℕ → Bool
  pub decode : SourceBatch → RuntimeResult (List DecodedBatch)

pub data DecodeOutcome : Type 0 where
  live : SinkCommit → ℕ → ℕ → DecodeOutcome
  dry_run : ℕ → ℕ → ℕ → DecodeOutcome

unfoldable pub source_coords_bytes : SourceCoordinateColumns → ℕ
source_coords_bytes coords = coords.manifest_path + coords.data_path + length coords.sequences * 24

-- The decoder's metadata test on the first entry.
metadata_guard : Decoder → List SourceEntry → RuntimeResult (Unit {0})
metadata_guard decoder [] = ok tt
metadata_guard decoder (first ∷ rest) =
    fail_if (not (decoder.accepts first.raw_metadata)) (decoder_error rejected_metadata)

-- The one batch that the decoder has to return.
one_batch : List DecodedBatch → RuntimeResult DecodedBatch
one_batch [] = err (decoder_error empty_decode)
one_batch (b ∷ []) = ok b
one_batch (b ∷ c ∷ bs) = err (decoder_error (many_batches (length (b ∷ c ∷ bs))))

unfoldable pub actual_bytes : DecodedBatch → ℕ
unfolding source_coords_bytes
actual_bytes decoded =
    wrapping_add decoded.records.estimated_bytes (source_coords_bytes decoded.source_columns)

-- Everything up to the reconciliation: the batch, if no check refuses it.
unfoldable pub accept_batch :
    Decoder → SourceBatch → ℕ → SourceBackpressureOptions → RuntimeResult DecodedBatch
unfolding metadata_guard one_batch actual_bytes fault_limit
accept_batch decoder source_batch admitted_sequence bp = do
  metadata_guard decoder source_batch.entries
  decoded_batches ← decoder.decode source_batch
  decoded ← one_batch decoded_batches
  fail_if
      (not (decoded.low_sequence == admitted_sequence)
        || not (decoded.high_sequence == admitted_sequence))
      (pipeline_error (range_mismatch decoded.low_sequence decoded.high_sequence admitted_sequence))
  fail_if (ltb (fault_limit bp) (actual_bytes decoded)) (
      pipeline_error (
        oversize_batch decoded.low_sequence decoded.high_sequence (actual_bytes decoded)
          (fault_limit bp)))
  ok decoded

abbrev pub outcome : RuntimeOptions → String → DecodedBatch → DecodeOutcome
outcome options sink_id decoded =
    if options.dry_run
    then dry_run decoded.low_sequence decoded.high_sequence decoded.records.record_count
    else live (build_commit sink_id decoded.low_sequence decoded.high_sequence decoded)
        decoded.low_sequence decoded.high_sequence

-- What is left after a refusal is the reservation as it was.
unfoldable pub finish_decode :
    RuntimeOptions
    → String
    → SourceByteBudget
    → ByteReservation
    → RuntimeResult DecodedBatch
    → RuntimeResult DecodeOutcome × (SourceByteBudget × ByteReservation)
unfolding reconcile
finish_decode options sink_id b r (ok decoded) =
    (ok (outcome options sink_id decoded), reconcile b r (actual_bytes decoded))
finish_decode options sink_id b r (err e) = (err e, (b, r))

unfoldable pub decode_one :
    Decoder
    → RuntimeOptions
    → String
    → SourceBatch
    → ℕ
    → SourceBackpressureOptions
    → SourceByteBudget
    → ByteReservation
    → RuntimeResult DecodeOutcome × (SourceByteBudget × ByteReservation)
unfolding accept_batch finish_decode
decode_one decoder options sink_id source_batch admitted_sequence bp b r =
    finish_decode options sink_id b r (accept_batch decoder source_batch admitted_sequence bp)
