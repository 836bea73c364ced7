-- ===== src/Sink.antt =====
-- The types that cross the runtime/sink boundary: runtime/opendata-ingest-runtime/src/sink.rs,
-- identity.rs and decoded_batch.rs. A boxed foreign error is its text. The decoded records are a trait
-- object; the runtime reads two numbers of it.
use opendata_contrib.Common.{ℕ, String, List}
use opendata_contrib.Common.Int.{ℤ}

pub record SequenceRange : Type 0 where
  pub low : ℕ
  pub high : ℕ

pub record CommitIdentity : Type 0 where
  pub source : String
  pub sink : String
  pub range : SequenceRange
  pub schema_version : ℕ

pub record TypedRecords : Type 0 where
  pub estimated_bytes : ℕ
  pub record_count : ℕ

-- The paths are the numbers of their bytes: the runtime takes nothing else of them.
pub record SourceCoordinateColumns : Type 0 where
  pub manifest_path : ℕ
  pub data_path : ℕ
  pub sequences : List ℕ
  pub entry_indices : List ℕ
  pub record_indices : List ℕ
  pub ingestion_time_ms : List ℤ

pub record DecodedBatch : Type 0 where
  pub source : String
  pub low_sequence : ℕ
  pub high_sequence : ℕ
  pub source_entry_count : ℕ
  pub records : TypedRecords
  pub source_columns : SourceCoordinateColumns
  pub schema_version : ℕ

pub record SinkCommit : Type 0 where
  pub identity : CommitIdentity
  pub batch : DecodedBatch

pub record SinkCommitResult : Type 0 where
  pub bytes_written : ℕ
  pub rows_written : ℕ

pub data SinkCommitFailure : Type 0 where
  not_committed maybe_committed fatal : String → SinkCommitFailure

pub data CommitStatus : Type 0 where
  is_committed is_not_committed is_unknown : CommitStatus

-- `build_commit` (runtime.rs)
unfoldable pub build_commit : String → ℕ → ℕ → DecodedBatch → SinkCommit
build_commit sink_id low_sequence high_sequence batch = record {
  identity = record {
    source = batch.source;
    sink = sink_id;
    range = record { low = low_sequence; high = high_sequence };
    schema_version = batch.schema_version;
  };
  batch = batch;
}
