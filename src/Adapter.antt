-- ===== src/Adapter.antt =====
-- plugins/opendata-ingest-clickhouse/src/adapter/mod.rs: the values of a row, the insert chunks, and the
-- interface of an adapter. `Adapter/Plan` is the adapter of the OTLP logs (adapter/logs.rs), with its
-- order in `Adapter/Sort` and the text of its tokens in `Adapter/Token`.
pub mod Sort
pub mod Token
pub mod Plan
pub mod Cover
pub mod Limits
pub mod Indices
pub mod Manifest
mod Examples
use opendata_contrib.Common.{ℕ, String, Bool, Option, List, Result, length}
use opendata_contrib.Common.Int.{ℤ}
use opendata_contrib.Sink.{CommitIdentity}

pub data RowValue : Type 0 where
  string low_cardinality_string : String → RowValue
  uint8 uint32 uint64 : ℕ → RowValue
  int32 int64 : ℤ → RowValue
  date_time64_nanos : ℕ → RowValue
  nullable_date_time64_nanos : Option ℕ → RowValue
  string_map : List (String × String) → RowValue

pub record ClickHouseSettings : Type 0 where
  pub insert_quorum : Option String
  pub insert_deduplication_token : String
  pub apply_deduplication_token : Bool

pub record InsertChunk : Type 0 where
  pub database : String
  pub table : String
  pub columns : List String
  pub rows : List (List RowValue)
  pub settings : ClickHouseSettings
  pub idempotency_token : String
  pub chunk_index : ℕ
  pub observability_labels : List (String × String)

abbrev pub rows_count : InsertChunk → ℕ
rows_count c = length c.rows

pub record ClickHouseAdapterBatch (R : Type 0) : Type 0 where
  pub identity : CommitIdentity
  pub records : List R
  pub bytes : ℕ

pub data AdapterError : Type 0 where
  plan_error : String → AdapterError

-- The trait: a plan of insert chunks for a batch.
pub record Adapter (R : Type 0) : Type 0 where
  pub plan : ClickHouseAdapterBatch R → Result AdapterError (List InsertChunk)
