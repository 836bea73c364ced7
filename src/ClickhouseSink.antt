-- ===== src/ClickhouseSink.antt =====
-- plugins/opendata-ingest-clickhouse/src/sink.rs: `ClickHouseSink`, which plans a commit with its adapter
-- and inserts the chunks with its writer. The downcast of the decoded records is an argument: the log
-- records, or the text of another schema. What the counters of the metrics are raised by is part of the
-- report.
pub mod Rows
pub mod Progress
pub mod Laws
mod Examples
use opendata_contrib.Common.{
  ℕ, ◌+◌, String, Bool, true, false, not, ◌||◌, Option, none, some, List, [], ◌∷◌, Result, ok, err,
  ◌==◌, if◌then◌else◌, length, str_eq,
}
use opendata_contrib.Common.Text.{concat, decimal, find}
use opendata_contrib.Adapter.{
  Adapter, InsertChunk, ClickHouseAdapterBatch, AdapterError, plan_error, rows_count,
}
use opendata_contrib.Logs.{DecodedLogRecord, total_size}
use opendata_contrib.Sink.{
  SinkCommit, SinkCommitResult, SinkCommitFailure, CommitIdentity, CommitStatus, DecodedBatch,
  not_committed, maybe_committed, fatal, is_unknown,
}
use opendata_contrib.Writer.{
  WriterConfig, WriterEnv, WriterError, WriterErrorClass, Event, class, display, execute_all,
  retryable_class, non_retryable_class, budget_class,
}

pub record ClickHouseSink : Type 0 where
  pub adapter : Adapter DecodedLogRecord
  pub writer : WriterConfig
  pub struct_size : ℕ

-- What a call of `write` does: its result (`none` while it has not returned), the requests and sleeps of
-- the writer, and what `rows_committed` and `commit_bytes` are raised by.
pub record WriteReport : Type 0 where
  pub result : Option (Result SinkCommitFailure SinkCommitResult)
  pub events : List Event
  pub rows_committed : List (String × ℕ)
  pub commit_bytes : ℕ

-- `*counts.entry(run_id).or_insert(0) += 1`
unfoldable pub count_one : String → List (String × ℕ) → List (String × ℕ)
count_one run_id [] = (run_id, 1) ∷ []
count_one run_id ((k, n) ∷ counts) =
    if str_eq k run_id then (k, n + 1) ∷ counts else (k, n) ∷ count_one run_id counts

abbrev pub run_id_or_unknown : Option String → String
run_id_or_unknown none = "unknown"
run_id_or_unknown (some run_id) = run_id

unfoldable pub bucket_from : List DecodedLogRecord → List (String × ℕ) → List (String × ℕ)
unfolding count_one
bucket_from [] counts = counts
bucket_from (rec ∷ records) counts =
    bucket_from records
      (count_one (run_id_or_unknown (find "_odb_run_id" rec.log_attributes)) counts)

unfoldable pub bucket_rows_by_run_id : List DecodedLogRecord → List (String × ℕ)
unfolding bucket_from
bucket_rows_by_run_id records = bucket_from records []

-- `chunks.iter().map(|c| c.rows_count()).sum()`
abbrev pub chunk_row_total : List InsertChunk → ℕ
chunk_row_total [] = 0
chunk_row_total (c ∷ cs) = rows_count c + chunk_row_total cs

abbrev pub values_in {ℓ} : {A : Type ℓ} → List (List A) → ℕ
values_in [] = 0
values_in (row ∷ rows) = length row + values_in rows

-- `bytes_written`: the number of values in the rows.
abbrev pub values_total : List InsertChunk → ℕ
values_total [] = 0
values_total (c ∷ cs) = values_in c.rows + values_total cs

-- A call that returns before any request.
abbrev pub refused : String → WriteReport
refused message = record {
  result = some (err (fatal message));
  events = [];
  rows_committed = [];
  commit_bytes = 0;
}

abbrev pub failure : WriterErrorClass → WriterError → SinkCommitFailure
failure retryable_class e = maybe_committed (display e)
failure budget_class e = maybe_committed (display e)
failure non_retryable_class e = fatal (display e)

-- The `match` on the result of the writer.
unfoldable pub reported :
    List DecodedLogRecord
    → List InsertChunk
    → Option (Result WriterError (Unit {0})) × List Event
    → WriteReport
unfolding bucket_rows_by_run_id
reported logs chunks (none, events) = record {
  result = none;
  events = events;
  rows_committed = [];
  commit_bytes = 0;
}
reported logs chunks (some (ok tt), events) = record {
  result =
      some (
        ok (record { bytes_written = values_total chunks; rows_written = chunk_row_total chunks }));
  events = events;
  rows_committed = bucket_rows_by_run_id logs;
  commit_bytes = values_total chunks;
}
reported logs chunks (some (err e), events) = record {
  result = some (err (failure (class e) e));
  events = events;
  rows_committed = [];
  commit_bytes = 0;
}

abbrev pub dropped_rows : ℕ → ℕ → String
dropped_rows total count = concat (
    "adapter plan covered "
    ∷ decimal total
    ∷ " rows but commit held "
    ∷ decimal count
    ∷ "; refusing to insert and ack a partial/dropped chunking"
    ∷ [])

-- The row-drop guard, and the writer after it.
unfoldable pub insert_planned :
    ClickHouseSink → WriterEnv → List DecodedLogRecord → List InsertChunk → WriteReport
unfolding reported
insert_planned sink env logs chunks =
    if not (chunk_row_total chunks == length logs)
    then refused (dropped_rows (chunk_row_total chunks) (length logs))
    else reported logs chunks (execute_all sink.writer env chunks)

abbrev pub plan_text : AdapterError → String
plan_text (plan_error message) = concat ("adapter: " ∷ message ∷ [])

abbrev pub after_plan :
    ClickHouseSink
    → WriterEnv
    → List DecodedLogRecord
    → Result AdapterError (List InsertChunk)
    → WriteReport
after_plan sink env logs (err e) = refused (plan_text e)
after_plan sink env logs (ok chunks) = insert_planned sink env logs chunks

abbrev pub group_of :
    ClickHouseSink
    → CommitIdentity
    → List DecodedLogRecord
    → ClickHouseAdapterBatch DecodedLogRecord
group_of sink identity logs = record {
  identity = identity;
  records = logs;
  bytes = total_size sink.struct_size logs;
}

abbrev pub foreign_schema : String → String
foreign_schema schema =
    concat
      ("ClickHouseSink expects TypedDecodedLogs (schema opendata.otel.logs.v1), got " ∷ schema ∷ [])

abbrev pub range_disagrees : CommitIdentity → DecodedBatch → String
range_disagrees identity batch = concat (
    "SinkCommit identity range "
    ∷ decimal identity.range.low
    ∷ "..="
    ∷ decimal identity.range.high
    ∷ " disagrees with DecodedBatch range "
    ∷ decimal batch.low_sequence
    ∷ "..="
    ∷ decimal batch.high_sequence
    ∷ [])

abbrev pub after_downcast :
    ClickHouseSink
    → WriterEnv
    → CommitIdentity
    → Result String (List DecodedLogRecord)
    → WriteReport
after_downcast sink env identity (err schema) = refused (foreign_schema schema)
after_downcast sink env identity (ok logs) =
    after_plan sink env logs (sink.adapter.plan (group_of sink identity logs))

unfoldable pub write :
    ClickHouseSink → WriterEnv → SinkCommit → Result String (List DecodedLogRecord) → WriteReport
unfolding insert_planned
write sink env commit downcast =
    if not (commit.identity.range.low == commit.batch.low_sequence)
      || not (commit.identity.range.high == commit.batch.high_sequence)
    then refused (range_disagrees commit.identity commit.batch)
    else after_downcast sink env commit.identity downcast

-- The table removes repeats: the sink does not know.
abbrev pub check_committed : CommitIdentity → CommitStatus
check_committed identity = is_unknown
