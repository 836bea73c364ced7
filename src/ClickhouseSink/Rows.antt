-- ===== src/ClickhouseSink/Rows.antt =====
-- What becomes of the records of a commit in sink.rs of the plugin: with the adapter of the OTLP logs the
-- row of each is in a chunk that the server accepted, and each is counted once for its run.
use mathlib.Core.List.{append_assoc}
use opendata_contrib.Common.{
  ℕ, ◌+◌, ◌≡◌, refl, sym, ◌∙◌, String, some, List, [], ◌∷◌, ◌++◌, map, ok, arith, All, Any, length,
  length-append, subst, Result,
}
use opendata_contrib.Common.Text.{find}
use opendata_contrib.Adapter.{InsertChunk, RowValue}
use opendata_contrib.Adapter.Cover.{rows_of, plan-rows}
use opendata_contrib.Adapter.Plan.{OtlpLogsClickHouseAdapter, logs_adapter, log_row}
use opendata_contrib.Adapter.Sort.{sort_by_key, sort_by_key-All}
use opendata_contrib.ClickhouseSink.{
  ClickHouseSink, chunk_row_total, group_of, write, count_one, bucket_from, bucket_rows_by_run_id,
  run_id_or_unknown,
}
use opendata_contrib.ClickhouseSink.Laws.{IsWritten, write-IsWritten}
use opendata_contrib.Logs.{DecodedLogRecord}
use opendata_contrib.Sink.{SinkCommit, SinkCommitResult}
use opendata_contrib.Writer.{WriterEnv, WriterConfig, Event}
use opendata_contrib.Writer.Laws.{Inserts, AllInserted}

pub chunk_row_total-length : (cs : List InsertChunk) → chunk_row_total cs ≡ length (rows_of cs)
chunk_row_total-length [] = refl
chunk_row_total-length (c ∷ cs) =
    omega (arith, length-append c.rows (rows_of cs), chunk_row_total-length cs)

-- The row is in a chunk with which the server accepted a request.
abbrev pub Lands : List Event → List RowValue → Type 0
Lands events row =
    (c : InsertChunk) × ((before : List (List RowValue)) × ((after : List (List RowValue)) × (c.rows
          ≡ before ++ row ∷ after)
        × Any (Inserts c) events))

All-append_split :
    {A : Type 0} (P : A → Type 0) (xs ys : List A) → All P xs → All P ys → All P (xs ++ ys)
All-append_split P [] ys h k = k
All-append_split P (x ∷ xs) ys h k = (h.0, All-append_split P xs ys h.1 k)

chunk-Lands :
    (events : List Event) (c : InsertChunk) (before rows : List (List RowValue))
    → c.rows ≡ before ++ rows
    → Any (Inserts c) events
    → All (Lands events) rows
chunk-Lands events c before [] e a = tt
chunk-Lands events c before (row ∷ rows) e a = (
  (c, (before, (rows, e, a))),
  chunk-Lands events c (before ++ row ∷ []) rows (e ∙ sym (append_assoc before (row ∷ []) rows)) a,
)

rows_of-Lands :
    (events : List Event) (cs : List InsertChunk)
    → AllInserted cs events
    → All (Lands events) (rows_of cs)
rows_of-Lands events [] h = tt
rows_of-Lands events (c ∷ cs) h =
    All-append_split (Lands events) c.rows (rows_of cs) (chunk-Lands events c [] c.rows refl h.0)
      (rows_of-Lands events cs h.1)

All-map :
    {A B : Type 0} (P : B → Type 0) (f : A → B) (xs : List A)
    → All P (map f xs)
    → All (λ x. P (f x)) xs
All-map P f [] h = tt
All-map P f (x ∷ xs) h = (h.0, All-map P f xs h.1)

-- The sink of the OTLP logs.
abbrev pub logs_sink : OtlpLogsClickHouseAdapter → ℕ → WriterConfig → ClickHouseSink
logs_sink a size writer = record {
  adapter = logs_adapter a size;
  writer = writer;
  struct_size = size;
}

written-Lands :
    (a : OtlpLogsClickHouseAdapter) (size : ℕ) (writer : WriterConfig) (commit : SinkCommit)
    (logs : List DecodedLogRecord) (chunks : List InsertChunk) (res : SinkCommitResult)
    (events : List Event)
    → IsWritten (logs_sink a size writer) commit logs chunks res events
    → All (λ r. Lands events (log_row r a.config)) logs
written-Lands a size writer commit logs chunks res events w =
    sort_by_key-All (λ r. Lands events (log_row r a.config)) logs
      (All-map (Lands events) (λ r. log_row r a.config) (sort_by_key logs)
        (subst (All (Lands events))
          (plan-rows a size (group_of (logs_sink a size writer) commit.identity logs) chunks
            w.planned)
          (rows_of-Lands events chunks w.inserted)))

-- What an `Ok` of the sink of the OTLP logs means for the commit: its typed records were log records, and
-- the row of every one of them stands in a chunk with which the server accepted a request of this call.
pub write-Lands :
    (a : OtlpLogsClickHouseAdapter) (size : ℕ) (writer : WriterConfig) (env : WriterEnv)
    (commit : SinkCommit) (downcast : Result String (List DecodedLogRecord))
    (res : SinkCommitResult)
    → (write (logs_sink a size writer) env commit downcast).result ≡ some (ok res)
    → (logs : List DecodedLogRecord) × ((downcast ≡ ok logs)
        × All
            (λ r.
              Lands
                (write (logs_sink a size writer) env commit downcast).events
                (log_row r a.config))
            logs)
write-Lands a size writer env commit downcast res h =
    let w = write-IsWritten (logs_sink a size writer) env commit downcast res h in
    let (logs, (chunks, e, written)) = w in
    (logs, (e, written-Lands a size writer commit logs chunks res _ written))

-- The sum of the counts.
abbrev pub counted : List (String × ℕ) → ℕ
counted [] = 0
counted ((k, n) ∷ counts) = n + counted counts

counted-count_one :
    (run_id : String) (counts : List (String × ℕ))
    → counted (count_one run_id counts) ≡ counted counts + 1
unfolding count_one
counted-count_one run_id [] = refl
counted-count_one run_id ((k, n) ∷ counts) = ground (arith, counted-count_one run_id counts)

counted-bucket_from :
    (logs : List DecodedLogRecord) (counts : List (String × ℕ))
    → counted (bucket_from logs counts) ≡ counted counts + length logs
unfolding bucket_from
counted-bucket_from [] counts = omega arith
counted-bucket_from (rec ∷ logs) counts = omega (
  arith,
  counted-bucket_from logs
      (count_one (run_id_or_unknown (find "_odb_run_id" rec.log_attributes)) counts),
  counted-count_one (run_id_or_unknown (find "_odb_run_id" rec.log_attributes)) counts,
)

-- The counts for the runs add up to the number of the records: one without a run is counted too.
pub counted-bucket_rows_by_run_id :
    (logs : List DecodedLogRecord) → counted (bucket_rows_by_run_id logs) ≡ length logs
unfolding bucket_rows_by_run_id
counted-bucket_rows_by_run_id logs = omega (arith, counted-bucket_from logs [])
