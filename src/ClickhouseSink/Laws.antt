-- ===== src/ClickhouseSink/Laws.antt =====
-- The contract of `ClickHouseSink::write` (sink.rs of the plugin) for any adapter: what an `Ok` promises,
-- that a call returns, and that a plan which drops rows never reaches the server.
use opendata_contrib.Common.{
  ℕ, ◌≡◌, max, refl, false, not, ◌||◌, String, Option, none, some, List, Result, ok, err,
  Bool-cases, inl, inr, ◌==◌, ==_iff, length, arith, subst,
}
use opendata_contrib.Adapter.{InsertChunk, AdapterError}
use opendata_contrib.ClickhouseSink.{
  ClickHouseSink, WriteReport, write, reported, insert_planned, after_plan, after_downcast,
  group_of, chunk_row_total, failure,
}
use opendata_contrib.Logs.{DecodedLogRecord}
use opendata_contrib.Sink.{
  SinkCommit, SinkCommitResult, SinkCommitFailure, not_committed, maybe_committed, fatal,
}
use opendata_contrib.Writer.{
  WriterError, WriterErrorClass, WriterEnv, Event, execute_all, class, retryable_class,
  non_retryable_class, budget_class,
}
use opendata_contrib.Writer.Laws.{AllInserted, Executes, execute_all-Executes}

-- What an `Ok` of `write` promises: the ranges agree, the adapter's chunks cover every record, the server
-- accepted each of them, and the count of rows is that of the records.
pub record IsWritten (sink : ClickHouseSink) (commit : SinkCommit) (logs : List DecodedLogRecord)
    (chunks : List InsertChunk) (res : SinkCommitResult) (events : List Event) : Type 0 where
  pub low : commit.identity.range.low ≡ commit.batch.low_sequence
  pub high : commit.identity.range.high ≡ commit.batch.high_sequence
  pub planned : sink.adapter.plan (group_of sink commit.identity logs) ≡ ok chunks
  pub covers : chunk_row_total chunks ≡ length logs
  pub inserted : AllInserted chunks events
  pub rows : res.rows_written ≡ length logs

-- The results that a call may have, with its events.
Results :
    ClickHouseSink
    → SinkCommit
    → Result String (List DecodedLogRecord)
    → Option (Result SinkCommitFailure SinkCommitResult)
    → List Event
    → Type 0
Results sink commit downcast none events = ⊥
Results sink commit downcast (some (ok res)) events =
    (logs : List DecodedLogRecord) × ((chunks : List InsertChunk) × (downcast ≡ ok logs)
      × IsWritten sink commit logs chunks res events)
Results sink commit downcast (some (err (not_committed message))) events = ⊥
Results sink commit downcast (some (err (maybe_committed message))) events = Unit
Results sink commit downcast (some (err (fatal message))) events = Unit

-- The results of a call, of its report.
unfoldable pub IsReport :
    ClickHouseSink → SinkCommit → Result String (List DecodedLogRecord) → WriteReport → Type 0
unfolding Results
IsReport sink commit downcast report = Results sink commit downcast report.result report.events

module _ (sink : ClickHouseSink) (env : WriterEnv) (commit : SinkCommit)
    (low : commit.identity.range.low ≡ commit.batch.low_sequence)
    (high : commit.identity.range.high ≡ commit.batch.high_sequence)
    (logs : List DecodedLogRecord) where
  failed-Results :
      (c : WriterErrorClass) (e : WriterError) (events : List Event)
      → Results sink commit (ok logs) (some (err (failure c e))) events
  unfolding Results
  failed-Results retryable_class e events = tt
  failed-Results budget_class e events = tt
  failed-Results non_retryable_class e events = tt

  reported-IsReport :
      (chunks : List InsertChunk) (most : ℕ)
      (run : Option (Result WriterError (Unit {0})) × List Event)
      → sink.adapter.plan (group_of sink commit.identity logs) ≡ ok chunks
      → chunk_row_total chunks ≡ length logs
      → Executes most chunks run
      → IsReport sink commit (ok logs) (reported logs chunks run)
  unfolding IsReport reported
  reported-IsReport chunks most (none, events) p c h = h
  reported-IsReport chunks most (some (ok tt), events) p c h = (
    logs,
    (
      chunks,
      refl,
      record { low = low; high = high; planned = p; covers = c; inserted = h.1 refl; rows = c },
    ),
  )
  reported-IsReport chunks most (some (err e), events) p c h = failed-Results (class e) e events

  insert_planned-IsReport :
      (chunks : List InsertChunk)
      → sink.adapter.plan (group_of sink commit.identity logs) ≡ ok chunks
      → IsReport sink commit (ok logs) (insert_planned sink env logs chunks)
  unfolding insert_planned IsReport
  insert_planned-IsReport chunks p = elim (Bool-cases (chunk_row_total chunks == length logs)) [
    | inl same ↦ rw same (
        reported-IsReport chunks (max sink.writer.max_attempts 1)
          (execute_all sink.writer env chunks) p ((==_iff _ _).0 same)
          (execute_all-Executes sink.writer env chunks))
    | inr differ ↦ rw differ tt
  ]

  after_plan-IsReport :
      (plan : Result AdapterError (List InsertChunk))
      → sink.adapter.plan (group_of sink commit.identity logs) ≡ plan
      → IsReport sink commit (ok logs) (after_plan sink env logs plan)
  unfolding IsReport
  after_plan-IsReport (ok chunks) p = insert_planned-IsReport chunks p
  after_plan-IsReport (err e) p = tt

after_downcast-IsReport :
    (sink : ClickHouseSink) (env : WriterEnv) (commit : SinkCommit)
    (downcast : Result String (List DecodedLogRecord))
    → commit.identity.range.low ≡ commit.batch.low_sequence
    → commit.identity.range.high ≡ commit.batch.high_sequence
    → IsReport sink commit downcast (after_downcast sink env commit.identity downcast)
unfolding IsReport
after_downcast-IsReport sink env commit (ok logs) low high =
    after_plan-IsReport sink env commit low high logs _ refl
after_downcast-IsReport sink env commit (err schema) low high = tt

-- Both tests of the range passed.
both_agree : (a b c d : ℕ) → (not (a == b) || not (c == d)) ≡ false → (a ≡ b) × (c ≡ d)
both_agree a b c d h = (ground arith, ground arith)

-- For any adapter and any server, `write` returns. If it returns `Ok`, the identity's range is the
-- batch's, the adapter's chunks have as many rows as there are records, the server accepted a request with
-- every one of the chunks, and `rows_written` is the number of the records. A failure is never
-- `NotCommitted`.
pub write-IsReport :
    (sink : ClickHouseSink) (env : WriterEnv) (commit : SinkCommit)
    (downcast : Result String (List DecodedLogRecord))
    → IsReport sink commit downcast (write sink env commit downcast)
unfolding write IsReport
write-IsReport sink env commit downcast =
    elim (Bool-cases (
      not (commit.identity.range.low == commit.batch.low_sequence)
      || not (commit.identity.range.high == commit.batch.high_sequence))) [
        | inl differ ↦ rw differ tt
        | inr agree ↦
            let both = both_agree _ _ _ _ agree in
            rw agree (after_downcast-IsReport sink env commit downcast both.0 both.1)
      ]

-- The promise of an `Ok` of a call.
pub write-IsWritten :
    (sink : ClickHouseSink) (env : WriterEnv) (commit : SinkCommit)
    (downcast : Result String (List DecodedLogRecord)) (res : SinkCommitResult)
    → (write sink env commit downcast).result ≡ some (ok res)
    → (logs : List DecodedLogRecord) × ((chunks : List InsertChunk) × (downcast ≡ ok logs)
        × IsWritten sink commit logs chunks res (write sink env commit downcast).events)
unfolding IsReport Results
write-IsWritten sink env commit downcast res h =
    subst (λ o. Results sink commit downcast o (write sink env commit downcast).events) h
      (write-IsReport sink env commit downcast)
