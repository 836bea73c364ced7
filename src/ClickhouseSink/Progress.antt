-- ===== src/ClickhouseSink/Progress.antt =====
-- The way through for a commit of log records (sink.rs, adapter/logs.rs and writer.rs together): nothing
-- in the plugin itself stops a commit of one manifest whose range is its batch's.
use opendata_contrib.Common.{
  ℕ, suc, ◌+◌, ◌≡◌, refl, ap, ◌∙◌, true, ◌==◌, String, Option, some, List, [], ◌∷◌, ◌++◌, Result,
  ok, length, arith, All,
}
use opendata_contrib.Adapter.{InsertChunk, ClickHouseAdapterBatch}
use opendata_contrib.Adapter.Cover.{length-map, plan-rows}
use opendata_contrib.Adapter.Manifest.{IsOf, plan_accepts}
use opendata_contrib.Adapter.Plan.{OtlpLogsClickHouseAdapter, log_row, plan}
use opendata_contrib.Adapter.Sort.{sort_by_key, length-sort_by_key}
use opendata_contrib.ClickhouseSink.{
  chunk_row_total, group_of, write, insert_planned, reported, after_plan, values_total,
}
use opendata_contrib.ClickhouseSink.Rows.{chunk_row_total-length, logs_sink}
use opendata_contrib.Logs.{DecodedLogRecord}
use opendata_contrib.Serializer.{serialize, column_types}
use opendata_contrib.Serializer.Plans.{plan-serialize, header_bytes, rows_bytes}
use opendata_contrib.Sink.{SinkCommit, SinkCommitResult}
use opendata_contrib.Writer.{
  WriterEnv, WriterConfig, WriterError, Event, HttpOutcome, execute_all, execute_chunk,
  execute_once, insert_loop, sent, serialized, then_rest, preceded,
}
use opendata_contrib.Writer.Laws.{IsAccepted, execute_once-ok}

-- The chunk serializes, and the server accepts the first request with it.
pub record IsAccepting (env : WriterEnv) (c : InsertChunk) : Type 0 where
  pub body : List ℕ
  pub serializes : env.serialize c ≡ ok body
  pub accepts : IsAccepted (env.answer c 1)

-- One request for each chunk.
abbrev pub first_requests : WriterEnv → List InsertChunk → List Event
first_requests env [] = []
first_requests env (c ∷ cs) = sent c (env.answer c 1) ∷ first_requests env cs

insert_loop-accepted :
    (fuel most : ℕ) (c : InsertChunk) (answer : ℕ → HttpOutcome) (backoff : ℕ)
    → execute_once (answer 1) ≡ ok tt
    → insert_loop (suc fuel) most c answer 0 backoff ≡ (some (ok tt), sent c (answer 1) ∷ [])
unfolding insert_loop
insert_loop-accepted fuel most c answer backoff h = rw (h, insert_loop)

execute_chunk-accepted :
    (config : WriterConfig) (env : WriterEnv) (c : InsertChunk)
    → IsAccepting env c
    → execute_chunk config env c ≡ (some (ok tt), sent c (env.answer c 1) ∷ [])
unfolding execute_chunk
execute_chunk-accepted config env c h =
    ap (λ body. serialized body (loop (config.max_attempts + 1))) h.serializes
    ∙ ap loop (add_one config.max_attempts)
    ∙ insert_loop-accepted config.max_attempts config.max_attempts c (env.answer c)
        config.initial_backoff ((execute_once-ok (env.answer c 1)).1 h.accepts)
  where
    loop : ℕ → Option (Result WriterError (Unit {0})) × List Event
    loop fuel = insert_loop fuel config.max_attempts c (env.answer c) 0 config.initial_backoff

    add_one : (n : ℕ) → n + 1 ≡ suc n
    add_one n = omega arith

execute_all-accepted :
    (config : WriterConfig) (env : WriterEnv) (cs : List InsertChunk)
    → All (IsAccepting env) cs
    → execute_all config env cs ≡ (some (ok tt), first_requests env cs)
unfolding execute_all
execute_all-accepted config env [] h = refl
execute_all-accepted config env (c ∷ cs) h =
    ap (λ r. then_rest r (execute_all config env cs)) (execute_chunk-accepted config env c h.0)
    ∙ ap (preceded (sent c (env.answer c 1) ∷ [])) (execute_all-accepted config env cs h.1)

insert_planned-accepted :
    (a : OtlpLogsClickHouseAdapter) (size : ℕ) (writer : WriterConfig) (env : WriterEnv)
    (commit : SinkCommit) (logs : List DecodedLogRecord) (cs : List InsertChunk)
    → All (IsAccepting env) cs
    → plan a size (group_of (logs_sink a size writer) commit.identity logs) ≡ ok cs
    → (chunk_row_total cs ≡ length logs)
      × (insert_planned (logs_sink a size writer) env logs cs
          ≡ reported logs cs (some (ok tt), first_requests env cs))
unfolding insert_planned
insert_planned-accepted a size writer env commit logs cs h p =
    (total, rw (same_test total) (ap (reported logs cs) (execute_all-accepted writer env cs h)))
  where
    total : chunk_row_total cs ≡ length logs
    total =
        chunk_row_total-length cs
        ∙ ap length
            (plan-rows a size (group_of (logs_sink a size writer) commit.identity logs) cs p)
        ∙ length-map (λ r. log_row r a.config) (sort_by_key logs)
        ∙ length-sort_by_key logs

    same_test : {m n : ℕ} → m ≡ n → (m == n) ≡ true
    same_test e = ground arith

-- With the RowBinary serializer, the chunks of a plan need only the server's answers.
pub plan-IsAccepting :
    (debug : String → String) (answer : InsertChunk → ℕ → HttpOutcome)
    (a : OtlpLogsClickHouseAdapter) (size : ℕ) (batch : ClickHouseAdapterBatch DecodedLogRecord)
    (cs : List InsertChunk)
    → ((c : InsertChunk) → IsAccepted (answer c 1))
    → plan a size batch ≡ ok cs
    → All (IsAccepting (record { serialize = serialize debug; answer = answer })) cs
plan-IsAccepting debug answer a size batch cs h p =
    accepting cs (plan-serialize debug a size batch cs p)
  where
    accepting :
        (cs : List InsertChunk)
        → All
            (λ (c : InsertChunk).
              serialize debug c ≡ ok (header_bytes column_types ++ rows_bytes c.rows))
            cs
        → All (IsAccepting (record { serialize = serialize debug; answer = answer })) cs
    accepting [] s = tt
    accepting (c ∷ cs) (s, t) = (record { body = _; serializes = s; accepts = h c }, accepting cs t)

-- The way through: where the ranges agree, all records name one manifest, every chunk of the plan
-- serializes and the server accepts the first request with each, `write` sends one request for each chunk
-- of the adapter's plan, no sleep between them, and returns `Ok` with the number of the records.
pub write-accepted :
    (a : OtlpLogsClickHouseAdapter) (size : ℕ) (writer : WriterConfig) (env : WriterEnv)
    (commit : SinkCommit) (logs : List DecodedLogRecord) (m : String)
    → ((cs : List InsertChunk)
        → plan a size (group_of (logs_sink a size writer) commit.identity logs) ≡ ok cs
        → All (IsAccepting env) cs)
    → commit.identity.range.low ≡ commit.batch.low_sequence
    → commit.identity.range.high ≡ commit.batch.high_sequence
    → IsOf m logs
    → (cs : List InsertChunk) × ((res : SinkCommitResult) × (plan a size
            (group_of (logs_sink a size writer) commit.identity logs)
          ≡ ok cs)
        × ((write (logs_sink a size writer) env commit (ok logs)).result ≡ some (ok res))
        × ((write (logs_sink a size writer) env commit (ok logs)).events ≡ first_requests env cs)
        × (res.rows_written ≡ length logs))
unfolding write
write-accepted a size writer env commit logs m h low high one =
    let planned =
      (plan_accepts a size (group_of (logs_sink a size writer) commit.identity logs)).1 (m, one) in
    let cs = planned.0 in
    let done =
      insert_planned-accepted a size writer env commit logs cs (h cs planned.1) planned.1 in
    let whole = called low high planned.1 ∙ done.1 in
    (
      cs,
      (
        written cs,
        planned.1,
        ap (λ r. r.result) whole ∙ result_of cs,
        ap (λ r. r.events) whole ∙ events_of cs,
        done.0,
      ),
    )
  where
    same_test : {i j : ℕ} → i ≡ j → (i == j) ≡ true
    same_test e = ground arith

    written : List InsertChunk → SinkCommitResult
    written cs = record { bytes_written = values_total cs; rows_written = chunk_row_total cs }

    result_of :
        (cs : List InsertChunk)
        → (reported logs cs (some (ok tt), first_requests env cs)).result ≡ some (ok (written cs))
    result_of cs = unfold reported in refl

    events_of :
        (cs : List InsertChunk)
        → (reported logs cs (some (ok tt), first_requests env cs)).events ≡ first_requests env cs
    events_of cs = unfold reported in refl

    called :
        {cs : List InsertChunk}
        → commit.identity.range.low ≡ commit.batch.low_sequence
        → commit.identity.range.high ≡ commit.batch.high_sequence
        → plan a size (group_of (logs_sink a size writer) commit.identity logs) ≡ ok cs
        → write (logs_sink a size writer) env commit (ok logs)
          ≡ insert_planned (logs_sink a size writer) env logs cs
    called l r p =
        rw (same_test l) (rw (same_test r) (ap (after_plan (logs_sink a size writer) env logs) p))
