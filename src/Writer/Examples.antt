-- ===== src/Writer/Examples.antt =====
-- Runs of the writer (plugins/opendata-ingest-clickhouse/src/writer.rs), and instances of its theorems.
use opendata_contrib.Common.{◌≡◌, refl, [], ◌∷◌, ok, err, some, true, ◌==◌, if◌then◌else◌}
use opendata_contrib.Common.Text.{decimal}
use opendata_contrib.Adapter.{InsertChunk}
use opendata_contrib.Writer.{
  WriterConfig, WriterEnv, default_writer, execute_chunk, execute_all, answered, sent, slept,
  retry_budget_exhausted, execute_once,
}
use opendata_contrib.Writer.Laws.{Returns, Executes, execute_chunk-Returns, execute_all-Executes}
use opendata_contrib.Writer.Request.{build_insert_url, render_insert_sql_clean, row_binary}

abbrev chunk : InsertChunk
chunk = record {
  database = "db";
  table = "logs";
  columns = "Body" ∷ [];
  rows = [];
  settings = record {
    insert_quorum = some "auto";
    insert_deduplication_token = "t";
    apply_deduplication_token = true;
  };
  idempotency_token = "t";
  chunk_index = 0;
  observability_labels = [];
}

-- A server that is overloaded twice, and then accepts.
abbrev env : WriterEnv
env = record {
  serialize = λ c. ok (1 ∷ []);
  answer = λ c n. if n == 3 then answered 200 "" else answered 503 "busy";
}

abbrev config : WriterConfig
config = record default_writer { max_attempts = 4 }

-- The sleeps double.
third_time : execute_chunk config env chunk ≡ (
  some (ok tt),
  sent chunk (answered 503 "busy")
      ∷ slept 100000000
      ∷ sent chunk (answered 503 "busy")
      ∷ slept 200000000
      ∷ sent chunk (answered 200 "")
      ∷ [],
)
unfolding execute_chunk decimal
third_time = refl

too_few :
    (execute_chunk (record config { max_attempts = 2 }) env chunk).0
    ≡ some (
        err (
          retry_budget_exhausted
            "retry budget (2) exhausted: clickhouse insert failed (retryable): status 503: busy"))
unfolding execute_chunk decimal execute_once
too_few = refl

url :
    build_insert_url (λ s. s) "http://h:8123//" chunk 30000000000
    ≡ "http://h:8123/?async_insert=0&date_time_input_format=best_effort&insert_deduplication_token=t&insert_quorum=auto&max_execution_time=30"
unfolding build_insert_url decimal
url = refl

sql :
    render_insert_sql_clean chunk row_binary
    ≡ "INSERT INTO db.logs FORMAT RowBinaryWithNamesAndTypes"
unfolding render_insert_sql_clean
sql = refl

execute_chunk-Returns_example : Returns chunk 4 (execute_chunk config env chunk)
execute_chunk-Returns_example = execute_chunk-Returns config env chunk

execute_all-Executes_example :
    Executes 4 (chunk ∷ chunk ∷ []) (execute_all config env (chunk ∷ chunk ∷ []))
execute_all-Executes_example = execute_all-Executes config env (chunk ∷ chunk ∷ [])
