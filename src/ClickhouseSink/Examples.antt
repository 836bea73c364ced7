-- ===== src/ClickhouseSink/Examples.antt =====
-- Runs of the sink (plugins/opendata-ingest-clickhouse/src/sink.rs), and instances of its theorems.
use opendata_contrib.Serializer.{serialize}
use opendata_contrib.Common.{◌≡◌, refl, All, List, [], ◌∷◌, ok, err, some, Result}
use opendata_contrib.Common.Text.{decimal, find}
use opendata_contrib.Adapter.{InsertChunk}
use opendata_contrib.Adapter.Plan.{OtlpLogsClickHouseAdapter, log_row, plan}
use opendata_contrib.Adapter.Sort.{key_le}
use opendata_contrib.Adapter.Token.{default_config}
use opendata_contrib.ClickhouseSink.{ClickHouseSink, write, group_of, bucket_rows_by_run_id, String}
use opendata_contrib.ClickhouseSink.Laws.{IsReport, write-IsReport}
use opendata_contrib.ClickhouseSink.Progress.{first_requests, write-accepted, plan-IsAccepting}
use opendata_contrib.ClickhouseSink.Rows.{Lands, logs_sink, write-Lands}
use opendata_contrib.Logs.{DecodedLogRecord, approx_size_bytes, text_len}
use opendata_contrib.Logs.Samples.{sample_at}
use opendata_contrib.Sink.{SinkCommit, SinkCommitResult, DecodedBatch, fatal}
use opendata_contrib.Writer.{WriterEnv, default_writer, answered, execute_chunk, execute_all}

abbrev adapter : OtlpLogsClickHouseAdapter
adapter = record { config = record default_config { max_chunk_rows = 2 }; fingerprint = "f0" }

abbrev logs : List DecodedLogRecord
logs = sample_at 7 0 0 ∷ sample_at 7 0 1 ∷ sample_at 7 0 2 ∷ []

abbrev batch : DecodedBatch
batch = record {
  source = "s";
  low_sequence = 7;
  high_sequence = 7;
  source_entry_count = 1;
  records = record { estimated_bytes = 768; record_count = 3 };
  source_columns = record {
    manifest_path = 1;
    data_path = 1;
    sequences = [];
    entry_indices = [];
    record_indices = [];
    ingestion_time_ms = [];
  };
  schema_version = 1;
}

abbrev commit : SinkCommit
commit = record {
  identity = record {
    source = "s";
    sink = "c";
    range = record { low = 7; high = 7 };
    schema_version = 1;
  };
  batch = batch;
}

abbrev accepting : WriterEnv
accepting = record { serialize = λ c. ok (1 ∷ []); answer = λ c n. answered 200 "" }

abbrev overloaded : WriterEnv
overloaded = record { serialize = λ c. ok (1 ∷ []); answer = λ c n. answered 503 "busy" }

abbrev rejecting : WriterEnv
rejecting = record { serialize = λ c. ok (1 ∷ []); answer = λ c n. answered 400 "bad" }

abbrev sink : ClickHouseSink
sink = logs_sink adapter 200 default_writer

-- The number of values is reported as `bytes_written`: three rows of eighteen values each.
values_not_bytes :
    (write sink accepting commit (ok logs)).result
    ≡ some (ok (record { bytes_written = 54; rows_written = 3 }))
unfolding write plan key_le approx_size_bytes text_len execute_chunk execute_all
values_not_bytes = refl

one_run : (write sink accepting commit (ok logs)).rows_committed ≡ ("r1", 3) ∷ []
unfolding write plan key_le approx_size_bytes text_len execute_chunk execute_all
    bucket_rows_by_run_id find
one_run = refl

rejected_for_good :
    (write sink rejecting commit (ok logs)).result
    ≡ some (err (fatal "clickhouse insert failed (non-retryable): status 400: bad"))
unfolding write plan key_le approx_size_bytes text_len execute_chunk execute_all decimal
rejected_for_good = refl

-- An adapter that drops every row.
abbrev dropping : ClickHouseSink
dropping = record {
  adapter = record { plan = λ b. ok [] };
  writer = default_writer;
  struct_size = 200;
}

write-IsReport_example : IsReport sink commit (ok logs) (write sink overloaded commit (ok logs))
write-IsReport_example = write-IsReport sink overloaded commit (ok logs)

-- A server that accepts every chunk of the RowBinary serializer.
abbrev row_binary : WriterEnv
row_binary = record { serialize = serialize (λ name. name); answer = accepting.answer }

write-Lands_example :
    (ls : List DecodedLogRecord) × ((◌≡◌ {A = Result String (List DecodedLogRecord)}
        (ok logs)
        (ok ls))
      × All
          (λ r. Lands (write sink accepting commit (ok logs)).events (log_row r adapter.config))
          ls)
write-Lands_example =
    write-Lands adapter 200 default_writer accepting commit (ok logs)
      (record { bytes_written = 54; rows_written = 3 }) values_not_bytes

write-accepted_example :
    (cs : List InsertChunk) × ((res : SinkCommitResult) × (plan adapter 200
          (group_of sink commit.identity logs)
        ≡ ok cs)
      × ((write sink row_binary commit (ok logs)).result ≡ some (ok res))
      × ((write sink row_binary commit (ok logs)).events ≡ first_requests row_binary cs)
      × (res.rows_written ≡ 3))
write-accepted_example =
    write-accepted adapter 200 default_writer row_binary commit logs "m"
      (λ cs h. plan-IsAccepting (λ name. name) accepting.answer adapter 200 _ cs (λ c. refl) h) refl
      refl (refl, (refl, (refl, tt)))
