-- ===== src/Logs/Samples.antt =====
-- Log records and requests for the tests of the plugins' models (plugins/opendata-ingest-otel/src/logs.rs).
use opendata_contrib.Common.{ℕ, String, none, some, List, [], ◌∷◌, ok}
use opendata_contrib.Common.Int.{pos}
use opendata_contrib.Logs.{DecodedLogRecord, LogRecord, AnyValue, ResourceLogs, Externals}
use opendata_contrib.Source.{SourceBatch, SourceEntry}

abbrev pub sample_at : ℕ → ℕ → ℕ → DecodedLogRecord
sample_at sequence entry index = record {
  source = record {
    buffer_sequence = sequence;
    entry_index = entry;
    record_index = index;
    manifest_path = "m";
    data_path = "d";
    ingestion_time_ms = pos 5;
  };
  timestamp_unix_nano = 1000;
  observed_timestamp_unix_nano = 2000;
  severity_number = pos 9;
  severity_text = "INFO";
  body = "hello";
  service_name = some "api";
  resource_attributes = ("_odb_gateway_received_at", "77") ∷ ("host", "a") ∷ [];
  scope_name = none;
  log_attributes = ("_odb_run_id", "r1") ∷ [];
  trace_id_hex = "";
  span_id_hex = "";
}

abbrev pub sample_log : String → LogRecord
sample_log text = record {
  time_unix_nano = 1000;
  observed_time_unix_nano = 2000;
  severity_number = pos 9;
  severity_text = "INFO";
  body = some (AnyValue.string_value text);
  attributes =
      record { key = "n"; value = some (AnyValue.int_value (pos 12)) }
      ∷ record { key = "none"; value = none }
      ∷ [];
  trace_id = [];
  span_id = [];
}

-- Two scopes, with two log records and one.
abbrev pub sample_request : List ResourceLogs
sample_request =
    record {
      resource =
          some (record { key = "service.name"; value = some (AnyValue.string_value "api") } ∷ []);
      scope_logs =
          record {
            scope = some (record { name = "lib"; attributes = [] });
            log_records = sample_log "one" ∷ sample_log "two" ∷ [];
          }
          ∷ record { scope = none; log_records = sample_log "three" ∷ [] }
          ∷ [];
    }
    ∷ []

-- Every entry decodes to the request.
abbrev pub sample_externals : Externals
sample_externals = record {
  decode_request = λ bytes. ok sample_request;
  hex = λ bytes. "";
  show_double = λ bits. "";
  struct_size = 200;
}

abbrev pub sample_entry : ℕ → SourceEntry
sample_entry index = record {
  entry_index = index;
  raw_bytes = 1 ∷ [];
  raw_metadata = 1 ∷ 2 ∷ 1 ∷ 0 ∷ [];
  ingestion_time_ms = pos 5;
}

abbrev pub sample_batch : SourceBatch
sample_batch = record {
  source = "s";
  sequence = 7;
  manifest_path = "m";
  data_object_path = "d";
  entries = sample_entry 0 ∷ sample_entry 1 ∷ [];
}
