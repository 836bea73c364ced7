-- ===== src/Logs/Decoder.antt =====
-- `OtlpLogsDecoder`: the three nested loops of `decode_entry`, the loop over the entries, and `decode`
-- with the columns and the sizes of the batch. The records themselves go to the sink behind a trait
-- object: `decode` returns them beside the batch.
use opendata_contrib.Common.{
  ℕ, ◌+◌, ◌%◌, String, Bool, true, false, Option, none, some, List, [], ◌∷◌, ◌++◌, Result, ok, err,
  ◌>>=◌, ◌>>◌, str_eq, if◌then◌else◌, length, map, u32_max,
}
use opendata_contrib.Common.Text.{put}
use opendata_contrib.Common.Int.{show}
use opendata_contrib.Envelope.{
  EnvelopeError, ConfiguredEnvelope, MetadataEnvelope, SignalType, PayloadEncoding, matches,
  decode_envelopes, validate_consistent,
}
use opendata_contrib.Envelope
use opendata_contrib.Logs.{
  DecodedLogRecord, AnyValue, KeyValue, LogRecord, InstrumentationScope, ScopeLogs, ResourceLogs,
  Externals, total_size, text_len,
}
use opendata_contrib.Sink.{DecodedBatch, SourceCoordinateColumns}
use opendata_contrib.Source.{SourceBatch, SourceEntry}

pub data LogsDecodeError : Type 0 where
  envelope : EnvelopeError → LogsDecodeError
  undecodable : ℕ → ℕ → String → LogsDecodeError

module _ (x : Externals) where
  -- `string_value`
  unfoldable pub value_text : Option AnyValue → Option String
  value_text none = none
  value_text (some (AnyValue.string_value s)) = some s
  value_text (some (AnyValue.bool_value true)) = some "true"
  value_text (some (AnyValue.bool_value false)) = some "false"
  value_text (some (AnyValue.int_value i)) = some (show i)
  value_text (some (AnyValue.double_value d)) = some (x.show_double d)
  value_text (some (AnyValue.bytes_value bytes)) = some (x.hex bytes)
  value_text (some AnyValue.array_value) = some "<complex>"
  value_text (some AnyValue.kvlist_value) = some "<complex>"

  -- `unwrap_or_default`
  abbrev pub or_empty : Option String → String
  or_empty none = ""
  or_empty (some s) = s

  abbrev pub put_value : String → Option String → List (String × String) → List (String × String)
  put_value key none dst = dst
  put_value key (some value) dst = put key value dst

  unfoldable pub merge_attributes : List KeyValue → List (String × String) → List (String × String)
  unfolding value_text
  merge_attributes [] dst = dst
  merge_attributes (kv ∷ src) dst =
      merge_attributes src (put_value kv.key (value_text kv.value) dst)

  -- The loop over the resource's attributes, the service name beside the map.
  abbrev pub named : String → Option String → Option String → Option String
  named key none name = name
  named key (some value) name = if str_eq key "service.name" then some value else name

  unfoldable pub service_of : List KeyValue → Option String → Option String
  unfolding value_text
  service_of [] name = name
  service_of (kv ∷ kvs) name = service_of kvs (named kv.key (value_text kv.value) name)

  abbrev pub resource_of : Option (List KeyValue) → List KeyValue
  resource_of none = []
  resource_of (some attributes) = attributes

  abbrev pub scope_name_of : Option InstrumentationScope → Option String
  scope_name_of none = none
  scope_name_of (some s) = some s.name

  abbrev pub scope_attributes : Option InstrumentationScope → List KeyValue
  scope_attributes none = []
  scope_attributes (some s) = s.attributes

  -- The record that the innermost loop pushes.
  unfoldable pub log_record :
      SourceBatch
      → SourceEntry
      → Option (List KeyValue)
      → Option InstrumentationScope
      → LogRecord
      → ℕ
      → DecodedLogRecord
  unfolding merge_attributes service_of value_text
  log_record batch entry resource scope log record_index = record {
    source = record {
      buffer_sequence = batch.sequence;
      entry_index = entry.entry_index;
      record_index = record_index;
      manifest_path = batch.manifest_path;
      data_path = batch.data_object_path;
      ingestion_time_ms = entry.ingestion_time_ms;
    };
    timestamp_unix_nano = log.time_unix_nano;
    observed_timestamp_unix_nano = log.observed_time_unix_nano;
    severity_number = log.severity_number;
    severity_text = log.severity_text;
    body = or_empty (value_text log.body);
    service_name = service_of (resource_of resource) none;
    resource_attributes = merge_attributes (resource_of resource) [];
    scope_name = scope_name_of scope;
    log_attributes = merge_attributes (scope_attributes scope) (merge_attributes log.attributes []);
    trace_id_hex = x.hex log.trace_id;
    span_id_hex = x.hex log.span_id;
  }

  -- The loops carry `records` and `record_index`; `record_index += 1` is on a `u32`.
  unfoldable pub push_logs :
      SourceBatch
      → SourceEntry
      → Option (List KeyValue)
      → Option InstrumentationScope
      → List LogRecord
      → List DecodedLogRecord × ℕ
      → List DecodedLogRecord × ℕ
  unfolding log_record
  push_logs batch entry resource scope [] st = st
  push_logs batch entry resource scope (log ∷ logs) (records, record_index) =
      push_logs batch entry resource scope logs (
        records ++ log_record batch entry resource scope log record_index ∷ [],
        (record_index + 1) % (u32_max + 1),
      )

  unfoldable pub push_scopes :
      SourceBatch
      → SourceEntry
      → Option (List KeyValue)
      → List ScopeLogs
      → List DecodedLogRecord × ℕ
      → List DecodedLogRecord × ℕ
  unfolding push_logs
  push_scopes batch entry resource [] st = st
  push_scopes batch entry resource (s ∷ scopes) st =
      push_scopes batch entry resource scopes
        (push_logs batch entry resource s.scope s.log_records st)

  unfoldable pub push_resources :
      SourceBatch
      → SourceEntry
      → List ResourceLogs
      → List DecodedLogRecord × ℕ
      → List DecodedLogRecord × ℕ
  unfolding push_scopes
  push_resources batch entry [] st = st
  push_resources batch entry (r ∷ resources) st =
      push_resources batch entry resources (push_scopes batch entry r.resource r.scope_logs st)

  -- The records after the entry, if its bytes decode.
  abbrev pub entry_records :
      SourceBatch
      → SourceEntry
      → List DecodedLogRecord
      → Result String (List ResourceLogs)
      → Result LogsDecodeError (List DecodedLogRecord)
  entry_records batch entry records (err e) = err (undecodable batch.sequence entry.entry_index e)
  entry_records batch entry records (ok resources) =
      ok (push_resources batch entry resources (records, 0)).0

  unfoldable pub decode_entry :
      SourceBatch
      → SourceEntry
      → List DecodedLogRecord
      → Result LogsDecodeError (List DecodedLogRecord)
  unfolding push_resources
  decode_entry batch entry records =
      entry_records batch entry records (x.decode_request entry.raw_bytes)

  unfoldable pub decode_from :
      SourceBatch
      → List SourceEntry
      → List DecodedLogRecord
      → Result LogsDecodeError (List DecodedLogRecord)
  unfolding decode_entry
  decode_from batch [] records = ok records
  decode_from batch (entry ∷ entries) records =
      decode_entry batch entry records >>= λ records'. decode_from batch entries records'

  unfoldable pub decode_logs : SourceBatch → Result LogsDecodeError (List DecodedLogRecord)
  unfolding decode_from
  decode_logs batch = decode_from batch batch.entries []

  -- `OtlpLogsDecoder::new`
  abbrev pub expected : ConfiguredEnvelope
  expected = record {
    version = 1;
    signal_type = SignalType.logs;
    encoding = PayloadEncoding.otlp_protobuf;
  }

  abbrev pub accepted : Result EnvelopeError MetadataEnvelope → Bool
  accepted (ok env) = matches expected env
  accepted (err e) = false

  unfoldable pub accepts : List ℕ → Bool
  accepts raw_metadata = accepted (Envelope.decode_one 0 raw_metadata)

  unfoldable pub columns : SourceBatch → List DecodedLogRecord → SourceCoordinateColumns
  columns batch records = record {
    manifest_path = text_len batch.manifest_path;
    data_path = text_len batch.data_object_path;
    sequences = map (λ (r : DecodedLogRecord). r.source.buffer_sequence) records;
    entry_indices = map (λ (r : DecodedLogRecord). r.source.entry_index) records;
    record_indices = map (λ (r : DecodedLogRecord). r.source.record_index) records;
    ingestion_time_ms = map (λ (r : DecodedLogRecord). r.source.ingestion_time_ms) records;
  }

  unfoldable pub decoded_batch : SourceBatch → List DecodedLogRecord → DecodedBatch
  unfolding columns
  decoded_batch batch records = record {
    source = batch.source;
    low_sequence = batch.sequence;
    high_sequence = batch.sequence;
    source_entry_count = length batch.entries % (u32_max + 1);
    records = record {
      estimated_bytes = total_size x.struct_size records;
      record_count = length records;
    };
    source_columns = columns batch records;
    schema_version = 1;
  }

  abbrev pub as_logs_error {ℓ} : {A : Type ℓ} → Result EnvelopeError A → Result LogsDecodeError A
  as_logs_error (ok a) = ok a
  as_logs_error (err e) = err (envelope e)

  unfoldable pub decode :
      SourceBatch → Result LogsDecodeError (List (DecodedBatch × List DecodedLogRecord))
  unfolding decode_logs decoded_batch
  decode batch = do
    envelopes ← as_logs_error (decode_envelopes batch)
    as_logs_error (validate_consistent envelopes expected)
    records ← decode_logs batch
    ok ((decoded_batch batch records, records) ∷ [])
