-- ===== src/Adapter/Plan.antt =====
-- `OtlpLogsClickHouseAdapter::plan` of adapter/logs.rs: the row of a record, the chunk of the rows, and
-- the loop that closes a chunk when the next record would pass a limit. The loop's state is `current`,
-- `current_bytes` and `chunk_index`; the chunks that it pushes are its result. The sizes of records held
-- in memory stay far from the end of a word; `chunk_index` is a `u32`.
use opendata_contrib.Common.{
  ℕ, ◌+◌, ◌%◌, max, String, Bool, false, ◌||◌, Option, none, some, List, [], ◌∷◌, ◌++◌, map, Result,
  ok, err, ltb, str_eq, if◌then◌else◌, length, u32_max,
}
use opendata_contrib.Common.Text.{concat, find, without, parse_u64}
use opendata_contrib.Common.Int.{ℤ, clamp_up_to}
use opendata_contrib.Adapter.{
  RowValue, InsertChunk, ClickHouseAdapterBatch, AdapterError, plan_error, Adapter,
}
use opendata_contrib.Adapter.Sort.{sort_by_key}
use opendata_contrib.Adapter.Token.{LogsAdapterConfig, Digests, chunking_fingerprint, build_token}
use opendata_contrib.Logs.{DecodedLogRecord, approx_size_bytes}

abbrev pub column_names : List String
column_names =
    "Timestamp" ∷ "ObservedTimestamp" ∷ "SeverityText" ∷ "SeverityNumber" ∷ "ServiceName" ∷ "Body"
    ∷ "ResourceAttributes" ∷ "LogAttributes" ∷ "TraceId" ∷ "SpanId" ∷ "_odb_sequence"
    ∷ "_odb_entry_index" ∷ "_odb_record_index" ∷ "_odb_manifest_path" ∷ "_odb_data_path"
    ∷ "_odb_ingestion_time_ms" ∷ "_adapter_version" ∷ "_odb_gateway_received_at" ∷ []

unfoldable pub severity_to_u8 : ℤ → ℕ
severity_to_u8 severity_number = clamp_up_to 255 severity_number

-- `.and_then(|s| s.parse::<u64>().ok())`
abbrev pub parsed : Option String → Option ℕ
parsed none = none
parsed (some s) = parse_u64 s

abbrev pub or_default : Option String → String
or_default none = ""
or_default (some s) = s

unfoldable pub log_row : DecodedLogRecord → LogsAdapterConfig → List RowValue
unfolding severity_to_u8
log_row rec config =
    RowValue.date_time64_nanos rec.timestamp_unix_nano
    ∷ RowValue.date_time64_nanos rec.observed_timestamp_unix_nano
    ∷ RowValue.low_cardinality_string rec.severity_text
    ∷ RowValue.uint8 (severity_to_u8 rec.severity_number)
    ∷ RowValue.low_cardinality_string (or_default rec.service_name)
    ∷ RowValue.string rec.body
    ∷ RowValue.string_map (without "_odb_gateway_received_at" rec.resource_attributes)
    ∷ RowValue.string_map rec.log_attributes
    ∷ RowValue.string rec.trace_id_hex
    ∷ RowValue.string rec.span_id_hex
    ∷ RowValue.uint64 rec.source.buffer_sequence
    ∷ RowValue.uint32 rec.source.entry_index
    ∷ RowValue.uint32 rec.source.record_index
    ∷ RowValue.low_cardinality_string rec.source.manifest_path
    ∷ RowValue.string rec.source.data_path
    ∷ RowValue.int64 rec.source.ingestion_time_ms
    ∷ RowValue.uint32 config.adapter_version
    ∷ RowValue.nullable_date_time64_nanos
        (parsed (find "_odb_gateway_received_at" rec.resource_attributes))
    ∷ []

-- The first record of another manifest than the given one.
unfoldable pub mismatch : String → List DecodedLogRecord → Option DecodedLogRecord
mismatch manifest_path [] = none
mismatch manifest_path (r ∷ rs) =
    if str_eq r.source.manifest_path manifest_path then mismatch manifest_path rs else some r

-- What the chunks of one plan have in common.
pub record Planning : Type 0 where
  pub config : LogsAdapterConfig
  pub manifest_path : String
  pub fingerprint : String
  pub low : ℕ
  pub high : ℕ
  pub struct_size : ℕ

unfoldable pub token_of : Planning → ℕ → String
token_of p chunk_index = build_token p.manifest_path p.config p.fingerprint p.low p.high chunk_index

unfoldable pub emit : Planning → List DecodedLogRecord → ℕ → InsertChunk
unfolding token_of log_row
emit p slice chunk_index = record {
  database = p.config.database;
  table = p.config.table;
  columns = column_names;
  rows = map (λ r. log_row r p.config) slice;
  settings = record {
    insert_quorum = p.config.insert_quorum;
    insert_deduplication_token = token_of p chunk_index;
    apply_deduplication_token = p.config.apply_deduplication_token;
  };
  idempotency_token = token_of p chunk_index;
  chunk_index = chunk_index;
  observability_labels = ("table", p.config.table) ∷ ("signal", "logs") ∷ [];
}

-- Whether `current` is closed before the record is pushed.
unfoldable pub must_flush : Planning → List DecodedLogRecord → ℕ → DecodedLogRecord → Bool
must_flush p [] current_bytes record_ = false
must_flush p (c ∷ current) current_bytes record_ =
    ltb (max p.config.max_chunk_rows 1) (length (c ∷ current) + 1)
    || ltb (max p.config.max_chunk_bytes 1)
        (current_bytes + approx_size_bytes p.struct_size record_)

-- The chunk after the loop, if anything is left.
abbrev pub last_chunk : Planning → List DecodedLogRecord → ℕ → List InsertChunk
last_chunk p [] chunk_index = []
last_chunk p (c ∷ current) chunk_index = emit p (c ∷ current) chunk_index ∷ []

unfoldable pub plan_chunks :
    Planning → List DecodedLogRecord → ℕ → ℕ → List DecodedLogRecord → List InsertChunk
unfolding must_flush emit
plan_chunks p current current_bytes chunk_index [] = last_chunk p current chunk_index
plan_chunks p current current_bytes chunk_index (r ∷ rs) =
    let flushed =
      emit p current chunk_index
      ∷ plan_chunks p (r ∷ []) (0 + approx_size_bytes p.struct_size r)
          ((chunk_index + 1) % (u32_max + 1)) rs in
    let kept =
      plan_chunks p (current ++ r ∷ []) (current_bytes + approx_size_bytes p.struct_size r)
        chunk_index rs in
    if must_flush p current current_bytes r then flushed else kept

abbrev pub mixes : String → String → AdapterError
mixes first other = plan_error (
    concat
      ("commit group mixes manifest paths: first record has " ∷ first ∷ ", found " ∷ other ∷ []))

abbrev pub planned :
    Planning
    → List DecodedLogRecord
    → Option DecodedLogRecord
    → Result AdapterError (List InsertChunk)
planned p records none = ok (plan_chunks p [] 0 0 records)
planned p records (some other) = err (mixes p.manifest_path other.source.manifest_path)

-- `new` keeps the configuration and its fingerprint.
pub record OtlpLogsClickHouseAdapter : Type 0 where
  pub config : LogsAdapterConfig
  pub fingerprint : String

unfoldable pub new : Digests → LogsAdapterConfig → OtlpLogsClickHouseAdapter
unfolding chunking_fingerprint
new d config = record { config = config; fingerprint = chunking_fingerprint d config }

abbrev pub planning :
    OtlpLogsClickHouseAdapter → ℕ → ClickHouseAdapterBatch DecodedLogRecord → String → Planning
planning a struct_size batch manifest_path = record {
  config = a.config;
  manifest_path = manifest_path;
  fingerprint = a.fingerprint;
  low = batch.identity.range.low;
  high = batch.identity.range.high;
  struct_size = struct_size;
}

-- `plan` after the sort.
unfoldable pub plan_sorted :
    OtlpLogsClickHouseAdapter
    → ℕ
    → ClickHouseAdapterBatch DecodedLogRecord
    → List DecodedLogRecord
    → Result AdapterError (List InsertChunk)
unfolding plan_chunks mismatch
plan_sorted a struct_size batch [] = ok []
plan_sorted a struct_size batch (first ∷ rest) =
    planned (planning a struct_size batch first.source.manifest_path) (first ∷ rest)
      (mismatch first.source.manifest_path (first ∷ rest))

unfoldable pub plan :
    OtlpLogsClickHouseAdapter
    → ℕ
    → ClickHouseAdapterBatch DecodedLogRecord
    → Result AdapterError (List InsertChunk)
unfolding plan_sorted sort_by_key
plan a struct_size batch = plan_sorted a struct_size batch (sort_by_key batch.records)

-- The adapter as the sink sees it.
abbrev pub logs_adapter : OtlpLogsClickHouseAdapter → ℕ → Adapter DecodedLogRecord
logs_adapter a struct_size = record { plan = plan a struct_size }
