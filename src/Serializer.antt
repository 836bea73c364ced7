-- ===== src/Serializer.antt =====
-- The RowBinary serializer: plugins/opendata-ingest-clickhouse/src/serializer/rowbinary.rs, with
-- `write_row_binary` of adapter/mod.rs. An error is the text of its `WriterError::Serialization`; `debug`
-- is the `Debug` text of a name, which an error shows.
pub mod Plans
mod Examples
use opendata_contrib.Common.{
  ℕ, zero, suc, ◌/◌, ◌%◌, ◌==◌, not, String, Option, none, some, List, [], ◌∷◌, ◌++◌, Result, ok,
  err, ok_or, fail_if, ◌>>=◌, ◌>>◌, length,
}
use opendata_contrib.Common.Int.{ℤ, to_word}
use opendata_contrib.Common.Text.{concat, decimal, as_bytes, find}
use opendata_contrib.Adapter.{InsertChunk, RowValue}
use opendata_contrib.RowBinary.{write_varuint}

-- `to_le_bytes` of a word of so many bytes.
unfoldable pub le_bytes : ℕ → ℕ → List ℕ
le_bytes zero n = []
le_bytes (suc k) n = n % 256 ∷ le_bytes k (n / 256)

-- A text: its length in bytes, and the bytes.
unfoldable pub write_text : String → List ℕ
unfolding write_varuint as_bytes
write_text s = write_varuint (length (as_bytes s)) ++ as_bytes s

unfoldable pub write_entries : List (String × String) → List ℕ
unfolding write_text
write_entries [] = []
write_entries ((k, v) ∷ m) = write_text k ++ write_text v ++ write_entries m

abbrev pub write_nullable : Option ℕ → List ℕ
write_nullable none = 1 ∷ []
write_nullable (some ns) = 0 ∷ le_bytes 8 ns

-- The cast of nanoseconds to `i64` keeps the word.
unfoldable pub write_row_binary : RowValue → List ℕ
unfolding write_text write_entries le_bytes write_varuint to_word
write_row_binary (RowValue.string s) = write_text s
write_row_binary (RowValue.low_cardinality_string s) = write_text s
write_row_binary (RowValue.uint8 v) = v ∷ []
write_row_binary (RowValue.int32 v) = le_bytes 4 (to_word 32 v)
write_row_binary (RowValue.uint32 v) = le_bytes 4 v
write_row_binary (RowValue.uint64 v) = le_bytes 8 v
write_row_binary (RowValue.int64 v) = le_bytes 8 (to_word 64 v)
write_row_binary (RowValue.date_time64_nanos ns) = le_bytes 8 ns
write_row_binary (RowValue.nullable_date_time64_nanos o) = write_nullable o
write_row_binary (RowValue.string_map m) = write_varuint (length m) ++ write_entries m

-- The columns of the logs table with their types.
abbrev pub column_types : List (String × String)
column_types =
    ("Timestamp", "DateTime64(9)")
    ∷ ("ObservedTimestamp", "DateTime64(9)")
    ∷ ("SeverityText", "LowCardinality(String)")
    ∷ ("SeverityNumber", "UInt8")
    ∷ ("ServiceName", "LowCardinality(String)")
    ∷ ("Body", "String")
    ∷ ("ResourceAttributes", "Map(LowCardinality(String), String)")
    ∷ ("LogAttributes", "Map(LowCardinality(String), String)")
    ∷ ("TraceId", "String")
    ∷ ("SpanId", "String")
    ∷ ("_odb_sequence", "UInt64")
    ∷ ("_odb_entry_index", "UInt32")
    ∷ ("_odb_record_index", "UInt32")
    ∷ ("_odb_manifest_path", "LowCardinality(String)")
    ∷ ("_odb_data_path", "String")
    ∷ ("_odb_ingestion_time_ms", "Int64")
    ∷ ("_adapter_version", "UInt32")
    ∷ ("_odb_gateway_received_at", "Nullable(DateTime64(9))")
    ∷ []

unfoldable pub write_names : List String → List ℕ
unfolding write_text
write_names [] = []
write_names (name ∷ names) = write_text name ++ write_names names

unfoldable pub write_values : List RowValue → List ℕ
unfolding write_row_binary
write_values [] = []
write_values (v ∷ vs) = write_row_binary v ++ write_values vs

abbrev pub row_length : ℕ → ℕ → String
row_length count columns =
    (concat (
      "row has " ∷ decimal count ∷ " values but " ∷ decimal columns ∷ " columns are expected" ∷ []))

-- The rows, up to one that has not the length of the columns.
unfoldable pub write_rows : ℕ → List (List RowValue) → Result String (List ℕ)
unfolding write_values
write_rows columns [] = ok []
write_rows columns (row ∷ rows) = do
  fail_if (not (length row == columns)) (row_length (length row) columns)
  rest ← write_rows columns rows
  ok (write_values row ++ rest)

module _ (debug : String → String) where
  abbrev pub no_entry : String → String
  no_entry name =
      (concat (
        "no RowBinary type table entry for column "
        ∷ debug name
        ∷ "; update `clickhouse_type_for_column` to match the adapter DDL"
        ∷ []))

  unfoldable pub clickhouse_type_for_column : String → Result String String
  unfolding find
  clickhouse_type_for_column name = ok_or (find name column_types) (no_entry name)

  unfoldable pub write_types : List String → Result String (List ℕ)
  unfolding clickhouse_type_for_column write_text
  write_types [] = ok []
  write_types (name ∷ names) = do
    ty ← clickhouse_type_for_column name
    rest ← write_types names
    ok (write_text ty ++ rest)

  unfoldable pub serialize : InsertChunk → Result String (List ℕ)
  unfolding write_types write_rows write_names write_varuint
  serialize chunk = do
    types ← write_types chunk.columns
    rows ← write_rows (length chunk.columns) chunk.rows
    ok (write_varuint (length chunk.columns) ++ write_names chunk.columns ++ types ++ rows)
