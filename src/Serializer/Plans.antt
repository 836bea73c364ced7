-- ===== src/Serializer/Plans.antt =====
-- The serializer on the plans of the adapter of the logs (adapter/logs.rs): both keep one list of columns.
use opendata_contrib.Common.{
  ℕ, ◌≡◌, refl, ap, sym, subst, String, List, [], ◌∷◌, ◌++◌, map, ok, All, length, ◌>>=◌,
}
use opendata_contrib.Adapter.{InsertChunk, ClickHouseAdapterBatch, RowValue}
use opendata_contrib.Adapter.Limits.{IsBounded, plan-IsBounded, planning_of}
use opendata_contrib.Adapter.Plan.{
  Planning, OtlpLogsClickHouseAdapter, column_names, emit, log_row, plan,
}
use opendata_contrib.Adapter.Sort.{sort_by_key}
use opendata_contrib.Adapter.Token.{LogsAdapterConfig}
use opendata_contrib.Logs.{DecodedLogRecord}
use opendata_contrib.RowBinary.{write_varuint}
use opendata_contrib.Serializer.{
  write_names, write_rows, write_types, write_values, column_types, clickhouse_type_for_column,
  serialize,
}

-- The bytes of all rows, one after the other.
abbrev pub rows_bytes : List (List RowValue) → List ℕ
rows_bytes [] = []
rows_bytes (row ∷ rows) = write_values row ++ rows_bytes rows

-- The header of a table: the count of its columns, their names, their types.
abbrev pub header_bytes : List (String × String) → List ℕ
header_bytes columns =
    write_varuint (length columns)
    ++ write_names (map (λ (c : String × String). c.0) columns)
    ++ write_names (map (λ (c : String × String). c.1) columns)

types-columns :
    (debug : String → String)
    → write_types debug column_names
      ≡ ok (write_names (map (λ (c : String × String). c.1) column_types))
unfolding write_types write_names clickhouse_type_for_column
types-columns debug = refl

rows-write :
    (config : LogsAdapterConfig) (rs : List DecodedLogRecord)
    → write_rows 18 (map (λ (r : DecodedLogRecord). log_row r config) rs)
      ≡ ok (rows_bytes (map (λ (r : DecodedLogRecord). log_row r config) rs))
unfolding write_rows log_row
rows-write config [] = refl
rows-write config (r ∷ rs) =
    ap (λ rows. rows >>= λ rest. ok (write_values (log_row r config) ++ rest))
      (rows-write config rs)

serialize-eq-ok :
    (debug : String → String) (c : InsertChunk) (types rows : List ℕ)
    → write_types debug c.columns ≡ ok types
    → write_rows (length c.columns) c.rows ≡ ok rows
    → serialize debug c
      ≡ ok (write_varuint (length c.columns) ++ write_names c.columns ++ types ++ rows)
unfolding serialize
serialize-eq-ok debug c types rows h k = rw (h, k) refl

emit-serializes :
    (debug : String → String) (p : Planning) (slice : List DecodedLogRecord) (i : ℕ)
    → serialize debug (emit p slice i)
      ≡ ok (header_bytes column_types ++ rows_bytes (emit p slice i).rows)
unfolding emit write_names
emit-serializes debug p slice i =
    serialize-eq-ok debug (emit p slice i) _ _ (types-columns debug) (rows-write p.config slice)

bounded-serializes :
    (debug : String → String) (p : Planning) (cs : List InsertChunk)
    → All (IsBounded p) cs
    → All
        (λ (c : InsertChunk).
          serialize debug c ≡ ok (header_bytes column_types ++ rows_bytes c.rows))
        cs
bounded-serializes debug p [] h = tt
bounded-serializes debug p (c ∷ cs) ((slice, (i, e, some_rows, fits)), h) = (
  subst
      (λ (c : InsertChunk). serialize debug c ≡ ok (header_bytes column_types ++ rows_bytes c.rows))
      (sym e) (emit-serializes debug p slice i),
  bounded-serializes debug p cs h,
)

-- Every chunk of a plan serializes.
pub plan-serialize :
    (debug : String → String) (a : OtlpLogsClickHouseAdapter) (size : ℕ)
    (batch : ClickHouseAdapterBatch DecodedLogRecord) (cs : List InsertChunk)
    → plan a size batch ≡ ok cs
    → All
        (λ (c : InsertChunk).
          serialize debug c ≡ ok (header_bytes column_types ++ rows_bytes c.rows))
        cs
plan-serialize debug a size batch cs h =
    bounded-serializes debug (planning_of a size batch (sort_by_key batch.records)) cs
      (plan-IsBounded a size batch cs h)

-- The ClickHouse type that the comments of `write_row_binary` give to the encoding of a value.
abbrev pub type_of : RowValue → String
type_of (RowValue.string s) = "String"
type_of (RowValue.low_cardinality_string s) = "LowCardinality(String)"
type_of (RowValue.uint8 v) = "UInt8"
type_of (RowValue.int32 v) = "Int32"
type_of (RowValue.uint32 v) = "UInt32"
type_of (RowValue.uint64 v) = "UInt64"
type_of (RowValue.int64 v) = "Int64"
type_of (RowValue.date_time64_nanos ns) = "DateTime64(9)"
type_of (RowValue.nullable_date_time64_nanos o) = "Nullable(DateTime64(9))"
type_of (RowValue.string_map m) = "Map(LowCardinality(String), String)"

-- The header announces the chunk's columns, and for every row the types of its values.
abbrev pub IsDescribed : InsertChunk → Type 0
IsDescribed c =
    (map (λ (t : String × String). t.0) column_types ≡ c.columns)
    × All
        (λ (row : List RowValue). map type_of row ≡ map (λ (t : String × String). t.1) column_types)
        c.rows

rows-IsDescribed :
    (config : LogsAdapterConfig) (rs : List DecodedLogRecord)
    → All
        (λ (row : List RowValue). map type_of row ≡ map (λ (t : String × String). t.1) column_types)
        (map (λ (r : DecodedLogRecord). log_row r config) rs)
unfolding log_row
rows-IsDescribed config [] = tt
rows-IsDescribed config (r ∷ rs) = (refl, rows-IsDescribed config rs)

emit-IsDescribed :
    (p : Planning) (slice : List DecodedLogRecord) (i : ℕ) → IsDescribed (emit p slice i)
unfolding emit
emit-IsDescribed p slice i = (refl, rows-IsDescribed p.config slice)

bounded-IsDescribed :
    (p : Planning) (cs : List InsertChunk) → All (IsBounded p) cs → All IsDescribed cs
bounded-IsDescribed p [] h = tt
bounded-IsDescribed p (c ∷ cs) ((slice, (i, e, some_rows, fits)), h) =
    (subst IsDescribed (sym e) (emit-IsDescribed p slice i), bounded-IsDescribed p cs h)

-- Every chunk of a plan serializes: to the header of `column_types` and the values of its rows in order.
-- The header is right for the chunk: it names the chunk's columns, and gives each column the type by which
-- the value of every row in that column is encoded.
pub plan-IsDescribed :
    (debug : String → String) (a : OtlpLogsClickHouseAdapter) (size : ℕ)
    (batch : ClickHouseAdapterBatch DecodedLogRecord) (cs : List InsertChunk)
    → plan a size batch ≡ ok cs
    → All
        (λ (c : InsertChunk).
          serialize debug c ≡ ok (header_bytes column_types ++ rows_bytes c.rows))
        cs
      × All IsDescribed cs
plan-IsDescribed debug a size batch cs h = (
  plan-serialize debug a size batch cs h,
  bounded-IsDescribed (planning_of a size batch (sort_by_key batch.records)) cs
      (plan-IsBounded a size batch cs h),
)
