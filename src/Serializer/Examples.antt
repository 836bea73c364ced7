-- ===== src/Serializer/Examples.antt =====
-- Runs of the RowBinary serializer (serializer/rowbinary.rs), and an instance of its theorem.
use opendata_contrib.Adapter.Sort.{key_le}
use opendata_contrib.Common.{◌≡◌, refl, none, List, [], ◌∷◌, ◌++◌, err, ok, All, Result, length}
use opendata_contrib.Common.Int.{negsuc, to_word}
use opendata_contrib.Adapter.{InsertChunk, ClickHouseAdapterBatch, RowValue, AdapterError}
use opendata_contrib.Adapter.Plan.{OtlpLogsClickHouseAdapter, plan}
use opendata_contrib.Adapter.Token.{default_config}
use opendata_contrib.Logs.{DecodedLogRecord, approx_size_bytes, text_len}
use opendata_contrib.Logs.Samples.{sample_at}
use opendata_contrib.Serializer.{
  write_row_binary, write_rows, le_bytes, row_length, column_types, clickhouse_type_for_column,
  no_entry, serialize,
}
use opendata_contrib.Serializer.Plans.{plan-IsDescribed, IsDescribed, header_bytes, rows_bytes}

lowest_first : write_row_binary (RowValue.uint32 16909060) ≡ 4 ∷ 3 ∷ 2 ∷ 1 ∷ []
unfolding write_row_binary le_bytes
lowest_first = refl

minus_one : write_row_binary (RowValue.int32 (negsuc 0)) ≡ 255 ∷ 255 ∷ 255 ∷ 255 ∷ []
unfolding write_row_binary le_bytes to_word
minus_one = refl

null_marker : write_row_binary (RowValue.nullable_date_time64_nanos none) ≡ 1 ∷ []
unfolding write_row_binary
null_marker = refl

map_entries :
    write_row_binary (RowValue.string_map (("k", "ab") ∷ [])) ≡ 1 ∷ 1 ∷ 107 ∷ 2 ∷ 97 ∷ 98 ∷ []
unfolding write_row_binary
map_entries = refl

short_row : write_rows 2 ((RowValue.uint8 1 ∷ []) ∷ []) ≡ err (row_length 1 2)
unfolding write_rows
short_row = refl

unknown_column : clickhouse_type_for_column (λ s. s) "x" ≡ err (no_entry (λ s. s) "x")
unfolding clickhouse_type_for_column
unknown_column = refl

-- One row to a chunk.
abbrev adapter : OtlpLogsClickHouseAdapter
adapter = record { config = record default_config { max_chunk_rows = 1 }; fingerprint = "f0" }

abbrev batch : ClickHouseAdapterBatch DecodedLogRecord
batch = record {
  identity = record {
    source = "s";
    sink = "c";
    range = record { low = 7; high = 7 };
    schema_version = 1;
  };
  records = sample_at 7 0 0 ∷ sample_at 7 0 1 ∷ [];
  bytes = 512;
}

abbrev chunks_of : Result AdapterError (List InsertChunk) → List InsertChunk
chunks_of (ok cs) = cs
chunks_of (err e) = []

abbrev chunks : List InsertChunk
chunks = chunks_of (plan adapter 200 batch)

made : plan adapter 200 batch ≡ ok chunks
unfolding plan key_le
made = refl

two_chunks : length chunks ≡ 2
unfolding plan key_le approx_size_bytes text_len
two_chunks = refl

plan-IsDescribed_example :
    All
      (λ (c : InsertChunk).
        serialize (λ s. s) c ≡ ok (header_bytes column_types ++ rows_bytes c.rows))
      chunks
    × All IsDescribed chunks
plan-IsDescribed_example = plan-IsDescribed (λ s. s) adapter 200 batch chunks made
