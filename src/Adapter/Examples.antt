-- ===== src/Adapter/Examples.antt =====
-- Runs of the adapter of the OTLP logs (plugins/opendata-ingest-clickhouse/src/adapter/logs.rs), and
-- instances of its theorems.
use opendata_contrib.Common.{
  ℕ, ◌≡◌, ◌↔◌, refl, arith, All, map, List, [], ◌∷◌, Result, ok, err, get_elem?, some, none, String,
}
use opendata_contrib.Common.Text.{decimal}
use opendata_contrib.Adapter.{InsertChunk, ClickHouseAdapterBatch, AdapterError, rows_count}
use opendata_contrib.Adapter.Cover.{rows_of, plan-rows}
use opendata_contrib.Adapter.Indices.{plan_tokens_distinct}
use opendata_contrib.Adapter.Limits.{IsBounded, plan-IsBounded, planning_of}
use opendata_contrib.Adapter.Manifest.{IsOf, plan_accepts}
use opendata_contrib.Adapter.Plan.{
  OtlpLogsClickHouseAdapter, plan, log_row, plan_chunks, emit, planning,
}
use opendata_contrib.Adapter.Sort.{sort_by_key, sort_by_key_sorts, IsInOrder, key_le}
use opendata_contrib.Adapter.Token.{Digests, default_config, build_token}
use opendata_contrib.Logs.{DecodedLogRecord, approx_size_bytes, text_len}
use opendata_contrib.Logs.Samples.{sample_at}
use mathlib.Core.List.{Perm}

abbrev digests : Digests
digests = record { sha256 = λ bytes. bytes; hex = λ bytes. "f0" }

-- Two rows to a chunk.
abbrev adapter : OtlpLogsClickHouseAdapter
adapter = record { config = record default_config { max_chunk_rows = 2 }; fingerprint = "f0" }

abbrev records : List DecodedLogRecord
records = sample_at 7 1 0 ∷ sample_at 7 0 1 ∷ sample_at 7 0 0 ∷ []

abbrev batch : ClickHouseAdapterBatch DecodedLogRecord
batch = record {
  identity = record {
    source = "s";
    sink = "c";
    range = record { low = 7; high = 7 };
    schema_version = 1;
  };
  records = records;
  bytes = 768;
}

-- The chunks of a plan, or none.
abbrev chunks_of : Result AdapterError (List InsertChunk) → List InsertChunk
chunks_of (ok cs) = cs
chunks_of (err e) = []

abbrev chunks : List InsertChunk
chunks = chunks_of (plan adapter 200 batch)

two_and_one : map rows_count (chunks_of (plan adapter 200 batch)) ≡ 2 ∷ 1 ∷ []
unfolding plan key_le approx_size_bytes text_len
two_and_one = refl

token_text : build_token "m" default_config "f0" 7 7 1 ≡ "m:responsive.logs:7-7:1:f0:1"
unfolding build_token decimal
token_text = refl

planned : plan adapter 200 batch ≡ ok chunks
unfolding plan key_le
planned = refl

plan-rows_example : rows_of chunks ≡ map (λ r. log_row r adapter.config) (sort_by_key records)
plan-rows_example = plan-rows adapter 200 batch chunks planned

plan-IsBounded_example :
    All (IsBounded (planning_of adapter 200 batch (sort_by_key records))) chunks
plan-IsBounded_example = plan-IsBounded adapter 200 batch chunks planned

abbrev chunk_at : ℕ → InsertChunk
chunk_at k =
    elim (get_elem? (plan_chunks (planning adapter 200 batch "m") [] 0 0 (sort_by_key records)) k) [
      | some c ↦ c
      | none ↦ emit (planning adapter 200 batch "m") [] 0
    ]

second : get_elem? chunks 1 ≡ some (chunk_at 1)
unfolding plan key_le approx_size_bytes text_len
second = refl

plan_tokens_distinct_example : ◌≡◌ {A = ℕ} 1 1
plan_tokens_distinct_example =
    plan_tokens_distinct adapter 200 batch chunks 1 1 (chunk_at 1) (chunk_at 1) planned second
      second (omega arith) (omega arith) refl

plan_accepts_example :
    ((cs : List InsertChunk) × (plan adapter 200 batch ≡ ok cs)) ↔ ((m : String) × IsOf m records)
plan_accepts_example = plan_accepts adapter 200 batch

sort_by_key_sorts_example : IsInOrder (sort_by_key records) × Perm (sort_by_key records) records
sort_by_key_sorts_example = sort_by_key_sorts records
