-- ===== src/Logs/Examples.antt =====
-- Runs of the decoder of the OTLP logs (plugins/opendata-ingest-otel/src/logs.rs), and instances of its
-- theorems.
use opendata_contrib.Envelope.{decode_one, matches}
use opendata_contrib.Common.{
  ℕ, ◌≡◌, ◌≤◌, ◌+◌, refl, arith, All, length, map, List, [], ◌∷◌, Result, ok, err, get_elem?, some,
  true, false, u32_max, subst, ok_unique,
}
use opendata_contrib.Adapter.Manifest.{IsOf}
use opendata_contrib.Logs.{DecodedLogRecord, approx_size_bytes, text_len}
use opendata_contrib.Logs.Coordinates.{IsCounted, decode_logs_distinct, decode_logs-IsOf}
use opendata_contrib.Logs.Decoder.{decode_logs, accepts, LogsDecodeError}
use opendata_contrib.Logs.Order.{all_logs, flat, decode_logs-all_logs}
use opendata_contrib.Logs.Samples.{sample_externals, sample_batch, sample_entry, sample_at}

-- The records that a decode leaves, or none.
abbrev records_of : Result LogsDecodeError (List DecodedLogRecord) → List DecodedLogRecord
records_of (ok rs) = rs
records_of (err e) = []

abbrev decoded_records : List DecodedLogRecord
decoded_records = records_of (all_logs sample_externals sample_batch sample_batch.entries)

six_records :
    map
      (λ (r : DecodedLogRecord). r.source.record_index)
      (records_of (decode_logs sample_externals sample_batch))
    ≡ 0 ∷ 1 ∷ 2 ∷ 0 ∷ 1 ∷ 2 ∷ []
unfolding decode_logs
six_records = refl

-- The header of the sample entries is that of logs; traces are refused.
accepts_logs : accepts sample_externals (1 ∷ 2 ∷ 1 ∷ 0 ∷ []) ≡ true
unfolding accepts decode_one matches
accepts_logs = refl

refuses_traces : accepts sample_externals (1 ∷ 3 ∷ 1 ∷ 0 ∷ []) ≡ false
unfolding accepts decode_one matches
refuses_traces = refl

sample_size : approx_size_bytes 200 (sample_at 7 0 0) ≡ 200 + 4 + 5 + 3 + 24 + 2 + 5 + 11 + 2
unfolding approx_size_bytes text_len
sample_size = refl

decoded_lem : decode_logs sample_externals sample_batch ≡ ok decoded_records
decoded_lem = decode_logs-all_logs sample_externals sample_batch

decode_logs-all_logs_example :
    decode_logs sample_externals sample_batch
    ≡ all_logs sample_externals sample_batch sample_batch.entries
decode_logs-all_logs_example = decode_logs-all_logs sample_externals sample_batch

counted : (index : ℕ) → IsCounted sample_externals sample_batch (sample_entry index)
counted index rs e =
    subst (λ r. length (flat r) ≤ u32_max + 1)
      (ok_unique (sample_externals.decode_request []) e refl) (omega arith)

abbrev at : ℕ → DecodedLogRecord
at k = elim (get_elem? decoded_records k) [ some r ↦ r | _ ↦ sample_at 0 0 0 ]

decode_logs_distinct_example : ◌≡◌ {A = ℕ} 4 4
decode_logs_distinct_example =
    decode_logs_distinct sample_externals sample_batch decoded_records 4 4 (at 4) (at 4) decoded_lem
      (omega arith) (counted 0, (counted 1, tt)) refl refl refl refl

decode_logs-IsOf_example :
    IsOf "m" decoded_records
    × All (λ (r : DecodedLogRecord). r.source.buffer_sequence ≡ 7) decoded_records
decode_logs-IsOf_example =
    decode_logs-IsOf sample_externals sample_batch decoded_records decoded_lem
