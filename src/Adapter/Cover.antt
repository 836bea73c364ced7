-- ===== src/Adapter/Cover.antt =====
-- The chunks of a plan hold every record, once and in key order: what the loop of `plan` (adapter/logs.rs)
-- pushes is its input cut into pieces.
use opendata_contrib.Common.{
  ok_unique, suc, ℕ, ◌+◌, ◌≡◌, refl, sym, ap, ◌∙◌, Option, none, some, List, [], ◌∷◌, ◌++◌, map, ok,
  Bool-cases, inl, inr, length, u32_max, ◌%◌,
}
use mathlib.Core.List.{append_assoc, append-nil, map-append}
use opendata_contrib.Adapter.{RowValue, InsertChunk, ClickHouseAdapterBatch}
use opendata_contrib.Adapter.Plan.{
  Planning, OtlpLogsClickHouseAdapter, log_row, emit, last_chunk, must_flush, plan_chunks,
  plan_sorted, plan, planned, planning, mismatch,
}
use opendata_contrib.Adapter.Sort.{sort_by_key}
use opendata_contrib.Logs.{DecodedLogRecord, approx_size_bytes}

abbrev pub rows_of : List InsertChunk → List (List RowValue)
rows_of [] = []
rows_of (c ∷ cs) = c.rows ++ rows_of cs

pub length-map {ℓ κ} :
    {A : Type ℓ} {B : Type κ} (f : A → B) (xs : List A) → length (map f xs) ≡ length xs
length-map f [] = refl
length-map f (x ∷ xs) = ap suc (length-map f xs)

-- The rows of some records under the plan's configuration.
abbrev pub rows_for : Planning → List DecodedLogRecord → List (List RowValue)
rows_for p records = map (λ r. log_row r p.config) records

last_chunk-rows :
    (p : Planning) (current : List DecodedLogRecord) (i : ℕ)
    → rows_of (last_chunk p current i) ≡ rows_for p current
unfolding emit
last_chunk-rows p [] i = refl
last_chunk-rows p (c ∷ current) i = append-nil _

pub plan_chunks-rows :
    (p : Planning) (current : List DecodedLogRecord) (bytes i : ℕ) (rs : List DecodedLogRecord)
    → rows_of (plan_chunks p current bytes i rs) ≡ rows_for p (current ++ rs)
unfolding plan_chunks emit
plan_chunks-rows p current bytes i [] =
    last_chunk-rows p current i ∙ ap (rows_for p) (sym (append-nil current))
plan_chunks-rows p current bytes i (r ∷ rs) = elim (Bool-cases (must_flush p current bytes r)) [
  | inl full ↦ rw full (
      ap (λ rows. rows_for p current ++ rows)
        (plan_chunks-rows p (r ∷ []) (0 + approx_size_bytes p.struct_size r)
          ((i + 1) % (u32_max + 1)) rs)
      ∙ sym (map-append (λ s. log_row s p.config) current (r ∷ rs)))
  | inr fits ↦ rw fits (
      plan_chunks-rows p (current ++ r ∷ []) (bytes + approx_size_bytes p.struct_size r) i rs
      ∙ ap (rows_for p) (append_assoc current (r ∷ []) rs))
]

-- A plan that is made comes from the loop over the sorted records.
pub planned-eq-ok :
    (p : Planning) (records : List DecodedLogRecord) (o : Option DecodedLogRecord)
    {cs : List InsertChunk}
    → planned p records o ≡ ok cs
    → cs ≡ plan_chunks p [] 0 0 records
planned-eq-ok p records none h = cc
planned-eq-ok p records (some x) h = cc

pub plan_sorted-rows :
    (a : OtlpLogsClickHouseAdapter) (size : ℕ) (batch : ClickHouseAdapterBatch DecodedLogRecord)
    (records : List DecodedLogRecord) (cs : List InsertChunk)
    → plan_sorted a size batch records ≡ ok cs
    → rows_of cs ≡ map (λ r. log_row r a.config) records
unfolding plan_sorted
plan_sorted-rows a size batch [] cs h = sym (ap rows_of (ok_unique (ok []) h refl))
plan_sorted-rows a size batch (r ∷ rs) cs h =
    ap rows_of (planned-eq-ok p (r ∷ rs) (mismatch r.source.manifest_path (r ∷ rs)) h)
    ∙ plan_chunks-rows p [] 0 0 (r ∷ rs)
  where
    p : Planning
    p = planning a size batch r.source.manifest_path

-- The chunks of a plan that `plan` returns hold, one after the other, the row of every record of the
-- batch in the order of the keys: no row is dropped, doubled or moved.
pub plan-rows :
    (a : OtlpLogsClickHouseAdapter) (size : ℕ) (batch : ClickHouseAdapterBatch DecodedLogRecord)
    (cs : List InsertChunk)
    → plan a size batch ≡ ok cs
    → rows_of cs ≡ map (λ r. log_row r a.config) (sort_by_key batch.records)
unfolding plan
plan-rows a size batch cs h = plan_sorted-rows a size batch (sort_by_key batch.records) cs h
