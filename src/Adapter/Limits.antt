-- ===== src/Adapter/Limits.antt =====
-- The bounds of the chunks of a plan (adapter/logs.rs): no chunk is empty, none has more rows than
-- allowed, and only a chunk of one record may have more bytes.
use opendata_contrib.Common.{
  ℕ, ◌+◌, ◌≡◌, ◌≤◌, ◌<◌, refl, sym, ap, ◌∙◌, Bool, true, false, ◌||◌, List, [], ◌∷◌, ◌++◌, ok,
  Bool-cases, inl, inr, ◌⊎◌, length, length-append, arith, max, ltb, u32_max, ◌%◌, All, subst,
}
use opendata_contrib.Adapter.{InsertChunk, ClickHouseAdapterBatch}
use opendata_contrib.Adapter.Plan.{
  Planning, OtlpLogsClickHouseAdapter, emit, must_flush, plan_chunks, plan_sorted, plan, planning,
  mismatch,
}
use opendata_contrib.Adapter.Cover.{planned-eq-ok}
use opendata_contrib.Adapter.Sort.{sort_by_key}
use opendata_contrib.Adapter.Token.{LogsAdapterConfig}
use opendata_contrib.Logs.{DecodedLogRecord, approx_size_bytes, total_size}

-- What holds of the records of a chunk that is closed, and of `current` while it is not empty.
abbrev pub Fits : LogsAdapterConfig → ℕ → List DecodedLogRecord → Type 0
Fits config size slice =
    (length slice ≤ max config.max_chunk_rows 1)
    × ((total_size size slice ≤ max config.max_chunk_bytes 1) ⊎ (length slice ≤ 1))

-- The chunk is that of some records, at least one, which fit.
abbrev pub IsBounded : Planning → InsertChunk → Type 0
IsBounded p c =
    (slice : List DecodedLogRecord) × ((i : ℕ) × (c ≡ emit p slice i)
      × (0 < length slice)
      × Fits p.config p.struct_size slice)

total_size-append :
    (size : ℕ) (rs ss : List DecodedLogRecord)
    → total_size size (rs ++ ss) ≡ total_size size rs + total_size size ss
unfolding total_size
total_size-append size [] ss = omega arith
total_size-append size (r ∷ rs) ss = omega (arith, total_size-append size rs ss)

total_size-one :
    (size : ℕ) (r : DecodedLogRecord) → total_size size (r ∷ []) ≡ approx_size_bytes size r
unfolding total_size
total_size-one size r = omega arith

must_flush-nonempty :
    (p : Planning) (current : List DecodedLogRecord) (bytes : ℕ) (r : DecodedLogRecord)
    → must_flush p current bytes r ≡ true
    → 0 < length current
unfolding must_flush
must_flush-nonempty p [] bytes r h = cc
must_flush-nonempty p (c ∷ current) bytes r h = omega arith

Fits-one :
    (config : LogsAdapterConfig) (size : ℕ) (r : DecodedLogRecord) → Fits config size (r ∷ [])
Fits-one config size r = (omega arith, inr (omega arith))

Fits-push :
    (p : Planning) (current : List DecodedLogRecord) (r : DecodedLogRecord)
    → must_flush p current (total_size p.struct_size current) r ≡ false
    → Fits p.config p.struct_size (current ++ r ∷ [])
unfolding must_flush
Fits-push p [] r h = Fits-one p.config p.struct_size r
Fits-push p (c ∷ current) r h = (
  rows _ (length (c ∷ current)) _ (length-append (c ∷ current) (r ∷ [])) (ltb-or-left _ _ _ h),
  inl (
      bytes _ _ _ _ _ (total_size-append p.struct_size (c ∷ current) (r ∷ []))
        (total_size-one p.struct_size r) (ltb-or-right _ _ _ h)),
)
  where
    ltb-or-left : (a b : ℕ) (t : Bool) → (ltb a b || t) ≡ false → b ≤ a
    ltb-or-left a b t e = ground arith

    ltb-or-right : (s : Bool) (a b : ℕ) → (s || ltb a b) ≡ false → b ≤ a
    ltb-or-right true a b e = cc
    ltb-or-right false a b e = ground arith

    rows : (m n k : ℕ) → m ≡ n + 1 → n + 1 ≤ k → m ≤ k
    rows m n k e le = omega arith

    bytes : (t m n d k : ℕ) → t ≡ m + n → n ≡ d → m + d ≤ k → t ≤ k
    bytes t m n d k e f le = omega arith

plan_chunks-IsBounded :
    (p : Planning) (current : List DecodedLogRecord) (bytes i : ℕ) (rs : List DecodedLogRecord)
    → bytes ≡ total_size p.struct_size current
    → Fits p.config p.struct_size current
    → All (IsBounded p) (plan_chunks p current bytes i rs)
unfolding plan_chunks
plan_chunks-IsBounded p [] bytes i [] e h = tt
plan_chunks-IsBounded p (c ∷ current) bytes i [] e h =
    ((c ∷ current, (i, refl, omega arith, h)), tt)
plan_chunks-IsBounded p current bytes i (r ∷ rs) e h =
    elim (Bool-cases (must_flush p current bytes r)) [
      | inl full ↦ rw full (
        (current, (i, refl, must_flush-nonempty p current bytes r full, h)),
        plan_chunks-IsBounded p (r ∷ []) (0 + approx_size_bytes p.struct_size r)
            ((i + 1) % (u32_max + 1)) rs (omega (arith, total_size-one p.struct_size r))
            (Fits-one p.config p.struct_size r),
      )
      | inr fits ↦ rw fits (
          plan_chunks-IsBounded p (current ++ r ∷ []) (bytes + approx_size_bytes p.struct_size r) i
            rs
            (omega (
              arith,
              e,
              total_size-append p.struct_size current (r ∷ []),
              total_size-one p.struct_size r,
            ))
            (Fits-push p current r (ap (λ b. must_flush p current b r) (sym e) ∙ fits)))
    ]

-- The planning of a batch, once its records are in order.
abbrev pub planning_of :
    OtlpLogsClickHouseAdapter
    → ℕ
    → ClickHouseAdapterBatch DecodedLogRecord
    → List DecodedLogRecord
    → Planning
planning_of a size batch [] = planning a size batch ""
planning_of a size batch (r ∷ rs) = planning a size batch r.source.manifest_path

-- A plan that is made is that of the loop.
pub plan-eq-ok :
    (a : OtlpLogsClickHouseAdapter) (size : ℕ) (batch : ClickHouseAdapterBatch DecodedLogRecord)
    (records : List DecodedLogRecord) (cs : List InsertChunk)
    → plan_sorted a size batch records ≡ ok cs
    → cs ≡ plan_chunks (planning_of a size batch records) [] 0 0 records
unfolding plan_sorted plan_chunks
plan-eq-ok a size batch [] cs h = cc
plan-eq-ok a size batch (r ∷ rs) cs h =
    planned-eq-ok (planning a size batch r.source.manifest_path) (r ∷ rs)
      (mismatch r.source.manifest_path (r ∷ rs)) h

-- Every chunk of a plan is the chunk of at least one record and of at most `max_chunk_rows` (at least
-- one), the sizes of which stay within `max_chunk_bytes` (at least one) unless the record is the only one.
pub plan-IsBounded :
    (a : OtlpLogsClickHouseAdapter) (size : ℕ) (batch : ClickHouseAdapterBatch DecodedLogRecord)
    (cs : List InsertChunk)
    → plan a size batch ≡ ok cs
    → All (IsBounded (planning_of a size batch (sort_by_key batch.records))) cs
unfolding plan total_size
plan-IsBounded a size batch cs h =
    subst (All (IsBounded p)) (sym (plan-eq-ok a size batch (sort_by_key batch.records) cs h)) (
      plan_chunks-IsBounded p [] 0 0 (sort_by_key batch.records) refl
        (omega arith, inr (omega arith)))
  where
    p : Planning
    p = planning_of a size batch (sort_by_key batch.records)
