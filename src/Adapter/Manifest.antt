-- ===== src/Adapter/Manifest.antt =====
-- When `plan` (adapter/logs.rs) refuses a batch: exactly when its records come from several manifests.
use opendata_contrib.Common.{
  ℕ, ◌≡◌, ◌↔◌, refl, sym, ap, String, Option, none, some, List, [], ◌∷◌, ok, Bool-cases, inl, inr,
  All, str_eq, str_eq_iff, subst,
}
use opendata_contrib.Adapter.{InsertChunk, ClickHouseAdapterBatch}
use opendata_contrib.Adapter.Plan.{
  Planning, OtlpLogsClickHouseAdapter, plan_chunks, plan_sorted, plan, planned, planning, mismatch,
}
use opendata_contrib.Adapter.Sort.{sort_by_key, All-sort_by_key, sort_by_key-All}
use opendata_contrib.Logs.{DecodedLogRecord}

-- Every record names the manifest.
abbrev pub IsOf : String → List DecodedLogRecord → Type 0
IsOf manifest_path = All (λ r. r.source.manifest_path ≡ manifest_path)

mismatch-IsOf :
    (manifest_path : String) (rs : List DecodedLogRecord)
    → mismatch manifest_path rs ≡ none
    → IsOf manifest_path rs
unfolding mismatch
mismatch-IsOf m [] h = tt
mismatch-IsOf m (r ∷ rs) h = elim (Bool-cases (str_eq r.source.manifest_path m)) [
  | inl t ↦ ((str_eq_iff r.source.manifest_path m).0 t, mismatch-IsOf m rs (rw t at h))
  | inr f ↦ absurd (found (rw f at h))
]
  where
    found : some r ≡ none → ⊥
    found e = cc

IsOf-mismatch :
    (manifest_path : String) (rs : List DecodedLogRecord)
    → IsOf manifest_path rs
    → mismatch manifest_path rs ≡ none
unfolding mismatch
IsOf-mismatch m [] h = refl
IsOf-mismatch m (r ∷ rs) h =
    rw ((str_eq_iff r.source.manifest_path m).1 (h.0)) (IsOf-mismatch m rs h.1)

-- A list of one manifest is one of the manifest of its first record.
first_manifest :
    (m : String) (r : DecodedLogRecord) (rs : List DecodedLogRecord)
    → IsOf m (r ∷ rs)
    → IsOf r.source.manifest_path (r ∷ rs)
first_manifest m r rs h = subst (λ n. IsOf n (r ∷ rs)) (sym h.0) h

planned-none :
    (p : Planning) (records : List DecodedLogRecord) (o : Option DecodedLogRecord)
    {cs : List InsertChunk}
    → planned p records o ≡ ok cs
    → o ≡ none
planned-none p records none h = refl
planned-none p records (some x) h = cc

plan_sorted-accepts :
    (a : OtlpLogsClickHouseAdapter) (size : ℕ) (batch : ClickHouseAdapterBatch DecodedLogRecord)
    (records : List DecodedLogRecord)
    → ((cs : List InsertChunk) × (plan_sorted a size batch records ≡ ok cs))
      ↔ ((m : String) × IsOf m records)
unfolding plan_sorted
plan_sorted-accepts a size batch [] = (λ h. ("", tt), λ h. ([], refl))
plan_sorted-accepts a size batch (r ∷ rs) = (
  λ h. (m, mismatch-IsOf m (r ∷ rs) (planned-none p (r ∷ rs) (mismatch m (r ∷ rs)) h.1)),
  λ h. (
    plan_chunks p [] 0 0 (r ∷ rs),
    ap (planned p (r ∷ rs)) (IsOf-mismatch m (r ∷ rs) (first_manifest h.0 r rs h.1)),
  ),
)
  where
    m : String
    m = r.source.manifest_path

    p : Planning
    p = planning a size batch m

-- `plan` makes chunks exactly of the batches the records of which all name one manifest, the empty batch
-- among them; any other is refused.
pub plan_accepts :
    (a : OtlpLogsClickHouseAdapter) (size : ℕ) (batch : ClickHouseAdapterBatch DecodedLogRecord)
    → ((cs : List InsertChunk) × (plan a size batch ≡ ok cs))
      ↔ ((m : String) × IsOf m batch.records)
unfolding plan
plan_accepts a size batch = (λ h. after (sorted.0 h), λ h. sorted.1 (before h))
  where
    sorted :
        ((cs : List InsertChunk) × (plan_sorted a size batch (sort_by_key batch.records) ≡ ok cs))
        ↔ ((m : String) × IsOf m (sort_by_key batch.records))
    sorted = plan_sorted-accepts a size batch (sort_by_key batch.records)

    after : (m : String) × IsOf m (sort_by_key batch.records) → (m : String) × IsOf m batch.records
    after (m, h) = (m, sort_by_key-All (λ r. r.source.manifest_path ≡ m) batch.records h)

    before : (m : String) × IsOf m batch.records → (m : String) × IsOf m (sort_by_key batch.records)
    before (m, h) = (m, All-sort_by_key (λ r. r.source.manifest_path ≡ m) batch.records h)
