-- ===== src/Logs/Coordinates.antt =====
-- The coordinates of the decoded records (plugins/opendata-ingest-otel/src/logs.rs): they rise strictly,
-- so that no two records share them, and they name the batch.
use opendata_contrib.Common.{
  ℕ, suc, ◌+◌, ◌*◌, ◌%◌, ◌≡◌, ◌≤◌, refl, sym, ap, ◌∙◌, some, List, [], ◌∷◌, ◌++◌, Result, ok, err,
  u32_max, length, arith, All, All-append, >>=-eq-ok, subst, String, get_elem?, ok_unique, zero,
  some_unique,
}
use opendata_contrib.Adapter.Manifest.{IsOf}
use opendata_contrib.Logs.{DecodedLogRecord, ResourceLogs, Externals}
use opendata_contrib.Logs.Decoder.{log_record, decode_logs}
use opendata_contrib.Logs.Order.{
  PlacedLog, flat, next_index, numbered, entry_logs, all_logs, decode_logs-all_logs,
}
use opendata_contrib.Source.{SourceBatch, SourceEntry}

-- A record's place in the batch: the entry first, then the place in the entry.
abbrev pub rank : DecodedLogRecord → ℕ
rank r = r.source.entry_index * 4294967296 + r.source.record_index

-- The ranks rise strictly, from `lo` on and below `hi`.
abbrev pub Between : ℕ → ℕ → List DecodedLogRecord → Type 0
Between lo hi [] = lo ≤ hi
Between lo hi (r ∷ rs) = (lo ≤ rank r) × Between (rank r + 1) hi rs

-- The entries rise strictly.
abbrev pub Rising : ℕ → List SourceEntry → Type 0
Rising lo [] = Unit
Rising lo (e ∷ es) = (lo ≤ e.entry_index) × Rising (e.entry_index + 1) es

Between-append :
    (lo mid hi : ℕ) (rs ss : List DecodedLogRecord)
    → Between lo mid rs
    → Between mid hi ss
    → Between lo hi (rs ++ ss)
Between-append lo mid hi [] [] h k = omega arith
Between-append lo mid hi [] (s ∷ ss) h k = (omega (arith, k.0), k.1)
Between-append lo mid hi (r ∷ rs) ss h k = (h.0, Between-append (rank r + 1) mid hi rs ss h.1 k)

Between-lower :
    (lo lo' hi : ℕ) (rs : List DecodedLogRecord) → lo ≤ lo' → Between lo' hi rs → Between lo hi rs
Between-lower lo lo' hi [] e h = omega arith
Between-lower lo lo' hi (r ∷ rs) e h = (omega (arith, h.0), h.1)

Between-get :
    (lo hi : ℕ) (rs : List DecodedLogRecord) (k : ℕ) (s : DecodedLogRecord)
    → Between lo hi rs
    → get_elem? rs k ≡ some s
    → lo ≤ rank s
Between-get lo hi [] k s h e = cc
Between-get lo hi (r ∷ rs) zero s h e = at_head (some_unique e) h.0
  where
    at_head : {r s : DecodedLogRecord} → r ≡ s → lo ≤ rank r → lo ≤ rank s
    at_head q le = subst (λ t. lo ≤ rank t) q le
Between-get lo hi (r ∷ rs) (suc k) s h e =
    let later = Between-get (rank r + 1) hi rs k s h.1 e in omega (arith, h.0)

-- Two records of one place are one record of the list.
Between-distinct :
    (lo hi : ℕ) (rs : List DecodedLogRecord) (j k : ℕ) (r s : DecodedLogRecord)
    → Between lo hi rs
    → get_elem? rs j ≡ some r
    → get_elem? rs k ≡ some s
    → rank r ≡ rank s
    → j ≡ k
Between-distinct lo hi [] j k r s h ej ek e = cc
Between-distinct lo hi (t ∷ rs) zero zero r s h ej ek e = refl
Between-distinct lo hi (t ∷ rs) zero (suc k) r s h ej ek e =
    absurd (later (ap rank (some_unique ej)) (Between-get (rank t + 1) hi rs k s h.1 ek))
  where
    later : rank t ≡ rank r → rank t + 1 ≤ rank s → ⊥
    later q le = omega (arith, e)
Between-distinct lo hi (t ∷ rs) (suc j) zero r s h ej ek e =
    absurd (later (ap rank (some_unique ek)) (Between-get (rank t + 1) hi rs j r h.1 ej))
  where
    later : rank t ≡ rank s → rank t + 1 ≤ rank r → ⊥
    later q le = omega (arith, e)
Between-distinct lo hi (t ∷ rs) (suc j) (suc k) r s h ej ek e =
    ap (λ (n : ℕ). suc n) (Between-distinct (rank t + 1) hi rs j k r s h.1 ej ek e)

module _ (x : Externals) (batch : SourceBatch) where
  -- An entry whose request has no more log records than a `u32` counts.
  abbrev pub IsCounted : SourceEntry → Type 0
  IsCounted entry =
      (resources : List ResourceLogs)
      → x.decode_request entry.raw_bytes ≡ ok resources
      → length (flat resources) ≤ u32_max + 1

  numbered-Between :
      (entry : SourceEntry) (i : ℕ) (ps : List PlacedLog)
      → i + length ps ≤ u32_max + 1
      → Between
          (entry.entry_index * 4294967296 + i)
          (entry.entry_index * 4294967296 + 4294967296)
          (numbered x batch entry (i % (u32_max + 1)) ps)
  unfolding log_record
  numbered-Between entry i [] h = omega arith
  numbered-Between entry i (p ∷ ps) h = (
    omega arith,
    subst
        (λ j.
          Between (base + i % (u32_max + 1) + 1) (base + 4294967296) (numbered x batch entry j ps))
        same
        (Between-lower _ (base + (i + 1)) _ _ (omega arith)
          (numbered-Between entry (i + 1) ps (omega arith))),
  )
    where
      base : ℕ
      base = entry.entry_index * 4294967296

      same : (i + 1) % (u32_max + 1) ≡ next_index (i % (u32_max + 1))
      same = omega arith

  entry_logs-eq-ok :
      (entry : SourceEntry) (o : Result String (List ResourceLogs)) (rs : List DecodedLogRecord)
      → entry_logs x batch entry o ≡ ok rs
      → ((resources : List ResourceLogs) × (o ≡ ok resources)
          × (rs ≡ numbered x batch entry 0 (flat resources)))
  entry_logs-eq-ok entry (ok resources) rs h = (resources, refl, ok_unique _ refl h)
  entry_logs-eq-ok entry (err e) rs h = cc

  entry-Between :
      (entry : SourceEntry) (o : Result String (List ResourceLogs)) (rs : List DecodedLogRecord)
      → x.decode_request entry.raw_bytes ≡ o
      → IsCounted entry
      → entry_logs x batch entry o ≡ ok rs
      → Between (entry.entry_index * 4294967296) ((entry.entry_index + 1) * 4294967296) rs
  entry-Between entry o rs e c h =
      let l = entry_logs-eq-ok entry o rs h in
      subst (λ hi. Between (entry.entry_index * 4294967296) hi rs) (omega arith)
        (subst (Between _ _) (sym l.2) (
          Between-lower _ (entry.entry_index * 4294967296 + 0) _ _ (omega arith)
            (numbered-Between entry 0 (flat l.0) (omega (arith, c l.0 (e ∙ l.1))))))

  all_logs-Between :
      (lo : ℕ) (entries : List SourceEntry) (records : List DecodedLogRecord)
      → Rising lo entries
      → All IsCounted entries
      → all_logs x batch entries ≡ ok records
      → (hi : ℕ) × Between (lo * 4294967296) hi records
  all_logs-Between lo [] records r c h =
      (lo * 4294967296, subst (Between _ _) (ok_unique _ h refl) (omega arith))
  all_logs-Between lo (entry ∷ entries) records r c h =
      let o = x.decode_request entry.raw_bytes in
      let first = >>=-eq-ok (entry_logs x batch entry o) _ h in
      let rest = >>=-eq-ok (all_logs x batch entries) _ first.2 in
      let later = all_logs-Between (entry.entry_index + 1) entries rest.0 r.1 c.1 rest.1 in
      (
        later.0,
        subst (Between (lo * 4294967296) later.0) (ok_unique _ rest.2 refl) (
            Between-append _ ((entry.entry_index + 1) * 4294967296) _ first.0 rest.0
              (Between-lower _ (entry.entry_index * 4294967296) _ first.0 (omega (arith, r.0))
                (entry-Between entry o first.0 refl c.0 first.1))
              later.1),
      )

  module _ (P : DecodedLogRecord → Type 0)
      (each : (entry : SourceEntry) (p : PlacedLog) (i : ℕ)
        → P (log_record x batch entry p.resource p.scope p.log i)) where
    numbered-All :
        (entry : SourceEntry) (i : ℕ) (ps : List PlacedLog) → All P (numbered x batch entry i ps)
    numbered-All entry i [] = tt
    numbered-All entry i (p ∷ ps) = (each entry p i, numbered-All entry (next_index i) ps)

    all_logs-All :
        (entries : List SourceEntry) (records : List DecodedLogRecord)
        → all_logs x batch entries ≡ ok records
        → All P records
    all_logs-All [] records h = subst (All P) (ok_unique _ h refl) tt
    all_logs-All (entry ∷ entries) records h =
        let o = x.decode_request entry.raw_bytes in
        let first = >>=-eq-ok (entry_logs x batch entry o) _ h in
        let rest = >>=-eq-ok (all_logs x batch entries) _ first.2 in
        let l = entry_logs-eq-ok entry o first.0 first.1 in
        subst (All P) (ok_unique _ rest.2 refl) (
          All-append P first.0 rest.0 (subst (All P) (sym l.2) (numbered-All entry 0 (flat l.0)))
            (all_logs-All entries rest.0 rest.1))

  -- The places of the records of a batch rise strictly.
  decode_logs-Between :
      (records : List DecodedLogRecord)
      → decode_logs x batch ≡ ok records
      → Rising 0 batch.entries
      → All IsCounted batch.entries
      → (hi : ℕ) × Between 0 hi records
  decode_logs-Between records h r c =
      all_logs-Between 0 batch.entries records r c (sym (decode_logs-all_logs x batch) ∙ h)

  -- In a batch whose entries have rising indices, with no more log records in an entry than a `u32`
  -- counts, no two decoded records share their entry index and record index.
  pub decode_logs_distinct :
      (records : List DecodedLogRecord) (j k : ℕ) (r s : DecodedLogRecord)
      → decode_logs x batch ≡ ok records
      → Rising 0 batch.entries
      → All IsCounted batch.entries
      → get_elem? records j ≡ some r
      → get_elem? records k ≡ some s
      → r.source.entry_index ≡ s.source.entry_index
      → r.source.record_index ≡ s.source.record_index
      → j ≡ k
  decode_logs_distinct records j k r s h rise c ej ek e f =
      let b = decode_logs-Between records h rise c in
      Between-distinct 0 b.0 records j k r s b.1 ej ek (omega arith)

  -- Every decoded record names the batch's manifest and its sequence, so that the adapter accepts the
  -- records of a batch.
  pub decode_logs-IsOf :
      (records : List DecodedLogRecord)
      → decode_logs x batch ≡ ok records
      → IsOf batch.manifest_path records
        × All (λ r. r.source.buffer_sequence ≡ batch.sequence) records
  unfolding log_record
  decode_logs-IsOf records h =
      let whole = sym (decode_logs-all_logs x batch) ∙ h in
      (
        all_logs-All (λ r. r.source.manifest_path ≡ batch.manifest_path) (λ entry p i. refl)
            batch.entries records whole,
        all_logs-All (λ r. r.source.buffer_sequence ≡ batch.sequence) (λ entry p i. refl)
            batch.entries records whole,
      )
