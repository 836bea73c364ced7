-- ===== src/Decode/Laws.antt =====
-- What the decode stage (runtime.rs) accepts, and what a refusal leaves.
use opendata_contrib.Common.{
  ℕ, ◌≤◌, ◌≡◌, refl, sym, ap, subst, ◌∙◌, Bool, false, not, ◌||◌, String, List, [], ◌∷◌, ok, err,
  ◌>>◌, fail_if, ltb, ◌==◌, if◌then◌else◌, arith, >>-eq-ok, >>=-eq-ok, fail_if-eq-ok, ◌⊎◌, inl, inr,
  Bool-cases,
}
use opendata_contrib.Error.{RuntimeResult, RuntimeError}
use opendata_contrib.Options.{RuntimeOptions, SourceBackpressureOptions, fault_limit}
use opendata_contrib.Sink.{DecodedBatch, SinkCommit, build_commit}
use opendata_contrib.Source.{SourceBatch}
use opendata_contrib.Budget.{SourceByteBudget, ByteReservation, reconcile}
use opendata_contrib.Decode.{
  Decoder, DecodeOutcome, live, dry_run, metadata_guard, one_batch, actual_bytes, accept_batch,
  outcome, finish_decode, decode_one,
}

-- The checks that a batch has passed.
pub record IsAccepted (decoder : Decoder) (source_batch : SourceBatch) (admitted_sequence : ℕ)
    (bp : SourceBackpressureOptions) (decoded : DecodedBatch) : Type 0 where
  pub only : decoder.decode source_batch ≡ ok (decoded ∷ [])
  pub starts : decoded.low_sequence ≡ admitted_sequence
  pub ends : decoded.high_sequence ≡ admitted_sequence
  pub bounded : actual_bytes decoded ≤ fault_limit bp

one_batch-eq-ok : (bs : List DecodedBatch) (d : DecodedBatch) → one_batch bs ≡ ok d → bs ≡ d ∷ []
unfolding one_batch
one_batch-eq-ok [] d h = cc
one_batch-eq-ok (b ∷ []) d h = cc
one_batch-eq-ok (b ∷ c ∷ bs) d h = cc

range_guard :
    (low high admitted : ℕ)
    → (not (low == admitted) || not (high == admitted)) ≡ false
    → (low ≡ admitted) × (high ≡ admitted)
range_guard low high admitted h = ground arith

size_guard : (limit bytes : ℕ) → ltb limit bytes ≡ false → bytes ≤ limit
size_guard limit bytes h = ground arith

guarded :
    {A : Type 0} (t : Bool) (e : RuntimeError) (k : RuntimeResult A) {a : A}
    → (fail_if t e >> k) ≡ ok a
    → (t ≡ false) × (k ≡ ok a)
guarded t e k h = let (x, y) = >>-eq-ok (fail_if t e) k h in (fail_if-eq-ok t e x, y)

sized :
    (bp : SourceBackpressureOptions) (b d : DecodedBatch) (e : RuntimeError)
    → (fail_if (ltb (fault_limit bp) (actual_bytes b)) e >> ok b) ≡ ok d
    → (b ≡ d) × (actual_bytes b ≤ fault_limit bp)
sized bp b d e h =
    let (x, y) = guarded (ltb (fault_limit bp) (actual_bytes b)) e (ok b) h in
    (cc, size_guard (fault_limit bp) (actual_bytes b) x)

accept_batch-IsAccepted :
    (decoder : Decoder) (source_batch : SourceBatch) (admitted_sequence : ℕ)
    (bp : SourceBackpressureOptions) (decoded : DecodedBatch)
    → accept_batch decoder source_batch admitted_sequence bp ≡ ok decoded
    → IsAccepted decoder source_batch admitted_sequence bp decoded
unfolding accept_batch
accept_batch-IsAccepted decoder source_batch admitted_sequence bp decoded h =
    let (_, h1) = >>-eq-ok (metadata_guard decoder source_batch.entries) _ h in
    let (bs, d, h2) = >>=-eq-ok (decoder.decode source_batch) _ h1 in
    let (b, o, h3) = >>=-eq-ok (one_batch bs) _ h2 in
    let (r, h4) = guarded _ _ _ h3 in
    let (e, z) = sized bp b decoded _ h4 in
    accepted b e (d ∙ ap ok (one_batch-eq-ok bs b o)) (range_guard _ _ admitted_sequence r) z
  where
    accepted :
        (b : DecodedBatch)
        → b ≡ decoded
        → decoder.decode source_batch ≡ ok (b ∷ [])
        → (b.low_sequence ≡ admitted_sequence) × (b.high_sequence ≡ admitted_sequence)
        → actual_bytes b ≤ fault_limit bp
        → IsAccepted decoder source_batch admitted_sequence bp decoded
    accepted b e o r z =
        subst (IsAccepted decoder source_batch admitted_sequence bp) e
          (record { only = o; starts = r.0; ends = r.1; bounded = z })

-- The two ends of `decode_one`: a batch that passed every check, with the reservation reconciled to its
-- bytes, or a refusal with the budget and the reservation as they were.
unfoldable pub IsDecoded :
    Decoder
    → RuntimeOptions
    → String
    → SourceBatch
    → ℕ
    → SourceBackpressureOptions
    → SourceByteBudget
    → ByteReservation
    → RuntimeResult DecodeOutcome × (SourceByteBudget × ByteReservation)
    → Type 0
IsDecoded decoder options sink_id source_batch admitted_sequence bp b r (ok o, s) =
    (decoded : DecodedBatch) × IsAccepted decoder source_batch admitted_sequence bp decoded
    × (o ≡ outcome options sink_id decoded)
    × (s ≡ reconcile b r (actual_bytes decoded))
IsDecoded decoder options sink_id source_batch admitted_sequence bp b r (err e, s) = s ≡ (b, r)

-- `decode_one` succeeds only on one batch that covers exactly the admitted sequence and stays within the
-- oversize limit, which is tested before the reservation grows; the reservation is then reconciled to
-- the batch's bytes. Every refusal leaves the budget and the reservation as they were.
pub decode_one-IsDecoded :
    (decoder : Decoder) (options : RuntimeOptions) (sink_id : String) (source_batch : SourceBatch)
    (admitted_sequence : ℕ) (bp : SourceBackpressureOptions) (b : SourceByteBudget)
    (r : ByteReservation)
    → IsDecoded decoder options sink_id source_batch admitted_sequence bp b r
        (decode_one decoder options sink_id source_batch admitted_sequence bp b r)
unfolding decode_one IsDecoded finish_decode
decode_one-IsDecoded decoder options sink_id source_batch admitted_sequence bp b r =
    finished (accept_batch decoder source_batch admitted_sequence bp) refl
  where
    finished :
        (o : RuntimeResult DecodedBatch)
        → accept_batch decoder source_batch admitted_sequence bp ≡ o
        → IsDecoded decoder options sink_id source_batch admitted_sequence bp b r
            (finish_decode options sink_id b r o)
    finished (ok d) e =
        (d, accept_batch-IsAccepted decoder source_batch admitted_sequence bp d e, refl, refl)
    finished (err x) e = refl

reconcile-held : (b : SourceByteBudget) (r : ByteReservation) (n : ℕ) → (reconcile b r n).1.held ≡ n
unfolding reconcile
reconcile-held b r n = ground arith

decoded-held :
    (decoder : Decoder) (options : RuntimeOptions) (sink_id : String) (source_batch : SourceBatch)
    (admitted_sequence : ℕ) (bp : SourceBackpressureOptions) (b : SourceByteBudget)
    (r : ByteReservation) (o : RuntimeResult DecodeOutcome) (s : SourceByteBudget × ByteReservation)
    → IsDecoded decoder options sink_id source_batch admitted_sequence bp b r (o, s)
    → (s.1.held ≤ fault_limit bp) ⊎ (s.1.held ≡ r.held)
unfolding IsDecoded
decoded-held decoder options sink_id source_batch admitted_sequence bp b r (ok o) s (d, a, _, e) =
    inl
      (held-below (s.1.held) (ap (λ x. x.1.held) e ∙ reconcile-held b r (actual_bytes d)) a.bounded)
  where
    held-below : (n : ℕ) {m k : ℕ} → n ≡ m → m ≤ k → n ≤ k
    held-below n e le = omega arith
decoded-held decoder options sink_id source_batch admitted_sequence bp b r (err x) s e =
    inr (ap (λ x. x.1.held) e)

-- What a reservation can grow to while its batch is decoded: if it held at most the limit of an oversize
-- batch before, it holds at most that limit after, whatever the decoder returns.
pub decode_one-bounded :
    (decoder : Decoder) (options : RuntimeOptions) (sink_id : String) (source_batch : SourceBatch)
    (admitted_sequence : ℕ) (bp : SourceBackpressureOptions) (b : SourceByteBudget)
    (r : ByteReservation)
    → r.held ≤ fault_limit bp
    → (decode_one decoder options sink_id source_batch admitted_sequence bp b r).1.1.held
      ≤ fault_limit bp
decode_one-bounded decoder options sink_id source_batch admitted_sequence bp b r le = either (
    decoded-held decoder options sink_id source_batch admitted_sequence bp b r _ _
      (decode_one-IsDecoded decoder options sink_id source_batch admitted_sequence bp b r))
  where
    either : {n : ℕ} → (n ≤ fault_limit bp) ⊎ (n ≡ r.held) → n ≤ fault_limit bp
    either (inl h) = h
    either (inr e) = omega arith

outcome-live :
    (options : RuntimeOptions) (sink_id : String) (d : DecodedBatch) (c : SinkCommit) (low high : ℕ)
    → live c low high ≡ outcome options sink_id d
    → (c ≡ build_commit sink_id d.low_sequence d.high_sequence d)
      × (low ≡ d.low_sequence)
      × (high ≡ d.high_sequence)
outcome-live options sink_id d c low high h = elim (Bool-cases options.dry_run) [
  | inl t ↦ absurd (dry (h ∙ ap pick t))
  | inr f ↦ same (h ∙ ap pick f)
]
  where
    pick : Bool → DecodeOutcome
    pick x =
        if x
        then dry_run d.low_sequence d.high_sequence d.records.record_count
        else live (build_commit sink_id d.low_sequence d.high_sequence d) d.low_sequence
            d.high_sequence

    dry : live c low high ≡ dry_run d.low_sequence d.high_sequence d.records.record_count → ⊥
    dry e = cc

    same :
        live c low high
          ≡ live
              (build_commit sink_id d.low_sequence d.high_sequence d)
              d.low_sequence
              d.high_sequence
        → (c ≡ build_commit sink_id d.low_sequence d.high_sequence d)
          × (low ≡ d.low_sequence)
          × (high ≡ d.high_sequence)
    same e = (cc, cc, cc)

-- The commit that a live decode hands to the sink covers exactly the admitted sequence, and so does the
-- range reported with it; its source and schema version are those of the batch it carries.
pub decode_one-live :
    (decoder : Decoder) (options : RuntimeOptions) (sink_id : String) (source_batch : SourceBatch)
    (admitted_sequence : ℕ) (bp : SourceBackpressureOptions) (b : SourceByteBudget)
    (r : ByteReservation) (c : SinkCommit) (low high : ℕ)
    → (decode_one decoder options sink_id source_batch admitted_sequence bp b r).0
      ≡ ok (live c low high)
    → (low ≡ admitted_sequence)
      × (high ≡ admitted_sequence)
      × (c.identity.range.low ≡ admitted_sequence)
      × (c.identity.range.high ≡ admitted_sequence)
      × (c.identity.source ≡ c.batch.source)
      × (c.identity.schema_version ≡ c.batch.schema_version)
      × (c.identity.sink ≡ sink_id)
unfolding IsDecoded build_commit
decode_one-live decoder options sink_id source_batch admitted_sequence bp b r c low high h =
    of_outcome (
      subst
        (λ o.
          IsDecoded decoder options sink_id source_batch admitted_sequence bp b r
            (o, (decode_one decoder options sink_id source_batch admitted_sequence bp b r).1))
        h (decode_one-IsDecoded decoder options sink_id source_batch admitted_sequence bp b r))
  where
    of_commit :
        (d : DecodedBatch)
        → IsAccepted decoder source_batch admitted_sequence bp d
        → (c ≡ build_commit sink_id d.low_sequence d.high_sequence d)
          × (low ≡ d.low_sequence)
          × (high ≡ d.high_sequence)
        → (low ≡ admitted_sequence)
          × (high ≡ admitted_sequence)
          × (c.identity.range.low ≡ admitted_sequence)
          × (c.identity.range.high ≡ admitted_sequence)
          × (c.identity.source ≡ c.batch.source)
          × (c.identity.schema_version ≡ c.batch.schema_version)
          × (c.identity.sink ≡ sink_id)
    of_commit d a (e, l, g) = (
      l ∙ a.starts,
      g ∙ a.ends,
      ap (λ x. x.identity.range.low) e ∙ a.starts,
      ap (λ x. x.identity.range.high) e ∙ a.ends,
      ap (λ x. x.identity.source) e ∙ sym (ap (λ x. x.batch.source) e),
      ap (λ x. x.identity.schema_version) e ∙ sym (ap (λ x. x.batch.schema_version) e),
      ap (λ x. x.identity.sink) e,
    )

    of_outcome :
        IsDecoded decoder options sink_id source_batch admitted_sequence bp b r (
          ok (live c low high),
          (decode_one decoder options sink_id source_batch admitted_sequence bp b r).1,
        )
        → (low ≡ admitted_sequence)
          × (high ≡ admitted_sequence)
          × (c.identity.range.low ≡ admitted_sequence)
          × (c.identity.range.high ≡ admitted_sequence)
          × (c.identity.source ≡ c.batch.source)
          × (c.identity.schema_version ≡ c.batch.schema_version)
          × (c.identity.sink ≡ sink_id)
    of_outcome (d, a, o, s) = of_commit d a (outcome-live options sink_id d c low high o)
