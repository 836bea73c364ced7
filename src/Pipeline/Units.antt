-- ===== src/Pipeline/Units.antt =====
-- What is known of a unit at each stage of the workers (runtime.rs), and of the messages to the actor.
use opendata_contrib.Common.{
  ℕ, ◌≤◌, ◌≡◌, sym, ap, ◌∙◌, subst, String, Bool, true, false, some, List, [], ◌∷◌, ◌++◌, ok, err,
  All, Any, All-append, Any-append_left, Any-append_right, inl, inr, u64_max, u32_max, arith,
  if◌then◌else◌, some_unique,
}
use opendata_contrib.Error.{RuntimeResult}
use opendata_contrib.Options.{RuntimeOptions, SourceBackpressureOptions}
use opendata_contrib.Actor.{WriteCompletion, committed_report, fatal_completion}
use opendata_contrib.Ack.Spec.{registers, completes}
use opendata_contrib.Ack.Spec as Spec
use opendata_contrib.Budget.{SourceByteBudget, ByteReservation}
use opendata_contrib.Decode.{Decoder, DecodeOutcome, live, dry_run, decode_one, outcome}
use opendata_contrib.Decode.Laws.{decode_one-IsDecoded, decode_one-live, IsDecoded}
use opendata_contrib.Pipeline.{
  AdmittedDescriptor, FetchedBatch, SinkCommitEnvelope, Ending, passed, replied, fetch_ending,
  decode_ending, writer_report,
}
use opendata_contrib.Retry.{
  Call, wrote, checked, Round, WriteAttempt, WriteSuccess, fresh, verified, write_with_retry,
}
use opendata_contrib.Retry.Rounds.{IsSuccess, IsAbout, Agrees}
use opendata_contrib.Retry.Laws.{IsDone, write_with_retry-IsDone}
use opendata_contrib.Sink.{CommitIdentity, SinkCommit, DecodedBatch, build_commit}
use opendata_contrib.Source.{SourceBatch}

-- The identity of a commit of the range to the sink.
abbrev pub IsIdentity : String → ℕ → ℕ → CommitIdentity → Type 0
IsIdentity sink_id low high i = (i.range.low ≡ low) × (i.range.high ≡ high) × (i.sink ≡ sink_id)

abbrev pub identity_of : Call → CommitIdentity
identity_of (wrote c r) = c.identity
identity_of (checked i r) = i

-- The sink answered that the range is committed.
abbrev pub Backs : String → ℕ → ℕ → Call → Type 0
Backs sink_id low high call = IsSuccess call × IsIdentity sink_id low high (identity_of call)

abbrev pub Backed : String → List Call → ℕ → ℕ → Type 0
Backed sink_id log low high = Any (Backs sink_id low high) log

abbrev pub FitsAdmitted : AdmittedDescriptor → Type 0
FitsAdmitted u = u.descriptor.sequence ≤ u64_max

abbrev pub FitsFetched : FetchedBatch → Type 0
FitsFetched u = u.admitted_sequence ≤ u64_max

-- The commit of an envelope is about the range that the envelope reports.
abbrev pub FitsEnvelope : String → SinkCommitEnvelope → Type 0
FitsEnvelope sink_id u = IsIdentity sink_id u.low u.high u.commit.identity × (u.high ≤ u64_max)

-- A commit that is reported to the actor is in the sink.
abbrev pub Reported : String → List Call → WriteCompletion → Type 0
Reported sink_id log (committed_report low high rows) =
    Backed sink_id log low high × (high ≤ u64_max)
Reported sink_id log (fatal_completion e) = Unit

-- A commit that the coordinator was told of is in the sink.
abbrev pub Told : String → List Call → Spec.Call → Type 0
Told sink_id log (registers low high) = Unit
Told sink_id log (completes low high) = Backed sink_id log low high

abbrev pub FitsEnding : {T : Type 0} → (T → Type 0) → String → List Call → Ending T → Type 0
FitsEnding P sink_id log (passed u) = P u
FitsEnding P sink_id log (replied c r) = Reported sink_id log c

pub All-remove :
    {A : Type 0} (P : A → Type 0) (xs ys : List A) (u : A)
    → All P (xs ++ u ∷ ys)
    → P u × All P (xs ++ ys)
All-remove P [] ys u h = h
All-remove P (x ∷ xs) ys u h = let rest = All-remove P xs ys u h.1 in (rest.0, (h.0, rest.1))

pub All-snoc :
    {A : Type 0} (P : A → Type 0) (xs : List A) (u : A) → All P xs → P u → All P (xs ++ u ∷ [])
All-snoc P xs u h k = All-append P xs (u ∷ []) h (k, tt)

-- What was answered stays answered.
pub All-Reported :
    (sink_id : String) (log more : List Call) (cs : List WriteCompletion)
    → All (Reported sink_id log) cs
    → All (Reported sink_id (log ++ more)) cs
All-Reported sink_id log more [] h = tt
All-Reported sink_id log more (committed_report low high rows ∷ cs) h = (
  (Any-append_left (Backs sink_id low high) log more h.0.0, h.0.1),
  All-Reported sink_id log more cs h.1,
)
All-Reported sink_id log more (fatal_completion e ∷ cs) h =
    (tt, All-Reported sink_id log more cs h.1)

pub All-Told :
    (sink_id : String) (log more : List Call) (cs : List Spec.Call)
    → All (Told sink_id log) cs
    → All (Told sink_id (log ++ more)) cs
All-Told sink_id log more [] h = tt
All-Told sink_id log more (registers low high ∷ cs) h = (tt, All-Told sink_id log more cs h.1)
All-Told sink_id log more (completes low high ∷ cs) h =
    (Any-append_left (Backs sink_id low high) log more h.0, All-Told sink_id log more cs h.1)

pub fetch_ending-Fits :
    (sink_id source_id : String) (log : List Call) (u : AdmittedDescriptor)
    (answer : RuntimeResult SourceBatch) (is_open : Bool)
    → FitsAdmitted u
    → FitsEnding FitsFetched sink_id log (fetch_ending source_id u answer is_open)
unfolding fetch_ending
fetch_ending-Fits sink_id source_id log u (err e) is_open h = tt
fetch_ending-Fits sink_id source_id log u (ok b) true h = h
fetch_ending-Fits sink_id source_id log u (ok b) false h = tt

module _ (decoder : Decoder) (options : RuntimeOptions) (sink_id : String)
    (wet : options.dry_run ≡ false) where
  never_dry :
      (batch : SourceBatch) (seq : ℕ) (bp : SourceBackpressureOptions) (b : SourceByteBudget)
      (r : ByteReservation) (low high rows : ℕ)
      → (decode_one decoder options sink_id batch seq bp b r).0 ≡ ok (dry_run low high rows)
      → ⊥
  unfolding IsDecoded
  never_dry batch seq bp b r low high rows h = not_dry (
      subst
        (λ o.
          IsDecoded decoder options sink_id batch seq bp b r
            (o, (decode_one decoder options sink_id batch seq bp b r).1))
        h (decode_one-IsDecoded decoder options sink_id batch seq bp b r))
    where
      live_outcome : (d : DecodedBatch) → dry_run low high rows ≡ outcome options sink_id d → ⊥
      live_outcome d e = dry_ne_live (e ∙ ap pick wet)
        where
          pick : Bool → DecodeOutcome
          pick x =
              if x
              then dry_run d.low_sequence d.high_sequence d.records.record_count
              else live (build_commit sink_id d.low_sequence d.high_sequence d) d.low_sequence
                  d.high_sequence

          dry_ne_live : dry_run low high rows ≡ pick false → ⊥
          dry_ne_live q = cc

      not_dry :
          IsDecoded decoder options sink_id batch seq bp b r
            (ok (dry_run low high rows), (decode_one decoder options sink_id batch seq bp b r).1)
          → ⊥
      not_dry (d, a, e, k) = live_outcome d e

  pub decode_ending-Fits :
      (source_id : String) (log : List Call) (batch : SourceBatch) (seq : ℕ)
      (bp : SourceBackpressureOptions) (b : SourceByteBudget) (r r' : ByteReservation)
      (is_open : Bool) (o : RuntimeResult DecodeOutcome)
      → (decode_one decoder options sink_id batch seq bp b r).0 ≡ o
      → seq ≤ u64_max
      → FitsEnding (FitsEnvelope sink_id) sink_id log (decode_ending source_id seq r' o is_open)
  unfolding decode_ending
  decode_ending-Fits source_id log batch seq bp b r r' is_open (err e) h le = tt
  decode_ending-Fits source_id log batch seq bp b r r' is_open (ok (dry_run low high rows)) h le =
      absurd (never_dry batch seq bp b r low high rows h)
  decode_ending-Fits source_id log batch seq bp b r r' false (ok (live c low high)) h le = tt
  decode_ending-Fits source_id log batch seq bp b r r' true (ok (live c low high)) h le =
      let l = decode_one-live decoder options sink_id batch seq bp b r c low high h in
      ((l.2 ∙ sym l.0, l.3 ∙ sym l.1, l.6), omega (arith, l.1, le))

-- A success among the calls about a commit is one about its range.
success_backs :
    (sink_id : String) (low high : ℕ) (commit : SinkCommit) (calls : List Call)
    → IsIdentity sink_id low high commit.identity
    → All (IsAbout commit) calls
    → Any IsSuccess calls
    → Backed sink_id calls low high
success_backs sink_id low high commit [] i a h = h
success_backs sink_id low high commit (c ∷ calls) i a (inr h) =
    inr (success_backs sink_id low high commit calls i a.1 h)
success_backs sink_id low high commit (wrote k r ∷ calls) i a (inl h) =
    inl (h, subst (λ k'. IsIdentity sink_id low high k'.identity) (sym a.0) i)
success_backs sink_id low high commit (checked k r ∷ calls) i a (inl h) =
    inl (h, subst (IsIdentity sink_id low high) (sym a.0) i)

-- What the writer reports is in the sink: the calls of the commit say so.
pub writer_report-Reported :
    (sink_id : String) (most : ℕ) (u : SinkCommitEnvelope) (env : ℕ → Round)
    (attempt : WriteAttempt) (calls log : List Call)
    → most ≤ u32_max
    → FitsEnvelope sink_id u
    → write_with_retry most u.commit env ≡ (some attempt, calls)
    → Reported sink_id (log ++ calls) (writer_report u attempt.inner)
unfolding writer_report
writer_report-Reported sink_id most u env attempt calls log le f h =
    reported attempt.inner
      (agreed (subst (IsDone u.commit most) h (write_with_retry-IsDone most u.commit env le)))
  where
    agreed :
        IsDone u.commit most (some attempt, calls)
        → Agrees attempt.inner calls × All (IsAbout u.commit) calls
    agreed d = (subst (λ a. Agrees a.inner calls) (sym (some_unique d.returned)) d.agrees, d.about)

    backed :
        Any IsSuccess calls × All (IsAbout u.commit) calls
        → Backed sink_id (log ++ calls) u.low u.high
    backed (s, a) =
        Any-append_right (Backs sink_id u.low u.high) log calls
          (success_backs sink_id u.low u.high u.commit calls f.0 a s)

    reported :
        (inner : RuntimeResult WriteSuccess)
        → Agrees inner calls × All (IsAbout u.commit) calls
        → Reported sink_id (log ++ calls) (writer_report u inner)
    reported (ok (fresh result)) a = (backed a, f.1)
    reported (ok verified) a = (backed a, f.1)
    reported (err e) a = tt
