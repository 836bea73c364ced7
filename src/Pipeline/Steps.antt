-- ===== src/Pipeline/Steps.antt =====
-- The tasks of one source of runtime.rs as a system: the channels between them, the units that the
-- workers have in hand, and a step for each thing that a task does between two waits. `settling` are the
-- reservations of units whose message is sent, before they drop. The calls of the sink are logged; those
-- of one commit stand together.
use opendata_contrib.Common.{
  ℕ, ◌+◌, ◌-◌, ◌≤◌, ◌<◌, ◌≡◌, String, Bool, Option, none, some, List, [], ◌∷◌, ◌++◌, ok, err,
  length, All, u64_max, not, if◌then◌else◌,
}
use opendata_contrib.Error.{RuntimeResult, pipeline_error, descriptor_lost, hard_abort}
use opendata_contrib.Options.{
  RuntimeOptions, SourceBackpressureOptions, effective_retry_max_attempts,
}
use opendata_contrib.Actor.{Actor, WriteCompletion, complete, report_pending}
use opendata_contrib.Actor.Admission.{Gates, open_gates, drop_gates, truncate_gates, register_all}
use opendata_contrib.Budget.{
  SourceByteBudget, ByteReservation, fetch, decode, sink_dispatch, reserve_round, attach_stage,
  release,
}
use opendata_contrib.Decode.{Decoder, DecodeOutcome, decode_one}
use opendata_contrib.Pipeline.{
  AdmittedDescriptor, FetchedBatch, SinkCommitEnvelope, Ending, passed, replied, fetch_ending,
  decode_ending, writer_report,
}
use opendata_contrib.Pipeline.Sends.{Sends, all_sent, lost, send_all}
use opendata_contrib.Retry.{Call, Round, WriteAttempt, write_with_retry}
use opendata_contrib.Source.{
  ConsumerOps, BufferSource, SourceBatch, SourceBatchDescriptor, flush_acks,
}

pub record Pipeline (C : Type 0) : Type 0 where
  pub actor : Actor C
  pub budget : SourceByteBudget
  pub permits : ℕ
  pub descriptors : List AdmittedDescriptor
  pub fetching : List AdmittedDescriptor
  pub fetched : List FetchedBatch
  pub decoding : List FetchedBatch
  pub commits : List SinkCommitEnvelope
  pub writing : List SinkCommitEnvelope
  pub settling : List ByteReservation
  pub completions : List WriteCompletion
  pub log : List Call
  pub returned : Option (RuntimeResult (Unit {0}))

module _ {C : Type 0} where
  -- The gates are dropped: their bytes and permits come back.
  abbrev pub without_gates : Pipeline C → Gates → Pipeline C
  without_gates s g = record s {
    permits = (drop_gates g.permits g.budget g.reservations).0;
    budget = (drop_gates g.permits g.budget g.reservations).1;
  }

  -- The send pass is over; after a send that failed the actor returns, and the gates left drop.
  abbrev pub after_sends : String → Pipeline C → Gates → Actor C → Sends → Pipeline C
  after_sends source_id s g a (all_sent us) = record s {
    actor = a;
    permits = g.permits;
    budget = g.budget;
    descriptors = s.descriptors ++ us;
  }
  after_sends source_id s g a (lost us seq rs) =
      record (without_gates s (record g { reservations = rs })) {
        actor = a;
        descriptors = s.descriptors ++ us;
        returned = some (err (pipeline_error (descriptor_lost source_id seq)));
      }

  -- The register and send passes with the gates that are left for the descriptors. A registration that
  -- fails ends the actor, and drops the gates.
  abbrev pub sending :
      String
      → ℕ
      → Pipeline C
      → Gates
      → List SourceBatchDescriptor
      → RuntimeResult (Unit {0}) × Actor C
      → Pipeline C
  sending source_id taken s g ds (ok u, a) =
      after_sends source_id s g a (send_all ds g.reservations taken)
  sending source_id taken s g ds (err e, a) = record (without_gates s g) {
    actor = a;
    returned = some (err e);
  }

  -- What the source answers to the poll.
  abbrev pub polled :
      String → ℕ → Pipeline C → Gates → RuntimeResult (List SourceBatchDescriptor) → Pipeline C
  polled source_id taken s g (err e) = record (without_gates s g) { returned = some (err e) }
  polled source_id taken s g (ok []) = without_gates s g
  polled source_id taken s g (ok (d ∷ ds)) =
      sending source_id taken s (truncate_gates (length (d ∷ ds)) g g.reservations) (d ∷ ds)
        (register_all s.actor (d ∷ ds))

  -- The admission arm, from the gate that it has waited for: a permit and the reservation `r`. The
  -- channel to the fetch workers takes `taken` descriptors before it is closed.
  unfoldable pub admit :
      String
      → ℕ
      → RuntimeOptions
      → SourceBackpressureOptions
      → (ℕ → ℕ)
      → Pipeline C
      → SourceByteBudget
      → ByteReservation
      → RuntimeResult (List SourceBatchDescriptor)
      → Pipeline C
  unfolding open_gates truncate_gates drop_gates register_all send_all
  admit source_id taken options bp seen s b r answer =
      polled source_id taken s (open_gates options bp seen b (s.permits - 1) r) answer

  -- A worker takes a unit from its channel, and counts its bytes for the stage.
  unfoldable pub take_descriptor :
      Pipeline C → AdmittedDescriptor → List AdmittedDescriptor → Pipeline C
  unfolding attach_stage
  take_descriptor s u us = record s {
    descriptors = us;
    fetching =
        record u { reservation = (attach_stage s.budget u.reservation fetch).1 } ∷ s.fetching;
    budget = (attach_stage s.budget u.reservation fetch).0;
  }

  unfoldable pub take_fetched : Pipeline C → FetchedBatch → List FetchedBatch → Pipeline C
  unfolding attach_stage
  take_fetched s u us = record s {
    fetched = us;
    decoding =
        record u { reservation = (attach_stage s.budget u.reservation decode).1 } ∷ s.decoding;
    budget = (attach_stage s.budget u.reservation decode).0;
  }

  unfoldable pub take_commit :
      Pipeline C → SinkCommitEnvelope → List SinkCommitEnvelope → Pipeline C
  unfolding attach_stage
  take_commit s u us = record s {
    commits = us;
    writing =
        record u { reservation = (attach_stage s.budget u.reservation sink_dispatch).1 }
        ∷ s.writing;
    budget = (attach_stage s.budget u.reservation sink_dispatch).0;
  }

  -- A worker is done with a unit that it has in hand; the others stay.
  abbrev pub end_fetch : Pipeline C → List AdmittedDescriptor → Ending FetchedBatch → Pipeline C
  end_fetch s others (passed f) = record s { fetching = others; fetched = s.fetched ++ f ∷ [] }
  end_fetch s others (replied c r) = record s {
    fetching = others;
    completions = s.completions ++ c ∷ [];
    settling = r ∷ s.settling;
  }

  abbrev pub end_decode :
      Pipeline C → List FetchedBatch → SourceByteBudget → Ending SinkCommitEnvelope → Pipeline C
  end_decode s others b (passed e) = record s {
    decoding = others;
    commits = s.commits ++ e ∷ [];
    budget = b;
  }
  end_decode s others b (replied c r) = record s {
    decoding = others;
    completions = s.completions ++ c ∷ [];
    settling = r ∷ s.settling;
    budget = b;
  }

  abbrev pub end_write :
      Pipeline C
      → List SinkCommitEnvelope
      → SinkCommitEnvelope
      → WriteAttempt
      → List Call
      → Pipeline C
  end_write s others u attempt calls = record s {
    writing = others;
    completions = s.completions ++ writer_report u attempt.inner ∷ [];
    settling = u.reservation ∷ s.settling;
    log = s.log ++ calls;
  }

  -- The reservation and the permit of a unit drop.
  abbrev pub drop_unit : Pipeline C → ByteReservation → Pipeline C
  drop_unit s r = record s { budget = release s.budget r; permits = s.permits + 1 }

  abbrev pub end_receive :
      Pipeline C → List WriteCompletion → RuntimeResult (Unit {0}) × Actor C → Pipeline C
  end_receive s cs (ok u, a) = record s { actor = a; completions = cs }
  end_receive s cs (err e, a) = record s { actor = a; completions = cs; returned = some (err e) }

  -- The actor after its loop: the flush of a run that is not dry, the last sample, and `Ok`.
  abbrev pub last_flush :
      ConsumerOps C → RuntimeOptions → BufferSource C → RuntimeResult (Unit {0}) × BufferSource C
  last_flush ops options source =
      if not options.dry_run then flush_acks ops source else (ok tt, source)

  abbrev pub end_actor : Pipeline C → RuntimeResult (Unit {0}) × BufferSource C → Pipeline C
  end_actor s (ok u, source) = record s {
    actor = report_pending (record s.actor { source = source });
    returned = some (ok tt);
  }
  end_actor s (err e, source) = record s {
    actor = record s.actor { source = source };
    returned = some (err e);
  }

module _ {C : Type 0} (ops : ConsumerOps C) (options : RuntimeOptions)
    (bp : SourceBackpressureOptions) (decoder : Decoder) (source_id sink_id : String) where
  abbrev pub decoded :
      Pipeline C → FetchedBatch → RuntimeResult DecodeOutcome × (SourceByteBudget × ByteReservation)
  decoded s u =
      decode_one decoder options sink_id u.source_batch u.admitted_sequence bp s.budget
        u.reservation

  -- The steps of the tasks, in any order. The actor does nothing once it has returned. The relation has
  -- more steps than the code: a message to an actor that has returned is kept, unread, and the guards on
  -- `admission_open`, on whether other tasks still hold a channel, and on `in_flight` before a receive,
  -- are left out.
  pub data Step : Pipeline C → Pipeline C → Type 0 where
    admits :
        (s : Pipeline C) (seen : ℕ → ℕ) (current taken : ℕ) (b : SourceByteBudget)
        (r : ByteReservation) (answer : RuntimeResult (List SourceBatchDescriptor))
        → s.returned ≡ none
        → 0 < s.permits
        → reserve_round s.budget current bp.estimated_max_batch_bytes ≡ some (b, r)
        → ((ds : List SourceBatchDescriptor)
            → answer ≡ ok ds
            → All (λ (d : SourceBatchDescriptor). d.sequence ≤ u64_max) ds)
        → Step s (admit source_id taken options bp seen s b r answer)
    takes_descriptor :
        (s : Pipeline C) (u : AdmittedDescriptor) (us : List AdmittedDescriptor)
        → s.descriptors ≡ u ∷ us
        → Step s (take_descriptor s u us)
    fetches :
        (s : Pipeline C) (before after : List AdmittedDescriptor) (u : AdmittedDescriptor)
        (answer : RuntimeResult SourceBatch) (is_open : Bool)
        → s.fetching ≡ before ++ u ∷ after
        → Step s (end_fetch s (before ++ after) (fetch_ending source_id u answer is_open))
    takes_fetched :
        (s : Pipeline C) (u : FetchedBatch) (us : List FetchedBatch)
        → s.fetched ≡ u ∷ us
        → Step s (take_fetched s u us)
    decodes :
        (s : Pipeline C) (before after : List FetchedBatch) (u : FetchedBatch) (is_open : Bool)
        → s.decoding ≡ before ++ u ∷ after
        → Step s (
            end_decode s (before ++ after) (decoded s u).1.0 (
              decode_ending source_id u.admitted_sequence
                (decoded s u).1.1
                (decoded s u).0
                is_open))
    takes_commit :
        (s : Pipeline C) (u : SinkCommitEnvelope) (us : List SinkCommitEnvelope)
        → s.commits ≡ u ∷ us
        → Step s (take_commit s u us)
    writes :
        (s : Pipeline C) (before after : List SinkCommitEnvelope) (u : SinkCommitEnvelope)
        (env : ℕ → Round) (attempt : WriteAttempt) (calls : List Call)
        → s.writing ≡ before ++ u ∷ after
        → write_with_retry (effective_retry_max_attempts options) u.commit env
          ≡ (some attempt, calls)
        → Step s (end_write s (before ++ after) u attempt calls)
    settles :
        (s : Pipeline C) (before after : List ByteReservation) (r : ByteReservation)
        → s.settling ≡ before ++ r ∷ after
        → Step s (drop_unit (record s { settling = before ++ after }) r)
    receives :
        (s : Pipeline C) (c : WriteCompletion) (cs : List WriteCompletion)
        → s.returned ≡ none
        → s.completions ≡ c ∷ cs
        → Step s (end_receive s cs (complete ops options s.actor (some c)))
    -- The completion channel is empty and closed.
    receives_none :
        (s : Pipeline C)
        → s.returned ≡ none
        → s.completions ≡ []
        → Step s (end_receive s [] (complete ops options s.actor none))
    aborts_actor :
        (s : Pipeline C)
        → s.returned ≡ none
        → Step s (record s { returned = some (err (pipeline_error (hard_abort source_id))) })
    finishes :
        (s : Pipeline C)
        → s.returned ≡ none
        → s.actor.in_flight ≡ 0
        → Step s (end_actor s (last_flush ops options s.actor.source))
    aborts_fetch :
        (s : Pipeline C) (before after : List AdmittedDescriptor) (u : AdmittedDescriptor)
        → s.fetching ≡ before ++ u ∷ after
        → Step s (drop_unit (record s { fetching = before ++ after }) u.reservation)
    aborts_decode :
        (s : Pipeline C) (before after : List FetchedBatch) (u : FetchedBatch)
        → s.decoding ≡ before ++ u ∷ after
        → Step s (drop_unit (record s { decoding = before ++ after }) u.reservation)

  pub data Reach (s : Pipeline C) : Pipeline C → Type 0 where
    here : Reach s s
    next : {t u : Pipeline C} → Reach s t → Step t u → Reach s u

-- A run begins with empty channels and every permit free.
abbrev pub opening : {C : Type 0} → Actor C → SourceByteBudget → ℕ → Pipeline C
opening actor budget permits = record {
  actor = actor;
  budget = budget;
  permits = permits;
  descriptors = [];
  fetching = [];
  fetched = [];
  decoding = [];
  commits = [];
  writing = [];
  settling = [];
  completions = [];
  log = [];
  returned = none;
}
