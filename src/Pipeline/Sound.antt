-- ===== src/Pipeline/Sound.antt =====
-- The invariant of the system of one source (runtime.rs) in a run that is not dry, and what each thing
-- that a worker does has to do with it.
use opendata_contrib.Common.{ℕ, ◌≡◌, subst, String, Option, List, ◌∷◌, ◌++◌, All}
use opendata_contrib.Actor.Acks.{IsSafe}
use opendata_contrib.Ack.{AckCoordinator, new}
use opendata_contrib.Ack.Refine.{run_coordinator}
use opendata_contrib.Ack.Simulation.{InRange}
use opendata_contrib.Ack.Spec as Spec
use opendata_contrib.Budget.{SourceByteBudget, ByteReservation}
use opendata_contrib.Pipeline.{
  AdmittedDescriptor, FetchedBatch, SinkCommitEnvelope, Ending, passed, replied, writer_report,
}
use opendata_contrib.Pipeline.Steps.{
  Pipeline, take_descriptor, take_fetched, take_commit, end_fetch, end_decode, end_write,
}
use opendata_contrib.Pipeline.Units.{
  FitsAdmitted, FitsFetched, FitsEnvelope, FitsEnding, Reported, Told, All-snoc, All-Reported,
  All-Told,
}
use opendata_contrib.Retry.{Call, WriteAttempt}

-- The calls that the coordinator has had since it was opened, each completion of them in the sink.
pub record History (sink_id source_id : String) (b : Option ℕ) (c : AckCoordinator)
    (log : List Call) : Type 0 where
  pub calls : List Spec.Call
  pub same : c ≡ run_coordinator (new source_id b) calls
  pub in_range : All InRange calls
  pub told : All (Told sink_id log) calls

pub record IsSound {C : Type 0} (sink_id source_id : String) (b : Option ℕ) (s : Pipeline C)
    : Type 0 where
  pub descriptors : All FitsAdmitted s.descriptors
  pub fetching : All FitsAdmitted s.fetching
  pub fetched : All FitsFetched s.fetched
  pub decoding : All FitsFetched s.decoding
  pub commits : All (FitsEnvelope sink_id) s.commits
  pub writing : All (FitsEnvelope sink_id) s.writing
  pub completions : All (Reported sink_id s.log) s.completions
  pub safe : IsSafe s.actor
  pub history : History sink_id source_id b s.actor.coordinator s.log

module _ {C : Type 0} (sink_id source_id : String) (b : Option ℕ) (s : Pipeline C)
    (h : IsSound sink_id source_id b s) where
  -- Only the budget and the permits change.
  pub released-IsSound :
      (budget : SourceByteBudget) (permits : ℕ) (settling : List ByteReservation)
      → IsSound sink_id source_id b
          (record s { budget = budget; permits = permits; settling = settling })
  released-IsSound budget permits settling = record {
    descriptors = h.descriptors;
    fetching = h.fetching;
    fetched = h.fetched;
    decoding = h.decoding;
    commits = h.commits;
    writing = h.writing;
    completions = h.completions;
    safe = h.safe;
    history = h.history;
  }

  pub take_descriptor-IsSound :
      (u : AdmittedDescriptor) (us : List AdmittedDescriptor)
      → s.descriptors ≡ u ∷ us
      → IsSound sink_id source_id b (take_descriptor s u us)
  unfolding take_descriptor
  take_descriptor-IsSound u us e =
      let d = subst (All FitsAdmitted) e h.descriptors in
      record {
        descriptors = d.1;
        fetching = (d.0, h.fetching);
        fetched = h.fetched;
        decoding = h.decoding;
        commits = h.commits;
        writing = h.writing;
        completions = h.completions;
        safe = h.safe;
        history = h.history;
      }

  pub take_fetched-IsSound :
      (u : FetchedBatch) (us : List FetchedBatch)
      → s.fetched ≡ u ∷ us
      → IsSound sink_id source_id b (take_fetched s u us)
  unfolding take_fetched
  take_fetched-IsSound u us e =
      let d = subst (All FitsFetched) e h.fetched in
      record {
        descriptors = h.descriptors;
        fetching = h.fetching;
        fetched = d.1;
        decoding = (d.0, h.decoding);
        commits = h.commits;
        writing = h.writing;
        completions = h.completions;
        safe = h.safe;
        history = h.history;
      }

  pub take_commit-IsSound :
      (u : SinkCommitEnvelope) (us : List SinkCommitEnvelope)
      → s.commits ≡ u ∷ us
      → IsSound sink_id source_id b (take_commit s u us)
  unfolding take_commit
  take_commit-IsSound u us e =
      let d = subst (All (FitsEnvelope sink_id)) e h.commits in
      record {
        descriptors = h.descriptors;
        fetching = h.fetching;
        fetched = h.fetched;
        decoding = h.decoding;
        commits = d.1;
        writing = (d.0, h.writing);
        completions = h.completions;
        safe = h.safe;
        history = h.history;
      }

  pub end_fetch-IsSound :
      (others : List AdmittedDescriptor) (ending : Ending FetchedBatch)
      → All FitsAdmitted others
      → FitsEnding FitsFetched sink_id s.log ending
      → IsSound sink_id source_id b (end_fetch s others ending)
  end_fetch-IsSound others (passed f) o k = record {
    descriptors = h.descriptors;
    fetching = o;
    fetched = All-snoc FitsFetched s.fetched f h.fetched k;
    decoding = h.decoding;
    commits = h.commits;
    writing = h.writing;
    completions = h.completions;
    safe = h.safe;
    history = h.history;
  }
  end_fetch-IsSound others (replied c r) o k = record {
    descriptors = h.descriptors;
    fetching = o;
    fetched = h.fetched;
    decoding = h.decoding;
    commits = h.commits;
    writing = h.writing;
    completions = All-snoc (Reported sink_id s.log) s.completions c h.completions k;
    safe = h.safe;
    history = h.history;
  }

  pub end_decode-IsSound :
      (others : List FetchedBatch) (budget : SourceByteBudget) (ending : Ending SinkCommitEnvelope)
      → All FitsFetched others
      → FitsEnding (FitsEnvelope sink_id) sink_id s.log ending
      → IsSound sink_id source_id b (end_decode s others budget ending)
  end_decode-IsSound others budget (passed e) o k = record {
    descriptors = h.descriptors;
    fetching = h.fetching;
    fetched = h.fetched;
    decoding = o;
    commits = All-snoc (FitsEnvelope sink_id) s.commits e h.commits k;
    writing = h.writing;
    completions = h.completions;
    safe = h.safe;
    history = h.history;
  }
  end_decode-IsSound others budget (replied c r) o k = record {
    descriptors = h.descriptors;
    fetching = h.fetching;
    fetched = h.fetched;
    decoding = o;
    commits = h.commits;
    writing = h.writing;
    completions = All-snoc (Reported sink_id s.log) s.completions c h.completions k;
    safe = h.safe;
    history = h.history;
  }

  pub end_write-IsSound :
      (others : List SinkCommitEnvelope) (u : SinkCommitEnvelope) (attempt : WriteAttempt)
      (calls : List Call)
      → All (FitsEnvelope sink_id) others
      → Reported sink_id (s.log ++ calls) (writer_report u attempt.inner)
      → IsSound sink_id source_id b (end_write s others u attempt calls)
  end_write-IsSound others u attempt calls o k = record {
    descriptors = h.descriptors;
    fetching = h.fetching;
    fetched = h.fetched;
    decoding = h.decoding;
    commits = h.commits;
    writing = o;
    completions =
        All-snoc (Reported sink_id (s.log ++ calls)) s.completions (writer_report u attempt.inner)
          (All-Reported sink_id s.log calls s.completions h.completions) k;
    safe = h.safe;
    history = record {
      calls = h.history.calls;
      same = h.history.same;
      in_range = h.history.in_range;
      told = All-Told sink_id s.log calls h.history.calls h.history.told;
    };
  }
