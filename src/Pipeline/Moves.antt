-- ===== src/Pipeline/Moves.antt =====
-- Every step of the system of one source (runtime.rs) keeps the invariant.
use opendata_contrib.Pipeline.{AdmittedDescriptor}
use opendata_contrib.Pipeline.Histories.{History-complete, History-register_all}
use opendata_contrib.Pipeline.Sends.{Sends, all_sent, lost, send_all, sent_first, sent_of}
use opendata_contrib.Common.{
  ℕ, ◌≤◌, ◌≡◌, refl, subst, String, false, Option, some, List, [], ◌∷◌, ◌++◌, ok, err, All,
  All-append, u64_max, u32_max, length, after, ◌-◌, zero, suc, none,
}
use opendata_contrib.Error.{RuntimeResult}
use opendata_contrib.Options.{
  RuntimeOptions, SourceBackpressureOptions, effective_retry_max_attempts,
}
use opendata_contrib.Actor.{Actor, WriteCompletion, complete}
use opendata_contrib.Actor.Acks.{IsSafe, complete-IsSafe}
use opendata_contrib.Actor.Admission.{Gates, open_gates, truncate_gates, register_all}
use opendata_contrib.Actor.Run.{register_all-IsSafe}
use opendata_contrib.Budget.{SourceByteBudget, ByteReservation}
use opendata_contrib.Decode.{Decoder}
use opendata_contrib.Pipeline.Sound.{
  History, IsSound, released-IsSound, take_descriptor-IsSound, take_fetched-IsSound,
  take_commit-IsSound, end_fetch-IsSound, end_decode-IsSound, end_write-IsSound,
}
use opendata_contrib.Pipeline.Steps.{
  Pipeline, Step, Reach, sending, polled, admit, end_receive, here, next, admits, takes_descriptor,
  fetches, takes_fetched, decodes, takes_commit, writes, settles, receives, aborts_fetch,
  aborts_decode, drop_unit, after_sends, end_actor, receives_none, aborts_actor, finishes,
}
use opendata_contrib.Pipeline.Units.{
  FitsAdmitted, FitsFetched, FitsEnvelope, Reported, All-remove, fetch_ending-Fits,
  decode_ending-Fits, writer_report-Reported,
}
use opendata_contrib.Source.{ConsumerOps, SourceBatchDescriptor, BufferSource}

sent_first-Fits :
    (u : AdmittedDescriptor) (o : Sends)
    → FitsAdmitted u
    → All FitsAdmitted (sent_of o)
    → All FitsAdmitted (sent_of (sent_first u o))
sent_first-Fits u (all_sent us) h k = (h, k)
sent_first-Fits u (lost us seq rs) h k = (h, k)

-- The descriptors that the send pass sends.
send_all-Fits :
    (ds : List SourceBatchDescriptor) (rs : List ByteReservation) (taken : ℕ)
    → All (λ (d : SourceBatchDescriptor). d.sequence ≤ u64_max) ds
    → All FitsAdmitted (sent_of (send_all ds rs taken))
unfolding send_all
send_all-Fits [] rs taken h = tt
send_all-Fits (d ∷ ds) [] taken h = tt
send_all-Fits (d ∷ ds) (r ∷ rs) zero h = tt
send_all-Fits (d ∷ ds) (r ∷ rs) (suc taken) h =
    sent_first-Fits (record { descriptor = d; reservation = r }) (send_all ds rs taken) h.0
      (send_all-Fits ds rs taken h.1)

module _ {C : Type 0} (sink_id source_id : String) (b : Option ℕ) where
  after_sends-IsSound :
      (s : Pipeline C) (g : Gates) (a : Actor C) (o : Sends)
      → IsSound sink_id source_id b s
      → All FitsAdmitted (sent_of o)
      → IsSafe a
      → History sink_id source_id b a.coordinator s.log
      → IsSound sink_id source_id b (after_sends source_id s g a o)
  after_sends-IsSound s g a (all_sent us) h w k i = record {
    descriptors = All-append FitsAdmitted s.descriptors us h.descriptors w;
    fetching = h.fetching;
    fetched = h.fetched;
    decoding = h.decoding;
    commits = h.commits;
    writing = h.writing;
    completions = h.completions;
    safe = k;
    history = i;
  }
  after_sends-IsSound s g a (lost us seq rs) h w k i = record {
    descriptors = All-append FitsAdmitted s.descriptors us h.descriptors w;
    fetching = h.fetching;
    fetched = h.fetched;
    decoding = h.decoding;
    commits = h.commits;
    writing = h.writing;
    completions = h.completions;
    safe = k;
    history = i;
  }

  sending-IsSound :
      (taken : ℕ) (s : Pipeline C) (g : Gates) (ds : List SourceBatchDescriptor)
      (r : RuntimeResult (Unit {0}) × Actor C)
      → IsSound sink_id source_id b s
      → All (λ (d : SourceBatchDescriptor). d.sequence ≤ u64_max) ds
      → IsSafe r.1
      → History sink_id source_id b r.1.coordinator s.log
      → IsSound sink_id source_id b (sending source_id taken s g ds r)
  sending-IsSound taken s g ds (ok u, a) h w k i =
      after_sends-IsSound s g a (send_all ds g.reservations taken) h
        (send_all-Fits ds g.reservations taken w) k i
  sending-IsSound taken s g ds (err e, a) h w k i = record {
    descriptors = h.descriptors;
    fetching = h.fetching;
    fetched = h.fetched;
    decoding = h.decoding;
    commits = h.commits;
    writing = h.writing;
    completions = h.completions;
    safe = k;
    history = i;
  }

  kept-IsSound :
      (s : Pipeline C) (budget : SourceByteBudget) (permits : ℕ)
      (o : Option (RuntimeResult (Unit {0})))
      → IsSound sink_id source_id b s
      → IsSound sink_id source_id b (record s { budget = budget; permits = permits; returned = o })
  kept-IsSound s budget permits o h = record {
    descriptors = h.descriptors;
    fetching = h.fetching;
    fetched = h.fetched;
    decoding = h.decoding;
    commits = h.commits;
    writing = h.writing;
    completions = h.completions;
    safe = h.safe;
    history = h.history;
  }

  polled-IsSound :
      (taken : ℕ) (s : Pipeline C) (g : Gates) (answer : RuntimeResult (List SourceBatchDescriptor))
      → IsSound sink_id source_id b s
      → ((ds : List SourceBatchDescriptor)
          → answer ≡ ok ds
          → All (λ (d : SourceBatchDescriptor). d.sequence ≤ u64_max) ds)
      → IsSound sink_id source_id b (polled source_id taken s g answer)
  polled-IsSound taken s g (err e) h w = kept-IsSound s _ _ (some (err e)) h
  polled-IsSound taken s g (ok []) h w = kept-IsSound s _ _ s.returned h
  polled-IsSound taken s g (ok (d ∷ ds)) h w =
      sending-IsSound taken s (truncate_gates (length (d ∷ ds)) g g.reservations) (d ∷ ds)
        (register_all s.actor (d ∷ ds)) h (w (d ∷ ds) refl)
        (register_all-IsSafe s.actor (d ∷ ds) (w (d ∷ ds) refl) h.safe)
        (History-register_all sink_id source_id b s.log s.actor (d ∷ ds) (w (d ∷ ds) refl)
          h.history)

  end_actor-IsSound :
      (s : Pipeline C) (r : RuntimeResult (Unit {0}) × BufferSource C)
      → IsSound sink_id source_id b s
      → IsSound sink_id source_id b (end_actor s r)
  unfolding IsSafe
  end_actor-IsSound s (ok u, source) h = record {
    descriptors = h.descriptors;
    fetching = h.fetching;
    fetched = h.fetched;
    decoding = h.decoding;
    commits = h.commits;
    writing = h.writing;
    completions = h.completions;
    safe = h.safe;
    history = h.history;
  }
  end_actor-IsSound s (err e, source) h = record {
    descriptors = h.descriptors;
    fetching = h.fetching;
    fetched = h.fetched;
    decoding = h.decoding;
    commits = h.commits;
    writing = h.writing;
    completions = h.completions;
    safe = h.safe;
    history = h.history;
  }

  end_receive-IsSound :
      (s : Pipeline C) (cs : List WriteCompletion) (r : RuntimeResult (Unit {0}) × Actor C)
      → IsSound sink_id source_id b s
      → All (Reported sink_id s.log) cs
      → IsSafe r.1
      → History sink_id source_id b r.1.coordinator s.log
      → IsSound sink_id source_id b (end_receive s cs r)
  end_receive-IsSound s cs (ok u, a) h w k i = record {
    descriptors = h.descriptors;
    fetching = h.fetching;
    fetched = h.fetched;
    decoding = h.decoding;
    commits = h.commits;
    writing = h.writing;
    completions = w;
    safe = k;
    history = i;
  }
  end_receive-IsSound s cs (err e, a) h w k i = record {
    descriptors = h.descriptors;
    fetching = h.fetching;
    fetched = h.fetched;
    decoding = h.decoding;
    commits = h.commits;
    writing = h.writing;
    completions = w;
    safe = k;
    history = i;
  }

module _ {C : Type 0} (ops : ConsumerOps C) (options : RuntimeOptions)
    (bp : SourceBackpressureOptions) (decoder : Decoder) (source_id sink_id : String)
    (wet : options.dry_run ≡ false) (retries : effective_retry_max_attempts options ≤ u32_max)
    (b : Option ℕ) where
  Step-IsSound :
      {s t : Pipeline C}
      → Step ops options bp decoder source_id sink_id s t
      → IsSound sink_id source_id b s
      → IsSound sink_id source_id b t
  unfolding admit
  Step-IsSound (admits s seen current taken budget r answer idle free round w) h =
      polled-IsSound sink_id source_id b taken s
        (open_gates options bp seen budget (s.permits - 1) r) answer h w
  Step-IsSound (takes_descriptor s u us e) h =
      take_descriptor-IsSound sink_id source_id b s h u us e
  Step-IsSound (fetches s before after u answer is_open e) h =
      let parts = All-remove FitsAdmitted before after u (subst (All FitsAdmitted) e h.fetching) in
      end_fetch-IsSound sink_id source_id b s h (before ++ after) _ parts.1
        (fetch_ending-Fits sink_id source_id s.log u answer is_open parts.0)
  Step-IsSound (takes_fetched s u us e) h = take_fetched-IsSound sink_id source_id b s h u us e
  Step-IsSound (decodes s before after u is_open e) h =
      let parts = All-remove FitsFetched before after u (subst (All FitsFetched) e h.decoding) in
      end_decode-IsSound sink_id source_id b s h (before ++ after) _ _ parts.1 (
        decode_ending-Fits decoder options sink_id wet source_id s.log u.source_batch
          u.admitted_sequence bp s.budget u.reservation _ is_open _ refl parts.0)
  Step-IsSound (takes_commit s u us e) h = take_commit-IsSound sink_id source_id b s h u us e
  Step-IsSound (writes s before after u env attempt calls e w) h =
      let parts =
        All-remove (FitsEnvelope sink_id) before after u
          (subst (All (FitsEnvelope sink_id)) e h.writing) in
      end_write-IsSound sink_id source_id b s h (before ++ after) u attempt calls parts.1 (
        writer_report-Reported sink_id (effective_retry_max_attempts options) u env attempt calls
          s.log retries parts.0 w)
  Step-IsSound (settles s before after r e) h = released-IsSound sink_id source_id b s h _ _ _
  Step-IsSound (receives s c cs idle e) h =
      let parts = subst (All (Reported sink_id s.log)) e h.completions in
      end_receive-IsSound sink_id source_id b s cs (complete ops options s.actor (some c)) h parts.1
        (complete-IsSafe ops options s.actor (some c) h.safe)
        (History-complete sink_id source_id b s.log ops options s.actor c parts.0 h.history)
  Step-IsSound (receives_none s idle e) h =
      end_receive-IsSound sink_id source_id b s [] (complete ops options s.actor none) h tt
        (complete-IsSafe ops options s.actor none h.safe) (unfold complete in h.history)
  Step-IsSound (aborts_actor s idle) h = kept-IsSound sink_id source_id b s _ _ _ h
  Step-IsSound (finishes s idle e) h = end_actor-IsSound sink_id source_id b s _ h
  Step-IsSound (aborts_fetch s before after u e) h =
      let parts = All-remove FitsAdmitted before after u (subst (All FitsAdmitted) e h.fetching) in
      aborted_fetch parts.1 h
    where
      aborted_fetch :
          All FitsAdmitted (before ++ after)
          → IsSound sink_id source_id b s
          → IsSound sink_id source_id b
              (drop_unit (record s { fetching = before ++ after }) u.reservation)
      aborted_fetch p h = record {
        descriptors = h.descriptors;
        fetching = p;
        fetched = h.fetched;
        decoding = h.decoding;
        commits = h.commits;
        writing = h.writing;
        completions = h.completions;
        safe = h.safe;
        history = h.history;
      }
  Step-IsSound (aborts_decode s before after u e) h =
      let parts = All-remove FitsFetched before after u (subst (All FitsFetched) e h.decoding) in
      aborted_decode parts.1 h
    where
      aborted_decode :
          All FitsFetched (before ++ after)
          → IsSound sink_id source_id b s
          → IsSound sink_id source_id b
              (drop_unit (record s { decoding = before ++ after }) u.reservation)
      aborted_decode p h = record {
        descriptors = h.descriptors;
        fetching = h.fetching;
        fetched = h.fetched;
        decoding = p;
        commits = h.commits;
        writing = h.writing;
        completions = h.completions;
        safe = h.safe;
        history = h.history;
      }

  pub Reach-IsSound :
      {s t : Pipeline C}
      → IsSound sink_id source_id b s
      → Reach ops options bp decoder source_id sink_id s t
      → IsSound sink_id source_id b t
  Reach-IsSound h here = h
  Reach-IsSound h (next r st) = Step-IsSound st (Reach-IsSound h r)
