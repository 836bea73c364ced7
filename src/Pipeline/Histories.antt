-- ===== src/Pipeline/Histories.antt =====
-- The calls of the coordinator that the steps of the actor (runtime.rs) add to its history.
use opendata_contrib.Common.{
  ℕ, ◌≤◌, ◌≡◌, refl, sym, ap, ◌∙◌, subst, String, Option, some, List, [], ◌∷◌, ◌++◌, ok, err, All,
  u64_max, after,
}
use opendata_contrib.Error.{RuntimeResult, RuntimeError}
use opendata_contrib.Options.{RuntimeOptions}
use opendata_contrib.Actor.{Actor, WriteCompletion, committed_report, fatal_completion, complete}
use opendata_contrib.Actor.Acks.{advanced, complete_coordinator}
use opendata_contrib.Actor.Admission.{register_all, registered, registering}
use opendata_contrib.Ack.{AckCoordinator, new, register_pending, mark_committed, advance_frontier}
use opendata_contrib.Ack.Refine.{run_coordinator, step_coordinator, complete_range}
use opendata_contrib.Ack.Simulation.{InRange}
use opendata_contrib.Ack.Spec.{registers, completes}
use opendata_contrib.Ack.Spec as Spec
use opendata_contrib.Pipeline.Sound.{History}
use opendata_contrib.Pipeline.Units.{Reported, Told, All-snoc}
use opendata_contrib.Retry.{Call}
use opendata_contrib.Source.{ConsumerOps, SourceBatchDescriptor}

run_coordinator-snoc :
    (c : AckCoordinator) (cs : List Spec.Call) (k : Spec.Call)
    → run_coordinator c (cs ++ k ∷ []) ≡ step_coordinator (run_coordinator c cs) k
unfolding run_coordinator
run_coordinator-snoc c [] k = refl
run_coordinator-snoc c (x ∷ cs) k = run_coordinator-snoc (step_coordinator c x) cs k

module _ (sink_id source_id : String) (b : Option ℕ) (log : List Call) where
  -- One more call of the coordinator.
  History-step :
      (c d : AckCoordinator) (k : Spec.Call)
      → d ≡ step_coordinator c k
      → InRange k
      → Told sink_id log k
      → History sink_id source_id b c log
      → History sink_id source_id b d log
  History-step c d k e r t h = record {
    calls = h.calls ++ k ∷ [];
    same =
        e
        ∙ ap (λ x. step_coordinator x k) h.same
        ∙ sym (run_coordinator-snoc (new source_id b) h.calls k);
    in_range = All-snoc InRange h.calls k h.in_range r;
    told = All-snoc (Told sink_id log) h.calls k h.told t;
  }

  History-same :
      (c d : AckCoordinator)
      → d ≡ c
      → History sink_id source_id b c log
      → History sink_id source_id b d log
  History-same c d e h = subst (λ x. History sink_id source_id b x log) (sym e) h

  -- The coordinator after a report that is in the sink.
  completed :
      (c : AckCoordinator) (low high : ℕ)
      → after c (advanced (mark_committed c low high)) ≡ step_coordinator c (completes low high)
  unfolding step_coordinator complete_range
  completed c low high = by_result (mark_committed c low high)
    where
      by_result :
          (r : RuntimeResult AckCoordinator)
          → after c (advanced r)
            ≡ elim r as (λ _. AckCoordinator) [ ok d ↦ advance_frontier d | err e ↦ c ]
      by_result (ok d) = refl
      by_result (err e) = refl

  pub History-complete :
      {C : Type 0} (ops : ConsumerOps C) (options : RuntimeOptions) (a : Actor C)
      (c : WriteCompletion)
      → Reported sink_id log c
      → History sink_id source_id b a.coordinator log
      → History sink_id source_id b (complete ops options a (some c)).1.coordinator log
  History-complete ops options a (committed_report low high rows) r h =
      History-step a.coordinator _ (completes low high)
        (complete_coordinator ops options a low high rows ∙ completed a.coordinator low high) r.1
        r.0 h
  History-complete ops options a (fatal_completion e) r h =
      History-same a.coordinator _ (fatal_keeps e) h
    where
      fatal_keeps :
          (e : RuntimeError)
          → (complete ops options a (some (fatal_completion e))).1.coordinator ≡ a.coordinator
      fatal_keeps e = unfold complete in refl

  pub History-register_all :
      {C : Type 0} (a : Actor C) (ds : List SourceBatchDescriptor)
      → All (λ (d : SourceBatchDescriptor). d.sequence ≤ u64_max) ds
      → History sink_id source_id b a.coordinator log
      → History sink_id source_id b (register_all a ds).1.coordinator log
  unfolding register_all
  History-register_all a [] w h = h
  History-register_all a (d ∷ ds) w h =
      by_result (register_pending a.coordinator d.sequence d.sequence) refl
        (λ c k. History-register_all (registered a c) ds w.1 k)
    where
      by_result :
          (r : RuntimeResult AckCoordinator)
          → register_pending a.coordinator d.sequence d.sequence ≡ r
          → ((c : AckCoordinator)
              → History sink_id source_id b c log
              → History sink_id source_id b (register_all (registered a c) ds).1.coordinator log)
          → History sink_id source_id b (registering a r (λ x. register_all x ds)).1.coordinator log
      by_result (err e) q rest = h
      by_result (ok c) q rest = rest c (
          History-step a.coordinator c (registers d.sequence d.sequence)
            (sym (unfold step_coordinator in ap (after a.coordinator) q)) w.0 tt h)
