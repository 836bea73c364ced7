-- ===== src/Supervisor/Laws.antt =====
-- The result of a run (runtime.rs): the first failure, in the order actor, fetch, decode, writer.
use opendata_contrib.Common.{String, ◌≡◌, refl, sym, ap, ◌∙◌, List, [], ◌∷◌, ◌++◌, ok, err}
use opendata_contrib.Error.{
  RuntimeResult, RuntimeError, pipeline_error, PipelineFault, fetch_worker_panicked,
  decode_worker_panicked, writer_worker_panicked,
}
use opendata_contrib.Supervisor.{Joined, finished, join_error, collect_pool, merge_results}

-- The first failure of a list of results.
abbrev pub first_failure : List (RuntimeResult (Unit {0})) → RuntimeResult (Unit {0})
first_failure [] = ok tt
first_failure (ok u ∷ rs) = first_failure rs
first_failure (err e ∷ rs) = err e

abbrev pub joined_result : (String → PipelineFault) → Joined → RuntimeResult (Unit {0})
joined_result panicked (finished r) = r
joined_result panicked (join_error text) = err (pipeline_error (panicked text))

abbrev pub pool_results : (String → PipelineFault) → List Joined → List (RuntimeResult (Unit {0}))
pool_results panicked [] = []
pool_results panicked (j ∷ js) = joined_result panicked j ∷ pool_results panicked js

-- A pool that has failed keeps its failure.
collect_pool-err :
    (panicked : String → PipelineFault) (e : RuntimeError) (js : List Joined)
    → collect_pool panicked (err e) js ≡ err e
unfolding collect_pool
collect_pool-err panicked e [] = refl
collect_pool-err panicked e (j ∷ js) = collect_pool-err panicked e js

collect_pool-first :
    (panicked : String → PipelineFault) (js : List Joined)
    → collect_pool panicked (ok tt) js ≡ first_failure (pool_results panicked js)
unfolding collect_pool
collect_pool-first panicked [] = refl
collect_pool-first panicked (finished (ok u) ∷ js) = collect_pool-first panicked js
collect_pool-first panicked (finished (err e) ∷ js) = collect_pool-err panicked e js
collect_pool-first panicked (join_error text ∷ js) = collect_pool-err panicked _ js

abbrev or_else : RuntimeResult (Unit {0}) → RuntimeResult (Unit {0}) → RuntimeResult (Unit {0})
or_else (ok u) s = s
or_else (err e) s = err e

first_failure-append :
    (rs ss : List (RuntimeResult (Unit {0})))
    → first_failure (rs ++ ss) ≡ or_else (first_failure rs) (first_failure ss)
first_failure-append [] ss = refl
first_failure-append (ok u ∷ rs) ss = first_failure-append rs ss
first_failure-append (err e ∷ rs) ss = refl

merge_results-or_else :
    (a f d s : RuntimeResult (Unit {0}))
    → merge_results a f d s ≡ or_else a (or_else f (or_else d s))
unfolding merge_results
merge_results-or_else (err e) f d s = refl
merge_results-or_else (ok u) (err e) d s = refl
merge_results-or_else (ok u) (ok v) (err e) s = refl
merge_results-or_else (ok u) (ok v) (ok w) (err e) = refl
merge_results-or_else (ok u) (ok v) (ok w) (ok x) = refl

pools :
    (a f d s f' d' s' : RuntimeResult (Unit {0}))
    → f ≡ f'
    → d ≡ d'
    → s ≡ s'
    → or_else a (or_else f (or_else d s)) ≡ or_else a (or_else f' (or_else d' s'))
pools a f d s f' d' s' x y z = cc

appended :
    (a : RuntimeResult (Unit {0})) (f d s : List (RuntimeResult (Unit {0})))
    → first_failure (a ∷ (f ++ (d ++ s)))
      ≡ or_else a (or_else (first_failure f) (or_else (first_failure d) (first_failure s)))
appended (ok u) f d s =
    first_failure-append f (d ++ s) ∙ ap (or_else (first_failure f)) (first_failure-append d s)
appended (err e) f d s = refl

-- No failure is swallowed: a run returns the first failure among the actor, the fetch workers, the
-- decode workers and the writer workers, in this order and with panics as failures, and it succeeds
-- exactly when none of them has failed.
pub merge_results-first :
    (actor : RuntimeResult (Unit {0})) (fetchers decoders writers : List Joined)
    → merge_results actor
        (collect_pool fetch_worker_panicked (ok tt) fetchers)
        (collect_pool decode_worker_panicked (ok tt) decoders)
        (collect_pool writer_worker_panicked (ok tt) writers)
      ≡ first_failure (
          actor
          ∷ (pool_results fetch_worker_panicked fetchers
              ++ (pool_results decode_worker_panicked decoders
                  ++ pool_results writer_worker_panicked writers)))
merge_results-first actor fetchers decoders writers =
    merge_results-or_else actor _ _ _
    ∙ pools actor _ _ _ _ _ _ (collect_pool-first fetch_worker_panicked fetchers)
        (collect_pool-first decode_worker_panicked decoders)
        (collect_pool-first writer_worker_panicked writers)
    ∙ sym (
        appended actor (pool_results fetch_worker_panicked fetchers)
          (pool_results decode_worker_panicked decoders)
          (pool_results writer_worker_panicked writers))
