-- ===== src/Supervisor/Examples.antt =====
-- Runs of the end of `Runtime::run` (runtime.rs), and an instance of its theorem.
use opendata_contrib.Common.{◌≡◌, List, [], ◌∷◌, ◌++◌, ok, err}
use opendata_contrib.Error.{
  sink_error, source_error, fetch_worker_panicked, decode_worker_panicked, writer_worker_panicked,
}
use opendata_contrib.Supervisor.{Joined, finished, join_error, collect_pool, merge_results}
use opendata_contrib.Supervisor.Laws.{first_failure, pool_results, merge_results-first}

abbrev decoders : List Joined
decoders = finished (ok tt) ∷ join_error "boom" ∷ finished (err (source_error "late")) ∷ []

abbrev writers : List Joined
writers = finished (err (sink_error "refused")) ∷ []

merge_results-first_example :
    merge_results
      (ok tt)
      (collect_pool fetch_worker_panicked (ok tt) [])
      (collect_pool decode_worker_panicked (ok tt) decoders)
      (collect_pool writer_worker_panicked (ok tt) writers)
    ≡ first_failure (
        ok tt
        ∷ (pool_results fetch_worker_panicked []
            ++ (pool_results decode_worker_panicked decoders
                ++ pool_results writer_worker_panicked writers)))
merge_results-first_example = merge_results-first (ok tt) [] decoders writers
