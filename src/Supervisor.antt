-- ===== src/Supervisor.antt =====
-- The end of `Runtime::run` (runtime/opendata-ingest-runtime/src/runtime.rs): the results of the workers
-- are collected, pool by pool, and merged with the actor's. A join error is the text of the panic.
mod Laws
mod Examples
use opendata_contrib.Common.{String, List, [], ◌∷◌, Result, ok, err}
use opendata_contrib.Error.{RuntimeResult, RuntimeError, pipeline_error, PipelineFault}

-- What `handle.await` returns.
pub data Joined : Type 0 where
  finished : RuntimeResult (Unit {0}) → Joined
  join_error : String → Joined

-- One turn of a pool's loop: a later failure does not replace the first.
unfoldable pub note_result :
    (String → PipelineFault) → RuntimeResult (Unit {0}) → Joined → RuntimeResult (Unit {0})
note_result panicked (err e) j = err e
note_result panicked (ok u) (finished r) = r
note_result panicked (ok u) (join_error text) = err (pipeline_error (panicked text))

unfoldable pub collect_pool :
    (String → PipelineFault) → RuntimeResult (Unit {0}) → List Joined → RuntimeResult (Unit {0})
unfolding note_result
collect_pool panicked acc [] = acc
collect_pool panicked acc (j ∷ js) = collect_pool panicked (note_result panicked acc j) js

-- The `match` on the four results.
unfoldable pub merge_results :
    RuntimeResult (Unit {0})
    → RuntimeResult (Unit {0})
    → RuntimeResult (Unit {0})
    → RuntimeResult (Unit {0})
    → RuntimeResult (Unit {0})
merge_results (err e) fetch decode sink = err e
merge_results (ok u) (err e) decode sink = err e
merge_results (ok u) (ok v) (err e) sink = err e
merge_results (ok u) (ok v) (ok w) (err e) = err e
merge_results (ok u) (ok v) (ok w) (ok x) = ok tt
