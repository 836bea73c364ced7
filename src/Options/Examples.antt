-- ===== src/Options/Examples.antt =====
-- Instances of the theorems on the options (runtime.rs).
use opendata_contrib.Common.{◌≡◌, refl, arith, [], ◌∷◌, ok, some, ◌<◌, u64_max}
use opendata_contrib.Options.{
  RuntimeOptions, default_options, serial, validate_options, backpressure_for,
  effective_retry_max_attempts, default_sink_pool,
}
use opendata_contrib.Options.Laws.{first_admission}
use opendata_contrib.Budget
use opendata_contrib.Budget.{SourceByteBudget, ByteReservation, reserve_round}

-- The override of the source `a` is the serial one.
abbrev overridden : RuntimeOptions
overridden = record default_options { source_overrides = ("a", serial) ∷ [] }

accepted : validate_options overridden "a" ≡ ok tt
unfolding validate_options
accepted = refl

uses_override : (backpressure_for overridden "a").max_inflight_batches ≡ 1
unfolding backpressure_for
uses_override = refl

-- An operator who writes the pool's default of six gets the runtime's three all the same.
explicit_default_ignored :
    effective_retry_max_attempts
      (record default_options { sink = record default_sink_pool { retry_max_attempts = 6 } })
    ≡ 3
unfolding effective_retry_max_attempts
explicit_default_ignored = refl

small : (backpressure_for overridden "a").max_inflight_bytes < u64_max
unfolding backpressure_for
small = omega arith

first_admission_example :
    (b : SourceByteBudget) × (r : ByteReservation) × (reserve_round
        (Budget.new "a" (backpressure_for overridden "a").max_inflight_bytes)
        0
        (backpressure_for overridden "a").estimated_max_batch_bytes
      ≡ some (b, r))
    × (b.in_flight ≡ (backpressure_for overridden "a").estimated_max_batch_bytes)
    × (r.held ≡ (backpressure_for overridden "a").estimated_max_batch_bytes)
first_admission_example = first_admission overridden "a" accepted small
