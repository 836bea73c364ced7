-- ===== src/Options/Laws.antt =====
-- What the validated options of runtime.rs guarantee.
use opendata_contrib.Common.{
  ℕ, ◌≤◌, ◌<◌, ◌≡◌, refl, String, some, List, [], ◌∷◌, arith, ok, >>-eq-ok, str_eq, Bool-cases, inl,
  inr, u64_max, zero, suc,
}
use opendata_contrib.Options.{
  SourceBackpressureOptions, RuntimeOptions, backpressure_for, overriding, or_default,
  validate_backpressure, validate_overrides, validate_options,
}
use opendata_contrib.Budget
use opendata_contrib.Budget.{SourceByteBudget, ByteReservation, unattached, reserve_round}

-- The knobs that admission needs.
pub record IsUsable (bp : SourceBackpressureOptions) : Type 0 where
  pub estimate_fits : bp.estimated_max_batch_bytes ≤ bp.max_inflight_bytes
  pub some_batches : 0 < bp.max_inflight_batches
  pub some_fetchers : 0 < bp.fetch_concurrency
  pub some_decoders : 0 < bp.decode_concurrency

pub validate_backpressure-IsUsable :
    (source : String) (bp : SourceBackpressureOptions)
    → validate_backpressure source bp ≡ ok tt
    → IsUsable bp
unfolding validate_backpressure
validate_backpressure-IsUsable source bp h = ground arith

validate_overrides-IsUsable :
    (source : String) (d : SourceBackpressureOptions)
    (m : List (String × SourceBackpressureOptions))
    → IsUsable d
    → validate_overrides m ≡ ok tt
    → IsUsable (or_default (overriding source m) d)
unfolding validate_overrides overriding
validate_overrides-IsUsable source d [] u h = u
validate_overrides-IsUsable source d ((j, bp) ∷ m) u h =
    let (x, y) = >>-eq-ok (validate_backpressure j bp) (validate_overrides m) h in
    elim (Bool-cases (str_eq j source)) [
      | inl t ↦ rw t (validate_backpressure-IsUsable j bp x)
      | inr f ↦ rw f (validate_overrides-IsUsable source d m u y)
    ]

-- Options that pass the checks of `build` give the source usable knobs: the estimate fits in the byte
-- budget, and there is room for a batch, a fetch worker and a decode worker.
pub validate_options-IsUsable :
    (o : RuntimeOptions) (source : String)
    → validate_options o source ≡ ok tt
    → IsUsable (backpressure_for o source)
unfolding validate_options backpressure_for
validate_options-IsUsable o source h =
    let (x, y) =
      >>-eq-ok (validate_backpressure source (backpressure_for o source))
        (validate_overrides o.source_overrides) h in
    validate_backpressure-IsUsable source (backpressure_for o source) x

fresh_round :
    (source : String) (capacity bytes : ℕ)
    → bytes ≤ capacity
    → capacity < u64_max
    → (b : SourceByteBudget) × (r : ByteReservation) × (reserve_round
          (Budget.new source capacity)
          0
          bytes
        ≡ some (b, r))
      × (b.in_flight ≡ bytes)
      × (r.held ≡ bytes)
unfolding reserve_round Budget.new
fresh_round source capacity zero le lt =
    (Budget.new source capacity, unattached 0, refl, refl, refl)
fresh_round source capacity (suc n) le lt = (
  record (Budget.new source capacity) { in_flight = suc n },
  unattached (suc n),
  ground arith,
  refl,
  refl,
)

-- Options that pass the checks of `build` cannot block the first admission: on the fresh byte budget of
-- `max_inflight_bytes`, the first round of `reserve` for `estimated_max_batch_bytes` succeeds and puts
-- exactly the estimate in flight, for a capacity below `u64::MAX`.
pub first_admission :
    (o : RuntimeOptions) (source : String)
    → validate_options o source ≡ ok tt
    → (backpressure_for o source).max_inflight_bytes < u64_max
    → (b : SourceByteBudget) × (r : ByteReservation) × (reserve_round
          (Budget.new source (backpressure_for o source).max_inflight_bytes)
          0
          (backpressure_for o source).estimated_max_batch_bytes
        ≡ some (b, r))
      × (b.in_flight ≡ (backpressure_for o source).estimated_max_batch_bytes)
      × (r.held ≡ (backpressure_for o source).estimated_max_batch_bytes)
first_admission o source h lt =
    fresh_round source (backpressure_for o source).max_inflight_bytes
      (backpressure_for o source).estimated_max_batch_bytes
      (validate_options-IsUsable o source h).estimate_fits lt
