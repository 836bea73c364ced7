-- ===== src/Options.antt =====
-- The options of runtime/opendata-ingest-runtime/src/runtime.rs: backpressure and retry knobs, their
-- defaults, the shadowing rules, and the validation in `RuntimeBuilder::build`. A `Duration` is its
-- milliseconds; the overrides' `HashMap` is an association list.
pub mod Laws
mod Examples
use opendata_contrib.Common.{
  ℕ, String, Bool, true, false, Option, none, some, List, [], ◌∷◌, ok, ◌>>=◌, ◌>>◌, fail_if, ok_or,
  ltb, ◌==◌, if◌then◌else◌, str_eq, saturating_mul,
}
use opendata_contrib.Error.{
  RuntimeResult, config_error, no_source, no_decoder, no_sink, estimate_over_capacity,
  zero_inflight_batches, zero_fetch_concurrency, zero_decode_concurrency,
}

pub data AckFlushPolicy : Type 0 where
  every_commit_group : AckFlushPolicy
  every_n : ℕ → AckFlushPolicy

pub record SourceBackpressureOptions : Type 0 where
  pub max_inflight_batches : ℕ
  pub max_inflight_bytes : ℕ
  pub estimated_max_batch_bytes : ℕ
  pub fetch_concurrency : ℕ
  pub decode_concurrency : ℕ
  pub oversize_fault_multiplier : ℕ

abbrev pub default_backpressure : SourceBackpressureOptions
default_backpressure = record {
  max_inflight_batches = 64;
  max_inflight_bytes = 268435456;
  estimated_max_batch_bytes = 4194304;
  fetch_concurrency = 8;
  decode_concurrency = 4;
  oversize_fault_multiplier = 4;
}

abbrev pub serial : SourceBackpressureOptions
serial = record {
  max_inflight_batches = 1;
  max_inflight_bytes = 268435456;
  estimated_max_batch_bytes = 4194304;
  fetch_concurrency = 1;
  decode_concurrency = 1;
  oversize_fault_multiplier = 4;
}

pub record SinkPoolOptions : Type 0 where
  pub max_concurrent_commits : ℕ
  pub retry_max_attempts : ℕ
  pub retry_initial_backoff_ms : ℕ

abbrev pub default_sink_pool : SinkPoolOptions
default_sink_pool = record {
  max_concurrent_commits = 4;
  retry_max_attempts = 6;
  retry_initial_backoff_ms = 100;
}

pub record RuntimeOptions : Type 0 where
  pub ack_flush_policy : AckFlushPolicy
  pub dry_run : Bool
  pub poll_interval : ℕ
  pub max_descriptors_per_poll : ℕ
  pub max_retry_attempts : ℕ
  pub retry_backoff : ℕ
  pub source_defaults : SourceBackpressureOptions
  pub source_overrides : List (String × SourceBackpressureOptions)
  pub sink : SinkPoolOptions

abbrev pub default_options : RuntimeOptions
default_options = record {
  ack_flush_policy = every_commit_group;
  dry_run = true;
  poll_interval = 250;
  max_descriptors_per_poll = 8;
  max_retry_attempts = 3;
  retry_backoff = 100;
  source_defaults = default_backpressure;
  source_overrides = [];
  sink = default_sink_pool;
}

overriding : String → List (String × SourceBackpressureOptions) → Option SourceBackpressureOptions
overriding k [] = none
overriding k ((j, bp) ∷ m) = if str_eq j k then some bp else overriding k m

abbrev or_default :
    Option SourceBackpressureOptions → SourceBackpressureOptions → SourceBackpressureOptions
or_default none d = d
or_default (some bp) d = bp

unfoldable pub backpressure_for : RuntimeOptions → String → SourceBackpressureOptions
unfolding overriding
backpressure_for o source = or_default (overriding source o.source_overrides) o.source_defaults

unfoldable pub effective_retry_max_attempts : RuntimeOptions → ℕ
effective_retry_max_attempts o =
    if o.sink.retry_max_attempts == default_sink_pool.retry_max_attempts
    then o.max_retry_attempts
    else o.sink.retry_max_attempts

unfoldable pub effective_retry_backoff : RuntimeOptions → ℕ
effective_retry_backoff o =
    if o.sink.retry_initial_backoff_ms == default_sink_pool.retry_initial_backoff_ms
    then o.retry_backoff
    else o.sink.retry_initial_backoff_ms

unfoldable pub validate_backpressure : String → SourceBackpressureOptions → RuntimeResult (Unit {0})
validate_backpressure source bp = do
  fail_if (ltb bp.max_inflight_bytes bp.estimated_max_batch_bytes) (
      config_error
        (estimate_over_capacity source bp.estimated_max_batch_bytes bp.max_inflight_bytes))
  fail_if (bp.max_inflight_batches == 0) (config_error (zero_inflight_batches source))
  fail_if (bp.fetch_concurrency == 0) (config_error (zero_fetch_concurrency source))
  fail_if (bp.decode_concurrency == 0) (config_error (zero_decode_concurrency source))
  ok tt

validate_overrides : List (String × SourceBackpressureOptions) → RuntimeResult (Unit {0})
unfolding validate_backpressure
validate_overrides [] = ok tt
validate_overrides ((source, bp) ∷ m) = do validate_backpressure source bp; validate_overrides m

-- The checks of `build` on the options, for the source that is configured.
unfoldable pub validate_options : RuntimeOptions → String → RuntimeResult (Unit {0})
unfolding backpressure_for validate_backpressure validate_overrides
validate_options o source = do
  validate_backpressure source (backpressure_for o source)
  validate_overrides o.source_overrides

-- The oversize limit of the decode worker.
unfoldable pub fault_limit : SourceBackpressureOptions → ℕ
fault_limit bp = saturating_mul bp.estimated_max_batch_bytes bp.oversize_fault_multiplier
