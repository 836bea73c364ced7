-- ===== src/Builder/Laws.antt =====
-- The state that a built runtime (runtime.rs) starts from.
use opendata_contrib.Budget.{SourceByteBudget, ByteReservation, reserve_round}
use opendata_contrib.Ack.{new}
use opendata_contrib.Common.{◌≡◌, ℕ, String, Option, some, err}
use opendata_contrib.Error.{ack_error, already_registered}
use opendata_contrib.Options.{backpressure_for, RuntimeOptions}
use opendata_contrib.Ack.Registry.{register_source, AckCoordinators, get}
use opendata_contrib.Budget

-- The source has its coordinator at the last ack, and the first claim on the budget of bytes fits.
pub record IsStarted (coordinators : AckCoordinators) (budget : SourceByteBudget)
    (options : RuntimeOptions) (source : String) (last_acked : Option ℕ) : Type 0 where
  pub coordinator : get coordinators source ≡ some (new source last_acked)
  pub alone :
      register_source coordinators source last_acked ≡ err (ack_error (already_registered source))
  pub claim : SourceByteBudget × ByteReservation
  pub claims :
      reserve_round budget 0 (backpressure_for options source).estimated_max_batch_bytes
      ≡ some claim
  pub in_flight : claim.0.in_flight ≡ (backpressure_for options source).estimated_max_batch_bytes
