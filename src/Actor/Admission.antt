-- ===== src/Actor/Admission.antt =====
-- The admission arm of `per_source_actor` (runtime.rs): the number of gates, their extension, the
-- descriptors' registration and the release of what is left over. The batch semaphore is its number of
-- free permits; `seen` gives the loads of the byte counter, which other tasks may have moved since.
use opendata_contrib.Common.{
  ℕ, zero, suc, ◌+◌, ◌-◌, ◌/◌, min, max, Option, none, some, List, [], ◌∷◌, ◌++◌, ok, err, Bool,
  true, false, saturating_add, ◌==◌,
}
use opendata_contrib.Error.{RuntimeResult}
use opendata_contrib.Options.{RuntimeOptions, SourceBackpressureOptions}
use opendata_contrib.Ack.{AckCoordinator, register_pending}
use opendata_contrib.Budget.{
  SourceByteBudget, ByteReservation, source, try_reserve, attach_stage, release,
}
use opendata_contrib.Source.{SourceBatchDescriptor}
use opendata_contrib.Actor.{Actor}

-- Step 3: the advisory number of gates.
unfoldable pub k_target : RuntimeOptions → SourceBackpressureOptions → SourceByteBudget → ℕ → ℕ
k_target options bp budget available_permits =
    min (min (max options.max_descriptors_per_poll 1) (saturating_add 1 available_permits))
      (saturating_add 1 ((budget.capacity - budget.in_flight) / max bp.estimated_max_batch_bytes 1))

-- The gates of one cycle, with the permits and the budget that are left.
pub record Gates : Type 0 where
  pub permits : ℕ
  pub budget : SourceByteBudget
  pub reservations : List ByteReservation

-- An extra reservation, attached to the source stage.
abbrev pub push_gate : Gates → SourceByteBudget × ByteReservation → Gates
push_gate g (b, r) = record {
  permits = g.permits - 1;
  budget = (attach_stage b r source).0;
  reservations = g.reservations ++ (attach_stage b r source).1 ∷ [];
}

-- One round of the extension: without a permit or room the loop breaks.
abbrev pub opened :
    Bool
    → Option (SourceByteBudget × ByteReservation)
    → Gates
    → (SourceByteBudget × ByteReservation → Gates)
    → Gates
opened true o g k = g
opened false none g k = g
opened false (some e) g k = k e

-- Steps 4 and 5: at most `extras_target` more gates.
unfoldable pub extend_gates : ℕ → (ℕ → ℕ) → ℕ → Gates → Gates
unfolding try_reserve
extend_gates zero seen estimated g = g
extend_gates (suc n) seen estimated g =
    opened (g.permits == 0) (try_reserve g.budget (seen n) estimated) g
      λ e. extend_gates n seen estimated (push_gate g e)

-- Steps 2 to 5, from the gate that the arm has waited for.
unfoldable pub open_gates :
    RuntimeOptions
    → SourceBackpressureOptions
    → (ℕ → ℕ)
    → SourceByteBudget
    → ℕ
    → ByteReservation
    → Gates
unfolding k_target extend_gates
open_gates options bp seen budget available_permits reservation =
    extend_gates
      (k_target options bp (attach_stage budget reservation source).0 available_permits - 1) seen
      bp.estimated_max_batch_bytes
      (record {
        permits = available_permits;
        budget = (attach_stage budget reservation source).0;
        reservations = (attach_stage budget reservation source).1 ∷ [];
      })

-- Steps 8 and 9: a dropped gate gives its bytes and its permit back.
unfoldable pub drop_gates : ℕ → SourceByteBudget → List ByteReservation → ℕ × SourceByteBudget
drop_gates permits budget [] = (permits, budget)
drop_gates permits budget (r ∷ rs) = drop_gates (permits + 1) (release budget r) rs

-- Step 9: the first `admitted` gates stay. Step 8 is the case of none.
unfoldable pub truncate_gates : ℕ → Gates → List ByteReservation → Gates
unfolding drop_gates
truncate_gates zero g rs = record {
  permits = (drop_gates g.permits g.budget rs).0;
  budget = (drop_gates g.permits g.budget rs).1;
  reservations = [];
}
truncate_gates (suc n) g [] = record g { reservations = [] }
truncate_gates (suc n) g (r ∷ rs) = record (truncate_gates n g rs) {
  reservations = r ∷ (truncate_gates n g rs).reservations;
}

-- Step 10: every descriptor is registered before any is sent.
module _ {C : Type 0} where
  abbrev pub registered : Actor C → AckCoordinator → Actor C
  registered a c = record a { coordinator = c; in_flight = saturating_add a.in_flight 1 }

  -- One registration, and the rest of the pass if it succeeds.
  abbrev pub registering :
      Actor C
      → RuntimeResult AckCoordinator
      → (Actor C → RuntimeResult (Unit {0}) × Actor C)
      → RuntimeResult (Unit {0}) × Actor C
  registering a (err e) k = (err e, a)
  registering a (ok c) k = k (registered a c)

  unfoldable pub register_all :
      Actor C → List SourceBatchDescriptor → RuntimeResult (Unit {0}) × Actor C
  unfolding register_pending
  register_all a [] = (ok tt, a)
  register_all a (d ∷ ds) =
      registering a (register_pending a.coordinator d.sequence d.sequence) λ b. register_all b ds
