-- ===== src/Budget/Examples.antt =====
-- Runs of the byte budget (source_budget.rs), and instances of its theorems.
use opendata_contrib.Common.{◌≡◌, refl, false, none, some, [], ◌∷◌, arith, u64_max}
use opendata_contrib.Budget.{
  Stage, source, fetch, decode, sink_dispatch, StageInflightBytes, SourceByteBudget,
  ByteReservation, unattached, load, reserve_round, try_reserve, reconcile, release,
}
use opendata_contrib.Budget.Ledger.{stage_eq}
use opendata_contrib.Budget.Pool.{
  Pool, reconciles, drops, apply, run, total_at, update_at, IsConserved,
}
use opendata_contrib.Budget.Conservation.{reserve_overflow, apply-IsConserved}
use opendata_contrib.Budget.Parking.{
  Protocol, parked, Reach, here, next, loads, parks, start, IsStranded, race_strands, Step, enters,
  returns_early, claimed,
}

abbrev stages : StageInflightBytes
stages = record { source_bytes = 60; fetch_bytes = 0; decode_bytes = 20; sink_dispatch_bytes = 0 }

abbrev busy : SourceByteBudget
busy = record { source_id = "s"; capacity = 100; in_flight = 80; notifies = 0; stages = stages }

abbrev queued : ByteReservation
queued = record { held = 60; stage = some source }

abbrev decoding : ByteReservation
decoding = record { held = 20; stage = some decode }

abbrev pool : Pool
pool = record { budget = busy; live = queued ∷ decoding ∷ [] }

pool-IsConserved : IsConserved busy pool.live
unfolding load stage_eq
pool-IsConserved = record { fits = omega arith; flight = refl; by_stage = by_stage }
  where
    by_stage : (s : Stage) → load stages s ≡ total_at s pool.live
    by_stage source = refl
    by_stage fetch = refl
    by_stage decode = refl
    by_stage sink_dispatch = refl

-- Decoding grows past the capacity, then the sink's drop takes the bytes off.
grow_and_drop : (run pool (reconciles 1 50 ∷ drops 0 ∷ [])).budget.in_flight ≡ 50
unfolding run apply update_at reconcile release
grow_and_drop = refl

reserve_round_lem : reserve_round busy 80 20 ≡ some (record busy { in_flight = 100 }, unattached 20)
unfolding reserve_round
reserve_round_lem = refl

try_reserve_lem : try_reserve busy 80 20 ≡ some (record busy { in_flight = 100 }, unattached 20)
unfolding try_reserve
try_reserve_lem = refl

abbrev unlimited : SourceByteBudget
unlimited = record busy { capacity = u64_max }

reserve_overflow_example : try_reserve unlimited 80 u64_max ≡ none
reserve_overflow_example =
    (reserve_overflow unlimited u64_max refl (omega arith) (omega arith) (omega arith)).2

apply-IsConserved_example :
    IsConserved (apply pool (reconciles 1 50)).budget (apply pool (reconciles 1 50)).live
    × ((apply pool (reconciles 1 50)).budget.capacity ≡ 100)
apply-IsConserved_example =
    apply-IsConserved pool (reconciles 1 50) (omega arith) (omega arith) pool-IsConserved

-- 80 of 100 bytes are in flight, and the caller wants 30.
abbrev waiting : Protocol
waiting = start 100 30 80

abbrev waits : Protocol
waits = record {
  capacity = 100;
  bytes = 30;
  in_flight = 80;
  place = parked;
  woken = false;
  owed = 0;
  raced = false;
}

waits_reached : Reach waiting waits
unfolding start
waits_reached =
    next (next (next here (enters refl (omega arith))) (loads refl)) (parks 80 refl refl)

-- A caller of no bytes has its claim at once, also above the capacity.
no_bytes : Step (start 100 0 120) (record (start 100 0 120) { place = claimed })
unfolding start
no_bytes = returns_early refl refl

race_strands_example : (w : Protocol) × Reach (start 100 30 40) w × IsStranded w
race_strands_example = race_strands 100 30 40 10 (omega arith) (omega arith) (omega arith)
