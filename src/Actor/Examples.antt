-- ===== src/Actor/Examples.antt =====
-- Runs of the actor (runtime.rs), and instances of its theorems.
use opendata_contrib.Common.{
  ℕ, ◌+◌, ◌≤◌, ◌≡◌, refl, arith, max, List, [], ◌∷◌, Option, none, some, true, false, ok, All,
  length, ◌-◌, ◌*◌, is_ok,
}
use opendata_contrib.Options.{
  RuntimeOptions, SourceBackpressureOptions, default_options, default_backpressure, every_n,
}
use opendata_contrib.Ack.{new, advance_frontier}
use opendata_contrib.Source.{ConsumerOps, BufferSource, SourceBatchDescriptor}
use opendata_contrib.Budget.{SourceByteBudget, ByteReservation, attach_stage}
use opendata_contrib.Actor.{Actor, committed_report, complete, start, count_commit, ack_frontier}
use opendata_contrib.Actor.Admission.{open_gates}
use opendata_contrib.Actor.Gates.{open_gates_bound}
use opendata_contrib.Actor.Acks.{Descends, Below}
use opendata_contrib.Actor.Run.{ActorEvent, finishes, admits, outcome_of, run_actor, run_actor_acks}
use opendata_contrib.Actor.Flush.{Trails, complete_flushes}
use opendata_contrib.Source.Acks.{ConsumerLaws}

-- A consumer that keeps its last ack.
abbrev keeper : ConsumerOps (Option ℕ)
keeper = record { ack_durably = λ c seq. (ok tt, some seq); poll = λ c max. (ok [], c) }

abbrev source : BufferSource (Option ℕ)
source = record {
  id = "s";
  consumer = some 4;
  manifest_path = "m";
  last_acked = some 4;
  pending_durable_ack = none;
}

abbrev descriptor : ℕ → SourceBatchDescriptor
descriptor seq = record {
  source = "s";
  sequence = seq;
  location = "d";
  per_range_metadata = [];
  buffer_metadata = [];
}

abbrev live_options : RuntimeOptions
live_options = record default_options { dry_run = false; ack_flush_policy = every_n 2 }

-- Three batches, of which the second is committed first.
abbrev history : List ActorEvent
history =
    admits (descriptor 5 ∷ descriptor 6 ∷ descriptor 7 ∷ [])
    ∷ finishes (some (committed_report 6 6 10))
    ∷ finishes (some (committed_report 5 5 10))
    ∷ finishes (some (committed_report 7 7 10))
    ∷ []

acks_sent : (outcome_of keeper live_options source history).acks ≡ 7 ∷ 6 ∷ []
unfolding run_actor start new ack_frontier advance_frontier count_commit
acks_sent = refl

run_actor_acks_example :
    Descends (outcome_of keeper live_options source history).acks
    × All
        (Below (outcome_of keeper live_options source history).coordinator.acked_frontier)
        (outcome_of keeper live_options source history).acks
run_actor_acks_example =
    run_actor_acks keeper live_options source history (λ b e. ground arith) (omega arith)

abbrev actor : Actor (Option ℕ)
actor = outcome_of keeper live_options source (admits (descriptor 5 ∷ []) ∷ [])

keeper_failed :
    (c : Option ℕ) (seq : ℕ)
    → is_ok (keeper.ack_durably c seq).0 ≡ false
    → (keeper.ack_durably c seq).1 ≡ c
keeper_failed c seq h = cc

abbrev keeper_laws : ConsumerLaws keeper
keeper_laws = record { durable = λ c. c; acked = λ c seq h. refl; failed = keeper_failed }

actor-Trails : Trails keeper keeper_laws (some 4) 2 actor
unfolding run_actor start new
actor-Trails = record {
  waiting = [];
  flushed = [];
  sent = refl;
  durable = refl;
  counted = omega arith;
  few = omega arith;
}

commits : (complete keeper live_options actor (some (committed_report 5 5 10))).0 ≡ ok tt
unfolding run_actor start new complete ack_frontier advance_frontier count_commit
commits = refl

complete_flushes_example :
    Trails keeper keeper_laws
      (some 4)
      2
      (complete keeper live_options actor (some (committed_report 5 5 10))).1
complete_flushes_example =
    complete_flushes keeper keeper_laws (some 4) live_options (omega arith) actor 5 5 10
      actor-Trails commits

abbrev dry_options : RuntimeOptions
dry_options = record live_options { dry_run = true }

abbrev budget : SourceByteBudget
budget = record {
  source_id = "s";
  capacity = 300;
  in_flight = 100;
  notifies = 0;
  stages = record { source_bytes = 0; fetch_bytes = 0; decode_bytes = 0; sink_dispatch_bytes = 0 };
}

abbrev first : ByteReservation
first = record { held = 100; stage = none }

abbrev knobs : SourceBackpressureOptions
knobs = record default_backpressure { estimated_max_batch_bytes = 100 }

-- Five permits are free, but the bytes suffice for two more gates only.
three_gates :
    length (open_gates live_options knobs (λ n. 300 - 100 * (n + 1)) budget 5 first).reservations
    ≡ 3
unfolding open_gates attach_stage
three_gates = refl

open_gates_bound_example :
    (1 ≤ length (open_gates live_options knobs (λ n. 100) budget 5 first).reservations)
    × (length (open_gates live_options knobs (λ n. 100) budget 5 first).reservations ≤ max 8 1)
    × ((open_gates live_options knobs (λ n. 100) budget 5 first).permits
          + length (open_gates live_options knobs (λ n. 100) budget 5 first).reservations
        ≡ 5 + 1)
open_gates_bound_example = open_gates_bound live_options knobs (λ n. 100) budget 5 first
