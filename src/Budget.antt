-- ===== src/Budget.antt =====
-- runtime/opendata-ingest-runtime/src/source_budget.rs: the per-source byte budget. The atomics are
-- words in an explicit state; `notifies` counts the calls of `notify_waiters`. The stage counters are
-- the four of `StageInflightBytes` (runtime.rs), to which reservations are attached.
pub mod Ledger
pub mod Pool
pub mod Conservation
pub mod Parking
mod Examples
use opendata_contrib.Common.{
  ℕ, ◌+◌, ◌-◌, String, ◌&&◌, Option, none, some, ltb, leb, ◌==◌, if◌then◌else◌, saturating_add,
  checked_add, wrapping_add, wrapping_sub,
}

pub data Stage : Type 0 where
  source fetch decode sink_dispatch : Stage

pub record StageInflightBytes : Type 0 where
  pub source_bytes : ℕ
  pub fetch_bytes : ℕ
  pub decode_bytes : ℕ
  pub sink_dispatch_bytes : ℕ

pub record SourceByteBudget : Type 0 where
  pub source_id : String
  pub capacity : ℕ
  pub in_flight : ℕ
  pub notifies : ℕ
  pub stages : StageInflightBytes

pub record ByteReservation : Type 0 where
  pub held : ℕ
  pub stage : Option Stage

unfoldable pub new : String → ℕ → SourceByteBudget
new source_id capacity = record {
  source_id = source_id;
  capacity = capacity;
  in_flight = 0;
  notifies = 0;
  stages = record { source_bytes = 0; fetch_bytes = 0; decode_bytes = 0; sink_dispatch_bytes = 0 };
}

abbrev pub unattached : ℕ → ByteReservation
unattached bytes = record { held = bytes; stage = none }

-- `stage.load()` and an update of one stage atomic.
unfoldable pub load : StageInflightBytes → Stage → ℕ
load t source = t.source_bytes
load t fetch = t.fetch_bytes
load t decode = t.decode_bytes
load t sink_dispatch = t.sink_dispatch_bytes

unfoldable pub update : (ℕ → ℕ) → Stage → StageInflightBytes → StageInflightBytes
update f source t = record t { source_bytes = f t.source_bytes }
update f fetch t = record t { fetch_bytes = f t.fetch_bytes }
update f decode t = record t { decode_bytes = f t.decode_bytes }
update f sink_dispatch t = record t { sink_dispatch_bytes = f t.sink_dispatch_bytes }

-- `if let Some(stage) = self.stage { stage.fetch_sub(delta) }`, and the same with `fetch_add`.
unfoldable pub stage_sub : Option Stage → ℕ → StageInflightBytes → StageInflightBytes
unfolding update
stage_sub none delta t = t
stage_sub (some s) delta t = update (λ n. wrapping_sub n delta) s t

unfoldable pub stage_add : Option Stage → ℕ → StageInflightBytes → StageInflightBytes
unfolding update
stage_add none delta t = t
stage_add (some s) delta t = update (λ n. wrapping_add n delta) s t

-- One round of the loop of `reserve`: the load saw `current`, and the exchange succeeds if the
-- counter still holds it. `none` is the branch that parks on `notified.await`. The sum is
-- `current + bytes` on machine words.
unfoldable pub reserve_round :
    SourceByteBudget → ℕ → ℕ → Option (SourceByteBudget × ByteReservation)
reserve_round b current bytes =
    if bytes == 0
    then some (b, unattached 0)
    else if leb (saturating_add current bytes) b.capacity && (b.in_flight == current)
    then some (record b { in_flight = wrapping_add current bytes }, unattached bytes)
    else none

-- `try_reserve`, with the load's value given as well.
claim : SourceByteBudget → ℕ → ℕ → Option ℕ → Option (SourceByteBudget × ByteReservation)
claim b current bytes none = none
claim b current bytes (some next) =
    if ltb b.capacity next
    then none
    else if b.in_flight == current
    then some (record b { in_flight = next }, unattached bytes)
    else none

unfoldable pub try_reserve : SourceByteBudget → ℕ → ℕ → Option (SourceByteBudget × ByteReservation)
unfolding claim
try_reserve b current bytes =
    if bytes == 0 then some (b, unattached 0) else claim b current bytes (checked_add current bytes)

unfoldable pub attach_stage :
    SourceByteBudget → ByteReservation → Stage → SourceByteBudget × ByteReservation
unfolding stage_sub stage_add
attach_stage b r s =
    let detached = if ltb 0 r.held then stage_sub r.stage r.held b.stages else b.stages in
    let attached = if ltb 0 r.held then stage_add (some s) r.held detached else detached in
    (record b { stages = attached }, record r { stage = some s })

unfoldable pub reconcile :
    SourceByteBudget → ByteReservation → ℕ → SourceByteBudget × ByteReservation
unfolding stage_sub stage_add
reconcile b r actual_bytes =
    if actual_bytes == r.held
    then (b, r)
    else if ltb actual_bytes r.held
    then (
      record b {
        in_flight = wrapping_sub b.in_flight (r.held - actual_bytes);
        stages = stage_sub r.stage (r.held - actual_bytes) b.stages;
        notifies = b.notifies + 1;
      },
      record r { held = actual_bytes },
    )
    else (
      record b {
        in_flight = wrapping_add b.in_flight (actual_bytes - r.held);
        stages = stage_add r.stage (actual_bytes - r.held) b.stages;
      },
      record r { held = actual_bytes },
    )

-- `Drop for ByteReservation`
unfoldable pub release : SourceByteBudget → ByteReservation → SourceByteBudget
unfolding stage_sub
release b r =
    if ltb 0 r.held
    then record b {
      stages = stage_sub r.stage r.held b.stages;
      in_flight = wrapping_sub b.in_flight r.held;
      notifies = b.notifies + 1;
    }
    else b
