-- ===== src/Budget/Ledger.antt =====
-- The live reservations against the counters of a budget (source_budget.rs): what each operation on a
-- reservation does to `in_flight` and to the stage counters.
use opendata_contrib.Common.{
  ℕ, ◌+◌, ◌-◌, ◌≤◌, ◌≡◌, refl, Bool, true, false, Option, none, some, arith, if◌then◌else◌, u64_max,
  wrapping_add, wrapping_sub,
}
use opendata_contrib.Budget.{
  Stage, source, fetch, decode, sink_dispatch, StageInflightBytes, SourceByteBudget,
  ByteReservation, load, update, stage_sub, stage_add, reconcile, release, attach_stage,
}

unfoldable pub stage_eq : Stage → Stage → Bool
stage_eq source source = true
stage_eq fetch fetch = true
stage_eq decode decode = true
stage_eq sink_dispatch sink_dispatch = true
stage_eq _ _ = false

-- The bytes of a reservation that count towards a stage.
abbrev pub held_at : Stage → ByteReservation → ℕ
held_at s r = elim r.stage [ none ↦ 0 | some p ↦ if stage_eq p s then r.held else 0 ]

-- The bytes of what an operation leaves of a reservation.
abbrev pub held_of : Option ByteReservation → ℕ
held_of none = 0
held_of (some r) = r.held

abbrev pub held_of_at : Stage → Option ByteReservation → ℕ
held_of_at s none = 0
held_of_at s (some r) = held_at s r

-- The counters account for the reservation, and fit their words.
pub record Covers (b : SourceByteBudget) (r : ByteReservation) : Type 0 where
  pub fits : b.in_flight ≤ u64_max
  pub holds : r.held ≤ b.in_flight
  pub stage_holds : (s : Stage) → held_at s r ≤ load b.stages s
  pub stage_fits : (s : Stage) → load b.stages s + r.held ≤ b.in_flight + held_at s r

-- The counters change by what the reservation changes.
pub record Balanced (b : SourceByteBudget) (r : ByteReservation) (b' : SourceByteBudget)
    (o : Option ByteReservation) : Type 0 where
  pub same_capacity : b'.capacity ≡ b.capacity
  pub flight : b'.in_flight + r.held ≡ b.in_flight + held_of o
  pub by_stage : (s : Stage) → load b'.stages s + held_at s r ≡ load b.stages s + held_of_at s o

stage_eq_refl : (s : Stage) → stage_eq s s ≡ true
unfolding stage_eq
stage_eq_refl source = refl
stage_eq_refl fetch = refl
stage_eq_refl decode = refl
stage_eq_refl sink_dispatch = refl

load-update :
    (f : ℕ → ℕ) (s u : Stage) (t : StageInflightBytes)
    → load (update f s t) u ≡ (if stage_eq s u then f (load t u) else load t u)
unfolding load update stage_eq
load-update f source source t = refl
load-update f source fetch t = refl
load-update f source decode t = refl
load-update f source sink_dispatch t = refl
load-update f fetch source t = refl
load-update f fetch fetch t = refl
load-update f fetch decode t = refl
load-update f fetch sink_dispatch t = refl
load-update f decode source t = refl
load-update f decode fetch t = refl
load-update f decode decode t = refl
load-update f decode sink_dispatch t = refl
load-update f sink_dispatch source t = refl
load-update f sink_dispatch fetch t = refl
load-update f sink_dispatch decode t = refl
load-update f sink_dispatch sink_dispatch t = refl

wrapping_sub-sub : (a b : ℕ) → b ≤ a → a ≤ u64_max → wrapping_sub a b ≡ a - b
wrapping_sub-sub a b h k = omega arith

wrapping_add-add : (a b : ℕ) → a + b ≤ u64_max → wrapping_add a b ≡ a + b
wrapping_add-add a b h = omega arith

-- A stage counter after a subtraction or an addition for a reservation's stage.
stage_sub-load :
    (p : Option Stage) (d : ℕ) (t : StageInflightBytes) (u : Stage)
    → load (stage_sub p d t) u ≡ (elim p [
      | none ↦ load t u
      | some s ↦ if stage_eq s u then wrapping_sub (load t u) d else load t u
    ])
unfolding stage_sub
stage_sub-load none d t u = refl
stage_sub-load (some s) d t u = load-update (λ n. wrapping_sub n d) s u t

stage_add-load :
    (p : Option Stage) (d : ℕ) (t : StageInflightBytes) (u : Stage)
    → load (stage_add p d t) u ≡ (elim p [
      | none ↦ load t u
      | some s ↦ if stage_eq s u then wrapping_add (load t u) d else load t u
    ])
unfolding stage_add
stage_add-load none d t u = refl
stage_add-load (some s) d t u = load-update (λ n. wrapping_add n d) s u t

-- Dropping a reservation takes its bytes off.
pub release-Balanced :
    (b : SourceByteBudget) (r : ByteReservation) → Covers b r → Balanced b r (release b r) none
unfolding release
release-Balanced b r c = record {
  same_capacity = ground arith;
  flight = ground (arith, c.holds, c.fits);
  by_stage = λ s.
      ground
        (arith, stage_sub-load r.stage r.held b.stages s, c.stage_holds s, c.stage_fits s, c.fits);
}

-- `reconcile` moves the counters by the difference, if the sum fits its word.
pub reconcile-Balanced :
    (b : SourceByteBudget) (r : ByteReservation) (n : ℕ)
    → Covers b r
    → b.in_flight + n ≤ u64_max + r.held
    → Balanced b r (reconcile b r n).0 (some (reconcile b r n).1)
unfolding reconcile
reconcile-Balanced b r n c h = record {
  same_capacity = ground arith;
  flight = ground (arith, c.holds, c.fits);
  by_stage = λ s. ground (
    arith,
    stage_sub-load r.stage (r.held - n) b.stages s,
    stage_add-load r.stage (n - r.held) b.stages s,
    c.stage_holds s,
    c.stage_fits s,
    c.fits,
  );
}

-- Moving a reservation to another stage moves its bytes there.
pub attach_stage-Balanced :
    (b : SourceByteBudget) (r : ByteReservation) (s : Stage)
    → Covers b r
    → Balanced b r (attach_stage b r s).0 (some (attach_stage b r s).1)
unfolding attach_stage
attach_stage-Balanced b r s c = record {
  same_capacity = refl;
  flight = refl;
  by_stage = λ u. ground (
    arith,
    stage_sub-load r.stage r.held b.stages u,
    stage_add-load (some s) r.held (stage_sub r.stage r.held b.stages) u,
    c.stage_holds u,
    c.stage_fits u,
    c.fits,
    c.holds,
  );
}
