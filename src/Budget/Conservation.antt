-- ===== src/Budget/Conservation.antt =====
-- What the byte budget (source_budget.rs) guarantees: conservation, the capacity, and its one gap.
use opendata_contrib.Common.{
  ℕ, ◌+◌, ◌-◌, ◌*◌, ◌≤◌, ◌<◌, ◌≡◌, ◌≢◌, refl, sym, ap, ◌∙◌, Option, none, some, List, [], ◌∷◌,
  arith, length, All, Bool-cases, inl, inr, ◌⊎◌, ◌↔◌, u64_max, u64_mod, checked_add, ◌==◌,
  if◌then◌else◌,
}
use opendata_contrib.Budget.{
  Stage, source, fetch, decode, sink_dispatch, SourceByteBudget, ByteReservation, load, unattached,
  claim, reserve_round, try_reserve, attach_stage, reconcile,
}
use opendata_contrib.Budget.Ledger.{
  held_at, release-Balanced, reconcile-Balanced, attach_stage-Balanced, stage_eq,
}
use opendata_contrib.Budget.Pool.{
  Pool, Event, reserves, tries, attaches, reconciles, drops, apply, total, total_at, IsConserved,
  update_at-IsConserved, attaching, reconciling, dropping, admit, Balances,
}

-- What a claim has done when it succeeds.
abbrev pub Claimed : SourceByteBudget → ℕ → SourceByteBudget → ByteReservation → Type 0
Claimed b bytes b' r =
    (r ≡ unattached bytes)
    × (b'.in_flight ≡ b.in_flight + bytes)
    × (b'.stages ≡ b.stages)
    × (b'.capacity ≡ b.capacity)
    × ((bytes ≡ 0) ⊎ (b'.in_flight ≤ b.capacity))

-- A round of `reserve` that succeeds, whatever value it had loaded, claims exactly its bytes and
-- keeps within the capacity, when that is below the greatest word.
pub reserve_round-Claimed :
    (b b' : SourceByteBudget) (current bytes : ℕ) (r : ByteReservation)
    → b.capacity < u64_max
    → reserve_round b current bytes ≡ some (b', r)
    → Claimed b bytes b' r
unfolding reserve_round
reserve_round-Claimed b b' current bytes r k h = ground arith

claim-Claimed :
    (b b' : SourceByteBudget) (current bytes : ℕ) (r : ByteReservation) (o : Option ℕ)
    → checked_add current bytes ≡ o
    → claim b current bytes o ≡ some (b', r)
    → Claimed b bytes b' r
unfolding claim
claim-Claimed b b' current bytes r none e h = cc
claim-Claimed b b' current bytes r (some next) e h = ground arith

-- A `try_reserve` that succeeds does the same at every capacity.
pub try_reserve-Claimed :
    (b b' : SourceByteBudget) (current bytes : ℕ) (r : ByteReservation)
    → try_reserve b current bytes ≡ some (b', r)
    → Claimed b bytes b' r
unfolding try_reserve
try_reserve-Claimed b b' current bytes r h = elim (Bool-cases (bytes == 0)) [
  | inl z ↦ ground (arith, h, z)
  | inr n ↦ claim-Claimed b b' current bytes r (checked_add current bytes) refl (
      ap
        (λ t.
          if t then some (b, unattached 0) else claim b current bytes (checked_add current bytes))
        (sym n)
      ∙ h)
]

-- Undisturbed, a claim of some bytes fails exactly when they do not fit.
pub try_reserve-none :
    (b : SourceByteBudget) (bytes : ℕ)
    → b.capacity ≤ u64_max
    → (try_reserve b b.in_flight bytes ≡ none) ↔ ((bytes ≢ 0) × (b.capacity < b.in_flight + bytes))
unfolding try_reserve claim
try_reserve-none b bytes k = (λ h. (λ z. ground arith, ground arith), λ h. ground arith)

-- At the greatest capacity `reserve` accepts a sum that overflows, and the counter wraps around to
-- less than it was; `try_reserve` refuses the same claim.
pub reserve_overflow :
    (b : SourceByteBudget) (bytes : ℕ)
    → b.capacity ≡ u64_max
    → b.in_flight ≤ u64_max
    → bytes ≤ u64_max
    → u64_max < b.in_flight + bytes
    → (reserve_round b b.in_flight bytes
        ≡ some (record b { in_flight = b.in_flight + bytes - u64_mod }, unattached bytes))
      × (b.in_flight + bytes - u64_mod < b.in_flight)
      × (try_reserve b b.in_flight bytes ≡ none)
unfolding reserve_round try_reserve claim
reserve_overflow b bytes k f g h = (ground arith, omega arith, ground arith)

-- The bytes that an event may add to the counters beyond a claim.
abbrev pub growth : Event → ℕ
growth (reconciles i n) = n
growth _ = 0

attaching-Balances : (s : Stage) → Balances (attaching s) 0
attaching-Balances s b r c h = (attach_stage-Balanced b r s c, unfold attach_stage in omega arith)

reconciling-Balances : (n : ℕ) → Balances (reconciling n) n
unfolding reconcile
reconciling-Balances n b r c h = (reconcile-Balanced b r n c (omega (arith, c.holds)), ground arith)

dropping-Balances : Balances dropping 0
dropping-Balances b r c h = (release-Balanced b r c, omega arith)

admit-IsConserved :
    (p : Pool) (bytes : ℕ) (o : Option (SourceByteBudget × ByteReservation))
    → p.budget.capacity < u64_max
    → IsConserved p.budget p.live
    → ((b' : SourceByteBudget) (r : ByteReservation)
        → o ≡ some (b', r)
        → Claimed p.budget bytes b' r)
    → IsConserved (admit p o).budget (admit p o).live
      × ((admit p o).budget.capacity ≡ p.budget.capacity)
admit-IsConserved p bytes none k c h = (c, refl)
admit-IsConserved p bytes (some (b', r)) k c h =
    let d = h b' r refl in
    (
      record {
        fits = ground (arith, d.1, d.4, c.fits);
        flight = ground (arith, d.0, d.1, c.flight);
        by_stage = λ s. ground (arith, d.0, d.2, c.by_stage s);
      },
      d.3,
    )

-- Whatever happens to a budget whose capacity is below the greatest word, with the sums inside their
-- words, `in_flight` stays the sum of what the live reservations hold, each stage counter the sum of
-- what is attached to it, and the capacity what it was.
pub apply-IsConserved :
    (p : Pool) (e : Event)
    → p.budget.capacity < u64_max
    → p.budget.in_flight + growth e ≤ u64_max
    → IsConserved p.budget p.live
    → IsConserved (apply p e).budget (apply p e).live
      × ((apply p e).budget.capacity ≡ p.budget.capacity)
unfolding apply
apply-IsConserved p (reserves current bytes) k h c =
    admit-IsConserved p bytes (reserve_round p.budget current bytes) k c
      λ b' r e. reserve_round-Claimed p.budget b' current bytes r k e
apply-IsConserved p (tries current bytes) k h c =
    admit-IsConserved p bytes (try_reserve p.budget current bytes) k c
      λ b' r e. try_reserve-Claimed p.budget b' current bytes r e
apply-IsConserved p (attaches i s) k h c =
    update_at-IsConserved (attaching s) 0 p.budget i p.live (attaching-Balances s) c h
apply-IsConserved p (reconciles i n) k h c =
    update_at-IsConserved (reconciling n) n p.budget i p.live (reconciling-Balances n) c h
apply-IsConserved p (drops i) k h c =
    update_at-IsConserved dropping 0 p.budget i p.live dropping-Balances c h

abbrev pub IsAttached : ByteReservation → Type 0
IsAttached r = r.stage ≢ none

attached_sum :
    (r : ByteReservation)
    → IsAttached r
    → held_at source r + held_at fetch r + held_at decode r + held_at sink_dispatch r ≡ r.held
unfolding stage_eq
attached_sum r h = ground (arith, h)

attached_total :
    (rs : List ByteReservation)
    → All IsAttached rs
    → total_at source rs + total_at fetch rs + total_at decode rs + total_at sink_dispatch rs
      ≡ total rs
attached_total [] h = refl
attached_total (r ∷ rs) h = omega (arith, attached_sum r h.0, attached_total rs h.1)

-- When every live reservation is attached to a stage, the four stage gauges add up to `in_flight`.
pub stages_sum :
    (p : Pool)
    → IsConserved p.budget p.live
    → All IsAttached p.live
    → load p.budget.stages source
        + load p.budget.stages fetch
        + load p.budget.stages decode
        + load p.budget.stages sink_dispatch
      ≡ p.budget.in_flight
stages_sum p c h = omega (
  arith,
  c.flight,
  c.by_stage source,
  c.by_stage fetch,
  c.by_stage decode,
  c.by_stage sink_dispatch,
  attached_total p.live h,
)

total-le :
    (limit : ℕ) (rs : List ByteReservation)
    → All (λ r. r.held ≤ limit) rs
    → total rs ≤ length rs * limit
total-le limit [] h = omega arith
total-le limit (r ∷ rs) h = grind (arith, total-le limit rs h.1)

-- The over-subscription is bounded: with at most `n` live reservations of at most `limit` bytes each,
-- as the batch semaphore and the oversize gate allow, `in_flight` is at most n times the limit.
pub in_flight_bound :
    (p : Pool) (n limit : ℕ)
    → IsConserved p.budget p.live
    → length p.live ≤ n
    → All (λ r. r.held ≤ limit) p.live
    → p.budget.in_flight ≤ n * limit
in_flight_bound p n limit c k h = grind (arith, c.flight, total-le limit p.live h)
