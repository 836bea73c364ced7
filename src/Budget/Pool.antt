-- ===== src/Budget/Pool.antt =====
-- A budget (source_budget.rs) with all its live reservations: every operation keeps the counters
-- equal to the sums over what is live.
use opendata_contrib.Common.{
  ℕ, zero, suc, ◌+◌, ◌≤◌, ◌≡◌, refl, Option, none, some, List, [], ◌∷◌, arith, u64_max,
}
use opendata_contrib.Budget.{
  Stage, SourceByteBudget, ByteReservation, load, reserve_round, try_reserve, attach_stage,
  reconcile, release,
}
use opendata_contrib.Budget.Ledger.{held_at, held_of, Covers, Balanced}

pub record Pool : Type 0 where
  pub budget : SourceByteBudget
  pub live : List ByteReservation

-- An operation on one reservation: `none` is a reservation that is gone.
abbrev pub Update : Type 0
Update = SourceByteBudget → ByteReservation → SourceByteBudget × Option ByteReservation

abbrev keep : Option ByteReservation → List ByteReservation → List ByteReservation
keep none rs = rs
keep (some r) rs = r ∷ rs

abbrev put_back :
    SourceByteBudget × Option ByteReservation
    → List ByteReservation
    → SourceByteBudget × List ByteReservation
put_back (b, o) rs = (b, keep o rs)

abbrev pass_over :
    ByteReservation
    → SourceByteBudget × List ByteReservation
    → SourceByteBudget × List ByteReservation
pass_over r (b, rs) = (b, r ∷ rs)

-- The operation on the reservation at a position; beyond the end nothing happens.
unfoldable pub update_at :
    Update → SourceByteBudget → ℕ → List ByteReservation → SourceByteBudget × List ByteReservation
update_at f b i [] = (b, [])
update_at f b zero (r ∷ rs) = put_back (f b r) rs
update_at f b (suc i) (r ∷ rs) = pass_over r (update_at f b i rs)

pub data Event : Type 0 where
  reserves tries : ℕ → ℕ → Event
  attaches : ℕ → Stage → Event
  reconciles : ℕ → ℕ → Event
  drops : ℕ → Event

-- A claim that fails leaves everything as it was.
abbrev pub admit : Pool → Option (SourceByteBudget × ByteReservation) → Pool
admit p none = p
admit p (some (b, r)) = record { budget = b; live = r ∷ p.live }

abbrev pub with_live : SourceByteBudget × List ByteReservation → Pool
with_live (b, rs) = record { budget = b; live = rs }

abbrev pub attaching : Stage → Update
attaching s b r = let (b', r') = attach_stage b r s in (b', some r')

abbrev pub reconciling : ℕ → Update
reconciling n b r = let (b', r') = reconcile b r n in (b', some r')

abbrev pub dropping : Update
dropping b r = (release b r, none)

unfoldable pub apply : Pool → Event → Pool
unfolding update_at
apply p (reserves current bytes) = admit p (reserve_round p.budget current bytes)
apply p (tries current bytes) = admit p (try_reserve p.budget current bytes)
apply p (attaches i s) = with_live (update_at (attaching s) p.budget i p.live)
apply p (reconciles i n) = with_live (update_at (reconciling n) p.budget i p.live)
apply p (drops i) = with_live (update_at dropping p.budget i p.live)

unfoldable pub run : Pool → List Event → Pool
run p [] = p
run p (e ∷ es) = run (apply p e) es

abbrev pub total : List ByteReservation → ℕ
total [] = 0
total (r ∷ rs) = r.held + total rs

abbrev pub total_at : Stage → List ByteReservation → ℕ
total_at s [] = 0
total_at s (r ∷ rs) = held_at s r + total_at s rs

pub held_at-le : (s : Stage) (r : ByteReservation) → held_at s r ≤ r.held
held_at-le s r = ground arith

pub total_at-le : (s : Stage) (rs : List ByteReservation) → total_at s rs ≤ total rs
total_at-le s [] = omega arith
total_at-le s (r ∷ rs) = omega (arith, held_at-le s r, total_at-le s rs)

-- The counters are the sums over the live reservations, and fit their words.
pub record IsConserved (b : SourceByteBudget) (rs : List ByteReservation) : Type 0 where
  pub fits : b.in_flight ≤ u64_max
  pub flight : b.in_flight ≡ total rs
  pub by_stage : (s : Stage) → load b.stages s ≡ total_at s rs

-- The same with more reservations, whose bytes are given, beside the listed ones.
record Beside (b : SourceByteBudget) (rs : List ByteReservation) (more : ℕ) (more_at : Stage → ℕ)
    : Type 0 where
  fits : b.in_flight ≤ u64_max
  flight : b.in_flight ≡ total rs + more
  by_stage : (s : Stage) → load b.stages s ≡ total_at s rs + more_at s
  more_fits : (s : Stage) → more_at s ≤ more

-- An update that balances the counters and adds `grown` bytes at most.
abbrev pub Balances : Update → ℕ → Type 0
Balances f grown =
    (b : SourceByteBudget) (r : ByteReservation)
    → Covers b r
    → b.in_flight + grown ≤ u64_max
    → Balanced b r (f b r).0 (f b r).1 × (held_of (f b r).1 ≤ r.held + grown)

head-Covers :
    (b : SourceByteBudget) (r : ByteReservation) (rs : List ByteReservation) (more : ℕ)
    (more_at : Stage → ℕ)
    → Beside b (r ∷ rs) more more_at
    → Covers b r
head-Covers b r rs more more_at c = record {
  fits = c.fits;
  holds = omega (arith, c.flight);
  stage_holds = λ s. omega (arith, c.by_stage s);
  stage_fits = λ s. omega (arith, c.by_stage s, c.flight, c.more_fits s, total_at-le s rs);
}

-- What an update leaves, in the same form.
abbrev Kept : SourceByteBudget → SourceByteBudget × List ByteReservation → ℕ → (Stage → ℕ) → Type 0
Kept b (b', rs') more more_at =
    (b'.capacity ≡ b.capacity)
    × (b'.in_flight ≤ u64_max)
    × (b'.in_flight ≡ total rs' + more)
    × ((s : Stage) → load b'.stages s ≡ total_at s rs' + more_at s)

put_back-Kept :
    (b b' : SourceByteBudget) (r : ByteReservation) (o : Option ByteReservation) (grown : ℕ)
    (rs : List ByteReservation) (more : ℕ) (more_at : Stage → ℕ)
    → Beside b (r ∷ rs) more more_at
    → b.in_flight + grown ≤ u64_max
    → Balanced b r b' o
    → held_of o ≤ r.held + grown
    → Kept b (put_back (b', o) rs) more more_at
put_back-Kept b b' r none grown rs more more_at c h d g = (
  d.same_capacity,
  omega (arith, d.flight, c.flight),
  omega (arith, d.flight, c.flight),
  λ s. omega (arith, d.by_stage s, c.by_stage s),
)
put_back-Kept b b' r (some r') grown rs more more_at c h d g = (
  d.same_capacity,
  omega (arith, d.flight, c.flight, g),
  omega (arith, d.flight, c.flight),
  λ s. omega (arith, d.by_stage s, c.by_stage s),
)

update_at-Kept :
    (f : Update) (grown : ℕ)
    → Balances f grown
    → (b : SourceByteBudget) (i : ℕ) (rs : List ByteReservation) (more : ℕ) (more_at : Stage → ℕ)
    → Beside b rs more more_at
    → b.in_flight + grown ≤ u64_max
    → Kept b (update_at f b i rs) more more_at
unfolding update_at
update_at-Kept f grown w b i [] more more_at c h = (refl, c.fits, c.flight, c.by_stage)
update_at-Kept f grown w b zero (r ∷ rs) more more_at c h =
    let (d, g) = w b r (head-Covers b r rs more more_at c) h in
    put_back-Kept b (f b r).0 r (f b r).1 grown rs more more_at c h d g
update_at-Kept f grown w b (suc i) (r ∷ rs) more more_at c h =
    let (p, q, e, t) =
      update_at-Kept f grown w b i rs (r.held + more) (λ s. held_at s r + more_at s) beside h in
    (p, q, omega (arith, e), λ s. omega (arith, t s))
  where
    beside : Beside b rs (r.held + more) (λ s. held_at s r + more_at s)
    beside = record {
      fits = c.fits;
      flight = omega (arith, c.flight);
      by_stage = λ s. omega (arith, c.by_stage s);
      more_fits = λ s. omega (arith, c.more_fits s, held_at-le s r);
    }

pub update_at-IsConserved :
    (f : Update) (grown : ℕ) (b : SourceByteBudget) (i : ℕ) (rs : List ByteReservation)
    → Balances f grown
    → IsConserved b rs
    → b.in_flight + grown ≤ u64_max
    → IsConserved (update_at f b i rs).0 (update_at f b i rs).1
      × ((update_at f b i rs).0.capacity ≡ b.capacity)
update_at-IsConserved f grown b i rs w c h =
    let (p, q, e, t) = update_at-Kept f grown w b i rs 0 (λ s. 0) alone h in
    (record { fits = q; flight = omega (arith, e); by_stage = λ s. omega (arith, t s) }, p)
  where
    alone : Beside b rs 0 (λ s. 0)
    alone = record {
      fits = c.fits;
      flight = omega (arith, c.flight);
      by_stage = λ s. omega (arith, c.by_stage s);
      more_fits = λ s. omega arith;
    }
