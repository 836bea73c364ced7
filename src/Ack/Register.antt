-- ===== src/Ack/Register.antt =====
-- `register_pending` (ack_coordinator.rs): what it has checked when it succeeds, and that it keeps a
-- coordinator well formed.
use opendata_contrib.Common.{
  ℕ, ◌≤◌, ◌<◌, ◌≡◌, refl, sym, ap, subst, ◌∙◌, inl, inr, true, false, Option, none, some, List, [],
  ◌∷◌, ◌++◌, arith, u64_max, saturating_add, ok, fail_if, >>-eq-ok, Bool-cases, Option-cases, ltb,
  List-cases, cons_ne_nil, true_ne_false,
}
use opendata_contrib.Common.Ordered.{insert, last_le, first_ge}
use opendata_contrib.Ack.{
  PendingRange, AckCoordinator, baseline_guard, contiguity_guard, frontier_guard, below_guard,
  above_guard, absorb, fix_baseline, add_pending, register_pending, expected_low,
}
use opendata_contrib.Ack.Chain.{
  Chain, chain_end, next_of, insert-Chain, Chain-append, chain_end-append, LastEntry,
  LastEntry-cons,
}
use opendata_contrib.Ack.Invariant.{IsValid}

-- What a successful registration has checked, and its result.
abbrev pub Registered : AckCoordinator → ℕ → ℕ → AckCoordinator → Type 0
Registered c low high d =
    (low ≤ high)
    × ((b : ℕ)
        → c.last_registered_high ≡ none
        → c.initial_frontier_baseline ≡ some b
        → low ≡ saturating_add b 1)
    × ((h : ℕ) → c.last_registered_high ≡ some h → low ≡ saturating_add h 1)
    × ((f : ℕ) → c.acked_frontier ≡ some f → f < low)
    × ((k : ℕ) (r : PendingRange) → last_le high c.pending ≡ some (k, r) → r.high < low)
    × (d ≡ add_pending (fix_baseline c low) low high)

baseline_guard-ok :
    (l i : Option ℕ) (low b : ℕ)
    → baseline_guard l i low ≡ ok tt
    → l ≡ none
    → i ≡ some b
    → low ≡ saturating_add b 1
unfolding baseline_guard
baseline_guard-ok none (some a) low b h p q = ground arith
baseline_guard-ok none none low b h p q = cc
baseline_guard-ok (some l) i low b h p q = cc

contiguity_guard-ok :
    (l : Option ℕ) (low h : ℕ)
    → contiguity_guard l low ≡ ok tt
    → l ≡ some h
    → low ≡ saturating_add h 1
unfolding contiguity_guard
contiguity_guard-ok none low h g p = cc
contiguity_guard-ok (some l) low h g p = ground arith

frontier_guard-ok : (a : Option ℕ) (low f : ℕ) → frontier_guard a low ≡ ok tt → a ≡ some f → f < low
unfolding frontier_guard
frontier_guard-ok none low f g p = cc
frontier_guard-ok (some a) low f g p = ground arith

below_guard-ok :
    (e : Option (ℕ × PendingRange)) (low high k : ℕ) (r : PendingRange)
    → below_guard e low high ≡ ok tt
    → e ≡ some (k, r)
    → r.high < low
unfolding below_guard
below_guard-ok none low high k r g p = cc
below_guard-ok (some (j, s)) low high k r g p = ground arith

pub register_pending-Registered :
    (c d : AckCoordinator) (low high : ℕ)
    → register_pending c low high ≡ ok d
    → Registered c low high d
unfolding register_pending
register_pending-Registered c d low high h =
    let (g0, h0) = >>-eq-ok (fail_if (ltb high low) _) _ h in
    let (g1, h1) =
      >>-eq-ok (baseline_guard c.last_registered_high c.initial_frontier_baseline low) _ h0 in
    let (g2, h2) = >>-eq-ok (contiguity_guard c.last_registered_high low) _ h1 in
    let (g3, h3) = >>-eq-ok (frontier_guard c.acked_frontier low) _ h2 in
    let (g4, h4) = >>-eq-ok (below_guard (last_le high c.pending) low high) _ h3 in
    let (g5, h5) = >>-eq-ok (above_guard (first_ge low c.pending) low high) _ h4 in
    (
      ground arith,
      λ b. baseline_guard-ok _ _ low b g1,
      λ f. contiguity_guard-ok _ low f g2,
      λ f. frontier_guard-ok _ low f g3,
      λ k r. below_guard-ok _ low high k r g4,
      cc,
    )

expected_low-absorb : (low : ℕ) → low ≤ u64_max → expected_low none (absorb low) ≡ low
unfolding expected_low absorb
expected_low-absorb low h = ground arith

-- A coordinator that has a pending range has a fixed baseline.
fixed-pending :
    (c : AckCoordinator) (e : ℕ × PendingRange) (m : List (ℕ × PendingRange))
    → IsValid c
    → c.pending ≡ e ∷ m
    → c.baseline_fixed ≡ true
fixed-pending c e m v p = elim (Bool-cases c.baseline_fixed) [
  | inl t ↦ t
  | inr f ↦ absurd (cons_ne_nil (sym p ∙ (v.unfixed f).2))
]

module _ (c d : AckCoordinator) (low high : ℕ) (v : IsValid c) (b : low ≤ u64_max)
    (g : Registered c low high d) where
  -- The first range of all.
  next_first :
      c.pending ≡ []
      → c.acked_frontier ≡ none
      → low ≡ expected_low c.acked_frontier (fix_baseline c low).effective_baseline
  unfolding fix_baseline expected_low
  next_first p q = elim (Bool-cases c.baseline_fixed) [
    | inl t ↦
        let l : c.last_registered_high ≡ none = ground (arith, v.last) in
        let (a, i) = v.unregistered t l in
        let e : c.effective_baseline ≡ some a = v.pinned a i in
        let w : low ≡ saturating_add a 1 = g.1 a l i in rw (t, q, e, w, expected_low) refl
    | inr f ↦ rw (f, q) (sym (expected_low-absorb low b))
  ]

  -- A range after the pending ones are all committed and gone.
  next_drained :
      (f : ℕ)
      → c.pending ≡ []
      → c.acked_frontier ≡ some f
      → low ≡ expected_low c.acked_frontier (fix_baseline c low).effective_baseline
  unfolding expected_low
  next_drained f p q =
      let l : c.last_registered_high ≡ some f = ground (arith, v.last) in rw q (g.2 f l)

  next_after :
      (n : ℕ) (m : List (ℕ × PendingRange))
      → LastEntry n c.acked_frontier m
      → c.pending ≡ m
      → low ≡ next_of n m
  next_after n m (i, s, e, f, t, l) p =
      after_last (g.2 s.high (v.last ∙ ap (chain_end c.acked_frontier) p ∙ e)) (
        g.4 i s (
          ap (last_le high) p
          ∙ l high (reach (g.2 s.high (v.last ∙ ap (chain_end c.acked_frontier) p ∙ e)))))
    where
      reach : low ≡ saturating_add s.high 1 → s.high ≤ high
      reach w = ground (arith, g.0)

      after_last : low ≡ saturating_add s.high 1 → s.high < low → low ≡ next_of n m
      after_last w z = ground arith

  next_pending :
      (e : ℕ × PendingRange) (m : List (ℕ × PendingRange))
      → c.pending ≡ e ∷ m
      → low ≡ next_of (expected_low c.acked_frontier c.effective_baseline) c.pending
  next_pending (k, r) m p =
      next_after _ c.pending
        (subst (LastEntry _ c.acked_frontier) (sym p)
          (LastEntry-cons _ c.acked_frontier k r m (subst (Chain _) p v.chain)))
        refl

  -- The chain that the new range is appended to begins at the baseline as it is fixed by then.
  abbrev start : ℕ
  start = expected_low c.acked_frontier (fix_baseline c low).effective_baseline

  start-fixed : c.baseline_fixed ≡ true → start ≡ expected_low c.acked_frontier c.effective_baseline
  unfolding fix_baseline
  start-fixed t = rw t refl

  start_next : Chain start c.pending × (low ≡ next_of start c.pending)
  start_next = elim (List-cases c.pending) [
    | inl p ↦ (
      subst (Chain start) (sym p) tt,
      elim (Option-cases c.acked_frontier) [
        | inl q ↦ next_first p q ∙ ap (next_of start) (sym p)
        | inr (f, q) ↦ next_drained f p q ∙ ap (next_of start) (sym p)
      ],
    )
    | inr (e, m, p) ↦
        let w : start ≡ expected_low c.acked_frontier c.effective_baseline =
          start-fixed (fixed-pending c e m v p) in
        (
          subst (λ n. Chain n c.pending) (sym w) v.chain,
          next_pending e m p ∙ ap (λ n. next_of n c.pending) (sym w),
        )
  ]

  abbrev entry : PendingRange
  entry = record { low = low; high = high; sink_committed = false }

  pending-add_pending : insert low entry c.pending ≡ c.pending ++ (low, entry) ∷ []
  pending-add_pending =
      insert-Chain start low entry c.pending start_next.0 (omega (arith, start_next.1))

  fix_baseline-fixed : (fix_baseline c low).baseline_fixed ≡ true
  unfolding fix_baseline
  fix_baseline-fixed = ground arith

  fix_baseline-initial :
      (fix_baseline c low).initial_frontier_baseline ≡ c.initial_frontier_baseline
  unfolding fix_baseline
  fix_baseline-initial = ground arith

  fix_baseline-pending : (fix_baseline c low).pending ≡ c.pending
  unfolding fix_baseline
  fix_baseline-pending = ground arith

  fix_baseline-frontier : (fix_baseline c low).acked_frontier ≡ c.acked_frontier
  unfolding fix_baseline
  fix_baseline-frontier = ground arith

  fix_baseline-pinned :
      (a : ℕ)
      → (fix_baseline c low).initial_frontier_baseline ≡ some a
      → (fix_baseline c low).effective_baseline ≡ some a
  unfolding fix_baseline
  fix_baseline-pinned a p = ground (arith, v.pinned a, v.unfixed)

  fix_baseline_bound : (a : ℕ) → (fix_baseline c low).effective_baseline ≡ some a → a ≤ u64_max
  unfolding fix_baseline absorb
  fix_baseline_bound a p = ground (arith, v.baseline_bound a)

  add_pending-IsValid : high ≤ u64_max → IsValid (add_pending (fix_baseline c low) low high)
  unfolding add_pending
  add_pending-IsValid t = record {
    chain =
        rw (fix_baseline-pending, fix_baseline-frontier, pending-add_pending)
          (Chain-append start entry c.pending start_next.0 start_next.1 g.0 t);
    last =
        rw (fix_baseline-pending, fix_baseline-frontier, pending-add_pending)
          (sym (chain_end-append c.acked_frontier low entry c.pending));
    unfixed = λ e. absurd (true_ne_false (sym fix_baseline-fixed ∙ e));
    unregistered = λ e f. cc;
    pinned = fix_baseline-pinned;
    frontier_bound = λ f e. v.frontier_bound f (sym fix_baseline-frontier ∙ e);
    baseline_bound = fix_baseline_bound;
  }

-- A successful registration of a range of words keeps a coordinator well formed.
pub register_pending-IsValid :
    (c d : AckCoordinator) (low high : ℕ)
    → IsValid c
    → high ≤ u64_max
    → register_pending c low high ≡ ok d
    → IsValid d
register_pending-IsValid c d low high v t h =
    let g = register_pending-Registered c d low high h in
    subst IsValid (sym g.5) (add_pending-IsValid c d low high v (omega (arith, g.0)) g t)

-- What a successful registration changes: the range is added at the end of the pending map.
pub register_pending_fields :
    (c d : AckCoordinator) (low high : ℕ)
    → IsValid c
    → high ≤ u64_max
    → register_pending c low high ≡ ok d
    → (d.pending
        ≡ c.pending ++ (low, record { low = low; high = high; sink_committed = false }) ∷ [])
      × (d.acked_frontier ≡ c.acked_frontier)
      × (d.initial_frontier_baseline ≡ c.initial_frontier_baseline)
unfolding add_pending
register_pending_fields c d low high v t h =
    let g = register_pending-Registered c d low high h in
    let b : low ≤ u64_max = omega (arith, g.0) in
    (
      ap (λ (x : AckCoordinator). x.pending) g.5
          ∙ ap (insert low (record { low = low; high = high; sink_committed = false }))
              (fix_baseline-pending c d low high v b g)
          ∙ pending-add_pending c d low high v b g,
      ap (λ (x : AckCoordinator). x.acked_frontier) g.5 ∙ fix_baseline-frontier c d low high v b g,
      ap (λ (x : AckCoordinator). x.initial_frontier_baseline) g.5
          ∙ fix_baseline-initial c d low high v b g,
    )
