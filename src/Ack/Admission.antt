-- ===== src/Ack/Admission.antt =====
-- `register_pending` (ack_coordinator.rs) accepts exactly the ranges that the log admits.
use opendata_contrib.Common.{
  ℕ, ◌+◌, ◌≤◌, ◌<◌, ◌≡◌, refl, sym, ap, subst, ◌∙◌, true, false, Option, none, some, List, [], ◌∷◌,
  arith, u64_max, ok, is_ok, List-cases, inl, inr, ltb,
}
use opendata_contrib.Common.Ordered.{last_le, first_ge}
use opendata_contrib.Ack.{
  PendingRange, AckCoordinator, baseline_guard, contiguity_guard, frontier_guard, below_guard,
  above_guard, register_pending, expected_low,
}
use opendata_contrib.Ack.Chain.{
  Chain, chain_end, next_of, le-next_of, first_ge-Chain, LastEntry, LastEntry-cons,
}
use opendata_contrib.Ack.Invariant.{IsValid}
use opendata_contrib.Ack.Register.{Registered, register_pending-Registered}

-- The range may come next: it is not empty, it follows the last registered range, and the first
-- range follows the baseline that the constructor was given.
abbrev pub Admits : AckCoordinator → ℕ → ℕ → Type 0
Admits c low high =
    (low ≤ high)
    × ((h : ℕ) → c.last_registered_high ≡ some h → low ≡ h + 1)
    × ((b : ℕ) → c.last_registered_high ≡ none → c.initial_frontier_baseline ≡ some b → low ≡ b + 1)

module _ (c : AckCoordinator) (low high : ℕ) (v : IsValid c) (t : high ≤ u64_max)
    (a : Admits c low high) where
  baseline_passes :
      (l i : Option ℕ)
      → c.last_registered_high ≡ l
      → c.initial_frontier_baseline ≡ i
      → baseline_guard l i low ≡ ok tt
  unfolding baseline_guard
  baseline_passes none (some b) p q = ground (arith, a.0, a.2 b p q)
  baseline_passes none none p q = refl
  baseline_passes (some l) i p q = refl

  contiguity_passes : (l : Option ℕ) → c.last_registered_high ≡ l → contiguity_guard l low ≡ ok tt
  unfolding contiguity_guard
  contiguity_passes none p = refl
  contiguity_passes (some h) p = ground (arith, a.0, a.1 h p)

  -- With ranges pending, the new one lies above all of them and above the frontier.
  above_pending :
      (n : ℕ) (m : List (ℕ × PendingRange))
      → LastEntry n c.acked_frontier m
      → c.pending ≡ m
      → (next_of n m ≡ low) × (below_guard (last_le high m) low high ≡ ok tt)
  unfolding below_guard
  above_pending n m (i, s, e, f, b, l) p =
      let w : low ≡ s.high + 1 = a.1 s.high (v.last ∙ ap (chain_end c.acked_frontier) p ∙ e) in
      (f ∙ sym w, rw (l high (omega (arith, w, a.0))) (ground (arith, w)))

  -- The three guards that read the frontier and the pending map.
  abbrev Passes : List (ℕ × PendingRange) → Type 0
  Passes m =
      (frontier_guard c.acked_frontier low ≡ ok tt)
      × (below_guard (last_le high m) low high ≡ ok tt)
      × (above_guard (first_ge low m) low high ≡ ok tt)

  frontier_passes : (o : Option ℕ) → ((f : ℕ) → o ≡ some f → f < low) → frontier_guard o low ≡ ok tt
  unfolding frontier_guard
  frontier_passes none h = refl
  frontier_passes (some f) h = ground (arith, h f refl)

  above_passes : (e : Option (ℕ × PendingRange)) → e ≡ none → above_guard e low high ≡ ok tt
  unfolding above_guard
  above_passes none p = refl
  above_passes (some e) p = cc

  Passes-empty : c.pending ≡ [] → Passes []
  unfolding last_le first_ge below_guard above_guard
  Passes-empty p = (frontier_passes c.acked_frontier (λ f q. drained f q), refl, refl)
    where
      drained : (f : ℕ) → c.acked_frontier ≡ some f → f < low
      drained f q = omega (arith, a.1 f (v.last ∙ ap (chain_end c.acked_frontier) p ∙ q))

  -- A pending range lies above the frontier, so what follows it does too.
  frontier_below :
      (f n : ℕ) (o b : Option ℕ)
      → o ≡ some f
      → n ≡ expected_low o b
      → n < low
      → low ≤ u64_max
      → f < low
  unfolding expected_low
  frontier_below f n none b p q h k = cc
  frontier_below f n (some g) b p q h k = ground arith

  Passes-cons :
      (k : ℕ) (r : PendingRange) (m : List (ℕ × PendingRange))
      → Chain (expected_low c.acked_frontier c.effective_baseline) ((k, r) ∷ m)
      → c.pending ≡ (k, r) ∷ m
      → Passes ((k, r) ∷ m)
  Passes-cons k r m d p =
      let (x, y) =
        above_pending (expected_low c.acked_frontier c.effective_baseline) ((k, r) ∷ m)
          (LastEntry-cons _ c.acked_frontier k r m d) p in
      (
        frontier_passes c.acked_frontier λ f q.
            frontier_below f (expected_low c.acked_frontier c.effective_baseline) c.acked_frontier
              c.effective_baseline q refl (omega (arith, le-next_of (r.high + 1) m d.4, d.2, x))
              (omega (arith, a.0)),
        y,
        above_passes _ (first_ge-Chain _ low ((k, r) ∷ m) d (omega (arith, x))),
      )

  passes : Passes c.pending
  passes = elim (List-cases c.pending) [
    | inl p ↦ subst Passes (sym p) (Passes-empty p)
    | inr ((k, r), m, p) ↦ subst Passes (sym p) (
        Passes-cons k r m
          (subst (Chain (expected_low c.acked_frontier c.effective_baseline)) p v.chain) p)
  ]

  pub Admits-ok : is_ok (register_pending c low high) ≡ true
  unfolding register_pending
  Admits-ok =
      rw
        (
          ordered,
          baseline_passes _ _ refl refl,
          contiguity_passes _ refl,
          passes.0,
          passes.1,
          passes.2,
        )
        refl
    where
      ordered : ltb high low ≡ false
      ordered = ground (arith, a.0)

last_below :
    (c : AckCoordinator) (low high h : ℕ) (d : AckCoordinator)
    → IsValid c
    → Registered c low high d
    → c.last_registered_high ≡ some h
    → h < low
last_below c low high h d v g q = elim (List-cases c.pending) [
  | inl p ↦ g.3 h (sym (v.last ∙ ap (chain_end c.acked_frontier) p) ∙ q)
  | inr ((k, r), m, p) ↦
      let (i, s, e, f, b, l) =
        LastEntry-cons _ c.acked_frontier k r m
          (subst (Chain (expected_low c.acked_frontier c.effective_baseline)) p v.chain) in
      last_entry s i (sym q ∙ v.last ∙ ap (chain_end c.acked_frontier) p ∙ e) p b l
]
  where
    last_entry :
        (s : PendingRange) (i : ℕ) {m : List (ℕ × PendingRange)}
        → some h ≡ some s.high
        → c.pending ≡ m
        → s.high ≤ u64_max
        → ((x : ℕ) → s.high ≤ x → last_le x m ≡ some (i, s))
        → h < low
    last_entry s i e p b l =
        let w : h ≡ s.high = cc in
        omega (arith, g.4 i s (ap (last_le high) p ∙ l high (ground (arith, g.2 h q, g.0))))

pub ok-Admits :
    (c d : AckCoordinator) (low high : ℕ)
    → IsValid c
    → ((b : ℕ) → c.initial_frontier_baseline ≡ some b → b < u64_max)
    → register_pending c low high ≡ ok d
    → Admits c low high
ok-Admits c d low high v u e =
    let g = register_pending-Registered c d low high e in
    (
      g.0,
      λ h q. ground (arith, g.2 h q, last_below c low high h d v g q),
      λ b p q. ground (arith, g.1 b p q, u b q),
    )
