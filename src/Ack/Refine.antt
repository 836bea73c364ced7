-- ===== src/Ack/Refine.antt =====
-- The ack coordinator (ack_coordinator.rs) against its specification (Ack/Spec).
use opendata_contrib.Common.{
  ℕ, ◌+◌, ◌≤◌, ◌<◌, ◌≡◌, refl, sym, ap, ◌∙◌, true, false, String, Option, none, some, List, [], ◌∷◌,
  ◌++◌, arith, All, Result, ok, err, is_ok, after, Bool-cases, inl, inr, ◌&&◌, u64_max, leb,
  Option-cases, true_ne_false,
}
use opendata_contrib.Error.{RuntimeError}
use opendata_contrib.Ack.{
  PendingRange, AckCoordinator, new, register_pending, mark_committed, advance_frontier,
}
use opendata_contrib.Ack.Invariant.{IsValid, new-IsValid}
use opendata_contrib.Ack.Admission.{Admits, Admits-ok, ok-Admits}
use opendata_contrib.Ack.Prefix.{
  vals, IsCommitted, chain_end-vals, last_high-append, last_high-default, prefix_high-append,
}
use opendata_contrib.Ack.Spec.{
  Log, open_log, last_high, prefix_high, frontier, follows, admissible, Call, registers, completes,
}

-- A commit and the advance that the runtime makes after it; a commit that fails changes nothing.
unfoldable pub complete_range : AckCoordinator → ℕ → ℕ → AckCoordinator
complete_range c low high = elim (mark_committed c low high) [
  | ok d ↦ advance_frontier d
  | err e ↦ c
]

unfoldable pub step_coordinator : AckCoordinator → Call → AckCoordinator
step_coordinator c (registers low high) = after c (register_pending c low high)
step_coordinator c (completes low high) = complete_range c low high

unfoldable pub run_coordinator : AckCoordinator → List Call → AckCoordinator
run_coordinator c [] = c
run_coordinator c (s ∷ ss) = run_coordinator (step_coordinator c s) ss

-- The log is a committed part that the coordinator has dropped, then what is pending, which begins
-- with no committed range; the frontier is the end of the first part.
pub record Refines (c : AckCoordinator) (l : Log) : Type 0 where
  pub valid : IsValid c
  pub small : (b : ℕ) → c.initial_frontier_baseline ≡ some b → b < u64_max
  pub baseline : l.baseline ≡ c.initial_frontier_baseline
  pub done : List PendingRange
  pub committed : All IsCommitted done
  pub ranges : l.ranges ≡ done ++ vals c.pending
  pub reached : c.acked_frontier ≡ last_high none done
  pub settled : prefix_high c.acked_frontier (vals c.pending) ≡ c.acked_frontier

pub new-Refines :
    (source : String) (b : Option ℕ)
    → ((a : ℕ) → b ≡ some a → a < u64_max)
    → Refines (new source b) (open_log b)
unfolding new open_log last_high prefix_high
new-Refines source b h = record {
  valid = new-IsValid source b (λ a e. omega (arith, h a e));
  small = h;
  baseline = refl;
  done = [];
  committed = tt;
  ranges = refl;
  reached = refl;
  settled = refl;
}

-- The two frontiers are one.
pub frontier-Refines : (c : AckCoordinator) (l : Log) → Refines c l → frontier l ≡ c.acked_frontier
unfolding frontier
frontier-Refines c l r =
    ap (prefix_high none) r.ranges
    ∙ prefix_high-append none r.done (vals c.pending) r.committed
    ∙ ap (λ o. prefix_high o (vals c.pending)) (sym r.reached)
    ∙ r.settled

-- And so are the last registered ranges.
last-Refines :
    (c : AckCoordinator) (l : Log) → Refines c l → last_high none l.ranges ≡ c.last_registered_high
last-Refines c l r =
    ap (last_high none) r.ranges
    ∙ last_high-append none r.done (vals c.pending)
    ∙ ap (λ o. last_high o (vals c.pending)) (sym r.reached)
    ∙ sym (chain_end-vals c.acked_frontier c.pending)
    ∙ sym r.valid.last

module _ (c : AckCoordinator) (l : Log) (r : Refines c l) where
  known_some : (h : ℕ) → c.last_registered_high ≡ some h → last_high l.baseline l.ranges ≡ some h
  known_some h e = elim (last_high-default l.baseline l.ranges) [
    | inl (p, q) ↦ cc (last-Refines c l r)
    | inr (x, p, q) ↦ cc (last-Refines c l r)
  ]

  known_none :
      c.last_registered_high ≡ none → last_high l.baseline l.ranges ≡ c.initial_frontier_baseline
  known_none e = elim (last_high-default l.baseline l.ranges) [
    | inl (p, q) ↦ q ∙ r.baseline
    | inr (x, p, q) ↦ cc (last-Refines c l r)
  ]

-- What `admissible` tests, given the last known sequence.
admissible_known :
    (o : Option ℕ) (low high : ℕ)
    → (leb low high && follows o low) ≡ true
    → (low ≤ high) × ((h : ℕ) → o ≡ some h → low ≡ h + 1)
unfolding follows
admissible_known none low high e = (ground arith, λ h p. cc)
admissible_known (some x) low high e = (ground arith, λ h p. ground arith)

known_admissible :
    (o : Option ℕ) (low high : ℕ)
    → low ≤ high
    → ((h : ℕ) → o ≡ some h → low ≡ h + 1)
    → (leb low high && follows o low) ≡ true
unfolding follows
known_admissible none low high b e = ground arith
known_admissible (some x) low high b e = ground (arith, e x refl)

module _ (c : AckCoordinator) (l : Log) (low high : ℕ) (r : Refines c l) where
  admissible-Admits : admissible l low high ≡ true → Admits c low high
  unfolding admissible
  admissible-Admits h =
      let (b, k) = admissible_known (last_high l.baseline l.ranges) low high h in
      (b, λ x e. k x (known_some c l r x e), λ x e f. k x (known_none c l r e ∙ f))

  Admits-admissible : Admits c low high → admissible l low high ≡ true
  unfolding admissible
  Admits-admissible a = known_admissible (last_high l.baseline l.ranges) low high a.0 λ x e.
      elim (Option-cases c.last_registered_high) [
        | inl n ↦ a.2 x n (sym (known_none c l r n) ∙ e)
        | inr (y, s) ↦
            let w : last_high l.baseline l.ranges ≡ some y = known_some c l r y s in
            let z : x ≡ y = cc in omega (arith, a.1 y s, z)
      ]

-- The coordinator accepts a range exactly when the log admits it.
pub accepts-eq-admissible :
    (c : AckCoordinator) (l : Log) (low high : ℕ)
    → Refines c l
    → high ≤ u64_max
    → is_ok (register_pending c low high) ≡ admissible l low high
accepts-eq-admissible c l low high r t = elim (Bool-cases (admissible l low high)) [
  | inl y ↦ Admits-ok c low high r.valid t (admissible-Admits c l low high r y) ∙ sym y
  | inr n ↦ refused (register_pending c low high) refl n ∙ sym n
]
  where
    refused :
        (x : Result RuntimeError AckCoordinator)
        → register_pending c low high ≡ x
        → admissible l low high ≡ false
        → is_ok (register_pending c low high) ≡ false
    refused (err e) p n = ap is_ok p
    refused (ok d) p n = absurd (
        true_ne_false
          (sym (Admits-admissible c l low high r (ok-Admits c d low high r.valid r.small p)) ∙ n))
