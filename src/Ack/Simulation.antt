-- ===== src/Ack/Simulation.antt =====
-- Each call keeps the ack coordinator (ack_coordinator.rs) and its log (Ack/Spec) together.
use opendata_contrib.Common.{
  ℕ, ◌≤◌, ◌≡◌, ◌≢◌, refl, sym, ap, subst, ◌∙◌, true, false, Option, none, some, List, [], ◌∷◌, ◌++◌,
  map, arith, All, All-append, Result, ok, err, is_ok, after, Bool-cases, Option-cases, inl, inr,
  u64_max,
}
use mathlib.Core.List.{append_assoc, map-append}
use opendata_contrib.Error.{RuntimeError}
use opendata_contrib.Common.Ordered.{get, replace}
use opendata_contrib.Ack.{
  PendingRange, AckCoordinator, register_pending, mark_committed, advance_frontier, commit_range,
  with_round,
}
use opendata_contrib.Ack.Invariant.{IsValid}
use opendata_contrib.Ack.Register.{register_pending-IsValid, register_pending_fields}
use opendata_contrib.Ack.Advance.{
  mark_committed-Marked, mark_committed-IsValid, advance_frontier-IsValid, advance_frontier-fixed,
}
use opendata_contrib.Ack.Prefix.{
  vals, IsCommitted, vals-append, last_high-append, prefix_high-uncommitted, mark-committed,
  mark-replace, mark-none, mark_other, Popped, advance_loop-Popped,
}
use opendata_contrib.Ack.Spec.{
  Log, last_high, prefix_high, admissible, register, mark, complete, Call, registers, completes,
  step, run,
}
use opendata_contrib.Ack.Refine.{
  Refines, accepts-eq-admissible, complete_range, step_coordinator, run_coordinator,
}

register-Refines :
    (c d : AckCoordinator) (l : Log) (low high : ℕ)
    → Refines c l
    → high ≤ u64_max
    → register_pending c low high ≡ ok d
    → Refines d (register l low high)
unfolding register
register-Refines c d l low high r t h =
    let (p, q, i) = register_pending_fields c d low high r.valid t h in
    let e : PendingRange = record { low = low; high = high; sink_committed = false } in
    let m : vals d.pending ≡ vals c.pending ++ e ∷ [] = ap vals p ∙ vals-append c.pending low e in
    let y : admissible l low high ≡ true =
      sym (accepts-eq-admissible c l low high r t) ∙ ap is_ok h in
    rw y (record {
      valid = register_pending-IsValid c d low high r.valid t h;
      small = λ b k. r.small b (sym i ∙ k);
      baseline = r.baseline ∙ sym i;
      done = r.done;
      committed = r.committed;
      ranges =
          ap (λ x. x ++ e ∷ []) r.ranges
          ∙ append_assoc r.done (vals c.pending) (e ∷ [])
          ∙ ap (◌++◌ r.done) (sym m);
      reached = q ∙ r.reached;
      settled =
          ap (λ o. prefix_high o (vals d.pending)) q
          ∙ ap (prefix_high c.acked_frontier) m
          ∙ prefix_high-uncommitted c.acked_frontier (vals c.pending) e refl
          ∙ r.settled
          ∙ sym q;
    })

-- The log after a commit of a range that the coordinator no longer holds, or does not know.
unmarked-Refines :
    (c : AckCoordinator) (l : Log) (low high : ℕ)
    → Refines c l
    → map (mark low high) (vals c.pending) ≡ vals c.pending
    → Refines c (complete l low high)
unfolding complete
unmarked-Refines c l low high r e = record {
  valid = r.valid;
  small = r.small;
  baseline = r.baseline;
  done = r.done;
  committed = r.committed;
  ranges =
      ap (map (mark low high)) r.ranges
      ∙ map-append (mark low high) r.done (vals c.pending)
      ∙ ap (λ x. x ++ map (mark low high) (vals c.pending))
          (mark-committed low high r.done r.committed)
      ∙ ap (◌++◌ r.done) e;
  reached = r.reached;
  settled = r.settled;
}

-- A commit that fails finds no such range to mark.
mark_committed-err :
    (c : AckCoordinator) (l : Log) (low high : ℕ) (e : RuntimeError)
    → Refines c l
    → mark_committed c low high ≡ err e
    → map (mark low high) (vals c.pending) ≡ vals c.pending
unfolding mark_committed
mark_committed-err c l low high e r h = elim (Option-cases (get low c.pending)) [
  | inl n ↦ mark-none _ low high c.pending r.valid.chain n
  | inr (x, s) ↦ mark_other _ low high x c.pending r.valid.chain s (differs x s)
]
  where
    differs : (x : PendingRange) → get low c.pending ≡ some x → x.high ≢ high
    differs x s q = ground (arith, h, s, q)

advanced-Refines :
    (c d : AckCoordinator) (l : Log) (low high : ℕ) (p : Option ℕ × List (ℕ × PendingRange))
    → Refines c l
    → IsValid (with_round d p)
    → d.acked_frontier ≡ c.acked_frontier
    → d.initial_frontier_baseline ≡ c.initial_frontier_baseline
    → map (mark low high) (vals c.pending) ≡ vals d.pending
    → Popped d.acked_frontier d.pending p
    → Refines (with_round d p) (complete l low high)
unfolding complete
advanced-Refines c d l low high (acked, m) r v q i e (popped, f, a, x, s) = record {
  valid = v;
  small = λ b k. r.small b (sym i ∙ k);
  baseline = r.baseline ∙ sym i;
  done = r.done ++ popped;
  committed = All-append IsCommitted r.done popped r.committed a;
  ranges =
      ap (map (mark low high)) r.ranges
      ∙ map-append (mark low high) r.done (vals c.pending)
      ∙ ap (λ y. y ++ map (mark low high) (vals c.pending))
          (mark-committed low high r.done r.committed)
      ∙ ap (◌++◌ r.done) (e ∙ f)
      ∙ sym (append_assoc r.done popped (vals m));
  reached =
      x ∙ ap (λ o. last_high o popped) (q ∙ r.reached) ∙ sym (last_high-append none r.done popped);
  settled = s;
}

-- A coordinator that holds a range has a fixed baseline.
held-fixed :
    (c : AckCoordinator) (low : ℕ) (e : PendingRange)
    → IsValid c
    → get low c.pending ≡ some e
    → c.baseline_fixed ≡ true
unfolding get
held-fixed c low e v g = elim (Bool-cases c.baseline_fixed) [
  | inl t ↦ t
  | inr f ↦ cc (g, ap (get low) (v.unfixed f).2)
]

marked-Refines :
    (c d : AckCoordinator) (l : Log) (low high : ℕ)
    → Refines c l
    → mark_committed c low high ≡ ok d
    → Refines (advance_frontier d) (complete l low high)
marked-Refines c d l low high r h =
    let (e, g, q, w) = mark_committed-Marked c d low high h in
    let v : IsValid d = mark_committed-IsValid c d low high r.valid h in
    let t : d.baseline_fixed ≡ true =
      ap (λ (x : AckCoordinator). x.baseline_fixed) w ∙ held-fixed c low e r.valid g in
    let m : map (mark low high) (vals c.pending) ≡ vals d.pending =
      subst (λ x. map (mark low x) (vals c.pending) ≡ vals (replace low (commit_range e) c.pending))
        q (mark-replace _ low e c.pending r.valid.chain g)
      ∙ sym (ap (λ (x : AckCoordinator). vals x.pending) w) in
    subst (λ x. Refines x (complete l low high)) (sym (advance_frontier-fixed d t))
      (advanced-Refines c d l low high _ r
        (subst IsValid (advance_frontier-fixed d t) (advance_frontier-IsValid d v).0)
        (ap (λ (x : AckCoordinator). x.acked_frontier) w)
        (ap (λ (x : AckCoordinator). x.initial_frontier_baseline) w) m
        (advance_loop-Popped d.effective_baseline d.acked_frontier d.pending v.chain))

complete-Refines :
    (c : AckCoordinator) (l : Log) (low high : ℕ)
    → Refines c l
    → Refines (complete_range c low high) (complete l low high)
unfolding complete_range
complete-Refines c l low high r = split (mark_committed c low high) refl
  where
    split :
        (x : Result RuntimeError AckCoordinator)
        → mark_committed c low high ≡ x
        → Refines (elim x [ ok d ↦ advance_frontier d | err e ↦ c ]) (complete l low high)
    split (ok d) h = marked-Refines c d l low high r h
    split (err e) h = unmarked-Refines c l low high r (mark_committed-err c l low high e r h)

-- The calls pass words.
abbrev pub InRange : Call → Type 0
InRange (registers low high) = high ≤ u64_max
InRange (completes low high) = high ≤ u64_max

register_refused :
    (l : Log) (low high : ℕ) → admissible l low high ≡ false → register l low high ≡ l
unfolding register
register_refused l low high n = rw n refl

pub step-Refines :
    (c : AckCoordinator) (l : Log) (s : Call)
    → Refines c l
    → InRange s
    → Refines (step_coordinator c s) (step l s)
unfolding step_coordinator step
step-Refines c l (completes low high) r t = complete-Refines c l low high r
step-Refines c l (registers low high) r t = split (register_pending c low high) refl
  where
    split :
        (x : Result RuntimeError AckCoordinator)
        → register_pending c low high ≡ x
        → Refines (after c x) (register l low high)
    split (ok d) h = register-Refines c d l low high r t h
    split (err e) h =
        subst (Refines c)
          (sym (
            register_refused l low high
              (sym (accepts-eq-admissible c l low high r t) ∙ ap is_ok h)))
          r

pub run-Refines :
    (c : AckCoordinator) (l : Log) (ss : List Call)
    → Refines c l
    → All InRange ss
    → Refines (run_coordinator c ss) (run l ss)
unfolding run_coordinator run
run-Refines c l [] r t = r
run-Refines c l (s ∷ ss) r t =
    run-Refines (step_coordinator c s) (step l s) ss (step-Refines c l s r t.0) t.1
