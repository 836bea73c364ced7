-- ===== src/Ack/Advance.antt =====
-- `mark_committed` and `advance_frontier` (ack_coordinator.rs) keep a coordinator well formed, and
-- the frontier only grows.
use opendata_contrib.Common.{
  ℕ, ◌+◌, ◌≤◌, ◌≡◌, refl, sym, ap, subst, ◌≢◌, ◌∙◌, true, Option, none, some, List, [], ◌∷◌, arith,
  u64_max, ok, >>-eq-ok, >>=-eq-ok, fail_if, ok_or, ◌==◌, not, Bool-cases, inl, inr, ◌&&◌,
  true_ne_false, if◌then◌else◌, false,
}
use opendata_contrib.Common.Ordered.{get, replace}
use opendata_contrib.Ack.{
  PendingRange, AckCoordinator, mark_committed, commit_range, expected_low, advance_loop,
  advance_frontier, with_round,
}
use opendata_contrib.Ack.Chain.{Chain, chain_end, Chain-saturating}
use opendata_contrib.Ack.Invariant.{IsValid}

pub Chain-replace :
    (n k : ℕ) (e : PendingRange) (m : List (ℕ × PendingRange))
    → get k m ≡ some e
    → Chain n m
    → Chain n (replace k (commit_range e) m)
unfolding get replace
Chain-replace n k e [] g c = tt
Chain-replace n k e ((j, r) ∷ m) g c = ground (arith, Chain-replace (r.high + 1) k e m)

pub chain_end-replace :
    (o : Option ℕ) (k : ℕ) (e : PendingRange) (m : List (ℕ × PendingRange))
    → get k m ≡ some e
    → chain_end o (replace k (commit_range e) m) ≡ chain_end o m
unfolding get replace
chain_end-replace o k e [] g = refl
chain_end-replace o k e ((j, r) ∷ m) g = ground (arith, chain_end-replace (some r.high) k e m)

-- What a successful `mark_committed` has found.
abbrev pub Marked : AckCoordinator → ℕ → ℕ → AckCoordinator → Type 0
Marked c low high d =
    (e : PendingRange) × (get low c.pending ≡ some e)
    × (e.high ≡ high)
    × (d ≡ record c { pending = replace low (commit_range e) c.pending })

ok_or-some {ℓ κ} :
    {E : Type ℓ} {A : Type κ} (o : Option A) (e : E) (a : A) → ok_or o e ≡ ok a → o ≡ some a
ok_or-some none e a h = cc
ok_or-some (some b) e a h = cc

pub mark_committed-Marked :
    (c d : AckCoordinator) (low high : ℕ) → mark_committed c low high ≡ ok d → Marked c low high d
unfolding mark_committed
mark_committed-Marked c d low high h =
    let (e, p, h0) = >>=-eq-ok (ok_or (get low c.pending) _) _ h in
    let (g, h1) = >>-eq-ok (fail_if (not (e.high == high)) _) _ h0 in
    (e, ok_or-some _ _ e p, ground arith, cc)

-- A successful commit keeps a coordinator well formed.
pub mark_committed-IsValid :
    (c d : AckCoordinator) (low high : ℕ) → IsValid c → mark_committed c low high ≡ ok d → IsValid d
unfolding replace
mark_committed-IsValid c d low high v h =
    let (e, p, q, w) = mark_committed-Marked c d low high h in subst IsValid (sym w) (marked e p)
  where
    marked :
        (e : PendingRange)
        → get low c.pending ≡ some e
        → IsValid (record c { pending = replace low (commit_range e) c.pending })
    marked e p = record {
      chain = Chain-replace _ low e c.pending p v.chain;
      last = v.last ∙ sym (chain_end-replace c.acked_frontier low e c.pending p);
      unfixed = λ f. let (x, y, z) = v.unfixed f in (x, y, ap (replace low (commit_range e)) z);
      unregistered = v.unregistered;
      pinned = v.pinned;
      frontier_bound = v.frontier_bound;
      baseline_bound = v.baseline_bound;
    }

-- The frontier as a number, with 0 for a frontier that has not been reached.
abbrev pub AtMost : Option ℕ → Option ℕ → Type 0
AtMost none b = Unit {0}
AtMost (some a) none = ⊥
AtMost (some a) (some b) = a ≤ b

AtMost-refl : (a : Option ℕ) → AtMost a a
AtMost-refl none = tt
AtMost-refl (some a) = omega arith

AtMost-trans : (a b c : Option ℕ) → AtMost a b → AtMost b c → AtMost a c
AtMost-trans none b c h k = tt
AtMost-trans (some a) none c h k = absurd h
AtMost-trans (some a) (some b) none h k = absurd k
AtMost-trans (some a) (some b) (some c) h k = omega arith

-- What the loop of `advance_frontier` leaves: a chain from the new frontier with the same end.
abbrev pub Advanced :
    Option ℕ → Option ℕ → List (ℕ × PendingRange) → Option ℕ × List (ℕ × PendingRange) → Type 0
Advanced base acked m (acked', m') =
    Chain (expected_low acked' base) m'
    × (chain_end acked' m' ≡ chain_end acked m)
    × AtMost acked acked'
    × AtMost acked' (some u64_max)
    × ((acked' ≡ none) → (acked ≡ none))

advance_step :
    (base acked : Option ℕ) (k : ℕ) (r : PendingRange) (m : List (ℕ × PendingRange))
    → AtMost acked (some u64_max)
    → Chain (expected_low acked base) ((k, r) ∷ m)
    → r.low ≡ expected_low acked base
    → AtMost acked (some r.high)
unfolding expected_low
advance_step base none k r m b c e = tt
advance_step base (some f) k r m b c e = ground arith

pub advance_loop-Advanced :
    (base acked : Option ℕ) (m : List (ℕ × PendingRange))
    → AtMost acked (some u64_max)
    → Chain (expected_low acked base) m
    → Advanced base acked m (advance_loop base acked m)
unfolding advance_loop
advance_loop-Advanced base acked [] b c = (tt, refl, AtMost-refl acked, b, λ e. e)
advance_loop-Advanced base acked ((k, r) ∷ m) b c =
    elim (Bool-cases (r.sink_committed && (r.low == expected_low acked base))) [
      | inl pop ↦
          let rest = advance_loop-Advanced base (some r.high) m c.3 (next_start c) in
          rw pop (
            rest.0,
            rest.1,
            AtMost-trans acked (some r.high) _ (advance_step base acked k r m b c c.1) rest.2,
            rest.3,
            λ e. absurd (some_ne_none (rest.4 e)),
          )
      | inr stop ↦ rw stop (c, refl, AtMost-refl acked, b, λ e. e)
    ]
  where
    next_start :
        Chain (expected_low acked base) ((k, r) ∷ m) → Chain (expected_low (some r.high) base) m
    next_start d = Chain-saturating r.high m d.3 d.4

    some_ne_none : some r.high ≢ none
    some_ne_none e = cc

AtMost-some : (o : Option ℕ) (b : ℕ) → ((f : ℕ) → o ≡ some f → f ≤ b) → AtMost o (some b)
AtMost-some none b h = tt
AtMost-some (some f) b h = h f refl

some-AtMost : (o : Option ℕ) (b f : ℕ) → AtMost o (some b) → o ≡ some f → f ≤ b
some-AtMost none b f h e = cc
some-AtMost (some g) b f h e = ground arith

with_round-IsValid :
    (c : AckCoordinator) (r : Option ℕ × List (ℕ × PendingRange))
    → IsValid c
    → c.baseline_fixed ≡ true
    → Advanced c.effective_baseline c.acked_frontier c.pending r
    → IsValid (with_round c r)
with_round-IsValid c (acked, m) v t a = record {
  chain = a.0;
  last = v.last ∙ sym a.1;
  unfixed = λ f. absurd (true_ne_false (sym t ∙ f));
  unregistered = v.unregistered;
  pinned = v.pinned;
  frontier_bound = λ f e. some-AtMost acked u64_max f a.3 e;
  baseline_bound = v.baseline_bound;
}

-- The two cases of `advance_frontier`.
pub advance_frontier-fixed :
    (c : AckCoordinator)
    → c.baseline_fixed ≡ true
    → advance_frontier c
      ≡ with_round c (advance_loop c.effective_baseline c.acked_frontier c.pending)
unfolding advance_frontier
advance_frontier-fixed c t =
    ap
      (λ b.
        if b
        then with_round c (advance_loop c.effective_baseline c.acked_frontier c.pending)
        else c)
      t

pub advance_frontier-unfixed :
    (c : AckCoordinator) → c.baseline_fixed ≡ false → advance_frontier c ≡ c
unfolding advance_frontier
advance_frontier-unfixed c f =
    ap
      (λ b.
        if b
        then with_round c (advance_loop c.effective_baseline c.acked_frontier c.pending)
        else c)
      f

-- `advance_frontier` keeps a coordinator well formed and never moves the frontier back.
pub advance_frontier-IsValid :
    (c : AckCoordinator)
    → IsValid c
    → IsValid (advance_frontier c) × AtMost c.acked_frontier (advance_frontier c).acked_frontier
advance_frontier-IsValid c v = elim (Bool-cases c.baseline_fixed) [
  | inl t ↦
      let a =
        advance_loop-Advanced c.effective_baseline c.acked_frontier c.pending
          (AtMost-some c.acked_frontier u64_max v.frontier_bound) v.chain in
      subst Kept (sym (advance_frontier-fixed c t)) (with_round-IsValid c _ v t a, a.2)
  | inr f ↦ subst Kept (sym (advance_frontier-unfixed c f)) (v, AtMost-refl c.acked_frontier)
]
  where
    Kept : AckCoordinator → Type 0
    Kept d = IsValid d × AtMost c.acked_frontier d.acked_frontier
