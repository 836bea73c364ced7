-- ===== src/Ack/Prefix.antt =====
-- Facts on the log of Ack/Spec: committed prefixes, the last range, and marking. `vals` is the list
-- of ranges of a pending map.
use opendata_contrib.Common.{
  ℕ, ◌+◌, ◌<◌, ◌≡◌, refl, ap, true, false, Option, none, some, List, [], ◌∷◌, ◌++◌, map, arith, All,
  Bool-cases, inl, inr, ◌⊎◌, ◌==◌, ◌≢◌, ==_iff,
}
use opendata_contrib.Common.Ordered.{get, replace}
use opendata_contrib.Ack.{PendingRange, commit_range, expected_low, advance_loop}
use opendata_contrib.Ack.Chain.{Chain, chain_end, Chain-saturating}
use opendata_contrib.Ack.Spec.{last_high, prefix_high, mark}

abbrev pub vals : List (ℕ × PendingRange) → List PendingRange
vals [] = []
vals ((k, r) ∷ m) = r ∷ vals m

abbrev pub IsCommitted : PendingRange → Type 0
IsCommitted r = r.sink_committed ≡ true

pub vals-append :
    (m : List (ℕ × PendingRange)) (k : ℕ) (v : PendingRange)
    → vals (m ++ (k, v) ∷ []) ≡ vals m ++ v ∷ []
vals-append [] k v = refl
vals-append ((j, r) ∷ m) k v = ap (◌∷◌ r) (vals-append m k v)

pub chain_end-vals :
    (o : Option ℕ) (m : List (ℕ × PendingRange)) → chain_end o m ≡ last_high o (vals m)
unfolding last_high
chain_end-vals o [] = refl
chain_end-vals o ((k, r) ∷ m) = chain_end-vals (some r.high) m

pub last_high-append :
    (o : Option ℕ) (xs ys : List PendingRange)
    → last_high o (xs ++ ys) ≡ last_high (last_high o xs) ys
unfolding last_high
last_high-append o [] ys = refl
last_high-append o (x ∷ xs) ys = last_high-append (some x.high) xs ys

-- Only an empty log has no last range, and then the last is the default.
pub last_high-default :
    (o : Option ℕ) (xs : List PendingRange)
    → ((last_high none xs ≡ none) × (last_high o xs ≡ o))
      ⊎ ((h : ℕ) × (last_high none xs ≡ some h) × (last_high o xs ≡ some h))
unfolding last_high
last_high-default o [] = inl (refl, refl)
last_high-default o (x ∷ []) = inr (x.high, refl, refl)
last_high-default o (x ∷ y ∷ ys) = elim (last_high-default (some x.high) (y ∷ ys)) [
  | inl (p, q) ↦ absurd (never y ys p)
  | inr (h, p, q) ↦ inr (h, q, q)
]
  where
    never : (y : PendingRange) (ys : List PendingRange) → last_high none (y ∷ ys) ≢ none
    never y [] e = cc
    never y (z ∷ zs) e = never z zs e

pub prefix_high-append :
    (o : Option ℕ) (xs ys : List PendingRange)
    → All IsCommitted xs
    → prefix_high o (xs ++ ys) ≡ prefix_high (last_high o xs) ys
unfolding last_high prefix_high
prefix_high-append o [] ys h = refl
prefix_high-append o (x ∷ xs) ys h = rw (h.0) (prefix_high-append (some x.high) xs ys h.1)

pub prefix_high-uncommitted :
    (o : Option ℕ) (xs : List PendingRange) (v : PendingRange)
    → v.sink_committed ≡ false
    → prefix_high o (xs ++ v ∷ []) ≡ prefix_high o xs
unfolding prefix_high
prefix_high-uncommitted o [] v h = rw h refl
prefix_high-uncommitted o (x ∷ xs) v h =
    ground (arith, prefix_high-uncommitted (some x.high) xs v h)

pub mark-committed :
    (low high : ℕ) (xs : List PendingRange) → All IsCommitted xs → map (mark low high) xs ≡ xs
unfolding mark
mark-committed low high [] h = refl
mark-committed low high (x ∷ xs) h = ground (arith, mark-committed low high xs h.1)

-- Marking by `low` and `high` is what `replace` does under the key `low` of a chain.
mark_above :
    (low high n : ℕ) (m : List (ℕ × PendingRange))
    → Chain n m
    → low < n
    → map (mark low high) (vals m) ≡ vals m
unfolding mark
mark_above low high n [] c h = refl
mark_above low high n ((k, r) ∷ m) c h = ground (arith, mark_above low high (r.high + 1) m c.4)

pub mark-replace :
    (n low : ℕ) (e : PendingRange) (m : List (ℕ × PendingRange))
    → Chain n m
    → get low m ≡ some e
    → map (mark low e.high) (vals m) ≡ vals (replace low (commit_range e) m)
unfolding mark get replace
mark-replace n low e [] c g = cc
mark-replace n low e ((k, r) ∷ m) c g =
    ground (arith, mark_above low e.high (r.high + 1) m c.4, mark-replace (r.high + 1) low e m c.4)

-- A range that is not pending, or that is pending with another `high`, is not marked.
pub mark-none :
    (n low high : ℕ) (m : List (ℕ × PendingRange))
    → Chain n m
    → get low m ≡ none
    → map (mark low high) (vals m) ≡ vals m
unfolding mark get
mark-none n low high [] c g = refl
mark-none n low high ((k, r) ∷ m) c g = ground (arith, mark-none (r.high + 1) low high m c.4)

pub mark_other :
    (n low high : ℕ) (e : PendingRange) (m : List (ℕ × PendingRange))
    → Chain n m
    → get low m ≡ some e
    → e.high ≢ high
    → map (mark low high) (vals m) ≡ vals m
unfolding mark get
mark_other n low high e [] c g h = refl
mark_other n low high e ((k, r) ∷ m) c g h =
    ground (arith, mark_above low high (r.high + 1) m c.4, mark_other (r.high + 1) low high e m c.4)

-- The loop of `advance_frontier` splits a chain into a committed part, whose end is the new
-- frontier, and a rest that begins with no committed range.
abbrev pub Popped : Option ℕ → List (ℕ × PendingRange) → Option ℕ × List (ℕ × PendingRange) → Type 0
Popped acked m (acked', m') =
    (popped : List PendingRange) × (vals m ≡ popped ++ vals m')
    × All IsCommitted popped
    × (acked' ≡ last_high acked popped)
    × (prefix_high acked' (vals m') ≡ acked')

pub advance_loop-Popped :
    (base acked : Option ℕ) (m : List (ℕ × PendingRange))
    → Chain (expected_low acked base) m
    → Popped acked m (advance_loop base acked m)
unfolding advance_loop last_high prefix_high
advance_loop-Popped base acked [] c = ([], refl, tt, refl, refl)
advance_loop-Popped base acked ((k, r) ∷ m) c = elim (Bool-cases r.sink_committed) [
  | inl t ↦
      let (popped, e, a, q, s) =
        advance_loop-Popped base (some r.high) m (Chain-saturating r.high m c.3 c.4) in
      let start : (r.low == expected_low acked base) ≡ true = (==_iff _ _).1 c.1 in
      simp (t, start) (r ∷ popped, ap (◌∷◌ r) e, (t, a), q, s)
  | inr f ↦ simp f ([], refl, tt, refl, refl)
]
