-- ===== src/Ack/Chain.antt =====
-- The pending map of ack_coordinator.rs as a gap-free chain of ranges, and what the map operations
-- do on a chain.
use opendata_contrib.Common.{
  ℕ, ◌+◌, ◌≤◌, ◌≡◌, refl, Option, none, some, List, [], ◌∷◌, ◌++◌, arith, u64_max, saturating_add,
  le→leb,
}
use opendata_contrib.Common.Ordered.{insert, last_le, first_ge}
use opendata_contrib.Ack.{PendingRange}

-- Each range is stored under its `low`, is not empty, and begins where the one before it ends.
abbrev pub Chain : ℕ → List (ℕ × PendingRange) → Type 0
Chain n [] = Unit {0}
Chain n ((k, r) ∷ m) =
    (k ≡ n) × (r.low ≡ n) × (n ≤ r.high) × (r.high ≤ u64_max) × Chain (r.high + 1) m

-- The sequence after the last range of a chain that begins at `n`.
abbrev pub next_of : ℕ → List (ℕ × PendingRange) → ℕ
next_of n [] = n
next_of n ((k, r) ∷ m) = next_of (r.high + 1) m

-- The `high` of the last range, or `o` if there is none.
abbrev pub chain_end : Option ℕ → List (ℕ × PendingRange) → Option ℕ
chain_end o [] = o
chain_end o ((k, r) ∷ m) = chain_end (some r.high) m

pub le-next_of : (n : ℕ) (m : List (ℕ × PendingRange)) → Chain n m → n ≤ next_of n m
le-next_of n [] h = omega arith
le-next_of n ((k, r) ∷ m) h = omega (arith, le-next_of (r.high + 1) m h.4)

-- Beyond the last word no range can follow, so the saturated start serves as well.
pub Chain-saturating :
    (h : ℕ) (m : List (ℕ × PendingRange))
    → h ≤ u64_max
    → Chain (h + 1) m
    → Chain (saturating_add h 1) m
Chain-saturating h [] b c = tt
Chain-saturating h ((k, r) ∷ m) b c = ground arith

pub insert-Chain :
    (n low : ℕ) (v : PendingRange) (m : List (ℕ × PendingRange))
    → Chain n m
    → next_of n m ≤ low
    → insert low v m ≡ m ++ (low, v) ∷ []
unfolding insert
insert-Chain n low v [] c h = refl
insert-Chain n low v ((k, r) ∷ m) c h =
    ground (arith, le-next_of (r.high + 1) m, insert-Chain (r.high + 1) low v m c.4 h)

pub first_ge-Chain :
    (n low : ℕ) (m : List (ℕ × PendingRange))
    → Chain n m
    → next_of n m ≤ low
    → first_ge low m ≡ none
unfolding first_ge
first_ge-Chain n low [] c h = refl
first_ge-Chain n low ((k, r) ∷ m) c h =
    ground (arith, le-next_of (r.high + 1) m, first_ge-Chain (r.high + 1) low m c.4 h)

pub Chain-append :
    (n : ℕ) (v : PendingRange) (m : List (ℕ × PendingRange))
    → Chain n m
    → v.low ≡ next_of n m
    → v.low ≤ v.high
    → v.high ≤ u64_max
    → Chain n (m ++ (v.low, v) ∷ [])
Chain-append n v [] c e h b = (e, e, omega arith, b, tt)
Chain-append n v ((k, r) ∷ m) c e h b =
    (c.0, c.1, c.2, c.3, Chain-append (r.high + 1) v m c.4 e h b)

pub chain_end-append :
    (o : Option ℕ) (k : ℕ) (v : PendingRange) (m : List (ℕ × PendingRange))
    → chain_end o (m ++ (k, v) ∷ []) ≡ some v.high
chain_end-append o k v [] = refl
chain_end-append o k v ((j, r) ∷ m) = chain_end-append (some r.high) k v m

-- What the last entry of a chain is.
abbrev pub LastEntry : ℕ → Option ℕ → List (ℕ × PendingRange) → Type 0
LastEntry n o m =
    (k : ℕ) × (r : PendingRange) × (chain_end o m ≡ some r.high)
    × (next_of n m ≡ r.high + 1)
    × (r.high ≤ u64_max)
    × ((x : ℕ) → r.high ≤ x → last_le x m ≡ some (k, r))

last_le-cons :
    (n x : ℕ) (r v : PendingRange) (k : ℕ) (m : List (ℕ × PendingRange))
    → n ≤ x
    → last_le x m ≡ some (k, v)
    → last_le x ((n, r) ∷ m) ≡ some (k, v)
unfolding last_le
last_le-cons n x r v k m h e = rw (le→leb n x h, e) refl

last_le-one : (n x : ℕ) (r : PendingRange) → n ≤ x → last_le x ((n, r) ∷ []) ≡ some (n, r)
unfolding last_le
last_le-one n x r h = rw (le→leb n x h) refl

pub LastEntry-cons :
    (n : ℕ) (o : Option ℕ) (k : ℕ) (r : PendingRange) (m : List (ℕ × PendingRange))
    → Chain n ((k, r) ∷ m)
    → LastEntry n o ((k, r) ∷ m)
LastEntry-cons n o k r [] c = (k, r, refl, refl, c.3, λ x h. last_le-one k x r (omega arith))
LastEntry-cons n o k r ((j, s) ∷ m) c =
    let (i, v, e, f, b, g) = LastEntry-cons (r.high + 1) (some r.high) j s m c.4 in
    (
      i,
      v,
      e,
      f,
      b,
      λ x h.
          last_le-cons k x r v i ((j, s) ∷ m)
            (omega (arith, le-next_of (r.high + 1) ((j, s) ∷ m) c.4)) (g x h),
    )
