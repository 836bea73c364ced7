-- ===== src/Source/Ranges.antt =====
-- The lockstep scan of `split_into_raw_entries` (source.rs) against the owner of each entry.
use opendata_contrib.Common.{
  ℕ, suc, ◌+◌, ◌%◌, ◌≤◌, ◌<◌, ◌≡◌, refl, sym, ap, subst, ◌∙◌, Option, none, some, List, [], ◌∷◌,
  leb, if◌then◌else◌, arith, length, All, inl, inr, Bool-cases, String, true,
}
use opendata_contrib.Source.{
  Metadata, ConsumedBatch, SourceEntry, bump_range, raw_entry, raw_entries, split_into_raw_entries,
}

-- The range of an entry, without the scan: the last of the ranges whose start is at most the index, and
-- the first range when there is none.
abbrev pub owner_from : Metadata → List Metadata → ℕ → Metadata
owner_from m [] i = m
owner_from m (n ∷ ms) i = if leb n.start_index i then owner_from n ms i else owner_from m ms i

abbrev pub owner : List Metadata → ℕ → Option Metadata
owner [] i = none
owner (m ∷ ms) i = some (owner_from m ms i)

abbrev pub described : Option Metadata → ℕ → List ℕ → SourceEntry
described none i payload = raw_entry [] i payload
described (some m) i payload = raw_entry (m ∷ []) i payload

-- The ranges start in ascending order.
abbrev pub IsAscending : List Metadata → Type 0
IsAscending [] = Unit
IsAscending (m ∷ ms) = All (λ n. m.start_index ≤ n.start_index) ms × IsAscending ms

-- None of the later ranges has started.
owner_from-later :
    (m : Metadata) (ms : List Metadata) (i k : ℕ)
    → i < k
    → All (λ n. k ≤ n.start_index) ms
    → owner_from m ms i ≡ m
owner_from-later m [] i k lt h = refl
owner_from-later m (n ∷ ms) i k lt h = ground (arith, h.0, owner_from-later m ms i k lt h.1)

bump_range-owner :
    (ranges : List Metadata) (i : ℕ) (payload : List ℕ)
    → IsAscending ranges
    → raw_entry (bump_range ranges i) i payload ≡ described (owner ranges i) i payload
unfolding bump_range
bump_range-owner [] i payload h = refl
bump_range-owner (m ∷ []) i payload h = refl
bump_range-owner (m ∷ n ∷ ms) i payload h = elim (Bool-cases (leb n.start_index i)) [
  | inl t ↦ rw t (bump_range-owner (n ∷ ms) i payload h.1)
  | inr f ↦ rw f (
      ap (λ o. described (some o) i payload)
        (sym (owner_from-later m ms i n.start_index (ground (arith, f)) h.1.0)))
]

owner-bump_range :
    (ranges : List Metadata) (i j : ℕ) → i ≤ j → owner (bump_range ranges i) j ≡ owner ranges j
unfolding bump_range
owner-bump_range [] i j le = refl
owner-bump_range (m ∷ []) i j le = refl
owner-bump_range (m ∷ n ∷ ms) i j le = elim (Bool-cases (leb n.start_index i)) [
  | inl t ↦ rw t (
      owner-bump_range (n ∷ ms) i j le
      ∙ ap some (started n.start_index i j _ (owner_from m ms j) le t))
  | inr f ↦ rw f refl
]
  where
    started : (k i j : ℕ) (a b : Metadata) → i ≤ j → leb k i ≡ true → a ≡ (if leb k j then a else b)
    started k i j a b le t = ground arith

bump_range-IsAscending :
    (ranges : List Metadata) (i : ℕ) → IsAscending ranges → IsAscending (bump_range ranges i)
unfolding bump_range
bump_range-IsAscending [] i h = h
bump_range-IsAscending (m ∷ []) i h = h
bump_range-IsAscending (m ∷ n ∷ ms) i h = elim (Bool-cases (leb n.start_index i)) [
  | inl t ↦ rw t (bump_range-IsAscending (n ∷ ms) i h.1)
  | inr f ↦ rw f h
]

-- Each payload with its index and the range that owns it.
abbrev pub owned : List Metadata → ℕ → List (List ℕ) → List SourceEntry
owned ranges i [] = []
owned ranges i (payload ∷ entries) =
    described (owner ranges i) i payload ∷ owned ranges (i + 1) entries

owned-bump_range :
    (ranges : List Metadata) (i k : ℕ) (entries : List (List ℕ))
    → i ≤ k
    → owned (bump_range ranges i) k entries ≡ owned ranges k entries
owned-bump_range ranges i k [] le = refl
owned-bump_range ranges i k (payload ∷ entries) le =
    cons (ap (λ o. described o k payload) (owner-bump_range ranges i k le))
      (owned-bump_range ranges i (k + 1) entries (omega arith))
  where
    cons : {a b : SourceEntry} {l m : List SourceEntry} → a ≡ b → l ≡ m → (a ∷ l) ≡ (b ∷ m)
    cons e f = cc

raw_entries-owned :
    (ranges : List Metadata) (i : ℕ) (entries : List (List ℕ))
    → IsAscending ranges
    → i + length entries ≤ 4294967296
    → raw_entries ranges i entries ≡ owned ranges i entries
unfolding raw_entries
raw_entries-owned ranges i [] h le = refl
raw_entries-owned ranges i (payload ∷ entries) h le =
    subst
      (λ k.
        (raw_entry (bump_range ranges k) k payload
          ∷ raw_entries (bump_range ranges k) (i + 1) entries)
        ≡ owned ranges i (payload ∷ entries))
      (no_wrap i (length entries) le)
      (cons (bump_range-owner ranges i payload h) (
        raw_entries-owned (bump_range ranges i) (i + 1) entries (bump_range-IsAscending ranges i h)
          (omega (arith, le))
        ∙ owned-bump_range ranges i (i + 1) entries (omega arith)))
  where
    no_wrap : (i n : ℕ) → i + suc n ≤ 4294967296 → i ≡ i % 4294967296
    no_wrap i n le = ground arith

    cons : {a b : SourceEntry} {l m : List SourceEntry} → a ≡ b → l ≡ m → (a ∷ l) ≡ (b ∷ m)
    cons e f = cc

-- The lockstep scan gives each entry its own range: for metadata whose ranges start in ascending order
-- and at most 2^32 entries, the entry at index `i` carries the index `i`, its payload, and the metadata
-- of the last range that starts at most at `i`, or of the first range when all start later.
pub split_into_raw_entries-owned :
    (batch : ConsumedBatch) (source manifest_path : String)
    → IsAscending batch.metadata
    → length batch.entries ≤ 4294967296
    → (split_into_raw_entries batch source manifest_path).entries
      ≡ owned batch.metadata 0 batch.entries
unfolding split_into_raw_entries
split_into_raw_entries-owned batch source manifest_path h le =
    raw_entries-owned batch.metadata 0 batch.entries h (omega (arith, le))
