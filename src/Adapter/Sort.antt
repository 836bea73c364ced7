-- ===== src/Adapter/Sort.antt =====
-- `records.sort_by_key(...)` of adapter/logs.rs. The library's sort is stable: a record is put before the
-- first one whose key is not below its own, from the last record to the first.
use opendata_contrib.Common.{
  ◌≡◌, refl, ap, ◌∙◌, Bool, true, false, List, [], ◌∷◌, ltb, leb, ◌==◌, if◌then◌else◌, Bool-cases,
  inl, inr, All, arith, suc, length, ◌<◌, ◌≤◌, ◌⊎◌,
}
use opendata_contrib.Logs.{DecodedLogRecord}
use mathlib.Core.List.{Perm}
use mathlib.Core.List.Perm

-- The derived order of the key's tuple.
unfoldable pub key_le : DecodedLogRecord → DecodedLogRecord → Bool
key_le r s =
    if r.source.buffer_sequence == s.source.buffer_sequence
    then (if r.source.entry_index == s.source.entry_index
        then leb r.source.record_index s.source.record_index
        else ltb r.source.entry_index s.source.entry_index)
    else ltb r.source.buffer_sequence s.source.buffer_sequence

unfoldable pub place : DecodedLogRecord → List DecodedLogRecord → List DecodedLogRecord
place r [] = r ∷ []
place r (s ∷ rs) = if key_le r s then r ∷ s ∷ rs else s ∷ place r rs

unfoldable pub sort_by_key : List DecodedLogRecord → List DecodedLogRecord
unfolding place
sort_by_key [] = []
sort_by_key (r ∷ rs) = place r (sort_by_key rs)

-- Every record stands before the ones of no smaller key only.
abbrev pub IsSorted : List DecodedLogRecord → Type 0
IsSorted [] = Unit
IsSorted (r ∷ rs) = All (λ s. key_le r s ≡ true) rs × IsSorted rs

place-perm : (r : DecodedLogRecord) (rs : List DecodedLogRecord) → Perm (place r rs) (r ∷ rs)
unfolding place
place-perm r [] = Perm.refl _
place-perm r (s ∷ rs) = elim (Bool-cases (key_le r s)) [
  | inl t ↦ rw t (Perm.refl _)
  | inr f ↦ rw f (Perm.trans (Perm.cons s (place-perm r rs)) (Perm.swap r s rs))
]

sort_by_key-perm : (rs : List DecodedLogRecord) → Perm (sort_by_key rs) rs
unfolding sort_by_key
sort_by_key-perm [] = Perm.refl []
sort_by_key-perm (r ∷ rs) = Perm.trans (place-perm r _) (Perm.cons r (sort_by_key-perm rs))

key_le_trans :
    (r s t : DecodedLogRecord) → key_le r s ≡ true → key_le s t ≡ true → key_le r t ≡ true
unfolding key_le
key_le_trans r s t h k = ground arith

key_le_total : (r s : DecodedLogRecord) → key_le r s ≡ false → key_le s r ≡ true
unfolding key_le
key_le_total r s h = ground arith

All-key_le_trans :
    (r s : DecodedLogRecord) (rs : List DecodedLogRecord)
    → key_le r s ≡ true
    → All (λ t. key_le s t ≡ true) rs
    → All (λ t. key_le r t ≡ true) rs
All-key_le_trans r s [] h k = tt
All-key_le_trans r s (t ∷ rs) h k = (key_le_trans r s t h k.0, All-key_le_trans r s rs h k.1)

All-place :
    (p r : DecodedLogRecord) (rs : List DecodedLogRecord)
    → key_le p r ≡ true
    → All (λ t. key_le p t ≡ true) rs
    → All (λ t. key_le p t ≡ true) (place r rs)
unfolding place
All-place p r [] h k = (h, tt)
All-place p r (s ∷ rs) h k = elim (Bool-cases (key_le r s)) [
  | inl t ↦ rw t (h, (k.0, k.1))
  | inr f ↦ rw f (k.0, All-place p r rs h k.1)
]

place-IsSorted :
    (r : DecodedLogRecord) (rs : List DecodedLogRecord) → IsSorted rs → IsSorted (place r rs)
unfolding place
place-IsSorted r [] h = (tt, tt)
place-IsSorted r (s ∷ rs) h = elim (Bool-cases (key_le r s)) [
  | inl t ↦ rw t ((t, All-key_le_trans r s rs t h.0), (h.0, h.1))
  | inr f ↦ rw f (All-place s r rs (key_le_total r s f) h.0, place-IsSorted r rs h.1)
]

sort_by_key-IsSorted : (rs : List DecodedLogRecord) → IsSorted (sort_by_key rs)
unfolding sort_by_key
sort_by_key-IsSorted [] = tt
sort_by_key-IsSorted (r ∷ rs) = place-IsSorted r (sort_by_key rs) (sort_by_key-IsSorted rs)

-- Records that arrive in order are left as they are.
place_first :
    (r : DecodedLogRecord) (rs : List DecodedLogRecord)
    → All (λ s. key_le r s ≡ true) rs
    → place r rs ≡ r ∷ rs
unfolding place
place_first r [] h = refl
place_first r (s ∷ rs) h = rw (h.0)

pub sort_by_key-sorted : (rs : List DecodedLogRecord) → IsSorted rs → sort_by_key rs ≡ rs
unfolding sort_by_key
sort_by_key-sorted [] h = refl
sort_by_key-sorted (r ∷ rs) h = ap (place r) (sort_by_key-sorted rs h.1) ∙ place_first r rs h.0

module _ (P : DecodedLogRecord → Type 0) where
  All-place_any :
      (r : DecodedLogRecord) (rs : List DecodedLogRecord) → P r → All P rs → All P (place r rs)
  unfolding place
  All-place_any r [] h k = (h, tt)
  All-place_any r (s ∷ rs) h k = elim (Bool-cases (key_le r s)) [
    | inl t ↦ rw t (h, k)
    | inr f ↦ rw f (k.0, All-place_any r rs h k.1)
  ]

  place-All :
      (r : DecodedLogRecord) (rs : List DecodedLogRecord) → All P (place r rs) → P r × All P rs
  unfolding place
  place-All r [] h = h
  place-All r (s ∷ rs) h = split (key_le r s) (place-All r rs) h
    where
      keep : P s × (P r × All P rs) → P r × (P s × All P rs)
      keep k = (k.1.0, (k.0, k.1.1))

      split :
          (b : Bool)
          → (All P (place r rs) → P r × All P rs)
          → All P (if b then r ∷ s ∷ rs else s ∷ place r rs)
          → P r × (P s × All P rs)
      split true rest k = k
      split false rest k = keep (k.0, rest k.1)

  -- What holds of every record before the sort holds of every one after it, and the other way.
  pub All-sort_by_key : (rs : List DecodedLogRecord) → All P rs → All P (sort_by_key rs)
  unfolding sort_by_key
  All-sort_by_key [] h = tt
  All-sort_by_key (r ∷ rs) h = All-place_any r (sort_by_key rs) h.0 (All-sort_by_key rs h.1)

  pub sort_by_key-All : (rs : List DecodedLogRecord) → All P (sort_by_key rs) → All P rs
  unfolding sort_by_key
  sort_by_key-All [] h = tt
  sort_by_key-All (r ∷ rs) h =
      let both = place-All r (sort_by_key rs) h in (both.0, sort_by_key-All rs both.1)

length-place :
    (r : DecodedLogRecord) (rs : List DecodedLogRecord) → length (place r rs) ≡ suc (length rs)
unfolding place
length-place r [] = refl
length-place r (s ∷ rs) = ground (arith, length-place r rs)

pub length-sort_by_key : (rs : List DecodedLogRecord) → length (sort_by_key rs) ≡ length rs
unfolding sort_by_key
length-sort_by_key [] = refl
length-sort_by_key (r ∷ rs) = omega (arith, length-place r (sort_by_key rs), length-sort_by_key rs)

-- The order that the comments of `plan` ask for, in words of the three numbers: by sequence, then by
-- entry, then by record.
abbrev pub Precedes : DecodedLogRecord → DecodedLogRecord → Type 0
Precedes r s =
    (r.source.buffer_sequence < s.source.buffer_sequence)
    ⊎ ((r.source.buffer_sequence ≡ s.source.buffer_sequence)
        × ((r.source.entry_index < s.source.entry_index)
            ⊎ ((r.source.entry_index ≡ s.source.entry_index)
                × (r.source.record_index ≤ s.source.record_index))))

-- Every record precedes all that come after it.
abbrev pub IsInOrder : List DecodedLogRecord → Type 0
IsInOrder [] = Unit
IsInOrder (r ∷ rs) = All (Precedes r) rs × IsInOrder rs

key_le-Precedes : (r s : DecodedLogRecord) → key_le r s ≡ true → Precedes r s
unfolding key_le
key_le-Precedes r s h = ground arith

All-Precedes :
    (r : DecodedLogRecord) (rs : List DecodedLogRecord)
    → All (λ s. key_le r s ≡ true) rs
    → All (Precedes r) rs
All-Precedes r [] h = tt
All-Precedes r (s ∷ rs) h = (key_le-Precedes r s h.0, All-Precedes r rs h.1)

IsSorted-IsInOrder : (rs : List DecodedLogRecord) → IsSorted rs → IsInOrder rs
IsSorted-IsInOrder [] h = tt
IsSorted-IsInOrder (r ∷ rs) h = (All-Precedes r rs h.0, IsSorted-IsInOrder rs h.1)

-- The sort only moves records, and it puts them by sequence, within one by entry, and within that by
-- record.
pub sort_by_key_sorts :
    (rs : List DecodedLogRecord) → IsInOrder (sort_by_key rs) × Perm (sort_by_key rs) rs
sort_by_key_sorts rs =
    (IsSorted-IsInOrder (sort_by_key rs) (sort_by_key-IsSorted rs), sort_by_key-perm rs)
