-- ===== src/RowBinary/Laws.antt =====
-- The variable-length integers against their decoding by the LEB128 rule.
use opendata_contrib.Common.{
  ℕ, zero, suc, ◌+◌, ◌-◌, ◌*◌, ◌/◌, ◌%◌, ◌≤◌, ◌<◌, ◌≡◌, ap, ◌∙◌, List, [], ◌∷◌, ◌++◌, Option, none,
  some, ltb, ◌==◌, if◌then◌else◌, arith, Bool-cases, inl, inr, u64_max, true, false,
}
use opendata_contrib.RowBinary.{varuint_bytes, write_varuint}

-- The rest of a number whose first byte is given.
abbrev pub extended : ℕ → Option (ℕ × List ℕ) → Option (ℕ × List ℕ)
extended byte none = none
extended byte (some (n, rest)) = some (byte - 128 + 128 * n, rest)

-- LEB128: a byte below 128 is the last one, any other has 7 bits more to come.
abbrev pub read_varuint : List ℕ → Option (ℕ × List ℕ)
read_varuint [] = none
read_varuint (byte ∷ bytes) =
    let further = read_varuint bytes in
    if ltb byte 128 then some (byte, bytes) else extended byte further

last_byte :
    (value : ℕ) (bytes : List ℕ) (o : Option (ℕ × List ℕ))
    → (value / 128 == 0) ≡ true
    → (if ltb (value % 128) 128 then some (value % 128, bytes) else o) ≡ some (value, bytes)
last_byte value bytes o h =
    ap (λ b. if b then some (value % 128, bytes) else o) small ∙ ap (λ n. some (n, bytes)) whole
  where
    small : ltb (value % 128) 128 ≡ true
    small = ground arith

    whole : value % 128 ≡ value
    whole = ground arith

more_bytes :
    (value : ℕ) (bytes rest : List ℕ) (o : Option (ℕ × List ℕ))
    → o ≡ some (value / 128, rest)
    → (if ltb (value % 128 + 128) 128
        then some (value % 128 + 128, bytes)
        else extended (value % 128 + 128) o)
      ≡ some (value, rest)
more_bytes value bytes rest o h =
    ap (λ b. if b then some (value % 128 + 128, bytes) else extended (value % 128 + 128) o) large
    ∙ ap (extended (value % 128 + 128)) h
    ∙ ap (λ n. some (n, rest)) whole
  where
    large : ltb (value % 128 + 128) 128 ≡ false
    large = ground arith

    whole : value % 128 + 128 - 128 + 128 * (value / 128) ≡ value
    whole = ground arith

-- The numbers that so many bytes can hold.
abbrev range_of : ℕ → ℕ
range_of zero = 1
range_of (suc n) = 128 * range_of n

read_bytes :
    (fuel value : ℕ) (rest : List ℕ)
    → value < range_of (suc fuel)
    → read_varuint (varuint_bytes (suc fuel) value ++ rest) ≡ some (value, rest)
unfolding varuint_bytes
read_bytes zero value rest le = elim (Bool-cases (value / 128 == 0)) [
  | inl t ↦ rw t (last_byte value rest _ t)
  | inr f ↦ absurd (ground (arith, f, le))
]
read_bytes (suc fuel) value rest le = elim (Bool-cases (value / 128 == 0)) [
  | inl t ↦ rw t (last_byte value rest _ t)
  | inr f ↦ rw f (
      more_bytes value _ rest _
        (read_bytes fuel (value / 128) rest (shorter value (range_of (suc fuel)) le)))
]
  where
    shorter : (value k : ℕ) → value < 128 * k → value / 128 < k
    shorter value k le = omega arith

-- What `write_varuint` writes for a word of 64 bits, a LEB128 reader reads back, whatever follows.
pub read-write_varuint :
    (value : ℕ) (rest : List ℕ)
    → value ≤ u64_max
    → read_varuint (write_varuint value ++ rest) ≡ some (value, rest)
unfolding write_varuint
read-write_varuint value rest le = read_bytes 9 value rest (omega (arith, le))
