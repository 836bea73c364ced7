-- ===== src/Common/Text.antt =====
-- Texts: what the source uses of Rust's `String`: concatenation by `format!`, the bytes of the UTF-8
-- encoding, the decimal `Display` of an unsigned number, `str::parse::<u64>`, and a `BTreeMap` from
-- texts in the order of the keys. The order of code points is the order of the UTF-8 bytes.
pub mod Laws
use Prim.Native.Char.{code}
use Prim.Native.String
use Prim.Native.String.{String, compare as str_compare}
use Prim.Native.Nat.{ℕ, zero, suc, ◌+◌, ◌-◌, ◌*◌, ◌/◌, ◌%◌, Ordering}
use mathlib.Core.Bool.{Bool, ◌&&◌}
use mathlib.Core.Option.{Option, none, some}
use mathlib.Core.List.{List, [], ◌∷◌, ◌++◌}
use text.Mathlib.Text.{◌==◌ as str_eq}
use opendata_contrib.Common.Tests.{ltb, leb, ◌==◌, if◌then◌else◌}
use opendata_contrib.Common.Word.{u64_max}

abbrev pub join : String → String → String
join String.[] t = t
join (String.◌∷◌ c s) t = String.◌∷◌ c (join s t)

-- `format!` with the parts of its template and its arguments in their order.
abbrev pub concat : List String → String
concat [] = ""
concat (s ∷ ss) = join s (concat ss)

abbrev pub codes : String → List ℕ
codes String.[] = []
codes (String.◌∷◌ c s) = code c ∷ codes s

-- The bytes of one code point.
abbrev pub utf8_bytes : ℕ → List ℕ
utf8_bytes c =
    if ltb c 128
    then c ∷ []
    else if ltb c 2048
    then (192 + c / 64) ∷ (128 + c % 64) ∷ []
    else if ltb c 65536
    then (224 + c / 4096) ∷ (128 + c / 64 % 64) ∷ (128 + c % 64) ∷ []
    else (240 + c / 262144) ∷ (128 + c / 4096 % 64) ∷ (128 + c / 64 % 64) ∷ (128 + c % 64) ∷ []

abbrev pub encode_codes : List ℕ → List ℕ
encode_codes [] = []
encode_codes (c ∷ cs) = utf8_bytes c ++ encode_codes cs

-- `s.as_bytes()`
unfoldable pub as_bytes : String → List ℕ
as_bytes s = encode_codes (codes s)

abbrev pub digit : ℕ → String
digit d =
    if d == 0
    then "0"
    else if d == 1
    then "1"
    else if d == 2
    then "2"
    else if d == 3
    then "3"
    else if d == 4
    then "4"
    else if d == 5
    then "5"
    else if d == 6
    then "6"
    else if d == 7
    then "7"
    else if d == 8
    then "8"
    else "9"

unfoldable pub digits : ℕ → ℕ → String
digits zero n = ""
digits (suc fuel) n =
    let higher = digits fuel (n / 10) in if ltb n 10 then digit n else join higher (digit (n % 10))

-- `Display` of a word: a `u64` has twenty digits at most.
unfoldable pub decimal : ℕ → String
unfolding digits
decimal n = digits 20 n

-- `str::parse::<u64>` after the sign: digits only, and no overflow on the way.
unfoldable pub parse_digits : ℕ → List ℕ → Option ℕ
parse_digits n [] = some n
parse_digits n (c ∷ cs) =
    let further = parse_digits (n * 10 + (c - 48)) cs in
    if leb 48 c && (leb c 57 && leb (n * 10 + (c - 48)) u64_max) then further else none

abbrev pub parse_codes : List ℕ → Option ℕ
parse_codes [] = none
parse_codes (c ∷ []) = parse_digits 0 (c ∷ [])
parse_codes (c ∷ d ∷ cs) = if c == 43 then parse_digits 0 (d ∷ cs) else parse_digits 0 (c ∷ d ∷ cs)

unfoldable pub parse_u64 : String → Option ℕ
unfolding parse_digits
parse_u64 s = parse_codes (codes s)

module _ {ℓ} {V : Type ℓ} where
  -- `map.insert(k, v)`
  unfoldable pub put : String → V → List (String × V) → List (String × V)
  put k v [] = (k, v) ∷ []
  put k v ((j, w) ∷ m) =
      let rest = put k v m in
      elim (str_compare k j) [
        | Ordering.lt ↦ (k, v) ∷ (j, w) ∷ m
        | Ordering.eq ↦ (j, v) ∷ m
        | Ordering.gt ↦ (j, w) ∷ rest
      ]

  -- `map.get(&k)`
  unfoldable pub find : String → List (String × V) → Option V
  find k [] = none
  find k ((j, v) ∷ m) = if str_eq j k then some v else find k m

  -- `map.remove(&k)`, the map left.
  unfoldable pub without : String → List (String × V) → List (String × V)
  without k [] = []
  without k ((j, v) ∷ m) = if str_eq j k then m else (j, v) ∷ without k m
