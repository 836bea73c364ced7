-- ===== src/Common/Text/Laws.antt =====
-- The decimal digits of a number are read back to it, so that they tell numbers apart.
use Prim.Native.Char.{code}
use mathlib.Core.List.{append_assoc, append-nil}
use opendata_contrib.Common.{
  ◌-◌, leb, true, ◌&&◌, le→leb, lt→ltb, ltb→lt, ℕ, zero, suc, ◌+◌, ◌*◌, ◌/◌, ◌%◌, ◌≤◌, ◌<◌, ◌≡◌,
  refl, sym, ap, ◌∙◌, List, [], ◌∷◌, ◌++◌, none, some, ltb, if◌then◌else◌, arith, Bool-cases, inl,
  inr, u64_max, String,
}
use opendata_contrib.Common.Text.{join, concat, codes, digit, digits, decimal, parse_digits}

pub codes-join : (s t : String) → codes (join s t) ≡ codes s ++ codes t
codes-join String.[] t = refl
codes-join (String.◌∷◌ c s) t = ap (λ cs. code c ∷ cs) (codes-join s t)

pub codes-digit : (d : ℕ) → d < 10 → codes (digit d) ≡ (48 + d) ∷ []
codes-digit zero h = refl
codes-digit (suc zero) h = refl
codes-digit (suc (suc zero)) h = refl
codes-digit (suc (suc (suc zero))) h = refl
codes-digit (suc (suc (suc (suc zero)))) h = refl
codes-digit (suc (suc (suc (suc (suc zero))))) h = refl
codes-digit (suc (suc (suc (suc (suc (suc zero)))))) h = refl
codes-digit (suc (suc (suc (suc (suc (suc (suc zero))))))) h = refl
codes-digit (suc (suc (suc (suc (suc (suc (suc (suc zero)))))))) h = refl
codes-digit (suc (suc (suc (suc (suc (suc (suc (suc (suc zero))))))))) h = refl
codes-digit (suc (suc (suc (suc (suc (suc (suc (suc (suc (suc n)))))))))) h = absurd (omega arith)

-- The numbers of so many decimal digits.
abbrev ten_to : ℕ → ℕ
ten_to zero = 1
ten_to (suc k) = 10 * ten_to k

parse_one :
    (a d : ℕ) (rest : List ℕ)
    → d < 10
    → a * 10 + d ≤ u64_max
    → parse_digits a ((48 + d) ∷ rest) ≡ parse_digits (a * 10 + d) rest
unfolding parse_digits
parse_one a d rest h k =
    rw (same, fits) (ap (λ b. if b then parse_digits (a * 10 + d) rest else none) digit_test)
  where
    same : 48 + d - 48 ≡ d
    same = omega arith

    fits : leb (a * 10 + d) u64_max ≡ true
    fits = le→leb _ _ k

    digit_test : (leb 48 (48 + d) && (leb (48 + d) 57 && true)) ≡ true
    digit_test = ground arith

-- The last digit of a number and the number before it.
parse_last :
    (n : ℕ) (rest : List ℕ)
    → n ≤ u64_max
    → parse_digits (n / 10) (codes (digit (n % 10)) ++ rest) ≡ parse_digits n rest
parse_last n rest k =
    ap (λ cs. parse_digits (n / 10) (cs ++ rest)) (codes-digit (n % 10) (omega arith))
    ∙ parse_one (n / 10) (n % 10) rest (omega arith) (omega arith)
    ∙ ap (λ a. parse_digits a rest) (omega arith)

parse_small :
    (n : ℕ) (rest : List ℕ)
    → n < 10
    → parse_digits 0 (codes (digit n) ++ rest) ≡ parse_digits n rest
parse_small n rest h =
    ap (λ cs. parse_digits 0 (cs ++ rest)) (codes-digit n h)
    ∙ parse_one 0 n rest h (omega arith)
    ∙ ap (λ a. parse_digits a rest) (omega arith)

parse-digits :
    (fuel n : ℕ) (rest : List ℕ)
    → n < ten_to (suc fuel)
    → n ≤ u64_max
    → parse_digits 0 (codes (digits (suc fuel) n) ++ rest) ≡ parse_digits n rest
unfolding digits
parse-digits zero n rest h k = rw (lt→ltb n 10 h) (parse_small n rest h)
parse-digits (suc fuel) n rest h k = elim (Bool-cases (ltb n 10)) [
  | inl small ↦ rw small (parse_small n rest (ltb→lt n 10 small))
  | inr more ↦ rw more (
      ap (λ cs. parse_digits 0 (cs ++ rest))
        (codes-join (digits (suc fuel) (n / 10)) (digit (n % 10)))
      ∙ ap (parse_digits 0)
          (append_assoc (codes (digits (suc fuel) (n / 10))) (codes (digit (n % 10))) rest)
      ∙ parse-digits fuel (n / 10) (codes (digit (n % 10)) ++ rest) (shorter (ten_to (suc fuel)) h)
          (omega arith)
      ∙ parse_last n rest k)
]
  where
    shorter : (p : ℕ) → n < 10 * p → n / 10 < p
    shorter p le = omega arith

-- What `Display` writes of a word, the digits' reader reads back.
pub parse-decimal : (n : ℕ) → n ≤ u64_max → parse_digits 0 (codes (decimal n)) ≡ some n
unfolding decimal
parse-decimal n k =
    ap (parse_digits 0) (sym (append-nil (codes (digits 20 n))))
    ∙ parse-digits 19 n [] (omega (arith, k)) k
    ∙ unfold parse_digits in refl

-- Two words of one decimal text are one number, whatever text stands before them.
pub decimal_injective :
    (before : String) (m n : ℕ)
    → m ≤ u64_max
    → n ≤ u64_max
    → join before (decimal m) ≡ join before (decimal n)
    → m ≡ n
decimal_injective before m n h k e = cc (parse-decimal m h, parse-decimal n k, same_digits before e)
  where
    cancel : (cs ds es : List ℕ) → cs ++ ds ≡ cs ++ es → ds ≡ es
    cancel [] ds es q = q
    cancel (c ∷ cs) ds es q = cancel cs ds es (cc)

    same_digits :
        (before : String)
        → join before (decimal m) ≡ join before (decimal n)
        → codes (decimal m) ≡ codes (decimal n)
    same_digits b q =
        cancel (codes b) _ _
          (sym (codes-join b (decimal m)) ∙ ap codes q ∙ codes-join b (decimal n))

join_nil : (s : String) → join s "" ≡ s
join_nil String.[] = refl
join_nil (String.◌∷◌ c s) = ap (String.◌∷◌ c) (join_nil s)

join_assoc : (s t u : String) → join (join s t) u ≡ join s (join t u)
join_assoc String.[] t u = refl
join_assoc (String.◌∷◌ c s) t u = ap (String.◌∷◌ c) (join_assoc s t u)

-- A text of several parts is what stands before the last part, and the last part.
pub concat_last : (ss : List String) (t : String) → concat (ss ++ t ∷ []) ≡ join (concat ss) t
concat_last [] t = join_nil t
concat_last (s ∷ ss) t = ap (join s) (concat_last ss t) ∙ sym (join_assoc s (concat ss) t)
