-- ===== src/Common/Int.antt =====
-- Signed machine integers: `negsuc n` is -(n + 1). A word is the two's complement of an integer.
use Prim.Native.Nat.{ℕ, suc, ◌-◌, ◌%◌, ◌^◌, min}
use Prim.Native.String.{String}
use opendata_contrib.Common.Text.{join, decimal}

pub data ℤ : Type 0 where
  pos : ℕ → ℤ
  negsuc : ℕ → ℤ

-- `v as u64` for an `i64`, and the same at another width.
unfoldable pub to_word : ℕ → ℤ → ℕ
to_word bits (pos n) = n % 2 ^ bits
to_word bits (negsuc n) = (2 ^ bits - 1 - n % 2 ^ bits) % 2 ^ bits

-- `Display`
unfoldable pub show : ℤ → String
show (pos n) = decimal n
show (negsuc n) = join "-" (decimal (suc n))

-- `v.clamp(0, most)` for `most` that is not negative.
unfoldable pub clamp_up_to : ℕ → ℤ → ℕ
clamp_up_to most (pos n) = min n most
clamp_up_to most (negsuc n) = 0
