-- ===== src/RowBinary/Examples.antt =====
-- Runs of the variable-length integers (adapter/mod.rs), and an instance of their theorem.
use opendata_contrib.Common.{◌≡◌, refl, arith, [], ◌∷◌, ◌++◌, some}
use opendata_contrib.RowBinary.{write_varuint}
use opendata_contrib.RowBinary.Laws.{read_varuint, read-write_varuint}

two_bytes : write_varuint 300 ≡ 172 ∷ 2 ∷ []
unfolding write_varuint
two_bytes = refl

read-write_varuint_example : read_varuint (write_varuint 300 ++ 9 ∷ []) ≡ some (300, 9 ∷ [])
read-write_varuint_example = read-write_varuint 300 (9 ∷ []) (omega arith)
