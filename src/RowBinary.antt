-- ===== src/RowBinary.antt =====
-- The variable-length integers of the RowBinary format:
-- plugins/opendata-ingest-clickhouse/src/adapter/mod.rs, `write_varuint`. `value & 0x7F` is
-- `value % 128`, `value >>= 7` is `value / 128`, and `byte | 0x80` is `byte + 128`, as the byte is below
-- 128. Ten turns of the loop are enough for a word of 64 bits.
mod Laws
mod Examples
use opendata_contrib.Common.{ℕ, zero, suc, ◌+◌, ◌/◌, ◌%◌, List, [], ◌∷◌, ◌==◌, if◌then◌else◌}

-- At most `fuel` turns of the loop.
unfoldable pub varuint_bytes : ℕ → ℕ → List ℕ
varuint_bytes zero value = []
varuint_bytes (suc fuel) value =
    let rest = varuint_bytes fuel (value / 128) in
    if value / 128 == 0 then (value % 128) ∷ [] else (value % 128 + 128) ∷ rest

unfoldable pub write_varuint : ℕ → List ℕ
unfolding varuint_bytes
write_varuint value = varuint_bytes 10 value
