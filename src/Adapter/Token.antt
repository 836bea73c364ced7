-- ===== src/Adapter/Token.antt =====
-- The text of the insert tokens: `build_token` and `chunking_fingerprint` of adapter/logs.rs, with the
-- configuration that they read. The hash and the hex crate are parameters. `Display` of a word is
-- `decimal`.
use opendata_contrib.Common.{ℕ, zero, suc, String, Bool, true, Option, none, some, List, [], ◌∷◌}
use opendata_contrib.Common.Text.{concat, decimal, as_bytes}

pub record LogsAdapterConfig : Type 0 where
  pub database : String
  pub table : String
  pub adapter_version : ℕ
  pub max_chunk_rows : ℕ
  pub max_chunk_bytes : ℕ
  pub insert_quorum : Option String
  pub apply_deduplication_token : Bool

abbrev pub default_config : LogsAdapterConfig
default_config = record {
  database = "responsive";
  table = "logs";
  adapter_version = 1;
  max_chunk_rows = 100000;
  max_chunk_bytes = 33554432;
  insert_quorum = some "auto";
  apply_deduplication_token = true;
}

abbrev pub quorum_or_empty : Option String → String
quorum_or_empty none = ""
quorum_or_empty (some q) = q

-- `digest[..8]`
abbrev pub prefix_of : ℕ → List ℕ → List ℕ
prefix_of zero bytes = []
prefix_of (suc n) [] = []
prefix_of (suc n) (b ∷ bytes) = b ∷ prefix_of n bytes

-- `Sha256` and `hex::encode`.
pub record Digests : Type 0 where
  pub sha256 : List ℕ → List ℕ
  pub hex : List ℕ → String

unfoldable pub chunking_fingerprint : Digests → LogsAdapterConfig → String
chunking_fingerprint d config = d.hex (
    prefix_of 8 (
      d.sha256 (
        as_bytes (
          concat (
            "otlp-logs-clickhouse-adapter:v1\n"
            ∷ "database="
            ∷ config.database
            ∷ "\ntable="
            ∷ config.table
            ∷ "\nadapter_version="
            ∷ decimal config.adapter_version
            ∷ "\nmax_chunk_rows="
            ∷ decimal config.max_chunk_rows
            ∷ "\nmax_chunk_bytes="
            ∷ decimal config.max_chunk_bytes
            ∷ "\ninsert_quorum="
            ∷ quorum_or_empty config.insert_quorum
            ∷ "\n"
            ∷ [])))))

unfoldable pub build_token : String → LogsAdapterConfig → String → ℕ → ℕ → ℕ → String
build_token manifest_path config fingerprint low high chunk_index = concat (
    manifest_path
    ∷ ":"
    ∷ config.database
    ∷ "."
    ∷ config.table
    ∷ ":"
    ∷ decimal low
    ∷ "-"
    ∷ decimal high
    ∷ ":"
    ∷ decimal config.adapter_version
    ∷ ":"
    ∷ fingerprint
    ∷ ":"
    ∷ decimal chunk_index
    ∷ [])
