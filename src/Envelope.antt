-- ===== src/Envelope.antt =====
-- plugins/opendata-ingest-otel/src/envelope.rs: the four bytes that producers put before the metadata of
-- an entry. A byte is a number; `name` gives the text that an error shows.
pub mod Laws
mod Examples
use opendata_contrib.Common.{
  ℕ, suc, ◌+◌, ◌%◌, String, Bool, true, false, not, ◌&&◌, List, [], ◌∷◌, Option, none, some, Result,
  ok, err, ◌>>=◌, ◌>>◌, fail_if, ok_or, ◌==◌, if◌then◌else◌, length,
}
use opendata_contrib.Source.{SourceBatch, SourceEntry}

pub data SignalType : Type 0 where
  metrics logs traces : SignalType

abbrev pub as_byte : SignalType → ℕ
as_byte metrics = 1
as_byte logs = 2
as_byte traces = 3

unfoldable pub from_byte : ℕ → Option SignalType
from_byte byte =
    if byte == 1
    then some metrics
    else if byte == 2
    then some logs
    else if byte == 3
    then some traces
    else none

abbrev pub signal_name : SignalType → String
signal_name metrics = "metrics"
signal_name logs = "logs"
signal_name traces = "traces"

pub data PayloadEncoding : Type 0 where
  otlp_protobuf : PayloadEncoding

abbrev pub encoding_as_byte : PayloadEncoding → ℕ
encoding_as_byte otlp_protobuf = 1

unfoldable pub encoding_from_byte : ℕ → Option PayloadEncoding
encoding_from_byte byte = if byte == 1 then some otlp_protobuf else none

abbrev pub encoding_name : PayloadEncoding → String
encoding_name otlp_protobuf = "otlp_protobuf"

pub record MetadataEnvelope : Type 0 where
  pub version : ℕ
  pub signal_type : SignalType
  pub encoding : PayloadEncoding
  pub reserved : ℕ

pub record ConfiguredEnvelope : Type 0 where
  pub version : ℕ
  pub signal_type : SignalType
  pub encoding : PayloadEncoding

-- The derived `PartialEq` of the two enums.
abbrev pub same_signal : SignalType → SignalType → Bool
same_signal metrics metrics = true
same_signal logs logs = true
same_signal traces traces = true
same_signal s t = false

abbrev pub same_encoding : PayloadEncoding → PayloadEncoding → Bool
same_encoding otlp_protobuf otlp_protobuf = true

unfoldable pub matches : ConfiguredEnvelope → MetadataEnvelope → Bool
matches configured env =
    (configured.version == env.version)
    && (same_signal configured.signal_type env.signal_type
        && same_encoding configured.encoding env.encoding)

pub data EnvelopeError : Type 0 where
  too_short : ℕ → ℕ → ℕ → EnvelopeError
  unsupported_version unsupported_signal unsupported_encoding : ℕ → ℕ → EnvelopeError
  mismatch : ℕ → ℕ → String → String → ℕ → String → String → EnvelopeError

unfoldable pub decode_one : ℕ → List ℕ → Result EnvelopeError MetadataEnvelope
unfolding from_byte encoding_from_byte
decode_one entry_index (version ∷ signal_byte ∷ encoding_byte ∷ reserved ∷ rest) = do
  fail_if (not (version == 1)) (unsupported_version entry_index version)
  signal_type ← ok_or (from_byte signal_byte) (unsupported_signal entry_index signal_byte)
  encoding ←
      ok_or (encoding_from_byte encoding_byte) (unsupported_encoding entry_index encoding_byte)
  ok (record {
    version = version;
    signal_type = signal_type;
    encoding = encoding;
    reserved = reserved;
  })
decode_one entry_index payload = err (too_short entry_index (length payload) 4)

decode_all : List SourceEntry → Result EnvelopeError (List MetadataEnvelope)
unfolding decode_one
decode_all [] = ok []
decode_all (entry ∷ entries) = do
  env ← decode_one entry.entry_index entry.raw_metadata
  envs ← decode_all entries
  ok (env ∷ envs)

-- `collect` stops at the first error.
unfoldable pub decode_envelopes : SourceBatch → Result EnvelopeError (List MetadataEnvelope)
unfolding decode_all
decode_envelopes batch = decode_all batch.entries

abbrev pub mismatch_at : ConfiguredEnvelope → ℕ → MetadataEnvelope → EnvelopeError
mismatch_at configured i env =
    mismatch (i % 4294967296) env.version (signal_name env.signal_type) (encoding_name env.encoding)
      configured.version (signal_name configured.signal_type) (encoding_name configured.encoding)

-- The loop of `validate_consistent` from the index `i` on.
unfoldable pub validate_from :
    ℕ → List MetadataEnvelope → ConfiguredEnvelope → Result EnvelopeError (Unit {0})
unfolding matches
validate_from i [] configured = ok tt
validate_from i (env ∷ envs) configured = do
  fail_if (not (matches configured env)) (mismatch_at configured i env)
  validate_from (i + 1) envs configured

unfoldable pub validate_consistent :
    List MetadataEnvelope → ConfiguredEnvelope → Result EnvelopeError (Unit {0})
unfolding validate_from
validate_consistent envelopes configured = validate_from 0 envelopes configured
