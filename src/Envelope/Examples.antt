-- ===== src/Envelope/Examples.antt =====
-- Runs of the envelope parser (envelope.rs), and instances of its theorems.
use opendata_contrib.Common.{◌≡◌, refl, [], ◌∷◌, ◌++◌, ok, err, true, false}
use opendata_contrib.Envelope.{
  MetadataEnvelope, ConfiguredEnvelope, logs, traces, otlp_protobuf, decode_one, matches,
  mismatch_at, validate_consistent, too_short, unsupported_signal,
}
use opendata_contrib.Envelope.Laws.{
  encode, Carries, decode_one-encode, decode_one-Carries, validate_consistent-first,
}

abbrev log_envelope : MetadataEnvelope
log_envelope = record { version = 1; signal_type = logs; encoding = otlp_protobuf; reserved = 0 }

abbrev trace_envelope : MetadataEnvelope
trace_envelope = record log_envelope { signal_type = traces }

abbrev configured : ConfiguredEnvelope
configured = record { version = 1; signal_type = logs; encoding = otlp_protobuf }

short : decode_one 3 (1 ∷ 2 ∷ 1 ∷ []) ≡ err (too_short 3 3 4)
unfolding decode_one
short = refl

unknown : decode_one 3 (1 ∷ 9 ∷ 1 ∷ 0 ∷ []) ≡ err (unsupported_signal 3 9)
unfolding decode_one
unknown = refl

parsed : decode_one 3 (1 ∷ 2 ∷ 1 ∷ 0 ∷ 7 ∷ []) ≡ ok log_envelope
unfolding decode_one
parsed = refl

decode_one-encode_example : decode_one 3 (encode log_envelope ++ 7 ∷ []) ≡ ok log_envelope
decode_one-encode_example = decode_one-encode 3 log_envelope (7 ∷ []) refl

decode_one-Carries_example : Carries (1 ∷ 2 ∷ 1 ∷ 0 ∷ 7 ∷ []) log_envelope
decode_one-Carries_example = decode_one-Carries 3 (1 ∷ 2 ∷ 1 ∷ 0 ∷ 7 ∷ []) log_envelope parsed

same : matches configured log_envelope ≡ true
unfolding matches
same = refl

other : matches configured trace_envelope ≡ false
unfolding matches
other = refl

validate_consistent-first_example :
    validate_consistent ((log_envelope ∷ []) ++ trace_envelope ∷ []) configured
    ≡ err (mismatch_at configured 1 trace_envelope)
validate_consistent-first_example =
    validate_consistent-first (log_envelope ∷ []) [] trace_envelope configured (same, tt) other
