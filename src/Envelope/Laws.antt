-- ===== src/Envelope/Laws.antt =====
-- What the envelope parser (envelope.rs) accepts, and where the validation stops.
use opendata_contrib.Common.{
  ℕ, suc, ◌+◌, ◌≡◌, ◌↔◌, refl, ap, subst, ◌∙◌, Bool, true, false, not, List, [], ◌∷◌, ◌++◌, Option,
  none, some, Result, ok, err, ◌>>◌, fail_if, ok_or, ◌==◌, length, arith, All, >>-eq-ok, >>=-eq-ok,
  fail_if-eq-ok, ==_iff,
}
use opendata_contrib.Envelope.{
  SignalType, metrics, logs, traces, PayloadEncoding, otlp_protobuf, as_byte, from_byte,
  encoding_as_byte, encoding_from_byte, MetadataEnvelope, ConfiguredEnvelope, EnvelopeError,
  decode_one, matches, mismatch_at, validate_from, validate_consistent, unsupported_version,
  unsupported_signal, unsupported_encoding,
}

-- The bytes of an envelope, written by a producer.
abbrev pub encode : MetadataEnvelope → List ℕ
encode e = e.version ∷ as_byte e.signal_type ∷ encoding_as_byte e.encoding ∷ e.reserved ∷ []

-- The payload is the envelope's bytes and more, and the version is the supported one.
abbrev pub Carries : List ℕ → MetadataEnvelope → Type 0
Carries payload e = (rest : List ℕ) × (payload ≡ encode e ++ rest) × (e.version ≡ 1)

from_byte-as_byte : (s : SignalType) → from_byte (as_byte s) ≡ some s
unfolding from_byte
from_byte-as_byte metrics = refl
from_byte-as_byte logs = refl
from_byte-as_byte traces = refl

as_byte-from_byte : (b : ℕ) (s : SignalType) → from_byte b ≡ some s → b ≡ as_byte s
unfolding from_byte
as_byte-from_byte b metrics h = ground arith
as_byte-from_byte b logs h = ground arith
as_byte-from_byte b traces h = ground arith

encoding-from_byte :
    (b : ℕ) (e : PayloadEncoding) → encoding_from_byte b ≡ some e → b ≡ encoding_as_byte e
unfolding encoding_from_byte
encoding-from_byte b otlp_protobuf h = ground arith

encoded :
    (i v : ℕ) (s : SignalType) (n : PayloadEncoding) (r : ℕ) (rest : List ℕ)
    → v ≡ 1
    → decode_one i (v ∷ as_byte s ∷ encoding_as_byte n ∷ r ∷ rest)
      ≡ ok (record { version = v; signal_type = s; encoding = n; reserved = r })
unfolding decode_one
encoded i v metrics otlp_protobuf r rest h = ground arith
encoded i v logs otlp_protobuf r rest h = ground arith
encoded i v traces otlp_protobuf r rest h = ground arith

-- Each envelope of the supported version is read back from its bytes, whatever follows them.
pub decode_one-encode :
    (i : ℕ) (e : MetadataEnvelope) (rest : List ℕ)
    → e.version ≡ 1
    → decode_one i (encode e ++ rest) ≡ ok e
decode_one-encode i e rest h = encoded i e.version e.signal_type e.encoding e.reserved rest h

ok_or-some : {A : Type 0} (o : Option A) (e : EnvelopeError) (a : A) → ok_or o e ≡ ok a → o ≡ some a
ok_or-some none e a h = cc
ok_or-some (some b) e a h = cc

not-eq-false : (b : Bool) → not b ≡ false → b ≡ true
not-eq-false true h = refl
not-eq-false false h = cc

-- The parser is fail-closed: it accepts only a payload that begins with the bytes of the envelope it
-- returns, with the supported version.
pub decode_one-Carries :
    (i : ℕ) (payload : List ℕ) (e : MetadataEnvelope)
    → decode_one i payload ≡ ok e
    → Carries payload e
unfolding decode_one
decode_one-Carries i [] e h = cc
decode_one-Carries i (v ∷ []) e h = cc
decode_one-Carries i (v ∷ s ∷ []) e h = cc
decode_one-Carries i (v ∷ s ∷ c ∷ []) e h = cc
decode_one-Carries i (v ∷ s ∷ c ∷ r ∷ rest) e h =
    let (g, h1) = >>-eq-ok (fail_if (not (v == 1)) (unsupported_version i v)) _ h in
    let (t, p, h2) = >>=-eq-ok (ok_or (from_byte s) (unsupported_signal i s)) _ h1 in
    let (n, q, h3) = >>=-eq-ok (ok_or (encoding_from_byte c) (unsupported_encoding i c)) _ h2 in
    subst (Carries (v ∷ s ∷ c ∷ r ∷ rest)) (ok-injective h3) (
      rest,
      bytes (as_byte-from_byte s t (ok_or-some (from_byte s) _ t p))
          (encoding-from_byte c n (ok_or-some (encoding_from_byte c) _ n q)),
      (==_iff v 1).0 (not-eq-false (v == 1) (fail_if-eq-ok (not (v == 1)) _ g)),
    )
  where
    bytes : {a b : ℕ} → s ≡ a → c ≡ b → (v ∷ s ∷ c ∷ r ∷ rest) ≡ (v ∷ a ∷ b ∷ r ∷ rest)
    bytes x y = cc

    ok-injective :
        {a b : MetadataEnvelope}
        → ◌≡◌ {A = Result EnvelopeError MetadataEnvelope} (ok a) (ok b)
        → a ≡ b
    ok-injective x = cc

module _ (configured : ConfiguredEnvelope) where
  abbrev Matches : MetadataEnvelope → Type 0
  Matches e = matches configured e ≡ true

  validate_from-passed :
      (i : ℕ) (envelopes : List MetadataEnvelope)
      → validate_from i envelopes configured ≡ ok tt
      → All Matches envelopes
  unfolding validate_from
  validate_from-passed i [] h = tt
  validate_from-passed i (e ∷ es) h =
      let (x, y) =
        >>-eq-ok (fail_if (not (matches configured e)) (mismatch_at configured i e)) _ h in
      (
        not-eq-false (matches configured e) (fail_if-eq-ok (not (matches configured e)) _ x),
        validate_from-passed (i + 1) es y,
      )

  validate_from-passes :
      (i : ℕ) (envelopes : List MetadataEnvelope)
      → All Matches envelopes
      → validate_from i envelopes configured ≡ ok tt
  unfolding validate_from
  validate_from-passes i [] h = refl
  validate_from-passes i (e ∷ es) h =
      ap (λ b. fail_if (not b) (mismatch_at configured i e) >> validate_from (i + 1) es configured)
        h.0
      ∙ validate_from-passes (i + 1) es h.1

  validate_from-first :
      (i : ℕ) (before after : List MetadataEnvelope) (bad : MetadataEnvelope)
      → All Matches before
      → matches configured bad ≡ false
      → validate_from i (before ++ bad ∷ after) configured
        ≡ err (mismatch_at configured (i + length before) bad)
  unfolding validate_from
  validate_from-first i [] after bad h k =
      ap
        (λ b.
          fail_if (not b) (mismatch_at configured i bad) >> validate_from (i + 1) after configured)
        k
      ∙ ap (λ j. err (mismatch_at configured j bad)) (plus_zero i)
    where
      plus_zero : (i : ℕ) → i ≡ i + 0
      plus_zero i = omega arith
  validate_from-first i (e ∷ before) after bad h k =
      ap
        (λ b.
          fail_if (not b) (mismatch_at configured i e)
          >> validate_from (i + 1) (before ++ bad ∷ after) configured)
        h.0
      ∙ validate_from-first (i + 1) before after bad h.1 k
      ∙ ap (λ j. err (mismatch_at configured j bad)) (shift i (length before))
    where
      shift : (i n : ℕ) → i + 1 + n ≡ i + suc n
      shift i n = omega arith

-- Validation passes exactly when every envelope matches the configured one.
pub validate_consistent-ok :
    (envelopes : List MetadataEnvelope) (configured : ConfiguredEnvelope)
    → (validate_consistent envelopes configured ≡ ok tt)
      ↔ All (λ e. matches configured e ≡ true) envelopes
unfolding validate_consistent
validate_consistent-ok envelopes configured =
    (validate_from-passed configured 0 envelopes, validate_from-passes configured 0 envelopes)

-- Validation reports the first envelope that does not match, at its index modulo 2^32.
pub validate_consistent-first :
    (before after : List MetadataEnvelope) (bad : MetadataEnvelope)
    (configured : ConfiguredEnvelope)
    → All (λ e. matches configured e ≡ true) before
    → matches configured bad ≡ false
    → validate_consistent (before ++ bad ∷ after) configured
      ≡ err (mismatch_at configured (length before) bad)
unfolding validate_consistent
validate_consistent-first before after bad configured h k =
    validate_from-first configured 0 before after bad h k
    ∙ ap (λ j. err (mismatch_at configured j bad)) (zero_plus (length before))
  where
    zero_plus : (n : ℕ) → 0 + n ≡ n
    zero_plus n = omega arith
