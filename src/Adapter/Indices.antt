-- ===== src/Adapter/Indices.antt =====
-- The indices and the tokens of the chunks of a plan (adapter/logs.rs): the k-th chunk has the index k,
-- and no two chunks have one token, so that the table cannot take one of them for a repeat of another.
use opendata_contrib.Common.{
  ℕ, zero, suc, ◌+◌, ◌%◌, ◌≡◌, ◌≤◌, refl, sym, ap, ◌∙◌, String, some, List, [], ◌∷◌, ◌++◌, ok,
  Bool-cases, inl, inr, arith, u32_max, u64_max, get_elem?, subst,
}
use opendata_contrib.Common.Text.{join, concat, decimal}
use opendata_contrib.Common.Text.Laws.{concat_last, decimal_injective}
use opendata_contrib.Adapter.{InsertChunk, ClickHouseAdapterBatch}
use opendata_contrib.Adapter.Limits.{planning_of, plan-eq-ok}
use opendata_contrib.Adapter.Plan.{
  Planning, OtlpLogsClickHouseAdapter, emit, last_chunk, must_flush, plan_chunks, plan, token_of,
}
use opendata_contrib.Adapter.Sort.{sort_by_key}
use opendata_contrib.Adapter.Token.{build_token}
use opendata_contrib.Logs.{DecodedLogRecord, approx_size_bytes}

-- The chunk carries the index, and the token of the index.
abbrev pub IsNumbered : Planning → ℕ → InsertChunk → Type 0
IsNumbered p i c = (c.chunk_index ≡ i) × (c.idempotency_token ≡ token_of p i)

emit-IsNumbered :
    (p : Planning) (current : List DecodedLogRecord) (i : ℕ) → IsNumbered p i (emit p current i)
unfolding emit
emit-IsNumbered p current i = (refl, refl)

emitted-IsNumbered :
    (p : Planning) (current : List DecodedLogRecord) (i j : ℕ) (c : InsertChunk)
    → i ≡ j
    → some (emit p current i) ≡ some c
    → IsNumbered p j c
emitted-IsNumbered p current i j c e h = let n = emit-IsNumbered p current i in (cc (n.0), cc (n.1))

last_chunk-IsNumbered :
    (p : Planning) (current : List DecodedLogRecord) (i k : ℕ) (c : InsertChunk)
    → i ≤ u32_max
    → get_elem? (last_chunk p current i) k ≡ some c
    → IsNumbered p ((i + k) % (u32_max + 1)) c
last_chunk-IsNumbered p [] i k c le h = cc
last_chunk-IsNumbered p (r ∷ current) i zero c le h =
    emitted-IsNumbered p (r ∷ current) i ((i + 0) % (u32_max + 1)) c (omega arith) h
last_chunk-IsNumbered p (r ∷ current) i (suc k) c le h = cc

plan_chunks-IsNumbered :
    (p : Planning) (current : List DecodedLogRecord) (bytes i : ℕ) (rs : List DecodedLogRecord)
    (k : ℕ) (c : InsertChunk)
    → i ≤ u32_max
    → get_elem? (plan_chunks p current bytes i rs) k ≡ some c
    → IsNumbered p ((i + k) % (u32_max + 1)) c
unfolding plan_chunks
plan_chunks-IsNumbered p current bytes i [] k c le h = last_chunk-IsNumbered p current i k c le h
plan_chunks-IsNumbered p current bytes i (r ∷ rs) k c le h =
    elim (Bool-cases (must_flush p current bytes r)) [
      | inl full ↦
          flushed k
            (λ m e. plan_chunks-IsNumbered p (r ∷ []) (0 + size) next rs m c (omega arith) e)
            (rw full at h)
      | inr fits ↦
          plan_chunks-IsNumbered p (current ++ r ∷ []) (bytes + size) i rs k c le (rw fits at h)
    ]
  where
    next : ℕ
    next = (i + 1) % (u32_max + 1)

    size : ℕ
    size = approx_size_bytes p.struct_size r

    later :
        (m : ℕ)
        → IsNumbered p ((next + m) % (u32_max + 1)) c
        → IsNumbered p ((i + suc m) % (u32_max + 1)) c
    later m n = subst (λ j. IsNumbered p j c) (omega arith) n

    flushed :
        (k : ℕ)
        → ((m : ℕ)
            → get_elem? (plan_chunks p (r ∷ []) (0 + size) next rs) m ≡ some c
            → IsNumbered p ((next + m) % (u32_max + 1)) c)
        → get_elem? (emit p current i ∷ plan_chunks p (r ∷ []) (0 + size) next rs) k ≡ some c
        → IsNumbered p ((i + k) % (u32_max + 1)) c
    flushed zero rest e = emitted-IsNumbered p current i _ c (omega arith) e
    flushed (suc m) rest e = later m (rest m e)

-- The k-th chunk of a plan has the index k as a `u32`, and its token is the token of that index.
pub plan-IsNumbered :
    (a : OtlpLogsClickHouseAdapter) (size : ℕ) (batch : ClickHouseAdapterBatch DecodedLogRecord)
    (cs : List InsertChunk) (k : ℕ) (c : InsertChunk)
    → plan a size batch ≡ ok cs
    → get_elem? cs k ≡ some c
    → IsNumbered (planning_of a size batch (sort_by_key batch.records)) (k % (u32_max + 1)) c
unfolding plan
plan-IsNumbered a size batch cs k c h e =
    subst (λ j. IsNumbered p j c) (omega arith)
      (plan_chunks-IsNumbered p [] 0 0 (sort_by_key batch.records) k c (omega arith) (
        ap (λ l. get_elem? l k) (sym (plan-eq-ok a size batch (sort_by_key batch.records) cs h))
        ∙ e))
  where
    p : Planning
    p = planning_of a size batch (sort_by_key batch.records)

-- All but the index of a token.
abbrev before_index : Planning → List String
before_index p =
    p.manifest_path
    ∷ ":"
    ∷ p.config.database
    ∷ "."
    ∷ p.config.table
    ∷ ":"
    ∷ decimal p.low
    ∷ "-"
    ∷ decimal p.high
    ∷ ":"
    ∷ decimal p.config.adapter_version
    ∷ ":"
    ∷ p.fingerprint
    ∷ ":"
    ∷ []

token_of-concat : (p : Planning) (i : ℕ) → token_of p i ≡ concat (before_index p ++ decimal i ∷ [])
unfolding token_of build_token
token_of-concat p i = refl

token_injective :
    (p : Planning) (i j : ℕ) → i ≤ u64_max → j ≤ u64_max → token_of p i ≡ token_of p j → i ≡ j
token_injective p i j h k e =
    decimal_injective (concat (before_index p)) i j h k (parts i ∙ e ∙ sym (parts j))
  where
    parts : (n : ℕ) → join (concat (before_index p)) (decimal n) ≡ token_of p n
    parts n = sym (concat_last (before_index p) (decimal n)) ∙ sym (token_of-concat p n)

-- No two chunks of a plan carry one token, as long as it has at most 2^32 chunks: two that do are at one
-- place.
pub plan_tokens_distinct :
    (a : OtlpLogsClickHouseAdapter) (size : ℕ) (batch : ClickHouseAdapterBatch DecodedLogRecord)
    (cs : List InsertChunk) (j k : ℕ) (c d : InsertChunk)
    → plan a size batch ≡ ok cs
    → get_elem? cs j ≡ some c
    → get_elem? cs k ≡ some d
    → j ≤ u32_max
    → k ≤ u32_max
    → c.idempotency_token ≡ d.idempotency_token
    → j ≡ k
plan_tokens_distinct a size batch cs j k c d h ej ek lj lk e = same (
    token_injective p (j % (u32_max + 1)) (k % (u32_max + 1)) (omega arith) (omega arith) (
      sym (plan-IsNumbered a size batch cs j c h ej).1
      ∙ e
      ∙ (plan-IsNumbered a size batch cs k d h ek).1))
  where
    p : Planning
    p = planning_of a size batch (sort_by_key batch.records)

    same : j % (u32_max + 1) ≡ k % (u32_max + 1) → j ≡ k
    same q = omega arith
