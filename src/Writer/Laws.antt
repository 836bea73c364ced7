-- ===== src/Writer/Laws.antt =====
-- What a caller of the writer (writer.rs) may rely on: how many requests there are, when the result is a
-- success, and which errors come out.
use opendata_contrib.Common.{
  ℕ, zero, suc, ◌+◌, ◌≤◌, ◌<◌, ◌≡◌, ◌≢◌, ◌↔◌, refl, sym, ap, ◌∙◌, max, true, Option, none, some,
  List, [], ◌∷◌, ◌++◌, Result, ok, err, Bool-cases, inl, inr, ◌⊎◌, arith, All, Any, Any-append_left,
  Any-append_right, ltb, String, length, err_ne_ok, ltb→lt, subst, true_ne_false, err_unique, ◌-◌,
  ◌*◌,
}
use opendata_contrib.Adapter.{InsertChunk}
use opendata_contrib.Writer.{
  WriterErrorClass, WriterError, HttpOutcome, Next, Event, WriterConfig, WriterEnv, is_success,
  class, execute_once, after_attempt, by_class, exhausted, display, insert_loop, execute_chunk,
  execute_all, preceded, serialized, doubled, sent, slept, return, again, retryable_class,
  non_retryable_class, budget_class, answered, failed, no_client, then_rest,
}

-- The server accepted the request.
abbrev pub IsAccepted : HttpOutcome → Type 0
IsAccepted (answered status body) = is_success status ≡ true
IsAccepted (no_client e) = ⊥
IsAccepted (failed e) = ⊥

-- The event is a request with the chunk that the server accepted.
abbrev pub Inserts : InsertChunk → Event → Type 0
Inserts chunk (sent c o) = (c ≡ chunk) × IsAccepted o
Inserts chunk (slept t) = ⊥

-- The number of requests.
abbrev pub sends : List Event → ℕ
sends [] = 0
sends (sent c o ∷ events) = suc (sends events)
sends (slept t ∷ events) = sends events

-- A result that leaves `execute_chunk`: no error of the class that is retried.
abbrev pub IsFinal : Result WriterError (Unit {0}) → Type 0
IsFinal (ok u) = Unit
IsFinal (err e) = class e ≢ retryable_class

-- `execute_once` succeeds exactly on a request that the server accepts.
pub execute_once-ok : (o : HttpOutcome) → (execute_once o ≡ ok tt) ↔ IsAccepted o
unfolding execute_once
execute_once-ok (no_client e) = (λ h. absurd (cc), λ h. absurd h)
execute_once-ok (failed e) = (λ h. absurd (cc), λ h. absurd h)
execute_once-ok (answered status body) = elim (Bool-cases (is_success status)) [
  | inl t ↦ (λ h. t, λ h. rw t refl)
  | inr f ↦ (λ h. absurd (err_ne_ok _ refl (rw f at h)), λ h. absurd (true_ne_false (sym h ∙ f)))
]

-- What a run of the loop comes to: how many requests, what an `Ok` means, and which errors there are.
pub record IsRun (chunk : InsertChunk) (most : ℕ) (r : Result WriterError (Unit {0}))
    (events : List Event) : Type 0 where
  pub bounded : sends events ≤ most
  pub inserted : r ≡ ok tt → Any (Inserts chunk) events
  pub complete : Any (Inserts chunk) events → r ≡ ok tt
  pub final : IsFinal r

-- The run that has a result.
abbrev pub Returns : InsertChunk → ℕ → Option (Result WriterError (Unit {0})) × List Event → Type 0
Returns chunk most (none, events) = ⊥
Returns chunk most (some r, events) = IsRun chunk most r events

-- A round that returns has a success, or an error that is not of the retried class.
Returned : Result WriterError (Unit {0}) → Result WriterError (Unit {0}) → Type 0
Returned x r =
    ((x ≡ ok tt) × (r ≡ ok tt))
    ⊎ ((e : WriterError) × ((f : WriterError) × (x ≡ err e)
          × (r ≡ err f)
          × (class f ≢ retryable_class)))

return_injective : {r s : Result WriterError (Unit {0})} → return s ≡ return r → r ≡ s
return_injective h = cc

by_class-return :
    (max_attempts attempt : ℕ) (c : WriterErrorClass) (e : WriterError)
    (r : Result WriterError (Unit {0}))
    → class e ≡ c
    → by_class max_attempts attempt c e ≡ return r
    → (f : WriterError) × (r ≡ err f) × (class f ≢ retryable_class)
by_class-return m a retryable_class e r q h = elim (Bool-cases (ltb a m)) [
  | inl t ↦ absurd (kept (rw t at h))
  | inr f ↦ (exhausted m (display e), return_injective (rw f at h), λ k. cc)
]
  where
    kept : again ≡ return r → ⊥
    kept k = cc
by_class-return m a budget_class e r q h = (e, return_injective h, λ k. cc)
by_class-return m a non_retryable_class e r q h = (e, return_injective h, λ k. cc)

after_attempt-return :
    (max_attempts attempt : ℕ) (x r : Result WriterError (Unit {0}))
    → after_attempt max_attempts attempt x ≡ return r
    → Returned x r
unfolding after_attempt Returned
after_attempt-return m a (ok tt) r h = inl (refl, return_injective h)
after_attempt-return m a (err e) r h =
    let f = by_class-return m a (class e) e r refl h in inr (e, (f.0, refl, f.1, f.2))

by_class-again :
    (max_attempts attempt : ℕ) (c : WriterErrorClass) (e : WriterError)
    → by_class max_attempts attempt c e ≡ again
    → attempt < max_attempts
by_class-again m a retryable_class e h = elim (Bool-cases (ltb a m)) [
  | inl t ↦ ltb→lt a m t
  | inr f ↦ absurd (left (rw f at h))
]
  where
    left : return (err (exhausted m (display e))) ≡ again → ⊥
    left k = cc
by_class-again m a budget_class e h = cc
by_class-again m a non_retryable_class e h = cc

-- A round that goes on has an error, and attempts are left.
after_attempt-again :
    (max_attempts attempt : ℕ) (x : Result WriterError (Unit {0}))
    → after_attempt max_attempts attempt x ≡ again
    → ((e : WriterError) × (x ≡ err e) × (attempt < max_attempts))
unfolding after_attempt
after_attempt-again m a (ok tt) h = cc
after_attempt-again m a (err e) h = (e, refl, by_class-again m a (class e) e h)

not_accepted : (o : HttpOutcome) {e : WriterError} → execute_once o ≡ err e → IsAccepted o → ⊥
not_accepted o h k = err_ne_ok (execute_once o) h ((execute_once-ok o).1 k)

IsFinal-err :
    (r : Result WriterError (Unit {0})) {f : WriterError}
    → r ≡ err f
    → class f ≢ retryable_class
    → IsFinal r
IsFinal-err (ok u) h n = tt
IsFinal-err (err e) h n = λ k. n (ap class (err_unique (err e) refl h) ∙ k)

last_round :
    (chunk : InsertChunk) (o : HttpOutcome) (most : ℕ) (r : Result WriterError (Unit {0}))
    → 1 ≤ most
    → Returned (execute_once o) r
    → IsRun chunk most r (sent chunk o ∷ [])
unfolding Returned
last_round chunk o most r le (inl (x, h)) = record {
  bounded = le;
  inserted = λ _. inl (refl, (execute_once-ok o).0 x);
  complete = λ _. h;
  final = subst IsFinal (sym h) tt;
}
last_round chunk o most r le (inr (e, (f, x, h, n))) = record {
  bounded = le;
  inserted = λ k. absurd (err_ne_ok r h k);
  complete = λ a. absurd (refused a);
  final = IsFinal-err r h n;
}
  where
    refused : Any (Inserts chunk) (sent chunk o ∷ []) → ⊥
    refused (inl a) = not_accepted o x a.1
    refused (inr a) = a

-- A run after a round that goes on.
next_round :
    (chunk : InsertChunk) (o : HttpOutcome) (t most : ℕ) {e : WriterError}
    (run : Option (Result WriterError (Unit {0})) × List Event)
    → execute_once o ≡ err e
    → Returns chunk most run
    → Returns chunk (suc most) (preceded (sent chunk o ∷ slept t ∷ []) run)
next_round chunk o t most (none, events) x h = h
next_round chunk o t most (some r, events) x h = record {
  bounded = omega (arith, h.bounded);
  inserted = λ k. inr (inr (h.inserted k));
  complete = λ a. later a;
  final = h.final;
}
  where
    later : Any (Inserts chunk) (sent chunk o ∷ slept t ∷ events) → r ≡ ok tt
    later (inl a) = absurd (not_accepted o x a.1)
    later (inr (inl a)) = absurd a
    later (inr (inr a)) = h.complete a

insert_loop-Returns :
    (fuel max_attempts : ℕ) (chunk : InsertChunk) (answer : ℕ → HttpOutcome)
    (attempt backoff most : ℕ)
    → max_attempts < fuel + attempt + 1
    → 1 ≤ most
    → max_attempts ≤ attempt + most
    → 0 < fuel
    → Returns chunk most (insert_loop fuel max_attempts chunk answer attempt backoff)
unfolding insert_loop
insert_loop-Returns zero m chunk answer a t most f le k p = absurd (omega arith)
insert_loop-Returns (suc fuel) m chunk answer a t most f le k p =
    round (after_attempt m (a + 1) (execute_once (answer (a + 1)))) refl
      (λ n q r s u. insert_loop-Returns fuel m chunk answer (a + 1) (doubled t) n q r s u)
  where
    o : HttpOutcome
    o = answer (a + 1)

    round :
        (n : Next)
        → after_attempt m (a + 1) (execute_once o) ≡ n
        → ((most' : ℕ)
            → m < fuel + (a + 1) + 1
            → 1 ≤ most'
            → m ≤ a + 1 + most'
            → 0 < fuel
            → Returns chunk most' (insert_loop fuel m chunk answer (a + 1) (doubled t)))
        → Returns chunk most (elim n as (λ _. Option (Result WriterError (Unit {0})) × List Event) [
          | return r ↦ (some r, sent chunk o ∷ [])
          | again ↦
              preceded
                (sent chunk o ∷ slept t ∷ [])
                (insert_loop fuel m chunk answer (a + 1) (doubled t))
        ])
    round (return r) e rest =
        last_round chunk o most r le (after_attempt-return m (a + 1) (execute_once o) r e)
    round again e rest =
        let more = after_attempt-again m (a + 1) (execute_once o) e in
        let room : a + 1 < m = more.2 in
        subst
          (λ n. Returns chunk n (
            preceded (sent chunk o ∷ slept t ∷ [])
              (insert_loop fuel m chunk answer (a + 1) (doubled t))))
          (omega arith)
          (next_round chunk o t (most - 1) _ more.1
            (rest (most - 1) (omega arith) (omega arith) (omega arith) (omega arith)))

-- What a caller of `execute_chunk` may rely on: it returns; it sends at most `max_attempts` requests,
-- and at most one where that is 0; the result is `Ok` exactly if the server accepted a request with the
-- chunk; and no error of the retried class comes out.
pub execute_chunk-Returns :
    (config : WriterConfig) (env : WriterEnv) (chunk : InsertChunk)
    → Returns chunk (max config.max_attempts 1) (execute_chunk config env chunk)
unfolding execute_chunk
execute_chunk-Returns config env chunk = run (env.serialize chunk)
  where
    run :
        (body : Result String (List ℕ))
        → Returns chunk (max config.max_attempts 1) (
            serialized body (
              insert_loop
                (config.max_attempts + 1)
                config.max_attempts
                chunk
                (env.answer chunk)
                0
                config.initial_backoff))
    run (ok body) =
        insert_loop-Returns (config.max_attempts + 1) config.max_attempts chunk (env.answer chunk) 0
          config.initial_backoff (max config.max_attempts 1) (omega arith) (omega arith)
          (omega arith) (omega arith)
    run (err e) = record {
      bounded = omega arith;
      inserted = λ h. absurd (err_ne_ok _ refl h);
      complete = λ a. absurd a;
      final = λ k. cc;
    }

-- Every chunk was accepted in some request.
abbrev pub AllInserted : List InsertChunk → List Event → Type 0
AllInserted chunks events = All (λ c. Any (Inserts c) events) chunks

-- A result of `execute_all` with the events of it.
abbrev pub Executes :
    ℕ → List InsertChunk → Option (Result WriterError (Unit {0})) × List Event → Type 0
Executes most chunks (none, events) = ⊥
Executes most chunks (some r, events) =
    (sends events ≤ most * length chunks) × (r ≡ ok tt → AllInserted chunks events) × IsFinal r

sends-append : (es fs : List Event) → sends (es ++ fs) ≡ sends es + sends fs
sends-append [] fs = omega arith
sends-append (sent c o ∷ es) fs = omega (arith, sends-append es fs)
sends-append (slept t ∷ es) fs = sends-append es fs

AllInserted-later :
    (chunks : List InsertChunk) (es fs : List Event)
    → AllInserted chunks fs
    → AllInserted chunks (es ++ fs)
AllInserted-later [] es fs h = tt
AllInserted-later (c ∷ chunks) es fs h =
    (Any-append_right (Inserts c) es fs h.0, AllInserted-later chunks es fs h.1)

then_rest-Executes :
    (most : ℕ) (chunk : InsertChunk) (chunks : List InsertChunk)
    (first rest : Option (Result WriterError (Unit {0})) × List Event)
    → Returns chunk most first
    → Executes most chunks rest
    → Executes most (chunk ∷ chunks) (then_rest first rest)
then_rest-Executes most chunk chunks (none, es) rest h k = h
then_rest-Executes most chunk chunks (some (ok tt), es) (none, fs) h k = k
then_rest-Executes most chunk chunks (some (ok tt), es) (some r, fs) h k = (
  grind (arith, h.bounded, k.0, sends-append es fs),
  λ q. (
    Any-append_left (Inserts chunk) es fs (h.inserted refl),
    AllInserted-later chunks es fs (k.1 q),
  ),
  k.2,
)
then_rest-Executes most chunk chunks (some (err e), es) rest h k =
    (grind (arith, h.bounded), λ q. absurd (err_ne_ok _ refl q), h.final)

-- `execute_all` returns; it sends at most `max_attempts` requests for each chunk, and at most one where
-- that is 0; if its result is `Ok`, the server accepted a request with every one of the chunks; and no
-- error of the retried class comes out.
pub execute_all-Executes :
    (config : WriterConfig) (env : WriterEnv) (chunks : List InsertChunk)
    → Executes (max config.max_attempts 1) chunks (execute_all config env chunks)
unfolding execute_all
execute_all-Executes config env [] = (omega arith, λ h. tt, tt)
execute_all-Executes config env (chunk ∷ chunks) =
    then_rest-Executes (max config.max_attempts 1) chunk chunks (execute_chunk config env chunk)
      (execute_all config env chunks) (execute_chunk-Returns config env chunk)
      (execute_all-Executes config env chunks)
