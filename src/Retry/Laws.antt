-- ===== src/Retry/Laws.antt =====
-- The retry loop of the sink writer (runtime.rs): it ends, it repeats one commit, and its answer
-- agrees with what the sink said.
use opendata_contrib.Error.{RuntimeResult, pipeline_error, abort_in_check_committed, abort_in_write}
use opendata_contrib.Common.{
  ℕ, zero, suc, ◌+◌, ◌≤◌, ◌<◌, ◌≡◌, refl, ap, subst, Bool, Option, none, some, List, [], ◌∷◌, ◌++◌,
  Result, ok, err, min, u32_max, arith, Any, All, Any-append_right, All-append, Option-cases, inl,
  inr, ◌-◌, String, if◌then◌else◌,
}
use opendata_contrib.Sink.{
  SinkCommit, CommitStatus, is_committed, is_not_committed, is_unknown, SinkCommitFailure,
  SinkCommitResult, not_committed, maybe_committed, fatal,
}
use opendata_contrib.Retry.{
  WriteAttempt, WriteSuccess, Round, Call, round_end, round_calls, turn, write_loop,
  write_with_retry, after_check, after_write, failed_fatal, give_up,
}
use opendata_contrib.Retry.Rounds.{
  writes, IsAbout, IsSuccess, Agrees, Fits, writes-append, round_calls-writes, round_calls-IsAbout,
  round-Fits, round_end-none,
}

-- A property of the result of the loop, from one of the turns.
module _ (P : ℕ → Option WriteAttempt × List Call → Type 0) (max_attempts : ℕ) (commit : SinkCommit)
    (env : ℕ → Round)
    (ends : (attempt : ℕ) (a : WriteAttempt)
      → round_end max_attempts attempt (env attempt) ≡ some a
      → P attempt (some a, round_calls commit (env attempt)))
    (goes_on : (attempt : ℕ) (a : Option WriteAttempt) (l : List Call)
      → round_end max_attempts attempt (env attempt) ≡ none
      → attempt < max_attempts
      → P (attempt + 1) (a, l)
      → P attempt (a, round_calls commit (env attempt) ++ l))
    (m : max_attempts ≤ u32_max) where
  by_turns :
      (fuel attempt : ℕ)
      → max_attempts < attempt + fuel
      → attempt ≤ max_attempts
      → P attempt (write_loop fuel max_attempts attempt commit env)
  unfolding write_loop
  by_turns zero attempt lt le = absurd (omega arith)
  by_turns (suc fuel) attempt lt le =
      elim (Option-cases (round_end max_attempts attempt (env attempt))) [
        | inl n ↦
            let more = round_end-none max_attempts attempt (env attempt) n in
            rw n (
              subst
                (λ k. P attempt (
                  (write_loop fuel max_attempts k commit env).0,
                  round_calls commit (env attempt) ++ (write_loop fuel max_attempts k commit env).1,
                ))
                (next_attempt attempt more)
                (goes_on attempt _ _ n more
                  (by_turns fuel (attempt + 1) (omega arith) (omega arith))))
        | inr (a, e) ↦ rw e (ends attempt a e)
      ]
    where
      next_attempt :
          (attempt : ℕ) → attempt < max_attempts → attempt + 1 ≡ min (attempt + 1) u32_max
      next_attempt attempt lt = omega (arith, m)

-- What the loop returns, for all its turns: an answer, at most one write for each attempt left, calls
-- about the one commit, and an answer that agrees with the log.
pub record IsDone (commit : SinkCommit) (left : ℕ) (o : Option WriteAttempt × List Call)
    : Type 0 where
  pub answer : WriteAttempt
  pub returned : o.0 ≡ some answer
  pub bounded : writes o.1 ≤ left + 1
  pub about : All (IsAbout commit) o.1
  pub agrees : Agrees answer.inner o.1

no_success-append :
    (xs ys : List Call)
    → (Any IsSuccess xs → ⊥)
    → (Any IsSuccess ys → ⊥)
    → Any IsSuccess (xs ++ ys)
    → ⊥
no_success-append [] ys h k x = k x
no_success-append (c ∷ xs) ys h k (inl x) = h (inl x)
no_success-append (c ∷ xs) ys h k (inr x) = no_success-append xs ys (λ z. h (inr z)) k x

Agrees-append :
    (i : RuntimeResult WriteSuccess) (xs ys : List Call)
    → (Any IsSuccess xs → ⊥)
    → Agrees i ys
    → Agrees i (xs ++ ys)
Agrees-append (ok s) xs ys h k = Any-append_right IsSuccess xs ys k
Agrees-append (err e) xs ys h k = no_success-append xs ys h k

last_turn-IsDone :
    (max_attempts : ℕ) (commit : SinkCommit) (env : ℕ → Round) (attempt : ℕ) (a : WriteAttempt)
    → round_end max_attempts attempt (env attempt) ≡ some a
    → IsDone commit (max_attempts - attempt) (some a, round_calls commit (env attempt))
last_turn-IsDone max_attempts commit env attempt a e = record {
  answer = a;
  returned = refl;
  bounded = omega (arith, round_calls-writes commit (env attempt));
  about = round_calls-IsAbout commit (env attempt);
  agrees =
      subst (λ o. Fits o (round_calls commit (env attempt))) e
        (round-Fits max_attempts attempt (env attempt) commit);
}

turn-IsDone :
    (max_attempts : ℕ) (commit : SinkCommit) (env : ℕ → Round) (attempt : ℕ)
    (o : Option WriteAttempt) (l : List Call)
    → round_end max_attempts attempt (env attempt) ≡ none
    → attempt < max_attempts
    → IsDone commit (max_attempts - (attempt + 1)) (o, l)
    → IsDone commit (max_attempts - attempt) (o, round_calls commit (env attempt) ++ l)
turn-IsDone max_attempts commit env attempt o l e lt d = record {
  answer = d.answer;
  returned = d.returned;
  bounded = omega (
    arith,
    d.bounded,
    lt,
    writes-append (round_calls commit (env attempt)) l,
    round_calls-writes commit (env attempt),
  );
  about =
      All-append (IsAbout commit) (round_calls commit (env attempt)) l
        (round_calls-IsAbout commit (env attempt)) d.about;
  agrees =
      Agrees-append d.answer.inner (round_calls commit (env attempt)) l
        (subst (λ k. Fits k (round_calls commit (env attempt))) e
          (round-Fits max_attempts attempt (env attempt) commit))
        d.agrees;
}

-- The retry loop always returns, within one turn more than the retries allowed: it writes at most
-- `max_attempts + 1` times, every write sends the same commit and every check asks for its identity, and
-- it reports success exactly when the sink acknowledged a write or confirmed the commit.
pub write_with_retry-IsDone :
    (max_attempts : ℕ) (commit : SinkCommit) (env : ℕ → Round)
    → max_attempts ≤ u32_max
    → IsDone commit max_attempts (write_with_retry max_attempts commit env)
unfolding write_with_retry
write_with_retry-IsDone max_attempts commit env m =
    subst (λ k. IsDone commit k (write_loop (suc max_attempts) max_attempts 0 commit env))
      (minus_zero max_attempts)
      (by_turns (λ attempt. IsDone commit (max_attempts - attempt)) max_attempts commit env
        (last_turn-IsDone max_attempts commit env) (turn-IsDone max_attempts commit env) m
        (suc max_attempts) 0 (omega arith) (omega arith))
  where
    minus_zero : (n : ℕ) → n - 0 ≡ n
    minus_zero n = omega arith

-- A status that is unknown counts as not committed.
abbrev settled : RuntimeResult CommitStatus → RuntimeResult CommitStatus
settled (ok is_committed) = ok is_committed
settled (ok is_not_committed) = ok is_not_committed
settled (ok is_unknown) = ok is_not_committed
settled (err e) = err e

abbrev pub settle : Round → Round
settle r = record r { check = settled r.check }

after_check-settled :
    (max_attempts attempt : ℕ) (e : String) (slept : Bool) (c : RuntimeResult CommitStatus)
    → after_check max_attempts attempt e slept (settled c)
      ≡ after_check max_attempts attempt e slept c
after_check-settled max_attempts attempt e slept (ok is_committed) = refl
after_check-settled max_attempts attempt e slept (ok is_not_committed) = refl
after_check-settled max_attempts attempt e slept (ok is_unknown) = refl
after_check-settled max_attempts attempt e slept (err x) = refl

after_write-settle :
    (max_attempts attempt : ℕ) (r : Round) (w : Result SinkCommitFailure SinkCommitResult)
    → after_write max_attempts attempt (settle r) w ≡ after_write max_attempts attempt r w
after_write-settle max_attempts attempt r (ok s) = refl
after_write-settle max_attempts attempt r (err (fatal e)) = refl
after_write-settle max_attempts attempt r (err (not_committed e)) = refl
after_write-settle max_attempts attempt r (err (maybe_committed e)) =
    ap
      (λ o.
        if r.check_cancelled
        then some (give_up (pipeline_error abort_in_check_committed) failed_fatal)
        else o)
      (after_check-settled max_attempts attempt e r.slept r.check)

round_end-settle :
    (max_attempts attempt : ℕ) (r : Round)
    → round_end max_attempts attempt (settle r) ≡ round_end max_attempts attempt r
unfolding round_end
round_end-settle max_attempts attempt r =
    ap
      (λ o.
        if r.write_cancelled
        then some (give_up (pipeline_error abort_in_write) failed_fatal)
        else o)
      (after_write-settle max_attempts attempt r r.write)

turn-answer :
    (o p : Option WriteAttempt) (c d : List Call) (x y : Option WriteAttempt × List Call)
    → o ≡ p
    → x.0 ≡ y.0
    → (turn o c x).0 ≡ (turn p d y).0
turn-answer none none c d x y e h = h
turn-answer none (some b) c d x y e h = cc
turn-answer (some a) none c d x y e h = cc
turn-answer (some a) (some b) c d x y e h = e

write_loop-settle :
    (fuel max_attempts attempt : ℕ) (commit : SinkCommit) (env : ℕ → Round)
    → (write_loop fuel max_attempts attempt commit (λ k. settle (env k))).0
      ≡ (write_loop fuel max_attempts attempt commit env).0
unfolding write_loop
write_loop-settle zero max_attempts attempt commit env = refl
write_loop-settle (suc fuel) max_attempts attempt commit env =
    turn-answer _ _ _ _ _ _ (round_end-settle max_attempts attempt (env attempt))
      (write_loop-settle fuel max_attempts (min (attempt + 1) u32_max) commit env)

-- The runtime treats an unknown commit status as not committed: with every `Unknown` answer of
-- `check_committed` replaced by `NotCommitted`, the loop returns the same attempt.
pub unknown_as_not_committed :
    (max_attempts : ℕ) (commit : SinkCommit) (env : ℕ → Round)
    → (write_with_retry max_attempts commit (λ k. settle (env k))).0
      ≡ (write_with_retry max_attempts commit env).0
unfolding write_with_retry
unknown_as_not_committed max_attempts commit env =
    write_loop-settle (suc max_attempts) max_attempts 0 commit env
