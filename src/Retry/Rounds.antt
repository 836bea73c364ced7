-- ===== src/Retry/Rounds.antt =====
-- One turn of the retry loop (runtime.rs): its calls, and how it ends.
use opendata_contrib.Common.{
  ℕ, suc, ◌+◌, ◌≤◌, ◌<◌, ◌≡◌, refl, Bool, Option, none, some, List, [], ◌∷◌, ◌++◌, Result, ok, err,
  leb, arith, Any, All, Bool-cases, inl, inr, String,
}
use opendata_contrib.Error.{RuntimeResult}
use opendata_contrib.Sink.{
  SinkCommit, SinkCommitResult, SinkCommitFailure, not_committed, maybe_committed, fatal,
  CommitStatus, is_committed, is_not_committed, is_unknown,
}
use opendata_contrib.Retry.{
  WriteAttempt, WriteSuccess, Round, Call, wrote, checked, retry_or_fail, after_check, after_write,
  round_end, round_calls, check_call,
}

-- The number of `write` calls.
abbrev pub writes : List Call → ℕ
writes [] = 0
writes (wrote c r ∷ l) = suc (writes l)
writes (checked i s ∷ l) = writes l

-- The call is about the commit.
abbrev pub IsAbout : SinkCommit → Call → Type 0
IsAbout commit (wrote c r) = c ≡ commit
IsAbout commit (checked i s) = i ≡ commit.identity

-- The call's answer says that the commit is in the sink.
abbrev pub IsSuccess : Call → Type 0
IsSuccess (wrote c (ok r)) = Unit
IsSuccess (wrote c (err e)) = ⊥
IsSuccess (checked i (ok is_committed)) = Unit
IsSuccess (checked i (ok is_not_committed)) = ⊥
IsSuccess (checked i (ok is_unknown)) = ⊥
IsSuccess (checked i (err e)) = ⊥

-- The answer agrees with the log: a success stands in it exactly when the attempt succeeded.
abbrev pub Agrees : RuntimeResult WriteSuccess → List Call → Type 0
Agrees (ok s) l = Any IsSuccess l
Agrees (err e) l = Any IsSuccess l → ⊥

pub writes-append : (xs ys : List Call) → writes (xs ++ ys) ≡ writes xs + writes ys
writes-append [] ys = omega arith
writes-append (wrote c r ∷ xs) ys = omega (arith, writes-append xs ys)
writes-append (checked i s ∷ xs) ys = writes-append xs ys

check_call-writes :
    (commit : SinkCommit) (r : Round) (w : Result SinkCommitFailure SinkCommitResult)
    → writes (check_call commit r w) ≡ 0
check_call-writes commit r (ok s) = refl
check_call-writes commit r (err (not_committed e)) = refl
check_call-writes commit r (err (fatal e)) = refl
check_call-writes commit r (err (maybe_committed e)) = ground arith

pub round_calls-writes : (commit : SinkCommit) (r : Round) → writes (round_calls commit r) ≤ 1
unfolding round_calls
round_calls-writes commit r = ground (arith, check_call-writes commit r r.write)

check_call-IsAbout :
    (commit : SinkCommit) (r : Round) (w : Result SinkCommitFailure SinkCommitResult)
    → All (IsAbout commit) (check_call commit r w)
check_call-IsAbout commit r (ok s) = tt
check_call-IsAbout commit r (err (not_committed e)) = tt
check_call-IsAbout commit r (err (fatal e)) = tt
check_call-IsAbout commit r (err (maybe_committed e)) = elim (Bool-cases r.check_cancelled) [
  | inl t ↦ rw t tt
  | inr f ↦ rw f (refl, tt)
]

pub round_calls-IsAbout :
    (commit : SinkCommit) (r : Round) → All (IsAbout commit) (round_calls commit r)
unfolding round_calls
round_calls-IsAbout commit r = elim (Bool-cases r.write_cancelled) [
  | inl t ↦ rw t tt
  | inr f ↦ rw f (refl, check_call-IsAbout commit r r.write)
]

-- A turn that is the last agrees with its calls; one that goes on has no success among them.
abbrev pub Fits : Option WriteAttempt → List Call → Type 0
Fits (some a) l = Agrees a.inner l
Fits none l = Any IsSuccess l → ⊥

retry_or_fail-Fits :
    (max_attempts attempt : ℕ) (e : String) (slept : Bool) (l : List Call)
    → (Any IsSuccess l → ⊥)
    → Fits (retry_or_fail max_attempts attempt e slept) l
retry_or_fail-Fits max_attempts attempt e slept l h = elim (Bool-cases (leb max_attempts attempt)) [
  | inl t ↦ rw t h
  | inr f ↦ rw f (elim (Bool-cases slept) [ inl t ↦ rw t h | inr f ↦ rw f h ])
]

after_check-Fits :
    (max_attempts attempt : ℕ) (e : String) (slept : Bool) (commit : SinkCommit)
    (c : RuntimeResult CommitStatus)
    → Fits
        (after_check max_attempts attempt e slept c)
        (wrote commit (err (maybe_committed e)) ∷ checked commit.identity c ∷ [])
after_check-Fits max_attempts attempt e slept commit (ok is_committed) = inr (inl tt)
after_check-Fits max_attempts attempt e slept commit (ok is_not_committed) =
    retry_or_fail-Fits max_attempts attempt e slept _ (λ h. ground arith)
after_check-Fits max_attempts attempt e slept commit (ok is_unknown) =
    retry_or_fail-Fits max_attempts attempt e slept _ (λ h. ground arith)
after_check-Fits max_attempts attempt e slept commit (err x) = λ h. ground arith

after_write-Fits :
    (max_attempts attempt : ℕ) (r : Round) (commit : SinkCommit)
    (w : Result SinkCommitFailure SinkCommitResult)
    → Fits (after_write max_attempts attempt r w) (wrote commit w ∷ check_call commit r w)
after_write-Fits max_attempts attempt r commit (ok s) = inl tt
after_write-Fits max_attempts attempt r commit (err (fatal e)) = λ h. ground arith
after_write-Fits max_attempts attempt r commit (err (not_committed e)) =
    retry_or_fail-Fits max_attempts attempt e r.slept _ (λ h. ground arith)
after_write-Fits max_attempts attempt r commit (err (maybe_committed e)) =
    elim (Bool-cases r.check_cancelled) [
      | inl t ↦ rw t (λ h. ground arith)
      | inr f ↦ rw f (after_check-Fits max_attempts attempt e r.slept commit r.check)
    ]

pub round-Fits :
    (max_attempts attempt : ℕ) (r : Round) (commit : SinkCommit)
    → Fits (round_end max_attempts attempt r) (round_calls commit r)
unfolding round_end round_calls
round-Fits max_attempts attempt r commit = elim (Bool-cases r.write_cancelled) [
  | inl t ↦ rw t (λ h. h)
  | inr f ↦ rw f (after_write-Fits max_attempts attempt r commit r.write)
]

-- A turn goes on only while retries are left.
retry_or_fail-none :
    (max_attempts attempt : ℕ) (e : String) (slept : Bool)
    → retry_or_fail max_attempts attempt e slept ≡ none
    → attempt < max_attempts
retry_or_fail-none max_attempts attempt e slept h = ground arith

after_check-none :
    (max_attempts attempt : ℕ) (e : String) (slept : Bool) (c : RuntimeResult CommitStatus)
    → after_check max_attempts attempt e slept c ≡ none
    → attempt < max_attempts
after_check-none max_attempts attempt e slept (ok is_committed) h = cc
after_check-none max_attempts attempt e slept (ok is_not_committed) h =
    retry_or_fail-none max_attempts attempt e slept h
after_check-none max_attempts attempt e slept (ok is_unknown) h =
    retry_or_fail-none max_attempts attempt e slept h
after_check-none max_attempts attempt e slept (err x) h = cc

after_write-none :
    (max_attempts attempt : ℕ) (r : Round) (w : Result SinkCommitFailure SinkCommitResult)
    → after_write max_attempts attempt r w ≡ none
    → attempt < max_attempts
after_write-none max_attempts attempt r (ok s) h = cc
after_write-none max_attempts attempt r (err (fatal e)) h = cc
after_write-none max_attempts attempt r (err (not_committed e)) h =
    retry_or_fail-none max_attempts attempt e r.slept h
after_write-none max_attempts attempt r (err (maybe_committed e)) h =
    ground (arith, after_check-none max_attempts attempt e r.slept r.check)

pub round_end-none :
    (max_attempts attempt : ℕ) (r : Round)
    → round_end max_attempts attempt r ≡ none
    → attempt < max_attempts
unfolding round_end
round_end-none max_attempts attempt r h =
    ground (arith, after_write-none max_attempts attempt r r.write)
