-- ===== src/Retry.antt =====
-- `write_with_retry` of runtime/opendata-ingest-runtime/src/runtime.rs. The sink and the abort token
-- are the environment: one `Round` for each attempt says what the calls of that turn of the loop
-- return. The calls that are made are logged in order, each with its answer.
pub mod Rounds
pub mod Laws
mod Examples
use opendata_contrib.Common.{
  ℕ, zero, suc, ◌+◌, String, Bool, true, false, Option, none, some, List, [], ◌∷◌, ◌++◌, Result, ok,
  err, leb, if◌then◌else◌, min, u32_max,
}
use opendata_contrib.Error.{
  RuntimeResult, RuntimeError, sink_error, pipeline_error, abort_in_write, abort_in_retry_sleep,
  abort_in_check_committed,
}
use opendata_contrib.Sink.{
  SinkCommit, CommitIdentity, SinkCommitResult, SinkCommitFailure, not_committed, maybe_committed,
  fatal, CommitStatus, is_committed, is_not_committed, is_unknown,
}

pub data SinkCommitOutcome : Type 0 where
  committed verified_already_committed failed_retryable failed_fatal : SinkCommitOutcome

pub data WriteSuccess : Type 0 where
  fresh : SinkCommitResult → WriteSuccess
  verified : WriteSuccess

pub record WriteAttempt : Type 0 where
  pub inner : RuntimeResult WriteSuccess
  pub outcome : SinkCommitOutcome

-- What the environment answers in one turn: each `select!` may see the token cancelled first.
pub record Round : Type 0 where
  pub write_cancelled : Bool
  pub write : Result SinkCommitFailure SinkCommitResult
  pub check_cancelled : Bool
  pub check : RuntimeResult CommitStatus
  pub slept : Bool

pub data Call : Type 0 where
  wrote : SinkCommit → Result SinkCommitFailure SinkCommitResult → Call
  checked : CommitIdentity → RuntimeResult CommitStatus → Call

abbrev pub give_up : RuntimeError → SinkCommitOutcome → WriteAttempt
give_up e outcome = record { inner = err e; outcome = outcome }

abbrev pub aborted : WriteAttempt
aborted = give_up (pipeline_error abort_in_retry_sleep) failed_fatal

-- The budget test and the sleep; `none` goes round the loop again.
abbrev pub retry_or_fail : ℕ → ℕ → String → Bool → Option WriteAttempt
retry_or_fail max_attempts attempt e slept =
    if leb max_attempts attempt
    then some (give_up (sink_error e) failed_retryable)
    else if slept
    then none
    else some aborted

-- The `match` on what `check_committed` returns.
abbrev pub after_check : ℕ → ℕ → String → Bool → RuntimeResult CommitStatus → Option WriteAttempt
after_check max_attempts attempt e slept (ok is_committed) =
    some (record { inner = ok verified; outcome = verified_already_committed })
after_check max_attempts attempt e slept (ok is_not_committed) =
    retry_or_fail max_attempts attempt e slept
after_check max_attempts attempt e slept (ok is_unknown) =
    retry_or_fail max_attempts attempt e slept
after_check max_attempts attempt e slept (err check_err) = some (give_up check_err failed_fatal)

-- The `match` on what `write` returns.
abbrev pub after_write :
    ℕ → ℕ → Round → Result SinkCommitFailure SinkCommitResult → Option WriteAttempt
after_write max_attempts attempt r (ok result) =
    some (record { inner = ok (fresh result); outcome = committed })
after_write max_attempts attempt r (err (fatal e)) = some (give_up (sink_error e) failed_fatal)
after_write max_attempts attempt r (err (not_committed e)) =
    retry_or_fail max_attempts attempt e r.slept
after_write max_attempts attempt r (err (maybe_committed e)) =
    if r.check_cancelled
    then some (give_up (pipeline_error abort_in_check_committed) failed_fatal)
    else after_check max_attempts attempt e r.slept r.check

-- How one turn of the loop ends; `none` is the next turn.
unfoldable pub round_end : ℕ → ℕ → Round → Option WriteAttempt
round_end max_attempts attempt r =
    if r.write_cancelled
    then some (give_up (pipeline_error abort_in_write) failed_fatal)
    else after_write max_attempts attempt r r.write

-- The calls of one turn.
abbrev pub check_call : SinkCommit → Round → Result SinkCommitFailure SinkCommitResult → List Call
check_call commit r (err (maybe_committed e)) =
    if r.check_cancelled then [] else checked commit.identity r.check ∷ []
check_call commit r w = []

unfoldable pub round_calls : SinkCommit → Round → List Call
round_calls commit r =
    if r.write_cancelled then [] else wrote commit r.write ∷ check_call commit r r.write

abbrev pub turn :
    Option WriteAttempt
    → List Call
    → Option WriteAttempt × List Call
    → Option WriteAttempt × List Call
turn (some a) calls rest = (some a, calls)
turn none calls rest = (rest.0, calls ++ rest.1)

-- The loop from `attempt` on, for at most `fuel` turns.
unfoldable pub write_loop : ℕ → ℕ → ℕ → SinkCommit → (ℕ → Round) → Option WriteAttempt × List Call
unfolding round_end round_calls
write_loop zero max_attempts attempt commit env = (none, [])
write_loop (suc fuel) max_attempts attempt commit env =
    turn (round_end max_attempts attempt (env attempt)) (round_calls commit (env attempt))
      (write_loop fuel max_attempts (min (attempt + 1) u32_max) commit env)

-- From the first attempt, with one turn more than the retries that are allowed.
unfoldable pub write_with_retry : ℕ → SinkCommit → (ℕ → Round) → Option WriteAttempt × List Call
unfolding write_loop
write_with_retry max_attempts commit env = write_loop (suc max_attempts) max_attempts 0 commit env
