-- ===== src/Writer.antt =====
-- plugins/opendata-ingest-clickhouse/src/writer.rs: `execute_all`, `execute_chunk` with its retries, the
-- request that `execute_once` sends, and the classes of errors. The HTTP client is an environment: the
-- answer to each attempt at a chunk, or an error that it reports. Timers and metrics are left out. The
-- sleeps between the attempts are recorded. The serializer is a parameter (Serializer models the two).
pub mod Request
pub mod Laws
mod Examples
use opendata_contrib.Common.{
  ℕ, zero, suc, ◌+◌, ◌-◌, String, Bool, true, false, ◌&&◌, ◌||◌, Option, none, some, List, [], ◌∷◌,
  ◌++◌, Result, ok, err, ltb, leb, ◌==◌, if◌then◌else◌, saturating_mul, ◌*◌,
}
use opendata_contrib.Common.Text.{concat, decimal}
use opendata_contrib.Adapter.{InsertChunk}

pub data WriterErrorClass : Type 0 where
  retryable_class non_retryable_class budget_class : WriterErrorClass

pub data WriterError : Type 0 where
  retryable non_retryable retry_budget_exhausted serialization : String → WriterError

abbrev pub class : WriterError → WriterErrorClass
class (retryable m) = retryable_class
class (retry_budget_exhausted m) = budget_class
class (non_retryable m) = non_retryable_class
class (serialization m) = non_retryable_class

-- `reqwest::Error`: its kinds and its text.
pub record RequestError : Type 0 where
  pub is_timeout : Bool
  pub is_connect : Bool
  pub is_status : Bool
  pub text : String

unfoldable pub classify_reqwest : RequestError → WriterError
classify_reqwest e =
    if e.is_timeout || e.is_connect
    then retryable (concat ("network/timeout: " ∷ e.text ∷ []))
    else if e.is_status
    then retryable (concat ("http status: " ∷ e.text ∷ []))
    else retryable (concat ("request error: " ∷ e.text ∷ []))

unfoldable pub classify_status : ℕ → String → WriterError
classify_status status body =
    if status == 429 || (leb 500 status && ltb status 600)
    then retryable (concat ("status " ∷ decimal status ∷ ": " ∷ body ∷ []))
    else non_retryable (concat ("status " ∷ decimal status ∷ ": " ∷ body ∷ []))

-- What becomes of one request: no client could be built, the request failed, or the server answered with
-- a status and a body (the empty one if it cannot be read).
pub data HttpOutcome : Type 0 where
  no_client : String → HttpOutcome
  failed : RequestError → HttpOutcome
  answered : ℕ → String → HttpOutcome

-- `StatusCode::is_success`
abbrev pub is_success : ℕ → Bool
is_success status = leb 200 status && ltb status 300

-- `execute_once` after the request.
unfoldable pub execute_once : HttpOutcome → Result WriterError (Unit {0})
unfolding classify_reqwest classify_status
execute_once (no_client e) = err (non_retryable (concat ("reqwest client: " ∷ e ∷ [])))
execute_once (failed e) = err (classify_reqwest e)
execute_once (answered status body) =
    if is_success status then ok tt else err (classify_status status body)

abbrev pub exhausted : ℕ → String → WriterError
exhausted max_attempts text =
    retry_budget_exhausted
      (concat ("retry budget (" ∷ decimal max_attempts ∷ ") exhausted: " ∷ text ∷ []))

-- `Display` of the error, as thiserror derives it.
abbrev pub display : WriterError → String
display (retryable m) = concat ("clickhouse insert failed (retryable): " ∷ m ∷ [])
display (non_retryable m) = concat ("clickhouse insert failed (non-retryable): " ∷ m ∷ [])
display (retry_budget_exhausted m) =
    concat ("clickhouse insert failed (retry budget exhausted): " ∷ m ∷ [])
display (serialization m) = concat ("serialization error: " ∷ m ∷ [])

-- What is done with the result of an attempt: return, or sleep and try again.
pub data Next : Type 0 where
  return : Result WriterError (Unit {0}) → Next
  again : Next

abbrev pub by_class : ℕ → ℕ → WriterErrorClass → WriterError → Next
by_class max_attempts attempt retryable_class e =
    if ltb attempt max_attempts then again else return (err (exhausted max_attempts (display e)))
by_class max_attempts attempt budget_class e = return (err e)
by_class max_attempts attempt non_retryable_class e = return (err e)

unfoldable pub after_attempt : ℕ → ℕ → Result WriterError (Unit {0}) → Next
after_attempt max_attempts attempt (ok tt) = return (ok tt)
after_attempt max_attempts attempt (err e) = by_class max_attempts attempt (class e) e

-- One request, or one sleep, of a call.
pub data Event : Type 0 where
  sent : InsertChunk → HttpOutcome → Event
  slept : ℕ → Event

-- The result with the events of the call; `none` means that the fuel ran out.
abbrev pub preceded :
    List Event
    → Option (Result WriterError (Unit {0})) × List Event
    → Option (Result WriterError (Unit {0})) × List Event
preceded events (r, later) = (r, events ++ later)

-- `Duration::saturating_mul(2)` on a duration in nanoseconds; the greatest one has 2^64 - 1 seconds.
abbrev pub duration_max : ℕ
duration_max = 18446744073709551615999999999

abbrev pub doubled : ℕ → ℕ
doubled backoff = if leb (backoff * 2) duration_max then backoff * 2 else duration_max

-- The loop after `attempt` attempts; `answer n` is the outcome of the n-th one.
unfoldable pub insert_loop :
    ℕ
    → ℕ
    → InsertChunk
    → (ℕ → HttpOutcome)
    → ℕ
    → ℕ
    → Option (Result WriterError (Unit {0})) × List Event
unfolding after_attempt execute_once
insert_loop zero max_attempts chunk answer attempt backoff = (none, [])
insert_loop (suc fuel) max_attempts chunk answer attempt backoff =
    elim (after_attempt max_attempts (attempt + 1) (execute_once (answer (attempt + 1)))) [
      | return r ↦ (some r, sent chunk (answer (attempt + 1)) ∷ [])
      | again ↦
          preceded (sent chunk (answer (attempt + 1)) ∷ slept backoff ∷ [])
            (insert_loop fuel max_attempts chunk answer (attempt + 1) (doubled backoff))
    ]

-- Durations are nanoseconds.
pub record WriterConfig : Type 0 where
  pub endpoint : String
  pub user : String
  pub password : String
  pub request_timeout : ℕ
  pub max_attempts : ℕ
  pub initial_backoff : ℕ

abbrev pub default_writer : WriterConfig
default_writer = record {
  endpoint = "http://localhost:8123";
  user = "default";
  password = "";
  request_timeout = 30000000000;
  max_attempts = 6;
  initial_backoff = 100000000;
}

-- The serializer, which fails with a text (`WriterError::Serialization`), and the server's answers by chunk and attempt.
pub record WriterEnv : Type 0 where
  pub serialize : InsertChunk → Result String (List ℕ)
  pub answer : InsertChunk → ℕ → HttpOutcome

abbrev pub serialized :
    Result String (List ℕ)
    → Option (Result WriterError (Unit {0})) × List Event
    → Option (Result WriterError (Unit {0})) × List Event
serialized (ok body) run = run
serialized (err e) run = (some (err (serialization e)), [])

unfoldable pub execute_chunk :
    WriterConfig → WriterEnv → InsertChunk → Option (Result WriterError (Unit {0})) × List Event
unfolding insert_loop
execute_chunk config env chunk = serialized (env.serialize chunk) (
    insert_loop (config.max_attempts + 1) config.max_attempts chunk (env.answer chunk) 0
      config.initial_backoff)

-- `execute_all`: the chunks in their order, up to the first error.
abbrev pub then_rest :
    Option (Result WriterError (Unit {0})) × List Event
    → Option (Result WriterError (Unit {0})) × List Event
    → Option (Result WriterError (Unit {0})) × List Event
then_rest (some (ok tt), events) rest = preceded events rest
then_rest (some (err e), events) rest = (some (err e), events)
then_rest (none, events) rest = (none, events)

unfoldable pub execute_all :
    WriterConfig
    → WriterEnv
    → List InsertChunk
    → Option (Result WriterError (Unit {0})) × List Event
unfolding execute_chunk
execute_all config env [] = (some (ok tt), [])
execute_all config env (chunk ∷ chunks) =
    then_rest (execute_chunk config env chunk) (execute_all config env chunks)
