-- ===== src/Pipeline/Acked.antt =====
-- What an ack to the source means in the whole system of one source (runtime.rs): from the source's ack
-- back through the coordinator, the completion, the writer and its retries to the sink's own answer.
use opendata_contrib.Common.{
  ℕ, ◌≤◌, ◌<◌, ◌≡◌, refl, sym, ap, ◌∙◌, subst, String, Bool, true, false, ◌&&◌, Option, none, some,
  List, [], ◌∷◌, map, All, All-append, All-In, In, u64_max, u32_max, ◌==◌, Bool-cases, inl, inr,
  arith, ==_iff, ltb, ltb→lt, ◌⊎◌,
}
use opendata_contrib.Options.{
  RuntimeOptions, SourceBackpressureOptions, effective_retry_max_attempts,
}
use opendata_contrib.Actor.{start}
use opendata_contrib.Actor.Acks.{IsSafe, Below}
use opendata_contrib.Actor.Run.{start-IsSafe}
use opendata_contrib.Ack.{PendingRange, new}
use opendata_contrib.Ack.Frontier.{no_hole}
use opendata_contrib.Ack.Refine.{run_coordinator}
use opendata_contrib.Ack.Spec.{
  Log, open_log, register, mark, admissible, registers, completes, step, run, complete,
}
use opendata_contrib.Ack.Spec as Spec
use opendata_contrib.Budget.{SourceByteBudget}
use opendata_contrib.Decode.{Decoder}
use opendata_contrib.Pipeline.Moves.{Reach-IsSound}
use opendata_contrib.Pipeline.Sound.{IsSound}
use opendata_contrib.Pipeline.Steps.{Pipeline, Reach, opening}
use opendata_contrib.Pipeline.Units.{Backed, Told}
use opendata_contrib.Retry.{Call}
use opendata_contrib.Source.{BufferSource, ConsumerOps}

module _ (sink_id : String) (log : List Call) where
  -- A range of the coordinator's log that is marked as committed is in the sink.
  abbrev MarkedIsBacked : PendingRange → Type 0
  MarkedIsBacked r = r.sink_committed ≡ true → Backed sink_id log r.low r.high

  mark-Backed :
      (low high : ℕ) (rs : List PendingRange)
      → Backed sink_id log low high
      → All MarkedIsBacked rs
      → All MarkedIsBacked (map (mark low high) rs)
  unfolding mark
  mark-Backed low high [] k h = tt
  mark-Backed low high (r ∷ rs) k h = (one, mark-Backed low high rs k h.1)
    where
      both : (i j : Bool) → (i && j) ≡ true → (i ≡ true) × (j ≡ true)
      both true true e = (refl, refl)
      both true false e = cc
      both false j e = cc

      one : MarkedIsBacked (mark low high r)
      one = elim (Bool-cases ((r.low == low) && (r.high == high))) [
        | inl t ↦ rw t (λ m.
            let p = both _ _ t in
            subst (λ l. Backed sink_id log l r.high) (sym ((==_iff _ _).0 p.0))
              (subst (λ x. Backed sink_id log low x) (sym ((==_iff _ _).0 p.1)) k))
        | inr f ↦ rw f (h.0)
      ]

  register-Backed :
      (l : Log) (low high : ℕ)
      → All MarkedIsBacked l.ranges
      → All MarkedIsBacked (register l low high).ranges
  unfolding register
  register-Backed l low high h = elim (Bool-cases (admissible l low high)) [
    | inl t ↦ rw t (All-append MarkedIsBacked l.ranges _ h ((λ m. cc), tt))
    | inr f ↦ rw f h
  ]

  run-Backed :
      (l : Log) (calls : List Spec.Call)
      → All (Told sink_id log) calls
      → All MarkedIsBacked l.ranges
      → All MarkedIsBacked (run l calls).ranges
  unfolding run step complete
  run-Backed l [] t h = h
  run-Backed l (registers low high ∷ calls) t h =
      run-Backed (register l low high) calls t.1 (register-Backed l low high h)
  run-Backed l (completes low high ∷ calls) t h =
      run-Backed (complete l low high) calls t.1 (mark-Backed low high l.ranges t.0 h)

-- Every range of the log of the coordinator's calls begins above the sequence or is in the sink.
abbrev pub InSinkUpTo : String → List Call → Option ℕ → List Spec.Call → ℕ → Type 0
InSinkUpTo sink_id log b calls f =
    All (λ r. (f < r.low) ⊎ Backed sink_id log r.low r.high) (run (open_log b) calls).ranges

All-of-In : {A : Type 0} (P : A → Type 0) (xs : List A) → ((x : A) → In x xs → P x) → All P xs
All-of-In P [] k = tt
All-of-In P (x ∷ xs) k = (k x (inl refl), All-of-In P xs (λ y i. k y (inr i)))

above_or_below : (f low : ℕ) → (f < low) ⊎ (low ≤ f)
above_or_below f low = elim (Bool-cases (ltb f low)) [
  | inl t ↦ inl (ltb→lt f low t)
  | inr n ↦ inr (ground arith)
]

Below-some : (o : Option ℕ) (f : ℕ) → Below o f → (g : ℕ) × (o ≡ some g) × (f ≤ g)
Below-some none f h = absurd h
Below-some (some g) f h = (g, refl, h)

module _ {C : Type 0} (sink_id source_id : String) (b : Option ℕ) (s : Pipeline C)
    (small : (a : ℕ) → b ≡ some a → a < u64_max) where
  acked-InSink :
      (f : ℕ)
      → (h : IsSound sink_id source_id b s) → In f s.actor.acks
      → ((g : ℕ) → s.actor.coordinator.acked_frontier ≡ some g → g < u64_max)
      → InSinkUpTo sink_id s.log b h.history.calls f
  unfolding IsSafe
  acked-InSink f h i word = All-of-In _ (run (open_log b) h.history.calls).ranges λ r k.
      elim (above_or_below f r.low) [
        | inl above ↦ inl above
        | inr le ↦ inr (backed r k (at_most le below.2))
      ]
    where
      below : (g : ℕ) × (s.actor.coordinator.acked_frontier ≡ some g) × (f ≤ g)
      below =
          Below-some _ f
            (All-In (Below s.actor.coordinator.acked_frontier) s.actor.acks h.safe.1.reached i)

      at_most : {i j k : ℕ} → i ≤ j → j ≤ k → i ≤ k
      at_most p q = omega arith

      backed :
          (r : PendingRange)
          → In r (run (open_log b) h.history.calls).ranges
          → r.low ≤ below.0
          → Backed sink_id s.log r.low r.high
      backed r k le =
          All-In (MarkedIsBacked sink_id s.log) (run (open_log b) h.history.calls).ranges
            (run-Backed sink_id s.log (open_log b) h.history.calls h.history.told
              (unfold open_log in tt))
            k
            (no_hole source_id b h.history.calls below.0 r small h.history.in_range
              (ap (λ c. c.acked_frontier) (sym h.history.same) ∙ below.1) (word below.0 below.1) k
              le)

module _ {C : Type 0} (ops : ConsumerOps C) (options : RuntimeOptions)
    (bp : SourceBackpressureOptions) (decoder : Decoder) (sink_id : String)
    (source : BufferSource C) (budget : SourceByteBudget) (permits : ℕ) where
  -- The system at the start of a run.
  abbrev pub fresh_run : Pipeline C
  fresh_run = opening (start source (new source.id source.last_acked)) budget permits

  fresh_run-IsSound :
      ((a : ℕ) → source.last_acked ≡ some a → a ≤ u64_max)
      → IsSound sink_id source.id source.last_acked fresh_run
  fresh_run-IsSound h = record {
    descriptors = tt;
    fetching = tt;
    fetched = tt;
    decoding = tt;
    commits = tt;
    writing = tt;
    completions = tt;
    safe = start-IsSafe ops options source h;
    history = record {
      calls = [];
      same = unfold start run_coordinator in refl;
      in_range = tt;
      told = tt;
    };
  }

  -- No ack before the sink has the data. In every state that the tasks of a source can reach, in any
  -- order of their steps, with sends that fail, closed channels and aborts, and with any answers of the
  -- buffer, the decoder and the sink, in a run that is not dry: the coordinator's state comes from a history of calls, and for every ack that was sent to the
  -- source, each range of that history which begins at or below the acked sequence has an answer of the
  -- sink, to a write or to a check, that it is committed. The source's last ack and the frontier are below
  -- the greatest word, the retries are a `u32`.
  pub ack_is_in_sink :
      (s : Pipeline C)
      → options.dry_run ≡ false
      → effective_retry_max_attempts options ≤ u32_max
      → ((a : ℕ) → source.last_acked ≡ some a → a < u64_max)
      → Reach ops options bp decoder source.id sink_id fresh_run s
      → ((g : ℕ) → s.actor.coordinator.acked_frontier ≡ some g → g < u64_max)
      → (calls : List Spec.Call) × ((s.actor.coordinator
            ≡ run_coordinator (new source.id source.last_acked) calls)
          × All (InSinkUpTo sink_id s.log source.last_acked calls) s.actor.acks)
  ack_is_in_sink s wet retries small r word = (
    h.history.calls,
    (
      h.history.same,
      All-of-In _ s.actor.acks
          (λ f i. acked-InSink sink_id source.id source.last_acked s small f h i word),
    ),
  )
    where
      h : IsSound sink_id source.id source.last_acked s
      h =
          Reach-IsSound ops options bp decoder source.id sink_id wet retries source.last_acked
            (fresh_run-IsSound (λ a e. weaken (small a e))) r
        where
          weaken : {a : ℕ} → a < u64_max → a ≤ u64_max
          weaken q = omega arith
