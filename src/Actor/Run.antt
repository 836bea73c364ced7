-- ===== src/Actor/Run.antt =====
-- Whole histories of the actor (runtime.rs), and the flush policy and the dry run.
use opendata_contrib.Common.{
  ℕ, ◌≤◌, ◌≡◌, refl, sym, subst, Option, some, List, [], ◌∷◌, ok, err, All, u64_max,
}
use opendata_contrib.Error.{RuntimeResult}
use opendata_contrib.Options.{RuntimeOptions}
use opendata_contrib.Ack.{AckCoordinator, new, register_pending}
use opendata_contrib.Ack.Invariant.{new-IsValid}
use opendata_contrib.Ack.Register.{register_pending-IsValid, register_pending_fields}
use opendata_contrib.Source.{ConsumerOps, BufferSource, SourceBatchDescriptor}
use opendata_contrib.Actor.{Actor, WriteCompletion, start, complete}
use opendata_contrib.Actor.Admission.{register_all, registered, registering}
use opendata_contrib.Actor.Acks.{IsSafe, IsOrdered, complete-IsSafe, Descends, Below}

-- The turns of the loop that change the actor: a completion, and the registration of a poll.
pub data ActorEvent : Type 0 where
  finishes : Option WriteCompletion → ActorEvent
  admits : List SourceBatchDescriptor → ActorEvent

abbrev pub FitsWord : ActorEvent → Type 0
FitsWord (finishes c) = Unit {0}
FitsWord (admits ds) = All (λ (d : SourceBatchDescriptor). d.sequence ≤ u64_max) ds

abbrev pub on_ok :
    {C : Type 0}
    → RuntimeResult (Unit {0}) × Actor C
    → (Actor C → RuntimeResult (Unit {0}) × Actor C)
    → RuntimeResult (Unit {0}) × Actor C
on_ok (ok u, a) k = k a
on_ok (err e, a) k = (err e, a)

module _ {C : Type 0} (ops : ConsumerOps C) (options : RuntimeOptions) where
  abbrev pub actor_turn : Actor C → ActorEvent → RuntimeResult (Unit {0}) × Actor C
  actor_turn a (finishes c) = complete ops options a c
  actor_turn a (admits ds) = register_all a ds

  -- The loop over a history: the first error ends it.
  unfoldable pub run_actor : Actor C → List ActorEvent → RuntimeResult (Unit {0}) × Actor C
  unfolding complete register_all
  run_actor a [] = (ok tt, a)
  run_actor a (e ∷ es) = on_ok (actor_turn a e) λ b. run_actor b es

module _ {C : Type 0} where
  registered-IsSafe :
      (a : Actor C) (c : AckCoordinator) (seq : ℕ)
      → seq ≤ u64_max
      → register_pending a.coordinator seq seq ≡ ok c
      → IsSafe a
      → IsSafe (registered a c)
  unfolding IsSafe
  registered-IsSafe a c seq le h (v, o) = (
    register_pending-IsValid a.coordinator c seq seq v le h,
    subst (λ f. IsOrdered f a.last_ack_sent a.acks)
        (sym (register_pending_fields a.coordinator c seq seq v le h).1) o,
  )

  -- Registering the descriptors of a poll keeps the acks in order, also when it fails midway.
  pub register_all-IsSafe :
      (a : Actor C) (ds : List SourceBatchDescriptor)
      → All (λ (d : SourceBatchDescriptor). d.sequence ≤ u64_max) ds
      → IsSafe a
      → IsSafe (register_all a ds).1
  unfolding register_all
  register_all-IsSafe a [] h s = s
  register_all-IsSafe a (d ∷ ds) h s =
      by_result (register_pending a.coordinator d.sequence d.sequence) refl λ c q.
        register_all-IsSafe (registered a c) ds h.1 (registered-IsSafe a c d.sequence h.0 q s)
    where
      by_result :
          (r : RuntimeResult AckCoordinator)
          → register_pending a.coordinator d.sequence d.sequence ≡ r
          → ((c : AckCoordinator)
              → register_pending a.coordinator d.sequence d.sequence ≡ ok c
              → IsSafe (register_all (registered a c) ds).1)
          → IsSafe (registering a r (λ b. register_all b ds)).1
      by_result (err e) q k = s
      by_result (ok c) q k = k c q

module _ {C : Type 0} (ops : ConsumerOps C) (options : RuntimeOptions) where
  actor_turn-IsSafe :
      (a : Actor C) (e : ActorEvent) → FitsWord e → IsSafe a → IsSafe (actor_turn ops options a e).1
  actor_turn-IsSafe a (finishes c) h s = complete-IsSafe ops options a c s
  actor_turn-IsSafe a (admits ds) h s = register_all-IsSafe a ds h s

  run_actor-IsSafe :
      (a : Actor C) (es : List ActorEvent)
      → All FitsWord es
      → IsSafe a
      → IsSafe (run_actor ops options a es).1
  unfolding run_actor
  run_actor-IsSafe a [] h s = s
  run_actor-IsSafe a (e ∷ es) h s =
      continued (actor_turn ops options a e) (actor_turn-IsSafe a e h.0 s)
        (λ b k. run_actor-IsSafe b es h.1 k)
    where
      continued :
          (r : RuntimeResult (Unit {0}) × Actor C)
          → IsSafe r.1
          → ((b : Actor C) → IsSafe b → IsSafe (run_actor ops options b es).1)
          → IsSafe (on_ok r (λ b. run_actor ops options b es)).1
      continued (ok u, b) k m = m b k
      continued (err x, b) k m = k

  pub start-IsSafe :
      (source : BufferSource C)
      → ((b : ℕ) → source.last_acked ≡ some b → b ≤ u64_max)
      → IsSafe (start source (new source.id source.last_acked))
  unfolding IsSafe start
  start-IsSafe source h = (
    new-IsValid source.id source.last_acked h,
    record { ascending = tt; sent = tt; reached = tt },
  )

  -- What a history leaves of a fresh actor.
  abbrev pub outcome_of : BufferSource C → List ActorEvent → Actor C
  outcome_of source es =
      (run_actor ops options (start source (new source.id source.last_acked)) es).1

  -- No ack before its commit: over every history of completions and polls, up to the first error, the
  -- acks that the actor sends strictly increase, and none is above the frontier of its coordinator,
  -- which began at the source's last ack.
  pub run_actor_acks :
      (source : BufferSource C) (es : List ActorEvent)
      → ((b : ℕ) → source.last_acked ≡ some b → b ≤ u64_max)
      → All FitsWord es
      → Descends (outcome_of source es).acks
        × All (Below (outcome_of source es).coordinator.acked_frontier) (outcome_of source es).acks
  unfolding IsSafe
  run_actor_acks source es h w =
      let (v, o) =
        run_actor-IsSafe (start source (new source.id source.last_acked)) es w
          (start-IsSafe source h) in
      (o.ascending, o.reached)
