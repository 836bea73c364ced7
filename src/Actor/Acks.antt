-- ===== src/Actor/Acks.antt =====
-- The acks that the completion arm of the actor (runtime.rs) sends: their order, and that they never
-- pass the frontier of the coordinator.
use opendata_contrib.Common.{
  ℕ, ◌≤◌, ◌<◌, ◌≡◌, refl, sym, ap, subst, Bool, true, false, not, Option, none, some, List, [], ◌∷◌,
  ok, err, if◌then◌else◌, arith, All, Bool-cases, inl, inr, after, ◌∙◌,
}
use opendata_contrib.Error.{RuntimeResult}
use opendata_contrib.Options.{RuntimeOptions, AckFlushPolicy}
use opendata_contrib.Ack.{AckCoordinator, mark_committed, advance_frontier}
use opendata_contrib.Ack.Invariant.{IsValid}
use opendata_contrib.Ack.Advance.{
  AtMost, mark_committed-IsValid, advance_frontier-IsValid, mark_committed-Marked,
}
use opendata_contrib.Source.{ConsumerOps, BufferSource, flush_acks}
use opendata_contrib.Actor.{
  Actor, WriteCompletion, committed_report, fatal_completion, should_ack, should_flush,
  count_commit, send_ack, after_flush, flush_group, ack_frontier, sample, commit_marked, complete,
}

-- The number is at most the frontier.
abbrev pub Below : Option ℕ → ℕ → Type 0
Below none x = ⊥
Below (some f) x = x ≤ f

-- Newest first: every ack is above all the earlier ones.
abbrev pub Descends : List ℕ → Type 0
Descends [] = Unit
Descends (f ∷ fs) = All (λ x. x < f) fs × Descends fs

-- What holds of the acks sent so far: strictly increasing, none above the last one sent, none above the
-- coordinator's frontier.
pub record IsOrdered (frontier : Option ℕ) (last_ack_sent : Option ℕ) (acks : List ℕ) : Type 0 where
  pub ascending : Descends acks
  pub sent : All (Below last_ack_sent) acks
  pub reached : All (Below frontier) acks

Below-AtMost : (f g : Option ℕ) (x : ℕ) → AtMost f g → Below f x → Below g x
Below-AtMost none g x h b = absurd b
Below-AtMost (some f) none x h b = absurd h
Below-AtMost (some f) (some g) x h b = omega arith

All-Below-AtMost : (f g : Option ℕ) (xs : List ℕ) → AtMost f g → All (Below f) xs → All (Below g) xs
All-Below-AtMost f g [] h b = tt
All-Below-AtMost f g (x ∷ xs) h b = (Below-AtMost f g x h b.0, All-Below-AtMost f g xs h b.1)

-- A new ack above the last one is above them all.
above_sent :
    (last : Option ℕ) (f : ℕ) (xs : List ℕ)
    → should_ack last f ≡ true
    → All (Below last) xs
    → All (λ x. x < f) xs
above_sent last f [] h b = tt
above_sent none f (x ∷ xs) h b = absurd b.0
above_sent (some p) f (x ∷ xs) h b = (ground (arith, b.0), above_sent (some p) f xs h b.1)

new_ack-Below : (f : ℕ) (xs : List ℕ) → All (λ x. x < f) xs → All (Below (some f)) xs
new_ack-Below f [] h = tt
new_ack-Below f (x ∷ xs) h = (omega (arith, h.0), new_ack-Below f xs h.1)

pub IsOrdered-ack :
    (last : Option ℕ) (f : ℕ) (acks : List ℕ)
    → should_ack last f ≡ true
    → IsOrdered (some f) last acks
    → IsOrdered (some f) (some f) (f ∷ acks)
IsOrdered-ack last f acks h o =
    let above = above_sent last f acks h o.sent in
    record {
      ascending = (above, o.ascending);
      sent = (omega arith, new_ack-Below f acks above);
      reached = (omega arith, new_ack-Below f acks above);
    }

pub IsOrdered-AtMost :
    (f g last : Option ℕ) (acks : List ℕ)
    → AtMost f g
    → IsOrdered f last acks
    → IsOrdered g last acks
IsOrdered-AtMost f g last acks h o = record {
  ascending = o.ascending;
  sent = o.sent;
  reached = All-Below-AtMost f g acks h o.reached;
}

IsOrdered-moved :
    {f g l m : Option ℕ} {xs ys : List ℕ}
    → f ≡ g
    → l ≡ m
    → xs ≡ ys
    → IsOrdered f l xs
    → IsOrdered g m ys
IsOrdered-moved {f = f} {l = l} {m = m} {ys = ys} e h k o =
    subst (λ x. IsOrdered x m ys) e
      (subst (λ x. IsOrdered f x ys) h (subst (λ x. IsOrdered f l x) k o))

-- The acks of an actor are in order, over a valid coordinator.
unfoldable pub IsSafe : {C : Type 0} → Actor C → Type 0
IsSafe a = IsValid a.coordinator × IsOrdered a.coordinator.acked_frontier a.last_ack_sent a.acks

pub if-holds {ℓ} :
    {A : Type ℓ} (P : A → Type 0) (b : Bool) (x y : A)
    → (b ≡ true → P x)
    → (b ≡ false → P y)
    → P (if b then x else y)
if-holds P true x y h k = h refl
if-holds P false x y h k = k refl

-- The coordinator after a commit that it took.
abbrev pub advanced : RuntimeResult AckCoordinator → RuntimeResult AckCoordinator
advanced (ok c) = ok (advance_frontier c)
advanced (err e) = err e

module _ {C : Type 0} (ops : ConsumerOps C) where
  -- Neither the flush nor the progress sample touches what the acks are about.
  abbrev Same : Actor C → Actor C → Type 0
  Same a b =
      (b.coordinator ≡ a.coordinator) × (b.last_ack_sent ≡ a.last_ack_sent) × (b.acks ≡ a.acks)

  after_flush-Same :
      (a : Actor C) (f : ℕ) (r : RuntimeResult (Unit {0}) × BufferSource C)
      → Same a (after_flush a f r).1
  after_flush-Same a f (ok u, s) = (refl, refl, refl)
  after_flush-Same a f (err e, s) = (refl, refl, refl)

  flush_group-Same :
      (policy : AckFlushPolicy) (a : Actor C) (f : ℕ) → Same a (flush_group ops policy a f).1
  unfolding flush_group
  flush_group-Same policy a f = elim (Bool-cases (should_flush policy a.groups_since_flush)) [
    | inl t ↦ rw t (after_flush-Same a f (flush_acks ops a.source))
    | inr n ↦ rw n (refl, refl, refl)
  ]

  sample-Same : (r : RuntimeResult (Unit {0}) × Actor C) → Same r.1 (sample ops r).1
  sample-Same (ok u, a) = (refl, refl, refl)
  sample-Same (err e, a) = (refl, refl, refl)

  Same-IsSafe : (a b : Actor C) → Same a b → IsSafe a → IsSafe b
  unfolding IsSafe
  Same-IsSafe a b (c, l, k) (v, o) = (
    subst IsValid (sym c) v,
    IsOrdered-moved (ap (λ x. x.acked_frontier) (sym c)) (sym l) (sym k) o,
  )

  abbrev SafeAfter : RuntimeResult (Unit {0}) × Actor C → Type 0
  SafeAfter r = IsSafe r.1

  ack_frontier-IsSafe :
      (options : RuntimeOptions) (a : Actor C) (f : Option ℕ)
      → a.coordinator.acked_frontier ≡ f
      → IsSafe a
      → IsSafe (ack_frontier ops options a f).1
  unfolding ack_frontier send_ack IsSafe
  ack_frontier-IsSafe options a none e s = s
  ack_frontier-IsSafe options a (some f) e (v, o) =
      if-holds SafeAfter (not options.dry_run) _ _
        (λ live.
          if-holds SafeAfter (should_ack a.last_ack_sent f) _ _
            (λ h.
              Same-IsSafe (send_ack a f)
                (flush_group ops options.ack_flush_policy (send_ack a f) f).1
                (flush_group-Same options.ack_flush_policy (send_ack a f) f)
                (
                  v,
                  subst (λ x. IsOrdered x (some f) (f ∷ a.acks)) (sym e)
                      (IsOrdered-ack a.last_ack_sent f a.acks h
                        (subst (λ x. IsOrdered x a.last_ack_sent a.acks) e o)),
                ))
            (λ h. (v, o)))
        (λ dry. (v, o))

  counted-IsSafe :
      (a : Actor C) (c : AckCoordinator) (high rows : ℕ)
      → IsValid c
      → c.acked_frontier ≡ a.coordinator.acked_frontier
      → IsSafe a
      → IsSafe (count_commit a (advance_frontier c) high rows)
  unfolding IsSafe count_commit
  counted-IsSafe a c high rows v e (w, o) =
      let (u, le) = advance_frontier-IsValid c v in
      (
        u,
        IsOrdered-AtMost a.coordinator.acked_frontier (advance_frontier c).acked_frontier
            a.last_ack_sent a.acks (subst (λ x. AtMost x (advance_frontier c).acked_frontier) e le)
            o,
      )

  counted_frontier :
      (a : Actor C) (c : AckCoordinator) (high rows : ℕ)
      → (count_commit a c high rows).coordinator.acked_frontier ≡ c.acked_frontier
  unfolding count_commit
  counted_frontier a c high rows = refl

  commit_marked-IsSafe :
      (options : RuntimeOptions) (a : Actor C) (r : RuntimeResult AckCoordinator) (high rows : ℕ)
      → ((c : AckCoordinator)
          → r ≡ ok c
          → IsValid c × (c.acked_frontier ≡ a.coordinator.acked_frontier))
      → IsSafe a
      → IsSafe (commit_marked ops options a r high rows).1
  commit_marked-IsSafe options a (err x) high rows v s = s
  commit_marked-IsSafe options a (ok c) high rows v s =
      Same-IsSafe
        (ack_frontier ops options (count_commit a (advance_frontier c) high rows)
          (advance_frontier c).acked_frontier).1
        (commit_marked ops options a (ok c) high rows).1
        (sample-Same (
          ack_frontier ops options (count_commit a (advance_frontier c) high rows)
            (advance_frontier c).acked_frontier))
        (ack_frontier-IsSafe options (count_commit a (advance_frontier c) high rows)
          (advance_frontier c).acked_frontier (counted_frontier a (advance_frontier c) high rows)
          (counted-IsSafe a c high rows (v c refl).0 (v c refl).1 s))

  -- Whatever the completion channel returns, and whether the arm succeeds or fails, the acks sent so far
  -- stay strictly increasing, and none of them is above the coordinator's frontier.
  pub complete-IsSafe :
      (options : RuntimeOptions) (a : Actor C) (completion : Option WriteCompletion)
      → IsSafe a
      → IsSafe (complete ops options a completion).1
  unfolding complete IsSafe
  complete-IsSafe options a none s = s
  complete-IsSafe options a (some (fatal_completion e)) s = s
  complete-IsSafe options a (some (committed_report low high rows)) s =
      commit_marked-IsSafe options a (mark_committed a.coordinator low high) high rows
        (marked a low high (safe_valid a s)) s
    where
      marked :
          (a : Actor C) (low high : ℕ)
          → IsValid a.coordinator
          → (c : AckCoordinator) → mark_committed a.coordinator low high ≡ ok c
          → IsValid c × (c.acked_frontier ≡ a.coordinator.acked_frontier)
      marked a low high v c h =
          let m = mark_committed-Marked a.coordinator c low high h in
          (
            mark_committed-IsValid a.coordinator c low high v h,
            ap (λ (x : AckCoordinator). x.acked_frontier) m.3,
          )

      safe_valid : (a : Actor C) → IsSafe a → IsValid a.coordinator
      safe_valid a s = s.0

  ack_frontier_coordinator :
      (options : RuntimeOptions) (a : Actor C) (f : Option ℕ)
      → (ack_frontier ops options a f).1.coordinator ≡ a.coordinator
  unfolding ack_frontier send_ack
  ack_frontier_coordinator options a none = refl
  ack_frontier_coordinator options a (some f) =
      if-holds (λ (r : RuntimeResult (Unit {0}) × Actor C). r.1.coordinator ≡ a.coordinator)
        (not options.dry_run) _ _
        (λ live.
          if-holds (λ (r : RuntimeResult (Unit {0}) × Actor C). r.1.coordinator ≡ a.coordinator)
            (should_ack a.last_ack_sent f) _ _
            (λ h. (flush_group-Same options.ack_flush_policy (send_ack a f) f).0) (λ h. refl))
        (λ dry. refl)

  commit_marked_coordinator :
      (options : RuntimeOptions) (a : Actor C) (r : RuntimeResult AckCoordinator) (high rows : ℕ)
      → (commit_marked ops options a r high rows).1.coordinator ≡ after a.coordinator (advanced r)
  unfolding count_commit
  commit_marked_coordinator options a (err x) high rows = refl
  commit_marked_coordinator options a (ok c) high rows =
      (sample-Same (
        ack_frontier ops options (count_commit a (advance_frontier c) high rows)
          (advance_frontier c).acked_frontier)).0
      ∙ ack_frontier_coordinator options (count_commit a (advance_frontier c) high rows)
          (advance_frontier c).acked_frontier

  -- What a completion does to the coordinator: a commit is marked and the frontier advanced; a fatal
  -- completion, and a commit that is refused, change nothing.
  pub complete_coordinator :
      (options : RuntimeOptions) (a : Actor C) (low high rows : ℕ)
      → (complete ops options a (some (committed_report low high rows))).1.coordinator
        ≡ after a.coordinator (advanced (mark_committed a.coordinator low high))
  unfolding complete
  complete_coordinator options a low high rows =
      commit_marked_coordinator options a (mark_committed a.coordinator low high) high rows
