-- ===== src/Actor/Gates.antt =====
-- The number of gates that the admission arm (runtime.rs) opens.
use opendata_contrib.Common.{
  ℕ, zero, suc, ◌+◌, ◌-◌, ◌≤◌, ◌≡◌, refl, min, max, Option, none, some, [], ◌∷◌, arith, length,
  length-append, true, false, saturating_add, ◌==◌, Bool,
}
use opendata_contrib.Options.{RuntimeOptions, SourceBackpressureOptions}
use opendata_contrib.Budget.{SourceByteBudget, ByteReservation, source, attach_stage}
use opendata_contrib.Actor.Admission.{Gates, push_gate, extend_gates, open_gates, k_target, opened}

-- From one value of the gates to the next: gates are added, at most so many, each with a permit.
abbrev pub Opens : ℕ → Gates → Gates → Type 0
Opens n g h =
    (length g.reservations ≤ length h.reservations)
    × (length h.reservations ≤ length g.reservations + n)
    × (h.permits + length h.reservations ≡ g.permits + length g.reservations)

Opens-refl : (n : ℕ) (g : Gates) → Opens n g g
Opens-refl n g = (omega arith, omega arith, refl)

Opens-push_gate :
    (n : ℕ) (g h : Gates) (e : SourceByteBudget × ByteReservation)
    → (g.permits == 0) ≡ false
    → Opens n (push_gate g e) h
    → Opens (suc n) g h
Opens-push_gate n g h (b, r) p (x, y, z) =
    pushed g.permits (length g.reservations) (length h.reservations) h.permits
      (length (push_gate g (b, r)).reservations)
      (length-append g.reservations ((attach_stage b r source).1 ∷ [])) p x y z
  where
    pushed :
        (permits l m q k : ℕ)
        → k ≡ l + 1
        → (permits == 0) ≡ false
        → k ≤ m
        → m ≤ k + n
        → q + m ≡ (permits - 1) + k
        → (l ≤ m) × (m ≤ l + suc n) × (q + m ≡ permits + l)
    pushed permits l m q k e p x y z = ground arith

Opens-opened :
    (n : ℕ) (g : Gates) (p : Bool) (o : Option (SourceByteBudget × ByteReservation))
    (k : SourceByteBudget × ByteReservation → Gates)
    → ((e : SourceByteBudget × ByteReservation) → p ≡ false → Opens n g (k e))
    → Opens n g (opened p o g k)
Opens-opened n g true o k h = Opens-refl n g
Opens-opened n g false none k h = Opens-refl n g
Opens-opened n g false (some e) k h = h e refl

extend_gates-Opens :
    (n : ℕ) (seen : ℕ → ℕ) (estimated : ℕ) (g : Gates) → Opens n g (extend_gates n seen estimated g)
unfolding extend_gates
extend_gates-Opens zero seen estimated g = Opens-refl zero g
extend_gates-Opens (suc n) seen estimated g = Opens-opened (suc n) g (g.permits == 0) _ _ λ e f.
    Opens-push_gate n g (extend_gates n seen estimated (push_gate g e)) e f
      (extend_gates-Opens n seen estimated (push_gate g e))

k_target_bound :
    (options : RuntimeOptions) (bp : SourceBackpressureOptions) (b : SourceByteBudget) (permits : ℕ)
    → (1 ≤ k_target options bp b permits)
      × (k_target options bp b permits ≤ max options.max_descriptors_per_poll 1)
      × (k_target options bp b permits ≤ permits + 1)
unfolding k_target
k_target_bound options bp b permits = bounds options.max_descriptors_per_poll permits _
  where
    bounds :
        (m p r : ℕ)
        → (1 ≤ min (min (max m 1) (saturating_add 1 p)) (saturating_add 1 r))
          × (min (min (max m 1) (saturating_add 1 p)) (saturating_add 1 r) ≤ max m 1)
          × (min (min (max m 1) (saturating_add 1 p)) (saturating_add 1 r) ≤ p + 1)
    bounds m p r = ground arith

-- A cycle of admission opens at least one gate and at most `max_descriptors_per_poll` (or one, when
-- that is zero), and every gate beyond the first has taken exactly one permit of the semaphore.
pub open_gates_bound :
    (options : RuntimeOptions) (bp : SourceBackpressureOptions) (seen : ℕ → ℕ)
    (b : SourceByteBudget) (permits : ℕ) (r : ByteReservation)
    → (1 ≤ length (open_gates options bp seen b permits r).reservations)
      × (length (open_gates options bp seen b permits r).reservations
          ≤ max options.max_descriptors_per_poll 1)
      × ((open_gates options bp seen b permits r).permits
            + length (open_gates options bp seen b permits r).reservations
          ≡ permits + 1)
unfolding open_gates
open_gates_bound options bp seen b permits r =
    let (x, y, z) =
      extend_gates-Opens (k_target options bp (attach_stage b r source).0 permits - 1) seen
        bp.estimated_max_batch_bytes
        (record {
          permits = permits;
          budget = (attach_stage b r source).0;
          reservations = (attach_stage b r source).1 ∷ [];
        }) in
    let (k1, k2, _) = k_target_bound options bp (attach_stage b r source).0 permits in
    (x, within _ _ _ k1 k2 y, z)
  where
    within : (k m l : ℕ) → 1 ≤ k → k ≤ m → l ≤ 1 + (k - 1) → l ≤ m
    within k m l a b c = omega arith
