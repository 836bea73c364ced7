-- ===== src/Ack/Invariant.antt =====
-- The well-formedness of an ack coordinator (ack_coordinator.rs), kept by every operation.
use opendata_contrib.Common.{
  ℕ, ◌≤◌, ◌≡◌, refl, true, false, String, Option, none, some, [], u64_max,
}
use opendata_contrib.Ack.{AckCoordinator, new, expected_low}
use opendata_contrib.Ack.Chain.{Chain, chain_end}

pub record IsValid (c : AckCoordinator) : Type 0 where
  -- The pending ranges follow the frontier, or the baseline before the first commit, gap-free.
  pub chain : Chain (expected_low c.acked_frontier c.effective_baseline) c.pending
  pub last : c.last_registered_high ≡ chain_end c.acked_frontier c.pending
  pub unfixed :
      c.baseline_fixed ≡ false
      → (c.initial_frontier_baseline ≡ none) × (c.acked_frontier ≡ none) × (c.pending ≡ [])
  pub unregistered :
      c.baseline_fixed ≡ true
      → c.last_registered_high ≡ none
      → (b : ℕ) × (c.initial_frontier_baseline ≡ some b)
  pub pinned : (b : ℕ) → c.initial_frontier_baseline ≡ some b → c.effective_baseline ≡ some b
  pub frontier_bound : (f : ℕ) → c.acked_frontier ≡ some f → f ≤ u64_max
  pub baseline_bound : (b : ℕ) → c.effective_baseline ≡ some b → b ≤ u64_max

-- A fresh coordinator.
pub new-IsValid :
    (source : String) (initial : Option ℕ)
    → ((b : ℕ) → initial ≡ some b → b ≤ u64_max)
    → IsValid (new source initial)
unfolding new
new-IsValid source none h = record {
  chain = tt;
  last = refl;
  unfixed = λ e. (refl, refl, refl);
  unregistered = λ e f. cc;
  pinned = λ b e. cc;
  frontier_bound = λ f e. cc;
  baseline_bound = λ b e. cc;
}
new-IsValid source (some a) h = record {
  chain = tt;
  last = refl;
  unfixed = λ e. cc;
  unregistered = λ e f. (a, refl);
  pinned = λ b e. e;
  frontier_bound = λ f e. cc;
  baseline_bound = h;
}
