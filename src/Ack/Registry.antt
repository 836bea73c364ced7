-- ===== src/Ack/Registry.antt =====
-- `AckCoordinators` (ack_coordinator.rs): the registry of coordinators by source. The `HashMap` is an
-- association list with one entry for a key.
use opendata_contrib.Common.{
  ℕ, ◌+◌, ◌≡◌, refl, ap, String, Option, none, some, List, [], ◌∷◌, map, arith, str_eq, str_eq_iff,
  ok, err, if◌then◌else◌, Option-cases, inl, inr, false, ◌∙◌,
}
use opendata_contrib.Error.{RuntimeResult, ack_error, already_registered}
use opendata_contrib.Ack.{AckCoordinator, new, frontier, pending_count}

pub record AckCoordinators : Type 0 where
  pub coordinators : List (String × AckCoordinator)

lookup : String → List (String × AckCoordinator) → Option AckCoordinator
lookup k [] = none
lookup k ((j, c) ∷ m) = if str_eq j k then some c else lookup k m

without : String → List (String × AckCoordinator) → List (String × AckCoordinator)
without k [] = []
without k ((j, c) ∷ m) = let rest = without k m in if str_eq j k then rest else (j, c) ∷ rest

unfoldable pub empty : AckCoordinators
empty = record { coordinators = [] }

unfoldable pub get : AckCoordinators → String → Option AckCoordinator
unfolding lookup
get a k = lookup k a.coordinators

-- `get_mut` with an assignment through the reference.
unfoldable pub put : AckCoordinators → String → AckCoordinator → AckCoordinators
unfolding without
put a k c = record { coordinators = (k, c) ∷ without k a.coordinators }

unfoldable pub register_source : AckCoordinators → String → Option ℕ → RuntimeResult AckCoordinators
unfolding get lookup put
register_source a source baseline = elim (get a source) [
  | some c ↦ err (ack_error (already_registered source))
  | none ↦ ok (put a source (new source baseline))
]

-- The coordinator is removed and handed to the caller.
unfoldable pub take : AckCoordinators → String → Option AckCoordinator × AckCoordinators
unfolding get lookup without
take a source = (get a source, record { coordinators = without source a.coordinators })

unfoldable pub frontiers : AckCoordinators → List (String × Option ℕ)
frontiers a = map (λ (e : String × AckCoordinator). (e.0, frontier e.1)) a.coordinators

sum_pending : List (String × AckCoordinator) → ℕ
sum_pending [] = 0
sum_pending ((k, c) ∷ m) = pending_count c + sum_pending m

unfoldable pub pending_total : AckCoordinators → ℕ
unfolding sum_pending
pending_total a = sum_pending a.coordinators

lookup-without :
    (k j : String) (m : List (String × AckCoordinator))
    → lookup j (without k m) ≡ (if str_eq k j then none else lookup j m)
unfolding lookup without
lookup-without k j [] = ground arith
lookup-without k j ((i, c) ∷ m) =
    ground (arith, lookup-without k j m, str_eq_iff i k, str_eq_iff i j, str_eq_iff k j)

get-put :
    (a : AckCoordinators) (k j : String) (c : AckCoordinator)
    → get (put a k c) j ≡ (if str_eq k j then some c else get a j)
unfolding get put lookup
get-put a k j c = ground (arith, lookup-without k j a.coordinators)

-- A registration that succeeds found no coordinator for the source, adds a fresh one and leaves every
-- other source; a second registration of the same source fails.
pub register_source_once :
    (a r : AckCoordinators) (source j : String) (b b' : Option ℕ)
    → register_source a source b ≡ ok r
    → (get a source ≡ none)
      × (get r j ≡ (if str_eq source j then some (new source b) else get a j))
      × (register_source r source b' ≡ err (ack_error (already_registered source)))
unfolding register_source
register_source_once a r source j b b' h = elim (Option-cases (get a source)) [
  | inl n ↦
      let e : r ≡ put a source (new source b) = ground (arith, h, n) in
      (
        n,
        ap (λ x. get x j) e ∙ get-put a source j (new source b),
        taken (ap (λ x. get x source) e ∙ get-put a source source (new source b)),
      )
  | inr (c, s) ↦ absurd (ground (arith, h, s))
]
  where
    taken :
        get r source ≡ (if str_eq source source then some (new source b) else get a source)
        → (elim (get r source) [
          | some c ↦ err (ack_error (already_registered source))
          | none ↦ ok (put r source (new source b'))
        ])
          ≡ err (ack_error (already_registered source))
    taken e = ground (arith, e, str_eq_iff source source)

-- `take` returns what `get` saw, removes that source and leaves every other one.
pub get-take :
    (a : AckCoordinators) (source j : String)
    → ((take a source).0 ≡ get a source)
      × (get (take a source).1 j ≡ (if str_eq source j then none else get a j))
unfolding take get
get-take a source j = (refl, lookup-without source j a.coordinators)

-- No source sees a change made to another: a step of one coordinator leaves every other one.
pub put_isolated :
    (a : AckCoordinators) (k j : String) (c : AckCoordinator)
    → str_eq k j ≡ false
    → get (put a k c) j ≡ get a j
put_isolated a k j c h = get-put a k j c ∙ ap (λ t. if t then some c else get a j) h
