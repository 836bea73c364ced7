-- ===== src/Budget/Parking.antt =====
-- The parking protocol of `reserve` (source_budget.rs) against the rest of the runtime: one waiting
-- caller, and an environment that releases bytes (a subtraction, then `notify_waiters`) and adds bytes
-- (another claim or a growing `reconcile`) between any two of the caller's atomic steps.
use opendata_contrib.Common.{
  ℕ, ◌+◌, ◌-◌, ◌≤◌, ◌<◌, ◌≡◌, refl, Bool, true, false, arith, inl, inr, ◌⊎◌, u64_max,
  saturating_add, leb, ◌==◌, ◌&&◌,
}

-- Where the caller stands: it has called `reserve`, it has armed its `Notified`, it has loaded the counter, it is parked on
-- `notified.await`, or it has its bytes.
pub data Place : Type 0 where
  called armed parked claimed : Place
  loaded : ℕ → Place

-- `woken`: a `notify_waiters` has come since the caller armed. `owed`: releases that have subtracted
-- and not notified yet. `raced`: bytes were added between the caller's load and its exchange.
pub record Protocol : Type 0 where
  pub capacity : ℕ
  pub bytes : ℕ
  pub in_flight : ℕ
  pub place : Place
  pub woken : Bool
  pub owed : ℕ
  pub raced : Bool

-- The round that has loaded `current` claims its bytes.
abbrev pub succeeds : Protocol → ℕ → Bool
succeeds w current = leb (saturating_add current w.bytes) w.capacity && (w.in_flight == current)

-- Whether the caller is between its load and its exchange.
abbrev pub between : Place → Bool
between (loaded c) = true
between _ = false

abbrev pub or_between : Bool → Place → Bool
or_between true p = true
or_between false p = between p

pub data Step (w : Protocol) : Protocol → Type 0 where
  returns_early : w.place ≡ called → w.bytes ≡ 0 → Step w (record w { place = claimed })
  enters : w.place ≡ called → 0 < w.bytes → Step w (record w { place = armed })
  loads : w.place ≡ armed → Step w (record w { place = loaded w.in_flight; raced = false })
  claims :
      (c : ℕ)
      → w.place ≡ loaded c
      → succeeds w c ≡ true
      → Step w (record w { place = claimed; in_flight = c + w.bytes })
  parks : (c : ℕ) → w.place ≡ loaded c → succeeds w c ≡ false → Step w (record w { place = parked })
  wakes : w.place ≡ parked → w.woken ≡ true → Step w (record w { place = armed; woken = false })
  subtracts :
      (d : ℕ)
      → d ≤ w.in_flight
      → Step w (record w { in_flight = w.in_flight - d; owed = w.owed + 1 })
  notifies : 0 < w.owed → Step w (record w { owed = w.owed - 1; woken = true })
  adds :
      (d : ℕ)
      → Step w (record w { in_flight = w.in_flight + d; raced = or_between w.raced w.place })

pub data Reach (v : Protocol) : Protocol → Type 0 where
  here : Reach v v
  next : {w u : Protocol} → Reach v w → Step w u → Reach v u

-- Something will wake the caller, or its round was raced.
abbrev pub Excused : Protocol → Type 0
Excused w = (w.woken ≡ true) ⊎ (0 < w.owed) ⊎ (w.raced ≡ true)

abbrev Lacks : Protocol → Place → Type 0
Lacks w called = Unit {0}
Lacks w armed = Unit {0}
Lacks w claimed = Unit {0}
Lacks w (loaded c) = Excused w ⊎ (c ≡ w.in_flight)
Lacks w parked = Excused w ⊎ (w.capacity < w.in_flight + w.bytes)

pub record IsSound (w : Protocol) : Type 0 where
  pub small : w.capacity < u64_max
  pub lacks : Lacks w w.place

module _ (w : Protocol) where
  Lacks-subtracts :
      (d : ℕ) (p : Place)
      → Lacks w p
      → Lacks (record w { in_flight = w.in_flight - d; owed = w.owed + 1 }) p
  Lacks-subtracts d called h = tt
  Lacks-subtracts d armed h = tt
  Lacks-subtracts d claimed h = tt
  Lacks-subtracts d (loaded c) h = inl (inr (inl (omega arith)))
  Lacks-subtracts d parked h = inl (inr (inl (omega arith)))

  Lacks-notifies : (p : Place) → Lacks w p → Lacks (record w { owed = w.owed - 1; woken = true }) p
  Lacks-notifies called h = tt
  Lacks-notifies armed h = tt
  Lacks-notifies claimed h = tt
  Lacks-notifies (loaded c) h = inl (inl refl)
  Lacks-notifies parked h = inl (inl refl)

  Lacks-adds :
      (d : ℕ) (p : Place)
      → Lacks w p
      → Lacks (record w { in_flight = w.in_flight + d; raced = or_between w.raced p }) p
  Lacks-adds d called h = tt
  Lacks-adds d armed h = tt
  Lacks-adds d claimed h = tt
  Lacks-adds d (loaded c) h = inl (inr (inr (ground arith)))
  Lacks-adds d parked h = ground (arith, h)

Step-IsSound : {w u : Protocol} → Step w u → IsSound w → IsSound u
Step-IsSound {w} (returns_early e z) s = record { small = s.small; lacks = tt }
Step-IsSound {w} (enters e z) s = record { small = s.small; lacks = tt }
Step-IsSound {w} (loads e) s = record { small = s.small; lacks = inr refl }
Step-IsSound {w} (claims c e f) s = record { small = s.small; lacks = tt }
Step-IsSound {w} (parks c e f) s = record { small = s.small; lacks = ground (arith, s.lacks, e, f) }
Step-IsSound {w} (wakes e f) s = record { small = s.small; lacks = tt }
Step-IsSound {w} (subtracts d e) s = record {
  small = s.small;
  lacks = Lacks-subtracts w d w.place s.lacks;
}
Step-IsSound {w} (notifies e) s = record {
  small = s.small;
  lacks = Lacks-notifies w w.place s.lacks;
}
Step-IsSound {w} (adds d) s = record { small = s.small; lacks = Lacks-adds w d w.place s.lacks }

pub Reach-IsSound : {v w : Protocol} → Reach v w → IsSound v → IsSound w
Reach-IsSound here s = s
Reach-IsSound (next r t) s = Step-IsSound t (Reach-IsSound r s)

unfoldable pub start : ℕ → ℕ → ℕ → Protocol
start capacity bytes in_flight = record {
  capacity = capacity;
  bytes = bytes;
  in_flight = in_flight;
  place = called;
  woken = false;
  owed = 0;
  raced = false;
}

-- No wake-up is lost: in every interleaving, a caller that stays parked, with no notification made or
-- still to come and no bytes added during its last round, lacks the room. The capacity is below the
-- greatest word.
pub parked_lacks_room :
    (capacity bytes in_flight : ℕ) {w : Protocol}
    → capacity < u64_max
    → Reach (start capacity bytes in_flight) w
    → w.place ≡ parked
    → w.woken ≡ false
    → w.owed ≡ 0
    → w.raced ≡ false
    → w.capacity < w.in_flight + w.bytes
unfolding start
parked_lacks_room capacity bytes in_flight k r p q o c =
    ground (arith, (Reach-IsSound r (record { small = k; lacks = tt })).lacks)

-- A parked caller that nothing will wake, though its bytes fit.
abbrev pub IsStranded : Protocol → Type 0
IsStranded w =
    (w.place ≡ parked) × (w.woken ≡ false) × (w.owed ≡ 0) × (w.in_flight + w.bytes ≤ w.capacity)

-- With bytes added during its round a caller of at least one byte parks although there is room: the
-- exchange fails, and the loop awaits a notification instead of trying again. A state can be reached where
-- it is parked, with room for its bytes and no notification made or owed.
pub race_strands :
    (capacity bytes in_flight d : ℕ)
    → 0 < bytes
    → 0 < d
    → in_flight + d + bytes ≤ capacity
    → (w : Protocol) × Reach (start capacity bytes in_flight) w × IsStranded w
unfolding start
race_strands capacity bytes in_flight d some_bytes k h = (
  record {
    capacity = capacity;
    bytes = bytes;
    in_flight = in_flight + d;
    place = parked;
    woken = false;
    owed = 0;
    raced = true;
  },
  next (next (next (next here (enters refl some_bytes)) (loads refl)) (adds d))
      (parks in_flight refl (ground arith)),
  (refl, refl, refl, h),
)
