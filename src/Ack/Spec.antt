-- ===== src/Ack/Spec.antt =====
-- What the ack coordinator promises, without its pending map: the log of every range that was ever
-- registered, in order, each with its commit bit. The frontier is the end of the longest prefix of
-- the log that is all committed.
use opendata_contrib.Common.{
  ℕ, ◌+◌, Bool, true, false, ◌&&◌, Option, none, some, List, [], ◌∷◌, ◌++◌, map, leb, ◌==◌,
  if◌then◌else◌,
}
use opendata_contrib.Ack.{PendingRange}

pub record Log : Type 0 where
  pub baseline : Option ℕ
  pub ranges : List PendingRange

unfoldable pub open_log : Option ℕ → Log
open_log b = record { baseline = b; ranges = [] }

-- The `high` of the last range, or `o`.
unfoldable pub last_high : Option ℕ → List PendingRange → Option ℕ
last_high o [] = o
last_high o (r ∷ rs) = last_high (some r.high) rs

-- The end of the longest committed prefix, or `o`.
unfoldable pub prefix_high : Option ℕ → List PendingRange → Option ℕ
prefix_high o [] = o
prefix_high o (r ∷ rs) =
    let rest = prefix_high (some r.high) rs in if r.sink_committed then rest else o

unfoldable pub frontier : Log → Option ℕ
unfolding prefix_high
frontier l = prefix_high none l.ranges

-- A range follows the last one or, if it is the first, the baseline that is known.
unfoldable pub follows : Option ℕ → ℕ → Bool
follows none low = true
follows (some h) low = low == (h + 1)

unfoldable pub admissible : Log → ℕ → ℕ → Bool
unfolding follows last_high
admissible l low high = leb low high && follows (last_high l.baseline l.ranges) low

unfoldable pub register : Log → ℕ → ℕ → Log
unfolding admissible
register l low high =
    if admissible l low high
    then record l {
      ranges = l.ranges ++ record { low = low; high = high; sink_committed = false } ∷ [];
    }
    else l

-- Every range with exactly these ends is committed.
unfoldable pub mark : ℕ → ℕ → PendingRange → PendingRange
mark low high r = if r.low == low && r.high == high then record r { sink_committed = true } else r

unfoldable pub complete : Log → ℕ → ℕ → Log
unfolding mark
complete l low high = record l { ranges = map (mark low high) l.ranges }

-- The calls that the runtime makes: registration, and a commit followed by the frontier's advance.
pub data Call : Type 0 where
  registers completes : ℕ → ℕ → Call

unfoldable pub step : Log → Call → Log
unfolding register complete
step l (registers low high) = register l low high
step l (completes low high) = complete l low high

unfoldable pub run : Log → List Call → Log
unfolding step
run l [] = l
run l (c ∷ cs) = run (step l c) cs
