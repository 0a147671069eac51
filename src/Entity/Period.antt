-- ===== src/Entity/Period.antt =====
-- internal/entity/period.go, and the conversion to and from Postgres ranges of
-- internal/utils/xtime/pg_range.go.
use maintmode.Base.{ℕ, ◌-◌, Option, none, some, Bool, true, false}

pub record Period : Type 0 where
  pub start : ℕ
  pub end : Option ℕ

abbrev pub new_period : ℕ → ℕ → Period
new_period start end = record { start = start; end = some end }

abbrev pub new_open_ended_period : ℕ → Period
new_open_ended_period start = record { start = start; end = none }

abbrev pub is_open : Option ℕ → Bool
is_open none = true
is_open (some _) = false

-- `Duration` dereferences the end: of an open period it panics, which is `none` here. A
-- `time.Duration` may be negative; the periods stored are ordered, and there `-` is exact.
abbrev pub duration : Period → Option ℕ
duration p = elim p.end [ none ↦ none | some end ↦ some (end - p.start) ]

-- A bound of a Postgres range: a time, or unbounded.
pub data Bound : Type 0 where
  at : ℕ → Bound
  unbounded : Bound

-- `pgtype.Tstzrange`, inclusive below and exclusive above, with its status.
pub data Tstzrange : Type 0 where
  null : Tstzrange
  range : Bound → Bound → Tstzrange

unfoldable pub to_pg_range : Period → Tstzrange
to_pg_range p = elim p.end [
  | none ↦ range (at p.start) unbounded
  | some end ↦ range (at p.start) (at end)
]

abbrev lower_start : Bound → ℕ
lower_start (at t) = t
lower_start unbounded = 0

abbrev upper_end : Bound → Option ℕ
upper_end (at t) = some t
upper_end unbounded = none

unfoldable pub from_pg_range : Tstzrange → Period
from_pg_range null = record { start = 0; end = none }
from_pg_range (range lower upper) = record { start = lower_start lower; end = upper_end upper }
