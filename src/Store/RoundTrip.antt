-- ===== src/Store/RoundTrip.antt =====
-- Writing a value and reading it back: ranges (internal/utils/xtime/pg_range.go) and rows
-- (internal/storages/maintenances/mapper.go).
use maintmode.Base.{ℕ, ◌≡◌, refl, ap, inl, inr, true, Option, none, some, [], ltb, Bool-cases}
use maintmode.Entity.Period.{Period, Tstzrange, to_pg_range, from_pg_range}
use maintmode.Entity.Maint.{Maintenance, close_actual_period, close_period}
use maintmode.Store.Maintenances.{to_db_maintenance, from_db_maintenance, actual_check}

range_trip :
    (s : ℕ) (e : Option ℕ)
    → from_pg_range (to_pg_range (record { start = s; end = e })) ≡ record { start = s; end = e }
unfolding from_pg_range to_pg_range
range_trip s none = refl
range_trip s (some t) = refl

abbrev stored : Option Period → Option Tstzrange
stored o = elim o [ none ↦ none | some p ↦ some (to_pg_range p) ]

abbrev loaded : Option Tstzrange → Option Period
loaded o = elim o [ none ↦ none | some r ↦ some (from_pg_range r) ]

actual_trip : (o : Option Period) → loaded (stored o) ≡ o
actual_trip none = refl
actual_trip (some p) = ap some (range_trip p.start p.end)

-- The collections of a maintenance live in tables of their own.
abbrev pub without_collections : Maintenance → Maintenance
without_collections m = record m {
  resources = [];
  steps = [];
  notify_targets = [];
  deferred_notifications = [];
  mentions = [];
}

-- A maintenance that is stored and read again is the same, but for the collections that other
-- tables hold.
pub from_db-to_db :
    (m : Maintenance) → from_db_maintenance (to_db_maintenance m) ≡ without_collections m
unfolding from_db_maintenance to_db_maintenance
from_db-to_db m =
    rw (range_trip m.planned_period.start m.planned_period.end, actual_trip m.actual_period) refl

closed_check : (now : ℕ) (o : Option Period) → actual_check (stored (close_period now o)) ≡ true
unfolding close_period actual_check to_pg_range
closed_check now none = refl
closed_check now (some p) = elim (Bool-cases (ltb p.start now)) [
  | inl yes_it ↦ rw (close_period, yes_it) yes_it
  | inr other ↦ rw (close_period, other) refl
]

-- A period that is closed never breaks the CHECK of the column actual_period, whatever the clock
-- says.
pub close_actual_period-check :
    (now : ℕ) (m : Maintenance)
    → actual_check ((to_db_maintenance (close_actual_period now m)).actual_period) ≡ true
unfolding close_actual_period to_db_maintenance
close_actual_period-check now m = closed_check now m.actual_period
