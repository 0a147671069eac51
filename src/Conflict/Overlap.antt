-- ===== src/Conflict/Overlap.antt =====
-- The times at which two maintenances collide, as the conflict queries find and report them
-- (internal/storages/conflicts).
use maintmode.Base.{ℕ, ◌≤◌, ◌<◌, ◌≡◌, true, arith, ltb, if◌then◌else◌}
use mathlib.Core.Logic.{◌↔◌}
use maintmode.Store.Conflicts.{overlap_period, greatest, least, overlaps, from_db_conflict}
use maintmode.Entity.Period.{Tstzrange, null, range, Bound, at, unbounded, from_pg_range}
use maintmode.Entity.Conflict.{Conflict}
use maintmode.World.Tables.{MaintenanceRow}

abbrev From : Bound → ℕ → Type 0
From (at l) t = l ≤ t
From unbounded t = Unit

abbrev Until : Bound → ℕ → Type 0
Until (at u) t = t < u
Until unbounded t = Unit

-- The instant lies in the range.
abbrev pub InRange : Tstzrange → ℕ → Type 0
InRange null t = ⊥
InRange (range l u) t = From l t × Until u t

-- The instant lies between the two times that a conflict reports.
abbrev pub Reported : Conflict → ℕ → Type 0
Reported c t = (c.overlap_start ≤ t) × (t < c.overlap_end)

later : ℕ → ℕ → ℕ
later s t = if ltb s t then t else s

module _ (s e : ℕ) where
  abbrev asked : Tstzrange
  asked = range (at s) (at e)

  first_shared : (l u : Bound) → overlaps (range l u) asked ≡ true → ℕ
  first_shared (at l) u h = later l s
  first_shared unbounded u h = s

  bounds_shared :
      (l u : Bound) (h : overlaps (range l u) asked ≡ true)
      → InRange (range l u) (first_shared l u h) × InRange asked (first_shared l u h)
  unfolding overlaps later first_shared
  bounds_shared (at l) (at u) h = ground arith
  bounds_shared (at l) unbounded h = ground arith
  bounds_shared unbounded (at u) h = ground arith
  bounds_shared unbounded unbounded h = ground arith

  pub overlaps-shared :
      (r : Tstzrange) → overlaps r asked ≡ true → (t : ℕ) × (InRange r t × InRange asked t)
  unfolding overlaps
  overlaps-shared null h = absurd (cc h)
  overlaps-shared (range l u) h = (first_shared l u h, bounds_shared l u h)

  pub shared-overlaps :
      (r : Tstzrange) (t : ℕ) → InRange r t → InRange asked t → overlaps r asked ≡ true
  unfolding overlaps
  shared-overlaps null t h k = absurd h
  shared-overlaps (range (at l) (at u)) t h k = ground arith
  shared-overlaps (range (at l) unbounded) t h k = ground arith
  shared-overlaps (range unbounded (at u)) t h k = ground arith
  shared-overlaps (range unbounded unbounded) t h k = ground arith

  module _ (m : MaintenanceRow) where
    abbrev reported : Tstzrange → Conflict
    reported r = from_db_conflict m (overlap_period r asked)

    reported_in :
        (r : Tstzrange) (t : ℕ)
        → overlaps r asked ≡ true
        → Reported (reported r) t
        → InRange r t × InRange asked t
    unfolding overlaps overlap_period greatest least from_pg_range from_db_conflict
    reported_in null t h k = absurd (cc h)
    reported_in (range (at l) (at u)) t h k = ground arith
    reported_in (range (at l) unbounded) t h k = ground arith
    reported_in (range unbounded (at u)) t h k = ground arith
    reported_in (range unbounded unbounded) t h k = ground arith

    reported_out : (r : Tstzrange) (t : ℕ) → InRange r t → InRange asked t → Reported (reported r) t
    unfolding overlap_period greatest least from_pg_range from_db_conflict
    reported_out null t h k = absurd h
    reported_out (range (at l) (at u)) t h k = ground arith
    reported_out (range (at l) unbounded) t h k = ground arith
    reported_out (range unbounded (at u)) t h k = ground arith
    reported_out (range unbounded unbounded) t h k = ground arith

    -- What is reported is the time that the two have in common.
    pub reported-shared :
        (r : Tstzrange) (t : ℕ)
        → overlaps r asked ≡ true
        → Reported (reported r) t ↔ (InRange r t × InRange asked t)
    reported-shared r t h = (reported_in r t h, λ both. reported_out r t both.0 both.1)
