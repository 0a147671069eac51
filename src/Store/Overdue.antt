-- ===== src/Store/Overdue.antt =====
-- What the sweep is given (internal/storages/maintenances/list_overdue_not_started.go).
use maintmode.Base.{
  ℕ, ◌≤◌, ◌<◌, ◌≡◌, refl, ◌⊎◌, inl, inr, true, ◌||◌, List, from_ptr, both_true, ltb→lt, arith, ltb,
  length, filter, All, Member,
}
use maintmode.Base.Sorting.{sort_func}
use maintmode.Base.Sorted.{
  Member-take, Member-sort_func, sort_func-Member, sort_func-Ascending, taken,
}
use maintmode.Base.Members.{Member-filter, filter-Member}
use maintmode.Entity.Maint.{MaintenanceStatus, draft, planned, status_eq}
use maintmode.Entity.Period.{Tstzrange, null, range, Bound, at, unbounded}
use maintmode.Store.Maintenances.{is_overdue, overdue_rows, compare_lower, planned_lower, before}
use maintmode.World.Tables.{MaintenanceRow}

-- The row has not been started, and its planned period begins before the cutoff.
pub record Overdue (cutoff : ℕ) (r : MaintenanceRow) : Type 0 where
  pub unstarted : (r.status ≡ draft) ⊎ (r.status ≡ planned)
  pub start : ℕ
  pub upper : Bound
  pub period : r.planned_period ≡ range (at start) upper
  pub late : start < cutoff

-- Where the planned period begins, or 0 where it has no beginning.
abbrev pub start_of : MaintenanceRow → ℕ
start_of r = from_ptr 0 (planned_lower r)

unstarted_status :
    (s : MaintenanceStatus)
    → (status_eq s draft || status_eq s planned) ≡ true
    → (s ≡ draft) ⊎ (s ≡ planned)
unstarted_status draft h = inl refl
unstarted_status planned h = inr refl
unstarted_status _ h = absurd (cc h)

unstarted_true :
    (s : MaintenanceStatus)
    → (s ≡ draft) ⊎ (s ≡ planned)
    → (status_eq s draft || status_eq s planned) ≡ true
unstarted_true s (inl e) = rw e refl
unstarted_true s (inr e) = rw e refl

is_overdue-Overdue :
    (cutoff : ℕ) (r : MaintenanceRow) → is_overdue cutoff r ≡ true → Overdue cutoff r
unfolding is_overdue
is_overdue-Overdue cutoff r h =
    let (open_status, late) =
      both_true (status_eq r.status draft || status_eq r.status planned) _ h in
    go (unstarted_status r.status open_status) r.planned_period refl late
  where
    go :
        (r.status ≡ draft) ⊎ (r.status ≡ planned)
        → (p : Tstzrange) → r.planned_period ≡ p
        → before cutoff (planned_lower r) ≡ true
        → Overdue cutoff r
    go s null e k = absurd (cc (rw e at k))
    go s (range unbounded u) e k = absurd (cc (rw e at k))
    go s (range (at t) u) e k = record {
      unstarted = s;
      start = t;
      upper = u;
      period = e;
      late = ltb→lt t cutoff (rw e at k);
    }

Overdue-is_overdue :
    (cutoff : ℕ) (r : MaintenanceRow) → Overdue cutoff r → is_overdue cutoff r ≡ true
unfolding is_overdue
Overdue-is_overdue cutoff r h =
    let early : ltb h.start cutoff ≡ true = let late = h.late in ground arith in
    rw (unstarted_true r.status h.unstarted, h.period, early) refl

-- Each row that the sweep is given is stored, not started, and was to start before the cutoff.
pub overdue_rows-Overdue :
    (cutoff limit : ℕ) (rows : List MaintenanceRow) (r : MaintenanceRow)
    → Member r (overdue_rows cutoff limit rows)
    → Member r rows × Overdue cutoff r
unfolding overdue_rows
overdue_rows-Overdue cutoff limit rows r m =
    let late = filter (is_overdue cutoff) rows in
    let kept =
      Member-sort_func compare_lower r late
        (Member-take limit r (sort_func compare_lower late) m) in
    let (stored, hit) = Member-filter (is_overdue cutoff) r rows kept in
    (stored, is_overdue-Overdue cutoff r hit)

-- A stored row that is not started and was to start before the cutoff is given to the sweep, or the
-- sweep is given as many rows as it may be, none of which was to start after this one.
pub overdue_rows-full :
    (cutoff limit : ℕ) (rows : List MaintenanceRow) (r : MaintenanceRow)
    → Member r rows
    → Overdue cutoff r
    → Member r (overdue_rows cutoff limit rows)
      ⊎ ((length (overdue_rows cutoff limit rows) ≡ limit)
          × All (λ g. start_of g ≤ start_of r) (overdue_rows cutoff limit rows))
unfolding overdue_rows
overdue_rows-full cutoff limit rows r stored overdue =
    let late = filter (is_overdue cutoff) rows in
    let kept =
      filter-Member (is_overdue cutoff) r rows stored (Overdue-is_overdue cutoff r overdue) in
    taken start_of limit r (sort_func compare_lower late) (sort_func-Ascending start_of late)
      (sort_func-Member compare_lower r late kept)
