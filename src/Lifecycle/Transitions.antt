-- ===== src/Lifecycle/Transitions.antt =====
-- The life of one maintenance: which statuses its row takes, and that a stored update moves it
-- along the table of entity/maint.go.
use maintmode.Entity.Maint.{draft, Maintenance, MaintenanceStatus, can_maint_transition}
use maintmode.Base.{
  ℕ, ◌≡◌, refl, ap, ◌∙◌, ◌≢◌, ◌⊎◌, inl, inr, true, false, Option, none, some, List, [], ◌∷◌, arith,
  ◌==◌, ==→≡, Bool-cases,
}
use maintmode.World.Errors.{ok}
use maintmode.World.Tables.{Db, World, MaintenanceRow}
use maintmode.World.Effect.{M}
use maintmode.World.Tx.{Ctx, tx}
use maintmode.World.Respects.{Respects}
use maintmode.Store.Maintenances.{find_row, set_row, from_db_maintenance, to_db_maintenance}
use maintmode.Lifecycle.Applied.{Applied}

-- The status of a maintenance; `none` where there is no row.
unfoldable pub status_of : ℕ → List MaintenanceRow → Option MaintenanceStatus
unfolding find_row
status_of id rows = elim (find_row id rows) [ none ↦ none | some r ↦ some r.status ]

-- What may become of the status: a row appears as a draft, and moves along the table.
pub data StatusPath : Option MaintenanceStatus → Option MaintenanceStatus → Type 0 where
  stays : {s : Option MaintenanceStatus} → StatusPath s s
  created : {t : Option MaintenanceStatus} → StatusPath (some draft) t → StatusPath none t
  moves :
      {s u : MaintenanceStatus} {t : Option MaintenanceStatus}
      → can_maint_transition s u ≡ true
      → StatusPath (some u) t
      → StatusPath (some s) t

pub StatusPath-trans :
    {s t u : Option MaintenanceStatus} → StatusPath s t → StatusPath t u → StatusPath s u
StatusPath-trans stays q = q
StatusPath-trans (created p) q = created (StatusPath-trans p q)
StatusPath-trans (moves h p) q = moves h (StatusPath-trans p q)

-- The maintenance `id` only moves along the table.
abbrev pub Follows : ℕ → Db → Db → Type 0
Follows id d d' = StatusPath (status_of id d.maintenances) (status_of id d'.maintenances)

abbrev pub SameRows : Db → Db → Type 0
SameRows d d' = d'.maintenances ≡ d.maintenances

pub SameRows-Follows : (id : ℕ) (d d' : Db) → SameRows d d' → Follows id d d'
SameRows-Follows id d d' same = rw same stays

-- An allowed step, or none.
abbrev pub Step : MaintenanceStatus → MaintenanceStatus → Type 0
Step s t = (s ≡ t) ⊎ (can_maint_transition s t ≡ true)

Step-path : (s t : MaintenanceStatus) → Step s t → StatusPath (some s) (some t)
Step-path s t (inl same) = rw same stays
Step-path s t (inr allowed) = moves allowed stays

find_row-id :
    (id : ℕ) (rows : List MaintenanceRow) {r : MaintenanceRow}
    → find_row id rows ≡ some r
    → r.id ≡ id
unfolding find_row
find_row-id id [] h = absurd (cc h)
find_row-id id (s ∷ rows) {r} h = ground (arith, find_row-id id rows {r = r})

find_row-set_row :
    (id : ℕ) (r : MaintenanceRow) (rows : List MaintenanceRow)
    → r.id ≢ id
    → find_row id (set_row r rows) ≡ find_row id rows
unfolding find_row set_row
find_row-set_row id r [] other = refl
find_row-set_row id r (s ∷ rows) other = ground (arith, find_row-set_row id r rows other)

find_row-set_row_self :
    (r : MaintenanceRow) (rows : List MaintenanceRow) {old : MaintenanceRow}
    → find_row r.id rows ≡ some old
    → find_row r.id (set_row r rows) ≡ some r
unfolding find_row set_row
find_row-set_row_self r [] h = absurd (cc h)
find_row-set_row_self r (s ∷ rows) {old} h =
    ground (arith, find_row-set_row_self r rows {old = old})

status-set_row :
    (id : ℕ) (r : MaintenanceRow) (rows : List MaintenanceRow)
    → r.id ≢ id
    → status_of id (set_row r rows) ≡ status_of id rows
unfolding status_of
status-set_row id r rows other = rw (status_of, find_row-set_row id r rows other) refl

status-found :
    (id : ℕ) (rows : List MaintenanceRow) {r : MaintenanceRow}
    → find_row id rows ≡ some r
    → status_of id rows ≡ some r.status
unfolding status_of
status-found id rows h = rw (status_of, h) refl

==-false→≢ : (a b : ℕ) → (a == b) ≡ false → a ≢ b
==-false→≢ a b h e = absurd (ground arith)

-- Storing a row over the one that was read moves that maintenance from the old status to the new.
set_row-Follows :
    (id : ℕ) (rows : List MaintenanceRow) (r old : MaintenanceRow)
    → find_row r.id rows ≡ some old
    → Step old.status r.status
    → StatusPath (status_of id rows) (status_of id (set_row r rows))
set_row-Follows id rows r old found step = elim (Bool-cases (r.id == id)) [
  | inl same ↦
      rw
        (
          ← ==→≡ r.id id same,
          status-found r.id rows found,
          status-found r.id (set_row r rows) (find_row-set_row_self r rows found),
        )
        (Step-path old.status r.status step)
  | inr other ↦ rw (status-set_row id r rows (==-false→≢ r.id id other)) stays
]

from_db-id :
    (row : MaintenanceRow)
    → ((from_db_maintenance row).id ≡ row.id) × ((from_db_maintenance row).status ≡ row.status)
unfolding from_db_maintenance
from_db-id row = (refl, refl)

to_db-id :
    (m : Maintenance)
    → ((to_db_maintenance m).id ≡ m.id) × ((to_db_maintenance m).status ≡ m.status)
unfolding to_db_maintenance
to_db-id m = (refl, refl)

-- What an `apply` must do for that: leave the rows alone, and keep the id.
pub record IsLifecycle (apply : Ctx → Maintenance → M Maintenance) : Type 0 where
  pub keeps_rows : (m : Maintenance) → Respects SameRows (apply tx m)
  pub steps :
      (m : Maintenance) (w : World) {m' : Maintenance} {v : World}
      → apply tx m w ≡ (ok m', v)
      → (m'.id ≡ m.id) × Step m.status m'.status

module _ (id : ℕ) (maint_id : ℕ) (apply : Ctx → Maintenance → M Maintenance) (start db : Db)
    (prev current : Maintenance) (laws : IsLifecycle apply)
    (done : Applied maint_id apply start prev current db) where
  pub Applied-rows : done.after.db.maintenances ≡ start.maintenances
  Applied-rows =
      (rw done.applied at (laws.keeps_rows prev done.before))
      ∙ ap (λ d. d.maintenances) done.same_db

  pub Applied-Step : (current.id ≡ maint_id) × Step done.row.status current.status
  Applied-Step =
      let (same_id, step) = laws.steps prev done.before done.applied in
      let (read_id, read_status) = from_db-id done.row in
      let found_id = find_row-id maint_id start.maintenances done.found in
      (
        let at_result : current.id ≡ done.result.id = ap (λ m. m.id) done.stamped in
            let at_row : prev.id ≡ done.row.id = ap (λ m. m.id) done.read ∙ read_id in
            at_result ∙ same_id ∙ at_row ∙ found_id,
        (let from_row : prev.status ≡ done.row.status =
              ap (λ m. m.status) done.read ∙ read_status in
            let at_current : current.status ≡ done.result.status =
              ap (λ m. m.status) done.stamped in
            rw (← from_row, at_current) step),
      )

  pub Applied-Follows : Follows id start db
  Applied-Follows =
      let (same_id, step) = Applied-Step in
      let r = to_db_maintenance current in
      let (r_id, r_status) = to_db-id current in
      let found : find_row r.id start.maintenances ≡ some done.row =
        rw (r_id, same_id) done.found in
      let path = set_row-Follows id start.maintenances r done.row found (rw r_status step) in
      rw (ap (λ d. d.maintenances) done.stored, Applied-rows) path

  -- The row that the update leaves has the status of the stored value.
  pub Applied-status : status_of maint_id db.maintenances ≡ some current.status
  Applied-status =
      let (same_id, step) = Applied-Step in
      let r = to_db_maintenance current in
      let (r_id, r_status) = to_db-id current in
      let at = r_id ∙ same_id in
      let found : find_row r.id start.maintenances ≡ some done.row = rw at done.found in
      let set =
        status-found r.id (set_row r start.maintenances)
          (find_row-set_row_self r start.maintenances found) in
      rw (ap (λ d. d.maintenances) done.stored, Applied-rows, ← at) (set ∙ ap some r_status)
