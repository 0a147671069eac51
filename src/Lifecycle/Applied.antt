-- ===== src/Lifecycle/Applied.antt =====
-- What a successful `update_with_apply` or `update_with_apply_serializable` has done.
use maintmode.Base.{ℕ, ◌≡◌, refl, sym, ap, subst, false, not, ◌&&◌, Option, none, some, is_some}
use maintmode.World.Errors.{Result, ok, err}
use maintmode.World.Tables.{Db, World, MaintenanceRow}
use maintmode.World.Effect.{M}
use maintmode.World.Effect.Invert.{read_ok, guard_ok, Answered-db, Answered, bind_ok}
use maintmode.Store.Maintenances.{
  or_not_found, from_db_maintenance, to_db_maintenance, row_check, find_row, set_row,
  with_maintenances, get_maint, update_maint,
}
use maintmode.World.Tx.{Ctx, tx}
use maintmode.Entity.Maint.{Maintenance}
use maintmode.Lifecycle.Apply.{update_body}

-- The row that was read, what `apply` made of it, and what was stored.
pub record Applied (maint_id : ℕ) (apply : Ctx → Maintenance → M Maintenance) (start : Db)
    (prev current : Maintenance) (db : Db) : Type 0 where
  pub row : MaintenanceRow
  pub found : find_row maint_id start.maintenances ≡ some row
  pub read : prev ≡ from_db_maintenance row
  pub before : World
  pub same_db : before.db ≡ start
  pub result : Maintenance
  pub after : World
  pub applied : apply tx prev before ≡ (ok result, after)
  pub stamped : current ≡ record result { updated_at = some after.clock }
  pub checked :
      (is_some (find_row current.id after.db.maintenances)
        && not (row_check (to_db_maintenance current)))
      ≡ false
  pub stored :
      db ≡ with_maintenances (set_row (to_db_maintenance current) after.db.maintenances) after.db

row_ok :
    (o : Option MaintenanceRow) (v : World) {m : Maintenance} {v' : World}
    → or_not_found o v ≡ (ok m, v')
    → (row : MaintenanceRow) × (o ≡ some row) × (m ≡ from_db_maintenance row) × (v' ≡ v)
unfolding or_not_found
row_ok none v h = absurd (cc h)
row_ok (some row) v h = (row, refl, cc h, cc h)

get_maint_ok :
    (id : ℕ) (w : World) {m : Maintenance} {v : World}
    → get_maint id w ≡ (ok m, v)
    → (row : MaintenanceRow) × (find_row id w.db.maintenances ≡ some row)
      × (m ≡ from_db_maintenance row)
      × Answered w v
unfolding get_maint
get_maint_ok id w {m} {v} h =
    let (u, done, rest) = read_ok (λ db. find_row id db.maintenances) w _ h in
    let (row, found, read, same) = row_ok _ u rest in
    (row, found, read, subst (Answered w) (sym same) done)

abbrev Stored : Maintenance → World → Result Maintenance × World → Type 0
Stored m w (err e, v) = Unit
Stored m w (ok s, v) =
    (s ≡ record m { updated_at = some w.clock })
    × ((is_some (find_row s.id w.db.maintenances) && not (row_check (to_db_maintenance s))) ≡ false)
    × (v.db ≡ with_maintenances (set_row (to_db_maintenance s) w.db.maintenances) w.db)

update_maint_ok :
    (m : Maintenance) (w : World) {s : Maintenance} {v : World}
    → update_maint m w ≡ (ok s, v)
    → Stored m w (ok s, v)
unfolding update_maint
update_maint_ok m w h =
    let stamped : Maintenance = record m { updated_at = some w.clock } in
    let (u, done, rest) = read_ok (λ db. find_row m.id db.maintenances) w _ h in
    let (passed, last) =
      guard_ok
        (is_some (find_row m.id w.db.maintenances) && not (row_check (to_db_maintenance stamped))) _
        u _ rest in
    let set : Db → Db =
      λ d. with_maintenances (set_row (to_db_maintenance stamped) d.maintenances) d in
    subst (Stored m w) last (refl, passed, ap set (Answered-db done))

module _ (maint_id : ℕ) (apply : Ctx → Maintenance → M Maintenance) where
  abbrev AppliedOf : World → Result (Maintenance × Maintenance) × World → Type 0
  AppliedOf w (err e, v) = Unit
  AppliedOf w (ok (prev, current), v) = Applied maint_id apply w.db prev current v.db

  pub body_Applied :
      (w : World) {prev current : Maintenance} {v : World}
      → update_body maint_id apply tx w ≡ (ok (prev, current), v)
      → Applied maint_id apply w.db prev current v.db
  unfolding update_body
  body_Applied w h =
      let (prev', w₁, read, more) = bind_ok (get_maint maint_id w) _ h in
      let (row, found, is_row, done) = get_maint_ok maint_id w read in
      let (result, w₂, applied, rest) = bind_ok (apply tx prev' w₁) _ more in
      let (current', w₃, updated, last) = bind_ok (update_maint result w₂) _ rest in
      let (stamped, checked, stored) = update_maint_ok result w₂ updated in
      subst (AppliedOf w) last (record {
        row = row;
        found = found;
        read = is_row;
        before = w₁;
        same_db = Answered-db done;
        result = result;
        after = w₂;
        applied = applied;
        stamped = stamped;
        checked = checked;
        stored = stored;
      })
