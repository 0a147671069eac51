-- ===== src/Lifecycle/Creation.antt =====
-- A creation adds one draft, and touches no other maintenance (services/maint/create_draft.go).
use maintmode.World.Effect.{publish_audit, M, ◌>>=◌, ◌>>◌, call, pure, throw_if, modify}
use maintmode.Entity.Commands.{NotifyTargetInput, CreateMaintenanceCmd}
use maintmode.Base.{
  ℕ, suc, ◌≡◌, refl, inl, inr, not, none, some, List, [], ◌∷◌, ◌++◌, arith, ◌==◌, if◌then◌else◌,
  Bool-cases, Option-cases,
}
use maintmode.World.Tables.{MaintenanceRow, maint_created}
use maintmode.World.Tx.{tx, background, within_tx}
use maintmode.World.Errors.{validation, check_violation}
use maintmode.World.Respects.{Respects, Respects-within_tx}
use maintmode.Entity.Maint.{Maintenance, draft, normalize}
use maintmode.Store.Maintenances.{
  find_row, create_maint, row_check, to_db_maintenance, from_db_maintenance, with_maintenances,
}
use maintmode.Store.Children.{add_resources, add_mentions, create_many_targets}
use maintmode.Store.Steps.{add_steps}
use maintmode.Store.Deferred.{create_many_reminders}
use maintmode.Targets.{create_targets, resolve_notify_target}
use maintmode.Lifecycle.Create.{
  Rules, create_draft, create_body, create_children, validate_create, validate_approver, draft_of,
  steps_from_cmd, deferred_notifications_from_cmd, mentioned,
}
use maintmode.Lifecycle.Transitions.{StatusPath, stays, created, status_of, Follows, SameRows}
use maintmode.Lifecycle.Rows.{
  keep_bind, keep_call, keep_guard, keep_add_resources, keep_add_steps, keep_add_mentions,
  keep_create_many_targets, keep_create_many_reminders,
}
use maintmode.Lifecycle.Follows.{Follows-refl, Follows-trans, from_rows, follow_bind, follow_audit}
use maintmode.Lifecycle.Services.{keep_approver, keep_resolve}

find_row-append :
    (id : ℕ) (rows : List MaintenanceRow) (r s : MaintenanceRow)
    → find_row id rows ≡ some s
    → find_row id (rows ++ r ∷ []) ≡ some s
unfolding find_row
find_row-append id [] r s h = absurd (cc h)
find_row-append id (x ∷ rows) r s h = ground (arith, find_row-append id rows r s)

find_row-append_new :
    (id : ℕ) (rows : List MaintenanceRow) (r : MaintenanceRow)
    → find_row id rows ≡ none
    → find_row id (rows ++ r ∷ []) ≡ (if r.id == id then some r else none)
unfolding find_row
find_row-append_new id [] r h = refl
find_row-append_new id (x ∷ rows) r h = ground (arith, find_row-append_new id rows r)

-- A new row is a draft, and hides no other.
append-status :
    (id : ℕ) (rows : List MaintenanceRow) (r : MaintenanceRow)
    → r.status ≡ draft
    → StatusPath (status_of id rows) (status_of id (rows ++ r ∷ []))
unfolding status_of
append-status id rows r new = elim (Option-cases (find_row id rows)) [
  | inl absent ↦ elim (Bool-cases (r.id == id)) [
    | inl here_it ↦
        rw (status_of, absent, find_row-append_new id rows r absent, here_it, new) (created stays)
    | inr other ↦ rw (status_of, absent, find_row-append_new id rows r absent, other) stays
  ]
  | inr (s, found) ↦ rw (status_of, found, find_row-append id rows r s found) stays
]

module _ (id : ℕ) where
  -- The INSERT of a row that passed the CHECKs.
  insert_row : MaintenanceRow → M Maintenance
  insert_row row =
      call
      >> (throw_if (not (row_check row)) check_violation
          >> (modify (λ w. record w { db = with_maintenances (w.db.maintenances ++ row ∷ []) w.db })
              >> pure (from_db_maintenance row)))

  follow_insert :
      (row : MaintenanceRow) → row.status ≡ draft → Respects (Follows id) (insert_row row)
  unfolding insert_row
  follow_insert row new = follow_bind id call _ (from_rows id call keep_call) λ _.
      follow_bind id (throw_if (not (row_check row)) check_violation) _
        (from_rows id (throw_if (not (row_check row)) check_violation)
          (keep_guard (not (row_check row)) check_violation))
        λ _ w. append-status id w.db.maintenances row new

  follow_create_maint :
      (m : Maintenance) → m.status ≡ draft → Respects (Follows id) (create_maint m)
  unfolding create_maint insert_row to_db_maintenance
  follow_create_maint m new w =
      follow_insert (to_db_maintenance (record m { id = w.next_id; created_at = w.clock })) new
        (record w { next_id = suc w.next_id })

  keep_create_targets :
      (maint_id : ℕ) (inputs : List NotifyTargetInput)
      → Respects SameRows (create_targets maint_id inputs)
  unfolding create_targets
  keep_create_targets maint_id inputs =
      keep_bind (resolve_notify_target maint_id inputs) (create_many_targets maint_id)
        (keep_resolve maint_id inputs) (keep_create_many_targets maint_id)

  keep_children :
      (cmd : CreateMaintenanceCmd) (m : Maintenance) → Respects SameRows (create_children cmd m)
  unfolding create_children
  keep_children cmd m =
      keep_bind (add_resources m.id m.resources) _ (keep_add_resources m.id m.resources) λ _.
        keep_bind (add_steps m.id (steps_from_cmd cmd.steps)) _
          (keep_add_steps m.id (steps_from_cmd cmd.steps))
          λ steps.
            keep_bind (create_targets m.id cmd.notify_targets) _
              (keep_create_targets m.id cmd.notify_targets)
              λ targets.
                keep_bind
                  (create_many_reminders m.id
                    (deferred_notifications_from_cmd m.id cmd.deferred_notifications))
                  _
                  (keep_create_many_reminders m.id
                    (deferred_notifications_from_cmd m.id cmd.deferred_notifications))
                  λ deferred.
                    keep_bind (add_mentions m.id (mentioned cmd.mentions)) _
                      (keep_add_mentions m.id (mentioned cmd.mentions)) λ _ w. refl

  follow_body : (cmd : CreateMaintenanceCmd) → Respects (Follows id) (create_body cmd tx)
  unfolding create_body
  follow_body cmd =
      follow_bind id (create_maint (draft_of cmd))
        (λ (m : Maintenance).
          create_children cmd (normalize (record m { resources = cmd.resources })))
        (follow_create_maint (draft_of cmd) refl)
        (λ m.
          from_rows id (create_children cmd (normalize (record m { resources = cmd.resources })))
            (keep_children cmd (normalize (record m { resources = cmd.resources }))))

  after_checks : Rules → CreateMaintenanceCmd → ℕ → M Maintenance
  after_checks r cmd now =
      throw_if (not (validate_create r now cmd)) validation
      >> (validate_approver cmd.approver_user_id
          >> (within_tx background (create_body cmd) >>= λ maint.
              publish_audit (maint_created cmd.actor maint) >> pure maint))

  follow_checks :
      (r : Rules) (cmd : CreateMaintenanceCmd) (now : ℕ)
      → Respects (Follows id) (after_checks r cmd now)
  unfolding after_checks
  follow_checks r cmd now =
      follow_bind id (throw_if (not (validate_create r now cmd)) validation) _
        (from_rows id (throw_if (not (validate_create r now cmd)) validation)
          (keep_guard (not (validate_create r now cmd)) validation))
        λ _.
          follow_bind id (validate_approver cmd.approver_user_id) _
            (from_rows id (validate_approver cmd.approver_user_id)
              (keep_approver cmd.approver_user_id))
            λ _.
              follow_bind id (within_tx background (create_body cmd))
                (λ maint. publish_audit (maint_created cmd.actor maint) >> pure maint)
                (Respects-within_tx (Follows id) (Follows-refl id) (Follows-trans id)
                  (create_body cmd) (follow_body cmd))
                λ maint.
                  follow_bind id (publish_audit (maint_created cmd.actor maint)) _
                    (follow_audit id (maint_created cmd.actor maint)) λ _ w. stays

  pub create-Follows :
      (r : Rules) (cmd : CreateMaintenanceCmd) → Respects (Follows id) (create_draft r cmd)
  unfolding create_draft after_checks
  create-Follows r cmd w = follow_checks r cmd w.clock w
