-- ===== src/Lifecycle/Follows.antt =====
-- The operations that change the status move each maintenance along the table of transitions.
use maintmode.Base.{ℕ, ◌≡◌, refl, inl, inr, List, [], ◌∷◌, ◌++◌, Bool-cases}
use maintmode.World.Errors.{Error, Result, ok, err, is_skip_update}
use maintmode.World.Tables.{Db, World, Action}
use maintmode.World.Effect.{M, ◌>>=◌, publish_audit}
use maintmode.Entity.Maint.{Maintenance}
use maintmode.Store.Maintenances.{list_overdue_not_started}
use maintmode.World.Tx.{background, Ctx, within_tx}
use maintmode.Lifecycle.Run.{IsTransaction, within_tx-IsTransaction, run_ok, run_err}
use maintmode.Lifecycle.Apply.{Within, run_update_with_apply, update_with_apply}
use maintmode.Entity.Commands.{CancelMaintenanceCmd, CompleteMaintenanceCmd, StartMaintenanceCmd}
use maintmode.World.Respects.{Respects, Respects-publish_audit, Respects-bind}
use maintmode.Lifecycle.Transitions.{
  IsLifecycle, SameRows, Follows, stays, StatusPath-trans, SameRows-Follows, Applied-Follows,
}
use maintmode.Lifecycle.Cancel.{
  cancel_maint, cancel_maint_with, cancel_apply, after_cancel, sweep, sweep_one, joined,
  still_not_started, can_cancel, sweep_cmd, cancel_unstarted, swept,
}
use maintmode.Lifecycle.Complete.{complete_maint, complete_apply, after_complete}
use maintmode.Lifecycle.Moves.{
  start-IsLifecycle, cancel_maint-IsLifecycle, sweep-IsLifecycle, complete-IsLifecycle,
}
use maintmode.Lifecycle.Start.{start_maint, start_apply}
use maintmode.Lifecycle.Services.{keep_dispatch, keep_overdue}

module _ (id : ℕ) where
  pub Follows-refl : (d : Db) → Follows id d d
  Follows-refl d = stays

  pub Follows-trans : (a b c : Db) → Follows id a b → Follows id b c → Follows id a c
  Follows-trans a b c p q = StatusPath-trans p q

  pub from_rows {ℓ} : {A : Type ℓ} (m : M A) → Respects SameRows m → Respects (Follows id) m
  from_rows m k w = SameRows-Follows id w.db (m w).1.db (k w)

  pub follow_audit : (action : Action) → Respects (Follows id) (publish_audit action)
  follow_audit action = Respects-publish_audit (Follows id) Follows-refl Follows-trans action

  pub follow_bind {ℓ κ} :
      {A : Type ℓ} {B : Type κ} (m : M A) (f : A → M B)
      → Respects (Follows id) m
      → ((a : A) → Respects (Follows id) (f a))
      → Respects (Follows id) (m >>= f)
  follow_bind = Respects-bind (Follows id) Follows-refl Follows-trans

  pub run-Follows :
      (within : Within) (maint_id : ℕ) (apply : Ctx → Maintenance → M Maintenance)
      → IsTransaction within
      → IsLifecycle apply
      → Respects (Follows id) (run_update_with_apply within maint_id apply)
  run-Follows within maint_id apply laws moves w =
      go (run_update_with_apply within maint_id apply w) refl
    where
      go :
          (r : Result (Maintenance × Maintenance) × World)
          → run_update_with_apply within maint_id apply w ≡ r
          → Follows id w.db r.1.db
      go (err e, v) h = rw (run_err within laws maint_id apply w h) stays
      go (ok (prev, current), v) h =
          let (u, done, sent) = run_ok within laws maint_id apply w h in
          let stored = Applied-Follows id maint_id apply w.db u.db prev current moves done in
          let after : SameRows u.db v.db = rw sent at (keep_dispatch prev current u) in
          StatusPath-trans stored (SameRows-Follows id u.db v.db after)

  pub update-Follows :
      (maint_id : ℕ) (apply : Ctx → Maintenance → M Maintenance)
      → IsLifecycle apply
      → Respects (Follows id) (update_with_apply maint_id apply)
  unfolding update_with_apply
  update-Follows maint_id apply moves =
      run-Follows (within_tx background) maint_id apply within_tx-IsTransaction moves

  pub start-Follows : (cmd : StartMaintenanceCmd) → Respects (Follows id) (start_maint cmd)
  unfolding start_maint
  start-Follows cmd =
      follow_bind (update_with_apply cmd.maint_id start_apply) _
        (update-Follows cmd.maint_id start_apply start-IsLifecycle) (λ both. follow_audit _)

  follow_cancel :
      (cmd : CancelMaintenanceCmd) (can : Maintenance → M (Unit {0}))
      → IsLifecycle (cancel_apply cmd can)
      → Respects (Follows id) (cancel_maint_with cmd can)
  unfolding cancel_maint_with after_cancel
  follow_cancel cmd can moves w =
      go (update_with_apply cmd.maint_id (cancel_apply cmd can) w)
        (update-Follows cmd.maint_id (cancel_apply cmd can) moves w)
    where
      go :
          (r : Result (Maintenance × Maintenance) × World)
          → Follows id w.db r.1.db
          → Follows id w.db (after_cancel cmd r).1.db
      go (ok (prev, current), v) k = StatusPath-trans k (follow_audit _ v)
      go (err e, v) k = elim (Bool-cases (is_skip_update e)) [
        | inl skip ↦ rw skip k
        | inr other ↦ rw other k
      ]

  pub cancel-Follows : (cmd : CancelMaintenanceCmd) → Respects (Follows id) (cancel_maint cmd)
  unfolding cancel_maint
  cancel-Follows cmd = follow_cancel cmd can_cancel (cancel_maint-IsLifecycle cmd)

  pub complete-Follows : (cmd : CompleteMaintenanceCmd) → Respects (Follows id) (complete_maint cmd)
  unfolding complete_maint after_complete
  complete-Follows cmd w =
      go (update_with_apply cmd.maint_id complete_apply w)
        (update-Follows cmd.maint_id complete_apply complete-IsLifecycle w)
    where
      go :
          (r : Result (Maintenance × Maintenance) × World)
          → Follows id w.db r.1.db
          → Follows id w.db (after_complete cmd r).1.db
      go (ok (prev, current), v) k = StatusPath-trans k (follow_audit _ v)
      go (err e, v) k = elim (Bool-cases (is_skip_update e)) [
        | inl skip ↦ rw skip k
        | inr other ↦ rw other k
      ]

  joined-Follows :
      (rest : List Maintenance)
      → ((errs : List Error) (v : World) → Follows id v.db (sweep rest errs v).1.db)
      → (errs : List Error) (w : World) (r : Result (Unit {0}) × World) → Follows id w.db r.1.db
      → Follows id w.db (sweep rest (joined errs r).0 (joined errs r).1).1.db
  unfolding joined
  joined-Follows rest more errs w (ok _, v) k = StatusPath-trans k (more errs v)
  joined-Follows rest more errs w (err e, v) k = StatusPath-trans k (more (errs ++ e ∷ []) v)

  sweep_list-Follows :
      (overdue : List Maintenance) (errs : List Error) (w : World)
      → Follows id w.db (sweep overdue errs w).1.db
  unfolding sweep sweep_one
  sweep_list-Follows [] errs w = stays
  sweep_list-Follows (m ∷ rest) errs w =
      joined-Follows rest (λ errs' v. sweep_list-Follows rest errs' v) errs w (sweep_one m w)
        (follow_cancel (sweep_cmd m) still_not_started (sweep-IsLifecycle (sweep_cmd m)) w)

  pub sweep-Follows : (cutoff limit : ℕ) → Respects (Follows id) (cancel_unstarted cutoff limit)
  unfolding cancel_unstarted list_overdue_not_started swept
  sweep-Follows cutoff limit =
      follow_bind (list_overdue_not_started cutoff limit) (λ overdue w. swept (sweep overdue [] w))
        (from_rows (list_overdue_not_started cutoff limit) (keep_overdue cutoff limit))
        (λ overdue w. sweep_list-Follows overdue [] w)
