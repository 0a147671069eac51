-- ===== src/Lifecycle/Moves.antt =====
-- Each function that an operation hands to `updateWithApply` moves the status along the table, or
-- leaves it.
use maintmode.Base.{
  ℕ, ◌≡◌, refl, subst, inl, inr, Bool, true, false, not, ◌||◌, Option, none, some, ltb, Bool-cases,
}
use maintmode.World.Errors.{
  Result, ok, err, skip_update, maintenance_has_unfinished_steps, forbidden_maint_status_transition,
}
use maintmode.World.Tables.{World}
use maintmode.World.Effect.{M, query, throw_if}
use maintmode.Entity.Period.{Period}
use maintmode.World.Effect.Invert.{throw_if_ok, read_ok, bind_ok, guard_ok}
use maintmode.Lifecycle.Transitions.{SameRows, IsLifecycle, Step}
use maintmode.World.Respects.{Respects}
use maintmode.Entity.Maint.{
  can_maint_transition, status_eq, allowed_maint_status_transitions, close_actual_period, draft,
  planned, cancelled, completed, Maintenance, MaintenanceStatus, in_progress,
}
use maintmode.Store.Steps.{maint_steps, get_maint_steps}
use maintmode.Entity.Commands.{CancelMaintenanceCmd}
use maintmode.Lifecycle.Rows.{keep_query, keep_bind, keep_guard}
use maintmode.Lifecycle.Cancel.{cancel_apply, can_cancel, still_not_started}
use maintmode.Lifecycle.Complete.{complete_apply, complete_period, all_steps_terminal}
use maintmode.World.Tx.{tx}
use maintmode.Lifecycle.Start.{start_apply}

pub not-false : (b : Bool) → not b ≡ false → b ≡ true
not-false true h = refl
not-false false h = absurd (cc h)

-- `Moved s m` at a result: the id is kept, and the new status is `s`.
abbrev pub Moved : MaintenanceStatus → Maintenance → Result Maintenance × World → Type 0
Moved s m (err e, v) = Unit
Moved s m (ok m', v) = (m'.id ≡ m.id) × (m'.status ≡ s)

pub moved-Step :
    (s : MaintenanceStatus) (m m' : Maintenance)
    → can_maint_transition m.status s ≡ true
    → (m'.id ≡ m.id) × (m'.status ≡ s)
    → (m'.id ≡ m.id) × Step m.status m'.status
moved-Step s m m' allowed (same, at) = (same, inr (rw at allowed))

start_Moved :
    (m : Maintenance) (w : World) {m' : Maintenance} {v : World}
    → start_apply tx m w ≡ (ok m', v)
    → (can_maint_transition m.status in_progress ≡ true) × Moved in_progress m (ok m', v)
unfolding start_apply
start_Moved m w h =
    let (passed, last) =
      guard_ok (not (can_maint_transition m.status in_progress))
        (forbidden_maint_status_transition m.status in_progress) w _ h in
    (not-false _ passed, subst (Moved in_progress m) last (refl, refl))

pub start-IsLifecycle : IsLifecycle start_apply
unfolding start_apply
start-IsLifecycle = record {
  keeps_rows = λ m.
      keep_bind
        (throw_if (not (can_maint_transition m.status in_progress))
          (forbidden_maint_status_transition m.status in_progress))
        _
        (keep_guard (not (can_maint_transition m.status in_progress))
          (forbidden_maint_status_transition m.status in_progress))
        (λ _ w. refl);
  steps = λ m w {m'} h.
      (let (allowed, moved) = start_Moved m w h in moved-Step in_progress m m' allowed moved);
}

module _ (cmd : CancelMaintenanceCmd) (can : Maintenance → M (Unit {0}))
    (keeps : (m : Maintenance) → Respects SameRows (can m))
    (allows : (m : Maintenance) (w v : World)
      → can m w ≡ (ok tt, v)
      → can_maint_transition m.status cancelled ≡ true) where
  cancel_Moved :
      (m : Maintenance) (w : World) {m' : Maintenance} {v : World}
      → cancel_apply cmd can tx m w ≡ (ok m', v)
      → (can_maint_transition m.status cancelled ≡ true) × Moved cancelled m (ok m', v)
  unfolding cancel_apply close_actual_period
  cancel_Moved m w h =
      let (_, rest) = guard_ok (status_eq m.status cancelled) skip_update w _ h in
      let (_, v, asked, last) = bind_ok (can m w) _ rest in
      (allows m w v asked, subst (Moved cancelled m) last (refl, refl))

  pub cancel-IsLifecycle : IsLifecycle (cancel_apply cmd can)
  unfolding cancel_apply
  cancel-IsLifecycle = record {
    keeps_rows = λ m.
        keep_bind (throw_if (status_eq m.status cancelled) skip_update) _
          (keep_guard (status_eq m.status cancelled) skip_update)
          (λ _. keep_bind (can m) _ (keeps m) (λ _ w. refl));
    steps = λ m w {m'} h.
        (let (allowed, moved) = cancel_Moved m w h in moved-Step cancelled m m' allowed moved);
  }

keep_can_cancel : (m : Maintenance) → Respects SameRows (can_cancel m)
unfolding can_cancel
keep_can_cancel m = keep_guard _ _

can_cancel_allows :
    (m : Maintenance) (w v : World)
    → can_cancel m w ≡ (ok tt, v)
    → can_maint_transition m.status cancelled ≡ true
unfolding can_cancel
can_cancel_allows m w v h = not-false _ (
    (throw_if_ok (not (can_maint_transition m.status cancelled))
      (forbidden_maint_status_transition m.status cancelled) h).0)

keep_still_not_started : (m : Maintenance) → Respects SameRows (still_not_started m)
unfolding still_not_started
keep_still_not_started m = keep_guard _ _

not_started_allowed :
    (s : MaintenanceStatus)
    → (status_eq s draft || status_eq s planned) ≡ true
    → can_maint_transition s cancelled ≡ true
unfolding can_maint_transition allowed_maint_status_transitions
not_started_allowed draft h = refl
not_started_allowed planned h = refl
not_started_allowed _ h = absurd (cc h)

still_not_started_allows :
    (m : Maintenance) (w v : World)
    → still_not_started m w ≡ (ok tt, v)
    → can_maint_transition m.status cancelled ≡ true
unfolding still_not_started
still_not_started_allows m w v h = not_started_allowed m.status (
    not-false _ (
      (throw_if_ok (not (status_eq m.status draft || status_eq m.status planned)) skip_update h).0))

pub cancel_maint-IsLifecycle :
    (cmd : CancelMaintenanceCmd) → IsLifecycle (cancel_apply cmd can_cancel)
cancel_maint-IsLifecycle cmd = cancel-IsLifecycle cmd can_cancel keep_can_cancel can_cancel_allows

pub sweep-IsLifecycle :
    (cmd : CancelMaintenanceCmd) → IsLifecycle (cancel_apply cmd still_not_started)
sweep-IsLifecycle cmd =
    cancel-IsLifecycle cmd still_not_started keep_still_not_started still_not_started_allows

complete_period-keeps :
    (now : ℕ) (m : Maintenance)
    → ((complete_period now m).id ≡ m.id) × ((complete_period now m).status ≡ m.status)
unfolding complete_period close_actual_period
complete_period-keeps now m = go m.actual_period refl
  where
    go :
        (o : Option Period)
        → m.actual_period ≡ o
        → ((complete_period now m).id ≡ m.id) × ((complete_period now m).status ≡ m.status)
    go (some p) e = rw (complete_period, e) (refl, refl)
    go none e = elim (Bool-cases (ltb m.planned_period.start now)) [
      | inl later ↦ rw (complete_period, e, later) (refl, refl)
      | inr other ↦ rw (complete_period, e, other) (refl, refl)
    ]

-- A maintenance is completed from a status that allows it, and only when its steps are all done.
pub complete_Moved :
    (m : Maintenance) (w : World) {m' : Maintenance} {v : World}
    → complete_apply tx m w ≡ (ok m', v)
    → (can_maint_transition m.status completed ≡ true)
      × (all_steps_terminal (maint_steps m.id w.db) ≡ true)
      × Moved completed m (ok m', v)
unfolding complete_apply get_maint_steps
complete_Moved m w h =
    let (_, h₁) = guard_ok (status_eq m.status completed) skip_update w _ h in
    let (allowed, h₂) =
      guard_ok (not (can_maint_transition m.status completed))
        (forbidden_maint_status_transition m.status completed) w _ h₁ in
    let (u, asked, h₃) = read_ok (maint_steps m.id) w _ h₂ in
    let (finished, last) =
      guard_ok (not (all_steps_terminal (maint_steps m.id w.db))) maintenance_has_unfinished_steps u
        _ h₃ in
    let (same, _) = complete_period-keeps u.clock m in
    (not-false _ allowed, not-false _ finished, subst (Moved completed m) last (same, refl))

pub complete-IsLifecycle : IsLifecycle complete_apply
unfolding complete_apply get_maint_steps
complete-IsLifecycle = record {
  keeps_rows = λ m.
      keep_bind (throw_if (status_eq m.status completed) skip_update) _
        (keep_guard (status_eq m.status completed) skip_update)
        λ _.
          keep_bind
            (throw_if (not (can_maint_transition m.status completed))
              (forbidden_maint_status_transition m.status completed))
            _
            (keep_guard (not (can_maint_transition m.status completed))
              (forbidden_maint_status_transition m.status completed))
            λ _. keep_bind (query (maint_steps m.id)) _ (keep_query (maint_steps m.id)) λ steps.
              keep_bind (throw_if (not (all_steps_terminal steps)) maintenance_has_unfinished_steps)
                _ (keep_guard (not (all_steps_terminal steps)) maintenance_has_unfinished_steps)
                λ _ w. refl;
  steps = λ m w {m'} h.
      (let (allowed, _, moved) = complete_Moved m w h in moved-Step completed m m' allowed moved);
}
