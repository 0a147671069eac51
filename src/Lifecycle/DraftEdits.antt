-- ===== src/Lifecycle/DraftEdits.antt =====
-- An edit of a draft (services/maint/update_maint.go) keeps the maintenance what it is.
use maintmode.Base.{
  ℕ, ◌≡◌, refl, sym, subst, ◌∙◌, inl, inr, Bool, true, false, not, ◌||◌, Option, none, some, List,
  [], ◌∷◌, Bool-cases, is_some,
}
use maintmode.World.Errors.{Result, ok, err, forbidden_maint_status_transition}
use maintmode.World.Tables.{World}
use maintmode.World.Effect.{M, throw_if, lift}
use maintmode.World.Effect.Invert.{bind_ok, guard_ok}
use maintmode.World.Tx.{tx}
use maintmode.World.Respects.{Respects}
use maintmode.Entity.Notify.{NotifyTarget}
use maintmode.Entity.Maint.{Maintenance, draft, status_eq, normalize, scope_eq, global}
use maintmode.Entity.Commands.{UpdateMaintenanceCmd, MaintenanceStepInput}
use maintmode.Store.Steps.{delete_steps, add_steps}
use maintmode.Store.Children.{delete_resources, add_resources, delete_mentions, add_mentions}
use maintmode.Lifecycle.Transitions.{IsLifecycle, SameRows}
use maintmode.Lifecycle.Rows.{
  keep_bind, keep_guard, keep_delete_steps, keep_add_steps, keep_delete_resources,
  keep_add_resources, keep_delete_mentions, keep_add_mentions,
}
use maintmode.Lifecycle.Services.{keep_replace_targets, keep_replace_reminders}
use maintmode.Lifecycle.Moves.{not-false}
use maintmode.Lifecycle.Edits.{Same, lift_ok}
use maintmode.Targets.{replace_targets}
use maintmode.Reminders.{replace_reminders}
use maintmode.Lifecycle.Update.{
  when, given, is_global, then_stage, stage_texts, stage_steps, stage_start, stage_values,
  apply_values_from_update_cmd, apply_update, replace_steps, replace_resources, replace_mentions,
}

-- The same maintenance, in the same status.
abbrev Alike : Maintenance → Maintenance → Type 0
Alike m m' = (m'.id ≡ m.id) × (m'.status ≡ m.status)

abbrev AlikeOf : Maintenance → Result Maintenance → Type 0
AlikeOf m (ok m') = Alike m m'
AlikeOf m (err e) = Unit

Alike-trans : (a b c : Maintenance) → Alike a b → Alike b c → Alike a c
Alike-trans a b c (p, q) (r, s) = (r ∙ p, s ∙ q)

stage_steps-Alike :
    (inputs : List MaintenanceStepInput) (m : Maintenance) → Alike m (stage_steps inputs m)
unfolding stage_steps
stage_steps-Alike [] m = (refl, refl)
stage_steps-Alike (i ∷ is) m = (refl, refl)

stage_start-Alike :
    (start : Option ℕ) (m : Maintenance) {m' : Maintenance}
    → stage_start start m ≡ ok m'
    → Alike m m'
unfolding stage_start
stage_start-Alike none m h = subst (AlikeOf m) h (refl, refl)
stage_start-Alike (some start) m {m'} h = go m.planned_period.end refl
  where
    go : (e : Option ℕ) → m.planned_period.end ≡ e → Alike m m'
    go none is_open = absurd (cc (rw (stage_start, is_open) at h))
    go (some end) closed = subst (AlikeOf m) (rw (stage_start, closed) at h) (refl, refl)

normalize-Alike : (m : Maintenance) → Alike m (normalize m)
unfolding normalize
normalize-Alike m = elim (Bool-cases (scope_eq m.scope global)) [
  | inl wide ↦ rw wide (refl, refl)
  | inr other ↦ rw other (refl, refl)
]

stage_values-Alike :
    (targets : List NotifyTarget) (cmd : UpdateMaintenanceCmd) (m : Maintenance)
    → Alike m (stage_values targets cmd m)
unfolding stage_values
stage_values-Alike targets cmd m = normalize-Alike _

apply_values-Alike :
    (targets : List NotifyTarget) (cmd : UpdateMaintenanceCmd) (m : Maintenance) {m' : Maintenance}
    → apply_values_from_update_cmd targets cmd m ≡ ok m'
    → Alike m m'
unfolding apply_values_from_update_cmd
apply_values-Alike targets cmd m {m'} h = go (stage_start cmd.planned_start staged) refl h
  where
    staged : Maintenance
    staged = stage_steps cmd.steps (stage_texts cmd m)

    go :
        (r : Result Maintenance)
        → stage_start cmd.planned_start staged ≡ r
        → then_stage targets cmd r ≡ ok m'
        → Alike m m'
    go (ok x) e k =
        let first : Alike m staged = stage_steps-Alike cmd.steps (stage_texts cmd m) in
        let second = stage_start-Alike cmd.planned_start staged e in
        let third = stage_values-Alike targets cmd x in
        let at : stage_values targets cmd x ≡ m' = cc k in
        rw (at) at (
          Alike-trans m staged (stage_values targets cmd x) first
            (Alike-trans staged x (stage_values targets cmd x) second third))
    go (err x) e k = absurd (cc k)

keep_when : (b : Bool) (m : M (Unit {0})) → Respects SameRows m → Respects SameRows (when b m)
keep_when true m k = k
keep_when false m k = λ w. refl

keep_replace_steps : (m : Maintenance) → Respects SameRows (replace_steps m)
unfolding replace_steps
keep_replace_steps m =
    keep_bind (delete_steps m.id) _ (keep_delete_steps m.id)
      λ _. keep_bind (add_steps m.id m.steps) _ (keep_add_steps m.id m.steps) λ _ w. refl

keep_replace_resources : (m : Maintenance) → Respects SameRows (replace_resources m)
unfolding replace_resources
keep_replace_resources m =
    keep_bind (delete_resources m.id) (λ _. add_resources m.id m.resources)
      (keep_delete_resources m.id) λ _. keep_add_resources m.id m.resources

keep_replace_mentions : (m : Maintenance) → Respects SameRows (replace_mentions m)
unfolding replace_mentions
keep_replace_mentions m =
    keep_bind (delete_mentions m.id) (λ _. add_mentions m.id m.mentions) (keep_delete_mentions m.id)
      λ _. keep_add_mentions m.id m.mentions

module _ (targets : List NotifyTarget) (cmd : UpdateMaintenanceCmd) where
  -- What is written after the values are staged, in the order of the source.
  keep_writes : (m : Maintenance) → Respects SameRows (apply_update targets cmd tx m)
  unfolding apply_update
  keep_writes m =
      keep_bind
        (throw_if (not (status_eq m.status draft))
          (forbidden_maint_status_transition m.status draft))
        _
        (keep_guard (not (status_eq m.status draft))
          (forbidden_maint_status_transition m.status draft))
        λ _.
          keep_bind (lift (apply_values_from_update_cmd targets cmd m)) _ (λ w. refl)
            λ staged.
              keep_bind (when (given cmd.steps) (replace_steps staged)) _
                (keep_when (given cmd.steps) (replace_steps staged) (keep_replace_steps staged))
                λ _.
                  keep_bind
                    (when (given cmd.resources || is_global cmd.scope) (replace_resources staged)) _
                    (keep_when (given cmd.resources || is_global cmd.scope)
                      (replace_resources staged) (keep_replace_resources staged))
                    λ _.
                      keep_bind (when (given cmd.notify_targets) (replace_targets tx staged)) _
                        (keep_when (given cmd.notify_targets) (replace_targets tx staged)
                          (keep_replace_targets staged))
                        λ _.
                          keep_bind
                            (when (is_some cmd.deferred_notifications)
                              (replace_reminders staged.id staged.deferred_notifications))
                            _
                            (keep_when (is_some cmd.deferred_notifications)
                              (replace_reminders staged.id staged.deferred_notifications)
                              (keep_replace_reminders staged.id staged.deferred_notifications))
                            λ _.
                              keep_bind (when (is_some cmd.mentions) (replace_mentions staged)) _
                                (keep_when (is_some cmd.mentions) (replace_mentions staged)
                                  (keep_replace_mentions staged))
                                λ _ w. refl

  -- Only a draft is edited, and it stays one.
  pub update_Alike :
      (m : Maintenance) (w : World) {m' : Maintenance} {v : World}
      → apply_update targets cmd tx m w ≡ (ok m', v)
      → (status_eq m.status draft ≡ true) × Same m (ok m', v)
  unfolding apply_update
  update_Alike m w h =
      let (is_draft, h₁) =
        guard_ok (not (status_eq m.status draft)) (forbidden_maint_status_transition m.status draft)
          w _ h in
      let (staged, w₁, found, h₂) =
        bind_ok (lift (apply_values_from_update_cmd targets cmd m) w) _ h₁ in
      let (value, _) = lift_ok (apply_values_from_update_cmd targets cmd m) w found in
      let (_, w₂, _, h₃) = bind_ok (when (given cmd.steps) (replace_steps staged) w₁) _ h₂ in
      let (_, w₃, _, h₄) =
        bind_ok (when (given cmd.resources || is_global cmd.scope) (replace_resources staged) w₂) _
          h₃ in
      let (_, w₄, _, h₅) =
        bind_ok (when (given cmd.notify_targets) (replace_targets tx staged) w₃) _ h₄ in
      let (_, w₅, _, h₆) =
        bind_ok
          (when (is_some cmd.deferred_notifications)
            (replace_reminders staged.id staged.deferred_notifications) w₄)
          _ h₅ in
      let (_, w₆, _, last) =
        bind_ok (when (is_some cmd.mentions) (replace_mentions staged) w₅) _ h₆ in
      (not-false _ is_draft, subst (Same m) last (apply_values-Alike targets cmd m value))

  pub update-IsLifecycle : IsLifecycle (apply_update targets cmd)
  update-IsLifecycle = record {
    keeps_rows = keep_writes;
    steps = λ m w h.
        (let (_, kept) = update_Alike m w h in
          let (same, status) = kept in (same, inl (sym status)));
  }
