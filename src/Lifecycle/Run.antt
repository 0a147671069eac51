-- ===== src/Lifecycle/Run.antt =====
-- `runUpdateWithApply` and its two wrappers: what holds when they return, and when they fail.
use maintmode.Base.{ℕ, ◌≡◌, refl, subst, ◌∙◌, inl, inr, Option, none, some, Bool-cases}
use maintmode.World.Errors.{Error, Result, ok, err}
use maintmode.World.Tables.{World}
use maintmode.World.Effect.{M, continue, ◌>>◌, pure}
use maintmode.Entity.Maint.{Maintenance}
use maintmode.Entity.Notify.{NotifyEventKind, maint_cancelled, is_step}
use maintmode.World.Effect.Invert.{bind_ok}
use maintmode.World.Effect.Call.{dispatch_event_ok}
use maintmode.World.Tx.{Ctx, background, tx, within_tx, within_serializable_tx}
use maintmode.World.Tx.Rollback.{within_tx_ok, within_tx_rollback}
use maintmode.World.Tx.Retry.{serializable_ok, serializable_rollback}
use maintmode.Lifecycle.Applied.{Applied, body_Applied}
use maintmode.Lifecycle.Apply.{
  Within, update_body, run_update_with_apply, dispatch_maint_lifecycle, dispatch_kind,
  cancel_ignored, notify_maint_lifecycle, maint_lifecycle_event,
}

-- What the two transactional wrappers have in common.
pub record IsTransaction (within : Within) : Type 0 where
  pub failed :
      (fn : Ctx → M (Maintenance × Maintenance)) (w : World) {e : Error} {v : World}
      → within fn w ≡ (err e, v)
      → v.db ≡ w.db
  pub returned :
      (fn : Ctx → M (Maintenance × Maintenance)) (w : World) {a : Maintenance × Maintenance}
      {v : World}
      → within fn w ≡ (ok a, v)
      → (before : World) × (after : World) × (before.db ≡ w.db)
        × (fn tx before ≡ (ok a, after))
        × (v.db ≡ after.db)

pub within_tx-IsTransaction : IsTransaction (within_tx background)
within_tx-IsTransaction = record {
  failed = λ fn w h. within_tx_rollback fn w h;
  returned = λ fn w h.
      (let done = within_tx_ok fn w h in
        (done.before, done.after, done.same_db, done.ran, done.kept_db));
}

pub serializable-IsTransaction : IsTransaction (within_serializable_tx background)
serializable-IsTransaction = record {
  failed = λ fn w h. serializable_rollback fn w h;
  returned = λ fn w h.
      (let (w₁, same, done) = serializable_ok fn w h in
        (done.before, done.after, done.same_db ∙ same, done.ran, done.kept_db));
}

notify_ok :
    (kind : NotifyEventKind) (m : Maintenance) (w : World)
    → (v : World) × (notify_maint_lifecycle kind m w ≡ (ok tt, v))
unfolding notify_maint_lifecycle
notify_ok kind m w = elim (Bool-cases (is_step kind)) [
  | inl yes_it ↦ rw yes_it (w, refl)
  | inr other ↦ rw other (dispatch_event_ok _ w)
]

dispatch_ok :
    (prev current : Maintenance) (w : World)
    → (v : World) × (dispatch_maint_lifecycle prev current w ≡ (ok tt, v))
unfolding dispatch_maint_lifecycle dispatch_kind cancel_ignored
dispatch_ok prev current w = kind_ok (maint_lifecycle_event prev.status current.status)
  where
    kind_ok : (k : Option NotifyEventKind) → (v : World) × (dispatch_kind k current w ≡ (ok tt, v))
    kind_ok none = (w, refl)
    kind_ok (some maint_cancelled) = notify_ok maint_cancelled current _
    kind_ok (some kind) = notify_ok kind current w

module _ (within : Within) (laws : IsTransaction within) (maint_id : ℕ)
    (apply : Ctx → Maintenance → M Maintenance) where
  abbrev RunOf : World → Result (Maintenance × Maintenance) × World → Type 0
  RunOf w (err e, v) = Unit
  RunOf w (ok (prev, current), v) =
      (u : World) × Applied maint_id apply w.db prev current u.db
      × (dispatch_maint_lifecycle prev current u ≡ (ok tt, v))

  -- An update that returns has stored what `apply` made of the row, and then told about it.
  pub run_ok :
      (w : World) {prev current : Maintenance} {v : World}
      → run_update_with_apply within maint_id apply w ≡ (ok (prev, current), v)
      → RunOf w (ok (prev, current), v)
  unfolding run_update_with_apply
  run_ok w h =
      let (both, u, inside, more) = bind_ok (within (update_body maint_id apply) w) _ h in
      let (_, u', sent, last) = bind_ok (dispatch_maint_lifecycle both.0 both.1 u) _ more in
      let (before, after, same, ran, kept) = laws.returned _ w inside in
      let done = body_Applied maint_id apply before ran in
      subst (RunOf w) last (u, rw (same, ← kept) at done, sent)

  -- An update that fails, at whatever point, leaves every table as it was.
  pub run_err :
      (w : World) {e : Error} {v : World}
      → run_update_with_apply within maint_id apply w ≡ (err e, v)
      → v.db ≡ w.db
  unfolding run_update_with_apply
  run_err w {e} {v} h = go (within (update_body maint_id apply) w) refl h
    where
      go :
          (r : Result (Maintenance × Maintenance) × World)
          → within (update_body maint_id apply) w ≡ r
          → continue r (λ both. dispatch_maint_lifecycle both.0 both.1 >> pure both) ≡ (err e, v)
          → v.db ≡ w.db
      go (err x, u) inside k = laws.failed _ w (inside ∙ k)
      go (ok both, u) inside k =
          let (u', sent) = dispatch_ok both.0 both.1 u in absurd (cc (k, sent))
