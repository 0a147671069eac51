-- ===== src/Lifecycle/StepOrder.antt =====
-- Steps are done in order (`canChangeStepStatusTo` of services/maint/step_lifecycle.go).
use maintmode.Base.{ℕ, compare, ◌≡◌, Option, some, List, [], ◌∷◌, ◌++◌}
use maintmode.Base.Sorting.{sort_func}
use maintmode.Entity.Step.{MaintenanceStep}

-- The last of the elements, or `prev`.
abbrev last_of {ℓ} : {A : Type ℓ} → Option A → List A → Option A
last_of prev [] = prev
last_of prev (x ∷ xs) = last_of (some x) xs

abbrev pub in_order : List MaintenanceStep → List MaintenanceStep
in_order steps = sort_func (λ (s t : MaintenanceStep). compare s.order t.order) steps

-- The step `s` in its place: what stands before it, and after it.
pub record Place (id : ℕ) (prev : Option MaintenanceStep) (steps : List MaintenanceStep)
    (before : Option MaintenanceStep) (s : MaintenanceStep) : Type 0 where
  pub front : List MaintenanceStep
  pub back : List MaintenanceStep
  pub split : steps ≡ front ++ s ∷ back
  pub is_before : before ≡ last_of prev front
  pub same_id : s.id ≡ id
