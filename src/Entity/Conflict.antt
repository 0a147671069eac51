-- ===== src/Entity/Conflict.antt =====
-- The data of internal/entity/conflict.go.
use maintmode.Base.{ℕ, String, Bool, List}
use maintmode.Entity.Maint.{MaintenanceScope}

pub record Conflict : Type 0 where
  pub maintenance_id : ℕ
  pub title : String
  pub overlap_start : ℕ
  pub overlap_end : ℕ
  pub scope : MaintenanceScope

pub record ConflictWithResources : Type 0 where
  pub conflict : Conflict
  pub open conflict use *
  pub resources : List ℕ
  pub known_at_approval : Bool

pub record ConflictsSnapshot : Type 0 where
  pub conflicts : List ConflictWithResources
