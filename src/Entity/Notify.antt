-- ===== src/Entity/Notify.antt =====
-- internal/entity/notifier.go, notifier_transport.go and deferred_notification.go: the lifecycle
-- events, the targets of a maintenance and its deferred reminders.
use maintmode.Base.{ℕ, String, Option, none, some, Bool, true, false, not, ◌==◌}

pub data NotifyEventKind : Type 0 where
  maint_started maint_completed maint_cancelled maint_reminder : NotifyEventKind
  step_started step_completed step_cancelled : NotifyEventKind

-- `NotifyEventKind.IsStep`
unfoldable pub is_step : NotifyEventKind → Bool
is_step step_started = true
is_step step_completed = true
is_step step_cancelled = true
is_step _ = false

pub data NotifyTransport : Type 0 where
  stub slack telegram email : NotifyTransport

-- `NotifyTransport.IsValid`: whether a channel may be created on the transport.
unfoldable pub transport_is_valid : NotifyTransport → Bool
transport_is_valid slack = true
transport_is_valid telegram = true
transport_is_valid _ = false

pub record NotifyChannel : Type 0 where
  pub id : ℕ
  pub transport : NotifyTransport
  pub transport_channel_id : String
  pub name : String
  pub description : String
  pub created_at : ℕ
  pub created_by_user_id : Option ℕ
  pub updated_at : Option ℕ
  pub updated_by_user_id : Option ℕ
  pub archived_at : Option ℕ

pub record NotifyTarget : Type 0 where
  pub id : ℕ
  pub maint_id : ℕ
  pub channel_id : ℕ
  pub created_at : ℕ
  pub transport : NotifyTransport
  pub transport_channel_id : String
  pub channel_name : String
  pub root_ref : Option String
  pub root_channel : String

pub record DeferredNotification : Type 0 where
  pub id : ℕ
  pub maint_id : ℕ
  pub fire_at : ℕ
  pub goque_task_id : Option ℕ

-- `DeferredNotification.IsScheduled`
unfoldable pub is_scheduled : DeferredNotification → Bool
is_scheduled n = elim n.goque_task_id [ none ↦ false | some task ↦ not (task == 0) ]
