-- ===== src/Targets.antt =====
-- internal/services/notifytargets: the subscriptions of a maintenance (resolve_targets.go,
-- create.go, replace.go).
use maintmode.Base.{ℕ, none, List}
use maintmode.Entity.Maint.{Maintenance}
use maintmode.Entity.Notify.{NotifyTarget, NotifyChannel}
use maintmode.Entity.Commands.{NotifyTargetInput}
use maintmode.Store.Children.{get_channel, create_many_targets, delete_targets}
use maintmode.World.Errors.{Error, Result, ok, err, notify_channel_not_found, unknown_channel}
use maintmode.World.Tables.{World}
use maintmode.World.Effect.{M, ◌>>=◌, ◌>>◌, pure, traverse}
use maintmode.World.Tx.{Ctx, within_tx}

-- A channel that the catalog does not know is bad input.
abbrev as_validation : Error → Error
as_validation notify_channel_not_found = unknown_channel
as_validation e = e

unfoldable pub with_validation : Result NotifyChannel × World → Result NotifyChannel × World
with_validation (ok channel, w) = (ok channel, w)
with_validation (err e, w) = (err (as_validation e), w)

unfoldable pub resolve_one : ℕ → NotifyTargetInput → M NotifyTarget
unfolding with_validation get_channel
resolve_one maint_id item = do
  channel ← λ w. with_validation (get_channel item.channel_id w)
  pure (record {
    id = 0;
    maint_id = maint_id;
    channel_id = channel.id;
    created_at = 0;
    transport = channel.transport;
    transport_channel_id = channel.transport_channel_id;
    channel_name = channel.name;
    root_ref = none;
    root_channel = "";
  })

-- `ResolveNotifyTarget`
unfoldable pub resolve_notify_target : ℕ → List NotifyTargetInput → M (List NotifyTarget)
unfolding resolve_one traverse
resolve_notify_target maint_id input = traverse (resolve_one maint_id) input

-- `Create`
unfoldable pub create_targets : ℕ → List NotifyTargetInput → M (List NotifyTarget)
unfolding resolve_notify_target create_many_targets
create_targets maint_id input = do
  targets ← resolve_notify_target maint_id input
  create_many_targets maint_id targets

-- `Replace` joins the transaction of its caller.
unfoldable pub replace_targets : Ctx → Maintenance → M (Unit {0})
unfolding delete_targets create_many_targets within_tx
replace_targets ctx maint = within_tx ctx λ _. do
  delete_targets maint.id
  created ← create_many_targets maint.id maint.notify_targets
  pure tt
