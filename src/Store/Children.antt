-- ===== src/Store/Children.antt =====
-- The other collections of a maintenance: internal/storages/maintenances (add_resources.go,
-- delete_resources.go, get_resources.go, add_mentions.go, delete_mentions.go, get_mentions.go),
-- internal/storages/notifytargets, notifychannel/get.go and the approver query of users/list.go.
use maintmode.Base.{
  ℕ, Option, none, some, Bool, false, List, [], ◌∷◌, ◌++◌, map, not, ◌&&◌, ◌||◌, ◌==◌,
  if◌then◌else◌, filter, any, contains, take, find, compare, Ordering, is_some,
}
use mathlib.Core.List.{flat_map}
use maintmode.Base.Sorting.{sort_func}
use maintmode.Entity.User.{User, Role, role_eq}
use maintmode.Entity.Notify.{NotifyTarget, NotifyChannel, stub}
use maintmode.World.Errors.{notify_targets_already_exists, notify_channel_not_found}
use maintmode.World.Tables.{ResourceLink, MentionRow, Db}
use maintmode.World.Effect.{
  M, ◌>>=◌, ◌>>◌, pure, throw, throw_if, modify, query, exec, fresh_id, utc_now, traverse,
}

abbrev pub with_resources : List ResourceLink → Db → Db
with_resources rows db = record db { maintenance_resources = rows }

abbrev same_link : ResourceLink → ResourceLink → Bool
same_link l k = l.maintenance_id == k.maintenance_id && l.resource_id == k.resource_id

-- INSERT … ON CONFLICT (maintenance_id, resource_id) DO NOTHING
unfoldable pub insert_links : List ResourceLink → List ResourceLink → List ResourceLink
insert_links [] links = links
insert_links (l ∷ ls) links =
    insert_links ls (if any (same_link l) links then links else links ++ l ∷ [])

unfoldable pub add_resources : ℕ → List ℕ → M (Unit {0})
unfolding insert_links
add_resources maint_id [] = pure tt
add_resources maint_id (r ∷ rs) = exec (λ db.
    with_resources
      (insert_links (map (λ id. record { maintenance_id = maint_id; resource_id = id }) (r ∷ rs))
        db.maintenance_resources)
      db)

unfoldable pub delete_resources : ℕ → M (Unit {0})
delete_resources maint_id = exec (λ db.
    with_resources
      (filter (λ (l : ResourceLink). not (l.maintenance_id == maint_id)) db.maintenance_resources)
      db)

-- `GetMaintResources` at one maintenance, of whose details the services read the ids. The join
-- with resources drops no row: resource_id is a foreign key.
unfoldable pub linked_resources : ℕ → Db → List ℕ
linked_resources maint_id db =
    map (λ (l : ResourceLink). l.resource_id)
      (filter (λ (l : ResourceLink). l.maintenance_id == maint_id) db.maintenance_resources)

unfoldable pub get_maint_resources : ℕ → M (List ℕ)
unfolding linked_resources
get_maint_resources maint_id = query (linked_resources maint_id)

abbrev with_mentions : List MentionRow → Db → Db
with_mentions rows db = record db { maintenance_mentions = rows }

abbrev same_mention : MentionRow → MentionRow → Bool
same_mention m n = m.maintenance_id == n.maintenance_id && m.user_id == n.user_id

unfoldable pub insert_mentions : List MentionRow → List MentionRow → List MentionRow
insert_mentions [] rows = rows
insert_mentions (m ∷ ms) rows =
    insert_mentions ms (if any (same_mention m) rows then rows else rows ++ m ∷ [])

unfoldable pub add_mentions : ℕ → List ℕ → M (Unit {0})
unfolding insert_mentions
add_mentions maint_id [] = pure tt
add_mentions maint_id (u ∷ us) = exec (λ db.
    with_mentions
      (insert_mentions (map (λ id. record { maintenance_id = maint_id; user_id = id }) (u ∷ us))
        db.maintenance_mentions)
      db)

unfoldable pub delete_mentions : ℕ → M (Unit {0})
delete_mentions maint_id = exec (λ db.
    with_mentions
      (filter (λ (m : MentionRow). not (m.maintenance_id == maint_id)) db.maintenance_mentions) db)

-- `GetMaintMentions`: in the order of insertion.
unfoldable pub get_maint_mentions : ℕ → M (List ℕ)
get_maint_mentions maint_id = query (λ db.
    map (λ (m : MentionRow). m.user_id)
      (filter (λ (m : MentionRow). m.maintenance_id == maint_id) db.maintenance_mentions))

abbrev pub with_targets : List NotifyTarget → Db → Db
with_targets rows db = record db { maintenance_notify_targets = rows }

-- The unique index (maintenance_id, channel_id).
abbrev same_target : NotifyTarget → NotifyTarget → Bool
same_target s t = s.maint_id == t.maint_id && s.channel_id == t.channel_id

abbrev pub target_clashes : List NotifyTarget → List NotifyTarget → Bool
target_clashes [] rows = false
target_clashes (t ∷ ts) rows = any (same_target t) (ts ++ rows) || target_clashes ts rows

-- `toDB` and `fromDB` of notifytargets: only the channel is carried; the catalog's fields and the
-- thread root are empty.
unfoldable pub new_target : ℕ → NotifyTarget → M NotifyTarget
new_target maint_id t = do
  id ← fresh_id
  now ← utc_now
  pure (record {
    id = id;
    maint_id = maint_id;
    channel_id = t.channel_id;
    created_at = now;
    transport = stub;
    transport_channel_id = "";
    channel_name = "";
    root_ref = none;
    root_channel = "";
  })

unfoldable pub insert_targets : ℕ → List NotifyTarget → M (List NotifyTarget)
unfolding new_target traverse
insert_targets maint_id targets = do
  rows ← traverse (new_target maint_id) targets
  stored ← query (λ db. db.maintenance_notify_targets)
  throw_if (target_clashes rows stored) notify_targets_already_exists
  modify (λ w. record w { db = with_targets (w.db.maintenance_notify_targets ++ rows) w.db })
  pure rows

-- `CreateMany`
unfoldable pub create_many_targets : ℕ → List NotifyTarget → M (List NotifyTarget)
unfolding insert_targets
create_many_targets maint_id [] = pure []
create_many_targets maint_id (t ∷ ts) = insert_targets maint_id (t ∷ ts)

unfoldable pub delete_targets : ℕ → M (Unit {0})
delete_targets maint_id = exec (λ db.
    with_targets (filter (λ t. not (t.maint_id == maint_id)) db.maintenance_notify_targets) db)

unfoldable pub or_no_channel : Option NotifyChannel → M NotifyChannel
or_no_channel none = throw notify_channel_not_found
or_no_channel (some c) = pure c

-- `Get` of the channel catalog.
unfoldable pub get_channel : ℕ → M NotifyChannel
unfolding or_no_channel
get_channel id = do
  channel ← query (λ db. find (λ (c : NotifyChannel). c.id == id) db.messenger_channels)
  or_no_channel channel

-- A target with its channel's current address, as `ListByMaint` joins them.
resolved : List NotifyChannel → NotifyTarget → List NotifyTarget
resolved channels t = elim (find (λ (c : NotifyChannel). c.id == t.channel_id) channels) [
  | none ↦ []
  | some c ↦
      record t {
        transport = c.transport;
        transport_channel_id = c.transport_channel_id;
        channel_name = c.name;
      }
      ∷ []
]

abbrev compare_targets : NotifyTarget → NotifyTarget → Ordering
compare_targets s t = elim (compare s.created_at t.created_at) [
  | Ordering.eq ↦ compare s.channel_id t.channel_id
  | o ↦ o
]

unfoldable pub list_targets : ℕ → M (List NotifyTarget)
unfolding resolved sort_func
list_targets maint_id = query (λ db. flat_map (resolved db.messenger_channels) (
    sort_func compare_targets
      (filter (λ (t : NotifyTarget). t.maint_id == maint_id) db.maintenance_notify_targets)))

-- `listWhereExpr` without a search text: the id filter, `roles && …`, and `blocked_at IS NULL`.
unfoldable pub user_matches : List ℕ → List Role → Bool → User → Bool
user_matches ids roles exclude_blocked u =
    contains u.id ids
    && (any (λ r. any (role_eq r) u.roles) roles && not (exclude_blocked && is_some u.blocked_at))

-- The page of `List` with such a filter; its order does not matter where the limit is 1 and ids
-- are unique.
unfoldable pub list_users : List ℕ → List Role → Bool → ℕ → M (List User)
unfolding user_matches
list_users ids roles exclude_blocked limit =
    query (λ db. take limit (filter (user_matches ids roles exclude_blocked) db.users))
