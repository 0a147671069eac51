-- ===== src/Lib.antt =====
-- The maintenance calendar: what happens to a planned maintenance from its draft to its end, and
-- to the sessions and the roles of those who use it.
--
-- The program keeps maintenances in Postgres. A maintenance is a draft, is approved (planned), is
-- started (in progress), and is completed or cancelled; its steps are carried out in order. Every
-- change runs in a transaction: the row is read, a function makes a new value of it, and the value
-- is stored (internal/services/maint/update_maint.go, runUpdateWithApply). After the transaction,
-- an event goes to the subscribers and an entry to the audit. An approval compares the conflicts
-- of now with those that the approver was shown, by a fingerprint, saves them, and schedules the
-- reminders in the task queue.
--
-- A user who signs in gets a session: a family of refresh tokens, of which each refresh replaces
-- the last by the next, and access tokens that name the family. Ending a session revokes its rows
-- in Postgres and marks its family in Valkey. Blocking a user (internal/services/user) ends the
-- sessions of that user once the block is committed.
--
-- Files, and the code that they are about:
--   Base            lists and their elements (Lists, Members), Boolean tests (Tests), sorting
--                   (slices.SortFunc) and what it keeps (Sorting, Sorted)
--   Entity          internal/entity: maint.go (Maint), maint_step.go (Step), period.go with
--                   internal/utils/xtime/pgrange.go (Period), conflict.go (Conflict), user.go
--                   (User), notifier*.go and deferred_notification.go (Notify), commands.go
--                   (Commands)
--   World           the errors of internal/apperr (Errors), the tables and what is published
--                   (Tables), actions on them (Effect), internal/utils/dbtx (Tx, with Tx/Rollback
--                   and Tx/Retry), and rules for what an action does to the tables (Respects)
--   Store           internal/storages: maintenances (Maintenances, Steps, and the resources and
--                   mentions in Children), notifytargets, notifychannel and users/list.go
--                   (Children), deferrednotifications (Deferred), conflicts (Conflicts),
--                   conflict_snapshots (Snapshots); RoundTrip and Overdue hold theorems
--   Conflict        the fingerprint (Fingerprint) and the marking (Approval) of
--                   internal/entity/conflict.go, internal/services/conflicts with
--                   internal/services/calendar/get_maint_conflicts.go (Service); Overlap, Scope, Found,
--                   Review and Redaction hold theorems
--   Reminders       internal/services/deferrednotifications, internal/services/messaging/scheduler
--   Targets         internal/services/notifytargets
--   Lifecycle       internal/services/maint: update_maint.go (Apply, Update), start_maint.go
--                   (Start), cancel_maint.go and cancel_unstarted.go (Cancel), complete_maint.go
--                   (Complete), step_lifecycle.go (StepOps), appove_maint.go (Approve),
--                   create_draft.go, mapper.go and validate_approver.go (Create). Machine runs the
--                   operations one after the other; the other modules hold theorems
--   Session         internal/storages/refreshtoken (Tokens), storages/blacklisttoken (Marks),
--                   internal/services/token and internal/services/auth: issuing (Issue), revoking
--                   (Revoke), refresh.go (Refresh), logout.go (Logout), introspect.go (Introspect),
--                   prune_refresh_tokens.go (Prune). Spec has the abstract steps of the table,
--                   History runs the operations one after the other; the other modules hold theorems
--   Users           internal/services/user: roles and blocking (Admin); internal/storages/users
--                   (Store); the seats of internal/entity/license.go and internal/services/license
--                   (Seats). History runs the operations; the other modules hold theorems
--   Samples         concrete tables, and each theorem applied to them
--
-- A Go function with a context and an error is an action: World → Result A × World. The state is
-- passed explicitly; what was written before an error stays written unless a transaction takes it
-- back. A value that the source changes through a pointer is returned.
--
-- Choices. A UUID is a number, and 0 is uuid.Nil. A time counts microseconds from Go's zero time,
-- the precision of Postgres; the clock does not move within one operation. World.faults answers
-- the calls of the database, the queue and the network in turn: any of them may fail with any
-- error, and an empty list means that all succeed. A transaction is one step; row locks and
-- isolation are not modelled, and an abort is an answer of the environment. The calls of the task
-- queue (goque) are kept in a list that a rollback takes back with the tables. SHA-256 with its
-- encoding, and the rules of the packages ozzo-validation and net/url, are parameters. A text that
-- names a status, a scope or an impact is one of the declared ones. The durations of steps are
-- summed in an int64 that wraps around. The groups of a snapshot, which the source walks as a map,
-- stand in the order in which they are met. There is no fuel but the ten attempts of
-- WithinSerializableTx and the hundred batches of a sweep of refresh tokens, which are the source's
-- own bounds. Random ids are numbered in the order in which they are drawn, so that no two agree;
-- random texts, SHA-256, and the signing and parsing of access tokens by golang-jwt are parameters
-- (Session.Crypto), and two texts may have the same hash. The holder of a distributed lock is the
-- environment, which may refuse the lock. Of the ranges of Postgres, which the conflict queries
-- compute with, the model has the bounds, the operator && and the refusal of a lower bound above the
-- upper one, as its documentation states them. What the licence server reported as the seats purchased
-- is a parameter of the administration of users.
--
-- Not modelled: logs, spans and metrics, the time slept between two attempts, a failed rollback
-- (it only adds to the error), the delivery of notifications, the listing of maintenances, the
-- HTTP layer, the ways to sign in (password, one-time code, identity providers), invitations,
-- the licence server, and the services for integrations.
pub mod Base
pub mod Entity
pub mod World
pub mod Store
pub mod Conflict
pub mod Reminders
pub mod Targets
pub mod Lifecycle
pub mod Session
pub mod Users
pub mod Samples
