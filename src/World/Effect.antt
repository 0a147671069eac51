-- ===== src/World/Effect.antt =====
-- Actions: a Go function with a `ctx` and an `error`, on the state that it works on. What was
-- written before an error stays written, unless a transaction takes it back.
pub mod Call
pub mod Invert
use maintmode.Base.{ℕ, suc, Bool, true, false, Option, none, some, List, [], ◌∷◌, ◌++◌}
use maintmode.World.Errors.{Error, Result, ok, err}
use maintmode.World.Tables.{Db, World, NotifyEvent, Action}

abbrev pub M {ℓ} : Type ℓ → Type ℓ
M A = World → Result A × World

module _ {ℓ κ} {A : Type ℓ} {B : Type κ} where
  abbrev pub continue : Result A × World → (A → M B) → Result B × World
  continue (ok a, w) f = f a w
  continue (err e, w) f = (err e, w)

  infixl 5 ◌>>=◌
  abbrev pub ◌>>=◌ : M A → (A → M B) → M B
  ◌>>=◌ m f w = continue (m w) f

infixl 5 ◌>>◌
abbrev pub ◌>>◌ {κ} : {B : Type κ} → M (Unit {0}) → M B → M B
m >> k = m >>= λ _. k

module _ {ℓ} {A : Type ℓ} where
  abbrev pub pure : A → M A
  pure a w = (ok a, w)

  abbrev pub throw : Error → M A
  throw e w = (err e, w)

  abbrev pub gets : (World → A) → M A
  gets f w = (ok (f w), w)

  abbrev pub lift : Result A → M A
  lift r w = (r, w)

abbrev pub modify : (World → World) → M (Unit {0})
modify f w = (ok tt, f w)

-- `if cond { return err }`
abbrev pub throw_if : Bool → Error → M (Unit {0})
throw_if true e w = (err e, w)
throw_if false e w = (ok tt, w)

abbrev answer : Option Error → World → Result (Unit {0}) × World
answer none w = (ok tt, w)
answer (some e) w = (err e, w)

answer_with : List (Option Error) → World → Result (Unit {0}) × World
answer_with [] w = (ok tt, w)
answer_with (f ∷ rest) w = answer f (record w { faults = rest })

-- A call that the environment may fail: a statement of the database, its begin and its commit.
unfoldable pub call : M (Unit {0})
unfolding answer_with
call w = answer_with w.faults w

-- A statement that reads, and one that writes.
abbrev pub query {ℓ} : {A : Type ℓ} → (Db → A) → M A
query f = call >> gets (λ w. f w.db)

abbrev pub exec : (Db → Db) → M (Unit {0})
exec f = call >> modify (λ w. record w { db = f w.db })

-- A column default `uuidv7()`, or an id that a library makes.
abbrev pub fresh_id : M ℕ
fresh_id w = (ok w.next_id, record w { next_id = suc w.next_id })

-- `xtime.UTCNow`
abbrev pub utc_now : M ℕ
utc_now w = (ok w.clock, w)

-- `for _, x := range xs`, up to the first error.
unfoldable pub for_each {ℓ} : {A : Type ℓ} → (A → M (Unit {0})) → List A → M (Unit {0})
for_each f [] = pure tt
for_each f (x ∷ xs) = let rest = for_each f xs in f x >> rest

-- The same, gathering the results.
unfoldable pub traverse {ℓ κ} : {A : Type ℓ} {B : Type κ} → (A → M B) → List A → M (List B)
traverse f [] = pure []
traverse f (x ∷ xs) = let rest = traverse f xs in f x >>= λ y. rest >>= λ ys. pure (y ∷ ys)

-- An audit or a notification that fails to go out is logged, and the operation goes on.
unfoldable pub unlogged : (World → World) → Result (Unit {0}) × World → Result (Unit {0}) × World
unlogged f (ok _, w) = (ok tt, f w)
unlogged f (err _, w) = (ok tt, w)

-- `publishAudit` of services/maint/audit_publish.go.
unfoldable pub publish_audit : Action → M (Unit {0})
unfolding unlogged
publish_audit action w = unlogged (λ w'. record w' { audits = w'.audits ++ action ∷ [] }) (call w)

-- The dispatcher of maintnotify delivers over the network and logs its failures.
unfoldable pub dispatch_event : NotifyEvent → M (Unit {0})
unfolding unlogged
dispatch_event event w = unlogged (λ w'. record w' { events = w'.events ++ event ∷ [] }) (call w)
