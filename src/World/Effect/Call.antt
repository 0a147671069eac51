-- ===== src/World/Effect/Call.antt =====
-- What one call of the environment does.
use maintmode.Base.{◌≡◌, refl, ap, Option, none, some, List, [], ◌∷◌, arith}
use maintmode.World.Errors.{Error, Result, ok, err}
use maintmode.World.Tables.{World, Action, NotifyEvent}
use maintmode.World.Effect.{call, unlogged, publish_audit, dispatch_event}

-- What a call does to the world: it takes one answer of the environment.
pub call_world : (w : World) → (fs : List (Option Error)) × ((call w).1 ≡ record w { faults = fs })
unfolding call
call_world w = go w.faults refl
  where
    go :
        (fs : List (Option Error))
        → w.faults ≡ fs
        → (gs : List (Option Error)) × ((call w).1 ≡ record w { faults = gs })
    go [] e = ([], ground arith)
    go (none ∷ rest) e = (rest, ground arith)
    go (some x ∷ rest) e = (rest, ground arith)

pub call_db : (w : World) → (call w).1.db ≡ w.db
call_db w = let (fs, e) = call_world w in ap (λ v. v.db) e

-- An audit or a notification never fails the operation.
unlogged_ok :
    (f : World → World) (r : Result (Unit {0}) × World) → (v : World) × (unlogged f r ≡ (ok tt, v))
unfolding unlogged
unlogged_ok f (ok _, w) = (f w, refl)
unlogged_ok f (err _, w) = (w, refl)

pub publish_audit_ok :
    (action : Action) (w : World) → (v : World) × (publish_audit action w ≡ (ok tt, v))
unfolding publish_audit
publish_audit_ok action w = unlogged_ok _ (call w)

pub dispatch_event_ok :
    (event : NotifyEvent) (w : World) → (v : World) × (dispatch_event event w ≡ (ok tt, v))
unfolding dispatch_event
dispatch_event_ok event w = unlogged_ok _ (call w)

-- With no failure in store, a call succeeds and changes nothing.
pub call_faultless : (w : World) → w.faults ≡ [] → call w ≡ (ok tt, w)
unfolding call
call_faultless w e = rw e (ground arith)
