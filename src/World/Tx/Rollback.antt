-- ===== src/World/Tx/Rollback.antt =====
-- What `WithinTx` promises: on an error the tables are as they were, and on success they are as the
-- function left them.
use maintmode.Base.{[], refl, subst, List, Option, ◌≡◌, ap, arith, sym, ◌∙◌}
use maintmode.World.Errors.{Error, Result, ok, err}
use maintmode.World.Tables.{Db, World}
use maintmode.World.Effect.{M, call}
use maintmode.World.Tx.{
  Result, Error, World, Db, M, Ctx, background, tx, within_tx, finish_tx, committed, begun,
}
use maintmode.World.Effect.Call.{call_faultless, call_world}

-- On success the function ran on the caller's tables, and what it left is committed.
pub record Committed {ℓ} {A : Type ℓ} (fn : Ctx → M A) (w : World) (a : A) (w' : World)
    : Type ℓ where
  pub before : World
  pub after : World
  pub same_db : before.db ≡ w.db
  pub same_clock : before.clock ≡ w.clock
  pub ran : fn tx before ≡ (ok a, after)
  pub kept_db : w'.db ≡ after.db
  pub kept_events : w'.events ≡ after.events
  pub kept_audits : w'.audits ≡ after.audits

module _ {ℓ} {A : Type ℓ} (fn : Ctx → M A) where
  committed_err :
      (db : Db) (a : A) (r : Result (Unit {0}) × World) {e : Error} {w' : World}
      → committed db a r ≡ (err e, w')
      → w'.db ≡ db
  unfolding committed
  committed_err db a (ok _, w) h = cc h
  committed_err db a (err x, w) h = ground arith

  finish_tx_err :
      (db : Db) (r : Result A × World) {e : Error} {w' : World}
      → finish_tx db r ≡ (err e, w')
      → w'.db ≡ db
  unfolding finish_tx
  finish_tx_err db (ok a, w) h = committed_err db a (call w) h
  finish_tx_err db (err x, w) h = ground arith

  begun_err :
      (db : Db) (r : Result (Unit {0}) × World) {e : Error} {w' : World}
      → r.1.db ≡ db
      → begun fn db r ≡ (err e, w')
      → w'.db ≡ db
  unfolding begun
  begun_err db (ok _, w) same h = finish_tx_err db (fn tx w) h
  begun_err db (err x, w) same h = ground arith

  -- What holds of the world after a transaction: after a begin that failed, after a function that
  -- returned, and after one whose work was undone.
  module _ (P : World → Type 0) (db : Db) where
    committed_world :
        (a : A) (r : Result (Unit {0}) × World)
        → P r.1
        → P (record r.1 { db = db })
        → P (committed db a r).1
    unfolding committed
    committed_world a (ok _, w) p q = p
    committed_world a (err e, w) p q = q

    finish_tx_world :
        (r : Result A × World)
        → ((a : A) (v : World) (fs : List (Option Error))
            → r ≡ (ok a, v)
            → P (record v { faults = fs }))
        → ((fs : List (Option Error)) → P (record r.1 { db = db; faults = fs }))
        → P (finish_tx db r).1
    unfolding finish_tx
    finish_tx_world (ok a, w) p q =
        let (fs, e) = call_world w in
        committed_world a (call w) (rw e (p a w fs refl)) (rw e (q fs))
    finish_tx_world (err e, w) p q = q w.faults

  begun_world :
      (P : World → Type 0) (w : World) (db : Db) (r : Result (Unit {0}) × World)
      (gs : List (Option Error))
      → r.1 ≡ record w { faults = gs }
      → P r.1
      → ((a : A) (v : World) (fs : List (Option Error))
          → fn tx (record w { faults = gs }) ≡ (ok a, v)
          → P (record v { faults = fs }))
      → ((fs : List (Option Error))
          → P (record (fn tx (record w { faults = gs })).1 { db = db; faults = fs }))
      → P (begun fn db r).1
  unfolding begun
  begun_world P w db (ok _, v) gs e p q s =
      finish_tx_world P db (fn tx v) (λ a u fs ran. q a u fs (ap (fn tx) (sym e) ∙ ran))
        (λ fs. subst (λ x. P (record (fn tx x).1 { db = db; faults = fs })) (sym e) (s fs))
  begun_world P w db (err x, v) gs e p q s = p

  pub within_tx_world :
      (P : World → Type 0) (w : World)
      → ((gs : List (Option Error)) → P (record w { faults = gs }))
      → ((gs fs : List (Option Error)) (a : A) (v : World)
          → fn tx (record w { faults = gs }) ≡ (ok a, v)
          → P (record v { faults = fs }))
      → ((gs fs : List (Option Error))
          → P (record (fn tx (record w { faults = gs })).1 { db = w.db; faults = fs }))
      → P (within_tx background fn w).1
  unfolding within_tx
  within_tx_world P w p q s =
      let (gs, e) = call_world w in
      begun_world P w w.db (call w) gs e (rw e (p gs)) (λ a v fs. q gs fs a v) (s gs)

  -- A transaction that fails, at whatever point, leaves every table as it was.
  pub within_tx_rollback :
      (w : World) {e : Error} {w' : World} → within_tx background fn w ≡ (err e, w') → w'.db ≡ w.db
  unfolding within_tx
  within_tx_rollback w h =
      begun_err w.db (call w) (let (fs, e) = call_world w in ap (λ v. v.db) e) h

  committed_ok :
      (db : Db) (b : A) (r : Result (Unit {0}) × World) {a : A} {w' : World}
      → committed db b r ≡ (ok a, w')
      → (b ≡ a) × (r.1 ≡ w')
  unfolding committed
  committed_ok db b (ok _, w) h = (cc h, cc h)
  committed_ok db b (err x, w) h = absurd (cc h)

  finish_tx_ok :
      (db : Db) (r : Result A × World) {a : A} {w' : World}
      → finish_tx db r ≡ (ok a, w')
      → (after : World) × (r ≡ (ok a, after)) × ((call after).1 ≡ w')
  unfolding finish_tx
  finish_tx_ok db (ok b, w) h =
      let (e, f) = committed_ok db b (call w) h in (w, ap (λ x. (ok x, w)) e, f)
  finish_tx_ok db (err x, w) h = absurd (cc h)

  begun_ok :
      (db : Db) (r : Result (Unit {0}) × World) {a : A} {w' : World}
      → begun fn db r ≡ (ok a, w')
      → (after : World) × (fn tx r.1 ≡ (ok a, after)) × ((call after).1 ≡ w')
  unfolding begun
  begun_ok db (ok _, w) h = finish_tx_ok db (fn tx w) h
  begun_ok db (err x, w) h = absurd (cc h)

  -- A transaction that succeeds ran its function once and keeps all that it did.
  pub within_tx_ok :
      (w : World) {a : A} {w' : World}
      → within_tx background fn w ≡ (ok a, w')
      → Committed fn w a w'
  unfolding within_tx
  within_tx_ok w {a} {w'} h =
      let (after, ran, last) = begun_ok w.db (call w) h in
      let (fs, e) = call_world w in
      let (gs, f) = call_world after in
      record {
        before = (call w).1;
        after = after;
        same_db = ap (λ v. v.db) e;
        same_clock = ap (λ v. v.clock) e;
        ran = ran;
        kept_db = ap (λ v. v.db) (sym last ∙ f);
        kept_events = ap (λ v. v.events) (sym last ∙ f);
        kept_audits = ap (λ v. v.audits) (sym last ∙ f);
      }

  -- With no failure in store, a transaction is what its function does.
  pub within_tx_faultless :
      (w : World) {a : A} {v : World}
      → w.faults ≡ []
      → fn tx w ≡ (ok a, v)
      → v.faults ≡ []
      → within_tx background fn w ≡ (ok a, v)
  unfolding within_tx begun finish_tx committed
  within_tx_faultless w {a} {v} begins ran commits =
      rw (call_faultless w begins, ran, call_faultless v commits) refl

  pub within_tx_faultless_err :
      (w : World) {e : Error} {v : World}
      → w.faults ≡ []
      → fn tx w ≡ (err e, v)
      → within_tx background fn w ≡ (err e, record v { db = w.db })
  unfolding within_tx begun finish_tx
  within_tx_faultless_err w {e} {v} begins ran = rw (call_faultless w begins, ran) refl
