-- ===== src/Session/Refines.antt =====
-- Rules by which an operation is shown to take the table of refresh tokens along abstract steps.
use maintmode.Base.{◌≤◌, ◌≡◌, refl, sym, ap, subst, ◌∙◌, Bool, true, false, [], ◌∷◌, ◌++◌, arith}
use maintmode.World.Errors.{Error, Result, ok, err}
use maintmode.World.Tables.{Db, World, Action}
use maintmode.World.Effect.{
  M, continue, ◌>>=◌, call, query, throw_if, utc_now, fresh_id, unlogged, publish_audit,
}
use maintmode.World.Tx.{Ctx, background, tx, within_tx}
use maintmode.World.Tx.Rollback.{within_tx_world}
use maintmode.World.Effect.Call.{call_db, call_world}
use maintmode.Session.Spec.{sessions, draw, Reach, done, onward, one, Reach-trans, Reach-le}

-- The operation takes the sessions along abstract steps, from every world whose tables satisfy
-- `P`; whether it returns or fails.
pub record RefinesFrom {ℓ} {A : Type ℓ} (P : Db → Type 0) (m : M A) : Type 0 where
  pub reach : (w : World) → P w.db → Reach (sessions w) (sessions (m w).1)

pub record Refines {ℓ} {A : Type ℓ} (m : M A) : Type 0 where
  pub reach : (w : World) → Reach (sessions w) (sessions (m w).1)

-- It leaves the tables alone, and may hand out ids.
pub record IsQuiet {ℓ} {A : Type ℓ} (m : M A) : Type 0 where
  pub same : (w : World) → (m w).1.db ≡ w.db
  pub le : (w : World) → w.next_id ≤ (m w).1.next_id

pub quiet-Refines {ℓ} : {A : Type ℓ} (m : M A) → IsQuiet m → Refines m
quiet-Refines m quiet = record {
  reach = λ w. one (draw (ap (λ d. d.refresh_tokens) (quiet.same w)) (quiet.le w));
}

pub IsQuiet-pure {ℓ} : {A : Type ℓ} (r : World → Result A) → IsQuiet (λ w. (r w, w))
IsQuiet-pure r = record { same = λ w. refl; le = λ w. omega arith }

pub IsQuiet-throw_if : (b : Bool) (e : Error) → IsQuiet (throw_if b e)
IsQuiet-throw_if true e = IsQuiet-pure (λ _. err e)
IsQuiet-throw_if false e = IsQuiet-pure (λ _. ok tt)

pub IsQuiet-call : IsQuiet call
IsQuiet-call = record { same = call_db; le = λ w. let (fs, e) = call_world w in rw e (omega arith) }

pub IsQuiet-utc_now : IsQuiet utc_now
IsQuiet-utc_now = IsQuiet-pure (λ w. ok w.clock)

pub IsQuiet-fresh_id : IsQuiet fresh_id
IsQuiet-fresh_id = record { same = λ w. refl; le = λ w. omega arith }

-- Two worlds with the same tables, of which the second may have drawn more ids.
abbrev Near : World → World → Type 0
Near w v = (v.db ≡ w.db) × (w.next_id ≤ v.next_id)

pub IsQuiet-bind {ℓ κ} :
    {A : Type ℓ} {B : Type κ} (m : M A) (f : A → M B)
    → IsQuiet m
    → ((a : A) → IsQuiet (f a))
    → IsQuiet (m >>= f)
IsQuiet-bind {A} {B} m f qm qf = record {
  same = λ w. (go w (m w) (qm.same w, qm.le w)).0;
  le = λ w. (go w (m w) (qm.same w, qm.le w)).1;
}
  where
    go : (w : World) (r : Result A × World) → Near w r.1 → Near w (continue r f).1
    go w (ok a, v) (e, n) = ((qf a).same v ∙ e, omega (arith, n, (qf a).le v))
    go w (err e, v) h = h

pub IsQuiet-query {ℓ} : {A : Type ℓ} (f : Db → A) → IsQuiet (query f)
IsQuiet-query f = IsQuiet-bind call (λ _ w. (ok (f w.db), w)) IsQuiet-call (λ _. IsQuiet-pure _)

pub IsQuiet-publish_audit : (action : Action) → IsQuiet (publish_audit action)
unfolding publish_audit unlogged
IsQuiet-publish_audit action = record {
  same = λ w. (go w (call w) (IsQuiet-call.same w, IsQuiet-call.le w)).0;
  le = λ w. (go w (call w) (IsQuiet-call.same w, IsQuiet-call.le w)).1;
}
  where
    go :
        (w : World) (r : Result (Unit {0}) × World)
        → Near w r.1
        → Near w (unlogged (λ w'. record w' { audits = w'.audits ++ action ∷ [] }) r).1
    go w (ok _, v) h = h
    go w (err _, v) h = h

pub Refines-pure {ℓ} : {A : Type ℓ} (r : World → Result A) → Refines (λ w. (r w, w))
Refines-pure r = record { reach = λ w. done }

pub Refines-bind {ℓ κ} :
    {A : Type ℓ} {B : Type κ} (m : M A) (f : A → M B)
    → Refines m
    → ((a : A) → Refines (f a))
    → Refines (m >>= f)
Refines-bind {A} {B} m f km kf = record { reach = λ w. go w (m w) (km.reach w) }
  where
    go :
        (w : World) (r : Result A × World)
        → Reach (sessions w) (sessions r.1)
        → Reach (sessions w) (sessions (continue r f).1)
    go w (ok a, v) h = Reach-trans h ((kf a).reach v)
    go w (err e, v) h = h

module _ (P : Db → Type 0) where
  pub From-bind {ℓ κ} :
      {A : Type ℓ} {B : Type κ} (m : M A) (f : A → M B)
      → RefinesFrom P m
      → ((a : A) → Refines (f a))
      → RefinesFrom P (m >>= f)
  From-bind {A} {B} m f km kf = record { reach = λ w p. go w (m w) (km.reach w p) }
    where
      go :
          (w : World) (r : Result A × World)
          → Reach (sessions w) (sessions r.1)
          → Reach (sessions w) (sessions (continue r f).1)
      go w (ok a, v) h = Reach-trans h ((kf a).reach v)
      go w (err e, v) h = h

  pub From-quiet {ℓ κ} :
      {A : Type ℓ} {B : Type κ} (m : M A) (f : A → M B)
      → IsQuiet m
      → ((a : A) → RefinesFrom P (f a))
      → RefinesFrom P (m >>= f)
  From-quiet {A} {B} m f qm kf = record { reach = λ w p. go w p (m w) (qm.same w, qm.le w) }
    where
      go :
          (w : World)
          → P w.db
          → (r : Result A × World) → Near w r.1
          → Reach (sessions w) (sessions (continue r f).1)
      go w p (ok a, v) (same, le) =
          onward (draw (ap (λ d. d.refresh_tokens) same) le) ((kf a).reach v (subst P (sym same) p))
      go w p (err e, v) (same, le) = one (draw (ap (λ d. d.refresh_tokens) same) le)

  -- A transaction, of whose function only a run that returns counts.
  pub From-within_tx {ℓ} :
      {A : Type ℓ} (fn : Ctx → M A)
      → ((w v : World) (a : A) → P w.db → fn tx w ≡ (ok a, v) → Reach (sessions w) (sessions v))
      → ((w : World) → w.next_id ≤ (fn tx w).1.next_id)
      → RefinesFrom P (within_tx background fn)
  From-within_tx fn ran le = record {
    reach = λ w p.
        within_tx_world fn (λ v. Reach (sessions w) (sessions v)) w
          (λ gs. one (draw refl (omega arith))) (λ gs fs a v. ran (record w { faults = gs }) v a p)
          (λ gs fs. one (draw refl (le (record w { faults = gs }))));
  }

pub Refines-within_tx {ℓ} :
    {A : Type ℓ} (fn : Ctx → M A) → Refines (fn tx) → Refines (within_tx background fn)
Refines-within_tx fn k = record {
  reach = λ w.
      (From-within_tx (λ _. Unit {0}) fn
          (λ w' v a _ e. subst (λ r. Reach (sessions w') (sessions r.1)) e (k.reach w'))
          (λ w'. Reach-le (k.reach w'))).reach
        w tt;
}

-- Two actions that leave the same world.
pub IsQuiet-world {ℓ κ} :
    {A : Type ℓ} {B : Type κ} (m : M A) (n : M B)
    → ((w : World) → (n w).1 ≡ (m w).1)
    → IsQuiet m
    → IsQuiet n
IsQuiet-world m n e q = record {
  same = λ w. ap (λ v. v.db) (e w) ∙ q.same w;
  le = λ w. subst (λ v. w.next_id ≤ v.next_id) (sym (e w)) (q.le w);
}

pub Refines-world {ℓ κ} :
    {A : Type ℓ} {B : Type κ} (m : M A) (n : M B)
    → ((w : World) → (n w).1 ≡ (m w).1)
    → Refines m
    → Refines n
Refines-world m n e k = record {
  reach = λ w. subst (λ v. Reach (sessions w) (sessions v)) (sym (e w)) (k.reach w);
}

pub From-world {ℓ κ} :
    {A : Type ℓ} {B : Type κ} (P : Db → Type 0) (m : M A) (n : M B)
    → ((w : World) → (n w).1 ≡ (m w).1)
    → RefinesFrom P m
    → RefinesFrom P n
From-world P m n e k = record {
  reach = λ w p. subst (λ v. Reach (sessions w) (sessions v)) (sym (e w)) (k.reach w p);
}

pub From-Refines {ℓ} : {A : Type ℓ} (P : Db → Type 0) (m : M A) → Refines m → RefinesFrom P m
From-Refines P m k = record { reach = λ w p. k.reach w }
