-- ===== src/World/Respects.antt =====
-- Rules for what an action does to the tables, whether it returns or fails: `Respects D m` says
-- that `m` moves the tables along the relation `D`.
use maintmode.World.Tx.{background, within_tx, within_serializable_tx, tx, Ctx}
use maintmode.World.Tx.Rollback.{within_tx_rollback, within_tx_ok}
use maintmode.World.Tx.Retry.{serializable_rollback, serializable_ok}
use maintmode.World.Tables.{NotifyEvent, Action, Db, World}
use maintmode.Base.{◌≡◌, refl, Bool, true, false, List, [], ◌∷◌}
use maintmode.World.Errors.{Error, Result, ok, err}
use maintmode.World.Effect.{
  M, continue, ◌>>=◌, call, query, exec, throw_if, unlogged, for_each, traverse, publish_audit,
  dispatch_event, modify,
}
use maintmode.World.Effect.Call.{call_db}

abbrev pub Respects {ℓ} : {A : Type ℓ} → (Db → Db → Type 0) → M A → Type 0
Respects D m = (w : World) → D w.db (m w).1.db

module _ (D : Db → Db → Type 0) (D-refl : (d : Db) → D d d)
    (D-trans : (a b c : Db) → D a b → D b c → D a c) where
  pub Respects-pure {ℓ} : {A : Type ℓ} (r : World → Result A) → Respects D (λ w. (r w, w))
  Respects-pure r w = D-refl w.db

  pub Respects-throw_if : (b : Bool) (e : Error) → Respects D (throw_if b e)
  Respects-throw_if true e w = D-refl w.db
  Respects-throw_if false e w = D-refl w.db

  pub Respects-call : Respects D call
  Respects-call w = rw (call_db w) (D-refl w.db)

  pub Respects-bind {ℓ κ} :
      {A : Type ℓ} {B : Type κ} (m : M A) (f : A → M B)
      → Respects D m
      → ((a : A) → Respects D (f a))
      → Respects D (m >>= f)
  Respects-bind {A} {B} m f km kf w = go (m w) (km w)
    where
      go : (r : Result A × World) → D w.db r.1.db → D w.db (continue r f).1.db
      go (ok a, v) h = D-trans w.db v.db (f a v).1.db h (kf a v)
      go (err e, v) h = h

  pub Respects-query {ℓ} : {A : Type ℓ} (f : Db → A) → Respects D (query f)
  Respects-query f = Respects-bind call (λ _ w. (ok (f w.db), w)) Respects-call (λ _ w. D-refl w.db)

  pub Respects-modify :
      (f : Db → Db) → ((d : Db) → D d (f d)) → Respects D (modify (λ w. record w { db = f w.db }))
  Respects-modify f h w = h w.db

  pub Respects-exec : (f : Db → Db) → ((d : Db) → D d (f d)) → Respects D (exec f)
  Respects-exec f h =
      Respects-bind call (λ _ w. (ok tt, record w { db = f w.db })) Respects-call (λ _ w. h w.db)

  pub Respects-for_each {ℓ} :
      {A : Type ℓ} (f : A → M (Unit {0})) (xs : List A)
      → ((a : A) → Respects D (f a))
      → Respects D (for_each f xs)
  unfolding for_each
  Respects-for_each f [] kf = λ w. D-refl w.db
  Respects-for_each f (x ∷ xs) kf =
      Respects-bind (f x) (λ _. for_each f xs) (kf x) (λ _. Respects-for_each f xs kf)

  pub Respects-traverse {ℓ κ} :
      {A : Type ℓ} {B : Type κ} (f : A → M B) (xs : List A)
      → ((a : A) → Respects D (f a))
      → Respects D (traverse f xs)
  unfolding traverse
  Respects-traverse f [] kf = λ w. D-refl w.db
  Respects-traverse f (x ∷ xs) kf =
      Respects-bind (f x) (λ y. traverse f xs >>= λ ys w. (ok (y ∷ ys), w)) (kf x)
        λ y.
          Respects-bind (traverse f xs) (λ ys w. (ok (y ∷ ys), w)) (Respects-traverse f xs kf)
            (λ ys w. D-refl w.db)

  Respects-unlogged :
      (f : World → World) → ((w : World) → (f w).db ≡ w.db) → Respects D (λ w. unlogged f (call w))
  unfolding unlogged
  Respects-unlogged f same w = go (call w) (Respects-call w)
    where
      go : (r : Result (Unit {0}) × World) → D w.db r.1.db → D w.db (unlogged f r).1.db
      go (ok _, v) k = rw (same v) k
      go (err _, v) k = k

  pub Respects-publish_audit : (action : Action) → Respects D (publish_audit action)
  unfolding publish_audit
  Respects-publish_audit action = Respects-unlogged _ (λ w. refl)

  pub Respects-dispatch_event : (event : NotifyEvent) → Respects D (dispatch_event event)
  unfolding dispatch_event
  Respects-dispatch_event event = Respects-unlogged _ (λ w. refl)

  -- A transaction that fails leaves the tables alone, and one that succeeds does what its function
  -- does.
  pub Respects-within_tx {ℓ} :
      {A : Type ℓ} (fn : Ctx → M A) → Respects D (fn tx) → Respects D (within_tx background fn)
  Respects-within_tx {A} fn k w = go (within_tx background fn w) refl
    where
      go : (r : Result A × World) → within_tx background fn w ≡ r → D w.db r.1.db
      go (err e, v) h = rw (within_tx_rollback fn w h) (D-refl w.db)
      go (ok a, v) h =
          let done = within_tx_ok fn w h in
          (rw (done.same_db, done.ran, ← done.kept_db) at (k done.before))

  pub Respects-serializable {ℓ} :
      {A : Type ℓ} (fn : Ctx → M A)
      → Respects D (fn tx)
      → Respects D (within_serializable_tx background fn)
  Respects-serializable {A} fn k w = go (within_serializable_tx background fn w) refl
    where
      go : (r : Result A × World) → within_serializable_tx background fn w ≡ r → D w.db r.1.db
      go (err e, v) h = rw (serializable_rollback fn w h) (D-refl w.db)
      go (ok a, v) h =
          let (w₁, same, done) = serializable_ok fn w h in
          (rw (done.same_db, same, done.ran, ← done.kept_db) at (k done.before))
