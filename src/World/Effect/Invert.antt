-- ===== src/World/Effect/Invert.antt =====
-- What an action that returned tells of its parts.
use maintmode.Base.{◌≡◌, refl, sym, ap, subst, ◌∙◌, Bool, true, false, Option, List}
use maintmode.World.Errors.{Error, Result, ok, err}
use maintmode.World.Tables.{Db, World}
use maintmode.World.Effect.{M, continue, call, query, throw_if}
use maintmode.World.Effect.Call.{call_world}

-- Two worlds that differ in the answers left to the environment alone.
pub record Answered (w v : World) : Type 0 where
  pub left : List (Option Error)
  pub same : v ≡ record w { faults = left }

pub bind_ok {ℓ κ} :
    {A : Type ℓ} {B : Type κ} (r : Result A × World) (f : A → M B) {b : B} {w' : World}
    → continue r f ≡ (ok b, w')
    → (a : A) × (v : World) × (r ≡ (ok a, v)) × (f a v ≡ (ok b, w'))
bind_ok (ok a, v) f h = (a, v, refl, h)
bind_ok (err e, v) f h = absurd (cc h)

pub throw_if_ok :
    (b : Bool) (e : Error) {w : World} {u : Unit {0}} {v : World}
    → throw_if b e w ≡ (ok u, v)
    → (b ≡ false) × (v ≡ w)
throw_if_ok true e h = absurd (cc h)
throw_if_ok false e h = (refl, cc h)

pub call_ok : (w : World) {u : Unit {0}} {v : World} → call w ≡ (ok u, v) → Answered w v
call_ok w h = let (fs, e) = call_world w in record { left = fs; same = ap (λ r. r.1) (sym h) ∙ e }

pub query_ok {ℓ} :
    {A : Type ℓ} (f : Db → A) (w : World) {a : A} {v : World}
    → query f w ≡ (ok a, v)
    → (a ≡ f w.db) × Answered w v
query_ok f w {a = a} {v = v} h =
    let (_, v₁, called, rest) = bind_ok (call w) _ h in
    let done = call_ok w called in
    let at_v : v₁ ≡ v = ap (λ r. r.1) rest in
    let value : f v₁.db ≡ a = cc rest in
    (
      sym value ∙ ap (λ x. f x.db) done.same,
      record { left = done.left; same = sym at_v ∙ done.same },
    )

-- A guard that let the rest of the function run.
pub guard_ok {ℓ} :
    {A : Type ℓ} (b : Bool) (e : Error) (w : World) (f : Unit {0} → M A) {a : A} {v : World}
    → continue (throw_if b e w) f ≡ (ok a, v)
    → (b ≡ false) × (f tt w ≡ (ok a, v))
guard_ok true e w f h = absurd (cc h)
guard_ok false e w f h = (refl, h)

-- A read in front of the rest of the function.
pub read_ok {ℓ κ} :
    {A : Type ℓ} {B : Type κ} (q : Db → A) (w : World) (f : A → M B) {b : B} {v : World}
    → continue (query q w) f ≡ (ok b, v)
    → (u : World) × Answered w u × (f (q w.db) u ≡ (ok b, v))
read_ok q w f {b} {v} h =
    let (a, u, asked, rest) = bind_ok (query q w) f h in
    let (value, done) = query_ok q w asked in (u, done, subst (λ x. f x u ≡ (ok b, v)) value rest)

pub Answered-db : {w v : World} → Answered w v → v.db ≡ w.db
Answered-db done = ap (λ x. x.db) done.same
