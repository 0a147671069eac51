-- ===== src/World/Tx.antt =====
-- internal/utils/dbtx/tx_manager.go. A failed rollback only adds to the error that is returned,
-- whose tests (`errors.Is`, `errors.As`) still find the first one, so it is left out; so is the
-- time slept between two attempts.
pub mod Rollback
pub mod Retry
use maintmode.Base.{ℕ, zero, suc, ◌-◌, Option, some, List, [], ◌∷◌, if◌then◌else◌}
use maintmode.World.Errors.{
  Error, Result, ok, err, context_canceled, deadline_exceeded, is_serialization_failure,
}
use maintmode.World.Tables.{Db, World}
use maintmode.World.Effect.{M, call, continue}

-- Whether the context carries a transaction (`TxFromContext`).
pub data Ctx : Type 0 where
  background tx : Ctx

module _ {ℓ} {A : Type ℓ} where
  committed : Db → A → Result (Unit {0}) × World → Result A × World
  committed before a (ok _, w) = (ok a, w)
  committed before a (err e, w) = (err e, record w { db = before })

  finish_tx : Db → Result A × World → Result A × World
  unfolding committed
  finish_tx before (ok a, w) = committed before a (call w)
  finish_tx before (err e, w) = (err e, record w { db = before })

  begun : (Ctx → M A) → Db → Result (Unit {0}) × World → Result A × World
  unfolding finish_tx
  begun fn before (ok _, w) = finish_tx before (fn tx w)
  begun fn before (err e, w) = (err e, w)

  -- `WithinTx`: a transaction in the context is joined; otherwise begin, run, and commit or roll
  -- back.
  unfoldable pub within_tx : Ctx → (Ctx → M A) → M A
  unfolding begun
  within_tx tx fn w = fn tx w
  within_tx background fn w = begun fn w.db (call w)

abbrev ctx_answer : Option Error → World → Result (Unit {0}) × World
ctx_answer (some context_canceled) w = (err context_canceled, w)
ctx_answer (some deadline_exceeded) w = (err deadline_exceeded, w)
ctx_answer _ w = (ok tt, w)

ctx_err_with : List (Option Error) → World → Result (Unit {0}) × World
ctx_err_with [] w = (ok tt, w)
ctx_err_with (f ∷ rest) w = ctx_answer f (record w { faults = rest })

-- `ctx.Err()` between two attempts: the environment may have canceled the request, or
-- its deadline may have passed.
pub ctx_err : M (Unit {0})
unfolding ctx_err_with
ctx_err w = ctx_err_with w.faults w

module _ {ℓ} {A : Type ℓ} where
  -- The body of the loop after an attempt: `rest` are the attempts that are left.
  again : M A → Result A × World → Result A × World
  again rest (ok a, w) = (ok a, w)
  again rest (err e, w) =
      let retried = continue (ctx_err w) (λ _. rest) in
      if is_serialization_failure e then retried else (err e, w)

  -- `attempts n body`: one attempt, and up to `n` more.
  pub attempts : ℕ → M A → M A
  unfolding again
  attempts zero body w = body w
  attempts (suc left) body w = again (attempts left body) (body w)

-- `serializableMaxAttempts`
abbrev pub serializable_max_attempts : ℕ
serializable_max_attempts = 10

-- `WithinSerializableTx`
unfoldable pub within_serializable_tx {ℓ} : {A : Type ℓ} → Ctx → (Ctx → M A) → M A
unfolding attempts ctx_err
within_serializable_tx tx fn w = within_tx tx fn w
within_serializable_tx background fn w =
    attempts (serializable_max_attempts - 1) (within_tx background fn) w
