-- ===== src/Session/Pruned.antt =====
-- What the sweep of expired rows leaves of the table: services/token/prune_refresh_tokens.go and
-- storages/refreshtoken/prune.go.
use maintmode.Base.{
  ℕ, zero, suc, ◌-◌, String, ◌≡◌, refl, ap, ◌∙◌, Bool, true, false, not, ◌&&◌, List, [], ◌∷◌,
  str_eq, ltb, ◌==◌, if◌then◌else◌, Bool-cases, filter, find, All, All-filter, inl, inr, eq_iff,
  Option, subst, sym,
}
use maintmode.World.Tables.{World}
use maintmode.World.Errors.{Result, ok, err}
use maintmode.World.Effect.{M, call, continue}
use maintmode.World.Effect.Call.{call_db}
use maintmode.Base.Sorting.{sort_func}
use maintmode.Base.Sorted.{All-sort_func, All-take}
use maintmode.Session.Tokens.{has_hash}
use maintmode.Session.Prune.{
  default_prune_retention, default_prune_batch_limit, expired_before, compare_expiry, batch,
  in_batch, prune_now, prune_expired_before, prune_batches, prune_refresh_tokens, max_prune_batches,
}
use maintmode.Entity.Session.{RefreshToken}

-- The row is of the hash and expired before the cutoff.
abbrev pub is_prunable : ℕ → String → RefreshToken → Bool
is_prunable cutoff hash r = expired_before cutoff r && has_hash hash r

abbrev pub kept_for : ℕ → ℕ
kept_for retention = if retention == 0 then default_prune_retention else retention

-- The row that a hash finds.
abbrev pub row_of : String → World → Option RefreshToken
row_of hash w = find (has_hash hash) w.db.refresh_tokens

find-filter {ℓ} :
    {A : Type ℓ} (p kept : A → Bool) (xs : List A)
    → ((x : A) → p x ≡ true → kept x ≡ true)
    → find p (filter kept xs) ≡ find p xs
find-filter p kept [] h = refl
find-filter p kept (x ∷ xs) h =
    let rest = find-filter p kept xs h in
    elim (Bool-cases (p x)) [
      | inl found ↦ rw (h x found) (rw found refl)
      | inr other ↦ elim (Bool-cases (kept x)) [
        | inl stays ↦ rw stays (rw other rest)
        | inr goes ↦ rw goes (rw other rest)
      ]
    ]

module _ (cutoff : ℕ) (hash : String) where
  expired-misses :
      (rows : List RefreshToken)
      → All (λ r. is_prunable cutoff hash r ≡ false) rows
      → All (λ r. has_hash hash r ≡ false) (filter (expired_before cutoff) rows)
  expired-misses [] safe = tt
  expired-misses (r ∷ rows) (p, safe) =
      let rest = expired-misses rows safe in
      elim (Bool-cases (expired_before cutoff r)) [
        | inl expired ↦ rw expired (rw expired at p, rest)
        | inr fresh ↦ rw fresh rest
      ]

  in_batch-misses :
      (doomed : List RefreshToken) (r : RefreshToken)
      → All (λ d. has_hash hash d ≡ false) doomed
      → has_hash hash r ≡ true
      → in_batch doomed r ≡ false
  in_batch-misses [] r missed found = refl
  in_batch-misses (d ∷ doomed) r (p, missed) found =
      let rest = in_batch-misses doomed r missed found in
      let same : r.token ≡ hash = (eq_iff r.token hash).0 found in
      let q : str_eq d.token r.token ≡ false = ap (str_eq d.token) same ∙ p in rw q rest

  batch-misses :
      (limit : ℕ) (rows : List RefreshToken)
      → All (λ r. is_prunable cutoff hash r ≡ false) rows
      → All (λ r. has_hash hash r ≡ false) (batch cutoff limit rows)
  unfolding batch
  batch-misses limit rows safe =
      let expired = filter (expired_before cutoff) rows in
      All-take _ limit (sort_func compare_expiry expired)
        (All-sort_func _ compare_expiry expired (expired-misses rows safe))

  -- What a sweep leaves: the hash finds what it found before, and no row of it can be pruned.
  record Spares (w v : World) : Type 0 where
    found : row_of hash v ≡ row_of hash w
    safe : All (λ r. is_prunable cutoff hash r ≡ false) v.db.refresh_tokens

  prune_now-Spares :
      (limit : ℕ) (w : World)
      → All (λ r. is_prunable cutoff hash r ≡ false) w.db.refresh_tokens
      → Spares w (prune_now cutoff limit w).1
  unfolding prune_now
  prune_now-Spares limit w safe =
      let rows = w.db.refresh_tokens in
      let doomed = batch cutoff limit rows in
      record {
        found =
            find-filter (has_hash hash) (λ r. not (in_batch doomed r)) rows
              λ r is_found.
                ap not (in_batch-misses doomed r (batch-misses limit rows safe) is_found);
        safe = All-filter _ _ (λ r. not (in_batch doomed r)) rows (λ r p. p) safe;
      }

  Spares-trans : {u v w : World} → Spares u v → Spares v w → Spares u w
  Spares-trans p q = record { found = q.found ∙ p.found; safe = q.safe }

  -- A call of the environment leaves the table as it was.
  call-Spares :
      (w : World)
      → All (λ r. is_prunable cutoff hash r ≡ false) w.db.refresh_tokens
      → Spares w (call w).1
  call-Spares w safe =
      let same = call_db w in
      record {
        found = ap (λ d. find (has_hash hash) d.refresh_tokens) same;
        safe =
            subst (λ d. All (λ r. is_prunable cutoff hash r ≡ false) d.refresh_tokens) (sym same)
              safe;
      }

  continue-Spares {ℓ κ} :
      {A : Type ℓ} {B : Type κ} (w : World) (m : Result A × World) (f : A → M B)
      → Spares w m.1
      → ((a : A) → Spares w (f a m.1).1)
      → Spares w (continue m f).1
  continue-Spares w (ok a, v) f spared later = later a
  continue-Spares w (err e, v) f spared later = spared

  prune_expired_before-Spares :
      (limit : ℕ) (w : World)
      → All (λ r. is_prunable cutoff hash r ≡ false) w.db.refresh_tokens
      → Spares w (prune_expired_before cutoff limit w).1
  unfolding prune_expired_before
  prune_expired_before-Spares limit w safe =
      let called = call-Spares w safe in
      continue-Spares w (call w) (λ _. prune_now cutoff limit) called
        λ _. Spares-trans called (prune_now-Spares limit (call w).1 called.safe)

  prune_batches-Spares :
      (n limit : ℕ) (w : World)
      → All (λ r. is_prunable cutoff hash r ≡ false) w.db.refresh_tokens
      → Spares w (prune_batches n cutoff limit w).1
  unfolding prune_batches
  prune_batches-Spares zero limit w safe = record { found = refl; safe = safe }
  prune_batches-Spares (suc n) limit w safe =
      let swept = prune_expired_before-Spares limit w safe in
      let rest =
        Spares-trans swept
          (prune_batches-Spares n limit (prune_expired_before cutoff limit w).1 swept.safe) in
      continue-Spares w (prune_expired_before cutoff limit w)
        (λ deleted v. if ltb deleted limit then (ok tt, v) else prune_batches n cutoff limit v)
        swept
        λ deleted. elim (Bool-cases (ltb deleted limit)) [
          | inl short ↦ rw short swept
          | inr full ↦ rw full rest
        ]

-- If no row of a hash expired before the cutoff of the sweep, its retention before the clock, then
-- the sweep leaves what the hash finds, whichever of its calls of the database fail.
pub prune_refresh_tokens-row_of :
    (retention limit : ℕ) (hash : String) (w : World)
    → All (λ r. is_prunable (w.clock - kept_for retention) hash r ≡ false) w.db.refresh_tokens
    → row_of hash (prune_refresh_tokens retention limit w).1 ≡ row_of hash w
unfolding prune_refresh_tokens
prune_refresh_tokens-row_of retention limit hash w safe =
    (prune_batches-Spares (w.clock - kept_for retention) hash max_prune_batches
      (if limit == 0 then default_prune_batch_limit else limit) w safe).found
