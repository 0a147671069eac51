-- ===== src/Session/Swept.antt =====
-- What a sweep that nothing disturbs deletes: services/token/prune_refresh_tokens.go and
-- storages/refreshtoken/prune.go.
use maintmode.Base.{
  ℕ, zero, suc, ◌-◌, ◌≤◌, ◌≡◌, refl, ap, ◌∙◌, Bool, true, false, not, ◌||◌, List, [], ◌∷◌, arith,
  str_eq, str_eq_self, ltb, ◌==◌, if◌then◌else◌, Bool-cases, filter, any, take, length, All,
  All-filter, All-weaken, inl, inr, Ordering,
}
use maintmode.Base.Sorting.{sort_func, insert_sorted, not_gt}
use maintmode.World.Tables.{World}
use maintmode.World.Effect.Call.{call_faultless}
use maintmode.Session.Prune.{
  default_prune_batch_limit, expired_before, compare_expiry, batch, in_batch, prune_now,
  prune_expired_before, prune_batches, prune_refresh_tokens,
}
use maintmode.Session.Pruned.{kept_for}
use maintmode.Entity.Session.{RefreshToken}

abbrev pub batch_size : ℕ → ℕ
batch_size limit = if limit == 0 then default_prune_batch_limit else limit

or_swap : (a b c : Bool) → b || (a || c) ≡ a || (b || c)
or_swap true true c = refl
or_swap true false c = refl
or_swap false b c = refl

or_true : (b : Bool) → b || true ≡ true
or_true true = refl
or_true false = refl

module _ {ℓ} {A : Type ℓ} where
  take-length : (n : ℕ) (xs : List A) → length xs ≤ n → take n xs ≡ xs
  take-length zero [] le = refl
  take-length zero (x ∷ xs) le = absurd (omega (arith, le))
  take-length (suc n) [] le = refl
  take-length (suc n) (x ∷ xs) le = ap (λ ys. x ∷ ys) (take-length n xs (omega (arith, le)))

  module _ (cmp : A → A → Ordering) where
    length-insert_sorted : (x : A) (xs : List A) → length (insert_sorted cmp x xs) ≡ suc (length xs)
    unfolding insert_sorted
    length-insert_sorted x [] = refl
    length-insert_sorted x (y ∷ ys) =
        let rest = length-insert_sorted x ys in
        elim (Bool-cases (not_gt (cmp x y))) [
          | inl first ↦ rw first refl
          | inr after ↦ rw after (ap suc rest)
        ]

    length-sort_func : (xs : List A) → length (sort_func cmp xs) ≡ length xs
    unfolding sort_func
    length-sort_func [] = refl
    length-sort_func (x ∷ xs) =
        length-insert_sorted x (sort_func cmp xs) ∙ ap suc (length-sort_func xs)

    module _ (p : A → Bool) where
      any-insert_sorted : (x : A) (xs : List A) → any p (insert_sorted cmp x xs) ≡ p x || any p xs
      unfolding insert_sorted
      any-insert_sorted x [] = refl
      any-insert_sorted x (y ∷ ys) =
          let rest = any-insert_sorted x ys in
          elim (Bool-cases (not_gt (cmp x y))) [
            | inl first ↦ rw first refl
            | inr after ↦ rw after (rw rest (or_swap (p x) (p y) (any p ys)))
          ]

      any-sort_func : (xs : List A) → any p (sort_func cmp xs) ≡ any p xs
      unfolding sort_func
      any-sort_func [] = refl
      any-sort_func (x ∷ xs) =
          any-insert_sorted x (sort_func cmp xs) ∙ ap (λ b. p x || b) (any-sort_func xs)

module _ (cutoff : ℕ) where
  -- The hash of every expired row is among those of the expired rows.
  expired-any :
      (rows : List RefreshToken)
      → All
          (λ r.
            expired_before cutoff r ≡ true
            → any (λ d. str_eq d.token r.token) (filter (expired_before cutoff) rows) ≡ true)
          rows
  expired-any [] = tt
  expired-any (r ∷ rows) =
      let rest = expired-any rows in
      elim (Bool-cases (expired_before cutoff r)) [
        | inl old ↦ (
          (λ _. rw old (rw (str_eq_self r.token) refl)),
          All-weaken rows
              (λ x named is_old. rw old (rw (named is_old) (or_true (str_eq r.token x.token))))
              rest,
        )
        | inr fresh ↦ (
          (λ is_old. absurd (cc (is_old, fresh))),
          All-weaken rows (λ x named is_old. rw fresh (named is_old)) rest,
        )
      ]

  abbrev pub IsSwept : List RefreshToken → Type 0
  IsSwept rows = All (λ r. expired_before cutoff r ≡ false) rows

  unnamed-IsSwept :
      (doomed rows : List RefreshToken)
      → All (λ r. expired_before cutoff r ≡ true → in_batch doomed r ≡ true) rows
      → IsSwept (filter (λ r. not (in_batch doomed r)) rows)
  unnamed-IsSwept doomed [] named = tt
  unnamed-IsSwept doomed (r ∷ rows) (n, named) =
      let rest = unnamed-IsSwept doomed rows named in
      elim (Bool-cases (in_batch doomed r)) [
        | inl goes ↦ rw goes rest
        | inr stays ↦ elim (Bool-cases (expired_before cutoff r)) [
          | inl old ↦ absurd (cc (n old, stays))
          | inr fresh ↦ rw stays (fresh, rest)
        ]
      ]

  prune_now-IsSwept :
      (limit : ℕ) (w : World)
      → length (filter (expired_before cutoff) w.db.refresh_tokens) ≤ limit
      → IsSwept (prune_now cutoff limit w).1.db.refresh_tokens
  unfolding prune_now batch
  prune_now-IsSwept limit w le =
      let rows = w.db.refresh_tokens in
      let expired = filter (expired_before cutoff) rows in
      let sorted = sort_func compare_expiry expired in
      let whole : take limit sorted ≡ sorted =
        take-length limit sorted (rw (length-sort_func compare_expiry expired) le) in
      unnamed-IsSwept (take limit sorted) rows (
        All-weaken rows
          (λ r named old.
            ap (λ doomed. in_batch doomed r) whole
            ∙ any-sort_func compare_expiry (λ d. str_eq d.token r.token) expired
            ∙ named old)
          (expired-any rows))

  -- A batch whose call does not fail is its deletion.
  prune_expired_before-now :
      (limit : ℕ) (w : World)
      → w.faults ≡ []
      → prune_expired_before cutoff limit w ≡ prune_now cutoff limit w
  unfolding prune_expired_before
  prune_expired_before-now limit w calm = rw (call_faultless w calm) refl

  -- Later batches delete rows and add none.
  prune_batches-IsSwept :
      (n limit : ℕ) (w : World)
      → w.faults ≡ []
      → IsSwept w.db.refresh_tokens
      → IsSwept (prune_batches n cutoff limit w).1.db.refresh_tokens
  unfolding prune_batches prune_now
  prune_batches-IsSwept zero limit w calm swept = swept
  prune_batches-IsSwept (suc n) limit w calm swept =
      let doomed = batch cutoff limit w.db.refresh_tokens in
      let v = (prune_now cutoff limit w).1 in
      let kept : IsSwept v.db.refresh_tokens =
        All-filter _ _ (λ r. not (in_batch doomed r)) w.db.refresh_tokens (λ r p. p) swept in
      let rest = prune_batches-IsSwept n limit v calm kept in
      rw (prune_expired_before-now limit w calm)
        (elim (Bool-cases (ltb (length (filter (in_batch doomed) w.db.refresh_tokens)) limit)) [
          | inl short ↦ rw short kept
          | inr full ↦ rw full rest
        ])

  first_batch-IsSwept :
      (n limit : ℕ) (w : World)
      → w.faults ≡ []
      → length (filter (expired_before cutoff) w.db.refresh_tokens) ≤ limit
      → IsSwept (prune_batches (suc n) cutoff limit w).1.db.refresh_tokens
  unfolding prune_batches prune_now
  first_batch-IsSwept n limit w calm le =
      let doomed = batch cutoff limit w.db.refresh_tokens in
      let v = (prune_now cutoff limit w).1 in
      let kept = prune_now-IsSwept limit w le in
      let rest = prune_batches-IsSwept n limit v calm kept in
      rw (prune_expired_before-now limit w calm)
        (elim (Bool-cases (ltb (length (filter (in_batch doomed) w.db.refresh_tokens)) limit)) [
          | inl short ↦ rw short kept
          | inr full ↦ rw full rest
        ])

-- If nothing fails, and no more rows expired before the cutoff of the sweep than one batch may
-- delete, then no row that the sweep leaves expired before it.
pub prune_refresh_tokens-IsSwept :
    (retention limit : ℕ) (w : World)
    → w.faults ≡ []
    → length (filter (expired_before (w.clock - kept_for retention)) w.db.refresh_tokens)
      ≤ batch_size limit
    → IsSwept
        (w.clock - kept_for retention)
        (prune_refresh_tokens retention limit w).1.db.refresh_tokens
unfolding prune_refresh_tokens
prune_refresh_tokens-IsSwept retention limit w calm le =
    first_batch-IsSwept (w.clock - kept_for retention) 99 (batch_size limit) w calm le
