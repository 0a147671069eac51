-- ===== src/Session/Prune.antt =====
-- services/token/prune_refresh_tokens.go and storages/refreshtoken/prune.go: deleting rows that
-- expired long ago. A retention and a limit of 0 stand for every one that is not positive.
use maintmode.Base.{
  ℕ, zero, suc, ◌-◌, ◌*◌, Ordering, compare, Bool, not, List, str_eq, ltb, ◌==◌, if◌then◌else◌,
  length, take, filter, any,
}
use maintmode.World.Errors.{ok}
use maintmode.World.Effect.{M, ◌>>=◌, ◌>>◌, call, pure, utc_now}
use maintmode.Base.Sorting.{sort_func}
use maintmode.Session.{minute}
use maintmode.Session.Tokens.{with_refresh_tokens}
use maintmode.Entity.Session.{RefreshToken}

abbrev pub max_prune_batches : ℕ
max_prune_batches = 100

abbrev pub default_prune_batch_limit : ℕ
default_prune_batch_limit = 1000

abbrev pub default_prune_retention : ℕ
default_prune_retention = 24 * (60 * minute)

abbrev pub expired_before : ℕ → RefreshToken → Bool
expired_before cutoff r = ltb r.expires_at cutoff

abbrev pub compare_expiry : RefreshToken → RefreshToken → Ordering
compare_expiry a b = compare a.expires_at b.expires_at

unfoldable pub batch : ℕ → ℕ → List RefreshToken → List RefreshToken
batch cutoff limit rows =
    take limit (sort_func compare_expiry (filter (expired_before cutoff) rows))

abbrev pub in_batch : List RefreshToken → RefreshToken → Bool
in_batch doomed r = any (λ d. str_eq d.token r.token) doomed

unfoldable pub prune_now : ℕ → ℕ → M ℕ
unfolding batch
prune_now cutoff limit w =
    let rows = w.db.refresh_tokens in
    let doomed = batch cutoff limit rows in
    (
      ok (length (filter (in_batch doomed) rows)),
      record w { db = with_refresh_tokens (filter (λ r. not (in_batch doomed r)) rows) w.db },
    )

-- `PruneExpiredBefore`: the rows deleted are counted.
unfoldable pub prune_expired_before : ℕ → ℕ → M ℕ
unfolding prune_now
prune_expired_before cutoff limit = call >> prune_now cutoff limit

-- `for range maxPruneBatches`
unfoldable pub prune_batches : ℕ → ℕ → ℕ → M (Unit {0})
unfolding prune_expired_before
prune_batches zero cutoff limit = pure tt
prune_batches (suc n) cutoff limit =
    let rest = prune_batches n cutoff limit in
    prune_expired_before cutoff limit >>= λ deleted w.
    (if ltb deleted limit then (ok tt, w) else rest w)

unfoldable pub prune_refresh_tokens : (retention batch_limit : ℕ) → M (Unit {0})
unfolding prune_batches
prune_refresh_tokens retention batch_limit =
    let limit = if batch_limit == 0 then default_prune_batch_limit else batch_limit in
    let kept = if retention == 0 then default_prune_retention else retention in
    utc_now >>= λ now. prune_batches max_prune_batches (now - kept) limit
