-- ===== src/Session/Tokens.antt =====
-- internal/storages/refreshtoken: the table refresh_tokens. An advisory lock is a statement that
-- may fail: an operation of the model runs alone.
use maintmode.Base.{
  ℕ, String, Bool, true, not, ◌&&◌, Option, none, some, List, ◌∷◌, map, str_eq, ltb, ◌==◌,
  if◌then◌else◌, filter, find, any, uniq,
}
use maintmode.World.Errors.{
  Result, ok, err, unique_violation, refresh_token_not_found, refresh_token_already_rotated,
}
use maintmode.World.Tables.{Db, World}
use maintmode.World.Effect.{M, ◌>>=◌, ◌>>◌, call, query, pure, throw, utc_now}
use maintmode.Entity.Session.{RefreshToken}

abbrev pub with_refresh_tokens : List RefreshToken → Db → Db
with_refresh_tokens rows db = record db { refresh_tokens = rows }

abbrev pub has_hash : String → RefreshToken → Bool
has_hash hash r = str_eq r.token hash

-- `get`: no row is `ErrRefreshTokenNotFound`.
abbrev pub found : Option RefreshToken → M RefreshToken
found none = throw refresh_token_not_found
found (some r) = pure r

unfoldable pub get_by_token_hash : String → M RefreshToken
get_by_token_hash hash = query (λ db. find (has_hash hash) db.refresh_tokens) >>= found

unfoldable pub get_by_token_hash_for_update : String → M RefreshToken
get_by_token_hash_for_update hash = query (λ db. find (has_hash hash) db.refresh_tokens) >>= found

-- A row of the family that is neither revoked nor expired.
abbrev pub is_live : ℕ → ℕ → RefreshToken → Bool
is_live now family r = r.family == family && not r.revoked && ltb now r.expires_at

unfoldable pub has_live_token : ℕ → M Bool
has_live_token family = utc_now >>= λ now. query (λ db. any (is_live now family) db.refresh_tokens)

abbrev pub unrevoked_with_hash : String → RefreshToken → Bool
unrevoked_with_hash hash r = has_hash hash r && not r.revoked

unfoldable pub rotated : (now : ℕ) (successor : String) (grace : ℕ) → RefreshToken → RefreshToken
rotated now successor grace r = record r {
  revoked = true;
  replaced_by = some successor;
  grace_ttl = some grace;
  updated_at = some now;
}

unfoldable pub rotate_row : ℕ → String → String → ℕ → RefreshToken → RefreshToken
unfolding rotated
rotate_row now hash successor grace r =
    if unrevoked_with_hash hash r then rotated now successor grace r else r

-- `Rotate`: no row changed is `ErrRefreshTokenAlreadyRotated`.
unfoldable pub rotate_now : String → String → ℕ → World → Result (Unit {0}) × World
unfolding rotate_row
rotate_now hash successor grace w =
    let rows = w.db.refresh_tokens in
    if any (unrevoked_with_hash hash) rows
    then (
      ok tt,
      record w {
        db = with_refresh_tokens (map (rotate_row w.clock hash successor grace) rows) w.db;
      },
    )
    else (err refresh_token_already_rotated, w)

unfoldable pub rotate : String → String → ℕ → M (Unit {0})
unfolding rotate_now
rotate hash successor grace = call >> rotate_now hash successor grace

-- `toDBRefreshToken` and the column default of created_at.
unfoldable pub to_db_refresh_token : ℕ → RefreshToken → RefreshToken
to_db_refresh_token now t = record t { created_at = now; updated_at = none }

-- The primary key refuses a hash that is there.
unfoldable pub insert_now : RefreshToken → World → Result (Unit {0}) × World
insert_now row w =
    let rows = w.db.refresh_tokens in
    if any (has_hash row.token) rows
    then (err unique_violation, w)
    else (ok tt, record w { db = with_refresh_tokens (row ∷ rows) w.db })

unfoldable pub save : RefreshToken → M (Unit {0})
unfolding insert_now to_db_refresh_token
save t = call >> λ w. insert_now (to_db_refresh_token w.clock t) w

unfoldable pub revoked_at : ℕ → RefreshToken → RefreshToken
revoked_at now r = record r { revoked = true; updated_at = some now }

unfoldable pub revoke_row : (RefreshToken → Bool) → ℕ → RefreshToken → RefreshToken
unfolding revoked_at
revoke_row where_expr now r = if where_expr r then revoked_at now r else r

unfoldable pub revoke_now : (RefreshToken → Bool) → M (List ℕ)
unfolding revoke_row
revoke_now where_expr w =
    let rows = w.db.refresh_tokens in
    (
      ok (uniq (map (λ r. r.family) (filter where_expr rows))),
      record w { db = with_refresh_tokens (map (revoke_row where_expr w.clock) rows) w.db },
    )

-- `revoke`: the families of the rows that match, whether they were revoked before or not.
unfoldable pub revoke : (RefreshToken → Bool) → M (List ℕ)
unfolding revoke_now
revoke where_expr = call >> revoke_now where_expr

abbrev pub of_user : ℕ → RefreshToken → Bool
of_user user_id r = r.user_id == user_id

abbrev pub of_user_except : ℕ → ℕ → RefreshToken → Bool
of_user_except user_id keep r = r.user_id == user_id && not (r.family == keep)

abbrev pub of_family : ℕ → RefreshToken → Bool
of_family family r = r.family == family

unfoldable pub revoke_by_user_id : ℕ → M (List ℕ)
unfolding revoke
revoke_by_user_id user_id = revoke (of_user user_id)

unfoldable pub revoke_by_user_id_except_family : ℕ → ℕ → M (List ℕ)
unfolding revoke
revoke_by_user_id_except_family user_id keep = revoke (of_user_except user_id keep)

unfoldable pub revoke_family : ℕ → M (Unit {0})
unfolding revoke
revoke_family family = revoke (of_family family) >>= λ _. pure tt

unfoldable pub lock_user_sessions : ℕ → M (Unit {0})
lock_user_sessions user_id = call
