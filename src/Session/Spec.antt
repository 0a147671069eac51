-- ===== src/Session/Spec.antt =====
-- What the table of refresh tokens may do, whatever operation acts on it: the abstract steps of
-- sessions, which forget the services, the clock and the environment.
use maintmode.Base.{ℕ, ◌≤◌, ◌<◌, ◌≡◌, Bool, false, List, ◌∷◌, map, arith, filter, any, Member}
use maintmode.World.Tables.{World}
use maintmode.Session.Tokens.{has_hash, revoke_row, rotate_row}
use maintmode.Entity.Session.{RefreshToken}

-- The rows, and the bound of the ids handed out so far.
pub record Sessions : Type 0 where
  pub rows : List RefreshToken
  pub next : ℕ

abbrev pub sessions : World → Sessions
sessions w = record { rows = w.db.refresh_tokens; next = w.next_id }

-- `new` opens a session of its own.
pub record Opens (new : RefreshToken) (s t : Sessions) : Type 0 where
  pub is_new : s.next ≤ new.family
  pub is_drawn : new.family < t.next
  pub starts_unrevoked : new.revoked ≡ false
  pub added : t.rows ≡ new ∷ s.rows

-- `new` succeeds `old`, which was there unrevoked.
pub record Succeeds (old new : RefreshToken) (s t : Sessions) : Type 0 where
  pub grace : ℕ
  pub now : ℕ
  pub was_there : Member old s.rows
  pub was_unrevoked : old.revoked ≡ false
  pub same_family : new.family ≡ old.family
  pub same_user : new.user_id ≡ old.user_id
  pub same_start : new.session_started_at ≡ old.session_started_at
  pub hash_is_new : any (has_hash new.token) s.rows ≡ false
  pub replaced : t.rows ≡ new ∷ map (rotate_row now old.token new.token grace) s.rows

pub data Step (s t : Sessions) : Type 0 where
  draw : t.rows ≡ s.rows → s.next ≤ t.next → Step s t
  end :
      (where_expr : RefreshToken → Bool) (now : ℕ)
      → t.rows ≡ map (revoke_row where_expr now) s.rows
      → s.next ≤ t.next
      → Step s t
  forget : (kept : RefreshToken → Bool) → t.rows ≡ filter kept s.rows → s.next ≤ t.next → Step s t
  sign_in : (new : RefreshToken) → Opens new s t → s.next ≤ t.next → Step s t
  succeed : (old new : RefreshToken) → Succeeds old new s t → s.next ≤ t.next → Step s t

pub data Reach : Sessions → Sessions → Type 0 where
  done : {s : Sessions} → Reach s s
  onward : {s t u : Sessions} → Step s t → Reach t u → Reach s u

pub one : {s t : Sessions} → Step s t → Reach s t
one x = onward x done

pub Reach-trans : {s t u : Sessions} → Reach s t → Reach t u → Reach s u
Reach-trans done q = q
Reach-trans (onward x p) q = onward x (Reach-trans p q)

pub Step-le : {s t : Sessions} → Step s t → s.next ≤ t.next
Step-le (draw e n) = n
Step-le (end p now e n) = n
Step-le (forget p e n) = n
Step-le (sign_in new o n) = n
Step-le (succeed old new o n) = n

pub Reach-le : {s t : Sessions} → Reach s t → s.next ≤ t.next
Reach-le done = omega arith
Reach-le (onward x p) = omega (arith, Step-le x, Reach-le p)
