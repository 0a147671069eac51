-- ===== src/Session/Marks.antt =====
-- internal/storages/blacklisttoken: the marks in Valkey that revoke access tokens before they
-- expire.
use maintmode.World.Effect.{modify, gets, M, ◌>>◌, call, pure}
use maintmode.Base.{
  ℕ, ◌+◌, Bool, false, not, ◌&&◌, List, [], ◌∷◌, map, ltb, ◌==◌, if◌then◌else◌, filter, any,
}
use maintmode.World.Tables.{World, MarkKey, Mark, of_token, of_session}
use maintmode.Entity.Session.{IdText, blank, text_of, id_text_eq}

abbrev pub mark_key_eq : MarkKey → MarkKey → Bool
mark_key_eq (of_token a) (of_token b) = id_text_eq a b
mark_key_eq (of_session a) (of_session b) = id_text_eq a b
mark_key_eq _ _ = false

-- `SET key 1 EX expiration`, which replaces the entry of the key.
abbrev pub set_mark : (expires_at : ℕ) → MarkKey → List Mark → List Mark
set_mark expires_at key marks =
    record { key = key; expires_at = expires_at } ∷ filter (λ m. not (mark_key_eq m.key key)) marks

abbrev pub set_marks : ℕ → List MarkKey → List Mark → List Mark
set_marks expires_at [] marks = marks
set_marks expires_at (k ∷ ks) marks = set_marks expires_at ks (set_mark expires_at k marks)

unfoldable pub set_now : ℕ → List MarkKey → M (Unit {0})
set_now expiration keys =
    call
    >> modify λ w. record w { revocations = set_marks (w.clock + expiration) keys w.revocations }

unfoldable pub add_sessions : ℕ → List ℕ → M (Unit {0})
unfolding set_now
add_sessions expiration [] = pure tt
add_sessions expiration (id ∷ ids) =
    if expiration == 0
    then pure tt
    else set_now expiration (map (λ i. of_session (text_of i)) (id ∷ ids))

unfoldable pub add : IdText → ℕ → M (Unit {0})
unfolding set_now
add jti expiration = if expiration == 0 then pure tt else set_now expiration (of_token jti ∷ [])

-- `EXISTS`: an entry of one of the keys that has not expired.
abbrev pub holds_mark : ℕ → List MarkKey → Mark → Bool
holds_mark now keys m = any (mark_key_eq m.key) keys && ltb now m.expires_at

abbrev pub exists_mark : List MarkKey → World → Bool
exists_mark keys w = any (holds_mark w.clock keys) w.revocations

unfoldable pub revocation_keys : (jti session_id : IdText) → List MarkKey
revocation_keys jti blank = of_token jti ∷ []
revocation_keys jti session_id = of_token jti ∷ of_session session_id ∷ []

unfoldable pub is_revoked : (jti session_id : IdText) → M Bool
unfolding revocation_keys
is_revoked jti session_id = call >> gets (exists_mark (revocation_keys jti session_id))
