-- ===== src/Entity/Session.antt =====
-- internal/entity: refresh_token.go, token.go and the break-glass address of auth_method.go.
use maintmode.Base.{ℕ, String, Bool, true, false, Option, List, ◌==◌}
use maintmode.Entity.User.{Role}

-- Raw tokens and their hashes are texts; instants are microseconds. The column `bound_ip`, which
-- no code reads, is left out.
pub record RefreshToken : Type 0 where
  pub token : String
  pub user_id : ℕ
  pub family : ℕ
  pub expires_at : ℕ
  pub session_started_at : ℕ
  pub grace_ttl : Option ℕ
  pub revoked : Bool
  pub replaced_by : Option String
  pub client_ip : String
  pub created_at : ℕ
  pub updated_at : Option ℕ

-- A text where an id is expected: empty, the canonical text of an id, or one that is no id. Other
-- spellings that `uuid.Parse` accepts count as no id: the claims are written by `UUID.String`.
pub data IdText : Type 0 where
  blank : IdText
  text_of : ℕ → IdText
  malformed : IdText

abbrev pub id_text_eq : IdText → IdText → Bool
id_text_eq blank blank = true
id_text_eq (text_of a) (text_of b) = a == b
id_text_eq malformed malformed = true
id_text_eq _ _ = false

-- With the registered claims that the service fills in; the dates are whole seconds.
pub record AccessClaims : Type 0 where
  pub user_name : String
  pub user_email : String
  pub user_roles : List Role
  pub session_id : IdText
  pub id : IdText
  pub subject : IdText
  pub issuer : String
  pub issued_at : ℕ
  pub expires_at : ℕ

pub record IntrospectReport : Type 0 where
  pub active : Bool
  pub jti : IdText
  pub subject : IdText
  pub email : String
  pub roles : List Role
  pub exp : ℕ

-- `session_id` is 0, the nil id, where the code leaves it out.
pub record TokenPair : Type 0 where
  pub access_token : String
  pub refresh_token : String
  pub expires_in : ℕ
  pub session_id : ℕ
  pub session_expires_at : ℕ
