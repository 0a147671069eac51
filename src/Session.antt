-- ===== src/Session.antt =====
-- internal/services/auth and internal/services/token: sessions. A session is a family of refresh
-- tokens, of which each refresh replaces the last by the next; its access tokens name it, and
-- Valkey marks the families and the access tokens that were ended early.
pub mod Tokens
pub mod Marks
pub mod Issue
pub mod Revoke
pub mod Refresh
pub mod Logout
pub mod Introspect
pub mod Prune
pub mod Pruned
pub mod Swept
pub mod Marked
pub mod Spec
pub mod Counts
pub mod Refines
pub mod Simulation
pub mod Operations
pub mod Services
pub mod Rotation
pub mod SignIn
pub mod Logouts
pub mod History
pub mod Ended
pub mod SignedOut
pub mod Refreshed
pub mod Fence
pub mod Reuse
pub mod Invariants
use maintmode.Base.{
  ℕ, zero, suc, ◌+◌, ◌-◌, ◌*◌, ◌/◌, ◌%◌, ◌^◌, ◌≤◌, ◌<◌, Ordering, compare, String, ◌≡◌, refl, sym,
  ap, subst, ◌∙◌, ◌≢◌, ◌⊎◌, inl, inr, Bool, true, false, not, ◌&&◌, ◌||◌, Option, none, some, List,
  [], ◌∷◌, ◌++◌, map, arith, str_eq, eq_iff, ltb, leb, ◌==◌, if◌then◌else◌, ==→≡, ==_self, ltb→lt,
  Bool-cases, Option-cases, from_ptr, is_some, length, take, filter, find, any, all, All, Member,
  here, there, length-take-le, contains, uniq, uniq_from,
}
use maintmode.Entity.Session.{AccessClaims}

-- `config.JWT`, as far as the services read it; durations are microseconds. A negative duration
-- is not modelled.
pub record Config : Type 0 where
  pub issuer : String
  pub access_token_ttl : ℕ
  pub session_max_lifetime : ℕ
  pub session_inactive_lifetime : ℕ
  pub refresh_token_ttl : ℕ
  pub refresh_token_grace_period : ℕ

-- What parsing and verifying the text of an access token answers.
pub data Parsed : Type 0 where
  parsed : AccessClaims → Parsed
  expired rejected : Parsed

-- Code outside the repository: random bytes as base64 text (the draws are numbered), SHA-256, the
-- signing and the parsing of tokens by golang-jwt (ES256, this issuer, an expiry required), and
-- the lower-casing, trimming and suffix test by which an address is a break-glass one.
pub record Crypto : Type 0 where
  pub random_text : ℕ → String
  pub hash_sha256 : String → String
  pub signed_string : AccessClaims → Option String
  pub parse_with_claims : (issuer : String) (now : ℕ) → String → Parsed
  pub is_break_glass_email : String → Bool

abbrev pub second : ℕ
second = 1_000_000

abbrev pub minute : ℕ
minute = 60 * second
