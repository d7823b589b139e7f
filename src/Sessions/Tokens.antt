-- ===== src/Sessions/Tokens.antt =====
-- apps/api/src/auth/auth.service.ts: refresh token rotation, logout, password reset and the
-- verification of an email address. The tables that the service keeps are a state of their own. The
-- JWT library, argon2, SHA-256 and the random generator are parameters.
use tool_messager.Prelude.{
  Bool, Exec, List, Option, Text, [], err, find_first, if◌then◌else◌, is_some, ltb, none, ok, some,
  text_eq, update_where, ℕ, ◌&&◌, ◌*◌, ◌++◌, ◌+◌, ◌==◌, ◌||◌, ◌∷◌,
}
use tool_messager.Store.{is_none}

pub record RefreshToken : Type 0 where
  pub id : ℕ
  pub user_id : ℕ
  pub family_id : Text
  pub parent_id : Option ℕ
  pub token_hash : Text
  pub session_name : Option Text
  pub expires_at : ℕ
  pub revoked_at : Option ℕ
  pub reuse_detected_at : Option ℕ

pub record User : Type 0 where
  pub id : ℕ
  pub email : Text
  pub password_hash : Text
  pub reset_token_hash : Option Text
  pub reset_token_expires_at : Option ℕ
  pub email_verified_at : Option ℕ
  pub deleted_at : Option ℕ

pub record EmailToken : Type 0 where
  pub id : ℕ
  pub user_id : ℕ
  pub token_hash : Text
  pub expires_at : ℕ
  pub used_at : Option ℕ

pub data AuthAction : Type 0 where
  reuse_detected user_logout user_logout_all user_login login_failed : AuthAction

pub record AuthAudit : Type 0 where
  pub user_id : Option ℕ
  pub action : AuthAction

pub record AuthDb : Type 0 where
  pub next_id : ℕ
  pub users : List User
  pub tokens : List RefreshToken
  pub email_tokens : List EmailToken
  pub audits : List AuthAudit

-- The payload of a refresh token that verifies: `sub` and whether `type` is 'refresh'.
pub record TokenPayload : Type 0 where
  pub sub : ℕ
  pub is_refresh : Bool

-- `random n` is what `randomBytes` gives when the tables' next id is n; `access_ttl` and
-- `refresh_days` are the numbers in the environment, none if they are no safe integers.
pub record AuthEnv : Type 0 where
  pub hash_token : Text → Text
  pub verify : Text → Option TokenPayload
  pub verify_password : (hash password : Text) → Bool
  pub hash_password : Text → Text
  pub random : ℕ → Text
  pub sign : (user : ℕ) → (family nonce : Text) → Text
  pub access_ttl : Option ℕ
  pub refresh_days : Option ℕ

pub data AuthError : Type 0 where
  token_invalid wrong_type session_inactive reuse_revoked family_compromised : AuthError
  user_inactive concurrent_reuse ttl_invalid reset_invalid verification_invalid : AuthError
  credentials_wrong : AuthError

abbrev pub Auth : Type 0 → Type 0
Auth A = Exec AuthDb AuthError A

pub record TokenPair : Type 0 where
  pub refresh_token : Text
  pub expires_in_seconds : ℕ

abbrev between : (low high : ℕ) → Option ℕ → Option ℕ
between low high none = none
between low high (some n) = if ltb n low || ltb high n then none else some n

-- At least a minute and at most a day.
unfoldable pub access_ttl_seconds : AuthEnv → Option ℕ
access_ttl_seconds env = between 60 86400 env.access_ttl

unfoldable pub refresh_ttl_days : AuthEnv → Option ℕ
refresh_ttl_days env = between 1 365 env.refresh_days

abbrev pub add_auth_audit : Option ℕ → AuthAction → AuthDb → AuthDb
add_auth_audit user action s = record s {
  audits = s.audits ++ record { user_id = user; action = action } ∷ [];
}

abbrev pub new_token :
    (now id user days : ℕ)
    → (family hash : Text) → (parent : Option ℕ) → (name : Option Text) → RefreshToken
new_token now id user days family hash parent name = record {
  id = id;
  user_id = user;
  family_id = family;
  parent_id = parent;
  token_hash = hash;
  session_name = name;
  expires_at = now + days * 86400000;
  revoked_at = none;
  reuse_detected_at = none;
}

-- Without a rotation the token begins a family.
abbrev pub family_of : AuthEnv → ℕ → Option (Text × ℕ) → Text
family_of env seed none = env.random seed
family_of env seed (some (family, parent)) = family

abbrev pub parent_of : Option (Text × ℕ) → Option ℕ
parent_of none = none
parent_of (some (family, parent)) = some parent

abbrev pub signed_token : AuthEnv → (user : ℕ) → Option (Text × ℕ) → AuthDb → Text
signed_token env user rotation s =
    env.sign user (family_of env s.next_id rotation) (env.random s.next_id)

unfoldable pub store_token :
    AuthEnv → (now user days : ℕ) → (name : Option Text) → Option (Text × ℕ) → AuthDb → AuthDb
store_token env now user days name rotation s = record s {
  next_id = s.next_id + 1;
  tokens =
      s.tokens
      ++ new_token now s.next_id user days (family_of env s.next_id rotation)
          (env.hash_token (signed_token env user rotation s)) (parent_of rotation) name
        ∷ [];
}

unfoldable pub issue_tokens :
    AuthEnv → (now user : ℕ) → (name : Option Text) → Option (Text × ℕ) → Auth TokenPair
issue_tokens env now user name rotation s = elim (refresh_ttl_days env) [
  | none ↦ (err ttl_invalid, s)
  | some days ↦ elim (access_ttl_seconds env) [
    | none ↦ (err ttl_invalid, s)
    | some ttl ↦ (
      ok record { refresh_token = signed_token env user rotation s; expires_in_seconds = ttl },
      store_token env now user days name rotation s,
    )
  ]
]

abbrev pub in_family : (user : ℕ) → Text → RefreshToken → Bool
in_family user family t = t.user_id == user && text_eq t.family_id family

abbrev pub condemn : (now : ℕ) → RefreshToken → RefreshToken
condemn now t = record t { revoked_at = some now; reuse_detected_at = some now }

unfoldable pub revoke_compromised_family : (now user : ℕ) → Text → AuthDb → AuthDb
revoke_compromised_family now user family s =
    add_auth_audit (some user) reuse_detected
      (record s { tokens = update_where (in_family user family) (condemn now) s.tokens })

abbrev pub token_by_hash : AuthDb → Text → Option RefreshToken
token_by_hash s h = find_first (λ t. text_eq t.token_hash h) s.tokens

abbrev pub is_condemned : (user : ℕ) → Text → RefreshToken → Bool
is_condemned user family t = in_family user family t && is_some t.reuse_detected_at

abbrev pub revoke : (now : ℕ) → RefreshToken → RefreshToken
revoke now t = record t { revoked_at = some now }

abbrev pub is_open_row : (id : ℕ) → RefreshToken → Bool
is_open_row id t = t.id == id && is_none t.revoked_at

abbrev pub live_user : AuthDb → ℕ → Option User
live_user s id = find_first (λ u. u.id == id && is_none u.deleted_at) s.users
