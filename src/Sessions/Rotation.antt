-- ===== src/Sessions/Rotation.antt =====
-- apps/api/src/auth/auth.service.ts: the operations on the refresh tokens and the users.
use tool_messager.Prelude.{
  Bool, List, Option, Result, Text, [], any, count_where, err, false, find_first, if◌then◌else◌,
  is_some, leb, ltb, none, not, ok, select_where, some, text_eq, then_do, to_lower, trim,
  update_where, ℕ, ◌&&◌, ◌++◌, ◌+◌, ◌==◌, ◌||◌, ◌∷◌,
}
use tool_messager.Store.{is_none, text_is}
use tool_messager.Sessions.Tokens.{
  Auth, AuthDb, AuthEnv, AuthError, EmailToken, RefreshToken, TokenPair, User, add_auth_audit,
  concurrent_reuse, credentials_wrong, family_compromised, is_condemned, is_open_row, issue_tokens,
  live_user, login_failed, reset_invalid, reuse_revoked, revoke, revoke_compromised_family,
  session_inactive, token_by_hash, token_invalid, user_inactive, user_login, user_logout,
  user_logout_all, verification_invalid, wrong_type,
}

-- What a rotation that fails leaves: the family is revoked.
abbrev or_condemned :
    (now : ℕ)
    → RefreshToken
    → Result AuthError TokenPair × AuthDb
    → Result AuthError TokenPair × AuthDb
or_condemned now t (ok pair, s) = (ok pair, s)
or_condemned now t (err e, s) = (err e, revoke_compromised_family now t.user_id t.family_id s)

-- The row is revoked, where it still is open, and its successor is issued.
unfoldable pub rotate : AuthEnv → (now user : ℕ) → RefreshToken → Auth TokenPair
rotate env now user t s =
    if count_where (is_open_row t.id) s.tokens == 1
    then or_condemned now t (
        issue_tokens env now user t.session_name (some (t.family_id, t.id))
          (record s { tokens = update_where (is_open_row t.id) (revoke now) s.tokens }))
    else (
      err concurrent_reuse,
      revoke_compromised_family now t.user_id t.family_id
          (record s { tokens = update_where (is_open_row t.id) (revoke now) s.tokens }),
    )

unfoldable pub refresh_stored : AuthEnv → (now sub : ℕ) → RefreshToken → Auth TokenPair
refresh_stored env now sub t s =
    if is_some t.revoked_at
    then (err reuse_revoked, revoke_compromised_family now t.user_id t.family_id s)
    else (if any (is_condemned t.user_id t.family_id) s.tokens
        then (err family_compromised, revoke_compromised_family now t.user_id t.family_id s)
        else (if leb t.expires_at now then (err session_inactive, s) else elim (live_user s sub) [
          | none ↦ (err user_inactive, s)
          | some u ↦ if u.id == t.user_id then rotate env now u.id t s else (err user_inactive, s)
        ]))

unfoldable pub refresh : AuthEnv → (now : ℕ) → (token : Text) → Auth TokenPair
refresh env now token s = elim (env.verify token) [
  | none ↦ (err token_invalid, s)
  | some p ↦
      if not p.is_refresh
      then (err wrong_type, s)
      else elim (token_by_hash s (env.hash_token token)) [
        | none ↦ (err session_inactive, s)
        | some t ↦ refresh_stored env now p.sub t s
      ]
]

abbrev is_open_of : (user : ℕ) → RefreshToken → Bool
is_open_of user t = t.user_id == user && is_none t.revoked_at

unfoldable pub logout : AuthEnv → (now user : ℕ) → (token : Text) → AuthDb → AuthDb
logout env now user token s = add_auth_audit (some user) user_logout (record s {
  tokens =
      update_where (λ t. is_open_of user t && text_eq t.token_hash (env.hash_token token))
        (revoke now) s.tokens;
})

-- The number of sessions that were revoked, and the tables.
unfoldable pub logout_all : (now user : ℕ) → AuthDb → ℕ × AuthDb
logout_all now user s = (
  count_where (is_open_of user) s.tokens,
  add_auth_audit (some user) user_logout_all
      (record s { tokens = update_where (is_open_of user) (revoke now) s.tokens }),
)

unfoldable pub sessions : (now user : ℕ) → AuthDb → List RefreshToken
sessions now user s = select_where (λ t. is_open_of user t && ltb now t.expires_at) s.tokens

-- `input.email.trim().toLowerCase()`
abbrev normalized_email : Text → Text
normalized_email email = to_lower (trim email)

abbrev user_by_email : AuthDb → Text → Option User
user_by_email s email = find_first (λ u. text_eq u.email email) s.users

unfoldable pub login :
    AuthEnv → (now : ℕ) → (email password : Text) → (name : Option Text) → Auth TokenPair
login env now email password name s = elim (user_by_email s (normalized_email email)) [
  | none ↦ (err credentials_wrong, add_auth_audit none login_failed s)
  | some u ↦
      if is_some u.deleted_at || not (env.verify_password u.password_hash password)
      then (err credentials_wrong, add_auth_audit none login_failed s)
      else then_do (issue_tokens env now u.id name none s)
          (λ pair t. (ok pair, add_auth_audit (some u.id) user_login t))
]

abbrev set_reset : (now : ℕ) → Text → User → User
set_reset now hash u = record u {
  reset_token_hash = some hash;
  reset_token_expires_at = some (now + 3600000);
}

-- The raw token, where the email belongs to a user.
unfoldable pub forgot_password : AuthEnv → (now : ℕ) → Text → AuthDb → Option Text × AuthDb
forgot_password env now email s = elim (user_by_email s (normalized_email email)) [
  | none ↦ (none, s)
  | some u ↦ (
    some (env.random s.next_id),
    record s {
      next_id = s.next_id + 1;
      users =
          update_where (λ v. v.id == u.id) (set_reset now (env.hash_token (env.random s.next_id)))
            s.users;
    },
  )
]

abbrev later_than : (now : ℕ) → Option ℕ → Bool
later_than now none = false
later_than now (some at) = ltb now at

abbrev pub may_reset : (now : ℕ) → Text → User → Bool
may_reset now hash u = text_is u.reset_token_hash hash && later_than now u.reset_token_expires_at

abbrev set_password : Text → User → User
set_password hash u = record u {
  password_hash = hash;
  reset_token_hash = none;
  reset_token_expires_at = none;
}

unfoldable pub reset_password : AuthEnv → (now : ℕ) → (token password : Text) → Auth (Unit {0})
reset_password env now token password s =
    elim (find_first (may_reset now (env.hash_token token)) s.users) [
      | none ↦ (err reset_invalid, s)
      | some u ↦ (
        ok tt,
        record s {
          users =
              update_where (λ v. v.id == u.id) (set_password (env.hash_password password)) s.users;
          tokens = update_where (is_open_of u.id) (revoke now) s.tokens;
        },
      )
    ]

unfoldable pub request_email_verification : AuthEnv → (now user : ℕ) → AuthDb → Text × AuthDb
request_email_verification env now user s = (
  env.random s.next_id,
  record s {
    next_id = s.next_id + 1;
    email_tokens =
        s.email_tokens
        ++ record {
          id = s.next_id;
          user_id = user;
          token_hash = env.hash_token (env.random s.next_id);
          expires_at = now + 86400000;
          used_at = none;
        }
          ∷ [];
  },
)

abbrev use_token : (now : ℕ) → EmailToken → EmailToken
use_token now t = record t { used_at = some now }

abbrev set_verified : (now : ℕ) → User → User
set_verified now u = record u { email_verified_at = some now }

unfoldable pub verify_email : AuthEnv → (now : ℕ) → (token : Text) → Auth (Unit {0})
verify_email env now token s =
    elim (find_first (λ t. text_eq t.token_hash (env.hash_token token)) s.email_tokens) [
      | none ↦ (err verification_invalid, s)
      | some t ↦
          if is_some t.used_at || leb t.expires_at now then (err verification_invalid, s) else (
            ok tt,
            record s {
              email_tokens = update_where (λ r. r.id == t.id) (use_token now) s.email_tokens;
              users = update_where (λ u. u.id == t.user_id) (set_verified now) s.users;
            },
          )
    ]
