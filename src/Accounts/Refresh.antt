-- ===== src/Accounts/Refresh.antt =====
-- The renewal of Zalo tokens by apps/api/src/accounts/zalo-oauth.service.ts. One call runs at a time,
-- so the map of running refreshes, which joins concurrent calls for an account, is empty.
use tool_messager.Prelude.{
  Bool, Exec, Option, [], err, false, find_first, for_each, get_or_else, if◌then◌else◌, is_some,
  leb, ltb, none, not, ok, read, require_some, select_where, some, true, ℕ, ◌&&◌, ◌*◌, ◌++◌, ◌+◌,
  ◌==◌, ◌>>=◌, ◌>>◌, ◌∷◌,
}
use tool_messager.Shared.{same_platform, zalo}
use tool_messager.Access.{operator}
use tool_messager.Platform.{ErrorCode, OperationResult, zalo_refresh_failed}
use tool_messager.Zalo.{ZaloTokenSet, non_empty}
use tool_messager.Zalo.Grants.{refresh_access_token}
use tool_messager.Store.{
  Credential, Db, SocialAccount, connected, is_connected, is_none, reauth_required,
  zalo_token_refreshed,
}
use tool_messager.Workspaces.{
  ServiceError, add_audit, assert_membership, bad_request, internal_error, not_found,
  service_unavailable,
}
use tool_messager.Accounts.{OauthEnv, management_roles, successful, update_account}
use tool_messager.Accounts.Oauth.{new_credential}

abbrev pub refresh_threshold : ℕ
refresh_threshold = 3600000

abbrev pub is_zalo_account : (workspace id : ℕ) → SocialAccount → Bool
is_zalo_account workspace id a =
    a.id == id
    && a.workspace_id == workspace
    && same_platform a.platform zalo
    && is_none a.deleted_at

-- `account.tokenExpiresAt && account.tokenExpiresAt > now + refreshThresholdMs`
abbrev pub is_long_lived : (now : ℕ) → SocialAccount → Bool
is_long_lived now a = elim a.token_expires_at [
  | none ↦ false
  | some t ↦ ltb (now + refresh_threshold) t
]

abbrev pub renewed_account :
    OauthEnv → (now : ℕ) → Credential → ZaloTokenSet → SocialAccount → SocialAccount
renewed_account env now c t a = record a {
  status = connected;
  token_expires_at = some (now + t.expires_in * 1000);
  last_error_code = none;
  credential = some (new_credential env t (c.token_version + 1));
}

-- `result.errorCode ?? 'ZALO_REFRESH_FAILED'`
abbrev pub lost_account : Option ErrorCode → SocialAccount → SocialAccount
lost_account e a = record a {
  status = reauth_required;
  last_error_code = some (get_or_else e zalo_refresh_failed);
}

-- The row, by what Zalo gave and the error that it reported.
unfoldable pub answered_account :
    OauthEnv
    → (now : ℕ) → Credential
    → Option ErrorCode
    → Option ZaloTokenSet
    → SocialAccount
    → SocialAccount
answered_account env now c e none a = lost_account e a
answered_account env now c e (some t) a = renewed_account env now c t a

unfoldable pub store_answer :
    OauthEnv
    → (now user workspace : ℕ) → SocialAccount
    → Credential
    → Option ErrorCode
    → Option ZaloTokenSet
    → Exec Db ServiceError (Unit {0})
unfolding answered_account
store_answer env now user workspace a c e none db =
    (err service_unavailable, update_account a.id (answered_account env now c e none) db)
store_answer env now user workspace a c e (some t) db = (
  ok tt,
  add_audit workspace user zalo_token_refreshed a.id
      (update_account a.id (answered_account env now c e (some t)) db),
)

unfoldable pub store_renewed :
    OauthEnv
    → (now user workspace : ℕ) → SocialAccount
    → Credential
    → OperationResult ZaloTokenSet
    → Exec Db ServiceError (Unit {0})
unfolding store_answer
store_renewed env now user workspace a c r =
    store_answer env now user workspace a c r.error_code (successful r)

renew :
    OauthEnv
    → (now user workspace : ℕ) → SocialAccount
    → Credential
    → Exec Db ServiceError (Unit {0})
unfolding store_renewed
renew env now user workspace a c = do
  sealed ← require_some (non_empty c.encrypted_refresh_token) bad_request
  token ← require_some (env.decrypt sealed) internal_error
  store_renewed env now user workspace a c (refresh_access_token env.zalo env.api [] token).0

renew_if_due :
    OauthEnv
    → (now user workspace : ℕ) → (force : Bool) → SocialAccount
    → Credential
    → Exec Db ServiceError (Unit {0})
unfolding renew
renew_if_due env now user workspace force a c db =
    if not force && is_long_lived now a then (ok tt, db) else renew env now user workspace a c db

abbrev credential_of : Option SocialAccount → Option (SocialAccount × Credential)
credential_of none = none
credential_of (some a) = elim a.credential [ none ↦ none | some c ↦ some (a, c) ]

unfoldable pub do_refresh :
    OauthEnv → (now user workspace id : ℕ) → (force : Bool) → Exec Db ServiceError (Unit {0})
unfolding renew_if_due
do_refresh env now user workspace id force = do
  found ← read (λ db. credential_of (find_first (is_zalo_account workspace id) db.accounts))
  found ← require_some found not_found
  renew_if_due env now user workspace force found.0 found.1

unfoldable pub refresh_account :
    OauthEnv → (now user workspace id : ℕ) → Exec Db ServiceError (Unit {0})
refresh_account env now user workspace id = do
  assert_membership now user workspace (some (management_roles ++ operator ∷ []))
  do_refresh env now user workspace id true

abbrev pub is_expiring_account : (now workspace : ℕ) → SocialAccount → Bool
is_expiring_account now workspace a =
    a.workspace_id == workspace
    && same_platform a.platform zalo
    && is_connected a.status
    && is_none a.deleted_at
    && elim a.token_expires_at [ none ↦ false | some t ↦ leb t (now + refresh_threshold) ]
    && is_some a.credential

-- A promise of `Promise.allSettled`: its writes stand, its rejection is dropped.
abbrev settled : Exec Db ServiceError (Unit {0}) → Exec Db ServiceError (Unit {0})
settled m db = (ok tt, (m db).1)

-- The refreshes touch an account each, and are run in the order of the rows.
unfoldable pub refresh_expiring_for_workspace :
    OauthEnv → (now user workspace : ℕ) → Exec Db ServiceError (Unit {0})
refresh_expiring_for_workspace env now user workspace = do
  accounts ← read (λ db. select_where (is_expiring_account now workspace) db.accounts)
  for_each accounts (λ a. settled (do_refresh env now user workspace a.id false))
