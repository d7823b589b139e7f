-- ===== src/Accounts/Oauth.antt =====
-- `begin` and `complete` of apps/api/src/accounts/zalo-oauth.service.ts: a login at Zalo that connects
-- an official account to the workspace in which it began.
use tool_messager.Prelude.{
  Bool, Exec, Option, Text, [], count_where, delete_where, false, find_first, if◌then◌else◌,
  is_some, ltb, modify, none, not, read, require, require_some, return, some, text_eq, update_where,
  ℕ, ◌&&◌, ◌*◌, ◌++◌, ◌+◌, ◌==◌, ◌>>=◌, ◌>>◌, ◌||◌, ◌∷◌,
}
use tool_messager.Shared.{same_platform, zalo}
use tool_messager.Zalo.{
  AuthorizationUrl, ZaloEnv, ZaloOaInfo, ZaloTokenSet, callback_url, create_authorization_url,
  first_given, non_empty, zalo_adapter,
}
use tool_messager.Zalo.Grants.{authenticate_code}
use tool_messager.Zalo.Calls.{get_account_info}
use tool_messager.Store.{
  AccountMetadata, Credential, Db, OauthState, SocialAccount, connected, is_none, zalo_oa_connected,
}
use tool_messager.Policy.{assert_account_capacity}
use tool_messager.Workspaces.{
  ServiceError, add_audit, assert_membership, bad_request, internal_error, service_unavailable,
  with_policy,
}
use tool_messager.Accounts.{OauthEnv, is_account_key, management_roles, successful, update_account}

abbrev pub state_lifetime : ℕ
state_lifetime = 600000

abbrev one_day : ℕ
one_day = 86400000

-- The states that `begin` deletes: expired ones, and used ones that are a day old.
abbrev pub is_stale_state : (now : ℕ) → OauthState → Bool
is_stale_state now s =
    ltb s.expires_at now || (is_some s.used_at && ltb (s.created_at + one_day) now)

abbrev pub begun_state :
    OauthEnv → (now id user workspace : ℕ) → (state verifier callback : Text) → OauthState
begun_state env now id user workspace state verifier callback = record {
  id = id;
  platform = zalo;
  state_hash = env.hash state;
  encrypted_code_verifier = env.encrypt verifier;
  redirect_uri = callback;
  workspace_id = workspace;
  user_id = user;
  expires_at = now + state_lifetime;
  used_at = none;
  created_at = now;
}

pub record Begun : Type 0 where
  pub authorization_url : AuthorizationUrl
  pub callback : Text
  pub expires_at : ℕ

abbrev configured_callback : ZaloEnv → Option Text
configured_callback env = if (zalo_adapter env).is_configured then callback_url env else none

-- `state` and `verifier` are what randomBytes gave.
unfoldable pub begin :
    OauthEnv → (now user workspace : ℕ) → (state verifier : Text) → Exec Db ServiceError Begun
unfolding zalo_adapter callback_url
begin env now user workspace state verifier = do
  assert_membership now user workspace (some management_roles)
  callback ← require_some (configured_callback env.zalo) service_unavailable
  correlated ← require_some (env.with_oauth_state callback state) internal_error
  modify (λ db. record db {
    next_id = db.next_id + 1;
    oauth_states =
        delete_where (is_stale_state now) db.oauth_states
        ++ begun_state env now db.next_id user workspace state verifier callback ∷ [];
  })
  url ←
      require_some
        (create_authorization_url env.zalo state (env.challenge verifier) (some correlated))
        internal_error
  return
      (record { authorization_url = url; callback = callback; expires_at = now + state_lifetime })

pub record OauthCallback : Type 0 where
  pub auth_code : Option Text
  pub oa_id : Option Text
  pub state : Option Text
  pub oauth_state : Option Text
  pub error : Option Text

abbrev pub is_open_state : (hash : Text) → OauthState → Bool
is_open_state hash s =
    same_platform s.platform zalo && text_eq s.state_hash hash && is_none s.used_at

abbrev pub is_claimable : (now id : ℕ) → OauthState → Bool
is_claimable now id s = s.id == id && is_none s.used_at && ltb now s.expires_at

abbrev pub use_state : (now : ℕ) → OauthState → OauthState
use_state now s = record s { used_at = some now }

abbrev pub matches_callback : ZaloEnv → Text → Bool
matches_callback env uri = elim (callback_url env) [ none ↦ false | some c ↦ text_eq uri c ]

unfoldable pub metadata_of : ZaloOaInfo → AccountMetadata
metadata_of i = record {
  description = non_empty i.description;
  cover = non_empty i.cover;
  is_verified = i.is_verified;
  oa_type = i.oa_type;
  category_name = non_empty i.category_name;
  follower_count = i.follower_count;
  package_name = non_empty i.package_name;
  package_valid_through_date = non_empty i.package_valid_through_date;
  package_auto_renew_date = non_empty i.package_auto_renew_date;
  linked_zca = non_empty i.linked_zca;
  admin_paused = none;
}

abbrev pub new_credential : OauthEnv → ZaloTokenSet → (version : ℕ) → Credential
new_credential env t version = record {
  encrypted_access_token = env.encrypt t.access_token;
  encrypted_refresh_token = some (env.encrypt t.refresh_token);
  token_version = version;
}

abbrev next_version : Option Credential → ℕ
next_version none = 1
next_version (some c) = c.token_version + 1

unfoldable pub reconnected :
    OauthEnv → (now : ℕ) → ZaloOaInfo → ZaloTokenSet → SocialAccount → SocialAccount
unfolding metadata_of
reconnected env now i t a = record a {
  display_name = i.name;
  username = i.oa_alias;
  avatar_url = i.avatar;
  status = connected;
  token_expires_at = some (now + t.expires_in * 1000);
  last_error_code = none;
  deleted_at = none;
  metadata = metadata_of i;
  credential = some (new_credential env t (next_version a.credential));
}

unfoldable pub connected_account :
    OauthEnv → (now id workspace : ℕ) → ZaloOaInfo → ZaloTokenSet → SocialAccount
unfolding metadata_of
connected_account env now id workspace i t = record {
  id = id;
  workspace_id = workspace;
  platform = zalo;
  platform_account_id = i.oaid;
  username = non_empty i.oa_alias;
  display_name = i.name;
  avatar_url = non_empty i.avatar;
  metadata = metadata_of i;
  status = connected;
  permissions = [];
  token_expires_at = some (now + t.expires_in * 1000);
  last_error_code = none;
  credential = some (new_credential env t 1);
  deleted_at = none;
}

-- The three writes of the transaction of saveConnectedAccount, for the account found before it.
unfoldable pub store_account :
    OauthEnv
    → (now user workspace : ℕ) → ZaloOaInfo
    → ZaloTokenSet
    → Option SocialAccount
    → Exec Db ServiceError ℕ
unfolding reconnected connected_account
store_account env now user workspace i t none = do
  id ← read (λ db. db.next_id)
  modify (λ db. record db {
    next_id = db.next_id + 1;
    accounts = db.accounts ++ connected_account env now id workspace i t ∷ [];
  })
  modify (add_audit workspace user zalo_oa_connected id)
  return id
store_account env now user workspace i t (some a) = do
  modify (update_account a.id (reconnected env now i t))
  modify (add_audit workspace user zalo_oa_connected a.id)
  return a.id

capacity_if_new : (now workspace : ℕ) → Option SocialAccount → Exec Db ServiceError (Unit {0})
capacity_if_new now workspace none = with_policy (assert_account_capacity now workspace)
capacity_if_new now workspace (some a) = return tt

unfoldable pub save_connected_account :
    OauthEnv → (now user workspace : ℕ) → ZaloOaInfo → ZaloTokenSet → Exec Db ServiceError ℕ
unfolding capacity_if_new
save_connected_account env now user workspace i t = do
  existing ← read (λ db. find_first (is_account_key workspace zalo i.oaid) db.accounts)
  capacity_if_new now workspace existing
  store_account env now user workspace i t existing

-- The state, claimed for this call: from here on nobody else can use it.
unfoldable pub claim_state : OauthEnv → (now : ℕ) → (state : Text) → Exec Db ServiceError OauthState
unfolding callback_url
claim_state env now state = do
  found ← read (λ db. find_first (is_open_state (env.hash state)) db.oauth_states)
  s ← require_some found bad_request
  require (ltb now s.expires_at) bad_request
  require (matches_callback env.zalo s.redirect_uri) bad_request
  claimed ← read (λ db. count_where (is_claimable now s.id) db.oauth_states)
  modify (λ db. record db {
    oauth_states = update_where (is_claimable now s.id) (use_state now) db.oauth_states;
  })
  require (claimed == 1) bad_request
  return s

abbrev pub names_other : Option Text → Text → Bool
names_other given_id oaid = elim (non_empty given_id) [
  | none ↦ false
  | some o ↦ not (text_eq o oaid)
]

-- What follows the claim; the id of the account is what the redirect carries.
unfoldable pub connect :
    OauthEnv → (now : ℕ) → OauthCallback → (auth_code : Text) → OauthState → Exec Db ServiceError ℕ
connect env now input auth_code s = do
  verifier ← require_some (env.decrypt s.encrypted_code_verifier) internal_error
  tokens ←
      require_some (successful (authenticate_code env.zalo env.api [] auth_code verifier).0)
        service_unavailable
  info ←
      require_some (successful (get_account_info env.zalo env.api [] (some tokens.access_token)).0)
        service_unavailable
  require (not (names_other input.oa_id info.oaid)) bad_request
  save_connected_account env now s.user_id s.workspace_id info tokens

abbrev pub state_given : OauthCallback → Option Text
state_given input = non_empty (first_given input.state input.oauth_state)

unfoldable pub complete : OauthEnv → (now : ℕ) → OauthCallback → Exec Db ServiceError ℕ
complete env now input = do
  require (not (is_some (non_empty input.error))) bad_request
  auth_code ← require_some (non_empty input.auth_code) bad_request
  state ← require_some (state_given input) bad_request
  s ← claim_state env now state
  connect env now input auth_code s
