-- ===== src/Accounts.antt =====
-- apps/api/src/accounts/accounts.service.ts and zalo-oauth.service.ts: the platform accounts of a
-- workspace. `Oauth` is the login at Zalo, `Refresh` the renewal of its tokens, `Service` the other
-- operations, `Intake` apps/api/src/accounts/zalo-webhook.service.ts. The rows of PlatformCredential
-- stand in their accounts.
pub mod Oauth
pub mod Refresh
pub mod Service
pub mod Intake
pub mod Received
pub mod Withdrawal
pub mod Login
pub mod Connected
pub mod Renewal
use tool_messager.Prelude.{
  Bool, List, Option, Text, [], find_first, none, text_eq, update_where, ℕ, ◌&&◌, ◌==◌, ◌∷◌,
}
use tool_messager.Shared.{Platform, same_platform}
use tool_messager.Access.{WorkspaceRole, admin, manager, owner}
use tool_messager.Platform.{OperationResult, success}
use tool_messager.Zalo.{ZaloApi, ZaloEnv}
use tool_messager.Store.{Db, SocialAccount, is_none}

-- Hashes and ciphers of node:crypto, the Zalo API, and URLSearchParams.set on a URL; `none` where the
-- library throws.
pub record OauthEnv : Type 0 where
  pub zalo : ZaloEnv
  pub api : ZaloApi
  pub hash : Text → Text
  pub challenge : Text → Text
  pub encrypt : Text → Text
  pub decrypt : Text → Option Text
  pub with_oauth_state : (url state : Text) → Option Text

-- `result.status === 'SUCCESS' && result.data`
abbrev pub successful : {T : Type 0} → OperationResult T → Option T
successful r = elim r.status [ success ↦ r.payload | _ ↦ none ]

abbrev pub management_roles : List WorkspaceRole
management_roles = owner ∷ admin ∷ manager ∷ []

-- `findUnique({ workspaceId_platform_platformAccountId })`, which finds deleted accounts too.
abbrev pub is_account_key :
    (workspace : ℕ) → Platform → (platform_account : Text) → SocialAccount → Bool
is_account_key workspace platform key a =
    a.workspace_id == workspace
    && same_platform a.platform platform
    && text_eq a.platform_account_id key

-- `findFirst({ id, workspaceId, deletedAt: null })`
unfoldable pub account_of : Db → (workspace id : ℕ) → Option SocialAccount
account_of db workspace id =
    find_first (λ a. a.id == id && a.workspace_id == workspace && is_none a.deleted_at) db.accounts

unfoldable pub update_account : ℕ → (SocialAccount → SocialAccount) → Db → Db
update_account id f db = record db { accounts = update_where (λ a. a.id == id) f db.accounts }
