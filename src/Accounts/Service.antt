-- ===== src/Accounts/Service.antt =====
-- apps/api/src/accounts/accounts.service.ts: the operations on the accounts of a workspace.
use tool_messager.Prelude.{
  Exec, List, Option, Text, [], find_first, get_or_else, modify, none, read, require_some, return,
  select_where, some, ℕ, ◌&&◌, ◌++◌, ◌+◌, ◌==◌, ◌>>=◌, ◌>>◌, ◌∷◌,
}
use tool_messager.Shared.{Platform}
use tool_messager.Access.{account_manage, account_read}
use tool_messager.Platform.{
  Adapter, OperationResult, account_not_configured, official_operation, refresh_data, success,
  sync_failed,
}
use tool_messager.Zalo.{first_given, non_empty}
use tool_messager.Store.{
  Db, JobStatus, SocialAccount, SyncJob, SyncType, account_created, account_disconnected,
  account_sync, disconnected, is_none, no_metadata,
}
use tool_messager.Policy.{assert_account_capacity}
use tool_messager.Workspaces.{ServiceError, add_audit, assert_permission, not_found, with_policy}
use tool_messager.Accounts.{OauthEnv, account_of, is_account_key, update_account}
use tool_messager.Accounts.Refresh.{refresh_expiring_for_workspace}

unfoldable pub list_accounts :
    OauthEnv → (now user workspace : ℕ) → Exec Db ServiceError (List SocialAccount)
list_accounts env now user workspace = do
  assert_permission now user workspace account_read
  refresh_expiring_for_workspace env now user workspace
  read (λ db. select_where (λ a. a.workspace_id == workspace && is_none a.deleted_at) db.accounts)

pub record CreateAccount : Type 0 where
  pub platform : Platform
  pub platform_account_id : Text
  pub display_name : Text
  pub username : Option Text

abbrev renamed : CreateAccount → SocialAccount → SocialAccount
renamed input a = record a {
  display_name = input.display_name;
  username = first_given (non_empty input.username) a.username;
  deleted_at = none;
}

abbrev unconnected : (id workspace : ℕ) → CreateAccount → SocialAccount
unconnected id workspace input = record {
  id = id;
  workspace_id = workspace;
  platform = input.platform;
  platform_account_id = input.platform_account_id;
  username = non_empty input.username;
  display_name = input.display_name;
  avatar_url = none;
  metadata = no_metadata;
  status = disconnected;
  permissions = [];
  token_expires_at = none;
  last_error_code = some account_not_configured;
  credential = none;
  deleted_at = none;
}

-- `socialAccount.upsert`, with the account's id.
store_created : (user workspace : ℕ) → CreateAccount → Option SocialAccount → Exec Db ServiceError ℕ
store_created user workspace input none = do
  id ← read (λ db. db.next_id)
  modify (λ db. record db {
    next_id = db.next_id + 1;
    accounts = db.accounts ++ unconnected id workspace input ∷ [];
  })
  modify (add_audit workspace user account_created id)
  return id
store_created user workspace input (some a) = do
  modify (update_account a.id (renamed input))
  modify (add_audit workspace user account_created a.id)
  return a.id

room_if_new : (now workspace : ℕ) → Option SocialAccount → Exec Db ServiceError (Unit {0})
room_if_new now workspace none = with_policy (assert_account_capacity now workspace)
room_if_new now workspace (some a) = return tt

unfoldable pub create_account : (now user workspace : ℕ) → CreateAccount → Exec Db ServiceError ℕ
unfolding store_created room_if_new
create_account now user workspace input = do
  assert_permission now user workspace account_manage
  existing ← read (λ db.
      find_first (is_account_key workspace input.platform input.platform_account_id) db.accounts)
  room_if_new now workspace existing
  store_created user workspace input existing

abbrev pub disconnected_account : SocialAccount → SocialAccount
disconnected_account a = record a {
  status = disconnected;
  token_expires_at = none;
  last_error_code = none;
  credential = none;
}

unfoldable pub disconnect_account : (now user workspace id : ℕ) → Exec Db ServiceError (Unit {0})
disconnect_account now user workspace id = do
  assert_permission now user workspace account_manage
  a ← read (λ db. account_of db workspace id)
  a ← require_some a not_found
  modify (update_account id disconnected_account)
  modify (add_audit workspace user account_disconnected id)

abbrev pub sync_row : (now workspace account : ℕ) → SyncType → OperationResult (Unit {0}) → SyncJob
sync_row now workspace account type r = record {
  workspace_id = workspace;
  account_id = account;
  sync_type = type;
  status = elim r.status [ success ↦ JobStatus.completed | _ ↦ JobStatus.failed ];
  last_run_at = now;
  error = elim r.status [ success ↦ none | _ ↦ some (get_or_else r.error_code sync_failed) ];
}

-- No adapter overrides refreshData.
unfoldable pub sync_account :
    (adapters : Platform → Adapter)
    → (now user workspace id : ℕ) → Exec Db ServiceError (OperationResult (Unit {0}))
sync_account adapters now user workspace id = do
  assert_permission now user workspace account_manage
  a ← read (λ db. account_of db workspace id)
  a ← require_some a not_found
  modify (λ db. record db {
    sync_jobs =
        db.sync_jobs
        ++ sync_row now workspace id account_sync
            (official_operation (adapters a.platform) refresh_data)
          ∷ [];
  })
  return (official_operation (adapters a.platform) refresh_data)
