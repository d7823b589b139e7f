-- ===== src/Workspaces.antt =====
-- apps/api/src/workspaces/workspaces.service.ts: who may enter a workspace, and with which rights.
-- `ServiceError` stands for the exceptions that the API's services throw.
pub mod Membership
pub mod Frame
use tool_messager.Prelude.{
  Bool, Exec, List, Option, Result, [], any, err, false, find_first, if◌then◌else◌, is_some, ltb,
  none, ok, require, return, some, true, ℕ, ◌&&◌, ◌++◌, ◌==◌, ◌>>=◌, ◌>>◌, ◌∷◌,
}
use tool_messager.Access.{
  Permission, WorkspaceRole, admin, has_permission, manager, operator, owner, viewer,
}
use tool_messager.Store.{
  AuditAction, Db, SupportSession, Workspace, WorkspaceMember, is_active_member, is_active_session,
  is_none, support_mode_access, workspace_of,
}
use tool_messager.Policy.{PolicyError}

pub data ServiceError : Type 0 where
  access_denied role_not_allowed support_not_allowed user_quota_exceeded : ServiceError
  permission_required : Permission → ServiceError
  refused_by_policy : PolicyError → ServiceError
  not_found : ServiceError
  conflict : ServiceError
  bad_request : ServiceError
  service_unavailable : ServiceError
  unauthorized : ServiceError
  unprocessable : ServiceError
  internal_error : ServiceError

-- A call of the policy service from another service.
unfoldable pub with_policy : {A : Type 0} → Exec Db PolicyError A → Exec Db ServiceError A
with_policy m db = wrap (m db)
  where
    wrap : {A : Type 0} → Result PolicyError A × Db → Result ServiceError A × Db
    wrap (ok a, t) = (ok a, t)
    wrap (err e, t) = (err (refused_by_policy e), t)

abbrev pub role_rank : WorkspaceRole → ℕ
role_rank owner = 0
role_rank admin = 1
role_rank manager = 2
role_rank operator = 3
role_rank viewer = 4

-- `!allowedRoles || allowedRoles.includes(role)`
unfoldable pub role_allowed : Option (List WorkspaceRole) → WorkspaceRole → Bool
role_allowed none role = true
role_allowed (some roles) role = any (λ r. role_rank r == role_rank role) roles

unfoldable pub membership_of : Db → (user workspace : ℕ) → Option WorkspaceMember
membership_of db user workspace =
    find_first (λ m. m.workspace_id == workspace && m.user_id == user) db.members

-- The workspace of a membership is read whether or not it is deleted.
abbrev is_open : Option Workspace → Bool
is_open none = false
is_open (some w) = is_none w.deleted_at && is_none w.suspended_at

unfoldable pub is_active_membership : Db → ℕ → Option WorkspaceMember → Bool
is_active_membership db workspace none = false
is_active_membership db workspace (some m) =
    is_active_member m.status && is_open (find_first (λ w. w.id == workspace) db.workspaces)

unfoldable pub support_session_of : ℕ → Db → (user workspace : ℕ) → Option SupportSession
support_session_of now db user workspace =
    find_first
      (λ s.
        s.admin_id == user
        && s.workspace_id == workspace
        && is_active_session s.status
        && ltb now s.expires_at
        && is_some (workspace_of db workspace))
      db.support_sessions

abbrev pub add_audit : (workspace user : ℕ) → AuditAction → ℕ → Db → Db
add_audit workspace user action resource db = record db {
  audits =
      db.audits
      ++ record {
        workspace_id = some workspace;
        user_id = user;
        action = action;
        resource_id = some resource;
      }
        ∷ [];
}

abbrev member_access :
    Option (List WorkspaceRole) → Option WorkspaceMember → Exec Db ServiceError WorkspaceRole
member_access roles none db = (err access_denied, db)
member_access roles (some m) db =
    if role_allowed roles m.role then (ok m.role, db) else (err role_not_allowed, db)

abbrev support_access :
    (user workspace : ℕ)
    → Option (List WorkspaceRole)
    → Option SupportSession
    → Exec Db ServiceError WorkspaceRole
support_access user workspace roles none db = (err access_denied, db)
support_access user workspace roles (some s) db =
    if role_allowed roles admin
    then (ok admin, add_audit workspace user support_mode_access s.id db)
    else (err support_not_allowed, db)

unfoldable pub assert_membership :
    (now user workspace : ℕ) → Option (List WorkspaceRole) → Exec Db ServiceError WorkspaceRole
assert_membership now user workspace roles db =
    let membership = membership_of db user workspace in
    if is_active_membership db workspace membership
    then member_access roles membership db
    else support_access user workspace roles (support_session_of now db user workspace) db

unfoldable pub assert_permission :
    (now user workspace : ℕ) → Permission → Exec Db ServiceError WorkspaceRole
assert_permission now user workspace p = do
  role ← assert_membership now user workspace none
  require (has_permission role p) (permission_required p)
  return role
