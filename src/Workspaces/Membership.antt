-- ===== src/Workspaces/Membership.antt =====
-- Whom apps/api/src/workspaces/workspaces.service.ts lets in, and what it writes when it does.
use tool_messager.Prelude.{arith, none, ok, true, ℕ, ◌≡◌}
use tool_messager.Access.{Permission, WorkspaceRole, has_permission}
use tool_messager.Store.{Db}
use tool_messager.Workspaces.{assert_membership, assert_permission}

-- A refused call writes nothing, and a permitted one changes nothing but the audit log.
pub assert_permission_sound :
    (now user workspace : ℕ) (p : Permission) (db : Db) {role : WorkspaceRole} {db' : Db}
    → assert_permission now user workspace p db ≡ (ok role, db')
    → (has_permission role p ≡ true)
      × (assert_membership now user workspace none db ≡ (ok role, db'))
unfolding assert_permission
assert_permission_sound now user workspace p db h = ground arith
