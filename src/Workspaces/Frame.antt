-- ===== src/Workspaces/Frame.antt =====
-- What the guards of apps/api/src/workspaces/workspaces.service.ts and the policy service leave as it
-- was, whether they let the caller pass or throw.
use tool_messager.Prelude.{List, Option, ap, arith, none, ℕ, ◌≡◌}
use tool_messager.Access.{Permission, WorkspaceRole}
use tool_messager.Store.{Db}
use tool_messager.Policy.{assert_outbound_allowed}
use tool_messager.Policy.Entitled.{entitlements_writes}
use tool_messager.Workspaces.{assert_membership, assert_permission, with_policy}

-- Entering a workspace changes at most the audit log.
pub assert_membership_writes :
    (now user workspace : ℕ) (roles : Option (List WorkspaceRole)) (db : Db)
    → (assert_membership now user workspace roles db).1
      ≡ record db { audits = (assert_membership now user workspace roles db).1.audits }
unfolding assert_membership
assert_membership_writes now user workspace roles db = ground arith

pub assert_permission_writes :
    (now user workspace : ℕ) (p : Permission) (db : Db)
    → (assert_permission now user workspace p db).1
      ≡ record db { audits = (assert_permission now user workspace p db).1.audits }
unfolding assert_permission
assert_permission_writes now user workspace p db =
    ground (arith, assert_membership_writes now user workspace none db)

-- A policy check changes at most the subscriptions.
pub outbound_check_writes :
    (now workspace additional : ℕ) (db : Db)
    → (with_policy (assert_outbound_allowed now workspace additional) db).1 ≡ record db {
      subscriptions =
          (with_policy (assert_outbound_allowed now workspace additional) db).1.subscriptions;
    }
unfolding with_policy assert_outbound_allowed
outbound_check_writes now workspace additional db =
    ground (arith, entitlements_writes now db workspace)

pub assert_permission-campaigns :
    (now user workspace : ℕ) (p : Permission) (db : Db)
    → (assert_permission now user workspace p db).1.campaigns ≡ db.campaigns
assert_permission-campaigns now user workspace p db =
    ap (λ (d : Db). d.campaigns) (assert_permission_writes now user workspace p db)

pub outbound_check-campaigns :
    (now workspace additional : ℕ) (db : Db)
    → (with_policy (assert_outbound_allowed now workspace additional) db).1.campaigns ≡ db.campaigns
outbound_check-campaigns now workspace additional db =
    ap (λ (d : Db). d.campaigns) (outbound_check_writes now workspace additional db)
