-- ===== src/Admin/Tenants.antt =====
-- The tenants and subscriptions of apps/api/src/admin/admin.service.ts.
use tool_messager.Prelude.{
  Bool, Exec, any, false, ltb, modify, none, read, require, require_some, some, true, update_where,
  ℕ, ◌&&◌, ◌==◌, ◌>>=◌, ◌>>◌,
}
use tool_messager.Shared.{LifecycleStatus, subscription_lifecycle_status}
use tool_messager.Store.{
  AuditAction, Campaign, Db, Subscription, SubscriptionStatus, TenantStatus, Workspace, is_none,
  latest_subscription, subscription_extended, tenant_activated, tenant_archived,
  tenant_was_suspended, workspace_of,
}
use tool_messager.Policy.{set_subscription_status}
use tool_messager.Workspaces.{ServiceError, conflict, not_found}
use tool_messager.Admin.{add_admin_audit, pause_campaigns}

abbrev pub set_suspension : (now : ℕ) → Bool → Workspace → Workspace
set_suspension now true w = record w { status = TenantStatus.suspended; suspended_at = some now }
set_suspension now false w = record w { status = TenantStatus.active; suspended_at = none }

abbrev status_of_life : LifecycleStatus → SubscriptionStatus
status_of_life LifecycleStatus.active = SubscriptionStatus.active
status_of_life LifecycleStatus.expiring = SubscriptionStatus.expiring
status_of_life LifecycleStatus.expired = SubscriptionStatus.expired

-- Whatever status it had, a subscription is set back to what its end says when the tenant is activated.
abbrev suspension_status : (now : ℕ) → Bool → Subscription → SubscriptionStatus
suspension_status now true s = SubscriptionStatus.suspended
suspension_status now false s = status_of_life (subscription_lifecycle_status s.end_at now)

unfoldable pub update_workspace : ℕ → (Workspace → Workspace) → Db → Db
update_workspace id f db = record db { workspaces = update_where (λ w. w.id == id) f db.workspaces }

unfoldable pub update_subscription : ℕ → (Subscription → Subscription) → Db → Db
update_subscription id f db = record db {
  subscriptions = update_where (λ s. s.id == id) f db.subscriptions;
}

unfoldable pub suspend_subscription : (now workspace : ℕ) → Bool → Db → Db
unfolding update_subscription subscription_lifecycle_status
suspend_subscription now workspace stop db = elim (latest_subscription db workspace) [
  | none ↦ db
  | some s ↦ update_subscription s.id (set_subscription_status (suspension_status now stop s)) db
]

abbrev pub is_campaign_of_tenant : ℕ → Campaign → Bool
is_campaign_of_tenant workspace c = c.workspace_id == workspace

pause_if : Bool → (workspace : ℕ) → Db → Db
unfolding pause_campaigns
pause_if true workspace db = pause_campaigns (is_campaign_of_tenant workspace) db
pause_if false workspace db = db

abbrev suspension_audit : Bool → AuditAction
suspension_audit true = tenant_was_suspended
suspension_audit false = tenant_activated

unfoldable pub set_tenant_status :
    (now admin workspace : ℕ) → (stop : Bool) → Exec Db ServiceError (Unit {0})
unfolding pause_if update_workspace
set_tenant_status now admin workspace stop = do
  w ← read (λ db. workspace_of db workspace)
  w ← require_some w not_found
  modify (update_workspace workspace (set_suspension now stop))
  modify (suspend_subscription now workspace stop)
  modify (pause_if stop workspace)
  modify (add_admin_audit (some workspace) admin (suspension_audit stop) workspace)

abbrev archived_workspace : (now : ℕ) → Workspace → Workspace
archived_workspace now w = record w {
  status = TenantStatus.archived;
  deleted_at = some now;
  suspended_at = some now;
}

unfoldable pub archive_tenant : (now admin workspace : ℕ) → Exec Db ServiceError (Unit {0})
archive_tenant now admin workspace = do
  known ← read (λ db. any (λ w. w.id == workspace && is_none w.deleted_at) db.workspaces)
  modify (λ db. record db {
    workspaces =
        update_where (λ w. w.id == workspace && is_none w.deleted_at) (archived_workspace now)
          db.workspaces;
  })
  require known not_found
  modify (add_admin_audit (some workspace) admin tenant_archived workspace)

abbrev extended : (now end_at : ℕ) → Subscription → Subscription
extended now end_at s = record s {
  end_at = end_at;
  status = status_of_life (subscription_lifecycle_status end_at now);
}

unfoldable pub extend_subscription :
    (now admin workspace end_at : ℕ) → Exec Db ServiceError (Unit {0})
unfolding update_subscription subscription_lifecycle_status
extend_subscription now admin workspace end_at = do
  s ← read (λ db. latest_subscription db workspace)
  s ← require_some s not_found
  require (ltb s.start_at end_at) conflict
  modify (update_subscription s.id (extended now end_at))
  modify (add_admin_audit (some workspace) admin subscription_extended s.id)
