-- ===== src/Admin/Stopped.antt =====
-- What the switches of apps/api/src/admin/admin.service.ts stop: the API's policy check
-- (apps/api/src/common/subscription-policy.service.ts), the worker's (apps/worker/src/main.ts), the
-- members' access (apps/api/src/workspaces/workspaces.service.ts) and the campaigns under way.
use tool_messager.Prelude.{Bool, any, not, some, true, ℕ, ◌&&◌}
use tool_messager.Store.{Campaign, Db, tenant_was_suspended}
use tool_messager.Admin.{add_admin_audit, is_under_way, pause_campaigns}
use tool_messager.Admin.Tenants.{
  is_campaign_of_tenant, set_suspension, suspend_subscription, update_workspace,
}

abbrev pub none_under_way : (Campaign → Bool) → Db → Bool
none_under_way p db = not (any (λ c. p c && is_under_way c.status) db.campaigns)

unfoldable suspended_state : (now admin workspace : ℕ) → Db → Db
suspended_state now admin workspace db =
    add_admin_audit (some workspace) admin tenant_was_suspended workspace (
      pause_campaigns (is_campaign_of_tenant workspace) (
        suspend_subscription now workspace true
          (update_workspace workspace (set_suspension now true) db)))
