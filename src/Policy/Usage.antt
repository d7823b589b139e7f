-- ===== src/Policy/Usage.antt =====
-- The report of what a tenant uses (`usage` of apps/api/src/common/subscription-policy.service.ts).
use tool_messager.Prelude.{
  Bool, Exec, List, [], count_where, if◌then◌else◌, read, return, ℕ, ◌&&◌, ◌+◌, ◌==◌, ◌>>=◌, ◌∷◌,
}
use tool_messager.Store.{
  Db, MediaAsset, PlanCode, SubscriptionStatus, day_start, is_counted_member, is_none, month_start,
  outbound_since,
}
use tool_messager.Policy.{
  Entitlements, PolicyError, live_accounts, live_campaigns, live_contacts, subscription_snapshot,
}

-- `{ used, limit }`
pub record Share : Type 0 where
  pub used : ℕ
  pub limit : ℕ

pub record UsageReport : Type 0 where
  pub plan : PlanCode
  pub status : SubscriptionStatus
  pub start_at : ℕ
  pub end_at : ℕ
  pub users : Share
  pub accounts : Share
  pub contacts : Share
  pub campaigns : Share
  pub messages_today : Share
  pub messages_month : Share
  pub storage : Share
  pub automation : Bool
  pub analytics : Bool
  pub api : Bool

abbrev pub live_users : Db → ℕ → ℕ
live_users db id = count_where (λ m. m.workspace_id == id && is_counted_member m.status) db.members

-- `_sum: { size: true }` of the rows that are not deleted; the sum of no rows is 0.
unfoldable pub stored_bytes : (workspace : ℕ) → List MediaAsset → ℕ
stored_bytes workspace [] = 0
stored_bytes workspace (m ∷ ms) =
    let rest = stored_bytes workspace ms in
    if m.workspace_id == workspace && is_none m.deleted_at then m.size + rest else rest

abbrev pub report_of : (now id : ℕ) → Entitlements → Db → UsageReport
report_of now id e db = record {
  plan = e.plan_code;
  status = e.subscription_status;
  start_at = e.subscription_start;
  end_at = e.subscription_end;
  users = record { used = live_users db id; limit = e.limits.max_users };
  accounts = record { used = live_accounts db id; limit = e.limits.max_zalo_accounts };
  contacts = record { used = live_contacts db id; limit = e.limits.max_contacts };
  campaigns = record { used = live_campaigns db id; limit = e.limits.max_campaigns };
  messages_today = record {
    used = outbound_since db id (day_start now);
    limit = e.limits.max_messages_per_day;
  };
  messages_month = record {
    used = outbound_since db id (month_start now);
    limit = e.limits.max_messages_per_month;
  };
  storage = record { used = stored_bytes id db.media; limit = e.limits.max_storage_bytes };
  automation = e.limits.automation_enabled;
  analytics = e.limits.analytics_enabled;
  api = e.limits.api_enabled;
}

unfoldable pub usage : (now id : ℕ) → Exec Db PolicyError UsageReport
unfolding subscription_snapshot
usage now id = do
  e ← subscription_snapshot now id
  report ← read (report_of now id e)
  return report
