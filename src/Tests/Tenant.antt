-- ===== src/Tests/Tenant.antt =====
-- Policy, workspaces and campaigns at concrete inputs.
use tool_messager.Prelude.{
  arith, count_where, err, false, find_first, if◌then◌else◌, leb, ltb, none, ok, refl, some, true,
  update_where, ◌+◌, ◌==◌, ◌≡◌, ◌≤◌, ◌⊎◌,
}
use tool_messager.Access.{WorkspaceRole, campaign_approve, has_permission, message_send, owner}
use tool_messager.Store.{
  Campaign, Subscription, SubscriptionStatus, Workspace, day_start, find_last, is_outbound_paused,
  latest_subscription, month_start, outbound_since, update_campaign, workspace_of,
}
use tool_messager.Policy.Usage.{UsageReport, usage}
use tool_messager.Policy.Report.{usage_tells_checks}
use tool_messager.Policy.{
  Entitlements, account_quota_exceeded, assert_account_capacity, assert_campaign_capacity,
  assert_contact_capacity, assert_outbound_allowed, campaign_quota_exceeded, contact_quota_exceeded,
  effective_status, entitlements, entitlements_of, lapsed, override_bytes, override_number,
  set_subscription_status,
}
use tool_messager.Policy.Entitled.{IsEntitled, entitlements_sound, entitlements_writes}
use tool_messager.Policy.Quota.{outbound_allowed_sound}
use tool_messager.Workspaces.{
  assert_membership, assert_permission, is_active_membership, membership_of, role_allowed,
}
use tool_messager.Workspaces.Membership.{assert_permission_sound}
use tool_messager.Campaigns.{approve, campaign_of}
use tool_messager.Campaigns.Diagram.{Edge, approves, perform}
use tool_messager.Campaigns.Life.{clearance_needs_approval, perform_follows-Edge}
use tool_messager.Worker.{outbound_block_reason}
use tool_messager.Worker.Gate.{worker_allows-api_allows}
use tool_messager.Tests.Samples.{quiet_db, subscription, tenant_workspace}
use tool_messager.Tests.Situations.{approved_db, with_subscriptions}

abbrev granted : Entitlements
granted = entitlements_of 20 subscription 1000

entitlements_sound_example :
    (w : Workspace) × (s : Subscription) × IsEntitled 20 quiet_db 1 w s
    × (quiet_db ≡ quiet_db)
    × (granted.subscription_end ≡ s.end_at)
unfolding entitlements workspace_of find_first latest_subscription find_last override_bytes
entitlements_sound_example = entitlements_sound 20 quiet_db 1 {e = granted} refl

entitlements_writes_example :
    ((entitlements 20 1 quiet_db).1 ≡ quiet_db)
    ⊎ ((s : Subscription) × (latest_subscription quiet_db 1 ≡ some s)
        × (effective_status s 20 ≡ SubscriptionStatus.expired)
        × (entitlements 20 1 quiet_db ≡ (
          err lapsed,
          with_subscriptions (
              update_where
                (λ r. r.id == s.id)
                (set_subscription_status SubscriptionStatus.expired)
                quiet_db.subscriptions),
        )))
entitlements_writes_example = entitlements_writes 20 quiet_db 1

outbound_allowed_sound_example :
    (is_outbound_paused quiet_db.control ≡ false)
    × (entitlements 20 1 quiet_db ≡ (ok granted, quiet_db))
    × (outbound_since quiet_db 1 (day_start 20) + 1 ≤ granted.limits.max_messages_per_day)
    × (outbound_since quiet_db 1 (month_start 20) + 1 ≤ granted.limits.max_messages_per_month)
    × (quiet_db ≡ quiet_db)
unfolding assert_outbound_allowed entitlements workspace_of find_first latest_subscription find_last
    override_bytes override_number outbound_since count_where
outbound_allowed_sound_example = outbound_allowed_sound 20 quiet_db 1 1 {e = granted} refl

worker_allows-api_allows_example : assert_outbound_allowed 20 1 1 quiet_db ≡ (ok granted, quiet_db)
unfolding workspace_of find_first latest_subscription find_last override_bytes outbound_block_reason
    override_number outbound_since count_where
worker_allows-api_allows_example =
    worker_allows-api_allows 20 quiet_db 1 1 tenant_workspace subscription {bytes = 1000} refl refl
      (ground arith) refl refl

assert_permission_sound_example :
    (has_permission owner message_send ≡ true)
    × (assert_membership 20 2 1 none quiet_db ≡ (ok owner, quiet_db))
unfolding assert_permission assert_membership is_active_membership membership_of find_first
    role_allowed has_permission
assert_permission_sound_example =
    assert_permission_sound 20 2 1 message_send quiet_db {role = owner} refl

perform_follows-Edge_example :
    (c : Campaign) × (c' : Campaign) × (campaign_of quiet_db 1 8 ≡ some c)
    × (campaign_of approved_db 1 8 ≡ some c')
    × Edge approves c.status c'.status
unfolding perform approve assert_permission assert_membership is_active_membership membership_of
    find_first role_allowed has_permission campaign_of update_campaign update_where
perform_follows-Edge_example =
    perform_follows-Edge true 20 2 1 8 approves quiet_db {db' = approved_db} refl

clearance_needs_approval_example :
    (approves ≡ approves)
    × ((role : WorkspaceRole) × ((assert_permission 20 2 1 campaign_approve quiet_db).0 ≡ ok role))
unfolding perform approve assert_permission assert_membership is_active_membership membership_of
    find_first role_allowed has_permission campaign_of update_campaign update_where
clearance_needs_approval_example =
    clearance_needs_approval true 20 2 1 8 approves quiet_db {db' = approved_db} refl refl refl refl
      refl

usage_tells_checks_example :
    (r : UsageReport) × (usage 20 1 quiet_db ≡ (ok r, quiet_db))
    × (assert_account_capacity 20 1 quiet_db ≡ (
      if leb r.accounts.limit r.accounts.used then err account_quota_exceeded else ok tt,
      quiet_db,
    ))
    × (assert_campaign_capacity 20 1 quiet_db ≡ (
      if leb r.campaigns.limit r.campaigns.used then err campaign_quota_exceeded else ok tt,
      quiet_db,
    ))
    × (assert_contact_capacity 20 1 3 quiet_db ≡ (
      if ltb r.contacts.limit (r.contacts.used + 3) then err contact_quota_exceeded else ok tt,
      quiet_db,
    ))
unfolding entitlements workspace_of find_first latest_subscription find_last override_bytes
usage_tells_checks_example = usage_tells_checks 20 1 3 quiet_db {e = granted} refl
