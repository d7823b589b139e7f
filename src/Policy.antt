-- ===== src/Policy.antt =====
-- apps/api/src/common/subscription-policy.service.ts: what a tenant's subscription allows. A service
-- call runs over the database at one instant `now`.
pub mod Usage
pub mod Report
pub mod Entitled
pub mod Quota
pub mod Windows
use tool_messager.Prelude.{
  Bool, Exec, Option, count_where, err, false, if◌then◌else◌, is_some, leb, ltb, not, number_of, ok,
  read, require, require_some, return, some, true, update_where, ℕ, ◌&&◌, ◌+◌, ◌==◌, ◌>>=◌, ◌>>◌,
  ◌||◌,
}
use tool_messager.Shared.{LifecycleStatus, subscription_lifecycle_status}
use tool_messager.Store.{
  Db, LimitKey, Limits, Overrides, PlanCode, Subscription, SubscriptionStatus, analytics_access,
  api_access, automation, boolean, campaign_limit, contact_limit, day_start, is_live_subscription,
  is_none, is_outbound_paused, is_tenant_active, latest_subscription, messages_per_day,
  messages_per_month, month_start, not_object, number, object, outbound_since, storage_bytes, text,
  users, workspace_of, zalo_accounts,
}

pub data PolicyError : Type 0 where
  tenant_not_found tenant_not_active no_subscription not_started lapsed : PolicyError
  disabled : SubscriptionStatus → PolicyError
  outbound_paused_globally daily_exceeded monthly_exceeded : PolicyError
  account_quota_exceeded contact_quota_exceeded campaign_quota_exceeded : PolicyError
  invalid_storage_override : PolicyError

pub record Entitlements : Type 0 where
  pub plan_code : PlanCode
  pub subscription_id : ℕ
  pub subscription_status : SubscriptionStatus
  pub subscription_start : ℕ
  pub subscription_end : ℕ
  pub limits : Limits

-- `override` at a number, at a flag and at a bigint, where BigInt throws on a text that is no number. The
-- overrides are written by the administration alone, whose requests (apps/api/src/admin/admin.dto.ts) let
-- only whole numbers from 0 pass, and no text: other numbers, and texts in another base or with a sign,
-- are outside the model.
unfoldable pub override_number : Overrides → LimitKey → ℕ → ℕ
override_number not_object key fallback = fallback
override_number (object f) key fallback = elim (f key) [ number n ↦ n | _ ↦ fallback ]

unfoldable pub override_flag : Overrides → LimitKey → Bool → Bool
override_flag not_object key fallback = fallback
override_flag (object f) key fallback = elim (f key) [ boolean b ↦ b | _ ↦ fallback ]

unfoldable pub override_bytes : Overrides → LimitKey → ℕ → Option ℕ
override_bytes not_object key fallback = some fallback
override_bytes (object f) key fallback = elim (f key) [
  | number n ↦ some n
  | text t ↦ number_of t
  | _ ↦ some fallback
]

abbrev status_of_lifecycle : LifecycleStatus → SubscriptionStatus
status_of_lifecycle LifecycleStatus.active = SubscriptionStatus.active
status_of_lifecycle LifecycleStatus.expiring = SubscriptionStatus.expiring
status_of_lifecycle LifecycleStatus.expired = SubscriptionStatus.expired

abbrev pub is_lifecycle_expired : LifecycleStatus → Bool
is_lifecycle_expired LifecycleStatus.expired = true
is_lifecycle_expired _ = false

unfoldable pub effective_status : Subscription → ℕ → SubscriptionStatus
unfolding subscription_lifecycle_status
effective_status s now =
    let lifecycle = subscription_lifecycle_status s.end_at now in
    if is_lifecycle_expired lifecycle
    then SubscriptionStatus.expired
    else (if is_live_subscription s.status then status_of_lifecycle lifecycle else s.status)

-- `effectiveStatus === 'SUSPENDED' || effectiveStatus === 'CANCELLED'`
abbrev pub is_disabled : SubscriptionStatus → Bool
is_disabled SubscriptionStatus.suspended = true
is_disabled SubscriptionStatus.cancelled = true
is_disabled _ = false

abbrev pub is_expired : SubscriptionStatus → Bool
is_expired SubscriptionStatus.expired = true
is_expired _ = false

pub set_subscription_status : SubscriptionStatus → Subscription → Subscription
set_subscription_status status s = record s { status = status }

-- The update of a lapsed subscription, which is written although the call throws.
expire_lapsed : Bool → Subscription → Exec Db PolicyError (Unit {0})
expire_lapsed false s db = (ok tt, db)
expire_lapsed true s db = (
  err lapsed,
  if is_expired s.status then db else record db {
    subscriptions =
        update_where (λ r. r.id == s.id) (set_subscription_status SubscriptionStatus.expired)
          db.subscriptions;
  },
)

unfoldable pub limits_of : Subscription → ℕ → Limits
limits_of s bytes = record {
  max_zalo_accounts = override_number s.overrides zalo_accounts s.plan.max_zalo_accounts;
  max_users = override_number s.overrides users s.plan.max_users;
  max_contacts = override_number s.overrides contact_limit s.plan.max_contacts;
  max_campaigns = override_number s.overrides campaign_limit s.plan.max_campaigns;
  max_messages_per_day = override_number s.overrides messages_per_day s.plan.max_messages_per_day;
  max_messages_per_month =
      override_number s.overrides messages_per_month s.plan.max_messages_per_month;
  max_storage_bytes = bytes;
  automation_enabled = override_flag s.overrides automation s.plan.automation_enabled;
  analytics_enabled = override_flag s.overrides analytics_access s.plan.analytics_enabled;
  api_enabled = override_flag s.overrides api_access s.plan.api_enabled;
}

unfoldable pub entitlements_of : ℕ → Subscription → ℕ → Entitlements
unfolding limits_of effective_status
entitlements_of now s bytes = record {
  plan_code = s.plan_code;
  subscription_id = s.id;
  subscription_status = effective_status s now;
  subscription_start = s.start_at;
  subscription_end = s.end_at;
  limits = limits_of s bytes;
}

unfoldable pub resolve_entitlements : ℕ → ℕ → Bool → Exec Db PolicyError Entitlements
unfolding expire_lapsed entitlements_of
resolve_entitlements now id enforce_active = do
  w ← read (λ db. workspace_of db id)
  w ← require_some w tenant_not_found
  require (not (enforce_active && (not (is_tenant_active w.status) || is_some w.suspended_at)))
      tenant_not_active
  s ← read (λ db. latest_subscription db id)
  s ← require_some s no_subscription
  require (not (enforce_active && ltb now s.start_at)) not_started
  require (not (enforce_active && is_disabled (effective_status s now))) (disabled s.status)
  expire_lapsed (enforce_active && is_expired (effective_status s now)) s
  bytes ←
      require_some (override_bytes s.overrides storage_bytes s.plan.max_storage_bytes)
        invalid_storage_override
  return (entitlements_of now s bytes)

unfoldable pub entitlements : ℕ → ℕ → Exec Db PolicyError Entitlements
unfolding resolve_entitlements
entitlements now id = resolve_entitlements now id true

unfoldable pub subscription_snapshot : ℕ → ℕ → Exec Db PolicyError Entitlements
unfolding resolve_entitlements
subscription_snapshot now id = resolve_entitlements now id false

unfoldable pub assert_outbound_allowed : ℕ → ℕ → ℕ → Exec Db PolicyError Entitlements
assert_outbound_allowed now id additional = do
  stopped ← read (λ db. is_outbound_paused db.control)
  require (not stopped) outbound_paused_globally
  e ← entitlements now id
  today ← read (λ db. outbound_since db id (day_start now))
  month ← read (λ db. outbound_since db id (month_start now))
  require (not (ltb e.limits.max_messages_per_day (today + additional))) daily_exceeded
  require (not (ltb e.limits.max_messages_per_month (month + additional))) monthly_exceeded
  return e

unfoldable pub live_accounts : Db → ℕ → ℕ
live_accounts db id = count_where (λ a. a.workspace_id == id && is_none a.deleted_at) db.accounts

unfoldable pub live_contacts : Db → ℕ → ℕ
live_contacts db id = count_where (λ c. c.workspace_id == id && is_none c.deleted_at) db.contacts

unfoldable pub live_campaigns : Db → ℕ → ℕ
live_campaigns db id = count_where (λ c. c.workspace_id == id && is_none c.deleted_at) db.campaigns

unfoldable pub assert_account_capacity : ℕ → ℕ → Exec Db PolicyError (Unit {0})
assert_account_capacity now id = do
  e ← entitlements now id
  current ← read (λ db. live_accounts db id)
  require (not (leb e.limits.max_zalo_accounts current)) account_quota_exceeded

unfoldable pub assert_contact_capacity : ℕ → ℕ → ℕ → Exec Db PolicyError (Unit {0})
assert_contact_capacity now id additional = do
  e ← entitlements now id
  current ← read (λ db. live_contacts db id)
  require (not (ltb e.limits.max_contacts (current + additional))) contact_quota_exceeded

unfoldable pub assert_campaign_capacity : ℕ → ℕ → Exec Db PolicyError (Unit {0})
assert_campaign_capacity now id = do
  e ← entitlements now id
  current ← read (λ db. live_campaigns db id)
  require (not (leb e.limits.max_campaigns current)) campaign_quota_exceeded
