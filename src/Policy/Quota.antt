-- ===== src/Policy/Quota.antt =====
-- The quotas of apps/api/src/common/subscription-policy.service.ts.
use tool_messager.Prelude.{arith, false, ok, ℕ, ◌+◌, ◌↔◌, ◌≡◌, ◌≤◌}
use tool_messager.Store.{Db, day_start, is_outbound_paused, month_start, outbound_since}
use tool_messager.Policy.Entitled.{entitlements_writes}
use tool_messager.Policy.{
  Entitlements, assert_contact_capacity, assert_outbound_allowed, entitlements, live_contacts,
}

-- Outbound work is allowed only while the system is not paused, and only if the messages of the
-- tenant's day and month, with the additional ones, stay within its limits; nothing is written.
pub outbound_allowed_sound :
    (now : ℕ) (db : Db) (id additional : ℕ) {e : Entitlements} {db' : Db}
    → assert_outbound_allowed now id additional db ≡ (ok e, db')
    → (is_outbound_paused db.control ≡ false)
      × (entitlements now id db ≡ (ok e, db))
      × (outbound_since db id (day_start now) + additional ≤ e.limits.max_messages_per_day)
      × (outbound_since db id (month_start now) + additional ≤ e.limits.max_messages_per_month)
      × (db' ≡ db)
unfolding assert_outbound_allowed
outbound_allowed_sound now db id additional h = ground (arith, entitlements_writes now db id)

-- For a tenant whose entitlements are granted, the check of contacts passes exactly when its live
-- contacts and the additional ones stay within the limit.
pub contact_capacity_exact :
    (now : ℕ) (db : Db) (id additional : ℕ) {e : Entitlements}
    → entitlements now id db ≡ (ok e, db)
    → ((assert_contact_capacity now id additional db ≡ (ok tt, db))
        ↔ (live_contacts db id + additional ≤ e.limits.max_contacts))
unfolding assert_contact_capacity
contact_capacity_exact now db id additional h = (λ k. ground arith, λ k. ground arith)
