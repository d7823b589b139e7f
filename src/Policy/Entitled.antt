-- ===== src/Policy/Entitled.antt =====
-- When apps/api/src/common/subscription-policy.service.ts grants a tenant its entitlements, and what
-- the call writes.
use tool_messager.Prelude.{
  Option-cases, arith, err, inl, inr, none, ok, some, true, update_where, ℕ, ◌<◌, ◌==◌, ◌≡◌, ◌≤◌,
  ◌⊎◌,
}
use tool_messager.Store.{
  Db, Subscription, SubscriptionStatus, Workspace, is_live_subscription, is_tenant_active,
  latest_subscription, messages_per_day, messages_per_month, storage_bytes, workspace_of,
}
use tool_messager.Policy.{
  Entitlements, effective_status, entitlements, entitlements_of, lapsed, override_bytes,
  override_number, set_subscription_status,
}

-- The tenant is active, and its latest subscription has started, has not ended and is live.
pub record IsEntitled (now : ℕ) (db : Db) (id : ℕ) (w : Workspace) (s : Subscription) : Type 0 where
  pub tenant : workspace_of db id ≡ some w
  pub tenant_active : is_tenant_active w.status ≡ true
  pub not_suspended : w.suspended_at ≡ none
  pub subscribed : latest_subscription db id ≡ some s
  pub started : s.start_at ≤ now
  pub not_ended : now < s.end_at
  pub live : is_live_subscription s.status ≡ true

-- The storage override, if there is one, is a number.
abbrev pub HasStorage : Subscription → ℕ → Type 0
HasStorage s bytes = override_bytes s.overrides storage_bytes s.plan.max_storage_bytes ≡ some bytes

module _ (now : ℕ) (db : Db) (id : ℕ) (w : Workspace) (s : Subscription) where
  pub IsEntitled-of_ok :
      {e : Entitlements} {db' : Db}
      → workspace_of db id ≡ some w
      → latest_subscription db id ≡ some s
      → entitlements now id db ≡ (ok e, db')
      → IsEntitled now db id w s × (db' ≡ db) × (e.subscription_end ≡ s.end_at)
  unfolding entitlements
  IsEntitled-of_ok hw hs h = (
    record {
      tenant = hw;
      tenant_active = ground arith;
      not_suspended = ground arith;
      subscribed = hs;
      started = ground arith;
      not_ended = ground arith;
      live = ground arith;
    },
    ground arith,
    ground arith,
  )

  pub message_limits_of_ok :
      {e : Entitlements} {db' : Db}
      → workspace_of db id ≡ some w
      → latest_subscription db id ≡ some s
      → entitlements now id db ≡ (ok e, db')
      → (e.limits.max_messages_per_day
          ≡ override_number s.overrides messages_per_day s.plan.max_messages_per_day)
        × (e.limits.max_messages_per_month
            ≡ override_number s.overrides messages_per_month s.plan.max_messages_per_month)
  unfolding entitlements
  message_limits_of_ok hw hs h = (ground arith, ground arith)

  -- An entitled tenant with a readable storage override gets the entitlements of its latest
  -- subscription, and nothing is written.
  pub entitlements_complete :
      {bytes : ℕ}
      → IsEntitled now db id w s
      → HasStorage s bytes
      → entitlements now id db ≡ (ok (entitlements_of now s bytes), db)
  unfolding entitlements
  entitlements_complete h b = ground arith

-- Entitlements are granted only to a tenant that is entitled, with the end of its latest
-- subscription, and granting them writes nothing.
pub entitlements_sound :
    (now : ℕ) (db : Db) (id : ℕ) {e : Entitlements} {db' : Db}
    → entitlements now id db ≡ (ok e, db')
    → (w : Workspace) × (s : Subscription) × IsEntitled now db id w s
      × (db' ≡ db)
      × (e.subscription_end ≡ s.end_at)
unfolding entitlements
entitlements_sound now db id h = elim (Option-cases (workspace_of db id)) [
  | inl none_found ↦ absurd (ground arith)
  | inr (w, hw) ↦ elim (Option-cases (latest_subscription db id)) [
    | inl none_found ↦ absurd (ground arith)
    | inr (s, hs) ↦ let r = IsEntitled-of_ok now db id w s hw hs h in (w, s, r.0, r.1, r.2)
  ]
]

writes_of :
    (now : ℕ) (db : Db) (id : ℕ) (w : Workspace) (s : Subscription)
    → workspace_of db id ≡ some w
    → latest_subscription db id ≡ some s
    → ((entitlements now id db).1 ≡ db)
      ⊎ ((effective_status s now ≡ SubscriptionStatus.expired)
          × (entitlements now id db ≡ (
            err lapsed,
            record db {
              subscriptions =
                  update_where
                    (λ r. r.id == s.id)
                    (set_subscription_status SubscriptionStatus.expired)
                    db.subscriptions;
            },
          )))
unfolding entitlements
writes_of now db id w s hw hs = ground arith

-- Whether it grants or refuses, the call writes at most the status EXPIRED to the rows with the id of
-- the tenant's latest subscription, and then it refuses because the subscription has lapsed.
pub entitlements_writes :
    (now : ℕ) (db : Db) (id : ℕ)
    → ((entitlements now id db).1 ≡ db)
      ⊎ ((s : Subscription) × (latest_subscription db id ≡ some s)
          × (effective_status s now ≡ SubscriptionStatus.expired)
          × (entitlements now id db ≡ (
            err lapsed,
            record db {
              subscriptions =
                  update_where
                    (λ r. r.id == s.id)
                    (set_subscription_status SubscriptionStatus.expired)
                    db.subscriptions;
            },
          )))
unfolding entitlements
entitlements_writes now db id = elim (Option-cases (workspace_of db id)) [
  | inl none_found ↦ inl (ground arith)
  | inr (w, hw) ↦ elim (Option-cases (latest_subscription db id)) [
    | inl none_found ↦ inl (ground arith)
    | inr (s, hs) ↦ elim (writes_of now db id w s hw hs) [
      | inl kept ↦ inl kept
      | inr (lapse, change) ↦ inr (s, hs, lapse, change)
    ]
  ]
]
