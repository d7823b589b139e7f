-- ===== src/Policy/Report.antt =====
-- What the report of a tenant's usage says about the checks of capacity.
use tool_messager.Prelude.{arith, err, if◌then◌else◌, leb, ltb, ok, some, ℕ, ◌+◌, ◌≡◌}
use tool_messager.Store.{Db, Subscription, Workspace, latest_subscription, workspace_of}
use tool_messager.Policy.{
  Entitlements, account_quota_exceeded, assert_account_capacity, assert_campaign_capacity,
  assert_contact_capacity, campaign_quota_exceeded, contact_quota_exceeded, entitlements,
  subscription_snapshot,
}
use tool_messager.Policy.Entitled.{entitlements_sound}
use tool_messager.Policy.Usage.{UsageReport, report_of, usage}

snapshot-entitlements :
    (now id : ℕ) (db : Db) (w : Workspace) (s : Subscription) {e : Entitlements} {db' : Db}
    → workspace_of db id ≡ some w
    → latest_subscription db id ≡ some s
    → entitlements now id db ≡ (ok e, db')
    → (subscription_snapshot now id db ≡ (ok e, db)) × (db' ≡ db)
unfolding entitlements subscription_snapshot
snapshot-entitlements now id db w s hw hs h = (ground arith, ground arith)

usage-report :
    (now id : ℕ) (db : Db) {e : Entitlements} {db' : Db}
    → entitlements now id db ≡ (ok e, db')
    → (usage now id db ≡ (ok (report_of now id e db), db)) × (db' ≡ db)
unfolding usage
usage-report now id db h =
    let (w, s, r, same, until) = entitlements_sound now db id h in
    let (snapshot, kept) = snapshot-entitlements now id db w s r.tenant r.subscribed h in
    (ground (arith, snapshot), kept)

-- While a tenant is entitled, the report of its usage is given and tells what the checks will answer:
-- that of accounts, and that of campaigns, refuse exactly if as many are used as the reported limit, and
-- that of contacts exactly if the contacts to be added do not fit into what is left of it. None of these
-- calls writes.
pub usage_tells_checks :
    (now id additional : ℕ) (db : Db) {e : Entitlements} {db' : Db}
    → entitlements now id db ≡ (ok e, db')
    → (r : UsageReport) × (usage now id db ≡ (ok r, db))
      × (assert_account_capacity now id db ≡ (
        if leb r.accounts.limit r.accounts.used then err account_quota_exceeded else ok tt,
        db,
      ))
      × (assert_campaign_capacity now id db ≡ (
        if leb r.campaigns.limit r.campaigns.used then err campaign_quota_exceeded else ok tt,
        db,
      ))
      × (assert_contact_capacity now id additional db ≡ (
        if ltb r.contacts.limit (r.contacts.used + additional)
            then err contact_quota_exceeded
            else ok tt,
        db,
      ))
unfolding assert_account_capacity assert_campaign_capacity assert_contact_capacity
usage_tells_checks now id additional db {e} h =
    let (told, same) = usage-report now id db h in
    (
      report_of now id e db,
      told,
      ground (arith, h, same),
      ground (arith, h, same),
      ground (arith, h, same),
    )
