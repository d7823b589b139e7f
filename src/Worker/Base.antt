-- ===== src/Worker/Base.antt =====
-- The worker's parameters and errors, its policy check and its rate counter
-- (apps/worker/src/main.ts).
use tool_messager.Prelude.{
  Bool, Exec, Option, Text, err, find_first, if◌then◌else◌, is_some, leb, ltb, modify, none, not,
  ok, read, require_some, return, some, true, update_where, upsert, ℕ, ◌&&◌, ◌*◌, ◌+◌, ◌/◌, ◌==◌,
  ◌>>=◌, ◌>>◌, ◌||◌,
}
use tool_messager.Shared.{Platform, same_platform, zalo}
use tool_messager.Zalo.{ZaloTokenSet, non_empty}
use tool_messager.Platform.{Adapter, ErrorCode, OperationResult, success}
use tool_messager.Store.{
  Credential, Db, PolicyBlock, Post, RateCounter, SocialAccount, connected, daily_quota_exceeded,
  day_start, is_closed_subscription, is_outbound_paused, is_tenant_active, latest_subscription,
  messages_per_day, messages_per_month, month_start, monthly_quota_exceeded, outbound_since,
  reauth_required, subscription_expired, subscription_not_configured, system_outbound_paused,
  tenant_suspended, workspace_of,
}
use tool_messager.Policy.{override_number}

pub record World : Type 0 where
  pub adapters : Platform → Adapter
  pub send : Platform → (access_token recipient content : Text) → OperationResult Text
  pub refresh : (refresh_token : Text) → OperationResult ZaloTokenSet
  pub publish : Post → OperationResult (Unit {0})
  pub encrypt : Text → Text
  pub decrypt : Text → Option Text
  pub messages_per_minute : ℕ

pub data WorkerError : Type 0 where
  campaign_is_paused rate_limit_exceeded contact_unavailable no_account : WorkerError
  delayed_until : ℕ → WorkerError
  credential_missing refresh_token_missing secret_invalid token_refresh_failed : WorkerError
  send_failed publish_failed : Option ErrorCode → WorkerError
  subscription_blocked contact_quota_reached invalid_phone webhook_user_missing : WorkerError

-- What `DelayedError` and a thrown error leave of a job is the queue's business.
abbrev pub Work : Type 0 → Type 0
Work A = Exec Db WorkerError A

unfoldable pub outbound_block_reason :
    (now : ℕ) → Db → (workspace additional : ℕ) → Option PolicyBlock
outbound_block_reason now db id additional =
    if is_outbound_paused db.control
    then some system_outbound_paused
    else elim (workspace_of db id) [
      | none ↦ some tenant_suspended
      | some w ↦
          if not (is_tenant_active w.status) || is_some w.suspended_at
          then some tenant_suspended
          else elim (latest_subscription db id) [
            | none ↦ some subscription_not_configured
            | some s ↦
                if is_closed_subscription s.status || leb s.end_at now
                then some subscription_expired
                else (let daily =
                      override_number s.overrides messages_per_day s.plan.max_messages_per_day in
                    let monthly =
                      override_number s.overrides messages_per_month
                        s.plan.max_messages_per_month in
                    if ltb daily (outbound_since db id (day_start now) + additional)
                    then some daily_quota_exceeded
                    else (if ltb monthly (outbound_since db id (month_start now) + additional)
                        then some monthly_quota_exceeded
                        else none))
          ]
    ]

abbrev pub is_counter : (account minute : ℕ) → RateCounter → Bool
is_counter account minute r = r.account_id == account && r.minute == minute

abbrev pub count_up : RateCounter → RateCounter
count_up r = record r { count = r.count + 1 }

abbrev pub minute_of : ℕ → ℕ
minute_of now = now / 60000

unfoldable pub rate_of : Db → (account minute : ℕ) → ℕ
rate_of db account minute = elim (find_first (is_counter account minute) db.rates) [
  | none ↦ 0
  | some r ↦ r.count
]

-- `incr` sets a missing counter to 1. That counters expire after 90 seconds is not modelled: no later
-- minute reads them.
unfoldable pub account_rate_allowed : World → (now account : ℕ) → Work Bool
account_rate_allowed w now account = do
  modify (λ db. record db {
    rates =
        upsert (is_counter account (minute_of now)) count_up
          (record { account_id = account; minute = minute_of now; count = 1 }) db.rates;
  })
  count ← read (λ db. rate_of db account (minute_of now))
  return (leb count w.messages_per_minute)

unfoldable pub update_account : ℕ → (SocialAccount → SocialAccount) → Db → Db
update_account id f db = record db { accounts = update_where (λ a. a.id == id) f db.accounts }

abbrev five_minutes : ℕ
five_minutes = 300000

-- `account.platform !== 'ZALO' || !account.tokenExpiresAt || tokenExpiresAt > now + 5 minutes`
abbrev token_is_fresh : ℕ → SocialAccount → Bool
token_is_fresh now a =
    not (same_platform a.platform zalo)
    || elim a.token_expires_at [ none ↦ true | some t ↦ ltb (now + five_minutes) t ]

abbrev renewed : World → (now : ℕ) → ZaloTokenSet → SocialAccount → SocialAccount
renewed w now t a = record a {
  status = connected;
  last_error_code = none;
  token_expires_at = some (now + t.expires_in * 1000);
  credential = elim a.credential [
    | none ↦ none
    | some c ↦ some (record {
      encrypted_access_token = w.encrypt t.access_token;
      encrypted_refresh_token = some (w.encrypt t.refresh_token);
      token_version = c.token_version + 1;
    })
  ];
}

abbrev needs_reauth : Option ErrorCode → SocialAccount → SocialAccount
needs_reauth e a = record a { status = reauth_required; last_error_code = e }

abbrev store_refreshed : World → (now account : ℕ) → OperationResult ZaloTokenSet → Work Text
store_refreshed w now account r db = elim r.payload [
  | none ↦ (err token_refresh_failed, update_account account (needs_reauth r.error_code) db)
  | some t ↦ elim r.status [
    | success ↦ (ok t.access_token, update_account account (renewed w now t) db)
    | _ ↦ (err token_refresh_failed, update_account account (needs_reauth r.error_code) db)
  ]
]

refresh_token_for : World → (now : ℕ) → SocialAccount → Credential → Work Text
refresh_token_for w now a c = do
  sealed ← require_some (non_empty c.encrypted_refresh_token) refresh_token_missing
  token ← require_some (w.decrypt sealed) secret_invalid
  store_refreshed w now a.id (w.refresh token)

-- `accessTokenFor`. The map of running refreshes joins concurrent calls for an account; one job runs
-- at a time here, so it is empty.
unfoldable pub access_token_for : World → (now : ℕ) → SocialAccount → Work Text
unfolding refresh_token_for
access_token_for w now a db = elim a.credential [
  | none ↦ (err credential_missing, db)
  | some c ↦
      if token_is_fresh now a
      then require_some (w.decrypt c.encrypted_access_token) secret_invalid db
      else refresh_token_for w now a c db
]
