-- ===== src/Scheduler.antt =====
-- apps/scheduler/src/main.ts: `tick`, which closes subscriptions, warns before their end, queues due
-- campaigns and posts, and deletes rows past their retention.
pub mod Lapsed
pub mod Quiet
use tool_messager.Prelude.{
  Bool, Exec, List, Option, Result, [], any, delete_where, err, false, for_each, if◌then◌else◌, leb,
  ltb, none, ok, select_where, some, true, update_where, ℕ, ◌&&◌, ◌*◌, ◌++◌, ◌+◌, ◌==◌, ◌>>◌, ◌||◌,
  ◌∷◌,
}
use tool_messager.Shared.{longest_warning, milliseconds_per_day, subscription_warning_threshold}
use tool_messager.Store.{
  BackgroundJob, Campaign, CampaignStatus, Db, ImportJob, NotificationEvent, NotificationKey, Post,
  Subscription, SubscriptionStatus, WebhookEvent, automation_execute, enqueue, expired_key,
  for_campaign, for_post, has_dedupe_key, has_job_key, is_finished_import, is_finished_job,
  is_live_subscription, is_none, is_outbound_paused, is_scheduled_post, new_job, notified_expired,
  notified_expiring, paused, post_publish, same_campaign_status, schedule_campaign_job,
  schedule_post_job, set_campaign_status, warning_key,
}

-- The numbers of the environment, and whether `queue.add` reaches the queue.
pub record SchedulerEnv : Type 0 where
  pub queue_up : Bool
  pub maintenance_interval : ℕ
  pub job_retention_days : ℕ
  pub webhook_retention_days : ℕ
  pub import_retention_days : ℕ
  pub notification_retention_days : ℕ

-- The variables of the process.
pub record Scheduler : Type 0 where
  pub is_busy : Bool
  pub healthy : Bool
  pub last_maintenance_at : ℕ

pub data SchedulerError : Type 0 where
  queue_unavailable : SchedulerError

abbrev pub Tick : Type 0
Tick = Exec Db SchedulerError (Unit {0})

abbrev is_before : (now : ℕ) → Option ℕ → Bool
is_before now none = false
is_before now (some at) = leb at now

abbrev is_due_campaign : (now : ℕ) → Campaign → Bool
is_due_campaign now c =
    same_campaign_status c.status CampaignStatus.scheduled
    && is_before now c.scheduled_at
    && is_none c.deleted_at

abbrev is_due_post : (now : ℕ) → Post → Bool
is_due_post now p =
    is_scheduled_post p.status && is_before now p.scheduled_at && is_none p.deleted_at

abbrev pub has_lapsed : (now : ℕ) → Subscription → Bool
has_lapsed now s = is_live_subscription s.status && leb s.end_at now

abbrev is_ending : (now : ℕ) → Subscription → Bool
is_ending now s =
    is_live_subscription s.status
    && ltb now s.end_at
    && leb s.end_at (now + longest_warning * milliseconds_per_day)

abbrev pub set_status : SubscriptionStatus → Subscription → Subscription
set_status status s = record s { status = status }

abbrev pub is_live_row : (id : ℕ) → Subscription → Bool
is_live_row id s = s.id == id && is_live_subscription s.status

abbrev is_pausable : (workspace : ℕ) → Campaign → Bool
is_pausable workspace c =
    c.workspace_id == workspace
    && (same_campaign_status c.status CampaignStatus.running
        || same_campaign_status c.status CampaignStatus.scheduled)

-- `notification.upsert({ where: { dedupeKey }, update: {} })`
unfoldable pub notify_once : (now workspace : ℕ) → NotificationKey → NotificationEvent → Db → Db
notify_once now workspace key event db =
    if any (has_dedupe_key key) db.notifications then db else record db {
      notifications =
          db.notifications
          ++ record {
            dedupe_key = some key;
            workspace_id = workspace;
            event = event;
            created_at = now;
          }
            ∷ [];
    }

unfoldable pub expire_subscription : (now : ℕ) → Subscription → Db → Db
expire_subscription now s db =
    if any (is_live_row s.id) db.subscriptions
    then notify_once now s.workspace_id (expired_key s.id s.end_at) notified_expired (record db {
      subscriptions =
          update_where (is_live_row s.id) (set_status SubscriptionStatus.expired) db.subscriptions;
      campaigns =
          update_where (is_pausable s.workspace_id) (set_campaign_status paused) db.campaigns;
    })
    else db

unfoldable pub expire_all : (now : ℕ) → List Subscription → Db → Db
expire_all now [] db = db
expire_all now (s ∷ ss) db = expire_all now ss (expire_subscription now s db)

abbrev is_active_row : (id : ℕ) → Subscription → Bool
is_active_row id s = elim s.status [ SubscriptionStatus.active ↦ s.id == id | _ ↦ false ]

warn : (now : ℕ) → Subscription → Option ℕ → Db → Db
warn now s none db = db
warn now s (some day) db =
    notify_once now s.workspace_id (warning_key s.id s.end_at day) (notified_expiring day) db

unfoldable pub warn_subscription : (now : ℕ) → Subscription → Db → Db
unfolding warn
warn_subscription now s db = warn now s (subscription_warning_threshold s.end_at now) (record db {
  subscriptions =
      update_where (is_active_row s.id) (set_status SubscriptionStatus.expiring) db.subscriptions;
})

unfoldable pub warn_all : (now : ℕ) → List Subscription → Db → Db
warn_all now [] db = db
warn_all now (s ∷ ss) db = warn_all now ss (warn_subscription now s db)

-- `backgroundJob.upsert` with an empty update, and `queue.add`, which may fail.
unfoldable pub start_scheduled : SchedulerEnv → BackgroundJob → Tick
start_scheduled env j db =
    let db' =
      if any (has_job_key j.external_id) db.jobs
      then db
      else record db { jobs = db.jobs ++ j ∷ [] } in
    if env.queue_up
    then (
      ok tt,
      enqueue record { queue = j.queue; job_id = j.external_id; payload = j.payload } db',
    )
    else (err queue_unavailable, db')

abbrev campaign_job : Campaign → BackgroundJob
campaign_job c =
    new_job c.workspace_id automation_execute (schedule_campaign_job c.id) (for_campaign c.id)

abbrev post_job : Post → BackgroundJob
post_job p = new_job p.workspace_id post_publish (schedule_post_job p.id) (for_post p.id)

abbrev scheduled_work : List Campaign → List Post → SchedulerEnv → Tick
scheduled_work campaigns posts env = do
  for_each campaigns (λ c. start_scheduled env (campaign_job c))
  for_each posts (λ p. start_scheduled env (post_job p))

abbrev is_past : (now days : ℕ) → ℕ → Bool
is_past now days at = ltb (at + days * milliseconds_per_day) now

abbrev is_past_optional : (now days : ℕ) → Option ℕ → Bool
is_past_optional now days none = false
is_past_optional now days (some at) = is_past now days at

abbrev stale_job : SchedulerEnv → (now : ℕ) → BackgroundJob → Bool
stale_job env now j =
    is_finished_job j.status && is_past_optional now env.job_retention_days j.completed_at

abbrev stale_event : SchedulerEnv → (now : ℕ) → WebhookEvent → Bool
stale_event env now e =
    is_finished_job e.status && is_past now env.webhook_retention_days e.created_at

abbrev stale_import : SchedulerEnv → (now : ℕ) → ImportJob → Bool
stale_import env now i =
    is_finished_import i.status && is_past now env.import_retention_days i.created_at

-- The rows of a deleted import go with it (`onDelete: Cascade`).
unfoldable pub maintain : SchedulerEnv → (now : ℕ) → Db → Db
maintain env now db = record db {
  jobs = delete_where (stale_job env now) db.jobs;
  webhook_events = delete_where (stale_event env now) db.webhook_events;
  import_rows =
      delete_where
        (λ r. any (λ i. i.id == r.import_job_id && stale_import env now i) db.import_jobs)
        db.import_rows;
  import_jobs = delete_where (stale_import env now) db.import_jobs;
  notifications =
      delete_where (λ n. is_past now env.notification_retention_days n.created_at) db.notifications;
  oauth_states = delete_where (λ o. is_past now 1 o.expires_at) db.oauth_states;
}

-- The subscriptions' part, on the rows that were read before anything was written.
unfoldable pub close_subscriptions : (now : ℕ) → Db → Db
close_subscriptions now db =
    warn_all now (select_where (is_ending now) db.subscriptions)
      (expire_all now (select_where (has_lapsed now) db.subscriptions) db)

unfoldable pub queue_due : SchedulerEnv → (now : ℕ) → Db → Tick
queue_due env now before db =
    if is_outbound_paused before.control
    then (ok tt, db)
    else scheduled_work (select_where (is_due_campaign now) before.campaigns)
        (select_where (is_due_post now) before.posts) env db

abbrev is_maintenance_due : SchedulerEnv → (now : ℕ) → Scheduler → Bool
is_maintenance_due env now s = leb (s.last_maintenance_at + env.maintenance_interval) now

finish_tick :
    SchedulerEnv → (now : ℕ) → Scheduler → Result SchedulerError (Unit {0}) × Db → Scheduler × Db
finish_tick env now s (err e, db) = (record s { healthy = false }, db)
finish_tick env now s (ok done, db) =
    if is_maintenance_due env now s
    then (record s { healthy = true; last_maintenance_at = now }, maintain env now db)
    else (record s { healthy = true }, db)

-- A tick that comes while another one runs does nothing.
unfoldable pub tick : SchedulerEnv → (now : ℕ) → Scheduler × Db → Scheduler × Db
unfolding finish_tick
tick env now (s, db) =
    if s.is_busy
    then (s, db)
    else finish_tick env now s (queue_due env now db (close_subscriptions now db))
