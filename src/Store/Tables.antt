-- ===== src/Store/Tables.antt =====
-- The database, and the small queries that several services make.
use tool_messager.Prelude.{
  Bool, List, Option, Text, [], count_where, false, find_first, if◌then◌else◌, leb, none,
  select_where, some, text_eq, true, update_where, ℕ, ◌%◌, ◌&&◌, ◌*◌, ◌++◌, ◌+◌, ◌-◌, ◌/◌, ◌==◌,
  ◌∷◌,
}
use tool_messager.Shared.{milliseconds_per_day}
use tool_messager.Store.Enums.{CampaignStatus, JobStatus, is_outbound}
use tool_messager.Store.Rows.{
  Contact, ContactConsent, MediaAsset, MessageTemplate, SocialAccount, Subscription, SupportSession,
  SuppressionEntry, SystemControl, Workspace, WorkspaceMember,
}
use tool_messager.Store.Outreach.{
  AudienceMember, Campaign, CampaignMessage, ContactTag, Conversation, ConversationKey,
  IdempotencyKey, Message, MessageEvent, Post, Segment, Tag, campaign_key, client_key, of_contact,
  of_zalo_user, webhook_key,
}
use tool_messager.Store.Work.{
  AuditLog, BackgroundJob, JobKey, JobPayload, Notification, NotificationKey, PostSchedule,
  QueueEntry, QueueName, RateCounter, SyncJob, contact_import_job, expired_key, file_import_job,
  launch_campaign_job, publish_post_job, resume_campaign_job, schedule_campaign_job,
  schedule_post_job, send_job, warning_key, webhook_job,
}
use tool_messager.Store.Staging.{ImportJob, ImportRow, OauthState, WebhookEvent}

pub record Db : Type 0 where
  pub next_id : ℕ
  pub control : Option SystemControl
  pub workspaces : List Workspace
  pub members : List WorkspaceMember
  pub support_sessions : List SupportSession
  pub subscriptions : List Subscription
  pub accounts : List SocialAccount
  pub contacts : List Contact
  pub consents : List ContactConsent
  pub suppressions : List SuppressionEntry
  pub templates : List MessageTemplate
  pub segments : List Segment
  pub contact_tags : List ContactTag
  pub campaigns : List Campaign
  pub audience : List AudienceMember
  pub campaign_messages : List CampaignMessage
  pub conversations : List Conversation
  pub messages : List Message
  pub message_events : List MessageEvent
  pub posts : List Post
  pub jobs : List BackgroundJob
  pub queue : List QueueEntry
  pub notifications : List Notification
  pub audits : List AuditLog
  pub rates : List RateCounter
  pub import_jobs : List ImportJob
  pub import_rows : List ImportRow
  pub webhook_events : List WebhookEvent
  pub oauth_states : List OauthState
  pub tags : List Tag
  pub sync_jobs : List SyncJob
  pub post_schedules : List PostSchedule
  pub paused_queues : List QueueName
  pub media : List MediaAsset

abbrev pub is_none {ℓ} : {A : Type ℓ} → Option A → Bool
is_none none = true
is_none (some a) = false

-- `===` of an optional column with a text
abbrev pub text_is : Option Text → Text → Bool
text_is none t = false
text_is (some s) t = text_eq s t

abbrev pub number_is : Option ℕ → ℕ → Bool
number_is none n = false
number_is (some m) n = m == n

-- The template keys are equal where their parts are.
abbrev pub same_job_key : JobKey → JobKey → Bool
same_job_key (send_job a) (send_job b) = a == b
same_job_key (schedule_campaign_job a) (schedule_campaign_job b) = a == b
same_job_key (launch_campaign_job a) (launch_campaign_job b) = a == b
same_job_key (schedule_post_job a) (schedule_post_job b) = a == b
same_job_key (publish_post_job a) (publish_post_job b) = a == b
same_job_key (file_import_job a) (file_import_job b) = a == b
same_job_key (contact_import_job a) (contact_import_job b) = a == b
same_job_key (resume_campaign_job a m) (resume_campaign_job b n) = a == b && m == n
same_job_key (webhook_job a s) (webhook_job b t) = a == b && text_eq s t
same_job_key _ _ = false

abbrev pub same_key : IdempotencyKey → IdempotencyKey → Bool
same_key (client_key s) (client_key t) = text_eq s t
same_key (campaign_key a c) (campaign_key b d) = a == b && c == d
same_key (webhook_key a s) (webhook_key b t) = a == b && text_eq s t
same_key _ _ = false

abbrev pub same_conversation : ConversationKey → ConversationKey → Bool
same_conversation (of_contact a) (of_contact b) = a == b
same_conversation (of_zalo_user s) (of_zalo_user t) = text_eq s t
same_conversation _ _ = false

abbrev pub same_notification : NotificationKey → NotificationKey → Bool
same_notification (expired_key a m) (expired_key b n) = a == b && m == n
same_notification (warning_key a m d) (warning_key b n e) = a == b && m == n && d == e
same_notification _ _ = false

abbrev pub has_dedupe_key : NotificationKey → Notification → Bool
has_dedupe_key k n = elim n.dedupe_key [ none ↦ false | some j ↦ same_notification j k ]

-- `orderBy createdAt desc, take 1`: the last row that fits.
unfoldable pub find_last {ℓ} : {A : Type ℓ} → (A → Bool) → List A → Option A
find_last p [] = none
find_last p (x ∷ xs) = elim (find_last p xs) [
  | some y ↦ some y
  | none ↦ if p x then some x else none
]

unfoldable pub workspace_of : Db → ℕ → Option Workspace
workspace_of db id = find_first (λ w. w.id == id && is_none w.deleted_at) db.workspaces

unfoldable pub latest_subscription : Db → ℕ → Option Subscription
latest_subscription db workspace = find_last (λ s. s.workspace_id == workspace) db.subscriptions

unfoldable pub contact_by_id : Db → ℕ → Option Contact
contact_by_id db id = find_first (λ c. c.id == id) db.contacts

abbrev pub set_campaign_status : CampaignStatus → Campaign → Campaign
set_campaign_status status c = record c { status = status }

unfoldable pub update_campaign : ℕ → (Campaign → Campaign) → Db → Db
update_campaign id f db = record db { campaigns = update_where (λ c. c.id == id) f db.campaigns }

-- The audience of a campaign, in the order of its rows.
unfoldable pub audience_of : Db → ℕ → List AudienceMember
audience_of db campaign = select_where (λ m. m.campaign_id == campaign) db.audience

unfoldable pub included_count : Db → ℕ → ℕ
included_count db campaign = count_where (λ m. m.included) (audience_of db campaign)

-- A new job is PENDING and has no attempts.
abbrev pub new_job : (workspace : ℕ) → QueueName → JobKey → JobPayload → BackgroundJob
new_job workspace queue key payload = record {
  workspace_id = workspace;
  queue = queue;
  external_id = key;
  payload = payload;
  status = JobStatus.pending;
  attempts = 0;
  completed_at = none;
}

abbrev pub has_job_key : JobKey → BackgroundJob → Bool
has_job_key key j = same_job_key j.external_id key

-- `backgroundJob.updateMany({ where: { externalId } })`
unfoldable pub update_job : JobKey → (BackgroundJob → BackgroundJob) → Db → Db
update_job key f db = record db { jobs = update_where (has_job_key key) f db.jobs }

abbrev pub restart_job : BackgroundJob → BackgroundJob
restart_job j = record j { status = JobStatus.pending; completed_at = none }

-- `status: 'RUNNING', attempts: { increment: 1 }`
abbrev pub start_job : BackgroundJob → BackgroundJob
start_job j = record j { status = JobStatus.running; attempts = j.attempts + 1 }

abbrev pub finish_job : JobStatus → ℕ → BackgroundJob → BackgroundJob
finish_job status now j = record j { status = status; completed_at = some now }

abbrev pub enqueue : QueueEntry → Db → Db
enqueue entry db = record db { queue = db.queue ++ entry ∷ [] }

abbrev pub is_outbound_paused : Option SystemControl → Bool
is_outbound_paused none = false
is_outbound_paused (some c) = c.outbound_paused

-- `setUTCHours(0, 0, 0, 0)`
unfoldable pub day_start : ℕ → ℕ
day_start now = now / milliseconds_per_day * milliseconds_per_day

-- The day of the month of a day that is counted from 1 January 1970, in the Gregorian calendar: years
-- begin with March, eras of 400 years have 146,097 days.
unfoldable pub day_of_month : ℕ → ℕ
day_of_month days =
    let day_of_era : ℕ = (days + 719468) % 146097 in
    let year : ℕ =
      (day_of_era - day_of_era / 1460 + day_of_era / 36524 - day_of_era / 146096) / 365 in
    let day_of_year : ℕ = day_of_era - (365 * year + year / 4 - year / 100) in
    let month : ℕ = (5 * day_of_year + 2) / 153 in day_of_year - (153 * month + 2) / 5 + 1

-- `new Date(Date.UTC(now.getUTCFullYear(), now.getUTCMonth(), 1))`
unfoldable pub month_start : ℕ → ℕ
month_start now =
    let days : ℕ = now / milliseconds_per_day in
    (days - (day_of_month days - 1)) * milliseconds_per_day

-- `message.count({ workspaceId, direction: 'OUTBOUND', createdAt: { gte: since } })`
unfoldable pub outbound_since : Db → (workspace since : ℕ) → ℕ
outbound_since db workspace since =
    count_where
      (λ m. m.workspace_id == workspace && is_outbound m.direction && leb since m.created_at)
      db.messages
