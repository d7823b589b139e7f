-- ===== src/Store/Work.antt =====
-- The rows of prisma/schema.prisma for work that is queued or was done: jobs, notifications, the audit
-- log, synchronisations and schedules; and the queues of packages/queue/src/index.ts.
use tool_messager.Prelude.{Option, Text, ℕ}
use tool_messager.Platform.{ErrorCode}
use tool_messager.Store.Enums.{JobStatus}

pub data QueueName : Type 0 where
  message_send message_retry automation_execute post_publish contact_import : QueueName
  webhook_process dead_letter : QueueName

-- The `externalId` of a background job.
pub data JobKey : Type 0 where
  send_job schedule_campaign_job launch_campaign_job schedule_post_job publish_post_job : ℕ → JobKey
  file_import_job contact_import_job : ℕ → JobKey
  resume_campaign_job : (campaign now : ℕ) → JobKey
  webhook_job : (account : ℕ) → Text → JobKey

pub data JobPayload : Type 0 where
  for_message for_campaign for_post for_import : ℕ → JobPayload
  for_event : (event account : ℕ) → JobPayload

pub record BackgroundJob : Type 0 where
  pub workspace_id : ℕ
  pub queue : QueueName
  pub external_id : JobKey
  pub payload : JobPayload
  pub status : JobStatus
  pub attempts : ℕ
  pub completed_at : Option ℕ

-- A call of `queue.add` that the queue took. Whether BullMQ starts a job for a call with a `jobId` that it
-- still knows is its own affair: what is proved of the worker holds whenever it takes a job, or takes it
-- again.
pub record QueueEntry : Type 0 where
  pub queue : QueueName
  pub job_id : JobKey
  pub payload : JobPayload

pub data NotificationKey : Type 0 where
  expired_key : (subscription end_at : ℕ) → NotificationKey
  warning_key : (subscription end_at day : ℕ) → NotificationKey

pub data NotificationEvent : Type 0 where
  notified_expired campaign_finished zalo_message_received : NotificationEvent
  notified_expiring : ℕ → NotificationEvent

pub record Notification : Type 0 where
  pub dedupe_key : Option NotificationKey
  pub workspace_id : ℕ
  pub event : NotificationEvent
  pub created_at : ℕ

pub data AuditAction : Type 0 where
  support_mode_access campaign_created campaign_approved campaign_queued : AuditAction
  campaign_paused campaign_resumed campaign_was_cancelled message_queued message_blocked :
      AuditAction
  import_queued import_cancelled import_mapping_updated data_imported contacts_imported :
      AuditAction
  zalo_oa_connected zalo_token_refreshed account_created account_disconnected : AuditAction
  contact_created contact_updated contact_opted_out contact_consent_updated : AuditAction
  contacts_tagged contacts_archived contacts_opted_in contacts_opted_out contacts_suppressed :
      AuditAction
  segment_created segment_deleted suppression_added suppression_removed : AuditAction
  post_created post_scheduled post_publish_queued : AuditAction
  template_created template_updated template_archived : AuditAction
  tenant_was_suspended tenant_activated tenant_archived subscription_extended : AuditAction
  support_session_started support_session_ended : AuditAction
  account_outbound_paused account_outbound_resumed : AuditAction
  global_suppression_added global_suppression_removed : AuditAction
  system_was_paused system_was_resumed : AuditAction

-- A row of the platform's administration has no workspace; one on many rows has no resource.
pub record AuditLog : Type 0 where
  pub workspace_id : Option ℕ
  pub user_id : ℕ
  pub action : AuditAction
  pub resource_id : Option ℕ

-- A counter of Redis, `rate:message:<account>:<minute>`.
pub record RateCounter : Type 0 where
  pub account_id : ℕ
  pub minute : ℕ
  pub count : ℕ

pub data SyncType : Type 0 where
  account_sync group_member_sync : SyncType

pub record SyncJob : Type 0 where
  pub workspace_id : ℕ
  pub account_id : ℕ
  pub sync_type : SyncType
  pub status : JobStatus
  pub last_run_at : ℕ
  pub error : Option ErrorCode

pub record PostSchedule : Type 0 where
  pub post_id : ℕ
  pub next_run_at : ℕ
