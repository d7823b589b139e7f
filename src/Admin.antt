-- ===== src/Admin.antt =====
-- apps/api/src/admin/admin.service.ts: the administration of the platform. `Tenants` is about tenants
-- and their subscriptions, `Support` about the sessions in which an administrator enters a workspace;
-- this file holds the switches that stop outbound work, and the global suppression list.
pub mod Tenants
pub mod Support
pub mod Stopped
pub mod Entering
pub mod Listed
pub mod Suppression
use tool_messager.Prelude.{
  Bool, Exec, List, Option, [], any, delete_where, false, find_first, modify, none, read,
  require_some, some, true, update_where, ℕ, ◌&&◌, ◌++◌, ◌==◌, ◌>>=◌, ◌>>◌, ◌∷◌,
}
use tool_messager.Platform.{admin_paused_account}
use tool_messager.Store.{
  AccountMetadata, AuditAction, Campaign, CampaignStatus, Db, QueueName, SocialAccount,
  account_outbound_paused, account_outbound_resumed, automation_execute, connected, contact_import,
  dead_letter, disconnected, is_none, limited, message_retry, message_send, number_is, paused,
  post_publish, set_campaign_status, system_was_paused, system_was_resumed, webhook_process,
}
use tool_messager.Workspaces.{ServiceError, not_found}

abbrev pub add_admin_audit :
    (workspace : Option ℕ) → (admin : ℕ) → AuditAction → (resource : ℕ) → Db → Db
add_admin_audit workspace admin action resource db = record db {
  audits =
      db.audits
      ++ record {
        workspace_id = workspace;
        user_id = admin;
        action = action;
        resource_id = some resource;
      }
        ∷ [];
}

-- `status in ['RUNNING', 'SCHEDULED']`
abbrev pub is_under_way : CampaignStatus → Bool
is_under_way CampaignStatus.running = true
is_under_way CampaignStatus.scheduled = true
is_under_way _ = false

-- `campaign.updateMany({ where, status in ['RUNNING', 'SCHEDULED'] }, { status: 'PAUSED' })`
unfoldable pub pause_campaigns : (Campaign → Bool) → Db → Db
pause_campaigns p db = record db {
  campaigns =
      update_where (λ c. p c && is_under_way c.status) (set_campaign_status paused) db.campaigns;
}

abbrev pub outbound_queues : List QueueName
outbound_queues = message_send ∷ message_retry ∷ automation_execute ∷ post_publish ∷ []

abbrev pub queue_rank : QueueName → ℕ
queue_rank message_send = 0
queue_rank message_retry = 1
queue_rank automation_execute = 2
queue_rank post_publish = 3
queue_rank contact_import = 4
queue_rank webhook_process = 5
queue_rank dead_letter = 6

abbrev pub same_queue : QueueName → QueueName → Bool
same_queue q r = queue_rank q == queue_rank r

abbrev pub is_queue_paused : Db → QueueName → Bool
is_queue_paused db q = any (same_queue q) db.paused_queues

-- Pausing a paused queue, or resuming one that runs, changes nothing.
abbrev pub is_outbound_queue : QueueName → Bool
is_outbound_queue q = any (same_queue q) outbound_queues

unfoldable pub pause_queues : Db → Db
pause_queues db = record db {
  paused_queues = delete_where is_outbound_queue db.paused_queues ++ outbound_queues;
}

unfoldable pub resume_queues : Db → Db
resume_queues db = record db { paused_queues = delete_where is_outbound_queue db.paused_queues }

-- The row 'global' of SystemControl; its id in the audit log is 0.
abbrev pub set_control : (admin : ℕ) → Bool → Db → Db
set_control admin paused_now db = record db {
  control = some (record { outbound_paused = paused_now; updated_by = some admin });
}

abbrev pub any_campaign : Campaign → Bool
any_campaign c = true

unfoldable pub set_emergency_stop : (admin : ℕ) → (stop : Bool) → Db → Db
unfolding pause_campaigns pause_queues resume_queues
set_emergency_stop admin true db =
    add_admin_audit none admin system_was_paused 0
      (pause_campaigns any_campaign (pause_queues (set_control admin true db)))
set_emergency_stop admin false db =
    add_admin_audit none admin system_was_resumed 0 (resume_queues (set_control admin false db))

abbrev set_admin_paused : Bool → AccountMetadata → AccountMetadata
set_admin_paused b m = record m { admin_paused = some b }

abbrev pub admin_paused_row : SocialAccount → SocialAccount
admin_paused_row a = record a {
  status = limited;
  last_error_code = some admin_paused_account;
  metadata = set_admin_paused true a.metadata;
}

abbrev pub admin_resumed_row : SocialAccount → SocialAccount
admin_resumed_row a = record a {
  status = elim a.credential [ none ↦ disconnected | some c ↦ connected ];
  last_error_code = none;
  metadata = set_admin_paused false a.metadata;
}

-- `findFirst({ id, deletedAt: null })`, in any workspace
abbrev pub is_live_account : ℕ → SocialAccount → Bool
is_live_account id a = a.id == id && is_none a.deleted_at

abbrev update_account_row : ℕ → (SocialAccount → SocialAccount) → Db → Db
update_account_row id f db = record db { accounts = update_where (λ a. a.id == id) f db.accounts }

abbrev is_campaign_of_account : ℕ → Campaign → Bool
is_campaign_of_account account c = number_is c.account_id account

store_paused : (admin : ℕ) → Bool → SocialAccount → Db → Db
unfolding pause_campaigns
store_paused admin true a db =
    add_admin_audit (some a.workspace_id) admin account_outbound_paused a.id
      (pause_campaigns (is_campaign_of_account a.id) (update_account_row a.id admin_paused_row db))
store_paused admin false a db =
    add_admin_audit (some a.workspace_id) admin account_outbound_resumed a.id
      (update_account_row a.id admin_resumed_row db)

unfoldable pub set_account_paused : (admin id : ℕ) → (stop : Bool) → Exec Db ServiceError (Unit {0})
unfolding store_paused
set_account_paused admin id stop = do
  a ← read (λ db. find_first (is_live_account id) db.accounts)
  a ← require_some a not_found
  modify (store_paused admin stop a)
