-- ===== src/Store/Enums.antt =====
-- The enums of prisma/schema.prisma, with the tests that the code makes of them.
use tool_messager.Prelude.{Bool, false, true, ℕ, ◌==◌}

pub data TenantStatus : Type 0 where
  active suspended archived : TenantStatus

pub data SubscriptionStatus : Type 0 where
  active expiring expired suspended cancelled : SubscriptionStatus

pub data PlanCode : Type 0 where
  free basic pro business enterprise : PlanCode

pub data AccountStatus : Type 0 where
  connected disconnected expired error reauth_required limited : AccountStatus

pub data ContactStatus : Type 0 where
  active archived do_not_contact : ContactStatus

pub data MessageDirection : Type 0 where
  inbound outbound : MessageDirection

pub data MessageStatus : Type 0 where
  queued sending sent delivered seen failed blocked : MessageStatus

pub data CampaignStatus : Type 0 where
  draft pending_approval approved scheduled running paused completed cancelled failed :
      CampaignStatus

pub data ContentStatus : Type 0 where
  draft pending_review approved rejected scheduled published failed : ContentStatus

pub data JobStatus : Type 0 where
  pending running retrying completed failed cancelled : JobStatus

pub data SuppressionScope : Type 0 where
  global tenant : SuppressionScope

pub data MemberStatus : Type 0 where
  active invited suspended : MemberStatus

pub data SupportStatus : Type 0 where
  active ended revoked expired : SupportStatus

abbrev pub is_tenant_active : TenantStatus → Bool
is_tenant_active TenantStatus.active = true
is_tenant_active _ = false

abbrev pub is_connected : AccountStatus → Bool
is_connected connected = true
is_connected _ = false

abbrev pub is_do_not_contact : ContactStatus → Bool
is_do_not_contact do_not_contact = true
is_do_not_contact _ = false

abbrev pub is_outbound : MessageDirection → Bool
is_outbound outbound = true
is_outbound inbound = false

-- `status in ['ACTIVE', 'EXPIRING']`
abbrev pub is_live_subscription : SubscriptionStatus → Bool
is_live_subscription SubscriptionStatus.active = true
is_live_subscription expiring = true
is_live_subscription _ = false

-- `['SUSPENDED', 'CANCELLED', 'EXPIRED'].includes(status)`
abbrev pub is_closed_subscription : SubscriptionStatus → Bool
is_closed_subscription SubscriptionStatus.suspended = true
is_closed_subscription SubscriptionStatus.cancelled = true
is_closed_subscription SubscriptionStatus.expired = true
is_closed_subscription _ = false

-- `===` on the statuses that queries compare
abbrev pub message_rank : MessageStatus → ℕ
message_rank queued = 0
message_rank sending = 1
message_rank sent = 2
message_rank delivered = 3
message_rank seen = 4
message_rank MessageStatus.failed = 5
message_rank blocked = 6

abbrev pub same_message_status : MessageStatus → MessageStatus → Bool
same_message_status a b = message_rank a == message_rank b

abbrev pub campaign_rank : CampaignStatus → ℕ
campaign_rank CampaignStatus.draft = 0
campaign_rank pending_approval = 1
campaign_rank CampaignStatus.approved = 2
campaign_rank CampaignStatus.scheduled = 3
campaign_rank CampaignStatus.running = 4
campaign_rank paused = 5
campaign_rank CampaignStatus.completed = 6
campaign_rank CampaignStatus.cancelled = 7
campaign_rank CampaignStatus.failed = 8

abbrev pub same_campaign_status : CampaignStatus → CampaignStatus → Bool
same_campaign_status a b = campaign_rank a == campaign_rank b

abbrev pub is_active_member : MemberStatus → Bool
is_active_member MemberStatus.active = true
is_active_member _ = false

-- `status in ['ACTIVE', 'INVITED']`
abbrev pub is_counted_member : MemberStatus → Bool
is_counted_member MemberStatus.active = true
is_counted_member MemberStatus.invited = true
is_counted_member MemberStatus.suspended = false

abbrev pub is_active_session : SupportStatus → Bool
is_active_session SupportStatus.active = true
is_active_session _ = false

abbrev pub is_published : ContentStatus → Bool
is_published published = true
is_published _ = false

abbrev pub is_scheduled_post : ContentStatus → Bool
is_scheduled_post ContentStatus.scheduled = true
is_scheduled_post _ = false

-- `status in ['COMPLETED', 'FAILED', 'CANCELLED']` of a job
abbrev pub is_finished_job : JobStatus → Bool
is_finished_job JobStatus.completed = true
is_finished_job JobStatus.failed = true
is_finished_job JobStatus.cancelled = true
is_finished_job _ = false

abbrev pub is_completed_job : JobStatus → Bool
is_completed_job JobStatus.completed = true
is_completed_job _ = false
