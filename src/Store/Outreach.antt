-- ===== src/Store/Outreach.antt =====
-- The rows of prisma/schema.prisma for campaigns, segments, conversations, messages and posts.
use tool_messager.Prelude.{Bool, Option, Text, ℕ}
use tool_messager.Shared.{ConsentStatus, Platform, SafetyCode}
use tool_messager.Store.Enums.{
  AccountStatus, CampaignStatus, ContentStatus, MessageDirection, MessageStatus,
}

-- Why a policy blocks outbound work.
pub data PolicyBlock : Type 0 where
  system_outbound_paused tenant_suspended subscription_not_configured : PolicyBlock
  subscription_expired daily_quota_exceeded monthly_quota_exceeded : PolicyBlock

-- The `errorCode` of a message.
pub data MessageError : Type 0 where
  unsafe_to_send : SafetyCode → MessageError
  blocked_by_policy : PolicyBlock → MessageError
  account_unavailable : AccountStatus → MessageError
  campaign_cancelled audience_excluded synthetic_recipient : MessageError
  invalid_platform_recipient message_send_failed : MessageError

pub data Statistics : Type 0 where
  counted : (queued sent failed blocked : ℕ) → Statistics
  stopped_by : PolicyBlock → Statistics

pub record Campaign : Type 0 where
  pub id : ℕ
  pub workspace_id : ℕ
  pub account_id : Option ℕ
  pub template_id : Option ℕ
  pub platform : Platform
  pub promotional : Bool
  pub scheduled_at : Option ℕ
  pub status : CampaignStatus
  pub statistics : Statistics
  pub approved_by : Option ℕ
  pub approved_at : Option ℕ
  pub deleted_at : Option ℕ

-- `Segment.filter`, field by field; a field that is absent or of another type is `none`.
pub record SegmentFilter : Type 0 where
  pub platform : Option Platform
  pub consent_status : Option ConsentStatus
  pub suppressed : Option Bool
  pub tag_id : Option ℕ
  pub source : Option Text
  pub search : Option Text

pub record Segment : Type 0 where
  pub id : ℕ
  pub workspace_id : ℕ
  pub name : Text
  pub filter : SegmentFilter
  pub estimated_size : ℕ
  pub last_evaluated : Option ℕ

pub record Tag : Type 0 where
  pub id : ℕ
  pub workspace_id : ℕ
  pub name : Text
  pub color : Option Text

pub record ContactTag : Type 0 where
  pub contact_id : ℕ
  pub tag_id : ℕ

-- `included` is the status 'INCLUDED', against 'EXCLUDED'.
pub record AudienceMember : Type 0 where
  pub campaign_id : ℕ
  pub contact_id : ℕ
  pub included : Bool
  pub excluded_reason : Option MessageError

pub record CampaignMessage : Type 0 where
  pub campaign_id : ℕ
  pub contact_id : ℕ
  pub message_id : Option ℕ
  pub status : MessageStatus
  pub error_code : Option MessageError

pub data ConversationKey : Type 0 where
  of_contact : ℕ → ConversationKey
  of_zalo_user : Text → ConversationKey

pub record Conversation : Type 0 where
  pub id : ℕ
  pub workspace_id : ℕ
  pub account_id : ℕ
  pub key : ConversationKey
  pub contact_id : Option ℕ

-- `campaign:<campaign>:contact:<contact>`, `zalo-webhook:<account>:<message>`, or the client's own.
pub data IdempotencyKey : Type 0 where
  client_key : Text → IdempotencyKey
  campaign_key : (campaign contact : ℕ) → IdempotencyKey
  webhook_key : (account : ℕ) → Text → IdempotencyKey

-- `promotional` is the metadata's field of that name being `true`.
pub record Message : Type 0 where
  pub id : ℕ
  pub workspace_id : ℕ
  pub conversation_id : ℕ
  pub account_id : ℕ
  pub platform : Platform
  pub platform_message_id : Option Text
  pub idempotency_key : IdempotencyKey
  pub sender_id : Text
  pub receiver_id : Text
  pub content : Text
  pub direction : MessageDirection
  pub status : MessageStatus
  pub timestamp : ℕ
  pub created_at : ℕ
  pub error_code : Option MessageError
  pub promotional : Bool

pub data EventType : Type 0 where
  blocked_event sent_event failed_event received_event : EventType

pub record MessageEvent : Type 0 where
  pub workspace_id : ℕ
  pub message_id : ℕ
  pub event_type : EventType

pub record Post : Type 0 where
  pub id : ℕ
  pub workspace_id : ℕ
  pub account_id : ℕ
  pub platform : Platform
  pub title : Option Text
  pub content : Text
  pub idempotency_key : Text
  pub status : ContentStatus
  pub scheduled_at : Option ℕ
  pub approved_by : Option ℕ
  pub approved_at : Option ℕ
  pub published_at : Option ℕ
  pub deleted_at : Option ℕ
