-- ===== src/Store/Rows.antt =====
-- The rows of prisma/schema.prisma for tenants, accounts, contacts, campaigns, messages and posts, with
-- the fields that the modelled code reads or writes.
use tool_messager.Prelude.{Bool, List, Option, Text, none, ℕ}
use tool_messager.Shared.{ConsentStatus, Platform}
use tool_messager.Access.{WorkspaceRole}
use tool_messager.Platform.{ErrorCode}
use tool_messager.Store.Enums.{
  AccountStatus, ContactStatus, MemberStatus, PlanCode, SubscriptionStatus, SupportStatus,
  SuppressionScope, TenantStatus,
}

pub record SystemControl : Type 0 where
  pub outbound_paused : Bool
  pub updated_by : Option ℕ

pub record Workspace : Type 0 where
  pub id : ℕ
  pub status : TenantStatus
  pub suspended_at : Option ℕ
  pub deleted_at : Option ℕ

pub record WorkspaceMember : Type 0 where
  pub workspace_id : ℕ
  pub user_id : ℕ
  pub role : WorkspaceRole
  pub status : MemberStatus

pub record SupportSession : Type 0 where
  pub id : ℕ
  pub admin_id : ℕ
  pub workspace_id : ℕ
  pub status : SupportStatus
  pub expires_at : ℕ

-- The limits of a plan, as a tenant's entitlements carry them too.
pub record Limits : Type 0 where
  pub max_zalo_accounts : ℕ
  pub max_users : ℕ
  pub max_contacts : ℕ
  pub max_campaigns : ℕ
  pub max_messages_per_day : ℕ
  pub max_messages_per_month : ℕ
  pub max_storage_bytes : ℕ
  pub automation_enabled : Bool
  pub analytics_enabled : Bool
  pub api_enabled : Bool

pub data LimitKey : Type 0 where
  zalo_accounts users contact_limit campaign_limit messages_per_day messages_per_month : LimitKey
  storage_bytes automation analytics_access api_access : LimitKey

-- The JSON under a key of `Subscription.overrides`.
pub data OverrideValue : Type 0 where
  absent : OverrideValue
  number : ℕ → OverrideValue
  boolean : Bool → OverrideValue
  text : Text → OverrideValue

pub data Overrides : Type 0 where
  not_object : Overrides
  object : (LimitKey → OverrideValue) → Overrides

pub record Subscription : Type 0 where
  pub id : ℕ
  pub workspace_id : ℕ
  pub plan_code : PlanCode
  pub plan : Limits
  pub start_at : ℕ
  pub end_at : ℕ
  pub status : SubscriptionStatus
  pub overrides : Overrides

pub record Credential : Type 0 where
  pub encrypted_access_token : Text
  pub encrypted_refresh_token : Option Text
  pub token_version : ℕ

-- `SocialAccount.metadata`, key by key.
pub record AccountMetadata : Type 0 where
  pub description : Option Text
  pub cover : Option Text
  pub is_verified : Option Bool
  pub oa_type : Option ℕ
  pub category_name : Option Text
  pub follower_count : Option ℕ
  pub package_name : Option Text
  pub package_valid_through_date : Option Text
  pub package_auto_renew_date : Option Text
  pub linked_zca : Option Text
  pub admin_paused : Option Bool

abbrev pub no_metadata : AccountMetadata
no_metadata = record {
  description = none;
  cover = none;
  is_verified = none;
  oa_type = none;
  category_name = none;
  follower_count = none;
  package_name = none;
  package_valid_through_date = none;
  package_auto_renew_date = none;
  linked_zca = none;
  admin_paused = none;
}

pub record SocialAccount : Type 0 where
  pub id : ℕ
  pub workspace_id : ℕ
  pub platform : Platform
  pub platform_account_id : Text
  pub username : Option Text
  pub display_name : Text
  pub avatar_url : Option Text
  pub metadata : AccountMetadata
  pub status : AccountStatus
  pub permissions : List Text
  pub token_expires_at : Option ℕ
  pub last_error_code : Option ErrorCode
  pub credential : Option Credential
  pub deleted_at : Option ℕ

pub record MediaAsset : Type 0 where
  pub workspace_id : ℕ
  pub size : ℕ
  pub deleted_at : Option ℕ

pub record Contact : Type 0 where
  pub id : ℕ
  pub workspace_id : ℕ
  pub platform : Platform
  pub platform_user_id : Option Text
  pub display_name : Text
  pub username : Option Text
  pub phone : Option Text
  pub normalized_phone : Option Text
  pub email : Option Text
  pub gender : Option Text
  pub source : Option Text
  pub consent_status : ConsentStatus
  pub suppressed : Bool
  pub status : ContactStatus
  pub deleted_at : Option ℕ

pub record ContactConsent : Type 0 where
  pub contact_id : ℕ
  pub status : ConsentStatus
  pub consent_at : Option ℕ
  pub opt_out_at : Option ℕ

pub record SuppressionEntry : Type 0 where
  pub id : ℕ
  pub scope : SuppressionScope
  pub workspace_id : Option ℕ
  pub platform : Option Platform
  pub platform_user_id : Option Text
  pub normalized_phone : Option Text

pub record MessageTemplate : Type 0 where
  pub id : ℕ
  pub workspace_id : ℕ
  pub name : Text
  pub content : Text
  pub variables : List Text
  pub version : ℕ
  pub status : Text
  pub deleted_at : Option ℕ
