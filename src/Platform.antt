-- ===== src/Platform.antt =====
-- packages/platform-core/src/index.ts, and the adapters packages/platform-facebook/src/index.ts and
-- packages/platform-tiktok/src/index.ts that only declare capabilities.
pub mod Unavailable
use tool_messager.Prelude.{Bool, Option, Text, if◌then◌else◌, is_empty, none, not, some, ℕ, ℤ, ◌&&◌}
use tool_messager.Shared.{
  CapabilityStatus, Platform, facebook, is_supported, not_supported, permission_required, supported,
  tiktok,
}

pub data PlatformCapability : Type 0 where
  authenticates contacts friends groups group_members messaging media : PlatformCapability
  post_create post_update post_delete message_history group_create : PlatformCapability
  group_member_manage analytics : PlatformCapability

abbrev pub CapabilityMatrix : Type 0
CapabilityMatrix = PlatformCapability → CapabilityStatus

pub data OperationStatus : Type 0 where
  success unconfigured unsupported failed : OperationStatus

-- What the Zalo API reports as its error, or the HTTP status where it reports none.
pub data ReportedError : Type 0 where
  numbered : ℤ → ReportedError
  named : Text → ReportedError
  http : ℕ → ReportedError

pub data ErrorCode : Type 0 where
  platform_not_configured platform_not_supported platform_unavailable : ErrorCode
  zalo_oauth_input_invalid zalo_refresh_token_missing zalo_access_token_missing : ErrorCode
  zalo_message_input_invalid zalo_oa_response_invalid zalo_token_response_invalid : ErrorCode
  zalo_oa_request_failed zalo_message_request_failed zalo_oauth_request_failed : ErrorCode
  zalo_refresh_failed account_not_configured admin_paused_account sync_failed : ErrorCode
  zalo_api zalo_oauth : ReportedError → ErrorCode

-- PlatformOperationResult: the human-readable `message` is not carried.
pub record OperationResult (T : Type 0) : Type 0 where
  pub status : OperationStatus
  pub payload : Option T
  pub error_code : Option ErrorCode

abbrev pub failure : {T : Type 0} → OperationStatus → ErrorCode → OperationResult T
failure s e = record { status = s; payload = none; error_code = some e }

abbrev pub succeeded : {T : Type 0} → T → OperationResult T
succeeded x = record { status = success; payload = some x; error_code = none }

pub record AdapterContext : Type 0 where
  pub workspace_id : ℕ
  pub account_id : ℕ
  pub access_token : Option Text

-- The three methods that tell the adapters apart; `configured` has read the environment.
pub record Adapter : Type 0 where
  pub platform : Platform
  pub capabilities : CapabilityMatrix
  pub is_configured : Bool

unfoldable pub unavailable : {T : Type 0} → Adapter → PlatformCapability → OperationResult T
unavailable a capability =
    if not a.is_configured
    then failure unconfigured platform_not_configured
    else (if not (is_supported (a.capabilities capability))
        then failure unsupported platform_not_supported
        else failure failed platform_unavailable)

-- The methods of PlatformAdapter.
pub data Operation : Type 0 where
  authenticate disconnect get_account_info get_contacts get_friends get_groups : Operation
  get_group_members send_message send_media create_post update_post delete_post : Operation
  get_messages get_message_history create_group add_member remove_member : Operation
  get_analytics refresh_data : Operation

unfoldable pub required_capability : Operation → PlatformCapability
required_capability authenticate = authenticates
required_capability disconnect = authenticates
required_capability get_account_info = authenticates
required_capability get_contacts = contacts
required_capability get_friends = friends
required_capability get_groups = groups
required_capability get_group_members = group_members
required_capability send_message = messaging
required_capability send_media = media
required_capability create_post = post_create
required_capability update_post = post_update
required_capability delete_post = post_delete
required_capability get_messages = message_history
required_capability get_message_history = message_history
required_capability create_group = group_create
required_capability add_member = group_member_manage
required_capability remove_member = group_member_manage
required_capability get_analytics = analytics
required_capability refresh_data = analytics

-- OfficialApiAdapter's own methods, which an adapter has unless it overrides them.
unfoldable pub official_operation : {T : Type 0} → Adapter → Operation → OperationResult T
unfolding unavailable required_capability
official_operation a op = unavailable a (required_capability op)

unfoldable pub facebook_matrix : CapabilityMatrix
facebook_matrix authenticates = supported
facebook_matrix friends = not_supported
facebook_matrix group_members = not_supported
facebook_matrix group_create = not_supported
facebook_matrix group_member_manage = not_supported
facebook_matrix _ = permission_required

unfoldable pub tiktok_matrix : CapabilityMatrix
tiktok_matrix authenticates = supported
tiktok_matrix media = permission_required
tiktok_matrix post_create = permission_required
tiktok_matrix post_delete = permission_required
tiktok_matrix analytics = permission_required
tiktok_matrix _ = not_supported

-- An unset environment variable is the empty text: the code treats the two alike.
unfoldable pub facebook_adapter : (client_id client_secret : Text) → Adapter
unfolding facebook_matrix
facebook_adapter client_id client_secret = record {
  platform = facebook;
  capabilities = facebook_matrix;
  is_configured = not (is_empty client_id) && not (is_empty client_secret);
}

unfoldable pub tiktok_adapter : (client_id client_secret : Text) → Adapter
unfolding tiktok_matrix
tiktok_adapter client_id client_secret = record {
  platform = tiktok;
  capabilities = tiktok_matrix;
  is_configured = not (is_empty client_id) && not (is_empty client_secret);
}
