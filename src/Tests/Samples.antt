-- ===== src/Tests/Samples.antt =====
-- A small tenant: a workspace with an owner, a subscription, a Zalo account, a contact and a campaign.
use tool_messager.Prelude.{[], codes, false, none, some, true, ◌∷◌}
use tool_messager.Shared.{opted_in, zalo}
use tool_messager.Access.{owner}
use tool_messager.Store.{
  Campaign, CampaignStatus, Contact, ContactStatus, Db, Limits, MemberStatus, Message,
  MessageTemplate, SocialAccount, Subscription, SubscriptionStatus, TenantStatus, Workspace, basic,
  client_key, connected, counted, no_metadata, not_object, of_contact, outbound, queued,
}

abbrev pub limits : Limits
limits = record {
  max_zalo_accounts = 1;
  max_users = 2;
  max_contacts = 10;
  max_campaigns = 2;
  max_messages_per_day = 5;
  max_messages_per_month = 50;
  max_storage_bytes = 1000;
  automation_enabled = true;
  analytics_enabled = false;
  api_enabled = false;
}

abbrev pub tenant_workspace : Workspace
tenant_workspace = record {
  id = 1;
  status = TenantStatus.active;
  suspended_at = none;
  deleted_at = none;
}

abbrev pub subscription : Subscription
subscription = record {
  id = 4;
  workspace_id = 1;
  plan_code = basic;
  plan = limits;
  start_at = 10;
  end_at = 90000000000;
  status = SubscriptionStatus.active;
  overrides = not_object;
}

abbrev pub account : SocialAccount
account = record {
  id = 5;
  workspace_id = 1;
  platform = zalo;
  platform_account_id = codes "oa";
  username = none;
  display_name = codes "OA";
  avatar_url = none;
  metadata = no_metadata;
  status = connected;
  permissions = [];
  token_expires_at = none;
  last_error_code = none;
  credential = some record {
    encrypted_access_token = codes "sealed";
    encrypted_refresh_token = none;
    token_version = 1;
  };
  deleted_at = none;
}

abbrev pub contact : Contact
contact = record {
  id = 6;
  workspace_id = 1;
  platform = zalo;
  platform_user_id = some (codes "u6");
  display_name = codes "An Binh";
  username = none;
  phone = none;
  normalized_phone = none;
  email = none;
  gender = none;
  source = none;
  consent_status = opted_in;
  suppressed = false;
  status = ContactStatus.active;
  deleted_at = none;
}

abbrev pub template : MessageTemplate
template = record {
  id = 7;
  workspace_id = 1;
  name = codes "T";
  content = codes "Hi";
  variables = [];
  version = 1;
  status = codes "ACTIVE";
  deleted_at = none;
}

abbrev pub campaign : Campaign
campaign = record {
  id = 8;
  workspace_id = 1;
  account_id = some 5;
  template_id = some 7;
  platform = zalo;
  promotional = true;
  scheduled_at = none;
  status = CampaignStatus.pending_approval;
  statistics = counted 0 0 0 0;
  approved_by = none;
  approved_at = none;
  deleted_at = none;
}

abbrev pub message : Message
message = record {
  id = 9;
  workspace_id = 1;
  conversation_id = 3;
  account_id = 5;
  platform = zalo;
  platform_message_id = none;
  idempotency_key = client_key (codes "k");
  sender_id = codes "oa";
  receiver_id = codes "u6";
  content = codes "Hi";
  direction = outbound;
  status = queued;
  timestamp = 20;
  created_at = 20;
  error_code = none;
  promotional = false;
}

-- The tenant before anything was sent.
abbrev pub quiet_db : Db
quiet_db = record {
  next_id = 100;
  control = none;
  workspaces = tenant_workspace ∷ [];
  members =
      record { workspace_id = 1; user_id = 2; role = owner; status = MemberStatus.active } ∷ [];
  support_sessions = [];
  subscriptions = subscription ∷ [];
  accounts = account ∷ [];
  contacts = contact ∷ [];
  consents = [];
  suppressions = [];
  templates = template ∷ [];
  segments = [];
  contact_tags = [];
  campaigns = campaign ∷ [];
  audience =
      record { campaign_id = 8; contact_id = 6; included = true; excluded_reason = none } ∷ [];
  campaign_messages = [];
  conversations =
      record { id = 3; workspace_id = 1; account_id = 5; key = of_contact 6; contact_id = some 6 }
      ∷ [];
  messages = [];
  message_events = [];
  posts = [];
  jobs = [];
  queue = [];
  notifications = [];
  audits = [];
  rates = [];
  import_jobs = [];
  import_rows = [];
  webhook_events = [];
  oauth_states = [];
  tags = [];
  sync_jobs = [];
  post_schedules = [];
  media = [];
  paused_queues = [];
}

abbrev pub message_db : Db
message_db = record quiet_db { messages = message ∷ [] }

abbrev pub set_only_campaign : CampaignStatus → Db
set_only_campaign s = record quiet_db { campaigns = record campaign { status = s } ∷ [] }
