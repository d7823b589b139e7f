-- ===== src/Tests/Fixtures.antt =====
-- Logins, webhook events, segments and posts of the small tenant.
use tool_messager.Prelude.{Option, Text, [], codes, false, none, pos, some, true, ◌∷◌}
use tool_messager.Shared.{Platform, supported}
use tool_messager.Platform.{Adapter}
use tool_messager.Zalo.{ZaloApi, ZaloRawOaInfo, network_error, replied, text}
use tool_messager.Store.{
  Contact, Credential, Db, OauthState, Post, Segment, SocialAccount, limited, published,
}
use tool_messager.Accounts.{OauthEnv}
use tool_messager.Accounts.Oauth.{OauthCallback}
use tool_messager.Accounts.Intake.{IntakeEnv, ZaloWebhookPayload}
use tool_messager.Contacts.{SuppressionInput}
use tool_messager.Campaigns.Creation.{CreateCampaign}
use tool_messager.Tests.Samples.{account, contact, quiet_db}
use tool_messager.Tests.Situations.{zalo_env}

abbrev pub intake_env : IntakeEnv
intake_env = record {
  oa_secret_key = [];
  client_secret = codes "s";
  client_id = codes "id";
  setup_mode = false;
  hash = λ t. codes "h";
  queue_up = true;
}

abbrev pub unfollow_payload : ZaloWebhookPayload
unfollow_payload = record {
  app_id = some (text (codes "id"));
  oa_id = some (text (codes "oa"));
  event_name = some (codes "user_unfollow");
  timestamp = some (text (codes "1000"));
  sender_id = some (text (codes "u6"));
  sender_name = none;
  recipient_id = none;
  recipient_name = none;
  msg_id = none;
  msg_text = none;
}

abbrev pub raw_body : Option Text
raw_body = some (codes "b")

abbrev pub signature : Option Text
signature = some (codes "mac=h")

abbrev raw_info : ZaloRawOaInfo
raw_info = record {
  oaid = some (text (codes "oa"));
  oa_id = none;
  name = some (codes "OA");
  oa_alias = none;
  avatar = none;
  cover = none;
  description = none;
  is_verified = none;
  oa_type = none;
  cate_name = none;
  num_follower = none;
  package_name = none;
  package_valid_through_date = none;
  package_auto_renew_date = none;
  linked_upper_zca = none;
  linked_zca = none;
}

abbrev pub answering_api : ZaloApi
answering_api = record {
  oa = λ r. replied 200 (some (record { content = some raw_info; error = some (pos 0) }));
  advisory = λ r. network_error;
  tokens = λ r. replied 200 (
      some (record {
        access_token = some (codes "at");
        refresh_token = some (codes "rt");
        expires_in = some (text (codes "3600"));
        error = none;
        error_name = none;
      }));
}

abbrev pub oauth_env : OauthEnv
oauth_env = record {
  zalo = zalo_env;
  api = answering_api;
  hash = λ t. t;
  challenge = λ t. t;
  encrypt = λ t. t;
  decrypt = λ t. some t;
  with_oauth_state = λ u s. some u;
}

abbrev login_state : OauthState
login_state = record {
  id = 70;
  platform = Platform.zalo;
  state_hash = codes "st";
  encrypted_code_verifier = codes "v";
  redirect_uri = codes "https://a.b";
  workspace_id = 1;
  user_id = 2;
  expires_at = 1000;
  used_at = none;
  created_at = 10;
}

abbrev pub login_db : Db
login_db = record quiet_db { oauth_states = login_state ∷ [] }

abbrev pub callback : OauthCallback
callback = record {
  auth_code = some (codes "c");
  oa_id = none;
  state = some (codes "st");
  oauth_state = none;
  error = none;
}

abbrev pub sealed_credential : Credential
sealed_credential = record {
  encrypted_access_token = codes "sealed";
  encrypted_refresh_token = some (codes "r");
  token_version = 1;
}

-- An account that an administrator has paused.
abbrev pub limited_account : SocialAccount
limited_account = record account { status = limited; credential = some sealed_credential }

abbrev pub limited_db : Db
limited_db = record quiet_db { accounts = limited_account ∷ [] }

abbrev pub user_entry : SuppressionInput
user_entry = record {
  platform = some Platform.zalo;
  platform_user_id = some (codes "u6");
  phone = none;
}

abbrev pub sourced_contact : Contact
sourced_contact = record contact { source = some (codes "S") }

abbrev pub everybody : Segment
everybody = record {
  id = 40;
  workspace_id = 1;
  name = codes "All";
  filter = record {
    platform = some Platform.zalo;
    consent_status = none;
    suppressed = none;
    tag_id = none;
    source = none;
    search = none;
  };
  estimated_size = 0;
  last_evaluated = none;
}

abbrev pub segment_db : Db
segment_db = record quiet_db { contacts = sourced_contact ∷ []; segments = everybody ∷ [] }

abbrev pub segment_input : CreateCampaign
segment_input = record {
  account_id = 5;
  template_id = 7;
  promotional = some true;
  contact_ids = none;
  segment_id = some 40;
}

abbrev pub all_capable : Platform → Adapter
all_capable p = record { platform = p; capabilities = λ c. supported; is_configured = true }

-- A post that is published already.
abbrev pub old_post : Post
old_post = record {
  id = 30;
  workspace_id = 1;
  account_id = 5;
  platform = Platform.zalo;
  title = none;
  content = codes "Hi";
  idempotency_key = codes "p";
  status = published;
  scheduled_at = none;
  approved_by = none;
  approved_at = none;
  published_at = some 15;
  deleted_at = none;
}

abbrev pub post_db : Db
post_db = record quiet_db { posts = old_post ∷ [] }
