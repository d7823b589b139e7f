-- ===== src/Tests/Situations.antt =====
-- The environments of the examples, tokens of one user, and what the sample tenant becomes.
use tool_messager.Messages
use tool_messager.Prelude.{List, [], codes, false, none, some, true, ◌∷◌}
use tool_messager.Platform.{Adapter, failed, failure, succeeded, zalo_refresh_token_missing}
use tool_messager.Zalo.{ZaloEnv, zalo_adapter}
use tool_messager.Store.{
  AuditAction, CampaignStatus, Db, JobStatus, Message, Subscription, WebhookEvent, client_key,
  webhook_job,
}
use tool_messager.Campaigns.{approved_campaign}
use tool_messager.Workspaces.{add_audit}
use tool_messager.Scheduler.{Scheduler, SchedulerEnv}
use tool_messager.Messages.{SendEnv, SendInput}
use tool_messager.Worker.{World, process_zalo_webhook}
use tool_messager.Sessions.{AuthDb, AuthEnv, RefreshToken}
use tool_messager.Tests.Samples.{campaign, message, quiet_db}

abbrev pub zalo_env : ZaloEnv
zalo_env = record {
  client_id = codes "id";
  client_secret = codes "secret";
  redirect_uri = codes "https://a.b";
}

abbrev pub adapter : Adapter
adapter = zalo_adapter zalo_env

abbrev pub world : World
world = record {
  adapters = λ p. adapter;
  send = λ p t r c. succeeded (codes "m1");
  refresh = λ t. failure failed zalo_refresh_token_missing;
  publish = λ p. succeeded tt;
  encrypt = λ t. t;
  decrypt = λ t. some t;
  messages_per_minute = 3;
}

abbrev pub send_env : SendEnv
send_env = record { adapters = λ p. adapter; account_messages_per_minute = 3; queue_up = true }

abbrev pub send_input : SendInput
send_input = record {
  account_id = 5;
  contact_id = 6;
  content = codes "Hi";
  idempotency_key = codes "k";
  promotional = true;
}

abbrev refresh_row : RefreshToken
refresh_row = record {
  id = 1;
  user_id = 2;
  family_id = codes "f";
  parent_id = none;
  token_hash = codes "t";
  session_name = none;
  expires_at = 1000;
  revoked_at = none;
  reuse_detected_at = none;
}

abbrev pub auth_db : AuthDb
auth_db = record {
  next_id = 9;
  users =
      record {
        id = 2;
        email = codes "a@b.c";
        password_hash = codes "p";
        reset_token_hash = none;
        reset_token_expires_at = none;
        email_verified_at = none;
        deleted_at = none;
      }
      ∷ [];
  tokens = refresh_row ∷ [];
  email_tokens = [];
  audits = [];
}

abbrev pub used_db : AuthDb
used_db = record auth_db { tokens = record refresh_row { revoked_at = some 5 } ∷ [] }

abbrev pub auth_env : AuthEnv
auth_env = record {
  hash_token = λ t. t;
  verify = λ t. some record { sub = 2; is_refresh = true };
  verify_password = λ h p. true;
  hash_password = λ p. p;
  random = λ n. codes "r";
  sign = λ u f n. codes "next";
  access_ttl = some 900;
  refresh_days = some 30;
}

abbrev pub approved_db : Db
approved_db =
    add_audit 1 2 AuditAction.campaign_approved 8
      (record quiet_db { campaigns = approved_campaign 20 2 campaign ∷ [] })

abbrev pub rotated_db : AuthDb
rotated_db = record auth_db {
  next_id = 10;
  tokens =
      record refresh_row { revoked_at = some 20 }
      ∷ record refresh_row {
        id = 9;
        parent_id = some 1;
        token_hash = codes "next";
        expires_at = 2592000020;
      }
      ∷ [];
}

abbrev pub revoked_row_sample : RefreshToken
revoked_row_sample = record refresh_row { revoked_at = some 5 }

abbrev pub with_subscriptions : List Subscription → Db
with_subscriptions rows = record quiet_db { subscriptions = rows }

abbrev pub running_db : Db
running_db = record quiet_db {
  campaigns = record campaign { status = CampaignStatus.running } ∷ [];
}

abbrev pub unfollow_event : WebhookEvent
unfollow_event = record {
  id = 60;
  workspace_id = 1;
  event_type = codes "user_unfollow";
  payload = record {
    event_name = none;
    sender_id = some (codes "u6");
    sender_name = none;
    recipient_id = none;
    recipient_name = none;
    msg_id = none;
    msg_text = none;
    timestamp = none;
  };
  status = JobStatus.pending;
  attempts = 0;
  last_attempt_at = none;
  created_at = 15;
}

abbrev pub event_db : Db
event_db = record quiet_db { webhook_events = unfollow_event ∷ [] }

abbrev pub told_db : Db
told_db = (process_zalo_webhook 20 (webhook_job 5 (codes "w")) 60 5 event_db).1

abbrev pub sent_message : Message
sent_message = record message {
  id = 100;
  idempotency_key = client_key (codes "k");
  promotional = true;
}

abbrev pub sent_db : Db
sent_db = (Messages.send send_env 20 2 1 send_input quiet_db).1

abbrev pub scheduler_env : SchedulerEnv
scheduler_env = record {
  queue_up = true;
  maintenance_interval = 21600000;
  job_retention_days = 30;
  webhook_retention_days = 30;
  import_retention_days = 90;
  notification_retention_days = 180;
}

abbrev pub idle_scheduler : Scheduler
idle_scheduler = record { is_busy = false; healthy = true; last_maintenance_at = 0 }
