-- ===== src/Accounts/Intake.antt =====
-- `accept` of apps/api/src/accounts/zalo-webhook.service.ts: an event that Zalo posts is stored and
-- queued once, if it is genuine.
use tool_messager.Prelude.{
  Bool, Exec, Option, Text, [], any, codes, err, false, find_first, get_or_else, if◌then◌else◌,
  is_empty, is_some, ltb, modify, none, not, ok, read, require, require_some, return, some,
  starts_with, take, text_eq, trim, true, ℕ, ◌&&◌, ◌++◌, ◌+◌, ◌-◌, ◌>>=◌, ◌>>◌, ◌||◌, ◌∷◌,
}
use tool_messager.Shared.{same_platform, zalo}
use tool_messager.Zalo.{Scalar, first_given, is_truthy, non_empty, scalar_number, string_of}
use tool_messager.Store.{
  Db, JobKey, JobStatus, QueueEntry, SocialAccount, WebhookEvent, ZaloWebhook, for_event,
  has_job_key, is_none, new_job, webhook_job, webhook_process,
}
use tool_messager.Workspaces.{ServiceError, bad_request, service_unavailable, unauthorized}
use tool_messager.Campaigns.{add_to_queue}

-- The environment's variables, empty where they are not set; `hash` is the hexadecimal SHA-256.
pub record IntakeEnv : Type 0 where
  pub oa_secret_key : Text
  pub client_secret : Text
  pub client_id : Text
  pub setup_mode : Bool
  pub hash : Text → Text
  pub queue_up : Bool

-- The JSON of an event: the fields that the service reads, and those that only the worker reads.
pub record ZaloWebhookPayload : Type 0 where
  pub app_id : Option Scalar
  pub oa_id : Option Scalar
  pub event_name : Option Text
  pub timestamp : Option Scalar
  pub sender_id : Option Scalar
  pub sender_name : Option Text
  pub recipient_id : Option Scalar
  pub recipient_name : Option Text
  pub msg_id : Option Scalar
  pub msg_text : Option Text

pub data Accepted : Type 0 where
  accepted duplicate probe : Accepted

abbrev as_text : Option Scalar → Option Text
as_text none = none
as_text (some s) = some (string_of s)

-- The payload as the worker reads it.
abbrev pub stored_payload : ZaloWebhookPayload → ZaloWebhook
stored_payload p = record {
  event_name = p.event_name;
  sender_id = as_text p.sender_id;
  sender_name = p.sender_name;
  recipient_id = as_text p.recipient_id;
  recipient_name = p.recipient_name;
  msg_id = as_text p.msg_id;
  msg_text = p.msg_text;
  timestamp = scalar_number p.timestamp;
}

-- `!rawBody?.length || !payload.app_id || !payload.timestamp || !payload.event_name`
unfoldable pub is_probe : (raw : Option Text) → ZaloWebhookPayload → Bool
is_probe raw p =
    not (is_some (non_empty raw))
    || not (is_truthy p.app_id)
    || not (is_truthy p.timestamp)
    || not (is_some (non_empty p.event_name))

abbrev pub secret_of : IntakeEnv → Text
secret_of env =
    if is_empty (trim env.oa_secret_key) then trim env.client_secret else trim env.oa_secret_key

abbrev pub text_of : Option Scalar → Text
text_of s = get_or_else (as_text s) []

abbrev pub name_given : ZaloWebhookPayload → Text
name_given p = get_or_else p.event_name []

abbrev pub replay_window : ℕ
replay_window = 600000

-- Times are whole milliseconds; `none` is a timestamp that is no number.
abbrev pub is_recent : (now : ℕ) → Option ℕ → Bool
is_recent now none = false
is_recent now (some t) = not (ltb replay_window (now - t + (t - now)))

unfoldable pub expected_mac : IntakeEnv → (raw : Text) → ZaloWebhookPayload → Text
expected_mac env raw p =
    codes "mac=" ++ env.hash (trim env.client_id ++ (raw ++ (text_of p.timestamp ++ secret_of env)))

-- `payload.oa_id ?? (name.startsWith('user_') ? recipient?.id : sender?.id)`
unfoldable pub official_account_of : ZaloWebhookPayload → Option Text
official_account_of p =
    let oa =
      first_given p.oa_id
        (if starts_with (codes "user_") (name_given p) then p.recipient_id else p.sender_id) in
    if is_truthy oa then as_text oa else none

abbrev pub is_official_account : Text → SocialAccount → Bool
is_official_account oa a =
    same_platform a.platform zalo && text_eq a.platform_account_id oa && is_none a.deleted_at

abbrev pub event_key : ZaloWebhookPayload → Text
event_key p = get_or_else (as_text p.msg_id) (name_given p ++ (codes ":" ++ text_of p.timestamp))

unfoldable pub event_job : IntakeEnv → (account : ℕ) → ZaloWebhookPayload → JobKey
event_job env account p = webhook_job account (take 32 (env.hash (event_key p)))

abbrev pub arrived_event : (now id workspace : ℕ) → ZaloWebhookPayload → WebhookEvent
arrived_event now id workspace p = record {
  id = id;
  workspace_id = workspace;
  event_type = name_given p;
  payload = stored_payload p;
  status = JobStatus.pending;
  attempts = 0;
  last_attempt_at = none;
  created_at = now;
}

-- The event and its job, which one transaction creates.
unfoldable pub store_event : IntakeEnv → (now : ℕ) → ZaloWebhookPayload → SocialAccount → Db → Db
store_event env now p a db = record db {
  next_id = db.next_id + 1;
  webhook_events = db.webhook_events ++ arrived_event now db.next_id a.workspace_id p ∷ [];
  jobs =
      db.jobs
      ++ new_job a.workspace_id webhook_process (event_job env a.id p) (for_event db.next_id a.id)
        ∷ [];
}

abbrev pub event_entry : IntakeEnv → ZaloWebhookPayload → SocialAccount → (event : ℕ) → QueueEntry
event_entry env p a event = record {
  queue = webhook_process;
  job_id = event_job env a.id p;
  payload = for_event event a.id;
}

store_and_queue :
    IntakeEnv → (now : ℕ) → ZaloWebhookPayload → SocialAccount → Exec Db ServiceError Accepted
unfolding store_event
store_and_queue env now p a = do
  event ← read (λ db. db.next_id)
  modify (store_event env now p a)
  add_to_queue env.queue_up (event_entry env p a event)
  return accepted

unfoldable pub receive_once :
    IntakeEnv → (now : ℕ) → ZaloWebhookPayload → SocialAccount → Exec Db ServiceError Accepted
unfolding store_and_queue
receive_once env now p a db =
    if any (has_job_key (event_job env a.id p)) db.jobs
    then (ok duplicate, db)
    else store_and_queue env now p a db

unfoldable pub receive : IntakeEnv → (now : ℕ) → ZaloWebhookPayload → Exec Db ServiceError Accepted
receive env now p = do
  oa ← require_some (official_account_of p) bad_request
  a ← read (λ db. find_first (is_official_account oa) db.accounts)
  a ← require_some a bad_request
  receive_once env now p a

-- A wrong signature is only acknowledged in setup mode.
after_signature : Bool → IntakeEnv → (now : ℕ) → ZaloWebhookPayload → Exec Db ServiceError Accepted
after_signature true env now p db = receive env now p db
after_signature false env now p db =
    if env.setup_mode then (ok probe, db) else (err unauthorized, db)

unfoldable pub judge_envelope :
    IntakeEnv
    → (now : ℕ) → (raw : Text) → (signature : Option Text) → ZaloWebhookPayload
    → Exec Db ServiceError Accepted
unfolding after_signature
judge_envelope env now raw signature p = do
  require (not (is_empty (secret_of env)) && not (is_empty (trim env.client_id)))
      service_unavailable
  given ← require_some (non_empty signature) bad_request
  require (text_eq (text_of p.app_id) (trim env.client_id)) unauthorized
  require (is_recent now (scalar_number p.timestamp)) unauthorized
  after_signature (text_eq given (expected_mac env raw p)) env now p

unfoldable pub accept :
    IntakeEnv
    → (now : ℕ) → (raw signature : Option Text) → ZaloWebhookPayload
    → Exec Db ServiceError Accepted
accept env now raw signature p db =
    if is_probe raw p
    then (ok probe, db)
    else judge_envelope env now (get_or_else raw []) signature p db
