-- ===== src/Worker/Webhook.antt =====
-- `processZaloWebhook` and the failure handler of the webhook worker of apps/worker/src/main.ts.
use tool_messager.Prelude.{
  Bool, Option, Text, [], any, codes, decimal, false, find_first, get_or_else, if◌then◌else◌,
  includes, is_empty, last_units, ltb, modify, none, not, ok, require, some, starts_with, text_eq,
  trim, true, update_where, ℕ, ◌&&◌, ◌++◌, ◌+◌, ◌==◌, ◌>>◌, ◌||◌, ◌∷◌,
}
use tool_messager.Shared.{opted_out, same_platform, unknown, zalo}
use tool_messager.Store.{
  Contact, ContactStatus, Db, JobKey, JobStatus, Message, MessageStatus, SocialAccount,
  SuppressionEntry, WebhookEvent, delivered, do_not_contact, finish_job, inbound, is_completed_job,
  is_none, number_is, of_zalo_user, outbound, received_event, sent, sent_event, start_job, tenant,
  text_is, update_job, webhook_key, zalo_message_received,
}
use tool_messager.Phone.{given}
use tool_messager.Worker.Base.{Work, update_account, webhook_user_missing}
use tool_messager.Worker.Progress.{add_event, add_notification, update_message}
use tool_messager.Worker.Campaign.{open_conversation}
use tool_messager.Worker.Jobs.{consent_row, same_user}

abbrev pub event_by_id : Db → ℕ → Option WebhookEvent
event_by_id db id = find_first (λ e. e.id == id) db.webhook_events

abbrev pub zalo_account : Db → ℕ → Option SocialAccount
zalo_account db id =
    find_first (λ a. a.id == id && same_platform a.platform zalo && is_none a.deleted_at)
      db.accounts

abbrev pub name_of : WebhookEvent → Text
name_of e = get_or_else e.payload.event_name e.event_type

-- Names that begin so come from the user, the others from the official account.
abbrev pub is_inbound : WebhookEvent → Bool
is_inbound e = starts_with (codes "user_") (name_of e)

abbrev pub user_of : WebhookEvent → Text
user_of e = get_or_else (if is_inbound e then e.payload.sender_id else e.payload.recipient_id) []

abbrev trimmed : Option Text → Option Text
trimmed none = none
trimmed (some t) = some (trim t)

abbrev pub display_name_of : WebhookEvent → Option Text
display_name_of e =
    given (trimmed (if is_inbound e then e.payload.sender_name else e.payload.recipient_name))

abbrev rename : Option Text → Contact → Contact
rename none c = c
rename (some name) c = record c { display_name = name }

abbrev webhook_contact : (id workspace : ℕ) → (user : Text) → Option Text → Contact
webhook_contact id workspace user name = record {
  id = id;
  workspace_id = workspace;
  platform = zalo;
  platform_user_id = some user;
  display_name = get_or_else name (codes "Zalo " ++ last_units 6 user);
  username = none;
  phone = none;
  normalized_phone = none;
  email = none;
  gender = none;
  source = some (codes "ZALO_WEBHOOK");
  consent_status = unknown;
  suppressed = false;
  status = ContactStatus.active;
  deleted_at = none;
}

-- `contact.upsert`: the contact, and the state with it.
unfoldable pub upsert_contact : (workspace : ℕ) → (user : Text) → Option Text → Db → Contact × Db
upsert_contact workspace user name db =
    elim (find_first (same_user workspace zalo user) db.contacts) [
      | some c ↦ (
        rename name c,
        record db { contacts = update_where (λ r. r.id == c.id) (rename name) db.contacts },
      )
      | none ↦ (
        webhook_contact db.next_id workspace user name,
        record db {
          next_id = db.next_id + 1;
          contacts = db.contacts ++ webhook_contact db.next_id workspace user name ∷ [];
        },
      )
    ]

abbrev pub is_opt_out_event : WebhookEvent → Bool
is_opt_out_event e =
    text_eq (name_of e) (codes "user_unfollow") || text_eq (name_of e) (codes "user_withdraw")

abbrev pub opt_out_contact : Contact → Contact
opt_out_contact c = record c {
  consent_status = opted_out;
  suppressed = true;
  status = do_not_contact;
}

abbrev pub names_user : (workspace : ℕ) → Text → SuppressionEntry → Bool
names_user workspace user s =
    number_is s.workspace_id workspace
    && elim s.platform [ none ↦ false | some p ↦ same_platform p zalo ]
    && text_is s.platform_user_id user

abbrev pub zalo_suppression : (id workspace : ℕ) → Text → SuppressionEntry
zalo_suppression id workspace user = record {
  id = id;
  scope = tenant;
  workspace_id = some workspace;
  platform = some zalo;
  platform_user_id = some user;
  normalized_phone = none;
}

unfoldable pub opt_out : (now workspace : ℕ) → (user : Text) → Contact → Db → Db
opt_out now workspace user c db = record db {
  next_id = db.next_id + 1;
  contacts = update_where (λ r. r.id == c.id) opt_out_contact db.contacts;
  consents = db.consents ++ consent_row now c.id opted_out ∷ [];
  suppressions =
      if any (names_user workspace user) db.suppressions
      then db.suppressions
      else db.suppressions ++ zalo_suppression db.next_id workspace user ∷ [];
}

abbrev event_time : (now : ℕ) → WebhookEvent → ℕ
event_time now e = get_or_else e.payload.timestamp now

abbrev platform_message_of : (now : ℕ) → WebhookEvent → Text
platform_message_of now e =
    get_or_else e.payload.msg_id (name_of e ++ codes ":" ++ decimal (event_time now e))

abbrev arrived_status : WebhookEvent → MessageStatus
arrived_status e = if is_inbound e then delivered else sent

abbrev is_platform_message : (account : ℕ) → Text → Message → Bool
is_platform_message account id m = m.account_id == account && text_is m.platform_message_id id

abbrev webhook_message : (now id conversation : ℕ) → SocialAccount → WebhookEvent → Message
webhook_message now id conversation a e = record {
  id = id;
  workspace_id = a.workspace_id;
  conversation_id = conversation;
  account_id = a.id;
  platform = zalo;
  platform_message_id = some (platform_message_of now e);
  idempotency_key = webhook_key a.id (platform_message_of now e);
  sender_id = if is_inbound e then user_of e else a.platform_account_id;
  receiver_id = if is_inbound e then a.platform_account_id else user_of e;
  content = get_or_else e.payload.msg_text (codes "[" ++ name_of e ++ codes "]");
  direction = if is_inbound e then inbound else outbound;
  status = arrived_status e;
  timestamp = event_time now e;
  created_at = now;
  error_code = none;
  promotional = false;
}

unfoldable pub notify_inbound : Bool → (now workspace : ℕ) → Db → Db
notify_inbound true now workspace db = add_notification workspace now zalo_message_received db
notify_inbound false now workspace db = db

-- The conversation, the message, its event and the notification.
unfoldable pub add_webhook_message :
    (now : ℕ) → SocialAccount → WebhookEvent → (contact : ℕ) → Db → Db
unfolding notify_inbound
add_webhook_message now a e contact db =
    let (conversation, opened) =
      open_conversation a.workspace_id a.id contact (of_zalo_user (user_of e)) db in
    notify_inbound (is_inbound e) now a.workspace_id (
      add_event a.workspace_id opened.next_id (if is_inbound e then received_event else sent_event)
        (record opened {
          next_id = opened.next_id + 1;
          messages = opened.messages ++ webhook_message now opened.next_id conversation a e ∷ [];
          conversations =
              update_where (λ c. c.id == conversation) (λ c. record c { contact_id = some contact })
                opened.conversations;
        }))

abbrev restamp : MessageStatus → (at : ℕ) → Message → Message
restamp s at m = record m { status = s; timestamp = at }

unfoldable pub receive_message : (now : ℕ) → SocialAccount → WebhookEvent → (contact : ℕ) → Db → Db
receive_message now a e contact db =
    elim (find_first (is_platform_message a.id (platform_message_of now e)) db.messages) [
      | some m ↦ update_message m.id (restamp (arrived_status e) (event_time now e)) db
      | none ↦ add_webhook_message now a e contact db
    ]

abbrev pub start_event : (now : ℕ) → WebhookEvent → WebhookEvent
start_event now e = record e {
  status = JobStatus.running;
  attempts = e.attempts + 1;
  last_attempt_at = some now;
}

abbrev pub set_event_status : JobStatus → WebhookEvent → WebhookEvent
set_event_status s e = record e { status = s }

unfoldable pub update_event : ℕ → (WebhookEvent → WebhookEvent) → Db → Db
update_event id f db = record db {
  webhook_events = update_where (λ e. e.id == id) f db.webhook_events;
}

abbrev clear_error : SocialAccount → SocialAccount
clear_error a = record a { last_error_code = none }

unfoldable pub apply_event : (now : ℕ) → SocialAccount → WebhookEvent → Db → Db
apply_event now a e db =
    let (c, known) = upsert_contact a.workspace_id (user_of e) (display_name_of e) db in
    let told =
      if is_opt_out_event e then opt_out now a.workspace_id (user_of e) c known else known in
    if includes (codes "_send_") (name_of e) then receive_message now a e c.id told else told

unfoldable pub finish_event : (now : ℕ) → JobKey → SocialAccount → WebhookEvent → Db → Db
finish_event now key a e db =
    update_job key (finish_job JobStatus.completed now) (
      update_event e.id (set_event_status JobStatus.completed) (update_account a.id clear_error db))

unfoldable pub run_event : (now : ℕ) → JobKey → SocialAccount → WebhookEvent → Work (Unit {0})
run_event now key a e = do
  modify (update_job key start_job)
  modify (update_event e.id (start_event now))
  require (not (is_empty (user_of e))) webhook_user_missing
  modify (apply_event now a e)
  modify (finish_event now key a e)

unfoldable pub process_zalo_webhook : (now : ℕ) → JobKey → (event account : ℕ) → Work (Unit {0})
process_zalo_webhook now key event account db = elim (event_by_id db event) [
  | none ↦ (ok tt, db)
  | some e ↦ elim (zalo_account db account) [
    | none ↦ (ok tt, db)
    | some a ↦ if is_completed_job e.status then (ok tt, db) else run_event now key a e db
  ]
]

-- `webhookWorker.on('failed')`, where the attempts are used up.
unfoldable pub webhook_failed : (now attempts_made attempts event : ℕ) → JobKey → Db → Db
webhook_failed now attempts_made attempts event key db =
    if ltb attempts_made attempts
    then db
    else update_job key (finish_job JobStatus.failed now)
        (update_event event (set_event_status JobStatus.failed) db)
