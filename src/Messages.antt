-- ===== src/Messages.antt =====
-- apps/api/src/messages/messages.service.ts: `send`. The adapters, the rate limit of the environment
-- and whether the queue takes the job are parameters.
pub mod Safe
pub mod Idempotent
use tool_messager.Prelude.{
  Bool, Exec, Option, Text, [], count_where, decimal, find_first, get_or_else, if◌then◌else◌, leb,
  ltb, modify, none, not, read, require_some, return, some, update_where, ℕ, ◌&&◌, ◌++◌, ◌+◌, ◌==◌,
  ◌>>=◌, ◌>>◌, ◌||◌, ◌∷◌,
}
use tool_messager.Shared.{
  Platform, SafetyContext, SafetyDecision, allowed, evaluate_message_safety, is_permission_required,
  not_configured, refused,
}
use tool_messager.Access.{has_permission, message_send}
use tool_messager.Platform.{Adapter, messaging}
use tool_messager.Store.{
  AuditAction, Contact, Db, Message, MessageError, MessageStatus, QueueName, SocialAccount, blocked,
  client_key, for_message, is_connected, is_none, is_outbound, message_blocked, message_queued,
  new_job, of_contact, outbound, queued, send_job, unsafe_to_send,
}
use tool_messager.Policy.{assert_outbound_allowed}
use tool_messager.Workspaces.{ServiceError, add_audit, assert_permission, not_found, with_policy}
use tool_messager.Campaigns.{add_to_queue}
use tool_messager.Outbound.{granted_capability, has_messaging_permission, is_suppressed}
use tool_messager.Worker.{has_key, open_conversation}

pub record SendInput : Type 0 where
  pub account_id : ℕ
  pub contact_id : ℕ
  pub content : Text
  pub idempotency_key : Text
  pub promotional : Bool

pub record SendEnv : Type 0 where
  pub adapters : Platform → Adapter
  pub account_messages_per_minute : ℕ
  pub queue_up : Bool

pub data SendReply : Type 0 where
  duplicate_prevented : Message → SendReply
  accepted : Message → SafetyDecision → SendReply

unfoldable pub message_by_key : Db → Text → Option Message
message_by_key db key = find_first (has_key (client_key key)) db.messages

abbrev pub own_account : Db → (workspace id : ℕ) → Option SocialAccount
own_account db workspace id =
    find_first (λ a. a.id == id && a.workspace_id == workspace && is_none a.deleted_at) db.accounts

abbrev pub own_contact : Db → (workspace id : ℕ) → Option Contact
own_contact db workspace id =
    find_first (λ c. c.id == id && c.workspace_id == workspace && is_none c.deleted_at) db.contacts

-- Outbound messages of the account in the last 60 seconds.
unfoldable pub recent_messages : (now : ℕ) → Db → (account : ℕ) → ℕ
recent_messages now db account =
    count_where
      (λ m. m.account_id == account && is_outbound m.direction && leb now (m.timestamp + 60000))
      db.messages

unfoldable pub send_context :
    SendEnv
    → (now workspace : ℕ) → Db
    → SocialAccount
    → Contact
    → (promotional : Bool) → SafetyContext
send_context env now workspace db a c promotional =
    let adapter = env.adapters a.platform in
    let declared = adapter.capabilities messaging in
    let permitted = has_messaging_permission a in
    record {
      consent_status = c.consent_status;
      suppressed = is_suppressed db workspace c;
      has_permission =
          is_connected a.status && (not (is_permission_required declared) || permitted);
      capability =
          if not adapter.is_configured || not (is_connected a.status)
          then not_configured
          else granted_capability declared permitted;
      within_rate_limit = ltb (recent_messages now db a.id) env.account_messages_per_minute;
      promotional = promotional;
    }

abbrev pub message_status_of : SafetyDecision → MessageStatus
message_status_of allowed = queued
message_status_of (refused code) = blocked

abbrev message_error_of : SafetyDecision → Option MessageError
message_error_of allowed = none
message_error_of (refused code) = some (unsafe_to_send code)

abbrev send_audit_of : SafetyDecision → AuditAction
send_audit_of allowed = message_queued
send_audit_of (refused code) = message_blocked

unfoldable pub requested_message :
    (now id conversation workspace : ℕ)
    → SendInput
    → SocialAccount
    → Contact
    → SafetyDecision
    → Message
requested_message now id conversation workspace input a c d = record {
  id = id;
  workspace_id = workspace;
  conversation_id = conversation;
  account_id = a.id;
  platform = a.platform;
  platform_message_id = none;
  idempotency_key = client_key input.idempotency_key;
  sender_id = a.platform_account_id;
  receiver_id = get_or_else c.platform_user_id (decimal c.id);
  content = input.content;
  direction = outbound;
  status = message_status_of d;
  timestamp = now;
  created_at = now;
  error_code = message_error_of d;
  promotional = input.promotional;
}

abbrev add_message : Message → Db → Db
add_message m db = record db { next_id = db.next_id + 1; messages = db.messages ++ m ∷ [] }

-- A refused message stays in the table as BLOCKED; an allowed one gets its job.
unfoldable pub hand_over :
    SendEnv → (workspace : ℕ) → Message → SafetyDecision → Exec Db ServiceError SendReply
hand_over env workspace m (refused code) = return (accepted m (refused code))
hand_over env workspace m allowed = do
  modify (λ db. record db {
    jobs =
        db.jobs ++ new_job workspace QueueName.message_send (send_job m.id) (for_message m.id) ∷ [];
  })
  add_to_queue env.queue_up (record {
    queue = QueueName.message_send;
    job_id = send_job m.id;
    payload = for_message m.id;
  })
  return (accepted m allowed)

-- The upsert's `update: { contactId }`, which changes nothing where it has just created the row.
abbrev link_contact : (conversation contact : ℕ) → Db → Db
link_contact conversation contact db = record db {
  conversations =
      update_where (λ c. c.id == conversation) (λ c. record c { contact_id = some contact })
        db.conversations;
}

unfoldable pub store_message :
    SendEnv
    → (now user workspace : ℕ) → SendInput
    → SocialAccount
    → Contact
    → SafetyDecision
    → Exec Db ServiceError SendReply
store_message env now user workspace input a c d db =
    let (conversation, opened) = open_conversation workspace a.id c.id (of_contact c.id) db in
    let m = requested_message now opened.next_id conversation workspace input a c d in
    hand_over env workspace m d (
      add_audit workspace user (send_audit_of d) m.id
        (add_message m (link_contact conversation c.id opened)))

unfoldable pub send_new :
    SendEnv → (now user workspace : ℕ) → SendInput → Exec Db ServiceError SendReply
send_new env now user workspace input = do
  with_policy (assert_outbound_allowed now workspace 1)
  account ← read (λ db. own_account db workspace input.account_id)
  account ← require_some account not_found
  contact ← read (λ db. own_contact db workspace input.contact_id)
  contact ← require_some contact not_found
  decision ← read (λ db.
      evaluate_message_safety (send_context env now workspace db account contact input.promotional))
  store_message env now user workspace input account contact decision

unless_sent : Option Message → Exec Db ServiceError SendReply → Exec Db ServiceError SendReply
unless_sent none go = go
unless_sent (some m) go = return (duplicate_prevented m)

unfoldable pub send :
    SendEnv → (now user workspace : ℕ) → SendInput → Exec Db ServiceError SendReply
unfolding unless_sent
send env now user workspace input = do
  assert_permission now user workspace message_send
  existing ← read (λ db. message_by_key db input.idempotency_key)
  unless_sent existing (send_new env now user workspace input)
