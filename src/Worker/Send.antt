-- ===== src/Worker/Send.antt =====
-- `processMessage` of apps/worker/src/main.ts, and the handler of its terminal failures.
use tool_messager.Prelude.{
  Bool, Option, Text, err, false, find_first, if◌then◌else◌, ltb, modify, none, not, ok, some,
  throw, true, update_where, ℕ, ◌%◌, ◌&&◌, ◌+◌, ◌-◌, ◌==◌, ◌>>=◌, ◌>>◌, ◌||◌,
}
use tool_messager.Shared.{
  SafetyContext, SafetyDecision, allowed, evaluate_message_safety, is_permission_required,
  not_configured, refused,
}
use tool_messager.Platform.{OperationResult, messaging, success}
use tool_messager.Store.{
  CampaignStatus, Contact, Db, JobStatus, Message, MessageStatus, SocialAccount,
  account_unavailable, blocked, blocked_by_policy, campaign_cancelled, contact_by_id, delivered,
  failed_event, finish_job, is_connected, message_send_failed, paused, queued, seen, send_job,
  sending, sent, sent_event, start_job, unsafe_to_send, update_job,
}
use tool_messager.Outbound.{granted_capability, has_messaging_permission, is_suppressed}
use tool_messager.Worker.Base.{
  Work, WorkerError, World, access_token_for, account_rate_allowed, campaign_is_paused,
  contact_unavailable, delayed_until, no_account, outbound_block_reason, rate_limit_exceeded,
  send_failed,
}
use tool_messager.Worker.Progress.{
  add_event, block_message, campaign_by_id, linked_message, message_by_id, update_campaign_progress,
  update_message,
}

-- `['SENT', 'DELIVERED', 'READ', 'BLOCKED'].includes(status)`
abbrev pub is_settled : MessageStatus → Bool
is_settled sent = true
is_settled delivered = true
is_settled seen = true
is_settled blocked = true
is_settled _ = false

unfoldable pub campaign_status_of : Db → (message : ℕ) → Option CampaignStatus
campaign_status_of db message = elim (linked_message db message) [
  | none ↦ none
  | some l ↦ elim (campaign_by_id db l.campaign_id) [ none ↦ none | some c ↦ some c.status ]
]

abbrev pub is_paused : Option CampaignStatus → Bool
is_paused (some paused) = true
is_paused _ = false

abbrev pub is_cancelled : Option CampaignStatus → Bool
is_cancelled (some CampaignStatus.cancelled) = true
is_cancelled _ = false

unfoldable pub account_by_id : Db → ℕ → Option SocialAccount
account_by_id db id = find_first (λ a. a.id == id) db.accounts

-- The contact of the message's conversation.
unfoldable pub contact_of_message : Db → Message → Option Contact
contact_of_message db m = elim (find_first (λ c. c.id == m.conversation_id) db.conversations) [
  | none ↦ none
  | some c ↦ elim c.contact_id [ none ↦ none | some id ↦ contact_by_id db id ]
]

unfoldable pub message_context : World → Db → Message → SocialAccount → Contact → SafetyContext
message_context w db m a c =
    let adapter = w.adapters m.platform in
    let declared = adapter.capabilities messaging in
    let permitted = has_messaging_permission a in
    record {
      consent_status = c.consent_status;
      suppressed = is_suppressed db m.workspace_id c;
      has_permission = not (is_permission_required declared) || permitted;
      capability =
          if not adapter.is_configured
          then not_configured
          else granted_capability declared permitted;
      within_rate_limit = true;
      promotional = m.promotional;
    }

abbrev pub with_id : Text → Message → Message
with_id platform_id m = record m {
  status = sent;
  platform_message_id = some platform_id;
  error_code = none;
}

unfoldable pub record_sent : (now : ℕ) → Message → (platform_id : Text) → Db → Db
record_sent now m platform_id db = update_campaign_progress now m.id sent none (
    update_job (send_job m.id) (finish_job JobStatus.completed now)
      (add_event m.workspace_id m.id sent_event (update_message m.id (with_id platform_id) db)))

abbrev store_result : (now : ℕ) → Message → OperationResult Text → Work (Unit {0})
store_result now m r db = elim r.payload [
  | none ↦ (err (send_failed r.error_code), db)
  | some id ↦ elim r.status [
    | success ↦ (ok tt, record_sent now m id db)
    | _ ↦ (err (send_failed r.error_code), db)
  ]
]

abbrev pub set_message_status : MessageStatus → Message → Message
set_message_status s m = record m { status = s }

unfoldable pub transmit : World → (now : ℕ) → Message → SocialAccount → Work (Unit {0})
transmit w now m a = do
  modify (update_message m.id (set_message_status sending))
  modify (update_job (send_job m.id) start_job)
  token ← access_token_for w now a
  store_result now m (w.send m.platform token m.receiver_id m.content)

-- A job with a lock token is moved to the delayed set; without one the attempt fails.
abbrev pub delay : Bool → WorkerError → ℕ → Work (Unit {0})
delay true e t = throw (delayed_until t)
delay false e t = throw e

unfoldable pub next_minute : ℕ → ℕ
next_minute now = now + (60000 - now % 60000) + 250

unfoldable pub send_if_within_rate :
    World → (now : ℕ) → (has_token : Bool) → Message → SocialAccount → Work (Unit {0})
send_if_within_rate w now has_token m a = do
  within ← account_rate_allowed w now m.account_id
  if within then transmit w now m a else delay has_token rate_limit_exceeded (next_minute now)

unfoldable pub decide :
    World
    → (now : ℕ) → (has_token : Bool) → Message
    → SocialAccount
    → SafetyDecision
    → Work (Unit {0})
decide w now has_token m a (refused code) = modify (block_message now m (unsafe_to_send code))
decide w now has_token m a allowed = send_if_within_rate w now has_token m a

unfoldable pub check_safety :
    World → (now : ℕ) → (has_token : Bool) → Message → SocialAccount → Work (Unit {0})
check_safety w now has_token m a db = elim (contact_of_message db m) [
  | none ↦ (err contact_unavailable, db)
  | some c ↦ decide w now has_token m a (evaluate_message_safety (message_context w db m a c)) db
]

unfoldable pub check_policy :
    World → (now : ℕ) → (has_token : Bool) → Message → SocialAccount → Work (Unit {0})
check_policy w now has_token m a db =
    if not (is_connected a.status)
    then (ok tt, block_message now m (account_unavailable a.status) db)
    else elim (outbound_block_reason now db m.workspace_id 0) [
      | some reason ↦ (ok tt, block_message now m (blocked_by_policy reason) db)
      | none ↦ check_safety w now has_token m a db
    ]

unfoldable pub process_open_message :
    World → (now : ℕ) → (has_token : Bool) → Message → Work (Unit {0})
process_open_message w now has_token m db =
    if is_paused (campaign_status_of db m.id)
    then delay has_token campaign_is_paused (now + 30000) db
    else (if is_cancelled (campaign_status_of db m.id)
        then (ok tt, block_message now m campaign_cancelled db)
        else elim (account_by_id db m.account_id) [
          | none ↦ (err no_account, db)
          | some a ↦ check_policy w now has_token m a db
        ])

unfoldable pub process_message : World → (now : ℕ) → (has_token : Bool) → (id : ℕ) → Work (Unit {0})
process_message w now has_token id db = elim (message_by_id db id) [
  | none ↦ (ok tt, db)
  | some m ↦ if is_settled m.status then (ok tt, db) else process_open_message w now has_token m db
]

-- `status: { in: ['QUEUED', 'SENDING'] }`
abbrev is_in_flight : MessageStatus → Bool
is_in_flight queued = true
is_in_flight sending = true
is_in_flight _ = false

-- The metadata is replaced by the error, so a promotional mark is lost.
abbrev give_up : Message → Message
give_up m = record m {
  status = MessageStatus.failed;
  error_code = some message_send_failed;
  promotional = false;
}

abbrev record_failure : Option Message → Db → Db
record_failure none db = db
record_failure (some m) db = add_event m.workspace_id m.id failed_event db

-- `messageWorker.on('failed')`, where the attempts are used up.
unfoldable pub message_failed : (now attempts_made attempts id : ℕ) → Db → Db
message_failed now attempts_made attempts id db =
    if ltb attempts_made attempts
    then db
    else (let failed_row = record db {
      messages = update_where (λ m. m.id == id && is_in_flight m.status) give_up db.messages;
    } in
        update_campaign_progress now id MessageStatus.failed (some message_send_failed) (
          record_failure (message_by_id failed_row id)
            (update_job (send_job id) (finish_job JobStatus.failed now) failed_row)))
