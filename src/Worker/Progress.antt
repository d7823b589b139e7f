-- ===== src/Worker/Progress.antt =====
-- `blockMessage` and `updateCampaignProgress` of apps/worker/src/main.ts.
use tool_messager.Prelude.{
  Bool, Option, [], count_where, false, find_first, if◌then◌else◌, none, some, true, update_where,
  ℕ, ◌&&◌, ◌++◌, ◌+◌, ◌==◌, ◌∷◌,
}
use tool_messager.Store.{
  Campaign, CampaignMessage, CampaignStatus, Db, EventType, JobStatus, Message, MessageError,
  MessageStatus, NotificationEvent, Statistics, blocked, blocked_event, campaign_finished, counted,
  delivered, finish_job, number_is, queued, same_message_status, seen, send_job, sending, sent,
  update_campaign, update_job,
}

unfoldable pub message_by_id : Db → ℕ → Option Message
message_by_id db id = find_first (λ m. m.id == id) db.messages

unfoldable pub update_message : ℕ → (Message → Message) → Db → Db
update_message id f db = record db { messages = update_where (λ m. m.id == id) f db.messages }

abbrev pub add_event : (workspace message : ℕ) → EventType → Db → Db
add_event workspace message event db = record db {
  message_events =
      db.message_events
      ++ record { workspace_id = workspace; message_id = message; event_type = event } ∷ [];
}

abbrev pub add_notification : (workspace now : ℕ) → NotificationEvent → Db → Db
add_notification workspace now event db = record db {
  notifications =
      db.notifications
      ++ record { dedupe_key = none; workspace_id = workspace; event = event; created_at = now }
        ∷ [];
}

unfoldable pub linked_message : Db → (message : ℕ) → Option CampaignMessage
linked_message db message = find_first (λ l. number_is l.message_id message) db.campaign_messages

unfoldable pub status_count : Db → (campaign : ℕ) → MessageStatus → ℕ
status_count db campaign status =
    count_where (λ l. l.campaign_id == campaign && same_message_status l.status status)
      db.campaign_messages

unfoldable pub pending_count : Db → (campaign : ℕ) → ℕ
pending_count db campaign = status_count db campaign queued + status_count db campaign sending

unfoldable pub sent_count : Db → (campaign : ℕ) → ℕ
sent_count db campaign =
    status_count db campaign sent
    + status_count db campaign delivered
    + status_count db campaign seen

unfoldable pub statistics_of : Db → (campaign : ℕ) → Statistics
statistics_of db campaign =
    counted (status_count db campaign queued) (sent_count db campaign)
      (status_count db campaign MessageStatus.failed) (status_count db campaign blocked)

unfoldable pub campaign_by_id : Db → ℕ → Option Campaign
campaign_by_id db id = find_first (λ c. c.id == id) db.campaigns

-- `status: { notIn: ['COMPLETED', 'CANCELLED'] }`
abbrev pub is_completable : CampaignStatus → Bool
is_completable CampaignStatus.completed = false
is_completable CampaignStatus.cancelled = false
is_completable _ = true

abbrev pub set_statistics : Statistics → Campaign → Campaign
set_statistics s c = record c { statistics = s }

abbrev pub complete_campaign : Statistics → Campaign → Campaign
complete_campaign s c = record c { status = CampaignStatus.completed; statistics = s }

-- The campaign of a link exists, by its foreign key.
abbrev notify_completed : (now campaign : ℕ) → Option Campaign → Db → Db
notify_completed now campaign none db = db
notify_completed now campaign (some c) db = add_notification c.workspace_id now campaign_finished db

-- `status: { notIn: … }` counts a row where the campaign is not completed or cancelled.
abbrev completes : Option Campaign → Bool
completes none = false
completes (some c) = is_completable c.status

unfoldable pub settle_campaign : (now campaign : ℕ) → Db → Db
settle_campaign now campaign db =
    if pending_count db campaign == 0
    then (if completes (campaign_by_id db campaign)
        then notify_completed now campaign (campaign_by_id db campaign)
            (update_campaign campaign (complete_campaign (statistics_of db campaign)) db)
        else db)
    else update_campaign campaign (set_statistics (statistics_of db campaign)) db

abbrev pub mark_link : (message : ℕ) → MessageStatus → Option MessageError → Db → Db
mark_link message status reason db = record db {
  campaign_messages =
      update_where (λ l. number_is l.message_id message)
        (λ l. record l { status = status; error_code = reason }) db.campaign_messages;
}

unfoldable pub update_campaign_progress :
    (now message : ℕ) → MessageStatus → Option MessageError → Db → Db
update_campaign_progress now message status reason db = elim (linked_message db message) [
  | none ↦ db
  | some l ↦ settle_campaign now l.campaign_id (mark_link message status reason db)
]

abbrev pub set_message_blocked : MessageError → Message → Message
set_message_blocked e m = record m { status = blocked; error_code = some e }

-- `blockMessage`, for a message that is there.
unfoldable pub block_message : (now : ℕ) → Message → MessageError → Db → Db
block_message now m e db = update_campaign_progress now m.id blocked (some e) (
    update_job (send_job m.id) (finish_job JobStatus.failed now) (
      add_event m.workspace_id m.id blocked_event (update_message m.id (set_message_blocked e) db)))
