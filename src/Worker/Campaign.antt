-- ===== src/Worker/Campaign.antt =====
-- `processCampaign` of apps/worker/src/main.ts. The queue is a parameter that accepts each job.
use tool_messager.Prelude.{
  Bool, List, Text, [], any, codes, decimal, drop, false, find_first, get_or_else, if◌then◌else◌,
  is_space, length, ltb, none, not, some, starts_with, suc, true, upsert, zero, ℕ, ◌&&◌, ◌++◌, ◌+◌,
  ◌==◌, ◌||◌, ◌∷◌,
}
use tool_messager.Shared.{consent_required, contact_suppressed, is_opted_in, same_platform}
use tool_messager.Store.{
  AudienceMember, Campaign, CampaignMessage, CampaignStatus, Contact, Conversation, ConversationKey,
  Db, IdempotencyKey, JobKey, JobStatus, Message, MessageError, MessageTemplate, SocialAccount,
  Statistics, audience_excluded, audience_of, blocked, campaign_key, contact_by_id, enqueue,
  finish_job, for_message, included_count, invalid_platform_recipient, is_do_not_contact,
  message_send, new_job, of_contact, outbound, paused, queued, same_conversation, same_key,
  send_job, set_campaign_status, start_job, stopped_by, synthetic_recipient, text_is,
  unsafe_to_send, update_campaign, update_job,
}
use tool_messager.Campaigns.{account_of_campaign, is_blank, synthetic_seed, template_of_campaign}
use tool_messager.Worker.Base.{outbound_block_reason}
use tool_messager.Worker.Progress.{campaign_by_id, pending_count, sent_count, statistics_of}

-- `{ status: 'APPROVED' | 'SCHEDULED' | 'RUNNING' }`
abbrev pub is_executable : CampaignStatus → Bool
is_executable CampaignStatus.approved = true
is_executable CampaignStatus.scheduled = true
is_executable CampaignStatus.running = true
is_executable _ = false

abbrev is_link : (campaign contact : ℕ) → CampaignMessage → Bool
is_link campaign contact l = l.campaign_id == campaign && l.contact_id == contact

abbrev excluded_code : AudienceMember → MessageError
excluded_code m = get_or_else m.excluded_reason audience_excluded

-- A member who is not included gets a blocked link, and no message.
unfoldable pub block_member : Campaign → AudienceMember → Db → Db
block_member c m db = record db {
  campaign_messages =
      upsert (is_link c.id m.contact_id)
        (λ l. record l { status = blocked; error_code = some (excluded_code m) })
        (record {
          campaign_id = c.id;
          contact_id = m.contact_id;
          message_id = none;
          status = blocked;
          error_code = some (excluded_code m);
        })
        db.campaign_messages;
}

abbrev pub has_key : IdempotencyKey → Message → Bool
has_key k m = same_key m.idempotency_key k

abbrev is_synthetic : Contact → Bool
is_synthetic c = text_is c.source synthetic_seed

abbrev is_valid_recipient : Campaign → Contact → Bool
is_valid_recipient c contact =
    not (is_synthetic contact)
    && same_platform contact.platform c.platform
    && not (is_blank contact.platform_user_id)

unfoldable pub may_receive : Campaign → Contact → Bool
may_receive c contact =
    is_valid_recipient c contact
    && not contact.suppressed
    && not (is_do_not_contact contact.status)
    && (not c.promotional || is_opted_in contact.consent_status)

unfoldable pub blocked_reason : Campaign → Contact → MessageError
blocked_reason c contact =
    if is_synthetic contact
    then synthetic_recipient
    else (if not (is_valid_recipient c contact)
        then invalid_platform_recipient
        else (if contact.suppressed || is_do_not_contact contact.status
            then unsafe_to_send contact_suppressed
            else unsafe_to_send consent_required))

-- The first word of a name; `split(/\s+/)[0]` of a name that begins with white space is empty.
unfoldable pub first_word : Text → Text
first_word [] = []
first_word (x ∷ s) = let rest = first_word s in if is_space x then [] else x ∷ rest

-- `content.replaceAll('{{firstName}}', name)`; the fuel is the length of the text.
replace_all : ℕ → (pattern_text replacement : Text) → Text → Text
replace_all zero p r s = s
replace_all (suc fuel) p r [] = []
replace_all (suc fuel) p r (x ∷ s) =
    let after = replace_all fuel p r (drop (length p) (x ∷ s)) in
    let further = replace_all fuel p r s in
    if starts_with p (x ∷ s) then r ++ after else x ∷ further

unfoldable pub personalise : Text → Contact → Text
unfolding replace_all first_word
personalise content c =
    replace_all (length content) (codes "{{firstName}}") (first_word c.display_name) content

abbrev is_conversation : (account : ℕ) → ConversationKey → Conversation → Bool
is_conversation account key c = c.account_id == account && same_conversation c.key key

-- `conversation.upsert`: the conversation's id, and the state with it.
unfoldable pub open_conversation : (workspace account contact : ℕ) → ConversationKey → Db → ℕ × Db
open_conversation workspace account contact key db =
    elim (find_first (is_conversation account key) db.conversations) [
      | some c ↦ (c.id, db)
      | none ↦ (
        db.next_id,
        record db {
          next_id = db.next_id + 1;
          conversations =
              db.conversations
              ++ record {
                id = db.next_id;
                workspace_id = workspace;
                account_id = account;
                key = key;
                contact_id = some contact;
              }
                ∷ [];
        },
      )
    ]

-- `contact.platformUserId ?? 'invalid:' + contact.id`
abbrev receiver_of : Contact → Text
receiver_of c = get_or_else c.platform_user_id (codes "invalid:" ++ decimal c.id)

unfoldable pub new_message :
    (now id conversation : ℕ) → Campaign → SocialAccount → MessageTemplate → Contact → Message
unfolding personalise may_receive blocked_reason
new_message now id conversation c a t contact = record {
  id = id;
  workspace_id = c.workspace_id;
  conversation_id = conversation;
  account_id = a.id;
  platform = c.platform;
  platform_message_id = none;
  idempotency_key = campaign_key c.id contact.id;
  sender_id = a.platform_account_id;
  receiver_id = receiver_of contact;
  content = personalise t.content contact;
  direction = outbound;
  status = if may_receive c contact then queued else blocked;
  timestamp = now;
  created_at = now;
  error_code = if may_receive c contact then none else some (blocked_reason c contact);
  promotional = c.promotional;
}

-- The job and the queue entry of a message that is to be sent.
unfoldable pub enqueue_message : Message → Db → Db
enqueue_message m db =
    enqueue (record { queue = message_send; job_id = send_job m.id; payload = for_message m.id })
      (record db {
        jobs =
            db.jobs ++ new_job m.workspace_id message_send (send_job m.id) (for_message m.id) ∷ [];
      })

-- The message row and its link to the campaign.
unfoldable pub insert_message : Campaign → Contact → Message → Db → Db
insert_message c contact m db = record db {
  next_id = db.next_id + 1;
  messages = db.messages ++ m ∷ [];
  campaign_messages =
      db.campaign_messages
      ++ record {
        campaign_id = c.id;
        contact_id = contact.id;
        message_id = some m.id;
        status = m.status;
        error_code = m.error_code;
      }
        ∷ [];
}

unfoldable pub create_message :
    (now : ℕ) → Campaign → SocialAccount → MessageTemplate → Contact → Db → Db
create_message now c a t contact db =
    let (conversation, db') =
      open_conversation c.workspace_id a.id contact.id (of_contact contact.id) db in
    let m = new_message now db'.next_id conversation c a t contact in
    if may_receive c contact
    then enqueue_message m (insert_message c contact m db')
    else insert_message c contact m db'

-- One round of the loop over the audience. The contact exists by its foreign key.
unfoldable pub process_member :
    (now : ℕ) → Campaign → SocialAccount → MessageTemplate → Db → AudienceMember → Db
process_member now c a t db m =
    if not m.included
    then block_member c m db
    else (if any (has_key (campaign_key c.id m.contact_id)) db.messages
        then db
        else elim (contact_by_id db m.contact_id) [
          | none ↦ db
          | some contact ↦ create_message now c a t contact db
        ])

unfoldable pub process_members :
    (now : ℕ) → Campaign → SocialAccount → MessageTemplate → List AudienceMember → Db → Db
process_members now c a t [] db = db
process_members now c a t (m ∷ ms) db = process_members now c a t ms (process_member now c a t db m)

-- `pending > 0 ? 'RUNNING' : sent > 0 ? 'COMPLETED' : 'FAILED'`
unfoldable pub settled_status : Db → (campaign : ℕ) → CampaignStatus
settled_status db campaign =
    if ltb 0 (pending_count db campaign)
    then CampaignStatus.running
    else (if ltb 0 (sent_count db campaign)
        then CampaignStatus.completed
        else CampaignStatus.failed)

abbrev pub set_outcome : CampaignStatus → Statistics → Campaign → Campaign
set_outcome status s c = record c { status = status; statistics = s }

-- A count that `groupBy` does not report is missing there, so the loop's own counter takes its place;
-- the two agree where the loop made the rows, and a missing count is written as 0.
unfoldable pub run_campaign :
    (now : ℕ) → JobKey → Campaign → SocialAccount → MessageTemplate → Db → Db
run_campaign now key c a t db =
    let done =
      process_members now c a t (audience_of db c.id)
        (update_campaign c.id (set_campaign_status CampaignStatus.running) db) in
    update_job key (finish_job JobStatus.completed now)
      (update_campaign c.id (set_outcome (settled_status done c.id) (statistics_of done c.id)) done)

unfoldable pub process_campaign : (now : ℕ) → JobKey → (id : ℕ) → Db → Db
process_campaign now key id db = elim (campaign_by_id db id) [
  | none ↦ db
  | some c ↦ elim (account_of_campaign db c) [
    | none ↦ db
    | some a ↦ elim (template_of_campaign db c) [
      | none ↦ db
      | some t ↦
          if not (is_executable c.status)
          then db
          else elim (outbound_block_reason now (update_job key start_job db) c.workspace_id
              (included_count db id)) [
                | some reason ↦ update_job key (finish_job JobStatus.failed now) (
                    update_campaign id (set_outcome paused (stopped_by reason))
                      (update_job key start_job db))
                | none ↦ run_campaign now key c a t (update_job key start_job db)
              ]
    ]
  ]
]
