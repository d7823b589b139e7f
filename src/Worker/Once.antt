-- ===== src/Worker/Once.antt =====
-- `processCampaign` of apps/worker/src/main.ts may run again: a contact gets one message of a campaign.
use mathlib.Core.Path.{subst}
use tool_messager.Prelude.{
  ==_iff, Bool, Bool-cases, List, Option-cases, [], any, ap, arith, count_where, count_where-append,
  false, find_first_fits, if◌then◌else◌, inl, inr, refl, some, sym, ℕ, ◌++◌, ◌+◌, ◌==◌, ◌∷◌, ◌≡◌,
  ◌≤◌,
}
use tool_messager.Store.{
  AudienceMember, Campaign, CampaignStatus, Contact, ConversationKey, Db, JobKey, Message,
  MessageTemplate, SocialAccount, audience_of, campaign_key, contact_by_id, of_contact,
  set_campaign_status, start_job, update_campaign, update_job,
}
use tool_messager.Worker.Campaign.{
  block_member, create_message, enqueue_message, has_key, insert_message, new_message,
  open_conversation, process_campaign, process_member, process_members, run_campaign,
}
use tool_messager.Worker.Progress.{campaign_by_id}
use tool_messager.Campaigns.{account_of_campaign, template_of_campaign}

-- How many messages of a campaign a contact has.
pub message_count : (campaign contact : ℕ) → Db → ℕ
message_count campaign contact db =
    count_where (has_key (campaign_key campaign contact)) db.messages

count_zero_of_any :
    {A : Type 0} (p : A → Bool) (xs : List A) → any p xs ≡ false → count_where p xs ≡ 0
unfolding count_where
count_zero_of_any p [] h = refl
count_zero_of_any p (x ∷ xs) h = ground (arith, count_zero_of_any p xs)

pub open_conversation-messages :
    (workspace account contact : ℕ) (k : ConversationKey) (db : Db)
    → (open_conversation workspace account contact k db).1.messages ≡ db.messages
unfolding open_conversation
open_conversation-messages workspace account contact k db = ground arith

create_message-messages :
    (now : ℕ) (c : Campaign) (a : SocialAccount) (t : MessageTemplate) (contact : Contact) (db : Db)
    → (m : Message) × (m.idempotency_key ≡ campaign_key c.id contact.id)
      × ((create_message now c a t contact db).messages ≡ db.messages ++ m ∷ [])
unfolding create_message new_message insert_message enqueue_message
create_message-messages now c a t contact db =
    let o = open_conversation c.workspace_id a.id contact.id (of_contact contact.id) db in
    (
      new_message now o.1.next_id o.0 c a t contact,
      refl,
      ground (
        arith,
        open_conversation-messages c.workspace_id a.id contact.id (of_contact contact.id) db,
      ),
    )

-- Every contact has at most one message of the campaign.
pub AtMostOne : (campaign : ℕ) → Db → Type 0
AtMostOne campaign db = (contact : ℕ) → message_count campaign contact db ≤ 1

-- Nothing was sent where there are no messages.
pub AtMostOne-empty : (campaign : ℕ) (db : Db) → db.messages ≡ [] → AtMostOne campaign db
unfolding AtMostOne message_count count_where
AtMostOne-empty campaign db h contact = ground (arith, h)

message_count-create :
    (now : ℕ) (c : Campaign) (a : SocialAccount) (t : MessageTemplate) (contact : Contact) (db : Db)
    (d : ℕ)
    → message_count c.id d (create_message now c a t contact db)
      ≡ message_count c.id d db + (if contact.id == d then 1 else 0)
unfolding message_count count_where
message_count-create now c a t contact db d =
    let (m, key, rows) = create_message-messages now c a t contact db in
    rw rows (
      rw (count_where-append (has_key (campaign_key c.id d)) db.messages (m ∷ []))
        (rw key (ground arith)))

contact_by_id-id : (db : Db) (id : ℕ) {c : Contact} → contact_by_id db id ≡ some c → c.id ≡ id
unfolding contact_by_id
contact_by_id-id db id {c} h = ground (arith, find_first_fits (λ x. x.id == id) db.contacts h)

member_room :
    (campaign contact : ℕ) (db : Db) (d : ℕ)
    → any (has_key (campaign_key campaign contact)) db.messages ≡ false
    → message_count campaign d db ≤ 1
    → message_count campaign d db + (if contact == d then 1 else 0) ≤ 1
unfolding message_count
member_room campaign contact db d none_yet h = elim (Bool-cases (contact == d)) [
  | inr other ↦ rw other (omega arith)
  | inl same ↦
      let e : contact ≡ d = (==_iff contact d).0 same in
      rw same (
        omega (
          arith,
          ap (λ (k : ℕ). count_where (has_key (campaign_key campaign k)) db.messages) e,
          count_zero_of_any (has_key (campaign_key campaign contact)) db.messages none_yet,
        ))
]

process_member-AtMostOne :
    (now : ℕ) (c : Campaign) (a : SocialAccount) (t : MessageTemplate) (db : Db)
    (m : AudienceMember)
    → AtMostOne c.id db
    → AtMostOne c.id (process_member now c a t db m)
unfolding process_member AtMostOne message_count block_member
process_member-AtMostOne now c a t db m h d = elim (Option-cases (contact_by_id db m.contact_id)) [
  | inl nobody ↦ ground (arith, h d)
  | inr (contact, known) ↦
      elim (Bool-cases (any (has_key (campaign_key c.id m.contact_id)) db.messages)) [
        | inl already ↦ ground (arith, h d)
        | inr none_yet ↦
            let is_member : contact.id ≡ m.contact_id = contact_by_id-id db m.contact_id known in
            let room = member_room c.id m.contact_id db d none_yet (h d) in
            ground (arith, h d, message_count-create now c a t contact db d)
      ]
]

process_members-AtMostOne :
    (now : ℕ) (c : Campaign) (a : SocialAccount) (t : MessageTemplate) (ms : List AudienceMember)
    (db : Db)
    → AtMostOne c.id db
    → AtMostOne c.id (process_members now c a t ms db)
unfolding process_members
process_members-AtMostOne now c a t [] db h = h
process_members-AtMostOne now c a t (m ∷ ms) db h =
    process_members-AtMostOne now c a t ms (process_member now c a t db m)
      (process_member-AtMostOne now c a t db m h)

run_campaign-AtMostOne :
    (now : ℕ) (key : JobKey) (c : Campaign) (a : SocialAccount) (t : MessageTemplate) (db : Db)
    → AtMostOne c.id db
    → AtMostOne c.id (run_campaign now key c a t db)
unfolding run_campaign AtMostOne update_campaign update_job message_count
run_campaign-AtMostOne now key c a t db h =
    process_members-AtMostOne now c a t (audience_of db c.id)
      (update_campaign c.id (set_campaign_status CampaignStatus.running) db) h

campaign_by_id-id : (db : Db) (id : ℕ) {c : Campaign} → campaign_by_id db id ≡ some c → c.id ≡ id
unfolding campaign_by_id
campaign_by_id-id db id {c} h = ground (arith, find_first_fits (λ x. x.id == id) db.campaigns h)

-- If every contact has at most one message of a campaign, this is still so after the campaign's job
-- has run once more.
pub process_campaign-AtMostOne :
    (now : ℕ) (key : JobKey) (id : ℕ) (db : Db)
    → AtMostOne id db
    → AtMostOne id (process_campaign now key id db)
unfolding process_campaign AtMostOne message_count update_job update_campaign
process_campaign-AtMostOne now key id db h d = elim (Option-cases (campaign_by_id db id)) [
  | inl gone ↦ ground (arith, h d)
  | inr (c, found) ↦ elim (Option-cases (account_of_campaign db c)) [
    | inl gone ↦ ground (arith, h d)
    | inr (a, has_account) ↦ elim (Option-cases (template_of_campaign db c)) [
      | inl gone ↦ ground (arith, h d)
      | inr (t, has_template) ↦
          let e : c.id ≡ id = campaign_by_id-id db id found in
          let ran =
            run_campaign-AtMostOne now key c a t (update_job key start_job db)
              (subst (λ k. AtMostOne k db) (sym e) h) in
          let same =
            subst (λ k. AtMostOne k (run_campaign now key c a t (update_job key start_job db))) e
              ran d in
          ground (arith, h d)
    ]
  ]
]
