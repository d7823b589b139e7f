-- ===== src/Accounts/Withdrawal.antt =====
-- From apps/api/src/accounts/zalo-webhook.service.ts to `processZaloWebhook` of apps/worker/src/main.ts:
-- what becomes of an event that tells that a user withdraws.
use tool_messager.Zalo.{Scalar, string_of}
use tool_messager.Prelude.{
  Bool, Bool-cases, List, Option, Text, [], any, ap, arith, codes, false, find_first, inl, inr,
  is_empty, ok, refl, some, starts_with, text_eq, text_eq_iff, true, ℕ, ◌++◌, ◌==◌, ◌||◌, ◌∙◌, ◌∷◌,
  ◌≡◌,
}
use tool_messager.Store.{
  Contact, Db, JobKey, QueueEntry, SocialAccount, WebhookEvent, webhook_process,
}
use tool_messager.Worker.{
  World, event_by_id, is_opt_out_event, process_zalo_webhook, run_entry, run_event, same_user,
  user_of, zalo_account,
}
use tool_messager.Shared.{zalo}
use tool_messager.Outbound.{is_suppressed}
use tool_messager.Worker.Optout.{opted_out-is_suppressed}
use tool_messager.Accounts.Intake.{
  IntakeEnv, ZaloWebhookPayload, accept, accepted, arrived_event, event_job,
}
use tool_messager.Accounts.Received.{IsFirst, accepted_queued, entry_for, with_event}

-- A row that is added with a new id is found by it.
find_new :
    (id : ℕ) (es : List WebhookEvent) (e : WebhookEvent)
    → any (λ (r : WebhookEvent). r.id == id) es ≡ false
    → e.id ≡ id
    → find_first (λ (r : WebhookEvent). r.id == id) (es ++ e ∷ []) ≡ some e
unfolding find_first
find_new id [] e h same = ground (arith, same)
find_new id (r ∷ rs) e h same = ground (arith, h, find_new id rs e)

-- The handler of an event with a user does not fail.
handler_returns :
    (now : ℕ) (key : JobKey) (event account : ℕ) (db : Db) {e : WebhookEvent} {a : SocialAccount}
    → event_by_id db event ≡ some e
    → zalo_account db account ≡ some a
    → is_empty (user_of e) ≡ false
    → (process_zalo_webhook now key event account db).0 ≡ ok tt
unfolding process_zalo_webhook run_event
handler_returns now key event account db he ha someone = ground (arith, he, ha, someone)

IsFirst-unique :
    (env : IntakeEnv) (p : ZaloWebhookPayload) (db : Db) (a b : SocialAccount)
    → IsFirst env p db a
    → IsFirst env p db b
    → b ≡ a
IsFirst-unique env p db a b f g = ground (arith, f.names_oa, g.names_oa, f.is_for, g.is_for)

-- What becomes of an event that is stored as one by which its user opts out.
opt_out_handled :
    (env : IntakeEnv) (w : World) (now later : ℕ) (raw signature : Option Text)
    (p : ZaloWebhookPayload) (db : Db) {db' : Db} (a : SocialAccount) (c : Contact)
    → accept env now raw signature p db ≡ (ok accepted, db')
    → IsFirst env p db a
    → any (λ (r : WebhookEvent). r.id == db.next_id) db.webhook_events ≡ false
    → zalo_account db a.id ≡ some a
    → is_opt_out_event (arrived_event now db.next_id a.workspace_id p) ≡ true
    → is_empty (user_of (arrived_event now db.next_id a.workspace_id p)) ≡ false
    → same_user a.workspace_id zalo (user_of (arrived_event now db.next_id a.workspace_id p)) c
      ≡ true
    → (entry : QueueEntry) × (db'.queue ≡ db.queue ++ entry ∷ [])
      × (entry.queue ≡ webhook_process)
      × ((run_entry w later entry db').0 ≡ ok tt)
      × (is_suppressed (run_entry w later entry db').1 a.workspace_id c ≡ true)
unfolding run_entry
opt_out_handled env w now later raw signature p db {db'} a c done first fresh known opts someone
      same =
    let (b, first_b, stored_b, up) = accepted_queued env now raw signature p db done in
    let stored : db' ≡ with_event env now p a db =
      stored_b ∙ ap (λ x. with_event env now p x db) (IsFirst-unique env p db a b first first_b) in
    let he : event_by_id db' db.next_id ≡ some (arrived_event now db.next_id a.workspace_id p) =
      rw stored (find_new db.next_id db.webhook_events _ fresh refl) in
    let ha : zalo_account db' a.id ≡ some a = rw stored known in
    let ends = handler_returns later (event_job env a.id p) db.next_id a.id db' he ha someone in
    (
      entry_for env p a db.next_id,
      rw stored (rw up refl),
      refl,
      ends,
      opted_out-is_suppressed later (event_job env a.id p) db.next_id a.id db'
          {s = (process_zalo_webhook later (event_job env a.id p) db.next_id a.id db').1} c he ha
          refl opts
          (λ i. (ends i, (process_zalo_webhook later (event_job env a.id p) db.next_id a.id db').1))
          same,
    )

-- The names of the events by which a user withdraws.
abbrev pub is_withdrawal : Text → Bool
is_withdrawal name = text_eq name (codes "user_unfollow") || text_eq name (codes "user_withdraw")

withdrawal-inbound :
    (name : Text) → is_withdrawal name ≡ true → starts_with (codes "user_") name ≡ true
unfolding starts_with
withdrawal-inbound name h = elim (Bool-cases (text_eq name (codes "user_unfollow"))) [
  | inl unfollows ↦ ap (starts_with (codes "user_")) ((text_eq_iff _ _).0 unfollows)
  | inr otherwise ↦
      ap (starts_with (codes "user_"))
        ((text_eq_iff name (codes "user_withdraw")).0 (ground (arith, h, otherwise)))
]

-- An accepted event named `user_unfollow` or `user_withdraw` adds one entry to the webhook queue, and the
-- worker that takes this entry, whenever it does so, ends well and leaves every contact of the account's
-- workspace with the sender's id suppressed there. The event names its sender, its id is new to the
-- events, and the account is found by its id.
pub withdrawal_takes_effect :
    (env : IntakeEnv) (w : World) (now later : ℕ) (raw signature : Option Text)
    (p : ZaloWebhookPayload) (db : Db) {db' : Db} (a : SocialAccount) (c : Contact) {name : Text}
    {user : Scalar}
    → accept env now raw signature p db ≡ (ok accepted, db')
    → IsFirst env p db a
    → any (λ (r : WebhookEvent). r.id == db.next_id) db.webhook_events ≡ false
    → zalo_account db a.id ≡ some a
    → p.event_name ≡ some name
    → is_withdrawal name ≡ true
    → p.sender_id ≡ some user
    → is_empty (string_of user) ≡ false
    → same_user a.workspace_id zalo (string_of user) c ≡ true
    → (entry : QueueEntry) × (db'.queue ≡ db.queue ++ entry ∷ [])
      × (entry.queue ≡ webhook_process)
      × ((run_entry w later entry db').0 ≡ ok tt)
      × (is_suppressed (run_entry w later entry db').1 a.workspace_id c ≡ true)
withdrawal_takes_effect env w now later raw signature p db {db'} a c {name} {user} done first fresh
      known named leaves sent_by someone same =
    let inbound = withdrawal-inbound name leaves in
    let who : user_of (arrived_event now db.next_id a.workspace_id p) ≡ string_of user =
      ground (arith, named, inbound, sent_by) in
    opt_out_handled env w now later raw signature p db a c done first fresh known
      (ground (arith, named, leaves)) (rw who someone) (rw who same)
