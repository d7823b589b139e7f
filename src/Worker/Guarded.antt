-- ===== src/Worker/Guarded.antt =====
-- `processMessage` of apps/worker/src/main.ts hands a message to the platform only past its guards.
use tool_messager.Prelude.{
  Bool, List, Option, Option-cases, ap, arith, false, find_first, find_first-update_where, inl, inr,
  none, ok, refl, some, true, update_where, ℕ, ◌==◌, ◌||◌, ◌≡◌, ◌≢◌,
}
use tool_messager.Outbound.{is_suppressed}
use tool_messager.Store.{
  Contact, Db, Message, MessageError, MessageStatus, SocialAccount, account_unavailable,
  blocked_by_policy, campaign_cancelled, is_connected, queued, same_message_status, sending, sent,
  unsafe_to_send, update_campaign, update_job,
}
use tool_messager.Worker.Progress.{
  block_message, message_by_id, set_message_blocked, settle_campaign, update_campaign_progress,
  update_message,
}
use tool_messager.Shared.{
  SafetyDecision, allowed, evaluate_message_safety, opted_in, opted_out, refused,
}
use tool_messager.Shared.Safety.{IsSendable, safety_allowed_iff}
use tool_messager.Worker.Base.{WorkerError, World, outbound_block_reason}
use tool_messager.Worker.Send.{
  account_by_id, campaign_status_of, check_policy, check_safety, contact_of_message, decide, delay,
  is_cancelled, is_paused, is_settled, message_context, process_message, process_open_message,
}

-- Handed to the platform: SENDING or SENT.
abbrev pub is_handed_over : Option Message → Bool
is_handed_over none = false
is_handed_over (some m) = same_message_status m.status sending || same_message_status m.status sent

update_campaign_progress-messages :
    (now message : ℕ) (s : MessageStatus) (e : Option MessageError) (db : Db)
    → (update_campaign_progress now message s e db).messages ≡ db.messages
unfolding update_campaign_progress settle_campaign update_campaign
update_campaign_progress-messages now message s e db = ground arith

by_id-progress :
    (now message id : ℕ) (s : MessageStatus) (e : Option MessageError) (db : Db)
    → message_by_id (update_campaign_progress now message s e db) id ≡ message_by_id db id
unfolding message_by_id
by_id-progress now message id s e db =
    ap (find_first (λ m. m.id == id)) (update_campaign_progress-messages now message s e db)

by_id-update :
    (id : ℕ) (f : Message → Message) (ms : List Message) {m : Message}
    → ((x : Message) → (f x).id ≡ x.id)
    → find_first (λ x. x.id == id) ms ≡ some m
    → find_first (λ x. x.id == id) (update_where (λ x. x.id == id) f ms) ≡ some (f m)
by_id-update id f ms keep found =
    find_first-update_where (λ x. x.id == id) (λ x. x.id == id) f (λ x. ap (λ n. n == id) (keep x))
      (λ x h. h) ms found

-- A blocked message is BLOCKED with the reason as its error, and otherwise as it was.
pub block_message-row :
    (now : ℕ) (m : Message) (e : MessageError) (db : Db)
    → message_by_id db m.id ≡ some m
    → message_by_id (block_message now m e db) m.id ≡ some (set_message_blocked e m)
unfolding block_message update_job update_message
block_message-row now m e db found = rw by_id-progress (
    unfold message_by_id in by_id-update m.id (set_message_blocked e) db.messages (λ x. refl) found)

-- What lets a queued message through to the platform.
pub record IsGuarded (w : World) (now : ℕ) (db : Db) (m : Message) (a : SocialAccount) (c : Contact)
    : Type 0 where
  pub campaign_goes_on :
      (is_paused (campaign_status_of db m.id) ≡ false)
      × (is_cancelled (campaign_status_of db m.id) ≡ false)
  pub account : account_by_id db m.account_id ≡ some a
  pub account_connected : is_connected a.status ≡ true
  pub policy_allows : outbound_block_reason now db m.workspace_id 0 ≡ none
  pub contact : contact_of_message db m ≡ some c
  pub not_suppressed : is_suppressed db m.workspace_id c ≡ false
  pub not_opted_out : c.consent_status ≢ opted_out
  pub consented : m.promotional ≡ true → c.consent_status ≡ opted_in
  pub is_safe : IsSendable (message_context w db m a c)

IsSendable-facts :
    (w : World) (db : Db) (m : Message) (a : SocialAccount) (c : Contact)
    → IsSendable (message_context w db m a c)
    → (is_suppressed db m.workspace_id c ≡ false)
      × (c.consent_status ≢ opted_out)
      × (m.promotional ≡ true → c.consent_status ≡ opted_in)
unfolding message_context
IsSendable-facts w db m a c s = (s.not_suppressed, s.not_opted_out, s.consented)

module _ (w : World) (now : ℕ) (tok : Bool) (m : Message) (db : Db) where
  unsent :
      message_by_id db m.id ≡ some m
      → m.status ≡ queued
      → is_handed_over (message_by_id db m.id) ≡ false
  unsent found fresh = rw found (ground arith)

  held_back :
      (e : MessageError)
      → message_by_id db m.id ≡ some m
      → is_handed_over (message_by_id (block_message now m e db) m.id) ≡ false
  held_back e found = rw (block_message-row now m e db found) refl

  delay-state : (e : WorkerError) (t : ℕ) → (delay tok e t db).1 ≡ db
  delay-state e t = ground arith

  decide_guard :
      (a : SocialAccount) (d : SafetyDecision)
      → message_by_id db m.id ≡ some m
      → is_handed_over (message_by_id (decide w now tok m a d db).1 m.id) ≡ true
      → d ≡ allowed
  unfolding decide
  decide_guard a allowed found h = refl
  decide_guard a (refused code) found h = absurd (cc (held_back (unsafe_to_send code) found))

  check_policy_guard :
      (a : SocialAccount)
      → message_by_id db m.id ≡ some m
      → m.status ≡ queued
      → is_handed_over (message_by_id (check_policy w now tok m a db).1 m.id) ≡ true
      → (is_connected a.status ≡ true)
        × (outbound_block_reason now db m.workspace_id 0 ≡ none)
        × ((c : Contact) × (contact_of_message db m ≡ some c)
            × (evaluate_message_safety (message_context w db m a c) ≡ allowed))
  unfolding check_policy check_safety
  check_policy_guard a found fresh h =
      elim (Option-cases (outbound_block_reason now db m.workspace_id 0)) [
        | inr (reason, stopped) ↦ absurd (
            ground (
              arith,
              held_back (blocked_by_policy reason) found,
              held_back (account_unavailable a.status) found,
            ))
        | inl unblocked ↦ elim (Option-cases (contact_of_message db m)) [
          | inl nobody ↦
              absurd
                (ground (arith, held_back (account_unavailable a.status) found, unsent found fresh))
          | inr (c, known) ↦ (
            ground (arith, held_back (account_unavailable a.status) found),
            unblocked,
            (
              c,
              known,
              decide_guard a (evaluate_message_safety (message_context w db m a c)) found
                  (ground (arith, held_back (account_unavailable a.status) found)),
            ),
          )
        ]
      ]

  open_guard :
      message_by_id db m.id ≡ some m
      → m.status ≡ queued
      → is_handed_over (message_by_id (process_open_message w now tok m db).1 m.id) ≡ true
      → (a : SocialAccount) × (c : Contact) × IsGuarded w now db m a c
  unfolding process_open_message
  open_guard found fresh h = elim (Option-cases (account_by_id db m.account_id)) [
    | inl nobody ↦ absurd (ground (arith, held_back campaign_cancelled found, unsent found fresh))
    | inr (a, known) ↦
        let p =
          check_policy_guard a found fresh
            (ground (arith, held_back campaign_cancelled found, unsent found fresh)) in
        let sendable : IsSendable (message_context w db m a p.2.0) =
          (safety_allowed_iff (message_context w db m a p.2.0)).0 p.2.2 in
        let facts = IsSendable-facts w db m a p.2.0 sendable in
        (
          a,
          p.2.0,
          record {
            campaign_goes_on = (
              ground (arith, unsent found fresh),
              ground (arith, held_back campaign_cancelled found, unsent found fresh),
            );
            account = known;
            account_connected = p.0;
            policy_allows = p.1;
            contact = p.2.1;
            not_suppressed = facts.0;
            not_opted_out = facts.1;
            consented = facts.2;
            is_safe = sendable;
          },
        )
  ]

-- A queued message is handed to the platform, that is, it becomes SENDING or SENT, only if its
-- campaign is neither paused nor cancelled, its account is connected, the worker's policy allows
-- outbound work, and its contact is not suppressed, has not opted out, has opted in if the message is
-- promotional, and passes the gate.
pub handed_over-IsGuarded :
    (w : World) (now : ℕ) (tok : Bool) (db : Db) (m : Message)
    → message_by_id db m.id ≡ some m
    → m.status ≡ queued
    → is_handed_over (message_by_id (process_message w now tok m.id db).1 m.id) ≡ true
    → (a : SocialAccount) × (c : Contact) × IsGuarded w now db m a c
unfolding process_message
handed_over-IsGuarded w now tok db m found fresh h =
    open_guard w now tok m db found fresh (ground arith)

-- A message that is SENT, DELIVERED, READ or BLOCKED is never sent again: the job changes nothing.
pub settled_untouched :
    (w : World) (now : ℕ) (tok : Bool) (db : Db) {m : Message} (id : ℕ)
    → message_by_id db id ≡ some m
    → is_settled m.status ≡ true
    → process_message w now tok id db ≡ (ok tt, db)
unfolding process_message
settled_untouched w now tok db id found settled = ground arith
