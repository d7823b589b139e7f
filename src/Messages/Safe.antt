-- ===== src/Messages/Safe.antt =====
-- What `send` puts on the queue.
use tool_messager.Prelude.{
  &&-true, Bool, [], ap, arith, false, find_first, ok, refl, some, sym, true, ℕ, ◌&&◌, ◌++◌, ◌==◌,
  ◌∙◌, ◌∷◌, ◌≡◌,
}
use tool_messager.Shared.{SafetyDecision, allowed, evaluate_message_safety, opted_in, refused}
use tool_messager.Shared.Safety.{IsSendable, safety_allowed_iff}
use tool_messager.Outbound.{is_on_suppression_list, is_suppressed}
use tool_messager.Store.{
  Contact, Db, Message, SocialAccount, blocked, is_connected, is_none, queued,
}
use tool_messager.Messages.{
  SendEnv, SendInput, accepted, message_status_of, own_account, own_contact, recent_messages, send,
  send_context,
}
use tool_messager.Messages.Idempotent.{send-stored, store_message-messages}

status_allowed : (d : SafetyDecision) → message_status_of d ≡ queued → d ≡ allowed
status_allowed allowed h = refl
status_allowed (refused code) h = absurd (cc)

-- The gate's context is that of a state with the same rows, but for the audit log and subscriptions.
context-frame :
    (env : SendEnv) (now workspace : ℕ) (db t : Db) (a : SocialAccount) (c : Contact)
    (promotional : Bool)
    → t ≡ record db { audits = t.audits; subscriptions = t.subscriptions }
    → send_context env now workspace t a c promotional
      ≡ send_context env now workspace db a c promotional
unfolding send_context is_suppressed is_on_suppression_list recent_messages
context-frame env now workspace db t a c promotional frame =
    ap (λ x. send_context env now workspace x a c promotional) frame

not_suppressed :
    (db : Db) (workspace : ℕ) (c : Contact)
    → is_suppressed db workspace c ≡ false
    → (c.suppressed ≡ false) × (is_on_suppression_list db workspace c ≡ false)
unfolding is_suppressed
not_suppressed db workspace c h = (ground (arith, h), ground (arith, h))

-- A message that `send` stores as QUEUED is from a connected account and to a contact of the workspace
-- that, by the rows as they are when `send` is called, is neither marked nor listed as suppressed and, if
-- the message is promotional, has opted in; the gate's context for it, by these rows, may be sent to. It
-- is the only message that is added.
pub send_queued-IsSendable :
    (env : SendEnv) (now user workspace : ℕ) (input : SendInput) (db : Db) {m : Message}
    {d : SafetyDecision} {s : Db}
    → send env now user workspace input db ≡ (ok (accepted m d), s)
    → m.status ≡ queued
    → (a : SocialAccount) × (c : Contact) × (s.messages ≡ db.messages ++ m ∷ [])
      × (own_account db workspace input.account_id ≡ some a)
      × (own_contact db workspace input.contact_id ≡ some c)
      × (is_connected a.status ≡ true)
      × (c.suppressed ≡ false)
      × (is_on_suppression_list db workspace c ≡ false)
      × (input.promotional ≡ true → c.consent_status ≡ opted_in)
      × IsSendable (send_context env now workspace db a c input.promotional)
unfolding send_context
send_queued-IsSendable env now user workspace input db {m} h q =
    let (s1, s2, a, c, kept, kept_too, fresh, ha, hc, stored, frame) =
      send-stored env now user workspace input db h in
    let (added, key, status, same) =
      store_message-messages env now user workspace input a c
        (evaluate_message_safety (send_context env now workspace s2 a c input.promotional)) s2
        stored in
    let same_context = context-frame env now workspace db s2 a c input.promotional frame in
    let sendable : IsSendable (send_context env now workspace db a c input.promotional) =
      (safety_allowed_iff (send_context env now workspace db a c input.promotional)).0
        (ap evaluate_message_safety (sym same_context) ∙ status_allowed _ (sym status ∙ q)) in
    let clean = not_suppressed db workspace c sendable.not_suppressed in
    (
      a,
      c,
      added ∙ ap (λ ms. ms ++ m ∷ []) kept_too,
      sym (ap (λ (x : Db). own_account x workspace input.account_id) frame) ∙ ha,
      sym (ap (λ (x : Db). own_contact x workspace input.contact_id) frame) ∙ hc,
      (&&-true (is_connected a.status) _ sendable.permitted).0,
      clean.0,
      clean.1,
      sendable.consented,
      sendable,
    )

-- A message that `send` stores for a contact marked as suppressed is BLOCKED.
pub send_suppressed-blocked :
    (env : SendEnv) (now user workspace : ℕ) (input : SendInput) (db : Db) {m : Message}
    {d : SafetyDecision} {s : Db} {c : Contact}
    → own_contact db workspace input.contact_id ≡ some c
    → c.suppressed ≡ true
    → send env now user workspace input db ≡ (ok (accepted m d), s)
    → m.status ≡ blocked
unfolding send_context evaluate_message_safety is_suppressed
send_suppressed-blocked env now user workspace input db {c} found marked h =
    let (s1, s2, a, b, kept, kept_too, fresh, ha, hb, stored, frame) =
      send-stored env now user workspace input db h in
    let (added, key, status, same) =
      store_message-messages env now user workspace input a b
        (evaluate_message_safety (send_context env now workspace s2 a b input.promotional)) s2
        stored in
    let same_contact : own_contact s2 workspace input.contact_id ≡ some c =
      ap
        (λ cs.
          find_first
            (λ (r : Contact).
              r.id == input.contact_id && r.workspace_id == workspace && is_none r.deleted_at)
            cs)
        (ap (λ (x : Db). x.contacts) frame)
      ∙ found in
    let marked_there : b.suppressed ≡ true = ground (arith, same_contact, hb, marked) in
    ground (arith, status, marked_there)
