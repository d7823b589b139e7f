-- ===== src/Messages/Idempotent.antt =====
-- A message is stored once for each idempotency key.
use mathlib.Core.Path.{sym, subst, ◌∙◌}
use tool_messager.Prelude.{
  Bool, List, Option-cases, Result, Result-cases, Text, [], ap, arith, err, find_first, inl, inr,
  none, ok, some, sym, text_eq_self, true, ℕ, ◌++◌, ◌∙◌, ◌∷◌, ◌≡◌, ◌⊎◌,
}
use tool_messager.Shared.{SafetyDecision, allowed, evaluate_message_safety, refused}
use tool_messager.Policy.{Entitlements, assert_outbound_allowed}
use tool_messager.Access.{Permission, WorkspaceRole}
use tool_messager.Store.{Contact, Db, Message, SocialAccount, client_key, of_contact}
use tool_messager.Worker.Once.{open_conversation-messages}
use tool_messager.Messages.{
  SendEnv, SendInput, accepted, duplicate_prevented, hand_over, message_by_key, message_status_of,
  own_account, own_contact, requested_message, send, send_context, send_new, store_message,
  unless_sent,
}
use tool_messager.Workspaces.{ServiceError, assert_permission, with_policy}
use tool_messager.Workspaces.Frame.{assert_permission_writes, outbound_check_writes}
use tool_messager.Worker.{has_key}

pub store_message-messages :
    (env : SendEnv) (now user workspace : ℕ) (input : SendInput) (a : SocialAccount) (c : Contact)
    (d : SafetyDecision) (db : Db) {m : Message} {e : SafetyDecision} {s : Db}
    → store_message env now user workspace input a c d db ≡ (ok (accepted m e), s)
    → (s.messages ≡ db.messages ++ m ∷ [])
      × (m.idempotency_key ≡ client_key input.idempotency_key)
      × (m.status ≡ message_status_of d)
      × (e ≡ d)
unfolding store_message hand_over requested_message
store_message-messages env now user workspace input a c allowed db h =
    ground (arith, open_conversation-messages workspace a.id c.id (of_contact c.id) db)
store_message-messages env now user workspace input a c (refused code) db h =
    ground (arith, open_conversation-messages workspace a.id c.id (of_contact c.id) db)

find_first-append :
    {A : Type 0} (p : A → Bool) (xs : List A) (x : A)
    → find_first p xs ≡ none
    → p x ≡ true
    → find_first p (xs ++ x ∷ []) ≡ some x
unfolding find_first
find_first-append p [] x h k = ground (arith, k)
find_first-append p (y ∷ ys) x h k = ground (arith, h, k, find_first-append p ys x)

has_key_self :
    (m : Message) (key : Text)
    → m.idempotency_key ≡ client_key key
    → has_key (client_key key) m ≡ true
has_key_self m key h = rw h (text_eq_self key)

ap2_find :
    (key key' : Text) (t s : Db)
    → key ≡ key'
    → t.messages ≡ s.messages
    → find_first (has_key (client_key key)) t.messages
      ≡ find_first (has_key (client_key key')) s.messages
ap2_find key key' t s e h = cc

-- What the two checks of `send` change.
passed_frame :
    (now user workspace additional : ℕ) (db : Db) {s t : Db}
    → (assert_permission now user workspace Permission.message_send db).1 ≡ s
    → (with_policy (assert_outbound_allowed now workspace additional) s).1 ≡ t
    → t ≡ record db { audits = t.audits; subscriptions = t.subscriptions }
passed_frame now user workspace additional db {s} {t} h k =
    let after : s ≡ record db { audits = s.audits } =
      subst (λ (x : Db). x ≡ record db { audits = x.audits }) h
        (assert_permission_writes now user workspace Permission.message_send db) in
    let then_after : t ≡ record s { subscriptions = t.subscriptions } =
      subst (λ (x : Db). x ≡ record s { subscriptions = x.subscriptions }) k
        (outbound_check_writes now workspace additional s) in
    ground (arith, after, then_after)

-- What `send` went through when it stored a message.
pub send-stored :
    (env : SendEnv) (now user workspace : ℕ) (input : SendInput) (db : Db) {m : Message}
    {d : SafetyDecision} {s : Db}
    → send env now user workspace input db ≡ (ok (accepted m d), s)
    → (s1 : Db) × (s2 : Db) × (a : SocialAccount) × (c : Contact) × (s1.messages ≡ db.messages)
      × (s2.messages ≡ db.messages)
      × (message_by_key db input.idempotency_key ≡ none)
      × (own_account s2 workspace input.account_id ≡ some a)
      × (own_contact s2 workspace input.contact_id ≡ some c)
      × (store_message env now user workspace input a c
            (evaluate_message_safety (send_context env now workspace s2 a c input.promotional))
            s2
          ≡ (ok (accepted m d), s))
      × (s2 ≡ record db { audits = s2.audits; subscriptions = s2.subscriptions })
unfolding send unless_sent message_by_key send_new
send-stored env now user workspace input db {m} {d} {s} h =
    elim (Result-cases (assert_permission now user workspace Permission.message_send db)) [
      | inl (e, s1, denied) ↦ absurd (ground (arith, denied))
      | inr (role, s1, entered) ↦ elim (Option-cases (message_by_key s1 input.idempotency_key)) [
        | inr (m0, there) ↦ absurd (ground (arith, entered, there))
        | inl fresh ↦
            elim (Result-cases (with_policy (assert_outbound_allowed now workspace 1) s1)) [
              | inl (e, s2, denied) ↦ absurd (ground (arith, entered, fresh, denied))
              | inr (ent, s2, passed) ↦
                  elim (Option-cases (own_account s2 workspace input.account_id)) [
                    | inl gone ↦ absurd (ground (arith, entered, fresh, passed, gone))
                    | inr (a, ha) ↦
                        elim (Option-cases (own_contact s2 workspace input.contact_id)) [
                          | inl gone ↦ absurd (ground (arith, entered, fresh, passed, ha, gone))
                          | inr (c, hc) ↦
                              let kept : s1.messages ≡ db.messages =
                                sym (
                                  ap (λ (r : Result ServiceError WorkspaceRole × Db). r.1.messages)
                                    entered)
                                ∙ ap (λ (t : Db). t.messages)
                                    (assert_permission_writes now user workspace
                                      Permission.message_send db) in
                              let kept_too : s2.messages ≡ s1.messages =
                                sym (
                                  ap (λ (r : Result ServiceError Entitlements × Db). r.1.messages)
                                    passed)
                                ∙ ap (λ (t : Db). t.messages)
                                    (outbound_check_writes now workspace 1 s1) in
                              (
                                s1,
                                s2,
                                a,
                                c,
                                kept,
                                kept_too ∙ kept,
                                sym (
                                      ap
                                        (λ ms.
                                          find_first (has_key (client_key input.idempotency_key))
                                            ms)
                                        kept)
                                    ∙ fresh,
                                ha,
                                hc,
                                ground (arith, entered, fresh, passed, ha, hc),
                                passed_frame now user workspace 1 db
                                    (ap (λ (r : Result ServiceError WorkspaceRole × Db). r.1)
                                      entered)
                                    (ap (λ (r : Result ServiceError Entitlements × Db). r.1)
                                      passed),
                              )
                        ]
                  ]
            ]
      ]
    ]

entered_frame :
    (now user workspace : ℕ) (db : Db) {r : Result ServiceError WorkspaceRole} {t : Db}
    → assert_permission now user workspace Permission.message_send db ≡ (r, t)
    → t ≡ record db { audits = t.audits }
entered_frame now user workspace db h =
    subst (λ (x : Result ServiceError WorkspaceRole × Db). x.1 ≡ record db { audits = x.1.audits })
      h (assert_permission_writes now user workspace Permission.message_send db)

-- Whatever workspace a request is for, the key finds the message.
found_anywhere :
    (env : SendEnv) (now user workspace : ℕ) (input : SendInput) (db : Db) (env' : SendEnv)
    (later user' workspace' : ℕ) (input' : SendInput) {m : Message} {d : SafetyDecision} {s t : Db}
    {role : WorkspaceRole}
    → send env now user workspace input db ≡ (ok (accepted m d), s)
    → assert_permission later user' workspace' Permission.message_send s ≡ (ok role, t)
    → input'.idempotency_key ≡ input.idempotency_key
    → send env' later user' workspace' input' s ≡ (ok (duplicate_prevented m), t)
unfolding send unless_sent message_by_key
found_anywhere env now user workspace input db env' later user' workspace' input' {m} {d} {s} {t} h
      k e =
    let (s1, s2, a, c, kept, kept_too, fresh, ha, hc, stored, contacts_kept) =
      send-stored env now user workspace input db h in
    let (added, key, status, same) =
      store_message-messages env now user workspace input a c _ s2 stored in
    let found : find_first (has_key (client_key input.idempotency_key)) s.messages ≡ some m =
      subst (λ ms. find_first (has_key (client_key input.idempotency_key)) ms ≡ some m) (sym added)
        (find_first-append (has_key (client_key input.idempotency_key)) s2.messages m
          (ap (λ ms. find_first (has_key (client_key input.idempotency_key)) ms) kept_too ∙ fresh)
          (has_key_self m input.idempotency_key key)) in
    let kept_then : t.messages ≡ s.messages =
      sym (ap (λ (r : Result ServiceError WorkspaceRole × Db). r.1.messages) k)
      ∙ ap (λ (x : Db). x.messages)
          (assert_permission_writes later user' workspace' Permission.message_send s) in
    let again : find_first (has_key (client_key input'.idempotency_key)) t.messages ≡ some m =
      ap2_find input'.idempotency_key input.idempotency_key t s e kept_then ∙ found in
    ground (arith, k, again)

-- Once `send` has stored a message, a later request of the same workspace with the same idempotency key,
-- by whatever user, at whatever time and with whatever else in it, stores no message, no job and no queue
-- entry: a user who may send gets the stored message back, any other is refused, and at most the audit
-- log is written.
pub send-send :
    (env : SendEnv) (now user workspace : ℕ) (input : SendInput) (db : Db) (env' : SendEnv)
    (later user' : ℕ) (input' : SendInput) {m : Message} {d : SafetyDecision} {s : Db}
    → send env now user workspace input db ≡ (ok (accepted m d), s)
    → input'.idempotency_key ≡ input.idempotency_key
    → (t : Db) × (t ≡ record s { audits = t.audits })
      × (((role : WorkspaceRole) × (assert_permission later user' workspace Permission.message_send
                s
              ≡ (ok role, t))
            × (send env' later user' workspace input' s ≡ (ok (duplicate_prevented m), t)))
          ⊎ ((e : ServiceError) × (assert_permission later user' workspace Permission.message_send s
                ≡ (err e, t))
              × (send env' later user' workspace input' s ≡ (err e, t))))
send-send env now user workspace input db env' later user' input' {m} {d} {s} h e =
    elim (Result-cases (assert_permission later user' workspace Permission.message_send s)) [
      | inl (e', t, denied) ↦ (
        t,
        entered_frame later user' workspace s denied,
        inr (e', denied, unfold send in ground (arith, denied)),
      )
      | inr (role, t, entered) ↦ (
        t,
        entered_frame later user' workspace s entered,
        inl (
          role,
          entered,
          found_anywhere env now user workspace input db env' later user' workspace input' h entered
              e,
        ),
      )
    ]
