-- ===== src/Worker/Optout.antt =====
-- A user who withdraws is not written to again.
use tool_messager.Prelude.{
  Bool-cases, List, Option, Text, [], any, any-append, ap, arith, codes, false, includes, inl, inr,
  is_empty, none, ok, some, text_eq_iff, text_eq_self, true, ℕ, ◌∷◌, ◌≡◌,
}
use tool_messager.Shared.{Platform, same_platform, zalo}
use tool_messager.Store.{
  Contact, Db, JobKey, SocialAccount, SuppressionEntry, WebhookEvent, is_completed_job, number_is,
  start_job, text_is, update_job,
}
use tool_messager.Outbound.{entry_holds, is_on_suppression_list, is_suppressed, scope_covers}
use tool_messager.Worker.Progress.{update_message}
use tool_messager.Worker.Campaign.{open_conversation}
use tool_messager.Worker.Jobs.{same_user}
use tool_messager.Worker.Webhook.{
  add_webhook_message, apply_event, display_name_of, event_by_id, finish_event, is_opt_out_event,
  name_of, names_user, notify_inbound, opt_out, process_zalo_webhook, receive_message, run_event,
  start_event, update_event, upsert_contact, user_of, zalo_account, zalo_suppression,
}
use tool_messager.Worker.Base.{update_account}

pub text_is-some : (o : Option Text) (t : Text) → text_is o t ≡ true → o ≡ some t
text_is-some none t h = absurd (ground (arith, h))
text_is-some (some s) t h = ap some ((text_eq_iff s t).0 h)

is_zalo : (p : Platform) → same_platform p zalo ≡ true → p ≡ zalo
is_zalo p h = ground arith

zalo_entry :
    (o : Option Platform)
    → elim o [ none ↦ false | some p ↦ same_platform p zalo ] ≡ true
    → o ≡ some zalo
zalo_entry none h = absurd (ground (arith, h))
zalo_entry (some p) h = ap some (is_zalo p h)

covers_tenant :
    (workspace : ℕ) (s : SuppressionEntry)
    → number_is s.workspace_id workspace ≡ true
    → scope_covers workspace s ≡ true
covers_tenant workspace s h = ground arith

named_covers :
    (workspace : ℕ) (user : Text) (c : Contact) (s : SuppressionEntry)
    → same_user workspace zalo user c ≡ true
    → is_empty user ≡ false
    → names_user workspace user s ≡ true
    → entry_holds workspace c s ≡ true
unfolding entry_holds
named_covers workspace user c s h n k = ground (
  arith,
  is_zalo c.platform (ground (arith, h)),
  zalo_entry s.platform (ground (arith, k)),
  text_is-some c.platform_user_id user (ground (arith, h)),
  text_is-some s.platform_user_id user (ground (arith, k)),
  text_eq_self user,
  covers_tenant workspace s (ground (arith, k)),
)

any_named :
    (workspace : ℕ) (user : Text) (c : Contact) (ss : List SuppressionEntry)
    → same_user workspace zalo user c ≡ true
    → is_empty user ≡ false
    → any (names_user workspace user) ss ≡ true
    → any (entry_holds workspace c) ss ≡ true
any_named workspace user c [] h n k = k
any_named workspace user c (s ∷ ss) h n k =
    ground (arith, k, named_covers workspace user c s h n, any_named workspace user c ss h n)

opt_out-names :
    (now workspace : ℕ) (user : Text) (c : Contact) (db : Db)
    → any (names_user workspace user) (opt_out now workspace user c db).suppressions ≡ true
unfolding opt_out
opt_out-names now workspace user c db =
    elim (Bool-cases (any (names_user workspace user) db.suppressions)) [
      | inl known ↦ ground (arith, known)
      | inr new_one ↦ ground (
        arith,
        new_one,
        text_eq_self user,
        any-append (names_user workspace user) db.suppressions
            (zalo_suppression db.next_id workspace user ∷ []),
      )
    ]

receive_message-suppressions :
    (now : ℕ) (a : SocialAccount) (e : WebhookEvent) (contact : ℕ) (db : Db)
    → (receive_message now a e contact db).suppressions ≡ db.suppressions
unfolding receive_message add_webhook_message notify_inbound open_conversation update_message
receive_message-suppressions now a e contact db = ground arith

apply_event-names :
    (now : ℕ) (a : SocialAccount) (e : WebhookEvent) (db : Db)
    → is_opt_out_event e ≡ true
    → any (names_user a.workspace_id (user_of e)) (apply_event now a e db).suppressions ≡ true
unfolding apply_event
apply_event-names now a e db h =
    let u = upsert_contact a.workspace_id (user_of e) (display_name_of e) db in
    let told = opt_out now a.workspace_id (user_of e) u.0 u.1 in
    elim (Bool-cases (includes (codes "_send_") (name_of e))) [
      | inl sends ↦ ground (
        arith,
        h,
        sends,
        receive_message-suppressions now a e u.0.id told,
        opt_out-names now a.workspace_id (user_of e) u.0 u.1,
      )
      | inr quiet ↦ ground (arith, h, quiet, opt_out-names now a.workspace_id (user_of e) u.0 u.1)
    ]

-- A run that ends well names a user, and leaves the suppressions of the event.
run_event-names :
    (now : ℕ) (key : JobKey) (a : SocialAccount) (e : WebhookEvent) (db : Db) {s : Db}
    → run_event now key a e db ≡ (ok tt, s)
    → is_opt_out_event e ≡ true
    → (is_empty (user_of e) ≡ false)
      × (any (names_user a.workspace_id (user_of e)) s.suppressions ≡ true)
unfolding run_event finish_event update_job update_event update_account
run_event-names now key a e db h opt = elim (Bool-cases (is_empty (user_of e))) [
  | inl nobody ↦ absurd (ground (arith, h, nobody))
  | inr someone ↦ (
    someone,
    ground (
      arith,
      h,
      someone,
      apply_event-names now a e (update_event e.id (start_event now) (update_job key start_job db))
          opt,
    ),
  )
]

-- Once the worker has handled the event that a user unfollowed the account or withdrew, every contact
-- of the workspace with the user's id counts as suppressed there.
pub opted_out-is_suppressed :
    (now : ℕ) (key : JobKey) (event account : ℕ) (db : Db) {e : WebhookEvent} {a : SocialAccount}
    {s : Db} (c : Contact)
    → event_by_id db event ≡ some e
    → zalo_account db account ≡ some a
    → is_completed_job e.status ≡ false
    → is_opt_out_event e ≡ true
    → process_zalo_webhook now key event account db ≡ (ok tt, s)
    → same_user a.workspace_id zalo (user_of e) c ≡ true
    → is_suppressed s a.workspace_id c ≡ true
unfolding process_zalo_webhook is_suppressed is_on_suppression_list
opted_out-is_suppressed now key event account db {e} {a} {s} c he ha open_event opt done same =
    let (someone, named) =
      run_event-names now key a e db {s = s} (ground (arith, he, ha, open_event, done)) opt in
    ground (arith, any_named a.workspace_id (user_of e) c s.suppressions same someone named)
