-- ===== src/Contacts/Suppressed.antt =====
-- What the suppression and consent operations of apps/api/src/contacts/contacts.service.ts mean for
-- whom the workspace may write to.
use tool_messager.Prelude.{
  ==_self, Bool-cases, Option, Option-cases, Result-cases, Text, [], any-append, arith, false,
  find_first-update_found, find_first_fits, inl, inr, is_empty, none, ok, refl, some, text_eq_self,
  true, ℕ, ◌&&◌, ◌==◌, ◌∷◌, ◌≡◌,
}
use tool_messager.Shared.{ConsentStatus, Platform, SafetyDecision, opted_out}
use tool_messager.Access.{contact_manage}
use tool_messager.Store.{Contact, Db, Message, blocked, is_none}
use tool_messager.Workspaces.{assert_permission}
use tool_messager.Messages.{SendEnv, SendInput, accepted, own_contact, send}
use tool_messager.Messages.Safe.{send_suppressed-blocked}
use tool_messager.Worker.Optout.{text_is-some}
use tool_messager.Contacts.{
  SuppressionInput, add_suppression, consented_contact, contact_of, contact_phone, is_listed,
  phone_matches, suppress, tenant_entry, update_consent, user_matches,
}
use tool_messager.Outbound.{
  entry_holds, is_on_suppression_list, is_suppressed, matches_text, platform_is,
}
use tool_messager.Phone.{given, normalize_phone}
use tool_messager.Phone.Form.{Phone-cases, valid-not_empty}

own_contact-id :
    (db : Db) (workspace id : ℕ) {c : Contact}
    → own_contact db workspace id ≡ some c
    → (c.id == id) ≡ true
own_contact-id db workspace id h =
    let fits =
      find_first_fits
        (λ (r : Contact). r.id == id && r.workspace_id == workspace && is_none r.deleted_at)
        db.contacts h in
    ground arith

consent_recorded :
    (now user workspace id : ℕ) (s : ConsentStatus) (db : Db) {db' : Db}
    → update_consent now user workspace id s db ≡ (ok tt, db')
    → (c : Contact) × (own_contact db' workspace id ≡ some (consented_contact s c))
unfolding update_consent contact_of
consent_recorded now user workspace id s db {db'} h =
    elim (Result-cases (assert_permission now user workspace contact_manage db)) [
      | inl (e, t, denied) ↦ absurd (ground (arith, h, denied))
      | inr (role, t, entered) ↦ elim (Option-cases (own_contact t workspace id)) [
        | inl gone ↦ absurd (ground (arith, h, entered, gone))
        | inr (c, found) ↦ (
          c,
          ground (
            arith,
            h,
            entered,
            found,
            find_first-update_found
                (λ (r : Contact). r.id == id && r.workspace_id == workspace && is_none r.deleted_at)
                (λ (r : Contact). r.id == id) (consented_contact s) (λ x. refl) t.contacts found
                (own_contact-id t workspace id found),
          ),
        )
      ]
    ]

-- After an opt-out was recorded for a contact, every message that anyone sends it is stored as BLOCKED.
pub opted_out-send_blocked :
    (env : SendEnv) (now later user sender workspace : ℕ) (input : SendInput) (db : Db)
    {m : Message} {d : SafetyDecision} {db' s : Db}
    → update_consent now user workspace input.contact_id opted_out db ≡ (ok tt, db')
    → send env later sender workspace input db' ≡ (ok (accepted m d), s)
    → m.status ≡ blocked
opted_out-send_blocked env now later user sender workspace input db {db' = db'} h k =
    let (c, found) = consent_recorded now user workspace input.contact_id opted_out db h in
    send_suppressed-blocked env later sender workspace input db' {c = consented_contact opted_out c}
      found refl k

-- The phone that the list keeps is not empty.
contact_phone-some :
    (phone : Option Text) (db : Db) {t : Text} {s : Db}
    → contact_phone phone db ≡ (ok (some t), s)
    → is_empty t ≡ false
unfolding contact_phone
contact_phone-some phone db {t} h = elim (Phone-cases (normalize_phone (given phone))) [
  | inl none_given ↦ absurd (ground (arith, h, none_given))
  | inr (inl bad) ↦ absurd (ground (arith, h, bad))
  | inr (inr (p, good)) ↦ ground (arith, h, good, valid-not_empty (given phone) p good)
]

phone_covers :
    (phone : Option Text) (c : Contact)
    → phone_matches phone c ≡ true
    → ((t : Text) → phone ≡ some t → is_empty t ≡ false)
    → matches_text c.normalized_phone phone ≡ true
phone_covers none c h full = absurd (ground (arith, h))
phone_covers (some t) c h full =
    ground (arith, text_is-some c.normalized_phone t h, full t refl, text_eq_self t)

user_covers :
    (p : Platform) (user : Option Text) (c : Contact)
    → user_matches p (given user) c ≡ true
    → (platform_is (some p) c.platform && matches_text c.platform_user_id (given user)) ≡ true
user_covers p none c h = absurd (ground (arith, h))
user_covers p (some u) c h = elim (Bool-cases (is_empty u)) [
  | inl blank ↦ absurd (ground (arith, h, blank))
  | inr real ↦
      ground (
        arith,
        h,
        real,
        text_eq_self u,
        text_is-some c.platform_user_id u (ground (arith, h, real)),
      )
]

entry_covers :
    (id workspace : ℕ) (input : SuppressionInput) (phone : Option Text) (c : Contact)
    → is_listed workspace input phone c ≡ true
    → ((t : Text) → phone ≡ some t → is_empty t ≡ false)
    → entry_holds workspace c (tenant_entry id workspace input phone) ≡ true
unfolding entry_holds
entry_covers id workspace input phone c h full = elim (Bool-cases (phone_matches phone c)) [
  | inl by_phone ↦ ground (arith, ==_self workspace, phone_covers phone c by_phone full)
  | inr not_phone ↦ elim (Option-cases input.platform) [
    | inl nowhere ↦ absurd (ground (arith, h, not_phone, nowhere))
    | inr (p, there) ↦ ground (
      arith,
      h,
      not_phone,
      there,
      ==_self workspace,
      user_covers p input.platform_user_id c (ground (arith, h, not_phone, there)),
    )
  ]
]

contact_phone-any_state :
    (phone normal : Option Text) (db t : Db)
    → contact_phone phone db ≡ (ok normal, db)
    → contact_phone phone t ≡ (ok normal, t)
unfolding contact_phone
contact_phone-any_state phone normal db t h = elim (Phone-cases (normalize_phone (given phone))) [
  | inl none_given ↦ ground (arith, h, none_given)
  | inr (inl bad) ↦ absurd (ground (arith, h, bad))
  | inr (inr (p, good)) ↦ ground (arith, h, good)
]

-- Once an entry is on the suppression list of a workspace, every contact of it that has the entry's
-- phone, or the entry's user id on the entry's platform, counts as suppressed there.
pub listed-is_suppressed :
    (now user workspace : ℕ) (input : SuppressionInput) (phone : Option Text) (c : Contact)
    (db : Db) {id : ℕ} {db' : Db}
    → contact_phone input.phone db ≡ (ok phone, db)
    → suppress now user workspace input db ≡ (ok id, db')
    → is_listed workspace input phone c ≡ true
    → is_suppressed db' workspace c ≡ true
unfolding suppress add_suppression is_suppressed is_on_suppression_list
listed-is_suppressed now user workspace input phone c db normal h listed =
    elim (Result-cases (assert_permission now user workspace contact_manage db)) [
      | inl (e, t, denied) ↦ absurd (ground (arith, h, denied))
      | inr (role, t, entered) ↦ ground (
        arith,
        h,
        entered,
        contact_phone-any_state input.phone phone db t normal,
        any-append (entry_holds workspace c) t.suppressions
            (tenant_entry t.next_id workspace input phone ∷ []),
        entry_covers t.next_id workspace input phone c listed (not_empty phone db normal),
      )
    ]
  where
    not_empty :
        (phone : Option Text) (db : Db)
        → contact_phone input.phone db ≡ (ok phone, db)
        → (t : Text) → phone ≡ some t
        → is_empty t ≡ false
    not_empty phone db normal t e = contact_phone-some input.phone db (rw e at normal)
