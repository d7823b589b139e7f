-- ===== src/Contacts.antt =====
-- apps/api/src/contacts/contacts.service.ts: the contacts of a workspace, their consent and its
-- suppression list. A contact's input has the fields of the worker's ImportContact. `Segments` and
-- `Bulk` are the operations on many contacts.
pub mod Segments
pub mod Bulk
pub mod Suppressed
pub mod Preview
use tool_messager.Prelude.{
  Bool, Exec, Option, Text, [], any, delete_where, err, false, find_first, if◌then◌else◌, is_some,
  modify, none, not, ok, read, require, require_some, return, some, true, update_where, ℕ, ◌&&◌,
  ◌++◌, ◌+◌, ◌==◌, ◌>>=◌, ◌>>◌, ◌||◌, ◌∷◌,
}
use tool_messager.Shared.{ConsentStatus, Platform, is_opted_out, same_platform}
use tool_messager.Access.{contact_manage}
use tool_messager.Store.{
  Contact, Db, SuppressionEntry, SuppressionScope, contact_consent_updated, contact_created,
  contact_opted_out, contact_updated, do_not_contact, global, is_none, number_is, suppression_added,
  suppression_removed, tenant, text_is,
}
use tool_messager.Policy.{assert_contact_capacity}
use tool_messager.Workspaces.{
  ServiceError, add_audit, assert_permission, bad_request, not_found, with_policy,
}
use tool_messager.Phone.{given, invalid, missing, normalize_phone, valid}
use tool_messager.Worker.{
  ImportContact, add_consent, blank_contact, consent_rank, consent_row, status_of_consent,
  write_contact,
}

-- `normalizePhone`: an empty phone is none, and one that is not 9 to 15 digits long is refused.
unfoldable pub contact_phone : Option Text → Exec Db ServiceError (Option Text)
contact_phone phone db = elim (normalize_phone (given phone)) [
  | missing ↦ (ok none, db)
  | invalid ↦ (err bad_request, db)
  | valid p ↦ (ok (some p), db)
]

abbrev pub user_matches : Platform → Option Text → Contact → Bool
user_matches p none c = false
user_matches p (some user) c = same_platform c.platform p && text_is c.platform_user_id user

abbrev pub phone_matches : Option Text → Contact → Bool
phone_matches none c = false
phone_matches (some phone) c = text_is c.normalized_phone phone

-- `OR: matchers`, which no contact meets where there is no matcher
abbrev pub is_same_contact :
    (workspace : ℕ) → Platform → (user phone : Option Text) → Contact → Bool
is_same_contact workspace p user phone c =
    c.workspace_id == workspace
    && is_none c.deleted_at
    && (user_matches p user c || phone_matches phone c)

unfoldable pub contact_like :
    Db → (workspace : ℕ) → ImportContact → (phone : Option Text) → Option Contact
contact_like db workspace input phone =
    find_first (is_same_contact workspace input.platform (given input.platform_user_id) phone)
      db.contacts

-- The contact's id, and whether it was created.
unfoldable pub upsert_one :
    (now workspace : ℕ) → ImportContact → (phone : Option Text) → Exec Db ServiceError (ℕ × Bool)
unfolding add_consent write_contact
upsert_one now workspace input phone db = elim (contact_like db workspace input phone) [
  | some c ↦ (
    ok (c.id, false),
    add_consent (not (consent_rank c.consent_status == consent_rank input.consent_status)) now c.id
        input.consent_status
        (record db {
          contacts = update_where (λ r. r.id == c.id) (write_contact input phone) db.contacts;
        }),
  )
  | none ↦ (
    ok (db.next_id, true),
    add_consent true now db.next_id input.consent_status (record db {
      next_id = db.next_id + 1;
      contacts =
          db.contacts ++ write_contact input phone (blank_contact db.next_id workspace input) ∷ [];
    }),
  )
]

contact_room : (now workspace : ℕ) → Option Contact → Exec Db ServiceError (Unit {0})
contact_room now workspace none = with_policy (assert_contact_capacity now workspace 1)
contact_room now workspace (some c) = return tt

unfoldable pub create_contact : (now user workspace : ℕ) → ImportContact → Exec Db ServiceError ℕ
unfolding contact_room
create_contact now user workspace input = do
  assert_permission now user workspace contact_manage
  phone ← contact_phone input.phone
  existing ← read (λ db. contact_like db workspace input phone)
  contact_room now workspace existing
  saved ← upsert_one now workspace input phone
  modify (add_audit workspace user (if saved.1 then contact_created else contact_updated) saved.0)
  return saved.0

abbrev pub consented_contact : ConsentStatus → Contact → Contact
consented_contact s c = record c {
  consent_status = s;
  suppressed = is_opted_out s;
  status = status_of_consent s;
}

-- `findFirst({ id, workspaceId, deletedAt: null })`
unfoldable pub contact_of : Db → (workspace id : ℕ) → Option Contact
contact_of db workspace id =
    find_first (λ c. c.id == id && c.workspace_id == workspace && is_none c.deleted_at) db.contacts

unfoldable pub update_consent :
    (now user workspace id : ℕ) → ConsentStatus → Exec Db ServiceError (Unit {0})
update_consent now user workspace id s = do
  assert_permission now user workspace contact_manage
  c ← read (λ db. contact_of db workspace id)
  c ← require_some c not_found
  modify (λ db. record db {
    contacts = update_where (λ r. r.id == id) (consented_contact s) db.contacts;
    consents = db.consents ++ consent_row now id s ∷ [];
  })
  modify (
      add_audit workspace user
        (if is_opted_out s then contact_opted_out else contact_consent_updated) id)

pub record SuppressionInput : Type 0 where
  pub platform : Option Platform
  pub platform_user_id : Option Text
  pub phone : Option Text

abbrev pub tenant_entry :
    (id workspace : ℕ) → SuppressionInput → (phone : Option Text) → SuppressionEntry
tenant_entry id workspace input phone = record {
  id = id;
  scope = tenant;
  workspace_id = some workspace;
  platform = input.platform;
  platform_user_id = given input.platform_user_id;
  normalized_phone = phone;
}

abbrev listed_user : SuppressionInput → Contact → Bool
listed_user input c = elim input.platform [
  | none ↦ false
  | some p ↦ user_matches p (given input.platform_user_id) c
]

-- The contacts that a new entry marks.
abbrev pub is_listed : (workspace : ℕ) → SuppressionInput → (phone : Option Text) → Contact → Bool
is_listed workspace input phone c =
    c.workspace_id == workspace
    && is_none c.deleted_at
    && (phone_matches phone c || listed_user input c)

abbrev pub mark_suppressed : Contact → Contact
mark_suppressed c = record c { suppressed = true; status = do_not_contact }

unfoldable pub add_suppression :
    (user workspace : ℕ) → SuppressionInput → (phone : Option Text) → Exec Db ServiceError ℕ
add_suppression user workspace input phone = do
  id ← read (λ db. db.next_id)
  modify (λ db. record db {
    next_id = db.next_id + 1;
    suppressions = db.suppressions ++ tenant_entry id workspace input phone ∷ [];
    contacts = update_where (is_listed workspace input phone) mark_suppressed db.contacts;
  })
  modify (add_audit workspace user suppression_added id)
  return id

unfoldable pub suppress : (now user workspace : ℕ) → SuppressionInput → Exec Db ServiceError ℕ
suppress now user workspace input = do
  assert_permission now user workspace contact_manage
  phone ← contact_phone input.phone
  require (is_some phone || is_some (given input.platform_user_id)) bad_request
  require (not (is_some (given input.platform_user_id)) || is_some input.platform) bad_request
  add_suppression user workspace input phone

abbrev pub is_tenant_scope : SuppressionScope → Bool
is_tenant_scope tenant = true
is_tenant_scope global = false

abbrev pub is_tenant_entry : (workspace id : ℕ) → SuppressionEntry → Bool
is_tenant_entry workspace id e =
    e.id == id && number_is e.workspace_id workspace && is_tenant_scope e.scope

-- The contacts that the entry marked stay as they are.
unfoldable pub unsuppress : (now user workspace id : ℕ) → Exec Db ServiceError (Unit {0})
unsuppress now user workspace id = do
  assert_permission now user workspace contact_manage
  known ← read (λ db. any (is_tenant_entry workspace id) db.suppressions)
  modify (λ db. record db {
    suppressions = delete_where (is_tenant_entry workspace id) db.suppressions;
  })
  require known not_found
  modify (add_audit workspace user suppression_removed id)
