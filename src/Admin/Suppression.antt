-- ===== src/Admin/Suppression.antt =====
-- The global suppression list of apps/api/src/admin/admin.service.ts.
use tool_messager.Prelude.{
  Bool, Exec, Option, Text, [], any, delete_where, err, false, find_first, get_or_else,
  if◌then◌else◌, is_empty, modify, none, ok, read, require, require_some, return, some, trim, true,
  update_where, ℕ, ◌&&◌, ◌++◌, ◌+◌, ◌==◌, ◌>>=◌, ◌>>◌, ◌∷◌,
}
use tool_messager.Shared.{Platform, opted_out, same_platform}
use tool_messager.Store.{
  Contact, Db, SuppressionEntry, SuppressionScope, do_not_contact, global, global_suppression_added,
  global_suppression_removed, tenant, text_is,
}
use tool_messager.Phone.{given, invalid, missing, normalize_phone, valid}
use tool_messager.Workspaces.{ServiceError, conflict, not_found}
use tool_messager.Contacts.{SuppressionInput}
use tool_messager.Admin.{add_admin_audit}

-- Whom a global entry names: a phone, or a user of a platform.
pub data GlobalTarget : Type 0 where
  by_phone : Text → GlobalTarget
  by_user : Platform → Text → GlobalTarget

abbrev pub target_of : Option Text → SuppressionInput → Option GlobalTarget
target_of (some phone) input = some (by_phone phone)
target_of none input = elim input.platform [
  | none ↦ none
  | some p ↦ elim input.platform_user_id [
    | none ↦ none
    | some u ↦ if is_empty (trim u) then none else some (by_user p (trim u))
  ]
]

abbrev pub names_contact : GlobalTarget → Contact → Bool
names_contact (by_phone phone) c = text_is c.normalized_phone phone
names_contact (by_user p user) c = same_platform c.platform p && text_is c.platform_user_id user

abbrev is_global_scope : SuppressionScope → Bool
is_global_scope global = true
is_global_scope tenant = false

abbrev platform_column_is : Option Platform → Platform → Bool
platform_column_is none p = false
platform_column_is (some q) p = same_platform q p

abbrev pub is_global_entry : GlobalTarget → SuppressionEntry → Bool
is_global_entry (by_phone phone) e = is_global_scope e.scope && text_is e.normalized_phone phone
is_global_entry (by_user p user) e =
    is_global_scope e.scope && platform_column_is e.platform p && text_is e.platform_user_id user

abbrev pub global_entry : (id : ℕ) → GlobalTarget → SuppressionEntry
global_entry id (by_phone phone) = record {
  id = id;
  scope = global;
  workspace_id = none;
  platform = none;
  platform_user_id = none;
  normalized_phone = some phone;
}
global_entry id (by_user p user) = record {
  id = id;
  scope = global;
  workspace_id = none;
  platform = some p;
  platform_user_id = some user;
  normalized_phone = none;
}

abbrev pub opted_out_everywhere : Contact → Contact
opted_out_everywhere c = record c {
  suppressed = true;
  status = do_not_contact;
  consent_status = opted_out;
}

-- An entry that is there is kept; its reason is a text that is not carried.
unfoldable pub list_globally : (admin : ℕ) → GlobalTarget → Db → Db
list_globally admin t db = elim (find_first (is_global_entry t) db.suppressions) [
  | some e ↦
      add_admin_audit none admin global_suppression_added e.id
        (record db { contacts = update_where (names_contact t) opted_out_everywhere db.contacts })
  | none ↦ add_admin_audit none admin global_suppression_added db.next_id (record db {
    next_id = db.next_id + 1;
    suppressions = db.suppressions ++ global_entry db.next_id t ∷ [];
    contacts = update_where (names_contact t) opted_out_everywhere db.contacts;
  })
]

-- The service's own normalizePhone is the one of the contacts; its refusals are conflicts here.
abbrev pub admin_phone : Option Text → Exec Db ServiceError (Option Text)
admin_phone phone db = elim (normalize_phone (given phone)) [
  | missing ↦ (ok none, db)
  | invalid ↦ (err conflict, db)
  | valid p ↦ (ok (some p), db)
]

-- The row that is updated or created.
abbrev pub stored_entry : GlobalTarget → Db → SuppressionEntry
stored_entry t db =
    get_or_else (find_first (is_global_entry t) db.suppressions) (global_entry db.next_id t)

unfoldable pub add_global_suppression :
    (admin : ℕ) → SuppressionInput → Exec Db ServiceError SuppressionEntry
add_global_suppression admin input = do
  phone ← admin_phone input.phone
  target ← require_some (target_of phone input) conflict
  entry ← read (stored_entry target)
  modify (list_globally admin target)
  return entry

abbrev is_global_row : ℕ → SuppressionEntry → Bool
is_global_row id e = e.id == id && is_global_scope e.scope

unfoldable pub remove_global_suppression : (admin id : ℕ) → Exec Db ServiceError (Unit {0})
remove_global_suppression admin id = do
  known ← read (λ db. any (is_global_row id) db.suppressions)
  modify (λ db. record db { suppressions = delete_where (is_global_row id) db.suppressions })
  require known not_found
  modify (add_admin_audit none admin global_suppression_removed id)
