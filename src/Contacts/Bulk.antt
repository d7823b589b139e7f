-- ===== src/Contacts/Bulk.antt =====
-- The tags and the bulk actions of apps/api/src/contacts/contacts.service.ts.
use tool_messager.Prelude.{
  Bool, Exec, List, Option, Text, [], any, count_where, if◌then◌else◌, is_empty, length, ltb, map,
  modify, none, not, ok, read, require, require_some, return, some, text_eq, update_where, upsert,
  ℕ, ◌&&◌, ◌++◌, ◌+◌, ◌==◌, ◌>>=◌, ◌>>◌, ◌||◌, ◌∷◌,
}
use tool_messager.Shared.{ConsentStatus, opted_in, opted_out}
use tool_messager.Access.{contact_manage}
use tool_messager.Store.{
  AuditAction, Contact, ContactStatus, ContactTag, Db, Tag, contacts_archived, contacts_opted_in,
  contacts_opted_out, contacts_suppressed, contacts_tagged, is_none,
}
use tool_messager.Workspaces.{ServiceError, assert_permission, bad_request, not_found}
use tool_messager.Phone.{given}
use tool_messager.Worker.{consent_row}
use tool_messager.Contacts.{consented_contact, mark_suppressed}

abbrev pub is_tag_named : (workspace : ℕ) → Text → Tag → Bool
is_tag_named workspace name t = t.workspace_id == workspace && text_eq t.name name

abbrev recolored : Option Text → Tag → Tag
recolored none t = t
recolored (some color) t = record t { color = some color }

-- A tag without a color has the column's default.
unfoldable pub create_tag :
    (now user workspace : ℕ)
    → (name : Text) → (color : Option Text) → Exec Db ServiceError (Unit {0})
create_tag now user workspace name color = do
  assert_permission now user workspace contact_manage
  modify (λ db. record db {
    next_id = db.next_id + 1;
    tags =
        upsert (is_tag_named workspace name) (recolored (given color))
          (record { id = db.next_id; workspace_id = workspace; name = name; color = given color })
          db.tags;
  })

abbrev pub is_tag_of : (workspace id : ℕ) → Tag → Bool
is_tag_of workspace id t = t.id == id && t.workspace_id == workspace

abbrev pub is_tagged : (contact tag : ℕ) → ContactTag → Bool
is_tagged contact tag t = t.contact_id == contact && t.tag_id == tag

abbrev keep_tag : ContactTag → ContactTag
keep_tag t = t

-- `upsert` with nothing to update, and `createMany` of one row with skipDuplicates
unfoldable pub tag_contact : (contact tag : ℕ) → List ContactTag → List ContactTag
tag_contact contact tag rows =
    upsert (is_tagged contact tag) keep_tag (record { contact_id = contact; tag_id = tag }) rows

-- A deleted contact can be tagged too.
unfoldable pub assign_tag : (now user workspace contact tag : ℕ) → Exec Db ServiceError (Unit {0})
assign_tag now user workspace contact tag = do
  assert_permission now user workspace contact_manage
  known ← read (λ db.
      any (λ c. c.id == contact && c.workspace_id == workspace) db.contacts
      && any (is_tag_of workspace tag) db.tags)
  require known not_found
  modify (λ db. record db { contact_tags = tag_contact contact tag db.contact_tags })

pub data BulkOperation : Type 0 where
  tagging archiving suppressing opting_in opting_out : BulkOperation

-- `[...new Set(ids)]`, up to the order: an id stands where it is last.
unfoldable pub distinct_ids : List ℕ → List ℕ
distinct_ids [] = []
distinct_ids (x ∷ xs) =
    let rest = distinct_ids xs in if any (λ i. i == x) xs then rest else x ∷ rest

-- `{ workspaceId, id: { in: ids } }`
abbrev pub is_among : (workspace : ℕ) → List ℕ → Contact → Bool
is_among workspace ids c = c.workspace_id == workspace && any (λ i. i == c.id) ids

abbrev archive : (now : ℕ) → Contact → Contact
archive now c = record c { deleted_at = some now; status = ContactStatus.archived }

unfoldable pub update_contacts : (workspace : ℕ) → List ℕ → (Contact → Contact) → Db → Db
update_contacts workspace ids f db = record db {
  contacts = update_where (is_among workspace ids) f db.contacts;
}

unfoldable pub tag_contacts : (ids : List ℕ) → (tag : ℕ) → List ContactTag → List ContactTag
tag_contacts [] tag rows = rows
tag_contacts (id ∷ ids) tag rows = tag_contacts ids tag (tag_contact id tag rows)

unfoldable pub consent_contacts : (now workspace : ℕ) → List ℕ → ConsentStatus → Db → Db
consent_contacts now workspace ids s db = record db {
  contacts = update_where (is_among workspace ids) (consented_contact s) db.contacts;
  consents = db.consents ++ map (λ id. consent_row now id s) ids;
}

unfoldable pub tag_many :
    (workspace : ℕ) → List ℕ → (tag : Option ℕ) → Exec Db ServiceError (Unit {0})
tag_many workspace ids tag = do
  tag ← require_some tag bad_request
  known ← read (λ db. any (is_tag_of workspace tag) db.tags)
  require known bad_request
  modify (λ db. record db { contact_tags = tag_contacts ids tag db.contact_tags })

unfoldable pub run_operation :
    (now workspace : ℕ)
    → List ℕ
    → (tag : Option ℕ) → BulkOperation
    → Exec Db ServiceError (Unit {0})
unfolding tag_many
run_operation now workspace ids tag tagging db = tag_many workspace ids tag db
run_operation now workspace ids tag archiving db =
    (ok tt, update_contacts workspace ids (archive now) db)
run_operation now workspace ids tag suppressing db =
    (ok tt, update_contacts workspace ids mark_suppressed db)
run_operation now workspace ids tag opting_in db =
    (ok tt, consent_contacts now workspace ids opted_in db)
run_operation now workspace ids tag opting_out db =
    (ok tt, consent_contacts now workspace ids opted_out db)

abbrev bulk_audit : BulkOperation → AuditAction
bulk_audit tagging = contacts_tagged
bulk_audit archiving = contacts_archived
bulk_audit suppressing = contacts_suppressed
bulk_audit opting_in = contacts_opted_in
bulk_audit opting_out = contacts_opted_out

abbrev pub max_bulk : ℕ
max_bulk = 10000

abbrev add_bulk_audit : (workspace user : ℕ) → AuditAction → Db → Db
add_bulk_audit workspace user action db = record db {
  audits =
      db.audits
      ++ record {
        workspace_id = some workspace;
        user_id = user;
        action = action;
        resource_id = none;
      }
        ∷ [];
}

-- The number of contacts that were found live in the workspace, all those asked for.
unfoldable pub bulk_action :
    (now user workspace : ℕ)
    → (contact_ids : List ℕ) → (tag : Option ℕ) → BulkOperation
    → Exec Db ServiceError ℕ
bulk_action now user workspace contact_ids tag operation = do
  assert_permission now user workspace contact_manage
  require
      (not
        (is_empty (distinct_ids contact_ids) || ltb max_bulk (length (distinct_ids contact_ids))))
      bad_request
  found ← read (λ db.
      count_where (λ c. is_among workspace (distinct_ids contact_ids) c && is_none c.deleted_at)
        db.contacts)
  require (found == length (distinct_ids contact_ids)) bad_request
  run_operation now workspace (distinct_ids contact_ids) tag operation
  modify (add_bulk_audit workspace user (bulk_audit operation))
  return (length (distinct_ids contact_ids))
