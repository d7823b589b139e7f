-- ===== src/Operations.antt =====
-- apps/api/src/operations/operations.service.ts: message templates and posts. `Publishing` follows a post
-- from here to the worker.
pub mod Publishing
pub mod Posts
use tool_messager.Prelude.{
  Bool, Exec, List, Option, Text, [], any, codes, get_or_else, if◌then◌else◌, max, modify, none,
  read, require, return, some, text_eq, update_where, ℕ, ◌&&◌, ◌++◌, ◌+◌, ◌==◌, ◌>>=◌, ◌>>◌, ◌∷◌,
}
use tool_messager.Store.{
  Db, MessageTemplate, is_none, template_archived, template_created, template_updated,
}
use tool_messager.Workspaces.{ServiceError, add_audit, assert_membership, not_found}
use tool_messager.Phone.{given}
use tool_messager.Accounts.{management_roles}

-- `orderBy: { version: 'desc' }`, and `latest?.version ?? 0`
unfoldable pub latest_version : (workspace : ℕ) → Text → List MessageTemplate → ℕ
latest_version workspace name [] = 0
latest_version workspace name (t ∷ ts) =
    let rest = latest_version workspace name ts in
    if t.workspace_id == workspace && text_eq t.name name then max t.version rest else rest

pub record TemplateInput : Type 0 where
  pub name : Text
  pub content : Text
  pub variables : Option (List Text)

unfoldable pub create_template :
    (now user workspace : ℕ) → TemplateInput → Exec Db ServiceError MessageTemplate
create_template now user workspace input = do
  assert_membership now user workspace (some management_roles)
  version ← read (λ db. latest_version workspace input.name db.templates)
  id ← read (λ db. db.next_id)
  let t : MessageTemplate = record {
    id = id;
    workspace_id = workspace;
    name = input.name;
    content = input.content;
    variables = get_or_else input.variables [];
    version = version + 1;
    status = codes "ACTIVE";
    deleted_at = none;
  }
  modify (λ db. record db { next_id = db.next_id + 1; templates = db.templates ++ t ∷ [] })
  modify (add_audit workspace user template_created id)
  return t

pub record TemplateUpdate : Type 0 where
  pub name : Option Text
  pub content : Option Text
  pub variables : Option (List Text)
  pub status : Option Text

abbrev pub is_live_template : (workspace id : ℕ) → MessageTemplate → Bool
is_live_template workspace id t = t.id == id && t.workspace_id == workspace && is_none t.deleted_at

abbrev edited : TemplateUpdate → MessageTemplate → MessageTemplate
edited input t = record t {
  name = get_or_else (given input.name) t.name;
  content = get_or_else (given input.content) t.content;
  variables = get_or_else input.variables t.variables;
  status = get_or_else (given input.status) t.status;
}

unfoldable pub update_template :
    (now user workspace id : ℕ) → TemplateUpdate → Exec Db ServiceError (Unit {0})
update_template now user workspace id input = do
  assert_membership now user workspace (some management_roles)
  known ← read (λ db. any (is_live_template workspace id) db.templates)
  require known not_found
  modify
      (λ db. record db { templates = update_where (λ t. t.id == id) (edited input) db.templates })
  modify (add_audit workspace user template_updated id)

abbrev archived_template : (now : ℕ) → MessageTemplate → MessageTemplate
archived_template now t = record t { deleted_at = some now; status = codes "ARCHIVED" }

unfoldable pub delete_template : (now user workspace id : ℕ) → Exec Db ServiceError (Unit {0})
delete_template now user workspace id = do
  assert_membership now user workspace (some management_roles)
  known ← read (λ db. any (is_live_template workspace id) db.templates)
  modify (λ db. record db {
    templates = update_where (is_live_template workspace id) (archived_template now) db.templates;
  })
  require known not_found
  modify (add_audit workspace user template_archived id)
