-- ===== src/Contacts/Segments.antt =====
-- The segments of apps/api/src/contacts/contacts.service.ts: saved filters over the contacts.
use tool_messager.Prelude.{
  Bool, Exec, List, Text, [], any, count_where, delete_where, find_first, if◌then◌else◌, includes,
  modify, not, read, require, require_some, return, select_where, some, take, to_lower, trim,
  update_where, ℕ, ◌&&◌, ◌++◌, ◌+◌, ◌==◌, ◌>>=◌, ◌>>◌, ◌||◌, ◌∷◌,
}
use tool_messager.Shared.{same_platform}
use tool_messager.Access.{contact_manage, contact_read}
use tool_messager.Store.{
  Contact, Db, Segment, SegmentFilter, is_none, segment_created, segment_deleted,
}
use tool_messager.Workspaces.{ServiceError, add_audit, assert_permission, not_found}
use tool_messager.Phone.{given}
use tool_messager.Campaigns.Creation.{column_contains, holds_if_given, insensitive, same_consent}

-- `segmentWhere`: a text filter that is empty filters nothing.
unfoldable pub segment_matches : Db → (workspace : ℕ) → SegmentFilter → Contact → Bool
segment_matches db workspace f c =
    c.workspace_id == workspace
    && is_none c.deleted_at
    && holds_if_given f.platform (same_platform c.platform)
    && holds_if_given f.consent_status (same_consent c.consent_status)
    && holds_if_given f.suppressed (λ b. if b then c.suppressed else not c.suppressed)
    && holds_if_given f.tag_id
        (λ t. any (λ ct. ct.contact_id == c.id && ct.tag_id == t) db.contact_tags)
    && holds_if_given (given f.source) (λ t. column_contains (insensitive c.source) (to_lower t))
    && holds_if_given (given f.search) (λ t.
      includes (to_lower t) (to_lower c.display_name)
      || column_contains c.normalized_phone t
      || column_contains c.platform_user_id t
      || column_contains (insensitive c.email) (to_lower t))

unfoldable pub segment_size : Db → (workspace : ℕ) → SegmentFilter → ℕ
segment_size db workspace f = count_where (segment_matches db workspace f) db.contacts

unfoldable pub create_segment :
    (now user workspace : ℕ) → (name : Text) → SegmentFilter → Exec Db ServiceError ℕ
create_segment now user workspace name filter = do
  assert_permission now user workspace contact_manage
  size ← read (λ db. segment_size db workspace filter)
  id ← read (λ db. db.next_id)
  modify (λ db. record db {
    next_id = db.next_id + 1;
    segments =
        db.segments
        ++ record {
          id = id;
          workspace_id = workspace;
          name = trim name;
          filter = filter;
          estimated_size = size;
          last_evaluated = some now;
        }
          ∷ [];
  })
  modify (add_audit workspace user segment_created id)
  return id

abbrev pub is_segment : (workspace id : ℕ) → Segment → Bool
is_segment workspace id s = s.id == id && s.workspace_id == workspace

abbrev evaluate : (now size : ℕ) → Segment → Segment
evaluate now size s = record s { estimated_size = size; last_evaluated = some now }

unfoldable pub update_segment_row : ℕ → (Segment → Segment) → Db → Db
update_segment_row id f db = record db { segments = update_where (λ s. s.id == id) f db.segments }

unfoldable pub update_segment :
    (now user workspace id : ℕ) → (name : Text) → SegmentFilter → Exec Db ServiceError (Unit {0})
update_segment now user workspace id name filter = do
  assert_permission now user workspace contact_manage
  known ← read (λ db. any (is_segment workspace id) db.segments)
  require known not_found
  size ← read (λ db. segment_size db workspace filter)
  modify (
      update_segment_row id
        (λ s. record (evaluate now size s) { name = trim name; filter = filter }))

pub record SegmentPreview : Type 0 where
  pub items : List Contact
  pub total : ℕ

abbrev preview_size : ℕ
preview_size = 50

-- The preview shows the contacts in the order of their rows; the source orders them by their last
-- update.
unfoldable pub preview_segment : (now user workspace id : ℕ) → Exec Db ServiceError SegmentPreview
preview_segment now user workspace id = do
  assert_permission now user workspace contact_read
  s ← read (λ db. find_first (is_segment workspace id) db.segments)
  s ← require_some s not_found
  matching ← read (λ db. select_where (segment_matches db workspace s.filter) db.contacts)
  total ← read (λ db. segment_size db workspace s.filter)
  modify (update_segment_row id (evaluate now total))
  return (record { items = take preview_size matching; total = total })

unfoldable pub delete_segment : (now user workspace id : ℕ) → Exec Db ServiceError (Unit {0})
delete_segment now user workspace id = do
  assert_permission now user workspace contact_manage
  known ← read (λ db. any (is_segment workspace id) db.segments)
  modify (λ db. record db { segments = delete_where (is_segment workspace id) db.segments })
  require known not_found
  modify (add_audit workspace user segment_deleted id)
