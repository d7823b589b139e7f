-- ===== src/Imports/Flow.antt =====
-- apps/api/src/contacts/import-engine.service.ts: `updateMapping`, `commit` and `cancel`.
use tool_messager.Prelude.{
  Bool, Exec, Option, Text, all, any, err, false, find_first, modify, not, ok, read, require,
  require_some, some, true, ℕ, ◌&&◌, ◌==◌, ◌>>=◌, ◌>>◌, ◌||◌,
}
use tool_messager.Access.{contact_manage}
use tool_messager.Store.{
  Db, ImportJob, ImportStatus, JobStatus, contact_import, enqueue, file_import_job, finish_job,
  for_import, import_cancelled, import_mapping_updated, import_queued, mapping, new_job, partial,
  processing, ready, update_job, uploaded,
}
use tool_messager.Policy.{assert_contact_capacity}
use tool_messager.Workspaces.{
  ServiceError, add_audit, assert_permission, bad_request, conflict, not_found, service_unavailable,
  with_policy,
}
use tool_messager.Campaigns.{upsert_job}
use tool_messager.Worker.{update_import}
use tool_messager.Imports.Normal.{
  Mapped, Target, is_one_of, other_target, same_target, to_display_name, to_phone,
  to_platform_user_id,
}
use tool_messager.Imports.Mapping.{apply_mapping}

unfoldable pub import_of : Db → (workspace id : ℕ) → Option ImportJob
import_of db workspace id =
    find_first (λ i. i.id == id && i.workspace_id == workspace) db.import_jobs

abbrev may_remap : ImportStatus → Bool
may_remap uploaded = true
may_remap mapping = true
may_remap ready = true
may_remap ImportStatus.failed = true
may_remap _ = false

abbrev is_known_target : Target → Bool
is_known_target other_target = false
is_known_target _ = true

abbrev maps_to : Mapped → Target → Bool
maps_to m target = any (λ e. same_target e.1 target) m

unfoldable pub update_mapping :
    (decompose : Text → Text)
    → (now user workspace id : ℕ) → Mapped
    → Exec Db ServiceError (Unit {0})
update_mapping decompose now user workspace id m = do
  assert_permission now user workspace contact_manage
  i ← read (λ db. import_of db workspace id)
  i ← require_some i not_found
  require (may_remap i.status) conflict
  require (all (λ e. is_one_of i.detected_columns e.0 && is_known_target e.1) m) bad_request
  require (maps_to m to_display_name) bad_request
  require (maps_to m to_phone || maps_to m to_platform_user_id) bad_request
  modify (apply_mapping decompose workspace id m)
  modify (add_audit workspace user import_mapping_updated id)

abbrev is_ready : ImportStatus → Bool
is_ready ready = true
is_ready _ = false

abbrev queue_import : ImportJob → ImportJob
queue_import i = record i { status = ImportStatus.queued; progress = 0 }

abbrev unqueue_import : ImportJob → ImportJob
unqueue_import i = record i { status = ready; progress = 100 }

-- `queue.add`; where it throws, the import is ready again and its job FAILED.
enqueue_import : (up : Bool) (now id : ℕ) → Exec Db ServiceError (Unit {0})
enqueue_import true now id db = (
  ok tt,
  enqueue record { queue = contact_import; job_id = file_import_job id; payload = for_import id }
      db,
)
enqueue_import false now id db = (
  err service_unavailable,
  update_job (file_import_job id) (finish_job JobStatus.failed now)
      (update_import id unqueue_import db),
)

unfoldable pub commit : (up : Bool) (now user workspace id : ℕ) → Exec Db ServiceError (Unit {0})
unfolding enqueue_import
commit up now user workspace id = do
  assert_permission now user workspace contact_manage
  i ← read (λ db. import_of db workspace id)
  i ← require_some i not_found
  require (is_ready i.status) conflict
  require (not (i.valid_rows == 0)) bad_request
  with_policy (assert_contact_capacity now workspace i.valid_rows)
  modify (update_import id queue_import)
  modify (upsert_job (new_job workspace contact_import (file_import_job id) (for_import id)))
  modify (add_audit workspace user import_queued id)
  enqueue_import up now id

abbrev pub is_cancellable : ImportStatus → Bool
is_cancellable processing = false
is_cancellable ImportStatus.completed = false
is_cancellable partial = false
is_cancellable _ = true

abbrev pub cancel_import : (now : ℕ) → ImportJob → ImportJob
cancel_import now i = record i { status = ImportStatus.cancelled; completed_at = some now }

unfoldable pub cancel_of : (now user workspace id : ℕ) → Exec Db ServiceError (Unit {0})
cancel_of now user workspace id = do
  assert_permission now user workspace contact_manage
  i ← read (λ db. import_of db workspace id)
  i ← require_some i not_found
  require (is_cancellable i.status) conflict
  modify (update_import id (cancel_import now))
  modify (add_audit workspace user import_cancelled id)
