-- ===== src/Worker/Staged.antt =====
-- `processStagedContactImport`, `routeContactImport` and the failure handler of the contact import of
-- apps/worker/src/main.ts. The job is the only writer of the rows it stages, each of which leaves the
-- status VALID when it is done, so the rounds of 500 rows are one pass over the rows as they stand.
use tool_messager.Prelude.{
  Bool, List, Option, [], any, find_first, if◌then◌else◌, ltb, modify, none, ok, select_where, some,
  update_where, ℕ, ◌&&◌, ◌++◌, ◌+◌, ◌==◌, ◌>>◌, ◌||◌, ◌∷◌,
}
use tool_messager.Shared.{is_opted_out, same_platform}
use tool_messager.Store.{
  Contact, Db, ImportJob, ImportRow, ImportStatus, JobKey, JobStatus, StagedContact,
  appeared_after_preview, data_imported, finish_job, is_import_open, is_imported, is_none,
  is_valid_row, partial, processing, row_failed, row_imported, row_skipped, start_job, update_job,
  write_failed,
}
use tool_messager.Phone.{given}
use tool_messager.Outbound.{matches_text}
use tool_messager.Workspaces.{add_audit}
use tool_messager.Worker.Base.{Work}
use tool_messager.Worker.Jobs.{
  ImportContact, assert_import_capacity, consent_row, find_job, process_contact_import,
  status_of_consent,
}

abbrev pub import_by_id : Db → ℕ → Option ImportJob
import_by_id db id = find_first (λ i. i.id == id) db.import_jobs

unfoldable pub update_import : ℕ → (ImportJob → ImportJob) → Db → Db
update_import id f db = record db { import_jobs = update_where (λ i. i.id == id) f db.import_jobs }

unfoldable pub update_row : ℕ → (ImportRow → ImportRow) → Db → Db
update_row id f db = record db { import_rows = update_where (λ r. r.id == id) f db.import_rows }

unfoldable pub valid_rows_of : Db → (job : ℕ) → List ImportRow
valid_rows_of db job =
    select_where (λ r. r.import_job_id == job && is_valid_row r.status) db.import_rows

-- `OR: matchers`, on the live contacts of the workspace
unfoldable pub is_same_person : (workspace : ℕ) → StagedContact → Contact → Bool
is_same_person workspace i c =
    c.workspace_id == workspace
    && is_none c.deleted_at
    && ((same_platform c.platform i.platform && matches_text i.platform_user_id c.platform_user_id)
        || matches_text i.normalized_phone c.normalized_phone)

-- The unique key of the platform's user id, which deleted contacts hold too.
unfoldable pub is_key_taken : Db → (workspace : ℕ) → StagedContact → Bool
is_key_taken db workspace i =
    any
      (λ c.
        c.workspace_id == workspace
        && same_platform c.platform i.platform
        && matches_text i.platform_user_id c.platform_user_id)
      db.contacts

unfoldable pub staged_contact : (id workspace : ℕ) → StagedContact → Contact
staged_contact id workspace i = record {
  id = id;
  workspace_id = workspace;
  platform = i.platform;
  platform_user_id = given i.platform_user_id;
  display_name = i.display_name;
  username = given i.username;
  phone = given i.phone;
  normalized_phone = given i.normalized_phone;
  email = given i.email;
  gender = given i.gender;
  source = some i.source;
  consent_status = i.consent_status;
  suppressed = is_opted_out i.consent_status;
  status = status_of_consent i.consent_status;
  deleted_at = none;
}

abbrev mark_imported : (contact : ℕ) → ImportRow → ImportRow
mark_imported contact r = record r { status = row_imported; contact_id = some contact }

-- The transaction on one row.
unfoldable pub create_staged : (now workspace row : ℕ) → StagedContact → Db → Db
create_staged now workspace row i db = update_row row (mark_imported db.next_id) (record db {
  next_id = db.next_id + 1;
  contacts = db.contacts ++ staged_contact db.next_id workspace i ∷ [];
  consents = db.consents ++ consent_row now db.next_id i.consent_status ∷ [];
})

abbrev fail_row : ImportRow → ImportRow
fail_row r = record r { status = row_failed; row_error = some write_failed }

abbrev skip_row : (contact : ℕ) → ImportRow → ImportRow
skip_row contact r = record r {
  status = row_skipped;
  row_error = some appeared_after_preview;
  contact_id = some contact;
}

pub data RowOutcome : Type 0 where
  was_imported was_skipped was_failed : RowOutcome

unfoldable pub stage_contact : (now workspace row : ℕ) → StagedContact → Db → RowOutcome × Db
stage_contact now workspace row i db = elim (find_first (is_same_person workspace i) db.contacts) [
  | some c ↦ (was_skipped, update_row row (skip_row c.id) db)
  | none ↦
      if is_key_taken db workspace i
      then (was_failed, update_row row fail_row db)
      else (was_imported, create_staged now workspace row i db)
]

-- Reading a field of a row that was never normalised throws inside the row's `try`.
unfoldable pub stage_row : (now workspace : ℕ) → ImportRow → Db → RowOutcome × Db
unfolding stage_contact
stage_row now workspace r db = elim r.normalized [
  | none ↦ (was_failed, update_row r.id fail_row db)
  | some i ↦ stage_contact now workspace r.id i db
]

pub record Tally : Type 0 where
  pub imported : ℕ
  pub failed_count : ℕ
  pub skipped_count : ℕ

abbrev pub count_outcome : RowOutcome → Tally → Tally
count_outcome was_imported t = record t { imported = t.imported + 1 }
count_outcome was_failed t = record t { failed_count = t.failed_count + 1 }
count_outcome was_skipped t = record t { skipped_count = t.skipped_count + 1 }

-- The pages of 500 rows, each past the last row number, are run through as one list: while the job runs no
-- row is added or becomes valid, and the rows of an import stand in the order of their numbers.
unfoldable pub stage_rows : (now workspace : ℕ) → List ImportRow → Tally × Db → Tally × Db
stage_rows now workspace [] (t, db) = (t, db)
stage_rows now workspace (r ∷ rs) (t, db) =
    let (o, db') = stage_row now workspace r db in
    stage_rows now workspace rs (count_outcome o t, db')

abbrev no_rows : Tally
no_rows = record { imported = 0; failed_count = 0; skipped_count = 0 }

abbrev begin_import : ImportJob → ImportJob
begin_import i = record i { status = processing; progress = 0; imported_rows = 0; failed_rows = 0 }

abbrev end_import : (now skipped_before : ℕ) → Tally → ImportJob → ImportJob
end_import now skipped_before t i = record i {
  status = if t.failed_count == 0 then ImportStatus.completed else partial;
  imported_rows = t.imported;
  failed_rows = t.failed_count;
  skipped_rows = skipped_before + t.skipped_count;
  progress = 100;
  completed_at = some now;
}

unfoldable pub finish_import : (now : ℕ) → JobKey → ImportJob → Tally × Db → Db
finish_import now key i (t, db) = add_audit i.workspace_id i.uploaded_by data_imported i.id (
    update_job key (finish_job JobStatus.completed now)
      (update_import i.id (end_import now i.skipped_rows t) db))

unfoldable pub run_staged : (now : ℕ) → JobKey → ImportJob → Work (Unit {0})
run_staged now key i = do
  assert_import_capacity now i.workspace_id i.valid_rows
  modify (update_import i.id begin_import)
  modify (update_job key start_job)
  modify (λ db.
      finish_import now key i (stage_rows now i.workspace_id (valid_rows_of db i.id) (no_rows, db)))

-- An import that is COMPLETED or PARTIAL is left alone.
unfoldable pub process_staged_import : (now : ℕ) → JobKey → (id : ℕ) → Work (Unit {0})
process_staged_import now key id db = elim (import_by_id db id) [
  | none ↦ (ok tt, db)
  | some i ↦
      if is_none (find_job db key) || is_imported i.status
      then (ok tt, db)
      else run_staged now key i db
]

-- The two kinds of jobs on the queue of contact imports.
pub data ImportWork : Type 0 where
  staged_file : (id : ℕ) → ImportWork
  contact_list : (user workspace : ℕ) → List ImportContact → ImportWork

unfoldable pub route_contact_import : (now : ℕ) → JobKey → ImportWork → Work (Unit {0})
route_contact_import now key (staged_file id) = process_staged_import now key id
route_contact_import now key (contact_list user workspace cs) =
    process_contact_import now user workspace key cs

abbrev give_up_import : (now : ℕ) → ImportJob → ImportJob
give_up_import now i = record i { status = ImportStatus.failed; completed_at = some now }

fail_import : (now : ℕ) → ImportWork → Db → Db
fail_import now (contact_list user workspace cs) db = db
fail_import now (staged_file id) db = record db {
  import_jobs =
      update_where (λ i. i.id == id && is_import_open i.status) (give_up_import now) db.import_jobs;
}

-- `contactImportWorker.on('failed')`, where the attempts are used up.
unfoldable pub import_failed : (now attempts_made attempts : ℕ) → JobKey → ImportWork → Db → Db
unfolding fail_import
import_failed now attempts_made attempts key work db =
    if ltb attempts_made attempts
    then db
    else fail_import now work (update_job key (finish_job JobStatus.failed now) db)
