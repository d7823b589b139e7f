-- ===== src/Worker/Jobs.antt =====
-- `processPost`, `processContactImport` and the handlers of terminal failures of
-- apps/worker/src/main.ts.
use tool_messager.Prelude.{
  Bool, List, Option, Text, [], err, false, find_first, if◌then◌else◌, is_some, leb, length, ltb,
  modify, none, not, ok, read, require, require_some, some, to_lower, transaction, true,
  update_where, ℕ, ◌&&◌, ◌++◌, ◌+◌, ◌==◌, ◌>>=◌, ◌>>◌, ◌||◌, ◌∷◌,
}
use tool_messager.Shared.{
  ConsentStatus, Platform, is_opted_in, is_opted_out, opted_in, opted_out, same_platform, unknown,
}
use tool_messager.Platform.{OperationStatus, success}
use tool_messager.Store.{
  BackgroundJob, Contact, ContactConsent, ContactStatus, ContentStatus, Db, JobKey, JobStatus, Post,
  Subscription, contact_limit, contacts_imported, do_not_contact, finish_job, has_job_key,
  is_closed_subscription, is_completed_job, is_none, is_published, is_tenant_active,
  latest_subscription, publish_post_job, published, schedule_post_job, start_job, text_is,
  update_job, workspace_of,
}
use tool_messager.Policy.{live_contacts, override_number}
use tool_messager.Phone.{given, invalid, missing, normalize_phone, valid}
use tool_messager.Worker.Base.{
  Work, World, contact_quota_reached, invalid_phone, publish_failed, subscription_blocked,
}

abbrev pub post_by_id : Db → ℕ → Option Post
post_by_id db id = find_first (λ p. p.id == id) db.posts

unfoldable pub update_post : ℕ → (Post → Post) → Db → Db
update_post id f db = record db { posts = update_where (λ p. p.id == id) f db.posts }

abbrev pub publish_post : (now : ℕ) → Post → Post
publish_post now p = record p { status = published; published_at = some now }

abbrev pub is_success : OperationStatus → Bool
is_success success = true
is_success _ = false

unfoldable pub process_post : World → (now id : ℕ) → Work (Unit {0})
process_post w now id db = elim (post_by_id db id) [
  | none ↦ (ok tt, db)
  | some p ↦
      if is_published p.status
      then (ok tt, db)
      else (if is_success (w.publish p).status
          then (ok tt, update_post id (publish_post now) db)
          else (err (publish_failed (w.publish p).error_code), db))
]

abbrev is_publish_job : ℕ → BackgroundJob → Bool
is_publish_job id j = has_job_key (publish_post_job id) j || has_job_key (schedule_post_job id) j

abbrev fail_post : Post → Post
fail_post p = record p { status = ContentStatus.failed }

-- `postWorker.on('failed')`, where the attempts are used up.
unfoldable pub post_failed : (now attempts_made attempts id : ℕ) → Db → Db
post_failed now attempts_made attempts id db =
    if ltb attempts_made attempts then db else record db {
      posts = update_where (λ p. p.id == id && not (is_published p.status)) fail_post db.posts;
      jobs = update_where (is_publish_job id) (finish_job JobStatus.failed now) db.jobs;
    }

pub record ImportContact : Type 0 where
  pub platform : Platform
  pub platform_user_id : Option Text
  pub display_name : Text
  pub username : Option Text
  pub phone : Option Text
  pub email : Option Text
  pub source : Text
  pub consent_status : ConsentStatus

-- The tenant and its latest subscription, where both are in force.
unfoldable pub open_subscription : (now : ℕ) → Db → (workspace : ℕ) → Option Subscription
open_subscription now db workspace = elim (workspace_of db workspace) [
  | none ↦ none
  | some w ↦
      if not (is_tenant_active w.status) || is_some w.suspended_at
      then none
      else elim (latest_subscription db workspace) [
        | none ↦ none
        | some s ↦ if is_closed_subscription s.status || leb s.end_at now then none else some s
      ]
]

unfoldable pub assert_import_capacity : (now workspace additional : ℕ) → Work (Unit {0})
assert_import_capacity now workspace additional = do
  s ← read (λ db. open_subscription now db workspace)
  s ← require_some s subscription_blocked
  current ← read (λ db. live_contacts db workspace)
  require
      (not (
        ltb (override_number s.overrides contact_limit s.plan.max_contacts) (current + additional)))
      contact_quota_reached

abbrev pub same_user : (workspace : ℕ) → Platform → Text → Contact → Bool
same_user workspace p user c =
    c.workspace_id == workspace && same_platform c.platform p && text_is c.platform_user_id user

abbrev same_phone : (workspace : ℕ) → Text → Contact → Bool
same_phone workspace phone c =
    c.workspace_id == workspace && text_is c.normalized_phone phone && is_none c.deleted_at

-- The contact that a row is about: by the platform's user id (deleted or not), else by the phone.
unfoldable pub existing_contact :
    Db → (workspace : ℕ) → Platform → (user phone : Option Text) → Option Contact
existing_contact db workspace p (some user) phone =
    find_first (same_user workspace p user) db.contacts
existing_contact db workspace p none (some phone) =
    find_first (same_phone workspace phone) db.contacts
existing_contact db workspace p none none = none

abbrev pub status_of_consent : ConsentStatus → ContactStatus
status_of_consent opted_out = do_not_contact
status_of_consent _ = ContactStatus.active

-- `...(value ? { field: value } : {})` in an update keeps the old value.
abbrev or_kept : Option Text → Option Text → Option Text
or_kept none old = old
or_kept (some t) old = some t

abbrev pub lowered : Option Text → Option Text
lowered none = none
lowered (some t) = some (to_lower t)

unfoldable pub write_contact : ImportContact → (phone : Option Text) → Contact → Contact
write_contact i phone c = record c {
  platform = i.platform;
  platform_user_id = or_kept (given i.platform_user_id) c.platform_user_id;
  display_name = i.display_name;
  username = or_kept (given i.username) c.username;
  phone = or_kept (given i.phone) c.phone;
  normalized_phone = or_kept phone c.normalized_phone;
  email = or_kept (lowered (given i.email)) c.email;
  source = some i.source;
  consent_status = i.consent_status;
  suppressed = is_opted_out i.consent_status;
  status = status_of_consent i.consent_status;
  deleted_at = none;
}

abbrev pub blank_contact : (id workspace : ℕ) → ImportContact → Contact
blank_contact id workspace i = record {
  id = id;
  workspace_id = workspace;
  platform = i.platform;
  platform_user_id = none;
  display_name = i.display_name;
  username = none;
  phone = none;
  normalized_phone = none;
  email = none;
  gender = none;
  source = none;
  consent_status = unknown;
  suppressed = false;
  status = ContactStatus.active;
  deleted_at = none;
}

abbrev pub consent_row : (now contact : ℕ) → ConsentStatus → ContactConsent
consent_row now contact s = record {
  contact_id = contact;
  status = s;
  consent_at = if is_opted_in s then some now else none;
  opt_out_at = if is_opted_out s then some now else none;
}

abbrev pub consent_rank : ConsentStatus → ℕ
consent_rank unknown = 0
consent_rank opted_in = 1
consent_rank opted_out = 2

unfoldable pub add_consent : Bool → (now contact : ℕ) → ConsentStatus → Db → Db
add_consent false now contact s db = db
add_consent true now contact s db = record db {
  consents = db.consents ++ consent_row now contact s ∷ [];
}

-- One round of the import's loop, on a row whose phone is normalised.
unfoldable pub import_contact :
    (now workspace : ℕ) → ImportContact → (phone : Option Text) → Db → Db
unfolding add_consent write_contact
import_contact now workspace i phone db =
    elim (existing_contact db workspace i.platform (given i.platform_user_id) phone) [
      | some c ↦
          add_consent (not (consent_rank c.consent_status == consent_rank i.consent_status)) now
            c.id i.consent_status
            (record db {
              contacts = update_where (λ r. r.id == c.id) (write_contact i phone) db.contacts;
            })
      | none ↦ add_consent true now db.next_id i.consent_status (record db {
        next_id = db.next_id + 1;
        contacts = db.contacts ++ write_contact i phone (blank_contact db.next_id workspace i) ∷ [];
      })
    ]

-- A phone that is not 9 to 15 digits long makes the whole transaction fail.
unfoldable pub import_contacts : (now workspace : ℕ) → List ImportContact → Work (Unit {0})
import_contacts now workspace [] db = (ok tt, db)
import_contacts now workspace (i ∷ is) db = elim (normalize_phone (given i.phone)) [
  | invalid ↦ (err invalid_phone, db)
  | missing ↦ import_contacts now workspace is (import_contact now workspace i none db)
  | valid phone ↦ import_contacts now workspace is (import_contact now workspace i (some phone) db)
]

abbrev pub find_job : Db → JobKey → Option BackgroundJob
find_job db key = find_first (has_job_key key) db.jobs

run_import : (now user workspace : ℕ) → JobKey → List ImportContact → Work (Unit {0})
run_import now user workspace key contacts = do
  assert_import_capacity now workspace (length contacts)
  modify (update_job key start_job)
  transaction (import_contacts now workspace contacts)
  modify (update_job key (finish_job JobStatus.completed now))
  modify (λ db. record db {
    audits =
        db.audits
        ++ record {
          workspace_id = some workspace;
          user_id = user;
          action = contacts_imported;
          resource_id = none;
        }
          ∷ [];
  })

-- The job's payload is a parameter, as it was when the job was created.
unfoldable pub process_contact_import :
    (now user workspace : ℕ) → JobKey → List ImportContact → Work (Unit {0})
unfolding run_import
process_contact_import now user workspace key contacts db = elim (find_job db key) [
  | none ↦ (ok tt, db)
  | some j ↦
      if is_completed_job j.status
      then (ok tt, db)
      else run_import now user workspace key contacts db
]
