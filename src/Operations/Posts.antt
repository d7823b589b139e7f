-- ===== src/Operations/Posts.antt =====
-- The posts of apps/api/src/operations/operations.service.ts.
use tool_messager.Prelude.{
  Bool, Exec, Option, Text, [], any, codes, false, find_first, get_or_else, ltb, modify, none, not,
  read, require, require_some, return, some, text_eq, true, update_where, upsert, ℕ, ◌&&◌, ◌++◌,
  ◌+◌, ◌==◌, ◌>>=◌, ◌>>◌, ◌∷◌,
}
use tool_messager.Shared.{
  CapabilityStatus, Platform, not_supported, permission_required, same_platform,
}
use tool_messager.Platform.{Adapter, post_create}
use tool_messager.Store.{
  BackgroundJob, ContentStatus, Db, Post, PostSchedule, QueueName, SocialAccount, for_post,
  has_job_key, is_none, new_job, post_created, post_publish_queued, post_scheduled,
  publish_post_job,
}
use tool_messager.Policy.{assert_outbound_allowed}
use tool_messager.Workspaces.{
  ServiceError, access_denied, add_audit, assert_membership, bad_request, conflict, not_found,
  service_unavailable, unprocessable, with_policy,
}
use tool_messager.Campaigns.{add_to_queue}
use tool_messager.Phone.{given}
use tool_messager.Accounts.{account_of, management_roles}

pub record PostInput : Type 0 where
  pub account_id : ℕ
  pub platform : Platform
  pub title : Option Text
  pub content : Text
  pub idempotency_key : Option Text

abbrev new_post : (id workspace : ℕ) → (key : Text) → PostInput → Post
new_post id workspace key input = record {
  id = id;
  workspace_id = workspace;
  account_id = input.account_id;
  platform = input.platform;
  title = given input.title;
  content = input.content;
  idempotency_key = key;
  status = ContentStatus.draft;
  scheduled_at = none;
  approved_by = none;
  approved_at = none;
  published_at = none;
  deleted_at = none;
}

-- `random_key` is the key that the service makes where the client gives none.
unfoldable pub create_post :
    (now user workspace : ℕ) → (random_key : Text) → PostInput → Exec Db ServiceError ℕ
create_post now user workspace random_key input = do
  assert_membership now user workspace (some management_roles)
  a ← read (λ db. account_of db workspace input.account_id)
  a ← require_some a not_found
  require (same_platform a.platform input.platform) bad_request
  taken ← read (λ db.
      any (λ p. text_eq p.idempotency_key (get_or_else input.idempotency_key random_key)) db.posts)
  require (not taken) conflict
  id ← read (λ db. db.next_id)
  modify (λ db. record db {
    next_id = db.next_id + 1;
    posts =
        db.posts ++ new_post id workspace (get_or_else input.idempotency_key random_key) input ∷ [];
  })
  modify (add_audit workspace user post_created id)
  return id

abbrev pub is_live_post : (workspace id : ℕ) → Post → Bool
is_live_post workspace id p = p.id == id && p.workspace_id == workspace && is_none p.deleted_at

-- `['DRAFT', 'APPROVED', 'FAILED'].includes(status)`
abbrev pub schedulable : ContentStatus → Bool
schedulable ContentStatus.draft = true
schedulable ContentStatus.approved = true
schedulable ContentStatus.failed = true
schedulable _ = false

abbrev pub scheduled_post : (now user scheduled_at : ℕ) → Post → Post
scheduled_post now user scheduled_at p = record p {
  status = ContentStatus.scheduled;
  scheduled_at = some scheduled_at;
  approved_by = some user;
  approved_at = some now;
}

abbrev is_schedule_of : ℕ → PostSchedule → Bool
is_schedule_of post s = s.post_id == post

abbrev rescheduled : (next : ℕ) → PostSchedule → PostSchedule
rescheduled next s = record s { next_run_at = next }

unfoldable pub update_posts : ℕ → (Post → Post) → Db → Db
update_posts id f db = record db { posts = update_where (λ p. p.id == id) f db.posts }

unfoldable pub schedule_post :
    (now user workspace id scheduled_at : ℕ) → Exec Db ServiceError (Unit {0})
unfolding update_posts
schedule_post now user workspace id scheduled_at = do
  assert_membership now user workspace (some management_roles)
  require (ltb now scheduled_at) bad_request
  p ← read (λ db. find_first (is_live_post workspace id) db.posts)
  p ← require_some p not_found
  require (schedulable p.status) conflict
  modify (update_posts id (scheduled_post now user scheduled_at))
  modify (λ db. record db {
    post_schedules =
        upsert (is_schedule_of id) (rescheduled scheduled_at)
          (record { post_id = id; next_run_at = scheduled_at }) db.post_schedules;
  })
  modify (add_audit workspace user post_scheduled id)

abbrev pub approved_post : (now user : ℕ) → Post → Post
approved_post now user p = record p {
  status = ContentStatus.approved;
  approved_by = some user;
  approved_at = some now;
}

abbrev keep_job : BackgroundJob → BackgroundJob
keep_job j = j

abbrev account_may_post : SocialAccount → Bool
account_may_post a = any (text_eq (codes "POST_CREATE")) a.permissions

-- `capability === 'PERMISSION_REQUIRED' && !permissions.includes('POST_CREATE')`; the account of a post
-- exists by its foreign key.
abbrev lacks_permission : CapabilityStatus → Option SocialAccount → Bool
lacks_permission permission_required none = true
lacks_permission permission_required (some a) = not (account_may_post a)
lacks_permission _ a = false

abbrev is_not_supported : CapabilityStatus → Bool
is_not_supported not_supported = true
is_not_supported _ = false

-- What publishing asks of the adapter and the account.
unfoldable pub assert_publishable :
    (adapters : Platform → Adapter) → Post → Option SocialAccount → Exec Db ServiceError (Unit {0})
assert_publishable adapters p a = do
  require (adapters p.platform).is_configured service_unavailable
  require (not (is_not_supported ((adapters p.platform).capabilities post_create))) unprocessable
  require (not (lacks_permission ((adapters p.platform).capabilities post_create) a)) access_denied

-- The post is approved and its job created, unless it is there already.
unfoldable pub queue_post :
    (up : Bool) → (now user workspace : ℕ) → Post → Exec Db ServiceError (Unit {0})
unfolding update_posts
queue_post up now user workspace p = do
  modify (update_posts p.id (approved_post now user))
  modify (λ db. record db {
    jobs =
        upsert (has_job_key (publish_post_job p.id)) keep_job
          (new_job workspace QueueName.post_publish (publish_post_job p.id) (for_post p.id))
          db.jobs;
  })
  add_to_queue up (record {
    queue = QueueName.post_publish;
    job_id = publish_post_job p.id;
    payload = for_post p.id;
  })
  modify (add_audit workspace user post_publish_queued p.id)

unfoldable pub publish_found :
    (adapters : Platform → Adapter)
    → (up : Bool) → (now user workspace id : ℕ) → Exec Db ServiceError (Unit {0})
publish_found adapters up now user workspace id = do
  p ← read (λ db. find_first (is_live_post workspace id) db.posts)
  p ← require_some p not_found
  a ← read (λ db. find_first (λ a. a.id == p.account_id) db.accounts)
  assert_publishable adapters p a
  queue_post up now user workspace p

-- Whatever the post's status is.
unfoldable pub publish_now :
    (adapters : Platform → Adapter)
    → (up : Bool) → (now user workspace id : ℕ) → Exec Db ServiceError (Unit {0})
publish_now adapters up now user workspace id = do
  assert_membership now user workspace (some management_roles)
  with_policy (assert_outbound_allowed now workspace 1)
  publish_found adapters up now user workspace id
