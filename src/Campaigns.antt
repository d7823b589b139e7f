-- ===== src/Campaigns.antt =====
-- apps/api/src/campaigns/campaigns.service.ts: the life of a campaign, as its users steer it.
-- `now` is the instant of the call, `up` says whether the queue (BullMQ, a parameter) takes the job.
pub mod Creation
pub mod Diagram
pub mod Life
use tool_messager.Prelude.{
  Bool, Exec, List, Option, Text, [], codes, count_where, err, false, find_first, is_empty, ltb,
  modify, none, not, ok, read, require, require_some, return, some, trim, true, upsert, ℕ, ◌&&◌,
  ◌++◌, ◌==◌, ◌>>=◌, ◌>>◌, ◌||◌, ◌∷◌,
}
use tool_messager.Shared.{Platform, same_platform}
use tool_messager.Access.{campaign_approve, campaign_manage}
use tool_messager.Store.{
  AudienceMember, AuditAction, BackgroundJob, Campaign, CampaignStatus, Contact, Db,
  MessageTemplate, QueueEntry, SocialAccount, audience_of, automation_execute, campaign_approved,
  campaign_paused, campaign_queued, campaign_resumed, campaign_was_cancelled, contact_by_id,
  enqueue, for_campaign, has_job_key, included_count, is_none, launch_campaign_job, new_job,
  number_is, paused, pending_approval, restart_job, resume_campaign_job, same_campaign_status,
  set_campaign_status, text_is, update_campaign,
}
use tool_messager.Policy.{assert_outbound_allowed}
use tool_messager.Workspaces.{
  ServiceError, add_audit, assert_permission, bad_request, not_found, service_unavailable,
  with_policy,
}

-- `findFirst({ id, workspaceId, deletedAt: null })`
abbrev pub is_campaign : (workspace id : ℕ) → Campaign → Bool
is_campaign workspace id c = c.id == id && c.workspace_id == workspace && is_none c.deleted_at

unfoldable pub campaign_of : Db → (workspace id : ℕ) → Option Campaign
campaign_of db workspace id = find_first (is_campaign workspace id) db.campaigns

-- `queue.add`, which throws where the queue cannot be reached.
abbrev pub add_to_queue : Bool → QueueEntry → Exec Db ServiceError (Unit {0})
add_to_queue true entry db = (ok tt, enqueue entry db)
add_to_queue false entry db = (err service_unavailable, db)

abbrev approvable : CampaignStatus → Bool
approvable CampaignStatus.draft = true
approvable pending_approval = true
approvable _ = false

abbrev pub approved_campaign : (now user : ℕ) → Campaign → Campaign
approved_campaign now user c = record c {
  status = CampaignStatus.approved;
  approved_by = some user;
  approved_at = some now;
}

abbrev pub scheduled_campaign : (scheduled_at : ℕ) → Campaign → Campaign
scheduled_campaign scheduled_at c = record c {
  status = CampaignStatus.scheduled;
  scheduled_at = some scheduled_at;
}

unfoldable pub approve : (now user workspace id : ℕ) → Exec Db ServiceError (Unit {0})
approve now user workspace id = do
  assert_permission now user workspace campaign_approve
  c ← read (λ db. campaign_of db workspace id)
  c ← require_some c not_found
  require (approvable c.status) bad_request
  modify (update_campaign id (approved_campaign now user))
  modify (add_audit workspace user campaign_approved id)

unfoldable pub schedule : (now user workspace id scheduled_at : ℕ) → Exec Db ServiceError (Unit {0})
schedule now user workspace id scheduled_at = do
  assert_permission now user workspace campaign_manage
  c ← read (λ db. campaign_of db workspace id)
  c ← require_some c bad_request
  require (same_campaign_status c.status CampaignStatus.approved) bad_request
  require (ltb now scheduled_at) bad_request
  modify (update_campaign id (scheduled_campaign scheduled_at))

abbrev pub synthetic_seed : Text
synthetic_seed = codes "SYNTHETIC_SEED"

-- `!contact.platformUserId?.trim()`
abbrev pub is_blank : Option Text → Bool
is_blank none = true
is_blank (some t) = is_empty (trim t)

-- A recipient whom `launch` refuses. The contact of a member exists by its foreign key.
abbrev pub is_invalid_contact : Platform → Option Contact → Bool
is_invalid_contact platform none = true
is_invalid_contact platform (some c) =
    not (same_platform c.platform platform)
    || is_blank c.platform_user_id
    || text_is c.source synthetic_seed

unfoldable pub invalid_recipients : Db → Platform → List AudienceMember → ℕ
invalid_recipients db platform members =
    count_where (λ m. m.included && is_invalid_contact platform (contact_by_id db m.contact_id))
      members

unfoldable pub account_of_campaign : Db → Campaign → Option SocialAccount
account_of_campaign db c = find_first (λ a. number_is c.account_id a.id) db.accounts

unfoldable pub template_of_campaign : Db → Campaign → Option MessageTemplate
template_of_campaign db c = find_first (λ t. number_is c.template_id t.id) db.templates

abbrev launchable : CampaignStatus → Bool
launchable CampaignStatus.approved = true
launchable CampaignStatus.scheduled = true
launchable paused = true
launchable _ = false

unfoldable pub upsert_job : BackgroundJob → Db → Db
upsert_job job db = record db {
  jobs = upsert (has_job_key job.external_id) restart_job job db.jobs;
}

unfoldable pub launch : (up : Bool) (now user workspace id : ℕ) → Exec Db ServiceError (Unit {0})
launch up now user workspace id = do
  assert_permission now user workspace campaign_manage
  c ← read (λ db. campaign_of db workspace id)
  c ← require_some c not_found
  account ← read (λ db. account_of_campaign db c)
  account ← require_some account not_found
  template ← read (λ db. template_of_campaign db c)
  template ← require_some template not_found
  require (launchable c.status) bad_request
  invalid ← read (λ db. invalid_recipients db account.platform (audience_of db id))
  require (invalid == 0) bad_request
  included ← read (λ db. included_count db id)
  with_policy (assert_outbound_allowed now workspace included)
  modify (update_campaign id (set_campaign_status CampaignStatus.running))
  modify
      (upsert_job (new_job workspace automation_execute (launch_campaign_job id) (for_campaign id)))
  modify (add_audit workspace user campaign_queued id)
  add_to_queue up (record {
    queue = automation_execute;
    job_id = launch_campaign_job id;
    payload = for_campaign id;
  })

pub data StatusAction : Type 0 where
  pause resume cancel : StatusAction

abbrev action_allowed : StatusAction → CampaignStatus → Bool
action_allowed pause CampaignStatus.running = true
action_allowed pause CampaignStatus.scheduled = true
action_allowed resume paused = true
action_allowed cancel CampaignStatus.draft = true
action_allowed cancel pending_approval = true
action_allowed cancel CampaignStatus.approved = true
action_allowed cancel CampaignStatus.scheduled = true
action_allowed cancel CampaignStatus.running = true
action_allowed cancel paused = true
action_allowed _ _ = false

abbrev status_after : StatusAction → CampaignStatus
status_after pause = paused
status_after resume = CampaignStatus.running
status_after cancel = CampaignStatus.cancelled

abbrev audit_of : StatusAction → AuditAction
audit_of pause = campaign_paused
audit_of resume = campaign_resumed
audit_of cancel = campaign_was_cancelled

may_resume : (now workspace : ℕ) → StatusAction → Exec Db ServiceError (Unit {0})
may_resume now workspace resume = do
  with_policy (assert_outbound_allowed now workspace 1)
  return tt
may_resume now workspace _ = return tt

requeue : (up : Bool) (now workspace id : ℕ) → StatusAction → Exec Db ServiceError (Unit {0})
requeue up now workspace id resume = do
  modify (λ db. record db {
    jobs =
        db.jobs
        ++ new_job workspace automation_execute (resume_campaign_job id now) (for_campaign id) ∷ [];
  })
  add_to_queue up (record {
    queue = automation_execute;
    job_id = resume_campaign_job id now;
    payload = for_campaign id;
  })
requeue up now workspace id _ = return tt

unfoldable pub set_status :
    (up : Bool) (now user workspace id : ℕ) → StatusAction → Exec Db ServiceError (Unit {0})
unfolding may_resume requeue
set_status up now user workspace id action = do
  assert_permission now user workspace campaign_manage
  c ← read (λ db. campaign_of db workspace id)
  c ← require_some c not_found
  require (action_allowed action c.status) bad_request
  may_resume now workspace action
  modify (update_campaign id (set_campaign_status (status_after action)))
  requeue up now workspace id action
  modify (add_audit workspace user (audit_of action) id)
