-- ===== src/Campaigns/Diagram.antt =====
-- The transition diagram of a campaign, as the service of
-- apps/api/src/campaigns/campaigns.service.ts draws it.
use tool_messager.Access.{campaign_approve, campaign_manage}
use tool_messager.Prelude.{
  Bool, Exec, List, arith, find_first, find_first-update_where, ok, refl, some, true, update_where,
  ℕ, ◌<◌, ◌==◌, ◌≡◌,
}
use tool_messager.Store.{
  Campaign, CampaignStatus, Db, included_count, paused, pending_approval, set_campaign_status,
  update_campaign,
}
use tool_messager.Workspaces.Frame.{assert_permission-campaigns, outbound_check-campaigns}
use tool_messager.Workspaces.{ServiceError, assert_permission}
use tool_messager.Campaigns.{
  StatusAction, action_allowed, approvable, approve, approved_campaign, campaign_of, cancel,
  is_campaign, launch, launchable, pause, resume, schedule, scheduled_campaign, set_status,
  status_after, upsert_job,
}

pub data Action : Type 0 where
  approves launches : Action
  schedules : ℕ → Action
  sets : StatusAction → Action

unfoldable pub perform :
    (up : Bool) (now user workspace id : ℕ) → Action → Exec Db ServiceError (Unit {0})
perform up now user workspace id approves = approve now user workspace id
perform up now user workspace id launches = launch up now user workspace id
perform up now user workspace id (schedules at) = schedule now user workspace id at
perform up now user workspace id (sets a) = set_status up now user workspace id a

-- The edges that the service may take by each action.
pub data Edge : Action → CampaignStatus → CampaignStatus → Type 0 where
  from_draft : Edge approves CampaignStatus.draft CampaignStatus.approved
  from_pending : Edge approves pending_approval CampaignStatus.approved
  plans : {at : ℕ} → Edge (schedules at) CampaignStatus.approved CampaignStatus.scheduled
  launches_approved : Edge launches CampaignStatus.approved CampaignStatus.running
  launches_scheduled : Edge launches CampaignStatus.scheduled CampaignStatus.running
  launches_paused : Edge launches paused CampaignStatus.running
  pauses_running : Edge (sets pause) CampaignStatus.running paused
  pauses_scheduled : Edge (sets pause) CampaignStatus.scheduled paused
  resumes : Edge (sets resume) paused CampaignStatus.running
  cancels_draft : Edge (sets cancel) CampaignStatus.draft CampaignStatus.cancelled
  cancels_pending : Edge (sets cancel) pending_approval CampaignStatus.cancelled
  cancels_approved : Edge (sets cancel) CampaignStatus.approved CampaignStatus.cancelled
  cancels_scheduled : Edge (sets cancel) CampaignStatus.scheduled CampaignStatus.cancelled
  cancels_running : Edge (sets cancel) CampaignStatus.running CampaignStatus.cancelled
  cancels_paused : Edge (sets cancel) paused CampaignStatus.cancelled

module _ (workspace id : ℕ) (f : Campaign → Campaign) where
  updated :
      ((x : Campaign) → is_campaign workspace id (f x) ≡ is_campaign workspace id x)
      → (cs : List Campaign) {c : Campaign} → find_first (is_campaign workspace id) cs ≡ some c
      → find_first (is_campaign workspace id) (update_where (λ c. c.id == id) f cs) ≡ some (f c)
  updated keep cs e =
      find_first-update_where (is_campaign workspace id) (λ c. c.id == id) f keep
        (λ x h. ground arith) cs e

approves-Edge : (s : CampaignStatus) → approvable s ≡ true → Edge approves s CampaignStatus.approved
approves-Edge CampaignStatus.draft h = from_draft
approves-Edge pending_approval h = from_pending
approves-Edge _ h = absurd (cc)

launches-Edge : (s : CampaignStatus) → launchable s ≡ true → Edge launches s CampaignStatus.running
launches-Edge CampaignStatus.approved h = launches_approved
launches-Edge CampaignStatus.scheduled h = launches_scheduled
launches-Edge paused h = launches_paused
launches-Edge _ h = absurd (cc)

schedules-Edge :
    {at : ℕ} (s : CampaignStatus)
    → s ≡ CampaignStatus.approved
    → Edge (schedules at) s CampaignStatus.scheduled
schedules-Edge s h = rw h plans

sets-Edge :
    (a : StatusAction) (s : CampaignStatus)
    → action_allowed a s ≡ true
    → Edge (sets a) s (status_after a)
sets-Edge pause CampaignStatus.running h = pauses_running
sets-Edge pause CampaignStatus.scheduled h = pauses_scheduled
sets-Edge resume paused h = resumes
sets-Edge cancel CampaignStatus.draft h = cancels_draft
sets-Edge cancel pending_approval h = cancels_pending
sets-Edge cancel CampaignStatus.approved h = cancels_approved
sets-Edge cancel CampaignStatus.scheduled h = cancels_scheduled
sets-Edge cancel CampaignStatus.running h = cancels_running
sets-Edge cancel paused h = cancels_paused
sets-Edge _ _ h = absurd (cc)

module _ (now user workspace id : ℕ) (db : Db) {db' : Db} {c : Campaign} where
  approve_step :
      campaign_of db workspace id ≡ some c
      → approve now user workspace id db ≡ (ok tt, db')
      → (approvable c.status ≡ true)
        × (campaign_of db' workspace id ≡ some (approved_campaign now user c))
  unfolding approve campaign_of update_campaign
  approve_step e h = ground (
    arith,
    assert_permission-campaigns now user workspace campaign_approve db,
    updated workspace id (approved_campaign now user) (λ x. refl) db.campaigns e,
  )

  schedule_step :
      (at : ℕ)
      → campaign_of db workspace id ≡ some c
      → schedule now user workspace id at db ≡ (ok tt, db')
      → (c.status ≡ CampaignStatus.approved)
        × (now < at)
        × (campaign_of db' workspace id ≡ some (scheduled_campaign at c))
  unfolding schedule campaign_of update_campaign
  schedule_step at e h = ground (
    arith,
    assert_permission-campaigns now user workspace campaign_manage db,
    updated workspace id (scheduled_campaign at) (λ x. refl) db.campaigns e,
  )

  launch_step :
      (up : Bool)
      → campaign_of db workspace id ≡ some c
      → launch up now user workspace id db ≡ (ok tt, db')
      → (launchable c.status ≡ true)
        × (campaign_of db' workspace id ≡ some (set_campaign_status CampaignStatus.running c))
  unfolding launch campaign_of update_campaign upsert_job
  launch_step up e h = ground (
    arith,
    assert_permission-campaigns now user workspace campaign_manage db,
    outbound_check-campaigns now workspace
        (included_count (assert_permission now user workspace campaign_manage db).1 id)
        (assert_permission now user workspace campaign_manage db).1,
    updated workspace id (set_campaign_status CampaignStatus.running) (λ x. refl) db.campaigns e,
  )

  set_status_step :
      (up : Bool) (a : StatusAction)
      → campaign_of db workspace id ≡ some c
      → set_status up now user workspace id a db ≡ (ok tt, db')
      → (action_allowed a c.status ≡ true)
        × (campaign_of db' workspace id ≡ some (set_campaign_status (status_after a) c))
  unfolding set_status campaign_of update_campaign
  set_status_step up a e h = ground (
    arith,
    assert_permission-campaigns now user workspace campaign_manage db,
    outbound_check-campaigns now workspace 1
        (assert_permission now user workspace campaign_manage db).1,
    updated workspace id (set_campaign_status (status_after a)) (λ x. refl) db.campaigns e,
  )

  pub Edge-step :
      (up : Bool) (a : Action)
      → campaign_of db workspace id ≡ some c
      → perform up now user workspace id a db ≡ (ok tt, db')
      → (c' : Campaign) × (campaign_of db' workspace id ≡ some c') × Edge a c.status c'.status
  unfolding perform
  Edge-step up approves e h =
      let s = approve_step e h in (approved_campaign now user c, s.1, approves-Edge c.status s.0)
  Edge-step up launches e h =
      let s = launch_step up e h in
      (set_campaign_status CampaignStatus.running c, s.1, launches-Edge c.status s.0)
  Edge-step up (schedules at) e h =
      let s = schedule_step at e h in (scheduled_campaign at c, s.2, schedules-Edge c.status s.0)
  Edge-step up (sets a) e h =
      let s = set_status_step up a e h in
      (set_campaign_status (status_after a) c, s.1, sets-Edge a c.status s.0)
