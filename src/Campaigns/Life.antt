-- ===== src/Campaigns/Life.antt =====
-- What the transition diagram of apps/api/src/campaigns/campaigns.service.ts means for a campaign.
use mathlib.Core.Path.{subst}
use tool_messager.Prelude.{
  Bool, Option-cases, Result, ap, arith, false, inl, inr, none, ok, refl, some, then_do-eq-ok, true,
  ℕ, ◌≡◌, ◌≢◌,
}
use tool_messager.Access.{WorkspaceRole, campaign_approve, campaign_manage}
use tool_messager.Store.{Campaign, CampaignStatus, Db, pending_approval}
use tool_messager.Workspaces.{ServiceError, assert_permission}
use tool_messager.Workspaces.Frame.{assert_permission-campaigns}
use tool_messager.Campaigns.{approve, campaign_of, launch, schedule, set_status}
use tool_messager.Campaigns.Diagram.{
  Action, Edge, Edge-step, approves, from_draft, from_pending, launches, perform, schedules, sets,
}

missing_refused :
    (up : Bool) (now user workspace id : ℕ) (a : Action) (db : Db) {db' : Db}
    → campaign_of db workspace id ≡ none
    → perform up now user workspace id a db ≢ (ok tt, db')
unfolding perform approve schedule launch set_status campaign_of
missing_refused up now user workspace id approves db e h =
    ground (arith, assert_permission-campaigns now user workspace campaign_approve db)
missing_refused up now user workspace id launches db e h =
    ground (arith, assert_permission-campaigns now user workspace campaign_manage db)
missing_refused up now user workspace id (schedules at) db e h =
    ground (arith, assert_permission-campaigns now user workspace campaign_manage db)
missing_refused up now user workspace id (sets a) db e h =
    ground (arith, assert_permission-campaigns now user workspace campaign_manage db)

-- An action of the service that succeeds found its campaign in the workspace, and moved it along an
-- edge of the diagram for that action.
pub perform_follows-Edge :
    (up : Bool) (now user workspace id : ℕ) (a : Action) (db : Db) {db' : Db}
    → perform up now user workspace id a db ≡ (ok tt, db')
    → (c : Campaign) × (c' : Campaign) × (campaign_of db workspace id ≡ some c)
      × (campaign_of db' workspace id ≡ some c')
      × Edge a c.status c'.status
perform_follows-Edge up now user workspace id a db h =
    elim (Option-cases (campaign_of db workspace id)) [
      | inl gone ↦ absurd (missing_refused up now user workspace id a db gone h)
      | inr (c, found) ↦
          let s = Edge-step now user workspace id db up a found h in (c, s.0, found, s.1, s.2)
    ]

abbrev is_finished : CampaignStatus → Bool
is_finished CampaignStatus.completed = true
is_finished CampaignStatus.cancelled = true
is_finished CampaignStatus.failed = true
is_finished _ = false

Edge-unfinished : {a : Action} {s t : CampaignStatus} → Edge a s t → is_finished s ≡ false
Edge-unfinished from_draft = refl
Edge-unfinished _ = refl

-- Every action of the service on a completed, cancelled or failed campaign is refused.
finished_is_final :
    (up : Bool) (now user workspace id : ℕ) (a : Action) (db : Db) {db' : Db} {c : Campaign}
    → campaign_of db workspace id ≡ some c
    → is_finished c.status ≡ true
    → perform up now user workspace id a db ≢ (ok tt, db')
finished_is_final up now user workspace id a db found done h =
    let s = Edge-step now user workspace id db up a found h in cc (Edge-unfinished s.2)

-- A campaign that somebody has approved at some time, or that has gone further.
abbrev pub is_cleared : CampaignStatus → Bool
is_cleared CampaignStatus.draft = false
is_cleared pending_approval = false
is_cleared CampaignStatus.cancelled = false
is_cleared _ = true

Edge-clears :
    {a : Action} {s t : CampaignStatus}
    → Edge a s t
    → is_cleared s ≡ false
    → is_cleared t ≡ true
    → a ≡ approves
Edge-clears from_draft h k = refl
Edge-clears from_pending h k = refl
Edge-clears _ h k = absurd (cc)

approver :
    (up : Bool) (now user workspace id : ℕ) (db : Db) {db' : Db}
    → perform up now user workspace id approves db ≡ (ok tt, db')
    → (role : WorkspaceRole) × ((assert_permission now user workspace campaign_approve db).0
        ≡ ok role)
unfolding perform approve
approver up now user workspace id db h =
    let r = then_do-eq-ok (assert_permission now user workspace campaign_approve db) _ h in
    (r.0, ap (λ (x : Result ServiceError WorkspaceRole × Db). x.0) r.2)

-- A campaign that was never approved comes to be approved, scheduled, running or paused only by the
-- approval of a user who may approve campaigns.
pub clearance_needs_approval :
    (up : Bool) (now user workspace id : ℕ) (a : Action) (db : Db) {db' : Db} {c c' : Campaign}
    → perform up now user workspace id a db ≡ (ok tt, db')
    → campaign_of db workspace id ≡ some c
    → campaign_of db' workspace id ≡ some c'
    → is_cleared c.status ≡ false
    → is_cleared c'.status ≡ true
    → (a ≡ approves)
      × ((role : WorkspaceRole) × ((assert_permission now user workspace campaign_approve db).0
            ≡ ok role))
clearance_needs_approval up now user workspace id a db {db'} {c} {c'} h e e' raw cleared =
    let s = Edge-step now user workspace id db up a e h in
    let same : s.0 ≡ c' = cc (s.1, e') in
    let edge = subst (λ (x : Campaign). Edge a c.status x.status) same s.2 in
    let is_approval = Edge-clears edge raw cleared in
    (
      is_approval,
      approver up now user workspace id db
          (subst (λ b. perform up now user workspace id b db ≡ (ok tt, db')) is_approval h),
    )
