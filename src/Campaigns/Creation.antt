-- ===== src/Campaigns/Creation.antt =====
-- `create` of apps/api/src/campaigns/campaigns.service.ts: the audience of a new campaign, a static
-- list of contacts or a segment.
use tool_messager.Prelude.{
  Bool, Exec, List, Option, Result, Text, [], any, err, false, find_first, get_or_else,
  if◌then◌else◌, includes, is_empty, is_some, length, map, modify, none, not, ok, read, require,
  require_some, return, select_where, some, suc, take, text_eq, to_lower, true, ℕ, ◌&&◌, ◌++◌, ◌+◌,
  ◌==◌, ◌>>=◌, ◌>>◌, ◌||◌, ◌∷◌,
}
use tool_messager.Shared.{
  ConsentStatus, Platform, consent_required, contact_suppressed, is_opted_in, opted_in, opted_out,
  same_platform, unknown,
}
use tool_messager.Access.{campaign_manage}
use tool_messager.Store.{
  AudienceMember, CampaignStatus, Contact, Db, MessageTemplate, Segment, SocialAccount,
  campaign_created, counted, is_connected, is_none, unsafe_to_send,
}
use tool_messager.Policy.{assert_campaign_capacity}
use tool_messager.Workspaces.{
  ServiceError, add_audit, assert_permission, bad_request, not_found, with_policy,
}
use tool_messager.Campaigns.{synthetic_seed}

pub record CreateCampaign : Type 0 where
  pub account_id : ℕ
  pub template_id : ℕ
  pub promotional : Option Bool
  pub contact_ids : Option (List ℕ)
  pub segment_id : Option ℕ

abbrev pub same_consent : ConsentStatus → ConsentStatus → Bool
same_consent unknown unknown = true
same_consent opted_in opted_in = true
same_consent opted_out opted_out = true
same_consent _ _ = false

-- `...(typeof filter.x === t ? { x: filter.x } : {})`
abbrev pub holds_if_given : {A : Type 0} → Option A → (A → Bool) → Bool
holds_if_given none p = true
holds_if_given (some a) p = p a

-- `contains` on an optional column
abbrev pub column_contains : Option Text → Text → Bool
column_contains none t = false
column_contains (some s) t = includes t s

abbrev pub insensitive : Option Text → Option Text
insensitive none = none
insensitive (some s) = some (to_lower s)

unfoldable pub in_segment : Db → Segment → Contact → Bool
in_segment db s c =
    holds_if_given s.filter.platform (same_platform c.platform)
    && holds_if_given s.filter.consent_status (same_consent c.consent_status)
    && holds_if_given s.filter.suppressed (λ b. if b then c.suppressed else not c.suppressed)
    && holds_if_given s.filter.tag_id
        (λ t. any (λ ct. ct.contact_id == c.id && ct.tag_id == t) db.contact_tags)
    && holds_if_given s.filter.source (λ t. column_contains (insensitive c.source) (to_lower t))
    && holds_if_given s.filter.search (λ t.
      includes (to_lower t) (to_lower c.display_name)
      || column_contains c.normalized_phone t
      || column_contains c.platform_user_id t)

-- `source: { not: 'SYNTHETIC_SEED' }`: in SQL a missing source is not different from it either.
abbrev has_real_source : Option Text → Bool
has_real_source none = false
has_real_source (some s) = not (text_eq s synthetic_seed)

abbrev listed : Option (List ℕ) → ℕ → Bool
listed none id = false
listed (some ids) id = any (λ i. i == id) ids

abbrev chosen : Db → CreateCampaign → Option Segment → Contact → Bool
chosen db input none c = listed input.contact_ids c.id
chosen db input (some s) c = in_segment db s c

unfoldable pub eligible :
    Db → (workspace : ℕ) → CreateCampaign → Option Segment → Platform → Contact → Bool
eligible db workspace input segment platform c =
    chosen db input segment c
    && c.workspace_id == workspace
    && is_none c.deleted_at
    && same_platform c.platform platform
    && is_some c.platform_user_id
    && has_real_source c.source

-- `new Set(ids).size`
unfoldable pub distinct : List ℕ → ℕ
distinct [] = 0
distinct (x ∷ xs) = let rest = distinct xs in if any (λ i. i == x) xs then rest else suc rest

abbrev all_listed_found : Option (List ℕ) → ℕ → Bool
all_listed_found none n = true
all_listed_found (some ids) n = n == distinct ids

abbrev has_contacts : Option (List ℕ) → Bool
has_contacts none = false
has_contacts (some ids) = not (is_empty ids)

abbrev is_promotional : CreateCampaign → Bool
is_promotional input = get_or_else input.promotional true

-- The audience row of a contact.
unfoldable pub audience_member : (campaign : ℕ) → Bool → Contact → AudienceMember
audience_member campaign promotional c = record {
  campaign_id = campaign;
  contact_id = c.id;
  included = not (c.suppressed || (promotional && not (is_opted_in c.consent_status)));
  excluded_reason =
      if c.suppressed
      then some (unsafe_to_send contact_suppressed)
      else (if promotional && not (is_opted_in c.consent_status)
          then some (unsafe_to_send consent_required)
          else none);
}

segment_of : Db → (workspace : ℕ) → Option ℕ → Result ServiceError (Option Segment)
segment_of db workspace none = ok none
segment_of db workspace (some id) =
    elim (find_first (λ s. s.id == id && s.workspace_id == workspace) db.segments) [
      | none ↦ err not_found
      | some s ↦ ok (some s)
    ]

abbrev lift : {A : Type 0} → Result ServiceError A → Exec Db ServiceError A
lift r db = (r, db)

abbrev max_audience : ℕ
max_audience = 50000

insert_campaign :
    (workspace : ℕ) → CreateCampaign → SocialAccount → MessageTemplate → List Contact → Db → Db
unfolding audience_member
insert_campaign workspace input account template contacts db = record db {
  next_id = db.next_id + 1;
  campaigns =
      db.campaigns
      ++ record {
        id = db.next_id;
        workspace_id = workspace;
        account_id = some account.id;
        template_id = some template.id;
        platform = account.platform;
        promotional = is_promotional input;
        scheduled_at = none;
        status = CampaignStatus.draft;
        statistics = counted 0 0 0 0;
        approved_by = none;
        approved_at = none;
        deleted_at = none;
      }
        ∷ [];
  audience = db.audience ++ map (audience_member db.next_id (is_promotional input)) contacts;
}

unfoldable pub create : (now user workspace : ℕ) → CreateCampaign → Exec Db ServiceError ℕ
unfolding insert_campaign segment_of eligible
create now user workspace input = do
  assert_permission now user workspace campaign_manage
  with_policy (assert_campaign_capacity now workspace)
  require (has_contacts input.contact_ids || is_some input.segment_id) bad_request
  found ← read (λ db. segment_of db workspace input.segment_id)
  segment ← lift found
  account ← read (λ db.
      find_first
        (λ a. a.id == input.account_id && a.workspace_id == workspace && is_none a.deleted_at)
        db.accounts)
  template ← read (λ db.
      find_first
        (λ t. t.id == input.template_id && t.workspace_id == workspace && is_none t.deleted_at)
        db.templates)
  account ← require_some account not_found
  template ← require_some template not_found
  require (is_connected account.status) bad_request
  contacts ← read (λ db.
      take max_audience
        (select_where (eligible db workspace input segment account.platform) db.contacts))
  require (all_listed_found input.contact_ids (length contacts)) bad_request
  require (not (is_empty contacts)) bad_request
  id ← read (λ db. db.next_id)
  modify (insert_campaign workspace input account template contacts)
  modify (add_audit workspace user campaign_created id)
  return id
