-- ===== src/Campaign.antt =====
-- Which campaign and which campaign type a newly arriving lead belongs to: leads-service
-- lib/campaign-resolution.ts. String functions of the language are a parameter.
pub mod Ladder
pub mod Projection
pub mod Tests
use Prim.Native.String.{String}
use text.Mathlib.Text.{◌==◌ as str_eq}
use msq_lms.Base.{
  ℕ, Bool, true, false, not, ◌&&◌, Option, none, some, List, [], ◌∷◌, ◌++◌, map, ◌==◌,
  if◌then◌else◌, same, or_else, or_option, first, filter, any, is_empty,
}
use msq_lms.Errors.{bad_request, Result, ok, err, ◌>>=◌}
use msq_lms.Db.{Key, Organization, CampaignType, AdCampaign, Named, Db}

pub record Texts : Type 0 where
  pub trim : String → String
  pub lower : String → String
  pub upper : String → String
  pub show_number : ℕ → String
  pub append : String → String → String

-- PLATFORM_MAP, with DEFAULT_PLATFORM_NAME for any other key; the keys that an object of JavaScript
-- inherits, such as 'constructor', are left out.
pub platform_of : String → String
platform_of key =
    if str_eq key "fb" then "facebook" else if str_eq key "ig" then "instagram" else "facebook"

-- STATUS_MAP: its four keys for 'draft' have the value of DEFAULT_STATUS_NAME, as any other key has.
pub status_of : String → String
status_of key =
    if str_eq key "ACTIVE"
    then "active"
    else if str_eq key "PAUSED"
    then "paused"
    else if str_eq key "CAMPAIGN_PAUSED"
    then "paused"
    else if str_eq key "ADSET_PAUSED"
    then "paused"
    else if str_eq key "ARCHIVED"
    then "archived"
    else if str_eq key "DELETED"
    then "archived"
    else "draft"

-- An absent, null or empty id is `none`.
pub record ResolveCampaignInput : Type 0 where
  pub meta_campaign_id : Option Key
  pub meta_campaign_name : Option String
  pub meta_platform : Option String
  pub meta_campaign_status : Option String
  pub campaign_type_id : Option Key
  pub default_campaign_type_id : Option Key

pub record ResolvedCampaign : Type 0 where
  pub campaign_id : Option Key
  pub campaign_type_id : Option Key

-- (SELECT tenant_id FROM entity.organizations WHERE id = org)
unfoldable pub tenant_of : Db → Key → Option Key
tenant_of db org_id =
    first (map (λ o. o.tenant_id) (filter (λ (o : Organization). o.id == org_id) db.organizations))

-- tenant_id = (that subquery): nothing equals NULL.
unfoldable pub in_tenant : Option Key → Key → Bool
in_tenant none tenant_id = false
in_tenant (some t) tenant_id = tenant_id == t

pub is_live : CampaignType → Bool
is_live ct = ct.is_active && not ct.is_deleted

live_or_null : Option CampaignType → Result (Option Key)
live_or_null none = err bad_request
live_or_null (some ct) = if is_live ct then ok (some ct.id) else ok none

pub tenant_type_if_live : Db → Key → Key → Result (Option Key)
unfolding live_or_null
tenant_type_if_live db org_id type_id = live_or_null (
    first (
      filter (λ ct. ct.id == type_id && in_tenant (tenant_of db org_id) ct.tenant_id)
        db.campaign_types))

pub tenant_default_type : Db → Key → Option Key
tenant_default_type db org_id = first (
    map (λ ct. ct.id)
      (filter
        (λ (ct : CampaignType).
          ct.is_default && is_live ct && in_tenant (tenant_of db org_id) ct.tenant_id)
        db.campaign_types))

-- The row of a branch for a Meta campaign.
pub is_projection : Key → Key → AdCampaign → Bool
is_projection org_id meta_campaign_id ac =
    ac.org_id == org_id && same ac.meta_campaign_id (some meta_campaign_id)

pub find_projection : Db → Key → Key → Option Key
find_projection db org_id meta_campaign_id =
    first (map (λ ac. ac.id) (filter (is_projection org_id meta_campaign_id) db.ad_campaigns))

pub find_named : List Named → Option Key → String → Option Key
find_named rows tenant name = first (
    map (λ n. n.id)
      (filter (λ (n : Named). str_eq n.name name && in_tenant tenant n.tenant_id) rows))

-- INSERT … ON CONFLICT (org_id, meta_campaign_id) DO NOTHING
pub insert_projection : Db → AdCampaign → Key → Db
insert_projection db row meta_campaign_id =
    if any (is_projection row.org_id meta_campaign_id) db.ad_campaigns
    then db
    else record db { ad_campaigns = db.ad_campaigns ++ row ∷ [] }

-- One rung of the ladder: an absent id, or a retired type, leaves it to the next.
pub supplied_type : Db → Key → Option Key → Result (Option Key)
supplied_type db org_id none = ok none
supplied_type db org_id (some candidate) = tenant_type_if_live db org_id candidate

next_rung : Option Key → Result (Option Key) → Result (Option Key)
next_rung (some type_id) later = ok (some type_id)
next_rung none later = later

-- The loop over the caller's type and the form default, then the tenant's default.
pub resolve_type : Db → Key → ResolveCampaignInput → Result (Option Key)
unfolding next_rung
resolve_type db org_id input = do
  by_caller ← supplied_type db org_id input.campaign_type_id
  next_rung by_caller (do
    by_form ← supplied_type db org_id input.default_campaign_type_id
    next_rung by_form (ok (tenant_default_type db org_id)))

module _ (texts : Texts) where
  -- `name?.trim() || "Meta Campaign <id>"`
  pub projection_name : Option String → Key → String
  projection_name none id = texts.append "Meta Campaign " (texts.show_number id)
  projection_name (some name) id =
      if str_eq (texts.trim name) ""
      then texts.append "Meta Campaign " (texts.show_number id)
      else texts.trim name

  -- The VALUES of the INSERT.
  abbrev pub projection_row :
      Key → Key → Key → ResolveCampaignInput → Option Key → Key → Key → AdCampaign
  projection_row fresh org_id meta_id input type_id platform status = record {
    id = fresh;
    org_id = org_id;
    name = projection_name input.meta_campaign_name meta_id;
    platform_id = platform;
    status_id = status;
    meta_campaign_id = some meta_id;
    campaign_type_id = type_id;
  }

  -- From the catalog lookup on; `fresh` is the id that the database gives to an inserted row.
  -- No platform or no status row in the tenant: nothing is written.
  insert_and_reselect :
      Key
      → Db
      → Key
      → Key
      → ResolveCampaignInput
      → Option Key
      → Option Key
      → Option Key
      → Option Key × Db
  insert_and_reselect fresh db org_id meta_id input type_id none status = (none, db)
  insert_and_reselect fresh db org_id meta_id input type_id (some platform) none = (none, db)
  insert_and_reselect fresh db org_id meta_id input type_id (some platform) (some status) =
      let db' =
        insert_projection db (projection_row fresh org_id meta_id input type_id platform status)
          meta_id in
      (find_projection db' org_id meta_id, db')

  pub project_campaign : Key → Db → Key → Key → ResolveCampaignInput → Option Key → Option Key × Db
  unfolding insert_and_reselect
  project_campaign fresh db org_id meta_id input type_id =
      insert_and_reselect fresh db org_id meta_id input type_id
        (find_named db.marketing_platforms (tenant_of db org_id)
          (platform_of (texts.lower (or_else input.meta_platform ""))))
        (find_named db.campaign_statuses (tenant_of db org_id)
          (status_of (texts.upper (or_else input.meta_campaign_status ""))))

  found_or : Option Key → Db → Option Key × Db → Option Key × Db
  found_or none db created = created
  found_or (some id) db created = (some id, db)

  pub ensure_branch_campaign :
      Key → Db → Key → Key → ResolveCampaignInput → Option Key → Option Key × Db
  unfolding found_or
  ensure_branch_campaign fresh db org_id meta_id input type_id =
      found_or (find_projection db org_id meta_id) db
        (project_campaign fresh db org_id meta_id input type_id)

  attach : Key → Db → Key → ResolveCampaignInput → Option Key → Option Key → ResolvedCampaign × Db
  attach fresh db org_id input type_id none =
      (record { campaign_id = none; campaign_type_id = type_id }, db)
  attach fresh db org_id input type_id (some meta_id) =
      let (campaign, db') = ensure_branch_campaign fresh db org_id meta_id input type_id in
      (record { campaign_id = campaign; campaign_type_id = type_id }, db')

  pub resolve_campaign_for_lead :
      Key → Db → Key → ResolveCampaignInput → Result (ResolvedCampaign × Db)
  unfolding attach
  resolve_campaign_for_lead fresh db org_id input = do
    type_id ← resolve_type db org_id input
    ok (attach fresh db org_id input type_id input.meta_campaign_id)
