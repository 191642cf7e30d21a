-- ===== src/Db.antt =====
-- The tables that the services read and write, as the lists of their rows. Only the columns that
-- the modelled statements name are kept. A `Key` is a uuid, or a text that the code compares for
-- equality and never takes apart; a nullable column is an `Option`.
use Prim.Native.String.{String}
use msq_lms.Base.{ℕ, Bool, Option, List}

abbrev pub Key : Type 0
Key = ℕ

-- Why the pick for a new lead ended as it did: `AutoAssignReason` of leads-service lib/assignment.ts.
pub data AutoAssignReason : Type 0 where
  assigned no_campaign_type no_weighted_users no_department_match no_capable_users :
      AutoAssignReason

-- entity.organizations (a branch)
pub record Organization : Type 0 where
  pub id : Key
  pub tenant_id : Key
  pub name : Key
  pub is_active : Bool
  pub is_deleted : Bool

-- iam.users
pub record User : Type 0 where
  pub id : Key
  pub is_active : Bool
  pub is_deleted : Bool

-- iam.user_roles
pub record Role : Type 0 where
  pub id : Key
  pub name : Key
  pub rank : ℕ
  pub department_id : Option Key

-- iam.user_org_mapping
pub record Mapping : Type 0 where
  pub id : Key
  pub user_id : Key
  pub org_id : Key
  pub role_id : Key
  pub is_active : Bool

-- lms.lead_assignment_weights
pub record Weight : Type 0 where
  pub user_org_mapping_id : Key
  pub campaign_type_id : Key
  pub weight : ℕ

-- marketing.campaign_types
pub record CampaignType : Type 0 where
  pub id : Key
  pub tenant_id : Key
  pub label : Key
  pub department_id : Option Key
  pub is_default : Bool
  pub is_active : Bool
  pub is_deleted : Bool

-- marketing.ad_campaigns
pub record AdCampaign : Type 0 where
  pub id : Key
  pub org_id : Key
  pub name : String
  pub platform_id : Key
  pub status_id : Key
  pub meta_campaign_id : Option Key
  pub campaign_type_id : Option Key

-- marketing.marketing_platforms, marketing.campaign_statuses and lms.lead_sources
pub record Named : Type 0 where
  pub id : Key
  pub tenant_id : Key
  pub name : String

-- lms.lead_stage
pub record Stage : Type 0 where
  pub id : Key
  pub tenant_id : Key
  pub name : String
  pub is_terminated : Bool

-- lms.marketing_leads; `meta_campaign` is metadata->>'campaign_id'
pub record Lead : Type 0 where
  pub id : Key
  pub org_id : Key
  pub phone : Option Key
  pub email : Option Key
  pub stage_id : Option Key
  pub source_id : Option Key
  pub campaign_id : Option Key
  pub campaign_type_id : Option Key
  pub meta_campaign : Option Key
  pub assigned_user_id : Option Key
  pub auto_assign_reason : Option AutoAssignReason
  pub superseded_by : Option Key
  pub is_active : Bool
  pub is_deleted : Bool

-- lms.lead_links, of link type 'merge' and status 'completed'
pub record LeadLink : Type 0 where
  pub source_lead_id : Key
  pub source_org_id : Key
  pub dest_lead_id : Key
  pub dest_org_id : Key

pub record Db : Type 0 where
  pub organizations : List Organization
  pub users : List User
  pub user_roles : List Role
  pub user_org_mapping : List Mapping
  pub lead_assignment_weights : List Weight
  pub campaign_types : List CampaignType
  pub ad_campaigns : List AdCampaign
  pub marketing_platforms : List Named
  pub campaign_statuses : List Named
  pub lead_stage : List Stage
  pub marketing_leads : List Lead
  pub lead_sources : List Named
  pub lead_links : List LeadLink
