-- ===== src/Campaign/Tests.antt =====
-- The ladder and the projection on the sample branch.
use msq_lms.Base.{ℕ, ◌≡◌, refl, List, none, some, [], ◌∷◌, arith}
use msq_lms.Errors.{ok, err, bad_request}
use msq_lms.Db.{CampaignType, Lead, Db}
use msq_lms.AutoAssign.Tests.{branch_db}
use msq_lms.Campaign.{
  Texts, ResolveCampaignInput, platform_of, status_of, tenant_of, in_tenant, is_live,
  tenant_type_if_live, tenant_default_type, is_projection, find_projection, find_named,
  insert_projection, projection_name, project_campaign, ensure_branch_campaign, supplied_type,
  resolve_type, resolve_campaign_for_lead,
}
use msq_lms.Campaign.Ladder.{Chooses, TypeRow, IsLive, resolve_type-Chooses, resolve_type-TypeRow}
use msq_lms.Campaign.Projection.{
  AtMostOne, resolve_campaign_for_lead-AtMostOne, project_campaign_race,
  ensure_branch_campaign_again,
}

abbrev pub plain : Texts
plain = record {
  trim = λ s. s;
  lower = λ s. s;
  upper = λ s. s;
  show_number = λ n. "700";
  append = λ s t. t;
}

-- A lead of Meta campaign 700 whose caller names the retired type 8.
abbrev retired_type : ResolveCampaignInput
retired_type = record {
  meta_campaign_id = some 700;
  meta_campaign_name = none;
  meta_platform = some "fb";
  meta_campaign_status = none;
  campaign_type_id = some 8;
  default_campaign_type_id = none;
}

run : Unit {0}
unfolding resolve_campaign_for_lead resolve_type supplied_type ensure_branch_campaign
    project_campaign projection_name insert_projection find_named find_projection is_projection
    tenant_default_type tenant_type_if_live is_live in_tenant tenant_of status_of platform_of
run = tt

falls_to_default : resolve_type branch_db 1 retired_type ≡ ok (some 7)
unfolding run
falls_to_default = refl

abbrev pub walk_in : ResolveCampaignInput
walk_in = record {
  meta_campaign_id = none;
  meta_campaign_name = none;
  meta_platform = none;
  meta_campaign_status = none;
  campaign_type_id = none;
  default_campaign_type_id = none;
}

pub walk_in_gets_default :
    (leads : List Lead)
    → resolve_campaign_for_lead plain 901 (record branch_db { marketing_leads = leads }) 1 walk_in
      ≡ ok (
        record { campaign_id = none; campaign_type_id = some 7 },
        record branch_db { marketing_leads = leads },
      )
unfolding run
walk_in_gets_default leads = refl

foreign_type :
    resolve_type branch_db 1 (record retired_type { campaign_type_id = some 99 }) ≡ err bad_request
unfolding run
foreign_type = refl

abbrev after_first : Db
after_first = record branch_db {
  ad_campaigns =
      record {
        id = 901;
        org_id = 1;
        name = "700";
        platform_id = 51;
        status_id = 52;
        meta_campaign_id = some 700;
        campaign_type_id = some 7;
      }
      ∷ [];
}

resolve_type-Chooses_example :
    Chooses branch_db 1 (resolve_type branch_db 1 retired_type) (some 8 ∷ none ∷ [])
resolve_type-Chooses_example = resolve_type-Chooses branch_db 1 retired_type

resolve_type-TypeRow_example : (row : CampaignType) × TypeRow branch_db 1 7 row × IsLive row
resolve_type-TypeRow_example = resolve_type-TypeRow branch_db 1 retired_type falls_to_default

branch_db-AtMostOne : AtMostOne branch_db
branch_db-AtMostOne org_id meta_id = omega arith

resolve_campaign_for_lead-AtMostOne_example : AtMostOne after_first
unfolding run
resolve_campaign_for_lead-AtMostOne_example =
    resolve_campaign_for_lead-AtMostOne plain 901 branch_db after_first 1 retired_type
      (record { campaign_id = some 901; campaign_type_id = some 7 }) refl branch_db-AtMostOne

project_campaign_race_example : (◌≡◌ {A = ℕ} 901 901) × (after_first ≡ after_first)
unfolding run
project_campaign_race_example =
    project_campaign_race plain 1 700 901 902 branch_db after_first after_first retired_type
      retired_type (some 7) (some 7) refl refl

ensure_branch_campaign_again_example :
    ensure_branch_campaign plain 902 after_first 1 700 retired_type none ≡ (some 901, after_first)
unfolding run
ensure_branch_campaign_again_example =
    ensure_branch_campaign_again plain 1 700 901 902 branch_db after_first retired_type retired_type
      (some 7) none refl
