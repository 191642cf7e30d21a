-- ===== src/Reclassify/Tests.antt =====
-- A reclassification on the sample branch.
use msq_lms.Base.{◌≡◌, refl, ◌∙◌, sym, true, false, some, List, Memᴰ}
use msq_lms.Db.{CampaignType, Lead, Db}
use msq_lms.AutoAssign.Tests.{branch_db, exact, draw_first, draw_first_in_range, everybody}
use msq_lms.Reclassify.{
  ReclassifyBranchResult, ReclassifyResult, reclassify_with, reclassify_campaign,
}
use msq_lms.Reclassify.Preview.{previewed, reclassify_campaign_preview}
use msq_lms.Reclassify.Ids.{lead_ids}
use msq_lms.Reclassify.Relabelled.{UniqueIds, Fate, reclassify_campaign-Fate}

abbrev unsorted : List ReclassifyBranchResult → List ReclassifyBranchResult
unsorted branches = branches

reclassify_campaign_preview_example :
    reclassify_campaign everybody exact (λ _. draw_first) unsorted true branch_db (some 700) 7
    ≡ previewed branch_db (
        reclassify_campaign everybody exact (λ _. draw_first) unsorted false branch_db (some 700) 7)
reclassify_campaign_preview_example =
    reclassify_campaign_preview everybody exact (λ _. draw_first) (λ _. draw_first) unsorted
      (λ _. draw_first_in_range) (λ _. draw_first_in_range) branch_db (some 700) 7

one_lead : UniqueIds branch_db
one_lead a b (Memᴰ.head e) (Memᴰ.head e') same_id = e ∙ sym e'
one_lead a b (Memᴰ.head e) (Memᴰ.tail m) same_id = elim m [ ]
one_lead a b (Memᴰ.tail m) k same_id = elim m [ ]

abbrev sales : CampaignType
sales = record {
  id = 7;
  tenant_id = 9;
  label = 107;
  department_id = some 5;
  is_default = true;
  is_active = true;
  is_deleted = false;
}

abbrev real_run : ReclassifyResult × Db
real_run = reclassify_with everybody exact (λ _. draw_first) unsorted false branch_db 700 sales

reclassify_campaign-Fate_example :
    (new_type : CampaignType) × Memᴰ new_type branch_db.campaign_types
    × (new_type.id ≡ 7)
    × (lead_ids real_run.1 ≡ lead_ids branch_db)
    × ((l : Lead) → Memᴰ l real_run.1.marketing_leads → Fate branch_db 700 new_type.tenant_id 7 l)
unfolding reclassify_campaign
reclassify_campaign-Fate_example =
    reclassify_campaign-Fate everybody exact (λ _. draw_first) unsorted branch_db real_run.1 700 7
      real_run.0 one_lead refl
