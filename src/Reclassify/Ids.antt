-- ===== src/Reclassify/Ids.antt =====
-- The real run updates leads where they stand: the rows, by id and in order, are those before it.
use msq_lms.Base.{Bool, ℕ, ◌≡◌, refl, ap₂, ◌∙◌, false, List, [], ◌∷◌, map, arith}
use msq_lms.Db.{Key, CampaignType, Lead, Db}
use msq_lms.AutoAssign.{Deficits, AutoAssignResult}
use msq_lms.Reclassify.{
  ReclassifyBranchResult, CandidateLead, Tally, relabel_one, relabel_leads, relabel_campaigns,
  move_one, move_lead, reroute, relabel, reclassify_with, select_reroutable_leads,
}

abbrev pub lead_ids : Db → List Key
lead_ids db = map (λ (l : Lead). l.id) db.marketing_leads

lead_ids-map :
    (f : Lead → Lead)
    → ((l : Lead) → (f l).id ≡ l.id)
    → (ls : List Lead) → map (λ (l : Lead). l.id) (map f ls) ≡ map (λ (l : Lead). l.id) ls
lead_ids-map f same [] = refl
lead_ids-map f same (l ∷ ls) = ap₂ (λ x xs. x ∷ xs) (same l) (lead_ids-map f same ls)

id-relabel_one :
    (db : Db) (meta_id tenant_id type_id : Key) (excluded : List Key) (l : Lead)
    → (relabel_one db meta_id tenant_id type_id excluded l).id ≡ l.id
unfolding relabel_one
id-relabel_one db meta_id tenant_id type_id excluded l = ground arith

id-move_one :
    (lead_id type_id : Key) (pick : AutoAssignResult) (l : Lead)
    → (move_one lead_id type_id pick l).id ≡ l.id
unfolding move_one
id-move_one lead_id type_id pick l = ground arith

module _ (has_lms : Key → Key → Bool) (arithmetic : Deficits) (draw : Key → ℕ → ℕ)
    (sort_by_name : List ReclassifyBranchResult → List ReclassifyBranchResult) where
  lead_ids-reroute :
      (type_id : Key) (cs : List CandidateLead) (now : Db) (t : Tally)
      → lead_ids (reroute has_lms arithmetic draw sort_by_name false type_id cs now t).0
        ≡ lead_ids now
  unfolding reroute move_lead
  lead_ids-reroute type_id [] now t = refl
  lead_ids-reroute type_id (c ∷ cs) now t =
      lead_ids-reroute type_id cs _ _
      ∙ lead_ids-map _ (id-move_one c.id type_id _) now.marketing_leads

  pub lead_ids-reclassify_with :
      (db : Db) (meta_id : Key) (new_type : CampaignType)
      → lead_ids (reclassify_with has_lms arithmetic draw sort_by_name false db meta_id new_type).1
        ≡ lead_ids db
  unfolding reclassify_with relabel relabel_leads relabel_campaigns
  lead_ids-reclassify_with db meta_id new_type =
      lead_ids-reroute new_type.id
        (select_reroutable_leads db meta_id new_type.tenant_id new_type.id) _ _
      ∙ lead_ids-map _ (id-relabel_one _ meta_id new_type.tenant_id new_type.id _)
          db.marketing_leads
