-- ===== src/Reclassify.antt =====
-- Relabelling and re-routing the leads of a Meta campaign whose type was corrected: leads-service
-- services/campaign-reclassify.service.ts. A transaction is a function from the tables before it to
-- the tables after it. The settings that only the audit triggers read are left out.
pub mod Ids
pub mod Predicate
pub mod Preview
pub mod Relabelled
pub mod Tests
use msq_lms.Base.{
  ℕ, ◌+◌, Bool, true, false, not, ◌&&◌, ◌||◌, Option, none, some, List, [], ◌∷◌, map, ◌==◌, ltb,
  leb, if◌then◌else◌, same, column_is, is_some, is_none, first, filter, any, contains, only_if,
  length, ◌>>=◌,
}
use msq_lms.Errors.{bad_request, not_found, Result, ok, err}
use msq_lms.Db.{Key, Organization, Role, Mapping, Weight, CampaignType, AdCampaign, Lead, Stage, Db}
use msq_lms.AutoAssign.{
  Deficits, AutoAssignResult, stored_auto_assign_reason, resolve_auto_assigned_user,
}

pub record ReclassifyBranchResult : Type 0 where
  pub org_id : Key
  pub org_name : Key
  pub leads_relabelled : ℕ
  pub leads_reassigned : ℕ
  pub leads_left_unassigned : ℕ

pub record ReclassifyResult : Type 0 where
  pub dry_run : Bool
  pub campaigns_relabelled : ℕ
  pub leads_relabelled : ℕ
  pub leads_reassigned : ℕ
  pub leads_left_unassigned : ℕ
  pub by_branch : List ReclassifyBranchResult

pub record CandidateLead : Type 0 where
  pub id : Key
  pub org_id : Key
  pub org_name : Key

-- EXISTS (… ac.id = ml.campaign_id AND ac.meta_campaign_id = …)
pub on_campaign_row : Key → Lead → AdCampaign → Bool
on_campaign_row meta_id ml ac =
    column_is ml.campaign_id ac.id && column_is ac.meta_campaign_id meta_id

-- `campaignLeadsPredicate`, over a lead and the organization that it is joined with. A Meta id is
-- one number here; a text with leading zeros, which the metadata could hold, is left out.
pub campaign_leads_predicate : List AdCampaign → Key → Key → Organization → Lead → Bool
campaign_leads_predicate campaigns meta_id tenant_id o ml =
    o.tenant_id == tenant_id
    && not ml.is_deleted
    && (any (on_campaign_row meta_id ml) campaigns
        || (is_none ml.campaign_id && column_is ml.meta_campaign meta_id))

-- … JOIN entity.organizations o ON o.id = ml.org_id
pub on_campaign : List AdCampaign → Key → Key → Organization → Lead → Bool
on_campaign campaigns meta_id tenant_id o ml =
    o.id == ml.org_id && campaign_leads_predicate campaigns meta_id tenant_id o ml

-- The subquery: the lead's owner is in the new type's pool for the lead's branch.
pub works_pool : Key → Lead → Weight → Mapping → Role → CampaignType → Bool
works_pool new_type ml w uom ur nct =
    uom.id == w.user_org_mapping_id
    && ur.id == uom.role_id
    && nct.id == w.campaign_type_id
    && column_is ml.assigned_user_id uom.user_id
    && uom.org_id == ml.org_id
    && uom.is_active
    && w.campaign_type_id == new_type
    && ltb 0 w.weight
    && is_some ur.department_id
    && same nct.department_id ur.department_id

pub owner_in_pool : Db → Key → Lead → Bool
owner_in_pool db new_type ml =
    any
      (λ w.
        any
          (λ uom.
            any (λ ur. any (λ nct. works_pool new_type ml w uom ur nct) db.campaign_types)
              db.user_roles)
          db.user_org_mapping)
      db.lead_assignment_weights

-- LEFT JOIN lms.lead_stage … is_terminated IS DISTINCT FROM TRUE
pub still_open : Db → Lead → Bool
still_open db ml =
    not (any (λ (ls : Stage). column_is ml.stage_id ls.id && ls.is_terminated) db.lead_stage)

pub is_reroutable : Db → Key → Key → Key → Organization → Lead → Bool
is_reroutable db meta_id tenant_id new_type o ml =
    on_campaign db.ad_campaigns meta_id tenant_id o ml
    && ml.is_active
    && is_none ml.superseded_by
    && still_open db ml
    && (is_none ml.assigned_user_id || not (owner_in_pool db new_type ml))

-- ORDER BY ml.org_id, ml.id
precedes : CandidateLead → CandidateLead → Bool
precedes c d = ltb c.org_id d.org_id || (c.org_id == d.org_id && leb c.id d.id)

insert_ordered : CandidateLead → List CandidateLead → List CandidateLead
insert_ordered c [] = c ∷ []
insert_ordered c (d ∷ ds) =
    let rest = insert_ordered c ds in if precedes c d then c ∷ d ∷ ds else d ∷ rest

order_by_org : List CandidateLead → List CandidateLead
unfolding insert_ordered
order_by_org [] = []
order_by_org (c ∷ cs) = insert_ordered c (order_by_org cs)

pub select_reroutable_leads : Db → Key → Key → Key → List CandidateLead
unfolding order_by_org
select_reroutable_leads db meta_id tenant_id new_type = order_by_org (do
  ml ← db.marketing_leads
  o ← db.organizations
  only_if (is_reroutable db meta_id tenant_id new_type o ml)
      (record { id = ml.id; org_id = ml.org_id; org_name = o.name } ∷ []))

-- The leads that the relabelling counts, each with its branch.
pub affected_leads : Db → Key → Key → List CandidateLead
affected_leads db meta_id tenant_id = do
  ml ← db.marketing_leads
  o ← db.organizations
  only_if (on_campaign db.ad_campaigns meta_id tenant_id o ml)
      (record { id = ml.id; org_id = ml.org_id; org_name = o.name } ∷ [])

-- `byBranch.get(org) ?? { … zeroes }`, changed and set again.
pub at_branch :
    (ReclassifyBranchResult → ReclassifyBranchResult)
    → CandidateLead
    → List ReclassifyBranchResult
    → List ReclassifyBranchResult
at_branch change c [] =
    change (record {
      org_id = c.org_id;
      org_name = c.org_name;
      leads_relabelled = 0;
      leads_reassigned = 0;
      leads_left_unassigned = 0;
    })
    ∷ []
at_branch change c (b ∷ bs) =
    let rest = at_branch change c bs in if b.org_id == c.org_id then change b ∷ bs else b ∷ rest

-- COUNT(*) … GROUP BY ml.org_id, o.name
pub count_affected : List CandidateLead → List ReclassifyBranchResult → List ReclassifyBranchResult
count_affected [] branches = branches
count_affected (c ∷ cs) branches =
    count_affected cs
      (at_branch (λ b. record b { leads_relabelled = b.leads_relabelled + 1 }) c branches)

-- The campaign rows whose type differs, by the WHERE clause that the count and the UPDATE share.
pub campaign_differs : Db → Key → Key → Key → AdCampaign → Bool
campaign_differs db meta_id tenant_id type_id ac =
    any
      (λ (o : Organization).
        o.id == ac.org_id && column_is ac.meta_campaign_id meta_id && o.tenant_id == tenant_id)
      db.organizations
    && not (same ac.campaign_type_id (some type_id))

pub relabel_campaigns : Db → Key → Key → Key → Db
relabel_campaigns db meta_id tenant_id type_id = record db {
  ad_campaigns =
      map
        (λ ac.
          if campaign_differs db meta_id tenant_id type_id ac
          then record ac { campaign_type_id = some type_id }
          else ac)
        db.ad_campaigns;
}

pub relabel_one : Db → Key → Key → Key → List Key → Lead → Lead
relabel_one db meta_id tenant_id type_id excluded ml =
    if any (λ o. on_campaign db.ad_campaigns meta_id tenant_id o ml) db.organizations
      && not (same ml.campaign_type_id (some type_id))
      && not (contains excluded ml.id)
    then record ml { campaign_type_id = some type_id }
    else ml

pub relabel_leads : Db → Key → Key → Key → List Key → Db
relabel_leads db meta_id tenant_id type_id excluded = record db {
  marketing_leads = map (relabel_one db meta_id tenant_id type_id excluded) db.marketing_leads;
}

-- The one UPDATE that moves a lead and its label together.
pub move_one : Key → Key → AutoAssignResult → Lead → Lead
move_one lead_id type_id pick ml =
    if ml.id == lead_id
    then record ml {
      assigned_user_id = pick.user_id;
      auto_assign_reason = stored_auto_assign_reason pick.reason;
      campaign_type_id = some type_id;
    }
    else ml

pub move_lead : Db → Key → Key → AutoAssignResult → Db
move_lead db lead_id type_id pick = record db {
  marketing_leads = map (move_one lead_id type_id pick) db.marketing_leads;
}

pub record Tally : Type 0 where
  pub branches : List ReclassifyBranchResult
  pub reassigned : ℕ
  pub left_unassigned : ℕ

-- What one pick adds to the counts.
pub tally_pick : Option Key → CandidateLead → Tally → Tally
tally_pick (some user) c t = record {
  branches = at_branch (λ b. record b { leads_reassigned = b.leads_reassigned + 1 }) c t.branches;
  reassigned = t.reassigned + 1;
  left_unassigned = t.left_unassigned;
}
tally_pick none c t = record {
  branches =
      at_branch (λ b. record b { leads_left_unassigned = b.leads_left_unassigned + 1 }) c
        t.branches;
  reassigned = t.reassigned;
  left_unassigned = t.left_unassigned + 1;
}

-- `sort_by_name` stands for the final sort by localeCompare, and `draw id` for the random draw of
-- the pick for the lead `id`.
module _ (has_lms : Key → Key → Bool) (arithmetic : Deficits) (draw : Key → ℕ → ℕ)
    (sort_by_name : List ReclassifyBranchResult → List ReclassifyBranchResult) where
  -- The loop over the candidates.
  pub reroute : Bool → Key → List CandidateLead → Db → Tally → Db × Tally
  reroute dry_run type_id [] db t = (db, t)
  reroute dry_run type_id (c ∷ cs) db t =
      let pick =
        resolve_auto_assigned_user has_lms arithmetic (draw c.id) db c.org_id (some type_id) in
      reroute dry_run type_id cs (if dry_run then db else move_lead db c.id type_id pick)
        (tally_pick pick.user_id c t)

  -- What `if (!dryRun)` writes before the loop.
  pub relabel : Bool → Db → Key → Key → Key → List CandidateLead → Db
  relabel true db meta_id tenant_id type_id candidates = db
  relabel false db meta_id tenant_id type_id candidates =
      relabel_leads (relabel_campaigns db meta_id tenant_id type_id) meta_id tenant_id type_id
        (map (λ c. c.id) candidates)

  -- From the type row on.
  pub reclassify_with : Bool → Db → Key → CampaignType → ReclassifyResult × Db
  reclassify_with dry_run db meta_id new_type =
      let tenant_id = new_type.tenant_id in
      let affected = affected_leads db meta_id tenant_id in
      let candidates = select_reroutable_leads db meta_id tenant_id new_type.id in
      let (db', t) =
        reroute dry_run new_type.id candidates
          (relabel dry_run db meta_id tenant_id new_type.id candidates)
          (record { branches = count_affected affected []; reassigned = 0; left_unassigned = 0 }) in
      (
        record {
          dry_run = dry_run;
          campaigns_relabelled =
              length (filter (campaign_differs db meta_id tenant_id new_type.id) db.ad_campaigns);
          leads_relabelled = length affected;
          leads_reassigned = t.reassigned;
          leads_left_unassigned = t.left_unassigned;
          by_branch = sort_by_name t.branches;
        },
        db',
      )

  reclassify_found : Bool → Db → Key → Option CampaignType → Result (ReclassifyResult × Db)
  reclassify_found dry_run db meta_id none = err not_found
  reclassify_found dry_run db meta_id (some new_type) =
      ok (reclassify_with dry_run db meta_id new_type)

  -- `none` is a campaign id that is not all digits.
  pub reclassify_campaign : Bool → Db → Option Key → Key → Result (ReclassifyResult × Db)
  unfolding reclassify_found
  reclassify_campaign dry_run db none type_id = err bad_request
  reclassify_campaign dry_run db (some meta_id) type_id = reclassify_found dry_run db meta_id (
      first (
        filter (λ (ct : CampaignType). ct.id == type_id && ct.is_active && not ct.is_deleted)
          db.campaign_types))
