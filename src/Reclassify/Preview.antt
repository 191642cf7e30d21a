-- ===== src/Reclassify/Preview.antt =====
-- What the dry run promises: it writes nothing, and it reports what the real run will report.
use msq_lms.Base.{
  ℕ, ◌≡◌, ◌<◌, refl, sym, ap, ◌∙◌, Bool, true, false, Option, none, some, List, [], ◌∷◌, is_some,
  first, filter,
}
use msq_lms.Errors.{Result, ok, err}
use msq_lms.Db.{Key, CampaignType, Db}
use msq_lms.AutoAssign.{Deficits, AutoAssignResult, pool_rows, resolve_auto_assigned_user}
use msq_lms.AutoAssign.Available.{available, pool_rows-leads, pool_rows-campaigns}
use msq_lms.Reclassify.{
  ReclassifyBranchResult, ReclassifyResult, CandidateLead, Tally, tally_pick, move_lead, reroute,
  relabel, relabel_leads, relabel_campaigns, reclassify_with, reclassify_found, reclassify_campaign,
  select_reroutable_leads, affected_leads, count_affected,
}

-- The report of a real run, as a dry run on `db` gives it.
abbrev pub previewed : Db → Result (ReclassifyResult × Db) → Result (ReclassifyResult × Db)
previewed db (ok (report, after)) = ok (record report { dry_run = true }, db)
previewed db (err e) = err e

-- The two databases have the same rotations.
abbrev SamePools : Db → Db → Type 0
SamePools db db' =
    (org_id type_id : Key) → pool_rows db org_id type_id ≡ pool_rows db' org_id type_id

move_lead-SamePools :
    (db db' : Db) (lead_id type_id : Key) (pick : AutoAssignResult)
    → SamePools db db'
    → SamePools db (move_lead db' lead_id type_id pick)
unfolding move_lead
move_lead-SamePools db db' lead_id type_id pick h org_id t =
    h org_id t ∙ sym (pool_rows-leads db' _ org_id t)

tally_pick-is_some :
    (o o' : Option Key) (c : CandidateLead) (t : Tally)
    → is_some o ≡ is_some o'
    → tally_pick o c t ≡ tally_pick o' c t
unfolding tally_pick
tally_pick-is_some none none c t h = refl
tally_pick-is_some none (some b) c t h = cc
tally_pick-is_some (some a) none c t h = cc
tally_pick-is_some (some a) (some b) c t h = refl

module _ (has_lms : Key → Key → Bool) (arithmetic : Deficits) (draw draw' : Key → ℕ → ℕ)
    (sort_by_name : List ReclassifyBranchResult → List ReclassifyBranchResult)
    (in_range : (id : Key) (n : ℕ) → 0 < n → draw id n < n)
    (in_range' : (id : Key) (n : ℕ) → 0 < n → draw' id n < n) where
  picks_agree :
      (db db' : Db) (id org_id type_id : Key)
      → SamePools db db'
      → is_some
          (resolve_auto_assigned_user has_lms arithmetic (draw id) db org_id (some type_id)).user_id
        ≡ is_some
            (resolve_auto_assigned_user has_lms arithmetic
              (draw' id)
              db'
              org_id
              (some type_id)).user_id
  picks_agree db db' id org_id type_id h = rw (
    available has_lms arithmetic (draw id) (in_range id) db org_id type_id,
    available has_lms arithmetic (draw' id) (in_range' id) db' org_id type_id,
    h org_id type_id,
  )

  reroute_counts :
      (type_id : Key) (cs : List CandidateLead) (db db' : Db) (t : Tally)
      → SamePools db db'
      → (reroute has_lms arithmetic draw sort_by_name true type_id cs db t).1
        ≡ (reroute has_lms arithmetic draw' sort_by_name false type_id cs db' t).1
  unfolding reroute
  reroute_counts type_id [] db db' t h = refl
  reroute_counts type_id (c ∷ cs) db db' t h =
      let pick =
        resolve_auto_assigned_user has_lms arithmetic (draw' c.id) db' c.org_id (some type_id) in
      ap (λ u. (reroute has_lms arithmetic draw sort_by_name true type_id cs db u).1)
        (tally_pick-is_some _ _ c t (picks_agree db db' c.id c.org_id type_id h))
      ∙ reroute_counts type_id cs db (move_lead db' c.id type_id pick) (tally_pick pick.user_id c t)
          (move_lead-SamePools db db' c.id type_id pick h)

  relabel-SamePools :
      (db : Db) (meta_id tenant_id type_id : Key) (cs : List CandidateLead)
      → SamePools db
          (relabel has_lms arithmetic draw' sort_by_name false db meta_id tenant_id type_id cs)
  unfolding relabel relabel_leads relabel_campaigns
  relabel-SamePools db meta_id tenant_id type_id cs org_id t =
      sym (pool_rows-campaigns db _ org_id t) ∙ sym (pool_rows-leads _ _ org_id t)

  reroute_dry :
      (type_id : Key) (cs : List CandidateLead) (db : Db) (t : Tally)
      → (reroute has_lms arithmetic draw sort_by_name true type_id cs db t).0 ≡ db
  unfolding reroute
  reroute_dry type_id [] db t = refl
  reroute_dry type_id (c ∷ cs) db t = reroute_dry type_id cs db _

  reclassify_with-dry :
      (db : Db) (meta_id : Key) (new_type : CampaignType)
      → reclassify_with has_lms arithmetic draw sort_by_name true db meta_id new_type ≡ (
        record (reclassify_with has_lms arithmetic draw' sort_by_name false db meta_id new_type).0 {
          dry_run = true;
        },
        db,
      )
  unfolding reclassify_with relabel
  reclassify_with-dry db meta_id new_type = cc (
    reroute_dry new_type.id (select_reroutable_leads db meta_id new_type.tenant_id new_type.id) db
        (record {
          branches = count_affected (affected_leads db meta_id new_type.tenant_id) [];
          reassigned = 0;
          left_unassigned = 0;
        }),
    reroute_counts new_type.id (select_reroutable_leads db meta_id new_type.tenant_id new_type.id)
        db
        (relabel has_lms arithmetic draw' sort_by_name false db meta_id new_type.tenant_id
          new_type.id (select_reroutable_leads db meta_id new_type.tenant_id new_type.id))
        (record {
          branches = count_affected (affected_leads db meta_id new_type.tenant_id) [];
          reassigned = 0;
          left_unassigned = 0;
        })
        (relabel-SamePools db meta_id new_type.tenant_id new_type.id _),
  )

  -- A dry run reports, branch by branch, what the real run reports on the same tables, fails where
  -- it fails, and writes nothing: whatever the two draw, so long as each draws a candidate.
  pub reclassify_campaign_preview :
      (db : Db) (meta_id : Option Key) (type_id : Key)
      → reclassify_campaign has_lms arithmetic draw sort_by_name true db meta_id type_id
        ≡ previewed db
            (reclassify_campaign has_lms arithmetic draw' sort_by_name false db meta_id type_id)
  unfolding reclassify_campaign
  reclassify_campaign_preview db none type_id = refl
  reclassify_campaign_preview db (some meta_id) type_id = found (first (filter _ db.campaign_types))
    where
      found :
          (o : Option CampaignType)
          → reclassify_found has_lms arithmetic draw sort_by_name true db meta_id o
            ≡ previewed db
                (reclassify_found has_lms arithmetic draw' sort_by_name false db meta_id o)
      found none = refl
      found (some new_type) = ap ok (reclassify_with-dry db meta_id new_type)
