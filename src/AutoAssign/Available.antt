-- ===== src/AutoAssign/Available.antt =====
-- Whether a pick names anyone depends on the pool alone, not on the leads nor on the draw.
use msq_lms.Base.{ℕ, ◌≡◌, ◌<◌, refl, Bool, false, not, some, List, Memᴰ, filter, is_empty, is_some}
use msq_lms.Db.{Key, Lead, AdCampaign, Db}
use msq_lms.AutoAssign.{
  EligibleUser, Deficits, AutoAssignResult, pool_rows, capable_rows, open_lead_owners,
  resolve_auto_assigned_user,
}
use msq_lms.AutoAssign.Reasons.{
  eligible_rows, Outcome, nobody, wrong_department, incapable, picked, pick_among-Outcome,
}

mem-is_empty : {u : EligibleUser} {rows : List EligibleUser} → Memᴰ u rows → is_empty rows ≡ false
mem-is_empty (Memᴰ.head e) = refl
mem-is_empty (Memᴰ.tail m) = refl

module _ (has_lms : Key → Key → Bool) (arithmetic : Deficits) (draw : ℕ → ℕ)
    (in_range : (n : ℕ) → 0 < n → draw n < n) where
  Outcome-available :
      {owners : List Key} {rows : List EligibleUser} {r : AutoAssignResult}
      → Outcome has_lms arithmetic draw owners rows r
      → is_some r.user_id
        ≡ not (is_empty (capable_rows has_lms (filter (λ u. u.department_ok) rows)))
  unfolding capable_rows
  Outcome-available (nobody e p) = rw (e, p)
  Outcome-available (wrong_department e _ p) = rw (e, p)
  Outcome-available (incapable e _ p) = rw (e, p)
  Outcome-available (picked user e best) = rw (e, mem-is_empty best.listed)

  pub available :
      (db : Db) (org_id type_id : Key)
      → is_some
          (resolve_auto_assigned_user has_lms arithmetic draw db org_id (some type_id)).user_id
        ≡ not (is_empty (eligible_rows has_lms db org_id type_id))
  unfolding resolve_auto_assigned_user
  available db org_id type_id = Outcome-available (
      pick_among-Outcome has_lms arithmetic draw in_range (open_lead_owners db org_id type_id)
        (pool_rows db org_id type_id))

-- The rotations do not depend on the leads nor on the campaigns.
pub pool_rows-leads :
    (db : Db) (leads : List Lead) (org_id type_id : Key)
    → pool_rows (record db { marketing_leads = leads }) org_id type_id ≡ pool_rows db org_id type_id
unfolding pool_rows
pool_rows-leads db leads org_id type_id = refl

pub pool_rows-campaigns :
    (db : Db) (campaigns : List AdCampaign) (org_id type_id : Key)
    → pool_rows (record db { ad_campaigns = campaigns }) org_id type_id
      ≡ pool_rows db org_id type_id
unfolding pool_rows
pool_rows-campaigns db campaigns org_id type_id = refl
