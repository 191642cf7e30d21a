-- ===== src/AutoAssign.antt =====
-- Who a new, unassigned lead goes to within one (branch, campaign type) pool: leads-service
-- lib/assignment.ts. `hasCapability` of @platform/db, the arithmetic of doubles and Math.random
-- are parameters.
pub mod Pool
pub mod Best
pub mod Reasons
pub mod Pick
pub mod Available
pub mod Tests
use msq_lms.Base.{
  ℕ, ◌+◌, ◌≡◌, ◌<◌, Bool, true, false, not, ◌&&◌, Option, none, some, List, [], ◌∷◌, ◌++◌, map, ltb,
  ◌==◌, if◌then◌else◌, same, column_is, is_some, or_else, length, get_elem?, first, is_empty,
  filter, contains, only_if, ◌>>=◌,
}
use msq_lms.Db.{
  Key, AutoAssignReason, assigned, no_campaign_type, no_weighted_users, no_department_match,
  no_capable_users, Organization, User, Role, Mapping, Weight, CampaignType, Lead, Stage, Db,
}

-- LMS_RANK_READ_ONLY and LMS_RANK_ADMIN
abbrev pub lms_rank_read_only : ℕ
lms_rank_read_only = 0

abbrev pub lms_rank_admin : ℕ
lms_rank_admin = 80

-- The auto_assign_reason column: null when the pick found someone.
unfoldable pub stored_auto_assign_reason : AutoAssignReason → Option AutoAssignReason
stored_auto_assign_reason assigned = none
stored_auto_assign_reason no_campaign_type = some no_campaign_type
stored_auto_assign_reason no_weighted_users = some no_weighted_users
stored_auto_assign_reason no_department_match = some no_department_match
stored_auto_assign_reason no_capable_users = some no_capable_users

pub record AutoAssignResult : Type 0 where
  pub user_id : Option Key
  pub reason : AutoAssignReason

-- A row of the pool query: `EligibleUser & { tenant_id }`.
pub record EligibleUser : Type 0 where
  pub user_id : Key
  pub weight : ℕ
  pub role_name : Key
  pub tenant_id : Key
  pub department_ok : Bool

-- The JOIN and WHERE clauses of the pool query, over one row of each table.
pub in_pool : Key → Key → Mapping → Weight → User → Role → Organization → CampaignType → Bool
in_pool org_id type_id uom w u ur o ct =
    w.user_org_mapping_id == uom.id
    && w.campaign_type_id == type_id
    && u.id == uom.user_id
    && ur.id == uom.role_id
    && o.id == uom.org_id
    && ct.id == w.campaign_type_id
    && uom.org_id == org_id
    && uom.is_active
    && u.is_active
    && not u.is_deleted
    && ltb 0 w.weight
    && ltb lms_rank_read_only ur.rank
    && ltb ur.rank lms_rank_admin

-- ur.department_id IS NOT NULL AND ct.department_id IS NOT DISTINCT FROM ur.department_id
pub department_ok : Role → CampaignType → Bool
department_ok ur ct = is_some ur.department_id && same ct.department_id ur.department_id

pub pool_rows : Db → Key → Key → List EligibleUser
pool_rows db org_id type_id = do
  uom ← db.user_org_mapping
  w ← db.lead_assignment_weights
  u ← db.users
  ur ← db.user_roles
  o ← db.organizations
  ct ← db.campaign_types
  only_if (in_pool org_id type_id uom w u ur o ct) (
      record {
        user_id = uom.user_id;
        weight = w.weight;
        role_name = ur.name;
        tenant_id = o.tenant_id;
        department_ok = department_ok ur ct;
      }
      ∷ [])

-- A JavaScript Set of the names, in order of first appearance.
unfoldable pub distinct : List Key → List Key
distinct [] = []
distinct (x ∷ xs) = x ∷ filter (λ y. not (y == x)) (distinct xs)

-- The open leads of the pool, as the list of their owners.
pub is_open_in_pool : Key → Key → Lead → Stage → Bool
is_open_in_pool org_id type_id ml ls =
    column_is ml.stage_id ls.id
    && ml.org_id == org_id
    && column_is ml.campaign_type_id type_id
    && ml.is_active
    && not ml.is_deleted
    && not ls.is_terminated
    && is_some ml.assigned_user_id

pub open_lead_owners : Db → Key → Key → List Key
open_lead_owners db org_id type_id = do
  ml ← db.marketing_leads
  ls ← db.lead_stage
  only_if (is_open_in_pool org_id type_id ml ls) (or_else ml.assigned_user_id 0 ∷ [])

-- `countByUser.get(user) ?? 0`: COUNT(*) grouped by owner.
pub open_count : List Key → Key → ℕ
open_count owners user = length (filter (λ o. o == user) owners)

pub open_sum : List Key → List EligibleUser → ℕ
open_sum owners [] = 0
open_sum owners (u ∷ us) = open_count owners u.user_id + open_sum owners us

pub total_open : List Key → List EligibleUser → ℕ
unfolding open_sum
total_open owners rows = open_sum owners rows + 1

-- `(weight / 100) * totalOpen - current` and its comparisons by > and ===. The laws are those of
-- finite doubles: > is irreflexive and respects ===, and what is not above b is not above what is.
pub record Deficits : Type 1 where
  pub Deficit : Type 0
  pub of : ℕ → ℕ → ℕ → Deficit
  pub gt : Deficit → Deficit → Bool
  pub eq : Deficit → Deficit → Bool
  pub gt_irrefl : (a : Deficit) → gt a a ≡ false
  pub gt_eq : (a b c : Deficit) → eq a b ≡ true → gt c a ≡ gt c b
  pub gt_down : (b c d : Deficit) → gt c b ≡ false → gt d b ≡ true → gt c d ≡ false

module _ (arithmetic : Deficits) where
  open arithmetic use {Deficit, of, gt, eq}

  -- `bestDeficit` starts at -Infinity, which is `none`.
  pub beats : Deficit → Option Deficit → Bool
  beats d none = true
  beats d (some best) = gt d best

  pub ties : Deficit → Option Deficit → Bool
  ties d none = false
  ties d (some best) = eq d best

  pub deficit : ℕ → List Key → EligibleUser → Deficit
  deficit total owners u = of u.weight total (open_count owners u.user_id)

  -- One round of the loop over the eligible rows.
  pub consider : ℕ → List Key → Option Deficit → List Key → EligibleUser → Option Deficit × List Key
  consider total owners best candidates u =
      let d = deficit total owners u in
      if beats d best
      then (some d, u.user_id ∷ [])
      else if ties d best
      then (best, candidates ++ u.user_id ∷ [])
      else (best, candidates)

  pub scan :
      ℕ → List Key → Option Deficit → List Key → List EligibleUser → Option Deficit × List Key
  scan total owners best candidates [] = (best, candidates)
  scan total owners best candidates (u ∷ us) =
      let (best', candidates') = consider total owners best candidates u in
      scan total owners best' candidates' us

  pub candidates_of : List Key → List EligibleUser → List Key
  candidates_of owners rows = (scan (total_open owners rows) owners none [] rows).1

-- `Math.floor(Math.random() * n)` is the parameter `draw n`.
unfoldable pub pick_from : (ℕ → ℕ) → List Key → Option Key
pick_from draw candidates = get_elem? candidates (draw (length candidates))

-- lmsCapableRoles: the distinct role names that hold the LMS capability in the tenant.
pub lms_capable_roles : (Key → Key → Bool) → Key → List EligibleUser → List Key
lms_capable_roles has_lms tenant_id rows =
    filter (has_lms tenant_id) (distinct (map (λ u. u.role_name) rows))

-- The rows whose role holds the LMS capability in the tenant of the first row.
pub capable_rows : (Key → Key → Bool) → List EligibleUser → List EligibleUser
capable_rows has_lms [] = []
capable_rows has_lms (r ∷ rs) =
    let roles = lms_capable_roles has_lms r.tenant_id (r ∷ rs) in
    filter (λ u. contains roles u.role_name) (r ∷ rs)

abbrev unassigned : AutoAssignReason → AutoAssignResult
unassigned reason = record { user_id = none; reason = reason }

module _ (has_lms : Key → Key → Bool) (arithmetic : Deficits) (draw : ℕ → ℕ) where
  -- The part after the pool query; `owners` are the owners of the pool's open leads.
  pub pick_among : List Key → List EligibleUser → AutoAssignResult
  pick_among owners rows =
      let department_rows = filter (λ r. r.department_ok) rows in
      let eligible_rows = capable_rows has_lms department_rows in
      if is_empty rows
      then unassigned no_weighted_users
      else if is_empty department_rows
      then unassigned no_department_match
      else if is_empty eligible_rows
      then unassigned no_capable_users
      else record {
        user_id = pick_from draw (candidates_of arithmetic owners eligible_rows);
        reason = assigned;
      }

  pub resolve_auto_assigned_user : Db → Key → Option Key → AutoAssignResult
  resolve_auto_assigned_user db org_id none = unassigned no_campaign_type
  resolve_auto_assigned_user db org_id (some type_id) =
      pick_among (open_lead_owners db org_id type_id) (pool_rows db org_id type_id)
