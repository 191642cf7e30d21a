-- ===== src/Assign.antt =====
-- Assigning leads to people: leads-service lib/lead-write-scope.ts and the write paths of
-- api/v1/assignments (assignments.service.ts with assignments.repository.ts). Activity records and
-- published events are left out. Which leads a database role sees under row-level security is
-- decided outside these files: it is the parameter `sees`. The other tables are read as the
-- statements' own WHERE clauses say.
pub mod Coverage
pub mod Target
pub mod Update
pub mod Writes
pub mod Bulk
pub mod Tests
use Prim.Native.String.{String}
use text.Mathlib.Text.{◌==◌ as str_eq}
use msq_lms.Base.{
  ℕ, ◌+◌, Bool, true, false, not, ◌&&◌, ◌||◌, Option, none, some, List, [], ◌∷◌, map, ◌==◌, leb,
  if◌then◌else◌, same, is_none, first, filter, any, contains, only_if, length, is_empty, ◌>>=◌,
}
use msq_lms.Errors.{bad_request, forbidden, not_found, conflict, Result, ok, err, ◌>>=◌ as ◌>=>◌}
use msq_lms.Db.{Key, Organization, User, Role, Mapping, Lead, Db}
use msq_lms.AutoAssign.{distinct}
use msq_lms.Authz.{LmsRanks, CapabilityHolder, can_assign_to_user}

-- RoleTxContext of @platform/db: who acts, and with which reach the statements run.
pub record RoleTxContext : Type 0 where
  pub user_id : Key
  pub org_id : Key
  pub tenant_id : Key
  pub role : String
  pub tenant_wide : Bool
  pub read_only : Bool

-- The context of a read that may see every branch of the tenant.
abbrev pub elevated : RoleTxContext → RoleTxContext
elevated ctx = record ctx { tenant_wide = true; read_only = true }

-- The row of the user that a lead is to be assigned to.
pub record TargetUser : Type 0 where
  pub id : Key
  pub is_active : Bool
  pub rank : ℕ

-- lib/lead-write-scope.ts

-- The branches of the tenant that the actor is actively mapped to.
unfoldable pub mapped_org : RoleTxContext → Mapping → Organization → Bool
mapped_org ctx uom o =
    o.id == uom.org_id
    && not o.is_deleted
    && uom.user_id == ctx.user_id
    && uom.is_active
    && o.tenant_id == ctx.tenant_id

unfoldable pub mapped_org_ids : Db → RoleTxContext → List Key
mapped_org_ids db ctx = distinct (
    db.user_org_mapping >>= λ uom.
    db.organizations >>= λ o. only_if (mapped_org ctx uom o) (uom.org_id ∷ []))

unfoldable pub get_covered_org_ids : Db → RoleTxContext → List Key
get_covered_org_ids db ctx =
    let ids = mapped_org_ids db ctx in if is_empty ids then ctx.org_id ∷ [] else ids

pub lead_write_ctx : Db → RoleTxContext → Key → Result RoleTxContext
lead_write_ctx db ctx lead_org_id =
    if lead_org_id == ctx.org_id
    then ok ctx
    else if str_eq ctx.role "super_admin"
    then ok (record ctx { org_id = lead_org_id })
    else if str_eq ctx.role "tenant_admin"
    then ok (record ctx { org_id = lead_org_id; tenant_wide = true })
    else if contains (get_covered_org_ids db ctx) lead_org_id
    then ok (record ctx { org_id = lead_org_id; tenant_wide = true })
    else err forbidden

-- assignments.service.ts

pub write_ctx_for_org : Db → RoleTxContext → Key → Result RoleTxContext
write_ctx_for_org db ctx org_id =
    if org_id == ctx.org_id
    then ok ctx
    else if contains (get_covered_org_ids db ctx) org_id
    then ok (record ctx { tenant_wide = true })
    else err forbidden

-- `if (!row) throw`
pub found_or_throw : {A : Type 0} → Option A → Result A
found_or_throw none = err not_found
found_or_throw (some a) = ok a

module _ (is_tenant_wide_role : String → Bool) (sees : RoleTxContext → Lead → Bool)
    (ranks : LmsRanks) where
  -- `getUserForAssignment`: the mapping shares a branch with the caller.
  pub shares_a_branch : Db → RoleTxContext → Mapping → Bool
  shares_a_branch db ctx t =
      is_tenant_wide_role ctx.role
      || any (λ (a : Mapping). a.user_id == ctx.user_id && a.org_id == t.org_id && a.is_active)
          db.user_org_mapping

  pub is_target_row : Db → RoleTxContext → Key → Key → User → Mapping → Role → Organization → Bool
  is_target_row db ctx target org_id u t ur o =
      t.user_id == u.id
      && t.is_active
      && ur.id == t.role_id
      && o.id == t.org_id
      && u.id == target
      && not u.is_deleted
      && o.tenant_id == ctx.tenant_id
      && t.org_id == org_id
      && shares_a_branch db ctx t

  pub target_rows : Db → RoleTxContext → Key → Key → List TargetUser
  target_rows db ctx target org_id = db.users >>= λ u. db.user_org_mapping >>= λ t.
      db.user_roles >>= λ ur. db.organizations >>= λ o.
      only_if (is_target_row db ctx target org_id u t ur o)
        (record { id = u.id; is_active = u.is_active; rank = ur.rank } ∷ [])

  -- ORDER BY rank DESC LIMIT 1
  pub highest_of : TargetUser → List TargetUser → TargetUser
  highest_of row [] = row
  highest_of row (r ∷ rs) = if leb r.rank row.rank then highest_of row rs else highest_of r rs

  pub get_user_for_assignment : Db → RoleTxContext → Key → Key → Option TargetUser
  unfolding highest_of
  get_user_for_assignment db ctx target org_id = elim (target_rows db ctx target org_id) [
    | [] ↦ none
    | row ∷ rows ↦ some (highest_of row rows)
  ]

  -- The checks on the target, which every path that assigns makes.
  pub checked_target : CapabilityHolder → ℕ → RoleTxContext → Option TargetUser → Result TargetUser
  checked_target can actor_rank ctx none = err bad_request
  checked_target can actor_rank ctx (some user) =
      if not user.is_active
      then err bad_request
      else if can_assign_to_user ranks can actor_rank user.rank ctx.user_id user.id
      then ok user
      else err forbidden

  pub get_lead_org_id : Db → RoleTxContext → Key → Option Key
  get_lead_org_id db ctx lead_id = first (
      db.marketing_leads >>= λ ml. db.organizations >>= λ o.
      only_if
        (o.id == ml.org_id
          && ml.id == lead_id
          && not ml.is_deleted
          && o.tenant_id == ctx.tenant_id
          && sees (elevated ctx) ml)
        (ml.org_id ∷ []))

  -- UPDATE lms.marketing_leads SET assigned_user_id = … WHERE …, and the rows it returns.
  pub set_assignee : (Lead → Bool) → Option Key → Lead → Lead
  set_assignee test assignee ml = if test ml then record ml { assigned_user_id = assignee } else ml

  pub update_leads : (Lead → Bool) → Option Key → Db → Db
  unfolding set_assignee
  update_leads test assignee db = record db {
    marketing_leads = map (set_assignee test assignee) db.marketing_leads;
  }

  -- The WHERE clauses of the three single updates.
  pub is_unassigned_lead : RoleTxContext → Key → Lead → Bool
  is_unassigned_lead ctx lead_id ml =
      ml.id == lead_id && is_none ml.assigned_user_id && not ml.is_deleted && sees ctx ml

  pub is_lead : RoleTxContext → Key → Lead → Bool
  is_lead ctx lead_id ml = ml.id == lead_id && not ml.is_deleted && sees ctx ml

  -- An update that throws where it matches no row.
  abbrev pub update_or_throw : (Lead → Bool) → Option Key → Result Db → Db → Result Db
  update_or_throw test assignee otherwise db =
      if any test db.marketing_leads then ok (update_leads test assignee db) else otherwise

  pub create_assignment : CapabilityHolder → ℕ → RoleTxContext → Key → Key → Db → Result Db
  create_assignment can actor_rank ctx lead_id assigned_to db =
      found_or_throw (get_lead_org_id db ctx lead_id) >=> λ org_id.
      write_ctx_for_org db ctx org_id >=> λ tx.
      checked_target can actor_rank ctx (get_user_for_assignment db tx assigned_to org_id)
      >=> λ user.
          update_or_throw (is_unassigned_lead tx lead_id) (some assigned_to) (err conflict) db

  pub reassign_lead : CapabilityHolder → ℕ → RoleTxContext → Key → Key → Db → Result Db
  reassign_lead can actor_rank ctx lead_id assigned_to db =
      found_or_throw (get_lead_org_id db ctx lead_id) >=> λ org_id.
      write_ctx_for_org db ctx org_id >=> λ tx.
      checked_target can actor_rank ctx (get_user_for_assignment db tx assigned_to org_id)
      >=> λ user. update_or_throw (is_lead tx lead_id) (some assigned_to) (err not_found) db

  pub unassign_lead : RoleTxContext → Key → Db → Result Db
  unassign_lead ctx lead_id db = found_or_throw (get_lead_org_id db ctx lead_id) >=> λ org_id.
      write_ctx_for_org db ctx org_id >=> λ tx.
      update_or_throw (is_lead tx lead_id) none (err not_found) db
