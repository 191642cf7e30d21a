-- ===== src/Assign/Writes.antt =====
-- What an assignment, a reassignment and an unassignment leave in the table of leads.
use Prim.Native.String.{String}
use mathlib.Core.List.Memᴰ
use msq_lms.Base.{
  ℕ, ◌≡◌, sym, ap, Bool, true, false, Option, none, some, [], ◌∷◌, Memᴰ, arith, ◌==◌, not, ◌&&◌,
  mem->>=, mem-only_if, first-mem,
}
use msq_lms.Errors.{ok, err, conflict, not_found, >>=-ok, ok-injective}
use msq_lms.Db.{Key, Lead, Organization, Db}
use msq_lms.Authz.{LmsRanks, CapabilityHolder}
use msq_lms.Assign.{
  RoleTxContext, elevated, found_or_throw, get_lead_org_id, is_unassigned_lead, is_lead,
  create_assignment, reassign_lead, unassign_lead,
}
use msq_lms.Assign.Coverage.{Covered, write_ctx_for_org-Covered}
use msq_lms.Assign.Target.{CanTake, checked_target-CanTake}
use msq_lms.Assign.Update.{Updated, update_or_throw-Updated}

module _ (is_tenant_wide_role : String → Bool) (sees : RoleTxContext → Lead → Bool)
    (ranks : LmsRanks) where
  found_or_throw-ok :
      {A : Type 0} (found : Option A) {a : A} → found_or_throw found ≡ ok a → found ≡ some a
  unfolding found_or_throw
  found_or_throw-ok none h = cc
  found_or_throw-ok (some a) h = ap some (ok-injective h)

  -- The lead is one of the caller's tenant, and the branch is the lead's.
  pub record LeadOf (db : Db) (ctx : RoleTxContext) (lead_id org_id : Key) : Type 0 where
    pub lead : Lead
    pub listed : Memᴰ lead db.marketing_leads
    pub its_id : lead.id ≡ lead_id
    pub its_branch : lead.org_id ≡ org_id
    pub kept : lead.is_deleted ≡ false
    pub branch : Organization
    pub branch_listed : Memᴰ branch db.organizations
    pub branch_id : branch.id ≡ org_id
    pub same_tenant : branch.tenant_id ≡ ctx.tenant_id

  get_lead_org_id-LeadOf :
      (db : Db) (ctx : RoleTxContext) (lead_id : Key) {org_id : Key}
      → get_lead_org_id is_tenant_wide_role sees ranks db ctx lead_id ≡ some org_id
      → LeadOf db ctx lead_id org_id
  unfolding get_lead_org_id
  get_lead_org_id-LeadOf db ctx lead_id {org_id} h =
      let (ml, m, k) = mem->>= db.marketing_leads _ (first-mem _ h) in
      let (o, mo, j) = mem->>= db.organizations _ k in
      let (test, i) =
        mem-only_if
          (o.id == ml.org_id
            && ml.id == lead_id
            && not ml.is_deleted
            && o.tenant_id == ctx.tenant_id
            && sees (elevated ctx) ml)
          (ml.org_id ∷ []) j in
      let e : org_id ≡ ml.org_id = Memᴰ.eq_of_singleton i in
      record {
        lead = ml;
        listed = m;
        its_id = ground arith;
        its_branch = sym e;
        kept = ground arith;
        branch = o;
        branch_listed = mo;
        branch_id = ground (arith, e);
        same_tenant = ground arith;
      }

  -- What the checks that the three paths share establish before they write.
  pub record Checked (db : Db) (ctx : RoleTxContext) (lead_id org_id : Key) : Type 0 where
    pub lead_of : LeadOf db ctx lead_id org_id
    pub covered : Covered db ctx org_id

  -- The lead was free, and is not deleted.
  pub record FreeLead (lead_id : Key) (l : Lead) : Type 0 where
    pub its_id : l.id ≡ lead_id
    pub free : l.assigned_user_id ≡ none
    pub kept : l.is_deleted ≡ false

  pub record KeptLead (lead_id : Key) (l : Lead) : Type 0 where
    pub its_id : l.id ≡ lead_id
    pub kept : l.is_deleted ≡ false

  is_unassigned_lead-FreeLead :
      (ctx : RoleTxContext) (lead_id : Key) (l : Lead)
      → is_unassigned_lead is_tenant_wide_role sees ranks ctx lead_id l ≡ true
      → FreeLead lead_id l
  unfolding is_unassigned_lead
  is_unassigned_lead-FreeLead ctx lead_id l h = record {
    its_id = ground arith;
    free = ground arith;
    kept = ground arith;
  }

  is_lead-KeptLead :
      (ctx : RoleTxContext) (lead_id : Key) (l : Lead)
      → is_lead is_tenant_wide_role sees ranks ctx lead_id l ≡ true
      → KeptLead lead_id l
  unfolding is_lead
  is_lead-KeptLead ctx lead_id l h = record { its_id = ground arith; kept = ground arith }

  module _ (can : CapabilityHolder) (actor_rank : ℕ) (ctx : RoleTxContext)
      (lead_id assigned_to : Key) (db db' : Db) where
    -- An assignment that returns has given a free lead of the caller's tenant, in a branch that the
    -- caller covers, to an active member of that branch below the admins whom the caller may assign
    -- to; no other lead and no other table has changed.
    pub create_assignment-Updated :
        create_assignment is_tenant_wide_role sees ranks can actor_rank ctx lead_id assigned_to db
          ≡ ok db'
        → (org_id : Key) × Checked db ctx lead_id org_id
          × CanTake is_tenant_wide_role sees ranks db can actor_rank ctx.user_id org_id assigned_to
          × Updated (FreeLead lead_id) (some assigned_to) db db'
    unfolding create_assignment
    create_assignment-Updated h =
        let (org_id, e1, h1) = >>=-ok _ _ h in
        let (tx, e2, h2) = >>=-ok _ _ h1 in
        let (user, e3, h3) = >>=-ok _ _ h2 in
        (
          org_id,
          record {
            lead_of = get_lead_org_id-LeadOf db ctx lead_id (found_or_throw-ok _ e1);
            covered = write_ctx_for_org-Covered db ctx e2;
          },
          checked_target-CanTake is_tenant_wide_role sees ranks db can actor_rank ctx tx org_id
              assigned_to user e3,
          update_or_throw-Updated is_tenant_wide_role sees ranks
              (is_unassigned_lead is_tenant_wide_role sees ranks tx lead_id) (FreeLead lead_id)
              (some assigned_to) (err conflict) db db' (is_unassigned_lead-FreeLead tx lead_id)
              (λ e. cc) h3,
        )

    -- The same of a reassignment, whoever held the lead before.
    pub reassign_lead-Updated :
        reassign_lead is_tenant_wide_role sees ranks can actor_rank ctx lead_id assigned_to db
          ≡ ok db'
        → (org_id : Key) × Checked db ctx lead_id org_id
          × CanTake is_tenant_wide_role sees ranks db can actor_rank ctx.user_id org_id assigned_to
          × Updated (KeptLead lead_id) (some assigned_to) db db'
    unfolding reassign_lead
    reassign_lead-Updated h =
        let (org_id, e1, h1) = >>=-ok _ _ h in
        let (tx, e2, h2) = >>=-ok _ _ h1 in
        let (user, e3, h3) = >>=-ok _ _ h2 in
        (
          org_id,
          record {
            lead_of = get_lead_org_id-LeadOf db ctx lead_id (found_or_throw-ok _ e1);
            covered = write_ctx_for_org-Covered db ctx e2;
          },
          checked_target-CanTake is_tenant_wide_role sees ranks db can actor_rank ctx tx org_id
              assigned_to user e3,
          update_or_throw-Updated is_tenant_wide_role sees ranks
              (is_lead is_tenant_wide_role sees ranks tx lead_id) (KeptLead lead_id)
              (some assigned_to) (err not_found) db db' (is_lead-KeptLead tx lead_id) (λ e. cc) h3,
        )

    -- An unassignment that returns has taken the assignee from a lead of the caller's tenant in a
    -- branch that the caller covers; no other lead and no other table has changed.
    pub unassign_lead-Updated :
        unassign_lead is_tenant_wide_role sees ranks ctx lead_id db ≡ ok db'
        → (org_id : Key) × Checked db ctx lead_id org_id × Updated (KeptLead lead_id) none db db'
    unfolding unassign_lead
    unassign_lead-Updated h =
        let (org_id, e1, h1) = >>=-ok _ _ h in
        let (tx, e2, h2) = >>=-ok _ _ h1 in
        (
          org_id,
          record {
            lead_of = get_lead_org_id-LeadOf db ctx lead_id (found_or_throw-ok _ e1);
            covered = write_ctx_for_org-Covered db ctx e2;
          },
          update_or_throw-Updated is_tenant_wide_role sees ranks
              (is_lead is_tenant_wide_role sees ranks tx lead_id) (KeptLead lead_id) none
              (err not_found) db db' (is_lead-KeptLead tx lead_id) (λ e. cc) h2,
        )
