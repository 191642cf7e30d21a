-- ===== src/Assign/Bulk.antt =====
-- Bulk assignment: `bulkAssignLeads` of assignments.service.ts with its statements.
pub mod Done
pub mod Tests
use Prim.Native.String.{String}
use msq_lms.Base.{
  ℕ, Bool, true, false, not, ◌&&◌, Option, none, some, List, [], ◌∷◌, map, ◌==◌, if◌then◌else◌,
  same, is_none, filter, any, contains, length,
}
use msq_lms.Errors.{bad_request, not_found, Result, ok, err, ◌>>=◌ as ◌>=>◌}
use msq_lms.Db.{Key, Lead, Db}
use msq_lms.AutoAssign.{distinct}
use msq_lms.Authz.{LmsRanks, CapabilityHolder}
use msq_lms.Assign.{
  RoleTxContext, elevated, write_ctx_for_org, checked_target, get_user_for_assignment, update_leads,
}

pub record BulkResult : Type 0 where
  pub updated : ℕ
  pub skipped : List Key

module _ (is_tenant_wide_role : String → Bool) (sees : RoleTxContext → Lead → Bool)
    (ranks : LmsRanks) where
  -- `getLeadsForBulkAssignment`
  pub is_selected : RoleTxContext → List Key → Lead → Bool
  is_selected ctx lead_ids ml =
      contains lead_ids ml.id && not ml.is_deleted && is_none ml.superseded_by && sees ctx ml

  pub selected_leads : RoleTxContext → List Key → Db → List Lead
  selected_leads ctx lead_ids db = filter (is_selected ctx lead_ids) db.marketing_leads

  -- The WHERE clause of the update.
  pub is_bulk_row : RoleTxContext → List Key → Key → Lead → Bool
  is_bulk_row ctx lead_ids assigned_to ml =
      contains lead_ids ml.id
      && not ml.is_deleted
      && not (same ml.assigned_user_id (some assigned_to))
      && sees ctx ml

  pub bulk_update : RoleTxContext → List Key → Key → Db → BulkResult × Db
  bulk_update tx lead_ids assigned_to db =
      let updated =
        map (λ l. l.id) (filter (is_bulk_row tx lead_ids assigned_to) db.marketing_leads) in
      (
        record {
          updated = length updated;
          skipped = filter (λ id. not (contains updated id)) lead_ids;
        },
        update_leads is_tenant_wide_role sees ranks (is_bulk_row tx lead_ids assigned_to)
            (some assigned_to) db,
      )

  -- From the branch of the selection on.
  pub bulk_in_branch :
      CapabilityHolder → ℕ → RoleTxContext → List Key → Key → Key → Db → Result (BulkResult × Db)
  bulk_in_branch can actor_rank ctx lead_ids assigned_to org_id db =
      write_ctx_for_org db ctx org_id >=> λ tx.
      checked_target is_tenant_wide_role sees ranks can actor_rank ctx
        (get_user_for_assignment is_tenant_wide_role sees ranks db tx assigned_to org_id)
      >=> λ user. ok (bulk_update tx lead_ids assigned_to db)

  pub bulk_selected :
      CapabilityHolder
      → ℕ
      → RoleTxContext
      → List Key
      → Key
      → List Lead
      → Db
      → Result (BulkResult × Db)
  bulk_selected can actor_rank ctx lead_ids assigned_to [] db = err bad_request
  bulk_selected can actor_rank ctx lead_ids assigned_to (first_lead ∷ leads) db =
      if any (λ (l : Lead). not (l.org_id == first_lead.org_id)) (first_lead ∷ leads)
      then err bad_request
      else bulk_in_branch can actor_rank ctx lead_ids assigned_to first_lead.org_id db

  pub bulk_assign_leads :
      CapabilityHolder → ℕ → RoleTxContext → List Key → Key → Db → Result (BulkResult × Db)
  bulk_assign_leads can actor_rank ctx ids assigned_to db =
      let lead_ids = distinct ids in
      let leads = selected_leads (elevated ctx) lead_ids db in
      if not (length leads == length lead_ids)
      then err not_found
      else bulk_selected can actor_rank ctx lead_ids assigned_to leads db
