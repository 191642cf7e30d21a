-- ===== src/Assign/Tests.antt =====
-- User 12 of the sample branch hands leads to user 11.
use Prim.Native.String.{String}
use msq_lms.Base.{◌≡◌, ◌↔◌, refl, Bool, true, false, none, some, [], ◌∷◌}
use msq_lms.Errors.{ok}
use msq_lms.Db.{Key, Lead, Db}
use msq_lms.AutoAssign.{distinct}
use msq_lms.Authz.{can_assign_to_user}
use msq_lms.Authz.Tests.{sample_ranks, assigns_to_peers}
use msq_lms.Intake.Tests.{with_leads, lead_71}
use msq_lms.Assign.{
  RoleTxContext, mapped_org, mapped_org_ids, get_covered_org_ids, lead_write_ctx, write_ctx_for_org,
  found_or_throw, shares_a_branch, is_target_row, target_rows, highest_of, get_user_for_assignment,
  checked_target, get_lead_org_id, set_assignee, update_leads, is_unassigned_lead, is_lead,
  create_assignment, reassign_lead, unassign_lead,
}
use msq_lms.Assign.Coverage.{lead_write_ctx-write_ctx_for_org}
use msq_lms.Assign.Target.{CanTake}
use msq_lms.Assign.Update.{Updated}
use msq_lms.Assign.Writes.{
  Checked, FreeLead, KeptLead, create_assignment-Updated, reassign_lead-Updated,
  unassign_lead-Updated,
}

abbrev pub nobody_wide : String → Bool
nobody_wide role = false

abbrev pub sees_all : RoleTxContext → Lead → Bool
sees_all ctx l = true

abbrev pub actor : RoleTxContext
actor = record {
  user_id = 12;
  org_id = 1;
  tenant_id = 9;
  role = "user";
  tenant_wide = false;
  read_only = false;
}

abbrev free_lead : Lead
free_lead = record (lead_71 true) { assigned_user_id = none }

abbrev pub free_db : Db
free_db = with_leads (free_lead ∷ [])

abbrev pub taken_db : Db
taken_db = with_leads (lead_71 true ∷ [])

run : Unit {0}
unfolding create_assignment reassign_lead unassign_lead is_lead is_unassigned_lead update_leads
    set_assignee get_lead_org_id checked_target get_user_for_assignment highest_of target_rows
    is_target_row shares_a_branch found_or_throw write_ctx_for_org can_assign_to_user
    get_covered_org_ids mapped_org_ids mapped_org distinct
run = tt

create_assignment-Updated_example :
    (org_id : Key) × Checked nobody_wide sees_all sample_ranks free_db actor 71 org_id
    × CanTake nobody_wide sees_all sample_ranks free_db assigns_to_peers 40 12 org_id 11
    × Updated (FreeLead nobody_wide sees_all sample_ranks 71) (some 11) free_db taken_db
unfolding run
create_assignment-Updated_example =
    create_assignment-Updated nobody_wide sees_all sample_ranks assigns_to_peers 40 actor 71 11
      free_db taken_db refl

reassign_lead-Updated_example :
    (org_id : Key) × Checked nobody_wide sees_all sample_ranks free_db actor 71 org_id
    × CanTake nobody_wide sees_all sample_ranks free_db assigns_to_peers 40 12 org_id 11
    × Updated (KeptLead nobody_wide sees_all sample_ranks 71) (some 11) free_db taken_db
unfolding run
reassign_lead-Updated_example =
    reassign_lead-Updated nobody_wide sees_all sample_ranks assigns_to_peers 40 actor 71 11 free_db
      taken_db refl

unassign_lead-Updated_example :
    (org_id : Key) × Checked nobody_wide sees_all sample_ranks taken_db actor 71 org_id
    × Updated (KeptLead nobody_wide sees_all sample_ranks 71) none taken_db free_db
unfolding run
unassign_lead-Updated_example =
    unassign_lead-Updated nobody_wide sees_all sample_ranks assigns_to_peers 40 actor 71 11 taken_db
      free_db refl

lead_write_ctx-write_ctx_for_org_example :
    ((tx : RoleTxContext) × (lead_write_ctx free_db actor 2 ≡ ok tx))
    ↔ ((tx : RoleTxContext) × (write_ctx_for_org free_db actor 2 ≡ ok tx))
lead_write_ctx-write_ctx_for_org_example =
    lead_write_ctx-write_ctx_for_org free_db actor 2 refl refl
