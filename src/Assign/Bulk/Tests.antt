-- ===== src/Assign/Bulk/Tests.antt =====
-- User 12 of the sample branch assigns lead 71, named twice, to user 11.
use msq_lms.Base.{refl, [], ◌∷◌}
use msq_lms.Authz.{can_assign_to_user}
use msq_lms.AutoAssign.{distinct}
use msq_lms.Authz.Tests.{sample_ranks, assigns_to_peers}
use msq_lms.Assign.{
  shares_a_branch, is_target_row, target_rows, highest_of, get_user_for_assignment, checked_target,
  write_ctx_for_org, set_assignee, update_leads,
}
use msq_lms.Assign.Tests.{nobody_wide, sees_all, actor, free_db, taken_db}
use msq_lms.Assign.Bulk.{
  is_selected, selected_leads, is_bulk_row, bulk_update, bulk_in_branch, bulk_selected,
  bulk_assign_leads,
}
use msq_lms.Assign.Bulk.Done.{BulkDone, bulk_assign_leads-Done}

run : Unit {0}
unfolding bulk_assign_leads bulk_selected bulk_in_branch bulk_update is_bulk_row selected_leads
    is_selected update_leads set_assignee checked_target get_user_for_assignment highest_of
    target_rows is_target_row shares_a_branch write_ctx_for_org can_assign_to_user distinct
run = tt

bulk_assign_leads-Done_example :
    BulkDone nobody_wide sees_all sample_ranks assigns_to_peers 40 actor
      (71 ∷ 71 ∷ [])
      11
      free_db
      (record { updated = 1; skipped = [] })
      taken_db
unfolding run
bulk_assign_leads-Done_example =
    bulk_assign_leads-Done nobody_wide sees_all sample_ranks assigns_to_peers 40 actor
      (71 ∷ 71 ∷ []) 11 free_db (record { updated = 1; skipped = [] }) taken_db refl
