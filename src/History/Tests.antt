-- ===== src/History/Tests.antt =====
-- The report of the sample branch, which holds one lead, of user 11 or of nobody.
use msq_lms.Base.{ℕ, ◌≡◌, ◌⊎◌, refl, true, Option, none, some, List, [], ◌∷◌, Memᴰ}
use msq_lms.Errors.{ok}
use msq_lms.Db.{Key, Lead}
use msq_lms.AutoAssign.{distinct}
use msq_lms.Authz.{
  default_rules, get_rules_for_tenant, can_view_unassigned_leads,
  get_leads_history_assigned_to_scope,
}
use msq_lms.Authz.Tests.{sample_ranks}
use msq_lms.Intake.Tests.{with_leads, lead_71}
use msq_lms.Assign.{RoleTxContext, mapped_org, mapped_org_ids, get_covered_org_ids}
use msq_lms.Assign.Coverage.{Covered}
use msq_lms.Assign.Tests.{nobody_wide, sees_all, actor, free_db}
use msq_lms.History.{
  LeadsHistoryParams, unassigned, user_ids_of, asks_unassigned, parse_assigned_to, mode_for,
  is_only, wide_filters, narrowed, asked_or_all, filters_for, column_in, if_any, assignee_ok,
  org_ok, is_terminated_stage, is_history_row, list_assignments_filtered, list_leads_history,
}
use msq_lms.History.Rows.{
  filters, list_leads_history_returns, list_leads_history_unassigned, list_leads_history_own,
}
use msq_lms.History.Branches.{list_leads_history-Covered, list_leads_history_uncovered}

abbrev request : LeadsHistoryParams
request = record {
  stage_ids = [];
  source_ids = [];
  campaign_type_ids = [];
  org_ids = 1 ∷ 2 ∷ [];
  assigned_to = unassigned ∷ [];
  active_only = true;
}

run : Unit {0}
unfolding list_leads_history list_assignments_filtered is_history_row is_terminated_stage org_ok
    assignee_ok if_any column_in filters_for asked_or_all narrowed wide_filters is_only mode_for
    parse_assigned_to asks_unassigned user_ids_of get_leads_history_assigned_to_scope
    can_view_unassigned_leads get_rules_for_tenant default_rules get_covered_org_ids mapped_org_ids
    mapped_org distinct
run = tt

-- Branch 2 alone, which the actor does not cover: the leads of branch 1 come back.
shows_branch_1 :
    list_leads_history sees_all nobody_wide sample_ranks actor 40
      (record request { org_ids = 2 ∷ [] })
      free_db
    ≡ ok free_db.marketing_leads
unfolding run
shows_branch_1 = refl

list_leads_history_returns_example :
    (rows : List Lead) × (list_leads_history sees_all nobody_wide sample_ranks actor 40 request
        free_db
      ≡ ok rows)
list_leads_history_returns_example =
    list_leads_history_returns sees_all nobody_wide sample_ranks actor 40 request free_db

list_leads_history_unassigned_example :
    can_view_unassigned_leads (get_rules_for_tenant sample_ranks 9) 40 ≡ true
unfolding run
list_leads_history_unassigned_example =
    list_leads_history_unassigned sees_all nobody_wide sample_ranks actor 40 request free_db
      free_db.marketing_leads (record (lead_71 true) { assigned_user_id = none }) refl
      (Memᴰ.head refl) refl

abbrev user_11 : RoleTxContext
user_11 = record actor { user_id = 11 }

abbrev taken_lead : Lead
taken_lead = lead_71 true

list_leads_history_own_example : (◌≡◌ {A = Option ℕ} (some 11) (some 11)) × (◌≡◌ {A = ℕ} 1 1)
unfolding run
list_leads_history_own_example =
    list_leads_history_own sees_all nobody_wide sample_ranks user_11 20 request
      (with_leads (taken_lead ∷ [])) (taken_lead ∷ []) taken_lead refl refl (Memᴰ.head refl)

list_leads_history-Covered_example :
    Covered free_db actor 1 × ((◌≡◌ {A = List Key} (1 ∷ 2 ∷ []) []) ⊎ Memᴰ {A = Key} 1 (1 ∷ 2 ∷ []))
unfolding run
list_leads_history-Covered_example =
    list_leads_history-Covered sees_all nobody_wide sample_ranks actor 40 request free_db
      free_db.marketing_leads (record (lead_71 true) { assigned_user_id = none }) refl (λ e. cc)
      refl (Memᴰ.head refl)

list_leads_history_uncovered_example :
    list_leads_history sees_all nobody_wide sample_ranks actor 40
      (record request { org_ids = 2 ∷ [] })
      free_db
    ≡ list_assignments_filtered sees_all actor
        (record (filters sees_all nobody_wide sample_ranks actor 40
          (record request { org_ids = 2 ∷ [] })
          free_db) { org_ids = none })
        free_db
unfolding run
list_leads_history_uncovered_example =
    list_leads_history_uncovered sees_all nobody_wide sample_ranks actor 40
      (record request { org_ids = 2 ∷ [] }) free_db refl refl
