-- ===== src/History.antt =====
-- The Leads History report: `parseAssignedTo` and `listLeadsHistory` of leads-service
-- api/v1/assignments/assignments.service.ts, and `listAssignmentsFiltered` of
-- assignments.repository.ts. The report is the list of the leads that the statement selects: the
-- order, the page and the joined columns are left out, and so are the conditions on dates and on
-- outcomes.
pub mod Rows
pub mod Branches
pub mod Tests
use Prim.Native.String.{String}
use msq_lms.Base.{
  ℕ, Bool, true, false, not, ◌&&◌, ◌||◌, Option, none, some, List, [], ◌∷◌, ◌==◌, if◌then◌else◌,
  column_is, is_none, is_some, filter, any, contains, is_empty, only_if, ◌>>=◌,
}
use msq_lms.Errors.{internal, Result, ok, err}
use msq_lms.Db.{Key, Organization, Stage, Lead, Db}
use msq_lms.Authz.{
  LmsRanks, LeadsHistoryScope, none_scope, team_scope, org_scope, tenant_scope, all_scope,
  get_rules_for_tenant, can_view_unassigned_leads, get_leads_history_assigned_to_scope,
}
use msq_lms.Assign.{RoleTxContext, get_covered_org_ids}

-- An entry of the "assigned to" filter: a user, or the word UNASSIGNED_ASSIGNEE.
pub data Assignee : Type 0 where
  user_id : Key → Assignee
  unassigned : Assignee

pub data UnassignedMode : Type 0 where
  exclude_mode include_mode only_mode : UnassignedMode

-- An absent list is `[]`, which the code does not tell from an empty one.
pub record LeadsHistoryParams : Type 0 where
  pub stage_ids : List Key
  pub source_ids : List Key
  pub campaign_type_ids : List Key
  pub org_ids : List Key
  pub assigned_to : List Assignee
  pub active_only : Bool

pub record LeadsHistoryFilters : Type 0 where
  pub user_ids : List Key
  pub unassigned_mode : UnassignedMode
  pub org_ids : Option (List Key)
  pub stage_ids : List Key
  pub source_ids : List Key
  pub campaign_type_ids : List Key
  pub active_only : Bool

pub record ParsedAssignedTo : Type 0 where
  pub user_ids : List Key
  pub unassigned_requested : Bool

pub user_ids_of : List Assignee → List Key
user_ids_of [] = []
user_ids_of (user_id u ∷ rest) = u ∷ user_ids_of rest
user_ids_of (unassigned ∷ rest) = user_ids_of rest

pub asks_unassigned : List Assignee → Bool
asks_unassigned [] = false
asks_unassigned (user_id u ∷ rest) = asks_unassigned rest
asks_unassigned (unassigned ∷ rest) = true

pub parse_assigned_to : List Assignee → Bool → ParsedAssignedTo
parse_assigned_to raw can_see_unassigned = record {
  user_ids = user_ids_of raw;
  unassigned_requested = can_see_unassigned && asks_unassigned raw;
}

-- `modeFor`, with the default that each of its callers passes.
pub mode_for : ParsedAssignedTo → Bool → UnassignedMode
mode_for sel can_see_unassigned =
    if sel.unassigned_requested
    then if is_empty sel.user_ids then only_mode else include_mode
    else if is_empty sel.user_ids
    then if can_see_unassigned then include_mode else exclude_mode
    else exclude_mode

pub is_only : UnassignedMode → Bool
is_only only_mode = true
is_only include_mode = false
is_only exclude_mode = false

-- What the three wider scopes share.
pub wide_filters : LeadsHistoryParams → Bool → Option (List Key) → LeadsHistoryFilters
wide_filters params can_see_unassigned org_ids =
    let sel = parse_assigned_to params.assigned_to can_see_unassigned in
    let mode = mode_for sel can_see_unassigned in
    record {
      user_ids = if is_only mode then [] else sel.user_ids;
      unassigned_mode = mode;
      org_ids = org_ids;
      stage_ids = params.stage_ids;
      source_ids = params.source_ids;
      campaign_type_ids = params.campaign_type_ids;
      active_only = params.active_only;
    }

-- The branches that the client asks for, among those that the actor covers.
pub narrowed : List Key → List Key → List Key
narrowed asked covered = if is_empty asked then covered else filter (contains covered) asked

pub asked_or_all : List Key → Option (List Key)
asked_or_all asked = if is_empty asked then none else some asked

pub filters_for :
    LeadsHistoryScope → RoleTxContext → LeadsHistoryParams → Bool → List Key → LeadsHistoryFilters
filters_for none_scope ctx params can_see covered = record {
  user_ids = ctx.user_id ∷ [];
  unassigned_mode = exclude_mode;
  org_ids = some (ctx.org_id ∷ []);
  stage_ids = params.stage_ids;
  source_ids = params.source_ids;
  campaign_type_ids = params.campaign_type_ids;
  active_only = params.active_only;
}
filters_for team_scope ctx params can_see covered =
    wide_filters params can_see (some (narrowed params.org_ids covered))
filters_for org_scope ctx params can_see covered =
    wide_filters params can_see (some (narrowed params.org_ids covered))
filters_for tenant_scope ctx params can_see covered =
    wide_filters params can_see (asked_or_all params.org_ids)
filters_for all_scope ctx params can_see covered =
    wide_filters params can_see (asked_or_all params.org_ids)

-- `column = ANY(list)`, on a column that may be NULL.
pub column_in : Option Key → List Key → Bool
column_in none keys = false
column_in (some k) keys = contains keys k

-- A list that is empty adds no condition.
pub if_any : List Key → Bool → Bool
if_any keys condition = is_empty keys || condition

pub assignee_ok : UnassignedMode → List Key → Option Key → Bool
assignee_ok only_mode user_ids assignee = is_none assignee
assignee_ok exclude_mode user_ids assignee =
    is_some assignee && if_any user_ids (column_in assignee user_ids)
assignee_ok include_mode user_ids assignee =
    if_any user_ids (column_in assignee user_ids || is_none assignee)

pub org_ok : Option (List Key) → Key → Bool
org_ok none org_id = true
org_ok (some keys) org_id = if_any keys (contains keys org_id)

-- is_terminated IS DISTINCT FROM TRUE, after the left join.
pub is_terminated_stage : Option Key → Stage → Bool
is_terminated_stage stage_id ls = column_is stage_id ls.id && ls.is_terminated

-- The WHERE clause.
pub is_history_row : LeadsHistoryFilters → Db → Lead → Bool
is_history_row f db ml =
    not ml.is_deleted
    && is_none ml.superseded_by
    && assignee_ok f.unassigned_mode f.user_ids ml.assigned_user_id
    && org_ok f.org_ids ml.org_id
    && if_any f.stage_ids (column_in ml.stage_id f.stage_ids)
    && if_any f.source_ids (column_in ml.source_id f.source_ids)
    && if_any f.campaign_type_ids (column_in ml.campaign_type_id f.campaign_type_ids)
    && (not f.active_only || not (any (is_terminated_stage ml.stage_id) db.lead_stage))

module _ (sees : RoleTxContext → Lead → Bool) where
  pub list_assignments_filtered : RoleTxContext → LeadsHistoryFilters → Db → Result (List Lead)
  list_assignments_filtered ctx f db =
      if is_only f.unassigned_mode && not (is_empty f.user_ids)
      then err internal
      else ok (
          filter
            (λ (ml : Lead).
              sees ctx ml
              && is_history_row f db ml
              && any (λ (o : Organization). o.id == ml.org_id) db.organizations)
            db.marketing_leads)

  pub list_leads_history :
      (String → Bool) → LmsRanks → RoleTxContext → ℕ → LeadsHistoryParams → Db → Result (List Lead)
  list_leads_history is_tenant_wide_role ranks ctx rank params db =
      let rules = get_rules_for_tenant ranks ctx.tenant_id in
      let scope = get_leads_history_assigned_to_scope is_tenant_wide_role rules rank ctx.role in
      list_assignments_filtered ctx
        (filters_for scope ctx params (can_view_unassigned_leads rules rank)
          (get_covered_org_ids db ctx))
        db
