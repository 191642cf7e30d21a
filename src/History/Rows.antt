-- ===== src/History/Rows.antt =====
-- Which leads the report shows to whom.
use Prim.Native.String.{String}
use msq_lms.Base.{
  ℕ, ◌≡◌, ◌≢◌, refl, sym, subst, Bool, true, false, not, ◌&&◌, Option, none, some, List, [], ◌∷◌,
  Memᴰ, arith, any, ◌==◌, Bool-cases, inl, inr, mem-filter, contains, is_empty,
}
use msq_lms.Errors.{ok, ok-injective}
use msq_lms.Db.{Key, Organization, Lead, Db}
use msq_lms.Authz.{
  LmsRanks, LeadsHistoryScope, none_scope, team_scope, org_scope, tenant_scope, all_scope,
  get_rules_for_tenant, can_view_unassigned_leads, get_leads_history_assigned_to_scope,
}
use msq_lms.Assign.{RoleTxContext, get_covered_org_ids}
use msq_lms.History.{
  LeadsHistoryParams, LeadsHistoryFilters, UnassignedMode, exclude_mode, include_mode, only_mode,
  parse_assigned_to, mode_for, is_only, wide_filters, filters_for, column_in, if_any, assignee_ok,
  org_ok, is_history_row, list_assignments_filtered, list_leads_history,
}

-- The filters never ask for unassigned leads alone and for users at once.
filters_consistent :
    (scope : LeadsHistoryScope) (ctx : RoleTxContext) (params : LeadsHistoryParams) (can_see : Bool)
    (covered : List Key)
    → (is_only (filters_for scope ctx params can_see covered).unassigned_mode
        && not (is_empty (filters_for scope ctx params can_see covered).user_ids))
      ≡ false
unfolding filters_for wide_filters is_only
filters_consistent none_scope ctx params can_see covered = refl
filters_consistent team_scope ctx params can_see covered = ground arith
filters_consistent org_scope ctx params can_see covered = ground arith
filters_consistent tenant_scope ctx params can_see covered = ground arith
filters_consistent all_scope ctx params can_see covered = ground arith

mode_for-include :
    (raw : LeadsHistoryParams) (can_see : Bool)
    → mode_for (parse_assigned_to raw.assigned_to can_see) can_see ≢ exclude_mode
    → can_see ≡ true
unfolding mode_for parse_assigned_to
mode_for-include raw can_see h = ground arith

assignee_ok-none :
    (mode : UnassignedMode) (users : List Key)
    → assignee_ok mode users none ≡ true
    → mode ≢ exclude_mode
unfolding assignee_ok
assignee_ok-none exclude_mode users h = cc
assignee_ok-none include_mode users h = λ e. cc
assignee_ok-none only_mode users h = λ e. cc

-- An unassigned lead passes the filters of nobody who may not see unassigned leads.
unassigned_seen :
    (scope : LeadsHistoryScope) (ctx : RoleTxContext) (params : LeadsHistoryParams) (can_see : Bool)
    (covered : List Key)
    → (filters_for scope ctx params can_see covered).unassigned_mode ≢ exclude_mode
    → can_see ≡ true
unfolding filters_for wide_filters
unassigned_seen none_scope ctx params can_see covered h = absurd (h refl)
unassigned_seen team_scope ctx params can_see covered h = mode_for-include params can_see h
unassigned_seen org_scope ctx params can_see covered h = mode_for-include params can_see h
unassigned_seen tenant_scope ctx params can_see covered h = mode_for-include params can_see h
unassigned_seen all_scope ctx params can_see covered h = mode_for-include params can_see h

pub history_row-parts :
    (f : LeadsHistoryFilters) (db : Db) (l : Lead)
    → is_history_row f db l ≡ true
    → (assignee_ok f.unassigned_mode f.user_ids l.assigned_user_id ≡ true)
      × (org_ok f.org_ids l.org_id ≡ true)
      × (l.is_deleted ≡ false)
      × (l.superseded_by ≡ none)
unfolding is_history_row
history_row-parts f db l h = (ground arith, ground arith, ground arith, ground arith)

own_assignee :
    (u : Key) (assignee : Option Key)
    → assignee_ok exclude_mode (u ∷ []) assignee ≡ true
    → assignee ≡ some u
unfolding assignee_ok column_in if_any
own_assignee u none h = cc
own_assignee u (some v) h = ground arith

org_ok-contains :
    (k : Key) (keys : List Key) (org_id : Key)
    → org_ok (some (k ∷ keys)) org_id ≡ true
    → contains (k ∷ keys) org_id ≡ true
unfolding org_ok if_any
org_ok-contains k keys org_id h = ground arith

module _ (sees : RoleTxContext → Lead → Bool) (is_tenant_wide_role : String → Bool)
    (ranks : LmsRanks) (ctx : RoleTxContext) (rank : ℕ) (params : LeadsHistoryParams)
    (db : Db) where
  abbrev pub scope : LeadsHistoryScope
  scope =
      get_leads_history_assigned_to_scope is_tenant_wide_role
        (get_rules_for_tenant ranks ctx.tenant_id) rank ctx.role

  abbrev pub filters : LeadsHistoryFilters
  filters =
      filters_for scope ctx params
        (can_view_unassigned_leads (get_rules_for_tenant ranks ctx.tenant_id) rank)
        (get_covered_org_ids db ctx)

  pub filtered-mem :
      (f : LeadsHistoryFilters) (rows : List Lead) {l : Lead}
      → list_assignments_filtered sees ctx f db ≡ ok rows
      → Memᴰ l rows
      → Memᴰ l db.marketing_leads × (sees ctx l ≡ true) × (is_history_row f db l ≡ true)
  unfolding list_assignments_filtered
  filtered-mem f rows {l} h m =
      elim (Bool-cases (is_only f.unassigned_mode && not (is_empty f.user_ids))) [
        | inl e ↦ let h' = rw e at h in cc
        | inr e ↦
            let same_rows = ok-injective (rw e at h) in
            let test = λ (ml : Lead).
              sees ctx ml
              && is_history_row f db ml
              && any (λ (o : Organization). o.id == ml.org_id) db.organizations in
            let (listed, t) =
              mem-filter test db.marketing_leads (subst (λ xs. Memᴰ l xs) (sym same_rows) m) in
            (listed, ground arith, ground arith)
      ]

  -- The report returns for every request: the statement's guard against a contradictory filter is
  -- never met.
  pub list_leads_history_returns :
      (rows : List Lead) × (list_leads_history sees is_tenant_wide_role ranks ctx rank params db
        ≡ ok rows)
  unfolding list_leads_history list_assignments_filtered
  list_leads_history_returns =
      rw
        (filters_consistent scope ctx params
          (can_view_unassigned_leads (get_rules_for_tenant ranks ctx.tenant_id) rank)
          (get_covered_org_ids db ctx))
        (_, refl)

  -- A lead without an assignee is shown only to an actor whose rank may see unassigned leads.
  pub list_leads_history_unassigned :
      (rows : List Lead) (l : Lead)
      → list_leads_history sees is_tenant_wide_role ranks ctx rank params db ≡ ok rows
      → Memᴰ l rows
      → l.assigned_user_id ≡ none
      → can_view_unassigned_leads (get_rules_for_tenant ranks ctx.tenant_id) rank ≡ true
  unfolding list_leads_history
  list_leads_history_unassigned rows l h m free =
      let (_, _, row) = filtered-mem filters rows h m in
      let passes = (history_row-parts filters db l row).0 in
      unassigned_seen scope ctx params _ (get_covered_org_ids db ctx) (
        assignee_ok-none filters.unassigned_mode filters.user_ids
          (subst (λ o. assignee_ok filters.unassigned_mode filters.user_ids o ≡ true) free passes))

  -- An actor below the team threshold, whose role is not tenant-wide, is shown their own leads of
  -- the branch they are in, and no others, whatever the request asks for.
  pub list_leads_history_own :
      (rows : List Lead) (l : Lead)
      → scope ≡ none_scope
      → list_leads_history sees is_tenant_wide_role ranks ctx rank params db ≡ ok rows
      → Memᴰ l rows
      → (l.assigned_user_id ≡ some ctx.user_id) × (l.org_id ≡ ctx.org_id)
  unfolding list_leads_history filters_for
  list_leads_history_own rows l e h m =
      let (_, _, row) =
        filtered-mem
          (filters_for none_scope ctx params
            (can_view_unassigned_leads (get_rules_for_tenant ranks ctx.tenant_id) rank)
            (get_covered_org_ids db ctx))
          rows (rw e at h) m in
      let (by, at_org, _, _) = history_row-parts _ db l row in
      (
        own_assignee ctx.user_id l.assigned_user_id by,
        (let c = org_ok-contains ctx.org_id [] l.org_id at_org in ground arith),
      )
