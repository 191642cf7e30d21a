-- ===== src/History/Branches.antt =====
-- The branches whose leads the report shows to an actor who sees the branches they cover.
use Prim.Native.String.{String}
use msq_lms.Base.{
  ℕ, ◌≡◌, ◌≢◌, refl, subst, Bool, true, none, some, List, [], Memᴰ, any-mem, ◌==◌, ==_iff,
  Bool-cases, inl, inr, ◌⊎◌, mem-filter, contains, is_empty, is_empty-nil,
}
use msq_lms.Errors.{ok}
use msq_lms.Db.{Key, Lead, Db}
use msq_lms.Authz.{LmsRanks, org_scope, get_rules_for_tenant, can_view_unassigned_leads}
use msq_lms.Assign.{RoleTxContext, get_covered_org_ids}
use msq_lms.Assign.Coverage.{Covered, get_covered_org_ids-Covered}
use msq_lms.History.{
  LeadsHistoryParams, wide_filters, narrowed, filters_for, if_any, org_ok, is_history_row,
  list_assignments_filtered, list_leads_history,
}
use msq_lms.History.Rows.{scope, filters, filtered-mem, history_row-parts}

narrowed-mem :
    (asked covered : List Key) {x : Key}
    → Memᴰ x (narrowed asked covered)
    → Memᴰ x covered × ((asked ≡ []) ⊎ Memᴰ x asked)
unfolding narrowed
narrowed-mem asked covered {x} m = elim (Bool-cases (is_empty asked)) [
  | inl e ↦ (rw e at m, inl (is_empty-nil asked e))
  | inr e ↦
      let (k, h) = mem-filter (contains covered) asked (rw e at m) in
      let (y, j, f) = any-mem (λ y. y == x) covered h in
      (subst (λ z. Memᴰ z covered) ((==_iff y x).0 f) j, inr k)
]

org_ok-mem :
    (keys : List Key) (org_id : Key)
    → keys ≢ []
    → org_ok (some keys) org_id ≡ true
    → Memᴰ org_id keys
unfolding org_ok if_any
org_ok-mem keys org_id some_key h = elim (Bool-cases (is_empty keys)) [
  | inl e ↦ absurd (some_key (is_empty-nil keys e))
  | inr e ↦
      let (y, j, f) = any-mem (λ y. y == org_id) keys (rw e at h) in
      subst (λ z. Memᴰ z keys) ((==_iff y org_id).0 f) j
]

module _ (sees : RoleTxContext → Lead → Bool) (is_tenant_wide_role : String → Bool)
    (ranks : LmsRanks) (ctx : RoleTxContext) (rank : ℕ) (params : LeadsHistoryParams)
    (db : Db) where
  -- Where the request asks for no branch, or for one at least that the actor covers, every lead
  -- that is shown to an actor of the branch scope is in a branch that the actor covers, and in one
  -- that is asked for if any is.
  pub list_leads_history-Covered :
      (rows : List Lead) (l : Lead)
      → scope sees is_tenant_wide_role ranks ctx rank params db ≡ org_scope
      → narrowed params.org_ids (get_covered_org_ids db ctx) ≢ []
      → list_leads_history sees is_tenant_wide_role ranks ctx rank params db ≡ ok rows
      → Memᴰ l rows
      → Covered db ctx l.org_id × ((params.org_ids ≡ []) ⊎ Memᴰ l.org_id params.org_ids)
  unfolding list_leads_history filters_for wide_filters
  list_leads_history-Covered rows l e some_branch h m =
      let f =
        filters_for org_scope ctx params
          (can_view_unassigned_leads (get_rules_for_tenant ranks ctx.tenant_id) rank)
          (get_covered_org_ids db ctx) in
      let (_, _, row) =
        filtered-mem sees is_tenant_wide_role ranks ctx rank params db f rows (rw e at h) m in
      let (_, at_org, _, _) = history_row-parts f db l row in
      let (c, asked) = narrowed-mem params.org_ids (get_covered_org_ids db ctx) (
        org_ok-mem (narrowed params.org_ids (get_covered_org_ids db ctx)) l.org_id some_branch
          at_org) in
      (get_covered_org_ids-Covered db ctx c, asked)

  -- Where every branch that the request asks for is one that the actor does not cover, the report
  -- is not empty for that: it is the report without any condition on branches.
  pub list_leads_history_uncovered :
      scope sees is_tenant_wide_role ranks ctx rank params db ≡ org_scope
      → narrowed params.org_ids (get_covered_org_ids db ctx) ≡ []
      → list_leads_history sees is_tenant_wide_role ranks ctx rank params db
        ≡ list_assignments_filtered sees ctx
            (record (filters sees is_tenant_wide_role ranks ctx rank params db) { org_ids = none })
            db
  unfolding list_leads_history filters_for wide_filters list_assignments_filtered is_history_row
      org_ok if_any
  list_leads_history_uncovered e empty = rw (e, empty) refl
