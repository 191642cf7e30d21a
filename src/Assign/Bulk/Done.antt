-- ===== src/Assign/Bulk/Done.antt =====
-- What a bulk assignment establishes and reports.
use Prim.Native.String.{String}
use msq_lms.Base.{
  ℕ, ◌≡◌, ◌⊎◌, inl, inr, refl, sym, ap, ◌∙◌, subst, Bool, true, false, not, some, List, [], ◌∷◌,
  Memᴰ, arith, any, any-false, ◌==◌, ==_iff, same_iff, Bool-cases, mem-filter, length, contains,
}
use msq_lms.Errors.{ok, >>=-ok, ok-injective}
use msq_lms.Db.{Key, Lead, Db}
use msq_lms.AutoAssign.{distinct}
use msq_lms.Authz.{LmsRanks, CapabilityHolder}
use msq_lms.Assign.{write_ctx_for_org, RoleTxContext, elevated, set_assignee}
use msq_lms.Assign.Coverage.{Covered, write_ctx_for_org-Covered}
use msq_lms.Assign.Target.{CanTake, checked_target-CanTake}
use msq_lms.Assign.Update.{
  set_assignee-eq, set_assignee-ne, update_leads-mem, mem-update_leads, update_leads_remains,
}
use msq_lms.Assign.Bulk.{
  BulkResult, is_selected, selected_leads, is_bulk_row, bulk_update, bulk_in_branch, bulk_selected,
  bulk_assign_leads,
}

module _ (is_tenant_wide_role : String → Bool) (sees : RoleTxContext → Lead → Bool)
    (ranks : LmsRanks) (can : CapabilityHolder) (actor_rank : ℕ) (ctx : RoleTxContext)
    (ids : List Key) (assigned_to : Key) (db : Db) where
  -- The leads that the request names and that may be assigned.
  abbrev pub selection : List Lead
  selection = selected_leads is_tenant_wide_role sees ranks (elevated ctx) (distinct ids) db

  -- What holds where a bulk assignment returns: the selection has as many rows as ids are asked
  -- for, all in one branch that the caller covers, and the target can take leads there.
  pub record BulkDone (r : BulkResult) (db' : Db) : Type 0 where
    pub org_id : Key
    pub tx : RoleTxContext
    pub context : write_ctx_for_org db ctx org_id ≡ ok tx
    pub complete : length selection ≡ length (distinct ids)
    pub some_lead : Lead
    pub some_listed : Memᴰ some_lead selection
    pub one_branch : (l : Lead) → Memᴰ l selection → l.org_id ≡ org_id
    pub covered : Covered db ctx org_id
    pub target :
        CanTake is_tenant_wide_role sees ranks db can actor_rank ctx.user_id org_id assigned_to
    pub report : r ≡ (bulk_update is_tenant_wide_role sees ranks tx (distinct ids) assigned_to db).0
    pub moved :
        (l : Lead)
        → Memᴰ l selection
        → sees tx l ≡ true
        → (l' : Lead) × Memᴰ l' db'.marketing_leads
          × (l'.id ≡ l.id)
          × (l'.assigned_user_id ≡ some assigned_to)
    pub rows :
        (l' : Lead)
        → Memᴰ l' db'.marketing_leads
        → Memᴰ l' db.marketing_leads
          ⊎ ((l : Lead) × Memᴰ l db.marketing_leads
              × (contains (distinct ids) l.id ≡ true)
              × (l' ≡ record l { assigned_user_id = some assigned_to }))
    pub remains :
        (l : Lead)
        → Memᴰ l db.marketing_leads
        → Memᴰ l db'.marketing_leads
          ⊎ ((contains (distinct ids) l.id ≡ true)
              × Memᴰ (record l { assigned_user_id = some assigned_to }) db'.marketing_leads)

  assigned_lead :
      (tx : RoleTxContext) (l : Lead)
      → is_selected is_tenant_wide_role sees ranks (elevated ctx) (distinct ids) l ≡ true
      → sees tx l ≡ true
      → ((set_assignee is_tenant_wide_role sees ranks
            (is_bulk_row is_tenant_wide_role sees ranks tx (distinct ids) assigned_to)
            (some assigned_to)
            l).id
          ≡ l.id)
        × ((set_assignee is_tenant_wide_role sees ranks
              (is_bulk_row is_tenant_wide_role sees ranks tx (distinct ids) assigned_to)
              (some assigned_to)
              l).assigned_user_id
            ≡ some assigned_to)
  unfolding is_bulk_row is_selected
  assigned_lead tx l test seen =
      let p = is_bulk_row is_tenant_wide_role sees ranks tx (distinct ids) assigned_to in
      elim (Bool-cases (p l)) [
        | inl e ↦
            let shape = set_assignee-eq is_tenant_wide_role sees ranks p (some assigned_to) l e in
            (ap (λ x. x.id) shape, ap (λ x. x.assigned_user_id) shape)
        | inr e ↦
            let shape = set_assignee-ne is_tenant_wide_role sees ranks p (some assigned_to) l e in
            (
              ap (λ x. x.id) shape,
              ap (λ x. x.assigned_user_id) shape
                  ∙ (same_iff l.assigned_user_id (some assigned_to)).0 (ground arith),
            )
      ]

  moved-lead :
      (tx : RoleTxContext) (l : Lead)
      → Memᴰ l db.marketing_leads
      → is_selected is_tenant_wide_role sees ranks (elevated ctx) (distinct ids) l ≡ true
      → sees tx l ≡ true
      → (db' : Db)
      → (bulk_update is_tenant_wide_role sees ranks tx (distinct ids) assigned_to db).1 ≡ db'
      → (l' : Lead) × Memᴰ l' db'.marketing_leads
        × (l'.id ≡ l.id)
        × (l'.assigned_user_id ≡ some assigned_to)
  unfolding bulk_update
  moved-lead tx l listed test seen db' e =
      let p = is_bulk_row is_tenant_wide_role sees ranks tx (distinct ids) assigned_to in
      let (its_id, its_owner) = assigned_lead tx l test seen in
      (
        set_assignee is_tenant_wide_role sees ranks p (some assigned_to) l,
        subst
            (λ (d : Db).
              Memᴰ (set_assignee is_tenant_wide_role sees ranks p (some assigned_to) l)
                d.marketing_leads)
            e (update_leads-mem is_tenant_wide_role sees ranks p (some assigned_to) db l listed),
        its_id,
        its_owner,
      )

  rows-bulk_update :
      (tx : RoleTxContext) (db' : Db)
      → (bulk_update is_tenant_wide_role sees ranks tx (distinct ids) assigned_to db).1 ≡ db'
      → (l' : Lead) → Memᴰ l' db'.marketing_leads
      → Memᴰ l' db.marketing_leads
        ⊎ ((l : Lead) × Memᴰ l db.marketing_leads
            × (contains (distinct ids) l.id ≡ true)
            × (l' ≡ record l { assigned_user_id = some assigned_to }))
  unfolding bulk_update is_bulk_row
  rows-bulk_update tx db' e l' m =
      let p = is_bulk_row is_tenant_wide_role sees ranks tx (distinct ids) assigned_to in
      let m' = subst (λ (d : Db). Memᴰ l' d.marketing_leads) (sym e) m in
      elim (mem-update_leads is_tenant_wide_role sees ranks p (some assigned_to) db l' m') [
        | inl old ↦ inl old
        | inr (l, k, t, f) ↦ inr (l, k, ground arith, f)
      ]

  bulk_update_remains :
      (tx : RoleTxContext) (db' : Db)
      → (bulk_update is_tenant_wide_role sees ranks tx (distinct ids) assigned_to db).1 ≡ db'
      → (l : Lead) → Memᴰ l db.marketing_leads
      → Memᴰ l db'.marketing_leads
        ⊎ ((contains (distinct ids) l.id ≡ true)
            × Memᴰ (record l { assigned_user_id = some assigned_to }) db'.marketing_leads)
  unfolding bulk_update is_bulk_row
  bulk_update_remains tx db' e l m =
      let p = is_bulk_row is_tenant_wide_role sees ranks tx (distinct ids) assigned_to in
      elim (update_leads_remains is_tenant_wide_role sees ranks p (some assigned_to) db l m) [
        | inl same ↦ inl (subst (λ (d : Db). Memᴰ l d.marketing_leads) e same)
        | inr (t, k) ↦ inr (
          ground arith,
          subst
              (λ (d : Db).
                Memᴰ (record l { assigned_user_id = some assigned_to }) d.marketing_leads)
              e k,
        )
      ]

  in_branch-Done :
      (l : Lead) (leads : List Lead) (r : BulkResult) (db' : Db)
      → selection ≡ l ∷ leads
      → length selection ≡ length (distinct ids)
      → any (λ (x : Lead). not (x.org_id == l.org_id)) (l ∷ leads) ≡ false
      → bulk_in_branch is_tenant_wide_role sees ranks can actor_rank ctx
          (distinct ids)
          assigned_to
          l.org_id
          db
        ≡ ok (r, db')
      → BulkDone r db'
  unfolding bulk_in_branch selected_leads
  in_branch-Done l leads r db' e n same_org h =
      let (tx, e1, h1) = >>=-ok _ _ h in
      let (user, e2, h2) = >>=-ok _ _ h1 in
      record {
        org_id = l.org_id;
        tx = tx;
        context = e1;
        complete = n;
        some_lead = l;
        some_listed = subst (λ xs. Memᴰ l xs) (sym e) (Memᴰ.head refl);
        one_branch = λ x m.
            let off =
              any-false (λ (y : Lead). not (y.org_id == l.org_id)) same_org
                (subst (λ xs. Memᴰ x xs) e m) in
            ground arith;
        covered = write_ctx_for_org-Covered db ctx e1;
        target =
            checked_target-CanTake is_tenant_wide_role sees ranks db can actor_rank ctx tx l.org_id
              assigned_to user e2;
        report = ap (λ x. x.0) (sym (ok-injective h2));
        moved = λ x m seen.
            let (listed, test) = mem-filter _ db.marketing_leads m in
            moved-lead tx x listed test seen db' (ap (λ y. y.1) (ok-injective h2));
        rows = rows-bulk_update tx db' (ap (λ y. y.1) (ok-injective h2));
        remains = bulk_update_remains tx db' (ap (λ y. y.1) (ok-injective h2));
      }

  selected-Done :
      (leads : List Lead) (r : BulkResult) (db' : Db)
      → selection ≡ leads
      → length selection ≡ length (distinct ids)
      → bulk_selected is_tenant_wide_role sees ranks can actor_rank ctx
          (distinct ids)
          assigned_to
          leads
          db
        ≡ ok (r, db')
      → BulkDone r db'
  unfolding bulk_selected
  selected-Done [] r db' e n h = cc
  selected-Done (l ∷ leads) r db' e n h =
      elim (Bool-cases (any (λ (x : Lead). not (x.org_id == l.org_id)) (l ∷ leads))) [
        | inl mixed ↦ let h' = rw mixed at h in cc
        | inr one ↦ in_branch-Done l leads r db' e n one (rw one at h)
      ]

  -- A bulk assignment that returns has found as many leads as distinct ids are asked for, all of
  -- them in one branch that the caller covers, and a target who can take leads there; each of the
  -- leads that the update sees ends with that target, and no other lead has changed.
  pub bulk_assign_leads-Done :
      (r : BulkResult) (db' : Db)
      → bulk_assign_leads is_tenant_wide_role sees ranks can actor_rank ctx ids assigned_to db
        ≡ ok (r, db')
      → BulkDone r db'
  unfolding bulk_assign_leads
  bulk_assign_leads-Done r db' h = elim (Bool-cases (length selection == length (distinct ids))) [
    | inl e ↦
        selected-Done selection r db' refl ((==_iff (length selection) (length (distinct ids))).0 e)
          (rw e at h)
    | inr e ↦ let h' = rw e at h in cc
  ]
