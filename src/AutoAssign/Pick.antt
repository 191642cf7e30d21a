-- ===== src/AutoAssign/Pick.antt =====
-- The theorems about `resolveAutoAssignedUser` as a whole.
use mathlib.Core.List.Memᴰ
use msq_lms.Base.{
  ℕ, ◌≡◌, ◌≢◌, ◌↔◌, ◌<◌, refl, sym, ap, ◌∙◌, subst, Bool, true, false, Option, none, some, List, [],
  ◌∷◌, arith, inl, inr, Bool-cases, Memᴰ, mem-filter, filter-mem,
}
use msq_lms.Db.{Key, Role, CampaignType, Db}
use msq_lms.AutoAssign.{
  EligibleUser, Deficits, AutoAssignResult, stored_auto_assign_reason, pool_rows, open_lead_owners,
  total_open, resolve_auto_assigned_user, department_ok,
}
use msq_lms.AutoAssign.Pool.{
  PoolMember, IsMember, row_of, pool_rows_sound, pool_rows_complete, capable_rows_complete,
  asked_tenant,
}
use msq_lms.AutoAssign.Best.{IsBest}
use msq_lms.AutoAssign.Reasons.{
  department_rows, eligible_rows, SameDepartment, department_ok-SameDepartment, Outcome, nobody,
  wrong_department, incapable, picked, pick_among-Outcome, Eligible, eligible_rows-Eligible,
  Explanation,
}

SameDepartment-department_ok :
    (ur : Role) (ct : CampaignType) → SameDepartment ur ct → department_ok ur ct ≡ true
unfolding department_ok
SameDepartment-department_ok ur ct s = ground arith

mem_of_ne_nil : (xs : List EligibleUser) → xs ≢ [] → (x : EligibleUser) × Memᴰ x xs
mem_of_ne_nil [] h = absurd (h refl)
mem_of_ne_nil (x ∷ xs) h = (x, Memᴰ.head refl)

no_mem_nil : {x : EligibleUser} {xs : List EligibleUser} → xs ≡ [] → Memᴰ x xs → ⊥
no_mem_nil {x} e m = Memᴰ.not-nil (subst (λ l. Memᴰ x l) e m)

module _ (db : Db) (org_id type_id : Key) where
  -- The query's row for a member of the pool.
  row_of_member : {r : EligibleUser} → PoolMember db org_id type_id r → EligibleUser
  row_of_member m = row_of m.uom m.w m.ur m.o m.ct

  rebased :
      {r : EligibleUser} (m : PoolMember db org_id type_id r)
      → IsMember org_id type_id (row_of m.uom m.w m.ur m.o m.ct) m.uom m.w m.u m.ur m.o m.ct
  rebased m = let h = m.is_member in ground arith

  member-listed :
      {r : EligibleUser} (m : PoolMember db org_id type_id r)
      → Memᴰ (row_of_member m) (pool_rows db org_id type_id)
  unfolding row_of_member
  member-listed m =
      pool_rows_complete db m.uom m.w m.u m.ur m.o m.ct m.has_mapping m.has_weight m.has_user
        m.has_role m.has_organization m.has_type (rebased m)

  member-in_department :
      {r : EligibleUser} (m : PoolMember db org_id type_id r)
      → SameDepartment m.ur m.ct
      → Memᴰ (row_of_member m) (department_rows db org_id type_id)
  unfolding row_of_member
  member-in_department m s =
      filter-mem (λ u. u.department_ok) (member-listed m) (SameDepartment-department_ok m.ur m.ct s)

module _ (has_lms : Key → Key → Bool) (arithmetic : Deficits) (draw : ℕ → ℕ) where
  module _ (db : Db) (org_id type_id : Key) where
    Outcome-Explanation :
        {r : AutoAssignResult}
        → Outcome has_lms arithmetic draw
            (open_lead_owners db org_id type_id)
            (pool_rows db org_id type_id)
            r
        → Explanation has_lms db org_id type_id r.reason
    unfolding row_of_member
    Outcome-Explanation (nobody e none_listed) =
        rw (ap (λ (x : AutoAssignResult). x.reason) e)
          (λ r m. no_mem_nil none_listed (member-listed db org_id type_id m))
    Outcome-Explanation (wrong_department e some_listed none_left) =
        let (r, m) = mem_of_ne_nil (pool_rows db org_id type_id) some_listed in
        rw (ap (λ (x : AutoAssignResult). x.reason) e) (
          (r, pool_rows_sound db org_id type_id m),
          λ v k s. no_mem_nil none_left (member-in_department db org_id type_id k s),
        )
    Outcome-Explanation (incapable e some_left none_able) =
        let (r, m) = mem_of_ne_nil (department_rows db org_id type_id) some_left in
        let (m', ok) = mem-filter (λ u. u.department_ok) (pool_rows db org_id type_id) m in
        let k = pool_rows_sound db org_id type_id m' in
        rw (ap (λ (x : AutoAssignResult). x.reason) e) (
          (r, k, department_ok-SameDepartment k.ur k.ct (sym k.department ∙ ok)),
          λ v j s. refuse v j s,
        )
      where
        refuse :
            (v : EligibleUser) (j : PoolMember db org_id type_id v)
            → SameDepartment j.ur j.ct
            → has_lms (asked_tenant (department_rows db org_id type_id)) j.ur.name ≡ false
        refuse v j s =
            elim (Bool-cases
              (has_lms (asked_tenant (department_rows db org_id type_id)) j.ur.name)) [
                | inl able ↦ absurd (
                    no_mem_nil none_able (
                      capable_rows_complete has_lms (department_rows db org_id type_id)
                        (member-in_department db org_id type_id j s) able))
                | inr unable ↦ unable
              ]
    Outcome-Explanation (picked user e best) =
        rw (ap (λ (x : AutoAssignResult). x.reason) e)
          (best.row.user_id, eligible_rows-Eligible has_lms db org_id type_id best.listed)

  -- Whatever the database holds, the reason that comes back is true of the pool: `assigned` only
  -- where someone is eligible, `no_weighted_users` only where nobody is a member,
  -- `no_department_match` only where there are members and none sits in the type's department, and
  -- `no_capable_users` only where some do and the role of none of those holds the capability in the
  -- tenant asked for. The draw is assumed to name one of the candidates.
  pub resolve_auto_assigned_user-Explanation :
      ((n : ℕ) → 0 < n → draw n < n)
      → (db : Db) (org_id type_id : Key)
      → Explanation has_lms db org_id type_id
          (resolve_auto_assigned_user has_lms arithmetic draw db org_id (some type_id)).reason
  unfolding resolve_auto_assigned_user
  resolve_auto_assigned_user-Explanation in_range db org_id type_id =
      Outcome-Explanation db org_id type_id (
        pick_among-Outcome has_lms arithmetic draw in_range (open_lead_owners db org_id type_id)
          (pool_rows db org_id type_id))

  -- The user that is picked for a lead is eligible, and no other eligible row of the pool has a
  -- greater deficit than one of the user's rows, counted over the open leads of this pool alone.
  pub resolve_auto_assigned_user-IsBest :
      ((n : ℕ) → 0 < n → draw n < n)
      → (db : Db) (org_id type_id user : Key)
      → (resolve_auto_assigned_user has_lms arithmetic draw db org_id (some type_id)).user_id
        ≡ some user
      → Eligible has_lms db org_id type_id user
        × IsBest arithmetic
            (total_open
              (open_lead_owners db org_id type_id)
              (eligible_rows has_lms db org_id type_id))
            (open_lead_owners db org_id type_id)
            (eligible_rows has_lms db org_id type_id)
            user
  unfolding resolve_auto_assigned_user
  resolve_auto_assigned_user-IsBest in_range db org_id type_id user h =
      go
        (pick_among-Outcome has_lms arithmetic draw in_range (open_lead_owners db org_id type_id)
          (pool_rows db org_id type_id))
        h
    where
      go :
          {r : AutoAssignResult}
          → Outcome has_lms arithmetic draw
              (open_lead_owners db org_id type_id)
              (pool_rows db org_id type_id)
              r
          → r.user_id ≡ some user
          → Eligible has_lms db org_id type_id user
            × IsBest arithmetic
                (total_open
                  (open_lead_owners db org_id type_id)
                  (eligible_rows has_lms db org_id type_id))
                (open_lead_owners db org_id type_id)
                (eligible_rows has_lms db org_id type_id)
                user
      go (nobody e _) p = absurd (ground arith)
      go (wrong_department e _ _) p = absurd (ground arith)
      go (incapable e _ _) p = absurd (ground arith)
      go (picked other e best) p =
          let same_user : other ≡ user = ground arith in
          let found = eligible_rows-Eligible has_lms db org_id type_id best.listed in
          (
            subst (λ x. Eligible has_lms db org_id type_id x) (best.its_user ∙ same_user) found,
            subst
                (λ x.
                  IsBest arithmetic
                    (total_open (open_lead_owners db org_id type_id)
                      (eligible_rows has_lms db org_id type_id))
                    (open_lead_owners db org_id type_id) (eligible_rows has_lms db org_id type_id)
                    x)
                same_user best,
          )

  -- A lead is left with a stored reason exactly when it is left without an owner.
  pub stored_reason_iff_unowned :
      ((n : ℕ) → 0 < n → draw n < n)
      → (db : Db) (org_id : Key) (type_id : Option Key)
      → (stored_auto_assign_reason
            (resolve_auto_assigned_user has_lms arithmetic draw db org_id type_id).reason
          ≡ none)
        ↔ ((resolve_auto_assigned_user has_lms arithmetic draw db org_id type_id).user_id ≢ none)
  unfolding resolve_auto_assigned_user stored_auto_assign_reason
  stored_reason_iff_unowned in_range db org_id none = ((λ h. cc), λ h. absurd (h refl))
  stored_reason_iff_unowned in_range db org_id (some type_id) = go (
      pick_among-Outcome has_lms arithmetic draw in_range (open_lead_owners db org_id type_id)
        (pool_rows db org_id type_id))
    where
      go :
          {r : AutoAssignResult}
          → Outcome has_lms arithmetic draw
              (open_lead_owners db org_id type_id)
              (pool_rows db org_id type_id)
              r
          → (stored_auto_assign_reason r.reason ≡ none) ↔ (r.user_id ≢ none)
      go (nobody e _) = rw e ((λ h. cc), λ h. absurd (h refl))
      go (wrong_department e _ _) = rw e ((λ h. cc), λ h. absurd (h refl))
      go (incapable e _ _) = rw e ((λ h. cc), λ h. absurd (h refl))
      go (picked other e best) = rw e ((λ h k. cc), λ h. refl)
