-- ===== src/AutoAssign/Reasons.antt =====
-- What a pick promises of the user that it names, and what each reason says of the pool.
use msq_lms.Base.{
  ℕ, ◌≡◌, ◌≢◌, ◌<◌, refl, sym, ap, ◌∙◌, Bool, true, false, Option, none, some, List, [], ◌∷◌, arith,
  length, filter, is_empty, inl, inr, Bool-cases, Memᴰ, mem-filter, get_elem?-some, get_elem?-mem,
  is_empty-nil,
}
use msq_lms.Db.{
  Key, AutoAssignReason, assigned, no_campaign_type, no_weighted_users, no_department_match,
  no_capable_users, Role, CampaignType, Db,
}
use msq_lms.AutoAssign.{
  EligibleUser, Deficits, AutoAssignResult, pool_rows, capable_rows, total_open, candidates_of,
  pick_from, pick_among, department_ok,
}
use msq_lms.AutoAssign.Pool.{PoolMember, pool_rows_sound, capable_rows_sound, asked_tenant}
use msq_lms.AutoAssign.Best.{IsBest, candidates_of-nonempty, candidates_of-IsBest}

-- The rows in the right department, and those of them whose role is capable.
abbrev pub department_rows : Db → Key → Key → List EligibleUser
department_rows db org_id type_id = filter (λ r. r.department_ok) (pool_rows db org_id type_id)

abbrev pub eligible_rows : (Key → Key → Bool) → Db → Key → Key → List EligibleUser
eligible_rows has_lms db org_id type_id = capable_rows has_lms (department_rows db org_id type_id)

-- The role's department is set, and it is the campaign type's.
pub record SameDepartment (ur : Role) (ct : CampaignType) : Type 0 where
  pub department : Key
  pub of_role : ur.department_id ≡ some department
  pub of_type : ct.department_id ≡ some department

pub department_ok-SameDepartment :
    (ur : Role) (ct : CampaignType) → department_ok ur ct ≡ true → SameDepartment ur ct
unfolding department_ok
department_ok-SameDepartment ur ct h = go ur.department_id refl
  where
    go : (d : Option Key) → ur.department_id ≡ d → SameDepartment ur ct
    go none e = absurd (ground arith)
    go (some d) e = record { department = d; of_role = e; of_type = ground arith }

module _ (has_lms : Key → Key → Bool) (arithmetic : Deficits) (draw : ℕ → ℕ) where
  -- Over one eligible row or more, the pick names the best candidate that was drawn.
  pick_from-IsBest :
      ((n : ℕ) → 0 < n → draw n < n)
      → (owners : List Key) (rows : List EligibleUser) → is_empty rows ≡ false
      → (user : Key) × (pick_from draw (candidates_of arithmetic owners rows) ≡ some user)
        × IsBest arithmetic (total_open owners rows) owners rows user
  unfolding pick_from
  pick_from-IsBest in_range owners [] h = cc
  pick_from-IsBest in_range owners (u ∷ us) h =
      let names = candidates_of arithmetic owners (u ∷ us) in
      let n = candidates_of-nonempty arithmetic owners u us in
      let (user, e) = get_elem?-some names (draw (length names)) (in_range (length names) n) in
      (user, e, candidates_of-IsBest arithmetic owners u us (get_elem?-mem names _ e))

  -- The four ways a pick within a pool can end, with the lists that each leaves empty.
  pub data Outcome (owners : List Key) (rows : List EligibleUser) (r : AutoAssignResult)
      : Type 0 where
    nobody :
        r ≡ record { user_id = none; reason = no_weighted_users }
        → rows ≡ []
        → Outcome owners rows r
    wrong_department :
        r ≡ record { user_id = none; reason = no_department_match }
        → rows ≢ []
        → filter (λ u. u.department_ok) rows ≡ []
        → Outcome owners rows r
    incapable :
        r ≡ record { user_id = none; reason = no_capable_users }
        → filter (λ u. u.department_ok) rows ≢ []
        → capable_rows has_lms (filter (λ u. u.department_ok) rows) ≡ []
        → Outcome owners rows r
    picked :
        (user : Key)
        → r ≡ record { user_id = some user; reason = assigned }
        → IsBest arithmetic
            (total_open owners (capable_rows has_lms (filter (λ u. u.department_ok) rows)))
            owners
            (capable_rows has_lms (filter (λ u. u.department_ok) rows))
            user
        → Outcome owners rows r

  not_empty : {xs : List EligibleUser} → is_empty xs ≡ false → xs ≢ []
  not_empty h e = cc (ap is_empty e)

  pub pick_among-Outcome :
      ((n : ℕ) → 0 < n → draw n < n)
      → (owners : List Key) (rows : List EligibleUser)
      → Outcome owners rows (pick_among has_lms arithmetic draw owners rows)
  unfolding pick_among
  pick_among-Outcome in_range owners rows =
      let dept = filter (λ (u : EligibleUser). u.department_ok) rows in
      let able = capable_rows has_lms dept in
      elim (Bool-cases (is_empty rows)) [
        | inl e ↦ nobody (rw e) (is_empty-nil rows e)
        | inr e ↦ elim (Bool-cases (is_empty dept)) [
          | inl e2 ↦ wrong_department (rw (e, e2)) (not_empty e) (is_empty-nil dept e2)
          | inr e2 ↦ elim (Bool-cases (is_empty able)) [
            | inl e3 ↦ incapable (rw (e, e2, e3)) (not_empty e2) (is_empty-nil able e3)
            | inr e3 ↦
                let (user, p, best) = pick_from-IsBest in_range owners able e3 in
                picked user (rw (e, e2, e3, p)) best
          ]
        ]
      ]

-- `user` may receive the pool's leads: an active member of the branch with a share in this pool,
-- whose role sits in the type's department and holds the capability.
pub record Eligible (has_lms : Key → Key → Bool) (db : Db) (org_id type_id : Key) (user : Key)
    : Type 0 where
  pub row : EligibleUser
  pub its_user : row.user_id ≡ user
  pub member : PoolMember db org_id type_id row
  pub in_department : SameDepartment member.ur member.ct
  pub asked : EligibleUser
  pub asked_member : PoolMember db org_id type_id asked
  pub capable : has_lms asked.tenant_id member.ur.name ≡ true

module _ (has_lms : Key → Key → Bool) (db : Db) (org_id type_id : Key) where
  first_of_rows :
      (rows : List EligibleUser) {u : EligibleUser}
      → ((v : EligibleUser) → Memᴰ v rows → PoolMember db org_id type_id v)
      → Memᴰ u rows
      → (asked : EligibleUser) × PoolMember db org_id type_id asked
        × (asked_tenant rows ≡ asked.tenant_id)
  first_of_rows [] sound m = elim m [ ]
  first_of_rows (r ∷ rs) sound m = (r, sound r (Memᴰ.head refl), refl)

  department-PoolMember :
      (v : EligibleUser)
      → Memᴰ v (department_rows db org_id type_id)
      → PoolMember db org_id type_id v
  department-PoolMember v m =
      pool_rows_sound db org_id type_id
        (mem-filter (λ u. u.department_ok) (pool_rows db org_id type_id) m).0

  -- A row that passes every filter belongs to an eligible user.
  pub eligible_rows-Eligible :
      {u : EligibleUser}
      → Memᴰ u (eligible_rows has_lms db org_id type_id)
      → Eligible has_lms db org_id type_id u.user_id
  eligible_rows-Eligible {u} m =
      let rows = department_rows db org_id type_id in
      let (in_rows, able) = capable_rows_sound has_lms rows m in
      let member = department-PoolMember u in_rows in
      let dept = (mem-filter (λ v. v.department_ok) (pool_rows db org_id type_id) in_rows).1 in
      let (asked, asked_member, e) = first_of_rows rows department-PoolMember in_rows in
      record {
        row = u;
        its_user = refl;
        member = member;
        in_department =
            department_ok-SameDepartment member.ur member.ct (sym member.department ∙ dept);
        asked = asked;
        asked_member = asked_member;
        capable = rw (← e, member.is_member.role_named) able;
      }

-- What each reason says of the pool.
abbrev pub Explanation : (Key → Key → Bool) → Db → Key → Key → AutoAssignReason → Type 0
Explanation has_lms db org_id type_id assigned =
    (user : Key) × Eligible has_lms db org_id type_id user
Explanation has_lms db org_id type_id no_campaign_type = ⊥
Explanation has_lms db org_id type_id no_weighted_users =
    (r : EligibleUser) → ¬ PoolMember db org_id type_id r
Explanation has_lms db org_id type_id no_department_match =
    ((r : EligibleUser) × PoolMember db org_id type_id r)
    × ((r : EligibleUser) (m : PoolMember db org_id type_id r) → ¬ SameDepartment m.ur m.ct)
Explanation has_lms db org_id type_id no_capable_users =
    ((r : EligibleUser) × (m : PoolMember db org_id type_id r) × SameDepartment m.ur m.ct)
    × ((r : EligibleUser) (m : PoolMember db org_id type_id r)
        → SameDepartment m.ur m.ct
        → has_lms (asked_tenant (department_rows db org_id type_id)) m.ur.name ≡ false)
