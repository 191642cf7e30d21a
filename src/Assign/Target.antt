-- ===== src/Assign/Target.antt =====
-- What the checks on the target of an assignment establish: an active member of the branch whom the
-- actor may assign to.
use Prim.Native.String.{String}
use mathlib.Core.List.Memᴰ
use msq_lms.Base.{
  ℕ, ◌≡◌, ◌<◌, ◌⊎◌, inl, inr, refl, sym, ap, ◌∙◌, subst, Bool, true, false, Option, none, some,
  List, [], ◌∷◌, Memᴰ, arith, leb, Bool-cases, mem->>=, mem-only_if,
}
use msq_lms.Errors.{ok, ok-injective}
use msq_lms.Db.{Key, Organization, User, Role, Mapping, Lead, Db}
use msq_lms.Authz.{LmsRanks, CapabilityHolder, can_assign_to_user}
use msq_lms.Authz.Ladder.{Grant, can_assign_to_user-Grant}
use msq_lms.Assign.{
  RoleTxContext, TargetUser, is_target_row, target_rows, highest_of, get_user_for_assignment,
  checked_target,
}

module _ (is_tenant_wide_role : String → Bool) (sees : RoleTxContext → Lead → Bool)
    (ranks : LmsRanks) where
  -- The target is an active user with an active mapping to the branch, whose role there ranks below
  -- the admins, and the actor is that user or has a grant that reaches the rank.
  pub record CanTake (db : Db) (can : CapabilityHolder) (actor_rank : ℕ)
      (actor_id org_id target : Key) : Type 0 where
    pub user : User
    pub user_listed : Memᴰ user db.users
    pub user_id : user.id ≡ target
    pub active : user.is_active ≡ true
    pub kept : user.is_deleted ≡ false
    pub mapping : Mapping
    pub mapping_listed : Memᴰ mapping db.user_org_mapping
    pub member : (mapping.user_id ≡ target) × (mapping.org_id ≡ org_id) × (mapping.is_active ≡ true)
    pub role : Role
    pub role_listed : Memᴰ role db.user_roles
    pub role_id : role.id ≡ mapping.role_id
    pub below : role.rank < ranks.admin
    pub allowed : (actor_id ≡ target) ⊎ Grant can actor_rank role.rank

  highest_of-mem :
      (row : TargetUser) (rows : List TargetUser)
      → Memᴰ (highest_of is_tenant_wide_role sees ranks row rows) (row ∷ rows)
  unfolding highest_of
  highest_of-mem row [] = Memᴰ.head refl
  highest_of-mem row (r ∷ rs) = elim (Bool-cases (leb r.rank row.rank)) [
    | inl e ↦ rw e (elim (Memᴰ.cases_cons (highest_of-mem row rs)) [
      | inl h ↦ Memᴰ.head h
      | inr k ↦ Memᴰ.tail (Memᴰ.tail k)
    ])
    | inr e ↦ rw e (Memᴰ.tail (highest_of-mem r rs))
  ]

  get_user_for_assignment-mem :
      (db : Db) (ctx : RoleTxContext) (target org_id : Key) {user : TargetUser}
      → get_user_for_assignment is_tenant_wide_role sees ranks db ctx target org_id ≡ some user
      → Memᴰ user (target_rows is_tenant_wide_role sees ranks db ctx target org_id)
  unfolding get_user_for_assignment
  get_user_for_assignment-mem db ctx target org_id {user} h =
      go (target_rows is_tenant_wide_role sees ranks db ctx target org_id) h
    where
      go :
          (rows : List TargetUser)
          → (elim rows [
            | [] ↦ none
            | row ∷ rs ↦ some (highest_of is_tenant_wide_role sees ranks row rs)
          ])
            ≡ some user
          → Memᴰ user rows
      go [] e = cc
      go (row ∷ rs) e = subst (λ u. Memᴰ u (row ∷ rs)) (cc) (highest_of-mem row rs)

  target_row-CanTake :
      (db : Db) (can : CapabilityHolder) (actor_rank : ℕ) (ctx tx : RoleTxContext)
      (org_id target : Key) (u : User) (t : Mapping) (ur : Role) (o : Organization)
      (user : TargetUser)
      → Memᴰ u db.users
      → Memᴰ t db.user_org_mapping
      → Memᴰ ur db.user_roles
      → is_target_row is_tenant_wide_role sees ranks db tx target org_id u t ur o ≡ true
      → user ≡ record { id = u.id; is_active = u.is_active; rank = ur.rank }
      → user.is_active ≡ true
      → can_assign_to_user ranks can actor_rank user.rank ctx.user_id user.id ≡ true
      → CanTake db can actor_rank ctx.user_id org_id target
  unfolding is_target_row
  target_row-CanTake db can actor_rank ctx tx org_id target u t ur o user mu mt mr test e active
        may =
      let it : u.id ≡ target = ground arith in
      let (below, allowed) =
        can_assign_to_user-Grant ranks can actor_rank ur.rank ctx.user_id u.id (
          subst
            (λ (x : TargetUser).
              can_assign_to_user ranks can actor_rank x.rank ctx.user_id x.id ≡ true)
            e may) in
      record {
        user = u;
        user_listed = mu;
        user_id = it;
        active = sym (ap (λ x. x.is_active) e) ∙ active;
        kept = ground arith;
        mapping = t;
        mapping_listed = mt;
        member = (ground arith, ground arith, ground arith);
        role = ur;
        role_listed = mr;
        role_id = ground arith;
        below = below;
        allowed = subst (λ id. (ctx.user_id ≡ id) ⊎ Grant can actor_rank ur.rank) it allowed;
      }

  checked_target-ok :
      (can : CapabilityHolder) (actor_rank : ℕ) (ctx : RoleTxContext) (found : Option TargetUser)
      {user : TargetUser}
      → checked_target is_tenant_wide_role sees ranks can actor_rank ctx found ≡ ok user
      → (found ≡ some user)
        × (user.is_active ≡ true)
        × (can_assign_to_user ranks can actor_rank user.rank ctx.user_id user.id ≡ true)
  unfolding checked_target
  checked_target-ok can actor_rank ctx none h = cc
  checked_target-ok can actor_rank ctx (some u) {user} h = elim (Bool-cases u.is_active) [
    | inr e ↦ let h' = rw e at h in cc
    | inl e ↦
        let h' = rw e at h in
        elim (Bool-cases (can_assign_to_user ranks can actor_rank u.rank ctx.user_id u.id)) [
          | inr c ↦ let h'' = rw c at h' in cc
          | inl c ↦
              let shape : checked_target is_tenant_wide_role sees ranks can actor_rank ctx (some u)
                  ≡ ok u =
                ground arith in
              let h'' = ok-injective (sym shape ∙ h) in
              (
                ap some h'',
                ap (λ x. x.is_active) (sym h'') ∙ e,
                subst
                    (λ (x : TargetUser).
                      can_assign_to_user ranks can actor_rank x.rank ctx.user_id x.id ≡ true)
                    h'' c,
              )
        ]
  ]

  -- A target that passes the checks can take a lead of the branch.
  pub checked_target-CanTake :
      (db : Db) (can : CapabilityHolder) (actor_rank : ℕ) (ctx tx : RoleTxContext)
      (org_id target : Key) (user : TargetUser)
      → checked_target is_tenant_wide_role sees ranks can actor_rank ctx
          (get_user_for_assignment is_tenant_wide_role sees ranks db tx target org_id)
        ≡ ok user
      → CanTake db can actor_rank ctx.user_id org_id target
  unfolding target_rows
  checked_target-CanTake db can actor_rank ctx tx org_id target user h =
      let (found, active, may) = checked_target-ok can actor_rank ctx _ h in
      let (u, mu, k) = mem->>= db.users _ (get_user_for_assignment-mem db tx target org_id found) in
      let (t, mt, k1) = mem->>= db.user_org_mapping _ k in
      let (ur, mr, k2) = mem->>= db.user_roles _ k1 in
      let (o, mo, k3) = mem->>= db.organizations _ k2 in
      let (test, k4) =
        mem-only_if (is_target_row is_tenant_wide_role sees ranks db tx target org_id u t ur o)
          (record { id = u.id; is_active = u.is_active; rank = ur.rank } ∷ []) k3 in
      target_row-CanTake db can actor_rank ctx tx org_id target u t ur o user mu mt mr test
        (Memᴰ.eq_of_singleton k4) active may
