-- ===== src/AutoAssign/Pool.antt =====
-- The rows that the pool query selects, and the rows whose role holds the capability.
use mathlib.Core.List.Memᴰ
use msq_lms.Base.{
  ◌≡◌, ◌<◌, refl, sym, ap, Bool, true, false, List, [], ◌∷◌, map, Memᴰ, arith, ◌==◌, contains,
  mem-filter, filter-mem, mem-only_if, mem-any, inl, inr, Bool-cases, mem->>=, >>=-mem, any-mem,
  ==_iff,
}
use msq_lms.Db.{Key, Organization, User, Role, Mapping, Weight, CampaignType, Db}
use msq_lms.AutoAssign.{
  EligibleUser, in_pool, department_ok, pool_rows, distinct, lms_capable_roles, capable_rows,
  lms_rank_read_only, lms_rank_admin,
}

-- What makes a user a member of the rotation, column by column.
pub record IsMember (org_id type_id : Key) (r : EligibleUser) (uom : Mapping) (w : Weight)
    (u : User) (ur : Role) (o : Organization) (ct : CampaignType) : Type 0 where
  pub mapped_user : uom.user_id ≡ r.user_id
  pub mapped_branch : uom.org_id ≡ org_id
  pub mapping_active : uom.is_active ≡ true
  pub account : u.id ≡ r.user_id
  pub account_active : u.is_active ≡ true
  pub account_kept : u.is_deleted ≡ false
  pub weighted : w.user_org_mapping_id ≡ uom.id
  pub weighted_type : w.campaign_type_id ≡ type_id
  pub positive : 0 < w.weight
  pub share : w.weight ≡ r.weight
  pub role : ur.id ≡ uom.role_id
  pub role_named : ur.name ≡ r.role_name
  pub above_read_only : lms_rank_read_only < ur.rank
  pub below_admin : ur.rank < lms_rank_admin
  pub branch : o.id ≡ org_id
  pub tenant : o.tenant_id ≡ r.tenant_id
  pub pool_type : ct.id ≡ type_id

pub record PoolMember (db : Db) (org_id type_id : Key) (r : EligibleUser) : Type 0 where
  pub uom : Mapping
  pub w : Weight
  pub u : User
  pub ur : Role
  pub o : Organization
  pub ct : CampaignType
  pub has_mapping : Memᴰ uom db.user_org_mapping
  pub has_weight : Memᴰ w db.lead_assignment_weights
  pub has_user : Memᴰ u db.users
  pub has_role : Memᴰ ur db.user_roles
  pub has_organization : Memᴰ o db.organizations
  pub has_type : Memᴰ ct db.campaign_types
  pub is_member : IsMember org_id type_id r uom w u ur o ct
  pub department : r.department_ok ≡ department_ok ur ct

in_pool-IsMember :
    (org_id type_id : Key) (uom : Mapping) (w : Weight) (u : User) (ur : Role) (o : Organization)
    (ct : CampaignType) (r : EligibleUser)
    → in_pool org_id type_id uom w u ur o ct ≡ true
    → r.user_id ≡ uom.user_id
    → r.weight ≡ w.weight
    → r.role_name ≡ ur.name
    → r.tenant_id ≡ o.tenant_id
    → IsMember org_id type_id r uom w u ur o ct
unfolding in_pool
in_pool-IsMember org_id type_id uom w u ur o ct r h h1 h2 h3 h4 = ground arith

-- Every row of the query comes from one row of each table, under its conditions.
pub pool_rows_sound :
    (db : Db) (org_id type_id : Key) {r : EligibleUser}
    → Memᴰ r (pool_rows db org_id type_id)
    → PoolMember db org_id type_id r
unfolding pool_rows
pool_rows_sound db org_id type_id {r} m =
    let (uom, has_mapping, m1) = mem->>= db.user_org_mapping _ m in
    let (w, has_weight, m2) = mem->>= db.lead_assignment_weights _ m1 in
    let (u, has_user, m3) = mem->>= db.users _ m2 in
    let (ur, has_role, m4) = mem->>= db.user_roles _ m3 in
    let (o, has_organization, m5) = mem->>= db.organizations _ m4 in
    let (ct, has_type, m6) = mem->>= db.campaign_types _ m5 in
    let (chosen, m7) = mem-only_if _ _ m6 in
    let e = Memᴰ.eq_of_singleton m7 in
    record {
      uom = uom;
      w = w;
      u = u;
      ur = ur;
      o = o;
      ct = ct;
      has_mapping = has_mapping;
      has_weight = has_weight;
      has_user = has_user;
      has_role = has_role;
      has_organization = has_organization;
      has_type = has_type;
      is_member =
          in_pool-IsMember org_id type_id uom w u ur o ct r chosen (ap (λ x. x.user_id) e)
            (ap (λ x. x.weight) e) (ap (λ x. x.role_name) e) (ap (λ x. x.tenant_id) e);
      department = ap (λ x. x.department_ok) e;
    }

-- The row that the query returns for one row of each table.
abbrev pub row_of : Mapping → Weight → Role → Organization → CampaignType → EligibleUser
row_of uom w ur o ct = record {
  user_id = uom.user_id;
  weight = w.weight;
  role_name = ur.name;
  tenant_id = o.tenant_id;
  department_ok = department_ok ur ct;
}

IsMember-in_pool :
    {org_id type_id : Key} (uom : Mapping) (w : Weight) (u : User) (ur : Role) (o : Organization)
    (ct : CampaignType)
    → IsMember org_id type_id (row_of uom w ur o ct) uom w u ur o ct
    → in_pool org_id type_id uom w u ur o ct ≡ true
unfolding in_pool
IsMember-in_pool uom w u ur o ct h = ground arith

-- Every choice of one row of each table that meets the conditions is selected.
pub pool_rows_complete :
    (db : Db) {org_id type_id : Key} (uom : Mapping) (w : Weight) (u : User) (ur : Role)
    (o : Organization) (ct : CampaignType)
    → Memᴰ uom db.user_org_mapping
    → Memᴰ w db.lead_assignment_weights
    → Memᴰ u db.users
    → Memᴰ ur db.user_roles
    → Memᴰ o db.organizations
    → Memᴰ ct db.campaign_types
    → IsMember org_id type_id (row_of uom w ur o ct) uom w u ur o ct
    → Memᴰ (row_of uom w ur o ct) (pool_rows db org_id type_id)
unfolding pool_rows
pool_rows_complete db uom w u ur o ct m1 m2 m3 m4 m5 m6 h = >>=-mem _ m1 (
    >>=-mem _ m2 (
      >>=-mem _ m3 (
        >>=-mem _ m4 (
          >>=-mem _ m5 (>>=-mem _ m6 (rw (IsMember-in_pool uom w u ur o ct h) (Memᴰ.head refl)))))))

pub distinct-mem : {a : Key} (xs : List Key) → Memᴰ a (distinct xs) → Memᴰ a xs
unfolding distinct
distinct-mem [] m = elim m [ ]
distinct-mem (x ∷ xs) m = elim (Memᴰ.cases_cons m) [
  | inl e ↦ Memᴰ.head e
  | inr k ↦ Memᴰ.tail (distinct-mem xs (mem-filter _ (distinct xs) k).0)
]

mem-distinct : {a : Key} {xs : List Key} → Memᴰ a xs → Memᴰ a (distinct xs)
unfolding distinct
mem-distinct (Memᴰ.head e) = Memᴰ.head e
mem-distinct {a} (Memᴰ.tail {x} {xs} m) = elim (Bool-cases (a == x)) [
  | inl e ↦ Memᴰ.head ((==_iff a x).0 e)
  | inr e ↦ Memᴰ.tail (filter-mem _ (mem-distinct m) (rw e))
]

contains-mem : (xs : List Key) (a : Key) → contains xs a ≡ true → Memᴰ a xs
contains-mem xs a h =
    let (b, m, e) = any-mem (λ y. y == a) xs h in Memᴰ.cast (sym ((==_iff b a).0 e)) m

mem-contains : {xs : List Key} {a : Key} → Memᴰ a xs → contains xs a ≡ true
mem-contains {xs} {a} m = mem-any (λ y. y == a) m ((==_iff a a).1 refl)

-- The tenant that the capability is asked for: that of the first row.
abbrev pub asked_tenant : List EligibleUser → Key
asked_tenant [] = 0
asked_tenant (r ∷ rs) = r.tenant_id

-- The Set of capable role names keeps exactly the rows whose own role is capable.
pub capable_rows_sound :
    (has_lms : Key → Key → Bool) (rows : List EligibleUser) {u : EligibleUser}
    → Memᴰ u (capable_rows has_lms rows)
    → Memᴰ u rows × (has_lms (asked_tenant rows) u.role_name ≡ true)
unfolding capable_rows lms_capable_roles
capable_rows_sound has_lms [] m = elim m [ ]
capable_rows_sound has_lms (r ∷ rs) {u} m =
    let roles = lms_capable_roles has_lms r.tenant_id (r ∷ rs) in
    let names = distinct (map (λ (v : EligibleUser). v.role_name) (r ∷ rs)) in
    let (k, e) = mem-filter (λ v. contains roles v.role_name) (r ∷ rs) m in
    (k, (mem-filter (has_lms r.tenant_id) names (contains-mem roles u.role_name e)).1)

pub capable_rows_complete :
    (has_lms : Key → Key → Bool) {u : EligibleUser} (rows : List EligibleUser)
    → Memᴰ u rows
    → has_lms (asked_tenant rows) u.role_name ≡ true
    → Memᴰ u (capable_rows has_lms rows)
unfolding capable_rows lms_capable_roles
capable_rows_complete has_lms [] m h = elim m [ ]
capable_rows_complete has_lms {u} (r ∷ rs) m h =
    let roles = lms_capable_roles has_lms r.tenant_id (r ∷ rs) in
    filter-mem (λ v. contains roles v.role_name) m
      (mem-contains
        (filter-mem (has_lms r.tenant_id) (mem-distinct (Memᴰ.map (λ v. v.role_name) m)) h))
