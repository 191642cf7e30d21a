-- ===== src/Assign/Coverage.antt =====
-- The branches that an actor may write in, for assignments and for edits of leads.
use text.Mathlib.Text.{◌==◌ as str_eq}
use mathlib.Core.List.Memᴰ
use msq_lms.Base.{
  ◌≡◌, ◌↔◌, inl, inr, refl, sym, subst, true, false, [], ◌∷◌, Memᴰ, arith, ◌==◌, ==_iff, Bool-cases,
  mem->>=, mem-only_if, any-mem, contains, is_empty,
}
use msq_lms.Errors.{ok}
use msq_lms.Db.{Key, Organization, Mapping, Db}
use msq_lms.AutoAssign.Pool.{distinct-mem}
use msq_lms.Assign.{
  RoleTxContext, mapped_org, mapped_org_ids, get_covered_org_ids, lead_write_ctx, write_ctx_for_org,
}

-- The branch is the one that the actor is switched into, or one of the tenant that the actor is
-- actively mapped to.
pub data Covered (db : Db) (ctx : RoleTxContext) (org_id : Key) : Type 0 where
  here : org_id ≡ ctx.org_id → Covered db ctx org_id
  mapped :
      (m : Mapping) (o : Organization)
      → Memᴰ m db.user_org_mapping
      → Memᴰ o db.organizations
      → (m.user_id ≡ ctx.user_id) × (m.org_id ≡ org_id) × (m.is_active ≡ true)
      → (o.id ≡ org_id) × (o.tenant_id ≡ ctx.tenant_id) × (o.is_deleted ≡ false)
      → Covered db ctx org_id

module _ (db : Db) (ctx : RoleTxContext) where
  mapped_org-Covered :
      {org_id : Key} (uom : Mapping) (o : Organization)
      → Memᴰ uom db.user_org_mapping
      → Memᴰ o db.organizations
      → mapped_org ctx uom o ≡ true
      → org_id ≡ uom.org_id
      → Covered db ctx org_id
  unfolding mapped_org
  mapped_org-Covered uom o mu mo test e =
      mapped uom o mu mo (ground arith, sym e, ground arith)
        (ground arith, ground arith, ground arith)

  mapped_org_ids-Covered :
      {org_id : Key} → Memᴰ org_id (mapped_org_ids db ctx) → Covered db ctx org_id
  unfolding mapped_org_ids
  mapped_org_ids-Covered m =
      let (uom, mu, k) = mem->>= db.user_org_mapping _ (distinct-mem _ m) in
      let (o, mo, j) = mem->>= db.organizations _ k in
      let (test, i) = mem-only_if (mapped_org ctx uom o) (uom.org_id ∷ []) j in
      mapped_org-Covered uom o mu mo test (Memᴰ.eq_of_singleton i)

  pub get_covered_org_ids-Covered :
      {org_id : Key} → Memᴰ org_id (get_covered_org_ids db ctx) → Covered db ctx org_id
  unfolding get_covered_org_ids
  get_covered_org_ids-Covered m = elim (Bool-cases (is_empty (mapped_org_ids db ctx))) [
    | inl e ↦ here (Memᴰ.eq_of_singleton (rw e at m))
    | inr e ↦ mapped_org_ids-Covered (rw e at m)
  ]

  contains-Covered :
      {org_id : Key} → contains (get_covered_org_ids db ctx) org_id ≡ true → Covered db ctx org_id
  contains-Covered {org_id} h =
      let (y, m, e) = any-mem (λ y. y == org_id) (get_covered_org_ids db ctx) h in
      subst (Covered db ctx) ((==_iff y org_id).0 e) (get_covered_org_ids-Covered m)

  pub write_ctx_for_org-Covered :
      {org_id : Key} {tx : RoleTxContext}
      → write_ctx_for_org db ctx org_id ≡ ok tx
      → Covered db ctx org_id
  unfolding write_ctx_for_org
  write_ctx_for_org-Covered {org_id} h = elim (Bool-cases (org_id == ctx.org_id)) [
    | inl e ↦ here ((==_iff org_id ctx.org_id).0 e)
    | inr e ↦
        let h' = rw e at h in
        elim (Bool-cases (contains (get_covered_org_ids db ctx) org_id)) [
          | inl c ↦ contains-Covered c
          | inr c ↦ let h'' = rw c at h' in cc
        ]
  ]

  -- For a role that is neither super_admin nor tenant_admin, an edit of a lead is let into exactly
  -- the branches that an assignment is let into.
  pub lead_write_ctx-write_ctx_for_org :
      (org_id : Key)
      → str_eq ctx.role "super_admin" ≡ false
      → str_eq ctx.role "tenant_admin" ≡ false
      → ((tx : RoleTxContext) × (lead_write_ctx db ctx org_id ≡ ok tx))
        ↔ ((tx : RoleTxContext) × (write_ctx_for_org db ctx org_id ≡ ok tx))
  unfolding lead_write_ctx write_ctx_for_org
  lead_write_ctx-write_ctx_for_org org_id s t = elim (Bool-cases (org_id == ctx.org_id)) [
    | inl e ↦ rw e (λ x. x, λ x. x)
    | inr e ↦ elim (Bool-cases (contains (get_covered_org_ids db ctx) org_id)) [
      | inl c ↦ rw (e, s, t, c) (λ x. (_, refl), λ x. (_, refl))
      | inr c ↦ rw (e, s, t, c) (λ x. x, λ x. x)
    ]
  ]
