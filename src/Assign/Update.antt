-- ===== src/Assign/Update.antt =====
-- What an UPDATE of the assignee leaves in the table of leads.
use Prim.Native.String.{String}
use mathlib.Core.List.Memᴰ
use mathlib.Core.List.Memᴰ.{of_map}
use msq_lms.Base.{
  ◌≡◌, ◌≢◌, ◌⊎◌, inl, inr, refl, sym, ◌∙◌, subst, Bool, true, false, Option, Memᴰ, any, any-mem,
  if◌then◌else◌, Bool-cases,
}
use msq_lms.Errors.{Result, ok, ok-injective}
use msq_lms.Db.{Key, Lead, Db}
use msq_lms.Authz.{LmsRanks}
use msq_lms.Assign.{RoleTxContext, set_assignee, update_leads}

-- A lead that `test` picks gets the assignee; the others, and the other tables, stay as they are.
pub record Updated (test : Lead → Type 0) (assignee : Option Key) (db db' : Db) : Type 0 where
  pub written : Lead
  pub listed : Memᴰ written db.marketing_leads
  pub tested : test written
  pub stored : Memᴰ (record written { assigned_user_id = assignee }) db'.marketing_leads
  pub rows :
      (l : Lead)
      → Memᴰ l db'.marketing_leads
      → Memᴰ l db.marketing_leads
        ⊎ ((l0 : Lead) × Memᴰ l0 db.marketing_leads
            × test l0
            × (l ≡ record l0 { assigned_user_id = assignee }))
  pub remains :
      (l : Lead)
      → Memᴰ l db.marketing_leads
      → Memᴰ l db'.marketing_leads
        ⊎ (test l × Memᴰ (record l { assigned_user_id = assignee }) db'.marketing_leads)
  pub other_tables : db' ≡ record db { marketing_leads = db'.marketing_leads }

module _ (is_tenant_wide_role : String → Bool) (sees : RoleTxContext → Lead → Bool)
    (ranks : LmsRanks) where
  set_assignee-cases :
      (test : Lead → Bool) (assignee : Option Key) (l : Lead)
      → (set_assignee is_tenant_wide_role sees ranks test assignee l ≡ l)
        ⊎ ((test l ≡ true)
            × (set_assignee is_tenant_wide_role sees ranks test assignee l
                ≡ record l { assigned_user_id = assignee }))
  unfolding set_assignee
  set_assignee-cases test assignee l = elim (Bool-cases (test l)) [
    | inl e ↦ inr (e, rw e)
    | inr e ↦ inl (rw e)
  ]

  pub set_assignee-eq :
      (test : Lead → Bool) (assignee : Option Key) (l : Lead)
      → test l ≡ true
      → set_assignee is_tenant_wide_role sees ranks test assignee l
        ≡ record l { assigned_user_id = assignee }
  unfolding set_assignee
  set_assignee-eq test assignee l e = rw e

  pub set_assignee-ne :
      (test : Lead → Bool) (assignee : Option Key) (l : Lead)
      → test l ≡ false
      → set_assignee is_tenant_wide_role sees ranks test assignee l ≡ l
  unfolding set_assignee
  set_assignee-ne test assignee l e = rw e

  -- The image of a row, and where a row comes from.
  pub update_leads-mem :
      (test : Lead → Bool) (assignee : Option Key) (db : Db) (l : Lead)
      → Memᴰ l db.marketing_leads
      → Memᴰ
          (set_assignee is_tenant_wide_role sees ranks test assignee l)
          (update_leads is_tenant_wide_role sees ranks test assignee db).marketing_leads
  unfolding update_leads
  update_leads-mem test assignee db l m =
      Memᴰ.map (set_assignee is_tenant_wide_role sees ranks test assignee) m

  pub mem-update_leads :
      (test : Lead → Bool) (assignee : Option Key) (db : Db) (l : Lead)
      → Memᴰ l (update_leads is_tenant_wide_role sees ranks test assignee db).marketing_leads
      → Memᴰ l db.marketing_leads
        ⊎ ((l0 : Lead) × Memᴰ l0 db.marketing_leads
            × (test l0 ≡ true)
            × (l ≡ record l0 { assigned_user_id = assignee }))
  unfolding update_leads
  mem-update_leads test assignee db l m =
      let (l0, k0, f) =
        of_map (set_assignee is_tenant_wide_role sees ranks test assignee) db.marketing_leads m in
      elim (set_assignee-cases test assignee l0) [
        | inl same ↦ inl (subst (λ y. Memᴰ y db.marketing_leads) (sym same ∙ f) k0)
        | inr (t0, changed) ↦ inr (l0, k0, t0, sym f ∙ changed)
      ]

  update_leads_other :
      (test : Lead → Bool) (assignee : Option Key) (db : Db)
      → update_leads is_tenant_wide_role sees ranks test assignee db ≡ record db {
        marketing_leads =
            (update_leads is_tenant_wide_role sees ranks test assignee db).marketing_leads;
      }
  unfolding update_leads
  update_leads_other test assignee db = refl

  -- What becomes of a row.
  pub update_leads_remains :
      (test : Lead → Bool) (assignee : Option Key) (db : Db) (l : Lead)
      → Memᴰ l db.marketing_leads
      → Memᴰ l (update_leads is_tenant_wide_role sees ranks test assignee db).marketing_leads
        ⊎ ((test l ≡ true)
            × Memᴰ
                (record l { assigned_user_id = assignee })
                (update_leads is_tenant_wide_role sees ranks test assignee db).marketing_leads)
  update_leads_remains test assignee db l m =
      let table = (update_leads is_tenant_wide_role sees ranks test assignee db).marketing_leads in
      let image = update_leads-mem test assignee db l m in
      elim (set_assignee-cases test assignee l) [
        | inl same ↦ inl (subst (λ x. Memᴰ x table) same image)
        | inr (t, changed) ↦ inr (t, subst (λ x. Memᴰ x table) changed image)
      ]

  -- An update that matches a row writes what the test says, and nothing else.
  update_leads-Updated :
      (test : Lead → Bool) (P : Lead → Type 0) (assignee : Option Key) (db db' : Db)
      → ((l : Lead) → test l ≡ true → P l)
      → any test db.marketing_leads ≡ true
      → update_leads is_tenant_wide_role sees ranks test assignee db ≡ db'
      → Updated P assignee db db'
  update_leads-Updated test P assignee db db' reads some_row e =
      let (l, m, t) = any-mem test db.marketing_leads some_row in
      subst (Updated P assignee db) e (record {
        written = l;
        listed = m;
        tested = reads l t;
        stored =
            subst
              (λ x.
                Memᴰ x
                  (update_leads is_tenant_wide_role sees ranks test assignee db).marketing_leads)
              (set_assignee-eq test assignee l t) (update_leads-mem test assignee db l m);
        rows = λ x k. elim (mem-update_leads test assignee db x k) [
          | inl old ↦ inl old
          | inr (l0, k0, t0, f) ↦ inr (l0, k0, reads l0 t0, f)
        ];
        remains = λ x k. elim (update_leads_remains test assignee db x k) [
          | inl same ↦ inl same
          | inr (t0, changed) ↦ inr (reads x t0, changed)
        ];
        other_tables = update_leads_other test assignee db;
      })

  pub update_or_throw-Updated :
      (test : Lead → Bool) (P : Lead → Type 0) (assignee : Option Key) (otherwise : Result Db)
      (db db' : Db)
      → ((l : Lead) → test l ≡ true → P l)
      → otherwise ≢ ok db'
      → (if any test db.marketing_leads
          then ok (update_leads is_tenant_wide_role sees ranks test assignee db)
          else otherwise)
        ≡ ok db'
      → Updated P assignee db db'
  update_or_throw-Updated test P assignee otherwise db db' reads throws e =
      elim (Bool-cases (any test db.marketing_leads)) [
        | inl hit ↦
            update_leads-Updated test P assignee db db' reads hit (ok-injective (rw hit at e))
        | inr miss ↦ absurd (throws (rw miss at e))
      ]
