-- ===== src/Campaign/Ladder.antt =====
-- The type of a new lead: the ladder from the caller's type over the form default to the tenant's
-- default.
use mathlib.Core.List.Memᴰ
use mathlib.Core.List.Memᴰ.{of_map}
use msq_lms.Base.{
  ◌≡◌, refl, ap, Bool, true, false, ◌&&◌, Option, none, some, List, [], ◌∷◌, arith, ◌==◌, filter,
  first, first-mem, first-none, Memᴰ, mem-filter, filter-mem, Option-cases, inl, inr, Bool-cases,
  subst, map,
}
use msq_lms.Errors.{Result, ok, err, bad_request, ◌>>=◌}
use msq_lms.Db.{Key, CampaignType, Db}
use msq_lms.Campaign.{
  ResolveCampaignInput, tenant_of, in_tenant, is_live, tenant_type_if_live, tenant_default_type,
  supplied_type, next_rung, resolve_type,
}

-- A row of campaign_types with this id, in the branch's tenant.
pub record TypeRow (db : Db) (org_id type_id : Key) (row : CampaignType) : Type 0 where
  pub listed : Memᴰ row db.campaign_types
  pub its_id : row.id ≡ type_id
  pub its_tenant : tenant_of db org_id ≡ some row.tenant_id

pub record IsLive (row : CampaignType) : Type 0 where
  pub active : row.is_active ≡ true
  pub kept : row.is_deleted ≡ false

-- How a list of supplied ids chooses the type: the first one that is live in the tenant, an error
-- at the first that the tenant does not have, the tenant's default after the last.
pub data Chooses (db : Db) (org_id : Key) (r : Result (Option Key))
    : List (Option Key) → Type 0 where
  use_default : r ≡ ok (tenant_default_type db org_id) → Chooses db org_id r []
  absent : {rest : List (Option Key)} → Chooses db org_id r rest → Chooses db org_id r (none ∷ rest)
  retired :
      {c : Key} {rest : List (Option Key)} (row : CampaignType)
      → TypeRow db org_id c row
      → ¬ IsLive row
      → Chooses db org_id r rest
      → Chooses db org_id r (some c ∷ rest)
  live :
      {c : Key} {rest : List (Option Key)} (row : CampaignType)
      → TypeRow db org_id c row
      → IsLive row
      → r ≡ ok (some c)
      → Chooses db org_id r (some c ∷ rest)
  foreign :
      {c : Key} {rest : List (Option Key)}
      → ((row : CampaignType) → ¬ TypeRow db org_id c row)
      → r ≡ err bad_request
      → Chooses db org_id r (some c ∷ rest)

in_tenant-eq : (t : Option Key) (k : Key) → in_tenant t k ≡ true → t ≡ some k
unfolding in_tenant
in_tenant-eq none k h = cc
in_tenant-eq (some t) k h = ground arith

eq-in_tenant : (t : Option Key) (k : Key) → t ≡ some k → in_tenant t k ≡ true
unfolding in_tenant
eq-in_tenant none k h = cc
eq-in_tenant (some t) k h = ground arith

IsLive-is_live : (row : CampaignType) → IsLive row → is_live row ≡ true
unfolding is_live
IsLive-is_live row h = ground arith

is_live-IsLive : (row : CampaignType) → is_live row ≡ true → IsLive row
unfolding is_live
is_live-IsLive row h = ground arith

module _ (db : Db) (org_id : Key) where
  -- The WHERE clause of `tenantTypeIfLive`.
  abbrev wanted : Key → CampaignType → Bool
  wanted c ct = ct.id == c && in_tenant (tenant_of db org_id) ct.tenant_id

  wanted-TypeRow :
      (c : Key) (row : CampaignType)
      → Memᴰ row (filter (wanted c) db.campaign_types)
      → TypeRow db org_id c row
  wanted-TypeRow c row m =
      let (listed, h) = mem-filter (wanted c) db.campaign_types m in
      record {
        listed = listed;
        its_id = ground arith;
        its_tenant = in_tenant-eq (tenant_of db org_id) row.tenant_id (ground arith);
      }

  TypeRow-wanted :
      (c : Key) (row : CampaignType)
      → TypeRow db org_id c row
      → Memᴰ row (filter (wanted c) db.campaign_types)
  TypeRow-wanted c row t =
      filter-mem (wanted c) t.listed
        (ground (arith, eq-in_tenant (tenant_of db org_id) row.tenant_id t.its_tenant))

  -- The three answers of `tenantTypeIfLive`.
  data Lookup (c : Key) (r : Result (Option Key)) : Type 0 where
    unknown : r ≡ err bad_request → ((row : CampaignType) → ¬ TypeRow db org_id c row) → Lookup c r
    dead : (row : CampaignType) → r ≡ ok none → TypeRow db org_id c row → ¬ IsLive row → Lookup c r
    usable :
        (row : CampaignType) → r ≡ ok (some c) → TypeRow db org_id c row → IsLive row → Lookup c r

  Lookup-tenant_type_if_live : (c : Key) → Lookup c (tenant_type_if_live db org_id c)
  unfolding tenant_type_if_live
  Lookup-tenant_type_if_live c = elim (Option-cases (first (filter (wanted c) db.campaign_types))) [
    | inl e ↦ unknown (rw e) (λ row t. Memᴰ.not-nil (
        subst (λ l. Memᴰ row l) (first-none (filter (wanted c) db.campaign_types) e)
          (TypeRow-wanted c row t)))
    | inr (row, e) ↦
        let t = wanted-TypeRow c row (first-mem (filter (wanted c) db.campaign_types) e) in
        elim (Bool-cases (is_live row)) [
          | inl l ↦ usable row (rw (e, l) (ap (λ x. ok (some x)) t.its_id)) t (is_live-IsLive row l)
          | inr d ↦ dead row (rw (e, d)) t (λ l. cc (IsLive-is_live row l))
        ]
  ]

  -- One rung, whatever the later ones answer.
  rung-Chooses :
      (candidate : Option Key) (rest : List (Option Key)) (later : Result (Option Key))
      → Chooses db org_id later rest
      → Chooses db org_id
          (supplied_type db org_id candidate >>= λ found. next_rung found later)
          (candidate ∷ rest)
  unfolding supplied_type next_rung
  rung-Chooses none rest later h = absent h
  rung-Chooses (some c) rest later h =
      go (tenant_type_if_live db org_id c) (Lookup-tenant_type_if_live c)
    where
      go :
          (r : Result (Option Key))
          → Lookup c r
          → Chooses db org_id (r >>= λ found. next_rung found later) (some c ∷ rest)
      go r (unknown e none_there) = foreign none_there (rw e)
      go r (dead row e t d) = retired row t d (rw e h)
      go r (usable row e t l) = live row t l (rw e)

  -- The type of a new lead is chosen from the caller's type and the form default, in that order: the
  -- first that is live in the branch's tenant wins, one that the tenant has retired is passed over,
  -- one that the tenant does not have ends in a bad request, and where none is left the tenant's
  -- default type is taken.
  pub resolve_type-Chooses :
      (input : ResolveCampaignInput)
      → Chooses db org_id
          (resolve_type db org_id input)
          (input.campaign_type_id ∷ input.default_campaign_type_id ∷ [])
  unfolding resolve_type
  resolve_type-Chooses input =
      rung-Chooses input.campaign_type_id (input.default_campaign_type_id ∷ []) _ (
        rung-Chooses input.default_campaign_type_id [] (ok (tenant_default_type db org_id))
          (use_default refl))

  default-TypeRow :
      {type_id : Key}
      → tenant_default_type db org_id ≡ some type_id
      → (row : CampaignType) × TypeRow db org_id type_id row × IsLive row
  unfolding tenant_default_type
  default-TypeRow {type_id} e =
      let test = λ (ct : CampaignType).
        ct.is_default && is_live ct && in_tenant (tenant_of db org_id) ct.tenant_id in
      let (row, m, same_id) =
        of_map (λ ct. ct.id) (filter test db.campaign_types)
          (first-mem (map (λ ct. ct.id) (filter test db.campaign_types)) e) in
      let (listed, h) = mem-filter test db.campaign_types m in
      (
        row,
        record {
          listed = listed;
          its_id = same_id;
          its_tenant = in_tenant-eq (tenant_of db org_id) row.tenant_id (ground arith);
        },
        is_live-IsLive row (ground arith),
      )

  chosen-TypeRow :
      {r : Result (Option Key)} {candidates : List (Option Key)} {type_id : Key}
      → Chooses db org_id r candidates
      → r ≡ ok (some type_id)
      → (row : CampaignType) × TypeRow db org_id type_id row × IsLive row
  chosen-TypeRow (use_default p) e = default-TypeRow (ground arith)
  chosen-TypeRow (absent h) e = chosen-TypeRow h e
  chosen-TypeRow (retired row t d h) e = chosen-TypeRow h e
  chosen-TypeRow {type_id} (live {c} row t l p) e =
      let same_id : c ≡ type_id = ground arith in
      (row, subst (λ k. TypeRow db org_id k row) same_id t, l)
  chosen-TypeRow (foreign n p) e = absurd (ground arith)

  -- A type that a new lead is given is an active, undeleted type of the branch's own tenant,
  -- wherever the id came from.
  pub resolve_type-TypeRow :
      (input : ResolveCampaignInput) {type_id : Key}
      → resolve_type db org_id input ≡ ok (some type_id)
      → (row : CampaignType) × TypeRow db org_id type_id row × IsLive row
  resolve_type-TypeRow input e = chosen-TypeRow (resolve_type-Chooses input) e
