-- ===== src/Reclassify/Predicate.antt =====
-- Which leads are on the campaign, and that the candidates are among them.
use mathlib.Core.List.Memᴰ
use msq_lms.Base.{
  ◌≡◌, refl, sym, ap, ap₂, Bool, true, false, List, [], ◌∷◌, map, Memᴰ, any, ◌||◌, arith, inl, inr,
  ◌⊎◌, if◌then◌else◌, Bool-cases, mem->>=, mem-only_if, mem-any, any-mem, some, none,
}
use msq_lms.Db.{Key, Organization, AdCampaign, Lead, Db}
use msq_lms.Reclassify.{
  CandidateLead, on_campaign_row, campaign_leads_predicate, on_campaign, is_reroutable, precedes,
  insert_ordered, order_by_org, select_reroutable_leads, campaign_differs, relabel_campaigns,
}

-- The lead is on the campaign, in a branch of the tenant.
abbrev pub in_campaign : Db → Key → Key → Lead → Bool
in_campaign db meta_id tenant_id ml =
    any (λ o. on_campaign db.ad_campaigns meta_id tenant_id o ml) db.organizations

any-map :
    (p : AdCampaign → Bool) (f : AdCampaign → AdCampaign) (xs : List AdCampaign)
    → ((x : AdCampaign) → p (f x) ≡ p x)
    → any p (map f xs) ≡ any p xs
any-map p f [] h = refl
any-map p f (x ∷ xs) h = ap₂ (λ a b. a || b) (h x) (any-map p f xs h)

row_kept :
    (b : Bool) (meta_id type_id : Key) (ml : Lead) (ac : AdCampaign)
    → on_campaign_row meta_id ml (if b then record ac { campaign_type_id = some type_id } else ac)
      ≡ on_campaign_row meta_id ml ac
unfolding on_campaign_row
row_kept true meta_id type_id ml ac = refl
row_kept false meta_id type_id ml ac = refl

-- A relabelled campaign has the leads that it had.
pub in_campaign-relabel_campaigns :
    (db : Db) (meta_id tenant_id type_id : Key) (ml : Lead)
    → in_campaign (relabel_campaigns db meta_id tenant_id type_id) meta_id tenant_id ml
      ≡ in_campaign db meta_id tenant_id ml
unfolding relabel_campaigns on_campaign campaign_leads_predicate
in_campaign-relabel_campaigns db meta_id tenant_id type_id ml =
    let f = λ (ac : AdCampaign).
      if campaign_differs db meta_id tenant_id type_id ac
      then record ac { campaign_type_id = some type_id }
      else ac in
    rw (
      any-map (on_campaign_row meta_id ml) f db.ad_campaigns
        (λ ac. row_kept _ meta_id type_id ml ac))

mem-insert_ordered :
    (c : CandidateLead) (ds : List CandidateLead) {x : CandidateLead}
    → Memᴰ x (insert_ordered c ds)
    → (x ≡ c) ⊎ Memᴰ x ds
unfolding insert_ordered
mem-insert_ordered c [] m = inl (Memᴰ.eq_of_singleton m)
mem-insert_ordered c (d ∷ ds) m = elim (Bool-cases (precedes c d)) [
  | inl e ↦ Memᴰ.cases_cons (rw e at m)
  | inr e ↦ elim (Memᴰ.cases_cons (rw e at m)) [
    | inl h ↦ inr (Memᴰ.head h)
    | inr k ↦ elim (mem-insert_ordered c ds k) [ inl h ↦ inl h | inr j ↦ inr (Memᴰ.tail j) ]
  ]
]

mem-order_by_org :
    (cs : List CandidateLead) {x : CandidateLead} → Memᴰ x (order_by_org cs) → Memᴰ x cs
unfolding order_by_org
mem-order_by_org [] m = m
mem-order_by_org (c ∷ cs) m = elim (mem-insert_ordered c (order_by_org cs) m) [
  | inl e ↦ Memᴰ.head e
  | inr k ↦ Memᴰ.tail (mem-order_by_org cs k)
]

-- A candidate is a lead of the campaign.
pub record Candidate (db : Db) (meta_id tenant_id : Key) (c : CandidateLead) : Type 0 where
  pub lead : Lead
  pub listed : Memᴰ lead db.marketing_leads
  pub its_id : lead.id ≡ c.id
  pub is_on : in_campaign db meta_id tenant_id lead ≡ true

reroutable-on_campaign :
    (db : Db) (meta_id tenant_id new_type : Key) (o : Organization) (ml : Lead)
    → is_reroutable db meta_id tenant_id new_type o ml ≡ true
    → on_campaign db.ad_campaigns meta_id tenant_id o ml ≡ true
unfolding is_reroutable
reroutable-on_campaign db meta_id tenant_id new_type o ml h = ground arith

pub select_reroutable_leads-Candidate :
    (db : Db) (meta_id tenant_id new_type : Key) (c : CandidateLead)
    → Memᴰ c (select_reroutable_leads db meta_id tenant_id new_type)
    → Candidate db meta_id tenant_id c
unfolding select_reroutable_leads
select_reroutable_leads-Candidate db meta_id tenant_id new_type c m =
    let (ml, listed, m1) = mem->>= db.marketing_leads _ (mem-order_by_org _ m) in
    let (o, there, m2) = mem->>= db.organizations _ m1 in
    let (chosen, m3) = mem-only_if _ _ m2 in
    record {
      lead = ml;
      listed = listed;
      its_id = sym (ap (λ x. x.id) (Memᴰ.eq_of_singleton m3));
      is_on =
          mem-any (λ p. on_campaign db.ad_campaigns meta_id tenant_id p ml) there
            (reroutable-on_campaign db meta_id tenant_id new_type o ml chosen);
    }

-- What being on a campaign means: the branch is the tenant's, and the lead's own campaign row or,
-- where it has none, its metadata names the Meta campaign.
pub record OnCampaign (db : Db) (meta_id tenant_id : Key) (ml : Lead) : Type 0 where
  pub branch : Organization
  pub branch_listed : Memᴰ branch db.organizations
  pub its_branch : branch.id ≡ ml.org_id
  pub its_tenant : branch.tenant_id ≡ tenant_id
  pub kept : ml.is_deleted ≡ false
  pub link :
      ((ac : AdCampaign) × Memᴰ ac db.ad_campaigns
        × (ml.campaign_id ≡ some ac.id)
        × (ac.meta_campaign_id ≡ some meta_id))
      ⊎ ((ml.campaign_id ≡ none) × (ml.meta_campaign ≡ some meta_id))

on_campaign_row-eq :
    (meta_id : Key) (ml : Lead) (ac : AdCampaign)
    → on_campaign_row meta_id ml ac ≡ true
    → (ml.campaign_id ≡ some ac.id) × (ac.meta_campaign_id ≡ some meta_id)
unfolding on_campaign_row
on_campaign_row-eq meta_id ml ac h = ground arith

eq-on_campaign_row :
    (meta_id : Key) (ml : Lead) (ac : AdCampaign)
    → ml.campaign_id ≡ some ac.id
    → ac.meta_campaign_id ≡ some meta_id
    → on_campaign_row meta_id ml ac ≡ true
unfolding on_campaign_row
eq-on_campaign_row meta_id ml ac h k = ground arith

pub in_campaign-OnCampaign :
    (db : Db) (meta_id tenant_id : Key) (ml : Lead)
    → in_campaign db meta_id tenant_id ml ≡ true
    → OnCampaign db meta_id tenant_id ml
unfolding on_campaign campaign_leads_predicate
in_campaign-OnCampaign db meta_id tenant_id ml h =
    let (o, listed, e) =
      any-mem (λ o. on_campaign db.ad_campaigns meta_id tenant_id o ml) db.organizations h in
    record {
      branch = o;
      branch_listed = listed;
      its_branch = ground arith;
      its_tenant = ground arith;
      kept = ground arith;
      link = elim (Bool-cases (any (on_campaign_row meta_id ml) db.ad_campaigns)) [
        | inl there ↦
            let (ac, m, p) = any-mem (on_campaign_row meta_id ml) db.ad_campaigns there in
            let (q, r) = on_campaign_row-eq meta_id ml ac p in inl (ac, m, q, r)
        | inr none_there ↦ inr (ground arith, ground arith)
      ];
    }

pub OnCampaign-in_campaign :
    (db : Db) (meta_id tenant_id : Key) (ml : Lead)
    → OnCampaign db meta_id tenant_id ml
    → in_campaign db meta_id tenant_id ml ≡ true
unfolding on_campaign campaign_leads_predicate
OnCampaign-in_campaign db meta_id tenant_id ml c =
    mem-any (λ o. on_campaign db.ad_campaigns meta_id tenant_id o ml) c.branch_listed
      (elim c.link [
        | inl (ac, m, p, q) ↦ ground (
          arith,
          c.its_branch,
          mem-any (on_campaign_row meta_id ml) m (eq-on_campaign_row meta_id ml ac p q),
        )
        | inr (p, q) ↦ ground (arith, c.its_branch)
      ])
