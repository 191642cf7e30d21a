-- ===== src/Reclassify/Relabelled.antt =====
-- What the real run leaves behind: every lead of the campaign has the new type, and no other lead
-- has changed.
use mathlib.Core.List.Memᴰ
use mathlib.Core.List.Memᴰ.{of_map}
use msq_lms.Base.{
  ℕ, ◌≡◌, refl, sym, ap, ◌∙◌, subst, Bool, true, false, not, ◌&&◌, some, List, [], ◌∷◌, map, Memᴰ,
  arith, inl, inr, ◌⊎◌, if◌then◌else◌, Bool-cases, ==_iff, ◌==◌, contains, any-mem, same, same_iff,
  false≢true, Option-cases, first, filter, first-mem, mem-filter,
}
use msq_lms.Errors.{ok, ok-injective}
use msq_lms.Db.{Key, CampaignType, Lead, Db}
use msq_lms.AutoAssign.{Deficits, AutoAssignResult}
use msq_lms.Reclassify.{
  ReclassifyBranchResult, ReclassifyResult, CandidateLead, Tally, relabel_one, relabel_leads,
  relabel_campaigns, move_one, move_lead, reroute, relabel, reclassify_with, reclassify_found,
  reclassify_campaign, select_reroutable_leads,
}
use msq_lms.Reclassify.Ids.{lead_ids, lead_ids-reclassify_with}
use msq_lms.Reclassify.Predicate.{
  in_campaign, in_campaign-relabel_campaigns, OnCampaign, in_campaign-OnCampaign,
  OnCampaign-in_campaign, Candidate, select_reroutable_leads-Candidate,
}

-- The primary key of marketing_leads.
abbrev pub UniqueIds : Db → Type 0
UniqueIds db =
    (a b : Lead) → Memᴰ a db.marketing_leads → Memᴰ b db.marketing_leads → a.id ≡ b.id → a ≡ b

module _ (db : Db) (meta_id tenant_id type_id : Key) where
  -- A lead on its way: where it came from, and what is still to be done to it.
  pub record Trace (remaining : List CandidateLead) (l : Lead) : Type 0 where
    pub origin : Lead
    pub listed : Memᴰ origin db.marketing_leads
    pub same_id : l.id ≡ origin.id
    pub outside : in_campaign db meta_id tenant_id origin ≡ false → l ≡ origin
    pub inside :
        in_campaign db meta_id tenant_id origin ≡ true
        → (l.campaign_type_id ≡ some type_id)
          ⊎ ((c : CandidateLead) × Memᴰ c remaining × (c.id ≡ l.id))

  waiting :
      (cs : List CandidateLead) (o : Lead)
      → contains (map (λ c. c.id) cs) o.id ≡ true
      → (c : CandidateLead) × Memᴰ c cs × (c.id ≡ o.id)
  waiting cs o e =
      let (id, m, same_id) = any-mem (λ y. y == o.id) (map (λ (c : CandidateLead). c.id) cs) e in
      let (c, k, its_id) = of_map (λ (c : CandidateLead). c.id) cs m in
      (c, k, its_id ∙ (==_iff id o.id).0 same_id)

  -- The three tests of the relabelling UPDATE, and what each lead is left with.
  Trace-if :
      (cs : List CandidateLead) (o : Lead)
      → Memᴰ o db.marketing_leads
      → (here typed excluded : Bool) → in_campaign db meta_id tenant_id o ≡ here
      → (typed ≡ true → o.campaign_type_id ≡ some type_id)
      → (excluded ≡ true → (c : CandidateLead) × Memᴰ c cs × (c.id ≡ o.id))
      → Trace cs (
          if here && not typed && not excluded
          then record o { campaign_type_id = some type_id }
          else o)
  Trace-if cs o m false typed excluded h t x = record {
    origin = o;
    listed = m;
    same_id = refl;
    outside = λ _. refl;
    inside = λ k. cc;
  }
  Trace-if cs o m true true excluded h t x = record {
    origin = o;
    listed = m;
    same_id = refl;
    outside = λ k. cc;
    inside = λ _. inl (t refl);
  }
  Trace-if cs o m true false true h t x = record {
    origin = o;
    listed = m;
    same_id = refl;
    outside = λ k. cc;
    inside = λ _. inr (x refl);
  }
  Trace-if cs o m true false false h t x = record {
    origin = o;
    listed = m;
    same_id = refl;
    outside = λ k. cc;
    inside = λ _. inl refl;
  }

  Trace-relabel_one :
      (cs : List CandidateLead) (o : Lead)
      → Memᴰ o db.marketing_leads
      → Trace cs (
          relabel_one
            (relabel_campaigns db meta_id tenant_id type_id)
            meta_id
            tenant_id
            type_id
            (map (λ c. c.id) cs)
            o)
  unfolding relabel_one
  Trace-relabel_one cs o m =
      let excluded = map (λ (c : CandidateLead). c.id) cs in
      rw (in_campaign-relabel_campaigns db meta_id tenant_id type_id o) (
        Trace-if cs o m (in_campaign db meta_id tenant_id o)
          (same o.campaign_type_id (some type_id)) (contains excluded o.id) refl
          (λ e. (same_iff o.campaign_type_id (some type_id)).0 e) (λ e. waiting cs o e))

  Trace-move_one :
      (c : CandidateLead) (cs : List CandidateLead) (pick : AutoAssignResult) (l : Lead)
      → UniqueIds db
      → Candidate db meta_id tenant_id c
      → Trace (c ∷ cs) l
      → Trace cs (move_one c.id type_id pick l)
  unfolding move_one
  Trace-move_one c cs pick l unique k t = elim (Bool-cases (l.id == c.id)) [
    | inl here ↦ rw here (record {
      origin = t.origin;
      listed = t.listed;
      same_id = t.same_id;
      outside = λ out.
          let e =
            unique t.origin k.lead t.listed k.listed
              (sym t.same_id ∙ (==_iff l.id c.id).0 here ∙ sym k.its_id) in
          cc (out, k.is_on, ap (λ x. in_campaign db meta_id tenant_id x) e);
      inside = λ _. inl refl;
    })
    | inr elsewhere ↦ rw elsewhere (record {
      origin = t.origin;
      listed = t.listed;
      same_id = t.same_id;
      outside = t.outside;
      inside = λ h. elim (t.inside h) [
        | inl e ↦ inl e
        | inr (d, j, e) ↦ elim (Memᴰ.cases_cons j) [
          | inl p ↦
              absurd (false≢true (sym elsewhere ∙ (==_iff l.id c.id).1 (sym e ∙ ap (λ x. x.id) p)))
          | inr i ↦ inr (d, i, e)
        ]
      ];
    })
  ]

  module _ (has_lms : Key → Key → Bool) (arithmetic : Deficits) (draw : Key → ℕ → ℕ)
      (sort_by_name : List ReclassifyBranchResult → List ReclassifyBranchResult)
      (unique : UniqueIds db) where
    Trace-reroute :
        (cs : List CandidateLead) (now : Db) (t : Tally)
        → ((c : CandidateLead) → Memᴰ c cs → Candidate db meta_id tenant_id c)
        → ((l : Lead) → Memᴰ l now.marketing_leads → Trace cs l)
        → (l : Lead)
        → Memᴰ l
            (reroute has_lms arithmetic draw sort_by_name false type_id cs now t).0.marketing_leads
        → Trace [] l
    unfolding reroute move_lead
    Trace-reroute [] now t ks h l m = h l m
    Trace-reroute (c ∷ cs) now t ks h l m =
        Trace-reroute cs _ _ (λ d j. ks d (Memᴰ.tail j))
          (λ k j.
            let (before, i, e) = of_map _ now.marketing_leads j in
            subst (Trace cs) e
              (Trace-move_one c cs _ before unique (ks c (Memᴰ.head refl)) (h before i)))
          l m

-- What became of a lead of the tables before the run.
pub record Fate (db : Db) (meta_id tenant_id type_id : Key) (l : Lead) : Type 0 where
  pub origin : Lead
  pub listed : Memᴰ origin db.marketing_leads
  pub same_id : l.id ≡ origin.id
  pub relabelled : OnCampaign db meta_id tenant_id origin → l.campaign_type_id ≡ some type_id
  pub untouched : ¬ OnCampaign db meta_id tenant_id origin → l ≡ origin

Trace-Fate :
    (db : Db) (meta_id tenant_id type_id : Key) (l : Lead)
    → Trace db meta_id tenant_id type_id [] l
    → Fate db meta_id tenant_id type_id l
Trace-Fate db meta_id tenant_id type_id l t = record {
  origin = t.origin;
  listed = t.listed;
  same_id = t.same_id;
  relabelled = λ on. elim (t.inside (OnCampaign-in_campaign db meta_id tenant_id t.origin on)) [
    | inl e ↦ e
    | inr (c, m, e) ↦ absurd (Memᴰ.not-nil m)
  ];
  untouched = λ off. elim (Bool-cases (in_campaign db meta_id tenant_id t.origin)) [
    | inl e ↦ absurd (off (in_campaign-OnCampaign db meta_id tenant_id t.origin e))
    | inr e ↦ t.outside e
  ];
}

module _ (has_lms : Key → Key → Bool) (arithmetic : Deficits) (draw : Key → ℕ → ℕ)
    (sort_by_name : List ReclassifyBranchResult → List ReclassifyBranchResult) where
  reclassify_with-Fate :
      (db : Db) (meta_id : Key) (new_type : CampaignType)
      → UniqueIds db
      → (l : Lead)
      → Memᴰ l
          (reclassify_with has_lms arithmetic draw sort_by_name false db meta_id
            new_type).1.marketing_leads
      → Fate db meta_id new_type.tenant_id new_type.id l
  unfolding reclassify_with relabel relabel_leads relabel_campaigns
  reclassify_with-Fate db meta_id new_type unique l m =
      let cs = select_reroutable_leads db meta_id new_type.tenant_id new_type.id in
      Trace-Fate db meta_id new_type.tenant_id new_type.id l (
        Trace-reroute db meta_id new_type.tenant_id new_type.id has_lms arithmetic draw sort_by_name
          unique cs _ _
          (select_reroutable_leads-Candidate db meta_id new_type.tenant_id new_type.id)
          (λ k j.
            let (o, i, e) = of_map _ db.marketing_leads j in
            subst (Trace db meta_id new_type.tenant_id new_type.id cs) e
              (Trace-relabel_one db meta_id new_type.tenant_id new_type.id cs o i))
          l m)

  -- After a real run that succeeds, every lead of the Meta campaign in the tenant of the new type
  -- has that type, and every other lead is as it was; the rows of leads are, by id and in order,
  -- those before the run. Lead ids are assumed unique.
  pub reclassify_campaign-Fate :
      (db db' : Db) (meta_id type_id : Key) (report : ReclassifyResult)
      → UniqueIds db
      → reclassify_campaign has_lms arithmetic draw sort_by_name false db (some meta_id) type_id
        ≡ ok (report, db')
      → (new_type : CampaignType) × Memᴰ new_type db.campaign_types
        × (new_type.id ≡ type_id)
        × (lead_ids db' ≡ lead_ids db)
        × ((l : Lead) → Memᴰ l db'.marketing_leads → Fate db meta_id new_type.tenant_id type_id l)
  unfolding reclassify_campaign
  reclassify_campaign-Fate db db' meta_id type_id report unique e =
      let test = λ (ct : CampaignType). ct.id == type_id && ct.is_active && not ct.is_deleted in
      elim (Option-cases (first (filter test db.campaign_types))) [
        | inl missing ↦ cc (rw (missing, reclassify_found) at e)
        | inr (new_type, found) ↦
            let (listed, p) =
              mem-filter test db.campaign_types (first-mem (filter test db.campaign_types) found) in
            let its_id : new_type.id ≡ type_id = ground arith in
            let done = rw (found, reclassify_found) at e in
            (
              new_type,
              listed,
              its_id,
              ap (map (λ (l : Lead). l.id)) (sym (after done))
                  ∙ lead_ids-reclassify_with has_lms arithmetic draw sort_by_name db meta_id
                      new_type,
              λ l m.
                  subst (λ k. Fate db meta_id new_type.tenant_id k l) its_id
                    (reclassify_with-Fate db meta_id new_type unique l (rw (after done) m)),
            )
      ]
    where
      after :
          {x : ReclassifyResult × Db}
          → ok x ≡ ok (report, db')
          → x.1.marketing_leads ≡ db'.marketing_leads
      after h = ap (λ y. y.1.marketing_leads) (ok-injective h)
