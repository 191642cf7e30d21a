-- ===== src/Meta/Typing/Guesses.antt =====
-- A lead that arrives never decides the type of its campaign.
use mathlib.Core.List.Memᴰ
use mathlib.Core.List.Memᴰ.{append_left, append_cases, cases_cons, of_map}
use msq_lms.Base.{
  ◌≡◌, refl, sym, ap, ◌∙◌, subst, Bool, true, false, Option, none, some, List, [], ◌∷◌, map, any,
  Memᴰ, arith, Bool-cases, inl, inr, ◌==◌, is_none,
}
use msq_lms.Db.{Key}
use msq_lms.Meta.Typing.{
  is_confirmed, RuleNames, RuleMatch, MetaCampaign, TypingDb, ResolveCampaignTypeInput,
  suggested_status, discovered, suggest, flag, name_row, match_campaign_rules, by_name,
  refresh_suggestion, suggestion_for, insert_campaign, named_row, from_row, found_row,
  campaign_step, read_campaign_row, resolve_campaign_type,
}
use msq_lms.Meta.Contact.{then_maybe}

-- The same campaign, with the same tenant and type, and confirmed if and only if it was.
pub record Same (r s : MetaCampaign) : Type 0 where
  same_id : r.meta_campaign_id ≡ s.meta_campaign_id
  same_tenant : r.tenant_id ≡ s.tenant_id
  same_type : r.campaign_type_id ≡ s.campaign_type_id
  same_confirmed : is_confirmed r.mapping_status ≡ is_confirmed s.mapping_status

-- A row of the table afterwards: one that was there, or one of the tenant for a campaign that was
-- not there, of no type and not confirmed.
pub data From (tenant_id : Key) (before : List MetaCampaign) (s : MetaCampaign) : Type 0 where
  kept : (r : MetaCampaign) → Memᴰ r before → Same r s → From tenant_id before s
  found :
      s.tenant_id ≡ tenant_id
      → any (λ (mc : MetaCampaign). mc.meta_campaign_id == s.meta_campaign_id) before ≡ false
      → s.campaign_type_id ≡ none
      → is_confirmed s.mapping_status ≡ false
      → From tenant_id before s

abbrev pub Remain : List MetaCampaign → List MetaCampaign → Type 0
Remain before after =
    (r : MetaCampaign) → Memᴰ r before → (s : MetaCampaign) × Memᴰ s after × Same r s

pub record Guarded (tenant_id : Key) (before after : List MetaCampaign) : Type 0 where
  pub rows : (s : MetaCampaign) → Memᴰ s after → From tenant_id before s
  pub remain : Remain before after

-- Rows that are updated where they stand.
record Kept (before after : List MetaCampaign) : Type 0 where
  rows : (s : MetaCampaign) → Memᴰ s after → (r : MetaCampaign) × Memᴰ r before × Same r s
  remain : Remain before after

itself-Same : (r : MetaCampaign) → Same r r
itself-Same r = record {
  same_id = refl;
  same_tenant = refl;
  same_type = refl;
  same_confirmed = refl;
}

trans-Same : (r s t : MetaCampaign) → Same r s → Same s t → Same r t
trans-Same r s t a b = record {
  same_id = a.same_id ∙ b.same_id;
  same_tenant = a.same_tenant ∙ b.same_tenant;
  same_type = a.same_type ∙ b.same_type;
  same_confirmed = a.same_confirmed ∙ b.same_confirmed;
}

same-Kept : (rows : List MetaCampaign) → Kept rows rows
same-Kept rows = record {
  rows = λ s m. (s, m, itself-Same s);
  remain = λ r m. (r, m, itself-Same r);
}

then-Remain : (a b c : List MetaCampaign) → Remain a b → Remain b c → Remain a c
then-Remain a b c ab bc r m =
    let (s, ms, x) = ab r m in let (t, mt, y) = bc s ms in (t, mt, trans-Same r s t x y)

then-Kept : (a b c : List MetaCampaign) → Kept a b → Kept b c → Kept a c
then-Kept a b c ab bc = record {
  rows = λ t m.
      let (s, ms, y) = bc.rows t m in
      let (r, mr, x) = ab.rows s ms in (r, mr, trans-Same r s t x y);
  remain = then-Remain a b c ab.remain bc.remain;
}

then-Guarded :
    (tenant_id : Key) (a b c : List MetaCampaign)
    → Guarded tenant_id a b
    → Kept b c
    → Guarded tenant_id a c
then-Guarded tenant_id a b c ab bc = record {
  rows = λ t m.
      let (s, ms, y) = bc.rows t m in
      elim (ab.rows s ms) [
        | From.kept r mr x ↦ From.kept r mr (trans-Same r s t x y)
        | From.found own new no_type loose ↦
            From.found (sym y.same_tenant ∙ own)
              (subst (λ k. any (λ (mc : MetaCampaign). mc.meta_campaign_id == k) a ≡ false)
                y.same_id new)
              (sym y.same_type ∙ no_type) (sym y.same_confirmed ∙ loose)
      ];
  remain = then-Remain a b c ab.remain bc.remain;
}

Kept-Guarded : (tenant_id : Key) (a b : List MetaCampaign) → Kept a b → Guarded tenant_id a b
Kept-Guarded tenant_id a b k = record {
  rows = λ s m. let (r, mr, x) = k.rows s m in From.kept r mr x;
  remain = k.remain;
}

-- An update that leaves id, tenant, type and confirmation alone.
record Gentle (f : MetaCampaign → MetaCampaign) : Type 0 where
  same_id : (r : MetaCampaign) → (f r).meta_campaign_id ≡ r.meta_campaign_id
  same_tenant : (r : MetaCampaign) → (f r).tenant_id ≡ r.tenant_id
  same_type : (r : MetaCampaign) → (f r).campaign_type_id ≡ r.campaign_type_id
  same_confirmed :
      (r : MetaCampaign) → is_confirmed (f r).mapping_status ≡ is_confirmed r.mapping_status

Gentle-Same : (f : MetaCampaign → MetaCampaign) → Gentle f → (r : MetaCampaign) → Same r (f r)
Gentle-Same f g r = record {
  same_id = sym (g.same_id r);
  same_tenant = sym (g.same_tenant r);
  same_type = sym (g.same_type r);
  same_confirmed = sym (g.same_confirmed r);
}

map-Kept :
    (f : MetaCampaign → MetaCampaign)
    → Gentle f
    → (rows : List MetaCampaign) → Kept rows (map f rows)
map-Kept f g rows = record {
  rows = λ s m.
      let (r, mr, e) = of_map f rows m in (r, mr, subst (λ x. Same r x) e (Gentle-Same f g r));
  remain = λ r m. (f r, Memᴰ.map f m, Gentle-Same f g r);
}

suggested_status-confirmed :
    (rule : Option RuleMatch) → is_confirmed (suggested_status rule) ≡ false
unfolding suggested_status
suggested_status-confirmed none = refl
suggested_status-confirmed (some rule) = refl

suggest-Gentle : (tenant_id id : Key) (rule : Option RuleMatch) → Gentle (suggest tenant_id id rule)
unfolding suggest
suggest-Gentle tenant_id id rule = record {
  same_id = λ r. ground arith;
  same_tenant = λ r. ground arith;
  same_type = λ r. ground arith;
  same_confirmed = λ r. ground (arith, suggested_status-confirmed rule);
}

flag-Gentle : (id : Key) → Gentle (flag id)
unfolding flag
flag-Gentle id = record {
  same_id = λ r. ground arith;
  same_tenant = λ r. ground arith;
  same_type = λ r. ground arith;
  same_confirmed = λ r. ground arith;
}

name_row-Gentle : (id name : Key) → Gentle (name_row id name)
unfolding name_row
name_row-Gentle id name = record {
  same_id = λ r. ground arith;
  same_tenant = λ r. ground arith;
  same_type = λ r. ground arith;
  same_confirmed = λ r. ground arith;
}

module _ (match_rules : Key → RuleNames → Option RuleMatch) (clean : Key → Option Key) where
  insert_campaign-Guarded :
      (tenant_id id : Key) (name : Option Key) (db : TypingDb)
      → Guarded tenant_id db.meta_campaigns
          (insert_campaign match_rules clean tenant_id id name db).meta_campaigns
  unfolding insert_campaign discovered
  insert_campaign-Guarded tenant_id id name db =
      let new = discovered tenant_id id name (suggestion_for match_rules clean tenant_id name) in
      elim (Bool-cases (any (λ (mc : MetaCampaign). mc.meta_campaign_id == id) db.meta_campaigns)) [
        | inl e ↦ rw e (
            Kept-Guarded tenant_id db.meta_campaigns db.meta_campaigns
              (same-Kept db.meta_campaigns))
        | inr e ↦ rw e (record {
          rows = λ s m. elim (append_cases db.meta_campaigns m) [
            | inl k ↦ From.kept s k (itself-Same s)
            | inr k ↦ elim (cases_cons k) [
              | inl its ↦
                  From.found (ap (λ (x : MetaCampaign). x.tenant_id) its)
                    (subst
                      (λ c.
                        any (λ (mc : MetaCampaign). mc.meta_campaign_id == c) db.meta_campaigns
                        ≡ false)
                      (sym (ap (λ (x : MetaCampaign). x.meta_campaign_id) its)) e)
                    (ap (λ (x : MetaCampaign). x.campaign_type_id) its)
                    (ap (λ (x : MetaCampaign). is_confirmed x.mapping_status) its
                      ∙ suggested_status-confirmed
                          (suggestion_for match_rules clean tenant_id name))
              | inr none_left ↦ elim none_left [ ]
            ]
          ];
          remain = λ r m. (r, append_left (new ∷ []) m, itself-Same r);
        })
      ]

  named_row-Kept :
      (tenant_id id : Key) (name : Option Key) (row : MetaCampaign) (db : TypingDb)
      → Kept db.meta_campaigns (named_row match_rules clean tenant_id id name row db).meta_campaigns
  unfolding named_row refresh_suggestion
  named_row-Kept tenant_id id none row db = same-Kept db.meta_campaigns
  named_row-Kept tenant_id id (some name) row db =
      let with_name = map-Kept (name_row id name) (name_row-Gentle id name) db.meta_campaigns in
      let rule =
        match_campaign_rules match_rules clean tenant_id (by_name match_rules clean (some name)) in
      elim (Bool-cases (is_none row.name)) [
        | inr has ↦ rw has (same-Kept db.meta_campaigns)
        | inl nameless ↦ elim (Bool-cases (is_confirmed row.mapping_status)) [
          | inl e ↦ rw (nameless, e) with_name
          | inr e ↦
              rw (nameless, e)
                (then-Kept db.meta_campaigns (map (name_row id name) db.meta_campaigns)
                  (map (suggest tenant_id id rule) (map (name_row id name) db.meta_campaigns))
                  with_name
                  (map-Kept (suggest tenant_id id rule) (suggest-Gentle tenant_id id rule)
                    (map (name_row id name) db.meta_campaigns)))
        ]
      ]

  from_row-Kept :
      (tenant_id id : Key) (name : Option Key) (created : Bool) (db : TypingDb)
      (row : Option MetaCampaign)
      → Kept db.meta_campaigns
          (from_row match_rules clean tenant_id id name created db row).db.meta_campaigns
  unfolding from_row
  from_row-Kept tenant_id id name created db none = same-Kept db.meta_campaigns
  from_row-Kept tenant_id id name created db (some row) =
      elim (Bool-cases (row.tenant_id == tenant_id)) [
        | inl own ↦ rw own (named_row-Kept tenant_id id name row db)
        | inr foreign ↦ rw foreign (map-Kept (flag id) (flag-Gentle id) db.meta_campaigns)
      ]

  found_row-Guarded :
      (tenant_id id : Key) (name : Option Key) (db : TypingDb) (row : Option MetaCampaign)
      → Guarded tenant_id db.meta_campaigns
          (found_row match_rules clean tenant_id id name db row).db.meta_campaigns
  unfolding found_row
  found_row-Guarded tenant_id id name db (some row) =
      let step = from_row match_rules clean tenant_id id name false db (some row) in
      Kept-Guarded tenant_id db.meta_campaigns step.db.meta_campaigns
        (from_row-Kept tenant_id id name false db (some row))
  found_row-Guarded tenant_id id name db none =
      let after = insert_campaign match_rules clean tenant_id id name db in
      let step =
        from_row match_rules clean tenant_id id name true after (read_campaign_row after id) in
      then-Guarded tenant_id db.meta_campaigns after.meta_campaigns step.db.meta_campaigns
        (insert_campaign-Guarded tenant_id id name db)
        (from_row-Kept tenant_id id name true after (read_campaign_row after id))

  campaign_step-Guarded :
      (tenant_id : Key) (id name : Option Key) (db : TypingDb)
      → Guarded tenant_id db.meta_campaigns
          (campaign_step match_rules clean tenant_id id name db).db.meta_campaigns
  unfolding campaign_step
  campaign_step-Guarded tenant_id none name db =
      let step = from_row match_rules clean tenant_id 0 name false db none in
      Kept-Guarded tenant_id db.meta_campaigns step.db.meta_campaigns
        (from_row-Kept tenant_id 0 name false db none)
  campaign_step-Guarded tenant_id (some id) name db =
      found_row-Guarded tenant_id id name db (read_campaign_row db id)

  -- Whatever the rules match, the typing of a lead never gives a campaign a type or takes one away,
  -- and never confirms one or takes a confirmation back. Every campaign that was in the table is
  -- there afterwards, with its tenant, its type and its confirmation; and every row there is one of
  -- these, or a new campaign of the lead's tenant that has no type and is not confirmed.
  pub resolve_campaign_type-Guarded :
      (tenant_id : Key) (input : ResolveCampaignTypeInput) (db : TypingDb)
      → Guarded tenant_id db.meta_campaigns
          (resolve_campaign_type match_rules clean tenant_id input db).1.meta_campaigns
  unfolding resolve_campaign_type
  resolve_campaign_type-Guarded tenant_id input db =
      campaign_step-Guarded tenant_id (then_maybe input.meta_campaign_id clean)
        (then_maybe input.meta_campaign_name clean) db
