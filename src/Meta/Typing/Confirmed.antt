-- ===== src/Meta/Typing/Confirmed.antt =====
-- The first step of the ladder: a type that an administrator confirmed.
use mathlib.Core.List.Memᴰ.{append_cases, cases_cons}
use msq_lms.Base.{
  ◌≡◌, ◌↔◌, refl, sym, ap, ◌∙◌, subst, Bool, true, false, Option, none, some, List, [], ◌∷◌, ◌++◌,
  filter, first, any, Memᴰ, Bool-cases, inl, inr, ◌==◌, ==_iff, first-mem, mem-filter, filter-mem,
}
use msq_lms.Db.{Key}
use msq_lms.Meta.Typing.{
  is_confirmed, is_live_type, by_confirmed, RuleNames, RuleMatch, MetaCampaign, TypingDb,
  ResolveCampaignTypeInput, discovered, ladder, read_campaign_row, suggestion_for,
  confirmed_type_of, insert_campaign, from_row, found_row, campaign_step, match_campaign_rules,
  resolve_form_default_type, tenant_default_type, resolve_campaign_type,
}
use msq_lms.Meta.Contact.{then_maybe}

-- The unique key of ext.meta_campaigns.
abbrev pub OneRow : TypingDb → Type 0
OneRow db =
    (r s : MetaCampaign)
    → Memᴰ r db.meta_campaigns
    → Memᴰ s db.meta_campaigns
    → r.meta_campaign_id ≡ s.meta_campaign_id
    → r ≡ s

-- The campaign is the tenant's own, and was confirmed as of a type that is live.
pub record OwnConfirmed (db : TypingDb) (tenant_id id type_id : Key) : Type 0 where
  pub row : MetaCampaign
  pub listed : Memᴰ row db.meta_campaigns
  pub its_id : row.meta_campaign_id ≡ id
  pub own : row.tenant_id ≡ tenant_id
  pub confirmed : is_confirmed row.mapping_status ≡ true
  pub typed : row.campaign_type_id ≡ some type_id
  pub live : is_live_type db.campaign_types type_id ≡ true

first-some :
    {x : MetaCampaign} {xs : List MetaCampaign}
    → Memᴰ x xs
    → (y : MetaCampaign) × (first xs ≡ some y)
first-some (Memᴰ.head {x} {xs} e) = (x, refl)
first-some (Memᴰ.tail {x} {xs} m) = (x, refl)

read_campaign_row-some :
    (db : TypingDb) (id : Key) (row : MetaCampaign)
    → read_campaign_row db id ≡ some row
    → Memᴰ row db.meta_campaigns × (row.meta_campaign_id ≡ id)
unfolding read_campaign_row
read_campaign_row-some db id row h =
    let test = λ (mc : MetaCampaign). mc.meta_campaign_id == id in
    let (m, e) = mem-filter test db.meta_campaigns (first-mem (filter test db.meta_campaigns) h) in
    (m, (==_iff row.meta_campaign_id id).0 e)

read_campaign_row-mem :
    (db : TypingDb) (id : Key) (row : MetaCampaign)
    → Memᴰ row db.meta_campaigns
    → row.meta_campaign_id ≡ id
    → (r : MetaCampaign) × (read_campaign_row db id ≡ some r)
unfolding read_campaign_row
read_campaign_row-mem db id row m e = first-some (
    filter-mem (λ (mc : MetaCampaign). mc.meta_campaign_id == id) m
      ((==_iff row.meta_campaign_id id).1 e))

module _ (match_rules : Key → RuleNames → Option RuleMatch) (clean : Key → Option Key) where
  confirmed_type_of-live :
      (db : TypingDb) (row : MetaCampaign) (type : Option Key) (b : Bool) (type_id : Key)
      → type ≡ some type_id
      → b ≡ true
      → is_live_type db.campaign_types type_id ≡ true
      → (confirmed_type_of match_rules clean db row type b).0 ≡ some type_id
  unfolding confirmed_type_of
  confirmed_type_of-live db row type b type_id typed confirmed h = rw (typed, confirmed, h) refl

  confirmed_type_of-some :
      (db : TypingDb) (row : MetaCampaign) (type : Option Key) (b : Bool) (type_id : Key)
      → (confirmed_type_of match_rules clean db row type b).0 ≡ some type_id
      → (type ≡ some type_id) × (b ≡ true) × (is_live_type db.campaign_types type_id ≡ true)
  unfolding confirmed_type_of
  confirmed_type_of-some db row none b type_id h = cc
  confirmed_type_of-some db row (some u) false type_id h = cc
  confirmed_type_of-some db row (some u) true type_id h =
      elim (Bool-cases (is_live_type db.campaign_types u)) [
        | inl e ↦ let same : some u ≡ some type_id = rw e at h in (same, refl, cc (same, e))
        | inr e ↦ cc (rw e at h)
      ]

  from_row-live :
      (tenant_id id : Key) (name : Option Key) (created : Bool) (db : TypingDb) (type_id : Key)
      (row : MetaCampaign)
      → row.tenant_id ≡ tenant_id
      → is_confirmed row.mapping_status ≡ true
      → row.campaign_type_id ≡ some type_id
      → is_live_type db.campaign_types type_id ≡ true
      → (from_row match_rules clean tenant_id id name created db (some row)).confirmed_type
        ≡ some type_id
  unfolding from_row
  from_row-live tenant_id id name created db type_id row own confirmed typed live =
      rw ((==_iff row.tenant_id tenant_id).1 own) (
        confirmed_type_of-live db row row.campaign_type_id (is_confirmed row.mapping_status) type_id
          typed confirmed live)

  from_row-some :
      (tenant_id id : Key) (name : Option Key) (created : Bool) (db : TypingDb) (type_id : Key)
      (row : Option MetaCampaign)
      → (from_row match_rules clean tenant_id id name created db row).confirmed_type ≡ some type_id
      → (r : MetaCampaign) × (row ≡ some r)
        × (r.tenant_id ≡ tenant_id)
        × (r.campaign_type_id ≡ some type_id)
        × (is_confirmed r.mapping_status ≡ true)
        × (is_live_type db.campaign_types type_id ≡ true)
  unfolding from_row
  from_row-some tenant_id id name created db type_id none h = cc
  from_row-some tenant_id id name created db type_id (some row) h =
      elim (Bool-cases (row.tenant_id == tenant_id)) [
        | inl own ↦
            let (typed, confirmed, live) =
              confirmed_type_of-some db row row.campaign_type_id (is_confirmed row.mapping_status)
                type_id (rw own at h) in
            (row, refl, (==_iff row.tenant_id tenant_id).0 own, typed, confirmed, live)
        | inr foreign ↦ cc (rw foreign at h)
      ]

  -- A campaign that is inserted for the lead has no type.
  insert_campaign_untyped :
      (tenant_id id : Key) (name : Option Key) (db : TypingDb) (row : MetaCampaign)
      → read_campaign_row db id ≡ none
      → read_campaign_row (insert_campaign match_rules clean tenant_id id name db) id ≡ some row
      → row.campaign_type_id ≡ none
  unfolding insert_campaign discovered
  insert_campaign_untyped tenant_id id name db row absent h =
      elim (Bool-cases (any (λ (mc : MetaCampaign). mc.meta_campaign_id == id) db.meta_campaigns)) [
        | inl e ↦ cc (absent, rw e at h)
        | inr e ↦
            let after = record db {
              meta_campaigns =
                  db.meta_campaigns
                  ++ discovered tenant_id id name (suggestion_for match_rules clean tenant_id name)
                    ∷ [];
            } in
            let (m, its_id) = read_campaign_row-some after id row (rw e at h) in
            elim (append_cases db.meta_campaigns m) [
              | inl old ↦
                  let (r, found) = read_campaign_row-mem db id row old its_id in cc (absent, found)
              | inr k ↦ elim (cases_cons k) [
                | inl its ↦ ap (λ (x : MetaCampaign). x.campaign_type_id) its
                | inr none_left ↦ elim none_left [ ]
              ]
            ]
      ]

  found_row-some :
      (tenant_id id : Key) (name : Option Key) (db : TypingDb) (type_id : Key)
      (row : Option MetaCampaign)
      → read_campaign_row db id ≡ row
      → (found_row match_rules clean tenant_id id name db row).confirmed_type ≡ some type_id
      → OwnConfirmed db tenant_id id type_id
  unfolding found_row
  found_row-some tenant_id id name db type_id (some row) read h =
      let (r, same, own, typed, confirmed, live) =
        from_row-some tenant_id id name false db type_id (some row) h in
      let (listed, its_id) = read_campaign_row-some db id r (read ∙ same) in
      record {
        row = r;
        listed = listed;
        its_id = its_id;
        own = own;
        confirmed = confirmed;
        typed = typed;
        live = live;
      }
  found_row-some tenant_id id name db type_id none read h =
      let after = insert_campaign match_rules clean tenant_id id name db in
      let (r, same, own, typed, confirmed, live) =
        from_row-some tenant_id id name true after type_id (read_campaign_row after id) h in
      let untyped = insert_campaign_untyped tenant_id id name db r read same in cc (untyped, typed)

  campaign_step-some :
      (tenant_id : Key) (id name : Option Key) (db : TypingDb) (type_id : Key)
      → (campaign_step match_rules clean tenant_id id name db).confirmed_type ≡ some type_id
      → (m : Key) × (id ≡ some m) × OwnConfirmed db tenant_id m type_id
  unfolding campaign_step from_row
  campaign_step-some tenant_id none name db type_id h = cc
  campaign_step-some tenant_id (some id) name db type_id h =
      (id, refl, found_row-some tenant_id id name db type_id (read_campaign_row db id) refl h)

  campaign_step-OwnConfirmed :
      (tenant_id id : Key) (name : Option Key) (db : TypingDb) (type_id : Key)
      → OneRow db
      → OwnConfirmed db tenant_id id type_id
      → (campaign_step match_rules clean tenant_id (some id) name db).confirmed_type ≡ some type_id
  unfolding campaign_step found_row
  campaign_step-OwnConfirmed tenant_id id name db type_id one o =
      let (r, read) = read_campaign_row-mem db id o.row o.listed o.its_id in
      let (listed, its_id) = read_campaign_row-some db id r read in
      let same : o.row ≡ r = one o.row r o.listed listed (o.its_id ∙ sym its_id) in
      rw read (
        from_row-live tenant_id id name false db type_id r
          (ap (λ (x : MetaCampaign). x.tenant_id) (sym same) ∙ o.own)
          (ap (λ (x : MetaCampaign). is_confirmed x.mapping_status) (sym same) ∙ o.confirmed)
          (ap (λ (x : MetaCampaign). x.campaign_type_id) (sym same) ∙ o.typed) o.live)

  ladder-by_confirmed :
      (confirmed : Option Key) (rule : Option RuleMatch) (form_default tenant_default : Option Key)
      → (ladder match_rules clean confirmed rule form_default tenant_default).1 ≡ by_confirmed
      → (type_id : Key) × (confirmed ≡ some type_id)
        × ((ladder match_rules clean confirmed rule form_default tenant_default).0 ≡ some type_id)
  unfolding ladder
  ladder-by_confirmed (some type_id) rule f t h = (type_id, refl, refl)
  ladder-by_confirmed none (some rule) f t h = cc
  ladder-by_confirmed none none (some x) t h = cc
  ladder-by_confirmed none none none (some x) h = cc
  ladder-by_confirmed none none none none h = cc

  ladder-some :
      (confirmed : Option Key) (rule : Option RuleMatch) (form_default tenant_default : Option Key)
      (type_id : Key)
      → confirmed ≡ some type_id
      → ((ladder match_rules clean confirmed rule form_default tenant_default).0 ≡ some type_id)
        × ((ladder match_rules clean confirmed rule form_default tenant_default).1 ≡ by_confirmed)
  unfolding ladder
  ladder-some none rule f t type_id h = cc
  ladder-some (some x) rule f t type_id h = (h, refl)

  -- Where no two rows of the table are of one campaign, a lead that names a campaign has a type
  -- because it was confirmed exactly if the campaign is the tenant's own and confirmed as of that
  -- type, and the type is live, whatever rules match and whatever the defaults are.
  pub resolve_campaign_type-OwnConfirmed :
      (tenant_id id type_id : Key) (input : ResolveCampaignTypeInput) (db : TypingDb)
      → OneRow db
      → then_maybe input.meta_campaign_id clean ≡ some id
      → (((resolve_campaign_type match_rules clean tenant_id input db).0.campaign_type_id
            ≡ some type_id)
          × ((resolve_campaign_type match_rules clean tenant_id input db).0.type_source
              ≡ by_confirmed))
        ↔ OwnConfirmed db tenant_id id type_id
  unfolding resolve_campaign_type
  resolve_campaign_type-OwnConfirmed tenant_id id type_id input db one named =
      let campaign_id = then_maybe input.meta_campaign_id clean in
      let name = then_maybe input.meta_campaign_name clean in
      let step = campaign_step match_rules clean tenant_id campaign_id name db in
      let rule = match_campaign_rules match_rules clean tenant_id (record {
        campaign_name = step.campaign_name;
        form_name = input.form_name;
        adset_name = input.adset_name;
        ad_name = input.ad_name;
      }) in
      let form_default = resolve_form_default_type db tenant_id input.page_id input.form_id in
      let tenant_default = tenant_default_type db tenant_id in
      (
        λ h.
            let (t, confirmed, typed) =
              ladder-by_confirmed step.confirmed_type rule form_default tenant_default h.1 in
            let (m, e, o) = campaign_step-some tenant_id campaign_id name db t confirmed in
            let same_type : t ≡ type_id = cc (typed, h.0) in
            let same_campaign : m ≡ id = cc (e, named) in
            subst (λ k. OwnConfirmed db tenant_id k type_id) same_campaign
              (subst (λ k. OwnConfirmed db tenant_id m k) same_type o),
        λ o.
            ladder-some step.confirmed_type rule form_default tenant_default type_id
              (rw named (campaign_step-OwnConfirmed tenant_id id name db type_id one o)),
      )
