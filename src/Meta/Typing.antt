-- ===== src/Meta/Typing.antt =====
-- The campaign type of a lead of Meta: `resolveCampaignType` of meta-conversion-api
-- services/campaign-mapping.service.ts. `match_rules` is the database's function
-- marketing.fn_match_campaign_type_rules, and `clean` gives the trimmed text, or `none` for a blank
-- one. The objective, the status and the dates of a campaign are left out, and so is the insert that
-- fails on a campaign of another tenant that row-level security hides.
pub mod Guesses
pub mod Confirmed
pub mod Tests
use msq_lms.Base.{
  ℕ, Bool, true, false, not, ◌&&◌, ◌||◌, Option, none, some, List, [], ◌∷◌, ◌++◌, map, first,
  filter, any, ◌==◌, if◌then◌else◌, column_is, is_none, or_option,
}
use msq_lms.Db.{Key, CampaignType}
use msq_lms.Meta.Contact.{then_maybe}
use msq_lms.Meta.Routing.{PageFormRow, best, form_first}

pub data MappingStatus : Type 0 where
  unmapped suggested confirmed : MappingStatus

pub data TypeSource : Type 0 where
  by_confirmed by_rule by_page_default by_tenant_default by_none : TypeSource

abbrev pub is_confirmed : MappingStatus → Bool
is_confirmed unmapped = false
is_confirmed suggested = false
is_confirmed confirmed = true

pub record RuleNames : Type 0 where
  pub campaign_name : Option Key
  pub form_name : Option Key
  pub adset_name : Option Key
  pub ad_name : Option Key

pub record RuleMatch : Type 0 where
  pub campaign_type_id : Key
  pub rule_id : Key
  pub pattern : Key

-- ext.meta_campaigns; `has_conflict` is conflict_reason IS NOT NULL.
pub record MetaCampaign : Type 0 where
  pub meta_campaign_id : Key
  pub tenant_id : Key
  pub name : Option Key
  pub campaign_type_id : Option Key
  pub suggested_campaign_type_id : Option Key
  pub matched_rule_id : Option Key
  pub matched_keyword : Option Key
  pub mapping_status : MappingStatus
  pub has_conflict : Bool

pub record TypingDb : Type 0 where
  pub campaign_types : List CampaignType
  pub page_form_rows : List PageFormRow
  pub meta_campaigns : List MetaCampaign

pub record ResolveCampaignTypeInput : Type 0 where
  pub meta_campaign_id : Option Key
  pub meta_campaign_name : Option Key
  pub page_id : Option Key
  pub form_id : Option Key
  pub form_name : Option Key
  pub adset_name : Option Key
  pub ad_name : Option Key

pub record ResolvedCampaignType : Type 0 where
  pub campaign_type_id : Option Key
  pub type_source : TypeSource
  pub mapping_status : MappingStatus
  pub matched_rule : Option RuleMatch
  pub default_campaign_type_id : Option Key
  pub created : Bool
  pub cross_tenant : Bool
  pub inactive_mapped_type_id : Option Key

pub is_live_type : List CampaignType → Key → Bool
is_live_type types id =
    any (λ (ct : CampaignType). ct.id == id && ct.is_active && not ct.is_deleted) types

-- `a = b`, where NULL equals nothing.
abbrev pub equal_ids : Option Key → Option Key → Bool
equal_ids none b = false
equal_ids (some a) b = column_is b a

-- The rows whose default is a live type, of the form or of the page as a whole.
pub has_default : List CampaignType → Key → Option Key → Option Key → PageFormRow → Bool
has_default types tenant_id page_id form_id r =
    r.tenant_id == tenant_id
    && r.is_active
    && any
        (λ (ct : CampaignType).
          column_is r.default_campaign_type_id ct.id && ct.is_active && not ct.is_deleted)
        types
    && (equal_ids form_id r.form_id || is_none r.form_id && column_is page_id r.page_id)

pub default_of : Option PageFormRow → Option Key
default_of none = none
default_of (some r) = r.default_campaign_type_id

pub resolve_form_default_type : TypingDb → Key → Option Key → Option Key → Option Key
unfolding has_default default_of
resolve_form_default_type db tenant_id none none = none
resolve_form_default_type db tenant_id (some page_id) form_id = default_of (
    best form_first (has_default db.campaign_types tenant_id (some page_id) form_id)
      db.page_form_rows)
resolve_form_default_type db tenant_id none (some form_id) = default_of (
    best form_first (has_default db.campaign_types tenant_id none (some form_id)) db.page_form_rows)

pub tenant_default_type : TypingDb → Key → Option Key
tenant_default_type db tenant_id = first (
    map (λ (ct : CampaignType). ct.id)
      (filter
        (λ (ct : CampaignType).
          ct.tenant_id == tenant_id && ct.is_default && ct.is_active && not ct.is_deleted)
        db.campaign_types))

pub read_campaign_row : TypingDb → Key → Option MetaCampaign
read_campaign_row db id =
    first (filter (λ (mc : MetaCampaign). mc.meta_campaign_id == id) db.meta_campaigns)

pub suggested_status : Option RuleMatch → MappingStatus
suggested_status none = unmapped
suggested_status (some rule) = suggested

abbrev pub rule_type : Option RuleMatch → Option Key
rule_type none = none
rule_type (some rule) = some rule.campaign_type_id

abbrev pub rule_id_of : Option RuleMatch → Option Key
rule_id_of none = none
rule_id_of (some rule) = some rule.rule_id

abbrev pub keyword_of : Option RuleMatch → Option Key
keyword_of none = none
keyword_of (some rule) = some rule.pattern

-- A campaign that a lead names first: at most suggested, and of no type.
pub discovered : Key → Key → Option Key → Option RuleMatch → MetaCampaign
unfolding suggested_status
discovered tenant_id id name suggestion = record {
  meta_campaign_id = id;
  tenant_id = tenant_id;
  name = name;
  campaign_type_id = none;
  suggested_campaign_type_id = rule_type suggestion;
  matched_rule_id = rule_id_of suggestion;
  matched_keyword = keyword_of suggestion;
  mapping_status = suggested_status suggestion;
  has_conflict = false;
}

-- UPDATE … WHERE meta_campaign_id = … AND tenant_id = … AND mapping_status <> 'confirmed'
pub suggest : Key → Key → Option RuleMatch → MetaCampaign → MetaCampaign
unfolding suggested_status
suggest tenant_id id rule mc =
    if mc.meta_campaign_id == id
      && mc.tenant_id == tenant_id
      && not (is_confirmed mc.mapping_status)
    then record mc {
      suggested_campaign_type_id = rule_type rule;
      matched_rule_id = rule_id_of rule;
      matched_keyword = keyword_of rule;
      mapping_status = suggested_status rule;
    }
    else mc

pub flag : Key → MetaCampaign → MetaCampaign
flag id mc = if mc.meta_campaign_id == id then record mc { has_conflict = true } else mc

pub name_row : Key → Key → MetaCampaign → MetaCampaign
name_row id name mc =
    if mc.meta_campaign_id == id && is_none mc.name then record mc { name = some name } else mc

-- What the campaign gives: the name that the rules match, what the row says, and the tables.
pub record CampaignStep : Type 0 where
  pub confirmed_type : Option Key
  pub mapping_status : MappingStatus
  pub created : Bool
  pub cross_tenant : Bool
  pub inactive_mapped : Option Key
  pub campaign_name : Option Key
  pub db : TypingDb

module _ (match_rules : Key → RuleNames → Option RuleMatch) (clean : Key → Option Key) where
  pub match_campaign_rules : Key → RuleNames → Option RuleMatch
  match_campaign_rules tenant_id names = match_rules tenant_id (record {
    campaign_name = then_maybe names.campaign_name clean;
    form_name = then_maybe names.form_name clean;
    adset_name = then_maybe names.adset_name clean;
    ad_name = then_maybe names.ad_name clean;
  })

  abbrev pub by_name : Option Key → RuleNames
  by_name name = record {
    campaign_name = name;
    form_name = none;
    adset_name = none;
    ad_name = none;
  }

  pub refresh_suggestion : Key → Key → Key → TypingDb → TypingDb
  unfolding match_campaign_rules suggest
  refresh_suggestion tenant_id id name db = record db {
    meta_campaigns =
        map (suggest tenant_id id (match_campaign_rules tenant_id (by_name (some name))))
          db.meta_campaigns;
  }

  suggestion_for : Key → Option Key → Option RuleMatch
  unfolding match_campaign_rules
  suggestion_for tenant_id none = none
  suggestion_for tenant_id (some name) = match_campaign_rules tenant_id (by_name (some name))

  -- INSERT … ON CONFLICT (meta_campaign_id) DO NOTHING
  pub insert_campaign : Key → Key → Option Key → TypingDb → TypingDb
  unfolding suggestion_for discovered
  insert_campaign tenant_id id name db =
      if any (λ (mc : MetaCampaign). mc.meta_campaign_id == id) db.meta_campaigns
      then db
      else record db {
        meta_campaigns =
            db.meta_campaigns ++ discovered tenant_id id name (suggestion_for tenant_id name) ∷ [];
      }

  -- A row that was created nameless gets its name, and a suggestion where it is not confirmed.
  pub named_row : Key → Key → Option Key → MetaCampaign → TypingDb → TypingDb
  unfolding name_row refresh_suggestion
  named_row tenant_id id none row db = db
  named_row tenant_id id (some name) row db =
      let with_name = record db { meta_campaigns = map (name_row id name) db.meta_campaigns } in
      if not (is_none row.name)
      then db
      else if is_confirmed row.mapping_status
      then with_name
      else refresh_suggestion tenant_id id name with_name

  -- The confirmed type where it is live, and where it is not, the type that is retired.
  pub confirmed_type_of : TypingDb → MetaCampaign → Option Key → Bool → Option Key × Option Key
  confirmed_type_of db row (some type_id) true =
      if is_live_type db.campaign_types type_id then (some type_id, none) else (none, some type_id)
  confirmed_type_of db row (some type_id) false = (none, none)
  confirmed_type_of db row none b = (none, none)

  pub from_row : Key → Key → Option Key → Bool → TypingDb → Option MetaCampaign → CampaignStep
  unfolding named_row confirmed_type_of flag
  from_row tenant_id id name created db none = record {
    confirmed_type = none;
    mapping_status = unmapped;
    created = created;
    cross_tenant = false;
    inactive_mapped = none;
    campaign_name = name;
    db = db;
  }
  from_row tenant_id id name created db (some row) =
      let types = confirmed_type_of db row row.campaign_type_id (is_confirmed row.mapping_status) in
      if row.tenant_id == tenant_id
      then record {
        confirmed_type = types.0;
        mapping_status = row.mapping_status;
        created = created;
        cross_tenant = false;
        inactive_mapped = types.1;
        campaign_name = or_option name row.name;
        db = named_row tenant_id id name row db;
      }
      else record {
        confirmed_type = none;
        mapping_status = unmapped;
        created = created;
        cross_tenant = true;
        inactive_mapped = none;
        campaign_name = name;
        db = record db { meta_campaigns = map (flag id) db.meta_campaigns };
      }

  found_row : Key → Key → Option Key → TypingDb → Option MetaCampaign → CampaignStep
  unfolding from_row insert_campaign read_campaign_row
  found_row tenant_id id name db (some row) = from_row tenant_id id name false db (some row)
  found_row tenant_id id name db none =
      let after = insert_campaign tenant_id id name db in
      from_row tenant_id id name true after (read_campaign_row after id)

  pub campaign_step : Key → Option Key → Option Key → TypingDb → CampaignStep
  unfolding found_row from_row read_campaign_row
  campaign_step tenant_id none name db = from_row tenant_id 0 name false db none
  campaign_step tenant_id (some id) name db =
      found_row tenant_id id name db (read_campaign_row db id)

  -- The steps of the ladder, in order.
  ladder :
      Option Key
      → Option RuleMatch
      → Option Key
      → Option Key
      → Option Key × TypeSource × Option RuleMatch
  ladder (some type_id) rule form_default tenant_default = (some type_id, by_confirmed, none)
  ladder none (some rule) form_default tenant_default =
      (some rule.campaign_type_id, by_rule, some rule)
  ladder none none (some type_id) tenant_default = (some type_id, by_page_default, none)
  ladder none none none (some type_id) = (some type_id, by_tenant_default, none)
  ladder none none none none = (none, by_none, none)

  pub resolve_campaign_type :
      Key → ResolveCampaignTypeInput → TypingDb → ResolvedCampaignType × TypingDb
  unfolding campaign_step ladder match_campaign_rules resolve_form_default_type tenant_default_type
  resolve_campaign_type tenant_id input db =
      let form_default = resolve_form_default_type db tenant_id input.page_id input.form_id in
      let step =
        campaign_step tenant_id (then_maybe input.meta_campaign_id clean)
          (then_maybe input.meta_campaign_name clean) db in
      let rule = match_campaign_rules tenant_id (record {
        campaign_name = step.campaign_name;
        form_name = input.form_name;
        adset_name = input.adset_name;
        ad_name = input.ad_name;
      }) in
      let chosen =
        ladder step.confirmed_type rule form_default (tenant_default_type db tenant_id) in
      (
        record {
          campaign_type_id = chosen.0;
          type_source = chosen.1;
          mapping_status = step.mapping_status;
          matched_rule = chosen.2;
          default_campaign_type_id = form_default;
          created = step.created;
          cross_tenant = step.cross_tenant;
          inactive_mapped_type_id = step.inactive_mapped;
        },
        step.db,
      )
