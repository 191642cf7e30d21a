-- ===== src/Meta/Typing/Tests.antt =====
-- A lead names a campaign that an administrator confirmed while it had no name.
use msq_lms.Base.{
  ◌≡◌, ◌↔◌, refl, sym, ap, ◌∙◌, arith, inl, inr, true, false, Option, none, some, [], ◌∷◌,
}
use mathlib.Core.List.Memᴰ.{cases_cons}
use msq_lms.Db.{Key, CampaignType}
use msq_lms.Meta.Typing.{
  by_confirmed, confirmed, RuleNames, RuleMatch, MetaCampaign, TypingDb, ResolveCampaignTypeInput,
  name_row, named_row, from_row, found_row, read_campaign_row, campaign_step, resolve_campaign_type,
}
use msq_lms.Meta.Typing.Confirmed.{OneRow, OwnConfirmed, resolve_campaign_type-OwnConfirmed}
use msq_lms.Meta.Typing.Guesses.{Guarded, resolve_campaign_type-Guarded}

abbrev sales : CampaignType
sales = record {
  id = 5;
  tenant_id = 9;
  label = 51;
  department_id = none;
  is_default = true;
  is_active = true;
  is_deleted = false;
}

abbrev nameless : MetaCampaign
nameless = record {
  meta_campaign_id = 71;
  tenant_id = 9;
  name = none;
  campaign_type_id = some 5;
  suggested_campaign_type_id = none;
  matched_rule_id = none;
  matched_keyword = none;
  mapping_status = confirmed;
  has_conflict = false;
}

abbrev tables : TypingDb
tables = record {
  campaign_types = sales ∷ [];
  page_form_rows = [];
  meta_campaigns = record nameless { meta_campaign_id = 70 } ∷ nameless ∷ [];
}

abbrev lead_input : ResolveCampaignTypeInput
lead_input = record {
  meta_campaign_id = some 71;
  meta_campaign_name = some 44;
  page_id = none;
  form_id = none;
  form_name = none;
  adset_name = none;
  ad_name = none;
}

-- One rule, which types every lead of the tenant as hiring.
abbrev hiring_rule : Key → RuleNames → Option RuleMatch
hiring_rule tenant_id names = some (record { campaign_type_id = 6; rule_id = 81; pattern = 82 })

abbrev trimmed : Key → Option Key
trimmed text = some text

run : Unit {0}
unfolding name_row named_row from_row found_row read_campaign_row campaign_step
    resolve_campaign_type
run = tt

resolve_campaign_type-Guarded_example :
    Guarded 9 tables.meta_campaigns
      (record nameless { meta_campaign_id = 70 } ∷ record nameless { name = some 44 } ∷ [])
unfolding run
resolve_campaign_type-Guarded_example =
    resolve_campaign_type-Guarded hiring_rule trimmed 9 lead_input tables

tables-OneRow : OneRow tables
tables-OneRow r s mr ms e = elim (cases_cons mr) [
  | inl a ↦ elim (cases_cons ms) [
    | inl b ↦ a ∙ sym b
    | inr k ↦ elim (cases_cons k) [
      | inl b ↦ absurd (apart (sym (campaign_of b) ∙ sym e ∙ campaign_of a))
      | inr none_left ↦ elim none_left [ ]
    ]
  ]
  | inr j ↦ elim (cases_cons j) [
    | inl a ↦ elim (cases_cons ms) [
      | inl b ↦ absurd (apart (sym (campaign_of a) ∙ e ∙ campaign_of b))
      | inr k ↦ elim (cases_cons k) [ inl b ↦ a ∙ sym b | inr none_left ↦ elim none_left [ ] ]
    ]
    | inr none_left ↦ elim none_left [ ]
  ]
]
  where
    campaign_of : {x y : MetaCampaign} → x ≡ y → x.meta_campaign_id ≡ y.meta_campaign_id
    campaign_of h = ap (λ (x : MetaCampaign). x.meta_campaign_id) h

    apart : nameless.meta_campaign_id ≡ 70 → ⊥
    apart h = omega arith

-- The rule says hiring, and the confirmed type is sales.
resolve_campaign_type-OwnConfirmed_example :
    (((resolve_campaign_type hiring_rule trimmed 9 lead_input tables).0.campaign_type_id ≡ some 5)
      × ((resolve_campaign_type hiring_rule trimmed 9 lead_input tables).0.type_source
          ≡ by_confirmed))
    ↔ OwnConfirmed tables 9 71 5
resolve_campaign_type-OwnConfirmed_example =
    resolve_campaign_type-OwnConfirmed hiring_rule trimmed 9 71 5 lead_input tables tables-OneRow
      refl
