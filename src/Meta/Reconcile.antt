-- ===== src/Meta/Reconcile.antt =====
-- The verdict on a staged lead: `classifyRunLeads` of meta-conversion-api
-- services/lead-reconcile.service.ts. `choose` is LIMIT 1 of rows that have no order. `is_placeholder` is the match of a text with the pattern of
-- Meta's test leads, and `btrim` is SQL's. The hiring signal, the suggested type, the text of the
-- reason and the tally are for the screen alone and are left out.
pub mod Predict
use msq_lms.Base.{
  ℕ, Bool, true, false, not, ◌&&◌, ◌||◌, Option, none, some, List, [], ◌∷◌, map, filter, any, ◌==◌,
  if◌then◌else◌, column_is, or_else, is_some,
}
use msq_lms.Db.{Key, Lead, Db}
use msq_lms.Meta.{
  MetaLeadFieldData, ContactMappings, Verdict, already_synced, test_lead, unmapped_form,
  missing_contact, phone_duplicate, email_duplicate, new_lead, StagedLead, MetaLead, MetaDb,
}
use msq_lms.Meta.Contact.{select_by_keys}

-- IMPORTABLE_VERDICTS
abbrev pub is_importable : Verdict → Bool
is_importable already_synced = false
is_importable test_lead = false
is_importable unmapped_form = false
is_importable missing_contact = false
is_importable phone_duplicate = true
is_importable email_duplicate = true
is_importable new_lead = true

-- The lateral joins: no row is looked for where the branch or the text is NULL.
unfoldable pub dup_phone : (List Key → Option Key) → Db → Option Key → Option Key → Option Key
dup_phone choose db none phone = none
dup_phone choose db (some org_id) none = none
dup_phone choose db (some org_id) (some phone) = choose (
    map (λ ml. ml.id)
      (filter
        (λ (ml : Lead).
          ml.org_id == org_id && (ml.is_active && not ml.is_deleted) && column_is ml.phone phone)
        db.marketing_leads))

unfoldable pub dup_email : (List Key → Option Key) → Db → Option Key → Option Key → Option Key
dup_email choose db none email = none
dup_email choose db (some org_id) none = none
dup_email choose db (some org_id) (some email) = choose (
    map (λ ml. ml.id)
      (filter
        (λ (ml : Lead).
          ml.org_id == org_id && column_is ml.email email && (ml.is_active && not ml.is_deleted))
        db.marketing_leads))

-- What the query finds for a staged row.
pub record Probed : Type 0 where
  pub already_synced : Bool
  pub is_test_lead : Bool
  pub org_id : Option Key
  pub phone : Option Key
  pub phone_lead_id : Option Key
  pub email_lead_id : Option Key

-- COALESCE(raw_field_data, '[]')
unfoldable pub field_data_of : StagedLead → List MetaLeadFieldData
field_data_of row = or_else row.raw_field_data []

unfoldable pub last_verdicts : Option Key → Option Key → Verdict
last_verdicts (some id) email_lead_id = phone_duplicate
last_verdicts none (some id) = email_duplicate
last_verdicts none none = new_lead

unfoldable pub contact_verdict : Probed → Option Key → Option Key → Verdict
unfolding last_verdicts
contact_verdict p none phone = unmapped_form
contact_verdict p (some org_id) none = missing_contact
contact_verdict p (some org_id) (some phone) = last_verdicts p.phone_lead_id p.email_lead_id

-- The CASE of `verdict`, in its order.
unfoldable pub verdict_of : Probed → Verdict
unfolding contact_verdict
verdict_of p =
    if p.already_synced
    then already_synced
    else if p.is_test_lead
    then test_lead
    else contact_verdict p p.org_id p.phone

unfoldable pub last_existing : Option Key → Option Key → Option Key
last_existing (some id) email_lead_id = some id
last_existing none email_lead_id = email_lead_id

unfoldable pub contact_existing : Probed → Option Key → Option Key → Option Key
unfolding last_existing
contact_existing p none phone = none
contact_existing p (some org_id) none = none
contact_existing p (some org_id) (some phone) = last_existing p.phone_lead_id p.email_lead_id

-- The CASE of `existing_lead_id`.
unfoldable pub existing_of : Probed → Option Key
unfolding contact_existing
existing_of p =
    if p.already_synced || p.is_test_lead then none else contact_existing p p.org_id p.phone

module _ (choose : List Key → Option Key) (is_placeholder : Key → Bool) (btrim : Key → Option Key)
    (mappings : ContactMappings) where
  unfoldable pub probe : MetaDb → StagedLead → Probed
  unfolding dup_phone dup_email field_data_of
  probe db row =
      let phone = select_by_keys btrim mappings.phone (field_data_of row) in
      let email = select_by_keys btrim mappings.email (field_data_of row) in
      record {
        already_synced = any (λ (ml : MetaLead). ml.meta_lead_id == row.meta_lead_id) db.meta_leads;
        is_test_lead =
            any (λ (f : MetaLeadFieldData). any is_placeholder f.values) (field_data_of row);
        org_id = row.org_id;
        phone = phone;
        phone_lead_id = dup_phone choose db.lms row.org_id phone;
        email_lead_id = dup_email choose db.lms row.org_id email;
      }

  unfoldable pub classify_row : MetaDb → StagedLead → StagedLead
  unfolding probe verdict_of existing_of
  classify_row db row =
      let p = probe db row in
      record row { verdict = some (verdict_of p); existing_lead_id = existing_of p }

  -- UPDATE … WHERE run_id = …
  pub classify_run_leads : Key → MetaDb → MetaDb
  unfolding classify_row
  classify_run_leads run_id db = record db {
    meta_pull_leads =
        map (λ (row : StagedLead). if row.run_id == run_id then classify_row db row else row)
          db.meta_pull_leads;
  }
