-- ===== src/Meta/Tests.antt =====
-- A staged lead whose email is on file: its verdict, its import and the Apply of its run.
use msq_lms.Base.{
  ◌≡◌, refl, Bool, true, false, Option, none, some, List, [], ◌∷◌, any, if◌then◌else◌, ◌==◌, first,
  filter, length, ◌+◌, ◌≤◌, arith, ap,
}
use mathlib.Core.List.Memᴰ.{cases_cons}
use msq_lms.Base.{inl, inr, ◌∙◌, sym}
use msq_lms.Meta.Apply.Pending.{settled}
use msq_lms.Meta.Contact.Filled.{TrimsToText}
use msq_lms.Meta.Contact.Nearest.{HasUniqueNames}
use msq_lms.Meta.{MetaLead}
use msq_lms.Meta.Sync.{
  with_contact, checked, unless_known, take_in, after_intake, record_meta_lead, insert_unless,
  meta_row, find_meta_lead, valid_id, synced_as, duplicate_of, lead_source, platform_text,
}
use msq_lms.Errors.{ok}
use msq_lms.Db.{Key}
use msq_lms.AutoAssign.Tests.{exact, draw_first, everybody}
use msq_lms.Campaign.Tests.{plain}
use msq_lms.Intake.{blank, has_phone, has_email, create_webhook_lead}
use msq_lms.Intake.Tests.{email_db, known, known_by_email}
use msq_lms.Meta.{
  fb, MetaLeadFieldData, ContactMappings, RawMetaLead, email_duplicate, pending, MetaLead,
  StagedLead, MetaDb,
}
use msq_lms.Meta.Contact.{
  Contact, first_value, extract_field_value, extract_by_keys, build_contact_payload, phone_or_throw,
  array_position, nearer, candidate, nearest, select_by_keys,
}
use msq_lms.Meta.Contact.Agree.{extract_by_keys-select_by_keys}
use msq_lms.Meta.Sync.{
  SyncLeadResult, SyncCall, CampaignForIntake, intake_payload, sync_lead_to_database,
}
use msq_lms.Meta.Sync.Once.{sync_again}
use msq_lms.Meta.Reconcile.{
  classify_row, probe, verdict_of, existing_of, dup_phone, dup_email, field_data_of,
  contact_verdict, last_verdicts, contact_existing, last_existing,
}
use msq_lms.Meta.Reconcile.Predict.{IsLimitOne, classify_row-create_webhook_lead}
use msq_lms.Meta.Apply.{apply_run, load_importable_rows, mark_non_importable}
use msq_lms.Meta.Apply.Settles.{unsettled, apply_run-settles}

abbrev answers : List MetaLeadFieldData
answers = record { name = 10; values = 502 ∷ [] } ∷ record { name = 11; values = 601 ∷ [] } ∷ []

abbrev keys : ContactMappings
keys = record { phone = 10 ∷ []; email = 11 ∷ [] }

abbrev as_it_is : Key → Option Key
as_it_is text = if text == blank then none else some text

abbrev no_placeholder : Key → Bool
no_placeholder text = false

abbrev staged_lead : StagedLead
staged_lead = record {
  id = 81;
  run_id = 61;
  org_id = some 1;
  meta_lead_id = 800;
  page_id = some 31;
  form_id = 32;
  campaign_id = none;
  platform = some fb;
  lead_created_at = some 20;
  raw_field_data = some answers;
  verdict = none;
  existing_lead_id = none;
  applied_status = pending;
  applied_lead_id = none;
}

abbrev meta_db : MetaDb
meta_db = record {
  lms = email_db;
  meta_leads = [];
  meta_pull_runs = [];
  meta_pull_leads = record staged_lead { verdict = some email_duplicate } ∷ [];
  meta_lead_inbox = [];
}

abbrev raw : RawMetaLead
raw = record {
  id = 800;
  form_id = 32;
  page_id = some 31;
  platform = fb;
  campaign_id = none;
  field_data = answers;
}

abbrev contact : Contact
contact = record { phone = 502; email = some 601 }

abbrev no_campaign : CampaignForIntake
no_campaign = record {
  name = none;
  effective_status = none;
  campaign_type_id = none;
  default_campaign_type_id = none;
}

abbrev call : SyncCall
call = record { campaign = no_campaign; new_id = 72; fresh = 901; row_id = 91 }

name_of : {f g : MetaLeadFieldData} → f ≡ g → f.name ≡ g.name
name_of e = ap (λ (x : MetaLeadFieldData). x.name) e

answers-HasUniqueNames : HasUniqueNames answers
answers-HasUniqueNames f g m k e = elim (cases_cons m) [
  | inl is_phone ↦ elim (cases_cons k) [
    | inl too ↦ is_phone ∙ sym too
    | inr k' ↦ elim (cases_cons k') [
      | inl is_email ↦ let x = name_of is_phone in let y = name_of is_email in absurd (omega arith)
      | inr none_left ↦ elim none_left [ ]
    ]
  ]
  | inr m' ↦ elim (cases_cons m') [
    | inl is_email ↦ elim (cases_cons k) [
      | inl is_phone ↦ let x = name_of is_phone in let y = name_of is_email in absurd (omega arith)
      | inr k' ↦ elim (cases_cons k') [
        | inl too ↦ is_email ∙ sym too
        | inr none_left ↦ elim none_left [ ]
      ]
    ]
    | inr none_left ↦ elim none_left [ ]
  ]
]

run : Unit {0}
unfolding sync_lead_to_database with_contact checked unless_known take_in after_intake
    record_meta_lead insert_unless meta_row find_meta_lead valid_id synced_as duplicate_of
    lead_source platform_text first_value extract_field_value extract_by_keys build_contact_payload
    phone_or_throw array_position nearer candidate nearest select_by_keys intake_payload
    classify_row probe verdict_of existing_of dup_phone dup_email field_data_of contact_verdict
    last_verdicts contact_existing last_existing
run = tt

extract_by_keys-select_by_keys_example :
    extract_by_keys as_it_is answers (12 ∷ 10 ∷ []) ≡ select_by_keys as_it_is (12 ∷ 10 ∷ []) answers
unfolding run
extract_by_keys-select_by_keys_example =
    extract_by_keys-select_by_keys as_it_is as_it_is (12 ∷ 10 ∷ []) answers answers-HasUniqueNames
      (refl, (refl, tt))

first-IsLimitOne : IsLimitOne (first {A = Key})
first-IsLimitOne = record { of_none = refl; of_one = λ id. refl }

nobody_with_phone : length (filter (has_phone 1 502) meta_db.lms.marketing_leads) ≤ 1
unfolding has_phone
nobody_with_phone = ground arith

one_with_email : (text : Key) → length (filter (has_email 1 text) meta_db.lms.marketing_leads) ≤ 1
unfolding has_email
one_with_email text = ground arith

as_it_is-TrimsToText : TrimsToText as_it_is
as_it_is-TrimsToText raw text h = ground arith

classify_row-create_webhook_lead_example :
    (known.existing_lead_id
      ≡ (classify_row first no_placeholder as_it_is keys meta_db staged_lead).existing_lead_id)
    × (known.is_duplicate ≡ true)
unfolding run
classify_row-create_webhook_lead_example =
    classify_row-create_webhook_lead plain everybody exact draw_first first no_placeholder as_it_is
      as_it_is keys meta_db staged_lead email_duplicate 1 raw contact no_campaign 72 901 known
      email_db first-IsLimitOne nobody_with_phone (λ text e. one_with_email text)
      as_it_is-TrimsToText answers-HasUniqueNames (refl, (refl, tt)) refl refl refl refl
      known_by_email

apply_run-settles_example :
    (any
        (unsettled no_placeholder as_it_is as_it_is as_it_is
          (create_webhook_lead plain everybody exact draw_first)
          keys
          (λ id. call)
          (λ n. n)
          (record { id = 61; applied_by = some 4 }))
        (apply_run no_placeholder as_it_is as_it_is as_it_is
          (create_webhook_lead plain everybody exact draw_first)
          keys
          (λ id. call)
          (λ n. n)
          (record { id = 61; applied_by = some 4 })
          meta_db).1.meta_pull_leads
      ≡ false)
    × (settled
          (apply_run no_placeholder as_it_is as_it_is as_it_is
            (create_webhook_lead plain everybody exact draw_first)
            keys
            (λ id. call)
            (λ n. n)
            (record { id = 61; applied_by = some 4 })
            meta_db).0
        ≡ length (load_importable_rows 61 (mark_non_importable 61 meta_db.meta_pull_leads).1)
          + (mark_non_importable 61 meta_db.meta_pull_leads).0)
apply_run-settles_example =
    apply_run-settles no_placeholder as_it_is as_it_is as_it_is
      (create_webhook_lead plain everybody exact draw_first) keys (λ id. call) (λ n. n)
      (record { id = 61; applied_by = some 4 }) meta_db

abbrev synced : SyncLeadResult
synced = record {
  meta_lead_row_id = 91;
  marketing_lead_id = 71;
  is_duplicate = true;
  assigned_user_id = none;
  campaign_type_id = none;
  auto_assign_reason = none;
}

abbrev first_row : MetaLead
first_row = record {
  id = 91;
  org_id = 1;
  marketing_lead_id = 71;
  meta_lead_id = 800;
  page_id = some 31;
  form_id = 32;
  platform = fb;
  email = some 601;
  phone = 502;
}

first_sync :
    sync_lead_to_database as_it_is as_it_is
      (create_webhook_lead plain everybody exact draw_first)
      1
      raw
      keys
      call
      meta_db
    ≡ ok (synced, record meta_db { meta_leads = first_row ∷ [] })
unfolding run
first_sync = rw known_by_email refl

sync_again_example :
    sync_lead_to_database as_it_is as_it_is
      (create_webhook_lead plain everybody exact draw_first)
      1
      raw
      keys
      call
      (record meta_db { meta_leads = first_row ∷ [] })
    ≡ ok (synced, record meta_db { meta_leads = first_row ∷ [] })
sync_again_example =
    sync_again as_it_is as_it_is (create_webhook_lead plain everybody exact draw_first) 1 raw keys
      call call meta_db (record meta_db { meta_leads = first_row ∷ [] }) synced (first_sync)
