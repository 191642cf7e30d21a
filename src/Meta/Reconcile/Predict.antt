-- ===== src/Meta/Reconcile/Predict.antt =====
-- The verdict is what the import then does, on the same tables.
use msq_lms.Base.{
  ℕ, ◌≤◌, List, [], ◌∷◌, length, ◌==◌, ==_iff, false≢true, fun_ext, ◌≡◌, ◌≢◌, refl, sym, ap, ap₂,
  ◌∙◌, subst, Bool, true, false, Option, none, some, map, first, filter, All, Bool-cases, inl, inr,
  or_option, arith,
}
use msq_lms.Db.{Key, Lead, Db}
use msq_lms.Errors.{ok}
use msq_lms.AutoAssign.{Deficits}
use msq_lms.Campaign.{Texts}
use msq_lms.Intake.{
  WebhookLeadResult, blank, given, has_phone, has_email, lead_with_phone, lead_with_email,
  create_webhook_lead,
}
use msq_lms.Intake.Answer.{resubmits, create_webhook_lead-Answers}
use msq_lms.Meta.Contact.Filled.{TrimsToText, extract_by_keys-filled}
use msq_lms.Meta.Contact.Nearest.{HasUniqueNames}
use msq_lms.Meta.{
  MetaLeadFieldData, ContactMappings, RawMetaLead, Verdict, email_duplicate, StagedLead, MetaDb,
}
use msq_lms.Meta.Contact.{Contact, first_value, build_contact_payload, select_by_keys}
use msq_lms.Meta.Contact.Agree.{extract_by_keys-select_by_keys, build_contact_payload-texts}
use msq_lms.Meta.Sync.{CampaignForIntake, intake_payload}
use msq_lms.Meta.Reconcile.{
  is_importable, dup_phone, dup_email, Probed, field_data_of, last_verdicts, contact_verdict,
  verdict_of, last_existing, contact_existing, existing_of, probe, classify_row,
}

given_real : (text : Key) → text ≢ blank → given (some text) ≡ some text
given_real text real = let filled : (text == blank) ≡ false = ground arith in rw filled refl

abbrev pub is_email_duplicate : Verdict → Bool
is_email_duplicate email_duplicate = true
is_email_duplicate _ = false

-- LIMIT 1 of no row and of a single one; which of several rows it gives is left open.
pub record IsLimitOne (choose : List Key → Option Key) : Type 0 where
  pub of_none : choose [] ≡ none
  pub of_one : (id : Key) → choose (id ∷ []) ≡ some id

choose-first :
    (choose : List Key → Option Key)
    → IsLimitOne choose
    → (leads : List Lead) → length leads ≤ 1
    → choose (map (λ (ml : Lead). ml.id) leads) ≡ first (map (λ (ml : Lead). ml.id) leads)
choose-first choose limit [] h = limit.of_none
choose-first choose limit (l ∷ []) h = limit.of_one l.id
choose-first choose limit (l ∷ m ∷ ls) h = absurd (omega arith)

-- The two services ask the same question of lms.marketing_leads.
dup_phone-lead_with_phone :
    (choose : List Key → Option Key)
    → IsLimitOne choose
    → (db : Db) (org_id phone : Key) → phone ≢ blank
    → length (filter (has_phone org_id phone) db.marketing_leads) ≤ 1
    → dup_phone choose db (some org_id) (some phone) ≡ lead_with_phone db org_id (some phone)
unfolding dup_phone lead_with_phone has_phone
dup_phone-lead_with_phone choose limit db org_id phone real one =
    let filled : (phone == blank) ≡ false = ground arith in
    rw filled (
      ap (λ test. choose (map (λ (ml : Lead). ml.id) (filter test db.marketing_leads)))
        (fun_ext (λ (ml : Lead). ground arith))
      ∙ choose-first choose limit (filter (has_phone org_id phone) db.marketing_leads) one)

dup_email-lead_with_email :
    (choose : List Key → Option Key)
    → IsLimitOne choose
    → (db : Db) (org_id : Key) (email : Option Key) → email ≢ some blank
    → ((text : Key)
        → email ≡ some text
        → length (filter (has_email org_id text) db.marketing_leads) ≤ 1)
    → dup_email choose db (some org_id) email ≡ lead_with_email db org_id email
unfolding dup_email lead_with_email has_email
dup_email-lead_with_email choose limit db org_id none real one = refl
dup_email-lead_with_email choose limit db org_id (some email) real one =
    let filled : (email == blank) ≡ false = elim (Bool-cases (email == blank)) [
      | inl e ↦ absurd (real (ap some ((==_iff email blank).0 e)))
      | inr e ↦ e
    ] in
    rw filled (
      ap (λ test. choose (map (λ (ml : Lead). ml.id) (filter test db.marketing_leads)))
        (fun_ext (λ (ml : Lead). ground arith))
      ∙ choose-first choose limit (filter (has_email org_id email) db.marketing_leads)
          (one email refl))

last-cases :
    (by_phone by_email : Option Key)
    → (is_email_duplicate (last_verdicts by_phone by_email) ≡ resubmits by_phone by_email)
      × (last_existing by_phone by_email ≡ or_option by_phone by_email)
unfolding last_verdicts last_existing
last-cases (some id) by_email = (refl, refl)
last-cases none (some id) = (refl, refl)
last-cases none none = (refl, refl)

-- An importable verdict: the row has a branch and a phone, and the verdict and the lead that it
-- names tell what the two searches found.
abbrev Foresees : Probed → Option Key → Option Key → Verdict → Option Key → Type 0
Foresees p org phone verdict existing =
    (org_id : Key) × (text : Key) × (org ≡ some org_id)
    × (phone ≡ some text)
    × (is_email_duplicate verdict ≡ resubmits p.phone_lead_id p.email_lead_id)
    × (existing ≡ or_option p.phone_lead_id p.email_lead_id)

contact-Foresees :
    (p : Probed) (org phone : Option Key)
    → is_importable (contact_verdict p org phone) ≡ true
    → Foresees p org phone (contact_verdict p org phone) (contact_existing p org phone)
unfolding contact_verdict contact_existing
contact-Foresees p none phone h = absurd (false≢true h)
contact-Foresees p (some org_id) none h = absurd (false≢true h)
contact-Foresees p (some org_id) (some text) h =
    let (v, e) = last-cases p.phone_lead_id p.email_lead_id in (org_id, text, refl, refl, v, e)

importable-Foresees :
    (p : Probed)
    → is_importable (verdict_of p) ≡ true
    → Foresees p p.org_id p.phone (verdict_of p) (existing_of p)
unfolding verdict_of existing_of
importable-Foresees p h = elim (Bool-cases p.already_synced) [
  | inl known ↦ absurd (false≢true (rw known at h))
  | inr unknown ↦ elim (Bool-cases p.is_test_lead) [
    | inl test ↦ absurd (false≢true (rw (unknown, test) at h))
    | inr real ↦ rw (unknown, real) (contact-Foresees p p.org_id p.phone (rw (unknown, real) at h))
  ]
]

module _ (texts : Texts) (has_lms : Key → Key → Bool) (arithmetic : Deficits) (draw : ℕ → ℕ)
    (choose : List Key → Option Key) (is_placeholder : Key → Bool) (trim btrim : Key → Option Key)
    (mappings : ContactMappings) where
  -- What the payload carries: the texts that the preview extracted.
  contact_texts :
      (row : StagedLead) (contact : Contact)
      → HasUniqueNames (field_data_of row)
      → All
          (λ (f : MetaLeadFieldData). first_value trim f ≡ first_value btrim f)
          (field_data_of row)
      → build_contact_payload trim (field_data_of row) mappings ≡ ok contact
      → (some contact.phone ≡ select_by_keys btrim mappings.phone (field_data_of row))
        × (contact.email ≡ select_by_keys btrim mappings.email (field_data_of row))
  contact_texts row contact unique alike e =
      let (phone, email) =
        build_contact_payload-texts trim (field_data_of row) mappings contact e in
      (
        sym phone
            ∙ extract_by_keys-select_by_keys trim btrim mappings.phone (field_data_of row) unique
                alike,
        sym email
            ∙ extract_by_keys-select_by_keys trim btrim mappings.email (field_data_of row) unique
                alike,
      )

  contact_filled :
      (row : StagedLead) (contact : Contact)
      → TrimsToText trim
      → build_contact_payload trim (field_data_of row) mappings ≡ ok contact
      → (contact.phone ≢ blank) × (contact.email ≢ some blank)
  contact_filled row contact trims e =
      let fs = field_data_of row in
      let (phone, email) = build_contact_payload-texts trim fs mappings contact e in
      (
        extract_by_keys-filled trim trims fs mappings.phone contact.phone phone,
        λ h. extract_by_keys-filled trim trims fs mappings.email blank (email ∙ h) refl,
      )

  -- Where at most one active lead of the branch has the contact's phone, and at most one its email,
  -- then, on the tables that the verdict was given on, an importable verdict is what the import then
  -- does: the intake names the lead that the verdict names, or none where it names none, and it
  -- answers that the lead is a duplicate exactly for the verdict email_duplicate. The form asks no
  -- two questions under one key, both services trim its answers alike, and trimming leaves no empty
  -- text.
  pub classify_row-create_webhook_lead :
      (db : MetaDb) (row : StagedLead) (verdict : Verdict) (org_id : Key) (lead : RawMetaLead)
      (contact : Contact) (campaign : CampaignForIntake) (new_id fresh : Key)
      (answer : WebhookLeadResult) (lms : Db)
      → IsLimitOne choose
      → length (filter (has_phone org_id contact.phone) db.lms.marketing_leads) ≤ 1
      → ((text : Key)
          → contact.email ≡ some text
          → length (filter (has_email org_id text) db.lms.marketing_leads) ≤ 1)
      → TrimsToText trim
      → HasUniqueNames (field_data_of row)
      → All
          (λ (f : MetaLeadFieldData). first_value trim f ≡ first_value btrim f)
          (field_data_of row)
      → row.org_id ≡ some org_id
      → (classify_row choose is_placeholder btrim mappings db row).verdict ≡ some verdict
      → is_importable verdict ≡ true
      → build_contact_payload trim (field_data_of row) mappings ≡ ok contact
      → create_webhook_lead texts has_lms arithmetic draw new_id fresh
          (intake_payload org_id lead contact campaign)
          db.lms
        ≡ ok (answer, lms)
      → (answer.existing_lead_id
          ≡ (classify_row choose is_placeholder btrim mappings db row).existing_lead_id)
        × (answer.is_duplicate ≡ is_email_duplicate verdict)
  unfolding classify_row probe intake_payload
  classify_row-create_webhook_lead db row verdict org_id lead contact campaign new_id fresh answer
        lms limit one_phone one_email trims unique alike branch given importable has_contact taken =
      let p = probe choose is_placeholder btrim mappings db row in
      let its : verdict_of p ≡ verdict = cc given in
      let (o, t, eo, et, says, names) =
        importable-Foresees p (subst (λ v. is_importable v ≡ true) (sym its) importable) in
      let (phone, email) = contact_texts row contact unique alike has_contact in
      let (phone_text, email_text) = contact_filled row contact trims has_contact in
      let by_phone : p.phone_lead_id ≡ lead_with_phone db.lms org_id (some contact.phone) =
        ap₂ (dup_phone choose db.lms) branch (sym phone)
        ∙ dup_phone-lead_with_phone choose limit db.lms org_id contact.phone phone_text one_phone in
      let by_email : p.email_lead_id ≡ lead_with_email db.lms org_id contact.email =
        ap₂ (dup_email choose db.lms) branch (sym email)
        ∙ dup_email-lead_with_email choose limit db.lms org_id contact.email email_text one_email in
      let (duplicate, existing) =
        create_webhook_lead-Answers texts has_lms arithmetic draw new_id fresh
          (intake_payload org_id lead contact campaign) db.lms answer lms org_id contact.phone refl
          (given_real contact.phone phone_text) taken in
      (
        existing ∙ sym (ap₂ or_option by_phone by_email) ∙ sym names,
        duplicate ∙ sym (ap₂ resubmits by_phone by_email) ∙ sym says ∙ ap is_email_duplicate its,
      )
