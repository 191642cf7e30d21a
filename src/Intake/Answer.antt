-- ===== src/Intake/Answer.antt =====
-- What the intake answers of the two searches for a lead of the same person.
use msq_lms.Base.{ℕ, ◌≡◌, sym, ap, subst, Bool, true, false, Option, none, some, or_option}
use msq_lms.Errors.{ok, ok-injective, >>=-ok}
use msq_lms.Db.{Key, Db}
use msq_lms.AutoAssign.{Deficits}
use msq_lms.Campaign.{Texts, resolve_campaign_for_lead}
use msq_lms.Intake.{
  WebhookLeadData, WebhookLeadResult, lead_with_phone, lead_with_email, deactivate, create_typed,
  or_resubmission, staged, in_branch, create_webhook_lead, new_stage, given,
}

-- A resubmission: no lead has the phone and one has the email.
abbrev pub resubmits : Option Key → Option Key → Bool
resubmits (some id) email_lead = false
resubmits none none = false
resubmits none (some id) = true

abbrev pub Answers : WebhookLeadResult → Option Key → Option Key → Type 0
Answers r phone_lead email_lead =
    (r.is_duplicate ≡ resubmits phone_lead email_lead)
    × (r.existing_lead_id ≡ or_option phone_lead email_lead)

module _ (texts : Texts) (has_lms : Key → Key → Bool) (arithmetic : Deficits) (draw : ℕ → ℕ)
    (new_id fresh : Key) (d : WebhookLeadData) (db : Db) (r : WebhookLeadResult) (db' : Db) where
  typed_answer :
      (org_id stage_id : Key) (existing : Option Key)
      → create_typed texts has_lms arithmetic draw new_id fresh d org_id stage_id existing db
        ≡ ok (r, db')
      → (r.is_duplicate ≡ false) × (r.existing_lead_id ≡ existing)
  unfolding create_typed
  typed_answer org_id stage_id existing e =
      let ((resolved, db1), found, done) =
        >>=-ok (resolve_campaign_for_lead texts fresh (deactivate existing db) org_id d.campaign) _
          e in
      let p = ok-injective done in
      (sym (ap (λ x. x.0.is_duplicate) p), sym (ap (λ x. x.0.existing_lead_id) p))

  searched_answer :
      (org_id stage_id : Key) (by_phone by_email : Option Key)
      → or_resubmission texts has_lms arithmetic draw new_id fresh d org_id stage_id db by_phone
          by_email
        ≡ ok (r, db')
      → Answers r by_phone by_email
  unfolding or_resubmission
  searched_answer org_id stage_id (some id) by_email e = typed_answer org_id stage_id (some id) e
  searched_answer org_id stage_id none none e = typed_answer org_id stage_id none e
  searched_answer org_id stage_id none (some id) e =
      let p = ok-injective e in
      (sym (ap (λ x. x.0.is_duplicate) p), sym (ap (λ x. x.0.existing_lead_id) p))

  staged_answer :
      (org_id : Key) (stage : Option Key)
      → staged texts has_lms arithmetic draw new_id fresh d org_id db stage ≡ ok (r, db')
      → Answers r (lead_with_phone db org_id d.phone) (lead_with_email db org_id d.email)
  unfolding staged
  staged_answer org_id none e = cc
  staged_answer org_id (some stage_id) e =
      searched_answer org_id stage_id (lead_with_phone db org_id d.phone)
        (lead_with_email db org_id d.email) e

  branch_answer :
      (org_id p : Key) (email : Option Key)
      → in_branch texts has_lms arithmetic draw new_id fresh d db (some org_id) (some p) email
        ≡ ok (r, db')
      → Answers r (lead_with_phone db org_id d.phone) (lead_with_email db org_id d.email)
  unfolding in_branch
  branch_answer org_id p email e = staged_answer org_id (new_stage db org_id) e

  pub create_webhook_lead-Answers :
      (org_id p : Key)
      → d.org_id ≡ some org_id
      → given d.phone ≡ some p
      → create_webhook_lead texts has_lms arithmetic draw new_id fresh d db ≡ ok (r, db')
      → Answers r (lead_with_phone db org_id d.phone) (lead_with_email db org_id d.email)
  unfolding create_webhook_lead
  create_webhook_lead-Answers org_id p eo ep e = branch_answer org_id p (given d.email) (
      subst
        (λ o.
          in_branch texts has_lms arithmetic draw new_id fresh d db o (some p) (given d.email)
          ≡ ok (r, db'))
        eo
        (subst
          (λ q.
            in_branch texts has_lms arithmetic draw new_id fresh d db d.org_id q (given d.email)
            ≡ ok (r, db'))
          ep e))
