-- ===== src/Intake/Supersede.antt =====
-- The ways in which a lead is taken in.
use msq_lms.Base.{ℕ, ◌≡◌, refl, sym, ap, ◌∙◌, Bool, true, false, Option, none, some}
use msq_lms.Errors.{ok, ok-injective, >>=-ok}
use msq_lms.Db.{Key, Db}
use msq_lms.AutoAssign.{Deficits, resolve_auto_assigned_user}
use msq_lms.Campaign.{Texts, ResolvedCampaign, resolve_campaign_for_lead}
use msq_lms.Intake.{
  WebhookLeadData, WebhookLeadResult, source_of, lead_with_phone, lead_with_email, deactivate,
  link_superseded, insert_lead, new_lead, create_typed, or_resubmission, staged, in_branch,
  create_webhook_lead, new_stage, given,
}

module _ (texts : Texts) (has_lms : Key → Key → Bool) (arithmetic : Deficits) (draw : ℕ → ℕ)
    (new_id fresh : Key) where
  -- How `create_webhook_lead` ends where it returns.
  pub data TakenIn (d : WebhookLeadData) (db : Db) (r : WebhookLeadResult) (db' : Db) : Type 0 where
    resubmitted :
        (org_id id : Key)
        → d.org_id ≡ some org_id
        → lead_with_phone db org_id d.phone ≡ none
        → lead_with_email db org_id d.email ≡ some id
        → r ≡ record {
          id = id;
          is_duplicate = true;
          existing_lead_id = some id;
          assigned_user_id = none;
          campaign_type_id = none;
          auto_assign_reason = none;
        }
        → db' ≡ db
        → TakenIn d db r db'
    created :
        (org_id stage_id : Key) (resolved : ResolvedCampaign) (db1 : Db)
        → d.org_id ≡ some org_id
        → new_stage db org_id ≡ some stage_id
        → resolve_campaign_for_lead texts fresh
            (deactivate (lead_with_phone db org_id d.phone) db)
            org_id
            d.campaign
          ≡ ok (resolved, db1)
        → (r.is_duplicate ≡ false)
          × (r.id ≡ new_id)
          × (r.existing_lead_id ≡ lead_with_phone db org_id d.phone)
        → db'
          ≡ link_superseded (lead_with_phone db org_id d.phone) org_id new_id (
              insert_lead
                (new_lead texts has_lms arithmetic draw new_id fresh d org_id stage_id
                  (source_of db org_id d.source_id d.source)
                  resolved
                  (resolve_auto_assigned_user has_lms arithmetic draw db1 org_id
                    resolved.campaign_type_id))
                db1)
        → TakenIn d db r db'

  module _ (d : WebhookLeadData) (db : Db) (r : WebhookLeadResult) (db' : Db) where
    typed-TakenIn :
        (org_id stage_id : Key) (existing : Option Key)
        → d.org_id ≡ some org_id
        → new_stage db org_id ≡ some stage_id
        → lead_with_phone db org_id d.phone ≡ existing
        → create_typed texts has_lms arithmetic draw new_id fresh d org_id stage_id existing db
          ≡ ok (r, db')
        → TakenIn d db r db'
    unfolding create_typed
    typed-TakenIn org_id stage_id existing eo es ex e =
        let ((resolved, db1), found, done) =
          >>=-ok (resolve_campaign_for_lead texts fresh (deactivate existing db) org_id d.campaign)
            _ e in
        let p = ok-injective done in
        created org_id stage_id resolved db1 eo es (rw ex found)
          (
            sym (ap (λ x. x.0.is_duplicate) p),
            sym (ap (λ x. x.0.id) p),
            sym (ap (λ x. x.0.existing_lead_id) p) ∙ sym ex,
          )
          (rw ex (sym (ap (λ x. x.1) p)))

    searched-TakenIn :
        (org_id stage_id : Key) (by_phone by_email : Option Key)
        → d.org_id ≡ some org_id
        → new_stage db org_id ≡ some stage_id
        → lead_with_phone db org_id d.phone ≡ by_phone
        → lead_with_email db org_id d.email ≡ by_email
        → or_resubmission texts has_lms arithmetic draw new_id fresh d org_id stage_id db by_phone
            by_email
          ≡ ok (r, db')
        → TakenIn d db r db'
    unfolding or_resubmission
    searched-TakenIn org_id stage_id (some id) by_email eo es ep ee e =
        typed-TakenIn org_id stage_id (some id) eo es ep e
    searched-TakenIn org_id stage_id none none eo es ep ee e =
        typed-TakenIn org_id stage_id none eo es ep e
    searched-TakenIn org_id stage_id none (some id) eo es ep ee e =
        resubmitted org_id id eo ep ee (sym (ap (λ x. x.0) (ok-injective e)))
          (sym (ap (λ x. x.1) (ok-injective e)))

    staged-TakenIn :
        (org_id : Key) (stage : Option Key)
        → d.org_id ≡ some org_id
        → new_stage db org_id ≡ stage
        → staged texts has_lms arithmetic draw new_id fresh d org_id db stage ≡ ok (r, db')
        → TakenIn d db r db'
    unfolding staged
    staged-TakenIn org_id none eo es e = cc
    staged-TakenIn org_id (some stage_id) eo es e =
        searched-TakenIn org_id stage_id (lead_with_phone db org_id d.phone)
          (lead_with_email db org_id d.email) eo es refl refl e

    branch-TakenIn :
        (org phone email : Option Key)
        → d.org_id ≡ org
        → in_branch texts has_lms arithmetic draw new_id fresh d db org phone email ≡ ok (r, db')
        → TakenIn d db r db'
    unfolding in_branch
    branch-TakenIn none phone email eo e = cc
    branch-TakenIn (some org_id) none none eo e = cc
    branch-TakenIn (some org_id) (some p) email eo e =
        staged-TakenIn org_id (new_stage db org_id) eo refl e
    branch-TakenIn (some org_id) none (some m) eo e =
        staged-TakenIn org_id (new_stage db org_id) eo refl e

    pub create_webhook_lead-TakenIn :
        create_webhook_lead texts has_lms arithmetic draw new_id fresh d db ≡ ok (r, db')
        → TakenIn d db r db'
    unfolding create_webhook_lead
    create_webhook_lead-TakenIn e = branch-TakenIn d.org_id (given d.phone) (given d.email) refl e
