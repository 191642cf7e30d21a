-- ===== src/Intake/Forward.antt =====
-- What becomes of the lead that a new one of the same phone replaces, and of a resubmission.
use mathlib.Core.List.Memᴰ
use mathlib.Core.List.Memᴰ.{of_map}
use msq_lms.Base.{
  ℕ, ◌≡◌, ◌≢◌, refl, sym, ap, ◌∙◌, subst, Bool, true, false, Option, none, some, [], ◌∷◌, ◌++◌, map,
  Memᴰ, filter, first-mem, mem-filter, arith, ==_iff, ◌==◌, Bool-cases, inl, inr, false≢true,
}
use msq_lms.Errors.{ok}
use msq_lms.Db.{Key, Lead, Db}
use msq_lms.AutoAssign.{Deficits}
use msq_lms.Campaign.{Texts}
use msq_lms.Campaign.Projection.{resolve_campaign_for_lead-leads}
use msq_lms.Intake.{
  WebhookLeadData, WebhookLeadResult, has_email, lead_with_phone, lead_with_email, deactivate_one,
  deactivate, supersede_one, link_superseded, insert_lead, create_webhook_lead, given, blank,
}
use msq_lms.Intake.Supersede.{TakenIn, resubmitted, created, create_webhook_lead-TakenIn}

-- What the answer "duplicate" means: the database is as it was, and holds the lead that is named,
-- an active one of the branch with the same email.
pub record Resubmission (d : WebhookLeadData) (db db' : Db) (r : WebhookLeadResult) : Type 0 where
  pub same_db : db' ≡ db
  pub lead : Lead
  pub listed : Memᴰ lead db.marketing_leads
  pub named : r.id ≡ lead.id
  pub same_branch : d.org_id ≡ some lead.org_id
  pub with_email : given d.email ≢ none
  pub same_email : lead.email ≡ d.email
  pub active : lead.is_active ≡ true
  pub kept : lead.is_deleted ≡ false

-- What a replaced lead is left as: inactive, pointing forward to the new lead.
pub record Replaced (db' : Db) (id new_id : Key) : Type 0 where
  pub closed :
      (l : Lead)
      → Memᴰ l db'.marketing_leads
      → l.id ≡ id
      → (l.is_active ≡ false) × (l.superseded_by ≡ some new_id)
  pub successor : Lead
  pub listed : Memᴰ successor db'.marketing_leads
  pub its_id : successor.id ≡ new_id
  pub active : successor.is_active ≡ true

found_email :
    (db : Db) (org_id id : Key) (email : Option Key)
    → lead_with_email db org_id email ≡ some id
    → (l : Lead) × Memᴰ l db.marketing_leads
      × (l.id ≡ id)
      × (l.org_id ≡ org_id)
      × (given email ≢ none)
      × (l.email ≡ email)
      × (l.is_active ≡ true)
      × (l.is_deleted ≡ false)
unfolding lead_with_email has_email
found_email db org_id id none h = cc
found_email db org_id id (some email) asked =
    let real : (email == blank) ≡ false = elim (Bool-cases (email == blank)) [
      | inl e ↦ cc (rw e at asked)
      | inr e ↦ e
    ] in
    let h = rw real at asked in
    let test = has_email org_id email in
    let (l, m, e) =
      of_map (λ (x : Lead). x.id) (filter test db.marketing_leads)
        (first-mem (map (λ (x : Lead). x.id) (filter test db.marketing_leads)) h) in
    let (listed, p) = mem-filter test db.marketing_leads m in
    (l, listed, e, ground arith, (λ n. cc (rw real at n)), ground arith, ground arith, ground arith)

supersede_one-eq :
    (id new_id : Key) (l : Lead)
    → l.id ≡ id
    → supersede_one id new_id l ≡ record l { superseded_by = some new_id }
unfolding supersede_one
supersede_one-eq id new_id l h = rw ((==_iff l.id id).1 h)

id-supersede_one : (id new_id : Key) (l : Lead) → (supersede_one id new_id l).id ≡ l.id
unfolding supersede_one
id-supersede_one id new_id l = ground arith

supersede_one_ne : (id new_id : Key) (l : Lead) → l.id ≢ id → supersede_one id new_id l ≡ l
unfolding supersede_one
supersede_one_ne id new_id l h = elim (Bool-cases (l.id == id)) [
  | inl e ↦ absurd (h ((==_iff l.id id).0 e))
  | inr e ↦ rw e
]

deactivated :
    (id : Key) (l : Lead) → (deactivate_one id l).id ≡ id → (deactivate_one id l).is_active ≡ false
unfolding deactivate_one
deactivated id l h = ground arith

-- The lead that the new one replaces, in the tables that are written.
Replaced-link_superseded :
    (id org_id new_id : Key) (db db1 : Db) (l : Lead)
    → db1.marketing_leads ≡ (deactivate (some id) db).marketing_leads
    → l.id ≡ new_id
    → l.is_active ≡ true
    → new_id ≢ id
    → Replaced (link_superseded (some id) org_id new_id (insert_lead l db1)) id new_id
unfolding link_superseded insert_lead deactivate
Replaced-link_superseded id org_id new_id db db1 l leads its_id active apart = record {
  closed = λ x m x_id.
      let (y, k, e) = of_map (supersede_one id new_id) (db1.marketing_leads ++ l ∷ []) m in
      let y_id : y.id ≡ id = sym (id-supersede_one id new_id y) ∙ ap (λ z. z.id) e ∙ x_id in
      let shape = sym e ∙ supersede_one-eq id new_id y y_id in
      elim (Memᴰ.append_cases db1.marketing_leads k) [
        | inl old ↦
            let (z, _, f) =
              of_map (deactivate_one id) db.marketing_leads (subst (λ xs. Memᴰ y xs) leads old) in
            let off = deactivated id z (ap (λ w. w.id) f ∙ y_id) in
            (
              ap (λ w. w.is_active) shape ∙ sym (ap (λ w. w.is_active) f) ∙ off,
              ap (λ w. w.superseded_by) shape,
            )
        | inr new ↦
            absurd (apart (sym its_id ∙ sym (ap (λ w. w.id) (Memᴰ.eq_of_singleton new)) ∙ y_id))
      ];
  successor = l;
  listed =
      subst (λ w. Memᴰ w (map (supersede_one id new_id) (db1.marketing_leads ++ l ∷ [])))
        (supersede_one_ne id new_id l (λ h. apart (sym its_id ∙ h)))
        (Memᴰ.map (supersede_one id new_id)
          (Memᴰ.append_right db1.marketing_leads (Memᴰ.head refl)));
  its_id = its_id;
  active = active;
}

module _ (texts : Texts) (has_lms : Key → Key → Bool) (arithmetic : Deficits) (draw : ℕ → ℕ)
    (new_id fresh : Key) (d : WebhookLeadData) (db db' : Db) (r : WebhookLeadResult) where
  -- A lead that comes back as a duplicate was found by its email: nothing is written, and the lead
  -- that is named is an active one of the branch with that email.
  pub create_webhook_lead-Resubmission :
      create_webhook_lead texts has_lms arithmetic draw new_id fresh d db ≡ ok (r, db')
      → r.is_duplicate ≡ true
      → Resubmission d db db' r
  create_webhook_lead-Resubmission e dup =
      go (create_webhook_lead-TakenIn texts has_lms arithmetic draw new_id fresh d db r db' e)
    where
      go : TakenIn texts has_lms arithmetic draw new_id fresh d db r db' → Resubmission d db db' r
      go (resubmitted org_id id eo _ em answer same_db) =
          let (l, listed, its_id, branch, some_email, email, active, kept) =
            found_email db org_id id d.email em in
          record {
            same_db = same_db;
            lead = l;
            listed = listed;
            named = ap (λ x. x.id) answer ∙ sym its_id;
            same_branch = eo ∙ ap some (sym branch);
            with_email = some_email;
            same_email = email;
            active = active;
            kept = kept;
          }
      go (created _ _ _ _ _ _ _ answer _) = absurd (false≢true (sym answer.0 ∙ dup))

  -- A lead that is taken in as new, and that replaces an earlier lead with its phone, leaves that
  -- one inactive and pointing forward to an active row under the id that is returned. The database
  -- is assumed to give the new lead an id of its own.
  pub create_webhook_lead-Replaced :
      {id : Key}
      → create_webhook_lead texts has_lms arithmetic draw new_id fresh d db ≡ ok (r, db')
      → r.is_duplicate ≡ false
      → r.existing_lead_id ≡ some id
      → new_id ≢ id
      → Replaced db' id r.id
  create_webhook_lead-Replaced {id} e new replaces apart =
      go (create_webhook_lead-TakenIn texts has_lms arithmetic draw new_id fresh d db r db' e)
    where
      go : TakenIn texts has_lms arithmetic draw new_id fresh d db r db' → Replaced db' id r.id
      go (resubmitted org_id _ eo _ em answer same_db) =
          absurd (false≢true (sym new ∙ ap (λ x. x.is_duplicate) answer))
      go (created org stage_id resolved db1 eo es found answer made) =
          let by_phone : lead_with_phone db org d.phone ≡ some id = sym answer.2 ∙ replaces in
          let leads =
            resolve_campaign_for_lead-leads texts fresh _ db1 org d.campaign resolved
              (rw by_phone at found) in
          rw (made, answer.1, by_phone)
            (Replaced-link_superseded id org new_id db db1 _ leads refl refl apart)
