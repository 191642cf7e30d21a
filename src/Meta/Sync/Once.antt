-- ===== src/Meta/Sync/Once.antt =====
-- A Meta lead is recorded once, and a second import of it changes nothing.
use msq_lms.Base.{
  ℕ, ◌+◌, ◌≤◌, ◌≡◌, refl, sym, ap, ap₂, subst, true, Option, none, some, List, [], ◌∷◌, ◌++◌,
  filter, length, arith, Bool-cases, Option-cases, inl, inr, ◌==◌, first-none, ==_iff,
}
use msq_lms.Db.{Key, Db}
use msq_lms.Errors.{Result, ok, >>=-ok, ok-injective}
use msq_lms.Intake.{WebhookLeadData, WebhookLeadResult}
use msq_lms.Meta.{ContactMappings, RawMetaLead, MetaLead, MetaDb}
use msq_lms.Meta.Contact.{Contact, build_contact_payload}
use msq_lms.Meta.Sync.{
  SyncLeadResult, SyncCall, intake_payload, find_meta_lead, duplicate_of, synced_as, meta_row,
  insert_unless, record_meta_lead, valid_id, after_intake, take_in, unless_known, checked,
  with_contact, sync_lead_to_database, SyncStep, SyncSteps,
}

abbrev pub copies : Key → List MetaLead → ℕ
copies meta_id rows = length (filter (λ (r : MetaLead). r.meta_lead_id == meta_id) rows)

copies-append :
    (m : Key) (rows : List MetaLead) (r : MetaLead)
    → copies m (rows ++ r ∷ []) ≡ copies m rows + copies m (r ∷ [])
copies-append m [] r = omega arith
copies-append m (x ∷ rows) r = ground (arith, copies-append m rows r)

not_found_copies :
    (m : Key) (rows : List MetaLead) → find_meta_lead m rows ≡ none → copies m rows ≡ 0
unfolding find_meta_lead
not_found_copies m rows h =
    rw (first-none (filter (λ (r : MetaLead). r.meta_lead_id == m) rows) h) refl

find_append :
    (m : Key) (rows : List MetaLead) (r : MetaLead)
    → find_meta_lead m rows ≡ none
    → r.meta_lead_id ≡ m
    → find_meta_lead m (rows ++ r ∷ []) ≡ some r
unfolding find_meta_lead
find_append m [] r h e = rw ((==_iff r.meta_lead_id m).1 e) refl
find_append m (x ∷ rows) r h e = elim (Bool-cases (x.meta_lead_id == m)) [
  | inl hit ↦ cc (rw hit at h)
  | inr miss ↦ rw miss (find_append m rows r (rw miss at h) e)
]

module _ (big_int : Key → Option Key) where
  record_meta_lead-copies :
      (m org_id meta_id : Key) (lead : RawMetaLead) (contact : Contact)
      (row_id marketing_lead_id : Key) (db : MetaDb)
      → copies m db.meta_leads ≤ 1
      → copies m
          (record_meta_lead big_int org_id meta_id lead contact row_id marketing_lead_id
            db).1.meta_leads
        ≤ 1
  unfolding record_meta_lead insert_unless meta_row
  record_meta_lead-copies m org_id meta_id lead contact row_id marketing_lead_id db h =
      elim (Option-cases (find_meta_lead meta_id db.meta_leads)) [
        | inl missing ↦
            let new = meta_row big_int org_id meta_id lead contact row_id marketing_lead_id in
            let split = copies-append m db.meta_leads new in
            elim (Bool-cases (new.meta_lead_id == m)) [
              | inl e ↦
                  let same : meta_id ≡ m = (==_iff meta_id m).0 e in
                  let no_copy =
                    not_found_copies m db.meta_leads
                      (subst (λ k. find_meta_lead k db.meta_leads ≡ none) same missing) in
                  let one : copies m (new ∷ []) ≡ 1 = rw e refl in
                  rw missing (omega (arith, split, no_copy, one))
              | inr e ↦
                  let zero : copies m (new ∷ []) ≡ 0 = rw e refl in
                  rw missing (omega (arith, split, zero, h))
            ]
        | inr (row, found) ↦ rw found h
      ]

  step-copies :
      (m : Key) {db after : MetaDb}
      → SyncStep big_int db after
      → copies m db.meta_leads ≤ 1
      → copies m after.meta_leads ≤ 1
  step-copies m (SyncStep.leads_changed db lms) h = h
  step-copies m (SyncStep.recorded org_id meta_id lead contact row_id marketing_lead_id db) h =
      record_meta_lead-copies m org_id meta_id lead contact row_id marketing_lead_id db h

  -- However the imports of several workers interleave, with whatever the leads-service does to its
  -- own tables between them, a Meta lead that has at most one row of ext.meta_leads keeps at most one.
  pub steps-copies :
      (m : Key) {db after : MetaDb}
      → SyncSteps big_int db after
      → copies m db.meta_leads ≤ 1
      → copies m after.meta_leads ≤ 1
  steps-copies m (SyncSteps.no_step db) h = h
  steps-copies m (SyncSteps.then_step steps step) h = step-copies m step (steps-copies m steps h)

  module _ (trim : Key → Option Key)
      (intake : Key → Key → WebhookLeadData → Db → Result (WebhookLeadResult × Db)) where
    -- What an import that returned did: the lead was known, or it is known since.
    pub Known : Key → SyncLeadResult → MetaDb → Type 0
    Known meta_id r after =
        (row : MetaLead) × (find_meta_lead meta_id after.meta_leads ≡ some row)
        × (row.id ≡ r.meta_lead_row_id)
        × (row.marketing_lead_id ≡ r.marketing_lead_id)

    after_intake-Known :
        (org_id meta_id : Key) (lead : RawMetaLead) (contact : Contact) (call : SyncCall)
        (db : MetaDb) (answer : WebhookLeadResult) (lms : Db) (r : SyncLeadResult) (after : MetaDb)
        → find_meta_lead meta_id db.meta_leads ≡ none
        → after_intake big_int trim intake org_id meta_id lead contact call db (answer, lms)
          ≡ ok (r, after)
        → Known meta_id r after
    unfolding after_intake Known record_meta_lead insert_unless synced_as meta_row
    after_intake-Known org_id meta_id lead contact call db answer lms r after missing h =
        let e = ok-injective (rw missing at h) in
        subst (λ x. Known meta_id x.0 x.1) e
          (
            meta_row big_int org_id meta_id lead contact call.row_id answer.id,
            find_append meta_id db.meta_leads
                (meta_row big_int org_id meta_id lead contact call.row_id answer.id) missing refl,
            refl,
            refl,
          )

    take_in-Known :
        (org_id meta_id : Key) (lead : RawMetaLead) (contact : Contact) (call : SyncCall)
        (db : MetaDb) (r : SyncLeadResult) (after : MetaDb)
        → find_meta_lead meta_id db.meta_leads ≡ none
        → take_in big_int trim intake org_id meta_id lead contact call db ≡ ok (r, after)
        → Known meta_id r after
    unfolding take_in
    take_in-Known org_id meta_id lead contact call db r after missing h =
        let ((answer, lms), e, k) =
          >>=-ok
            (intake call.new_id call.fresh (intake_payload org_id lead contact call.campaign)
              db.lms)
            (after_intake big_int trim intake org_id meta_id lead contact call db) h in
        after_intake-Known org_id meta_id lead contact call db answer lms r after missing k

    unless_known-Known :
        (found : Option MetaLead) (org_id meta_id : Key) (lead : RawMetaLead) (contact : Contact)
        (call : SyncCall) (db : MetaDb) (r : SyncLeadResult) (after : MetaDb)
        → find_meta_lead meta_id db.meta_leads ≡ found
        → unless_known big_int trim intake found org_id meta_id lead contact call db ≡ ok (r, after)
        → Known meta_id r after
    unfolding unless_known Known duplicate_of
    unless_known-Known (some row) org_id meta_id lead contact call db r after e h =
        subst (λ x. Known meta_id x.0 x.1) (ok-injective h) (row, e, refl, refl)
    unless_known-Known none org_id meta_id lead contact call db r after e h =
        take_in-Known org_id meta_id lead contact call db r after e h

    -- An import that returns leaves a row for the lead: an import of the same Meta lead after it
    -- returns the same lead as a duplicate, calls no intake and writes nothing, whatever the
    -- campaign step answers it and however its database numbers rows.
    pub sync_again :
        (org_id : Key) (lead : RawMetaLead) (mappings : ContactMappings) (call again : SyncCall)
        (db after : MetaDb) (r : SyncLeadResult)
        → sync_lead_to_database big_int trim intake org_id lead mappings call db ≡ ok (r, after)
        → sync_lead_to_database big_int trim intake org_id lead mappings again after
          ≡ ok (
            record {
              meta_lead_row_id = r.meta_lead_row_id;
              marketing_lead_id = r.marketing_lead_id;
              is_duplicate = true;
              assigned_user_id = none;
              campaign_type_id = none;
              auto_assign_reason = none;
            },
            after,
          )
    unfolding sync_lead_to_database with_contact checked unless_known duplicate_of Known
    sync_again org_id lead mappings call again db after r h =
        let (contact, has_contact, h1) =
          >>=-ok (build_contact_payload trim lead.field_data mappings)
            (with_contact big_int trim intake org_id lead call db) h in
        let (meta_id, has_id, h2) =
          >>=-ok (valid_id big_int (big_int lead.id))
            (checked big_int trim intake org_id lead call db contact) h1 in
        let (row, found, its_id, its_lead) =
          unless_known-Known (find_meta_lead meta_id db.meta_leads) org_id meta_id lead contact call
            db r after refl h2 in
        rw (has_contact, has_id, found)
          (ap₂
            (λ row_id lead_id. ok (
              record {
                meta_lead_row_id = row_id;
                marketing_lead_id = lead_id;
                is_duplicate = true;
                assigned_user_id = none;
                campaign_type_id = none;
                auto_assign_reason = none;
              },
              after,
            ))
            its_id its_lead)

    -- An import leaves the staged rows alone.
    after_intake_rows :
        (org_id meta_id : Key) (lead : RawMetaLead) (contact : Contact) (call : SyncCall)
        (db : MetaDb) (answer : WebhookLeadResult) (lms : Db) (r : SyncLeadResult) (after : MetaDb)
        → after_intake big_int trim intake org_id meta_id lead contact call db (answer, lms)
          ≡ ok (r, after)
        → after.meta_pull_leads ≡ db.meta_pull_leads
    unfolding after_intake record_meta_lead insert_unless
    after_intake_rows org_id meta_id lead contact call db answer lms r after h =
        elim (Option-cases (find_meta_lead meta_id db.meta_leads)) [
          | inl missing ↦ sym (ap (λ x. x.1.meta_pull_leads) (ok-injective (rw missing at h)))
          | inr (row, found) ↦ sym (ap (λ x. x.1.meta_pull_leads) (ok-injective (rw found at h)))
        ]

    unless_known_rows :
        (found : Option MetaLead) (org_id meta_id : Key) (lead : RawMetaLead) (contact : Contact)
        (call : SyncCall) (db : MetaDb) (r : SyncLeadResult) (after : MetaDb)
        → unless_known big_int trim intake found org_id meta_id lead contact call db ≡ ok (r, after)
        → after.meta_pull_leads ≡ db.meta_pull_leads
    unfolding unless_known take_in
    unless_known_rows (some row) org_id meta_id lead contact call db r after h =
        sym (ap (λ x. x.1.meta_pull_leads) (ok-injective h))
    unless_known_rows none org_id meta_id lead contact call db r after h =
        let ((answer, lms), e, k) =
          >>=-ok
            (intake call.new_id call.fresh (intake_payload org_id lead contact call.campaign)
              db.lms)
            (after_intake big_int trim intake org_id meta_id lead contact call db) h in
        after_intake_rows org_id meta_id lead contact call db answer lms r after k

    pub sync_lead_to_database_rows :
        (org_id : Key) (lead : RawMetaLead) (mappings : ContactMappings) (call : SyncCall)
        (db after : MetaDb) (r : SyncLeadResult)
        → sync_lead_to_database big_int trim intake org_id lead mappings call db ≡ ok (r, after)
        → after.meta_pull_leads ≡ db.meta_pull_leads
    unfolding sync_lead_to_database with_contact checked
    sync_lead_to_database_rows org_id lead mappings call db after r h =
        let (contact, has_contact, h1) =
          >>=-ok (build_contact_payload trim lead.field_data mappings)
            (with_contact big_int trim intake org_id lead call db) h in
        let (meta_id, has_id, h2) =
          >>=-ok (valid_id big_int (big_int lead.id))
            (checked big_int trim intake org_id lead call db contact) h1 in
        unless_known_rows (find_meta_lead meta_id db.meta_leads) org_id meta_id lead contact call db
          r after h2
