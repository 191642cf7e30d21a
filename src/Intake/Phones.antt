-- ===== src/Intake/Phones.antt =====
-- No branch has two active leads with one phone that is not empty, before and after a lead is taken in.
use msq_lms.Base.{
  ℕ, ◌+◌, ◌≡◌, ◌≢◌, ◌≤◌, refl, sym, ap, ◌∙◌, subst, Bool, true, false, Option, none, some, List, [],
  ◌∷◌, ◌++◌, ◌==◌, map, filter, first, length, arith, Bool-cases, inl, inr, Option-cases,
}
use msq_lms.Errors.{ok}
use msq_lms.Db.{Key, Lead, Db}
use msq_lms.AutoAssign.{Deficits}
use msq_lms.Campaign.{Texts}
use msq_lms.Campaign.Projection.{resolve_campaign_for_lead-leads}
use msq_lms.Intake.{
  WebhookLeadData, WebhookLeadResult, has_phone, lead_with_phone, deactivate_one, deactivate,
  supersede_one, link_superseded, insert_lead, create_webhook_lead, blank,
}
use msq_lms.Intake.Supersede.{TakenIn, resubmitted, created, create_webhook_lead-TakenIn}

ne_false : (text : Key) → text ≢ blank → (text == blank) ≡ false
ne_false text real = ground arith

-- At most one active lead of a branch has a phone, the empty text apart.
abbrev pub count_phone : Key → Key → List Lead → ℕ
count_phone org_id phone leads = length (filter (has_phone org_id phone) leads)

abbrev pub OnePhone : Db → Type 0
OnePhone db = (org_id phone : Key) → phone ≢ blank → count_phone org_id phone db.marketing_leads ≤ 1

module _ (q : Lead → Bool) (f : Lead → Lead) where
  length-filter-map :
      (xs : List Lead)
      → ((x : Lead) → q (f x) ≡ true → q x ≡ true)
      → length (filter q (map f xs)) ≤ length (filter q xs)
  length-filter-map [] h = omega arith
  length-filter-map (x ∷ xs) h = ground (arith, h x, length-filter-map xs h)

  length-filter-map-first :
      (xs : List Lead) {id : Key}
      → ((x : Lead) → q (f x) ≡ true → q x ≡ true)
      → ((x : Lead) → x.id ≡ id → q (f x) ≡ false)
      → first (map (λ l. l.id) (filter q xs)) ≡ some id
      → length (filter q (map f xs)) + 1 ≤ length (filter q xs)
  length-filter-map-first [] h k e = cc
  length-filter-map-first (x ∷ xs) {id} h k e = elim (Bool-cases (q x)) [
    | inl hit ↦
        let its_id : x.id ≡ id = ground arith in
        rw (hit, k x its_id) (let l = length-filter-map xs h in omega arith)
    | inr miss ↦
        let e' = rw miss at e in
        let off : q (f x) ≡ false = ground (arith, h x) in
        rw (miss, off) (length-filter-map-first xs h k e')
  ]

  length-filter-map_eq :
      (xs : List Lead)
      → ((x : Lead) → q (f x) ≡ q x)
      → length (filter q (map f xs)) ≡ length (filter q xs)
  length-filter-map_eq [] h = refl
  length-filter-map_eq (x ∷ xs) h = ground (arith, h x, length-filter-map_eq xs h)

module _ (q : Lead → Bool) where
  length-filter-append :
      (xs : List Lead) (l : Lead)
      → length (filter q (xs ++ l ∷ [])) ≡ length (filter q xs) + length (filter q (l ∷ []))
  length-filter-append [] l = omega arith
  length-filter-append (x ∷ xs) l = ground (arith, length-filter-append xs l)

  none-length :
      (xs : List Lead) → first (map (λ l. l.id) (filter q xs)) ≡ none → length (filter q xs) ≡ 0
  none-length [] h = refl
  none-length (x ∷ xs) h = ground (arith, none-length xs)

module _ (org_id phone id : Key) (x : Lead) where
  deactivate_one-has_phone :
      has_phone org_id phone (deactivate_one id x) ≡ true → has_phone org_id phone x ≡ true
  unfolding has_phone deactivate_one
  deactivate_one-has_phone h = ground arith

  deactivate_one_off : x.id ≡ id → has_phone org_id phone (deactivate_one id x) ≡ false
  unfolding has_phone deactivate_one
  deactivate_one_off h = ground arith

  has_phone-supersede_one :
      (new_id : Key) → has_phone org_id phone (supersede_one id new_id x) ≡ has_phone org_id phone x
  unfolding has_phone supersede_one
  has_phone-supersede_one new_id = ground arith

module _ (org_id phone : Key) where
  count-deactivate :
      (existing : Option Key) (db : Db)
      → count_phone org_id phone (deactivate existing db).marketing_leads
        ≤ count_phone org_id phone db.marketing_leads
  unfolding deactivate
  count-deactivate none db = omega arith
  count-deactivate (some id) db =
      length-filter-map (has_phone org_id phone) (deactivate_one id) db.marketing_leads
        (deactivate_one-has_phone org_id phone id)

  -- Once the lead that is found is inactive, nobody in the branch has the phone.
  count-deactivate_found :
      (db : Db)
      → OnePhone db
      → phone ≢ blank
      → count_phone org_id phone
          (deactivate (lead_with_phone db org_id (some phone)) db).marketing_leads
        ≡ 0
  unfolding deactivate lead_with_phone
  count-deactivate_found db one real =
      rw (ne_false phone real)
        (elim (Option-cases
          (first (map (λ ml. ml.id) (filter (has_phone org_id phone) db.marketing_leads)))) [
            | inl e ↦ rw e (none-length (has_phone org_id phone) db.marketing_leads e)
            | inr (id, e) ↦ rw e (
                let l =
                  length-filter-map-first (has_phone org_id phone) (deactivate_one id)
                    db.marketing_leads (deactivate_one-has_phone org_id phone id)
                    (deactivate_one_off org_id phone id) e in
                let o = one org_id phone real in omega arith)
          ])

  count-link_superseded :
      (existing : Option Key) (org new_id : Key) (db : Db)
      → count_phone org_id phone (link_superseded existing org new_id db).marketing_leads
        ≡ count_phone org_id phone db.marketing_leads
  unfolding link_superseded
  count-link_superseded none org new_id db = refl
  count-link_superseded (some id) org new_id db =
      length-filter-map_eq (has_phone org_id phone) (supersede_one id new_id) db.marketing_leads
        (λ x. has_phone-supersede_one org_id phone id x new_id)

new_row :
    (org_id phone : Key) (l : Lead)
    → has_phone org_id phone l ≡ true
    → (l.org_id ≡ org_id) × (l.phone ≡ some phone)
unfolding has_phone
new_row org_id phone l h = ground arith

module _ (org_id phone : Key) where
  -- The count after the new row, given the count before it.
  count-insert_lead :
      (l : Lead) (db : Db)
      → count_phone org_id phone db.marketing_leads ≤ 1
      → (has_phone org_id phone l ≡ true → count_phone org_id phone db.marketing_leads ≡ 0)
      → count_phone org_id phone (insert_lead l db).marketing_leads ≤ 1
  unfolding insert_lead
  count-insert_lead l db one clear =
      rw (length-filter-append (has_phone org_id phone) db.marketing_leads l)
        (elim (Bool-cases (has_phone org_id phone l)) [
          | inl hit ↦ rw (hit, clear hit) (omega arith)
          | inr miss ↦ rw miss (omega arith)
        ])

-- If no branch has two active leads with one phone that is not empty, none has after a lead is
-- taken in.
pub create_webhook_lead-OnePhone :
    (texts : Texts) (has_lms : Key → Key → Bool) (arithmetic : Deficits) (draw : ℕ → ℕ)
    (new_id fresh : Key) (d : WebhookLeadData) (db db' : Db) (r : WebhookLeadResult)
    → create_webhook_lead texts has_lms arithmetic draw new_id fresh d db ≡ ok (r, db')
    → OnePhone db
    → OnePhone db'
create_webhook_lead-OnePhone texts has_lms arithmetic draw new_id fresh d db db' r e one =
    go (create_webhook_lead-TakenIn texts has_lms arithmetic draw new_id fresh d db r db' e)
  where
    go : TakenIn texts has_lms arithmetic draw new_id fresh d db r db' → OnePhone db'
    go (resubmitted org_id id _ _ _ _ same_db) = subst OnePhone (sym same_db) one
    go (created org stage_id resolved db1 eo es found _ made) = λ org_id phone real.
        let existing = lead_with_phone db org d.phone in
        let leads =
          resolve_campaign_for_lead-leads texts fresh (deactivate existing db) db1 org d.campaign
            resolved found in
        let same_count = ap (count_phone org_id phone) leads in
        rw (made, count-link_superseded org_id phone existing org new_id _)
          (count-insert_lead org_id phone _ db1
            (let c = count-deactivate org_id phone existing db in
              let o = one org_id phone real in omega (arith, same_count))
            (λ hit.
              let (same_org, same_phone) = new_row org_id phone _ hit in
              same_count
              ∙ rw (same_org, same_phone) (count-deactivate_found org_id phone db one real)))
