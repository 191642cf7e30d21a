-- ===== src/Campaign/Projection.antt =====
-- The branch's row for a Meta campaign: created once, however the calls interleave.
use msq_lms.Base.{
  ◌+◌, ◌≡◌, ◌≤◌, refl, sym, ap, ap₂, ◌∙◌, Bool, true, false, Option, none, some, List, [], ◌∷◌,
  ◌++◌, arith, filter, first, Option-cases, inl, inr, any, length, Bool-cases, subst, map,
}
use msq_lms.Errors.{ok, >>=-ok, ok-injective}
use msq_lms.Db.{Key, AdCampaign, Db}
use msq_lms.Campaign.{
  Texts, ResolveCampaignInput, ResolvedCampaign, is_projection, find_projection, insert_projection,
  projection_row, project_campaign, insert_and_reselect, ensure_branch_campaign, found_or, attach,
  resolve_type, resolve_campaign_for_lead,
}

-- uix_ad_campaigns_org_meta_campaign_id: no branch has two rows for one Meta campaign.
abbrev pub AtMostOne : Db → Type 0
AtMostOne db =
    (org_id meta_id : Key) → length (filter (is_projection org_id meta_id) db.ad_campaigns) ≤ 1

module _ (p : AdCampaign → Bool) where
  any-first :
      (rows : List AdCampaign)
      → any p rows ≡ true
      → (id : Key) × (first (map (λ ac. ac.id) (filter p rows)) ≡ some id)
  any-first [] h = cc
  any-first (r ∷ rs) h = elim (Bool-cases (p r)) [
    | inl e ↦ (r.id, rw e)
    | inr e ↦ let (id, q) = any-first rs (rw e at h) in (id, rw e q)
  ]

  first-any :
      (rows : List AdCampaign)
      → first (map (λ ac. ac.id) (filter p rows)) ≡ none
      → any p rows ≡ false
  first-any [] h = refl
  first-any (r ∷ rs) h = elim (Bool-cases (p r)) [
    | inl e ↦ cc (rw e at h)
    | inr e ↦ rw e (first-any rs (rw e at h))
  ]

  none-first :
      (rows : List AdCampaign)
      → any p rows ≡ false
      → first (map (λ ac. ac.id) (filter p rows)) ≡ none
  none-first [] h = refl
  none-first (r ∷ rs) h = elim (Bool-cases (p r)) [
    | inl e ↦ cc (rw e at h)
    | inr e ↦ rw e (none-first rs (rw e at h))
  ]

  any-append_self :
      (rows : List AdCampaign) (r : AdCampaign) → p r ≡ true → any p (rows ++ r ∷ []) ≡ true
  any-append_self [] r h = rw h
  any-append_self (x ∷ rows) r h = ground (arith, any-append_self rows r h)

  length-filter-append :
      (rows : List AdCampaign) (r : AdCampaign)
      → length (filter p (rows ++ r ∷ [])) ≡ length (filter p rows) + length (filter p (r ∷ []))
  length-filter-append [] r = omega arith
  length-filter-append (x ∷ rows) r = ground (arith, length-filter-append rows r)

  any-false-length : (rows : List AdCampaign) → any p rows ≡ false → length (filter p rows) ≡ 0
  any-false-length [] h = refl
  any-false-length (x ∷ rows) h = ground (arith, any-false-length rows)

projection-eq :
    (org_id meta_id : Key) (row : AdCampaign)
    → is_projection org_id meta_id row ≡ true
    → (org_id ≡ row.org_id) × (row.meta_campaign_id ≡ some meta_id)
unfolding is_projection
projection-eq org_id meta_id row h = ground arith

insert_projection-AtMostOne :
    (db : Db) (row : AdCampaign) (meta_id : Key)
    → row.meta_campaign_id ≡ some meta_id
    → AtMostOne db
    → AtMostOne (insert_projection db row meta_id)
unfolding insert_projection
insert_projection-AtMostOne db row meta_id e one org_id' meta_id' =
    elim (Bool-cases (any (is_projection row.org_id meta_id) db.ad_campaigns)) [
      | inl there ↦ rw there (one org_id' meta_id')
      | inr none_there ↦
          let rows = db.ad_campaigns in
          let q = is_projection org_id' meta_id' in
          rw none_there (
            rw (length-filter-append q rows row) (elim (Bool-cases (q row)) [
              | inl mine ↦
                  let (o, m) = projection-eq org_id' meta_id' row mine in
                  let same_meta : meta_id' ≡ meta_id = ground arith in
                  let empty : length (filter q rows) ≡ 0 =
                    any-false-length q rows (rw (ap₂ is_projection o same_meta) none_there) in
                  rw (mine, empty) (omega arith)
              | inr other ↦ rw other (let h = one org_id' meta_id' in omega arith)
            ]))
    ]

insert_kept :
    (db : Db) (row : AdCampaign) (meta_id : Key) {a : Key}
    → find_projection db row.org_id meta_id ≡ some a
    → insert_projection db row meta_id ≡ db
unfolding insert_projection find_projection
insert_kept db row meta_id e =
    elim (Bool-cases (any (is_projection row.org_id meta_id) db.ad_campaigns)) [
      | inl there ↦ rw there
      | inr none_there ↦ cc (none-first _ db.ad_campaigns none_there, e)
    ]

module _ (texts : Texts) where
  project_campaign-AtMostOne :
      (fresh : Key) (db : Db) (org_id meta_id : Key) (input : ResolveCampaignInput)
      (type_id platform status : Option Key)
      → AtMostOne db
      → AtMostOne
          (insert_and_reselect texts fresh db org_id meta_id input type_id platform status).1
  unfolding insert_and_reselect
  project_campaign-AtMostOne fresh db org_id meta_id input type_id none status one = one
  project_campaign-AtMostOne fresh db org_id meta_id input type_id (some platform) none one = one
  project_campaign-AtMostOne fresh db org_id meta_id input type_id (some platform) (some status)
        one =
      insert_projection-AtMostOne db _ meta_id refl one

  ensure-AtMostOne :
      (fresh : Key) (db : Db) (org_id meta_id : Key) (input : ResolveCampaignInput)
      (type_id : Option Key)
      → AtMostOne db
      → AtMostOne (ensure_branch_campaign texts fresh db org_id meta_id input type_id).1
  unfolding ensure_branch_campaign project_campaign
  ensure-AtMostOne fresh db org_id meta_id input type_id one =
      elim (Option-cases (find_projection db org_id meta_id)) [
        | inl e ↦
            rw (e, found_or)
              (project_campaign-AtMostOne fresh db org_id meta_id input type_id _ _ one)
        | inr (id, e) ↦ rw (e, found_or) one
      ]

  attach-AtMostOne :
      (fresh : Key) (db : Db) (org_id : Key) (input : ResolveCampaignInput)
      (type_id meta_id : Option Key)
      → AtMostOne db
      → AtMostOne (attach texts fresh db org_id input type_id meta_id).1
  unfolding attach
  attach-AtMostOne fresh db org_id input type_id none one = one
  attach-AtMostOne fresh db org_id input type_id (some meta_id) one =
      ensure-AtMostOne fresh db org_id meta_id input type_id one

  -- Resolving the campaign of a lead keeps the table's unique index: no branch gets two rows for
  -- one Meta campaign.
  pub resolve_campaign_for_lead-AtMostOne :
      (fresh : Key) (db db' : Db) (org_id : Key) (input : ResolveCampaignInput)
      (found : ResolvedCampaign)
      → resolve_campaign_for_lead texts fresh db org_id input ≡ ok (found, db')
      → AtMostOne db
      → AtMostOne db'
  unfolding resolve_campaign_for_lead
  resolve_campaign_for_lead-AtMostOne fresh db db' org_id input found e one =
      let (type_id, _, done) = >>=-ok (resolve_type db org_id input) _ e in
      let same_db : (attach texts fresh db org_id input type_id input.meta_campaign_id).1 ≡ db' =
        ground arith in
      subst AtMostOne same_db
        (attach-AtMostOne fresh db org_id input type_id input.meta_campaign_id one)

  module _ (org_id meta_id : Key) where
    reselected :
        (fresh : Key) (db db1 : Db) (input : ResolveCampaignInput)
        (type_id platform status : Option Key) {a : Key}
        → insert_and_reselect texts fresh db org_id meta_id input type_id platform status
          ≡ (some a, db1)
        → find_projection db1 org_id meta_id ≡ some a
    unfolding insert_and_reselect
    reselected fresh db db1 input type_id none status e = cc (ap (λ r. r.0) e)
    reselected fresh db db1 input type_id (some platform) none e = cc (ap (λ r. r.0) e)
    reselected fresh db db1 input type_id (some platform) (some status) e =
        rw (← ap (λ r. r.1) e) (ap (λ r. r.0) e)

    second_insert :
        (fresh : Key) (db db1 : Db) (input : ResolveCampaignInput)
        (type_id platform status : Option Key) {a b : Key}
        → find_projection db org_id meta_id ≡ some a
        → insert_and_reselect texts fresh db org_id meta_id input type_id platform status
          ≡ (some b, db1)
        → (b ≡ a) × (db1 ≡ db)
    unfolding insert_and_reselect
    second_insert fresh db db1 input type_id none status found e = cc (ap (λ r. r.0) e)
    second_insert fresh db db1 input type_id (some platform) none found e = cc (ap (λ r. r.0) e)
    second_insert fresh db db1 input type_id (some platform) (some status) {a} {b} found e =
        let stays =
          insert_kept db (projection_row texts fresh org_id meta_id input type_id platform status)
            meta_id found in
        let db1_is_db : db1 ≡ db = sym (ap (λ r. r.1) e) ∙ stays in
        let again : find_projection db1 org_id meta_id ≡ some b =
          rw (← ap (λ r. r.1) e) (ap (λ r. r.0) e) in
        (cc (again, found, ap (λ d. find_projection d org_id meta_id) db1_is_db), db1_is_db)

    -- Two deliveries of a new campaign race: both find no row for the branch, the first inserts one,
    -- then the second comes to its own insert. Whatever the two carry, the second gets the first
    -- one's row if it gets any, and leaves the table as it is.
    pub project_campaign_race :
        (fresh fresh' : Key) (db db1 db2 : Db) (input input' : ResolveCampaignInput)
        (type_id type_id' : Option Key) {a b : Key}
        → project_campaign texts fresh db org_id meta_id input type_id ≡ (some a, db1)
        → project_campaign texts fresh' db1 org_id meta_id input' type_id' ≡ (some b, db2)
        → (b ≡ a) × (db2 ≡ db1)
    unfolding project_campaign
    project_campaign_race fresh fresh' db db1 db2 input input' type_id type_id' first_done
          second_done =
        second_insert fresh' db1 db2 input' type_id' _ _
          (reselected fresh db db1 input type_id _ _ first_done) second_done

    -- A later lead of the campaign finds the row that an earlier one left, and changes nothing.
    pub ensure_branch_campaign_again :
        (fresh fresh' : Key) (db db1 : Db) (input input' : ResolveCampaignInput)
        (type_id type_id' : Option Key) {a : Key}
        → ensure_branch_campaign texts fresh db org_id meta_id input type_id ≡ (some a, db1)
        → ensure_branch_campaign texts fresh' db1 org_id meta_id input' type_id' ≡ (some a, db1)
    unfolding ensure_branch_campaign project_campaign
    ensure_branch_campaign_again fresh fresh' db db1 input input' type_id type_id' {a} e =
        elim (Option-cases (find_projection db org_id meta_id)) [
          | inl unseen ↦
              rw (reselected fresh db db1 input type_id _ _ (rw (unseen, found_or) at e), found_or)
          | inr (id, seen) ↦
              let h = rw (seen, found_or) at e in
              let f : find_projection db1 org_id meta_id ≡ some a =
                rw (← ap (λ r. r.1) h) (seen ∙ ap (λ r. r.0) h) in
              rw (f, found_or)
        ]

insert_projection-leads :
    (db : Db) (row : AdCampaign) (meta_id : Key)
    → (insert_projection db row meta_id).marketing_leads ≡ db.marketing_leads
unfolding insert_projection
insert_projection-leads db row meta_id = ground arith

module _ (texts : Texts) where
  ensure-leads :
      (fresh : Key) (db : Db) (org_id meta_id : Key) (input : ResolveCampaignInput)
      (type_id : Option Key)
      → (ensure_branch_campaign texts fresh db org_id meta_id input type_id).1.marketing_leads
        ≡ db.marketing_leads
  unfolding ensure_branch_campaign project_campaign
  ensure-leads fresh db org_id meta_id input type_id =
      elim (Option-cases (find_projection db org_id meta_id)) [
        | inl e ↦ rw (e, found_or) (written _ _)
        | inr (id, e) ↦ rw (e, found_or)
      ]
    where
      written :
          (platform status : Option Key)
          → (insert_and_reselect texts fresh db org_id meta_id input type_id platform
              status).1.marketing_leads
            ≡ db.marketing_leads
      written none status = refl
      written (some platform) none = refl
      written (some platform) (some status) = insert_projection-leads db _ meta_id

  -- Resolving the campaign leaves the leads as they are.
  pub resolve_campaign_for_lead-leads :
      (fresh : Key) (db db' : Db) (org_id : Key) (input : ResolveCampaignInput)
      (found : ResolvedCampaign)
      → resolve_campaign_for_lead texts fresh db org_id input ≡ ok (found, db')
      → db'.marketing_leads ≡ db.marketing_leads
  unfolding resolve_campaign_for_lead attach
  resolve_campaign_for_lead-leads fresh db db' org_id input found e =
      let (type_id, _, done) = >>=-ok (resolve_type db org_id input) _ e in
      ap (λ x. x.1.marketing_leads) (sym (ok-injective done))
      ∙ attached type_id input.meta_campaign_id
    where
      attached :
          (type_id meta_id : Option Key)
          → (attach texts fresh db org_id input type_id meta_id).1.marketing_leads
            ≡ db.marketing_leads
      attached type_id none = refl
      attached type_id (some meta_id) = ensure-leads fresh db org_id meta_id input type_id
