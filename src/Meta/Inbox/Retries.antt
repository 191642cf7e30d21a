-- ===== src/Meta/Inbox/Retries.antt =====
-- A lead has one inbox row, and a row that is closed stays closed, whatever is retried.
use mathlib.Core.List.Memᴰ
use msq_lms.Base.{
  suc, ◌≤◌, ◌≡◌, refl, ap, ◌∙◌, false, List, [], ◌∷◌, Memᴰ, arith, Bool-cases, inl, inr, ◌==◌,
  contains,
}
use msq_lms.Db.{Key}
use msq_lms.Meta.{InboxRow}
use msq_lms.Meta.Inbox.{is_open, retried, retry_landed, InboxSteps}
use msq_lms.Meta.Inbox.Closed.{rows_of, Kept, step-Kept}

-- What is left of a row that was closed: it is closed still, and where no retry has written it, it
-- is as it was.
pub record Closed (ids : List Key) (after : List InboxRow) (row : InboxRow) : Type 0 where
  pub now : InboxRow
  pub listed : Memᴰ now after
  pub same_row : now.id ≡ row.id
  pub same_lead : now.meta_lead_id ≡ row.meta_lead_id
  pub is_closed : is_open now.status ≡ false
  pub unless_retried : contains ids row.id ≡ false → now ≡ row

pub record Settled (ids : List Key) (rows after : List InboxRow) : Type 0 where
  pub closed : (row : InboxRow) → Memᴰ row rows → is_open row.status ≡ false → Closed ids after row
  pub single : (m : Key) → rows_of m rows ≤ 1 → rows_of m after ≤ 1

Closed-step :
    {ids : List Key} {rows after : List InboxRow} {row : InboxRow}
    → Kept rows after
    → Closed ids rows row
    → Closed ids after row
Closed-step k c = record {
  now = c.now;
  listed = k.closed c.now c.listed c.is_closed;
  same_row = c.same_row;
  same_lead = c.same_lead;
  is_closed = c.is_closed;
  unless_retried = c.unless_retried;
}

module _ (actor id marketing_lead_id tenant_id org_id : Key) where
  same_row-retried :
      (row : InboxRow) → (retried actor id marketing_lead_id tenant_id org_id row).id ≡ row.id
  unfolding retried
  same_row-retried row = ground arith

  same_lead-retried :
      (row : InboxRow)
      → (retried actor id marketing_lead_id tenant_id org_id row).meta_lead_id ≡ row.meta_lead_id
  unfolding retried
  same_lead-retried row = ground arith

  closed-retried :
      (row : InboxRow)
      → is_open row.status ≡ false
      → is_open (retried actor id marketing_lead_id tenant_id org_id row).status ≡ false
  unfolding retried
  closed-retried row h = elim (Bool-cases (row.id == id)) [ inl e ↦ rw e refl | inr e ↦ rw e h ]

  retried_other :
      (row : InboxRow)
      → (row.id == id) ≡ false
      → retried actor id marketing_lead_id tenant_id org_id row ≡ row
  unfolding retried
  retried_other row e = rw e refl

  Closed-retry :
      {ids : List Key} {rows : List InboxRow} {row : InboxRow}
      → Closed ids rows row
      → Closed (id ∷ ids) (retry_landed actor id marketing_lead_id tenant_id org_id rows) row
  unfolding retry_landed
  Closed-retry {ids} {rows} {row} c = record {
    now = retried actor id marketing_lead_id tenant_id org_id c.now;
    listed = Memᴰ.map (retried actor id marketing_lead_id tenant_id org_id) c.listed;
    same_row = same_row-retried c.now ∙ c.same_row;
    same_lead = same_lead-retried c.now ∙ c.same_lead;
    is_closed = closed-retried c.now c.is_closed;
    unless_retried = λ h.
        let (other, rest) = apart h in
        retried_other c.now (ap (λ x. x == id) c.same_row ∙ other) ∙ c.unless_retried rest;
  }
    where
      apart :
          contains (id ∷ ids) row.id ≡ false
          → ((row.id == id) ≡ false) × (contains ids row.id ≡ false)
      apart h = (ground arith, ground arith)

  rows_of-retry_landed :
      (m : Key) (rows : List InboxRow)
      → rows_of m (retry_landed actor id marketing_lead_id tenant_id org_id rows) ≡ rows_of m rows
  unfolding retry_landed
  rows_of-retry_landed m [] = refl
  rows_of-retry_landed m (row ∷ rows) = elim (Bool-cases (row.meta_lead_id == m)) [
    | inl e ↦ rw (same_lead-retried row, e) (ap suc (rows_of-retry_landed m rows))
    | inr e ↦ rw (same_lead-retried row, e) (rows_of-retry_landed m rows)
  ]

-- Over any sequence of failures, landings, dismissals and retries, a row that was resolved or
-- ignored stays closed, and exactly as it is where no retry writes it; and a Meta lead with at most
-- one inbox row keeps at most one.
pub steps-Settled :
    {ids : List Key} {rows after : List InboxRow}
    → InboxSteps ids rows after
    → Settled ids rows after
steps-Settled (InboxSteps.no_step rows) = record {
  closed = λ row m h. record {
    now = row;
    listed = m;
    same_row = refl;
    same_lead = refl;
    is_closed = h;
    unless_retried = λ _. refl;
  };
  single = λ m h. h;
}
steps-Settled (InboxSteps.then_step steps step) =
    let before = steps-Settled steps in
    let last = step-Kept step in
    record {
      closed = λ row m h. Closed-step last (before.closed row m h);
      single = λ m h. last.single m (before.single m h);
    }
steps-Settled (InboxSteps.then_retry actor id lead tenant_id org_id {ids} {rows} {between} steps) =
    let before = steps-Settled steps in
    record {
      closed = λ row m h. Closed-retry actor id lead tenant_id org_id (before.closed row m h);
      single = λ m h.
          rw (rows_of-retry_landed actor id lead tenant_id org_id m between) (before.single m h);
    }
