-- ===== src/Meta/Inbox/Closed.antt =====
-- Failures, landings and dismissals leave the closed rows alone, and add no second row of a lead.
use mathlib.Core.List.Memᴰ.{append_left}
use msq_lms.Base.{
  ℕ, suc, ◌+◌, ◌≤◌, ◌≡◌, refl, sym, ap, ◌∙◌, subst, false, Option, none, some, List, [], ◌∷◌, ◌++◌,
  map, filter, any, length, Memᴰ, arith, Bool-cases, inl, inr, ◌==◌, ==_iff,
}
use msq_lms.Db.{Key}
use msq_lms.Errors.{ok, ok-injective}
use msq_lms.Meta.{InboxRow}
use msq_lms.Meta.Inbox.{
  InboxRecord, is_open, refresh, fresh_row, upsert, record_inbox, resolve, resolve_if,
  resolve_inbox_by_meta_lead, get_row, ignore, ignore_found, ignore_inbox, InboxStep,
}

-- A change of rows that leaves the closed ones alone, and each with its lead.
record Gentle (f : InboxRow → InboxRow) : Type 0 where
  keeps : (row : InboxRow) → is_open row.status ≡ false → f row ≡ row
  same_lead : (row : InboxRow) → (f row).meta_lead_id ≡ row.meta_lead_id

refresh-Gentle : (lead_id : Key) (r : InboxRecord) → Gentle (refresh lead_id r)
unfolding refresh
refresh-Gentle lead_id r = record { keeps = λ row h. ground arith; same_lead = λ row. ground arith }

resolve-Gentle : (lead_id : Key) (m actor : Option Key) → Gentle (resolve lead_id m actor)
unfolding resolve
resolve-Gentle lead_id m actor = record {
  keeps = λ row h. ground arith;
  same_lead = λ row. ground arith;
}

ignore-Gentle : (tenant_id : Option Key) (actor id : Key) → Gentle (ignore tenant_id actor id)
unfolding ignore
ignore-Gentle tenant_id actor id = record {
  keeps = λ row h. ground arith;
  same_lead = λ row. ground arith;
}

abbrev pub rows_of : Key → List InboxRow → ℕ
rows_of m rows = length (filter (λ (row : InboxRow). row.meta_lead_id == m) rows)

-- What a statement keeps: the closed rows, and at most one row for each lead.
pub record Kept (rows after : List InboxRow) : Type 0 where
  pub closed : (row : InboxRow) → Memᴰ row rows → is_open row.status ≡ false → Memᴰ row after
  pub single : (m : Key) → rows_of m rows ≤ 1 → rows_of m after ≤ 1

mem_map :
    (f : InboxRow → InboxRow)
    → Gentle f
    → {row : InboxRow} {rows : List InboxRow} → Memᴰ row rows
    → is_open row.status ≡ false
    → Memᴰ row (map f rows)
mem_map f g {row} (Memᴰ.head {x} {xs} e) h =
    Memᴰ.head (e ∙ sym (g.keeps x (subst (λ (y : InboxRow). is_open y.status ≡ false) e h)))
mem_map f g (Memᴰ.tail {x} {xs} m) h = Memᴰ.tail (mem_map f g m h)

rows_of-map :
    (f : InboxRow → InboxRow)
    → Gentle f
    → (m : Key) (rows : List InboxRow) → rows_of m (map f rows) ≡ rows_of m rows
rows_of-map f g m [] = refl
rows_of-map f g m (row ∷ rows) = elim (Bool-cases (row.meta_lead_id == m)) [
  | inl e ↦ rw (g.same_lead row, e) (ap suc (rows_of-map f g m rows))
  | inr e ↦ rw (g.same_lead row, e) (rows_of-map f g m rows)
]

map-Kept : (f : InboxRow → InboxRow) → Gentle f → (rows : List InboxRow) → Kept rows (map f rows)
map-Kept f g rows = record {
  closed = λ row m h. mem_map f g m h;
  single = λ m h. rw (rows_of-map f g m rows) h;
}

same-Kept : (rows : List InboxRow) → Kept rows rows
same-Kept rows = record { closed = λ row m h. m; single = λ m h. h }

none_of :
    (m : Key) (rows : List InboxRow)
    → any (λ (row : InboxRow). row.meta_lead_id == m) rows ≡ false
    → rows_of m rows ≡ 0
none_of m [] h = refl
none_of m (row ∷ rows) h = ground (arith, none_of m rows)

rows_of-append :
    (m : Key) (rows : List InboxRow) (row : InboxRow)
    → rows_of m (rows ++ row ∷ []) ≡ rows_of m rows + rows_of m (row ∷ [])
rows_of-append m [] row = omega arith
rows_of-append m (x ∷ rows) row = ground (arith, rows_of-append m rows row)

append-Kept :
    (rows : List InboxRow) (row : InboxRow)
    → any (λ (x : InboxRow). x.meta_lead_id == row.meta_lead_id) rows ≡ false
    → Kept rows (rows ++ row ∷ [])
append-Kept rows row h = record {
  closed = λ x m e. append_left (row ∷ []) m;
  single = λ m e.
      let split = rows_of-append m rows row in
      elim (Bool-cases (row.meta_lead_id == m)) [
        | inl same ↦
            let no_row = none_of m rows (
              subst (λ k. any (λ (x : InboxRow). x.meta_lead_id == k) rows ≡ false)
                ((==_iff row.meta_lead_id m).0 same) h) in
            let one : rows_of m (row ∷ []) ≡ 1 = rw same refl in omega (arith, split, no_row, one)
        | inr other ↦
            let zero : rows_of m (row ∷ []) ≡ 0 = rw other refl in omega (arith, split, zero, e)
      ];
}

upsert-Kept :
    (digits : Key → Option Key) (id : Key) (lead : Option Key) (r : InboxRecord)
    (rows : List InboxRow)
    → Kept rows (upsert digits id lead r rows)
unfolding upsert fresh_row
upsert-Kept digits id none r rows = same-Kept rows
upsert-Kept digits id (some lead_id) r rows =
    elim (Bool-cases (any (λ (row : InboxRow). row.meta_lead_id == lead_id) rows)) [
      | inl e ↦ rw e (map-Kept (refresh lead_id r) (refresh-Gentle lead_id r) rows)
      | inr e ↦ rw e (append-Kept rows (fresh_row digits id lead_id r) e)
    ]

resolve_if-Kept :
    (lead m actor : Option Key) (rows : List InboxRow) → Kept rows (resolve_if lead m actor rows)
unfolding resolve_if
resolve_if-Kept none m actor rows = same-Kept rows
resolve_if-Kept (some lead_id) m actor rows =
    map-Kept (resolve lead_id m actor) (resolve-Gentle lead_id m actor) rows

ignore_found-Kept :
    (actor : Key) (tenant_id : Option Key) (id : Key) (rows after : List InboxRow)
    (found : Option InboxRow)
    → ignore_found tenant_id actor id rows found ≡ ok after
    → Kept rows after
unfolding ignore_found
ignore_found-Kept actor tenant_id id rows after none h = cc
ignore_found-Kept actor tenant_id id rows after (some row) h =
    elim (Bool-cases (is_open row.status)) [
      | inl e ↦
          subst (λ xs. Kept rows xs) (ok-injective (rw e at h))
            (map-Kept (ignore tenant_id actor id) (ignore-Gentle tenant_id actor id) rows)
      | inr e ↦ cc (rw e at h)
    ]

pub step-Kept : {rows after : List InboxRow} → InboxStep rows after → Kept rows after
unfolding record_inbox resolve_inbox_by_meta_lead ignore_inbox
step-Kept (InboxStep.recorded digits id r rows) =
    upsert-Kept digits id (digits r.meta_lead_id) r rows
step-Kept (InboxStep.landed digits lead m actor rows) = resolve_if-Kept (digits lead) m actor rows
step-Kept (InboxStep.dismissed actor tenant_id id {rows} {after} h) =
    ignore_found-Kept actor tenant_id id rows after (get_row tenant_id id rows) h
