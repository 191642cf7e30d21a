-- ===== src/Meta/Apply/Pending.antt =====
-- Which rows of a run are pending, and which are loaded.
use mathlib.Core.List.Memᴰ
use mathlib.Core.List.Memᴰ.{cases_cons, of_map}
use msq_lms.Base.{
  ℕ, ◌+◌, ◌≡◌, sym, ap, ◌∙◌, subst, true, false, Option, List, [], ◌∷◌, map, filter, Memᴰ, arith,
  Bool-cases, inl, inr, ◌==◌, ==_iff, filter-mem, false≢true,
}
use msq_lms.Db.{Key}
use msq_lms.Meta.{AppliedStatus, StagedLead}
use msq_lms.Meta.Apply.{
  ApplyResult, is_pending, is_stray, mark, insert_by_time, in_order, awaits, load_importable_rows,
  set_outcome, created_before,
}

-- What the rows of a pass came to.
abbrev pub settled : ApplyResult → ℕ
settled t = t.applied + t.already_synced + t.skipped + t.failed

-- The pending rows of the run are among those with these ids.
abbrev pub Left : Key → List Key → List StagedLead → Type 0
Left run_id ids rows =
    (s : StagedLead)
    → Memᴰ s rows
    → s.run_id ≡ run_id
    → is_pending s.applied_status ≡ true
    → Memᴰ s.id ids

pub set_outcome-Left :
    (run_id id : Key) (ids : List Key) (status : AppliedStatus) (lead_id : Option Key)
    (rows : List StagedLead)
    → is_pending status ≡ false
    → Left run_id (id ∷ ids) rows
    → Left run_id ids (map (set_outcome id status lead_id) rows)
unfolding set_outcome
set_outcome-Left run_id id ids status lead_id rows final h s m e p =
    let (r, mr, er) = of_map (set_outcome id status lead_id) rows m in
    elim (Bool-cases (r.id == id)) [
      | inl hit ↦
          let wrote = rw hit at er in
          absurd (
            false≢true (sym final ∙ ap (λ (x : StagedLead). is_pending x.applied_status) wrote ∙ p))
      | inr miss ↦
          let same : r ≡ s = rw miss at er in
          elim (cases_cons (h s (subst (λ (x : StagedLead). Memᴰ x rows) same mr) e p)) [
            | inl first_one ↦ absurd (
                false≢true
                  (sym miss ∙ (==_iff r.id id).1 (ap (λ (x : StagedLead). x.id) same ∙ first_one)))
            | inr k ↦ k
          ]
    ]

insert_by_time-mem :
    (row : StagedLead) (rows : List StagedLead) {s : StagedLead}
    → Memᴰ s (row ∷ rows)
    → Memᴰ s (insert_by_time row rows)
unfolding insert_by_time
insert_by_time-mem row [] m = m
insert_by_time-mem row (x ∷ rows) m =
    elim (Bool-cases (created_before row.lead_created_at x.lead_created_at row.id x.id)) [
      | inl e ↦ rw e m
      | inr e ↦ rw e (elim (cases_cons m) [
        | inl same ↦ Memᴰ.tail (insert_by_time-mem row rows (Memᴰ.head same))
        | inr k ↦ elim (cases_cons k) [
          | inl same ↦ Memᴰ.head same
          | inr j ↦ Memᴰ.tail (insert_by_time-mem row rows (Memᴰ.tail j))
        ]
      ])
    ]

in_order-mem : (rows : List StagedLead) {s : StagedLead} → Memᴰ s rows → Memᴰ s (in_order rows)
unfolding in_order
in_order-mem [] m = m
in_order-mem (row ∷ rows) m =
    insert_by_time-mem row (in_order rows)
      (elim (cases_cons m) [ inl same ↦ Memᴰ.head same | inr k ↦ Memᴰ.tail (in_order-mem rows k) ])

not_stray_awaits :
    (run_id : Key) (r : StagedLead)
    → is_stray run_id r ≡ false
    → r.run_id ≡ run_id
    → is_pending r.applied_status ≡ true
    → awaits run_id r ≡ true
unfolding is_stray awaits
not_stray_awaits run_id r h e p = ground (arith, (==_iff r.run_id run_id).1 e)

marked_awaits :
    (run_id : Key) (rows : List StagedLead) (s : StagedLead)
    → Memᴰ s (map (mark run_id) rows)
    → s.run_id ≡ run_id
    → is_pending s.applied_status ≡ true
    → awaits run_id s ≡ true
unfolding mark
marked_awaits run_id rows s m e p =
    let (r, mr, er) = of_map (mark run_id) rows m in
    elim (Bool-cases (is_stray run_id r)) [
      | inl stray ↦
          let wrote = rw stray at er in
          absurd (false≢true (ap (λ (x : StagedLead). is_pending x.applied_status) wrote ∙ p))
      | inr kept ↦
          let same : r ≡ s = rw kept at er in
          not_stray_awaits run_id s
            (subst (λ (x : StagedLead). is_stray run_id x ≡ false) same kept) e p
    ]

-- After the marking, what is pending is what is loaded.
pub marked-Left :
    (run_id : Key) (rows : List StagedLead)
    → Left run_id
        (map (λ (r : StagedLead). r.id) (load_importable_rows run_id (map (mark run_id) rows)))
        (map (mark run_id) rows)
unfolding load_importable_rows
marked-Left run_id rows s m e p =
    Memᴰ.map (λ (r : StagedLead). r.id)
      (in_order-mem (filter (awaits run_id) (map (mark run_id) rows))
        (filter-mem (awaits run_id) m (marked_awaits run_id rows s m e p)))
