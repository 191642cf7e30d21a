-- ===== src/Meta/Apply/Settles.antt =====
-- Apply settles every staged row of its run, and its counts add up.
use msq_lms.Base.{
  ℕ, ◌+◌, ◌≡◌, refl, sym, ap, ◌∙◌, subst, Bool, true, false, ◌&&◌, Option, none, some, List, [],
  ◌∷◌, map, filter, length, Memᴰ, arith, Bool-cases, inl, inr, ◌==◌, ==_iff, any, and-true,
}
use msq_lms.Db.{Key, Db}
use msq_lms.Errors.{Result, ok, err}
use msq_lms.Intake.{WebhookLeadData, WebhookLeadResult}
use msq_lms.Meta.{ContactMappings, AppliedStatus, done, skipped, not_applied, StagedLead, MetaDb}
use msq_lms.Meta.Sync.{SyncLeadResult, SyncCall, is_test_lead, sync_lead_to_database}
use msq_lms.Meta.Sync.Once.{sync_lead_to_database_rows}
use msq_lms.Meta.Reconcile.{field_data_of}
use msq_lms.Meta.Apply.{
  ApplyResult, ClaimedApplyRun, is_pending, is_stray, mark, mark_non_importable,
  load_importable_rows, set_outcome, record_outcome, raw_lead, count_skipped, count_failed,
  count_synced, record_synced, keep_alive, apply_in_branch, apply_row, apply_rows, apply_run,
}
use msq_lms.Meta.Apply.Pending.{settled, Left, set_outcome-Left, marked-Left}

module _ (is_placeholder : Key → Bool) (trim big_int digits : Key → Option Key)
    (intake : Key → Key → WebhookLeadData → Db → Result (WebhookLeadResult × Db))
    (mappings : ContactMappings) (calls : Key → SyncCall) (clock : ℕ → ℕ)
    (run : ClaimedApplyRun) where
  -- What a row did: it counts once, and it is written with an outcome.
  abbrev Outcome : StagedLead → ApplyResult → MetaDb → ApplyResult × MetaDb → Type 0
  Outcome row t db answer =
      (settled answer.0 ≡ settled t + 1)
      × (status : AppliedStatus) × (lead_id : Option Key) × (is_pending status ≡ false)
      × (answer.1.meta_pull_leads ≡ map (set_outcome row.id status lead_id) db.meta_pull_leads)

  synced_once : (b : Bool) (t : ApplyResult) → settled (count_synced b t) ≡ settled t + 1
  unfolding count_synced
  synced_once true t = omega arith
  synced_once false t = omega arith

  record_synced-Outcome :
      (row : StagedLead) (t : ApplyResult) (db : MetaDb) (answer : Result (SyncLeadResult × MetaDb))
      → ((r : SyncLeadResult) (after : MetaDb)
          → answer ≡ ok (r, after)
          → after.meta_pull_leads ≡ db.meta_pull_leads)
      → Outcome row t db (
          record_synced is_placeholder trim big_int digits intake mappings calls clock run row t db
            answer)
  unfolding record_synced record_outcome count_failed
  record_synced-Outcome row t db (err thrown) same = (omega arith, not_applied, none, refl, refl)
  record_synced-Outcome row t db (ok (synced, after)) same = (
    synced_once synced.is_duplicate t,
    done,
    some synced.marketing_lead_id,
    refl,
    ap (λ rows. map (set_outcome row.id done (some synced.marketing_lead_id)) rows)
        (same synced after refl),
  )

  keep_alive_rows :
      (processed : ℕ) (db : MetaDb)
      → (keep_alive is_placeholder trim big_int digits intake mappings calls clock run processed
          db).meta_pull_leads
        ≡ db.meta_pull_leads
  unfolding keep_alive
  keep_alive_rows processed db = ground arith

  apply_in_branch-Outcome :
      (row : StagedLead) (org : Option Key) (processed : ℕ) (t : ApplyResult) (db : MetaDb)
      → Outcome row t db (
          apply_in_branch is_placeholder trim big_int digits intake mappings calls clock run row org
            processed t db)
  unfolding apply_in_branch record_outcome count_skipped
  apply_in_branch-Outcome row none processed t db = (omega arith, skipped, none, refl, refl)
  apply_in_branch-Outcome row (some org_id) processed t db =
      let answer =
        sync_lead_to_database big_int trim intake org_id (raw_lead row) mappings (calls row.id)
          db in
      let (counts, status, lead_id, final, rows) =
        record_synced-Outcome row t db answer (λ r after e.
          sync_lead_to_database_rows big_int trim intake org_id (raw_lead row) mappings
            (calls row.id) db after r e) in
      (
        counts,
        status,
        lead_id,
        final,
        keep_alive_rows processed
              (record_synced is_placeholder trim big_int digits intake mappings calls clock run row
                t db answer).1
            ∙ rows,
      )

  apply_row-Outcome :
      (row : StagedLead) (processed : ℕ) (t : ApplyResult) (db : MetaDb)
      → Outcome row t db (
          apply_row is_placeholder trim big_int digits intake mappings calls clock run row processed
            t db)
  unfolding apply_row record_outcome count_skipped
  apply_row-Outcome row processed t db =
      elim (Bool-cases (is_test_lead is_placeholder (field_data_of row))) [
        | inl test ↦ rw test (omega arith, skipped, none, refl, refl)
        | inr real ↦ rw real (apply_in_branch-Outcome row row.org_id processed t db)
      ]

  apply_rows-settles :
      (run_id : Key) (rows : List StagedLead) (processed : ℕ) (t : ApplyResult) (db : MetaDb)
      → Left run_id (map (λ (r : StagedLead). r.id) rows) db.meta_pull_leads
      → (settled
            (apply_rows is_placeholder trim big_int digits intake mappings calls clock run rows
              processed t db).0
          ≡ settled t + length rows)
        × Left run_id []
            (apply_rows is_placeholder trim big_int digits intake mappings calls clock run rows
              processed t db).1.meta_pull_leads
  unfolding apply_rows
  apply_rows-settles run_id [] processed t db left = (omega arith, left)
  apply_rows-settles run_id (row ∷ rows) processed t db left =
      let step =
        apply_row is_placeholder trim big_int digits intake mappings calls clock run row
          (processed + 1) t db in
      let (counts, status, lead_id, final, wrote) = apply_row-Outcome row (processed + 1) t db in
      let fewer =
        set_outcome-Left run_id row.id (map (λ (r : StagedLead). r.id) rows) status lead_id
          db.meta_pull_leads final left in
      let (total, settled_all) =
        apply_rows-settles run_id rows (processed + 1) step.0 step.1
          (subst (λ xs. Left run_id (map (λ (r : StagedLead). r.id) rows) xs) (sym wrote) fewer) in
      (omega (arith, total, counts), settled_all)

  -- A row of the run that no pass has written an outcome for.
  unfoldable pub unsettled : StagedLead → Bool
  unsettled s = s.run_id == run.id && is_pending s.applied_status

  none_unsettled : (rows : List StagedLead) → Left run.id [] rows → any unsettled rows ≡ false
  unfolding unsettled
  none_unsettled [] left = refl
  none_unsettled (s ∷ rows) left = elim (Bool-cases (unsettled s)) [
    | inl e ↦
        elim (left s (Memᴰ.head refl) ((==_iff s.run_id run.id).0 (and-true e).0)
          (and-true e).1) [ ]
    | inr e ↦ rw e (none_unsettled rows (λ x m. left x (Memᴰ.tail m)))
  ]

  -- However the imports of single rows end, Apply leaves no row of its run pending, so that a
  -- second press finds nothing to do, and each row that it tried or marked is counted once: as
  -- applied, as synced before, as skipped or as failed.
  pub apply_run-settles :
      (db : MetaDb)
      → (any unsettled
            (apply_run is_placeholder trim big_int digits intake mappings calls clock run
              db).1.meta_pull_leads
          ≡ false)
        × (settled
              (apply_run is_placeholder trim big_int digits intake mappings calls clock run db).0
            ≡ length (load_importable_rows run.id (mark_non_importable run.id db.meta_pull_leads).1)
              + (mark_non_importable run.id db.meta_pull_leads).0)
  unfolding apply_run mark_non_importable
  apply_run-settles db =
      let leads = map (mark run.id) db.meta_pull_leads in
      let rows = load_importable_rows run.id leads in
      let start : ApplyResult = record {
        attempted = length rows;
        applied = 0;
        already_synced = 0;
        skipped = length (filter (is_stray run.id) db.meta_pull_leads);
        failed = 0;
      } in
      let (total, left) =
        apply_rows-settles run.id rows 0 start (record db { meta_pull_leads = leads })
          (marked-Left run.id db.meta_pull_leads) in
      (none_unsettled _ left, omega (arith, total))
