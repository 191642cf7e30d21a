-- ===== src/Meta/Apply.antt =====
-- Staged rows become leads: `applyRun` of meta-conversion-api services/lead-apply.service.ts. The
-- answers of the database, such as the ids of new rows, are `calls`, by the id of the staged row;
-- `clock` is NOW() after so many rows. Texts of errors and log lines are left out. What no row
-- catches, a lost connection, is not modelled here: it ends in `apply_stopped` of the queue.
pub mod Pending
pub mod Settles
use msq_lms.Base.{
  ℕ, suc, ◌+◌, Bool, true, false, not, ◌&&◌, ◌||◌, Option, none, some, List, [], ◌∷◌, map, filter,
  length, ◌==◌, ltb, leb, if◌then◌else◌, or_else,
}
use Prim.Native.Nat.{◌%◌}
use msq_lms.Db.{Key, Db}
use msq_lms.Errors.{Result, ok, err}
use msq_lms.Intake.{WebhookLeadData, WebhookLeadResult}
use msq_lms.Meta.{
  fb, ContactMappings, RawMetaLead, AppliedStatus, pending, done, skipped, not_applied, StagedLead,
  MetaDb,
}
use msq_lms.Meta.Runs.{write_heartbeat, apply_finished}
use msq_lms.Meta.Sync.{SyncLeadResult, SyncCall, is_test_lead, sync_lead_to_database}
use msq_lms.Meta.Reconcile.{is_importable, field_data_of}
use msq_lms.Meta.Inbox.{resolve_inbox_by_meta_lead}

pub record ApplyResult : Type 0 where
  pub attempted : ℕ
  pub applied : ℕ
  pub already_synced : ℕ
  pub skipped : ℕ
  pub failed : ℕ

-- A run that the poller has claimed.
pub record ClaimedApplyRun : Type 0 where
  pub id : Key
  pub applied_by : Option Key

abbrev pub is_pending : AppliedStatus → Bool
is_pending pending = true
is_pending done = false
is_pending skipped = false
is_pending not_applied = false

-- verdict = ANY(IMPORTABLE_VERDICTS); NULL is not.
pub has_importable : StagedLead → Bool
has_importable row = elim row.verdict [ none ↦ false | some v ↦ is_importable v ]

pub is_stray : Key → StagedLead → Bool
unfolding has_importable
is_stray run_id row =
    row.run_id == run_id && is_pending row.applied_status && not (has_importable row)

pub mark : Key → StagedLead → StagedLead
unfolding is_stray
mark run_id row = if is_stray run_id row then record row { applied_status = skipped } else row

-- The rows that are marked, and how many they are.
pub mark_non_importable : Key → List StagedLead → ℕ × List StagedLead
unfolding mark
mark_non_importable run_id rows = (length (filter (is_stray run_id) rows), map (mark run_id) rows)

-- ORDER BY lead_created_at NULLS LAST, id
pub created_before : Option ℕ → Option ℕ → Key → Key → Bool
created_before none none a b = leb a b
created_before none (some t) a b = false
created_before (some s) none a b = true
created_before (some s) (some t) a b = ltb s t || s == t && leb a b

pub insert_by_time : StagedLead → List StagedLead → List StagedLead
unfolding created_before
insert_by_time row [] = row ∷ []
insert_by_time row (x ∷ xs) =
    let rest = insert_by_time row xs in
    if created_before row.lead_created_at x.lead_created_at row.id x.id
    then row ∷ x ∷ xs
    else x ∷ rest

pub in_order : List StagedLead → List StagedLead
unfolding insert_by_time
in_order [] = []
in_order (row ∷ rows) = insert_by_time row (in_order rows)

pub awaits : Key → StagedLead → Bool
unfolding has_importable
awaits run_id row = row.run_id == run_id && has_importable row && is_pending row.applied_status

pub load_importable_rows : Key → List StagedLead → List StagedLead
unfolding in_order awaits
load_importable_rows run_id rows = in_order (filter (awaits run_id) rows)

pub set_outcome : Key → AppliedStatus → Option Key → StagedLead → StagedLead
set_outcome id status lead_id row =
    if row.id == id then record row { applied_status = status; applied_lead_id = lead_id } else row

pub record_outcome : Key → AppliedStatus → Option Key → MetaDb → MetaDb
unfolding set_outcome
record_outcome id status lead_id db = record db {
  meta_pull_leads = map (set_outcome id status lead_id) db.meta_pull_leads;
}

pub raw_lead : StagedLead → RawMetaLead
raw_lead row = record {
  id = row.meta_lead_id;
  form_id = row.form_id;
  page_id = row.page_id;
  platform = or_else row.platform fb;
  campaign_id = row.campaign_id;
  field_data = field_data_of row;
}

pub count_skipped : ApplyResult → ApplyResult
count_skipped t = record t { skipped = t.skipped + 1 }

pub count_failed : ApplyResult → ApplyResult
count_failed t = record t { failed = t.failed + 1 }

pub count_synced : Bool → ApplyResult → ApplyResult
count_synced true t = record t { already_synced = t.already_synced + 1 }
count_synced false t = record t { applied = t.applied + 1 }

module _ (is_placeholder : Key → Bool) (trim big_int digits : Key → Option Key)
    (intake : Key → Key → WebhookLeadData → Db → Result (WebhookLeadResult × Db))
    (mappings : ContactMappings) (calls : Key → SyncCall) (clock : ℕ → ℕ)
    (run : ClaimedApplyRun) where
  -- What follows the import of one row: its outcome, and the inbox row of a lead that record_synced.
  record_synced :
      StagedLead → ApplyResult → MetaDb → Result (SyncLeadResult × MetaDb) → ApplyResult × MetaDb
  unfolding record_outcome count_failed count_synced
  record_synced row t db (err thrown) = (count_failed t, record_outcome row.id not_applied none db)
  record_synced row t db (ok (synced, db')) =
      let db'' = record_outcome row.id done (some synced.marketing_lead_id) db' in
      (
        count_synced synced.is_duplicate t,
        record db'' {
          meta_lead_inbox =
              resolve_inbox_by_meta_lead digits row.meta_lead_id (some synced.marketing_lead_id)
                run.applied_by db''.meta_lead_inbox;
        },
      )

  -- Every 25th row that is tried writes a heartbeat.
  keep_alive : ℕ → MetaDb → MetaDb
  keep_alive processed db =
      if processed % 25 == 0
      then record db { meta_pull_runs = write_heartbeat (clock processed) run.id db.meta_pull_runs }
      else db

  apply_in_branch : StagedLead → Option Key → ℕ → ApplyResult → MetaDb → ApplyResult × MetaDb
  unfolding record_synced keep_alive raw_lead record_outcome count_skipped
  apply_in_branch row none processed t db = (count_skipped t, record_outcome row.id skipped none db)
  apply_in_branch row (some org_id) processed t db =
      let (t', db') = record_synced row t db (
        sync_lead_to_database big_int trim intake org_id (raw_lead row) mappings (calls row.id)
          db) in
      (t', keep_alive processed db')

  -- The body of the loop.
  pub apply_row : StagedLead → ℕ → ApplyResult → MetaDb → ApplyResult × MetaDb
  unfolding apply_in_branch record_outcome count_skipped
  apply_row row processed t db =
      if is_test_lead is_placeholder (field_data_of row)
      then (count_skipped t, record_outcome row.id skipped none db)
      else apply_in_branch row row.org_id processed t db

  pub apply_rows : List StagedLead → ℕ → ApplyResult → MetaDb → ApplyResult × MetaDb
  unfolding apply_row
  apply_rows [] processed t db = (t, db)
  apply_rows (row ∷ rows) processed t db =
      let (t', db') = apply_row row (processed + 1) t db in apply_rows rows (processed + 1) t' db'

  -- The run's status is left to `apply_finished`, which keeps it where the reaper came first.
  pub apply_run : MetaDb → ApplyResult × MetaDb
  unfolding mark_non_importable load_importable_rows apply_rows
  apply_run db =
      let (marked, leads) = mark_non_importable run.id db.meta_pull_leads in
      let db' = record db { meta_pull_leads = leads } in
      let rows = load_importable_rows run.id leads in
      let start : ApplyResult = record {
        attempted = length rows;
        applied = 0;
        already_synced = 0;
        skipped = marked;
        failed = 0;
      } in
      let (t, db'') = apply_rows rows 0 start db' in
      (
        t,
        record db'' {
          meta_pull_runs = apply_finished (clock (length rows + 1)) run.id db''.meta_pull_runs;
        },
      )
