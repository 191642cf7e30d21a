-- ===== src/Meta/Inbox/Tests.antt =====
-- An open row and a dismissed one.
use msq_lms.Base.{Option, none, some, List, [], ◌∷◌}
use msq_lms.Db.{Key}
use msq_lms.Meta.{sync_failed, opened, ignored, InboxRow}
use msq_lms.Meta.Inbox.{
  InboxRecord, record_inbox, resolve_inbox_by_meta_lead, InboxStep, InboxSteps, retry_landed,
}
use msq_lms.Meta.Inbox.Retries.{Settled, steps-Settled}

abbrev open_row : InboxRow
open_row = record {
  id = 1;
  meta_lead_id = 800;
  tenant_id = none;
  org_id = none;
  page_id = some 31;
  form_id = none;
  campaign_id = none;
  platform = none;
  raw_field_data = none;
  reason = sync_failed;
  status = opened;
  attempts = 1;
  resolved_lead_id = none;
  resolved_by = none;
}

abbrev inbox : List InboxRow
inbox = open_row ∷ record open_row { id = 2; meta_lead_id = 801; status = ignored } ∷ []

abbrev failure : InboxRecord
failure = record {
  meta_lead_id = 801;
  tenant_id = some 9;
  org_id = none;
  page_id = some 31;
  form_id = none;
  campaign_id = none;
  platform = none;
  raw_field_data = none;
  reason = sync_failed;
}

abbrev digits : Key → Option Key
digits text = some text

-- The dismissed row is open when a retry of it begins, and the dismissal comes first.
steps-Settled_example : Settled (2 ∷ []) inbox (
    retry_landed 4 2 71 9 1
      (resolve_inbox_by_meta_lead digits 800 (some 71) none (record_inbox digits 3 failure inbox)))
steps-Settled_example = steps-Settled (
    InboxSteps.then_retry 4 2 71 9 1 (
      InboxSteps.then_step
        (InboxSteps.then_step (InboxSteps.no_step inbox)
          (InboxStep.recorded digits 3 failure inbox))
        (InboxStep.landed digits 800 (some 71) none (record_inbox digits 3 failure inbox))))
