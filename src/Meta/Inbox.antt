-- ===== src/Meta/Inbox.antt =====
-- The inbox of leads that did not land: `recordInbox`, `resolveInboxByMetaLead`, `ignoreInbox` and
-- the UPDATE of `retryInbox` of meta-conversion-api services/lead-inbox.service.ts. That UPDATE stands
-- alone here, since what comes between it and the test of the row runs outside its transaction. `digits` is the guard of that name. Times and
-- the text of the error are left out.
pub mod Closed
pub mod Retries
pub mod Tests
use msq_lms.Base.{
  ℕ, ◌+◌, Bool, true, false, ◌&&◌, Option, none, some, List, [], ◌∷◌, ◌++◌, map, first, filter, any,
  ◌==◌, if◌then◌else◌, or_option, same, ◌≡◌,
}
use msq_lms.Db.{Key}
use msq_lms.Errors.{bad_request, not_found, Result, ok, err}
use msq_lms.Meta.{
  MetaLeadPlatform, MetaLeadFieldData, InboxReason, InboxStatus, opened, resolved, ignored,
  InboxRow,
}
use msq_lms.Meta.Contact.{then_maybe}

pub record InboxRecord : Type 0 where
  pub meta_lead_id : Key
  pub tenant_id : Option Key
  pub org_id : Option Key
  pub page_id : Option Key
  pub form_id : Option Key
  pub campaign_id : Option Key
  pub platform : Option MetaLeadPlatform
  pub raw_field_data : Option (List MetaLeadFieldData)
  pub reason : InboxReason

abbrev pub is_open : InboxStatus → Bool
is_open opened = true
is_open resolved = false
is_open ignored = false

-- DO UPDATE SET … WHERE status = 'open'
pub refresh : Key → InboxRecord → InboxRow → InboxRow
refresh lead_id r row =
    if row.meta_lead_id == lead_id && is_open row.status
    then record row {
      attempts = row.attempts + 1;
      reason = r.reason;
      tenant_id = or_option r.tenant_id row.tenant_id;
      org_id = or_option r.org_id row.org_id;
      raw_field_data = or_option r.raw_field_data row.raw_field_data;
    }
    else row

-- The row of a lead that fails for the first time; `attempts` starts at 1.
pub fresh_row : (Key → Option Key) → Key → Key → InboxRecord → InboxRow
fresh_row digits id lead_id r = record {
  id = id;
  meta_lead_id = lead_id;
  tenant_id = r.tenant_id;
  org_id = r.org_id;
  page_id = then_maybe r.page_id digits;
  form_id = then_maybe r.form_id digits;
  campaign_id = then_maybe r.campaign_id digits;
  platform = r.platform;
  raw_field_data = r.raw_field_data;
  reason = r.reason;
  status = opened;
  attempts = 1;
  resolved_lead_id = none;
  resolved_by = none;
}

-- INSERT … ON CONFLICT (meta_lead_id)
pub upsert : (Key → Option Key) → Key → Option Key → InboxRecord → List InboxRow → List InboxRow
unfolding refresh fresh_row
upsert digits id none r rows = rows
upsert digits id (some lead_id) r rows =
    if any (λ (row : InboxRow). row.meta_lead_id == lead_id) rows
    then map (refresh lead_id r) rows
    else rows ++ fresh_row digits id lead_id r ∷ []

pub record_inbox : (Key → Option Key) → Key → InboxRecord → List InboxRow → List InboxRow
unfolding upsert
record_inbox digits id r rows = upsert digits id (digits r.meta_lead_id) r rows

pub resolve : Key → Option Key → Option Key → InboxRow → InboxRow
resolve lead_id marketing_lead_id actor row =
    if row.meta_lead_id == lead_id && is_open row.status
    then record row { status = resolved; resolved_lead_id = marketing_lead_id; resolved_by = actor }
    else row

resolve_if : Option Key → Option Key → Option Key → List InboxRow → List InboxRow
unfolding resolve
resolve_if none marketing_lead_id actor rows = rows
resolve_if (some lead_id) marketing_lead_id actor rows =
    map (resolve lead_id marketing_lead_id actor) rows

pub resolve_inbox_by_meta_lead :
    (Key → Option Key) → Key → Option Key → Option Key → List InboxRow → List InboxRow
unfolding resolve_if
resolve_inbox_by_meta_lead digits meta_lead_id marketing_lead_id actor rows =
    resolve_if (digits meta_lead_id) marketing_lead_id actor rows

-- The row as the caller may reach it: of the tenant that is administered, or of no tenant.
pub get_row : Option Key → Key → List InboxRow → Option InboxRow
get_row tenant_id id rows =
    first (filter (λ (row : InboxRow). row.id == id && same row.tenant_id tenant_id) rows)

pub ignore : Option Key → Key → Key → InboxRow → InboxRow
ignore tenant_id actor id row =
    if row.id == id && is_open row.status && same row.tenant_id tenant_id
    then record row { status = ignored; resolved_by = some actor }
    else row

-- A caller without a tenant updates by the id alone, which is that of the row it found.
ignore_found : Option Key → Key → Key → List InboxRow → Option InboxRow → Result (List InboxRow)
unfolding ignore
ignore_found tenant_id actor id rows none = err not_found
ignore_found tenant_id actor id rows (some row) =
    if is_open row.status then ok (map (ignore tenant_id actor id) rows) else err bad_request

pub ignore_inbox : Key → Option Key → Key → List InboxRow → Result (List InboxRow)
unfolding ignore_found get_row
ignore_inbox actor tenant_id id rows =
    ignore_found tenant_id actor id rows (get_row tenant_id id rows)

-- UPDATE … SET status = 'resolved' … WHERE id = …, after the import of a retry. The row need not be
-- open any more.
pub retried : Key → Key → Key → Key → Key → InboxRow → InboxRow
retried actor id marketing_lead_id tenant_id org_id row =
    if row.id == id
    then record row {
      status = resolved;
      resolved_lead_id = some marketing_lead_id;
      resolved_by = some actor;
      tenant_id = or_option row.tenant_id (some tenant_id);
      org_id = some org_id;
    }
    else row

pub retry_landed : Key → Key → Key → Key → Key → List InboxRow → List InboxRow
unfolding retried
retry_landed actor id marketing_lead_id tenant_id org_id rows =
    map (retried actor id marketing_lead_id tenant_id org_id) rows

pub data InboxStep : List InboxRow → List InboxRow → Type 0 where
  recorded :
      (digits : Key → Option Key) (id : Key) (r : InboxRecord) (rows : List InboxRow)
      → InboxStep rows (record_inbox digits id r rows)
  landed :
      (digits : Key → Option Key) (meta_lead_id : Key) (marketing_lead_id actor : Option Key)
      (rows : List InboxRow)
      → InboxStep rows (resolve_inbox_by_meta_lead digits meta_lead_id marketing_lead_id actor rows)
  dismissed :
      (actor : Key) (tenant_id : Option Key) (id : Key) {rows after : List InboxRow}
      → ignore_inbox actor tenant_id id rows ≡ ok after
      → InboxStep rows after

-- Any statements, one after the other, with the ids of the rows that a retry has written.
pub data InboxSteps : List Key → List InboxRow → List InboxRow → Type 0 where
  no_step : (rows : List InboxRow) → InboxSteps [] rows rows
  then_step :
      {ids : List Key} {rows between after : List InboxRow}
      → InboxSteps ids rows between
      → InboxStep between after
      → InboxSteps ids rows after
  then_retry :
      (actor id marketing_lead_id tenant_id org_id : Key) {ids : List Key}
      {rows between : List InboxRow}
      → InboxSteps ids rows between
      → InboxSteps
          (id ∷ ids)
          rows
          (retry_landed actor id marketing_lead_id tenant_id org_id between)
