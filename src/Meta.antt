-- ===== src/Meta.antt =====
-- The tables of the Meta conversions service (services/meta-conversion-api) that its lead pipeline
-- reads and writes: scratch.meta_pull_runs, scratch.meta_pull_leads, ext.meta_leads,
-- ext.meta_page_form_org_map and the inbox of failed leads. Times are minutes.
pub mod Runs
pub mod Contact
pub mod Sync
pub mod Reconcile
pub mod Inbox
pub mod Apply
pub mod Capi
pub mod Secret
pub mod Routing
pub mod Typing
pub mod Tests
use msq_lms.Base.{ℕ, Bool, Option, List}
use msq_lms.Db.{Key, Db}

pub data RunStatus : Type 0 where
  queued running completed apply_queued applying applied failed : RunStatus

pub data TriggerKind : Type 0 where
  manual scheduled : TriggerKind

-- scratch.meta_pull_runs; `filters`, `counts` and `error_text` are for the screen alone.
pub record PullRun : Type 0 where
  pub id : Key
  pub tenant_id : Key
  pub created_by : Option Key
  pub applied_by : Option Key
  pub status : RunStatus
  pub trigger_kind : TriggerKind
  pub created_at : ℕ
  pub updated_at : ℕ
  pub started_at : Option ℕ
  pub heartbeat_at : Option ℕ
  pub finished_at : Option ℕ
  pub applied_at : Option ℕ

pub data MetaLeadPlatform : Type 0 where
  fb ig wa : MetaLeadPlatform

-- One answered question of a lead form. The values are texts; `Contact` says how they are trimmed.
pub record MetaLeadFieldData : Type 0 where
  pub name : Key
  pub values : List Key

-- The keys under which a tenant's forms ask for the phone and for the email, in order.
pub record ContactMappings : Type 0 where
  pub phone : List Key
  pub email : List Key

pub record RawMetaLead : Type 0 where
  pub id : Key
  pub form_id : Key
  pub page_id : Option Key
  pub platform : MetaLeadPlatform
  pub campaign_id : Option Key
  pub field_data : List MetaLeadFieldData

-- ext.meta_leads
pub record MetaLead : Type 0 where
  pub id : Key
  pub org_id : Key
  pub marketing_lead_id : Key
  pub meta_lead_id : Key
  pub page_id : Option Key
  pub form_id : Key
  pub platform : MetaLeadPlatform
  pub email : Option Key
  pub phone : Key

-- The verdicts of the reconcile pass.
pub data Verdict : Type 0 where
  already_synced test_lead unmapped_form missing_contact phone_duplicate email_duplicate new_lead :
      Verdict

pub data AppliedStatus : Type 0 where
  pending done skipped not_applied : AppliedStatus

-- scratch.meta_pull_leads
pub record StagedLead : Type 0 where
  pub id : Key
  pub run_id : Key
  pub org_id : Option Key
  pub meta_lead_id : Key
  pub page_id : Option Key
  pub form_id : Key
  pub campaign_id : Option Key
  pub platform : Option MetaLeadPlatform
  pub lead_created_at : Option ℕ
  pub raw_field_data : Option (List MetaLeadFieldData)
  pub verdict : Option Verdict
  pub existing_lead_id : Option Key
  pub applied_status : AppliedStatus
  pub applied_lead_id : Option Key

pub data InboxReason : Type 0 where
  unmapped contact_missing sync_failed : InboxReason

pub data InboxStatus : Type 0 where
  opened resolved ignored : InboxStatus

-- ext.meta_lead_inbox
pub record InboxRow : Type 0 where
  pub id : Key
  pub meta_lead_id : Key
  pub tenant_id : Option Key
  pub org_id : Option Key
  pub page_id : Option Key
  pub form_id : Option Key
  pub campaign_id : Option Key
  pub platform : Option MetaLeadPlatform
  pub raw_field_data : Option (List MetaLeadFieldData)
  pub reason : InboxReason
  pub status : InboxStatus
  pub attempts : ℕ
  pub resolved_lead_id : Option Key
  pub resolved_by : Option Key

-- The tables of the leads-service, and those of this service.
pub record MetaDb : Type 0 where
  pub lms : Db
  pub meta_leads : List MetaLead
  pub meta_pull_runs : List PullRun
  pub meta_pull_leads : List StagedLead
  pub meta_lead_inbox : List InboxRow
