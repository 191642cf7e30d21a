-- ===== src/Meta/Capi.antt =====
-- The report of a stage change to Meta: `triggerCapiEvent` of meta-conversion-api
-- services/capi-trigger.service.ts. The request to Meta is a parameter: whether it was delivered.
-- The integration that tenants share is read from the table, though the code may take it from a
-- cache that is some minutes old. The payload is built from the same Meta lead, is sent, and is not read again.
pub mod Ladder
pub mod OnceSent
pub mod Tests
use Prim.Native.String.{String}
use text.Mathlib.Text.{◌==◌ as str_eq}
use msq_lms.Base.{
  ℕ, Bool, true, false, not, ◌&&◌, ◌||◌, Option, none, some, List, [], ◌∷◌, ◌++◌, map, first,
  filter, any, or_option, is_none, ◌==◌, if◌then◌else◌, column_is, ◌≡◌,
}
use msq_lms.Db.{Key, Organization, Named, Lead, Db}
use msq_lms.Meta.{MetaLead}

-- The tables that the trigger reads, and the log that it writes.
pub record Integration : Type 0 where
  pub tenant_id : Option Key
  pub is_active : Bool

-- ext.vw_lead_stage_capi_event_map
pub record StageEvent : Type 0 where
  pub stage_id : Key
  pub capi_event_code : Key

pub data TriggeredBy : Type 0 where
  auto_stage_change by_hand : TriggeredBy

-- ext.meta_capi_outbound_logs; `delivered` is delivery_status = 'SUCCESS'.
pub record OutboundLog : Type 0 where
  pub id : Key
  pub org_id : Key
  pub marketing_lead_id : Key
  pub meta_lead_id : Key
  pub event_name : Key
  pub delivered : Bool
  pub triggered_by : TriggeredBy
  pub triggered_by_user_id : Option Key

pub record CapiDb : Type 0 where
  pub lms : Db
  pub meta_leads : List MetaLead
  pub meta_integrations : List Integration
  pub stage_events : List StageEvent
  pub outbound_logs : List OutboundLog

pub record CapiTriggerInput : Type 0 where
  pub marketing_lead_id : Key
  pub org_id : Key
  pub event_name : Option Key
  pub new_stage_id : Option Key
  pub triggered_by : TriggeredBy
  pub triggered_by_user_id : Option Key

pub data CapiSkipReason : Type 0 where
  lead_not_found source_not_meta not_meta_origin org_not_found no_active_integration
        no_event_name_or_stage no_stage_event_mapping already_sent :
      CapiSkipReason

pub data CapiTriggerResult : Type 0 where
  skip : CapiSkipReason → CapiTriggerResult
  sent : Bool → Key → CapiTriggerResult

-- META_LEAD_SOURCE_NAMES.includes(source_name ?? '')
pub is_meta_source : Option String → Bool
is_meta_source none = false
is_meta_source (some name) =
    str_eq name "facebook" || str_eq name "instagram" || str_eq name "whatsapp"

pub lead_row : CapiDb → Key → Option Lead
lead_row db id = first (filter (λ (ml : Lead). ml.id == id) db.lms.marketing_leads)

-- LEFT JOIN lms.lead_sources
pub source_name : CapiDb → Lead → Option String
source_name db ml = first (
    map (λ (ls : Named). ls.name)
      (filter (λ (ls : Named). column_is ml.source_id ls.id) db.lms.lead_sources))

pub linked_meta_lead : CapiDb → Key → Option MetaLead
linked_meta_lead db id = first (filter (λ (r : MetaLead). r.marketing_lead_id == id) db.meta_leads)

pub tenant_row : CapiDb → Key → Option Key
tenant_row db org_id = first (
    map (λ (o : Organization). o.tenant_id)
      (filter (λ (o : Organization). o.id == org_id) db.lms.organizations))

-- The tenant's own active row, or else the active row of no tenant.
pub integration_of : CapiDb → Key → Option Integration
integration_of db tenant_id =
    or_option
      (first (
        filter (λ (i : Integration). column_is i.tenant_id tenant_id && i.is_active)
          db.meta_integrations))
      (first
        (filter (λ (i : Integration). is_none i.tenant_id && i.is_active) db.meta_integrations))

pub stage_event : CapiDb → Key → Option Key
stage_event db stage_id = first (
    map (λ (e : StageEvent). e.capi_event_code)
      (filter (λ (e : StageEvent). e.stage_id == stage_id) db.stage_events))

pub is_sent_log : Key → Key → OutboundLog → Bool
is_sent_log lead_id event_name l =
    l.marketing_lead_id == lead_id && l.event_name == event_name && l.delivered

-- `new_id` is the id of the log row, and `delivered` what the request to Meta came to.
module _ (new_id : Key) (delivered : Bool) where
  pub log_row : CapiTriggerInput → Key → Key → OutboundLog
  log_row input meta_lead_id event_name = record {
    id = new_id;
    org_id = input.org_id;
    marketing_lead_id = input.marketing_lead_id;
    meta_lead_id = meta_lead_id;
    event_name = event_name;
    delivered = delivered;
    triggered_by = input.triggered_by;
    triggered_by_user_id = input.triggered_by_user_id;
  }

  -- From the idempotency check on.
  send_once : CapiTriggerInput → CapiDb → Key → Key → CapiTriggerResult × CapiDb
  unfolding is_sent_log log_row
  send_once input db meta_lead_id event_name =
      if any (is_sent_log input.marketing_lead_id event_name) db.outbound_logs
      then (skip already_sent, db)
      else (
        sent delivered new_id,
        record db {
          outbound_logs = db.outbound_logs ++ log_row input meta_lead_id event_name ∷ [];
        },
      )

  with_mapping : CapiTriggerInput → CapiDb → Key → Option Key → CapiTriggerResult × CapiDb
  unfolding send_once
  with_mapping input db meta_lead_id none = (skip no_stage_event_mapping, db)
  with_mapping input db meta_lead_id (some event_name) = send_once input db meta_lead_id event_name

  named_event :
      CapiTriggerInput → CapiDb → Key → Option Key → Option Key → CapiTriggerResult × CapiDb
  unfolding with_mapping stage_event
  named_event input db meta_lead_id (some event_name) stage_id =
      send_once input db meta_lead_id event_name
  named_event input db meta_lead_id none none = (skip no_event_name_or_stage, db)
  named_event input db meta_lead_id none (some stage_id) =
      with_mapping input db meta_lead_id (stage_event db stage_id)

  integrated : CapiTriggerInput → CapiDb → Key → Option Integration → CapiTriggerResult × CapiDb
  unfolding named_event
  integrated input db meta_lead_id none = (skip no_active_integration, db)
  integrated input db meta_lead_id (some i) =
      if not i.is_active
      then (skip no_active_integration, db)
      else named_event input db meta_lead_id input.event_name input.new_stage_id

  of_tenant : CapiTriggerInput → CapiDb → Key → Option Key → CapiTriggerResult × CapiDb
  unfolding integrated integration_of
  of_tenant input db meta_lead_id none = (skip org_not_found, db)
  of_tenant input db meta_lead_id (some tenant_id) =
      integrated input db meta_lead_id (integration_of db tenant_id)

  linked : CapiTriggerInput → CapiDb → Option MetaLead → CapiTriggerResult × CapiDb
  unfolding of_tenant tenant_row
  linked input db none = (skip not_meta_origin, db)
  linked input db (some r) = of_tenant input db r.id (tenant_row db input.org_id)

  from_meta : CapiTriggerInput → CapiDb → Bool → CapiTriggerResult × CapiDb
  unfolding linked linked_meta_lead
  from_meta input db true = linked input db (linked_meta_lead db input.marketing_lead_id)
  from_meta input db false = (skip source_not_meta, db)

  of_lead : CapiTriggerInput → CapiDb → Option Lead → CapiTriggerResult × CapiDb
  unfolding from_meta source_name is_meta_source
  of_lead input db none = (skip lead_not_found, db)
  of_lead input db (some ml) = from_meta input db (is_meta_source (source_name db ml))

  pub trigger_capi_event : CapiTriggerInput → CapiDb → CapiTriggerResult × CapiDb
  unfolding of_lead lead_row
  trigger_capi_event input db = of_lead input db (lead_row db input.marketing_lead_id)

-- One trigger after another, each with what Meta answered it.
pub record CapiCall : Type 0 where
  pub input : CapiTriggerInput
  pub new_id : Key
  pub delivered : Bool

pub trigger_all : List CapiCall → CapiDb → CapiDb
unfolding trigger_capi_event
trigger_all [] db = db
trigger_all (c ∷ cs) db = trigger_all cs (trigger_capi_event c.new_id c.delivered c.input db).1
