-- ===== src/Meta/Capi/Tests.antt =====
-- A lead of Facebook with its Meta lead, in a tenant with an integration, reported twice.
use msq_lms.Base.{◌≤◌, true, none, some, List, [], ◌∷◌, arith}
use msq_lms.Intake.Tests.{lead_71, with_leads}
use msq_lms.Meta.{fb}
use msq_lms.Meta.Capi.{
  auto_stage_change, CapiDb, CapiTriggerInput, trigger_capi_event, CapiCall, trigger_all,
}
use msq_lms.Meta.Capi.Ladder.{Ends, trigger_capi_event-Ends}
use msq_lms.Meta.Capi.OnceSent.{deliveries, trigger_all-once}

abbrev capi_db : CapiDb
capi_db = record {
  lms = record (with_leads (record (lead_71 true) { source_id = some 3 } ∷ [])) {
    lead_sources = record { id = 3; tenant_id = 9; name = "facebook" } ∷ [];
  };
  meta_leads =
      record {
        id = 91;
        org_id = 1;
        marketing_lead_id = 71;
        meta_lead_id = 800;
        page_id = none;
        form_id = 32;
        platform = fb;
        email = none;
        phone = 501;
      }
      ∷ [];
  meta_integrations = record { tenant_id = some 9; is_active = true } ∷ [];
  stage_events = [];
  outbound_logs = [];
}

abbrev purchase : CapiTriggerInput
purchase = record {
  marketing_lead_id = 71;
  org_id = 1;
  event_name = some 5;
  new_stage_id = none;
  triggered_by = auto_stage_change;
  triggered_by_user_id = none;
}

trigger_capi_event-Ends_example :
    Ends 40 true purchase capi_db (trigger_capi_event 40 true purchase capi_db)
trigger_capi_event-Ends_example = trigger_capi_event-Ends 40 true purchase capi_db

abbrev twice : List CapiCall
twice =
    record { input = purchase; new_id = 40; delivered = true }
    ∷ record { input = purchase; new_id = 41; delivered = true }
    ∷ []

trigger_all-once_example : deliveries 71 5 (trigger_all twice capi_db).outbound_logs ≤ 1
trigger_all-once_example = trigger_all-once 71 5 twice capi_db (omega arith)
