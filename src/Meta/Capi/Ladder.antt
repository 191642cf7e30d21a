-- ===== src/Meta/Capi/Ladder.antt =====
-- What a trigger comes to, by the first condition that fails.
use msq_lms.Base.{
  ◌≡◌, refl, Bool, true, false, Option, none, some, [], ◌∷◌, ◌++◌, any, Bool-cases, inl, inr,
}
use msq_lms.Db.{Key, Lead}
use msq_lms.Meta.{MetaLead}
use msq_lms.Meta.Capi.{
  Integration, CapiDb, CapiTriggerInput, CapiSkipReason, lead_not_found, source_not_meta,
  not_meta_origin, org_not_found, no_active_integration, no_event_name_or_stage,
  no_stage_event_mapping, already_sent, CapiTriggerResult, skip, sent, is_meta_source, lead_row,
  source_name, linked_meta_lead, tenant_row, integration_of, stage_event, is_sent_log, log_row,
  send_once, with_mapping, named_event, integrated, of_tenant, linked, from_meta, of_lead,
  trigger_capi_event,
}

-- The event that a trigger is for: the one that is named, or that of the stage.
abbrev pub event_of : CapiDb → Option Key → Option Key → Option Key
event_of db (some event_name) stage_id = some event_name
event_of db none none = none
event_of db none (some stage_id) = stage_event db stage_id

-- A lead that Meta is to hear of: it came from a Meta platform, has a Meta lead, and the branch's
-- tenant has an integration.
pub record Reportable (input : CapiTriggerInput) (db : CapiDb) (meta_lead_id event_name : Key)
    : Type 0 where
  pub lead : Lead
  pub found : lead_row db input.marketing_lead_id ≡ some lead
  pub from_platform : is_meta_source (source_name db lead) ≡ true
  pub meta_lead : MetaLead
  pub is_linked : linked_meta_lead db input.marketing_lead_id ≡ some meta_lead
  pub its_id : meta_lead.id ≡ meta_lead_id
  pub tenant_id : Key
  pub in_tenant : tenant_row db input.org_id ≡ some tenant_id
  pub integration : Integration
  pub configured : integration_of db tenant_id ≡ some integration
  pub named : event_of db input.event_name input.new_stage_id ≡ some event_name

module _ (new_id : Key) (delivered : Bool) (input : CapiTriggerInput) (db : CapiDb) where
  -- How a trigger ends: it writes nothing, or it sends and logs what no log says was delivered.
  pub data Ends : CapiTriggerResult × CapiDb → Type 0 where
    skips : (code : CapiSkipReason) → Ends (skip code, db)
    sends :
        (meta_lead_id event_name : Key)
        → Reportable input db meta_lead_id event_name
        → any (is_sent_log input.marketing_lead_id event_name) db.outbound_logs ≡ false
        → Ends (
          sent delivered new_id,
          record db {
            outbound_logs =
                db.outbound_logs ++ log_row new_id delivered input meta_lead_id event_name ∷ [];
          },
        )

  send_once-Ends :
      (meta_lead_id event_name : Key)
      → Reportable input db meta_lead_id event_name
      → Ends (send_once new_id delivered input db meta_lead_id event_name)
  unfolding send_once
  send_once-Ends meta_lead_id event_name w =
      elim (Bool-cases (any (is_sent_log input.marketing_lead_id event_name) db.outbound_logs)) [
        | inl e ↦ rw e (Ends.skips already_sent)
        | inr e ↦ rw e (Ends.sends meta_lead_id event_name w e)
      ]

  module _ (lead : Lead) (found : lead_row db input.marketing_lead_id ≡ some lead)
      (from_platform : is_meta_source (source_name db lead) ≡ true) (r : MetaLead)
      (is_linked : linked_meta_lead db input.marketing_lead_id ≡ some r) (tenant_id : Key)
      (in_tenant : tenant_row db input.org_id ≡ some tenant_id) (i : Integration)
      (configured : integration_of db tenant_id ≡ some i) where
    reportable :
        (event_name : Key)
        → event_of db input.event_name input.new_stage_id ≡ some event_name
        → Reportable input db r.id event_name
    reportable event_name e = record {
      lead = lead;
      found = found;
      from_platform = from_platform;
      meta_lead = r;
      is_linked = is_linked;
      its_id = refl;
      tenant_id = tenant_id;
      in_tenant = in_tenant;
      integration = i;
      configured = configured;
      named = e;
    }

    with_mapping-Ends :
        (event : Option Key)
        → event_of db input.event_name input.new_stage_id ≡ event
        → Ends (with_mapping new_id delivered input db r.id event)
    unfolding with_mapping
    with_mapping-Ends none e = Ends.skips no_stage_event_mapping
    with_mapping-Ends (some event_name) e = send_once-Ends r.id event_name (reportable event_name e)

    named_event-Ends :
        (event stage : Option Key)
        → event_of db input.event_name input.new_stage_id ≡ event_of db event stage
        → Ends (named_event new_id delivered input db r.id event stage)
    unfolding named_event
    named_event-Ends (some event_name) stage e =
        send_once-Ends r.id event_name (reportable event_name e)
    named_event-Ends none none e = Ends.skips no_event_name_or_stage
    named_event-Ends none (some stage_id) e = with_mapping-Ends (stage_event db stage_id) e

  integrated-Ends :
      (lead : Lead)
      → lead_row db input.marketing_lead_id ≡ some lead
      → is_meta_source (source_name db lead) ≡ true
      → (r : MetaLead) → linked_meta_lead db input.marketing_lead_id ≡ some r
      → (tenant_id : Key) → tenant_row db input.org_id ≡ some tenant_id
      → (found : Option Integration) → integration_of db tenant_id ≡ found
      → Ends (integrated new_id delivered input db r.id found)
  unfolding integrated
  integrated-Ends lead e platform r l tenant_id t none c = Ends.skips no_active_integration
  integrated-Ends lead e platform r l tenant_id t (some i) c = elim (Bool-cases i.is_active) [
    | inl on ↦ rw on (
        named_event-Ends lead e platform r l tenant_id t i c input.event_name input.new_stage_id
          refl)
    | inr off ↦ rw off (Ends.skips no_active_integration)
  ]

  of_tenant-Ends :
      (lead : Lead)
      → lead_row db input.marketing_lead_id ≡ some lead
      → is_meta_source (source_name db lead) ≡ true
      → (r : MetaLead) → linked_meta_lead db input.marketing_lead_id ≡ some r
      → (tenant : Option Key) → tenant_row db input.org_id ≡ tenant
      → Ends (of_tenant new_id delivered input db r.id tenant)
  unfolding of_tenant
  of_tenant-Ends lead e platform r l none t = Ends.skips org_not_found
  of_tenant-Ends lead e platform r l (some tenant_id) t =
      integrated-Ends lead e platform r l tenant_id t (integration_of db tenant_id) refl

  linked-Ends :
      (lead : Lead)
      → lead_row db input.marketing_lead_id ≡ some lead
      → is_meta_source (source_name db lead) ≡ true
      → (row : Option MetaLead) → linked_meta_lead db input.marketing_lead_id ≡ row
      → Ends (linked new_id delivered input db row)
  unfolding linked
  linked-Ends lead e platform none l = Ends.skips not_meta_origin
  linked-Ends lead e platform (some r) l =
      of_tenant-Ends lead e platform r l (tenant_row db input.org_id) refl

  from_meta-Ends :
      (lead : Lead)
      → lead_row db input.marketing_lead_id ≡ some lead
      → (platform : Bool) → is_meta_source (source_name db lead) ≡ platform
      → Ends (from_meta new_id delivered input db platform)
  unfolding from_meta
  from_meta-Ends lead e true platform =
      linked-Ends lead e platform (linked_meta_lead db input.marketing_lead_id) refl
  from_meta-Ends lead e false platform = Ends.skips source_not_meta

  of_lead-Ends :
      (row : Option Lead)
      → lead_row db input.marketing_lead_id ≡ row
      → Ends (of_lead new_id delivered input db row)
  unfolding of_lead
  of_lead-Ends none e = Ends.skips lead_not_found
  of_lead-Ends (some lead) e = from_meta-Ends lead e (is_meta_source (source_name db lead)) refl

  -- A trigger either skips, and then it writes nothing, or it sends: for a lead of a Meta platform
  -- that has a Meta lead, in a branch of a tenant with an active integration, an event that is
  -- named or mapped from the stage and that no log shows as delivered; what is sent is logged once.
  pub trigger_capi_event-Ends : Ends (trigger_capi_event new_id delivered input db)
  unfolding trigger_capi_event
  trigger_capi_event-Ends = of_lead-Ends (lead_row db input.marketing_lead_id) refl
