-- ===== src/Meta/Sync.antt =====
-- The import of one Meta lead: `syncLeadToDatabase` of meta-conversion-api
-- services/lead-sync.service.ts. `big_int` is BigInt on a text, `none`
-- for a blank one and where it throws. `intake` is
-- the call of the leads-service with the ids that its database gives; `Calls` instantiates it with
-- createWebhookLead. The address, professional, demographic and custom field tables, which are only
-- written here, are left out, and so is the time of the lead.
pub mod Once
use Prim.Native.String.{String}
use msq_lms.Base.{
  ℕ, Bool, true, false, ◌&&◌, ◌||◌, Option, none, some, List, [], ◌∷◌, ◌++◌, first, filter, any,
  ◌==◌, if◌then◌else◌, ◌≡◌, or_else,
}
use msq_lms.Db.{Key, AutoAssignReason, Db}
use msq_lms.Errors.{internal, Result, ok, err, ◌>>=◌}
use msq_lms.Campaign.{ResolveCampaignInput}
use msq_lms.Intake.{WebhookLeadData, WebhookLeadResult}
use msq_lms.Meta.{
  MetaLeadPlatform, fb, ig, wa, MetaLeadFieldData, ContactMappings, RawMetaLead, MetaLead, MetaDb,
}
use msq_lms.Meta.Contact.{Contact, then_maybe, build_contact_payload}

pub record SyncLeadResult : Type 0 where
  pub meta_lead_row_id : Key
  pub marketing_lead_id : Key
  pub is_duplicate : Bool
  pub assigned_user_id : Option Key
  pub campaign_type_id : Option Key
  pub auto_assign_reason : Option AutoAssignReason

-- What resolveCampaignForIntake answered; it cannot throw, and it is asked before the intake.
pub record CampaignForIntake : Type 0 where
  pub name : Option String
  pub effective_status : Option String
  pub campaign_type_id : Option Key
  pub default_campaign_type_id : Option Key

-- One call: the answer of the campaign step and the ids that the databases give.
pub record SyncCall : Type 0 where
  pub campaign : CampaignForIntake
  pub new_id : Key
  pub fresh : Key
  pub row_id : Key

-- PLATFORM_TO_LEAD_SOURCE
unfoldable pub lead_source : MetaLeadPlatform → String
lead_source fb = "facebook"
lead_source ig = "instagram"
lead_source wa = "whatsapp"

-- `lead.platform` as it is sent.
unfoldable pub platform_text : MetaLeadPlatform → String
platform_text fb = "fb"
platform_text ig = "ig"
platform_text wa = "wa"

pub is_test_lead : (Key → Bool) → List MetaLeadFieldData → Bool
is_test_lead is_placeholder field_data =
    any (λ (f : MetaLeadFieldData). any is_placeholder f.values) field_data

unfoldable pub intake_payload : Key → RawMetaLead → Contact → CampaignForIntake → WebhookLeadData
unfolding lead_source platform_text
intake_payload org_id lead contact campaign = record {
  org_id = some org_id;
  phone = some contact.phone;
  email = contact.email;
  source_id = none;
  source = some (lead_source lead.platform);
  campaign_id = none;
  metadata_campaign_id = lead.campaign_id;
  campaign = record {
    meta_campaign_id = lead.campaign_id;
    meta_campaign_name = campaign.name;
    meta_platform = some (platform_text lead.platform);
    meta_campaign_status = campaign.effective_status;
    campaign_type_id = campaign.campaign_type_id;
    default_campaign_type_id = campaign.default_campaign_type_id;
  };
}

-- SELECT … FROM ext.meta_leads WHERE meta_lead_id = … LIMIT 1
unfoldable pub find_meta_lead : Key → List MetaLead → Option MetaLead
find_meta_lead meta_id rows = first (filter (λ (r : MetaLead). r.meta_lead_id == meta_id) rows)

unfoldable pub duplicate_of : MetaLead → SyncLeadResult
duplicate_of row = record {
  meta_lead_row_id = row.id;
  marketing_lead_id = row.marketing_lead_id;
  is_duplicate = true;
  assigned_user_id = none;
  campaign_type_id = none;
  auto_assign_reason = none;
}

-- What the caller is told of the answer of the intake.
unfoldable pub synced_as : Key → WebhookLeadResult → SyncLeadResult
synced_as row_id answer = record {
  meta_lead_row_id = row_id;
  marketing_lead_id = answer.id;
  is_duplicate = answer.is_duplicate;
  assigned_user_id = answer.assigned_user_id;
  campaign_type_id = answer.campaign_type_id;
  auto_assign_reason = answer.auto_assign_reason;
}

module _ (big_int : Key → Option Key) where
  unfoldable pub meta_row : Key → Key → RawMetaLead → Contact → Key → Key → MetaLead
  meta_row org_id meta_id lead contact row_id marketing_lead_id = record {
    id = row_id;
    org_id = org_id;
    marketing_lead_id = marketing_lead_id;
    meta_lead_id = meta_id;
    page_id = then_maybe lead.page_id big_int;
    form_id = or_else (big_int lead.form_id) 0;
    platform = lead.platform;
    email = contact.email;
    phone = contact.phone;
  }

  unfoldable pub insert_unless :
      Option MetaLead → Key → Key → RawMetaLead → Contact → Key → Key → MetaDb → Key × MetaDb
  unfolding meta_row
  insert_unless (some row) org_id meta_id lead contact row_id marketing_lead_id db = (row.id, db)
  insert_unless none org_id meta_id lead contact row_id marketing_lead_id db = (
    row_id,
    record db {
      meta_leads =
          db.meta_leads ++ meta_row org_id meta_id lead contact row_id marketing_lead_id ∷ [];
    },
  )

  -- The closing transaction: it looks again before it inserts.
  unfoldable pub record_meta_lead :
      Key → Key → RawMetaLead → Contact → Key → Key → MetaDb → Key × MetaDb
  unfolding insert_unless find_meta_lead
  record_meta_lead org_id meta_id lead contact row_id marketing_lead_id db =
      insert_unless (find_meta_lead meta_id db.meta_leads) org_id meta_id lead contact row_id
        marketing_lead_id db

  unfoldable pub valid_id : Option Key → Result Key
  valid_id none = err internal
  valid_id (some id) = ok id

  module _ (trim : Key → Option Key)
      (intake : Key → Key → WebhookLeadData → Db → Result (WebhookLeadResult × Db)) where
    -- What follows the intake's answer.
    unfoldable pub after_intake :
        Key
        → Key
        → RawMetaLead
        → Contact
        → SyncCall
        → MetaDb
        → WebhookLeadResult × Db
        → Result (SyncLeadResult × MetaDb)
    unfolding record_meta_lead synced_as
    after_intake org_id meta_id lead contact call db (answer, lms) =
        let recorded =
          record_meta_lead org_id meta_id lead contact call.row_id answer.id
            (record db { lms = lms }) in
        ok (synced_as recorded.0 answer, recorded.1)

    unfoldable pub take_in :
        Key → Key → RawMetaLead → Contact → SyncCall → MetaDb → Result (SyncLeadResult × MetaDb)
    unfolding intake_payload after_intake
    take_in org_id meta_id lead contact call db =
        intake call.new_id call.fresh (intake_payload org_id lead contact call.campaign) db.lms
        >>= after_intake org_id meta_id lead contact call db

    unfoldable pub unless_known :
        Option MetaLead
        → Key
        → Key
        → RawMetaLead
        → Contact
        → SyncCall
        → MetaDb
        → Result (SyncLeadResult × MetaDb)
    unfolding duplicate_of take_in
    unless_known (some row) org_id meta_id lead contact call db = ok (duplicate_of row, db)
    unless_known none org_id meta_id lead contact call db =
        take_in org_id meta_id lead contact call db

    -- The pre-check, once the contact and the id are valid.
    unfoldable pub checked :
        Key → RawMetaLead → SyncCall → MetaDb → Contact → Key → Result (SyncLeadResult × MetaDb)
    unfolding unless_known find_meta_lead
    checked org_id lead call db contact meta_id =
        unless_known (find_meta_lead meta_id db.meta_leads) org_id meta_id lead contact call db

    unfoldable pub with_contact :
        Key → RawMetaLead → SyncCall → MetaDb → Contact → Result (SyncLeadResult × MetaDb)
    unfolding checked valid_id
    with_contact org_id lead call db contact =
        valid_id (big_int lead.id) >>= checked org_id lead call db contact

    unfoldable pub sync_lead_to_database :
        Key → RawMetaLead → ContactMappings → SyncCall → MetaDb → Result (SyncLeadResult × MetaDb)
    unfolding with_contact
    sync_lead_to_database org_id lead mappings call db =
        build_contact_payload trim lead.field_data mappings >>= with_contact org_id lead call db

  -- What workers and the leads-service do while several imports run: the tables of the leads-service
  -- change in any way, and a closing transaction of some import runs.
  pub data SyncStep : MetaDb → MetaDb → Type 0 where
    leads_changed : (db : MetaDb) (lms : Db) → SyncStep db (record db { lms = lms })
    recorded :
        (org_id meta_id : Key) (lead : RawMetaLead) (contact : Contact)
        (row_id marketing_lead_id : Key) (db : MetaDb)
        → SyncStep db (record_meta_lead org_id meta_id lead contact row_id marketing_lead_id db).1

  pub data SyncSteps : MetaDb → MetaDb → Type 0 where
    no_step : (db : MetaDb) → SyncSteps db db
    then_step :
        {db between after : MetaDb}
        → SyncSteps db between
        → SyncStep between after
        → SyncSteps db after
