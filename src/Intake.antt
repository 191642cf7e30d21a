-- ===== src/Intake.antt =====
-- The creation of a lead that comes from outside: leads-service
-- api/v1/intake/intake.repository.ts, `createWebhookLead`. The columns that are copied from the
-- body and never read (names, address, tags, raw data) are left out, and so are the log lines.
pub mod Supersede
pub mod Answer
pub mod Phones
pub mod Forward
pub mod Tests
use Prim.Native.String.{String}
use text.Mathlib.Text.{◌==◌ as str_eq}
use msq_lms.Base.{
  ℕ, Bool, true, false, not, ◌&&◌, Option, none, some, List, [], ◌∷◌, ◌++◌, map, ◌==◌,
  if◌then◌else◌, column_is, or_option, first, filter,
}
use msq_lms.Errors.{bad_request, internal, Result, ok, err, ◌>>=◌}
use msq_lms.Db.{Key, AutoAssignReason, Lead, LeadLink, Named, Stage, Db}
use msq_lms.AutoAssign.{
  Deficits, AutoAssignResult, stored_auto_assign_reason, resolve_auto_assigned_user,
}
use msq_lms.Campaign.{
  Texts, ResolveCampaignInput, ResolvedCampaign, tenant_of, in_tenant, find_named,
  resolve_campaign_for_lead,
}

-- The empty text, which the code's tests take for absent but which is stored as it is.
abbrev pub blank : Key
blank = 0

-- A field that is there and not empty.
abbrev pub given : Option Key → Option Key
given none = none
given (some text) = if text == blank then none else some text

-- An absent field is `none`, and so are the empty ones but `phone` and `email`; `campaign` holds the six fields that type the lead, and
-- `metadata_campaign_id` is the entry 'campaign_id' of the metadata.
pub record WebhookLeadData : Type 0 where
  pub org_id : Option Key
  pub phone : Option Key
  pub email : Option Key
  pub source_id : Option Key
  pub source : Option String
  pub campaign_id : Option Key
  pub metadata_campaign_id : Option Key
  pub campaign : ResolveCampaignInput

pub record WebhookLeadResult : Type 0 where
  pub id : Key
  pub is_duplicate : Bool
  pub existing_lead_id : Option Key
  pub assigned_user_id : Option Key
  pub campaign_type_id : Option Key
  pub auto_assign_reason : Option AutoAssignReason

-- The stage named 'new' of the branch's tenant.
pub new_stage : Db → Key → Option Key
new_stage db org_id = first (
    map (λ ls. ls.id)
      (filter (λ (ls : Stage). str_eq ls.name "new" && in_tenant (tenant_of db org_id) ls.tenant_id)
        db.lead_stage))

-- An id that the body gives, or the source that it names.
pub source_of : Db → Key → Option Key → Option String → Option Key
source_of db org_id (some id) source = some id
source_of db org_id none none = none
source_of db org_id none (some name) = find_named db.lead_sources (tenant_of db org_id) name

-- The active lead of the branch with this phone, and with this email.
unfoldable pub has_phone : Key → Key → Lead → Bool
has_phone org_id phone ml =
    ml.org_id == org_id && column_is ml.phone phone && ml.is_active && not ml.is_deleted

unfoldable pub has_email : Key → Key → Lead → Bool
has_email org_id email ml =
    ml.org_id == org_id && column_is ml.email email && ml.is_active && not ml.is_deleted

unfoldable pub lead_with_phone : Db → Key → Option Key → Option Key
lead_with_phone db org_id none = none
lead_with_phone db org_id (some phone) =
    if phone == blank
    then none
    else first (map (λ ml. ml.id) (filter (has_phone org_id phone) db.marketing_leads))

unfoldable pub lead_with_email : Db → Key → Option Key → Option Key
lead_with_email db org_id none = none
lead_with_email db org_id (some email) =
    if email == blank
    then none
    else first (map (λ ml. ml.id) (filter (has_email org_id email) db.marketing_leads))

-- UPDATE … SET is_active = false WHERE id = …
pub deactivate_one : Key → Lead → Lead
deactivate_one id ml = if ml.id == id then record ml { is_active = false } else ml

pub deactivate : Option Key → Db → Db
deactivate none db = db
deactivate (some id) db = record db { marketing_leads = map (deactivate_one id) db.marketing_leads }

-- UPDATE … SET superseded_by = … WHERE id = …
pub supersede_one : Key → Key → Lead → Lead
supersede_one id new_id ml = if ml.id == id then record ml { superseded_by = some new_id } else ml

-- The merge link and the forward pointer of the lead that is superseded.
pub link_superseded : Option Key → Key → Key → Db → Db
link_superseded none org_id new_id db = db
link_superseded (some id) org_id new_id db = record db {
  marketing_leads = map (supersede_one id new_id) db.marketing_leads;
  lead_links =
      db.lead_links
      ++ record {
        source_lead_id = id;
        source_org_id = org_id;
        dest_lead_id = new_id;
        dest_org_id = org_id;
      }
        ∷ [];
}

pub insert_lead : Lead → Db → Db
insert_lead ml db = record db { marketing_leads = db.marketing_leads ++ ml ∷ [] }

-- The ids that the database gives to the lead and to a campaign row are `new_id` and `fresh`.
module _ (texts : Texts) (has_lms : Key → Key → Bool) (arithmetic : Deficits) (draw : ℕ → ℕ)
    (new_id fresh : Key) where
  -- The row of the new lead.
  abbrev pub new_lead :
      WebhookLeadData → Key → Key → Option Key → ResolvedCampaign → AutoAssignResult → Lead
  new_lead d org_id stage_id source_id resolved assignment = record {
    id = new_id;
    org_id = org_id;
    phone = d.phone;
    email = d.email;
    stage_id = some stage_id;
    source_id = source_id;
    campaign_id = or_option d.campaign_id resolved.campaign_id;
    campaign_type_id = resolved.campaign_type_id;
    meta_campaign = d.metadata_campaign_id;
    assigned_user_id = assignment.user_id;
    auto_assign_reason = stored_auto_assign_reason assignment.reason;
    superseded_by = none;
    is_active = true;
    is_deleted = false;
  }

  -- From the deactivation of the lead with the same phone on; `existing` is that lead.
  pub create_typed : WebhookLeadData → Key → Key → Option Key → Db → Result (WebhookLeadResult × Db)
  create_typed d org_id stage_id existing db = do
    (resolved, db1) ←
        resolve_campaign_for_lead texts fresh (deactivate existing db) org_id d.campaign
    let assignment =
        resolve_auto_assigned_user has_lms arithmetic draw db1 org_id resolved.campaign_type_id
    let source_id = source_of db org_id d.source_id d.source
    let db2 = insert_lead (new_lead d org_id stage_id source_id resolved assignment) db1
    ok (
      record {
        id = new_id;
        is_duplicate = false;
        existing_lead_id = existing;
        assigned_user_id = assignment.user_id;
        campaign_type_id = resolved.campaign_type_id;
        auto_assign_reason = stored_auto_assign_reason assignment.reason;
      },
      link_superseded existing org_id new_id db2,
    )

  -- The two searches for a lead of the same person.
  or_resubmission :
      WebhookLeadData → Key → Key → Db → Option Key → Option Key → Result (WebhookLeadResult × Db)
  or_resubmission d org_id stage_id db (some existing) by_email =
      create_typed d org_id stage_id (some existing) db
  or_resubmission d org_id stage_id db none none = create_typed d org_id stage_id none db
  or_resubmission d org_id stage_id db none (some id) = ok (
    record {
      id = id;
      is_duplicate = true;
      existing_lead_id = some id;
      assigned_user_id = none;
      campaign_type_id = none;
      auto_assign_reason = none;
    },
    db,
  )

  staged : WebhookLeadData → Key → Db → Option Key → Result (WebhookLeadResult × Db)
  unfolding or_resubmission
  staged d org_id db none = err internal
  staged d org_id db (some stage_id) =
      or_resubmission d org_id stage_id db (lead_with_phone db org_id d.phone)
        (lead_with_email db org_id d.email)

  in_branch :
      WebhookLeadData → Db → Option Key → Option Key → Option Key → Result (WebhookLeadResult × Db)
  unfolding staged
  in_branch d db none phone email = err bad_request
  in_branch d db (some org_id) none none = err bad_request
  in_branch d db (some org_id) (some p) email = staged d org_id db (new_stage db org_id)
  in_branch d db (some org_id) none (some e) = staged d org_id db (new_stage db org_id)

  pub create_webhook_lead : WebhookLeadData → Db → Result (WebhookLeadResult × Db)
  unfolding in_branch
  create_webhook_lead d db = in_branch d db d.org_id (given d.phone) (given d.email)
