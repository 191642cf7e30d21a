-- ===== src/Intake/Tests.antt =====
-- Leads that are taken in at the sample branch, where lead 71 is active with phone 501.
use msq_lms.Base.{◌≡◌, refl, Bool, true, false, none, some, List, [], ◌∷◌, arith}
use msq_lms.Errors.{ok}
use msq_lms.Db.{Lead, Db}
use msq_lms.AutoAssign.{AutoAssignResult, stored_auto_assign_reason, resolve_auto_assigned_user}
use msq_lms.AutoAssign.Tests.{branch_db, exact, draw_first, everybody}
use msq_lms.Campaign.{tenant_of, in_tenant}
use msq_lms.Campaign.Tests.{plain, walk_in, walk_in_gets_default}
use msq_lms.Intake.{
  WebhookLeadData, WebhookLeadResult, new_stage, source_of, has_phone, has_email, lead_with_phone,
  lead_with_email, deactivate_one, deactivate, supersede_one, link_superseded, insert_lead,
  create_typed, or_resubmission, staged, in_branch, create_webhook_lead,
}
use msq_lms.Intake.Phones.{OnePhone, create_webhook_lead-OnePhone}
use msq_lms.Intake.Forward.{
  Resubmission, Replaced, create_webhook_lead-Resubmission, create_webhook_lead-Replaced,
}

abbrev walk_in_data : WebhookLeadData
walk_in_data = record {
  org_id = some 1;
  phone = some 501;
  email = none;
  source_id = some 3;
  source = none;
  campaign_id = none;
  metadata_campaign_id = none;
  campaign = walk_in;
}

-- Lead 71, as it stands before the new lead and after it.
abbrev pub lead_71 : Bool → Lead
lead_71 active = record {
  id = 71;
  org_id = 1;
  phone = some 501;
  email = none;
  stage_id = some 61;
  source_id = none;
  campaign_id = none;
  campaign_type_id = some 7;
  meta_campaign = some 700;
  assigned_user_id = some 11;
  auto_assign_reason = none;
  superseded_by = none;
  is_active = active;
  is_deleted = false;
}

abbrev pub with_leads : List Lead → Db
with_leads leads = record branch_db { marketing_leads = leads }

abbrev pick : AutoAssignResult
pick =
    resolve_auto_assigned_user everybody exact draw_first (with_leads (lead_71 false ∷ [])) 1
      (some 7)

abbrev lead_72 : Lead
lead_72 = record (lead_71 true) {
  id = 72;
  source_id = some 3;
  meta_campaign = none;
  assigned_user_id = pick.user_id;
  auto_assign_reason = stored_auto_assign_reason pick.reason;
}

abbrev after : Db
after = record branch_db {
  marketing_leads = record (lead_71 false) { superseded_by = some 72 } ∷ lead_72 ∷ [];
  lead_links =
      record { source_lead_id = 71; source_org_id = 1; dest_lead_id = 72; dest_org_id = 1 } ∷ [];
}

abbrev answer : WebhookLeadResult
answer = record {
  id = 72;
  is_duplicate = false;
  existing_lead_id = some 71;
  assigned_user_id = pick.user_id;
  campaign_type_id = some 7;
  auto_assign_reason = stored_auto_assign_reason pick.reason;
}

run : Unit {0}
unfolding create_webhook_lead in_branch staged or_resubmission create_typed insert_lead
    link_superseded supersede_one deactivate deactivate_one lead_with_email lead_with_phone
    has_email has_phone source_of new_stage tenant_of in_tenant
run = tt

taken_in :
    create_webhook_lead plain everybody exact draw_first 72 901 walk_in_data branch_db
    ≡ ok (answer, after)
unfolding run
taken_in = rw (walk_in_gets_default (lead_71 false ∷ [])) refl

branch_db-OnePhone : OnePhone branch_db
unfolding run
branch_db-OnePhone org_id phone real = ground arith

create_webhook_lead-OnePhone_example : OnePhone after
create_webhook_lead-OnePhone_example =
    create_webhook_lead-OnePhone plain everybody exact draw_first 72 901 walk_in_data branch_db
      after answer taken_in branch_db-OnePhone

create_webhook_lead-Replaced_example : Replaced after 71 72
create_webhook_lead-Replaced_example =
    create_webhook_lead-Replaced plain everybody exact draw_first 72 901 walk_in_data branch_db
      after answer taken_in refl refl (omega arith)

-- Lead 71 with the email 601.
abbrev pub email_db : Db
email_db = with_leads (record (lead_71 true) { email = some 601 } ∷ [])

abbrev by_email : WebhookLeadData
by_email = record walk_in_data { phone = some 502; email = some 601 }

abbrev pub known : WebhookLeadResult
known = record {
  id = 71;
  is_duplicate = true;
  existing_lead_id = some 71;
  assigned_user_id = none;
  campaign_type_id = none;
  auto_assign_reason = none;
}

create_webhook_lead-Resubmission_example : Resubmission by_email email_db email_db known
unfolding run
create_webhook_lead-Resubmission_example =
    create_webhook_lead-Resubmission plain everybody exact draw_first 72 901 by_email email_db
      email_db known refl refl

-- A lead of a Meta form with that email and another phone.
pub known_by_email :
    create_webhook_lead plain everybody exact draw_first 72 901
      (record {
        org_id = some 1;
        phone = some 502;
        email = some 601;
        source_id = none;
        source = some "facebook";
        campaign_id = none;
        metadata_campaign_id = none;
        campaign = record {
          meta_campaign_id = none;
          meta_campaign_name = none;
          meta_platform = some "fb";
          meta_campaign_status = none;
          campaign_type_id = none;
          default_campaign_type_id = none;
        };
      })
      email_db
    ≡ ok (known, email_db)
unfolding run
known_by_email = refl
