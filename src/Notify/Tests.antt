-- ===== src/Notify/Tests.antt =====
-- Two sessions of one branch, and a day with two runs of the checker.
use msq_lms.Base.{ℕ, ◌≡◌, ◌≤◌, refl, true, some, [], ◌∷◌, length}
use msq_lms.Authz.{default_rules, get_rules_for_tenant, can_view_unassigned_leads}
use msq_lms.Authz.Tests.{sample_ranks}
use msq_lms.Notify.{
  LeadEvent, ConnectedClient, sees_unassigned, can_see_event, broadcast_from, broadcast,
  is_session_of, send_to_user, FollowUpLead, same_key, has_key, Checker, Tick, reset_if_new_day,
  key_of, keys_of, add_key, check_rows, check_follow_ups, run_ticks,
}
use msq_lms.Notify.Sight.{Delivered, broadcast-Delivered}
use msq_lms.Notify.Once.{count_notices, run_ticks-once}

abbrev assignee_client : ConnectedClient
assignee_client = record {
  id = 1;
  user_id = 11;
  org_id = 1;
  tenant_id = 9;
  role = "user";
  rank = 20;
}

abbrev colleague_client : ConnectedClient
colleague_client = record {
  id = 2;
  user_id = 12;
  org_id = 1;
  tenant_id = 9;
  role = "user";
  rank = 40;
}

abbrev assigned_event : LeadEvent
assigned_event = record {
  lead_id = 71;
  org_id = 1;
  tenant_id = 9;
  assigned_user_id = some 11;
  actor_id = 13;
}

run : Unit {0}
unfolding broadcast broadcast_from can_see_event sees_unassigned run_ticks check_follow_ups
    check_rows reset_if_new_day keys_of add_key key_of has_key same_key send_to_user is_session_of
    get_rules_for_tenant default_rules can_view_unassigned_leads
run = tt

only_assignee :
    broadcast sample_ranks (assignee_client ∷ colleague_client ∷ []) assigned_event
    ≡ record { sent = 1; skipped = 1; recipients = assignee_client ∷ [] }
unfolding run
only_assignee = refl

broadcast-Delivered_example :
    Delivered sample_ranks
      (assignee_client ∷ colleague_client ∷ [])
      assigned_event
      (record { sent = 1; skipped = 1; recipients = assignee_client ∷ [] })
unfolding run
broadcast-Delivered_example =
    broadcast-Delivered sample_ranks assigned_event (assignee_client ∷ colleague_client ∷ [])

abbrev due_lead : FollowUpLead
due_lead = record { id = 71; assigned_user_id = 11; scheduled_at = 100; org_id = 1 }

abbrev tick_at : ℕ → Tick
tick_at now = record { clients = assignee_client ∷ []; now = now; rows = due_lead ∷ [] }

abbrev yesterday : Checker
yesterday = record { notified_due_keys = []; notified_missed_keys = []; last_reset_date = 19 }

-- Once as due, once as missed.
two_notices :
    length (run_ticks 20 (tick_at 90 ∷ tick_at 95 ∷ tick_at 110 ∷ tick_at 115 ∷ []) yesterday).1 ≡ 2
unfolding run
two_notices = refl

run_ticks-once_example :
    count_notices true
      (record { lead_id = 71; scheduled_at = 100 })
      (run_ticks 20 (tick_at 90 ∷ tick_at 110 ∷ tick_at 115 ∷ []) yesterday).1
    ≤ 1
run_ticks-once_example =
    run_ticks-once true (record { lead_id = 71; scheduled_at = 100 }) 20
      (tick_at 90 ∷ tick_at 110 ∷ tick_at 115 ∷ []) yesterday
