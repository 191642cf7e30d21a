-- ===== src/Authz/Tests.antt =====
-- A senior executive hands a lead to a peer.
use msq_lms.Base.{ℕ, ◌≡◌, ◌<◌, ◌⊎◌, ◌↔◌, refl, true, false}
use msq_lms.Authz.{
  LmsRanks, CapabilityHolder, leads_assign_any, leads_assign_peers, leads_assign_reports,
  leads_delete, leads_transfer, leads_edit, analytics_view, team_manage, can_assign_to_user,
}
use msq_lms.Authz.Ladder.{Grant, can_assign_to_user_iff}

abbrev pub sample_ranks : LmsRanks
sample_ranks = record {
  read_only = 0;
  se = 20;
  sse = 40;
  manager = 60;
  sr_manager = 70;
  admin = 980;
}

abbrev pub assigns_to_peers : CapabilityHolder
assigns_to_peers leads_assign_peers = true
assigns_to_peers leads_assign_any = false
assigns_to_peers leads_assign_reports = false
assigns_to_peers leads_delete = false
assigns_to_peers leads_transfer = false
assigns_to_peers leads_edit = true
assigns_to_peers analytics_view = false
assigns_to_peers team_manage = false

not_to_a_senior : can_assign_to_user sample_ranks assigns_to_peers 40 60 12 11 ≡ false
unfolding can_assign_to_user
not_to_a_senior = refl

can_assign_to_user_iff_example :
    (can_assign_to_user sample_ranks assigns_to_peers 40 40 12 11 ≡ true)
    ↔ ((40 < 980) × ((◌≡◌ {A = ℕ} 12 11) ⊎ Grant assigns_to_peers 40 40))
can_assign_to_user_iff_example = can_assign_to_user_iff sample_ranks assigns_to_peers 40 40 12 11
