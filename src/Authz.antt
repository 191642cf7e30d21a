-- ===== src/Authz.antt =====
-- Who may do what with leads: packages/lms-authz src/ranks.ts, src/business-rules.ts and
-- src/assignments.ts. The rank numbers and `can` of @platform/rbac are parameters, and so is
-- `isTenantWideRole` of @platform/authz.
pub mod Ladder
pub mod Tests
use Prim.Native.String.{String}
use text.Mathlib.Text.{◌==◌ as str_eq}
use msq_lms.Base.{ℕ, Bool, true, false, ◌==◌, ltb, leb, if◌then◌else◌}
use msq_lms.Db.{Key}

-- LMS_RANKS
pub record LmsRanks : Type 0 where
  pub read_only : ℕ
  pub se : ℕ
  pub sse : ℕ
  pub manager : ℕ
  pub sr_manager : ℕ
  pub admin : ℕ

-- The entries of CAPABILITY that these checks name.
pub data Capability : Type 0 where
  leads_assign_any leads_assign_peers leads_assign_reports leads_delete leads_transfer leads_edit
        analytics_view team_manage :
      Capability

-- `can(actor, …)` for one actor.
abbrev pub CapabilityHolder : Type 0
CapabilityHolder = Capability → Bool

pub record TenantBusinessRules : Type 0 where
  pub min_rank_to_view_unassigned_leads : ℕ
  pub min_rank_for_unassigned_card : ℕ
  pub min_rank_for_analytics : ℕ
  pub min_rank_to_manage_users : ℕ
  pub min_rank_to_view_users : ℕ
  pub min_rank_to_assign_leads : ℕ
  pub min_rank_to_delete_lead : ℕ
  pub min_rank_to_transfer_lead : ℕ
  pub min_rank_to_create_lead : ℕ
  pub min_rank_to_edit_lead : ℕ
  pub min_rank_for_leads_history_team_scope : ℕ

pub data LeadsHistoryScope : Type 0 where
  none_scope team_scope org_scope tenant_scope all_scope : LeadsHistoryScope

unfoldable pub default_rules : LmsRanks → TenantBusinessRules
default_rules r = record {
  min_rank_to_view_unassigned_leads = r.sse;
  min_rank_for_unassigned_card = r.sse;
  min_rank_for_analytics = r.admin;
  min_rank_to_manage_users = r.manager;
  min_rank_to_view_users = r.sse;
  min_rank_to_assign_leads = r.sse;
  min_rank_to_delete_lead = r.admin;
  min_rank_to_transfer_lead = r.manager;
  min_rank_to_create_lead = r.se;
  min_rank_to_edit_lead = r.se;
  min_rank_for_leads_history_team_scope = r.sse;
}

-- The uuid a1000000-0000-0000-0000-000000000001 as a number.
abbrev pub fitclass_tenant_id : Key
fitclass_tenant_id = 214005707321371455537512936705135476737

-- The defaults, with the overrides of the one tenant that has an entry.
unfoldable pub get_rules_for_tenant : LmsRanks → Key → TenantBusinessRules
get_rules_for_tenant r tenant_id =
    if tenant_id == fitclass_tenant_id
    then record (default_rules r) {
      min_rank_to_view_unassigned_leads = r.sse;
      min_rank_for_unassigned_card = r.sse;
    }
    else default_rules r

unfoldable pub can_view_unassigned_leads : TenantBusinessRules → ℕ → Bool
can_view_unassigned_leads rules rank = leb rules.min_rank_to_view_unassigned_leads rank

unfoldable pub get_leads_history_assigned_to_scope :
    (String → Bool) → TenantBusinessRules → ℕ → String → LeadsHistoryScope
get_leads_history_assigned_to_scope is_tenant_wide_role rules rank role =
    if str_eq role "super_admin"
    then all_scope
    else if is_tenant_wide_role role
    then tenant_scope
    else if leb rules.min_rank_for_leads_history_team_scope rank
    then org_scope
    else none_scope

-- The arguments are the actor, the ranks of the actor and of the target, and their ids.
unfoldable pub can_assign_to_user : LmsRanks → CapabilityHolder → ℕ → ℕ → Key → Key → Bool
can_assign_to_user r can actor_rank target_rank actor_id target_user_id =
    if leb r.admin target_rank
    then false
    else if actor_id == target_user_id
    then true
    else if can leads_assign_any
    then true
    else if can leads_assign_peers
    then leb target_rank actor_rank
    else if can leads_assign_reports
    then ltb target_rank actor_rank
    else false
