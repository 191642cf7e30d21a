-- ===== src/AutoAssign/Tests.antt =====
-- The pick on a branch with two users, at 60 and 40 per cent.
use msq_lms.Base.{
  ℕ, ◌+◌, ◌*◌, ◌≡◌, ◌≢◌, ◌↔◌, ◌<◌, refl, Bool, true, false, none, some, [], ◌∷◌, arith, ltb, ◌==◌,
}
use msq_lms.Db.{Key, Db, assigned, no_capable_users}
use msq_lms.AutoAssign.{
  Deficits, stored_auto_assign_reason, in_pool, department_ok, pool_rows, distinct, is_open_in_pool,
  open_lead_owners, open_count, open_sum, total_open, beats, ties, deficit, consider, scan,
  candidates_of, pick_from, lms_capable_roles, capable_rows, pick_among, resolve_auto_assigned_user,
}
use msq_lms.AutoAssign.Best.{IsBest}
use msq_lms.AutoAssign.Reasons.{Eligible, Explanation, eligible_rows}
use msq_lms.AutoAssign.Pick.{
  resolve_auto_assigned_user-Explanation, resolve_auto_assigned_user-IsBest,
  stored_reason_iff_unowned,
}

pub exact_irrefl : (a b : ℕ) → ltb (a + b) (a + b) ≡ false
exact_irrefl a b = ground arith

pub exact_eq :
    (a a' b b' c c' : ℕ) → (b + a' == a + b') ≡ true → ltb (a + c') (c + a') ≡ ltb (b + c') (c + b')
exact_eq a a' b b' c c' h = ground arith

pub exact_down :
    (b b' c c' d d' : ℕ)
    → ltb (b + c') (c + b') ≡ false
    → ltb (b + d') (d + b') ≡ true
    → ltb (d + c') (c + d') ≡ false
exact_down b b' c c' d d' h k = ground arith

-- Deficits as exact fractions of 100: what is due, and what is held.
abbrev pub exact : Deficits
exact = record {
  Deficit = ℕ × ℕ;
  of = λ w t c. (w * t, 100 * c);
  gt = λ a b. ltb (b.0 + a.1) (a.0 + b.1);
  eq = λ a b. b.0 + a.1 == a.0 + b.1;
  gt_irrefl = λ a. exact_irrefl a.0 a.1;
  gt_eq = λ a b c. exact_eq a.0 a.1 b.0 b.1 c.0 c.1;
  gt_down = λ b c d. exact_down b.0 b.1 c.0 c.1 d.0 d.1;
}

-- The first of the candidates.
abbrev pub draw_first : ℕ → ℕ
draw_first n = 0

pub draw_first_in_range : (n : ℕ) → 0 < n → draw_first n < n
draw_first_in_range n h = h

abbrev pub everybody : Key → Key → Bool
everybody tenant role = true

abbrev pub user : Key → Key → Key → Db → Db
user id mapping weight db = record db {
  users = record { id = id; is_active = true; is_deleted = false } ∷ db.users;
  user_org_mapping =
      record { id = mapping; user_id = id; org_id = 1; role_id = 21; is_active = true }
      ∷ db.user_org_mapping;
  lead_assignment_weights =
      record { user_org_mapping_id = mapping; campaign_type_id = 7; weight = weight }
      ∷ db.lead_assignment_weights;
}

-- Branch 1 of tenant 9: type 7 is the default, type 8 is retired, role 21 sits in department 5, and
-- user 11 holds an open lead that came from the Meta campaign 700.
abbrev pub branch_db : Db
branch_db = user 11 41 60 (
    user 12 42 40 (record {
      organizations =
          record { id = 1; tenant_id = 9; name = 100; is_active = true; is_deleted = false } ∷ [];
      users = [];
      user_roles = record { id = 21; name = 31; rank = 20; department_id = some 5 } ∷ [];
      user_org_mapping = [];
      lead_assignment_weights = [];
      campaign_types =
          record {
            id = 7;
            tenant_id = 9;
            label = 107;
            department_id = some 5;
            is_default = true;
            is_active = true;
            is_deleted = false;
          }
          ∷ record {
            id = 8;
            tenant_id = 9;
            label = 108;
            department_id = some 6;
            is_default = false;
            is_active = false;
            is_deleted = false;
          }
          ∷ [];
      ad_campaigns = [];
      marketing_platforms = record { id = 51; tenant_id = 9; name = "facebook" } ∷ [];
      campaign_statuses = record { id = 52; tenant_id = 9; name = "draft" } ∷ [];
      lead_sources = [];
      lead_links = [];
      lead_stage = record { id = 61; tenant_id = 9; name = "new"; is_terminated = false } ∷ [];
      marketing_leads =
          record {
            id = 71;
            org_id = 1;
            phone = some 501;
            email = none;
            stage_id = some 61;
            source_id = none;
            campaign_id = none;
            campaign_type_id = some 7;
            meta_campaign = some 700;
            assigned_user_id = some 11;
            auto_assign_reason = none;
            superseded_by = none;
            is_active = true;
            is_deleted = false;
          }
          ∷ [];
    }))

-- All that a run of the pick computes with.
run : Unit {0}
unfolding resolve_auto_assigned_user pick_among capable_rows lms_capable_roles pick_from
    candidates_of scan consider deficit ties beats total_open open_sum open_count open_lead_owners
    is_open_in_pool distinct pool_rows department_ok in_pool
run = tt

-- User 11 holds 1 of the 2 leads at 60 per cent, user 12 none at 40: the lead goes to user 12.
picks_second :
    resolve_auto_assigned_user everybody exact draw_first branch_db 1 (some 7)
    ≡ record { user_id = some 12; reason = assigned }
unfolding run
picks_second = refl

nobody_capable :
    (resolve_auto_assigned_user (λ _ _. false) exact draw_first branch_db 1 (some 7)).reason
    ≡ no_capable_users
unfolding run
nobody_capable = refl

resolve_auto_assigned_user-Explanation_example :
    Explanation everybody branch_db 1 7
      (resolve_auto_assigned_user everybody exact draw_first branch_db 1 (some 7)).reason
resolve_auto_assigned_user-Explanation_example =
    resolve_auto_assigned_user-Explanation everybody exact draw_first draw_first_in_range branch_db
      1 7

resolve_auto_assigned_user-IsBest_example :
    Eligible everybody branch_db 1 7 12
    × IsBest exact
        (total_open (open_lead_owners branch_db 1 7) (eligible_rows everybody branch_db 1 7))
        (open_lead_owners branch_db 1 7)
        (eligible_rows everybody branch_db 1 7)
        12
unfolding run
resolve_auto_assigned_user-IsBest_example =
    resolve_auto_assigned_user-IsBest everybody exact draw_first draw_first_in_range branch_db 1 7
      12 refl

stored_reason_iff_unowned_example :
    (stored_auto_assign_reason
        (resolve_auto_assigned_user everybody exact draw_first branch_db 1 (some 7)).reason
      ≡ none)
    ↔ ((resolve_auto_assigned_user everybody exact draw_first branch_db 1 (some 7)).user_id ≢ none)
stored_reason_iff_unowned_example =
    stored_reason_iff_unowned everybody exact draw_first draw_first_in_range branch_db 1 (some 7)
