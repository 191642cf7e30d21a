-- ===== src/Authz/Ladder.antt =====
-- The ladder of the assignment grants: any, peers, reports.
use msq_lms.Base.{ℕ, ◌≡◌, ◌<◌, ◌≤◌, ◌⊎◌, ◌↔◌, inl, inr, true, arith, Bool-cases, ◌==◌, leb}
use msq_lms.Db.{Key}
use msq_lms.Authz.{
  LmsRanks, CapabilityHolder, leads_assign_any, leads_assign_peers, leads_assign_reports,
  can_assign_to_user,
}

-- What the grants of the actor allow towards somebody else.
pub data Grant (can : CapabilityHolder) (actor_rank target_rank : ℕ) : Type 0 where
  any_grant : can leads_assign_any ≡ true → Grant can actor_rank target_rank
  peers_grant :
      can leads_assign_peers ≡ true → target_rank ≤ actor_rank → Grant can actor_rank target_rank
  reports_grant :
      can leads_assign_reports ≡ true → target_rank < actor_rank → Grant can actor_rank target_rank

module _ (r : LmsRanks) (can : CapabilityHolder) (actor_rank target_rank : ℕ)
    (actor_id target_user_id : Key) where
  pub can_assign_to_user-Grant :
      can_assign_to_user r can actor_rank target_rank actor_id target_user_id ≡ true
      → (target_rank < r.admin) × ((actor_id ≡ target_user_id) ⊎ Grant can actor_rank target_rank)
  unfolding can_assign_to_user
  can_assign_to_user-Grant h = elim (Bool-cases (leb r.admin target_rank)) [
    | inl e ↦ let h' = rw e at h in cc
    | inr e ↦
        let h1 = rw e at h in
        let below : target_rank < r.admin = ground arith in
        (
          below,
          elim (Bool-cases (actor_id == target_user_id)) [
            | inl s ↦ inl (ground arith)
            | inr s ↦
                let h2 = rw s at h1 in
                elim (Bool-cases (can leads_assign_any)) [
                  | inl a ↦ inr (any_grant a)
                  | inr a ↦
                      let h3 = rw a at h2 in
                      elim (Bool-cases (can leads_assign_peers)) [
                        | inl p ↦ inr (peers_grant p (ground arith))
                        | inr p ↦
                            let h4 = rw p at h3 in inr (reports_grant (ground arith) (ground arith))
                      ]
                ]
          ],
        )
  ]

  Grant-can_assign_to_user :
      Grant can actor_rank target_rank
      → target_rank < r.admin
      → can_assign_to_user r can actor_rank target_rank actor_id target_user_id ≡ true
  unfolding can_assign_to_user
  Grant-can_assign_to_user (any_grant a) b = ground arith
  Grant-can_assign_to_user (peers_grant p le) b = ground arith
  Grant-can_assign_to_user (reports_grant p lt) b = ground arith

  self-can_assign_to_user :
      actor_id ≡ target_user_id
      → target_rank < r.admin
      → can_assign_to_user r can actor_rank target_rank actor_id target_user_id ≡ true
  unfolding can_assign_to_user
  self-can_assign_to_user e b = ground arith

  -- An actor may assign leads to a user exactly if the user ranks below the admins and is the actor,
  -- or the actor has the grant for anybody, the one for peers towards a rank that is not above their
  -- own, or the one for reports towards a rank below their own.
  pub can_assign_to_user_iff :
      (can_assign_to_user r can actor_rank target_rank actor_id target_user_id ≡ true)
      ↔ ((target_rank < r.admin) × ((actor_id ≡ target_user_id) ⊎ Grant can actor_rank target_rank))
  can_assign_to_user_iff = (
    can_assign_to_user-Grant,
    λ (below, how). elim how [
      | inl self ↦ self-can_assign_to_user self below
      | inr grant ↦ Grant-can_assign_to_user grant below
    ],
  )
