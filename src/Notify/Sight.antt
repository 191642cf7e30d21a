-- ===== src/Notify/Sight.antt =====
-- Which clients an event reaches.
use text.Mathlib.Text.{◌==◌ as str_eq}
use msq_lms.Base.{
  suc, ◌+◌, ◌≡◌, refl, sym, ap, ◌∙◌, subst, true, false, ◌||◌, none, some, List, [], ◌∷◌, ◌++◌,
  Memᴰ, arith, ◌==◌, ==_iff, Bool-cases, inl, inr, filter, length, if◌then◌else◌, column_is,
  mem-filter, filter-mem,
}
use msq_lms.Authz.{LmsRanks, get_rules_for_tenant, can_view_unassigned_leads}
use msq_lms.Notify.{
  LeadEvent, ConnectedClient, sees_unassigned, can_see_event, Broadcast, broadcast_from, broadcast,
}

-- Why a client may be told of an event. A tenant's administrator is told of the events of that
-- tenant alone, whatever the branch or the lead.
pub data CanSee (ranks : LmsRanks) (c : ConnectedClient) (event : LeadEvent) : Type 0 where
  super_admin : str_eq c.role "super_admin" ≡ true → CanSee ranks c event
  tenant_admin :
      str_eq c.role "tenant_admin" ≡ true → c.tenant_id ≡ event.tenant_id → CanSee ranks c event
  org_admin :
      str_eq c.role "tenant_admin" ≡ false
      → c.org_id ≡ event.org_id
      → str_eq c.role "org_admin" ≡ true
      → CanSee ranks c event
  free_lead :
      str_eq c.role "tenant_admin" ≡ false
      → c.org_id ≡ event.org_id
      → event.assigned_user_id ≡ none
      → can_view_unassigned_leads (get_rules_for_tenant ranks c.tenant_id) c.rank ≡ true
      → CanSee ranks c event
  assignee :
      str_eq c.role "tenant_admin" ≡ false
      → c.org_id ≡ event.org_id
      → event.assigned_user_id ≡ some c.user_id
      → CanSee ranks c event
  actor :
      str_eq c.role "tenant_admin" ≡ false
      → c.org_id ≡ event.org_id
      → c.user_id ≡ event.actor_id
      → CanSee ranks c event

module _ (ranks : LmsRanks) (c : ConnectedClient) (event : LeadEvent) where
  branch-CanSee :
      str_eq c.role "tenant_admin" ≡ false
      → c.org_id ≡ event.org_id
      → (sees_unassigned ranks c event
          || (column_is event.assigned_user_id c.user_id || c.user_id == event.actor_id))
        ≡ true
      → CanSee ranks c event
  unfolding sees_unassigned
  branch-CanSee other same_org h = elim (Bool-cases (sees_unassigned ranks c event)) [
    | inl e ↦ free_lead other same_org (ground arith) (ground arith)
    | inr e ↦ elim (Bool-cases (c.user_id == event.actor_id)) [
      | inl a ↦ actor other same_org ((==_iff c.user_id event.actor_id).0 a)
      | inr a ↦ assignee other same_org (ground arith)
    ]
  ]

  can_see_event-CanSee : can_see_event ranks c event ≡ true → CanSee ranks c event
  unfolding can_see_event
  can_see_event-CanSee h = elim (Bool-cases (str_eq c.role "super_admin")) [
    | inl e ↦ super_admin e
    | inr e ↦
        let h1 = rw e at h in
        elim (Bool-cases (str_eq c.role "tenant_admin")) [
          | inl t ↦ tenant_admin t ((==_iff c.tenant_id event.tenant_id).0 (rw t at h1))
          | inr t ↦
              let h2 = rw t at h1 in
              elim (Bool-cases (c.org_id == event.org_id)) [
                | inr o ↦ let h3 = rw o at h2 in cc
                | inl o ↦
                    let h3 = rw o at h2 in
                    elim (Bool-cases (str_eq c.role "org_admin")) [
                      | inl a ↦ org_admin t ((==_iff c.org_id event.org_id).0 o) a
                      | inr a ↦
                          let h4 = rw a at h3 in
                          branch-CanSee t ((==_iff c.org_id event.org_id).0 o) (ground arith)
                    ]
              ]
        ]
  ]

  branch_seen :
      str_eq c.role "tenant_admin" ≡ false
      → c.org_id ≡ event.org_id
      → (str_eq c.role "org_admin"
          || (sees_unassigned ranks c event
              || (column_is event.assigned_user_id c.user_id || c.user_id == event.actor_id)))
        ≡ true
      → can_see_event ranks c event ≡ true
  unfolding can_see_event
  branch_seen other same_org h =
      let here = (==_iff c.org_id event.org_id).1 same_org in
      elim (Bool-cases (str_eq c.role "super_admin")) [
        | inl e ↦ rw e refl
        | inr e ↦ rw (e, other, here) (ground arith)
      ]

  CanSee-can_see_event : CanSee ranks c event → can_see_event ranks c event ≡ true
  unfolding can_see_event sees_unassigned
  CanSee-can_see_event (super_admin e) = rw e refl
  CanSee-can_see_event (tenant_admin e same_tenant) =
      let here = (==_iff c.tenant_id event.tenant_id).1 same_tenant in
      elim (Bool-cases (str_eq c.role "super_admin")) [ inl s ↦ rw s refl | inr s ↦ rw (s, e) here ]
  CanSee-can_see_event (org_admin other same_org e) = branch_seen other same_org (rw e refl)
  CanSee-can_see_event (free_lead other same_org free may) =
      branch_seen other same_org (ground (arith, free, may))
  CanSee-can_see_event (assignee other same_org e) = branch_seen other same_org (ground (arith, e))
  CanSee-can_see_event (actor other same_org e) =
      branch_seen other same_org (ground (arith, (==_iff c.user_id event.actor_id).1 e))

-- What a broadcast wrote: each connected client with a reason to see the event, and nobody else, and the
-- counts are of those and of the others.
pub record Delivered (ranks : LmsRanks) (clients : List ConnectedClient) (event : LeadEvent)
    (b : Broadcast) : Type 0 where
  pub told : (c : ConnectedClient) → Memᴰ c b.recipients → Memᴰ c clients × CanSee ranks c event
  pub reached : (c : ConnectedClient) → Memᴰ c clients → CanSee ranks c event → Memᴰ c b.recipients
  pub sent_count : b.sent ≡ length b.recipients
  pub all_counted : b.sent + b.skipped ≡ length clients

module _ (ranks : LmsRanks) (event : LeadEvent) where
  append-shift :
      (xs : List ConnectedClient) (c : ConnectedClient) (ys : List ConnectedClient)
      → (xs ++ c ∷ []) ++ ys ≡ xs ++ c ∷ ys
  append-shift [] c ys = refl
  append-shift (x ∷ xs) c ys = ap (λ zs. x ∷ zs) (append-shift xs c ys)

  append_nil : (xs : List ConnectedClient) → xs ≡ xs ++ []
  append_nil [] = refl
  append_nil (x ∷ xs) = ap (λ zs. x ∷ zs) (append_nil xs)

  told_step :
      (c : ConnectedClient) (cs : List ConnectedClient) (b : Broadcast)
      → can_see_event ranks c event ≡ true
      → broadcast_from ranks event (c ∷ cs) b
        ≡ broadcast_from ranks event cs
            (record b { sent = suc b.sent; recipients = b.recipients ++ c ∷ [] })
  unfolding broadcast_from
  told_step c cs b e =
      ap
        (λ x. broadcast_from ranks event cs (
          if x
          then record b { sent = suc b.sent; recipients = b.recipients ++ c ∷ [] }
          else record b { skipped = suc b.skipped }))
        e

  skipped_step :
      (c : ConnectedClient) (cs : List ConnectedClient) (b : Broadcast)
      → can_see_event ranks c event ≡ false
      → broadcast_from ranks event (c ∷ cs) b
        ≡ broadcast_from ranks event cs (record b { skipped = suc b.skipped })
  unfolding broadcast_from
  skipped_step c cs b e =
      ap
        (λ x. broadcast_from ranks event cs (
          if x
          then record b { sent = suc b.sent; recipients = b.recipients ++ c ∷ [] }
          else record b { skipped = suc b.skipped }))
        e

  recipients_lem :
      (cs : List ConnectedClient) (b : Broadcast)
      → (broadcast_from ranks event cs b).recipients
        ≡ b.recipients ++ filter (λ c. can_see_event ranks c event) cs
  unfolding broadcast_from
  recipients_lem [] b = append_nil b.recipients
  recipients_lem (c ∷ cs) b = elim (Bool-cases (can_see_event ranks c event)) [
    | inl e ↦
        ap (λ x. x.recipients) (told_step c cs b e)
        ∙ recipients_lem cs (record b { sent = suc b.sent; recipients = b.recipients ++ c ∷ [] })
        ∙ append-shift b.recipients c (filter (λ x. can_see_event ranks x event) cs)
        ∙ rw e refl
    | inr e ↦
        ap (λ x. x.recipients) (skipped_step c cs b e)
        ∙ recipients_lem cs (record b { skipped = suc b.skipped })
        ∙ rw e refl
  ]

  counts_nil :
      (b : Broadcast)
      → ((broadcast_from ranks event [] b).sent ≡ b.sent + 0)
        × ((broadcast_from ranks event [] b).sent + (broadcast_from ranks event [] b).skipped
            ≡ b.sent + b.skipped + 0)
  unfolding broadcast_from
  counts_nil b = (omega arith, omega arith)

  counts_lem :
      (cs : List ConnectedClient) (b : Broadcast)
      → ((broadcast_from ranks event cs b).sent
          ≡ b.sent + length (filter (λ c. can_see_event ranks c event) cs))
        × ((broadcast_from ranks event cs b).sent + (broadcast_from ranks event cs b).skipped
            ≡ b.sent + b.skipped + length cs)
  counts_lem [] b = counts_nil b
  counts_lem (c ∷ cs) b = elim (Bool-cases (can_see_event ranks c event)) [
    | inl e ↦
        let (l, k) =
          counts_lem cs (record b { sent = suc b.sent; recipients = b.recipients ++ c ∷ [] }) in
        let s = ap (λ (x : Broadcast). x.sent) (told_step c cs b e) in
        let t = ap (λ (x : Broadcast). x.skipped) (told_step c cs b e) in
        rw e (omega (arith, l, s), omega (arith, k, s, t))
    | inr e ↦
        let (l, k) = counts_lem cs (record b { skipped = suc b.skipped }) in
        let s = ap (λ (x : Broadcast). x.sent) (skipped_step c cs b e) in
        let t = ap (λ (x : Broadcast). x.skipped) (skipped_step c cs b e) in
        rw e (omega (arith, l, s), omega (arith, k, s, t))
  ]

  -- A broadcast writes to exactly the connected clients that have a reason of their role, their
  -- branch or their part in the lead to see the event, and counts every client once.
  pub broadcast-Delivered :
      (clients : List ConnectedClient)
      → Delivered ranks clients event (broadcast ranks clients event)
  unfolding broadcast
  broadcast-Delivered clients =
      let start : Broadcast = record { sent = 0; skipped = 0; recipients = [] } in
      let whole = recipients_lem clients start in
      let (l, k) = counts_lem clients start in
      let same_length = ap length whole in
      record {
        told = λ c m.
            let (listed, e) =
              mem-filter (λ x. can_see_event ranks x event) clients
                (subst (λ xs. Memᴰ c xs) whole m) in
            (listed, can_see_event-CanSee ranks c event e);
        reached = λ c m e.
            subst (λ xs. Memᴰ c xs) (sym whole)
              (filter-mem (λ x. can_see_event ranks x event) m
                (CanSee-can_see_event ranks c event e));
        sent_count = omega (arith, l, same_length);
        all_counted = omega (arith, k);
      }
