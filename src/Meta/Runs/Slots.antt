-- ===== src/Meta/Runs/Slots.antt =====
-- A tenant has at most one run of each kind, and a run that is live is never deleted.
use msq_lms.Base.{
  ℕ, ◌≤◌, ◌≡◌, refl, sym, subst, Bool, true, false, not, ◌&&◌, some, List, [], ◌∷◌, ◌++◌, filter,
  any, first, contains, Memᴰ, arith, Bool-cases, Option-cases, inl, inr, ◌==◌, any-false,
  filter-mem,
}
use mathlib.Core.List.Memᴰ.{append_left}
use msq_lms.Db.{Key}
use msq_lms.Errors.{ok, ok-injective}
use msq_lms.Meta.{TriggerKind, manual, scheduled, PullRun}
use msq_lms.Meta.Runs.{
  in_slot, is_live, same_kind, update_run, next_pull, next_apply, run_claim, apply_claim, reap,
  heartbeat, finish, fail, finish_apply, stop_apply, new_run, can_apply, queue_claim,
  claim_queued_run, claim_queued_apply, reap_stale_runs, write_heartbeat, finish_run, fail_run,
  apply_finished, apply_stopped, create_pull_run, queue_apply, QueueStep, QueueSteps,
}
use msq_lms.Meta.Runs.Changes.{
  runs_in, runs_in-map, runs_in-update_run, runs_in-claimed_by, slot_cleared, runs_in-filter,
  runs_in-append, run_claim-StaysIn, apply_claim-StaysIn, heartbeat-StaysIn, queue_claim-StaysIn,
  finish-StaysIn, fail-StaysIn, finish_apply-StaysIn, stop_apply-StaysIn, reap-StaysIn,
}

-- What a run that is created leaves: the other slots, and itself.
abbrev pub replaced : Key → TriggerKind → Key → Key → ℕ → List PullRun → List PullRun
replaced tenant_id kind actor id now rs =
    filter (λ (r : PullRun). not (in_slot tenant_id kind r)) rs
    ++ new_run tenant_id kind actor id now ∷ []

pub create_pull_run-rows :
    (tenants : List Key) (tenant_id : Key) (kind : TriggerKind) (actor id : Key) (now : ℕ)
    (rs after : List PullRun) {given : Key}
    → create_pull_run tenants tenant_id kind actor id now rs ≡ ok (given, after)
    → (any (λ (r : PullRun). in_slot tenant_id kind r && is_live r.status) rs ≡ false)
      × (after ≡ replaced tenant_id kind actor id now rs)
unfolding create_pull_run
create_pull_run-rows tenants tenant_id kind actor id now rs after h =
    elim (Bool-cases (contains tenants tenant_id)) [
      | inl known ↦
          elim (Bool-cases
            (any (λ (r : PullRun). in_slot tenant_id kind r && is_live r.status) rs)) [
              | inl live ↦ cc (rw (known, live) at h)
              | inr free ↦ (free, let e = ok-injective (rw (known, free) at h) in cc e)
            ]
      | inr unknown ↦ cc (rw unknown at h)
    ]

pub queue_apply-rows :
    (tenants : List Key) (tenant_id : Key) (pending : Key → Bool) (actor id : Key) (now : ℕ)
    (rs after : List PullRun)
    → queue_apply tenants tenant_id pending actor id now rs ≡ ok after
    → (r : PullRun) × (first (filter (λ (r : PullRun). r.id == id && r.tenant_id == tenant_id) rs)
        ≡ some r)
      × (can_apply pending r ≡ true)
      × (after ≡ update_run id (queue_claim now actor) rs)
unfolding queue_apply
queue_apply-rows tenants tenant_id pending actor id now rs after h =
    elim (Bool-cases (contains tenants tenant_id)) [
      | inl known ↦
          elim (Option-cases
            (first (filter (λ (r : PullRun). r.id == id && r.tenant_id == tenant_id) rs))) [
              | inl missing ↦ cc (rw (known, missing) at h)
              | inr (r, found) ↦ elim (Bool-cases (can_apply pending r)) [
                | inl may ↦
                    (r, found, may, let e = ok-injective (rw (known, found, may) at h) in cc e)
                | inr not_yet ↦ cc (rw (known, found, not_yet) at h)
              ]
            ]
      | inr unknown ↦ cc (rw unknown at h)
    ]

module _ (tenant_id : Key) (kind : TriggerKind) where
  same_kind-eq : (a b : TriggerKind) → same_kind a b ≡ true → a ≡ b
  same_kind-eq manual manual h = refl
  same_kind-eq manual scheduled h = cc
  same_kind-eq scheduled manual h = cc
  same_kind-eq scheduled scheduled h = refl

  slot_of :
      (other : Key) (other_kind : TriggerKind) (actor id : Key) (now : ℕ)
      → in_slot tenant_id kind (new_run other other_kind actor id now) ≡ true
      → (other ≡ tenant_id) × (other_kind ≡ kind)
  unfolding in_slot new_run
  slot_of other manual actor id now h = (ground arith, same_kind-eq manual kind (ground arith))
  slot_of other scheduled actor id now h =
      (ground arith, same_kind-eq scheduled kind (ground arith))

  runs_in-replaced :
      (other : Key) (other_kind : TriggerKind) (actor id : Key) (now : ℕ) (rs : List PullRun)
      → runs_in tenant_id kind rs ≤ 1
      → runs_in tenant_id kind (replaced other other_kind actor id now rs) ≤ 1
  runs_in-replaced other other_kind actor id now rs h =
      let n = new_run other other_kind actor id now in
      let others = filter (λ (r : PullRun). not (in_slot other other_kind r)) rs in
      let split = runs_in-append tenant_id kind others (n ∷ []) in
      elim (Bool-cases (in_slot tenant_id kind n)) [
        | inl e ↦
            let (a, b) = slot_of other other_kind actor id now e in
            let none_left =
              subst
                (λ t.
                  runs_in tenant_id kind (filter (λ (r : PullRun). not (in_slot t other_kind r)) rs)
                  ≡ 0)
                (sym a)
                (subst
                  (λ k.
                    runs_in tenant_id kind
                      (filter (λ (r : PullRun). not (in_slot tenant_id k r)) rs)
                    ≡ 0)
                  (sym b) (slot_cleared tenant_id kind rs)) in
            let one : runs_in tenant_id kind (n ∷ []) ≡ 1 = rw e refl in
            omega (arith, split, none_left, one)
        | inr e ↦
            let fewer =
              runs_in-filter tenant_id kind (λ (r : PullRun). not (in_slot other other_kind r))
                rs in
            let zero : runs_in tenant_id kind (n ∷ []) ≡ 0 = rw e refl in
            omega (arith, split, fewer, zero, h)
      ]

  step-runs_in :
      {rs after : List PullRun}
      → QueueStep rs after
      → runs_in tenant_id kind rs ≤ 1
      → runs_in tenant_id kind after ≤ 1
  unfolding claim_queued_run claim_queued_apply reap_stale_runs write_heartbeat finish_run fail_run
      apply_finished apply_stopped
  step-runs_in (QueueStep.pull_claimed now rs) h =
      rw
        (runs_in-claimed_by tenant_id kind (run_claim now) (run_claim-StaysIn now) (next_pull rs)
          rs)
        h
  step-runs_in (QueueStep.apply_claimed now rs) h =
      rw
        (runs_in-claimed_by tenant_id kind (apply_claim now) (apply_claim-StaysIn now)
          (next_apply rs) rs)
        h
  step-runs_in (QueueStep.reaped minutes now rs) h =
      rw (runs_in-map tenant_id kind (reap minutes now) (reap-StaysIn minutes now) rs) h
  step-runs_in (QueueStep.beat now id rs) h =
      rw (runs_in-update_run tenant_id kind id (heartbeat now) (heartbeat-StaysIn now) rs) h
  step-runs_in (QueueStep.pull_finished now id rs) h =
      rw (runs_in-update_run tenant_id kind id (finish now) (finish-StaysIn now) rs) h
  step-runs_in (QueueStep.pull_failed now id rs) h =
      rw (runs_in-update_run tenant_id kind id (fail now) (fail-StaysIn now) rs) h
  step-runs_in (QueueStep.apply_done now id rs) h =
      rw (runs_in-update_run tenant_id kind id (finish_apply now) (finish_apply-StaysIn now) rs) h
  step-runs_in (QueueStep.apply_dropped now id rs) h =
      rw (runs_in-update_run tenant_id kind id (stop_apply now) (stop_apply-StaysIn now) rs) h
  step-runs_in (QueueStep.created tenants other other_kind actor id now {rs} {after} fresh e) h =
      rw ((create_pull_run-rows tenants other other_kind actor id now rs after e).1)
        (runs_in-replaced other other_kind actor id now rs h)
  step-runs_in (QueueStep.apply_asked tenants other pending actor id now {rs} {after} e) h =
      let (r, found, may, shape) = queue_apply-rows tenants other pending actor id now rs after e in
      rw
        (
          shape,
          runs_in-update_run tenant_id kind id (queue_claim now actor)
              (queue_claim-StaysIn now actor) rs,
        )
        h

  -- Whatever statements of workers and requests follow each other, in any order, a tenant that
  -- starts with at most one run of a kind has at most one of that kind after them.
  pub steps-runs_in :
      {rs after : List PullRun}
      → QueueSteps rs after
      → runs_in tenant_id kind rs ≤ 1
      → runs_in tenant_id kind after ≤ 1
  steps-runs_in (QueueSteps.no_step rs) h = h
  steps-runs_in (QueueSteps.then_step steps step) h = step-runs_in step (steps-runs_in steps h)

-- A run that is live is still there, as it was, after a pull is created.
pub create_pull_run-live :
    (tenants : List Key) (tenant_id : Key) (kind : TriggerKind) (actor id : Key) (now : ℕ)
    (rs after : List PullRun) (given : Key) (r : PullRun)
    → create_pull_run tenants tenant_id kind actor id now rs ≡ ok (given, after)
    → Memᴰ r rs
    → is_live r.status ≡ true
    → Memᴰ r after
create_pull_run-live tenants tenant_id kind actor id now rs after given r e m live =
    let (free, shape) = create_pull_run-rows tenants tenant_id kind actor id now rs after e in
    let outside : (in_slot tenant_id kind r && is_live r.status) ≡ false =
      any-false (λ (s : PullRun). in_slot tenant_id kind s && is_live s.status) free m in
    let kept : not (in_slot tenant_id kind r) ≡ true = ground arith in
    rw shape (
      append_left (new_run tenant_id kind actor id now ∷ [])
        (filter-mem (λ (s : PullRun). not (in_slot tenant_id kind s)) m kept))
