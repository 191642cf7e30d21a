-- ===== src/Meta/Runs/Edges.antt =====
-- How the status of a run moves, by each statement of the queue.
use msq_lms.Base.{
  ℕ, ◌≡◌, refl, sym, subst, Bool, true, some, arith, Bool-cases, inl, inr, if◌then◌else◌,
}
use msq_lms.Db.{Key}
use msq_lms.Meta.{
  RunStatus, queued, running, completed, apply_queued, applying, applied, failed, PullRun,
}
use msq_lms.Meta.Runs.{
  is_status, reap, finish, fail, finish_apply, stop_apply, can_apply, queue_claim, is_stale,
}

-- The moves of a run.
pub data Edge : RunStatus → RunStatus → Type 0 where
  starts : Edge queued running
  ends_well : Edge running completed
  breaks : Edge running failed
  asked : Edge completed apply_queued
  asked_again : Edge applied apply_queued
  taken : Edge apply_queued applying
  all_applied : Edge applying applied
  returned : Edge applying completed

-- At most one of them.
pub data Hop : RunStatus → RunStatus → Type 0 where
  stays : (s : RunStatus) → Hop s s
  once : {a b : RunStatus} → Edge a b → Hop a b

pub status-eq : (a b : RunStatus) → is_status a b ≡ true → a ≡ b
status-eq a b h = ground arith

-- A change under a guard on the status makes one move, or none.
guarded-Hop :
    {q b : RunStatus} (r changed : PullRun)
    → changed.status ≡ b
    → Edge q b
    → Hop r.status (if is_status r.status q then changed else r).status
guarded-Hop {q} {b} r changed to edge = elim (Bool-cases (is_status r.status q)) [
  | inl e ↦ rw (e, to) (subst (λ s. Hop s b) (sym (status-eq r.status q e)) (once edge))
  | inr e ↦ rw e (Hop.stays r.status)
]

pub reap-Hop : (minutes now : ℕ) (r : PullRun) → Hop r.status (reap minutes now r).status
unfolding reap is_stale
reap-Hop minutes now r = elim (Bool-cases (is_stale minutes now r)) [
  | inl stale ↦ elim (Bool-cases (is_status r.status applying)) [
    | inl e ↦
        rw (stale, e)
          (subst (λ s. Hop s completed) (sym (status-eq r.status applying e))
            (Hop.once Edge.returned))
    | inr e ↦
        let run : is_status r.status running ≡ true = ground arith in
        rw (stale, e)
          (subst (λ s. Hop s failed) (sym (status-eq r.status running run)) (Hop.once Edge.breaks))
  ]
  | inr fresh ↦ rw fresh (Hop.stays r.status)
]

pub finish-Hop : (now : ℕ) (r : PullRun) → Hop r.status (finish now r).status
unfolding finish
finish-Hop now r =
    guarded-Hop r
      (record r {
        status = completed;
        finished_at = some now;
        heartbeat_at = some now;
        updated_at = now;
      })
      refl Edge.ends_well

pub fail-Hop : (now : ℕ) (r : PullRun) → Hop r.status (fail now r).status
unfolding fail
fail-Hop now r =
    guarded-Hop r (record r { status = failed; finished_at = some now; updated_at = now }) refl
      Edge.breaks

pub finish_apply-Hop : (now : ℕ) (r : PullRun) → Hop r.status (finish_apply now r).status
unfolding finish_apply
finish_apply-Hop now r =
    guarded-Hop r
      (record r {
        status = applied;
        applied_at = some now;
        heartbeat_at = some now;
        updated_at = now;
      })
      refl Edge.all_applied

pub stop_apply-Hop : (now : ℕ) (r : PullRun) → Hop r.status (stop_apply now r).status
unfolding stop_apply
stop_apply-Hop now r =
    guarded-Hop r (record r { status = completed; updated_at = now }) refl Edge.returned

pub queue_claim-Hop :
    (now : ℕ) (actor : Key) (pending : Key → Bool) (r : PullRun)
    → can_apply pending r ≡ true
    → Hop r.status (queue_claim now actor r).status
unfolding queue_claim can_apply
queue_claim-Hop now actor pending r may = elim (Bool-cases (is_status r.status completed)) [
  | inl e ↦
      subst (λ s. Hop s apply_queued) (sym (status-eq r.status completed e)) (Hop.once Edge.asked)
  | inr e ↦
      let done : is_status r.status applied ≡ true = ground arith in
      subst (λ s. Hop s apply_queued) (sym (status-eq r.status applied done))
        (Hop.once Edge.asked_again)
]
