-- ===== src/Meta/Runs/Fairness.antt =====
-- Whom the queue serves: the oldest queued run, and a tenant whose worker died.
use msq_lms.Base.{
  ℕ, ◌≡◌, refl, sym, ap, ◌∙◌, Bool, true, false, not, ◌&&◌, some, List, [], ◌∷◌, any, Memᴰ, arith,
  ==_iff, contains, any-false,
}
use msq_lms.Db.{Key}
use msq_lms.Errors.{ok}
use msq_lms.Meta.{queued, TriggerKind, PullRun}
use msq_lms.Meta.Runs.{
  is_status, is_live, in_slot, update_run, claimed_by, next_pull, run_claim, claim_queued_run,
  is_stale, reap, reap_stale_runs, create_pull_run,
}
use msq_lms.Meta.Runs.Oldest.{IsOldest, oldest-IsOldest, oldest-some}
use msq_lms.Meta.Runs.Slots.{replaced}

module _ (id : Key) (f : PullRun → PullRun) where
  update_run-mem :
      {r : PullRun} {rs : List PullRun} → Memᴰ r rs → r.id ≡ id → Memᴰ (f r) (update_run id f rs)
  unfolding update_run
  update_run-mem {r} (Memᴰ.head {x} {xs} same) e =
      rw ((==_iff x.id id).1 (ap (λ (y : PullRun). y.id) (sym same) ∙ e)) (Memᴰ.head (ap f same))
  update_run-mem {r} (Memᴰ.tail {x} {xs} m) e = Memᴰ.tail (update_run-mem m e)

-- Where a run waits, the poller's claim gives it one: the run that was created first among those
-- that wait, which the table then holds as running since the time of the claim.
claim_queued_run-IsOldest :
    (now : ℕ) (rs : List PullRun) (s : PullRun)
    → Memᴰ s rs
    → is_status s.status queued ≡ true
    → (r : PullRun) × IsOldest
        (λ (x : PullRun). is_status x.status queued)
        (λ (x : PullRun). x.created_at)
        rs
        r
      × ((claim_queued_run now rs).0 ≡ some (run_claim now r))
      × Memᴰ (run_claim now r) (claim_queued_run now rs).1
unfolding claim_queued_run next_pull claimed_by
claim_queued_run-IsOldest now rs s m waits =
    let (r, found) =
      oldest-some (λ (x : PullRun). is_status x.status queued) (λ (x : PullRun). x.created_at) rs s
        m waits in
    let w =
      oldest-IsOldest (λ (x : PullRun). is_status x.status queued) (λ (x : PullRun). x.created_at)
        rs found in
    (r, w, rw found refl, rw found (update_run-mem r.id (run_claim now) w.member refl))

module _ (tenant_id : Key) (kind : TriggerKind) (minutes now : ℕ) where
  -- A run of the slot that waits for the poller, or that a worker still attends to.
  unfoldable pub attended : PullRun → Bool
  unfolding in_slot is_stale
  attended r = in_slot tenant_id kind r && is_live r.status && not (is_stale minutes now r)

  reaped_dead :
      (r : PullRun)
      → attended r ≡ false
      → (in_slot tenant_id kind (reap minutes now r) && is_live (reap minutes now r).status) ≡ false
  unfolding reap in_slot is_stale attended
  reaped_dead r h = ground arith

  slot_free :
      (rs : List PullRun)
      → any attended rs ≡ false
      → any
          (λ (r : PullRun). in_slot tenant_id kind r && is_live r.status)
          (reap_stale_runs minutes now rs)
        ≡ false
  unfolding reap_stale_runs
  slot_free [] h = refl
  slot_free (r ∷ rs) h =
      rw (reaped_dead r (any-false attended h (Memᴰ.head refl))) (slot_free rs (ground arith))

  -- A worker that dies locks no tenant out: where the live runs of a tenant's slot are all claimed
  -- and silent for longer than the limit, the reaper's next pass lets the tenant create a pull.
  pub reap_stale_runs-frees :
      (tenants : List Key) (actor id : Key) (rs : List PullRun)
      → contains tenants tenant_id ≡ true
      → any attended rs ≡ false
      → create_pull_run tenants tenant_id kind actor id now (reap_stale_runs minutes now rs)
        ≡ ok (id, replaced tenant_id kind actor id now (reap_stale_runs minutes now rs))
  unfolding create_pull_run
  reap_stale_runs-frees tenants actor id rs known h = rw (known, slot_free rs h) refl
