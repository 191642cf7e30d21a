-- ===== src/Meta/Runs/Tests.antt =====
-- A tenant with a scheduled pull that ran long ago and a manual one that waits.
use msq_lms.Base.{arith, ◌≡◌, ◌≤◌, refl, some, none, [], ◌∷◌, List}
use msq_lms.Errors.{ok}
use msq_lms.Meta.Runs.Changes.{runs_in}
use msq_lms.Meta.{queued, running, manual, scheduled, PullRun}
use msq_lms.Meta.Runs.{
  in_slot, older, oldest, next_pull, update_run, claimed_by, run_claim, claim_queued_run, last_sign,
  is_stale, reap, reap_stale_runs, finish, finish_run, new_run, create_pull_run, QueueStep,
  QueueSteps,
}
use msq_lms.Meta.Runs.Slots.{replaced, steps-runs_in}
use msq_lms.Meta.Runs.Fairness.{attended, reap_stale_runs-frees}

abbrev waiting : PullRun
waiting = record {
  id = 61;
  tenant_id = 9;
  created_by = some 4;
  applied_by = none;
  status = queued;
  trigger_kind = manual;
  created_at = 100;
  updated_at = 100;
  started_at = none;
  heartbeat_at = none;
  finished_at = none;
  applied_at = none;
}

abbrev stalled : PullRun
stalled = record {
  id = 62;
  tenant_id = 9;
  created_by = none;
  applied_by = none;
  status = running;
  trigger_kind = scheduled;
  created_at = 40;
  updated_at = 50;
  started_at = some 41;
  heartbeat_at = some 50;
  finished_at = none;
  applied_at = none;
}

abbrev table : List PullRun
table = waiting ∷ stalled ∷ []

run : Unit {0}
unfolding claim_queued_run next_pull oldest older claimed_by update_run run_claim reap_stale_runs
    reap is_stale last_sign in_slot new_run create_pull_run finish finish_run attended
run = tt

just_created : QueueSteps [] (replaced 9 manual 4 61 100 [])
unfolding run
just_created =
    QueueSteps.then_step (QueueSteps.no_step [])
      (QueueStep.created (9 ∷ []) 9 manual 4 61 100 {rs = []} {given = 61} refl refl)

pull_claim :
    QueueStep
      (replaced 9 manual 4 61 100 [])
      (claim_queued_run 101 (replaced 9 manual 4 61 100 [])).1
pull_claim = QueueStep.pull_claimed 101 (replaced 9 manual 4 61 100 [])

steps-runs_in_example :
    runs_in 9 manual (claim_queued_run 101 (replaced 9 manual 4 61 100 [])).1 ≤ 1
steps-runs_in_example =
    steps-runs_in 9 manual (QueueSteps.then_step just_created pull_claim) (omega arith)

reap_stale_runs-frees_example :
    create_pull_run (9 ∷ []) 9 scheduled 4 63 200 (reap_stale_runs 30 200 table)
    ≡ ok (63, replaced 9 scheduled 4 63 200 (reap_stale_runs 30 200 table))
unfolding run
reap_stale_runs-frees_example =
    reap_stale_runs-frees 9 scheduled 30 200 (9 ∷ []) 4 63 table refl refl
