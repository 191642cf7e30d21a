-- ===== src/Meta/Runs.antt =====
-- The queue of pull runs: meta-conversion-api workers/pull-poller.ts, `createPullRun` of
-- services/lead-pull.admin.service.ts, `queueApply` and the closing statements of `applyRun` of
-- services/lead-apply.service.ts. Each function is one statement, or one transaction, on the rows
-- of scratch.meta_pull_runs; `now` is NOW(). A claim takes the oldest row: SKIP LOCKED, which passes
-- over a row that another statement holds at that moment, is left out.
pub mod Changes
pub mod Slots
pub mod Oldest
pub mod Edges
pub mod Moves
pub mod Origin
pub mod Fairness
pub mod Tests
use msq_lms.Base.{
  ℕ, ◌+◌, Bool, true, false, not, ◌&&◌, ◌||◌, Option, none, some, List, [], ◌∷◌, ◌++◌, map, filter,
  any, first, contains, or_else, or_option, ◌==◌, ltb, leb, if◌then◌else◌, ◌≡◌,
}
use msq_lms.Db.{Key}
use msq_lms.Errors.{AppError, not_found, conflict, Result, ok, err}
use msq_lms.Meta.{
  RunStatus, queued, running, completed, apply_queued, applying, applied, failed, TriggerKind,
  manual, scheduled, PullRun,
}

abbrev pub status_code : RunStatus → ℕ
status_code queued = 0
status_code running = 1
status_code completed = 2
status_code apply_queued = 3
status_code applying = 4
status_code applied = 5
status_code failed = 6

abbrev pub is_status : RunStatus → RunStatus → Bool
is_status a b = status_code a == status_code b

abbrev pub same_kind : TriggerKind → TriggerKind → Bool
same_kind manual manual = true
same_kind manual scheduled = false
same_kind scheduled manual = false
same_kind scheduled scheduled = true

-- LIVE_STATUSES
abbrev pub is_live : RunStatus → Bool
is_live queued = true
is_live running = true
is_live completed = false
is_live apply_queued = true
is_live applying = true
is_live applied = false
is_live failed = false

-- ORDER BY `at` LIMIT 1, among the rows that a WHERE clause selects.
pub older : (PullRun → ℕ) → PullRun → Option PullRun → PullRun
older at r none = r
older at r (some s) = if leb (at r) (at s) then r else s

pub oldest : (PullRun → Bool) → (PullRun → ℕ) → List PullRun → Option PullRun
unfolding older
oldest p at [] = none
oldest p at (r ∷ rs) = let rest = oldest p at rs in if p r then some (older at r rest) else rest

-- UPDATE … SET … WHERE id = …
pub update_run : Key → (PullRun → PullRun) → List PullRun → List PullRun
update_run id f rs = map (λ (r : PullRun). if r.id == id then f r else r) rs

pub run_claim : ℕ → PullRun → PullRun
run_claim now r = record r {
  status = running;
  started_at = some now;
  heartbeat_at = some now;
  updated_at = now;
}

pub claimed_by : (PullRun → PullRun) → Option PullRun → List PullRun → Option PullRun × List PullRun
unfolding update_run
claimed_by f none rs = (none, rs)
claimed_by f (some r) rs = (some (f r), update_run r.id f rs)

-- ORDER BY created_at over the queued runs.
pub next_pull : List PullRun → Option PullRun
unfolding oldest
next_pull rs =
    oldest (λ (r : PullRun). is_status r.status queued) (λ (r : PullRun). r.created_at) rs

pub claim_queued_run : ℕ → List PullRun → Option PullRun × List PullRun
unfolding claimed_by next_pull run_claim
claim_queued_run now rs = claimed_by (run_claim now) (next_pull rs) rs

pub apply_claim : ℕ → PullRun → PullRun
apply_claim now r = record r { status = applying; heartbeat_at = some now; updated_at = now }

-- ORDER BY updated_at over the runs whose Apply is queued.
pub next_apply : List PullRun → Option PullRun
unfolding oldest
next_apply rs =
    oldest (λ (r : PullRun). is_status r.status apply_queued) (λ (r : PullRun). r.updated_at) rs

-- The actor of the Apply is COALESCE(applied_by, created_by) of the run that is returned.
pub claim_queued_apply : ℕ → List PullRun → Option PullRun × List PullRun
unfolding claimed_by next_apply apply_claim
claim_queued_apply now rs = claimed_by (apply_claim now) (next_apply rs) rs

-- COALESCE(heartbeat_at, started_at, created_at)
pub last_sign : PullRun → ℕ
last_sign r = or_else (or_option r.heartbeat_at r.started_at) r.created_at

-- Its worker has been silent for more than `minutes`.
pub is_stale : ℕ → ℕ → PullRun → Bool
unfolding last_sign
is_stale minutes now r =
    (is_status r.status running || is_status r.status applying) && ltb (last_sign r + minutes) now

pub reap : ℕ → ℕ → PullRun → PullRun
unfolding is_stale
reap minutes now r =
    if is_stale minutes now r
    then if is_status r.status applying
      then record r { status = completed; updated_at = now }
      else record r {
        status = failed;
        finished_at = some (or_else r.finished_at now);
        updated_at = now;
      }
    else r

pub reap_stale_runs : ℕ → ℕ → List PullRun → List PullRun
unfolding reap
reap_stale_runs minutes now rs = map (reap minutes now) rs

pub heartbeat : ℕ → PullRun → PullRun
heartbeat now r = record r { heartbeat_at = some now; updated_at = now }

pub write_heartbeat : ℕ → Key → List PullRun → List PullRun
unfolding heartbeat update_run
write_heartbeat now id rs = update_run id (heartbeat now) rs

-- The four closing statements name the status that the worker left the run in.
pub finish : ℕ → PullRun → PullRun
finish now r =
    if is_status r.status running
    then record r {
      status = completed;
      finished_at = some now;
      heartbeat_at = some now;
      updated_at = now;
    }
    else r

pub fail : ℕ → PullRun → PullRun
fail now r =
    if is_status r.status running
    then record r { status = failed; finished_at = some now; updated_at = now }
    else r

pub finish_apply : ℕ → PullRun → PullRun
finish_apply now r =
    if is_status r.status applying
    then record r {
      status = applied;
      applied_at = some now;
      heartbeat_at = some now;
      updated_at = now;
    }
    else r

pub stop_apply : ℕ → PullRun → PullRun
stop_apply now r =
    if is_status r.status applying then record r { status = completed; updated_at = now } else r

pub finish_run : ℕ → Key → List PullRun → List PullRun
unfolding finish update_run
finish_run now id rs = update_run id (finish now) rs

pub fail_run : ℕ → Key → List PullRun → List PullRun
unfolding fail update_run
fail_run now id rs = update_run id (fail now) rs

pub apply_finished : ℕ → Key → List PullRun → List PullRun
unfolding finish_apply update_run
apply_finished now id rs = update_run id (finish_apply now) rs

pub apply_stopped : ℕ → Key → List PullRun → List PullRun
unfolding stop_apply update_run
apply_stopped now id rs = update_run id (stop_apply now) rs

-- The runs of one kind of a tenant.
pub in_slot : Key → TriggerKind → PullRun → Bool
in_slot tenant_id kind r = r.tenant_id == tenant_id && same_kind r.trigger_kind kind

pub new_run : Key → TriggerKind → Key → Key → ℕ → PullRun
new_run tenant_id manual actor id now = record {
  id = id;
  tenant_id = tenant_id;
  created_by = some actor;
  applied_by = none;
  status = queued;
  trigger_kind = manual;
  created_at = now;
  updated_at = now;
  started_at = none;
  heartbeat_at = none;
  finished_at = none;
  applied_at = none;
}
new_run tenant_id scheduled actor id now = record {
  id = id;
  tenant_id = tenant_id;
  created_by = none;
  applied_by = none;
  status = queued;
  trigger_kind = scheduled;
  created_at = now;
  updated_at = now;
  started_at = none;
  heartbeat_at = none;
  finished_at = none;
  applied_at = none;
}

-- `tenants` holds the ids of entity.tenants, and `id` is the one that the database gives the row.
pub create_pull_run :
    List Key → Key → TriggerKind → Key → Key → ℕ → List PullRun → Result (Key × List PullRun)
unfolding in_slot new_run
create_pull_run tenants tenant_id kind actor id now rs =
    if contains tenants tenant_id
    then if any (λ (r : PullRun). in_slot tenant_id kind r && is_live r.status) rs
      then err conflict
      else ok (
        id,
        filter (λ (r : PullRun). not (in_slot tenant_id kind r)) rs
            ++ new_run tenant_id kind actor id now ∷ [],
      )
    else err not_found

pub queue_claim : ℕ → Key → PullRun → PullRun
queue_claim now actor r = record r {
  status = apply_queued;
  applied_by = some actor;
  updated_at = now;
}

-- `pending` tells which runs have a pending staged row with an importable verdict.
pub can_apply : (Key → Bool) → PullRun → Bool
can_apply pending r = is_status r.status completed || is_status r.status applied && pending r.id

pub queue_apply :
    List Key → Key → (Key → Bool) → Key → Key → ℕ → List PullRun → Result (List PullRun)
unfolding can_apply queue_claim update_run
queue_apply tenants tenant_id pending actor id now rs =
    if contains tenants tenant_id
    then elim (first (filter (λ (r : PullRun). r.id == id && r.tenant_id == tenant_id) rs)) [
      | some r ↦
          if can_apply pending r
          then ok (update_run id (queue_claim now actor) rs)
          else err conflict
      | none ↦ err not_found
    ]
    else err not_found

-- One statement of a worker or of a request. Several workers and requests run at once, so any step
-- may follow any other.
pub data QueueStep : List PullRun → List PullRun → Type 0 where
  pull_claimed : (now : ℕ) (rs : List PullRun) → QueueStep rs (claim_queued_run now rs).1
  apply_claimed : (now : ℕ) (rs : List PullRun) → QueueStep rs (claim_queued_apply now rs).1
  reaped : (minutes now : ℕ) (rs : List PullRun) → QueueStep rs (reap_stale_runs minutes now rs)
  beat : (now : ℕ) (id : Key) (rs : List PullRun) → QueueStep rs (write_heartbeat now id rs)
  pull_finished : (now : ℕ) (id : Key) (rs : List PullRun) → QueueStep rs (finish_run now id rs)
  pull_failed : (now : ℕ) (id : Key) (rs : List PullRun) → QueueStep rs (fail_run now id rs)
  apply_done : (now : ℕ) (id : Key) (rs : List PullRun) → QueueStep rs (apply_finished now id rs)
  apply_dropped : (now : ℕ) (id : Key) (rs : List PullRun) → QueueStep rs (apply_stopped now id rs)
  created :
      (tenants : List Key) (tenant_id : Key) (kind : TriggerKind) (actor id : Key) (now : ℕ)
      {rs after : List PullRun} {given : Key}
      → any (λ (r : PullRun). r.id == id) rs ≡ false
      → create_pull_run tenants tenant_id kind actor id now rs ≡ ok (given, after)
      → QueueStep rs after
  apply_asked :
      (tenants : List Key) (tenant_id : Key) (pending : Key → Bool) (actor id : Key) (now : ℕ)
      {rs after : List PullRun}
      → queue_apply tenants tenant_id pending actor id now rs ≡ ok after
      → QueueStep rs after

pub data QueueSteps : List PullRun → List PullRun → Type 0 where
  no_step : (rs : List PullRun) → QueueSteps rs rs
  then_step :
      {rs between after : List PullRun}
      → QueueSteps rs between
      → QueueStep between after
      → QueueSteps rs after
