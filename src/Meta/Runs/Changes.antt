-- ===== src/Meta/Runs/Changes.antt =====
-- Changes of runs that leave each in its slot.
use msq_lms.Base.{
  ℕ, suc, ◌+◌, ◌≤◌, ◌≡◌, refl, ap, ap₂, Bool, not, ◌&&◌, Option, none, some, List, [], ◌∷◌, ◌++◌,
  map, filter, length, arith, Bool-cases, inl, inr, ◌==◌, if◌then◌else◌,
}
use msq_lms.Db.{Key}
use msq_lms.Meta.{TriggerKind, PullRun}
use msq_lms.Meta.Runs.{
  in_slot, same_kind, update_run, claimed_by, run_claim, apply_claim, reap, heartbeat, finish, fail,
  finish_apply, stop_apply, queue_claim,
}

abbrev pub runs_in : Key → TriggerKind → List PullRun → ℕ
runs_in tenant_id kind rs = length (filter (in_slot tenant_id kind) rs)

-- A change of a run that leaves its tenant and its kind alone.
abbrev pub StaysIn : (PullRun → PullRun) → Type 0
StaysIn f = (r : PullRun) → ((f r).tenant_id ≡ r.tenant_id) × ((f r).trigger_kind ≡ r.trigger_kind)

pub at_id-StaysIn :
    (id : Key) (f : PullRun → PullRun)
    → StaysIn f
    → StaysIn (λ (r : PullRun). if r.id == id then f r else r)
at_id-StaysIn id f stays r = elim (Bool-cases (r.id == id)) [
  | inl e ↦ rw e (stays r)
  | inr e ↦ rw e (refl, refl)
]

module _ (tenant_id : Key) (kind : TriggerKind) where
  slot_stays :
      (f : PullRun → PullRun)
      → StaysIn f
      → (r : PullRun) → in_slot tenant_id kind (f r) ≡ in_slot tenant_id kind r
  unfolding in_slot
  slot_stays f stays r = ap₂ (λ t k. t == tenant_id && same_kind k kind) (stays r).0 (stays r).1

  pub runs_in-map :
      (f : PullRun → PullRun)
      → StaysIn f
      → (rs : List PullRun) → runs_in tenant_id kind (map f rs) ≡ runs_in tenant_id kind rs
  runs_in-map f stays [] = refl
  runs_in-map f stays (r ∷ rs) = elim (Bool-cases (in_slot tenant_id kind r)) [
    | inl e ↦ rw (slot_stays f stays r, e) (ap suc (runs_in-map f stays rs))
    | inr e ↦ rw (slot_stays f stays r, e) (runs_in-map f stays rs)
  ]

  pub runs_in-update_run :
      (id : Key) (f : PullRun → PullRun)
      → StaysIn f
      → (rs : List PullRun)
      → runs_in tenant_id kind (update_run id f rs) ≡ runs_in tenant_id kind rs
  unfolding update_run
  runs_in-update_run id f stays rs =
      runs_in-map (λ (r : PullRun). if r.id == id then f r else r) (at_id-StaysIn id f stays) rs

  pub runs_in-claimed_by :
      (f : PullRun → PullRun)
      → StaysIn f
      → (choice : Option PullRun) (rs : List PullRun)
      → runs_in tenant_id kind (claimed_by f choice rs).1 ≡ runs_in tenant_id kind rs
  unfolding claimed_by
  runs_in-claimed_by f stays none rs = refl
  runs_in-claimed_by f stays (some r) rs = runs_in-update_run r.id f stays rs

  pub slot_cleared :
      (rs : List PullRun)
      → runs_in tenant_id kind (filter (λ (r : PullRun). not (in_slot tenant_id kind r)) rs) ≡ 0
  slot_cleared [] = refl
  slot_cleared (r ∷ rs) = elim (Bool-cases (in_slot tenant_id kind r)) [
    | inl e ↦ rw e (slot_cleared rs)
    | inr e ↦ rw (e, e) (slot_cleared rs)
  ]

  pub runs_in-filter :
      (p : PullRun → Bool) (rs : List PullRun)
      → runs_in tenant_id kind (filter p rs) ≤ runs_in tenant_id kind rs
  runs_in-filter p [] = omega arith
  runs_in-filter p (r ∷ rs) = ground (arith, runs_in-filter p rs)

  pub runs_in-append :
      (xs ys : List PullRun)
      → runs_in tenant_id kind (xs ++ ys) ≡ runs_in tenant_id kind xs + runs_in tenant_id kind ys
  runs_in-append [] ys = omega arith
  runs_in-append (x ∷ xs) ys = ground (arith, runs_in-append xs ys)

pub run_claim-StaysIn : (now : ℕ) → StaysIn (run_claim now)
unfolding run_claim
run_claim-StaysIn now r = (refl, refl)

pub apply_claim-StaysIn : (now : ℕ) → StaysIn (apply_claim now)
unfolding apply_claim
apply_claim-StaysIn now r = (refl, refl)

pub heartbeat-StaysIn : (now : ℕ) → StaysIn (heartbeat now)
unfolding heartbeat
heartbeat-StaysIn now r = (refl, refl)

pub queue_claim-StaysIn : (now : ℕ) (actor : Key) → StaysIn (queue_claim now actor)
unfolding queue_claim
queue_claim-StaysIn now actor r = (refl, refl)

pub finish-StaysIn : (now : ℕ) → StaysIn (finish now)
unfolding finish
finish-StaysIn now r = (ground arith, ground arith)

pub fail-StaysIn : (now : ℕ) → StaysIn (fail now)
unfolding fail
fail-StaysIn now r = (ground arith, ground arith)

pub finish_apply-StaysIn : (now : ℕ) → StaysIn (finish_apply now)
unfolding finish_apply
finish_apply-StaysIn now r = (ground arith, ground arith)

pub stop_apply-StaysIn : (now : ℕ) → StaysIn (stop_apply now)
unfolding stop_apply
stop_apply-StaysIn now r = (ground arith, ground arith)

pub reap-StaysIn : (minutes now : ℕ) → StaysIn (reap minutes now)
unfolding reap
reap-StaysIn minutes now r = (ground arith, ground arith)
