-- ===== src/Notify/Once.antt =====
-- No follow-up is notified twice on one day.
use msq_lms.Base.{
  ℕ, ◌+◌, ◌≡◌, ◌≤◌, refl, ap, ◌∙◌, subst, Bool, true, false, not, ◌&&◌, List, [], ◌∷◌, ◌++◌, arith,
  Bool-cases, inl, inr, filter, length, ltb, if◌then◌else◌, ==_iff,
}
use msq_lms.Db.{Key}
use msq_lms.Notify.{
  ConnectedClient, FollowUpLead, FollowUpKey, same_key, has_key, Checker, Notice, Tick,
  reset_if_new_day, key_of, keys_of, add_key, check_rows, check_follow_ups, run_ticks, send_to_user,
}

pub is_notice : Bool → FollowUpKey → Notice → Bool
is_notice true key n = n.overdue && same_key n.key key
is_notice false key n = not n.overdue && same_key n.key key

-- How often a follow-up was notified, as due or as missed.
abbrev pub count_notices : Bool → FollowUpKey → List Notice → ℕ
count_notices overdue key notices = length (filter (is_notice overdue key) notices)

abbrev pub known : Bool → FollowUpKey → Checker → ℕ
known overdue key st = if has_key (keys_of overdue st) key then 1 else 0

same_case :
    (kind overdue : Bool) (k key : FollowUpKey) (st : Checker) (sessions : List ConnectedClient)
    → same_key k key ≡ true
    → has_key (keys_of kind st) key ≡ false
    → count_notices overdue key (record { overdue = kind; key = k; sessions = sessions } ∷ [])
        + known overdue key st
      ≤ known overdue key (add_key kind k st)
unfolding add_key keys_of is_notice has_key
same_case true true k key st sessions e fresh = ground arith
same_case true false k key st sessions e fresh = ground arith
same_case false true k key st sessions e fresh = ground arith
same_case false false k key st sessions e fresh = ground arith

other_case :
    (kind overdue : Bool) (k key : FollowUpKey) (st : Checker) (sessions : List ConnectedClient)
    → same_key k key ≡ false
    → count_notices overdue key (record { overdue = kind; key = k; sessions = sessions } ∷ [])
        + known overdue key st
      ≤ known overdue key (add_key kind k st)
unfolding add_key keys_of is_notice has_key
other_case true true k key st sessions e = ground arith
other_case true false k key st sessions e = ground arith
other_case false true k key st sessions e = ground arith
other_case false false k key st sessions e = ground arith

module _ (overdue : Bool) (key : FollowUpKey) where
  count-append :
      (xs ys : List Notice)
      → count_notices overdue key (xs ++ ys)
        ≡ count_notices overdue key xs + count_notices overdue key ys
  count-append [] ys = omega arith
  count-append (x ∷ xs) ys = ground (arith, count-append xs ys)

  same_key-eq : (a b : FollowUpKey) → same_key a b ≡ true → a ≡ b
  unfolding same_key
  same_key-eq a b h =
      let e : a.lead_id ≡ b.lead_id = ground arith in
      let f : a.scheduled_at ≡ b.scheduled_at = ground arith in cc

  same_key_refl : (a : FollowUpKey) → same_key a a ≡ true
  unfolding same_key
  same_key_refl a = ground arith

  -- One new key: it counts once, where it was not known.
  known-add_key :
      (kind : Bool) (k : FollowUpKey) (st : Checker) (sessions : List ConnectedClient)
      → has_key (keys_of kind st) k ≡ false
      → count_notices overdue key (record { overdue = kind; key = k; sessions = sessions } ∷ [])
          + known overdue key st
        ≤ known overdue key (add_key kind k st)
  known-add_key kind k st sessions fresh = elim (Bool-cases (same_key k key)) [
    | inl e ↦
        same_case kind overdue k key st sessions e
          (subst (λ x. has_key (keys_of kind st) x ≡ false) (same_key-eq k key e) fresh)
    | inr e ↦ other_case kind overdue k key st sessions e
  ]

  check_rows-once :
      (clients : List ConnectedClient) (now : ℕ) (rows : List FollowUpLead) (st : Checker)
      → count_notices overdue key (check_rows clients now rows st).1 + known overdue key st
        ≤ known overdue key (check_rows clients now rows st).0
  unfolding check_rows
  check_rows-once clients now [] st = omega arith
  check_rows-once clients now (row ∷ rows) st =
      let kind = ltb row.scheduled_at now in
      elim (Bool-cases (has_key (keys_of kind st) (key_of row))) [
        | inl e ↦ rw e (check_rows-once clients now rows st)
        | inr e ↦
            let st' = add_key kind (key_of row) st in
            let sessions = (send_to_user clients row.assigned_user_id row.org_id).1 in
            let later = check_rows-once clients now rows st' in
            let one = known-add_key kind (key_of row) st sessions e in
            let split =
              count-append (record { overdue = kind; key = key_of row; sessions = sessions } ∷ [])
                (check_rows clients now rows st').1 in
            rw e (omega (arith, later, one, split))
      ]

  add_key_date :
      (kind : Bool) (k : FollowUpKey) (st : Checker)
      → (add_key kind k st).last_reset_date ≡ st.last_reset_date
  unfolding add_key
  add_key_date kind k st = ground arith

  check_rows_date :
      (clients : List ConnectedClient) (now : ℕ) (rows : List FollowUpLead) (st : Checker)
      → (check_rows clients now rows st).0.last_reset_date ≡ st.last_reset_date
  unfolding check_rows
  check_rows_date clients now [] st = refl
  check_rows_date clients now (row ∷ rows) st =
      let kind = ltb row.scheduled_at now in
      elim (Bool-cases (has_key (keys_of kind st) (key_of row))) [
        | inl e ↦ rw e (check_rows_date clients now rows st)
        | inr e ↦ rw e (
            check_rows_date clients now rows (add_key kind (key_of row) st)
            ∙ add_key_date kind (key_of row) st)
      ]

  reset_date : (today : Key) (st : Checker) → (reset_if_new_day today st).last_reset_date ≡ today
  unfolding reset_if_new_day
  reset_date today st = ground arith

  reset_same :
      (today : Key) (st : Checker) → st.last_reset_date ≡ today → reset_if_new_day today st ≡ st
  unfolding reset_if_new_day
  reset_same today st e = rw (e, (==_iff today today).1 refl)

  tick-once :
      (today : Key) (t : Tick) (st : Checker)
      → count_notices overdue key (check_follow_ups today t st).1
          + known overdue key (reset_if_new_day today st)
        ≤ known overdue key (check_follow_ups today t st).0
  unfolding check_follow_ups
  tick-once today t st = check_rows-once t.clients t.now t.rows (reset_if_new_day today st)

  tick_date :
      (today : Key) (t : Tick) (st : Checker)
      → (check_follow_ups today t st).0.last_reset_date ≡ today
  unfolding check_follow_ups
  tick_date today t st =
      check_rows_date t.clients t.now t.rows (reset_if_new_day today st) ∙ reset_date today st

  run_ticks-known :
      (today : Key) (ts : List Tick) (st : Checker)
      → st.last_reset_date ≡ today
      → count_notices overdue key (run_ticks today ts st).1 + known overdue key st ≤ 1
  unfolding run_ticks
  run_ticks-known today [] st e = ground arith
  run_ticks-known today (t ∷ ts) st e =
      let first_run = check_follow_ups today t st in
      let now_known = tick-once today t st in
      let later = run_ticks-known today ts first_run.0 (tick_date today t st) in
      let split = count-append first_run.1 (run_ticks today ts first_run.0).1 in
      let same = ap (known overdue key) (reset_same today st e) in
      omega (arith, now_known, later, split, same)

  -- However often the checker of one process runs on one day, and whoever is connected, a lead's
  -- follow-up at one scheduled time is notified at most once as due and at most once as missed. A
  -- process that starts anew starts without what the earlier one had notified.
  pub run_ticks-once :
      (today : Key) (ts : List Tick) (st : Checker)
      → count_notices overdue key (run_ticks today ts st).1 ≤ 1
  unfolding run_ticks
  run_ticks-once today [] st = omega arith
  run_ticks-once today (t ∷ ts) st =
      let first_run = check_follow_ups today t st in
      let now_known = tick-once today t st in
      let later = run_ticks-known today ts first_run.0 (tick_date today t st) in
      let split = count-append first_run.1 (run_ticks today ts first_run.0).1 in
      omega (arith, now_known, later, split)
