-- ===== src/Meta/Capi/OnceSent.antt =====
-- No event is reported twice.
use msq_lms.Base.{
  ℕ, ◌+◌, ◌≤◌, ◌≡◌, refl, subst, Bool, true, false, List, [], ◌∷◌, ◌++◌, filter, any, length, arith,
  Bool-cases, inl, inr,
}
use msq_lms.Db.{Key}
use msq_lms.Meta.Capi.{
  OutboundLog, CapiDb, CapiTriggerInput, CapiTriggerResult, is_sent_log, log_row,
  trigger_capi_event, CapiCall, trigger_all,
}
use msq_lms.Meta.Capi.Ladder.{Ends, skips, sends, trigger_capi_event-Ends}

abbrev pub deliveries : Key → Key → List OutboundLog → ℕ
deliveries lead_id event_name logs = length (filter (is_sent_log lead_id event_name) logs)

module _ (lead_id event_name : Key) where
  none_delivered :
      (logs : List OutboundLog)
      → any (is_sent_log lead_id event_name) logs ≡ false
      → deliveries lead_id event_name logs ≡ 0
  none_delivered [] h = refl
  none_delivered (l ∷ logs) h = ground (arith, none_delivered logs)

  deliveries-append :
      (logs : List OutboundLog) (l : OutboundLog)
      → deliveries lead_id event_name (logs ++ l ∷ [])
        ≡ deliveries lead_id event_name logs + deliveries lead_id event_name (l ∷ [])
  deliveries-append [] l = omega arith
  deliveries-append (x ∷ logs) l = ground (arith, deliveries-append logs l)

  -- The new log counts for this lead and event only if it is theirs.
  new_log_is_theirs :
      (new_id : Key) (delivered : Bool) (input : CapiTriggerInput) (meta_lead_id event : Key)
      → is_sent_log lead_id event_name (log_row new_id delivered input meta_lead_id event) ≡ true
      → (input.marketing_lead_id ≡ lead_id) × (event ≡ event_name)
  unfolding is_sent_log log_row
  new_log_is_theirs new_id delivered input meta_lead_id event h = (ground arith, ground arith)

  logged_once :
      (new_id : Key) (delivered : Bool) (input : CapiTriggerInput) (db : CapiDb)
      {answer : CapiTriggerResult × CapiDb}
      → Ends new_id delivered input db answer
      → deliveries lead_id event_name db.outbound_logs ≤ 1
      → deliveries lead_id event_name answer.1.outbound_logs ≤ 1
  logged_once new_id delivered input db (skips code) h = h
  logged_once new_id delivered input db (sends meta_lead_id event w fresh) h =
      let l = log_row new_id delivered input meta_lead_id event in
      let split = deliveries-append db.outbound_logs l in
      elim (Bool-cases (is_sent_log lead_id event_name l)) [
        | inl theirs ↦
            let (a, b) = new_log_is_theirs new_id delivered input meta_lead_id event theirs in
            let zero = none_delivered db.outbound_logs (
              subst (λ k. any (is_sent_log k event_name) db.outbound_logs ≡ false) a
                (subst (λ k. any (is_sent_log input.marketing_lead_id k) db.outbound_logs ≡ false) b
                  fresh)) in
            let one : deliveries lead_id event_name (l ∷ []) ≡ 1 = rw theirs refl in
            omega (arith, split, zero, one)
        | inr other ↦
            let no_more : deliveries lead_id event_name (l ∷ []) ≡ 0 = rw other refl in
            omega (arith, split, no_more, h)
      ]

  -- However many triggers fire one after the other, whatever Meta answers each, an event of a lead
  -- with at most one delivery in the log has at most one after them.
  pub trigger_all-once :
      (cs : List CapiCall) (db : CapiDb)
      → deliveries lead_id event_name db.outbound_logs ≤ 1
      → deliveries lead_id event_name (trigger_all cs db).outbound_logs ≤ 1
  unfolding trigger_all
  trigger_all-once [] db h = h
  trigger_all-once (c ∷ cs) db h =
      trigger_all-once cs (trigger_capi_event c.new_id c.delivered c.input db).1 (
        logged_once c.new_id c.delivered c.input db
          (trigger_capi_event-Ends c.new_id c.delivered c.input db) h)
