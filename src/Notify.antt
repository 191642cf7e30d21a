-- ===== src/Notify.antt =====
-- Who is told of what: notifications-service connections/manager.ts and
-- services/followup-checker.ts. A message to a client is a row of what has been sent; a write to a
-- closed stream, which the code swallows, counts as sent there as well. The rows that a tick of the
-- checker reads are its argument, since the schedule columns are not in the tables of this library,
-- and web push is left out.
pub mod Sight
pub mod Once
pub mod Tests
use Prim.Native.String.{String}
use text.Mathlib.Text.{◌==◌ as str_eq}
use msq_lms.Base.{
  ℕ, suc, Bool, true, false, not, ◌&&◌, ◌||◌, Option, none, some, List, [], ◌∷◌, ◌++◌, map, ◌==◌,
  ltb, if◌then◌else◌, column_is, is_none, filter, any, is_empty,
}
use msq_lms.Db.{Key}
use msq_lms.Authz.{LmsRanks, get_rules_for_tenant, can_view_unassigned_leads}

-- connections/manager.ts

pub record LeadEvent : Type 0 where
  pub lead_id : Key
  pub org_id : Key
  pub tenant_id : Key
  pub assigned_user_id : Option Key
  pub actor_id : Key

pub record ConnectedClient : Type 0 where
  pub id : Key
  pub user_id : Key
  pub org_id : Key
  pub tenant_id : Key
  pub role : String
  pub rank : ℕ

pub sees_unassigned : LmsRanks → ConnectedClient → LeadEvent → Bool
sees_unassigned ranks client event =
    is_none event.assigned_user_id
    && can_view_unassigned_leads (get_rules_for_tenant ranks client.tenant_id) client.rank

pub can_see_event : LmsRanks → ConnectedClient → LeadEvent → Bool
can_see_event ranks client event =
    if str_eq client.role "super_admin"
    then true
    else if str_eq client.role "tenant_admin"
    then client.tenant_id == event.tenant_id
    else if not (client.org_id == event.org_id)
    then false
    else if str_eq client.role "org_admin"
    then true
    else if sees_unassigned ranks client event
    then true
    else column_is event.assigned_user_id client.user_id || client.user_id == event.actor_id

-- The map of clients, in insertion order: an id that is there keeps its place.
pub add_client : ConnectedClient → List ConnectedClient → List ConnectedClient
add_client client [] = client ∷ []
add_client client (c ∷ cs) = if c.id == client.id then client ∷ cs else c ∷ add_client client cs

pub remove_client : Key → List ConnectedClient → List ConnectedClient
remove_client id cs = filter (λ (c : ConnectedClient). not (c.id == id)) cs

-- The counts of a broadcast, and the clients that it wrote to.
pub record Broadcast : Type 0 where
  pub sent : ℕ
  pub skipped : ℕ
  pub recipients : List ConnectedClient

pub broadcast_from : LmsRanks → LeadEvent → List ConnectedClient → Broadcast → Broadcast
broadcast_from ranks event [] b = b
broadcast_from ranks event (c ∷ cs) b = broadcast_from ranks event cs (
    if can_see_event ranks c event
    then record b { sent = suc b.sent; recipients = b.recipients ++ c ∷ [] }
    else record b { skipped = suc b.skipped })

pub broadcast : LmsRanks → List ConnectedClient → LeadEvent → Broadcast
broadcast ranks clients event =
    broadcast_from ranks event clients (record { sent = 0; skipped = 0; recipients = [] })

-- With the branch that the follow-up checker passes.
pub is_session_of : Key → Key → ConnectedClient → Bool
is_session_of user_id org_id c = c.user_id == user_id && c.org_id == org_id

pub send_to_user : List ConnectedClient → Key → Key → Bool × List ConnectedClient
send_to_user clients user_id org_id =
    (any (is_session_of user_id org_id) clients, filter (is_session_of user_id org_id) clients)

-- services/followup-checker.ts

pub record FollowUpLead : Type 0 where
  pub id : Key
  pub assigned_user_id : Key
  pub scheduled_at : ℕ
  pub org_id : Key

-- The text of a lead's id and its schedule.
pub record FollowUpKey : Type 0 where
  pub lead_id : Key
  pub scheduled_at : ℕ

pub same_key : FollowUpKey → FollowUpKey → Bool
same_key a b = a.lead_id == b.lead_id && a.scheduled_at == b.scheduled_at

pub has_key : List FollowUpKey → FollowUpKey → Bool
has_key keys key = any (λ k. same_key k key) keys

pub record Checker : Type 0 where
  pub notified_due_keys : List FollowUpKey
  pub notified_missed_keys : List FollowUpKey
  pub last_reset_date : Key

pub record Notice : Type 0 where
  pub overdue : Bool
  pub key : FollowUpKey
  pub sessions : List ConnectedClient

pub reset_if_new_day : Key → Checker → Checker
reset_if_new_day today st =
    if today == st.last_reset_date
    then st
    else record { notified_due_keys = []; notified_missed_keys = []; last_reset_date = today }

pub key_of : FollowUpLead → FollowUpKey
key_of row = record { lead_id = row.id; scheduled_at = row.scheduled_at }

-- The set that a notice of this kind is looked up in.
pub keys_of : Bool → Checker → List FollowUpKey
keys_of overdue st = if overdue then st.notified_missed_keys else st.notified_due_keys

pub add_key : Bool → FollowUpKey → Checker → Checker
add_key overdue key st =
    if overdue
    then record st { notified_missed_keys = key ∷ st.notified_missed_keys }
    else record st { notified_due_keys = key ∷ st.notified_due_keys }

pub check_rows : List ConnectedClient → ℕ → List FollowUpLead → Checker → Checker × List Notice
check_rows clients now [] st = (st, [])
check_rows clients now (row ∷ rows) st =
    let overdue = ltb row.scheduled_at now in
    let key = key_of row in
    let seen = has_key (keys_of overdue st) key in
    let rest = check_rows clients now rows (if seen then st else add_key overdue key st) in
    (
      rest.0,
      if seen
          then rest.1
          else record {
            overdue = overdue;
            key = key;
            sessions = (send_to_user clients row.assigned_user_id row.org_id).1;
          }
            ∷ rest.1,
    )

-- What one run of the poller finds: who is connected, the time, and the rows.
pub record Tick : Type 0 where
  pub clients : List ConnectedClient
  pub now : ℕ
  pub rows : List FollowUpLead

pub check_follow_ups : Key → Tick → Checker → Checker × List Notice
check_follow_ups today t st = check_rows t.clients t.now t.rows (reset_if_new_day today st)

-- The runs of one day, one after the other.
pub run_ticks : Key → List Tick → Checker → Checker × List Notice
run_ticks today [] st = (st, [])
run_ticks today (t ∷ ts) st =
    let first_run = check_follow_ups today t st in
    let rest = run_ticks today ts first_run.0 in (rest.0, first_run.1 ++ rest.1)
