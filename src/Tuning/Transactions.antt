-- ===== src/Tuning/Transactions.antt =====
-- The transactions of src/azure_sql_mcp/performance_store.py that the state machine asks for.
use azure_sql_mcp.Shared.{
  ℕ, suc, Bool, true, false, ◌&&◌, Option, none, some, List, [], ◌∷◌, ◌++◌, length, ltb, ◌==◌,
  if◌then◌else◌, max,
}
use azure_sql_mcp.Tuning.{
  Session, Candidate, Scope, session_save, tuning_transition, candidate_attach, Half, whole,
  candidate_half, session_half, Event, Binding, Slot, Store, invalid_value, not_found, concurrency,
  idempotency_conflict, budget_exceeded, Result, returned, ◌>>=◌, ◌>>◌, require, or_raise,
}
use azure_sql_mcp.Tuning.Save.{
  get_session, get_candidate, list_candidates, save_session_locked, save_candidate_locked,
  find_binding, idempotent_aggregate, record_idempotency, find_event, append_event,
}

-- The key and the fingerprint of a call.
pub record Request : Type 0 where
  pub idempotency_key : Option ℕ
  pub request_fingerprint : ℕ

abbrev pub event : Scope → Half → ℕ → Request → Event
event sc h id q = record {
  scope = sc;
  half = h;
  idempotency_key = q.idempotency_key;
  aggregate_id = id;
  request_fingerprint = q.request_fingerprint;
}

abbrev pub finish_save : Session → ℕ → Request → Store → Option ℕ → Result Store
finish_save s expected q st (some id) = do
  found ← or_raise (get_session id st) not_found
  returned st
finish_save s expected q st none = do
  saved ← save_session_locked s (some expected) st
  logged ← append_event (event session_save whole s.session_id q) saved
  record_idempotency session_save q.idempotency_key s.session_id q.request_fingerprint logged

-- `save_session`, through `_save`
unfoldable pub save_session : Session → ℕ → Request → Store → Result Store
unfolding idempotent_aggregate get_session save_session_locked append_event record_idempotency
save_session s expected q st = do
  bound ←
      idempotent_aggregate session_save q.idempotency_key (some s.session_id) q.request_fingerprint
        st.bindings
  finish_save s expected q st bound

-- `_replay_session_and_candidate_transition_locked`: whether the transition was made before.
abbrev pub replay_bound : ℕ → ℕ → ℕ → ℕ → Store → Option Binding → Result Bool
replay_bound sid cid k fp st none = returned false
replay_bound sid cid k fp st (some b) = do
  require (b.aggregate_id == sid) idempotency_conflict
  e ← or_raise (find_event tuning_transition candidate_half k st.events) idempotency_conflict
  require (e.aggregate_id == cid && e.request_fingerprint == fp) idempotency_conflict
  require (b.request_fingerprint == fp) idempotency_conflict
  c ← or_raise (get_candidate cid st) not_found
  require (c.session_id == sid) idempotency_conflict
  s ← or_raise (get_session sid st) not_found
  returned true

abbrev pub replay_keyed : ℕ → ℕ → Option ℕ → ℕ → Store → Result Bool
replay_keyed sid cid none fp st = returned false
replay_keyed sid cid (some k) fp st =
    replay_bound sid cid k fp st (find_binding tuning_transition k st.bindings)

unfoldable pub replay_transition : ℕ → ℕ → Request → Store → Result Bool
unfolding find_binding find_event get_candidate get_session
replay_transition sid cid q st = replay_keyed sid cid q.idempotency_key q.request_fingerprint st

abbrev pub finish_both : Session → Candidate → ℕ → ℕ → Request → Store → Bool → Result Store
finish_both s c expected_session expected_candidate q st true = returned st
finish_both s c expected_session expected_candidate q st false = do
  first ← save_candidate_locked c false (some expected_candidate) st
  second ← save_session_locked s (some expected_session) first
  third ← append_event (event tuning_transition candidate_half c.candidate_id q) second
  fourth ← append_event (event tuning_transition session_half s.session_id q) third
  record_idempotency tuning_transition q.idempotency_key s.session_id q.request_fingerprint fourth

-- `save_session_and_candidate`
unfoldable pub save_session_and_candidate :
    Session → Candidate → ℕ → ℕ → Request → Store → Result Store
unfolding replay_transition save_candidate_locked save_session_locked append_event
    record_idempotency
save_session_and_candidate s c expected_session expected_candidate q st = do
  require (c.session_id == s.session_id) invalid_value
  replayed ← replay_transition s.session_id c.candidate_id q st
  finish_both s c expected_session expected_candidate q st replayed

-- `_next_candidate_ordinal_locked`; both take one more than each ordinal, and 0 where there is none.
unfoldable pub next_of_candidates : List Candidate → ℕ
next_of_candidates [] = 0
next_of_candidates (c ∷ cs) = max (suc c.ordinal) (next_of_candidates cs)

unfoldable pub next_of_slots : ℕ → List Slot → ℕ
next_of_slots sid [] = 0
next_of_slots sid (x ∷ xs) =
    let rest = next_of_slots sid xs in
    if x.session_id == sid then max (suc x.ordinal) rest else rest

unfoldable pub next_candidate_ordinal : ℕ → Store → ℕ
unfolding next_of_candidates next_of_slots list_candidates
next_candidate_ordinal sid st =
    max (next_of_candidates (list_candidates sid st)) (next_of_slots sid st.slots)

abbrev pub attached : Session → Candidate → Session
attached s c = record s {
  candidate_ids = s.candidate_ids ++ c.candidate_id ∷ [];
  version = suc s.version;
}

-- That slots have distinct request fingerprints is tested at the insertion in Slots alone.
abbrev pub finish_attach : ℕ → Candidate → ℕ → Request → Store → Option ℕ → Result Store
finish_attach sid c expected q st (some id) = do
  found ← or_raise (get_candidate id st) not_found
  returned st
finish_attach sid c expected q st none = do
  current ← or_raise (get_session sid st) not_found
  require (current.version == expected) concurrency
  require (ltb (length (list_candidates sid st)) current.max_candidates) budget_exceeded
  let ordinal = next_candidate_ordinal sid st
  let slotted = record st {
    slots = st.slots ++ record { session_id = sid; ordinal = ordinal } ∷ [];
  }
  first ← save_candidate_locked (record c { ordinal = ordinal }) true none slotted
  second ← save_session_locked (attached current c) (some current.version) first
  third ← append_event (event candidate_attach candidate_half c.candidate_id q) second
  fourth ← append_event (event candidate_attach session_half sid q) third
  record_idempotency candidate_attach q.idempotency_key c.candidate_id q.request_fingerprint fourth

-- `create_candidate_and_attach` with no slot reserved before, as the state machine calls it.
unfoldable pub create_candidate_and_attach : ℕ → Candidate → ℕ → Request → Store → Result Store
unfolding idempotent_aggregate get_candidate get_session list_candidates next_candidate_ordinal
    save_candidate_locked save_session_locked append_event record_idempotency
create_candidate_and_attach sid c expected q st = do
  require (c.session_id == sid) invalid_value
  bound ←
      idempotent_aggregate candidate_attach q.idempotency_key none q.request_fingerprint st.bindings
  finish_attach sid c expected q st bound

-- What a call of the state machine asks the store to do at its end.
pub data Commit : Type 0 where
  save : Session → ℕ → Commit
  save_both : Session → Candidate → ℕ → ℕ → Commit
  attach : ℕ → Candidate → ℕ → Commit

unfoldable pub commit : Commit → Request → Store → Result Store
unfolding save_session save_session_and_candidate create_candidate_and_attach
commit (save s expected) q st = save_session s expected q st
commit (save_both s c expected expected_candidate) q st =
    save_session_and_candidate s c expected expected_candidate q st
commit (attach sid c expected) q st = create_candidate_and_attach sid c expected q st
