-- ===== src/Budget/Reserve.antt =====
-- `reserve_execution_attempts` and `execution_budget_usage` of
-- src/azure_sql_mcp/performance_store.py.
use azure_sql_mcp.Shared.{
  ℕ, suc, ◌+◌, ◌-◌, max, Bool, true, false, ◌&&◌, not, Option, none, some, List, [], ◌∷◌, ◌++◌, any,
  leb, ltb, ◌==◌, if◌then◌else◌,
}
use azure_sql_mcp.Budget.{
  reserved, Reservation, Session, Binding, Store, invalid_value, unknown_contract,
  idempotency_conflict, fencing, budget_reserved, missing_reservation, integrity, Result, returned,
  ◌>>=◌, ◌>>◌, require, or_raise, expire, get_session, get_candidate, find_request, owns,
  reserved_attempts, consumed_attempts, has_reserved,
}

abbrev pub reservation_ttl : ℕ
reservation_ttl = 1800

abbrev pub cleanup_grace : ℕ
cleanup_grace = 60

-- The arguments. A blank owner is `none`; the run time is rounded up to whole seconds.
pub record Request : Type 0 where
  pub session_id : ℕ
  pub candidate_id : ℕ
  pub attempt_count : ℕ
  pub request_fingerprint : ℕ
  pub owner_reference : Option ℕ
  pub idempotency_key : Option ℕ
  pub max_runtime_seconds : Option ℕ

-- A reservation, and whether it is replayed.
pub record Reply : Type 0 where
  pub store : Store
  pub reservation : Reservation
  pub replayed : Bool

-- `_reservation_times`
unfoldable pub reservation_times : ℕ → Option ℕ → ℕ
reservation_times now none = now + reservation_ttl
reservation_times now (some runtime) = now + max reservation_ttl (runtime + cleanup_grace)

abbrev time_limit : Option Session → Option ℕ
time_limit none = none
time_limit (some s) = some s.time_limit_seconds

unfoldable pub runtime_seconds : Request → Store → Option ℕ
unfolding get_session
runtime_seconds q st = elim q.max_runtime_seconds [
  | some t ↦ some t
  | none ↦ time_limit (get_session q.session_id st.sessions)
]

unfoldable pub get_binding : ℕ → List Binding → Option Binding
get_binding k [] = none
get_binding k (b ∷ bs) = if b.idempotency_key == k then some b else get_binding k bs

abbrev pub same_fingerprint : ℕ → Option ℕ → Bool
same_fingerprint f none = false
same_fingerprint f (some g) = g == f

-- `_idempotent_aggregate_locked` in this scope: whether the key is bound, to this candidate and with
-- this fingerprint.
unfoldable pub is_bound : Request → Option Binding → Result Bool
is_bound q none = returned false
is_bound q (some b) = do
  require (b.aggregate_id == q.candidate_id) idempotency_conflict
  require (same_fingerprint q.request_fingerprint b.request_fingerprint) idempotency_conflict
  returned true

-- The binding that another key holds on the same request.
unfoldable pub is_bound_elsewhere : Request → List Binding → Bool
unfolding any
is_bound_elsewhere q = any (λ b.
    b.aggregate_id == q.candidate_id
    && same_fingerprint q.request_fingerprint b.request_fingerprint)

-- `_record_idempotency_locked`; a key that is there must be bound to the same request.
unfoldable pub record_binding : Request → ℕ → List Binding → Result (List Binding)
unfolding is_bound get_binding
record_binding q k bs = do
  bound ← is_bound q (get_binding k bs)
  returned (
      if bound
      then bs
      else bs
        ++ record {
          idempotency_key = k;
          aggregate_id = q.candidate_id;
          request_fingerprint = some q.request_fingerprint;
        }
          ∷ [])

abbrev pub with_key : Request → Option ℕ → List Binding → Result (List Binding)
with_key q none bs = returned bs
with_key q (some k) bs = record_binding q k bs

-- An existing reservation of the same request is the answer.
unfoldable pub replay : Request → Store → Reservation → Result Reply
unfolding owns
replay q st r = do
  require (r.candidate_id == q.candidate_id && r.attempt_count == q.attempt_count)
      idempotency_conflict
  require (owns r.owner_token q.owner_reference) fencing
  returned (record { store = st; reservation = r; replayed = true })

unfoldable pub new_reservation : Request → ℕ → Store → Reservation
unfolding reservation_times runtime_seconds
new_reservation q now st = record {
  reservation_id = st.next_id;
  session_id = q.session_id;
  candidate_id = q.candidate_id;
  request_fingerprint = q.request_fingerprint;
  attempt_count = q.attempt_count;
  dispatched_attempt_count = 0;
  status = reserved;
  owner_token = q.owner_reference;
  version = 0;
  expires_at = reservation_times now (runtime_seconds q st);
}

-- The part from `session = ...` on, behind the checks for replays. The unique index on reserved rows
-- admits one of a candidate.
unfoldable pub reserve_new : Request → ℕ → Store → Result Reply
unfolding get_session get_candidate reserved_attempts consumed_attempts new_reservation has_reserved
reserve_new q now st = do
  session ← or_raise (get_session q.session_id st.sessions) unknown_contract
  candidate ← or_raise (get_candidate q.candidate_id st.candidates) unknown_contract
  require (candidate.session_id == q.session_id) invalid_value
  let consumed = consumed_attempts q.session_id st
  let held = reserved_attempts q.session_id st.reservations
  require (leb (consumed + held + q.attempt_count) session.execution_limit) budget_reserved
  bindings ← with_key q q.idempotency_key st.bindings
  require (not (has_reserved q.candidate_id st.reservations)) integrity
  let r = new_reservation q now st
  returned (record {
    store = record st {
      reservations = st.reservations ++ r ∷ [];
      bindings = bindings;
      next_id = suc st.next_id;
    };
    reservation = r;
    replayed = false;
  })

-- A request that is found by its fingerprint; its key is bound, if it has one.
abbrev pub found_request : Request → ℕ → Store → Option Reservation → Result Reply
found_request q now st none = reserve_new q now st
found_request q now st (some r) = do
  reply ← replay q st r
  bindings ← with_key q q.idempotency_key st.bindings
  returned (record reply { store = record st { bindings = bindings } })

abbrev pub bound_request : Request → ℕ → Store → Bool → Result Reply
bound_request q now st true = do
  r ← or_raise (find_request q.session_id q.request_fingerprint st.reservations) missing_reservation
  require (r.candidate_id == q.candidate_id) missing_reservation
  require (r.attempt_count == q.attempt_count) idempotency_conflict
  require (owns r.owner_token q.owner_reference) fencing
  returned (record { store = st; reservation = r; replayed = true })
bound_request q now st false =
    require (not (is_bound_elsewhere q st.bindings)) idempotency_conflict
    >> found_request q now st (find_request q.session_id q.request_fingerprint st.reservations)

-- The body of the transaction, behind the expiry.
unfoldable pub reserve_in : Request → ℕ → Store → Option ℕ → Result Reply
unfolding is_bound get_binding
reserve_in q now st none =
    found_request q now st (find_request q.session_id q.request_fingerprint st.reservations)
reserve_in q now st (some k) = do
  bound ← is_bound q (get_binding k st.bindings)
  bound_request q now st bound

abbrev pub is_given : Option ℕ → Bool
is_given none = false
is_given (some o) = true

abbrev pub is_positive : Option ℕ → Bool
is_positive none = true
is_positive (some t) = ltb 0 t

unfoldable pub reserve_execution_attempts : Request → ℕ → Store → Result Reply
unfolding reserve_in expire
reserve_execution_attempts q now st = do
  require (ltb 0 q.attempt_count) invalid_value
  require (is_given q.owner_reference) invalid_value
  require (is_positive q.max_runtime_seconds) invalid_value
  reserve_in q now (record st { reservations = expire now st.reservations }) q.idempotency_key

pub record Usage : Type 0 where
  pub execution_limit : ℕ
  pub consumed : ℕ
  pub held : ℕ
  pub committed : ℕ
  pub remaining : ℕ

-- `execution_budget_usage`, with the store after the expiry.
unfoldable pub execution_budget_usage : ℕ → ℕ → Store → Result (Store × Usage)
unfolding expire get_session consumed_attempts reserved_attempts
execution_budget_usage s now st = do
  let st' = record st { reservations = expire now st.reservations }
  session ← or_raise (get_session s st'.sessions) unknown_contract
  let consumed = consumed_attempts s st'
  let held = reserved_attempts s st'.reservations
  returned (
    st',
    record {
      execution_limit = session.execution_limit;
      consumed = consumed;
      held = held;
      committed = consumed + held;
      remaining = session.execution_limit - (consumed + held);
    },
  )
