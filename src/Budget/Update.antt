-- ===== src/Budget/Update.antt =====
-- `complete_execution_attempts` and `release_execution_attempts` of
-- src/azure_sql_mcp/performance_store.py, and the update both call.
use azure_sql_mcp.Shared.{
  ℕ, suc, ◌+◌, ◌-◌, Bool, true, false, ◌&&◌, not, Option, none, some, List, [], ◌∷◌, leb, ◌==◌,
  if◌then◌else◌,
}
use azure_sql_mcp.Budget.{
  Status, reserved, completed, released, expired, Reservation, Store, invalid_value,
  unknown_contract, concurrency, fencing, Result, returned, ◌>>=◌, ◌>>◌, require, or_raise,
  is_final, charge, expire, get_candidate, find_reservation, owns,
}

-- The two statuses that the update takes.
pub data Outcome : Type 0 where
  complete release : Outcome

abbrev pub status_of : Outcome → Status
status_of complete = completed
status_of release = released

abbrev min : ℕ → ℕ → ℕ
min a b = if leb a b then a else b

-- prior_charged: the other final reservations of the same session and candidate
unfoldable pub prior_charged : Reservation → List Reservation → ℕ
prior_charged row [] = 0
prior_charged row (r ∷ rs) =
    (if r.session_id == row.session_id
        && r.candidate_id == row.candidate_id
        && not (r.reservation_id == row.reservation_id)
        && is_final r.status
      then charge r
      else 0)
    + prior_charged row rs

-- `_resolve_dispatched_attempt_count_locked`
unfoldable pub resolve_dispatched_attempt_count : Reservation → Option ℕ → Store → Result ℕ
unfolding prior_charged get_candidate
resolve_dispatched_attempt_count row (some count) st =
    require (leb count row.attempt_count) invalid_value >> returned count
resolve_dispatched_attempt_count row none st = do
  candidate ← or_raise (get_candidate row.candidate_id st.candidates) unknown_contract
  returned (min (candidate.executions - prior_charged row st.reservations) row.attempt_count)

-- UPDATE ... WHERE reservation_id = ?, on the one row with this primary key
unfoldable pub put_reservation : Reservation → List Reservation → List Reservation
put_reservation r' [] = []
put_reservation r' (r ∷ rs) =
    let rest = put_reservation r' rs in
    if r.reservation_id == r'.reservation_id then r' ∷ rs else r ∷ rest

abbrev pub expects : Option ℕ → ℕ → Bool
expects none version = true
expects (some v) version = version == v

-- The row behind an update, with its charge resolved.
unfoldable pub finish : Status → Outcome → ℕ → Reservation → Reservation
finish reserved out count row = record row {
  status = status_of out;
  dispatched_attempt_count = count;
  version = suc row.version;
}
finish expired complete count row = record row {
  status = completed;
  dispatched_attempt_count = row.attempt_count;
  version = suc row.version;
}
finish _ out count row = row

abbrev pub is_open : Status → Bool
is_open reserved = true
is_open expired = true
is_open _ = false

-- The part from the test of the status on.
unfoldable pub close_reservation :
    Outcome → Option ℕ → Reservation → Store → Result (Store × Reservation)
unfolding resolve_dispatched_attempt_count finish put_reservation
close_reservation out dispatched row st =
    if is_open row.status
    then (do
      count ← resolve_dispatched_attempt_count row dispatched st
      let row' = finish row.status out count row
      returned (record st { reservations = put_reservation row' st.reservations }, row'))
    else returned (st, row)

-- The arguments of both entry points.
pub record Report : Type 0 where
  pub reservation_id : ℕ
  pub outcome : Outcome
  pub dispatched_attempt_count : Option ℕ
  pub owner_reference : Option ℕ
  pub expected_version : Option ℕ

-- `_update_execution_reservation`
unfoldable pub update_execution_reservation : Report → ℕ → Store → Result (Store × Reservation)
unfolding expire find_reservation owns close_reservation
update_execution_reservation p now st = do
  let st' = record st { reservations = expire now st.reservations }
  row ← or_raise (find_reservation p.reservation_id st'.reservations) unknown_contract
  require (owns row.owner_token p.owner_reference) fencing
  require (expects p.expected_version row.version) concurrency
  close_reservation p.outcome p.dispatched_attempt_count row st'
