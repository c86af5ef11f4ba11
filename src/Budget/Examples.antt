-- ===== src/Budget/Examples.antt =====
-- A session on which the budget's operations are tried; src/azure_sql_mcp/performance_store.py.
use azure_sql_mcp.Shared.{
  false, ◌&&◌, not, ℕ, ◌+◌, ◌≤◌, true, none, some, List, [], ◌∷◌, arith, ◌≡◌, refl, any,
}
use azure_sql_mcp.Budget.{
  Status, reserved, completed, expired, expire, integrity, has_reserved, raised, Reservation,
  Candidate, Store, Session, returned, charge, reserved_attempts, consumed_attempts, get_candidate,
  find_request,
}
use azure_sql_mcp.Budget.Reserve.{
  Request, Reply, is_bound_elsewhere, record_binding, reserve_new, execution_budget_usage,
  reserve_execution_attempts,
}
use azure_sql_mcp.Budget.Update.{complete, release, Report, update_execution_reservation}
use azure_sql_mcp.Budget.Ledger.{charged_attempts}
use azure_sql_mcp.Budget.Bound.{charged-le-committed}
use azure_sql_mcp.Shared.Raising.{OkOf}
use azure_sql_mcp.Budget.Limit.{IsWithin}
use azure_sql_mcp.Budget.Run.{
  run, run-IsWithin, Call, reserves, reports, reads_usage, saves_candidates,
}
use azure_sql_mcp.Budget.Repeat.{Returns, Repeats, reserve-Repeats}
use azure_sql_mcp.Budget.Stored.{IsStored, update-IsStored}
use azure_sql_mcp.Budget.Quote.{is_ok, is_left, reserve-is_left, update-expired}

abbrev session_1 : Session
session_1 = record { session_id = 1; execution_limit = 10; time_limit_seconds = 3600 }

abbrev candidate_5 : Candidate
candidate_5 = record { candidate_id = 5; session_id = 1; executions = 2 }

abbrev fresh_store : Store
fresh_store = record {
  sessions = session_1 ∷ [];
  candidates = candidate_5 ∷ [];
  reservations = [];
  bindings = [];
  next_id = 0;
}

abbrev request : Request
request = record {
  session_id = 1;
  candidate_id = 5;
  attempt_count = 6;
  request_fingerprint = 77;
  owner_reference = some 3;
  idempotency_key = none;
  max_runtime_seconds = none;
}

abbrev report : Report
report = record {
  reservation_id = 0;
  outcome = release;
  dispatched_attempt_count = some 0;
  owner_reference = some 3;
  expected_version = none;
}

abbrev row : Status → Reservation
row st = record {
  reservation_id = 0;
  session_id = 1;
  candidate_id = 5;
  request_fingerprint = 77;
  attempt_count = 6;
  dispatched_attempt_count = 0;
  status = st;
  owner_token = some 3;
  version = 0;
  expires_at = 1800;
}

abbrev used_store : Status → Store
used_store st = record fresh_store { reservations = row st ∷ [] }

-- A second request waits until the first one is released, which a release in time does.
abbrev calls : List (ℕ × Call)
calls =
    (0, reserves request)
    ∷ (5, reserves (record request { request_fingerprint = 78 }))
    ∷ (9, reports report)
    ∷ (10, saves_candidates (record candidate_5 { executions = 12 } ∷ []))
    ∷ (11, reserves (record request { request_fingerprint = 78 }))
    ∷ (12, reads_usage 1)
    ∷ []

fresh_store-IsWithin : IsWithin fresh_store
unfolding IsWithin charged_attempts
fresh_store-IsWithin s x e = ground arith

run-IsWithin_example : IsWithin (run calls fresh_store)
run-IsWithin_example = run-IsWithin calls fresh_store fresh_store-IsWithin

charged-le-committed_example :
    charged_attempts 1 (used_store expired).reservations
    ≤ consumed_attempts 1 (used_store expired)
      + reserved_attempts 1 (used_store expired).reservations
charged-le-committed_example = charged-le-committed 1 (used_store expired)

reserve-is_left_example :
    is_ok (reserve_execution_attempts request 0 fresh_store)
    ≡ (is_left 6 (execution_budget_usage 1 0 fresh_store) && not (has_reserved 5 []))
unfolding any reserve_execution_attempts execution_budget_usage get_candidate find_request
reserve-is_left_example =
    reserve-is_left request 0 3 fresh_store candidate_5 refl refl (ground arith) refl refl refl refl

update-expired_example :
    OkOf
      (λ (x : Store × Reservation). charge x.1 ≡ 6)
      (update_execution_reservation report 2000 (used_store expired))
unfolding update_execution_reservation
update-expired_example = update-expired report 2000 (used_store expired) (row expired) refl refl

-- The release after the reservation is expired changes nothing.
late_release :
    update_execution_reservation report 2000 (used_store expired)
    ≡ returned (used_store expired, row expired)
unfolding update_execution_reservation
late_release = refl

-- A small second request of a candidate with a reservation is refused, though attempts are left.
second_reservation :
    reserve_execution_attempts
      (record request { attempt_count = 1; request_fingerprint = 78 })
      9
      (used_store reserved)
    ≡ raised integrity
unfolding reserve_execution_attempts any find_request reserve_new
second_reservation = refl

first_reservation : is_ok (reserve_execution_attempts request 0 fresh_store) ≡ true
unfolding reserve_execution_attempts any find_request reserve_new
first_reservation = refl

abbrev keyed_request : Request
keyed_request = record request { idempotency_key = some 9 }

abbrev first_reply : Reply
first_reply = record {
  store = record {
    sessions = session_1 ∷ [];
    candidates = candidate_5 ∷ [];
    reservations = record (row reserved) { expires_at = 3660 } ∷ [];
    bindings = record { idempotency_key = 9; aggregate_id = 5; request_fingerprint = some 77 } ∷ [];
    next_id = 1;
  };
  reservation = record (row reserved) { expires_at = 3660 };
  replayed = false;
}

reserve-Repeats_example :
    Returns
      (Repeats keyed_request (expire 9000 first_reply.store.reservations) 0)
      (reserve_execution_attempts keyed_request 9000 first_reply.store)
unfolding reserve_execution_attempts find_request reserve_new any is_bound_elsewhere record_binding
reserve-Repeats_example = reserve-Repeats keyed_request 0 9000 fresh_store first_reply refl

abbrev report_4 : Report
report_4 = record report { outcome = complete; dispatched_attempt_count = some 4 }

update-IsStored_example :
    OkOf
      (IsStored 0 (row reserved))
      (update_execution_reservation report_4 20 (used_store reserved))
unfolding update_execution_reservation
update-IsStored_example = update-IsStored report_4 20 (used_store reserved) (row reserved) refl

completed_with_4 : update_execution_reservation report_4 20 (used_store reserved) ≡ (
    let done = record (row completed) { dispatched_attempt_count = 4; version = 1 } in
    returned (record fresh_store { reservations = done ∷ [] }, done))
unfolding update_execution_reservation
completed_with_4 = refl
