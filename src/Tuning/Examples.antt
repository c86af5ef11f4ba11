-- ===== src/Tuning/Examples.antt =====
-- Two sessions on which the calls of src/azure_sql_mcp/tuning_sessions.py are tried.
use azure_sql_mcp.Shared.{ℕ, ◌≡◌, refl, ◌⊎◌, true, false, none, some, [], ◌∷◌, arith, any}
use azure_sql_mcp.Shared.Rows.{find_row, put_row, owned}
use azure_sql_mcp.Tuning.{
  ◌>>=◌, already_exists, Session, SessionStatus, Candidate, CandidateState, Store, Result, raised,
  returned, invalid_transition, concurrency, budget_exceeded,
}
use azure_sql_mcp.Tuning.Save.{
  get_session, get_candidate, list_candidates, save_locked, save_session_locked,
  save_candidate_locked, find_binding, idempotent_aggregate, record_idempotency, find_event,
  append_event,
}
use azure_sql_mcp.Tuning.Transactions.{
  Request, save, save_both, attach, commit, save_session, save_session_and_candidate,
  create_candidate_and_attach, next_candidate_ordinal, next_of_candidates, next_of_slots,
  replay_transition,
}
use azure_sql_mcp.Tuning.Decide.{
  commits, is_past_deadline, unique_after, add_candidate, new_candidate,
}
use azure_sql_mcp.Tuning.Results.{Results, with_results, record_candidate_result}
use azure_sql_mcp.Tuning.Create.{Limits, new_session, create_session}
use azure_sql_mcp.Tuning.Service.{
  mark_candidate_terminal, adds, records, marks_finalist, sum_executions, read_candidate,
  total_executions, decide, run_fresh, replays, run_call,
}
use azure_sql_mcp.Tuning.Locked.{SameRows}
use azure_sql_mcp.Tuning.History.{here, next, step}
use azure_sql_mcp.Tuning.Interleaved.{Interleaved, Interleaved-run_fresh}
use azure_sql_mcp.Tuning.Within.{IsWithin}
use azure_sql_mcp.Tuning.Kept.{Changes, Interleaved-IsWithin, Interleaved-Changes}
use azure_sql_mcp.Tuning.Ended.{ended_with, ended-run_call}
use azure_sql_mcp.Tuning.Refused.{marked_again-concurrency}
use azure_sql_mcp.Tuning.Repeated.{recorded_again-run_call}
use azure_sql_mcp.Tuning.Known.{keyed}

abbrev session : ℕ → SessionStatus → Session
session i status = record {
  session_id = i;
  status = status;
  deadline_at = some 100;
  max_candidates = 2;
  screen_runs_per_candidate = 3;
  finalist_runs_per_candidate = 5;
  parameter_case_limit = 4;
  execution_limit = 20;
  candidate_ids = 5 ∷ [];
  finalist_candidate_ids = [];
  selected_candidate_id = none;
  version = 2;
}

abbrev candidate_5 : Candidate
candidate_5 = record {
  candidate_id = 5;
  session_id = 1;
  ordinal = 0;
  state = CandidateState.screening;
  screen_runs = 1;
  finalist_runs = 0;
  parameter_cases = 2;
  executions = 4;
  evidence_ids = [];
  failure_code = none;
  version = 1;
}

abbrev store_of : Session → Candidate → Store
store_of s c = record {
  sessions = s ∷ session 2 SessionStatus.created ∷ [];
  candidates = c ∷ [];
  slots = [];
  bindings = [];
  events = [];
}

abbrev start : Store
start = store_of (session 1 SessionStatus.screening) candidate_5

abbrev screened : Results
screened = record {
  state = none;
  screen_runs = 2;
  finalist_runs = 0;
  parameter_cases = 3;
  executions = 6;
  evidence_ids = 8 ∷ [];
  failure_code = none;
}

abbrev cancelled_2 : Session
cancelled_2 = record (session 2 SessionStatus.cancelled) { version = 3 }

abbrev no_key : Request
no_key = record { idempotency_key = none; request_fingerprint = 70 }

abbrev after_of : Result Store → Store
after_of (returned st) = st
after_of (raised e) = start

abbrev before : Store
before = after_of (commit (save cancelled_2 2) no_key start)

abbrev after : Store
after = after_of (run_fresh 1 (records 5 screened) 10 (keyed 9 77) before)

-- The other session is cancelled between the reads and the save.
abbrev recorded : Interleaved 1 (records 5 screened) 10 (keyed 9 77) before after
unfolding run_fresh commit save_session save_session_and_candidate idempotent_aggregate get_session
    get_candidate save_session_locked save_candidate_locked save_locked find_row put_row
    append_event record_idempotency find_binding find_event replay_transition list_candidates owned
    read_candidate total_executions sum_executions decide record_candidate_result is_past_deadline
    with_results unique_after any
recorded = record {
  at_session = start;
  at_candidate = start;
  at_total = start;
  first = here;
  second = here;
  third = next here (step (save cancelled_2 2) no_key tt refl);
  session = session 1 SessionStatus.screening;
  decision = commits (
      save_both (record (session 1 SessionStatus.screening) { version = 3 })
        (with_results screened SessionStatus.screening candidate_5) 2 1);
  read = refl;
  decided = refl;
  settled = refl;
}

Interleaved-run_fresh_example :
    SameRows before after
    ⊎ (run_fresh 1 (records 5 screened) 10 (keyed 9 77) before ≡ returned after)
Interleaved-run_fresh_example =
    Interleaved-run_fresh 1 (records 5 screened) 10 (keyed 9 77) before after recorded

Interleaved-Changes_example : Changes 1 before after
Interleaved-Changes_example =
    Interleaved-Changes 1 (records 5 screened) 10 (keyed 9 77) before after recorded

abbrev completed_store : Store
completed_store = store_of (session 1 SessionStatus.completed) candidate_5

ended-run_call_example :
    (run_call 1 (records 5 screened) 10 (keyed 9 77) completed_store ≡ (
      replays 1 (records 5 screened) (keyed 9 77) completed_store >>= ended_with completed_store))
    × ((true ≡ true)
        ⊎ (run_call 1 (records 5 screened) 10 (keyed 9 77) completed_store
            ≡ raised invalid_transition))
unfolding get_session
ended-run_call_example =
    ended-run_call 1 (records 5 screened) 10 (keyed 9 77) completed_store
      (session 1 SessionStatus.completed) refl refl

-- A finalist of which a first result is recorded, so that it is validating.
abbrev validating_session : Session
validating_session = record (session 1 SessionStatus.finalist_validation) {
  finalist_candidate_ids = 5 ∷ [];
}

abbrev validating_5 : Candidate
validating_5 = record candidate_5 { state = CandidateState.validating; finalist_runs = 1 }

marked_again-concurrency_example :
    run_fresh 1 (marks_finalist 5) 10 no_key (store_of validating_session validating_5)
    ≡ raised concurrency
unfolding get_session get_candidate any is_past_deadline replay_transition
marked_again-concurrency_example =
    marked_again-concurrency 1 5 10 no_key (store_of validating_session validating_5)
      validating_session validating_5 refl refl refl refl refl refl refl refl refl refl

recorded_again-run_call_example :
    run_call 1 (records 5 screened) 50 (keyed 9 77) after ≡ returned after
unfolding run_call replays replay_transition run_fresh commit save_session
    save_session_and_candidate idempotent_aggregate get_session get_candidate save_session_locked
    save_candidate_locked save_locked find_row put_row append_event record_idempotency find_binding
    find_event list_candidates owned read_candidate total_executions sum_executions decide
    record_candidate_result is_past_deadline with_results unique_after any
recorded_again-run_call_example =
    recorded_again-run_call 1 5 screened 10 9 77 50 before after after refl here

abbrev no_candidates : Store
no_candidates = record start { sessions = session 1 SessionStatus.created ∷ []; candidates = [] }

abbrev added : Store
added = after_of (run_fresh 1 (adds 5 false) 10 no_key no_candidates)

abbrev adding : Interleaved 1 (adds 5 false) 10 no_key no_candidates added
unfolding run_fresh commit create_candidate_and_attach idempotent_aggregate get_session
    get_candidate save_session_locked save_candidate_locked save_locked find_row put_row
    append_event record_idempotency find_binding find_event list_candidates owned read_candidate
    total_executions sum_executions decide add_candidate is_past_deadline next_candidate_ordinal
    next_of_candidates next_of_slots
adding = record {
  at_session = no_candidates;
  at_candidate = no_candidates;
  at_total = no_candidates;
  first = here;
  second = here;
  third = here;
  session = session 1 SessionStatus.created;
  decision = commits (attach 1 (new_candidate 1 5) 2);
  read = refl;
  decided = refl;
  settled = refl;
}

no_candidates-IsWithin : IsWithin no_candidates
unfolding total_executions sum_executions list_candidates owned get_candidate find_row
no_candidates-IsWithin sid s e = record {
  executed = omega arith;
  candidates = omega arith;
  runs = λ cid c at own. let no : none ≡ some c = at in cc;
}

Interleaved-IsWithin_example : IsWithin added
Interleaved-IsWithin_example =
    Interleaved-IsWithin 1 (adds 5 false) 10 no_key no_candidates added adding
      no_candidates-IsWithin

-- More executions than are left.
over_budget :
    run_fresh 1 (records 5 (record screened { executions = 17 })) 10 no_key start
    ≡ raised budget_exceeded
unfolding run_fresh get_session get_candidate find_row list_candidates owned read_candidate
    total_executions sum_executions decide record_candidate_result is_past_deadline any
over_budget = refl

executions_after : total_executions 1 after ≡ 10
unfolding run_fresh commit save_session save_session_and_candidate idempotent_aggregate get_session
    get_candidate save_session_locked save_candidate_locked save_locked find_row put_row
    append_event record_idempotency find_binding find_event replay_transition list_candidates owned
    read_candidate total_executions sum_executions decide record_candidate_result is_past_deadline
    with_results unique_after any
executions_after = refl

-- Only a terminal state ends a candidate.
no_terminal_state :
    mark_candidate_terminal 1 5 CandidateState.validating none [] 10 no_key start
    ≡ raised invalid_transition
unfolding mark_candidate_terminal
no_terminal_state = refl

abbrev limits : Limits
limits = record {
  max_candidates = 2;
  screen_runs_per_candidate = 3;
  finalist_runs_per_candidate = 5;
  parameter_case_limit = 4;
  execution_limit = 20;
  time_limit_seconds = 90;
}

-- A session is created once.
created_twice : create_session (new_session 1 10 limits) no_key start ≡ raised already_exists
unfolding create_session get_session save_locked find_row put_row idempotent_aggregate find_binding
created_twice = refl
