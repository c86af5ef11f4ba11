-- ===== src/Tuning/Service.antt =====
-- The calls of `TuningSessionStateMachine`, src/azure_sql_mcp/tuning_sessions.py: what each reads, what
-- it decides, and the transaction at its end.
use azure_sql_mcp.Shared.{ℕ, ◌+◌, Bool, true, false, Option, none, some, List, [], ◌∷◌, ◌==◌}
use azure_sql_mcp.Tuning.{
  CandidateState, is_terminal, invalid_transition, Session, Candidate, Store, not_found,
  idempotency_conflict, candidate_attach, Result, returned, ◌>>=◌, ◌>>◌, require, or_raise,
}
use azure_sql_mcp.Tuning.Save.{get_session, get_candidate, list_candidates, idempotent_aggregate}
use azure_sql_mcp.Tuning.Transactions.{Request, commit, replay_transition}
use azure_sql_mcp.Tuning.Decide.{
  Decision, unchanged, commits, start_screening, mark_candidate_finalist,
  recover_candidate_for_finalist, complete_session, cancel_session, add_candidate,
}
use azure_sql_mcp.Tuning.Results.{Results, record_candidate_result}

pub data Call : Type 0 where
  starts_screening : Call
  adds : ℕ → Bool → Call
  marks_finalist : ℕ → Call
  records : ℕ → Results → Call
  recovers : ℕ → Call
  completes : Option ℕ → Bool → Call
  cancels : Call

unfoldable pub sum_executions : List Candidate → ℕ
sum_executions [] = 0
sum_executions (c ∷ cs) = c.executions + sum_executions cs

-- The candidate that a call reads, if it reads one.
abbrev pub candidate_of : Call → Option ℕ
candidate_of (marks_finalist cid) = some cid
candidate_of (records cid r) = some cid
candidate_of (recovers cid) = some cid
candidate_of (completes chosen scope) = chosen
candidate_of _ = none

abbrev pub read_over : Option ℕ → Store → Option Candidate
read_over none st = none
read_over (some cid) st = get_candidate cid st

unfoldable pub read_candidate : Call → Store → Option Candidate
unfolding get_candidate
read_candidate call st = read_over (candidate_of call) st

unfoldable pub total_executions : ℕ → Store → ℕ
unfolding sum_executions list_candidates
total_executions sid st = sum_executions (list_candidates sid st)

-- What is decided on a session, a candidate and a total that were read.
unfoldable pub decide : Call → ℕ → Session → Option Candidate → ℕ → Result Decision
unfolding start_screening add_candidate mark_candidate_finalist record_candidate_result
    recover_candidate_for_finalist complete_session cancel_session
decide starts_screening now s c total = start_screening now s
decide (adds cid has_lineage) now s c total = add_candidate cid has_lineage now s
decide (marks_finalist cid) now s c total = mark_candidate_finalist cid now s c
decide (records cid r) now s c total = record_candidate_result cid r now s c total
decide (recovers cid) now s c total = recover_candidate_for_finalist cid now s c
decide (completes chosen scope) now s c total = complete_session chosen scope s c
decide cancels now s c total = cancel_session s

abbrev pub settle : Request → Store → Decision → Result Store
settle q st unchanged = returned st
settle q st (commits cm) = commit cm q st

-- `get_idempotent_candidate_creation`, behind `replay_candidate_creation`: whether there is one.
abbrev created_before : ℕ → Store → Option ℕ → Result Bool
created_before sid st none = returned false
created_before sid st (some cid) = do
  c ← or_raise (get_candidate cid st) not_found
  require (c.session_id == sid) idempotency_conflict
  returned true

-- The replays that a call looks for before it reads.
unfoldable pub replays : ℕ → Call → Request → Store → Result Bool
unfolding replay_transition idempotent_aggregate get_candidate
replays sid (adds cid has_lineage) q st = do
  bound ←
      idempotent_aggregate candidate_attach q.idempotency_key none q.request_fingerprint st.bindings
  created_before sid st bound
replays sid (records cid r) q st = replay_transition sid cid q st
replays sid _ q st = returned false

-- The part of a call behind the replays, that nothing comes between: all is read from the store that it
-- is saved to.
unfoldable pub run_fresh : ℕ → Call → ℕ → Request → Store → Result Store
unfolding get_session read_candidate total_executions decide commit
run_fresh sid call now q st = do
  s ← or_raise (get_session sid st) not_found
  d ← decide call now s (read_candidate call st) (total_executions sid st)
  settle q st d

abbrev pub unless_replayed : ℕ → Call → ℕ → Request → Store → Bool → Result Store
unless_replayed sid call now q st true = returned st
unless_replayed sid call now q st false = run_fresh sid call now q st

unfoldable pub run_call : ℕ → Call → ℕ → Request → Store → Result Store
unfolding replays run_fresh
run_call sid call now q st = do
  replayed ← replays sid call q st
  unless_replayed sid call now q st replayed

unfoldable pub mark_candidate_terminal :
    ℕ → ℕ → CandidateState → Option ℕ → List ℕ → ℕ → Request → Store → Result Store
unfolding run_call
mark_candidate_terminal sid cid state failure_code evidence_ids now q st = do
  require (is_terminal state) invalid_transition
  run_call sid
      (records cid (record {
        state = some state;
        screen_runs = 0;
        finalist_runs = 0;
        parameter_cases = 0;
        executions = 0;
        evidence_ids = evidence_ids;
        failure_code = failure_code;
      }))
      now q st
