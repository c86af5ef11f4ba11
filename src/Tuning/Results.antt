-- ===== src/Tuning/Results.antt =====
-- `record_candidate_result` of src/azure_sql_mcp/tuning_sessions.py, between its reads and its save.
use azure_sql_mcp.Shared.{
  ℕ, suc, ◌+◌, Bool, true, false, ◌&&◌, ◌||◌, not, Option, none, some, List, ◌++◌, any, leb, ◌==◌,
  if◌then◌else◌, max,
}
use azure_sql_mcp.Tuning.{
  SessionStatus, CandidateState, is_terminal, Session, Candidate, invalid_transition,
  budget_exceeded, Result, returned, ◌>>=◌, ◌>>◌, require,
}
use azure_sql_mcp.Tuning.Transactions.{save_both}
use azure_sql_mcp.Tuning.Decide.{
  unique_after, candidate_in, is_past_deadline, is_created, unique, Decision,
  is_finalist_validation, is_active, is_screening, commits,
}

-- The arguments of `record_candidate_result`.
pub record Results : Type 0 where
  pub state : Option CandidateState
  pub screen_runs : ℕ
  pub finalist_runs : ℕ
  pub parameter_cases : ℕ
  pub executions : ℕ
  pub evidence_ids : List ℕ
  pub failure_code : Option ℕ

abbrev pub ends_candidate : Option CandidateState → Bool
ends_candidate none = false
ends_candidate (some st) = is_terminal st

abbrev pub screens : Option CandidateState → Bool
screens (some CandidateState.proposed) = true
screens (some CandidateState.screening) = true
screens _ = false

abbrev pub validates : Option CandidateState → Bool
validates (some CandidateState.finalist) = true
validates (some CandidateState.validating) = true
validates _ = false

abbrev pub next_state : Option CandidateState → SessionStatus → CandidateState
next_state (some st) status = st
next_state none status =
    if is_finalist_validation status then CandidateState.validating else CandidateState.screening

abbrev pub or_else : Option ℕ → Option ℕ → Option ℕ
or_else none old = old
or_else (some x) old = some x

unfoldable pub with_results : Results → SessionStatus → Candidate → Candidate
unfolding unique_after any
with_results r status c = record c {
  state = next_state r.state status;
  screen_runs = c.screen_runs + r.screen_runs;
  finalist_runs = c.finalist_runs + r.finalist_runs;
  parameter_cases = max c.parameter_cases r.parameter_cases;
  executions = c.executions + r.executions;
  evidence_ids = unique (c.evidence_ids ++ r.evidence_ids);
  failure_code = or_else r.failure_code c.failure_code;
  version = suc c.version;
}

-- `if runs and ...`: no test where there are none.
abbrev pub fits : ℕ → ℕ → ℕ → Bool
fits runs before limit = runs == 0 || leb (before + runs) limit

-- `total` is the sum over `list_candidates`.
unfoldable pub record_candidate_result :
    ℕ → Results → ℕ → Session → Option Candidate → ℕ → Result Decision
unfolding any is_past_deadline with_results
record_candidate_result cid r now s found total = do
  require (is_active s.status) invalid_transition
  c ← candidate_in s cid found
  require (not (is_terminal c.state)) invalid_transition
  require (ends_candidate r.state || not (is_past_deadline s now)) budget_exceeded
  require (not (is_created s.status) || (ends_candidate r.state && is_past_deadline s now))
      invalid_transition
  require (not (screens r.state) || is_screening s.status) invalid_transition
  require (not (validates r.state) || is_finalist_validation s.status) invalid_transition
  require (fits r.screen_runs c.screen_runs s.screen_runs_per_candidate) budget_exceeded
  require (fits r.finalist_runs c.finalist_runs s.finalist_runs_per_candidate) budget_exceeded
  require (leb (max c.parameter_cases r.parameter_cases) s.parameter_case_limit) budget_exceeded
  require (leb (total + r.executions) s.execution_limit) budget_exceeded
  returned (
      commits (
        save_both (record s { version = suc s.version }) (with_results r s.status c) s.version
          c.version))
