-- ===== src/Tuning.antt =====
-- Tuning sessions and candidates as they are stored: src/azure_sql_mcp/performance_contracts.py, and
-- the tables of src/azure_sql_mcp/performance_store.py that hold them. Identifiers, evidence,
-- fingerprints and failure codes are only compared, and are numbers; so are times.
pub mod Save
pub mod Transactions
pub mod Results
pub mod Decide
pub mod Service
pub mod Locked
pub mod Committed
pub mod Effect
pub mod Create
pub mod History
pub mod Asked
pub mod Recorded
pub mod Decided
pub mod Limits
pub mod Still
pub mod Interleaved
pub mod Examples
pub mod Within
pub mod Logs
pub mod Replayed
pub mod Known
pub mod Repeated
pub mod Kept
pub mod Refused
pub mod Ended
pub use azure_sql_mcp.Shared.Raising.{raised, returned, ◌>>=◌, ◌>>◌, require, or_raise}
use azure_sql_mcp.Shared.Raising.{Raising}
use azure_sql_mcp.Shared.{
  ℕ, suc, ◌+◌, ◌≤◌, Bool, true, false, Option, none, some, List, [], ◌∷◌, ◌++◌, ◌==◌, if◌then◌else◌,
  any,
}

pub data SessionStatus : Type 0 where
  created screening finalist_validation completed cancelled : SessionStatus

pub data CandidateState : Type 0 where
  proposed screening finalist validating : CandidateState
  improved performance_only neutral regressed equivalence_failed inconclusive cleanup_required :
      CandidateState

-- TERMINAL_CANDIDATE_STATES
abbrev pub is_terminal : CandidateState → Bool
is_terminal CandidateState.proposed = false
is_terminal CandidateState.screening = false
is_terminal CandidateState.finalist = false
is_terminal CandidateState.validating = false
is_terminal _ = true

pub record Session : Type 0 where
  pub session_id : ℕ
  pub status : SessionStatus
  pub deadline_at : Option ℕ
  pub max_candidates : ℕ
  pub screen_runs_per_candidate : ℕ
  pub finalist_runs_per_candidate : ℕ
  pub parameter_case_limit : ℕ
  pub execution_limit : ℕ
  pub candidate_ids : List ℕ
  pub finalist_candidate_ids : List ℕ
  pub selected_candidate_id : Option ℕ
  pub version : ℕ

pub record Candidate : Type 0 where
  pub candidate_id : ℕ
  pub session_id : ℕ
  pub ordinal : ℕ
  pub state : CandidateState
  pub screen_runs : ℕ
  pub finalist_runs : ℕ
  pub parameter_cases : ℕ
  pub executions : ℕ
  pub evidence_ids : List ℕ
  pub failure_code : Option ℕ
  pub version : ℕ

-- The scopes of idempotency keys that the state machine uses.
pub data Scope : Type 0 where
  session_create session_save tuning_transition candidate_attach : Scope

abbrev pub same_scope : Scope → Scope → Bool
same_scope session_create session_create = true
same_scope session_save session_save = true
same_scope tuning_transition tuning_transition = true
same_scope candidate_attach candidate_attach = true
same_scope _ _ = false

pub record Binding : Type 0 where
  pub scope : Scope
  pub idempotency_key : ℕ
  pub aggregate_id : ℕ
  pub request_fingerprint : ℕ

-- The part of a key behind the scope and the caller's own: none, `:candidate` or `:session`.
pub data Half : Type 0 where
  whole candidate_half session_half : Half

abbrev pub same_half : Half → Half → Bool
same_half whole whole = true
same_half candidate_half candidate_half = true
same_half session_half session_half = true
same_half _ _ = false

-- A row of `tuning_events`. The aggregate's type goes with the half.
pub record Event : Type 0 where
  pub scope : Scope
  pub half : Half
  pub idempotency_key : Option ℕ
  pub aggregate_id : ℕ
  pub request_fingerprint : ℕ

-- A consumed row of `candidate_slot_reservations`.
pub record Slot : Type 0 where
  pub session_id : ℕ
  pub ordinal : ℕ

pub record Store : Type 0 where
  pub sessions : List Session
  pub candidates : List Candidate
  pub slots : List Slot
  pub bindings : List Binding
  pub events : List Event

pub data Error : Type 0 where
  invalid_transition budget_exceeded invalid_value not_found already_exists : Error
  concurrency idempotency_conflict : Error

abbrev pub Result {ℓ} : Type ℓ → Type ℓ
Result A = Raising Error A

abbrev pub session_key : Session → ℕ
session_key s = s.session_id

abbrev pub candidate_key : Candidate → ℕ
candidate_key c = c.candidate_id

abbrev pub candidate_owner : Candidate → ℕ
candidate_owner c = c.session_id
