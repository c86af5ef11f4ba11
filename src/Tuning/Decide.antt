-- ===== src/Tuning/Decide.antt =====
-- What the state machine of src/azure_sql_mcp/tuning_sessions.py decides on a session and a candidate
-- that it has read: an error, no change, or what the store is asked to save.
use azure_sql_mcp.Shared.{
  ℕ, suc, Bool, true, false, ◌&&◌, ◌||◌, not, Option, none, some, List, [], ◌∷◌, ◌++◌, any, leb,
  ltb, ◌==◌, if◌then◌else◌,
}
use azure_sql_mcp.Tuning.{
  SessionStatus, CandidateState, is_terminal, Session, Candidate, Error, invalid_transition,
  budget_exceeded, Result, raised, returned, ◌>>=◌, ◌>>◌, require,
}
use azure_sql_mcp.Tuning.Transactions.{Commit, save, save_both, attach}

pub data Decision : Type 0 where
  unchanged : Decision
  commits : Commit → Decision

abbrev pub has : ℕ → List ℕ → Bool
has i = any (λ j. j == i)

-- `_unique_strings`
unfoldable pub unique_after : List ℕ → List ℕ → List ℕ
unfolding any
unique_after seen [] = []
unique_after seen (x ∷ xs) =
    let rest = unique_after (x ∷ seen) xs in
    let same = unique_after seen xs in if has x seen then same else x ∷ rest

abbrev pub unique : List ℕ → List ℕ
unique = unique_after []

abbrev pub is_created : SessionStatus → Bool
is_created SessionStatus.created = true
is_created _ = false

abbrev pub is_screening : SessionStatus → Bool
is_screening SessionStatus.screening = true
is_screening _ = false

abbrev pub is_finalist_validation : SessionStatus → Bool
is_finalist_validation SessionStatus.finalist_validation = true
is_finalist_validation _ = false

-- created, screening or finalist_validation
abbrev pub is_active : SessionStatus → Bool
is_active SessionStatus.completed = false
is_active SessionStatus.cancelled = false
is_active _ = true

abbrev pub is_working : SessionStatus → Bool
is_working s = is_screening s || is_finalist_validation s

abbrev past : Option ℕ → ℕ → Bool
past none now = false
past (some d) now = leb d now

-- `_check_deadline`, and the part of `is_session_expired` for an active session
unfoldable pub is_past_deadline : Session → ℕ → Bool
is_past_deadline s now = past s.deadline_at now

abbrev pub in_time : Session → ℕ → Result (Unit {0})
in_time s now = require (not (is_past_deadline s now)) budget_exceeded

-- `_candidate_in_session`, with the candidate that the store has under the identifier.
abbrev pub candidate_in : Session → ℕ → Option Candidate → Result Candidate
candidate_in s cid none = do
  require (has cid s.candidate_ids) invalid_transition
  raised Error.not_found
candidate_in s cid (some c) = do
  require (has cid s.candidate_ids) invalid_transition
  require (c.session_id == s.session_id) invalid_transition
  returned c

abbrev pub is_empty {ℓ} : {A : Type ℓ} → List A → Bool
is_empty [] = true
is_empty (x ∷ xs) = false

abbrev pub screen : Session → Bool → Result Decision
screen s true = returned unchanged
screen s false = do
  require (not (is_empty s.candidate_ids)) invalid_transition
  returned (
      commits
        (save (record s { status = SessionStatus.screening; version = suc s.version }) s.version))

unfoldable pub start_screening : ℕ → Session → Result Decision
unfolding is_past_deadline
start_screening now s = do
  require (is_created s.status || is_screening s.status) invalid_transition
  in_time s now
  screen s (is_screening s.status)

abbrev pub is_finalist : CandidateState → Bool
is_finalist CandidateState.finalist = true
is_finalist _ = false

-- The session behind a promotion: with the candidate among the finalists, and out of screening. The
-- version rises where the finalists change.
unfoldable pub with_finalist : ℕ → Session → Session
unfolding any unique_after
with_finalist cid s =
    let joined = if has cid s.finalist_candidate_ids then s else record s {
      finalist_candidate_ids = unique (s.finalist_candidate_ids ++ cid ∷ []);
      version = suc s.version;
    } in
    record joined {
      status =
          if is_screening joined.status then SessionStatus.finalist_validation else joined.status;
    }

abbrev pub promote : Session → Candidate → Bool → Result Decision
promote s c true = returned unchanged
promote s c false = returned (
    commits (
      save_both (with_finalist c.candidate_id s)
        (record c { state = CandidateState.finalist; version = suc c.version }) s.version
        c.version))

unfoldable pub mark_candidate_finalist : ℕ → ℕ → Session → Option Candidate → Result Decision
unfolding any is_past_deadline with_finalist
mark_candidate_finalist cid now s found = do
  require (is_working s.status) invalid_transition
  c ← candidate_in s cid found
  in_time s now
  require (not (is_terminal c.state)) invalid_transition
  promote s c
      (is_finalist c.state && (has cid s.finalist_candidate_ids && is_finalist_validation s.status))

abbrev pub proof_contract_required : ℕ
proof_contract_required = 0

abbrev pub has_code : ℕ → Option ℕ → Bool
has_code k none = false
has_code k (some j) = j == k

abbrev pub is_inconclusive : CandidateState → Bool
is_inconclusive CandidateState.inconclusive = true
is_inconclusive _ = false

unfoldable pub recover_candidate_for_finalist : ℕ → ℕ → Session → Option Candidate → Result Decision
unfolding any is_past_deadline with_finalist
recover_candidate_for_finalist cid now s found = do
  require (is_working s.status) invalid_transition
  c ← candidate_in s cid found
  require
      (is_inconclusive c.state
        && (has_code proof_contract_required c.failure_code
            && (ltb 0 c.screen_runs && (c.finalist_runs == 0 && ltb 0 c.executions))))
      invalid_transition
  in_time s now
  returned (
      commits (
        save_both (with_finalist cid s)
          (record c {
            state = CandidateState.finalist;
            failure_code = none;
            version = suc c.version;
          })
          s.version c.version))

-- The state that a selected candidate must have, by the selection scope.
abbrev pub is_selectable : Bool → CandidateState → Bool
is_selectable true CandidateState.performance_only = true
is_selectable false CandidateState.improved = true
is_selectable _ _ = false

abbrev pub selected : Session → Option ℕ → Bool → Option Candidate → Result (Unit {0})
selected s none scope found = returned tt
selected s (some cid) scope found = do
  c ← candidate_in s cid found
  require (is_selectable scope c.state) invalid_transition
  returned tt

unfoldable pub complete_session : Option ℕ → Bool → Session → Option Candidate → Result Decision
unfolding any
complete_session chosen scope s found = do
  require (is_active s.status) invalid_transition
  selected s chosen scope found
  returned (
      commits (
        save
          (record s {
            status = SessionStatus.completed;
            selected_candidate_id = chosen;
            version = suc s.version;
          })
          s.version))

unfoldable pub cancel_session : Session → Result Decision
cancel_session s = do
  require (is_active s.status) invalid_transition
  returned (
      commits
        (save (record s { status = SessionStatus.cancelled; version = suc s.version }) s.version))

abbrev pub new_candidate : ℕ → ℕ → Candidate
new_candidate sid cid = record {
  candidate_id = cid;
  session_id = sid;
  ordinal = 0;
  state = CandidateState.proposed;
  screen_runs = 0;
  finalist_runs = 0;
  parameter_cases = 0;
  executions = 0;
  evidence_ids = [];
  failure_code = none;
  version = 0;
}

-- In finalist validation only a candidate with a valid lineage is added. Whether it has one is what
-- `validate_combined_parent_request` and its sibling say of its parent and evidence.
unfoldable pub add_candidate : ℕ → Bool → ℕ → Session → Result Decision
unfolding is_past_deadline
add_candidate cid has_lineage now s = do
  require (is_active s.status) invalid_transition
  require (not (is_finalist_validation s.status) || has_lineage) invalid_transition
  in_time s now
  returned (commits (attach s.session_id (new_candidate s.session_id cid) s.version))
