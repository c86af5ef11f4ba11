-- ===== src/Tuning/Asked.antt =====
-- What a decision of src/azure_sql_mcp/tuning_sessions.py that asks for a save may ask for.
use azure_sql_mcp.Shared.{ℕ, ◌+◌, ◌≤◌, ◌≡◌, refl, true, Option, none, some, ◌==◌, arith}
use azure_sql_mcp.Shared.Raising.{OkOf, OkOf-require}
use azure_sql_mcp.Tuning.{Session, Candidate, SessionStatus}
use azure_sql_mcp.Tuning.Transactions.{Commit, save, save_both, attach}
use azure_sql_mcp.Tuning.Decide.{Decision, unchanged, commits, has, candidate_in, is_active}

abbrev pub session_of : Commit → ℕ
session_of (save s e) = s.session_id
session_of (save_both s c e ec) = s.session_id
session_of (attach sid c e) = sid

abbrev pub expected_of : Commit → ℕ
expected_of (save s e) = e
expected_of (save_both s c e ec) = e
expected_of (attach sid c e) = e

-- The candidate of a call was there, and belongs to the session.
abbrev pub OwnedBy : Session → Option ℕ → Option Candidate → Type 0
OwnedBy s none found = Unit
OwnedBy s (some cid) none = ⊥
OwnedBy s (some cid) (some c) = c.session_id ≡ s.session_id

-- The candidate that is saved is the one that was read.
abbrev pub Moves : Commit → Option Candidate → Type 0
Moves (save_both s c e ec) none = ⊥
Moves (save_both s c e ec) (some x) =
    (c.candidate_id ≡ x.candidate_id) × (c.session_id ≡ x.session_id)
Moves _ found = Unit

abbrev pub rank : SessionStatus → ℕ
rank SessionStatus.created = 0
rank SessionStatus.screening = 1
rank SessionStatus.finalist_validation = 2
rank SessionStatus.completed = 3
rank SessionStatus.cancelled = 3

-- The limits that a session is created with.
abbrev pub limits_of : Session → Option ℕ × ℕ × ℕ × ℕ × ℕ × ℕ
limits_of s = (
  s.deadline_at, s.max_candidates, s.screen_runs_per_candidate, s.finalist_runs_per_candidate,
  s.parameter_case_limit, s.execution_limit,
)

-- How a session changes: only while it is active, never back, and with the same limits.
pub record Onward (s s' : Session) : Type 0 where
  pub active : is_active s.status ≡ true
  pub onward : rank s.status ≤ rank s'.status
  pub limits : limits_of s' ≡ limits_of s

abbrev pub Follows : Session → Commit → Type 0
Follows s (save s' e) = Onward s s'
Follows s (save_both s' c e ec) = Onward s s'
Follows s (attach sid c e) = is_active s.status ≡ true

-- The runs and parameter cases of a candidate are within the limits of the session.
pub record RunsWithin (s : Session) (c : Candidate) : Type 0 where
  pub screens : c.screen_runs ≤ s.screen_runs_per_candidate
  pub finalists : c.finalist_runs ≤ s.finalist_runs_per_candidate
  pub cases : c.parameter_cases ≤ s.parameter_case_limit

-- A candidate that replaces another stays within what the session allows.
pub record Spent (s : Session) (total : ℕ) (old c : Candidate) : Type 0 where
  pub executions :
      total ≤ s.execution_limit → total + c.executions ≤ s.execution_limit + old.executions
  pub runs : RunsWithin s old → RunsWithin s c

abbrev pub Spends : Session → Option Candidate → ℕ → Commit → Type 0
Spends s found total (save s' e) = Unit
Spends s none total (save_both s' c e ec) = ⊥
Spends s (some old) total (save_both s' c e ec) = Spent s total old c
Spends s found total (attach sid c e) = (c.executions ≡ 0) × RunsWithin s c

pub record IsAbout (s : Session) (o : Option ℕ) (found : Option Candidate) (total : ℕ) (cm : Commit)
    : Type 0 where
  pub about : session_of cm ≡ s.session_id
  pub expected : expected_of cm ≡ s.version
  pub owned : OwnedBy s o found
  pub moves : Moves cm found
  pub follows : Follows s cm
  pub spends : Spends s found total cm

abbrev pub Asks : (Commit → Type 0) → Decision → Type 0
Asks P unchanged = Unit
Asks P (commits cm) = P cm

abbrev pub IsIn : Session → Option Candidate → Candidate → Type 0
IsIn s found c = (found ≡ some c) × (c.session_id ≡ s.session_id)

pub candidate_in-IsIn :
    (s : Session) (cid : ℕ) (found : Option Candidate)
    → OkOf (IsIn s found) (candidate_in s cid found)
candidate_in-IsIn s cid none =
    OkOf-require (IsIn s none) (has cid s.candidate_ids) _ _ (λ listed. tt)
candidate_in-IsIn s cid (some c) =
    OkOf-require (IsIn s (some c)) (has cid s.candidate_ids) _ _ (λ listed.
      OkOf-require (IsIn s (some c)) (c.session_id == s.session_id) _ _
        (λ own. (refl, ground (arith, own))))
