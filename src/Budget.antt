-- ===== src/Budget.antt =====
-- The execution budget of a tuning session: `reserve_execution_attempts` and what goes with it in
-- src/azure_sql_mcp/performance_store.py. Identifiers, fingerprints and keys are only compared, and
-- stand as numbers; times are numbers too. An exception rolls the transaction back.
pub mod Reserve
pub mod Update
pub mod Ledger
pub mod Bound
pub mod Limit
pub mod Run
pub mod Quote
pub mod Stored
pub mod Replay
pub mod Repeat
pub mod Examples
pub use azure_sql_mcp.Shared.Raising.{raised, returned, ◌>>=◌, ◌>>◌, require, or_raise}
use azure_sql_mcp.Shared.Raising.{Raising}
use azure_sql_mcp.Shared.{
  ℕ, suc, ◌+◌, ◌-◌, ◌≤◌, max, Bool, true, false, ◌&&◌, ◌||◌, not, Option, none, some, List, [], ◌∷◌,
  ◌++◌, any, leb, ◌==◌, if◌then◌else◌,
}

pub data Status : Type 0 where
  reserved completed released expired : Status

-- A row of `execution_reservations`. The owner is `none` where the stored text is empty.
pub record Reservation : Type 0 where
  pub reservation_id : ℕ
  pub session_id : ℕ
  pub candidate_id : ℕ
  pub request_fingerprint : ℕ
  pub attempt_count : ℕ
  pub dispatched_attempt_count : ℕ
  pub status : Status
  pub owner_token : Option ℕ
  pub version : ℕ
  pub expires_at : ℕ

-- What the budget reads of the stored sessions and candidates.
pub record Session : Type 0 where
  pub session_id : ℕ
  pub execution_limit : ℕ
  pub time_limit_seconds : ℕ

pub record Candidate : Type 0 where
  pub candidate_id : ℕ
  pub session_id : ℕ
  pub executions : ℕ

-- A row of `operation_idempotency` in the scope execution.reserve.
pub record Binding : Type 0 where
  pub idempotency_key : ℕ
  pub aggregate_id : ℕ
  pub request_fingerprint : Option ℕ

pub record Store : Type 0 where
  pub sessions : List Session
  pub candidates : List Candidate
  pub reservations : List Reservation
  pub bindings : List Binding
  -- the next `_new_token`
  pub next_id : ℕ

-- `integrity` is sqlite3.IntegrityError.
pub data Error : Type 0 where
  invalid_value unknown_contract idempotency_conflict concurrency fencing : Error
  budget_reserved missing_reservation integrity : Error

abbrev pub Result {ℓ} : Type ℓ → Type ℓ
Result A = Raising Error A

abbrev pub is_reserved : Status → Bool
is_reserved reserved = true
is_reserved _ = false

-- status IN ('completed', 'released', 'expired')
abbrev pub is_final : Status → Bool
is_final reserved = false
is_final _ = true

-- CASE WHEN status IN ('reserved', 'expired') THEN attempt_count ELSE dispatched_attempt_count END
abbrev pub charge_as : Status → Reservation → ℕ
charge_as reserved r = r.attempt_count
charge_as expired r = r.attempt_count
charge_as _ r = r.dispatched_attempt_count

abbrev pub charge : Reservation → ℕ
charge r = charge_as r.status r

-- `_expire_reservations_locked` on the execution reservations
unfoldable pub expire : ℕ → List Reservation → List Reservation
expire now [] = []
expire now (r ∷ rs) =
    (if is_reserved r.status && leb r.expires_at now
      then record r { status = expired; version = suc r.version }
      else r)
    ∷ expire now rs

unfoldable pub get_session : ℕ → List Session → Option Session
get_session s [] = none
get_session s (x ∷ xs) = if x.session_id == s then some x else get_session s xs

unfoldable pub get_candidate : ℕ → List Candidate → Option Candidate
get_candidate c [] = none
get_candidate c (x ∷ xs) = if x.candidate_id == c then some x else get_candidate c xs

-- WHERE session_id = ? AND request_fingerprint = ?
unfoldable pub find_request : ℕ → ℕ → List Reservation → Option Reservation
find_request s f [] = none
find_request s f (r ∷ rs) =
    if r.session_id == s && r.request_fingerprint == f then some r else find_request s f rs

unfoldable pub find_reservation : ℕ → List Reservation → Option Reservation
find_reservation i [] = none
find_reservation i (r ∷ rs) = if r.reservation_id == i then some r else find_reservation i rs

-- `_check_owner`
unfoldable pub owns : Option ℕ → Option ℕ → Bool
owns none supplied = true
owns (some o) none = false
owns (some o) (some p) = o == p

-- SUM of the charges of a session's reservations in a status
unfoldable pub reserved_attempts : ℕ → List Reservation → ℕ
reserved_attempts s [] = 0
reserved_attempts s (r ∷ rs) =
    (if r.session_id == s && is_reserved r.status then charge r else 0) + reserved_attempts s rs

-- idx_execution_reservations_active_candidate: the candidate has a row that is reserved.
unfoldable pub has_reserved : ℕ → List Reservation → Bool
unfolding any
has_reserved c = any (λ r. r.candidate_id == c && is_reserved r.status)

-- finalized_by_candidate[c]
unfoldable pub finalized_attempts : ℕ → ℕ → List Reservation → ℕ
finalized_attempts s c [] = 0
finalized_attempts s c (r ∷ rs) =
    (if r.session_id == s && is_final r.status && r.candidate_id == c then charge r else 0)
    + finalized_attempts s c rs

abbrev pub has : ℕ → List ℕ → Bool
has c = any (λ k. k == c)

abbrev pub insert : ℕ → List ℕ → List ℕ
insert c keys = if has c keys then keys else c ∷ keys

-- set(finalized_by_candidate), added to a set
unfoldable pub finalized_keys : ℕ → List Reservation → List ℕ → List ℕ
unfolding any
finalized_keys s [] keys = keys
finalized_keys s (r ∷ rs) keys =
    let rest = finalized_keys s rs keys in
    if r.session_id == s && is_final r.status then insert r.candidate_id rest else rest

-- set(actual_by_candidate), of the candidates of the session
unfoldable pub actual_keys : ℕ → List Candidate → List ℕ
unfolding any
actual_keys s [] = []
actual_keys s (x ∷ xs) =
    let rest = actual_keys s xs in if x.session_id == s then insert x.candidate_id rest else rest

-- actual_by_candidate.get(c, 0)
unfoldable pub actual_attempts : ℕ → ℕ → List Candidate → ℕ
actual_attempts s c [] = 0
actual_attempts s c (x ∷ xs) =
    if x.session_id == s && x.candidate_id == c then x.executions else actual_attempts s c xs

unfoldable pub sum_max : ℕ → Store → List ℕ → ℕ
unfolding finalized_attempts actual_attempts
sum_max s st [] = 0
sum_max s st (c ∷ keys) =
    max (actual_attempts s c st.candidates) (finalized_attempts s c st.reservations)
    + sum_max s st keys

-- The sum over both key sets.
unfoldable pub consumed_attempts : ℕ → Store → ℕ
unfolding finalized_keys actual_keys sum_max
consumed_attempts s st =
    sum_max s st (finalized_keys s st.reservations (actual_keys s st.candidates))
