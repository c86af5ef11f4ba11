-- ===== src/Pool/Breaker.antt =====
-- The circuit breaker of src/azure_sql_mcp/connection_pool.py over a history: the checks of the calls of
-- `acquire`, and the connections that they got or failed to create, as they come.
use azure_sql_mcp.Shared.{
  ℕ, suc, ◌+◌, ◌≡◌, refl, Bool, true, false, ◌&&◌, Option, none, some, List, [], ◌∷◌, arith, leb,
  ltb,
}
use azure_sql_mcp.Pool.{
  CircuitBreakerState, check_circuit_breaker, record_success, record_failure,
  circuit_breaker_threshold, circuit_breaker_cooldown,
}

pub data Occurrence : Type 0 where
  checks : ℕ → Occurrence
  succeeds : Occurrence
  fails : ℕ → Occurrence

abbrev pub after_answer : CircuitBreakerState → Option CircuitBreakerState → CircuitBreakerState
after_answer cb none = cb
after_answer cb (some checked) = checked

-- The breaker after a history, the last occurrence first. A refused check changes nothing.
unfoldable pub after_history : List Occurrence → CircuitBreakerState
unfolding check_circuit_breaker record_success record_failure
after_history [] = record { consecutive_failures = 0; last_failure_time = 0; is_open = false }
after_history (checks t ∷ h) =
    after_answer (after_history h) (check_circuit_breaker t (after_history h))
after_history (succeeds ∷ h) = record_success (after_history h)
after_history (fails t ∷ h) = record_failure t (after_history h)

-- The failures since the last success, whatever was checked in between.
unfoldable pub failures : List Occurrence → ℕ
failures [] = 0
failures (checks t ∷ h) = failures h
failures (succeeds ∷ h) = 0
failures (fails t ∷ h) = suc (failures h)

-- A check is blocked for the cooldown after a failure that is the fifth in a row or a later one, until
-- a success, and until a check after the cooldown has gone through.
unfoldable pub is_blocked : List Occurrence → ℕ → Bool
unfolding failures
is_blocked [] now = false
is_blocked (checks t ∷ h) now = is_blocked h t && is_blocked h now
is_blocked (succeeds ∷ h) now = false
is_blocked (fails t ∷ h) now =
    leb circuit_breaker_threshold (suc (failures h)) && ltb now (t + circuit_breaker_cooldown)

abbrev pub is_refused : Option CircuitBreakerState → Bool
is_refused none = true
is_refused (some cb) = false

-- What the state keeps of a history.
record IsKept (h : List Occurrence) (cb : CircuitBreakerState) : Type 0 where
  counted : cb.consecutive_failures ≡ failures h
  opened : (cb.is_open && ltb cb.consecutive_failures circuit_breaker_threshold) ≡ false
  refuses : (now : ℕ) → is_refused (check_circuit_breaker now cb) ≡ is_blocked h now

after_answer-IsKept :
    (t : ℕ) (h : List Occurrence) (cb : CircuitBreakerState)
    → IsKept h cb
    → IsKept (checks t ∷ h) (after_answer cb (check_circuit_breaker t cb))
unfolding check_circuit_breaker is_blocked failures
after_answer-IsKept t h cb k = record {
  counted = ground (arith, k.counted);
  opened = ground (arith, k.opened);
  refuses = λ now. ground (arith, k.refuses t, k.refuses now);
}

after_history-IsKept : (h : List Occurrence) → IsKept h (after_history h)
unfolding after_history is_blocked failures check_circuit_breaker record_success record_failure
after_history-IsKept [] = record { counted = refl; opened = refl; refuses = λ now. refl }
after_history-IsKept (checks t ∷ h) =
    after_answer-IsKept t h (after_history h) (after_history-IsKept h)
after_history-IsKept (succeeds ∷ h) = record {
  counted = refl;
  opened = refl;
  refuses = λ now. refl;
}
after_history-IsKept (fails t ∷ h) =
    let k = after_history-IsKept h in
    record {
      counted = ground (arith, k.counted);
      opened = ground (arith, k.opened);
      refuses = λ now. ground (arith, k.counted, k.opened);
    }

-- After any history, a check is refused exactly while the cooldown runs since the last failure, if that
-- was the fifth or a later one since the last success, and if no check after a cooldown has gone through
-- in between.
pub check_circuit_breaker-is_blocked :
    (h : List Occurrence) (now : ℕ)
    → is_refused (check_circuit_breaker now (after_history h)) ≡ is_blocked h now
check_circuit_breaker-is_blocked h now = (after_history-IsKept h).refuses now
