-- ===== src/Retry/Examples.antt =====
-- Runs of src/azure_sql_mcp/retry.py on concrete errors.
use azure_sql_mcp.Shared.{
  ℕ, zero, suc, ◌+◌, ◌*◌, ◌≤◌, ◌≡◌, ◌↔◌, refl, true, false, [], ◌∷◌, any, All, arith,
}
use azure_sql_mcp.Shared.Text.{codes}
use azure_sql_mcp.Admin.Chars.{ascii_digit}
use azure_sql_mcp.Retry.{
  Failure, message, number, item, Answer, succeeded, failed, Backoff, delay, jitter_ceiling,
  is_transient, message_has_transient_code, with_retry,
}
use azure_sql_mcp.Retry.Attempts.{IsRun, with_retry-IsRun, with_retry-IsShort}
use azure_sql_mcp.Retry.Codes.{HasCode, message_has_transient_code-HasCode}

-- The defaults.
abbrev backoff : Backoff
backoff = record { base_delay = 1000; max_delay = 8000; jitter_percent = 50 }

abbrev busy : Failure
busy = (item (message (codes "(40501) service is busy")) ∷ []) ∷ []

abbrev wrong_login : Failure
wrong_login = (item (number 18456) ∷ []) ∷ []

-- Two transient errors, then an answer.
abbrev flaky : ℕ → Answer ℕ
flaky zero = failed busy
flaky (suc zero) = failed busy
flaky _ = succeeded 7

abbrev no_jitter : ℕ → ℕ
no_jitter attempt = 0

with_retry-IsRun_example :
    (n : ℕ) × IsRun ascii_digit backoff no_jitter flaky 3 0 n
      (with_retry ascii_digit backoff no_jitter flaky 3)
with_retry-IsRun_example = with_retry-IsRun ascii_digit backoff no_jitter flaky 3

no_jitter_lem : (k : ℕ) → 100 * no_jitter k ≤ jitter_ceiling backoff k
no_jitter_lem k = omega arith

with_retry-IsShort_example :
    All
      (λ sleep. 100 * sleep ≤ 8000 * 100 + 8000 * 50)
      (with_retry ascii_digit backoff no_jitter flaky 3).sleeps
with_retry-IsShort_example = with_retry-IsShort ascii_digit backoff no_jitter flaky 3 no_jitter_lem

message_has_transient_code-HasCode_example :
    (message_has_transient_code ascii_digit (codes "error 40501.") ≡ true)
    ↔ HasCode ascii_digit false (codes "error 40501.")
message_has_transient_code-HasCode_example =
    message_has_transient_code-HasCode ascii_digit (codes "error 40501.")

three_calls :
    with_retry ascii_digit backoff no_jitter flaky 3
    ≡ record { answer = succeeded 7; calls = 3; sleeps = 1000 ∷ 2000 ∷ [] }
unfolding with_retry is_transient delay any
three_calls = refl

abbrev refused_login : ℕ → Answer ℕ
refused_login k = failed wrong_login

one_call :
    with_retry ascii_digit backoff no_jitter refused_login 3
    ≡ record { answer = failed wrong_login; calls = 1; sleeps = [] }
unfolding with_retry is_transient any
one_call = refl

-- A longer number is no code.
not_a_code : message_has_transient_code ascii_digit (codes "12330 rows") ≡ false
unfolding message_has_transient_code any
not_a_code = refl
