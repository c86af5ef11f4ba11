-- ===== src/Retry/Attempts.antt =====
-- The calls and the sleeps of `with_retry`, src/azure_sql_mcp/retry.py.
use azure_sql_mcp.Shared.{
  ℕ, zero, suc, ◌+◌, ◌*◌, ◌≤◌, ◌<◌, ◌≡◌, refl, sym, ap, ◌∙◌, subst, Bool, true, length, All, arith,
  inl, inr, Bool-cases,
}
use azure_sql_mcp.Retry.{
  Answer, Backoff, Run, is_retryable, stopped, again, delay, jitter_ceiling, attempts_from,
  with_retry,
}
use native.Mathlib.Nat.{mul-le-mul_right}

module _ {ℓ} {A : Type ℓ} (is_digit : ℕ → Bool) (b : Backoff) (uniform : ℕ → ℕ)
    (func : ℕ → Answer A) where
  -- A run of `n` retries from an attempt on, with `left` of them allowed.
  pub record IsRun (left attempt n : ℕ) (r : Run A) : Type ℓ where
    pub bounded : n ≤ left
    pub calls : r.calls ≡ suc n
    pub slept : length r.sleeps ≡ n
    pub answer : r.answer ≡ func (attempt + n)
    pub retried : (i : ℕ) → i < n → is_retryable is_digit (func (attempt + i)) ≡ true
    pub exhausted : is_retryable is_digit (func (attempt + n)) ≡ true → n ≡ left

  stopped-IsRun :
      (left attempt : ℕ)
      → (is_retryable is_digit (func attempt) ≡ true → 0 ≡ left)
      → IsRun left attempt 0 (stopped (func attempt))
  stopped-IsRun left attempt h =
      let same : attempt + 0 ≡ attempt = omega arith in
      record {
        bounded = omega arith;
        calls = refl;
        slept = refl;
        answer = rw same;
        retried = λ i less. ground arith;
        exhausted = λ e. h (rw (← same) e);
      }

  again-retried :
      (attempt n : ℕ)
      → is_retryable is_digit (func attempt) ≡ true
      → ((i : ℕ) → i < n → is_retryable is_digit (func (suc attempt + i)) ≡ true)
      → (i : ℕ) → i < suc n
      → is_retryable is_digit (func (attempt + i)) ≡ true
  again-retried attempt n first rest zero less =
      subst (λ k. is_retryable is_digit (func k) ≡ true) (omega arith) first
  again-retried attempt n first rest (suc i) less =
      subst (λ k. is_retryable is_digit (func k) ≡ true) (omega arith)
        (rest i (omega (arith, less)))

  again-IsRun :
      (left attempt n : ℕ) (r : Run A)
      → is_retryable is_digit (func attempt) ≡ true
      → IsRun left (suc attempt) n r
      → IsRun (suc left) attempt (suc n) (again is_digit b uniform func attempt r)
  again-IsRun left attempt n r first h =
      let next : suc attempt + n ≡ attempt + suc n = omega arith in
      record {
        bounded = omega (arith, h.bounded);
        calls = omega (arith, h.calls);
        slept = omega (arith, h.slept);
        answer = h.answer ∙ ap func next;
        retried = again-retried attempt n first h.retried;
        exhausted = λ e.
            ap suc (h.exhausted (subst (λ k. is_retryable is_digit (func k) ≡ true) (sym next) e));
      }

  attempts_from-IsRun :
      (left attempt : ℕ)
      → (n : ℕ) × IsRun left attempt n (attempts_from is_digit b uniform func left attempt)
  unfolding attempts_from
  attempts_from-IsRun zero attempt = (0, stopped-IsRun 0 attempt (λ e. refl))
  attempts_from-IsRun (suc left) attempt =
      elim (Bool-cases (is_retryable is_digit (func attempt))) [
        | inl retry ↦
            let (n, h) = attempts_from-IsRun left (suc attempt) in
            (suc n, rw retry (again-IsRun left attempt n _ retry h))
        | inr stop ↦ (0, rw stop (stopped-IsRun (suc left) attempt (λ e. cc)))
      ]

  -- For some number of retries, at most `max_retries`: `func` is called once more than that, with a
  -- sleep between two calls; every call but the last fails with a transient error; the answer of the
  -- last is passed on; and it is a transient error only when all retries are used up.
  pub with_retry-IsRun :
      (max_retries : ℕ)
      → (n : ℕ) × IsRun max_retries 0 n (with_retry is_digit b uniform func max_retries)
  unfolding with_retry
  with_retry-IsRun max_retries = attempts_from-IsRun max_retries 0

  abbrev IsShort : ℕ → Type 0
  IsShort sleep = 100 * sleep ≤ b.max_delay * 100 + b.max_delay * b.jitter_percent

  delay-le-max_delay : (attempt : ℕ) → delay b attempt ≤ b.max_delay
  unfolding delay
  delay-le-max_delay attempt = ground arith

  sleep-IsShort :
      (attempt : ℕ)
      → 100 * uniform attempt ≤ jitter_ceiling b attempt
      → IsShort (delay b attempt + uniform attempt)
  sleep-IsShort attempt h =
      let d = delay-le-max_delay attempt in
      let j = mul-le-mul_right b.jitter_percent d in omega (arith, d, j, h)

  attempts_from-IsShort :
      (left attempt : ℕ)
      → ((k : ℕ) → 100 * uniform k ≤ jitter_ceiling b k)
      → All IsShort (attempts_from is_digit b uniform func left attempt).sleeps
  unfolding attempts_from
  attempts_from-IsShort zero attempt h = tt
  attempts_from-IsShort (suc left) attempt h =
      elim (Bool-cases (is_retryable is_digit (func attempt))) [
        | inl retry ↦
            rw retry (sleep-IsShort attempt (h attempt), attempts_from-IsShort left (suc attempt) h)
        | inr stop ↦ rw stop tt
      ]

  -- Where the random part of each sleep is within its ceiling, no sleep is longer than `max_delay` and
  -- the jitter's percentage of it.
  pub with_retry-IsShort :
      (max_retries : ℕ)
      → ((k : ℕ) → 100 * uniform k ≤ jitter_ceiling b k)
      → All IsShort (with_retry is_digit b uniform func max_retries).sleeps
  unfolding with_retry
  with_retry-IsShort max_retries h = attempts_from-IsShort max_retries 0 h
