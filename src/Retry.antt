-- ===== src/Retry.antt =====
-- src/azure_sql_mcp/retry.py: which errors count as transient, and the loop that tries again. Delays
-- are whole milliseconds, the jitter is in percent.
pub mod Attempts
pub mod Codes
pub mod Examples
use azure_sql_mcp.Shared.{
  ℕ, zero, suc, ◌+◌, ◌-◌, ◌*◌, ◌≤◌, Bool, true, false, ◌&&◌, ◌||◌, not, Option, none, some, List,
  [], ◌∷◌, any, leb, ◌==◌, if◌then◌else◌,
}
use azure_sql_mcp.Shared.Text.{Text, codes}

abbrev pub transient_error_codes : List ℕ
transient_error_codes =
    233 ∷ 1205 ∷ 4221 ∷ 10053 ∷ 10054 ∷ 10928 ∷ 10929 ∷ 40197 ∷ 40501 ∷ 40549 ∷ 40554 ∷ 40613
    ∷ 49918 ∷ 49919 ∷ 49920 ∷ []

-- `str(code)` of each.
abbrev pub transient_texts : List Text
transient_texts =
    codes "233"
    ∷ codes "1205"
    ∷ codes "4221"
    ∷ codes "10053"
    ∷ codes "10054"
    ∷ codes "10928"
    ∷ codes "10929"
    ∷ codes "40197"
    ∷ codes "40501"
    ∷ codes "40549"
    ∷ codes "40554"
    ∷ codes "40613"
    ∷ codes "49918"
    ∷ codes "49919"
    ∷ codes "49920"
    ∷ []

-- What the tests of an argument can see: a string, an integer, a tuple of such, or something else.
pub data Item : Type 0 where
  message : Text → Item
  number : ℕ → Item
  other : Item

pub data Argument : Type 0 where
  item : Item → Argument
  items : List Item → Argument

-- An exception: the arguments of it, of its cause (or context), and so on, up to the end of the chain
-- or its first repetition.
abbrev pub Failure : Type 0
Failure = List (List Argument)

module _ (is_digit : ℕ → Bool) where
  -- `(?!\d)` behind a code.
  abbrev pub ends : Text → Bool
  ends [] = true
  ends (c ∷ s) = not (is_digit c)

  -- The pattern at one place: a code, and no digit behind it.
  unfoldable pub code_here : Text → Text → Bool
  code_here [] s = ends s
  code_here (k ∷ code) [] = false
  code_here (k ∷ code) (c ∷ s) = let rest = code_here code s in k == c && rest

  -- The pattern from a place on, where the flag says whether a digit stands before it.
  unfoldable pub search_from : Bool → Text → Bool
  unfolding any code_here
  search_from after_digit [] = false
  search_from after_digit (c ∷ s) =
      let rest = search_from (is_digit c) s in
      (not after_digit && any (λ code. code_here code (c ∷ s)) transient_texts) || rest

  unfoldable pub message_has_transient_code : Text → Bool
  unfolding search_from
  message_has_transient_code s = search_from false s

  abbrev item_is_transient : Item → Bool
  item_is_transient (message s) = message_has_transient_code s
  item_is_transient (number n) = any (λ code. code == n) transient_error_codes
  item_is_transient other = false

  abbrev argument_is_transient : Argument → Bool
  argument_is_transient (item x) = item_is_transient x
  argument_is_transient (items xs) = any item_is_transient xs

  unfoldable pub is_transient : Failure → Bool
  unfolding any message_has_transient_code
  is_transient [] = false
  is_transient (args ∷ chain) =
      let rest = is_transient chain in any argument_is_transient args || rest

-- What one call of `func` does.
pub data Answer {ℓ} (A : Type ℓ) : Type ℓ where
  succeeded : A → Answer A
  failed : Failure → Answer A
  cancelled : Answer A

pub record Backoff : Type 0 where
  pub base_delay : ℕ
  pub max_delay : ℕ
  pub jitter_percent : ℕ

-- base_delay * 2 ** attempt
unfoldable pub doubled : ℕ → ℕ → ℕ
doubled zero n = n
doubled (suc k) n = 2 * doubled k n

unfoldable pub delay : Backoff → ℕ → ℕ
unfolding doubled
delay b attempt =
    let d = doubled attempt b.base_delay in if leb d b.max_delay then d else b.max_delay

-- 100 times `jitter_ceiling`
abbrev pub jitter_ceiling : Backoff → ℕ → ℕ
jitter_ceiling b attempt = delay b attempt * b.jitter_percent

-- What is behind a run: the last answer, the number of calls, and the sleeps between them.
pub record Run {ℓ} (A : Type ℓ) : Type ℓ where
  pub answer : Answer A
  pub calls : ℕ
  pub sleeps : List ℕ

-- Whether an answer lets the loop go on, if a retry is left. A cancellation never does.
abbrev pub is_retryable {ℓ} : {A : Type ℓ} → (ℕ → Bool) → Answer A → Bool
is_retryable is_digit (failed e) = is_transient is_digit e
is_retryable is_digit _ = false

abbrev pub stopped {ℓ} : {A : Type ℓ} → Answer A → Run A
stopped x = record { answer = x; calls = 1; sleeps = [] }

module _ {ℓ} {A : Type ℓ} (is_digit : ℕ → Bool) (b : Backoff) (uniform : ℕ → ℕ)
    (func : ℕ → Answer A) where
  abbrev pub again : ℕ → Run A → Run A
  again attempt r = record {
    answer = r.answer;
    calls = suc r.calls;
    sleeps = (delay b attempt + uniform attempt) ∷ r.sleeps;
  }

  -- The loop from an attempt on, with so many retries left. `uniform` is the random part of a sleep.
  unfoldable pub attempts_from : ℕ → ℕ → Run A
  unfolding is_transient delay
  attempts_from zero attempt = stopped (func attempt)
  attempts_from (suc left) attempt =
      let rest = attempts_from left (suc attempt) in
      if is_retryable is_digit (func attempt) then again attempt rest else stopped (func attempt)

  unfoldable pub with_retry : ℕ → Run A
  unfolding attempts_from
  with_retry max_retries = attempts_from max_retries 0
