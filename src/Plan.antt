-- ===== src/Plan.antt =====
-- Which Query Store plans to force and to unforce: `PlanEnforcementService.review` of
-- src/azure_sql_mcp/plan_enforcement.py. Counts and identifiers are natural numbers. What the payloads
-- only pass on (estimated gains, explanations, warnings) is left out.
pub mod Eligible
pub mod Ranked
pub mod Actions
pub mod Silent
pub mod Examples
use azure_sql_mcp.Shared.{
  ℕ, ◌+◌, Bool, true, false, ◌&&◌, ◌||◌, not, Option, none, some, List, [], ◌∷◌, ◌++◌, ltb, ◌==◌,
  if◌then◌else◌, take,
}
use azure_sql_mcp.Shared.Text.{Text, codes, text_eq}
use azure_sql_mcp.Shared.Sorted.{sorted}
use azure_sql_mcp.Shared.Raising.{Raising, raised, returned, ◌>>=◌, ◌>>◌, require}

-- `str.casefold`, which reads the Unicode tables, `int` of a text, and the scores, which are floats:
-- of one score it is asked whether it is higher than another.
pub record Platform : Type 1 where
  pub casefold : Text → Text
  pub int_of : Text → Option ℕ
  pub Score : Type 0
  pub zero_score : Score
  pub score_of : ℕ → Score
  pub higher : Score → Score → Bool

-- What a row of a driver or of JSON holds where a number is wanted.
pub data Value : Type 0 where
  nothing : Value
  text : Text → Value
  number : ℕ → Value
  other : Value

pub data Kind : Type 0 where
  force unforce : Kind

pub data Because : Type 0 where
  query_store_regression forced_plan_failure stale_forced_plan : Because

-- The exclusion reasons, with `_FORCE_STATE_EXCLUSIONS`.
pub data Exclusion : Type 0 where
  plan_ids_missing state_unknown : Exclusion
  already_applied reverted_by_automatic_tuning expired engine_verifying : Exclusion
  state_not_active ownership_review not_executable : Exclusion
  recommended_plan_not_in_query_store recommended_plan_already_forced : Exclusion
  regressed_plan_not_live : Exclusion

-- A row of the regressions. A flag that may be missing is false where it is.
pub record Regression (Score : Type 0) : Type 0 where
  pub query_id : Value
  pub recommended_plan_id : Value
  pub score : Option Score
  pub current_state : Option Text
  pub state_reason : Option Text
  pub initiated_by : Option Text
  pub is_executable : Bool
  pub is_forced : Option Bool
  pub live : Bool

-- A row of the forced plans.
pub record ForcedPlan : Type 0 where
  pub query_id : Value
  pub plan_id : Value
  pub force_failure_count : Value
  pub days_since_last_exec : Value
  pub last_failure : Option Text
  pub query_recent_execution_count : Value
  pub recent_execution_count : Value
  pub forcing_type : Option Text

pub record Action (Score : Type 0) : Type 0 where
  pub kind : Kind
  pub query_id : ℕ
  pub plan_id : ℕ
  pub because : Because
  pub score : Score
  pub priority : ℕ

-- The pair of an action and an exclusion that the two helpers return.
pub data Outcome (Score : Type 0) : Type 0 where
  recommends : Action Score → Outcome Score
  excludes : Exclusion → Outcome Score
  neither : Outcome Score

pub data Error : Type 0 where
  invalid_value permission : Error

abbrev pub Result {ℓ} : Type ℓ → Type ℓ
Result A = Raising Error A

-- `str(x or "")`
abbrev pub text_or : Option Text → Text
text_or none = []
text_or (some s) = s

abbrev pub number_or : Option ℕ → ℕ
number_or none = 0
number_or (some n) = n

abbrev pub or_score {ℓ} : {S : Type ℓ} → S → Option S → S
or_score zero none = zero
or_score zero (some s) = s

module _ (p : Platform) where
  -- `_coerce_int`
  unfoldable pub coerce_int : Value → Option ℕ
  coerce_int nothing = none
  coerce_int (text []) = none
  coerce_int (text (c ∷ s)) = p.int_of (c ∷ s)
  coerce_int (number n) = some n
  coerce_int other = none

  -- `_coerce_int(x) or 0`
  abbrev pub count_of : Value → ℕ
  count_of v = number_or (coerce_int v)

  -- The text, in any case, is the word.
  abbrev pub is_word : Text → Text → Bool
  is_word s w = text_eq (p.casefold s) w

  -- `_FORCE_STATE_EXCLUSIONS.get(...)`
  unfoldable pub state_exclusion : Text → Exclusion
  unfolding text_eq
  state_exclusion s =
      if is_word s (codes "success")
      then already_applied
      else if is_word s (codes "reverted")
      then reverted_by_automatic_tuning
      else if is_word s (codes "expired")
      then expired
      else if is_word s (codes "verifying")
      then engine_verifying
      else state_not_active

  abbrev pub force_action : Regression p.Score → ℕ → ℕ → Action p.Score
  force_action r query plan = record {
    kind = force;
    query_id = query;
    plan_id = plan;
    because = query_store_regression;
    score = or_score p.zero_score r.score;
    priority = 100;
  }

  -- The tests from the plan's being there on.
  abbrev pub if_not_forced : Regression p.Score → ℕ → ℕ → Option Bool → Outcome p.Score
  if_not_forced r query plan none = excludes recommended_plan_not_in_query_store
  if_not_forced r query plan (some true) = excludes recommended_plan_already_forced
  if_not_forced r query plan (some false) =
      if not r.live
      then excludes regressed_plan_not_live
      else recommends (force_action r query plan)

  abbrev pub if_known : Regression p.Score → ℕ → ℕ → Option Text → Outcome p.Score
  if_known r query plan none = excludes state_unknown
  if_known r query plan (some state) =
      if not (is_word state (codes "active"))
      then excludes (state_exclusion state)
      else if is_word (text_or r.initiated_by) (codes "system")
      then excludes ownership_review
      else if not (is_word (text_or r.state_reason) (codes "automatictuningoptionnotenabled"))
      then excludes ownership_review
      else if not r.is_executable
      then excludes not_executable
      else if_not_forced r query plan r.is_forced

  abbrev pub if_named : Regression p.Score → Option ℕ → Option ℕ → Outcome p.Score
  if_named r none plan = excludes plan_ids_missing
  if_named r (some query) none = excludes plan_ids_missing
  if_named r (some query) (some plan) = if_known r query plan r.current_state

  unfoldable pub recommend_force_action : Regression p.Score → Outcome p.Score
  unfolding coerce_int text_eq state_exclusion
  recommend_force_action r = if_named r (coerce_int r.query_id) (coerce_int r.recommended_plan_id)

  -- Forcing fails now: the query ran in the window, and the forced plan did not.
  unfoldable pub is_failing_now : ForcedPlan → Bool
  unfolding coerce_int text_eq
  is_failing_now f =
      ltb 0 (count_of f.force_failure_count)
      && (not
            (is_word (text_or f.last_failure) [] || is_word (text_or f.last_failure) (codes "none"))
          && (ltb 0 (count_of f.query_recent_execution_count)
              && count_of f.recent_execution_count == 0))

  -- Only manual forcing is unforced.
  abbrev pub if_manual : ForcedPlan → Action p.Score → Outcome p.Score
  if_manual f a =
      if not (is_word (text_or f.forcing_type) (codes "manual"))
      then excludes ownership_review
      else recommends a

  abbrev pub unforce_action : ForcedPlan → ℕ → ℕ → Because → ℕ → ℕ → Action p.Score
  unforce_action f query plan because count priority = record {
    kind = unforce;
    query_id = query;
    plan_id = plan;
    because = because;
    score = p.score_of count;
    priority = priority;
  }

  abbrev pub if_both : ForcedPlan → Option ℕ → Option ℕ → Outcome p.Score
  if_both f none plan = neither
  if_both f (some query) none = neither
  if_both f (some query) (some plan) =
      if is_failing_now f
      then if_manual f
          (unforce_action f query plan forced_plan_failure (count_of f.force_failure_count) 90)
      else if ltb 30 (count_of f.days_since_last_exec)
      then if_manual f
          (unforce_action f query plan stale_forced_plan (count_of f.days_since_last_exec) 50)
      else neither

  unfoldable pub recommend_unforce_action : ForcedPlan → Outcome p.Score
  unfolding coerce_int is_failing_now text_eq
  recommend_unforce_action f = if_both f (coerce_int f.query_id) (coerce_int f.plan_id)

  -- What the loops over the rows append to.
  pub record Found : Type 0 where
    pub actions : List (Action p.Score)
    pub excluded : List Exclusion

  abbrev pub append_outcome : Found → Outcome p.Score → Found
  append_outcome found (recommends a) = record found { actions = found.actions ++ a ∷ [] }
  append_outcome found (excludes e) = record found { excluded = found.excluded ++ e ∷ [] }
  append_outcome found neither = found

  unfoldable pub scan_rows : {R : Type 0} → (R → Outcome p.Score) → List R → Found → Found
  scan_rows judge [] found = found
  scan_rows judge (r ∷ rs) found = scan_rows judge rs (append_outcome found (judge r))

  -- Whether the key of the first, (priority, score), is greater.
  abbrev pub ranks_above : Action p.Score → Action p.Score → Bool
  ranks_above a b =
      ltb b.priority a.priority || (a.priority == b.priority && p.higher a.score b.score)

  -- The actions in the order of their ranks, and the exclusions. A note explains where all of the
  -- candidates are excluded.
  pub record Review : Type 0 where
    pub recommended_actions : List (Action p.Score)
    pub excluded_recommendations : List Exclusion
    pub is_explained : Bool

  abbrev pub explains : List (Action p.Score) → List Exclusion → Bool
  explains [] (e ∷ es) = true
  explains _ _ = false

  unfoldable pub found_of : List (Regression p.Score) → List ForcedPlan → Found
  unfolding scan_rows recommend_force_action recommend_unforce_action
  found_of regressions forced =
      scan_rows recommend_unforce_action forced
        (scan_rows recommend_force_action regressions (record { actions = []; excluded = [] }))

  -- `review`, from the rows that the two queries return.
  unfoldable pub review : ℕ → ℕ → List (Regression p.Score) → List ForcedPlan → Result Review
  unfolding found_of sorted
  review window_minutes top_n regressions forced = do
    require (ltb 0 window_minutes) invalid_value
    require (ltb 0 top_n) invalid_value
    let found = found_of regressions forced
    let ranked = take top_n (sorted ranks_above found.actions)
    returned (record {
      recommended_actions = ranked;
      excluded_recommendations = found.excluded;
      is_explained = explains ranked found.excluded;
    })
