-- ===== src/Plan/Examples.antt =====
-- A review of two regressions and two forced plans.
use azure_sql_mcp.Shared.{
  ℕ, ◌+◌, ◌≡◌, refl, true, false, ◌&&◌, none, some, List, [], ◌∷◌, ltb, leb, if◌then◌else◌, map,
  arith,
}
use azure_sql_mcp.Shared.Text.{codes}
use azure_sql_mcp.Shared.Raising.{returned}
use azure_sql_mcp.Admin.Chars.{ascii_table}
use azure_sql_mcp.Admin.Preview.{Redaction}
use azure_sql_mcp.Admin.Audit.{Dispatch, Answer, answered, World}
use azure_sql_mcp.Admin.Execution.{apply}
use azure_sql_mcp.Admin.Execution.Trace.{IsHeld}
use azure_sql_mcp.Plan.{
  Platform, number, nothing, Regression, ForcedPlan, Action, force, query_store_regression,
  ownership_review, Review, review,
}
use azure_sql_mcp.Plan.Ranked.{IsBest, review-IsBest}
use azure_sql_mcp.Plan.Actions.{ticks, serve, normalize_action}
use azure_sql_mcp.Plan.Silent.{serve-IsHeld}

-- Lower case on ASCII.
abbrev lower_char : ℕ → ℕ
lower_char c = if leb b'A' c && leb c b'Z' then c + 32 else c

abbrev platform : Platform
platform = record {
  casefold = map lower_char;
  int_of = λ s. none;
  Score = ℕ;
  zero_score = 0;
  score_of = λ n. n;
  higher = λ a b. ltb b a;
}

higher_asym : (x y : ℕ) → ltb y x ≡ true → ltb x y ≡ false
higher_asym x y h = ground arith

higher_chain : (x y z : ℕ) → ltb y x ≡ false → ltb z y ≡ false → ltb z x ≡ false
higher_chain x y z h k = ground arith

abbrev regression : ℕ → ℕ → Regression ℕ
regression query score = record {
  query_id = number query;
  recommended_plan_id = number 9;
  score = some score;
  current_state = some (codes "Active");
  state_reason = some (codes "AutomaticTuningOptionNotEnabled");
  initiated_by = some (codes "User");
  is_executable = true;
  is_forced = some false;
  live = true;
}

-- The engine owns this one.
abbrev owned_regression : Regression ℕ
owned_regression = record (regression 3 90) { initiated_by = some (codes "System") }

abbrev stale_plan : ForcedPlan
stale_plan = record {
  query_id = number 5;
  plan_id = number 6;
  force_failure_count = number 0;
  days_since_last_exec = number 31;
  last_failure = some (codes "NONE");
  query_recent_execution_count = number 0;
  recent_execution_count = nothing;
  forcing_type = some (codes "MANUAL");
}

abbrev automatic_plan : ForcedPlan
automatic_plan = record stale_plan { forcing_type = some (codes "AUTO") }

abbrev regressions : List (Regression ℕ)
regressions = regression 1 40 ∷ owned_regression ∷ regression 2 70 ∷ []

abbrev forced_plans : List ForcedPlan
forced_plans = stale_plan ∷ automatic_plan ∷ []

abbrev forced_action : ℕ → ℕ → Action ℕ
forced_action query score = record {
  kind = force;
  query_id = query;
  plan_id = 9;
  because = query_store_regression;
  score = score;
  priority = 100;
}

review_two :
    review platform 1440 2 regressions forced_plans
    ≡ returned (record {
      recommended_actions = forced_action 2 70 ∷ forced_action 1 40 ∷ [];
      excluded_recommendations = ownership_review ∷ ownership_review ∷ [];
      is_explained = false;
    })
unfolding review
review_two = refl

review-IsBest_example :
    (v : Review platform) × (review platform 1440 2 regressions forced_plans ≡ returned v)
    × IsBest platform 2 regressions forced_plans v
review-IsBest_example =
    review-IsBest platform higher_asym higher_chain 1440 2 regressions forced_plans (omega arith)
      (omega arith)

abbrev redaction : Redaction
redaction = record {
  sha256_hex = λ s. codes "00";
  redact_sql_literals = λ s. s;
  sanitize_error_message = λ s. s;
}

abbrev executor : Dispatch → Answer
executor d = answered 1

abbrev nothing_yet : World
nothing_yet = record { log = []; dispatched = []; next_id = 1 }

force_word : normalize_action (map lower_char) (λ n. []) (codes "Force_Plan") ≡ some force
unfolding normalize_action
force_word = refl

serve-IsHeld_example :
    IsHeld nothing_yet
      (serve
        (map lower_char)
        (λ n. codes "7")
        ⦃chars = ascii_table⦄
        redaction
        false
        apply
        executor
        platform
        (ticks (codes "shop") 1440 2 true regressions forced_plans)
        nothing_yet).1
serve-IsHeld_example =
    serve-IsHeld (map lower_char) (λ n. codes "7") ⦃chars = ascii_table⦄ redaction false apply
      executor platform (ticks (codes "shop") 1440 2 true regressions forced_plans) nothing_yet
