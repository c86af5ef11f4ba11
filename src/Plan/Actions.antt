-- ===== src/Plan/Actions.antt =====
-- The actions of `PlanEnforcementService`, src/azure_sql_mcp/plan_enforcement.py, which go through the
-- admin policy.
use azure_sql_mcp.Shared.{
  ℕ, zero, suc, Bool, true, false, ◌||◌, Option, none, some, List, [], ◌∷◌, ◌++◌, ltb,
  if◌then◌else◌, take,
}
use azure_sql_mcp.Shared.Text.{Text, codes, text_eq}
use azure_sql_mcp.Shared.Raising.{Raising, ◌>>=◌, ◌>>◌, require, or_raise}
use azure_sql_mcp.Admin.Chars.{CharTable}
use azure_sql_mcp.Admin.Preview.{Redaction}
use azure_sql_mcp.Admin.Audit.{AdminAction, Dispatch, Answer, World, is_prefix}
use azure_sql_mcp.Admin.Execution.{
  WritePolicy, Payload, Result, returned, refused, raised, preview_action, execute,
}
use azure_sql_mcp.Plan.{
  Platform, Kind, force, unforce, Error, invalid_value, permission, Regression, ForcedPlan, Action,
  review,
}

-- `s.replace("_plan", "")`: the number of characters that are still left out of a match.
unfoldable pub remove_plan : ℕ → Text → Text
unfolding is_prefix
remove_plan skip [] = []
remove_plan zero (c ∷ s) =
    let gone = remove_plan 4 s in
    let on = remove_plan 0 s in if is_prefix (codes "_plan") (c ∷ s) then gone else c ∷ on
remove_plan (suc skip) (c ∷ s) = remove_plan skip s

abbrev pub word_of : Kind → Text
word_of force = codes "force"
word_of unforce = codes "unforce"

-- What a call returns or raises.
pub data Reply : Type 0 where
  fails : Error → Reply
  replies : Result → Reply
  previews : List Payload → Reply

abbrev pub or_fails : Raising Error (World → Reply × World) → World → Reply × World
or_fails (Raising.raised e) w = (fails e, w)
or_fails (Raising.returned k) w = k w

-- What follows a preview that returns; what it raises leaves the call.
abbrev pub and_then : Result × World → (Payload → World → Reply × World) → Reply × World
and_then (returned x, w) next = next x w
and_then (refused e, w) next = (replies (refused e), w)
and_then (raised e, w) next = (replies (raised e), w)

abbrev pub as_reply : Result × World → Reply × World
as_reply (x, w) = (replies x, w)

-- `s.strip().lower()` and `str` of a number are Python's.
module _ (strip_lower : Text → Text) (str_of : ℕ → Text) where
  -- `_normalize_action`
  unfoldable pub normalize_action : Text → Option Kind
  unfolding remove_plan text_eq
  normalize_action action =
      let normalized = remove_plan 0 (strip_lower action) in
      if text_eq normalized (codes "force") || text_eq normalized (codes "forced")
      then some force
      else if text_eq normalized (codes "unforce") || text_eq normalized (codes "unforced")
      then some unforce
      else none

  abbrev pub statement : Kind → Text
  statement force = codes "EXEC sp_query_store_force_plan @query_id = ?, @plan_id = ?"
  statement unforce = codes "EXEC sp_query_store_unforce_plan @query_id = ?, @plan_id = ?"

  abbrev pub opposite : Kind → Text
  opposite force = codes "EXEC sp_query_store_unforce_plan "
  opposite unforce = codes "EXEC sp_query_store_force_plan "

  abbrev pub plan_action : Text → Kind → ℕ → ℕ → Text → AdminAction
  plan_action database kind query plan tool = record {
    tool_name = tool;
    database_name = database;
    action_type = codes "query_store";
    sql = statement kind;
    params = str_of query ∷ str_of plan ∷ [];
    rollback_sql = some (
        opposite kind
        ++ (codes "@query_id = " ++ (str_of query ++ (codes ", @plan_id = " ++ str_of plan))));
    rollback_params = [];
    trusted_generated = true;
    reviewed_intent = false;
    idempotency_key = none;
    exactly_once = false;
    policy_verified = false;
    non_production = false;
    verification_required = false;
  }

  -- `_build_action`
  unfoldable pub build_action : Text → Text → ℕ → ℕ → Text → Raising Error AdminAction
  unfolding normalize_action
  build_action database action query plan tool = do
    kind ← or_raise (normalize_action action) invalid_value
    require (ltb 0 query) invalid_value
    require (ltb 0 plan) invalid_value
    Raising.returned (plan_action database kind query plan tool)

  module _ ⦃chars : CharTable⦄ (r : Redaction) (full : Bool) (policy : WritePolicy)
      (executor : Dispatch → Answer) where
    unfoldable pub dry_run_action : Text → Text → ℕ → ℕ → World → Reply × World
    unfolding build_action preview_action
    dry_run_action database action query plan = or_fails (do
      a ← build_action database action query plan (codes "dry_run_plan_action")
      Raising.returned (λ w. as_reply (preview_action r full policy executor a w)))

    unfoldable pub apply_action : Text → Text → ℕ → ℕ → Bool → World → Reply × World
    unfolding build_action execute
    apply_action database action query plan dry_run = or_fails (do
      require dry_run permission
      a ← build_action database action query plan (codes "apply_plan_action")
      Raising.returned (λ w. as_reply (execute r full policy executor a dry_run w)))

    -- The loop of `tick` over the candidates.
    unfoldable pub tick_each :
        {S : Type 0} → Text → List (Action S) → List Payload → World → Reply × World
    unfolding build_action preview_action
    tick_each database [] results w = (previews results, w)
    tick_each database (c ∷ cs) results w =
        let rest = tick_each database cs in
        or_fails
          (do
            a ←
                build_action database (word_of c.kind) c.query_id c.plan_id
                  (codes "plan_enforcer_tick")
            Raising.returned (λ v.
                and_then (preview_action r full policy executor a v)
                  (λ x v'. rest (results ++ x ∷ []) v')))
          w

    unfoldable pub tick :
        (p : Platform)
        → Text
        → ℕ
        → ℕ
        → Bool
        → List (Regression p.Score)
        → List ForcedPlan
        → World
        → Reply × World
    unfolding review tick_each
    tick p database window_minutes max_actions dry_run rs fs = or_fails (do
      require (ltb 0 max_actions) invalid_value
      require dry_run permission
      found ← review p window_minutes max_actions rs fs
      Raising.returned (tick_each database (take max_actions found.recommended_actions) []))

    -- The calls that name or choose an action.
    pub data Call (p : Platform) : Type 0 where
      dry_runs : Text → Text → ℕ → ℕ → Call p
      applies : Text → Text → ℕ → ℕ → Bool → Call p
      ticks : Text → ℕ → ℕ → Bool → List (Regression p.Score) → List ForcedPlan → Call p

    unfoldable pub serve : (p : Platform) → Call p → World → Reply × World
    unfolding dry_run_action apply_action tick
    serve p (dry_runs database action query plan) w = dry_run_action database action query plan w
    serve p (applies database action query plan dry_run) w =
        apply_action database action query plan dry_run w
    serve p (ticks database window_minutes max_actions dry_run rs fs) w =
        tick p database window_minutes max_actions dry_run rs fs w
