-- ===== src/Admin/Execution.antt =====
-- `AdminPolicy.preview`, `execute` and `execute_exactly_once` of src/azure_sql_mcp/admin_policy.py. The
-- executor is a function from what it is sent to its answer. A write to the audit file succeeds.
pub mod Trace
pub mod Gate
use azure_sql_mcp.Shared.{
  ℕ, suc, Bool, true, false, ◌&&◌, ◌||◌, not, Option, none, some, List, [], ◌∷◌, ◌++◌, length, any,
  if◌then◌else◌,
}
use azure_sql_mcp.Shared.Text.{Text, codes, text_eq}
use azure_sql_mcp.Admin.Chars.{CharTable}
use azure_sql_mcp.Admin.Preview.{Redaction, hash_sql, preview_sql}
use azure_sql_mcp.Admin.DropDatabase.{is_rejected}
use azure_sql_mcp.Admin.Audit.{
  AdminAction, Outcome, preview, blocked, apply_started, apply_completed, apply_failed,
  apply_outcome_unknown, Event, Lane, batches, admin_batches, non_query, Dispatch, Answer, answered,
  cancelled, failed, World, truthy_text, text_or_empty, when, is_timeout_error, record_new,
  record_as,
}

pub data WritePolicy : Type 0 where
  disabled review apply : WritePolicy

abbrev pub applies : WritePolicy → Bool
applies disabled = false
applies review = false
applies apply = true

-- The PermissionErrors; those of `_validate_exactly_once_action` leave no line in the audit file.
pub data Refusal : Type 0 where
  drop_database : ℕ → Refusal
  write_policy_required : ℕ → Refusal
  no_reviewed_intent no_idempotency_key no_rollback no_policy_verification : Refusal
  production_target no_verification : Refusal

pub data Status : Type 0 where
  dry_run completed : Status

pub record Payload : Type 0 where
  pub database_name : Text
  pub tool_name : Text
  pub action_type : Text
  pub status : Status
  pub audit_id : ℕ
  pub sql_preview : Text
  pub sql_hash : Text
  pub idempotency_key_hash : Option Text
  pub rollback_sql : Option Text
  pub rollback_param_count : Option ℕ
  pub param_count : Option ℕ
  pub rowcount : Option ℕ
  pub result_sets : Option ℕ

-- A return, a PermissionError, or the executor's exception raised again.
pub data Result : Type 0 where
  returned : Payload → Result
  refused : Refusal → Result
  raised : Answer → Result

abbrev drop_database_error : Text
drop_database_error = codes "SQL rejected by admin policy: DROP DATABASE is not allowed."

abbrev write_policy_error : Text
write_policy_error = codes "AZURE_SQL_WRITE_POLICY=apply is required for write execution."

abbrev pub dispatch_of : Lane → AdminAction → Dispatch
dispatch_of lane a = record {
  lane = lane;
  database_name = a.database_name;
  sql = a.sql;
  params = a.params;
}

abbrev pub rows_of : Lane → ℕ → Option ℕ
rows_of non_query n = some n
rows_of _ n = none

abbrev pub sets_of : Lane → ℕ → Option ℕ
sets_of non_query n = none
sets_of _ n = some n

-- The lane of `execute`.
unfoldable pub lane_of : AdminAction → Lane
unfolding text_eq
lane_of a =
    if text_eq a.action_type (codes "query")
    then (if text_eq a.tool_name (codes "execute_tsql_unrestricted")
        then admin_batches
        else batches)
    else non_query

abbrev pub refused_or : Option Refusal → World → Result × World → Result × World
refused_or none w accepted = accepted
refused_or (some e) w accepted = (refused e, w)

abbrev is_empty : List Text → Bool
is_empty [] = true
is_empty (s ∷ ss) = false

module _ ⦃chars : CharTable⦄ where
  -- not key or not key.strip()
  unfoldable pub is_blank : Option Text → Bool
  unfolding any
  is_blank none = true
  is_blank (some s) = not (any (λ c. not (chars.is_space c)) s)

  unfoldable pub validate_exactly_once_action : AdminAction → Option Refusal
  unfolding is_blank text_eq
  validate_exactly_once_action a =
      if not a.reviewed_intent
      then some no_reviewed_intent
      else if is_blank a.idempotency_key
      then some no_idempotency_key
      else if not (truthy_text a.rollback_sql)
          && not (text_eq a.tool_name (codes "drop_test_index"))
      then some no_rollback
      else if not a.policy_verified
      then some no_policy_verification
      else if not (text_eq a.action_type (codes "query_store")) && not a.non_production
      then some production_target
      else if not a.verification_required
      then some no_verification
      else none

  unfoldable pub payload : Redaction → AdminAction → Status → ℕ → Option ℕ → Option ℕ → Payload
  payload r a status id rows sets = record {
    database_name = a.database_name;
    tool_name = a.tool_name;
    action_type = a.action_type;
    status = status;
    audit_id = id;
    sql_preview = preview_sql r 500 a.sql;
    sql_hash = hash_sql r a.sql;
    idempotency_key_hash = when a.exactly_once (hash_sql r (text_or_empty a.idempotency_key));
    rollback_sql =
        when (truthy_text a.rollback_sql) (r.redact_sql_literals (text_or_empty a.rollback_sql));
    rollback_param_count = when (truthy_text a.rollback_sql) (length a.rollback_params);
    param_count = when (not (is_empty a.params)) (length a.params);
    rowcount = rows;
    result_sets = sets;
  }

  module _ (r : Redaction) (include_full_sql : Bool) (policy : WritePolicy)
      (executor : Dispatch → Answer) where
    -- `_validate_or_audit_block`, with what follows where the text is accepted.
    pub validate_or_audit_block : AdminAction → World → Result × World → Result × World
    unfolding record_new
    validate_or_audit_block a w accepted =
        if is_rejected a.sql
        then (
          refused (drop_database w.next_id),
          record_new r include_full_sql a blocked (some drop_database_error) w,
        )
        else accepted

    -- preview
    unfoldable pub preview_action : AdminAction → World → Result × World
    unfolding validate_or_audit_block
    preview_action a w = validate_or_audit_block a w (
      returned (payload r a dry_run w.next_id none none),
      record_new r include_full_sql a preview none w,
    )

    -- The `except` and `return` parts of the `try` block, from the executor's answer.
    settle : Lane → AdminAction → ℕ → Answer → World → Result × World
    unfolding record_as
    settle lane a id (answered n) w = (
      returned (payload r a completed id (rows_of lane n) (sets_of lane n)),
      record_as r include_full_sql a apply_completed id none w,
    )
    settle lane a id (cancelled s) w =
        (raised (cancelled s), record_as r include_full_sql a apply_outcome_unknown id (some s) w)
    settle lane a id (failed unknown s chain) w =
        let outcome =
          if unknown || is_timeout_error chain then apply_outcome_unknown else apply_failed in
        (raised (failed unknown s chain), record_as r include_full_sql a outcome id (some s) w)

    -- From the test of the write policy on, for the lane that the statement takes.
    pub apply_on : Lane → AdminAction → World → Result × World
    unfolding record_new settle
    apply_on lane a w =
        if applies policy
        then (let d = dispatch_of lane a in
            let started = record_new r include_full_sql a apply_started none w in
            settle lane a w.next_id (executor d)
              (record started { dispatched = started.dispatched ++ d ∷ [] }))
        else (
          refused (write_policy_required w.next_id),
          record_new r include_full_sql a blocked (some write_policy_error) w,
        )

    unfoldable pub execute_exactly_once : AdminAction → Bool → World → Result × World
    unfolding preview_action validate_exactly_once_action validate_or_audit_block apply_on
    execute_exactly_once action dry w =
        let a = record action { exactly_once = true } in
        if dry
        then preview_action a w
        else refused_or (validate_exactly_once_action a) w
            (validate_or_audit_block a w (apply_on admin_batches a w))

    unfoldable pub execute : AdminAction → Bool → World → Result × World
    unfolding execute_exactly_once preview_action validate_or_audit_block apply_on lane_of
    execute a dry w =
        if dry
        then preview_action a w
        else if a.exactly_once
        then execute_exactly_once a false w
        else validate_or_audit_block a w (apply_on (lane_of a) a w)
