-- ===== src/Admin/Audit.antt =====
-- `AdminAction`, `AdminAuditLog` and the executor's answers, of src/azure_sql_mcp/admin_policy.py.
use azure_sql_mcp.Shared.{
  ℕ, suc, Bool, true, false, ◌||◌, ◌&&◌, Option, none, some, List, [], ◌∷◌, ◌++◌, any, length, ◌==◌,
  if◌then◌else◌,
}
use azure_sql_mcp.Shared.Text.{Text, codes}
use azure_sql_mcp.Admin.Chars.{CharTable, upper}
use azure_sql_mcp.Admin.Preview.{Redaction, hash_sql, preview_sql}

pub record AdminAction : Type 0 where
  pub tool_name : Text
  pub database_name : Text
  pub action_type : Text
  pub sql : Text
  pub params : List Text
  pub rollback_sql : Option Text
  pub rollback_params : List Text
  pub trusted_generated : Bool
  pub reviewed_intent : Bool
  pub idempotency_key : Option Text
  pub exactly_once : Bool
  pub policy_verified : Bool
  pub non_production : Bool
  pub verification_required : Bool

pub data Outcome : Type 0 where
  preview blocked apply_started apply_completed apply_failed apply_outcome_unknown : Outcome

-- The lines that `record` appends to the audit file, but for the time stamp.
pub record Event : Type 0 where
  pub audit_id : ℕ
  pub tool_name : Text
  pub database_name : Text
  pub action_type : Text
  pub outcome : Outcome
  pub sql_hash : Text
  pub sql_preview : Text
  pub param_count : ℕ
  pub idempotency_key_hash : Option Text
  pub rollback_sql : Option Text
  pub rollback_param_count : Option ℕ
  pub sql : Option Text
  pub error : Option Text

-- How a statement reaches the database: `execute_batches` in its default mode or in
-- `BatchExecutionMode.ADMIN`, or `execute_non_query`.
pub data Lane : Type 0 where
  batches admin_batches non_query : Lane

pub record Dispatch : Type 0 where
  pub lane : Lane
  pub database_name : Text
  pub sql : Text
  pub params : List Text

-- One exception of a chain `__cause__ or __context__`, with `str(argument)` of its arguments.
pub record Link : Type 0 where
  pub is_timeout : Bool
  pub args : List Text

pub data Answer : Type 0 where
  -- the number of result sets of a batch, or of rows of a non-query
  answered : ℕ → Answer
  cancelled : Text → Answer
  -- `outcome_unknown` marks an AdminBatchOutcomeUnknownError; then str(exc) and the chain
  failed : Bool → Text → List Link → Answer

-- The audit file, newest line last; what was sent to the executor, newest last; and the next
-- fresh `uuid4`.
pub record World : Type 0 where
  pub log : List Event
  pub dispatched : List Dispatch
  pub next_id : ℕ

-- A text as a condition of Python: neither `None` nor empty.
abbrev pub truthy_text : Option Text → Bool
truthy_text none = false
truthy_text (some []) = false
truthy_text (some (c ∷ s)) = true

abbrev pub text_or_empty : Option Text → Text
text_or_empty none = []
text_or_empty (some s) = s

abbrev pub when {ℓ} : {A : Type ℓ} → Bool → A → Option A
when b a = if b then some a else none

-- needle in text
unfoldable pub is_prefix : Text → Text → Bool
is_prefix [] t = true
is_prefix (a ∷ s) [] = false
is_prefix (a ∷ s) (b ∷ t) = a == b && is_prefix s t

unfoldable pub occurs_in : Text → Text → Bool
unfolding is_prefix
occurs_in s [] = is_prefix s []
occurs_in s (b ∷ t) = is_prefix s (b ∷ t) || occurs_in s t

abbrev timeout_markers : List Text
timeout_markers = codes "HYT00" ∷ codes "HYT01" ∷ codes "QUERY TIMEOUT" ∷ codes "TIMED OUT" ∷ []

module _ ⦃chars : CharTable⦄ where
  -- A cycle of causes is cut by the source's `seen`, so a chain is a finite list.
  unfoldable pub is_timeout_error : List Link → Bool
  unfolding any occurs_in upper
  is_timeout_error chain =
      any (λ l. l.is_timeout || any (λ a. any (λ m. occurs_in m (upper a)) timeout_markers) l.args)
        chain

  module _ (r : Redaction) (include_full_sql : Bool) where
    unfoldable pub event_of : AdminAction → Outcome → ℕ → Option Text → Event
    event_of a o id error = record {
      audit_id = id;
      tool_name = a.tool_name;
      database_name = a.database_name;
      action_type = a.action_type;
      outcome = o;
      sql_hash = hash_sql r a.sql;
      sql_preview = preview_sql r 500 a.sql;
      param_count = length a.params;
      idempotency_key_hash = when a.exactly_once (hash_sql r (text_or_empty a.idempotency_key));
      rollback_sql =
          when (truthy_text a.rollback_sql) (r.redact_sql_literals (text_or_empty a.rollback_sql));
      rollback_param_count = when (truthy_text a.rollback_sql) (length a.rollback_params);
      sql = when include_full_sql a.sql;
      error = when (truthy_text error) (r.sanitize_error_message (text_or_empty error));
    }

    -- `record` with a new identifier, and with one that is given.
    unfoldable pub record_new : AdminAction → Outcome → Option Text → World → World
    record_new a o error w = record w {
      log = w.log ++ event_of a o w.next_id error ∷ [];
      next_id = suc w.next_id;
    }

    unfoldable pub record_as : AdminAction → Outcome → ℕ → Option Text → World → World
    record_as a o id error w = record w { log = w.log ++ event_of a o id error ∷ [] }
