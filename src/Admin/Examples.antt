-- ===== src/Admin/Examples.antt =====
-- Runs of the model of src/azure_sql_mcp/admin_policy.py, over the ASCII tables, and its theorems at
-- concrete inputs.
use azure_sql_mcp.Shared.{◌≡◌, ◌⊎◌, refl, Bool, true, false, some, List, [], ◌∷◌, ◌++◌, arith}
use azure_sql_mcp.Shared.Text.{codes}
use azure_sql_mcp.Admin.Chars.{CharTable, ascii_table, upper}
use azure_sql_mcp.Admin.Tokens.{tokenize_sql}
use azure_sql_mcp.Admin.Tokens.Gaps.{
  Separator, blank, line_comment, block_comment, stop, plain, nested,
}
use azure_sql_mcp.Admin.Tokens.Render.{
  name, string, bracketed, mark, Source, IsSource, source_text, source_tokens,
}
use azure_sql_mcp.Admin.Tokens.RoundTrip.{tokenize_sql-source_text}
use azure_sql_mcp.Admin.Expressions.{is_token}
use azure_sql_mcp.Admin.DropDatabase.{contains_drop_database, is_rejected}
use azure_sql_mcp.Admin.DropDatabase.Direct.{is_rejected-drop_database, is_rejected-IsQuiet}
use azure_sql_mcp.Admin.DropDatabase.Dynamic.{
  exec_tokens, contains_drop_database-exec, nest, is_rejected-nest,
}
use azure_sql_mcp.Admin.Preview.{Redaction}
use azure_sql_mcp.Admin.Audit.{AdminAction, admin_batches, Dispatch, Answer, answered, World}
use azure_sql_mcp.Admin.Execution.{apply, execute, execute_exactly_once, lane_of}
use azure_sql_mcp.Admin.Execution.Trace.{IsHeld, IsApplied}
use azure_sql_mcp.Admin.Execution.Gate.{once, IsAuthorized, execute_exactly_once_gate, execute_gate}

instance abbrev ascii : CharTable
ascii = ascii_table

direct : is_rejected (codes "select 1; Drop/* x */ DATABASE foo") ≡ true
unfolding is_rejected
direct = refl

in_comment : is_rejected (codes "select 1 -- drop database x") ≡ false
unfolding is_rejected
in_comment = refl

dynamic :
    is_rejected (codes "declare @s nvarchar(max) = N'drop data'; set @s += 'base x'; exec (@s)")
    ≡ true
unfolding is_rejected
dynamic = refl

through_procedure : is_rejected (codes "exec sp_executesql N'exec (''drop database x'')'") ≡ true
unfolding is_rejected
through_procedure = refl

-- select [a]]b] + 'it''s' and nested comments
abbrev before : Source
before =
    (name b's' (codes "elect"), 32, [])
    ∷ (bracketed (codes "a]b"), 10, line_comment (codes "drop") ∷ [])
    ∷ (mark b'+', 32, [])
    ∷ (string (codes "it's"), 32, [])
    ∷ []

abbrev gap : List Separator
gap = block_comment (plain b'x' (nested (plain b'y' stop) stop)) ∷ blank 9 ∷ []

abbrev program : Source
program =
    before ++ (name b'd' (codes "RoP"), 32, gap) ∷ (name b'D' (codes "atabase"), 32, []) ∷ before

before-IsSource : IsSource before
before-IsSource = ground arith

program-IsSource : IsSource program
program-IsSource = ground arith

tokenize_sql-source_text_example : tokenize_sql (source_text program) ≡ source_tokens program
tokenize_sql-source_text_example = tokenize_sql-source_text program program-IsSource

is_rejected-drop_database_example : is_rejected (source_text program) ≡ true
unfolding upper
is_rejected-drop_database_example =
    is_rejected-drop_database before before b'd' b'D' 32 32 (codes "RoP") (codes "atabase") gap []
      program-IsSource refl refl

is_rejected-IsQuiet_example : is_rejected (source_text before) ≡ false
unfolding source_tokens upper is_token
is_rejected-IsQuiet_example = is_rejected-IsQuiet before before-IsSource (ground arith)

contains_drop_database-exec_example :
    contains_drop_database 3 (exec_tokens (codes "drop data") (codes "base x" ∷ []))
    ≡ contains_drop_database 2 (tokenize_sql (codes "drop database x"))
contains_drop_database-exec_example =
    contains_drop_database-exec 2 (codes "drop data") (codes "base x" ∷ [])

is_rejected-nest_example :
    is_rejected (nest 8 (codes "drop database x"))
    ≡ contains_drop_database 1 (tokenize_sql (codes "drop database x"))
is_rejected-nest_example = is_rejected-nest 8 (codes "drop database x") (omega arith)

abbrev redaction : Redaction
redaction = record {
  sha256_hex = λ s. s;
  redact_sql_literals = λ s. s;
  sanitize_error_message = λ s. s;
}

abbrev create_index : AdminAction
create_index = record {
  tool_name = codes "create_test_index";
  database_name = codes "sandbox";
  action_type = codes "ddl";
  sql = codes "create index i on t (c)";
  params = [];
  rollback_sql = some (codes "drop index i on t");
  rollback_params = [];
  trusted_generated = true;
  reviewed_intent = true;
  idempotency_key = some (codes "key");
  exactly_once = true;
  policy_verified = true;
  non_production = true;
  verification_required = true;
}

abbrev fresh : World
fresh = record { log = []; dispatched = []; next_id = 0 }

abbrev succeeds : Dispatch → Answer
succeeds d = answered 1

sent_once :
    (execute redaction false apply succeeds create_index false fresh).1.dispatched
    ≡ record {
      lane = admin_batches;
      database_name = codes "sandbox";
      sql = codes "create index i on t (c)";
      params = [];
    }
      ∷ []
unfolding execute execute_exactly_once is_rejected
sent_once = refl

execute_gate_example :
    let out = execute redaction false apply succeeds create_index false fresh in
    IsHeld fresh out.1
    ⊎ (◌≡◌ {A = Bool} false false
        × ((◌≡◌ {A = Bool} true false
              × IsApplied redaction false apply succeeds
                  (lane_of create_index)
                  create_index
                  fresh
                  out)
            ⊎ (◌≡◌ {A = Bool} true true
                × IsAuthorized (once create_index)
                × IsApplied redaction false apply succeeds admin_batches
                    (once create_index)
                    fresh
                    out)))
execute_gate_example = execute_gate redaction false apply succeeds create_index false fresh

execute_exactly_once_gate_example :
    let out = execute_exactly_once redaction false apply succeeds create_index false fresh in
    IsHeld fresh out.1
    ⊎ (◌≡◌ {A = Bool} false false
        × IsAuthorized (once create_index)
        × IsApplied redaction false apply succeeds admin_batches (once create_index) fresh out)
execute_exactly_once_gate_example =
    execute_exactly_once_gate redaction false apply succeeds create_index false fresh
