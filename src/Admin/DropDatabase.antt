-- ===== src/Admin/DropDatabase.antt =====
-- `_contains_statically_recognizable_drop_database` and `AdminPolicy.validate_sql` of
-- src/azure_sql_mcp/admin_policy.py.
pub mod Direct
pub mod Dynamic
pub mod Depth
use azure_sql_mcp.Shared.{
  ℕ, zero, suc, Bool, true, false, ◌&&◌, ◌||◌, Option, none, some, List, [], ◌∷◌, any,
  if◌then◌else◌,
}
use azure_sql_mcp.Shared.Text.{Text, codes, text_eq}
use azure_sql_mcp.Admin.Chars.{CharTable}
use azure_sql_mcp.Admin.Tokens.{Token, word, tokenize_sql}
use azure_sql_mcp.Admin.Expressions.{
  is_token, is_word, Known, literal_concatenation, literal_prefix, executed_literal_expression,
}
use azure_sql_mcp.Admin.Variables.{update_known_sql_variable}

-- `DROP` directly before `DATABASE`.
unfoldable pub has_drop_database : List Token → Bool
unfolding is_token
has_drop_database [] = false
has_drop_database (t ∷ []) = false
has_drop_database (t ∷ u ∷ ts) =
    (is_word (codes "DROP") t && is_word (codes "DATABASE") u) || has_drop_database (u ∷ ts)

-- `[candidate for candidate in (dynamic_sql, static_prefix) if candidate]`; the source drops a second
-- copy of the same text, which changes no result of `any`.
abbrev pub truthy : Option Text → List Text → List Text
truthy none ts = ts
truthy (some []) ts = ts
truthy (some (c ∷ s)) ts = (c ∷ s) ∷ ts

unfoldable pub candidates : Known → List Token → List Text
unfolding literal_concatenation literal_prefix
candidates known expression =
    truthy (literal_concatenation known expression) (truthy (literal_prefix known expression) [])

-- The expression that an `EXEC` at this token runs, if any.
unfoldable pub executed_expression : Token → List Token → Option (List Token)
unfolding is_token executed_literal_expression
executed_expression t after =
    if is_word (codes "EXEC") t || is_word (codes "EXECUTE") t
    then executed_literal_expression after
    else none

abbrev runs_drop : (Text → Bool) → Known → Option (List Token) → Bool
runs_drop rejects known none = false
runs_drop rejects known (some expression) = any rejects (candidates known expression)

-- The loop over the tokens. `rejects` is the call of the whole function on a literal.
unfoldable pub scan_executed : (Text → Bool) → List Token → List Token → Known → Bool
unfolding update_known_sql_variable executed_expression any candidates
scan_executed rejects before [] known = false
scan_executed rejects before (t ∷ after) known =
    let known' = update_known_sql_variable before t after known in
    runs_drop rejects known' (executed_expression t after)
    || scan_executed rejects (t ∷ before) after known'

abbrev pub max_dynamic_depth : ℕ
max_dynamic_depth = 8

module _ ⦃chars : CharTable⦄ where
  -- The first argument counts the levels that are left, `max_dynamic_depth + 1 - depth`.
  unfoldable pub contains_drop_database : ℕ → List Token → Bool
  unfolding has_drop_database scan_executed
  contains_drop_database zero tokens = false
  contains_drop_database (suc levels) tokens =
      has_drop_database tokens
      || scan_executed (λ s. contains_drop_database levels (tokenize_sql s)) [] tokens []

  -- `validate_sql` raises PermissionError on such a text.
  unfoldable pub is_rejected : Text → Bool
  unfolding contains_drop_database tokenize_sql
  is_rejected sql = contains_drop_database (suc max_dynamic_depth) (tokenize_sql sql)
