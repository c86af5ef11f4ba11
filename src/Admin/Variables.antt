-- ===== src/Admin/Variables.antt =====
-- `_update_known_sql_variable` of src/azure_sql_mcp/admin_policy.py and its helpers. Where the source
-- looks back from an index, the tokens before it are a list, the last one first.
use azure_sql_mcp.Shared.{
  ℕ, suc, ◌-◌, Bool, true, false, ◌&&◌, ◌||◌, not, Option, none, some, List, [], ◌∷◌, ◌++◌, ◌==◌,
  if◌then◌else◌,
}
use azure_sql_mcp.Shared.Text.{Text, codes}
use azure_sql_mcp.Admin.Tokens.{Token, word, variable, symbol}
use azure_sql_mcp.Admin.Expressions.{
  kind_eq, is_token, is_symbol, is_word, Known, get, put, literal_concatenation,
}

pub data Assignment : Type 0 where
  by_set by_select by_declare : Assignment

-- The scan back from the variable for a `DECLARE` of the same statement.
unfoldable pub declared_before : List Token → Option Assignment
unfolding is_token
declared_before [] = none
declared_before (t ∷ ts) =
    let on = declared_before ts in
    if is_symbol (codes ";") t
    then none
    else if is_word (codes "DECLARE") t
    then some by_declare
    else on

unfoldable pub assignment_kind : List Token → Option Assignment
unfolding is_token declared_before
assignment_kind [] = none
assignment_kind (t ∷ before) =
    if is_word (codes "SET") t
    then some by_set
    else if is_word (codes "SELECT") t
    then some by_select
    else declared_before (t ∷ before)

abbrev is_plus : Option Token → Bool
is_plus none = false
is_plus (some t) = is_symbol (codes "+") t

-- The loop of `_find_assignment_equals`: what follows the `=`, with `append`, which says that a `+`
-- stands between the variable and the `=`, directly before it. The second argument is the last
-- token, if any.
unfoldable pub find_assignment_equals : ℕ → Option Token → List Token → Option (Bool × List Token)
unfolding is_token kind_eq
find_assignment_equals depth last [] = none
find_assignment_equals depth last (t ∷ ts) =
    let opened = find_assignment_equals (suc depth) (some t) ts in
    let closed = find_assignment_equals (depth - 1) (some t) ts in
    let on = find_assignment_equals depth (some t) ts in
    if not (kind_eq t.kind symbol)
    then on
    else if is_symbol (codes "(") t
    then opened
    else if is_symbol (codes ")") t
    then closed
    else if depth == 0 && is_symbol (codes "=") t
    then some (is_plus last, ts)
    else if depth == 0 && (is_symbol (codes ",") t || is_symbol (codes ";") t)
    then none
    else on

abbrev ends_at_comma : Assignment → Bool
ends_at_comma by_set = false
ends_at_comma by_select = true
ends_at_comma by_declare = true

abbrev is_select : Assignment → Bool
is_select by_select = true
is_select _ = false

abbrev ends_select : Token → Bool
ends_select t = is_word (codes "FROM") t || is_word (codes "WHERE") t || is_word (codes "OPTION") t

-- tokens[start:end] of `_assignment_expression`; `first` says that `end` is still `start`.
unfoldable pub assignment_expression : Assignment → ℕ → Bool → List Token → List Token
unfolding is_token kind_eq
assignment_expression a depth first [] = []
assignment_expression a depth first (t ∷ ts) =
    let opened = t ∷ assignment_expression a (suc depth) false ts in
    let closed = t ∷ assignment_expression a (depth - 1) false ts in
    let on = t ∷ assignment_expression a depth false ts in
    if kind_eq t.kind symbol
    then (if is_symbol (codes "(") t
        then opened
        else if is_symbol (codes ")") t
        then closed
        else if depth == 0 && is_symbol (codes ";") t
        then []
        else if depth == 0 && ends_at_comma a && is_symbol (codes ",") t
        then []
        else on)
    else if depth == 0 && kind_eq t.kind word && (not first || (is_select a && ends_select t))
    then []
    else on

-- value = previous + value, on `+=`
unfoldable pub appended : Bool → Option Text → Option Text → Option Text
appended false previous value = value
appended true previous none = none
appended true none (some v) = none
appended true (some p) (some v) = some (p ++ v)

abbrev assign : Token → Known → Assignment → Option (Bool × List Token) → Known
assign t known a none = known
assign t known a (some (append, after)) =
    let value = literal_concatenation known (assignment_expression a 0 true after) in
    put t.value (appended append (get t.value known) value) known

abbrev assign_as : Token → List Token → Known → Option Assignment → Known
assign_as t after known none = known
assign_as t after known (some a) = assign t known a (find_assignment_equals 0 none after)

-- The variable stands at `t`, with `before` behind it and `after` ahead.
unfoldable pub update_known_sql_variable : List Token → Token → List Token → Known → Known
unfolding kind_eq assignment_kind find_assignment_equals assignment_expression literal_concatenation
    appended get put
update_known_sql_variable before t after known =
    if kind_eq t.kind variable then assign_as t after known (assignment_kind before) else known
