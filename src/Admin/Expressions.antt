-- ===== src/Admin/Expressions.antt =====
-- The readers of token sequences in src/azure_sql_mcp/admin_policy.py that find the text of an
-- `EXEC`. An index into the tokens is the suffix that starts there.
use azure_sql_mcp.Shared.{
  ℕ, suc, ◌-◌, Bool, true, false, ◌&&◌, ◌||◌, not, Option, none, some, List, [], ◌∷◌, ◌++◌, leb,
  ◌==◌, if◌then◌else◌,
}
use azure_sql_mcp.Shared.Text.{Text, codes, text_eq}
use azure_sql_mcp.Admin.Tokens.{
  Kind, Token, word, text_literal, quoted, identifier, variable, number, symbol,
}

unfoldable pub kind_eq : Kind → Kind → Bool
kind_eq word word = true
kind_eq text_literal text_literal = true
kind_eq quoted quoted = true
kind_eq identifier identifier = true
kind_eq variable variable = true
kind_eq number number = true
kind_eq symbol symbol = true
kind_eq _ _ = false

-- token.kind == k and token.value == v
unfoldable pub is_token : Kind → Text → Token → Bool
unfolding kind_eq text_eq
is_token k v t = kind_eq t.kind k && text_eq t.value v

abbrev pub is_symbol : Text → Token → Bool
is_symbol v t = is_token symbol v t

abbrev pub is_word : Text → Token → Bool
is_word v t = is_token word v t

-- dict[str, str | None]; `get` gives `none` for a missing name too.
abbrev pub Known : Type 0
Known = List (Text × Option Text)

unfoldable pub get : Text → Known → Option Text
get k [] = none
get k ((j, v) ∷ m) = if text_eq j k then v else get k m

unfoldable pub put : Text → Option Text → Known → Known
put k v [] = (k, v) ∷ []
put k v ((j, w) ∷ m) = if text_eq j k then (k, v) ∷ m else (j, w) ∷ put k v m

-- What a token adds to a literal: nothing for `+` and brackets, `none` where it ends the literal.
unfoldable pub literal_piece : Known → Token → Option Text
unfolding kind_eq is_token get
literal_piece known t =
    if kind_eq t.kind text_literal || kind_eq t.kind quoted
    then some t.value
    else if kind_eq t.kind variable
    then get t.value known
    else if is_symbol (codes "+") t || is_symbol (codes "(") t || is_symbol (codes ")") t
    then some []
    else none

-- values.append, skipped for `+` and brackets
unfoldable pub adds_value : Token → Bool
unfolding kind_eq
adds_value t = not (kind_eq t.kind symbol)

abbrev pub join : Text → Option Text → Option Text
join v none = none
join v (some w) = some (v ++ w)

-- The loop of `_literal_concatenation`; `started` says that `values` is not empty.
unfoldable pub concatenation_loop : Known → Bool → List Token → Option Text
unfolding literal_piece adds_value
concatenation_loop known started [] = if started then some [] else none
concatenation_loop known started (t ∷ ts) =
    let on = concatenation_loop known (started || adds_value t) ts in
    elim (literal_piece known t) [ none ↦ none | some v ↦ join v on ]

unfoldable pub literal_concatenation : Known → List Token → Option Text
unfolding concatenation_loop
literal_concatenation known ts = concatenation_loop known false ts

-- The loop of `_literal_prefix` breaks where the other one gives up.
unfoldable pub prefix_loop : Known → Bool → List Token → Option Text
unfolding literal_piece adds_value
prefix_loop known started [] = if started then some [] else none
prefix_loop known started (t ∷ ts) =
    let on = prefix_loop known (started || adds_value t) ts in
    elim (literal_piece known t) [ none ↦ if started then some [] else none | some v ↦ join v on ]

unfoldable pub literal_prefix : Known → List Token → Option Text
unfolding prefix_loop
literal_prefix known ts = prefix_loop known false ts

abbrev pub keep : Token → Option (List Token) → Option (List Token)
keep t none = none
keep t (some us) = some (t ∷ us)

-- tokens[open_index + 1 : close_index], from behind the opening bracket, at depth 1.
unfoldable pub matching_closing_parenthesis : ℕ → List Token → Option (List Token)
unfolding is_token
matching_closing_parenthesis depth [] = none
matching_closing_parenthesis depth (t ∷ ts) =
    let opened = keep t (matching_closing_parenthesis (suc depth) ts) in
    let closed = keep t (matching_closing_parenthesis (depth - 1) ts) in
    let on = keep t (matching_closing_parenthesis depth ts) in
    if is_symbol (codes "(") t
    then opened
    else if is_symbol (codes ")") t
    then (if leb depth 1 then some [] else closed)
    else on

-- tokens[cursor:end] of `_first_argument_expression`.
unfoldable pub argument_loop : ℕ → List Token → List Token
unfolding is_token
argument_loop depth [] = []
argument_loop depth (t ∷ ts) =
    let opened = t ∷ argument_loop (suc depth) ts in
    let closed = t ∷ argument_loop (depth - 1) ts in
    let on = t ∷ argument_loop depth ts in
    if is_symbol (codes "(") t
    then opened
    else if is_symbol (codes ")") t
    then (if depth == 0 then [] else closed)
    else if depth == 0 && (is_symbol (codes ",") t || is_symbol (codes ";") t)
    then []
    else on

-- Past `@name =`, where the suffix begins with it.
unfoldable pub skip_named_argument : List Token → List Token
unfolding is_token
skip_named_argument (t ∷ u ∷ ts) =
    if kind_eq t.kind variable && is_symbol (codes "=") u then ts else t ∷ u ∷ ts
skip_named_argument ts = ts

unfoldable pub first_argument_expression : List Token → Option (List Token)
unfolding skip_named_argument argument_loop
first_argument_expression [] = none
first_argument_expression (t ∷ ts) = some (argument_loop 0 (skip_named_argument (t ∷ ts)))

abbrev pub names_module : Token → Bool
names_module t = kind_eq t.kind word || kind_eq t.kind identifier

-- Past `;2`, the number of a procedure in its group.
unfoldable pub skip_group_number : List Token → List Token
unfolding is_token
skip_group_number (t ∷ u ∷ ts) =
    if is_symbol (codes ";") t && kind_eq u.kind number then ts else t ∷ u ∷ ts
skip_group_number ts = ts

-- The loop of `_qualified_name`: the last part of a dotted name, and what follows it.
unfoldable pub qualified_parts : Text → List Token → List Token × Text
unfolding is_token skip_group_number
qualified_parts name (t ∷ u ∷ ts) =
    let on = qualified_parts u.value ts in
    if is_symbol (codes ".") t && names_module u then on else (skip_group_number (t ∷ u ∷ ts), name)
qualified_parts name ts = (ts, name)

unfoldable pub qualified_name : List Token → List Token × Option Text
unfolding qualified_parts kind_eq
qualified_name [] = ([], none)
qualified_name (t ∷ ts) =
    let (rest, name) = qualified_parts t.value ts in
    if names_module t then (rest, some name) else (t ∷ ts, none)

abbrev pub is_name : Text → Option Text → Bool
is_name n none = false
is_name n (some m) = text_eq m n

unfoldable pub executed_module : List Token → Option (List Token)
unfolding qualified_name first_argument_expression text_eq
executed_module ts =
    let (rest, name) = qualified_name ts in
    if is_name (codes "SP_EXECUTESQL") name then first_argument_expression rest else none

abbrev pub at_bracket : List Token → Option (List Token)
at_bracket [] = none
at_bracket (t ∷ ts) =
    if is_symbol (codes "(") t then matching_closing_parenthesis 1 ts else executed_module (t ∷ ts)

-- Its argument is what follows `EXEC`.
unfoldable pub executed_literal_expression : List Token → Option (List Token)
unfolding skip_named_argument executed_module matching_closing_parenthesis
executed_literal_expression ts = at_bracket (skip_named_argument ts)
