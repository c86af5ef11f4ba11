-- ===== src/Admin/Tokens.antt =====
-- The T-SQL scanner of src/azure_sql_mcp/admin_policy.py. An index into the text is the suffix
-- that starts there.
pub mod Fuel
pub mod Gaps
pub mod Render
pub mod RoundTrip
use azure_sql_mcp.Shared.{
  ℕ, zero, suc, Bool, true, false, ◌&&◌, ◌||◌, Option, none, some, List, [], ◌∷◌, ◌==◌, length,
  if◌then◌else◌,
}
use azure_sql_mcp.Shared.Text.{Text}
use azure_sql_mcp.Admin.Chars.{CharTable, upper}

pub data Kind : Type 0 where
  word text_literal quoted identifier variable number symbol : Kind

pub record Token : Type 0 where
  pub kind : Kind
  pub value : Text

abbrev pub token : Kind → Text → Token
token k v = record { kind = k; value = v }

-- sql[index] == c, false at the end
abbrev pub next_is : ℕ → Text → Bool
next_is c [] = false
next_is c (d ∷ s) = d == c

abbrev pub rest_of : Text → Text
rest_of [] = []
rest_of (c ∷ s) = s

unfoldable pub skip_line_comment : Text → Text
skip_line_comment [] = []
skip_line_comment (c ∷ s) =
    let rest = skip_line_comment s in if c == 13 || c == 10 then c ∷ s else rest

-- The first argument is the depth of nesting.
unfoldable pub skip_block_comment : ℕ → Text → Text
skip_block_comment zero s = s
skip_block_comment (suc d) [] = []
skip_block_comment (suc d) (c ∷ []) = []
skip_block_comment (suc d) (c ∷ e ∷ s) =
    let opened = skip_block_comment (suc (suc d)) s in
    let closed = skip_block_comment d s in
    let on = skip_block_comment (suc d) (e ∷ s) in
    if c == b'/' && e == b'*' then opened else if c == b'*' && e == b'/' then closed else on

abbrev pub push_char : ℕ → Text × Text → Text × Text
push_char c (value, rest) = (c ∷ value, rest)

-- The text behind the opening quote: the content up to the closing quote, where a doubled quote
-- stands for one, and what follows.
unfoldable pub read_quoted_content : ℕ → Text → Text × Text
read_quoted_content quote [] = ([], [])
read_quoted_content quote (c ∷ []) = if c == quote then ([], []) else (c ∷ [], [])
read_quoted_content quote (c ∷ d ∷ s) =
    let on = push_char c (read_quoted_content quote (d ∷ s)) in
    let doubled = push_char quote (read_quoted_content quote s) in
    if c == quote then (if d == quote then doubled else ([], d ∷ s)) else on

-- The same for `[name]`, where `]]` stands for one bracket.
unfoldable pub read_bracket_identifier : Text → Text × Text
read_bracket_identifier [] = ([], [])
read_bracket_identifier (c ∷ []) = if c == b']' then ([], []) else (c ∷ [], [])
read_bracket_identifier (c ∷ d ∷ s) =
    let on = push_char c (read_bracket_identifier (d ∷ s)) in
    let doubled = push_char b']' (read_bracket_identifier s) in
    if c == b']' then (if d == b']' then doubled else ([], d ∷ s)) else on

-- The loops `while index < len(sql) and p(sql[index])`.
unfoldable pub span : (ℕ → Bool) → Text → Text × Text
span p [] = ([], [])
span p (c ∷ s) = let on = push_char c (span p s) in if p c then on else ([], c ∷ s)

-- A pass of the loop: the token that it appends, if any, and the text that is left.
abbrev pub Pass : Type 0
Pass = Option Token × Text

abbrev emit : Kind → Text × Text → Pass
emit k (value, rest) = (some (token k value), rest)

module _ ⦃chars : CharTable⦄ where
  abbrev pub in_variable : ℕ → Bool
  in_variable c = chars.is_alnum c || c == b'_' || c == b'@' || c == b'$' || c == b'#'

  abbrev pub in_word : ℕ → Bool
  in_word c = chars.is_alnum c || c == b'_' || c == b'#' || c == b'$'

  abbrev pub starts_word : ℕ → Bool
  starts_word c = chars.is_alpha c || c == b'_' || c == b'#' || c == b'$'

  abbrev emit_upper : Kind → Text × Text → Pass
  emit_upper k (value, rest) = (some (token k (upper value)), rest)

  -- The branches from "[" on.
  unfoldable pub scan_name : ℕ → Text → Pass
  scan_name c s =
      if c == b'['
      then emit_upper identifier (read_bracket_identifier s)
      else if c == b'@'
      then emit_upper variable (push_char c (span in_variable s))
      else if chars.is_digit c
      then emit number (push_char c (span chars.is_digit s))
      else if starts_word c
      then emit_upper word (push_char c (span in_word s))
      else (some (token symbol (c ∷ [])), s)

  -- The body of the `while` loop of `_tokenize_sql`, at the character `c` before `s`.
  unfoldable pub scan_token : ℕ → Text → Pass
  unfolding scan_name
  scan_token c s =
      if chars.is_space c
      then (none, s)
      else if c == b'-' && next_is b'-' s
      then (none, skip_line_comment (rest_of s))
      else if c == b'/' && next_is b'*' s
      then (none, skip_block_comment 1 (rest_of s))
      else if (c == b'N' || c == b'n') && next_is 39 s
      then emit text_literal (read_quoted_content 39 (rest_of s))
      else if c == 39
      then emit text_literal (read_quoted_content 39 s)
      else if c == 34
      then emit quoted (read_quoted_content 34 s)
      else scan_name c s

  abbrev pub append_token : Option Token → List Token → List Token
  append_token none ts = ts
  append_token (some t) ts = t ∷ ts

  -- The loop, on fuel: a pass shortens the text, so its length is enough.
  unfoldable pub tokenize_from : ℕ → Text → List Token
  unfolding scan_token
  tokenize_from zero s = []
  tokenize_from (suc f) [] = []
  tokenize_from (suc f) (c ∷ s) =
      let (t, rest) = scan_token c s in append_token t (tokenize_from f rest)

  unfoldable pub tokenize_sql : Text → List Token
  unfolding tokenize_from skip_line_comment skip_block_comment read_quoted_content
      read_bracket_identifier span upper
  tokenize_sql sql = tokenize_from (length sql) sql
