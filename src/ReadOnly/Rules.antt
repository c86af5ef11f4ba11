-- ===== src/ReadOnly/Rules.antt =====
-- The rules on the text of a query: `_check_text_rules` of src/azure_sql_mcp/safe_sql.py, with its
-- regular expressions as searches. When re.IGNORECASE takes a character for one of the pattern is a
-- parameter.
use azure_sql_mcp.Shared.{
  ℕ, Bool, true, false, ◌&&◌, ◌||◌, not, Option, none, some, List, [], ◌∷◌, ◌==◌, if◌then◌else◌,
  any, String,
}
use azure_sql_mcp.Shared.Text.{Text, codes, text_eq}
use azure_sql_mcp.Admin.Chars.{CharTable, ascii_alpha, ascii_digit}
use azure_sql_mcp.ReadOnly.{lex}
use azure_sql_mcp.ReadOnly.Words.{member, code_words}

-- `LOCKING_HINTS`
abbrev pub locking_hints : List String
locking_hints =
    "UPDLOCK" ∷ "XLOCK" ∷ "TABLOCKX" ∷ "TABLOCK" ∷ "HOLDLOCK" ∷ "SERIALIZABLE" ∷ "REPEATABLEREAD"
    ∷ "READCOMMITTEDLOCK" ∷ []

-- [A-Za-z0-9_]
abbrev pub is_name_char : ℕ → Bool
is_name_char c = ascii_alpha c || (ascii_digit c || c == b'_')

abbrev pub name_follows : Text → Bool
name_follows [] = false
name_follows (c ∷ s) = is_name_char c

-- `TEMP_TABLE_PATTERN`
unfoldable pub has_temp_table : Text → Bool
has_temp_table [] = false
has_temp_table (c ∷ s) = (c == b'#' && name_follows s) || has_temp_table s

pub data Rule : Type 0 where
  unterminated batch_separator dbcc execute_as exec rowset temp_table waitfor sp_executesql : Rule
  locking_hint max_recursion : Rule

abbrev pub is_empty : Text → Bool
is_empty [] = true
is_empty (c ∷ s) = false

module _ ⦃chars : CharTable⦄ where
  -- \w
  abbrev pub is_word_char : ℕ → Bool
  is_word_char c = chars.is_alnum c || c == b'_'

  abbrev pub ends_word : Option Text → Bool
  ends_word none = false
  ends_word (some []) = true
  ends_word (some (c ∷ s)) = not (is_word_char c)

  abbrev pub ends_space : Option Text → Bool
  ends_space none = false
  ends_space (some []) = true
  ends_space (some (c ∷ s)) = chars.is_space c

  -- \s* at the start
  unfoldable pub skip_spaces : Text → Text
  skip_spaces [] = []
  skip_spaces (c ∷ s) = let rest = skip_spaces s in if chars.is_space c then rest else c ∷ s

  unfoldable pub strip_end : Text → Text
  strip_end [] = []
  strip_end (c ∷ s) =
      let rest = strip_end s in if is_empty rest && chars.is_space c then [] else c ∷ rest

  -- sql.strip()
  unfoldable pub strip : Text → Text
  unfolding skip_spaces strip_end
  strip s = strip_end (skip_spaces s)

  -- \s+ at the start
  abbrev pub skip_some : Option Text → Option Text
  skip_some none = none
  skip_some (some []) = none
  skip_some (some (c ∷ s)) = if chars.is_space c then some (skip_spaces s) else none

  module _ (alike : ℕ → ℕ → Bool) where
    -- What stands behind the pattern at the start of the text.
    unfoldable pub behind_match : Text → Text → Option Text
    behind_match [] s = some s
    behind_match (k ∷ ks) [] = none
    behind_match (k ∷ ks) (c ∷ s) = let rest = behind_match ks s in if alike k c then rest else none

    abbrev pub match_after : Text → Option Text → Option Text
    match_after k none = none
    match_after k (some s) = behind_match k s

    -- Search for \bk\b, behind a character that is one of \w or not.
    unfoldable pub has_word : Text → Bool → Text → Bool
    unfolding behind_match
    has_word k inside [] = false
    has_word k inside (c ∷ s) =
        (not inside && ends_word (behind_match k (c ∷ s))) || has_word k (is_word_char c) s

    -- Search for \bk\s+l\b
    unfoldable pub has_phrase : Text → Text → Bool → Text → Bool
    unfolding behind_match skip_spaces
    has_phrase k l inside [] = false
    has_phrase k l inside (c ∷ s) =
        (not inside && ends_word (match_after l (skip_some (behind_match k (c ∷ s)))))
        || has_phrase k l (is_word_char c) s

    -- `GO_PATTERN`: the flag says that the text starts here, or a white space stands before.
    unfoldable pub has_go : Bool → Text → Bool
    unfolding behind_match
    has_go parted [] = false
    has_go parted (c ∷ s) =
        (parted && ends_space (behind_match (codes "GO") (c ∷ s))) || has_go (chars.is_space c) s

    abbrev pub finds : String → Text → Bool
    finds k = has_word (codes k) false

    module _ (normalize : Text → Text) where
      -- `_check_text_rules`: the rule that the text breaks first, if any.
      unfoldable pub check_text_rules : Text → Option Rule
      unfolding lex has_go has_word has_phrase has_temp_table code_words any text_eq
      check_text_rules sql =
          let lexed = lex sql in
          let candidate = lexed.code in
          if not lexed.terminated
          then some unterminated
          else if has_go true candidate
          then some batch_separator
          else if finds "DBCC" candidate
          then some dbcc
          else if has_phrase (codes "EXECUTE") (codes "AS") false candidate
          then some execute_as
          else if finds "EXEC" candidate || finds "EXECUTE" candidate
          then some exec
          else if finds "OPENROWSET" candidate
              || (finds "OPENQUERY" candidate || finds "OPENDATASOURCE" candidate)
          then some rowset
          else if has_temp_table candidate
          then some temp_table
          else if finds "WAITFOR" candidate
          then some waitfor
          else if finds "sp_executesql" candidate
          then some sp_executesql
          else if any (λ w. member w locking_hints) (code_words normalize true sql)
          then some locking_hint
          else if has_phrase (codes "MAXRECURSION") (codes "0") false candidate
          then some max_recursion
          else none
