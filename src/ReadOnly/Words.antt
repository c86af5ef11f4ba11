-- ===== src/ReadOnly/Words.antt =====
-- The words of a query and the gate on them: `_code_words` and `_check_statement_keywords` of
-- src/azure_sql_mcp/safe_sql.py. The NFKC form of a text is `unicodedata.normalize`, a parameter.
use azure_sql_mcp.Shared.{
  ℕ, Bool, false, ◌&&◌, ◌||◌, not, Option, none, some, List, [], ◌∷◌, ◌==◌, if◌then◌else◌, any,
  String, map,
}
use azure_sql_mcp.Shared.Text.{Text, codes, text_eq}
use azure_sql_mcp.Admin.Chars.{CharTable, upper}
use azure_sql_mcp.ReadOnly.{lex}

abbrev pub member : Text → List String → Bool
member w = any (λ k. text_eq (codes k) w)

-- `STATEMENT_KEYWORDS`
abbrev pub statement_keywords : List String
statement_keywords =
    "ALTER" ∷ "BACKUP" ∷ "BEGIN" ∷ "BREAK" ∷ "BULK" ∷ "CHECKPOINT" ∷ "CLOSE" ∷ "COMMIT" ∷ "CONTINUE"
    ∷ "CREATE" ∷ "DBCC" ∷ "DEALLOCATE" ∷ "DELETE" ∷ "DENY" ∷ "DISK" ∷ "DROP" ∷ "DUMP" ∷ "ERRLVL"
    ∷ "EXEC" ∷ "EXECUTE" ∷ "EXIT" ∷ "GOTO" ∷ "GRANT" ∷ "IF" ∷ "INSERT" ∷ "KILL" ∷ "LINENO" ∷ "LOAD"
    ∷ "OPEN" ∷ "PRINT" ∷ "RAISERROR" ∷ "READTEXT" ∷ "RECONFIGURE" ∷ "RESTORE" ∷ "RETURN" ∷ "REVERT"
    ∷ "REVOKE" ∷ "ROLLBACK" ∷ "SAVE" ∷ "SETUSER" ∷ "SHUTDOWN" ∷ "TRAN" ∷ "TRANSACTION" ∷ "TRUNCATE"
    ∷ "UPDATE" ∷ "UPDATETEXT" ∷ "WAITFOR" ∷ "WHILE" ∷ "WRITETEXT" ∷ []

abbrev pub is_statement : Text → Bool
is_statement w = member w statement_keywords

abbrev pub is_word : String → Text → Bool
is_word k w = text_eq (codes k) w

-- `_CONDITIONAL_KEYWORDS.get`
abbrev pub allowed_next : Text → Option (List String)
allowed_next w =
    if is_word "MERGE" w
    then some ("JOIN" ∷ "UNION" ∷ [])
    else if is_word "USE" w
    then some ("HINT" ∷ "PLAN" ∷ [])
    else if is_word "SET" w || is_word "DECLARE" w
    then some []
    else none

abbrev pub following : List Text → Text
following [] = []
following (w ∷ ws) = w

abbrev starts_with_at : Text → Bool
starts_with_at [] = false
starts_with_at (c ∷ s) = c == b'@'

abbrev allowed_before : Text → Text → Option (List String) → Bool
allowed_before w f none = not (is_statement w)
allowed_before w f (some next) =
    member f next || ((is_word "SET" w || is_word "DECLARE" w) && starts_with_at f)

-- Whether the loop goes on at a word, with the word that follows.
unfoldable pub passes : Text → Text → Bool
unfolding any text_eq
passes w f = allowed_before w f (allowed_next w)

-- `_check_statement_keywords`: the word that it refuses, if any.
unfoldable pub check_statement_keywords : List Text → Option Text
unfolding passes
check_statement_keywords [] = none
check_statement_keywords (w ∷ ws) =
    let rest = check_statement_keywords ws in if passes w (following ws) then rest else some w

-- re.findall on runs of characters: the runs that are not empty.
abbrev pub close_run : Text → List Text → List Text
close_run [] ws = ws
close_run (c ∷ s) ws = (c ∷ s) ∷ ws

module _ ⦃chars : CharTable⦄ where
  -- [\w@#$]
  abbrev pub in_word : ℕ → Bool
  in_word c = chars.is_alnum c || any (λ d. c == d) (b'_' ∷ b'@' ∷ b'#' ∷ b'$' ∷ [])

  -- The run that begins the text, and the runs behind it.
  unfoldable pub runs : Text → Text × List Text
  unfolding any
  runs [] = ([], [])
  runs (c ∷ s) =
      let (run, ws) = runs s in if in_word c then (c ∷ run, ws) else ([], close_run run ws)

  abbrev pub find_runs : Text → List Text
  find_runs s = let (run, ws) = runs s in close_run run ws

  module _ (normalize : Text → Text) where
    -- `_code_words`; the argument is `include_quoted`.
    unfoldable pub code_words : Bool → Text → List Text
    unfolding lex runs upper
    code_words quoted sql =
        let lexed = lex sql in
        map upper (find_runs (normalize (if quoted then lexed.code else lexed.words)))

    -- The gate on a query.
    unfoldable pub refused_word : Text → Option Text
    unfolding code_words check_statement_keywords
    refused_word sql = check_statement_keywords (code_words false sql)
