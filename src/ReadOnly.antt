-- ===== src/ReadOnly.antt =====
-- The lexer of the read-only gate, src/azure_sql_mcp/safe_sql.py. An index into the text is the suffix
-- that starts there; `code` and `words` are lists of pieces, the last one first.
pub mod Words
pub mod Pieces
pub mod Lexed
pub mod Gate
pub mod Rules
pub mod Validate
pub mod Refused
pub mod Batch
pub mod Admitted
pub mod Examples
use azure_sql_mcp.Shared.{
  ℕ, zero, suc, Bool, true, false, ◌&&◌, ◌||◌, not, List, [], ◌∷◌, ◌++◌, ◌==◌, length,
  if◌then◌else◌, any,
}
use azure_sql_mcp.Shared.Text.{Text}
use azure_sql_mcp.Admin.Chars.{CharTable}

-- `_LexedSql`
pub record LexedSql : Type 0 where
  pub code : Text
  pub words : Text
  pub terminated : Bool

-- `_LINE_COMMENT_ENDS`
abbrev pub ends_line : ℕ → Bool
ends_line c = any (λ d. c == d) (13 ∷ 10 ∷ 11 ∷ 12 ∷ 133 ∷ 8232 ∷ 8233 ∷ [])

abbrev pub next_is : ℕ → Text → Bool
next_is c [] = false
next_is c (d ∷ s) = d == c

abbrev pub rest_of : Text → Text
rest_of [] = []
rest_of (c ∷ s) = s

unfoldable pub line_end : Text → Text
unfolding any
line_end [] = []
line_end (c ∷ s) = let rest = line_end s in if ends_line c then c ∷ s else rest

-- Whether the comments are all closed, and the text behind. The first argument is the depth.
unfoldable pub block_end : ℕ → Text → Bool × Text
block_end zero s = (true, s)
block_end (suc d) [] = (false, [])
block_end (suc d) (c ∷ []) = (false, [])
block_end (suc d) (c ∷ e ∷ s) =
    let opened = block_end (suc (suc d)) s in
    let closed = block_end d s in
    let on = block_end (suc d) (e ∷ s) in
    if c == b'/' && e == b'*' then opened else if c == b'*' && e == b'/' then closed else on

-- What is quoted, with its closing quote; whether there is one; and the text behind.
pub record Quoted : Type 0 where
  pub content : Text
  pub closed : Bool
  pub behind : Text

abbrev pub push : ℕ → Quoted → Quoted
push c q = record q { content = c ∷ q.content }

unfoldable pub quoted_end : ℕ → Text → Quoted
quoted_end close [] = record { content = []; closed = false; behind = [] }
quoted_end close (c ∷ []) = record { content = c ∷ []; closed = c == close; behind = [] }
quoted_end close (c ∷ d ∷ s) =
    let doubled = push c (push d (quoted_end close s)) in
    let on = push c (quoted_end close (d ∷ s)) in
    let here : Quoted = record { content = c ∷ []; closed = true; behind = d ∷ s } in
    if c == close then (if d == close then doubled else here) else on

-- The text behind a pass of the loop, with what it has appended.
pub record Scan : Type 0 where
  pub code : List Text
  pub words : List Text
  pub terminated : Bool
  pub behind : Text

abbrev pub append : Text → Text → Bool → Text → Scan → Scan
append c w closed rest st = record {
  code = c ∷ st.code;
  words = w ∷ st.words;
  terminated = st.terminated && closed;
  behind = rest;
}

abbrev pub last_of : Text → Text
last_of [] = []
last_of (c ∷ []) = c ∷ []
last_of (c ∷ d ∷ s) = last_of (d ∷ s)

abbrev pub is_n : List Text → Bool
is_n ((c ∷ []) ∷ code) = c == b'N' || c == b'n'
is_n _ = false

module _ ⦃chars : CharTable⦄ where
  abbrev ends_word : Text → Bool
  ends_word [] = false
  ends_word (c ∷ s) = chars.is_alnum c || any (λ d. c == d) (b'_' ∷ b'@' ∷ b'#' ∷ b'$' ∷ [])

  abbrev behind_word : List Text → Bool
  behind_word (n ∷ p ∷ code) = ends_word (last_of p)
  behind_word _ = false

  abbrev drop_first : List Text → List Text
  drop_first [] = []
  drop_first (p ∷ ps) = ps

  -- N'...' is one literal.
  abbrev pub drop_n : Scan → Scan
  drop_n st =
      if is_n st.code && not (behind_word st.code)
      then record st { code = drop_first st.code; words = drop_first st.words }
      else st

  abbrev pub literal : Quoted → Scan → Scan
  literal q st = append (b'?' ∷ []) (b'?' ∷ []) q.closed q.behind (drop_n st)

  abbrev pub identifier : ℕ → Quoted → Scan → Scan
  identifier c q st = append (c ∷ q.content) (b' ' ∷ []) q.closed q.behind st

  abbrev pub comment : Bool × Text → Scan → Scan
  comment (closed, rest) st = append (b' ' ∷ []) (b' ' ∷ []) closed rest st

  -- The body of the `while` loop, at the character `c` before `s`.
  unfoldable pub scan : ℕ → Text → Scan → Scan
  unfolding line_end block_end quoted_end any
  scan c s st =
      if c == b'-' && next_is b'-' s
      then comment (true, line_end (rest_of s)) st
      else if c == b'/' && next_is b'*' s
      then comment (block_end 1 (rest_of s)) st
      else if c == 39
      then literal (quoted_end 39 s) st
      else if c == b'['
      then identifier c (quoted_end b']' s) st
      else if c == 34
      then identifier c (quoted_end 34 s) st
      else append (c ∷ []) (c ∷ []) true s st

  -- "".join
  unfoldable pub join_pieces : List Text → Text
  join_pieces [] = []
  join_pieces (p ∷ ps) = join_pieces ps ++ p

  -- The loop, on fuel: a pass shortens the text, so its length is enough.
  unfoldable pub lex_from : ℕ → Text → Scan → LexedSql
  unfolding scan join_pieces
  lex_from zero s st = record {
    code = join_pieces st.code;
    words = join_pieces st.words;
    terminated = st.terminated;
  }
  lex_from (suc f) [] st = record {
    code = join_pieces st.code;
    words = join_pieces st.words;
    terminated = st.terminated;
  }
  lex_from (suc f) (c ∷ s) st = let after = scan c s st in lex_from f after.behind after

  -- `_lex`
  unfoldable pub lex : Text → LexedSql
  unfolding lex_from
  lex sql =
      lex_from (length sql) sql (record { code = []; words = []; terminated = true; behind = sql })
