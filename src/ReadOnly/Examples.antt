-- ===== src/ReadOnly/Examples.antt =====
-- Queries on which the gate of src/azure_sql_mcp/safe_sql.py is tried, with ASCII characters.
use azure_sql_mcp.Shared.{
  ℕ, ◌==◌, ◌↔◌, Bool, false, ◌≡◌, refl, true, none, some, List, [], ◌∷◌, ◌++◌, any, map, arith,
}
use azure_sql_mcp.Shared.Text.{Text, codes, text_eq}
use azure_sql_mcp.Admin.Chars.{CharTable, ascii_table, ascii_upper, upper}
use azure_sql_mcp.ReadOnly.{lex, lex_from, scan, line_end, block_end, quoted_end, join_pieces}
use azure_sql_mcp.ReadOnly.Words.{runs, code_words, refused_word, check_statement_keywords, passes}
use azure_sql_mcp.ReadOnly.Pieces.{
  Piece, plain, text_literal, bracketed, line_comment, block_comment, doubled, repeat, piece_text,
  text_of, piece_code, code_of, words_of, stands, Stand,
}
use azure_sql_mcp.ReadOnly.Lexed.{lex-text_of}
use azure_sql_mcp.ReadOnly.Rules.{strip}
use azure_sql_mcp.ReadOnly.Validate.{
  Parser, query, harmless, supported, ValidatedQuery, validate_read_only, analyze_read_only,
}
use azure_sql_mcp.ReadOnly.Refused.{IsForbidden, lock_hint, analyze-IsForbidden}
use azure_sql_mcp.ReadOnly.Admitted.{IsAdmissible, validate_read_only-IsAdmissible}
use azure_sql_mcp.Shared.Raising.{returned}

instance abbrev chars : CharTable
chars = ascii_table

abbrev as_it_is : Text → Text
as_it_is s = s

abbrev plain_text : Text → List Piece
plain_text s = map plain s

-- SELECT N''' /*' , [a]]b]/*x*/ drop t--end
abbrev pieces : List Piece
pieces =
    plain_text (codes "SELECT ")
    ++ text_literal (39 ∷ codes " /*") ∷ plain_text (codes " , ")
    ++ bracketed (codes "a]b") ∷ block_comment 1 (codes "x") ∷ plain_text (codes " drop t")
    ++ line_comment (codes "end") ∷ []

pieces-Stand : Stand pieces
unfolding stands text_of piece_text doubled repeat any
pieces-Stand = ground arith

lex-text_of_example :
    lex (text_of pieces)
    ≡ record { code = code_of pieces; words = words_of pieces; terminated = true }
lex-text_of_example = lex-text_of pieces pieces-Stand

-- The same words in a literal, a name or a comment are not refused.
abbrev quiet : Text
quiet = codes "SELECT 'drop ''x' [drop] --drop"

quiet_query : refused_word as_it_is quiet ≡ none
unfolding refused_word code_words lex lex_from scan line_end block_end quoted_end join_pieces runs
    upper check_statement_keywords passes any text_eq
quiet_query = refl

-- A parser that reads every text as one query without tables.
abbrev parser : Parser
parser = record {
  Statement = Text;
  parse = λ s. some (some s ∷ []);
  shape = λ s. query;
  walk = λ s. harmless ∷ [];
  sql = λ s. s;
}

abbrev same_case : ℕ → ℕ → Bool
same_case k c = ascii_upper k == ascii_upper c

abbrev hinted : List Piece
hinted = plain_text (codes "SELECT a FROM t WITH (updlock)")

hinted-Stand : Stand hinted
unfolding stands text_of piece_text any
hinted-Stand = ground arith

hinted-IsForbidden : IsForbidden hinted
unfolding code_of piece_code any text_eq upper
hinted-IsForbidden = lock_hint (record {
  before = some (codes "SELECT a FROM t WITH ", b'(');
  word = codes "updlock";
  after = some (b')', []);
  stands = refl;
  parted_before = refl;
  parted_after = refl;
  inside = (refl, (refl, (refl, (refl, (refl, (refl, (refl, tt)))))));
  nonempty = λ e. cc;
  is_one = refl;
})

analyze-IsForbidden_example :
    (analyze_read_only as_it_is parser same_case as_it_is (text_of hinted)).is_admitted ≡ false
unfolding strip text_of piece_text
analyze-IsForbidden_example =
    analyze-IsForbidden same_case as_it_is as_it_is parser (text_of hinted) hinted refl hinted-Stand
      refl refl hinted-IsForbidden

admitted_query :
    (analyze_read_only as_it_is parser same_case as_it_is (codes " SELECT 1")).status ≡ supported
unfolding analyze_read_only
admitted_query = refl

validate_read_only-IsAdmissible_example :
    ((v : ValidatedQuery) × (validate_read_only as_it_is parser same_case as_it_is
          (codes " SELECT 1")
        ≡ returned v)
      × (v.execution_sql ≡ codes " SELECT 1"))
    ↔ IsAdmissible as_it_is parser same_case as_it_is (codes " SELECT 1")
validate_read_only-IsAdmissible_example =
    validate_read_only-IsAdmissible as_it_is parser same_case as_it_is (codes " SELECT 1")
