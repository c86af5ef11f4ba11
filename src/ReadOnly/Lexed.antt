-- ===== src/ReadOnly/Lexed.antt =====
-- The lexer of src/azure_sql_mcp/safe_sql.py on whole texts.
use mathlib.Core.List.{append_assoc, append-nil}
use azure_sql_mcp.Shared.{
  ℕ, zero, suc, ◌≤◌, ◌≡◌, refl, ◌∙◌, Bool, true, false, ◌&&◌, List, [], ◌∷◌, ◌++◌, arith, length,
  length-append,
}
use azure_sql_mcp.Shared.Text.{Text}
use azure_sql_mcp.Admin.Chars.{CharTable}
use azure_sql_mcp.ReadOnly.{next_is, Scan, is_n, append, join_pieces, lex_from, lex}
use azure_sql_mcp.ReadOnly.Pieces.{
  Piece, plain, text_literal, bracketed, double_quoted, line_comment, block_comment, doubled,
  piece_text, text_of, piece_code, piece_words, code_of, words_of, stands, Stand, ready,
  lex_from-piece,
}

-- A quoted name is never a single N.
is_n_quoted : (c d : ℕ) (s : Text) (code : List Text) → is_n ((c ∷ (s ++ d ∷ [])) ∷ code) ≡ false
is_n_quoted c d [] code = refl
is_n_quoted c d (e ∷ s) code = refl

-- A piece leaves no N before a literal.
is_n-piece :
    (p : Piece) (rest : Text) (code : List Text)
    → stands p rest ≡ true
    → is_n (piece_code p ∷ code) && next_is 39 rest ≡ false
unfolding stands piece_code
is_n-piece (plain c) rest code h = ground (arith, h)
is_n-piece (text_literal s) rest code h = refl
is_n-piece (bracketed s) rest code h = rw (is_n_quoted b'[' b']' (doubled b']' s) code) refl
is_n-piece (double_quoted s) rest code h = rw (is_n_quoted 34 34 (doubled 34 s) code) refl
is_n-piece (line_comment s) rest code h = refl
is_n-piece (block_comment n s) rest code h = refl

piece_text_nonempty : (p : Piece) → 1 ≤ length (piece_text p)
unfolding piece_text
piece_text_nonempty (plain c) = omega arith
piece_text_nonempty (text_literal s) = omega arith
piece_text_nonempty (bracketed s) = omega arith
piece_text_nonempty (double_quoted s) = omega arith
piece_text_nonempty (line_comment s) = omega arith
piece_text_nonempty (block_comment n s) = omega arith

and_true : (b : Bool) → b ≡ true → b && true ≡ true
and_true b e = ground arith

module _ ⦃chars : CharTable⦄ where
  ready-piece :
      (p : Piece) (rest : Text) (st : Scan)
      → is_n st.code && next_is 39 (piece_text p ++ rest) ≡ false
      → ready p st ≡ true
  unfolding piece_text
  ready-piece (plain c) rest st h = refl
  ready-piece (text_literal s) rest st h = ground (arith, h)
  ready-piece (bracketed s) rest st h = refl
  ready-piece (double_quoted s) rest st h = refl
  ready-piece (line_comment s) rest st h = refl
  ready-piece (block_comment n s) rest st h = refl

  lex_from-text_of :
      (f : ℕ) (ps : List Piece) (st : Scan)
      → length (text_of ps) ≤ f
      → Stand ps
      → st.terminated ≡ true
      → is_n st.code && next_is 39 (text_of ps) ≡ false
      → lex_from f (text_of ps) st ≡ record {
        code = join_pieces st.code ++ code_of ps;
        words = join_pieces st.words ++ words_of ps;
        terminated = true;
      }
  unfolding lex_from text_of code_of words_of join_pieces
  lex_from-text_of zero [] st le h t n =
      rw (append-nil (join_pieces st.code), append-nil (join_pieces st.words), t) refl
  lex_from-text_of (suc f) [] st le h t n =
      rw (append-nil (join_pieces st.code), append-nil (join_pieces st.words), t) refl
  lex_from-text_of zero (p ∷ ps) st le h t n =
      absurd (omega (arith, le, length-append (piece_text p) (text_of ps), piece_text_nonempty p))
  lex_from-text_of (suc f) (p ∷ ps) st le (here, h) t n =
      let st' = append (piece_code p) (piece_words p) true (text_of ps) st in
      let shorter : length (text_of ps) ≤ f =
        omega (arith, le, length-append (piece_text p) (text_of ps), piece_text_nonempty p) in
      lex_from-piece f p (text_of ps) st here (ready-piece p (text_of ps) st n)
      ∙ lex_from-text_of f ps st' shorter h (and_true st.terminated t)
          (is_n-piece p (text_of ps) st.code here)
      ∙ rw
          (
            append_assoc (join_pieces st.code) (piece_code p) (code_of ps),
            append_assoc (join_pieces st.words) (piece_words p) (words_of ps),
          )
          refl

  -- A text in pieces, each of which ends where the next begins, is terminated; its code has a blank for
  -- each comment and a question mark for each literal, whatever they contain, and its words have a blank
  -- for each quoted name too.
  pub lex-text_of :
      (ps : List Piece)
      → Stand ps
      → lex (text_of ps) ≡ record { code = code_of ps; words = words_of ps; terminated = true }
  unfolding lex join_pieces
  lex-text_of ps h =
      lex_from-text_of (length (text_of ps)) ps
        (record { code = []; words = []; terminated = true; behind = text_of ps }) (omega arith) h
        refl refl
