-- ===== src/ReadOnly/Pieces.antt =====
-- Texts in pieces: what `_lex` of src/azure_sql_mcp/safe_sql.py makes of code, literals, quoted
-- identifiers and comments.
use mathlib.Core.List.{append_assoc}
use azure_sql_mcp.Shared.{
  ℕ, zero, suc, ◌+◌, ◌≡◌, refl, ap, ◌∙◌, Bool-cases, inl, inr, Bool, true, false, ◌&&◌, ◌||◌, not,
  List, [], ◌∷◌, ◌++◌, ◌==◌, if◌then◌else◌, any, arith,
}
use azure_sql_mcp.Shared.Text.{Text}
use azure_sql_mcp.Admin.Chars.{CharTable}
use azure_sql_mcp.ReadOnly.{
  ends_line, next_is, line_end, block_end, Quoted, push, quoted_end, Scan, is_n, append, scan,
  lex_from,
}

pub data Piece : Type 0 where
  plain : ℕ → Piece
  text_literal bracketed double_quoted line_comment : Text → Piece
  block_comment : ℕ → Text → Piece

-- A closing character is doubled.
unfoldable pub doubled : ℕ → Text → Text
doubled close [] = []
doubled close (c ∷ s) = let rest = doubled close s in if c == close then c ∷ c ∷ rest else c ∷ rest

unfoldable pub repeat : ℕ → Text → Text
repeat zero s = []
repeat (suc n) s = s ++ repeat n s

-- A block comment is one inside of another, to any depth.
unfoldable pub piece_text : Piece → Text
unfolding doubled repeat
piece_text (plain c) = c ∷ []
piece_text (text_literal s) = 39 ∷ (doubled 39 s ++ 39 ∷ [])
piece_text (bracketed s) = b'[' ∷ (doubled b']' s ++ b']' ∷ [])
piece_text (double_quoted s) = 34 ∷ (doubled 34 s ++ 34 ∷ [])
piece_text (line_comment s) = b'-' ∷ b'-' ∷ s
piece_text (block_comment n s) =
    b'/' ∷ b'*' ∷ (repeat n (b'/' ∷ b'*' ∷ []) ++ s ++ repeat (suc n) (b'*' ∷ b'/' ∷ []))

unfoldable pub text_of : List Piece → Text
unfolding piece_text
text_of [] = []
text_of (p ∷ ps) = piece_text p ++ text_of ps

-- The code of a piece, and its words.
unfoldable pub piece_code : Piece → Text
unfolding doubled
piece_code (plain c) = c ∷ []
piece_code (text_literal s) = b'?' ∷ []
piece_code (bracketed s) = b'[' ∷ (doubled b']' s ++ b']' ∷ [])
piece_code (double_quoted s) = 34 ∷ (doubled 34 s ++ 34 ∷ [])
piece_code (line_comment s) = b' ' ∷ []
piece_code (block_comment n s) = b' ' ∷ []

unfoldable pub piece_words : Piece → Text
piece_words (plain c) = c ∷ []
piece_words (text_literal s) = b'?' ∷ []
piece_words _ = b' ' ∷ []

unfoldable pub code_of : List Piece → Text
unfolding piece_code
code_of [] = []
code_of (p ∷ ps) = piece_code p ++ code_of ps

unfoldable pub words_of : List Piece → Text
unfolding piece_words
words_of [] = []
words_of (p ∷ ps) = piece_words p ++ words_of ps

abbrev pub starts_line : Text → Bool
starts_line [] = true
starts_line (c ∷ s) = ends_line c

-- A piece ends where the text behind it begins: a plain character begins no literal, name or comment,
-- and is no N before a literal; a quote is not doubled by the text behind; a line comment ends there.
unfoldable pub stands : Piece → Text → Bool
unfolding any
stands (plain c) rest =
    not (c == 39 || (c == b'[' || c == 34))
    && (not (c == b'-' && next_is b'-' rest)
        && (not (c == b'/' && next_is b'*' rest)
            && not ((c == b'N' || c == b'n') && next_is 39 rest)))
stands (text_literal s) rest = not (next_is 39 rest)
stands (bracketed s) rest = not (next_is b']' rest)
stands (double_quoted s) rest = not (next_is 34 rest)
stands (line_comment s) rest = not (any ends_line s) && starts_line rest
stands (block_comment n s) rest = not (any (λ c. c == b'/' || c == b'*') s)

abbrev pub Stand : List Piece → Type 0
Stand [] = Unit
Stand (p ∷ ps) = (stands p (text_of ps) ≡ true) × Stand ps

quoted_end-push :
    (close c : ℕ) (s : Text) (q : Quoted)
    → c == close ≡ false
    → quoted_end close s ≡ q
    → q.closed ≡ true
    → quoted_end close (c ∷ s) ≡ push c q
unfolding quoted_end
quoted_end-push close c [] q other e closed =
    let no : false ≡ true = ap (λ (x : Quoted). x.closed) e ∙ closed in cc
quoted_end-push close c (d ∷ s) q other e closed = rw (other, e) refl

quoted_end_twice :
    (close c : ℕ) (s : Text) (q : Quoted)
    → c == close ≡ true
    → quoted_end close s ≡ q
    → quoted_end close (c ∷ c ∷ s) ≡ push c (push c q)
unfolding quoted_end
quoted_end_twice close c s q same e = ground (arith, same, e)

-- What is quoted is read up to its end.
quoted_end-doubled :
    (close : ℕ) (s rest : Text)
    → next_is close rest ≡ false
    → quoted_end close (doubled close s ++ close ∷ rest)
      ≡ record { content = doubled close s ++ close ∷ []; closed = true; behind = rest }
unfolding quoted_end doubled
quoted_end-doubled close [] [] h = ground arith
quoted_end-doubled close [] (d ∷ rest) h = ground (arith, h)
quoted_end-doubled close (c ∷ s) rest h = elim (Bool-cases (c == close)) [
  | inl same ↦ rw same (
      quoted_end_twice close c (doubled close s ++ close ∷ rest) _ same
        (quoted_end-doubled close s rest h))
  | inr other ↦ rw other (
      quoted_end-push close c (doubled close s ++ close ∷ rest) _ other
        (quoted_end-doubled close s rest h) refl)
]

pub neither : (a b : Bool) → a || b ≡ false → (a ≡ false) × (b ≡ false)
neither a b e = ground arith

line_end-comment :
    (s rest : Text)
    → any ends_line s ≡ false
    → starts_line rest ≡ true
    → line_end (s ++ rest) ≡ rest
unfolding line_end any
line_end-comment [] [] h k = refl
line_end-comment [] (c ∷ rest) h k = rw k refl
line_end-comment (c ∷ s) rest h k =
    let (first, more) = neither (ends_line c) (any ends_line s) h in
    rw first (line_end-comment s rest more k)

block_end_skip :
    (d c : ℕ) (s : Text)
    → c == b'/' || c == b'*' ≡ false
    → block_end (suc d) (c ∷ s) ≡ block_end (suc d) s
unfolding block_end
block_end_skip d c [] h = refl
block_end_skip d c (e ∷ s) h =
    let (slash, star) = neither (c == b'/') (c == b'*') h in rw (slash, star) refl

block_end_within :
    (d : ℕ) (s rest : Text)
    → any (λ c. c == b'/' || c == b'*') s ≡ false
    → block_end (suc d) (s ++ rest) ≡ block_end (suc d) rest
unfolding any
block_end_within d [] rest h = refl
block_end_within d (c ∷ s) rest h =
    let (first, more) = neither (c == b'/' || c == b'*') (any (λ c. c == b'/' || c == b'*') s) h in
    block_end_skip d c (s ++ rest) first ∙ block_end_within d s rest more

block_end_open :
    (n d : ℕ) (rest : Text)
    → block_end (suc d) (repeat n (b'/' ∷ b'*' ∷ []) ++ rest) ≡ block_end (suc (n + d)) rest
unfolding repeat block_end
block_end_open zero d rest = ap (λ k. block_end (suc k) rest) (omega arith)
block_end_open (suc n) d rest =
    block_end_open n (suc d) rest ∙ ap (λ k. block_end (suc k) rest) (omega arith)

block_end_close :
    (d : ℕ) (rest : Text) → block_end d (repeat d (b'*' ∷ b'/' ∷ []) ++ rest) ≡ (true, rest)
unfolding repeat block_end
block_end_close zero rest = refl
block_end_close (suc d) rest = block_end_close d rest

block_end-comment :
    (n : ℕ) (s rest : Text)
    → any (λ c. c == b'/' || c == b'*') s ≡ false
    → block_end 1 ((repeat n (b'/' ∷ b'*' ∷ []) ++ s ++ repeat (suc n) (b'*' ∷ b'/' ∷ [])) ++ rest)
      ≡ (true, rest)
block_end-comment n s rest h =
    let opening = repeat n (b'/' ∷ b'*' ∷ []) in
    let closing = repeat (suc n) (b'*' ∷ b'/' ∷ []) in
    ap (block_end 1)
      (append_assoc (opening ++ s) closing rest ∙ append_assoc opening s (closing ++ rest))
    ∙ block_end_open n 0 (s ++ (closing ++ rest))
    ∙ ap (λ k. block_end (suc k) (s ++ (closing ++ rest))) (omega arith)
    ∙ block_end_within n s (closing ++ rest) h
    ∙ block_end_close (suc n) rest

pub is_false : (b : Bool) → not b ≡ true → b ≡ false
is_false b e = ground arith

-- A pass over a piece.
module _ ⦃chars : CharTable⦄ where
  -- No N stands before a literal.
  abbrev pub ready : Piece → Scan → Bool
  ready (text_literal s) st = not (is_n st.code)
  ready _ st = true

  scan-plain :
      (c : ℕ) (rest : Text) (st : Scan)
      → stands (plain c) rest ≡ true
      → scan c rest st ≡ append (c ∷ []) (c ∷ []) true rest st
  unfolding scan stands any
  scan-plain c rest st h =
      let quotes : c == 39 || (c == b'[' || c == 34) ≡ false = ground (arith, h) in
      let line : c == b'-' && next_is b'-' rest ≡ false = ground (arith, h) in
      let block : c == b'/' && next_is b'*' rest ≡ false = ground (arith, h) in
      let (single, more) = neither (c == 39) (c == b'[' || c == 34) quotes in
      let (bracket, double) = neither (c == b'[') (c == 34) more in
      rw (line, block, single, bracket, double) refl

  pub lex_from-piece :
      (f : ℕ) (p : Piece) (rest : Text) (st : Scan)
      → stands p rest ≡ true
      → ready p st ≡ true
      → lex_from (suc f) (piece_text p ++ rest) st
        ≡ lex_from f rest (append (piece_code p) (piece_words p) true rest st)
  unfolding lex_from scan stands piece_text piece_code piece_words any
  lex_from-piece f (plain c) rest st h r =
      ap (λ (x : Scan). lex_from f x.behind x) (scan-plain c rest st h)
  lex_from-piece f (text_literal s) rest st h r =
      let quoted : quoted_end 39 ((doubled 39 s ++ 39 ∷ []) ++ rest)
          ≡ record { content = doubled 39 s ++ 39 ∷ []; closed = true; behind = rest } =
        ap (quoted_end 39) (append_assoc (doubled 39 s) (39 ∷ []) rest)
        ∙ quoted_end-doubled 39 s rest (ground (arith, h)) in
      rw (quoted, is_false (is_n st.code) r) refl
  lex_from-piece f (bracketed s) rest st h r =
      let quoted : quoted_end b']' ((doubled b']' s ++ b']' ∷ []) ++ rest)
          ≡ record { content = doubled b']' s ++ b']' ∷ []; closed = true; behind = rest } =
        ap (quoted_end b']') (append_assoc (doubled b']' s) (b']' ∷ []) rest)
        ∙ quoted_end-doubled b']' s rest (ground (arith, h)) in
      rw quoted refl
  lex_from-piece f (double_quoted s) rest st h r =
      let quoted : quoted_end 34 ((doubled 34 s ++ 34 ∷ []) ++ rest)
          ≡ record { content = doubled 34 s ++ 34 ∷ []; closed = true; behind = rest } =
        ap (quoted_end 34) (append_assoc (doubled 34 s) (34 ∷ []) rest)
        ∙ quoted_end-doubled 34 s rest (ground (arith, h)) in
      rw quoted refl
  lex_from-piece f (line_comment s) rest st h r =
      rw (line_end-comment s rest (ground (arith, h)) (ground (arith, h))) refl
  lex_from-piece f (block_comment n s) rest st h r =
      rw (block_end-comment n s rest (ground (arith, h))) refl
