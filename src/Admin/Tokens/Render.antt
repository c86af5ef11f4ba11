-- ===== src/Admin/Tokens/Render.antt =====
-- Texts of tokens, and that the scanner of src/azure_sql_mcp/admin_policy.py reads them back.
use azure_sql_mcp.Shared.{
  ℕ, ◌<◌, ◌≡◌, ◌≢◌, ◌∙◌, Bool, true, false, some, List, [], ◌∷◌, ◌++◌, ◌||◌, All, arith,
  if◌then◌else◌, ◌==◌,
}
use azure_sql_mcp.Shared.Text.{Text}
use azure_sql_mcp.Admin.Chars.{CharTable, ascii_space, ascii_alpha, ascii_digit, upper}
use azure_sql_mcp.Admin.Tokens.{
  Token, token, word, text_literal, quoted, identifier, variable, number, symbol,
  read_quoted_content, read_bracket_identifier, span, in_word, in_variable, scan_name, scan_token,
}
use azure_sql_mcp.Admin.Tokens.Gaps.{Separator, IsSeparator, gap_text, blank}

-- Each quote is doubled.
unfoldable pub escape : ℕ → Text → Text
escape q [] = []
escape q (c ∷ s) = if c == q then q ∷ q ∷ escape q s else c ∷ escape q s

-- A piece of T-SQL that stands for one token.
pub data Lexeme : Type 0 where
  name : ℕ → Text → Lexeme
  at_name : Text → Lexeme
  digits : ℕ → Text → Lexeme
  string : Text → Lexeme
  national_string : Text → Lexeme
  double_quoted : Text → Lexeme
  bracketed : Text → Lexeme
  mark : ℕ → Lexeme

unfoldable pub lexeme_text : Lexeme → Text
unfolding escape
lexeme_text (name c s) = c ∷ s
lexeme_text (at_name s) = b'@' ∷ s
lexeme_text (digits c s) = c ∷ s
lexeme_text (string s) = 39 ∷ (escape 39 s ++ 39 ∷ [])
lexeme_text (national_string s) = b'N' ∷ 39 ∷ (escape 39 s ++ 39 ∷ [])
lexeme_text (double_quoted s) = 34 ∷ (escape 34 s ++ 34 ∷ [])
lexeme_text (bracketed s) = b'[' ∷ (escape b']' s ++ b']' ∷ [])
lexeme_text (mark c) = c ∷ []

abbrev ascii_name_char : ℕ → Bool
ascii_name_char c = ascii_alpha c || ascii_digit c || c == b'_' || c == b'#' || c == b'$'

abbrev is_mark : ℕ → Bool
is_mark c =
    c == b'('
    || c == b')'
    || c == b'='
    || c == b'+'
    || c == b','
    || c == b';'
    || c == b'.'
    || c == b'-'
    || c == b'*'
    || c == b'/'
    || c == b'<'
    || c == b'>'

-- ASCII names, variables and numbers; any text between quotes or brackets.
abbrev pub IsLexeme : Lexeme → Type 0
IsLexeme (name c s) =
    (c < 128) × (ascii_alpha c ≡ true) × All (λ d. (d < 128) × (ascii_name_char d ≡ true)) s
IsLexeme (at_name s) = All (λ d. (d < 128) × (ascii_name_char d ≡ true)) s
IsLexeme (digits c s) =
    (c < 128) × (ascii_digit c ≡ true) × All (λ d. (d < 128) × (ascii_digit d ≡ true)) s
IsLexeme (string s) = Unit
IsLexeme (national_string s) = Unit
IsLexeme (double_quoted s) = Unit
IsLexeme (bracketed s) = Unit
IsLexeme (mark c) = is_mark c ≡ true

-- Lexemes, each with the blank and the separators behind it.
abbrev pub Source : Type 0
Source = List (Lexeme × ℕ × List Separator)

unfoldable pub source_text : Source → Text
unfolding lexeme_text gap_text
source_text [] = []
source_text ((l, c, g) ∷ ls) = lexeme_text l ++ c ∷ (gap_text g ++ source_text ls)

abbrev pub IsSource : Source → Type 0
IsSource ls =
    All
      (λ (p : Lexeme × ℕ × List Separator).
        IsLexeme p.0 × IsSeparator (blank p.1) × All IsSeparator p.2)
      ls

read_quoted_content-escape :
    (q c : ℕ) (s rest : Text)
    → c ≢ q
    → read_quoted_content q (escape q s ++ q ∷ c ∷ rest) ≡ (s, c ∷ rest)
unfolding read_quoted_content escape
read_quoted_content-escape q c [] rest h = ground arith
read_quoted_content-escape q c (d ∷ []) rest h = ground arith
read_quoted_content-escape q c (d ∷ e ∷ s) rest h =
    ground (arith, read_quoted_content-escape q c (e ∷ s) rest h)

read_bracket_identifier-escape :
    (c : ℕ) (s rest : Text)
    → c ≢ b']'
    → read_bracket_identifier (escape b']' s ++ b']' ∷ c ∷ rest) ≡ (s, c ∷ rest)
unfolding read_bracket_identifier escape
read_bracket_identifier-escape c [] rest h = ground arith
read_bracket_identifier-escape c (d ∷ []) rest h = ground arith
read_bracket_identifier-escape c (d ∷ e ∷ s) rest h =
    ground (arith, read_bracket_identifier-escape c (e ∷ s) rest h)

span-append :
    (p : ℕ → Bool) (c : ℕ) (s rest : Text)
    → All (λ d. p d ≡ true) s
    → p c ≡ false
    → span p (s ++ c ∷ rest) ≡ (s, c ∷ rest)
unfolding span
span-append p c [] rest h stops = ground arith
span-append p c (d ∷ s) rest h stops = ground (arith, span-append p c s rest h.1 stops)

module _ ⦃chars : CharTable⦄ where
  unfoldable pub lexeme_token : Lexeme → Token
  lexeme_token (name c s) = token word (upper (c ∷ s))
  lexeme_token (at_name s) = token variable (upper (b'@' ∷ s))
  lexeme_token (digits c s) = token number (c ∷ s)
  lexeme_token (string s) = token text_literal s
  lexeme_token (national_string s) = token text_literal s
  lexeme_token (double_quoted s) = token quoted s
  lexeme_token (bracketed s) = token identifier (upper s)
  lexeme_token (mark c) = token symbol (c ∷ [])

  unfoldable pub source_tokens : Source → List Token
  unfolding lexeme_token
  source_tokens [] = []
  source_tokens ((l, c, g) ∷ ls) = lexeme_token l ∷ source_tokens ls

  in_word_ascii : (d : ℕ) → d < 128 → ascii_name_char d ≡ true → in_word d ≡ true
  in_word_ascii d h k = ground (arith, chars.alnum_ascii d h)

  in_variable_ascii : (d : ℕ) → d < 128 → ascii_name_char d ≡ true → in_variable d ≡ true
  in_variable_ascii d h k = ground (arith, chars.alnum_ascii d h)

  All-in_word :
      (s : Text)
      → All (λ d. (d < 128) × (ascii_name_char d ≡ true)) s
      → All (λ d. in_word d ≡ true) s
  All-in_word [] h = tt
  All-in_word (d ∷ s) h = (in_word_ascii d h.0.0 h.0.1, All-in_word s h.1)

  All-in_variable :
      (s : Text)
      → All (λ d. (d < 128) × (ascii_name_char d ≡ true)) s
      → All (λ d. in_variable d ≡ true) s
  All-in_variable [] h = tt
  All-in_variable (d ∷ s) h = (in_variable_ascii d h.0.0 h.0.1, All-in_variable s h.1)

  All-is_digit :
      (s : Text)
      → All (λ d. (d < 128) × (ascii_digit d ≡ true)) s
      → All (λ d. chars.is_digit d ≡ true) s
  All-is_digit [] h = tt
  All-is_digit (d ∷ s) h = (chars.digit_ascii d h.0.0 ∙ h.0.1, All-is_digit s h.1)

  -- A blank ends a lexeme.
  module _ (b : ℕ) (rest : Text) (small : b < 128) (space : ascii_space b ≡ true) where
    ends_word : in_word b ≡ false
    ends_word = ground (arith, chars.alnum_ascii b small)

    ends_variable : in_variable b ≡ false
    ends_variable = ground (arith, chars.alnum_ascii b small)

    ends_digits : chars.is_digit b ≡ false
    ends_digits = ground (arith, chars.digit_ascii b small)

    scan_name-name :
        (c : ℕ) (s : Text)
        → IsLexeme (name c s)
        → scan_name c (s ++ b ∷ rest) ≡ (some (lexeme_token (name c s)), b ∷ rest)
    unfolding scan_name lexeme_token
    scan_name-name c s h =
        rw (span-append in_word b s rest (All-in_word s h.2) ends_word)
          (ground (arith, chars.digit_ascii c h.0, chars.alpha_ascii c h.0))

    pub scan_token-name :
        (c : ℕ) (s : Text)
        → IsLexeme (name c s)
        → scan_token c (s ++ b ∷ rest) ≡ (some (lexeme_token (name c s)), b ∷ rest)
    unfolding scan_token
    scan_token-name c [] h = ground (arith, scan_name-name c [] h, chars.space_ascii c h.0)
    scan_token-name c (d ∷ s) h =
        ground (arith, scan_name-name c (d ∷ s) h, chars.space_ascii c h.0)

    pub scan_token-at_name :
        (s : Text)
        → IsLexeme (at_name s)
        → scan_token b'@' (s ++ b ∷ rest) ≡ (some (lexeme_token (at_name s)), b ∷ rest)
    unfolding scan_token scan_name lexeme_token
    scan_token-at_name s h =
        rw (span-append in_variable b s rest (All-in_variable s h) ends_variable)
          (ground (arith, chars.space_ascii b'@' (omega arith)))

    scan_name-digits :
        (c : ℕ) (s : Text)
        → IsLexeme (digits c s)
        → scan_name c (s ++ b ∷ rest) ≡ (some (lexeme_token (digits c s)), b ∷ rest)
    unfolding scan_name lexeme_token
    scan_name-digits c s h =
        rw (span-append chars.is_digit b s rest (All-is_digit s h.2) ends_digits)
          (ground (arith, chars.digit_ascii c h.0))

    pub scan_token-digits :
        (c : ℕ) (s : Text)
        → IsLexeme (digits c s)
        → scan_token c (s ++ b ∷ rest) ≡ (some (lexeme_token (digits c s)), b ∷ rest)
    unfolding scan_token
    scan_token-digits c s h = ground (arith, scan_name-digits c s h, chars.space_ascii c h.0)

    pub scan_token-quoted :
        (s : Text)
        → (scan_token 39 (escape 39 s ++ 39 ∷ b ∷ rest) ≡ (some (token text_literal s), b ∷ rest))
          × (scan_token b'N' (39 ∷ (escape 39 s ++ 39 ∷ b ∷ rest))
              ≡ (some (token text_literal s), b ∷ rest))
          × (scan_token 34 (escape 34 s ++ 34 ∷ b ∷ rest) ≡ (some (token quoted s), b ∷ rest))
          × (scan_token b'[' (escape b']' s ++ b']' ∷ b ∷ rest)
              ≡ (some (token identifier (upper s)), b ∷ rest))
    unfolding scan_token scan_name
    scan_token-quoted s = (
      rw (
        chars.space_ascii 39 (omega arith),
        read_quoted_content-escape 39 b s rest (ground arith),
      ),
      rw (
        chars.space_ascii b'N' (omega arith),
        read_quoted_content-escape 39 b s rest (ground arith),
      ),
      rw (
        chars.space_ascii 34 (omega arith),
        read_quoted_content-escape 34 b s rest (ground arith),
      ),
      rw (
        chars.space_ascii b'[' (omega arith),
        read_bracket_identifier-escape b s rest (ground arith),
      ),
    )

    pub scan_token-mark :
        (c : ℕ)
        → IsLexeme (mark c)
        → scan_token c (b ∷ rest) ≡ (some (lexeme_token (mark c)), b ∷ rest)
    unfolding scan_token scan_name lexeme_token
    scan_token-mark c h =
        let fits : c < 128 = ground arith in
        ground (arith, chars.space_ascii c fits, chars.digit_ascii c fits, chars.alpha_ascii c fits)
