-- ===== src/Admin/Tokens/RoundTrip.antt =====
-- `_tokenize_sql` of src/azure_sql_mcp/admin_policy.py reads a rendered program back.
use azure_sql_mcp.Shared.{ℕ, ◌<◌, ◌≡◌, refl, ◌∙◌, ap, true, Option, some, [], ◌∷◌, ◌++◌}
use mathlib.Core.List.{append_assoc}
use azure_sql_mcp.Shared.Text.{Text}
use azure_sql_mcp.Admin.Chars.{CharTable, ascii_space}
use azure_sql_mcp.Admin.Tokens.{Token, scan_token, append_token, tokenize_sql}
use azure_sql_mcp.Admin.Tokens.Fuel.{tokenize_sql-cons}
use azure_sql_mcp.Admin.Tokens.Gaps.{gap_text, blank, tokenize_sql-gap}
use azure_sql_mcp.Admin.Tokens.Render.{
  escape, Lexeme, name, at_name, digits, string, national_string, double_quoted, bracketed, mark,
  lexeme_text, lexeme_token, IsLexeme, Source, IsSource, source_text, source_tokens,
  scan_token-name, scan_token-at_name, scan_token-digits, scan_token-quoted, scan_token-mark,
}

module _ ⦃chars : CharTable⦄ where
  tokenize_sql-reads :
      (c : ℕ) (s rest : Text) {t : Token}
      → scan_token c s ≡ (some t, rest)
      → tokenize_sql (c ∷ s) ≡ t ∷ tokenize_sql rest
  tokenize_sql-reads c s rest e =
      tokenize_sql-cons c s
      ∙ ap (λ (p : Option Token × Text). append_token p.0 (tokenize_sql p.1)) e

  module _ (b : ℕ) (rest : Text) (small : b < 128) (space : ascii_space b ≡ true) where
    tokenize_sql-lexeme :
        (l : Lexeme)
        → IsLexeme l
        → tokenize_sql (lexeme_text l ++ b ∷ rest) ≡ lexeme_token l ∷ tokenize_sql (b ∷ rest)
    unfolding lexeme_text
    tokenize_sql-lexeme (name c s) h =
        tokenize_sql-reads c _ (b ∷ rest) (scan_token-name b rest small space c s h)
    tokenize_sql-lexeme (at_name s) h =
        tokenize_sql-reads b'@' _ (b ∷ rest) (scan_token-at_name b rest small space s h)
    tokenize_sql-lexeme (digits c s) h =
        tokenize_sql-reads c _ (b ∷ rest) (scan_token-digits b rest small space c s h)
    tokenize_sql-lexeme (string s) h = rw (append_assoc (escape 39 s) (39 ∷ []) (b ∷ rest)) (
        unfold lexeme_token in
        tokenize_sql-reads 39 (escape 39 s ++ 39 ∷ b ∷ rest) (b ∷ rest)
          (scan_token-quoted b rest small space s).0)
    tokenize_sql-lexeme (national_string s) h =
        rw (append_assoc (escape 39 s) (39 ∷ []) (b ∷ rest)) (
          unfold lexeme_token in
          tokenize_sql-reads b'N' (39 ∷ (escape 39 s ++ 39 ∷ b ∷ rest)) (b ∷ rest)
            (scan_token-quoted b rest small space s).1)
    tokenize_sql-lexeme (double_quoted s) h = rw (append_assoc (escape 34 s) (34 ∷ []) (b ∷ rest)) (
        unfold lexeme_token in
        tokenize_sql-reads 34 (escape 34 s ++ 34 ∷ b ∷ rest) (b ∷ rest)
          (scan_token-quoted b rest small space s).2)
    tokenize_sql-lexeme (bracketed s) h = rw (append_assoc (escape b']' s) (b']' ∷ []) (b ∷ rest)) (
        unfold lexeme_token in
        tokenize_sql-reads b'[' (escape b']' s ++ b']' ∷ b ∷ rest) (b ∷ rest)
          (scan_token-quoted b rest small space s).3)
    tokenize_sql-lexeme (mark c) h =
        tokenize_sql-reads c _ (b ∷ rest) (scan_token-mark b rest small space c h)

  -- Lexemes with a blank behind each, and then any white space and comments, are read back as their
  -- tokens: names and variables in upper case, the text between quotes or brackets as it was before
  -- its quotes were doubled, and nothing of the comments.
  pub tokenize_sql-source_text :
      (ls : Source) → IsSource ls → tokenize_sql (source_text ls) ≡ source_tokens ls
  unfolding source_text source_tokens
  tokenize_sql-source_text [] h = unfold tokenize_sql in refl
  tokenize_sql-source_text ((l, c, g) ∷ ls) h =
      tokenize_sql-lexeme c (gap_text g ++ source_text ls) h.0.1.0 h.0.1.1 l h.0.0
      ∙ ap (λ ts. lexeme_token l ∷ ts)
          (tokenize_sql-gap (blank c ∷ g) (source_text ls) (h.0.1, h.0.2)
            ∙ tokenize_sql-source_text ls h.1)
