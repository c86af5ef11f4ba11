-- ===== src/Admin/Tokens/Fuel.antt =====
-- The scanner of src/azure_sql_mcp/admin_policy.py ends: each pass shortens the text.
use azure_sql_mcp.Shared.{ℕ, zero, suc, ◌≤◌, ◌≡◌, refl, ap, Bool, [], ◌∷◌, length, arith}
use azure_sql_mcp.Shared.Text.{Text}
use azure_sql_mcp.Admin.Chars.{CharTable}
use azure_sql_mcp.Admin.Tokens.{
  rest_of, skip_line_comment, skip_block_comment, read_quoted_content, read_bracket_identifier,
  span, in_variable, in_word, scan_name, scan_token, append_token, tokenize_from, tokenize_sql,
}

length-rest_of-le : (s : Text) → length (rest_of s) ≤ length s
length-rest_of-le [] = omega arith
length-rest_of-le (c ∷ s) = omega arith

length-skip_line_comment-le : (s : Text) → length (skip_line_comment s) ≤ length s
unfolding skip_line_comment
length-skip_line_comment-le [] = omega arith
length-skip_line_comment-le (c ∷ s) = ground (arith, length-skip_line_comment-le s)

length-skip_block_comment-le : (d : ℕ) (s : Text) → length (skip_block_comment d s) ≤ length s
unfolding skip_block_comment
length-skip_block_comment-le zero s = omega arith
length-skip_block_comment-le (suc d) [] = omega arith
length-skip_block_comment-le (suc d) (c ∷ []) = omega arith
length-skip_block_comment-le (suc d) (c ∷ e ∷ s) = ground (
  arith,
  length-skip_block_comment-le (suc (suc d)) s,
  length-skip_block_comment-le d s,
  length-skip_block_comment-le (suc d) (e ∷ s),
)

length-read_quoted_content-le : (q : ℕ) (s : Text) → length (read_quoted_content q s).1 ≤ length s
unfolding read_quoted_content
length-read_quoted_content-le q [] = omega arith
length-read_quoted_content-le q (c ∷ []) = ground arith
length-read_quoted_content-le q (c ∷ d ∷ s) =
    ground (arith, length-read_quoted_content-le q (d ∷ s), length-read_quoted_content-le q s)

length-read_bracket_identifier-le : (s : Text) → length (read_bracket_identifier s).1 ≤ length s
unfolding read_bracket_identifier
length-read_bracket_identifier-le [] = omega arith
length-read_bracket_identifier-le (c ∷ []) = ground arith
length-read_bracket_identifier-le (c ∷ d ∷ s) =
    ground (arith, length-read_bracket_identifier-le (d ∷ s), length-read_bracket_identifier-le s)

length-span-le : (p : ℕ → Bool) (s : Text) → length (span p s).1 ≤ length s
unfolding span
length-span-le p [] = omega arith
length-span-le p (c ∷ s) = ground (arith, length-span-le p s)

module _ ⦃chars : CharTable⦄ where
  length-scan_name-le : (c : ℕ) (s : Text) → length (scan_name c s).1 ≤ length s
  unfolding scan_name
  length-scan_name-le c s = ground (
    arith,
    length-read_bracket_identifier-le s,
    length-span-le in_variable s,
    length-span-le chars.is_digit s,
    length-span-le in_word s,
  )

  -- A pass leaves no more than what stands behind its first character.
  pub length-scan_token-le : (c : ℕ) (s : Text) → length (scan_token c s).1 ≤ length s
  unfolding scan_token
  length-scan_token-le c s = ground (
    arith,
    length-rest_of-le s,
    length-skip_line_comment-le (rest_of s),
    length-skip_block_comment-le 1 (rest_of s),
    length-read_quoted_content-le 39 (rest_of s),
    length-read_quoted_content-le 39 s,
    length-read_quoted_content-le 34 s,
    length-scan_name-le c s,
  )

  tokenize_from_enough :
      (f g : ℕ) (s : Text) → length s ≤ f → length s ≤ g → tokenize_from f s ≡ tokenize_from g s
  unfolding tokenize_from
  tokenize_from_enough zero zero s h k = refl
  tokenize_from_enough zero (suc g) [] h k = refl
  tokenize_from_enough zero (suc g) (c ∷ s) h k = absurd (omega arith)
  tokenize_from_enough (suc f) zero [] h k = refl
  tokenize_from_enough (suc f) zero (c ∷ s) h k = absurd (omega arith)
  tokenize_from_enough (suc f) (suc g) [] h k = refl
  tokenize_from_enough (suc f) (suc g) (c ∷ s) h k =
      let shorter = length-scan_token-le c s in
      ap (append_token (scan_token c s).0)
        (tokenize_from_enough f g (scan_token c s).1 (omega arith) (omega arith))

  -- One pass of the loop.
  pub tokenize_sql-cons :
      (c : ℕ) (s : Text)
      → tokenize_sql (c ∷ s) ≡ append_token (scan_token c s).0 (tokenize_sql (scan_token c s).1)
  unfolding tokenize_sql
  tokenize_sql-cons c s = ap (append_token (scan_token c s).0) (
      tokenize_from_enough (length s) (length (scan_token c s).1) (scan_token c s).1
        (length-scan_token-le c s) (omega arith))
