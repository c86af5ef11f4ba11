-- ===== src/Admin/Tokens/Gaps.antt =====
-- White space and comments of T-SQL, as `_tokenize_sql` of src/azure_sql_mcp/admin_policy.py skips them.
use azure_sql_mcp.Shared.{
  ℕ, suc, ◌<◌, ◌≡◌, ◌≢◌, refl, ◌∙◌, ap, true, Option, none, List, [], ◌∷◌, ◌++◌, All, arith,
}
use mathlib.Core.List.{append_assoc}
use azure_sql_mcp.Shared.Text.{Text}
use azure_sql_mcp.Admin.Chars.{CharTable, ascii_space}
use azure_sql_mcp.Admin.Tokens.{
  Token, skip_line_comment, skip_block_comment, scan_token, append_token, tokenize_sql,
}
use azure_sql_mcp.Admin.Tokens.Fuel.{tokenize_sql-cons}

-- The inside of a block comment, which may hold block comments.
pub data Comment : Type 0 where
  stop : Comment
  plain : ℕ → Comment → Comment
  nested : Comment → Comment → Comment

unfoldable pub comment_text : Comment → Text
comment_text stop = []
comment_text (plain c k) = c ∷ comment_text k
comment_text (nested i k) = b'/' ∷ b'*' ∷ (comment_text i ++ (b'*' ∷ b'/' ∷ comment_text k))

-- No `*` and no `/` but those of the nested comments.
abbrev pub IsComment : Comment → Type 0
IsComment stop = Unit
IsComment (plain c k) = (c ≢ b'*') × (c ≢ b'/') × IsComment k
IsComment (nested i k) = IsComment i × IsComment k

pub data Separator : Type 0 where
  blank : ℕ → Separator
  line_comment : Text → Separator
  block_comment : Comment → Separator

unfoldable pub separator_text : Separator → Text
unfolding comment_text
separator_text (blank c) = c ∷ []
separator_text (line_comment s) = b'-' ∷ b'-' ∷ (s ++ 10 ∷ [])
separator_text (block_comment k) = b'/' ∷ b'*' ∷ (comment_text k ++ (b'*' ∷ b'/' ∷ []))

abbrev pub IsSeparator : Separator → Type 0
IsSeparator (blank c) = (c < 128) × (ascii_space c ≡ true)
IsSeparator (line_comment s) = All (λ c. (c ≢ 10) × (c ≢ 13)) s
IsSeparator (block_comment k) = IsComment k

unfoldable pub gap_text : List Separator → Text
unfolding separator_text
gap_text [] = []
gap_text (s ∷ g) = separator_text s ++ gap_text g

skip_line_comment_lem :
    (s rest : Text)
    → All (λ c. (c ≢ 10) × (c ≢ 13)) s
    → skip_line_comment (s ++ 10 ∷ rest) ≡ 10 ∷ rest
unfolding skip_line_comment
skip_line_comment_lem [] rest h = refl
skip_line_comment_lem (c ∷ s) rest h = ground (arith, skip_line_comment_lem s rest h.1)

skip_block_comment-plain :
    (d c : ℕ) (s : Text)
    → c ≢ b'*'
    → c ≢ b'/'
    → skip_block_comment (suc d) (c ∷ s) ≡ skip_block_comment (suc d) s
unfolding skip_block_comment
skip_block_comment-plain d c [] h k = refl
skip_block_comment-plain d c (e ∷ s) h k = ground arith

skip_block_comment-opened :
    (d : ℕ) (s : Text)
    → skip_block_comment (suc d) (b'/' ∷ b'*' ∷ s) ≡ skip_block_comment (suc (suc d)) s
unfolding skip_block_comment
skip_block_comment-opened d s = refl

skip_block_comment-closed :
    (d : ℕ) (s : Text) → skip_block_comment (suc d) (b'*' ∷ b'/' ∷ s) ≡ skip_block_comment d s
unfolding skip_block_comment
skip_block_comment-closed d s = refl

skip_block_comment-zero : (s : Text) → skip_block_comment 0 s ≡ s
unfolding skip_block_comment
skip_block_comment-zero s = refl

-- The scan passes over the inside of a comment at any depth.
skip_block_comment-inside :
    (d : ℕ) (k : Comment) (rest : Text)
    → IsComment k
    → skip_block_comment (suc d) (comment_text k ++ rest) ≡ skip_block_comment (suc d) rest
unfolding comment_text
skip_block_comment-inside d stop rest h = refl
skip_block_comment-inside d (plain c k) rest (star, slash, h) =
    skip_block_comment-plain d c (comment_text k ++ rest) star slash
    ∙ skip_block_comment-inside d k rest h
skip_block_comment-inside d (nested i k) rest (hi, hk) =
    rw (append_assoc (comment_text i) (b'*' ∷ b'/' ∷ comment_text k) rest) (
      skip_block_comment-opened d _
      ∙ skip_block_comment-inside (suc d) i (b'*' ∷ b'/' ∷ (comment_text k ++ rest)) hi
      ∙ skip_block_comment-closed (suc d) _
      ∙ skip_block_comment-inside d k rest hk)

module _ ⦃chars : CharTable⦄ where
  tokenize_sql-skips :
      (c : ℕ) (s rest : Text)
      → scan_token c s ≡ (none, rest)
      → tokenize_sql (c ∷ s) ≡ tokenize_sql rest
  tokenize_sql-skips c s rest e =
      tokenize_sql-cons c s
      ∙ ap (λ (p : Option Token × Text). append_token p.0 (tokenize_sql p.1)) e

  tokenize_sql-blank :
      (c : ℕ) (rest : Text)
      → c < 128
      → ascii_space c ≡ true
      → tokenize_sql (c ∷ rest) ≡ tokenize_sql rest
  unfolding scan_token
  tokenize_sql-blank c rest h k = tokenize_sql-skips c rest rest (rw (chars.space_ascii c h, k))

  tokenize_sql-separator :
      (s : Separator) (rest : Text)
      → IsSeparator s
      → tokenize_sql (separator_text s ++ rest) ≡ tokenize_sql rest
  unfolding separator_text scan_token
  tokenize_sql-separator (blank c) rest h = tokenize_sql-blank c rest h.0 h.1
  tokenize_sql-separator (line_comment s) rest h = rw (append_assoc s (10 ∷ []) rest) (
      tokenize_sql-skips b'-' (b'-' ∷ (s ++ 10 ∷ rest)) (10 ∷ rest) (
        rw (chars.space_ascii b'-' (omega arith))
          (ap (λ t. (none, t)) (skip_line_comment_lem s rest h)))
      ∙ tokenize_sql-blank 10 rest (omega arith) refl)
  tokenize_sql-separator (block_comment k) rest h =
      rw (append_assoc (comment_text k) (b'*' ∷ b'/' ∷ []) rest) (
        tokenize_sql-skips b'/' (b'*' ∷ (comment_text k ++ (b'*' ∷ b'/' ∷ rest))) rest (
          rw (chars.space_ascii b'/' (omega arith)) (
            ap (λ t. (none, t))
              (skip_block_comment-inside 0 k (b'*' ∷ b'/' ∷ rest) h
                ∙ skip_block_comment-closed 0 rest
                ∙ skip_block_comment-zero rest))))

  -- Blanks and comments, also nested ones, add no token.
  pub tokenize_sql-gap :
      (g : List Separator) (rest : Text)
      → All IsSeparator g
      → tokenize_sql (gap_text g ++ rest) ≡ tokenize_sql rest
  unfolding gap_text
  tokenize_sql-gap [] rest h = refl
  tokenize_sql-gap (s ∷ g) rest h =
      rw (append_assoc (separator_text s) (gap_text g) rest)
        (tokenize_sql-separator s (gap_text g ++ rest) h.0 ∙ tokenize_sql-gap g rest h.1)
