-- ===== src/Admin/DropDatabase/Direct.antt =====
-- A `DROP DATABASE` that stands in the text itself.
use azure_sql_mcp.Shared.{
  ℕ, suc, ◌≡◌, refl, ◌∙◌, ap, Bool, true, false, List, [], ◌∷◌, ◌++◌, All, arith,
}
use azure_sql_mcp.Shared.Text.{Text, codes}
use azure_sql_mcp.Admin.Chars.{CharTable, upper}
use azure_sql_mcp.Admin.Tokens.{Token, token, word}
use azure_sql_mcp.Admin.Tokens.Gaps.{Separator}
use azure_sql_mcp.Admin.Tokens.Render.{
  name, lexeme_token, Source, IsSource, source_text, source_tokens,
}
use azure_sql_mcp.Admin.Tokens.RoundTrip.{tokenize_sql-source_text}
use azure_sql_mcp.Admin.Expressions.{is_word, Known}
use azure_sql_mcp.Admin.DropDatabase.{
  has_drop_database, executed_expression, scan_executed, contains_drop_database, is_rejected,
  max_dynamic_depth,
}

pub has_drop_database-adjacent :
    (before after : List Token)
    → has_drop_database
        (before ++ token word (codes "DROP") ∷ token word (codes "DATABASE") ∷ after)
      ≡ true
unfolding has_drop_database
has_drop_database-adjacent [] after = refl
has_drop_database-adjacent (t ∷ []) after = ground arith
has_drop_database-adjacent (t ∷ u ∷ before) after =
    ground (arith, has_drop_database-adjacent (u ∷ before) after)

-- A token that neither starts the statement nor runs a text.
abbrev pub IsQuiet : Token → Type 0
IsQuiet t =
    (is_word (codes "DROP") t ≡ false)
    × (is_word (codes "EXEC") t ≡ false)
    × (is_word (codes "EXECUTE") t ≡ false)

has_drop_database-IsQuiet : (ts : List Token) → All IsQuiet ts → has_drop_database ts ≡ false
unfolding has_drop_database
has_drop_database-IsQuiet [] h = refl
has_drop_database-IsQuiet (t ∷ []) h = refl
has_drop_database-IsQuiet (t ∷ u ∷ ts) h = rw h.0.0 (has_drop_database-IsQuiet (u ∷ ts) h.1)

pub scan_executed-IsQuiet :
    (rejects : Text → Bool) (before ts : List Token) (known : Known)
    → All IsQuiet ts
    → scan_executed rejects before ts known ≡ false
unfolding scan_executed executed_expression
scan_executed-IsQuiet rejects before [] known h = refl
scan_executed-IsQuiet rejects before (t ∷ ts) known h =
    rw (h.0.1, h.0.2) (scan_executed-IsQuiet rejects (t ∷ before) ts _ h.1)

module _ ⦃chars : CharTable⦄ where
  source_tokens-append :
      (xs ys : Source) → source_tokens (xs ++ ys) ≡ source_tokens xs ++ source_tokens ys
  unfolding source_tokens
  source_tokens-append [] ys = refl
  source_tokens-append ((l, c, g) ∷ xs) ys =
      ap (λ ts. lexeme_token l ∷ ts) (source_tokens-append xs ys)

  contains_drop_database-adjacent :
      (n : ℕ) (before after : List Token)
      → contains_drop_database
          (suc n)
          (before ++ token word (codes "DROP") ∷ token word (codes "DATABASE") ∷ after)
        ≡ true
  unfolding contains_drop_database
  contains_drop_database-adjacent n before after = rw (has_drop_database-adjacent before after)

  drop_tokens :
      (before after : Source) (c d b e : ℕ) (s t : Text) (g h : List Separator)
      → upper (c ∷ s) ≡ codes "DROP"
      → upper (d ∷ t) ≡ codes "DATABASE"
      → source_tokens (before ++ (name c s, b, g) ∷ (name d t, e, h) ∷ after)
        ≡ source_tokens before
          ++ token word (codes "DROP") ∷ token word (codes "DATABASE") ∷ source_tokens after
  unfolding source_tokens
  drop_tokens before after c d b e s t g h p q =
      source_tokens-append before _
      ∙ ap
          (λ (r : Text × Text).
            source_tokens before ++ token word r.0 ∷ token word r.1 ∷ source_tokens after)
          (λ i. (p i, q i))

  -- Whatever well-formed text stands before and behind it, and whatever white space and comments,
  -- nested ones included, stand between the words: `DROP` and `DATABASE` in any case are rejected.
  pub is_rejected-drop_database :
      (before after : Source) (c d b e : ℕ) (s t : Text) (g h : List Separator)
      → IsSource (before ++ (name c s, b, g) ∷ (name d t, e, h) ∷ after)
      → upper (c ∷ s) ≡ codes "DROP"
      → upper (d ∷ t) ≡ codes "DATABASE"
      → is_rejected (source_text (before ++ (name c s, b, g) ∷ (name d t, e, h) ∷ after)) ≡ true
  unfolding is_rejected
  is_rejected-drop_database before after c d b e s t g h valid p q =
      rw (tokenize_sql-source_text _ valid, drop_tokens before after c d b e s t g h p q)
        (contains_drop_database-adjacent max_dynamic_depth (source_tokens before)
          (source_tokens after))

  -- A text none of whose tokens is the word `DROP`, `EXEC` or `EXECUTE` is accepted, so what stands
  -- in a comment, a string or a quoted name rejects nothing by itself.
  pub is_rejected-IsQuiet :
      (ls : Source)
      → IsSource ls
      → All IsQuiet (source_tokens ls)
      → is_rejected (source_text ls) ≡ false
  unfolding is_rejected contains_drop_database
  is_rejected-IsQuiet ls valid h = rw (
    tokenize_sql-source_text ls valid,
    has_drop_database-IsQuiet (source_tokens ls) h,
    scan_executed-IsQuiet _ [] (source_tokens ls) [] h,
  )
