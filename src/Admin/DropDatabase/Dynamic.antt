-- ===== src/Admin/DropDatabase/Dynamic.antt =====
-- A `DROP DATABASE` inside the literal text that `EXEC (...)` runs.
use azure_sql_mcp.Shared.{
  ℕ, zero, suc, ◌+◌, ◌-◌, ◌≤◌, ◌≡◌, refl, sym, ◌∙◌, ap, Bool, true, false, some, List, [], ◌∷◌,
  ◌++◌, any, All, arith,
}
use native.Mathlib.Nat.{zero-add, suc-add}
use mathlib.Core.List.{append-nil}
use azure_sql_mcp.Shared.Text.{Text, codes}
use azure_sql_mcp.Admin.Chars.{CharTable, upper}
use azure_sql_mcp.Admin.Tokens.{Token, token, word, text_literal, symbol, tokenize_sql}
use azure_sql_mcp.Admin.Tokens.Render.{name, mark, string, Source, source_text, source_tokens}
use azure_sql_mcp.Admin.Tokens.RoundTrip.{tokenize_sql-source_text}
use azure_sql_mcp.Admin.Expressions.{
  is_token, Known, concatenation_loop, prefix_loop, matching_closing_parenthesis,
}
use azure_sql_mcp.Admin.DropDatabase.{
  has_drop_database, truthy, candidates, executed_expression, scan_executed, contains_drop_database,
  is_rejected,
}
use azure_sql_mcp.Admin.DropDatabase.Direct.{IsQuiet, scan_executed-IsQuiet}

abbrev literal : Text → Token
literal v = token text_literal v

abbrev sign : Text → Token
sign v = token symbol v

-- + 'q' + 'r' ...
abbrev more_pieces : List Text → List Token
more_pieces [] = []
more_pieces (q ∷ qs) = sign (codes "+") ∷ literal q ∷ more_pieces qs

abbrev pub joined : List Text → Text
joined [] = []
joined (q ∷ qs) = q ++ joined qs

-- EXEC ( 'p' + 'q' + ... )
abbrev pub exec_tokens : Text → List Text → List Token
exec_tokens p qs =
    token word (codes "EXEC")
    ∷ sign (codes "(")
    ∷ literal p
    ∷ (more_pieces qs ++ sign (codes ")") ∷ [])

matching_closing_parenthesis-pieces :
    (qs : List Text)
    → matching_closing_parenthesis 1 (more_pieces qs ++ sign (codes ")") ∷ [])
      ≡ some (more_pieces qs)
unfolding matching_closing_parenthesis
matching_closing_parenthesis-pieces [] = refl
matching_closing_parenthesis-pieces (q ∷ qs) = rw (matching_closing_parenthesis-pieces qs)

concatenation_loop-pieces :
    (known : Known) (qs : List Text)
    → concatenation_loop known true (more_pieces qs) ≡ some (joined qs)
unfolding concatenation_loop
concatenation_loop-pieces known [] = refl
concatenation_loop-pieces known (q ∷ qs) = rw (concatenation_loop-pieces known qs)

prefix_loop-pieces :
    (known : Known) (qs : List Text) → prefix_loop known true (more_pieces qs) ≡ some (joined qs)
unfolding prefix_loop
prefix_loop-pieces known [] = refl
prefix_loop-pieces known (q ∷ qs) = rw (prefix_loop-pieces known qs)

candidates-pieces :
    (known : Known) (p : Text) (qs : List Text)
    → candidates known (literal p ∷ more_pieces qs)
      ≡ truthy (some (p ++ joined qs)) (truthy (some (p ++ joined qs)) [])
unfolding candidates concatenation_loop prefix_loop
candidates-pieces known p qs = rw (concatenation_loop-pieces known qs, prefix_loop-pieces known qs)

any-truthy :
    (f : Text → Bool) (v : Text) → f [] ≡ false → any f (truthy (some v) (truthy (some v) [])) ≡ f v
unfolding any
any-truthy f [] h = sym h
any-truthy f (c ∷ s) h = ground arith

has_drop_database-pieces :
    (qs : List Text) → has_drop_database (more_pieces qs ++ sign (codes ")") ∷ []) ≡ false
unfolding has_drop_database
has_drop_database-pieces [] = refl
has_drop_database-pieces (q ∷ []) = refl
has_drop_database-pieces (q ∷ r ∷ qs) = has_drop_database-pieces (r ∷ qs)

has_drop_database-behind :
    (p : Text) (qs : List Text)
    → has_drop_database (literal p ∷ (more_pieces qs ++ sign (codes ")") ∷ [])) ≡ false
unfolding has_drop_database
has_drop_database-behind p [] = refl
has_drop_database-behind p (q ∷ qs) = has_drop_database-pieces (q ∷ qs)

pieces-IsQuiet : (qs : List Text) → All IsQuiet (more_pieces qs ++ sign (codes ")") ∷ [])
unfolding is_token
pieces-IsQuiet [] = ((refl, refl, refl), tt)
pieces-IsQuiet (q ∷ qs) = ((refl, refl, refl), ((refl, refl, refl), pieces-IsQuiet qs))

module _ ⦃chars : CharTable⦄ where
  contains_drop_database-empty : (n : ℕ) → contains_drop_database n (tokenize_sql []) ≡ false
  unfolding contains_drop_database tokenize_sql
  contains_drop_database-empty zero = refl
  contains_drop_database-empty (suc n) = refl

  -- However the text is cut into literals, the call is judged as the text is, with a level less.
  pub contains_drop_database-exec :
      (n : ℕ) (p : Text) (qs : List Text)
      → contains_drop_database (suc n) (exec_tokens p qs)
        ≡ contains_drop_database n (tokenize_sql (p ++ joined qs))
  unfolding contains_drop_database scan_executed executed_expression
  contains_drop_database-exec n p qs =
      rw
        (
          has_drop_database-behind p qs,
          matching_closing_parenthesis-pieces qs,
          candidates-pieces [] p qs,
          scan_executed-IsQuiet (λ s. contains_drop_database n (tokenize_sql s)) _ _ []
              (pieces-IsQuiet qs),
        )
        (ground (
          arith,
          any-truthy (λ s. contains_drop_database n (tokenize_sql s)) (p ++ joined qs)
              (contains_drop_database-empty n),
        ))

  abbrev exec_source : Text → Source
  exec_source v =
      (name b'E' (codes "XEC"), 32, [])
      ∷ (mark b'(', 32, [])
      ∷ (string v, 32, [])
      ∷ (mark b')', 32, [])
      ∷ []

  -- exec ( 'exec ( ''...'' ) ' ) : a text inside `depth` calls.
  unfoldable pub nest : ℕ → Text → Text
  unfolding source_text
  nest zero v = v
  nest (suc depth) v = source_text (exec_source (nest depth v))

  source_tokens-exec : (v : Text) → source_tokens (exec_source v) ≡ exec_tokens v []
  unfolding source_tokens upper
  source_tokens-exec v = rw (
    chars.upper_ascii b'E' (omega arith),
    chars.upper_ascii b'X' (omega arith),
    chars.upper_ascii b'C' (omega arith),
  )

  tokenize_sql-exec : (v : Text) → tokenize_sql (source_text (exec_source v)) ≡ exec_tokens v []
  tokenize_sql-exec v =
      tokenize_sql-source_text (exec_source v) (ground arith) ∙ source_tokens-exec v

  contains_drop_database-nest :
      (depth n : ℕ) (v : Text)
      → contains_drop_database (depth + n) (tokenize_sql (nest depth v))
        ≡ contains_drop_database n (tokenize_sql v)
  unfolding nest
  contains_drop_database-nest zero n v = rw zero-add
  contains_drop_database-nest (suc depth) n v =
      rw (suc-add depth n, tokenize_sql-exec (nest depth v))
        (contains_drop_database-exec (depth + n) (nest depth v) []
          ∙ rw append-nil (contains_drop_database-nest depth n v))

  -- Eight calls deep a text is still judged, and with the levels that are left.
  pub is_rejected-nest :
      (depth : ℕ) (v : Text)
      → depth ≤ 9
      → is_rejected (nest depth v) ≡ contains_drop_database (9 - depth) (tokenize_sql v)
  unfolding is_rejected
  is_rejected-nest depth v h =
      let e : 9 ≡ depth + (9 - depth) = omega arith in
      ap (λ n. contains_drop_database n (tokenize_sql (nest depth v))) e
      ∙ contains_drop_database-nest depth (9 - depth) v
