-- ===== src/Admin/DropDatabase/Depth.antt =====
-- The levels of dynamic SQL that the detector follows.
use azure_sql_mcp.Shared.{
  ℕ, zero, suc, ◌≡◌, Bool, true, Option, none, some, List, [], ◌∷◌, any, arith,
}
use azure_sql_mcp.Shared.Text.{Text}
use azure_sql_mcp.Admin.Chars.{CharTable}
use azure_sql_mcp.Admin.Tokens.{Token, tokenize_sql}
use azure_sql_mcp.Admin.Expressions.{Known}
use azure_sql_mcp.Admin.Variables.{update_known_sql_variable}
use azure_sql_mcp.Admin.DropDatabase.{
  candidates, executed_expression, runs_drop, scan_executed, contains_drop_database,
}

module _ (f g : Text → Bool) (below : (s : Text) → f s ≡ true → g s ≡ true) where
  any_mono : (ss : List Text) → any f ss ≡ true → any g ss ≡ true
  unfolding any
  any_mono [] h = h
  any_mono (s ∷ ss) h = ground (arith, below s, any_mono ss)

  runs_drop_mono :
      (known : Known) (e : Option (List Token))
      → runs_drop f known e ≡ true
      → runs_drop g known e ≡ true
  runs_drop_mono known none h = h
  runs_drop_mono known (some ts) h = any_mono (candidates known ts) h

  scan_executed_mono :
      (before ts : List Token) (known : Known)
      → scan_executed f before ts known ≡ true
      → scan_executed g before ts known ≡ true
  unfolding scan_executed
  scan_executed_mono before [] known h = h
  scan_executed_mono before (t ∷ ts) known h = ground (
    arith,
    runs_drop_mono (update_known_sql_variable before t ts known) (executed_expression t ts),
    scan_executed_mono (t ∷ before) ts (update_known_sql_variable before t ts known),
  )

module _ ⦃chars : CharTable⦄ where
  -- What is found with some levels left is found with one more.
  contains_drop_database_mono :
      (n : ℕ) (ts : List Token)
      → contains_drop_database n ts ≡ true
      → contains_drop_database (suc n) ts ≡ true
  unfolding contains_drop_database
  contains_drop_database_mono zero ts h = cc
  contains_drop_database_mono (suc n) ts h =
      ground (
        arith,
        scan_executed_mono _ _ (λ s. contains_drop_database_mono n (tokenize_sql s)) [] ts [],
      )
