-- ===== src/ReadOnly/Admitted.antt =====
-- What `validate_read_only` of src/azure_sql_mcp/safe_sql.py admits.
use azure_sql_mcp.Shared.{
  ℕ, ◌≡◌, refl, ◌↔◌, Bool, true, false, not, Option, none, some, List, [], ◌∷◌, arith,
}
use azure_sql_mcp.Shared.Text.{Text}
use azure_sql_mcp.Shared.Raising.{Raising, raised, returned, require, ◌>>◌}
use azure_sql_mcp.Admin.Chars.{CharTable}
use azure_sql_mcp.ReadOnly.Words.{refused_word}
use azure_sql_mcp.ReadOnly.Rules.{is_empty, strip, check_text_rules}
use azure_sql_mcp.ReadOnly.Validate.{
  Parser, ValidatedQuery, Refusal, refuse_if, breaks, keyword, check_statements, present, join_sql,
  admit, validate_read_only,
}
use azure_sql_mcp.ReadOnly.Batch.{
  passed, require_passed, IsBatch, check_all, checked-IsBatch, IsBatch-checked,
}

module _ (lower : Text → Text) (p : Parser) where
  module _ ⦃chars : CharTable⦄ (alike : ℕ → ℕ → Bool) (normalize : Text → Text) where
    -- The text is not blank, breaks no rule, has no word that is refused, and is parsed as a batch.
    pub record IsAdmissible (sql : Text) : Type 0 where
      pub some_text : is_empty (strip sql) ≡ false
      pub no_rule : check_text_rules alike normalize (strip sql) ≡ none
      pub no_word : refused_word normalize (strip sql) ≡ none
      pub statements : List (Option p.Statement)
      pub parsed : p.parse (strip sql) ≡ some statements
      pub batch : IsBatch lower p statements

    then_pass :
        {A : Type 0} (m : Raising Refusal (Unit {0})) (next : Raising Refusal A) (v : A)
        → (m >> next) ≡ returned v
        → (m ≡ returned tt) × (next ≡ returned v)
    then_pass (returned u) next v h = (refl, h)
    then_pass (raised e) next v h = cc

    admit-IsBatch :
        (sql candidate : Text) (parsed : Option (List (Option p.Statement))) (v : ValidatedQuery)
        → admit lower p alike normalize sql candidate parsed ≡ returned v
        → (refused_word normalize candidate ≡ none)
          × (statements : List (Option p.Statement)) × (parsed ≡ some statements)
          × IsBatch lower p statements
    admit-IsBatch sql candidate none v h =
        let (words, never) =
          then_pass (refuse_if keyword (refused_word normalize candidate)) _ v h in
        cc
    admit-IsBatch sql candidate (some []) v h = cc
    admit-IsBatch sql candidate (some (s ∷ ss)) v h =
        let (checked, later) = then_pass (check_statements lower p s ss) _ v h in
        let (words, done) =
          then_pass (refuse_if keyword (refused_word normalize candidate)) _ v later in
        (
          passed keyword (refused_word normalize candidate) words,
          s ∷ ss,
          refl,
          checked-IsBatch lower p s ss checked,
        )

    admitted :
        (sql candidate : Text) (statements : List (Option p.Statement))
        → refused_word normalize candidate ≡ none
        → check_all lower p statements ≡ returned tt
        → (v : ValidatedQuery) × (admit lower p alike normalize sql candidate (some statements)
            ≡ returned v)
          × (v.execution_sql ≡ sql)
    unfolding check_all
    admitted sql candidate [] words checked = cc
    admitted sql candidate (s ∷ ss) words checked = (
      record {
        normalized_sql = candidate;
        submitted_sql = sql;
        execution_sql = sql;
        analysis_sql = join_sql lower p (present lower p (s ∷ ss));
      },
      rw (checked, words) refl,
      refl,
    )

    -- A text is admitted exactly when it is not blank, breaks no rule, has no word that is refused, and
    -- is parsed as one query behind statements that declare or set variables, with no node that is not
    -- allowed in any of them; and then the text that is executed is the submitted one.
    pub validate_read_only-IsAdmissible :
        (sql : Text)
        → ((v : ValidatedQuery) × (validate_read_only lower p alike normalize sql ≡ returned v)
            × (v.execution_sql ≡ sql))
          ↔ IsAdmissible sql
    unfolding validate_read_only
    validate_read_only-IsAdmissible sql = (λ k. forth k.0 k.1, back)
      where
        forth :
            (v : ValidatedQuery)
            → validate_read_only lower p alike normalize sql ≡ returned v
            → IsAdmissible sql
        forth v h =
            let (one, second) =
              then_pass (require (not (is_empty (strip sql))) Refusal.empty) _ v h in
            let (two, third) =
              then_pass (refuse_if breaks (check_text_rules alike normalize (strip sql))) _ v
                second in
            let (words, statements, parsed, batch) =
              admit-IsBatch sql (strip sql) (p.parse (strip sql)) v third in
            record {
              some_text = negated (is_empty (strip sql)) (require_passed _ Refusal.empty one);
              no_rule = passed breaks (check_text_rules alike normalize (strip sql)) two;
              no_word = words;
              statements = statements;
              parsed = parsed;
              batch = batch;
            }
          where
            negated : (b : Bool) → not b ≡ true → b ≡ false
            negated b h = ground arith

        back :
            IsAdmissible sql
            → (v : ValidatedQuery) × (validate_read_only lower p alike normalize sql ≡ returned v)
              × (v.execution_sql ≡ sql)
        back k =
            let (v, done, exact) =
              admitted sql (strip sql) k.statements k.no_word
                (IsBatch-checked lower p k.statements k.batch) in
            (v, rw (k.some_text, k.no_rule, k.parsed) done, exact)
