-- ===== src/ReadOnly/Refused.antt =====
-- What `validate_read_only` of src/azure_sql_mcp/safe_sql.py refuses, whatever the parser makes of it.
use azure_sql_mcp.Shared.{
  ℕ, ◌≡◌, ◌≢◌, refl, sym, ap, ◌∙◌, subst, ◌⊎◌, inl, inr, Bool, true, false, not, ◌||◌, Option, none,
  some, List, [], ◌∷◌, ◌++◌, any, All, map, if◌then◌else◌, arith,
}
use azure_sql_mcp.Shared.Text.{Text}
use azure_sql_mcp.Shared.Raising.{Raising, raised, returned, ◌>>◌, OkOf, OkOf-bind, OkOf-require}
use azure_sql_mcp.Admin.Chars.{CharTable, upper}
use azure_sql_mcp.ReadOnly.{lex}
use azure_sql_mcp.ReadOnly.Words.{is_statement, member, in_word, code_words, refused_word}
use azure_sql_mcp.ReadOnly.Pieces.{Piece, text_of, code_of, words_of, Stand}
use azure_sql_mcp.ReadOnly.Lexed.{lex-text_of}
use azure_sql_mcp.ReadOnly.Gate.{
  front, back, PartedBefore, PartedAfter, runs_before, runs_after, find_runs_word, map-append,
  keyword-refused_word,
}
use azure_sql_mcp.ReadOnly.Rules.{
  Rule, is_empty, strip, locking_hints, is_name_char, has_temp_table, check_text_rules,
}
use azure_sql_mcp.ReadOnly.Validate
use azure_sql_mcp.ReadOnly.Validate.{
  Parser, ValidatedQuery, Refusal, breaks, keyword, refuse_if, check_statements, admit,
  validate_read_only, StaticAnalysisOutcome, analyze_read_only,
}

has_temp_table-append :
    (s : Text) (c : ℕ) (t : Text)
    → is_name_char c ≡ true
    → has_temp_table (s ++ b'#' ∷ c ∷ t) ≡ true
unfolding has_temp_table
has_temp_table-append [] c t h = rw h refl
has_temp_table-append (d ∷ s) c t h = rw (has_temp_table-append s c t h) (or_true _)
  where
    or_true : (b : Bool) → (b || true) ≡ true
    or_true b = ground arith

any-append :
    (q : Text → Bool) (before : List Text) (w : Text) (after : List Text)
    → q w ≡ true
    → any q (before ++ w ∷ after) ≡ true
unfolding any
any-append q [] w after h = rw h refl
any-append q (v ∷ before) w after h = rw (any-append q before w after h) (or_true (q v))
  where
    or_true : (b : Bool) → (b || true) ≡ true
    or_true b = ground arith

module _ ⦃chars : CharTable⦄ where
  -- A word of a text, parted from what stands before it and behind it.
  pub record HasWord (text : Text) (P : Text → Type 0) : Type 0 where
    pub before : Option (Text × ℕ)
    pub word : Text
    pub after : Option (ℕ × Text)
    pub stands : text ≡ front before (word ++ back after)
    pub parted_before : PartedBefore before
    pub parted_after : PartedAfter after
    pub inside : All (λ e. in_word e ≡ true) word
    pub nonempty : word ≢ []
    pub is_one : P (upper word)

  -- A statement keyword outside comments, literals and quoted names; a locking hint outside comments
  -- and literals; or the name of a temporary table there.
  pub data IsForbidden (ps : List Piece) : Type 0 where
    statement_keyword : HasWord (words_of ps) (λ w. is_statement w ≡ true) → IsForbidden ps
    lock_hint : HasWord (code_of ps) (λ w. member w locking_hints ≡ true) → IsForbidden ps
    temporary :
        (s : Text) (c : ℕ) (t : Text)
        → is_name_char c ≡ true
        → code_of ps ≡ s ++ b'#' ∷ c ∷ t
        → IsForbidden ps

  module _ (alike : ℕ → ℕ → Bool) (normalize : Text → Text) where
    -- The tests before one that holds, and those behind it, change nothing.
    chain :
        (a b c d e f g h i j : Bool)
        → (g ≡ true) ⊎ (j ≡ true)
        → (k : Bool)
        → (if a
            then some Rule.unterminated
            else if b
            then some Rule.batch_separator
            else if c
            then some Rule.dbcc
            else if d
            then some Rule.execute_as
            else if e
            then some Rule.exec
            else if f
            then some Rule.rowset
            else if g
            then some Rule.temp_table
            else if h
            then some Rule.waitfor
            else if i
            then some Rule.sp_executesql
            else if j
            then some Rule.locking_hint
            else if k
            then some Rule.max_recursion
            else none)
          ≢ none
    chain true b c d e f g h i j one k = λ eq. cc
    chain false true c d e f g h i j one k = λ eq. cc
    chain false false true d e f g h i j one k = λ eq. cc
    chain false false false true e f g h i j one k = λ eq. cc
    chain false false false false true f g h i j one k = λ eq. cc
    chain false false false false false true g h i j one k = λ eq. cc
    chain false false false false false false true h i j one k = λ eq. cc
    chain false false false false false false false true i j one k = λ eq. cc
    chain false false false false false false false false true j one k = λ eq. cc
    chain false false false false false false false false false true one k = λ eq. cc
    chain false false false false false false false false false false one k =
        λ eq. elim one [ inl z ↦ cc | inr z ↦ cc ]

    rules_hold :
        (sql : Text)
        → (has_temp_table (lex sql).code ≡ true)
          ⊎ (any (λ w. member w locking_hints) (code_words normalize true sql) ≡ true)
        → check_text_rules alike normalize sql ≢ none
    unfolding check_text_rules
    rules_hold sql one = chain _ _ _ _ _ _ _ _ _ _ one _

    hint_found :
        (ps : List Piece)
        → Stand ps
        → normalize (code_of ps) ≡ code_of ps
        → HasWord (code_of ps) (λ w. member w locking_hints ≡ true)
        → any (λ w. member w locking_hints) (code_words normalize true (text_of ps)) ≡ true
    unfolding code_words
    hint_found ps h normal k =
        rw
          (
            lex-text_of ps h,
            normal,
            k.stands,
            find_runs_word k.before k.word k.after k.parted_before k.parted_after k.inside
                k.nonempty,
            map-append upper (runs_before k.before) (k.word ∷ runs_after k.after),
          )
          (any-append (λ w. member w locking_hints) (map upper (runs_before k.before))
            (upper k.word) (map upper (runs_after k.after)) k.is_one)

    -- A refused text is refused by the rules or by the keywords.
    Refuses : Text → Type 0
    Refuses s = (check_text_rules alike normalize s ≢ none) ⊎ (refused_word normalize s ≢ none)

    forbidden-Refuses :
        (ps : List Piece)
        → Stand ps
        → normalize (code_of ps) ≡ code_of ps
        → normalize (words_of ps) ≡ words_of ps
        → IsForbidden ps
        → Refuses (text_of ps)
    unfolding Refuses
    forbidden-Refuses ps h code words (statement_keyword k) = inr (
        keyword-refused_word normalize ps k.before k.word k.after h k.stands k.parted_before
          k.parted_after k.inside k.nonempty k.is_one words)
    forbidden-Refuses ps h code words (lock_hint k) =
        inl (rules_hold (text_of ps) (inr (hint_found ps h code k)))
    forbidden-Refuses ps h code words (temporary s c t name e) = inl (
        rules_hold (text_of ps) (
          inl (
            ap (λ x. has_temp_table x.code) (lex-text_of ps h)
            ∙ ap has_temp_table e
            ∙ has_temp_table-append s c t name)))

    module _ (lower : Text → Text) (p : Parser) where
      abbrev Never : ValidatedQuery → Type 0
      Never v = ⊥

      refuse_if-Never :
          {A : Type 0} (e : A → Refusal) (o : Option A) (m : Raising Refusal ValidatedQuery)
          → (o ≢ none) ⊎ OkOf Never m
          → OkOf Never (refuse_if e o >> m)
      refuse_if-Never e (some a) m h = tt
      refuse_if-Never e none m (inl h) = absurd (h refl)
      refuse_if-Never e none m (inr h) = h

      admit-Never :
          (sql candidate : Text) (parsed : Option (List (Option p.Statement)))
          → refused_word normalize candidate ≢ none
          → OkOf Never (admit lower p alike normalize sql candidate parsed)
      admit-Never sql candidate none h =
          refuse_if-Never keyword (refused_word normalize candidate) _ (inl h)
      admit-Never sql candidate (some []) h = tt
      admit-Never sql candidate (some (s ∷ ss)) h =
          OkOf-bind Never (check_statements lower p s ss) _
            (λ checked done. refuse_if-Never keyword (refused_word normalize candidate) _ (inl h))

      validate-Never :
          (sql : Text)
          → Refuses (strip sql)
          → OkOf Never (validate_read_only lower p alike normalize sql)
      unfolding validate_read_only Refuses
      validate-Never sql h =
          let candidate = strip sql in
          OkOf-require Never (not (is_empty candidate)) _ _ (λ some_text.
            refuse_if-Never breaks (check_text_rules alike normalize candidate) _ (elim h [
              | inl rule ↦ inl rule
              | inr word ↦ inr (admit-Never sql candidate (p.parse candidate) word)
            ]))

      -- Whatever the parser makes of a text: if, stripped, it is in pieces, each of which ends where the
      -- next begins, and its code has a statement keyword, a locking hint or the name of a temporary
      -- table (the keyword not in a quoted name), `analyze_read_only` does not admit it, where the
      -- normal form leaves its code and its words as they are.
      pub analyze-IsForbidden :
          (sql : Text) (ps : List Piece)
          → strip sql ≡ text_of ps
          → Stand ps
          → normalize (code_of ps) ≡ code_of ps
          → normalize (words_of ps) ≡ words_of ps
          → IsForbidden ps
          → (analyze_read_only lower p alike normalize sql).is_admitted ≡ false
      unfolding analyze_read_only
      analyze-IsForbidden sql ps stripped h code words forbidden =
          judged (validate_read_only lower p alike normalize sql) (
            validate-Never sql
              (subst Refuses (sym stripped) (forbidden-Refuses ps h code words forbidden)))
        where
          judged :
              (m : Raising Refusal ValidatedQuery)
              → OkOf Never m
              → (Validate.outcome_of lower p alike normalize sql m).is_admitted ≡ false
          judged (returned v) h = absurd h
          judged (raised Refusal.unsupported) h = refl
          judged (raised Refusal.empty) h = refl
          judged (raised Refusal.invalid) h = refl
          judged (raised Refusal.not_a_query) h = refl
          judged (raised Refusal.several_statements) h = refl
          judged (raised (Refusal.breaks r)) h = refl
          judged (raised (Refusal.keyword w)) h = refl
          judged (raised (Refusal.unsafe u)) h = refl
