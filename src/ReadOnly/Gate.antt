-- ===== src/ReadOnly/Gate.antt =====
-- The keyword gate of src/azure_sql_mcp/safe_sql.py on whole texts.
use mathlib.Core.List.{append-nil}
use azure_sql_mcp.Shared.{
  Option, some, ℕ, ◌≡◌, ◌≢◌, refl, sym, ap, ◌∙◌, Bool-cases, inl, inr, true, false, not, none, List,
  [], ◌∷◌, ◌++◌, any, String, map, All,
}
use azure_sql_mcp.Shared.Text.{Text, codes, text_eq, text_eq-eq}
use azure_sql_mcp.Admin.Chars.{CharTable, upper}
use azure_sql_mcp.ReadOnly.Words.{
  is_statement, is_word, following, passes, check_statement_keywords, close_run, in_word, runs,
  find_runs, code_words, refused_word,
}
use azure_sql_mcp.ReadOnly.Pieces.{Piece, text_of, words_of, Stand}
use azure_sql_mcp.ReadOnly.Lexed.{lex-text_of}

close_run-append : (r : Text) (ws vs : List Text) → close_run r (ws ++ vs) ≡ close_run r ws ++ vs
close_run-append [] ws vs = refl
close_run-append (c ∷ s) ws vs = refl

abbrev pub front : Option (Text × ℕ) → Text → Text
front none t = t
front (some (s, c)) t = s ++ c ∷ t

abbrev pub back : Option (ℕ × Text) → Text
back none = []
back (some (d, t)) = d ∷ t

module _ ⦃chars : CharTable⦄ where
  -- What stands before a word and behind it: nothing, or text up to, or from, a character of no word.
  abbrev pub PartedBefore : Option (Text × ℕ) → Type 0
  PartedBefore none = Unit
  PartedBefore (some (s, c)) = in_word c ≡ false

  abbrev pub PartedAfter : Option (ℕ × Text) → Type 0
  PartedAfter none = Unit
  PartedAfter (some (d, t)) = in_word d ≡ false

  abbrev pub runs_before : Option (Text × ℕ) → List Text
  runs_before none = []
  runs_before (some (s, c)) = find_runs s

  abbrev pub runs_after : Option (ℕ × Text) → List Text
  runs_after none = []
  runs_after (some (d, t)) = find_runs t

  -- A character that is in no word parts the runs.
  runs-append :
      (s : Text) (c : ℕ) (t : Text)
      → in_word c ≡ false
      → runs (s ++ c ∷ t) ≡ ((runs s).0, (runs s).1 ++ find_runs t)
  unfolding runs
  runs-append [] c t h = rw h refl
  runs-append (d ∷ s) c t h = elim (Bool-cases (in_word d)) [
    | inl inside ↦ rw (runs-append s c t h, inside) refl
    | inr outside ↦
        rw (runs-append s c t h, outside, close_run-append (runs s).0 (runs s).1 (find_runs t)) refl
  ]

  runs_word : (w : Text) → All (λ c. in_word c ≡ true) w → runs w ≡ (w, [])
  unfolding runs
  runs_word [] h = refl
  runs_word (c ∷ w) (here, h) = rw (runs_word w h, here) refl

  find_runs_first :
      (e : ℕ) (w : Text) (after : Option (ℕ × Text))
      → All (λ c. in_word c ≡ true) (e ∷ w)
      → PartedAfter after
      → find_runs ((e ∷ w) ++ back after) ≡ (e ∷ w) ∷ runs_after after
  find_runs_first e w none inside k = rw (append-nil (e ∷ w), runs_word (e ∷ w) inside) refl
  find_runs_first e w (some (d, t)) inside k =
      rw (runs-append (e ∷ w) d t k, runs_word (e ∷ w) inside) refl

  pub find_runs_word :
      (before : Option (Text × ℕ)) (w : Text) (after : Option (ℕ × Text))
      → PartedBefore before
      → PartedAfter after
      → All (λ c. in_word c ≡ true) w
      → w ≢ []
      → find_runs (front before (w ++ back after)) ≡ runs_before before ++ w ∷ runs_after after
  find_runs_word before [] after h k inside some_there = absurd (some_there refl)
  find_runs_word none (e ∷ w) after h k inside some_there = find_runs_first e w after inside k
  find_runs_word (some (s, c)) (e ∷ w) after h k inside some_there =
      rw (runs-append s c ((e ∷ w) ++ back after) h, find_runs_first e w after inside k)
        (close_run-append (runs s).0 (runs s).1 ((e ∷ w) ∷ runs_after after))

not_word :
    (k : String) (w : Text)
    → is_statement (codes k) ≡ false
    → is_statement w ≡ true
    → is_word k w ≡ false
not_word k w no_keyword h = elim (Bool-cases (is_word k w)) [
  | inl same ↦
      let clash : false ≡ true =
        sym no_keyword ∙ ap is_statement (text_eq-eq (codes k) w same) ∙ h in
      cc
  | inr other ↦ other
]

-- A statement keyword is none of those that are allowed before certain words.
statement-passes : (w f : Text) → is_statement w ≡ true → passes w f ≡ false
unfolding passes any text_eq
statement-passes w f h =
    rw
      (
        not_word "MERGE" w refl h,
        not_word "USE" w refl h,
        not_word "SET" w refl h,
        not_word "DECLARE" w refl h,
      )
      (ap not h)

check-append :
    (before : List Text) (w : Text) (after : List Text)
    → ((f : Text) → passes w f ≡ false)
    → check_statement_keywords (before ++ w ∷ after) ≢ none
unfolding check_statement_keywords
check-append [] w after h = rw (h (following after)) (λ e. cc)
check-append (v ∷ before) w after h =
    elim (Bool-cases (passes v (following (before ++ w ∷ after)))) [
      | inl on ↦ rw on (check-append before w after h)
      | inr refused ↦ rw refused (λ e. cc)
    ]

pub map-append : (g : Text → Text) (xs ys : List Text) → map g (xs ++ ys) ≡ map g xs ++ map g ys
map-append g [] ys = refl
map-append g (x ∷ xs) ys = ap (λ zs. g x ∷ zs) (map-append g xs ys)

module _ ⦃chars : CharTable⦄ (normalize : Text → Text) where
  -- A text in pieces, each of which ends where the next begins, is refused if a statement keyword, in any
  -- case, stands as a word outside its comments, literals and quoted names, where the text is left as
  -- it is by the normal form.
  pub keyword-refused_word :
      (ps : List Piece) (before : Option (Text × ℕ)) (w : Text) (after : Option (ℕ × Text))
      → Stand ps
      → words_of ps ≡ front before (w ++ back after)
      → PartedBefore before
      → PartedAfter after
      → All (λ e. in_word e ≡ true) w
      → w ≢ []
      → is_statement (upper w) ≡ true
      → normalize (words_of ps) ≡ words_of ps
      → refused_word normalize (text_of ps) ≢ none
  unfolding refused_word code_words
  keyword-refused_word ps before w after h words first last inside some_there keyword normal =
      rw
        (
          lex-text_of ps h,
          normal,
          words,
          find_runs_word before w after first last inside some_there,
          map-append upper (runs_before before) (w ∷ runs_after after),
        )
        (check-append (map upper (runs_before before)) (upper w) (map upper (runs_after after))
          (λ f. statement-passes (upper w) f keyword))
