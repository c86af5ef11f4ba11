-- ===== src/Retry/Codes.antt =====
-- The search for a transient code in a message, src/azure_sql_mcp/retry.py.
use azure_sql_mcp.Shared.{
  ℕ, ◌≡◌, ◌↔◌, refl, sym, ap, subst, Bool, true, false, ◌||◌, ◌&&◌, not, List, [], ◌∷◌, ◌++◌, any,
  arith, inl, inr, Bool-cases,
}
use azure_sql_mcp.Shared.Text.{Text, text_eq, text_eq_refl, text_eq-eq}
use azure_sql_mcp.Retry.{transient_texts, ends, code_here, search_from, message_has_transient_code}

any-member :
    (p : Text → Bool) (x : Text) (xs : List Text)
    → any (text_eq x) xs ≡ true
    → p x ≡ true
    → any p xs ≡ true
unfolding any
any-member p x [] h k = cc
any-member p x (y ∷ xs) h k = elim (Bool-cases (text_eq x y)) [
  | inl same ↦
      let at : p y ≡ true = subst (λ z. p z ≡ true) (text_eq-eq x y same) k in ground (arith, at)
  | inr other ↦ let ih = any-member p x xs in ground (arith, ih, other, h, k)
]

member-any :
    (p : Text → Bool) (xs : List Text)
    → any p xs ≡ true
    → (x : Text) × (any (text_eq x) xs ≡ true) × (p x ≡ true)
unfolding any
member-any p [] h = cc
member-any p (y ∷ xs) h = elim (Bool-cases (p y)) [
  | inl here ↦ (y, rw (text_eq_refl y) refl, here)
  | inr later ↦
      let (x, m, k) = member-any p xs (ground (arith, later, h)) in (x, ground (arith, m), k)
]

or_true : (b : Bool) → b || true ≡ true
or_true true = refl
or_true false = refl

and_parts : (a b : Bool) → not a && b ≡ true → (a ≡ false) × (b ≡ true)
and_parts true b h = cc
and_parts false b h = (refl, h)

or_right : (a b : Bool) → a ≡ false → a || b ≡ true → b ≡ true
or_right true b e h = cc
or_right false b e h = h

module _ (is_digit : ℕ → Bool) where
  -- Whether a digit stands at the end, or before an empty text.
  unfoldable pub ends_digit : Bool → Text → Bool
  ends_digit after_digit [] = after_digit
  ends_digit after_digit (c ∷ s) = ends_digit (is_digit c) s

  -- A code of the list stands in the text, with no digit before it and none behind.
  pub record HasCode (after_digit : Bool) (s : Text) : Type 0 where
    pub before : Text
    pub code : Text
    pub after : Text
    pub cut : s ≡ before ++ (code ++ after)
    pub listed : any (text_eq code) transient_texts ≡ true
    pub alone_before : ends_digit after_digit before ≡ false
    pub alone_after : ends is_digit after ≡ true

  code_here-append :
      (code after : Text)
      → ends is_digit after ≡ true
      → code_here is_digit code (code ++ after) ≡ true
  unfolding code_here
  code_here-append [] after h = h
  code_here-append (k ∷ code) after h = let ih = code_here-append code after h in ground (arith, ih)

  append-code_here :
      (code s : Text)
      → code_here is_digit code s ≡ true
      → (after : Text) × (s ≡ code ++ after) × (ends is_digit after ≡ true)
  unfolding code_here
  append-code_here [] s h = (s, refl, h)
  append-code_here (k ∷ code) [] h = cc
  append-code_here (k ∷ code) (c ∷ s) h =
      let same : k ≡ c = ground (arith, h) in
      let (after, cut, alone) = append-code_here code s (ground (arith, h)) in
      (after, rw (same, cut) refl, alone)

  search_from-HasCode_here :
      (after_digit : Bool) (code after : Text)
      → any (text_eq code) transient_texts ≡ true
      → after_digit ≡ false
      → ends is_digit after ≡ true
      → search_from is_digit after_digit (code ++ after) ≡ true
  unfolding search_from any text_eq
  search_from-HasCode_here after_digit [] after m e h = let no : false ≡ true = m in cc
  search_from-HasCode_here after_digit (k ∷ code) after m e h =
      let found =
        any-member (λ x. code_here is_digit x (k ∷ code ++ after)) (k ∷ code) transient_texts m
          (code_here-append (k ∷ code) after h) in
      rw (e, found) refl

  search_from-append :
      (after_digit : Bool) (before s : Text)
      → search_from is_digit (ends_digit after_digit before) s ≡ true
      → search_from is_digit after_digit (before ++ s) ≡ true
  unfolding search_from ends_digit
  search_from-append after_digit [] s h = h
  search_from-append after_digit (c ∷ before) s h =
      rw (search_from-append (is_digit c) before s h) (or_true _)

  HasCode-search_from :
      (after_digit : Bool) (s : Text)
      → search_from is_digit after_digit s ≡ true
      → HasCode after_digit s
  unfolding search_from ends_digit
  HasCode-search_from after_digit [] h = cc
  HasCode-search_from after_digit (c ∷ s) h =
      elim (Bool-cases
        (not after_digit && any (λ code. code_here is_digit code (c ∷ s)) transient_texts)) [
          | inl here ↦
              let (code, m, k) =
                member-any (λ x. code_here is_digit x (c ∷ s)) transient_texts
                  (and_parts _ _ here).1 in
              let (rest, cut_at, alone) = append-code_here code (c ∷ s) k in
              record {
                before = [];
                code = code;
                after = rest;
                cut = cut_at;
                listed = m;
                alone_before = (and_parts _ _ here).0;
                alone_after = alone;
              }
          | inr later ↦
              let r = HasCode-search_from (is_digit c) s (or_right _ _ later h) in
              record {
                before = c ∷ r.before;
                code = r.code;
                after = r.after;
                cut = ap (λ t. c ∷ t) r.cut;
                listed = r.listed;
                alone_before = r.alone_before;
                alone_after = r.alone_after;
              }
        ]

  -- A message counts as transient exactly when a code of the list stands in it, in full: with no digit
  -- directly before it, and none directly behind.
  pub message_has_transient_code-HasCode :
      (s : Text) → (message_has_transient_code is_digit s ≡ true) ↔ HasCode false s
  unfolding message_has_transient_code
  message_has_transient_code-HasCode s = (
    HasCode-search_from false s,
    λ r.
        subst (λ t. search_from is_digit false t ≡ true) (sym r.cut)
          (search_from-append false r.before (r.code ++ r.after) (
            search_from-HasCode_here (ends_digit false r.before) r.code r.after r.listed
              r.alone_before r.alone_after)),
  )
