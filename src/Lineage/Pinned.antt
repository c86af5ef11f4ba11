-- ===== src/Lineage/Pinned.antt =====
-- The last entry of a list that passes a test.
use azure_sql_mcp.Shared.{
  ◌≡◌, refl, sym, ap, ◌∙◌, ◌⊎◌, inl, inr, Bool, true, false, ◌||◌, Option, none, some, List, [],
  ◌∷◌, ◌++◌, any,
}
use azure_sql_mcp.Lineage.{last_that, or_first}

-- The last entry that passes: it stands in the list, passes, and none after it does.
abbrev pub IsLast {ℓ} : {A : Type ℓ} → (A → Bool) → List A → A → Type ℓ
IsLast {A = A} f xs x =
    (before after : List A) × (xs ≡ before ++ (x ∷ after)) × (f x ≡ true) × (any f after ≡ false)

or_first-cases {ℓ} :
    {A : Type ℓ} (b : Bool) (y : A) (o : Option A) (x : A)
    → or_first b y o ≡ some x
    → ((b ≡ true) × (y ≡ x) × (o ≡ none)) ⊎ (o ≡ some x)
or_first-cases b y (some z) x h = inr h
or_first-cases true y none x h = inl (refl, cc, refl)
or_first-cases false y none x h = cc

last_that-none {ℓ} :
    {A : Type ℓ} (f : A → Bool) (xs : List A) → last_that f xs ≡ none → any f xs ≡ false
unfolding last_that any
last_that-none f [] h = refl
last_that-none {A = A} f (y ∷ ys) h = passed (f y) (last_that f ys) h (last_that-none f ys)
  where
    passed :
        (b : Bool) (o : Option A)
        → or_first b y o ≡ none
        → (o ≡ none → any f ys ≡ false)
        → (b || any f ys) ≡ false
    passed b (some z) k next = cc
    passed true none k next = cc
    passed false none k next = next refl

pub last_that-IsLast {ℓ} :
    {A : Type ℓ} (f : A → Bool) (xs : List A) (x : A) → last_that f xs ≡ some x → IsLast f xs x
unfolding last_that
last_that-IsLast f [] x h = cc
last_that-IsLast f (y ∷ ys) x h = elim (or_first-cases (f y) y (last_that f ys) x h) [
  | inl (passes, is, empty) ↦
      ([], ys, ap (λ z. z ∷ ys) is, ap f (sym is) ∙ passes, last_that-none f ys empty)
  | inr found ↦
      let (before, after, split, passes, rest) = last_that-IsLast f ys x found in
      (y ∷ before, after, ap (λ zs. y ∷ zs) split, passes, rest)
]
