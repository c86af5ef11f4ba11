-- ===== src/Shared/Sorted.antt =====
-- Python's `sorted(xs, key=..., reverse=True)`: the higher entries first, and of two that rank alike
-- the one that stood first. Python's own algorithm is another; its result is this one.
use mathlib.Core.Path.{◌≡◌}
use mathlib.Core.Logic.{◌⊎◌, inl, inr, ◌↔◌}
use mathlib.Core.Bool.{Bool, true, false}
use mathlib.Core.List.{List, [], ◌∷◌}
use azure_sql_mcp.Shared.Lists.{All, Among}
use azure_sql_mcp.Shared.Tests.{if◌then◌else◌, Bool-cases}

module _ {A : Type 0} (above : A → A → Bool) where
  unfoldable pub place : A → List A → List A
  place x [] = x ∷ []
  place x (y ∷ ys) = let rest = place x ys in if above y x then y ∷ rest else x ∷ y ∷ ys

  unfoldable pub sorted : List A → List A
  unfolding place
  sorted [] = []
  sorted (x ∷ xs) = place x (sorted xs)

  -- Nothing ranks above what stands before it.
  abbrev pub IsDescending : List A → Type 0
  IsDescending [] = Unit
  IsDescending (x ∷ xs) = All (λ y. above y x ≡ false) xs × IsDescending xs

  All-place : (P : A → Type 0) (x : A) (ys : List A) → P x → All P ys → All P (place x ys)
  unfolding place
  All-place P x [] p h = (p, tt)
  All-place P x (y ∷ ys) p h = elim (Bool-cases (above y x)) [
    | inl up ↦ rw up (h.0, All-place P x ys p h.1)
    | inr down ↦ rw down (p, h)
  ]

  Among-place : (a x : A) (ys : List A) → Among a (place x ys) ↔ ((a ≡ x) ⊎ Among a ys)
  unfolding place
  Among-place a x [] = (λ m. m, λ m. m)
  Among-place a x (y ∷ ys) = elim (Bool-cases (above y x)) [
    | inl up ↦ rw up (over (Among-place a x ys))
    | inr down ↦ rw down (λ m. m, λ m. m)
  ]
    where
      over : {P Q R : Type 0} → (P ↔ (Q ⊎ R)) → ((a ≡ y) ⊎ P) ↔ (Q ⊎ ((a ≡ y) ⊎ R))
      over h = (
        λ m. elim m [
          | inl e ↦ inr (inl e)
          | inr k ↦ elim (h.0 k) [ inl q ↦ inl q | inr r ↦ inr (inr r) ]
        ],
        λ m. elim m [
          | inl q ↦ inr (h.1 (inl q))
          | inr k ↦ elim k [ inl e ↦ inl e | inr r ↦ inr (h.1 (inr r)) ]
        ],
      )

  pub Among-sorted : (a : A) (xs : List A) → Among a (sorted xs) ↔ Among a xs
  unfolding sorted
  Among-sorted a [] = (λ m. m, λ m. m)
  Among-sorted a (x ∷ xs) =
      let here = Among-place a x (sorted xs) in
      let later = Among-sorted a xs in
      (
        λ m. elim (here.0 m) [ inl e ↦ inl e | inr k ↦ inr (later.0 k) ],
        λ m. here.1 (elim m [ inl e ↦ inl e | inr k ↦ inr (later.1 k) ]),
      )

  module _ (asym : (x y : A) → above x y ≡ true → above y x ≡ false)
      (chain : (x y z : A) → above x y ≡ false → above y z ≡ false → above x z ≡ false) where
    All-below :
        (x y : A) (ys : List A)
        → above y x ≡ false
        → All (λ z. above z y ≡ false) ys
        → All (λ z. above z x ≡ false) ys
    All-below x y [] low h = tt
    All-below x y (z ∷ zs) low h = (chain z y x h.0 low, All-below x y zs low h.1)

    place-IsDescending : (x : A) (ys : List A) → IsDescending ys → IsDescending (place x ys)
    unfolding place
    place-IsDescending x [] h = (tt, tt)
    place-IsDescending x (y ∷ ys) h = elim (Bool-cases (above y x)) [
      | inl up ↦
          rw up
            (All-place (λ z. above z y ≡ false) x ys (asym y x up) h.0, place-IsDescending x ys h.1)
      | inr down ↦ rw down ((down, All-below x y ys down h.0), h)
    ]

    pub sorted-IsDescending : (xs : List A) → IsDescending (sorted xs)
    unfolding sorted
    sorted-IsDescending [] = tt
    sorted-IsDescending (x ∷ xs) = place-IsDescending x (sorted xs) (sorted-IsDescending xs)
