-- ===== src/Shared/Lists.antt =====
-- Lists over the native numbers: lengths, and tests on all or some of the entries.
use Prim.Native.Nat.{ℕ, zero, suc, ◌+◌, min}
use mathlib.Core.Path.{◌≡◌, refl, ap}
use mathlib.Core.Logic.{◌⊎◌, inl, inr, ◌↔◌}
use mathlib.Core.Bool.{Bool, false, ◌||◌}
use mathlib.Core.List.{List, [], ◌∷◌, ◌++◌}
use native.Mathlib.Omega.{arith}

module _ {ℓ} {A : Type ℓ} where
  abbrev pub length : List A → ℕ
  length [] = 0
  length (x ∷ xs) = suc (length xs)

  pub length-append : (xs ys : List A) → length (xs ++ ys) ≡ length xs + length ys
  length-append [] ys = omega arith
  length-append (x ∷ xs) ys = omega (arith, length-append xs ys)

  -- any(p(x) for x in xs)
  unfoldable pub any : (A → Bool) → List A → Bool
  any p [] = false
  any p (x ∷ xs) = p x || any p xs

  abbrev pub All {κ} : (A → Type κ) → List A → Type κ
  All P [] = Unit
  All P (x ∷ xs) = P x × All P xs

  abbrev pub take : ℕ → List A → List A
  take zero xs = []
  take (suc n) [] = []
  take (suc n) (x ∷ xs) = x ∷ take n xs

  pub length-take : (n : ℕ) (xs : List A) → length (take n xs) ≡ min n (length xs)
  length-take zero xs = omega arith
  length-take (suc n) [] = omega arith
  length-take (suc n) (x ∷ xs) = omega (arith, length-take n xs)

  abbrev pub drop : ℕ → List A → List A
  drop zero xs = xs
  drop (suc n) [] = []
  drop (suc n) (x ∷ xs) = drop n xs

  pub take-drop : (n : ℕ) (xs : List A) → take n xs ++ drop n xs ≡ xs
  take-drop zero xs = refl
  take-drop (suc n) [] = refl
  take-drop (suc n) (x ∷ xs) = ap (λ ys. x ∷ ys) (take-drop n xs)

module _ {A : Type 0} where
  -- The entry stands in the list.
  abbrev pub Among : A → List A → Type 0
  Among a [] = ⊥
  Among a (x ∷ xs) = (a ≡ x) ⊎ Among a xs

  pub Among-concat : (a : A) (xs : List A) (y : A) → Among a (xs ++ y ∷ []) ↔ (Among a xs ⊎ (a ≡ y))
  Among-concat a [] y = (
    λ m. elim m [ inl e ↦ inr e | inr none ↦ absurd none ],
    λ m. elim m [ inl none ↦ absurd none | inr e ↦ inl e ],
  )
  Among-concat a (x ∷ xs) y =
      let rest = Among-concat a xs y in
      (
        λ m. elim m [
          | inl e ↦ inl (inl e)
          | inr k ↦ elim (rest.0 k) [ inl old ↦ inl (inr old) | inr new ↦ inr new ]
        ],
        λ m. elim m [
          | inl k ↦ elim k [ inl e ↦ inl e | inr old ↦ inr (rest.1 (inl old)) ]
          | inr new ↦ inr (rest.1 (inr new))
        ],
      )
