-- ===== src/Shared/Rows.antt =====
-- A table of a database as the list of its rows, with a primary key.
use Prim.Native.Nat.{ℕ, ◌+◌}
use mathlib.Core.Path.{◌≡◌, refl, ap, subst}
use mathlib.Core.Bool.{false}
use mathlib.Core.Option.{Option, none, some}
use mathlib.Core.List.{List, [], ◌∷◌}
use native.Mathlib.Omega.{arith}
use azure_sql_mcp.Shared.Tests.{◌==◌, if◌then◌else◌, Bool-cases}
use mathlib.Core.Logic.{inl, inr}

module _ {ℓ} {A : Type ℓ} (key : A → ℕ) where
  -- SELECT * FROM rows WHERE key = ?
  unfoldable pub find_row : ℕ → List A → Option A
  find_row k [] = none
  find_row k (x ∷ xs) = if key x == k then some x else find_row k xs

  -- UPDATE or INSERT of the row with this key
  unfoldable pub put_row : A → List A → List A
  put_row x [] = x ∷ []
  put_row x (y ∷ ys) = let rest = put_row x ys in if key y == key x then x ∷ ys else y ∷ rest

  pub find_row-put_row :
      (k : ℕ) (x : A) (xs : List A)
      → find_row k (put_row x xs) ≡ (if key x == k then some x else find_row k xs)
  unfolding find_row put_row
  find_row-put_row k x [] = refl
  find_row-put_row k x (y ∷ ys) = ground (arith, find_row-put_row k x ys)

  pub key-find_row : (k : ℕ) (x : A) (xs : List A) → find_row k xs ≡ some x → key x ≡ k
  unfolding find_row
  key-find_row k x [] e = ground arith
  key-find_row k x (y ∷ ys) e = ground (arith, key-find_row k x ys)

  -- The rows that belong to an owner.
  module _ (owner : A → ℕ) where
    unfoldable pub owned : ℕ → List A → List A
    owned o [] = []
    owned o (x ∷ xs) = let rest = owned o xs in if owner x == o then x ∷ rest else rest

    pub find_row-owned :
        (k o : ℕ) (x : A) (xs : List A)
        → find_row k xs ≡ some x
        → owner x ≡ o
        → find_row k (owned o xs) ≡ some x
    unfolding find_row owned
    find_row-owned k o x [] e own = ground arith
    find_row-owned k o x (y ∷ ys) e own = ground (arith, find_row-owned k o x ys)

    -- A row of another owner, put in place of one of another owner or of none.
    pub owned-put_row :
        (o : ℕ) (x : A) (xs : List A)
        → (owner x == o ≡ false)
        → ((y : A) → find_row (key x) xs ≡ some y → owner y == o ≡ false)
        → owned o (put_row x xs) ≡ owned o xs
    unfolding find_row put_row owned
    owned-put_row o x [] other old = ground arith
    owned-put_row o x (y ∷ ys) other old = elim (Bool-cases (key y == key x)) [
      | inl same ↦ rw (same, other, old y (rw same)) refl
      | inr apart ↦
          let rest = owned-put_row o x ys other (λ z e. old z (rw apart e)) in rw (apart, rest) refl
    ]

    -- A number of each row, summed up.
    unfoldable pub sum_rows : List A → ℕ
    sum_rows [] = 0
    sum_rows (x ∷ xs) = owner x + sum_rows xs

    pub sum_rows-put_row :
        (x old : A) (xs : List A)
        → find_row (key x) xs ≡ some old
        → sum_rows (put_row x xs) + owner old ≡ sum_rows xs + owner x
    unfolding sum_rows find_row put_row
    sum_rows-put_row x old [] e = cc
    sum_rows-put_row x old (y ∷ ys) e = elim (Bool-cases (key y == key x)) [
      | inl same ↦
          let is : some y ≡ some old =
            subst (λ b. (if b then some y else find_row (key x) ys) ≡ some old) same e in
          let weight : owner y ≡ owner old =
            ap (λ (o : Option A). elim o [ none ↦ 0 | some z ↦ owner z ]) is in
          rw same (omega (arith, weight))
      | inr apart ↦
          let later : find_row (key x) ys ≡ some old =
            subst (λ b. (if b then some y else find_row (key x) ys) ≡ some old) apart e in
          rw apart (omega (arith, sum_rows-put_row x old ys later))
    ]

    pub sum_rows-put_row_new :
        (x : A) (xs : List A)
        → find_row (key x) xs ≡ none
        → sum_rows (put_row x xs) ≡ sum_rows xs + owner x
    unfolding sum_rows find_row put_row
    sum_rows-put_row_new x [] e = omega arith
    sum_rows-put_row_new x (y ∷ ys) e = ground (arith, sum_rows-put_row_new x ys)
