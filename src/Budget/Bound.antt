-- ===== src/Budget/Bound.antt =====
-- The consumed attempts of a session cover the charges of its final reservations, and so a new
-- reservation keeps all charges within the limit.
use azure_sql_mcp.Shared.{
  ℕ, ◌+◌, ◌≤◌, Bool, true, false, ◌&&◌, List, [], ◌∷◌, any, arith, ◌≡◌, refl, ◌==◌, if◌then◌else◌,
}
use azure_sql_mcp.Budget.{
  Reservation, Store, is_final, charge, reserved_attempts, finalized_attempts, has, insert,
  finalized_keys, actual_keys, sum_max, consumed_attempts,
}
use azure_sql_mcp.Budget.Ledger.{charged_attempts, final_attempts, charged_attempts_split}

abbrev is_final_of : ℕ → Reservation → Bool
is_final_of s r = r.session_id == s && is_final r.status

-- Every candidate with a final reservation is among the keys.
unfoldable IsCovered : ℕ → List Reservation → List ℕ → Type 0
IsCovered s [] keys = Unit
IsCovered s (r ∷ rs) keys =
    (is_final_of s r ≡ true → has r.candidate_id keys ≡ true) × IsCovered s rs keys

has-insert : (c : ℕ) (keys : List ℕ) → has c (insert c keys) ≡ true
unfolding any
has-insert c keys = ground arith

has-insert_other : (c k : ℕ) (keys : List ℕ) → has c keys ≡ true → has c (insert k keys) ≡ true
unfolding any
has-insert_other c k keys h = ground arith

insert-IsCovered :
    (s k : ℕ) (rs : List Reservation) (keys : List ℕ)
    → IsCovered s rs keys
    → IsCovered s rs (insert k keys)
unfolding IsCovered
insert-IsCovered s k [] keys h = tt
insert-IsCovered s k (r ∷ rs) keys h =
    (λ final. has-insert_other r.candidate_id k keys (h.0 final), insert-IsCovered s k rs keys h.1)

add-IsCovered :
    (s : ℕ) (r : Reservation) (rs : List Reservation) (keys : List ℕ) (b : Bool)
    → is_final_of s r ≡ b
    → IsCovered s rs keys
    → IsCovered s (r ∷ rs) (if b then insert r.candidate_id keys else keys)
unfolding IsCovered
add-IsCovered s r rs keys true e h =
    (λ _. has-insert r.candidate_id keys, insert-IsCovered s r.candidate_id rs keys h)
add-IsCovered s r rs keys false e h = (λ final. cc, h)

finalized_keys-IsCovered :
    (s : ℕ) (rs : List Reservation) (keys : List ℕ) → IsCovered s rs (finalized_keys s rs keys)
unfolding IsCovered finalized_keys
finalized_keys-IsCovered s [] keys = tt
finalized_keys-IsCovered s (r ∷ rs) keys =
    add-IsCovered s r rs (finalized_keys s rs keys) (is_final_of s r) refl
      (finalized_keys-IsCovered s rs keys)

-- The charges of the final reservations, by candidate.
unfoldable sum_final : ℕ → List Reservation → List ℕ → ℕ
sum_final s rs [] = 0
sum_final s rs (c ∷ keys) = finalized_attempts s c rs + sum_final s rs keys

sum_final_step :
    (s : ℕ) (r : Reservation) (rs : List Reservation) (keys : List ℕ)
    → (if is_final_of s r && has r.candidate_id keys then charge r else 0) + sum_final s rs keys
      ≤ sum_final s (r ∷ rs) keys
unfolding sum_final finalized_attempts any
sum_final_step s r rs [] = ground arith
sum_final_step s r rs (c ∷ keys) = let ih = sum_final_step s r rs keys in ground (arith, ih)

final_attempts-le-sum_final :
    (s : ℕ) (rs : List Reservation) (keys : List ℕ)
    → IsCovered s rs keys
    → final_attempts s rs ≤ sum_final s rs keys
unfolding IsCovered final_attempts
final_attempts-le-sum_final s [] keys h = omega arith
final_attempts-le-sum_final s (r ∷ rs) keys h =
    let ih = final_attempts-le-sum_final s rs keys h.1 in
    let step = sum_final_step s r rs keys in ground (arith, ih, step, h.0)

sum_final-le-sum_max :
    (s : ℕ) (st : Store) (keys : List ℕ) → sum_final s st.reservations keys ≤ sum_max s st keys
unfolding sum_final sum_max
sum_final-le-sum_max s st [] = omega arith
sum_final-le-sum_max s st (c ∷ keys) = let ih = sum_final-le-sum_max s st keys in omega (arith, ih)

-- All charges of a session are at most its consumed and held attempts, whatever the candidates say.
pub charged-le-committed :
    (s : ℕ) (st : Store)
    → charged_attempts s st.reservations
      ≤ consumed_attempts s st + reserved_attempts s st.reservations
unfolding consumed_attempts
charged-le-committed s st =
    let keys = finalized_keys s st.reservations (actual_keys s st.candidates) in
    let split = charged_attempts_split s st.reservations in
    let covered =
      final_attempts-le-sum_final s st.reservations keys
        (finalized_keys-IsCovered s st.reservations _) in
    let larger = sum_final-le-sum_max s st keys in omega (arith, split, covered, larger)
