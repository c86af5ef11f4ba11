-- ===== src/Budget/Ledger.antt =====
-- What the reservations of a session charge to its budget, and what changes it.
use azure_sql_mcp.Shared.{
  ℕ, ◌+◌, ◌≤◌, ◌&&◌, some, List, [], ◌∷◌, ◌++◌, arith, ◌≡◌, refl, ◌==◌, if◌then◌else◌,
}
use azure_sql_mcp.Budget.{
  Reservation, is_final, charge, expire, find_reservation, reserved_attempts,
}
use azure_sql_mcp.Budget.Update.{Outcome, finish, put_reservation}

-- What all reservations of a session charge.
unfoldable pub charged_attempts : ℕ → List Reservation → ℕ
charged_attempts s [] = 0
charged_attempts s (r ∷ rs) = (if r.session_id == s then charge r else 0) + charged_attempts s rs

-- The same over the final ones.
unfoldable pub final_attempts : ℕ → List Reservation → ℕ
final_attempts s [] = 0
final_attempts s (r ∷ rs) =
    (if r.session_id == s && is_final r.status then charge r else 0) + final_attempts s rs

pub charged_attempts-expire :
    (s now : ℕ) (rs : List Reservation) → charged_attempts s (expire now rs) ≡ charged_attempts s rs
unfolding charged_attempts expire
charged_attempts-expire s now [] = refl
charged_attempts-expire s now (r ∷ rs) =
    let ih = charged_attempts-expire s now rs in ground (arith, ih)

pub charged_attempts-append :
    (s : ℕ) (rs : List Reservation) (r : Reservation)
    → charged_attempts s (rs ++ r ∷ [])
      ≡ charged_attempts s rs + (if r.session_id == s then charge r else 0)
unfolding charged_attempts
charged_attempts-append s [] r = omega arith
charged_attempts-append s (x ∷ rs) r = let ih = charged_attempts-append s rs r in omega (arith, ih)

-- Held and final charges make up all.
pub charged_attempts_split :
    (s : ℕ) (rs : List Reservation)
    → charged_attempts s rs ≡ reserved_attempts s rs + final_attempts s rs
unfolding charged_attempts reserved_attempts final_attempts
charged_attempts_split s [] = refl
charged_attempts_split s (r ∷ rs) = let ih = charged_attempts_split s rs in ground (arith, ih)

-- A row that is put in place of the one with its identifier, and charges no more, adds nothing.
pub charged_attempts-put_reservation :
    (s : ℕ) (r' r : Reservation) (rs : List Reservation)
    → find_reservation r'.reservation_id rs ≡ some r
    → r'.session_id ≡ r.session_id
    → charge r' ≤ charge r
    → charged_attempts s (put_reservation r' rs) ≤ charged_attempts s rs
unfolding charged_attempts find_reservation put_reservation
charged_attempts-put_reservation s r' r [] e same le = omega arith
charged_attempts-put_reservation s r' r (x ∷ rs) e same le =
    let ih = charged_attempts-put_reservation s r' r rs in ground (arith, ih)

-- The final row of a reservation charges no more than its open one.
pub charge-finish :
    (out : Outcome) (count : ℕ) (r : Reservation)
    → count ≤ r.attempt_count
    → charge (finish r.status out count r) ≤ charge r
unfolding finish
charge-finish out count r le = ground arith
