-- ===== src/Budget/Stored.antt =====
-- The row that a completion or release returns, src/azure_sql_mcp/performance_store.py.
use azure_sql_mcp.Shared.{ℕ, ◌≤◌, ◌≡◌, refl, sym, ◌∙◌, subst, Option, some, List, [], ◌∷◌, arith}
use azure_sql_mcp.Budget.{Reservation, Store, charge, expire, find_reservation, owns}
use azure_sql_mcp.Budget.Update.{
  Outcome, Report, finish, put_reservation, is_open, close_reservation,
  resolve_dispatched_attempt_count, update_execution_reservation, expects,
}
use azure_sql_mcp.Budget.Ledger.{charge-finish}
use azure_sql_mcp.Shared.Raising.{OkOf, OkOf-bind, OkOf-require, OkOf-if}
use azure_sql_mcp.Budget.Limit.{resolve-le-attempt_count, finish-ids, find_reservation-id}

-- The row that is returned is stored under the identifier, for as many attempts as the row found, and
-- charges no more than it.
pub record IsStored (i : ℕ) (row : Reservation) (out : Store × Reservation) : Type 0 where
  pub stored : find_reservation i out.0.reservations ≡ some out.1
  pub attempts : out.1.attempt_count ≡ row.attempt_count
  pub charges : charge out.1 ≤ charge row

find_reservation-put_reservation :
    (r' r : Reservation) (rs : List Reservation)
    → find_reservation r'.reservation_id rs ≡ some r
    → find_reservation r'.reservation_id (put_reservation r' rs) ≡ some r'
unfolding find_reservation put_reservation
find_reservation-put_reservation r' r [] e = cc
find_reservation-put_reservation r' r (x ∷ rs) e =
    let ih = find_reservation-put_reservation r' r rs in ground (arith, ih)

finish-attempt_count :
    (out : Outcome) (count : ℕ) (r : Reservation)
    → (finish r.status out count r).attempt_count ≡ r.attempt_count
unfolding finish
finish-attempt_count out count r = ground arith

close_reservation-IsStored :
    (out : Outcome) (dispatched : Option ℕ) (i : ℕ) (row : Reservation) (st : Store)
    → find_reservation i st.reservations ≡ some row
    → OkOf (IsStored i row) (close_reservation out dispatched row st)
unfolding close_reservation
close_reservation-IsStored out dispatched i row st found =
    OkOf-if (IsStored i row) (is_open row.status) _ _
      (OkOf-bind (IsStored i row) (resolve_dispatched_attempt_count row dispatched st) _ (λ count e.
        let le =
          subst (OkOf (λ n. n ≤ row.attempt_count)) e
            (resolve-le-attempt_count row dispatched st) in
        let row' = finish row.status out count row in
        let same : i ≡ row'.reservation_id =
          sym (find_reservation-id i st.reservations row found)
          ∙ sym (finish-ids out count row).0 in
        let stored =
          find_reservation-put_reservation row' row st.reservations
            (subst (λ j. find_reservation j st.reservations ≡ some row) same found) in
        record {
          stored =
              subst (λ j. find_reservation j (put_reservation row' st.reservations) ≡ some row')
                (sym same) stored;
          attempts = finish-attempt_count out count row;
          charges = charge-finish out count row le;
        }))
      (record { stored = found; attempts = refl; charges = omega arith })

-- When a completion or a release finds its reservation and returns a row, whatever it reports: that row
-- is the one stored under the identifier, for as many attempts as the one found, and charges no more.
pub update-IsStored :
    (p : Report) (now : ℕ) (st : Store) (row : Reservation)
    → find_reservation p.reservation_id (expire now st.reservations) ≡ some row
    → OkOf (IsStored p.reservation_id row) (update_execution_reservation p now st)
unfolding update_execution_reservation
update-IsStored p now st row found = rw found (
    OkOf-require (IsStored p.reservation_id row) (owns row.owner_token p.owner_reference) _ _
      (λ owner.
        OkOf-require (IsStored p.reservation_id row) (expects p.expected_version row.version) _ _
          (λ version.
            close_reservation-IsStored p.outcome p.dispatched_attempt_count p.reservation_id row
              (record st { reservations = expire now st.reservations }) found)))
