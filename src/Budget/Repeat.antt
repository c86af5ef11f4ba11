-- ===== src/Budget/Repeat.antt =====
-- A request to `reserve_execution_attempts`, of src/azure_sql_mcp/performance_store.py, that is made
-- again.
use azure_sql_mcp.Shared.{
  ℕ, Bool, true, ◌&&◌, Option, none, some, List, ◌==◌, arith, ◌≡◌, refl, ap, ◌∙◌, subst,
}
use azure_sql_mcp.Budget.{
  Reservation, Store, Result, returned, raised, ◌>>=◌, ◌>>◌, require, or_raise, expire,
  find_request, owns, missing_reservation, idempotency_conflict, fencing,
}
use azure_sql_mcp.Budget.Reserve.{
  Request, Reply, reserve_execution_attempts, reserve_in, replay, found_request, bound_request,
  is_bound, get_binding,
}
use azure_sql_mcp.Shared.Raising.{OkOf}
use azure_sql_mcp.Budget.Replay.{
  is_answer, is_key_bound, says_bound, find_request-expire, IsAnswered, IsValid, reserve-IsAnswered,
}

-- `P` of what is returned, and something is.
abbrev pub Returns {ℓ} : {A : Type ℓ} → (A → Type 0) → Result A → Type 0
Returns P (returned a) = P a
Returns P (raised e) = ⊥

-- The reply to a request made again: the row that is there, and no new one.
abbrev pub Repeats : Request → List Reservation → ℕ → Reply → Type 0
Repeats q rs id again =
    (again.replayed ≡ true)
    × (again.store.reservations ≡ rs)
    × (is_answer q id (some again.reservation) ≡ true)

says_bound-returned : (m : Result Bool) → says_bound m ≡ true → m ≡ returned true
says_bound-returned (raised cause) h = cc
says_bound-returned (returned b) h = ap returned h

found_request-Repeats :
    (q : Request) (id now : ℕ) (st : Store) (x : Option Reservation)
    → q.idempotency_key ≡ none
    → is_answer q id x ≡ true
    → Returns (Repeats q st.reservations id) (found_request q now st x)
unfolding replay
found_request-Repeats q id now st none nokey h = cc
found_request-Repeats q id now st (some r) nokey h =
    let same : r.candidate_id == q.candidate_id && r.attempt_count == q.attempt_count ≡ true =
      ground (arith, h) in
    let owner : owns r.owner_token q.owner_reference ≡ true = ground (arith, h) in
    rw (same, owner, nokey) (refl, refl, h)

-- The part of `bound_request` behind the lookup.
bound_row-Repeats :
    (q : Request) (id : ℕ) (st : Store) (x : Option Reservation)
    → is_answer q id x ≡ true
    → Returns (Repeats q st.reservations id) (do
      r ← or_raise x missing_reservation
      require (r.candidate_id == q.candidate_id) missing_reservation
      require (r.attempt_count == q.attempt_count) idempotency_conflict
      require (owns r.owner_token q.owner_reference) fencing
      returned (record { store = st; reservation = r; replayed = true }))
bound_row-Repeats q id st none h = cc
bound_row-Repeats q id st (some r) h =
    let own : r.candidate_id == q.candidate_id ≡ true = ground (arith, h) in
    let same : r.attempt_count == q.attempt_count ≡ true = ground (arith, h) in
    let owner : owns r.owner_token q.owner_reference ≡ true = ground (arith, h) in
    rw (own, same, owner) (refl, refl, h)

bound_request-Repeats :
    (q : Request) (id now : ℕ) (st : Store)
    → is_answer q id (find_request q.session_id q.request_fingerprint st.reservations) ≡ true
    → Returns (Repeats q st.reservations id) (bound_request q now st true)
bound_request-Repeats q id now st h =
    bound_row-Repeats q id st (find_request q.session_id q.request_fingerprint st.reservations) h

reserve_in-Repeats :
    (q : Request) (id now : ℕ) (st : Store) (k : Option ℕ)
    → q.idempotency_key ≡ k
    → is_key_bound q k st.bindings ≡ true
    → is_answer q id (find_request q.session_id q.request_fingerprint st.reservations) ≡ true
    → Returns (Repeats q st.reservations id) (reserve_in q now st k)
unfolding reserve_in
reserve_in-Repeats q id now st none e bound h = found_request-Repeats q id now st _ e h
reserve_in-Repeats q id now st (some k) e bound h =
    rw (says_bound-returned (is_bound q (get_binding k st.bindings)) bound)
      (bound_request-Repeats q id now st h)

-- When a reservation is made or replayed, the same request, made again at any time on the store that
-- is left, returns too, as a replay: it is answered by a row with the identifier, candidate, number of
-- attempts and owner of the first, and changes no row but for the expiry.
pub reserve-Repeats :
    (q : Request) (now later : ℕ) (st : Store) (reply : Reply)
    → reserve_execution_attempts q now st ≡ returned reply
    → Returns
        (Repeats q (expire later reply.store.reservations) reply.reservation.reservation_id)
        (reserve_execution_attempts q later reply.store)
unfolding reserve_execution_attempts
reserve-Repeats q now later st reply done =
    let (valid, answered) =
      subst (OkOf (λ (r : Reply). IsValid q × IsAnswered q r)) done (reserve-IsAnswered q now st) in
    let id = reply.reservation.reservation_id in
    let later_store = record reply.store { reservations = expire later reply.store.reservations } in
    let row =
      find_request-expire q id q.session_id q.request_fingerprint later reply.store.reservations
      ∙ answered.row in
    rw (valid.many, valid.owner, valid.runtime)
      (reserve_in-Repeats q id later later_store q.idempotency_key refl answered.key row)
