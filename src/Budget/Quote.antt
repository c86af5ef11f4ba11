-- ===== src/Budget/Quote.antt =====
-- What the calls of src/azure_sql_mcp/performance_store.py return.
use azure_sql_mcp.Shared.{
  ℕ, ◌+◌, ◌-◌, ◌<◌, Bool, true, false, ◌&&◌, not, Option, none, some, leb, ltb, arith, ◌≡◌, refl,
  ap, ◌∙◌,
}
use azure_sql_mcp.Budget.{
  expired, Reservation, Candidate, Store, Session, Result, returned, raised, charge, expire,
  find_reservation, reserved_attempts, consumed_attempts, get_session, get_candidate, owns,
  find_request, has_reserved,
}
use azure_sql_mcp.Budget.Reserve.{
  Request, Usage, reserve_execution_attempts, reserve_in, reserve_new, execution_budget_usage,
}
use azure_sql_mcp.Budget.Update.{
  Outcome, complete, release, Report, finish, close_reservation, resolve_dispatched_attempt_count,
  update_execution_reservation, expects,
}
use azure_sql_mcp.Shared.Raising.{OkOf, OkOf-bind, OkOf-require}

abbrev pub is_ok {ℓ} : {A : Type ℓ} → Result A → Bool
is_ok (returned a) = true
is_ok (raised e) = false

-- Whether so many attempts are left by the usage that is read.
abbrev pub is_left : ℕ → Result (Store × Usage) → Bool
is_left n (returned x) = leb n x.1.remaining
is_left n (raised e) = false

reserve_new-is_ok :
    (q : Request) (now : ℕ) (st : Store) (session : Session) (c : Candidate)
    → get_session q.session_id st.sessions ≡ some session
    → get_candidate q.candidate_id st.candidates ≡ some c
    → c.session_id ≡ q.session_id
    → 0 < q.attempt_count
    → q.idempotency_key ≡ none
    → is_ok (reserve_new q now st) ≡ (
        leb q.attempt_count (
          session.execution_limit
          - (consumed_attempts q.session_id st + reserved_attempts q.session_id st.reservations))
        && not (has_reserved q.candidate_id st.reservations))
unfolding reserve_new
reserve_new-is_ok q now st session c at known own many nokey =
    rw (at, known, own, nokey) (ground arith)

reserve_fresh :
    (q : Request) (now owner : ℕ) (st : Store)
    → ltb 0 q.attempt_count ≡ true
    → q.owner_reference ≡ some owner
    → q.idempotency_key ≡ none
    → q.max_runtime_seconds ≡ none
    → find_request q.session_id q.request_fingerprint (expire now st.reservations) ≡ none
    → reserve_execution_attempts q now st
      ≡ reserve_new q now (record st { reservations = expire now st.reservations })
unfolding reserve_execution_attempts reserve_in
reserve_fresh q now owner st many given nokey noruntime fresh =
    simp (many, given, nokey, noruntime, fresh)

reserve_new-is_left :
    (q : Request) (now : ℕ) (st : Store) (c : Candidate) (x : Option Session)
    → get_session q.session_id st.sessions ≡ x
    → get_candidate q.candidate_id st.candidates ≡ some c
    → c.session_id ≡ q.session_id
    → 0 < q.attempt_count
    → q.idempotency_key ≡ none
    → is_ok (reserve_new q now (record st { reservations = expire now st.reservations })) ≡ (
        is_left q.attempt_count (execution_budget_usage q.session_id now st)
        && not (has_reserved q.candidate_id (expire now st.reservations)))
unfolding reserve_new execution_budget_usage
reserve_new-is_left q now st c none at known own many nokey = simp at
reserve_new-is_left q now st c (some session) at known own many nokey =
    reserve_new-is_ok q now (record st { reservations = expire now st.reservations }) session c at
      known own many nokey
    ∙ simp at

-- For a request without a key that is not there yet, with an owner, without a run time of its own, for at
-- least one attempt, and whose candidate is one of the session, the reservation is made exactly when the
-- usage read at that moment leaves so many attempts and the candidate has no other that is still reserved
-- then; of a session that is not known neither is given.
pub reserve-is_left :
    (q : Request) (now owner : ℕ) (st : Store) (c : Candidate)
    → get_candidate q.candidate_id st.candidates ≡ some c
    → c.session_id ≡ q.session_id
    → 0 < q.attempt_count
    → q.owner_reference ≡ some owner
    → q.idempotency_key ≡ none
    → q.max_runtime_seconds ≡ none
    → find_request q.session_id q.request_fingerprint (expire now st.reservations) ≡ none
    → is_ok (reserve_execution_attempts q now st) ≡ (
        is_left q.attempt_count (execution_budget_usage q.session_id now st)
        && not (has_reserved q.candidate_id (expire now st.reservations)))
reserve-is_left q now owner st c known own many given nokey noruntime fresh =
    ap is_ok (reserve_fresh q now owner st (ground (arith, many)) given nokey noruntime fresh)
    ∙ reserve_new-is_left q now st c _ refl known own many nokey

close_reservation-expired :
    (out : Outcome) (dispatched : Option ℕ) (row : Reservation) (st : Store)
    → row.status ≡ expired
    → OkOf
        (λ (x : Store × Reservation). charge x.1 ≡ row.attempt_count)
        (close_reservation out dispatched row st)
unfolding close_reservation finish
close_reservation-expired complete dispatched row st e = rw e (
    OkOf-bind (λ (x : Store × Reservation). charge x.1 ≡ row.attempt_count)
      (resolve_dispatched_attempt_count row dispatched st) _ (λ count counted. ground arith))
close_reservation-expired release dispatched row st e = rw e (
    OkOf-bind (λ (x : Store × Reservation). charge x.1 ≡ row.attempt_count)
      (resolve_dispatched_attempt_count row dispatched st) _ (λ count counted. ground arith))

-- Once a reservation is expired, no completion and no release of it, whatever count it reports, makes
-- the row that is returned charge other than all attempts that were reserved.
pub update-expired :
    (p : Report) (now : ℕ) (st : Store) (row : Reservation)
    → find_reservation p.reservation_id (expire now st.reservations) ≡ some row
    → row.status ≡ expired
    → OkOf
        (λ (x : Store × Reservation). charge x.1 ≡ row.attempt_count)
        (update_execution_reservation p now st)
unfolding update_execution_reservation
update-expired p now st row found e = rw found (
    OkOf-require (λ (x : Store × Reservation). charge x.1 ≡ row.attempt_count)
      (owns row.owner_token p.owner_reference) _ _
      (λ owner.
        OkOf-require (λ (x : Store × Reservation). charge x.1 ≡ row.attempt_count)
          (expects p.expected_version row.version) _ _
          (λ version.
            close_reservation-expired p.outcome p.dispatched_attempt_count row
              (record st { reservations = expire now st.reservations }) e)))
