-- ===== src/Budget/Limit.antt =====
-- Reserving, reporting and reading the usage keep every session of
-- src/azure_sql_mcp/performance_store.py within its limit.
use azure_sql_mcp.Shared.{
  ℕ, suc, ◌+◌, ◌≤◌, Bool, true, false, ◌&&◌, not, Option, none, some, List, [], ◌∷◌, ◌++◌, leb, ltb,
  arith, ◌≡◌, ap, ◌∙◌, subst, ◌==◌,
}
use azure_sql_mcp.Budget.{
  Reservation, Candidate, Store, Session, charge, expire, find_reservation, reserved_attempts,
  consumed_attempts, get_session, get_candidate, owns, Binding, find_request, has_reserved,
}
use azure_sql_mcp.Budget.Reserve.{
  Request, Reply, Usage, reserve_execution_attempts, reserve_in, reserve_new, replay, found_request,
  bound_request, new_reservation, execution_budget_usage, with_key, is_given, is_positive, is_bound,
  get_binding,
}
use azure_sql_mcp.Budget.Update.{
  Outcome, Report, finish, put_reservation, is_open, close_reservation,
  resolve_dispatched_attempt_count, update_execution_reservation, expects,
}
use azure_sql_mcp.Budget.Ledger.{
  charged_attempts, charged_attempts-expire, charged_attempts-append,
  charged_attempts-put_reservation, charge-finish,
}
use azure_sql_mcp.Budget.Bound.{charged-le-committed}
use azure_sql_mcp.Shared.Raising.{OkOf, OkOf-bind, OkOf-require, OkOf-or_raise, OkOf-if}

-- No session has charged more than its limit.
unfoldable pub IsWithin : Store → Type 0
IsWithin st =
    (s : ℕ) (x : Session)
    → get_session s st.sessions ≡ some x
    → charged_attempts s st.reservations ≤ x.execution_limit

abbrev IsWithinReply : Reply → Type 0
IsWithinReply reply = IsWithin reply.store

expire-IsWithin :
    (now : ℕ) (st : Store)
    → IsWithin st
    → IsWithin (record st { reservations = expire now st.reservations })
unfolding IsWithin
expire-IsWithin now st h s x e =
    let same = charged_attempts-expire s now st.reservations in
    let le = h s x e in omega (arith, same, le)

pub candidates-IsWithin :
    (cs : List Candidate) (st : Store) → IsWithin st → IsWithin (record st { candidates = cs })
unfolding IsWithin
candidates-IsWithin cs st h = h

append-IsWithin :
    (q : Request) (now : ℕ) (st : Store) (session : Session) (bs : List Binding)
    → get_session q.session_id st.sessions ≡ some session
    → consumed_attempts q.session_id st
        + reserved_attempts q.session_id st.reservations
        + q.attempt_count
      ≤ session.execution_limit
    → IsWithin st
    → IsWithin (record st {
      reservations = st.reservations ++ new_reservation q now st ∷ [];
      bindings = bs;
      next_id = suc st.next_id;
    })
unfolding IsWithin new_reservation
append-IsWithin q now st session bs at le h s x e =
    let added = charged_attempts-append s st.reservations (new_reservation q now st) in
    let old = h s x e in let all = charged-le-committed q.session_id st in ground arith

reserve_new-IsWithin :
    (q : Request) (now : ℕ) (st : Store) → IsWithin st → OkOf IsWithinReply (reserve_new q now st)
unfolding reserve_new
reserve_new-IsWithin q now st h =
    OkOf-or_raise IsWithinReply (get_session q.session_id st.sessions) _ _ (λ session at.
      OkOf-or_raise IsWithinReply (get_candidate q.candidate_id st.candidates) _ _
        (λ candidate known.
          OkOf-require IsWithinReply (candidate.session_id == q.session_id) _ _ (λ own.
            OkOf-require IsWithinReply
              (leb
                (consumed_attempts q.session_id st
                  + reserved_attempts q.session_id st.reservations
                  + q.attempt_count)
                session.execution_limit)
              _ _
              (λ fits.
                OkOf-bind IsWithinReply (with_key q q.idempotency_key st.bindings) _ (λ bs kept.
                  OkOf-require IsWithinReply (not (has_reserved q.candidate_id st.reservations)) _ _
                    (λ single. append-IsWithin q now st session bs at (ground arith) h))))))

replay-IsWithin :
    (q : Request) (st : Store) (r : Reservation) → IsWithin st → OkOf IsWithinReply (replay q st r)
unfolding replay
replay-IsWithin q st r h =
    OkOf-require IsWithinReply
      (r.candidate_id == q.candidate_id && r.attempt_count == q.attempt_count) _ _
      (λ same. OkOf-require IsWithinReply (owns r.owner_token q.owner_reference) _ _ (λ owner. h))

found_request-IsWithin :
    (q : Request) (now : ℕ) (st : Store) (x : Option Reservation)
    → IsWithin st
    → OkOf IsWithinReply (found_request q now st x)
unfolding IsWithin
found_request-IsWithin q now st none h = reserve_new-IsWithin q now st h
found_request-IsWithin q now st (some r) h =
    OkOf-bind IsWithinReply (replay q st r) _ (λ reply e.
      OkOf-bind IsWithinReply (with_key q q.idempotency_key st.bindings) _ (λ bs kept. h))

bound_request-IsWithin :
    (q : Request) (now : ℕ) (st : Store) (b : Bool)
    → IsWithin st
    → OkOf IsWithinReply (bound_request q now st b)
bound_request-IsWithin q now st true h =
    OkOf-or_raise IsWithinReply (find_request q.session_id q.request_fingerprint st.reservations) _
      _
      (λ r found. OkOf-require IsWithinReply (r.candidate_id == q.candidate_id) _ _ (λ own.
        OkOf-require IsWithinReply (r.attempt_count == q.attempt_count) _ _ (λ same.
          OkOf-require IsWithinReply (owns r.owner_token q.owner_reference) _ _ (λ owner. h))))
bound_request-IsWithin q now st false h = OkOf-require IsWithinReply _ _ _ (λ alone.
    found_request-IsWithin q now st
      (find_request q.session_id q.request_fingerprint st.reservations) h)

reserve_in-IsWithin :
    (q : Request) (now : ℕ) (st : Store) (k : Option ℕ)
    → IsWithin st
    → OkOf IsWithinReply (reserve_in q now st k)
unfolding reserve_in
reserve_in-IsWithin q now st none h = found_request-IsWithin q now st _ h
reserve_in-IsWithin q now st (some k) h =
    OkOf-bind IsWithinReply (is_bound q (get_binding k st.bindings)) _
      (λ b e. bound_request-IsWithin q now st b h)

pub reserve_execution_attempts-IsWithin :
    (q : Request) (now : ℕ) (st : Store)
    → IsWithin st
    → OkOf IsWithinReply (reserve_execution_attempts q now st)
unfolding reserve_execution_attempts
reserve_execution_attempts-IsWithin q now st h =
    OkOf-require IsWithinReply (ltb 0 q.attempt_count) _ _ (λ some_attempts.
      OkOf-require IsWithinReply (is_given q.owner_reference) _ _ (λ owner.
        OkOf-require IsWithinReply (is_positive q.max_runtime_seconds) _ _ (λ runtime.
          reserve_in-IsWithin q now (record st { reservations = expire now st.reservations })
            q.idempotency_key (expire-IsWithin now st h))))

-- The count that is charged is at most the count that was asked for.
pub resolve-le-attempt_count :
    (row : Reservation) (dispatched : Option ℕ) (st : Store)
    → OkOf (λ count. count ≤ row.attempt_count) (resolve_dispatched_attempt_count row dispatched st)
unfolding resolve_dispatched_attempt_count
resolve-le-attempt_count row (some count) st =
    OkOf-require (λ count. count ≤ row.attempt_count) (leb count row.attempt_count) _ _
      (λ fits. ground arith)
resolve-le-attempt_count row none st =
    OkOf-or_raise (λ count. count ≤ row.attempt_count)
      (get_candidate row.candidate_id st.candidates) _ _ (λ candidate known. ground arith)

abbrev IsWithinRow : Store × Reservation → Type 0
IsWithinRow (st, row) = IsWithin st

pub finish-ids :
    (out : Outcome) (count : ℕ) (r : Reservation)
    → ((finish r.status out count r).reservation_id ≡ r.reservation_id)
      × ((finish r.status out count r).session_id ≡ r.session_id)
unfolding finish
finish-ids out count r = ground arith

pub find_reservation-id :
    (i : ℕ) (rs : List Reservation) (r : Reservation)
    → find_reservation i rs ≡ some r
    → r.reservation_id ≡ i
unfolding find_reservation
find_reservation-id i [] r e = ground arith
find_reservation-id i (x ∷ rs) r e = let ih = find_reservation-id i rs r in ground (arith, ih)

put-IsWithin :
    (st : Store) (i : ℕ) (row row' : Reservation)
    → find_reservation i st.reservations ≡ some row
    → row'.reservation_id ≡ row.reservation_id
    → row'.session_id ≡ row.session_id
    → charge row' ≤ charge row
    → IsWithin st
    → IsWithin (record st { reservations = put_reservation row' st.reservations })
unfolding IsWithin
put-IsWithin st i row row' found id same le h s x e =
    let at : find_reservation row'.reservation_id st.reservations ≡ some row =
      ap (λ j. find_reservation j st.reservations)
        (id ∙ find_reservation-id i st.reservations row found)
      ∙ found in
    let less = charged_attempts-put_reservation s row' row st.reservations at same le in
    let old = h s x e in omega (arith, less, old)

close_reservation-IsWithin :
    (out : Outcome) (dispatched : Option ℕ) (row : Reservation) (i : ℕ) (st : Store)
    → find_reservation i st.reservations ≡ some row
    → IsWithin st
    → OkOf IsWithinRow (close_reservation out dispatched row st)
unfolding close_reservation
close_reservation-IsWithin out dispatched row i st found h =
    OkOf-if IsWithinRow (is_open row.status) _ _
      (OkOf-bind IsWithinRow (resolve_dispatched_attempt_count row dispatched st) _ (λ count e.
        let le =
          subst (OkOf (λ n. n ≤ row.attempt_count)) e
            (resolve-le-attempt_count row dispatched st) in
        let ids = finish-ids out count row in
        put-IsWithin st i row (finish row.status out count row) found ids.0 ids.1
          (charge-finish out count row le) h))
      h

pub update_execution_reservation-IsWithin :
    (p : Report) (now : ℕ) (st : Store)
    → IsWithin st
    → OkOf IsWithinRow (update_execution_reservation p now st)
unfolding update_execution_reservation
update_execution_reservation-IsWithin p now st h =
    OkOf-or_raise IsWithinRow (find_reservation p.reservation_id (expire now st.reservations)) _ _
      (λ row found. OkOf-require IsWithinRow (owns row.owner_token p.owner_reference) _ _ (λ owner.
        OkOf-require IsWithinRow (expects p.expected_version row.version) _ _ (λ version.
          close_reservation-IsWithin p.outcome p.dispatched_attempt_count row p.reservation_id
            (record st { reservations = expire now st.reservations }) found
            (expire-IsWithin now st h))))

pub execution_budget_usage-IsWithin :
    (s now : ℕ) (st : Store)
    → IsWithin st
    → OkOf (λ (x : Store × Usage). IsWithin x.0) (execution_budget_usage s now st)
unfolding execution_budget_usage
execution_budget_usage-IsWithin s now st h =
    OkOf-or_raise (λ (x : Store × Usage). IsWithin x.0) (get_session s st.sessions) _ _
      (λ session e. expire-IsWithin now st h)
