-- ===== src/Budget/Replay.antt =====
-- Requests to `reserve_execution_attempts`, of src/azure_sql_mcp/performance_store.py, made twice.
use azure_sql_mcp.Shared.{
  ℕ, ◌+◌, Bool, true, false, ◌&&◌, Option, none, some, List, [], ◌∷◌, ◌++◌, leb, ltb, ◌==◌, arith,
  ◌≡◌, refl, ap, ◌∙◌, subst, if◌then◌else◌, not,
}
use azure_sql_mcp.Budget.{
  Reservation, Binding, Store, Result, returned, raised, expire, find_request, get_session,
  get_candidate, owns, reserved_attempts, consumed_attempts, has_reserved,
}
use azure_sql_mcp.Budget.Reserve.{
  Request, Reply, reserve_execution_attempts, reserve_in, reserve_new, replay, found_request,
  bound_request, new_reservation, with_key, is_given, is_positive, is_bound, get_binding,
  record_binding, is_bound_elsewhere, same_fingerprint,
}
use azure_sql_mcp.Shared.Raising.{OkOf-weaken, OkOf, OkOf-bind, OkOf-require, OkOf-or_raise}

-- Whether a row answers a request, under an identifier.
abbrev pub is_answer : Request → ℕ → Option Reservation → Bool
is_answer q id none = false
is_answer q id (some r) =
    r.reservation_id == id
    && (r.candidate_id == q.candidate_id
        && (r.attempt_count == q.attempt_count && owns r.owner_token q.owner_reference))

pub find_request-expire :
    (q : Request) (id s f now : ℕ) (rs : List Reservation)
    → is_answer q id (find_request s f (expire now rs)) ≡ is_answer q id (find_request s f rs)
unfolding find_request expire
find_request-expire q id s f now [] = refl
find_request-expire q id s f now (r ∷ rs) =
    let ih = find_request-expire q id s f now rs in ground (arith, ih)

find_request-append :
    (s f : ℕ) (r : Reservation) (rs : List Reservation)
    → find_request s f rs ≡ none
    → find_request s f (rs ++ r ∷ [])
      ≡ (if r.session_id == s && r.request_fingerprint == f then some r else none)
unfolding find_request
find_request-append s f r [] e = refl
find_request-append s f r (x ∷ rs) e = let ih = find_request-append s f r rs in ground (arith, ih)

get_binding-append :
    (k : ℕ) (b : Binding) (bs : List Binding)
    → get_binding k bs ≡ none
    → get_binding k (bs ++ b ∷ []) ≡ (if b.idempotency_key == k then some b else none)
unfolding get_binding
get_binding-append k b [] e = refl
get_binding-append k b (x ∷ bs) e = let ih = get_binding-append k b bs in ground (arith, ih)

-- Whether the request's key, if it has one, is bound to it.
abbrev pub says_bound : Result Bool → Bool
says_bound (raised cause) = false
says_bound (returned b) = b

abbrev pub is_key_bound : Request → Option ℕ → List Binding → Bool
is_key_bound q none bs = true
is_key_bound q (some k) bs = says_bound (is_bound q (get_binding k bs))

own_binding : Request → ℕ → Binding
own_binding q k = record {
  idempotency_key = k;
  aggregate_id = q.candidate_id;
  request_fingerprint = some q.request_fingerprint;
}

own_binding-is_bound :
    (q : Request) (k : ℕ)
    → says_bound (is_bound q (if k == k then some (own_binding q k) else none)) ≡ true
unfolding is_bound own_binding
own_binding-is_bound q k = ground arith

is_bound-some : (q : Request) (b : Binding) → OkOf (λ x. x ≡ true) (is_bound q (some b))
unfolding is_bound
is_bound-some q b =
    OkOf-require (λ x. x ≡ true) (b.aggregate_id == q.candidate_id) _ _
      (λ same.
        OkOf-require (λ x. x ≡ true) (same_fingerprint q.request_fingerprint b.request_fingerprint)
          _ _ (λ fp. refl))

record_binding-is_key_bound :
    (q : Request) (k : ℕ) (bs : List Binding) (x : Option Binding)
    → get_binding k bs ≡ x
    → OkOf (λ bs'. is_key_bound q (some k) bs' ≡ true) (record_binding q k bs)
unfolding record_binding own_binding
record_binding-is_key_bound q k bs none e = rw e (
    ap (λ x. says_bound (is_bound q x)) (get_binding-append k (own_binding q k) bs e)
    ∙ own_binding-is_bound q k)
record_binding-is_key_bound q k bs (some b) e = rw e (
    OkOf-bind (λ bs'. is_key_bound q (some k) bs' ≡ true) (is_bound q (some b)) _
      (λ bound found.
        let yes = subst (OkOf (λ x. x ≡ true)) found (is_bound-some q b) in rw (yes, e, found) yes))

-- The store holds the answer to a request: its row, and the binding of its key.
pub record IsAnswered (q : Request) (reply : Reply) : Type 0 where
  pub row :
      is_answer q reply.reservation.reservation_id
        (find_request q.session_id q.request_fingerprint reply.store.reservations)
      ≡ true
  pub key : is_key_bound q q.idempotency_key reply.store.bindings ≡ true

with_key-is_key_bound :
    (q : Request) (k : Option ℕ) (bs : List Binding)
    → OkOf (λ bs'. is_key_bound q k bs' ≡ true) (with_key q k bs)
with_key-is_key_bound q none bs = refl
with_key-is_key_bound q (some k) bs = record_binding-is_key_bound q k bs _ refl

new_reservation-is_answer :
    (q : Request) (now : ℕ) (st : Store)
    → find_request q.session_id q.request_fingerprint st.reservations ≡ none
    → is_answer q st.next_id (
        find_request q.session_id q.request_fingerprint
          (st.reservations ++ new_reservation q now st ∷ []))
      ≡ true
unfolding new_reservation owns
new_reservation-is_answer q now st fresh =
    rw
      (find_request-append q.session_id q.request_fingerprint (new_reservation q now st)
        st.reservations fresh)
      (ground arith)

reserve_new-IsAnswered :
    (q : Request) (now : ℕ) (st : Store)
    → find_request q.session_id q.request_fingerprint st.reservations ≡ none
    → OkOf (IsAnswered q) (reserve_new q now st)
unfolding reserve_new
reserve_new-IsAnswered q now st fresh =
    OkOf-or_raise (IsAnswered q) (get_session q.session_id st.sessions) _ _ (λ session at.
      OkOf-or_raise (IsAnswered q) (get_candidate q.candidate_id st.candidates) _ _
        (λ candidate known.
          OkOf-require (IsAnswered q) (candidate.session_id == q.session_id) _ _ (λ own.
            OkOf-require (IsAnswered q)
              (leb
                (consumed_attempts q.session_id st
                  + reserved_attempts q.session_id st.reservations
                  + q.attempt_count)
                session.execution_limit)
              _ _
              (λ fits.
                OkOf-bind (IsAnswered q) (with_key q q.idempotency_key st.bindings) _ (λ bs kept.
                  OkOf-require (IsAnswered q) (not (has_reserved q.candidate_id st.reservations)) _
                    _
                    (λ single. record {
                      row = new_reservation-is_answer q now st fresh;
                      key =
                          subst (OkOf (λ bs'. is_key_bound q q.idempotency_key bs' ≡ true)) kept
                            (with_key-is_key_bound q q.idempotency_key st.bindings);
                    }))))))

replay-row :
    (q : Request) (st : Store) (r : Reservation)
    → OkOf
        (λ (reply : Reply).
          (reply.reservation ≡ r) × (is_answer q r.reservation_id (some r) ≡ true))
        (replay q st r)
unfolding replay
replay-row q st r =
    OkOf-require _ (r.candidate_id == q.candidate_id && r.attempt_count == q.attempt_count) _ _
      (λ same.
        OkOf-require _ (owns r.owner_token q.owner_reference) _ _ (λ owner. (refl, ground arith)))

found_request-IsAnswered :
    (q : Request) (now : ℕ) (st : Store) (x : Option Reservation)
    → find_request q.session_id q.request_fingerprint st.reservations ≡ x
    → OkOf (IsAnswered q) (found_request q now st x)
found_request-IsAnswered q now st none e = reserve_new-IsAnswered q now st e
found_request-IsAnswered q now st (some r) e =
    OkOf-bind (IsAnswered q) (replay q st r) _ (λ reply done.
      OkOf-bind (IsAnswered q) (with_key q q.idempotency_key st.bindings) _ (λ bs kept.
        let (same, answers) =
          subst
            (OkOf (λ (reply : Reply).
              (reply.reservation ≡ r) × (is_answer q r.reservation_id (some r) ≡ true)))
            done (replay-row q st r) in
        record {
          row = rw (e, same) answers;
          key =
              subst (OkOf (λ bs'. is_key_bound q q.idempotency_key bs' ≡ true)) kept
                (with_key-is_key_bound q q.idempotency_key st.bindings);
        }))

bound_request-IsAnswered :
    (q : Request) (now : ℕ) (st : Store) (b : Bool)
    → (b ≡ true → is_key_bound q q.idempotency_key st.bindings ≡ true)
    → OkOf (IsAnswered q) (bound_request q now st b)
bound_request-IsAnswered q now st true h =
    OkOf-or_raise (IsAnswered q) (find_request q.session_id q.request_fingerprint st.reservations) _
      _
      (λ r found. OkOf-require (IsAnswered q) (r.candidate_id == q.candidate_id) _ _ (λ own.
        OkOf-require (IsAnswered q) (r.attempt_count == q.attempt_count) _ _ (λ same.
          OkOf-require (IsAnswered q) (owns r.owner_token q.owner_reference) _ _
            (λ owner. record { row = rw found (ground arith); key = h refl }))))
bound_request-IsAnswered q now st false h =
    OkOf-require (IsAnswered q) (not (is_bound_elsewhere q st.bindings)) _ _ (λ alone.
      found_request-IsAnswered q now st
        (find_request q.session_id q.request_fingerprint st.reservations) refl)

reserve_in-IsAnswered :
    (q : Request) (now : ℕ) (st : Store) (k : Option ℕ)
    → q.idempotency_key ≡ k
    → OkOf (IsAnswered q) (reserve_in q now st k)
unfolding reserve_in
reserve_in-IsAnswered q now st none e =
    found_request-IsAnswered q now st
      (find_request q.session_id q.request_fingerprint st.reservations) refl
reserve_in-IsAnswered q now st (some k) e =
    OkOf-bind (IsAnswered q) (is_bound q (get_binding k st.bindings)) _
      (λ b found. bound_request-IsAnswered q now st b (λ yes. rw (e, found) yes))

-- What was asked for is in order.
pub record IsValid (q : Request) : Type 0 where
  pub many : ltb 0 q.attempt_count ≡ true
  pub owner : is_given q.owner_reference ≡ true
  pub runtime : is_positive q.max_runtime_seconds ≡ true

pub reserve-IsAnswered :
    (q : Request) (now : ℕ) (st : Store)
    → OkOf (λ (reply : Reply). IsValid q × IsAnswered q reply) (reserve_execution_attempts q now st)
unfolding reserve_execution_attempts
reserve-IsAnswered q now st =
    OkOf-require (λ (reply : Reply). IsValid q × IsAnswered q reply) (ltb 0 q.attempt_count) _ _
      (λ many.
        OkOf-require (λ (reply : Reply). IsValid q × IsAnswered q reply)
          (is_given q.owner_reference) _ _
          (λ owner.
            OkOf-require (λ (reply : Reply). IsValid q × IsAnswered q reply)
              (is_positive q.max_runtime_seconds) _ _
              (λ runtime.
                OkOf-weaken {Q = λ (reply : Reply). IsValid q × IsAnswered q reply}
                  (λ reply h. (record { many = many; owner = owner; runtime = runtime }, h)) _
                  (reserve_in-IsAnswered q now
                    (record st { reservations = expire now st.reservations }) q.idempotency_key
                    refl))))
