-- ===== src/Tuning/Logs.antt =====
-- Idempotency keys and events of src/azure_sql_mcp/performance_store.py: what is bound stays bound.
use azure_sql_mcp.Shared.{
  ℕ, ◌≡◌, refl, ap, ◌∙◌, subst, Bool, true, false, Option, none, some, List, [], ◌∷◌, ◌++◌, ◌==◌,
  arith, length, ltb,
}
use azure_sql_mcp.Shared.Raising.{OkOf, OkOf-bind, OkOf-require, OkOf-or_raise, OkOf-weaken}
use azure_sql_mcp.Tuning.{
  session_create, Session, Candidate, Scope, session_save, tuning_transition, candidate_attach,
  Half, whole, candidate_half, session_half, same_scope, same_half, Event, Binding, Store, Result,
  raised, returned, ◌>>=◌, session_key, candidate_key,
}
use azure_sql_mcp.Tuning.Save.{
  get_session, get_candidate, save_locked, save_session_locked, save_candidate_locked, append_event,
  record_idempotency, idempotent_aggregate, find_event, find_binding, list_candidates, append_over,
  old_event, bind_new, bound_to, session_version, candidate_version,
}
use azure_sql_mcp.Tuning.Create.{create_session, finish_create}
use azure_sql_mcp.Tuning.Transactions.{
  event, Request, Commit, save, save_both, attach, commit, save_session, save_session_and_candidate,
  create_candidate_and_attach, replay_transition, finish_save, finish_both, finish_attach,
}

-- Whatever is found in the logs of a store is found in those of a later one.
pub record Grows (st st' : Store) : Type 0 where
  pub binding :
      (sc : Scope) (k : ℕ) (b : Binding)
      → find_binding sc k st.bindings ≡ some b
      → find_binding sc k st'.bindings ≡ some b
  pub event :
      (sc : Scope) (h : Half) (k : ℕ) (e : Event)
      → find_event sc h k st.events ≡ some e
      → find_event sc h k st'.events ≡ some e

pub same-Grows :
    (st st' : Store) → st'.bindings ≡ st.bindings → st'.events ≡ st.events → Grows st st'
same-Grows st st' bindings events = record {
  binding = λ sc k b at. ap (find_binding sc k) bindings ∙ at;
  event = λ sc h k e at. ap (find_event sc h k) events ∙ at;
}

pub trans-Grows : {a b c : Store} → Grows a b → Grows b c → Grows a c
trans-Grows h k = record {
  binding = λ sc i b at. k.binding sc i b (h.binding sc i b at);
  event = λ sc half i e at. k.event sc half i e (h.event sc half i e at);
}

pub same_scope_refl : (sc : Scope) → same_scope sc sc ≡ true
same_scope_refl session_create = refl
same_scope_refl session_save = refl
same_scope_refl tuning_transition = refl
same_scope_refl candidate_attach = refl

pub same_half_refl : (h : Half) → same_half h h ≡ true
same_half_refl whole = refl
same_half_refl candidate_half = refl
same_half_refl session_half = refl

pub find_binding-append :
    (sc : Scope) (k : ℕ) (x : Binding) (bs : List Binding)
    → find_binding sc k (bs ++ x ∷ [])
      ≡ elim (find_binding sc k bs) [ none ↦ find_binding sc k (x ∷ []) | some b ↦ some b ]
unfolding find_binding
find_binding-append sc k x [] = refl
find_binding-append sc k x (b ∷ bs) = ground (arith, find_binding-append sc k x bs)

pub find_event-append :
    (sc : Scope) (h : Half) (k : ℕ) (x : Event) (es : List Event)
    → find_event sc h k (es ++ x ∷ [])
      ≡ elim (find_event sc h k es) [ none ↦ find_event sc h k (x ∷ []) | some e ↦ some e ]
unfolding find_event
find_event-append sc h k x [] = refl
find_event-append sc h k x (e ∷ es) = ground (arith, find_event-append sc h k x es)

pub append_event-Grows : (e : Event) (st : Store) → OkOf (Grows st) (append_event e st)
unfolding append_event
append_event-Grows e st = go (old_event e e.idempotency_key st.events)
  where
    go : (x : Option Event) → OkOf (Grows st) (append_over e x st)
    go none = record {
      binding = λ sc k b at. at;
      event = λ sc h k old at. rw (find_event-append sc h k e st.events, at) refl;
    }
    go (some old) = OkOf-require (Grows st) (old.aggregate_id == e.aggregate_id) _ _ (λ same.
        OkOf-require (Grows st) (old.request_fingerprint == e.request_fingerprint) _ _
          (λ fp. same-Grows st st refl refl))

bind_new-append :
    (b : Binding) (o : Option Binding) (bs : List Binding)
    → OkOf
        (λ bs'.
          (sc : Scope) (k : ℕ) (x : Binding)
          → find_binding sc k bs ≡ some x
          → find_binding sc k bs' ≡ some x)
        (bind_new b o bs)
bind_new-append b none bs = λ sc k x at. rw (find_binding-append sc k b bs, at) refl
bind_new-append b (some old) bs =
    OkOf-bind
      (λ bs'.
        (sc : Scope) (k : ℕ) (x : Binding)
        → find_binding sc k bs ≡ some x
        → find_binding sc k bs' ≡ some x)
      (bound_to (some b.aggregate_id) b.request_fingerprint (some old)) _ (λ u e sc k x at. at)

pub record_idempotency-Grows :
    (sc : Scope) (k : Option ℕ) (id fp : ℕ) (st : Store)
    → OkOf (Grows st) (record_idempotency sc k id fp st)
unfolding record_idempotency
record_idempotency-Grows sc none id fp st = same-Grows st st refl refl
record_idempotency-Grows sc (some k) id fp st =
    let new : Binding = record {
      scope = sc;
      idempotency_key = k;
      aggregate_id = id;
      request_fingerprint = fp;
    } in
    OkOf-bind (Grows st) (bind_new new (find_binding sc k st.bindings) st.bindings) _ (λ bs e.
      record {
        binding =
            subst
              (OkOf (λ bs'.
                (sc : Scope) (k : ℕ) (x : Binding)
                → find_binding sc k st.bindings ≡ some x
                → find_binding sc k bs' ≡ some x))
              e (bind_new-append new (find_binding sc k st.bindings) st.bindings);
        event = λ sc h k old at. at;
      })

save_session_locked-Grows :
    (s : Session) (expected : Option ℕ) (st : Store)
    → OkOf (Grows st) (save_session_locked s expected st)
unfolding save_session_locked
save_session_locked-Grows s expected st =
    OkOf-bind (Grows st) (save_locked session_key session_version s false expected st.sessions) _
      (λ rows e. same-Grows st _ refl refl)

save_candidate_locked-Grows :
    (c : Candidate) (only : Bool) (expected : Option ℕ) (st : Store)
    → OkOf (Grows st) (save_candidate_locked c only expected st)
unfolding save_candidate_locked
save_candidate_locked-Grows c only expected st =
    OkOf-bind (Grows st) (save_locked candidate_key candidate_version c only expected st.candidates)
      _ (λ rows e. same-Grows st _ refl refl)

-- One more step of a transaction.
then-Grows :
    (st : Store) (m : Result Store) (f : Store → Result Store)
    → OkOf (Grows st) m
    → ((middle : Store) → OkOf (Grows middle) (f middle))
    → OkOf (Grows st) (m >>= f)
then-Grows st (raised e) f h k = tt
then-Grows st (returned middle) f h k =
    OkOf-weaken (λ st' two. trans-Grows h two) (f middle) (k middle)

finish_save-Grows :
    (s : Session) (e : ℕ) (q : Request) (st : Store) (bound : Option ℕ)
    → OkOf (Grows st) (finish_save s e q st bound)
finish_save-Grows s e q st (some id) =
    OkOf-or_raise (Grows st) (get_session id st) _ _ (λ found at. same-Grows st st refl refl)
finish_save-Grows s e q st none = then-Grows st _ _ (save_session_locked-Grows s (some e) st) (λ x.
    then-Grows x _ _ (append_event-Grows _ x) (λ y.
      record_idempotency-Grows session_save q.idempotency_key s.session_id q.request_fingerprint y))

pub two_logs-Grows :
    (e f : Event) (sc : Scope) (k : Option ℕ) (id fp : ℕ) (st : Store)
    → OkOf (Grows st) (
        append_event e st >>= λ third.
        append_event f third >>= λ fourth. record_idempotency sc k id fp fourth)
two_logs-Grows e f sc k id fp st =
    then-Grows st _ _ (append_event-Grows e st)
      (λ x. then-Grows x _ _ (append_event-Grows f x) (λ y. record_idempotency-Grows sc k id fp y))

finish_both-Grows :
    (s : Session) (c : Candidate) (e ec : ℕ) (q : Request) (st : Store) (replayed : Bool)
    → OkOf (Grows st) (finish_both s c e ec q st replayed)
finish_both-Grows s c e ec q st true = same-Grows st st refl refl
finish_both-Grows s c e ec q st false =
    then-Grows st _ _ (save_candidate_locked-Grows c false (some ec) st) (λ x.
      then-Grows x _ _ (save_session_locked-Grows s (some e) x) (λ y.
        two_logs-Grows _ _ tuning_transition q.idempotency_key s.session_id q.request_fingerprint
          y))

finish_attach-Grows :
    (sid : ℕ) (c : Candidate) (e : ℕ) (q : Request) (st : Store) (bound : Option ℕ)
    → OkOf (Grows st) (finish_attach sid c e q st bound)
finish_attach-Grows sid c e q st (some id) =
    OkOf-or_raise (Grows st) (get_candidate id st) _ _ (λ found at. same-Grows st st refl refl)
finish_attach-Grows sid c e q st none =
    OkOf-or_raise (Grows st) (get_session sid st) _ _ (λ current at.
      OkOf-require (Grows st) (current.version == e) _ _ (λ ver.
        OkOf-require (Grows st) (ltb (length (list_candidates sid st)) current.max_candidates) _ _
          (λ room.
            then-Grows st _ _
              (OkOf-weaken {Q = Grows st} (λ st' k. record { binding = k.binding; event = k.event })
                _ (save_candidate_locked-Grows _ true none _))
              (λ x. then-Grows x _ _ (save_session_locked-Grows _ _ x) (λ y.
                two_logs-Grows _ _ candidate_attach q.idempotency_key c.candidate_id
                  q.request_fingerprint y)))))

finish_create-Grows :
    (s : Session) (q : Request) (st : Store) (bound : Option ℕ)
    → OkOf (Grows st) (finish_create s q st bound)
finish_create-Grows s q st (some id) =
    OkOf-or_raise (Grows st) (get_session id st) _ _ (λ found at. same-Grows st st refl refl)
finish_create-Grows s q st none =
    OkOf-bind (Grows st) (save_locked session_key session_version s true none st.sessions) _
      (λ rows done.
        OkOf-weaken {Q = Grows st} (λ st' k. record { binding = k.binding; event = k.event }) _
          (then-Grows (record st { sessions = rows }) _ _
            (append_event-Grows (event session_create whole s.session_id q)
              (record st { sessions = rows }))
            (λ x.
              record_idempotency-Grows session_create q.idempotency_key s.session_id
                q.request_fingerprint x)))

pub create_session-Grows :
    (s : Session) (q : Request) (st : Store) → OkOf (Grows st) (create_session s q st)
unfolding create_session
create_session-Grows s q st =
    OkOf-bind (Grows st)
      (idempotent_aggregate session_create q.idempotency_key none q.request_fingerprint st.bindings)
      _ (λ bound done. finish_create-Grows s q st bound)

-- A transaction takes nothing out of the logs.
pub commit-Grows : (cm : Commit) (q : Request) (st : Store) → OkOf (Grows st) (commit cm q st)
unfolding commit save_session save_session_and_candidate create_candidate_and_attach
commit-Grows (save s e) q st =
    OkOf-bind (Grows st)
      (idempotent_aggregate session_save q.idempotency_key (some s.session_id) q.request_fingerprint
        st.bindings)
      _ (λ bound done. finish_save-Grows s e q st bound)
commit-Grows (save_both s c e ec) q st =
    OkOf-require (Grows st) (c.session_id == s.session_id) _ _ (λ own.
      OkOf-bind (Grows st) (replay_transition s.session_id c.candidate_id q st) _
        (λ replayed done. finish_both-Grows s c e ec q st replayed))
commit-Grows (attach sid c e) q st = OkOf-require (Grows st) (c.session_id == sid) _ _ (λ own.
    OkOf-bind (Grows st)
      (idempotent_aggregate candidate_attach q.idempotency_key none q.request_fingerprint
        st.bindings)
      _ (λ bound done. finish_attach-Grows sid c e q st bound))
