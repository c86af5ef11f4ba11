-- ===== src/Tuning/Replayed.antt =====
-- Repeating a keyed call of `record_candidate_result` of src/azure_sql_mcp/tuning_sessions.py.
use azure_sql_mcp.Shared.{
  ℕ, ◌≡◌, refl, ap, ◌∙◌, subst, true, Option, none, some, List, [], ◌∷◌, ◌==◌, ==_iff,
}
use azure_sql_mcp.Shared.Raising.{OkOf, OkOf-bind, OkOf-require}
use azure_sql_mcp.Tuning.{Scope, Half, Event, Binding, Store, returned, ◌>>=◌}
use azure_sql_mcp.Tuning.Save.{
  append_event, record_idempotency, find_event, find_binding, append_over, bind_new, bound_to,
}
use azure_sql_mcp.Tuning.Transactions.{event}
use azure_sql_mcp.Tuning.Logs.{
  same_scope_refl, same_half_refl, find_binding-append, find_event-append,
}

-- A key is bound to an aggregate and a fingerprint.
pub record IsBound (sc : Scope) (k id fp : ℕ) (st : Store) : Type 0 where
  pub bound : Binding
  pub found : find_binding sc k st.bindings ≡ some bound
  pub aggregate : bound.aggregate_id ≡ id
  pub fingerprint : bound.request_fingerprint ≡ fp

pub record IsLogged (sc : Scope) (h : Half) (k id fp : ℕ) (st : Store) : Type 0 where
  pub logged : Event
  pub found : find_event sc h k st.events ≡ some logged
  pub aggregate : logged.aggregate_id ≡ id
  pub fingerprint : logged.request_fingerprint ≡ fp

pub equals : (i j : ℕ) → i == j ≡ true → i ≡ j
equals i j e = (==_iff i j).0 e

find_binding_self :
    (sc : Scope) (k id fp : ℕ)
    → let b : Binding = record {
      scope = sc;
      idempotency_key = k;
      aggregate_id = id;
      request_fingerprint = fp;
    } in
      find_binding sc k (b ∷ []) ≡ some b
unfolding find_binding
find_binding_self sc k id fp = rw (same_scope_refl sc, (==_iff k k).1 refl) refl

find_event_self :
    (sc : Scope) (h : Half) (k id fp : ℕ)
    → let e : Event =
        event sc h id (record { idempotency_key = some k; request_fingerprint = fp }) in
      find_event sc h k (e ∷ []) ≡ some e
unfolding find_event
find_event_self sc h k id fp = rw (same_scope_refl sc, same_half_refl h, (==_iff k k).1 refl) refl

bound_to_same :
    (id fp : ℕ) (old : Binding)
    → OkOf
        (λ _. (old.aggregate_id ≡ id) × (old.request_fingerprint ≡ fp))
        (bound_to (some id) fp (some old))
bound_to_same id fp old =
    let P = λ (u : Option ℕ). (old.aggregate_id ≡ id) × (old.request_fingerprint ≡ fp) in
    OkOf-require P (old.aggregate_id == id) _ _ (λ aggregate.
      OkOf-require P (old.request_fingerprint == fp) _ _ (λ fingerprint.
        (equals old.aggregate_id id aggregate, equals old.request_fingerprint fp fingerprint)))

bind_old :
    (b old : Binding) (bs : List Binding)
    → OkOf
        (λ bs'.
          (bs' ≡ bs)
          × (old.aggregate_id ≡ b.aggregate_id)
          × (old.request_fingerprint ≡ b.request_fingerprint))
        (bind_new b (some old) bs)
bind_old b old bs =
    let P = λ (bs' : List Binding).
      (bs' ≡ bs)
      × (old.aggregate_id ≡ b.aggregate_id)
      × (old.request_fingerprint ≡ b.request_fingerprint) in
    OkOf-bind P (bound_to (some b.aggregate_id) b.request_fingerprint (some old)) _ (λ u e.
      let (aggregate, fingerprint) =
        subst
          (OkOf (λ _.
            (old.aggregate_id ≡ b.aggregate_id)
            × (old.request_fingerprint ≡ b.request_fingerprint)))
          e (bound_to_same b.aggregate_id b.request_fingerprint old) in
      (refl, aggregate, fingerprint))

pub record_idempotency-IsBound :
    (sc : Scope) (k id fp : ℕ) (st : Store)
    → OkOf (IsBound sc k id fp) (record_idempotency sc (some k) id fp st)
unfolding record_idempotency
record_idempotency-IsBound sc k id fp st = go (find_binding sc k st.bindings) refl
  where
    go :
        (o : Option Binding)
        → find_binding sc k st.bindings ≡ o
        → OkOf (IsBound sc k id fp) (
            bind_new
              (record {
                scope = sc;
                idempotency_key = k;
                aggregate_id = id;
                request_fingerprint = fp;
              })
              o
              st.bindings
            >>= λ bs. returned (record st { bindings = bs }))
    go none at =
        let new : Binding = record {
          scope = sc;
          idempotency_key = k;
          aggregate_id = id;
          request_fingerprint = fp;
        } in
        record {
          bound = record {
            scope = sc;
            idempotency_key = k;
            aggregate_id = id;
            request_fingerprint = fp;
          };
          found = rw (find_binding-append sc k new st.bindings, at) (find_binding_self sc k id fp);
          aggregate = refl;
          fingerprint = refl;
        }
    go (some old) at =
        OkOf-bind (IsBound sc k id fp)
          (bind_new
            (record {
              scope = sc;
              idempotency_key = k;
              aggregate_id = id;
              request_fingerprint = fp;
            })
            (some old) st.bindings)
          _
          (λ bs e.
            let (same, aggregate, fingerprint) =
              subst
                (OkOf (λ bs'.
                  (bs' ≡ st.bindings) × (old.aggregate_id ≡ id) × (old.request_fingerprint ≡ fp)))
                e
                (bind_old
                  (record {
                    scope = sc;
                    idempotency_key = k;
                    aggregate_id = id;
                    request_fingerprint = fp;
                  })
                  old st.bindings) in
            record {
              bound = old;
              found = ap (find_binding sc k) same ∙ at;
              aggregate = aggregate;
              fingerprint = fingerprint;
            })

pub append_event-IsLogged :
    (sc : Scope) (h : Half) (id k fp : ℕ) (st : Store)
    → OkOf (IsLogged sc h k id fp) (
        append_event
          (event sc h id (record { idempotency_key = some k; request_fingerprint = fp }))
          st)
unfolding append_event
append_event-IsLogged sc h id k fp st = go (find_event sc h k st.events) refl
  where
    go :
        (o : Option Event)
        → find_event sc h k st.events ≡ o
        → OkOf (IsLogged sc h k id fp) (
            append_over
              (event sc h id (record { idempotency_key = some k; request_fingerprint = fp }))
              o
              st)
    go none at =
        let new : Event =
          event sc h id (record { idempotency_key = some k; request_fingerprint = fp }) in
        record {
          logged = event sc h id (record { idempotency_key = some k; request_fingerprint = fp });
          found = rw (find_event-append sc h k new st.events, at) (find_event_self sc h k id fp);
          aggregate = refl;
          fingerprint = refl;
        }
    go (some old) at = OkOf-require (IsLogged sc h k id fp) (old.aggregate_id == id) _ _ (λ same.
        OkOf-require (IsLogged sc h k id fp) (old.request_fingerprint == fp) _ _ (λ same_fp.
          record {
            logged = old;
            found = at;
            aggregate = equals old.aggregate_id id same;
            fingerprint = equals old.request_fingerprint fp same_fp;
          }))
