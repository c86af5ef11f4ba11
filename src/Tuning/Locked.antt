-- ===== src/Tuning/Locked.antt =====
-- What the helpers of a transaction of src/azure_sql_mcp/performance_store.py write.
use azure_sql_mcp.Shared.{
  ℕ, suc, ◌≡◌, refl, ◌∙◌, subst, true, false, Option, none, some, List, leb, ◌==◌, arith,
}
use azure_sql_mcp.Shared.Rows.{find_row, put_row}
use azure_sql_mcp.Shared.Raising.{OkOf, OkOf-bind, OkOf-require, OkOf-weaken}
use azure_sql_mcp.Tuning.{
  Session, Candidate, Scope, Event, Store, ◌>>=◌, session_key, candidate_key,
}
use azure_sql_mcp.Tuning.Save.{
  get_candidate, save_locked, save_session_locked, save_candidate_locked, append_event,
  record_idempotency, find_binding, session_version, candidate_version, append_over, old_event,
  bind_new, save_over,
}

-- The bookkeeping of keys and events leaves the sessions and the candidates alone.
pub record SameRows (st st' : Store) : Type 0 where
  pub sessions : st'.sessions ≡ st.sessions
  pub candidates : st'.candidates ≡ st.candidates

pub append_event-SameRows : (e : Event) (st : Store) → OkOf (SameRows st) (append_event e st)
unfolding append_event
append_event-SameRows e st = go (old_event e e.idempotency_key st.events)
  where
    go : (x : Option Event) → OkOf (SameRows st) (append_over e x st)
    go none = record { sessions = refl; candidates = refl }
    go (some old) = OkOf-require (SameRows st) (old.aggregate_id == e.aggregate_id) _ _ (λ same.
        OkOf-require (SameRows st) (old.request_fingerprint == e.request_fingerprint) _ _
          (λ fp. record { sessions = refl; candidates = refl }))

pub record_idempotency-SameRows :
    (sc : Scope) (k : Option ℕ) (id fp : ℕ) (st : Store)
    → OkOf (SameRows st) (record_idempotency sc k id fp st)
unfolding record_idempotency
record_idempotency-SameRows sc none id fp st = record { sessions = refl; candidates = refl }
record_idempotency-SameRows sc (some k) id fp st =
    OkOf-bind (SameRows st) (bind_new _ (find_binding sc k st.bindings) st.bindings) _
      (λ bs e. record { sessions = refl; candidates = refl })

-- A row that is there under the expected version gives way to the next one.
pub record Advances {A : Type 0} (key version : A → ℕ) (x : A) (expected : ℕ) (rows rows' : List A)
    : Type 0 where
  pub current : A
  pub found : find_row key (key x) rows ≡ some current
  pub expected_is : version current ≡ expected
  pub next : version x ≡ suc expected
  pub written : rows' ≡ put_row key x rows

pub save_over-Advances :
    {A : Type 0} (key version : A → ℕ) (x : A) (expected : ℕ) (rows : List A) (o : Option A)
    → find_row key (key x) rows ≡ o
    → OkOf
        (Advances key version x expected rows)
        (save_over key version x false (some expected) rows o)
save_over-Advances key version x expected rows none e = tt
save_over-Advances key version x expected rows (some current) e =
    OkOf-require (Advances key version x expected rows) (version current == expected) _ _ (λ at.
      OkOf-require (Advances key version x expected rows) (leb (version current) (version x)) _ _
        (λ up.
          OkOf-require (Advances key version x expected rows) (version x == suc (version current)) _
            _
            (λ one. record {
              current = current;
              found = e;
              expected_is = ground (arith, at);
              next = ground (arith, at, one);
              written = refl;
            })))

pub save_locked-Advances :
    {A : Type 0} (key version : A → ℕ) (x : A) (expected : ℕ) (rows : List A)
    → OkOf
        (Advances key version x expected rows)
        (save_locked key version x false (some expected) rows)
unfolding save_locked
save_locked-Advances key version x expected rows =
    save_over-Advances key version x expected rows (find_row key (key x) rows) refl

-- `save_session_locked` and `save_candidate_locked` of a row that is there.
pub record SavesSession (s : Session) (expected : ℕ) (st st' : Store) : Type 0 where
  pub advances : Advances session_key session_version s expected st.sessions st'.sessions
  pub rest : st'.candidates ≡ st.candidates

pub save_session_locked-SavesSession :
    (s : Session) (expected : ℕ) (st : Store)
    → OkOf (SavesSession s expected st) (save_session_locked s (some expected) st)
unfolding save_session_locked
save_session_locked-SavesSession s expected st =
    OkOf-bind (SavesSession s expected st)
      (save_locked session_key session_version s false (some expected) st.sessions) _
      (λ rows e. record {
        advances =
            subst (OkOf (Advances session_key session_version s expected st.sessions)) e
              (save_locked-Advances session_key session_version s expected st.sessions);
        rest = refl;
      })

pub SameRows-trans : {a b c : Store} → SameRows a b → SameRows b c → SameRows a c
SameRows-trans h k = record {
  sessions = k.sessions ∙ h.sessions;
  candidates = k.candidates ∙ h.candidates;
}

-- The end of each transaction that writes: its events and its key.
pub logs-SameRows :
    (e : Event) (sc : Scope) (k : Option ℕ) (id fp : ℕ) (st : Store)
    → OkOf (SameRows st) (append_event e st >>= λ logged. record_idempotency sc k id fp logged)
logs-SameRows e sc k id fp st = OkOf-bind (SameRows st) (append_event e st) _ (λ logged done.
    let one = subst (OkOf (SameRows st)) done (append_event-SameRows e st) in
    OkOf-weaken (λ st' two. SameRows-trans one two) _
      (record_idempotency-SameRows sc k id fp logged))

pub two_logs-SameRows :
    (e f : Event) (sc : Scope) (k : Option ℕ) (id fp : ℕ) (st : Store)
    → OkOf (SameRows st) (
        append_event e st >>= λ third.
        append_event f third >>= λ fourth. record_idempotency sc k id fp fourth)
two_logs-SameRows e f sc k id fp st = OkOf-bind (SameRows st) (append_event e st) _ (λ third done.
    let one = subst (OkOf (SameRows st)) done (append_event-SameRows e st) in
    OkOf-weaken (λ st' two. SameRows-trans one two) _ (logs-SameRows f sc k id fp third))

pub record SavesCandidate (c : Candidate) (expected : ℕ) (st st' : Store) : Type 0 where
  pub advances : Advances candidate_key candidate_version c expected st.candidates st'.candidates
  pub rest : st'.sessions ≡ st.sessions

pub save_candidate_locked-SavesCandidate :
    (c : Candidate) (expected : ℕ) (st : Store)
    → OkOf (SavesCandidate c expected st) (save_candidate_locked c false (some expected) st)
unfolding save_candidate_locked
save_candidate_locked-SavesCandidate c expected st =
    OkOf-bind (SavesCandidate c expected st)
      (save_locked candidate_key candidate_version c false (some expected) st.candidates) _
      (λ rows e. record {
        advances =
            subst (OkOf (Advances candidate_key candidate_version c expected st.candidates)) e
              (save_locked-Advances candidate_key candidate_version c expected st.candidates);
        rest = refl;
      })

pub record Inserts (c : Candidate) (st st' : Store) : Type 0 where
  pub fresh : get_candidate c.candidate_id st ≡ none
  pub written : st'.candidates ≡ put_row candidate_key c st.candidates
  pub rest : st'.sessions ≡ st.sessions

pub insert_over-fresh :
    (c : Candidate) (rows : List Candidate) (o : Option Candidate)
    → find_row candidate_key c.candidate_id rows ≡ o
    → OkOf
        (λ rows'.
          (find_row candidate_key c.candidate_id rows ≡ none)
          × (rows' ≡ put_row candidate_key c rows))
        (save_over candidate_key candidate_version c true none rows o)
insert_over-fresh c rows none e = (e, refl)
insert_over-fresh c rows (some old) e = tt

pub save_candidate_locked-Inserts :
    (c : Candidate) (st : Store) → OkOf (Inserts c st) (save_candidate_locked c true none st)
unfolding save_candidate_locked save_locked get_candidate
save_candidate_locked-Inserts c st =
    OkOf-bind (Inserts c st) (save_locked candidate_key candidate_version c true none st.candidates)
      _
      (λ rows e.
        let (fresh, written) =
          subst
            (OkOf (λ rows'.
              (find_row candidate_key c.candidate_id st.candidates ≡ none)
              × (rows' ≡ put_row candidate_key c st.candidates)))
            e
            (insert_over-fresh c st.candidates (find_row candidate_key c.candidate_id st.candidates)
              refl) in
        record { fresh = fresh; written = written; rest = refl })
