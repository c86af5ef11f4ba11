-- ===== src/Tuning/Create.antt =====
-- `create_session` of src/azure_sql_mcp/tuning_sessions.py and of
-- src/azure_sql_mcp/performance_store.py.
use azure_sql_mcp.Shared.{
  ℕ, ◌+◌, ◌≡◌, refl, sym, ap, ◌∙◌, subst, inl, inr, Bool-cases, true, Option, none, some, List, [],
  ◌==◌, ==_iff,
}
use azure_sql_mcp.Shared.Rows.{find_row, put_row, find_row-put_row}
use azure_sql_mcp.Shared.Raising.{OkOf, OkOf-bind, OkOf-or_raise, OkOf-weaken}
use azure_sql_mcp.Tuning.{
  Session, SessionStatus, Store, session_create, whole, Result, returned, ◌>>=◌, or_raise,
  not_found, session_key,
}
use azure_sql_mcp.Tuning.Save.{
  get_session, save_over, save_locked, session_version, append_event, record_idempotency,
  idempotent_aggregate,
}
use azure_sql_mcp.Tuning.Transactions.{Request, event}
use azure_sql_mcp.Tuning.Locked.{logs-SameRows}

pub record Limits : Type 0 where
  pub max_candidates : ℕ
  pub screen_runs_per_candidate : ℕ
  pub finalist_runs_per_candidate : ℕ
  pub parameter_case_limit : ℕ
  pub execution_limit : ℕ
  pub time_limit_seconds : ℕ

-- The session that the state machine asks for.
abbrev pub new_session : ℕ → ℕ → Limits → Session
new_session sid now l = record {
  session_id = sid;
  status = SessionStatus.created;
  deadline_at = some (now + l.time_limit_seconds);
  max_candidates = l.max_candidates;
  screen_runs_per_candidate = l.screen_runs_per_candidate;
  finalist_runs_per_candidate = l.finalist_runs_per_candidate;
  parameter_case_limit = l.parameter_case_limit;
  execution_limit = l.execution_limit;
  candidate_ids = [];
  finalist_candidate_ids = [];
  selected_candidate_id = none;
  version = 0;
}

abbrev pub finish_create : Session → Request → Store → Option ℕ → Result Store
finish_create s q st (some id) = do found ← or_raise (get_session id st) not_found; returned st
finish_create s q st none = do
  rows ← save_locked session_key session_version s true none st.sessions
  logged ← append_event (event session_create whole s.session_id q) (record st { sessions = rows })
  record_idempotency session_create q.idempotency_key s.session_id q.request_fingerprint logged

-- `create_session` of the store, through `_create`
unfoldable pub create_session : Session → Request → Store → Result Store
unfolding idempotent_aggregate get_session save_locked append_event record_idempotency
create_session s q st = do
  bound ←
      idempotent_aggregate session_create q.idempotency_key none q.request_fingerprint st.bindings
  finish_create s q st bound

-- Creating a session changes no row that is there.
pub record Adds (st st' : Store) : Type 0 where
  pub found : (sid : ℕ) (t : Session) → get_session sid st ≡ some t → get_session sid st' ≡ some t
  pub candidates : st'.candidates ≡ st.candidates

insert_session :
    (s : Session) (rows : List Session) (o : Option Session)
    → find_row session_key s.session_id rows ≡ o
    → OkOf
        (λ rows'.
          (find_row session_key s.session_id rows ≡ none) × (rows' ≡ put_row session_key s rows))
        (save_over session_key session_version s true none rows o)
insert_session s rows none e = (e, refl)
insert_session s rows (some old) e = tt

still_found :
    (s : Session) (rows : List Session)
    → find_row session_key s.session_id rows ≡ none
    → (sid : ℕ) (t : Session) → find_row session_key sid rows ≡ some t
    → find_row session_key sid (put_row session_key s rows) ≡ some t
still_found s rows new sid t at = elim (Bool-cases (s.session_id == sid)) [
  | inl same ↦
      let clash : none ≡ some t =
        sym new ∙ ap (λ i. find_row session_key i rows) ((==_iff s.session_id sid).0 same) ∙ at in
      cc
  | inr apart ↦ find_row-put_row session_key sid s rows ∙ rw apart at
]

finish_create-Adds :
    (s : Session) (q : Request) (st : Store) (bound : Option ℕ)
    → OkOf (Adds st) (finish_create s q st bound)
unfolding get_session save_locked
finish_create-Adds s q st (some id) =
    OkOf-or_raise (Adds st) (get_session id st) _ _
      (λ found at. record { found = λ sid t e. e; candidates = refl })
finish_create-Adds s q st none =
    OkOf-bind (Adds st) (save_locked session_key session_version s true none st.sessions) _
      (λ rows done.
        let (new, put) =
          subst
            (OkOf (λ rows'.
              (find_row session_key s.session_id st.sessions ≡ none)
              × (rows' ≡ put_row session_key s st.sessions)))
            done
            (insert_session s st.sessions (find_row session_key s.session_id st.sessions) refl) in
        OkOf-weaken {Q = Adds st}
          (λ st' k. record {
            found = λ sid t at.
                ap (find_row session_key sid) (k.sessions ∙ put)
                ∙ still_found s st.sessions new sid t at;
            candidates = k.candidates;
          })
          _
          (logs-SameRows (event session_create whole s.session_id q) session_create
            q.idempotency_key s.session_id q.request_fingerprint (record st { sessions = rows })))

pub create_session-Adds :
    (s : Session) (q : Request) (st : Store) → OkOf (Adds st) (create_session s q st)
unfolding create_session
create_session-Adds s q st =
    OkOf-bind (Adds st)
      (idempotent_aggregate session_create q.idempotency_key none q.request_fingerprint st.bindings)
      _ (λ bound done. finish_create-Adds s q st bound)
