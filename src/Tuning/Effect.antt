-- ===== src/Tuning/Effect.antt =====
-- What a transaction of the tuning store writes, src/azure_sql_mcp/performance_store.py.
use azure_sql_mcp.Shared.{
  ℕ, suc, ◌<◌, ◌≡◌, refl, sym, ap, ◌∙◌, subst, Bool, true, false, Option, none, some, ◌==◌, length,
  arith,
}
use azure_sql_mcp.Shared.Rows.{find_row, put_row, key-find_row}
use azure_sql_mcp.Shared.Raising.{OkOf, OkOf-bind, OkOf-require, OkOf-or_raise, OkOf-weaken}
use azure_sql_mcp.Tuning.{
  Session, Candidate, session_save, tuning_transition, Store, session_key, candidate_key,
}
use azure_sql_mcp.Tuning.Save.{
  get_session, get_candidate, save_session_locked, save_candidate_locked, idempotent_aggregate,
  list_candidates,
}
use azure_sql_mcp.Tuning.Transactions.{
  Request, Commit, save, save_both, attach, save_session, save_session_and_candidate, attached,
  replay_transition, finish_save, finish_both,
}
use azure_sql_mcp.Tuning.Locked.{
  SameRows, SavesSession, save_session_locked-SavesSession, logs-SameRows, two_logs-SameRows,
  SavesCandidate, save_candidate_locked-SavesCandidate,
}

-- What is written besides the session: nothing, the next version of a candidate, or a new candidate.
pub data Besides (st st' : Store) : Option Candidate → Type 0 where
  nothing : st'.candidates ≡ st.candidates → Besides st st' none
  moved :
      (c : Candidate) (old : Candidate)
      → get_candidate c.candidate_id st ≡ some old
      → c.version ≡ suc old.version
      → st'.candidates ≡ put_row candidate_key c st.candidates
      → Besides st st' (some c)
  new :
      (c : Candidate)
      → get_candidate c.candidate_id st ≡ none
      → st'.candidates ≡ put_row candidate_key c st.candidates
      → Besides st st' (some c)

-- A transaction that writes: the next version of a session, and what is written besides.
pub record Wrote (sid expected : ℕ) (s' : Session) (c' : Option Candidate) (st st' : Store)
    : Type 0 where
  pub current : Session
  pub found : get_session sid st ≡ some current
  pub expected_is : current.version ≡ expected
  pub same_id : s'.session_id ≡ sid
  pub next : s'.version ≡ suc expected
  pub sessions : st'.sessions ≡ put_row session_key s' st.sessions
  pub besides : Besides st st' c'

-- What a commit has done where it returns: nothing to sessions and candidates, or its writes.
pub data Effect (st st' : Store) : Commit → Type 0 where
  kept : (cm : Commit) → SameRows st st' → Effect st st' cm
  saved : (s : Session) (e : ℕ) → Wrote s.session_id e s none st st' → Effect st st' (save s e)
  saved_both :
      (s : Session) (c : Candidate) (e ec : ℕ)
      → c.session_id ≡ s.session_id
      → Wrote s.session_id e s (some c) st st'
      → Effect st st' (save_both s c e ec)
  created :
      (sid : ℕ) (c : Candidate) (e ordinal : ℕ) (current : Session)
      → c.session_id ≡ sid
      → get_session sid st ≡ some current
      → get_candidate c.candidate_id st ≡ none
      → length (list_candidates sid st) < current.max_candidates
      → Wrote sid e (attached current c) (some (record c { ordinal = ordinal })) st st'
      → Effect st st' (attach sid c e)

saved-Wrote :
    (s : Session) (e : ℕ) (st middle st' : Store)
    → SavesSession s e st middle
    → SameRows middle st'
    → Wrote s.session_id e s none st st'
unfolding get_session
saved-Wrote s e st middle st' h k = record {
  current = h.advances.current;
  found = h.advances.found;
  expected_is = h.advances.expected_is;
  same_id = refl;
  next = h.advances.next;
  sessions = k.sessions ∙ h.advances.written;
  besides = nothing (k.candidates ∙ h.rest);
}

finish_save-Effect :
    (s : Session) (e : ℕ) (q : Request) (st : Store) (bound : Option ℕ)
    → OkOf (λ st'. Effect st st' (save s e)) (finish_save s e q st bound)
finish_save-Effect s e q st (some id) =
    OkOf-or_raise (λ st'. Effect st st' (save s e)) (get_session id st) _ _
      (λ found at. kept (save s e) (record { sessions = refl; candidates = refl }))
finish_save-Effect s e q st none =
    OkOf-bind (λ st'. Effect st st' (save s e)) (save_session_locked s (some e) st) _
      (λ middle done.
        let h = subst (OkOf (SavesSession s e st)) done (save_session_locked-SavesSession s e st) in
        OkOf-weaken (λ st' k. saved s e (saved-Wrote s e st middle st' h k)) _
          (logs-SameRows _ session_save q.idempotency_key s.session_id q.request_fingerprint
            middle))

pub save_session-Effect :
    (s : Session) (e : ℕ) (q : Request) (st : Store)
    → OkOf (λ st'. Effect st st' (save s e)) (save_session s e q st)
unfolding save_session
save_session-Effect s e q st =
    OkOf-bind (λ st'. Effect st st' (save s e))
      (idempotent_aggregate session_save q.idempotency_key (some s.session_id) q.request_fingerprint
        st.bindings)
      _ (λ bound done. finish_save-Effect s e q st bound)

pub both-Wrote :
    (s : Session) (c : Candidate) (e ec : ℕ) (st first second st' : Store)
    → SavesCandidate c ec st first
    → SavesSession s e first second
    → SameRows second st'
    → Wrote s.session_id e s (some c) st st'
unfolding get_session get_candidate
both-Wrote s c e ec st first second st' h g k = record {
  current = g.advances.current;
  found =
      subst (λ rows. find_row session_key s.session_id rows ≡ some g.advances.current) h.rest
        g.advances.found;
  expected_is = g.advances.expected_is;
  same_id = refl;
  next = g.advances.next;
  sessions = k.sessions ∙ g.advances.written ∙ ap (put_row session_key s) h.rest;
  besides =
      moved c h.advances.current h.advances.found
        (h.advances.next ∙ ap suc (sym h.advances.expected_is))
        (k.candidates ∙ g.rest ∙ h.advances.written);
}

finish_both-Effect :
    (s : Session) (c : Candidate) (e ec : ℕ) (q : Request) (st : Store) (replayed : Bool)
    → c.session_id ≡ s.session_id
    → OkOf (λ st'. Effect st st' (save_both s c e ec)) (finish_both s c e ec q st replayed)
finish_both-Effect s c e ec q st true own =
    kept (save_both s c e ec) (record { sessions = refl; candidates = refl })
finish_both-Effect s c e ec q st false own =
    OkOf-bind (λ st'. Effect st st' (save_both s c e ec))
      (save_candidate_locked c false (some ec) st) _
      (λ first done.
        OkOf-bind (λ st'. Effect st st' (save_both s c e ec)) (save_session_locked s (some e) first)
          _
          (λ second did.
            let h =
              subst (OkOf (SavesCandidate c ec st)) done
                (save_candidate_locked-SavesCandidate c ec st) in
            let g =
              subst (OkOf (SavesSession s e first)) did
                (save_session_locked-SavesSession s e first) in
            OkOf-weaken
              (λ st' k. saved_both s c e ec own (both-Wrote s c e ec st first second st' h g k)) _
              (two_logs-SameRows _ _ tuning_transition q.idempotency_key s.session_id
                q.request_fingerprint second)))

pub save_session_and_candidate-Effect :
    (s : Session) (c : Candidate) (e ec : ℕ) (q : Request) (st : Store)
    → OkOf (λ st'. Effect st st' (save_both s c e ec)) (save_session_and_candidate s c e ec q st)
unfolding save_session_and_candidate
save_session_and_candidate-Effect s c e ec q st =
    OkOf-require (λ st'. Effect st st' (save_both s c e ec)) (c.session_id == s.session_id) _ _
      (λ own.
        OkOf-bind (λ st'. Effect st st' (save_both s c e ec))
          (replay_transition s.session_id c.candidate_id q st) _
          (λ replayed done. finish_both-Effect s c e ec q st replayed (ground (arith, own))))

pub session_id_of :
    (sid : ℕ) (s : Session) (st : Store) → get_session sid st ≡ some s → s.session_id ≡ sid
unfolding get_session
session_id_of sid s st e = key-find_row session_key sid s st.sessions e
