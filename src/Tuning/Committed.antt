-- ===== src/Tuning/Committed.antt =====
-- What each transaction of the state machine writes, src/azure_sql_mcp/performance_store.py.
use azure_sql_mcp.Shared.{
  ℕ, ◌≡◌, refl, ap, ◌∙◌, subst, true, Option, none, some, [], ◌∷◌, ◌++◌, ltb, ◌==◌, length, arith,
}
use azure_sql_mcp.Shared.Rows.{find_row, put_row}
use azure_sql_mcp.Shared.Raising.{OkOf, OkOf-bind, OkOf-require, OkOf-or_raise, OkOf-weaken}
use azure_sql_mcp.Tuning.{Session, Candidate, candidate_attach, Store, session_key, candidate_key}
use azure_sql_mcp.Tuning.Save.{
  get_session, get_candidate, save_session_locked, save_candidate_locked, idempotent_aggregate,
  list_candidates,
}
use azure_sql_mcp.Tuning.Transactions.{
  Request, Commit, save, save_both, attach, commit, create_candidate_and_attach, attached,
  finish_attach, next_candidate_ordinal,
}
use azure_sql_mcp.Tuning.Locked.{
  SameRows, SavesSession, save_session_locked-SavesSession, two_logs-SameRows, Inserts,
  save_candidate_locked-Inserts,
}
use azure_sql_mcp.Tuning.Effect.{
  Wrote, save_session_and_candidate-Effect, session_id_of, save_session-Effect, Effect, kept,
  created, new,
}

attach-Wrote :
    (sid e : ℕ) (s' : Session) (c' : Candidate) (st slotted first second st' : Store)
    → SameRows st slotted
    → Inserts c' slotted first
    → SavesSession s' e first second
    → SameRows second st'
    → s'.session_id ≡ sid
    → Wrote sid e s' (some c') st st'
unfolding get_session get_candidate
attach-Wrote sid e s' c' st slotted first second st' j h g k own =
    let rows : first.sessions ≡ st.sessions = h.rest ∙ j.sessions in
    record {
      current = g.advances.current;
      found =
          subst (λ i. find_row session_key i st.sessions ≡ some g.advances.current) own
            (subst (λ xs. find_row session_key s'.session_id xs ≡ some g.advances.current) rows
              g.advances.found);
      expected_is = g.advances.expected_is;
      same_id = own;
      next = g.advances.next;
      sessions = k.sessions ∙ g.advances.written ∙ ap (put_row session_key s') rows;
      besides =
          new c'
            (subst (λ xs. find_row candidate_key c'.candidate_id xs ≡ none) j.candidates h.fresh)
            (k.candidates ∙ g.rest ∙ h.written ∙ ap (put_row candidate_key c') j.candidates);
    }

fresh_before :
    (c : Candidate) (st slotted first : Store)
    → slotted.candidates ≡ st.candidates
    → Inserts c slotted first
    → get_candidate c.candidate_id st ≡ none
unfolding get_candidate
fresh_before c st slotted first same h =
    subst (λ xs. find_row candidate_key c.candidate_id xs ≡ none) same h.fresh

finish_attach-Effect :
    (sid : ℕ) (c : Candidate) (e : ℕ) (q : Request) (st : Store) (bound : Option ℕ)
    → c.session_id ≡ sid
    → OkOf (λ st'. Effect st st' (attach sid c e)) (finish_attach sid c e q st bound)
finish_attach-Effect sid c e q st (some id) own =
    OkOf-or_raise (λ st'. Effect st st' (attach sid c e)) (get_candidate id st) _ _
      (λ found at. kept (attach sid c e) (record { sessions = refl; candidates = refl }))
finish_attach-Effect sid c e q st none own =
    OkOf-or_raise (λ st'. Effect st st' (attach sid c e)) (get_session sid st) _ _
      (λ current at.
        OkOf-require (λ st'. Effect st st' (attach sid c e)) (current.version == e) _ _
          (λ ver.
            OkOf-require (λ st'. Effect st st' (attach sid c e))
              (ltb (length (list_candidates sid st)) current.max_candidates) _ _
              (λ room.
                let ordinal = next_candidate_ordinal sid st in
                let slotted = record st {
                  slots = st.slots ++ record { session_id = sid; ordinal = ordinal } ∷ [];
                } in
                let c' = record c { ordinal = ordinal } in
                OkOf-bind (λ st'. Effect st st' (attach sid c e))
                  (save_candidate_locked c' true none slotted) _
                  (λ first done.
                    OkOf-bind (λ st'. Effect st st' (attach sid c e))
                      (save_session_locked (attached current c) (some current.version) first) _
                      (λ second did.
                        let h =
                          subst (OkOf (Inserts c' slotted)) done
                            (save_candidate_locked-Inserts c' slotted) in
                        let at_version : current.version ≡ e = ground (arith, ver) in
                        let g =
                          subst (λ v. SavesSession (attached current c) v first second) at_version
                            (subst (OkOf (SavesSession (attached current c) current.version first))
                              did
                              (save_session_locked-SavesSession (attached current c) current.version
                                first)) in
                        OkOf-weaken
                          (λ st' k.
                            created sid c e ordinal current own at
                              (fresh_before c' st slotted first refl h) (ground (arith, room))
                              (attach-Wrote sid e (attached current c) c' st slotted first second
                                st' (record { sessions = refl; candidates = refl }) h g k
                                (session_id_of sid current st at)))
                          _
                          (two_logs-SameRows _ _ candidate_attach q.idempotency_key c.candidate_id
                            q.request_fingerprint second))))))

create_candidate_and_attach-Effect :
    (sid : ℕ) (c : Candidate) (e : ℕ) (q : Request) (st : Store)
    → OkOf (λ st'. Effect st st' (attach sid c e)) (create_candidate_and_attach sid c e q st)
unfolding create_candidate_and_attach
create_candidate_and_attach-Effect sid c e q st =
    OkOf-require (λ st'. Effect st st' (attach sid c e)) (c.session_id == sid) _ _
      (λ own.
        OkOf-bind (λ st'. Effect st st' (attach sid c e))
          (idempotent_aggregate candidate_attach q.idempotency_key none q.request_fingerprint
            st.bindings)
          _ (λ bound done. finish_attach-Effect sid c e q st bound (ground (arith, own))))

pub commit-Effect :
    (cm : Commit) (q : Request) (st : Store) → OkOf (λ st'. Effect st st' cm) (commit cm q st)
unfolding commit
commit-Effect (save s e) q st = save_session-Effect s e q st
commit-Effect (save_both s c e ec) q st = save_session_and_candidate-Effect s c e ec q st
commit-Effect (attach sid c e) q st = create_candidate_and_attach-Effect sid c e q st
