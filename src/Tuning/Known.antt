-- ===== src/Tuning/Known.antt =====
-- A transition that is known under its key: the replay in src/azure_sql_mcp/performance_store.py.
use azure_sql_mcp.Shared.{
  ℕ, ◌≡◌, refl, ap, ◌∙◌, subst, Bool, true, false, ◌&&◌, Option, none, some, List, ◌==◌, arith,
  ==_iff,
}
use azure_sql_mcp.Shared.Rows.{find_row, put_row, find_row-put_row}
use azure_sql_mcp.Shared.Raising.{OkOf, OkOf-bind, OkOf-require, OkOf-or_raise, OkOf-intro}
use azure_sql_mcp.Tuning.{
  Session, Candidate, tuning_transition, candidate_half, session_half, Binding, Store, returned,
  session_key, candidate_key,
}
use azure_sql_mcp.Tuning.Save.{
  get_session, get_candidate, append_event, record_idempotency, find_event, find_binding,
  save_candidate_locked, save_session_locked,
}
use azure_sql_mcp.Tuning.Transactions.{
  Request, replay_transition, replay_bound, event, finish_both, save_session_and_candidate,
}
use azure_sql_mcp.Tuning.Locked.{
  SavesSession, SavesCandidate, save_session_locked-SavesSession,
  save_candidate_locked-SavesCandidate, append_event-SameRows, record_idempotency-SameRows,
  SameRows-trans, SameRows,
}
use azure_sql_mcp.Tuning.Logs.{Grows, trans-Grows, append_event-Grows, record_idempotency-Grows}
use azure_sql_mcp.Tuning.Replayed.{
  IsBound, IsLogged, equals, record_idempotency-IsBound, append_event-IsLogged,
}

abbrev pub keyed : ℕ → ℕ → Request
keyed k fp = record { idempotency_key = some k; request_fingerprint = fp }

-- The transition of a candidate is known under a key.
pub record IsKnown (sid cid k fp : ℕ) (st : Store) : Type 0 where
  pub bound : IsBound tuning_transition k sid fp st
  pub logged : IsLogged tuning_transition candidate_half k cid fp st
  pub candidate : (c : Candidate) × (get_candidate cid st ≡ some c) × (c.session_id ≡ sid)
  pub session : (s : Session) × (get_session sid st ≡ some s)

same_number : (i j : ℕ) → i ≡ j → i == j ≡ true
same_number i j e = (==_iff i j).1 e

pub IsKnown-replay :
    (sid cid k fp : ℕ) (st : Store)
    → IsKnown sid cid k fp st
    → replay_transition sid cid (keyed k fp) st ≡ returned true
unfolding replay_transition get_candidate get_session
IsKnown-replay sid cid k fp st h =
    let (c, at_candidate, own) = h.candidate in
    let (s, at_session) = h.session in
    rw
      (
        h.bound.found,
        same_number h.bound.bound.aggregate_id sid h.bound.aggregate,
        h.logged.found,
        same_number h.logged.logged.aggregate_id cid h.logged.aggregate,
        same_number h.logged.logged.request_fingerprint fp h.logged.fingerprint,
        same_number h.bound.bound.request_fingerprint fp h.bound.fingerprint,
        at_candidate,
        same_number c.session_id sid own,
        at_session,
      )
      refl

abbrev pub If : Type 0 → Bool → Type 0
If P true = P
If P false = Unit

both_true : (a b : Bool) → a && b ≡ true → (a ≡ true) × (b ≡ true)
both_true a b e = ground arith

pub replay-IsKnown :
    (sid cid k fp : ℕ) (st : Store)
    → OkOf (If (IsKnown sid cid k fp st)) (replay_transition sid cid (keyed k fp) st)
unfolding replay_transition
replay-IsKnown sid cid k fp st = go (find_binding tuning_transition k st.bindings) refl
  where
    go :
        (o : Option Binding)
        → find_binding tuning_transition k st.bindings ≡ o
        → OkOf (If (IsKnown sid cid k fp st)) (replay_bound sid cid k fp st o)
    go none at = tt
    go (some b) at =
        let P = If (IsKnown sid cid k fp st) in
        OkOf-require P (b.aggregate_id == sid) _ _ (λ same.
          OkOf-or_raise P (find_event tuning_transition candidate_half k st.events) _ _
            (λ e at_event.
              OkOf-require P (e.aggregate_id == cid && e.request_fingerprint == fp) _ _
                (λ same_event. OkOf-require P (b.request_fingerprint == fp) _ _ (λ same_fp.
                  OkOf-or_raise P (get_candidate cid st) _ _ (λ c at_candidate.
                    OkOf-require P (c.session_id == sid) _ _ (λ own.
                      OkOf-or_raise P (get_session sid st) _ _ (λ s at_session.
                        let (same_cid, same_event_fp) =
                          both_true (e.aggregate_id == cid) (e.request_fingerprint == fp)
                            same_event in
                        record {
                          bound = record {
                            bound = b;
                            found = at;
                            aggregate = equals b.aggregate_id sid same;
                            fingerprint = equals b.request_fingerprint fp same_fp;
                          };
                          logged = record {
                            logged = e;
                            found = at_event;
                            aggregate = equals e.aggregate_id cid same_cid;
                            fingerprint = equals e.request_fingerprint fp same_event_fp;
                          };
                          candidate = (c, at_candidate, equals c.session_id sid own);
                          session = (s, at_session);
                        })))))))

found_put :
    {A : Type 0} (key : A → ℕ) (x : A) (xs : List A)
    → find_row key (key x) (put_row key x xs) ≡ some x
found_put key x xs = find_row-put_row key (key x) x xs ∙ rw (same_number (key x) (key x) refl) refl

-- The end of a transition that was not made before.
finish_both-IsKnown :
    (s : Session) (c : Candidate) (e ec k fp : ℕ) (st : Store)
    → c.session_id ≡ s.session_id
    → OkOf (IsKnown s.session_id c.candidate_id k fp) (finish_both s c e ec (keyed k fp) st false)
unfolding get_session get_candidate
finish_both-IsKnown s c e ec k fp st own =
    let P = IsKnown s.session_id c.candidate_id k fp in
    OkOf-bind P (save_candidate_locked c false (some ec) st) _ (λ first done.
      OkOf-bind P (save_session_locked s (some e) first) _ (λ second did.
        let h =
          subst (OkOf (SavesCandidate c ec st)) done
            (save_candidate_locked-SavesCandidate c ec st) in
        let g =
          subst (OkOf (SavesSession s e first)) did (save_session_locked-SavesSession s e first) in
        OkOf-bind P
          (append_event (event tuning_transition candidate_half c.candidate_id (keyed k fp)) second)
          _
          (λ third wrote.
            OkOf-bind P
              (append_event (event tuning_transition session_half s.session_id (keyed k fp)) third)
              _
              (λ fourth wrote'.
                OkOf-intro P (record_idempotency tuning_transition (some k) s.session_id fp fourth)
                  (λ last wrote''.
                    let q = keyed k fp in
                    let logged =
                      subst (OkOf (IsLogged tuning_transition candidate_half k c.candidate_id fp))
                        wrote
                        (append_event-IsLogged tuning_transition candidate_half c.candidate_id k fp
                          second) in
                    let more = subst (OkOf (Grows third)) wrote' (
                      append_event-Grows (event tuning_transition session_half s.session_id q)
                        third) in
                    let most = subst (OkOf (Grows fourth)) wrote'' (
                      record_idempotency-Grows tuning_transition (some k) s.session_id fp fourth) in
                    let grows = trans-Grows more most in
                    let bound =
                      subst (OkOf (IsBound tuning_transition k s.session_id fp)) wrote''
                        (record_idempotency-IsBound tuning_transition k s.session_id fp fourth) in
                    let one = subst (OkOf (SameRows second)) wrote (
                      append_event-SameRows
                        (event tuning_transition candidate_half c.candidate_id q) second) in
                    let two = subst (OkOf (SameRows third)) wrote' (
                      append_event-SameRows (event tuning_transition session_half s.session_id q)
                        third) in
                    let three = subst (OkOf (SameRows fourth)) wrote'' (
                      record_idempotency-SameRows tuning_transition (some k) s.session_id fp
                        fourth) in
                    let rows = SameRows-trans one (SameRows-trans two three) in
                    let candidates : last.candidates ≡ put_row candidate_key c st.candidates =
                      rows.candidates ∙ g.rest ∙ h.advances.written in
                    let sessions : last.sessions ≡ put_row session_key s first.sessions =
                      rows.sessions ∙ g.advances.written in
                    record {
                      bound = bound;
                      logged = record {
                        logged = logged.logged;
                        found =
                            grows.event tuning_transition candidate_half k logged.logged
                              logged.found;
                        aggregate = logged.aggregate;
                        fingerprint = logged.fingerprint;
                      };
                      candidate = (
                        c,
                        ap (find_row candidate_key c.candidate_id) candidates
                            ∙ found_put candidate_key c st.candidates,
                        own,
                      );
                      session = (
                        s,
                        ap (find_row session_key s.session_id) sessions
                            ∙ found_put session_key s first.sessions,
                      );
                    })))))

-- Behind a transition its key is known.
pub save_both-IsKnown :
    (s : Session) (c : Candidate) (e ec k fp : ℕ) (st : Store)
    → OkOf
        (IsKnown s.session_id c.candidate_id k fp)
        (save_session_and_candidate s c e ec (keyed k fp) st)
unfolding save_session_and_candidate
save_both-IsKnown s c e ec k fp st =
    let P = IsKnown s.session_id c.candidate_id k fp in
    OkOf-require P (c.session_id == s.session_id) _ _ (λ own.
      OkOf-bind P (replay_transition s.session_id c.candidate_id (keyed k fp) st) _
        (λ replayed done. go replayed (equals c.session_id s.session_id own) (
          subst (OkOf (If (IsKnown s.session_id c.candidate_id k fp st))) done
            (replay-IsKnown s.session_id c.candidate_id k fp st))))
  where
    go :
        (b : Bool)
        → c.session_id ≡ s.session_id
        → If (IsKnown s.session_id c.candidate_id k fp st) b
        → OkOf (IsKnown s.session_id c.candidate_id k fp) (finish_both s c e ec (keyed k fp) st b)
    go true own known = known
    go false own known = finish_both-IsKnown s c e ec k fp st own
