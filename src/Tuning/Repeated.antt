-- ===== src/Tuning/Repeated.antt =====
-- A keyed transition of a candidate is replayed for ever: `record_candidate_result` of
-- src/azure_sql_mcp/tuning_sessions.py.
use azure_sql_mcp.Shared.{ℕ, suc, ◌≡◌, refl, ◌∙◌, subst, Bool, true, false}
use azure_sql_mcp.Shared.Rows.{key-find_row}
use azure_sql_mcp.Shared.Raising.{OkOf, OkOf-bind, OkOf-or_raise}
use azure_sql_mcp.Tuning.{
  Session, tuning_transition, candidate_half, Store, returned, candidate_key,
}
use azure_sql_mcp.Tuning.Save.{get_session, get_candidate}
use azure_sql_mcp.Tuning.Transactions.{save_both, commit, replay_transition}
use azure_sql_mcp.Tuning.Decide.{Decision, unchanged, commits}
use azure_sql_mcp.Tuning.Results.{Results, with_results, record_candidate_result}
use azure_sql_mcp.Tuning.Service.{
  records, read_candidate, total_executions, decide, settle, run_fresh, replays, run_call,
  unless_replayed,
}
use azure_sql_mcp.Tuning.Effect.{session_id_of}
use azure_sql_mcp.Tuning.History.{Step, step, begins, Reach, here, next, Reach-Since}
use azure_sql_mcp.Tuning.Recorded.{IsResult, Saves, record_candidate_result-IsResult}
use azure_sql_mcp.Tuning.Logs.{Grows, same-Grows, trans-Grows, commit-Grows, create_session-Grows}
use azure_sql_mcp.Tuning.Known.{
  keyed, IsKnown, IsKnown-replay, If, replay-IsKnown, save_both-IsKnown,
}

-- What is known stays known, whatever transactions follow.
Step-Grows : {st st' : Store} → Step st st' → Grows st st'
Step-Grows {st} {st'} (step cm q own done) = subst (OkOf (Grows st)) done (commit-Grows cm q st)
Step-Grows {st} {st'} (begins s q done) = subst (OkOf (Grows st)) done (create_session-Grows s q st)

Reach-Grows : {st st' : Store} → Reach st st' → Grows st st'
Reach-Grows {st} here = same-Grows st st refl refl
Reach-Grows (next r s) = trans-Grows (Reach-Grows r) (Step-Grows s)

Reach-IsKnown :
    (sid cid k fp : ℕ) (st st' : Store)
    → Reach st st'
    → IsKnown sid cid k fp st
    → IsKnown sid cid k fp st'
Reach-IsKnown sid cid k fp st st' r h =
    let since = Reach-Since sid r in
    let grows = Reach-Grows r in
    let (c, at, own) = h.candidate in
    let (c', at', own') = since.owner cid c at in
    let (s, stored) = h.session in
    let (s', stored', le, same) = since.session s stored in
    record {
      bound = record {
        bound = h.bound.bound;
        found = grows.binding tuning_transition k h.bound.bound h.bound.found;
        aggregate = h.bound.aggregate;
        fingerprint = h.bound.fingerprint;
      };
      logged = record {
        logged = h.logged.logged;
        found = grows.event tuning_transition candidate_half k h.logged.logged h.logged.found;
        aggregate = h.logged.aggregate;
        fingerprint = h.logged.fingerprint;
      };
      candidate = (c', at', own' ∙ own);
      session = (s', stored');
    }

-- What a fresh `record_candidate_result` leaves behind.
run_fresh-IsKnown :
    (sid cid : ℕ) (r : Results) (now k fp : ℕ) (st : Store)
    → OkOf (IsKnown sid cid k fp) (run_fresh sid (records cid r) now (keyed k fp) st)
unfolding run_fresh decide commit read_candidate get_candidate with_results
run_fresh-IsKnown sid cid r now k fp st =
    let P = IsKnown sid cid k fp in
    let found = get_candidate cid st in
    let total = total_executions sid st in
    OkOf-or_raise P (get_session sid st) _ _ (λ s read.
      OkOf-bind P (record_candidate_result cid r now s found total) _ (λ d decided.
        go s d (session_id_of sid s st read) (
          subst (OkOf (Saves (IsResult cid r s found total))) decided
            (record_candidate_result-IsResult cid r now s found total))))
  where
    go :
        (s : Session) (d : Decision)
        → s.session_id ≡ sid
        → Saves (IsResult cid r s (get_candidate cid st) (total_executions sid st)) d
        → OkOf (IsKnown sid cid k fp) (settle (keyed k fp) st d)
    go s unchanged id h = absurd h
    go s (commits cm) id h =
        let is_cid : h.candidate.candidate_id ≡ cid =
          key-find_row candidate_key cid h.candidate st.candidates h.read in
        let s' : Session = record s { version = suc s.version } in
        let c' = with_results r s.status h.candidate in
        let saved = commit (save_both s' c' s.version h.candidate.version) (keyed k fp) st in
        rw h.commit_is (
          subst (λ i. OkOf (IsKnown i cid k fp) saved) id
            (subst (λ i. OkOf (IsKnown s.session_id i k fp) saved) is_cid
              (save_both-IsKnown s' c' s.version h.candidate.version k fp st)))

-- A keyed `record_candidate_result` that has returned, fresh or replayed, returns again with the same
-- key and request, and changes nothing, at any later time and behind whatever transactions of any
-- callers have followed, each of which keeps the session of a candidate that it saves.
pub recorded_again-run_call :
    (sid cid : ℕ) (r : Results) (now k fp later : ℕ) (before after store : Store)
    → run_call sid (records cid r) now (keyed k fp) before ≡ returned after
    → Reach after store
    → run_call sid (records cid r) later (keyed k fp) store ≡ returned store
unfolding run_call replays
recorded_again-run_call sid cid r now k fp later before after store done reach =
    let known : IsKnown sid cid k fp after = subst (OkOf (IsKnown sid cid k fp)) done (
      OkOf-bind (IsKnown sid cid k fp) (replay_transition sid cid (keyed k fp) before) _ (λ b e.
        go b (
          subst (OkOf (If (IsKnown sid cid k fp before))) e
            (replay-IsKnown sid cid k fp before)))) in
    rw (IsKnown-replay sid cid k fp store (Reach-IsKnown sid cid k fp after store reach known)) refl
  where
    go :
        (b : Bool)
        → If (IsKnown sid cid k fp before) b
        → OkOf
            (IsKnown sid cid k fp)
            (unless_replayed sid (records cid r) now (keyed k fp) before b)
    go true known = known
    go false fresh = run_fresh-IsKnown sid cid r now k fp before
