-- ===== src/Tuning/Refused.antt =====
-- A call of src/azure_sql_mcp/tuning_sessions.py that raises though nobody else writes.
use azure_sql_mcp.Shared.{
  ℕ, suc, ◌≡◌, refl, sym, ap, ◌∙◌, true, false, Option, some, List, ◌==◌, arith, ==_iff,
}
use azure_sql_mcp.Shared.Rows.{put_row, key-find_row}
use azure_sql_mcp.Tuning.{
  Session, CandidateState, Candidate, Store, raised, returned, concurrency, is_terminal,
  session_key, candidate_key,
}
use azure_sql_mcp.Tuning.Save.{
  get_session, get_candidate, save_over, session_version, candidate_version, save_session_locked,
  save_candidate_locked, save_locked,
}
use azure_sql_mcp.Tuning.Transactions.{
  Request, replay_transition, save_session_and_candidate, commit, finish_both,
}
use azure_sql_mcp.Tuning.Decide.{
  has, is_working, is_finalist, is_past_deadline, with_finalist, mark_candidate_finalist,
}
use azure_sql_mcp.Tuning.Service.{marks_finalist, decide, read_candidate, run_fresh}
use azure_sql_mcp.Tuning.Effect.{session_id_of}

-- A row is not saved under the version that it has.
save_over-same :
    {A : Type 0} (key version : A → ℕ) (x current : A) (rows : List A) (o : Option A)
    → o ≡ some current
    → version x ≡ version current
    → save_over key version x false (some (version current)) rows o ≡ raised concurrency
save_over-same key version x current rows o at same = rw at (ground (arith, same))

-- A row is saved under the next version.
save_over-next :
    {A : Type 0} (key version : A → ℕ) (x current : A) (rows : List A) (o : Option A)
    → o ≡ some current
    → version x ≡ suc (version current)
    → save_over key version x false (some (version current)) rows o ≡ returned (put_row key x rows)
save_over-next key version x current rows o at next = rw at (ground (arith, next))

save_session_locked-same :
    (s' s : Session) (st : Store)
    → get_session s'.session_id st ≡ some s
    → s'.version ≡ s.version
    → save_session_locked s' (some s.version) st ≡ raised concurrency
unfolding save_session_locked save_locked get_session
save_session_locked-same s' s st at same =
    rw (save_over-same session_key session_version s' s st.sessions _ at same) refl

save_candidate_locked-next :
    (c' c : Candidate) (st : Store)
    → get_candidate c'.candidate_id st ≡ some c
    → c'.version ≡ suc c.version
    → save_candidate_locked c' false (some c.version) st
      ≡ returned (record st { candidates = put_row candidate_key c' st.candidates })
unfolding save_candidate_locked save_locked get_candidate
save_candidate_locked-next c' c st at next =
    rw (save_over-next candidate_key candidate_version c' c st.candidates _ at next) refl

-- Saving a candidate, and its session under the version that the session has.
stale-finish_both :
    (s s' : Session) (c c' : Candidate) (q : Request) (st : Store)
    → get_session s'.session_id st ≡ some s
    → get_candidate c'.candidate_id st ≡ some c
    → s'.version ≡ s.version
    → c'.version ≡ suc c.version
    → finish_both s' c' s.version c.version q st false ≡ raised concurrency
unfolding get_session
stale-finish_both s s' c c' q st at_session at_candidate same next =
    let after = record st { candidates = put_row candidate_key c' st.candidates } in
    rw
      (
        save_candidate_locked-next c' c st at_candidate next,
        save_session_locked-same s' s after at_session same,
      )
      refl

with_finalist-again :
    (cid : ℕ) (s : Session)
    → has cid s.finalist_candidate_ids ≡ true
    → ((with_finalist cid s).session_id ≡ s.session_id)
      × ((with_finalist cid s).version ≡ s.version)
unfolding with_finalist
with_finalist-again cid s there = rw there (refl, refl)

module _ (sid cid now : ℕ) (q : Request) (st : Store) (s : Session) (c : Candidate) where
  stale-commit :
      (c' : Candidate)
      → get_session sid st ≡ some s
      → get_candidate cid st ≡ some c
      → c.session_id ≡ s.session_id
      → has c.candidate_id s.finalist_candidate_ids ≡ true
      → c'.candidate_id ≡ c.candidate_id
      → c'.session_id ≡ c.session_id
      → c'.version ≡ suc c.version
      → replay_transition sid cid q st ≡ returned false
      → save_session_and_candidate (with_finalist c.candidate_id s) c' s.version c.version q st
        ≡ raised concurrency
  unfolding save_session_and_candidate get_candidate
  stale-commit c' at_session at_candidate own there same_id same_owner next fresh =
      let (id, version) = with_finalist-again c.candidate_id s there in
      let s' = with_finalist c.candidate_id s in
      let is_sid : s'.session_id ≡ sid = id ∙ session_id_of sid s st at_session in
      let is_cid : c'.candidate_id ≡ cid =
        same_id ∙ key-find_row candidate_key cid c st.candidates at_candidate in
      let mine : c'.session_id == s'.session_id ≡ true =
        (==_iff c'.session_id s'.session_id).1 (same_owner ∙ own ∙ sym id) in
      let again : replay_transition s'.session_id c'.candidate_id q st ≡ returned false =
        ap (λ i. replay_transition i c'.candidate_id q st) is_sid
        ∙ ap (λ i. replay_transition sid i q st) is_cid
        ∙ fresh in
      let stored : get_session s'.session_id st ≡ some s =
        ap (λ i. get_session i st) is_sid ∙ at_session in
      let stored' : get_candidate c'.candidate_id st ≡ some c =
        ap (λ i. get_candidate i st) is_cid ∙ at_candidate in
      rw (mine, again, stale-finish_both s s' c c' q st stored stored' version next) refl

  -- A candidate of a session in screening or finalist validation, before its deadline, is among the
  -- finalists already, and its state is neither terminal nor `finalist`. Then marking it, with a key of
  -- which no transition is recorded or with none, raises a concurrency error, although nobody else
  -- writes: the session is saved under the version that it has.
  pub marked_again-concurrency :
      get_session sid st ≡ some s
      → get_candidate cid st ≡ some c
      → c.session_id ≡ s.session_id
      → is_working s.status ≡ true
      → has cid s.candidate_ids ≡ true
      → has cid s.finalist_candidate_ids ≡ true
      → is_past_deadline s now ≡ false
      → is_terminal c.state ≡ false
      → is_finalist c.state ≡ false
      → replay_transition sid cid q st ≡ returned false
      → run_fresh sid (marks_finalist cid) now q st ≡ raised concurrency
  unfolding run_fresh decide mark_candidate_finalist commit read_candidate get_candidate
  marked_again-concurrency at_session at_candidate own working listed there timely running moved_on
        fresh =
      let is_cid : c.candidate_id ≡ cid =
        key-find_row candidate_key cid c st.candidates at_candidate in
      let there' : has c.candidate_id s.finalist_candidate_ids ≡ true =
        ap (λ i. has i s.finalist_candidate_ids) is_cid ∙ there in
      let mine : c.session_id == s.session_id ≡ true = (==_iff c.session_id s.session_id).1 own in
      let c' : Candidate = record c { state = CandidateState.finalist; version = suc c.version } in
      rw
        (
          at_session,
          at_candidate,
          working,
          listed,
          mine,
          timely,
          running,
          moved_on,
          stale-commit c' at_session at_candidate own there' refl refl refl fresh,
        )
        refl
