-- ===== src/Tuning/Kept.antt =====
-- What every call of src/azure_sql_mcp/tuning_sessions.py keeps of all sessions, with transactions of
-- other callers between its reads and its save.
use azure_sql_mcp.Shared.{
  ℕ, suc, ◌≡◌, refl, sym, ap, ◌∙◌, subst, ◌⊎◌, inl, inr, true, Option, none, some, ◌==◌,
  if◌then◌else◌, arith, Bool-cases, ==_iff,
}
use azure_sql_mcp.Shared.Rows.{find_row, find_row-put_row}
use azure_sql_mcp.Shared.Raising.{OkOf, OkOf-bind, OkOf-or_raise, OkOf-weaken}
use azure_sql_mcp.Tuning.{Session, Candidate, Store, session_key}
use azure_sql_mcp.Tuning.Save.{get_session}
use azure_sql_mcp.Tuning.Transactions.{Request, Commit}
use azure_sql_mcp.Tuning.Decide.{Decision, unchanged, commits, is_active}
use azure_sql_mcp.Tuning.Service.{
  Call, candidate_of, read_candidate, total_executions, decide, settle, run_fresh,
}
use azure_sql_mcp.Tuning.Locked.{SameRows}
use azure_sql_mcp.Tuning.Effect.{Wrote, Effect, kept, saved, saved_both, created, session_id_of}
use azure_sql_mcp.Tuning.Committed.{commit-Effect}
use azure_sql_mcp.Tuning.Asked.{Onward, RunsWithin, IsAbout, Asks}
use azure_sql_mcp.Tuning.Decided.{decide-IsAbout}
use azure_sql_mcp.Tuning.Interleaved.{Interleaved, Interleaved-run_fresh}
use azure_sql_mcp.Tuning.Within.{
  IsWithin, session_inj, same-IsWithin, both-IsWithin, create-IsWithin, save-IsWithin, found-Over,
}

-- A call, with nothing in between, that asked for a save and returned.
pub record Ran (sid : ℕ) (call : Call) (st st' : Store) : Type 0 where
  pub session : Session
  pub asked : Commit
  pub read : get_session sid st ≡ some session
  pub about_it :
      IsAbout session (candidate_of call) (read_candidate call st) (total_executions sid st) asked
  pub effect : Effect st st' asked

pub run_fresh-Ran :
    (sid : ℕ) (call : Call) (now : ℕ) (q : Request) (st : Store)
    → OkOf (λ st'. SameRows st st' ⊎ Ran sid call st st') (run_fresh sid call now q st)
unfolding run_fresh
run_fresh-Ran sid call now q st =
    let P = λ (st' : Store). SameRows st st' ⊎ Ran sid call st st' in
    OkOf-or_raise P (get_session sid st) _ _ (λ s read.
      OkOf-bind P (decide call now s (read_candidate call st) (total_executions sid st)) _
        (λ d decided. go s read d (
          subst
            (OkOf (
              Asks
                (IsAbout s (candidate_of call) (read_candidate call st) (total_executions sid st))))
            decided
            (decide-IsAbout s (read_candidate call st) (total_executions sid st) call now))))
  where
    go :
        (s : Session)
        → get_session sid st ≡ some s
        → (d : Decision)
        → Asks (IsAbout s (candidate_of call) (read_candidate call st) (total_executions sid st)) d
        → OkOf (λ st'. SameRows st st' ⊎ Ran sid call st st') (settle q st d)
    go s read unchanged asks = inl (record { sessions = refl; candidates = refl })
    go s read (commits cm) asks =
        OkOf-weaken {Q = λ st'. SameRows st st' ⊎ Ran sid call st st'}
          (λ st' e.
            inr (record { session = s; asked = cm; read = read; about_it = asks; effect = e }))
          _ (commit-Effect cm q st)

-- A session that is stored before is stored behind: as it was, or, if it is the one that is called, at
-- its next version, which is allowed only while it is active and does not go back.
pub Changes : ℕ → Store → Store → Type 0
Changes sid st st' =
    (o : ℕ) (t : Session)
    → get_session o st ≡ some t
    → (t' : Session) × (get_session o st' ≡ some t')
      × ((t' ≡ t) ⊎ ((o ≡ sid) × (t'.version ≡ suc t.version) × Onward t t'))

same-Changes : (sid : ℕ) (st st' : Store) → SameRows st st' → Changes sid st st'
unfolding get_session Changes
same-Changes sid st st' same o t at = (t, ap (find_row session_key o) same.sessions ∙ at, inl refl)

Wrote-Changes :
    {sid e : ℕ} {s' : Session} {c' : Option Candidate} {st st' : Store} (s : Session)
    → Wrote sid e s' c' st st'
    → get_session sid st ≡ some s
    → Onward s s'
    → Changes sid st st'
unfolding get_session Changes
Wrote-Changes {sid} {e} {s'} {c'} {st} {st'} s w read on o t at = elim (Bool-cases (sid == o)) [
  | inl same ↦
      let is : sid ≡ o = (==_iff sid o).0 same in
      let one : s ≡ t =
        session_inj s t (sym read ∙ ap (λ i. find_row session_key i st.sessions) is ∙ at) in
      let stored : w.current ≡ s = session_inj w.current s (sym w.found ∙ read) in
      let next : s'.version ≡ suc s.version =
        w.next ∙ ap suc (sym w.expected_is ∙ ap (λ (x : Session). x.version) stored) in
      let (version, onward) =
        subst (λ x. (s'.version ≡ suc x.version) × Onward x s') one (next, on) in
      (s', now ∙ rw (w.same_id, same) refl, inr (sym is, version, onward))
  | inr apart ↦ (t, now ∙ rw (w.same_id, apart) at, inl refl)
]
  where
    now :
        find_row session_key o st'.sessions
        ≡ (if s'.session_id == o then some s' else find_row session_key o st.sessions)
    now = ap (find_row session_key o) w.sessions ∙ find_row-put_row session_key o s' st.sessions

module _ (sid : ℕ) (call : Call) (st st' : Store) where
  ran-IsWithin :
      (s : Session) (cm : Commit)
      → get_session sid st ≡ some s
      → IsAbout s (candidate_of call) (read_candidate call st) (total_executions sid st) cm
      → Effect st st' cm
      → IsWithin st
      → IsWithin st'
  unfolding read_candidate
  ran-IsWithin s cm read h (kept cm' same) = same-IsWithin st st' same
  ran-IsWithin s cm read h (saved s' e w) =
      let w' = subst (λ i. Wrote i e s' none st st') (h.about ∙ session_id_of sid s st read) w in
      save-IsWithin sid e s s' st st' w' read h.follows.limits w'.besides
  ran-IsWithin s cm read h (saved_both s' c e ec own w) =
      let id = h.about ∙ session_id_of sid s st read in
      let w' = subst (λ i. Wrote i e s' (some c) st st') id w in
      both-IsWithin sid e s s' c st st' w' read h.follows.limits (own ∙ id)
        (found-Over (candidate_of call) s s' c e ec (total_executions sid st) st
          (read_candidate call st) refl h.moves h.spends)
        w'.besides
  ran-IsWithin s cm read h (created o c e ordinal current own at fresh room w) =
      let is : current ≡ s =
        session_inj current s
          (sym at ∙ ap (λ i. get_session i st) (h.about ∙ session_id_of sid s st read) ∙ read) in
      let (idle, runs) = h.spends in
      let ok : RunsWithin s (record c { ordinal = ordinal }) = record {
        screens = runs.screens;
        finalists = runs.finalists;
        cases = runs.cases;
      } in
      create-IsWithin o e current _ (record c { ordinal = ordinal }) st st' w at refl own fresh room
        idle (subst (λ x. RunsWithin x (record c { ordinal = ordinal })) (sym is) ok) w.besides

  ran-Changes :
      (s : Session) (cm : Commit)
      → get_session sid st ≡ some s
      → IsAbout s (candidate_of call) (read_candidate call st) (total_executions sid st) cm
      → Effect st st' cm
      → Changes sid st st'
  ran-Changes s cm read h (kept cm' same) = same-Changes sid st st' same
  ran-Changes s cm read h (saved s' e w) =
      Wrote-Changes s
        (subst (λ i. Wrote i e s' none st st') (h.about ∙ session_id_of sid s st read) w) read
        h.follows
  ran-Changes s cm read h (saved_both s' c e ec own w) =
      Wrote-Changes s
        (subst (λ i. Wrote i e s' (some c) st st') (h.about ∙ session_id_of sid s st read) w) read
        h.follows
  ran-Changes s cm read h (created o c e ordinal current own at fresh room w) =
      let id = h.about ∙ session_id_of sid s st read in
      let is : current ≡ s =
        session_inj current s (sym at ∙ ap (λ i. get_session i st) id ∙ read) in
      let active : is_active current.status ≡ true =
        subst (λ (x : Session). is_active x.status ≡ true) (sym is) h.follows in
      subst (λ i. Changes i st st') id
        (Wrote-Changes current w at
          (record { active = active; onward = omega arith; limits = refl }))

module _ (sid : ℕ) (call : Call) (now : ℕ) (q : Request) (before after : Store) where
  ran : Interleaved sid call now q before after → SameRows before after ⊎ Ran sid call before after
  ran x = elim (Interleaved-run_fresh sid call now q before after x) [
    | inl same ↦ inl same
    | inr done ↦
        subst (OkOf (λ st'. SameRows before st' ⊎ Ran sid call before st')) done
          (run_fresh-Ran sid call now q before)
  ]

  -- Where the candidates of each session are within its limits, in number, in runs and parameter cases,
  -- and in their executions together, they are so behind a call, with transactions of any other callers
  -- between its reads and its save.
  pub Interleaved-IsWithin :
      Interleaved sid call now q before after → IsWithin before → IsWithin after
  Interleaved-IsWithin x h = elim (ran x) [
    | inl same ↦ same-IsWithin before after same h
    | inr r ↦ ran-IsWithin sid call before after r.session r.asked r.read r.about_it r.effect h
  ]

  -- Behind a call, with transactions of any other callers between its reads and its save, each session
  -- that was stored before the save is stored as it was, but for the session of the call, which may be at
  -- its next version instead: then it was active, with the same limits, and its status has not gone back.
  pub Interleaved-Changes : Interleaved sid call now q before after → Changes sid before after
  Interleaved-Changes x = elim (ran x) [
    | inl same ↦ same-Changes sid before after same
    | inr r ↦ ran-Changes sid call before after r.session r.asked r.read r.about_it r.effect
  ]
