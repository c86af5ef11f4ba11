-- ===== src/Tuning/Interleaved.antt =====
-- Calls of src/azure_sql_mcp/tuning_sessions.py with transactions of other callers between their reads
-- and their save.
use azure_sql_mcp.Shared.{ℕ, ◌≡◌, refl, sym, ap, ◌∙◌, subst, ◌⊎◌, inl, inr, Option, none, some}
use azure_sql_mcp.Shared.Raising.{OkOf}
use azure_sql_mcp.Tuning.{Session, Candidate, Store, Result, raised, returned}
use azure_sql_mcp.Tuning.Save.{get_session, get_candidate}
use azure_sql_mcp.Tuning.Transactions.{Request, Commit, save, save_both, attach}
use azure_sql_mcp.Tuning.Decide.{Decision, unchanged, commits}
use azure_sql_mcp.Tuning.Service.{
  Call, candidate_of, read_candidate, read_over, total_executions, decide, settle, run_fresh,
}
use azure_sql_mcp.Tuning.Locked.{SameRows}
use azure_sql_mcp.Tuning.Effect.{Effect, kept, saved, saved_both, created, session_id_of}
use azure_sql_mcp.Tuning.Committed.{commit-Effect}
use azure_sql_mcp.Tuning.History.{
  step, Reach, here, next, Since, Reach-Since, trans-Since, KeepsOwner,
}
use azure_sql_mcp.Tuning.Asked.{session_of, expected_of, IsAbout, Asks, OwnedBy, Moves}
use azure_sql_mcp.Tuning.Decided.{decide-IsAbout}
use azure_sql_mcp.Tuning.Still.{StillAt-between, read_over_again, owner_inj, read_over_found}

-- A call: it reads its session, then its candidate, then the executions, then saves, each on the store
-- as it is at that moment.
pub record Interleaved (sid : ℕ) (call : Call) (now : ℕ) (q : Request) (before after : Store)
    : Type 0 where
  pub at_session : Store
  pub at_candidate : Store
  pub at_total : Store
  pub first : Reach at_session at_candidate
  pub second : Reach at_candidate at_total
  pub third : Reach at_total before
  pub session : Session
  pub decision : Decision
  pub read : get_session sid at_session ≡ some session
  pub decided :
      decide call now session (read_candidate call at_candidate) (total_executions sid at_total)
      ≡ returned decision
  pub settled : settle q before decision ≡ returned after

-- A transaction that writes finds its session at the version that it expects.
Effect-expected :
    (st st' : Store) (cm : Commit)
    → Effect st st' cm
    → SameRows st st'
      ⊎ ((s : Session) × (get_session (session_of cm) st ≡ some s) × (s.version ≡ expected_of cm))
Effect-expected st st' cm (kept cm' h) = inl h
Effect-expected st st' cm (saved s e w) = inr (w.current, w.found, w.expected_is)
Effect-expected st st' cm (saved_both s c e ec own w) = inr (w.current, w.found, w.expected_is)
Effect-expected st st' cm (created sid c e ordinal current own at fresh room w) =
    inr (w.current, w.found, w.expected_is)

pub returned_inj : (a b : Store) → (let m : Result Store = returned a in m) ≡ returned b → a ≡ b
returned_inj a b e = ap (λ (m : Result Store). elim m [ raised cause ↦ a | returned st ↦ st ]) e

module _ (sid : ℕ) (call : Call) (now : ℕ) (q : Request) (before after : Store)
    (x : Interleaved sid call now q before after) where
  found : Option Candidate
  found = read_candidate call x.at_candidate

  total : ℕ
  total = total_executions sid x.at_total

  from_candidate : Since sid x.at_candidate before
  from_candidate =
      trans-Since sid x.at_candidate x.at_total before (Reach-Since sid x.second)
        (Reach-Since sid x.third)

  from_session : Since sid x.at_session before
  from_session =
      trans-Since sid x.at_session x.at_candidate before (Reach-Since sid x.first) from_candidate

  decided-Asks : Asks (IsAbout x.session (candidate_of call) found total) x.decision
  unfolding found total
  decided-Asks =
      subst (OkOf (Asks (IsAbout x.session (candidate_of call) found total))) x.decided
        (decide-IsAbout x.session found total call now)

  id_of_session : x.session.session_id ≡ sid
  id_of_session = session_id_of sid x.session x.at_session x.read

  -- Where the session is stored at the version that was read, all is read again as it was.
  run_again :
      (t : Session)
      → get_session sid before ≡ some t
      → t.version ≡ x.session.version
      → OwnedBy x.session (candidate_of call) found
      → run_fresh sid call now q before ≡ returned after
  unfolding found total run_fresh read_candidate total_executions
  run_again t at same own =
      let (a, b) =
        StillAt-between sid x.at_session x.at_candidate before x.session t x.read at same
          (Reach-Since sid x.first) from_candidate in
      let (c, d) =
        StillAt-between sid x.at_session x.at_total before x.session t x.read at same
          (trans-Since sid x.at_session x.at_candidate x.at_total (Reach-Since sid x.first)
            (Reach-Since sid x.second))
          (Reach-Since sid x.third) in
      let again : get_session sid before ≡ some x.session = b.session ∙ a.session ∙ x.read in
      let reads : read_over (candidate_of call) before
          ≡ read_over (candidate_of call) x.at_candidate =
        read_over_again sid (candidate_of call) x.at_candidate before x.session found b
          id_of_session refl own in
      rw (again, reads, d.candidates, x.decided, x.settled) refl

  settled_run :
      (d : Decision)
      → Asks (IsAbout x.session (candidate_of call) found total) d
      → settle q before d ≡ returned after
      → SameRows before after ⊎ (run_fresh sid call now q before ≡ returned after)
  settled_run unchanged asks done =
      inl (rw (returned_inj before after done) (record { sessions = refl; candidates = refl }))
  settled_run (commits cm) asks done =
      elim (Effect-expected before after cm
        (subst (OkOf (λ st'. Effect before st' cm)) done (commit-Effect cm q before))) [
          | inl same ↦ inl same
          | inr at ↦
              let (t, stored, version) = at in
              inr (
                run_again t
                  (subst (λ i. get_session i before ≡ some t) (asks.about ∙ id_of_session) stored)
                  (version ∙ asks.expected) asks.owned)
        ]

  -- A call whose reads and save have transactions of any other callers between them, each of which
  -- keeps the session of a candidate that it saves, leaves the sessions and the candidates as they are,
  -- or does to the store that it saves to what it would do there with nothing in between.
  pub Interleaved-run_fresh :
      SameRows before after ⊎ (run_fresh sid call now q before ≡ returned after)
  unfolding found total
  Interleaved-run_fresh = settled_run x.decision decided-Asks x.settled

  Moves-KeepsOwner :
      (cm : Commit) (o : Option Candidate)
      → Moves cm o
      → read_over (candidate_of call) x.at_candidate ≡ o
      → KeepsOwner cm before
  Moves-KeepsOwner (save s e) o m at = tt
  Moves-KeepsOwner (attach i c e) o m at = tt
  Moves-KeepsOwner (save_both s c e ec) none m at = absurd m
  Moves-KeepsOwner (save_both s c e ec) (some y) (same_id, same_owner) at = λ old stored.
      let (y', stored', same) =
        from_candidate.owner y.candidate_id y
          (read_over_found (candidate_of call) x.at_candidate y at) in
      let one : some old ≡ some y' =
        sym stored ∙ ap (λ i. get_candidate i before) same_id ∙ stored' in
      owner_inj old y' one ∙ same ∙ sym same_owner

  settled-Reach :
      (d : Decision)
      → Asks (IsAbout x.session (candidate_of call) found total) d
      → settle q before d ≡ returned after
      → Reach before after
  unfolding found total read_candidate
  settled-Reach unchanged asks done = rw (← returned_inj before after done) here
  settled-Reach (commits cm) asks done =
      next here (step cm q (Moves-KeepsOwner cm _ asks.moves refl) done)

  -- Such a call is itself one of the transactions that may come between the reads and the save of others.
  pub Interleaved-Reach : Reach before after
  Interleaved-Reach = settled-Reach x.decision decided-Asks x.settled
