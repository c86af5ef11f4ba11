-- ===== src/Tuning/Decided.antt =====
-- What is known of a decision of src/azure_sql_mcp/tuning_sessions.py that asks for a save.
use azure_sql_mcp.Shared.{
  ℕ, ◌≤◌, Bool-cases, inl, inr, ◌≡◌, refl, subst, Bool, true, false, not, ◌&&◌, ◌||◌, Option, none,
  some, ◌==◌, if◌then◌else◌, arith, ltb,
}
use azure_sql_mcp.Shared.Raising.{OkOf, OkOf-bind, OkOf-require, OkOf-weaken}
use azure_sql_mcp.Tuning.{Session, Candidate, is_terminal, returned, SessionStatus}
use azure_sql_mcp.Tuning.Decide.{
  has, candidate_in, is_past_deadline, is_created, is_screening, is_working, is_active,
  is_finalist_validation, screen, promote, with_finalist, has_code, proof_contract_required,
  is_inconclusive, selected, is_selectable, is_empty, is_finalist, start_screening,
  mark_candidate_finalist, recover_candidate_for_finalist, complete_session, cancel_session,
  add_candidate,
}
use azure_sql_mcp.Tuning.Service.{
  Call, starts_screening, adds, marks_finalist, records, recovers, completes, cancels, decide,
  candidate_of,
}
use azure_sql_mcp.Tuning.Asked.{OwnedBy, rank, Onward, IsAbout, Asks, IsIn, candidate_in-IsIn}
use azure_sql_mcp.Tuning.Recorded.{record_candidate_result-IsResult, IsResult-IsAbout}

with_finalist-id : (cid : ℕ) (s : Session) → (with_finalist cid s).session_id ≡ s.session_id
unfolding with_finalist
with_finalist-id cid s = ground arith

abbrev opens : SessionStatus → Bool
opens status = is_created status || is_screening status

opens_active :
    (status : SessionStatus) → opens status ≡ true → (is_active status ≡ true) × (rank status ≤ 1)
opens_active SessionStatus.created e = (refl, omega arith)
opens_active SessionStatus.screening e = (refl, omega arith)
opens_active SessionStatus.finalist_validation e = cc
opens_active SessionStatus.completed e = cc
opens_active SessionStatus.cancelled e = cc

works_active :
    (status : SessionStatus)
    → is_working status ≡ true
    → (is_active status ≡ true)
      × (rank status
          ≤ rank (if is_screening status then SessionStatus.finalist_validation else status))
works_active SessionStatus.created e = cc
works_active SessionStatus.screening e = (refl, omega arith)
works_active SessionStatus.finalist_validation e = (refl, omega arith)
works_active SessionStatus.completed e = cc
works_active SessionStatus.cancelled e = cc

with_finalist-Onward :
    (cid : ℕ) (s : Session) → is_working s.status ≡ true → Onward s (with_finalist cid s)
unfolding with_finalist
with_finalist-Onward cid s working =
    let (active, up) = works_active s.status working in
    elim (Bool-cases (has cid s.finalist_candidate_ids)) [
      | inl there ↦ rw there (record { active = active; onward = up; limits = refl })
      | inr not_there ↦ rw not_there (record { active = active; onward = up; limits = refl })
    ]

below_end : (status : SessionStatus) → is_active status ≡ true → rank status ≤ 3
below_end SessionStatus.created e = omega arith
below_end SessionStatus.screening e = omega arith
below_end SessionStatus.finalist_validation e = omega arith
below_end SessionStatus.completed e = omega arith
below_end SessionStatus.cancelled e = omega arith

module _ (s : Session) (found : Option Candidate) (total : ℕ) where
  start_screening-IsAbout :
      (now : ℕ) → OkOf (Asks (IsAbout s none found total)) (start_screening now s)
  unfolding start_screening
  start_screening-IsAbout now =
      let P = Asks (IsAbout s none found total) in
      OkOf-require P (is_created s.status || is_screening s.status) _ _ (λ opened.
        OkOf-require P (not (is_past_deadline s now)) _ _
          (λ timely. go opened (is_screening s.status)))
    where
      go :
          is_created s.status || is_screening s.status ≡ true
          → (b : Bool) → OkOf (Asks (IsAbout s none found total)) (screen s b)
      go opened true = tt
      go opened false =
          OkOf-require (Asks (IsAbout s none found total)) (not (is_empty s.candidate_ids)) _ _
            (λ some_there. record {
              about = refl;
              expected = refl;
              owned = tt;
              moves = tt;
              spends = tt;
              follows = record {
                active = (opens_active s.status opened).0;
                onward = (opens_active s.status opened).1;
                limits = refl;
              };
            })

  promote-IsAbout :
      (cid : ℕ) (c : Candidate) (b : Bool)
      → is_working s.status ≡ true
      → found ≡ some c
      → c.session_id ≡ s.session_id
      → OkOf (Asks (IsAbout s (some cid) found total)) (promote s c b)
  promote-IsAbout cid c true working at own = tt
  promote-IsAbout cid c false working at own = rw at (record {
    about = with_finalist-id c.candidate_id s;
    expected = refl;
    owned = own;
    moves = (refl, refl);
    follows = with_finalist-Onward c.candidate_id s working;
    spends = record {
      executions = λ le. omega (arith, le);
      runs = λ h. record { screens = h.screens; finalists = h.finalists; cases = h.cases };
    };
  })

  mark_candidate_finalist-IsAbout :
      (cid now : ℕ)
      → OkOf (Asks (IsAbout s (some cid) found total)) (mark_candidate_finalist cid now s found)
  unfolding mark_candidate_finalist
  mark_candidate_finalist-IsAbout cid now =
      let P = Asks (IsAbout s (some cid) found total) in
      OkOf-require P (is_working s.status) _ _ (λ working.
        OkOf-bind P (candidate_in s cid found) _ (λ c e.
          OkOf-require P (not (is_past_deadline s now)) _ _ (λ timely.
            OkOf-require P (not (is_terminal c.state)) _ _ (λ running.
              let (at, own) = subst (OkOf (IsIn s found)) e (candidate_in-IsIn s cid found) in
              promote-IsAbout cid c
                (is_finalist c.state
                  && (has cid s.finalist_candidate_ids && is_finalist_validation s.status))
                working at own))))

  recover_candidate_for_finalist-IsAbout :
      (cid now : ℕ)
      → OkOf
          (Asks (IsAbout s (some cid) found total))
          (recover_candidate_for_finalist cid now s found)
  unfolding recover_candidate_for_finalist
  recover_candidate_for_finalist-IsAbout cid now =
      let P = Asks (IsAbout s (some cid) found total) in
      OkOf-require P (is_working s.status) _ _ (λ working.
        OkOf-bind P (candidate_in s cid found) _ (λ c e.
          OkOf-require P
            (is_inconclusive c.state
              && (has_code proof_contract_required c.failure_code
                  && (ltb 0 c.screen_runs && (c.finalist_runs == 0 && ltb 0 c.executions))))
            _ _
            (λ legacy. OkOf-require P (not (is_past_deadline s now)) _ _ (λ timely.
              let (at, own) = subst (OkOf (IsIn s found)) e (candidate_in-IsIn s cid found) in
              rw at (record {
                about = with_finalist-id cid s;
                expected = refl;
                owned = own;
                moves = (refl, refl);
                follows = with_finalist-Onward cid s working;
                spends = record {
                  executions = λ le. omega (arith, le);
                  runs =
                      λ h. record { screens = h.screens; finalists = h.finalists; cases = h.cases };
                };
              })))))

  selected-OwnedBy :
      (cid : ℕ) (scope : Bool) (u : Unit {0})
      → selected s (some cid) scope found ≡ returned u
      → OwnedBy s (some cid) found
  selected-OwnedBy cid scope u e = subst (OkOf (λ _. OwnedBy s (some cid) found)) e (
      OkOf-bind (λ _. OwnedBy s (some cid) found) (candidate_in s cid found) _
        (λ c at.
          OkOf-require (λ _. OwnedBy s (some cid) found) (is_selectable scope c.state) _ _
            (λ selectable.
              let (is, own) = subst (OkOf (IsIn s found)) at (candidate_in-IsIn s cid found) in
              rw is own)))

  selected_owned :
      (chosen : Option ℕ) (scope : Bool) (u : Unit {0})
      → selected s chosen scope found ≡ returned u
      → OwnedBy s chosen found
  selected_owned none scope u e = tt
  selected_owned (some cid) scope u e = selected-OwnedBy cid scope u e

  complete_session-IsAbout :
      (chosen : Option ℕ) (scope : Bool)
      → OkOf (Asks (IsAbout s chosen found total)) (complete_session chosen scope s found)
  unfolding complete_session
  complete_session-IsAbout chosen scope =
      let P = Asks (IsAbout s chosen found total) in
      OkOf-require P (is_active s.status) _ _ (λ active.
        OkOf-bind P (selected s chosen scope found) _ (λ u e. record {
          about = refl;
          expected = refl;
          owned = selected_owned chosen scope u e;
          moves = tt;
          spends = tt;
          follows = record { active = active; onward = below_end s.status active; limits = refl };
        }))

  cancel_session-IsAbout : OkOf (Asks (IsAbout s none found total)) (cancel_session s)
  unfolding cancel_session
  cancel_session-IsAbout =
      OkOf-require (Asks (IsAbout s none found total)) (is_active s.status) _ _ (λ active. record {
        about = refl;
        expected = refl;
        owned = tt;
        moves = tt;
        spends = tt;
        follows = record { active = active; onward = below_end s.status active; limits = refl };
      })

  add_candidate-IsAbout :
      (cid : ℕ) (lineage : Bool) (now : ℕ)
      → OkOf (Asks (IsAbout s none found total)) (add_candidate cid lineage now s)
  unfolding add_candidate
  add_candidate-IsAbout cid lineage now =
      let P = Asks (IsAbout s none found total) in
      OkOf-require P (is_active s.status) _ _ (λ active.
        OkOf-require P (not (is_finalist_validation s.status) || lineage) _ _ (λ valid.
          OkOf-require P (not (is_past_deadline s now)) _ _ (λ timely. record {
            about = refl;
            expected = refl;
            owned = tt;
            moves = tt;
            follows = active;
            spends = (
              refl,
              record { screens = omega arith; finalists = omega arith; cases = omega arith },
            );
          })))

  -- Whatever a call decides to save, it expects the version of the session that it read, and saves no
  -- other candidate than the one it read, within what the session allows.
  pub decide-IsAbout :
      (call : Call) (now : ℕ)
      → OkOf (Asks (IsAbout s (candidate_of call) found total)) (decide call now s found total)
  unfolding decide
  decide-IsAbout starts_screening now = start_screening-IsAbout now
  decide-IsAbout (adds cid lineage) now = add_candidate-IsAbout cid lineage now
  decide-IsAbout (marks_finalist cid) now = mark_candidate_finalist-IsAbout cid now
  decide-IsAbout (records cid r) now =
      OkOf-weaken (IsResult-IsAbout cid r s found total) _
        (record_candidate_result-IsResult cid r now s found total)
  decide-IsAbout (recovers cid) now = recover_candidate_for_finalist-IsAbout cid now
  decide-IsAbout (completes chosen scope) now = complete_session-IsAbout chosen scope
  decide-IsAbout cancels now = cancel_session-IsAbout
