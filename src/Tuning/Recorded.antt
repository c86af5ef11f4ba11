-- ===== src/Tuning/Recorded.antt =====
-- Results that `record_candidate_result` of src/azure_sql_mcp/tuning_sessions.py asks to save.
use azure_sql_mcp.Shared.{
  ℕ, suc, ◌+◌, ◌≤◌, ◌≡◌, refl, subst, Bool, true, false, not, ◌&&◌, ◌||◌, Option, some, arith, leb,
  max,
}
use azure_sql_mcp.Shared.Raising.{OkOf, OkOf-bind, OkOf-require}
use azure_sql_mcp.Tuning.{Session, Candidate, is_terminal, SessionStatus}
use azure_sql_mcp.Tuning.Transactions.{Commit, save_both}
use azure_sql_mcp.Tuning.Decide.{
  Decision, unchanged, commits, candidate_in, is_past_deadline, is_created, is_screening, is_active,
  is_finalist_validation,
}
use azure_sql_mcp.Tuning.Results.{
  Results, ends_candidate, screens, validates, fits, with_results, record_candidate_result,
}
use azure_sql_mcp.Tuning.Asked.{Spent, IsAbout, Asks, IsIn, candidate_in-IsIn}

-- What a result must meet to be saved.
pub record IsResult (cid : ℕ) (r : Results) (s : Session) (found : Option Candidate) (total : ℕ)
    (cm : Commit) : Type 0 where
  pub candidate : Candidate
  pub read : found ≡ some candidate
  pub own : candidate.session_id ≡ s.session_id
  pub active : is_active s.status ≡ true
  pub running : is_terminal candidate.state ≡ false
  pub screened : fits r.screen_runs candidate.screen_runs s.screen_runs_per_candidate ≡ true
  pub validated : fits r.finalist_runs candidate.finalist_runs s.finalist_runs_per_candidate ≡ true
  pub cases : max candidate.parameter_cases r.parameter_cases ≤ s.parameter_case_limit
  pub executed : total + r.executions ≤ s.execution_limit
  pub commit_is :
      cm
      ≡ save_both
          (record s { version = suc s.version })
          (with_results r s.status candidate)
          s.version
          candidate.version

-- A decision that asks for a save, with `P` of it.
abbrev pub Saves : (Commit → Type 0) → Decision → Type 0
Saves P unchanged = ⊥
Saves P (commits cm) = P cm

negated : (b : Bool) → not b ≡ true → b ≡ false
negated b e = ground arith

pub record_candidate_result-IsResult :
    (cid : ℕ) (r : Results) (now : ℕ) (s : Session) (found : Option Candidate) (total : ℕ)
    → OkOf (Saves (IsResult cid r s found total)) (record_candidate_result cid r now s found total)
unfolding record_candidate_result
record_candidate_result-IsResult cid r now s found total =
    let P = Saves (IsResult cid r s found total) in
    OkOf-require P (is_active s.status) _ _ (λ active.
      OkOf-bind P (candidate_in s cid found) _ (λ c e.
        OkOf-require P (not (is_terminal c.state)) _ _ (λ running.
          OkOf-require P (ends_candidate r.state || not (is_past_deadline s now)) _ _ (λ timely.
            OkOf-require P
              (not (is_created s.status) || (ends_candidate r.state && is_past_deadline s now)) _ _
              (λ begun.
                OkOf-require P (not (screens r.state) || is_screening s.status) _ _ (λ screening.
                  OkOf-require P (not (validates r.state) || is_finalist_validation s.status) _ _
                    (λ validating.
                      OkOf-require P (fits r.screen_runs c.screen_runs s.screen_runs_per_candidate)
                        _ _
                        (λ screened.
                          OkOf-require P
                            (fits r.finalist_runs c.finalist_runs s.finalist_runs_per_candidate) _ _
                            (λ validated.
                              OkOf-require P
                                (leb (max c.parameter_cases r.parameter_cases)
                                  s.parameter_case_limit)
                                _ _
                                (λ cases.
                                  OkOf-require P (leb (total + r.executions) s.execution_limit) _ _
                                    (λ executed.
                                      let (at, own) =
                                        subst (OkOf (IsIn s found)) e
                                          (candidate_in-IsIn s cid found) in
                                      record {
                                        candidate = c;
                                        read = at;
                                        own = own;
                                        active = active;
                                        running = negated (is_terminal c.state) running;
                                        screened = screened;
                                        validated = validated;
                                        cases = ground (arith, cases);
                                        executed = ground (arith, executed);
                                        commit_is = refl;
                                      })))))))))))

with_results-ids :
    (r : Results) (status : SessionStatus) (c : Candidate)
    → ((with_results r status c).candidate_id ≡ c.candidate_id)
      × ((with_results r status c).session_id ≡ c.session_id)
unfolding with_results
with_results-ids r status c = (refl, refl)

-- `fits` is a bound where there was one before.
fits-≤ :
    (runs before limit : ℕ) → fits runs before limit ≡ true → before ≤ limit → before + runs ≤ limit
fits-≤ runs before limit ok le = ground (arith, ok)

with_results-Spent :
    (r : Results) (s : Session) (c : Candidate) (total : ℕ)
    → fits r.screen_runs c.screen_runs s.screen_runs_per_candidate ≡ true
    → fits r.finalist_runs c.finalist_runs s.finalist_runs_per_candidate ≡ true
    → max c.parameter_cases r.parameter_cases ≤ s.parameter_case_limit
    → total + r.executions ≤ s.execution_limit
    → Spent s total c (with_results r s.status c)
unfolding with_results
with_results-Spent r s c total screened validated cases executed = record {
  executions = λ le. omega (arith, executed);
  runs = λ h. record {
    screens = fits-≤ r.screen_runs c.screen_runs s.screen_runs_per_candidate screened h.screens;
    finalists =
        fits-≤ r.finalist_runs c.finalist_runs s.finalist_runs_per_candidate validated h.finalists;
    cases = cases;
  };
}

pub IsResult-IsAbout :
    (cid : ℕ) (r : Results) (s : Session) (found : Option Candidate) (total : ℕ) (d : Decision)
    → Saves (IsResult cid r s found total) d
    → Asks (IsAbout s (some cid) found total) d
IsResult-IsAbout cid r s found total unchanged h = absurd h
IsResult-IsAbout cid r s found total (commits cm) h =
    rw (h.commit_is, h.read)
      (record {
        about = refl;
        expected = refl;
        owned = h.own;
        moves = with_results-ids r s.status h.candidate;
        follows = record { active = h.active; onward = omega arith; limits = refl };
        spends = with_results-Spent r s h.candidate total h.screened h.validated h.cases h.executed;
      })
