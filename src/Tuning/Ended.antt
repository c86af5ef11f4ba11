-- ===== src/Tuning/Ended.antt =====
-- Calls of src/azure_sql_mcp/tuning_sessions.py on a session that is completed or cancelled.
use azure_sql_mcp.Shared.{
  ℕ, ◌≡◌, refl, ap, ◌∙◌, ◌⊎◌, inl, inr, Bool, Bool-cases, true, false, ◌||◌, Option, none, some,
}
use azure_sql_mcp.Tuning.{
  Session, SessionStatus, Candidate, Store, raised, returned, Result, ◌>>=◌, invalid_transition,
}
use azure_sql_mcp.Tuning.Save.{get_session, idempotent_aggregate}
use azure_sql_mcp.Tuning.Transactions.{Request, replay_transition}
use azure_sql_mcp.Tuning.Decide.{
  is_active, is_working, mark_candidate_finalist, start_screening, recover_candidate_for_finalist,
  complete_session, cancel_session, add_candidate, is_created, is_screening,
}
use azure_sql_mcp.Tuning.Results.{record_candidate_result}
use azure_sql_mcp.Tuning.Service.{
  Call, starts_screening, adds, marks_finalist, records, recovers, completes, cancels, decide,
  read_candidate, total_executions, run_fresh, replays, unless_replayed, run_call, replays,
  unless_replayed, run_call,
}

-- What no call does with a session that has ended.
ended :
    (status : SessionStatus)
    → is_active status ≡ false
    → (is_working status ≡ false) × (is_created status || is_screening status ≡ false)
ended SessionStatus.created e = cc
ended SessionStatus.screening e = cc
ended SessionStatus.finalist_validation e = cc
ended SessionStatus.completed e = (refl, refl)
ended SessionStatus.cancelled e = (refl, refl)

ended-decide :
    (call : Call) (now : ℕ) (s : Session) (found : Option Candidate) (total : ℕ)
    → is_active s.status ≡ false
    → decide call now s found total ≡ raised invalid_transition
unfolding decide start_screening add_candidate mark_candidate_finalist record_candidate_result
    recover_candidate_for_finalist complete_session cancel_session
ended-decide starts_screening now s found total e = let (w, o) = ended s.status e in rw o refl
ended-decide (adds cid lineage) now s found total e = rw e refl
ended-decide (marks_finalist cid) now s found total e = let (w, o) = ended s.status e in rw w refl
ended-decide (records cid r) now s found total e = rw e refl
ended-decide (recovers cid) now s found total e = let (w, o) = ended s.status e in rw w refl
ended-decide (completes chosen scope) now s found total e = rw e refl
ended-decide cancels now s found total e = rw e refl

ended-run_fresh :
    (sid : ℕ) (call : Call) (now : ℕ) (q : Request) (st : Store) (s : Session)
    → get_session sid st ≡ some s
    → is_active s.status ≡ false
    → run_fresh sid call now q st ≡ raised invalid_transition
unfolding run_fresh
ended-run_fresh sid call now q st s read e =
    rw (read, ended-decide call now s (read_candidate call st) (total_executions sid st) e) refl

abbrev is_keyed : Option ℕ → Bool
is_keyed none = false
is_keyed (some k) = true

unkeyed : (o : Option ℕ) → is_keyed o ≡ false → o ≡ none
unkeyed none h = refl
unkeyed (some k) h = cc

-- The calls that look for a replay, with a key.
abbrev pub may_be_replayed : Call → Request → Bool
may_be_replayed (adds cid lineage) q = is_keyed q.idempotency_key
may_be_replayed (records cid r) q = is_keyed q.idempotency_key
may_be_replayed call q = false

unkeyed-replays :
    (sid : ℕ) (call : Call) (q : Request) (st : Store)
    → may_be_replayed call q ≡ false
    → replays sid call q st ≡ returned false
unfolding replays replay_transition idempotent_aggregate
unkeyed-replays sid starts_screening q st h = refl
unkeyed-replays sid (adds cid lineage) q st h = rw (unkeyed q.idempotency_key h) refl
unkeyed-replays sid (marks_finalist cid) q st h = refl
unkeyed-replays sid (records cid r) q st h = rw (unkeyed q.idempotency_key h) refl
unkeyed-replays sid (recovers cid) q st h = refl
unkeyed-replays sid (completes chosen scope) q st h = refl
unkeyed-replays sid cancels q st h = refl

-- The outcome of a call on a session that is completed or cancelled, by what its replay gives.
abbrev pub ended_with : Store → Bool → Result Store
ended_with st true = returned st
ended_with st false = raised invalid_transition

by_replay :
    (sid : ℕ) (call : Call) (now : ℕ) (q : Request) (st : Store)
    → run_fresh sid call now q st ≡ raised invalid_transition
    → (r : Result Bool)
    → (r >>= λ replayed. unless_replayed sid call now q st replayed) ≡ (r >>= ended_with st)
by_replay sid call now q st fresh (raised x) = refl
by_replay sid call now q st fresh (returned true) = refl
by_replay sid call now q st fresh (returned false) = fresh

-- Every call on a session that is completed or cancelled changes nothing: it returns where it is
-- replayed, raises what the search for a replay raises, and else raises an invalid transition. Only a
-- keyed call that adds a candidate or records a result is replayed; every other raises the invalid
-- transition.
pub ended-run_call :
    (sid : ℕ) (call : Call) (now : ℕ) (q : Request) (st : Store) (s : Session)
    → get_session sid st ≡ some s
    → is_active s.status ≡ false
    → (run_call sid call now q st ≡ (replays sid call q st >>= ended_with st))
      × ((may_be_replayed call q ≡ true) ⊎ (run_call sid call now q st ≡ raised invalid_transition))
unfolding run_call
ended-run_call sid call now q st s read e =
    let fresh = ended-run_fresh sid call now q st s read e in
    let outcome = by_replay sid call now q st fresh (replays sid call q st) in
    (
      outcome,
      elim (Bool-cases (may_be_replayed call q)) [
        | inl keyed ↦ inl keyed
        | inr keyless ↦
            inr (outcome ∙ ap (λ r. r >>= ended_with st) (unkeyed-replays sid call q st keyless))
      ],
    )
