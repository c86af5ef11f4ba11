-- ===== src/Budget/Run.antt =====
-- Runs of the budget's operations, in src/azure_sql_mcp/performance_store.py.
use azure_sql_mcp.Shared.{ℕ, List, [], ◌∷◌}
use azure_sql_mcp.Budget.{Reservation, Candidate, Store, Result, returned, raised}
use azure_sql_mcp.Budget.Reserve.{
  Request, Reply, Usage, reserve_execution_attempts, execution_budget_usage,
}
use azure_sql_mcp.Budget.Update.{Report, update_execution_reservation}
use azure_sql_mcp.Shared.Raising.{OkOf}
use azure_sql_mcp.Budget.Limit.{
  IsWithin, candidates-IsWithin, reserve_execution_attempts-IsWithin,
  update_execution_reservation-IsWithin, execution_budget_usage-IsWithin,
}

-- One call. Candidates are saved by the tuning service, with any contents; a call that raises leaves
-- the store as it was.
pub data Call : Type 0 where
  reserves : Request → Call
  reports : Report → Call
  reads_usage : ℕ → Call
  saves_candidates : List Candidate → Call

abbrev settle {ℓ} : {A : Type ℓ} → Store → (A → Store) → Result A → Store
settle st after (returned a) = after a
settle st after (raised e) = st

unfoldable pub call : ℕ → Call → Store → Store
unfolding reserve_execution_attempts update_execution_reservation execution_budget_usage
call now (reserves q) st =
    settle st (λ (reply : Reply). reply.store) (reserve_execution_attempts q now st)
call now (reports p) st =
    settle st (λ (x : Store × Reservation). x.0) (update_execution_reservation p now st)
call now (reads_usage s) st =
    settle st (λ (x : Store × Usage). x.0) (execution_budget_usage s now st)
call now (saves_candidates cs) st = record st { candidates = cs }

unfoldable pub run : List (ℕ × Call) → Store → Store
unfolding call
run [] st = st
run ((now, c) ∷ cs) st = run cs (call now c st)

settle-IsWithin {ℓ} :
    {A : Type ℓ} (st : Store) (after : A → Store) (m : Result A)
    → IsWithin st
    → OkOf (λ a. IsWithin (after a)) m
    → IsWithin (settle st after m)
settle-IsWithin st after (returned a) h k = k
settle-IsWithin st after (raised e) h k = h

call-IsWithin : (now : ℕ) (c : Call) (st : Store) → IsWithin st → IsWithin (call now c st)
unfolding call
call-IsWithin now (reserves q) st h =
    settle-IsWithin st _ _ h (reserve_execution_attempts-IsWithin q now st h)
call-IsWithin now (reports p) st h =
    settle-IsWithin st _ _ h (update_execution_reservation-IsWithin p now st h)
call-IsWithin now (reads_usage s) st h =
    settle-IsWithin st _ _ h (execution_budget_usage-IsWithin s now st h)
call-IsWithin now (saves_candidates cs) st h = candidates-IsWithin cs st h

-- Whatever calls are made, in whatever order and at whatever times, and whatever candidates are
-- saved between them: if no session's reservations charge more attempts than its execution limit,
-- none do afterwards. An expired reservation charges all attempts it asked for.
pub run-IsWithin : (cs : List (ℕ × Call)) (st : Store) → IsWithin st → IsWithin (run cs st)
unfolding run
run-IsWithin [] st h = h
run-IsWithin ((now, c) ∷ cs) st h = run-IsWithin cs (call now c st) (call-IsWithin now c st h)
