-- ===== src/Pool/Examples.antt =====
-- The model of src/azure_sql_mcp/connection_pool.py at concrete inputs.
use azure_sql_mcp.Shared.{
  ℕ, ◌+◌, ◌≤◌, ◌≡◌, refl, true, false, some, none, List, [], ◌∷◌, length, inr, arith,
}
use azure_sql_mcp.Shared.Text.{Text, codes, text_eq}
use azure_sql_mcp.Pool.{Config, Pool, init, check_circuit_breaker}
use azure_sql_mcp.Pool.Breaker.{
  Occurrence, checks, succeeds, fails, after_history, failures, is_blocked, is_refused,
  check_circuit_breaker-is_blocked,
}
use azure_sql_mcp.Pool.Leaks.{note_leaked_connections}
use azure_sql_mcp.Pool.Tasks.{
  waiting, holding, closing, ended, Event, discards, connection_closed, resume,
}
use azure_sql_mcp.Pool.Tasks.Step.{World, world, task, cancels, Reach, in_use}
use azure_sql_mcp.Pool.Tasks.Capacity.{IsSoundAt, Reach-IsSoundAt, in_use-le-pool_size}
use azure_sql_mcp.Pool.Tasks.Starvation.{IsExhausted, move-IsExhausted}
use azure_sql_mcp.Pool.Tasks.Stranded.{
  CancelledCreations, cancellations_exhaust, waiter_is_stranded,
}

abbrev single : Config
single = record { pool_size = 1; query_timeout = 30_000 }

abbrev app : Text
app = codes "app"

abbrev waiting_world : World
waiting_world =
    world (waiter_is_stranded single app 7 refl).0
      (task app 0 (holding 7) ∷ task app 0 waiting ∷ [])

waiter_is_stranded_example :
    (p q r : Pool) × Reach single false (world p (task app 0 (holding 7) ∷ task app 0 waiting ∷ []))
    × (resume single app 0 0 (holding 7) discards p ≡ some (q, closing))
    × (resume single app 0 0 closing connection_closed q ≡ some (r, ended))
    × (p.size app ≡ 1)
    × (r.size app ≡ 0)
    × (r.queue app ≡ [])
    × ((e : Event) (now : ℕ) → resume single app 0 now waiting e r ≡ none)
waiter_is_stranded_example = waiter_is_stranded single app 7 refl

Reach-IsSoundAt_example : IsSoundAt single 0 app waiting_world
Reach-IsSoundAt_example = Reach-IsSoundAt single app (waiter_is_stranded single app 7 refl).3

in_use-le-pool_size_example :
    in_use app waiting_world.tasks + length (waiting_world.pool.queue app) ≤ single.pool_size
in_use-le-pool_size_example =
    in_use-le-pool_size single app (waiter_is_stranded single app 7 refl).3

cancellations_exhaust_example :
    (w : World) × CancelledCreations single app 1 w
    × Reach single true w
    × IsExhausted single app w
    × (in_use app w.tasks ≡ 0)
cancellations_exhaust_example = cancellations_exhaust single app

-- The only slot is taken, and a caller waits.
abbrev full_pool : Pool
full_pool = record init { size = λ d. 1 }

full_pool-IsExhausted : IsExhausted single app (world full_pool (task app 0 waiting ∷ []))
unfolding init text_eq
full_pool-IsExhausted = record { full = omega arith; empty = refl; parked = (refl, tt) }

move-IsExhausted_example : IsExhausted single app (world full_pool (task app 0 ended ∷ []))
move-IsExhausted_example =
    move-IsExhausted single app (inr (cancels [] [] (task app 0 waiting) refl))
      full_pool-IsExhausted

-- Five failures, and a check after the cooldown.
abbrev troubles : List Occurrence
troubles = fails 5_000 ∷ fails 4 ∷ fails 3 ∷ checks 3 ∷ fails 2 ∷ fails 1 ∷ succeeds ∷ fails 0 ∷ []

check_circuit_breaker-is_blocked_example :
    is_refused (check_circuit_breaker 20_000 (after_history troubles)) ≡ true
unfolding is_blocked failures
check_circuit_breaker-is_blocked_example = check_circuit_breaker-is_blocked troubles 20_000

abbrev leaking : Pool
leaking = record init {
  leases = record { connection = 4; database_name = app; acquired_at = 0 } ∷ [];
}

noted_once : (note_leaked_connections single 400_000 leaking).1 ≡ 1
unfolding note_leaked_connections init
noted_once = refl
