-- ===== src/Pool/Tasks.antt =====
-- `acquire`, `release` and `discard` of src/azure_sql_mcp/connection_pool.py as tasks of one event
-- loop: between two waits a task runs alone. `_lock` is never held across a wait, so taking it is no
-- wait.
pub mod Step
pub mod Balance
pub mod Elsewhere
pub mod Capacity
pub mod Starvation
pub mod Fresh
pub mod Stranded
use azure_sql_mcp.Shared.{
  ℕ, suc, ◌+◌, ◌-◌, ◌<◌, Bool, true, false, ◌&&◌, ◌||◌, Option, none, some, List, [], ◌∷◌, ltb,
  if◌then◌else◌,
}
use azure_sql_mcp.Shared.Text.{Text}
use azure_sql_mcp.Pool.{
  CircuitBreakerState, Config, Pool, PoolMetrics, validation_idle, update, touch, idle_time,
  check_circuit_breaker, record_failure, grant, begin_discard, end_discard, begin_release,
}

-- Where a task waits, or that it holds a connection, or that it has ended.
pub data Phase : Type 0 where
  -- `_validate_connection` runs on a thread
  validating : ℕ → Phase
  -- `_create_connection` runs on a thread
  creating : Phase
  -- pool.get()
  waiting : Phase
  -- `_close_connection` runs on a thread; then `acquire` goes round its loop again
  closing_to_retry : Phase
  -- the same at the end of a task
  closing : Phase
  holding : ℕ → Phase
  ended : Phase

-- What wakes a task: an answer, an entry in the queue, or the caller.
pub data Event : Type 0 where
  validated : Bool → Event
  created : ℕ → Event
  creation_failed : Event
  connection_closed : Event
  queue_filled : Event
  releases : Event
  discards : Event

-- `_connection_is_usable` without the round trip
unfoldable pub recently_used : ℕ → ℕ → Pool → Bool
unfolding idle_time
recently_used c now p = elim (idle_time c p.idle_since) [
  | none ↦ false
  | some t ↦ ltb (now - t) validation_idle
]

module _ (cfg : Config) (d : Text) (wait_start now : ℕ) where
  -- A connection out of the queue: used at once, or validated first.
  use_idle : ℕ → List ℕ → Pool → Pool × Phase
  unfolding recently_used update
  use_idle c rest p =
      let taken = record p { queue = update p.queue d rest } in
      if recently_used c now p
      then (grant d c wait_start now taken, holding c)
      else (taken, validating c)

  no_idle : Pool → Pool × Phase
  unfolding update
  no_idle p =
      if ltb (p.size d) cfg.pool_size
      then (record p { size = update p.size d (suc (p.size d)) }, creating)
      else (p, waiting)

  pub take_from : List ℕ → Pool → Pool × Phase
  unfolding use_idle no_idle
  take_from [] p = no_idle p
  take_from (c ∷ rest) p = use_idle c rest p

  -- The body of `while True`, from its start to its first wait.
  loop_head : Pool → Pool × Phase
  unfolding take_from
  loop_head p = take_from (p.queue d) p

  -- `connection = await pool.get()` is over when the queue has an entry.
  get_from : List ℕ → Pool → Option (Pool × Phase)
  unfolding use_idle
  get_from [] p = none
  get_from (c ∷ rest) p = some (use_idle c rest p)

  create_failed : Pool → Pool
  unfolding update record_failure
  create_failed p = record p {
    size = update p.size d (p.size d - 1);
    breaker = update p.breaker d (record_failure now (p.breaker d));
  }

  count_create : Pool → Pool
  unfolding update
  count_create p =
      let m = p.metrics d in
      record p { metrics = update p.metrics d (record m { create_count = suc m.create_count }) }

  release_task : ℕ → Pool → Pool × Phase
  unfolding begin_release
  release_task c p =
      let (q, closes) = begin_release cfg d c now p in (q, if closes then closing else ended)

  -- A task in a phase goes on at an event; `none`, where the event is not what it waits for.
  unfoldable pub resume : Phase → Event → Pool → Option (Pool × Phase)
  unfolding loop_head get_from create_failed count_create release_task end_discard
  resume (validating c) (validated true) p = some (grant d c wait_start now p, holding c)
  resume (validating c) (validated false) p = some (begin_discard d c p, closing_to_retry)
  resume creating (created c) p = some (grant d c wait_start now (count_create p), holding c)
  resume creating creation_failed p = some (create_failed p, ended)
  resume waiting queue_filled p = get_from (p.queue d) p
  resume closing_to_retry connection_closed p = some (loop_head (end_discard d p))
  resume closing connection_closed p = some (end_discard d p, ended)
  resume (holding c) releases p = some (release_task c p)
  resume (holding c) discards p = some (begin_discard d c p, closing)
  resume _ _ p = none

count_acquire : Text → Pool → Pool
unfolding update touch
count_acquire d p =
    let m = p.metrics d in
    record p {
      metrics = update p.metrics d (record m { acquire_count = suc m.acquire_count });
      names = touch d p.names;
    }

-- Why `acquire` raises at once.
pub data Refusal : Type 0 where
  pool_closed circuit_open : Refusal

pub data Start : Type 0 where
  refused : Refusal → Start
  started : Pool → Phase → Start

-- `acquire` behind the check of the circuit breaker.
pub after_check : Config → Text → ℕ → Pool → Option CircuitBreakerState → Start
unfolding loop_head count_acquire update
after_check cfg d now p none = refused circuit_open
after_check cfg d now p (some cb) =
    let checked = record p { breaker = update p.breaker d cb } in
    let (q, phase) = loop_head cfg d now now (count_acquire d checked) in started q phase

-- `acquire`, from its start to its first wait.
unfoldable pub begin_acquire : Config → Text → ℕ → Pool → Start
unfolding after_check check_circuit_breaker
begin_acquire cfg d now p =
    if p.closed
    then refused pool_closed
    else after_check cfg d now p (check_circuit_breaker now (p.breaker d))
