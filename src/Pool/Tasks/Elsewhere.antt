-- ===== src/Pool/Tasks/Elsewhere.antt =====
-- A task of src/azure_sql_mcp/connection_pool.py leaves the slots of other databases alone.
use azure_sql_mcp.Shared.{ℕ, ◌≡◌, true, false, Option, none, some, List, [], ◌∷◌, arith}
use azure_sql_mcp.Shared.Text.{Text, text_eq}
use azure_sql_mcp.Pool.{
  CircuitBreakerState, Config, Pool, update, grant, begin_discard, end_discard, begin_release,
}
use azure_sql_mcp.Pool.Tasks.{
  Phase, validating, creating, waiting, closing_to_retry, closing, holding, Event, validated,
  created, creation_failed, connection_closed, queue_filled, releases, discards, use_idle, no_idle,
  take_from, loop_head, get_from, create_failed, count_create, release_task, resume, after_check,
  begin_acquire, count_acquire,
}
use azure_sql_mcp.Pool.Tasks.Balance.{AllOf, StartOf, StartOf-if}

-- The size and the queue of `j` are the same in both.
pub record IsSame (j : Text) (p q : Pool) : Type 0 where
  pub size : q.size j ≡ p.size j
  pub queue : q.queue j ≡ p.queue j

module _ (cfg : Config) (d j : Text) (wait_start now : ℕ) (other : text_eq d j ≡ false) where
  use_idle-IsSame :
      (c : ℕ) (rest : List ℕ) (p : Pool) → IsSame j p (use_idle cfg d wait_start now c rest p).0
  unfolding use_idle grant update
  use_idle-IsSame c rest p = ground arith

  pub take_from-IsSame :
      (xs : List ℕ) (p : Pool) → IsSame j p (take_from cfg d wait_start now xs p).0
  unfolding take_from no_idle update
  take_from-IsSame [] p = ground arith
  take_from-IsSame (c ∷ rest) p = use_idle-IsSame c rest p

  get_from-IsSame :
      (xs : List ℕ) (p : Pool)
      → AllOf (λ (x : Pool × Phase). IsSame j p x.0) (get_from cfg d wait_start now xs p)
  unfolding get_from
  get_from-IsSame [] p = tt
  get_from-IsSame (c ∷ rest) p = use_idle-IsSame c rest p

  release_task-IsSame : (c : ℕ) (p : Pool) → IsSame j p (release_task cfg d wait_start now c p).0
  unfolding release_task begin_release begin_discard update
  release_task-IsSame c p = ground arith

  end_discard-IsSame : (p : Pool) → IsSame j p (end_discard d p)
  unfolding end_discard update
  end_discard-IsSame p = ground arith

  retry-IsSame : (p : Pool) → IsSame j p (loop_head cfg d wait_start now (end_discard d p)).0
  unfolding loop_head
  retry-IsSame p =
      ground (
        arith,
        end_discard-IsSame p,
        take_from-IsSame ((end_discard d p).queue d) (end_discard d p),
      )

  pub resume-IsSame :
      (ph : Phase) (e : Event) (p : Pool)
      → AllOf (λ (x : Pool × Phase). IsSame j p x.0) (resume cfg d wait_start now ph e p)
  unfolding resume grant begin_discard count_create create_failed update
  resume-IsSame (validating c) (validated true) p = ground arith
  resume-IsSame (validating c) (validated false) p = ground arith
  resume-IsSame creating (created c) p = ground arith
  resume-IsSame creating creation_failed p = ground arith
  resume-IsSame waiting queue_filled p = get_from-IsSame (p.queue d) p
  resume-IsSame closing_to_retry connection_closed p = retry-IsSame p
  resume-IsSame closing connection_closed p = end_discard-IsSame p
  resume-IsSame (holding c) releases p = release_task-IsSame c p
  resume-IsSame (holding c) discards p = ground arith
  resume-IsSame ph e p = tt

module _ (cfg : Config) (d j : Text) (now : ℕ) (other : text_eq d j ≡ false) where
  after_check-IsSame :
      (p : Pool) (cb : Option CircuitBreakerState)
      → StartOf (λ (x : Pool × Phase). IsSame j p x.0) (after_check cfg d now p cb)
  unfolding after_check count_acquire
  after_check-IsSame p none = tt
  after_check-IsSame p (some cb) =
      let checked = count_acquire d (record p { breaker = update p.breaker d cb }) in
      let same = take_from-IsSame cfg d j now now other (checked.queue d) checked in
      record { size = same.size; queue = same.queue }

  pub begin_acquire-IsSame :
      (p : Pool) → StartOf (λ (x : Pool × Phase). IsSame j p x.0) (begin_acquire cfg d now p)
  unfolding begin_acquire
  begin_acquire-IsSame p =
      StartOf-if (λ (x : Pool × Phase). IsSame j p x.0) p.closed _ _ (after_check-IsSame p _)
