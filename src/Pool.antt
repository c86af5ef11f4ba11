-- ===== src/Pool.antt =====
-- src/azure_sql_mcp/connection_pool.py: `ConnectionPool`. Times are whole milliseconds. A `defaultdict`
-- is a function from the database's name; `id(connection)` stands for the connection.
pub mod Breaker
pub mod Leaks
pub mod Tasks
mod Examples
use azure_sql_mcp.Shared.{
  ℕ, suc, ◌+◌, ◌-◌, ◌<◌, max, Bool, true, false, ◌&&◌, ◌||◌, not, Option, none, some, List, [], ◌∷◌,
  ◌++◌, length, any, ltb, leb, ◌==◌, if◌then◌else◌,
}
use azure_sql_mcp.Shared.Text.{Text, text_eq}

abbrev pub validation_idle : ℕ
validation_idle = 60_000

abbrev pub circuit_breaker_threshold : ℕ
circuit_breaker_threshold = 5

abbrev pub circuit_breaker_cooldown : ℕ
circuit_breaker_cooldown = 30_000

abbrev pub lease_timeout_default : ℕ
lease_timeout_default = 300_000

abbrev pub lease_timeout_margin : ℕ
lease_timeout_margin = 60_000

-- What the pool reads of `ServerConfig`.
pub record Config : Type 0 where
  pub pool_size : ℕ
  pub query_timeout : ℕ

-- self._lease_timeout_seconds
unfoldable pub lease_timeout : Config → ℕ
lease_timeout cfg = max lease_timeout_default (cfg.query_timeout + lease_timeout_margin)

pub record PoolMetrics : Type 0 where
  pub acquire_count : ℕ
  pub release_count : ℕ
  pub discard_count : ℕ
  pub create_count : ℕ
  pub timeout_count : ℕ
  pub active_connections : ℕ
  pub peak_active : ℕ
  pub total_wait_time : ℕ

pub record CircuitBreakerState : Type 0 where
  pub consecutive_failures : ℕ
  pub last_failure_time : ℕ
  pub is_open : Bool

pub record Lease : Type 0 where
  pub connection : ℕ
  pub database_name : Text
  pub acquired_at : ℕ

pub record Pool : Type 0 where
  pub closed : Bool
  -- the keys of `_pools`, as they were first used
  pub names : List Text
  pub queue : Text → List ℕ
  pub size : Text → ℕ
  pub metrics : Text → PoolMetrics
  pub breaker : Text → CircuitBreakerState
  pub leases : List Lease
  pub noted_leaks : List ℕ
  pub idle_since : List (ℕ × ℕ)

-- d[k] = v
unfoldable pub update {ℓ} : {A : Type ℓ} → (Text → A) → Text → A → Text → A
update f k v j = if text_eq k j then v else f j

pub init : Pool
init = record {
  closed = false;
  names = [];
  queue = λ d. [];
  size = λ d. 0;
  metrics = λ d. record {
    acquire_count = 0;
    release_count = 0;
    discard_count = 0;
    create_count = 0;
    timeout_count = 0;
    active_connections = 0;
    peak_active = 0;
    total_wait_time = 0;
  };
  breaker = λ d. record { consecutive_failures = 0; last_failure_time = 0; is_open = false };
  leases = [];
  noted_leaks = [];
  idle_since = [];
}

-- self._pools[database_name], which makes the queue on its first use
unfoldable pub touch : Text → List Text → List Text
touch d names = if any (λ n. text_eq n d) names then names else names ++ d ∷ []

-- `_leases` and `_idle_since`, keyed by connection.
unfoldable pub lease_of : ℕ → List Lease → Bool
lease_of c = any (λ l. l.connection == c)

unfoldable pub without_lease : ℕ → List Lease → List Lease
without_lease c [] = []
without_lease c (l ∷ ls) =
    let rest = without_lease c ls in if l.connection == c then rest else l ∷ rest

unfoldable pub put_lease : Lease → List Lease → List Lease
put_lease l [] = l ∷ []
put_lease l (k ∷ ls) = if k.connection == l.connection then l ∷ ls else k ∷ put_lease l ls

unfoldable pub idle_time : ℕ → List (ℕ × ℕ) → Option ℕ
idle_time c [] = none
idle_time c ((k, t) ∷ ts) = if k == c then some t else idle_time c ts

unfoldable pub without_idle : ℕ → List (ℕ × ℕ) → List (ℕ × ℕ)
without_idle c [] = []
without_idle c ((k, t) ∷ ts) =
    let rest = without_idle c ts in if k == c then rest else (k, t) ∷ rest

unfoldable pub put_idle : ℕ → ℕ → List (ℕ × ℕ) → List (ℕ × ℕ)
put_idle c t [] = (c, t) ∷ []
put_idle c t ((k, s) ∷ ts) = if k == c then (c, t) ∷ ts else (k, s) ∷ put_idle c t ts

-- The circuit breaker. `none` is the ConnectionError.
unfoldable pub check_circuit_breaker : ℕ → CircuitBreakerState → Option CircuitBreakerState
check_circuit_breaker now cb =
    if not cb.is_open
    then some cb
    else if ltb (now - cb.last_failure_time) circuit_breaker_cooldown
    then none
    else some (record cb { is_open = false })

unfoldable pub record_success : CircuitBreakerState → CircuitBreakerState
record_success cb = record cb { consecutive_failures = 0; is_open = false }

unfoldable pub record_failure : ℕ → CircuitBreakerState → CircuitBreakerState
record_failure now cb = record {
  consecutive_failures = suc cb.consecutive_failures;
  last_failure_time = now;
  is_open =
      if leb circuit_breaker_threshold (suc cb.consecutive_failures) then true else cb.is_open;
}

-- The five lines that end every successful `acquire`, from `_record_success` to `_track_lease`.
unfoldable pub grant : Text → ℕ → ℕ → ℕ → Pool → Pool
unfolding update record_success put_lease
grant d c wait_start now p =
    let m = p.metrics d in
    let active = suc m.active_connections in
    record p {
      breaker = update p.breaker d (record_success (p.breaker d));
      metrics = update p.metrics d (record m {
        active_connections = active;
        peak_active = max m.peak_active active;
        total_wait_time = m.total_wait_time + (now - wait_start);
      });
      leases = put_lease (record { connection = c; database_name = d; acquired_at = now }) p.leases;
    }

-- `discard` up to the wait for `_close_connection`, and from there on.
unfoldable pub begin_discard : Text → ℕ → Pool → Pool
unfolding update lease_of without_lease without_idle
begin_discard d c p =
    let m = p.metrics d in
    let active = if lease_of c p.leases then m.active_connections - 1 else m.active_connections in
    record p {
      leases = without_lease c p.leases;
      idle_since = without_idle c p.idle_since;
      metrics =
          update p.metrics d
            (record m { discard_count = suc m.discard_count; active_connections = active });
    }

unfoldable pub end_discard : Text → Pool → Pool
unfolding update
end_discard d p = record p { size = update p.size d (p.size d - 1) }

-- asyncio.Queue(maxsize=pool_size).full(): a size of 0 is no bound
unfoldable pub queue_full : Config → List ℕ → Bool
queue_full cfg q = ltb 0 cfg.pool_size && leb cfg.pool_size (length q)

-- `release` up to its end, or to the wait in `discard`; the flag says which.
unfoldable pub begin_release : Config → Text → ℕ → ℕ → Pool → Pool × Bool
unfolding update without_lease put_idle queue_full begin_discard touch
begin_release cfg d c now p =
    let m = p.metrics d in
    let released = record p {
      leases = without_lease c p.leases;
      idle_since = put_idle c now p.idle_since;
      metrics = update p.metrics d (record m {
        release_count = suc m.release_count;
        active_connections = m.active_connections - 1;
      });
    } in
    if p.closed
    then (begin_discard d c released, true)
    else (let pooled = record released { names = touch d p.names } in
        if queue_full cfg (p.queue d)
        then (begin_discard d c pooled, true)
        else (record pooled { queue = update p.queue d (p.queue d ++ c ∷ []) }, false))
