-- ===== src/Pool/Tasks/Fresh.antt =====
-- The pool of src/azure_sql_mcp/connection_pool.py while its queue for a database is empty.
use azure_sql_mcp.Shared.{
  ℕ, suc, ◌≡◌, refl, sym, subst, Bool, true, false, some, List, [], ◌∷◌, ◌++◌, arith, if◌then◌else◌,
  ltb,
}
use azure_sql_mcp.Shared.Text.{Text, text_eq_refl}
use azure_sql_mcp.Pool.{CircuitBreakerState, Config, Pool, init, update, check_circuit_breaker}
use azure_sql_mcp.Pool.Tasks.{
  Phase, creating, waiting, take_from, no_idle, Start, Refusal, refused, started, begin_acquire,
  after_check, count_acquire,
}
use azure_sql_mcp.Pool.Tasks.Step.{Task, world, task, Step, acquires}

-- An open pool with its breaker closed, `size` slots of `d` taken, and none of them idle.
pub record IsFresh (d : Text) (size : ℕ) (p : Pool) : Type 0 where
  pub not_closed : p.closed ≡ false
  pub breaker_closed : (p.breaker d).is_open ≡ false
  pub empty : p.queue d ≡ []
  pub taken : p.size d ≡ size

abbrev Starts : (Pool × Phase → Type 0) → Start → Type 0
Starts P (refused r) = ⊥
Starts P (started q ph) = P (q, ph)

Starts-inversion :
    (P : Pool × Phase → Type 0) (s : Start)
    → Starts P s
    → (q : Pool) × (ph : Phase) × (s ≡ started q ph) × P (q, ph)
Starts-inversion P (refused r) h = absurd h
Starts-inversion P (started q ph) h = (q, ph, refl, h)

Starts-if :
    (P : Pool × Phase → Type 0) (b : Bool) (r : Refusal) (s : Start)
    → b ≡ false
    → Starts P s
    → Starts P (if b then refused r else s)
Starts-if P true r s e h = cc
Starts-if P false r s e h = h

check_circuit_breaker-closed :
    (now : ℕ) (cb : CircuitBreakerState)
    → cb.is_open ≡ false
    → check_circuit_breaker now cb ≡ some cb
unfolding check_circuit_breaker
check_circuit_breaker-closed now cb e = ground arith

abbrev pub phase_at : Config → ℕ → Phase
phase_at cfg size = if ltb size cfg.pool_size then creating else waiting

abbrev pub size_at : Config → ℕ → ℕ
size_at cfg size = if ltb size cfg.pool_size then suc size else size

module _ (cfg : Config) (d : Text) where
  abbrev FreshStart : ℕ → Pool × Phase → Type 0
  FreshStart size (p, ph) = IsFresh d (size_at cfg size) p × (ph ≡ phase_at cfg size)

  take_from-IsFresh :
      (q : List ℕ) (size : ℕ) (p : Pool)
      → q ≡ []
      → IsFresh d size p
      → FreshStart size (take_from cfg d 0 0 q p)
  unfolding take_from no_idle update
  take_from-IsFresh [] size p e h = ground (arith, text_eq_refl d)
  take_from-IsFresh (c ∷ q) size p e h = cc

  after_check-IsFresh :
      (size : ℕ) (p : Pool) (cb : CircuitBreakerState)
      → cb.is_open ≡ false
      → IsFresh d size p
      → Starts (FreshStart size) (after_check cfg d 0 p (some cb))
  unfolding after_check count_acquire update
  after_check-IsFresh size p cb e h =
      take_from-IsFresh (p.queue d) size
        (count_acquire d (record p { breaker = update p.breaker d cb })) h.empty
        (record {
          not_closed = h.not_closed;
          breaker_closed = ground (arith, text_eq_refl d);
          empty = h.empty;
          taken = h.taken;
        })

  begin_acquire-IsFresh :
      (size : ℕ) (p : Pool) → IsFresh d size p → Starts (FreshStart size) (begin_acquire cfg d 0 p)
  unfolding begin_acquire
  begin_acquire-IsFresh size p h =
      let checked = after_check-IsFresh size p (p.breaker d) h.breaker_closed h in
      Starts-if (FreshStart size) p.closed _ _ h.not_closed (
        subst (λ o. Starts (FreshStart size) (after_check cfg d 0 p o))
          (sym (check_circuit_breaker-closed 0 (p.breaker d) h.breaker_closed)) checked)

  -- The start as a step of the loop.
  pub acquires_lem :
      (size : ℕ) (p : Pool) (ts : List Task)
      → IsFresh d size p
      → (q : Pool) × (Step cfg (world p ts) (world q (ts ++ task d 0 (phase_at cfg size) ∷ [])))
        × IsFresh d (size_at cfg size) q
  acquires_lem size p ts h =
      let (q, ph, e, found) =
        Starts-inversion (FreshStart size) _ (begin_acquire-IsFresh size p h) in
      (
        q,
        subst (λ ph. Step cfg (world p ts) (world q (ts ++ task d 0 ph ∷ []))) found.1
            (acquires d 0 e),
        found.0,
      )

  pub init-IsFresh : IsFresh d 0 init
  unfolding init
  init-IsFresh = record { not_closed = refl; breaker_closed = refl; empty = refl; taken = refl }
