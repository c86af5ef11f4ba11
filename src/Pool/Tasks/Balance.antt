-- ===== src/Pool/Tasks/Balance.antt =====
-- The slots of src/azure_sql_mcp/connection_pool.py are accounted for.
use azure_sql_mcp.Shared.{
  ℕ, ◌+◌, ◌≤◌, ◌≡◌, refl, ap, Bool, true, false, Option, none, some, List, [], ◌∷◌, length,
  length-append, arith, if◌then◌else◌,
}
use azure_sql_mcp.Shared.Text.{Text, text_eq_refl}
use azure_sql_mcp.Pool.{
  CircuitBreakerState, Config, Pool, update, grant, begin_discard, end_discard, begin_release,
}
use azure_sql_mcp.Pool.Tasks.{
  Phase, validating, creating, waiting, closing_to_retry, closing, holding, ended, Event, validated,
  created, creation_failed, connection_closed, queue_filled, releases, discards, use_idle, no_idle,
  take_from, get_from, create_failed, count_create, release_task, resume, Start, Refusal, refused,
  after_check, begin_acquire, started, count_acquire,
}
use azure_sql_mcp.Pool.Tasks.Step.{slots}

-- The size of `d` is the slots of a phase, of its idle connections and of `k` others, and in bounds.
pub record IsAccounted (cfg : Config) (d : Text) (k : ℕ) (p : Pool) (ph : Phase) : Type 0 where
  pub exact : p.size d ≡ k + slots ph + length (p.queue d)
  pub within : p.size d ≤ cfg.pool_size

abbrev pub IsAccountedPair : Config → Text → ℕ → Pool × Phase → Type 0
IsAccountedPair cfg d k (p, ph) = IsAccounted cfg d k p ph

abbrev pub AllOf : (Pool × Phase → Type 0) → Option (Pool × Phase) → Type 0
AllOf P none = Unit
AllOf P (some x) = P x

abbrev pub StartOf : (Pool × Phase → Type 0) → Start → Type 0
StartOf P (refused r) = Unit
StartOf P (started q ph) = P (q, ph)

pub StartOf-if :
    (P : Pool × Phase → Type 0) (b : Bool) (r : Refusal) (s : Start)
    → StartOf P s
    → StartOf P (if b then refused r else s)
StartOf-if P true r s h = tt
StartOf-if P false r s h = h

module _ (cfg : Config) (d : Text) (wait_start now k : ℕ) where
  use_idle-IsAccounted :
      (c : ℕ) (rest : List ℕ) (p : Pool)
      → p.queue d ≡ c ∷ rest
      → IsAccounted cfg d k p waiting
      → let out = use_idle cfg d wait_start now c rest p in IsAccounted cfg d k out.0 out.1
  unfolding use_idle grant update
  use_idle-IsAccounted c rest p e h = ground (arith, text_eq_refl d, ap length e)

  no_idle-IsAccounted :
      (p : Pool)
      → IsAccounted cfg d k p waiting
      → let out = no_idle cfg d wait_start now p in IsAccounted cfg d k out.0 out.1
  unfolding no_idle update
  no_idle-IsAccounted p h = ground (arith, text_eq_refl d)

  take_from-IsAccounted :
      (q : List ℕ) (p : Pool)
      → p.queue d ≡ q
      → IsAccounted cfg d k p waiting
      → let out = take_from cfg d wait_start now q p in IsAccounted cfg d k out.0 out.1
  unfolding take_from
  take_from-IsAccounted [] p e h = no_idle-IsAccounted p h
  take_from-IsAccounted (c ∷ rest) p e h = use_idle-IsAccounted c rest p e h

  get_from-IsAccounted :
      (xs : List ℕ) (p : Pool)
      → p.queue d ≡ xs
      → IsAccounted cfg d k p waiting
      → AllOf (IsAccountedPair cfg d k) (get_from cfg d wait_start now xs p)
  unfolding get_from
  get_from-IsAccounted [] p e v = tt
  get_from-IsAccounted (c ∷ rest) p e v = use_idle-IsAccounted c rest p e v

  end_discard-IsAccounted :
      (p : Pool) → IsAccounted cfg d k p closing → IsAccounted cfg d k (end_discard d p) waiting
  unfolding end_discard update
  end_discard-IsAccounted p v = ground (arith, text_eq_refl d)

  create_failed-IsAccounted :
      (p : Pool)
      → IsAccounted cfg d k p creating
      → IsAccounted cfg d k (create_failed cfg d wait_start now p) ended
  unfolding create_failed update
  create_failed-IsAccounted p v = ground (arith, text_eq_refl d)

  release_task-IsAccounted :
      (c : ℕ) (p : Pool)
      → IsAccounted cfg d k p (holding c)
      → IsAccountedPair cfg d k (release_task cfg d wait_start now c p)
  unfolding release_task begin_release begin_discard update
  release_task-IsAccounted c p v =
      ground (arith, text_eq_refl d, length-append (p.queue d) (c ∷ []))

  -- A task that goes on keeps the account of its database.
  pub resume-IsAccounted :
      (ph : Phase) (e : Event) (p : Pool)
      → IsAccounted cfg d k p ph
      → AllOf (IsAccountedPair cfg d k) (resume cfg d wait_start now ph e p)
  unfolding resume grant begin_discard count_create
  resume-IsAccounted (validating c) (validated true) p v = ground arith
  resume-IsAccounted (validating c) (validated false) p v = ground arith
  resume-IsAccounted creating (created c) p v = ground arith
  resume-IsAccounted creating creation_failed p v = create_failed-IsAccounted p v
  resume-IsAccounted waiting queue_filled p v = get_from-IsAccounted (p.queue d) p refl v
  resume-IsAccounted closing_to_retry connection_closed p v =
      let closed = end_discard-IsAccounted p (ground arith) in
      take_from-IsAccounted ((end_discard d p).queue d) (end_discard d p) refl closed
  resume-IsAccounted closing connection_closed p v =
      let closed = end_discard-IsAccounted p v in
      record { exact = closed.exact; within = closed.within }
  resume-IsAccounted (holding c) releases p v = release_task-IsAccounted c p v
  resume-IsAccounted (holding c) discards p v = ground arith
  resume-IsAccounted ph e p v = tt

module _ (cfg : Config) (d : Text) (now k : ℕ) where
  after_check-IsAccounted :
      (p : Pool) (cb : Option CircuitBreakerState)
      → IsAccounted cfg d k p waiting
      → StartOf (IsAccountedPair cfg d k) (after_check cfg d now p cb)
  unfolding after_check
  after_check-IsAccounted p none v = tt
  after_check-IsAccounted p (some cb) v =
      let checked = count_acquire d (record p { breaker = update p.breaker d cb }) in
      take_from-IsAccounted cfg d now now k (checked.queue d) checked refl
        (record { exact = v.exact; within = v.within })

  -- A task that begins adds its phase to the account.
  pub begin_acquire-IsAccounted :
      (p : Pool)
      → IsAccounted cfg d k p waiting
      → StartOf (IsAccountedPair cfg d k) (begin_acquire cfg d now p)
  unfolding begin_acquire
  begin_acquire-IsAccounted p v =
      StartOf-if (IsAccountedPair cfg d k) p.closed _ _ (after_check-IsAccounted p _ v)
