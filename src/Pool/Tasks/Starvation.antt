-- ===== src/Pool/Tasks/Starvation.antt =====
-- Two ways in which a caller of `acquire` in src/azure_sql_mcp/connection_pool.py waits for ever: slots
-- that cancelled tasks took with them, and a `discard` that wakes nobody.
use azure_sql_mcp.Shared.{
  ℕ, ◌≤◌, ◌≡◌, refl, sym, ◌∙◌, ap, subst, Bool, true, false, Option, none, some, List, [], ◌∷◌,
  ◌++◌, All, arith, if◌then◌else◌, Bool-cases, ◌⊎◌, inl, inr,
}
use azure_sql_mcp.Shared.Text.{Text, text_eq, text_eq-eq}
use azure_sql_mcp.Pool.{CircuitBreakerState, Config, Pool, update, begin_discard}
use azure_sql_mcp.Pool.Tasks.{
  Phase, waiting, closing, ended, Event, take_from, no_idle, resume, started, begin_acquire,
  after_check, count_acquire, get_from,
}
use azure_sql_mcp.Pool.Tasks.Step.{
  Task, World, world, task, Step, acquires, resumes, closes, drains, Cancel, cancels,
}
use azure_sql_mcp.Pool.Tasks.Balance.{AllOf, StartOf, StartOf-if}
use azure_sql_mcp.Pool.Tasks.Elsewhere.{IsSame, begin_acquire-IsSame, resume-IsSame}

abbrev pub is_parked : Phase → Bool
is_parked waiting = true
is_parked ended = true
is_parked _ = false

-- Every task of `d` waits for the queue or has ended.
abbrev pub IsParked : Text → Task → Type 0
IsParked d t = (if text_eq t.database_name d then is_parked t.phase else true) ≡ true

IsParked-of : (d : Text) (t : Task) → is_parked t.phase ≡ true → IsParked d t
IsParked-of d t h = ground arith

IsParked-ended : (d j : Text) (s : ℕ) → IsParked d (task j s ended)
IsParked-ended d j s = ground arith

IsParked-other : (d : Text) (t : Task) → text_eq t.database_name d ≡ false → IsParked d t
IsParked-other d t h = rw h

is_parked-IsParked :
    (d : Text) (t : Task)
    → text_eq t.database_name d ≡ true
    → IsParked d t
    → is_parked t.phase ≡ true
is_parked-IsParked d t same h = ground arith

-- All slots of `d` are taken, and nobody is left who could give one back.
pub record IsExhausted (cfg : Config) (d : Text) (w : World) : Type 0 where
  pub full : cfg.pool_size ≤ w.pool.size d
  pub empty : w.pool.queue d ≡ []
  pub parked : All (IsParked d) w.tasks

module _ (d : Text) where
  All-at :
      (before after : List Task) (t : Task)
      → All (IsParked d) (before ++ t ∷ after)
      → IsParked d t × All (IsParked d) (before ++ after)
  All-at [] after t h = (h.0, h.1)
  All-at (s ∷ before) after t h = let (x, rest) = All-at before after t h.1 in (x, (h.0, rest))

  All-put :
      (before after : List Task) (t : Task)
      → IsParked d t
      → All (IsParked d) (before ++ after)
      → All (IsParked d) (before ++ t ∷ after)
  All-put [] after t x h = (x, h)
  All-put (s ∷ before) after t x h = (h.0, All-put before after t x h.1)

  pub All-last :
      (ts : List Task) (t : Task)
      → IsParked d t
      → All (IsParked d) ts
      → All (IsParked d) (ts ++ t ∷ [])
  All-last [] t x h = (x, tt)
  All-last (s ∷ ts) t x h = (h.0, All-last ts t x h.1)

-- A parked task cannot go on while the queue is empty.
pub resume-parked :
    (cfg : Config) (d : Text) (wait_start now : ℕ) (ph : Phase) (e : Event) (p : Pool)
    → is_parked ph ≡ true
    → p.queue d ≡ []
    → resume cfg d wait_start now ph e p ≡ none
unfolding resume get_from
resume-parked cfg d s now waiting Event.queue_filled p h k = rw k
resume-parked cfg d s now ended e p h k = refl
resume-parked cfg d s now ph e p h k = ground arith

module _ (cfg : Config) (d : Text) where
  -- the pool's part of `IsExhausted`, after a start that waits
  abbrev StillFull : Pool × Phase → Type 0
  StillFull (p, ph) = (cfg.pool_size ≤ p.size d) × (p.queue d ≡ []) × (is_parked ph ≡ true)

  take_from-full :
      (q : List ℕ) (now : ℕ) (p : Pool)
      → q ≡ []
      → p.queue d ≡ []
      → cfg.pool_size ≤ p.size d
      → StillFull (take_from cfg d now now q p)
  unfolding take_from no_idle
  take_from-full [] now p e k h = ground arith
  take_from-full (c ∷ q) now p e k h = cc

  after_check-full :
      (now : ℕ) (p : Pool) (cb : Option CircuitBreakerState)
      → p.queue d ≡ []
      → cfg.pool_size ≤ p.size d
      → StartOf StillFull (after_check cfg d now p cb)
  unfolding after_check count_acquire
  after_check-full now p none k h = tt
  after_check-full now p (some cb) k h =
      take_from-full (p.queue d) now
        (count_acquire d (record p { breaker = update p.breaker d cb })) k k h

  begin_acquire-full :
      (now : ℕ) (p : Pool)
      → p.queue d ≡ []
      → cfg.pool_size ≤ p.size d
      → StartOf StillFull (begin_acquire cfg d now p)
  unfolding begin_acquire
  begin_acquire-full now p k h = StartOf-if StillFull p.closed _ _ (after_check-full now p _ k h)

  acquires-IsExhausted :
      (j : Text) (now : ℕ) (p q : Pool) (ts : List Task) (ph : Phase)
      → begin_acquire cfg j now p ≡ started q ph
      → IsExhausted cfg d (world p ts)
      → IsExhausted cfg d (world q (ts ++ task j now ph ∷ []))
  acquires-IsExhausted j now p q ts ph e v = elim (Bool-cases (text_eq j d)) [
    | inl same ↦
        let at : j ≡ d = text_eq-eq j d same in
        let h =
          subst (StartOf StillFull) (subst (λ i. begin_acquire cfg i now p ≡ started q ph) at e)
            (begin_acquire-full now p v.empty v.full) in
        record {
          full = h.0;
          empty = h.1;
          parked = All-last d ts (task j now ph) (IsParked-of d (task j now ph) h.2) v.parked;
        }
    | inr other ↦
        let h : IsSame d p q =
          subst (StartOf (λ (x : Pool × Phase). IsSame d p x.0)) e
            (begin_acquire-IsSame cfg j d now other p) in
        record {
          full = omega (arith, h.size, v.full);
          empty = h.queue ∙ v.empty;
          parked = All-last d ts (task j now ph) (IsParked-other d (task j now ph) other) v.parked;
        }
  ]

  resumes-IsExhausted :
      (p q : Pool) (ph : Phase) (before after : List Task) (t : Task) (e : Event) (now : ℕ)
      → resume cfg t.database_name t.wait_start now t.phase e p ≡ some (q, ph)
      → IsExhausted cfg d (world p (before ++ t ∷ after))
      → IsExhausted cfg d (world q (before ++ task t.database_name t.wait_start ph ∷ after))
  resumes-IsExhausted p q ph before after t e now h v =
      elim (Bool-cases (text_eq t.database_name d)) [
        | inl same ↦
            let at : t.database_name ≡ d = text_eq-eq t.database_name d same in
            let parked = is_parked-IsParked d t same (All-at d before after t v.parked).0 in
            let stuck =
              resume-parked cfg t.database_name t.wait_start now t.phase e p parked
                (ap p.queue at ∙ v.empty) in
            cc
        | inr other ↦
            let u : IsSame d p q =
              subst (AllOf (λ (x : Pool × Phase). IsSame d p x.0)) h
                (resume-IsSame cfg t.database_name d t.wait_start now other t.phase e p) in
            record {
              full = omega (arith, u.size, v.full);
              empty = u.queue ∙ v.empty;
              parked =
                  All-put d before after (task t.database_name t.wait_start ph)
                    (IsParked-other d (task t.database_name t.wait_start ph) other)
                    (All-at d before after t v.parked).1;
            }
      ]

  drains-IsExhausted :
      (j : Text) (c : ℕ) (rest : List ℕ) (p : Pool) (ts : List Task)
      → p.queue j ≡ c ∷ rest
      → IsExhausted cfg d (world p ts)
      → IsExhausted cfg d (
          world
            (begin_discard j c (record p { queue = update p.queue j rest }))
            (ts ++ task j 0 closing ∷ []))
  unfolding begin_discard update
  drains-IsExhausted j c rest p ts e v = elim (Bool-cases (text_eq j d)) [
    | inl same ↦
        let at : j ≡ d = text_eq-eq j d same in
        let clash : [] ≡ c ∷ rest = sym v.empty ∙ ap p.queue (sym at) ∙ e in cc
    | inr other ↦ record {
      full = v.full;
      empty = rw other v.empty;
      parked =
          All-last d ts (task j 0 closing) (IsParked-other d (task j 0 closing) other) v.parked;
    }
  ]

  Step-IsExhausted : {v w : World} → Step cfg v w → IsExhausted cfg d v → IsExhausted cfg d w
  Step-IsExhausted (acquires {p} {q} {ts} {ph} j now e) x = acquires-IsExhausted j now p q ts ph e x
  Step-IsExhausted (resumes {p} {q} {ph} before after t e now h) x =
      resumes-IsExhausted p q ph before after t e now h x
  Step-IsExhausted closes x = record { full = x.full; empty = x.empty; parked = x.parked }
  Step-IsExhausted (drains {p} {ts} j c rest closed e) x = drains-IsExhausted j c rest p ts e x

  -- A cancelled task gives nothing back.
  Cancel-IsExhausted : {v w : World} → Cancel v w → IsExhausted cfg d v → IsExhausted cfg d w
  Cancel-IsExhausted (cancels {p} before after t h) x =
      let ended_task = task t.database_name t.wait_start ended in
      record {
        full = x.full;
        empty = x.empty;
        parked =
            All-put d before after ended_task (IsParked-ended d t.database_name t.wait_start)
              (All-at d before after t x.parked).1;
      }

  -- An exhausted database stays exhausted at every step and at every cancellation: every later caller
  -- of `acquire` is refused or waits, and no connection is created, handed out or given back.
  pub move-IsExhausted :
      {v w : World} → Step cfg v w ⊎ Cancel v w → IsExhausted cfg d v → IsExhausted cfg d w
  move-IsExhausted (inl s) x = Step-IsExhausted s x
  move-IsExhausted (inr c) x = Cancel-IsExhausted c x
