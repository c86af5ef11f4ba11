-- ===== src/Pool/Tasks/Step.antt =====
-- The event loop over the tasks of src/azure_sql_mcp/connection_pool.py.
use azure_sql_mcp.Shared.{ℕ, ◌+◌, ◌≡◌, Bool, true, false, some, List, [], ◌∷◌, ◌++◌, if◌then◌else◌}
use azure_sql_mcp.Shared.Text.{Text, text_eq}
use azure_sql_mcp.Pool.{Config, Pool, init, update, begin_discard}
use azure_sql_mcp.Pool.Tasks.{
  Phase, validating, creating, waiting, closing_to_retry, closing, holding, ended, Event, resume,
  started, begin_acquire,
}

pub record Task : Type 0 where
  pub database_name : Text
  pub wait_start : ℕ
  pub phase : Phase

pub record World : Type 0 where
  pub pool : Pool
  pub tasks : List Task

abbrev pub world : Pool → List Task → World
world p ts = record { pool = p; tasks = ts }

abbrev pub task : Text → ℕ → Phase → Task
task d s ph = record { database_name = d; wait_start = s; phase = ph }

-- The phases at an `await`, where a cancellation can reach the task.
abbrev pub is_suspended : Phase → Bool
is_suspended (holding c) = false
is_suspended ended = false
is_suspended _ = true

-- What can happen next but a cancellation.
pub data Step (cfg : Config) : World → World → Type 0 where
  acquires :
      {p q : Pool} {ts : List Task} {ph : Phase} (d : Text) (now : ℕ)
      → begin_acquire cfg d now p ≡ started q ph
      → Step cfg (world p ts) (world q (ts ++ task d now ph ∷ []))
  resumes :
      {p q : Pool} {ph : Phase} (before after : List Task) (t : Task) (e : Event) (now : ℕ)
      → resume cfg t.database_name t.wait_start now t.phase e p ≡ some (q, ph)
      → Step cfg
          (world p (before ++ t ∷ after))
          (world q (before ++ task t.database_name t.wait_start ph ∷ after))
  -- the two parts of `close_all`
  closes :
      {p : Pool} {ts : List Task} → Step cfg (world p ts) (world (record p { closed = true }) ts)
  drains :
      {p : Pool} {ts : List Task} (d : Text) (c : ℕ) (rest : List ℕ)
      → p.closed ≡ true
      → p.queue d ≡ c ∷ rest
      → Step cfg (world p ts) (
          world
            (begin_discard d c (record p { queue = update p.queue d rest }))
            (ts ++ task d 0 closing ∷ []))

-- CancelledError at an `await`: no `except Exception` sees it.
pub data Cancel : World → World → Type 0 where
  cancels :
      {p : Pool} (before after : List Task) (t : Task)
      → is_suspended t.phase ≡ true
      → Cancel
          (world p (before ++ t ∷ after))
          (world p (before ++ task t.database_name t.wait_start ended ∷ after))

-- Any run, from the pool as it is made; the flag says whether tasks may be cancelled.
pub data Reach (cfg : Config) (cancellable : Bool) : World → Type 0 where
  start : Reach cfg cancellable (world init [])
  step : {v w : World} → Reach cfg cancellable v → Step cfg v w → Reach cfg cancellable w
  cancel :
      {v w : World}
      → cancellable ≡ true
      → Reach cfg cancellable v
      → Cancel v w
      → Reach cfg cancellable w

-- The slots of the pool that a phase takes up.
abbrev pub slots : Phase → ℕ
slots (validating c) = 1
slots creating = 1
slots waiting = 0
slots closing_to_retry = 1
slots closing = 1
slots (holding c) = 1
slots ended = 0

unfoldable pub in_use : Text → List Task → ℕ
in_use d [] = 0
in_use d (t ∷ ts) = (if text_eq t.database_name d then slots t.phase else 0) + in_use d ts
