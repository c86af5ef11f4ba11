-- ===== src/Pool/Tasks/Stranded.antt =====
-- Runs of src/azure_sql_mcp/connection_pool.py that end in starvation.
use azure_sql_mcp.Shared.{
  ℕ, zero, suc, ◌≤◌, ◌≡◌, refl, subst, Bool, true, false, none, some, List, [], ◌∷◌, ◌++◌, All,
  arith, if◌then◌else◌,
}
use azure_sql_mcp.Shared.Text.{Text, text_eq, text_eq_refl}
use azure_sql_mcp.Pool.{
  Config, Pool, init, update, begin_discard, grant, end_discard, record_success,
}
use azure_sql_mcp.Pool.Tasks.{
  Phase, creating, waiting, holding, closing, ended, Event, created, discards, connection_closed,
  resume, count_create,
}
use azure_sql_mcp.Pool.Tasks.Step.{
  Task, World, world, task, Step, resumes, Cancel, cancels, Reach, start, step, cancel, in_use,
  slots,
}
use azure_sql_mcp.Pool.Tasks.Fresh.{IsFresh, phase_at, acquires_lem, init-IsFresh}
use azure_sql_mcp.Pool.Tasks.Starvation.{is_parked, IsParked, IsExhausted, All-last, resume-parked}

slots-parked :
    (b : Bool) (ph : Phase)
    → (if b then is_parked ph else true) ≡ true
    → (if b then slots ph else 0) ≡ 0
slots-parked false ph h = refl
slots-parked true ph h = ground arith

-- Tasks that wait or have ended take up no slots.
in_use-parked : (d : Text) (ts : List Task) → All (IsParked d) ts → in_use d ts ≡ 0
unfolding in_use
in_use-parked d [] h = refl
in_use-parked d (t ∷ ts) h =
    omega (arith, slots-parked (text_eq t.database_name d) t.phase h.0, in_use-parked d ts h.1)

module _ (cfg : Config) (d : Text) where
  -- A run of so many callers of `acquire`, one after another, each of which begins to create a
  -- connection and is cancelled there.
  pub data CancelledCreations : ℕ → World → Type 0 where
    no_caller : CancelledCreations 0 (world init [])
    one_more :
        {n : ℕ} {p q : Pool} {ts : List Task} (now : ℕ)
        → CancelledCreations n (world p ts)
        → Step cfg (world p ts) (world q (ts ++ task d now creating ∷ []))
        → Cancel (world q (ts ++ task d now creating ∷ [])) (world q (ts ++ task d now ended ∷ []))
        → CancelledCreations (suc n) (world q (ts ++ task d now ended ∷ []))

  CancelledCreations-Reach : {n : ℕ} {w : World} → CancelledCreations n w → Reach cfg true w
  CancelledCreations-Reach no_caller = start
  CancelledCreations-Reach (one_more now r s c) =
      cancel refl (step (CancelledCreations-Reach r) s) c

  cancelled_creations :
      (size : ℕ)
      → size ≤ cfg.pool_size
      → (w : World) × CancelledCreations size w × IsFresh d size w.pool × All (IsParked d) w.tasks
  cancelled_creations zero h = (world init [], no_caller, (init-IsFresh cfg d), tt)
  cancelled_creations (suc size) h =
      let (w, r, fresh, parked) = cancelled_creations size (omega arith) in
      let (q, s, fresher) = acquires_lem cfg d size w.pool w.tasks fresh in
      let creates : phase_at cfg size ≡ creating = ground arith in
      let s' : Step cfg (world w.pool w.tasks) (world q (w.tasks ++ task d 0 creating ∷ [])) =
        subst (λ ph. Step cfg (world w.pool w.tasks) (world q (w.tasks ++ task d 0 ph ∷ [])))
          creates s in
      (
        world q (w.tasks ++ task d 0 ended ∷ []),
        one_more 0 r s' (cancels w.tasks [] (task d 0 creating) refl),
        subst (λ n. IsFresh d n q) (ground arith) fresher,
        All-last d w.tasks (task d 0 ended) (ground arith) parked,
      )

  -- As many callers as the pool has slots, each of which begins to create a connection and is cancelled
  -- there, leave the database exhausted, although none of them has a connection.
  pub cancellations_exhaust :
      (w : World) × CancelledCreations cfg.pool_size w
      × Reach cfg true w
      × IsExhausted cfg d w
      × (in_use d w.tasks ≡ 0)
  cancellations_exhaust =
      let (w, r, fresh, parked) = cancelled_creations cfg.pool_size (omega arith) in
      (
        w,
        r,
        CancelledCreations-Reach r,
        record { full = omega (arith, fresh.taken); empty = fresh.empty; parked = parked },
        in_use-parked d w.tasks parked,
      )

  -- The bookkeeping of a connection that is created, discarded and closed.
  lifecycle :
      (c size : ℕ) (p : Pool)
      → IsFresh d (suc size) p
      → IsFresh d (suc size) (grant d c 0 0 (count_create cfg d 0 0 p))
        × IsFresh d (suc size) (begin_discard d c p)
        × IsFresh d size (end_discard d p)
  unfolding grant count_create begin_discard end_discard update record_success
  lifecycle c size p h = (
    record {
      not_closed = h.not_closed;
      breaker_closed = ground (arith, text_eq_refl d);
      empty = h.empty;
      taken = h.taken;
    },
    record {
      not_closed = h.not_closed;
      breaker_closed = h.breaker_closed;
      empty = h.empty;
      taken = h.taken;
    },
    record {
      not_closed = h.not_closed;
      breaker_closed = h.breaker_closed;
      empty = h.empty;
      taken = ground (arith, text_eq_refl d);
    },
  )

  create-Step :
      (c : ℕ) (q : Pool)
      → Step cfg
          (world q (task d 0 creating ∷ []))
          (world (grant d c 0 0 (count_create cfg d 0 0 q)) (task d 0 (holding c) ∷ []))
  unfolding resume
  create-Step c q = resumes [] [] (task d 0 creating) (created c) 0 refl

  -- In a pool of one connection, with no cancellation at all, a caller can come to wait while another
  -- holds the connection. Once the holder has discarded it and it is closed, the slot is free again;
  -- but the caller still waits, with no event on which it can go on.
  pub waiter_is_stranded :
      (c : ℕ)
      → cfg.pool_size ≡ 1
      → (p q r : Pool) × Reach cfg false (world p (task d 0 (holding c) ∷ task d 0 waiting ∷ []))
        × (resume cfg d 0 0 (holding c) discards p ≡ some (q, closing))
        × (resume cfg d 0 0 closing connection_closed q ≡ some (r, ended))
        × (p.size d ≡ 1)
        × (r.size d ≡ 0)
        × (r.queue d ≡ [])
        × ((e : Event) (now : ℕ) → resume cfg d 0 now waiting e r ≡ none)
  unfolding resume
  waiter_is_stranded c one =
      let (q, s, fresh) = acquires_lem cfg d 0 init [] (init-IsFresh cfg d) in
      let first : phase_at cfg 0 ≡ creating = ground arith in
      let s' : Step cfg (world init []) (world q (task d 0 creating ∷ [])) =
        subst (λ ph. Step cfg (world init []) (world q (task d 0 ph ∷ []))) first s in
      let fresh' : IsFresh d 1 q = subst (λ n. IsFresh d n q) (ground arith) fresh in
      let held = grant d c 0 0 (count_create cfg d 0 0 q) in
      let (u, wait, full) =
        acquires_lem cfg d 1 held (task d 0 (holding c) ∷ []) (lifecycle c 0 q fresh').0 in
      let second : phase_at cfg 1 ≡ waiting = ground arith in
      let wait' : Step cfg (world held (task d 0 (holding c) ∷ []))
          (world u (task d 0 (holding c) ∷ task d 0 waiting ∷ [])) =
        subst
          (λ ph.
            Step cfg (world held (task d 0 (holding c) ∷ []))
              (world u (task d 0 (holding c) ∷ task d 0 ph ∷ [])))
          second wait in
      let full' : IsFresh d 1 u = subst (λ n. IsFresh d n u) (ground arith) full in
      let dropped = begin_discard d c u in
      let last = (lifecycle c 0 dropped (lifecycle c 0 u full').1).2 in
      (
        u,
        dropped,
        end_discard d dropped,
        step (step (step start s') (create-Step c q)) wait',
        refl,
        refl,
        full'.taken,
        last.taken,
        last.empty,
        λ e now. resume-parked cfg d 0 now waiting e (end_discard d dropped) refl last.empty,
      )
