-- ===== src/Pool/Tasks/Capacity.antt =====
-- No run of src/azure_sql_mcp/connection_pool.py passes the size of the pool.
use azure_sql_mcp.Shared.{
  ℕ, ◌+◌, ◌≤◌, ◌≡◌, refl, sym, ap, subst, Bool, false, some, List, [], ◌∷◌, ◌++◌, length, arith,
  if◌then◌else◌, Bool-cases, inl, inr,
}
use azure_sql_mcp.Shared.Text.{Text, text_eq, text_eq-eq}
use azure_sql_mcp.Pool.{Config, Pool, init, update, begin_discard}
use azure_sql_mcp.Pool.Tasks.{Phase, waiting, closing, ended, Event, resume, started, begin_acquire}
use azure_sql_mcp.Pool.Tasks.Step.{
  Task, World, world, task, Step, acquires, resumes, closes, drains, Cancel, cancels, Reach, start,
  step, cancel, slots, in_use,
}
use azure_sql_mcp.Pool.Tasks.Balance.{
  IsAccounted, IsAccountedPair, AllOf, StartOf, begin_acquire-IsAccounted, resume-IsAccounted,
}
use azure_sql_mcp.Pool.Tasks.Elsewhere.{IsSame, begin_acquire-IsSame, resume-IsSame}

-- The size of every database is what its tasks and its queue take up, and what was lost, and is in
-- bounds.
pub record IsSoundAt (cfg : Config) (lost : ℕ) (d : Text) (w : World) : Type 0 where
  pub exact : w.pool.size d ≡ lost + in_use d w.tasks + length (w.pool.queue d)
  pub within : w.pool.size d ≤ cfg.pool_size

in_use-append : (d : Text) (xs ys : List Task) → in_use d (xs ++ ys) ≡ in_use d xs + in_use d ys
unfolding in_use
in_use-append d [] ys = omega arith
in_use-append d (t ∷ xs) ys = omega (arith, in_use-append d xs ys)

in_use-at :
    (d : Text) (before after : List Task) (t : Task)
    → in_use d (before ++ t ∷ after)
      ≡ in_use d before + in_use d after + (if text_eq t.database_name d then slots t.phase else 0)
unfolding in_use
in_use-at d before after t = omega (arith, in_use-append d before (t ∷ after))

in_use-last :
    (d : Text) (ts : List Task) (t : Task)
    → in_use d (ts ++ t ∷ [])
      ≡ in_use d ts + (if text_eq t.database_name d then slots t.phase else 0)
unfolding in_use
in_use-last d ts t = omega (arith, in_use-append d ts (t ∷ []))

module _ (cfg : Config) where
  acquires-IsSoundAt :
      (lost : ℕ) (j d : Text) (now : ℕ) (p q : Pool) (ts : List Task) (ph : Phase)
      → begin_acquire cfg d now p ≡ started q ph
      → IsSoundAt cfg lost j (world p ts)
      → IsSoundAt cfg lost j (world q (ts ++ task d now ph ∷ []))
  acquires-IsSoundAt lost j d now p q ts ph e v = elim (Bool-cases (text_eq d j)) [
    | inl same ↦
        let k = lost + in_use j ts in
        let at : j ≡ d = sym (text_eq-eq d j same) in
        let old : IsAccounted cfg j k p waiting = ground arith in
        let new : IsAccounted cfg d k q ph = subst (StartOf (IsAccountedPair cfg d k)) e (
          begin_acquire-IsAccounted cfg d now k p
            (subst (λ i. IsAccounted cfg i k p waiting) at old)) in
        let there : IsAccounted cfg j k q ph = subst (λ i. IsAccounted cfg i k q ph) (sym at) new in
        ground (arith, in_use-last j ts (task d now ph))
    | inr other ↦
        let unchanged : IsSame j p q =
          subst (StartOf (λ (x : Pool × Phase). IsSame j p x.0)) e
            (begin_acquire-IsSame cfg d j now other p) in
        ground (arith, in_use-last j ts (task d now ph))
  ]

  resumes-IsSoundAt :
      (lost : ℕ) (j : Text) (p q : Pool) (before after : List Task) (t : Task) (e : Event) (now : ℕ)
      (ph : Phase)
      → resume cfg t.database_name t.wait_start now t.phase e p ≡ some (q, ph)
      → IsSoundAt cfg lost j (world p (before ++ t ∷ after))
      → IsSoundAt cfg lost j (world q (before ++ task t.database_name t.wait_start ph ∷ after))
  resumes-IsSoundAt lost j p q before after t e now ph h v =
      elim (Bool-cases (text_eq t.database_name j)) [
        | inl same ↦
            let d = t.database_name in
            let k = lost + in_use j before + in_use j after in
            let at : j ≡ d = sym (text_eq-eq d j same) in
            let old : IsAccounted cfg j k p t.phase = ground (arith, in_use-at j before after t) in
            let new : IsAccounted cfg d k q ph = subst (AllOf (IsAccountedPair cfg d k)) h (
              resume-IsAccounted cfg d t.wait_start now k t.phase e p
                (subst (λ i. IsAccounted cfg i k p t.phase) at old)) in
            let there : IsAccounted cfg j k q ph =
              subst (λ i. IsAccounted cfg i k q ph) (sym at) new in
            ground (arith, in_use-at j before after (task d t.wait_start ph))
        | inr other ↦
            let d = t.database_name in
            let unchanged : IsSame j p q =
              subst (AllOf (λ (x : Pool × Phase). IsSame j p x.0)) h
                (resume-IsSame cfg d j t.wait_start now other t.phase e p) in
            ground
              (arith, in_use-at j before after t, in_use-at j before after (task d t.wait_start ph))
      ]

  drains-IsSoundAt :
      (lost : ℕ) (j d : Text) (c : ℕ) (rest : List ℕ) (p : Pool) (ts : List Task)
      → p.queue d ≡ c ∷ rest
      → IsSoundAt cfg lost j (world p ts)
      → IsSoundAt cfg lost j (
          world
            (begin_discard d c (record p { queue = update p.queue d rest }))
            (ts ++ task d 0 closing ∷ []))
  unfolding begin_discard update
  drains-IsSoundAt lost j d c rest p ts e v = elim (Bool-cases (text_eq d j)) [
    | inl same ↦
        let at : j ≡ d = sym (text_eq-eq d j same) in
        ground
          (arith, in_use-last j ts (task d 0 closing), ap (λ i. length (p.queue i)) at, ap length e)
    | inr other ↦ ground (arith, in_use-last j ts (task d 0 closing))
  ]

  -- Every step but a cancellation keeps the account of every database.
  pub Step-IsSoundAt :
      (lost : ℕ) (j : Text) {v w : World}
      → Step cfg v w
      → IsSoundAt cfg lost j v
      → IsSoundAt cfg lost j w
  Step-IsSoundAt lost j (acquires {p} {q} {ts} {ph} d now e) s =
      acquires-IsSoundAt lost j d now p q ts ph e s
  Step-IsSoundAt lost j (resumes {p} {q} {ph} before after t e now h) s =
      resumes-IsSoundAt lost j p q before after t e now ph h s
  Step-IsSoundAt lost j closes s = record { exact = s.exact; within = s.within }
  Step-IsSoundAt lost j (drains {p} {ts} d c rest closed e) s =
      drains-IsSoundAt lost j d c rest p ts e s

  -- A cancellation loses the slots of its task.
  pub Cancel-IsSoundAt :
      (lost : ℕ) (j : Text) {v w : World}
      → Cancel v w
      → IsSoundAt cfg lost j v
      → (more : ℕ) × IsSoundAt cfg (lost + more) j w
  Cancel-IsSoundAt lost j (cancels {p} before after t h) s = (
    if text_eq t.database_name j then slots t.phase else 0,
    ground (
      arith,
      in_use-at j before after t,
      in_use-at j before after (task t.database_name t.wait_start ended),
    ),
  )

  init-IsSoundAt : (j : Text) → IsSoundAt cfg 0 j (world init [])
  unfolding init in_use
  init-IsSoundAt j = record { exact = refl; within = omega arith }

  -- With no cancellation, the size that the pool records of a database is just its idle connections
  -- and those that its tasks create, validate, hold or close; and it never passes `pool_size`.
  pub Reach-IsSoundAt : (j : Text) {w : World} → Reach cfg false w → IsSoundAt cfg 0 j w
  Reach-IsSoundAt j start = init-IsSoundAt j
  Reach-IsSoundAt j (step r s) = Step-IsSoundAt 0 j s (Reach-IsSoundAt j r)
  Reach-IsSoundAt j (cancel e r c) = cc

  Reach-lost :
      {b : Bool} (j : Text) {w : World} → Reach cfg b w → (lost : ℕ) × IsSoundAt cfg lost j w
  Reach-lost j start = (0, init-IsSoundAt j)
  Reach-lost j (step r s) = let (lost, v) = Reach-lost j r in (lost, Step-IsSoundAt lost j s v)
  Reach-lost j (cancel e r c) =
      let (lost, v) = Reach-lost j r in
      let (more, u) = Cancel-IsSoundAt lost j c v in (lost + more, u)

  -- Whatever is cancelled, a database never has more connections than `pool_size`, idle ones and
  -- those of its tasks together.
  pub in_use-le-pool_size :
      {b : Bool} (j : Text) {w : World}
      → Reach cfg b w
      → in_use j w.tasks + length (w.pool.queue j) ≤ cfg.pool_size
  in_use-le-pool_size j r = let (lost, v) = Reach-lost j r in omega arith
