-- ===== src/Pool/Leaks.antt =====
-- `note_leaked_connections` and `check_leaked_connections` of src/azure_sql_mcp/connection_pool.py.
use azure_sql_mcp.Shared.{
  ℕ, suc, ◌-◌, ◌≡◌, refl, Bool, true, false, ◌&&◌, not, All, List, [], ◌∷◌, any, ltb, ◌==◌,
  if◌then◌else◌, arith,
}
use azure_sql_mcp.Pool.{Config, Pool, Lease, lease_timeout, lease_of}

abbrev has : ℕ → List ℕ → Bool
has c = any (λ k. k == c)

-- self._noted_leaks &= {conn_id for conn_id, _lease in held}
unfoldable pub still_held : List Lease → List ℕ → List ℕ
unfolding lease_of
still_held held [] = []
still_held held (c ∷ noted) =
    let rest = still_held held noted in if lease_of c held then c ∷ rest else rest

unfoldable pub is_overdue : Config → ℕ → Lease → Bool
unfolding lease_timeout
is_overdue cfg now l = ltb (lease_timeout cfg) (now - l.acquired_at)

-- The loop over the leases: the set of noted connections, and how many conditions it noted.
unfoldable pub note_loop : Config → ℕ → List Lease → List ℕ → List ℕ × ℕ
unfolding is_overdue any
note_loop cfg now [] noted = (noted, 0)
note_loop cfg now (l ∷ held) noted =
    let fresh = is_overdue cfg now l && not (has l.connection noted) in
    let (noted', n) = note_loop cfg now held (if fresh then l.connection ∷ noted else noted) in
    (noted', if fresh then suc n else n)

-- The new state, and the number of calls of `note_condition`.
unfoldable pub note_leaked_connections : Config → ℕ → Pool → Pool × ℕ
unfolding note_loop still_held
note_leaked_connections cfg now p =
    let (noted, n) = note_loop cfg now p.leases (still_held p.leases p.noted_leaks) in
    (record p { noted_leaks = noted }, n)

unfoldable pub overdue : Config → ℕ → List Lease → List Lease
unfolding is_overdue
overdue cfg now [] = []
overdue cfg now (l ∷ ls) =
    let rest = overdue cfg now ls in if is_overdue cfg now l then l ∷ rest else rest

-- The leases that `check_leaked_connections` reports.
unfoldable pub check_leaked_connections : Config → ℕ → Pool → Pool × List Lease
unfolding note_leaked_connections overdue
check_leaked_connections cfg now p =
    ((note_leaked_connections cfg now p).0, overdue cfg now p.leases)

module _ (cfg : Config) (now : ℕ) where
  has-note_loop :
      (c : ℕ) (held : List Lease) (noted : List ℕ)
      → has c noted ≡ true
      → has c (note_loop cfg now held noted).0 ≡ true
  unfolding note_loop
  has-note_loop c [] noted h = h
  has-note_loop c (l ∷ held) noted h = has-note_loop c held _ (ground arith)

  -- A lease that is overdue and not in the set.
  abbrev Quiet : List ℕ → Lease → Type 0
  Quiet noted l = (is_overdue cfg now l && not (has l.connection noted)) ≡ false

  note_loop-Quiet :
      (held : List Lease) (noted : List ℕ) → All (Quiet (note_loop cfg now held noted).0) held
  unfolding note_loop
  note_loop-Quiet [] noted = tt
  note_loop-Quiet (l ∷ held) noted =
      let fresh = is_overdue cfg now l && not (has l.connection noted) in
      let noted' = if fresh then l.connection ∷ noted else noted in
      (ground (arith, has-note_loop l.connection held noted'), note_loop-Quiet held noted')

  note_loop-none :
      (held : List Lease) (noted : List ℕ)
      → All (Quiet noted) held
      → (note_loop cfg now held noted).1 ≡ 0
  unfolding note_loop
  note_loop-none [] noted h = refl
  note_loop-none (l ∷ held) noted h = rw h.0 (note_loop-none held noted h.1)

  has-still_held :
      (c : ℕ) (held : List Lease) (noted : List ℕ)
      → lease_of c held ≡ true
      → has c (still_held held noted) ≡ has c noted
  unfolding still_held any
  has-still_held c held [] h = refl
  has-still_held c held (k ∷ noted) h = ground (arith, has-still_held c held noted h)

All-map : {P Q : Lease → Type 0} (ls : List Lease) → ((l : Lease) → P l → Q l) → All P ls → All Q ls
All-map [] f h = tt
All-map (l ∷ ls) f h = (f l h.0, All-map ls f h.1)

All-both : (P Q : Lease → Type 0) (ls : List Lease) → All P ls → All Q ls → All (λ l. P l × Q l) ls
All-both P Q [] h k = tt
All-both P Q (l ∷ ls) h k = ((h.0, k.0), All-both P Q ls h.1 k.1)

All-lease_of : (held : List Lease) → All (λ l. lease_of l.connection held ≡ true) held
unfolding lease_of any
All-lease_of [] = tt
All-lease_of (l ∷ held) = (ground arith, All-map held (λ k h. ground arith) (All-lease_of held))

-- A leaked connection is noted once: a second look at the same time notes none, whatever was noted
-- before the first.
note_leaked_connections_once :
    (cfg : Config) (now : ℕ) (p : Pool)
    → (note_leaked_connections cfg now (note_leaked_connections cfg now p).0).1 ≡ 0
unfolding note_leaked_connections
note_leaked_connections_once cfg now p =
    let noted = note_loop cfg now p.leases (still_held p.leases p.noted_leaks) in
    let quiet = note_loop-Quiet cfg now p.leases (still_held p.leases p.noted_leaks) in
    note_loop-none cfg now p.leases (still_held p.leases noted.0) (
      All-map p.leases (λ l h. rw (has-still_held cfg now l.connection p.leases noted.0 h.1) h.0)
        (All-both _ _ p.leases quiet (All-lease_of p.leases)))
