-- ===== src/Slots/Limit.antt =====
-- What each session carries and its budget: src/azure_sql_mcp/performance_store.py.
use azure_sql_mcp.Shared.{
  ℕ, ◌+◌, ◌≤◌, ◌≡◌, sym, ap, ◌∙◌, subst, inl, inr, Bool-cases, true, false, Option, none, some,
  length, ◌==◌, ==_iff, if◌then◌else◌, arith,
}
use azure_sql_mcp.Shared.Rows.{
  find_row, sum_rows, find_row-put_row, key-find_row, sum_rows-put_row_new,
}
use azure_sql_mcp.Shared.Raising.{raised, returned, OkOf}
use azure_sql_mcp.Tuning
use azure_sql_mcp.Tuning.{Candidate, candidate_key, session_key, candidate_attach}
use azure_sql_mcp.Tuning.Save.{get_session, get_candidate, list_candidates}
use azure_sql_mcp.Tuning.Transactions.{attached}
use azure_sql_mcp.Slots.{lift}
use azure_sql_mcp.Slots.Counts.{belongs, length-list_candidates}
use azure_sql_mcp.Slots.Taken.{Saved}

-- The number of candidates of a session once one is saved.
pub count-Saved :
    (current : Tuning.Session) (c : Candidate) (st st' : Tuning.Store) (s : ℕ)
    → Saved current c st st'
    → length (list_candidates s st') ≡ length (list_candidates s st) + belongs s c
unfolding list_candidates get_candidate
count-Saved current c st st' s saved = omega (
  arith,
  length-list_candidates s st.candidates,
  length-list_candidates s st'.candidates,
  ap (sum_rows candidate_key (belongs s)) saved.candidates,
  sum_rows-put_row_new candidate_key (belongs s) c st.candidates saved.fresh,
)

pub limit_inj : (t u : Tuning.Session) → some t ≡ some u → t.max_candidates ≡ u.max_candidates
limit_inj t u e =
    ap (λ (o : Option Tuning.Session). elim o [ none ↦ 0 | some x ↦ x.max_candidates ]) e

-- A limit on what each session carries outlives a save that fits the limit of its session.
pub limit-Saved :
    (load load' : ℕ → ℕ) (sid : ℕ) (current : Tuning.Session) (c : Candidate)
    (st st' : Tuning.Store)
    → get_session sid st ≡ some current
    → Saved current c st st'
    → load' sid ≤ current.max_candidates
    → ((s : ℕ) → sid == s ≡ false → load' s ≤ load s)
    → ((s : ℕ) (t : Tuning.Session) → get_session s st ≡ some t → load s ≤ t.max_candidates)
    → (s : ℕ) (t : Tuning.Session) → get_session s st' ≡ some t
    → load' s ≤ t.max_candidates
unfolding get_session
limit-Saved load load' sid current c st st' at saved fits others h s t at' =
    elim (Bool-cases (sid == s)) [
      | inl same ↦
          let e : sid ≡ s = (==_iff sid s).0 same in
          let is : some (attached current c) ≡ some t =
            subst
              (λ b.
                (if b then some (attached current c) else find_row session_key s st.sessions)
                ≡ some t)
              (subst (λ i. i == s ≡ true) (sym key) same) now in
          omega (
            arith,
            subst (λ i. load' i ≤ current.max_candidates) e fits,
            limit_inj (attached current c) t is,
          )
      | inr other ↦
          let old : find_row session_key s st.sessions ≡ some t =
            subst
              (λ b.
                (if b then some (attached current c) else find_row session_key s st.sessions)
                ≡ some t)
              (subst (λ i. i == s ≡ false) (sym key) other) now in
          omega (arith, others s other, h s t old)
    ]
  where
    key : current.session_id ≡ sid
    key = key-find_row session_key sid current st.sessions at

    now :
        (if current.session_id == s
          then some (attached current c)
          else find_row session_key s st.sessions)
        ≡ some t
    now =
        sym (
          ap (find_row session_key s) saved.sessions
          ∙ find_row-put_row session_key s (attached current c) st.sessions)
        ∙ at'

-- What goes through `lift` was returned.
pub lifted :
    {A : Type 0} (P : A → Type 0) (m : Tuning.Result A) {a : A}
    → lift m ≡ returned a
    → OkOf P m
    → P a
lifted P (returned b) e h = subst (OkOf P) e h
lifted P (raised x) e h = cc

pub belongs_le : (s : ℕ) (c : Candidate) → belongs s c ≤ 1
belongs_le s c = ground arith

pub belongs_other :
    (sid s : ℕ) (c : Candidate) → c.session_id ≡ sid → sid == s ≡ false → belongs s c ≡ 0
belongs_other sid s c own other = ground (arith, own)
