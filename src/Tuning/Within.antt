-- ===== src/Tuning/Within.antt =====
-- Sessions and their candidates, src/azure_sql_mcp/performance_store.py, within the limits of the sessions
-- behind each kind of write.
use azure_sql_mcp.Shared.{
  ℕ, ◌<◌, ◌≡◌, sym, ap, ◌∙◌, subst, ◌⊎◌, inl, inr, false, Option, none, some, ◌==◌, if◌then◌else◌,
  arith, Bool-cases, ==_iff, length,
}
use azure_sql_mcp.Shared.Rows.{find_row, put_row, find_row-put_row}
use azure_sql_mcp.Tuning.{Session, Candidate, Store, session_key, candidate_key}
use azure_sql_mcp.Tuning.Save.{get_session, get_candidate, list_candidates}
use azure_sql_mcp.Tuning.Transactions.{save_both}
use azure_sql_mcp.Tuning.Service.{read_over, total_executions}
use azure_sql_mcp.Tuning.Locked.{SameRows}
use azure_sql_mcp.Tuning.Effect.{Besides, nothing, moved, new, Wrote}
use azure_sql_mcp.Tuning.History.{Besides-others}
use azure_sql_mcp.Tuning.Asked.{limits_of, RunsWithin, Spent, Moves, Spends}
use azure_sql_mcp.Tuning.Still.{read_over_found}
use azure_sql_mcp.Tuning.Limits.{
  candidate_inj, Within, Within-limits, Within-same, Within-moved, Within-new, Within-other,
}

-- Each session's candidates are within its limits.
abbrev pub IsWithin : Store → Type 0
IsWithin st = (sid : ℕ) (s : Session) → get_session sid st ≡ some s → Within s sid st

differ : (i j : ℕ) → i == j ≡ false → i ≡ j → ⊥
differ i j apart is = ground (arith, apart, is)

differs : (i j : ℕ) → (i ≡ j → ⊥) → i == j ≡ false
differs i j apart = elim (Bool-cases (i == j)) [
  | inl same ↦ absurd (apart ((==_iff i j).0 same))
  | inr other ↦ other
]

pub session_inj : (a b : Session) → some a ≡ some b → a ≡ b
session_inj a b e = cc

-- The session that is stored under an identifier behind a write.
pub Wrote-found :
    {o e : ℕ} {s' : Session} {c' : Option Candidate} {st st' : Store}
    → Wrote o e s' c' st st'
    → (sid : ℕ) (t : Session) → get_session sid st' ≡ some t
    → ((o ≡ sid) × (s' ≡ t)) ⊎ ((o ≡ sid → ⊥) × (get_session sid st ≡ some t))
unfolding get_session
Wrote-found {o} {e} {s'} {c'} {st} {st'} w sid t at =
    let now : (if s'.session_id == sid then some s' else find_row session_key sid st.sessions)
        ≡ some t =
      sym
        (ap (find_row session_key sid) w.sessions ∙ find_row-put_row session_key sid s' st.sessions)
      ∙ at in
    elim (Bool-cases (s'.session_id == sid)) [
      | inl same ↦ inl (
        sym w.same_id ∙ (==_iff s'.session_id sid).0 same,
        session_inj s' t (
            subst (λ b. (if b then some s' else find_row session_key sid st.sessions) ≡ some t) same
              now),
      )
      | inr apart ↦ inr (
        λ is. differ s'.session_id sid apart (w.same_id ∙ is),
        subst (λ b. (if b then some s' else find_row session_key sid st.sessions) ≡ some t) apart
            now,
      )
    ]

-- The limits behind a write: of the session that is written, and of the others.
Wrote-IsWithin :
    {o e : ℕ} {s' : Session} {c' : Option Candidate} {st st' : Store}
    → Wrote o e s' c' st st'
    → (s : Session) → get_session o st ≡ some s
    → limits_of s' ≡ limits_of s
    → (Within s o st → Within s o st')
    → ((sid : ℕ) (t : Session) → (o ≡ sid → ⊥) → Within t sid st → Within t sid st')
    → IsWithin st
    → IsWithin st'
Wrote-IsWithin {o} {e} {s'} {c'} {st} {st'} w s read same own others h sid t at =
    elim (Wrote-found w sid t at) [
      | inl (is, now) ↦
          subst (λ x. Within x sid st') now
            (subst (λ i. Within s' i st') is (Within-limits s s' o st' same (own (h o s read))))
      | inr (apart, before) ↦ others sid t apart (h sid t before)
    ]

-- Another session's limits behind a write of a candidate.
other-Within :
    (o : ℕ) (c : Candidate) (st st' : Store)
    → Besides st st' (some c)
    → c.session_id ≡ o
    → st'.candidates ≡ put_row candidate_key c st.candidates
    → ((old : Candidate)
        → get_candidate c.candidate_id st ≡ some old
        → old.session_id ≡ c.session_id)
    → (sid : ℕ) (t : Session) → (o ≡ sid → ⊥)
    → Within t sid st
    → Within t sid st'
other-Within o c st st' b own written before sid t apart =
    Within-other t sid c st st' (λ is. apart (sym own ∙ is)) written
      (Besides-others sid st st' o (some c) (differs o sid apart) b
        (λ x same. subst (λ y. y.session_id ≡ o) (candidate_inj c x same) own)
        (λ x old same.
          subst (λ y. get_candidate y.candidate_id st ≡ some old → old.session_id ≡ y.session_id)
            (candidate_inj c x same) (before old)))

pub same-IsWithin : (st st' : Store) → SameRows st st' → IsWithin st → IsWithin st'
unfolding get_session
same-IsWithin st st' same h sid s at =
    Within-same s sid st st' same.candidates
      (h sid s (ap (find_row session_key sid) (sym same.sessions) ∙ at))

-- The candidate that a call saves over.
pub record Over (s : Session) (total : ℕ) (c : Candidate) (st : Store) : Type 0 where
  pub old : Candidate
  pub stored : get_candidate c.candidate_id st ≡ some old
  pub same_owner : old.session_id ≡ c.session_id
  pub spent : Spent s total old c

pub found-Over :
    (o : Option ℕ) (s s' : Session) (c : Candidate) (e ec total : ℕ) (st : Store)
    (found : Option Candidate)
    → read_over o st ≡ found
    → Moves (save_both s' c e ec) found
    → Spends s found total (save_both s' c e ec)
    → Over s total c st
found-Over o s s' c e ec total st none at m spends = absurd m
found-Over o s s' c e ec total st (some y) at (same_id, same_owner) spends = record {
  old = y;
  stored = ap (λ i. get_candidate i st) same_id ∙ read_over_found o st y at;
  same_owner = sym same_owner;
  spent = spends;
}

old_inj : (x y : Candidate) {o : Option Candidate} → o ≡ some x → o ≡ some y → x ≡ y
old_inj x y at at' = candidate_inj x y (sym at ∙ at')

pub both-IsWithin :
    (sid e : ℕ) (s s' : Session) (c : Candidate) (st st' : Store)
    → Wrote sid e s' (some c) st st'
    → get_session sid st ≡ some s
    → limits_of s' ≡ limits_of s
    → c.session_id ≡ sid
    → Over s (total_executions sid st) c st
    → Besides st st' (some c)
    → IsWithin st
    → IsWithin st'
both-IsWithin sid e s s' c st st' w read same own o (moved c' old found up written) =
    Wrote-IsWithin w s read same
      (Within-moved s sid c o.old st st' own (o.same_owner ∙ own) o.stored written o.spent)
      (other-Within sid c st st' (moved c old found up written) own written
        (λ x at. ap (λ (y : Candidate). y.session_id) (old_inj x o.old at o.stored) ∙ o.same_owner))
both-IsWithin sid e s s' c st st' w read same own o (new c' fresh written) =
    let no : none ≡ some o.old = sym fresh ∙ o.stored in cc

pub create-IsWithin :
    (sid e : ℕ) (s s' : Session) (c : Candidate) (st st' : Store)
    → Wrote sid e s' (some c) st st'
    → get_session sid st ≡ some s
    → limits_of s' ≡ limits_of s
    → c.session_id ≡ sid
    → get_candidate c.candidate_id st ≡ none
    → length (list_candidates sid st) < s.max_candidates
    → c.executions ≡ 0
    → RunsWithin s c
    → Besides st st' (some c)
    → IsWithin st
    → IsWithin st'
create-IsWithin sid e s s' c st st' w read same own fresh room idle runs
      (moved c' old found up written) =
    let no : none ≡ some old = sym fresh ∙ found in cc
create-IsWithin sid e s s' c st st' w read same own fresh room idle runs (new c' fresh' written) =
    Wrote-IsWithin w s read same (Within-new s sid c st st' own fresh written idle runs room) (
      other-Within sid c st st' (new c fresh' written) own written
        (λ x at. let no : none ≡ some x = sym fresh ∙ at in cc))

pub save-IsWithin :
    (sid e : ℕ) (s s' : Session) (st st' : Store)
    → Wrote sid e s' none st st'
    → get_session sid st ≡ some s
    → limits_of s' ≡ limits_of s
    → Besides st st' none
    → IsWithin st
    → IsWithin st'
save-IsWithin sid e s s' st st' w read same (nothing still) =
    Wrote-IsWithin w s read same (Within-same s sid st st' still)
      (λ o t apart. Within-same t o st st' still)
