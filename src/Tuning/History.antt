-- ===== src/Tuning/History.antt =====
-- What the store keeps while transactions of any calls follow one another,
-- src/azure_sql_mcp/performance_store.py.
use azure_sql_mcp.Shared.{
  ℕ, ◌≤◌, ◌≡◌, refl, sym, ap, ◌∙◌, subst, inl, inr, false, Option, none, some, ◌==◌, arith,
  Bool-cases, ==_iff,
}
use azure_sql_mcp.Shared.Rows.{find_row, owned, find_row-put_row, owned-put_row}
use azure_sql_mcp.Shared.Raising.{OkOf}
use azure_sql_mcp.Tuning.{
  Session, Candidate, Store, returned, session_key, candidate_key, candidate_owner,
}
use azure_sql_mcp.Tuning.Save.{get_session, get_candidate, list_candidates}
use azure_sql_mcp.Tuning.Transactions.{Request, Commit, save_both, commit}
use azure_sql_mcp.Tuning.Create.{create_session, Adds, create_session-Adds}
use azure_sql_mcp.Tuning.Locked.{SameRows}
use azure_sql_mcp.Tuning.Effect.{
  Besides, nothing, moved, new, Wrote, Effect, kept, saved, saved_both, created,
}
use azure_sql_mcp.Tuning.Committed.{commit-Effect}

-- The candidate that is saved belongs to the session that the stored one belongs to.
abbrev pub KeepsOwner : Commit → Store → Type 0
KeepsOwner (save_both s c e ec) st =
    (old : Candidate) → get_candidate c.candidate_id st ≡ some old → old.session_id ≡ c.session_id
KeepsOwner _ st = Unit

-- One transaction.
pub data Step (st st' : Store) : Type 0 where
  step :
      (cm : Commit) (q : Request) → KeepsOwner cm st → commit cm q st ≡ returned st' → Step st st'
  begins : (s : Session) (q : Request) → create_session s q st ≡ returned st' → Step st st'

-- Transactions of any callers, one after another.
pub data Reach (st : Store) : Store → Type 0 where
  here : Reach st st
  next : {st' st'' : Store} → Reach st st' → Step st' st'' → Reach st st''

-- What is known of a session and its candidates some transactions later.
pub record Since (sid : ℕ) (st st' : Store) : Type 0 where
  pub session :
      (s : Session)
      → get_session sid st ≡ some s
      → (s' : Session) × (get_session sid st' ≡ some s')
        × (s.version ≤ s'.version)
        × (s'.version ≡ s.version → (s' ≡ s) × (list_candidates sid st' ≡ list_candidates sid st))
  pub owner :
      (cid : ℕ) (c : Candidate)
      → get_candidate cid st ≡ some c
      → (c' : Candidate) × (get_candidate cid st' ≡ some c') × (c'.session_id ≡ c.session_id)

same-Since : (sid : ℕ) (st st' : Store) → SameRows st st' → Since sid st st'
unfolding get_session get_candidate list_candidates
same-Since sid st st' h = record {
  session = λ s e. (
    s,
    ap (find_row session_key sid) h.sessions ∙ e,
    omega arith,
    λ same. (refl, ap (owned candidate_key candidate_owner sid) h.candidates),
  );
  owner = λ cid c e. (c, ap (find_row candidate_key cid) h.candidates ∙ e, refl);
}

pub trans-Since : (sid : ℕ) (a b c : Store) → Since sid a b → Since sid b c → Since sid a c
trans-Since sid a b c h k = record {
  session = λ s e.
      let (s', e', le, same) = h.session s e in
      let (s'', e'', le', same') = k.session s' e' in
      (
        s'',
        e'',
        omega (arith, le, le'),
        λ v.
            let back : s'.version ≡ s.version = omega (arith, le, le', v) in
            let (one, rows) = same back in
            let (two, rows') = same' (v ∙ sym back) in (two ∙ one, rows' ∙ rows),
      );
  owner = λ cid x e.
      let (x', e', own) = h.owner cid x e in
      let (x'', e'', own') = k.owner cid x' e' in (x'', e'', own' ∙ own);
}

module _ (sid : ℕ) (st st' : Store) where
  -- The candidates of other sessions than the one that is written.
  pub Besides-others :
      (o : ℕ) (c' : Option Candidate)
      → (o == sid ≡ false)
      → Besides st st' c'
      → ((c : Candidate) → c' ≡ some c → c.session_id ≡ o)
      → ((c old : Candidate)
          → c' ≡ some c
          → get_candidate c.candidate_id st ≡ some old
          → old.session_id ≡ c.session_id)
      → list_candidates sid st' ≡ list_candidates sid st
  unfolding get_candidate list_candidates
  Besides-others o c' other (nothing e) own before = ap (owned candidate_key candidate_owner sid) e
  Besides-others o c' other (moved c old found up e) own before =
      ap (owned candidate_key candidate_owner sid) e
      ∙ owned-put_row candidate_key candidate_owner sid c st.candidates (rw (own c refl) other)
          (λ y at. rw (before c y refl at, own c refl) other)
  Besides-others o c' other (new c fresh e) own before =
      ap (owned candidate_key candidate_owner sid) e
      ∙ owned-put_row candidate_key candidate_owner sid c st.candidates (rw (own c refl) other)
          (λ y at. let no : none ≡ some y = sym fresh ∙ at in cc)

  Besides-owner :
      (c' : Option Candidate)
      → Besides st st' c'
      → ((c old : Candidate)
          → c' ≡ some c
          → get_candidate c.candidate_id st ≡ some old
          → old.session_id ≡ c.session_id)
      → (cid : ℕ) (x : Candidate) → get_candidate cid st ≡ some x
      → (x' : Candidate) × (get_candidate cid st' ≡ some x') × (x'.session_id ≡ x.session_id)
  unfolding get_candidate
  Besides-owner c' (nothing e) before cid x at = (x, ap (find_row candidate_key cid) e ∙ at, refl)
  Besides-owner c' (moved c old found up e) before cid x at =
      elim (Bool-cases (c.candidate_id == cid)) [
        | inl same ↦
            let at' : find_row candidate_key c.candidate_id st.candidates ≡ some x =
              rw ((==_iff c.candidate_id cid).0 same) at in
            (
              c,
              ap (find_row candidate_key cid) e
                  ∙ find_row-put_row candidate_key cid c st.candidates
                  ∙ rw same,
              sym (before c x refl at'),
            )
        | inr apart ↦ (
          x,
          ap (find_row candidate_key cid) e
              ∙ find_row-put_row candidate_key cid c st.candidates
              ∙ rw apart at,
          refl,
        )
      ]
  Besides-owner c' (new c fresh e) before cid x at = elim (Bool-cases (c.candidate_id == cid)) [
    | inl same ↦
        let at' : find_row candidate_key c.candidate_id st.candidates ≡ some x =
          rw ((==_iff c.candidate_id cid).0 same) at in
        let no : none ≡ some x = sym fresh ∙ at' in cc
    | inr apart ↦ (
      x,
      ap (find_row candidate_key cid) e
          ∙ find_row-put_row candidate_key cid c st.candidates
          ∙ rw apart at,
      refl,
    )
  ]

  Wrote-Since :
      (o e : ℕ) (s' : Session) (c' : Option Candidate)
      → Wrote o e s' c' st st'
      → ((c : Candidate) → c' ≡ some c → c.session_id ≡ o)
      → ((c old : Candidate)
          → c' ≡ some c
          → get_candidate c.candidate_id st ≡ some old
          → old.session_id ≡ c.session_id)
      → Since sid st st'
  unfolding get_session
  Wrote-Since o e s' c' w own before = record {
    session = λ s at. elim (Bool-cases (o == sid)) [
      | inl same ↦
          let is : o ≡ sid = (==_iff o sid).0 same in
          let old : some s ≡ some w.current =
            sym at ∙ ap (λ i. find_row session_key i st.sessions) (sym is) ∙ w.found in
          let version : s.version ≡ e =
            ap (λ (x : Option Session). elim x [ none ↦ 0 | some y ↦ y.version ]) old
            ∙ w.expected_is in
          (
            s',
            ap (find_row session_key sid) w.sessions
                ∙ find_row-put_row session_key sid s' st.sessions
                ∙ rw (w.same_id, same),
            omega (arith, w.next, version),
            λ v. absurd (omega (arith, w.next, version, v)),
          )
      | inr apart ↦ (
        s,
        ap (find_row session_key sid) w.sessions
            ∙ find_row-put_row session_key sid s' st.sessions
            ∙ rw (w.same_id, apart) at,
        omega arith,
        λ v. (refl, Besides-others o c' apart w.besides own before),
      )
    ];
    owner = λ cid x at. Besides-owner c' w.besides before cid x at;
  }

some_inj : (a b : Candidate) → some a ≡ some b → a ≡ b
some_inj a b e = cc

Effect-Since :
    (sid : ℕ) (st st' : Store) (cm : Commit)
    → Effect st st' cm
    → KeepsOwner cm st
    → Since sid st st'
Effect-Since sid st st' cm (kept cm' h) own = same-Since sid st st' h
Effect-Since sid st st' cm (saved s e w) own =
    Wrote-Since sid st st' s.session_id e s none w (λ c no. cc) (λ c old no. cc)
Effect-Since sid st st' cm (saved_both s c e ec of_session w) own =
    Wrote-Since sid st st' s.session_id e s (some c) w
      (λ x same. rw (← some_inj c x same) of_session)
      (λ x old same. rw (← some_inj c x same) (own old))
Effect-Since sid st st' cm (created o c e ordinal current of_session at fresh room w) own =
    let c' = record c { ordinal = ordinal } in
    Wrote-Since sid st st' o e _ (some c') w (λ x same. rw (← some_inj c' x same) of_session)
      (λ x old same.
        rw (← some_inj c' x same) (λ at'. let no : none ≡ some old = sym fresh ∙ at' in cc))

Adds-Since : (sid : ℕ) (st st' : Store) → Adds st st' → Since sid st st'
unfolding get_candidate list_candidates
Adds-Since sid st st' h = record {
  session = λ s e. (
    s,
    h.found sid s e,
    omega arith,
    λ same. (refl, ap (owned candidate_key candidate_owner sid) h.candidates),
  );
  owner = λ cid c e. (c, ap (find_row candidate_key cid) h.candidates ∙ e, refl);
}

pub Step-Since : (sid : ℕ) {st st' : Store} → Step st st' → Since sid st st'
Step-Since sid {st} {st'} (step cm q own done) =
    Effect-Since sid st st' cm (subst (OkOf (λ x. Effect st x cm)) done (commit-Effect cm q st)) own
Step-Since sid {st} {st'} (begins s q done) =
    Adds-Since sid st st' (subst (OkOf (Adds st)) done (create_session-Adds s q st))

pub Reach-Since : (sid : ℕ) {st st' : Store} → Reach st st' → Since sid st st'
Reach-Since sid {st} here = same-Since sid st st (record { sessions = refl; candidates = refl })
Reach-Since sid {st} {st'} (next {st' = middle} r s) =
    trans-Since sid st middle st' (Reach-Since sid r) (Step-Since sid s)
