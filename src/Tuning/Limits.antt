-- ===== src/Tuning/Limits.antt =====
-- The limits of a tuning session, src/azure_sql_mcp/tuning_sessions.py, on what is stored of its
-- candidates.
use azure_sql_mcp.Shared.{
  ℕ, suc, ◌+◌, ◌≤◌, ◌<◌, ◌≡◌, refl, sym, ap, ◌∙◌, subst, ◌⊎◌, inl, inr, true, Option, none, some,
  List, [], ◌∷◌, ◌==◌, if◌then◌else◌, length, arith, Bool-cases, ==_iff,
}
use azure_sql_mcp.Shared.Rows.{find_row, put_row, owned, find_row-put_row}
use azure_sql_mcp.Tuning.{Session, Candidate, Store, candidate_key, candidate_owner}
use azure_sql_mcp.Tuning.Save.{get_candidate, list_candidates}
use azure_sql_mcp.Tuning.Service.{sum_executions, total_executions}
use azure_sql_mcp.Tuning.Asked.{limits_of, RunsWithin, Spent}

-- The stored candidates of a session are within its limits.
pub record Within (s : Session) (sid : ℕ) (st : Store) : Type 0 where
  pub executed : total_executions sid st ≤ s.execution_limit
  pub candidates : length (list_candidates sid st) ≤ s.max_candidates
  pub runs :
      (cid : ℕ) (c : Candidate)
      → get_candidate cid st ≡ some c
      → c.session_id ≡ sid
      → RunsWithin s c

pub Within-limits :
    (s s' : Session) (sid : ℕ) (st : Store)
    → limits_of s' ≡ limits_of s
    → Within s sid st
    → Within s' sid st
Within-limits s s' sid st same h =
    let most : s'.max_candidates ≡ s.max_candidates = ap (λ l. l.1) same in
    let screens : s'.screen_runs_per_candidate ≡ s.screen_runs_per_candidate = ap (λ l. l.2) same in
    let finalists : s'.finalist_runs_per_candidate ≡ s.finalist_runs_per_candidate =
      ap (λ l. l.3) same in
    let cases : s'.parameter_case_limit ≡ s.parameter_case_limit = ap (λ l. l.4) same in
    let executions : s'.execution_limit ≡ s.execution_limit = ap (λ l. l.5) same in
    record {
      executed = omega (arith, h.executed, executions);
      candidates = omega (arith, h.candidates, most);
      runs = λ cid c at own.
          let k = h.runs cid c at own in
          record {
            screens = omega (arith, k.screens, screens);
            finalists = omega (arith, k.finalists, finalists);
            cases = omega (arith, k.cases, cases);
          };
    }

pub Within-same :
    (s : Session) (sid : ℕ) (st st' : Store)
    → st'.candidates ≡ st.candidates
    → Within s sid st
    → Within s sid st'
unfolding total_executions list_candidates get_candidate
Within-same s sid st st' same h = record {
  executed = rw same h.executed;
  candidates = rw same h.candidates;
  runs = λ cid c at own. h.runs cid c (ap (find_row candidate_key cid) (sym same) ∙ at) own;
}

executions_inj : (a b : Candidate) → some a ≡ some b → a.executions ≡ b.executions
executions_inj a b e = ap (λ (x : Option Candidate). elim x [ none ↦ 0 | some y ↦ y.executions ]) e

owner_inj : (a b : Candidate) → some a ≡ some b → a.session_id ≡ b.session_id
owner_inj a b e = ap (λ (x : Option Candidate). elim x [ none ↦ 0 | some y ↦ y.session_id ]) e

equal : (i j : ℕ) → i ≡ j → i == j ≡ true
equal i j e = (==_iff i j).1 e

module _ (sid : ℕ) (c : Candidate) (own : c.session_id ≡ sid) where
  abbrev of_session : List Candidate → List Candidate
  of_session = owned candidate_key candidate_owner sid

  sum-put_row :
      (old : Candidate) (rows : List Candidate)
      → find_row candidate_key c.candidate_id rows ≡ some old
      → old.session_id ≡ sid
      → sum_executions (of_session (put_row candidate_key c rows)) + old.executions
        ≡ sum_executions (of_session rows) + c.executions
  unfolding sum_executions owned put_row find_row
  sum-put_row old [] e own_old = cc
  sum-put_row old (y ∷ ys) e own_old = elim (Bool-cases (y.candidate_id == c.candidate_id)) [
    | inl same ↦
        let is : some y ≡ some old =
          subst (λ b. (if b then some y else find_row candidate_key c.candidate_id ys) ≡ some old)
            same e in
        let mine : y.session_id == sid ≡ true =
          equal (y.session_id) sid (owner_inj y old is ∙ own_old) in
        rw (same, mine, equal c.session_id sid own) (omega (arith, executions_inj y old is))
    | inr apart ↦
        let later : find_row candidate_key c.candidate_id ys ≡ some old =
          subst (λ b. (if b then some y else find_row candidate_key c.candidate_id ys) ≡ some old)
            apart e in
        rw apart (ground (arith, sum-put_row old ys later own_old))
  ]

  length-put_row :
      (old : Candidate) (rows : List Candidate)
      → find_row candidate_key c.candidate_id rows ≡ some old
      → old.session_id ≡ sid
      → length (of_session (put_row candidate_key c rows)) ≡ length (of_session rows)
  unfolding owned put_row find_row
  length-put_row old [] e own_old = cc
  length-put_row old (y ∷ ys) e own_old = elim (Bool-cases (y.candidate_id == c.candidate_id)) [
    | inl same ↦
        let is : some y ≡ some old =
          subst (λ b. (if b then some y else find_row candidate_key c.candidate_id ys) ≡ some old)
            same e in
        let mine : y.session_id == sid ≡ true =
          equal (y.session_id) sid (owner_inj y old is ∙ own_old) in
        rw (same, mine, equal c.session_id sid own) refl
    | inr apart ↦
        let later : find_row candidate_key c.candidate_id ys ≡ some old =
          subst (λ b. (if b then some y else find_row candidate_key c.candidate_id ys) ≡ some old)
            apart e in
        rw apart (ground (arith, length-put_row old ys later own_old))
  ]

  sum-put_row_new :
      (rows : List Candidate)
      → find_row candidate_key c.candidate_id rows ≡ none
      → sum_executions (of_session (put_row candidate_key c rows))
        ≡ sum_executions (of_session rows) + c.executions
  unfolding sum_executions owned put_row find_row
  sum-put_row_new [] e = ground (arith, own)
  sum-put_row_new (y ∷ ys) e = ground (arith, own, sum-put_row_new ys)

  length-put_row_new :
      (rows : List Candidate)
      → find_row candidate_key c.candidate_id rows ≡ none
      → length (of_session (put_row candidate_key c rows)) ≡ suc (length (of_session rows))
  unfolding owned put_row find_row
  length-put_row_new [] e = ground (arith, own)
  length-put_row_new (y ∷ ys) e = ground (arith, own, length-put_row_new ys)

pub candidate_inj : (a b : Candidate) → some a ≡ some b → a ≡ b
candidate_inj a b e = cc

-- A candidate that is found behind a save is the one that was saved, or was there before.
found_after :
    (c : Candidate) (st st' : Store)
    → st'.candidates ≡ put_row candidate_key c st.candidates
    → (cid : ℕ) (x : Candidate) → get_candidate cid st' ≡ some x
    → (c ≡ x) ⊎ (get_candidate cid st ≡ some x)
unfolding get_candidate
found_after c st st' written cid x at =
    let now : (if c.candidate_id == cid then some c else find_row candidate_key cid st.candidates)
        ≡ some x =
      sym (
        ap (find_row candidate_key cid) written
        ∙ find_row-put_row candidate_key cid c st.candidates)
      ∙ at in
    elim (Bool-cases (c.candidate_id == cid)) [
      | inl same ↦ inl (
          candidate_inj c x (
            subst (λ b. (if b then some c else find_row candidate_key cid st.candidates) ≡ some x)
              same now))
      | inr apart ↦ inr (
          subst (λ b. (if b then some c else find_row candidate_key cid st.candidates) ≡ some x)
            apart now)
    ]

runs_after :
    (s : Session) (sid : ℕ) (c : Candidate) (st st' : Store)
    → st'.candidates ≡ put_row candidate_key c st.candidates
    → RunsWithin s c
    → Within s sid st
    → (cid : ℕ) (x : Candidate) → get_candidate cid st' ≡ some x
    → x.session_id ≡ sid
    → RunsWithin s x
runs_after s sid c st st' written ok h cid x at own = elim (found_after c st st' written cid x at) [
  | inl is ↦ subst (RunsWithin s) is ok
  | inr before ↦ h.runs cid x before own
]

-- A candidate of the session is saved over itself.
pub Within-moved :
    (s : Session) (sid : ℕ) (c old : Candidate) (st st' : Store)
    → c.session_id ≡ sid
    → old.session_id ≡ sid
    → get_candidate c.candidate_id st ≡ some old
    → st'.candidates ≡ put_row candidate_key c st.candidates
    → Spent s (total_executions sid st) old c
    → Within s sid st
    → Within s sid st'
unfolding total_executions list_candidates get_candidate
Within-moved s sid c old st st' own own_old found written spent h =
    let sum = sum-put_row sid c own old st.candidates found own_old in
    let len = length-put_row sid c own old st.candidates found own_old in
    record {
      executed = rw written (omega (arith, sum, spent.executions h.executed));
      candidates = rw (written, len) h.candidates;
      runs =
          runs_after s sid c st st' written (spent.runs (h.runs c.candidate_id old found own_old))
            h;
    }

-- A candidate is added.
pub Within-new :
    (s : Session) (sid : ℕ) (c : Candidate) (st st' : Store)
    → c.session_id ≡ sid
    → get_candidate c.candidate_id st ≡ none
    → st'.candidates ≡ put_row candidate_key c st.candidates
    → c.executions ≡ 0
    → RunsWithin s c
    → length (list_candidates sid st) < s.max_candidates
    → Within s sid st
    → Within s sid st'
unfolding total_executions list_candidates get_candidate
Within-new s sid c st st' own fresh written none_yet runs room h =
    let sum = sum-put_row_new sid c own st.candidates fresh in
    let len = length-put_row_new sid c own st.candidates fresh in
    record {
      executed = rw written (omega (arith, sum, none_yet, h.executed));
      candidates = rw (written, len) (omega (arith, room));
      runs = runs_after s sid c st st' written runs h;
    }

-- Another session's candidate is saved.
pub Within-other :
    (s : Session) (sid : ℕ) (c : Candidate) (st st' : Store)
    → (c.session_id ≡ sid → ⊥)
    → st'.candidates ≡ put_row candidate_key c st.candidates
    → list_candidates sid st' ≡ list_candidates sid st
    → Within s sid st
    → Within s sid st'
unfolding total_executions get_candidate
Within-other s sid c st st' other written same h = record {
  executed = rw same h.executed;
  candidates = rw same h.candidates;
  runs = λ cid x at own_x. elim (found_after c st st' written cid x at) [
    | inl is ↦ absurd (other (ap (λ y. y.session_id) is ∙ own_x))
    | inr before ↦ h.runs cid x before own_x
  ];
}
