-- ===== src/Tuning/Still.antt =====
-- Reading a session and its candidates again, src/azure_sql_mcp/performance_store.py.
use azure_sql_mcp.Shared.{ℕ, ◌≡◌, refl, sym, ap, ◌∙◌, Option, none, some, arith}
use azure_sql_mcp.Shared.Rows.{find_row, owned, find_row-owned, key-find_row}
use azure_sql_mcp.Tuning.{Session, Candidate, Store, candidate_key, candidate_owner}
use azure_sql_mcp.Tuning.Save.{get_session, get_candidate, list_candidates}
use azure_sql_mcp.Tuning.Service.{read_over}
use azure_sql_mcp.Tuning.History.{Since}
use azure_sql_mcp.Tuning.Asked.{OwnedBy}

-- A session that is still at the version that was read is the session that was read, with the same
-- candidates at every moment between.
pub record StillAt (sid : ℕ) (st st' : Store) : Type 0 where
  pub session : get_session sid st' ≡ get_session sid st
  pub candidates : list_candidates sid st' ≡ list_candidates sid st
  pub owner :
      (cid : ℕ) (c : Candidate)
      → get_candidate cid st ≡ some c
      → (c' : Candidate) × (get_candidate cid st' ≡ some c') × (c'.session_id ≡ c.session_id)

version_inj : (a b : Session) → some a ≡ some b → a.version ≡ b.version
version_inj a b e = ap (λ (x : Option Session). elim x [ none ↦ 0 | some y ↦ y.version ]) e

pub StillAt-between :
    (sid : ℕ) (a b c : Store) (s t : Session)
    → get_session sid a ≡ some s
    → get_session sid c ≡ some t
    → t.version ≡ s.version
    → Since sid a b
    → Since sid b c
    → StillAt sid a b × StillAt sid b c
StillAt-between sid a b c s t at_a at_c same h k =
    let (s', e', le, keep) = h.session s at_a in
    let (s'', e'', le', keep') = k.session s' e' in
    let final : s''.version ≡ t.version = version_inj s'' t (sym e'' ∙ at_c) in
    let (one, rows) = keep (omega (arith, le, le', final, same)) in
    let (two, rows') = keep' (omega (arith, le, le', final, same)) in
    (
      record { session = e' ∙ ap some one ∙ sym at_a; candidates = rows; owner = h.owner },
      record { session = e'' ∙ ap some two ∙ sym e'; candidates = rows'; owner = k.owner },
    )

-- The candidate that was read is read again, if it belongs to the session.
read_again :
    (sid cid : ℕ) (st st' : Store) (c : Candidate)
    → StillAt sid st st'
    → get_candidate cid st ≡ some c
    → c.session_id ≡ sid
    → get_candidate cid st' ≡ some c
unfolding get_candidate list_candidates
read_again sid cid st st' c h at own =
    let (c', at', own') = h.owner cid c at in
    let old = find_row-owned candidate_key candidate_owner cid sid c st.candidates at own in
    let again =
      find_row-owned candidate_key candidate_owner cid sid c' st'.candidates at' (own' ∙ own) in
    let rows : owned candidate_key candidate_owner sid st'.candidates
        ≡ owned candidate_key candidate_owner sid st.candidates =
      h.candidates in
    at' ∙ sym again ∙ ap (find_row candidate_key cid) rows ∙ old

pub read_over_again :
    (sid : ℕ) (o : Option ℕ) (st st' : Store) (s : Session) (found : Option Candidate)
    → StillAt sid st st'
    → s.session_id ≡ sid
    → read_over o st ≡ found
    → OwnedBy s o found
    → read_over o st' ≡ read_over o st
read_over_again sid none st st' s found h id e own = refl
read_over_again sid (some cid) st st' s none h id e own = absurd own
read_over_again sid (some cid) st st' s (some c) h id e own =
    read_again sid cid st st' c h e (own ∙ id) ∙ sym e

pub owner_inj : (a b : Candidate) → some a ≡ some b → a.session_id ≡ b.session_id
owner_inj a b e = ap (λ (x : Option Candidate). elim x [ none ↦ 0 | some y ↦ y.session_id ]) e

pub read_over_found :
    (o : Option ℕ) (st : Store) (c : Candidate)
    → read_over o st ≡ some c
    → get_candidate c.candidate_id st ≡ some c
unfolding get_candidate
read_over_found none st c e = cc
read_over_found (some cid) st c e =
    ap (λ i. find_row candidate_key i st.candidates)
      (key-find_row candidate_key cid c st.candidates e)
    ∙ e
