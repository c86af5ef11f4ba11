-- ===== src/Slots/Taken.antt =====
-- What `create_candidate_and_attach` of src/azure_sql_mcp/performance_store.py takes and saves.
use azure_sql_mcp.Shared.{
  ℕ, ◌+◌, ◌≤◌, ◌≡◌, ap, ◌∙◌, subst, ◌⊎◌, inl, inr, Bool, Bool-cases, ◌&&◌, true, false, Option,
  none, some, List, ◌==◌, arith, ==_iff,
}
use azure_sql_mcp.Shared.Rows.{find_row, put_row, sum_rows}
use azure_sql_mcp.Shared.Raising.{OkOf, OkOf-bind, OkOf-require, OkOf-or_raise, OkOf-weaken}
use azure_sql_mcp.Tuning
use azure_sql_mcp.Tuning.{
  Candidate, candidate_attach, candidate_half, session_half, session_key, candidate_key,
  candidate_owner,
}
use azure_sql_mcp.Tuning.Save.{
  get_candidate, save_candidate_locked, save_session_locked, list_candidates,
}
use azure_sql_mcp.Tuning.Transactions.{event, attached}
use azure_sql_mcp.Tuning.Locked.{
  Inserts, SavesSession, save_candidate_locked-Inserts, save_session_locked-SavesSession,
  two_logs-SameRows,
}
use azure_sql_mcp.Slots.{
  Slot, Store, consumed, is_reserved, is_owner, slot_key, next_candidate_ordinal, insert_slot,
  updated, Attach, consumed_slot, take_slot, save_attached,
}
use azure_sql_mcp.Slots.Counts.{takes, holds, takes-next, holds-next, insert_slot-sum, updated-sum}

-- What is saved: the candidate, new, and its session.
pub record Saved (current : Tuning.Session) (c : Candidate) (st st' : Tuning.Store) : Type 0 where
  pub fresh : get_candidate c.candidate_id st ≡ none
  pub candidates : st'.candidates ≡ put_row candidate_key c st.candidates
  pub sessions : st'.sessions ≡ put_row session_key (attached current c) st.sessions

pub save_attached-Saved :
    (a : Attach) (current : Tuning.Session) (c : Candidate) (st : Tuning.Store)
    → OkOf (Saved current c st) (save_attached a current c st)
unfolding save_attached
save_attached-Saved a current c st =
    let P = Saved current c st in
    OkOf-bind P (save_candidate_locked c true none st) _ (λ first done.
      let ins = subst (OkOf (Inserts c st)) done (save_candidate_locked-Inserts c st) in
      OkOf-bind P (save_session_locked (attached current c) (some current.version) first) _
        (λ second written.
          let saves =
            subst (OkOf (SavesSession (attached current c) current.version first)) written
              (save_session_locked-SavesSession (attached current c) current.version first) in
          OkOf-weaken {Q = P}
            (λ st' same. record {
              fresh = ins.fresh;
              candidates = same.candidates ∙ saves.rest ∙ ins.written;
              sessions =
                  same.sessions
                  ∙ saves.advances.written
                  ∙ ap (put_row session_key (attached current c)) ins.rest;
            })
            _
            (two_logs-SameRows (event candidate_attach candidate_half c.candidate_id a.request)
              (event candidate_attach session_half a.session_id a.request) candidate_attach
              a.request.idempotency_key c.candidate_id a.request.request_fingerprint second)))

-- How many candidates and reserved slots of the session have the ordinal.
abbrev pub uses : ℕ → ℕ → List Candidate → List Slot → ℕ
uses s o cs xs = sum_rows candidate_key (takes s o) cs + sum_rows slot_key (holds s o) xs

-- No ordinal of a session is used twice, by candidates or by reserved slots.
abbrev pub Apart : List Candidate → List Slot → Type 0
Apart cs xs = (s o : ℕ) → uses s o cs xs ≤ 1

-- The next ordinal is not used.
pub uses-next :
    (s : ℕ) (st : Store) → uses s (next_candidate_ordinal s st) st.contracts.candidates st.slots ≡ 0
unfolding next_candidate_ordinal list_candidates
uses-next s st =
    let o = next_candidate_ordinal s st in
    omega (arith, takes-next s o st.contracts.candidates, holds-next s o st.slots)

both : (b c : Bool) → (b && c) ≡ true → (b ≡ true) × (c ≡ true)
both b c h = ground arith

module _ (a : Attach) (st : Store) (own : a.candidate.session_id ≡ a.session_id) where
  abbrev pub with_ordinal : ℕ → Candidate
  with_ordinal o = record a.candidate { ordinal = o }

  -- The ordinal that is taken was free, or was that of the slot.
  abbrev pub Fits : List Slot × ℕ → Type 0
  Fits (xs, o) = (s n : ℕ) → uses s n st.contracts.candidates xs + takes s n (with_ordinal o) ≤ 1

  takes_other : (o n s : ℕ) → (a.session_id == s && o == n) ≡ false → takes s n (with_ordinal o) ≡ 0
  takes_other o n s e = ground (arith, own)

  takes_slot :
      (x : Slot) (s n : ℕ)
      → x.session_id == a.session_id ≡ true
      → is_reserved x.status ≡ true
      → takes s n (with_ordinal x.ordinal) ≡ holds s n x
  takes_slot x s n same live =
      let e : x.session_id ≡ a.session_id = (==_iff x.session_id a.session_id).0 same in
      rw (live, e, own) (ground arith)

  takes-le : (o s n : ℕ) → takes s n (with_ordinal o) ≤ 1
  takes-le o s n = ground arith

  holds-consumed : (x : Slot) (s n : ℕ) → holds s n (updated consumed x) ≡ 0
  holds-consumed x s n = ground arith

  holds-consumed_slot : (o s n : ℕ) → holds s n (consumed_slot a o) ≡ 0
  holds-consumed_slot o s n = ground arith

  pub take_slot-Fits :
      (id : Option ℕ) → Apart st.contracts.candidates st.slots → OkOf Fits (take_slot a st id)
  unfolding take_slot
  take_slot-Fits (some id) h = OkOf-or_raise Fits (find_row slot_key id st.slots) _ _ (λ x at.
      OkOf-require Fits (x.session_id == a.session_id) _ _ (λ same.
        OkOf-require Fits (is_owner x.owner_token a.owner_reference) _ _ (λ mine.
          OkOf-require Fits (is_reserved x.status) _ _ (λ live s n. omega (
            arith,
            h s n,
            takes_slot x s n same live,
            holds-consumed x s n,
            updated-sum id consumed x st.slots (holds s n) at,
          )))))
  take_slot-Fits none h =
      let o = next_candidate_ordinal a.session_id st in
      OkOf-bind Fits (insert_slot (consumed_slot a o) st.slots) _ (λ xs done s n.
        let sum =
          subst
            (OkOf (λ xs'.
              (w : Slot → ℕ)
              → sum_rows slot_key w xs' ≡ sum_rows slot_key w st.slots + w (consumed_slot a o)))
            done (insert_slot-sum (consumed_slot a o) st.slots) in
        fits xs s n (sum (holds s n)) (Bool-cases (a.session_id == s && o == n)))
    where
      fits :
          (xs : List Slot) (s n : ℕ)
          → sum_rows slot_key (holds s n) xs
            ≡ sum_rows slot_key (holds s n) st.slots
              + holds s n (consumed_slot a (next_candidate_ordinal a.session_id st))
          → ((a.session_id == s && next_candidate_ordinal a.session_id st == n) ≡ true)
            ⊎ ((a.session_id == s && next_candidate_ordinal a.session_id st == n) ≡ false)
          → uses s n st.contracts.candidates xs
              + takes s n (with_ordinal (next_candidate_ordinal a.session_id st))
            ≤ 1
      fits xs s n sum (inl here) =
          let o = next_candidate_ordinal a.session_id st in
          let (is_s, is_n) = both (a.session_id == s) (o == n) here in
          let free : uses s n st.contracts.candidates st.slots ≡ 0 =
            subst (λ i. uses i n st.contracts.candidates st.slots ≡ 0)
              ((==_iff a.session_id s).0 is_s)
              (subst (λ m. uses a.session_id m st.contracts.candidates st.slots ≡ 0)
                ((==_iff o n).0 is_n) (uses-next a.session_id st)) in
          omega (arith, sum, free, holds-consumed_slot o s n, takes-le o s n)
      fits xs s n sum (inr there) =
          let o = next_candidate_ordinal a.session_id st in
          omega (arith, sum, h s n, holds-consumed_slot o s n, takes_other o n s there)
