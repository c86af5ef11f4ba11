-- ===== src/Slots/Sound.antt =====
-- What the calls on the candidate slots keep: src/azure_sql_mcp/performance_store.py.
use azure_sql_mcp.Shared.{
  ℕ, ◌+◌, ◌≤◌, ◌≡◌, ap, subst, inl, inr, Bool, Bool-cases, true, false, Option, none, some, List,
  length, ltb, ltb→lt, ◌==◌, ==_iff, if◌then◌else◌, arith,
}
use azure_sql_mcp.Shared.Rows.{find_row, put_row, sum_rows, sum_rows-put_row_new}
use azure_sql_mcp.Shared.Raising.{OkOf, OkOf-bind, OkOf-require, OkOf-or_raise}
use azure_sql_mcp.Tuning
use azure_sql_mcp.Tuning.{Candidate, candidate_key, session_key, candidate_attach}
use azure_sql_mcp.Tuning.Save.{
  get_session, get_candidate, list_candidates, is_version, idempotent_aggregate,
}
use azure_sql_mcp.Slots.{
  Slot, Store, lift, slot_key, is_reserved, is_owner, expire, find_request, held_count,
  next_candidate_ordinal, insert_slot, Reserve, new_slot, may_replay, finish_reserve,
  reserve_candidate_slot, Update, is_update, updated, update_candidate_slot, Attach, take_slot,
  save_attached, finish_attach, create_candidate_and_attach,
}
use azure_sql_mcp.Slots.Counts.{
  takes, holds, sum_rows-expire, holds-expired_at, insert_slot-sum, updated-sum,
}
use azure_sql_mcp.Slots.Taken.{
  Saved, save_attached-Saved, Apart, uses, uses-next, Fits, take_slot-Fits,
}
use azure_sql_mcp.Slots.Limit.{count-Saved, limit-Saved, lifted, belongs_le, belongs_other}

-- A session has no more candidates than its budget.
abbrev pub Within : Tuning.Store → Type 0
Within st =
    (s : ℕ) (t : Tuning.Session)
    → get_session s st ≡ some t
    → length (list_candidates s st) ≤ t.max_candidates

pub record IsSound (st : Store) : Type 0 where
  pub apart : Apart st.contracts.candidates st.slots
  pub within : Within st.contracts

-- Fewer reserved slots do no harm.
IsSound-fewer :
    (st : Store) (xs : List Slot)
    → ((s o : ℕ) → sum_rows slot_key (holds s o) xs ≤ sum_rows slot_key (holds s o) st.slots)
    → IsSound st
    → IsSound (record st { slots = xs })
IsSound-fewer st xs fewer h = record {
  apart = λ s o. omega (arith, h.apart s o, fewer s o);
  within = h.within;
}

pub expire-IsSound :
    (now : ℕ) (st : Store) → IsSound st → IsSound (record st { slots = expire now st.slots })
expire-IsSound now st =
    IsSound-fewer st (expire now st.slots)
      (λ s o. sum_rows-expire now (holds s o) st.slots (holds-expired_at now s o))

abbrev pub SoundReserve : Store × Slot × Bool → Type 0
SoundReserve d = IsSound d.0

holds-new_slot :
    (r : Reserve) (n s o : ℕ) (cs : List Candidate) (xs : List Slot)
    → uses r.session_id n cs xs ≡ 0
    → uses s o cs xs ≤ 1
    → uses s o cs xs + holds s o (new_slot r n) ≤ 1
holds-new_slot r n s o cs xs free h = elim (Bool-cases (r.session_id == s)) [
  | inl is_s ↦ elim (Bool-cases (n == o)) [
    | inl is_o ↦
        let none_yet : uses s o cs xs ≡ 0 =
          subst (λ i. uses i o cs xs ≡ 0) ((==_iff r.session_id s).0 is_s)
            (subst (λ m. uses r.session_id m cs xs ≡ 0) ((==_iff n o).0 is_o) free) in
        rw (none_yet, is_s, is_o) (omega arith)
    | inr other ↦ rw (is_s, other) (omega (arith, h))
  ]
  | inr other ↦ rw other (omega (arith, h))
]

finish_reserve-IsSound :
    (r : Reserve) (st : Store) (o : Option Slot)
    → IsSound st
    → OkOf SoundReserve (finish_reserve r st o)
finish_reserve-IsSound r st (some x) h =
    OkOf-require SoundReserve (may_replay x.owner_token r.owner_reference) _ _ (λ mine. h)
finish_reserve-IsSound r st none h =
    let n = next_candidate_ordinal r.session_id st in
    OkOf-or_raise SoundReserve (get_session r.session_id st.contracts) _ _ (λ t at.
      OkOf-require SoundReserve
        (ltb (length (list_candidates r.session_id st.contracts) + held_count r.session_id st.slots)
          t.max_candidates)
        _ _
        (λ room. OkOf-bind SoundReserve (insert_slot (new_slot r n) st.slots) _ (λ xs done.
          let sum =
            subst
              (OkOf (λ xs'.
                (w : Slot → ℕ)
                → sum_rows slot_key w xs' ≡ sum_rows slot_key w st.slots + w (new_slot r n)))
              done (insert_slot-sum (new_slot r n) st.slots) in
          record {
            apart = λ s o.
                let one =
                  holds-new_slot r n s o st.contracts.candidates st.slots
                    (uses-next r.session_id st) (h.apart s o) in
                omega (arith, one, sum (holds s o));
            within = h.within;
          })))

pub reserve_candidate_slot-IsSound :
    (r : Reserve) (st : Store) → IsSound st → OkOf SoundReserve (reserve_candidate_slot r st)
unfolding reserve_candidate_slot
reserve_candidate_slot-IsSound r st h =
    finish_reserve-IsSound r (record st { slots = expire r.now st.slots })
      (find_request r.session_id r.request_fingerprint (expire r.now st.slots))
      (expire-IsSound r.now st h)

abbrev pub SoundUpdate : Store × Slot → Type 0
SoundUpdate d = IsSound d.0

holds-updated :
    (u : Update) (x : Slot) (s o : ℕ)
    → is_update u.status ≡ true
    → holds s o (updated u.status x) ≡ 0
holds-updated u x s o h = ground arith

pub update_candidate_slot-IsSound :
    (u : Update) (st : Store) → IsSound st → OkOf SoundUpdate (update_candidate_slot u st)
unfolding update_candidate_slot
update_candidate_slot-IsSound u st h =
    let live : Store = record st { slots = expire u.now st.slots } in
    let h' = expire-IsSound u.now st h in
    OkOf-require SoundUpdate (is_update u.status) _ _ (λ may.
      OkOf-or_raise SoundUpdate (find_row slot_key u.reservation_id live.slots) _ _ (λ x at.
        OkOf-require SoundUpdate (is_owner x.owner_token u.owner_reference) _ _ (λ mine.
          OkOf-require SoundUpdate (is_version u.expected_version x.version) _ _
            (λ current. branch x at may (is_reserved x.status)))))
  where
    branch :
        (x : Slot)
        → find_row slot_key u.reservation_id (expire u.now st.slots) ≡ some x
        → is_update u.status ≡ true
        → (b : Bool)
        → SoundUpdate (
            if b
            then (
              record st { slots = put_row slot_key (updated u.status x) (expire u.now st.slots) },
              updated u.status x,
            )
            else (record st { slots = expire u.now st.slots }, x))
    branch x at may false = expire-IsSound u.now st h
    branch x at may true =
        IsSound-fewer (record st { slots = expire u.now st.slots })
          (put_row slot_key (updated u.status x) (expire u.now st.slots))
          (λ s o. omega (
            arith,
            holds-updated u x s o may,
            updated-sum u.reservation_id u.status x (expire u.now st.slots) (holds s o) at,
          ))
          (expire-IsSound u.now st h)

Within-Saved :
    (sid : ℕ) (current : Tuning.Session) (c : Candidate) (st st' : Tuning.Store)
    → get_session sid st ≡ some current
    → c.session_id ≡ sid
    → ltb (length (list_candidates sid st)) current.max_candidates ≡ true
    → Saved current c st st'
    → Within st
    → Within st'
Within-Saved sid current c st st' at own room saved h =
    limit-Saved (λ s. length (list_candidates s st)) (λ s. length (list_candidates s st')) sid
      current c st st' at saved
      (omega (arith, ltb→lt _ _ room, count-Saved current c st st' sid saved, belongs_le sid c))
      (λ s other.
        omega (arith, count-Saved current c st st' s saved, belongs_other sid s c own other))
      h

abbrev pub SoundAttach : Store × Candidate → Type 0
SoundAttach d = IsSound d.0

finish_attach-IsSound :
    (a : Attach) (st : Store) (bound : Option ℕ)
    → a.candidate.session_id ≡ a.session_id
    → IsSound st
    → OkOf SoundAttach (finish_attach a st bound)
unfolding get_candidate
finish_attach-IsSound a st (some id) own h =
    OkOf-or_raise SoundAttach (get_candidate id st.contracts) _ _ (λ found at. h)
finish_attach-IsSound a st none own h =
    OkOf-or_raise SoundAttach (get_session a.session_id st.contracts) _ _ (λ current at.
      OkOf-require SoundAttach (is_version a.expected_version current.version) _ _ (λ expected.
        OkOf-require SoundAttach
          (ltb (length (list_candidates a.session_id st.contracts)) current.max_candidates) _ _
          (λ room. OkOf-bind SoundAttach (take_slot a st a.reservation_id) _ (λ taken slotted.
            let fits =
              subst (OkOf (Fits a st own)) slotted
                (take_slot-Fits a st own a.reservation_id h.apart) in
            let c : Candidate = record a.candidate { ordinal = taken.1 } in
            OkOf-bind SoundAttach (lift (save_attached a current c st.contracts)) _
              (λ contracts done.
                let saved =
                  lifted (Saved current c st.contracts) (save_attached a current c st.contracts)
                    done (save_attached-Saved a current c st.contracts) in
                record {
                  apart = λ s o. omega (
                    arith,
                    fits s o,
                    ap (sum_rows candidate_key (takes s o)) saved.candidates,
                    sum_rows-put_row_new candidate_key (takes s o) c st.contracts.candidates
                        saved.fresh,
                  );
                  within =
                      Within-Saved a.session_id current c st.contracts contracts at own room saved
                        h.within;
                })))))

pub create_candidate_and_attach-IsSound :
    (a : Attach) (st : Store) → IsSound st → OkOf SoundAttach (create_candidate_and_attach a st)
unfolding create_candidate_and_attach
create_candidate_and_attach-IsSound a st h =
    OkOf-require SoundAttach (a.candidate.session_id == a.session_id) _ _ (λ own.
      OkOf-bind SoundAttach
        (lift (
          idempotent_aggregate candidate_attach a.request.idempotency_key none
            a.request.request_fingerprint st.contracts.bindings))
        _
        (λ bound asked.
          finish_attach-IsSound a (record st { slots = expire a.now st.slots }) bound
            ((==_iff a.candidate.session_id a.session_id).0 own) (expire-IsSound a.now st h)))
