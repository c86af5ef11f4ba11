-- ===== src/Slots/Promised.antt =====
-- The promise of a reserved slot: src/azure_sql_mcp/performance_store.py.
use azure_sql_mcp.Shared.{
  ℕ, ◌+◌, ◌≤◌, ◌<◌, ◌≡◌, refl, sym, ap, ◌∙◌, subst, inl, inr, Bool, Bool-cases, true, false, Option,
  none, some, List, length, ltb, ltb→lt, ◌==◌, ==_iff, if◌then◌else◌, arith,
}
use azure_sql_mcp.Shared.Rows.{find_row, put_row, sum_rows}
use azure_sql_mcp.Shared.Raising.{OkOf, OkOf-bind, OkOf-require, OkOf-or_raise}
use azure_sql_mcp.Tuning
use azure_sql_mcp.Tuning.{Candidate, candidate_attach}
use azure_sql_mcp.Tuning.Save.{get_session, list_candidates, is_version}
use azure_sql_mcp.Slots.{
  Slot, Store, slot_key, is_reserved, is_owner, expire, find_request, held_count, open_slot,
  next_candidate_ordinal, insert_slot, Reserve, new_slot, may_replay, finish_reserve,
  reserve_candidate_slot, Update, is_update, updated, update_candidate_slot,
}
use azure_sql_mcp.Slots.Counts.{sum_rows-expire, open_slot-expired_at, insert_slot-sum, updated-sum}

-- What a session carries: its candidates and its reserved slots.
abbrev pub load : Store → ℕ → ℕ
load st s = length (list_candidates s st.contracts) + held_count s st.slots

-- There is room for a candidate behind each reserved slot.
abbrev pub Promised : Store → Type 0
Promised st =
    (s : ℕ) (t : Tuning.Session)
    → get_session s st.contracts ≡ some t
    → load st s ≤ t.max_candidates

Promised-fewer :
    (st : Store) (xs : List Slot)
    → ((s : ℕ) → held_count s xs ≤ held_count s st.slots)
    → Promised st
    → Promised (record st { slots = xs })
Promised-fewer st xs fewer h s t at = omega (arith, h s t at, fewer s)

pub expire-Promised :
    (now : ℕ) (st : Store) → Promised st → Promised (record st { slots = expire now st.slots })
unfolding held_count
expire-Promised now st =
    Promised-fewer st (expire now st.slots)
      (λ s. sum_rows-expire now (open_slot s) st.slots (open_slot-expired_at now s))

open_slot-le : (s : ℕ) (x : Slot) → open_slot s x ≤ 1
open_slot-le s x = ground arith

open_slot-other :
    (r : Reserve) (n s : ℕ) → r.session_id == s ≡ false → open_slot s (new_slot r n) ≡ 0
open_slot-other r n s other = rw other refl

limit_of : (t u : Tuning.Session) → some t ≡ some u → t.max_candidates ≡ u.max_candidates
limit_of t u e =
    ap (λ (o : Option Tuning.Session). elim o [ none ↦ 0 | some x ↦ x.max_candidates ]) e

abbrev pub PromisedReserve : Store × Slot × Bool → Type 0
PromisedReserve d = Promised d.0

finish_reserve-Promised :
    (r : Reserve) (st : Store) (o : Option Slot)
    → Promised st
    → OkOf PromisedReserve (finish_reserve r st o)
unfolding held_count
finish_reserve-Promised r st (some x) h =
    OkOf-require PromisedReserve (may_replay x.owner_token r.owner_reference) _ _ (λ mine. h)
finish_reserve-Promised r st none h =
    let n = next_candidate_ordinal r.session_id st in
    OkOf-or_raise PromisedReserve (get_session r.session_id st.contracts) _ _ (λ t at.
      OkOf-require PromisedReserve
        (ltb (length (list_candidates r.session_id st.contracts) + held_count r.session_id st.slots)
          t.max_candidates)
        _ _
        (λ room.
          OkOf-bind PromisedReserve (insert_slot (new_slot r n) st.slots) _ (λ xs done s u at'.
            let sum =
              subst
                (OkOf (λ xs'.
                  (w : Slot → ℕ)
                  → sum_rows slot_key w xs' ≡ sum_rows slot_key w st.slots + w (new_slot r n)))
                done (insert_slot-sum (new_slot r n) st.slots) (open_slot s) in
            elim (Bool-cases (r.session_id == s)) [
              | inl same ↦
                  let e : r.session_id ≡ s = (==_iff r.session_id s).0 same in
                  let limit : t.max_candidates ≡ u.max_candidates =
                    limit_of t u (sym at ∙ ap (λ i. get_session i st.contracts) e ∙ at') in
                  let free : load st s < t.max_candidates =
                    subst (λ i. load st i < t.max_candidates) e (ltb→lt _ _ room) in
                  omega (arith, sum, limit, free, open_slot-le s (new_slot r n))
              | inr other ↦ omega (arith, sum, h s u at', open_slot-other r n s other)
            ])))

open_slot-updated :
    (u : Update) (x : Slot) (s : ℕ)
    → is_update u.status ≡ true
    → open_slot s (updated u.status x) ≡ 0
open_slot-updated u x s h = ground arith

freed :
    (u : Update) (st : Store) (x : Slot)
    → find_row slot_key u.reservation_id (expire u.now st.slots) ≡ some x
    → is_update u.status ≡ true
    → Promised (record st { slots = expire u.now st.slots })
    → Promised (record st { slots = put_row slot_key (updated u.status x) (expire u.now st.slots) })
unfolding held_count
freed u st x at may =
    let xs = expire u.now st.slots in
    Promised-fewer (record st { slots = xs }) (put_row slot_key (updated u.status x) xs)
      (λ s. omega (
        arith,
        open_slot-updated u x s may,
        updated-sum u.reservation_id u.status x xs (open_slot s) at,
      ))

abbrev pub PromisedUpdate : Store × Slot → Type 0
PromisedUpdate d = Promised d.0

pub update_candidate_slot-Promised :
    (u : Update) (st : Store) → Promised st → OkOf PromisedUpdate (update_candidate_slot u st)
unfolding update_candidate_slot
update_candidate_slot-Promised u st h =
    let xs = expire u.now st.slots in
    OkOf-require PromisedUpdate (is_update u.status) _ _ (λ may.
      OkOf-or_raise PromisedUpdate (find_row slot_key u.reservation_id xs) _ _ (λ x at.
        OkOf-require PromisedUpdate (is_owner x.owner_token u.owner_reference) _ _ (λ mine.
          OkOf-require PromisedUpdate (is_version u.expected_version x.version) _ _
            (λ current. branch x at may (is_reserved x.status)))))
  where
    branch :
        (x : Slot)
        → find_row slot_key u.reservation_id (expire u.now st.slots) ≡ some x
        → is_update u.status ≡ true
        → (b : Bool)
        → PromisedUpdate (
            if b
            then (
              record st { slots = put_row slot_key (updated u.status x) (expire u.now st.slots) },
              updated u.status x,
            )
            else (record st { slots = expire u.now st.slots }, x))
    branch x at may false = expire-Promised u.now st h
    branch x at may true = freed u st x at may (expire-Promised u.now st h)

pub reserve_candidate_slot-Promised :
    (r : Reserve) (st : Store) → Promised st → OkOf PromisedReserve (reserve_candidate_slot r st)
unfolding reserve_candidate_slot
reserve_candidate_slot-Promised r st h =
    finish_reserve-Promised r (record st { slots = expire r.now st.slots })
      (find_request r.session_id r.request_fingerprint (expire r.now st.slots))
      (expire-Promised r.now st h)
