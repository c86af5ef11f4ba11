-- ===== src/Slots/Claimed.antt =====
-- Claiming a reserved slot: `create_candidate_and_attach` of src/azure_sql_mcp/performance_store.py.
use azure_sql_mcp.Shared.{
  ℕ, ◌+◌, ◌≡◌, sym, ap, ◌∙◌, subst, true, Option, none, some, List, [], ◌∷◌, All, length, ltb, ◌==◌,
  ==_iff, arith,
}
use azure_sql_mcp.Shared.Rows.{find_row}
use azure_sql_mcp.Shared.Raising.{raised, returned, OkOf, OkOf-bind, OkOf-require, OkOf-or_raise}
use azure_sql_mcp.Tuning
use azure_sql_mcp.Tuning.{Candidate, candidate_attach, session_key, candidate_key}
use azure_sql_mcp.Tuning.Save.{
  get_session, get_candidate, list_candidates, is_version, idempotent_aggregate,
}
use azure_sql_mcp.Slots.{
  Slot, Store, Result, consumed, lift, slot_key, is_reserved, is_owner, expire, held_count,
  open_slot, updated, Attach, take_slot, save_attached, finish_attach, create_candidate_and_attach,
  reserve_candidate_slot, update_candidate_slot,
}
use azure_sql_mcp.Slots.Counts.{belongs, updated-sum}
use azure_sql_mcp.Slots.Taken.{Saved, save_attached-Saved}
use azure_sql_mcp.Slots.Limit.{count-Saved, limit-Saved, lifted}
use azure_sql_mcp.Slots.Run.{Call, reserves, updates, attaches, run_call, kept_store, run}
use azure_sql_mcp.Slots.Promised.{
  load, Promised, PromisedReserve, PromisedUpdate, expire-Promised, reserve_candidate_slot-Promised,
  update_candidate_slot-Promised,
}

open_slot-belongs :
    (a : Attach) (x : Slot) (s o : ℕ)
    → a.candidate.session_id ≡ a.session_id
    → x.session_id == a.session_id ≡ true
    → is_reserved x.status ≡ true
    → open_slot s x ≡ belongs s (record a.candidate { ordinal = o })
open_slot-belongs a x s o own same live =
    let e : x.session_id ≡ a.session_id = (==_iff x.session_id a.session_id).0 same in
    rw (live, e, own) (ground arith)

open_slot-consumed : (x : Slot) (s : ℕ) → open_slot s (updated consumed x) ≡ 0
open_slot-consumed x s = ground arith

-- A slot's place goes over to the candidate.
module _ (a : Attach) (st : Store) (own : a.candidate.session_id ≡ a.session_id) where
  abbrev Moves : List Slot × ℕ → Type 0
  Moves (xs, o) =
      (s : ℕ)
      → held_count s xs + belongs s (record a.candidate { ordinal = o }) ≡ held_count s st.slots

  take_slot-Moves : (id : ℕ) → OkOf Moves (take_slot a st (some id))
  unfolding take_slot held_count
  take_slot-Moves id = OkOf-or_raise Moves (find_row slot_key id st.slots) _ _ (λ x at.
      OkOf-require Moves (x.session_id == a.session_id) _ _ (λ same.
        OkOf-require Moves (is_owner x.owner_token a.owner_reference) _ _ (λ mine.
          OkOf-require Moves (is_reserved x.status) _ _ (λ live s. omega (
            arith,
            open_slot-belongs a x s x.ordinal own same live,
            open_slot-consumed x s,
            updated-sum id consumed x st.slots (open_slot s) at,
          )))))

abbrev PromisedAttach : Store × Candidate → Type 0
PromisedAttach d = Promised d.0

finish_attach-Promised :
    (a : Attach) (st : Store) (id : ℕ) (bound : Option ℕ)
    → a.reservation_id ≡ some id
    → a.candidate.session_id ≡ a.session_id
    → Promised st
    → OkOf PromisedAttach (finish_attach a st bound)
finish_attach-Promised a st id (some c) by own h =
    OkOf-or_raise PromisedAttach (get_candidate c st.contracts) _ _ (λ found at. h)
finish_attach-Promised a st id none by own h =
    OkOf-or_raise PromisedAttach (get_session a.session_id st.contracts) _ _ (λ current at.
      OkOf-require PromisedAttach (is_version a.expected_version current.version) _ _ (λ expected.
        OkOf-require PromisedAttach
          (ltb (length (list_candidates a.session_id st.contracts)) current.max_candidates) _ _
          (λ room. OkOf-bind PromisedAttach (take_slot a st a.reservation_id) _ (λ taken slotted.
            let moves =
              subst (OkOf (Moves a st own)) (ap (take_slot a st) (sym by) ∙ slotted)
                (take_slot-Moves a st own id) in
            let c : Candidate = record a.candidate { ordinal = taken.1 } in
            OkOf-bind PromisedAttach (lift (save_attached a current c st.contracts)) _
              (λ contracts done.
                let saved =
                  lifted (Saved current c st.contracts) (save_attached a current c st.contracts)
                    done (save_attached-Saved a current c st.contracts) in
                let after : Store = record { contracts = contracts; slots = taken.0 } in
                let same = λ (s : ℕ).
                  same_load st after s c current (moves s)
                    (count-Saved current c st.contracts contracts s saved) in
                limit-Saved (load st) (load after) a.session_id current c st.contracts contracts at
                  saved (omega (arith, same a.session_id, h a.session_id current at))
                  (λ s other. omega (arith, same s)) h)))))
  where
    same_load :
        (st after : Store) (s : ℕ) (c : Candidate) (current : Tuning.Session)
        → held_count s after.slots + belongs s c ≡ held_count s st.slots
        → length (list_candidates s after.contracts)
          ≡ length (list_candidates s st.contracts) + belongs s c
        → load after s ≡ load st s
    same_load st after s c current held counted = omega (arith, held, counted)

-- Every candidate comes by a slot.
abbrev pub BySlot : Call → Type 0
BySlot (attaches a) = (id : ℕ) × (a.reservation_id ≡ some id)
BySlot (reserves r) = Unit
BySlot (updates u) = Unit

create_candidate_and_attach-Promised :
    (a : Attach) (st : Store) (id : ℕ)
    → a.reservation_id ≡ some id
    → Promised st
    → OkOf PromisedAttach (create_candidate_and_attach a st)
unfolding create_candidate_and_attach
create_candidate_and_attach-Promised a st id by h =
    OkOf-require PromisedAttach (a.candidate.session_id == a.session_id) _ _ (λ own.
      OkOf-bind PromisedAttach
        (lift (
          idempotent_aggregate candidate_attach a.request.idempotency_key none
            a.request.request_fingerprint st.contracts.bindings))
        _
        (λ bound asked.
          finish_attach-Promised a (record st { slots = expire a.now st.slots }) id bound by
            ((==_iff a.candidate.session_id a.session_id).0 own) (expire-Promised a.now st h)))

call-Promised :
    (call : Call) (st : Store) → BySlot call → Promised st → OkOf Promised (run_call call st)
unfolding run_call
call-Promised (reserves r) st by h =
    OkOf-bind Promised (reserve_candidate_slot r st) _
      (λ d done. subst (OkOf PromisedReserve) done (reserve_candidate_slot-Promised r st h))
call-Promised (updates u) st by h =
    OkOf-bind Promised (update_candidate_slot u st) _
      (λ d done. subst (OkOf PromisedUpdate) done (update_candidate_slot-Promised u st h))
call-Promised (attaches a) st by h =
    OkOf-bind Promised (create_candidate_and_attach a st) _ (λ d done.
      subst (OkOf PromisedAttach) done (create_candidate_and_attach-Promised a st by.0 by.1 h))

kept-Promised :
    (st : Store) (r : Result Store) → Promised st → OkOf Promised r → Promised (kept_store st r)
kept-Promised st (raised e) h k = h
kept-Promised st (returned st') h k = k

pub run-Promised :
    (calls : List Call) (st : Store) → All BySlot calls → Promised st → Promised (run calls st)
unfolding run
run-Promised [] st by h = h
run-Promised (call ∷ calls) st by h =
    run-Promised calls (kept_store st (run_call call st)) by.1
      (kept-Promised st (run_call call st) h (call-Promised call st by.0 h))
