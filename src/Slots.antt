-- ===== src/Slots.antt =====
-- Candidate slots: the rows of `candidate_slot_reservations`, and the methods of
-- src/azure_sql_mcp/performance_store.py that reserve a slot, release it and turn it into a candidate.
-- Identifiers, fingerprints, tokens and times are numbers; a method is one transaction, so that an
-- error leaves the store as it was.
pub mod Counts
pub mod Taken
pub mod Limit
pub mod Sound
pub mod Run
pub mod Promised
pub mod Claimed
pub mod Honoured
pub mod Examples
use azure_sql_mcp.Shared.{
  ℕ, suc, ◌+◌, Bool, true, false, ◌&&◌, Option, none, some, List, [], ◌∷◌, length, leb, ltb, ◌==◌,
  if◌then◌else◌, max,
}
use azure_sql_mcp.Shared.Rows.{find_row, put_row, owned, sum_rows}
use azure_sql_mcp.Shared.Raising.{Raising, raised, returned, ◌>>=◌, ◌>>◌, require, or_raise}
use azure_sql_mcp.Tuning
use azure_sql_mcp.Tuning.{
  Candidate, candidate_attach, candidate_half, session_half, session_key, not_found, concurrency,
  budget_exceeded, invalid_value, idempotency_conflict,
}
use azure_sql_mcp.Tuning.Save.{
  get_session, get_candidate, list_candidates, save_candidate_locked, save_session_locked,
  idempotent_aggregate, append_event, record_idempotency, is_version, is_none,
}
use azure_sql_mcp.Tuning.Transactions.{Request, event, attached, next_of_candidates}

pub data SlotStatus : Type 0 where
  reserved consumed released expired : SlotStatus

abbrev pub is_reserved : SlotStatus → Bool
is_reserved reserved = true
is_reserved _ = false

-- A row of `candidate_slot_reservations`.
pub record Slot : Type 0 where
  pub reservation_id : ℕ
  pub session_id : ℕ
  pub request_fingerprint : ℕ
  pub ordinal : ℕ
  pub status : SlotStatus
  pub owner_token : ℕ
  pub version : ℕ
  pub expires_at : ℕ

-- The tables of contracts, keys and events, and the table of slots. The brief slots that `contracts`
-- has of its own are not used here.
pub record Store : Type 0 where
  pub contracts : Tuning.Store
  pub slots : List Slot

pub data Error : Type 0 where
  contract : Tuning.Error → Error
  fencing integrity : Error

abbrev pub Result {ℓ} : Type ℓ → Type ℓ
Result A = Raising Error A

-- What the methods for contracts raise goes through.
abbrev pub lift {ℓ} : {A : Type ℓ} → Tuning.Result A → Result A
lift (raised e) = raised (contract e)
lift (returned a) = returned a

abbrev pub slot_key : Slot → ℕ
slot_key x = x.reservation_id

abbrev pub slot_owner : Slot → ℕ
slot_owner x = x.session_id

abbrev pub expired_at : ℕ → Slot → Slot
expired_at now x =
    if is_reserved x.status && leb x.expires_at now
    then record x { status = expired; version = suc x.version }
    else x

-- `_expire_reservations_locked` on the slots
unfoldable pub expire : ℕ → List Slot → List Slot
expire now [] = []
expire now (x ∷ xs) = expired_at now x ∷ expire now xs

-- WHERE session_id = ? AND request_fingerprint = ?
unfoldable pub find_request : ℕ → ℕ → List Slot → Option Slot
find_request s f [] = none
find_request s f (x ∷ xs) =
    if x.session_id == s && x.request_fingerprint == f then some x else find_request s f xs

abbrev pub open_slot : ℕ → Slot → ℕ
open_slot s x = if x.session_id == s && is_reserved x.status then 1 else 0

-- COUNT(*) of the reserved slots of a session
unfoldable pub held_count : ℕ → List Slot → ℕ
unfolding sum_rows
held_count s xs = sum_rows slot_key (open_slot s) xs

-- `_check_owner`; the methods here never store an empty token, which would let anyone pass.
abbrev pub is_owner : ℕ → Option ℕ → Bool
is_owner stored none = false
is_owner stored (some supplied) = supplied == stored

-- One more than each ordinal of the slots of a session, and 0 where there is none.
unfoldable pub next_of_slots : List Slot → ℕ
next_of_slots [] = 0
next_of_slots (x ∷ xs) = max (suc x.ordinal) (next_of_slots xs)

-- `_next_candidate_ordinal_locked`
unfoldable pub next_candidate_ordinal : ℕ → Store → ℕ
unfolding next_of_candidates next_of_slots list_candidates owned
next_candidate_ordinal s st =
    max (next_of_candidates (list_candidates s st.contracts))
      (next_of_slots (owned slot_key slot_owner s st.slots))

-- INSERT INTO candidate_slot_reservations, under its two uniqueness constraints
unfoldable pub insert_slot : Slot → List Slot → Result (List Slot)
unfolding find_row put_row find_request
insert_slot x xs = do
  require (is_none (find_row slot_key x.reservation_id xs)) integrity
  require (is_none (find_request x.session_id x.request_fingerprint xs)) integrity
  returned (put_row slot_key x xs)

pub record Reserve : Type 0 where
  pub session_id : ℕ
  pub request_fingerprint : ℕ
  pub owner_reference : Option ℕ
  -- what `_new_token` and the clock give
  pub new_owner : ℕ
  pub reservation_token : ℕ
  pub now : ℕ
  pub expires_at : ℕ

abbrev pub owner_or : Option ℕ → ℕ → ℕ
owner_or none token = token
owner_or (some reference) token = reference

-- `if owner_reference is not None: _check_owner`
abbrev pub may_replay : ℕ → Option ℕ → Bool
may_replay stored none = true
may_replay stored (some supplied) = is_owner stored (some supplied)

abbrev pub new_slot : Reserve → ℕ → Slot
new_slot r ordinal = record {
  reservation_id = r.reservation_token;
  session_id = r.session_id;
  request_fingerprint = r.request_fingerprint;
  ordinal = ordinal;
  status = reserved;
  owner_token = owner_or r.owner_reference r.new_owner;
  version = 0;
  expires_at = r.expires_at;
}

-- The store, the slot and whether it is an earlier one.
abbrev pub finish_reserve : Reserve → Store → Option Slot → Result (Store × Slot × Bool)
finish_reserve r st (some x) = do
  require (may_replay x.owner_token r.owner_reference) fencing
  returned (st, x, true)
finish_reserve r st none = do
  session ← or_raise (get_session r.session_id st.contracts) (contract not_found)
  require
      (ltb (length (list_candidates r.session_id st.contracts) + held_count r.session_id st.slots)
        session.max_candidates)
      (contract budget_exceeded)
  let x : Slot = new_slot r (next_candidate_ordinal r.session_id st)
  slots ← insert_slot x st.slots
  returned (record st { slots = slots }, x, false)

unfoldable pub reserve_candidate_slot : Reserve → Store → Result (Store × Slot × Bool)
unfolding expire find_request get_session list_candidates held_count next_candidate_ordinal
    insert_slot
reserve_candidate_slot r st =
    let live : Store = record st { slots = expire r.now st.slots } in
    finish_reserve r live (find_request r.session_id r.request_fingerprint live.slots)

pub record Update : Type 0 where
  pub reservation_id : ℕ
  pub status : SlotStatus
  pub owner_reference : Option ℕ
  pub expected_version : Option ℕ
  pub now : ℕ

-- status in {"consumed", "released"}
abbrev pub is_update : SlotStatus → Bool
is_update consumed = true
is_update released = true
is_update _ = false

abbrev pub updated : SlotStatus → Slot → Slot
updated status x = record x { status = status; version = suc x.version }

-- `_update_candidate_slot`
unfoldable pub update_candidate_slot : Update → Store → Result (Store × Slot)
unfolding expire find_row put_row
update_candidate_slot u st = do
  require (is_update u.status) (contract invalid_value)
  let live : Store = record st { slots = expire u.now st.slots }
  x ← or_raise (find_row slot_key u.reservation_id live.slots) (contract not_found)
  require (is_owner x.owner_token u.owner_reference) fencing
  require (is_version u.expected_version x.version) (contract concurrency)
  returned (
      if is_reserved x.status
      then (
        record live { slots = put_row slot_key (updated u.status x) live.slots },
        updated u.status x,
      )
      else (live, x))

-- `release_candidate_slot`
unfoldable pub release_candidate_slot : ℕ → Option ℕ → Option ℕ → ℕ → Store → Result (Store × Slot)
unfolding update_candidate_slot
release_candidate_slot id owner expected now = update_candidate_slot (record {
  reservation_id = id;
  status = released;
  owner_reference = owner;
  expected_version = expected;
  now = now;
})

pub record Attach : Type 0 where
  pub session_id : ℕ
  pub candidate : Candidate
  pub expected_version : Option ℕ
  pub request : Request
  pub reservation_id : Option ℕ
  pub owner_reference : Option ℕ
  -- what `_new_token` and the clock give
  pub new_owner : ℕ
  pub reservation_token : ℕ
  pub now : ℕ

abbrev pub consumed_slot : Attach → ℕ → Slot
consumed_slot a ordinal = record {
  reservation_id = a.reservation_token;
  session_id = a.session_id;
  request_fingerprint = a.request.request_fingerprint;
  ordinal = ordinal;
  status = consumed;
  owner_token = owner_or a.owner_reference a.new_owner;
  version = 0;
  expires_at = a.now;
}

-- The slots once the candidate has its ordinal, and the ordinal.
unfoldable pub take_slot : Attach → Store → Option ℕ → Result (List Slot × ℕ)
unfolding find_row put_row next_candidate_ordinal insert_slot
take_slot a st (some id) = do
  x ← or_raise (find_row slot_key id st.slots) (contract not_found)
  require (x.session_id == a.session_id) (contract not_found)
  require (is_owner x.owner_token a.owner_reference) fencing
  require (is_reserved x.status) (contract concurrency)
  returned (put_row slot_key (updated consumed x) st.slots, x.ordinal)
take_slot a st none = do
  let ordinal = next_candidate_ordinal a.session_id st
  slots ← insert_slot (consumed_slot a ordinal) st.slots
  returned (slots, ordinal)

-- What is saved and logged once the candidate has its ordinal.
unfoldable pub save_attached :
    Attach → Tuning.Session → Candidate → Tuning.Store → Tuning.Result Tuning.Store
unfolding save_candidate_locked save_session_locked append_event record_idempotency
save_attached a current c st = do
  first ← save_candidate_locked c true none st
  second ← save_session_locked (attached current c) (some current.version) first
  third ← append_event (event candidate_attach candidate_half c.candidate_id a.request) second
  fourth ← append_event (event candidate_attach session_half a.session_id a.request) third
  record_idempotency candidate_attach a.request.idempotency_key c.candidate_id
      a.request.request_fingerprint fourth

abbrev pub finish_attach : Attach → Store → Option ℕ → Result (Store × Candidate)
finish_attach a st (some id) = do
  found ← or_raise (get_candidate id st.contracts) (contract not_found)
  returned (st, found)
finish_attach a st none = do
  current ← or_raise (get_session a.session_id st.contracts) (contract not_found)
  require (is_version a.expected_version current.version) (contract concurrency)
  require (ltb (length (list_candidates a.session_id st.contracts)) current.max_candidates)
      (contract budget_exceeded)
  (slots, ordinal) ← take_slot a st a.reservation_id
  let c : Candidate = record a.candidate { ordinal = ordinal }
  contracts ← lift (save_attached a current c st.contracts)
  returned (record { contracts = contracts; slots = slots }, c)

-- `create_candidate_and_attach`
unfoldable pub create_candidate_and_attach : Attach → Store → Result (Store × Candidate)
unfolding expire idempotent_aggregate get_candidate get_session list_candidates take_slot
    save_attached
create_candidate_and_attach a st = do
  require (a.candidate.session_id == a.session_id) (contract invalid_value)
  let live : Store = record st { slots = expire a.now st.slots }
  bound ← lift (
      idempotent_aggregate candidate_attach a.request.idempotency_key none
        a.request.request_fingerprint live.contracts.bindings)
  finish_attach a live bound

abbrev pub bound_candidate : ℕ → Store → Option ℕ → Result (Option Candidate)
bound_candidate s st none = returned none
bound_candidate s st (some id) = do
  c ← or_raise (get_candidate id st.contracts) (contract not_found)
  require (c.session_id == s) (contract idempotency_conflict)
  returned (some c)

-- `get_idempotent_candidate_creation`; an empty key is none.
unfoldable pub get_idempotent_candidate_creation :
    ℕ → Option ℕ → ℕ → Store → Result (Option Candidate)
unfolding idempotent_aggregate get_candidate
get_idempotent_candidate_creation s none fp st = returned none
get_idempotent_candidate_creation s (some k) fp st = do
  bound ← lift (idempotent_aggregate candidate_attach (some k) none fp st.contracts.bindings)
  bound_candidate s st bound
