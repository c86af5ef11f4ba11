-- ===== src/Slots/Honoured.antt =====
-- A reserved slot is honoured: src/azure_sql_mcp/performance_store.py.
use azure_sql_mcp.Shared.{
  ℕ, suc, ◌≤◌, ◌<◌, ◌≡◌, refl, sym, ap, ◌∙◌, subst, inl, inr, Bool, Bool-cases, true, false, ◌&&◌,
  Option, none, some, List, [], ◌∷◌, ◌++◌, All, length, leb, ltb, ◌==◌, ==_iff, if◌then◌else◌,
  arith,
}
use azure_sql_mcp.Shared.Rows.{find_row, put_row, sum_rows, key-find_row}
use azure_sql_mcp.Shared.Raising.{returned}
use azure_sql_mcp.Tuning
use azure_sql_mcp.Tuning.{
  Candidate, candidate_attach, candidate_half, session_half, session_key, candidate_key,
}
use azure_sql_mcp.Tuning.Save.{
  get_session, get_candidate, list_candidates, is_version, idempotent_aggregate,
  save_candidate_locked, save_session_locked, save_locked, append_event, record_idempotency,
}
use azure_sql_mcp.Tuning.Transactions.{attached, event}
use azure_sql_mcp.Slots.{
  Slot, SlotStatus, Store, consumed, reserved, slot_key, is_reserved, expired, expired_at, expire,
  held_count, open_slot, updated, Attach, take_slot, save_attached, create_candidate_and_attach,
}
use azure_sql_mcp.Slots.Run.{Call, run}
use azure_sql_mcp.Slots.Promised.{Promised}
use azure_sql_mcp.Slots.Claimed.{BySlot, run-Promised}

key-expired_at : (now : ℕ) (x : Slot) → slot_key (expired_at now x) ≡ slot_key x
key-expired_at now x = ground arith

slot_inj : (y x : Slot) → some y ≡ some x → y ≡ x
slot_inj y x e = cc

unexpired : (now : ℕ) (x : Slot) → now < x.expires_at → expired_at now x ≡ x
unexpired now x live = rw (late x.expires_at now live) (branch (is_reserved x.status))
  where
    late : (e n : ℕ) → n < e → leb e n ≡ false
    late e n h = ground arith

    branch :
        (b : Bool)
        → (if b && false then record x { status = expired; version = suc x.version } else x) ≡ x
    branch true = refl
    branch false = refl

-- A slot whose time is not over is found as it was.
find_row-expire :
    (now k : ℕ) (x : Slot) (xs : List Slot)
    → find_row slot_key k xs ≡ some x
    → now < x.expires_at
    → find_row slot_key k (expire now xs) ≡ some x
unfolding find_row expire
find_row-expire now k x [] e live = e
find_row-expire now k x (y ∷ ys) e live = elim (Bool-cases (slot_key y == k)) [
  | inl same ↦
      let is : some y ≡ some x =
        subst (λ b. (if b then some y else find_row slot_key k ys) ≡ some x) same e in
      rw (key-expired_at now y, same) (still y is)
  | inr other ↦
      let later : find_row slot_key k ys ≡ some x =
        subst (λ b. (if b then some y else find_row slot_key k ys) ≡ some x) other e in
      rw (key-expired_at now y, other) (find_row-expire now k x ys later live)
]
  where
    still : (y : Slot) → some y ≡ some x → some (expired_at now y) ≡ some x
    still y is =
        subst (λ z. some (expired_at now z) ≡ some x) (sym (slot_inj y x is))
          (ap some (unexpired now x live))

weight-le-sum :
    (k : ℕ) (w : Slot → ℕ) (x : Slot) (xs : List Slot)
    → find_row slot_key k xs ≡ some x
    → w x ≤ sum_rows slot_key w xs
unfolding find_row sum_rows
weight-le-sum k w x [] e = cc
weight-le-sum k w x (y ∷ ys) e = elim (Bool-cases (slot_key y == k)) [
  | inl same ↦
      let is : some y ≡ some x =
        subst (λ b. (if b then some y else find_row slot_key k ys) ≡ some x) same e in
      let weight : w y ≡ w x = ap (λ (o : Option Slot). elim o [ none ↦ 0 | some z ↦ w z ]) is in
      omega (arith, weight)
  | inr other ↦
      let later : find_row slot_key k ys ≡ some x =
        subst (λ b. (if b then some y else find_row slot_key k ys) ≡ some x) other e in
      omega (arith, weight-le-sum k w x ys later)
]

same : (n : ℕ) → n == n ≡ true
same n = (==_iff n n).1 refl

test : (m n : ℕ) → m ≡ n → m == n ≡ true
test m n e = (==_iff m n).1 e

open_is : (s : SlotStatus) → s ≡ reserved → is_reserved s ≡ true
open_is s e = rw e refl

up : (n : ℕ) → leb n (suc n) ≡ true
up n = ground arith

fewer : (m n : ℕ) → m < n → ltb m n ≡ true
fewer m n h = ground arith

-- With no key, the candidate is new and its session is there, so everything is saved.
save_attached-returned :
    (a : Attach) (current : Tuning.Session) (c : Candidate) (st : Tuning.Store)
    → get_candidate c.candidate_id st ≡ none
    → get_session current.session_id st ≡ some current
    → a.request.idempotency_key ≡ none
    → (st' : Tuning.Store) × (save_attached a current c st ≡ returned st')
unfolding save_attached get_candidate get_session save_candidate_locked save_session_locked
    save_locked append_event record_idempotency
save_attached-returned a current c st new there keyless = (
  record st {
    candidates = put_row candidate_key c st.candidates;
    sessions = put_row session_key (attached current c) st.sessions;
    events =
        (st.events ++ event candidate_attach candidate_half c.candidate_id a.request ∷ [])
        ++ event candidate_attach session_half a.session_id a.request ∷ [];
  },
  rw (keyless, new, there, same current.version, up current.version, same (suc current.version))
      refl,
)

-- An attach that names a reserved slot.
pub record Claims (a : Attach) (st : Store) (x : Slot) (current : Tuning.Session) : Type 0 where
  pub slot : find_row slot_key x.reservation_id st.slots ≡ some x
  pub named : a.reservation_id ≡ some x.reservation_id
  pub owner : a.owner_reference ≡ some x.owner_token
  pub is_open : x.status ≡ reserved
  pub before_expiry : a.now < x.expires_at
  pub in_session : x.session_id ≡ a.session_id
  pub own : a.candidate.session_id ≡ a.session_id
  pub session : get_session a.session_id st.contracts ≡ some current
  pub version : is_version a.expected_version current.version ≡ true
  pub is_new : get_candidate a.candidate.candidate_id st.contracts ≡ none
  pub keyless : a.request.idempotency_key ≡ none

room :
    (a : Attach) (st : Store) (x : Slot) (current : Tuning.Session)
    → Claims a st x current
    → Promised st
    → ltb (length (list_candidates a.session_id st.contracts)) current.max_candidates ≡ true
unfolding held_count
room a st x current k h =
    let one : open_slot a.session_id x ≡ 1 = rw (k.is_open, k.in_session, same a.session_id) refl in
    fewer (length (list_candidates a.session_id st.contracts)) current.max_candidates (
      omega (
        arith,
        one,
        h a.session_id current k.session,
        weight-le-sum x.reservation_id (open_slot a.session_id) x st.slots k.slot,
      ))

unbound :
    (key : Option ℕ) (fp : ℕ) (st : Tuning.Store)
    → key ≡ none
    → idempotent_aggregate candidate_attach key none fp st.bindings ≡ returned none
unfolding idempotent_aggregate
unbound key fp st e = rw e refl

take_slot-claimed :
    (a : Attach) (st : Store) (x : Slot) (current : Tuning.Session)
    → Claims a st x current
    → take_slot a (record st { slots = expire a.now st.slots }) a.reservation_id
      ≡ returned (put_row slot_key (updated consumed x) (expire a.now st.slots), x.ordinal)
unfolding take_slot
take_slot-claimed a st x current k =
    let live : Store = record st { slots = expire a.now st.slots } in
    ap (take_slot a live) k.named
    ∙ rw
        (
          find_row-expire a.now x.reservation_id x st.slots k.slot k.before_expiry,
          test x.session_id a.session_id k.in_session,
          k.owner,
          same x.owner_token,
          open_is x.status k.is_open,
        )
        refl

claim-returned :
    (a : Attach) (st : Store) (x : Slot) (current : Tuning.Session)
    → Claims a st x current
    → Promised st
    → (st' : Store) × (create_candidate_and_attach a st
        ≡ returned (st', record a.candidate { ordinal = x.ordinal }))
unfolding create_candidate_and_attach
claim-returned a st x current k h =
    let c : Candidate = record a.candidate { ordinal = x.ordinal } in
    let slots = put_row slot_key (updated consumed x) (expire a.now st.slots) in
    let key : current.session_id ≡ a.session_id =
      key-find_row session_key a.session_id current st.contracts.sessions k.session in
    let (contracts, saved) =
      save_attached-returned a current c st.contracts k.is_new
        (ap (λ i. get_session i st.contracts) key ∙ k.session) k.keyless in
    (
      record { contracts = contracts; slots = slots },
      rw
          (
            test a.candidate.session_id a.session_id k.own,
            unbound a.request.idempotency_key a.request.request_fingerprint st.contracts k.keyless,
            k.session,
            k.version,
            room a st x current k h,
            take_slot-claimed a st x current k,
            saved,
          )
          refl,
    )

-- Behind any calls in which each candidate comes by a slot, where each session had room for its
-- candidates and its reserved slots, an attach without a key that names a reserved slot by its owner and
-- in time, for a new candidate at the version of its session, returns it with the slot's ordinal.
pub run-claim :
    (calls : List Call) (st : Store) (a : Attach) (x : Slot) (current : Tuning.Session)
    → All BySlot calls
    → Promised st
    → Claims a (run calls st) x current
    → (st' : Store) × (create_candidate_and_attach a (run calls st)
        ≡ returned (st', record a.candidate { ordinal = x.ordinal }))
run-claim calls st a x current by h k =
    claim-returned a (run calls st) x current k (run-Promised calls st by h)
