-- ===== src/Slots/Counts.antt =====
-- Sums over candidates and slots: src/azure_sql_mcp/performance_store.py.
use azure_sql_mcp.Shared.{
  ℕ, ◌+◌, ◌≤◌, ◌≡◌, refl, ap, ◌∙◌, ◌&&◌, true, Option, none, some, List, [], ◌∷◌, length, ◌==◌,
  if◌then◌else◌, arith,
}
use azure_sql_mcp.Shared.Rows.{
  find_row, put_row, owned, sum_rows, key-find_row, sum_rows-put_row, sum_rows-put_row_new,
}
use azure_sql_mcp.Shared.Raising.{OkOf, OkOf-require}
use azure_sql_mcp.Tuning.{Candidate, candidate_key, candidate_owner}
use azure_sql_mcp.Tuning.Save.{is_none}
use azure_sql_mcp.Tuning.Transactions.{next_of_candidates}
use azure_sql_mcp.Slots.{
  SlotStatus, Slot, is_reserved, slot_key, slot_owner, expired_at, expire, find_request, open_slot,
  next_of_slots, insert_slot, updated,
}

-- Whether a candidate of the session has the ordinal, and whether a reserved slot of it does.
abbrev pub takes : ℕ → ℕ → Candidate → ℕ
takes s o c = if c.session_id == s && c.ordinal == o then 1 else 0

abbrev pub holds : ℕ → ℕ → Slot → ℕ
holds s o x = if x.session_id == s && (x.ordinal == o && is_reserved x.status) then 1 else 0

abbrev pub belongs : ℕ → Candidate → ℕ
belongs s c = if c.session_id == s then 1 else 0

pub length-list_candidates :
    (s : ℕ) (cs : List Candidate)
    → length (owned candidate_key candidate_owner s cs) ≡ sum_rows candidate_key (belongs s) cs
unfolding owned sum_rows
length-list_candidates s [] = refl
length-list_candidates s (c ∷ cs) = ground (arith, length-list_candidates s cs)

pub takes-next :
    (s o : ℕ) (cs : List Candidate)
    → next_of_candidates (owned candidate_key candidate_owner s cs) ≤ o
    → sum_rows candidate_key (takes s o) cs ≡ 0
unfolding next_of_candidates owned sum_rows
takes-next s o [] h = refl
takes-next s o (c ∷ cs) h = ground (arith, takes-next s o cs)

pub holds-next :
    (s o : ℕ) (xs : List Slot)
    → next_of_slots (owned slot_key slot_owner s xs) ≤ o
    → sum_rows slot_key (holds s o) xs ≡ 0
unfolding next_of_slots owned sum_rows
holds-next s o [] h = refl
holds-next s o (x ∷ xs) h = ground (arith, holds-next s o xs)

-- Time only takes reservations away.
pub sum_rows-expire :
    (now : ℕ) (w : Slot → ℕ) (xs : List Slot)
    → ((x : Slot) → w (expired_at now x) ≤ w x)
    → sum_rows slot_key w (expire now xs) ≤ sum_rows slot_key w xs
unfolding sum_rows expire
sum_rows-expire now w [] h = omega arith
sum_rows-expire now w (x ∷ xs) h = omega (arith, h x, sum_rows-expire now w xs h)

pub holds-expired_at : (now s o : ℕ) (x : Slot) → holds s o (expired_at now x) ≤ holds s o x
holds-expired_at now s o x = ground arith

pub open_slot-expired_at : (now s : ℕ) (x : Slot) → open_slot s (expired_at now x) ≤ open_slot s x
open_slot-expired_at now s x = ground arith

-- An insertion adds what the new slot weighs.
pub insert_slot-sum :
    (x : Slot) (xs : List Slot)
    → OkOf
        (λ xs'. (w : Slot → ℕ) → sum_rows slot_key w xs' ≡ sum_rows slot_key w xs + w x)
        (insert_slot x xs)
unfolding insert_slot
insert_slot-sum x xs =
    let P = λ (xs' : List Slot).
      (w : Slot → ℕ) → sum_rows slot_key w xs' ≡ sum_rows slot_key w xs + w x in
    OkOf-require P (is_none (find_row slot_key x.reservation_id xs)) _ _ (λ fresh.
      OkOf-require P (is_none (find_request x.session_id x.request_fingerprint xs)) _ _ (λ new w.
        sum_rows-put_row_new slot_key w x xs
          (was_none (find_row slot_key x.reservation_id xs) fresh)))
  where
    was_none : (o : Option Slot) → is_none o ≡ true → o ≡ none
    was_none none h = refl
    was_none (some y) h = cc

-- An update replaces what the old slot weighed.
pub updated-sum :
    (id : ℕ) (status : SlotStatus) (x : Slot) (xs : List Slot) (w : Slot → ℕ)
    → find_row slot_key id xs ≡ some x
    → sum_rows slot_key w (put_row slot_key (updated status x) xs) + w x
      ≡ sum_rows slot_key w xs + w (updated status x)
updated-sum id status x xs w at =
    sum_rows-put_row slot_key w (updated status x) x xs
      (ap (λ i. find_row slot_key i xs) (key-find_row slot_key id x xs at) ∙ at)
