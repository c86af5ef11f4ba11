-- ===== src/Lease/Single.antt =====
-- One open lease of a database at a time: src/azure_sql_mcp/performance_store.py.
use azure_sql_mcp.Shared.{
  ℕ, suc, ◌+◌, ◌≤◌, ◌≡◌, refl, ap, ◌∙◌, subst, ◌⊎◌, inl, inr, Bool-cases, Bool, true, false, ◌&&◌,
  not, Option, none, some, List, [], ◌∷◌, ◌==◌, if◌then◌else◌, arith, ==_iff,
}
use azure_sql_mcp.Shared.Rows.{
  find_row, put_row, key-find_row, sum_rows, sum_rows-put_row, sum_rows-put_row_new,
}
use azure_sql_mcp.Shared.Raising.{OkOf, OkOf-require, OkOf-or_raise}
use azure_sql_mcp.Lease.{
  Status, is_open, is_recovery, same_status, Lease, returned, lease_key, agree, either, owns,
  find_open, Create, is_owner, new_lease, insert, create_over, create_index_lease, Update, updated,
  is_version, is_none, change, update_locked, update_index_lease, recover_index_lease, Call,
  creates, updates, recovers, run_call,
}

abbrev pub opened : ℕ → Lease → ℕ
opened d l = if l.database == d && is_open l.status then 1 else 0

-- How many leases of a database are open.
unfoldable pub open_leases : ℕ → List Lease → ℕ
unfolding sum_rows
open_leases d ls = sum_rows lease_key (opened d) ls

abbrev pub AtMostOne : List Lease → Type 0
AtMostOne ls = (d : ℕ) → open_leases d ls ≤ 1

find_open-open_leases : (d : ℕ) (ls : List Lease) → find_open d ls ≡ none → open_leases d ls ≡ 0
unfolding find_open open_leases sum_rows
find_open-open_leases d [] e = refl
find_open-open_leases d (l ∷ ls) e = ground (arith, find_open-open_leases d ls)

-- A call gives no open status to a lease that is closed.
abbrev pub Reopens : Call → List Lease → Type 0
Reopens (creates c) ls = ⊥
Reopens (updates u) ls =
    (l : Lease) × (find_row lease_key u.lease_id ls ≡ some l)
    × (is_open l.status ≡ false)
    × (is_open u.status ≡ true)
Reopens (recovers u) ls =
    (l : Lease) × (find_row lease_key u.lease_id ls ≡ some l)
    × (is_open l.status ≡ false)
    × (is_open u.status ≡ true)

opened_new : (d : ℕ) (c : Create) → opened d (new_lease c) ≤ 1
opened_new d c = ground arith

opened_other : (d : ℕ) (c : Create) → c.database == d ≡ false → opened d (new_lease c) ≡ 0
opened_other d c apart = rw apart refl

create_index_lease-AtMostOne :
    (c : Create) (ls : List Lease)
    → AtMostOne ls
    → OkOf (λ (r : List Lease × Lease). AtMostOne r.0) (create_index_lease c ls)
unfolding create_index_lease open_leases
create_index_lease-AtMostOne c ls h =
    let P = λ (r : List Lease × Lease). AtMostOne r.0 in
    OkOf-require P (agree c.owner_reference c.fencing_token) _ _
      (λ same. over (find_row lease_key c.lease_id ls) refl)
  where
    fresh :
        (o : Option Lease)
        → find_open c.database ls ≡ o
        → find_row lease_key c.lease_id ls ≡ none
        → OkOf (λ (r : List Lease × Lease). AtMostOne r.0) (insert c ls o)
    fresh (some l) e new = tt
    fresh none e new = λ d.
        room d (Bool-cases (c.database == d))
          (sum_rows-put_row_new lease_key (opened d) (new_lease c) ls new)
      where
        room :
            (d : ℕ)
            → (c.database == d ≡ true) ⊎ (c.database == d ≡ false)
            → sum_rows lease_key (opened d) (put_row lease_key (new_lease c) ls)
              ≡ sum_rows lease_key (opened d) ls + opened d (new_lease c)
            → open_leases d (put_row lease_key (new_lease c) ls) ≤ 1
        room d (inl same) sum =
            let closed : open_leases d ls ≡ 0 =
              subst (λ i. open_leases i ls ≡ 0) ((==_iff c.database d).0 same)
                (find_open-open_leases c.database ls e) in
            omega (arith, sum, closed, opened_new d c)
        room d (inr apart) sum = omega (arith, sum, h d, opened_other d c apart)

    over :
        (o : Option Lease)
        → find_row lease_key c.lease_id ls ≡ o
        → OkOf (λ (r : List Lease × Lease). AtMostOne r.0) (create_over c ls o)
    over none at = fresh (find_open c.database ls) refl at
    over (some l) at =
        OkOf-require (λ (r : List Lease × Lease). AtMostOne r.0)
          (agree l.request_fingerprint c.request_fingerprint) _ _
          (λ same_request.
            OkOf-require (λ (r : List Lease × Lease). AtMostOne r.0)
              (is_owner l.owner_token (either c.owner_reference c.fencing_token)) _ _ (λ own. h))

opened_le :
    (u : Update) (object : Option ℕ) (l : Lease) (d : ℕ)
    → (is_open u.status ≡ true → is_open l.status ≡ true)
    → opened d (updated u object l) ≤ opened d l
opened_le u object l d keeps = elim (Bool-cases (is_open u.status)) [
  | inl on ↦ rw (on, keeps on) (omega arith)
  | inr off ↦ rw off (ground arith)
]

update_locked-AtMostOne :
    (u : Update) (object : Option ℕ) (l : Lease) (ls : List Lease)
    → find_row lease_key u.lease_id ls ≡ some l
    → (is_open u.status ≡ true → is_open l.status ≡ true)
    → AtMostOne ls
    → OkOf (λ (r : List Lease × Lease). AtMostOne r.0) (update_locked u object l ls)
unfolding open_leases
update_locked-AtMostOne u object l ls at keeps h =
    OkOf-require (λ (r : List Lease × Lease). AtMostOne r.0)
      (is_version u.expected_version l.version) _ _
      (λ version. go (same_status l.status u.status && (not u.has_metadata && is_none object)))
  where
    mine : find_row lease_key l.lease_id ls ≡ some l
    mine = ap (λ i. find_row lease_key i ls) (key-find_row lease_key u.lease_id l ls at) ∙ at

    go : (b : Bool) → OkOf (λ (r : List Lease × Lease). AtMostOne r.0) (change u object l ls b)
    go true = h
    go false = λ d.
        let sum = sum_rows-put_row lease_key (opened d) (updated u object l) l ls mine in
        omega (arith, sum, h d, opened_le u object l d keeps)

module _ (u : Update) (ls : List Lease) where
  keeps_open :
      (l : Lease)
      → find_row lease_key u.lease_id ls ≡ some l
      → ((x : Lease) × (find_row lease_key u.lease_id ls ≡ some x)
            × (is_open x.status ≡ false)
            × (is_open u.status ≡ true)
          → ⊥)
      → is_open u.status ≡ true
      → is_open l.status ≡ true
  keeps_open l at none_reopened on = elim (Bool-cases (is_open l.status)) [
    | inl still ↦ still
    | inr closed ↦ absurd (none_reopened (l, at, closed, on))
  ]

call-AtMostOne :
    (call : Call) (ls : List Lease)
    → (Reopens call ls → ⊥)
    → AtMostOne ls
    → OkOf (λ (r : List Lease × Lease). AtMostOne r.0) (run_call call ls)
unfolding run_call update_index_lease recover_index_lease
call-AtMostOne (creates c) ls none_reopened h = create_index_lease-AtMostOne c ls h
call-AtMostOne (updates u) ls none_reopened h =
    let P = λ (r : List Lease × Lease). AtMostOne r.0 in
    OkOf-require P (agree u.owner_reference u.fencing_token) _ _ (λ same.
      OkOf-or_raise P (find_row lease_key u.lease_id ls) _ _ (λ l at.
        OkOf-require P (owns l.owner_token (either u.owner_reference u.fencing_token)) _ _ (λ own.
          update_locked-AtMostOne u u.object_fingerprint l ls at
            (keeps_open u ls l at none_reopened) h)))
call-AtMostOne (recovers u) ls none_reopened h =
    let P = λ (r : List Lease × Lease). AtMostOne r.0 in
    OkOf-require P (is_recovery u.status) _ _ (λ recovery.
      OkOf-or_raise P (find_row lease_key u.lease_id ls) _ _
        (λ l at. update_locked-AtMostOne u none l ls at (keeps_open u ls l at none_reopened) h))

-- Calls that return, one after another, none of which gives an open status to a closed lease.
pub data Runs (ls : List Lease) : List Lease → Type 0 where
  here : Runs ls ls
  next :
      {before : List Lease}
      → Runs ls before
      → (call : Call) → (Reopens call before → ⊥)
      → (after : List Lease) → (l : Lease) → run_call call before ≡ returned (after, l)
      → Runs ls after

-- Where each database has at most one open lease, it has so behind any calls that create, update and
-- recover leases, as long as none gives an open status to a closed lease.
pub Runs-AtMostOne : (ls ls' : List Lease) → Runs ls ls' → AtMostOne ls → AtMostOne ls'
Runs-AtMostOne ls ls' here h = h
Runs-AtMostOne ls ls' (next {before = before} r call none_reopened after l done) h =
    subst (OkOf (λ (x : List Lease × Lease). AtMostOne x.0)) done
      (call-AtMostOne call before none_reopened (Runs-AtMostOne ls before r h))

differ : (a b : Status) → is_open a ≡ false → is_open b ≡ true → same_status a b ≡ false
differ Status.pending_create b e o = cc
differ Status.active b e o = cc
differ Status.cleanup_pending b e o = cc
differ Status.cleaned Status.pending_create e o = refl
differ Status.cleaned Status.active e o = refl
differ Status.cleaned Status.cleanup_pending e o = refl
differ Status.cleaned Status.cleaned e o = cc
differ Status.cleaned Status.cleanup_required e o = refl
differ Status.cleaned Status.create_failed e o = cc
differ Status.cleanup_required b e o = cc
differ Status.create_failed Status.pending_create e o = refl
differ Status.create_failed Status.active e o = refl
differ Status.create_failed Status.cleanup_pending e o = refl
differ Status.create_failed Status.cleaned e o = cc
differ Status.create_failed Status.cleanup_required e o = refl
differ Status.create_failed Status.create_failed e o = cc

-- An update that gives an open status to a closed lease, by its owner and at its version, returns, and
-- leaves one open lease of the database more than before, however many there are.
pub reopened-open_leases :
    (u : Update) (ls : List Lease) (l : Lease)
    → find_row lease_key u.lease_id ls ≡ some l
    → is_open l.status ≡ false
    → is_open u.status ≡ true
    → agree u.owner_reference u.fencing_token ≡ true
    → owns l.owner_token (either u.owner_reference u.fencing_token) ≡ true
    → is_version u.expected_version l.version ≡ true
    → (after : List Lease) × (x : Lease) × (run_call (updates u) ls ≡ returned (after, x))
      × (open_leases l.database after ≡ suc (open_leases l.database ls))
unfolding run_call update_index_lease open_leases
reopened-open_leases u ls l at closed on same own version =
    let mine : find_row lease_key l.lease_id ls ≡ some l =
      ap (λ i. find_row lease_key i ls) (key-find_row lease_key u.lease_id l ls at) ∙ at in
    let l' : Lease = updated u u.object_fingerprint l in
    let sum = sum_rows-put_row lease_key (opened l.database) l' l ls mine in
    let before : opened l.database l ≡ 0 =
      rw (closed, (==_iff l.database l.database).1 refl) refl in
    let after : opened l.database l' ≡ 1 = rw (on, (==_iff l.database l.database).1 refl) refl in
    (
      put_row lease_key l' ls,
      l',
      rw (same, at, own, version, differ l.status u.status closed on) refl,
      omega (arith, sum, before, after),
    )
