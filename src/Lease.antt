-- ===== src/Lease.antt =====
-- Leases on temporary indexes: src/azure_sql_mcp/performance_store.py. Identifiers, fingerprints and
-- tokens are only compared, and are numbers; an empty owner token is none. Of the metadata it only
-- matters whether a call has some.
pub mod Single
pub mod Examples
use azure_sql_mcp.Shared.{
  ℕ, suc, ◌+◌, ◌≡◌, Bool, true, false, ◌&&◌, ◌||◌, not, Option, none, some, List, [], ◌∷◌, ◌==◌,
  if◌then◌else◌,
}
use azure_sql_mcp.Shared.Rows.{find_row, put_row}
use azure_sql_mcp.Shared.Raising.{Raising, raised, returned, ◌>>=◌, ◌>>◌, require, or_raise}

pub data Status : Type 0 where
  pending_create active cleanup_pending cleaned cleanup_required create_failed : Status

abbrev pub is_open : Status → Bool
is_open Status.cleaned = false
is_open Status.create_failed = false
is_open _ = true

abbrev pub is_recovery : Status → Bool
is_recovery Status.cleanup_pending = true
is_recovery Status.cleaned = true
is_recovery Status.cleanup_required = true
is_recovery _ = false

abbrev pub same_status : Status → Status → Bool
same_status Status.pending_create Status.pending_create = true
same_status Status.active Status.active = true
same_status Status.cleanup_pending Status.cleanup_pending = true
same_status Status.cleaned Status.cleaned = true
same_status Status.cleanup_required Status.cleanup_required = true
same_status Status.create_failed Status.create_failed = true
same_status _ _ = false

-- A row of `index_leases`.
pub record Lease : Type 0 where
  pub lease_id : ℕ
  pub database : ℕ
  pub status : Status
  pub owner_token : Option ℕ
  pub object_fingerprint : ℕ
  pub request_fingerprint : Option ℕ
  pub version : ℕ

pub data Error : Type 0 where
  invalid_value not_found lease_conflict fencing concurrency idempotency_conflict : Error

abbrev pub Result {ℓ} : Type ℓ → Type ℓ
Result A = Raising Error A

abbrev pub lease_key : Lease → ℕ
lease_key l = l.lease_id

abbrev pub agree : Option ℕ → Option ℕ → Bool
agree (some a) (some b) = a == b
agree _ _ = true

abbrev pub either : Option ℕ → Option ℕ → Option ℕ
either none b = b
either (some a) b = some a

-- `_check_owner`
abbrev pub owns : Option ℕ → Option ℕ → Bool
owns none supplied = true
owns (some t) none = false
owns (some t) (some u) = u == t

-- An open lease of the database, if there is one.
unfoldable pub find_open : ℕ → List Lease → Option Lease
find_open d [] = none
find_open d (l ∷ ls) = if l.database == d && is_open l.status then some l else find_open d ls

pub record Create : Type 0 where
  pub lease_id : ℕ
  pub database : ℕ
  pub object_fingerprint : ℕ
  pub owner_reference : Option ℕ
  pub fencing_token : Option ℕ
  pub request_fingerprint : Option ℕ

abbrev pub is_owner : Option ℕ → Option ℕ → Bool
is_owner stored none = true
is_owner stored (some u) = owns stored (some u)

abbrev pub new_lease : Create → Lease
new_lease c = record {
  lease_id = c.lease_id;
  database = c.database;
  status = Status.pending_create;
  owner_token = either c.owner_reference c.fencing_token;
  object_fingerprint = c.object_fingerprint;
  request_fingerprint = c.request_fingerprint;
  version = 0;
}

abbrev pub insert : Create → List Lease → Option Lease → Result (List Lease × Lease)
insert c ls (some l) = raised lease_conflict
insert c ls none = returned (put_row lease_key (new_lease c) ls, new_lease c)

abbrev pub create_over : Create → List Lease → Option Lease → Result (List Lease × Lease)
create_over c ls (some l) = do
  require (agree l.request_fingerprint c.request_fingerprint) idempotency_conflict
  require (is_owner l.owner_token (either c.owner_reference c.fencing_token)) fencing
  returned (ls, l)
create_over c ls none = insert c ls (find_open c.database ls)

unfoldable pub create_index_lease : Create → List Lease → Result (List Lease × Lease)
unfolding find_row put_row find_open
create_index_lease c ls = do
  require (agree c.owner_reference c.fencing_token) invalid_value
  create_over c ls (find_row lease_key c.lease_id ls)

-- The arguments of `update_index_lease` and `recover_index_lease`.
pub record Update : Type 0 where
  pub lease_id : ℕ
  pub status : Status
  pub has_metadata : Bool
  pub object_fingerprint : Option ℕ
  pub owner_reference : Option ℕ
  pub fencing_token : Option ℕ
  pub expected_version : Option ℕ

abbrev pub is_version : Option ℕ → ℕ → Bool
is_version none v = true
is_version (some e) v = v == e

abbrev pub is_none : Option ℕ → Bool
is_none none = true
is_none (some x) = false

abbrev or_old : Option ℕ → ℕ → ℕ
or_old none old = old
or_old (some x) old = x

abbrev pub updated : Update → Option ℕ → Lease → Lease
updated u object l = record l {
  status = u.status;
  object_fingerprint = or_old object l.object_fingerprint;
  version = suc l.version;
}

-- Nothing is written where nothing would change.
abbrev pub change : Update → Option ℕ → Lease → List Lease → Bool → Result (List Lease × Lease)
change u object l ls true = returned (ls, l)
change u object l ls false =
    returned (put_row lease_key (updated u object l) ls, updated u object l)

-- `_update_index_lease_locked`
abbrev pub update_locked : Update → Option ℕ → Lease → List Lease → Result (List Lease × Lease)
update_locked u object l ls = do
  require (is_version u.expected_version l.version) concurrency
  change u object l ls (same_status l.status u.status && (not u.has_metadata && is_none object))

unfoldable pub update_index_lease : Update → List Lease → Result (List Lease × Lease)
unfolding find_row put_row
update_index_lease u ls = do
  require (agree u.owner_reference u.fencing_token) invalid_value
  l ← or_raise (find_row lease_key u.lease_id ls) not_found
  require (owns l.owner_token (either u.owner_reference u.fencing_token)) fencing
  update_locked u u.object_fingerprint l ls

unfoldable pub recover_index_lease : Update → List Lease → Result (List Lease × Lease)
unfolding find_row put_row
recover_index_lease u ls = do
  require (is_recovery u.status) invalid_value
  l ← or_raise (find_row lease_key u.lease_id ls) not_found
  update_locked u none l ls

pub data Call : Type 0 where
  creates : Create → Call
  updates : Update → Call
  recovers : Update → Call

unfoldable pub run_call : Call → List Lease → Result (List Lease × Lease)
unfolding create_index_lease update_index_lease recover_index_lease
run_call (creates c) ls = create_index_lease c ls
run_call (updates u) ls = update_index_lease u ls
run_call (recovers u) ls = recover_index_lease u ls
