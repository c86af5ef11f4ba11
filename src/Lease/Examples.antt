-- ===== src/Lease/Examples.antt =====
-- Leases of one database, src/azure_sql_mcp/performance_store.py.
use azure_sql_mcp.Shared.{ℕ, suc, ◌≡◌, refl, false, none, some, List, [], ◌∷◌, arith}
use azure_sql_mcp.Shared.Rows.{find_row, put_row, sum_rows}
use azure_sql_mcp.Lease.{
  Status, Lease, raised, returned, lease_conflict, find_open, Create, create_index_lease, Update,
  update_index_lease, creates, updates, run_call,
}
use azure_sql_mcp.Lease.Single.{
  open_leases, AtMostOne, Runs, here, next, Runs-AtMostOne, reopened-open_leases,
}

abbrev create : ℕ → Create
create i = record {
  lease_id = i;
  database = 7;
  object_fingerprint = 70;
  owner_reference = some i;
  fencing_token = none;
  request_fingerprint = none;
}

abbrev to_status : ℕ → Status → Update
to_status i st = record {
  lease_id = i;
  status = st;
  has_metadata = false;
  object_fingerprint = none;
  owner_reference = some i;
  fencing_token = none;
  expected_version = none;
}

abbrev lease : ℕ → Status → ℕ → Lease
lease i st v = record {
  lease_id = i;
  database = 7;
  status = st;
  owner_token = some i;
  object_fingerprint = 70;
  request_fingerprint = none;
  version = v;
}

-- A lease is cleaned up, and another is made.
abbrev two_leases : List Lease
two_leases = lease 1 Status.cleaned 1 ∷ lease 2 Status.pending_create 0 ∷ []

calls : Runs [] two_leases
unfolding run_call create_index_lease update_index_lease find_row put_row find_open
calls =
    next
      (next
        (next here (creates (create 1)) (λ no_lease. absurd no_lease)
          (lease 1 Status.pending_create 0 ∷ []) (lease 1 Status.pending_create 0) refl)
        (updates (to_status 1 Status.cleaned)) (λ (x, at, closed, on). cc)
        (lease 1 Status.cleaned 1 ∷ []) (lease 1 Status.cleaned 1) refl)
      (creates (create 2)) (λ no_lease. absurd no_lease) two_leases
      (lease 2 Status.pending_create 0) refl

Runs-AtMostOne_example : AtMostOne two_leases
unfolding open_leases sum_rows
Runs-AtMostOne_example = Runs-AtMostOne [] two_leases calls (λ d. omega arith)

reopened-open_leases_example :
    (after : List Lease) × (x : Lease) × (run_call (updates (to_status 1 Status.active)) two_leases
      ≡ returned (after, x))
    × (open_leases 7 after ≡ suc (open_leases 7 two_leases))
unfolding find_row
reopened-open_leases_example =
    reopened-open_leases (to_status 1 Status.active) two_leases (lease 1 Status.cleaned 1) refl refl
      refl refl refl refl

-- A second lease of a database that has an open one is refused.
second_lease : run_call (creates (create 2)) (lease 1 Status.active 1 ∷ []) ≡ raised lease_conflict
unfolding run_call create_index_lease find_row find_open
second_lease = refl
