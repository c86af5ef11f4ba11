-- ===== src/Slots/Examples.antt =====
-- A session with room for two candidates, and calls on its slots.
use azure_sql_mcp.Shared.{ℕ, ◌≡◌, refl, Option, none, some, List, [], ◌∷◌, arith}
use azure_sql_mcp.Shared.Rows.{find_row, owned, sum_rows}
use azure_sql_mcp.Shared.Raising.{returned}
use azure_sql_mcp.Tuning
use azure_sql_mcp.Tuning.{SessionStatus, CandidateState, Candidate}
use azure_sql_mcp.Tuning.Save.{get_session, get_candidate, list_candidates}
use azure_sql_mcp.Slots.{
  Slot, reserved, released, Store, Reserve, Attach, held_count, create_candidate_and_attach,
  next_candidate_ordinal,
}
use azure_sql_mcp.Slots.Run.{Call, reserves, updates, attaches, run}
use azure_sql_mcp.Slots.Sound.{IsSound}
use azure_sql_mcp.Slots.Run.{run-IsSound}
use azure_sql_mcp.Slots.Promised.{Promised}
use azure_sql_mcp.Slots.Honoured.{Claims, run-claim}

abbrev session : Tuning.Session
session = record {
  session_id = 1;
  status = SessionStatus.created;
  deadline_at = none;
  max_candidates = 2;
  screen_runs_per_candidate = 3;
  finalist_runs_per_candidate = 3;
  parameter_case_limit = 4;
  execution_limit = 20;
  candidate_ids = [];
  finalist_candidate_ids = [];
  selected_candidate_id = none;
  version = 0;
}

abbrev start : Store
start = record {
  contracts = record {
    sessions = session ∷ [];
    candidates = [];
    slots = [];
    bindings = [];
    events = [];
  };
  slots = [];
}

abbrev reserve : ℕ → ℕ → Reserve
reserve fingerprint token = record {
  session_id = 1;
  request_fingerprint = fingerprint;
  owner_reference = some 7;
  new_owner = 0;
  reservation_token = token;
  now = 10;
  expires_at = 100;
}

abbrev candidate : ℕ → Candidate
candidate id = record {
  candidate_id = id;
  session_id = 1;
  ordinal = 0;
  state = CandidateState.proposed;
  screen_runs = 0;
  finalist_runs = 0;
  parameter_cases = 0;
  executions = 0;
  evidence_ids = [];
  failure_code = none;
  version = 0;
}

abbrev attach : ℕ → Option ℕ → ℕ → ℕ → Attach
attach id slot fingerprint token = record {
  session_id = 1;
  candidate = candidate id;
  expected_version = some 0;
  request = record { idempotency_key = none; request_fingerprint = fingerprint };
  reservation_id = slot;
  owner_reference = some 7;
  new_owner = 0;
  reservation_token = token;
  now = 20;
}

abbrev first_slot : Slot
first_slot = record {
  reservation_id = 50;
  session_id = 1;
  request_fingerprint = 4;
  ordinal = 0;
  status = reserved;
  owner_token = 7;
  version = 0;
  expires_at = 100;
}

abbrev second_slot : Slot
second_slot = record first_slot { reservation_id = 51; request_fingerprint = 5; ordinal = 1 }

abbrev two_reserved : List Call
two_reserved = reserves (reserve 4 50) ∷ reserves (reserve 5 51) ∷ []

run-two_reserved : run two_reserved start ≡ record start { slots = first_slot ∷ second_slot ∷ [] }
unfolding run
run-two_reserved = refl

-- A third reservation finds no room, and a slot that is given back makes some.
abbrev given_back : List Call
given_back =
    reserves (reserve 4 50)
    ∷ reserves (reserve 5 51)
    ∷ reserves (reserve 6 52)
    ∷ updates (record {
      reservation_id = 51;
      status = released;
      owner_reference = some 7;
      expected_version = some 0;
      now = 12;
    })
    ∷ reserves (reserve 6 53)
    ∷ attaches (attach 90 (some 53) 6 60)
    ∷ []

next_candidate_ordinal-given_back : next_candidate_ordinal 1 (run given_back start) ≡ 3
unfolding run next_candidate_ordinal
next_candidate_ordinal-given_back = refl

-- An attach without a slot takes the room that a slot holds.
direct_attach :
    (st : Store) × (c : Candidate) × (create_candidate_and_attach
        (attach 90 none 9 60)
        (run two_reserved start)
      ≡ returned (st, c))
    × (held_count 1 st.slots ≡ 2)
unfolding run create_candidate_and_attach held_count
direct_attach = (_, _, refl, refl)

start-IsSound : IsSound start
unfolding sum_rows list_candidates owned
start-IsSound = record { apart = λ s o. omega arith; within = λ s t e. omega arith }

run-IsSound_example : IsSound (run given_back start)
run-IsSound_example = run-IsSound given_back start start-IsSound

start-Promised : Promised start
unfolding list_candidates owned held_count sum_rows
start-Promised s t e = omega arith

Claims-first : Claims (attach 90 (some 50) 9 60) (run two_reserved start) first_slot session
unfolding run find_row get_session get_candidate
Claims-first = record {
  slot = refl;
  named = refl;
  owner = refl;
  is_open = refl;
  before_expiry = omega arith;
  in_session = refl;
  own = refl;
  session = refl;
  version = refl;
  is_new = refl;
  keyless = refl;
}

run-claim_example :
    (st' : Store) × (create_candidate_and_attach (attach 90 (some 50) 9 60) (run two_reserved start)
      ≡ returned (st', record (candidate 90) { ordinal = 0 }))
run-claim_example =
    run-claim two_reserved start (attach 90 (some 50) 9 60) first_slot session (tt, (tt, tt))
      start-Promised Claims-first
