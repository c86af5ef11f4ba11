-- ===== src/Tuning/Save.antt =====
-- Reading and saving sessions and candidates: the part of src/azure_sql_mcp/performance_store.py under
-- the state machine. A method is one transaction, so that an error leaves the store as it was.
-- Bindings that an older version wrote without a fingerprint are left out.
use azure_sql_mcp.Shared.{
  ℕ, suc, Bool, true, false, ◌&&◌, not, Option, none, some, List, [], ◌∷◌, ◌++◌, leb, ◌==◌,
  if◌then◌else◌,
}
use azure_sql_mcp.Shared.Rows.{find_row, put_row, owned}
use azure_sql_mcp.Tuning.{
  Session, Candidate, Scope, same_scope, Binding, Half, same_half, Event, Store, already_exists,
  concurrency, idempotency_conflict, Result, returned, ◌>>=◌, ◌>>◌, require, session_key,
  candidate_key, candidate_owner,
}

unfoldable pub get_session : ℕ → Store → Option Session
unfolding find_row
get_session i st = find_row session_key i st.sessions

unfoldable pub get_candidate : ℕ → Store → Option Candidate
unfolding find_row
get_candidate i st = find_row candidate_key i st.candidates

unfoldable pub list_candidates : ℕ → Store → List Candidate
unfolding owned
list_candidates i st = owned candidate_key candidate_owner i st.candidates

abbrev pub is_version : Option ℕ → ℕ → Bool
is_version none version = true
is_version (some v) version = version == v

abbrev pub advances : Option ℕ → ℕ → ℕ → Bool
advances none current incoming = true
advances (some v) current incoming = incoming == suc current

abbrev pub is_none {ℓ} : {A : Type ℓ} → Option A → Bool
is_none none = true
is_none (some a) = false

-- `_save_locked`, for the rows of one type of aggregate.
module _ {ℓ} {A : Type ℓ} (key : A → ℕ) (version : A → ℕ) where
  abbrev pub save_over : A → Bool → Option ℕ → List A → Option A → Result (List A)
  save_over x insert_only expected rows none = do
    require (is_none expected) concurrency
    returned (put_row key x rows)
  save_over x insert_only expected rows (some current) = do
    require (not insert_only) already_exists
    require (is_version expected (version current)) concurrency
    require (leb (version current) (version x)) concurrency
    require (advances expected (version current) (version x)) concurrency
    returned (put_row key x rows)

  unfoldable pub save_locked : A → Bool → Option ℕ → List A → Result (List A)
  unfolding put_row find_row
  save_locked x insert_only expected rows =
      save_over x insert_only expected rows (find_row key (key x) rows)

abbrev pub session_version : Session → ℕ
session_version s = s.version

abbrev pub candidate_version : Candidate → ℕ
candidate_version c = c.version

unfoldable pub save_session_locked : Session → Option ℕ → Store → Result Store
unfolding save_locked
save_session_locked s expected st = do
  rows ← save_locked session_key session_version s false expected st.sessions
  returned (record st { sessions = rows })

unfoldable pub save_candidate_locked : Candidate → Bool → Option ℕ → Store → Result Store
unfolding save_locked
save_candidate_locked c insert_only expected st = do
  rows ← save_locked candidate_key candidate_version c insert_only expected st.candidates
  returned (record st { candidates = rows })

unfoldable pub find_binding : Scope → ℕ → List Binding → Option Binding
find_binding sc k [] = none
find_binding sc k (b ∷ bs) =
    if same_scope b.scope sc && b.idempotency_key == k then some b else find_binding sc k bs

-- `_idempotent_aggregate_locked`: the aggregate that the key is bound to. An identifier that is not
-- asked for is not compared.
abbrev pub bound_to : Option ℕ → ℕ → Option Binding → Result (Option ℕ)
bound_to requested fp none = returned none
bound_to requested fp (some b) = do
  require (is_version requested b.aggregate_id) idempotency_conflict
  require (b.request_fingerprint == fp) idempotency_conflict
  returned (some b.aggregate_id)

unfoldable pub idempotent_aggregate :
    Scope → Option ℕ → Option ℕ → ℕ → List Binding → Result (Option ℕ)
unfolding find_binding
idempotent_aggregate sc none requested fp bs = returned none
idempotent_aggregate sc (some k) requested fp bs = bound_to requested fp (find_binding sc k bs)

-- `_record_idempotency_locked`
abbrev pub bind_new : Binding → Option Binding → List Binding → Result (List Binding)
bind_new b none bs = returned (bs ++ b ∷ [])
bind_new b (some old) bs = do
  _ ← bound_to (some b.aggregate_id) b.request_fingerprint (some old)
  returned bs

unfoldable pub record_idempotency : Scope → Option ℕ → ℕ → ℕ → Store → Result Store
unfolding find_binding
record_idempotency sc none id fp st = returned st
record_idempotency sc (some k) id fp st = do
  let b : Binding = record {
    scope = sc;
    idempotency_key = k;
    aggregate_id = id;
    request_fingerprint = fp;
  }
  bs ← bind_new b (find_binding sc k st.bindings) st.bindings
  returned (record st { bindings = bs })

abbrev has_key : ℕ → Option ℕ → Bool
has_key k none = false
has_key k (some j) = j == k

unfoldable pub find_event : Scope → Half → ℕ → List Event → Option Event
find_event sc h k [] = none
find_event sc h k (e ∷ es) =
    if same_scope e.scope sc && (same_half e.half h && has_key k e.idempotency_key)
    then some e
    else find_event sc h k es

-- `_append_event_locked`: an event whose key is there already must be the same.
abbrev pub append_over : Event → Option Event → Store → Result Store
append_over e none st = returned (record st { events = st.events ++ e ∷ [] })
append_over e (some old) st = do
  require (old.aggregate_id == e.aggregate_id) idempotency_conflict
  require (old.request_fingerprint == e.request_fingerprint) idempotency_conflict
  returned st

abbrev pub old_event : Event → Option ℕ → List Event → Option Event
old_event e none es = none
old_event e (some k) es = find_event e.scope e.half k es

unfoldable pub append_event : Event → Store → Result Store
unfolding find_event
append_event e st = append_over e (old_event e e.idempotency_key st.events) st
