-- ===== src/Slots/Run.antt =====
-- Runs of calls on the candidate slots: src/azure_sql_mcp/performance_store.py.
use azure_sql_mcp.Shared.{subst, List, [], ◌∷◌}
use azure_sql_mcp.Shared.Raising.{raised, returned, ◌>>=◌, OkOf, OkOf-bind}
use azure_sql_mcp.Slots.{
  Store, Result, Reserve, reserve_candidate_slot, Update, update_candidate_slot, Attach,
  create_candidate_and_attach,
}
use azure_sql_mcp.Slots.Sound.{
  IsSound, SoundReserve, SoundUpdate, SoundAttach, reserve_candidate_slot-IsSound,
  update_candidate_slot-IsSound, create_candidate_and_attach-IsSound,
}

pub data Call : Type 0 where
  reserves : Reserve → Call
  updates : Update → Call
  attaches : Attach → Call

-- The store that a call returns.
unfoldable pub run_call : Call → Store → Result Store
unfolding reserve_candidate_slot update_candidate_slot create_candidate_and_attach
run_call (reserves r) st = do done ← reserve_candidate_slot r st; returned done.0
run_call (updates u) st = do done ← update_candidate_slot u st; returned done.0
run_call (attaches a) st = do done ← create_candidate_and_attach a st; returned done.0

-- Calls one after another; one that raises leaves the store as it is.
abbrev pub kept_store : Store → Result Store → Store
kept_store st (raised e) = st
kept_store st (returned st') = st'

unfoldable pub run : List Call → Store → Store
unfolding run_call
run [] st = st
run (call ∷ calls) st = run calls (kept_store st (run_call call st))

call-IsSound : (call : Call) (st : Store) → IsSound st → OkOf IsSound (run_call call st)
unfolding run_call
call-IsSound (reserves r) st h =
    OkOf-bind IsSound (reserve_candidate_slot r st) _
      (λ d done. subst (OkOf SoundReserve) done (reserve_candidate_slot-IsSound r st h))
call-IsSound (updates u) st h =
    OkOf-bind IsSound (update_candidate_slot u st) _
      (λ d done. subst (OkOf SoundUpdate) done (update_candidate_slot-IsSound u st h))
call-IsSound (attaches a) st h =
    OkOf-bind IsSound (create_candidate_and_attach a st) _
      (λ d done. subst (OkOf SoundAttach) done (create_candidate_and_attach-IsSound a st h))

kept-IsSound :
    (st : Store) (r : Result Store) → IsSound st → OkOf IsSound r → IsSound (kept_store st r)
kept-IsSound st (raised e) h k = h
kept-IsSound st (returned st') h k = k

-- Behind any calls that reserve, release and attach, of which some raise, no ordinal of a session is
-- used twice by its candidates and reserved slots, and each session has at most as many candidates as
-- its budget, where this was so before.
pub run-IsSound : (calls : List Call) (st : Store) → IsSound st → IsSound (run calls st)
unfolding run
run-IsSound [] st h = h
run-IsSound (call ∷ calls) st h =
    run-IsSound calls (kept_store st (run_call call st))
      (kept-IsSound st (run_call call st) h (call-IsSound call st h))
