-- ===== src/Admin/Execution/Trace.antt =====
-- What an administrative action sends to the database and writes to the audit file
-- (src/azure_sql_mcp/admin_policy.py).
use mathlib.Core.List.{append_assoc}
use azure_sql_mcp.Shared.{
  ℕ, ◌≡◌, ◌⊎◌, inl, inr, refl, ◌∙◌, Bool, false, ◌||◌, Option, none, some, List, [], ◌∷◌, ◌++◌, All,
  arith, if◌then◌else◌, Bool-cases,
}
use azure_sql_mcp.Shared.Text.{Text}
use azure_sql_mcp.Admin.Chars.{CharTable}
use azure_sql_mcp.Admin.Preview.{Redaction}
use azure_sql_mcp.Admin.DropDatabase.{is_rejected}
use azure_sql_mcp.Admin.Audit.{
  AdminAction, Outcome, preview, blocked, apply_started, apply_completed, apply_failed,
  apply_outcome_unknown, Event, Lane, Dispatch, Answer, answered, cancelled, failed, World,
  is_timeout_error, event_of, record_new, record_as,
}
use azure_sql_mcp.Admin.Execution.{
  WritePolicy, apply, applies, Result, returned, raised, completed, dispatch_of, rows_of, sets_of,
  payload, validate_or_audit_block, preview_action, settle, apply_on,
}

abbrev IsPassive : Event → Type 0
IsPassive e = (e.outcome ≡ preview) ⊎ (e.outcome ≡ blocked)

-- Nothing was sent, and no line of the audit file speaks of an application.
pub record IsHeld (w v : World) : Type 0 where
  pub sent : v.dispatched ≡ w.dispatched
  pub lines : List Event
  pub logged : v.log ≡ w.log ++ lines
  pub passive : All IsPassive lines

module _ ⦃chars : CharTable⦄ where
  -- The last audit line of an application: completed only on an answer, and unknown wherever the
  -- statement may have run.
  abbrev pub verdict : Answer → Outcome
  verdict (answered n) = apply_completed
  verdict (cancelled s) = apply_outcome_unknown
  verdict (failed unknown s chain) =
      if unknown || is_timeout_error chain then apply_outcome_unknown else apply_failed

  abbrev pub error_text : Answer → Option Text
  error_text (answered n) = none
  error_text (cancelled s) = some s
  error_text (failed unknown s chain) = some s

  module _ (r : Redaction) (full : Bool) (policy : WritePolicy) (executor : Dispatch → Answer) where
    abbrev pub IsAnswer : Lane → AdminAction → ℕ → Answer → Result → Type 0
    IsAnswer lane a id (answered n) res =
        res ≡ returned (payload r a completed id (rows_of lane n) (sets_of lane n))
    IsAnswer lane a id (cancelled s) res = res ≡ raised (cancelled s)
    IsAnswer lane a id (failed unknown s chain) res = res ≡ raised (failed unknown s chain)

    -- The statement was sent once, between two audit lines of one identifier, and the answer was
    -- passed on.
    pub record IsApplied (lane : Lane) (a : AdminAction) (w : World) (out : Result × World)
        : Type 0 where
      pub allowed : policy ≡ apply
      pub accepted : is_rejected a.sql ≡ false
      pub sent : out.1.dispatched ≡ w.dispatched ++ dispatch_of lane a ∷ []
      pub logged :
          out.1.log
          ≡ w.log
            ++ event_of r full a apply_started w.next_id none
              ∷ event_of r full a
                  (verdict (executor (dispatch_of lane a)))
                  w.next_id
                  (error_text (executor (dispatch_of lane a)))
              ∷ []
      pub result : IsAnswer lane a w.next_id (executor (dispatch_of lane a)) out.0

    settle_lem :
        (lane : Lane) (a : AdminAction) (id : ℕ) (x : Answer) (w : World)
        → (IsAnswer lane a id x (settle r full policy executor lane a id x w).0)
          × ((settle r full policy executor lane a id x w).1.log
              ≡ w.log ++ event_of r full a (verdict x) id (error_text x) ∷ [])
          × ((settle r full policy executor lane a id x w).1.dispatched ≡ w.dispatched)
    unfolding settle record_as
    settle_lem lane a id (answered n) w = (refl, refl, refl)
    settle_lem lane a id (cancelled s) w = (refl, refl, refl)
    settle_lem lane a id (failed unknown s chain) w = (refl, refl, refl)

    IsHeld-line :
        (a : AdminAction) (w : World) (o : Outcome) (error : Option Text)
        → (o ≡ preview) ⊎ (o ≡ blocked)
        → IsHeld w (record_new r full a o error w)
    unfolding record_new event_of
    IsHeld-line a w o error h = record {
      sent = refl;
      lines = event_of r full a o w.next_id error ∷ [];
      logged = refl;
      passive = (h, tt);
    }

    -- A refusal on the way to the database, or what `apply_on` does.
    abbrev pub Outcomes : Lane → AdminAction → World → Result × World → Type 0
    Outcomes lane a w out = IsHeld w out.1 ⊎ IsApplied lane a w out

    pub apply_on_lem :
        (lane : Lane) (a : AdminAction) (w : World)
        → is_rejected a.sql ≡ false
        → Outcomes lane a w (apply_on r full policy executor lane a w)
    unfolding apply_on
    apply_on_lem lane a w ok = elim (Bool-cases (applies policy)) [
      | inl on ↦
          let x = executor (dispatch_of lane a) in
          let started = record_new r full a apply_started none w in
          let sent = record started {
            dispatched = started.dispatched ++ dispatch_of lane a ∷ [];
          } in
          let e = settle_lem lane a w.next_id x sent in
          rw (on, apply_on)
            (inr (record {
              allowed = ground arith;
              accepted = ok;
              sent = e.2;
              logged = e.1 ∙ append_assoc w.log _ _;
              result = e.0;
            }))
      | inr off ↦ rw (off, apply_on) (inl (IsHeld-line a w blocked _ (inr refl)))
    ]

    pub validate_or_audit_block_lem :
        (lane : Lane) (a : AdminAction) (w : World) (out : Result × World)
        → (is_rejected a.sql ≡ false → Outcomes lane a w out)
        → Outcomes lane a w (validate_or_audit_block r full policy executor a w out)
    unfolding validate_or_audit_block
    validate_or_audit_block_lem lane a w out h = elim (Bool-cases (is_rejected a.sql)) [
      | inl bad ↦ rw bad (inl (IsHeld-line a w blocked _ (inr refl)))
      | inr ok ↦ rw ok (h ok)
    ]

    pub preview_action_lem :
        (a : AdminAction) (w : World) → IsHeld w (preview_action r full policy executor a w).1
    unfolding preview_action
    preview_action_lem a w = elim (Bool-cases (is_rejected a.sql)) [
      | inl bad ↦ rw bad (IsHeld-line a w blocked _ (inr refl))
      | inr ok ↦ rw ok (IsHeld-line a w preview _ (inl refl))
    ]
