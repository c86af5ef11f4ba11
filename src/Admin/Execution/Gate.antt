-- ===== src/Admin/Execution/Gate.antt =====
-- Which actions of src/azure_sql_mcp/admin_policy.py reach the database.
use mathlib.Core.List.{append-nil}
use azure_sql_mcp.Shared.{
  ◌≡◌, ◌⊎◌, inl, inr, refl, sym, ap, Bool, true, false, none, [], arith, if◌then◌else◌, Bool-cases,
  Option-cases,
}
use azure_sql_mcp.Shared.Text.{codes, text_eq-eq}
use azure_sql_mcp.Admin.Chars.{CharTable}
use azure_sql_mcp.Admin.Preview.{Redaction}
use azure_sql_mcp.Admin.Audit.{AdminAction, admin_batches, Dispatch, Answer, World, truthy_text}
use azure_sql_mcp.Admin.Execution.{
  WritePolicy, is_blank, validate_exactly_once_action, apply_on, lane_of, execute_exactly_once,
  execute, preview_action, validate_or_audit_block,
}
use azure_sql_mcp.Admin.Execution.Trace.{
  IsHeld, IsApplied, apply_on_lem, validate_or_audit_block_lem, preview_action_lem,
}

abbrev pub once : AdminAction → AdminAction
once a = record a { exactly_once = true }

module _ ⦃chars : CharTable⦄ where
  -- What the exactly-once lane asks of an action.
  pub record IsAuthorized (a : AdminAction) : Type 0 where
    pub reviewed : a.reviewed_intent ≡ true
    pub keyed : is_blank a.idempotency_key ≡ false
    pub reversible : (truthy_text a.rollback_sql ≡ true) ⊎ (a.tool_name ≡ codes "drop_test_index")
    pub verified : a.policy_verified ≡ true
    pub contained : (a.action_type ≡ codes "query_store") ⊎ (a.non_production ≡ true)
    pub checked_after : a.verification_required ≡ true

  -- The validation lets through just the authorized actions.
  pub validate_exactly_once_action_lem :
      (a : AdminAction) → validate_exactly_once_action a ≡ none → IsAuthorized a
  unfolding validate_exactly_once_action
  validate_exactly_once_action_lem a h = record {
    reviewed = ground arith;
    keyed = ground arith;
    reversible = ground (arith, text_eq-eq a.tool_name (codes "drop_test_index"));
    verified = ground arith;
    contained = ground (arith, text_eq-eq a.action_type (codes "query_store"));
    checked_after = ground arith;
  }

  module _ (r : Redaction) (full : Bool) (policy : WritePolicy) (executor : Dispatch → Answer) where
    authorized_lem :
        (a : AdminAction) (w : World)
        → let out = execute_exactly_once r full policy executor a false w in
          IsHeld w out.1
          ⊎ (IsAuthorized (once a) × IsApplied r full policy executor admin_batches (once a) w out)
    unfolding execute_exactly_once
    authorized_lem a w = elim (Option-cases (validate_exactly_once_action (once a))) [
      | inl valid ↦
          rw (valid, execute_exactly_once)
            (elim (validate_or_audit_block_lem r full policy executor admin_batches (once a) w _
              (apply_on_lem r full policy executor admin_batches (once a) w)) [
                | inl held ↦ inl held
                | inr applied ↦ inr (validate_exactly_once_action_lem (once a) valid, applied)
              ])
      | inr (e, invalid) ↦
          rw (invalid, execute_exactly_once)
            (inl
              (record { sent = refl; lines = []; logged = sym (append-nil w.log); passive = tt }))
    ]

    -- The exactly-once lane sends nothing on a dry run, and otherwise only an authorized action.
    pub execute_exactly_once_gate :
        (a : AdminAction) (dry : Bool) (w : World)
        → let out = execute_exactly_once r full policy executor a dry w in
          IsHeld w out.1
          ⊎ ((dry ≡ false)
              × IsAuthorized (once a)
              × IsApplied r full policy executor admin_batches (once a) w out)
    unfolding execute_exactly_once
    execute_exactly_once_gate a true w = inl (preview_action_lem r full policy executor (once a) w)
    execute_exactly_once_gate a false w = elim (authorized_lem a w) [
      | inl held ↦ inl held
      | inr (ok, applied) ↦ inr (refl, ok, applied)
    ]

    execute_lem :
        (a : AdminAction) (w : World) (b : Bool)
        → a.exactly_once ≡ b
        → execute r full policy executor a false w ≡ (
            if b
            then execute_exactly_once r full policy executor a false w
            else validate_or_audit_block r full policy executor a w
                (apply_on r full policy executor (lane_of a) a w))
    unfolding execute
    execute_lem a w b e =
        ap
          (λ b.
            if b
            then execute_exactly_once r full policy executor a false w
            else validate_or_audit_block r full policy executor a w
                (apply_on r full policy executor (lane_of a) a w))
          e

    execute-dry :
        (a : AdminAction) (w : World)
        → execute r full policy executor a true w ≡ preview_action r full policy executor a w
    unfolding execute
    execute-dry a w = refl

    -- Whatever the action, `execute` either sends nothing and leaves no audit line but of a preview or
    -- a block, or it is no dry run and the action's statement is sent once: with write policy apply,
    -- with a text that the scanner accepts, between an audit line apply_started and one that states
    -- the outcome under the same identifier; and an exactly-once action is then authorized and takes
    -- the lane that never retries.
    pub execute_gate :
        (a : AdminAction) (dry : Bool) (w : World)
        → let out = execute r full policy executor a dry w in
          IsHeld w out.1
          ⊎ ((dry ≡ false)
              × (((a.exactly_once ≡ false) × IsApplied r full policy executor (lane_of a) a w out)
                  ⊎ ((a.exactly_once ≡ true)
                      × IsAuthorized (once a)
                      × IsApplied r full policy executor admin_batches (once a) w out)))
    execute_gate a true w =
        rw (execute-dry a w) (inl (preview_action_lem r full policy executor a w))
    execute_gate a false w = elim (Bool-cases a.exactly_once) [
      | inl exact ↦ rw (execute_lem a w true exact) (elim (authorized_lem a w) [
        | inl held ↦ inl held
        | inr (ok, applied) ↦ inr (refl, inr (exact, ok, applied))
      ])
      | inr plain ↦
          rw (execute_lem a w false plain)
            (elim (validate_or_audit_block_lem r full policy executor (lane_of a) a w _
              (apply_on_lem r full policy executor (lane_of a) a w)) [
                | inl held ↦ inl held
                | inr applied ↦ inr (refl, inl (plain, applied))
              ])
    ]
