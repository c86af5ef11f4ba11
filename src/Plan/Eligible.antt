-- ===== src/Plan/Eligible.antt =====
-- When a row is turned into an action: src/azure_sql_mcp/plan_enforcement.py.
use azure_sql_mcp.Shared.{
  ℕ, ◌≡◌, refl, sym, ap, ◌∙◌, ◌⊎◌, inl, inr, ◌↔◌, Bool, true, false, not, Option, none, some, ltb,
  if◌then◌else◌, arith,
}
use azure_sql_mcp.Shared.Text.{Text, codes}
use azure_sql_mcp.Plan.{
  Platform, forced_plan_failure, stale_forced_plan, Regression, ForcedPlan, Action, recommends,
  excludes, neither, Exclusion, ownership_review, not_executable, text_or, coerce_int, count_of,
  is_word, state_exclusion, force_action, if_not_forced, if_known, if_named, recommend_force_action,
  is_failing_now, if_manual, unforce_action, if_both, recommend_unforce_action, Because,
}

module _ (p : Platform) where
  -- The row is active, left to a human, executable, its plan known and not forced, and the regressed
  -- plan still runs.
  pub record Forces (r : Regression p.Score) (a : Action p.Score) : Type 0 where
    pub query : coerce_int p r.query_id ≡ some a.query_id
    pub plan : coerce_int p r.recommended_plan_id ≡ some a.plan_id
    pub state : Text
    pub state_is : r.current_state ≡ some state
    pub active : is_word p state (codes "active") ≡ true
    pub not_system : is_word p (text_or r.initiated_by) (codes "system") ≡ false
    pub by_hand :
        is_word p (text_or r.state_reason) (codes "automatictuningoptionnotenabled") ≡ true
    pub executable : r.is_executable ≡ true
    pub not_forced : r.is_forced ≡ some false
    pub runs : r.live ≡ true
    pub action : a ≡ force_action p r a.query_id a.plan_id

  -- Forcing is manual, and fails now, or else the plan has not run for more than thirty days.
  pub record Unforces (f : ForcedPlan) (a : Action p.Score) : Type 0 where
    pub query : coerce_int p f.query_id ≡ some a.query_id
    pub plan : coerce_int p f.plan_id ≡ some a.plan_id
    pub manual : is_word p (text_or f.forcing_type) (codes "manual") ≡ true
    pub cause :
        ((is_failing_now p f ≡ true)
          × (a
              ≡ unforce_action p f a.query_id a.plan_id forced_plan_failure
                  (count_of p f.force_failure_count)
                  90))
        ⊎ ((is_failing_now p f ≡ false)
            × (ltb 30 (count_of p f.days_since_last_exec) ≡ true)
            × (a
                ≡ unforce_action p f a.query_id a.plan_id stale_forced_plan
                    (count_of p f.days_since_last_exec)
                    50))

  known_cases :
      (active system reason exec live : Bool) (forced : Option Bool) (e : Exclusion)
      (r : Regression p.Score) (q n : ℕ) (a : Action p.Score)
      → (if not active
          then excludes e
          else if system
          then excludes ownership_review
          else if not reason
          then excludes ownership_review
          else if not exec
          then excludes not_executable
          else if_not_forced p (record r { live = live }) q n forced)
        ≡ recommends a
      → (active ≡ true)
        × (system ≡ false)
        × (reason ≡ true)
        × (exec ≡ true)
        × (forced ≡ some false)
        × (live ≡ true)
        × (force_action p r q n ≡ a)
  known_cases active system reason exec live none e r q n a h = ground arith
  known_cases active system reason exec live (some b) e r q n a h = ground arith

  named_cases :
      (r : Regression p.Score) (q n : Option ℕ) (a : Action p.Score)
      → coerce_int p r.query_id ≡ q
      → coerce_int p r.recommended_plan_id ≡ n
      → if_named p r q n ≡ recommends a
      → Forces r a
  named_cases r none n a eq en h = cc
  named_cases r (some q) none a eq en h = cc
  named_cases r (some q) (some n) a eq en h = known r.current_state refl h
    where
      known :
          (s : Option Text) → r.current_state ≡ s → if_known p r q n s ≡ recommends a → Forces r a
      known none es k = cc
      known (some s) es k =
          let (active, not_system, by_hand, executable, not_forced, runs, is) =
            known_cases (is_word p s (codes "active"))
              (is_word p (text_or r.initiated_by) (codes "system"))
              (is_word p (text_or r.state_reason) (codes "automatictuningoptionnotenabled"))
              r.is_executable r.live r.is_forced (state_exclusion p s) r q n a k in
          let query : q ≡ a.query_id = ap (λ (x : Action p.Score). x.query_id) is in
          let plan : n ≡ a.plan_id = ap (λ (x : Action p.Score). x.plan_id) is in
          record {
            query = eq ∙ ap some query;
            plan = en ∙ ap some plan;
            state = s;
            state_is = es;
            active = active;
            not_system = not_system;
            by_hand = by_hand;
            executable = executable;
            not_forced = not_forced;
            runs = runs;
            action =
                sym is
                ∙ ap (λ (i : ℕ). force_action p r i n) query
                ∙ ap (λ (i : ℕ). force_action p r a.query_id i) plan;
          }

  -- A regression is recommended for forcing exactly when it is eligible.
  pub recommend_force_action-Forces :
      (r : Regression p.Score) (a : Action p.Score)
      → (recommend_force_action p r ≡ recommends a) ↔ Forces r a
  unfolding recommend_force_action
  recommend_force_action-Forces r a = (
    named_cases r (coerce_int p r.query_id) (coerce_int p r.recommended_plan_id) a refl refl,
    λ k.
        rw
          (
            k.query, k.plan, k.state_is, k.active, k.not_system, k.by_hand, k.executable,
            k.not_forced, k.runs,
          )
          (ap recommends (sym k.action)),
  )

  manual_cases :
      (manual : Bool) (x a : Action p.Score)
      → (if not manual then excludes ownership_review else recommends x) ≡ recommends a
      → (manual ≡ true) × (x ≡ a)
  manual_cases manual x a h = ground arith

  both_cases :
      (f : ForcedPlan) (q n : Option ℕ) (a : Action p.Score)
      → coerce_int p f.query_id ≡ q
      → coerce_int p f.plan_id ≡ n
      → if_both p f q n ≡ recommends a
      → Unforces f a
  both_cases f none n a eq en h = cc
  both_cases f (some q) none a eq en h = cc
  both_cases f (some q) (some n) a eq en h =
      fails (is_failing_now p f) (ltb 30 (count_of p f.days_since_last_exec)) refl refl h
    where
      ids :
          (because : Because) (count priority : ℕ)
          → unforce_action p f q n because count priority ≡ a
          → (q ≡ a.query_id)
            × (n ≡ a.plan_id)
            × (a ≡ unforce_action p f a.query_id a.plan_id because count priority)
      ids because count priority is =
          let query : q ≡ a.query_id = ap (λ (x : Action p.Score). x.query_id) is in
          let plan : n ≡ a.plan_id = ap (λ (x : Action p.Score). x.plan_id) is in
          (
            query,
            plan,
            sym is
                ∙ ap (λ (i : ℕ). unforce_action p f i n because count priority) query
                ∙ ap (λ (i : ℕ). unforce_action p f a.query_id i because count priority) plan,
          )

      fails :
          (failing stale : Bool)
          → is_failing_now p f ≡ failing
          → ltb 30 (count_of p f.days_since_last_exec) ≡ stale
          → (if failing
              then if_manual p f
                  (unforce_action p f q n forced_plan_failure (count_of p f.force_failure_count) 90)
              else if stale
              then if_manual p f
                  (unforce_action p f q n stale_forced_plan (count_of p f.days_since_last_exec) 50)
              else neither)
            ≡ recommends a
          → Unforces f a
      fails true stale ef es k =
          let (manual, is) =
            manual_cases (is_word p (text_or f.forcing_type) (codes "manual"))
              (unforce_action p f q n forced_plan_failure (count_of p f.force_failure_count) 90) a
              k in
          let (query, plan, action) =
            ids forced_plan_failure (count_of p f.force_failure_count) 90 is in
          record {
            query = eq ∙ ap some query;
            plan = en ∙ ap some plan;
            manual = manual;
            cause = inl (ef, action);
          }
      fails false true ef es k =
          let (manual, is) =
            manual_cases (is_word p (text_or f.forcing_type) (codes "manual"))
              (unforce_action p f q n stale_forced_plan (count_of p f.days_since_last_exec) 50) a
              k in
          let (query, plan, action) =
            ids stale_forced_plan (count_of p f.days_since_last_exec) 50 is in
          record {
            query = eq ∙ ap some query;
            plan = en ∙ ap some plan;
            manual = manual;
            cause = inr (ef, es, action);
          }
      fails false false ef es k = cc

  -- A forced plan is recommended for unforcing exactly when it is eligible.
  pub recommend_unforce_action-Unforces :
      (f : ForcedPlan) (a : Action p.Score)
      → (recommend_unforce_action p f ≡ recommends a) ↔ Unforces f a
  unfolding recommend_unforce_action
  recommend_unforce_action-Unforces f a = (
    both_cases f (coerce_int p f.query_id) (coerce_int p f.plan_id) a refl refl,
    λ k. back k k.cause,
  )
    where
      back :
          Unforces f a
          → ((is_failing_now p f ≡ true)
              × (a
                  ≡ unforce_action p f a.query_id a.plan_id forced_plan_failure
                      (count_of p f.force_failure_count)
                      90))
            ⊎ ((is_failing_now p f ≡ false)
                × (ltb 30 (count_of p f.days_since_last_exec) ≡ true)
                × (a
                    ≡ unforce_action p f a.query_id a.plan_id stale_forced_plan
                        (count_of p f.days_since_last_exec)
                        50))
          → if_both p f (coerce_int p f.query_id) (coerce_int p f.plan_id) ≡ recommends a
      back k (inl (failing, is)) = rw (k.query, k.plan, failing, k.manual) (ap recommends (sym is))
      back k (inr (not_failing, stale, is)) =
          rw (k.query, k.plan, not_failing, stale, k.manual) (ap recommends (sym is))
