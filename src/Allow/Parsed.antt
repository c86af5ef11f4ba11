-- ===== src/Allow/Parsed.antt =====
-- What a policy of src/azure_sql_mcp/database_policy.py has from its entry in the document.
use azure_sql_mcp.Shared.{◌≡◌, refl, subst, Bool, false, not, [], ◌∷◌, if◌then◌else◌}
use azure_sql_mcp.Shared.Text.{Text}
use azure_sql_mcp.Shared.Raising.{Raising, returned, >>=-eq-returned, require-eq-returned}
use azure_sql_mcp.Admin.Chars.{CharTable}
use azure_sql_mcp.Allow.{
  null, bool, int, object, Fields, Error, validation, DatabasePolicy, database_fields, get_or,
  only_fields, has_fields, as_bool, as_count, both_above, is_blank, as_environment,
  policy_from_mapping,
}

module _ ⦃chars : CharTable⦄ (casefold : Text → Text) where
  pub record Agrees (name : Text) (fs : Fields) (p : DatabasePolicy) : Type 0 where
    pub named : p.database_name ≡ name
    pub environment :
        as_environment casefold (get_or "environment" null fs) ≡ returned p.environment
    pub reads : as_bool (get_or "allow_read" null fs) ≡ returned p.allow_read
    pub benchmarks : as_bool (get_or "allow_benchmark" (bool false) fs) ≡ returned p.allow_benchmark
    pub test_indexes :
        as_bool (get_or "allow_test_indexes" (bool false) fs) ≡ returned p.allow_test_indexes
    pub views : as_bool (get_or "allow_view_apply" (bool false) fs) ≡ returned p.allow_view_apply
    pub plans : as_bool (get_or "allow_plan_apply" (bool false) fs) ≡ returned p.allow_plan_apply
    pub history :
        as_bool (get_or "allow_index_history_write" (bool false) fs)
        ≡ returned p.allow_index_history_write
    pub executions :
        as_count (get_or "max_benchmark_executions" (int 0) fs)
        ≡ returned p.max_benchmark_executions
    pub enabled : Bool
    pub candidates :
        as_count (get_or "max_tuning_candidates" (int (if enabled then 10 else 0)) fs)
        ≡ returned p.max_tuning_candidates
    pub session :
        as_count
          (get_or "max_tuning_session_executions" (get_or "max_benchmark_executions" (int 0) fs) fs)
        ≡ returned p.max_tuning_session_executions
    pub minutes :
        as_count (get_or "max_tuning_session_minutes" (int (if enabled then 20 else 0)) fs)
        ≡ returned p.max_tuning_session_minutes

  policy_inj :
      (p q : DatabasePolicy)
      → ◌≡◌ {A = Raising Error DatabasePolicy} (returned p) (returned q)
      → p ≡ q
  policy_inj p q e = cc

  pub policy_from_mapping-Agrees :
      (name : Text) (fs : Fields) (p : DatabasePolicy)
      → policy_from_mapping casefold name (object fs) ≡ returned p
      → Agrees name fs p
  unfolding policy_from_mapping
  policy_from_mapping-Agrees name fs p h0 =
      let limit = get_or "max_benchmark_executions" (int 0) fs in
      let (allowed, h1) = require-eq-returned (only_fields database_fields fs) validation _ h0 in
      let (there, h2) =
        require-eq-returned (has_fields ("environment" ∷ "allow_read" ∷ []) fs) validation _ h1 in
      let (enabled, on, h3) =
        >>=-eq-returned (both_above (get_or "allow_benchmark" (bool false) fs) limit) _ h2 in
      let (named, h4) = require-eq-returned (not (is_blank name)) validation _ h3 in
      let (environment, e1, h5) =
        >>=-eq-returned (as_environment casefold (get_or "environment" null fs)) _ h4 in
      let (reads, e2, h6) = >>=-eq-returned (as_bool (get_or "allow_read" null fs)) _ h5 in
      let (benchmarks, e3, h7) =
        >>=-eq-returned (as_bool (get_or "allow_benchmark" (bool false) fs)) _ h6 in
      let (tests, e4, h8) =
        >>=-eq-returned (as_bool (get_or "allow_test_indexes" (bool false) fs)) _ h7 in
      let (views, e5, h9) =
        >>=-eq-returned (as_bool (get_or "allow_view_apply" (bool false) fs)) _ h8 in
      let (plans, e6, h10) =
        >>=-eq-returned (as_bool (get_or "allow_plan_apply" (bool false) fs)) _ h9 in
      let (history, e7, h11) =
        >>=-eq-returned (as_bool (get_or "allow_index_history_write" (bool false) fs)) _ h10 in
      let (executions, e8, h12) = >>=-eq-returned (as_count limit) _ h11 in
      let (candidates, e9, h13) =
        >>=-eq-returned
          (as_count (get_or "max_tuning_candidates" (int (if enabled then 10 else 0)) fs)) _ h12 in
      let (session, e10, h14) =
        >>=-eq-returned (as_count (get_or "max_tuning_session_executions" limit fs)) _ h13 in
      let (minutes, e11, h15) =
        >>=-eq-returned
          (as_count (get_or "max_tuning_session_minutes" (int (if enabled then 20 else 0)) fs)) _
          h14 in
      let (days, e12, h16) =
        >>=-eq-returned (as_count (get_or "business_cycle_extension_days" (int 0) fs)) _ h15 in
      subst (Agrees name fs) (policy_inj _ p h16) (record {
        named = refl;
        environment = e1;
        reads = e2;
        benchmarks = e3;
        test_indexes = e4;
        views = e5;
        plans = e6;
        history = e7;
        executions = e8;
        enabled = enabled;
        candidates = e9;
        session = e10;
        minutes = e11;
      })
