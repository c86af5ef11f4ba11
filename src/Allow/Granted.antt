-- ===== src/Allow/Granted.antt =====
-- What it takes to be allowed something: the document of src/azure_sql_mcp/database_policy.py that a
-- positive answer goes back to.
use azure_sql_mcp.Shared.{
  ℕ, ◌≤◌, ◌<◌, ◌≡◌, refl, ap, ◌∙◌, ◌⊎◌, inl, inr, Bool, true, false, not, ◌&&◌, ◌||◌, Option, none,
  some, ltb, leb, ltb→lt, leb→le, if◌then◌else◌, String, arith, both, negated,
}
use azure_sql_mcp.Shared.Text.{Text, codes}
use azure_sql_mcp.Shared.Raising.{returned, require-eq-returned}
use azure_sql_mcp.Admin.Chars.{CharTable}
use azure_sql_mcp.ReadOnly.Words.{member}
use azure_sql_mcp.ReadOnly.Rules.{strip}
use azure_sql_mcp.Allow.{
  Json, null, bool, int, negative, real, text, array, object, Fields, validation, DatabasePolicy,
  production_words, lookup, or_default, get_or, as_bool, as_count, is_blank, unknown_environments,
  as_environment, Capability, read, test_indexes, view_apply, plan_apply, index_history_write,
  benchmark, tuning_session, is_non_production, can,
}
use azure_sql_mcp.Allow.Parsed.{Agrees}

as_bool-eq-returned : (j : Json) (b : Bool) → as_bool j ≡ returned b → j ≡ bool b
as_bool-eq-returned (bool c) b h = cc
as_bool-eq-returned null b h = cc
as_bool-eq-returned (int n) b h = cc
as_bool-eq-returned negative b h = cc
as_bool-eq-returned (real p e) b h = cc
as_bool-eq-returned (text s) b h = cc
as_bool-eq-returned (array f) b h = cc
as_bool-eq-returned (object fs) b h = cc

as_count-eq-returned : (j : Json) (n : ℕ) → as_count j ≡ returned n → j ≡ int n
as_count-eq-returned (int m) n h = cc
as_count-eq-returned null n h = cc
as_count-eq-returned (bool c) n h = cc
as_count-eq-returned negative n h = cc
as_count-eq-returned (real p e) n h = cc
as_count-eq-returned (text s) n h = cc
as_count-eq-returned (array f) n h = cc
as_count-eq-returned (object fs) n h = cc

-- The key has the value true.
abbrev pub Says : String → Fields → Type 0
Says k fs = lookup (codes k) fs ≡ some (bool true)

-- The key, or else the default, is a number of at least `n`.
abbrev pub Reaches : String → Json → ℕ → Fields → Type 0
Reaches k d n fs = (m : ℕ) × (get_or k d fs ≡ int m) × (n ≤ m)

or_default-true :
    (d : Json) (o : Option Json) (b : Bool)
    → (d ≡ null) ⊎ (d ≡ bool false)
    → as_bool (or_default d o) ≡ returned b
    → b ≡ true
    → o ≡ some (bool true)
or_default-true d (some v) b e h k = ap some (as_bool-eq-returned v b h ∙ ap bool k)
or_default-true d none b (inl e) h k = cc
or_default-true d none b (inr e) h k = cc

reaches :
    (d : Json) (o : Option Json) (n limit : ℕ)
    → as_count (or_default d o) ≡ returned limit
    → leb n limit ≡ true
    → (m : ℕ) × (or_default d o ≡ int m) × (n ≤ m)
reaches d o n limit h k = (limit, as_count-eq-returned _ _ h, leb→le n limit k)

-- A default of zero where the capability is off allows no more.
reaches_default :
    (b : Bool) (d : ℕ) (o : Option Json) (n limit : ℕ)
    → as_count (or_default (int (if b then d else 0)) o) ≡ returned limit
    → ltb 0 n ≡ true
    → leb n limit ≡ true
    → (m : ℕ) × (or_default (int d) o ≡ int m) × (n ≤ m)
reaches_default true d o n limit h p k = reaches (int d) o n limit h k
reaches_default false d (some v) n limit h p k = reaches (int d) (some v) n limit h k
reaches_default false d none n limit h p k =
    let z : 0 ≡ limit = cc in
    let below = leb→le n limit k in let above = ltb→lt 0 n p in absurd (omega arith)

module _ ⦃chars : CharTable⦄ (casefold : Text → Text) where
  -- The key has a text that is no word for production.
  abbrev pub IsOutside : Fields → Type 0
  IsOutside fs =
      (e : Text) × (get_or "environment" null fs ≡ text e)
      × (member (casefold (strip e)) production_words ≡ false)

  -- The entry of a database says what the capability needs.
  abbrev pub Grants : Fields → Capability → Type 0
  Grants fs read = Says "allow_read" fs
  Grants fs (benchmark n) =
      Says "allow_benchmark" fs × (0 < n) × Reaches "max_benchmark_executions" (int 0) n fs
  Grants fs (tuning_session candidates executions minutes) =
      Says "allow_benchmark" fs
      × ((0 < candidates) × Reaches "max_tuning_candidates" (int 10) candidates fs)
      × ((0 < executions)
          × Reaches "max_tuning_session_executions" (get_or "max_benchmark_executions" (int 0) fs)
              executions fs)
      × ((0 < minutes) × Reaches "max_tuning_session_minutes" (int 20) minutes fs)
  Grants fs test_indexes = Says "allow_test_indexes" fs × IsOutside fs
  Grants fs view_apply = Says "allow_view_apply" fs × IsOutside fs
  Grants fs plan_apply = Says "allow_plan_apply" fs
  Grants fs index_history_write = Says "allow_read" fs × Says "allow_index_history_write" fs

  as_environment-eq-returned :
      (j : Json) (e : Text) → as_environment casefold j ≡ returned e → j ≡ text e
  as_environment-eq-returned (text s) e h =
      let (known, same) =
        require-eq-returned (not (is_blank s || member (casefold (strip s)) unknown_environments))
          validation (returned s) h in
      cc
  as_environment-eq-returned (bool c) e h = cc
  as_environment-eq-returned (int m) e h = cc
  as_environment-eq-returned null e h = cc
  as_environment-eq-returned negative e h = cc
  as_environment-eq-returned (real p q) e h = cc
  as_environment-eq-returned (array f) e h = cc
  as_environment-eq-returned (object fs) e h = cc

  outside :
      {name : Text} (fs : Fields) (p : DatabasePolicy)
      → Agrees casefold name fs p
      → is_non_production casefold p ≡ true
      → IsOutside fs
  unfolding is_non_production
  outside fs p a h = (p.environment, as_environment-eq-returned _ _ a.environment, negated _ h)

  pub can-Grants :
      {name : Text} (fs : Fields) (p : DatabasePolicy) (c : Capability)
      → Agrees casefold name fs p
      → can casefold c p ≡ true
      → Grants fs c
  unfolding can
  can-Grants fs p read a h = or_default-true null _ _ (inl refl) a.reads h
  can-Grants fs p plan_apply a h = or_default-true (bool false) _ _ (inr refl) a.plans h
  can-Grants fs p (benchmark n) a h =
      let (allowed, within) = both p.allow_benchmark _ h in
      let (some_runs, bounded) = both (ltb 0 n) _ within in
      (
        or_default-true (bool false) _ _ (inr refl) a.benchmarks allowed,
        ltb→lt 0 n some_runs,
        reaches (int 0) (lookup (codes "max_benchmark_executions") fs) n _ a.executions bounded,
      )
  can-Grants fs p (tuning_session candidates executions minutes) a h =
      let (ready, sized) = both (p.configured && p.allow_benchmark) _ h in
      let (configured, allowed) = both p.configured p.allow_benchmark ready in
      let (above, below) = both (ltb 0 candidates && (ltb 0 executions && ltb 0 minutes)) _ sized in
      let (c, above_rest) = both (ltb 0 candidates) (ltb 0 executions && ltb 0 minutes) above in
      let (e, m) = both (ltb 0 executions) (ltb 0 minutes) above_rest in
      let (c_below, below_rest) = both (leb candidates p.max_tuning_candidates) _ below in
      let (e_below, m_below) = both (leb executions p.max_tuning_session_executions) _ below_rest in
      (
        or_default-true (bool false) _ _ (inr refl) a.benchmarks allowed,
        (
          ltb→lt 0 candidates c,
          reaches_default a.enabled 10 (lookup (codes "max_tuning_candidates") fs) candidates _
              a.candidates c c_below,
        ),
        (
          ltb→lt 0 executions e,
          reaches (get_or "max_benchmark_executions" (int 0) fs)
              (lookup (codes "max_tuning_session_executions") fs) executions _ a.session e_below,
        ),
        (
          ltb→lt 0 minutes m,
          reaches_default a.enabled 20 (lookup (codes "max_tuning_session_minutes") fs) minutes _
              a.minutes m m_below,
        ),
      )
  can-Grants fs p test_indexes a h =
      let (configured, rest) = both p.configured _ h in
      let (elsewhere, allowed) = both (is_non_production casefold p) _ rest in
      (or_default-true (bool false) _ _ (inr refl) a.test_indexes allowed, outside fs p a elsewhere)
  can-Grants fs p view_apply a h =
      let (configured, rest) = both p.configured _ h in
      let (elsewhere, allowed) = both (is_non_production casefold p) _ rest in
      (or_default-true (bool false) _ _ (inr refl) a.views allowed, outside fs p a elsewhere)
  can-Grants fs p index_history_write a h =
      let (configured, rest) = both p.configured _ h in
      let (reads, writes) = both p.allow_read _ rest in
      (
        or_default-true null _ _ (inl refl) a.reads reads,
        or_default-true (bool false) _ _ (inr refl) a.history writes,
      )
