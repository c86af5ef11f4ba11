-- ===== src/Allow.antt =====
-- The allow list of databases: src/azure_sql_mcp/database_policy.py. What json.loads makes of a file is
-- an argument; the keys of an object are distinct, as in a dictionary.
pub mod Parsed
pub mod Granted
pub mod Document
pub mod Safe
pub mod Examples
use azure_sql_mcp.Shared.{
  ℕ, Bool, true, false, ◌&&◌, ◌||◌, not, Option, none, some, List, [], ◌∷◌, ◌==◌, ltb, leb,
  if◌then◌else◌, any, String,
}
use azure_sql_mcp.Shared.Text.{Text, codes, text_eq}
use azure_sql_mcp.Shared.Raising.{Raising, raised, returned, ◌>>=◌, ◌>>◌, require}
use azure_sql_mcp.Admin.Chars.{CharTable}
use azure_sql_mcp.ReadOnly.Words.{member}
use azure_sql_mcp.ReadOnly.Rules.{strip, is_empty}

-- A decoded value: an integer below zero is negative; of a float it is kept whether it is above zero
-- and which natural number it equals, if any; of an array, whether it has entries.
mutual
  pub data Json : Type 0 where
    null : Json
    bool : Bool → Json
    int : ℕ → Json
    negative : Json
    real : Bool → Option ℕ → Json
    text : Text → Json
    array : Bool → Json
    object : Fields → Json

  pub data Fields : Type 0 where
    end : Fields
    field : Text → Json → Fields → Fields

-- DatabasePolicyLoadError, DatabasePolicyValidationError, and the exceptions of Python.
pub data Error : Type 0 where
  load_error validation type_error decode_error permission : Error

abbrev pub Result {ℓ} : Type ℓ → Type ℓ
Result A = Raising Error A

pub record DatabasePolicy : Type 0 where
  pub database_name : Text
  pub environment : Text
  pub allow_read : Bool
  pub allow_benchmark : Bool
  pub allow_test_indexes : Bool
  pub allow_view_apply : Bool
  pub allow_plan_apply : Bool
  pub allow_index_history_write : Bool
  pub business_cycle_extension_days : ℕ
  pub max_benchmark_executions : ℕ
  pub max_tuning_candidates : ℕ
  pub max_tuning_session_executions : ℕ
  pub max_tuning_session_minutes : ℕ
  pub configured : Bool

-- `_DATABASE_FIELDS` and the other sets of names
abbrev pub database_fields : List String
database_fields =
    "environment" ∷ "allow_read" ∷ "allow_benchmark" ∷ "allow_test_indexes" ∷ "allow_view_apply"
    ∷ "allow_plan_apply" ∷ "allow_index_history_write" ∷ "business_cycle_extension_days"
    ∷ "max_benchmark_executions" ∷ "max_tuning_candidates" ∷ "max_tuning_session_executions"
    ∷ "max_tuning_session_minutes" ∷ []

abbrev pub unknown_environments : List String
unknown_environments = "" ∷ "none" ∷ "null" ∷ "unknown" ∷ []

abbrev pub production_words : List String
production_words = "production" ∷ "prod" ∷ "live" ∷ []

-- value.get(name)
unfoldable pub lookup : Text → Fields → Option Json
unfolding text_eq
lookup k end = none
lookup k (field j v fs) = if text_eq j k then some v else lookup k fs

abbrev pub or_default : Json → Option Json → Json
or_default d none = d
or_default d (some v) = v

-- value.get(name, default)
abbrev pub get_or : String → Json → Fields → Json
get_or k d fs = or_default d (lookup (codes k) fs)

-- `_validate_allowed_fields`
unfoldable pub only_fields : List String → Fields → Bool
unfolding any text_eq
only_fields allowed end = true
only_fields allowed (field k v fs) = member k allowed && only_fields allowed fs

abbrev pub is_there : Option Json → Bool
is_there none = false
is_there (some v) = true

-- `_validate_required_fields`
unfoldable pub has_fields : List String → Fields → Bool
unfolding lookup
has_fields [] fs = true
has_fields (k ∷ ks) fs = is_there (lookup (codes k) fs) && has_fields ks fs

abbrev pub as_bool : Json → Result Bool
as_bool (bool b) = returned b
as_bool _ = raised validation

-- An integer that is no boolean and not below zero.
abbrev pub as_count : Json → Result ℕ
as_count (int n) = returned n
as_count _ = raised validation

abbrev pub truthy : Json → Bool
truthy null = false
truthy (bool b) = b
truthy (int n) = not (n == 0)
truthy negative = true
truthy (real positive none) = true
truthy (real positive (some n)) = not (n == 0)
truthy (text s) = not (is_empty s)
truthy (array filled) = filled
truthy (object end) = false
truthy (object (field k v fs)) = true

-- value > 0
abbrev pub above_zero : Json → Result Bool
above_zero (bool b) = returned b
above_zero (int n) = returned (ltb 0 n)
above_zero negative = returned false
above_zero (real positive equals) = returned positive
above_zero _ = raised type_error

abbrev pub both_above : Json → Json → Result Bool
both_above benchmark limit = if truthy benchmark then above_zero limit else returned false

-- What a policy is asked for.
pub data Capability : Type 0 where
  read test_indexes view_apply plan_apply index_history_write : Capability
  benchmark : ℕ → Capability
  tuning_session : ℕ → ℕ → ℕ → Capability

-- `DatabasePolicy.denied`
abbrev pub denied : Text → DatabasePolicy
denied name = record {
  database_name = name;
  environment = codes "unknown";
  allow_read = false;
  allow_benchmark = false;
  allow_test_indexes = false;
  allow_view_apply = false;
  allow_plan_apply = false;
  allow_index_history_write = false;
  business_cycle_extension_days = 0;
  max_benchmark_executions = 0;
  max_tuning_candidates = 0;
  max_tuning_session_executions = 0;
  max_tuning_session_minutes = 0;
  configured = false;
}

abbrev pub is_absent : Option DatabasePolicy → Bool
is_absent none = true
is_absent (some p) = false

-- version == POLICY_VERSION, and no boolean
abbrev pub is_version_one : Json → Bool
is_version_one (int n) = n == 1
is_version_one (real positive (some n)) = n == 1
is_version_one _ = false

-- What reading a file and decoding it gives: an OSError, bytes that are no UTF-8, a JSONDecodeError,
-- or a value.
pub data Contents : Type 0 where
  unreadable not_utf8 not_json : Contents
  decoded : Json → Contents

abbrev pub as_validation {ℓ} : {A : Type ℓ} → Result A → Result A
as_validation (raised type_error) = raised validation
as_validation r = r

-- `policy_for`
abbrev pub or_denied : Text → Option DatabasePolicy → DatabasePolicy
or_denied name none = denied name
or_denied name (some p) = p

-- not value.strip()
abbrev pub is_blank : ⦃chars : CharTable⦄ → Text → Bool
is_blank ⦃chars⦄ s = is_empty (strip s)

-- `str.casefold` reads the Unicode tables.
module _ ⦃chars : CharTable⦄ (casefold : Text → Text) where
  -- `_validate_environment`
  abbrev pub as_environment : Json → Result Text
  as_environment (text s) = do
    require (not (is_blank s || member (casefold (strip s)) unknown_environments)) validation
    returned s
  as_environment _ = raised validation

  -- `DatabasePolicy.from_mapping`, with `__post_init__`
  unfoldable pub policy_from_mapping : Text → Json → Result DatabasePolicy
  unfolding strip any text_eq lookup only_fields has_fields
  policy_from_mapping name (object fs) = do
    require (only_fields database_fields fs) validation
    require (has_fields ("environment" ∷ "allow_read" ∷ []) fs) validation
    let limit = get_or "max_benchmark_executions" (int 0) fs
    enabled ← both_above (get_or "allow_benchmark" (bool false) fs) limit
    require (not (is_blank name)) validation
    environment ← as_environment (get_or "environment" null fs)
    allow_read ← as_bool (get_or "allow_read" null fs)
    allow_benchmark ← as_bool (get_or "allow_benchmark" (bool false) fs)
    allow_test_indexes ← as_bool (get_or "allow_test_indexes" (bool false) fs)
    allow_view_apply ← as_bool (get_or "allow_view_apply" (bool false) fs)
    allow_plan_apply ← as_bool (get_or "allow_plan_apply" (bool false) fs)
    history ← as_bool (get_or "allow_index_history_write" (bool false) fs)
    executions ← as_count limit
    candidates ← as_count (get_or "max_tuning_candidates" (int (if enabled then 10 else 0)) fs)
    session ← as_count (get_or "max_tuning_session_executions" limit fs)
    minutes ← as_count (get_or "max_tuning_session_minutes" (int (if enabled then 20 else 0)) fs)
    days ← as_count (get_or "business_cycle_extension_days" (int 0) fs)
    returned (record {
      database_name = name;
      environment = environment;
      allow_read = allow_read;
      allow_benchmark = allow_benchmark;
      allow_test_indexes = allow_test_indexes;
      allow_view_apply = allow_view_apply;
      allow_plan_apply = allow_plan_apply;
      allow_index_history_write = history;
      business_cycle_extension_days = days;
      max_benchmark_executions = executions;
      max_tuning_candidates = candidates;
      max_tuning_session_executions = session;
      max_tuning_session_minutes = minutes;
      configured = true;
    })
  policy_from_mapping name _ = raised validation

  unfoldable pub is_non_production : DatabasePolicy → Bool
  unfolding strip any text_eq
  is_non_production p = not (member (casefold (strip p.environment)) production_words)

  -- `can_benchmark`, `can_start_tuning_session`, `can_apply_view` and the like
  unfoldable pub can : Capability → DatabasePolicy → Bool
  unfolding is_non_production
  can read p = p.allow_read
  can (benchmark n) p = p.allow_benchmark && (ltb 0 n && leb n p.max_benchmark_executions)
  can (tuning_session candidates executions minutes) p =
      (p.configured && p.allow_benchmark)
      && ((ltb 0 candidates && (ltb 0 executions && ltb 0 minutes))
          && (leb candidates p.max_tuning_candidates
              && (leb executions p.max_tuning_session_executions
                  && leb minutes p.max_tuning_session_minutes)))
  can test_indexes p = p.configured && (is_non_production p && p.allow_test_indexes)
  can view_apply p = p.configured && (is_non_production p && p.allow_view_apply)
  can plan_apply p = p.allow_plan_apply
  can index_history_write p = p.configured && (p.allow_read && p.allow_index_history_write)

  -- The policies of a document, by their names in any case.
  unfoldable pub find_policy : Text → List DatabasePolicy → Option DatabasePolicy
  unfolding text_eq
  find_policy name [] = none
  find_policy name (p ∷ ps) =
      if text_eq (casefold p.database_name) (casefold name) then some p else find_policy name ps

  -- `{name: DatabasePolicy.from_mapping(name, entry) ...}`
  unfoldable pub parse_policies : Fields → Result (List DatabasePolicy)
  unfolding policy_from_mapping
  parse_policies end = returned []
  parse_policies (field name entry fs) = do
    p ← policy_from_mapping name entry
    ps ← parse_policies fs
    returned (p ∷ ps)

  -- No two names differ only by case.
  unfoldable pub are_distinct : List DatabasePolicy → Bool
  unfolding find_policy
  are_distinct [] = true
  are_distinct (p ∷ ps) = is_absent (find_policy p.database_name ps) && are_distinct ps

  abbrev pub parse_databases : Json → Result (List DatabasePolicy)
  parse_databases (object fs) = do
    ps ← parse_policies fs
    require (are_distinct ps) validation
    returned ps
  parse_databases _ = raised validation

  -- `DatabasePolicySet.from_mapping`
  unfoldable pub set_from_mapping : Json → Result (List DatabasePolicy)
  unfolding lookup only_fields has_fields any text_eq parse_policies are_distinct
  set_from_mapping (object fs) = do
    require (only_fields ("version" ∷ "databases" ∷ []) fs) validation
    require (has_fields ("version" ∷ "databases" ∷ []) fs) validation
    require (is_version_one (get_or "version" null fs)) validation
    parse_databases (get_or "databases" null fs)
  set_from_mapping _ = raised validation

  abbrev pub load_contents : Contents → Result (List DatabasePolicy)
  load_contents unreadable = raised load_error
  load_contents not_utf8 = raised decode_error
  load_contents not_json = raised load_error
  load_contents (decoded j) = as_validation (set_from_mapping j)

  module _ (file : Text → Contents) where
    -- `load_database_policy`, of a text
    unfoldable pub load_database_policy : Text → Result (List DatabasePolicy)
    unfolding strip set_from_mapping
    load_database_policy path = do
      require (not (is_blank path)) load_error
      load_contents (file path)

    unfoldable pub load_database_policy_or_deny : Option Text → Result (List DatabasePolicy)
    unfolding load_database_policy
    load_database_policy_or_deny none = returned []
    load_database_policy_or_deny (some path) =
        if is_blank path then returned [] else load_database_policy path

  -- `policy_for`
  unfoldable pub policy_for : List DatabasePolicy → Text → Result DatabasePolicy
  unfolding strip find_policy
  policy_for ps name = do
    require (not (is_blank name)) validation
    returned (or_denied name (find_policy name ps))

  -- `allows_read` and the like
  unfoldable pub allows : Capability → List DatabasePolicy → Text → Result Bool
  unfolding policy_for can
  allows capability ps name = do p ← policy_for ps name; returned (can capability p)

  -- `require_read`
  unfoldable pub require_read : List DatabasePolicy → Text → Result DatabasePolicy
  unfolding policy_for
  require_read ps name = do
    p ← policy_for ps name
    require (p.configured && p.allow_read) permission
    returned p
