-- ===== src/ReadOnly/Validate.antt =====
-- `SafeSqlValidator.validate_read_only` and `analyze_read_only` of src/azure_sql_mcp/safe_sql.py.
-- sqlglot is a parameter: what it parses, and what is asked of its trees.
use azure_sql_mcp.Shared.{
  ℕ, Bool, true, false, ◌||◌, not, Option, none, some, List, [], ◌∷◌, ◌++◌, ◌==◌, if◌then◌else◌,
  any, String,
}
use azure_sql_mcp.Shared.Text.{Text, codes, text_eq}
use azure_sql_mcp.Shared.Raising.{Raising, raised, returned, ◌>>◌, require}
use azure_sql_mcp.Admin.Chars.{CharTable}
use azure_sql_mcp.ReadOnly.Words.{member, refused_word}
use azure_sql_mcp.ReadOnly.Rules.{
  Rule, is_empty, strip, skip_spaces, behind_match, ends_word, check_text_rules,
}

-- A node of a tree, as far as the validator asks: of a table whether it has a catalog, and its name.
pub data Node : Type 0 where
  banned into_clause next_value_for : Node
  rand : Bool → Node
  table : Bool → Text → Node
  anonymous : Text → Node
  harmless : Node

-- An expression of a SET statement: an assignment to a parameter or to something else, or no assignment.
pub data SetItem : Type 0 where
  assigns : Bool → SetItem
  no_assignment : SetItem

-- Select, Union, Except and Intersect are queries.
pub data Shape : Type 0 where
  query declare other_statement : Shape
  set_items : List SetItem → Shape

pub record Parser : Type 1 where
  pub Statement : Type 0
  -- `parse`: none is a ParseError
  pub parse : Text → Option (List (Option Statement))
  pub shape : Statement → Shape
  pub walk : Statement → List Node
  pub sql : Statement → Text

pub record ValidatedQuery : Type 0 where
  pub normalized_sql : Text
  pub submitted_sql : Text
  pub execution_sql : Text
  pub analysis_sql : Text

pub data Unsafe : Type 0 where
  unsafe_node select_into next_value seeded_rand linked_table temp_reference blocked_function :
      Unsafe

-- Unsupported is an UnsupportedSqlError, the others are plain ValueErrors.
pub data Refusal : Type 0 where
  empty unsupported invalid not_a_query several_statements : Refusal
  breaks : Rule → Refusal
  keyword : Text → Refusal
  unsafe : Unsafe → Refusal

pub data AnalysisStatus : Type 0 where
  supported unsupported_sql rejected : AnalysisStatus

pub record StaticAnalysisOutcome : Type 0 where
  pub status : AnalysisStatus
  pub is_admitted : Bool
  pub reason : Option Refusal
  pub submitted_sql : Text

-- `BLOCKED_FUNCTIONS`
abbrev pub blocked_functions : List String
blocked_functions =
    "xp_cmdshell" ∷ "xp_dirtree" ∷ "xp_fileexist" ∷ "xp_fixeddrives" ∷ "xp_getfiledetails"
    ∷ "xp_loginconfig" ∷ "xp_msver" ∷ "xp_regread" ∷ "xp_regwrite" ∷ "xp_servicecontrol"
    ∷ "xp_subdirs" ∷ "sp_oacreate" ∷ "sp_oadestroy" ∷ "sp_oageterrorinfo" ∷ "sp_oagetproperty"
    ∷ "sp_oamethod" ∷ "sp_oasetproperty" ∷ "sp_send_dbmail" ∷ "xp_sendmail" ∷ "fn_get_sql"
    ∷ "fn_servershareddrives" ∷ []

-- `if found: raise`
abbrev pub refuse_if {ℓ} : {A : Type ℓ} → (A → Refusal) → Option A → Raising Refusal (Unit {0})
refuse_if e none = returned tt
refuse_if e (some a) = raised (e a)

abbrev starts_temp : Text → Bool
starts_temp [] = false
starts_temp (c ∷ s) = c == b'#'

module _ (lower : Text → Text) where
  -- What is wrong with a node: the body of the loop of `_check_tree`, with `_check_table_reference` and
  -- `_check_function_call`.
  unfoldable pub check_node : Node → Option Unsafe
  unfolding any text_eq
  check_node banned = some unsafe_node
  check_node into_clause = some select_into
  check_node next_value_for = some next_value
  check_node (rand seeded) = if seeded then some seeded_rand else none
  check_node (table has_catalog name) =
      if has_catalog
      then some linked_table
      else if starts_temp name
      then some temp_reference
      else none
  check_node (anonymous name) =
      if member (lower name) blocked_functions then some blocked_function else none
  check_node harmless = none

  abbrev pub first_of : Option Unsafe → Option Unsafe → Option Unsafe
  first_of none later = later
  first_of (some e) later = some e

  -- `_check_tree`
  unfoldable pub check_tree : List Node → Option Unsafe
  unfolding check_node
  check_tree [] = none
  check_tree (n ∷ ns) = first_of (check_node n) (check_tree ns)

abbrev is_parameter : SetItem → Bool
is_parameter (assigns b) = b
is_parameter no_assignment = false

-- `_is_variable_assignment`
unfoldable pub is_variable_assignment : List SetItem → Bool
unfolding any
is_variable_assignment [] = false
is_variable_assignment (i ∷ is) = not (any (λ j. not (is_parameter j)) (i ∷ is))

abbrev pub may_precede : Shape → Bool
may_precede declare = true
may_precede (set_items is) = is_variable_assignment is
may_precede query = false
may_precede other_statement = false

abbrev pub is_query : Shape → Bool
is_query query = true
is_query _ = false

module _ (lower : Text → Text) (p : Parser) where
  -- `_check_prefix_statement`, and the test before it
  abbrev pub check_prefix : Option p.Statement → Raising Refusal (Unit {0})
  check_prefix none = raised invalid
  check_prefix (some s) = do
    require (may_precede (p.shape s)) several_statements
    refuse_if unsafe (check_tree lower (p.walk s))

  -- `_check_statement`, and the test before it
  abbrev pub check_final : Option p.Statement → Raising Refusal (Unit {0})
  check_final none = raised invalid
  check_final (some s) = do
    require (is_query (p.shape s)) not_a_query
    refuse_if unsafe (check_tree lower (p.walk s))

  -- All statements but the last come before it.
  unfoldable pub check_statements :
      Option p.Statement → List (Option p.Statement) → Raising Refusal (Unit {0})
  unfolding check_tree is_variable_assignment
  check_statements final [] = check_final final
  check_statements first (next ∷ rest) = do check_prefix first; check_statements next rest

  -- `statement for statement in statements if statement`
  abbrev pub present : List (Option p.Statement) → List p.Statement
  present [] = []
  present (none ∷ ss) = present ss
  present (some s ∷ ss) = s ∷ present ss

  -- ";\n".join
  unfoldable pub join_sql : List p.Statement → Text
  join_sql [] = []
  join_sql (s ∷ []) = p.sql s
  join_sql (s ∷ t ∷ ss) = p.sql s ++ (b';' ∷ 10 ∷ join_sql (t ∷ ss))

  module _ ⦃chars : CharTable⦄ (alike : ℕ → ℕ → Bool) (normalize : Text → Text) where
    abbrev begins_with : String → Text → Bool
    begins_with k s = ends_word (behind_match alike (codes k) s)

    -- `_READ_ONLY_PREFIX_PATTERN`
    unfoldable pub has_read_only_prefix : Text → Bool
    unfolding skip_spaces behind_match
    has_read_only_prefix s =
        let t = skip_spaces s in
        begins_with "SELECT" t || (begins_with "WITH" t || begins_with "DECLARE" t)

    abbrev pub admit :
        Text → Text → Option (List (Option p.Statement)) → Raising Refusal ValidatedQuery
    admit sql candidate none = do
      refuse_if keyword (refused_word normalize candidate)
      raised (if has_read_only_prefix candidate then unsupported else invalid)
    admit sql candidate (some []) = raised invalid
    admit sql candidate (some (s ∷ ss)) = do
      check_statements s ss
      refuse_if keyword (refused_word normalize candidate)
      returned (record {
        normalized_sql = candidate;
        submitted_sql = sql;
        execution_sql = sql;
        analysis_sql = join_sql (present (s ∷ ss));
      })

    -- `validate_read_only`, of a text
    unfoldable pub validate_read_only : Text → Raising Refusal ValidatedQuery
    unfolding strip check_text_rules refused_word check_statements join_sql has_read_only_prefix
    validate_read_only sql = do
      let candidate = strip sql
      require (not (is_empty candidate)) empty
      refuse_if breaks (check_text_rules alike normalize candidate)
      admit sql candidate (p.parse candidate)

    -- `analyze_read_only`
    abbrev pub outcome_of : Text → Raising Refusal ValidatedQuery → StaticAnalysisOutcome
    outcome_of sql (returned v) = record {
      status = supported;
      is_admitted = true;
      reason = none;
      submitted_sql = sql;
    }
    outcome_of sql (raised unsupported) = record {
      status = unsupported_sql;
      is_admitted = false;
      reason = some unsupported;
      submitted_sql = sql;
    }
    outcome_of sql (raised e) = record {
      status = rejected;
      is_admitted = false;
      reason = some e;
      submitted_sql = sql;
    }

    unfoldable pub analyze_read_only : Text → StaticAnalysisOutcome
    unfolding validate_read_only
    analyze_read_only sql = outcome_of sql (validate_read_only sql)
