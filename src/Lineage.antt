-- ===== src/Lineage.antt =====
-- The rewrite that an index child stands on: src/azure_sql_mcp/candidate_lineage.py. Of the metadata
-- and metrics of an evidence the keys are kept that are read here.
pub mod Pinned
pub mod Proven
pub mod Anchored
pub mod Examples
use azure_sql_mcp.Shared.{
  ℕ, Bool, true, false, ◌&&◌, ◌||◌, not, Option, none, some, List, [], ◌∷◌, ◌==◌, ltb,
  if◌then◌else◌, any, String,
}
use azure_sql_mcp.Shared.Text.{Text, codes, text_eq}
use azure_sql_mcp.Shared.Raising.{Raising, raised, returned, ◌>>=◌, ◌>>◌, require}
use azure_sql_mcp.Admin.Chars.{CharTable}
use azure_sql_mcp.ReadOnly.Rules.{strip, is_empty}
use azure_sql_mcp.Tuning.{CandidateState}

-- The ValueErrors, by their messages.
pub data Error : Type 0 where
  not_a_reference not_one_id not_backed other_parent own_parent other_session other_sql : Error
  not_measured no_evidence wrong_strategy : Error

abbrev pub Result {ℓ} : Type ℓ → Type ℓ
Result A = Raising Error A

-- A value under a key: a text, a boolean, or any other, None included.
pub data Value : Type 0 where
  word : Text → Value
  truth : Bool → Value
  other : Value

abbrev pub is_text : Text → Value → Bool
is_text s (word t) = text_eq t s
is_text s (truth b) = false
is_text s other = false

-- value is True
abbrev pub is_true : Value → Bool
is_true (truth b) = b
is_true (word s) = false
is_true other = false

-- An entry of the comparisons: a dictionary with its keys, or something else.
pub data Comparison : Type 0 where
  comparison : Value → Value → Value → Value → Comparison
  no_dictionary : Comparison

pub record Evidence : Type 0 where
  pub evidence_id : Text
  pub kind : Text
  pub observed_execution_count : ℕ
  pub session_id : Value
  pub candidate_id : Value
  pub phase : Value
  pub proof_scope : Value
  pub classification : Value
  pub performance_classification : Value
  pub equivalence_deferred : Value
  pub equivalence : Option (List Comparison)

-- `lineage` is the pinned evidence, where the metadata has a dictionary for it and it has one.
pub record Candidate : Type 0 where
  pub candidate_id : Text
  pub session_id : Text
  pub strategy : Text
  pub state : CandidateState
  pub finalist_runs : ℕ
  pub rewrite_fingerprint : Option Text
  pub rewrite_artifact_ref : Option Text
  pub lineage : Option (Option Text)

pub data Equivalence : Type 0 where
  proven unproven : Equivalence

pub record Lineage : Type 0 where
  pub parent_candidate_id : Text
  pub parent_evidence_id : Text
  pub parent_rewrite_fingerprint : Option Text
  pub parent_equivalence : Equivalence

abbrev pub or_empty : Option Text → Text
or_empty none = []
or_empty (some s) = s

-- What follows a prefix, if the text starts with it.
unfoldable pub after_prefix : Text → Text → Option Text
after_prefix [] s = some s
after_prefix (c ∷ p) [] = none
after_prefix (c ∷ p) (d ∷ s) = let rest = after_prefix p s in if c == d then rest else none

abbrev pub one_id : Text → Result Text
one_id s = do require (not (is_empty s || any (λ c. c == b':') s)) not_one_id; returned s

unfoldable pub all_of {ℓ} : {A : Type ℓ} → (A → Bool) → List A → Bool
all_of f [] = true
all_of f (x ∷ xs) = f x && all_of f xs

abbrev pub is_match : Comparison → Bool
is_match no_dictionary = false
is_match (comparison status for_case snapshot isolation) =
    is_text (codes "match") status && (is_true for_case && (is_true snapshot && is_true isolation))

-- The comparisons are a list, not empty, of matches.
unfoldable pub all_match : Option (List Comparison) → Bool
unfolding all_of text_eq
all_match none = false
all_match (some []) = false
all_match (some (c ∷ cs)) = all_of is_match (c ∷ cs)

-- The conditions that both kinds of evidence share.
unfoldable pub is_of : Evidence → Candidate → Bool
unfolding text_eq
is_of e parent =
    text_eq e.kind (codes "tuning_finalist")
    && (ltb 0 e.observed_execution_count
        && (is_text parent.session_id e.session_id
            && (is_text parent.candidate_id e.candidate_id && is_text (codes "finalist") e.phase)))

-- `_is_proven_finalist_evidence`
unfoldable pub is_proven_finalist_evidence : Evidence → Candidate → Bool
unfolding all_match is_of text_eq
is_proven_finalist_evidence e parent =
    all_match e.equivalence
    && (is_of e parent
        && (is_text (codes "direct_snapshot") e.proof_scope
            && is_text (codes "improved") e.classification))

-- `_is_performance_only_finalist_evidence`
unfoldable pub is_performance_only_finalist_evidence : Evidence → Candidate → Bool
unfolding is_of text_eq
is_performance_only_finalist_evidence e parent =
    is_of e parent
    && (is_text (codes "performance_only") e.proof_scope
        && (is_text (codes "performance_only") e.classification
            && (is_text (codes "improved") e.performance_classification
                && is_true e.equivalence_deferred)))

-- pinned_evidence_id is None or item.evidence_id == pinned_evidence_id
unfoldable pub is_pinned : Option Text → Evidence → Bool
unfolding text_eq
is_pinned none e = true
is_pinned (some id) e = text_eq e.evidence_id id

unfoldable pub serves : Bool → Option Text → Candidate → Evidence → Bool
unfolding is_pinned is_proven_finalist_evidence is_performance_only_finalist_evidence
serves performance_only pinned parent e =
    is_pinned pinned e
    && (is_proven_finalist_evidence e parent
        || (performance_only && is_performance_only_finalist_evidence e parent))

abbrev pub or_first {ℓ} : {A : Type ℓ} → Bool → A → Option A → Option A
or_first b x (some y) = some y
or_first true x none = some x
or_first false x none = none

-- The first of the reversed list, which is the last, that passes.
unfoldable pub last_that {ℓ} : {A : Type ℓ} → (A → Bool) → List A → Option A
last_that f [] = none
last_that f (x ∷ xs) = or_first (f x) x (last_that f xs)

abbrev pub is_finished : Bool → CandidateState → Bool
is_finished performance_only CandidateState.improved = true
is_finished performance_only CandidateState.performance_only = performance_only
is_finished performance_only _ = false

abbrev pub lineage_of : Candidate → Option Evidence → Result Lineage
lineage_of parent none = raised no_evidence
lineage_of parent (some e) = returned (record {
  parent_candidate_id = parent.candidate_id;
  parent_evidence_id = e.evidence_id;
  parent_rewrite_fingerprint = parent.rewrite_fingerprint;
  parent_equivalence = if is_proven_finalist_evidence e parent then proven else unproven;
})

abbrev pub same_fingerprint : Text → Option Text → Bool
same_fingerprint s none = false
same_fingerprint s (some t) = not (is_empty s) && text_eq s t

abbrev pub pinned_of : Option (Option Text) → Option Text
pinned_of none = none
pinned_of (some none) = none
pinned_of (some (some [])) = none
pinned_of (some (some (c ∷ s))) = some (c ∷ s)

module _ ⦃chars : CharTable⦄ where
  abbrev pub id_after : Option Text → Result Text
  id_after none = raised not_a_reference
  id_after (some rest) = one_id (strip rest)

  unfoldable pub parse_combined_parent_reference : Option Text → Result Text
  unfolding strip after_prefix any
  parse_combined_parent_reference reference =
      id_after (after_prefix (codes "candidate:") (strip (or_empty reference)))

  -- `LINEAGE_BACKED_STRATEGIES`
  abbrev pub is_backed : Text → Bool
  is_backed s = text_eq s (codes "combined") || text_eq s (codes "rewrite_plus_index")

  unfoldable pub combined_parent_id : Candidate → Result Text
  unfolding text_eq parse_combined_parent_reference
  combined_parent_id candidate = do
    require (is_backed candidate.strategy) not_backed
    parse_combined_parent_reference candidate.rewrite_artifact_ref

  -- `_validate_parent_request`; `validate_combined_parent_request` and
  -- `validate_rewrite_plus_index_parent_request` give the last argument.
  unfoldable pub validate_parent_request :
      Text → Text → Option Text → Candidate → List Evidence → Option Text → Bool → Result Lineage
  unfolding parse_combined_parent_reference text_eq last_that serves is_proven_finalist_evidence
  validate_parent_request session rewrite reference parent evidence pinned performance_only = do
    expected ← parse_combined_parent_reference reference
    require (text_eq parent.candidate_id expected) other_parent
    require (text_eq session parent.session_id) other_session
    require (same_fingerprint rewrite parent.rewrite_fingerprint) other_sql
    require (is_finished performance_only parent.state && ltb 0 parent.finalist_runs) not_measured
    lineage_of parent (last_that (serves performance_only pinned parent) evidence)

  unfoldable pub validate_combined_parent : Candidate → Candidate → List Evidence → Result Lineage
  unfolding combined_parent_id text_eq validate_parent_request
  validate_combined_parent child parent evidence = do
    expected ← combined_parent_id child
    require (text_eq parent.candidate_id expected) other_parent
    require (not (text_eq child.candidate_id parent.candidate_id)) own_parent
    validate_parent_request child.session_id (or_empty child.rewrite_fingerprint)
        child.rewrite_artifact_ref parent evidence (pinned_of child.lineage)
        (text_eq child.strategy (codes "rewrite_plus_index"))

  unfoldable pub validate_rewrite_plus_index_parent :
      Candidate → Candidate → List Evidence → Result Lineage
  unfolding text_eq validate_combined_parent
  validate_rewrite_plus_index_parent child parent evidence = do
    require (text_eq child.strategy (codes "rewrite_plus_index")) wrong_strategy
    validate_combined_parent child parent evidence
