-- ===== src/Lineage/Examples.antt =====
-- A child on a rewrite with two runs.
use azure_sql_mcp.Shared.{◌≡◌, refl, true, false, none, some, [], ◌∷◌}
use azure_sql_mcp.Shared.Text.{codes}
use azure_sql_mcp.Shared.Raising.{raised, returned}
use azure_sql_mcp.Admin.Chars.{ascii_table}
use azure_sql_mcp.Tuning.{CandidateState}
use azure_sql_mcp.Lineage.{
  word, truth, comparison, Evidence, Candidate, Lineage, unproven, validate_combined_parent,
  own_parent, no_evidence,
}
use azure_sql_mcp.Lineage.Anchored.{IsAnchored, validate_combined_parent-IsAnchored}

abbrev parent : Candidate
parent = record {
  candidate_id = codes "c1";
  session_id = codes "s1";
  strategy = codes "rewrite";
  state = CandidateState.performance_only;
  finalist_runs = 2;
  rewrite_fingerprint = some (codes "f");
  rewrite_artifact_ref = none;
  lineage = none;
}

abbrev child : Candidate
child = record {
  candidate_id = codes "c2";
  session_id = codes "s1";
  strategy = codes "rewrite_plus_index";
  state = CandidateState.finalist;
  finalist_runs = 0;
  rewrite_fingerprint = some (codes "f");
  rewrite_artifact_ref = some (codes " candidate: c1");
  lineage = none;
}

abbrev deferred_run : Evidence
deferred_run = record {
  evidence_id = codes "e1";
  kind = codes "tuning_finalist";
  observed_execution_count = 4;
  session_id = word (codes "s1");
  candidate_id = word (codes "c1");
  phase = word (codes "finalist");
  proof_scope = word (codes "performance_only");
  classification = word (codes "performance_only");
  performance_classification = word (codes "improved");
  equivalence_deferred = truth true;
  equivalence = none;
}

-- A run in which the comparison is not on one snapshot.
abbrev loose_run : Evidence
loose_run = record (deferred_run) {
  evidence_id = codes "e2";
  proof_scope = word (codes "direct_snapshot");
  classification = word (codes "improved");
  equivalence =
      some (comparison (word (codes "match")) (truth true) (truth false) (truth true) ∷ []);
}

abbrev lineage_of_child : Lineage
lineage_of_child = record {
  parent_candidate_id = codes "c1";
  parent_evidence_id = codes "e1";
  parent_rewrite_fingerprint = some (codes "f");
  parent_equivalence = unproven;
}

child_accepted :
    validate_combined_parent ⦃chars = ascii_table⦄ child parent (deferred_run ∷ loose_run ∷ [])
    ≡ returned lineage_of_child
unfolding validate_combined_parent
child_accepted = refl

loose_run_refused :
    validate_combined_parent ⦃chars = ascii_table⦄ child parent (loose_run ∷ [])
    ≡ raised no_evidence
unfolding validate_combined_parent
loose_run_refused = refl

parent_of_itself :
    validate_combined_parent ⦃chars = ascii_table⦄
      (record (child) { candidate_id = codes "c1" })
      parent
      []
    ≡ raised own_parent
unfolding validate_combined_parent
parent_of_itself = refl

validate_combined_parent-IsAnchored_example :
    IsAnchored ⦃chars = ascii_table⦄ child parent (deferred_run ∷ loose_run ∷ []) lineage_of_child
validate_combined_parent-IsAnchored_example =
    validate_combined_parent-IsAnchored ⦃chars = ascii_table⦄ child parent
      (deferred_run ∷ loose_run ∷ []) lineage_of_child child_accepted
