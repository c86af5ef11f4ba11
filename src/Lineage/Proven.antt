-- ===== src/Lineage/Proven.antt =====
-- What a proof of src/azure_sql_mcp/candidate_lineage.py says of its candidate.
use azure_sql_mcp.Shared.{
  ◌≡◌, ◌<◌, refl, ap, true, ◌&&◌, Option, none, some, List, [], ◌∷◌, ltb, ltb→lt, All, both,
}
use azure_sql_mcp.Shared.Text.{Text, codes, text_eq, text_eq-eq}
use azure_sql_mcp.Lineage.{
  Value, word, truth, other, is_text, is_true, Comparison, comparison, no_dictionary, Evidence,
  Candidate, all_of, is_match, all_match, is_of, is_proven_finalist_evidence,
}

abbrev pub IsMatch : Comparison → Type 0
IsMatch c = c ≡ comparison (word (codes "match")) (truth true) (truth true) (truth true)

-- The evidence is of a finalist run of the candidate that improved, and each of its comparisons, of
-- which there is one at least, is a match on one snapshot.
pub record IsProven (parent : Candidate) (e : Evidence) : Type 0 where
  pub kind : e.kind ≡ codes "tuning_finalist"
  pub ran : 0 < e.observed_execution_count
  pub session : e.session_id ≡ word parent.session_id
  pub candidate : e.candidate_id ≡ word parent.candidate_id
  pub phase : e.phase ≡ word (codes "finalist")
  pub scope : e.proof_scope ≡ word (codes "direct_snapshot")
  pub improved : e.classification ≡ word (codes "improved")
  pub first : Comparison
  pub others : List Comparison
  pub compared : e.equivalence ≡ some (first ∷ others)
  pub matches : All IsMatch (first ∷ others)

is_text-eq : (s : Text) (v : Value) → is_text s v ≡ true → v ≡ word s
is_text-eq s (word t) h = ap word (text_eq-eq t s h)
is_text-eq s (truth b) h = cc
is_text-eq s other h = cc

is_true-eq : (v : Value) → is_true v ≡ true → v ≡ truth true
is_true-eq (truth b) h = ap truth h
is_true-eq (word s) h = cc
is_true-eq other h = cc

is_match-IsMatch : (c : Comparison) → is_match c ≡ true → IsMatch c
is_match-IsMatch no_dictionary h = cc
is_match-IsMatch (comparison status for_case snapshot isolation) h =
    let (a, h1) = both (is_text (codes "match") status) _ h in
    let (b, h2) = both (is_true for_case) (is_true snapshot && is_true isolation) h1 in
    let (c, d) = both (is_true snapshot) (is_true isolation) h2 in
    let e1 = is_text-eq _ _ a in
    let e2 = is_true-eq for_case b in
    let e3 = is_true-eq snapshot c in let e4 = is_true-eq isolation d in cc

all_of-All : (cs : List Comparison) → all_of is_match cs ≡ true → All IsMatch cs
unfolding all_of
all_of-All [] h = tt
all_of-All (c ∷ cs) h =
    let (here, rest) = both (is_match c) (all_of is_match cs) h in
    (is_match-IsMatch c here, all_of-All cs rest)

all_match-All :
    (o : Option (List Comparison))
    → all_match o ≡ true
    → (c : Comparison) × (cs : List Comparison) × (o ≡ some (c ∷ cs)) × All IsMatch (c ∷ cs)
unfolding all_match
all_match-All none h = cc
all_match-All (some []) h = cc
all_match-All (some (c ∷ cs)) h = (c, cs, refl, all_of-All (c ∷ cs) h)

pub is_proven_finalist_evidence-IsProven :
    (parent : Candidate) (e : Evidence)
    → is_proven_finalist_evidence e parent ≡ true
    → IsProven parent e
unfolding is_proven_finalist_evidence is_of
is_proven_finalist_evidence-IsProven parent e h =
    let (matched, h1) = both (all_match e.equivalence) _ h in
    let (of_parent, h2) = both (is_of e parent) _ h1 in
    let (scope, improved) = both (is_text (codes "direct_snapshot") e.proof_scope) _ h2 in
    let (kind, h3) = both (text_eq e.kind (codes "tuning_finalist")) _ of_parent in
    let (ran, h4) = both (ltb 0 e.observed_execution_count) _ h3 in
    let (session, h5) = both (is_text parent.session_id e.session_id) _ h4 in
    let (candidate, phase) = both (is_text parent.candidate_id e.candidate_id) _ h5 in
    let (first, others, compared, matches) = all_match-All e.equivalence matched in
    record {
      kind = text_eq-eq _ _ kind;
      ran = ltb→lt 0 e.observed_execution_count ran;
      session = is_text-eq _ _ session;
      candidate = is_text-eq _ _ candidate;
      phase = is_text-eq (codes "finalist") _ phase;
      scope = is_text-eq (codes "direct_snapshot") _ scope;
      improved = is_text-eq (codes "improved") _ improved;
      first = first;
      others = others;
      compared = compared;
      matches = matches;
    }
