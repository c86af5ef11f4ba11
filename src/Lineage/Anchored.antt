-- ===== src/Lineage/Anchored.antt =====
-- What a lineage of src/azure_sql_mcp/candidate_lineage.py rests on.
use azure_sql_mcp.Shared.{
  ◌≡◌, ◌<◌, refl, sym, ap, ◌∙◌, ◌⊎◌, inl, inr, Bool, Bool-cases, true, false, ◌&&◌, not, Option,
  none, some, List, ltb, if◌then◌else◌, ltb→lt, both, negated,
}
use azure_sql_mcp.Shared.Text.{Text, codes, text_eq, text_eq-eq}
use azure_sql_mcp.Shared.Raising.{returned, >>=-eq-returned, require-eq-returned}
use azure_sql_mcp.Admin.Chars.{CharTable}
use azure_sql_mcp.ReadOnly.Rules.{is_empty}
use azure_sql_mcp.Lineage.{
  Result, Evidence, Candidate, Lineage, proven, unproven, or_empty, serves,
  is_proven_finalist_evidence, is_performance_only_finalist_evidence, is_pinned, is_finished,
  lineage_of, same_fingerprint, pinned_of, parse_combined_parent_reference, is_backed,
  combined_parent_id, validate_parent_request, validate_combined_parent, other_parent, own_parent,
  other_session, other_sql, not_measured, not_backed,
}
use azure_sql_mcp.Lineage.Pinned.{IsLast, last_that-IsLast}
use azure_sql_mcp.Lineage.Proven.{IsProven, is_proven_finalist_evidence-IsProven}

-- The child is one on a rewrite with an index, in the current form.
abbrev pub is_current : Candidate → Bool
is_current child = text_eq child.strategy (codes "rewrite_plus_index")

-- A lineage that says `proven` has a proof, and another is one that the current form allows.
abbrev pub IsSound : Candidate → Candidate → Evidence → Lineage → Type 0
IsSound child parent e l =
    ((l.parent_equivalence ≡ proven) × IsProven parent e)
    ⊎ ((l.parent_equivalence ≡ unproven)
        × (is_performance_only_finalist_evidence e parent ≡ true)
        × (child.strategy ≡ codes "rewrite_plus_index"))

lineage_inj : (l m : Lineage) → ◌≡◌ {A = Result Lineage} (returned l) (returned m) → l ≡ m
lineage_inj l m h = cc

lineage_of-eq-returned :
    (parent : Candidate) (o : Option Evidence) (l : Lineage)
    → lineage_of parent o ≡ returned l
    → (e : Evidence) × (o ≡ some e)
      × (l.parent_candidate_id ≡ parent.candidate_id)
      × (l.parent_evidence_id ≡ e.evidence_id)
      × (l.parent_equivalence ≡ (if is_proven_finalist_evidence e parent then proven else unproven))
lineage_of-eq-returned parent none l h = cc
lineage_of-eq-returned parent (some e) l h =
    let same = sym (lineage_inj _ l h) in
    (
      e,
      refl,
      ap (λ m. m.parent_candidate_id) same,
      ap (λ m. m.parent_evidence_id) same,
      ap (λ m. m.parent_equivalence) same,
    )

serves-IsSound :
    (child parent : Candidate) (e : Evidence) (l : Lineage)
    → serves (is_current child) (pinned_of child.lineage) parent e ≡ true
    → l.parent_equivalence ≡ (if is_proven_finalist_evidence e parent then proven else unproven)
    → IsSound child parent e l
unfolding serves
serves-IsSound child parent e l h is =
    let (pinned, fits) = both (is_pinned (pinned_of child.lineage) e) _ h in
    elim (Bool-cases (is_proven_finalist_evidence e parent)) [
      | inl shown ↦ inl (is ∙ rw (shown) refl, is_proven_finalist_evidence-IsProven parent e shown)
      | inr not_shown ↦
          let only : (is_current child && is_performance_only_finalist_evidence e parent) ≡ true =
            sym (rw (not_shown) refl) ∙ fits in
          let (current, performance) = both (is_current child) _ only in
          inr (is ∙ rw (not_shown) refl, performance, text_eq-eq _ _ current)
    ]

same_fingerprint-eq : (s : Text) (o : Option Text) → same_fingerprint s o ≡ true → o ≡ some s
same_fingerprint-eq s none h = cc
same_fingerprint-eq s (some t) h =
    let (filled, same) = both (not (is_empty s)) (text_eq s t) h in
    ap some (sym (text_eq-eq s t same))

module _ ⦃chars : CharTable⦄ where
  pub record IsAnchored (child parent : Candidate) (evidence : List Evidence) (l : Lineage)
      : Type 0 where
    pub backed : is_backed child.strategy ≡ true
    pub named :
        parse_combined_parent_reference child.rewrite_artifact_ref ≡ returned parent.candidate_id
    pub not_itself : text_eq child.candidate_id parent.candidate_id ≡ false
    pub same_session : child.session_id ≡ parent.session_id
    pub same_sql : parent.rewrite_fingerprint ≡ some (or_empty child.rewrite_fingerprint)
    pub finished : is_finished (is_current child) parent.state ≡ true
    pub measured : 0 < parent.finalist_runs
    pub proof : Evidence
    pub last : IsLast (serves (is_current child) (pinned_of child.lineage) parent) evidence proof
    pub is_parent : l.parent_candidate_id ≡ parent.candidate_id
    pub is_proof : l.parent_evidence_id ≡ proof.evidence_id
    pub sound : IsSound child parent proof l

  -- A lineage rests on another candidate of the session, with the same SQL.
  pub validate_combined_parent-IsAnchored :
      (child parent : Candidate) (evidence : List Evidence) (l : Lineage)
      → validate_combined_parent child parent evidence ≡ returned l
      → IsAnchored child parent evidence l
  unfolding validate_combined_parent combined_parent_id validate_parent_request
  validate_combined_parent-IsAnchored child parent evidence l h =
      let reference = child.rewrite_artifact_ref in
      let rewrite = or_empty child.rewrite_fingerprint in
      let (expected, e0, h1) = >>=-eq-returned (combined_parent_id child) _ h in
      let (same, h2) =
        require-eq-returned (text_eq parent.candidate_id expected) other_parent _ h1 in
      let (differs, h3) =
        require-eq-returned (not (text_eq child.candidate_id parent.candidate_id)) own_parent _
          h2 in
      let (backed, e1) = require-eq-returned (is_backed child.strategy) not_backed _ e0 in
      let (again, e2, h4) = >>=-eq-returned (parse_combined_parent_reference reference) _ h3 in
      let (same_again, h5) =
        require-eq-returned (text_eq parent.candidate_id again) other_parent _ h4 in
      let (session, h6) =
        require-eq-returned (text_eq child.session_id parent.session_id) other_session _ h5 in
      let (sql, h7) =
        require-eq-returned (same_fingerprint rewrite parent.rewrite_fingerprint) other_sql _ h6 in
      let (ready, h8) =
        require-eq-returned
          (is_finished (is_current child) parent.state && ltb 0 parent.finalist_runs) not_measured _
          h7 in
      let (finished, measured) = both (is_finished (is_current child) parent.state) _ ready in
      let (proof, found, is_parent, is_proof, says) = lineage_of-eq-returned parent _ l h8 in
      let last = last_that-IsLast _ evidence proof found in
      record {
        backed = backed;
        named = e1 ∙ ap returned (sym (text_eq-eq _ _ same));
        not_itself = negated _ differs;
        same_session = text_eq-eq _ _ session;
        same_sql = same_fingerprint-eq rewrite _ sql;
        finished = finished;
        measured = ltb→lt 0 parent.finalist_runs measured;
        proof = proof;
        last = last;
        is_parent = is_parent;
        is_proof = is_proof;
        sound = serves-IsSound child parent proof l last.3 says;
      }
