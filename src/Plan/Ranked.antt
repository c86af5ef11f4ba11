-- ===== src/Plan/Ranked.antt =====
-- The actions that `review` of src/azure_sql_mcp/plan_enforcement.py recommends, and their order.
use azure_sql_mcp.Shared.{
  ℕ, ◌<◌, ◌≡◌, refl, sym, ap, ◌∙◌, subst, ◌⊎◌, inl, inr, ◌↔◌, true, false, List, [], ◌∷◌, ◌++◌,
  Among, Among-concat, length, length-take, take, drop, take-drop, min, ltb, arith,
}
use azure_sql_mcp.Shared.Sorted.{sorted, IsDescending, sorted-IsDescending, Among-sorted}
use azure_sql_mcp.Shared.Raising.{returned}
use azure_sql_mcp.Plan.{
  Platform, Regression, ForcedPlan, Action, Outcome, recommends, excludes, neither, Found,
  append_outcome, scan_rows, ranks_above, found_of, Review, explains, review,
  recommend_force_action, recommend_unforce_action,
}
use azure_sql_mcp.Plan.Eligible.{
  Forces, Unforces, recommend_force_action-Forces, recommend_unforce_action-Unforces,
}

module _ (p : Platform) where
  -- The action of a row.
  abbrev pub Judged : {R : Type 0} → (R → Outcome p.Score) → List R → Action p.Score → Type 0
  Judged {R} judge rs a = (r : R) × Among r rs × (judge r ≡ recommends a)

  recommends_inj : (a b : Action p.Score) → recommends a ≡ recommends b → a ≡ b
  recommends_inj a b e = cc

  appended :
      (found : Found p) (o : Outcome p.Score) (a : Action p.Score)
      → Among a (append_outcome p found o).actions ↔ (Among a found.actions ⊎ (o ≡ recommends a))
  appended found (recommends b) a =
      let h = Among-concat a found.actions b in
      (
        λ m. elim (h.0 m) [ inl old ↦ inl old | inr e ↦ inr (ap recommends (sym e)) ],
        λ m. h.1 (elim m [ inl old ↦ inl old | inr e ↦ inr (sym (recommends_inj b a e)) ]),
      )
  appended found (excludes x) a = (λ m. inl m, λ m. elim m [ inl old ↦ old | inr e ↦ cc ])
  appended found neither a = (λ m. inl m, λ m. elim m [ inl old ↦ old | inr e ↦ cc ])

  scan_rows-Judged :
      {R : Type 0} (judge : R → Outcome p.Score) (rs : List R) (found : Found p)
      (a : Action p.Score)
      → Among a (scan_rows p judge rs found).actions ↔ (Among a found.actions ⊎ Judged judge rs a)
  unfolding scan_rows
  scan_rows-Judged judge [] found a =
      (λ m. inl m, λ m. elim m [ inl old ↦ old | inr k ↦ absurd k.1 ])
  scan_rows-Judged judge (r ∷ rs) found a =
      let rest = scan_rows-Judged judge rs (append_outcome p found (judge r)) a in
      let here = appended found (judge r) a in
      (
        λ m. elim (rest.0 m) [
          | inl k ↦ elim (here.0 k) [ inl old ↦ inl old | inr e ↦ inr (r, inl refl, e) ]
          | inr k ↦ inr (k.0, inr k.1, k.2)
        ],
        λ m. rest.1 (split m here.1),
      )
    where
      split :
          (Among a found.actions ⊎ Judged judge (r ∷ rs) a)
          → ((Among a found.actions ⊎ (judge r ≡ recommends a))
              → Among a (append_outcome p found (judge r)).actions)
          → Among a (append_outcome p found (judge r)).actions ⊎ Judged judge rs a
      split (inl old) here = inl (here (inl old))
      split (inr (x, inl e, is)) here = inl (here (inr (subst (λ y. judge y ≡ recommends a) e is)))
      split (inr (x, inr later, is)) here = inr (x, later, is)

  -- The rows make this action: a regression that is eligible, or a forced plan.
  abbrev pub Stands : List (Regression p.Score) → List ForcedPlan → Action p.Score → Type 0
  Stands rs fs a =
      ((r : Regression p.Score) × Among r rs × Forces p r a)
      ⊎ ((f : ForcedPlan) × Among f fs × Unforces p f a)

  found_of-Stands :
      (rs : List (Regression p.Score)) (fs : List ForcedPlan) (a : Action p.Score)
      → Among a (found_of p rs fs).actions ↔ Stands rs fs a
  unfolding found_of
  found_of-Stands rs fs a =
      let first =
        scan_rows-Judged (recommend_force_action p) rs (record { actions = []; excluded = [] }) a in
      let second =
        scan_rows-Judged (recommend_unforce_action p) fs
          (scan_rows p (recommend_force_action p) rs (record { actions = []; excluded = [] })) a in
      (
        λ m. elim (second.0 m) [
          | inl k ↦ elim (first.0 k) [
            | inl none_yet ↦ absurd none_yet
            | inr j ↦ inl (j.0, j.1, (recommend_force_action-Forces p j.0 a).0 j.2)
          ]
          | inr j ↦ inr (j.0, j.1, (recommend_unforce_action-Unforces p j.0 a).0 j.2)
        ],
        λ m. second.1 (elim m [
          | inl j ↦ inl (first.1 (inr (j.0, j.1, (recommend_force_action-Forces p j.0 a).1 j.2)))
          | inr j ↦ inr (j.0, j.1, (recommend_unforce_action-Unforces p j.0 a).1 j.2)
        ]),
      )

  -- The recommended actions are the first ones of all that the rows make, in the order of their ranks.
  pub record IsBest (top_n : ℕ) (rs : List (Regression p.Score)) (fs : List ForcedPlan)
      (v : Review p) : Type 0 where
    pub rest : List (Action p.Score)
    pub all_of_them :
        (a : Action p.Score) → Among a (v.recommended_actions ++ rest) ↔ Stands rs fs a
    pub in_order : IsDescending (ranks_above p) (v.recommended_actions ++ rest)
    pub as_many : length v.recommended_actions ≡ min top_n (length (v.recommended_actions ++ rest))

  module _ (asym : (x y : p.Score) → p.higher x y ≡ true → p.higher y x ≡ false)
      (chain : (x y z : p.Score)
        → p.higher x y ≡ false
        → p.higher y z ≡ false
        → p.higher x z ≡ false) where
    ranks_above_asym : (a b : Action p.Score) → ranks_above p a b ≡ true → ranks_above p b a ≡ false
    ranks_above_asym a b h = ground (arith, asym a.score b.score)

    ranks_above_chain :
        (a b c : Action p.Score)
        → ranks_above p a b ≡ false
        → ranks_above p b c ≡ false
        → ranks_above p a c ≡ false
    ranks_above_chain a b c h k = ground (arith, chain a.score b.score c.score)

    -- For a window and a number of actions above zero, `review` returns the first actions, as many as
    -- are asked for or all, of a list that has just the actions of the eligible regressions and forced
    -- plans, and in which nothing ranks above what stands before it, where scores are ordered.
    pub review-IsBest :
        (window_minutes top_n : ℕ) (rs : List (Regression p.Score)) (fs : List ForcedPlan)
        → 0 < window_minutes
        → 0 < top_n
        → (v : Review p) × (review p window_minutes top_n rs fs ≡ returned v) × IsBest top_n rs fs v
    unfolding review
    review-IsBest w n rs fs hw hn =
        let found = found_of p rs fs in
        let all = sorted (ranks_above p) found.actions in
        let split : take n all ++ drop n all ≡ all = take-drop n all in
        (
          record {
            recommended_actions = take n all;
            excluded_recommendations = found.excluded;
            is_explained = explains p (take n all) found.excluded;
          },
          rw (positive w hw, positive n hn) refl,
          record {
            rest = drop n all;
            all_of_them = λ a.
                subst (λ xs. Among a xs ↔ Stands rs fs a) (sym split)
                  (through (Among-sorted (ranks_above p) a found.actions)
                    (found_of-Stands rs fs a));
            in_order = subst (IsDescending (ranks_above p)) (sym split) (
                sorted-IsDescending (ranks_above p) ranks_above_asym ranks_above_chain
                  found.actions);
            as_many = length-take n all ∙ ap (λ xs. min n (length xs)) (sym split);
          },
        )
      where
        positive : (k : ℕ) → 0 < k → ltb 0 k ≡ true
        positive k h = ground arith

        through : {P Q R : Type 0} → (P ↔ Q) → (Q ↔ R) → P ↔ R
        through h k = (λ x. k.0 (h.0 x), λ x. h.1 (k.1 x))
