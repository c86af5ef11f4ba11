-- ===== src/Allow/Document.antt =====
-- Where a positive answer of src/azure_sql_mcp/database_policy.py comes from: a file that grants it.
use azure_sql_mcp.Shared.{
  ◌≡◌, refl, sym, ap, ◌∙◌, subst, Bool-cases, true, false, some, List, [], ◌∷◌, inl, inr, ◌⊎◌,
}
use azure_sql_mcp.Shared.Text.{Text, text_eq, text_eq-eq, text_eq_refl}
use azure_sql_mcp.Shared.Raising.{returned, >>=-eq-returned}
use azure_sql_mcp.Admin.Chars.{CharTable}
use azure_sql_mcp.Allow.{
  Json, null, bool, int, negative, real, text, array, object, Fields, end, field, Result,
  DatabasePolicy, lookup, policy_from_mapping, Capability, read, test_indexes, view_apply,
  plan_apply, index_history_write, benchmark, tuning_session, denied, can, find_policy,
  parse_policies,
}
use azure_sql_mcp.Allow.Parsed.{policy_from_mapping-Agrees}
use azure_sql_mcp.Allow.Granted.{Grants, can-Grants}

module _ ⦃chars : CharTable⦄ (casefold : Text → Text) where
  pub can-denied : (name : Text) (c : Capability) → can casefold c (denied name) ≡ false
  unfolding can
  can-denied name read = refl
  can-denied name test_indexes = refl
  can-denied name view_apply = refl
  can-denied name plan_apply = refl
  can-denied name index_history_write = refl
  can-denied name (benchmark n) = refl
  can-denied name (tuning_session k e m) = refl

  -- The entry that stands under the name of a database, in any case, and grants the capability.
  abbrev pub HasGrant : Capability → Text → Fields → Type 0
  HasGrant c db dbs =
      (name : Text) × (entry : Fields) × (lookup name dbs ≡ some (object entry))
      × (casefold name ≡ casefold db)
      × Grants casefold entry c

  policy_of_object :
      (name : Text) (j : Json) (p : DatabasePolicy)
      → policy_from_mapping casefold name j ≡ returned p
      → (fs : Fields) × (j ≡ object fs)
  unfolding policy_from_mapping
  policy_of_object name (object fs) p h = (fs, refl)
  policy_of_object name null p h = cc
  policy_of_object name (bool b) p h = cc
  policy_of_object name (int n) p h = cc
  policy_of_object name negative p h = cc
  policy_of_object name (real s e) p h = cc
  policy_of_object name (text s) p h = cc
  policy_of_object name (array f) p h = cc

  -- An entry whose name is not the database's, in any case, hides none that is.
  later :
      (c : Capability) (db name : Text) (j : Json) (fs : Fields)
      → text_eq (casefold name) (casefold db) ≡ false
      → HasGrant c db fs
      → HasGrant c db (field name j fs)
  unfolding lookup
  later c db name j fs h (n, entry, stands, same, grants) = (
    n,
    entry,
    elim (Bool-cases (text_eq name n)) [
      | inl e ↦
          let clash = ap casefold (text_eq-eq name n e) ∙ same in
          let hit =
            subst (λ s. text_eq (casefold name) s ≡ true) clash (text_eq_refl (casefold name)) in
          cc
      | inr e ↦ rw (e) stands
    ],
    same,
    grants,
  )

  now :
      (c : Capability) (db name : Text) (j : Json) (fs : Fields) (p : DatabasePolicy)
      → policy_from_mapping casefold name j ≡ returned p
      → text_eq (casefold p.database_name) (casefold db) ≡ true
      → can casefold c p ≡ true
      → HasGrant c db (field name j fs)
  unfolding lookup
  now c db name j fs p h same g =
      let (entry, is) = policy_of_object name j p h in
      let agrees =
        policy_from_mapping-Agrees casefold name entry p
          (ap (policy_from_mapping casefold name) (sym is) ∙ h) in
      (
        name,
        entry,
        rw (text_eq_refl name) (ap some is),
        ap casefold (sym agrees.named) ∙ text_eq-eq _ _ same,
        can-Grants casefold entry p c agrees g,
      )

  list_inj :
      (ps qs : List DatabasePolicy)
      → ◌≡◌ {A = Result (List DatabasePolicy)} (returned ps) (returned qs)
      → ps ≡ qs
  list_inj ps qs h = cc

  named_by :
      (name : Text) (j : Json) (p : DatabasePolicy)
      → policy_from_mapping casefold name j ≡ returned p
      → p.database_name ≡ name
  named_by name j p h =
      let (entry, is) = policy_of_object name j p h in
      let agrees =
        policy_from_mapping-Agrees casefold name entry p
          (ap (policy_from_mapping casefold name) (sym is) ∙ h) in
      agrees.named

  find_policy-first :
      (db : Text) (q p : DatabasePolicy) (qs : List DatabasePolicy)
      → find_policy casefold db (q ∷ qs) ≡ some p
      → ((q ≡ p) × (text_eq (casefold p.database_name) (casefold db) ≡ true))
        ⊎ ((text_eq (casefold q.database_name) (casefold db) ≡ false)
            × (find_policy casefold db qs ≡ some p))
  unfolding find_policy
  find_policy-first db q p qs f =
      elim (Bool-cases (text_eq (casefold q.database_name) (casefold db))) [
        | inl same ↦
            let is : q ≡ p = cc in
            inl (is, subst (λ r. text_eq (casefold r.database_name) (casefold db) ≡ true) is same)
        | inr other ↦ inr (other, sym (rw (other) refl) ∙ f)
      ]

  -- The entry behind the policy that is found for a database.
  pub found-HasGrant :
      (c : Capability) (db : Text) (dbs : Fields) (ps : List DatabasePolicy) (p : DatabasePolicy)
      → parse_policies casefold dbs ≡ returned ps
      → find_policy casefold db ps ≡ some p
      → can casefold c p ≡ true
      → HasGrant c db dbs
  unfolding parse_policies find_policy
  found-HasGrant c db end ps p h f g =
      let none_there = subst (λ l. find_policy casefold db l ≡ some p) (sym (list_inj [] ps h)) f in
      cc
  found-HasGrant c db (field name j fs) ps p h f g =
      let (q, e, h1) = >>=-eq-returned (policy_from_mapping casefold name j) _ h in
      let (qs, e1, h2) = >>=-eq-returned (parse_policies casefold fs) _ h1 in
      let found =
        subst (λ l. find_policy casefold db l ≡ some p) (sym (list_inj (q ∷ qs) ps h2)) f in
      elim (find_policy-first db q p qs found) [
        | inl (is, same) ↦ now c db name j fs p (e ∙ ap returned is) same g
        | inr (other, rest) ↦
            later c db name j fs
              (subst (λ s. text_eq (casefold s) (casefold db) ≡ false) (named_by name j q e) other)
              (found-HasGrant c db fs qs p e1 rest g)
      ]
