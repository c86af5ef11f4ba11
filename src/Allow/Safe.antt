-- ===== src/Allow/Safe.antt =====
-- A positive answer of src/azure_sql_mcp/database_policy.py goes back to the file that was named.
use azure_sql_mcp.Shared.{
  ◌≡◌, ◌≢◌, refl, sym, ap, ◌∙◌, Bool-cases, true, not, Option, none, some, List, [], ◌∷◌, inl, inr,
}
use azure_sql_mcp.Shared.Text.{Text}
use azure_sql_mcp.Shared.Raising.{raised, returned, >>=-eq-returned, require-eq-returned}
use azure_sql_mcp.Admin.Chars.{CharTable}
use azure_sql_mcp.Allow.{
  Json, null, bool, int, negative, real, text, array, object, Fields, Result, load_error,
  validation, type_error, decode_error, permission, DatabasePolicy, get_or, only_fields, has_fields,
  is_version_one, is_blank, Capability, can, find_policy, parse_policies, are_distinct,
  parse_databases, set_from_mapping, Contents, unreadable, not_utf8, not_json, decoded,
  as_validation, load_contents, load_database_policy, load_database_policy_or_deny, or_denied,
  policy_for, allows,
}
use azure_sql_mcp.Allow.Document.{HasGrant, can-denied, found-HasGrant}

as_validation-eq-returned {ℓ} :
    {A : Type ℓ} (r : Result A) (a : A) → as_validation r ≡ returned a → r ≡ returned a
as_validation-eq-returned (returned b) a h = h
as_validation-eq-returned (raised load_error) a h = cc
as_validation-eq-returned (raised validation) a h = cc
as_validation-eq-returned (raised type_error) a h = cc
as_validation-eq-returned (raised decode_error) a h = cc
as_validation-eq-returned (raised permission) a h = cc

module _ ⦃chars : CharTable⦄ (casefold : Text → Text) where
  -- A document of version 1 with an entry for the database that grants the capability.
  abbrev pub DocumentGrants : Capability → Text → Fields → Type 0
  DocumentGrants c db top =
      (is_version_one (get_or "version" null top) ≡ true)
      × ((dbs : Fields) × (get_or "databases" null top ≡ object dbs) × HasGrant casefold c db dbs)

  abbrev IsParsed : Json → List DatabasePolicy → Type 0
  IsParsed j ps = (dbs : Fields) × (j ≡ object dbs) × (parse_policies casefold dbs ≡ returned ps)

  parse_databases-IsParsed :
      (j : Json) (ps : List DatabasePolicy)
      → parse_databases casefold j ≡ returned ps
      → IsParsed j ps
  parse_databases-IsParsed (object dbs) ps h =
      let (qs, e, h1) = >>=-eq-returned (parse_policies casefold dbs) _ h in
      let (distinct, same) =
        require-eq-returned (are_distinct casefold qs) validation (returned qs) h1 in
      (dbs, refl, e ∙ same)
  parse_databases-IsParsed null ps h = cc
  parse_databases-IsParsed (bool b) ps h = cc
  parse_databases-IsParsed (int n) ps h = cc
  parse_databases-IsParsed negative ps h = cc
  parse_databases-IsParsed (real s e) ps h = cc
  parse_databases-IsParsed (text s) ps h = cc
  parse_databases-IsParsed (array f) ps h = cc

  abbrev IsDocument : Json → List DatabasePolicy → Type 0
  IsDocument j ps =
      (top : Fields) × (j ≡ object top)
      × (is_version_one (get_or "version" null top) ≡ true)
      × IsParsed (get_or "databases" null top) ps

  set_from_mapping-IsDocument :
      (j : Json) (ps : List DatabasePolicy)
      → set_from_mapping casefold j ≡ returned ps
      → IsDocument j ps
  unfolding set_from_mapping
  set_from_mapping-IsDocument (object top) ps h =
      let (allowed, h1) =
        require-eq-returned (only_fields ("version" ∷ "databases" ∷ []) top) validation _ h in
      let (there, h2) =
        require-eq-returned (has_fields ("version" ∷ "databases" ∷ []) top) validation _ h1 in
      let (version, h3) =
        require-eq-returned (is_version_one (get_or "version" null top)) validation _ h2 in
      (top, refl, version, parse_databases-IsParsed _ ps h3)
  set_from_mapping-IsDocument null ps h = cc
  set_from_mapping-IsDocument (bool b) ps h = cc
  set_from_mapping-IsDocument (int n) ps h = cc
  set_from_mapping-IsDocument negative ps h = cc
  set_from_mapping-IsDocument (real s e) ps h = cc
  set_from_mapping-IsDocument (text s) ps h = cc
  set_from_mapping-IsDocument (array f) ps h = cc

  load_contents-IsDocument :
      (k : Contents) (ps : List DatabasePolicy)
      → load_contents casefold k ≡ returned ps
      → (j : Json) × (k ≡ decoded j) × IsDocument j ps
  load_contents-IsDocument (decoded j) ps h =
      (j, refl, set_from_mapping-IsDocument j ps (as_validation-eq-returned _ ps h))
  load_contents-IsDocument unreadable ps h = cc
  load_contents-IsDocument not_utf8 ps h = cc
  load_contents-IsDocument not_json ps h = cc

  chosen :
      (c : Capability) (db : Text) (o : Option DatabasePolicy) (p : DatabasePolicy)
      → or_denied db o ≡ p
      → can casefold c p ≡ true
      → (o ≡ some p)
  chosen c db (some q) p h k = ap some h
  chosen c db none p h k =
      let refused = can-denied casefold db c in let allowed = ap (can casefold c) h ∙ k in cc

  -- The policy that an answer goes by.
  allows-find_policy :
      (c : Capability) (ps : List DatabasePolicy) (db : Text)
      → allows casefold c ps db ≡ returned true
      → (p : DatabasePolicy) × (find_policy casefold db ps ≡ some p) × (can casefold c p ≡ true)
  unfolding allows policy_for
  allows-find_policy c ps db h =
      let (p, e, h1) = >>=-eq-returned (policy_for casefold ps db) _ h in
      let (named, same) = require-eq-returned (not (is_blank db)) validation _ e in
      let granted : can casefold c p ≡ true = cc in
      let is : or_denied db (find_policy casefold db ps) ≡ p = cc in
      (p, chosen c db (find_policy casefold db ps) p is granted, granted)

  -- No policies, nothing allowed.
  allows_nothing :
      (c : Capability) (ps : List DatabasePolicy) (db : Text)
      → [] ≡ ps
      → allows casefold c ps db ≢ returned true
  unfolding find_policy
  allows_nothing c ps db e h =
      let (p, found, granted) = allows-find_policy c ps db h in
      let lost = ap (find_policy casefold db) e ∙ found in cc

  module _ (file : Text → Contents) where
    -- The file under the path decodes to a document that grants the capability.
    abbrev pub IsGranted : Option Text → Capability → Text → Type 0
    IsGranted path c db =
        (route : Text) × (top : Fields) × (path ≡ some route)
        × (file route ≡ decoded (object top))
        × DocumentGrants c db top

    -- What is allowed after loading is granted by the document of the file.
    pub allows-IsGranted :
        (path : Option Text) (ps : List DatabasePolicy) (c : Capability) (db : Text)
        → load_database_policy_or_deny casefold file path ≡ returned ps
        → allows casefold c ps db ≡ returned true
        → IsGranted path c db
    unfolding load_database_policy_or_deny load_database_policy
    allows-IsGranted none ps c db h k =
        let empty : [] ≡ ps = cc in absurd (allows_nothing c ps db empty k)
    allows-IsGranted (some route) ps c db h k = elim (Bool-cases (is_blank route)) [
      | inl blank ↦
          let nothing : ◌≡◌ {A = Result (List DatabasePolicy)} (returned []) (returned ps) =
            sym (rw (blank) refl) ∙ h in
          let empty : [] ≡ ps = cc in absurd (allows_nothing c ps db empty k)
      | inr named ↦
          let loaded : load_contents casefold (file route) ≡ returned ps =
            sym (rw (named) refl) ∙ h in
          let (j, read_as, (top, is_object, version, (dbs, is_dbs, parsed))) =
            load_contents-IsDocument (file route) ps loaded in
          let (p, found, granted) = allows-find_policy c ps db k in
          (
            route,
            top,
            refl,
            read_as ∙ ap decoded is_object,
            (version, (dbs, is_dbs, found-HasGrant casefold c db dbs ps p parsed found granted)),
          )
    ]
