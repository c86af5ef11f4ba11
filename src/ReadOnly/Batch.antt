-- ===== src/ReadOnly/Batch.antt =====
-- The statements that `validate_read_only` of src/azure_sql_mcp/safe_sql.py lets through.
use azure_sql_mcp.Shared.{
  ◌≡◌, refl, ap, ◌∙◌, ◌↔◌, Bool, true, false, Option, none, some, List, [], ◌∷◌, ◌++◌, All, map,
}
use azure_sql_mcp.Shared.Text.{Text}
use azure_sql_mcp.Shared.Raising.{Raising, raised, returned, require, ◌>>◌}
use azure_sql_mcp.ReadOnly.Validate.{
  Node, Parser, Refusal, Unsafe, refuse_if, check_node, first_of, check_tree, may_precede, is_query,
  check_prefix, check_statements,
}

module _ (lower : Text → Text) where
  -- No node of the tree is one that is not allowed.
  abbrev pub IsSafe : List Node → Type 0
  IsSafe = All (λ n. check_node lower n ≡ none)

  check_tree-IsSafe : (ns : List Node) → (check_tree lower ns ≡ none) ↔ IsSafe ns
  unfolding check_tree
  check_tree-IsSafe [] = (λ e. tt, λ h. refl)
  check_tree-IsSafe (n ∷ ns) =
      let rest = check_tree-IsSafe ns in
      (
        λ e.
            let (here, later) = split (check_node lower n) (check_tree lower ns) e in
            (here, rest.0 later),
        λ h. rw (h.0, rest.1 h.1) refl,
      )
    where
      split : (a b : Option Unsafe) → first_of lower a b ≡ none → (a ≡ none) × (b ≡ none)
      split none b e = (refl, e)
      split (some a) b e = cc

pub passed : {A : Type 0} (e : A → Refusal) (o : Option A) → refuse_if e o ≡ returned tt → o ≡ none
passed e none h = refl
passed e (some a) h = cc

both_pass :
    (m n : Raising Refusal (Unit {0}))
    → (m >> n) ≡ returned tt
    → (m ≡ returned tt) × (n ≡ returned tt)
both_pass (returned u) n h = (refl, h)
both_pass (raised e) n h = cc

pub require_passed : (b : Bool) (e : Refusal) → require b e ≡ returned tt → b ≡ true
require_passed true e h = refl
require_passed false e h = cc

module _ (lower : Text → Text) (p : Parser) where
  -- One query, behind statements that declare or set variables, and no node that is not allowed.
  pub record IsBatch (parsed : List (Option p.Statement)) : Type 0 where
    pub prefix : List p.Statement
    pub last : p.Statement
    pub are : parsed ≡ map some (prefix ++ last ∷ [])
    pub declare_or_set : All (λ s. may_precede (p.shape s) ≡ true) prefix
    pub a_query : is_query (p.shape last) ≡ true
    pub safe : All (λ s. IsSafe lower (p.walk s)) (prefix ++ last ∷ [])

  statement_checks :
      (test : Bool) (e : Refusal) (ns : List Node)
      → (require test e >> refuse_if Refusal.unsafe (check_tree lower ns)) ≡ returned tt
      → (test ≡ true) × IsSafe lower ns
  statement_checks test e ns h =
      let (one, two) =
        both_pass (require test e) (refuse_if Refusal.unsafe (check_tree lower ns)) h in
      (
        require_passed test e one,
        (check_tree-IsSafe lower ns).0 (passed Refusal.unsafe (check_tree lower ns) two),
      )

  pub checked-IsBatch :
      (s : Option p.Statement) (ss : List (Option p.Statement))
      → check_statements lower p s ss ≡ returned tt
      → IsBatch (s ∷ ss)
  unfolding check_statements
  checked-IsBatch none [] h = cc
  checked-IsBatch (some x) [] h =
      let (a_query, safe) = statement_checks (is_query (p.shape x)) _ (p.walk x) h in
      record {
        prefix = [];
        last = x;
        are = refl;
        declare_or_set = tt;
        a_query = a_query;
        safe = (safe, tt);
      }
  checked-IsBatch none (t ∷ ts) h = cc
  checked-IsBatch (some x) (t ∷ ts) h =
      let (here, later) =
        both_pass (check_prefix lower p (some x)) (check_statements lower p t ts) h in
      let (may, safe) = statement_checks (may_precede (p.shape x)) _ (p.walk x) here in
      let rest = checked-IsBatch t ts later in
      record {
        prefix = x ∷ rest.prefix;
        last = rest.last;
        are = ap (λ (l : List (Option p.Statement)). some x ∷ l) rest.are;
        declare_or_set = (may, rest.declare_or_set);
        a_query = rest.a_query;
        safe = (safe, rest.safe);
      }

  -- `check_statements` on a whole list.
  unfoldable pub check_all : List (Option p.Statement) → Raising Refusal (Unit {0})
  check_all [] = raised Refusal.invalid
  check_all (s ∷ ss) = check_statements lower p s ss

  passes_prefix :
      (x : p.Statement)
      → may_precede (p.shape x) ≡ true
      → IsSafe lower (p.walk x)
      → check_prefix lower p (some x) ≡ returned tt
  passes_prefix x may safe = rw (may, (check_tree-IsSafe lower (p.walk x)).1 safe) refl

  batch_checked :
      (prefix : List p.Statement) (last : p.Statement)
      → All (λ s. may_precede (p.shape s) ≡ true) prefix
      → is_query (p.shape last) ≡ true
      → All (λ s. IsSafe lower (p.walk s)) (prefix ++ last ∷ [])
      → check_all (map some (prefix ++ last ∷ [])) ≡ returned tt
  unfolding check_all check_statements
  batch_checked [] last may a_query safe =
      rw (a_query, (check_tree-IsSafe lower (p.walk last)).1 safe.0) refl
  batch_checked (x ∷ []) last may a_query safe =
      ap (λ (m : Raising Refusal (Unit {0})). m >> check_statements lower p (some last) [])
        (passes_prefix x may.0 safe.0)
      ∙ batch_checked [] last tt a_query safe.1
  batch_checked (x ∷ y ∷ prefix) last may a_query safe =
      ap
        (λ (m : Raising Refusal (Unit {0})).
          m >> check_statements lower p (some y) (map some (prefix ++ last ∷ [])))
        (passes_prefix x may.0 safe.0)
      ∙ batch_checked (y ∷ prefix) last may.1 a_query safe.1

  pub IsBatch-checked :
      (statements : List (Option p.Statement))
      → IsBatch statements
      → check_all statements ≡ returned tt
  IsBatch-checked statements h =
      ap check_all h.are ∙ batch_checked h.prefix h.last h.declare_or_set h.a_query h.safe
