-- ===== src/Admin/Preview.antt =====
-- `_hash_sql` and `_preview_sql` of src/azure_sql_mcp/admin_policy.py. SHA-256 and the redaction of
-- literals and error texts are parameters.
use azure_sql_mcp.Shared.{
  ℕ, ◌-◌, ◌≤◌, Bool, true, false, [], ◌∷◌, ◌++◌, length, length-append, take, length-take, leb,
  if◌then◌else◌, arith,
}
use azure_sql_mcp.Shared.Text.{Text, codes}
use azure_sql_mcp.Admin.Chars.{CharTable}

-- hashlib.sha256(text.encode("utf-8")).hexdigest(), and `redact_sql_literals` and
-- `sanitize_error_message` of src/azure_sql_mcp/observability.py.
pub record Redaction : Type 0 where
  pub sha256_hex : Text → Text
  pub redact_sql_literals : Text → Text
  pub sanitize_error_message : Text → Text

module _ ⦃chars : CharTable⦄ where
  unfoldable pub lstrip : Text → Text
  lstrip [] = []
  lstrip (c ∷ s) = let rest = lstrip s in if chars.is_space c then rest else c ∷ s

  -- re.sub(r"\s+", " ", s.strip()): a run of white space is one blank, and none at either end. The
  -- flag says that a run has been read and not yet written.
  unfoldable pub collapse : Bool → Text → Text
  collapse pending [] = []
  collapse pending (c ∷ s) =
      let blanks = collapse true s in
      let on = c ∷ collapse false s in
      if chars.is_space c then blanks else (if pending then 32 ∷ on else on)

  unfoldable pub normalize : Text → Text
  unfolding lstrip collapse
  normalize s = collapse false (lstrip s)

  module _ (r : Redaction) where
    unfoldable pub hash_sql : Text → Text
    unfolding normalize
    hash_sql sql = take 16 (r.sha256_hex (normalize sql))

    unfoldable pub preview_sql : ℕ → Text → Text
    unfolding normalize
    preview_sql limit sql =
        let normalized = normalize (r.redact_sql_literals sql) in
        if leb (length normalized) limit
        then normalized
        else take (limit - 3) normalized ++ codes "..."

    -- A preview keeps within its limit, if the limit has room for the dots.
    length-preview_sql-le :
        (limit : ℕ) (sql : Text) → 3 ≤ limit → length (preview_sql limit sql) ≤ limit
    unfolding preview_sql
    length-preview_sql-le limit sql h =
        let s = normalize (r.redact_sql_literals sql) in
        ground (arith, length-append (take (limit - 3) s) (codes "..."), length-take (limit - 3) s)
