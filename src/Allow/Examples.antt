-- ===== src/Allow/Examples.antt =====
-- A file with one database, and the answers that it gives.
use azure_sql_mcp.Shared.{
  ℕ, ◌+◌, ◌≡◌, refl, true, false, ◌&&◌, some, [], ◌∷◌, leb, if◌then◌else◌, map, String,
}
use azure_sql_mcp.Shared.Text.{Text, codes}
use azure_sql_mcp.Shared.Raising.{raised, returned}
use azure_sql_mcp.Admin.Chars.{ascii_table}
use azure_sql_mcp.Allow.{
  Json, bool, int, text, object, Fields, end, field, DatabasePolicy, tuning_session, view_apply,
  Contents, decoded, load_database_policy_or_deny, allows, permission, require_read,
}
use azure_sql_mcp.Allow.Safe.{IsGranted, allows-IsGranted}

-- Lower case on ASCII.
abbrev lower_char : ℕ → ℕ
lower_char c = if leb b'A' c && leb c b'Z' then c + 32 else c

abbrev casefold : Text → Text
casefold = map lower_char

abbrev key : String → Json → Fields → Fields
key k = field (codes k)

abbrev sales_entry : Fields
sales_entry = key "environment" (text (codes " Live")) (
    key "allow_read" (bool true) (
      key "allow_benchmark" (bool true)
        (key "max_benchmark_executions" (int 3) (key "allow_view_apply" (bool true) end))))

abbrev document : Json
document =
    object
      (key "version" (int 1) (key "databases" (object (key "Sales" (object sales_entry) end)) end))

abbrev file : Text → Contents
file path = decoded document

abbrev sales : DatabasePolicy
sales = record {
  database_name = codes "Sales";
  environment = codes " Live";
  allow_read = true;
  allow_benchmark = true;
  allow_test_indexes = false;
  allow_view_apply = true;
  allow_plan_apply = false;
  allow_index_history_write = false;
  business_cycle_extension_days = 0;
  max_benchmark_executions = 3;
  max_tuning_candidates = 10;
  max_tuning_session_executions = 3;
  max_tuning_session_minutes = 20;
  configured = true;
}

sales_loaded :
    load_database_policy_or_deny ⦃chars = ascii_table⦄ casefold file (some (codes "policy.json"))
    ≡ returned (sales ∷ [])
unfolding load_database_policy_or_deny
sales_loaded = refl

session_allowed :
    allows ⦃chars = ascii_table⦄ casefold (tuning_session 10 3 20) (sales ∷ []) (codes "SALES")
    ≡ returned true
unfolding allows
session_allowed = refl

views_refused :
    allows ⦃chars = ascii_table⦄ casefold view_apply (sales ∷ []) (codes "sales") ≡ returned false
unfolding allows
views_refused = refl

other_refused :
    require_read ⦃chars = ascii_table⦄ casefold (sales ∷ []) (codes "hr") ≡ raised permission
unfolding require_read
other_refused = refl

allows-IsGranted_example :
    IsGranted ⦃chars = ascii_table⦄ casefold file
      (some (codes "policy.json"))
      (tuning_session 10 3 20)
      (codes "SALES")
allows-IsGranted_example =
    allows-IsGranted ⦃chars = ascii_table⦄ casefold file (some (codes "policy.json")) (sales ∷ [])
      (tuning_session 10 3 20) (codes "SALES") sales_loaded session_allowed
