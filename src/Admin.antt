-- ===== src/Admin.antt =====
-- src/azure_sql_mcp/admin_policy.py
pub mod Chars
pub mod Tokens
pub mod Expressions
pub mod Variables
pub mod DropDatabase
pub mod Preview
pub mod Audit
pub mod Execution
mod Examples
