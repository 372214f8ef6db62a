-- ===== src/Auth.antt =====
-- Accounts of internal/server/auth.go: the checks of credentials and the account store.
pub mod Credentials
pub mod Store
pub mod Register
pub mod Login
pub mod Manage
pub mod Rows
pub mod Managed
pub mod Requests
pub mod Access
pub mod Signup
pub mod Handlers
pub mod Deletion
mod Examples
