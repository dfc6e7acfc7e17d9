-- ===== src/User.antt =====
-- Users, sessions and passwords: pkg/handlers/auth.go and user_admin.go.
pub mod Table
pub mod Sessions
pub mod Passwords
pub mod Accounts
pub mod Changes
pub mod Access
pub mod Requests
mod Rules
mod Effects
mod Guards
mod Guarded
mod Refreshed
mod Revoked
mod OneReset
mod LoggedIn
mod Renewal
mod Fixtures
mod Tests
