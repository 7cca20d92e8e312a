-- ===== src/Users.antt =====
-- internal/users: accounts, roles, sessions, identity providers and their configuration snapshot.
pub mod Types
pub mod Locked
pub mod Fields
pub mod Json
pub mod Permissions
pub mod Snapshot
pub mod Invariant
pub mod Passwords
pub mod Accounts
pub mod Roles
pub mod Bootstrap
pub mod Google
pub mod Oidc
pub mod Sessions
pub mod Normalize
pub mod Import
pub mod Commands
