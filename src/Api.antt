-- ===== src/Api.antt =====
-- The HTTP interface: internal/api and internal/auth.
pub mod Request
pub mod Permissions
pub mod Middleware
pub mod Kinds
pub mod Calls
pub mod Handling
pub mod Access
pub mod Mutations
pub mod Lists
pub mod Pool
pub mod Details
pub mod Manifests
pub mod Insights
pub mod Routes
pub mod Permitted
pub mod Admin
pub mod Bounds
