-- ===== src/Api.antt =====
-- The HTTP handlers of backend/internal/api.
pub mod Response
pub mod Hierarchy
pub mod Router
pub mod Users
pub mod Costs
pub mod Tree
pub mod Accounts
pub mod Server
pub mod Creates
