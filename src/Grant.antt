-- ===== src/Grant.antt =====
-- internal/grant: what the user allowed, and the check of each tool call against it.
pub mod Level
pub mod Roles
pub mod Arguments
pub mod Catalog
pub mod Ceiling
pub mod Enforcement
pub mod Visibility
