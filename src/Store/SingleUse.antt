-- ===== src/Store/SingleUse.antt =====
-- The use of codes and refresh tokens (internal/store/store.go).
pub mod Code
pub mod Refresh
