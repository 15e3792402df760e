-- ===== src/Store.antt =====
-- internal/store/store.go: the SQLite database of clients, sessions, grants, codes and tokens.
pub mod Db
pub mod Clients
pub mod Sessions
pub mod Grants
pub mod Codes
pub mod Trace
pub mod Roundtrip
pub mod Frame
pub mod Shrinks
pub mod Revocation
pub mod Marks
pub mod SingleUse
