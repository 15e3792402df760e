-- ===== src/Consent.antt =====
-- internal/consent: the wizard in which the user turns a login into a grant.
pub mod Flow
pub mod Handler
pub mod Steps
pub mod Ceiling
pub mod Reachable
pub mod Requests
pub mod Granted
