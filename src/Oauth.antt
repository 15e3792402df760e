-- ===== src/Oauth.antt =====
-- internal/oauth: the authorization server that MCP clients talk to.
pub mod Pkce
pub mod Jwt
pub mod Server
pub mod Token
