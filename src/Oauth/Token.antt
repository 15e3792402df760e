-- ===== src/Oauth/Token.antt =====
-- The token and revocation endpoints of internal/oauth/server.go.
pub mod Issuing
pub mod Replay
use ocis_mcp_server.Base.{
  ℕ, String, Bool, not, ◌||◌, Option, none, some, List, [], ◌∷◌, ◌==◌, if◌then◌else◌, Result, ok,
  err,
}
use ocis_mcp_server.Base.Bytes.{Bytes}
use ocis_mcp_server.Grant.Level.{Grant}
use ocis_mcp_server.Http.{Request, Response, Value, text, num, empty, http_error, form_value}
use ocis_mcp_server.Store.Db.{Externals, Io, Store, CodeRow, RefreshRow, StoreError, audit}
use ocis_mcp_server.Store.Grants.{get_grant}
use ocis_mcp_server.Store.Codes.{consume_auth_code, put_refresh, consume_refresh}
use ocis_mcp_server.Oauth.Pkce.{Encoding, verify_s256}
use ocis_mcp_server.Oauth.Jwt.{JwtLibrary, sign_access}
use ocis_mcp_server.Oauth.Server.{Server, Env, write_json, token_err}

-- `randomNonce`
unfoldable pub random_nonce : ⦃x : Externals⦄ → Bytes → String
random_nonce ⦃x⦄ drawn = x.hex_string drawn

-- `RandomToken`
unfoldable pub random_token : ⦃b : Encoding⦄ → Bytes → String
random_token ⦃b⦄ drawn = b.base64_url drawn

module _ ⦃x : Externals⦄ ⦃b : Encoding⦄ ⦃j : JwtLibrary⦄ where
  unfoldable pub token_response : Server → String → String → Response
  token_response srv access refresh = write_json 200 (
      ("access_token", text access)
      ∷ ("token_type", text "Bearer")
      ∷ ("expires_in", num srv.access_ttl)
      ∷ ("refresh_token", text refresh)
      ∷ ("scope", text "ocis-mcp")
      ∷ [])

  -- `issue` behind the PutRefresh
  unfoldable pub issue_stored :
      Env
      → Server
      → Grant
      → String
      → String
      → String
      → String
      → Result StoreError (Unit {0}) × Store
      → Response × Store
  issue_stored env srv g grant_id client_id access refresh (err e, s) =
      (token_err "server_error" "", s)
  issue_stored env srv g grant_id client_id access refresh (ok _, s) = (
    token_response srv access refresh,
    audit (env.io 3) "token.issue" g.user_id client_id grant_id s,
  )

  -- `issue` behind the SignAccess
  unfoldable pub issue_signed :
      Env → Server → Grant → String → String → Option String → Store → Response × Store
  unfolding issue_stored random_token
  issue_signed env srv g grant_id client_id none s = (token_err "server_error" "", s)
  issue_signed env srv g grant_id client_id (some access) s =
      let refresh = random_token (env.random 1) in
      issue_stored env srv g grant_id client_id access refresh
        (put_refresh (env.io 2) refresh grant_id client_id srv.refresh_ttl s)

  unfoldable pub signed : Env → Server → Grant → String → String → Option String
  unfolding random_nonce
  signed env srv g grant_id client_id =
      sign_access (env.io 1).now srv.jwt_key srv.issuer srv.audience g.user_id grant_id client_id
        srv.access_ttl (random_nonce (env.random 0))

  unfoldable pub issue_for :
      Env → Server → String → String → Store → Result StoreError Grant → Response × Store
  unfolding issue_signed
  issue_for env srv grant_id client_id s (err e) = (token_err "invalid_grant" "grant missing", s)
  issue_for env srv grant_id client_id s (ok g) =
      issue_signed env srv g grant_id client_id (signed env srv g grant_id client_id) s

  unfoldable pub issue : Env → Server → String → String → Store → Response × Store
  unfolding issue_for
  issue env srv grant_id client_id s =
      issue_for env srv grant_id client_id s (get_grant (env.io 1) grant_id s)

  -- `tokenCode` behind the ConsumeAuthCode
  unfoldable pub check_code :
      Env → Server → Request → Result StoreError CodeRow × Store → Response × Store
  check_code env srv r (err e, s) = (token_err "invalid_grant" "invalid code", s)
  check_code env srv r (ok row, s) =
      if not (row.client_id == form_value "client_id" r.form)
        || not (row.redirect_uri == form_value "redirect_uri" r.form)
      then (token_err "invalid_grant" "client/redirect mismatch", s)
      else if not (verify_s256 (form_value "code_verifier" r.form) row.code_challenge)
      then (token_err "invalid_grant" "pkce failed", s)
      else issue env srv row.grant_id (form_value "client_id" r.form) s

  unfoldable pub token_code : Env → Server → Request → Store → Response × Store
  token_code env srv r s =
      check_code env srv r (consume_auth_code (env.io 0) (form_value "code" r.form) s)

  unfoldable pub check_refresh :
      Env → Server → Result StoreError RefreshRow × Store → Response × Store
  check_refresh env srv (err e, s) = (token_err "invalid_grant" "invalid refresh token", s)
  check_refresh env srv (ok row, s) = issue env srv row.grant_id row.client_id s

  unfoldable pub token_refresh : Env → Server → Request → Store → Response × Store
  token_refresh env srv r s =
      check_refresh env srv (consume_refresh (env.io 0) (form_value "refresh_token" r.form) s)

  unfoldable pub token : Env → Server → Request → Store → Response × Store
  token env srv r s =
      if not (r.method == "POST")
      then (http_error "method not allowed" 405, s)
      else if r.is_malformed
      then (token_err "invalid_request" "malformed body", s)
      else if form_value "grant_type" r.form == "authorization_code"
      then token_code env srv r s
      else if form_value "grant_type" r.form == "refresh_token"
      then token_refresh env srv r s
      else (token_err "unsupported_grant_type" "", s)

  unfoldable pub revoke : Env → Request → Store → Response × Store
  revoke env r s = (
    record { status = 200; headers = []; body = empty },
    if form_value "token" r.form == ""
        then s
        else (consume_refresh (env.io 0) (form_value "token" r.form) s).1,
  )
