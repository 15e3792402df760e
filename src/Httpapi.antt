-- ===== src/Httpapi.antt =====
-- internal/httpapi/server.go and internal/middleware/http.go: who may use /mcp, and with which grant.
pub mod Access
use ocis_mcp_server.Base.{
  ℕ, ◌+◌, String, Bool, true, false, not, ◌&&◌, ◌||◌, Option, none, some, List, [], ◌∷◌, ◌==◌, ltb,
  leb, nat_eq, length, if◌then◌else◌, Result, ok, err,
}
use ocis_mcp_server.Base.Bytes.{Bytes}
use ocis_mcp_server.Base.Text.{codes, map_codes, fold_code, same, take_text, drop_text, trim_text}
use ocis_mcp_server.Grant.Level.{Grant}
use ocis_mcp_server.Grant.Arguments.{RawMessage}
use ocis_mcp_server.Grant.Catalog.{Denied, allow}
use ocis_mcp_server.Http.{Request, Response, http_error}
use ocis_mcp_server.Store.Db.{Externals, Io, Store, OcisTok, StoreError}
use ocis_mcp_server.Store.Grants.{get_grant, update_ocis_tokens, with_tokens}
use ocis_mcp_server.Oauth.Jwt.{JwtLibrary, AccessClaims, TokenError, parse_access}
use ocis_mcp_server.Oauth.Server.{Server, Env, www_authenticate}

-- `h[:7]` is "Bearer " up to case, and something follows
unfoldable pub has_bearer : String → Bool
has_bearer h =
    ltb 7 (length (codes h)) && same (map_codes fold_code (codes (take_text 7 h))) (codes "bearer ")

unfoldable pub bearer : Request → String
bearer r = if has_bearer r.authorization then trim_text (drop_text 7 r.authorization) else ""

-- What a wrapped handler gets: an answer in its place, or the request with a grant.
pub data Admission : Type 0 where
  denied : Response → Admission
  admitted : Grant → Admission

unfoldable pub deny : Server → String → Response
deny srv message =
    let plain = http_error message 401 in
    record plain { headers = ("WWW-Authenticate", www_authenticate srv) ∷ plain.headers }

module _ ⦃x : Externals⦄ where
  -- `validBearer`: the digests of the token and of the secret are compared
  unfoldable pub valid_bearer : Request → Bytes → Bool
  valid_bearer r want =
      if not (has_bearer r.authorization)
      then false
      else same (x.sha256 (drop_text 7 r.authorization)) want

  -- `RequireBearer`: the answer that a request gets, or none if it passes
  unfoldable pub require_bearer : String → Request → Option Response
  require_bearer secret r =
      if secret == ""
      then none
      else if not (valid_bearer r (x.sha256 secret))
      then (let plain = http_error "unauthorized" 401 in
          some (record plain {
            headers = ("WWW-Authenticate", "Bearer realm=\"ocis-mcp-server\"") ∷ plain.headers;
          }))
      else none

  -- The grant with the tokens that the identity provider renewed.
  unfoldable pub renewed : Grant → OcisTok → Grant
  renewed g tok =
      with_tokens g tok.access (if tok.refresh == "" then g.ocis_refresh else tok.refresh)
        tok.expiry

  -- `maybeRefresh`; `renew` is discovery and the token source, none where one fails
  unfoldable pub maybe_refresh : Io → Io → (String → Option OcisTok) → Grant → Store → Grant × Store
  maybe_refresh clock io renew g s =
      if nat_eq g.ocis_expiry_unix 0 || ltb (clock.now + 60) g.ocis_expiry_unix
      then (g, s)
      else if g.ocis_refresh == ""
      then (g, s)
      else elim (renew g.ocis_refresh) [
        | none ↦ (g, s)
        | some tok ↦
            let n = renewed g tok in
            (n, (update_ocis_tokens io g.id n.ocis_access n.ocis_refresh n.ocis_expiry_unix s).1)
      ]

  unfoldable pub with_grant :
      Env → Server → (String → Option OcisTok) → Store → Result StoreError Grant → Admission × Store
  with_grant env srv renew s (err e) = (denied (deny srv "grant revoked or missing"), s)
  with_grant env srv renew s (ok g) =
      let fresh = maybe_refresh (env.io 2) (env.io 3) renew g s in (admitted fresh.0, fresh.1)

  unfoldable pub with_claims :
      Env
      → Server
      → (String → Option OcisTok)
      → Store
      → Result TokenError AccessClaims
      → Admission × Store
  with_claims env srv renew s (err e) = (denied (deny srv "invalid token"), s)
  with_claims env srv renew s (ok c) =
      with_grant env srv renew s (get_grant (env.io 1) c.grant_id s)

  unfoldable pub mcp_bearer :
      ⦃j : JwtLibrary⦄
      → Env
      → Server
      → (String → Option OcisTok)
      → Request
      → Store
      → Admission × Store
  mcp_bearer env srv renew r s =
      if bearer r == ""
      then (denied (deny srv "unauthorized"), s)
      else with_claims env srv renew s
          (parse_access (env.io 0).now srv.jwt_key srv.issuer srv.audience (bearer r))

-- `grantMiddleware` at tools/call: the name and the arguments of the call
unfoldable pub check_call : Option Grant → String → RawMessage → Result Denied (Unit {0})
check_call none name arguments = ok tt
check_call (some g) name arguments = if name == "" then ok tt else allow (some g) name arguments

-- `method`
unfoldable pub by_method : Request → Response × Store → Response × Store → Store → Response × Store
by_method r on_get on_post s =
    if r.method == "GET"
    then on_get
    else if r.method == "POST"
    then on_post
    else (http_error "method not allowed" 405, s)
