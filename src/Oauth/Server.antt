-- ===== src/Oauth/Server.antt =====
-- internal/oauth/server.go and rand.go: the endpoints of the authorization server. Each store call
-- of a handler has its own answers of the world, `env.io k` for the k-th.
use Prim.Native.String.{◌++◌}
use ocis_mcp_server.Base.{
  ℕ, ◌*◌, ◌<◌, String, Bool, true, false, not, ◌||◌, Option, none, some, List, [], ◌∷◌, ◌==◌,
  nat_eq, length, if◌then◌else◌, Result, ok, err, All,
}
use ocis_mcp_server.Base.Bytes.{Bytes, hex_decode}
use ocis_mcp_server.Base.Text.{
  codes, same, has_prefix, lower_code, map_codes, trim_right, take_text, cut,
}
use ocis_mcp_server.Http.{Request, Response, Value, text, texts, json, http_error}
use ocis_mcp_server.Store.Db.{Externals, Io, Store, StoreError, audit}
use ocis_mcp_server.Store.Clients.{Client, put_client}
use ocis_mcp_server.Oauth.Pkce.{Encoding}

pub record Server : Type 0 where
  pub public_url : String
  pub issuer : String
  pub audience : String
  pub jwt_key : Bytes
  pub cookie_key : Bytes
  pub cookie_secure : Bool
  -- lifetimes in seconds
  pub access_ttl : ℕ
  pub refresh_ttl : ℕ
  pub code_ttl : ℕ

unfoldable pub new_server : String → Bytes → Bytes → Server
unfolding trim_right
new_server public_url jwt_key cookie_key =
    let pub_url = trim_right b'/' public_url in
    record {
      public_url = pub_url;
      issuer = pub_url;
      audience = pub_url ++ "/mcp";
      jwt_key = jwt_key;
      cookie_key = cookie_key;
      cookie_secure = has_prefix (codes pub_url) (codes "https://");
      access_ttl = 15 * 60;
      refresh_ttl = 30 * 24 * 60 * 60;
      code_ttl = 5 * 60;
    }

-- What the world answers during one request: the store's calls, and the draws of random bytes.
pub record Env : Type 0 where
  pub io : ℕ → Io
  pub random : ℕ → Bytes

-- `url.Parse` of net/url, and HMAC-SHA256 of crypto/hmac.
pub record Url : Type 0 where
  pub scheme : String
  pub host : String
  pub hostname : String
  pub fragment : String

pub record Libraries : Type 0 where
  pub parse_url : String → Option Url
  pub hmac_sha256 : Bytes → String → Bytes
  pub hmac_sha256-bytes : (key : Bytes) (s : String) → All (λ b. b < 256) (hmac_sha256 key s)

unfoldable pub write_json : ℕ → List (String × Value) → Response
write_json status fields = record {
  status = status;
  headers = ("Content-Type", "application/json") ∷ ("Cache-Control", "no-store") ∷ [];
  body = json fields;
}

unfoldable pub token_err : String → String → Response
unfolding write_json
token_err code desc = write_json 400 (
    if desc == ""
    then ("error", text code) ∷ []
    else ("error", text code) ∷ ("error_description", text desc) ∷ [])

unfoldable pub www_authenticate : Server → String
www_authenticate srv =
    "Bearer realm=\"ocis-mcp\", resource_metadata=\"" ++ srv.public_url
    ++ "/.well-known/oauth-protected-resource\""

unfoldable pub resource_metadata : Server → Response
unfolding write_json
resource_metadata srv = write_json 200 (
    ("resource", text srv.audience)
    ∷ ("authorization_servers", texts (srv.issuer ∷ []))
    ∷ ("bearer_methods_supported", texts ("header" ∷ []))
    ∷ ("scopes_supported", texts ("ocis-mcp" ∷ []))
    ∷ [])

unfoldable pub as_metadata : Server → Response
unfolding write_json
as_metadata srv = write_json 200 (
    ("issuer", text srv.issuer)
    ∷ ("authorization_endpoint", text (srv.public_url ++ "/authorize"))
    ∷ ("token_endpoint", text (srv.public_url ++ "/token"))
    ∷ ("revocation_endpoint", text (srv.public_url ++ "/revoke"))
    ∷ ("registration_endpoint", text (srv.public_url ++ "/register"))
    ∷ ("response_types_supported", texts ("code" ∷ []))
    ∷ ("grant_types_supported", texts ("authorization_code" ∷ "refresh_token" ∷ []))
    ∷ ("code_challenge_methods_supported", texts ("S256" ∷ []))
    ∷ (
      "token_endpoint_auth_methods_supported",
      texts ("none" ∷ "client_secret_post" ∷ "client_secret_basic" ∷ []),
    )
    ∷ ("scopes_supported", texts ("ocis-mcp" ∷ []))
    ∷ [])

-- What encoding/json read of the first 64 KiB of a registration; errors are dropped.
pub record Registration : Type 0 where
  pub redirect_uris : List String
  pub client_name : String

module _ ⦃l : Libraries⦄ where
  unfoldable pub valid_url : Option Url → Bool
  valid_url none = false
  valid_url (some u) =
      let scheme = map_codes lower_code (codes u.scheme) in
      let host = map_codes lower_code (codes u.hostname) in
      if u.host == "" || not (u.fragment == "")
      then false
      else if same scheme (codes "https")
      then true
      else if same scheme (codes "http")
      then same host (codes "127.0.0.1") || same host (codes "localhost") || same host (codes "::1")
      else false

  unfoldable pub valid_redirect_uri : String → Bool
  unfolding valid_url
  valid_redirect_uri raw = valid_url (l.parse_url raw)

  -- the loop of `Register` finds no URI to refuse
  unfoldable pub all_valid : List String → Bool
  all_valid [] = true
  all_valid (u ∷ rest) =
      let later = all_valid rest in if not (valid_redirect_uri u) then false else later

  -- `SetSessionCookie` sends this value
  unfoldable pub session_cookie : ⦃x : Externals⦄ → Server → String → String
  session_cookie ⦃x⦄ srv sid = sid ++ "." ++ x.hex_string (l.hmac_sha256 srv.cookie_key sid)

  unfoldable pub check_mac : Server → String → Option Bytes → Option String
  check_mac srv sid none = none
  check_mac srv sid (some got) =
      if not (same got (l.hmac_sha256 srv.cookie_key sid)) then none else some sid

  unfoldable pub check_parts : Server → Option (String × String) → Option String
  unfolding check_mac
  check_parts srv none = none
  check_parts srv (some (sid, mac)) =
      if sid == "" then none else check_mac srv sid (hex_decode (codes mac))

  unfoldable pub read_session_cookie : Server → Request → Option String
  unfolding check_parts
  read_session_cookie srv r = elim r.cookie [
    | none ↦ none
    | some value ↦ check_parts srv (cut b'.' value)
  ]

module _ ⦃x : Externals⦄ ⦃b : Encoding⦄ ⦃l : Libraries⦄ where
  unfoldable pub client_name_or_default : String → String
  client_name_or_default name = if name == "" then "MCP client" else name

  unfoldable pub registered :
      Env → Registration → Result StoreError (Unit {0}) × Store → Client → Response × Store
  registered env body (err e, s) c = (http_error "could not register client" 500, s)
  registered env body (ok _, s) c = (
    write_json 201 (
        ("client_id", text c.id)
        ∷ ("client_name", text c.name)
        ∷ ("redirect_uris", texts body.redirect_uris)
        ∷ ("token_endpoint_auth_method", text "none")
        ∷ ("grant_types", texts ("authorization_code" ∷ "refresh_token" ∷ []))
        ∷ ("response_types", texts ("code" ∷ []))
        ∷ ("code_challenge_methods", texts ("S256" ∷ []))
        ∷ []),
    audit (env.io 1) "client.register" "" c.id c.name s,
  )

  unfoldable pub new_client : Env → Registration → Client
  new_client env body = record {
    id = "mcp-" ++ take_text 24 (b.base64_url (env.random 0));
    name = client_name_or_default body.client_name;
    secret_hash = "";
    redirect_uris = body.redirect_uris;
  }

  unfoldable pub register : Env → Request → Registration → Store → Response × Store
  register env r body s =
      if not (r.method == "POST")
      then (http_error "method not allowed" 405, s)
      else if nat_eq (length body.redirect_uris) 0
      then (http_error "redirect_uris required" 400, s)
      else if not (all_valid body.redirect_uris)
      then (http_error "redirect_uri must be https or http loopback" 400, s)
      else registered env body (put_client (env.io 0) (new_client env body) s) (new_client env body)
