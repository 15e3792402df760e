-- ===== src/Config.antt =====
-- internal/config/config.go: the settings from the environment, and the checks before the start.
pub mod Exposure
use ocis_mcp_server.Base.{
  ℕ, ◌*◌, String, Bool, true, false, not, ◌&&◌, ◌||◌, Option, none, some, ◌==◌, if◌then◌else◌,
  Result, ok, err, ◌>>=◌,
}
use ocis_mcp_server.Base.Ints.{ℤ, pos}
use ocis_mcp_server.Base.Text.{codes, map_codes, fold_code, same, trim_right}
use ocis_mcp_server.Secretbox.{Primitives, BoxError, parse_key}
use ocis_mcp_server.Oauth.Server.{Libraries}

pub record Config : Type 0 where
  pub ocis_url : String
  pub auth_mode : String
  pub app_token_user : String
  pub app_token_value : String
  pub oidc_issuer : String
  pub oidc_client_id : String
  pub oidc_client_secret : String
  pub oidc_access_token : String
  pub public_url : String
  pub grant_db : String
  pub grant_key : String
  pub education_access_token : String
  pub transport : String
  pub http_addr : String
  pub http_secret : String
  pub log_level : String
  pub insecure : Bool
  pub tls_skip_verify : Bool
  -- nanoseconds
  pub http_timeout : ℤ

-- net.SplitHostPort (the host), net.ParseIP with IsLoopback, strconv.ParseBool (false for an error)
-- and time.ParseDuration; url.Parse is in `Libraries`.
pub record Parsers : Type 0 where
  pub split_host : String → Option String
  pub ip_loopback : String → Option Bool
  pub parse_bool : String → Bool
  pub parse_duration : String → Option ℤ

-- What the errors of `validate` and `Load` name.
pub data ConfigError : Type 0 where
  ocis_url_required invalid_ocis_url plaintext_http bad_scheme bad_transport : ConfigError
  oauth_needs_http public_url_required invalid_public_url client_id_required grant_key_required :
      ConfigError
  bad_grant_key : BoxError → ConfigError
  open_bind ambiguous_credentials invalid_timeout : ConfigError

-- strings.EqualFold(s, "oauth")
unfoldable pub is_oauth : String → Bool
is_oauth s = same (map_codes fold_code (codes s)) (codes "oauth")

unfoldable pub or_default : String → String → String
or_default value default = if value == "" then default else value

unfoldable pub select_auth_mode : Config → String
select_auth_mode c =
    if not (c.auth_mode == "")
    then c.auth_mode
    else if not (c.app_token_user == "") && not (c.app_token_value == "")
    then "app-token"
    else if not (c.oidc_access_token == "")
    then "oidc"
    else "none"

unfoldable pub ocis_base_url : Config → String
ocis_base_url c = trim_right b'/' c.ocis_url

unfoldable pub http_auth_enabled : Config → Bool
http_auth_enabled c = not (c.http_secret == "") || is_oauth c.auth_mode

module _ ⦃p : Primitives⦄ ⦃l : Libraries⦄ ⦃n : Parsers⦄ where
  unfoldable pub host_of : String → String
  host_of addr = elim (n.split_host addr) [ none ↦ addr | some host ↦ host ]

  unfoldable pub is_loopback_host : String → Bool
  is_loopback_host addr =
      if host_of addr == ""
      then false
      else if host_of addr == "localhost"
      then true
      else elim (n.ip_loopback (host_of addr)) [ none ↦ false | some loopback ↦ loopback ]

  unfoldable pub is_loopback_bind : Config → Bool
  is_loopback_bind c = is_loopback_host c.http_addr

  unfoldable pub is_web_url : String → Bool
  is_web_url raw = elim (l.parse_url raw) [
    | none ↦ false
    | some u ↦ (u.scheme == "http") || (u.scheme == "https")
  ]

  unfoldable pub check_ocis_url : Config → Result ConfigError (Unit {0})
  check_ocis_url c =
      if c.ocis_url == "" then err ocis_url_required else elim (l.parse_url c.ocis_url) [
        | none ↦ err invalid_ocis_url
        | some u ↦
            if (u.scheme == "http") && not c.insecure
            then err plaintext_http
            else if not (u.scheme == "http") && not (u.scheme == "https")
            then err bad_scheme
            else ok tt
      ]

  unfoldable pub check_grant_key : String → Result ConfigError (Unit {0})
  check_grant_key text = elim (parse_key text) [ err e ↦ err (bad_grant_key e) | ok key ↦ ok tt ]

  unfoldable pub check_oauth : Config → Result ConfigError (Unit {0})
  check_oauth c =
      if not (c.transport == "http")
      then err oauth_needs_http
      else if c.public_url == ""
      then err public_url_required
      else if not (is_web_url c.public_url)
      then err invalid_public_url
      else if c.oidc_client_id == ""
      then err client_id_required
      else if c.grant_key == ""
      then err grant_key_required
      else check_grant_key c.grant_key

  unfoldable pub check_bind : Config → Result ConfigError (Unit {0})
  check_bind c =
      if (c.transport == "http")
        && not (is_oauth c.auth_mode)
        && (c.http_secret == "")
        && not (is_loopback_host c.http_addr)
      then err open_bind
      else ok tt

  unfoldable pub check_credentials : Config → Result ConfigError (Unit {0})
  check_credentials c =
      if not (c.app_token_user == "")
        && not (c.app_token_value == "")
        && not (c.oidc_access_token == "")
        && (c.auth_mode == "")
      then err ambiguous_credentials
      else ok tt

  unfoldable pub check_transport : Config → Result ConfigError (Unit {0})
  check_transport c =
      if not (c.transport == "stdio") && not (c.transport == "http")
      then err bad_transport
      else ok tt

  unfoldable pub validate : Config → Result ConfigError (Unit {0})
  validate c = check_ocis_url c >>= λ _. check_transport c >>= λ _.
      (if is_oauth c.auth_mode then check_oauth c else ok tt) >>= λ _.
      check_bind c >>= λ _. check_credentials c

  unfoldable pub timeout_of : String → Result ConfigError ℤ
  timeout_of text =
      if text == ""
      then ok (pos (30 * 1000000000))
      else elim (n.parse_duration text) [ none ↦ err invalid_timeout | some d ↦ ok d ]

  -- `env` is the environment; a variable that is not set is the empty text
  unfoldable pub read_env : (String → String) → ℤ → Config
  read_env env timeout = record {
    ocis_url = env "OCIS_MCP_OCIS_URL";
    auth_mode = env "OCIS_MCP_AUTH_MODE";
    app_token_user = env "OCIS_MCP_APP_TOKEN_USER";
    app_token_value = env "OCIS_MCP_APP_TOKEN_VALUE";
    oidc_issuer = env "OCIS_MCP_OIDC_ISSUER";
    oidc_client_id = env "OCIS_MCP_OIDC_CLIENT_ID";
    oidc_client_secret = env "OCIS_MCP_OIDC_CLIENT_SECRET";
    oidc_access_token = env "OCIS_MCP_OIDC_ACCESS_TOKEN";
    public_url = env "OCIS_MCP_PUBLIC_URL";
    grant_db = or_default (env "OCIS_MCP_GRANT_DB") "data/grants.db";
    grant_key = env "OCIS_MCP_GRANT_KEY";
    education_access_token = env "OCIS_MCP_EDUCATION_ACCESS_TOKEN";
    transport = or_default (env "OCIS_MCP_TRANSPORT") "stdio";
    http_addr = or_default (env "OCIS_MCP_HTTP_ADDR") "127.0.0.1:8090";
    http_secret = env "OCIS_MCP_HTTP_SECRET";
    log_level = or_default (env "OCIS_MCP_LOG_LEVEL") "info";
    insecure = n.parse_bool (env "OCIS_MCP_INSECURE");
    tls_skip_verify = n.parse_bool (env "OCIS_MCP_TLS_SKIP_VERIFY");
    http_timeout = timeout;
  }

  unfoldable pub load : (String → String) → Result ConfigError Config
  load env = timeout_of (env "OCIS_MCP_HTTP_TIMEOUT") >>= λ timeout.
      validate (read_env env timeout) >>= λ _.
      ok (record (read_env env timeout) { auth_mode = select_auth_mode (read_env env timeout) })
