-- ===== src/Consent/Handler.antt =====
-- internal/consent/handler.go: one function per endpoint of the wizard.
use Prim.Native.String.{◌++◌}
use ocis_mcp_server.Base.{
  ℕ, String, Bool, false, ◌&&◌, ◌||◌, not, Option, none, some, List, [], ◌∷◌, ◌==◌, nat_eq, length,
  any, keep, if◌then◌else◌, Result, ok, err,
}
use ocis_mcp_server.Base.Bytes.{Bytes}
use ocis_mcp_server.Base.Text.{codes, map_codes, fold_code, same, trim_space}
use ocis_mcp_server.Grant.Level.{Level, level_none, level_read, SpaceGrant, Grant, parse_level}
use ocis_mcp_server.Grant.Roles.{clamp_level}
use ocis_mcp_server.Http.{Request, Form, Response, html, form_value, http_error, redirect}
use ocis_mcp_server.Pages.{Page}
use ocis_mcp_server.Oidc.{GraphAnswer, UserInfo, is_instance_admin}
use ocis_mcp_server.Store.Db.{Externals, Io, Store, StoreError, OcisTok}
use ocis_mcp_server.Store.Clients.{Client, get_client, valid_redirect}
use ocis_mcp_server.Store.Sessions.{put_session, get_session}
use ocis_mcp_server.Oauth.Pkce.{Encoding}
use ocis_mcp_server.Oauth.Server.{Server, Env, Libraries, session_cookie, read_session_cookie}
use ocis_mcp_server.Oauth.Token.{random_token, random_nonce}
use ocis_mcp_server.Consent.Flow.{Flow, Wizard, marshal, unmarshal_flow, selected_spaces}

-- `Handler`: what its methods read of it
pub record Handler : Type 0 where
  pub oauth : Server
  -- seconds
  pub session_ttl : ℕ

pub data FlowError : Type 0 where
  no_session : FlowError
  store_error : StoreError → FlowError
  bad_flow : FlowError

-- What the identity provider and oCIS answer during a callback.
pub record Upstream : Type 0 where
  -- code and verifier
  pub exchange : String → String → Option OcisTok
  -- empty where the request failed
  pub user_info : UserInfo
  pub subject : String
  pub drives : Option GraphAnswer
  pub admin_status : Option ℕ

abbrev pub answer : Page → Response
answer page = record {
  status = 200;
  headers =
      ("Content-Type", "text/html; charset=utf-8")
      ∷ ("X-Frame-Options", "DENY")
      ∷ ("X-Content-Type-Options", "nosniff")
      ∷ ("Referrer-Policy", "no-referrer")
      ∷ ("Cache-Control", "no-store")
      ∷ (
        "Content-Security-Policy",
        "default-src 'none'; style-src 'unsafe-inline'; img-src 'self' https: data:; form-action 'self'",
      )
      ∷ [];
  body = html page;
}

unfoldable pub first_non_empty : List String → String
first_non_empty [] = ""
first_non_empty (s ∷ ss) =
    let rest = first_non_empty ss in
    if not (nat_eq (length (trim_space (codes s))) 0) then s else rest

-- the level that `LevelsPOST` sets
unfoldable pub chosen_level : Level → Level → Level
chosen_level want ceiling =
    let level = clamp_level want ceiling in if nat_eq level level_none then level_read else level

-- `byID` holds the last row of an identifier
unfoldable pub set_level : String → Level → List SpaceGrant → List SpaceGrant
set_level id want [] = []
set_level id want (s ∷ rest) =
    let changed = set_level id want rest in
    if any (λ t. t.id == id) rest
    then s ∷ changed
    else if s.id == id
    then record s { level = chosen_level want s.ceiling } ∷ rest
    else s ∷ rest

unfoldable pub set_levels : Form → List String → List SpaceGrant → List SpaceGrant
set_levels form [] spaces = spaces
set_levels form (id ∷ ids) spaces =
    set_levels form ids (set_level id (parse_level (form_value ("level_" ++ id) form)) spaces)

-- the flow that `LevelsPOST` saves
unfoldable pub with_levels : Form → Flow → Flow
with_levels form f = record f {
  spaces = set_levels form f.selected f.spaces;
  want_instance_adm = f.instance_admin_ok && (form_value "instance_admin" form == "1");
  step = "confirm";
}

-- the identifiers of the form that `SpacesPOST` keeps
unfoldable pub allowed_ids : Flow → List String → List String
allowed_ids f ids = keep (λ id. any (λ s. s.id == id) f.spaces) ids

unfoldable pub with_login : OcisTok → Upstream → List SpaceGrant → Flow → Flow
with_login tok up spaces f =
    let sub = if up.user_info.sub == "" then up.subject else up.user_info.sub in
    record f {
      ocis_access = tok.access;
      ocis_refresh = tok.refresh;
      ocis_expiry_unix = tok.expiry;
      user_id = sub;
      user_name =
          first_non_empty
            (up.user_info.name ∷ up.user_info.preferred_name ∷ up.user_info.email ∷ sub ∷ []);
      instance_admin_ok = is_instance_admin up.admin_status;
      spaces = spaces;
      step = "spaces";
    }

unfoldable pub grant_of_flow : String → Flow → Grant
grant_of_flow id f = record {
  id = id;
  user_id = f.user_id;
  user_name = f.user_name;
  client_id = f.client_id;
  spaces = selected_spaces f;
  instance_admin = f.want_instance_adm;
  ocis_access = f.ocis_access;
  ocis_refresh = f.ocis_refresh;
  ocis_expiry_unix = f.ocis_expiry_unix;
}

module _ ⦃x : Externals⦄ ⦃b : Encoding⦄ ⦃l : Libraries⦄ ⦃w : Wizard⦄ where
  unfoldable pub flow_of_raw : Result StoreError Bytes → Result FlowError Flow
  flow_of_raw (err e) = err (store_error e)
  flow_of_raw (ok raw) = elim (unmarshal_flow raw) [ none ↦ err bad_flow | some f ↦ ok f ]

  unfoldable pub load_sid : Io → Option String → Store → Result FlowError (String × Flow) × Store
  load_sid io none s = (err no_session, s)
  load_sid io (some sid) s = elim (flow_of_raw (get_session io sid s).0) [
    | err e ↦ (err e, (get_session io sid s).1)
    | ok f ↦ (ok (sid, f), (get_session io sid s).1)
  ]

  unfoldable pub load_flow :
      Io → Handler → Request → Store → Result FlowError (String × Flow) × Store
  load_flow io h r s = load_sid io (read_session_cookie h.oauth r) s

  unfoldable pub save_flow :
      Io → Handler → String → Flow → Store → Result StoreError (Unit {0}) × Store
  save_flow io h sid f s = put_session io sid (marshal f) h.session_ttl s

  unfoldable pub new_flow : Env → Request → Flow
  new_flow env r = record {
    csrf = random_nonce (env.random 2);
    client_id = form_value "client_id" r.query;
    redirect_uri = form_value "redirect_uri" r.query;
    state = form_value "state" r.query;
    code_challenge = form_value "code_challenge" r.query;
    upstream_verifier = random_token (env.random 1);
    resource = form_value "resource" r.query;
    user_id = "";
    user_name = "";
    ocis_access = "";
    ocis_refresh = "";
    ocis_expiry_unix = 0;
    instance_admin_ok = false;
    want_instance_adm = false;
    spaces = [];
    selected = [];
    step = "login";
    tokens = record { access = ""; refresh = "" };
  }

  -- `Authorize` behind its checks. The attributes of the cookie are left out.
  unfoldable pub start_login : Env → Handler → Request → Store → Response × Store
  start_login env h r s =
      let sid = random_nonce (env.random 0) in
      let saved = save_flow (env.io 1) h sid (new_flow env r) s in
      elim saved.0 [
        | err e ↦ (http_error "session store failed" 500, saved.1)
        | ok _ ↦
            let to_login =
              redirect
                (w.auth_code_url sid (b.base64_url (x.sha256 (random_token (env.random 1))))) in
            (
              record to_login {
                headers =
                    ("Set-Cookie", "ocis_mcp_session=" ++ session_cookie h.oauth sid)
                    ∷ to_login.headers;
              },
              saved.1,
            )
      ]

  unfoldable pub authorize_client :
      Env → Handler → Request → Store → Result StoreError Client → Response × Store
  authorize_client env h r s (err e) =
      (http_error "unknown client_id — register at /register first" 400, s)
  authorize_client env h r s (ok c) =
      if not (valid_redirect c (form_value "redirect_uri" r.query))
      then (http_error "redirect_uri is not registered for this client" 400, s)
      else start_login env h r s

  unfoldable pub is_s256 : String → Bool
  is_s256 method = same (map_codes fold_code (codes method)) (codes "s256")

  unfoldable pub authorize : Env → Handler → Request → Store → Response × Store
  authorize env h r s =
      let resource = form_value "resource" r.query in
      let method = form_value "code_challenge_method" r.query in
      if form_value "client_id" r.query == ""
        || form_value "redirect_uri" r.query == ""
        || form_value "code_challenge" r.query == ""
      then (
        http_error "client_id, redirect_uri and code_challenge are required (OAuth 2.1 + PKCE)" 400,
        s,
      )
      else if not (method == "") && not (is_s256 method)
      then (http_error "only S256 PKCE is supported" 400, s)
      else if not (resource == "")
          && not (resource == h.oauth.audience)
          && not (resource == h.oauth.issuer)
      then (http_error "resource does not match this MCP server" 400, s)
      else authorize_client env h r s (get_client (env.io 0) (form_value "client_id" r.query) s)
