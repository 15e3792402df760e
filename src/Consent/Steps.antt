-- ===== src/Consent/Steps.antt =====
-- The endpoints behind the login (internal/consent/handler.go).
use Prim.Native.String.{◌++◌}
use ocis_mcp_server.Base.{
  String, ◌||◌, not, none, some, List, [], ◌∷◌, ◌==◌, nat_eq, length, if◌then◌else◌, Result, ok,
  err,
}
use ocis_mcp_server.Http.{Request, Response, form_value, form_values, http_error, redirect}
use ocis_mcp_server.Grant.Level.{SpaceGrant}
use ocis_mcp_server.Pages.{spaces_page, levels_page, confirm_page, error_page}
use ocis_mcp_server.Oidc.{OidcError, accessible_spaces}
use ocis_mcp_server.Store.Db.{Externals, Store, StoreError, OcisTok, audit}
use ocis_mcp_server.Store.Clients.{Client, get_client}
use ocis_mcp_server.Store.Sessions.{delete_session}
use ocis_mcp_server.Store.Grants.{put_grant}
use ocis_mcp_server.Store.Codes.{put_auth_code}
use ocis_mcp_server.Oauth.Pkce.{Encoding}
use ocis_mcp_server.Oauth.Server.{Env, Libraries}
use ocis_mcp_server.Oauth.Token.{random_token, random_nonce}
use ocis_mcp_server.Consent.Flow.{Flow, Wizard, selected_spaces, csrf_ok}
use ocis_mcp_server.Consent.Handler.{
  Handler, FlowError, Upstream, answer, with_login, allowed_ids, with_levels, grant_of_flow,
  load_flow, save_flow,
}

module _ ⦃x : Externals⦄ ⦃b : Encoding⦄ ⦃l : Libraries⦄ ⦃w : Wizard⦄ where
  -- `Callback` behind the list of spaces
  unfoldable pub logged_in :
      Env
      → Handler
      → Upstream
      → String
      → Flow
      → OcisTok
      → Result OidcError (List SpaceGrant)
      → Store
      → Response × Store
  logged_in env h up sid f tok (err e) s =
      (http_error "logged in, but could not list your spaces" 502, s)
  logged_in env h up sid f tok (ok []) s = (http_error "your account has no spaces to share" 403, s)
  logged_in env h up sid f tok (ok (a ∷ rest)) s =
      let g = with_login tok up (a ∷ rest) f in
      let saved = save_flow (env.io 1) h sid g s in
      elim saved.0 [
        | err e ↦ (http_error "session store failed" 500, saved.1)
        | ok _ ↦ (
          redirect "/consent/spaces",
          audit (env.io 2) "login.ok" g.user_id g.client_id "" saved.1,
        )
      ]

  unfoldable pub exchange_login :
      Env → Handler → Upstream → Request → String → Flow → Store → Response × Store
  exchange_login env h up r sid f s =
      elim (up.exchange (form_value "code" r.query) f.upstream_verifier) [
        | none ↦ (http_error "could not complete oCIS login" 401, s)
        | some tok ↦ logged_in env h up sid f tok (accessible_spaces up.drives) s
      ]

  unfoldable pub callback_flow :
      Env
      → Handler
      → Upstream
      → Request
      → Result FlowError (String × Flow) × Store
      → Response × Store
  callback_flow env h up r (err e, s) =
      (http_error "login session mismatch — start again from your MCP client" 400, s)
  callback_flow env h up r (ok (sid, f), s) =
      if not (sid == form_value "state" r.query)
      then (http_error "login session mismatch — start again from your MCP client" 400, s)
      else exchange_login env h up r sid f s

  -- The text of the error of the Graph API is left out of the answer that quotes it.
  unfoldable pub callback : Env → Handler → Upstream → Request → Store → Response × Store
  callback env h up r s =
      if not (form_value "error" r.query == "")
      then (http_error ("login failed: " ++ form_value "error" r.query) 401, s)
      else callback_flow env h up r (load_flow (env.io 0) h r s)

  abbrev pub expired : Response
  expired = http_error "session expired" 401

  unfoldable pub show_spaces : Result FlowError (String × Flow) × Store → Response × Store
  show_spaces (err e, s) = (http_error "session expired — reconnect your MCP client" 401, s)
  show_spaces (ok (sid, f), s) = (answer (spaces_page f.csrf f.spaces f.selected), s)

  unfoldable pub spaces_get : Env → Handler → Request → Store → Response × Store
  spaces_get env h r s = show_spaces (load_flow (env.io 0) h r s)

  unfoldable pub choose_spaces :
      Env → Handler → Request → Result FlowError (String × Flow) × Store → Response × Store
  choose_spaces env h r (err e, s) = (expired, s)
  choose_spaces env h r (ok (sid, f), s) =
      let ids = form_values "space" r.form in
      if r.is_malformed || not (csrf_ok (form_value "csrf" r.form) f)
      then (http_error "invalid form" 400, s)
      else if nat_eq (length ids) 0
      then (answer (error_page "Select at least one space."), s)
      else if nat_eq (length (allowed_ids f ids)) 0
      then (answer (error_page "Select at least one space you have access to."), s)
      else (
        redirect "/consent/levels",
        (save_flow (env.io 1) h sid (record f { selected = allowed_ids f ids; step = "levels" })
            s).1,
      )

  unfoldable pub spaces_post : Env → Handler → Request → Store → Response × Store
  spaces_post env h r s = choose_spaces env h r (load_flow (env.io 0) h r s)

  unfoldable pub show_levels : Result FlowError (String × Flow) × Store → Response × Store
  show_levels (err e, s) = (expired, s)
  show_levels (ok (sid, f), s) =
      (answer (levels_page f.csrf (selected_spaces f) f.instance_admin_ok f.want_instance_adm), s)

  unfoldable pub levels_get : Env → Handler → Request → Store → Response × Store
  levels_get env h r s = show_levels (load_flow (env.io 0) h r s)

  unfoldable pub choose_levels :
      Env → Handler → Request → Result FlowError (String × Flow) × Store → Response × Store
  choose_levels env h r (err e, s) = (expired, s)
  choose_levels env h r (ok (sid, f), s) =
      if r.is_malformed || not (csrf_ok (form_value "csrf" r.form) f)
      then (http_error "invalid form" 400, s)
      else (redirect "/consent/confirm", (save_flow (env.io 1) h sid (with_levels r.form f) s).1)

  unfoldable pub levels_post : Env → Handler → Request → Store → Response × Store
  levels_post env h r s = choose_levels env h r (load_flow (env.io 0) h r s)

  -- the name of the client, or its identifier
  unfoldable pub shown_name : Result StoreError Client → Flow → String
  shown_name (err e) f = f.client_id
  shown_name (ok c) f = if c.name == "" then f.client_id else c.name

  unfoldable pub show_confirm : Env → Result FlowError (String × Flow) × Store → Response × Store
  show_confirm env (err e, s) = (expired, s)
  show_confirm env (ok (sid, f), s) = (
    answer (
        confirm_page f.csrf (shown_name (get_client (env.io 1) f.client_id s) f) (selected_spaces f)
          f.want_instance_adm),
    s,
  )

  unfoldable pub confirm_get : Env → Handler → Request → Store → Response × Store
  confirm_get env h r s = show_confirm env (load_flow (env.io 0) h r s)

  -- `ConfirmPOST` behind the PutAuthCode
  unfoldable pub send_code : Env → String → Flow → String → String → Store → Response × Store
  send_code env sid f grant_id code s =
      let after =
        audit (env.io 4) "consent.granted" f.user_id f.client_id grant_id
          (delete_session (env.io 3) sid s) in
      elim (w.with_query f.redirect_uri
        (("code", code) ∷ (if not (f.state == "") then ("state", f.state) ∷ [] else []))) [
          | none ↦ (http_error "bad redirect" 400, after)
          | some url ↦ (redirect url, after)
        ]

  unfoldable pub issue_code : Env → Handler → String → Flow → String → Store → Response × Store
  issue_code env h sid f grant_id s =
      let code = random_token (env.random 1) in
      let stored =
        put_auth_code (env.io 2) code grant_id f.client_id f.redirect_uri f.code_challenge
          h.oauth.code_ttl s in
      elim stored.0 [
        | err e ↦ (http_error "could not issue code" 500, stored.1)
        | ok _ ↦ send_code env sid f grant_id code stored.1
      ]

  unfoldable pub give_grant : Env → Handler → String → Flow → Store → Response × Store
  give_grant env h sid f s =
      let grant_id = random_nonce (env.random 0) in
      let stored = put_grant (env.io 1) (grant_of_flow grant_id f) s in
      elim stored.0 [
        | err e ↦ (http_error "could not save grant" 500, stored.1)
        | ok _ ↦ issue_code env h sid f grant_id stored.1
      ]

  unfoldable pub confirm_flow :
      Env → Handler → Request → Result FlowError (String × Flow) × Store → Response × Store
  confirm_flow env h r (err e, s) = (expired, s)
  confirm_flow env h r (ok (sid, f), s) =
      if r.is_malformed || not (csrf_ok (form_value "csrf" r.form) f)
      then (http_error "invalid form" 400, s)
      else give_grant env h sid f s

  unfoldable pub confirm_post : Env → Handler → Request → Store → Response × Store
  confirm_post env h r s = confirm_flow env h r (load_flow (env.io 0) h r s)
