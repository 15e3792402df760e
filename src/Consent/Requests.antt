-- ===== src/Consent/Requests.antt =====
-- Sequences of requests to the wizard (internal/consent/handler.go), with the calls of the store
-- that the other endpoints make between them.
use ocis_mcp_server.Base.{
  ℕ, String, ◌≡◌, refl, inl, inr, not, ◌&&◌, ◌||◌, List, [], ◌∷◌, ◌==◌, nat_eq, length,
  if◌then◌else◌, if_elim, arith, All, Option-cases, Result, ok, err, Result-cases,
}
use ocis_mcp_server.Base.Bytes.{Bytes}
use ocis_mcp_server.Base.Table.{find}
use ocis_mcp_server.Grant.Level.{SpaceGrant}
use ocis_mcp_server.Http.{Request, Response, form_value, form_values}
use ocis_mcp_server.Oidc.{OidcError, accessible_spaces}
use ocis_mcp_server.Oidc.{GraphDrive}
use ocis_mcp_server.Oidc.Given.{IsListed, Lists, accessible_spaces-IsListed}
use ocis_mcp_server.Store.Db.{Externals, Store, OcisTok, StoreError, migrate}
use ocis_mcp_server.Store.Clients.{Client, get_client, valid_redirect}
use ocis_mcp_server.Store.Trace.{Op, step}
use ocis_mcp_server.Store.Sessions.{delete_session}
use ocis_mcp_server.Store.Grants.{put_grant, put_grant_at}
use ocis_mcp_server.Store.Codes.{put_auth_code}
use ocis_mcp_server.Store.Shrinks.{
  delete_session-Shrinks, audit-Shrinks, put_grant_at-Shrinks, put_auth_code-Shrinks, Foreign,
  step-Shrinks,
}
use ocis_mcp_server.Oauth.Pkce.{Encoding}
use ocis_mcp_server.Oauth.Server.{Env, Libraries}
use ocis_mcp_server.Oauth.Token.{random_token, random_nonce}
use ocis_mcp_server.Consent.Flow.{Flow, Wizard, csrf_ok}
use ocis_mcp_server.Consent.Handler.{
  Handler, FlowError, Upstream, with_login, with_levels, allowed_ids, grant_of_flow, load_flow,
  save_flow, new_flow, start_login, authorize_client, authorize, is_s256,
}
use ocis_mcp_server.Consent.Steps.{
  logged_in, exchange_login, callback_flow, callback, show_spaces, spaces_get, choose_spaces,
  spaces_post, show_levels, levels_get, choose_levels, levels_post, show_confirm, confirm_get,
  send_code, issue_code, give_grant, confirm_flow, confirm_post,
}
use ocis_mcp_server.Consent.Ceiling.{IsWithin, with_levels-IsWithin, with_login-IsWithin}
use ocis_mcp_server.Consent.Reachable.{
  IsCappedStore, DrawsNonces, shrunk, load_flow-IsWithin, load_flow-Shrinks,
  save_flow-IsCappedStore,
}

pub data Call : Type 0 where
  authorizes : Request → Call
  calls_back : Upstream → Request → Call
  views_spaces : Request → Call
  chooses_spaces : Request → Call
  views_levels : Request → Call
  chooses_levels : Request → Call
  views_confirm : Request → Call
  confirms : Request → Call
  -- a call of the store by another endpoint
  other : Op → Call

module _ ⦃x : Externals⦄ ⦃b : Encoding⦄ ⦃l : Libraries⦄ ⦃w : Wizard⦄ where
  unfoldable pub serve : Env → Handler → Call → Store → Store
  serve env h (authorizes r) s = (authorize env h r s).1
  serve env h (calls_back up r) s = (callback env h up r s).1
  serve env h (views_spaces r) s = (spaces_get env h r s).1
  serve env h (chooses_spaces r) s = (spaces_post env h r s).1
  serve env h (views_levels r) s = (levels_get env h r s).1
  serve env h (chooses_levels r) s = (levels_post env h r s).1
  serve env h (views_confirm r) s = (confirm_get env h r s).1
  serve env h (confirms r) s = (confirm_post env h r s).1
  serve env h (other op) s = step (env.io 0) op s

  unfoldable pub serve_all : Handler → List (Env × Call) → Store → Store
  serve_all h [] s = s
  serve_all h ((env, call) ∷ rest) s = serve_all h rest (serve env h call s)

module _ ⦃x : Externals⦄ ⦃b : Encoding⦄ ⦃l : Libraries⦄ ⦃w : Wizard⦄ (D : GraphDrive → Type 0) where
  -- Nonces have their size, an answer at a login lists only these drives, and no other endpoint writes
  -- a session.
  abbrev pub Fits : Env × Call → Type 0
  Fits (env, other op) = Foreign op
  Fits (env, calls_back up r) = ((k : ℕ) → DrawsNonces (env.io k)) × Lists D up.drives
  Fits (env, call) = (k : ℕ) → DrawsNonces (env.io k)

  abbrev LeavesCapped : Response × Store → Type 0
  LeavesCapped p = IsCappedStore D p.1

  new_flow-IsWithin : (env : Env) (r : Request) → IsWithin D (new_flow env r)
  unfolding new_flow
  new_flow-IsWithin env r = tt

  module _ (env : Env) (h : Handler) (draws : (k : ℕ) → DrawsNonces (env.io k)) where
    start_login-IsCappedStore :
        (r : Request) (s : Store) → IsCappedStore D s → IsCappedStore D (start_login env h r s).1
    unfolding start_login
    start_login-IsCappedStore r s g =
        let after =
          save_flow-IsCappedStore D (env.io 1) h (random_nonce (env.random 0)) (new_flow env r) s
            (new_flow-IsWithin env r) (draws 1) g in
        elim (Result-cases
          (save_flow (env.io 1) h (random_nonce (env.random 0)) (new_flow env r) s).0) [
            | inl (u, e) ↦ rw (e, start_login) after
            | inr (bad, e) ↦ rw (e, start_login) after
          ]

    authorize_client-IsCappedStore :
        (r : Request) (s : Store) (c : Result StoreError Client)
        → IsCappedStore D s
        → IsCappedStore D (authorize_client env h r s c).1
    unfolding authorize_client
    authorize_client-IsCappedStore r s (err e) g = g
    authorize_client-IsCappedStore r s (ok c) g =
        if_elim LeavesCapped (not (valid_redirect c (form_value "redirect_uri" r.query))) g
          (start_login-IsCappedStore r s g)

    authorize-IsCappedStore :
        (r : Request) (s : Store) → IsCappedStore D s → IsCappedStore D (authorize env h r s).1
    unfolding authorize
    authorize-IsCappedStore r s g =
        let resource = form_value "resource" r.query in
        let method = form_value "code_challenge_method" r.query in
        let incomplete =
          form_value "client_id" r.query == ""
          || form_value "redirect_uri" r.query == ""
          || form_value "code_challenge" r.query == "" in
        let foreign =
          not (resource == "")
          && not (resource == h.oauth.audience)
          && not (resource == h.oauth.issuer) in
        if_elim LeavesCapped incomplete g (
          if_elim LeavesCapped (not (method == "") && not (is_s256 method)) g (
            if_elim LeavesCapped foreign g (
              authorize_client-IsCappedStore r s
                (get_client (env.io 0) (form_value "client_id" r.query) s) g)))

    logged_in-IsCappedStore :
        (up : Upstream) (sid : String) (f : Flow) (tok : OcisTok)
        (spaces : Result OidcError (List SpaceGrant)) (s : Store)
        → ((ss : List SpaceGrant) → spaces ≡ ok ss → All (IsListed D) ss)
        → IsCappedStore D s
        → IsCappedStore D (logged_in env h up sid f tok spaces s).1
    unfolding logged_in
    logged_in-IsCappedStore up sid f tok (err e) s offered g = g
    logged_in-IsCappedStore up sid f tok (ok []) s offered g = g
    logged_in-IsCappedStore up sid f tok (ok (a ∷ rest)) s offered g =
        let new = with_login tok up (a ∷ rest) f in
        let after =
          save_flow-IsCappedStore D (env.io 1) h sid new s
            (with_login-IsWithin D tok up (a ∷ rest) f (offered (a ∷ rest) refl)) (draws 1) g in
        elim (Result-cases (save_flow (env.io 1) h sid new s).0) [
          | inl (u, e) ↦
              rw (e, logged_in)
                (shrunk D
                  (audit-Shrinks (env.io 2) "login.ok" new.user_id new.client_id ""
                    (save_flow (env.io 1) h sid new s).1)
                  after)
          | inr (bad, e) ↦ rw (e, logged_in) after
        ]

    exchange_login-IsCappedStore :
        (up : Upstream) (r : Request) (sid : String) (f : Flow) (s : Store)
        → Lists D up.drives
        → IsCappedStore D s
        → IsCappedStore D (exchange_login env h up r sid f s).1
    unfolding exchange_login
    exchange_login-IsCappedStore up r sid f s lists g =
        elim (Option-cases (up.exchange (form_value "code" r.query) f.upstream_verifier)) [
          | inl e ↦ rw (e, exchange_login) g
          | inr (tok, e) ↦
              rw (e, exchange_login)
                (logged_in-IsCappedStore up sid f tok (accessible_spaces up.drives) s
                  (λ ss e. accessible_spaces-IsListed D up.drives ss lists e) g)
        ]

    -- what a handler does behind its load, for each way that the load goes
    after_load :
        (r : Request) (s : Store) (k : Result FlowError (String × Flow) × Store → Response × Store)
        → IsCappedStore D s
        → ((e : FlowError) (t : Store) → IsCappedStore D t → IsCappedStore D (k (err e, t)).1)
        → ((sid : String) (f : Flow) (t : Store)
            → IsWithin D f
            → IsCappedStore D t
            → IsCappedStore D (k (ok (sid, f), t)).1)
        → IsCappedStore D (k (load_flow (env.io 0) h r s)).1
    after_load r s k g failed loaded =
        let kept = shrunk D (load_flow-Shrinks D (env.io 0) h r s) g in
        elim (Result-cases (load_flow (env.io 0) h r s).0) [
          | inl ((sid, f), e) ↦ rw e (
              loaded sid f (load_flow (env.io 0) h r s).1
                (load_flow-IsWithin D (env.io 0) h r s sid f g e) kept)
          | inr (bad, e) ↦ rw e (failed bad (load_flow (env.io 0) h r s).1 kept)
        ]

    callback-IsCappedStore :
        (up : Upstream) (r : Request) (s : Store)
        → Lists D up.drives
        → IsCappedStore D s
        → IsCappedStore D (callback env h up r s).1
    unfolding callback callback_flow
    callback-IsCappedStore up r s lists g =
        if_elim LeavesCapped (not (form_value "error" r.query == "")) g (
          after_load r s (callback_flow env h up r) g (λ e t k. k)
            (λ sid f t within k.
              if_elim LeavesCapped (not (sid == form_value "state" r.query)) k
                (exchange_login-IsCappedStore up r sid f t lists k)))

    views_keep :
        (r : Request) (s : Store)
        → IsCappedStore D s
        → IsCappedStore D (spaces_get env h r s).1
          × IsCappedStore D (levels_get env h r s).1
          × IsCappedStore D (confirm_get env h r s).1
    unfolding spaces_get show_spaces levels_get show_levels confirm_get show_confirm
    views_keep r s g = (
      after_load r s show_spaces g (λ e t k. k) (λ sid f t within k. k),
      after_load r s show_levels g (λ e t k. k) (λ sid f t within k. k),
      after_load r s (show_confirm env) g (λ e t k. k) (λ sid f t within k. k),
    )

    spaces_post-IsCappedStore :
        (r : Request) (s : Store) → IsCappedStore D s → IsCappedStore D (spaces_post env h r s).1
    unfolding spaces_post choose_spaces
    spaces_post-IsCappedStore r s g =
        after_load r s (choose_spaces env h r) g (λ e t k. k)
          (λ sid f t within k.
            if_elim LeavesCapped (r.is_malformed || not (csrf_ok (form_value "csrf" r.form) f)) k (
              if_elim LeavesCapped (nat_eq (length (form_values "space" r.form)) 0) k (
                if_elim LeavesCapped
                  (nat_eq (length (allowed_ids f (form_values "space" r.form))) 0) k
                  (save_flow-IsCappedStore D (env.io 1) h sid
                    (record f {
                      selected = allowed_ids f (form_values "space" r.form);
                      step = "levels";
                    })
                    t within (draws 1) k))))

    levels_post-IsCappedStore :
        (r : Request) (s : Store) → IsCappedStore D s → IsCappedStore D (levels_post env h r s).1
    unfolding levels_post choose_levels
    levels_post-IsCappedStore r s g =
        after_load r s (choose_levels env h r) g (λ e t k. k)
          (λ sid f t within k.
            if_elim LeavesCapped (r.is_malformed || not (csrf_ok (form_value "csrf" r.form) f)) k (
              save_flow-IsCappedStore D (env.io 1) h sid (with_levels r.form f) t
                (with_levels-IsWithin D r.form f within) (draws 1) k))

    send_code-IsCappedStore :
        (sid : String) (f : Flow) (grant_id code : String) (s : Store)
        → IsCappedStore D s
        → IsCappedStore D (send_code env sid f grant_id code s).1
    unfolding send_code
    send_code-IsCappedStore sid f grant_id code s g =
        let kept =
          shrunk D
            (audit-Shrinks (env.io 4) "consent.granted" f.user_id f.client_id grant_id
              (delete_session (env.io 3) sid s))
            (shrunk D (delete_session-Shrinks (env.io 3) sid s) g) in
        let query : List (String × String) =
          ("code", code) ∷ (if not (f.state == "") then ("state", f.state) ∷ [] else []) in
        elim (Option-cases (w.with_query f.redirect_uri query)) [
          | inl e ↦ rw (e, send_code) kept
          | inr (url, e) ↦ rw (e, send_code) kept
        ]

    give_grant-IsCappedStore :
        (sid : String) (f : Flow) (s : Store)
        → IsCappedStore D s
        → IsCappedStore D (give_grant env h sid f s).1
    unfolding give_grant issue_code put_grant
    give_grant-IsCappedStore sid f s g =
        let grant_id = random_nonce (env.random 0) in
        let code = random_token (env.random 1) in
        let stored = put_grant_at 0 (env.io 1) (grant_of_flow grant_id f) s in
        let kept = shrunk D (put_grant_at-Shrinks 0 (env.io 1) (grant_of_flow grant_id f) s) g in
        let coded =
          put_auth_code (env.io 2) code grant_id f.client_id f.redirect_uri f.code_challenge
            h.oauth.code_ttl stored.1 in
        let later =
          shrunk D
            (put_auth_code-Shrinks (env.io 2) code grant_id f.client_id f.redirect_uri
              f.code_challenge h.oauth.code_ttl stored.1)
            kept in
        elim (Result-cases stored.0) [
          | inl (u, e) ↦ elim (Result-cases coded.0) [
            | inl (v, d) ↦
                rw (e, give_grant, issue_code, d)
                  (send_code-IsCappedStore sid f grant_id code coded.1 later)
            | inr (bad, d) ↦ rw (e, give_grant, issue_code, d) later
          ]
          | inr (bad, e) ↦ rw (e, give_grant) kept
        ]

    confirm_post-IsCappedStore :
        (r : Request) (s : Store) → IsCappedStore D s → IsCappedStore D (confirm_post env h r s).1
    unfolding confirm_post confirm_flow
    confirm_post-IsCappedStore r s g =
        after_load r s (confirm_flow env h r) g (λ e t k. k)
          (λ sid f t within k.
            if_elim LeavesCapped (r.is_malformed || not (csrf_ok (form_value "csrf" r.form) f)) k
              (give_grant-IsCappedStore sid f t k))

  serve-IsCappedStore :
      (env : Env) (h : Handler) (call : Call) (s : Store)
      → Fits (env, call)
      → IsCappedStore D s
      → IsCappedStore D (serve env h call s)
  unfolding serve
  serve-IsCappedStore env h (authorizes r) s p g = authorize-IsCappedStore env h p r s g
  serve-IsCappedStore env h (calls_back up r) s (p, lists) g =
      callback-IsCappedStore env h p up r s lists g
  serve-IsCappedStore env h (views_spaces r) s p g = (views_keep env h p r s g).0
  serve-IsCappedStore env h (chooses_spaces r) s p g = spaces_post-IsCappedStore env h p r s g
  serve-IsCappedStore env h (views_levels r) s p g = (views_keep env h p r s g).1
  serve-IsCappedStore env h (chooses_levels r) s p g = levels_post-IsCappedStore env h p r s g
  serve-IsCappedStore env h (views_confirm r) s p g = (views_keep env h p r s g).2
  serve-IsCappedStore env h (confirms r) s p g = confirm_post-IsCappedStore env h p r s g
  serve-IsCappedStore env h (other op) s p g = shrunk D (step-Shrinks (env.io 0) op s p) g

  pub serve_all-IsCappedStore :
      (h : Handler) (calls : List (Env × Call)) (s : Store)
      → All Fits calls
      → IsCappedStore D s
      → IsCappedStore D (serve_all h calls s)
  unfolding serve_all
  serve_all-IsCappedStore h [] s p g = g
  serve_all-IsCappedStore h ((env, call) ∷ rest) s (p, ps) g =
      serve_all-IsCappedStore h rest (serve env h call s) ps (serve-IsCappedStore env h call s p g)

  pub migrate-IsCappedStore : (key : Bytes) → IsCappedStore D (migrate key)
  unfolding migrate find
  migrate-IsCappedStore key = record {
    flows = λ id row payload f found opens reads. absurd (ground arith);
  }
