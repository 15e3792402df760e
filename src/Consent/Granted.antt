-- ===== src/Consent/Granted.antt =====
-- The grant of the last page (internal/consent/handler.go).
use ocis_mcp_server.Base.{
  String, ◌≡◌, inl, inr, ◌∙◌, true, false, not, some, List, [], ◌∷◌, ◌==◌, length, if◌then◌else◌,
  arith, All, Option-cases, ok, Result-cases,
}
use ocis_mcp_server.Base.Bytes.{Bytes}
use ocis_mcp_server.Grant.Level.{Grant}
use ocis_mcp_server.Http.{Request, form_value}
use ocis_mcp_server.Oidc.{GraphDrive}
use ocis_mcp_server.Secretbox.{nonce_size}
use ocis_mcp_server.Store.Db.{Externals, Io, Store, migrate}
use ocis_mcp_server.Store.Sessions.{delete_session}
use ocis_mcp_server.Store.Grants.{put_grant, put_grant_at, get_grant}
use ocis_mcp_server.Store.Codes.{put_auth_code}
use ocis_mcp_server.Store.Frame.{
  SameGrants, delete_session-SameGrants, audit-SameGrants, put_auth_code-SameGrants,
}
use ocis_mcp_server.Store.Roundtrip.{get_grant-put_grant_at}
use ocis_mcp_server.Oauth.Pkce.{Encoding}
use ocis_mcp_server.Oauth.Server.{Env, Libraries}
use ocis_mcp_server.Oauth.Token.{random_token, random_nonce}
use ocis_mcp_server.Consent.Flow.{Flow, Wizard, csrf_ok}
use ocis_mcp_server.Consent.Handler.{Handler, grant_of_flow, load_flow}
use ocis_mcp_server.Consent.Steps.{send_code, issue_code, give_grant, confirm_flow, confirm_post}
use ocis_mcp_server.Consent.Ceiling.{IsAllowed, IsCapped-IsAllowed, grant_of_flow-All}
use ocis_mcp_server.Consent.Reachable.{load_flow-IsWithin}
use ocis_mcp_server.Consent.Requests.{
  Call, Fits, serve_all, serve_all-IsCappedStore, migrate-IsCappedStore,
}

module _ ⦃x : Externals⦄ ⦃b : Encoding⦄ ⦃l : Libraries⦄ ⦃w : Wizard⦄ where
  get_grant-same :
      (io : Io) (id : String) (s t : Store) → SameGrants s t → get_grant io id t ≡ get_grant io id s
  unfolding get_grant
  get_grant-same io id s t same = ground (arith, same.col_key, same.grants)

  SameGrants-trans : {s t u : Store} → SameGrants s t → SameGrants t u → SameGrants s u
  SameGrants-trans p q = record { col_key = q.col_key ∙ p.col_key; grants = q.grants ∙ p.grants }

  send_code-SameGrants :
      (env : Env) (sid : String) (f : Flow) (grant_id code : String) (s : Store)
      → SameGrants s (send_code env sid f grant_id code s).1
  unfolding send_code
  send_code-SameGrants env sid f grant_id code s =
      let kept = SameGrants-trans (delete_session-SameGrants (env.io 3) sid s) (
        audit-SameGrants (env.io 4) "consent.granted" f.user_id f.client_id grant_id
          (delete_session (env.io 3) sid s)) in
      let query : List (String × String) =
        ("code", code) ∷ (if not (f.state == "") then ("state", f.state) ∷ [] else []) in
      elim (Option-cases (w.with_query f.redirect_uri query)) [
        | inl e ↦ rw (e, send_code) kept
        | inr (url, e) ↦ rw (e, send_code) kept
      ]

  issue_code-SameGrants :
      (env : Env) (h : Handler) (sid : String) (f : Flow) (grant_id : String) (s : Store)
      → SameGrants s (issue_code env h sid f grant_id s).1
  unfolding issue_code
  issue_code-SameGrants env h sid f grant_id s =
      let code = random_token (env.random 1) in
      let stored =
        put_auth_code (env.io 2) code grant_id f.client_id f.redirect_uri f.code_challenge
          h.oauth.code_ttl s in
      let kept =
        put_auth_code-SameGrants (env.io 2) code grant_id f.client_id f.redirect_uri
          f.code_challenge h.oauth.code_ttl s in
      elim (Result-cases stored.0) [
        | inl (u, e) ↦
            rw (e, issue_code)
              (SameGrants-trans kept (send_code-SameGrants env sid f grant_id code stored.1))
        | inr (bad, e) ↦ rw (e, issue_code) kept
      ]

  named_grant :
      (env : Env) (f : Flow) (t : Store) (nonce : Bytes) (io : Io)
      → (env.io 1).nonce ≡ some nonce
      → length nonce ≡ nonce_size
      → (put_grant_at 0 (env.io 1) (grant_of_flow (random_nonce (env.random 0)) f) t).0 ≡ ok tt
      → io.fails 0 ≡ false
      → get_grant io
          (random_nonce (env.random 0))
          (put_grant_at 0 (env.io 1) (grant_of_flow (random_nonce (env.random 0)) f) t).1
        ≡ ok (grant_of_flow (random_nonce (env.random 0)) f)
  unfolding grant_of_flow
  named_grant env f t nonce io drawn size stores reads =
      get_grant-put_grant_at 0 (env.io 1) io nonce (grant_of_flow (random_nonce (env.random 0)) f) t
        drawn size stores reads

  -- The grant of an answer that is a redirect was stored, and only calls that keep grants follow.
  gave_grant :
      (env : Env) (h : Handler) (sid : String) (f : Flow) (s : Store)
      → (give_grant env h sid f s).0.status ≡ 302
      → let stored = put_grant_at 0 (env.io 1) (grant_of_flow (random_nonce (env.random 0)) f) s in
        (stored.0 ≡ ok tt)
        × ((io : Io) (id : String)
            → get_grant io id (give_grant env h sid f s).1 ≡ get_grant io id stored.1)
  unfolding give_grant put_grant
  gave_grant env h sid f s e =
      let stored = put_grant_at 0 (env.io 1) (grant_of_flow (random_nonce (env.random 0)) f) s in
      elim (Result-cases stored.0) [
        | inl (u, stores) ↦ (
          stores,
          λ io id.
              rw (stores, give_grant)
                (get_grant-same io id stored.1 _
                  (issue_code-SameGrants env h sid f (random_nonce (env.random 0)) stored.1)),
        )
        | inr (bad, failed) ↦ absurd (ground (arith, failed))
      ]

  confirmed :
      (env : Env) (h : Handler) (r : Request) (s : Store)
      → (confirm_post env h r s).0.status ≡ 302
      → (sid : String) × (f : Flow) × ((load_flow (env.io 0) h r s).0 ≡ ok (sid, f))
        × (csrf_ok (form_value "csrf" r.form) f ≡ true)
        × (confirm_post env h r s ≡ give_grant env h sid f (load_flow (env.io 0) h r s).1)
  unfolding confirm_post confirm_flow
  confirmed env h r s e = elim (Result-cases (load_flow (env.io 0) h r s).0) [
    | inl ((sid, f), loads) ↦ (sid, f, loads, ground (arith, loads), ground (arith, loads))
    | inr (bad, failed) ↦ absurd (ground (arith, failed))
  ]

  -- After any requests to the wizard and any calls of the store by the other endpoints, from an empty
  -- database: when the last page answers with a redirect, the grant that was stored is readable, and
  -- each of its spaces is a drive that an answer of oCIS listed at a login, with a level that the
  -- answer gives on it: at most read, or at most the level of a role that the answer lists on the
  -- drive, or up to admin on a personal drive without a role that gives a level.
  pub granted_within_ceiling :
      (D : GraphDrive → Type 0) (key : Bytes) (h : Handler) (calls : List (Env × Call))
      → All (Fits D) calls
      → (env : Env) (r : Request) (nonce : Bytes) (io : Io) → (env.io 1).nonce ≡ some nonce
      → length nonce ≡ nonce_size
      → io.fails 0 ≡ false
      → (confirm_post env h r (serve_all h calls (migrate key))).0.status ≡ 302
      → (g : Grant) × (get_grant io
            (random_nonce (env.random 0))
            (confirm_post env h r (serve_all h calls (migrate key))).1
          ≡ ok g)
        × All (IsAllowed D) g.spaces
  granted_within_ceiling D key h calls fits env r nonce io drawn size reads e =
      let s = serve_all h calls (migrate key) in
      let capped =
        serve_all-IsCappedStore D h calls (migrate key) fits (migrate-IsCappedStore D key) in
      let (sid, f, loads, token, same) = confirmed env h r s e in
      let t = (load_flow (env.io 0) h r s).1 in
      let g = grant_of_flow (random_nonce (env.random 0)) f in
      let (stores, after) = gave_grant env h sid f t (rw same at e) in
      (
        g,
        rw (same, after io (random_nonce (env.random 0)))
            (named_grant env f t nonce io drawn size stores reads),
        IsCapped-IsAllowed D g.spaces (
            grant_of_flow-All D (random_nonce (env.random 0)) f
              (load_flow-IsWithin D (env.io 0) h r s sid f capped loads)),
      )
