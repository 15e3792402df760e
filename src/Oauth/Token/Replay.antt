-- ===== src/Oauth/Token/Replay.antt =====
-- Using a code again, and using the tokens of an exchange (internal/oauth/server.go).
use ocis_mcp_server.Base.{
  ℕ, ◌+◌, ◌≤◌, ◌<◌, String, ◌≡◌, ◌≢◌, refl, sym, subst, ap, ◌∙◌, inl, inr, false, Option-cases,
  some, List, eq_refl, arith, ok,
}
use ocis_mcp_server.Base.Table.{find, insert, find-upsert, insert-eq-some}
use ocis_mcp_server.Http.{Request, Response, form_value}
use ocis_mcp_server.Store.Db.{Externals, Io, Store, hash_token}
use ocis_mcp_server.Store.Codes.{
  fresh_token, put_refresh, use_refresh, consume_auth_code, consume_refresh,
}
use ocis_mcp_server.Store.Frame.{audit-SameCodes, put_refresh-auth_codes}
use ocis_mcp_server.Store.SingleUse.Code.{IsSpent, step-IsSpent, consumed-IsSpent, spent_refused}
use ocis_mcp_server.Store.Trace.{Op, run, run_induction}
use ocis_mcp_server.Oauth.Pkce.{Encoding}
use ocis_mcp_server.Oauth.Jwt.{
  JwtLibrary, AccessClaims, leeway, access_claims, parse_access, parse_access-sign_access,
}
use ocis_mcp_server.Oauth.Server.{Server, Env}
use ocis_mcp_server.Oauth.Token.{random_token, random_nonce, signed, token_code}
use ocis_mcp_server.Oauth.Token.Issuing.{Issued, CodeExchanged, token_code-CodeExchanged}

module _ ⦃x : Externals⦄ ⦃b : Encoding⦄ ⦃j : JwtLibrary⦄ where
  exchanged-auth_codes :
      (env : Env) (srv : Server) (r : Request) (s : Store)
      → CodeExchanged env srv r s
      → (token_code env srv r s).1.auth_codes
        ≡ (consume_auth_code (env.io 0) (form_value "code" r.form) s).1.auth_codes
  exchanged-auth_codes env srv r s c =
      let g = c.issued.grant in
      let t = (consume_auth_code (env.io 0) (form_value "code" r.form) s).1 in
      let client = form_value "client_id" r.form in
      let refresh = random_token (env.random 1) in
      let p = put_refresh (env.io 2) refresh c.row.grant_id client srv.refresh_ttl t in
      ap (λ (u : Store). u.auth_codes) c.issued.state
      ∙ (audit-SameCodes (env.io 3) "token.issue" g.user_id client c.row.grant_id p.1).auth_codes
      ∙ put_refresh-auth_codes (env.io 2) refresh c.row.grant_id client srv.refresh_ttl t

  spent_code_refused :
      (env : Env) (srv : Server) (r : Request) (s : Store)
      → IsSpent (hash_token (form_value "code" r.form)) s.auth_codes
      → (token_code env srv r s).0.status ≢ 200
  spent_code_refused env srv r s spent h =
      let c = token_code-CodeExchanged env srv r s h in
      spent_refused (env.io 0) (form_value "code" r.form) s c.row spent c.consumed

  -- After a code exchange that answered 200, and whose UPDATE was carried out, no exchange of the same
  -- code answers 200: whoever presents it, with whatever verifier, and whatever the store did since.
  pub token_code_once :
      (env : Env) (srv : Server) (r : Request) (s : Store)
      → (token_code env srv r s).0.status ≡ 200
      → (env.io 0).fails 1 ≡ false
      → (ops : List (Io × Op)) (env' : Env) (r' : Request)
      → form_value "code" r'.form ≡ form_value "code" r.form
      → (token_code env' srv r' (run ops (token_code env srv r s).1)).0.status ≢ 200
  token_code_once env srv r s h written ops env' r' again =
      let c = token_code-CodeExchanged env srv r s h in
      let code = form_value "code" r.form in
      let spent =
        subst (λ t. IsSpent (hash_token code) t) (sym (exchanged-auth_codes env srv r s c))
          (consumed-IsSpent (env.io 0) code s c.row c.consumed written) in
      spent_code_refused env' srv r' (run ops (token_code env srv r s).1) (
        subst (λ k. IsSpent (hash_token k) (run ops (token_code env srv r s).1).auth_codes)
          (sym again)
          (run_induction (λ t. IsSpent (hash_token code) t.auth_codes)
            (λ io op t. step-IsSpent (hash_token code) io op t) ops (token_code env srv r s).1
            spent))

  -- The access token of an answer is accepted at /mcp until its lifetime and the leeway are over, and
  -- names the grant and the client of the answer.
  pub issued_access_accepted :
      (env : Env) (srv : Server) (grant_id client_id : String) (s : Store)
      (answer : Response × Store) (i : Issued env srv grant_id client_id s answer) (later : ℕ)
      → grant_id ≢ ""
      → (env.io 1).now ≤ later
      → later < (env.io 1).now + srv.access_ttl + leeway
      → (c : AccessClaims) × (parse_access later srv.jwt_key srv.issuer srv.audience i.access
          ≡ ok c)
        × (c.grant_id ≡ grant_id)
        × (c.client_id ≡ client_id)
        × (c.subject ≡ i.grant.user_id)
  unfolding signed access_claims
  issued_access_accepted env srv grant_id client_id s answer i later named from until = (
    access_claims (env.io 1).now srv.issuer srv.audience i.grant.user_id grant_id client_id
        srv.access_ttl (random_nonce (env.random 0)),
    parse_access-sign_access (env.io 1).now later srv.jwt_key srv.issuer srv.audience
        i.grant.user_id grant_id client_id srv.access_ttl (random_nonce (env.random 0)) i.access
        i.signs named from until,
    refl,
    refl,
    refl,
  )

  put_refresh-stored :
      (io : Io) (raw g c : String) (ttl : ℕ) (s : Store)
      → (put_refresh io raw g c ttl s).0 ≡ ok tt
      → find (hash_token raw) (put_refresh io raw g c ttl s).1.refresh_tokens
        ≡ some (fresh_token (io.now + ttl) g c)
  unfolding put_refresh
  put_refresh-stored io raw g c ttl s h =
      let fresh = fresh_token (io.now + ttl) g c in
      elim (Option-cases (insert (hash_token raw) fresh s.refresh_tokens)) [
        | inl e ↦ absurd (ground (arith, e))
        | inr (u, e) ↦ ground (
          arith,
          e,
          insert-eq-some (hash_token raw) fresh s.refresh_tokens e,
          find-upsert (hash_token raw) (hash_token raw) fresh s.refresh_tokens,
          eq_refl (hash_token raw),
        )
      ]

  -- The refresh token of an answer is accepted, for the grant and the client of the answer, as long
  -- as its lifetime lasts.
  pub issued_refresh_accepted :
      (env : Env) (srv : Server) (grant_id client_id : String) (s : Store)
      (answer : Response × Store)
      → Issued env srv grant_id client_id s answer
      → (io : Io) → io.fails 0 ≡ false
      → io.now ≤ (env.io 2).now + srv.refresh_ttl
      → (consume_refresh io (random_token (env.random 1)) answer.1).0
        ≡ ok (fresh_token ((env.io 2).now + srv.refresh_ttl) grant_id client_id)
  unfolding consume_refresh use_refresh fresh_token
  issued_refresh_accepted env srv grant_id client_id s answer i io reads in_time =
      let refresh = random_token (env.random 1) in
      let p = put_refresh (env.io 2) refresh grant_id client_id srv.refresh_ttl s in
      ground (
        arith,
        reads,
        i.state,
        (audit-SameCodes (env.io 3) "token.issue" i.grant.user_id client_id grant_id
            p.1).refresh_tokens,
        put_refresh-stored (env.io 2) refresh grant_id client_id srv.refresh_ttl s i.stores,
      )
