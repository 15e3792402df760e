-- ===== src/Oauth/Token/Issuing.antt =====
-- When the token endpoint of internal/oauth/server.go issues tokens.
use ocis_mcp_server.Base.{
  ◌≤◌, String, ◌≡◌, ◌≢◌, inl, inr, true, none, some, ◌==◌, eq_iff, arith, Option-cases, ok, err,
  Result-cases,
}
use ocis_mcp_server.Base.Table.{find}
use ocis_mcp_server.Grant.Level.{Grant}
use ocis_mcp_server.Http.{Request, Response, form_value}
use ocis_mcp_server.Store.Db.{Externals, Io, Store, CodeRow, StoreError, audit, hash_token}
use ocis_mcp_server.Store.Grants.{get_grant}
use ocis_mcp_server.Store.Codes.{use_code, consume_auth_code, put_refresh}
use ocis_mcp_server.Oauth.Pkce.{Encoding, verify_s256, verify_s256_iff}
use ocis_mcp_server.Oauth.Jwt.{JwtLibrary}
use ocis_mcp_server.Oauth.Server.{Server, Env, write_json, token_err}
use ocis_mcp_server.Oauth.Token.{
  random_token, token_response, signed, issue, check_code, token_code,
}

module _ ⦃x : Externals⦄ ⦃b : Encoding⦄ ⦃j : JwtLibrary⦄ where
  -- The three ways out of `issue`, by what was read and signed.
  issue_failed :
      (env : Env) (srv : Server) (grant_id client_id : String) (s : Store) (e : StoreError)
      → get_grant (env.io 1) grant_id s ≡ err e
      → (issue env srv grant_id client_id s).0.status ≢ 200
  unfolding issue token_err write_json
  issue_failed env srv grant_id client_id s e failed h = ground (arith, failed)

  issue_unsigned :
      (env : Env) (srv : Server) (grant_id client_id : String) (s : Store) (g : Grant)
      → get_grant (env.io 1) grant_id s ≡ ok g
      → signed env srv g grant_id client_id ≡ none
      → (issue env srv grant_id client_id s).0.status ≢ 200
  unfolding issue token_err write_json
  issue_unsigned env srv grant_id client_id s g read unsigned h = ground (arith, read, unsigned)

  issue_signed_lem :
      (env : Env) (srv : Server) (grant_id client_id : String) (s : Store) (g : Grant)
      (access : String)
      → get_grant (env.io 1) grant_id s ≡ ok g
      → signed env srv g grant_id client_id ≡ some access
      → (issue env srv grant_id client_id s).0.status ≡ 200
      → let refresh = random_token (env.random 1) in
        ((issue env srv grant_id client_id s).0 ≡ token_response srv access refresh)
        × ((put_refresh (env.io 2) refresh grant_id client_id srv.refresh_ttl s).0 ≡ ok tt)
        × ((issue env srv grant_id client_id s).1
            ≡ audit
                (env.io 3)
                "token.issue"
                g.user_id
                client_id
                grant_id
                (put_refresh (env.io 2) refresh grant_id client_id srv.refresh_ttl s).1)
  unfolding issue token_err write_json
  issue_signed_lem env srv grant_id client_id s g access read sign h = ground (arith, read, sign)

  -- What stands behind a 200 of `issue`: a grant that was read and a token that was signed for it.
  pub record Issued (env : Env) (srv : Server) (grant_id client_id : String) (s : Store)
      (answer : Response × Store) : Type 0 where
    pub grant : Grant
    pub access : String
    pub readable : get_grant (env.io 1) grant_id s ≡ ok grant
    pub signs : signed env srv grant grant_id client_id ≡ some access
    pub stores :
        (put_refresh
          (env.io 2)
          (random_token (env.random 1))
          grant_id
          client_id
          srv.refresh_ttl
          s).0
        ≡ ok tt
    pub response : answer.0 ≡ token_response srv access (random_token (env.random 1))
    pub state :
        answer.1
        ≡ audit
            (env.io 3)
            "token.issue"
            grant.user_id
            client_id
            grant_id
            (put_refresh
              (env.io 2)
              (random_token (env.random 1))
              grant_id
              client_id
              srv.refresh_ttl
              s).1

  pub issue-Issued :
      (env : Env) (srv : Server) (grant_id client_id : String) (s : Store)
      → (issue env srv grant_id client_id s).0.status ≡ 200
      → Issued env srv grant_id client_id s (issue env srv grant_id client_id s)
  issue-Issued env srv grant_id client_id s h =
      elim (Result-cases (get_grant (env.io 1) grant_id s)) [
        | inl (g, read) ↦ elim (Option-cases (signed env srv g grant_id client_id)) [
          | inl unsigned ↦ absurd (issue_unsigned env srv grant_id client_id s g read unsigned h)
          | inr (access, sign) ↦
              let (response, stores, state) =
                issue_signed_lem env srv grant_id client_id s g access read sign h in
              record {
                grant = g;
                access = access;
                readable = read;
                signs = sign;
                stores = stores;
                response = response;
                state = state;
              }
        ]
        | inr (e, failed) ↦ absurd (issue_failed env srv grant_id client_id s e failed h)
      ]

  consumed_row :
      (io : Io) (raw : String) (s : Store) (row : CodeRow)
      → (consume_auth_code io raw s).0 ≡ ok row
      → (find (hash_token raw) s.auth_codes ≡ some row) × (row.used ≡ 0) × (io.now ≤ row.expires_at)
  unfolding consume_auth_code use_code
  consumed_row io raw s row h = ground arith

  -- What the code exchange has checked when it answers 200.
  pub record CodeExchanged (env : Env) (srv : Server) (r : Request) (s : Store) : Type 0 where
    pub row : CodeRow
    pub consumed : (consume_auth_code (env.io 0) (form_value "code" r.form) s).0 ≡ ok row
    pub stored : find (hash_token (form_value "code" r.form)) s.auth_codes ≡ some row
    pub unused : row.used ≡ 0
    pub in_time : (env.io 0).now ≤ row.expires_at
    pub same_client : row.client_id ≡ form_value "client_id" r.form
    pub same_redirect : row.redirect_uri ≡ form_value "redirect_uri" r.form
    pub proof_of_key :
        b.base64_url (x.sha256 (form_value "code_verifier" r.form)) ≡ row.code_challenge
    pub issued :
        Issued env srv row.grant_id
          (form_value "client_id" r.form)
          (consume_auth_code (env.io 0) (form_value "code" r.form) s).1
          (token_code env srv r s)

  checked_code :
      (env : Env) (srv : Server) (r : Request) (s : Store) (row : CodeRow)
      → (consume_auth_code (env.io 0) (form_value "code" r.form) s).0 ≡ ok row
      → (token_code env srv r s).0.status ≡ 200
      → ((row.client_id == form_value "client_id" r.form) ≡ true)
        × ((row.redirect_uri == form_value "redirect_uri" r.form) ≡ true)
        × (verify_s256 (form_value "code_verifier" r.form) row.code_challenge ≡ true)
        × (token_code env srv r s
            ≡ issue env srv row.grant_id
                (form_value "client_id" r.form)
                (consume_auth_code (env.io 0) (form_value "code" r.form) s).1)
  unfolding token_code check_code token_err write_json
  checked_code env srv r s row consumed h = ground (arith, consumed)

  failed_code :
      (env : Env) (srv : Server) (r : Request) (s : Store) (e : StoreError)
      → (consume_auth_code (env.io 0) (form_value "code" r.form) s).0 ≡ err e
      → (token_code env srv r s).0.status ≢ 200
  unfolding token_code check_code token_err write_json
  failed_code env srv r s e failed h = ground (arith, failed)

  -- The code exchange answers 200 only for a stored, unused code in its lifetime, presented by the
  -- client that it was issued to, with the redirect URI that it was issued for and a verifier whose
  -- hash is the stored challenge; the grant was read and the tokens are for it.
  pub token_code-CodeExchanged :
      (env : Env) (srv : Server) (r : Request) (s : Store)
      → (token_code env srv r s).0.status ≡ 200
      → CodeExchanged env srv r s
  token_code-CodeExchanged env srv r s h =
      elim (Result-cases (consume_auth_code (env.io 0) (form_value "code" r.form) s).0) [
        | inl (row, consumed) ↦
            let (client, redirect, verified, same) = checked_code env srv r s row consumed h in
            let (stored, unused, in_time) =
              consumed_row (env.io 0) (form_value "code" r.form) s row consumed in
            record {
              row = row;
              consumed = consumed;
              stored = stored;
              unused = unused;
              in_time = in_time;
              same_client = (eq_iff _ _).0 client;
              same_redirect = (eq_iff _ _).0 redirect;
              proof_of_key = (verify_s256_iff _ _).0 verified;
              issued = rw same (
                  issue-Issued env srv row.grant_id (form_value "client_id" r.form)
                    (consume_auth_code (env.io 0) (form_value "code" r.form) s).1 (rw same at h));
            }
        | inr (e, failed) ↦ absurd (failed_code env srv r s e failed h)
      ]
