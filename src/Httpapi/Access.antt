-- ===== src/Httpapi/Access.antt =====
-- What stands behind a request that `mcpBearer` of internal/httpapi/server.go passes on.
use ocis_mcp_server.Base.{
  String, ◌≡◌, refl, inl, inr, Option, arith, Option-cases, ok, Result-cases,
}
use ocis_mcp_server.Grant.Level.{Grant}
use ocis_mcp_server.Http.{Request}
use ocis_mcp_server.Store.Db.{Externals, Io, Store, OcisTok}
use ocis_mcp_server.Store.Grants.{get_grant, with_tokens}
use ocis_mcp_server.Oauth.Jwt.{JwtLibrary, AccessClaims, parse_access}
use ocis_mcp_server.Oauth.Server.{Server, Env}
use ocis_mcp_server.Httpapi.{
  admitted, bearer, renewed, maybe_refresh, with_grant, with_claims, mcp_bearer,
}

-- The second grant allows what the first does; the oCIS tokens may be newer.
pub record SameConsent (g h : Grant) : Type 0 where
  pub id : h.id ≡ g.id
  pub spaces : h.spaces ≡ g.spaces
  pub instance_admin : h.instance_admin ≡ g.instance_admin

module _ ⦃x : Externals⦄ where
  renewed-SameConsent : (g : Grant) (tok : OcisTok) → SameConsent g (renewed g tok)
  unfolding renewed with_tokens
  renewed-SameConsent g tok = record { id = refl; spaces = refl; instance_admin = refl }

  maybe_refresh-SameConsent :
      (clock io : Io) (renew : String → Option OcisTok) (g : Grant) (s : Store)
      → SameConsent g (maybe_refresh clock io renew g s).0
  unfolding maybe_refresh
  maybe_refresh-SameConsent clock io renew g s = elim (Option-cases (renew g.ocis_refresh)) [
    | inl e ↦ ground (arith, e)
    | inr (tok, e) ↦ ground (arith, e, renewed-SameConsent g tok)
  ]

  -- A request that gets to the tools has a token that was accepted, and the grant that goes with it
  -- is the one that the token names, readable in the store, with the spaces and the administration
  -- that were consented to.
  pub mcp_bearer_sound :
      ⦃j : JwtLibrary⦄
      → (env : Env) (srv : Server) (renew : String → Option OcisTok) (r : Request) (s : Store)
        (h : Grant)
      → (mcp_bearer env srv renew r s).0 ≡ admitted h
      → (c : AccessClaims) × (g : Grant) × (parse_access
            (env.io 0).now
            srv.jwt_key
            srv.issuer
            srv.audience
            (bearer r)
          ≡ ok c)
        × (get_grant (env.io 1) c.grant_id s ≡ ok g)
        × SameConsent g h
  unfolding mcp_bearer with_claims with_grant
  mcp_bearer_sound env srv renew r s h e =
      elim (Result-cases
        (parse_access (env.io 0).now srv.jwt_key srv.issuer srv.audience (bearer r))) [
          | inl (c, parsed) ↦ elim (Result-cases (get_grant (env.io 1) c.grant_id s)) [
            | inl (g, read) ↦
                let same : (maybe_refresh (env.io 2) (env.io 3) renew g s).0 ≡ h =
                  ground (arith, parsed, read) in
                (
                  c,
                  g,
                  parsed,
                  read,
                  rw (← same) (maybe_refresh-SameConsent (env.io 2) (env.io 3) renew g s),
                )
            | inr (bad, failed) ↦ absurd (ground (arith, parsed, failed))
          ]
          | inr (bad, failed) ↦ absurd (ground (arith, failed))
        ]
