-- ===== src/Client/Admits.antt =====
-- Each call of internal/client sends only requests to its own URL, with its own destination and with
-- the credential of the context.
use Prim.Native.String.{◌++◌}
use ocis_mcp_server.Base.{
  ◌≡◌, refl, sym, subst, inl, inr, Bool, true, false, String, none, some, List, [], ◌==◌, leb,
  Result, ok, err, Option-cases, if_elim, ap, if◌then◌else◌,
}
use ocis_mcp_server.Config.{Config}
use ocis_mcp_server.Client.{
  Payload, HttpRequest, Network, Client, Context, auth_from, header, remove_header, set_header,
  apply_auth, config_auth, new_request,
}
use ocis_mcp_server.Client.ClientError.{failure, wrapped}
use ocis_mcp_server.Client.Graph.{succeeds}
use ocis_mcp_server.Client.Retry.{accept_json, do_json, check_status}
use ocis_mcp_server.Client.Sends.{
  Sends, header-set_header, done-Sends, fail-Sends, and_then-Sends, do_request-Sends,
}

module _ ⦃n : Network⦄ where
  unfoldable pub config_credential : Config → String
  config_credential cfg =
      if cfg.auth_mode == "app-token"
      then n.basic_auth cfg.app_token_user cfg.app_token_value
      else if cfg.auth_mode == "oidc"
      then "Bearer " ++ cfg.oidc_access_token
      else ""

  -- the credential that each request bears
  unfoldable pub credential : Client → Context → String
  credential c ctx = elim (auth_from ctx) [
    | some a ↦ "Bearer " ++ a.ocis_access_token
    | none ↦ config_credential c.cfg
  ]

  -- A predicate on what a request addresses: its URL, its destination and its credential.
  pub record Admits (Q : String → String → String → Type 0) (r : HttpRequest) : Type 0 where
    pub holds : Q r.url (header "Destination" r.headers) (header "Authorization" r.headers)

-- a request that has no headers yet
abbrev blank : String → String → List (String × String) → Payload → HttpRequest
blank method url query body = record {
  method = method;
  url = url;
  query = query;
  headers = [];
  body = body;
}

ok_value {ℓ κ} : {E : Type ℓ} {A : Type κ} → A → Result E A → A
ok_value default (ok a) = a
ok_value default (err e) = default

module _ ⦃n : Network⦄ {Q : String → String → String → Type 0} where
  pub set_header-Admits :
      (k v : String) (r : HttpRequest)
      → (k == "Destination") ≡ false
      → (k == "Authorization") ≡ false
      → Admits Q r
      → Admits Q (set_header k v r)
  unfolding set_header
  set_header-Admits k v r d a p = record {
    holds =
        subst (λ h. Q r.url h (header "Authorization" (set_header k v r).headers))
          (sym (header-set_header "Destination" k v r d))
          (subst (λ h. Q r.url (header "Destination" r.headers) h)
            (sym (header-set_header "Authorization" k v r a)) p.holds);
  }

  pub set_destination-Admits :
      (dest : String) (r : HttpRequest)
      → Admits (λ url _ k. Q url dest k) r
      → Admits Q (set_header "Destination" dest r)
  unfolding set_header header
  set_destination-Admits dest r p = record {
    holds =
        subst (λ k. Q r.url dest k)
          (sym (header-set_header "Authorization" "Destination" dest r refl)) p.holds;
  }

  by_mode-Admits :
      (is_token is_oidc : Bool) (k l method url : String) (query : List (String × String))
      (body : Payload)
      → Q url "" (if is_token then k else if is_oidc then l else "")
      → Admits Q (
          if is_token
          then set_header "Authorization" k (blank method url query body)
          else if is_oidc
          then set_header "Authorization" l (blank method url query body)
          else blank method url query body)
  unfolding header set_header remove_header
  by_mode-Admits true is_oidc k l method url query body q = record { holds = q }
  by_mode-Admits false true k l method url query body q = record { holds = q }
  by_mode-Admits false false k l method url query body q = record { holds = q }

  config_auth-Admits :
      (cfg : Config) (method url : String) (query : List (String × String)) (body : Payload)
      → Q url "" (config_credential cfg)
      → Admits Q (config_auth cfg (blank method url query body))
  unfolding config_auth config_credential
  config_auth-Admits cfg method url query body q =
      by_mode-Admits (cfg.auth_mode == "app-token") (cfg.auth_mode == "oidc") _ _ method url query
        body q

  apply_auth-Admits :
      (c : Client) (ctx : Context) (method url : String) (query : List (String × String))
      (body : Payload)
      → Q url "" (credential c ctx)
      → Admits Q (apply_auth c ctx (blank method url query body))
  unfolding apply_auth credential header set_header remove_header
  apply_auth-Admits c ctx method url query body q = elim (Option-cases (auth_from ctx)) [
    | inl e ↦
        rw (e, apply_auth)
          (config_auth-Admits c.cfg method url query body (
            subst (λ k. Q url "" k)
              (ap
                (λ o. elim o [
                  | some a ↦ "Bearer " ++ a.ocis_access_token
                  | none ↦ config_credential c.cfg
                ])
                e)
              q))
    | inr (a, e) ↦
        rw (e, apply_auth)
          (record {
            holds =
                subst (λ k. Q url "" k)
                  (ap
                    (λ o. elim o [
                      | some a ↦ "Bearer " ++ a.ocis_access_token
                      | none ↦ config_credential c.cfg
                    ])
                    e)
                  q;
          })
  ]

  pub new_request-Admits :
      (c : Client) (ctx : Context) (method path : String) (query : List (String × String))
      (body : Payload) (r : HttpRequest)
      → Q (c.base_url ++ path) "" (credential c ctx)
      → new_request c ctx method path query body ≡ ok r
      → Admits Q r
  unfolding new_request ok_value
  new_request-Admits c ctx method path query body r q e =
      let url = c.base_url ++ path in
      let made = apply_auth c ctx (blank method url query body) in
      let good = apply_auth-Admits c ctx method url query body q in
      elim (Option-cases (n.url_error url)) [
        | inl f ↦
            subst (Admits Q)
              (ap (ok_value made) (
                subst
                  (λ o.
                    elim o [
                      | some e ↦ err (wrapped "creating request" (failure e))
                      | none ↦ ok made
                    ]
                    ≡ ok r)
                  f e))
              good
        | inr (u, f) ↦
            subst (Admits Q)
              (ap (ok_value made) (
                subst
                  (λ o.
                    elim o [
                      | some e ↦ err (wrapped "creating request" (failure e))
                      | none ↦ ok made
                    ]
                    ≡ ok r)
                  f e))
              good
      ]

  pub do_json-Sends : (r : HttpRequest) → Admits Q r → Sends (Admits Q) (do_json r)
  unfolding do_json accept_json check_status
  do_json-Sends r p =
      and_then-Sends
        (do_request-Sends _ (
          if_elim (Admits Q) (header "Accept" r.headers == "")
            (set_header-Admits "Accept" "application/json" r refl refl p) p))
        (λ resp. if_elim (Sends (Admits Q)) (leb 400 resp.status) (fail-Sends _) (done-Sends _))

  pub succeeds-Sends : (r : HttpRequest) → Admits Q r → Sends (Admits Q) (succeeds r)
  unfolding succeeds check_status
  succeeds-Sends r p = and_then-Sends (do_request-Sends r p) λ resp.
      and_then-Sends
        (if_elim (Sends (Admits Q)) (leb 400 resp.status) (fail-Sends _) (done-Sends _))
        λ _. done-Sends tt
