-- ===== src/Config/Exposure.antt =====
-- Which settings start an HTTP server that asks for no credentials.
use ocis_mcp_server.Base.Ints.{ℤ}
use ocis_mcp_server.Base.{
  String, ◌≡◌, ◌⊎◌, inl, inr, true, false, ◌==◌, eq_iff, arith, refl, subst, ap, ◌∙◌, ◌≢◌,
  Bool-cases, ok, Result-cases,
}
use ocis_mcp_server.Base.Text.{map_codes, same}
use ocis_mcp_server.Secretbox.{Primitives}
use ocis_mcp_server.Oauth.Server.{Libraries}
use ocis_mcp_server.Config.{
  Config, Parsers, is_oauth, select_auth_mode, is_loopback_host, check_bind, validate, read_env,
  timeout_of, load,
}

module _ ⦃p : Primitives⦄ ⦃l : Libraries⦄ ⦃n : Parsers⦄ where
  validated_bind : (c : Config) → validate c ≡ ok tt → check_bind c ≡ ok tt
  unfolding validate
  validated_bind c h = ground arith

  loaded :
      (env : String → String) (c : Config)
      → load env ≡ ok c
      → (timeout : ℤ) × (validate (read_env env timeout) ≡ ok tt)
        × (record (read_env env timeout) { auth_mode = select_auth_mode (read_env env timeout) }
            ≡ c)
  unfolding load
  loaded env c h = elim (Result-cases (timeout_of (env "OCIS_MCP_HTTP_TIMEOUT"))) [
    | inl (timeout, e) ↦ (timeout, ground (arith, e), ground (arith, e))
    | inr (bad, e) ↦ absurd (ground (arith, e))
  ]

  no_oauth : is_oauth "" ≡ false
  unfolding is_oauth map_codes same
  no_oauth = refl

  chosen : (r : Config) → is_oauth r.auth_mode ≡ true → is_oauth (select_auth_mode r) ≡ true
  unfolding select_auth_mode
  chosen r oauth = elim (Bool-cases (r.auth_mode == "")) [
    | inl empty ↦ absurd (ground (arith, (eq_iff r.auth_mode "").0 empty, oauth, no_oauth))
    | inr given ↦ rw given oauth
  ]

  refused :
      (r : Config)
      → is_loopback_host r.http_addr ≡ false
      → is_oauth r.auth_mode ≡ false
      → r.transport ≡ "http"
      → r.http_secret ≡ ""
      → check_bind r ≢ ok tt
  unfolding check_bind
  refused r public other http secret bound = ground (
    arith,
    public,
    other,
    (eq_iff r.transport "http").1 http,
    (eq_iff r.http_secret "").1 secret,
    bound,
  )

  checked_bind :
      (r : Config)
      → check_bind r ≡ ok tt
      → r.transport ≡ "http"
      → r.http_secret ≡ ""
      → (is_loopback_host r.http_addr ≡ true) ⊎ (is_oauth (select_auth_mode r) ≡ true)
  unfolding check_bind select_auth_mode
  checked_bind r bound http secret = elim (Bool-cases (is_loopback_host r.http_addr)) [
    | inl local ↦ inl local
    | inr public ↦ elim (Bool-cases (is_oauth r.auth_mode)) [
      | inl oauth ↦ inr (chosen r oauth)
      | inr other ↦ absurd (refused r public other http secret bound)
    ]
  ]

  -- A server that starts on HTTP without a shared secret is bound to a loopback address, or its
  -- mode is "oauth" up to the case of its letters.
  pub open_server_local :
      (env : String → String) (c : Config)
      → load env ≡ ok c
      → c.transport ≡ "http"
      → c.http_secret ≡ ""
      → (is_loopback_host c.http_addr ≡ true) ⊎ (is_oauth c.auth_mode ≡ true)
  open_server_local env c h http secret =
      let (timeout, valid, same) = loaded env c h in
      let bound = validated_bind (read_env env timeout) valid in
      subst (λ (d : Config). (is_loopback_host d.http_addr ≡ true) ⊎ (is_oauth d.auth_mode ≡ true))
        same
        (checked_bind (read_env env timeout) bound (ap (λ (d : Config). d.transport) same ∙ http)
          (ap (λ (d : Config). d.http_secret) same ∙ secret))
