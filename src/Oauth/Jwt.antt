-- ===== src/Oauth/Jwt.antt =====
-- internal/oauth/jwt.go: signing and reading the access token.
use ocis_mcp_server.Base.{
  ℕ, ◌+◌, ◌-◌, ◌≤◌, ◌<◌, String, ◌≡◌, ◌≢◌, ◌↔◌, Bool, true, false, not, Option, none, some, List,
  [], ◌∷◌, In, inl, refl, ◌==◌, eq-false, ne_of_eq-false, arith, if◌then◌else◌, Result, ok, err,
}
use ocis_mcp_server.Base.Bytes.{Bytes}

-- a time that a token may lack
abbrev pub Holds : (ℕ → Type 0) → Option ℕ → Type 0
Holds P none = Unit
Holds P (some n) = P n

-- `AccessClaims` with the registered claims
pub record AccessClaims : Type 0 where
  pub grant_id : String
  pub client_id : String
  pub issuer : String
  pub subject : String
  pub audience : List String
  pub issued_at : Option ℕ
  pub expires_at : Option ℕ
  pub not_before : Option ℕ
  pub id : String

pub data SigningMethod : Type 0 where
  hs256 other_method : SigningMethod

-- github.com/golang-jwt/jwt: what a token says before it is verified, whether its signature is good
-- under a key, whether its claims are good at a time, and signing.
pub record JwtLibrary : Type 0 where
  pub unverified : String → Option (SigningMethod × AccessClaims)
  pub verify : Bytes → String → Bool
  -- issuer, audience, leeway and the time
  pub valid : String → String → ℕ → ℕ → AccessClaims → Bool
  pub sign : Bytes → AccessClaims → Option String
  pub unverified-sign :
      (key : Bytes) (c : AccessClaims) (raw : String)
      → sign key c ≡ some raw
      → unverified raw ≡ some (hs256, c)
  pub verify-sign :
      (key : Bytes) (c : AccessClaims) (raw : String)
      → sign key c ≡ some raw
      → verify key raw ≡ true
  pub valid_iff :
      (issuer audience : String) (leeway now : ℕ) (c : AccessClaims)
      → (valid issuer audience leeway now c ≡ true) ↔ (
          (c.issuer ≡ issuer)
          × In audience c.audience
          × Holds (λ e. now < e + leeway) c.expires_at
          × Holds (λ b. b ≤ now + leeway) c.not_before)

pub data TokenError : Type 0 where
  not_a_token unexpected_signing_method invalid_token missing_grant_id : TokenError

abbrev pub leeway : ℕ
leeway = 30

-- `SignAccess` builds these claims; `nonce` is the random identifier
unfoldable pub access_claims :
    ℕ → String → String → String → String → String → ℕ → String → AccessClaims
access_claims now issuer audience subject grant_id client_id ttl nonce = record {
  grant_id = grant_id;
  client_id = client_id;
  issuer = issuer;
  subject = subject;
  audience = audience ∷ [];
  issued_at = some now;
  expires_at = some (now + ttl);
  not_before = some (now - 30);
  id = nonce;
}

module _ ⦃j : JwtLibrary⦄ where
  unfoldable pub sign_access :
      ℕ → Bytes → String → String → String → String → String → ℕ → String → Option String
  sign_access now key issuer audience subject grant_id client_id ttl nonce =
      j.sign key (access_claims now issuer audience subject grant_id client_id ttl nonce)

  -- the callback hands out the key for one method only
  unfoldable pub check_token :
      ℕ
      → Bytes
      → String
      → String
      → String
      → SigningMethod × AccessClaims
      → Result TokenError AccessClaims
  check_token now key issuer audience raw (other_method, c) = err unexpected_signing_method
  check_token now key issuer audience raw (hs256, c) =
      if not (j.verify key raw)
      then err invalid_token
      else if not (j.valid issuer audience leeway now c)
      then err invalid_token
      else if c.grant_id == ""
      then err missing_grant_id
      else ok c

  unfoldable pub parse_access :
      ℕ → Bytes → String → String → String → Result TokenError AccessClaims
  unfolding check_token
  parse_access now key issuer audience raw = elim (j.unverified raw) [
    | none ↦ err not_a_token
    | some t ↦ check_token now key issuer audience raw t
  ]

  -- A token that the server signed is read back with its claims from the moment of signing until its
  -- lifetime and the leeway are over, under the same key, issuer and audience.
  pub parse_access-sign_access :
      (now later : ℕ) (key : Bytes) (issuer audience subject grant_id client_id : String) (ttl : ℕ)
      (nonce raw : String)
      → sign_access now key issuer audience subject grant_id client_id ttl nonce ≡ some raw
      → grant_id ≢ ""
      → now ≤ later
      → later < now + ttl + leeway
      → parse_access later key issuer audience raw
        ≡ ok (access_claims now issuer audience subject grant_id client_id ttl nonce)
  unfolding parse_access sign_access access_claims
  parse_access-sign_access now later key issuer audience subject grant_id client_id ttl nonce raw
        signed named from until =
      let c = access_claims now issuer audience subject grant_id client_id ttl nonce in
      let good =
        (j.valid_iff issuer audience leeway later c).1 (refl, inl refl, omega arith, omega arith) in
      ground (
        arith,
        j.unverified-sign key c raw signed,
        j.verify-sign key c raw signed,
        good,
        eq-false grant_id "" named,
      )

  -- Whatever the text: claims that are accepted come from a text with a good signature of the one
  -- method, for this issuer and audience, not expired and not from the future where it names these
  -- times, and name a grant.
  pub parse_access_sound :
      (now : ℕ) (key : Bytes) (issuer audience raw : String) (c : AccessClaims)
      → parse_access now key issuer audience raw ≡ ok c
      → (j.unverified raw ≡ some (hs256, c))
        × (j.verify key raw ≡ true)
        × (c.issuer ≡ issuer)
        × In audience c.audience
        × Holds (λ e. now < e + leeway) c.expires_at
        × Holds (λ b. b ≤ now + leeway) c.not_before
        × (c.grant_id ≢ "")
  unfolding parse_access
  parse_access_sound now key issuer audience raw c h =
      let checked : (j.unverified raw ≡ some (hs256, c))
          × (j.verify key raw ≡ true)
          × (j.valid issuer audience leeway now c ≡ true)
          × ((c.grant_id == "") ≡ false) =
        ground arith in
      let (same_issuer, same_audience, alive, started) =
        (j.valid_iff issuer audience leeway now c).0 checked.2 in
      (
        checked.0,
        checked.1,
        same_issuer,
        same_audience,
        alive,
        started,
        ne_of_eq-false c.grant_id "" checked.3,
      )
