-- ===== src/Oauth/Pkce.antt =====
-- internal/oauth/pkce.go.
use Prim.Native.String.{len}
use ocis_mcp_server.Base.{
  String, ◌≡◌, ◌↔◌, Bool, true, false, not, ◌==◌, eq_iff, arith, ap, nat_eq, if◌then◌else◌,
}
use ocis_mcp_server.Base.Bytes.{Bytes}
use ocis_mcp_server.Store.Db.{Externals}

-- RawURLEncoding.EncodeToString of encoding/base64
pub record Encoding : Type 0 where
  pub base64_url : Bytes → String

module _ ⦃x : Externals⦄ ⦃b : Encoding⦄ where
  unfoldable pub verify_s256 : String → String → Bool
  verify_s256 verifier challenge =
      let got = b.base64_url (x.sha256 verifier) in
      if not (nat_eq (len got) (len challenge)) then false else got == challenge

  -- A verifier passes exactly if the coded hash of it is the challenge.
  pub verify_s256_iff :
      (verifier challenge : String)
      → (verify_s256 verifier challenge ≡ true) ↔ (b.base64_url (x.sha256 verifier) ≡ challenge)
  unfolding verify_s256
  verify_s256_iff verifier challenge = (
    λ h. ground (arith, eq_iff (b.base64_url (x.sha256 verifier)) challenge),
    λ e. ground (arith, eq_iff (b.base64_url (x.sha256 verifier)) challenge, ap len e),
  )
