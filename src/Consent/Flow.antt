-- ===== src/Consent/Flow.antt =====
-- internal/consent/session.go: the state of the wizard, kept sealed in a session.
use ocis_mcp_server.Base.{
  ℕ, String, ◌≡◌, Bool, ◌&&◌, Option, none, some, List, ◌==◌, not, any, keep,
}
use ocis_mcp_server.Base.Bytes.{Bytes}
use ocis_mcp_server.Grant.Level.{SpaceGrant}

-- `tokenBag`
pub record TokenBag : Type 0 where
  pub access : String
  pub refresh : String

pub record Flow : Type 0 where
  pub csrf : String
  pub client_id : String
  pub redirect_uri : String
  pub state : String
  pub code_challenge : String
  pub upstream_verifier : String
  pub resource : String
  pub user_id : String
  pub user_name : String
  pub ocis_access : String
  pub ocis_refresh : String
  pub ocis_expiry_unix : ℕ
  pub instance_admin_ok : Bool
  pub want_instance_adm : Bool
  pub spaces : List SpaceGrant
  pub selected : List String
  pub step : String
  pub tokens : TokenBag

-- the fields that the tag "-" keeps out of the JSON text
abbrev pub without_hidden : Flow → Flow
without_hidden f = record f { ocis_access = ""; ocis_refresh = "" }

-- encoding/json at `Flow`, the query of a URL with net/url, and the login page of golang.org/x/oauth2.
pub record Wizard : Type 0 where
  pub encode_flow : Flow → Bytes
  pub decode_flow : Bytes → Option Flow
  pub decode-encode_flow : (f : Flow) → decode_flow (encode_flow f) ≡ some (without_hidden f)
  -- state and challenge
  pub auth_code_url : String → String → String
  -- the URL with these parameters set, or none if it does not parse
  pub with_query : String → List (String × String) → Option String

unfoldable pub with_bag : Flow → Flow
with_bag f = record f { tokens = record { access = f.ocis_access; refresh = f.ocis_refresh } }

unfoldable pub from_bag : Flow → Flow
from_bag f = record f { ocis_access = f.tokens.access; ocis_refresh = f.tokens.refresh }

abbrev some_from_bag : Option Flow → Option Flow
some_from_bag none = none
some_from_bag (some f) = some (from_bag f)

module _ ⦃w : Wizard⦄ where
  unfoldable pub marshal : Flow → Bytes
  marshal f = w.encode_flow (with_bag f)

  unfoldable pub unmarshal_flow : Bytes → Option Flow
  unmarshal_flow b = some_from_bag (w.decode_flow b)

  -- A flow is read back as it was written, its tokens too, with the bag filled.
  pub unmarshal_flow-marshal : (f : Flow) → unmarshal_flow (marshal f) ≡ some (with_bag f)
  unfolding unmarshal_flow marshal from_bag with_bag
  unmarshal_flow-marshal f = rw (w.decode-encode_flow (with_bag f))

-- `selectedSpaces`
unfoldable pub selected_spaces : Flow → List SpaceGrant
selected_spaces f = keep (λ s. any (λ id. id == s.id) f.selected) f.spaces

-- `csrfOK`, for a form that was parsed
unfoldable pub csrf_ok : String → Flow → Bool
csrf_ok given f = not (f.csrf == "") && (given == f.csrf)
