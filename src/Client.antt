-- ===== src/Client.antt =====
-- internal/client/client.go and authctx.go: requests to oCIS and the credential that each carries.
-- The network is a parameter that answers a request from all that was sent before it.
pub mod Escape
pub mod Query
pub mod Retry
pub mod Attempts
pub mod Sends
pub mod Admits
pub mod Calls
pub mod Texts
pub mod Bodies
pub mod Names
pub mod Errors
pub mod FileInfo
pub mod Graph
pub mod Webdav
use Prim.Native.String.{◌++◌}
use ocis_mcp_server.Base.{
  ℕ, String, Bool, true, false, not, ◌||◌, Option, none, some, List, [], ◌∷◌, ◌==◌, if◌then◌else◌,
  ltb, Result, ok, err,
}
use ocis_mcp_server.Base.Bytes.{Bytes}
use ocis_mcp_server.Base.Ints.{ℤ, pos, negsuc}
use ocis_mcp_server.Base.Text.{codes, contains, trim_text, any_code}
use ocis_mcp_server.Config.{Config, ocis_base_url}
use ocis_mcp_server.Grant.Arguments.{Json}
use ocis_mcp_server.Grant.Level.{Grant}

-- The body of a request: texts and bytes in memory can be read again, a stream only once.
pub data Payload : Type 0 where
  empty : Payload
  content : String → Payload
  bytes : Bytes → Payload
  json : Json → Payload
  stream : Bytes → Payload

abbrev pub Headers : Type 0
Headers = List (String × String)

-- The query is kept apart from the URL that it is encoded into.
pub record HttpRequest : Type 0 where
  pub method : String
  pub url : String
  pub query : List (String × String)
  pub headers : Headers
  pub body : Payload

-- The body as far as it arrived, and the error that cut it short.
pub record HttpResponse : Type 0 where
  pub status : ℕ
  pub headers : Headers
  pub body : Bytes
  pub cut_off : Option String

-- `*APIError`, an error with a message (and what `%q` quotes in it), and one that `%w` wraps.
pub data ClientError : Type 0 where
  api_error : ℕ → String → ClientError
  failure : String → ClientError
  quoted : String → String → ClientError
  wrapped : String → ClientError → ClientError

-- What the libraries answer: http.Client.Do for the requests handed to it up to now, the newest first
-- (redirects, which net/http follows on its own, are inside of it); the URLs that http.NewRequest
-- refuses; the credential of SetBasicAuth; `%q`; http.ParseTime with time.Until at that moment, in
-- nanoseconds; and the messages that encoding/json finds in an error's body.
pub record Network : Type 0 where
  pub transport : List HttpRequest → Result String HttpResponse
  pub url_error : String → Option String
  pub until : List HttpRequest → String → Option ℤ
  pub error_message : Bytes → Option String
  pub ocs_message : Bytes → Option String
  pub basic_auth : String → String → String
  pub quote : String → String

-- What happened so far, the newest first: requests sent and delays slept through, in nanoseconds.
pub record Wire : Type 0 where
  pub sent : List HttpRequest
  pub slept : List ℤ

-- A call to oCIS.
abbrev pub Net {ℓ} : Type ℓ → Type ℓ
Net A = Wire → Result ClientError A × Wire

module _ {ℓ κ} {A : Type ℓ} {B : Type κ} where
  abbrev pub continue_with : (A → Net B) → Result ClientError A × Wire → Result ClientError B × Wire
  continue_with k (ok a, w) = k a w
  continue_with k (err e, w) = (err e, w)

  -- `x, err := m; if err != nil { return err }`
  unfoldable pub and_then : Net A → (A → Net B) → Net B
  and_then m k w = continue_with k (m w)

module _ {ℓ} {A : Type ℓ} where
  -- a check before the call
  unfoldable pub check : Result ClientError (Unit {0}) → Net A → Net A
  check (ok _) m w = m w
  check (err e) m w = (err e, w)

  unfoldable pub done : A → Net A
  done a w = (ok a, w)

  unfoldable pub fail : ClientError → Net A
  fail e w = (err e, w)

  abbrev pub wrap_error : String → Result ClientError A × Wire → Result ClientError A × Wire
  wrap_error what (ok a, w) = (ok a, w)
  wrap_error what (err e, w) = (err (wrapped what e), w)

  -- the error of a step, wrapped
  unfoldable pub in_step : String → Net A → Net A
  in_step what m w = wrap_error what (m w)

  abbrev pub with_answer :
      Result ClientError A × Wire → Result ClientError (Result ClientError A) × Wire
  with_answer (r, w) = (ok r, w)

  -- a step whose error the caller looks at
  unfoldable pub attempt : Net A → Net (Result ClientError A)
  attempt m w = with_answer (m w)

-- `RequestAuth`, and what the context of a request carries.
pub record RequestAuth : Type 0 where
  pub ocis_access_token : String
  pub grant_id : String

pub record Context : Type 0 where
  pub auth : Option RequestAuth
  pub grant : Option Grant

-- `AuthFrom`
unfoldable pub auth_from : Context → Option RequestAuth
auth_from ctx = elim ctx.auth [
  | none ↦ none
  | some a ↦ if a.ocis_access_token == "" then none else some a
]

-- The context that the endpoint /mcp gives to a tool call under a grant.
unfoldable pub grant_context : Grant → Context
grant_context g = record {
  auth = some (record { ocis_access_token = g.ocis_access; grant_id = g.id });
  grant = some g;
}

pub record Client : Type 0 where
  pub base_url : String
  pub cfg : Config

unfoldable pub client_of_config : Config → Client
client_of_config cfg = record { base_url = ocis_base_url cfg; cfg = cfg }

-- `Header.Get` and `Header.Set`; all names are in their canonical form
unfoldable pub header : String → Headers → String
header name [] = ""
header name ((k, v) ∷ rest) = if k == name then v else header name rest

unfoldable pub remove_header : String → Headers → Headers
remove_header name [] = []
remove_header name ((k, v) ∷ rest) =
    let others = remove_header name rest in if k == name then others else (k, v) ∷ others

unfoldable pub set_header : String → String → HttpRequest → HttpRequest
set_header name value r = record r { headers = (name, value) ∷ remove_header name r.headers }

module _ ⦃n : Network⦄ where
  unfoldable pub config_auth : Config → HttpRequest → HttpRequest
  config_auth cfg r =
      if cfg.auth_mode == "app-token"
      then set_header "Authorization" (n.basic_auth cfg.app_token_user cfg.app_token_value) r
      else if cfg.auth_mode == "oidc"
      then set_header "Authorization" ("Bearer " ++ cfg.oidc_access_token) r
      else r

  unfoldable pub apply_auth : Client → Context → HttpRequest → HttpRequest
  apply_auth c ctx r = elim (auth_from ctx) [
    | some a ↦ set_header "Authorization" ("Bearer " ++ a.ocis_access_token) r
    | none ↦ config_auth c.cfg r
  ]

  unfoldable pub new_request :
      Client
      → Context
      → String
      → String
      → List (String × String)
      → Payload
      → Result ClientError HttpRequest
  new_request c ctx method path query body = elim (n.url_error (c.base_url ++ path)) [
    | some e ↦ err (wrapped "creating request" (failure e))
    | none ↦ ok (
        apply_auth c ctx (record {
          method = method;
          url = c.base_url ++ path;
          query = query;
          headers = [];
          body = body;
        }))
  ]

unfoldable pub validate_path : String → Result ClientError (Unit {0})
validate_path path =
    if contains (codes path) (codes "..")
    then err (quoted "path traversal detected: " path)
    else if any_code 0 (codes path)
    then err (quoted "null byte in path: " path)
    else ok tt

unfoldable pub validate_id : String → String → Result ClientError (Unit {0})
validate_id name value =
    if trim_text value == "" then err (failure (name ++ " is required")) else ok tt

unfoldable pub validate_limit : ℤ → ℕ
validate_limit (negsuc n) = 50
validate_limit (pos n) = if not (ltb 0 n) then 50 else if ltb 200 n then 200 else n
