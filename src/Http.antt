-- ===== src/Http.antt =====
-- Requests and responses of net/http, as far as the handlers read and write them.
use ocis_mcp_server.Base.{ℕ, String, Bool, Option, List, [], ◌∷◌, ◌==◌, if◌then◌else◌}
use ocis_mcp_server.Pages.{Page}

-- A parsed form: its pairs in order, the body's before the query's.
abbrev pub Form : Type 0
Form = List (String × String)

pub record Request : Type 0 where
  pub method : String
  -- Form and query; ParseForm keeps what it could read of a malformed body.
  pub form : Form
  pub is_malformed : Bool
  pub query : Form
  -- the value of the session cookie
  pub cookie : Option String
  -- the Authorization header, empty if it is missing
  pub authorization : String

-- `FormValue` and `Query().Get`: the first value of that name, or the empty text
unfoldable pub form_value : String → Form → String
form_value k [] = ""
form_value k ((j, v) ∷ rest) = if j == k then v else form_value k rest

-- `Form[k]`: all values of that name
unfoldable pub form_values : String → Form → List String
form_values k [] = []
form_values k ((j, v) ∷ rest) =
    let later = form_values k rest in if j == k then v ∷ later else later

pub data Value : Type 0 where
  text : String → Value
  num : ℕ → Value
  texts : List String → Value

pub data Body : Type 0 where
  empty : Body
  plain : String → Body
  json : List (String × Value) → Body
  html : Page → Body

pub record Response : Type 0 where
  pub status : ℕ
  pub headers : List (String × String)
  pub body : Body

-- `http.Error`
abbrev pub http_error : String → ℕ → Response
http_error message status = record {
  status = status;
  headers =
      ("Content-Type", "text/plain; charset=utf-8") ∷ ("X-Content-Type-Options", "nosniff") ∷ [];
  body = plain message;
}

-- `http.Redirect` with StatusFound
abbrev pub redirect : String → Response
redirect url = record { status = 302; headers = ("Location", url) ∷ []; body = empty }
