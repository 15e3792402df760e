-- ===== src/Tools/AppTokens.antt =====
-- internal/tools/app_tokens.go: the app tokens of the user.
use Prim.Native.String.{◌++◌}
use ocis_mcp_server.Base.{String, Bool, List, [], ◌∷◌}
use ocis_mcp_server.Client.{Network, Client, Context, Net, and_then, check, done, validate_id}
use ocis_mcp_server.Client.Query.{encode}
use ocis_mcp_server.Client.Graph.{Decoder, get_json, post_json, delete}
use ocis_mcp_server.Grant.Arguments.Json.{null}
use ocis_mcp_server.Tools.{DeleteOutput, success, require_confirm}
use ocis_mcp_server.Tools.Bodies.{joined, query_unless_empty}

pub record AppToken : Type 0 where
  pub token : String
  pub label : String
  pub expiry : String
  pub created_at : String
  pub last_used_at : String

pub record CreateAppTokenInput : Type 0 where
  pub label : String
  pub expiry : String

pub record DeleteAppTokenInput : Type 0 where
  pub token : String
  pub confirm : Bool

-- the path with its query, if there is one
unfoldable pub tokens_path : List (String × String) → String
unfolding encode
tokens_path [] = "/auth-app/tokens"
tokens_path (p ∷ rest) = "/auth-app/tokens?" ++ encode (p ∷ rest)

module _ ⦃n : Network⦄ (c : Client) (ctx : Context) where
  unfoldable pub handle_list_app_tokens : ⦃d : Decoder (List AppToken)⦄ → Net (List AppToken)
  handle_list_app_tokens = get_json c ctx "/auth-app/tokens" []

  unfoldable pub handle_create_app_token :
      ⦃d : Decoder AppToken⦄ → CreateAppTokenInput → Net AppToken
  unfolding tokens_path
  handle_create_app_token input =
      post_json c ctx
        (tokens_path (
          joined (query_unless_empty "expiry" input.expiry)
            (query_unless_empty "label" input.label)))
        null

  unfoldable pub handle_delete_app_token : DeleteAppTokenInput → Net DeleteOutput
  unfolding tokens_path
  handle_delete_app_token input = check (require_confirm input.confirm) (
      check (validate_id "token" input.token) (
        and_then (delete c ctx (tokens_path (("token", input.token) ∷ [])))
          λ _. done (success "app token deleted")))
