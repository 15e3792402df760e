-- ===== src/Tools/Users.antt =====
-- internal/tools/users.go: the tools on user accounts.
use Prim.Native.String.{◌++◌}
use ocis_mcp_server.Base.{ℕ, String, Bool, Option, List, [], ◌∷◌}
use ocis_mcp_server.Base.Ints.{ℤ}
use ocis_mcp_server.Client.{
  Network, Client, Context, Net, and_then, check, done, validate_id, validate_limit,
}
use ocis_mcp_server.Client.Escape.{path_escape}
use ocis_mcp_server.Client.Graph.{Decoder, get_json, list_json, post_json, patch_json, delete}
use ocis_mcp_server.Grant.Arguments.{Json}
use ocis_mcp_server.Grant.Arguments.Json.{boolean, text}
use ocis_mcp_server.Tools.{DeleteOutput, success, require_confirm}
use ocis_mcp_server.Tools.Bodies.{
  fields, joined, if_given, query_unless_empty, page_query, ListOutput, list_output,
}

pub record GroupRef : Type 0 where
  pub id : String
  pub display_name : String

pub record DriveRef : Type 0 where
  pub id : String
  pub name : String

pub record PasswordProfile : Type 0 where
  pub password : String

pub record AppRoleAssignment : Type 0 where
  pub id : String
  pub app_role_id : String
  pub principal_id : String

pub record User : Type 0 where
  pub id : String
  pub display_name : String
  pub mail : String
  pub on_premises_sam_account_name : String
  pub account_enabled : Option Bool
  pub user_type : String
  pub surname : String
  pub given_name : String
  pub preferred_language : String
  pub member_of : List GroupRef
  pub drive : Option DriveRef
  pub drives : List DriveRef
  pub password_profile : Option PasswordProfile
  pub app_role_assignments : List AppRoleAssignment

pub record ListUsersInput : Type 0 where
  pub search : String
  pub order_by : String
  pub filter : String
  pub limit : ℤ
  pub offset : ℤ

pub record CreateUserInput : Type 0 where
  pub display_name : String
  pub on_premises_sam_account_name : String
  pub mail : String
  pub password : String

pub record UpdateUserInput : Type 0 where
  pub user_id : String
  pub display_name : Option String
  pub mail : Option String
  pub surname : Option String
  pub given_name : Option String
  pub password : Option String
  pub enabled : Option Bool

pub record DeleteUserInput : Type 0 where
  pub user_id : String
  pub confirm : Bool

unfoldable pub user_path : String → String
user_path user_id = "/graph/v1.0/users/" ++ path_escape user_id

unfoldable pub list_query : String → String → String → ℕ → ℤ → List (String × String)
unfolding query_unless_empty page_query
list_query search order_by filter limit offset = joined (query_unless_empty "$search" search) (
    joined (query_unless_empty "$orderby" order_by)
      (joined (query_unless_empty "$filter" filter) (page_query limit offset)))

unfoldable pub password_body : String → Json
password_body password = fields (("password", text password) ∷ [])

unfoldable pub create_user_body : CreateUserInput → List (String × Json)
unfolding password_body
create_user_body input =
    ("displayName", text input.display_name)
    ∷ ("onPremisesSamAccountName", text input.on_premises_sam_account_name)
    ∷ ("mail", text input.mail)
    ∷ ("passwordProfile", password_body input.password)
    ∷ []

unfoldable pub update_user_body : UpdateUserInput → List (String × Json)
unfolding if_given password_body
update_user_body input = joined (if_given "displayName" text input.display_name) (
    joined (if_given "mail" text input.mail) (
      joined (if_given "surname" text input.surname) (
        joined (if_given "givenName" text input.given_name) (
          joined (if_given "passwordProfile" password_body input.password)
            (if_given "accountEnabled" boolean input.enabled)))))

module _ ⦃n : Network⦄ (c : Client) (ctx : Context) ⦃d : Decoder User⦄ where
  unfoldable pub handle_list_users : ListUsersInput → Net (ListOutput User)
  unfolding list_query list_output
  handle_list_users input =
      let limit = validate_limit input.limit in
      and_then
        (list_json c ctx "/graph/v1.0/users"
          (list_query input.search input.order_by input.filter limit input.offset))
        λ users. done (list_output limit input.offset users)

  unfoldable pub handle_get_user : String → Net User
  handle_get_user user_id =
      check (validate_id "user_id" user_id) (get_json c ctx (user_path user_id) [])

  unfoldable pub handle_create_user : CreateUserInput → Net User
  unfolding create_user_body
  handle_create_user input = post_json c ctx "/graph/v1.0/users" (fields (create_user_body input))

  unfoldable pub handle_update_user : UpdateUserInput → Net User
  unfolding update_user_body
  handle_update_user input =
      check (validate_id "user_id" input.user_id)
        (patch_json c ctx (user_path input.user_id) (fields (update_user_body input)))

  unfoldable pub handle_get_me : Net User
  handle_get_me = get_json c ctx "/graph/v1.0/me" []

unfoldable pub handle_delete_user :
    ⦃n : Network⦄ → Client → Context → DeleteUserInput → Net DeleteOutput
handle_delete_user c ctx input = check (require_confirm input.confirm) (
    check (validate_id "user_id" input.user_id)
      (and_then (delete c ctx (user_path input.user_id)) λ _. done (success "user deleted")))
