-- ===== src/Tools/Education.antt =====
-- internal/tools/education.go: schools and their users.
use Prim.Native.String.{◌++◌}
use ocis_mcp_server.Base.{String, List, [], ◌∷◌}
use ocis_mcp_server.Client.{Network, Client, Context, Net, check, validate_id}
use ocis_mcp_server.Client.Escape.{path_escape}
use ocis_mcp_server.Client.Graph.{Decoder, get_json, list_json, post_json}
use ocis_mcp_server.Grant.Arguments.{Json}
use ocis_mcp_server.Grant.Arguments.Json.{text}
use ocis_mcp_server.Tools.Bodies.{fields, unless_empty}
use ocis_mcp_server.Tools.Search.{required}
use ocis_mcp_server.Tools.Users.{password_body}

pub record EducationSchool : Type 0 where
  pub id : String
  pub display_name : String
  pub school_number : String
  pub termination_date : String

pub record EducationUser : Type 0 where
  pub id : String
  pub display_name : String
  pub mail : String
  pub username : String
  pub primary_role : String
  pub member_of : List EducationSchool

pub record CreateEducationUserInput : Type 0 where
  pub display_name : String
  pub username : String
  pub mail : String
  pub password : String
  pub primary_role : String

unfoldable pub education_user_body : CreateEducationUserInput → List (String × Json)
unfolding password_body unless_empty
education_user_body input =
    ("displayName", text input.display_name)
    ∷ ("onPremisesSamAccountName", text input.username)
    ∷ ("mail", text input.mail)
    ∷ ("passwordProfile", password_body input.password)
    ∷ unless_empty "primaryRole" input.primary_role

module _ ⦃n : Network⦄ (c : Client) (ctx : Context) where
  unfoldable pub handle_list_education_schools :
      ⦃d : Decoder EducationSchool⦄ → Net (List EducationSchool)
  handle_list_education_schools = list_json c ctx "/graph/v1.0/education/schools" []

  unfoldable pub handle_get_education_school :
      ⦃d : Decoder EducationSchool⦄ → String → Net EducationSchool
  handle_get_education_school school_id =
      check (validate_id "school_id" school_id)
        (get_json c ctx ("/graph/v1.0/education/schools/" ++ path_escape school_id) [])

  unfoldable pub handle_list_education_users :
      ⦃d : Decoder EducationUser⦄ → Net (List EducationUser)
  handle_list_education_users = list_json c ctx "/graph/v1.0/education/users" []

  unfoldable pub handle_get_education_user :
      ⦃d : Decoder EducationUser⦄ → String → Net EducationUser
  handle_get_education_user user_id =
      check (validate_id "user_id" user_id)
        (get_json c ctx ("/graph/v1.0/education/users/" ++ path_escape user_id) [])

  unfoldable pub handle_create_education_user :
      ⦃d : Decoder EducationUser⦄ → CreateEducationUserInput → Net EducationUser
  unfolding education_user_body required
  handle_create_education_user input = check (required "display_name" input.display_name) (
      check (required "username" input.username) (
        check (required "mail" input.mail)
          (post_json c ctx "/graph/v1.0/education/users" (fields (education_user_body input)))))
