-- ===== src/Tools/Spaces.antt =====
-- internal/tools/spaces.go: the tools on spaces.
use Prim.Native.String.{◌++◌}
use ocis_mcp_server.Base.{String, Bool, false, Option, List, [], ◌∷◌, if◌then◌else◌}
use ocis_mcp_server.Base.Ints.{ℤ, is_positive}
use ocis_mcp_server.Client.{
  Network, Client, Context, Net, and_then, check, done, in_step, validate_id, validate_limit,
}
use ocis_mcp_server.Client.Escape.{path_escape}
use ocis_mcp_server.Client.Graph.{
  Decoder, get_json, list_json, post_json, patch_json, delete, delete_with_headers,
}
use ocis_mcp_server.Client.Payload.{empty}
use ocis_mcp_server.Client.Webdav.{upload, webdav_delete}
use ocis_mcp_server.Grant.Arguments.{Json}
use ocis_mcp_server.Grant.Arguments.Json.{boolean, text}
use ocis_mcp_server.Tools.{DeleteOutput, success, require_confirm}
use ocis_mcp_server.Tools.Bodies.{
  fields, joined, unless_empty, if_given, total_json, invite_body, link_type, query_unless_empty,
  page_query, ListOutput, list_output,
}
use ocis_mcp_server.Tools.Drives.{Drive, Permission, InviteOutput, filter_granted_drives}

pub record ListSpacesInput : Type 0 where
  pub filter : String
  pub limit : ℤ
  pub offset : ℤ

pub record CreateSpaceInput : Type 0 where
  pub name : String
  pub description : String
  pub quota : ℤ

pub record UpdateSpaceInput : Type 0 where
  pub space_id : String
  pub name : Option String
  pub description : Option String
  pub quota : Option ℤ

pub record ConfirmedSpaceInput : Type 0 where
  pub space_id : String
  pub confirm : Bool

pub record InviteToSpaceInput : Type 0 where
  pub space_id : String
  pub recipients : List String
  pub roles : List String

pub record CreateSpaceLinkInput : Type 0 where
  pub space_id : String
  pub kind : String
  pub password : String

pub record SetSpaceSpecialInput : Type 0 where
  pub space_id : String
  pub content : String

unfoldable pub drive_path : String → String
drive_path space_id = "/graph/v1.0/drives/" ++ path_escape space_id

-- `/graph/v1beta1/drives/<space>/root/<rest>`
unfoldable pub root_path : String → String → String
root_path space_id rest = "/graph/v1beta1/drives/" ++ (path_escape space_id ++ ("/root/" ++ rest))

-- `/dav/spaces/<space>/<rest>`, of a name that the program chose
unfoldable pub own_path : String → String → String
own_path space_id rest = "/dav/spaces/" ++ (path_escape space_id ++ ("/" ++ rest))

unfoldable pub create_space_body : String → String → ℤ → List (String × Json)
unfolding unless_empty total_json
create_space_body name description quota =
    ("name", text name)
    ∷ ("driveType", text "project")
    ∷ joined (unless_empty "description" description)
        (if is_positive quota then ("quota", total_json quota) ∷ [] else [])

module _ ⦃n : Network⦄ (c : Client) (ctx : Context) where
  -- with "/graph/v1.0/drives" for all spaces and "/graph/v1.0/me/drives" for the user's
  unfoldable pub handle_list_spaces :
      ⦃d : Decoder Drive⦄ → String → ListSpacesInput → Net (ListOutput Drive)
  unfolding page_query query_unless_empty list_output filter_granted_drives validate_limit
  handle_list_spaces base_path input =
      let limit = validate_limit input.limit in
      and_then
        (list_json c ctx base_path
          (joined (query_unless_empty "$filter" input.filter) (page_query limit input.offset)))
        λ drives. done (list_output limit input.offset (filter_granted_drives ctx drives))

  unfoldable pub handle_get_space : ⦃d : Decoder Drive⦄ → String → Net Drive
  handle_get_space space_id =
      check (validate_id "space_id" space_id) (get_json c ctx (drive_path space_id) [])

  unfoldable pub handle_create_space : ⦃d : Decoder Drive⦄ → CreateSpaceInput → Net Drive
  unfolding create_space_body
  handle_create_space input =
      post_json c ctx "/graph/v1.0/drives"
        (fields (create_space_body input.name input.description input.quota))

  unfoldable pub update_space_body : UpdateSpaceInput → List (String × Json)
  unfolding if_given total_json
  update_space_body input = joined (if_given "name" text input.name) (
      joined (if_given "description" text input.description)
        (if_given "quota" total_json input.quota))

  unfoldable pub handle_update_space : ⦃d : Decoder Drive⦄ → UpdateSpaceInput → Net Drive
  unfolding update_space_body
  handle_update_space input =
      check (validate_id "space_id" input.space_id)
        (patch_json c ctx (drive_path input.space_id) (fields (update_space_body input)))

  unfoldable pub handle_disable_space : ConfirmedSpaceInput → Net DeleteOutput
  handle_disable_space input = check (require_confirm input.confirm) (
      check (validate_id "space_id" input.space_id)
        (and_then (delete c ctx (drive_path input.space_id)) λ _. done (success "space disabled")))

  unfoldable pub handle_delete_space : ConfirmedSpaceInput → Net DeleteOutput
  handle_delete_space input = check (require_confirm input.confirm) (
      check (validate_id "space_id" input.space_id) (
        and_then (delete_with_headers c ctx (drive_path input.space_id) (("Purge", "T") ∷ []))
          λ _. done (success "space permanently deleted")))

  unfoldable pub handle_restore_space : ⦃d : Decoder Drive⦄ → String → Net Drive
  handle_restore_space space_id =
      check (validate_id "space_id" space_id)
        (patch_json c ctx (drive_path space_id) (fields (("@UI.Hidden", boolean false) ∷ [])))

  unfoldable pub handle_invite_to_space :
      ⦃d : Decoder InviteOutput⦄ → InviteToSpaceInput → Net InviteOutput
  unfolding invite_body
  handle_invite_to_space input = check (validate_id "space_id" input.space_id) (
      post_json c ctx (root_path input.space_id "invite")
        (fields (invite_body input.recipients input.roles)))

  unfoldable pub handle_create_space_link :
      ⦃d : Decoder Permission⦄ → CreateSpaceLinkInput → Net Permission
  unfolding link_type unless_empty
  handle_create_space_link input = check (validate_id "space_id" input.space_id) (
      post_json c ctx (root_path input.space_id "createLink")
        (fields (("type", text (link_type input.kind)) ∷ unless_empty "password" input.password)))

  unfoldable pub handle_list_space_permissions :
      ⦃d : Decoder Permission⦄ → String → Net (List Permission)
  handle_list_space_permissions space_id =
      check (validate_id "space_id" space_id)
        (list_json c ctx (root_path space_id "permissions") [])

  unfoldable pub handle_empty_trashbin : ConfirmedSpaceInput → Net DeleteOutput
  handle_empty_trashbin input = check (require_confirm input.confirm) (
      check (validate_id "space_id" input.space_id) (
        and_then (webdav_delete c ctx (own_path input.space_id ".trash/"))
          λ _. done (success "trashbin emptied")))

  -- the content of the input is not sent
  unfoldable pub handle_set_space_image : SetSpaceSpecialInput → Net DeleteOutput
  unfolding in_step
  handle_set_space_image input = check (validate_id "space_id" input.space_id) (
      and_then
        (in_step "uploading space image"
          (upload c ctx (own_path input.space_id ".space/image") empty ""))
        λ _. done (success "space image set"))

  unfoldable pub handle_set_space_readme : SetSpaceSpecialInput → Net DeleteOutput
  unfolding in_step
  handle_set_space_readme input = check (validate_id "space_id" input.space_id) (
      and_then
        (in_step "uploading space readme"
          (upload c ctx (own_path input.space_id ".space/readme.md") empty "text/markdown"))
        λ _. done (success "space readme set"))
