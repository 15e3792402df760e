-- ===== src/Tools/Groups.antt =====
-- internal/tools/groups.go: the tools on groups and their members.
use Prim.Native.String.{◌++◌}
use ocis_mcp_server.Base.{String, Bool, Option, List, [], ◌∷◌}
use ocis_mcp_server.Base.Ints.{ℤ}
use ocis_mcp_server.Client.{
  Network, Client, Context, Net, and_then, check, done, validate_id, validate_limit,
}
use ocis_mcp_server.Client.Escape.{path_escape}
use ocis_mcp_server.Client.Graph.{
  Decoder, get_json, list_json, post_json, patch_json, post_json_raw, delete,
}
use ocis_mcp_server.Grant.Arguments.{Json}
use ocis_mcp_server.Grant.Arguments.Json.{text}
use ocis_mcp_server.Tools.{DeleteOutput, success, require_confirm}
use ocis_mcp_server.Tools.Bodies.{fields, joined, unless_empty, if_given, ListOutput, list_output}
use ocis_mcp_server.Tools.Users.{User, user_path, list_query}

pub record Group : Type 0 where
  pub id : String
  pub display_name : String
  pub description : String
  pub group_types : List String
  pub members : List User

pub record ListGroupsInput : Type 0 where
  pub search : String
  pub order_by : String
  pub filter : String
  pub limit : ℤ
  pub offset : ℤ

pub record CreateGroupInput : Type 0 where
  pub display_name : String
  pub description : String

pub record UpdateGroupInput : Type 0 where
  pub group_id : String
  pub display_name : Option String
  pub description : Option String

pub record DeleteGroupInput : Type 0 where
  pub group_id : String
  pub confirm : Bool

pub record AddGroupMemberInput : Type 0 where
  pub group_id : String
  pub user_id : String

pub record RemoveGroupMemberInput : Type 0 where
  pub group_id : String
  pub user_id : String
  pub confirm : Bool

unfoldable pub group_path : String → String
group_path group_id = "/graph/v1.0/groups/" ++ path_escape group_id

unfoldable pub update_group_body : UpdateGroupInput → List (String × Json)
unfolding if_given
update_group_body input =
    joined (if_given "displayName" text input.display_name)
      (if_given "description" text input.description)

module _ ⦃n : Network⦄ (c : Client) (ctx : Context) ⦃d : Decoder Group⦄ where
  unfoldable pub handle_list_groups : ListGroupsInput → Net (ListOutput Group)
  unfolding list_query list_output
  handle_list_groups input =
      let limit = validate_limit input.limit in
      and_then
        (list_json c ctx "/graph/v1.0/groups"
          (list_query input.search input.order_by input.filter limit input.offset))
        λ groups. done (list_output limit input.offset groups)

  unfoldable pub handle_get_group : String → Net Group
  handle_get_group group_id =
      check (validate_id "group_id" group_id)
        (get_json c ctx (group_path group_id) (("$expand", "members") ∷ []))

  unfoldable pub handle_create_group : CreateGroupInput → Net Group
  unfolding unless_empty
  handle_create_group input = post_json c ctx "/graph/v1.0/groups" (
      fields
        (("displayName", text input.display_name) ∷ unless_empty "description" input.description))

  unfoldable pub handle_update_group : UpdateGroupInput → Net Group
  unfolding update_group_body
  handle_update_group input =
      check (validate_id "group_id" input.group_id)
        (patch_json c ctx (group_path input.group_id) (fields (update_group_body input)))

module _ ⦃n : Network⦄ (c : Client) (ctx : Context) where
  unfoldable pub handle_delete_group : DeleteGroupInput → Net DeleteOutput
  handle_delete_group input = check (require_confirm input.confirm) (
      check (validate_id "group_id" input.group_id)
        (and_then (delete c ctx (group_path input.group_id)) λ _. done (success "group deleted")))

  unfoldable pub handle_add_group_member : AddGroupMemberInput → Net DeleteOutput
  handle_add_group_member input = check (validate_id "group_id" input.group_id) (
      check (validate_id "user_id" input.user_id) (
        and_then
          (post_json_raw c ctx (group_path input.group_id ++ "/members/$ref")
            (fields (("@odata.id", text (c.base_url ++ user_path input.user_id)) ∷ [])))
          λ _. done (success "member added")))

  unfoldable pub handle_remove_group_member : RemoveGroupMemberInput → Net DeleteOutput
  handle_remove_group_member input = check (require_confirm input.confirm) (
      check (validate_id "group_id" input.group_id) (
        check (validate_id "user_id" input.user_id) (
          and_then
            (delete c ctx (
              group_path input.group_id ++ ("/members/" ++ (path_escape input.user_id ++ "/$ref"))))
            λ _. done (success "member removed"))))
