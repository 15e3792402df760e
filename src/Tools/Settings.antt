-- ===== src/Tools/Settings.antt =====
-- internal/tools/settings.go: roles and their assignments.
use ocis_mcp_server.Base.{String, List, [], ◌∷◌}
use ocis_mcp_server.Client.{Network, Client, Context, Net, and_then, check, done, validate_id}
use ocis_mcp_server.Client.Graph.{Decoder, get_json, post_json}
use ocis_mcp_server.Grant.Arguments.Json.{text}
use ocis_mcp_server.Tools.Bodies.{fields}
use ocis_mcp_server.Tools.Users.{User}

pub record SettingsRole : Type 0 where
  pub id : String
  pub name : String
  pub display_name : String
  pub description : String

pub record SettingsRolesResponse : Type 0 where
  pub bundles : List SettingsRole

pub record SettingsAssignment : Type 0 where
  pub id : String
  pub account_uuid : String
  pub role_id : String

pub record SettingsAssignmentsResponse : Type 0 where
  pub assignments : List SettingsAssignment

pub record AssignRoleInput : Type 0 where
  pub user_id : String
  pub role_id : String

module _ ⦃n : Network⦄ (c : Client) (ctx : Context) where
  unfoldable pub handle_list_roles : ⦃d : Decoder SettingsRolesResponse⦄ → Net (List SettingsRole)
  handle_list_roles =
      and_then {A = SettingsRolesResponse}
        (post_json c ctx "/api/v0/settings/roles-list" (fields [])) λ resp. done resp.bundles

  unfoldable pub handle_assign_role :
      ⦃d : Decoder SettingsAssignment⦄ → AssignRoleInput → Net SettingsAssignment
  handle_assign_role input = check (validate_id "user_id" input.user_id) (
      check (validate_id "role_id" input.role_id) (
        post_json c ctx "/api/v0/settings/assignments-add"
          (fields (("account_uuid", text input.user_id) ∷ ("role_id", text input.role_id) ∷ []))))

  unfoldable pub handle_list_assignments :
      ⦃u : Decoder User⦄ → ⦃d : Decoder SettingsAssignmentsResponse⦄ → Net (List SettingsAssignment)
  handle_list_assignments = and_then {A = User} (get_json c ctx "/graph/v1.0/me" []) λ me.
      and_then {A = SettingsAssignmentsResponse}
        (post_json c ctx "/api/v0/settings/assignments-list"
          (fields (("account_uuid", text me.id) ∷ [])))
        λ resp. done resp.assignments
