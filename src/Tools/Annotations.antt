-- ===== src/Tools/Annotations.antt =====
-- internal/tools/helpers.go: the hints that a tool is registered with.
use ocis_mcp_server.Base.{Bool, true, false}
use ocis_mcp_server.Tools.Calls.{
  ToolCall, PathCall, IdCall, SpaceCall, ShareCall, UserCall, GroupCall, SearchCall, WorkflowCall,
  NotificationCall, AppTokenCall, SettingsCall, AdminCall, OcmCall, EducationCall,
}
use ocis_mcp_server.Tools.Calls.PathCall.{
  list_files, get_file_info, create_folder, upload_file, download_file, move_file, copy_file,
  delete_file, tag_resource, untag_resource,
}
use ocis_mcp_server.Tools.Calls.IdCall.{
  get_file_versions, restore_file_version, get_resource_by_id, get_resource_metadata,
}
use ocis_mcp_server.Tools.Calls.SpaceCall.{
  list_spaces, list_my_spaces, get_space, create_space, update_space, disable_space, delete_space,
  restore_space, invite_to_space, create_space_link, list_space_permissions, empty_trashbin,
  set_space_image, set_space_readme,
}
use ocis_mcp_server.Tools.Calls.ShareCall.{
  create_share, create_link, list_shares, update_share, update_share_expiration, delete_share,
  list_shared_by_me, list_received_shares, accept_share, reject_share, get_sharing_roles,
}
use ocis_mcp_server.Tools.Calls.UserCall.{
  list_users, get_user, create_user, update_user, delete_user, get_me,
}
use ocis_mcp_server.Tools.Calls.GroupCall.{
  list_groups, get_group, create_group, update_group, delete_group, add_group_member,
  remove_group_member,
}
use ocis_mcp_server.Tools.Calls.SearchCall.{search_files, search_by_tag}
use ocis_mcp_server.Tools.Calls.WorkflowCall.{
  upload_and_share, create_project_space, find_and_download, share_with_link, get_space_overview,
}
use ocis_mcp_server.Tools.Calls.NotificationCall.{list_notifications, delete_notification}
use ocis_mcp_server.Tools.Calls.AppTokenCall.{list_app_tokens, create_app_token, delete_app_token}
use ocis_mcp_server.Tools.Calls.SettingsCall.{list_roles, assign_role, list_assignments}
use ocis_mcp_server.Tools.Calls.AdminCall.{health_check, get_version, get_capabilities, get_config}
use ocis_mcp_server.Tools.Calls.OcmCall.{
  list_ocm_providers, create_ocm_share, list_ocm_shares, list_ocm_received,
}
use ocis_mcp_server.Tools.Calls.EducationCall.{
  list_education_schools, get_education_school, list_education_users, get_education_user,
  create_education_user,
}
use ocis_mcp_server.Tools.Calls.ToolCall.{
  path_call, id_call, space_call, share_call, user_call, group_call, search_call, workflow_call,
  notification_call, app_token_call, settings_call, admin_call, ocm_call, education_call,
}

-- A missing DestructiveHint counts as true in MCP, so the source always sets it.
pub record ToolAnnotations : Type 0 where
  pub read_only_hint : Bool
  pub destructive_hint : Bool
  pub idempotent_hint : Bool
  pub open_world_hint : Bool

unfoldable pub read_only_annotations : ToolAnnotations
read_only_annotations = record {
  read_only_hint = true;
  destructive_hint = false;
  idempotent_hint = false;
  open_world_hint = true;
}

unfoldable pub mutating_annotations : ToolAnnotations
mutating_annotations = record {
  read_only_hint = false;
  destructive_hint = false;
  idempotent_hint = false;
  open_world_hint = true;
}

unfoldable pub idempotent_annotations : ToolAnnotations
idempotent_annotations = record {
  read_only_hint = false;
  destructive_hint = false;
  idempotent_hint = true;
  open_world_hint = true;
}

unfoldable pub destructive_annotations : ToolAnnotations
destructive_annotations = record {
  read_only_hint = false;
  destructive_hint = true;
  idempotent_hint = false;
  open_world_hint = true;
}

unfoldable pub path_annotations : PathCall → ToolAnnotations
path_annotations (list_files _) = read_only_annotations
path_annotations (get_file_info _) = read_only_annotations
path_annotations (create_folder _) = idempotent_annotations
path_annotations (upload_file _) = mutating_annotations
path_annotations (download_file _) = read_only_annotations
path_annotations (move_file _) = mutating_annotations
path_annotations (copy_file _) = mutating_annotations
path_annotations (delete_file _) = destructive_annotations
path_annotations (tag_resource _) = idempotent_annotations
path_annotations (untag_resource _) = idempotent_annotations

unfoldable pub id_annotations : IdCall → ToolAnnotations
id_annotations (get_file_versions _) = read_only_annotations
id_annotations (restore_file_version _) = mutating_annotations
id_annotations (get_resource_by_id _) = read_only_annotations
id_annotations (get_resource_metadata _) = read_only_annotations

unfoldable pub space_annotations : SpaceCall → ToolAnnotations
space_annotations (list_spaces _) = read_only_annotations
space_annotations (list_my_spaces _) = read_only_annotations
space_annotations (get_space _) = read_only_annotations
space_annotations (create_space _) = mutating_annotations
space_annotations (update_space _) = idempotent_annotations
space_annotations (disable_space _) = destructive_annotations
space_annotations (delete_space _) = destructive_annotations
space_annotations (restore_space _) = idempotent_annotations
space_annotations (invite_to_space _) = mutating_annotations
space_annotations (create_space_link _) = mutating_annotations
space_annotations (list_space_permissions _) = read_only_annotations
space_annotations (empty_trashbin _) = destructive_annotations
space_annotations (set_space_image _) = idempotent_annotations
space_annotations (set_space_readme _) = idempotent_annotations

unfoldable pub share_annotations : ShareCall → ToolAnnotations
share_annotations (create_share _) = mutating_annotations
share_annotations (create_link _) = mutating_annotations
share_annotations (list_shares _) = read_only_annotations
share_annotations (update_share _) = idempotent_annotations
share_annotations (update_share_expiration _) = idempotent_annotations
share_annotations (delete_share _) = destructive_annotations
share_annotations (list_shared_by_me _) = read_only_annotations
share_annotations (list_received_shares _) = read_only_annotations
share_annotations (accept_share _) = idempotent_annotations
share_annotations (reject_share _) = destructive_annotations
share_annotations get_sharing_roles = read_only_annotations

unfoldable pub user_annotations : UserCall → ToolAnnotations
user_annotations (list_users _) = read_only_annotations
user_annotations (get_user _) = read_only_annotations
user_annotations (create_user _) = mutating_annotations
user_annotations (update_user _) = idempotent_annotations
user_annotations (delete_user _) = destructive_annotations
user_annotations get_me = read_only_annotations

unfoldable pub group_annotations : GroupCall → ToolAnnotations
group_annotations (list_groups _) = read_only_annotations
group_annotations (get_group _) = read_only_annotations
group_annotations (create_group _) = mutating_annotations
group_annotations (update_group _) = idempotent_annotations
group_annotations (delete_group _) = destructive_annotations
group_annotations (add_group_member _) = mutating_annotations
group_annotations (remove_group_member _) = destructive_annotations

unfoldable pub search_annotations : SearchCall → ToolAnnotations
search_annotations (search_files _) = read_only_annotations
search_annotations (search_by_tag _) = read_only_annotations

unfoldable pub workflow_annotations : WorkflowCall → ToolAnnotations
workflow_annotations (upload_and_share _) = mutating_annotations
workflow_annotations (create_project_space _) = mutating_annotations
workflow_annotations (find_and_download _) = read_only_annotations
workflow_annotations (share_with_link _) = mutating_annotations
workflow_annotations (get_space_overview _) = read_only_annotations

unfoldable pub notification_annotations : NotificationCall → ToolAnnotations
notification_annotations list_notifications = read_only_annotations
notification_annotations (delete_notification _) = destructive_annotations

unfoldable pub app_token_annotations : AppTokenCall → ToolAnnotations
app_token_annotations list_app_tokens = read_only_annotations
app_token_annotations (create_app_token _) = mutating_annotations
app_token_annotations (delete_app_token _) = destructive_annotations

unfoldable pub settings_annotations : SettingsCall → ToolAnnotations
settings_annotations list_roles = read_only_annotations
settings_annotations (assign_role _) = mutating_annotations
settings_annotations list_assignments = read_only_annotations

unfoldable pub admin_annotations : AdminCall → ToolAnnotations
admin_annotations health_check = read_only_annotations
admin_annotations get_version = read_only_annotations
admin_annotations get_capabilities = read_only_annotations
admin_annotations get_config = read_only_annotations

unfoldable pub ocm_annotations : OcmCall → ToolAnnotations
ocm_annotations list_ocm_providers = read_only_annotations
ocm_annotations (create_ocm_share _) = mutating_annotations
ocm_annotations list_ocm_shares = read_only_annotations
ocm_annotations list_ocm_received = read_only_annotations

unfoldable pub education_annotations : EducationCall → ToolAnnotations
education_annotations list_education_schools = read_only_annotations
education_annotations (get_education_school _) = read_only_annotations
education_annotations list_education_users = read_only_annotations
education_annotations (get_education_user _) = read_only_annotations
education_annotations (create_education_user _) = mutating_annotations

unfoldable pub annotations : ToolCall → ToolAnnotations
annotations (path_call call) = path_annotations call
annotations (id_call call) = id_annotations call
annotations (space_call call) = space_annotations call
annotations (share_call call) = share_annotations call
annotations (user_call call) = user_annotations call
annotations (group_call call) = group_annotations call
annotations (search_call call) = search_annotations call
annotations (workflow_call call) = workflow_annotations call
annotations (notification_call call) = notification_annotations call
annotations (app_token_call call) = app_token_annotations call
annotations (settings_call call) = settings_annotations call
annotations (admin_call call) = admin_annotations call
annotations (ocm_call call) = ocm_annotations call
annotations (education_call call) = education_annotations call
