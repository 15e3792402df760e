-- ===== src/Tools/Names.antt =====
-- internal/tools: the names that the tools are registered under.
use ocis_mcp_server.Base.{String}
use ocis_mcp_server.Tools.Calls.{
  ToolCall, PathCall, IdCall, SpaceCall, ShareCall, UserCall, GroupCall, SearchCall, WorkflowCall,
  NotificationCall, AppTokenCall, SettingsCall, AdminCall, OcmCall, EducationCall,
}
use ocis_mcp_server.Tools.Calls.PathCall.{
  list_files, get_file_info, create_folder, upload_file, download_file, move_file, copy_file,
  delete_file, tag_resource, untag_resource,
}
use ocis_mcp_server.Tools.Calls.IdCall.{
  get_file_versions, restore_file_version, get_resource_by_id, get_resource_metadata,
}
use ocis_mcp_server.Tools.Calls.SpaceCall.{
  list_spaces, list_my_spaces, get_space, create_space, update_space, disable_space, delete_space,
  restore_space, invite_to_space, create_space_link, list_space_permissions, empty_trashbin,
  set_space_image, set_space_readme,
}
use ocis_mcp_server.Tools.Calls.ShareCall.{
  create_share, create_link, list_shares, update_share, update_share_expiration, delete_share,
  list_shared_by_me, list_received_shares, accept_share, reject_share, get_sharing_roles,
}
use ocis_mcp_server.Tools.Calls.UserCall.{
  list_users, get_user, create_user, update_user, delete_user, get_me,
}
use ocis_mcp_server.Tools.Calls.GroupCall.{
  list_groups, get_group, create_group, update_group, delete_group, add_group_member,
  remove_group_member,
}
use ocis_mcp_server.Tools.Calls.SearchCall.{search_files, search_by_tag}
use ocis_mcp_server.Tools.Calls.WorkflowCall.{
  upload_and_share, create_project_space, find_and_download, share_with_link, get_space_overview,
}
use ocis_mcp_server.Tools.Calls.NotificationCall.{list_notifications, delete_notification}
use ocis_mcp_server.Tools.Calls.AppTokenCall.{list_app_tokens, create_app_token, delete_app_token}
use ocis_mcp_server.Tools.Calls.SettingsCall.{list_roles, assign_role, list_assignments}
use ocis_mcp_server.Tools.Calls.AdminCall.{health_check, get_version, get_capabilities, get_config}
use ocis_mcp_server.Tools.Calls.OcmCall.{
  list_ocm_providers, create_ocm_share, list_ocm_shares, list_ocm_received,
}
use ocis_mcp_server.Tools.Calls.EducationCall.{
  list_education_schools, get_education_school, list_education_users, get_education_user,
  create_education_user,
}
use ocis_mcp_server.Tools.Calls.ToolCall.{
  path_call, id_call, space_call, share_call, user_call, group_call, search_call, workflow_call,
  notification_call, app_token_call, settings_call, admin_call, ocm_call, education_call,
}

unfoldable pub path_tool : PathCall → String
path_tool (list_files _) = "ocis_list_files"
path_tool (get_file_info _) = "ocis_get_file_info"
path_tool (create_folder _) = "ocis_create_folder"
path_tool (upload_file _) = "ocis_upload_file"
path_tool (download_file _) = "ocis_download_file"
path_tool (move_file _) = "ocis_move_file"
path_tool (copy_file _) = "ocis_copy_file"
path_tool (delete_file _) = "ocis_delete_file"
path_tool (tag_resource _) = "ocis_tag_resource"
path_tool (untag_resource _) = "ocis_untag_resource"

unfoldable pub id_tool : IdCall → String
id_tool (get_file_versions _) = "ocis_get_file_versions"
id_tool (restore_file_version _) = "ocis_restore_file_version"
id_tool (get_resource_by_id _) = "ocis_get_resource_by_id"
id_tool (get_resource_metadata _) = "ocis_get_resource_metadata"

unfoldable pub space_tool : SpaceCall → String
space_tool (list_spaces _) = "ocis_list_spaces"
space_tool (list_my_spaces _) = "ocis_list_my_spaces"
space_tool (get_space _) = "ocis_get_space"
space_tool (create_space _) = "ocis_create_space"
space_tool (update_space _) = "ocis_update_space"
space_tool (disable_space _) = "ocis_disable_space"
space_tool (delete_space _) = "ocis_delete_space"
space_tool (restore_space _) = "ocis_restore_space"
space_tool (invite_to_space _) = "ocis_invite_to_space"
space_tool (create_space_link _) = "ocis_create_space_link"
space_tool (list_space_permissions _) = "ocis_list_space_permissions"
space_tool (empty_trashbin _) = "ocis_empty_trashbin"
space_tool (set_space_image _) = "ocis_set_space_image"
space_tool (set_space_readme _) = "ocis_set_space_readme"

unfoldable pub share_tool : ShareCall → String
share_tool (create_share _) = "ocis_create_share"
share_tool (create_link _) = "ocis_create_link"
share_tool (list_shares _) = "ocis_list_shares"
share_tool (update_share _) = "ocis_update_share"
share_tool (update_share_expiration _) = "ocis_update_share_expiration"
share_tool (delete_share _) = "ocis_delete_share"
share_tool (list_shared_by_me _) = "ocis_list_shared_by_me"
share_tool (list_received_shares _) = "ocis_list_received_shares"
share_tool (accept_share _) = "ocis_accept_share"
share_tool (reject_share _) = "ocis_reject_share"
share_tool get_sharing_roles = "ocis_get_sharing_roles"

unfoldable pub user_tool : UserCall → String
user_tool (list_users _) = "ocis_list_users"
user_tool (get_user _) = "ocis_get_user"
user_tool (create_user _) = "ocis_create_user"
user_tool (update_user _) = "ocis_update_user"
user_tool (delete_user _) = "ocis_delete_user"
user_tool get_me = "ocis_get_me"

unfoldable pub group_tool : GroupCall → String
group_tool (list_groups _) = "ocis_list_groups"
group_tool (get_group _) = "ocis_get_group"
group_tool (create_group _) = "ocis_create_group"
group_tool (update_group _) = "ocis_update_group"
group_tool (delete_group _) = "ocis_delete_group"
group_tool (add_group_member _) = "ocis_add_group_member"
group_tool (remove_group_member _) = "ocis_remove_group_member"

unfoldable pub search_tool : SearchCall → String
search_tool (search_files _) = "ocis_search"
search_tool (search_by_tag _) = "ocis_search_by_tag"

unfoldable pub workflow_tool : WorkflowCall → String
workflow_tool (upload_and_share _) = "ocis_upload_and_share"
workflow_tool (create_project_space _) = "ocis_create_project_space"
workflow_tool (find_and_download _) = "ocis_find_and_download"
workflow_tool (share_with_link _) = "ocis_share_with_link"
workflow_tool (get_space_overview _) = "ocis_get_space_overview"

unfoldable pub notification_tool : NotificationCall → String
notification_tool list_notifications = "ocis_list_notifications"
notification_tool (delete_notification _) = "ocis_delete_notification"

unfoldable pub app_token_tool : AppTokenCall → String
app_token_tool list_app_tokens = "ocis_list_app_tokens"
app_token_tool (create_app_token _) = "ocis_create_app_token"
app_token_tool (delete_app_token _) = "ocis_delete_app_token"

unfoldable pub settings_tool : SettingsCall → String
settings_tool list_roles = "ocis_list_roles"
settings_tool (assign_role _) = "ocis_assign_role"
settings_tool list_assignments = "ocis_list_assignments"

unfoldable pub admin_tool : AdminCall → String
admin_tool health_check = "ocis_health_check"
admin_tool get_version = "ocis_get_version"
admin_tool get_capabilities = "ocis_get_capabilities"
admin_tool get_config = "ocis_get_config"

unfoldable pub ocm_tool : OcmCall → String
ocm_tool list_ocm_providers = "ocis_ocm_list_providers"
ocm_tool (create_ocm_share _) = "ocis_ocm_create_share"
ocm_tool list_ocm_shares = "ocis_ocm_list_shares"
ocm_tool list_ocm_received = "ocis_ocm_list_received"

unfoldable pub education_tool : EducationCall → String
education_tool list_education_schools = "ocis_list_education_schools"
education_tool (get_education_school _) = "ocis_get_education_school"
education_tool list_education_users = "ocis_list_education_users"
education_tool (get_education_user _) = "ocis_get_education_user"
education_tool (create_education_user _) = "ocis_create_education_user"

unfoldable pub tool_name : ToolCall → String
tool_name (path_call call) = path_tool call
tool_name (id_call call) = id_tool call
tool_name (space_call call) = space_tool call
tool_name (share_call call) = share_tool call
tool_name (user_call call) = user_tool call
tool_name (group_call call) = group_tool call
tool_name (search_call call) = search_tool call
tool_name (workflow_call call) = workflow_tool call
tool_name (notification_call call) = notification_tool call
tool_name (app_token_call call) = app_token_tool call
tool_name (settings_call call) = settings_tool call
tool_name (admin_call call) = admin_tool call
tool_name (ocm_call call) = ocm_tool call
tool_name (education_call call) = education_tool call
