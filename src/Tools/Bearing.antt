-- ===== src/Tools/Bearing.antt =====
-- The address and the credential of every request that a tool of internal/tools sends.
pub mod Steps
pub mod Paths
pub mod Graph
pub mod Others
use ocis_mcp_server.Base.{
  ℕ, leb, String, List, ◌∷◌, ◌≡◌, refl, true, false, Bool, All, Result, if_elim, ltb, length, ◌&&◌,
  [],
}
use ocis_mcp_server.Client.{Wire, check, validate_id}
use ocis_mcp_server.Client.Payload.{empty}
use ocis_mcp_server.Client.ClientError.{failure}
use ocis_mcp_server.Client.Admits.{Admits, credential}
use ocis_mcp_server.Client.Calls.{
  At, get_raw-Sends, decoded-Sends, get_json-Sends, list_json-Sends, post_json-Sends,
  patch_json-Sends, post_json_raw-Sends, delete-Sends, purge-Sends, propfind-Sends, upload-Sends,
  download-Sends, transfer-Sends, webdav_delete-Sends, search_report-Sends,
}
use ocis_mcp_server.Client.Sends.{
  Sends, done-Sends, fail-Sends, and_then-Sends, check-Sends, in_step-Sends, attempt-Sends,
}
use ocis_mcp_server.Client.FileInfo.{DavResponse}
use ocis_mcp_server.Client.Webdav.{copy}
use ocis_mcp_server.Client.{ClientError}
use ocis_mcp_server.Grant.Level.{Grant}
use ocis_mcp_server.Tools.Files.{on_path}
use ocis_mcp_server.Tools.Shares.{on_item, on_permission}
use ocis_mcp_server.Tools.Spaces.{own_path}
use ocis_mcp_server.Tools.Notifications.{from_raw}
use ocis_mcp_server.Tools.Workflows.{
  UploadAndShareInput, CreateProjectSpaceInput, FindAndDownloadInput, share_uploaded,
  invite_members, download_first,
}
use ocis_mcp_server.Tools.PathSends.{
  IsOpen, finish, quiet-Sends, first_info-Sends, serve_path-Sends, call_paths, call_space,
}
use ocis_mcp_server.Tools.Serve.{
  quiet, serve_tool, serve_path, serve_id, serve_space, serve_share, serve_user, serve_group,
  serve_search, serve_workflow, serve_notification, serve_app_token, serve_settings, serve_admin,
  serve_ocm, serve_education,
}
use ocis_mcp_server.Base.{List}
use ocis_mcp_server.Client.{Network, Client, Context, Net, and_then, done}
use ocis_mcp_server.Client.FileInfo.{DavDecoder}
use ocis_mcp_server.Client.Graph.{Decoder}
use ocis_mcp_server.Tools.Drives.{Drive, Permission, InviteOutput, SharedItem, SharingRole}
use ocis_mcp_server.Tools.Files.{
  Texts, handle_copy_file, handle_create_folder, handle_delete_file, handle_download_file,
  handle_move_file, handle_tag_resource, handle_untag_resource, handle_upload_file,
}
use ocis_mcp_server.Tools.FileReads.{
  ResourceMetadataOutput, handle_get_file_info, handle_get_file_versions, handle_get_resource_by_id,
  handle_get_resource_metadata, handle_list_files, handle_restore_file_version,
}
use ocis_mcp_server.Tools.Spaces.{
  handle_create_space, handle_create_space_link, handle_delete_space, handle_disable_space,
  handle_empty_trashbin, handle_get_space, handle_invite_to_space, handle_list_space_permissions,
  handle_list_spaces, handle_restore_space, handle_set_space_image, handle_set_space_readme,
  handle_update_space,
}
use ocis_mcp_server.Tools.Shares.{
  handle_accept_share, handle_create_link, handle_create_share, handle_delete_share,
  handle_get_sharing_roles, handle_list_received_shares, handle_list_shared_by_me,
  handle_list_shares, handle_reject_share, handle_update_share, handle_update_share_expiration,
}
use ocis_mcp_server.Tools.Users.{
  User, handle_create_user, handle_delete_user, handle_get_me, handle_get_user, handle_list_users,
  handle_update_user,
}
use ocis_mcp_server.Tools.Groups.{
  Group, handle_add_group_member, handle_create_group, handle_delete_group, handle_get_group,
  handle_list_groups, handle_remove_group_member, handle_update_group,
}
use ocis_mcp_server.Tools.Search.{handle_search, handle_search_by_tag}
use ocis_mcp_server.Tools.Workflows.{
  handle_create_project_space, handle_find_and_download, handle_get_space_overview,
  handle_share_with_link, handle_upload_and_share,
}
use ocis_mcp_server.Tools.Notifications.{
  OcsNotificationsResponse, handle_delete_notification, handle_list_notifications,
}
use ocis_mcp_server.Tools.AppTokens.{
  AppToken, handle_create_app_token, handle_delete_app_token, handle_list_app_tokens,
}
use ocis_mcp_server.Tools.Settings.{
  SettingsAssignment, SettingsAssignmentsResponse, SettingsRolesResponse, handle_assign_role,
  handle_list_assignments, handle_list_roles,
}
use ocis_mcp_server.Tools.Admin.{
  OcsCapabilitiesResponse, handle_get_capabilities, handle_get_config, handle_get_version,
  handle_health_check,
}
use ocis_mcp_server.Tools.Ocm.{
  OcmProvider, OcmShare, handle_create_ocm_share, handle_list_ocm_providers,
  handle_list_ocm_received, handle_list_ocm_shares,
}
use ocis_mcp_server.Tools.Education.{
  EducationSchool, EducationUser, handle_create_education_user, handle_get_education_school,
  handle_get_education_user, handle_list_education_schools, handle_list_education_users,
}
use ocis_mcp_server.Tools.Calls.{
  ToolCall, PathCall, IdCall, SpaceCall, ShareCall, UserCall, GroupCall, SearchCall, WorkflowCall,
  NotificationCall, AppTokenCall, SettingsCall, AdminCall, OcmCall, EducationCall,
}
use ocis_mcp_server.Tools.Calls.PathCall.{
  list_files, get_file_info, create_folder, upload_file, download_file, move_file, copy_file,
  delete_file, tag_resource, untag_resource,
}
use ocis_mcp_server.Tools.Calls.IdCall.{
  get_file_versions, restore_file_version, get_resource_by_id, get_resource_metadata,
}
use ocis_mcp_server.Tools.Calls.SpaceCall.{
  list_spaces, list_my_spaces, get_space, create_space, update_space, disable_space, delete_space,
  restore_space, invite_to_space, create_space_link, list_space_permissions, empty_trashbin,
  set_space_image, set_space_readme,
}
use ocis_mcp_server.Tools.Calls.ShareCall.{
  create_share, create_link, list_shares, update_share, update_share_expiration, delete_share,
  list_shared_by_me, list_received_shares, accept_share, reject_share, get_sharing_roles,
}
use ocis_mcp_server.Tools.Calls.UserCall.{
  list_users, get_user, create_user, update_user, delete_user, get_me,
}
use ocis_mcp_server.Tools.Calls.GroupCall.{
  list_groups, get_group, create_group, update_group, delete_group, add_group_member,
  remove_group_member,
}
use ocis_mcp_server.Tools.Calls.SearchCall.{search_files, search_by_tag}
use ocis_mcp_server.Tools.Calls.WorkflowCall.{
  upload_and_share, create_project_space, find_and_download, share_with_link, get_space_overview,
}
use ocis_mcp_server.Tools.Calls.NotificationCall.{list_notifications, delete_notification}
use ocis_mcp_server.Tools.Calls.AppTokenCall.{list_app_tokens, create_app_token, delete_app_token}
use ocis_mcp_server.Tools.Calls.SettingsCall.{list_roles, assign_role, list_assignments}
use ocis_mcp_server.Tools.Calls.AdminCall.{health_check, get_version, get_capabilities, get_config}
use ocis_mcp_server.Tools.Calls.OcmCall.{
  list_ocm_providers, create_ocm_share, list_ocm_shares, list_ocm_received,
}
use ocis_mcp_server.Tools.Calls.EducationCall.{
  list_education_schools, get_education_school, list_education_users, get_education_user,
  create_education_user,
}
use ocis_mcp_server.Tools.Calls.ToolCall.{
  path_call, id_call, space_call, share_call, user_call, group_call, search_call, workflow_call,
  notification_call, app_token_call, settings_call, admin_call, ocm_call, education_call,
}
use ocis_mcp_server.Tools.Bearing.Paths.{rooted-dav_path}
use ocis_mcp_server.Tools.Bearing.Steps.{
  follows_answer, Bearing, here, check1, check2, from_raw-Sends,
}
use ocis_mcp_server.Tools.Bearing.Graph.{
  serve_id-Sends, serve_space-Sends, serve_share-Sends, serve_user-Sends, serve_group-Sends,
}
use ocis_mcp_server.Tools.Bearing.Others.{
  serve_search-Sends, serve_workflow-Sends, serve_notification-Sends, serve_app_token-Sends,
  serve_settings-Sends, serve_admin-Sends, serve_ocm-Sends, serve_education-Sends,
}

any_paths : (paths : List String) → All (λ _. Unit {0}) paths
any_paths [] = tt
any_paths (_ ∷ rest) = (tt, any_paths rest)

module _ ⦃n : Network⦄ (c : Client) (ctx : Context) where
  pub serve-Sends :
      ⦃dav : DavDecoder⦄ ⦃t : Texts⦄ ⦃dr : Decoder Drive⦄ ⦃dp : Decoder Permission⦄
      ⦃di : Decoder InviteOutput⦄ ⦃ds : Decoder SharedItem⦄ ⦃dl : Decoder (List SharingRole)⦄
      ⦃du : Decoder User⦄ ⦃dg : Decoder Group⦄ ⦃dm : Decoder ResourceMetadataOutput⦄
      ⦃dn : Decoder OcsNotificationsResponse⦄ ⦃da : Decoder AppToken⦄
      ⦃dal : Decoder (List AppToken)⦄ ⦃dsr : Decoder SettingsRolesResponse⦄
      ⦃dsa : Decoder SettingsAssignment⦄ ⦃dss : Decoder SettingsAssignmentsResponse⦄
      ⦃dc : Decoder OcsCapabilitiesResponse⦄ ⦃dop : Decoder (List OcmProvider)⦄
      ⦃dos : Decoder OcmShare⦄ ⦃dol : Decoder (List OcmShare)⦄ ⦃des : Decoder EducationSchool⦄
      ⦃deu : Decoder EducationUser⦄ (call : ToolCall)
      → Sends (Admits (Bearing c ctx (follows_answer call))) (serve_tool c ctx call)
  unfolding serve_tool follows_answer
  serve-Sends (path_call call) = serve_path-Sends c ctx call (any_paths (call_paths call)) (record {
    one = λ p _ _. here _ (rooted-dav_path _ p);
    two = λ p q _ _ _ _. here _ (rooted-dav_path _ p);
  })
  serve-Sends (id_call call) = serve_id-Sends c ctx call
  serve-Sends (space_call call) = serve_space-Sends c ctx call
  serve-Sends (share_call call) = serve_share-Sends c ctx call
  serve-Sends (user_call call) = serve_user-Sends c ctx call
  serve-Sends (group_call call) = serve_group-Sends c ctx call
  serve-Sends (search_call call) = serve_search-Sends c ctx call
  serve-Sends (workflow_call call) = serve_workflow-Sends c ctx call
  serve-Sends (notification_call call) = serve_notification-Sends c ctx call
  serve-Sends (app_token_call call) = serve_app_token-Sends c ctx call
  serve-Sends (settings_call call) = serve_settings-Sends c ctx call
  serve-Sends (admin_call call) = serve_admin-Sends c ctx call
  serve-Sends (ocm_call call) = serve_ocm-Sends c ctx call
  serve-Sends (education_call call) = serve_education-Sends c ctx call
