-- ===== src/Tools/Serve.antt =====
-- internal/tools: the handler that serves each call of a tool.
use ocis_mcp_server.Base.{List}
use ocis_mcp_server.Client.{Network, Client, Context, Net, and_then, done}
use ocis_mcp_server.Client.FileInfo.{DavDecoder}
use ocis_mcp_server.Client.Graph.{Decoder}
use ocis_mcp_server.Tools.Drives.{Drive, Permission, InviteOutput, SharedItem, SharingRole}
use ocis_mcp_server.Tools.Files.{
  Texts, handle_copy_file, handle_create_folder, handle_delete_file, handle_download_file,
  handle_move_file, handle_tag_resource, handle_untag_resource, handle_upload_file,
}
use ocis_mcp_server.Tools.FileReads.{
  ResourceMetadataOutput, handle_get_file_info, handle_get_file_versions, handle_get_resource_by_id,
  handle_get_resource_metadata, handle_list_files, handle_restore_file_version,
}
use ocis_mcp_server.Tools.Spaces.{
  handle_create_space, handle_create_space_link, handle_delete_space, handle_disable_space,
  handle_empty_trashbin, handle_get_space, handle_invite_to_space, handle_list_space_permissions,
  handle_list_spaces, handle_restore_space, handle_set_space_image, handle_set_space_readme,
  handle_update_space,
}
use ocis_mcp_server.Tools.Shares.{
  handle_accept_share, handle_create_link, handle_create_share, handle_delete_share,
  handle_get_sharing_roles, handle_list_received_shares, handle_list_shared_by_me,
  handle_list_shares, handle_reject_share, handle_update_share, handle_update_share_expiration,
}
use ocis_mcp_server.Tools.Users.{
  User, handle_create_user, handle_delete_user, handle_get_me, handle_get_user, handle_list_users,
  handle_update_user,
}
use ocis_mcp_server.Tools.Groups.{
  Group, handle_add_group_member, handle_create_group, handle_delete_group, handle_get_group,
  handle_list_groups, handle_remove_group_member, handle_update_group,
}
use ocis_mcp_server.Tools.Search.{handle_search, handle_search_by_tag}
use ocis_mcp_server.Tools.Workflows.{
  handle_create_project_space, handle_find_and_download, handle_get_space_overview,
  handle_share_with_link, handle_upload_and_share,
}
use ocis_mcp_server.Tools.Notifications.{
  OcsNotificationsResponse, handle_delete_notification, handle_list_notifications,
}
use ocis_mcp_server.Tools.AppTokens.{
  AppToken, handle_create_app_token, handle_delete_app_token, handle_list_app_tokens,
}
use ocis_mcp_server.Tools.Settings.{
  SettingsAssignment, SettingsAssignmentsResponse, SettingsRolesResponse, handle_assign_role,
  handle_list_assignments, handle_list_roles,
}
use ocis_mcp_server.Tools.Admin.{
  OcsCapabilitiesResponse, handle_get_capabilities, handle_get_config, handle_get_version,
  handle_health_check,
}
use ocis_mcp_server.Tools.Ocm.{
  OcmProvider, OcmShare, handle_create_ocm_share, handle_list_ocm_providers,
  handle_list_ocm_received, handle_list_ocm_shares,
}
use ocis_mcp_server.Tools.Education.{
  EducationSchool, EducationUser, handle_create_education_user, handle_get_education_school,
  handle_get_education_user, handle_list_education_schools, handle_list_education_users,
}
use ocis_mcp_server.Tools.Calls.{
  ToolCall, PathCall, IdCall, SpaceCall, ShareCall, UserCall, GroupCall, SearchCall, WorkflowCall,
  NotificationCall, AppTokenCall, SettingsCall, AdminCall, OcmCall, EducationCall,
}
use ocis_mcp_server.Tools.Calls.PathCall.{
  list_files, get_file_info, create_folder, upload_file, download_file, move_file, copy_file,
  delete_file, tag_resource, untag_resource,
}
use ocis_mcp_server.Tools.Calls.IdCall.{
  get_file_versions, restore_file_version, get_resource_by_id, get_resource_metadata,
}
use ocis_mcp_server.Tools.Calls.SpaceCall.{
  list_spaces, list_my_spaces, get_space, create_space, update_space, disable_space, delete_space,
  restore_space, invite_to_space, create_space_link, list_space_permissions, empty_trashbin,
  set_space_image, set_space_readme,
}
use ocis_mcp_server.Tools.Calls.ShareCall.{
  create_share, create_link, list_shares, update_share, update_share_expiration, delete_share,
  list_shared_by_me, list_received_shares, accept_share, reject_share, get_sharing_roles,
}
use ocis_mcp_server.Tools.Calls.UserCall.{
  list_users, get_user, create_user, update_user, delete_user, get_me,
}
use ocis_mcp_server.Tools.Calls.GroupCall.{
  list_groups, get_group, create_group, update_group, delete_group, add_group_member,
  remove_group_member,
}
use ocis_mcp_server.Tools.Calls.SearchCall.{search_files, search_by_tag}
use ocis_mcp_server.Tools.Calls.WorkflowCall.{
  upload_and_share, create_project_space, find_and_download, share_with_link, get_space_overview,
}
use ocis_mcp_server.Tools.Calls.NotificationCall.{list_notifications, delete_notification}
use ocis_mcp_server.Tools.Calls.AppTokenCall.{list_app_tokens, create_app_token, delete_app_token}
use ocis_mcp_server.Tools.Calls.SettingsCall.{list_roles, assign_role, list_assignments}
use ocis_mcp_server.Tools.Calls.AdminCall.{health_check, get_version, get_capabilities, get_config}
use ocis_mcp_server.Tools.Calls.OcmCall.{
  list_ocm_providers, create_ocm_share, list_ocm_shares, list_ocm_received,
}
use ocis_mcp_server.Tools.Calls.EducationCall.{
  list_education_schools, get_education_school, list_education_users, get_education_user,
  create_education_user,
}
use ocis_mcp_server.Tools.Calls.ToolCall.{
  path_call, id_call, space_call, share_call, user_call, group_call, search_call, workflow_call,
  notification_call, app_token_call, settings_call, admin_call, ocm_call, education_call,
}

-- the call as oCIS sees it: what the handler returns is left aside
unfoldable pub quiet {ℓ} : {A : Type ℓ} → Net A → Net (Unit {0})
quiet m = and_then m λ _. done tt

module _ ⦃n : Network⦄ ⦃dav : DavDecoder⦄ ⦃t : Texts⦄ (c : Client) (ctx : Context) where
  unfoldable pub serve_path : PathCall → Net (Unit {0})
  unfolding quiet
  serve_path (list_files input) = quiet (handle_list_files c ctx input)
  serve_path (get_file_info input) = quiet (handle_get_file_info c ctx input)
  serve_path (create_folder input) = quiet (handle_create_folder c ctx input)
  serve_path (upload_file input) = quiet (handle_upload_file c ctx input)
  serve_path (download_file input) = quiet (handle_download_file c ctx input)
  serve_path (move_file input) = quiet (handle_move_file c ctx input)
  serve_path (copy_file input) = quiet (handle_copy_file c ctx input)
  serve_path (delete_file input) = quiet (handle_delete_file c ctx input)
  serve_path (tag_resource input) = quiet (handle_tag_resource c ctx input)
  serve_path (untag_resource input) = quiet (handle_untag_resource c ctx input)

module _ ⦃n : Network⦄ ⦃dav : DavDecoder⦄ ⦃dm : Decoder ResourceMetadataOutput⦄ (c : Client)
    (ctx : Context) where
  unfoldable pub serve_id : IdCall → Net (Unit {0})
  unfolding quiet
  serve_id (get_file_versions input) = quiet (handle_get_file_versions c ctx input)
  serve_id (restore_file_version input) = quiet (handle_restore_file_version c ctx input)
  serve_id (get_resource_by_id input) = quiet (handle_get_resource_by_id c ctx input)
  serve_id (get_resource_metadata input) = quiet (handle_get_resource_metadata c ctx input)

module _ ⦃n : Network⦄ ⦃dr : Decoder Drive⦄ ⦃dp : Decoder Permission⦄ ⦃di : Decoder InviteOutput⦄
    (c : Client) (ctx : Context) where
  unfoldable pub serve_space : SpaceCall → Net (Unit {0})
  unfolding quiet
  serve_space (list_spaces input) = quiet (handle_list_spaces c ctx "/graph/v1.0/drives" input)
  serve_space (list_my_spaces input) =
      quiet (handle_list_spaces c ctx "/graph/v1.0/me/drives" input)
  serve_space (get_space input) = quiet (handle_get_space c ctx input)
  serve_space (create_space input) = quiet (handle_create_space c ctx input)
  serve_space (update_space input) = quiet (handle_update_space c ctx input)
  serve_space (disable_space input) = quiet (handle_disable_space c ctx input)
  serve_space (delete_space input) = quiet (handle_delete_space c ctx input)
  serve_space (restore_space input) = quiet (handle_restore_space c ctx input)
  serve_space (invite_to_space input) = quiet (handle_invite_to_space c ctx input)
  serve_space (create_space_link input) = quiet (handle_create_space_link c ctx input)
  serve_space (list_space_permissions input) = quiet (handle_list_space_permissions c ctx input)
  serve_space (empty_trashbin input) = quiet (handle_empty_trashbin c ctx input)
  serve_space (set_space_image input) = quiet (handle_set_space_image c ctx input)
  serve_space (set_space_readme input) = quiet (handle_set_space_readme c ctx input)

module _ ⦃n : Network⦄ ⦃dp : Decoder Permission⦄ ⦃di : Decoder InviteOutput⦄
    ⦃ds : Decoder SharedItem⦄ ⦃dl : Decoder (List SharingRole)⦄ (c : Client) (ctx : Context) where
  unfoldable pub serve_share : ShareCall → Net (Unit {0})
  unfolding quiet
  serve_share (create_share input) = quiet (handle_create_share c ctx input)
  serve_share (create_link input) = quiet (handle_create_link c ctx input)
  serve_share (list_shares input) = quiet (handle_list_shares c ctx input)
  serve_share (update_share input) = quiet (handle_update_share c ctx input)
  serve_share (update_share_expiration input) = quiet (handle_update_share_expiration c ctx input)
  serve_share (delete_share input) = quiet (handle_delete_share c ctx input)
  serve_share (list_shared_by_me input) = quiet (handle_list_shared_by_me c ctx input)
  serve_share (list_received_shares input) = quiet (handle_list_received_shares c ctx input)
  serve_share (accept_share input) = quiet (handle_accept_share c ctx input)
  serve_share (reject_share input) = quiet (handle_reject_share c ctx input)
  serve_share get_sharing_roles = quiet (handle_get_sharing_roles c ctx)

module _ ⦃n : Network⦄ ⦃du : Decoder User⦄ (c : Client) (ctx : Context) where
  unfoldable pub serve_user : UserCall → Net (Unit {0})
  unfolding quiet
  serve_user (list_users input) = quiet (handle_list_users c ctx input)
  serve_user (get_user input) = quiet (handle_get_user c ctx input)
  serve_user (create_user input) = quiet (handle_create_user c ctx input)
  serve_user (update_user input) = quiet (handle_update_user c ctx input)
  serve_user (delete_user input) = quiet (handle_delete_user c ctx input)
  serve_user get_me = quiet (handle_get_me c ctx)

module _ ⦃n : Network⦄ ⦃dg : Decoder Group⦄ (c : Client) (ctx : Context) where
  unfoldable pub serve_group : GroupCall → Net (Unit {0})
  unfolding quiet
  serve_group (list_groups input) = quiet (handle_list_groups c ctx input)
  serve_group (get_group input) = quiet (handle_get_group c ctx input)
  serve_group (create_group input) = quiet (handle_create_group c ctx input)
  serve_group (update_group input) = quiet (handle_update_group c ctx input)
  serve_group (delete_group input) = quiet (handle_delete_group c ctx input)
  serve_group (add_group_member input) = quiet (handle_add_group_member c ctx input)
  serve_group (remove_group_member input) = quiet (handle_remove_group_member c ctx input)

module _ ⦃n : Network⦄ ⦃dav : DavDecoder⦄ (c : Client) (ctx : Context) where
  unfoldable pub serve_search : SearchCall → Net (Unit {0})
  unfolding quiet
  serve_search (search_files input) = quiet (handle_search c ctx input)
  serve_search (search_by_tag input) = quiet (handle_search_by_tag c ctx input)

module _ ⦃n : Network⦄ ⦃dav : DavDecoder⦄ ⦃t : Texts⦄ ⦃dr : Decoder Drive⦄ ⦃dp : Decoder Permission⦄
    ⦃di : Decoder InviteOutput⦄ (c : Client) (ctx : Context) where
  unfoldable pub serve_workflow : WorkflowCall → Net (Unit {0})
  unfolding quiet
  serve_workflow (upload_and_share input) = quiet (handle_upload_and_share c ctx input)
  serve_workflow (create_project_space input) = quiet (handle_create_project_space c ctx input)
  serve_workflow (find_and_download input) = quiet (handle_find_and_download c ctx input)
  serve_workflow (share_with_link input) = quiet (handle_share_with_link c ctx input)
  serve_workflow (get_space_overview input) = quiet (handle_get_space_overview c ctx input)

module _ ⦃n : Network⦄ ⦃dn : Decoder OcsNotificationsResponse⦄ (c : Client) (ctx : Context) where
  unfoldable pub serve_notification : NotificationCall → Net (Unit {0})
  unfolding quiet
  serve_notification list_notifications = quiet (handle_list_notifications c ctx)
  serve_notification (delete_notification input) = quiet (handle_delete_notification c ctx input)

module _ ⦃n : Network⦄ ⦃da : Decoder AppToken⦄ ⦃dal : Decoder (List AppToken)⦄ (c : Client)
    (ctx : Context) where
  unfoldable pub serve_app_token : AppTokenCall → Net (Unit {0})
  unfolding quiet
  serve_app_token list_app_tokens = quiet (handle_list_app_tokens c ctx)
  serve_app_token (create_app_token input) = quiet (handle_create_app_token c ctx input)
  serve_app_token (delete_app_token input) = quiet (handle_delete_app_token c ctx input)

module _ ⦃n : Network⦄ ⦃dsr : Decoder SettingsRolesResponse⦄ ⦃dsa : Decoder SettingsAssignment⦄
    ⦃dss : Decoder SettingsAssignmentsResponse⦄ ⦃du : Decoder User⦄ (c : Client)
    (ctx : Context) where
  unfoldable pub serve_settings : SettingsCall → Net (Unit {0})
  unfolding quiet
  serve_settings list_roles = quiet (handle_list_roles c ctx)
  serve_settings (assign_role input) = quiet (handle_assign_role c ctx input)
  serve_settings list_assignments = quiet (handle_list_assignments c ctx)

module _ ⦃n : Network⦄ ⦃dc : Decoder OcsCapabilitiesResponse⦄ (c : Client) (ctx : Context) where
  unfoldable pub serve_admin : AdminCall → Net (Unit {0})
  unfolding quiet
  serve_admin health_check = quiet (handle_health_check c ctx)
  serve_admin get_version = quiet (handle_get_version c ctx)
  serve_admin get_capabilities = quiet (handle_get_capabilities c ctx)
  serve_admin get_config = quiet (handle_get_config c ctx)

module _ ⦃n : Network⦄ ⦃dop : Decoder (List OcmProvider)⦄ ⦃dos : Decoder OcmShare⦄
    ⦃dol : Decoder (List OcmShare)⦄ (c : Client) (ctx : Context) where
  unfoldable pub serve_ocm : OcmCall → Net (Unit {0})
  unfolding quiet
  serve_ocm list_ocm_providers = quiet (handle_list_ocm_providers c ctx)
  serve_ocm (create_ocm_share input) = quiet (handle_create_ocm_share c ctx input)
  serve_ocm list_ocm_shares = quiet (handle_list_ocm_shares c ctx)
  serve_ocm list_ocm_received = quiet (handle_list_ocm_received c ctx)

module _ ⦃n : Network⦄ ⦃des : Decoder EducationSchool⦄ ⦃deu : Decoder EducationUser⦄ (c : Client)
    (ctx : Context) where
  unfoldable pub serve_education : EducationCall → Net (Unit {0})
  unfolding quiet
  serve_education list_education_schools = quiet (handle_list_education_schools c ctx)
  serve_education (get_education_school input) = quiet (handle_get_education_school c ctx input)
  serve_education list_education_users = quiet (handle_list_education_users c ctx)
  serve_education (get_education_user input) = quiet (handle_get_education_user c ctx input)
  serve_education (create_education_user input) = quiet (handle_create_education_user c ctx input)

module _ ⦃n : Network⦄ ⦃dav : DavDecoder⦄ ⦃t : Texts⦄ ⦃dr : Decoder Drive⦄ ⦃dp : Decoder Permission⦄
    ⦃di : Decoder InviteOutput⦄ ⦃ds : Decoder SharedItem⦄ ⦃dl : Decoder (List SharingRole)⦄
    ⦃du : Decoder User⦄ ⦃dg : Decoder Group⦄ ⦃dm : Decoder ResourceMetadataOutput⦄
    ⦃dn : Decoder OcsNotificationsResponse⦄ ⦃da : Decoder AppToken⦄ ⦃dal : Decoder (List AppToken)⦄
    ⦃dsr : Decoder SettingsRolesResponse⦄ ⦃dsa : Decoder SettingsAssignment⦄
    ⦃dss : Decoder SettingsAssignmentsResponse⦄ ⦃dc : Decoder OcsCapabilitiesResponse⦄
    ⦃dop : Decoder (List OcmProvider)⦄ ⦃dos : Decoder OcmShare⦄ ⦃dol : Decoder (List OcmShare)⦄
    ⦃des : Decoder EducationSchool⦄ ⦃deu : Decoder EducationUser⦄ (c : Client) (ctx : Context) where
  unfoldable pub serve_tool : ToolCall → Net (Unit {0})
  serve_tool (path_call call) = serve_path c ctx call
  serve_tool (id_call call) = serve_id c ctx call
  serve_tool (space_call call) = serve_space c ctx call
  serve_tool (share_call call) = serve_share c ctx call
  serve_tool (user_call call) = serve_user c ctx call
  serve_tool (group_call call) = serve_group c ctx call
  serve_tool (search_call call) = serve_search c ctx call
  serve_tool (workflow_call call) = serve_workflow c ctx call
  serve_tool (notification_call call) = serve_notification c ctx call
  serve_tool (app_token_call call) = serve_app_token c ctx call
  serve_tool (settings_call call) = serve_settings c ctx call
  serve_tool (admin_call call) = serve_admin c ctx call
  serve_tool (ocm_call call) = serve_ocm c ctx call
  serve_tool (education_call call) = serve_education c ctx call
