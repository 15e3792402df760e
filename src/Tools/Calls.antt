-- ===== src/Tools/Calls.antt =====
-- internal/tools/register.go and the `register` functions of internal/tools: the calls of the
-- tools, by their inputs.
use ocis_mcp_server.Base.{String}
use ocis_mcp_server.Tools.Files.{
  CopyFileInput, CreateFolderInput, DeleteFileInput, DownloadFileInput, MoveFileInput,
  TagResourceInput, UploadFileInput,
}
use ocis_mcp_server.Tools.FileReads.{
  GetFileInfoInput, GetFileVersionsInput, GetResourceByIdInput, GetResourceMetadataInput,
  ListFilesInput, RestoreFileVersionInput,
}
use ocis_mcp_server.Tools.Spaces.{
  ConfirmedSpaceInput, CreateSpaceInput, CreateSpaceLinkInput, InviteToSpaceInput, ListSpacesInput,
  SetSpaceSpecialInput, UpdateSpaceInput,
}
use ocis_mcp_server.Tools.Shares.{
  AcceptShareInput, CreateLinkInput, CreateShareInput, DeleteShareInput, ListSharedByMeInput,
  ListSharesInput, UpdateShareExpirationInput, UpdateShareInput,
}
use ocis_mcp_server.Tools.Users.{CreateUserInput, DeleteUserInput, ListUsersInput, UpdateUserInput}
use ocis_mcp_server.Tools.Groups.{
  AddGroupMemberInput, CreateGroupInput, DeleteGroupInput, ListGroupsInput, RemoveGroupMemberInput,
  UpdateGroupInput,
}
use ocis_mcp_server.Tools.Search.{SearchByTagInput, SearchInput}
use ocis_mcp_server.Tools.Workflows.{
  CreateProjectSpaceInput, FindAndDownloadInput, ShareWithLinkInput, UploadAndShareInput,
}
use ocis_mcp_server.Tools.Notifications.{DeleteNotificationInput}
use ocis_mcp_server.Tools.AppTokens.{CreateAppTokenInput, DeleteAppTokenInput}
use ocis_mcp_server.Tools.Settings.{AssignRoleInput}
use ocis_mcp_server.Tools.Ocm.{CreateOcmShareInput}
use ocis_mcp_server.Tools.Education.{CreateEducationUserInput}

-- the tools of files.go, by space and path
pub data PathCall : Type 0 where
  list_files : ListFilesInput → PathCall
  get_file_info : GetFileInfoInput → PathCall
  create_folder : CreateFolderInput → PathCall
  upload_file : UploadFileInput → PathCall
  download_file : DownloadFileInput → PathCall
  move_file : MoveFileInput → PathCall
  copy_file : CopyFileInput → PathCall
  delete_file : DeleteFileInput → PathCall
  tag_resource : TagResourceInput → PathCall
  untag_resource : TagResourceInput → PathCall

-- the tools of files.go, by ID
pub data IdCall : Type 0 where
  get_file_versions : GetFileVersionsInput → IdCall
  restore_file_version : RestoreFileVersionInput → IdCall
  get_resource_by_id : GetResourceByIdInput → IdCall
  get_resource_metadata : GetResourceMetadataInput → IdCall

-- the tools of spaces.go
pub data SpaceCall : Type 0 where
  list_spaces : ListSpacesInput → SpaceCall
  list_my_spaces : ListSpacesInput → SpaceCall
  get_space : String → SpaceCall
  create_space : CreateSpaceInput → SpaceCall
  update_space : UpdateSpaceInput → SpaceCall
  disable_space : ConfirmedSpaceInput → SpaceCall
  delete_space : ConfirmedSpaceInput → SpaceCall
  restore_space : String → SpaceCall
  invite_to_space : InviteToSpaceInput → SpaceCall
  create_space_link : CreateSpaceLinkInput → SpaceCall
  list_space_permissions : String → SpaceCall
  empty_trashbin : ConfirmedSpaceInput → SpaceCall
  set_space_image : SetSpaceSpecialInput → SpaceCall
  set_space_readme : SetSpaceSpecialInput → SpaceCall

-- the tools of shares.go
pub data ShareCall : Type 0 where
  create_share : CreateShareInput → ShareCall
  create_link : CreateLinkInput → ShareCall
  list_shares : ListSharesInput → ShareCall
  update_share : UpdateShareInput → ShareCall
  update_share_expiration : UpdateShareExpirationInput → ShareCall
  delete_share : DeleteShareInput → ShareCall
  list_shared_by_me : ListSharedByMeInput → ShareCall
  list_received_shares : ListSharedByMeInput → ShareCall
  accept_share : AcceptShareInput → ShareCall
  reject_share : DeleteShareInput → ShareCall
  get_sharing_roles : ShareCall

-- the tools of users.go
pub data UserCall : Type 0 where
  list_users : ListUsersInput → UserCall
  get_user : String → UserCall
  create_user : CreateUserInput → UserCall
  update_user : UpdateUserInput → UserCall
  delete_user : DeleteUserInput → UserCall
  get_me : UserCall

-- the tools of groups.go
pub data GroupCall : Type 0 where
  list_groups : ListGroupsInput → GroupCall
  get_group : String → GroupCall
  create_group : CreateGroupInput → GroupCall
  update_group : UpdateGroupInput → GroupCall
  delete_group : DeleteGroupInput → GroupCall
  add_group_member : AddGroupMemberInput → GroupCall
  remove_group_member : RemoveGroupMemberInput → GroupCall

-- the tools of search.go
pub data SearchCall : Type 0 where
  search_files : SearchInput → SearchCall
  search_by_tag : SearchByTagInput → SearchCall

-- the tools of workflows.go
pub data WorkflowCall : Type 0 where
  upload_and_share : UploadAndShareInput → WorkflowCall
  create_project_space : CreateProjectSpaceInput → WorkflowCall
  find_and_download : FindAndDownloadInput → WorkflowCall
  share_with_link : ShareWithLinkInput → WorkflowCall
  get_space_overview : String → WorkflowCall

-- the tools of notifications.go
pub data NotificationCall : Type 0 where
  list_notifications : NotificationCall
  delete_notification : DeleteNotificationInput → NotificationCall

-- the tools of app_tokens.go
pub data AppTokenCall : Type 0 where
  list_app_tokens : AppTokenCall
  create_app_token : CreateAppTokenInput → AppTokenCall
  delete_app_token : DeleteAppTokenInput → AppTokenCall

-- the tools of settings.go
pub data SettingsCall : Type 0 where
  list_roles : SettingsCall
  assign_role : AssignRoleInput → SettingsCall
  list_assignments : SettingsCall

-- the tools of admin.go
pub data AdminCall : Type 0 where
  health_check : AdminCall
  get_version : AdminCall
  get_capabilities : AdminCall
  get_config : AdminCall

-- the tools of ocm.go
pub data OcmCall : Type 0 where
  list_ocm_providers : OcmCall
  create_ocm_share : CreateOcmShareInput → OcmCall
  list_ocm_shares : OcmCall
  list_ocm_received : OcmCall

-- the tools of education.go
pub data EducationCall : Type 0 where
  list_education_schools : EducationCall
  get_education_school : String → EducationCall
  list_education_users : EducationCall
  get_education_user : String → EducationCall
  create_education_user : CreateEducationUserInput → EducationCall

-- `RegisterAll`; the tools of education.go are there if the configuration has their token
pub data ToolCall : Type 0 where
  path_call : PathCall → ToolCall
  id_call : IdCall → ToolCall
  space_call : SpaceCall → ToolCall
  share_call : ShareCall → ToolCall
  user_call : UserCall → ToolCall
  group_call : GroupCall → ToolCall
  search_call : SearchCall → ToolCall
  workflow_call : WorkflowCall → ToolCall
  notification_call : NotificationCall → ToolCall
  app_token_call : AppTokenCall → ToolCall
  settings_call : SettingsCall → ToolCall
  admin_call : AdminCall → ToolCall
  ocm_call : OcmCall → ToolCall
  education_call : EducationCall → ToolCall
