-- ===== src/Tools/Confirmation.antt =====
-- Without `confirm` the destructive tools of internal/tools do nothing.
use ocis_mcp_server.Base.{◌≡◌, refl, Bool, false, err, List}
use ocis_mcp_server.Client.{Network, Wire, Client, Context, check, and_then}
use ocis_mcp_server.Client.ClientError.{failure}
use ocis_mcp_server.Client.FileInfo.{DavDecoder}
use ocis_mcp_server.Client.Graph.{Decoder}
use ocis_mcp_server.Tools.{require_confirm}
use ocis_mcp_server.Tools.Calls.{ToolCall}
use ocis_mcp_server.Tools.Calls.GroupCall.{delete_group, remove_group_member}
use ocis_mcp_server.Tools.Calls.PathCall.{delete_file}
use ocis_mcp_server.Tools.Calls.ShareCall.{delete_share, reject_share}
use ocis_mcp_server.Tools.Calls.SpaceCall.{disable_space, delete_space, empty_trashbin}
use ocis_mcp_server.Tools.Calls.ToolCall.{
  path_call, space_call, share_call, user_call, group_call, notification_call, app_token_call,
}
use ocis_mcp_server.Tools.Calls.UserCall.{delete_user}
use ocis_mcp_server.Tools.Drives.{Drive, Permission, InviteOutput, SharedItem, SharingRole}
use ocis_mcp_server.Tools.FileReads.{ResourceMetadataOutput}
use ocis_mcp_server.Tools.Files.{DeleteFileInput, Texts, handle_delete_file}
use ocis_mcp_server.Tools.Groups.{
  DeleteGroupInput, RemoveGroupMemberInput, Group, handle_delete_group, handle_remove_group_member,
}
use ocis_mcp_server.Tools.Serve.{
  quiet, serve_tool, serve_path, serve_space, serve_share, serve_user, serve_group,
  serve_notification, serve_app_token,
}
use ocis_mcp_server.Tools.Shares.{DeleteShareInput, handle_delete_share, handle_reject_share}
use ocis_mcp_server.Tools.Spaces.{
  ConfirmedSpaceInput, handle_disable_space, handle_delete_space, handle_empty_trashbin,
}
use ocis_mcp_server.Tools.Notifications.{
  OcsNotificationsResponse, DeleteNotificationInput, handle_delete_notification,
}
use ocis_mcp_server.Tools.AppTokens.{AppToken, DeleteAppTokenInput, handle_delete_app_token}
use ocis_mcp_server.Tools.Settings.{
  SettingsRolesResponse, SettingsAssignment, SettingsAssignmentsResponse,
}
use ocis_mcp_server.Tools.Admin.{OcsCapabilitiesResponse}
use ocis_mcp_server.Tools.Ocm.{OcmProvider, OcmShare}
use ocis_mcp_server.Tools.Education.{EducationSchool, EducationUser}
use ocis_mcp_server.Tools.Calls.NotificationCall.{delete_notification}
use ocis_mcp_server.Tools.Calls.AppTokenCall.{delete_app_token}
use ocis_mcp_server.Tools.Users.{DeleteUserInput, User, handle_delete_user}

-- The calls that need a confirmation, with the input's `confirm`.
pub data Asks : ToolCall → Bool → Type 0 where
  file : (input : DeleteFileInput) → Asks (path_call (delete_file input)) input.confirm
  disabled : (input : ConfirmedSpaceInput) → Asks (space_call (disable_space input)) input.confirm
  deleted : (input : ConfirmedSpaceInput) → Asks (space_call (delete_space input)) input.confirm
  trashbin : (input : ConfirmedSpaceInput) → Asks (space_call (empty_trashbin input)) input.confirm
  share : (input : DeleteShareInput) → Asks (share_call (delete_share input)) input.confirm
  rejected : (input : DeleteShareInput) → Asks (share_call (reject_share input)) input.confirm
  user : (input : DeleteUserInput) → Asks (user_call (delete_user input)) input.confirm
  group : (input : DeleteGroupInput) → Asks (group_call (delete_group input)) input.confirm
  notification :
      (input : DeleteNotificationInput)
      → Asks (notification_call (delete_notification input)) input.confirm
  app_token :
      (input : DeleteAppTokenInput) → Asks (app_token_call (delete_app_token input)) input.confirm
  membership :
      (input : RemoveGroupMemberInput) → Asks (group_call (remove_group_member input)) input.confirm

module _ ⦃n : Network⦄ ⦃dav : DavDecoder⦄ ⦃t : Texts⦄ ⦃dr : Decoder Drive⦄ ⦃dp : Decoder Permission⦄
    ⦃di : Decoder InviteOutput⦄ ⦃ds : Decoder SharedItem⦄ ⦃dl : Decoder (List SharingRole)⦄
    ⦃du : Decoder User⦄ ⦃dg : Decoder Group⦄ ⦃dm : Decoder ResourceMetadataOutput⦄
    ⦃dn : Decoder OcsNotificationsResponse⦄ ⦃da : Decoder AppToken⦄ ⦃dal : Decoder (List AppToken)⦄
    ⦃dsr : Decoder SettingsRolesResponse⦄ ⦃dsa : Decoder SettingsAssignment⦄
    ⦃dss : Decoder SettingsAssignmentsResponse⦄ ⦃dc : Decoder OcsCapabilitiesResponse⦄
    ⦃dop : Decoder (List OcmProvider)⦄ ⦃dos : Decoder OcmShare⦄ ⦃dol : Decoder (List OcmShare)⦄
    ⦃des : Decoder EducationSchool⦄ ⦃deu : Decoder EducationUser⦄ (c : Client) (ctx : Context) where
  refused :
      (call : ToolCall) (w : Wire) (confirm : Bool)
      → Asks call confirm
      → confirm ≡ false
      → serve_tool c ctx call w
        ≡ (err (failure "this is a destructive operation. Set confirm=true to proceed"), w)
  unfolding serve_tool serve_path serve_space serve_share serve_user serve_group serve_notification
      serve_app_token quiet and_then check require_confirm handle_delete_file handle_disable_space
      handle_delete_space handle_empty_trashbin handle_delete_share handle_reject_share
      handle_delete_user handle_delete_notification handle_delete_app_token handle_delete_group
      handle_remove_group_member
  refused _ w _ (file input) e = rw e refl
  refused _ w _ (disabled input) e = rw e refl
  refused _ w _ (deleted input) e = rw e refl
  refused _ w _ (trashbin input) e = rw e refl
  refused _ w _ (share input) e = rw e refl
  refused _ w _ (rejected input) e = rw e refl
  refused _ w _ (user input) e = rw e refl
  refused _ w _ (group input) e = rw e refl
  refused _ w _ (notification input) e = rw e refl
  refused _ w _ (app_token input) e = rw e refl
  refused _ w _ (membership input) e = rw e refl

  -- A destructive tool that is called without `confirm` answers with an error, and no request is sent.
  pub unconfirmed-nothing_sent :
      (call : ToolCall) (w : Wire)
      → Asks call false
      → serve_tool c ctx call w
        ≡ (err (failure "this is a destructive operation. Set confirm=true to proceed"), w)
  unconfirmed-nothing_sent call w h = refused call w false h refl
