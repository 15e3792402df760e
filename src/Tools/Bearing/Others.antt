-- ===== src/Tools/Bearing/Others.antt =====
-- What the other tools of internal/tools send: the address and the credential of each request.
use ocis_mcp_server.Base.{List, ◌∷◌, if_elim, ltb, length, ◌&&◌, []}
use ocis_mcp_server.Client.Admits.{Admits}
use ocis_mcp_server.Client.Calls.{
  get_raw-Sends, get_json-Sends, list_json-Sends, post_json-Sends, delete-Sends, propfind-Sends,
  upload-Sends, download-Sends, search_report-Sends,
}
use ocis_mcp_server.Client.Sends.{
  Sends, done-Sends, fail-Sends, and_then-Sends, in_step-Sends, attempt-Sends,
}
use ocis_mcp_server.Client.FileInfo.{DavResponse}
use ocis_mcp_server.Tools.Files.{on_path}
use ocis_mcp_server.Tools.Shares.{on_item}
use ocis_mcp_server.Tools.Workflows.{
  UploadAndShareInput, CreateProjectSpaceInput, FindAndDownloadInput, share_uploaded,
  invite_members, download_first,
}
use ocis_mcp_server.Tools.PathSends.{finish, quiet-Sends}
use ocis_mcp_server.Tools.Serve.{
  serve_search, serve_workflow, serve_notification, serve_app_token, serve_settings, serve_admin,
  serve_ocm, serve_education,
}
use ocis_mcp_server.Base.{true, false}
use ocis_mcp_server.Client.{Network, Client, Context}
use ocis_mcp_server.Client.FileInfo.{DavDecoder}
use ocis_mcp_server.Client.Graph.{Decoder}
use ocis_mcp_server.Tools.Drives.{Drive, Permission, InviteOutput}
use ocis_mcp_server.Tools.Files.{Texts}
use ocis_mcp_server.Tools.Users.{User}
use ocis_mcp_server.Tools.Search.{handle_search, handle_search_by_tag}
use ocis_mcp_server.Tools.Workflows.{
  handle_create_project_space, handle_find_and_download, handle_get_space_overview,
  handle_share_with_link, handle_upload_and_share,
}
use ocis_mcp_server.Tools.Notifications.{
  OcsNotificationsResponse, handle_delete_notification, handle_list_notifications,
}
use ocis_mcp_server.Tools.AppTokens.{
  AppToken, handle_create_app_token, handle_delete_app_token, handle_list_app_tokens,
}
use ocis_mcp_server.Tools.Settings.{
  SettingsAssignment, SettingsAssignmentsResponse, SettingsRolesResponse, handle_assign_role,
  handle_list_assignments, handle_list_roles,
}
use ocis_mcp_server.Tools.Admin.{
  OcsCapabilitiesResponse, handle_get_capabilities, handle_get_config, handle_get_version,
  handle_health_check,
}
use ocis_mcp_server.Tools.Ocm.{
  OcmProvider, OcmShare, handle_create_ocm_share, handle_list_ocm_providers,
  handle_list_ocm_received, handle_list_ocm_shares,
}
use ocis_mcp_server.Tools.Education.{
  EducationSchool, EducationUser, handle_create_education_user, handle_get_education_school,
  handle_get_education_user, handle_list_education_schools, handle_list_education_users,
}
use ocis_mcp_server.Tools.Calls.{
  SearchCall, WorkflowCall, NotificationCall, AppTokenCall, SettingsCall, AdminCall, OcmCall,
  EducationCall,
}
use ocis_mcp_server.Tools.Calls.SearchCall.{search_files, search_by_tag}
use ocis_mcp_server.Tools.Calls.WorkflowCall.{
  upload_and_share, create_project_space, find_and_download, share_with_link, get_space_overview,
}
use ocis_mcp_server.Tools.Calls.NotificationCall.{list_notifications, delete_notification}
use ocis_mcp_server.Tools.Calls.AppTokenCall.{list_app_tokens, create_app_token, delete_app_token}
use ocis_mcp_server.Tools.Calls.SettingsCall.{list_roles, assign_role, list_assignments}
use ocis_mcp_server.Tools.Calls.AdminCall.{health_check, get_version, get_capabilities, get_config}
use ocis_mcp_server.Tools.Calls.OcmCall.{
  list_ocm_providers, create_ocm_share, list_ocm_shares, list_ocm_received,
}
use ocis_mcp_server.Tools.Calls.EducationCall.{
  list_education_schools, get_education_school, list_education_users, get_education_user,
  create_education_user,
}
use ocis_mcp_server.Tools.Bearing.Paths.{roots}
use ocis_mcp_server.Tools.Bearing.Steps.{
  Bearing, rooted, follows_workflow, here, there, check1, check2, from_raw-Sends,
}

module _ ⦃n : Network⦄ (c : Client) (ctx : Context) where
  pub share_uploaded-Sends :
      ⦃di : Decoder InviteOutput⦄ (input : UploadAndShareInput) (ms : List DavResponse)
      → Sends (Admits (Bearing c ctx false)) (share_uploaded c ctx input ms)
  unfolding rooted share_uploaded
  share_uploaded-Sends input [] = fail-Sends _
  share_uploaded-Sends input (r ∷ _) =
      finish _ (in_step-Sends _ (post_json-Sends c ctx _ _ (here _ (search roots))))

  pub invite_members-Sends :
      ⦃di : Decoder InviteOutput⦄ (input : CreateProjectSpaceInput) (drive : Drive)
      → Sends (Admits (Bearing c ctx false)) (invite_members c ctx input drive)
  unfolding rooted invite_members
  invite_members-Sends input drive =
      if_elim (Sends (Admits (Bearing c ctx false)))
        (ltb 0 (length input.members) && ltb 0 (length input.member_roles))
        (finish _ (attempt-Sends (post_json-Sends c ctx _ _ (here _ (search roots)))))
        (done-Sends _)

  pub download_first-Sends :
      ⦃t : Texts⦄ (input : FindAndDownloadInput) (ms : List DavResponse)
      → Sends (Admits (Bearing c ctx true)) (download_first c ctx input ms)
  unfolding rooted download_first
  download_first-Sends input [] = fail-Sends _
  download_first-Sends input (r ∷ _) = finish _ (in_step-Sends _ (download-Sends c ctx _ (there _)))

  pub serve_search-Sends :
      ⦃dav : DavDecoder⦄ (call : SearchCall)
      → Sends (Admits (Bearing c ctx false)) (serve_search c ctx call)
  unfolding rooted serve_search handle_search handle_search_by_tag
  serve_search-Sends (search_files input) =
      quiet-Sends (check1 _ (finish _ (search_report-Sends c ctx _ _ _ _ (here _ (search roots)))))
  serve_search-Sends (search_by_tag input) =
      quiet-Sends (check1 _ (finish _ (search_report-Sends c ctx _ _ _ _ (here _ (search roots)))))

  pub serve_workflow-Sends :
      ⦃dav : DavDecoder⦄ ⦃t : Texts⦄ ⦃dr : Decoder Drive⦄ ⦃dp : Decoder Permission⦄
      ⦃di : Decoder InviteOutput⦄ (call : WorkflowCall)
      → Sends (Admits (Bearing c ctx (follows_workflow call))) (serve_workflow c ctx call)
  unfolding rooted follows_workflow serve_workflow handle_upload_and_share
      handle_create_project_space handle_find_and_download handle_share_with_link
      handle_get_space_overview on_path on_item
  serve_workflow-Sends (upload_and_share input) = quiet-Sends (
      check2 _ _ (
        and_then-Sends (in_step-Sends _ (upload-Sends c ctx _ _ _ (here _ (search roots)))) λ _.
          and_then-Sends (in_step-Sends _ (propfind-Sends c ctx _ "0" (here _ (search roots))))
            λ ms. share_uploaded-Sends input ms))
  serve_workflow-Sends (create_project_space input) = quiet-Sends (
      and_then-Sends (in_step-Sends _ (post_json-Sends c ctx _ _ (here _ (search roots))))
        λ drive. invite_members-Sends input drive)
  serve_workflow-Sends (find_and_download input) = quiet-Sends (
      and_then-Sends (in_step-Sends _ (search_report-Sends c ctx _ _ _ _ (here _ (search roots))))
        λ ms. download_first-Sends input ms)
  serve_workflow-Sends (share_with_link input) =
      quiet-Sends (check2 _ _ (finish _ (post_json-Sends c ctx _ _ (here _ (search roots)))))
  serve_workflow-Sends (get_space_overview input) = quiet-Sends (
      check1 _ (
        and_then-Sends (in_step-Sends _ (get_json-Sends c ctx _ _ (here _ (search roots)))) λ drive.
          and_then-Sends (attempt-Sends (propfind-Sends c ctx _ "1" (here _ (search roots)))) λ ms.
            and_then-Sends (attempt-Sends (list_json-Sends c ctx _ _ (here _ (search roots))))
              λ perms. done-Sends _))

  pub serve_notification-Sends :
      ⦃dn : Decoder OcsNotificationsResponse⦄ (call : NotificationCall)
      → Sends (Admits (Bearing c ctx false)) (serve_notification c ctx call)
  unfolding rooted serve_notification handle_list_notifications handle_delete_notification
  serve_notification-Sends list_notifications = quiet-Sends (
      and_then-Sends (get_raw-Sends c ctx _ (here _ (search roots)))
        λ raw. finish _ (from_raw-Sends _ _ _ _))
  serve_notification-Sends (delete_notification input) =
      quiet-Sends (check2 _ _ (finish _ (delete-Sends c ctx _ (here _ (search roots)))))

  pub serve_app_token-Sends :
      ⦃da : Decoder AppToken⦄ ⦃dal : Decoder (List AppToken)⦄ (call : AppTokenCall)
      → Sends (Admits (Bearing c ctx false)) (serve_app_token c ctx call)
  unfolding rooted serve_app_token handle_list_app_tokens handle_create_app_token
      handle_delete_app_token
  serve_app_token-Sends list_app_tokens =
      quiet-Sends (get_json-Sends c ctx _ _ (here _ (search roots)))
  serve_app_token-Sends (create_app_token input) =
      quiet-Sends (post_json-Sends c ctx _ _ (here _ (search roots)))
  serve_app_token-Sends (delete_app_token input) =
      quiet-Sends (check2 _ _ (finish _ (delete-Sends c ctx _ (here _ (search roots)))))

  pub serve_settings-Sends :
      ⦃dsr : Decoder SettingsRolesResponse⦄ ⦃dsa : Decoder SettingsAssignment⦄
      ⦃dss : Decoder SettingsAssignmentsResponse⦄ ⦃du : Decoder User⦄ (call : SettingsCall)
      → Sends (Admits (Bearing c ctx false)) (serve_settings c ctx call)
  unfolding rooted serve_settings handle_list_roles handle_assign_role handle_list_assignments
  serve_settings-Sends list_roles =
      quiet-Sends (finish _ (post_json-Sends c ctx _ _ (here _ (search roots))))
  serve_settings-Sends (assign_role input) =
      quiet-Sends (check2 _ _ (post_json-Sends c ctx _ _ (here _ (search roots))))
  serve_settings-Sends list_assignments = quiet-Sends (
      and_then-Sends (get_json-Sends c ctx _ _ (here _ (search roots)))
        λ me. finish _ (post_json-Sends c ctx _ _ (here _ (search roots))))

  pub serve_admin-Sends :
      ⦃dc : Decoder OcsCapabilitiesResponse⦄ (call : AdminCall)
      → Sends (Admits (Bearing c ctx false)) (serve_admin c ctx call)
  unfolding rooted serve_admin handle_health_check handle_get_version handle_get_capabilities
      handle_get_config
  serve_admin-Sends health_check =
      quiet-Sends (finish _ (attempt-Sends (get_raw-Sends c ctx _ (here _ (search roots)))))
  serve_admin-Sends get_version = quiet-Sends (
      finish _ (
        and_then-Sends (get_raw-Sends c ctx _ (here _ (search roots)))
          λ raw. from_raw-Sends _ _ _ _))
  serve_admin-Sends get_capabilities =
      quiet-Sends (
        and_then-Sends (get_raw-Sends c ctx _ (here _ (search roots)))
          λ raw. from_raw-Sends _ _ _ _)
  serve_admin-Sends get_config = quiet-Sends (done-Sends _)

  pub serve_ocm-Sends :
      ⦃dop : Decoder (List OcmProvider)⦄ ⦃dos : Decoder OcmShare⦄ ⦃dol : Decoder (List OcmShare)⦄
      (call : OcmCall)
      → Sends (Admits (Bearing c ctx false)) (serve_ocm c ctx call)
  unfolding rooted serve_ocm handle_list_ocm_providers handle_create_ocm_share
      handle_list_ocm_shares handle_list_ocm_received
  serve_ocm-Sends list_ocm_providers =
      quiet-Sends (get_json-Sends c ctx _ _ (here _ (search roots)))
  serve_ocm-Sends (create_ocm_share input) =
      quiet-Sends (check1 _ (check2 _ _ (post_json-Sends c ctx _ _ (here _ (search roots)))))
  serve_ocm-Sends list_ocm_shares = quiet-Sends (get_json-Sends c ctx _ _ (here _ (search roots)))
  serve_ocm-Sends list_ocm_received = quiet-Sends (get_json-Sends c ctx _ _ (here _ (search roots)))

  pub serve_education-Sends :
      ⦃des : Decoder EducationSchool⦄ ⦃deu : Decoder EducationUser⦄ (call : EducationCall)
      → Sends (Admits (Bearing c ctx false)) (serve_education c ctx call)
  unfolding rooted serve_education handle_list_education_schools handle_get_education_school
      handle_list_education_users handle_get_education_user handle_create_education_user
  serve_education-Sends list_education_schools =
      quiet-Sends (list_json-Sends c ctx _ _ (here _ (search roots)))
  serve_education-Sends (get_education_school input) =
      quiet-Sends (check1 _ (get_json-Sends c ctx _ _ (here _ (search roots))))
  serve_education-Sends list_education_users =
      quiet-Sends (list_json-Sends c ctx _ _ (here _ (search roots)))
  serve_education-Sends (get_education_user input) =
      quiet-Sends (check1 _ (get_json-Sends c ctx _ _ (here _ (search roots))))
  serve_education-Sends (create_education_user input) =
      quiet-Sends (check1 _ (check2 _ _ (post_json-Sends c ctx _ _ (here _ (search roots)))))
