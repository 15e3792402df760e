-- ===== src/Tools/Hints.antt =====
-- The tools with the hint of destruction (internal/tools/helpers.go) are those that ask for a
-- confirmation.
use ocis_mcp_server.Base.{◌≡◌, ◌↔◌, refl, Bool, true}
use mathlib.Core.Bool.{false≢true}
use ocis_mcp_server.Tools.Confirmation.{Asks}
use ocis_mcp_server.Tools.Calls.{ToolCall}
use ocis_mcp_server.Tools.Calls.PathCall.{
  list_files, get_file_info, create_folder, upload_file, download_file, move_file, copy_file,
  delete_file, tag_resource, untag_resource,
}
use ocis_mcp_server.Tools.Calls.IdCall.{
  get_file_versions, restore_file_version, get_resource_by_id, get_resource_metadata,
}
use ocis_mcp_server.Tools.Calls.SpaceCall.{
  list_spaces, list_my_spaces, get_space, create_space, update_space, disable_space, delete_space,
  restore_space, invite_to_space, create_space_link, list_space_permissions, empty_trashbin,
  set_space_image, set_space_readme,
}
use ocis_mcp_server.Tools.Calls.ShareCall.{
  create_share, create_link, list_shares, update_share, update_share_expiration, delete_share,
  list_shared_by_me, list_received_shares, accept_share, reject_share, get_sharing_roles,
}
use ocis_mcp_server.Tools.Calls.UserCall.{
  list_users, get_user, create_user, update_user, delete_user, get_me,
}
use ocis_mcp_server.Tools.Calls.GroupCall.{
  list_groups, get_group, create_group, update_group, delete_group, add_group_member,
  remove_group_member,
}
use ocis_mcp_server.Tools.Calls.SearchCall.{search_files, search_by_tag}
use ocis_mcp_server.Tools.Calls.WorkflowCall.{
  upload_and_share, create_project_space, find_and_download, share_with_link, get_space_overview,
}
use ocis_mcp_server.Tools.Calls.NotificationCall.{list_notifications, delete_notification}
use ocis_mcp_server.Tools.Calls.AppTokenCall.{list_app_tokens, create_app_token, delete_app_token}
use ocis_mcp_server.Tools.Calls.SettingsCall.{list_roles, assign_role, list_assignments}
use ocis_mcp_server.Tools.Calls.AdminCall.{health_check, get_version, get_capabilities, get_config}
use ocis_mcp_server.Tools.Calls.OcmCall.{
  list_ocm_providers, create_ocm_share, list_ocm_shares, list_ocm_received,
}
use ocis_mcp_server.Tools.Calls.EducationCall.{
  list_education_schools, get_education_school, list_education_users, get_education_user,
  create_education_user,
}
use ocis_mcp_server.Tools.Calls.ToolCall.{
  path_call, id_call, space_call, share_call, user_call, group_call, search_call, workflow_call,
  notification_call, app_token_call, settings_call, admin_call, ocm_call, education_call,
}
use ocis_mcp_server.Tools.Confirmation.Asks.{
  file, disabled, deleted, trashbin, share, rejected, user, group, membership, notification,
  app_token,
}
use ocis_mcp_server.Tools.Annotations.{
  annotations, path_annotations, id_annotations, space_annotations, share_annotations,
  user_annotations, group_annotations, search_annotations, workflow_annotations,
  notification_annotations, app_token_annotations, settings_annotations, admin_annotations,
  ocm_annotations, education_annotations, read_only_annotations, mutating_annotations,
  idempotent_annotations, destructive_annotations,
}

hinted-Asks :
    (call : ToolCall) → (annotations call).destructive_hint ≡ true → (b : Bool) × Asks call b
unfolding annotations path_annotations id_annotations space_annotations share_annotations
    user_annotations group_annotations search_annotations workflow_annotations
    notification_annotations app_token_annotations settings_annotations admin_annotations
    ocm_annotations education_annotations read_only_annotations mutating_annotations
    idempotent_annotations destructive_annotations
hinted-Asks (path_call (list_files _)) h = absurd (false≢true h)
hinted-Asks (path_call (get_file_info _)) h = absurd (false≢true h)
hinted-Asks (path_call (create_folder _)) h = absurd (false≢true h)
hinted-Asks (path_call (upload_file _)) h = absurd (false≢true h)
hinted-Asks (path_call (download_file _)) h = absurd (false≢true h)
hinted-Asks (path_call (move_file _)) h = absurd (false≢true h)
hinted-Asks (path_call (copy_file _)) h = absurd (false≢true h)
hinted-Asks (path_call (delete_file input)) h = (input.confirm, file input)
hinted-Asks (path_call (tag_resource _)) h = absurd (false≢true h)
hinted-Asks (path_call (untag_resource _)) h = absurd (false≢true h)
hinted-Asks (id_call (get_file_versions _)) h = absurd (false≢true h)
hinted-Asks (id_call (restore_file_version _)) h = absurd (false≢true h)
hinted-Asks (id_call (get_resource_by_id _)) h = absurd (false≢true h)
hinted-Asks (id_call (get_resource_metadata _)) h = absurd (false≢true h)
hinted-Asks (space_call (list_spaces _)) h = absurd (false≢true h)
hinted-Asks (space_call (list_my_spaces _)) h = absurd (false≢true h)
hinted-Asks (space_call (get_space _)) h = absurd (false≢true h)
hinted-Asks (space_call (create_space _)) h = absurd (false≢true h)
hinted-Asks (space_call (update_space _)) h = absurd (false≢true h)
hinted-Asks (space_call (disable_space input)) h = (input.confirm, disabled input)
hinted-Asks (space_call (delete_space input)) h = (input.confirm, deleted input)
hinted-Asks (space_call (restore_space _)) h = absurd (false≢true h)
hinted-Asks (space_call (invite_to_space _)) h = absurd (false≢true h)
hinted-Asks (space_call (create_space_link _)) h = absurd (false≢true h)
hinted-Asks (space_call (list_space_permissions _)) h = absurd (false≢true h)
hinted-Asks (space_call (empty_trashbin input)) h = (input.confirm, trashbin input)
hinted-Asks (space_call (set_space_image _)) h = absurd (false≢true h)
hinted-Asks (space_call (set_space_readme _)) h = absurd (false≢true h)
hinted-Asks (share_call (create_share _)) h = absurd (false≢true h)
hinted-Asks (share_call (create_link _)) h = absurd (false≢true h)
hinted-Asks (share_call (list_shares _)) h = absurd (false≢true h)
hinted-Asks (share_call (update_share _)) h = absurd (false≢true h)
hinted-Asks (share_call (update_share_expiration _)) h = absurd (false≢true h)
hinted-Asks (share_call (delete_share input)) h = (input.confirm, share input)
hinted-Asks (share_call (list_shared_by_me _)) h = absurd (false≢true h)
hinted-Asks (share_call (list_received_shares _)) h = absurd (false≢true h)
hinted-Asks (share_call (accept_share _)) h = absurd (false≢true h)
hinted-Asks (share_call (reject_share input)) h = (input.confirm, rejected input)
hinted-Asks (share_call get_sharing_roles) h = absurd (false≢true h)
hinted-Asks (user_call (list_users _)) h = absurd (false≢true h)
hinted-Asks (user_call (get_user _)) h = absurd (false≢true h)
hinted-Asks (user_call (create_user _)) h = absurd (false≢true h)
hinted-Asks (user_call (update_user _)) h = absurd (false≢true h)
hinted-Asks (user_call (delete_user input)) h = (input.confirm, user input)
hinted-Asks (user_call get_me) h = absurd (false≢true h)
hinted-Asks (group_call (list_groups _)) h = absurd (false≢true h)
hinted-Asks (group_call (get_group _)) h = absurd (false≢true h)
hinted-Asks (group_call (create_group _)) h = absurd (false≢true h)
hinted-Asks (group_call (update_group _)) h = absurd (false≢true h)
hinted-Asks (group_call (delete_group input)) h = (input.confirm, group input)
hinted-Asks (group_call (add_group_member _)) h = absurd (false≢true h)
hinted-Asks (group_call (remove_group_member input)) h = (input.confirm, membership input)
hinted-Asks (search_call (search_files _)) h = absurd (false≢true h)
hinted-Asks (search_call (search_by_tag _)) h = absurd (false≢true h)
hinted-Asks (workflow_call (upload_and_share _)) h = absurd (false≢true h)
hinted-Asks (workflow_call (create_project_space _)) h = absurd (false≢true h)
hinted-Asks (workflow_call (find_and_download _)) h = absurd (false≢true h)
hinted-Asks (workflow_call (share_with_link _)) h = absurd (false≢true h)
hinted-Asks (workflow_call (get_space_overview _)) h = absurd (false≢true h)
hinted-Asks (notification_call list_notifications) h = absurd (false≢true h)
hinted-Asks (notification_call (delete_notification input)) h = (input.confirm, notification input)
hinted-Asks (app_token_call list_app_tokens) h = absurd (false≢true h)
hinted-Asks (app_token_call (create_app_token _)) h = absurd (false≢true h)
hinted-Asks (app_token_call (delete_app_token input)) h = (input.confirm, app_token input)
hinted-Asks (settings_call list_roles) h = absurd (false≢true h)
hinted-Asks (settings_call (assign_role _)) h = absurd (false≢true h)
hinted-Asks (settings_call list_assignments) h = absurd (false≢true h)
hinted-Asks (admin_call health_check) h = absurd (false≢true h)
hinted-Asks (admin_call get_version) h = absurd (false≢true h)
hinted-Asks (admin_call get_capabilities) h = absurd (false≢true h)
hinted-Asks (admin_call get_config) h = absurd (false≢true h)
hinted-Asks (ocm_call list_ocm_providers) h = absurd (false≢true h)
hinted-Asks (ocm_call (create_ocm_share _)) h = absurd (false≢true h)
hinted-Asks (ocm_call list_ocm_shares) h = absurd (false≢true h)
hinted-Asks (ocm_call list_ocm_received) h = absurd (false≢true h)
hinted-Asks (education_call list_education_schools) h = absurd (false≢true h)
hinted-Asks (education_call (get_education_school _)) h = absurd (false≢true h)
hinted-Asks (education_call list_education_users) h = absurd (false≢true h)
hinted-Asks (education_call (get_education_user _)) h = absurd (false≢true h)
hinted-Asks (education_call (create_education_user _)) h = absurd (false≢true h)

Asks-hinted :
    (call : ToolCall) → ((b : Bool) × Asks call b) → (annotations call).destructive_hint ≡ true
unfolding annotations path_annotations id_annotations space_annotations share_annotations
    user_annotations group_annotations search_annotations workflow_annotations
    notification_annotations app_token_annotations settings_annotations admin_annotations
    ocm_annotations education_annotations read_only_annotations mutating_annotations
    idempotent_annotations destructive_annotations
Asks-hinted _ (_, file input) = refl
Asks-hinted _ (_, disabled input) = refl
Asks-hinted _ (_, deleted input) = refl
Asks-hinted _ (_, trashbin input) = refl
Asks-hinted _ (_, share input) = refl
Asks-hinted _ (_, rejected input) = refl
Asks-hinted _ (_, user input) = refl
Asks-hinted _ (_, group input) = refl
Asks-hinted _ (_, membership input) = refl
Asks-hinted _ (_, notification input) = refl
Asks-hinted _ (_, app_token input) = refl

-- A tool is registered with the hint that it destroys exactly if its input carries a confirmation.
pub destructive_hint_iff :
    (call : ToolCall) → ((annotations call).destructive_hint ≡ true) ↔ ((b : Bool) × Asks call b)
destructive_hint_iff call = (hinted-Asks call, Asks-hinted call)
