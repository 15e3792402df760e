-- ===== src/Tools/Readers.antt =====
-- Under a grant that gives no more than reading, only tools that are registered as read-only pass the
-- check: internal/tools against the catalogue of internal/grant.
use ocis_mcp_server.Base.{
  ◌≡◌, ◌≤◌, refl, sym, subst, ◌∙◌, inl, inr, Bool, true, false, not, ◌&&◌, ◌==◌, String, List, [],
  ◌∷◌, All, All-Some, Some-element, any, nat_eq, some, ok, Bool-cases, if◌then◌else◌, if_elim,
  arith,
}
use mathlib.Core.Bool.{false≢true}
use ocis_mcp_server.Grant.Arguments.{RawMessage}
use ocis_mcp_server.Grant.Catalog.{Need, tool_need, listed, allow, target_space}
use ocis_mcp_server.Grant.Enforcement.{Covers, allow_iff}
use ocis_mcp_server.Grant.Enforcement.Covers.{anyone, administrator, on_space, on_some_space}
use ocis_mcp_server.Grant.Level.{Grant, SpaceGrant, level_read, space_level, first_level}
use ocis_mcp_server.Httpapi.{check_call}
use ocis_mcp_server.Tools.Annotations.{
  annotations, path_annotations, id_annotations, space_annotations, share_annotations,
  user_annotations, group_annotations, search_annotations, workflow_annotations,
  notification_annotations, app_token_annotations, settings_annotations, admin_annotations,
  ocm_annotations, education_annotations, read_only_annotations, mutating_annotations,
  idempotent_annotations, destructive_annotations,
}
use ocis_mcp_server.Tools.Names.{
  tool_name, path_tool, id_tool, space_tool, share_tool, user_tool, group_tool, search_tool,
  workflow_tool, notification_tool, app_token_tool, settings_tool, admin_tool, ocm_tool,
  education_tool,
}
use ocis_mcp_server.Tools.Calls.{ToolCall}
use ocis_mcp_server.Tools.Calls.PathCall.{
  list_files, get_file_info, create_folder, upload_file, download_file, move_file, copy_file,
  delete_file, tag_resource, untag_resource,
}
use ocis_mcp_server.Tools.Calls.IdCall.{
  get_file_versions, restore_file_version, get_resource_by_id, get_resource_metadata,
}
use ocis_mcp_server.Tools.Calls.SpaceCall.{
  list_spaces, list_my_spaces, get_space, create_space, update_space, disable_space, delete_space,
  restore_space, invite_to_space, create_space_link, list_space_permissions, empty_trashbin,
  set_space_image, set_space_readme,
}
use ocis_mcp_server.Tools.Calls.ShareCall.{
  create_share, create_link, list_shares, update_share, update_share_expiration, delete_share,
  list_shared_by_me, list_received_shares, accept_share, reject_share, get_sharing_roles,
}
use ocis_mcp_server.Tools.Calls.UserCall.{
  list_users, get_user, create_user, update_user, delete_user, get_me,
}
use ocis_mcp_server.Tools.Calls.GroupCall.{
  list_groups, get_group, create_group, update_group, delete_group, add_group_member,
  remove_group_member,
}
use ocis_mcp_server.Tools.Calls.SearchCall.{search_files, search_by_tag}
use ocis_mcp_server.Tools.Calls.WorkflowCall.{
  upload_and_share, create_project_space, find_and_download, share_with_link, get_space_overview,
}
use ocis_mcp_server.Tools.Calls.NotificationCall.{list_notifications, delete_notification}
use ocis_mcp_server.Tools.Calls.AppTokenCall.{list_app_tokens, create_app_token, delete_app_token}
use ocis_mcp_server.Tools.Calls.SettingsCall.{list_roles, assign_role, list_assignments}
use ocis_mcp_server.Tools.Calls.AdminCall.{health_check, get_version, get_capabilities, get_config}
use ocis_mcp_server.Tools.Calls.OcmCall.{
  list_ocm_providers, create_ocm_share, list_ocm_shares, list_ocm_received,
}
use ocis_mcp_server.Tools.Calls.EducationCall.{
  list_education_schools, get_education_school, list_education_users, get_education_user,
  create_education_user,
}
use ocis_mcp_server.Tools.Calls.ToolCall.{
  path_call, id_call, space_call, share_call, user_call, group_call, search_call, workflow_call,
  notification_call, app_token_call, settings_call, admin_call, ocm_call, education_call,
}

-- the need is more than to read: not free, and no level of a space that is just reading
abbrev more_than_reading : Need → Bool
more_than_reading need =
    not need.always
    && (not (nat_eq need.space level_read) && not (nat_eq need.any_space level_read))

write_needs :
    (call : ToolCall)
    → (annotations call).read_only_hint ≡ false
    → (more_than_reading (tool_need (tool_name call)) && not (tool_name call == "")) ≡ true
unfolding tool_need listed any tool_name path_tool id_tool space_tool share_tool user_tool
    group_tool search_tool workflow_tool notification_tool app_token_tool settings_tool admin_tool
    ocm_tool education_tool annotations path_annotations id_annotations space_annotations
    share_annotations user_annotations group_annotations search_annotations workflow_annotations
    notification_annotations app_token_annotations settings_annotations admin_annotations
    ocm_annotations education_annotations read_only_annotations mutating_annotations
    idempotent_annotations destructive_annotations
write_needs (path_call (list_files _)) h = absurd (false≢true (sym h))
write_needs (path_call (get_file_info _)) h = absurd (false≢true (sym h))
write_needs (path_call (create_folder _)) h = refl
write_needs (path_call (upload_file _)) h = refl
write_needs (path_call (download_file _)) h = absurd (false≢true (sym h))
write_needs (path_call (move_file _)) h = refl
write_needs (path_call (copy_file _)) h = refl
write_needs (path_call (delete_file _)) h = refl
write_needs (path_call (tag_resource _)) h = refl
write_needs (path_call (untag_resource _)) h = refl
write_needs (id_call (get_file_versions _)) h = absurd (false≢true (sym h))
write_needs (id_call (restore_file_version _)) h = refl
write_needs (id_call (get_resource_by_id _)) h = absurd (false≢true (sym h))
write_needs (id_call (get_resource_metadata _)) h = absurd (false≢true (sym h))
write_needs (space_call (list_spaces _)) h = absurd (false≢true (sym h))
write_needs (space_call (list_my_spaces _)) h = absurd (false≢true (sym h))
write_needs (space_call (get_space _)) h = absurd (false≢true (sym h))
write_needs (space_call (create_space _)) h = refl
write_needs (space_call (update_space _)) h = refl
write_needs (space_call (disable_space _)) h = refl
write_needs (space_call (delete_space _)) h = refl
write_needs (space_call (restore_space _)) h = refl
write_needs (space_call (invite_to_space _)) h = refl
write_needs (space_call (create_space_link _)) h = refl
write_needs (space_call (list_space_permissions _)) h = absurd (false≢true (sym h))
write_needs (space_call (empty_trashbin _)) h = refl
write_needs (space_call (set_space_image _)) h = refl
write_needs (space_call (set_space_readme _)) h = refl
write_needs (share_call (create_share _)) h = refl
write_needs (share_call (create_link _)) h = refl
write_needs (share_call (list_shares _)) h = absurd (false≢true (sym h))
write_needs (share_call (update_share _)) h = refl
write_needs (share_call (update_share_expiration _)) h = refl
write_needs (share_call (delete_share _)) h = refl
write_needs (share_call (list_shared_by_me _)) h = absurd (false≢true (sym h))
write_needs (share_call (list_received_shares _)) h = absurd (false≢true (sym h))
write_needs (share_call (accept_share _)) h = refl
write_needs (share_call (reject_share _)) h = refl
write_needs (share_call get_sharing_roles) h = absurd (false≢true (sym h))
write_needs (user_call (list_users _)) h = absurd (false≢true (sym h))
write_needs (user_call (get_user _)) h = absurd (false≢true (sym h))
write_needs (user_call (create_user _)) h = refl
write_needs (user_call (update_user _)) h = refl
write_needs (user_call (delete_user _)) h = refl
write_needs (user_call get_me) h = absurd (false≢true (sym h))
write_needs (group_call (list_groups _)) h = absurd (false≢true (sym h))
write_needs (group_call (get_group _)) h = absurd (false≢true (sym h))
write_needs (group_call (create_group _)) h = refl
write_needs (group_call (update_group _)) h = refl
write_needs (group_call (delete_group _)) h = refl
write_needs (group_call (add_group_member _)) h = refl
write_needs (group_call (remove_group_member _)) h = refl
write_needs (search_call (search_files _)) h = absurd (false≢true (sym h))
write_needs (search_call (search_by_tag _)) h = absurd (false≢true (sym h))
write_needs (workflow_call (upload_and_share _)) h = refl
write_needs (workflow_call (create_project_space _)) h = refl
write_needs (workflow_call (find_and_download _)) h = absurd (false≢true (sym h))
write_needs (workflow_call (share_with_link _)) h = refl
write_needs (workflow_call (get_space_overview _)) h = absurd (false≢true (sym h))
write_needs (notification_call list_notifications) h = absurd (false≢true (sym h))
write_needs (notification_call (delete_notification _)) h = refl
write_needs (app_token_call list_app_tokens) h = absurd (false≢true (sym h))
write_needs (app_token_call (create_app_token _)) h = refl
write_needs (app_token_call (delete_app_token _)) h = refl
write_needs (settings_call list_roles) h = absurd (false≢true (sym h))
write_needs (settings_call (assign_role _)) h = refl
write_needs (settings_call list_assignments) h = absurd (false≢true (sym h))
write_needs (admin_call health_check) h = absurd (false≢true (sym h))
write_needs (admin_call get_version) h = absurd (false≢true (sym h))
write_needs (admin_call get_capabilities) h = absurd (false≢true (sym h))
write_needs (admin_call get_config) h = absurd (false≢true (sym h))
write_needs (ocm_call list_ocm_providers) h = absurd (false≢true (sym h))
write_needs (ocm_call (create_ocm_share _)) h = refl
write_needs (ocm_call list_ocm_shares) h = absurd (false≢true (sym h))
write_needs (ocm_call list_ocm_received) h = absurd (false≢true (sym h))
write_needs (education_call list_education_schools) h = absurd (false≢true (sym h))
write_needs (education_call (get_education_school _)) h = absurd (false≢true (sym h))
write_needs (education_call list_education_users) h = absurd (false≢true (sym h))
write_needs (education_call (get_education_user _)) h = absurd (false≢true (sym h))
write_needs (education_call (create_education_user _)) h = refl

first_level-read :
    (id : String) (spaces : List SpaceGrant)
    → All (λ s. s.level ≤ level_read) spaces
    → first_level id spaces ≤ level_read
unfolding first_level
first_level-read id [] h = omega arith
first_level-read id (s ∷ rest) (p, h) =
    if_elim (λ l. l ≤ level_read) (s.id == id) p (first_level-read id rest h)

-- A grant that only allows to read does not cover a need that is more than that.
not_covered :
    (g : Grant) (id : String) (need : Need)
    → g.instance_admin ≡ false
    → All (λ s. s.level ≤ level_read) g.spaces
    → more_than_reading need ≡ true
    → ¬ Covers g id need
unfolding space_level
not_covered g id need a h m (anyone e) = ground (arith, m, e)
not_covered g id need a h m (administrator e granted) = false≢true (sym a ∙ granted)
not_covered g id need a h m (on_space p named enough) =
    let low = first_level-read id g.spaces h in ground (arith, m, p, enough, low)
not_covered g id need a h m (on_some_space p found) =
    let (s, _, both) = Some-element _ g.spaces (All-Some _ _ g.spaces h found) in
    let low = both.0 in let enough = both.1 in ground (arith, m, p, low, enough)

-- Under a grant without the administrator flag and with no level above reading, a call that passes the
-- check is a call of a tool that is registered as read-only.
pub reader_calls_read_only :
    (g : Grant) (call : ToolCall) (arguments : RawMessage)
    → g.instance_admin ≡ false
    → All (λ s. s.level ≤ level_read) g.spaces
    → check_call (some g) (tool_name call) arguments ≡ ok tt
    → (annotations call).read_only_hint ≡ true
unfolding check_call
reader_calls_read_only g call arguments a h passed =
    elim (Bool-cases (annotations call).read_only_hint) [
      | inl e ↦ e
      | inr e ↦
          let both = write_needs call e in
          let more : more_than_reading (tool_need (tool_name call)) ≡ true = ground (arith, both) in
          let named : (tool_name call == "") ≡ false = ground (arith, both) in
          absurd (
            not_covered g (target_space arguments) (tool_need (tool_name call)) a h more (
              (allow_iff g (tool_name call) arguments).0 (
                subst
                  (λ b. (if b then ok tt else allow (some g) (tool_name call) arguments) ≡ ok tt)
                  named passed)))
    ]
