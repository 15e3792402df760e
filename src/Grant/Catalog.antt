-- ===== src/Grant/Catalog.antt =====
-- internal/grant/catalog.go: what each tool needs, the check of a call, and the tools that are shown.
use ocis_mcp_server.Base.{
  String, Bool, true, false, not, Option, none, some, List, [], ◌∷◌, ◌==◌, ltb, any, keep,
  if◌then◌else◌, Result, ok, err,
}
use ocis_mcp_server.Grant.Level.{
  Level, level_none, level_read, level_write, level_admin, at_least, SpaceGrant, Grant, space_level,
}
use ocis_mcp_server.Grant.Arguments.{RawMessage, parsed, object, end, unmarshal_args}

pub record Need : Type 0 where
  pub instance_admin : Bool
  pub space : Level
  pub any_space : Level
  pub always : Bool

abbrev pub always_tools : List String
always_tools =
    "ocis_get_me" ∷ "ocis_health_check" ∷ "ocis_get_version" ∷ "ocis_get_capabilities"
    ∷ "ocis_get_config" ∷ "ocis_get_sharing_roles" ∷ []

abbrev pub admin_tools : List String
admin_tools =
    "ocis_list_users" ∷ "ocis_get_user" ∷ "ocis_create_user" ∷ "ocis_update_user"
    ∷ "ocis_delete_user" ∷ "ocis_list_groups" ∷ "ocis_get_group" ∷ "ocis_create_group"
    ∷ "ocis_update_group" ∷ "ocis_delete_group" ∷ "ocis_add_group_member"
    ∷ "ocis_remove_group_member" ∷ "ocis_list_roles" ∷ "ocis_assign_role" ∷ "ocis_list_assignments"
    ∷ "ocis_list_spaces" ∷ "ocis_create_space" ∷ "ocis_create_project_space"
    ∷ "ocis_list_education_schools" ∷ "ocis_get_education_school" ∷ "ocis_list_education_users"
    ∷ "ocis_get_education_user" ∷ "ocis_create_education_user" ∷ []

abbrev pub space_read_tools : List String
space_read_tools =
    "ocis_list_files" ∷ "ocis_get_file_info" ∷ "ocis_download_file" ∷ "ocis_get_file_versions"
    ∷ "ocis_get_resource_by_id" ∷ "ocis_get_resource_metadata" ∷ "ocis_get_space"
    ∷ "ocis_list_space_permissions" ∷ "ocis_get_space_overview" ∷ "ocis_list_shares"
    ∷ "ocis_list_shared_by_me" ∷ "ocis_list_received_shares" ∷ []

abbrev pub space_write_tools : List String
space_write_tools =
    "ocis_create_folder" ∷ "ocis_upload_file" ∷ "ocis_move_file" ∷ "ocis_copy_file"
    ∷ "ocis_delete_file" ∷ "ocis_restore_file_version" ∷ "ocis_tag_resource" ∷ "ocis_untag_resource"
    ∷ "ocis_create_share" ∷ "ocis_create_link" ∷ "ocis_delete_share" ∷ "ocis_update_share"
    ∷ "ocis_update_share_expiration" ∷ "ocis_create_space_link" ∷ "ocis_set_space_readme"
    ∷ "ocis_upload_and_share" ∷ "ocis_share_with_link" ∷ []

abbrev pub space_admin_tools : List String
space_admin_tools =
    "ocis_update_space" ∷ "ocis_disable_space" ∷ "ocis_delete_space" ∷ "ocis_restore_space"
    ∷ "ocis_invite_to_space" ∷ "ocis_empty_trashbin" ∷ "ocis_set_space_image" ∷ []

abbrev pub any_read_tools : List String
any_read_tools =
    "ocis_list_my_spaces" ∷ "ocis_search" ∷ "ocis_search_by_tag" ∷ "ocis_find_and_download"
    ∷ "ocis_ocm_list_providers" ∷ "ocis_ocm_list_shares" ∷ "ocis_ocm_list_received" ∷ []

abbrev pub any_write_tools : List String
any_write_tools =
    "ocis_list_notifications" ∷ "ocis_delete_notification" ∷ "ocis_list_app_tokens"
    ∷ "ocis_create_app_token" ∷ "ocis_delete_app_token" ∷ "ocis_ocm_create_share"
    ∷ "ocis_accept_share" ∷ "ocis_reject_share" ∷ []

abbrev pub no_need : Need
no_need = record {
  instance_admin = false;
  space = level_none;
  any_space = level_none;
  always = false;
}

-- `case "a", "b", …:`
unfoldable pub listed : String → List String → Bool
unfolding any
listed name names = any (λ n. n == name) names

unfoldable pub tool_need : String → Need
tool_need name =
    if listed name always_tools
    then record no_need { always = true }
    else if listed name admin_tools
    then record no_need { instance_admin = true }
    else if listed name space_read_tools
    then record no_need { space = level_read }
    else if listed name space_write_tools
    then record no_need { space = level_write }
    else if listed name space_admin_tools
    then record no_need { space = level_admin }
    else if listed name any_read_tools
    then record no_need { any_space = level_read }
    else if listed name any_write_tools
    then record no_need { any_space = level_write }
    else record no_need { instance_admin = true }

-- The errors that `Allow` formats, each with what its text names.
pub data Denied : Type 0 where
  no_consent_grant : Denied
  needs_instance_admin : String → Denied
  needs_space_id : String → Denied
  needs_level : String → Level → String → Level → Denied
  needs_some_space : String → Level → Denied
  not_permitted : String → Denied

unfoldable pub target_space : RawMessage → String
target_space arguments =
    let args = unmarshal_args arguments in
    if args.space_id == "" then args.drive_id else args.space_id

unfoldable pub some_space_at : Level → List SpaceGrant → Bool
unfolding at_least
some_space_at need spaces = any (λ s. at_least s.level need) spaces

-- the part of `Allow` behind its first two tests, for the space that the arguments name
unfoldable pub allow_need : Need → Grant → String → String → Result Denied (Unit {0})
unfolding at_least
allow_need need g name space_id =
    if need.instance_admin
    then (if not g.instance_admin then err (needs_instance_admin name) else ok tt)
    else if ltb level_none need.space
    then (if space_id == ""
        then err (needs_space_id name)
        else if not (at_least (space_level (some g) space_id) need.space)
        then err (needs_level name need.space space_id (space_level (some g) space_id))
        else ok tt)
    else if ltb level_none need.any_space
    then (if some_space_at need.any_space g.spaces
        then ok tt
        else err (needs_some_space name need.any_space))
    else err (not_permitted name)

unfoldable pub allow_for : Need → Option Grant → String → RawMessage → Result Denied (Unit {0})
allow_for need none name arguments = if need.always then ok tt else err no_consent_grant
allow_for need (some g) name arguments =
    if need.always then ok tt else allow_need need g name (target_space arguments)

unfoldable pub allow : Option Grant → String → RawMessage → Result Denied (Unit {0})
allow g name arguments = allow_for (tool_need name) g name arguments

unfoldable pub is_ok {ℓ κ} : {E : Type ℓ} {A : Type κ} → Result E A → Bool
is_ok (ok a) = true
is_ok (err e) = false

-- the body of the loop of `VisibleTools`: is the tool shown?
unfoldable pub shows : Grant → String → Bool
unfolding is_ok
shows g name =
    if is_ok (allow (some g) name (parsed (object end)))
    then true
    else if ltb level_none (tool_need name).space
    then some_space_at (tool_need name).space g.spaces
    else false

unfoldable pub visible_tools : Option Grant → List String → List String
visible_tools none names = names
visible_tools (some g) names = keep (shows g) names
