-- ===== src/Tools/Bearing/Graph.antt =====
-- The tools of files.go (by ID), spaces.go, shares.go, users.go and groups.go of internal/tools send only
-- requests to oCIS, with the credential of the caller.
use ocis_mcp_server.Base.{List, true}
use ocis_mcp_server.Client.Payload.{empty}
use ocis_mcp_server.Base.{false}
use ocis_mcp_server.Client.Admits.{Admits}
use ocis_mcp_server.Client.Calls.{
  get_json-Sends, list_json-Sends, post_json-Sends, patch_json-Sends, post_json_raw-Sends,
  delete-Sends, purge-Sends, propfind-Sends, upload-Sends, transfer-Sends, webdav_delete-Sends,
}
use ocis_mcp_server.Client.Sends.{Sends, and_then-Sends, in_step-Sends}
use ocis_mcp_server.Client.Webdav.{copy}
use ocis_mcp_server.Tools.Shares.{on_item, on_permission}
use ocis_mcp_server.Tools.PathSends.{finish, quiet-Sends, first_info-Sends}
use ocis_mcp_server.Tools.Serve.{serve_id, serve_space, serve_share, serve_user, serve_group}
use ocis_mcp_server.Base.{List}
use ocis_mcp_server.Client.{Network, Client, Context}
use ocis_mcp_server.Client.FileInfo.{DavDecoder}
use ocis_mcp_server.Client.Graph.{Decoder}
use ocis_mcp_server.Tools.Drives.{Drive, Permission, InviteOutput, SharedItem, SharingRole}
use ocis_mcp_server.Tools.FileReads.{
  ResourceMetadataOutput, handle_get_file_versions, handle_get_resource_by_id,
  handle_get_resource_metadata, handle_restore_file_version,
}
use ocis_mcp_server.Tools.Spaces.{
  handle_create_space, handle_create_space_link, handle_delete_space, handle_disable_space,
  handle_empty_trashbin, handle_get_space, handle_invite_to_space, handle_list_space_permissions,
  handle_list_spaces, handle_restore_space, handle_set_space_image, handle_set_space_readme,
  handle_update_space,
}
use ocis_mcp_server.Tools.Shares.{
  handle_accept_share, handle_create_link, handle_create_share, handle_delete_share,
  handle_get_sharing_roles, handle_list_received_shares, handle_list_shared_by_me,
  handle_list_shares, handle_reject_share, handle_update_share, handle_update_share_expiration,
}
use ocis_mcp_server.Tools.Users.{
  User, handle_create_user, handle_delete_user, handle_get_me, handle_get_user, handle_list_users,
  handle_update_user,
}
use ocis_mcp_server.Tools.Groups.{
  Group, handle_add_group_member, handle_create_group, handle_delete_group, handle_get_group,
  handle_list_groups, handle_remove_group_member, handle_update_group,
}
use ocis_mcp_server.Tools.Calls.{IdCall, SpaceCall, ShareCall, UserCall, GroupCall}
use ocis_mcp_server.Tools.Calls.IdCall.{
  get_file_versions, restore_file_version, get_resource_by_id, get_resource_metadata,
}
use ocis_mcp_server.Tools.Calls.SpaceCall.{
  list_spaces, list_my_spaces, get_space, create_space, update_space, disable_space, delete_space,
  restore_space, invite_to_space, create_space_link, list_space_permissions, empty_trashbin,
  set_space_image, set_space_readme,
}
use ocis_mcp_server.Tools.Calls.ShareCall.{
  create_share, create_link, list_shares, update_share, update_share_expiration, delete_share,
  list_shared_by_me, list_received_shares, accept_share, reject_share, get_sharing_roles,
}
use ocis_mcp_server.Tools.Calls.UserCall.{
  list_users, get_user, create_user, update_user, delete_user, get_me,
}
use ocis_mcp_server.Tools.Calls.GroupCall.{
  list_groups, get_group, create_group, update_group, delete_group, add_group_member,
  remove_group_member,
}
use ocis_mcp_server.Tools.Bearing.Paths.{roots}
use ocis_mcp_server.Tools.Bearing.Steps.{Bearing, rooted, here, check1, check2}

module _ ⦃n : Network⦄ (c : Client) (ctx : Context) where
  pub serve_id-Sends :
      ⦃dav : DavDecoder⦄ ⦃dm : Decoder ResourceMetadataOutput⦄ (call : IdCall)
      → Sends (Admits (Bearing c ctx false)) (serve_id c ctx call)
  unfolding rooted serve_id handle_get_file_versions handle_restore_file_version
      handle_get_resource_by_id handle_get_resource_metadata copy
  serve_id-Sends (get_file_versions input) =
      quiet-Sends (check2 _ _ (finish _ (propfind-Sends c ctx _ "1" (here _ (search roots)))))
  serve_id-Sends (restore_file_version input) =
      quiet-Sends
        (check2 _ _ (finish _ (transfer-Sends c ctx "COPY" _ _ true (here _ (search roots)))))
  serve_id-Sends (get_resource_by_id input) = quiet-Sends (
      check2 _ _ (
        and_then-Sends (propfind-Sends c ctx _ "0" (here _ (search roots)))
          λ ms. first_info-Sends c ctx ms _))
  serve_id-Sends (get_resource_metadata input) =
      quiet-Sends (check2 _ _ (get_json-Sends c ctx _ _ (here _ (search roots))))

  pub serve_space-Sends :
      ⦃dr : Decoder Drive⦄ ⦃dp : Decoder Permission⦄ ⦃di : Decoder InviteOutput⦄ (call : SpaceCall)
      → Sends (Admits (Bearing c ctx false)) (serve_space c ctx call)
  unfolding rooted serve_space handle_list_spaces handle_get_space handle_create_space
      handle_update_space handle_disable_space handle_delete_space handle_restore_space
      handle_invite_to_space handle_create_space_link handle_list_space_permissions
      handle_empty_trashbin handle_set_space_image handle_set_space_readme
  serve_space-Sends (list_spaces input) =
      quiet-Sends (finish _ (list_json-Sends c ctx _ _ (here _ (search roots))))
  serve_space-Sends (list_my_spaces input) =
      quiet-Sends (finish _ (list_json-Sends c ctx _ _ (here _ (search roots))))
  serve_space-Sends (get_space input) =
      quiet-Sends (check1 _ (get_json-Sends c ctx _ _ (here _ (search roots))))
  serve_space-Sends (create_space input) =
      quiet-Sends (post_json-Sends c ctx _ _ (here _ (search roots)))
  serve_space-Sends (update_space input) =
      quiet-Sends (check1 _ (patch_json-Sends c ctx _ _ (here _ (search roots))))
  serve_space-Sends (disable_space input) =
      quiet-Sends (check2 _ _ (finish _ (delete-Sends c ctx _ (here _ (search roots)))))
  serve_space-Sends (delete_space input) =
      quiet-Sends (check2 _ _ (finish _ (purge-Sends c ctx _ (here _ (search roots)))))
  serve_space-Sends (restore_space input) =
      quiet-Sends (check1 _ (patch_json-Sends c ctx _ _ (here _ (search roots))))
  serve_space-Sends (invite_to_space input) =
      quiet-Sends (check1 _ (post_json-Sends c ctx _ _ (here _ (search roots))))
  serve_space-Sends (create_space_link input) =
      quiet-Sends (check1 _ (post_json-Sends c ctx _ _ (here _ (search roots))))
  serve_space-Sends (list_space_permissions input) =
      quiet-Sends (check1 _ (list_json-Sends c ctx _ _ (here _ (search roots))))
  serve_space-Sends (empty_trashbin input) =
      quiet-Sends (check2 _ _ (finish _ (webdav_delete-Sends c ctx _ (here _ (search roots)))))
  serve_space-Sends (set_space_image input) = quiet-Sends (
      check1 _ (finish _ (in_step-Sends _ (upload-Sends c ctx _ empty "" (here _ (search roots))))))
  serve_space-Sends (set_space_readme input) =
      quiet-Sends (
        check1 _
          (finish _ (in_step-Sends _ (upload-Sends c ctx _ empty _ (here _ (search roots))))))

  pub serve_share-Sends :
      ⦃dp : Decoder Permission⦄ ⦃di : Decoder InviteOutput⦄ ⦃ds : Decoder SharedItem⦄
      ⦃dl : Decoder (List SharingRole)⦄ (call : ShareCall)
      → Sends (Admits (Bearing c ctx false)) (serve_share c ctx call)
  unfolding rooted serve_share handle_create_share handle_create_link handle_list_shares
      handle_update_share handle_update_share_expiration handle_delete_share
      handle_list_shared_by_me handle_list_received_shares handle_accept_share handle_reject_share
      handle_get_sharing_roles on_item on_permission
  serve_share-Sends (create_share input) =
      quiet-Sends (check2 _ _ (post_json-Sends c ctx _ _ (here _ (search roots))))
  serve_share-Sends (create_link input) =
      quiet-Sends (check2 _ _ (post_json-Sends c ctx _ _ (here _ (search roots))))
  serve_share-Sends (list_shares input) =
      quiet-Sends (check2 _ _ (list_json-Sends c ctx _ _ (here _ (search roots))))
  serve_share-Sends (update_share input) =
      quiet-Sends (check2 _ _ (patch_json-Sends c ctx _ _ (here _ (search roots))))
  serve_share-Sends (update_share_expiration input) =
      quiet-Sends (check2 _ _ (patch_json-Sends c ctx _ _ (here _ (search roots))))
  serve_share-Sends (delete_share input) =
      quiet-Sends (check1 _ (check2 _ _ (finish _ (delete-Sends c ctx _ (here _ (search roots))))))
  serve_share-Sends (list_shared_by_me input) =
      quiet-Sends (finish _ (list_json-Sends c ctx _ _ (here _ (search roots))))
  serve_share-Sends (list_received_shares input) =
      quiet-Sends (finish _ (list_json-Sends c ctx _ _ (here _ (search roots))))
  serve_share-Sends (accept_share input) =
      quiet-Sends (check2 _ _ (finish _ (post_json_raw-Sends c ctx _ _ (here _ (search roots)))))
  serve_share-Sends (reject_share input) =
      quiet-Sends (check1 _ (check2 _ _ (finish _ (delete-Sends c ctx _ (here _ (search roots))))))
  serve_share-Sends get_sharing_roles =
      quiet-Sends (get_json-Sends c ctx _ _ (here _ (search roots)))

  pub serve_user-Sends :
      ⦃du : Decoder User⦄ (call : UserCall)
      → Sends (Admits (Bearing c ctx false)) (serve_user c ctx call)
  unfolding rooted serve_user handle_list_users handle_get_user handle_create_user
      handle_update_user handle_delete_user handle_get_me
  serve_user-Sends (list_users input) =
      quiet-Sends (finish _ (list_json-Sends c ctx _ _ (here _ (search roots))))
  serve_user-Sends (get_user input) =
      quiet-Sends (check1 _ (get_json-Sends c ctx _ _ (here _ (search roots))))
  serve_user-Sends (create_user input) =
      quiet-Sends (post_json-Sends c ctx _ _ (here _ (search roots)))
  serve_user-Sends (update_user input) =
      quiet-Sends (check1 _ (patch_json-Sends c ctx _ _ (here _ (search roots))))
  serve_user-Sends (delete_user input) =
      quiet-Sends (check2 _ _ (finish _ (delete-Sends c ctx _ (here _ (search roots)))))
  serve_user-Sends get_me = quiet-Sends (get_json-Sends c ctx _ _ (here _ (search roots)))

  pub serve_group-Sends :
      ⦃dg : Decoder Group⦄ (call : GroupCall)
      → Sends (Admits (Bearing c ctx false)) (serve_group c ctx call)
  unfolding rooted serve_group handle_list_groups handle_get_group handle_create_group
      handle_update_group handle_delete_group handle_add_group_member handle_remove_group_member
  serve_group-Sends (list_groups input) =
      quiet-Sends (finish _ (list_json-Sends c ctx _ _ (here _ (search roots))))
  serve_group-Sends (get_group input) =
      quiet-Sends (check1 _ (get_json-Sends c ctx _ _ (here _ (search roots))))
  serve_group-Sends (create_group input) =
      quiet-Sends (post_json-Sends c ctx _ _ (here _ (search roots)))
  serve_group-Sends (update_group input) =
      quiet-Sends (check1 _ (patch_json-Sends c ctx _ _ (here _ (search roots))))
  serve_group-Sends (delete_group input) =
      quiet-Sends (check2 _ _ (finish _ (delete-Sends c ctx _ (here _ (search roots)))))
  serve_group-Sends (add_group_member input) =
      quiet-Sends (check2 _ _ (finish _ (post_json_raw-Sends c ctx _ _ (here _ (search roots)))))
  serve_group-Sends (remove_group_member input) =
      quiet-Sends (check1 _ (check2 _ _ (finish _ (delete-Sends c ctx _ (here _ (search roots))))))
