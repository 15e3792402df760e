-- ===== src/Tools/Bearing/Paths.antt =====
-- The paths that the handlers of internal/tools build begin with a slash.
use ocis_mcp_server.Base.{◌≡◌, String, List, [], ◌∷◌, true, refl, Bool, if◌then◌else◌, if_elim}
use ocis_mcp_server.Tools.AppTokens.{tokens_path}
use ocis_mcp_server.Tools.Bearing.Steps.{rooted, rooted-append}
use ocis_mcp_server.Tools.FileReads.{GetResourceByIdInput, resource_path}
use ocis_mcp_server.Tools.Files.{dav_path}
use ocis_mcp_server.Tools.Groups.{group_path}
use ocis_mcp_server.Tools.Search.{search_path}
use ocis_mcp_server.Tools.Shares.{perm_path, permission_path}
use ocis_mcp_server.Tools.Spaces.{drive_path, root_path, own_path}
use ocis_mcp_server.Tools.Users.{user_path}

pub rooted-if :
    (b : Bool) (s t : String)
    → rooted s ≡ true
    → rooted t ≡ true
    → rooted (if b then s else t) ≡ true
rooted-if b s t h k = if_elim (λ u. rooted u ≡ true) b h k

ruleset begins = (refl, rooted-append, rooted-if)

pub rooted-drive_path : (id : String) → rooted (drive_path id) ≡ true
unfolding rooted drive_path
rooted-drive_path id = search begins

pub rooted-root_path : (id rest : String) → rooted (root_path id rest) ≡ true
unfolding rooted root_path
rooted-root_path id rest = search begins

pub rooted-own_path : (id rest : String) → rooted (own_path id rest) ≡ true
unfolding rooted own_path
rooted-own_path id rest = search begins

pub rooted-perm_path : (space_id item_id : String) → rooted (perm_path space_id item_id) ≡ true
unfolding rooted perm_path
rooted-perm_path space_id item_id = search begins

pub rooted-user_path : (id : String) → rooted (user_path id) ≡ true
unfolding rooted user_path
rooted-user_path id = search begins

pub rooted-group_path : (id : String) → rooted (group_path id) ≡ true
unfolding rooted group_path
rooted-group_path id = search begins

pub rooted-permission_path :
    (space_id item_id id : String) → rooted (permission_path space_id item_id id) ≡ true
unfolding permission_path
rooted-permission_path space_id item_id id =
    rooted-append (perm_path space_id item_id) _ (rooted-perm_path space_id item_id)

pub rooted-search_path : (space_id : String) → rooted (search_path space_id) ≡ true
unfolding rooted search_path
rooted-search_path space_id = search begins

pub rooted-dav_path : (space_id path : String) → rooted (dav_path space_id path) ≡ true
unfolding rooted dav_path
rooted-dav_path space_id path = search begins

pub rooted-tokens_path : (query : List (String × String)) → rooted (tokens_path query) ≡ true
unfolding rooted tokens_path
rooted-tokens_path [] = refl
rooted-tokens_path (p ∷ rest) = search begins

pub rooted-resource_path : (input : GetResourceByIdInput) → rooted (resource_path input) ≡ true
unfolding rooted resource_path
rooted-resource_path input = search begins

pub ruleset roots = (
  refl, rooted-append, rooted-if, rooted-drive_path, rooted-root_path, rooted-own_path,
  rooted-perm_path, rooted-user_path, rooted-group_path, rooted-permission_path, rooted-search_path,
  rooted-dav_path, rooted-tokens_path, rooted-resource_path,
)
