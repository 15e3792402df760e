-- ===== src/Tools/Shares.antt =====
-- internal/tools/shares.go: the tools on sharing permissions.
use Prim.Native.String.{◌++◌}
use ocis_mcp_server.Base.{ℕ, String, Bool, List, [], ◌∷◌, ◌==◌, ltb, length, if◌then◌else◌}
use ocis_mcp_server.Base.Ints.{ℤ}
use ocis_mcp_server.Client.{Network, Client, Context, Net, and_then, check, done, validate_id}
use ocis_mcp_server.Client.Escape.{path_escape}
use ocis_mcp_server.Client.Graph.{
  Decoder, get_json, list_json, post_json, patch_json, post_json_raw, delete,
}
use ocis_mcp_server.Grant.Arguments.{Json}
use ocis_mcp_server.Grant.Arguments.Json.{null, text, array}
use ocis_mcp_server.Tools.{DeleteOutput, success, require_confirm}
use ocis_mcp_server.Tools.Bodies.{fields, joined, texts, unless_empty, invite_body, link_type}
use ocis_mcp_server.Tools.Drives.{Permission, SharingRole, InviteOutput, SharedItem}

pub record CreateShareInput : Type 0 where
  pub space_id : String
  pub item_id : String
  pub recipients : List String
  pub roles : List String
  pub expiration : String

pub record CreateLinkInput : Type 0 where
  pub space_id : String
  pub item_id : String
  pub kind : String
  pub password : String
  pub expiration : String

pub record ListSharesInput : Type 0 where
  pub space_id : String
  pub item_id : String

pub record UpdateShareInput : Type 0 where
  pub space_id : String
  pub item_id : String
  pub permission_id : String
  pub roles : List String

pub record UpdateShareExpirationInput : Type 0 where
  pub space_id : String
  pub item_id : String
  pub permission_id : String
  pub expiration : String

pub record DeleteShareInput : Type 0 where
  pub space_id : String
  pub item_id : String
  pub permission_id : String
  pub confirm : Bool

pub record AcceptShareInput : Type 0 where
  pub space_id : String
  pub item_id : String
  pub permission_id : String

-- the limit and the offset are not read
pub record ListSharedByMeInput : Type 0 where
  pub limit : ℤ
  pub offset : ℤ

pub record SharedItemsOutput : Type 0 where
  pub items : List SharedItem
  pub total_count : ℕ

unfoldable pub perm_path : String → String → String
perm_path space_id item_id =
    "/graph/v1beta1/drives/" ++ (path_escape space_id ++ ("/items/" ++ path_escape item_id))

-- `<permPath>/permissions/<permission>`
unfoldable pub permission_path : String → String → String → String
unfolding perm_path
permission_path space_id item_id permission_id =
    perm_path space_id item_id ++ ("/permissions/" ++ path_escape permission_id)

unfoldable pub shared_items_output : List SharedItem → SharedItemsOutput
shared_items_output items = record { items = items; total_count = length items }

unfoldable pub update_share_body : List String → List (String × Json)
unfolding texts
update_share_body roles = if ltb 0 (length roles) then ("roles", array (texts roles)) ∷ [] else []

unfoldable pub expiration_body : String → List (String × Json)
expiration_body expiration =
    ("expirationDateTime", if expiration == "" then null else text expiration) ∷ []

module _ ⦃n : Network⦄ (c : Client) (ctx : Context) where
  -- what the handlers that name a permission check of their input
  unfoldable pub on_permission {ℓ} : {A : Type ℓ} → String → String → Net A → Net A
  on_permission space_id permission_id m =
      check (validate_id "space_id" space_id) (check (validate_id "permission_id" permission_id) m)

  -- and those that name an item
  unfoldable pub on_item {ℓ} : {A : Type ℓ} → String → String → Net A → Net A
  on_item space_id item_id m =
      check (validate_id "space_id" space_id) (check (validate_id "item_id" item_id) m)

  unfoldable pub handle_create_share :
      ⦃d : Decoder InviteOutput⦄ → CreateShareInput → Net InviteOutput
  unfolding on_item invite_body unless_empty
  handle_create_share input = on_item input.space_id input.item_id (
      post_json c ctx (perm_path input.space_id input.item_id ++ "/invite") (
        fields (
          joined (invite_body input.recipients input.roles)
            (unless_empty "expirationDateTime" input.expiration))))

  unfoldable pub handle_create_link : ⦃d : Decoder Permission⦄ → CreateLinkInput → Net Permission
  unfolding on_item link_type unless_empty
  handle_create_link input = on_item input.space_id input.item_id (
      post_json c ctx (perm_path input.space_id input.item_id ++ "/createLink") (
        fields (
          ("type", text (link_type input.kind))
          ∷ joined (unless_empty "password" input.password)
              (unless_empty "expirationDateTime" input.expiration))))

  unfoldable pub handle_list_shares :
      ⦃d : Decoder Permission⦄ → ListSharesInput → Net (List Permission)
  unfolding on_item
  handle_list_shares input =
      on_item input.space_id input.item_id
        (list_json c ctx (perm_path input.space_id input.item_id ++ "/permissions") [])

  unfoldable pub handle_update_share : ⦃d : Decoder Permission⦄ → UpdateShareInput → Net Permission
  unfolding on_permission update_share_body
  handle_update_share input = on_permission input.space_id input.permission_id (
      patch_json c ctx (permission_path input.space_id input.item_id input.permission_id)
        (fields (update_share_body input.roles)))

  unfoldable pub handle_update_share_expiration :
      ⦃d : Decoder Permission⦄ → UpdateShareExpirationInput → Net Permission
  unfolding on_permission expiration_body
  handle_update_share_expiration input = on_permission input.space_id input.permission_id (
      patch_json c ctx (permission_path input.space_id input.item_id input.permission_id)
        (fields (expiration_body input.expiration)))

  unfoldable pub handle_delete_share : DeleteShareInput → Net DeleteOutput
  unfolding on_permission
  handle_delete_share input = check (require_confirm input.confirm) (
      on_permission input.space_id input.permission_id (
        and_then (delete c ctx (permission_path input.space_id input.item_id input.permission_id))
          λ _. done (success "share removed")))

  unfoldable pub handle_list_shared_by_me :
      ⦃d : Decoder SharedItem⦄ → ListSharedByMeInput → Net SharedItemsOutput
  unfolding shared_items_output
  handle_list_shared_by_me _ =
      and_then (list_json c ctx "/graph/v1beta1/me/drive/sharedByMe" [])
        λ items. done (shared_items_output items)

  unfoldable pub handle_list_received_shares :
      ⦃d : Decoder SharedItem⦄ → ListSharedByMeInput → Net SharedItemsOutput
  unfolding shared_items_output
  handle_list_received_shares _ =
      and_then (list_json c ctx "/graph/v1beta1/me/drive/sharedWithMe" [])
        λ items. done (shared_items_output items)

  unfoldable pub handle_accept_share : AcceptShareInput → Net DeleteOutput
  unfolding on_permission
  handle_accept_share input = on_permission input.space_id input.permission_id (
      and_then
        (post_json_raw c ctx
          (permission_path input.space_id input.item_id input.permission_id ++ "/accept") null)
        λ _. done (success "share accepted"))

  unfoldable pub handle_reject_share : DeleteShareInput → Net DeleteOutput
  unfolding on_permission
  handle_reject_share input = check (require_confirm input.confirm) (
      on_permission input.space_id input.permission_id (
        and_then (delete c ctx (permission_path input.space_id input.item_id input.permission_id))
          λ _. done (success "share rejected")))

  unfoldable pub handle_get_sharing_roles :
      ⦃d : Decoder (List SharingRole)⦄ → Net (List SharingRole)
  handle_get_sharing_roles =
      get_json c ctx "/graph/v1beta1/roleManagement/permissions/roleDefinitions" []
