-- ===== src/Tools/Ocm.antt =====
-- internal/tools/ocm.go: shares with users of other servers.
use ocis_mcp_server.Base.{String, Option, List, [], ◌∷◌}
use ocis_mcp_server.Client.{Network, Client, Context, Net, check, validate_id}
use ocis_mcp_server.Client.Graph.{Decoder, get_json, post_json}
use ocis_mcp_server.Grant.Arguments.{Json}
use ocis_mcp_server.Grant.Arguments.Json.{text}
use ocis_mcp_server.Tools.Bodies.{fields, joined, unless_empty}
use ocis_mcp_server.Tools.Search.{required}

pub record OcmProvider : Type 0 where
  pub name : String
  pub domain : String
  pub endpoint : String

pub record OcmIdentity : Type 0 where
  pub id : String
  pub idp : String
  pub name : String
  pub email : String

pub record OcmShare : Type 0 where
  pub id : String
  pub name : String
  pub resource_id : String
  pub resource_type : String
  pub owner : Option OcmIdentity
  pub creator : Option OcmIdentity
  pub grantee : Option OcmIdentity
  pub share_type : String
  pub expiration : String
  pub created_at : String

pub record CreateOcmShareInput : Type 0 where
  pub resource_id : String
  pub grantee_id : String
  pub grantee_idp : String
  pub grantee_name : String
  pub grantee_email : String
  pub share_type : String

unfoldable pub grantee_body : CreateOcmShareInput → List (String × Json)
unfolding unless_empty
grantee_body input =
    ("id", text input.grantee_id)
    ∷ ("idp", text input.grantee_idp)
    ∷ joined (unless_empty "name" input.grantee_name) (unless_empty "email" input.grantee_email)

unfoldable pub ocm_share_body : CreateOcmShareInput → List (String × Json)
unfolding grantee_body unless_empty
ocm_share_body input =
    ("resourceId", text input.resource_id)
    ∷ ("grantee", fields (grantee_body input))
    ∷ unless_empty "shareType" input.share_type

module _ ⦃n : Network⦄ (c : Client) (ctx : Context) where
  unfoldable pub handle_list_ocm_providers :
      ⦃d : Decoder (List OcmProvider)⦄ → Net (List OcmProvider)
  handle_list_ocm_providers = get_json c ctx "/ocm/providers" []

  unfoldable pub handle_create_ocm_share :
      ⦃d : Decoder OcmShare⦄ → CreateOcmShareInput → Net OcmShare
  unfolding ocm_share_body required
  handle_create_ocm_share input = check (validate_id "resource_id" input.resource_id) (
      check (validate_id "grantee_id" input.grantee_id) (
        check (required "grantee_idp" input.grantee_idp)
          (post_json c ctx "/ocm/shares" (fields (ocm_share_body input)))))

  unfoldable pub handle_list_ocm_shares : ⦃d : Decoder (List OcmShare)⦄ → Net (List OcmShare)
  handle_list_ocm_shares = get_json c ctx "/ocm/shares" []

  unfoldable pub handle_list_ocm_received : ⦃d : Decoder (List OcmShare)⦄ → Net (List OcmShare)
  handle_list_ocm_received = get_json c ctx "/ocm/received-shares" []
