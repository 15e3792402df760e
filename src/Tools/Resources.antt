-- ===== src/Tools/Resources.antt =====
-- internal/tools/resources.go: the resources that the server offers beside its tools.
use ocis_mcp_server.Base.{ℕ, String, List, [], ◌∷◌, leb, if◌then◌else◌, ok, err, Result}
use ocis_mcp_server.Base.Bytes.{Bytes}
use ocis_mcp_server.Base.Ints.{decimal}
use ocis_mcp_server.Client.{
  Network, ClientError, Client, Context, Net, and_then, done, check, in_step,
}
use ocis_mcp_server.Client.ClientError.{failure}
use ocis_mcp_server.Client.Graph.{Decoder, get_raw, get_json, decoded}
use ocis_mcp_server.Config.{Config, ocis_base_url}
use ocis_mcp_server.Grant.Arguments.{Json}
use ocis_mcp_server.Tools.Drives.{SharingRole}
use Prim.Native.String.{◌++◌}

-- `ocs.data.version` of the envelope that the version is read from
pub record VersionEnvelope : Type 0 where
  pub version : List (String × Json)

-- The text of a resource: bytes as oCIS sent them, or the value that json.MarshalIndent writes out.
pub data ResourceText : Type 0 where
  bytes_text : Bytes → ResourceText
  version_text : List (String × Json) → ResourceText
  roles_text : List SharingRole → ResourceText
  types_text : List (List (String × String)) → ResourceText
  info_text : List (String × String) → ResourceText

pub record ResourceContents : Type 0 where
  pub uri : String
  pub mime_type : String
  pub text : ResourceText

pub data Resource : Type 0 where
  capabilities version sharing_roles drive_types auth_mode : Resource

unfoldable pub resource_uri : Resource → String
resource_uri capabilities = "ocis://capabilities"
resource_uri version = "ocis://version"
resource_uri sharing_roles = "ocis://sharing-roles"
resource_uri drive_types = "ocis://drive-types"
resource_uri auth_mode = "ocis://auth-mode"

unfoldable pub text_resource : String → ResourceText → ResourceContents
text_resource uri text = record { uri = uri; mime_type = "application/json"; text = text }

abbrev pub drive_type_entry : String → String → List (String × String)
drive_type_entry type description = ("type", type) ∷ ("description", description) ∷ []

unfoldable pub drive_type_entries : List (List (String × String))
drive_type_entries =
    drive_type_entry "personal" "User's personal space (one per user)"
    ∷ drive_type_entry "project" "Collaborative project space with shared membership"
    ∷ drive_type_entry "shares" "Virtual space aggregating shares received by the user"
    ∷ drive_type_entry "virtual" "System-managed virtual space"
    ∷ []

-- no credential is in it
unfoldable pub auth_mode_info : Config → List (String × String)
auth_mode_info cfg =
    ("auth_mode", cfg.auth_mode)
    ∷ ("ocis_url", ocis_base_url cfg)
    ∷ ("transport", cfg.transport)
    ∷ []

unfoldable pub check_capabilities : ℕ → Result ClientError (Unit {0})
check_capabilities status =
    if leb 400 status
    then err (failure ("capabilities endpoint returned HTTP " ++ decimal status))
    else ok tt

module _ ⦃n : Network⦄ (c : Client) (ctx : Context) where
  unfoldable pub capabilities_handler : String → Net ResourceContents
  unfolding text_resource check_capabilities
  capabilities_handler uri =
      and_then
        (in_step "fetching capabilities"
          (get_raw c ctx "/ocs/v1.php/cloud/capabilities?format=json"))
        λ raw. check (check_capabilities raw.1) (done (text_resource uri (bytes_text raw.0)))

  unfoldable pub version_handler : ⦃d : Decoder VersionEnvelope⦄ → String → Net ResourceContents
  unfolding text_resource check_capabilities
  version_handler ⦃d⦄ uri =
      and_then
        (in_step "fetching version" (get_raw c ctx "/ocs/v1.php/cloud/capabilities?format=json"))
        λ raw. check (check_capabilities raw.1) (
          and_then (decoded "parsing version" (d.decode raw.0))
            λ caps. done (text_resource uri (version_text caps.version)))

  unfoldable pub sharing_roles_handler :
      ⦃d : Decoder (List SharingRole)⦄ → String → Net ResourceContents
  unfolding text_resource
  sharing_roles_handler uri =
      and_then
        (in_step "fetching sharing roles"
          (get_json c ctx "/graph/v1beta1/roleManagement/permissions/roleDefinitions" []))
        λ roles. done (text_resource uri (roles_text roles))

  unfoldable pub drive_types_handler : String → Net ResourceContents
  unfolding text_resource drive_type_entries
  drive_types_handler uri = done (text_resource uri (types_text drive_type_entries))

  unfoldable pub auth_mode_handler : String → Net ResourceContents
  unfolding text_resource auth_mode_info
  auth_mode_handler uri = done (text_resource uri (info_text (auth_mode_info c.cfg)))

  -- the handler that a resource is registered with, at the resource's own URI
  unfoldable pub read_resource :
      ⦃dv : Decoder VersionEnvelope⦄ ⦃dl : Decoder (List SharingRole)⦄
      → Resource
      → Net ResourceContents
  read_resource capabilities = capabilities_handler (resource_uri capabilities)
  read_resource version = version_handler (resource_uri version)
  read_resource sharing_roles = sharing_roles_handler (resource_uri sharing_roles)
  read_resource drive_types = drive_types_handler (resource_uri drive_types)
  read_resource auth_mode = auth_mode_handler (resource_uri auth_mode)
