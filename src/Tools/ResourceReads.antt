-- ===== src/Tools/ResourceReads.antt =====
-- The address and the credential of the requests for a resource (internal/tools/resources.go).
use Prim.Native.String.{◌++◌}
use ocis_mcp_server.Base.{ℕ, String, List, ◌≡◌, refl, true, false, ◌≢◌, All, subst}
use ocis_mcp_server.Base.Bytes.{Bytes}
use ocis_mcp_server.Client.{Network, Client, Context, Net, grant_context, and_then, in_step}
use ocis_mcp_server.Client.Admits.{Admits}
use ocis_mcp_server.Client.Calls.{get_raw-Sends, get_json-Sends, decoded-Sends}
use ocis_mcp_server.Client.Graph.{Decoder, get_raw}
use ocis_mcp_server.Client.Sends.{Sends, done-Sends, and_then-Sends, in_step-Sends}
use ocis_mcp_server.Grant.Level.{Grant}
use ocis_mcp_server.Tools.Bearing.Steps.{rooted, IsBearing, Bearing, here, check1}
use ocis_mcp_server.Tools.Confined.{new_wire, grant_credential}
use ocis_mcp_server.Tools.Drives.{SharingRole}
use ocis_mcp_server.Tools.Resources.{
  Resource, ResourceContents, VersionEnvelope, read_resource, capabilities_handler, version_handler,
  sharing_roles_handler, drive_types_handler, auth_mode_handler,
}
use ocis_mcp_server.Tools.Resources.Resource.{
  capabilities, version, sharing_roles, drive_types, auth_mode,
}

module _ ⦃n : Network⦄ (c : Client) (ctx : Context) where
  -- bytes fetched from oCIS, and what a handler makes of them without sending more
  fetched-Sends :
      (what path : String) {k : Bytes × ℕ → Net ResourceContents}
      → rooted path ≡ true
      → ((raw : Bytes × ℕ) → Sends (Admits (Bearing c ctx false)) (k raw))
      → Sends (Admits (Bearing c ctx false)) (and_then (in_step what (get_raw c ctx path)) k)
  fetched-Sends what path at h =
      and_then-Sends (in_step-Sends what (get_raw-Sends c ctx path (here path at))) h

  read_resource-Sends :
      ⦃dv : Decoder VersionEnvelope⦄ ⦃dl : Decoder (List SharingRole)⦄ (r : Resource)
      → Sends (Admits (Bearing c ctx false)) (read_resource c ctx r)
  unfolding rooted read_resource capabilities_handler version_handler sharing_roles_handler
      drive_types_handler auth_mode_handler
  read_resource-Sends capabilities = fetched-Sends _ _ refl λ raw. check1 _ (done-Sends _)
  read_resource-Sends version =
      fetched-Sends _ _ refl
        λ raw. check1 _ (and_then-Sends (decoded-Sends _ _) λ caps. done-Sends _)
  read_resource-Sends sharing_roles =
      and_then-Sends (in_step-Sends _ (get_json-Sends c ctx _ _ (here _ refl)))
        λ roles. done-Sends _
  read_resource-Sends drive_types = done-Sends _
  read_resource-Sends auth_mode = done-Sends _

-- A read of any resource, under a grant with a token of oCIS: every request that it sends, retries
-- included, bears the token of the grant, and its address is the base URL of the server with a path
-- behind it that begins with a slash.
pub read_resource-Bearing :
    ⦃n : Network⦄ ⦃dv : Decoder VersionEnvelope⦄ ⦃dl : Decoder (List SharingRole)⦄ (c : Client)
    (g : Grant) (r : Resource)
    → g.ocis_access ≢ ""
    → All
        (Admits (IsBearing c false ("Bearer " ++ g.ocis_access)))
        (read_resource c (grant_context g) r new_wire).1.sent
read_resource-Bearing c g r h =
    subst
      (λ k.
        All (Admits (IsBearing c false k)) (read_resource c (grant_context g) r new_wire).1.sent)
      (grant_credential c g h) ((read_resource-Sends c (grant_context g) r).kept new_wire tt)
