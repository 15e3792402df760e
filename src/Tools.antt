-- ===== src/Tools.antt =====
-- internal/tools: the handlers of the tools. A handler takes the client, the context of the request
-- and the input that encoding/json read, and is a call to oCIS (`Net`).
pub mod Drives
pub mod Bodies
pub mod Files
pub mod FileReads
pub mod Spaces
pub mod Shares
pub mod Users
pub mod Groups
pub mod Search
pub mod Workflows
pub mod Notifications
pub mod AppTokens
pub mod Settings
pub mod Admin
pub mod Ocm
pub mod Education
pub mod Calls
pub mod Names
pub mod Serve
pub mod PathSends
pub mod Confined
pub mod Bearing
pub mod Confirmation
pub mod Granted
pub mod Annotations
pub mod Hints
pub mod Readers
pub mod Resources
pub mod ResourceReads
use ocis_mcp_server.Base.{String, Bool, true, not, Result, ok, err, if◌then◌else◌}
use ocis_mcp_server.Client.{ClientError}
use ocis_mcp_server.Client.ClientError.{failure}

pub record DeleteOutput : Type 0 where
  pub success : Bool
  pub message : String

unfoldable pub success : String → DeleteOutput
success message = record { success = true; message = message }

-- what a destructive handler checks first
unfoldable pub require_confirm : Bool → Result ClientError (Unit {0})
require_confirm confirm =
    if not confirm
    then err (failure "this is a destructive operation. Set confirm=true to proceed")
    else ok tt
