-- ===== src/Tools/Admin.antt =====
-- internal/tools/admin.go: the state of the server and of this program.
use Prim.Native.String.{◌++◌}
use ocis_mcp_server.Base.{
  ℕ, String, Bool, false, not, ◌&&◌, List, leb, ltb, if◌then◌else◌, Result, ok, err,
}
use ocis_mcp_server.Base.Bytes.{Bytes}
use ocis_mcp_server.Base.Ints.{ℤ, decimal}
use ocis_mcp_server.Client.{Network, ClientError, Client, Context, Net, and_then, done, attempt}
use ocis_mcp_server.Client.Errors.{error_text}
use ocis_mcp_server.Client.Graph.{Decoder, get_raw}
use ocis_mcp_server.Config.{Config, ocis_base_url}
use ocis_mcp_server.Grant.Arguments.{Json}
use ocis_mcp_server.Tools.Notifications.{from_raw}

pub record HealthCheckOutput : Type 0 where
  pub healthy : Bool
  pub status : ℕ
  pub message : String

pub record OcisVersion : Type 0 where
  pub major : ℤ
  pub minor : ℤ
  pub micro : ℤ
  pub string : String
  pub edition : String
  pub product : String

-- `ocs.data` of the envelope
pub record OcsCapabilitiesResponse : Type 0 where
  pub version : OcisVersion
  pub capabilities : List (String × Json)

pub record GetConfigOutput : Type 0 where
  pub auth_mode : String
  pub ocis_url : String
  pub transport : String
  pub http_addr : String
  pub tls_verify : Bool
  pub insecure : Bool

unfoldable pub health_output : ⦃n : Network⦄ → Result ClientError (Bytes × ℕ) → HealthCheckOutput
unfolding error_text
health_output (err e) = record {
  healthy = false;
  status = 0;
  message = "connection failed: " ++ error_text e;
}
health_output (ok (_, status)) =
    let healthy = leb 200 status && ltb status 400 in
    record {
      healthy = healthy;
      status = status;
      message =
          if not healthy then "oCIS returned status " ++ decimal status else "oCIS is healthy";
    }

-- no credential is in it
unfoldable pub config_output : Config → GetConfigOutput
config_output cfg = record {
  auth_mode = cfg.auth_mode;
  ocis_url = ocis_base_url cfg;
  transport = cfg.transport;
  http_addr = cfg.http_addr;
  tls_verify = not cfg.tls_skip_verify;
  insecure = cfg.insecure;
}

module _ ⦃n : Network⦄ (c : Client) (ctx : Context) where
  unfoldable pub handle_health_check : Net HealthCheckOutput
  unfolding health_output
  handle_health_check =
      and_then (attempt (get_raw c ctx "/.well-known/openid-configuration"))
        λ raw. done (health_output raw)

  unfoldable pub handle_get_capabilities :
      ⦃d : Decoder OcsCapabilitiesResponse⦄ → Net OcsCapabilitiesResponse
  unfolding from_raw
  handle_get_capabilities ⦃d⦄ =
      and_then (get_raw c ctx "/ocs/v1.php/cloud/capabilities?format=json")
        λ raw. from_raw "capabilities" "decoding capabilities response" (d.decode raw.0) raw.1

  unfoldable pub handle_get_version : ⦃d : Decoder OcsCapabilitiesResponse⦄ → Net OcisVersion
  unfolding handle_get_capabilities
  handle_get_version = and_then handle_get_capabilities λ resp. done resp.version

  unfoldable pub handle_get_config : Net GetConfigOutput
  unfolding config_output
  handle_get_config = done (config_output c.cfg)
