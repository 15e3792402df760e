-- ===== src/Examples/Access.antt =====
-- The settings and the entry to /mcp at concrete inputs.
use Prim.Native.String.{◌++◌}
use ocis_mcp_server.Base.Ints.{pos}
use ocis_mcp_server.Base.{String, ◌≡◌, ◌⊎◌, refl, true, ◌==◌, none, some, any, if◌then◌else◌, ok}
use ocis_mcp_server.Base.Bytes.{take, drop}
use ocis_mcp_server.Base.Table.{find, upsert}
use ocis_mcp_server.Base.Text.{
  map_codes, fold_code, same, take_text, drop_text, trim_text, trim_left_text, trim_right_text,
  is_space,
}
use ocis_mcp_server.Grant.Level.{Grant}
use ocis_mcp_server.Http.{Request}
use ocis_mcp_server.Secretbox.{Primitives, seal, open_box, new_cipher}
use ocis_mcp_server.Store.Db.{migrate}
use ocis_mcp_server.Store.Grants.{
  tok_of, is_revoked, row_of, put_grant_at, put_grant, get_grant, unmarshal_spaces, open_tok,
  grant_of_row,
}
use ocis_mcp_server.Oauth.Jwt.{AccessClaims, access_claims, parse_access, check_token}
use ocis_mcp_server.Config.{
  Config, Parsers, is_oauth, or_default, select_auth_mode, host_of, is_loopback_host,
  check_ocis_url, check_transport, check_bind, check_credentials, validate, timeout_of, read_env,
  load,
}
use ocis_mcp_server.Config.Exposure.{open_server_local}
use ocis_mcp_server.Httpapi.{
  admitted, has_bearer, bearer, maybe_refresh, with_grant as granted, with_claims, mcp_bearer,
}
use ocis_mcp_server.Httpapi.Access.{SameConsent, mcp_bearer_sound}
use ocis_mcp_server.Examples.Codec.{decode_texts, dec_all}
use ocis_mcp_server.Examples.World.{plain_box, plain_externals, plain_jwt, plain_token}
use ocis_mcp_server.Examples.Pages.{plain_libraries}
use ocis_mcp_server.Examples.Data.{consent, with_grant, server, env, exchange}

instance abbrev box : Primitives
box = plain_box

instance abbrev plain_parsers : Parsers
plain_parsers = record {
  split_host = λ addr. some "localhost";
  ip_loopback = λ host. none;
  parse_bool = λ s. s == "true";
  parse_duration = λ s. none;
}

abbrev settings : String → String
settings name =
    if name == "OCIS_MCP_OCIS_URL"
    then "https://ocis"
    else if name == "OCIS_MCP_TRANSPORT"
    then "http"
    else ""

abbrev pub loaded : Config
loaded = record (read_env settings (pos 30000000000)) { auth_mode = "none" }

loads : load settings ≡ ok loaded
unfolding load timeout_of validate check_ocis_url check_transport is_oauth map_codes fold_code same
    check_bind is_loopback_host host_of check_credentials read_env or_default select_auth_mode
loads = refl

open_server_local_example :
    (is_loopback_host loaded.http_addr ≡ true) ⊎ (is_oauth loaded.auth_mode ≡ true)
unfolding read_env or_default
open_server_local_example = open_server_local settings loaded loads refl refl

abbrev claims : AccessClaims
claims = access_claims 1000 "https://mcp" "https://mcp/mcp" "ada" "g1" "mcp-1" 900 "n"

abbrev call : Request
call = record exchange { authorization = "Bearer " ++ plain_token claims }

enters : (mcp_bearer env server (λ token. none) call with_grant).0 ≡ admitted consent
unfolding any mcp_bearer bearer has_bearer take_text drop_text trim_text trim_left_text
    trim_right_text is_space map_codes fold_code same with_claims granted maybe_refresh parse_access
    check_token access_claims get_grant grant_of_row unmarshal_spaces open_tok tok_of is_revoked
    row_of put_grant put_grant_at seal open_box new_cipher migrate find upsert take drop
    decode_texts dec_all
enters = refl

mcp_bearer_sound_example :
    (c : AccessClaims) × (g : Grant) × (parse_access 1000 server.jwt_key server.issuer
        server.audience
        (bearer call)
      ≡ ok c)
    × (get_grant (env.io 1) c.grant_id with_grant ≡ ok g)
    × SameConsent g consent
mcp_bearer_sound_example =
    mcp_bearer_sound env server (λ token. none) call with_grant consent enters
