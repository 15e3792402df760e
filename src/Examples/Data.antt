-- ===== src/Examples/Data.antt =====
-- Grants, stores and requests that the examples share.
use ocis_mcp_server.Base.{true, false, none, some, [], ◌∷◌}
use ocis_mcp_server.Base.Bytes.{Bytes}
use ocis_mcp_server.Grant.Level.{SpaceGrant, Grant}
use ocis_mcp_server.Grant.Arguments.{RawMessage, parsed, object, member, text, end}
use ocis_mcp_server.Store.Db.{Io, Store, migrate}
use ocis_mcp_server.Store.Grants.{put_grant}
use ocis_mcp_server.Store.Codes.{put_auth_code}
use ocis_mcp_server.Oauth.Server.{Server, Env}
use ocis_mcp_server.Http.{Request}
use ocis_mcp_server.Examples.World.{repeat, plain_externals}

abbrev pub home : SpaceGrant
home = record {
  id = "home";
  name = "Ada";
  drive_type = "personal";
  level = 2;
  ceiling = 3;
  description = "";
}

abbrev pub team : SpaceGrant
team = record {
  id = "team";
  name = "Team";
  drive_type = "project";
  level = 1;
  ceiling = 2;
  description = "";
}

abbrev pub consent : Grant
consent = record {
  id = "g1";
  user_id = "ada";
  user_name = "Ada";
  client_id = "mcp-1";
  spaces = home ∷ team ∷ [];
  instance_admin = false;
  ocis_access = "at";
  ocis_refresh = "rt";
  ocis_expiry_unix = 2000;
}

abbrev pub wider : Grant
wider = record consent { instance_admin = true }

abbrev pub on_home : RawMessage
on_home = parsed (object (member "space_id" (text "home") end))

abbrev pub nonce : Bytes
nonce = repeat 12 7

-- every statement succeeds
abbrev pub calm : Io
calm = record { now = 1000; nonce = some nonce; fails = λ k. false }

abbrev pub later : Io
later = record calm { now = 1010 }

abbrev pub key : Bytes
key = repeat 32 5

abbrev pub fresh : Store
fresh = migrate key

abbrev pub with_grant : Store
with_grant = (put_grant calm consent fresh).1

abbrev pub with_code : Store
with_code = (put_auth_code calm "code" "g1" "mcp-1" "https://app/cb" "verifier" 300 with_grant).1

abbrev pub server : Server
server = record {
  public_url = "https://mcp";
  issuer = "https://mcp";
  audience = "https://mcp/mcp";
  jwt_key = key;
  cookie_key = key;
  cookie_secure = true;
  access_ttl = 900;
  refresh_ttl = 2592000;
  code_ttl = 300;
}

abbrev pub env : Env
env = record { io = λ k. calm; random = λ k. b'a' ∷ b'b' ∷ [] }

abbrev pub exchange : Request
exchange = record {
  method = "POST";
  form =
      ("code", "code")
      ∷ ("client_id", "mcp-1")
      ∷ ("redirect_uri", "https://app/cb")
      ∷ ("code_verifier", "verifier")
      ∷ [];
  is_malformed = false;
  query = [];
  cookie = none;
  authorization = "";
}
