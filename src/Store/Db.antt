-- ===== src/Store/Db.antt =====
-- The tables of internal/store/store.go, and what the package calls.
use ocis_mcp_server.Base.{
  ℕ, ◌≡◌, ◌≢◌, String, Bool, Option, some, List, [], ◌∷◌, ◌++◌, All, ◌<◌, if◌then◌else◌,
}
use ocis_mcp_server.Base.Bytes.{Bytes, hex_encode}
use ocis_mcp_server.Base.Text.{codes}
use ocis_mcp_server.Base.Table.{Table}
use ocis_mcp_server.Grant.Level.{SpaceGrant}
use ocis_mcp_server.Secretbox.{Primitives, BoxError}

-- `ocisTok`
pub record OcisTok : Type 0 where
  pub access : String
  pub refresh : String
  pub expiry : ℕ

-- crypto/sha256, encoding/hex and encoding/json, the last for the three shapes that are stored here.
pub record Externals : Type 0 where
  pub box : Primitives
  pub sha256 : String → Bytes
  pub hex_string : Bytes → String
  pub codes-hex_string : (b : Bytes) → All (λ n. n < 256) b → codes (hex_string b) ≡ hex_encode b
  pub encode_uris : List String → String
  pub decode_uris : String → Option (List String)
  -- What json.Marshal writes, json.Unmarshal reads back.
  pub decode-encode_uris : (uris : List String) → decode_uris (encode_uris uris) ≡ some uris
  pub encode_spaces : List SpaceGrant → String
  pub decode_spaces : String → Option (List SpaceGrant)
  pub decode-encode_spaces : (ss : List SpaceGrant) → decode_spaces (encode_spaces ss) ≡ some ss
  -- No JSON text is empty.
  pub encode_spaces-ne : (ss : List SpaceGrant) → encode_spaces ss ≢ ""
  pub encode_tok : OcisTok → Bytes
  pub decode_tok : Bytes → Option OcisTok
  pub decode-encode_tok : (t : OcisTok) → decode_tok (encode_tok t) ≡ some t

instance abbrev pub externals_box : ⦃x : Externals⦄ → Primitives
externals_box ⦃x⦄ = x.box

-- What the world answers during one call of the store: the clock in Unix seconds, the random nonce
-- (none if it cannot be read), and whether the k-th SQL statement of the call fails.
pub record Io : Type 0 where
  pub now : ℕ
  pub nonce : Option Bytes
  pub fails : ℕ → Bool

pub record ClientRow : Type 0 where
  pub name : String
  pub secret_hash : String
  pub redirect_uris : String
  pub created_at : ℕ

pub record SessionRow : Type 0 where
  pub data_enc : Bytes
  pub expires_at : ℕ

pub record GrantRow : Type 0 where
  pub user_id : String
  pub user_name : String
  pub client_id : String
  pub spaces_json : String
  pub instance_admin : ℕ
  pub ocis_token_enc : Bytes
  pub created_at : ℕ
  pub revoked_at : Option ℕ

pub record CodeRow : Type 0 where
  pub grant_id : String
  pub client_id : String
  pub redirect_uri : String
  pub code_challenge : String
  pub expires_at : ℕ
  pub used : ℕ

pub record RefreshRow : Type 0 where
  pub grant_id : String
  pub client_id : String
  pub expires_at : ℕ
  pub revoked : ℕ

pub record AuditRow : Type 0 where
  pub at : ℕ
  pub event : String
  pub user_id : String
  pub client_id : String
  pub detail : String

-- `Store`: the column key and the six tables of `migrate`, each under its primary key.
pub record Store : Type 0 where
  pub col_key : Bytes
  pub oauth_clients : Table ClientRow
  pub sessions : Table SessionRow
  pub grants : Table GrantRow
  pub auth_codes : Table CodeRow
  pub refresh_tokens : Table RefreshRow
  pub audit_log : List AuditRow

pub data StoreError : Type 0 where
  sql_failed : StoreError
  no_rows : StoreError
  session_expired : StoreError
  grant_revoked : StoreError
  bad_json : StoreError
  box_error : BoxError → StoreError
  invalid_code : StoreError
  code_expired_or_reused : StoreError
  invalid_refresh : StoreError
  refresh_expired_or_revoked : StoreError

unfoldable pub migrate : Bytes → Store
migrate key = record {
  col_key = key;
  oauth_clients = [];
  sessions = [];
  grants = [];
  auth_codes = [];
  refresh_tokens = [];
  audit_log = [];
}

-- `HashToken`
unfoldable pub hash_token : ⦃x : Externals⦄ → String → String
hash_token ⦃x⦄ raw = x.hex_string (x.sha256 raw)

-- `Audit`: an error of the INSERT is dropped
unfoldable pub audit : Io → String → String → String → String → Store → Store
audit io event user_id client_id detail s = if io.fails 0 then s else record s {
  audit_log =
      s.audit_log
      ++ record {
        at = io.now;
        event = event;
        user_id = user_id;
        client_id = client_id;
        detail = detail;
      }
        ∷ [];
}
