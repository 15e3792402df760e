-- ===== src/Store/Frame.antt =====
-- Which tables each call of the store leaves alone.
use ocis_mcp_server.Base.{ℕ, String, ◌≡◌, arith}
use ocis_mcp_server.Base.Bytes.{Bytes}
use ocis_mcp_server.Grant.Level.{Grant}
use ocis_mcp_server.Store.Db.{Externals, Io, Store, audit}
use ocis_mcp_server.Store.Clients.{Client, put_client}
use ocis_mcp_server.Store.Sessions.{put_session, get_session, read_row, delete_session, delete_row}
use ocis_mcp_server.Store.Grants.{put_grant, put_grant_at, update_ocis_tokens, revoke_grant}
use ocis_mcp_server.Store.Codes.{
  put_auth_code, use_code, mark_used, consume_auth_code, put_refresh, use_refresh, mark_revoked,
  consume_refresh,
}

pub record SameCodes (s t : Store) : Type 0 where
  pub auth_codes : t.auth_codes ≡ s.auth_codes
  pub refresh_tokens : t.refresh_tokens ≡ s.refresh_tokens

-- the column key and the grants
pub record SameGrants (s t : Store) : Type 0 where
  pub col_key : t.col_key ≡ s.col_key
  pub grants : t.grants ≡ s.grants

pub delete_row-SameCodes :
    (k : ℕ) (io : Io) (id : String) (s : Store) → SameCodes s (delete_row k io id s)
unfolding delete_row
delete_row-SameCodes k io id s = ground arith

pub delete_row-SameGrants :
    (k : ℕ) (io : Io) (id : String) (s : Store) → SameGrants s (delete_row k io id s)
unfolding delete_row
delete_row-SameGrants k io id s = ground arith

pub delete_session-SameCodes :
    (io : Io) (id : String) (s : Store) → SameCodes s (delete_session io id s)
unfolding delete_session
delete_session-SameCodes io id s = ground arith

pub delete_session-SameGrants :
    (io : Io) (id : String) (s : Store) → SameGrants s (delete_session io id s)
unfolding delete_session
delete_session-SameGrants io id s = ground arith

pub audit-SameCodes :
    (io : Io) (event user client detail : String) (s : Store)
    → SameCodes s (audit io event user client detail s)
unfolding audit
audit-SameCodes io event user client detail s = ground arith

pub audit-SameGrants :
    (io : Io) (event user client detail : String) (s : Store)
    → SameGrants s (audit io event user client detail s)
unfolding audit
audit-SameGrants io event user client detail s = ground arith

pub revoke_grant-SameCodes :
    (io : Io) (id : String) (s : Store) → SameCodes s (revoke_grant io id s).1
unfolding revoke_grant
revoke_grant-SameCodes io id s = ground arith

module _ ⦃x : Externals⦄ where
  pub put_client-SameCodes : (io : Io) (c : Client) (s : Store) → SameCodes s (put_client io c s).1
  unfolding put_client
  put_client-SameCodes io c s = ground arith

  pub put_client-SameGrants :
      (io : Io) (c : Client) (s : Store) → SameGrants s (put_client io c s).1
  unfolding put_client
  put_client-SameGrants io c s = ground arith

  pub put_session-SameCodes :
      (io : Io) (id : String) (payload : Bytes) (ttl : ℕ) (s : Store)
      → SameCodes s (put_session io id payload ttl s).1
  unfolding put_session
  put_session-SameCodes io id payload ttl s = ground arith

  pub put_session-SameGrants :
      (io : Io) (id : String) (payload : Bytes) (ttl : ℕ) (s : Store)
      → SameGrants s (put_session io id payload ttl s).1
  unfolding put_session
  put_session-SameGrants io id payload ttl s = ground arith

  pub get_session-SameCodes :
      (io : Io) (id : String) (s : Store) → SameCodes s (get_session io id s).1
  unfolding get_session read_row
  get_session-SameCodes io id s = ground (arith, delete_row-SameCodes 1 io id s)

  pub get_session-SameGrants :
      (io : Io) (id : String) (s : Store) → SameGrants s (get_session io id s).1
  unfolding get_session read_row
  get_session-SameGrants io id s = ground (arith, delete_row-SameGrants 1 io id s)

  pub put_grant_at-SameCodes :
      (k : ℕ) (io : Io) (g : Grant) (s : Store) → SameCodes s (put_grant_at k io g s).1
  unfolding put_grant_at
  put_grant_at-SameCodes k io g s = ground arith

  pub put_grant-SameCodes : (io : Io) (g : Grant) (s : Store) → SameCodes s (put_grant io g s).1
  unfolding put_grant
  put_grant-SameCodes io g s = put_grant_at-SameCodes 0 io g s

  pub update_ocis_tokens-SameCodes :
      (io : Io) (id access refresh : String) (expiry : ℕ) (s : Store)
      → SameCodes s (update_ocis_tokens io id access refresh expiry s).1
  unfolding update_ocis_tokens put_grant_at
  update_ocis_tokens-SameCodes io id access refresh expiry s = ground arith

  pub put_auth_code-SameGrants :
      (io : Io) (raw g c redirect challenge : String) (ttl : ℕ) (s : Store)
      → SameGrants s (put_auth_code io raw g c redirect challenge ttl s).1
  unfolding put_auth_code
  put_auth_code-SameGrants io raw g c redirect challenge ttl s = ground arith

  pub put_refresh-SameGrants :
      (io : Io) (raw g c : String) (ttl : ℕ) (s : Store)
      → SameGrants s (put_refresh io raw g c ttl s).1
  unfolding put_refresh
  put_refresh-SameGrants io raw g c ttl s = ground arith

  pub consume_auth_code-SameGrants :
      (io : Io) (raw : String) (s : Store) → SameGrants s (consume_auth_code io raw s).1
  unfolding consume_auth_code use_code mark_used
  consume_auth_code-SameGrants io raw s = ground arith

  pub consume_refresh-SameGrants :
      (io : Io) (raw : String) (s : Store) → SameGrants s (consume_refresh io raw s).1
  unfolding consume_refresh use_refresh mark_revoked
  consume_refresh-SameGrants io raw s = ground arith

  pub put_refresh-auth_codes :
      (io : Io) (raw g c : String) (ttl : ℕ) (s : Store)
      → (put_refresh io raw g c ttl s).1.auth_codes ≡ s.auth_codes
  unfolding put_refresh
  put_refresh-auth_codes io raw g c ttl s = ground arith

  pub consume_refresh-auth_codes :
      (io : Io) (raw : String) (s : Store) → (consume_refresh io raw s).1.auth_codes ≡ s.auth_codes
  unfolding consume_refresh use_refresh mark_revoked
  consume_refresh-auth_codes io raw s = ground arith

  pub put_auth_code-refresh_tokens :
      (io : Io) (raw g c redirect challenge : String) (ttl : ℕ) (s : Store)
      → (put_auth_code io raw g c redirect challenge ttl s).1.refresh_tokens ≡ s.refresh_tokens
  unfolding put_auth_code
  put_auth_code-refresh_tokens io raw g c redirect challenge ttl s = ground arith

  pub consume_auth_code-refresh_tokens :
      (io : Io) (raw : String) (s : Store)
      → (consume_auth_code io raw s).1.refresh_tokens ≡ s.refresh_tokens
  unfolding consume_auth_code use_code mark_used
  consume_auth_code-refresh_tokens io raw s = ground arith
