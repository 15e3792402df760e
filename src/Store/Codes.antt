-- ===== src/Store/Codes.antt =====
-- Authorization codes and refresh tokens, stored by their hashes (internal/store/store.go). The
-- two `Consume` methods hold the mutex, so each is one step.
use ocis_mcp_server.Base.{
  ℕ, ◌+◌, String, ◌||◌, not, Option, none, some, ltb, nat_eq, if◌then◌else◌, Result, ok, err,
}
use ocis_mcp_server.Base.Table.{find, insert, modify}
use ocis_mcp_server.Store.Db.{
  Externals, Io, Store, CodeRow, RefreshRow, StoreError, sql_failed, invalid_code,
  code_expired_or_reused, invalid_refresh, refresh_expired_or_revoked, hash_token,
}

-- The rows that the INSERT statements write: the last column takes its default, 0.
unfoldable pub fresh_code : ℕ → String → String → String → String → CodeRow
fresh_code expires_at grant_id client_id redirect challenge = record {
  grant_id = grant_id;
  client_id = client_id;
  redirect_uri = redirect;
  code_challenge = challenge;
  expires_at = expires_at;
  used = 0;
}

unfoldable pub fresh_token : ℕ → String → String → RefreshRow
fresh_token expires_at grant_id client_id = record {
  grant_id = grant_id;
  client_id = client_id;
  expires_at = expires_at;
  revoked = 0;
}

abbrev pub spent : CodeRow → CodeRow
spent row = record row { used = 1 }

abbrev pub spent_token : RefreshRow → RefreshRow
spent_token row = record row { revoked = 1 }

unfoldable pub mark_used : String → Store → Store
mark_used h s = record s { auth_codes = modify h spent s.auth_codes }

unfoldable pub use_code : Io → String → Store → Option CodeRow → Result StoreError CodeRow × Store
use_code io h s none = (err invalid_code, s)
use_code io h s (some row) =
    if not (nat_eq row.used 0) || ltb row.expires_at io.now
    then (err code_expired_or_reused, s)
    else (ok row, if io.fails 1 then s else mark_used h s)

unfoldable pub mark_revoked : String → Store → Store
mark_revoked h s = record s { refresh_tokens = modify h spent_token s.refresh_tokens }

unfoldable pub use_refresh :
    Io → String → Store → Option RefreshRow → Result StoreError RefreshRow × Store
use_refresh io h s none = (err invalid_refresh, s)
use_refresh io h s (some row) =
    if not (nat_eq row.revoked 0) || ltb row.expires_at io.now
    then (err refresh_expired_or_revoked, s)
    else (ok row, if io.fails 1 then s else mark_revoked h s)

module _ ⦃x : Externals⦄ where
  unfoldable pub put_auth_code :
      Io
      → String
      → String
      → String
      → String
      → String
      → ℕ
      → Store
      → Result StoreError (Unit {0}) × Store
  put_auth_code io raw_code grant_id client_id redirect challenge ttl s =
      if io.fails 0
      then (err sql_failed, s)
      else elim (insert (hash_token raw_code)
          (fresh_code (io.now + ttl) grant_id client_id redirect challenge) s.auth_codes) [
            | none ↦ (err sql_failed, s)
            | some codes ↦ (ok tt, record s { auth_codes = codes })
          ]

  -- The columns that the method returns are those of the row that it found.
  unfoldable pub consume_auth_code : Io → String → Store → Result StoreError CodeRow × Store
  consume_auth_code io raw_code s =
      if io.fails 0
      then (err invalid_code, s)
      else use_code io (hash_token raw_code) s (find (hash_token raw_code) s.auth_codes)

  unfoldable pub put_refresh :
      Io → String → String → String → ℕ → Store → Result StoreError (Unit {0}) × Store
  put_refresh io raw grant_id client_id ttl s =
      if io.fails 0
      then (err sql_failed, s)
      else elim (insert (hash_token raw) (fresh_token (io.now + ttl) grant_id client_id)
          s.refresh_tokens) [
            | none ↦ (err sql_failed, s)
            | some tokens ↦ (ok tt, record s { refresh_tokens = tokens })
          ]

  unfoldable pub consume_refresh : Io → String → Store → Result StoreError RefreshRow × Store
  consume_refresh io raw s =
      if io.fails 0
      then (err invalid_refresh, s)
      else use_refresh io (hash_token raw) s (find (hash_token raw) s.refresh_tokens)
