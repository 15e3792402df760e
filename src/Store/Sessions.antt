-- ===== src/Store/Sessions.antt =====
-- The encrypted sessions of the consent wizard (internal/store/store.go).
use ocis_mcp_server.Base.{ℕ, ◌+◌, String, Option, none, some, ltb, if◌then◌else◌, Result, ok, err}
use ocis_mcp_server.Base.Bytes.{Bytes}
use ocis_mcp_server.Base.Table.{find, upsert, remove}
use ocis_mcp_server.Secretbox.{seal, open_box}
use ocis_mcp_server.Store.Db.{
  Externals, externals_box, Io, Store, SessionRow, StoreError, sql_failed, no_rows, session_expired,
  box_error,
}

-- DELETE FROM sessions WHERE id=?, the error dropped; `k` is the statement's place in the call
unfoldable pub delete_row : ℕ → Io → String → Store → Store
delete_row k io id s = if io.fails k then s else record s { sessions = remove id s.sessions }

unfoldable pub delete_session : Io → String → Store → Store
unfolding delete_row
delete_session io id s = delete_row 0 io id s

module _ ⦃x : Externals⦄ where
  -- `ttl` in seconds
  unfoldable pub put_session :
      Io → String → Bytes → ℕ → Store → Result StoreError (Unit {0}) × Store
  put_session io id payload ttl s = elim (seal s.col_key io.nonce payload) [
    | err e ↦ (err (box_error e), s)
    | ok enc ↦ if io.fails 0 then (err sql_failed, s) else (
      ok tt,
      record s {
        sessions = upsert id (record { data_enc = enc; expires_at = io.now + ttl }) s.sessions;
      },
    )
  ]

  unfoldable pub opened : Store → SessionRow → Result StoreError Bytes
  opened s row = elim (open_box s.col_key row.data_enc) [
    | err e ↦ err (box_error e)
    | ok payload ↦ ok payload
  ]

  unfoldable pub read_row :
      Io → String → Store → Option SessionRow → Result StoreError Bytes × Store
  read_row io id s none = (err no_rows, s)
  read_row io id s (some row) =
      if ltb row.expires_at io.now
      then (err session_expired, delete_row 1 io id s)
      else (opened s row, s)

  unfoldable pub get_session : Io → String → Store → Result StoreError Bytes × Store
  get_session io id s =
      if io.fails 0 then (err sql_failed, s) else read_row io id s (find id s.sessions)
