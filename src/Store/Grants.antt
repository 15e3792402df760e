-- ===== src/Store/Grants.antt =====
-- The grants, with the oCIS tokens encrypted (internal/store/store.go).
use ocis_mcp_server.Base.{
  ℕ, String, Bool, false, Option, none, some, ltb, nat_eq, ◌==◌, List, [], if◌then◌else◌, Result,
  ok, err, ◌>>=◌,
}
use ocis_mcp_server.Base.Bytes.{Bytes}
use ocis_mcp_server.Base.Table.{find, upsert, modify}
use ocis_mcp_server.Grant.Level.{Grant, SpaceGrant}
use ocis_mcp_server.Secretbox.{seal, open_box}
use ocis_mcp_server.Store.Db.{
  Externals, externals_box, Io, Store, OcisTok, GrantRow, StoreError, sql_failed, no_rows,
  grant_revoked, bad_json, box_error,
}

unfoldable pub tok_of : Grant → OcisTok
tok_of g = record { access = g.ocis_access; refresh = g.ocis_refresh; expiry = g.ocis_expiry_unix }

unfoldable pub is_revoked : Option ℕ → Bool
is_revoked none = false
is_revoked (some at) = ltb 0 at

unfoldable pub with_tokens : Grant → String → String → ℕ → Grant
with_tokens g access refresh expiry_unix = record g {
  ocis_access = access;
  ocis_refresh = refresh;
  ocis_expiry_unix = expiry_unix;
}

module _ ⦃x : Externals⦄ where
  -- The row that INSERT OR REPLACE writes. It names no revoked_at: the column takes its default.
  unfoldable pub row_of : ℕ → Grant → Bytes → GrantRow
  row_of now g enc = record {
    user_id = g.user_id;
    user_name = g.user_name;
    client_id = g.client_id;
    spaces_json = x.encode_spaces g.spaces;
    instance_admin = if g.instance_admin then 1 else 0;
    ocis_token_enc = enc;
    created_at = now;
    revoked_at = none;
  }

  -- `k` is the place of the statement in the call
  unfoldable pub put_grant_at : ℕ → Io → Grant → Store → Result StoreError (Unit {0}) × Store
  unfolding tok_of
  put_grant_at k io g s = elim (seal s.col_key io.nonce (x.encode_tok (tok_of g))) [
    | err e ↦ (err (box_error e), s)
    | ok enc ↦
        if io.fails k
        then (err sql_failed, s)
        else (ok tt, record s { grants = upsert g.id (row_of io.now g enc) s.grants })
  ]

  unfoldable pub put_grant : Io → Grant → Store → Result StoreError (Unit {0}) × Store
  put_grant io g s = put_grant_at 0 io g s

  unfoldable pub unmarshal_spaces : String → Result StoreError (List SpaceGrant)
  unmarshal_spaces text =
      if text == ""
      then ok []
      else elim (x.decode_spaces text) [ none ↦ err bad_json | some ss ↦ ok ss ]

  unfoldable pub open_tok : Bytes → Bytes → Result StoreError OcisTok
  open_tok key enc = elim (open_box key enc) [
    | err e ↦ err (box_error e)
    | ok raw ↦ elim (x.decode_tok raw) [ none ↦ err bad_json | some tok ↦ ok tok ]
  ]

  unfoldable pub grant_of_row : Bytes → String → GrantRow → Result StoreError Grant
  grant_of_row key id row =
      if is_revoked row.revoked_at
      then err grant_revoked
      else unmarshal_spaces row.spaces_json >>= λ spaces. open_tok key row.ocis_token_enc >>= λ tok.
          ok (record {
            id = id;
            user_id = row.user_id;
            user_name = row.user_name;
            client_id = row.client_id;
            spaces = spaces;
            instance_admin = nat_eq row.instance_admin 1;
            ocis_access = tok.access;
            ocis_refresh = tok.refresh;
            ocis_expiry_unix = tok.expiry;
          })

  unfoldable pub get_grant : Io → String → Store → Result StoreError Grant
  get_grant io id s =
      if io.fails 0
      then err sql_failed
      else elim (find id s.grants) [ none ↦ err no_rows | some row ↦ grant_of_row s.col_key id row ]

  unfoldable pub update_ocis_tokens :
      Io → String → String → String → ℕ → Store → Result StoreError (Unit {0}) × Store
  update_ocis_tokens io grant_id access refresh expiry_unix s = elim (get_grant io grant_id s) [
    | err e ↦ (err e, s)
    | ok g ↦ put_grant_at 1 io (with_tokens g access refresh expiry_unix) s
  ]

-- `UpdateOcisTokens` with what other connections do between its two statements, under no lock
unfoldable pub update_interrupted :
    ⦃x : Externals⦄
    → (Store → Store)
    → Io
    → String
    → String
    → String
    → ℕ
    → Store
    → Result StoreError (Unit {0}) × Store
update_interrupted between io grant_id access refresh expiry_unix s =
    elim (get_grant io grant_id s) [
      | err e ↦ (err e, between s)
      | ok g ↦ put_grant_at 1 io (with_tokens g access refresh expiry_unix) (between s)
    ]

abbrev pub stamp : ℕ → GrantRow → GrantRow
stamp now row = record row { revoked_at = some now }

unfoldable pub revoke_grant : Io → String → Store → Result StoreError (Unit {0}) × Store
revoke_grant io id s =
    if io.fails 0
    then (err sql_failed, s)
    else (ok tt, record s { grants = modify id (stamp io.now) s.grants })
