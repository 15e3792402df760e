-- ===== src/Store/Clients.antt =====
-- The registered clients (internal/store/store.go).
use ocis_mcp_server.Base.{
  String, Bool, Option, none, some, List, [], ◌==◌, any, if◌then◌else◌, Result, ok, err,
}
use ocis_mcp_server.Base.Table.{find, upsert}
use ocis_mcp_server.Store.Db.{Externals, Io, Store, ClientRow, StoreError, sql_failed, no_rows}

pub record Client : Type 0 where
  pub id : String
  pub name : String
  pub secret_hash : String
  pub redirect_uris : List String

abbrev uris_or_nil : Option (List String) → List String
uris_or_nil none = []
uris_or_nil (some uris) = uris

module _ ⦃x : Externals⦄ where
  unfoldable pub put_client : Io → Client → Store → Result StoreError (Unit {0}) × Store
  put_client io c s = if io.fails 0 then (err sql_failed, s) else (
    ok tt,
    record s {
      oauth_clients =
          upsert c.id
            (record {
              name = c.name;
              secret_hash = c.secret_hash;
              redirect_uris = x.encode_uris c.redirect_uris;
              created_at = io.now;
            })
            s.oauth_clients;
    },
  )

  unfoldable pub client_of_row : String → ClientRow → Client
  client_of_row id row = record {
    id = id;
    name = row.name;
    secret_hash = row.secret_hash;
    redirect_uris = uris_or_nil (x.decode_uris row.redirect_uris);
  }

  unfoldable pub get_client : Io → String → Store → Result StoreError Client
  unfolding client_of_row
  get_client io id s = if io.fails 0 then err sql_failed else elim (find id s.oauth_clients) [
    | none ↦ err no_rows
    | some row ↦ ok (client_of_row id row)
  ]

unfoldable pub valid_redirect : Client → String → Bool
valid_redirect c uri = any (λ u. u == uri) c.redirect_uris
