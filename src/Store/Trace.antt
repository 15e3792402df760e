-- ===== src/Store/Trace.antt =====
-- Sequences of calls of the store. The database serialises its statements and the mutex each
-- `Consume`, so what concurrent requests do to it is such a
-- sequence. Two calls run more than one statement outside the mutex: `GetSession` and
-- `UpdateOcisTokens`. Here each is one step; Store/Revocation splits the second.
use ocis_mcp_server.Base.{ℕ, String, List, [], ◌∷◌}
use ocis_mcp_server.Base.Bytes.{Bytes}
use ocis_mcp_server.Grant.Level.{Grant}
use ocis_mcp_server.Store.Db.{Externals, Io, Store, audit}
use ocis_mcp_server.Store.Clients.{Client, put_client}
use ocis_mcp_server.Store.Sessions.{put_session, get_session, delete_session}
use ocis_mcp_server.Store.Grants.{put_grant, update_ocis_tokens, revoke_grant}
use ocis_mcp_server.Store.Codes.{put_auth_code, consume_auth_code, put_refresh, consume_refresh}

pub data Op : Type 0 where
  puts_client : Client → Op
  puts_session : String → Bytes → ℕ → Op
  gets_session : String → Op
  deletes_session : String → Op
  puts_grant : Grant → Op
  updates_tokens : String → String → String → ℕ → Op
  revokes_grant : String → Op
  -- raw code, grant, client, redirect, challenge, seconds
  puts_code : String → String → String → String → String → ℕ → Op
  consumes_code : String → Op
  -- raw token, grant, client, seconds
  puts_refresh : String → String → String → ℕ → Op
  consumes_refresh : String → Op
  audits : String → String → String → String → Op

module _ ⦃x : Externals⦄ where
  unfoldable pub step : Io → Op → Store → Store
  step io (puts_client c) s = (put_client io c s).1
  step io (puts_session id payload ttl) s = (put_session io id payload ttl s).1
  step io (gets_session id) s = (get_session io id s).1
  step io (deletes_session id) s = delete_session io id s
  step io (puts_grant g) s = (put_grant io g s).1
  step io (updates_tokens id access refresh expiry) s =
      (update_ocis_tokens io id access refresh expiry s).1
  step io (revokes_grant id) s = (revoke_grant io id s).1
  step io (puts_code raw g c redirect challenge ttl) s =
      (put_auth_code io raw g c redirect challenge ttl s).1
  step io (consumes_code raw) s = (consume_auth_code io raw s).1
  step io (puts_refresh raw g c ttl) s = (put_refresh io raw g c ttl s).1
  step io (consumes_refresh raw) s = (consume_refresh io raw s).1
  step io (audits event user client detail) s = audit io event user client detail s

  unfoldable pub run : List (Io × Op) → Store → Store
  run [] s = s
  run ((io, op) ∷ rest) s = run rest (step io op s)

  -- What every step keeps, every sequence of steps keeps.
  pub run_induction :
      (P : Store → Type 0)
      → ((io : Io) (op : Op) (s : Store) → P s → P (step io op s))
      → (ops : List (Io × Op)) (s : Store) → P s
      → P (run ops s)
  unfolding run
  run_induction P keep [] s h = h
  run_induction P keep ((io, op) ∷ rest) s h =
      run_induction P keep rest (step io op s) (keep io op s h)
