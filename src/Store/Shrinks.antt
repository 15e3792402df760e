-- ===== src/Store/Shrinks.antt =====
-- What the calls of the store, but for `put_session`, do to the sessions (internal/store/store.go).
use ocis_mcp_server.Base.{ℕ, String, ◌≡◌, refl, ◌∙◌, some, arith, Bool-cases, inl, inr}
use ocis_mcp_server.Base.Table.{find, find-remove}
use ocis_mcp_server.Grant.Level.{Grant}
use ocis_mcp_server.Store.Db.{Externals, Io, Store, SessionRow, audit}
use ocis_mcp_server.Store.Clients.{put_client}
use ocis_mcp_server.Store.Sessions.{get_session, read_row, delete_session, delete_row}
use ocis_mcp_server.Store.Grants.{put_grant, put_grant_at, update_ocis_tokens, revoke_grant}
use ocis_mcp_server.Store.Codes.{
  put_auth_code, use_code, mark_used, consume_auth_code, put_refresh, use_refresh, mark_revoked,
  consume_refresh,
}
use ocis_mcp_server.Store.Trace.{
  Op, puts_client, puts_session, gets_session, deletes_session, puts_grant, updates_tokens,
  revokes_grant, puts_code, consumes_code, puts_refresh, consumes_refresh, audits, step,
}

-- The second store has the column key of the first, and no session row that the first has not.
pub record Shrinks (s t : Store) : Type 0 where
  pub col_key : t.col_key ≡ s.col_key
  pub sessions :
      (id : String) (row : SessionRow)
      → find id t.sessions ≡ some row
      → find id s.sessions ≡ some row

pub Shrinks-trans : {s t u : Store} → Shrinks s t → Shrinks t u → Shrinks s u
Shrinks-trans a b = record {
  col_key = b.col_key ∙ a.col_key;
  sessions = λ id row h. a.sessions id row (b.sessions id row h);
}

pub same-Shrinks : {s t : Store} → t.col_key ≡ s.col_key → t.sessions ≡ s.sessions → Shrinks s t
same-Shrinks k e = record { col_key = k; sessions = λ id row h. rw (← e) h }

pub delete_row-Shrinks :
    (k : ℕ) (io : Io) (id : String) (s : Store) → Shrinks s (delete_row k io id s)
unfolding delete_row
delete_row-Shrinks k io id s = elim (Bool-cases (io.fails k)) [
  | inl e ↦ rw e (same-Shrinks refl refl)
  | inr e ↦
      rw e (record {
        col_key = refl;
        sessions = λ j row h. ground (arith, find-remove id j s.sessions);
      })
]

pub delete_session-Shrinks :
    (io : Io) (id : String) (s : Store) → Shrinks s (delete_session io id s)
unfolding delete_session
delete_session-Shrinks io id s = delete_row-Shrinks 0 io id s

pub audit-Shrinks :
    (io : Io) (event user client detail : String) (s : Store)
    → Shrinks s (audit io event user client detail s)
unfolding audit
audit-Shrinks io event user client detail s = same-Shrinks (ground arith) (ground arith)

revoke_grant-Shrinks : (io : Io) (id : String) (s : Store) → Shrinks s (revoke_grant io id s).1
unfolding revoke_grant
revoke_grant-Shrinks io id s = same-Shrinks (ground arith) (ground arith)

module _ ⦃x : Externals⦄ where
  pub get_session-Shrinks : (io : Io) (id : String) (s : Store) → Shrinks s (get_session io id s).1
  unfolding get_session read_row
  get_session-Shrinks io id s =
      let d = delete_row-Shrinks 1 io id s in
      record {
        col_key = ground (arith, d.col_key);
        sessions = λ j row h. ground (arith, d.sessions j row);
      }

  pub put_grant_at-Shrinks :
      (k : ℕ) (io : Io) (g : Grant) (s : Store) → Shrinks s (put_grant_at k io g s).1
  unfolding put_grant_at
  put_grant_at-Shrinks k io g s = same-Shrinks (ground arith) (ground arith)

  pub put_auth_code-Shrinks :
      (io : Io) (raw g c redirect challenge : String) (ttl : ℕ) (s : Store)
      → Shrinks s (put_auth_code io raw g c redirect challenge ttl s).1
  unfolding put_auth_code
  put_auth_code-Shrinks io raw g c redirect challenge ttl s =
      same-Shrinks (ground arith) (ground arith)

  -- the calls that write no session
  abbrev pub Foreign : Op → Type 0
  Foreign (puts_session id payload ttl) = ⊥
  Foreign op = Unit

  pub step-Shrinks : (io : Io) (op : Op) (s : Store) → Foreign op → Shrinks s (step io op s)
  unfolding step put_client put_grant update_ocis_tokens put_grant_at consume_auth_code use_code
      mark_used put_refresh consume_refresh use_refresh mark_revoked
  step-Shrinks io (puts_client c) s h = same-Shrinks (ground arith) (ground arith)
  step-Shrinks io (puts_session id payload ttl) s h = absurd h
  step-Shrinks io (gets_session id) s h = get_session-Shrinks io id s
  step-Shrinks io (deletes_session id) s h = delete_session-Shrinks io id s
  step-Shrinks io (puts_grant g) s h = same-Shrinks (ground arith) (ground arith)
  step-Shrinks io (updates_tokens id a r e) s h = same-Shrinks (ground arith) (ground arith)
  step-Shrinks io (revokes_grant id) s h = revoke_grant-Shrinks io id s
  step-Shrinks io (puts_code raw g c redirect challenge ttl) s h =
      put_auth_code-Shrinks io raw g c redirect challenge ttl s
  step-Shrinks io (consumes_code raw) s h = same-Shrinks (ground arith) (ground arith)
  step-Shrinks io (puts_refresh raw g c ttl) s h = same-Shrinks (ground arith) (ground arith)
  step-Shrinks io (consumes_refresh raw) s h = same-Shrinks (ground arith) (ground arith)
  step-Shrinks io (audits event user client detail) s h =
      audit-Shrinks io event user client detail s
