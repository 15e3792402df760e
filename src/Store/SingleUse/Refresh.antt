-- ===== src/Store/SingleUse/Refresh.antt =====
-- The use of a refresh token (internal/store/store.go).
use ocis_mcp_server.Base.{
  ℕ, ◌+◌, String, ◌≡◌, ◌≢◌, ◌⊎◌, inl, inr, false, not, ◌||◌, nat_eq, ltb, if_elim, Option, none,
  some, List, arith, Bool-cases, Option-cases, Result, ok,
}
use ocis_mcp_server.Base.Table.{Table, find, insert, modify}
use ocis_mcp_server.Store.Db.{Externals, Io, Store, RefreshRow, StoreError, hash_token}
use ocis_mcp_server.Store.Codes.{
  spent_token, fresh_token, put_refresh, use_refresh, mark_revoked, consume_refresh,
}
use ocis_mcp_server.Store.Frame.{
  SameCodes, put_client-SameCodes, put_session-SameCodes, get_session-SameCodes,
  delete_session-SameCodes, put_grant-SameCodes, update_ocis_tokens-SameCodes,
  revoke_grant-SameCodes, audit-SameCodes, put_auth_code-refresh_tokens,
  consume_auth_code-refresh_tokens,
}
use ocis_mcp_server.Store.Marks.{IsMarked, insert-IsMarked, modify-IsMarked, modify-marks}
use ocis_mcp_server.Store.Trace.{
  Op, puts_client, puts_session, gets_session, deletes_session, puts_grant, updates_tokens,
  revokes_grant, puts_code, consumes_code, puts_refresh, consumes_refresh, audits, step, run,
  run_induction,
}

-- the row of that hash is there and is used
abbrev pub IsSpent : String → Table RefreshRow → Type 0
IsSpent = IsMarked (λ (row : RefreshRow). row.revoked)

spent_token_marks : (row : RefreshRow) → (spent_token row).revoked ≢ 0
spent_token_marks row = omega arith

use_refresh-IsSpent :
    (h k : String) (io : Io) (s : Store) (o : Option RefreshRow)
    → IsSpent h s.refresh_tokens
    → IsSpent h (use_refresh io k s o).1.refresh_tokens
unfolding use_refresh mark_revoked
use_refresh-IsSpent h k io s none p = p
use_refresh-IsSpent h k io s (some row) p =
    if_elim (λ (r : Result StoreError RefreshRow × Store). IsSpent h r.1.refresh_tokens)
      (not (nat_eq row.revoked 0) || ltb row.expires_at io.now) p
      (if_elim (λ (t : Store). IsSpent h t.refresh_tokens) (io.fails 1) p
        (modify-IsMarked (λ (row : RefreshRow). row.revoked) spent_token spent_token_marks h k
          s.refresh_tokens p))

module _ ⦃x : Externals⦄ where
  consume_refresh-IsSpent :
      (h : String) (io : Io) (raw : String) (s : Store)
      → IsSpent h s.refresh_tokens
      → IsSpent h (consume_refresh io raw s).1.refresh_tokens
  unfolding consume_refresh
  consume_refresh-IsSpent h io raw s p =
      if_elim (λ (r : Result StoreError RefreshRow × Store). IsSpent h r.1.refresh_tokens)
        (io.fails 0) p
        (use_refresh-IsSpent h (hash_token raw) io s (find (hash_token raw) s.refresh_tokens) p)

  -- The table is left alone, or an INSERT was accepted.
  put_refresh-cases :
      (io : Io) (raw g c : String) (ttl : ℕ) (s : Store)
      → ((put_refresh io raw g c ttl s).1.refresh_tokens ≡ s.refresh_tokens)
        ⊎ (insert (hash_token raw) (fresh_token (io.now + ttl) g c) s.refresh_tokens
            ≡ some (put_refresh io raw g c ttl s).1.refresh_tokens)
  unfolding put_refresh
  put_refresh-cases io raw g c ttl s = elim (Bool-cases (io.fails 0)) [
    | inl e ↦ inl (ground (arith, e))
    | inr e ↦
        elim (Option-cases
          (insert (hash_token raw) (fresh_token (io.now + ttl) g c) s.refresh_tokens)) [
            | inl refused ↦ inl (ground (arith, e, refused))
            | inr (u, taken) ↦ inr (ground (arith, e, taken))
          ]
  ]

  put_refresh-IsSpent :
      (h : String) (io : Io) (raw g c : String) (ttl : ℕ) (s : Store)
      → IsSpent h s.refresh_tokens
      → IsSpent h (put_refresh io raw g c ttl s).1.refresh_tokens
  put_refresh-IsSpent h io raw g c ttl s p = elim (put_refresh-cases io raw g c ttl s) [
    | inl same ↦ rw same p
    | inr taken ↦
        insert-IsMarked (λ (row : RefreshRow). row.revoked) h (hash_token raw)
          (fresh_token (io.now + ttl) g c) s.refresh_tokens _ taken p
  ]

  kept :
      (h : String) (s t : Store)
      → SameCodes s t
      → IsSpent h s.refresh_tokens
      → IsSpent h t.refresh_tokens
  kept h s t same p = rw same.refresh_tokens p

  pub step-IsSpent :
      (h : String) (io : Io) (op : Op) (s : Store)
      → IsSpent h s.refresh_tokens
      → IsSpent h (step io op s).refresh_tokens
  unfolding step
  step-IsSpent h io (puts_client c) s p = kept h s _ (put_client-SameCodes io c s) p
  step-IsSpent h io (puts_session id payload ttl) s p =
      kept h s _ (put_session-SameCodes io id payload ttl s) p
  step-IsSpent h io (gets_session id) s p = kept h s _ (get_session-SameCodes io id s) p
  step-IsSpent h io (deletes_session id) s p = kept h s _ (delete_session-SameCodes io id s) p
  step-IsSpent h io (puts_grant g) s p = kept h s _ (put_grant-SameCodes io g s) p
  step-IsSpent h io (updates_tokens id access refresh expiry) s p =
      kept h s _ (update_ocis_tokens-SameCodes io id access refresh expiry s) p
  step-IsSpent h io (revokes_grant id) s p = kept h s _ (revoke_grant-SameCodes io id s) p
  step-IsSpent h io (puts_code raw g c redirect challenge ttl) s p =
      rw put_auth_code-refresh_tokens p
  step-IsSpent h io (consumes_code raw) s p = rw consume_auth_code-refresh_tokens p
  step-IsSpent h io (puts_refresh raw g c ttl) s p = put_refresh-IsSpent h io raw g c ttl s p
  step-IsSpent h io (consumes_refresh raw) s p = consume_refresh-IsSpent h io raw s p
  step-IsSpent h io (audits event user client detail) s p =
      kept h s _ (audit-SameCodes io event user client detail s) p

  consumed :
      (io : Io) (raw : String) (s : Store) (row : RefreshRow)
      → (consume_refresh io raw s).0 ≡ ok row
      → io.fails 1 ≡ false
      → (find (hash_token raw) s.refresh_tokens ≡ some row)
        × ((consume_refresh io raw s).1.refresh_tokens
            ≡ modify (hash_token raw) spent_token s.refresh_tokens)
  unfolding consume_refresh use_refresh mark_revoked
  consumed io raw s row e written = ground arith

  -- A successful use whose UPDATE is carried out leaves the token spent.
  pub consumed-IsSpent :
      (io : Io) (raw : String) (s : Store) (row : RefreshRow)
      → (consume_refresh io raw s).0 ≡ ok row
      → io.fails 1 ≡ false
      → IsSpent (hash_token raw) (consume_refresh io raw s).1.refresh_tokens
  consumed-IsSpent io raw s row e written =
      let (found, after) = consumed io raw s row e written in
      rw after (
        modify-marks (λ (row : RefreshRow). row.revoked) spent_token spent_token_marks
          (hash_token raw) s.refresh_tokens row found)

  pub spent_token_refused :
      (io : Io) (raw : String) (s : Store) (row : RefreshRow)
      → IsSpent (hash_token raw) s.refresh_tokens
      → (consume_refresh io raw s).0 ≢ ok row
  unfolding consume_refresh use_refresh
  spent_token_refused io raw s row (found, at, used) e = ground arith

  -- Once a refresh token was used, and the UPDATE that marks it was carried out, no later use of it
  -- succeeds, whatever calls of the store come between and at whatever time.
  pub consume_refresh_once :
      (io : Io) (raw : String) (s : Store) (row : RefreshRow)
      → (consume_refresh io raw s).0 ≡ ok row
      → io.fails 1 ≡ false
      → (ops : List (Io × Op)) (io' : Io) (row' : RefreshRow)
      → (consume_refresh io' raw (run ops (consume_refresh io raw s).1)).0 ≢ ok row'
  consume_refresh_once io raw s row e written ops io' row' =
      spent_token_refused io' raw (run ops (consume_refresh io raw s).1) row' (
        run_induction (λ t. IsSpent (hash_token raw) t.refresh_tokens)
          (λ io op t. step-IsSpent (hash_token raw) io op t) ops (consume_refresh io raw s).1
          (consumed-IsSpent io raw s row e written))
