-- ===== src/Store/SingleUse/Code.antt =====
-- The use of an authorization code (internal/store/store.go).
use ocis_mcp_server.Base.{
  ℕ, ◌+◌, String, ◌≡◌, ◌≢◌, ◌⊎◌, inl, inr, false, not, ◌||◌, nat_eq, ltb, if_elim, Option, none,
  some, List, arith, Bool-cases, Option-cases, Result, ok,
}
use ocis_mcp_server.Base.Table.{Table, find, insert, modify}
use ocis_mcp_server.Store.Db.{Externals, Io, Store, CodeRow, StoreError, hash_token}
use ocis_mcp_server.Store.Codes.{
  spent, fresh_code, put_auth_code, use_code, mark_used, consume_auth_code,
}
use ocis_mcp_server.Store.Frame.{
  SameCodes, put_client-SameCodes, put_session-SameCodes, get_session-SameCodes,
  delete_session-SameCodes, put_grant-SameCodes, update_ocis_tokens-SameCodes,
  revoke_grant-SameCodes, audit-SameCodes, put_refresh-auth_codes, consume_refresh-auth_codes,
}
use ocis_mcp_server.Store.Marks.{IsMarked, insert-IsMarked, modify-IsMarked, modify-marks}
use ocis_mcp_server.Store.Trace.{
  Op, puts_client, puts_session, gets_session, deletes_session, puts_grant, updates_tokens,
  revokes_grant, puts_code, consumes_code, puts_refresh, consumes_refresh, audits, step, run,
  run_induction,
}

-- the row of that hash is there and is used
abbrev pub IsSpent : String → Table CodeRow → Type 0
IsSpent = IsMarked (λ (row : CodeRow). row.used)

spent_marks : (row : CodeRow) → (spent row).used ≢ 0
spent_marks row = omega arith

use_code-IsSpent :
    (h k : String) (io : Io) (s : Store) (o : Option CodeRow)
    → IsSpent h s.auth_codes
    → IsSpent h (use_code io k s o).1.auth_codes
unfolding use_code mark_used
use_code-IsSpent h k io s none p = p
use_code-IsSpent h k io s (some row) p =
    if_elim (λ (r : Result StoreError CodeRow × Store). IsSpent h r.1.auth_codes)
      (not (nat_eq row.used 0) || ltb row.expires_at io.now) p
      (if_elim (λ (t : Store). IsSpent h t.auth_codes) (io.fails 1) p
        (modify-IsMarked (λ (row : CodeRow). row.used) spent spent_marks h k s.auth_codes p))

module _ ⦃x : Externals⦄ where
  consume_auth_code-IsSpent :
      (h : String) (io : Io) (raw : String) (s : Store)
      → IsSpent h s.auth_codes
      → IsSpent h (consume_auth_code io raw s).1.auth_codes
  unfolding consume_auth_code
  consume_auth_code-IsSpent h io raw s p =
      if_elim (λ (r : Result StoreError CodeRow × Store). IsSpent h r.1.auth_codes) (io.fails 0) p
        (use_code-IsSpent h (hash_token raw) io s (find (hash_token raw) s.auth_codes) p)

  -- The table is left alone, or an INSERT was accepted.
  put_auth_code-cases :
      (io : Io) (raw g c redirect challenge : String) (ttl : ℕ) (s : Store)
      → ((put_auth_code io raw g c redirect challenge ttl s).1.auth_codes ≡ s.auth_codes)
        ⊎ (insert (hash_token raw) (fresh_code (io.now + ttl) g c redirect challenge) s.auth_codes
            ≡ some (put_auth_code io raw g c redirect challenge ttl s).1.auth_codes)
  unfolding put_auth_code
  put_auth_code-cases io raw g c redirect challenge ttl s = elim (Bool-cases (io.fails 0)) [
    | inl e ↦ inl (ground (arith, e))
    | inr e ↦
        elim (Option-cases (
          insert (hash_token raw) (fresh_code (io.now + ttl) g c redirect challenge)
            s.auth_codes)) [
              | inl refused ↦ inl (ground (arith, e, refused))
              | inr (u, taken) ↦ inr (ground (arith, e, taken))
            ]
  ]

  put_auth_code-IsSpent :
      (h : String) (io : Io) (raw g c redirect challenge : String) (ttl : ℕ) (s : Store)
      → IsSpent h s.auth_codes
      → IsSpent h (put_auth_code io raw g c redirect challenge ttl s).1.auth_codes
  put_auth_code-IsSpent h io raw g c redirect challenge ttl s p =
      elim (put_auth_code-cases io raw g c redirect challenge ttl s) [
        | inl same ↦ rw same p
        | inr taken ↦
            insert-IsMarked (λ (row : CodeRow). row.used) h (hash_token raw)
              (fresh_code (io.now + ttl) g c redirect challenge) s.auth_codes _ taken p
      ]

  kept :
      (h : String) (s t : Store) → SameCodes s t → IsSpent h s.auth_codes → IsSpent h t.auth_codes
  kept h s t same p = rw same.auth_codes p

  pub step-IsSpent :
      (h : String) (io : Io) (op : Op) (s : Store)
      → IsSpent h s.auth_codes
      → IsSpent h (step io op s).auth_codes
  unfolding step
  step-IsSpent h io (puts_client c) s p = kept h s _ (put_client-SameCodes io c s) p
  step-IsSpent h io (puts_session id payload ttl) s p =
      kept h s _ (put_session-SameCodes io id payload ttl s) p
  step-IsSpent h io (gets_session id) s p = kept h s _ (get_session-SameCodes io id s) p
  step-IsSpent h io (deletes_session id) s p = kept h s _ (delete_session-SameCodes io id s) p
  step-IsSpent h io (puts_grant g) s p = kept h s _ (put_grant-SameCodes io g s) p
  step-IsSpent h io (updates_tokens id access refresh expiry) s p =
      kept h s _ (update_ocis_tokens-SameCodes io id access refresh expiry s) p
  step-IsSpent h io (revokes_grant id) s p = kept h s _ (revoke_grant-SameCodes io id s) p
  step-IsSpent h io (puts_code raw g c redirect challenge ttl) s p =
      put_auth_code-IsSpent h io raw g c redirect challenge ttl s p
  step-IsSpent h io (consumes_code raw) s p = consume_auth_code-IsSpent h io raw s p
  step-IsSpent h io (puts_refresh raw g c ttl) s p = rw put_refresh-auth_codes p
  step-IsSpent h io (consumes_refresh raw) s p = rw consume_refresh-auth_codes p
  step-IsSpent h io (audits event user client detail) s p =
      kept h s _ (audit-SameCodes io event user client detail s) p

  consumed :
      (io : Io) (raw : String) (s : Store) (row : CodeRow)
      → (consume_auth_code io raw s).0 ≡ ok row
      → io.fails 1 ≡ false
      → (find (hash_token raw) s.auth_codes ≡ some row)
        × ((consume_auth_code io raw s).1.auth_codes ≡ modify (hash_token raw) spent s.auth_codes)
  unfolding consume_auth_code use_code mark_used
  consumed io raw s row e written = ground arith

  -- A successful use whose UPDATE is carried out leaves the code spent.
  pub consumed-IsSpent :
      (io : Io) (raw : String) (s : Store) (row : CodeRow)
      → (consume_auth_code io raw s).0 ≡ ok row
      → io.fails 1 ≡ false
      → IsSpent (hash_token raw) (consume_auth_code io raw s).1.auth_codes
  consumed-IsSpent io raw s row e written =
      let (found, after) = consumed io raw s row e written in
      rw after (
        modify-marks (λ (row : CodeRow). row.used) spent spent_marks (hash_token raw) s.auth_codes
          row found)

  pub spent_refused :
      (io : Io) (raw : String) (s : Store) (row : CodeRow)
      → IsSpent (hash_token raw) s.auth_codes
      → (consume_auth_code io raw s).0 ≢ ok row
  unfolding consume_auth_code use_code
  spent_refused io raw s row (found, at, used) e = ground arith

  -- Once a code was used, and the UPDATE that marks it was carried out, no later use of it succeeds,
  -- whatever calls of the store come between and at whatever time.
  pub consume_auth_code_once :
      (io : Io) (raw : String) (s : Store) (row : CodeRow)
      → (consume_auth_code io raw s).0 ≡ ok row
      → io.fails 1 ≡ false
      → (ops : List (Io × Op)) (io' : Io) (row' : CodeRow)
      → (consume_auth_code io' raw (run ops (consume_auth_code io raw s).1)).0 ≢ ok row'
  consume_auth_code_once io raw s row e written ops io' row' =
      spent_refused io' raw (run ops (consume_auth_code io raw s).1) row' (
        run_induction (λ t. IsSpent (hash_token raw) t.auth_codes)
          (λ io op t. step-IsSpent (hash_token raw) io op t) ops (consume_auth_code io raw s).1
          (consumed-IsSpent io raw s row e written))
