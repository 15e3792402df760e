-- ===== src/Store/Revocation.antt =====
-- Revoking a grant (internal/store/store.go).
use ocis_mcp_server.Base.{
  refl, ℕ, ◌<◌, String, ◌≡◌, ◌≢◌, subst, sym, ◌∙◌, inl, inr, Bool, false, not, Option, none, some,
  List, [], ◌∷◌, eq_refl, eq-false, arith, length, All, ok, Result-cases,
}
use ocis_mcp_server.Base.Bytes.{Bytes}
use ocis_mcp_server.Base.Table.{Table, find, find-upsert, find-modify}
use ocis_mcp_server.Grant.Level.{Grant}
use ocis_mcp_server.Secretbox.{nonce_size, seal}
use ocis_mcp_server.Store.Db.{Externals, externals_box, Io, Store, GrantRow}
use ocis_mcp_server.Store.Grants.{
  tok_of, is_revoked, row_of, put_grant_at, put_grant, grant_of_row, get_grant, with_tokens, stamp,
  update_ocis_tokens, update_interrupted, revoke_grant,
}
use ocis_mcp_server.Store.Frame.{
  SameGrants, put_client-SameGrants, put_session-SameGrants, get_session-SameGrants,
  delete_session-SameGrants, audit-SameGrants, put_auth_code-SameGrants, put_refresh-SameGrants,
  consume_auth_code-SameGrants, consume_refresh-SameGrants,
}
use ocis_mcp_server.Store.Roundtrip.{get_grant-put_grant_at}
use ocis_mcp_server.Store.Trace.{
  Op, puts_client, puts_session, gets_session, deletes_session, puts_grant, updates_tokens,
  revokes_grant, puts_code, consumes_code, puts_refresh, consumes_refresh, audits, step, run,
}

unfoldable pub live_row : Option GrantRow → Bool
live_row none = false
live_row (some row) = not (is_revoked row.revoked_at)

-- There is no row of that id, or it is revoked.
abbrev pub IsDead : String → Table GrantRow → Type 0
IsDead id t = live_row (find id t) ≡ false

-- The call stores no grant under that id, and the clock has left the epoch.
abbrev pub Spares : String → Io × Op → Type 0
Spares id (io, puts_grant g) = (0 < io.now) × (g.id ≢ id)
Spares id (io, op) = 0 < io.now

revoke_grant-IsDead :
    (io : Io) (k id : String) (s : Store)
    → 0 < io.now
    → IsDead id s.grants
    → IsDead id (revoke_grant io k s).1.grants
unfolding revoke_grant live_row is_revoked
revoke_grant-IsDead io k id s p d = ground (arith, find-modify k id (stamp io.now) s.grants)

revoked-IsDead :
    (io : Io) (id : String) (s : Store)
    → 0 < io.now
    → io.fails 0 ≡ false
    → IsDead id (revoke_grant io id s).1.grants
unfolding revoke_grant live_row is_revoked
revoked-IsDead io id s p written =
    ground (arith, written, find-modify id id (stamp io.now) s.grants, eq_refl id)

module _ ⦃x : Externals⦄ where
  dead_refused :
      (io : Io) (id : String) (s : Store) (g : Grant)
      → IsDead id s.grants
      → get_grant io id s ≢ ok g
  unfolding get_grant grant_of_row live_row
  dead_refused io id s g d e = ground arith

  get_grant-id :
      (io : Io) (id : String) (s : Store) (g : Grant) → get_grant io id s ≡ ok g → g.id ≡ id
  unfolding get_grant grant_of_row
  get_grant-id io id s g e = ground arith

  put_grant_at-IsDead :
      (k : ℕ) (io : Io) (g : Grant) (id : String) (s : Store)
      → g.id ≢ id
      → IsDead id s.grants
      → IsDead id (put_grant_at k io g s).1.grants
  unfolding put_grant_at
  put_grant_at-IsDead k io g id s apart d =
      elim (Result-cases (seal s.col_key io.nonce (x.encode_tok (tok_of g)))) [
        | inl (enc, e) ↦
            ground
              (arith, e, find-upsert g.id id (row_of io.now g enc) s.grants, eq-false g.id id apart)
        | inr (b, e) ↦ ground (arith, e)
      ]

  update_ocis_tokens-IsDead :
      (io : Io) (k access refresh : String) (expiry : ℕ) (id : String) (s : Store)
      → IsDead id s.grants
      → IsDead id (update_ocis_tokens io k access refresh expiry s).1.grants
  unfolding update_ocis_tokens with_tokens
  update_ocis_tokens-IsDead io k access refresh expiry id s d =
      elim (Result-cases (get_grant io k s)) [
        | inl (g, e) ↦
            rw (e, update_ocis_tokens)
              (put_grant_at-IsDead 1 io (with_tokens g access refresh expiry) id s
                (λ same.
                  dead_refused io id s g d
                    (subst (λ j. get_grant io j s ≡ ok g) (sym (get_grant-id io k s g e) ∙ same) e))
                d)
        | inr (b, e) ↦ rw (e, update_ocis_tokens) d
      ]

  kept : (id : String) (s t : Store) → SameGrants s t → IsDead id s.grants → IsDead id t.grants
  kept id s t same d = rw same.grants d

  step-IsDead :
      (id : String) (io : Io) (op : Op) (s : Store)
      → Spares id (io, op)
      → IsDead id s.grants
      → IsDead id (step io op s).grants
  unfolding step put_grant
  step-IsDead id io (puts_client c) s p d = kept id s _ (put_client-SameGrants io c s) d
  step-IsDead id io (puts_session sid payload ttl) s p d =
      kept id s _ (put_session-SameGrants io sid payload ttl s) d
  step-IsDead id io (gets_session sid) s p d = kept id s _ (get_session-SameGrants io sid s) d
  step-IsDead id io (deletes_session sid) s p d = kept id s _ (delete_session-SameGrants io sid s) d
  step-IsDead id io (puts_grant g) s (p, apart) d = put_grant_at-IsDead 0 io g id s apart d
  step-IsDead id io (updates_tokens k access refresh expiry) s p d =
      update_ocis_tokens-IsDead io k access refresh expiry id s d
  step-IsDead id io (revokes_grant k) s p d = revoke_grant-IsDead io k id s p d
  step-IsDead id io (puts_code raw g c redirect challenge ttl) s p d =
      kept id s _ (put_auth_code-SameGrants io raw g c redirect challenge ttl s) d
  step-IsDead id io (consumes_code raw) s p d =
      kept id s _ (consume_auth_code-SameGrants io raw s) d
  step-IsDead id io (puts_refresh raw g c ttl) s p d =
      kept id s _ (put_refresh-SameGrants io raw g c ttl s) d
  step-IsDead id io (consumes_refresh raw) s p d =
      kept id s _ (consume_refresh-SameGrants io raw s) d
  step-IsDead id io (audits event user client detail) s p d =
      kept id s _ (audit-SameGrants io event user client detail s) d

  run-IsDead :
      (id : String) (ops : List (Io × Op)) (s : Store)
      → All (Spares id) ops
      → IsDead id s.grants
      → IsDead id (run ops s).grants
  unfolding run
  run-IsDead id [] s p d = d
  run-IsDead id ((io, op) ∷ rest) s (p, ps) d =
      run-IsDead id rest (step io op s) ps (step-IsDead id io op s p d)

  -- the write behind a read that succeeds
  pub interrupted_write :
      (between : Store → Store) (io : Io) (id access refresh : String) (expiry : ℕ) (s : Store)
      (g : Grant)
      → get_grant io id s ≡ ok g
      → update_interrupted between io id access refresh expiry s
        ≡ put_grant_at 1 io (with_tokens g access refresh expiry) (between s)
  unfolding update_interrupted
  interrupted_write between io id access refresh expiry s g e = rw (e, update_interrupted) refl

  uninterrupted :
      (io : Io) (id access refresh : String) (expiry : ℕ) (s : Store)
      → update_interrupted (λ t. t) io id access refresh expiry s
        ≡ update_ocis_tokens io id access refresh expiry s
  unfolding update_interrupted update_ocis_tokens
  uninterrupted io id access refresh expiry s = refl

  update_refused :
      (io : Io) (id access refresh : String) (expiry : ℕ) (s : Store)
      → IsDead id s.grants
      → ((update_ocis_tokens io id access refresh expiry s).0 ≢ ok tt)
        × ((update_ocis_tokens io id access refresh expiry s).1 ≡ s)
  unfolding update_ocis_tokens
  update_refused io id access refresh expiry s dead = elim (Result-cases (get_grant io id s)) [
    | inl (g, e) ↦ absurd (dead_refused io id s g dead e)
    | inr (bad, e) ↦ ((λ h. ground (arith, e, h)), rw (e, update_ocis_tokens) refl)
  ]

  -- A revoked grant is never read again: after any calls of the store one after the other, token
  -- refreshes among them, that do not store a new grant under its identifier.
  pub revoked_grant_unreadable :
      (io : Io) (id : String) (s : Store)
      → 0 < io.now
      → io.fails 0 ≡ false
      → (ops : List (Io × Op)) → All (Spares id) ops
      → (io' : Io) (g : Grant) → get_grant io' id (run ops (revoke_grant io id s).1) ≢ ok g
  revoked_grant_unreadable io id s p written ops spared io' g =
      dead_refused io' id (run ops (revoke_grant io id s).1) g
        (run-IsDead id ops (revoke_grant io id s).1 spared (revoked-IsDead io id s p written))

  -- `UpdateOcisTokens` reads and writes in two statements, under no lock. A revocation that falls
  -- between them is lost: the write clears revoked_at, and the grant is read again, with the new
  -- tokens. With nothing between them the statements are `UpdateOcisTokens`, and after the revocation
  -- it fails and changes nothing.
  pub revocation_lost_in_update :
      (io₁ io₂ io₃ : Io) (id access refresh : String) (expiry : ℕ) (nonce : Bytes) (s : Store)
      (g : Grant)
      → get_grant io₁ id s ≡ ok g
      → io₁.nonce ≡ some nonce
      → length nonce ≡ nonce_size
      → 0 < io₂.now
      → io₂.fails 0 ≡ false
      → (update_interrupted (λ t. (revoke_grant io₂ id t).1) io₁ id access refresh expiry s).0
        ≡ ok tt
      → io₃.fails 0 ≡ false
      → (get_grant io₃ id
            (update_interrupted (λ t. (revoke_grant io₂ id t).1) io₁ id access refresh expiry s).1
          ≡ ok (with_tokens g access refresh expiry))
        × (update_interrupted (λ t. t) io₁ id access refresh expiry s
            ≡ update_ocis_tokens io₁ id access refresh expiry s)
        × ((update_ocis_tokens io₁ id access refresh expiry (revoke_grant io₂ id s).1).0 ≢ ok tt)
        × ((update_ocis_tokens io₁ id access refresh expiry (revoke_grant io₂ id s).1).1
            ≡ (revoke_grant io₂ id s).1)
  unfolding with_tokens
  revocation_lost_in_update io₁ io₂ io₃ id access refresh expiry nonce s g read drawn size now
        written stored reads =
      let g' = with_tokens g access refresh expiry in
      let revoked = (revoke_grant io₂ id s).1 in
      let (refused, same) =
        update_refused io₁ id access refresh expiry revoked (revoked-IsDead io₂ id s now written) in
      let writes =
        interrupted_write (λ t. (revoke_grant io₂ id t).1) io₁ id access refresh expiry s g read in
      (
        rw writes (
            subst (λ j. get_grant io₃ j (put_grant_at 1 io₁ g' revoked).1 ≡ ok g')
              (get_grant-id io₁ id s g read)
              (get_grant-put_grant_at 1 io₁ io₃ nonce g' revoked drawn size
                (subst (λ p. p.0 ≡ ok tt) writes stored) reads)),
        uninterrupted io₁ id access refresh expiry s,
        refused,
        same,
      )
