-- ===== src/Store/Roundtrip.antt =====
-- Writing and reading grants and sessions (internal/store/store.go).
use ocis_mcp_server.Base.{
  ℕ, ◌+◌, String, ◌≡◌, subst, inl, inr, false, some, List, eq_refl, eq-false, arith, ltb,
  if◌then◌else◌, length, ok, err, Result-cases,
}
use ocis_mcp_server.Base.Bytes.{Bytes}
use ocis_mcp_server.Base.Table.{upsert, remove, find-upsert}
use ocis_mcp_server.Grant.Level.{Grant, SpaceGrant}
use ocis_mcp_server.Secretbox.{nonce_size, seal}
use ocis_mcp_server.Secretbox.Roundtrip.{open_box-seal}
use ocis_mcp_server.Store.Db.{
  Externals, externals_box, Io, Store, SessionRow, OcisTok, session_expired,
}
use ocis_mcp_server.Store.Sessions.{put_session, opened, read_row, get_session, delete_row}
use ocis_mcp_server.Store.Grants.{
  tok_of, is_revoked, row_of, put_grant_at, unmarshal_spaces, open_tok, grant_of_row, get_grant,
}

module _ ⦃x : Externals⦄ where
  unmarshal_spaces-encode : (ss : List SpaceGrant) → unmarshal_spaces (x.encode_spaces ss) ≡ ok ss
  unfolding unmarshal_spaces
  unmarshal_spaces-encode ss =
      rw (eq-false (x.encode_spaces ss) "" (x.encode_spaces-ne ss), x.decode-encode_spaces ss)

  open_tok-seal :
      (key nonce enc : Bytes) (t : OcisTok)
      → length nonce ≡ nonce_size
      → seal key (some nonce) (x.encode_tok t) ≡ ok enc
      → open_tok key enc ≡ ok t
  unfolding open_tok
  open_tok-seal key nonce enc t size h =
      ground (arith, open_box-seal key nonce (x.encode_tok t) enc size h, x.decode-encode_tok t)

  grant_of_row_of :
      (key nonce enc : Bytes) (now : ℕ) (g : Grant)
      → length nonce ≡ nonce_size
      → seal key (some nonce) (x.encode_tok (tok_of g)) ≡ ok enc
      → grant_of_row key g.id (row_of now g enc) ≡ ok g
  unfolding grant_of_row row_of is_revoked tok_of
  grant_of_row_of key nonce enc now g size h =
      ground
        (arith, unmarshal_spaces-encode g.spaces, open_tok-seal key nonce enc (tok_of g) size h)

  put_grant_at-stored :
      (k : ℕ) (io : Io) (g : Grant) (s : Store)
      → (put_grant_at k io g s).0 ≡ ok tt
      → (enc : Bytes) × (seal s.col_key io.nonce (x.encode_tok (tok_of g)) ≡ ok enc)
        × ((put_grant_at k io g s).1
            ≡ record s { grants = upsert g.id (row_of io.now g enc) s.grants })
  unfolding put_grant_at
  put_grant_at-stored k io g s h =
      elim (Result-cases (seal s.col_key io.nonce (x.encode_tok (tok_of g)))) [
        | inl (enc, e) ↦ (enc, e, ground (arith, e))
        | inr (b, e) ↦ absurd (ground (arith, e))
      ]

  -- A grant that was stored is the one that is read: no field is lost or changed.
  pub get_grant-put_grant_at :
      (k : ℕ) (io io' : Io) (nonce : Bytes) (g : Grant) (s : Store)
      → io.nonce ≡ some nonce
      → length nonce ≡ nonce_size
      → (put_grant_at k io g s).0 ≡ ok tt
      → io'.fails 0 ≡ false
      → get_grant io' g.id (put_grant_at k io g s).1 ≡ ok g
  unfolding get_grant
  get_grant-put_grant_at k io io' nonce g s drawn size h reads =
      let (enc, sealed, after) = put_grant_at-stored k io g s h in
      let stored = find-upsert g.id g.id (row_of io.now g enc) s.grants in
      ground (
        arith,
        after,
        reads,
        stored,
        eq_refl g.id,
        grant_of_row_of s.col_key nonce enc io.now g size
            (subst (λ o. seal s.col_key o (x.encode_tok (tok_of g)) ≡ ok enc) drawn sealed),
      )

  put_session-stored :
      (io : Io) (id : String) (payload : Bytes) (ttl : ℕ) (s : Store)
      → (put_session io id payload ttl s).0 ≡ ok tt
      → (enc : Bytes) × (seal s.col_key io.nonce payload ≡ ok enc)
        × ((put_session io id payload ttl s).1 ≡ record s {
          sessions = upsert id (record { data_enc = enc; expires_at = io.now + ttl }) s.sessions;
        })
  unfolding put_session
  put_session-stored io id payload ttl s h = elim (Result-cases (seal s.col_key io.nonce payload)) [
    | inl (enc, e) ↦ (enc, e, ground (arith, e))
    | inr (b, e) ↦ absurd (ground (arith, e))
  ]

  -- A session that was stored is read back up to its last second; after it, the read fails and takes
  -- the row away.
  pub get_session-put_session :
      (io io' : Io) (id : String) (payload nonce : Bytes) (ttl : ℕ) (s : Store)
      → io.nonce ≡ some nonce
      → length nonce ≡ nonce_size
      → (put_session io id payload ttl s).0 ≡ ok tt
      → io'.fails 0 ≡ false
      → io'.fails 1 ≡ false
      → let s' = (put_session io id payload ttl s).1 in
        get_session io' id s' ≡ (
          if ltb (io.now + ttl) io'.now
          then (err session_expired, record s' { sessions = remove id s'.sessions })
          else (ok payload, s'))
  unfolding get_session read_row opened delete_row
  get_session-put_session io io' id payload nonce ttl s drawn size h reads deletes =
      let (enc, sealed, after) = put_session-stored io id payload ttl s h in
      let opens =
        open_box-seal s.col_key nonce payload enc size
          (subst (λ o. seal s.col_key o payload ≡ ok enc) drawn sealed) in
      let row : SessionRow = record { data_enc = enc; expires_at = io.now + ttl } in
      ground (arith, after, reads, deletes, opens, find-upsert id id row s.sessions, eq_refl id)
