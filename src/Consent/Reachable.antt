-- ===== src/Consent/Reachable.antt =====
-- Loading and saving the flow of a session (internal/consent/handler.go).
use ocis_mcp_server.Base.{
  ℕ, ◌+◌, String, ◌≡◌, ◌≢◌, refl, sym, ap, ◌∙◌, subst, inl, inr, none, some, ◌==◌, length,
  if◌then◌else◌, if_elim, arith, Bool-cases, Option-cases, ok, err, Result-cases,
}
use ocis_mcp_server.Base.Bytes.{Bytes}
use ocis_mcp_server.Base.Table.{find, upsert, find-upsert}
use ocis_mcp_server.Http.{Request}
use ocis_mcp_server.Secretbox.{BoxError, nonce_size, new_cipher, seal, open_box}
use ocis_mcp_server.Secretbox.Roundtrip.{open_box-seal}
use ocis_mcp_server.Oidc.{GraphDrive}
use ocis_mcp_server.Store.Db.{Externals, externals_box, Io, Store, SessionRow}
use ocis_mcp_server.Store.Sessions.{put_session, get_session, read_row, opened}
use ocis_mcp_server.Store.Shrinks.{Shrinks, same-Shrinks, get_session-Shrinks}
use ocis_mcp_server.Oauth.Pkce.{Encoding}
use ocis_mcp_server.Oauth.Server.{Libraries, read_session_cookie}
use ocis_mcp_server.Consent.Flow.{Flow, Wizard, marshal, unmarshal_flow, unmarshal_flow-marshal}
use ocis_mcp_server.Consent.Handler.{Handler, flow_of_raw, load_sid, load_flow, save_flow}
use ocis_mcp_server.Consent.Ceiling.{IsWithin, with_bag-IsWithin}

module _ ⦃x : Externals⦄ where
  -- Every nonce that is drawn has the size that AES-GCM asks for.
  abbrev pub DrawsNonces : Io → Type 0
  DrawsNonces io = (n : Bytes) → io.nonce ≡ some n → length n ≡ nonce_size

module _ ⦃x : Externals⦄ ⦃b : Encoding⦄ ⦃l : Libraries⦄ ⦃w : Wizard⦄ (D : GraphDrive → Type 0) where
  -- Every session that opens to a flow opens to one within the ceilings.
  pub record IsCappedStore (s : Store) : Type 0 where
    pub flows :
        (id : String) (row : SessionRow) (payload : Bytes) (f : Flow)
        → find id s.sessions ≡ some row
        → open_box s.col_key row.data_enc ≡ ok payload
        → unmarshal_flow payload ≡ some f
        → IsWithin D f

  pub shrunk : {s t : Store} → Shrinks s t → IsCappedStore s → IsCappedStore t
  shrunk {s} {t} a g = record {
    flows = λ id row payload f found opens reads.
        g.flows id row payload f (a.sessions id row found)
          (subst (λ k. open_box k row.data_enc ≡ ok payload) a.col_key opens) reads;
  }

  got_session :
      (io : Io) (id : String) (s : Store) (payload : Bytes)
      → (get_session io id s).0 ≡ ok payload
      → (row : SessionRow) × (find id s.sessions ≡ some row)
        × (open_box s.col_key row.data_enc ≡ ok payload)
  unfolding get_session read_row opened
  got_session io id s payload h = elim (Option-cases (find id s.sessions)) [
    | inl e ↦ absurd (ground (arith, e))
    | inr (row, e) ↦ (row, e, ground (arith, e))
  ]

  -- the two ways a load goes
  loaded_flow :
      (io : Io) (h : Handler) (r : Request) (s : Store) (sid : String) (f : Flow)
      → (load_flow io h r s).0 ≡ ok (sid, f)
      → (payload : Bytes) × ((get_session io sid s).0 ≡ ok payload)
        × (unmarshal_flow payload ≡ some f)
  unfolding load_flow load_sid flow_of_raw
  loaded_flow io h r s sid f e = elim (Option-cases (read_session_cookie h.oauth r)) [
    | inl missing ↦ absurd (ground (arith, missing))
    | inr (id, read) ↦ elim (Result-cases (get_session io id s).0) [
      | inl (payload, got) ↦ elim (Option-cases (unmarshal_flow payload)) [
        | inl bad ↦ absurd (ground (arith, read, got, bad))
        | inr (g, reads) ↦
            let pair : (id ≡ sid) × (g ≡ f) = ground (arith, read, got, reads) in
            (
              payload,
              subst (λ k. (get_session io k s).0 ≡ ok payload) pair.0 got,
              reads ∙ ap some pair.1,
            )
      ]
      | inr (bad, failed) ↦ absurd (ground (arith, read, failed))
    ]
  ]

  pub load_flow-IsWithin :
      (io : Io) (h : Handler) (r : Request) (s : Store) (sid : String) (f : Flow)
      → IsCappedStore s
      → (load_flow io h r s).0 ≡ ok (sid, f)
      → IsWithin D f
  load_flow-IsWithin io h r s sid f g e =
      let (payload, got, reads) = loaded_flow io h r s sid f e in
      let (row, found, opens) = got_session io sid s payload got in
      g.flows sid row payload f found opens reads

  load_sid-Shrinks : (io : Io) (id : String) (s : Store) → Shrinks s (load_sid io (some id) s).1
  unfolding load_sid
  load_sid-Shrinks io id s =
      let d = get_session-Shrinks io id s in
      record {
        col_key = ground (arith, d.col_key);
        sessions = λ j row h. ground (arith, d.sessions j row);
      }

  pub load_flow-Shrinks :
      (io : Io) (h : Handler) (r : Request) (s : Store) → Shrinks s (load_flow io h r s).1
  unfolding load_flow load_sid
  load_flow-Shrinks io h r s = elim (Option-cases (read_session_cookie h.oauth r)) [
    | inl missing ↦ rw missing (same-Shrinks refl refl)
    | inr (id, read) ↦ rw read (load_sid-Shrinks io id s)
  ]

  seal_needs_nonce : (key payload enc : Bytes) → seal key none payload ≢ ok enc
  unfolding seal new_cipher
  seal_needs_nonce key payload enc h = ground arith

  stored_flow :
      (io : Io) (h : Handler) (sid : String) (f : Flow) (s : Store) (enc : Bytes)
      → IsWithin D f
      → DrawsNonces io
      → seal s.col_key io.nonce (marshal f) ≡ ok enc
      → (payload : Bytes) (g : Flow) → open_box s.col_key enc ≡ ok payload
      → unmarshal_flow payload ≡ some g
      → IsWithin D g
  stored_flow io h sid f s enc within draws sealed payload g opens reads =
      elim (Option-cases io.nonce) [
        | inl missing ↦ absurd (
            seal_needs_nonce s.col_key (marshal f) enc
              (subst (λ o. seal s.col_key o (marshal f) ≡ ok enc) missing sealed))
        | inr (n, drawn) ↦
            let opened_again =
              open_box-seal s.col_key n (marshal f) enc (draws n drawn)
                (subst (λ o. seal s.col_key o (marshal f) ≡ ok enc) drawn sealed) in
            with_bag-IsWithin D f g
              (ground (arith, opened_again, opens, reads, unmarshal_flow-marshal f)) within
      ]

  upserted :
      (sid : String) (enc : Bytes) (expires_at : ℕ) (s : Store)
      → IsCappedStore s
      → ((payload : Bytes) (g : Flow)
          → open_box s.col_key enc ≡ ok payload
          → unmarshal_flow payload ≡ some g
          → IsWithin D g)
      → IsCappedStore (record s {
        sessions = upsert sid (record { data_enc = enc; expires_at = expires_at }) s.sessions;
      })
  upserted sid enc expires_at s g new = record {
    flows = λ id row payload f found opens reads.
        let written : SessionRow = record { data_enc = enc; expires_at = expires_at } in
        elim (Bool-cases (sid == id)) [
          | inl same ↦
              let e : enc ≡ row.data_enc =
                ground (arith, find-upsert sid id written s.sessions, same) in
              new payload f (subst (λ d. open_box s.col_key d ≡ ok payload) (sym e) opens) reads
          | inr other ↦
              g.flows id row payload f
                (ground (arith, find-upsert sid id written s.sessions, other)) opens reads
        ];
  }

  saved :
      (io : Io) (h : Handler) (sid : String) (f : Flow) (s : Store) (enc : Bytes)
      → seal s.col_key io.nonce (marshal f) ≡ ok enc
      → (save_flow io h sid f s).1 ≡ (
          if io.fails 0 then s else record s {
            sessions =
                upsert sid
                  (record { data_enc = enc; expires_at = io.now + h.session_ttl })
                  s.sessions;
          })
  unfolding save_flow put_session
  saved io h sid f s enc sealed = ground (arith, sealed)

  unsaved :
      (io : Io) (h : Handler) (sid : String) (f : Flow) (s : Store) (e : BoxError)
      → seal s.col_key io.nonce (marshal f) ≡ err e
      → (save_flow io h sid f s).1 ≡ s
  unfolding save_flow put_session
  unsaved io h sid f s e failed = ground (arith, failed)

  -- Saving a flow that is within the ceilings leaves every stored flow within them.
  pub save_flow-IsCappedStore :
      (io : Io) (h : Handler) (sid : String) (f : Flow) (s : Store)
      → IsWithin D f
      → DrawsNonces io
      → IsCappedStore s
      → IsCappedStore (save_flow io h sid f s).1
  save_flow-IsCappedStore io h sid f s within draws g =
      elim (Result-cases (seal s.col_key io.nonce (marshal f))) [
        | inl (enc, sealed) ↦
            let put : Store = record s {
              sessions =
                  upsert sid (record { data_enc = enc; expires_at = io.now + h.session_ttl })
                    s.sessions;
            } in
            subst IsCappedStore (sym (saved io h sid f s enc sealed)) (
              if_elim IsCappedStore (io.fails 0) g (
                upserted sid enc (io.now + h.session_ttl) s g
                  (stored_flow io h sid f s enc within draws sealed)))
        | inr (e, failed) ↦ subst IsCappedStore (sym (unsaved io h sid f s e failed)) g
      ]
