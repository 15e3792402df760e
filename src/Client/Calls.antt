-- ===== src/Client/Calls.antt =====
-- What each call of internal/client sends: requests to its path, with its destination and with the
-- credential of the context.
use Prim.Native.String.{◌++◌}
use ocis_mcp_server.Base.{
  ℕ, String, Bool, List, nat_eq, leb, not, if_elim, Result, ok, err, refl, ◌≡◌, [], ◌∷◌, ◌==◌,
}
use ocis_mcp_server.Base.Ints.{ℤ}
use ocis_mcp_server.Grant.Arguments.{Json}
use ocis_mcp_server.Client.{
  Payload, HttpRequest, HttpResponse, Network, Client, Context, ClientError, done, fail,
  new_request,
}
use ocis_mcp_server.Client.ClientError.{failure, wrapped}
use ocis_mcp_server.Client.Payload.{empty}
use ocis_mcp_server.Client.FileInfo.{DavDecoder}
use ocis_mcp_server.Client.Admits.{
  Admits, credential, set_header-Admits, new_request-Admits, set_destination-Admits, do_json-Sends,
  succeeds-Sends,
}
use ocis_mcp_server.Client.Graph.{
  Decoder, lift, decoded, send_json, get_json, list_json, post_json, patch_json, post_json_raw,
  get_raw, delete, delete_with_headers, set_headers, succeeds,
}
use ocis_mcp_server.Client.Retry.{check_status}
use ocis_mcp_server.Client.Sends.{
  Sends, done-Sends, fail-Sends, and_then-Sends, lift-Sends, do_request-Sends,
}
use ocis_mcp_server.Client.Webdav.{
  propfind, propfind_status, multi_status, report_status, mkcol, upload, download, transfer,
  webdav_delete, search_report, proppatch,
}

-- A predicate at a path of the server, for a request without destination.
abbrev pub At :
    ⦃n : Network⦄ → (String → String → String → Type 0) → Client → Context → String → Type 0
At Q c ctx path = Q (c.base_url ++ path) "" (credential c ctx)

module _ ⦃n : Network⦄ {Q : String → String → String → Type 0} where
  lift_last-Sends {ℓ} : {A : Type ℓ} (r : Result ClientError A) → Sends (Admits Q) (lift r)
  unfolding lift
  lift_last-Sends r = record { kept = λ w h. h }

  pub decoded-Sends {ℓ} :
      {A : Type ℓ} (what : String) (r : Result String A) → Sends (Admits Q) (decoded what r)
  unfolding decoded
  decoded-Sends what (ok a) = done-Sends a
  decoded-Sends what (err e) = fail-Sends _

  multi_status-Sends :
      ⦃d : DavDecoder⦄ (what : String) (resp : HttpResponse)
      → Sends (Admits Q) (multi_status what resp)
  unfolding multi_status
  multi_status-Sends ⦃d⦄ what resp =
      elim (d.decode_multi_status resp.body)
        as (λ m.
          Sends (Admits Q) (elim m [ ok ms ↦ done ms | err e ↦ fail (wrapped what (failure e)) ])) [
            | ok ms ↦ done-Sends ms
            | err e ↦ fail-Sends _
          ]

  module _ (c : Client) (ctx : Context) where
    pub get_json-Sends {ℓ} :
        {A : Type ℓ} ⦃d : Decoder A⦄ (path : String) (query : List (String × String))
        → At Q c ctx path
        → Sends {A = A} (Admits Q) (get_json c ctx path query)
    unfolding get_json
    get_json-Sends ⦃d⦄ path query q = lift-Sends λ r e.
        and_then-Sends (do_json-Sends r (new_request-Admits c ctx _ _ _ _ r q e))
          λ resp. decoded-Sends _ (d.decode resp.body)

    pub list_json-Sends {ℓ} :
        {A : Type ℓ} ⦃d : Decoder A⦄ (path : String) (query : List (String × String))
        → At Q c ctx path
        → Sends {A = List A} (Admits Q) (list_json c ctx path query)
    unfolding list_json
    list_json-Sends ⦃d⦄ path query q = lift-Sends λ r e.
        and_then-Sends (do_json-Sends r (new_request-Admits c ctx _ _ _ _ r q e))
          λ resp. decoded-Sends _ (d.decode_list resp.body)

    send_json-Sends :
        (method path : String) (body : Json)
        → At Q c ctx path
        → Sends (Admits Q) (send_json c ctx method path body)
    unfolding send_json
    send_json-Sends method path body q = lift-Sends λ r e. do_json-Sends _ (
        set_header-Admits "Content-Type" "application/json" r refl refl
          (new_request-Admits c ctx _ _ _ _ r q e))

    pub post_json-Sends {ℓ} :
        {A : Type ℓ} ⦃d : Decoder A⦄ (path : String) (body : Json)
        → At Q c ctx path
        → Sends {A = A} (Admits Q) (post_json c ctx path body)
    unfolding post_json
    post_json-Sends ⦃d⦄ path body q =
        and_then-Sends (send_json-Sends "POST" path body q)
          λ resp. decoded-Sends _ (d.decode resp.body)

    pub patch_json-Sends {ℓ} :
        {A : Type ℓ} ⦃d : Decoder A⦄ (path : String) (body : Json)
        → At Q c ctx path
        → Sends {A = A} (Admits Q) (patch_json c ctx path body)
    unfolding patch_json
    patch_json-Sends ⦃d⦄ path body q =
        and_then-Sends (send_json-Sends "PATCH" path body q)
          λ resp. decoded-Sends _ (d.decode resp.body)

    pub post_json_raw-Sends :
        (path : String) (body : Json)
        → At Q c ctx path
        → Sends (Admits Q) (post_json_raw c ctx path body)
    unfolding post_json_raw
    post_json_raw-Sends path body q =
        and_then-Sends (send_json-Sends "POST" path body q) λ resp. lift_last-Sends _

    pub get_raw-Sends : (path : String) → At Q c ctx path → Sends (Admits Q) (get_raw c ctx path)
    unfolding get_raw
    get_raw-Sends path q = lift-Sends λ r e.
        and_then-Sends (do_request-Sends r (new_request-Admits c ctx _ _ _ _ r q e))
          λ resp. lift-Sends λ body _. done-Sends _

    -- a request without headers of its own whose answer is a success or an error
    bare-Sends :
        (method path : String) (r : HttpRequest)
        → At Q c ctx path
        → new_request c ctx method path [] empty ≡ ok r
        → Sends (Admits Q) (succeeds r)
    bare-Sends method path r q e = succeeds-Sends r (new_request-Admits c ctx _ _ _ _ r q e)

    pub delete-Sends : (path : String) → At Q c ctx path → Sends (Admits Q) (delete c ctx path)
    unfolding delete delete_with_headers set_headers
    delete-Sends path q = lift-Sends λ r e. bare-Sends _ path r q e

    -- with the header of the one call that sets one
    pub purge-Sends :
        (path : String)
        → At Q c ctx path
        → Sends (Admits Q) (delete_with_headers c ctx path (("Purge", "T") ∷ []))
    unfolding delete_with_headers set_headers
    purge-Sends path q = lift-Sends λ r e.
        succeeds-Sends _
          (set_header-Admits "Purge" "T" r refl refl (new_request-Admits c ctx _ _ _ _ r q e))

    pub propfind-Sends :
        ⦃d : DavDecoder⦄ (path depth : String)
        → At Q c ctx path
        → Sends (Admits Q) (propfind c ctx path depth)
    unfolding propfind propfind_status
    propfind-Sends path depth q = lift-Sends λ r e.
        and_then-Sends
          (do_request-Sends _ (
            set_header-Admits "Depth" depth _ refl refl (
              set_header-Admits "Content-Type" "application/xml" r refl refl
                (new_request-Admits c ctx _ _ _ _ r q e))))
          λ resp.
            and_then-Sends
              (if_elim (Sends (Admits Q)) (nat_eq resp.status 404) (fail-Sends _) (
                if_elim (Sends (Admits Q)) (not (nat_eq resp.status 207)) (fail-Sends _)
                  (done-Sends _)))
              λ found. multi_status-Sends _ found

    pub mkcol-Sends : (path : String) → At Q c ctx path → Sends (Admits Q) (mkcol c ctx path)
    unfolding mkcol
    mkcol-Sends path q = lift-Sends λ r e. bare-Sends _ path r q e

    pub upload-Sends :
        (path : String) (body : Payload) (content_type : String)
        → At Q c ctx path
        → Sends (Admits Q) (upload c ctx path body content_type)
    unfolding upload
    upload-Sends path body content_type q = lift-Sends λ r e.
        let p = new_request-Admits c ctx _ _ _ _ r q e in
        succeeds-Sends _ (
          if_elim (Admits Q) (content_type == "") p
            (set_header-Admits "Content-Type" content_type r refl refl p))

    pub download-Sends : (path : String) → At Q c ctx path → Sends (Admits Q) (download c ctx path)
    unfolding download check_status
    download-Sends path q = lift-Sends λ r e.
        and_then-Sends (do_request-Sends r (new_request-Admits c ctx _ _ _ _ r q e)) λ resp.
          and_then-Sends
            (if_elim (Sends (Admits Q)) (leb 400 resp.status) (fail-Sends _) (done-Sends _))
            λ good. lift-Sends λ body _. done-Sends _

    -- both ends of a transfer
    pub transfer-Sends :
        (method src dest : String) (overwrite : Bool)
        → Q (c.base_url ++ src) (c.base_url ++ dest) (credential c ctx)
        → Sends (Admits Q) (transfer c ctx method src dest overwrite)
    unfolding transfer
    transfer-Sends method src dest overwrite q = lift-Sends λ r e. succeeds-Sends _ (
        set_header-Admits "Overwrite" _ _ refl refl (
          set_destination-Admits (c.base_url ++ dest) r
            (new_request-Admits {Q = λ url _ k. Q url (c.base_url ++ dest) k} c ctx _ _ _ _ r q e)))

    pub webdav_delete-Sends :
        (path : String) → At Q c ctx path → Sends (Admits Q) (webdav_delete c ctx path)
    unfolding webdav_delete
    webdav_delete-Sends path q = lift-Sends λ r e. bare-Sends _ path r q e

    pub search_report-Sends :
        ⦃d : DavDecoder⦄ (path pattern : String) (limit : ℕ) (offset : ℤ)
        → At Q c ctx path
        → Sends (Admits Q) (search_report c ctx path pattern limit offset)
    unfolding search_report report_status
    search_report-Sends path pattern limit offset q = lift-Sends λ r e.
        and_then-Sends
          (do_request-Sends _ (
            set_header-Admits "Content-Type" "application/xml" r refl refl
              (new_request-Admits c ctx _ _ _ _ r q e)))
          λ resp.
            and_then-Sends
              (if_elim (Sends (Admits Q)) (nat_eq resp.status 207) (done-Sends _)
                (if_elim (Sends (Admits Q)) (nat_eq resp.status 200) (done-Sends _) (fail-Sends _)))
              λ found. multi_status-Sends _ found

    pub proppatch-Sends :
        (path : String) (set_props : List (String × String))
        → At Q c ctx path
        → Sends (Admits Q) (proppatch c ctx path set_props)
    unfolding proppatch
    proppatch-Sends path set_props q = lift-Sends λ r e. succeeds-Sends _ (
        set_header-Admits "Content-Type" "application/xml" r refl refl
          (new_request-Admits c ctx _ _ _ _ r q e))
