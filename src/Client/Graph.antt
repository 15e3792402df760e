-- ===== src/Client/Graph.antt =====
-- internal/client/libregraph.go: calls with JSON bodies. A type of the answers comes with what
-- encoding/json decodes into it; the body of a request is the tree that it marshals.
use ocis_mcp_server.Base.{
  ℕ, ◌*◌, length, String, List, [], ◌∷◌, none, some, leb, if◌then◌else◌, Result, ok, err,
}
use ocis_mcp_server.Base.Bytes.{Bytes, take}
use ocis_mcp_server.Client.{
  Headers, HttpResponse, ClientError, Network, Net, Client, Context, and_then, done, fail,
  new_request, set_header, HttpRequest,
}
use ocis_mcp_server.Client.ClientError.{failure, wrapped}
use ocis_mcp_server.Client.Payload.{empty, json}
use ocis_mcp_server.Client.Retry.{do_request, do_json, check_status}
use ocis_mcp_server.Grant.Arguments.{Json}

-- `json.NewDecoder(resp.Body).Decode` into a value of the type.
pub record Decoder {ℓ} (A : Type ℓ) : Type ℓ where
  pub decode : Bytes → Result String A
  pub decode_list : Bytes → Result String (List A)

unfoldable pub lift {ℓ} : {A : Type ℓ} → Result ClientError A → Net A
lift r w = (r, w)

unfoldable pub decoded {ℓ} : {A : Type ℓ} → String → Result String A → Net A
decoded what (ok a) = done a
decoded what (err e) = fail (wrapped what (failure e))

unfoldable pub set_headers : Headers → HttpRequest → HttpRequest
set_headers [] r = r
set_headers ((k, v) ∷ rest) r = set_headers rest (set_header k v r)

-- io.ReadAll: all bytes, and the error that cut them off
unfoldable pub read_all : HttpResponse → Result ClientError Bytes
read_all resp = elim resp.cut_off [ none ↦ ok resp.body | some e ↦ err (failure e) ]

-- io.ReadAll of a LimitReader: past the limit nothing is read
unfoldable pub read_limited : ℕ → HttpResponse → Result ClientError Bytes
unfolding read_all
read_limited limit resp =
    if leb limit (length resp.body) then ok (take limit resp.body) else read_all resp

module _ ⦃n : Network⦄ where
  -- a request whose answer counts only as a success or an error
  unfoldable pub succeeds : HttpRequest → Net (Unit {0})
  succeeds req = and_then (do_request req) λ resp. and_then (check_status resp) λ _. done tt

module _ ⦃n : Network⦄ (c : Client) (ctx : Context) where
  unfoldable pub get_json {ℓ} :
      {A : Type ℓ} → ⦃d : Decoder A⦄ → String → List (String × String) → Net A
  unfolding lift decoded
  get_json ⦃d⦄ path query =
      and_then (lift (new_request c ctx "GET" path query empty))
        λ req. and_then (do_json req) λ resp. decoded "decoding response" (d.decode resp.body)

  unfoldable pub list_json {ℓ} :
      {A : Type ℓ} → ⦃d : Decoder A⦄ → String → List (String × String) → Net (List A)
  unfolding lift decoded
  list_json ⦃d⦄ path query = and_then (lift (new_request c ctx "GET" path query empty)) λ req.
      and_then (do_json req) λ resp. decoded "decoding list response" (d.decode_list resp.body)

  -- what `PostJSON`, `PatchJSON` and `PostJSONRaw` do alike
  unfoldable pub send_json : String → String → Json → Net HttpResponse
  unfolding lift
  send_json method path body =
      and_then (lift (new_request c ctx method path [] (json body)))
        λ req. do_json (set_header "Content-Type" "application/json" req)

  unfoldable pub post_json {ℓ} : {A : Type ℓ} → ⦃d : Decoder A⦄ → String → Json → Net A
  unfolding send_json decoded
  post_json ⦃d⦄ path body =
      and_then (send_json "POST" path body) λ resp. decoded "decoding response" (d.decode resp.body)

  unfoldable pub patch_json {ℓ} : {A : Type ℓ} → ⦃d : Decoder A⦄ → String → Json → Net A
  unfolding send_json decoded
  patch_json ⦃d⦄ path body =
      and_then (send_json "PATCH" path body)
        λ resp. decoded "decoding response" (d.decode resp.body)

  unfoldable pub post_json_raw : String → Json → Net Bytes
  unfolding send_json lift read_all
  post_json_raw path body = and_then (send_json "POST" path body) λ resp. lift (read_all resp)

  unfoldable pub delete_with_headers : String → Headers → Net (Unit {0})
  unfolding lift set_headers succeeds
  delete_with_headers path headers =
      and_then (lift (new_request c ctx "DELETE" path [] empty))
        λ req. succeeds (set_headers headers req)

  unfoldable pub delete : String → Net (Unit {0})
  unfolding delete_with_headers
  delete path = delete_with_headers path []

  unfoldable pub get_raw : String → Net (Bytes × ℕ)
  unfolding lift read_limited
  get_raw path = and_then (lift (new_request c ctx "GET" path [] empty)) λ req.
      and_then (do_request req)
        λ resp. and_then (lift (read_limited (1024 * 1024) resp)) λ body. done (body, resp.status)
