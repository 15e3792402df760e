-- ===== src/Client/Webdav.antt =====
-- internal/client/webdav.go: the WebDAV methods, and what an answer says of a file.
use Prim.Native.String.{◌++◌}
use ocis_mcp_server.Base.{
  ℕ, ◌*◌, String, Bool, not, List, [], ◌∷◌, ◌==◌, nat_eq, if◌then◌else◌, ok, err,
}
use ocis_mcp_server.Base.Bytes.{Bytes}
use ocis_mcp_server.Base.Ints.{ℤ, decimal, decimal_int}
use ocis_mcp_server.Client.{
  Payload, Network, HttpResponse, Net, Client, Context, and_then, done, fail, new_request, header,
  set_header,
}
use ocis_mcp_server.Client.ClientError.{api_error, failure, wrapped}
use ocis_mcp_server.Client.Payload.{empty, content}
use ocis_mcp_server.Client.Escape.{xml_escape}
use ocis_mcp_server.Client.Errors.{error_from_response}
use ocis_mcp_server.Client.FileInfo.{DavResponse, DavDecoder}
use ocis_mcp_server.Client.Graph.{lift, succeeds, read_limited}
use ocis_mcp_server.Client.Retry.{do_request, check_status}

unfoldable pub propfind_body : String
propfind_body =
    "<?xml version=\"1.0\" encoding=\"UTF-8\"?>\n"
    ++ "<d:propfind xmlns:d=\"DAV:\" xmlns:oc=\"http://owncloud.org/ns\">\n" ++ "  <d:prop>\n"
    ++ "    <d:resourcetype/>\n" ++ "    <d:displayname/>\n" ++ "    <d:getcontentlength/>\n"
    ++ "    <d:getcontenttype/>\n" ++ "    <d:getlastmodified/>\n" ++ "    <d:getetag/>\n"
    ++ "    <oc:fileid/>\n" ++ "    <oc:permissions/>\n" ++ "    <oc:size/>\n"
    ++ "    <oc:owner-id/>\n" ++ "    <oc:owner-display-name/>\n" ++ "    <oc:favorite/>\n"
    ++ "    <oc:share-types/>\n" ++ "    <oc:tags/>\n" ++ "    <oc:name/>\n" ++ "  </d:prop>\n"
    ++ "</d:propfind>"

-- the body of a REPORT, with the text of the pattern escaped
unfoldable pub search_body : String → ℕ → ℤ → String
unfolding xml_escape
search_body pattern limit offset =
    "<?xml version=\"1.0\" encoding=\"UTF-8\"?>\n"
    ++ "<oc:search-files xmlns:d=\"DAV:\" xmlns:oc=\"http://owncloud.org/ns\">\n"
    ++ "  <d:prop>\n"
    ++ "    <d:resourcetype/>\n"
    ++ "    <d:displayname/>\n"
    ++ "    <d:getcontentlength/>\n"
    ++ "    <d:getcontenttype/>\n"
    ++ "    <d:getlastmodified/>\n"
    ++ "    <d:getetag/>\n"
    ++ "    <oc:fileid/>\n"
    ++ "    <oc:permissions/>\n"
    ++ "    <oc:size/>\n"
    ++ "    <oc:owner-id/>\n"
    ++ "    <oc:owner-display-name/>\n"
    ++ "    <oc:tags/>\n"
    ++ "    <oc:name/>\n"
    ++ "    <oc:highlights/>\n"
    ++ "    <oc:score/>\n"
    ++ "    <oc:spaceid/>\n"
    ++ "  </d:prop>\n"
    ++ "  <oc:search>\n"
    ++ "    <oc:pattern>"
    ++ xml_escape pattern
    ++ "</oc:pattern>\n    <oc:limit>"
    ++ decimal limit
    ++ "</oc:limit>\n    <oc:offset>"
    ++ decimal_int offset
    ++ "</oc:offset>\n  </oc:search>\n</oc:search-files>"

unfoldable pub prop_entries : List (String × String) → String
unfolding xml_escape
prop_entries [] = ""
prop_entries ((k, v) ∷ rest) =
    "<" ++ k ++ ">" ++ xml_escape v ++ "</" ++ k ++ ">" ++ prop_entries rest

unfoldable pub proppatch_body : List (String × String) → String
unfolding prop_entries
proppatch_body set_props =
    "<?xml version=\"1.0\" encoding=\"UTF-8\"?>\n"
    ++ "<d:propertyupdate xmlns:d=\"DAV:\" xmlns:oc=\"http://owncloud.org/ns\">\n"
    ++ "  <d:set>\n"
    ++ "    <d:prop>\n"
    ++ "      "
    ++ prop_entries set_props
    ++ "\n    </d:prop>\n  </d:set>\n</d:propertyupdate>"

module _ ⦃n : Network⦄ where
  unfoldable pub propfind_status : String → HttpResponse → Net HttpResponse
  propfind_status path resp =
      if nat_eq resp.status 404
      then fail (api_error 404 ("resource not found: " ++ path))
      else if not (nat_eq resp.status 207)
      then fail (error_from_response resp)
      else done resp

  unfoldable pub report_status : HttpResponse → Net HttpResponse
  report_status resp =
      if nat_eq resp.status 207
      then done resp
      else if nat_eq resp.status 200
      then done resp
      else fail (error_from_response resp)

  unfoldable pub multi_status : ⦃d : DavDecoder⦄ → String → HttpResponse → Net (List DavResponse)
  multi_status ⦃d⦄ what resp = elim (d.decode_multi_status resp.body) [
    | ok ms ↦ done ms
    | err e ↦ fail (wrapped what (failure e))
  ]

module _ ⦃n : Network⦄ (c : Client) (ctx : Context) where
  unfoldable pub propfind : ⦃d : DavDecoder⦄ → String → String → Net (List DavResponse)
  unfolding lift propfind_status multi_status
  propfind path depth =
      and_then (lift (new_request c ctx "PROPFIND" path [] (content propfind_body))) λ req.
        and_then
          (do_request (set_header "Depth" depth (set_header "Content-Type" "application/xml" req)))
          λ resp.
            and_then (propfind_status path resp)
              λ found. multi_status "parsing PROPFIND response" found

  unfoldable pub mkcol : String → Net (Unit {0})
  unfolding lift
  mkcol path = and_then (lift (new_request c ctx "MKCOL" path [] empty)) succeeds

  unfoldable pub upload : String → Payload → String → Net (Unit {0})
  unfolding lift
  upload path body content_type = and_then (lift (new_request c ctx "PUT" path [] body)) λ req.
      succeeds (if content_type == "" then req else set_header "Content-Type" content_type req)

  -- the bytes and the Content-Type
  unfoldable pub download : String → Net (Bytes × String)
  unfolding lift
  download path = and_then (lift (new_request c ctx "GET" path [] empty)) λ req.
      and_then (do_request req) λ resp. and_then (check_status resp) λ good.
        and_then (lift (read_limited (1024 * 1024) good))
          λ body. done (body, header "Content-Type" good.headers)

  -- what `Move` and `Copy` do alike
  unfoldable pub transfer : String → String → String → Bool → Net (Unit {0})
  unfolding lift
  transfer method src_path dest_path overwrite =
      and_then (lift (new_request c ctx method src_path [] empty)) λ req. succeeds (
        set_header "Overwrite" (if overwrite then "T" else "F")
          (set_header "Destination" (c.base_url ++ dest_path) req))

  unfoldable pub move : String → String → Bool → Net (Unit {0})
  unfolding transfer
  move src_path dest_path overwrite = transfer "MOVE" src_path dest_path overwrite

  unfoldable pub copy : String → String → Bool → Net (Unit {0})
  unfolding transfer
  copy src_path dest_path overwrite = transfer "COPY" src_path dest_path overwrite

  unfoldable pub webdav_delete : String → Net (Unit {0})
  unfolding lift
  webdav_delete path = and_then (lift (new_request c ctx "DELETE" path [] empty)) succeeds

  unfoldable pub search_report : ⦃d : DavDecoder⦄ → String → String → ℕ → ℤ → Net (List DavResponse)
  unfolding lift report_status multi_status
  search_report path pattern limit offset =
      and_then
        (lift (new_request c ctx "REPORT" path [] (content (search_body pattern limit offset))))
        λ req. and_then (do_request (set_header "Content-Type" "application/xml" req)) λ resp.
          and_then (report_status resp) λ found. multi_status "parsing search response" found

  unfoldable pub proppatch : String → List (String × String) → Net (Unit {0})
  unfolding lift
  proppatch path set_props =
      and_then (lift (new_request c ctx "PROPPATCH" path [] (content (proppatch_body set_props))))
        λ req. succeeds (set_header "Content-Type" "application/xml" req)
