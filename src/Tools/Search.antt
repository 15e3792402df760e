-- ===== src/Tools/Search.antt =====
-- internal/tools/search.go: full-text search and search by tag.
use Prim.Native.String.{◌++◌}
use ocis_mcp_server.Base.{
  String, not, ◌||◌, List, [], ◌∷◌, ◌==◌, map, if◌then◌else◌, Result, ok, err,
}
use ocis_mcp_server.Base.Ints.{ℤ}
use ocis_mcp_server.Base.Text.{codes, any_code}
use ocis_mcp_server.Client.{
  ClientError, Network, Client, Context, Net, and_then, check, done, validate_id, validate_limit,
}
use ocis_mcp_server.Client.ClientError.{failure}
use ocis_mcp_server.Client.Escape.{path_escape}
use ocis_mcp_server.Client.FileInfo.{PropStat, DavResponse, DavDecoder, to_file_info}
use ocis_mcp_server.Client.Webdav.{search_report}
use ocis_mcp_server.Tools.Bodies.{ListOutput, list_output}

pub record SearchInput : Type 0 where
  pub pattern : String
  pub space_id : String
  pub limit : ℤ
  pub offset : ℤ

pub record SearchResult : Type 0 where
  pub name : String
  pub path : String
  pub kind : String
  pub size : ℤ
  pub content_type : String
  pub last_modified : String
  pub file_id : String
  pub space_id : String
  pub owner_id : String
  pub owner_display_name : String
  pub highlights : String
  pub score : String
  pub tags : String

pub record SearchByTagInput : Type 0 where
  pub tag : String
  pub space_id : String
  pub limit : ℤ
  pub offset : ℤ

unfoldable pub search_path : String → String
search_path space_id =
    if not (space_id == "") then "/dav/spaces/" ++ (path_escape space_id ++ "/") else "/dav/spaces/"

-- the loop over the properties: the last ones stay, whatever their status
unfoldable pub store_search_props : List PropStat → SearchResult → SearchResult
store_search_props [] sr = sr
store_search_props (ps ∷ rest) sr = store_search_props rest (record sr {
  highlights = ps.prop.highlights;
  score = ps.prop.score;
  space_id = ps.prop.space_id;
})

unfoldable pub to_search_result : DavResponse → SearchResult
unfolding store_search_props
to_search_result r =
    let fi = to_file_info r in
    store_search_props r.prop_stats (record {
      name = fi.name;
      path = fi.path;
      kind = fi.kind;
      size = fi.size;
      content_type = fi.content_type;
      last_modified = fi.last_modified;
      file_id = fi.file_id;
      space_id = "";
      owner_id = fi.owner_id;
      owner_display_name = fi.owner_display_name;
      highlights = "";
      score = "";
      tags = fi.tags;
    })

unfoldable pub to_search_results : List DavResponse → List SearchResult
unfolding to_search_result
to_search_results ms = map to_search_result ms

unfoldable pub wrap_search_pattern : String → String
wrap_search_pattern pattern =
    let s = codes pattern in
    if any_code b'*' s || any_code b'?' s then pattern else "*" ++ (pattern ++ "*")

-- `ValidateID`, with a message of its own
unfoldable pub required : String → String → Result ClientError (Unit {0})
required name value = elim (validate_id name value) [
  | ok _ ↦ ok tt
  | err _ ↦ err (failure (name ++ " is required"))
]

module _ ⦃n : Network⦄ ⦃d : DavDecoder⦄ (c : Client) (ctx : Context) where
  unfoldable pub handle_search : SearchInput → Net (ListOutput SearchResult)
  unfolding required to_search_results
  handle_search input =
      let limit = validate_limit input.limit in
      check (required "pattern" input.pattern) (
        and_then
          (search_report c ctx (search_path input.space_id) (wrap_search_pattern input.pattern)
            limit input.offset)
          λ ms. done (list_output limit input.offset (to_search_results ms)))

  unfoldable pub handle_search_by_tag : SearchByTagInput → Net (ListOutput SearchResult)
  unfolding required to_search_results
  handle_search_by_tag input =
      let limit = validate_limit input.limit in
      check (required "tag" input.tag) (
        and_then
          (search_report c ctx (search_path input.space_id) ("Tags:" ++ input.tag) limit
            input.offset)
          λ ms. done (list_output limit input.offset (to_search_results ms)))
