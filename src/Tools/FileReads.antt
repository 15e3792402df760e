-- ===== src/Tools/FileReads.antt =====
-- internal/tools/files.go: the tools that list, describe and restore, and those that name a resource
-- by its ID.
use Prim.Native.String.{◌++◌}
use ocis_mcp_server.Base.{ℕ, String, ◌||◌, true, List, [], ◌∷◌, map, length, if◌then◌else◌}
use ocis_mcp_server.Base.Bytes.{drop}
use ocis_mcp_server.Base.Ints.{ℤ}
use ocis_mcp_server.Base.Text.{codes, any_code}
use ocis_mcp_server.Client.{Network, Client, Context, Net, and_then, check, done, fail, validate_id}
use ocis_mcp_server.Client.ClientError.{failure, quoted}
use ocis_mcp_server.Client.Escape.{path_escape}
use ocis_mcp_server.Client.FileInfo.{DavResponse, DavDecoder, FileInfo, to_file_info}
use ocis_mcp_server.Client.Graph.{Decoder, get_json}
use ocis_mcp_server.Client.Webdav.{propfind, copy}
use ocis_mcp_server.Tools.{DeleteOutput, success}
use ocis_mcp_server.Tools.Files.{dav_path, on_path}

pub record ListFilesInput : Type 0 where
  pub space_id : String
  pub path : String

pub record ListFilesOutput : Type 0 where
  pub files : List FileInfo
  pub path : String
  pub count : ℕ

pub record GetFileInfoInput : Type 0 where
  pub space_id : String
  pub path : String

pub record GetFileVersionsInput : Type 0 where
  pub space_id : String
  pub file_id : String

pub record FileVersion : Type 0 where
  pub name : String
  pub size : ℤ
  pub last_modified : String
  pub etag : String

pub record RestoreFileVersionInput : Type 0 where
  pub space_id : String
  pub file_id : String
  pub version_id : String

pub record GetResourceByIdInput : Type 0 where
  pub space_id : String
  pub resource_id : String

pub record GetResourceMetadataInput : Type 0 where
  pub drive_id : String
  pub item_id : String

pub record ResourceMetadataOutput : Type 0 where
  pub id : String
  pub name : String
  pub size : ℤ
  pub last_modified : String
  pub etag : String

unfoldable pub file_version : DavResponse → FileVersion
unfolding to_file_info
file_version r =
    let fi = to_file_info r in
    record { name = fi.name; size = fi.size; last_modified = fi.last_modified; etag = fi.etag }

-- the answers but the first, which is the directory itself
unfoldable pub list_files_output : String → List DavResponse → ListFilesOutput
list_files_output path ms =
    let files = map to_file_info (drop 1 ms) in
    record { files = files; path = path; count = length files }

unfoldable pub resource_path : GetResourceByIdInput → String
resource_path input =
    let id = codes input.resource_id in
    if any_code b'$' id || any_code b'!' id
    then "/dav/spaces/" ++ path_escape input.resource_id
    else "/dav/spaces/" ++ (path_escape input.space_id ++ ("!" ++ path_escape input.resource_id))

module _ ⦃n : Network⦄ (c : Client) (ctx : Context) where
  unfoldable pub handle_list_files : ⦃d : DavDecoder⦄ → ListFilesInput → Net ListFilesOutput
  unfolding on_path
  handle_list_files input = on_path input.space_id input.path (
      and_then (propfind c ctx (dav_path input.space_id input.path) "1")
        λ ms. done (list_files_output input.path ms))

  unfoldable pub first_info : List DavResponse → Net FileInfo → Net FileInfo
  first_info [] none_found = none_found
  first_info (r ∷ _) none_found = done (to_file_info r)

  unfoldable pub handle_get_file_info : ⦃d : DavDecoder⦄ → GetFileInfoInput → Net FileInfo
  unfolding on_path first_info
  handle_get_file_info input = on_path input.space_id input.path (
      and_then (propfind c ctx (dav_path input.space_id input.path) "0")
        λ ms. first_info ms (fail (quoted "no response for path " input.path)))

  unfoldable pub handle_get_file_versions :
      ⦃d : DavDecoder⦄ → GetFileVersionsInput → Net (List FileVersion)
  unfolding file_version
  handle_get_file_versions input = check (validate_id "space_id" input.space_id) (
      check (validate_id "file_id" input.file_id) (
        and_then (propfind c ctx ("/dav/meta/" ++ (path_escape input.file_id ++ "/v")) "1")
          λ ms. done (map file_version (drop 1 ms))))

  unfoldable pub handle_restore_file_version : RestoreFileVersionInput → Net DeleteOutput
  handle_restore_file_version input =
      let versions = "/dav/meta/" ++ (path_escape input.file_id ++ "/v/") in
      check (validate_id "space_id" input.space_id) (
        check (validate_id "file_id" input.file_id) (
          and_then
            (copy c ctx (versions ++ path_escape input.version_id) (versions ++ "restore") true)
            λ _. done (success "version restored")))

  unfoldable pub handle_get_resource_by_id : ⦃d : DavDecoder⦄ → GetResourceByIdInput → Net FileInfo
  unfolding first_info resource_path
  handle_get_resource_by_id input = check (validate_id "space_id" input.space_id) (
      check (validate_id "resource_id" input.resource_id) (
        and_then (propfind c ctx (resource_path input) "0")
          λ ms. first_info ms (fail (failure "resource not found"))))

  unfoldable pub handle_get_resource_metadata :
      ⦃d : Decoder ResourceMetadataOutput⦄ → GetResourceMetadataInput → Net ResourceMetadataOutput
  handle_get_resource_metadata input = check (validate_id "drive_id" input.drive_id) (
      check (validate_id "item_id" input.item_id) (
        get_json c ctx
          ("/graph/v1.0/drives/"
            ++ (path_escape input.drive_id ++ ("/items/" ++ path_escape input.item_id)))
          []))
