-- ===== src/Tools/Files.antt =====
-- internal/tools/files.go: the tools that name a resource by a space and a path.
use Prim.Native.String.{◌++◌}
use ocis_mcp_server.Base.{
  ℕ, ◌*◌, String, Bool, true, false, ◌&&◌, [], ◌∷◌, ◌==◌, ltb, length, if◌then◌else◌, Result, ok,
  err,
}
use ocis_mcp_server.Base.Bytes.{Bytes, take}
use ocis_mcp_server.Base.Ints.{decimal}
use ocis_mcp_server.Base.Text.{codes, has_prefix, trim_left}
use ocis_mcp_server.Client.{
  Payload, Network, Client, Context, Net, and_then, check, done, fail, validate_id, validate_path,
}
use ocis_mcp_server.Client.ClientError.{failure, wrapped}
use ocis_mcp_server.Client.Escape.{path_escape}
use ocis_mcp_server.Client.Payload.{content, bytes}
use ocis_mcp_server.Client.Webdav.{mkcol, upload, download, move, copy, webdav_delete, proppatch}
use ocis_mcp_server.Tools.{DeleteOutput, success, require_confirm}

pub record CreateFolderInput : Type 0 where
  pub space_id : String
  pub path : String

pub record UploadFileInput : Type 0 where
  pub space_id : String
  pub path : String
  pub content : String
  pub content_type : String
  pub base64 : Bool

pub record DownloadFileInput : Type 0 where
  pub space_id : String
  pub path : String

pub record DownloadFileOutput : Type 0 where
  pub content : String
  pub content_type : String
  pub size : ℕ
  pub truncated : Bool

pub record MoveFileInput : Type 0 where
  pub space_id : String
  pub source_path : String
  pub dest_path : String
  pub overwrite : Bool

pub record CopyFileInput : Type 0 where
  pub space_id : String
  pub source_path : String
  pub dest_path : String
  pub overwrite : Bool

pub record DeleteFileInput : Type 0 where
  pub space_id : String
  pub path : String
  pub confirm : Bool

pub record TagResourceInput : Type 0 where
  pub space_id : String
  pub path : String
  pub tags : String

-- base64.StdEncoding, utf8.Valid and the conversion of bytes to a string.
pub record Texts : Type 0 where
  pub decode_base64 : String → Result String Bytes
  pub valid_utf8 : Bytes → Bool
  pub text_of_bytes : Bytes → String

unfoldable pub dav_path : String → String → String
unfolding trim_left path_escape
dav_path space_id path =
    let rest = trim_left b'/' path in
    if rest == ""
    then "/dav/spaces/" ++ (path_escape space_id ++ "/")
    else "/dav/spaces/" ++ (path_escape space_id ++ ("/" ++ rest))

-- what all of these handlers check of a space and a path
unfoldable pub on_path {ℓ} : {A : Type ℓ} → String → String → Net A → Net A
on_path space_id path m = check (validate_id "space_id" space_id) (check (validate_path path) m)

unfoldable pub is_text_content_type : String → Bool
is_text_content_type ct =
    if has_prefix (codes ct) (codes "text/")
    then true
    else if has_prefix (codes ct) (codes "application/json")
    then true
    else if has_prefix (codes ct) (codes "application/xml")
    then true
    else if has_prefix (codes ct) (codes "application/javascript")
    then true
    else if has_prefix (codes ct) (codes "application/yaml")
    then true
    else if has_prefix (codes ct) (codes "application/x-yaml")
    then true
    else has_prefix (codes ct) (codes "application/toml")

abbrev pub max_text : ℕ
max_text = 100 * 1024

unfoldable pub download_output : ⦃t : Texts⦄ → Bytes × String → DownloadFileOutput
unfolding is_text_content_type
download_output ⦃t⦄ (body, ct) =
    if t.valid_utf8 body && is_text_content_type ct
    then if ltb max_text (length body)
      then record {
        content = t.text_of_bytes (take max_text body);
        content_type = ct;
        size = length body;
        truncated = true;
      }
      else record {
        content = t.text_of_bytes body;
        content_type = ct;
        size = length body;
        truncated = false;
      }
    else record {
      content = "[Binary file, " ++ decimal (length body) ++ " bytes, type: " ++ ct ++ "]";
      content_type = ct;
      size = length body;
      truncated = false;
    }

module _ ⦃n : Network⦄ (c : Client) (ctx : Context) where
  unfoldable pub handle_create_folder : CreateFolderInput → Net DeleteOutput
  unfolding on_path
  handle_create_folder input = on_path input.space_id input.path (
      and_then (mkcol c ctx (dav_path input.space_id input.path))
        λ _. done (success "folder created"))

  unfoldable pub decoded_content : Result String Bytes → Net Payload
  decoded_content (ok body) = done (bytes body)
  decoded_content (err e) = fail (wrapped "invalid base64 content" (failure e))

  unfoldable pub upload_content : ⦃t : Texts⦄ → UploadFileInput → Net Payload
  unfolding decoded_content
  upload_content ⦃t⦄ input =
      if input.base64
      then decoded_content (t.decode_base64 input.content)
      else done (content input.content)

  unfoldable pub handle_upload_file : ⦃t : Texts⦄ → UploadFileInput → Net DeleteOutput
  unfolding on_path upload_content
  handle_upload_file input =
      let ct =
        if input.content_type == "" then "application/octet-stream" else input.content_type in
      on_path input.space_id input.path (
        and_then (upload_content input) λ body.
          and_then (upload c ctx (dav_path input.space_id input.path) body ct)
            λ _. done (success "file uploaded"))

  unfoldable pub handle_download_file : ⦃t : Texts⦄ → DownloadFileInput → Net DownloadFileOutput
  unfolding on_path download_output
  handle_download_file input = on_path input.space_id input.path (
      and_then (download c ctx (dav_path input.space_id input.path))
        λ found. done (download_output found))

  unfoldable pub handle_move_file : MoveFileInput → Net DeleteOutput
  unfolding on_path
  handle_move_file input = on_path input.space_id input.source_path (
      check (validate_path input.dest_path) (
        and_then
          (move c ctx (dav_path input.space_id input.source_path)
            (dav_path input.space_id input.dest_path) input.overwrite)
          λ _. done (success "file moved")))

  unfoldable pub handle_copy_file : CopyFileInput → Net DeleteOutput
  unfolding on_path
  handle_copy_file input = on_path input.space_id input.source_path (
      check (validate_path input.dest_path) (
        and_then
          (copy c ctx (dav_path input.space_id input.source_path)
            (dav_path input.space_id input.dest_path) input.overwrite)
          λ _. done (success "file copied")))

  unfoldable pub handle_delete_file : DeleteFileInput → Net DeleteOutput
  unfolding on_path require_confirm
  handle_delete_file input = check (require_confirm input.confirm) (
      on_path input.space_id input.path (
        and_then (webdav_delete c ctx (dav_path input.space_id input.path))
          λ _. done (success "file deleted")))

  unfoldable pub handle_tag_resource : TagResourceInput → Net DeleteOutput
  unfolding on_path
  handle_tag_resource input = on_path input.space_id input.path (
      and_then (proppatch c ctx (dav_path input.space_id input.path) (("oc:tags", input.tags) ∷ []))
        λ _. done (success "tags added"))

  -- all tags go, whichever the input names
  unfoldable pub handle_untag_resource : TagResourceInput → Net DeleteOutput
  unfolding on_path
  handle_untag_resource input = on_path input.space_id input.path (
      and_then (proppatch c ctx (dav_path input.space_id input.path) (("oc:tags", "") ∷ []))
        λ _. done (success "tags removed"))
